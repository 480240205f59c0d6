-- ===== src/CodeEditor/Editor.antt =====
-- include/jni2hook/utils/visitors/code_editor.h, the state of the editor.
use jni2hook.Base.{ℕ, Bool, List}
use jni2hook.ClassFile.Tree.{AttributeInfo}
use jni2hook.NodeList.Growth.{NodeList}
use jni2hook.Instruction.Node.{InstructionList}
use jni2hook.CodeAttribute.Codec.{ExceptionEntry}
use jni2hook.StackMapTable.Codec.{StackMapFrame}
use jni2hook.TypeAnnotation.Refs.{TypeAnnotationRefs}

pub record LineNumberEntry : Type 0 where
  pub start_pc : ℕ
  pub line_number : ℕ

pub record LocalVariableEntry : Type 0 where
  pub start_pc : ℕ
  pub length : ℕ
  pub name_index : ℕ
  pub descriptor_index : ℕ
  pub index : ℕ

-- A count is the length of its list.
pub record CodeEditor : Type 0 where
  pub max_stack : ℕ
  pub max_locals : ℕ
  pub instructions : InstructionList
  pub exceptions : NodeList ExceptionEntry
  pub has_line_numbers : Bool
  pub line_number_name_index : ℕ
  pub line_numbers : List LineNumberEntry
  pub has_locals : Bool
  pub local_variable_name_index : ℕ
  pub locals : List LocalVariableEntry
  pub has_local_types : Bool
  pub local_type_name_index : ℕ
  pub local_types : List LocalVariableEntry
  pub has_stack_map : Bool
  pub stack_map_name_index : ℕ
  pub stack_map : List StackMapFrame
  pub other_attributes : NodeList AttributeInfo
  pub type_annotations : TypeAnnotationRefs
