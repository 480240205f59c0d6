-- ===== src/CodeEditor/Load.antt =====
-- src/visitors/code_editor.c, `code_editor_load`.
use jni2hook.Base.{
  ℕ, Bool, true, false, List, [], ◌∷◌, length, Result, ok, err, bind, ClassfileStatus,
  if◌then◌else◌,
}
use jni2hook.ClassFile.Tree.{AttributeInfo}
use jni2hook.ConstantPool.Codec.{ConstantPool}
use jni2hook.NodeList.Growth.{
  NodeList, empty_list, is_named, attribute_list_append, attribute_info_set_info,
}
use jni2hook.Instruction.Decode.{instruction_list_parse}
use jni2hook.CodeAttribute.Codec.{ExceptionEntry, code_attribute_parse}
use jni2hook.CodeAttribute.Exceptions.{
  exception_table_init, exception_table_reserve, exception_table_append,
}
use jni2hook.StackMapTable.Codec.{stack_map_table_parse}
use jni2hook.TypeAnnotation.Collect.{type_annotation_is_carrier, type_annotation_collect}
use jni2hook.CodeEditor.Editor.{CodeEditor}
use jni2hook.CodeEditor.Tables.{read_line_numbers, read_locals}

-- LineNumberTable, LocalVariableTable, LocalVariableTypeTable and StackMapTable.
abbrev pub line_number_table_name : List ℕ
line_number_table_name =
    76 ∷ 105 ∷ 110 ∷ 101 ∷ 78 ∷ 117 ∷ 109 ∷ 98 ∷ 101 ∷ 114 ∷ 84 ∷ 97 ∷ 98 ∷ 108 ∷ 101 ∷ []

abbrev pub local_variable_table_name : List ℕ
local_variable_table_name =
    76 ∷ 111 ∷ 99 ∷ 97 ∷ 108 ∷ 86 ∷ 97 ∷ 114 ∷ 105 ∷ 97 ∷ 98 ∷ 108 ∷ 101 ∷ 84 ∷ 97 ∷ 98 ∷ 108 ∷ 101
    ∷ []

abbrev pub local_variable_type_table_name : List ℕ
local_variable_type_table_name =
    76 ∷ 111 ∷ 99 ∷ 97 ∷ 108 ∷ 86 ∷ 97 ∷ 114 ∷ 105 ∷ 97 ∷ 98 ∷ 108 ∷ 101 ∷ 84 ∷ 121 ∷ 112 ∷ 101 ∷ 84
    ∷ 97 ∷ 98 ∷ 108 ∷ 101 ∷ []

abbrev pub stack_map_table_name : List ℕ
stack_map_table_name = 83 ∷ 116 ∷ 97 ∷ 99 ∷ 107 ∷ 77 ∷ 97 ∷ 112 ∷ 84 ∷ 97 ∷ 98 ∷ 108 ∷ 101 ∷ []

unfoldable pub code_editor_init : CodeEditor
code_editor_init = record {
  max_stack = 0;
  max_locals = 0;
  instructions = record { items = []; capacity = 0; code_length = 0 };
  exceptions = empty_list;
  has_line_numbers = false;
  line_number_name_index = 0;
  line_numbers = [];
  has_locals = false;
  local_variable_name_index = 0;
  locals = [];
  has_local_types = false;
  local_type_name_index = 0;
  local_types = [];
  has_stack_map = false;
  stack_map_name_index = 0;
  stack_map = [];
  other_attributes = empty_list;
  type_annotations = empty_list;
}

module _ (grants : ℕ → Bool) where
  unfoldable pub append_exceptions :
      List ExceptionEntry → NodeList ExceptionEntry → Result (NodeList ExceptionEntry)
  append_exceptions [] table = ok table
  append_exceptions (e ∷ others) table =
      bind (exception_table_append grants table e) (append_exceptions others)

  -- The table of the exceptions, with room for all of them first.
  unfoldable pub copy_exceptions : List ExceptionEntry → Result (NodeList ExceptionEntry)
  copy_exceptions entries =
      bind (exception_table_reserve grants exception_table_init (length entries))
        (append_exceptions entries)

  unfoldable pub load_locals : AttributeInfo → CodeEditor → Result CodeEditor
  load_locals nested e = bind (read_locals grants nested e.locals) (λ entries. ok (record e {
    locals = entries;
    has_locals = true;
    local_variable_name_index = nested.attribute_name_index;
  }))

  unfoldable pub load_local_types : AttributeInfo → CodeEditor → Result CodeEditor
  load_local_types nested e = bind (read_locals grants nested e.local_types) (λ entries.
      ok (record e {
        local_types = entries;
        has_local_types = true;
        local_type_name_index = nested.attribute_name_index;
      }))

  unfoldable pub load_stack_map : AttributeInfo → CodeEditor → Result CodeEditor
  load_stack_map nested e =
      if e.has_stack_map
      then err ClassfileStatus.unsupported
      else bind (stack_map_table_parse grants nested.info) (λ frames. ok (record e {
        stack_map = frames;
        has_stack_map = true;
        stack_map_name_index = nested.attribute_name_index;
      }))

  -- The attribute stays opaque; the offsets in it are noted.
  unfoldable pub load_other : ConstantPool → AttributeInfo → CodeEditor → Result CodeEditor
  load_other pool nested e =
      let index = length e.other_attributes.items in
      let named : AttributeInfo = record {
        attribute_name_index = nested.attribute_name_index;
        info = [];
      } in
      bind (attribute_list_append grants named e.other_attributes) (λ room.
        bind (attribute_info_set_info grants named nested.info) (λ copy.
          bind (attribute_list_append grants copy e.other_attributes) (λ others.
            bind
              (if type_annotation_is_carrier pool nested.attribute_name_index
                then type_annotation_collect grants index copy.info e.type_annotations
                else ok e.type_annotations)
              (λ refs. ok (record e { other_attributes = others; type_annotations = refs })))))

  -- The body of the loop over the attributes.
  unfoldable pub load_nested : ConstantPool → AttributeInfo → CodeEditor → Result CodeEditor
  load_nested pool nested e =
      if is_named pool line_number_table_name nested
      then read_line_numbers grants nested e
      else (if is_named pool local_variable_table_name nested
          then load_locals nested e
          else (if is_named pool local_variable_type_table_name nested
              then load_local_types nested e
              else (if is_named pool stack_map_table_name nested
                  then load_stack_map nested e
                  else load_other pool nested e)))

  unfoldable pub load_attributes :
      ConstantPool → List AttributeInfo → CodeEditor → Result CodeEditor
  load_attributes pool [] e = ok e
  load_attributes pool (nested ∷ others) e =
      bind (load_nested pool nested e) (load_attributes pool others)

  unfoldable pub code_editor_load : AttributeInfo → ConstantPool → Result CodeEditor
  code_editor_load code pool = bind (code_attribute_parse grants code.info) (λ parsed.
      bind (instruction_list_parse grants parsed.code) (λ instructions.
        bind (copy_exceptions parsed.exceptions) (λ exceptions.
          load_attributes pool parsed.attributes (record code_editor_init {
            max_stack = parsed.max_stack;
            max_locals = parsed.max_locals;
            instructions = instructions;
            exceptions = exceptions;
          }))))
