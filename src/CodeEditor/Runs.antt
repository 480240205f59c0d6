-- ===== src/CodeEditor/Runs.antt =====
-- The code of src/visitors/code_editor.c at concrete inputs.
use jni2hook.Base.{
  ℕ, ◌≡◌, ◌⊎◌, refl, Bool, true, false, [], ◌∷◌, get_elem?, none, some, arith, List, ok, ◌++◌,
}
use jni2hook.NodeList.Growth.{empty_list}
use jni2hook.Instruction.Node.{
  Operand, Instruction, instruction_length_at, instruction_switch_entries, offsets_pass,
  instruction_list_recompute_offsets,
}
use jni2hook.Instruction.Opcode.{opcode_length, instruction_opcode_is_defined}
use jni2hook.Instruction.Offsets.{IsLaidOut}
use jni2hook.TypeAnnotation.Refs.{type_annotation_flush}
use jni2hook.ClassFile.Tree.{AttributeInfo}
use jni2hook.CodeEditor.Tables.{
  take_buffer, write_line_numbers, read_line_numbers, write_locals, read_locals,
}
use jni2hook.CodeEditor.TableLaws.{read_line_numbers-write, read_locals-write}
use jni2hook.CodeEditor.Editor.{LocalVariableEntry, LineNumberEntry, CodeEditor}
use jni2hook.CodeEditor.References.{
  map_reference, map_u2_reference, walk_first, walk_instruction, walk_operand, walk_line_number,
  walk_references, map_all_references, shift_references, shift_after, shift_with, offset_to_index,
  index_to_offset, index_at_offset,
}
use jni2hook.CodeEditor.Insert.{
  Outcome, code_editor_insert, insert_at, settle, splice, instruction_list_reserve,
}
use jni2hook.CodeEditor.Refusal.{IsFlushStatus, code_editor_insert-ends}
use jni2hook.CodeEditor.Following.{code_editor_insert-branch}
use jni2hook.CodeEditor.Laid.{code_editor_insert-IsLaidOut}

abbrev always : ℕ → Bool
always n = true

abbrev push : Instruction
push = record { offset = 0; opcode = 16; wide = false; operand = Operand.immediate 5 }

abbrev jump : Instruction
jump = record { offset = 2; opcode = 167; wide = false; operand = Operand.branch 5 }

abbrev leave : Instruction
leave = record { offset = 5; opcode = 177; wide = false; operand = Operand.no_operand }

abbrev pause : Instruction
pause = record { offset = 0; opcode = 0; wide = false; operand = Operand.no_operand }

abbrev method : CodeEditor
method = record {
  max_stack = 1;
  max_locals = 0;
  instructions = record { items = push ∷ jump ∷ leave ∷ []; capacity = 3; code_length = 6 };
  exceptions = empty_list;
  has_line_numbers = true;
  line_number_name_index = 4;
  line_numbers = record { start_pc = 5; line_number = 12 } ∷ [];
  has_locals = false;
  local_variable_name_index = 0;
  locals = [];
  has_local_types = false;
  local_type_name_index = 0;
  local_types = [];
  has_stack_map = false;
  stack_map_name_index = 0;
  stack_map = [];
  other_attributes = empty_list;
  type_annotations = empty_list;
}

-- With a pause put in before the jump.
abbrev longer_method : CodeEditor
longer_method = record method {
  max_stack = 2;
  instructions = record {
    items =
        push
        ∷ record pause { offset = 2 }
        ∷ record jump { offset = 3; operand = Operand.branch 6 }
        ∷ record leave { offset = 6 }
        ∷ [];
    capacity = 4;
    code_length = 7;
  };
  line_numbers = record { start_pc = 6; line_number = 12 } ∷ [];
}

inserted : code_editor_insert always 2 2 (pause ∷ []) 1 method ≡ some (none, longer_method)
unfolding code_editor_insert insert_at settle splice instruction_list_reserve map_reference
    map_u2_reference walk_first walk_instruction walk_operand walk_line_number walk_references
    map_all_references shift_references shift_after shift_with offset_to_index index_to_offset
    index_at_offset instruction_list_recompute_offsets offsets_pass instruction_length_at
    instruction_switch_entries opcode_length instruction_opcode_is_defined type_annotation_flush
inserted = refl

code_editor_insert-branch_example :
    (node' : Instruction) × (get_elem? longer_method.instructions.items 2 ≡ some node')
    × (node'.opcode ≡ 167)
    × (node'.operand ≡ Operand.branch (index_to_offset longer_method.instructions 3))
unfolding offset_to_index index_at_offset index_to_offset shift_after
code_editor_insert-branch_example =
    code_editor_insert-branch always 2 2 (pause ∷ []) 1 method longer_method 1 jump 5 1 2
      (omega arith) inserted (omega arith) (omega arith) refl refl refl refl refl refl

code_editor_insert-IsLaidOut_example :
    IsLaidOut 0 longer_method.instructions.items longer_method.instructions.code_length
code_editor_insert-IsLaidOut_example =
    code_editor_insert-IsLaidOut always 2 2 (pause ∷ []) 1 method longer_method (omega arith)
      inserted (omega arith)

-- An offset inside an instruction.
code_editor_insert-ends_example :
    (outcome : Outcome) × (code_editor_insert always 2 1 (pause ∷ []) 1 method ≡ some outcome)
    × (IsFlushStatus outcome.0 ⊎ (outcome.1 ≡ method))
code_editor_insert-ends_example =
    code_editor_insert-ends always 2 1 (pause ∷ []) 1 method (omega arith)

abbrev lines : List LineNumberEntry
lines = record { start_pc = 0; line_number = 10 } ∷ record { start_pc = 2; line_number = 11 } ∷ []

-- A second table for the method, which has one line already.
read_line_numbers-write_example :
    (a : AttributeInfo) × (take_buffer always (write_line_numbers always lines) 9 ≡ ok a)
    × (read_line_numbers always a method
        ≡ ok (record method {
          line_numbers = method.line_numbers ++ lines;
          has_line_numbers = true;
          line_number_name_index = 9;
        }))
read_line_numbers-write_example =
    read_line_numbers-write always (λ n. refl) lines 9 method
      ((omega arith, omega arith), ((omega arith, omega arith), tt)) (omega arith)

abbrev variables : List LocalVariableEntry
variables =
    record { start_pc = 0; length = 6; name_index = 7; descriptor_index = 8; index = 1 } ∷ []

read_locals-write_example :
    (a : AttributeInfo) × (take_buffer always (write_locals always variables) 5 ≡ ok a)
    × (a.attribute_name_index ≡ 5)
    × (read_locals always a variables ≡ ok (variables ++ variables))
read_locals-write_example =
    read_locals-write always (λ n. refl) variables 5 variables
      ((omega arith, omega arith, omega arith, omega arith, omega arith), tt) (omega arith)
