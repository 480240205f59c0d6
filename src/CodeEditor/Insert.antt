-- ===== src/CodeEditor/Insert.antt =====
-- src/visitors/code_editor.c, `code_editor_insert`.
use jni2hook.Base.{
  ℕ, ◌+◌, ◌*◌, ◌%◌, ◌^◌, Bool, true, false, List, ◌++◌, Option, none, some, length, take, drop,
  ClassfileStatus, if◌then◌else◌, ltb, leb, ◌==◌,
}
use jni2hook.ClassFile.Tree.{AttributeInfo}
use jni2hook.Instruction.Node.{Instruction, InstructionList, instruction_list_recompute_offsets}
use jni2hook.Instruction.Decode.{instruction_size}
use jni2hook.TypeAnnotation.Refs.{is_negative, type_annotation_flush}
use jni2hook.CodeEditor.Editor.{CodeEditor}
use jni2hook.CodeEditor.References.{
  offset_to_index, index_to_offset, map_all_references, shift_references,
}

-- A status, `none` for CLASSFILE_OK, and the editor afterwards.
abbrev pub Outcome : Type 0
Outcome = Option ClassfileStatus × CodeEditor

-- `instruction_list_reserve` for so many instructions: what it leaves, `none` where memory is lacking.
unfoldable pub instruction_list_reserve : (ℕ → Bool) → ℕ → InstructionList → Option InstructionList
instruction_list_reserve grants capacity list =
    if leb capacity list.capacity
    then some list
    else (if grants (capacity * instruction_size)
        then some (record list { capacity = capacity })
        else none)

unfoldable pub splice : ℕ → List Instruction → CodeEditor → CodeEditor
splice at nodes e = record e {
  instructions = record e.instructions {
    items = take at e.instructions.items ++ (nodes ++ drop at e.instructions.items);
  };
}

abbrev pub with_stack : ℕ → Outcome → Outcome
with_stack extra_stack (some status, e) = (some status, e)
with_stack extra_stack (none, e) =
    (none, record e { max_stack = (e.max_stack + extra_stack) % 65536 })

abbrev pub with_attributes : CodeEditor → Option ClassfileStatus × List AttributeInfo → Outcome
with_attributes e (status, attributes) =
    (status, record e { other_attributes = record e.other_attributes { items = attributes } })

-- The offsets are put back, the payloads of the annotations written, and the stack deepened.
unfoldable pub settle : ℕ → CodeEditor → Option InstructionList → Option Outcome
settle extra_stack e none = none
settle extra_stack e (some list) =
    let placed = (map_all_references index_to_offset true (record e { instructions = list })).1 in
    some (
      with_stack extra_stack (
        with_attributes placed
          (type_annotation_flush placed.type_annotations.items placed.other_attributes.items)))

-- From the first write on, in an array with room enough.
unfoldable pub insert_at : ℕ → ℕ → List Instruction → ℕ → CodeEditor → Option Outcome
insert_at rounds at nodes extra_stack e =
    let indexed = (map_all_references offset_to_index true e).1 in
    let shifted = shift_references at (length nodes) (splice at nodes indexed) in
    settle extra_stack shifted (instruction_list_recompute_offsets rounds shifted.instructions)

abbrev pub insert_room :
    ℕ → ℕ → List Instruction → ℕ → CodeEditor → Option InstructionList → Option Outcome
insert_room rounds at nodes extra_stack e none = some (some ClassfileStatus.out_of_memory, e)
insert_room rounds at nodes extra_stack e (some list) =
    insert_at rounds at nodes extra_stack (record e { instructions = list })

-- `none` means that the rounds for the offsets ran out; two are enough.
unfoldable pub code_editor_insert :
    (ℕ → Bool) → ℕ → ℕ → List Instruction → ℕ → CodeEditor → Option Outcome
code_editor_insert grants rounds offset nodes extra_stack e =
    let at = offset_to_index e.instructions offset in
    let (fine, rehearsed) = map_all_references offset_to_index false e in
    let count = (length rehearsed.instructions.items + length nodes) % 2 ^ 32 in
    let room = instruction_list_reserve grants count rehearsed.instructions in
    if length nodes == 0
    then some (none, e)
    else (if is_negative at
        then some (some ClassfileStatus.bad_offset, e)
        else (if ltb 65535 (e.max_stack + extra_stack)
            then some (some ClassfileStatus.limit_exceeded, e)
            else (if fine
                then insert_room rounds at nodes extra_stack rehearsed room
                else some (some ClassfileStatus.bad_offset, rehearsed))))
