-- ===== src/CodeEditor/Laid.antt =====
-- src/visitors/code_editor.c, `code_editor_insert`: the offsets of the instructions afterwards.
use jni2hook.Base.{
  ℕ, ◌+◌, ◌*◌, ◌≤◌, ◌≡◌, refl, ap, subst, Bool, true, List, [], ◌∷◌, none, some, length,
}
use mathlib.Core.Option.{some-injective}
use jni2hook.Instruction.Node.{
  padding, length_with, instruction_length_at, instruction_switch_entries, Operand, Instruction,
}
use jni2hook.Instruction.Offsets.{IsLaidOut, recompute_offsets-IsLaidOut}
use jni2hook.CodeEditor.Editor.{CodeEditor}
use jni2hook.CodeEditor.References.{
  Walk, map_reference, walk_first, walk_all, walk_pair, walk_operand, walk_instruction,
  walk_references, offset_to_index, index_to_offset, map_all_references, shift_references,
}
use jni2hook.CodeEditor.Insert.{insert_at, settle, splice, code_editor_insert}
use jni2hook.CodeEditor.Places.{length-walk}
use jni2hook.CodeEditor.Success.{inserted_inv, settled_inv}

length_with-walk :
    (w v : Walk ℕ) (apply : Bool) (node : Instruction) (offset : ℕ) (operand : Operand)
    → length_with node.opcode node.wide offset (walk_operand apply w v operand).1
      ≡ length_with node.opcode node.wide offset operand
unfolding walk_operand instruction_switch_entries
length_with-walk w v apply node offset Operand.no_operand = refl
length_with-walk w v apply node offset (Operand.immediate value) = refl
length_with-walk w v apply node offset (Operand.local index) = refl
length_with-walk w v apply node offset (Operand.iinc index delta) = refl
length_with-walk w v apply node offset (Operand.constant index) = refl
length_with-walk w v apply node offset (Operand.cp_index index) = refl
length_with-walk w v apply node offset (Operand.invoke_interface index count last) = refl
length_with-walk w v apply node offset (Operand.invoke_dynamic index last) = refl
length_with-walk w v apply node offset (Operand.multianewarray index dimensions) = refl
length_with-walk w v apply node offset (Operand.branch target) = refl
length_with-walk w v apply node offset (Operand.branch_wide target) = refl
length_with-walk w v apply node offset (Operand.table_switch default low high targets) = refl
length_with-walk w v apply node offset (Operand.lookup_switch default pairs) =
    ap (λ (n : ℕ). 1 + padding offset + 8 + n * 8) (length-walk (walk_pair apply w v) pairs)

length_at-walk :
    (w v : Walk ℕ) (apply : Bool) (node : Instruction) (offset : ℕ)
    → instruction_length_at (walk_instruction apply w v node).1 offset
      ≡ instruction_length_at node offset
unfolding walk_instruction instruction_length_at
length_at-walk w v apply node offset = length_with-walk w v apply node offset node.operand

IsLaidOut-walk :
    (w v : Walk ℕ) (apply : Bool) (nodes : List Instruction) (offset end : ℕ)
    → IsLaidOut offset nodes end
    → IsLaidOut offset (walk_all (walk_instruction apply w v) nodes).1 end
unfolding walk_first walk_instruction
IsLaidOut-walk w v apply [] offset end h = h
IsLaidOut-walk w v apply (node ∷ nodes) offset end h =
    (h.0, rw (length_at-walk w v apply node offset) (IsLaidOut-walk w v apply nodes _ end h.1))

insert_at-IsLaidOut :
    (rounds at : ℕ) (nodes : List Instruction) (extra : ℕ) (e e' : CodeEditor)
    → 2 ≤ rounds
    → insert_at rounds at nodes extra e ≡ some (none, e')
    → IsLaidOut 0 e'.instructions.items e'.instructions.code_length
unfolding insert_at settle map_all_references walk_references
insert_at-IsLaidOut rounds at nodes extra e e' enough h =
    let shifted =
      shift_references at (length nodes)
        (splice at nodes (map_all_references offset_to_index true e).1) in
    let (list, run, laid, same) = recompute_offsets-IsLaidOut rounds shifted.instructions enough in
    let placed =
      (map_all_references index_to_offset true (record shifted { instructions = list })).1 in
    let settled = subst (λ o. settle extra shifted o ≡ some (none, e')) run h in
    let final = settled_inv extra placed _ e' (some-injective _ _ settled) in
    let w = map_reference (index_to_offset list) true in
    rw final (IsLaidOut-walk w w true list.items 0 list.code_length laid)

-- After a successful insertion of at least one instruction the instructions stand one behind the
-- other, the first at 0, and the code length is the end of the last.
pub code_editor_insert-IsLaidOut :
    (grants : ℕ → Bool) (rounds offset : ℕ) (nodes : List Instruction) (extra_stack : ℕ)
    (e e' : CodeEditor)
    → 2 ≤ rounds
    → code_editor_insert grants rounds offset nodes extra_stack e ≡ some (none, e')
    → 1 ≤ length nodes
    → IsLaidOut 0 e'.instructions.items e'.instructions.code_length
code_editor_insert-IsLaidOut grants rounds offset nodes extra_stack e e' enough h some_nodes =
    let (list, kept, found, run) =
      inserted_inv grants rounds offset nodes extra_stack e e' h some_nodes in
    insert_at-IsLaidOut rounds _ nodes extra_stack _ e' enough run
