-- ===== src/CodeEditor/Following.antt =====
-- src/visitors/code_editor.c, `code_editor_insert`: what a successful insertion does to the
-- branches.
use jni2hook.Base.{
  ℕ, ◌+◌, ◌≤◌, ◌<◌, ◌≡◌, refl, sym, ap, ◌∙◌, subst, if◌then◌else◌, ltb, leb, Bool, true, false,
  List, Option, none, some, length, get_elem?, arith,
}
use mathlib.Core.Option.{some-injective}
use jni2hook.Instruction.Node.{Operand, Instruction, InstructionList}
use jni2hook.Instruction.Offsets.{recompute_offsets-IsLaidOut}
use jni2hook.TypeAnnotation.Refs.{is_negative}
use jni2hook.CodeEditor.Editor.{CodeEditor}
use jni2hook.CodeEditor.References.{
  Walk, map_reference, walk_all, walk_operand, walk_instruction, walk_references, offset_to_index,
  index_to_offset, offset_found, map_all_references, shift_after, shift_with, shift_references,
}
use jni2hook.CodeEditor.Insert.{insert_at, settle, splice, code_editor_insert}
use jni2hook.CodeEditor.Places.{
  get_elem-walk, length-walk, get_elem-splice, get_elem-moved, length-get_elem,
}
use jni2hook.CodeEditor.Success.{
  offset_to_index_below, walk_offset_found, inserted_inv, settled_inv,
}

branch_walked :
    (apply : Bool) (w v : Walk ℕ) (node : Instruction) (target moved_to : ℕ)
    → node.operand ≡ Operand.branch target
    → (w target).1 ≡ moved_to
    → (walk_instruction apply w v node).1 ≡ record node { operand = Operand.branch moved_to }
unfolding walk_instruction walk_operand
branch_walked apply w v node target moved_to branch goes = rw (branch, goes) refl

mapped :
    (map : ℕ → ℕ) (value result : ℕ)
    → map value ≡ result
    → is_negative result ≡ false
    → (map_reference map true value).1 ≡ result
unfolding map_reference
mapped map value result goes positive = rw (goes, positive) refl

code_end_found :
    (list : InstructionList) (items : List Instruction) (found : Option Instruction)
    → offset_found (record list { items = items }) found ≡ offset_found list found
code_end_found list items none = refl
code_end_found list items (some node) = refl

-- A walk changes no offset of an instruction.
walk_index_to_offset :
    (apply : Bool) (w v : Walk ℕ) (list : InstructionList) (i : ℕ)
    → index_to_offset
        (record list { items = (walk_all (walk_instruction apply w v) list.items).1 })
        i
      ≡ index_to_offset list i
unfolding index_to_offset
walk_index_to_offset apply w v list i =
    rw
      (
        code_end_found list (walk_all (walk_instruction apply w v) list.items).1,
        walk_offset_found apply w v list list.items i,
      )
      refl

-- The instructions of an editor after all but the last walk: where an instruction is, with the branch
-- that it has.
shifted_branch :
    (at : ℕ) (nodes : List Instruction) (e : CodeEditor) (j : ℕ) (node : Instruction) (target i : ℕ)
    → at ≤ length e.instructions.items
    → length e.instructions.items + length nodes < 2147483648
    → get_elem? e.instructions.items j ≡ some node
    → node.operand ≡ Operand.branch target
    → offset_to_index e.instructions target ≡ i
    → is_negative i ≡ false
    → get_elem?
        (shift_references at
          (length nodes)
          (splice at nodes (map_all_references offset_to_index true e).1)).instructions.items
        (shift_with at (length nodes) j)
      ≡ some (record node { operand = Operand.branch (shift_after at (length nodes) i) })
unfolding shift_references splice map_all_references walk_references
shifted_branch at nodes e j node target i room small found branch names positive =
    let w =
      walk_instruction true (map_reference (offset_to_index e.instructions) true)
        (map_reference (offset_to_index e.instructions) true) in
    let v =
      walk_instruction true (λ t. (true, shift_after at (length nodes) t))
        (λ t. (true, shift_with at (length nodes) t)) in
    let size = length-walk w e.instructions.items in
    let first = get_elem-walk w e.instructions.items j node found in
    let second =
      get_elem-splice at (walk_all w e.instructions.items).1 nodes j (w node).1 first (omega arith)
        (omega arith) in
    let third = get_elem-walk v _ _ _ second in
    let one = branch_walked true _ _ node target i branch (mapped _ target i names positive) in
    let two =
      branch_walked true _ _ (w node).1 i _ (ap (λ (n : Instruction). n.operand) one) refl in
    third
    ∙ ap some (
        two
        ∙ ap
            (λ (n : Instruction). record n {
              operand = Operand.branch (shift_after at (length nodes) i);
            })
            one)

-- Where an instruction stands after the offsets are put back, and its branch.
settled_branch :
    (extra : ℕ) (e : CodeEditor) (list : InstructionList) (e' : CodeEditor) (j : ℕ)
    (node : Instruction) (target : ℕ)
    → settle extra e (some list) ≡ some (none, e')
    → get_elem? list.items j ≡ some node
    → node.operand ≡ Operand.branch target
    → is_negative (index_to_offset e'.instructions target) ≡ false
    → get_elem? e'.instructions.items j
      ≡ some (record node { operand = Operand.branch (index_to_offset e'.instructions target) })
unfolding settle map_all_references walk_references
settled_branch extra e list e' j node target h found branch positive =
    let w = map_reference (index_to_offset list) true in
    let placed = (map_all_references index_to_offset true (record e { instructions = list })).1 in
    let final = settled_inv extra placed _ e' (some-injective _ _ h) in
    let offsets : index_to_offset e'.instructions target ≡ index_to_offset list target =
      rw final (walk_index_to_offset true w w list target) in
    let walked = get_elem-walk (walk_instruction true w w) list.items j node found in
    rw (offsets, final)
      (walked
        ∙ ap some (
            branch_walked true w w node target _ branch
              (mapped _ target _ refl (rw⁻¹ offsets positive))))

-- The rewriting of the offsets changes neither an instruction's place nor its branch.
inserted_branch :
    (rounds at : ℕ) (nodes : List Instruction) (extra : ℕ) (e e' : CodeEditor) (j : ℕ)
    (node : Instruction) (target i : ℕ)
    → 2 ≤ rounds
    → insert_at rounds at nodes extra e ≡ some (none, e')
    → at ≤ length e.instructions.items
    → length e.instructions.items + length nodes < 2147483648
    → get_elem? e.instructions.items j ≡ some node
    → node.operand ≡ Operand.branch target
    → offset_to_index e.instructions target ≡ i
    → is_negative i ≡ false
    → is_negative (index_to_offset e'.instructions (shift_after at (length nodes) i)) ≡ false
    → (node' : Instruction) × (get_elem? e'.instructions.items (shift_with at (length nodes) j)
        ≡ some node')
      × (node'.opcode ≡ node.opcode)
      × (node'.operand
          ≡ Operand.branch (index_to_offset e'.instructions (shift_after at (length nodes) i)))
unfolding insert_at
inserted_branch rounds at nodes extra e e' j node target i enough h room small found branch names
      positive near =
    let shifted =
      shift_references at (length nodes)
        (splice at nodes (map_all_references offset_to_index true e).1) in
    let (list, run, laid, same) = recompute_offsets-IsLaidOut rounds shifted.instructions enough in
    let before = shifted_branch at nodes e j node target i room small found branch names positive in
    let (again, there, equal) =
      get_elem-moved list.items shifted.instructions.items _ _ same before in
    let operand = ap (λ (n : Instruction). n.operand) equal in
    let opcode = ap (λ (n : Instruction). n.opcode) equal in
    let settled = subst (λ o. settle extra shifted o ≡ some (none, e')) run h in
    let after = settled_branch extra shifted list e' _ again _ settled there operand near in
    (
      record again {
        operand =
            Operand.branch (index_to_offset e'.instructions (shift_after at (length nodes) i));
      },
      after,
      opcode,
      refl,
    )

-- Below 2 ^ 31 nothing wraps or is negative.
shift_after-index :
    (at count i : ℕ)
    → at < 2147483648
    → i < 2147483648
    → count < 2147483648
    → shift_after at count i ≡ (if ltb at i then i + count else i)
unfolding shift_after
shift_after-index at count i h k l = ground arith

shift_with-index :
    (at count i : ℕ)
    → at < 2147483648
    → i < 2147483648
    → count < 2147483648
    → shift_with at count i ≡ (if leb at i then i + count else i)
unfolding shift_with
shift_with-index at count i h k l = ground arith

-- After a successful insertion of at least one instruction, a branch stands where its instruction was
-- moved to, behind the inserted ones if it was not before them, and leads to the offset that the
-- instruction of its old target has now, or, where that was the place of the insertion, to the first
-- inserted one. This holds where the instructions number less than 2 ^ 31 and the new target, as an
-- offset, is below 2 ^ 31.
pub code_editor_insert-branch :
    (grants : ℕ → Bool) (rounds offset : ℕ) (nodes : List Instruction) (extra_stack : ℕ)
    (e e' : CodeEditor) (j : ℕ) (node : Instruction) (target at i : ℕ)
    → 2 ≤ rounds
    → code_editor_insert grants rounds offset nodes extra_stack e ≡ some (none, e')
    → 1 ≤ length nodes
    → length e.instructions.items + length nodes < 2147483648
    → offset_to_index e.instructions offset ≡ at
    → get_elem? e.instructions.items j ≡ some node
    → node.operand ≡ Operand.branch target
    → offset_to_index e.instructions target ≡ i
    → is_negative i ≡ false
    → is_negative (index_to_offset e'.instructions (if ltb at i then i + length nodes else i))
      ≡ false
    → (node' : Instruction) × (get_elem? e'.instructions.items
          (if leb at j then j + length nodes else j)
        ≡ some node')
      × (node'.opcode ≡ node.opcode)
      × (node'.operand
          ≡ Operand.branch
              (index_to_offset e'.instructions (if ltb at i then i + length nodes else i)))
unfolding offset_to_index
code_editor_insert-branch grants rounds offset nodes extra_stack e e' j node target at i enough h
      some_nodes small place found branch names positive near =
    let (list, kept, positive_at, run) =
      inserted_inv grants rounds offset nodes extra_stack e e' h some_nodes in
    let room = offset_to_index_below e.instructions offset positive_at in
    let capacity = list.capacity in
    let run' =
      subst
        (λ l.
          insert_at rounds (offset_to_index e.instructions offset) nodes extra_stack
            (record e { instructions = l })
          ≡ some (none, e'))
        kept run in
    let at_room = subst (λ a. a ≤ length e.instructions.items) place room in
    let inside = length-get_elem e.instructions.items j node found in
    let after = shift_after-index at (length nodes) i (omega arith) (ground arith) (omega arith) in
    let with = shift_with-index at (length nodes) j (omega arith) (omega arith) (omega arith) in
    let result =
      inserted_branch rounds at nodes extra_stack
        (record e { instructions = record e.instructions { capacity = capacity } }) e' j node target
        i enough
        (subst
          (λ a.
            insert_at rounds a nodes extra_stack
              (record e { instructions = record e.instructions { capacity = capacity } })
            ≡ some (none, e'))
          place run')
        at_room small found branch names positive
        (subst (λ k. is_negative (index_to_offset e'.instructions k) ≡ false) (sym after) near) in
    subst
      (λ k.
        (node' : Instruction) × (get_elem? e'.instructions.items
            (if leb at j then j + length nodes else j)
          ≡ some node')
        × (node'.opcode ≡ node.opcode)
        × (node'.operand ≡ Operand.branch (index_to_offset e'.instructions k)))
      after
      (subst
        (λ k.
          (node' : Instruction) × (get_elem? e'.instructions.items k ≡ some node')
          × (node'.opcode ≡ node.opcode)
          × (node'.operand
              ≡ Operand.branch (index_to_offset e'.instructions (shift_after at (length nodes) i))))
        with result)
