-- ===== src/Instruction/Sizes.antt =====
-- src/visitors/instruction.c, `instruction_length_at`: the size of an instruction before it is encoded.
use jni2hook.Base.{
  ℕ, ◌+◌, ◌*◌, ◌≡◌, refl, ◌∙◌, Bool, true, false, not, List, [], ◌∷◌, ◌++◌, length, length-append,
  if◌then◌else◌, ◌==◌, arith,
}
use jni2hook.ByteStream.Reads.{be4}
use jni2hook.ByteStream.Many.{many_bytes}
use jni2hook.Instruction.Opcode.{
  OperandKind, instruction_kind_of, instruction_opcode_is_defined, opcode_length, fixed_length,
  opcode_length-fixed,
}
use jni2hook.Instruction.Node.{
  SwitchPair, Operand, Instruction, kind, biased, padding, instruction_switch_entries,
  instruction_length_at, length_with,
}
use jni2hook.Instruction.Layout.{
  zeros, be1_or_be2, pair_bytes, target_bytes, operand_bytes, opcode_bytes, instruction_bytes,
  IsNode,
}
use jni2hook.Instruction.OperandBytes.{length-zeros, by_not, entries_count, length-operand_room}
use jni2hook.Instruction.Decoding.{defined_small}

length-targets :
    (offset : ℕ) (targets : List ℕ)
    → length (many_bytes (target_bytes offset) targets) ≡ length targets * 4
length-targets offset [] = refl
length-targets offset (t ∷ targets) = omega (arith, length-targets offset targets)

length-pairs :
    (offset : ℕ) (pairs : List SwitchPair)
    → length (many_bytes (pair_bytes offset) pairs) ≡ length pairs * 8
length-pairs offset [] = refl
length-pairs offset (p ∷ pairs) = omega (arith, length-pairs offset pairs)

length-opcode_narrow :
    (wide : Bool) (opcode : ℕ) → wide ≡ false → length (opcode_bytes wide opcode) ≡ 1
length-opcode_narrow wide opcode h = rw h refl

length-be1_or_be2 : (two : Bool) (v : ℕ) → length (be1_or_be2 two v) ≡ (if two then 2 else 1)
length-be1_or_be2 true v = refl
length-be1_or_be2 false v = refl

-- The table's length of an opcode, as `instruction_length_at` takes it.
fixed_with :
    (opcode : ℕ) (k : OperandKind)
    → instruction_opcode_is_defined opcode ≡ true
    → k ≡ instruction_kind_of opcode
    → (if instruction_opcode_is_defined opcode then opcode_length opcode else 1)
      ≡ fixed_length k opcode
fixed_with opcode k defined right =
    rw (defined, opcode_length-fixed opcode (defined_small opcode defined), right) refl

-- The sizes of the opcode and of the operand add up.
length-with :
    (offset opcode : ℕ) (wide : Bool) (operand : Operand)
    → IsNode (record { offset = offset; opcode = opcode; wide = wide; operand = operand })
    → length (opcode_bytes wide opcode) + length (operand_bytes offset opcode wide operand)
      ≡ length_with opcode wide offset operand
unfolding instruction_switch_entries kind
length-with offset opcode wide Operand.no_operand n =
    let one = length-opcode_narrow wide opcode (by_not wide n.widened) in
    let fixed = fixed_with opcode OperandKind.no_operand n.defined n.right_kind in
    rw (fixed, n.not_wide) (omega (arith, one))
length-with offset opcode wide (Operand.immediate value) n =
    let one = length-opcode_narrow wide opcode (by_not wide n.widened) in
    let fixed = fixed_with opcode OperandKind.immediate n.defined n.right_kind in
    let half = length-be1_or_be2 (opcode == 17) value in ground (arith, one, fixed, half)
length-with offset opcode true (Operand.local index) n = refl
length-with offset opcode false (Operand.local index) n = refl
length-with offset opcode true (Operand.iinc index delta) n = refl
length-with offset opcode false (Operand.iinc index delta) n = refl
length-with offset opcode wide (Operand.constant index) n =
    let one = length-opcode_narrow wide opcode (by_not wide n.widened) in
    let fixed = fixed_with opcode OperandKind.constant n.defined n.right_kind in
    let half = length-be1_or_be2 (not (opcode == 18)) index in ground (arith, one, fixed, half)
length-with offset opcode wide (Operand.cp_index index) n =
    let one = length-opcode_narrow wide opcode (by_not wide n.widened) in
    let fixed = fixed_with opcode OperandKind.cp_index n.defined n.right_kind in
    omega (arith, one, fixed)
length-with offset opcode wide (Operand.invoke_interface index count last) n =
    let one = length-opcode_narrow wide opcode (by_not wide n.widened) in
    let fixed = fixed_with opcode OperandKind.invoke_interface n.defined n.right_kind in
    omega (arith, one, fixed)
length-with offset opcode wide (Operand.invoke_dynamic index last) n =
    let one = length-opcode_narrow wide opcode (by_not wide n.widened) in
    let fixed = fixed_with opcode OperandKind.invoke_dynamic n.defined n.right_kind in
    omega (arith, one, fixed)
length-with offset opcode wide (Operand.multianewarray index dimensions) n =
    let one = length-opcode_narrow wide opcode (by_not wide n.widened) in
    let fixed = fixed_with opcode OperandKind.multianewarray n.defined n.right_kind in
    omega (arith, one, fixed)
length-with offset opcode wide (Operand.branch target) n =
    let one = length-opcode_narrow wide opcode (by_not wide n.widened) in
    let fixed = fixed_with opcode OperandKind.branch n.defined n.right_kind in
    omega (arith, one, fixed)
length-with offset opcode wide (Operand.branch_wide target) n =
    let one = length-opcode_narrow wide opcode (by_not wide n.widened) in
    let fixed = fixed_with opcode OperandKind.branch_wide n.defined n.right_kind in
    omega (arith, one, fixed)
length-with offset opcode wide (Operand.table_switch default low high targets) n =
    let one = length-opcode_narrow wide opcode (by_not wide n.widened) in
    let entries = entries_count (biased low) (biased high) targets n.fits.3 n.fits.4 n.fits.5 in
    let table = length-targets offset targets in
    let pad = length-zeros (padding offset) in
    let split = length-append (zeros (padding offset)) (
      target_bytes offset default
      ++ (be4 low ++ (be4 high ++ many_bytes (target_bytes offset) targets))) in
    omega (arith, one, split, pad, table, entries)
length-with offset opcode wide (Operand.lookup_switch default pairs) n =
    let one = length-opcode_narrow wide opcode (by_not wide n.widened) in
    let table = length-pairs offset pairs in
    let pad = length-zeros (padding offset) in
    let split = length-append (zeros (padding offset)) (
      target_bytes offset default
      ++ (be4 (length pairs) ++ many_bytes (pair_bytes offset) pairs)) in
    omega (arith, one, split, pad, table)

-- An instruction that the format can hold takes as many bytes, with its padding, as the program
-- says when it lays the instructions out.
pub instruction_length_at-bytes :
    (node : Instruction)
    → IsNode node
    → length (instruction_bytes node) ≡ instruction_length_at node node.offset
unfolding instruction_length_at
instruction_length_at-bytes node n =
    length-operand_room node ∙ length-with node.offset node.opcode node.wide node.operand n
