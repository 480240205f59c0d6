-- ===== src/Instruction/Node.antt =====
-- include/jni2hook/utils/visitors/instruction.h, and the lengths and offsets of
-- src/visitors/instruction.c. An `i4` is its 32-bit pattern, so that sums wrap; a branch target is an
-- absolute offset.
use jni2hook.Base.{
  ℕ, zero, suc, ◌+◌, ◌*◌, ◌-◌, ◌%◌, ◌^◌, Bool, false, ◌||◌, not, List, [], ◌∷◌, length,
  if◌then◌else◌, ltb, ◌==◌, Option, none, some,
}
use jni2hook.Instruction.Opcode.{OperandKind, instruction_opcode_is_defined, opcode_length}

pub record SwitchPair : Type 0 where
  pub match_value : ℕ
  pub target : ℕ

-- The union `u` with the kind that selects its member. `targets` and `pairs` are the arrays that a
-- switch owns; the count of a lookupswitch is the length of `pairs`.
pub data Operand : Type 0 where
  no_operand : Operand
  immediate : ℕ → Operand
  local : ℕ → Operand
  iinc : ℕ → ℕ → Operand
  constant : ℕ → Operand
  cp_index : ℕ → Operand
  invoke_interface : ℕ → ℕ → ℕ → Operand
  invoke_dynamic : ℕ → ℕ → Operand
  multianewarray : ℕ → ℕ → Operand
  branch : ℕ → Operand
  branch_wide : ℕ → Operand
  table_switch : ℕ → ℕ → ℕ → List ℕ → Operand
  lookup_switch : ℕ → List SwitchPair → Operand

pub record Instruction : Type 0 where
  pub offset : ℕ
  pub opcode : ℕ
  pub wide : Bool
  pub operand : Operand

-- The field `kind`.
unfoldable pub kind : Operand → OperandKind
kind Operand.no_operand = OperandKind.no_operand
kind (Operand.immediate value) = OperandKind.immediate
kind (Operand.local index) = OperandKind.local
kind (Operand.iinc index delta) = OperandKind.iinc
kind (Operand.constant index) = OperandKind.constant
kind (Operand.cp_index index) = OperandKind.cp_index
kind (Operand.invoke_interface index count last) = OperandKind.invoke_interface
kind (Operand.invoke_dynamic index last) = OperandKind.invoke_dynamic
kind (Operand.multianewarray index dimensions) = OperandKind.multianewarray
kind (Operand.branch target) = OperandKind.branch
kind (Operand.branch_wide target) = OperandKind.branch_wide
kind (Operand.table_switch default low high targets) = OperandKind.table_switch
kind (Operand.lookup_switch default pairs) = OperandKind.lookup_switch

-- `count` is the length of `items`.
pub record InstructionList : Type 0 where
  pub items : List Instruction
  pub capacity : ℕ
  pub code_length : ℕ

-- An `i4` moved up by 2 ^ 31, so that the order of the numbers is that of the signed ones.
abbrev pub biased : ℕ → ℕ
biased v = (v + 2147483648) % 4294967296

-- `high - low + 1` as an `int64_t`, where low is not above high.
abbrev pub span : ℕ → ℕ → ℕ
span low high = biased high - biased low + 1

abbrev pub max_code_length : ℕ
max_code_length = 65535

unfoldable pub instruction_switch_entries : Operand → ℕ
instruction_switch_entries (Operand.table_switch default low high targets) =
    if ltb (biased high) (biased low)
    then 0
    else (if ltb max_code_length (span low high) then max_code_length else span low high)
instruction_switch_entries (Operand.lookup_switch default pairs) = length pairs
instruction_switch_entries _ = 0

-- The bytes between the opcode of a switch at the offset and the next multiple of four.
abbrev pub padding : ℕ → ℕ
padding offset = (4 - (offset + 1) % 4) % 4

-- The cases of `instruction_length_at`, by the operand.
abbrev pub length_with : ℕ → Bool → ℕ → Operand → ℕ
length_with opcode wide offset (Operand.local index) = if wide then 4 else 2
length_with opcode wide offset (Operand.iinc index delta) = if wide then 6 else 3
length_with opcode wide offset (Operand.table_switch default low high targets) =
    1
    + padding offset
    + 12
    + instruction_switch_entries (Operand.table_switch default low high targets) * 4
length_with opcode wide offset (Operand.lookup_switch default pairs) =
    1 + padding offset + 8 + instruction_switch_entries (Operand.lookup_switch default pairs) * 8
length_with opcode wide offset _ =
    if instruction_opcode_is_defined opcode then opcode_length opcode else 1

unfoldable pub instruction_length_at : Instruction → ℕ → ℕ
instruction_length_at node offset = length_with node.opcode node.wide offset node.operand

-- One pass of `instruction_list_recompute_offsets` from an offset: the list, the offset behind it,
-- and whether an offset changed.
unfoldable pub offsets_pass : List Instruction → ℕ → List Instruction × ℕ × Bool
offsets_pass [] offset = ([], offset, false)
offsets_pass (node ∷ nodes) offset =
    let (later, end, changed) =
      offsets_pass nodes ((offset + instruction_length_at node offset) % 2 ^ 32) in
    (record node { offset = offset } ∷ later, end, not (node.offset == offset) || changed)

-- `for (;;)`; `none` means that the rounds ran out.
unfoldable pub instruction_list_recompute_offsets : ℕ → InstructionList → Option InstructionList
instruction_list_recompute_offsets zero list = none
instruction_list_recompute_offsets (suc rounds) list =
    let (items, end, changed) = offsets_pass list.items 0 in
    let next = record list { items = items; code_length = end } in
    let again = instruction_list_recompute_offsets rounds next in
    if changed then again else some next

-- The first instruction at the offset.
unfoldable instruction_list_at_offset : List Instruction → ℕ → Option Instruction
instruction_list_at_offset [] offset = none
instruction_list_at_offset (node ∷ nodes) offset =
    let later = instruction_list_at_offset nodes offset in
    if node.offset == offset then some node else later
