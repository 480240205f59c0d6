-- ===== src/Instruction/Layout.antt =====
-- The instructions of a method (JVMS chapter 6) as bytes, and which nodes they can hold.
use jni2hook.Base.{
  ℕ, zero, suc, ◌+◌, ◌-◌, ◌%◌, arith, ◌≤◌, ◌<◌, ◌≡◌, ◌⊎◌, Bool, true, false, ◌||◌, not, List, [],
  ◌∷◌, ◌++◌, length, All, ◌==◌,
}
use jni2hook.ByteStream.Reads.{be1, be2, be4}
use jni2hook.ByteStream.Many.{many_bytes}
use jni2hook.Instruction.Opcode.{instruction_kind_of, instruction_opcode_is_defined}
use jni2hook.Instruction.Node.{SwitchPair, Operand, Instruction, kind, max_code_length}
use jni2hook.Instruction.Decode.{may_be_wide}

-- The zero bytes behind the opcode of a switch at the offset, up to the next multiple of four.
abbrev pub alignment : ℕ → ℕ
alignment offset = (4 - (offset + 1) % 4) % 4

-- They are the fewest that reach one.
alignment_lem :
    (offset : ℕ)
    → ((offset + 1 + alignment offset) % 4 ≡ 0)
      × ((n : ℕ) → (offset + 1 + n) % 4 ≡ 0 → alignment offset ≤ n)
alignment_lem offset = (omega arith, λ n at. omega arith)

-- `target - offset` in 32 bits, as the format stores a jump.
abbrev pub distance : ℕ → ℕ → ℕ
distance offset target = (target + (4294967296 - offset)) % 4294967296

-- The signed distance from the offset to the target is from -k to k - 1. A target from 2 ^ 31 up
-- stands for the negative number that has its 32 bits.
abbrev pub IsNear : ℕ → ℕ → ℕ → Type 0
IsNear k offset target =
    (target < 2147483648) × (offset ≤ target + k) × (target < offset + k)
    ⊎ (2147483648 ≤ target) × (offset + 4294967296 ≤ target + k)

-- It is below -k, or k or more.
abbrev pub IsFar : ℕ → ℕ → ℕ → Type 0
IsFar k offset target =
    (target < 2147483648) × ((target + k < offset) ⊎ (offset + k ≤ target))
    ⊎ (2147483648 ≤ target) × (target + k < offset + 4294967296)

-- The place of 32 bits in the order of the signed numbers that they stand for.
abbrev pub signed_place : ℕ → ℕ
signed_place v = (v + 2147483648) % 4294967296

abbrev pub zeros : ℕ → List ℕ
zeros zero = []
zeros (suc n) = 0 ∷ zeros n

abbrev pub be1_or_be2 : Bool → ℕ → List ℕ
be1_or_be2 true v = be2 v
be1_or_be2 false v = be1 v

abbrev pub pair_bytes : ℕ → SwitchPair → List ℕ
pair_bytes offset p = be4 p.match_value ++ be4 (distance offset p.target)

abbrev pub target_bytes : ℕ → ℕ → List ℕ
target_bytes offset target = be4 (distance offset target)

abbrev pub operand_bytes : ℕ → ℕ → Bool → Operand → List ℕ
operand_bytes offset opcode wide Operand.no_operand = []
operand_bytes offset opcode wide (Operand.immediate value) = be1_or_be2 (opcode == 17) value
operand_bytes offset opcode wide (Operand.local index) = be1_or_be2 wide index
operand_bytes offset opcode wide (Operand.iinc index delta) =
    be1_or_be2 wide index ++ be1_or_be2 wide delta
operand_bytes offset opcode wide (Operand.constant index) = be1_or_be2 (not (opcode == 18)) index
operand_bytes offset opcode wide (Operand.cp_index index) = be2 index
operand_bytes offset opcode wide (Operand.invoke_interface index count last) =
    be2 index ++ (be1 count ++ be1 last)
operand_bytes offset opcode wide (Operand.invoke_dynamic index last) = be2 index ++ be2 last
operand_bytes offset opcode wide (Operand.multianewarray index dimensions) =
    be2 index ++ be1 dimensions
operand_bytes offset opcode wide (Operand.branch target) = be2 (distance offset target)
operand_bytes offset opcode wide (Operand.branch_wide target) = target_bytes offset target
operand_bytes offset opcode wide (Operand.table_switch default low high targets) =
    zeros (alignment offset)
    ++ (target_bytes offset default
        ++ (be4 low ++ (be4 high ++ many_bytes (target_bytes offset) targets)))
operand_bytes offset opcode wide (Operand.lookup_switch default pairs) =
    zeros (alignment offset)
    ++ (target_bytes offset default ++ (be4 (length pairs) ++ many_bytes (pair_bytes offset) pairs))

abbrev pub opcode_bytes : Bool → ℕ → List ℕ
opcode_bytes true opcode = 196 ∷ be1 opcode
opcode_bytes false opcode = be1 opcode

abbrev pub instruction_bytes : Instruction → List ℕ
instruction_bytes node =
    opcode_bytes node.wide node.opcode
    ++ operand_bytes node.offset node.opcode node.wide node.operand

-- The numbers that a u2 or a u1 with its sign can hold, as 32-bit patterns.
abbrev pub IsSigned : Bool → ℕ → Type 0
IsSigned true v = (v < 32768) ⊎ (4294934528 ≤ v) × (v < 4294967296)
IsSigned false v = (v < 128) ⊎ (4294967168 ≤ v) × (v < 4294967296)

abbrev pub IsUnsigned : Bool → ℕ → Type 0
IsUnsigned true v = v < 65536
IsUnsigned false v = v < 256

abbrev pub IsI4 : ℕ → Type 0
IsI4 v = v < 4294967296

abbrev pub IsPair : SwitchPair → Type 0
IsPair p = IsI4 p.match_value × IsI4 p.target

-- What the format can hold of an operand at an offset.
abbrev pub IsOperand : ℕ → ℕ → Bool → Operand → Type 0
IsOperand offset opcode wide Operand.no_operand = Unit {0}
IsOperand offset opcode wide (Operand.immediate value) = IsSigned (opcode == 17) value
IsOperand offset opcode wide (Operand.local index) = IsUnsigned wide index
IsOperand offset opcode wide (Operand.iinc index delta) =
    IsUnsigned wide index × IsSigned wide delta
IsOperand offset opcode wide (Operand.constant index) = IsUnsigned (not (opcode == 18)) index
IsOperand offset opcode wide (Operand.cp_index index) = index < 65536
IsOperand offset opcode wide (Operand.invoke_interface index count last) =
    (index < 65536) × (count < 256) × (last < 256)
IsOperand offset opcode wide (Operand.invoke_dynamic index last) = (index < 65536) × (last < 65536)
IsOperand offset opcode wide (Operand.multianewarray index dimensions) =
    (index < 65536) × (dimensions < 256)
IsOperand offset opcode wide (Operand.branch target) = IsI4 target × IsNear 32768 offset target
IsOperand offset opcode wide (Operand.branch_wide target) =
    IsI4 target × IsNear 2147483648 offset target
IsOperand offset opcode wide (Operand.table_switch default low high targets) =
    IsI4 default
    × IsI4 low
    × IsI4 high
    × (signed_place low ≤ signed_place high)
    × (length targets ≡ signed_place high - signed_place low + 1)
    × (length targets ≤ max_code_length)
    × All IsI4 targets
IsOperand offset opcode wide (Operand.lookup_switch default pairs) =
    IsI4 default × (length pairs ≤ max_code_length) × All IsPair pairs

-- A node whose opcode may appear in a class file, with the operand that the opcode wants.
pub record IsNode (node : Instruction) : Type 0 where
  pub placed : node.offset < 4294967296
  pub defined : instruction_opcode_is_defined node.opcode ≡ true
  pub not_wide : (node.opcode == 196) ≡ false
  pub right_kind : kind node.operand ≡ instruction_kind_of node.opcode
  pub widened : (not node.wide || may_be_wide (kind node.operand)) ≡ true
  pub fits : IsOperand node.offset node.opcode node.wide node.operand

-- Nodes one behind the other, from an offset on.
abbrev pub IsPlaced : ℕ → List Instruction → Type 0
IsPlaced offset [] = Unit {0}
IsPlaced offset (node ∷ nodes) =
    (node.offset ≡ offset) × IsNode node × IsPlaced (offset + length (instruction_bytes node)) nodes

abbrev pub code_of : List Instruction → List ℕ
code_of = many_bytes instruction_bytes
