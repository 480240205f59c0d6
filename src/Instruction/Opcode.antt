-- ===== src/Instruction/Opcode.antt =====
-- include/jni2hook/utils/class_file_constant.h and src/visitors/instruction.c: what an opcode says of
-- the operand behind it. The numbers are those of the JVM_OPC_ constants.
use jni2hook.Base.{
  ℕ, zero, suc, ◌<◌, ◌≡◌, refl, subst, inl, inr, Bool, Bool-cases, true, false, ◌&&◌, ◌||◌, List,
  [], ◌∷◌, Option, none, some, get_elem?, if◌then◌else◌, leb, ◌==◌, arith,
}

pub data OperandKind : Type 0 where
  no_operand immediate local iinc constant cp_index invoke_interface : OperandKind
  invoke_dynamic multianewarray branch branch_wide table_switch lookup_switch : OperandKind

-- `bipush`, `sipush` and `newarray`
abbrev pub is_immediate : ℕ → Bool
is_immediate op = op == 16 || op == 17 || op == 188

-- `iload` to `aload`, `istore` to `astore`, and `ret`
abbrev pub is_local : ℕ → Bool
is_local op = (leb 21 op && leb op 25) || (leb 54 op && leb op 58) || op == 169

-- `getstatic` to `invokestatic`, `new`, `anewarray`, `checkcast` and `instanceof`
abbrev pub is_cp_index : ℕ → Bool
is_cp_index op = (leb 178 op && leb op 184) || op == 187 || op == 189 || op == 192 || op == 193

-- `ifeq` to `jsr`, `ifnull` and `ifnonnull`
abbrev pub is_branch : ℕ → Bool
is_branch op = (leb 153 op && leb op 168) || op == 198 || op == 199

unfoldable pub instruction_kind_of : ℕ → OperandKind
instruction_kind_of op =
    if is_immediate op
    then OperandKind.immediate
    else (if is_local op
        then OperandKind.local
        else (if op == 132
            then OperandKind.iinc
            else (if op == 18 || op == 19 || op == 20
                then OperandKind.constant
                else (if is_cp_index op
                    then OperandKind.cp_index
                    else (if op == 185
                        then OperandKind.invoke_interface
                        else (if op == 186
                            then OperandKind.invoke_dynamic
                            else (if op == 197
                                then OperandKind.multianewarray
                                else (if is_branch op
                                    then OperandKind.branch
                                    else (if op == 200 || op == 201
                                        then OperandKind.branch_wide
                                        else (if op == 170
                                            then OperandKind.table_switch
                                            else (if op == 171
                                                then OperandKind.lookup_switch
                                                else OperandKind.no_operand)))))))))))

unfoldable pub instruction_opcode_is_defined : ℕ → Bool
instruction_opcode_is_defined op = leb op 201

-- `JVM_OPCODE_LENGTH_INITIALIZER`, from `nop` to `jsr_w`.
abbrev pub opcode_lengths : List ℕ
opcode_lengths =
    1 ∷ 1 ∷ 1 ∷ 1 ∷ 1 ∷ 1 ∷ 1 ∷ 1 ∷ 1 ∷ 1 ∷ 1 ∷ 1 ∷ 1 ∷ 1 ∷ 1 ∷ 1 ∷ 2 ∷ 3 ∷ 2 ∷ 3 ∷ 3 ∷ 2 ∷ 2 ∷ 2
    ∷ 2 ∷ 2 ∷ 1 ∷ 1 ∷ 1 ∷ 1 ∷ 1 ∷ 1 ∷ 1 ∷ 1 ∷ 1 ∷ 1 ∷ 1 ∷ 1 ∷ 1 ∷ 1 ∷ 1 ∷ 1 ∷ 1 ∷ 1 ∷ 1 ∷ 1 ∷ 1 ∷ 1
    ∷ 1 ∷ 1 ∷ 1 ∷ 1 ∷ 1 ∷ 1 ∷ 2 ∷ 2 ∷ 2 ∷ 2 ∷ 2 ∷ 1 ∷ 1 ∷ 1 ∷ 1 ∷ 1 ∷ 1 ∷ 1 ∷ 1 ∷ 1 ∷ 1 ∷ 1 ∷ 1 ∷ 1
    ∷ 1 ∷ 1 ∷ 1 ∷ 1 ∷ 1 ∷ 1 ∷ 1 ∷ 1 ∷ 1 ∷ 1 ∷ 1 ∷ 1 ∷ 1 ∷ 1 ∷ 1 ∷ 1 ∷ 1 ∷ 1 ∷ 1 ∷ 1 ∷ 1 ∷ 1 ∷ 1 ∷ 1
    ∷ 1 ∷ 1 ∷ 1 ∷ 1 ∷ 1 ∷ 1 ∷ 1 ∷ 1 ∷ 1 ∷ 1 ∷ 1 ∷ 1 ∷ 1 ∷ 1 ∷ 1 ∷ 1 ∷ 1 ∷ 1 ∷ 1 ∷ 1 ∷ 1 ∷ 1 ∷ 1 ∷ 1
    ∷ 1 ∷ 1 ∷ 1 ∷ 1 ∷ 1 ∷ 1 ∷ 1 ∷ 1 ∷ 1 ∷ 1 ∷ 1 ∷ 1 ∷ 3 ∷ 1 ∷ 1 ∷ 1 ∷ 1 ∷ 1 ∷ 1 ∷ 1 ∷ 1 ∷ 1 ∷ 1 ∷ 1
    ∷ 1 ∷ 1 ∷ 1 ∷ 1 ∷ 1 ∷ 1 ∷ 1 ∷ 1 ∷ 1 ∷ 3 ∷ 3 ∷ 3 ∷ 3 ∷ 3 ∷ 3 ∷ 3 ∷ 3 ∷ 3 ∷ 3 ∷ 3 ∷ 3 ∷ 3 ∷ 3 ∷ 3
    ∷ 3 ∷ 2 ∷ 99 ∷ 99 ∷ 1 ∷ 1 ∷ 1 ∷ 1 ∷ 1 ∷ 1 ∷ 3 ∷ 3 ∷ 3 ∷ 3 ∷ 3 ∷ 3 ∷ 3 ∷ 5 ∷ 5 ∷ 3 ∷ 2 ∷ 3 ∷ 1
    ∷ 1 ∷ 3 ∷ 3 ∷ 1 ∷ 1 ∷ 0 ∷ 4 ∷ 3 ∷ 3 ∷ 5 ∷ 5 ∷ []

abbrev length_found : Option ℕ → ℕ
length_found (some n) = n
length_found none = 0

unfoldable pub opcode_length : ℕ → ℕ
opcode_length op = length_found (get_elem? opcode_lengths op)

-- The length of an instruction whose operand is of that kind and not in a wide or switch form.
abbrev pub fixed_length : OperandKind → ℕ → ℕ
fixed_length OperandKind.no_operand op = if op == 196 then 0 else 1
fixed_length OperandKind.immediate op = if op == 17 then 3 else 2
fixed_length OperandKind.local op = 2
fixed_length OperandKind.iinc op = 3
fixed_length OperandKind.constant op = if op == 18 then 2 else 3
fixed_length OperandKind.cp_index op = 3
fixed_length OperandKind.invoke_interface op = 5
fixed_length OperandKind.invoke_dynamic op = 5
fixed_length OperandKind.multianewarray op = 4
fixed_length OperandKind.branch op = 3
fixed_length OperandKind.branch_wide op = 5
fixed_length OperandKind.table_switch op = 99
fixed_length OperandKind.lookup_switch op = 99

-- Whether the table has the length of the kind for so many opcodes, from the last one down.
lengths_agree : ℕ → Bool
lengths_agree zero = true
lengths_agree (suc op) =
    if opcode_length op == fixed_length (instruction_kind_of op) op then lengths_agree op else false

lengths_agree-at :
    (count op : ℕ)
    → op < count
    → lengths_agree count ≡ true
    → (opcode_length op == fixed_length (instruction_kind_of op) op) ≡ true
unfolding lengths_agree
lengths_agree-at zero op below agree = absurd (omega arith)
lengths_agree-at (suc last) op below agree = elim (Bool-cases (op == last)) [
  | inl here ↦
      let same : last ≡ op = ground arith in
      subst (λ o. (opcode_length o == fixed_length (instruction_kind_of o) o) ≡ true) same
        (first_holds _ _ agree)
  | inr before ↦ lengths_agree-at last op (ground arith) (second_holds _ _ agree)
]
  where
    first_holds : (test rest : Bool) → (if test then rest else false) ≡ true → test ≡ true
    first_holds true rest h = refl
    first_holds false rest h = cc

    second_holds : (test rest : Bool) → (if test then rest else false) ≡ true → rest ≡ true
    second_holds true rest h = h
    second_holds false rest h = cc

lengths_agree_whole : lengths_agree 202 ≡ true
unfolding lengths_agree opcode_length instruction_kind_of
lengths_agree_whole = refl

-- The table agrees with the kinds: every defined opcode has the length of its operand's form.
pub opcode_length-fixed :
    (op : ℕ) → op < 202 → opcode_length op ≡ fixed_length (instruction_kind_of op) op
opcode_length-fixed op h =
    let tested = lengths_agree-at 202 op h lengths_agree_whole in ground arith
