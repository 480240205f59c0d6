-- ===== src/Instruction/Decode.antt =====
-- src/visitors/instruction.c, `instruction_list_parse`.
use jni2hook.Base.{
  ℕ, zero, suc, ◌+◌, ◌*◌, ◌%◌, Bool, true, false, ◌||◌, not, List, [], ◌∷◌, length, Result, ok, err,
  ClassfileStatus, if◌then◌else◌, ltb, leb, ◌==◌, bind,
}
use jni2hook.ByteStream.Cursor.{
  Reader, ◌>>=◌, ◌>>◌, pure, fail, check, require, allocate, byte_cursor_init, byte_cursor_ok,
  byte_cursor_exhausted, byte_cursor_offset, byte_cursor_remaining, byte_cursor_u1, byte_cursor_u2,
  byte_cursor_u4, read_many,
}
use jni2hook.Instruction.Opcode.{OperandKind, instruction_kind_of, instruction_opcode_is_defined}
use jni2hook.Instruction.Node.{SwitchPair, Operand, Instruction, InstructionList, biased, span}

-- A 16-bit and an 8-bit number as the `i4` that has its sign.
abbrev pub signed_2 : ℕ → ℕ
signed_2 v = if ltb v 32768 then v else v + 4294901760

abbrev pub signed_1 : ℕ → ℕ
signed_1 v = if ltb v 128 then v else v + 4294967040

unfoldable pub read_i4 : Reader ℕ
read_i4 = byte_cursor_u4

unfoldable pub read_i2 : Reader ℕ
read_i2 = do v ← byte_cursor_u2; pure (signed_2 v)

unfoldable pub read_i1 : Reader ℕ
read_i1 = do v ← byte_cursor_u1; pure (signed_1 v)

-- `(i4)offset + delta`
abbrev pub target_of : ℕ → ℕ → ℕ
target_of offset delta = (offset + delta) % 4294967296

-- `(u4)byte_cursor_offset(&c)`
unfoldable pub read_position : Reader ℕ
unfolding byte_cursor_offset
read_position c = ok (byte_cursor_offset c % 4294967296, c)

-- `while (byte_cursor_offset(&c) % 4 != 0 && byte_cursor_ok(&c))`, with a bound on the rounds.
unfoldable pub skip_padding : ℕ → Reader (Unit {0})
unfolding byte_cursor_offset byte_cursor_ok
skip_padding zero c = ok (tt, c)
skip_padding (suc rounds) c =
    let more = (byte_cursor_u1 >>= λ _. skip_padding rounds) c in
    if byte_cursor_offset c % 4 == 0 || not (byte_cursor_ok c) then ok (tt, c) else more

-- `if (n > byte_cursor_remaining(&c)) return CLASSFILE_ERR_TRUNCATED;`
unfoldable pub need_remaining : ℕ → Reader (Unit {0})
unfolding byte_cursor_remaining
need_remaining n c =
    if ltb (byte_cursor_remaining c) n then err ClassfileStatus.truncated else ok (tt, c)

unfoldable pub read_target : ℕ → Reader ℕ
read_target offset = do delta ← read_i4; pure (target_of offset delta)

unfoldable pub read_pair : ℕ → Reader SwitchPair
read_pair offset = do
  match_value ← read_i4
  target ← read_target offset
  pure (record { match_value = match_value; target = target })

unfoldable pub read_u1_or_u2 : Bool → Reader ℕ
read_u1_or_u2 two = if two then byte_cursor_u2 else byte_cursor_u1

unfoldable pub read_i1_or_i2 : Bool → Reader ℕ
read_i1_or_i2 two = if two then read_i2 else read_i1

-- `ok ? CLASSFILE_ERR_OPCODE : CLASSFILE_ERR_TRUNCATED`
unfoldable pub refuse_opcode : Reader (Unit {0})
refuse_opcode = do check ClassfileStatus.truncated; fail ClassfileStatus.opcode

abbrev pub may_be_wide : OperandKind → Bool
may_be_wide OperandKind.local = true
may_be_wide OperandKind.iinc = true
may_be_wide _ = false

-- `sizeof(instruction)`
abbrev pub instruction_size : ℕ
instruction_size = 40

abbrev pub doubled_capacity : ℕ → ℕ
doubled_capacity capacity = if capacity == 0 then 32 else capacity * 2 % 4294967296

module _ (grants : ℕ → Bool) where
  unfoldable pub read_table_switch : ℕ → Reader Operand
  read_table_switch offset = do
    skip_padding 3
    default ← read_target offset
    low ← read_i4
    high ← read_i4
    check ClassfileStatus.truncated
    require (leb (biased low) (biased high)) ClassfileStatus.truncated
    need_remaining (span low high * 4)
    allocate grants (span low high * 4)
    targets ← read_many (span low high) (read_target offset)
    pure (Operand.table_switch default low high targets)

  -- A count with the sign bit is negative. No pairs ask for no memory that has to be there.
  unfoldable pub read_lookup_switch : ℕ → Reader Operand
  read_lookup_switch offset = do
    skip_padding 3
    default ← read_target offset
    count ← read_i4
    check ClassfileStatus.truncated
    require (ltb count 2147483648) ClassfileStatus.truncated
    need_remaining (count * 8)
    require (count == 0 || grants (count * 8)) ClassfileStatus.out_of_memory
    pairs ← read_many count (read_pair offset)
    pure (Operand.lookup_switch default pairs)

  -- The switch over the kind.
  unfoldable pub read_operand : ℕ → ℕ → Bool → OperandKind → Reader Operand
  read_operand offset opcode wide OperandKind.no_operand = pure Operand.no_operand
  read_operand offset opcode wide OperandKind.immediate = do
    value ← read_i1_or_i2 (opcode == 17)
    pure (Operand.immediate value)
  read_operand offset opcode wide OperandKind.local = do
    index ← read_u1_or_u2 wide
    pure (Operand.local index)
  read_operand offset opcode wide OperandKind.iinc = do
    index ← read_u1_or_u2 wide
    delta ← read_i1_or_i2 wide
    pure (Operand.iinc index delta)
  read_operand offset opcode wide OperandKind.constant = do
    index ← read_u1_or_u2 (not (opcode == 18))
    pure (Operand.constant index)
  read_operand offset opcode wide OperandKind.cp_index = do
    index ← byte_cursor_u2
    pure (Operand.cp_index index)
  read_operand offset opcode wide OperandKind.invoke_interface = do
    index ← byte_cursor_u2
    count ← byte_cursor_u1
    last ← byte_cursor_u1
    pure (Operand.invoke_interface index count last)
  read_operand offset opcode wide OperandKind.invoke_dynamic = do
    index ← byte_cursor_u2
    last ← byte_cursor_u2
    pure (Operand.invoke_dynamic index last)
  read_operand offset opcode wide OperandKind.multianewarray = do
    index ← byte_cursor_u2
    dimensions ← byte_cursor_u1
    pure (Operand.multianewarray index dimensions)
  read_operand offset opcode wide OperandKind.branch = do
    delta ← read_i2
    pure (Operand.branch (target_of offset delta))
  read_operand offset opcode wide OperandKind.branch_wide = do
    target ← read_target offset
    pure (Operand.branch_wide target)
  read_operand offset opcode wide OperandKind.table_switch = read_table_switch offset
  read_operand offset opcode wide OperandKind.lookup_switch = read_lookup_switch offset

  -- Behind the opcode: its tests and its operand.
  unfoldable pub read_rest : ℕ → Bool → ℕ → Reader Instruction
  read_rest offset wide opcode = do
    if not (instruction_opcode_is_defined opcode) || opcode == 196 then refuse_opcode else pure tt
    require (not wide || may_be_wide (instruction_kind_of opcode)) ClassfileStatus.opcode
    operand ← read_operand offset opcode wide (instruction_kind_of opcode)
    check ClassfileStatus.truncated
    pure (record { offset = offset; opcode = opcode; wide = wide; operand = operand })

  unfoldable pub read_wide : ℕ → Reader Instruction
  read_wide offset = do opcode ← byte_cursor_u1; read_rest offset true opcode

  -- The body of the loop, behind the room for the node.
  unfoldable pub read_instruction : Reader Instruction
  read_instruction = do
    offset ← read_position
    first ← byte_cursor_u1
    if first == 196 then read_wide offset else read_rest offset false first

  -- `instruction_list_append` on a list of so many items: the capacity afterwards.
  unfoldable pub instruction_list_append : ℕ → ℕ → Reader ℕ
  instruction_list_append count capacity =
      if count == capacity
      then (do
        require
            (leb (doubled_capacity capacity) capacity
              || grants (doubled_capacity capacity * instruction_size))
            ClassfileStatus.out_of_memory
        pure (
            if leb (doubled_capacity capacity) capacity
            then capacity
            else doubled_capacity capacity))
      else pure capacity

  -- The loop, with a bound on the rounds: the instructions and the capacity of their array.
  unfoldable pub read_instructions : ℕ → ℕ → ℕ → Reader (List Instruction × ℕ)
  unfolding byte_cursor_exhausted byte_cursor_ok
  read_instructions zero count capacity c = ok (([], capacity), c)
  read_instructions (suc rounds) count capacity c =
      let more =
        (do
          room ← instruction_list_append count capacity
          node ← read_instruction
          later ← read_instructions rounds (count + 1) room
          pure (node ∷ later.0, later.1))
          c in
      if byte_cursor_exhausted c || not (byte_cursor_ok c) then ok (([], capacity), c) else more

  -- Every round takes a byte or ends the loop, so a round for each byte and one more are enough.
  unfoldable pub instruction_list_parse : List ℕ → Result InstructionList
  unfolding ◌>>=◌ pure byte_cursor_init
  instruction_list_parse code =
      bind
        ((do
          found ← read_instructions (length code + 1) 0 0
          check ClassfileStatus.truncated
          pure (record { items = found.0; capacity = found.1; code_length = length code }))
          (byte_cursor_init code))
        (λ (list, c). ok list)
