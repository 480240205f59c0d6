-- ===== src/Instruction/Encode.antt =====
-- src/visitors/instruction.c, `instruction_list_encode`. A call that does not come back is `none`.
use jni2hook.Base.{
  ℕ, zero, suc, ◌+◌, ◌-◌, ◌%◌, Bool, ◌&&◌, not, List, [], ◌∷◌, length, take, Result, ok, err,
  ClassfileStatus, if◌then◌else◌, ltb, leb, ◌==◌, Option, none, some,
}
use jni2hook.ByteStream.Buffer.{
  ByteBuffer, Writer, ◌>>◌, skip, byte_buffer_init, byte_buffer_ok, byte_buffer_reserve,
  byte_buffer_u1, byte_buffer_u2, byte_buffer_u4, write_many,
}
use jni2hook.Instruction.Node.{
  SwitchPair, Operand, Instruction, InstructionList, biased, instruction_switch_entries,
  max_code_length,
}

-- `target - offset` as the bytes of a u4 or a u2 take it.
abbrev pub delta_from : ℕ → ℕ → ℕ
delta_from offset target = (target + (4294967296 - offset)) % 4294967296

-- `delta < INT16_MIN || delta > INT16_MAX` over `int64_t`, both sides moved up by 2 ^ 31 + 2 ^ 15.
abbrev pub in_branch_range : ℕ → ℕ → Bool
in_branch_range offset target =
    leb (offset + 2147483648) (biased target + 32768)
    && leb (biased target) (offset + 2147483648 + 32767)

abbrev pub in_wide_range : ℕ → ℕ → Bool
in_wide_range offset target =
    leb offset (biased target) && leb (biased target) (offset + 2147483648 + 2147483647)

-- What a piece of the encoder does: it does not come back, it fails, or it leaves the buffer.
abbrev pub Step : Type 0
Step = ByteBuffer → Option (Result ByteBuffer)

abbrev pub and_then : Option (Result ByteBuffer) → Step → Option (Result ByteBuffer)
and_then none next = none
and_then (some (err e)) next = some (err e)
and_then (some (ok b)) next = next b

module _ (grants : ℕ → Bool) where
  abbrev u1 : ℕ → Writer
  u1 = byte_buffer_u1 grants

  abbrev u2 : ℕ → Writer
  u2 = byte_buffer_u2 grants

  abbrev u4 : ℕ → Writer
  u4 = byte_buffer_u4 grants

  -- `while (b.size % 4u != 0u) byte_buffer_u1(&b, 0);`, with a bound on the rounds.
  unfoldable pub pad_switch : ℕ → ByteBuffer → Option ByteBuffer
  pad_switch zero b = if length b.written % 4 == 0 then some b else none
  pad_switch (suc rounds) b =
      let more = pad_switch rounds (u1 0 b) in if length b.written % 4 == 0 then some b else more

  unfoldable pub write_pair : ℕ → SwitchPair → Writer
  write_pair offset p = u4 p.match_value >> u4 (delta_from offset p.target)

  abbrev pub after_padding : Option ByteBuffer → Writer → Option (Result ByteBuffer)
  after_padding none w = none
  after_padding (some b) w = some (ok (w b))

  abbrev pub write_table_switch : ℕ → ℕ → ℕ → ℕ → List ℕ → Writer
  write_table_switch offset default low high targets =
      u4 (delta_from offset default)
      >> (u4 low >> (u4 high >> write_many (λ t. u4 (delta_from offset t)) targets))

  abbrev pub write_lookup_switch : ℕ → ℕ → List SwitchPair → Writer
  write_lookup_switch offset default pairs =
      u4 (delta_from offset default) >> (u4 (length pairs) >> write_many (write_pair offset) pairs)

  abbrev pub u1_or_u2 : Bool → ℕ → Writer
  u1_or_u2 two value = if two then u2 value else u1 value

  -- The switch over the kind; `rounds` bounds the loop over the padding.
  unfoldable pub encode_operand : ℕ → ℕ → ℕ → Bool → Operand → Step
  encode_operand rounds offset opcode wide Operand.no_operand b = some (ok b)
  encode_operand rounds offset opcode wide (Operand.immediate value) b =
      some (ok (u1_or_u2 (opcode == 17) value b))
  encode_operand rounds offset opcode wide (Operand.local index) b =
      some (ok (u1_or_u2 wide index b))
  encode_operand rounds offset opcode wide (Operand.iinc index delta) b =
      some (ok ((u1_or_u2 wide index >> u1_or_u2 wide delta) b))
  encode_operand rounds offset opcode wide (Operand.constant index) b =
      some (ok (u1_or_u2 (not (opcode == 18)) index b))
  encode_operand rounds offset opcode wide (Operand.cp_index index) b = some (ok (u2 index b))
  encode_operand rounds offset opcode wide (Operand.invoke_interface index count last) b =
      some (ok ((u2 index >> (u1 count >> u1 last)) b))
  encode_operand rounds offset opcode wide (Operand.invoke_dynamic index last) b =
      some (ok ((u2 index >> u2 last) b))
  encode_operand rounds offset opcode wide (Operand.multianewarray index dimensions) b =
      some (ok ((u2 index >> u1 dimensions) b))
  encode_operand rounds offset opcode wide (Operand.branch target) b =
      if in_branch_range offset target
      then some (ok (u2 (delta_from offset target) b))
      else some (err ClassfileStatus.branch_range)
  encode_operand rounds offset opcode wide (Operand.branch_wide target) b =
      if in_wide_range offset target
      then some (ok (u4 (delta_from offset target) b))
      else some (err ClassfileStatus.branch_range)
  encode_operand rounds offset opcode wide (Operand.table_switch default low high targets) b =
      after_padding (pad_switch rounds b) (
        write_table_switch offset default low high (
          take (instruction_switch_entries (Operand.table_switch default low high targets))
            targets))
  encode_operand rounds offset opcode wide (Operand.lookup_switch default pairs) b =
      after_padding (pad_switch rounds b) (write_lookup_switch offset default pairs)

  abbrev pub write_opcode : Bool → ℕ → Writer
  write_opcode wide opcode = (if wide then u1 196 else skip) >> u1 opcode

  -- The body of the loop.
  unfoldable pub encode_instruction : ℕ → Instruction → Step
  encode_instruction rounds node b =
      encode_operand rounds (length b.written % 4294967296) node.opcode node.wide node.operand
        (write_opcode node.wide node.opcode b)

  unfoldable pub encode_instructions : ℕ → List Instruction → Step
  encode_instructions rounds [] b = some (ok b)
  encode_instructions rounds (node ∷ nodes) b =
      and_then (encode_instruction rounds node b) (encode_instructions rounds nodes)

  abbrev pub encoded : Option (Result ByteBuffer) → Option (Result (List ℕ))
  encoded none = none
  encoded (some (err e)) = some (err e)
  encoded (some (ok b)) = some (
      if byte_buffer_ok b
      then (if ltb max_code_length (length b.written)
          then err ClassfileStatus.code_too_large
          else ok b.written)
      else err ClassfileStatus.out_of_memory)

  unfoldable pub instruction_list_encode : ℕ → InstructionList → Option (Result (List ℕ))
  instruction_list_encode rounds list = encoded (
      encode_instructions rounds list.items (
        byte_buffer_reserve grants (if list.code_length == 0 then 64 else list.code_length)
          byte_buffer_init))
