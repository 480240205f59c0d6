-- ===== src/Instruction/Runs.antt =====
-- The code of src/visitors/instruction.c at concrete inputs.
use jni2hook.Base.{
  ℕ, ◌≡◌, refl, inl, Bool, true, false, List, [], ◌∷◌, ◌++◌, length, ◌||◌, not, none, some, ok, err,
  ClassfileStatus, arith,
}
use jni2hook.ByteStream.Buffer.{ByteBuffer}
use jni2hook.Instruction.Opcode.{instruction_kind_of, instruction_opcode_is_defined}
use jni2hook.Instruction.Node.{
  Operand, Instruction, InstructionList, kind, instruction_length_at,
  instruction_list_recompute_offsets,
}
use jni2hook.Instruction.Decode.{
  instruction_list_parse, read_instructions, instruction_list_append, read_instruction,
  read_position, read_rest, read_operand, read_i1_or_i2, read_i1,
}
use jni2hook.Instruction.Encode.{pad_switch, instruction_list_encode}
use jni2hook.Instruction.Layout.{instruction_bytes, IsNode, IsPlaced}
use jni2hook.Instruction.Offsets.{IsLaidOut, moved, recompute_offsets-IsLaidOut}
use jni2hook.Instruction.Sizes.{instruction_length_at-bytes}
use jni2hook.ByteStream.Cursor.{
  ByteCursor, byte_cursor_init, byte_cursor_ok, byte_cursor_exhausted, ◌>>=◌, require, pure,
  byte_cursor_u1, check,
}
use jni2hook.Instruction.Rounds.{read_instructions-ends}
use jni2hook.Instruction.RoundTrip.{
  instruction_list_parse-encode, encode-branch_range, pad_switch-stuck,
}

abbrev always : ℕ → Bool
always n = true

abbrev push : Instruction
push = record { offset = 0; opcode = 16; wide = false; operand = Operand.immediate 5 }

abbrev jump : Instruction
jump = record { offset = 2; opcode = 167; wide = false; operand = Operand.branch 0 }

abbrev choice : Instruction
choice = record {
  offset = 5;
  opcode = 170;
  wide = false;
  operand = Operand.table_switch 28 0 1 (0 ∷ 2 ∷ []);
}

abbrev leave : Instruction
leave = record { offset = 28; opcode = 177; wide = false; operand = Operand.no_operand }

abbrev short_method : List Instruction
short_method = push ∷ jump ∷ choice ∷ leave ∷ []

push-IsNode : IsNode push
unfolding instruction_kind_of instruction_opcode_is_defined kind
push-IsNode = record {
  placed = omega arith;
  defined = refl;
  not_wide = refl;
  right_kind = refl;
  widened = refl;
  fits = inl (omega arith);
}

jump-IsNode : IsNode jump
unfolding instruction_kind_of instruction_opcode_is_defined kind
jump-IsNode = record {
  placed = omega arith;
  defined = refl;
  not_wide = refl;
  right_kind = refl;
  widened = refl;
  fits = (omega arith, omega arith);
}

choice-IsNode : IsNode choice
unfolding instruction_kind_of instruction_opcode_is_defined kind
choice-IsNode = record {
  placed = omega arith;
  defined = refl;
  not_wide = refl;
  right_kind = refl;
  widened = refl;
  fits = (
    omega arith,
    omega arith,
    omega arith,
    omega arith,
    refl,
    omega arith,
    (omega arith, (omega arith, tt)),
  );
}

leave-IsNode : IsNode leave
unfolding instruction_kind_of instruction_opcode_is_defined kind
leave-IsNode = record {
  placed = omega arith;
  defined = refl;
  not_wide = refl;
  right_kind = refl;
  widened = refl;
  fits = tt;
}

short_method-IsPlaced : IsPlaced 0 short_method
short_method-IsPlaced =
    (refl, push-IsNode, (refl, jump-IsNode, (refl, choice-IsNode, (refl, leave-IsNode, tt))))

abbrev short_list : InstructionList
short_list = record { items = short_method; capacity = 4; code_length = 29 }

instruction_list_parse-encode_example :
    (bytes : List ℕ) × (room : ℕ) × (instruction_list_encode always 3 short_list ≡ some (ok bytes))
    × (instruction_list_parse always bytes
        ≡ ok (record { items = short_method; capacity = room; code_length = length bytes }))
instruction_list_parse-encode_example =
    instruction_list_parse-encode always (λ n. refl) 3 short_list (omega arith)
      short_method-IsPlaced (omega arith) (omega arith)

encode-branch_range_example :
    instruction_list_encode always 3 (record {
      items = (push ∷ []) ++ (record jump { operand = Operand.branch 32770 } ∷ []);
      capacity = 2;
      code_length = 5;
    })
    ≡ some (err ClassfileStatus.branch_range)
encode-branch_range_example =
    encode-branch_range always (λ n. refl) 3 (push ∷ []) []
      (record jump { operand = Operand.branch 32770 }) 32770 2 5 (omega arith)
      (refl, push-IsNode, tt) (omega arith) (omega arith) refl (omega arith) (omega arith)

instruction_length_at-bytes_example :
    length (instruction_bytes choice) ≡ instruction_length_at choice 5
instruction_length_at-bytes_example = instruction_length_at-bytes choice choice-IsNode

-- The block that the failed allocation left is full but for one byte.
abbrev failed_buffer : ByteBuffer
failed_buffer = record { written = 170 ∷ []; capacity = 2; fine = false }

pad_switch-stuck_example : pad_switch always 100 failed_buffer ≡ none
pad_switch-stuck_example = pad_switch-stuck always 100 failed_buffer refl refl

-- The offsets before anything is laid out, the switch still at 0.
abbrev unplaced : InstructionList
unplaced = record {
  items = push ∷ record choice { offset = 0 } ∷ record leave { offset = 0 } ∷ [];
  capacity = 4;
  code_length = 0;
}

recompute_offsets-IsLaidOut_example :
    (list' : InstructionList) × (instruction_list_recompute_offsets 2 unplaced ≡ some list')
    × IsLaidOut 0 list'.items list'.code_length
    × (moved list'.items ≡ moved unplaced.items)
recompute_offsets-IsLaidOut_example = recompute_offsets-IsLaidOut 2 unplaced (omega arith)

-- `bipush 5` and `return`, three bytes.
abbrev pushing_bytes : List ℕ
pushing_bytes = 16 ∷ 5 ∷ 177 ∷ []

abbrev pushing_end : ByteCursor
pushing_end = record { ahead = []; taken = 3; fine = true }

pushing_bytes-read :
    read_instructions always 4 0 0 (byte_cursor_init pushing_bytes)
    ≡ ok ((push ∷ record leave { offset = 2 } ∷ [], 32), pushing_end)
unfolding byte_cursor_init read_instructions ◌>>=◌ instruction_list_append require pure
    read_instruction read_position byte_cursor_u1 read_rest instruction_opcode_is_defined
    read_operand instruction_kind_of read_i1_or_i2 read_i1 check
pushing_bytes-read = refl

read_instructions-ends_example :
    (byte_cursor_exhausted pushing_end || not (byte_cursor_ok pushing_end)) ≡ true
unfolding byte_cursor_init
read_instructions-ends_example =
    read_instructions-ends always 4 0 0 (byte_cursor_init pushing_bytes) (omega arith)
      pushing_bytes-read
