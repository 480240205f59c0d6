-- ===== src/Instruction/RoundTrip.antt =====
-- src/visitors/instruction.c, what `instruction_list_encode` and `instruction_list_parse` do to each
-- other, and the ways in which encoding ends without bytes.
use jni2hook.Base.{
  ℕ, zero, suc, ◌%◌, ◌^◌, ◌≤◌, ◌<◌, ◌≡◌, refl, sym, ap, ◌∙◌, Bool, false, List, [], ◌∷◌, ◌++◌,
  length, Option, none, some, Result, ok, err, ClassfileStatus, if◌then◌else◌, ◌==◌, arith,
}
use mathlib.Core.Path.{fun_ext}
use jni2hook.ByteStream.Buffer.{ByteBuffer, byte_buffer_reserve, byte_buffer_init, byte_buffer_u1}
use jni2hook.ByteStream.Writes.{Plenty}
use jni2hook.Instruction.Node.{Operand, Instruction, InstructionList, max_code_length}
use jni2hook.Instruction.Decode.{instruction_list_parse}
use jni2hook.Instruction.Encode.{
  Step, and_then, pad_switch, encode_operand, encode_instruction, encode_instructions,
  instruction_list_encode,
}
use jni2hook.Instruction.Layout.{IsPlaced, IsI4, IsFar, code_of}
use jni2hook.Instruction.Numbers.{far_out_of_range}
use jni2hook.Instruction.Encoding.{encode_of-code_of, encode_instructions-Appends, started}
use jni2hook.Instruction.Decoding.{parse_of-code_of}

and_then-twice :
    (outcome : Option (Result ByteBuffer)) (next last : Step)
    → and_then (and_then outcome next) last ≡ and_then outcome (λ b. and_then (next b) last)
and_then-twice none next last = refl
and_then-twice (some (err e)) next last = refl
and_then-twice (some (ok b)) next last = refl

encode-append :
    (grants : ℕ → Bool) (rounds : ℕ) (nodes later : List Instruction) (b : ByteBuffer)
    → encode_instructions grants rounds (nodes ++ later) b
      ≡ and_then
          (encode_instructions grants rounds nodes b)
          (encode_instructions grants rounds later)
unfolding encode_instructions
encode-append grants rounds [] later b = refl
encode-append grants rounds (node ∷ nodes) later b =
    let first = encode_instruction grants rounds node b in
    let rest = fun_ext (encode-append grants rounds nodes later) in
    ap (λ next. and_then first next) rest ∙ sym (and_then-twice first _ _)

module _ (grants : ℕ → Bool) (plenty : Plenty grants) where
  -- Instructions of at most 65535 bytes that stand one behind the other, each with an operand that
  -- the format can hold, are encoded where memory suffices, with three or more rounds for the
  -- padding of a switch; parsing the bytes gives the same instructions and the length of the bytes.
  pub instruction_list_parse-encode :
      (rounds : ℕ) (list : InstructionList)
      → 3 ≤ rounds
      → IsPlaced 0 list.items
      → length (code_of list.items) ≤ max_code_length
      → list.code_length < 2 ^ 32
      → (bytes : List ℕ) × (room : ℕ) × (instruction_list_encode grants rounds list
          ≡ some (ok bytes))
        × (instruction_list_parse grants bytes
            ≡ ok (record { items = list.items; capacity = room; code_length = length bytes }))
  instruction_list_parse-encode rounds list enough placed short room =
      let (capacity, parsed) = parse_of-code_of grants plenty list.items placed in
      (
        code_of list.items,
        capacity,
        encode_of-code_of grants plenty rounds list enough placed short room,
        parsed,
      )

  -- Where instructions that the format can hold are followed by a branch to a target more than 32768
  -- bytes before it or more than 32767 after it, encoding fails with the branch range status, where
  -- memory suffices, whatever stands behind the branch.
  pub encode-branch_range :
      (rounds : ℕ) (nodes later : List Instruction) (bad : Instruction)
      (target capacity code_length : ℕ)
      → 3 ≤ rounds
      → IsPlaced 0 nodes
      → length (code_of nodes) < 2 ^ 32
      → code_length < 2 ^ 32
      → bad.operand ≡ Operand.branch target
      → IsI4 target
      → IsFar 32768 (length (code_of nodes)) target
      → instruction_list_encode grants rounds (record {
        items = nodes ++ (bad ∷ later);
        capacity = capacity;
        code_length = code_length;
      })
        ≡ some (err ClassfileStatus.branch_range)
  unfolding instruction_list_encode encode_instructions encode_instruction encode_operand
      byte_buffer_init
  encode-branch_range rounds nodes later bad target capacity code_length enough placed short room
        branch word far =
      let start = started grants plenty code_length room in
      let c =
        byte_buffer_reserve grants (if code_length == 0 then 64 else code_length)
          byte_buffer_init in
      let (d, run, longer) =
        encode_instructions-Appends grants plenty rounds nodes c enough (rw start.contents placed)
          start.good (rw start.contents (omega arith)) in
      let full : d.written ≡ code_of nodes =
        longer.contents ∙ ap (λ xs. xs ++ code_of nodes) start.contents in
      let position : length d.written % 4294967296 ≡ length (code_of nodes) =
        rw full (omega arith) in
      rw
        (
          encode-append grants rounds nodes (bad ∷ later),
          run,
          position,
          branch,
          far_out_of_range _ target word far,
        )
        refl

failed_u1 :
    (grants : ℕ → Bool) (v : ℕ) (b : ByteBuffer) → b.fine ≡ false → byte_buffer_u1 grants v b ≡ b
unfolding byte_buffer_u1 byte_buffer_reserve
failed_u1 grants v b failed = simp failed

-- A buffer that an allocation failed for, at a size that is no multiple of four, is never padded:
-- the loop writes nothing and its test stays true, so no number of rounds ends it.
pub pad_switch-stuck :
    (grants : ℕ → Bool) (rounds : ℕ) (b : ByteBuffer)
    → b.fine ≡ false
    → (length b.written % 4 == 0) ≡ false
    → pad_switch grants rounds b ≡ none
unfolding pad_switch
pad_switch-stuck grants zero b failed size = rw size refl
pad_switch-stuck grants (suc rounds) b failed size =
    rw (size, failed_u1 grants 0 b failed) (pad_switch-stuck grants rounds b failed size)
