-- ===== src/Instruction/Encoding.antt =====
-- src/visitors/instruction.c, `instruction_list_encode`: the bytes that it writes for a list of nodes.
use jni2hook.Base.{
  ℕ, ◌+◌, ◌%◌, ◌^◌, ◌≤◌, ◌<◌, ◌≡◌, refl, sym, ap, ◌∙◌, subst, Bool, true, false, List, [], ◌∷◌,
  ◌++◌, append-nil, length, length-append, some, ok, if◌then◌else◌, ltb, ◌==◌, arith,
}
use jni2hook.ByteStream.Buffer.{ByteBuffer, byte_buffer_init, byte_buffer_ok, byte_buffer_reserve}
use jni2hook.ByteStream.Writes.{Plenty, Writes-reserve, max_size}
use jni2hook.Instruction.Node.{Instruction, InstructionList, max_code_length}
use jni2hook.Instruction.Encode.{
  encode_operand, write_opcode, encode_instruction, encode_instructions, instruction_list_encode,
}
use jni2hook.Instruction.Layout.{opcode_bytes, instruction_bytes, IsNode, IsPlaced, code_of}
use jni2hook.Instruction.OperandBytes.{
  IsLonger, Appends, IsLonger-twice, length-operand_room, written_by, Writes-opcode,
  encode_operand-Appends,
}

module _ (grants : ℕ → Bool) (plenty : Plenty grants) where
  encode_instruction-Appends :
      (rounds : ℕ) (node : Instruction) (b : ByteBuffer)
      → 3 ≤ rounds
      → IsNode node
      → b.fine ≡ true
      → length b.written ≡ node.offset
      → length b.written + length (instruction_bytes node) < max_size
      → Appends b (instruction_bytes node) (encode_instruction grants rounds node b)
  unfolding encode_instruction
  encode_instruction-Appends rounds node b enough n fine at small =
      let split = length-operand_room node in
      let c = write_opcode grants node.wide node.opcode b in
      let start =
        written_by grants plenty (Writes-opcode grants plenty node.wide node.opcode) b fine
          (omega arith) in
      let size =
        ap (λ xs. length xs) start.contents
        ∙ length-append b.written (opcode_bytes node.wide node.opcode) in
      let position : length b.written % 4294967296 ≡ node.offset = omega (arith, n.placed) in
      let plain : (node.wide ≡ false → length c.written ≡ node.offset + 1) =
        λ narrow. size ∙ (rw (narrow, at) refl) in
      let (d, run, longer) =
        encode_operand-Appends grants plenty rounds node.offset node.opcode node.wide node.operand c
          enough start.good plain n.widened n.fits (omega arith) in
      subst
        (λ o.
          Appends b (instruction_bytes node)
            (encode_operand grants rounds o node.opcode node.wide node.operand c))
        (sym position) (d, run, IsLonger-twice b c d _ _ start longer)

  pub encode_instructions-Appends :
      (rounds : ℕ) (nodes : List Instruction) (b : ByteBuffer)
      → 3 ≤ rounds
      → IsPlaced (length b.written) nodes
      → b.fine ≡ true
      → length b.written + length (code_of nodes) < max_size
      → Appends b (code_of nodes) (encode_instructions grants rounds nodes b)
  unfolding encode_instructions
  encode_instructions-Appends rounds [] b enough placed fine small =
      (b, refl, record { good = fine; contents = sym (append-nil b.written) })
  encode_instructions-Appends rounds (node ∷ nodes) b enough placed fine small =
      let split = length-append (instruction_bytes node) (code_of nodes) in
      let (c, first, start) =
        encode_instruction-Appends rounds node b enough placed.1 fine (sym placed.0)
          (omega arith) in
      let size =
        ap (λ xs. length xs) start.contents ∙ length-append b.written (instruction_bytes node) in
      let (d, later, longer) =
        encode_instructions-Appends rounds nodes c enough
          (subst (λ t. IsPlaced t nodes) (sym size) placed.2) start.good (omega arith) in
      (d, rw first later, IsLonger-twice b c d _ _ start longer)

  -- The buffer as the reservation leaves it.
  pub started :
      (code_length : ℕ)
      → code_length < 2 ^ 32
      → IsLonger byte_buffer_init [] (
          byte_buffer_reserve grants
            (if code_length == 0 then 64 else code_length)
            byte_buffer_init)
  unfolding byte_buffer_init
  started code_length room =
      written_by grants plenty
        (Writes-reserve grants (if code_length == 0 then 64 else code_length) (ground arith))
        byte_buffer_init refl (omega arith)

  -- Laid out nodes of at most 65535 bytes are encoded.
  pub encode_of-code_of :
      (rounds : ℕ) (list : InstructionList)
      → 3 ≤ rounds
      → IsPlaced 0 list.items
      → length (code_of list.items) ≤ max_code_length
      → list.code_length < 2 ^ 32
      → instruction_list_encode grants rounds list ≡ some (ok (code_of list.items))
  unfolding instruction_list_encode byte_buffer_init byte_buffer_ok
  encode_of-code_of rounds list enough placed short room =
      let start = started list.code_length room in
      let c =
        byte_buffer_reserve grants (if list.code_length == 0 then 64 else list.code_length)
          byte_buffer_init in
      let (d, run, longer) =
        encode_instructions-Appends rounds list.items c enough (rw start.contents placed) start.good
          (rw start.contents (omega arith)) in
      let full : d.written ≡ code_of list.items =
        longer.contents ∙ ap (λ xs. xs ++ code_of list.items) start.contents in
      let fits : ltb max_code_length (length (code_of list.items)) ≡ false = ground arith in
      rw (run, longer.good, full, fits) refl
