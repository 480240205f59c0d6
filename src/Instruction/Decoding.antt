-- ===== src/Instruction/Decoding.antt =====
-- src/visitors/instruction.c, `instruction_list_parse`: reading the bytes of a list of nodes.
use jni2hook.Base.{
  ℕ, zero, suc, ◌+◌, ◌*◌, ◌%◌, ◌≤◌, ◌<◌, ◌≡◌, refl, ap, subst, Bool, Bool-cases, inl, inr, true,
  false, ◌||◌, not, List, [], ◌∷◌, ◌++◌, length, length-append, ok, if◌then◌else◌, leb, ◌==◌, arith,
  ClassfileStatus,
}
use jni2hook.ByteStream.Cursor.{
  ByteCursor, ◌>>=◌, pure, check, require, byte_cursor_init, byte_cursor_ok, byte_cursor_offset,
  byte_cursor_exhausted,
}
use jni2hook.ByteStream.Reads.{
  Reads-pure, Reads-check, Reads-require, Reads-then, Reads-u1, cursor_at,
}
use jni2hook.ByteStream.Placed.{
  ReadsAt, ReadsAt-of_Reads, ReadsAt-bind, ReadsAt-then, ReadsAt-last, placed_step,
}
use jni2hook.ByteStream.Writes.{Plenty}
use jni2hook.Instruction.Opcode.{instruction_kind_of, instruction_opcode_is_defined}
use jni2hook.Instruction.Node.{Operand, Instruction}
use jni2hook.Instruction.Decode.{
  read_position, read_operand, may_be_wide, read_rest, read_wide, read_instruction,
  doubled_capacity, instruction_size, instruction_list_append, read_instructions,
  instruction_list_parse,
}
use jni2hook.Instruction.Layout.{
  opcode_bytes, operand_bytes, instruction_bytes, IsNode, IsPlaced, code_of,
}
use jni2hook.Instruction.Reading.{ReadsAt-operand}

ReadsAt-position : (t : ℕ) (rest : List ℕ) → t < 4294967296 → ReadsAt read_position t [] rest t
unfolding read_position byte_cursor_offset
ReadsAt-position t rest h =
    let small : t % 4294967296 ≡ t = omega arith in
    record { run = rw small (ap (λ n. ok (t, cursor_at rest n)) (omega arith)) }

pub defined_small : (opcode : ℕ) → instruction_opcode_is_defined opcode ≡ true → opcode < 202
unfolding instruction_opcode_is_defined
defined_small opcode h = ground arith

module _ (grants : ℕ → Bool) (plenty : Plenty grants) where
  ReadsAt-rest :
      (offset t opcode : ℕ) (wide : Bool) (operand : Operand) (rest : List ℕ)
      → (wide ≡ false → t ≡ offset + 1)
      → IsNode (record { offset = offset; opcode = opcode; wide = wide; operand = operand })
      → ReadsAt
          (read_rest grants offset wide opcode)
          t
          (operand_bytes offset opcode wide operand)
          rest
          (record { offset = offset; opcode = opcode; wide = wide; operand = operand })
  unfolding read_rest
  ReadsAt-rest offset t opcode wide operand rest at n =
      let allowed : (not (instruction_opcode_is_defined opcode) || opcode == 196) ≡ false =
        rw (n.defined, n.not_wide) refl in
      let fits : (not wide || may_be_wide (instruction_kind_of opcode)) ≡ true =
        rw (← n.right_kind) n.widened in
      let reads =
        ReadsAt-operand grants plenty offset t opcode wide operand rest n.placed at n.widened
          n.fits in
      ReadsAt-then _ _ (rw allowed (ReadsAt-of_Reads (Reads-pure tt) _ _)) (
        ReadsAt-then _ _ (ReadsAt-of_Reads (Reads-require _ _ fits) _ _) (
          ReadsAt-last _ _
            (subst
              (λ k.
                ReadsAt (read_operand grants offset opcode wide k) t
                  (operand_bytes offset opcode wide operand) rest operand)
              n.right_kind reads)
            (ReadsAt-of_Reads
              (Reads-then _ _ (Reads-check ClassfileStatus.truncated) (Reads-pure _)) _ _)))

  ReadsAt-with :
      (offset opcode : ℕ) (wide : Bool) (operand : Operand) (rest : List ℕ)
      → IsNode (record { offset = offset; opcode = opcode; wide = wide; operand = operand })
      → ReadsAt
          (read_instruction grants)
          offset
          (opcode_bytes wide opcode ++ operand_bytes offset opcode wide operand)
          rest
          (record { offset = offset; opcode = opcode; wide = wide; operand = operand })
  unfolding read_instruction read_wide
  ReadsAt-with offset opcode true operand rest n =
      let small = defined_small opcode n.defined in
      ReadsAt-then _ _ (ReadsAt-position offset _ n.placed) (
        ReadsAt-bind _ _ (ReadsAt-of_Reads (Reads-u1 196 (omega arith)) _ _) (
          ReadsAt-bind _ _ (ReadsAt-of_Reads (Reads-u1 opcode (omega arith)) _ _)
            (ReadsAt-rest offset _ opcode true operand rest (λ no. cc) n)))
  ReadsAt-with offset opcode false operand rest n =
      let small = defined_small opcode n.defined in
      let plain = n.not_wide in
      ReadsAt-then _ _ (ReadsAt-position offset _ n.placed) (
        ReadsAt-bind _ _ (ReadsAt-of_Reads (Reads-u1 opcode (omega arith)) _ _)
          (rw plain (ReadsAt-rest offset _ opcode false operand rest (λ yes_plain. refl) n)))

  ReadsAt-instruction :
      (node : Instruction) (rest : List ℕ)
      → IsNode node
      → ReadsAt (read_instruction grants) node.offset (instruction_bytes node) rest node
  ReadsAt-instruction node rest n =
      ReadsAt-with node.offset node.opcode node.wide node.operand rest n

  append_room :
      (count capacity : ℕ)
      → (room : ℕ) × ((c : ByteCursor)
          → instruction_list_append grants count capacity c ≡ ok (room, c))
  unfolding instruction_list_append ◌>>=◌ pure require
  append_room count capacity = elim (Bool-cases (count == capacity)) [
    | inl full ↦ (
      (if leb (doubled_capacity capacity) capacity then capacity else doubled_capacity capacity),
      λ c. rw (full) (ground (arith, plenty (doubled_capacity capacity * instruction_size))),
    )
    | inr spare ↦ (capacity, λ c. rw spare refl)
  ]

  length-opcode_bytes : (wide : Bool) (opcode : ℕ) → 1 ≤ length (opcode_bytes wide opcode)
  length-opcode_bytes true opcode = omega arith
  length-opcode_bytes false opcode = omega arith

  -- The loop over the bytes of nodes, with rounds enough.
  instructions_run :
      (nodes : List Instruction) (rounds t count capacity : ℕ)
      → IsPlaced t nodes
      → length (code_of nodes) < rounds
      → (room : ℕ) × (read_instructions grants rounds count capacity (cursor_at (code_of nodes) t)
          ≡ ok ((nodes, room), cursor_at [] (t + length (code_of nodes))))
  unfolding read_instructions pure byte_cursor_exhausted byte_cursor_ok
  instructions_run nodes zero t count capacity placed enough = absurd (omega arith)
  instructions_run [] (suc rounds) t count capacity placed enough =
      (capacity, ap (λ n. ok (([], capacity), cursor_at [] n)) (omega arith))
  instructions_run (node ∷ nodes) (suc rounds) t count capacity placed enough =
      let (room, appended) = append_room count capacity in
      let more = length-opcode_bytes node.wide node.opcode in
      let longer =
        length-append (opcode_bytes node.wide node.opcode)
          (operand_bytes node.offset node.opcode node.wide node.operand) in
      let split = length-append (instruction_bytes node) (code_of nodes) in
      let read = ReadsAt-instruction node (code_of nodes) placed.1 in
      let (final, later) =
        instructions_run nodes rounds (t + length (instruction_bytes node)) (count + 1) room
          placed.2 (omega arith) in
      let going : (length (code_of (node ∷ nodes)) == 0) ≡ false = ground arith in
      (
        final,
        rw going (
            placed_step _ _ _ _ _ (appended _) (
              placed_step _ _ _ _ _
                (subst
                  (λ o.
                    read_instruction grants (cursor_at (code_of (node ∷ nodes)) o)
                    ≡ ok (node, cursor_at (code_of nodes) (o + length (instruction_bytes node))))
                  placed.0 read.run)
                (placed_step _ _ _ _ _ later
                  (ap (λ n. ok ((node ∷ nodes, final), cursor_at [] n)) (omega arith))))),
      )

  pub parse_of-code_of :
      (nodes : List Instruction)
      → IsPlaced 0 nodes
      → (room : ℕ) × (instruction_list_parse grants (code_of nodes)
          ≡ ok (record { items = nodes; capacity = room; code_length = length (code_of nodes) }))
  unfolding instruction_list_parse ◌>>=◌ pure byte_cursor_init check byte_cursor_ok
  parse_of-code_of nodes placed =
      let (room, run) =
        instructions_run nodes (length (code_of nodes) + 1) 0 0 0 placed (omega arith) in
      (room, rw run refl)
