-- ===== src/Instruction/Rounds.antt =====
-- src/visitors/instruction.c, `instruction_list_parse`: that its loop ends by its own test.
use jni2hook.Base.{
  ℕ, zero, suc, ◌+◌, ◌<◌, ◌≡◌, refl, subst, Bool, true, false, ◌||◌, not, List, [], ◌∷◌, length,
  drop, Result, ok, if◌then◌else◌, ◌==◌, bind-eq-ok, arith,
}
use jni2hook.ByteStream.Cursor.{
  ByteCursor, Reader, ◌>>=◌, pure, allocate, byte_cursor_ok, byte_cursor_exhausted, byte_cursor_u1,
}
use jni2hook.ByteStream.Ends.{
  EndsFine, EndsFine-bind, EndsFine-then, EndsFine-check, KeepsFine-pure,
}
use jni2hook.Instruction.Opcode.{OperandKind}
use jni2hook.Instruction.Node.{Instruction, span}
use jni2hook.Instruction.Decode.{
  read_position, read_target, read_pair, read_table_switch, read_lookup_switch, read_operand,
  read_rest, read_wide, read_instruction, instruction_list_append, read_instructions,
}
use jni2hook.Instruction.Shrinking.{
  Shrinks, Shrinks-bind, Shrinks-pure, Shrinks-check, Shrinks-require, Shrinks-u1, Shrinks-u2,
  Shrinks-position, Shrinks-remaining, Shrinks-many, Shrinks-if, Shrinks-padding, Shrinks-i4,
  Shrinks-i2, Shrinks-target, Shrinks-pair, Shrinks-unsigned, Shrinks-signed, Shrinks-refuse,
}

module _ (grants : ℕ → Bool) where
  Shrinks-table : (offset : ℕ) → Shrinks (read_table_switch grants offset)
  unfolding read_table_switch allocate
  Shrinks-table offset = Shrinks-bind (Shrinks-padding 3) λ _.
      Shrinks-bind (Shrinks-target offset) λ _. Shrinks-bind Shrinks-i4 λ low.
        Shrinks-bind Shrinks-i4 λ high. Shrinks-bind (Shrinks-check _) λ _.
          Shrinks-bind (Shrinks-require _ _) λ _. Shrinks-bind (Shrinks-remaining _) λ _.
            Shrinks-bind (Shrinks-require _ _) λ _.
              Shrinks-bind
                (Shrinks-many (span low high) (read_target offset) (Shrinks-target offset))
                λ _. Shrinks-pure _

  Shrinks-lookup : (offset : ℕ) → Shrinks (read_lookup_switch grants offset)
  unfolding read_lookup_switch
  Shrinks-lookup offset = Shrinks-bind (Shrinks-padding 3) λ _.
      Shrinks-bind (Shrinks-target offset) λ _. Shrinks-bind Shrinks-i4 λ count.
        Shrinks-bind (Shrinks-check _) λ _. Shrinks-bind (Shrinks-require _ _) λ _.
          Shrinks-bind (Shrinks-remaining _) λ _. Shrinks-bind (Shrinks-require _ _) λ _.
            Shrinks-bind (Shrinks-many count (read_pair offset) (Shrinks-pair offset))
              λ _. Shrinks-pure _

  Shrinks-operand :
      (offset opcode : ℕ) (wide : Bool) (kind : OperandKind)
      → Shrinks (read_operand grants offset opcode wide kind)
  unfolding read_operand
  Shrinks-operand offset opcode wide OperandKind.no_operand = Shrinks-pure _
  Shrinks-operand offset opcode wide OperandKind.immediate =
      Shrinks-bind (Shrinks-signed _) λ _. Shrinks-pure _
  Shrinks-operand offset opcode wide OperandKind.local =
      Shrinks-bind (Shrinks-unsigned wide) λ _. Shrinks-pure _
  Shrinks-operand offset opcode wide OperandKind.iinc =
      Shrinks-bind (Shrinks-unsigned wide)
        λ _. Shrinks-bind (Shrinks-signed wide) λ _. Shrinks-pure _
  Shrinks-operand offset opcode wide OperandKind.constant =
      Shrinks-bind (Shrinks-unsigned _) λ _. Shrinks-pure _
  Shrinks-operand offset opcode wide OperandKind.cp_index =
      Shrinks-bind Shrinks-u2 λ _. Shrinks-pure _
  Shrinks-operand offset opcode wide OperandKind.invoke_interface =
      Shrinks-bind Shrinks-u2
        λ _. Shrinks-bind Shrinks-u1 λ _. Shrinks-bind Shrinks-u1 λ _. Shrinks-pure _
  Shrinks-operand offset opcode wide OperandKind.invoke_dynamic =
      Shrinks-bind Shrinks-u2 λ _. Shrinks-bind Shrinks-u2 λ _. Shrinks-pure _
  Shrinks-operand offset opcode wide OperandKind.multianewarray =
      Shrinks-bind Shrinks-u2 λ _. Shrinks-bind Shrinks-u1 λ _. Shrinks-pure _
  Shrinks-operand offset opcode wide OperandKind.branch =
      Shrinks-bind Shrinks-i2 λ _. Shrinks-pure _
  Shrinks-operand offset opcode wide OperandKind.branch_wide =
      Shrinks-bind (Shrinks-target offset) λ _. Shrinks-pure _
  Shrinks-operand offset opcode wide OperandKind.table_switch = Shrinks-table offset
  Shrinks-operand offset opcode wide OperandKind.lookup_switch = Shrinks-lookup offset

  Shrinks-rest :
      (offset : ℕ) (wide : Bool) (opcode : ℕ) → Shrinks (read_rest grants offset wide opcode)
  unfolding read_rest
  Shrinks-rest offset wide opcode =
      Shrinks-bind (Shrinks-if _ Shrinks-refuse (Shrinks-pure tt)) λ _.
        Shrinks-bind (Shrinks-require _ _) λ _.
          Shrinks-bind (Shrinks-operand offset opcode wide _)
            λ _. Shrinks-bind (Shrinks-check _) λ _. Shrinks-pure _

  Shrinks-wide : (offset : ℕ) → Shrinks (read_wide grants offset)
  unfolding read_wide
  Shrinks-wide offset = Shrinks-bind Shrinks-u1 λ opcode. Shrinks-rest offset true opcode

  EndsFine-rest :
      (offset : ℕ) (wide : Bool) (opcode : ℕ) → EndsFine (read_rest grants offset wide opcode)
  unfolding read_rest
  EndsFine-rest offset wide opcode = EndsFine-bind _ _ λ _.
      EndsFine-bind _ _
        λ _. EndsFine-bind _ _ λ _. EndsFine-then _ _ (EndsFine-check _) λ _. KeepsFine-pure _

  -- What follows the first byte.
  abbrev second_part : ℕ → ℕ → Reader Instruction
  second_part offset first =
      if first == 196 then read_wide grants offset else read_rest grants offset false first

  Shrinks-second : (offset first : ℕ) → Shrinks (second_part offset first)
  Shrinks-second offset first =
      Shrinks-if (first == 196) (Shrinks-wide offset) (Shrinks-rest offset false first)

  EndsFine-if :
      (test : Bool) {p q : Reader Instruction}
      → EndsFine p
      → EndsFine q
      → EndsFine (if test then p else q)
  EndsFine-if true h k = h
  EndsFine-if false h k = k

  EndsFine-second : (offset first : ℕ) → EndsFine (second_part offset first)
  unfolding read_wide
  EndsFine-second offset first =
      EndsFine-if (first == 196) (EndsFine-bind _ _ λ opcode. EndsFine-rest offset true opcode)
        (EndsFine-rest offset false first)

length-drop_one : (xs : List ℕ) → 0 < length xs → length (drop 1 xs) < length xs
length-drop_one [] some_byte = omega arith
length-drop_one (x ∷ xs) some_byte = omega arith

u1-shorter :
    (c : ByteCursor) {b : ℕ} {d : ByteCursor}
    → byte_cursor_u1 c ≡ ok (b, d)
    → d.fine ≡ true
    → length d.ahead < length c.ahead
unfolding byte_cursor_u1
u1-shorter c e good = ground (arith, length-drop_one c.ahead)

module _ (grants : ℕ → Bool) where
  read_instruction-shorter :
      (c : ByteCursor) {node : Instruction} {d : ByteCursor}
      → read_instruction grants c ≡ ok (node, d)
      → length d.ahead < length c.ahead
  unfolding read_instruction ◌>>=◌
  read_instruction-shorter c e =
      let ((offset, m), first, second) =
        bind-eq-ok (read_position c) (λ (o, d). (byte_cursor_u1 >>= second_part grants o) d) e in
      let ((byte, n), third, fourth) =
        bind-eq-ok (byte_cursor_u1 m) (λ (b, d). second_part grants offset b d) second in
      let (less, was) = (Shrinks-second grants offset byte).run n fourth in
      let fewer = u1-shorter m third (was ((EndsFine-second grants offset byte).run n fourth)) in
      let (same, before) = Shrinks-position.run c first in omega arith

  Shrinks-append : (count capacity : ℕ) → Shrinks (instruction_list_append grants count capacity)
  unfolding instruction_list_append
  Shrinks-append count capacity =
      Shrinks-if (count == capacity) (Shrinks-bind (Shrinks-require _ _) λ _. Shrinks-pure _)
        (Shrinks-pure _)

  -- A round behind the room for the node, and behind the node.
  abbrev after_node : ℕ → ℕ → ℕ → Instruction → Reader (List Instruction × ℕ)
  after_node rounds count room node = do
    later ← read_instructions grants rounds (count + 1) room
    pure (node ∷ later.0, later.1)

  abbrev after_append : ℕ → ℕ → ℕ → Reader (List Instruction × ℕ)
  after_append rounds count room = read_instruction grants >>= after_node rounds count room

  ok-same : {A : Type 0} {x y : A} → ok x ≡ ok y → x ≡ y
  ok-same e = ground arith

  either :
      {A P : Type 0} (test : Bool) {x y : A} {m : Result A}
      → (if test then ok x else m) ≡ ok y
      → (test ≡ true → x ≡ y → P)
      → (m ≡ ok y → P)
      → P
  either true e over more = over refl (ok-same e)
  either false e over more = more e

  -- A run of the loop of `instruction_list_parse` that succeeds, given more rounds than there are
  -- bytes left, stops by the loop's own test: at the end of the code or at a cursor that has failed.
  pub read_instructions-ends :
      (rounds count capacity : ℕ) (c : ByteCursor) {found : List Instruction × ℕ} {d : ByteCursor}
      → length c.ahead < rounds
      → read_instructions grants rounds count capacity c ≡ ok (found, d)
      → (byte_cursor_exhausted d || not (byte_cursor_ok d)) ≡ true
  unfolding read_instructions ◌>>=◌ pure
  read_instructions-ends zero count capacity c enough e = absurd (omega arith)
  read_instructions-ends (suc rounds) count capacity c enough e =
      either (byte_cursor_exhausted c || not (byte_cursor_ok c)) e
        (λ over same.
          subst (λ x. (byte_cursor_exhausted x.1 || not (byte_cursor_ok x.1)) ≡ true) same over)
        λ more.
          let ((room, m), first, second) =
            bind-eq-ok (instruction_list_append grants count capacity c)
              (λ (room, d). after_append rounds count room d) more in
          let ((node, n), third, fourth) =
            bind-eq-ok (read_instruction grants m)
              (λ (node, d). after_node rounds count room node d) second in
          let ((later, last), fifth, sixth) =
            bind-eq-ok (read_instructions grants rounds (count + 1) room n)
              (λ (later, d). ok ((node ∷ later.0, later.1), d)) fourth in
          let (less, was) = (Shrinks-append count capacity).run c first in
          let fewer = read_instruction-shorter m third in
          let ended = read_instructions-ends rounds (count + 1) room n (omega arith) fifth in
          subst (λ x. (byte_cursor_exhausted x.1 || not (byte_cursor_ok x.1)) ≡ true)
            (ok-same sixth) ended
