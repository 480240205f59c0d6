-- ===== src/Instruction/OperandBytes.antt =====
-- src/visitors/instruction.c, `instruction_list_encode`: the bytes that it writes for an operand.
use jni2hook.Base.{
  ℕ, zero, suc, ◌+◌, ◌-◌, ◌%◌, ◌≤◌, ◌<◌, ◌≡◌, refl, sym, ap, ◌∙◌, Bool, true, false, ◌||◌, not,
  List, [], ◌∷◌, ◌++◌, append_assoc, append-nil, length, take, take_all, length-append, Option,
  some, Result, ok, if◌then◌else◌, ltb, ◌==◌, arith,
}
use jni2hook.ByteStream.Buffer.{ByteBuffer, Writer, byte_buffer_u1}
use jni2hook.ByteStream.Reads.{be4}
use jni2hook.ByteStream.Many.{many_bytes, Writes-many}
use jni2hook.ByteStream.Writes.{
  Plenty, Writes, Writes-u1, Writes-u2, Writes-u4, Writes-skip, Writes-then, max_size,
}
use jni2hook.Instruction.Node.{
  SwitchPair, Operand, Instruction, kind, biased, padding, instruction_switch_entries,
  max_code_length,
}
use jni2hook.Instruction.Decode.{may_be_wide}
use jni2hook.Instruction.Encode.{
  pad_switch, write_pair, after_padding, write_table_switch, write_lookup_switch, u1_or_u2,
  encode_operand, write_opcode,
}
use jni2hook.Instruction.Numbers.{near_in_branch_range, near_in_wide_range}
use jni2hook.Instruction.Layout.{
  zeros, be1_or_be2, pair_bytes, target_bytes, opcode_bytes, operand_bytes, instruction_bytes,
  IsOperand,
}

-- The buffer `after` is in order and holds what `b` holds and the bytes.
pub record IsLonger (b : ByteBuffer) (bytes : List ℕ) (after : ByteBuffer) : Type 0 where
  pub good : after.fine ≡ true
  pub contents : after.written ≡ b.written ++ bytes

-- A step that comes back and appends the bytes.
abbrev pub Appends : ByteBuffer → List ℕ → Option (Result ByteBuffer) → Type 0
Appends b bytes outcome =
    (after : ByteBuffer) × (outcome ≡ some (ok after)) × IsLonger b bytes after

pub IsLonger-twice :
    (b c d : ByteBuffer) (xs ys : List ℕ)
    → IsLonger b xs c
    → IsLonger c ys d
    → IsLonger b (xs ++ ys) d
IsLonger-twice b c d xs ys h k = record {
  good = k.good;
  contents = k.contents ∙ ap (λ zs. zs ++ ys) h.contents ∙ append_assoc b.written xs ys;
}

pub length-zeros : (n : ℕ) → length (zeros n) ≡ n
length-zeros zero = refl
length-zeros (suc n) = ap suc (length-zeros n)

pub by_not : (wide : Bool) → (not wide || false) ≡ true → wide ≡ false
by_not wide h = ground arith

-- The bound on the entries leaves a table of the right size whole.
pub entries_count :
    (low high : ℕ) (targets : List ℕ)
    → low ≤ high
    → length targets ≡ high - low + 1
    → length targets ≤ max_code_length
    → (if ltb high low
        then 0
        else (if ltb max_code_length (high - low + 1) then max_code_length else high - low + 1))
      ≡ length targets
entries_count low high targets h same room = ground arith

entries_all :
    (low high : ℕ) (targets : List ℕ)
    → low ≤ high
    → length targets ≡ high - low + 1
    → length targets ≤ max_code_length
    → take
        (if ltb high low
          then 0
          else (if ltb max_code_length (high - low + 1) then max_code_length else high - low + 1))
        targets
      ≡ targets
entries_all low high targets h same room =
    rw (entries_count low high targets h same room) (take_all targets)

pub length-operand_room :
    (node : Instruction)
    → length (instruction_bytes node)
      ≡ length (opcode_bytes node.wide node.opcode)
        + length (operand_bytes node.offset node.opcode node.wide node.operand)
length-operand_room node =
    length-append (opcode_bytes node.wide node.opcode)
      (operand_bytes node.offset node.opcode node.wide node.operand)

module _ (grants : ℕ → Bool) (plenty : Plenty grants) where
  pub written_by :
      {w : Writer} {bytes : List ℕ}
      → Writes grants w bytes
      → (b : ByteBuffer) → b.fine ≡ true
      → length b.written + length bytes < max_size
      → IsLonger b bytes (w b)
  written_by h b fine small =
      let good = h.succeeds b plenty fine in
      record { good = good; contents = (h.appends b small good).1 }

  Writes-u1_or_u2 : (two : Bool) (v : ℕ) → Writes grants (u1_or_u2 grants two v) (be1_or_be2 two v)
  Writes-u1_or_u2 true v = Writes-u2 grants v
  Writes-u1_or_u2 false v = Writes-u1 grants v

  pub Writes-opcode :
      (wide : Bool) (opcode : ℕ)
      → Writes grants (write_opcode grants wide opcode) (opcode_bytes wide opcode)
  Writes-opcode true opcode =
      Writes-then grants _ _ (Writes-u1 grants 196) (Writes-u1 grants opcode)
  Writes-opcode false opcode = Writes-then grants _ _ (Writes-skip grants) (Writes-u1 grants opcode)

  Writes-pair :
      (offset : ℕ) (p : SwitchPair)
      → Writes grants (write_pair grants offset p) (pair_bytes offset p)
  unfolding write_pair
  Writes-pair offset p = Writes-then grants _ _ (Writes-u4 grants _) (Writes-u4 grants _)

  Writes-table :
      (offset default low high : ℕ) (targets : List ℕ)
      → Writes grants (write_table_switch grants offset default low high targets) (
          target_bytes offset default
          ++ (be4 low ++ (be4 high ++ many_bytes (target_bytes offset) targets)))
  Writes-table offset default low high targets = Writes-then grants _ _ (Writes-u4 grants _) (
      Writes-then grants _ _ (Writes-u4 grants _) (
        Writes-then grants _ _ (Writes-u4 grants _)
          (Writes-many grants (target_bytes offset) _ (λ t. Writes-u4 grants _) targets)))

  Writes-lookup :
      (offset default : ℕ) (pairs : List SwitchPair)
      → Writes grants (write_lookup_switch grants offset default pairs) (
          target_bytes offset default
          ++ (be4 (length pairs) ++ many_bytes (pair_bytes offset) pairs))
  Writes-lookup offset default pairs = Writes-then grants _ _ (Writes-u4 grants _) (
      Writes-then grants _ _ (Writes-u4 grants _)
        (Writes-many grants (pair_bytes offset) _ (Writes-pair offset) pairs))

  -- The loop over the padding writes so many zeros.
  pub padded :
      (n rounds : ℕ) (b : ByteBuffer)
      → n < 4
      → n ≤ rounds
      → (length b.written + n) % 4 ≡ 0
      → b.fine ≡ true
      → length b.written + n < max_size
      → (after : ByteBuffer) × (pad_switch grants rounds b ≡ some after)
        × IsLonger b (zeros n) after
  unfolding pad_switch
  padded zero zero b small enough fit fine room =
      (b, ground arith, record { good = fine; contents = sym (append-nil b.written) })
  padded zero (suc rounds) b small enough fit fine room =
      (b, ground arith, record { good = fine; contents = sym (append-nil b.written) })
  padded (suc n) zero b small enough fit fine room = absurd (omega arith)
  padded (suc n) (suc rounds) b small enough fit fine room =
      let one = written_by (Writes-u1 grants 0) b fine (omega arith) in
      let size = ap (λ xs. length xs) one.contents ∙ length-append b.written (0 ∷ []) in
      let (after, run, longer) =
        padded n rounds (byte_buffer_u1 grants 0 b) (omega arith) (omega arith) (omega arith)
          one.good (omega arith) in
      let going : (length b.written % 4 == 0) ≡ false = ground arith in
      (after, rw (going, run) refl, IsLonger-twice b _ after (0 ∷ []) (zeros n) one longer)

  by_writer :
      {w : Writer} {bytes : List ℕ}
      → Writes grants w bytes
      → (b : ByteBuffer) → b.fine ≡ true
      → length b.written + length bytes < max_size
      → Appends b bytes (some (ok (w b)))
  by_writer {w} h b fine small = (w b, refl, written_by h b fine small)

  behind_padding :
      {w : Writer} {bytes : List ℕ}
      → Writes grants w bytes
      → (rounds offset : ℕ) (b : ByteBuffer) → 3 ≤ rounds
      → b.fine ≡ true
      → length b.written ≡ offset + 1
      → length b.written + length (zeros (padding offset) ++ bytes) < max_size
      → Appends b
          (zeros (padding offset) ++ bytes)
          (after_padding grants (pad_switch grants rounds b) w)
  behind_padding {w} {bytes} h rounds offset b enough fine at small =
      let split = length-append (zeros (padding offset)) bytes in
      let count = length-zeros (padding offset) in
      let (c, run, longer) =
        padded (padding offset) rounds b (omega arith) (omega arith) (omega arith) fine
          (omega arith) in
      let size =
        ap (λ xs. length xs) longer.contents ∙ length-append b.written (zeros (padding offset)) in
      (
        w c,
        rw run refl,
        IsLonger-twice b c (w c) _ bytes longer (written_by h c longer.good (omega arith)),
      )

  pub encode_operand-Appends :
      (rounds offset opcode : ℕ) (wide : Bool) (operand : Operand) (b : ByteBuffer)
      → 3 ≤ rounds
      → b.fine ≡ true
      → (wide ≡ false → length b.written ≡ offset + 1)
      → (not wide || may_be_wide (kind operand)) ≡ true
      → IsOperand offset opcode wide operand
      → length b.written + length (operand_bytes offset opcode wide operand) < max_size
      → Appends b
          (operand_bytes offset opcode wide operand)
          (encode_operand grants rounds offset opcode wide operand b)
  unfolding encode_operand instruction_switch_entries kind
  encode_operand-Appends rounds offset opcode wide Operand.no_operand b enough fine at widened fits
        small =
      by_writer (Writes-skip grants) b fine small
  encode_operand-Appends rounds offset opcode wide (Operand.immediate value) b enough fine at
        widened fits small =
      by_writer (Writes-u1_or_u2 _ value) b fine small
  encode_operand-Appends rounds offset opcode wide (Operand.local index) b enough fine at widened
        fits small =
      by_writer (Writes-u1_or_u2 wide index) b fine small
  encode_operand-Appends rounds offset opcode wide (Operand.iinc index delta) b enough fine at
        widened fits small =
      by_writer (Writes-then grants _ _ (Writes-u1_or_u2 wide index) (Writes-u1_or_u2 wide delta)) b
        fine small
  encode_operand-Appends rounds offset opcode wide (Operand.constant index) b enough fine at widened
        fits small =
      by_writer (Writes-u1_or_u2 _ index) b fine small
  encode_operand-Appends rounds offset opcode wide (Operand.cp_index index) b enough fine at widened
        fits small =
      by_writer (Writes-u2 grants index) b fine small
  encode_operand-Appends rounds offset opcode wide (Operand.invoke_interface index count last) b
        enough fine at widened fits small =
      by_writer
        (Writes-then grants _ _ (Writes-u2 grants index)
          (Writes-then grants _ _ (Writes-u1 grants count) (Writes-u1 grants last)))
        b fine small
  encode_operand-Appends rounds offset opcode wide (Operand.invoke_dynamic index last) b enough fine
        at widened fits small =
      by_writer (Writes-then grants _ _ (Writes-u2 grants index) (Writes-u2 grants last)) b fine
        small
  encode_operand-Appends rounds offset opcode wide (Operand.multianewarray index dimensions) b
        enough fine at widened fits small =
      by_writer (Writes-then grants _ _ (Writes-u2 grants index) (Writes-u1 grants dimensions)) b
        fine small
  encode_operand-Appends rounds offset opcode wide (Operand.branch target) b enough fine at widened
        fits small =
      rw (near_in_branch_range offset target fits.0 fits.1)
        (by_writer (Writes-u2 grants _) b fine small)
  encode_operand-Appends rounds offset opcode wide (Operand.branch_wide target) b enough fine at
        widened fits small =
      rw (near_in_wide_range offset target fits.0 fits.1)
        (by_writer (Writes-u4 grants _) b fine small)
  encode_operand-Appends rounds offset opcode wide (Operand.table_switch default low high targets) b
        enough fine at widened fits small =
      rw (entries_all (biased low) (biased high) targets fits.3 fits.4 fits.5) (
        behind_padding (Writes-table offset default low high targets) rounds offset b enough fine
          (at (by_not wide widened)) small)
  encode_operand-Appends rounds offset opcode wide (Operand.lookup_switch default pairs) b enough
        fine at widened fits small =
      behind_padding (Writes-lookup offset default pairs) rounds offset b enough fine
        (at (by_not wide widened)) small
