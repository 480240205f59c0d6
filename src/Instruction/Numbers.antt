-- ===== src/Instruction/Numbers.antt =====
-- src/visitors/instruction.c, `instruction_list_parse`: reading the numbers, targets and padding of
-- operands.
use jni2hook.Base.{
  ℕ, zero, suc, ◌+◌, ◌*◌, ◌%◌, ◌≤◌, ◌<◌, ◌≡◌, ap, subst, inl, inr, Bool-cases, Bool, true, false,
  List, [], ◌∷◌, ◌++◌, append_assoc, length, length-append, ok, ltb, ◌==◌, arith,
}
use jni2hook.ByteStream.Cursor.{pure, byte_cursor_ok, byte_cursor_offset, byte_cursor_remaining}
use jni2hook.ByteStream.Reads.{
  Reads, Reads-bind, Reads-last, Reads-pure, Reads-u1, Reads-u2, Reads-u4, be1, be2, be4, cursor_at,
}
use jni2hook.ByteStream.Placed.{ReadsAt, ReadsAt-of_Reads, ReadsAt-bind}
use jni2hook.ByteStream.Many.{many_bytes}
use jni2hook.Instruction.Node.{SwitchPair}
use jni2hook.Instruction.Decode.{
  signed_1, signed_2, read_i4, read_i2, read_i1, target_of, skip_padding, need_remaining,
  read_target, read_pair, read_u1_or_u2, read_i1_or_i2,
}
use jni2hook.Instruction.Encode.{delta_from, in_branch_range, in_wide_range}
use jni2hook.Instruction.Layout.{
  zeros, be1_or_be2, pair_bytes, target_bytes, IsSigned, IsUnsigned, IsI4, IsPair, IsNear, IsFar,
}

pub Reads-i4 : (v : ℕ) → IsI4 v → Reads read_i4 (be4 v) v
unfolding read_i4
Reads-i4 v h = Reads-u4 v (omega arith)

be2_low : (v : ℕ) → be2 (v % 65536) ≡ be2 v
be2_low v = ground arith

be1_low : (v : ℕ) → be1 (v % 256) ≡ be1 v
be1_low v = ground arith

signed_2_low : (v : ℕ) → IsSigned true v → signed_2 (v % 65536) ≡ v
signed_2_low v h = ground arith

signed_1_low : (v : ℕ) → IsSigned false v → signed_1 (v % 256) ≡ v
signed_1_low v h = ground arith

pub Reads-i2 : (v : ℕ) → IsSigned true v → Reads read_i2 (be2 v) v
unfolding read_i2
Reads-i2 v h =
    subst (λ bs. Reads read_i2 bs v) (be2_low v)
      (Reads-last _ _ (Reads-u2 (v % 65536) (omega arith))
        (subst (λ w. Reads (pure (signed_2 (v % 65536))) [] w) (signed_2_low v h) (Reads-pure _)))

Reads-i1 : (v : ℕ) → IsSigned false v → Reads read_i1 (be1 v) v
unfolding read_i1
Reads-i1 v h =
    subst (λ bs. Reads read_i1 bs v) (be1_low v)
      (Reads-last _ _ (Reads-u1 (v % 256) (omega arith))
        (subst (λ w. Reads (pure (signed_1 (v % 256))) [] w) (signed_1_low v h) (Reads-pure _)))

pub Reads-i1_or_i2 :
    (two : Bool) (v : ℕ) → IsSigned two v → Reads (read_i1_or_i2 two) (be1_or_be2 two v) v
unfolding read_i1_or_i2
Reads-i1_or_i2 true v h = Reads-i2 v h
Reads-i1_or_i2 false v h = Reads-i1 v h

pub Reads-u1_or_u2 :
    (two : Bool) (v : ℕ) → IsUnsigned two v → Reads (read_u1_or_u2 two) (be1_or_be2 two v) v
unfolding read_u1_or_u2
Reads-u1_or_u2 true v h = Reads-u2 v h
Reads-u1_or_u2 false v h = Reads-u1 v h

pub target_of-delta_from :
    (offset target : ℕ)
    → offset < 4294967296
    → IsI4 target
    → target_of offset (delta_from offset target) ≡ target
target_of-delta_from offset target h k = omega arith

pub Reads-target :
    (offset target : ℕ)
    → offset < 4294967296
    → IsI4 target
    → Reads (read_target offset) (target_bytes offset target) target
unfolding read_target
Reads-target offset target h k =
    Reads-last _ _ (Reads-i4 (delta_from offset target) (omega arith)) (
      subst (λ w. Reads (pure (target_of offset (delta_from offset target))) [] w)
        (target_of-delta_from offset target h k) (Reads-pure _))

-- The range tests of the encoder are those of the format.
pub near_in_branch_range :
    (offset target : ℕ)
    → IsI4 target
    → IsNear 32768 offset target
    → in_branch_range offset target ≡ true
near_in_branch_range offset target h near = ground arith

pub near_in_wide_range :
    (offset target : ℕ)
    → IsI4 target
    → IsNear 2147483648 offset target
    → in_wide_range offset target ≡ true
near_in_wide_range offset target h near = ground arith

pub far_out_of_range :
    (offset target : ℕ)
    → IsI4 target
    → IsFar 32768 offset target
    → in_branch_range offset target ≡ false
far_out_of_range offset target h far = ground arith

-- A branch in range has a delta that a u2 holds.
pub branch_delta :
    (offset target : ℕ)
    → offset < 4294967296
    → IsI4 target
    → IsNear 32768 offset target
    → IsSigned true (delta_from offset target)
branch_delta offset target h k near = elim (Bool-cases (ltb (delta_from offset target) 32768)) [
  | inl small ↦ inl (ground arith)
  | inr large ↦ inr (ground arith, omega arith)
]

pub Reads-pair :
    (offset : ℕ)
    → offset < 4294967296
    → (p : SwitchPair) → IsPair p
    → Reads (read_pair offset) (pair_bytes offset p) p
unfolding read_pair
Reads-pair offset h p (one, two) =
    Reads-bind _ _ (Reads-i4 p.match_value one)
      (Reads-last _ _ (Reads-target offset p.target h two) (Reads-pure p))

-- The bytes up to the next multiple of four.
pub ReadsAt-padding :
    (rounds n t : ℕ) (rest : List ℕ)
    → (t + n) % 4 ≡ 0
    → n < 4
    → n ≤ rounds
    → ReadsAt (skip_padding rounds) t (zeros n) rest tt
unfolding skip_padding byte_cursor_ok byte_cursor_offset
ReadsAt-padding zero zero t rest h k l = record {
  run = ap (λ n. ok (tt, cursor_at rest n)) (omega arith);
}
ReadsAt-padding (suc rounds) zero t rest h k l =
    let there : (t % 4 == 0) ≡ true = ground arith in
    record { run = rw there (ap (λ n. ok (tt, cursor_at rest n)) (omega arith)) }
ReadsAt-padding zero (suc n) t rest h k l = absurd (omega arith)
ReadsAt-padding (suc rounds) (suc n) t rest h k l =
    let before : (t % 4 == 0) ≡ false = ground arith in
    let more =
      ReadsAt-bind _ _ (ReadsAt-of_Reads (Reads-u1 0 (omega arith)) t (zeros n ++ rest))
        (ReadsAt-padding rounds n (t + 1) rest (ground arith) (omega arith) (omega arith)) in
    record { run = rw before more.run }

pub ReadsAt-remaining :
    (n t : ℕ) (rest : List ℕ) → n ≤ length rest → ReadsAt (need_remaining n) t [] rest tt
unfolding need_remaining byte_cursor_remaining
ReadsAt-remaining n t rest h =
    let enough : ltb (length rest) n ≡ false = ground arith in
    record { run = rw enough (ap (λ n. ok (tt, cursor_at rest n)) (omega arith)) }

pub length-many_bytes :
    {A : Type 0} (layout : A → List ℕ) (k : ℕ)
    → ((a : A) → length (layout a) ≡ k)
    → (items : List A) (rest : List ℕ) → length items * k ≤ length (many_bytes layout items ++ rest)
length-many_bytes layout k h [] rest = omega arith
length-many_bytes layout k h (a ∷ items) rest = omega (
  arith,
  h a,
  length-many_bytes layout k h items rest,
  ap (λ (l : List ℕ). length l) (append_assoc (layout a) (many_bytes layout items) rest),
  length-append (layout a) (many_bytes layout items ++ rest),
)
