-- ===== src/Instruction/Shrinking.antt =====
-- src/visitors/instruction.c, the readers of its operands: what they leave of the code.
use jni2hook.Base.{
  ℕ, zero, suc, ◌%◌, ◌≤◌, ◌≡◌, Bool, true, false, ◌||◌, not, List, [], ◌∷◌, length, drop, ok,
  ClassfileStatus, if◌then◌else◌, ◌==◌, bind-eq-ok, arith,
}
use jni2hook.ByteStream.Cursor.{
  ByteCursor, Reader, ◌>>=◌, pure, fail, check, require, byte_cursor_ok, byte_cursor_offset,
  byte_cursor_u1, byte_cursor_u2, byte_cursor_u4, read_many,
}
use jni2hook.Instruction.Decode.{
  read_i4, read_i2, read_i1, read_position, skip_padding, need_remaining, read_target, read_pair,
  read_u1_or_u2, read_i1_or_i2, refuse_opcode,
}

-- `p` takes bytes or none, and leaves a cursor in order only if it was.
pub record Shrinks {A : Type 0} (p : Reader A) : Type 0 where
  pub run :
      (c : ByteCursor) {a : A} {d : ByteCursor}
      → p c ≡ ok (a, d)
      → (length d.ahead ≤ length c.ahead) × (d.fine ≡ true → c.fine ≡ true)

length-drop : (n : ℕ) (xs : List ℕ) → length (drop n xs) ≤ length xs
length-drop zero xs = omega arith
length-drop (suc n) [] = omega arith
length-drop (suc n) (x ∷ xs) = let later = length-drop n xs in omega arith

module _ {A B : Type 0} {p : Reader A} {f : A → Reader B} where
  pub Shrinks-bind : Shrinks p → ((a : A) → Shrinks (f a)) → Shrinks (p >>= f)
  unfolding ◌>>=◌
  Shrinks-bind h k = record {
    run = λ c e.
        let ((a, m), first, second) = bind-eq-ok (p c) (λ (a, d). f a d) e in
        let (less, was) = h.run c first in
        let (lesser, were) = (k a).run m second in (omega arith, λ good. was (were good));
  }

pub Shrinks-pure : {A : Type 0} (a : A) → Shrinks (pure a)
unfolding pure
Shrinks-pure a = record { run = λ c e. ground arith }

Shrinks-fail : {A : Type 0} (e : ClassfileStatus) → Shrinks (fail {A = A} e)
unfolding fail
Shrinks-fail x = record { run = λ c e. cc }

pub Shrinks-check : (e : ClassfileStatus) → Shrinks (check e)
unfolding check
Shrinks-check x = record { run = λ c e. ground arith }

pub Shrinks-require : (b : Bool) (e : ClassfileStatus) → Shrinks (require b e)
unfolding require
Shrinks-require b x = record { run = λ c e. ground arith }

pub Shrinks-u1 : Shrinks byte_cursor_u1
unfolding byte_cursor_u1
Shrinks-u1 = record { run = λ c e. ground (arith, length-drop 1 c.ahead) }

pub Shrinks-u2 : Shrinks byte_cursor_u2
unfolding byte_cursor_u2
Shrinks-u2 = record { run = λ c e. ground (arith, length-drop 2 c.ahead) }

Shrinks-u4 : Shrinks byte_cursor_u4
unfolding byte_cursor_u4
Shrinks-u4 = record { run = λ c e. ground (arith, length-drop 4 c.ahead) }

pub Shrinks-position : Shrinks read_position
unfolding read_position
Shrinks-position = record { run = λ c e. ground arith }

pub Shrinks-remaining : (n : ℕ) → Shrinks (need_remaining n)
unfolding need_remaining
Shrinks-remaining n = record { run = λ c e. ground arith }

pub Shrinks-many : {A : Type 0} (n : ℕ) (p : Reader A) → Shrinks p → Shrinks (read_many n p)
unfolding read_many
Shrinks-many zero p h = Shrinks-pure []
Shrinks-many (suc n) p h =
    Shrinks-bind h λ a. Shrinks-bind (Shrinks-many n p h) λ others. Shrinks-pure _

pub Shrinks-if :
    {A : Type 0} (test : Bool) {p q : Reader A}
    → Shrinks p
    → Shrinks q
    → Shrinks (if test then p else q)
Shrinks-if true h k = h
Shrinks-if false h k = k

-- Either reader, by a test on the cursor.
module _ {A : Type 0} {p q : Reader A} where
  Shrinks-branch :
      (test : Bool) (h : Shrinks p) (k : Shrinks q) (c : ByteCursor) {a : A} {d : ByteCursor}
      → (if test then p c else q c) ≡ ok (a, d)
      → (length d.ahead ≤ length c.ahead) × (d.fine ≡ true → c.fine ≡ true)
  Shrinks-branch true h k c e = h.run c e
  Shrinks-branch false h k c e = k.run c e

  Shrinks-choice :
      (test : ByteCursor → Bool)
      → Shrinks p
      → Shrinks q
      → Shrinks (λ c. if test c then p c else q c)
  Shrinks-choice test h k = record { run = λ c e. Shrinks-branch (test c) h k c e }

pub Shrinks-padding : (rounds : ℕ) → Shrinks (skip_padding rounds)
unfolding skip_padding pure
Shrinks-padding zero = Shrinks-pure tt
Shrinks-padding (suc rounds) =
    Shrinks-choice (λ c. byte_cursor_offset c % 4 == 0 || not (byte_cursor_ok c)) (Shrinks-pure tt)
      (Shrinks-bind Shrinks-u1 λ _. Shrinks-padding rounds)

pub Shrinks-i4 : Shrinks read_i4
unfolding read_i4
Shrinks-i4 = Shrinks-u4

pub Shrinks-i2 : Shrinks read_i2
unfolding read_i2
Shrinks-i2 = Shrinks-bind Shrinks-u2 λ _. Shrinks-pure _

Shrinks-i1 : Shrinks read_i1
unfolding read_i1
Shrinks-i1 = Shrinks-bind Shrinks-u1 λ _. Shrinks-pure _

pub Shrinks-target : (offset : ℕ) → Shrinks (read_target offset)
unfolding read_target
Shrinks-target offset = Shrinks-bind Shrinks-i4 λ _. Shrinks-pure _

pub Shrinks-pair : (offset : ℕ) → Shrinks (read_pair offset)
unfolding read_pair
Shrinks-pair offset =
    Shrinks-bind Shrinks-i4 λ _. Shrinks-bind (Shrinks-target offset) λ _. Shrinks-pure _

pub Shrinks-unsigned : (two : Bool) → Shrinks (read_u1_or_u2 two)
unfolding read_u1_or_u2
Shrinks-unsigned two = Shrinks-if two Shrinks-u2 Shrinks-u1

pub Shrinks-signed : (two : Bool) → Shrinks (read_i1_or_i2 two)
unfolding read_i1_or_i2
Shrinks-signed two = Shrinks-if two Shrinks-i2 Shrinks-i1

pub Shrinks-refuse : Shrinks refuse_opcode
unfolding refuse_opcode
Shrinks-refuse = Shrinks-bind (Shrinks-check _) λ _. Shrinks-fail _
