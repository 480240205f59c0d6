-- ===== src/ByteStream/Reads.antt =====
-- src/byte_stream.c, reading what is there: the rules by which a reader gets a value from the
-- bytes that encode it and leaves the cursor behind them.
use jni2hook.Base.{
  ℕ, ◌+◌, ◌*◌, ◌/◌, ◌%◌, ◌^◌, ◌<◌, ◌≡◌, ap, ◌∙◌, Bool, true, ◌||◌, ◌==◌, List, [], ◌∷◌, ◌++◌,
  append_assoc, length, length-append, take-append_self, drop-append_self, Result, ok,
  ClassfileStatus, arith, subst, append-nil,
}
use jni2hook.ByteStream.Cursor.{
  ByteCursor, Reader, ◌>>=◌, pure, check, require, byte_cursor_u1, byte_cursor_u2, byte_cursor_u4,
  bytes_or_truncated, allocate, reserve,
}

-- The big-endian bytes of a u1, a u2 and a u4.
abbrev pub be1 : ℕ → List ℕ
be1 v = v % 256 ∷ []

abbrev pub be2 : ℕ → List ℕ
be2 v = v / 256 % 256 ∷ v % 256 ∷ []

abbrev pub be4 : ℕ → List ℕ
be4 v = v / 16777216 % 256 ∷ v / 65536 % 256 ∷ v / 256 % 256 ∷ v % 256 ∷ []

abbrev pub cursor_at : List ℕ → ℕ → ByteCursor
cursor_at bytes t = record { ahead = bytes; taken = t; fine = true }

-- `p` reads `a` off `bytes`, whatever follows them.
pub record Reads {A : Type 0} (p : Reader A) (bytes : List ℕ) (a : A) : Type 0 where
  pub run :
      (rest : List ℕ) (t : ℕ)
      → p (cursor_at (bytes ++ rest) t) ≡ ok (a, cursor_at rest (t + length bytes))

bind_step :
    {A B : Type 0} (p : Reader A) (f : A → Reader B) (c d : ByteCursor) (a : A)
    {r : Result (B × ByteCursor)}
    → p c ≡ ok (a, d)
    → f a d ≡ r
    → (p >>= f) c ≡ r
unfolding ◌>>=◌
bind_step p f c d a e h = rw e h

module _ {A B : Type 0} (p : Reader A) (f : A → Reader B) where
  pub Reads-bind :
      {bs : List ℕ} {a : A} {cs : List ℕ} {b : B}
      → Reads p bs a
      → Reads (f a) cs b
      → Reads (p >>= f) (bs ++ cs) b
  Reads-bind {bs} {a} {cs} {b} h k = record {
    run = λ rest t. rw (append_assoc bs cs rest) (
        bind_step p f (cursor_at (bs ++ (cs ++ rest)) t) (cursor_at (cs ++ rest) (t + length bs)) a
          (h.run (cs ++ rest) t)
          (rw (length-append bs cs)
            (k.run rest (t + length bs) ∙ ap (λ n. ok (b, cursor_at rest n)) (omega arith))));
  }

pub Reads-pure : {A : Type 0} (a : A) → Reads (pure a) [] a
unfolding pure
Reads-pure a = record { run = λ rest t. ap (λ n. ok (a, cursor_at rest n)) (omega arith) }

pub Reads-check : (e : ClassfileStatus) → Reads (check e) [] tt
unfolding check
Reads-check e = record { run = λ rest t. ap (λ n. ok (tt, cursor_at rest n)) (omega arith) }

pub Reads-require : (b : Bool) (e : ClassfileStatus) → b ≡ true → Reads (require b e) [] tt
unfolding require
Reads-require b e h = record {
  run = λ rest t. rw h (ap (λ n. ok (tt, cursor_at rest n)) (omega arith));
}

pub Reads-u1 : (v : ℕ) → v < 256 → Reads byte_cursor_u1 (be1 v) v
unfolding byte_cursor_u1
Reads-u1 v h = record { run = λ rest t. ground arith }

pub Reads-u2 : (v : ℕ) → v < 65536 → Reads byte_cursor_u2 (be2 v) v
unfolding byte_cursor_u2
Reads-u2 v h = record { run = λ rest t. ground arith }

pub Reads-u4 : (v : ℕ) → v < 2 ^ 32 → Reads byte_cursor_u4 (be4 v) v
unfolding byte_cursor_u4
Reads-u4 v h = record { run = λ rest t. ground arith }

pub Reads-bytes : (bs : List ℕ) → Reads (bytes_or_truncated (length bs)) bs bs
unfolding bytes_or_truncated
Reads-bytes bs = record {
  run = λ rest t.
      ground (arith, length-append bs rest, take-append_self bs rest, drop-append_self bs rest);
}

-- A step that reads nothing.
pub Reads-then :
    {A B : Type 0} (p : Reader A) (f : A → Reader B) {a : A} {cs : List ℕ} {b : B}
    → Reads p [] a
    → Reads (f a) cs b
    → Reads (p >>= f) cs b
Reads-then p f h k = Reads-bind p f h k

-- The last step of a reader only shapes the value.
pub Reads-last :
    {A B : Type 0} (p : Reader A) (f : A → Reader B) {a : A} {bs : List ℕ} {b : B}
    → Reads p bs a
    → Reads (f a) [] b
    → Reads (p >>= f) bs b
Reads-last p f {bs = bs} {b = b} h k =
    subst (λ cs. Reads (p >>= f) cs b) (append-nil bs) (Reads-bind p f h k)

-- With memory enough every request is granted.
pub Reads-allocate :
    (grants : ℕ → Bool) (n : ℕ) → ((m : ℕ) → grants m ≡ true) → Reads (allocate grants n) [] tt
unfolding allocate
Reads-allocate grants n plenty = Reads-require (grants n) _ (plenty n)

pub Reads-reserve :
    (grants : ℕ → Bool) (count stride : ℕ)
    → ((m : ℕ) → grants m ≡ true)
    → Reads (reserve grants count stride) [] tt
unfolding reserve
Reads-reserve grants count stride plenty =
    Reads-require (count == 0 || grants (count * stride)) _
      (ground (arith, plenty (count * stride)))
