-- ===== src/ByteStream/Sound.antt =====
-- src/byte_stream.c, what a successful run has read: the rules by which a value that comes out of
-- a reader whose cursor has not failed is tied to the bytes that were consumed.
use jni2hook.Base.{
  ℕ, ◌+◌, ◌*◌, ◌^◌, ◌≤◌, ◌<◌, ◌≡◌, refl, ap, ◌∙◌, sym, Bool, true, false, ◌||◌, ◌==◌, List, [], ◌∷◌,
  ◌++◌, append_assoc, length, length-append, take-append-drop, length-take_of_le, take, drop, All,
  All-append_split, Result, ok, ClassfileStatus, arith, if◌then◌else◌, bind-eq-ok, subst,
  Bool-cases, inl, inr,
}
use jni2hook.ByteStream.Cursor.{
  ByteCursor, IsByte, Reader, ◌>>=◌, pure, fail, check, require, byte_cursor_u1, byte_cursor_u2,
  byte_cursor_u4, bytes_or_truncated, cursor_need, latched, allocate, reserve, byte_at, advance,
}
use jni2hook.ByteStream.Reads.{be1, be2, be4}

-- From the cursor `c` to the cursor `d`, over the bytes `bs`.
pub record Took (c d : ByteCursor) (bs : List ℕ) : Type 0 where
  pub was_fine : c.fine ≡ true
  pub split : c.ahead ≡ bs ++ d.ahead
  pub moved : d.taken ≡ c.taken + length bs

-- A run of `p` that ends with a cursor in order relates its value to the bytes consumed by `R`,
-- and no run mends a cursor that has failed.
pub record Sound {A : Type 0} (p : Reader A) (R : A → List ℕ → Type 0) : Type 0 where
  pub run :
      (c : ByteCursor) {a : A} {d : ByteCursor}
      → All IsByte c.ahead
      → p c ≡ ok (a, d)
      → d.fine ≡ true
      → (bs : List ℕ) × Took c d bs × R a bs
  pub latch :
      (c : ByteCursor) {a : A} {d : ByteCursor} → c.fine ≡ false → p c ≡ ok (a, d) → d.fine ≡ false

pub true_and_false : {b : Bool} → b ≡ true → b ≡ false → ⊥
true_and_false h k = cc

Took-nil : (c : ByteCursor) → c.fine ≡ true → Took c c []
Took-nil c h = record { was_fine = h; split = refl; moved = omega arith }

Took-trans : {c d e : ByteCursor} {bs cs : List ℕ} → Took c d bs → Took d e cs → Took c e (bs ++ cs)
Took-trans {c} {d} {e} {bs} {cs} h k = record {
  was_fine = h.was_fine;
  split = h.split ∙ ap (λ xs. bs ++ xs) k.split ∙ sym (append_assoc bs cs e.ahead);
  moved = omega (arith, h.moved, k.moved, length-append bs cs);
}

pub Took-bytes :
    {c d : ByteCursor} {bs : List ℕ} → Took c d bs → All IsByte c.ahead → All IsByte d.ahead
Took-bytes {c} {d} {bs} h k = (All-append_split IsByte bs d.ahead (subst (All IsByte) h.split k)).1

pub bind-inv :
    {A B : Type 0} (p : Reader A) (f : A → Reader B) (c : ByteCursor) {b : B} {e : ByteCursor}
    → (p >>= f) c ≡ ok (b, e)
    → (m : A × ByteCursor) × (p c ≡ ok m) × (f m.0 m.1 ≡ ok (b, e))
unfolding ◌>>=◌
bind-inv p f c h = bind-eq-ok (p c) (λ (a, d). f a d) h

module _ {A B : Type 0} (p : Reader A) (f : A → Reader B) where
  -- The rest of a reader is sound for what is left to be said of its result.
  pub Sound-bind :
      {P : A → List ℕ → Type 0} {R : B → List ℕ → Type 0}
      → Sound p P
      → ((a : A) (bs : List ℕ) → Sound (f a) (λ b cs. P a bs → R b (bs ++ cs)))
      → Sound (p >>= f) R
  Sound-bind {P} {R} h k = record {
    run = λ c bytes e good.
        let ((a, m), first, second) = bind-inv p f c e in
        elim (Bool-cases m.fine) [
          | inl was ↦
              let (bs, took, left) = h.run c bytes first was in
              let (cs, took', right) = (k a bs).run m (Took-bytes took bytes) second good in
              (bs ++ cs, Took-trans took took', right left)
          | inr lost ↦ absurd (true_and_false good ((k a []).latch m lost second))
        ];
    latch = λ c lost e.
        let ((a, m), first, second) = bind-inv p f c e in
        (k a []).latch m (h.latch c lost first) second;
  }

pub Sound-weaken :
    {A : Type 0} {p : Reader A} {P R : A → List ℕ → Type 0}
    → Sound p P
    → ((a : A) (bs : List ℕ) → P a bs → R a bs)
    → Sound p R
Sound-weaken h w = record {
  run =
      λ c {a} bytes e good. let (bs, took, left) = h.run c bytes e good in (bs, took, w a bs left);
  latch = h.latch;
}

pub ok_parts :
    {A : Type 0} {a b : A} {c d : ByteCursor}
    → ◌≡◌ {A = Result (A × ByteCursor)} (ok (a, c)) (ok (b, d))
    → (a ≡ b) × (c ≡ d)
ok_parts e = ground arith

pub Sound-pure : {A : Type 0} {R : A → List ℕ → Type 0} (a : A) → R a [] → Sound (pure a) R
unfolding pure
Sound-pure {R} a h = record {
  run = λ c {a = b} {d} bytes e good.
      let (same, stays) = ok_parts e in
      (
        [],
        subst (λ x. Took c x []) stays (Took-nil c (subst (λ x. x.fine ≡ true) (sym stays) good)),
        subst (λ x. R x []) same h,
      );
  latch = λ c lost e. subst (λ x. x.fine ≡ false) (ok_parts e).1 lost;
}

pub Sound-fail : {A : Type 0} {R : A → List ℕ → Type 0} (e : ClassfileStatus) → Sound (fail e) R
unfolding fail
Sound-fail x = record { run = λ c bytes e good. cc; latch = λ c lost e. cc }

check_inv : (x : ClassfileStatus) (c d : ByteCursor) (u : Unit {0}) → check x c ≡ ok (u, d) → c ≡ d
unfolding check
check_inv x c d u e = ground arith

require_inv :
    (b : Bool) (x : ClassfileStatus) (c d : ByteCursor) (u : Unit {0})
    → require b x c ≡ ok (u, d)
    → (c ≡ d) × (b ≡ true)
unfolding require
require_inv b x c d u e = ground arith

pub Sound-require :
    (b : Bool) (e : ClassfileStatus) → Sound (require b e) (λ u bs. (b ≡ true) × (bs ≡ []))
Sound-require b x = record {
  run = λ c {a} {d} bytes e good.
      let (stays, held) = require_inv b x c d a e in
      (
        [],
        subst (λ x. Took c x []) stays (Took-nil c (subst (λ x. x.fine ≡ true) (sym stays) good)),
        (held, refl),
      );
  latch = λ c {a} {d} lost e. subst (λ x. x.fine ≡ false) (require_inv b x c d a e).0 lost;
}

pub Sound-check : (e : ClassfileStatus) → Sound (check e) (λ u bs. bs ≡ [])
Sound-check x = record {
  run = λ c {a} {d} bytes e good.
      let stays = check_inv x c d a e in
      (
        [],
        subst (λ x. Took c x []) stays (Took-nil c (subst (λ x. x.fine ≡ true) (sym stays) good)),
        refl,
      );
  latch = λ c {a} {d} lost e. subst (λ x. x.fine ≡ false) (check_inv x c d a e) lost;
}

latched_inv :
    {A : Type 0} (n : ℕ) (value : List ℕ → A) (missing : A) (c : ByteCursor) {a : A}
    {d : ByteCursor}
    → latched n value missing c ≡ ok (a, d)
    → d.fine ≡ true
    → (c.fine ≡ true) × (n ≤ length c.ahead) × (value c.ahead ≡ a) × (advance n c ≡ d)
unfolding cursor_need
latched_inv n value missing c e good = ground arith

latched_latch :
    {A : Type 0} (n : ℕ) (value : List ℕ → A) (missing : A) (c : ByteCursor) {a : A}
    {d : ByteCursor}
    → c.fine ≡ false
    → latched n value missing c ≡ ok (a, d)
    → d.fine ≡ false
unfolding cursor_need
latched_latch n value missing c lost e = ground arith

Took-advance :
    (n : ℕ) (c : ByteCursor)
    → c.fine ≡ true
    → n ≤ length c.ahead
    → Took c (advance n c) (take n c.ahead)
Took-advance n c h k = record {
  was_fine = h;
  split = sym (take-append-drop n c.ahead);
  moved = omega (arith, length-take_of_le n c.ahead k);
}

-- A latched read is sound for whatever holds of its value on enough bytes.
Sound-latched :
    {A : Type 0} {R : A → List ℕ → Type 0} (n : ℕ) (value : List ℕ → A) (missing : A)
    → ((bs : List ℕ) → All IsByte bs → n ≤ length bs → R (value bs) (take n bs))
    → Sound (latched n value missing) R
Sound-latched {R} n value missing h = record {
  run = λ c bytes e good.
      let (was, enough, same, moves) = latched_inv n value missing c e good in
      (
        take n c.ahead,
        subst (λ x. Took c x (take n c.ahead)) moves (Took-advance n c was enough),
        subst (λ x. R x (take n c.ahead)) same (h c.ahead bytes enough),
      );
  latch = λ c lost e. latched_latch n value missing c lost e;
}

pub Sound-u1 : Sound byte_cursor_u1 (λ v bs. (v < 256) × (bs ≡ be1 v))
unfolding byte_cursor_u1
Sound-u1 = Sound-latched 1 _ 0 go
  where
    go :
        (bs : List ℕ)
        → All IsByte bs
        → 1 ≤ length bs
        → (byte_at bs 0 < 256) × (take 1 bs ≡ be1 (byte_at bs 0))
    go [] h k = absurd (omega arith)
    go (b ∷ bs) h k = ground arith

pub Sound-u2 : Sound byte_cursor_u2 (λ v bs. (v < 65536) × (bs ≡ be2 v))
unfolding byte_cursor_u2
Sound-u2 = Sound-latched 2 _ 0 go
  where
    go :
        (bs : List ℕ)
        → All IsByte bs
        → 2 ≤ length bs
        → let v = byte_at bs 0 * 256 + byte_at bs 1 in (v < 65536) × (take 2 bs ≡ be2 v)
    go [] h k = absurd (omega arith)
    go (b ∷ []) h k = absurd (omega arith)
    go (b ∷ b' ∷ bs) h k = ground arith

pub Sound-u4 : Sound byte_cursor_u4 (λ v bs. (v < 2 ^ 32) × (bs ≡ be4 v))
unfolding byte_cursor_u4
Sound-u4 = Sound-latched 4 _ 0 go
  where
    go :
        (bs : List ℕ)
        → All IsByte bs
        → 4 ≤ length bs
        → let v =
            byte_at bs 0 * 16777216 + byte_at bs 1 * 65536 + byte_at bs 2 * 256 + byte_at bs 3 in
          (v < 2 ^ 32) × (take 4 bs ≡ be4 v)
    go [] h k = absurd (omega arith)
    go (b ∷ []) h k = absurd (omega arith)
    go (b ∷ b' ∷ []) h k = absurd (omega arith)
    go (b ∷ b' ∷ b'' ∷ []) h k = absurd (omega arith)
    go (b ∷ b' ∷ b'' ∷ b₃ ∷ bs) h k = ground arith

found_inv :
    (n : ℕ) (c : ByteCursor) {bs : List ℕ} {d : ByteCursor}
    → bytes_or_truncated n c ≡ ok (bs, d)
    → (c.fine ≡ true) × (n ≤ length c.ahead) × (take n c.ahead ≡ bs) × (advance n c ≡ d)
unfolding bytes_or_truncated
found_inv n c e = ground arith

-- A block of bytes is never short: the null pointer is an error at once.
pub Sound-bytes :
    (n : ℕ) → Sound (bytes_or_truncated n) (λ v bs. (length v ≡ n) × (bs ≡ v) × All IsByte v)
Sound-bytes n = record {
  run = λ c bytes e good.
      let (was, enough, same, moves) = found_inv n c e in
      (
        take n c.ahead,
        subst (λ x. Took c x (take n c.ahead)) moves (Took-advance n c was enough),
        subst (λ v. (length v ≡ n) × (take n c.ahead ≡ v) × All IsByte v) same
            (
              length-take_of_le n c.ahead enough,
              refl,
              (All-append_split IsByte (take n c.ahead) (drop n c.ahead)
                  (subst (All IsByte) (sym (take-append-drop n c.ahead)) bytes)).0,
            ),
      );
  latch = λ c lost e. absurd (true_and_false (found_inv n c e).0 lost);
}

-- A request to the allocator reads nothing.
pub Sound-allocate : (grants : ℕ → Bool) (n : ℕ) → Sound (allocate grants n) (λ u bs. bs ≡ [])
unfolding allocate
Sound-allocate grants n = Sound-weaken (Sound-require (grants n) _) (λ u bs h. h.1)

pub Sound-reserve :
    (grants : ℕ → Bool) (count stride : ℕ) → Sound (reserve grants count stride) (λ u bs. bs ≡ [])
unfolding reserve
Sound-reserve grants count stride =
    Sound-weaken (Sound-require (count == 0 || grants (count * stride)) _) (λ u bs h. h.1)

-- A branch on a test.
pub Sound-if :
    {A : Type 0} {R : A → List ℕ → Type 0} (b : Bool) {p q : Reader A}
    → (b ≡ true → Sound p R)
    → Sound q R
    → Sound (if b then p else q) R
Sound-if true h k = h refl
Sound-if false h k = k
