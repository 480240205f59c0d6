-- ===== src/ByteStream/Whole.antt =====
-- src/byte_stream.c, readers of a whole input: what they return on the bytes of a value, with
-- bytes behind them, and what a success says of the input.
use jni2hook.Base.{
  ℕ, ◌+◌, ◌≡◌, refl, sym, ap, ◌∙◌, subst, Bool, List, [], ◌∷◌, ◌++◌, append-nil, length, All,
  Result, ok, err, ClassfileStatus, bind, arith, ◌==◌,
}
use jni2hook.ByteStream.Cursor.{ByteCursor, IsByte, Reader, expect_end, run_whole}
use jni2hook.ByteStream.Reads.{Reads, cursor_at}
use jni2hook.ByteStream.Sound.{Sound}
use jni2hook.ByteStream.Ends.{EndsFine}

pub nil_of_length : (xs : List ℕ) → length xs ≡ 0 → xs ≡ []
nil_of_length [] h = refl
nil_of_length (x ∷ xs) h = absurd (omega (arith, h))

module _ {A : Type 0} (p : Reader A) where
  whole_of_run :
      (bytes : List ℕ) (a : A) (t : ℕ)
      → p (cursor_at bytes 0) ≡ ok (a, cursor_at [] t)
      → run_whole p bytes ≡ ok a
  unfolding run_whole
  whole_of_run bytes a t h = rw h

  pub run_whole-Reads : {bytes : List ℕ} {a : A} → Reads p bytes a → run_whole p bytes ≡ ok a
  run_whole-Reads {bytes} {a} h = whole_of_run bytes a (0 + length bytes) (
      subst (λ xs. p (cursor_at xs 0) ≡ ok (a, cursor_at [] (0 + length bytes))) (append-nil bytes)
        (h.run [] 0))

  trailing_of_run :
      (bytes : List ℕ) (a : A) (x : ℕ) (xs : List ℕ) (t : ℕ)
      → p (cursor_at bytes 0) ≡ ok (a, cursor_at (x ∷ xs) t)
      → run_whole p bytes ≡ err ClassfileStatus.trailing_bytes
  unfolding run_whole
  trailing_of_run bytes a x xs t h =
      let some_left : (length (x ∷ xs) == 0) ≡ Bool.false = ground arith in rw (h, some_left)

  -- Bytes behind a whole value are refused.
  pub run_whole-trailing :
      {bytes : List ℕ} {a : A} (x : ℕ) (xs : List ℕ)
      → Reads p bytes a
      → run_whole p (bytes ++ (x ∷ xs)) ≡ err ClassfileStatus.trailing_bytes
  run_whole-trailing {bytes} {a} x xs h =
      trailing_of_run (bytes ++ (x ∷ xs)) a x xs (0 + length bytes) (h.run (x ∷ xs) 0)

  end_inv :
      (r : Result (A × ByteCursor)) (a : A)
      → bind (bind r (λ (b, c). bind (expect_end c) (λ (_, d). ok (b, d)))) (λ (b, c). ok b) ≡ ok a
      → (d : ByteCursor) × (r ≡ ok (a, d)) × (length d.ahead ≡ 0)
  unfolding expect_end
  end_inv (ok (b, d)) a h = (d, ground arith, ground arith)
  end_inv (err e) a h = cc

  pub whole_inv :
      (bytes : List ℕ) (a : A)
      → run_whole p bytes ≡ ok a
      → (d : ByteCursor) × (p (cursor_at bytes 0) ≡ ok (a, d)) × (length d.ahead ≡ 0)
  unfolding run_whole
  whole_inv bytes a h = end_inv (p (cursor_at bytes 0)) a h

  pub run_whole-Sound :
      {R : A → List ℕ → Type 0}
      → Sound p R
      → EndsFine p
      → (bytes : List ℕ) (a : A) → All IsByte bytes
      → run_whole p bytes ≡ ok a
      → R a bytes
  run_whole-Sound {R} s f bytes a valid h =
      let (d, e, used) = whole_inv bytes a h in
      let (bs, took, related) = s.run (cursor_at bytes 0) valid e (f.run _ e) in
      subst (R a)
        (sym (took.split ∙ ap (λ xs. bs ++ xs) (nil_of_length d.ahead used) ∙ append-nil bs))
        related
