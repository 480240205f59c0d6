-- ===== src/ByteStream/Placed.antt =====
-- src/byte_stream.c, reading at a known place: as `Reads`, for readers that look at the offset of the
-- cursor or at how much is left.
use jni2hook.Base.{
  ℕ, ◌+◌, ◌≡◌, ap, ◌∙◌, subst, List, [], ◌++◌, append_assoc, append-nil, length, length-append,
  Result, ok, arith,
}
use jni2hook.ByteStream.Cursor.{ByteCursor, Reader, ◌>>=◌}
use jni2hook.ByteStream.Reads.{Reads, cursor_at}

-- From the offset `t`, with `rest` behind them, `p` reads `a` off `bytes`.
pub record ReadsAt {A : Type 0} (p : Reader A) (t : ℕ) (bytes rest : List ℕ) (a : A) : Type 0 where
  pub run : p (cursor_at (bytes ++ rest) t) ≡ ok (a, cursor_at rest (t + length bytes))

pub ReadsAt-of_Reads :
    {A : Type 0} {p : Reader A} {bytes : List ℕ} {a : A}
    → Reads p bytes a
    → (t : ℕ) (rest : List ℕ) → ReadsAt p t bytes rest a
ReadsAt-of_Reads h t rest = record { run = h.run rest t }

pub placed_step :
    {A B : Type 0} (p : Reader A) (f : A → Reader B) (c d : ByteCursor) (a : A)
    {r : Result (B × ByteCursor)}
    → p c ≡ ok (a, d)
    → f a d ≡ r
    → (p >>= f) c ≡ r
unfolding ◌>>=◌
placed_step p f c d a e h = rw e h

module _ {A B : Type 0} (p : Reader A) (f : A → Reader B) where
  pub ReadsAt-bind :
      {t : ℕ} {bs cs rest : List ℕ} {a : A} {b : B}
      → ReadsAt p t bs (cs ++ rest) a
      → ReadsAt (f a) (t + length bs) cs rest b
      → ReadsAt (p >>= f) t (bs ++ cs) rest b
  ReadsAt-bind {t} {bs} {cs} {rest} {a} {b} h k = record {
    run = rw (append_assoc bs cs rest) (
        placed_step p f (cursor_at (bs ++ (cs ++ rest)) t) (cursor_at (cs ++ rest) (t + length bs))
          a h.run
          (rw (length-append bs cs) (k.run ∙ ap (λ n. ok (b, cursor_at rest n)) (omega arith))));
  }

  -- A step that reads nothing.
  pub ReadsAt-then :
      {t : ℕ} {cs rest : List ℕ} {a : A} {b : B}
      → ReadsAt p t [] (cs ++ rest) a
      → ReadsAt (f a) t cs rest b
      → ReadsAt (p >>= f) t cs rest b
  ReadsAt-then {t} {cs} {rest} {a} {b} h k = record {
    run =
        placed_step p f (cursor_at (cs ++ rest) t) (cursor_at (cs ++ rest) t) a
          (h.run ∙ ap (λ n. ok (a, cursor_at (cs ++ rest) n)) (omega arith)) k.run;
  }

  -- The last step only shapes the value.
  pub ReadsAt-last :
      {t : ℕ} {bs rest : List ℕ} {a : A} {b : B}
      → ReadsAt p t bs rest a
      → ReadsAt (f a) (t + length bs) [] rest b
      → ReadsAt (p >>= f) t bs rest b
  ReadsAt-last {t} {bs} {rest} {a} {b} h k =
      subst (λ xs. ReadsAt (p >>= f) t xs rest b) (append-nil bs) (ReadsAt-bind h k)
