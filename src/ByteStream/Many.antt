-- ===== src/ByteStream/Many.antt =====
-- src/byte_stream.c in a loop: reading and writing a table of entries.
use jni2hook.Base.{
  ℕ, zero, suc, ◌≡◌, refl, List, [], ◌∷◌, ◌++◌, length, All, append-nil, arith, Bool,
}
use jni2hook.ByteStream.Cursor.{Reader, read_many}
use jni2hook.ByteStream.Buffer.{Writer, write_many}
use jni2hook.ByteStream.Reads.{Reads, Reads-bind, Reads-last, Reads-pure}
use jni2hook.ByteStream.Sound.{Sound, Sound-bind, Sound-pure}
use jni2hook.ByteStream.Writes.{Writes, Writes-skip, Writes-then}

-- The bytes of all entries, one after the other.
abbrev pub many_bytes : {A : Type 0} → (A → List ℕ) → List A → List ℕ
many_bytes layout [] = []
many_bytes layout (a ∷ others) = layout a ++ many_bytes layout others

module _ {A : Type 0} (layout : A → List ℕ) (IsFit : A → Type 0) where
  pub Reads-many :
      (body : Reader A)
      → ((a : A) → IsFit a → Reads body (layout a) a)
      → (items : List A) → All IsFit items
      → Reads (read_many (length items) body) (many_bytes layout items) items
  unfolding read_many
  Reads-many body h [] fit = Reads-pure []
  Reads-many body h (a ∷ others) fit =
      Reads-bind _ _ (h a fit.0) (Reads-last _ _ (Reads-many body h others fit.1) (Reads-pure _))

  pub Sound-many :
      (body : Reader A)
      → Sound body (λ a bytes. IsFit a × (layout a ≡ bytes))
      → (count : ℕ)
      → Sound (read_many count body) (λ items bytes.
        (length items ≡ count) × All IsFit items × (many_bytes layout items ≡ bytes))
  unfolding read_many
  Sound-many body h zero = Sound-pure [] (refl, tt, refl)
  Sound-many body h (suc count) = Sound-bind _ _ h λ a bs.
      Sound-bind _ _ (Sound-many body h count) λ items cs.
        Sound-pure (a ∷ items) λ (counted, fits, same') (fit, same).
          (omega (arith, counted), (fit, fits), simp (same', same, append-nil))

pub Writes-many :
    {A : Type 0} (grants : ℕ → Bool) (layout : A → List ℕ) (body : A → Writer)
    → ((a : A) → Writes grants (body a) (layout a))
    → (items : List A) → Writes grants (write_many body items) (many_bytes layout items)
unfolding write_many
Writes-many grants layout body h [] = Writes-skip grants
Writes-many grants layout body h (a ∷ others) =
    Writes-then grants _ _ (h a) (Writes-many grants layout body h others)
