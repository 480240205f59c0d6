-- ===== src/CodeAttribute/Reading.antt =====
-- src/visitors/code_attribute.c, `code_attribute_parse`: what it reads from the bytes of a node, and
-- from any bytes as long as no read fails.
use jni2hook.Base.{ℕ, ◌<◌, ◌^◌, ◌≡◌, List, append-nil, length, All, Bool, true}
use jni2hook.ByteStream.Cursor.{IsByte, Reader, copy_size}
use jni2hook.ByteStream.Reads.{
  Reads, Reads-bind, Reads-then, Reads-last, Reads-pure, Reads-check, Reads-u2, Reads-u4,
  Reads-bytes, Reads-allocate, Reads-reserve,
}
use jni2hook.ByteStream.Sound.{
  Sound, Sound-bind, Sound-weaken, Sound-pure, Sound-check, Sound-u2, Sound-u4, Sound-bytes,
  Sound-allocate, Sound-reserve,
}
use jni2hook.ByteStream.Many.{Reads-many, Sound-many}
use jni2hook.ConstantPool.Entry.{IsU2}
use jni2hook.ClassFile.RoundTrip.Layout.{attribute_bytes, IsAttribute}
use jni2hook.ClassFile.RoundTrip.Reading.{Reads-attribute}
use jni2hook.ClassFile.RoundTrip.Consumed.{Sound-read_attribute}
use jni2hook.CodeAttribute.Codec.{
  ExceptionEntry, CodeAttribute, read_exception, read_table, read_exceptions, read_nested,
  read_code_head, read_code,
}
use jni2hook.CodeAttribute.Layout.{
  exception_bytes, table_bytes, code_head_bytes, code_bytes, IsException, IsCode,
}

Reads-exception : (e : ExceptionEntry) → IsException e → Reads read_exception (exception_bytes e) e
unfolding read_exception
Reads-exception e (start, end, handler, catch) = Reads-bind _ _ (Reads-u2 _ start) (
    Reads-bind _ _ (Reads-u2 _ end) (
      Reads-bind _ _ (Reads-u2 _ handler)
        (Reads-last _ _ (Reads-u2 _ catch) (Reads-then _ _ (Reads-check _) (Reads-pure e)))))

Sound-read_exception : Sound read_exception (λ e bytes. IsException e × (exception_bytes e ≡ bytes))
unfolding read_exception
Sound-read_exception = Sound-bind _ _ Sound-u2 λ start bs. Sound-bind _ _ Sound-u2 λ end cs.
    Sound-bind _ _ Sound-u2 λ handler ds. Sound-bind _ _ Sound-u2 λ catch es.
      Sound-bind _ _ (Sound-check _) λ _ fs.
        Sound-pure _ λ none (fits₄, same₄) (fits₃, same₃) (fits₂, same₂) (fits₁, same₁).
          ((fits₁, fits₂, fits₃, fits₄), simp (none, same₄, same₃, same₂, same₁, append-nil))

module _ (grants : ℕ → Bool) {A : Type 0} (layout : A → List ℕ) (IsFit : A → Type 0)
    (body : Reader A) (stride : ℕ) where
  Reads-table :
      ((n : ℕ) → grants n ≡ true)
      → ((a : A) → IsFit a → Reads body (layout a) a)
      → (l : List A) → IsU2 (length l)
      → All IsFit l
      → Reads (read_table grants stride body) (table_bytes layout l) l
  unfolding read_table
  Reads-table plenty h l counted fit = Reads-bind _ _ (Reads-u2 _ counted) (
      Reads-then _ _ (Reads-reserve grants (length l) stride plenty)
        (Reads-many layout IsFit body h l fit))

  Sound-table :
      Sound body (λ a bytes. IsFit a × (layout a ≡ bytes))
      → Sound
          (read_table grants stride body)
          (λ l bytes. IsU2 (length l) × All IsFit l × (table_bytes layout l ≡ bytes))
  unfolding read_table
  Sound-table h = Sound-bind _ _ Sound-u2 λ count bs.
      Sound-bind _ _ (Sound-reserve grants count stride) λ _ cs.
        Sound-weaken (Sound-many layout IsFit body h count)
          λ l ds (counted, fit, same₂) none (fits, same₁).
            (rw counted fits, fit, simp (none, same₂, same₁, counted))

module _ (grants : ℕ → Bool) where
  pub Reads-head :
      ((n : ℕ) → grants n ≡ true)
      → (stack locals : ℕ) (code : List ℕ) → IsU2 stack
      → IsU2 locals
      → length code < 2 ^ 32
      → Reads (read_code_head grants) (code_head_bytes stack locals code) (stack, locals, code)
  unfolding read_code_head
  Reads-head plenty stack locals code fits₁ fits₂ sized = Reads-bind _ _ (Reads-u2 _ fits₁) (
      Reads-bind _ _ (Reads-u2 _ fits₂) (
        Reads-bind _ _ (Reads-u4 _ sized) (
          Reads-last _ _ (Reads-bytes code) (
            Reads-then _ _ (Reads-allocate grants (copy_size (length code)) plenty)
              (Reads-pure _)))))

  pub Sound-head : Sound (read_code_head grants) (λ h bytes.
      IsU2 h.0
      × IsU2 h.1
      × (length h.2 < 2 ^ 32)
      × All IsByte h.2
      × (code_head_bytes h.0 h.1 h.2 ≡ bytes))
  unfolding read_code_head
  Sound-head = Sound-bind _ _ Sound-u2 λ stack bs. Sound-bind _ _ Sound-u2 λ locals cs.
      Sound-bind _ _ Sound-u4 λ n ds. Sound-bind _ _ (Sound-bytes n) λ code es.
        Sound-bind _ _ (Sound-allocate grants (copy_size n)) λ _ fs.
          Sound-pure _ λ none (counted, same₄, valid) (sized, same₃) (fits₂, same₂) (fits₁, same₁).
            (
              fits₁,
              fits₂,
              rw counted sized,
              valid,
              simp (none, same₄, same₃, same₂, same₁, counted, append-nil),
            )

  pub Reads-exceptions :
      ((n : ℕ) → grants n ≡ true)
      → (l : List ExceptionEntry) → IsU2 (length l)
      → All IsException l
      → Reads (read_exceptions grants) (table_bytes exception_bytes l) l
  unfolding read_exceptions
  Reads-exceptions plenty l =
      Reads-table grants exception_bytes IsException read_exception 8 plenty Reads-exception l

  pub Reads-code :
      ((n : ℕ) → grants n ≡ true)
      → (c : CodeAttribute) → IsCode c
      → Reads (read_code grants) (code_bytes c) c
  unfolding read_code read_nested
  Reads-code plenty c h =
      Reads-bind _ _ (Reads-head plenty c.max_stack c.max_locals c.code h.stack h.locals h.sized) (
        Reads-bind _ _ (Reads-exceptions plenty c.exceptions h.exception_count h.exceptions) (
          Reads-last _ _
            (Reads-table grants attribute_bytes IsAttribute _ 16 plenty
              (Reads-attribute grants plenty) c.attributes h.attribute_count h.attributes)
            (Reads-pure c)))

  pub Sound-exceptions :
      Sound
        (read_exceptions grants)
        (λ l bytes. IsU2 (length l) × All IsException l × (table_bytes exception_bytes l ≡ bytes))
  unfolding read_exceptions
  Sound-exceptions =
      Sound-table grants exception_bytes IsException read_exception 8 Sound-read_exception

  pub Sound-nested :
      Sound
        (read_nested grants)
        (λ l bytes. IsU2 (length l) × All IsAttribute l × (table_bytes attribute_bytes l ≡ bytes))
  unfolding read_nested
  Sound-nested = Sound-table grants attribute_bytes IsAttribute _ 16 (Sound-read_attribute grants)
