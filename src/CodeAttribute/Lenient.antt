-- ===== src/CodeAttribute/Lenient.antt =====
-- src/visitors/code_attribute.c: the two counts are read without a test of the cursor, so a payload
-- may end before them. What a table reads there.
use jni2hook.Base.{
  ℕ, zero, suc, ◌≡◌, ◌∙◌, subst, List, [], arith, Bool, true, false, ok, ◌⊎◌, inl, inr,
}
use jni2hook.ByteStream.Cursor.{
  ByteCursor, Reader, pure, byte_cursor_u2, reserve, read_many, copy_size,
}
use jni2hook.ByteStream.Sound.{bind-inv}
use jni2hook.ByteStream.Ends.{
  EndsFine, EndsFine-bind, EndsFine-then, KeepsFine-bind, KeepsFine-EndsFine, KeepsFine-pure,
  EndsFine-check, KeepsFine-allocate, KeepsFine-reserve, EndsFine-bytes, KeepsFine-many,
}
use jni2hook.ClassFile.RoundTrip.Consumed.{EndsFine-attribute}
use jni2hook.CodeAttribute.Codec.{
  read_exception, read_table, read_exceptions, read_nested, read_code_head,
}

count_cases :
    (c : ByteCursor) {count : ℕ} {d : ByteCursor}
    → byte_cursor_u2 c ≡ ok (count, d)
    → (d.fine ≡ true) ⊎ ((count ≡ 0) × (d.fine ≡ false) × (d.ahead ≡ c.ahead))
unfolding byte_cursor_u2
count_cases c e = ground arith

reserve_inv :
    (grants : ℕ → Bool) (count stride : ℕ) (c : ByteCursor) {u : Unit {0}} {d : ByteCursor}
    → reserve grants count stride c ≡ ok (u, d)
    → c ≡ d
unfolding reserve
reserve_inv grants count stride c e = ground arith

none_inv :
    {A : Type 0} (body : Reader A) (count : ℕ) (c : ByteCursor) {l : List A} {d : ByteCursor}
    → count ≡ 0
    → read_many count body c ≡ ok (l, d)
    → (l ≡ []) × (c ≡ d)
unfolding read_many pure
none_inv body zero c z e = ground arith
none_inv body (suc count) c z e = absurd (omega (arith, z))

-- A table either ends in order, or the input ended before its count: then it is empty, and the
-- cursor stands where it stood.
pub table_cases :
    {A : Type 0} (grants : ℕ → Bool) (stride : ℕ) (body : Reader A) (c : ByteCursor) {l : List A}
    {d : ByteCursor}
    → EndsFine body
    → read_table grants stride body c ≡ ok (l, d)
    → (d.fine ≡ true) ⊎ ((l ≡ []) × (d.fine ≡ false) × (d.ahead ≡ c.ahead))
unfolding read_table
table_cases grants stride body c ends e =
    let ((count, m), first, second) = bind-inv _ _ c e in
    elim (count_cases c first) [
      | inl good ↦ inl (
          (KeepsFine-bind _ _ (KeepsFine-reserve grants count stride)
              λ _. KeepsFine-many count body (KeepsFine-EndsFine ends)).run
            m good second)
      | inr (none, lost, stays) ↦
          let ((u, m'), third, fourth) = bind-inv _ _ m second in
          let same = reserve_inv grants count stride m third in
          let (empty, same') = none_inv body count m' none fourth in
          inr (
            empty,
            subst (λ x. x.fine ≡ false) (same ∙ same') lost,
            subst (λ x. x.ahead ≡ c.ahead) (same ∙ same') stays,
          )
    ]

EndsFine-exception : EndsFine read_exception
unfolding read_exception
EndsFine-exception = EndsFine-bind _ _ λ start. EndsFine-bind _ _ λ end.
    EndsFine-bind _ _ λ handler.
      EndsFine-bind _ _ λ catch. EndsFine-then _ _ (EndsFine-check _) λ _. KeepsFine-pure _

module _ (grants : ℕ → Bool) (c : ByteCursor) {d : ByteCursor} where
  pub exceptions_cases :
      {l : List _}
      → read_exceptions grants c ≡ ok (l, d)
      → (d.fine ≡ true) ⊎ ((l ≡ []) × (d.fine ≡ false) × (d.ahead ≡ c.ahead))
  unfolding read_exceptions
  exceptions_cases e = table_cases grants 8 read_exception c EndsFine-exception e

  pub nested_cases :
      {l : List _}
      → read_nested grants c ≡ ok (l, d)
      → (d.fine ≡ true) ⊎ ((l ≡ []) × (d.fine ≡ false) × (d.ahead ≡ c.ahead))
  unfolding read_nested
  nested_cases e = table_cases grants 16 _ c (EndsFine-attribute grants) e

pub EndsFine-head : (grants : ℕ → Bool) → EndsFine (read_code_head grants)
unfolding read_code_head
EndsFine-head grants = EndsFine-bind _ _ λ stack. EndsFine-bind _ _ λ locals. EndsFine-bind _ _ λ n.
    EndsFine-then _ _ (EndsFine-bytes n)
      λ code. KeepsFine-bind _ _ (KeepsFine-allocate grants (copy_size n)) λ _. KeepsFine-pure _
