-- ===== src/ConstantPool/Pool/Interning.antt =====
-- src/visitors/class_file.c, `classFile_intern_*`: what the interned indices resolve to.
use jni2hook.Base.{
  ℕ, ◌≤◌, ◌≡◌, refl, ap, Bool, false, Bool-cases, inl, inr, List, Option, none, some, ltb, length,
  drop, arith, ok, bind-eq-ok, ◌∙◌,
}
use jni2hook.ConstantPool.Entry.{CpInfo}
use jni2hook.ConstantPool.Codec.{ConstantPool}
use jni2hook.ConstantPool.Pool.{
  max_count, utf8_of, constant_pool_at, constant_pool_utf8, find_entry, is_utf8, is_class,
  is_name_and_type, is_methodref, intern, appended, constant_pool_append, found_or_append, copied,
  cp_info_set_utf8, classfile_intern_utf8, classfile_intern_class, classfile_intern_name_and_type,
  classfile_intern_methodref,
}
use jni2hook.ConstantPool.Pool.Intern.{
  Keeps, Interned, appended_inv, and_intern_inv, Interned-intern, intern_again, utf8-Singles,
  class-Singles, name_and_type-Singles, methodref-Singles,
}

module _ (grants : ℕ → Bool) where
  copied_inv :
      (pool : ConstantPool) (text : List ℕ) (found : Option ℕ) {i : ℕ} {pool' : ConstantPool}
      → copied grants pool text found ≡ (ok i, pool')
      → found_or_append grants pool (CpInfo.utf8 text) found ≡ (ok i, pool')
  unfolding cp_info_set_utf8
  copied_inv pool text (some i) h = h
  copied_inv pool text none h =
      let (entry, made, added) =
        bind-eq-ok (cp_info_set_utf8 grants text) (λ entry. constant_pool_append grants pool entry)
          (appended_inv grants pool _ h) in
      let same : CpInfo.utf8 text ≡ entry = ground arith in
      ap (appended pool) (ap (constant_pool_append grants pool) same ∙ added)

  -- On success, interning a text is interning the entry that holds it.
  intern_utf8_inv :
      (pool : ConstantPool) (text : List ℕ) {i : ℕ} {pool' : ConstantPool}
      → classfile_intern_utf8 grants pool text ≡ (ok i, pool')
      → (intern grants (is_utf8 text) (CpInfo.utf8 text) pool ≡ (ok i, pool'))
        × (length text ≤ max_count)
  unfolding classfile_intern_utf8 intern
  intern_utf8_inv pool text h = elim (Bool-cases (ltb max_count (length text))) [
    | inl long ↦ ground arith
    | inr short ↦ (
      copied_inv pool text (find_entry (is_utf8 text) 1 (drop 1 pool.entries)) (rw short at h),
      ground arith,
    )
  ]

  Interned-intern_utf8 :
      (pool : ConstantPool) (text : List ℕ) (pool' : ConstantPool) (i : ℕ)
      → classfile_intern_utf8 grants pool text ≡ (ok i, pool')
      → Interned (is_utf8 text) (CpInfo.utf8 text) pool pool' i
  Interned-intern_utf8 pool text pool' i h =
      Interned-intern grants pool (is_utf8 text) (CpInfo.utf8 text) (utf8-Singles text) pool' i
        (intern_utf8_inv pool text h).0

  -- A text that is found is interned without asking for memory.
  utf8_again :
      (pool : ConstantPool) (text : List ℕ) (i : ℕ)
      → length text ≤ max_count
      → find_entry (is_utf8 text) 1 (drop 1 pool.entries) ≡ some i
      → classfile_intern_utf8 grants pool text ≡ (ok i, pool)
  unfolding classfile_intern_utf8
  utf8_again pool text i short h =
      let low : ltb max_count (length text) ≡ false = ground arith in rw (low, h) refl

  text_at :
      (pool : ConstantPool) (i : ℕ) (text : List ℕ)
      → constant_pool_at pool i ≡ some (CpInfo.utf8 text)
      → constant_pool_utf8 pool i ≡ some text
  unfolding constant_pool_utf8
  text_at pool i text h = ap utf8_of h

  -- When a text is interned, the index names exactly that text, and interning the text again gives
  -- the same index and leaves the pool as it is.
  pub intern_utf8-text :
      (pool : ConstantPool) (text : List ℕ) (pool' : ConstantPool) (i : ℕ)
      → classfile_intern_utf8 grants pool text ≡ (ok i, pool')
      → (constant_pool_utf8 pool' i ≡ some text)
        × (classfile_intern_utf8 grants pool' text ≡ (ok i, pool'))
  intern_utf8-text pool text pool' i h =
      let (at, keeps, found) = Interned-intern_utf8 pool text pool' i h in
      (text_at pool' i text at, utf8_again pool' text i (intern_utf8_inv pool text h).1 found)

  -- When a class name is interned, the index holds a class entry whose name index names exactly
  -- that text, and interning the name again changes nothing.
  pub intern_class-text :
      (pool : ConstantPool) (name : List ℕ) (pool' : ConstantPool) (i : ℕ)
      → classfile_intern_class grants pool name ≡ (ok i, pool')
      → (n : ℕ) × (constant_pool_at pool' i ≡ some (CpInfo.class_info n))
        × (constant_pool_utf8 pool' n ≡ some name)
        × (classfile_intern_class grants pool' name ≡ (ok i, pool'))
  unfolding classfile_intern_class
  intern_class-text pool name pool' i h =
      let (n, pool₁, first, second) = and_intern_inv grants _ _ h in
      let (at₁, keeps₁, found₁) = Interned-intern_utf8 pool name pool₁ n first in
      let short = (intern_utf8_inv pool name first).1 in
      let (at₂, keeps₂, found₂) =
        Interned-intern grants pool₁ (is_class n) (CpInfo.class_info n) (class-Singles n) pool' i
          second in
      let again = utf8_again pool' name n short (keeps₂.1 (is_utf8 name) n found₁) in
      (
        n,
        at₂,
        text_at pool' n name (keeps₂.0 n (CpInfo.utf8 name) at₁),
        rw again (intern_again grants (is_class n) (CpInfo.class_info n) pool' i found₂),
      )

  -- What interning a name and a descriptor has done.
  abbrev NatInterned : List ℕ → List ℕ → ConstantPool → ConstantPool → ℕ → Type 0
  NatInterned name descriptor pool pool' i =
      (n : ℕ) × (d : ℕ) × (constant_pool_at pool' i ≡ some (CpInfo.name_and_type n d))
      × (constant_pool_at pool' n ≡ some (CpInfo.utf8 name))
      × (constant_pool_at pool' d ≡ some (CpInfo.utf8 descriptor))
      × Keeps pool pool'
      × (find_entry (is_utf8 name) 1 (drop 1 pool'.entries) ≡ some n)
      × (find_entry (is_utf8 descriptor) 1 (drop 1 pool'.entries) ≡ some d)
      × (find_entry (is_name_and_type n d) 1 (drop 1 pool'.entries) ≡ some i)
      × (length name ≤ max_count)
      × (length descriptor ≤ max_count)

  NatInterned-intern :
      (pool : ConstantPool) (name descriptor : List ℕ) (pool' : ConstantPool) (i : ℕ)
      → classfile_intern_name_and_type grants pool name descriptor ≡ (ok i, pool')
      → NatInterned name descriptor pool pool' i
  unfolding classfile_intern_name_and_type
  NatInterned-intern pool name descriptor pool' i h =
      let (n, pool₁, first, rest) = and_intern_inv grants _ _ h in
      let (d, pool₂, second, third) = and_intern_inv grants _ _ rest in
      let (at₁, keeps₁, found₁) = Interned-intern_utf8 pool name pool₁ n first in
      let (at₂, keeps₂, found₂) = Interned-intern_utf8 pool₁ descriptor pool₂ d second in
      let (at₃, keeps₃, found₃) =
        Interned-intern grants pool₂ (is_name_and_type n d) (CpInfo.name_and_type n d)
          (name_and_type-Singles n d) pool' i third in
      (
        n,
        d,
        at₃,
        keeps₃.0 n (CpInfo.utf8 name) (keeps₂.0 n (CpInfo.utf8 name) at₁),
        keeps₃.0 d (CpInfo.utf8 descriptor) at₂,
        (
          (λ j e at. keeps₃.0 j e (keeps₂.0 j e (keeps₁.0 j e at))),
          (λ t k at. keeps₃.1 t k (keeps₂.1 t k (keeps₁.1 t k at))),
        ),
        keeps₃.1 (is_utf8 name) n (keeps₂.1 (is_utf8 name) n found₁),
        keeps₃.1 (is_utf8 descriptor) d found₂,
        found₃,
        (intern_utf8_inv pool name first).1,
        (intern_utf8_inv pool₁ descriptor second).1,
      )

  nat_again :
      (pool : ConstantPool) (name descriptor : List ℕ) (n d i : ℕ)
      → length name ≤ max_count
      → length descriptor ≤ max_count
      → find_entry (is_utf8 name) 1 (drop 1 pool.entries) ≡ some n
      → find_entry (is_utf8 descriptor) 1 (drop 1 pool.entries) ≡ some d
      → find_entry (is_name_and_type n d) 1 (drop 1 pool.entries) ≡ some i
      → classfile_intern_name_and_type grants pool name descriptor ≡ (ok i, pool)
  unfolding classfile_intern_name_and_type
  nat_again pool name descriptor n d i short short' first second third =
      rw (utf8_again pool name n short first) (
        rw (utf8_again pool descriptor d short' second)
          (intern_again grants (is_name_and_type n d) (CpInfo.name_and_type n d) pool i third))

  -- When a method reference is interned, the index holds a Methodref of the given class whose name
  -- and type entry names exactly the given name and descriptor, and interning it again changes
  -- nothing.
  pub intern_methodref-text :
      (pool : ConstantPool) (class : ℕ) (name descriptor : List ℕ) (pool' : ConstantPool) (i : ℕ)
      → classfile_intern_methodref grants pool class name descriptor ≡ (ok i, pool')
      → (nat : ℕ) × (n : ℕ) × (d : ℕ) × (constant_pool_at pool' i
          ≡ some (CpInfo.methodref class nat))
        × (constant_pool_at pool' nat ≡ some (CpInfo.name_and_type n d))
        × (constant_pool_utf8 pool' n ≡ some name)
        × (constant_pool_utf8 pool' d ≡ some descriptor)
        × (classfile_intern_methodref grants pool' class name descriptor ≡ (ok i, pool'))
  unfolding classfile_intern_methodref
  intern_methodref-text pool class name descriptor pool' i h =
      let (nat, pool₁, first, second) = and_intern_inv grants _ _ h in
      let (n, d, at, name_at, descriptor_at, keeps, found₁, found₂, found₃, short₁, short₂) =
        NatInterned-intern pool name descriptor pool₁ nat first in
      let (at', keeps', found) =
        Interned-intern grants pool₁ (is_methodref class nat) (CpInfo.methodref class nat)
          (methodref-Singles class nat) pool' i second in
      (
        nat,
        n,
        d,
        at',
        keeps'.0 nat (CpInfo.name_and_type n d) at,
        text_at pool' n name (keeps'.0 n (CpInfo.utf8 name) name_at),
        text_at pool' d descriptor (keeps'.0 d (CpInfo.utf8 descriptor) descriptor_at),
        rw
            (nat_again pool' name descriptor n d nat short₁ short₂
              (keeps'.1 (is_utf8 name) n found₁) (keeps'.1 (is_utf8 descriptor) d found₂)
              (keeps'.1 (is_name_and_type n d) nat found₃))
            (intern_again grants (is_methodref class nat) (CpInfo.methodref class nat) pool' i
              found),
      )
