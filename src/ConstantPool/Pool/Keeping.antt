-- ===== src/ConstantPool/Pool/Keeping.antt =====
-- src/visitors/class_file.c, `classFile_intern_*`: what is in the pool stays there.
use jni2hook.Base.{
  ℕ, ◌≡◌, refl, Bool, inl, inr, List, Option, none, some, length, drop, Result, ok, err, Bool-cases,
  ltb, bind,
}
use jni2hook.ConstantPool.Entry.{CpInfo}
use jni2hook.ConstantPool.Codec.{ConstantPool}
use jni2hook.ConstantPool.Pool.{
  constant_pool_at, constant_pool_append, find_entry, is_utf8, is_name_and_type, is_methodref,
  intern, and_intern, appended, found_or_append, max_count, copied, cp_info_set_utf8,
  classfile_intern_utf8, classfile_intern_name_and_type, classfile_intern_methodref,
}
use jni2hook.ConstantPool.Pool.Intern.{Keeps, Keeps-append}

module _ (grants : ℕ → Bool) where
  Keeps-self : (pool : ConstantPool) → Keeps pool pool
  Keeps-self pool = ((λ j e at. at), (λ t k found. found))

  Keeps-twice :
      (pool pool₁ pool₂ : ConstantPool) → Keeps pool pool₁ → Keeps pool₁ pool₂ → Keeps pool pool₂
  Keeps-twice pool pool₁ pool₂ h k =
      ((λ j e at. k.0 j e (h.0 j e at)), (λ t m found. k.1 t m (h.1 t m found)))

  -- An append that succeeds or fails keeps what there was.
  Keeps-appended :
      (pool : ConstantPool) (entry : CpInfo) (outcome : Result (ConstantPool × ℕ))
      → constant_pool_append grants pool entry ≡ outcome
      → Keeps pool (appended pool outcome).1
  Keeps-appended pool entry (ok (pool', i)) h = Keeps-append grants pool entry pool' i h
  Keeps-appended pool entry (err e) h = Keeps-self pool

  found_or_append-Keeps :
      (pool : ConstantPool) (entry : CpInfo) (found : Option ℕ)
      → Keeps pool (found_or_append grants pool entry found).1
  found_or_append-Keeps pool entry none = Keeps-appended pool entry _ refl
  found_or_append-Keeps pool entry (some i) = Keeps-self pool

  Keeps-intern :
      (test : CpInfo → Bool) (entry : CpInfo) (pool : ConstantPool)
      → Keeps pool (intern grants test entry pool).1
  unfolding intern
  Keeps-intern test entry pool =
      found_or_append-Keeps pool entry (find_entry test 1 (drop 1 pool.entries))

  -- Two interning steps in a row.
  Keeps-and :
      (pool : ConstantPool) (outcome : Result ℕ × ConstantPool)
      (next : ℕ → ConstantPool → Result ℕ × ConstantPool)
      → Keeps pool outcome.1
      → ((i : ℕ) → Keeps outcome.1 (next i outcome.1).1)
      → Keeps pool (and_intern outcome next).1
  Keeps-and pool (ok i, pool₁) next h k = Keeps-twice pool pool₁ (next i pool₁).1 h (k i)
  Keeps-and pool (err e, pool₁) next h k = h

  copied-Keeps :
      (pool : ConstantPool) (text : List ℕ) (found : Option ℕ)
      → Keeps pool (copied grants pool text found).1
  copied-Keeps pool text none = made_or_not (cp_info_set_utf8 grants text)
    where
      made_or_not :
          (made : Result CpInfo)
          → Keeps pool
              (appended pool (bind made (λ entry. constant_pool_append grants pool entry))).1
      made_or_not (ok entry) = Keeps-appended pool entry _ refl
      made_or_not (err e) = Keeps-self pool
  copied-Keeps pool text (some i) = Keeps-self pool

  intern_utf8-Keeps :
      (pool : ConstantPool) (text : List ℕ) → Keeps pool (classfile_intern_utf8 grants pool text).1
  unfolding classfile_intern_utf8
  intern_utf8-Keeps pool text = elim (Bool-cases (ltb max_count (length text))) [
    | inl long ↦ rw long (Keeps-self pool)
    | inr short ↦
        rw short (copied-Keeps pool text (find_entry (is_utf8 text) 1 (drop 1 pool.entries)))
  ]

  intern_name_and_type-Keeps :
      (pool : ConstantPool) (name descriptor : List ℕ)
      → Keeps pool (classfile_intern_name_and_type grants pool name descriptor).1
  unfolding classfile_intern_name_and_type
  intern_name_and_type-Keeps pool name descriptor =
      Keeps-and pool (classfile_intern_utf8 grants pool name)
        (λ i pool₁.
          and_intern (classfile_intern_utf8 grants pool₁ descriptor)
            (λ j pool₂. intern grants (is_name_and_type i j) (CpInfo.name_and_type i j) pool₂))
        (intern_utf8-Keeps pool name)
        λ i.
          let pool₁ = (classfile_intern_utf8 grants pool name).1 in
          Keeps-and pool₁ (classfile_intern_utf8 grants pool₁ descriptor)
            (λ j pool₂. intern grants (is_name_and_type i j) (CpInfo.name_and_type i j) pool₂)
            (intern_utf8-Keeps pool₁ descriptor)
            λ j.
              Keeps-intern (is_name_and_type i j) (CpInfo.name_and_type i j)
                (classfile_intern_utf8 grants pool₁ descriptor).1

  intern_methodref-Keeps :
      (pool : ConstantPool) (class : ℕ) (name descriptor : List ℕ)
      → Keeps pool (classfile_intern_methodref grants pool class name descriptor).1
  unfolding classfile_intern_methodref
  intern_methodref-Keeps pool class name descriptor =
      Keeps-and pool (classfile_intern_name_and_type grants pool name descriptor)
        (λ j pool₁. intern grants (is_methodref class j) (CpInfo.methodref class j) pool₁)
        (intern_name_and_type-Keeps pool name descriptor)
        λ j.
          Keeps-intern (is_methodref class j) (CpInfo.methodref class j)
            (classfile_intern_name_and_type grants pool name descriptor).1

  -- Interning a method reference moves nothing, whether it succeeds or fails on the way: every index
  -- that held an entry still holds it in the pool as it is then.
  pub intern_methodref-at :
      (pool : ConstantPool) (class : ℕ) (name descriptor : List ℕ) (j : ℕ) (e : CpInfo)
      → constant_pool_at pool j ≡ some e
      → constant_pool_at (classfile_intern_methodref grants pool class name descriptor).1 j ≡ some e
  intern_methodref-at pool class name descriptor j e at =
      (intern_methodref-Keeps pool class name descriptor).0 j e at
