-- ===== src/ConstantPool/Pool/Intern.antt =====
-- src/visitors/class_file.c, `classFile_intern_*`: interning finds what is there, adds what is not,
-- and moves nothing.
use jni2hook.Base.{
  ℕ, ◌-◌, ◌≡◌, refl, sym, subst, ap, ◌∙◌, Bool, true, ◌⊎◌, inl, inr, List, [], ◌∷◌, ◌++◌, Option,
  none, some, length, drop, arith, Result, ok, err, eq_of_test, test_self,
}
use jni2hook.ConstantPool.Entry.{CpInfo}
use jni2hook.ConstantPool.Codec.{ConstantPool}
use jni2hook.ConstantPool.Pool.{
  present, used_slots, with_slots, constant_pool_at, constant_pool_append, find_entry, is_utf8,
  is_class, is_name_and_type, is_methodref, intern, and_intern, appended,
}
use jni2hook.ConstantPool.Pool.Lookup.{
  same_bytes→eq, same_bytes_self, find_entry_found, find_entry-append, find_entry-append_found,
}
use jni2hook.ConstantPool.Pool.Laws.{
  append_inv, append-at, append-at_keeps, at_intro, drop-used_slots, length-used_slots,
  drop-append_one, get_elem?-drop_one, with_slots_head,
}

-- A test that one entry alone passes.
abbrev pub Singles : (CpInfo → Bool) → CpInfo → Type 0
Singles test entry = (test entry ≡ true) × ((e : CpInfo) → test e ≡ true → e ≡ entry)

pub utf8-Singles : (text : List ℕ) → Singles (is_utf8 text) (CpInfo.utf8 text)
utf8-Singles text = (same_bytes_self text, only)
  where
    only : (e : CpInfo) → is_utf8 text e ≡ true → e ≡ CpInfo.utf8 text
    only (CpInfo.utf8 bytes) h = ap CpInfo.utf8 (same_bytes→eq bytes text h)
    only _ h = cc

pub class-Singles : (a : ℕ) → Singles (is_class a) (CpInfo.class_info a)
class-Singles a = (test_self a, only)
  where
    only : (e : CpInfo) → is_class a e ≡ true → e ≡ CpInfo.class_info a
    only (CpInfo.class_info name) h = ap CpInfo.class_info (eq_of_test name a h)
    only _ h = cc

pub name_and_type-Singles : (a b : ℕ) → Singles (is_name_and_type a b) (CpInfo.name_and_type a b)
name_and_type-Singles a b = (ground arith, only)
  where
    only : (e : CpInfo) → is_name_and_type a b e ≡ true → e ≡ CpInfo.name_and_type a b
    only (CpInfo.name_and_type x y) h = ground arith
    only _ h = cc

pub methodref-Singles : (a b : ℕ) → Singles (is_methodref a b) (CpInfo.methodref a b)
methodref-Singles a b = (ground arith, only)
  where
    only : (e : CpInfo) → is_methodref a b e ≡ true → e ≡ CpInfo.methodref a b
    only (CpInfo.methodref x y) h = ground arith
    only _ h = cc

length-drop_one : (xs : List CpInfo) → length (drop 1 xs) ≡ length xs - 1
length-drop_one [] = refl
length-drop_one (x ∷ xs) = omega arith

found_at :
    (pool : ConstantPool) (test : CpInfo → Bool) (entry : CpInfo)
    → Singles test entry
    → (i : ℕ) → find_entry test 1 (drop 1 pool.entries) ≡ some i
    → constant_pool_at pool i ≡ present (some entry)
found_at pool test entry (pass, only) i h =
    let (e, there, good, low, high) = find_entry_found test 1 (drop 1 pool.entries) i h in
    let is : e ≡ entry = only e good in
    let count = length-drop_one pool.entries in
    at_intro pool i low (omega arith)
    ∙ ap present (get_elem?-drop_one pool.entries i low ∙ there ∙ ap some is)

-- Every index that holds an entry keeps it, and every search that succeeds has the same result.
abbrev pub Keeps : ConstantPool → ConstantPool → Type 0
Keeps pool pool' =
    ((j : ℕ) (e : CpInfo) → constant_pool_at pool j ≡ some e → constant_pool_at pool' j ≡ some e)
    × ((test : CpInfo → Bool) (k : ℕ)
        → find_entry test 1 (drop 1 pool.entries) ≡ some k
        → find_entry test 1 (drop 1 pool'.entries) ≡ some k)

Option-cases : (o : Option ℕ) → (o ≡ none) ⊎ ((i : ℕ) × (o ≡ some i))
Option-cases none = inl refl
Option-cases (some i) = inr (i, refl)

-- What interning has done: the entry is under the index, and the search finds that index.
abbrev pub Interned : (CpInfo → Bool) → CpInfo → ConstantPool → ConstantPool → ℕ → Type 0
Interned test entry pool pool' i =
    (constant_pool_at pool' i ≡ present (some entry))
    × Keeps pool pool'
    × (find_entry test 1 (drop 1 pool'.entries) ≡ some i)

module _ (grants : ℕ → Bool) where
  appended_tail :
      (pool : ConstantPool) (entry : CpInfo) (pool' : ConstantPool) (i : ℕ)
      → constant_pool_append grants pool entry ≡ ok (pool', i)
      → drop 1 pool'.entries ≡ drop 1 pool.entries ++ with_slots entry
  appended_tail pool entry pool' i h =
      let (all, start, low, wide) = append_inv grants pool entry {pool' = pool'} {i = i} h in
      let used = length-used_slots pool.entries in
      ap (λ es. drop 1 es) all
      ∙ drop-append_one (used_slots pool.entries) (with_slots entry) (omega arith)
      ∙ ap (λ es. es ++ with_slots entry) (drop-used_slots pool.entries)

  pub Keeps-append :
      (pool : ConstantPool) (entry : CpInfo) (pool' : ConstantPool) (i : ℕ)
      → constant_pool_append grants pool entry ≡ ok (pool', i)
      → Keeps pool pool'
  Keeps-append pool entry pool' i h = (
    (λ j e at. append-at_keeps grants pool entry pool' i j e h at),
    (λ test k there.
        ap (λ es. find_entry test 1 es) (appended_tail pool entry pool' i h)
        ∙ find_entry-append_found test 1 (drop 1 pool.entries) (with_slots entry) k there),
  )

  appended_found :
      (pool : ConstantPool) (test : CpInfo → Bool) (entry : CpInfo) (pool' : ConstantPool) (i : ℕ)
      → test entry ≡ true
      → find_entry test 1 (drop 1 pool.entries) ≡ none
      → constant_pool_append grants pool entry ≡ ok (pool', i)
      → find_entry test 1 (drop 1 pool'.entries) ≡ some i
  appended_found pool test entry pool' i pass missing h =
      let (all, start, low, wide) = append_inv grants pool entry {pool' = pool'} {i = i} h in
      let (more, head) = with_slots_head entry in
      let used = length-used_slots pool.entries in
      let tail : drop 1 pool'.entries ≡ drop 1 pool.entries ++ (entry ∷ more) =
        appended_tail pool entry pool' i h ∙ ap (λ es. drop 1 pool.entries ++ es) head in
      ap (λ es. find_entry test 1 es) tail
      ∙ find_entry-append test 1 (drop 1 pool.entries) entry more missing pass
      ∙ ap some (sym used ∙ sym start)

  -- A success of an append, or of what leads to one.
  pub appended_inv :
      (pool : ConstantPool) (outcome : Result (ConstantPool × ℕ)) {pool' : ConstantPool} {i : ℕ}
      → appended pool outcome ≡ (ok i, pool')
      → outcome ≡ ok (pool', i)
  appended_inv pool (ok (p, j)) h = ground arith
  appended_inv pool (err e) h = ground arith

  pub Interned-intern :
      (pool : ConstantPool) (test : CpInfo → Bool) (entry : CpInfo)
      → Singles test entry
      → (pool' : ConstantPool) (i : ℕ) → intern grants test entry pool ≡ (ok i, pool')
      → Interned test entry pool pool' i
  unfolding intern
  Interned-intern pool test entry single pool' i h =
      elim (Option-cases (find_entry test 1 (drop 1 pool.entries))) [
        | inl missing ↦
            let added : constant_pool_append grants pool entry ≡ ok (pool', i) =
              appended_inv pool (constant_pool_append grants pool entry) (rw missing at h) in
            (
              (append-at grants pool entry pool' i added).0,
              Keeps-append pool entry pool' i added,
              appended_found pool test entry pool' i single.0 missing added,
            )
        | inr (k, there) ↦
            let same : ◌≡◌ {A = Result ℕ × ConstantPool} (ok k, pool) (ok i, pool') =
              rw there at h in
            let one : pool ≡ pool' = cc in
            let two : k ≡ i = cc in
            let here : find_entry test 1 (drop 1 pool.entries) ≡ some i = there ∙ ap some two in
            subst (λ p. Interned test entry pool p i) one
              (found_at pool test entry single i here, ((λ j e at. at), (λ t m found. found)), here)
      ]

  -- Interning again finds what was interned.
  pub intern_again :
      (test : CpInfo → Bool) (entry : CpInfo) (pool' : ConstantPool) (i : ℕ)
      → find_entry test 1 (drop 1 pool'.entries) ≡ some i
      → intern grants test entry pool' ≡ (ok i, pool')
  unfolding intern
  intern_again test entry pool' i h = rw h refl

  pub and_intern_inv :
      (outcome : Result ℕ × ConstantPool) (next : ℕ → ConstantPool → Result ℕ × ConstantPool)
      {i : ℕ} {pool' : ConstantPool}
      → and_intern outcome next ≡ (ok i, pool')
      → (j : ℕ) × (pool₁ : ConstantPool) × (outcome ≡ (ok j, pool₁))
        × (next j pool₁ ≡ (ok i, pool'))
  and_intern_inv (ok j, pool₁) next h = (j, pool₁, refl, h)
  and_intern_inv (err e, pool₁) next h = ground arith
