-- ===== src/ConstantPool/Pool/Laws.antt =====
-- src/visitors/cp_info.c and src/visitors/class_file.c: an appended entry is found under its index,
-- and interning finds what is there, adds what is not, and moves nothing.
use jni2hook.Base.{
  ℕ, zero, suc, ◌+◌, ◌-◌, ◌≤◌, ◌<◌, ◌≡◌, refl, ap, ◌∙◌, Bool, Bool-cases, inl, inr, List, [], ◌∷◌,
  ◌++◌, some, ltb, ◌==◌, ◌||◌, length, length-append, get_elem?, drop, arith, ok, if◌then◌else◌,
  bind, bind-eq-ok,
}
use jni2hook.ConstantPool.Entry.{CpInfo, tag_of, cp_info_slots}
use jni2hook.ConstantPool.Codec.{ConstantPool}
use jni2hook.ConstantPool.Pool.{
  max_count, present, used_slots, with_slots, pool_capacity, constant_pool_at,
  constant_pool_reserve, constant_pool_append,
}
use jni2hook.ConstantPool.Pool.Lookup.{
  get_elem?-append_left, get_elem?-append_here, pool_capacity_reaches,
}

used_slots-length :
    (slots : List CpInfo)
    → (if ltb (length slots) 1 then 1 else length slots) ≡ length (used_slots slots)
used_slots-length [] = refl
used_slots-length (s ∷ slots) = ground arith

module _ (grants : ℕ → Bool) where
  reserve_inv :
      (pool : ConstantPool) (capacity : ℕ) {grown : ConstantPool}
      → constant_pool_reserve grants pool capacity ≡ ok grown
      → (grown.entries ≡ pool.entries) × (capacity ≤ grown.capacity)
  unfolding constant_pool_reserve
  reserve_inv pool capacity h = ground arith

  append_tail :
      (pool : ConstantPool) (entry : CpInfo) (first needed : ℕ) {pool' : ConstantPool} {i : ℕ}
      → needed ≤ max_count
      → bind {B = ConstantPool × ℕ}
          (constant_pool_reserve grants pool (pool_capacity pool.capacity needed))
          (λ g. ok (record g { entries = used_slots pool.entries ++ with_slots entry }, first))
        ≡ ok (pool', i)
      → (pool'.entries ≡ used_slots pool.entries ++ with_slots entry)
        × (i ≡ first)
        × (needed ≤ pool'.capacity)
  append_tail pool entry first needed low h =
      let (got, kept, rest) = bind-eq-ok _ _ h in
      let (same, wide) = reserve_inv pool (pool_capacity pool.capacity needed) kept in
      let reached = pool_capacity_reaches pool.capacity needed low in ground arith

  pub append_inv :
      (pool : ConstantPool) (entry : CpInfo) {pool' : ConstantPool} {i : ℕ}
      → constant_pool_append grants pool entry ≡ ok (pool', i)
      → (pool'.entries ≡ used_slots pool.entries ++ with_slots entry)
        × (i ≡ length (used_slots pool.entries))
        × (i + cp_info_slots (tag_of entry) ≤ max_count)
        × (i + cp_info_slots (tag_of entry) ≤ pool'.capacity)
  unfolding constant_pool_append
  append_inv pool entry {pool'} {i} h =
      let first = if ltb (length pool.entries) 1 then 1 else length pool.entries in
      let start = used_slots-length pool.entries in
      let needed = first + cp_info_slots (tag_of entry) in
      elim (Bool-cases (ltb max_count needed)) [
        | inl over ↦ ground arith
        | inr under ↦
            let low : needed ≤ max_count = ground arith in
            let rest =
              append_tail pool entry first needed {pool' = pool'} {i = i} low (rw under at h) in
            (rest.0, rest.1 ∙ start, ground arith, ground arith)
      ]

pub used_slots_same : (slots : List CpInfo) → 0 < length slots → used_slots slots ≡ slots
used_slots_same [] h = absurd (omega arith)
used_slots_same (s ∷ slots) h = refl

pub drop-used_slots : (slots : List CpInfo) → drop 1 (used_slots slots) ≡ drop 1 slots
drop-used_slots [] = refl
drop-used_slots (s ∷ slots) = refl

pub length-used_slots :
    (slots : List CpInfo) → length (used_slots slots) ≡ 1 + length (drop 1 slots)
length-used_slots [] = refl
length-used_slots (s ∷ slots) = omega arith

pub drop-append_one : (xs ys : List CpInfo) → 0 < length xs → drop 1 (xs ++ ys) ≡ drop 1 xs ++ ys
drop-append_one [] ys h = absurd (omega arith)
drop-append_one (x ∷ xs) ys h = refl

pub get_elem?-drop_one :
    (xs : List CpInfo) (k : ℕ) → 1 ≤ k → get_elem? xs k ≡ get_elem? (drop 1 xs) (k - 1)
get_elem?-drop_one [] zero h = refl
get_elem?-drop_one [] (suc k) h = refl
get_elem?-drop_one (x ∷ xs) zero h = absurd (omega arith)
get_elem?-drop_one (x ∷ xs) (suc k) h = let e : suc k - 1 ≡ k = omega arith in rw e refl

at_inv :
    (pool : ConstantPool) (j : ℕ) {e : CpInfo}
    → constant_pool_at pool j ≡ some e
    → (1 ≤ j) × (j < length pool.entries) × (present (get_elem? pool.entries j) ≡ some e)
unfolding constant_pool_at
at_inv pool j h = ground arith

pub at_intro :
    (pool : ConstantPool) (j : ℕ)
    → 1 ≤ j
    → j < length pool.entries
    → constant_pool_at pool j ≡ present (get_elem? pool.entries j)
unfolding constant_pool_at
at_intro pool j h k = ground arith

pub with_slots_head : (entry : CpInfo) → (more : List CpInfo) × (with_slots entry ≡ entry ∷ more)
with_slots_head entry = elim (Bool-cases (cp_info_slots (tag_of entry) == 2)) [
  | inl two ↦ (CpInfo.empty ∷ [], rw two refl)
  | inr one ↦ ([], rw one refl)
]

length-with_slots :
    (entry : CpInfo)
    → (length (with_slots entry) ≡ cp_info_slots (tag_of entry))
      × (1 ≤ cp_info_slots (tag_of entry))
unfolding cp_info_slots
length-with_slots entry = elim (Bool-cases (tag_of entry == 5 || tag_of entry == 6)) [
  | inl two ↦ rw two (refl, omega arith)
  | inr one ↦ rw one (refl, omega arith)
]

module _ (grants : ℕ → Bool) where
  -- Appending an entry gives it an index from 1 to the largest u2, under which the pool then holds
  -- it; both slots of a Long or a Double lie within the count limit and within the allocated array.
  pub append-at :
      (pool : ConstantPool) (entry : CpInfo) (pool' : ConstantPool) (i : ℕ)
      → constant_pool_append grants pool entry ≡ ok (pool', i)
      → (constant_pool_at pool' i ≡ present (some entry))
        × (1 ≤ i)
        × (i + cp_info_slots (tag_of entry) ≤ max_count)
        × (length pool'.entries ≡ i + cp_info_slots (tag_of entry))
        × (length pool'.entries ≤ pool'.capacity)
  append-at pool entry pool' i h =
      let (all, start, low, wide) = append_inv grants pool entry {pool' = pool'} {i = i} h in
      let (more, head) = with_slots_head entry in
      let used = length-used_slots pool.entries in
      let slots = (length-with_slots entry).1 in
      let count : length pool'.entries ≡ i + cp_info_slots (tag_of entry) =
        rw (all, start)
          (length-append (used_slots pool.entries) (with_slots entry)
            ∙ ap (λ n. length (used_slots pool.entries) + n) (length-with_slots entry).0) in
      let found : get_elem? pool'.entries i ≡ some entry =
        rw (all, start, head) (get_elem?-append_here (used_slots pool.entries) entry more) in
      (
        at_intro pool' i (omega arith) (omega arith) ∙ ap present found,
        omega arith,
        low,
        count,
        omega arith,
      )

  -- Appending moves nothing: an index that held an entry still holds it.
  pub append-at_keeps :
      (pool : ConstantPool) (entry : CpInfo) (pool' : ConstantPool) (i j : ℕ) (e : CpInfo)
      → constant_pool_append grants pool entry ≡ ok (pool', i)
      → constant_pool_at pool j ≡ some e
      → constant_pool_at pool' j ≡ some e
  append-at_keeps pool entry pool' i j e h at =
      let (all, start, low, wide) = append_inv grants pool entry {pool' = pool'} {i = i} h in
      let (from, below, there) = at_inv pool j at in
      let same = used_slots_same pool.entries (omega arith) in
      let grows : length pool'.entries ≡ length pool.entries + length (with_slots entry) =
        rw (all, same) (length-append pool.entries (with_slots entry)) in
      let kept : get_elem? pool'.entries j ≡ get_elem? pool.entries j =
        rw (all, same) (get_elem?-append_left pool.entries (with_slots entry) j below) in
      at_intro pool' j from (omega arith) ∙ ap present kept ∙ there
