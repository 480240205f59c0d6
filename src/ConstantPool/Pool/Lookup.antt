-- ===== src/ConstantPool/Pool/Lookup.antt =====
-- src/visitors/cp_info.c and src/visitors/class_file.c: lists behind the pool's lookups and searches.
use jni2hook.Base.{
  ℕ, zero, suc, ◌+◌, ◌-◌, ◌*◌, ◌^◌, ◌≤◌, ◌<◌, ◌≡◌, refl, ap, Bool, true, Bool-cases, inl, inr, List,
  [], ◌∷◌, ◌++◌, none, some, length, get_elem?, arith, ◌==◌, if◌then◌else◌,
}
use jni2hook.ConstantPool.Entry.{CpInfo}
use jni2hook.ConstantPool.Pool.{same_bytes, find_entry, double_to, pool_capacity, max_count}
use native.Mathlib.Nat.{pow-suc}

module _ {ℓ} {A : Type ℓ} where
  pub get_elem?-append_left :
      (xs ys : List A) (i : ℕ) → i < length xs → get_elem? (xs ++ ys) i ≡ get_elem? xs i
  get_elem?-append_left [] ys i h = absurd (omega arith)
  get_elem?-append_left (x ∷ xs) ys zero h = refl
  get_elem?-append_left (x ∷ xs) ys (suc i) h = get_elem?-append_left xs ys i (omega arith)

  pub get_elem?-append_here :
      (xs : List A) (y : A) (ys : List A) → get_elem? (xs ++ (y ∷ ys)) (length xs) ≡ some y
  get_elem?-append_here [] y ys = refl
  get_elem?-append_here (x ∷ xs) y ys = get_elem?-append_here xs y ys

pub same_bytes→eq : (xs ys : List ℕ) → same_bytes xs ys ≡ true → xs ≡ ys
unfolding same_bytes
same_bytes→eq [] [] h = refl
same_bytes→eq [] (y ∷ ys) h = cc
same_bytes→eq (x ∷ xs) [] h = cc
same_bytes→eq (x ∷ xs) (y ∷ ys) h = ground (arith, same_bytes→eq xs ys)

pub same_bytes_self : (xs : List ℕ) → same_bytes xs xs ≡ true
unfolding same_bytes
same_bytes_self [] = refl
same_bytes_self (x ∷ xs) = ground (arith, same_bytes_self xs)

module _ (test : CpInfo → Bool) where
  -- What a search has found passes the test.
  pub find_entry_found :
      (i : ℕ) (entries : List CpInfo) (k : ℕ)
      → find_entry test i entries ≡ some k
      → (entry : CpInfo) × (get_elem? entries (k - i) ≡ some entry)
        × (test entry ≡ true)
        × (i ≤ k)
        × (k < i + length entries)
  unfolding find_entry
  find_entry_found i [] k h = cc
  find_entry_found i (e ∷ es) k h = elim (Bool-cases (test e)) [
    | inl good ↦
        let here : i ≡ k = ground arith in
        let start : k - i ≡ 0 = omega arith in (e, rw start refl, good, omega arith, omega arith)
    | inr bad ↦
        let (entry, at, good, low, high) = find_entry_found (i + 1) es k (ground arith) in
        let next : k - i ≡ suc (k - (i + 1)) = omega arith in
        (entry, rw next at, good, omega arith, omega arith)
  ]

  -- What a search finds stays found when entries are put behind.
  pub find_entry-append_found :
      (i : ℕ) (entries more : List CpInfo) (k : ℕ)
      → find_entry test i entries ≡ some k
      → find_entry test i (entries ++ more) ≡ some k
  unfolding find_entry
  find_entry-append_found i [] more k h = cc
  find_entry-append_found i (e ∷ es) more k h =
      ground (arith, find_entry-append_found (i + 1) es more k)

  -- A search that failed finds an entry that is put behind.
  pub find_entry-append :
      (i : ℕ) (entries : List CpInfo) (entry : CpInfo) (more : List CpInfo)
      → find_entry test i entries ≡ none
      → test entry ≡ true
      → find_entry test i (entries ++ (entry ∷ more)) ≡ some (i + length entries)
  unfolding find_entry
  find_entry-append i [] entry more h good = ground arith
  find_entry-append i (e ∷ es) entry more h good =
      ground (arith, find_entry-append (i + 1) es entry more)

two_pow : (f : ℕ) → 2 ^ suc f ≡ 2 * 2 ^ f
two_pow f = rw pow-suc (omega arith)

double_to_reaches :
    (fuel capacity needed : ℕ)
    → needed ≤ max_count
    → needed ≤ capacity * 2 ^ fuel
    → needed ≤ double_to fuel capacity needed
unfolding double_to
double_to_reaches zero capacity needed h k = omega arith
double_to_reaches (suc f) capacity needed h k = ground (
  arith,
  double_to_reaches f (capacity * 2) needed h
      (omega (arith, ap (λ (t : ℕ). capacity * t) (two_pow f))),
)

pub pool_capacity_reaches :
    (capacity needed : ℕ) → needed ≤ max_count → needed ≤ pool_capacity capacity needed
pool_capacity_reaches capacity needed h =
    double_to_reaches 17 (if capacity == 0 then 16 else capacity) needed h (ground arith)
