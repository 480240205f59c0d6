-- ===== src/PatternScan/Find.antt =====
-- src/hook/bytecode_scan.c, `bytecode_pattern_find`: what it finds is the first place that fits.
use jni2hook.Base.{
  ℕ, zero, suc, ◌+◌, ◌-◌, ◌≤◌, ◌≡◌, refl, true, false, Bool-cases, ◌⊎◌, inl, inr, List, [], ◌∷◌,
  some, length, drop, ltb, arith,
}
use jni2hook.PatternScan.Pattern.{PatternCell, matches_at, find_from, bytecode_pattern_find}

-- The bytes start with bytes that each fit their cell: a wildcard, or the same byte.
abbrev pub Fits : List PatternCell → List ℕ → Type 0
Fits [] bytes = Unit {0}
Fits (c ∷ cells) [] = ⊥
Fits (c ∷ cells) (b ∷ bytes) = ((c.mask ≡ 0) ⊎ (b ≡ c.byte)) × Fits cells bytes

matches_at→Fits :
    (cells : List PatternCell) (bytes : List ℕ) → matches_at cells bytes ≡ true → Fits cells bytes
unfolding matches_at
matches_at→Fits [] bytes h = tt
matches_at→Fits (c ∷ cells) [] h = cc
matches_at→Fits (c ∷ cells) (b ∷ bytes) h = ground (arith, matches_at→Fits cells bytes)

Fits→matches_at :
    (cells : List PatternCell) (bytes : List ℕ) → Fits cells bytes → matches_at cells bytes ≡ true
unfolding matches_at
Fits→matches_at [] bytes h = refl
Fits→matches_at (c ∷ cells) [] h = absurd h
Fits→matches_at (c ∷ cells) (b ∷ bytes) h = ground (arith, Fits→matches_at cells bytes h.1)

Fits-length :
    (cells : List PatternCell) (bytes : List ℕ) → Fits cells bytes → length cells ≤ length bytes
Fits-length [] bytes h = omega arith
Fits-length (c ∷ cells) [] h = absurd h
Fits-length (c ∷ cells) (b ∷ bytes) h = omega (arith, Fits-length cells bytes h.1)

drop_nil : (n : ℕ) → drop {A = ℕ} n [] ≡ []
drop_nil zero = refl
drop_nil (suc n) = refl

length-drop_le : (n : ℕ) (xs : List ℕ) → length (drop n xs) ≤ length xs
length-drop_le zero xs = omega arith
length-drop_le (suc n) [] = omega arith
length-drop_le (suc n) (x ∷ xs) = omega (arith, length-drop_le n xs)

find_from_found :
    (cells : List PatternCell) (offset : ℕ) (bytes : List ℕ) (k : ℕ)
    → find_from cells offset bytes ≡ some k
    → (offset ≤ k) × Fits cells (drop (k - offset) bytes)
unfolding find_from
find_from_found cells offset [] k h = elim (Bool-cases (matches_at cells [])) [
  | inl good ↦
      let here : offset ≡ k = ground arith in
      (omega arith, rw (drop_nil (k - offset)) (matches_at→Fits cells [] good))
  | inr bad ↦ ground arith
]
find_from_found cells offset (b ∷ bytes) k h =
    elim (Bool-cases (ltb (length (b ∷ bytes)) (length cells))) [
      | inl short ↦ ground arith
      | inr enough ↦ elim (Bool-cases (matches_at cells (b ∷ bytes))) [
        | inl good ↦
            let here : offset ≡ k = ground arith in
            let start : k - offset ≡ 0 = omega arith in
            (omega arith, rw start (matches_at→Fits cells (b ∷ bytes) good))
        | inr bad ↦
            let (from, fit) = find_from_found cells (offset + 1) bytes k (rw (enough, bad) at h) in
            let next : k - offset ≡ suc (k - (offset + 1)) = omega arith in
            (omega arith, rw next fit)
      ]
    ]

find_from_first :
    (cells : List PatternCell) (offset : ℕ) (bytes : List ℕ) (j : ℕ)
    → Fits cells (drop j bytes)
    → (n : ℕ) × (find_from cells offset bytes ≡ some n) × (n ≤ offset + j)
unfolding find_from
find_from_first cells offset [] j fit =
    let good = Fits→matches_at cells [] (rw (drop_nil j) at fit) in
    (offset, rw good refl, omega arith)
find_from_first cells offset (b ∷ bytes) zero fit =
    let room = Fits-length cells (b ∷ bytes) fit in
    let enough : ltb (length (b ∷ bytes)) (length cells) ≡ false = ground arith in
    let good = Fits→matches_at cells (b ∷ bytes) fit in
    (offset, rw (enough, good) refl, omega arith)
find_from_first cells offset (b ∷ bytes) (suc j) fit =
    let room = Fits-length cells (drop j bytes) fit in
    let less = length-drop_le j bytes in
    let enough : ltb (length (b ∷ bytes)) (length cells) ≡ false = ground arith in
    let (n, found, low) = find_from_first cells (offset + 1) bytes j fit in
    elim (Bool-cases (matches_at cells (b ∷ bytes))) [
      | inl good ↦ (offset, rw (enough, good) refl, omega arith)
      | inr bad ↦ (n, rw (enough, bad) found, omega arith)
    ]

-- Where a pattern is found its bytes are: each fits its cell, and all of them lie in the code.
pub pattern_find-Fits :
    (cells : List PatternCell) (bytes : List ℕ) (k : ℕ)
    → bytecode_pattern_find cells bytes ≡ some k
    → Fits cells (drop k bytes) × (length cells ≤ length (drop k bytes))
unfolding bytecode_pattern_find
pattern_find-Fits cells bytes k h =
    let (from, fit) = find_from_found cells 0 bytes k (ground arith) in
    let same : k - 0 ≡ k = omega arith in
    let there : Fits cells (drop k bytes) = rw same at fit in
    (there, Fits-length cells (drop k bytes) there)

-- A pattern that fits somewhere is found, there or ahead of there.
pub pattern_find-first :
    (cells : List PatternCell) (bytes : List ℕ) (j : ℕ)
    → Fits cells (drop j bytes)
    → (n : ℕ) × (bytecode_pattern_find cells bytes ≡ some n) × (n ≤ j)
unfolding bytecode_pattern_find
pattern_find-first cells bytes j fit =
    let (n, found, low) = find_from_first cells 0 bytes j fit in
    let room = Fits-length cells (drop j bytes) fit in
    let less = length-drop_le j bytes in
    let enough : ltb (length bytes) (length cells) ≡ false = ground arith in
    (n, rw enough found, omega arith)
