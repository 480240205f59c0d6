-- ===== src/PatternScan/Denoted.antt =====
-- src/hook/bytecode_scan.c, `bytecode_pattern_compile`: what a text that it accepts is.
use jni2hook.Base.{
  ℕ, ◌≤◌, ◌≡◌, refl, ap, subst, ◌∙◌, Bool, Bool-cases, true, false, ◌&&◌, ◌⊎◌, inl, inr, List, [],
  ◌∷◌, ◌++◌, append_assoc, Option, none, some, length, ◌==◌, arith, if◌then◌else◌,
}
use jni2hook.PatternScan.Pattern.{
  PatternCell, Compiled, isspace, hex_value, words, both_digits, cell_of, cons_cell, cells_of,
  compiled_or_invalid, bytecode_pattern_compile,
}
use jni2hook.PatternScan.Compile.{IsDigit, IsWildcard, IsWord, IsWords, Denotes, denoted_cells}

hex_inv : (digit value : ℕ) → hex_value digit ≡ some value → IsDigit value digit
unfolding hex_value
hex_inv digit value h = ground arith

digits_inv :
    (a b : ℕ) (high low : Option ℕ) (c : PatternCell)
    → hex_value a ≡ high
    → hex_value b ≡ low
    → both_digits high low ≡ some c
    → IsWord c (a ∷ b ∷ [])
digits_inv a b none low c h k e = absurd (cc)
digits_inv a b (some high) none c h k e = absurd (cc)
digits_inv a b (some high) (some low) c h k e =
    inr (high, low, hex_inv a high h, hex_inv b low k, ground arith, ground arith)

IsWildcard-inv : (c : PatternCell) → some (record { byte = 0; mask = 0 }) ≡ some c → IsWildcard c
IsWildcard-inv c e = ground arith

cell_inv : (word : List ℕ) (c : PatternCell) → cell_of word ≡ some c → IsWord c word
unfolding cell_of
cell_inv [] c e = absurd (cc)
cell_inv (a ∷ []) c e = elim (Bool-cases (a == 63)) [
  | inl mark ↦ (ground arith, IsWildcard-inv c (rw mark at e))
  | inr other ↦ absurd (let no = rw other at e in cc)
]
cell_inv (a ∷ b ∷ []) c e = elim (Bool-cases (a == 63 && b == 63)) [
  | inl marks ↦ inl (ground arith, ground arith, IsWildcard-inv c (rw marks at e))
  | inr other ↦ digits_inv a b (hex_value a) (hex_value b) c refl refl (rw other at e)
]
cell_inv (a ∷ b ∷ d ∷ word) c e = absurd (cc)

-- The first cell and the others.
cons_inv :
    (one : Option PatternCell) (others : Option (List PatternCell)) (cells : List PatternCell)
    → cons_cell one others ≡ some cells
    → (c : PatternCell) × (later : List PatternCell) × (one ≡ some c)
      × (others ≡ some later)
      × (c ∷ later ≡ cells)
cons_inv none others cells e = absurd (cc)
cons_inv (some c) none cells e = absurd (cc)
cons_inv (some c) (some later) cells e = (c, later, refl, refl, ground arith)

-- A text from which the loop makes the cells, with no word begun and with one begun.
abbrev Scanned : List ℕ → Type 0
Scanned text =
    ((cells : List PatternCell) → cells_of (words [] text) ≡ some cells → Denotes text cells)
    × ((w : ℕ) (word : List ℕ) (cells : List PatternCell)
        → cells_of (words (w ∷ word) text) ≡ some cells
        → IsWords cells ((w ∷ word) ++ text))

Scanned-end : Scanned []
unfolding words cells_of
Scanned-end = (
  (λ cells e.
      let none_left : [] ≡ cells = ground arith in
      subst (λ cs. Denotes [] cs) none_left ([], [], refl, tt, refl)),
  (λ w word cells e.
      let (c, later, made, rest, shape) = cons_inv (cell_of (w ∷ word)) (some []) cells e in
      let none_left : [] ≡ later = ground arith in
      subst (λ cs. IsWords cs ((w ∷ word) ++ [])) (ap (λ l. c ∷ l) none_left ∙ shape)
        (w ∷ word, [], [], refl, cell_inv (w ∷ word) c made, tt, refl, inl refl)),
)

Scanned-space : (s : ℕ) (text : List ℕ) → isspace s ≡ true → Scanned text → Scanned (s ∷ text)
unfolding words cells_of
Scanned-space s text space (fresh, begun) =
    let is_space : (s ≡ 32) ⊎ (9 ≤ s) × (s ≤ 13) = ground arith in
    (
      (λ cells e.
          let (lead, rest, shape, spaces, there) = fresh cells (rw space at e) in
          (s ∷ lead, rest, ap (λ xs. s ∷ xs) shape, (is_space, spaces), there)),
      (λ w word cells e.
          let (c, later, made, others, shape) =
            cons_inv (cell_of (w ∷ word)) (cells_of (words [] text)) cells (rw space at e) in
          let (lead, rest, split, spaces, there) = fresh later others in
          subst (λ cs. IsWords cs ((w ∷ word) ++ (s ∷ text))) shape
            (
              w ∷ word,
              s ∷ lead,
              rest,
              ap (λ xs. (w ∷ word) ++ (s ∷ xs)) split,
              cell_inv (w ∷ word) c made,
              (is_space, spaces),
              there,
              inr (omega arith),
            )),
    )

Scanned-other : (s : ℕ) (text : List ℕ) → isspace s ≡ false → Scanned text → Scanned (s ∷ text)
unfolding words
Scanned-other s text plain (fresh, begun) = (
  (λ cells e. ([], s ∷ text, refl, tt, begun s [] cells (rw plain at e))),
  (λ w word cells e.
      subst (λ xs. IsWords cells (w ∷ xs)) (append_assoc word (s ∷ []) text)
        (begun w (word ++ (s ∷ [])) cells (rw plain at e))),
)

Scanned-text : (text : List ℕ) → Scanned text
Scanned-text [] = Scanned-end
Scanned-text (s ∷ text) = elim (Bool-cases (isspace s)) [
  | inl space ↦ Scanned-space s text space (Scanned-text text)
  | inr plain ↦ Scanned-other s text plain (Scanned-text text)
]

compiled_inv :
    (found : Option (List PatternCell)) (cells : List PatternCell)
    → compiled_or_invalid found ≡ Compiled.compiled cells
    → found ≡ some cells
compiled_inv none cells e = absurd (cc)
compiled_inv (some found) cells e = ground arith

-- What the tests in front of the second loop let through.
tests_inv :
    (empty granted : Bool) (outcome : Compiled) (cells : List PatternCell)
    → (if empty
        then Compiled.invalid_pattern
        else (if granted then outcome else Compiled.out_of_memory))
      ≡ Compiled.compiled cells
    → (empty ≡ false) × (outcome ≡ Compiled.compiled cells)
tests_inv true granted outcome cells e = absurd (cc)
tests_inv false true outcome cells e = (refl, e)
tests_inv false false outcome cells e = absurd (cc)

-- A text that compiles, whatever the allocator does, denotes the cells that it gives: it is their
-- words, each `?`, `??` or two hexadecimal digits, with white space between them; and there is one.
pub pattern_compile-Denotes :
    (grants : ℕ → Bool) (text : List ℕ) (cells : List PatternCell)
    → bytecode_pattern_compile grants text ≡ Compiled.compiled cells
    → Denotes text cells × (1 ≤ length cells)
unfolding bytecode_pattern_compile
pattern_compile-Denotes grants text cells e =
    let found = words [] text in
    let (some_words, accepted) =
      tests_inv (length found == 0) (grants (length found)) (compiled_or_invalid (cells_of found))
        cells e in
    let denoted = (Scanned-text text).0 cells (compiled_inv (cells_of found) cells accepted) in
    let (same, counted) = denoted_cells text cells denoted in
    (denoted, ground (arith, counted, some_words))
