-- ===== src/PatternScan/Compile.antt =====
-- src/hook/bytecode_scan.c, `bytecode_pattern_compile`: the pattern that a text denotes.
use jni2hook.Base.{
  ℕ, ◌+◌, ◌*◌, ◌≤◌, ◌<◌, ◌≡◌, refl, sym, ap, subst, ◌∙◌, Bool, true, false, ◌⊎◌, inl, inr, List, [],
  ◌∷◌, ◌++◌, some, length, All, ◌==◌, arith,
}
use jni2hook.PatternScan.Pattern.{
  PatternCell, Compiled, isspace, hex_value, words, cell_of, cells_of, bytecode_pattern_compile,
}

-- A hexadecimal digit and its value: 0 to 9, a to f or A to F.
abbrev pub IsDigit : ℕ → ℕ → Type 0
IsDigit value digit =
    (value < 10) × (digit ≡ 48 + value)
    ⊎ (10 ≤ value) × (value < 16) × ((digit ≡ 87 + value) ⊎ (digit ≡ 55 + value))

abbrev pub IsWildcard : PatternCell → Type 0
IsWildcard c = (c.mask ≡ 0) × (c.byte ≡ 0)

-- A word of a pattern: `?` or `??` for any byte, or the two digits of a byte.
abbrev pub IsWord : PatternCell → List ℕ → Type 0
IsWord c (a ∷ []) = (a ≡ 63) × IsWildcard c
IsWord c (a ∷ b ∷ []) =
    ((a ≡ 63) × (b ≡ 63) × IsWildcard c)
    ⊎ (high : ℕ) × (low : ℕ) × IsDigit high a
      × IsDigit low b
      × (c.mask ≡ 0xFF)
      × (c.byte ≡ high * 16 + low)
IsWord c _ = ⊥

-- Spaces, tabs, line feeds, vertical tabs, form feeds and carriage returns.
abbrev pub IsSpaces : List ℕ → Type 0
IsSpaces gap = All (λ s. (s ≡ 32) ⊎ (9 ≤ s) × (s ≤ 13)) gap

-- A word for each cell, with white space between them, and perhaps behind the last.
abbrev pub IsWords : List PatternCell → List ℕ → Type 0
IsWords [] text = text ≡ []
IsWords (c ∷ cells) text =
    (word : List ℕ) × (gap : List ℕ) × (rest : List ℕ) × (text ≡ word ++ (gap ++ rest))
    × IsWord c word
    × IsSpaces gap
    × IsWords cells rest
    × ((cells ≡ []) ⊎ (1 ≤ length gap))

-- The text denotes the cells: their words, perhaps behind white space.
abbrev pub Denotes : List ℕ → List PatternCell → Type 0
Denotes text cells =
    (lead : List ℕ) × (rest : List ℕ) × (text ≡ lead ++ rest) × IsSpaces lead × IsWords cells rest

digit_hex : (value digit : ℕ) → IsDigit value digit → hex_value digit ≡ some value
unfolding hex_value
digit_hex value digit h = ground arith

digit_plain :
    (value digit : ℕ) → IsDigit value digit → (isspace digit ≡ false) × ((digit == 63) ≡ false)
digit_plain value digit h = (ground arith, ground arith)

words_spaces : (gap rest : List ℕ) → IsSpaces gap → words [] (gap ++ rest) ≡ words [] rest
unfolding words
words_spaces [] rest h = refl
words_spaces (s ∷ gap) rest h =
    let space : isspace s ≡ true = ground arith in rw space (words_spaces gap rest h.1)

-- A word that has been passed ends at white space, or at the end of the text.
word_ends :
    (w : ℕ) (word gap rest : List ℕ)
    → IsSpaces gap
    → (rest ≡ []) ⊎ (1 ≤ length gap)
    → words (w ∷ word) (gap ++ rest) ≡ (w ∷ word) ∷ words [] rest
unfolding words
word_ends w word [] rest h (inl end) = rw end refl
word_ends w word [] rest h (inr some_space) = absurd (omega arith)
word_ends w word (s ∷ gap) rest h last =
    let space : isspace s ≡ true = ground arith in
    rw space (ap (λ later. (w ∷ word) ∷ later) (words_spaces gap rest h.1))

one_passed : (a : ℕ) (text : List ℕ) → isspace a ≡ false → words [] (a ∷ text) ≡ words (a ∷ []) text
unfolding words
one_passed a text h = rw h refl

two_passed :
    (a b : ℕ) (text : List ℕ)
    → isspace a ≡ false
    → isspace b ≡ false
    → words [] (a ∷ b ∷ text) ≡ words (a ∷ b ∷ []) text
unfolding words
two_passed a b text h k = rw (h, k) refl

word_split :
    (c : PatternCell) (word gap rest : List ℕ)
    → IsWord c word
    → IsSpaces gap
    → (rest ≡ []) ⊎ (1 ≤ length gap)
    → words [] (word ++ (gap ++ rest)) ≡ word ∷ words [] rest
word_split c [] gap rest h spaces last = absurd h
word_split c (a ∷ []) gap rest h spaces last =
    let plain : isspace a ≡ false = ground arith in
    one_passed a (gap ++ rest) plain ∙ word_ends a [] gap rest spaces last
word_split c (a ∷ b ∷ []) gap rest (inl (one, two, wild)) spaces last =
    two_passed a b (gap ++ rest) (ground arith) (ground arith)
    ∙ word_ends a (b ∷ []) gap rest spaces last
word_split c (a ∷ b ∷ []) gap rest (inr (high, low, one, two, mask, byte)) spaces last =
    two_passed a b (gap ++ rest) (digit_plain high a one).0 (digit_plain low b two).0
    ∙ word_ends a (b ∷ []) gap rest spaces last
word_split c (a ∷ b ∷ d ∷ word) gap rest h spaces last = absurd h

cell_eq : (c d : PatternCell) → c.byte ≡ d.byte → c.mask ≡ d.mask → some c ≡ some d
cell_eq c d h k = λ i. some (record { byte = h i; mask = k i })

wildcard_cell : (c : PatternCell) → IsWildcard c → some (record { byte = 0; mask = 0 }) ≡ some c
wildcard_cell c (mask, byte) = cell_eq (record { byte = 0; mask = 0 }) c (sym byte) (sym mask)

word_cell : (c : PatternCell) (word : List ℕ) → IsWord c word → cell_of word ≡ some c
unfolding cell_of
word_cell c [] h = absurd h
word_cell c (a ∷ []) (one, wild) = rw one (wildcard_cell c wild)
word_cell c (a ∷ b ∷ []) (inl (one, two, wild)) = rw (one, two) (wildcard_cell c wild)
word_cell c (a ∷ b ∷ []) (inr (high, low, one, two, mask, byte)) =
    rw ((digit_plain high a one).1, digit_hex high a one, digit_hex low b two)
      (cell_eq (record { byte = high * 16 + low; mask = 0xFF }) c (sym byte) (sym mask))
word_cell c (a ∷ b ∷ d ∷ word) h = absurd h

-- The words of a text give its cells, one for each.
words_cells :
    (cells : List PatternCell) (text : List ℕ)
    → IsWords cells text
    → (cells_of (words [] text) ≡ some cells) × (length (words [] text) ≡ length cells)
unfolding cells_of
words_cells [] text h = rw h (unfold words in refl, unfold words in refl)
words_cells (c ∷ cells) text (word, gap, rest, shape, here, spaces, later, last) =
    let (same, counted) = words_cells cells rest later in
    let ends : (rest ≡ []) ⊎ (1 ≤ length gap) = elim last [
      | inl none_left ↦ inl (subst (λ cs. IsWords cs rest) none_left later)
      | inr space ↦ inr space
    ] in
    let split = ap (words []) shape ∙ word_split c word gap rest here spaces ends in
    (rw (split, word_cell c word here, same) refl, rw split (omega (arith, counted)))

pub denoted_cells :
    (text : List ℕ) (cells : List PatternCell)
    → Denotes text cells
    → (cells_of (words [] text) ≡ some cells) × (length (words [] text) ≡ length cells)
denoted_cells text cells (lead, rest, shape, spaces, h) =
    let found = ap (words []) shape ∙ words_spaces lead rest spaces in
    rw found (words_cells cells rest h)

-- With an allocator that grants every request, compiling a text of one or more words, each `?`, `??` or
-- two hexadecimal digits of either case, with any white space between them and around them, gives
-- the cells that the words denote, in order.
pub pattern_compile-text :
    (grants : ℕ → Bool) (text : List ℕ) (cells : List PatternCell)
    → ((n : ℕ) → grants n ≡ true)
    → 1 ≤ length cells
    → Denotes text cells
    → bytecode_pattern_compile grants text ≡ Compiled.compiled cells
unfolding bytecode_pattern_compile
pattern_compile-text grants text cells plenty some_cells h =
    let (same, counted) = denoted_cells text cells h in
    let some_words : (length (words [] text) == 0) ≡ false = ground (arith, counted) in
    rw (some_words, plenty (length (words [] text)), same) refl
