-- ===== src/CodeEditor/Places.antt =====
-- src/visitors/code_editor.c, where an element of an array is once others are put in before it, and
-- once a walk has passed.
use jni2hook.Base.{
  ℕ, zero, suc, ◌+◌, ◌≤◌, ◌<◌, ◌≡◌, inl, inr, refl, ap, ◌∙◌, Bool-cases, List, [], ◌∷◌, ◌++◌,
  Option, none, some, length, take, drop, get_elem?, leb, arith,
}
use jni2hook.Instruction.Node.{biased, Instruction}
use jni2hook.Instruction.Offsets.{moved}
use jni2hook.CodeEditor.References.{Walk, walk_first, walk_all, shift_with}

pub get_elem-walk :
    {A : Type 0} (w : Walk A) (xs : List A) (i : ℕ) (x : A)
    → get_elem? xs i ≡ some x
    → get_elem? (walk_all w xs).1 i ≡ some (w x).1
unfolding walk_first
get_elem-walk w [] i x h = cc
get_elem-walk w (y ∷ ys) zero x h = ap (λ o. walked_or w (w y).1 o) h
  where
    walked_or : {A : Type 0} → Walk A → A → Option A → Option A
    walked_or w a none = none
    walked_or w a (some x) = some (w x).1
get_elem-walk w (y ∷ ys) (suc i) x h = get_elem-walk w ys i x h

pub length-walk : {A : Type 0} (w : Walk A) (xs : List A) → length (walk_all w xs).1 ≡ length xs
unfolding walk_first
length-walk w [] = refl
length-walk w (x ∷ xs) = ap suc (length-walk w xs)

get_elem-append_right :
    {A : Type 0} (xs ys : List A) (i k : ℕ)
    → k ≡ i + length xs
    → get_elem? (xs ++ ys) k ≡ get_elem? ys i
get_elem-append_right [] ys i k h = ap (λ n. get_elem? ys n) (omega (arith, h))
get_elem-append_right (x ∷ xs) ys i zero h = absurd (omega arith)
get_elem-append_right (x ∷ xs) ys i (suc k) h = get_elem-append_right xs ys i k (omega arith)

-- Elements put in at an index move those from the index on, and no others.
splice_behind :
    {A : Type 0} (at : ℕ) (xs nodes : List A) (i k : ℕ)
    → at ≤ i
    → at ≤ length xs
    → k ≡ i + length nodes
    → get_elem? (take at xs ++ (nodes ++ drop at xs)) k ≡ get_elem? xs i
splice_behind zero xs nodes i k h room e = get_elem-append_right nodes xs i k e
splice_behind (suc at) [] nodes i k h room e = absurd (omega arith)
splice_behind (suc at) (x ∷ xs) nodes zero k h room e = absurd (omega arith)
splice_behind (suc at) (x ∷ xs) nodes (suc i) zero h room e = absurd (omega arith)
splice_behind (suc at) (x ∷ xs) nodes (suc i) (suc k) h room e =
    splice_behind at xs nodes i k (omega arith) (omega arith) (omega arith)

splice_before :
    {A : Type 0} (at : ℕ) (xs nodes : List A) (i : ℕ)
    → i < at
    → at ≤ length xs
    → get_elem? (take at xs ++ (nodes ++ drop at xs)) i ≡ get_elem? xs i
splice_before zero xs nodes i h room = absurd (omega arith)
splice_before (suc at) [] nodes i h room = absurd (omega arith)
splice_before (suc at) (x ∷ xs) nodes zero h room = refl
splice_before (suc at) (x ∷ xs) nodes (suc i) h room =
    splice_before at xs nodes i (omega arith) (omega arith)

pub length-get_elem :
    {A : Type 0} (xs : List A) (i : ℕ) (x : A) → get_elem? xs i ≡ some x → i < length xs
length-get_elem [] i x h = cc
length-get_elem (y ∷ ys) zero x h = omega arith
length-get_elem (y ∷ ys) (suc i) x h = let later = length-get_elem ys i x h in omega arith

-- An instruction's place once others are put in.
pub get_elem-splice :
    {A : Type 0} (at : ℕ) (xs nodes : List A) (i : ℕ) (x : A)
    → get_elem? xs i ≡ some x
    → at ≤ length xs
    → length xs + length nodes < 2147483648
    → get_elem? (take at xs ++ (nodes ++ drop at xs)) (shift_with at (length nodes) i) ≡ some x
unfolding shift_with
get_elem-splice at xs nodes i x found room small =
    let inside = length-get_elem xs i x found in
    elim (Bool-cases (leb (biased at) (biased i))) [
      | inl moves ↦
          rw moves (splice_behind at xs nodes i _ (ground arith) room (omega arith) ∙ found)
      | inr stays ↦ rw stays (splice_before at xs nodes i (ground arith) room ∙ found)
    ]

-- The same instruction but for its offset, in lists that are the same but for the offsets.
pub get_elem-moved :
    (xs ys : List Instruction) (i : ℕ) (x : Instruction)
    → moved xs ≡ moved ys
    → get_elem? ys i ≡ some x
    → (y : Instruction) × (get_elem? xs i ≡ some y)
      × (record y { offset = 0 } ≡ record x { offset = 0 })
get_elem-moved [] [] i x same h = cc
get_elem-moved [] (y ∷ ys) i x same h = cc
get_elem-moved (z ∷ zs) [] i x same h = cc
get_elem-moved (z ∷ zs) (y ∷ ys) zero x same h = (z, refl, cc)
get_elem-moved (z ∷ zs) (y ∷ ys) (suc i) x same h = get_elem-moved zs ys i x (cc) h
