-- ===== src/PatternScan/InClass.antt =====
-- src/hook/bytecode_scan.c, `bytecode_pattern_find_in_class_file`.
use jni2hook.Base.{
  ◌*◌, ◌++◌, sym, subst, All, take-append-drop, length-take_of_le, ℕ, suc, ◌+◌, ◌≤◌, ◌≡◌, refl, ap,
  ◌∙◌, Bool-cases, ◌⊎◌, inl, inr, ◌||◌, List, [], ◌∷◌, Option, none, some, length, drop, take,
  get_elem?, ltb, arith,
}
use jni2hook.ClassFile.Tree.{AttributeInfo, MemberInfo, ClassFile}
use jni2hook.ConstantPool.Codec.{ConstantPool}
use jni2hook.ConstantPool.Pool.{constant_pool_utf8}
use jni2hook.NodeList.Growth.{is_named}
use jni2hook.NodeList.Search.{equals_inv, equals_intro}
use jni2hook.PatternScan.Pattern.{
  PatternCell, find_in_code, code_info, find_in_info, here_or_later, find_in_methods,
  bytecode_pattern_find_in_class_file,
}
use jni2hook.PatternScan.Find.{Fits, pattern_find-Fits}

-- A Code attribute (JVMS 4.7.3) starts with four bytes, max_stack and max_locals, and four bytes of
-- the code's length, big-endian, with the code behind them. The pattern fits there at the offset.
abbrev pub FitsCode : List PatternCell → List ℕ → ℕ → Type 0
FitsCode cells info offset =
    (head : List ℕ) × (a : ℕ) × (b : ℕ) × (c : ℕ) × (d : ℕ) × (code : List ℕ) × (rest : List ℕ)
    × (info ≡ head ++ (a ∷ b ∷ c ∷ d ∷ (code ++ rest)))
    × (length head ≡ 4)
    × (length code ≡ ((a * 256 + b) * 256 + c) * 256 + d)
    × Fits cells (drop offset code)

-- The text "Code".
abbrev pub code_text : List ℕ
code_text = 67 ∷ 111 ∷ 100 ∷ 101 ∷ []

-- The payload is that of the first of the attributes that the pool names "Code".
abbrev pub IsCode : ConstantPool → List AttributeInfo → List ℕ → Type 0
IsCode pool attributes info =
    (front : List AttributeInfo) × (a : AttributeInfo) × (back : List AttributeInfo) × (attributes
      ≡ front ++ (a ∷ back))
    × (constant_pool_utf8 pool a.attribute_name_index ≡ some code_text)
    × (a.info ≡ info)
    × All (λ e. ¬ (constant_pool_utf8 pool e.attribute_name_index ≡ some code_text)) front

abbrev Headed : List ℕ → Type 0
Headed info =
    (h : ℕ) × (i : ℕ) × (j : ℕ) × (k : ℕ) × (a : ℕ) × (b : ℕ) × (c : ℕ) × (d : ℕ) × (tail : List ℕ)
    × (info ≡ h ∷ i ∷ j ∷ k ∷ a ∷ b ∷ c ∷ d ∷ tail)

header_split : (info : List ℕ) → 8 ≤ length info → Headed info
header_split [] long = absurd (omega arith)
header_split (h ∷ []) long = absurd (omega arith)
header_split (h ∷ i ∷ []) long = absurd (omega arith)
header_split (h ∷ i ∷ j ∷ []) long = absurd (omega arith)
header_split (h ∷ i ∷ j ∷ k ∷ []) long = absurd (omega arith)
header_split (h ∷ i ∷ j ∷ k ∷ a ∷ []) long = absurd (omega arith)
header_split (h ∷ i ∷ j ∷ k ∷ a ∷ b ∷ []) long = absurd (omega arith)
header_split (h ∷ i ∷ j ∷ k ∷ a ∷ b ∷ c ∷ []) long = absurd (omega arith)
header_split (h ∷ i ∷ j ∷ k ∷ a ∷ b ∷ c ∷ d ∷ tail) long = (h, i, j, k, a, b, c, d, tail, refl)

module _ (cells : List PatternCell) (pool : ConstantPool) where
  headed_inv :
      (h i j k a b c d : ℕ) (tail : List ℕ) (offset : ℕ)
      → find_in_code cells (h ∷ i ∷ j ∷ k ∷ a ∷ b ∷ c ∷ d ∷ tail) ≡ some offset
      → FitsCode cells (h ∷ i ∷ j ∷ k ∷ a ∷ b ∷ c ∷ d ∷ tail) offset
  unfolding find_in_code
  headed_inv h i j k a b c d tail offset found =
      let info = h ∷ i ∷ j ∷ k ∷ a ∷ b ∷ c ∷ d ∷ tail in
      let n = a * 16777216 + b * 65536 + c * 256 + d in
      elim (Bool-cases (ltb (length info) 8 || ltb (length info) (n + 8))) [
        | inl short ↦ ground arith
        | inr enough ↦
            let room : n ≤ length tail = ground arith in
            let size = length-take_of_le n tail room in
            (
              h ∷ i ∷ j ∷ k ∷ [],
              a,
              b,
              c,
              d,
              take n tail,
              drop n tail,
              ap (λ xs. h ∷ i ∷ j ∷ k ∷ a ∷ b ∷ c ∷ d ∷ xs) (sym (take-append-drop n tail)),
              refl,
              omega (arith, size),
              (pattern_find-Fits cells (take n tail) offset (rw enough at found)).0,
            )
      ]

  long_enough :
      (info : List ℕ) (offset : ℕ) → find_in_code cells info ≡ some offset → 8 ≤ length info
  unfolding find_in_code
  long_enough info offset found = elim (Bool-cases (ltb (length info) 8)) [
    | inl short ↦ absurd (let no = rw short at found in cc)
    | inr long ↦ ground arith
  ]

  find_in_code_inv :
      (info : List ℕ) (offset : ℕ)
      → find_in_code cells info ≡ some offset
      → FitsCode cells info offset
  find_in_code_inv info offset found =
      let (h, i, j, k, a, b, c, d, tail, shape) =
        header_split info (long_enough info offset found) in
      subst (λ xs. FitsCode cells xs offset) (sym shape)
        (headed_inv h i j k a b c d tail offset
          (subst (λ xs. find_in_code cells xs ≡ some offset) shape found))

  -- The attribute that the search takes is the first of its name.
  code_info_inv :
      (attributes : List AttributeInfo) (info : List ℕ)
      → code_info pool attributes ≡ some info
      → IsCode pool attributes info
  unfolding code_info
  code_info_inv [] info h = cc
  code_info_inv (a ∷ others) info h = elim (Bool-cases (is_named pool code_text a)) [
    | inl named ↦
        let same : some a.info ≡ some info = rw named at h in
        (
          [],
          a,
          others,
          refl,
          equals_inv pool a.attribute_name_index code_text named,
          ground arith,
          tt,
        )
    | inr other ↦
        let (front, found, back, split, named, same, unnamed) =
          code_info_inv others info (rw other at h) in
        (
          a ∷ front,
          found,
          back,
          ap (λ xs. a ∷ xs) split,
          named,
          same,
          ((λ k. let t = equals_intro pool a.attribute_name_index code_text k in cc), unnamed),
        )
  ]

  -- What the search says of the method that it names.
  abbrev Hit : List MemberInfo → ℕ → ℕ → Type 0
  Hit methods k offset =
      (m : MemberInfo) × (info : List ℕ) × (get_elem? methods k ≡ some m)
      × IsCode pool m.attributes info
      × FitsCode cells info offset

  step_cases :
      (m : MemberInfo) (methods : List MemberInfo) (i : ℕ) (found : Option (List ℕ))
      (inside : Option ℕ) (k offset : ℕ)
      → code_info pool m.attributes ≡ found
      → find_in_info cells found ≡ inside
      → here_or_later i inside (find_in_methods cells pool (i + 1) methods) ≡ some (k, offset)
      → (find_in_methods cells pool (i + 1) methods ≡ some (k, offset))
        ⊎ (i ≡ k) × Hit (m ∷ methods) 0 offset
  step_cases m methods i found none k offset at is h = inl h
  step_cases m methods i none (some o) k offset at is h = cc
  step_cases m methods i (some info) (some o) k offset at is h =
      let same : o ≡ offset = cc in
      let place : i ≡ k = cc in
      inr (
        place,
        (
          m,
          info,
          refl,
          code_info_inv m.attributes info at,
          find_in_code_inv info offset (is ∙ ap some same),
        ),
      )

  find_in_methods_inv :
      (i : ℕ) (methods : List MemberInfo) (k offset : ℕ)
      → find_in_methods cells pool i methods ≡ some (k, offset)
      → (n : ℕ) × (k ≡ i + n) × Hit methods n offset
  unfolding find_in_methods
  find_in_methods_inv i [] k offset h = cc
  find_in_methods_inv i (m ∷ methods) k offset h =
      let tail = find_in_methods_inv (i + 1) methods k offset in
      elim (step_cases m methods i _ _ k offset refl refl h) [
        | inl later ↦ let (n, at, hit) = tail later in (suc n, omega (arith, at), hit)
        | inr (place, hit) ↦ (0, omega (arith, place), hit)
      ]

-- Where the search in a class file succeeds, the method of that index has an attribute that the pool
-- names "Code", the first of that name; its payload holds, behind eight bytes, all the code that the
-- last four of them announce, and the pattern fits there at that offset.
pub pattern_find_in_class_file-FitsCode :
    (cells : List PatternCell) (cf : ClassFile) (k offset : ℕ)
    → bytecode_pattern_find_in_class_file cells cf ≡ some (k, offset)
    → (m : MemberInfo) × (info : List ℕ) × (get_elem? cf.methods k ≡ some m)
      × IsCode cf.constant_pool m.attributes info
      × FitsCode cells info offset
unfolding bytecode_pattern_find_in_class_file
pattern_find_in_class_file-FitsCode cells cf k offset h =
    let (n, at, (m, info, place, named, fit)) =
      find_in_methods_inv cells cf.constant_pool 0 cf.methods k offset h in
    let same : k ≡ n = omega (arith, at) in (m, info, rw same place, named, fit)
