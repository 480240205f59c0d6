-- ===== src/PatternScan/Pattern.antt =====
-- src/hook/bytecode_scan.c up to the search in a class file. A text is the list of its bytes, up to the
-- 0 at its end.
use jni2hook.Base.{
  ℕ, ◌+◌, ◌-◌, ◌*◌, Bool, true, false, ◌||◌, ◌&&◌, List, [], ◌∷◌, ◌++◌, Option, none, some, length,
  take, drop, if◌then◌else◌, ltb, leb, ◌==◌,
}
use jni2hook.ClassFile.Tree.{AttributeInfo, MemberInfo, ClassFile}
use jni2hook.ConstantPool.Codec.{ConstantPool}
use jni2hook.NodeList.Growth.{is_named}

-- One position of a pattern: `bytes[i]` and `masks[i]`.
pub record PatternCell : Type 0 where
  pub byte : ℕ
  pub mask : ℕ

-- What compiling gives.
pub data Compiled : Type 0 where
  compiled : List PatternCell → Compiled
  invalid_pattern out_of_memory : Compiled

abbrev pub isspace : ℕ → Bool
isspace c = c == 32 || (leb 9 c && leb c 13)

-- `none` stands for -1.
unfoldable pub hex_value : ℕ → Option ℕ
hex_value c =
    if leb 48 c && leb c 57
    then some (c - 48)
    else (if leb 97 c && leb c 102
        then some (c - 97 + 10)
        else (if leb 65 c && leb c 70 then some (c - 65 + 10) else none))

-- The word that ends here, if it is not empty, in front of the later ones.
abbrev pub flush : List ℕ → List (List ℕ) → List (List ℕ)
flush [] later = later
flush (c ∷ word) later = (c ∷ word) ∷ later

-- The words between white space; `word` is what has been passed of the current one.
unfoldable pub words : List ℕ → List ℕ → List (List ℕ)
words word [] = flush word []
words word (c ∷ text) =
    let later = words (if isspace c then [] else word ++ (c ∷ [])) text in
    if isspace c then flush word later else later

abbrev pub both_digits : Option ℕ → Option ℕ → Option PatternCell
both_digits (some high) (some low) = some (record { byte = high * 16 + low; mask = 0xFF })
both_digits _ _ = none

-- `?`, `??`, or two hexadecimal digits.
unfoldable pub cell_of : List ℕ → Option PatternCell
unfolding hex_value
cell_of (a ∷ []) = if a == 63 then some (record { byte = 0; mask = 0 }) else none
cell_of (a ∷ b ∷ []) =
    if a == 63 && b == 63
    then some (record { byte = 0; mask = 0 })
    else both_digits (hex_value a) (hex_value b)
cell_of _ = none

abbrev pub cons_cell : Option PatternCell → Option (List PatternCell) → Option (List PatternCell)
cons_cell (some c) (some cs) = some (c ∷ cs)
cons_cell _ _ = none

unfoldable pub cells_of : List (List ℕ) → Option (List PatternCell)
cells_of [] = some []
cells_of (word ∷ others) = cons_cell (cell_of word) (cells_of others)

abbrev pub compiled_or_invalid : Option (List PatternCell) → Compiled
compiled_or_invalid none = Compiled.invalid_pattern
compiled_or_invalid (some cells) = Compiled.compiled cells

-- Both arrays are asked for with one byte for each word.
unfoldable pub bytecode_pattern_compile : (ℕ → Bool) → List ℕ → Compiled
bytecode_pattern_compile grants text =
    let found = words [] text in
    if length found == 0
    then Compiled.invalid_pattern
    else (if grants (length found)
        then compiled_or_invalid (cells_of found)
        else Compiled.out_of_memory)

-- `masks[i] != 0 && bytes[offset + i] != pattern->bytes[i]` is a mismatch.
unfoldable pub matches_at : List PatternCell → List ℕ → Bool
matches_at [] bytes = true
matches_at (c ∷ cells) [] = false
matches_at (c ∷ cells) (b ∷ bytes) = (c.mask == 0 || b == c.byte) && matches_at cells bytes

-- The loop over the offsets, with the bytes from the offset on.
unfoldable pub find_from : List PatternCell → ℕ → List ℕ → Option ℕ
find_from cells offset [] = if matches_at cells [] then some offset else none
find_from cells offset (b ∷ bytes) =
    let later = find_from cells (offset + 1) bytes in
    if ltb (length (b ∷ bytes)) (length cells)
    then none
    else (if matches_at cells (b ∷ bytes) then some offset else later)

-- The offset of the pointer that the source returns.
unfoldable pub bytecode_pattern_find : List PatternCell → List ℕ → Option ℕ
bytecode_pattern_find cells bytes =
    if ltb (length bytes) (length cells) then none else find_from cells 0 bytes

-- The four bytes at `info[4]`, as a big-endian number.
abbrev pub code_length : List ℕ → ℕ
code_length (a ∷ b ∷ c ∷ d ∷ []) = a * 16777216 + b * 65536 + c * 256 + d
code_length _ = 0

-- The search in the payload of a Code attribute.
unfoldable pub find_in_code : List PatternCell → List ℕ → Option ℕ
find_in_code cells info =
    let n = code_length (take 4 (drop 4 info)) in
    if ltb (length info) 8 || ltb (length info) (n + 8)
    then none
    else bytecode_pattern_find cells (take n (drop 8 info))

abbrev code_name : List ℕ
code_name = b'C' ∷ b'o' ∷ b'd' ∷ b'e' ∷ []

-- The payload of the attribute named "Code".
unfoldable pub code_info : ConstantPool → List AttributeInfo → Option (List ℕ)
code_info pool [] = none
code_info pool (a ∷ others) =
    if is_named pool code_name a then some a.info else code_info pool others

abbrev pub find_in_info : List PatternCell → Option (List ℕ) → Option ℕ
find_in_info cells none = none
find_in_info cells (some info) = find_in_code cells info

abbrev pub here_or_later : ℕ → Option ℕ → Option (ℕ × ℕ) → Option (ℕ × ℕ)
here_or_later i none later = later
here_or_later i (some offset) later = some (i, offset)

-- The loop over the methods: the index of the method and the offset in its code.
unfoldable pub find_in_methods :
    List PatternCell → ConstantPool → ℕ → List MemberInfo → Option (ℕ × ℕ)
find_in_methods cells pool i [] = none
find_in_methods cells pool i (m ∷ methods) =
    here_or_later i (find_in_info cells (code_info pool m.attributes))
      (find_in_methods cells pool (i + 1) methods)

unfoldable pub bytecode_pattern_find_in_class_file : List PatternCell → ClassFile → Option (ℕ × ℕ)
bytecode_pattern_find_in_class_file cells cf = find_in_methods cells cf.constant_pool 0 cf.methods
