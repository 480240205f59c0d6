-- ===== src/PatternScan/Runs.antt =====
-- src/hook/bytecode_scan.c: the pattern "2A ?? b1" in the code of a method.
use jni2hook.Base.{
  get_elem?, ℕ, ◌≤◌, ◌≡◌, refl, true, List, [], ◌∷◌, some, length, drop, inl, inr, arith,
}
use jni2hook.PatternScan.Pattern.{
  PatternCell, Compiled, matches_at, find_from, bytecode_pattern_find, bytecode_pattern_compile,
  words, cells_of, cell_of, hex_value, find_in_code, code_info, find_in_methods,
  bytecode_pattern_find_in_class_file,
}
use jni2hook.ConstantPool.Entry.{CpInfo}
use jni2hook.ConstantPool.Pool.{
  same_bytes, constant_pool_at, constant_pool_utf8, constant_pool_utf8_equals,
}
use jni2hook.ClassFile.Tree.{MemberInfo, ClassFile}
use jni2hook.PatternScan.InClass.{IsCode, FitsCode, pattern_find_in_class_file-FitsCode}
use jni2hook.PatternScan.Find.{Fits, pattern_find-Fits, pattern_find-first}
use jni2hook.PatternScan.Denoted.{pattern_compile-Denotes}
use jni2hook.PatternScan.Compile.{Denotes, pattern_compile-text}

abbrev first_cell : PatternCell
first_cell = record { byte = 0x2a; mask = 0xFF }

abbrev later_cells : List PatternCell
later_cells = record { byte = 0; mask = 0 } ∷ record { byte = 0xb1; mask = 0xFF } ∷ []

abbrev code : List ℕ
code = 0x2a ∷ 0x2a ∷ 0x57 ∷ 0xb1 ∷ []

find_run : bytecode_pattern_find (first_cell ∷ later_cells) code ≡ some 1
unfolding bytecode_pattern_find find_from matches_at
find_run = refl

pattern_find-Fits_example :
    Fits (first_cell ∷ later_cells) (drop 1 code)
    × (length (first_cell ∷ later_cells) ≤ length (drop 1 code))
pattern_find-Fits_example = pattern_find-Fits (first_cell ∷ later_cells) code 1 find_run

pattern_find-first_example :
    (n : ℕ) × (bytecode_pattern_find (first_cell ∷ later_cells) code ≡ some n) × (n ≤ 1)
pattern_find-first_example =
    pattern_find-first (first_cell ∷ later_cells) code 1 (inr refl, (inl refl, (inr refl, tt)))

-- " 2A ??", a tab and "b1".
abbrev pattern_text : List ℕ
pattern_text = b' ' ∷ b'2' ∷ b'A' ∷ b' ' ∷ b'?' ∷ b'?' ∷ 9 ∷ b'b' ∷ b'1' ∷ []

pattern_text-Denotes : Denotes pattern_text (first_cell ∷ later_cells)
pattern_text-Denotes = (
  b' ' ∷ [],
  b'2' ∷ b'A' ∷ b' ' ∷ b'?' ∷ b'?' ∷ 9 ∷ b'b' ∷ b'1' ∷ [],
  refl,
  (inl refl, tt),
  (
    b'2' ∷ b'A' ∷ [],
    b' ' ∷ [],
    b'?' ∷ b'?' ∷ 9 ∷ b'b' ∷ b'1' ∷ [],
    refl,
    inr (2, 10, inl (omega arith, refl), inr (omega arith, omega arith, inr refl), refl, refl),
    (inl refl, tt),
    (
      b'?' ∷ b'?' ∷ [],
      9 ∷ [],
      b'b' ∷ b'1' ∷ [],
      refl,
      inl (refl, refl, (refl, refl)),
      (inr (omega arith, omega arith), tt),
      (
        b'b' ∷ b'1' ∷ [],
        [],
        [],
        refl,
        inr (11, 1, inr (omega arith, omega arith, inl refl), inl (omega arith, refl), refl, refl),
        tt,
        refl,
        inl refl,
      ),
      inr (omega arith),
    ),
    inr (omega arith),
  ),
)

pattern_compile-text_example :
    bytecode_pattern_compile (λ n. true) pattern_text ≡ Compiled.compiled (first_cell ∷ later_cells)
pattern_compile-text_example =
    pattern_compile-text (λ n. true) pattern_text (first_cell ∷ later_cells) (λ n. refl)
      (omega arith) pattern_text-Denotes

compile_run :
    bytecode_pattern_compile (λ n. true) pattern_text ≡ Compiled.compiled (first_cell ∷ later_cells)
unfolding bytecode_pattern_compile words cells_of cell_of hex_value
compile_run = refl

pattern_compile-Denotes_example :
    Denotes pattern_text (first_cell ∷ later_cells) × (1 ≤ length (first_cell ∷ later_cells))
pattern_compile-Denotes_example =
    pattern_compile-Denotes (λ n. true) pattern_text (first_cell ∷ later_cells) compile_run

abbrev method : MemberInfo
method = record {
  access_flags = 1;
  name_index = 1;
  descriptor_index = 1;
  attributes =
      record {
        attribute_name_index = 1;
        info = 0 ∷ 1 ∷ 0 ∷ 1 ∷ 0 ∷ 0 ∷ 0 ∷ 4 ∷ 0x2a ∷ 0x2a ∷ 0x57 ∷ 0xb1 ∷ 0 ∷ 0 ∷ 0 ∷ 0 ∷ [];
      }
      ∷ [];
}

abbrev bare : MemberInfo
bare = record { access_flags = 1; name_index = 1; descriptor_index = 1; attributes = [] }

abbrev class_file : ClassFile
class_file = record {
  minor_version = 0;
  major_version = 52;
  constant_pool = record {
    entries = CpInfo.empty ∷ CpInfo.utf8 (b'C' ∷ b'o' ∷ b'd' ∷ b'e' ∷ []) ∷ [];
    capacity = 2;
  };
  access_flags = 1;
  this_class = 1;
  super_class = 0;
  interfaces = [];
  fields = [];
  methods = bare ∷ method ∷ [];
  attributes = [];
}

class_run : bytecode_pattern_find_in_class_file (first_cell ∷ later_cells) class_file ≡ some (1, 1)
unfolding bytecode_pattern_find_in_class_file find_in_methods code_info find_in_code
    bytecode_pattern_find find_from matches_at constant_pool_utf8_equals constant_pool_utf8
    constant_pool_at same_bytes
class_run = refl

pattern_find_in_class_file-FitsCode_example :
    (m : MemberInfo) × (info : List ℕ) × (get_elem? class_file.methods 1 ≡ some m)
    × IsCode class_file.constant_pool m.attributes info
    × FitsCode (first_cell ∷ later_cells) info 1
pattern_find_in_class_file-FitsCode_example =
    pattern_find_in_class_file-FitsCode (first_cell ∷ later_cells) class_file 1 1 class_run
