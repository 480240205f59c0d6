-- ===== src/ConstantPool/Entry.antt =====
-- include/jni2hook/utils/visitors/cp_info.h, `cp_info`: a tag and the part of the union it selects.
use jni2hook.Base.{ℕ, ◌<◌, ◌≡◌, Bool, List, length, All, ◌==◌, ◌||◌, if◌then◌else◌}
use jni2hook.ByteStream.Cursor.{IsByte}

-- `empty` has the tag 0. `unknown` has a tag that the format does not define; no parser makes it.
pub data CpInfo : Type 0 where
  empty : CpInfo
  utf8 : List ℕ → CpInfo
  integer float long double : List ℕ → CpInfo
  class_info module_info package_info string_info : ℕ → CpInfo
  fieldref methodref interface_methodref name_and_type : ℕ → ℕ → CpInfo
  method_handle : ℕ → ℕ → CpInfo
  method_type : ℕ → CpInfo
  dynamic invoke_dynamic : ℕ → ℕ → CpInfo
  unknown : ℕ → CpInfo

-- The field `tag`.
unfoldable pub tag_of : CpInfo → ℕ
tag_of CpInfo.empty = 0
tag_of (CpInfo.utf8 bytes) = 1
tag_of (CpInfo.integer bytes) = 3
tag_of (CpInfo.float bytes) = 4
tag_of (CpInfo.long bytes) = 5
tag_of (CpInfo.double bytes) = 6
tag_of (CpInfo.class_info name) = 7
tag_of (CpInfo.string_info string) = 8
tag_of (CpInfo.fieldref class nat) = 9
tag_of (CpInfo.methodref class nat) = 10
tag_of (CpInfo.interface_methodref class nat) = 11
tag_of (CpInfo.name_and_type name descriptor) = 12
tag_of (CpInfo.method_handle kind reference) = 15
tag_of (CpInfo.method_type descriptor) = 16
tag_of (CpInfo.dynamic bootstrap nat) = 17
tag_of (CpInfo.invoke_dynamic bootstrap nat) = 18
tag_of (CpInfo.module_info name) = 19
tag_of (CpInfo.package_info name) = 20
tag_of (CpInfo.unknown tag) = tag

-- Slots consumed by an entry.
unfoldable pub cp_info_slots : ℕ → ℕ
cp_info_slots tag = if tag == 5 || tag == 6 then 2 else 1

unfoldable cp_info_tag_is_known : ℕ → Bool
cp_info_tag_is_known tag =
    tag == 1
    || tag == 3
    || tag == 4
    || tag == 5
    || tag == 6
    || tag == 7
    || tag == 8
    || tag == 9
    || tag == 10
    || tag == 11
    || tag == 12
    || tag == 15
    || tag == 16
    || tag == 18
    || tag == 17
    || tag == 19
    || tag == 20

abbrev pub IsU2 : ℕ → Type 0
IsU2 v = v < 65536

abbrev pub IsBlock : ℕ → List ℕ → Type 0
IsBlock n bytes = (length bytes ≡ n) × All IsByte bytes

-- What the format stores in an entry: each index a u2, each block of the length it has.
abbrev pub IsEntry : CpInfo → Type 0
IsEntry CpInfo.empty = ⊥
IsEntry (CpInfo.utf8 bytes) = IsU2 (length bytes) × All IsByte bytes
IsEntry (CpInfo.integer bytes) = IsBlock 4 bytes
IsEntry (CpInfo.float bytes) = IsBlock 4 bytes
IsEntry (CpInfo.long bytes) = IsBlock 8 bytes
IsEntry (CpInfo.double bytes) = IsBlock 8 bytes
IsEntry (CpInfo.class_info name) = IsU2 name
IsEntry (CpInfo.module_info name) = IsU2 name
IsEntry (CpInfo.package_info name) = IsU2 name
IsEntry (CpInfo.string_info string) = IsU2 string
IsEntry (CpInfo.fieldref class nat) = IsU2 class × IsU2 nat
IsEntry (CpInfo.methodref class nat) = IsU2 class × IsU2 nat
IsEntry (CpInfo.interface_methodref class nat) = IsU2 class × IsU2 nat
IsEntry (CpInfo.name_and_type name descriptor) = IsU2 name × IsU2 descriptor
IsEntry (CpInfo.method_handle kind reference) = IsByte kind × IsU2 reference
IsEntry (CpInfo.method_type descriptor) = IsU2 descriptor
IsEntry (CpInfo.dynamic bootstrap nat) = IsU2 bootstrap × IsU2 nat
IsEntry (CpInfo.invoke_dynamic bootstrap nat) = IsU2 bootstrap × IsU2 nat
IsEntry (CpInfo.unknown tag) = ⊥
