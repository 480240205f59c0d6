-- ===== src/ConstantPool/RoundTrip/Layout.antt =====
-- The bytes of a constant pool, as the class file format lays them out (JVMS 4.4), and which
-- slots are in order.
use jni2hook.Base.{ℕ, ◌<◌, ◌≡◌, true, false, List, [], ◌∷◌, ◌++◌, length, ◌==◌, drop}
use jni2hook.ByteStream.Reads.{be1, be2}
use jni2hook.ConstantPool.Entry.{CpInfo, IsEntry, tag_of, cp_info_slots}
use jni2hook.ConstantPool.Codec.{ConstantPool}

abbrev pub entry_bytes : CpInfo → List ℕ
entry_bytes CpInfo.empty = []
entry_bytes (CpInfo.utf8 bytes) = 1 ∷ be2 (length bytes) ++ bytes
entry_bytes (CpInfo.integer bytes) = 3 ∷ bytes
entry_bytes (CpInfo.float bytes) = 4 ∷ bytes
entry_bytes (CpInfo.long bytes) = 5 ∷ bytes
entry_bytes (CpInfo.double bytes) = 6 ∷ bytes
entry_bytes (CpInfo.class_info name) = 7 ∷ be2 name
entry_bytes (CpInfo.module_info name) = 19 ∷ be2 name
entry_bytes (CpInfo.package_info name) = 20 ∷ be2 name
entry_bytes (CpInfo.string_info string) = 8 ∷ be2 string
entry_bytes (CpInfo.fieldref class nat) = 9 ∷ be2 class ++ be2 nat
entry_bytes (CpInfo.methodref class nat) = 10 ∷ be2 class ++ be2 nat
entry_bytes (CpInfo.interface_methodref class nat) = 11 ∷ be2 class ++ be2 nat
entry_bytes (CpInfo.name_and_type name descriptor) = 12 ∷ be2 name ++ be2 descriptor
entry_bytes (CpInfo.method_handle kind reference) = 15 ∷ be1 kind ++ be2 reference
entry_bytes (CpInfo.method_type descriptor) = 16 ∷ be2 descriptor
entry_bytes (CpInfo.dynamic bootstrap nat) = 17 ∷ be2 bootstrap ++ be2 nat
entry_bytes (CpInfo.invoke_dynamic bootstrap nat) = 18 ∷ be2 bootstrap ++ be2 nat
entry_bytes (CpInfo.unknown tag) = []

abbrev pub entries_bytes : List CpInfo → List ℕ
entries_bytes [] = []
entries_bytes (entry ∷ entries) = entry_bytes entry ++ entries_bytes entries

abbrev pub pool_bytes : ConstantPool → List ℕ
pool_bytes pool = be2 (length pool.entries) ++ entries_bytes (drop 1 pool.entries)

-- Slots behind slot 0: a Long or a Double is followed by one empty slot, and no other is empty.
pub data IsSlots : List CpInfo → Type 0 where
  nil : IsSlots []
  one :
      (entry : CpInfo) {entries : List CpInfo}
      → IsEntry entry
      → (cp_info_slots (tag_of entry) == 2) ≡ false
      → IsSlots entries
      → IsSlots (entry ∷ entries)
  two :
      (entry : CpInfo) {entries : List CpInfo}
      → IsEntry entry
      → (cp_info_slots (tag_of entry) == 2) ≡ true
      → IsSlots entries
      → IsSlots (entry ∷ CpInfo.empty ∷ entries)

-- Slot 0 is unused, and the count fits a u2.
pub record IsPool (pool : ConstantPool) : Type 0 where
  pub slots : List CpInfo
  pub shape : pool.entries ≡ CpInfo.empty ∷ slots
  pub in_order : IsSlots slots
  pub counted : length pool.entries < 65536
