-- ===== src/ConstantPool/Codec.antt =====
-- src/visitors/cp_info.c, `constant_pool_read`, and src/class_file_writer.c,
-- `write_constant_pool`. The pool's array is the list of its slots, slot 0 included.
use jni2hook.Base.{
  ℕ, zero, suc, ◌-◌, Bool, true, false, List, [], ◌∷◌, length, Result, ok, err, ClassfileStatus,
  if◌then◌else◌, ◌==◌, ltb, not, bind, drop,
}
use jni2hook.ByteStream.Cursor.{
  Reader, ◌>>=◌, ◌>>◌, pure, fail, check, require, allocate, reserve, copy_size, byte_cursor_u1,
  byte_cursor_u2, bytes_or_truncated,
}
use jni2hook.ByteStream.Buffer
use jni2hook.ByteStream.Buffer.{Writer, skip, byte_buffer_u1, byte_buffer_u2, byte_buffer_bytes}
use jni2hook.ConstantPool.Entry.{CpInfo, tag_of, cp_info_slots}

-- `constant_pool`: `count` is the length of `entries`.
pub record ConstantPool : Type 0 where
  pub entries : List CpInfo
  pub capacity : ℕ

-- `sizeof(cp_info)`
abbrev pub cp_info_size : ℕ
cp_info_size = 24

-- `u2 index` once or twice, into the fields of the entry.
unfoldable pub read_index : (ℕ → CpInfo) → Reader CpInfo
read_index make = do a ← byte_cursor_u2; pure (make a)

unfoldable pub read_index_pair : (ℕ → ℕ → CpInfo) → Reader CpInfo
read_index_pair make = do a ← byte_cursor_u2; b ← byte_cursor_u2; pure (make a b)

unfoldable pub read_numeric : (List ℕ → CpInfo) → ℕ → Reader CpInfo
read_numeric make n = do value ← bytes_or_truncated n; pure (make value)

unfoldable pub read_method_handle : Reader CpInfo
read_method_handle = do
  kind ← byte_cursor_u1
  reference ← byte_cursor_u2
  pure (CpInfo.method_handle kind reference)

unfoldable pub read_unknown : Reader CpInfo
read_unknown = do check ClassfileStatus.truncated; fail ClassfileStatus.constant_tag

module _ (grants : ℕ → Bool) where
  unfoldable pub read_utf8 : Reader CpInfo
  read_utf8 = do
    n ← byte_cursor_u2
    bytes ← bytes_or_truncated n
    allocate grants (copy_size n)
    pure (CpInfo.utf8 bytes)

  -- The switch of `constant_pool_read`.
  unfoldable pub read_payload : ℕ → Reader CpInfo
  read_payload tag =
      if tag == 1
      then read_utf8
      else if tag == 3
      then read_numeric CpInfo.integer 4
      else if tag == 4
      then read_numeric CpInfo.float 4
      else if tag == 5
      then read_numeric CpInfo.long 8
      else if tag == 6
      then read_numeric CpInfo.double 8
      else if tag == 7
      then read_index CpInfo.class_info
      else if tag == 19
      then read_index CpInfo.module_info
      else if tag == 20
      then read_index CpInfo.package_info
      else if tag == 8
      then read_index CpInfo.string_info
      else if tag == 9
      then read_index_pair CpInfo.fieldref
      else if tag == 10
      then read_index_pair CpInfo.methodref
      else if tag == 11
      then read_index_pair CpInfo.interface_methodref
      else if tag == 12
      then read_index_pair CpInfo.name_and_type
      else if tag == 15
      then read_method_handle
      else if tag == 16
      then read_index CpInfo.method_type
      else if tag == 17
      then read_index_pair CpInfo.dynamic
      else if tag == 18
      then read_index_pair CpInfo.invoke_dynamic
      else read_unknown

  unfoldable pub read_entry : Reader CpInfo
  read_entry = do
    tag ← byte_cursor_u1
    entry ← read_payload tag
    check ClassfileStatus.truncated
    pure entry

  -- `for (i = 1; i < count; i++)` over the slots that are left. An entry of two slots takes the
  -- next one too, and has to find it.
  unfoldable pub read_entries : ℕ → Reader (List CpInfo)
  read_entries zero = pure []
  read_entries (suc zero) = do
    entry ← read_entry
    require (not (cp_info_slots (tag_of entry) == 2)) ClassfileStatus.constant_index
    pure (entry ∷ [])
  read_entries (suc (suc left)) = do
    entry ← read_entry
    elim (cp_info_slots (tag_of entry) == 2) [
      | true ↦ (do entries ← read_entries left; pure (entry ∷ CpInfo.empty ∷ entries))
      | false ↦ (do entries ← read_entries (suc left); pure (entry ∷ entries))
    ]

  unfoldable pub constant_pool_read : Reader ConstantPool
  constant_pool_read = do
    count ← byte_cursor_u2
    check ClassfileStatus.truncated
    require (not (ltb count 1)) ClassfileStatus.constant_index
    reserve grants count cp_info_size
    entries ← read_entries (count - 1)
    pure (record { entries = CpInfo.empty ∷ entries; capacity = count })

  abbrev u1 : ℕ → Writer
  u1 = byte_buffer_u1 grants

  abbrev u2 : ℕ → Writer
  u2 = byte_buffer_u2 grants

  abbrev block : List ℕ → Writer
  block = byte_buffer_bytes grants

  abbrev pair : ℕ → ℕ → Writer
  pair a b = Buffer.◌>>◌ (u2 a) (u2 b)

  abbrev tagged : ℕ → Writer → Result Writer
  tagged tag payload = ok (Buffer.◌>>◌ (u1 tag) payload)

  -- The body of the loop of `write_constant_pool`: an empty slot is passed over.
  unfoldable pub write_entry : CpInfo → Result Writer
  write_entry CpInfo.empty = ok skip
  write_entry (CpInfo.utf8 bytes) = tagged 1 (Buffer.◌>>◌ (u2 (length bytes)) (block bytes))
  write_entry (CpInfo.integer bytes) = tagged 3 (block bytes)
  write_entry (CpInfo.float bytes) = tagged 4 (block bytes)
  write_entry (CpInfo.long bytes) = tagged 5 (block bytes)
  write_entry (CpInfo.double bytes) = tagged 6 (block bytes)
  write_entry (CpInfo.class_info name) = tagged 7 (u2 name)
  write_entry (CpInfo.module_info name) = tagged 19 (u2 name)
  write_entry (CpInfo.package_info name) = tagged 20 (u2 name)
  write_entry (CpInfo.string_info string) = tagged 8 (u2 string)
  write_entry (CpInfo.fieldref class nat) = tagged 9 (pair class nat)
  write_entry (CpInfo.methodref class nat) = tagged 10 (pair class nat)
  write_entry (CpInfo.interface_methodref class nat) = tagged 11 (pair class nat)
  write_entry (CpInfo.name_and_type name descriptor) = tagged 12 (pair name descriptor)
  write_entry (CpInfo.method_handle kind reference) =
      tagged 15 (Buffer.◌>>◌ (u1 kind) (u2 reference))
  write_entry (CpInfo.method_type descriptor) = tagged 16 (u2 descriptor)
  write_entry (CpInfo.dynamic bootstrap nat) = tagged 17 (pair bootstrap nat)
  write_entry (CpInfo.invoke_dynamic bootstrap nat) = tagged 18 (pair bootstrap nat)
  write_entry (CpInfo.unknown tag) = err ClassfileStatus.unsupported

  unfoldable pub write_entries : List CpInfo → Result Writer
  write_entries [] = ok skip
  write_entries (entry ∷ entries) =
      bind (write_entry entry)
        (λ first. bind (write_entries entries) (λ others. ok (Buffer.◌>>◌ first others)))

  -- Slot 0 is not visited.
  unfoldable pub write_constant_pool : ConstantPool → Result Writer
  write_constant_pool pool =
      bind (write_entries (drop 1 pool.entries))
        (λ others. ok (Buffer.◌>>◌ (u2 (length pool.entries)) others))
