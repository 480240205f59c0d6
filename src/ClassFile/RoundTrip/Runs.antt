-- ===== src/ClassFile/RoundTrip/Runs.antt =====
-- src/class_file_parser.c and src/class_file_writer.c on a small class file, and the theorems there.
use jni2hook.Base.{
  ℕ, ◌≡◌, refl, Bool, true, false, List, [], ◌∷◌, ◌++◌, ok, err, ClassfileStatus, arith, ◌⊎◌,
}
use jni2hook.ByteStream.Cursor.{
  ◌>>=◌, pure, check, require, allocate, reserve, byte_cursor_u1, byte_cursor_u2, byte_cursor_u4,
  bytes_or_truncated, read_many, run_whole,
}
use jni2hook.ByteStream.Buffer
use jni2hook.ByteStream.Buffer.{
  byte_buffer_init, byte_buffer_ok, byte_buffer_reserve, byte_buffer_u1, byte_buffer_u2,
  byte_buffer_u4, byte_buffer_bytes, write_many, double_until,
}
use jni2hook.ConstantPool.Entry.{CpInfo, tag_of, cp_info_slots}
use jni2hook.ConstantPool.Codec.{
  read_index, read_index_pair, read_numeric, read_utf8, read_payload, read_entry, read_entries,
  constant_pool_read, write_entry, write_entries, write_constant_pool,
}
use jni2hook.ConstantPool.RoundTrip.Layout.{IsSlots}
use jni2hook.ClassFile.Tree.{ClassFile}
use jni2hook.ClassFile.Parser.{
  read_magic, read_attribute, read_attributes, read_member, read_members, read_interfaces,
  read_class, classfile_parse,
}
use jni2hook.ClassFile.Writer.{
  write_attribute, write_attributes, write_member, write_members, write_header, write_body,
  classfile_serialize,
}
use jni2hook.ClassFile.RoundTrip.Layout.{class_bytes, IsClassFile}
use jni2hook.ClassFile.RoundTrip.Laws.{
  fitted, parse-serialize, serialize-parse, serialize_never_short, parse-append,
}
use jni2hook.MethodLayout.Reading.{read_method_layout}
use jni2hook.MethodLayout.Order.{IsRead, read_method_layout-IsRead}

abbrev always : ℕ → Bool
always n = true

-- No request beyond 8192 bytes.
abbrev scarce : ℕ → Bool
scarce n = false

abbrev some_slots : List CpInfo
some_slots =
    CpInfo.utf8 (b'A' ∷ [])
    ∷ CpInfo.class_info 1
    ∷ CpInfo.long (0 ∷ 0 ∷ 0 ∷ 0 ∷ 0 ∷ 0 ∷ 1 ∷ 44 ∷ [])
    ∷ CpInfo.empty
    ∷ CpInfo.methodref 2 1
    ∷ []

-- A class with a Long in its pool, one interface, and a method with one attribute.
abbrev small_class : ClassFile
small_class = record {
  minor_version = 0;
  major_version = 52;
  constant_pool = record { entries = CpInfo.empty ∷ some_slots; capacity = 16 };
  access_flags = 0x21;
  this_class = 2;
  super_class = 0;
  interfaces = 2 ∷ [];
  fields = [];
  methods =
      record {
        access_flags = 1;
        name_index = 1;
        descriptor_index = 1;
        attributes = record { attribute_name_index = 1; info = 7 ∷ 255 ∷ [] } ∷ [];
      }
      ∷ [];
  attributes = [];
}

some_slots-IsSlots : IsSlots some_slots
unfolding cp_info_slots tag_of
some_slots-IsSlots = IsSlots.one (CpInfo.utf8 (b'A' ∷ [])) (omega arith) refl (
    IsSlots.one (CpInfo.class_info 1) (omega arith) refl (
      IsSlots.two (CpInfo.long (0 ∷ 0 ∷ 0 ∷ 0 ∷ 0 ∷ 0 ∷ 1 ∷ 44 ∷ [])) (omega arith) refl
        (IsSlots.one (CpInfo.methodref 2 1) (omega arith) refl IsSlots.nil)))

small_class-IsClassFile : IsClassFile small_class
small_class-IsClassFile = record {
  minor = omega arith;
  major = omega arith;
  supported = omega arith;
  pool = record {
    slots = some_slots;
    shape = refl;
    in_order = some_slots-IsSlots;
    counted = omega arith;
  };
  flags = omega arith;
  this = omega arith;
  super = omega arith;
  interface_count = omega arith;
  interfaces = omega arith;
  fields = omega arith;
  methods = omega arith;
  attributes = omega arith;
}

small_class_parses : classfile_parse always (class_bytes small_class) ≡ ok (fitted small_class)
unfolding classfile_parse run_whole read_class read_magic read_attribute read_attributes read_member
    read_members read_interfaces constant_pool_read read_entries read_entry read_payload read_utf8
    read_index read_index_pair read_numeric read_many reserve allocate require check byte_cursor_u1
    byte_cursor_u2 byte_cursor_u4 bytes_or_truncated cp_info_slots tag_of ◌>>=◌ pure
small_class_parses = refl

small_class_serializes : classfile_serialize always small_class ≡ ok (class_bytes small_class)
unfolding classfile_serialize write_header write_body write_attribute write_attributes write_member
    write_members write_constant_pool write_entries write_entry write_many byte_buffer_init
    byte_buffer_ok byte_buffer_reserve byte_buffer_u1 byte_buffer_u2 byte_buffer_u4
    byte_buffer_bytes double_until Buffer.◌>>◌
small_class_serializes = refl

parse-serialize_example :
    (bytes : List ℕ) × (classfile_serialize always small_class ≡ ok bytes)
    × (classfile_parse always bytes ≡ ok (fitted small_class))
parse-serialize_example =
    parse-serialize always small_class (λ n. refl) small_class-IsClassFile (omega arith)

serialize-parse_example :
    IsClassFile (fitted small_class)
    × (classfile_serialize always (fitted small_class) ≡ ok (class_bytes small_class))
serialize-parse_example =
    serialize-parse always always (class_bytes small_class) (fitted small_class) (omega arith)
      (omega arith) (λ n. refl) small_class_parses

serialize_never_short_example :
    (classfile_serialize scarce small_class ≡ ok (class_bytes small_class))
    ⊎ (classfile_serialize scarce small_class ≡ err ClassfileStatus.out_of_memory)
serialize_never_short_example =
    serialize_never_short scarce small_class small_class-IsClassFile (omega arith)

parse-append_example :
    classfile_parse always (class_bytes small_class ++ (0 ∷ []))
    ≡ err ClassfileStatus.trailing_bytes
parse-append_example =
    parse-append always (class_bytes small_class) (fitted small_class) 0 [] (λ n. refl)
      (omega arith) small_class_parses

read_method_layout-IsRead_example :
    IsRead
      (fitted small_class).constant_pool
      small_class.methods
      (read_method_layout always (class_bytes small_class))
read_method_layout-IsRead_example =
    read_method_layout-IsRead always (class_bytes small_class) (fitted small_class) (λ n. refl)
      (omega arith) small_class_parses
