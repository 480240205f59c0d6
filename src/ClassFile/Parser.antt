-- ===== src/ClassFile/Parser.antt =====
-- src/class_file_parser.c.
use jni2hook.Base.{ℕ, Bool, List, ◌==◌, ltb, not, Result, ClassfileStatus, if◌then◌else◌}
use jni2hook.ByteStream.Cursor.{
  Reader, ◌>>=◌, ◌>>◌, pure, fail, check, require, allocate, reserve, copy_size, byte_cursor_u2,
  byte_cursor_u4, bytes_or_truncated, run_whole, read_many,
}
use jni2hook.ConstantPool.Codec.{constant_pool_read}
use jni2hook.ClassFile.Tree.{AttributeInfo, MemberInfo, ClassFile}

-- `sizeof` of the nodes, on the 64-bit targets.
abbrev pub attribute_info_size : ℕ
attribute_info_size = 16

abbrev pub member_info_size : ℕ
member_info_size = 24

abbrev pub class_file_size : ℕ
class_file_size = 96

abbrev pub class_magic : ℕ
class_magic = 0xCAFEBABE

abbrev pub min_supported_version : ℕ
min_supported_version = 45

-- A wrong magic number, or none.
unfoldable pub refuse_magic : Reader (Unit {0})
refuse_magic = do check ClassfileStatus.truncated; fail ClassfileStatus.magic

unfoldable pub read_magic : Reader (Unit {0})
read_magic = do magic ← byte_cursor_u4; if magic == class_magic then pure tt else refuse_magic

-- The body of the loop of `read_interfaces`.
abbrev pub read_interface : Reader ℕ
read_interface = byte_cursor_u2

module _ (grants : ℕ → Bool) where
  -- The body of the loop of `read_attributes`. The list has been given its capacity, so that
  -- `attribute_list_append` asks for nothing.
  unfoldable pub read_attribute : Reader AttributeInfo
  read_attribute = do
    name ← byte_cursor_u2
    n ← byte_cursor_u4
    payload ← bytes_or_truncated n
    allocate grants (copy_size n)
    pure (record { attribute_name_index = name; info = payload })

  unfoldable pub read_attributes : Reader (List AttributeInfo)
  read_attributes = do
    count ← byte_cursor_u2
    check ClassfileStatus.truncated
    reserve grants count attribute_info_size
    read_many count read_attribute

  -- The body of the loop of `read_members`.
  unfoldable pub read_member : Reader MemberInfo
  read_member = do
    flags ← byte_cursor_u2
    name ← byte_cursor_u2
    descriptor ← byte_cursor_u2
    check ClassfileStatus.truncated
    attributes ← read_attributes
    pure (record {
      access_flags = flags;
      name_index = name;
      descriptor_index = descriptor;
      attributes = attributes;
    })

  unfoldable pub read_members : Reader (List MemberInfo)
  read_members = do
    count ← byte_cursor_u2
    check ClassfileStatus.truncated
    reserve grants count member_info_size
    read_many count read_member

  unfoldable pub read_interfaces : Reader (List ℕ)
  read_interfaces = do
    count ← byte_cursor_u2
    check ClassfileStatus.truncated
    reserve grants count 2
    interfaces ← read_many count read_interface
    check ClassfileStatus.truncated
    pure interfaces

  -- `classfile_parse` up to the test for bytes that are left.
  unfoldable pub read_class : Reader ClassFile
  read_class = do
    allocate grants class_file_size
    read_magic
    minor ← byte_cursor_u2
    major ← byte_cursor_u2
    check ClassfileStatus.truncated
    require (not (ltb major min_supported_version)) ClassfileStatus.version
    pool ← constant_pool_read grants
    flags ← byte_cursor_u2
    this ← byte_cursor_u2
    super ← byte_cursor_u2
    check ClassfileStatus.truncated
    interfaces ← read_interfaces
    fields ← read_members
    methods ← read_members
    attributes ← read_attributes
    pure (record {
      minor_version = minor;
      major_version = major;
      constant_pool = pool;
      access_flags = flags;
      this_class = this;
      super_class = super;
      interfaces = interfaces;
      fields = fields;
      methods = methods;
      attributes = attributes;
    })

  unfoldable pub classfile_parse : List ℕ → Result ClassFile
  classfile_parse = run_whole read_class
