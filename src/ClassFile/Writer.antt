-- ===== src/ClassFile/Writer.antt =====
-- src/class_file_writer.c.
use jni2hook.Base.{ℕ, Bool, List, length, Result, ok, err, ClassfileStatus, if◌then◌else◌, bind}
use jni2hook.ByteStream.Buffer.{
  Writer, ◌>>◌, byte_buffer_init, byte_buffer_ok, byte_buffer_reserve, byte_buffer_u2,
  byte_buffer_u4, byte_buffer_bytes, write_many,
}
use jni2hook.ConstantPool.Codec.{write_constant_pool}
use jni2hook.ClassFile.Tree.{AttributeInfo, MemberInfo, ClassFile}
use jni2hook.ClassFile.Parser.{class_magic}

module _ (grants : ℕ → Bool) where
  abbrev u2 : ℕ → Writer
  u2 = byte_buffer_u2 grants

  unfoldable pub write_attribute : AttributeInfo → Writer
  write_attribute attribute =
      u2 attribute.attribute_name_index
      >> (byte_buffer_u4 grants (length attribute.info) >> byte_buffer_bytes grants attribute.info)

  unfoldable pub write_attributes : List AttributeInfo → Writer
  write_attributes attributes = u2 (length attributes) >> write_many write_attribute attributes

  unfoldable pub write_member : MemberInfo → Writer
  write_member member =
      u2 member.access_flags
      >> (u2 member.name_index
          >> (u2 member.descriptor_index >> write_attributes member.attributes))

  unfoldable pub write_members : List MemberInfo → Writer
  write_members members = u2 (length members) >> write_many write_member members

  unfoldable pub write_header : ClassFile → Writer
  write_header cf =
      byte_buffer_reserve grants 8192
      >> (byte_buffer_u4 grants class_magic >> (u2 cf.minor_version >> u2 cf.major_version))

  -- What stands behind the constant pool.
  unfoldable pub write_body : ClassFile → Writer
  write_body cf =
      u2 cf.access_flags
      >> (u2 cf.this_class
          >> (u2 cf.super_class
              >> (u2 (length cf.interfaces)
                  >> (write_many u2 cf.interfaces
                      >> (write_members cf.fields
                          >> (write_members cf.methods >> write_attributes cf.attributes))))))

  unfoldable pub classfile_serialize : ClassFile → Result (List ℕ)
  classfile_serialize cf = bind (write_constant_pool grants cf.constant_pool) (λ write_pool.
      let b = (write_header cf >> (write_pool >> write_body cf)) byte_buffer_init in
      if byte_buffer_ok b then ok b.written else err ClassfileStatus.out_of_memory)
