-- ===== src/ClassFile/RoundTrip/Writing.antt =====
-- src/class_file_writer.c: the bytes that it writes.
use jni2hook.Base.{
  ℕ, ◌<◌, ◌≡◌, refl, if◌then◌else◌, Bool, List, length, Result, ok, err, ClassfileStatus, ◌⊎◌, inl,
  inr, Bool-cases, arith, ap,
}
use jni2hook.ByteStream.Buffer.{Writer, ◌>>◌, byte_buffer_init, byte_buffer_ok, byte_buffer_u2}
use jni2hook.ByteStream.Reads.{be2}
use jni2hook.ByteStream.Many.{Writes-many}
use jni2hook.ByteStream.Writes.{
  Writes, Writes-u2, Writes-u4, Writes-bytes, Writes-then, Writes-reserve, max_size, Plenty,
}
use jni2hook.ConstantPool.RoundTrip.Layout.{pool_bytes}
use jni2hook.ConstantPool.RoundTrip.Writing.{Accepts-pool}
use jni2hook.ClassFile.Tree.{AttributeInfo, MemberInfo, ClassFile}
use jni2hook.ClassFile.Parser.{class_magic}
use jni2hook.ClassFile.Writer.{
  write_attribute, write_attributes, write_member, write_members, write_header, write_body,
  classfile_serialize,
}
use jni2hook.ClassFile.RoundTrip.Layout.{
  attribute_bytes, attributes_bytes, member_bytes, members_bytes, header_bytes, body_bytes,
  class_bytes, IsClassFile,
}

module _ (grants : ℕ → Bool) where
  pub Writes-attribute :
      (a : AttributeInfo) → Writes grants (write_attribute grants a) (attribute_bytes a)
  unfolding write_attribute
  Writes-attribute a =
      Writes-then grants _ _ (Writes-u2 grants a.attribute_name_index)
        (Writes-then grants _ _ (Writes-u4 grants (length a.info)) (Writes-bytes grants a.info))

  pub Writes-attributes :
      (l : List AttributeInfo) → Writes grants (write_attributes grants l) (attributes_bytes l)
  unfolding write_attributes
  Writes-attributes l =
      Writes-then grants _ _ (Writes-u2 grants (length l))
        (Writes-many grants attribute_bytes (write_attribute grants) Writes-attribute l)

  Writes-member : (m : MemberInfo) → Writes grants (write_member grants m) (member_bytes m)
  unfolding write_member
  Writes-member m = Writes-then grants _ _ (Writes-u2 grants m.access_flags) (
      Writes-then grants _ _ (Writes-u2 grants m.name_index) (
        Writes-then grants _ _ (Writes-u2 grants m.descriptor_index)
          (Writes-attributes m.attributes)))

  Writes-members : (l : List MemberInfo) → Writes grants (write_members grants l) (members_bytes l)
  unfolding write_members
  Writes-members l =
      Writes-then grants _ _ (Writes-u2 grants (length l))
        (Writes-many grants member_bytes (write_member grants) Writes-member l)

  Writes-header : (cf : ClassFile) → Writes grants (write_header grants cf) (header_bytes cf)
  unfolding write_header
  Writes-header cf = Writes-then grants _ _ (Writes-reserve grants 8192 (omega arith)) (
      Writes-then grants _ _ (Writes-u4 grants class_magic) (
        Writes-then grants _ _ (Writes-u2 grants cf.minor_version)
          (Writes-u2 grants cf.major_version)))

  Writes-body : (cf : ClassFile) → Writes grants (write_body grants cf) (body_bytes cf)
  unfolding write_body
  Writes-body cf = Writes-then grants _ _ (Writes-u2 grants cf.access_flags) (
      Writes-then grants _ _ (Writes-u2 grants cf.this_class) (
        Writes-then grants _ _ (Writes-u2 grants cf.super_class) (
          Writes-then grants _ _ (Writes-u2 grants (length cf.interfaces)) (
            Writes-then grants _ _
              (Writes-many grants be2 (byte_buffer_u2 grants) (Writes-u2 grants) cf.interfaces)
              (Writes-then grants _ _ (Writes-members cf.fields) (
                Writes-then grants _ _ (Writes-members cf.methods)
                  (Writes-attributes cf.attributes)))))))

  Writes-class :
      (cf : ClassFile) (write_pool : Writer)
      → Writes grants write_pool (pool_bytes cf.constant_pool)
      → Writes grants
          (write_header grants cf >> (write_pool >> write_body grants cf))
          (class_bytes cf)
  Writes-class cf write_pool h =
      Writes-then grants _ _ (Writes-header cf) (Writes-then grants _ _ h (Writes-body cf))

  finished :
      (w : Writer) (bytes : List ℕ)
      → Writes grants w bytes
      → length bytes < max_size
      → let b = w byte_buffer_init in
        let r : Result (List ℕ) =
          if byte_buffer_ok b then ok b.written else err ClassfileStatus.out_of_memory in
        ((r ≡ ok bytes) ⊎ (r ≡ err ClassfileStatus.out_of_memory)) × (Plenty grants → r ≡ ok bytes)
  unfolding byte_buffer_ok byte_buffer_init
  finished w bytes h small = elim (Bool-cases (w byte_buffer_init).fine) [
    | inl good ↦
        let same = (h.appends byte_buffer_init (omega arith) good).1 in
        (inl (rw good (ap ok same)), λ plenty. rw good (ap ok same))
    | inr bad ↦ (inr (rw bad), λ plenty. cc (h.succeeds byte_buffer_init plenty refl))
  ]

  -- A tree that the format can hold is written as its bytes, or memory runs out; the latter only
  -- where the allocator refuses a request.
  pub serialize_outcome :
      (cf : ClassFile)
      → IsClassFile cf
      → length (class_bytes cf) < max_size
      → ((classfile_serialize grants cf ≡ ok (class_bytes cf))
          ⊎ (classfile_serialize grants cf ≡ err ClassfileStatus.out_of_memory))
        × (Plenty grants → classfile_serialize grants cf ≡ ok (class_bytes cf))
  unfolding classfile_serialize
  serialize_outcome cf h small =
      let pool = Accepts-pool grants cf.constant_pool h.pool in
      rw pool.accepted (finished _ (class_bytes cf) (Writes-class cf pool.writer pool.writes) small)
