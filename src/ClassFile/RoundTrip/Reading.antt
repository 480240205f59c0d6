-- ===== src/ClassFile/RoundTrip/Reading.antt =====
-- src/class_file_parser.c: what it reads from the bytes of a tree, and from any bytes.
use jni2hook.Base.{ℕ, ◌≡◌, Bool, true, List, ◌++◌, length, All, arith}
use jni2hook.ByteStream.Cursor.{byte_cursor_u2, copy_size}
use jni2hook.ByteStream.Reads.{
  be2, be4, Reads, Reads-bind, Reads-then, Reads-last, Reads-pure, Reads-check, Reads-require,
  Reads-u2, Reads-u4, Reads-bytes, Reads-allocate, Reads-reserve,
}
use jni2hook.ByteStream.Many.{many_bytes, Reads-many}
use jni2hook.ConstantPool.Entry.{IsU2}
use jni2hook.ConstantPool.RoundTrip.Reading.{Reads-pool}
use jni2hook.ClassFile.Tree.{AttributeInfo, MemberInfo, ClassFile}
use jni2hook.ClassFile.Parser.{
  class_magic, read_magic, read_attribute, read_attributes, read_member, read_members,
  read_interfaces, read_class,
}
use jni2hook.ClassFile.RoundTrip.Layout.{
  attribute_bytes, attributes_bytes, member_bytes, members_bytes, class_bytes, IsAttribute,
  IsAttributes, IsMember, IsMembers, IsClassFile,
}

Reads-magic : Reads read_magic (be4 class_magic) tt
unfolding read_magic
Reads-magic = Reads-last _ _ (Reads-u4 class_magic (omega arith)) (Reads-pure tt)

module _ (grants : ℕ → Bool) (plenty : (n : ℕ) → grants n ≡ true) where
  pub Reads-attribute :
      (a : AttributeInfo) → IsAttribute a → Reads (read_attribute grants) (attribute_bytes a) a
  unfolding read_attribute
  Reads-attribute a (name, sized, bytes) = Reads-bind _ _ (Reads-u2 _ name) (
      Reads-bind _ _ (Reads-u4 _ sized) (
        Reads-last _ _ (Reads-bytes a.info) (
          Reads-then _ _ (Reads-allocate grants (copy_size (length a.info)) plenty)
            (Reads-pure a))))

  pub Reads-attributes :
      (l : List AttributeInfo)
      → IsAttributes l
      → Reads (read_attributes grants) (attributes_bytes l) l
  unfolding read_attributes
  Reads-attributes l (counted, fit) = Reads-bind _ _ (Reads-u2 _ counted) (
      Reads-then _ _ (Reads-check _) (
        Reads-then _ _ (Reads-reserve grants (length l) 16 plenty)
          (Reads-many attribute_bytes IsAttribute _ Reads-attribute l fit)))

  Reads-member : (m : MemberInfo) → IsMember m → Reads (read_member grants) (member_bytes m) m
  unfolding read_member
  Reads-member m (flags, name, descriptor, attributes) = Reads-bind _ _ (Reads-u2 _ flags) (
      Reads-bind _ _ (Reads-u2 _ name) (
        Reads-bind _ _ (Reads-u2 _ descriptor) (
          Reads-then _ _ (Reads-check _)
            (Reads-last _ _ (Reads-attributes m.attributes attributes) (Reads-pure m)))))

  Reads-members :
      (l : List MemberInfo) → IsMembers l → Reads (read_members grants) (members_bytes l) l
  unfolding read_members
  Reads-members l (counted, fit) = Reads-bind _ _ (Reads-u2 _ counted) (
      Reads-then _ _ (Reads-check _) (
        Reads-then _ _ (Reads-reserve grants (length l) 24 plenty)
          (Reads-many member_bytes IsMember _ Reads-member l fit)))

  Reads-interfaces :
      (l : List ℕ)
      → IsU2 (length l)
      → All IsU2 l
      → Reads (read_interfaces grants) (be2 (length l) ++ many_bytes be2 l) l
  unfolding read_interfaces
  Reads-interfaces l counted fit = Reads-bind _ _ (Reads-u2 _ counted) (
      Reads-then _ _ (Reads-check _) (
        Reads-then _ _ (Reads-reserve grants (length l) 2 plenty) (
          Reads-last _ _ (Reads-many be2 IsU2 byte_cursor_u2 Reads-u2 l fit)
            (Reads-then _ _ (Reads-check _) (Reads-pure l)))))

  -- The tree as the parser holds it: the pool's array has the capacity that it needs.
  pub Reads-class :
      (cf : ClassFile)
      → IsClassFile cf
      → Reads (read_class grants) (class_bytes cf) (record cf {
        constant_pool = record {
          entries = cf.constant_pool.entries;
          capacity = length cf.constant_pool.entries;
        };
      })
  unfolding read_class
  Reads-class cf h = Reads-then _ _ (Reads-allocate grants 96 plenty) (
      Reads-bind _ _ Reads-magic (
        Reads-bind _ _ (Reads-u2 _ h.minor) (
          Reads-bind _ _ (Reads-u2 _ h.major) (
            Reads-then _ _ (Reads-check _) (
              Reads-then _ _ (Reads-require _ _ (ground (arith, h.supported))) (
                Reads-bind _ _ (Reads-pool grants plenty cf.constant_pool h.pool) (
                  Reads-bind _ _ (Reads-u2 _ h.flags) (
                    Reads-bind _ _ (Reads-u2 _ h.this) (
                      Reads-bind _ _ (Reads-u2 _ h.super) (
                        Reads-then _ _ (Reads-check _) (
                          Reads-bind _ _
                            (Reads-interfaces cf.interfaces h.interface_count h.interfaces)
                            (Reads-bind _ _ (Reads-members cf.fields h.fields) (
                              Reads-bind _ _ (Reads-members cf.methods h.methods) (
                                Reads-last _ _ (Reads-attributes cf.attributes h.attributes)
                                  (Reads-pure _)))))))))))))))
