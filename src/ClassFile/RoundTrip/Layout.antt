-- ===== src/ClassFile/RoundTrip/Layout.antt =====
-- The class file format (JVMS 4.1, 4.5 to 4.7) as bytes, independent of the parser and the writer,
-- and which trees it can hold.
use jni2hook.Base.{ℕ, ◌<◌, ◌≤◌, ◌^◌, List, ◌++◌, length, All}
use jni2hook.ByteStream.Cursor.{IsByte}
use jni2hook.ByteStream.Reads.{be2, be4}
use jni2hook.ByteStream.Many.{many_bytes}
use jni2hook.ConstantPool.Entry.{IsU2}
use jni2hook.ConstantPool.RoundTrip.Layout.{pool_bytes, IsPool}
use jni2hook.ClassFile.Tree.{AttributeInfo, MemberInfo, ClassFile}
use jni2hook.ClassFile.Parser.{class_magic}

abbrev pub attribute_bytes : AttributeInfo → List ℕ
attribute_bytes attribute =
    be2 attribute.attribute_name_index ++ (be4 (length attribute.info) ++ attribute.info)

abbrev pub attributes_bytes : List AttributeInfo → List ℕ
attributes_bytes attributes = be2 (length attributes) ++ many_bytes attribute_bytes attributes

abbrev pub member_bytes : MemberInfo → List ℕ
member_bytes member =
    be2 member.access_flags
    ++ (be2 member.name_index
        ++ (be2 member.descriptor_index ++ attributes_bytes member.attributes))

abbrev pub members_bytes : List MemberInfo → List ℕ
members_bytes members = be2 (length members) ++ many_bytes member_bytes members

abbrev pub header_bytes : ClassFile → List ℕ
header_bytes cf = be4 class_magic ++ (be2 cf.minor_version ++ be2 cf.major_version)

abbrev pub body_bytes : ClassFile → List ℕ
body_bytes cf =
    be2 cf.access_flags
    ++ (be2 cf.this_class
        ++ (be2 cf.super_class
            ++ (be2 (length cf.interfaces)
                ++ (many_bytes be2 cf.interfaces
                    ++ (members_bytes cf.fields
                        ++ (members_bytes cf.methods ++ attributes_bytes cf.attributes))))))

abbrev pub class_bytes : ClassFile → List ℕ
class_bytes cf = header_bytes cf ++ (pool_bytes cf.constant_pool ++ body_bytes cf)

-- What the fields' widths and the counts can hold.
abbrev pub IsAttribute : AttributeInfo → Type 0
IsAttribute attribute =
    IsU2 attribute.attribute_name_index
    × (length attribute.info < 2 ^ 32)
    × All IsByte attribute.info

abbrev pub IsAttributes : List AttributeInfo → Type 0
IsAttributes attributes = IsU2 (length attributes) × All IsAttribute attributes

abbrev pub IsMember : MemberInfo → Type 0
IsMember member =
    IsU2 member.access_flags
    × IsU2 member.name_index
    × IsU2 member.descriptor_index
    × IsAttributes member.attributes

abbrev pub IsMembers : List MemberInfo → Type 0
IsMembers members = IsU2 (length members) × All IsMember members

pub record IsClassFile (cf : ClassFile) : Type 0 where
  pub minor : IsU2 cf.minor_version
  pub major : IsU2 cf.major_version
  pub supported : 45 ≤ cf.major_version
  pub pool : IsPool cf.constant_pool
  pub flags : IsU2 cf.access_flags
  pub this : IsU2 cf.this_class
  pub super : IsU2 cf.super_class
  pub interface_count : IsU2 (length cf.interfaces)
  pub interfaces : All IsU2 cf.interfaces
  pub fields : IsMembers cf.fields
  pub methods : IsMembers cf.methods
  pub attributes : IsAttributes cf.attributes
