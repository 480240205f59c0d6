-- ===== src/ClassFile/Tree.antt =====
-- include/jni2hook/utils/visitors: the nodes of a class file. An owned array is the list of its
-- elements, and a count is the length of its list.
use jni2hook.Base.{ℕ, List}
use jni2hook.ConstantPool.Codec.{ConstantPool}

-- `attribute_info`; `attribute_length` is the length of `info`.
pub record AttributeInfo : Type 0 where
  pub attribute_name_index : ℕ
  pub info : List ℕ

-- `member_info`, a field or a method.
pub record MemberInfo : Type 0 where
  pub access_flags : ℕ
  pub name_index : ℕ
  pub descriptor_index : ℕ
  pub attributes : List AttributeInfo

pub record ClassFile : Type 0 where
  pub minor_version : ℕ
  pub major_version : ℕ
  pub constant_pool : ConstantPool
  pub access_flags : ℕ
  pub this_class : ℕ
  pub super_class : ℕ
  pub interfaces : List ℕ
  pub fields : List MemberInfo
  pub methods : List MemberInfo
  pub attributes : List AttributeInfo
