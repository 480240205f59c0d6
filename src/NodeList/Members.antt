-- ===== src/NodeList/Members.antt =====
-- src/visitors/member_info.c: one field or method, and the lists of them. A u2 of flags is a number
-- below 2 ^ 16, and a single bit of it is a quotient modulo 2.
use jni2hook.Base.{
  ℕ, ◌+◌, ◌-◌, ◌/◌, ◌%◌, Bool, true, ◌&&◌, List, [], ◌∷◌, ◌++◌, Option, none, some, length, Result,
  ok, if◌then◌else◌, ◌==◌, bind,
}
use jni2hook.ClassFile.Tree.{AttributeInfo}
use jni2hook.ConstantPool.Codec.{ConstantPool}
use jni2hook.ConstantPool.Pool.{constant_pool_utf8_equals}
use jni2hook.NodeList.Growth.{
  NodeList, empty_list, find_index, list_reserve, list_append, list_remove, blank_attribute,
  attribute_info_set_info, attribute_list_reserve, attribute_list_append,
}

-- `member_info`, with the attribute list as it stands in memory.
pub record Member : Type 0 where
  pub access_flags : ℕ
  pub name_index : ℕ
  pub descriptor_index : ℕ
  pub attributes : NodeList AttributeInfo

unfoldable member_info_init : Member
member_info_init = record {
  access_flags = 0;
  name_index = 0;
  descriptor_index = 0;
  attributes = empty_list;
}

-- `access_flags & JVM_ACC_STATIC`, which is 0x0008.
unfoldable pub member_info_is_static : Member → Bool
member_info_is_static m = m.access_flags / 8 % 2 == 1

-- `access_flags & JVM_ACC_NATIVE`, which is 0x0100.
unfoldable pub member_info_is_native : Member → Bool
member_info_is_native m = m.access_flags / 256 % 2 == 1

-- Setting a bit that is set, or clearing one that is clear, changes nothing.
unfoldable pub member_info_set_native : Member → Bool → Member
member_info_set_native m native = record m {
  access_flags =
      if m.access_flags / 256 % 2 == 1
      then (if native then m.access_flags else m.access_flags - 256)
      else (if native then m.access_flags + 256 else m.access_flags);
}

module _ (grants : ℕ → Bool) where
  -- The loop of `member_info_copy`: one element appended, and its payload copied.
  unfoldable pub copy_attributes :
      List AttributeInfo → NodeList AttributeInfo → Result (NodeList AttributeInfo)
  copy_attributes [] target = ok target
  copy_attributes (a ∷ others) target =
      bind (attribute_list_append grants blank_attribute target) (λ grown.
        bind
          (attribute_info_set_info grants
            (record blank_attribute { attribute_name_index = a.attribute_name_index }) a.info)
          (λ copy. copy_attributes others (record grown { items = target.items ++ (copy ∷ []) })))

  unfoldable pub member_info_copy : Member → Result Member
  member_info_copy source =
      bind (attribute_list_reserve grants empty_list (length source.attributes.items)) (λ empty.
        bind (copy_attributes source.attributes.items empty)
          (λ copies. ok (record source { attributes = copies })))

  unfoldable member_list_reserve : NodeList Member → ℕ → Result (NodeList Member)
  member_list_reserve list capacity = list_reserve grants 24 list capacity

  unfoldable member_list_append : NodeList Member → Result (NodeList Member)
  member_list_append list = list_append grants 24 8 member_info_init list

unfoldable member_list_remove : NodeList Member → ℕ → NodeList Member
member_list_remove list index = list_remove list index

abbrev pub has_descriptor : ConstantPool → Option (List ℕ) → ℕ → Bool
has_descriptor pool none index = true
has_descriptor pool (some descriptor) index = constant_pool_utf8_equals pool index descriptor

-- No descriptor stands for any descriptor.
unfoldable pub member_list_find :
    NodeList Member → ConstantPool → List ℕ → Option (List ℕ) → Option ℕ
member_list_find list pool name descriptor =
    find_index
      (λ m.
        constant_pool_utf8_equals pool m.name_index name
        && has_descriptor pool descriptor m.descriptor_index)
      0 list.items
