-- ===== src/NodeList/Runs.antt =====
-- src/visitors/attribute_info.c and src/visitors/member_info.c, run on two members of a small pool.
use jni2hook.Base.{
  ◌/◌, ◌%◌, ℕ, ◌≤◌, ◌<◌, ◌≡◌, refl, Bool, true, false, ◌⊎◌, List, [], ◌∷◌, ◌++◌, none, some, length,
  All, ok, err, ClassfileStatus, arith,
}
use jni2hook.ConstantPool.Entry.{CpInfo}
use jni2hook.ConstantPool.Codec.{ConstantPool}
use jni2hook.ConstantPool.Pool.{
  same_bytes, max_count, constant_pool_at, constant_pool_utf8, constant_pool_utf8_equals,
}
use jni2hook.ClassFile.Tree.{AttributeInfo}
use jni2hook.NodeList.Growth.{
  NodeList, find_index, list_reserve, list_append, blank_attribute, attribute_list_append,
  attribute_list_remove_named,
}
use jni2hook.NodeList.Members.{
  Member, member_info_is_static, member_info_is_native, member_info_set_native, member_info_copy,
  member_list_find,
}
use jni2hook.NodeList.Search.{IsMember, member_list_find-first, member_list_find-none}
use jni2hook.NodeList.Editing.{
  IsRemoved, attribute_list_append-last, attribute_list_remove_named-first,
  member_info_set_native-flags,
}
use jni2hook.NodeList.Copying.{member_info_copy-same}

abbrev all_granted : ℕ → Bool
all_granted n = true

abbrev text_a : List ℕ
text_a = b'a' ∷ []

abbrev text_b : List ℕ
text_b = b'b' ∷ []

abbrev two_names : ConstantPool
two_names = record {
  entries = CpInfo.empty ∷ CpInfo.utf8 text_a ∷ CpInfo.utf8 text_b ∷ [];
  capacity = 16;
}

abbrev code : AttributeInfo
code = record { attribute_name_index = 1; info = 7 ∷ [] }

abbrev one_attribute : NodeList AttributeInfo
one_attribute = record { items = code ∷ []; capacity = 1 }

abbrev two_attributes : NodeList AttributeInfo
two_attributes = record { items = code ∷ blank_attribute ∷ []; capacity = 2 }

abbrev a_member : Member
a_member = record {
  access_flags = 0x109;
  name_index = 1;
  descriptor_index = 1;
  attributes = one_attribute;
}

abbrev b_member : Member
b_member = record {
  access_flags = 0x009;
  name_index = 1;
  descriptor_index = 2;
  attributes = one_attribute;
}

abbrev members : NodeList Member
members = record { items = a_member ∷ b_member ∷ []; capacity = 8 }

append_run : attribute_list_append all_granted blank_attribute one_attribute ≡ ok two_attributes
unfolding attribute_list_append list_append list_reserve
append_run = refl

attribute_list_append-last_example :
    (two_attributes.items ≡ one_attribute.items ++ (blank_attribute ∷ []))
    × (length two_attributes.items ≤ two_attributes.capacity)
    × (length two_attributes.items ≤ max_count)
attribute_list_append-last_example =
    attribute_list_append-last all_granted blank_attribute one_attribute two_attributes
      (omega arith) (omega arith) append_run

find_run : member_list_find members two_names text_a (some text_b) ≡ some 1
unfolding member_list_find find_index constant_pool_utf8_equals constant_pool_utf8 constant_pool_at
    same_bytes
find_run = refl

missing_run : member_list_find members two_names text_b (some text_b) ≡ none
unfolding member_list_find find_index constant_pool_utf8_equals constant_pool_utf8 constant_pool_at
    same_bytes
missing_run = refl

member_list_find-first_example :
    (front : List Member) × (m : Member) × (back : List Member) × (members.items
      ≡ front ++ (m ∷ back))
    × (length front ≡ 1)
    × IsMember two_names text_a text_b m
    × All (λ e. ¬ IsMember two_names text_a text_b e) front
member_list_find-first_example = member_list_find-first members two_names text_a text_b 1 find_run

member_list_find-none_example : All (λ e. ¬ IsMember two_names text_b text_b e) members.items
member_list_find-none_example = member_list_find-none members two_names text_b text_b missing_run

attribute_list_remove_named-first_example :
    (((attribute_list_remove_named two_attributes two_names text_a).1 ≡ true)
      × IsRemoved two_names text_a two_attributes
          (attribute_list_remove_named two_attributes two_names text_a).0)
    ⊎ (attribute_list_remove_named two_attributes two_names text_a ≡ (two_attributes, false))
      × All
          (λ e. ¬ (constant_pool_utf8 two_names e.attribute_name_index ≡ some text_a))
          two_attributes.items
attribute_list_remove_named-first_example =
    attribute_list_remove_named-first two_attributes two_names text_a

member_info_set_native-flags_example :
    (member_info_is_native (member_info_set_native a_member false) ≡ false)
    × ((member_info_set_native a_member false).access_flags % 256 ≡ 0x109 % 256)
    × ((member_info_set_native a_member false).access_flags / 512 ≡ 0x109 / 512)
    × (member_info_is_static (member_info_set_native a_member false)
        ≡ member_info_is_static a_member)
    × ((member_info_set_native a_member false).access_flags < 65536)
    × ((member_info_set_native
          (member_info_set_native a_member false)
          (member_info_is_native a_member)).access_flags
        ≡ 0x109)
member_info_set_native-flags_example = member_info_set_native-flags a_member false (omega arith)

member_info_copy-same_example :
    (member_info_copy all_granted a_member ≡ err ClassfileStatus.out_of_memory)
    ⊎ ((m' : Member) × (member_info_copy all_granted a_member ≡ ok m')
        × (m'.access_flags ≡ 0x109)
        × (m'.name_index ≡ 1)
        × (m'.descriptor_index ≡ 1)
        × (m'.attributes.items ≡ code ∷ []))
member_info_copy-same_example = member_info_copy-same all_granted a_member (omega arith)
