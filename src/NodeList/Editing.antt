-- ===== src/NodeList/Editing.antt =====
-- src/visitors/attribute_info.c and src/visitors/member_info.c: appending, removing by name, and
-- the native flag of a member.
use jni2hook.Base.{
  ◌/◌, ◌%◌, ℕ, ◌≤◌, ◌<◌, ◌≡◌, refl, ap, Bool, true, false, Bool-cases, ◌⊎◌, inl, inr, List, [], ◌∷◌,
  ◌++◌, Option, none, some, length, length-append, All, ok, if◌then◌else◌, ◌==◌, bind-eq-ok, arith,
}
use jni2hook.ClassFile.Tree.{AttributeInfo}
use jni2hook.ConstantPool.Codec.{ConstantPool}
use jni2hook.ConstantPool.Pool.{max_count, constant_pool_utf8}
use jni2hook.NodeList.Growth.{
  NodeList, find_index, doubled, list_reserve, list_append, list_remove, attribute_list_append,
  attribute_list_remove, is_named, removed_at, attribute_list_remove_named,
}
use jni2hook.NodeList.Members.{
  Member, member_info_is_static, member_info_is_native, member_info_set_native,
}
use jni2hook.NodeList.Search.{
  find_index_inv, find_index-none, without-append, All-map, equals_inv, equals_intro,
}

module _ (grants : ℕ → Bool) {A : Type 0} (stride : ℕ) where
  pub grow_inv :
      (list : NodeList A) (capacity : ℕ) (full : Bool) {grown : NodeList A}
      → (if full then list_reserve grants stride list capacity else ok list) ≡ ok grown
      → (grown.items ≡ list.items)
        × (list.capacity ≤ grown.capacity)
        × (full ≡ true → capacity ≤ grown.capacity)
  unfolding list_reserve
  grow_inv list capacity full h = ground arith

  -- The room that the element is stored into.
  append_done :
      (start : ℕ) (node : A) (list grown list' : NodeList A)
      → 1 ≤ start
      → length list.items ≤ list.capacity
      → length list.items < max_count
      → (grown.items ≡ list.items)
        × (list.capacity ≤ grown.capacity)
        × ((length list.items == list.capacity) ≡ true
            → doubled start list.capacity ≤ grown.capacity)
      → ok (record grown { items = grown.items ++ (node ∷ []) }) ≡ ok list'
      → (list'.items ≡ list.items ++ (node ∷ []))
        × (length list'.items ≤ list'.capacity)
        × (length list'.items ≤ max_count)
  append_done start node list grown list' some_room within counted (same, wide, full) h =
      let longer = length-append list.items (node ∷ []) in
      let all : list'.items ≡ list.items ++ (node ∷ []) = ground arith in
      let size = ap (λ (l : List A). length l) all in
      elim (Bool-cases (length list.items == list.capacity)) [
        | inl at_end ↦ let room = full at_end in (all, ground arith, omega arith)
        | inr before ↦ (all, ground arith, omega arith)
      ]

  pub append_inv :
      (start : ℕ) (node : A) (list list' : NodeList A)
      → 1 ≤ start
      → length list.items ≤ list.capacity
      → length list.items ≤ max_count
      → list_append grants stride start node list ≡ ok list'
      → (list'.items ≡ list.items ++ (node ∷ []))
        × (length list'.items ≤ list'.capacity)
        × (length list'.items ≤ max_count)
  unfolding list_append
  append_inv start node list list' some_room within counted h =
      elim (Bool-cases (length list.items == max_count)) [
        | inl top ↦ ground arith
        | inr below ↦
            let (grown, first, second) = bind-eq-ok _ _ (rw below at h) in
            append_done start node list grown list' some_room within (ground arith)
              (grow_inv list (doubled start list.capacity) (length list.items == list.capacity)
                first)
              second
      ]

-- Appending an attribute to a list of at most 65535 within its array, when it succeeds, puts it last
-- behind the ones that were there, and the list is again of at most 65535 and within its array.
pub attribute_list_append-last :
    (grants : ℕ → Bool) (node : AttributeInfo) (list list' : NodeList AttributeInfo)
    → length list.items ≤ list.capacity
    → length list.items ≤ max_count
    → attribute_list_append grants node list ≡ ok list'
    → (list'.items ≡ list.items ++ (node ∷ []))
      × (length list'.items ≤ list'.capacity)
      × (length list'.items ≤ max_count)
unfolding attribute_list_append
attribute_list_append-last grants node list list' within counted h =
    append_inv grants 16 4 node list list' (omega arith) within counted h

-- What is left when the first attribute of a name is removed.
abbrev pub IsRemoved :
    ConstantPool → List ℕ → NodeList AttributeInfo → NodeList AttributeInfo → Type 0
IsRemoved pool name list list' =
    (front : List AttributeInfo) × (a : AttributeInfo) × (back : List AttributeInfo) × (list.items
      ≡ front ++ (a ∷ back))
    × (list'.items ≡ front ++ back)
    × (constant_pool_utf8 pool a.attribute_name_index ≡ some name)
    × All (λ e. ¬ (constant_pool_utf8 pool e.attribute_name_index ≡ some name)) front

module _ (pool : ConstantPool) (name : List ℕ) where
  named_false :
      (a : AttributeInfo)
      → is_named pool name a ≡ false
      → ¬ (constant_pool_utf8 pool a.attribute_name_index ≡ some name)
  named_false a h k = let t = equals_intro pool a.attribute_name_index name k in cc

  removed_lem :
      (list : NodeList AttributeInfo) (found : Option ℕ)
      → find_index (is_named pool name) 0 list.items ≡ found
      → (((removed_at list found).1 ≡ true) × IsRemoved pool name list (removed_at list found).0)
        ⊎ (removed_at list found ≡ (list, false))
          × All (λ e. ¬ (constant_pool_utf8 pool e.attribute_name_index ≡ some name)) list.items
  unfolding attribute_list_remove list_remove
  removed_lem list none h = inr (
    refl,
    All-map _ _ named_false list.items (find_index-none (is_named pool name) 0 list.items h),
  )
  removed_lem list (some k) h =
      let (n, at, f) = find_index_inv (is_named pool name) 0 list.items k h in
      let place : k ≡ length f.front = omega (arith, at, f.index) in
      inl (
        refl,
        (
          f.front,
          f.here,
          f.back,
          f.split,
          rw (place, f.split) (without-append f.front f.here f.back),
          equals_inv pool f.here.attribute_name_index name f.passes,
          All-map _ _ named_false f.front f.fails,
        ),
      )

-- Removing by name either takes away the first attribute of that name, and only it, and says so, or,
-- where no attribute has the name, leaves the list as it is and says that.
pub attribute_list_remove_named-first :
    (list : NodeList AttributeInfo) (pool : ConstantPool) (name : List ℕ)
    → (((attribute_list_remove_named list pool name).1 ≡ true)
        × IsRemoved pool name list (attribute_list_remove_named list pool name).0)
      ⊎ (attribute_list_remove_named list pool name ≡ (list, false))
        × All (λ e. ¬ (constant_pool_utf8 pool e.attribute_name_index ≡ some name)) list.items
unfolding attribute_list_remove_named
attribute_list_remove_named-first list pool name = removed_lem pool name list _ refl

-- Setting the native flag of a member, bit 8 of a u2 of flags, gives that bit the value and leaves
-- the eight bits below it and the seven above it; so the static flag stays, and setting the flag back
-- gives back the flags.
pub member_info_set_native-flags :
    (m : Member) (native : Bool)
    → m.access_flags < 65536
    → (member_info_is_native (member_info_set_native m native) ≡ native)
      × ((member_info_set_native m native).access_flags % 256 ≡ m.access_flags % 256)
      × ((member_info_set_native m native).access_flags / 512 ≡ m.access_flags / 512)
      × (member_info_is_static (member_info_set_native m native) ≡ member_info_is_static m)
      × ((member_info_set_native m native).access_flags < 65536)
      × ((member_info_set_native
            (member_info_set_native m native)
            (member_info_is_native m)).access_flags
          ≡ m.access_flags)
unfolding member_info_set_native member_info_is_native member_info_is_static
member_info_set_native-flags m true small =
    (ground arith, ground arith, ground arith, ground arith, ground arith, ground arith)
member_info_set_native-flags m false small =
    (ground arith, ground arith, ground arith, ground arith, ground arith, ground arith)
