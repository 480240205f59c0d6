-- ===== src/NodeList/Growth.antt =====
-- `attribute_list`, `member_list` and `interface_list`: one array of nodes each, grown the same way.
-- `count` is the length of the items; the rest of the array is cleared.
use jni2hook.Base.{
  ℕ, zero, suc, ◌+◌, ◌*◌, Bool, true, false, List, [], ◌∷◌, ◌++◌, Option, none, some, length,
  Result, ok, err, ClassfileStatus, if◌then◌else◌, ltb, leb, ◌==◌, bind,
}
use jni2hook.ClassFile.Tree.{AttributeInfo}
use jni2hook.ConstantPool.Codec.{ConstantPool}
use jni2hook.ConstantPool.Pool.{max_count, constant_pool_utf8_equals}

pub record NodeList (A : Type 0) : Type 0 where
  pub items : List A
  pub capacity : ℕ

abbrev pub empty_list : {A : Type 0} → NodeList A
empty_list = record { items = []; capacity = 0 }

-- The elements but the one at the index.
unfoldable pub without : {A : Type 0} → ℕ → List A → List A
without i [] = []
without zero (x ∷ xs) = xs
without (suc i) (x ∷ xs) = x ∷ without i xs

-- `for (i = 0; i < count; i++)`: the first index whose element passes the test.
unfoldable pub find_index : {A : Type 0} → (A → Bool) → ℕ → List A → Option ℕ
find_index test i [] = none
find_index test i (x ∷ xs) =
    let later = find_index test (i + 1) xs in if test x then some i else later

-- The capacity asked for when the array is full; `start` is what an empty array counts as.
abbrev pub doubled : ℕ → ℕ → ℕ
doubled start capacity =
    let from = if capacity == 0 then start else capacity in
    if ltb max_count (from * 2) then max_count else from * 2

module _ (grants : ℕ → Bool) {A : Type 0} (stride : ℕ) where
  unfoldable pub list_reserve : NodeList A → ℕ → Result (NodeList A)
  list_reserve list capacity =
      if leb capacity list.capacity
      then ok list
      else (if grants (capacity * stride)
          then ok (record list { capacity = capacity })
          else err ClassfileStatus.out_of_memory)

  unfoldable pub list_append : ℕ → A → NodeList A → Result (NodeList A)
  list_append start node list =
      if length list.items == max_count
      then err ClassfileStatus.limit_exceeded
      else bind
          (if length list.items == list.capacity
            then list_reserve list (doubled start list.capacity)
            else ok list)
          (λ grown. ok (record grown { items = grown.items ++ (node ∷ []) }))

-- Past the end nothing is removed.
unfoldable pub list_remove : {A : Type 0} → NodeList A → ℕ → NodeList A
list_remove list index = record list { items = without index list.items }

abbrev pub attribute_size : ℕ
attribute_size = 16

abbrev pub blank_attribute : AttributeInfo
blank_attribute = record { attribute_name_index = 0; info = [] }

module _ (grants : ℕ → Bool) where
  unfoldable pub attribute_info_set_info : AttributeInfo → List ℕ → Result AttributeInfo
  attribute_info_set_info attribute bytes =
      if grants (if length bytes == 0 then 1 else length bytes)
      then ok (record attribute { info = bytes })
      else err ClassfileStatus.out_of_memory

  unfoldable pub attribute_list_reserve :
      NodeList AttributeInfo → ℕ → Result (NodeList AttributeInfo)
  attribute_list_reserve list capacity = list_reserve grants attribute_size list capacity

  -- The new element is what the caller stores through the pointer that it gets.
  unfoldable pub attribute_list_append :
      AttributeInfo → NodeList AttributeInfo → Result (NodeList AttributeInfo)
  attribute_list_append node list = list_append grants attribute_size 4 node list

  unfoldable interface_list_append : ℕ → NodeList ℕ → Result (NodeList ℕ)
  interface_list_append class_index list = list_append grants 2 4 class_index list

unfoldable pub attribute_list_remove : NodeList AttributeInfo → ℕ → NodeList AttributeInfo
attribute_list_remove list index = list_remove list index

abbrev pub is_named : ConstantPool → List ℕ → AttributeInfo → Bool
is_named pool name a = constant_pool_utf8_equals pool a.attribute_name_index name

-- The index of the attribute that the source returns a pointer to.
unfoldable attribute_list_find : NodeList AttributeInfo → ConstantPool → List ℕ → Option ℕ
attribute_list_find list pool name = find_index (is_named pool name) 0 list.items

abbrev pub removed_at : NodeList AttributeInfo → Option ℕ → NodeList AttributeInfo × Bool
removed_at list none = (list, false)
removed_at list (some i) = (attribute_list_remove list i, true)

unfoldable pub attribute_list_remove_named :
    NodeList AttributeInfo → ConstantPool → List ℕ → NodeList AttributeInfo × Bool
attribute_list_remove_named list pool name =
    removed_at list (find_index (is_named pool name) 0 list.items)
