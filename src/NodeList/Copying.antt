-- ===== src/NodeList/Copying.antt =====
-- src/visitors/member_info.c, `member_info_copy`.
use jni2hook.Base.{
  ℕ, ◌+◌, ◌*◌, ◌≤◌, ◌<◌, ◌≡◌, refl, sym, subst, Bool, true, false, Bool-cases, ◌⊎◌, inl, inr, List,
  [], ◌∷◌, ◌++◌, append_assoc, append-nil, length, length-append, Result, ok, err, ClassfileStatus,
  if◌then◌else◌, leb, ◌==◌, bind, arith,
}
use jni2hook.ClassFile.Tree.{AttributeInfo}
use jni2hook.ConstantPool.Pool.{max_count}
use jni2hook.NodeList.Growth.{
  NodeList, empty_list, doubled, list_reserve, list_append, blank_attribute,
  attribute_info_set_info, attribute_list_reserve, attribute_list_append,
}
use jni2hook.NodeList.Members.{Member, copy_attributes, member_info_copy}
use jni2hook.NodeList.Editing.{grow_inv}

-- What copying into a list may give: no memory, or the list with the attributes behind.
abbrev pub IsCopied : List AttributeInfo → Result (NodeList AttributeInfo) → Type 0
IsCopied items r =
    (r ≡ err ClassfileStatus.out_of_memory)
    ⊎ ((list : NodeList AttributeInfo) × (r ≡ ok list) × (list.items ≡ items))

-- A list, or no memory.
abbrev Made : Result (NodeList AttributeInfo) → Type 0
Made r = (r ≡ err ClassfileStatus.out_of_memory) ⊎ ((l : NodeList AttributeInfo) × (r ≡ ok l))

Made-if :
    (b : Bool) (r s : Result (NodeList AttributeInfo)) → Made r → Made s → Made (if b then r else s)
Made-if true r s h k = h
Made-if false r s h k = k

Made-bind :
    (r : Result (NodeList AttributeInfo)) (f : NodeList AttributeInfo → NodeList AttributeInfo)
    → Made r
    → Made (bind r (λ l. ok (f l)))
Made-bind r f (inl lost) = inl (rw lost refl)
Made-bind r f (inr (l, kept)) = inr (f l, rw kept refl)

module _ (grants : ℕ → Bool) where
  Made-reserve :
      (list : NodeList AttributeInfo) (capacity : ℕ) → Made (list_reserve grants 16 list capacity)
  unfolding list_reserve
  Made-reserve list capacity =
      Made-if (leb capacity list.capacity) _ _ (inr (_, refl))
        (Made-if (grants (capacity * 16)) _ _ (inr (_, refl)) (inl refl))

  Made-append :
      (node : AttributeInfo) (list : NodeList AttributeInfo)
      → length list.items < max_count
      → Made (attribute_list_append grants node list)
  unfolding attribute_list_append list_append
  Made-append node list below =
      let room : (length list.items == max_count) ≡ false = ground arith in
      rw room (
        Made-bind _ (λ grown. record grown { items = grown.items ++ (node ∷ []) })
          (Made-if (length list.items == list.capacity) _ _
            (Made-reserve list (doubled 4 list.capacity)) (inr (list, refl))))

  set_info_cases :
      (a : AttributeInfo)
      → (attribute_info_set_info grants
            (record blank_attribute { attribute_name_index = a.attribute_name_index })
            a.info
          ≡ err ClassfileStatus.out_of_memory)
        ⊎ (attribute_info_set_info grants
              (record blank_attribute { attribute_name_index = a.attribute_name_index })
              a.info
            ≡ ok a)
  unfolding attribute_info_set_info
  set_info_cases a = elim (Bool-cases (grants (if length a.info == 0 then 1 else length a.info))) [
    | inl granted ↦ inr (rw granted refl)
    | inr refused ↦ inl (rw refused refl)
  ]

  copy_attributes_lem :
      (others : List AttributeInfo) (target : NodeList AttributeInfo)
      → length target.items + length others ≤ max_count
      → IsCopied (target.items ++ others) (copy_attributes grants others target)
  unfolding copy_attributes
  copy_attributes_lem [] target room = inr (target, refl, sym (append-nil target.items))
  copy_attributes_lem (a ∷ others) target room =
      elim (Made-append blank_attribute target (omega arith)) [
        | inl lost ↦ inl (rw lost refl)
        | inr (grown, kept) ↦ elim (set_info_cases a) [
          | inl lost ↦ inl (rw (kept, lost) refl)
          | inr copied ↦
              let longer = length-append target.items (a ∷ []) in
              rw (kept, copied)
                (subst
                  (λ items. IsCopied items (
                    copy_attributes grants others
                      (record grown { items = target.items ++ (a ∷ []) })))
                  (append_assoc target.items (a ∷ []) others)
                  (copy_attributes_lem others (record grown { items = target.items ++ (a ∷ []) })
                    (omega arith)))
        ]
      ]

  copied_member :
      (m : Member) (r : Result (NodeList AttributeInfo))
      → IsCopied m.attributes.items r
      → let copied = bind r (λ copies. ok (record m { attributes = copies })) in
        (copied ≡ err ClassfileStatus.out_of_memory)
        ⊎ ((m' : Member) × (copied ≡ ok m')
            × (m'.access_flags ≡ m.access_flags)
            × (m'.name_index ≡ m.name_index)
            × (m'.descriptor_index ≡ m.descriptor_index)
            × (m'.attributes.items ≡ m.attributes.items))
  copied_member m r (inl lost) = inl (rw lost refl)
  copied_member m r (inr (list, kept, same)) =
      inr (record m { attributes = list }, rw kept refl, refl, refl, refl, same)

-- Whatever the allocator does, copying a member of at most 65535 attributes either fails for want of
-- memory or gives a member with the same flags, name, descriptor and attributes; it never fails
-- otherwise.
pub member_info_copy-same :
    (grants : ℕ → Bool) (m : Member)
    → length m.attributes.items ≤ max_count
    → (member_info_copy grants m ≡ err ClassfileStatus.out_of_memory)
      ⊎ ((m' : Member) × (member_info_copy grants m ≡ ok m')
          × (m'.access_flags ≡ m.access_flags)
          × (m'.name_index ≡ m.name_index)
          × (m'.descriptor_index ≡ m.descriptor_index)
          × (m'.attributes.items ≡ m.attributes.items))
unfolding member_info_copy attribute_list_reserve
member_info_copy-same grants m counted =
    elim (Made-reserve grants empty_list (length m.attributes.items)) [
      | inl lost ↦ inl (rw lost refl)
      | inr (grown, kept) ↦
          let (bare, _, _) = grow_inv grants 16 empty_list (length m.attributes.items) true kept in
          rw kept (
            copied_member grants m (copy_attributes grants m.attributes.items grown) (
              subst
                (λ items.
                  IsCopied (items ++ m.attributes.items)
                    (copy_attributes grants m.attributes.items grown))
                bare (copy_attributes_lem grants m.attributes.items grown (rw bare (omega arith)))))
    ]
