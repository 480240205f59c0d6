-- ===== src/MethodLayout/Order.antt =====
-- src/class_layout.c, what the layout of a class file that parses is.
use jni2hook.Base.{
  ℕ, ◌+◌, ◌*◌, ◌≤◌, ◌≡◌, ◌⊎◌, Bool-cases, All, eq_of_test, inl, inr, refl, ap, Bool, true, false,
  ◌||◌, List, [], ◌∷◌, ◌++◌, Option, none, some, length, Result, ◌==◌, arith,
}
use jni2hook.ByteStream.Writes.{Plenty}
use jni2hook.ConstantPool.Codec.{ConstantPool}
use jni2hook.ConstantPool.Pool.{constant_pool_utf8}
use jni2hook.ClassFile.Tree.{MemberInfo, ClassFile}
use jni2hook.ClassFile.Parser.{classfile_parse}
use jni2hook.MethodLayout.Reading.{
  Jni2hookStatus, Answer, MethodInfo, MethodLayout, method_info_size, duplicate_utf8, c_string,
  read_method_info, read_method_infos, read_method_layout,
}

-- The C string is the text up to its first zero byte, or the whole text where it has none.
abbrev pub IsCString : List ℕ → List ℕ → Type 0
IsCString text string =
    All (λ b. (b == 0) ≡ false) string
    × ((text ≡ string) ⊎ ((others : List ℕ) × (text ≡ string ++ (0 ∷ others))))

-- The pool has a text under the index, and the C string is what it is to a reader of a `char *`.
abbrev pub Names : ConstantPool → ℕ → List ℕ → Type 0
Names pool index string =
    (text : List ℕ) × (constant_pool_utf8 pool index ≡ some text) × IsCString text string

-- The names and descriptors are those of the methods, one for one and in order.
abbrev pub Lists : ConstantPool → List MemberInfo → MethodLayout → Type 0
Lists pool [] [] = Unit {0}
Lists pool (m ∷ members) (info ∷ layout) =
    Names pool m.name_index info.name
    × Names pool m.descriptor_index info.descriptor
    × Lists pool members layout
Lists pool _ _ = ⊥

-- One of the methods has a name or a descriptor that is no text of the pool.
abbrev pub LacksText : ConstantPool → List MemberInfo → Type 0
LacksText pool members =
    (front : List MemberInfo) × (m : MemberInfo) × (back : List MemberInfo) × (members
      ≡ front ++ (m ∷ back))
    × ((constant_pool_utf8 pool m.name_index ≡ none)
        ⊎ (constant_pool_utf8 pool m.descriptor_index ≡ none))

-- The two ways in which reading methods ends where memory suffices.
abbrev pub IsRead : ConstantPool → List MemberInfo → Answer MethodLayout → Type 0
IsRead pool members answer =
    ((layout : MethodLayout) × (answer ≡ Answer.done layout) × Lists pool members layout)
    ⊎ ((answer ≡ Answer.failed Jni2hookStatus.class_file) × LacksText pool members)

c_string-IsCString : (text : List ℕ) → IsCString text (c_string text)
unfolding c_string
c_string-IsCString [] = (tt, inl refl)
c_string-IsCString (b ∷ bytes) =
    let (nonzero, split) = c_string-IsCString bytes in
    elim (Bool-cases (b == 0)) [
      | inl end ↦ rw end (tt, inr (bytes, ap (λ x. x ∷ bytes) (eq_of_test b 0 end)))
      | inr more ↦ rw more (
        (more, nonzero),
        elim split [
          | inl whole ↦ inl (ap (λ xs. b ∷ xs) whole)
          | inr (others, cut) ↦ inr (others, ap (λ xs. b ∷ xs) cut)
        ],
      )
    ]

module _ (grants : ℕ → Bool) (plenty : Plenty grants) (pool : ConstantPool) where
  info_cases :
      (m : MemberInfo) (name descriptor : Option (List ℕ))
      → constant_pool_utf8 pool m.name_index ≡ name
      → constant_pool_utf8 pool m.descriptor_index ≡ descriptor
      → ((info : MethodInfo) × (read_method_info grants pool m ≡ Answer.done info)
          × ((text : List ℕ) × (name ≡ some text) × IsCString text info.name)
          × ((text : List ℕ) × (descriptor ≡ some text) × IsCString text info.descriptor))
        ⊎ ((read_method_info grants pool m ≡ Answer.failed Jni2hookStatus.class_file)
            × ((name ≡ none) ⊎ (descriptor ≡ none)))
  unfolding read_method_info duplicate_utf8
  info_cases m none descriptor h k = inr (rw h refl, inl refl)
  info_cases m (some name) none h k = inr (rw (h, k) refl, inr refl)
  info_cases m (some name) (some descriptor) h k = inl (
    record { name = c_string name; descriptor = c_string descriptor },
    rw (h, k, plenty (length name + 1), plenty (length descriptor + 1)) refl,
    (name, refl, c_string-IsCString name),
    (descriptor, refl, c_string-IsCString descriptor),
  )

  infos-IsRead :
      (members : List MemberInfo) → IsRead pool members (read_method_infos grants pool members)
  unfolding read_method_infos
  infos-IsRead [] = inl ([], refl, tt)
  infos-IsRead (m ∷ members) = elim (info_cases m _ _ refl refl) [
    | inr (refused, missing) ↦ inr (rw refused refl, ([], m, members, refl, missing))
    | inl (info, read, name, descriptor) ↦ elim (infos-IsRead members) [
      | inl (layout, later, lists) ↦
          inl (info ∷ layout, rw (read, later) refl, (name, descriptor, lists))
      | inr (refused, (front, bad, back, split, missing)) ↦
          inr (rw (read, refused) refl, (m ∷ front, bad, back, ap (λ ms. m ∷ ms) split, missing))
    ]
  ]

-- With an allocator that grants every request, the layout of a class file that the parser accepts
-- holds the name and the descriptor of each method, as C strings, so each up to a first zero byte, in
-- the order of the class file, unless some method
-- has a name or a descriptor that is no text of the constant pool: then the answer is the status for a
-- bad class file.
pub read_method_layout-IsRead :
    (grants : ℕ → Bool) (class_bytes : List ℕ) (cf : ClassFile)
    → Plenty grants
    → 1 ≤ length class_bytes
    → classfile_parse grants class_bytes ≡ Result.ok cf
    → IsRead cf.constant_pool cf.methods (read_method_layout grants class_bytes)
unfolding read_method_layout
read_method_layout-IsRead grants class_bytes cf plenty some_bytes parsed =
    let going : (length class_bytes == 0) ≡ false = ground arith in
    let room : (length cf.methods == 0 || grants (length cf.methods * method_info_size)) ≡ true =
      ground (arith, plenty (length cf.methods * method_info_size)) in
    rw (going, parsed, room) (infos-IsRead grants plenty cf.constant_pool cf.methods)
