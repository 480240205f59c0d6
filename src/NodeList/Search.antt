-- ===== src/NodeList/Search.antt =====
-- src/visitors/attribute_info.c and src/visitors/member_info.c: what a search finds.
use jni2hook.Base.{
  ℕ, suc, ◌+◌, ◌≡◌, refl, ap, Bool, true, false, ◌&&◌, Bool-cases, inl, inr, List, [], ◌∷◌, ◌++◌,
  Option, none, some, length, All, arith,
}
use jni2hook.ConstantPool.Codec.{ConstantPool}
use jni2hook.ConstantPool.Pool.{equals_found, constant_pool_utf8, constant_pool_utf8_equals}
use jni2hook.ConstantPool.Pool.Lookup.{same_bytes→eq, same_bytes_self}
use jni2hook.NodeList.Growth.{NodeList, without, find_index}
use jni2hook.NodeList.Members.{Member, member_list_find}

module _ (pool : ConstantPool) (i : ℕ) (text : List ℕ) where
  pub equals_inv :
      constant_pool_utf8_equals pool i text ≡ true → constant_pool_utf8 pool i ≡ some text
  unfolding constant_pool_utf8_equals
  equals_inv h = from (constant_pool_utf8 pool i) h
    where
      from : (o : Option (List ℕ)) → equals_found o text ≡ true → o ≡ some text
      from none h = cc
      from (some bytes) h = ap some (same_bytes→eq bytes text h)

  pub equals_intro :
      constant_pool_utf8 pool i ≡ some text → constant_pool_utf8_equals pool i text ≡ true
  unfolding constant_pool_utf8_equals
  equals_intro h = rw h (same_bytes_self text)

-- A successful search splits the list at the first element that passes the test.
module _ {A : Type 0} (test : A → Bool) where
  pub record FirstAt (xs : List A) (n : ℕ) : Type 0 where
    pub front : List A
    pub here : A
    pub back : List A
    pub split : xs ≡ front ++ (here ∷ back)
    pub passes : test here ≡ true
    pub fails : All (λ x. test x ≡ false) front
    pub index : n ≡ length front

  pub find_index_inv :
      (i : ℕ) (xs : List A) (k : ℕ)
      → find_index test i xs ≡ some k
      → (n : ℕ) × (k ≡ i + n) × FirstAt xs n
  unfolding find_index
  find_index_inv i [] k h = cc
  find_index_inv i (x ∷ xs) k h = elim (Bool-cases (test x)) [
    | inl good ↦ (
      0,
      ground arith,
      record {
        front = [];
        here = x;
        back = xs;
        split = refl;
        passes = good;
        fails = tt;
        index = refl;
      },
    )
    | inr bad ↦
        let (n, at, f) = find_index_inv (i + 1) xs k (rw bad at h) in
        (
          suc n,
          omega (arith, at),
          record {
            front = x ∷ f.front;
            here = f.here;
            back = f.back;
            split = ap (λ ys. x ∷ ys) f.split;
            passes = f.passes;
            fails = (bad, f.fails);
            index = omega (arith, f.index);
          },
        )
  ]

  pub find_index-none :
      (i : ℕ) (xs : List A) → find_index test i xs ≡ none → All (λ x. test x ≡ false) xs
  unfolding find_index
  find_index-none i [] h = tt
  find_index-none i (x ∷ xs) h = elim (Bool-cases (test x)) [
    | inl good ↦ ground arith
    | inr bad ↦ (bad, find_index-none (i + 1) xs (rw bad at h))
  ]

pub without-append :
    {A : Type 0} (front : List A) (x : A) (back : List A)
    → without (length front) (front ++ (x ∷ back)) ≡ front ++ back
unfolding without
without-append [] x back = refl
without-append (y ∷ front) x back = ap (λ ys. y ∷ ys) (without-append front x back)

pub All-map :
    {A : Type 0} (P Q : A → Type 0) → ((x : A) → P x → Q x) → (xs : List A) → All P xs → All Q xs
All-map P Q f [] h = tt
All-map P Q f (x ∷ xs) h = (f x h.0, All-map P Q f xs h.1)

-- The member's name and descriptor in the pool.
abbrev pub IsMember : ConstantPool → List ℕ → List ℕ → Member → Type 0
IsMember pool name descriptor m =
    (constant_pool_utf8 pool m.name_index ≡ some name)
    × (constant_pool_utf8 pool m.descriptor_index ≡ some descriptor)

module _ (pool : ConstantPool) (name descriptor : List ℕ) where
  abbrev member_test : Member → Bool
  member_test m =
      constant_pool_utf8_equals pool m.name_index name
      && constant_pool_utf8_equals pool m.descriptor_index descriptor

  both_true : (a b : Bool) → (a && b) ≡ true → (a ≡ true) × (b ≡ true)
  both_true true true h = (refl, refl)
  both_true true false h = cc
  both_true false b h = cc

  member_test_inv : (m : Member) → member_test m ≡ true → IsMember pool name descriptor m
  member_test_inv m h =
      let (one, two) = both_true _ _ h in
      (equals_inv pool m.name_index name one, equals_inv pool m.descriptor_index descriptor two)

  member_test-false : (m : Member) → member_test m ≡ false → ¬ IsMember pool name descriptor m
  member_test-false m h (one, two) =
      let a = equals_intro pool m.name_index name one in
      let b = equals_intro pool m.descriptor_index descriptor two in ground arith

-- The member that is found by its name and descriptor has them, and no member ahead of it has.
pub member_list_find-first :
    (list : NodeList Member) (pool : ConstantPool) (name descriptor : List ℕ) (k : ℕ)
    → member_list_find list pool name (some descriptor) ≡ some k
    → (front : List Member) × (m : Member) × (back : List Member) × (list.items
        ≡ front ++ (m ∷ back))
      × (length front ≡ k)
      × IsMember pool name descriptor m
      × All (λ e. ¬ IsMember pool name descriptor e) front
unfolding member_list_find
member_list_find-first list pool name descriptor k h =
    let (n, at, f) = find_index_inv (member_test pool name descriptor) 0 list.items k h in
    (
      f.front,
      f.here,
      f.back,
      f.split,
      omega (arith, at, f.index),
      member_test_inv pool name descriptor f.here f.passes,
      All-map _ _ (member_test-false pool name descriptor) f.front f.fails,
    )

-- When no member is found by a name and a descriptor, no member of the list has both.
pub member_list_find-none :
    (list : NodeList Member) (pool : ConstantPool) (name descriptor : List ℕ)
    → member_list_find list pool name (some descriptor) ≡ none
    → All (λ e. ¬ IsMember pool name descriptor e) list.items
unfolding member_list_find
member_list_find-none list pool name descriptor h =
    All-map _ _ (member_test-false pool name descriptor) list.items
      (find_index-none (member_test pool name descriptor) 0 list.items h)
