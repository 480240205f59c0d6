-- ===== src/ConstantPool/Pool.antt =====
-- src/visitors/cp_info.c and src/visitors/class_file.c: looking entries up, appending them and
-- interning. A C string is the list of its bytes, none of them 0.
pub mod Lookup
pub mod Laws
pub mod Intern
pub mod Interning
pub mod Keeping
mod Runs
use jni2hook.Base.{
  ℕ, zero, suc, ◌+◌, ◌*◌, ◌≤◌, ◌<◌, Bool, true, false, ◌||◌, ◌&&◌, List, [], ◌∷◌, ◌++◌, Option,
  none, some, Result, ok, err, ClassfileStatus, if◌then◌else◌, ltb, leb, ◌==◌, length, get_elem?,
  drop, bind,
}
use jni2hook.ConstantPool.Entry.{CpInfo, tag_of, cp_info_slots}
use jni2hook.ConstantPool.Codec.{ConstantPool, cp_info_size}

abbrev pub max_count : ℕ
max_count = 65535

unfoldable pub constant_pool_init : ConstantPool
constant_pool_init = record { entries = []; capacity = 0 }

-- `length == other_length && memcmp(...) == 0`
unfoldable pub same_bytes : List ℕ → List ℕ → Bool
same_bytes [] [] = true
same_bytes (x ∷ xs) (y ∷ ys) = (x == y) && same_bytes xs ys
same_bytes _ _ = false

-- An entry that is not the empty slot.
abbrev pub present : Option CpInfo → Option CpInfo
present none = none
present (some CpInfo.empty) = none
present (some (CpInfo.unknown tag)) = if tag == 0 then none else some (CpInfo.unknown tag)
present (some entry) = some entry

unfoldable pub constant_pool_at : ConstantPool → ℕ → Option CpInfo
constant_pool_at pool index =
    if index == 0 || leb (length pool.entries) index
    then none
    else present (get_elem? pool.entries index)

abbrev pub utf8_of : Option CpInfo → Option (List ℕ)
utf8_of (some (CpInfo.utf8 bytes)) = some bytes
utf8_of _ = none

unfoldable pub constant_pool_utf8 : ConstantPool → ℕ → Option (List ℕ)
unfolding constant_pool_at
constant_pool_utf8 pool index = utf8_of (constant_pool_at pool index)

abbrev pub equals_found : Option (List ℕ) → List ℕ → Bool
equals_found none text = false
equals_found (some bytes) text = same_bytes bytes text

unfoldable pub constant_pool_utf8_equals : ConstantPool → ℕ → List ℕ → Bool
unfolding constant_pool_utf8 same_bytes
constant_pool_utf8_equals pool index text = equals_found (constant_pool_utf8 pool index) text

-- `while (capacity < needed)`, doubling up to the largest u2.
unfoldable pub double_to : ℕ → ℕ → ℕ → ℕ
double_to zero capacity needed = capacity
double_to (suc fuel) capacity needed =
    let more = double_to fuel (capacity * 2) needed in
    if ltb capacity needed
    then (if ltb max_count (capacity * 2) then max_count else more)
    else capacity

-- From 1 on, sixteen doublings pass the largest u2.
abbrev pub pool_capacity : ℕ → ℕ → ℕ
pool_capacity capacity needed = double_to 17 (if capacity == 0 then 16 else capacity) needed

-- The slots of the array that are in use before an entry is appended: slot 0 is never given out.
abbrev pub used_slots : List CpInfo → List CpInfo
used_slots [] = CpInfo.empty ∷ []
used_slots (slot ∷ slots) = slot ∷ slots

-- An entry and, behind a Long or a Double, the empty slot that the cleared array holds.
abbrev pub with_slots : CpInfo → List CpInfo
with_slots entry =
    if cp_info_slots (tag_of entry) == 2 then entry ∷ CpInfo.empty ∷ [] else entry ∷ []

module _ (grants : ℕ → Bool) where
  unfoldable pub constant_pool_reserve : ConstantPool → ℕ → Result ConstantPool
  constant_pool_reserve pool capacity =
      if leb capacity pool.capacity
      then ok pool
      else (if grants (capacity * cp_info_size)
          then ok (record pool { capacity = capacity })
          else err ClassfileStatus.out_of_memory)

  -- The pool with the entry, and the index that it was given.
  unfoldable pub constant_pool_append : ConstantPool → CpInfo → Result (ConstantPool × ℕ)
  constant_pool_append pool entry =
      let slots = cp_info_slots (tag_of entry) in
      let first = if ltb (length pool.entries) 1 then 1 else length pool.entries in
      if ltb max_count (first + slots)
      then err ClassfileStatus.limit_exceeded
      else bind (constant_pool_reserve pool (pool_capacity pool.capacity (first + slots))) (λ grown.
        ok (record grown { entries = used_slots pool.entries ++ with_slots entry }, first))

-- `for (i = 1; i < count; i++)`: the first index whose entry passes the test.
unfoldable pub find_entry : (CpInfo → Bool) → ℕ → List CpInfo → Option ℕ
find_entry test i [] = none
find_entry test i (entry ∷ entries) =
    let later = find_entry test (i + 1) entries in if test entry then some i else later

abbrev pub is_utf8 : List ℕ → CpInfo → Bool
is_utf8 text (CpInfo.utf8 bytes) = same_bytes bytes text
is_utf8 text _ = false

-- The test of `intern_simple` for each of the tags that it is called with.
abbrev pub is_class : ℕ → CpInfo → Bool
is_class a (CpInfo.class_info name) = name == a
is_class a _ = false

abbrev pub is_name_and_type : ℕ → ℕ → CpInfo → Bool
is_name_and_type a b (CpInfo.name_and_type name descriptor) = name == a && descriptor == b
is_name_and_type a b _ = false

abbrev pub is_methodref : ℕ → ℕ → CpInfo → Bool
is_methodref a b (CpInfo.methodref class nat) = class == a && nat == b
is_methodref a b _ = false

-- What an interning function returns: the status and `*index`, and the pool as it is then, which has
-- what was appended before a failure.
abbrev pub and_intern :
    Result ℕ × ConstantPool → (ℕ → ConstantPool → Result ℕ × ConstantPool) → Result ℕ × ConstantPool
and_intern (ok i, pool) next = next i pool
and_intern (err e, pool) next = (err e, pool)

-- An append that fails leaves the pool as it was.
abbrev pub appended : ConstantPool → Result (ConstantPool × ℕ) → Result ℕ × ConstantPool
appended pool (ok (pool', i)) = (ok i, pool')
appended pool (err e) = (err e, pool)

module _ (grants : ℕ → Bool) where
  abbrev found_or_append : ConstantPool → CpInfo → Option ℕ → Result ℕ × ConstantPool
  found_or_append pool entry none = appended pool (constant_pool_append grants pool entry)
  found_or_append pool entry (some i) = (ok i, pool)

  -- `intern_simple`: the entry that passes the test, or else the new entry, appended.
  unfoldable pub intern : (CpInfo → Bool) → CpInfo → ConstantPool → Result ℕ × ConstantPool
  intern test entry pool = found_or_append pool entry (find_entry test 1 (drop 1 pool.entries))

  -- The bytes are copied; `malloc(length ? length : 1)`.
  unfoldable pub cp_info_set_utf8 : List ℕ → Result CpInfo
  cp_info_set_utf8 bytes =
      if grants (if length bytes == 0 then 1 else length bytes)
      then ok (CpInfo.utf8 bytes)
      else err ClassfileStatus.out_of_memory

  -- A text that is not there yet is copied first.
  abbrev copied : ConstantPool → List ℕ → Option ℕ → Result ℕ × ConstantPool
  copied pool text none =
      appended pool (bind (cp_info_set_utf8 text) (λ entry. constant_pool_append grants pool entry))
  copied pool text (some i) = (ok i, pool)

  unfoldable pub classfile_intern_utf8 : ConstantPool → List ℕ → Result ℕ × ConstantPool
  classfile_intern_utf8 pool text =
      if ltb max_count (length text)
      then (err ClassfileStatus.limit_exceeded, pool)
      else copied pool text (find_entry (is_utf8 text) 1 (drop 1 pool.entries))

  unfoldable pub classfile_intern_class : ConstantPool → List ℕ → Result ℕ × ConstantPool
  classfile_intern_class pool name =
      and_intern (classfile_intern_utf8 pool name)
        (λ i pool₁. intern (is_class i) (CpInfo.class_info i) pool₁)

  unfoldable pub classfile_intern_name_and_type :
      ConstantPool → List ℕ → List ℕ → Result ℕ × ConstantPool
  classfile_intern_name_and_type pool name descriptor =
      and_intern (classfile_intern_utf8 pool name) (λ i pool₁.
        and_intern (classfile_intern_utf8 pool₁ descriptor)
          (λ j pool₂. intern (is_name_and_type i j) (CpInfo.name_and_type i j) pool₂))

  unfoldable pub classfile_intern_methodref :
      ConstantPool → ℕ → List ℕ → List ℕ → Result ℕ × ConstantPool
  classfile_intern_methodref pool class name descriptor =
      and_intern (classfile_intern_name_and_type pool name descriptor)
        (λ j pool₁. intern (is_methodref class j) (CpInfo.methodref class j) pool₁)
