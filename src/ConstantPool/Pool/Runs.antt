-- ===== src/ConstantPool/Pool/Runs.antt =====
-- src/visitors/class_file.c: a pool that interning fills, run on two names and a descriptor.
use jni2hook.Base.{
  ℕ, ◌≤◌, ◌+◌, length, ◌≡◌, refl, Bool, true, List, [], ◌∷◌, some, ok, err, leb, ClassfileStatus,
}
use jni2hook.ConstantPool.Entry.{CpInfo, tag_of, cp_info_slots}
use jni2hook.ConstantPool.Codec.{ConstantPool}
use jni2hook.ConstantPool.Pool.{
  same_bytes, max_count, present, double_to, constant_pool_init, constant_pool_at,
  constant_pool_utf8, constant_pool_reserve, constant_pool_append, find_entry, cp_info_set_utf8,
  intern, classfile_intern_utf8, classfile_intern_class, classfile_intern_name_and_type,
  classfile_intern_methodref,
}
use jni2hook.ConstantPool.Pool.Laws.{append-at}
use jni2hook.ConstantPool.Pool.Interning.{
  intern_utf8-text, intern_class-text, intern_methodref-text,
}
use jni2hook.ConstantPool.Pool.Keeping.{intern_methodref-at}

abbrev all_granted : ℕ → Bool
all_granted n = true

abbrev text_a : List ℕ
text_a = b'a' ∷ []

abbrev text_v : List ℕ
text_v = b'(' ∷ b')' ∷ b'V' ∷ []

-- A Long has filled the slots 1 and 2.
abbrev a_long : CpInfo
a_long = CpInfo.long (0 ∷ 0 ∷ 0 ∷ 0 ∷ 0 ∷ 0 ∷ 0 ∷ 7 ∷ [])

abbrev one_long : ConstantPool
one_long = record { entries = CpInfo.empty ∷ a_long ∷ CpInfo.empty ∷ []; capacity = 16 }

abbrev with_name : ConstantPool
with_name = record {
  entries = CpInfo.empty ∷ a_long ∷ CpInfo.empty ∷ CpInfo.utf8 text_a ∷ [];
  capacity = 16;
}

abbrev with_class : ConstantPool
with_class = record {
  entries = CpInfo.empty ∷ a_long ∷ CpInfo.empty ∷ CpInfo.utf8 text_a ∷ CpInfo.class_info 3 ∷ [];
  capacity = 16;
}

abbrev with_method : ConstantPool
with_method = record {
  entries =
      CpInfo.empty
      ∷ a_long
      ∷ CpInfo.empty
      ∷ CpInfo.utf8 text_a
      ∷ CpInfo.class_info 3
      ∷ CpInfo.utf8 text_v
      ∷ CpInfo.name_and_type 3 5
      ∷ CpInfo.methodref 4 6
      ∷ [];
  capacity = 16;
}

long_run : constant_pool_append all_granted constant_pool_init a_long ≡ ok (one_long, 1)
unfolding constant_pool_append constant_pool_reserve constant_pool_init double_to tag_of
    cp_info_slots
long_run = refl

name_run : classfile_intern_utf8 all_granted one_long text_a ≡ (ok 3, with_name)
unfolding classfile_intern_utf8 cp_info_set_utf8 find_entry constant_pool_append
    constant_pool_reserve double_to tag_of cp_info_slots
name_run = refl

class_run : classfile_intern_class all_granted one_long text_a ≡ (ok 4, with_class)
unfolding classfile_intern_class intern classfile_intern_utf8 cp_info_set_utf8 find_entry
    constant_pool_append constant_pool_reserve double_to tag_of cp_info_slots
class_run = refl

method_run : classfile_intern_methodref all_granted with_class 4 text_a text_v ≡ (ok 7, with_method)
unfolding classfile_intern_methodref classfile_intern_name_and_type intern same_bytes
    classfile_intern_utf8 cp_info_set_utf8 find_entry constant_pool_append constant_pool_reserve
    double_to tag_of cp_info_slots
method_run = refl

append-at_example :
    (constant_pool_at one_long 1 ≡ present (some a_long))
    × (1 ≤ 1)
    × (1 + cp_info_slots (tag_of a_long) ≤ max_count)
    × (length one_long.entries ≡ 1 + cp_info_slots (tag_of a_long))
    × (length one_long.entries ≤ one_long.capacity)
append-at_example = append-at all_granted constant_pool_init a_long one_long 1 long_run

intern_utf8-text_example :
    (constant_pool_utf8 with_name 3 ≡ some text_a)
    × (classfile_intern_utf8 all_granted with_name text_a ≡ (ok 3, with_name))
intern_utf8-text_example = intern_utf8-text all_granted one_long text_a with_name 3 name_run

intern_class-text_example :
    (n : ℕ) × (constant_pool_at with_class 4 ≡ some (CpInfo.class_info n))
    × (constant_pool_utf8 with_class n ≡ some text_a)
    × (classfile_intern_class all_granted with_class text_a ≡ (ok 4, with_class))
intern_class-text_example = intern_class-text all_granted one_long text_a with_class 4 class_run

intern_methodref-text_example :
    (nat : ℕ) × (n : ℕ) × (d : ℕ) × (constant_pool_at with_method 7 ≡ some (CpInfo.methodref 4 nat))
    × (constant_pool_at with_method nat ≡ some (CpInfo.name_and_type n d))
    × (constant_pool_utf8 with_method n ≡ some text_a)
    × (constant_pool_utf8 with_method d ≡ some text_v)
    × (classfile_intern_methodref all_granted with_method 4 text_a text_v ≡ (ok 7, with_method))
intern_methodref-text_example =
    intern_methodref-text all_granted with_class 4 text_a text_v with_method 7 method_run

-- The allocator grants up to 16 bytes, so the texts, and no larger array.
abbrev texts_only : ℕ → Bool
texts_only n = leb n 16

abbrev full_pool : ConstantPool
full_pool = record { entries = CpInfo.empty ∷ CpInfo.class_info 2 ∷ []; capacity = 4 }

-- Both texts fit; the name and type and the method reference do not.
abbrev half_done : ConstantPool
half_done = record {
  entries = CpInfo.empty ∷ CpInfo.class_info 2 ∷ CpInfo.utf8 text_a ∷ CpInfo.utf8 text_v ∷ [];
  capacity = 4;
}

half_run :
    classfile_intern_methodref texts_only full_pool 1 text_a text_v
    ≡ (err ClassfileStatus.out_of_memory, half_done)
unfolding classfile_intern_methodref classfile_intern_name_and_type intern same_bytes
    classfile_intern_utf8 cp_info_set_utf8 find_entry constant_pool_append constant_pool_reserve
    double_to tag_of cp_info_slots
half_run = refl

intern_methodref-at_example :
    constant_pool_at (classfile_intern_methodref texts_only full_pool 1 text_a text_v).1 1
    ≡ some (CpInfo.class_info 2)
unfolding constant_pool_at
intern_methodref-at_example =
    intern_methodref-at texts_only full_pool 1 text_a text_v 1 (CpInfo.class_info 2) refl
