-- ===== src/MethodLayout/Reading.antt =====
-- src/class_layout.c. A C string is the list of its bytes in front of the zero.
use jni2hook.Base.{
  ℕ, ◌+◌, ◌*◌, Bool, ◌||◌, not, List, [], ◌∷◌, Option, none, some, length, Result, if◌then◌else◌,
  ◌==◌,
}
use jni2hook.ConstantPool.Codec.{ConstantPool}
use jni2hook.ConstantPool.Pool.{constant_pool_utf8}
use jni2hook.ClassFile.Tree.{MemberInfo, ClassFile}
use jni2hook.ClassFile.Parser.{classfile_parse}

-- `jni2hook_status`, its success case apart.
pub data Jni2hookStatus : Type 0 where
  not_initialized no_jni no_jvmti capabilities jvmti jni : Jni2hookStatus
  java_exception class_not_cached class_file transform : Jni2hookStatus
  already_hooked not_hooked invalid_pattern not_found out_of_memory : Jni2hookStatus

-- What a function of the library returns: JNI2HOOK_OK and the value, or an error.
pub data Answer (A : Type 0) : Type 0 where
  done : A → Answer A
  failed : Jni2hookStatus → Answer A

abbrev pub and_also : {A B : Type 0} → Answer A → (A → Answer B) → Answer B
and_also (Answer.done a) next = next a
and_also (Answer.failed e) next = Answer.failed e

-- `jni2hook_method_info`
pub record MethodInfo : Type 0 where
  pub name : List ℕ
  pub descriptor : List ℕ

-- `jni2hook_method_layout`; `count` is the length of the list.
abbrev pub MethodLayout : Type 0
MethodLayout = List MethodInfo

-- `sizeof(jni2hook_method_info)`
abbrev pub method_info_size : ℕ
method_info_size = 16

-- What a reader of a `char *` sees of the bytes: those in front of the first zero.
unfoldable pub c_string : List ℕ → List ℕ
c_string [] = []
c_string (b ∷ bytes) = if b == 0 then [] else b ∷ c_string bytes

module _ (grants : ℕ → Bool) where
  -- The copy of a text that is there, with a zero behind it, or the null pointer.
  abbrev pub duplicate_found : Option (List ℕ) → Option (List ℕ)
  duplicate_found none = none
  duplicate_found (some text) = if grants (length text + 1) then some (c_string text) else none

  unfoldable pub duplicate_utf8 : ConstantPool → ℕ → Option (List ℕ)
  duplicate_utf8 pool index = duplicate_found (constant_pool_utf8 pool index)

  abbrev pub both_copied : Option (List ℕ) → Option (List ℕ) → Answer MethodInfo
  both_copied (some name) (some descriptor) =
      Answer.done (record { name = name; descriptor = descriptor })
  both_copied _ _ = Answer.failed Jni2hookStatus.out_of_memory

  abbrev pub is_there : Option (List ℕ) → Bool
  is_there none = Bool.false
  is_there (some text) = Bool.true

  -- The body of the loop.
  unfoldable pub read_method_info : ConstantPool → MemberInfo → Answer MethodInfo
  read_method_info pool m =
      if not (is_there (constant_pool_utf8 pool m.name_index))
        || not (is_there (constant_pool_utf8 pool m.descriptor_index))
      then Answer.failed Jni2hookStatus.class_file
      else both_copied (duplicate_utf8 pool m.name_index) (duplicate_utf8 pool m.descriptor_index)

  unfoldable pub read_method_infos : ConstantPool → List MemberInfo → Answer MethodLayout
  read_method_infos pool [] = Answer.done []
  read_method_infos pool (m ∷ others) =
      and_also (read_method_info pool m)
        (λ info. and_also (read_method_infos pool others) (λ later. Answer.done (info ∷ later)))

  -- Behind the parser.
  abbrev pub layout_of : Result ClassFile → Answer MethodLayout
  layout_of (Result.err e) = Answer.failed Jni2hookStatus.class_file
  layout_of (Result.ok cf) =
      if length cf.methods == 0 || grants (length cf.methods * method_info_size)
      then read_method_infos cf.constant_pool cf.methods
      else Answer.failed Jni2hookStatus.out_of_memory

  unfoldable pub read_method_layout : List ℕ → Answer MethodLayout
  read_method_layout class_bytes =
      if length class_bytes == 0
      then Answer.failed Jni2hookStatus.class_file
      else layout_of (classfile_parse grants class_bytes)
