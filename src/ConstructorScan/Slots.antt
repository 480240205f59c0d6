-- ===== src/ConstructorScan/Slots.antt =====
-- src/visitors/constructor_init.c, `descriptor_slots`. The bytes from the cursor on are a list.
use jni2hook.Base.{
  ℕ, zero, suc, ◌+◌, ◌%◌, ◌^◌, ◌||◌, List, [], ◌∷◌, Option, none, some, length, if◌then◌else◌, ◌==◌,
}
use jni2hook.ConstantPool.Codec.{ConstantPool}
use jni2hook.ConstantPool.Pool.{constant_pool_utf8}

-- The loop over JVM_SIGNATURE_ARRAY.
unfoldable pub behind_arrays : List ℕ → List ℕ
behind_arrays [] = []
behind_arrays (b ∷ bytes) = let later = behind_arrays bytes in if b == 91 then later else b ∷ bytes

-- The loop up to JVM_SIGNATURE_ENDCLASS, and the step over it.
unfoldable pub behind_class : List ℕ → Option (List ℕ)
behind_class [] = none
behind_class (b ∷ bytes) = let later = behind_class bytes in if b == 59 then some bytes else later

-- JVM_SIGNATURE_LONG and JVM_SIGNATURE_DOUBLE take two.
abbrev pub width : ℕ → ℕ
width b = if b == 74 || b == 68 then 2 else 1

abbrev pub one_slot : Option (List ℕ) → Option (ℕ × List ℕ)
one_slot none = none
one_slot (some bytes) = some (1, bytes)

-- The body of the loop over the arguments: how many slots, and what is behind.
abbrev pub element_slots : List ℕ → Option (ℕ × List ℕ)
element_slots [] = none
element_slots (b ∷ bytes) = if b == 76 then one_slot (behind_class bytes) else some (width b, bytes)

unfoldable pub next_argument : List ℕ → Option (ℕ × List ℕ)
next_argument bytes = element_slots (behind_arrays bytes)

abbrev pub on_argument :
    (ℕ → List ℕ → Option (ℕ × List ℕ)) → ℕ → Option (ℕ × List ℕ) → Option (ℕ × List ℕ)
on_argument next arguments none = none
on_argument next arguments (some (slots, bytes)) = next ((arguments + slots) % 2 ^ 16) bytes

-- The loop, with a bound on the rounds: the slots, and what is behind JVM_SIGNATURE_ENDFUNC.
unfoldable pub count_arguments : ℕ → ℕ → List ℕ → Option (ℕ × List ℕ)
count_arguments zero arguments bytes = none
count_arguments (suc rounds) arguments [] = none
count_arguments (suc rounds) arguments (b ∷ bytes) =
    let more = on_argument (count_arguments rounds) arguments (next_argument (b ∷ bytes)) in
    if b == 41 then some (arguments, bytes) else more

-- The type that is returned.
abbrev pub result_slots : List ℕ → Option ℕ
result_slots [] = none
result_slots (b ∷ bytes) = if b == 86 then some 0 else some (width b)

abbrev pub with_result : ℕ → Option ℕ → Option (ℕ × ℕ)
with_result arguments none = none
with_result arguments (some result) = some (arguments, result)

abbrev pub behind_arguments : Option (ℕ × List ℕ) → Option (ℕ × ℕ)
behind_arguments none = none
behind_arguments (some (arguments, bytes)) =
    with_result arguments (result_slots (behind_arrays bytes))

-- A round for each byte and one more.
unfoldable pub slots_of_text : List ℕ → Option (ℕ × ℕ)
slots_of_text [] = none
slots_of_text (b ∷ bytes) =
    if b == 40
    then behind_arguments (count_arguments (length bytes + 1) 0 bytes)
    else behind_arguments (some (0, b ∷ bytes))

abbrev pub slots_of_found : Option (List ℕ) → Option (ℕ × ℕ)
slots_of_found none = none
slots_of_found (some text) = slots_of_text text

-- The slots of the arguments and of the result; `none` is the `false` of the source.
unfoldable pub descriptor_slots : ConstantPool → ℕ → Option (ℕ × ℕ)
descriptor_slots pool index = slots_of_found (constant_pool_utf8 pool index)
