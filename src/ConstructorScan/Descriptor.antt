-- ===== src/ConstructorScan/Descriptor.antt =====
-- src/visitors/constructor_init.c, `descriptor_slots` against the descriptors of JVMS 4.3.
use jni2hook.Base.{
  ℕ, zero, suc, ◌+◌, ◌%◌, ◌≤◌, ◌<◌, ◌≡◌, refl, ap, ◌∙◌, false, List, [], ◌∷◌, ◌++◌, append_assoc,
  Option, none, some, length, length-append, All, ◌==◌, arith,
}
use jni2hook.ByteStream.Many.{many_bytes}
use jni2hook.ConstantPool.Codec.{ConstantPool}
use jni2hook.ConstantPool.Pool.{constant_pool_utf8}
use jni2hook.ConstructorScan.Slots.{
  behind_arrays, behind_class, width, next_argument, on_argument, count_arguments, result_slots,
  slots_of_text, descriptor_slots,
}
use jni2hook.ConstructorScan.Types.{
  BaseType, letter, Element, FieldType, brackets, element_bytes, type_bytes, IsElement, IsArgument,
  element_width, slots, excess, sum, return_bytes, of_return, method_descriptor,
}

arrays_skipped :
    (n b : ℕ) (rest : List ℕ)
    → (b == 91) ≡ false
    → behind_arrays (brackets n ++ (b ∷ rest)) ≡ b ∷ rest
unfolding behind_arrays
arrays_skipped zero b rest h = rw h refl
arrays_skipped (suc n) b rest h = arrays_skipped n b rest h

class_skipped :
    (name rest : List ℕ)
    → All (λ b. (b == 59) ≡ false) name
    → behind_class (name ++ (59 ∷ rest)) ≡ some rest
unfolding behind_class
class_skipped [] rest h = refl
class_skipped (b ∷ name) rest h = rw (h.0) (class_skipped name rest h.1)

-- The code's width of a base type, and how its letter is told from the marks of a descriptor.
width-letter : (type : BaseType) → width (letter type) ≡ element_width (Element.base type)
width-letter BaseType.byte = refl
width-letter BaseType.char = refl
width-letter BaseType.double = refl
width-letter BaseType.float = refl
width-letter BaseType.int = refl
width-letter BaseType.long = refl
width-letter BaseType.short = refl
width-letter BaseType.boolean = refl

letter_apart :
    (type : BaseType)
    → ((letter type == 91) ≡ false)
      × ((letter type == 76) ≡ false)
      × ((letter type == 86) ≡ false)
      × ((letter type == 41) ≡ false)
letter_apart BaseType.byte = (refl, refl, refl, refl)
letter_apart BaseType.char = (refl, refl, refl, refl)
letter_apart BaseType.double = (refl, refl, refl, refl)
letter_apart BaseType.float = (refl, refl, refl, refl)
letter_apart BaseType.int = (refl, refl, refl, refl)
letter_apart BaseType.long = (refl, refl, refl, refl)
letter_apart BaseType.short = (refl, refl, refl, refl)
letter_apart BaseType.boolean = (refl, refl, refl, refl)

argument_element :
    (n : ℕ) (element : Element) (rest : List ℕ)
    → IsElement element
    → next_argument (brackets n ++ (element_bytes element ++ rest))
      ≡ some (element_width element, rest)
unfolding next_argument
argument_element n (Element.base type) rest h =
    let (start, class, _, _) = letter_apart type in
    rw (arrays_skipped n (letter type) rest start, class, width-letter type) refl
argument_element n (Element.object name) rest h =
    rw
      (
        append_assoc name (59 ∷ []) rest,
        arrays_skipped n 76 (name ++ (59 ∷ rest)) refl,
        class_skipped name rest h,
      )
      refl

width_positive : (element : Element) → 1 ≤ element_width element
width_positive (Element.base BaseType.byte) = omega arith
width_positive (Element.base BaseType.char) = omega arith
width_positive (Element.base BaseType.double) = omega arith
width_positive (Element.base BaseType.float) = omega arith
width_positive (Element.base BaseType.int) = omega arith
width_positive (Element.base BaseType.long) = omega arith
width_positive (Element.base BaseType.short) = omega arith
width_positive (Element.base BaseType.boolean) = omega arith
width_positive (Element.object name) = omega arith

-- The slots that the code counts are those of the specification and the excess.
counted_slots : (t : FieldType) → element_width t.element ≡ slots t + excess t
counted_slots t = ground (arith, width_positive t.element)

type_head :
    (n : ℕ) (element : Element) (rest : List ℕ)
    → (b : ℕ) × (bytes : List ℕ) × ((brackets n ++ element_bytes element) ++ rest ≡ b ∷ bytes)
      × ((b == 41) ≡ false)
type_head zero (Element.base type) rest = (letter type, rest, refl, (letter_apart type).3)
type_head zero (Element.object name) rest = (76, (name ++ (59 ∷ [])) ++ rest, refl, refl)
type_head (suc n) element rest = (91, (brackets n ++ element_bytes element) ++ rest, refl, refl)

counted_step :
    (rounds arguments b : ℕ) (bytes : List ℕ)
    → (b == 41) ≡ false
    → count_arguments (suc rounds) arguments (b ∷ bytes)
      ≡ on_argument (count_arguments rounds) arguments (next_argument (b ∷ bytes))
unfolding count_arguments
counted_step rounds arguments b bytes h = rw h refl

arguments_counted :
    (types : List FieldType) (rounds before : ℕ) (rest : List ℕ)
    → length types < rounds
    → All IsArgument types
    → before + (sum slots types + sum excess types) < 65536
    → count_arguments rounds before (many_bytes type_bytes types ++ (41 ∷ rest))
      ≡ some (before + (sum slots types + sum excess types), rest)
unfolding count_arguments
arguments_counted types zero before rest enough fit small = absurd (omega arith)
arguments_counted [] (suc rounds) before rest enough fit small =
    ap (λ n. some (n, rest)) (omega arith)
arguments_counted (t ∷ types) (suc rounds) before rest enough fit small =
    let later = many_bytes type_bytes types ++ (41 ∷ rest) in
    let (b, bytes, shape, going) = type_head t.dimensions t.element later in
    let read : next_argument (b ∷ bytes) ≡ some (element_width t.element, later) =
      rw (← shape, append_assoc (brackets t.dimensions) (element_bytes t.element) later)
        (argument_element t.dimensions t.element later fit.0) in
    let counted = read ∙ ap (λ n. some (n, later)) (counted_slots t) in
    let next = before + (slots t + excess t) in
    let whole : next % 65536 ≡ next = omega arith in
    let others = arguments_counted types rounds next rest (omega arith) fit.1 (omega arith) in
    rw
      (
        append_assoc (type_bytes t) (many_bytes type_bytes types) (41 ∷ rest),
        shape,
        counted_step rounds before b bytes going,
        counted,
        whole,
      )
      (others ∙ ap (λ n. some (n, rest)) (omega arith))

result_element :
    (n : ℕ) (element : Element)
    → result_slots (behind_arrays (brackets n ++ element_bytes element))
      ≡ some (element_width element)
result_element n (Element.base type) =
    let (start, _, filled, _) = letter_apart type in
    rw (arrays_skipped n (letter type) [] start, filled, width-letter type) refl
result_element n (Element.object name) = rw (arrays_skipped n 76 (name ++ (59 ∷ [])) refl) refl

result_counted :
    (result : Option FieldType)
    → result_slots (behind_arrays (return_bytes result))
      ≡ some (of_return slots result + of_return excess result)
unfolding behind_arrays
result_counted none = refl
result_counted (some t) = result_element t.dimensions t.element ∙ ap (λ n. some n) (counted_slots t)

length-element : (element : Element) → 1 ≤ length (element_bytes element)
length-element (Element.base type) = omega arith
length-element (Element.object name) = omega arith

length-types : (types : List FieldType) → length types ≤ length (many_bytes type_bytes types)
length-types [] = omega arith
length-types (t ∷ types) =
    let here = length-element t.element in
    let later = length-types types in
    let first = length-append (brackets t.dimensions) (element_bytes t.element) in
    let whole = length-append (type_bytes t) (many_bytes type_bytes types) in omega arith

-- For every method descriptor of JVMS 4.3, the slots counted are those that the specification gives
-- the arguments and the result, a long and a double two and everything else one, and one more for
-- each argument, or result, that is an array of longs or doubles, while those of the arguments make
-- less than 65536.
pub descriptor_slots-method :
    (pool : ConstantPool) (index : ℕ) (arguments : List FieldType) (result : Option FieldType)
    → constant_pool_utf8 pool index ≡ some (method_descriptor arguments result)
    → All IsArgument arguments
    → sum slots arguments + sum excess arguments < 65536
    → descriptor_slots pool index
      ≡ some (
        sum slots arguments + sum excess arguments,
        of_return slots result + of_return excess result,
      )
unfolding descriptor_slots slots_of_text
descriptor_slots-method pool index arguments result found fit small =
    let split = length-append (many_bytes type_bytes arguments) (41 ∷ return_bytes result) in
    let counted =
      arguments_counted arguments
        (length (many_bytes type_bytes arguments ++ (41 ∷ return_bytes result)) + 1) 0
        (return_bytes result) (let some_bytes = length-types arguments in omega arith) fit
        (omega arith) in
    let none_before : 0 + (sum slots arguments + sum excess arguments)
        ≡ sum slots arguments + sum excess arguments =
      omega arith in
    rw (found, counted, result_counted result, none_before) refl
