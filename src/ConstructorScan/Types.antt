-- ===== src/ConstructorScan/Types.antt =====
-- The descriptors of JVMS 4.3 and the slots that their types take.
use jni2hook.Base.{
  ℕ, zero, suc, ◌+◌, ◌-◌, ◌≡◌, false, List, [], ◌∷◌, ◌++◌, Option, none, some, All, if◌then◌else◌,
  ◌==◌,
}
use jni2hook.ByteStream.Many.{many_bytes}

-- The base types of JVMS 4.3.2.
pub data BaseType : Type 0 where
  byte char double float int long short boolean : BaseType

abbrev pub letter : BaseType → ℕ
letter BaseType.byte = b'B'
letter BaseType.char = b'C'
letter BaseType.double = b'D'
letter BaseType.float = b'F'
letter BaseType.int = b'I'
letter BaseType.long = b'J'
letter BaseType.short = b'S'
letter BaseType.boolean = b'Z'

-- A base type, or a class by its name.
pub data Element : Type 0 where
  base : BaseType → Element
  object : List ℕ → Element

-- A field type: an element type under so many array dimensions.
pub record FieldType : Type 0 where
  pub dimensions : ℕ
  pub element : Element

abbrev pub brackets : ℕ → List ℕ
brackets zero = []
brackets (suc n) = b'[' ∷ brackets n

abbrev pub element_bytes : Element → List ℕ
element_bytes (Element.base type) = letter type ∷ []
element_bytes (Element.object name) = b'L' ∷ (name ++ (b';' ∷ []))

abbrev pub type_bytes : FieldType → List ℕ
type_bytes t = brackets t.dimensions ++ element_bytes t.element

-- A class name holds no semicolon.
abbrev pub IsElement : Element → Type 0
IsElement (Element.base type) = Unit {0}
IsElement (Element.object name) = All (λ b. (b == b';') ≡ false) name

abbrev pub IsArgument : FieldType → Type 0
IsArgument t = IsElement t.element

-- JVMS 2.6.1: a long or a double takes two slots, all else one.
abbrev pub element_width : Element → ℕ
element_width (Element.base BaseType.long) = 2
element_width (Element.base BaseType.double) = 2
element_width _ = 1

-- An array is one reference, whatever its elements are.
abbrev pub slots : FieldType → ℕ
slots t = if t.dimensions == 0 then element_width t.element else 1

-- One for an array of longs or doubles, which the code takes for two slots.
abbrev pub excess : FieldType → ℕ
excess t = if t.dimensions == 0 then 0 else element_width t.element - 1

-- The sum over a list of types.
abbrev pub sum : (FieldType → ℕ) → List FieldType → ℕ
sum f [] = 0
sum f (t ∷ types) = f t + sum f types

-- What a method returns; `none` is void.
abbrev pub return_bytes : Option FieldType → List ℕ
return_bytes none = b'V' ∷ []
return_bytes (some t) = type_bytes t

abbrev pub of_return : (FieldType → ℕ) → Option FieldType → ℕ
of_return f none = 0
of_return f (some t) = f t

abbrev pub method_descriptor : List FieldType → Option FieldType → List ℕ
method_descriptor arguments result =
    b'(' ∷ (many_bytes type_bytes arguments ++ (b')' ∷ return_bytes result))
