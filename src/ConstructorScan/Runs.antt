-- ===== src/ConstructorScan/Runs.antt =====
-- The code of src/visitors/constructor_init.c at concrete inputs.
use jni2hook.Base.{◌≡◌, refl, List, [], ◌∷◌, some, arith}
use jni2hook.ConstantPool.Entry.{CpInfo}
use jni2hook.ConstantPool.Codec.{ConstantPool}
use jni2hook.ConstantPool.Pool.{constant_pool_utf8, constant_pool_at}
use jni2hook.ConstructorScan.Slots.{descriptor_slots}
use jni2hook.ConstructorScan.Types.{BaseType, Element, FieldType, method_descriptor}
use jni2hook.ConstructorScan.Descriptor.{descriptor_slots-method}

-- I, [I, F, D, [LA; and [J
abbrev types : List FieldType
types =
    record { dimensions = 0; element = Element.base BaseType.int }
    ∷ record { dimensions = 1; element = Element.base BaseType.int }
    ∷ record { dimensions = 0; element = Element.base BaseType.float }
    ∷ record { dimensions = 0; element = Element.base BaseType.double }
    ∷ record { dimensions = 1; element = Element.object (65 ∷ []) }
    ∷ record { dimensions = 1; element = Element.base BaseType.long }
    ∷ []

abbrev long_result : FieldType
long_result = record { dimensions = 0; element = Element.base BaseType.long }

abbrev pool : ConstantPool
pool = record {
  entries = CpInfo.empty ∷ CpInfo.utf8 (method_descriptor types (some long_result)) ∷ [];
  capacity = 2;
}

the_text : constant_pool_utf8 pool 1 ≡ some (method_descriptor types (some long_result))
unfolding constant_pool_utf8 constant_pool_at
the_text = refl

-- Seven slots, counted as eight.
descriptor_slots-method_example : descriptor_slots pool 1 ≡ some (8, 2)
descriptor_slots-method_example =
    descriptor_slots-method pool 1 types (some long_result) the_text
      (tt, (tt, (tt, (tt, ((refl, tt), (tt, tt)))))) (omega arith)
