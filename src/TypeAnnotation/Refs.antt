-- ===== src/TypeAnnotation/Refs.antt =====
-- src/visitors/type_annotation.c, the list of references and writing them back. An `i4` is its 32-bit
-- pattern. A function that may stop half way gives its status, `none` for CLASSFILE_OK, and what the
-- data are afterwards.
use jni2hook.Base.{
  ℕ, zero, suc, ◌+◌, ◌-◌, ◌/◌, ◌%◌, ◌^◌, Bool, ◌||◌, List, [], ◌∷◌, Option, none, some, length,
  get_elem?, Result, ClassfileStatus, if◌then◌else◌, ltb, leb,
}
use jni2hook.ClassFile.Tree.{AttributeInfo}
use jni2hook.NodeList.Growth.{NodeList, list_append}
use jni2hook.Instruction.Node.{biased, max_code_length}

pub data TypeAnnotationRefKind : Type 0 where
  span instruction : TypeAnnotationRefKind

pub record TypeAnnotationRef : Type 0 where
  pub attribute_index : ℕ
  pub payload_offset : ℕ
  pub kind : TypeAnnotationRefKind
  pub start : ℕ
  pub end : ℕ

abbrev pub TypeAnnotationRefs : Type 0
TypeAnnotationRefs = NodeList TypeAnnotationRef

-- `sizeof(type_annotation_ref)`
abbrev type_annotation_ref_size : ℕ
type_annotation_ref_size = 20

unfoldable pub append_ref :
    (ℕ → Bool) → TypeAnnotationRef → TypeAnnotationRefs → Result TypeAnnotationRefs
append_ref grants ref refs = list_append grants type_annotation_ref_size 8 ref refs

-- A store through an index that is within the array.
unfoldable pub set_at : {A : Type 0} → ℕ → A → List A → List A
set_at i a [] = []
set_at zero a (x ∷ xs) = a ∷ xs
set_at (suc i) a (x ∷ xs) = x ∷ set_at i a xs

unfoldable pub write_u2 : ℕ → ℕ → List ℕ → List ℕ
write_u2 at value payload = set_at (at + 1) (value % 256) (set_at at (value / 256 % 256) payload)

abbrev pub is_negative : ℕ → Bool
is_negative v = leb 2147483648 v

abbrev pub ref_size : TypeAnnotationRefKind → ℕ
ref_size TypeAnnotationRefKind.span = 4
ref_size TypeAnnotationRefKind.instruction = 2

-- Behind the store of the start.
unfoldable pub flush_end :
    TypeAnnotationRefKind
    → TypeAnnotationRef
    → AttributeInfo
    → Option ClassfileStatus × AttributeInfo
flush_end TypeAnnotationRefKind.span ref a =
    if ltb (biased ref.end) (biased ref.start) || ltb (biased max_code_length) (biased ref.end)
    then (some ClassfileStatus.code_too_large, a)
    else (
      none,
      record a {
        info =
            write_u2 (ref.payload_offset + 2) ((ref.end + (4294967296 - ref.start)) % 65536) a.info;
      },
    )
flush_end TypeAnnotationRefKind.instruction ref a = (none, a)

-- The body of the loop, once the attribute is found. An attribute without a payload has length 0.
unfoldable pub flush_into :
    TypeAnnotationRef → AttributeInfo → Option ClassfileStatus × AttributeInfo
flush_into ref a =
    if ltb (length a.info) ((ref.payload_offset + ref_size ref.kind) % 2 ^ 32)
    then (some ClassfileStatus.unsupported, a)
    else (if is_negative ref.start || ltb max_code_length ref.start
        then (some ClassfileStatus.code_too_large, a)
        else flush_end ref.kind ref
            (record a { info = write_u2 ref.payload_offset (ref.start % 65536) a.info }))

abbrev pub flush_found :
    TypeAnnotationRef
    → List AttributeInfo
    → Option AttributeInfo
    → Option ClassfileStatus × List AttributeInfo
flush_found ref attributes none = (some ClassfileStatus.unsupported, attributes)
flush_found ref attributes (some a) =
    let (status, written) = flush_into ref a in
    (status, set_at ref.attribute_index written attributes)

abbrev pub unless_failed :
    {S : Type 0}
    → (S → Option ClassfileStatus × S)
    → Option ClassfileStatus × S
    → Option ClassfileStatus × S
unless_failed next (some status, s) = (some status, s)
unless_failed next (none, s) = next s

unfoldable pub type_annotation_flush :
    List TypeAnnotationRef → List AttributeInfo → Option ClassfileStatus × List AttributeInfo
type_annotation_flush [] attributes = (none, attributes)
type_annotation_flush (ref ∷ refs) attributes =
    unless_failed (type_annotation_flush refs)
      (flush_found ref attributes (get_elem? attributes ref.attribute_index))
