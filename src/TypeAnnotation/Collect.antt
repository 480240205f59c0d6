-- ===== src/TypeAnnotation/Collect.antt =====
-- src/visitors/type_annotation.c, finding the bytecode offsets inside an attribute. A `false` of a
-- skipping function makes its caller return CLASSFILE_ERR_TRUNCATED.
use jni2hook.Base.{
  ℕ, zero, suc, ◌+◌, Bool, ◌&&◌, ◌||◌, List, [], ◌∷◌, Result, ok, bind, ClassfileStatus,
  if◌then◌else◌, leb, ◌==◌,
}
use jni2hook.ByteStream.Cursor.{
  Reader, ◌>>=◌, ◌>>◌, pure, fail, check, byte_cursor_u1, byte_cursor_u2, run_whole,
}
use jni2hook.ConstantPool.Codec.{ConstantPool}
use jni2hook.ConstantPool.Pool.{constant_pool_utf8_equals}
use jni2hook.Instruction.Decode.{read_position}
use jni2hook.TypeAnnotation.Refs.{
  TypeAnnotationRef, TypeAnnotationRefKind, TypeAnnotationRefs, append_ref,
}

-- A loop around a body that keeps nothing.
unfoldable pub repeat : ℕ → Reader (Unit {0}) → Reader (Unit {0})
repeat zero body = pure tt
repeat (suc count) body = do body; repeat count body

-- `(void)byte_cursor_u1(c)` and the same for a u2.
abbrev pub skip_u1 : Reader (Unit {0})
skip_u1 = byte_cursor_u1 >>= λ v. pure tt

abbrev pub skip_u2 : Reader (Unit {0})
skip_u2 = byte_cursor_u2 >>= λ v. pure tt

-- The body of `skip_annotation` over the function that skips a value.
unfoldable pub skip_pairs : Reader (Unit {0}) → Reader (Unit {0})
skip_pairs value = do
  skip_u2
  pairs ← byte_cursor_u2
  check ClassfileStatus.truncated
  repeat pairs (do skip_u2; value)
  check ClassfileStatus.truncated

-- The tags of a constant: B C D F I J S Z s c.
abbrev pub is_constant_tag : ℕ → Bool
is_constant_tag tag =
    (leb 66 tag && leb tag 68)
    || tag == 70
    || (tag == 73 || tag == 74)
    || (tag == 83 || tag == 90)
    || (tag == 115 || tag == 99)

-- The switch of `skip_element_value` over the functions that skip what is nested.
unfoldable pub skip_tagged : Reader (Unit {0}) → Reader (Unit {0}) → ℕ → Reader (Unit {0})
skip_tagged annotation value tag =
    if is_constant_tag tag
    then skip_u2
    else (if tag == 101
        then (do skip_u2; skip_u2)
        else (if tag == 64
            then annotation
            else (if tag == 91
                then (do
                  values ← byte_cursor_u2
                  check ClassfileStatus.truncated
                  repeat values value)
                else fail ClassfileStatus.truncated)))

unfoldable pub skip_value : Reader (Unit {0}) → Reader (Unit {0}) → Reader (Unit {0})
skip_value annotation value = do
  tag ← byte_cursor_u1
  check ClassfileStatus.truncated
  skip_tagged annotation value tag
  check ClassfileStatus.truncated

-- `skip_annotation` and `skip_element_value` with so many levels left before the cap.
unfoldable pub skipping : ℕ → Reader (Unit {0}) × Reader (Unit {0})
skipping zero = (fail ClassfileStatus.truncated, fail ClassfileStatus.truncated)
skipping (suc levels) =
    let (annotation, value) = skipping levels in (skip_pairs value, skip_value annotation value)

-- Depths 0 to 32 are allowed.
abbrev pub max_annotation_depth : ℕ
max_annotation_depth = 32

unfoldable pub skip_annotation : Reader (Unit {0})
skip_annotation = (skipping (max_annotation_depth + 1)).0

module _ (grants : ℕ → Bool) (attribute_index : ℕ) where
  unfoldable pub noted : TypeAnnotationRef → TypeAnnotationRefs → Reader TypeAnnotationRefs
  noted ref refs c = bind (append_ref grants ref refs) (λ longer. ok (longer, c))

  -- The body of the loop over a localvar_target.
  unfoldable pub read_span : TypeAnnotationRefs → Reader TypeAnnotationRefs
  read_span refs = do
    at ← read_position
    start ← byte_cursor_u2
    size ← byte_cursor_u2
    skip_u2
    check ClassfileStatus.truncated
    noted
        (record {
          attribute_index = attribute_index;
          payload_offset = at;
          kind = TypeAnnotationRefKind.span;
          start = start;
          end = start + size;
        })
        refs

  unfoldable pub read_spans : ℕ → TypeAnnotationRefs → Reader TypeAnnotationRefs
  read_spans zero refs = pure refs
  read_spans (suc entries) refs = do longer ← read_span refs; read_spans entries longer

  -- The value of an offset_target or a type_argument_target, with what follows it.
  unfoldable pub read_place : Reader (Unit {0}) → TypeAnnotationRefs → Reader TypeAnnotationRefs
  read_place behind refs = do
    at ← read_position
    value ← byte_cursor_u2
    behind
    check ClassfileStatus.truncated
    noted
        (record {
          attribute_index = attribute_index;
          payload_offset = at;
          kind = TypeAnnotationRefKind.instruction;
          start = value;
          end = 0;
        })
        refs

  -- The switch over the target type.
  unfoldable pub read_targeted : ℕ → TypeAnnotationRefs → Reader TypeAnnotationRefs
  read_targeted target_type refs =
      if leb target_type 1 || target_type == 22
      then (do skip_u1; pure refs)
      else (if target_type == 16 || target_type == 23 || target_type == 66
          then (do skip_u2; pure refs)
          else (if target_type == 17 || target_type == 18
              then (do skip_u1; skip_u1; pure refs)
              else (if leb 19 target_type && leb target_type 21
                  then pure refs
                  else (if target_type == 64 || target_type == 65
                      then (do
                        entries ← byte_cursor_u2
                        check ClassfileStatus.truncated
                        read_spans entries refs)
                      else (if leb 67 target_type && leb target_type 70
                          then read_place (pure tt) refs
                          else (if leb 71 target_type && leb target_type 75
                              then read_place skip_u1 refs
                              else fail ClassfileStatus.unsupported))))))

  -- `read_target`
  unfoldable pub read_annotation_target : ℕ → TypeAnnotationRefs → Reader TypeAnnotationRefs
  read_annotation_target target_type refs = do
    longer ← read_targeted target_type refs
    check ClassfileStatus.truncated
    pure longer

  -- The body of the loop of `type_annotation_collect`.
  unfoldable pub read_type_annotation : TypeAnnotationRefs → Reader TypeAnnotationRefs
  read_type_annotation refs = do
    target_type ← byte_cursor_u1
    check ClassfileStatus.truncated
    longer ← read_annotation_target target_type refs
    path_length ← byte_cursor_u1
    check ClassfileStatus.truncated
    repeat path_length (do skip_u1; skip_u1)
    check ClassfileStatus.truncated
    skip_annotation
    pure longer

  unfoldable pub read_type_annotations : ℕ → TypeAnnotationRefs → Reader TypeAnnotationRefs
  read_type_annotations zero refs = pure refs
  read_type_annotations (suc count) refs = do
    longer ← read_type_annotation refs
    read_type_annotations count longer

  unfoldable pub type_annotation_collect : List ℕ → TypeAnnotationRefs → Result TypeAnnotationRefs
  type_annotation_collect payload refs =
      run_whole
        (do
          count ← byte_cursor_u2
          check ClassfileStatus.truncated
          read_type_annotations count refs)
        payload

-- RuntimeVisibleTypeAnnotations
abbrev pub visible_name : List ℕ
visible_name =
    82 ∷ 117 ∷ 110 ∷ 116 ∷ 105 ∷ 109 ∷ 101 ∷ 86 ∷ 105 ∷ 115 ∷ 105 ∷ 98 ∷ 108 ∷ 101 ∷ 84 ∷ 121 ∷ 112
    ∷ 101 ∷ 65 ∷ 110 ∷ 110 ∷ 111 ∷ 116 ∷ 97 ∷ 116 ∷ 105 ∷ 111 ∷ 110 ∷ 115 ∷ []

-- RuntimeInvisibleTypeAnnotations
abbrev pub invisible_name : List ℕ
invisible_name =
    82 ∷ 117 ∷ 110 ∷ 116 ∷ 105 ∷ 109 ∷ 101 ∷ 73 ∷ 110 ∷ 118 ∷ 105 ∷ 115 ∷ 105 ∷ 98 ∷ 108 ∷ 101 ∷ 84
    ∷ 121 ∷ 112 ∷ 101 ∷ 65 ∷ 110 ∷ 110 ∷ 111 ∷ 116 ∷ 97 ∷ 116 ∷ 105 ∷ 111 ∷ 110 ∷ 115 ∷ []

unfoldable pub type_annotation_is_carrier : ConstantPool → ℕ → Bool
type_annotation_is_carrier pool name_index =
    constant_pool_utf8_equals pool name_index visible_name
    || constant_pool_utf8_equals pool name_index invisible_name
