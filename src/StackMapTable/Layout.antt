-- ===== src/StackMapTable/Layout.antt =====
-- The StackMapTable attribute (JVMS 4.7.4) as bytes.
use jni2hook.Base.{
  ℕ, ◌+◌, ◌-◌, ◌^◌, ◌≤◌, Bool, false, ◌&&◌, List, [], ◌∷◌, ◌++◌, length, take, if◌then◌else◌, leb,
  ◌==◌,
}
use jni2hook.ByteStream.Reads.{be1, be2}
use jni2hook.ByteStream.Many.{many_bytes}
use jni2hook.StackMapTable.Codec.{FrameKind, VerificationType, StackMapFrame, delta_of}

abbrev pub item_bytes : ℕ → ℕ → ℕ → List ℕ
item_bytes tag index offset = if tag == 7 then be2 index else (if tag == 8 then be2 offset else [])

abbrev pub type_bytes : VerificationType → List ℕ
type_bytes t = be1 t.tag ++ item_bytes t.tag t.cpool_index t.offset

abbrev pub types_bytes : List VerificationType → List ℕ
types_bytes = many_bytes type_bytes

-- The tag and the delta of a frame; `n` is how many locals it appends.
abbrev pub head_bytes : FrameKind → ℕ → ℕ → ℕ → ℕ → List ℕ
head_bytes FrameKind.same raw delta chop n =
    if leb raw 63 && leb delta 63 then be1 delta else be1 251 ++ be2 delta
head_bytes FrameKind.same_locals_1_stack_item raw delta chop n =
    if leb raw 127 && leb delta 63 then be1 (64 + delta) else be1 247 ++ be2 delta
head_bytes FrameKind.chop raw delta chop n = be1 (251 + 2 ^ 16 - chop) ++ be2 delta
head_bytes FrameKind.append raw delta chop n = be1 (251 + n) ++ be2 delta
head_bytes FrameKind.full raw delta chop n = be1 255 ++ be2 delta

abbrev pub parts_bytes : FrameKind → List VerificationType → List VerificationType → List ℕ
parts_bytes FrameKind.same locals stack = []
parts_bytes FrameKind.same_locals_1_stack_item locals stack = types_bytes (take 1 stack)
parts_bytes FrameKind.chop locals stack = []
parts_bytes FrameKind.append locals stack = types_bytes locals
parts_bytes FrameKind.full locals stack =
    be2 (length locals) ++ (types_bytes locals ++ (be2 (length stack) ++ types_bytes stack))

abbrev pub frame_bytes : StackMapFrame → ℕ → List ℕ
frame_bytes f delta =
    head_bytes f.kind f.raw_tag delta f.chop_count (length f.locals)
    ++ parts_bytes f.kind f.locals f.stack

abbrev pub frames_bytes : Bool → ℕ → List StackMapFrame → List ℕ
frames_bytes first previous [] = []
frames_bytes first previous (f ∷ frames) =
    frame_bytes f (delta_of first previous f.offset) ++ frames_bytes false f.offset frames

-- Every delta fits in a u2.
abbrev pub IsOrdered : Bool → ℕ → List StackMapFrame → Type 0
IsOrdered first previous [] = Unit {0}
IsOrdered first previous (f ∷ frames) =
    (delta_of first previous f.offset ≤ 0xFFFF) × IsOrdered false f.offset frames
