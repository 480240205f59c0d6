-- ===== src/StackMapTable/Codec.antt =====
-- src/visitors/stack_map_table.c. An `i4` is its 32-bit pattern, so a negative number is one from
-- 2 ^ 31 up, and a sum wraps.
use jni2hook.Base.{
  ℕ, zero, suc, ◌+◌, ◌*◌, ◌-◌, ◌%◌, ◌^◌, Bool, true, false, ◌&&◌, List, [], ◌∷◌, length, take,
  Result, ok, err, ClassfileStatus, if◌then◌else◌, ltb, leb, ◌==◌, bind,
}
use jni2hook.ByteStream.Cursor.{
  Reader, ◌>>=◌, ◌>>◌, pure, fail, check, allocate, reserve, byte_cursor_u1, byte_cursor_u2,
  read_many, run_whole,
}
use jni2hook.ByteStream.Buffer
use jni2hook.ByteStream.Buffer.{
  Writer, skip, byte_buffer_init, byte_buffer_ok, byte_buffer_reserve, byte_buffer_u1,
  byte_buffer_u2, write_many,
}
use jni2hook.ClassFile.Tree.{AttributeInfo}

-- The five kinds that the header names. A field with another value, which no code makes, is not
-- modelled, nor is the default of the writer's switch, which refuses it.
pub data FrameKind : Type 0 where
  same same_locals_1_stack_item chop append full : FrameKind

-- `offset` is that of an Uninitialized item, and `cpool_index` that of an Object.
pub record VerificationType : Type 0 where
  pub tag : ℕ
  pub cpool_index : ℕ
  pub offset : ℕ

-- `locals_count` and `stack_count` are the lengths of the lists.
pub record StackMapFrame : Type 0 where
  pub raw_tag : ℕ
  pub kind : FrameKind
  pub offset : ℕ
  pub chop_count : ℕ
  pub locals : List VerificationType
  pub stack : List VerificationType

-- `sizeof(verification_type)` and `sizeof(stack_map_frame)`
abbrev pub verification_type_size : ℕ
verification_type_size = 8

abbrev pub stack_map_frame_size : ℕ
stack_map_frame_size = 48

-- The index of an Object and the offset of an Uninitialized item.
unfoldable pub read_item : ℕ → Reader (ℕ × ℕ)
read_item tag =
    if tag == 7
    then (do index ← byte_cursor_u2; pure (index, 0))
    else (if tag == 8 then (do offset ← byte_cursor_u2; pure (0, offset)) else pure (0, 0))

-- The body of the loop of `read_types`.
unfoldable pub read_type : Reader VerificationType
read_type = do
  tag ← byte_cursor_u1
  item ← read_item tag
  check ClassfileStatus.truncated
  pure (record { tag = tag; cpool_index = item.0; offset = item.1 })

-- `previous + delta + 1`, or the delta alone for the first frame.
abbrev pub offset_of : Bool → ℕ → ℕ → ℕ
offset_of first previous delta = if first then delta else (previous + delta + 1) % 2 ^ 32

-- `frame->offset - previous - 1`, or the offset alone for the first frame.
abbrev pub delta_of : Bool → ℕ → ℕ → ℕ
delta_of first previous offset =
    if first then offset else (offset + (2 ^ 32 - 1 - previous)) % 2 ^ 32

-- What a tag selects: the kind of the frame, its delta, and how many locals it chops.
unfoldable pub read_head : ℕ → Reader (FrameKind × ℕ × ℕ)
read_head tag =
    if leb tag 63
    then pure (FrameKind.same, tag, 0)
    else (if leb tag 127
        then pure (FrameKind.same_locals_1_stack_item, tag - 64, 0)
        else (if tag == 247
            then (do delta ← byte_cursor_u2; pure (FrameKind.same_locals_1_stack_item, delta, 0))
            else (if leb 248 tag && leb tag 250
                then (do delta ← byte_cursor_u2; pure (FrameKind.chop, delta, 251 - tag))
                else (if tag == 251
                    then (do delta ← byte_cursor_u2; pure (FrameKind.same, delta, 0))
                    else (if leb 252 tag && leb tag 254
                        then (do delta ← byte_cursor_u2; pure (FrameKind.append, delta, 0))
                        else (if tag == 255
                            then (do delta ← byte_cursor_u2; pure (FrameKind.full, delta, 0))
                            else fail ClassfileStatus.truncated))))))

module _ (grants : ℕ → Bool) where
  unfoldable pub read_types : ℕ → Reader (List VerificationType)
  read_types count =
      if count == 0
      then pure []
      else (do allocate grants (count * verification_type_size); read_many count read_type)

  -- The locals and the stack that follow the head of a frame.
  unfoldable pub read_parts : FrameKind → ℕ → Reader (List VerificationType × List VerificationType)
  read_parts FrameKind.same tag = pure ([], [])
  read_parts FrameKind.same_locals_1_stack_item tag = do stack ← read_types 1; pure ([], stack)
  read_parts FrameKind.chop tag = pure ([], [])
  read_parts FrameKind.append tag = do locals ← read_types (tag - 251); pure (locals, [])
  read_parts FrameKind.full tag = do
    locals_count ← byte_cursor_u2
    locals ← read_types locals_count
    stack_count ← byte_cursor_u2
    stack ← read_types stack_count
    pure (locals, stack)

  -- The body of the loop of `stack_map_table_parse`.
  unfoldable pub read_frame : Bool → ℕ → Reader StackMapFrame
  read_frame first previous = do
    tag ← byte_cursor_u1
    head ← read_head tag
    parts ← read_parts head.0 tag
    check ClassfileStatus.truncated
    pure (record {
      raw_tag = tag;
      kind = head.0;
      offset = offset_of first previous head.1;
      chop_count = head.2;
      locals = parts.0;
      stack = parts.1;
    })

  -- The loop, with the offset of the frame before.
  unfoldable pub read_frames : ℕ → Bool → ℕ → Reader (List StackMapFrame)
  read_frames zero first previous = pure []
  read_frames (suc count) first previous = do
    frame ← read_frame first previous
    frames ← read_frames count false frame.offset
    pure (frame ∷ frames)

  -- Before the first frame the offset is -1.
  unfoldable pub read_frame_table : Reader (List StackMapFrame)
  read_frame_table = do
    count ← byte_cursor_u2
    check ClassfileStatus.truncated
    reserve grants count stack_map_frame_size
    read_frames count true (2 ^ 32 - 1)

  unfoldable pub stack_map_table_parse : List ℕ → Result (List StackMapFrame)
  stack_map_table_parse = run_whole read_frame_table

  abbrev u1 : ℕ → Writer
  u1 = byte_buffer_u1 grants

  abbrev u2 : ℕ → Writer
  u2 = byte_buffer_u2 grants

  -- The body of the loop of `write_types`.
  unfoldable pub write_type : VerificationType → Writer
  write_type t =
      Buffer.◌>>◌ (u1 t.tag)
        (if t.tag == 7 then u2 t.cpool_index else (if t.tag == 8 then u2 t.offset else skip))

  unfoldable pub write_types : List VerificationType → Writer
  write_types = write_many write_type

  -- The switch over the kind, its five cases.
  unfoldable pub write_selected : StackMapFrame → FrameKind → ℕ → Writer
  write_selected f FrameKind.same delta =
      if leb f.raw_tag 63 && leb delta 63 then u1 delta else Buffer.◌>>◌ (u1 251) (u2 delta)
  write_selected f FrameKind.same_locals_1_stack_item delta =
      Buffer.◌>>◌
        (if leb f.raw_tag 127 && leb delta 63
          then u1 (64 + delta)
          else Buffer.◌>>◌ (u1 247) (u2 delta))
        (write_types (take 1 f.stack))
  write_selected f FrameKind.chop delta = Buffer.◌>>◌ (u1 (251 + 2 ^ 16 - f.chop_count)) (u2 delta)
  write_selected f FrameKind.append delta =
      Buffer.◌>>◌ (u1 (251 + length f.locals)) (Buffer.◌>>◌ (u2 delta) (write_types f.locals))
  write_selected f FrameKind.full delta = Buffer.◌>>◌ (u1 255) (
      Buffer.◌>>◌ (u2 delta) (
        Buffer.◌>>◌ (u2 (length f.locals)) (
          Buffer.◌>>◌ (write_types f.locals)
            (Buffer.◌>>◌ (u2 (length f.stack)) (write_types f.stack)))))

  -- A delta that is negative or above the largest u2 is refused.
  unfoldable pub write_frame : Bool → ℕ → StackMapFrame → Result Writer
  write_frame first previous f =
      let delta = delta_of first previous f.offset in
      if ltb 0xFFFF delta
      then err ClassfileStatus.limit_exceeded
      else ok (write_selected f f.kind delta)

  unfoldable pub write_frames : Bool → ℕ → List StackMapFrame → Result Writer
  write_frames first previous [] = ok skip
  write_frames first previous (f ∷ frames) =
      bind (write_frame first previous f)
        (λ w. bind (write_frames false f.offset frames) (λ v. ok (Buffer.◌>>◌ w v)))

  abbrev pub write_table : List StackMapFrame → Result Writer
  write_table frames =
      bind (write_frames true (2 ^ 32 - 1) frames)
        (λ w. ok (Buffer.◌>>◌ (byte_buffer_reserve grants 64) (Buffer.◌>>◌ (u2 (length frames)) w)))

  -- The length of the payload is stored as a u4.
  abbrev pub release : AttributeInfo → Writer → Result AttributeInfo
  release attribute w =
      let b = w byte_buffer_init in
      if byte_buffer_ok b
      then ok (record attribute { info = take (length b.written % 2 ^ 32) b.written })
      else err ClassfileStatus.out_of_memory

  -- The attribute keeps its name and takes the new payload.
  unfoldable pub stack_map_table_write : List StackMapFrame → AttributeInfo → Result AttributeInfo
  stack_map_table_write frames attribute = bind (write_table frames) (release attribute)
