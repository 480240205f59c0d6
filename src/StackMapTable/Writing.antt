-- ===== src/StackMapTable/Writing.antt =====
-- src/visitors/stack_map_table.c, `stack_map_table_write`: the bytes that each part appends.
use jni2hook.Base.{
  ℕ, ◌+◌, ◌-◌, ◌^◌, ◌≡◌, sym, subst, Bool, true, false, ◌&&◌, List, [], ◌∷◌, ◌++◌, append-nil,
  length, take, if◌then◌else◌, ltb, leb, ◌==◌, arith,
}
use jni2hook.ByteStream.Buffer.{Writer, ◌>>◌, skip, byte_buffer_u1, byte_buffer_u2}
use jni2hook.ByteStream.Reads.{be1, be2}
use jni2hook.ByteStream.Writes.{Writes, Writes-u1, Writes-u2, Writes-skip, Writes-then}
use jni2hook.ByteStream.Many.{Writes-many}
use jni2hook.ConstantPool.RoundTrip.Writing.{Accepts, accept, accept_both}
use jni2hook.StackMapTable.Codec.{
  FrameKind, VerificationType, StackMapFrame, delta_of, write_type, write_types, write_selected,
  write_frame, write_frames,
}
use jni2hook.StackMapTable.Layout.{
  type_bytes, types_bytes, head_bytes, parts_bytes, frames_bytes, IsOrdered,
}

module _ (grants : ℕ → Bool) where
  Writes-if :
      (b : Bool) {w v : Writer} {bs cs : List ℕ}
      → Writes grants w bs
      → Writes grants v cs
      → Writes grants (if b then w else v) (if b then bs else cs)
  Writes-if true h k = h
  Writes-if false h k = k

  Writes-type : (t : VerificationType) → Writes grants (write_type grants t) (type_bytes t)
  unfolding write_type
  Writes-type t = Writes-then grants _ _ (Writes-u1 grants t.tag) (
      Writes-if (t.tag == 7) (Writes-u2 grants t.cpool_index)
        (Writes-if (t.tag == 8) (Writes-u2 grants t.offset) (Writes-skip grants)))

  Writes-types : (l : List VerificationType) → Writes grants (write_types grants l) (types_bytes l)
  unfolding write_types
  Writes-types l = Writes-many grants type_bytes _ Writes-type l

  head_then :
      (tag delta : ℕ) {v : Writer} {cs : List ℕ}
      → Writes grants v cs
      → Writes grants
          (byte_buffer_u1 grants tag >> (byte_buffer_u2 grants delta >> v))
          ((be1 tag ++ be2 delta) ++ cs)
  head_then tag delta h =
      Writes-then grants _ _ (Writes-u1 grants tag)
        (Writes-then grants _ _ (Writes-u2 grants delta) h)

  short_or_long :
      (b : Bool) (tag long delta : ℕ)
      → Writes grants
          (if b
            then byte_buffer_u1 grants tag
            else byte_buffer_u1 grants long >> byte_buffer_u2 grants delta)
          (if b then be1 tag else be1 long ++ be2 delta)
  short_or_long b tag long delta =
      Writes-if b (Writes-u1 grants tag)
        (Writes-then grants _ _ (Writes-u1 grants long) (Writes-u2 grants delta))

  Writes-body :
      (f : StackMapFrame) (kind : FrameKind) (delta : ℕ)
      → Writes grants (write_selected grants f kind delta) (
          head_bytes kind f.raw_tag delta f.chop_count (length f.locals)
          ++ parts_bytes kind f.locals f.stack)
  unfolding write_selected
  Writes-body f FrameKind.same delta =
      subst (λ bs. Writes grants (write_selected grants f FrameKind.same delta) bs)
        (sym (append-nil _)) (short_or_long (leb f.raw_tag 63 && leb delta 63) delta 251 delta)
  Writes-body f FrameKind.same_locals_1_stack_item delta =
      Writes-then grants _ _
        (short_or_long (leb f.raw_tag 127 && leb delta 63) (64 + delta) 247 delta)
        (Writes-types (take 1 f.stack))
  Writes-body f FrameKind.chop delta =
      Writes-then grants _ _ (Writes-u1 grants (251 + 2 ^ 16 - f.chop_count))
        (Writes-u2 grants delta)
  Writes-body f FrameKind.append delta =
      head_then (251 + length f.locals) delta (Writes-types f.locals)
  Writes-body f FrameKind.full delta = head_then 255 delta (
      Writes-then grants _ _ (Writes-u2 grants (length f.locals)) (
        Writes-then grants _ _ (Writes-types f.locals)
          (Writes-then grants _ _ (Writes-u2 grants (length f.stack)) (Writes-types f.stack))))

  pub Accepts-frames :
      (first : Bool) (previous : ℕ) (frames : List StackMapFrame)
      → IsOrdered first previous frames
      → Accepts grants
          (write_frames grants first previous frames)
          (frames_bytes first previous frames)
  unfolding write_frames write_frame
  Accepts-frames first previous [] h = accept grants skip (Writes-skip grants)
  Accepts-frames first previous (f ∷ frames) h =
      let small : ltb 0xFFFF (delta_of first previous f.offset) ≡ false = ground arith in
      rw small (
        accept_both grants
          (accept grants _ (Writes-body f f.kind (delta_of first previous f.offset)))
          (Accepts-frames false f.offset frames h.1))
