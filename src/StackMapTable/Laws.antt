-- ===== src/StackMapTable/Laws.antt =====
-- src/visitors/stack_map_table.c: parsing against writing.
use jni2hook.Base.{
  take_all, ℕ, ◌+◌, ◌-◌, ◌%◌, ◌^◌, ◌≤◌, ◌<◌, ◌≡◌, refl, sym, ap, ◌∙◌, subst, Bool, true, false,
  List, [], ◌∷◌, ◌++◌, ◌⊎◌, inl, inr, Bool-cases, length, All, ok, err, ClassfileStatus, ltb, arith,
}
use jni2hook.ByteStream.Cursor.{IsByte}
use jni2hook.ByteStream.Buffer.{Writer, byte_buffer_init, byte_buffer_ok}
use jni2hook.ByteStream.Reads.{be2}
use jni2hook.ByteStream.Writes.{Writes, Writes-u2, Writes-then, Writes-reserve, Plenty}
use jni2hook.ByteStream.Whole.{run_whole-Sound}
use jni2hook.ClassFile.Tree.{AttributeInfo}
use jni2hook.StackMapTable.Codec.{
  StackMapFrame, delta_of, read_frame_table, stack_map_table_parse, write_selected, write_frame,
  write_frames, release, stack_map_table_write,
}
use jni2hook.StackMapTable.Layout.{frames_bytes, IsOrdered}
use jni2hook.StackMapTable.Reading.{Sound-table, EndsFine-table}
use jni2hook.StackMapTable.Writing.{Accepts-frames}

module _ (grants : ℕ → Bool) where
  released :
      (a : AttributeInfo) (w : Writer) (bytes : List ℕ)
      → Plenty grants
      → Writes grants w bytes
      → length bytes < 2 ^ 32
      → release grants a w ≡ ok (record a { info = bytes })
  unfolding byte_buffer_ok byte_buffer_init
  released a w bytes plenty h small =
      let good = h.succeeds byte_buffer_init plenty refl in
      let same = (h.appends byte_buffer_init (omega arith) good).1 in
      let short : length bytes % 2 ^ 32 ≡ length bytes = omega arith in
      rw (good, same, short, take_all bytes) refl

  -- With frames in order, the payload is the count and the frames.
  written :
      (frames : List StackMapFrame) (a : AttributeInfo)
      → Plenty grants
      → IsOrdered true (2 ^ 32 - 1) frames
      → length (be2 (length frames) ++ frames_bytes true (2 ^ 32 - 1) frames) < 2 ^ 32
      → stack_map_table_write grants frames a
        ≡ ok (record a { info = be2 (length frames) ++ frames_bytes true (2 ^ 32 - 1) frames })
  unfolding stack_map_table_write
  written frames a plenty ordered small =
      let accepted = Accepts-frames grants true (2 ^ 32 - 1) frames ordered in
      rw accepted.accepted (
        released a _ _ plenty
          (Writes-then grants _ _ (Writes-reserve grants 64 (omega arith))
            (Writes-then grants _ _ (Writes-u2 grants (length frames)) accepted.writes))
          small)

-- With an allocator that grants every request, a payload that the parser accepts is written back
-- byte for byte, into the attribute, whose name stays.
pub table_write-parse :
    (grants : ℕ → Bool) (bytes : List ℕ) (frames : List StackMapFrame) (a : AttributeInfo)
    → Plenty grants
    → All IsByte bytes
    → length bytes < 2 ^ 32
    → stack_map_table_parse grants bytes ≡ ok frames
    → stack_map_table_write grants frames a ≡ ok (record a { info = bytes })
unfolding stack_map_table_parse
table_write-parse grants bytes frames a plenty valid small h =
    let (ordered, same) =
      run_whole-Sound (read_frame_table grants) (Sound-table grants) (EndsFine-table grants) bytes
        frames valid h in
    written grants frames a plenty ordered (subst (λ bs. length bs < 2 ^ 32) (sym same) small)
    ∙ ap (λ bs. ok (record a { info = bs })) same

module _ (grants : ℕ → Bool) where
  frame_cases :
      (first : Bool) (previous : ℕ) (f : StackMapFrame)
      → (write_frame grants first previous f ≡ err ClassfileStatus.limit_exceeded)
        ⊎ ((w : Writer) × (write_frame grants first previous f ≡ ok w))
  unfolding write_frame
  frame_cases first previous f = elim (Bool-cases (ltb 0xFFFF (delta_of first previous f.offset))) [
    | inl over ↦ inl (rw over refl)
    | inr under ↦
        inr (write_selected grants f f.kind (delta_of first previous f.offset), rw under refl)
  ]

  frames_refused :
      (first : Bool) (previous : ℕ) (f : StackMapFrame) (frames : List StackMapFrame)
      → write_frames grants false f.offset frames ≡ err ClassfileStatus.limit_exceeded
      → write_frames grants first previous (f ∷ frames) ≡ err ClassfileStatus.limit_exceeded
  unfolding write_frames
  frames_refused first previous f frames h = elim (frame_cases first previous f) [
    | inl lost ↦ rw lost refl
    | inr (w, kept) ↦ rw (kept, h) refl
  ]

  -- The second of two frames is refused unless it lies 1 to 65536 behind the first.
  gap_refused :
      (f g : StackMapFrame) (back : List StackMapFrame)
      → f.offset < 2 ^ 31
      → g.offset < 2 ^ 31
      → (g.offset ≤ f.offset) ⊎ (f.offset + 65536 < g.offset)
      → write_frames grants false f.offset (g ∷ back) ≡ err ClassfileStatus.limit_exceeded
  unfolding write_frames write_frame
  gap_refused f g back low high gap =
      let over : ltb 0xFFFF (delta_of false f.offset g.offset) ≡ true = ground arith in rw over refl

  later_refused :
      (front : List StackMapFrame) (first : Bool) (previous : ℕ) (f : StackMapFrame)
      (frames : List StackMapFrame)
      → write_frames grants false f.offset frames ≡ err ClassfileStatus.limit_exceeded
      → write_frames grants first previous (front ++ (f ∷ frames))
        ≡ err ClassfileStatus.limit_exceeded
  later_refused [] first previous f frames h = frames_refused first previous f frames h
  later_refused (e ∷ front) first previous f frames h =
      frames_refused first previous e (front ++ (f ∷ frames))
        (later_refused front false e.offset f frames h)

-- Whatever the allocator does, a table in which some frame, at an offset below 2 ^ 31 as the frame
-- before it, lies at or ahead of that frame, or more than 65536 behind it, is refused with
-- CLASSFILE_ERR_LIMIT_EXCEEDED.
pub table_write_gap :
    (grants : ℕ → Bool) (front : List StackMapFrame) (f g : StackMapFrame)
    (back : List StackMapFrame) (a : AttributeInfo)
    → f.offset < 2 ^ 31
    → g.offset < 2 ^ 31
    → (g.offset ≤ f.offset) ⊎ (f.offset + 65536 < g.offset)
    → stack_map_table_write grants (front ++ (f ∷ g ∷ back)) a ≡ err ClassfileStatus.limit_exceeded
unfolding stack_map_table_write
table_write_gap grants front f g back a low high gap =
    rw
      (later_refused grants front true (2 ^ 32 - 1) f (g ∷ back)
        (gap_refused grants f g back low high gap))
      refl
