-- ===== src/StackMapTable/Reading.antt =====
-- src/visitors/stack_map_table.c, `stack_map_table_parse`: the bytes that each part has consumed.
use jni2hook.Base.{
  ℕ, zero, suc, ◌*◌, ◌-◌, ◌^◌, ◌≤◌, ◌<◌, ◌≡◌, refl, sym, ap, ◌∙◌, Bool, true, false, ◌&&◌, List, [],
  ◌∷◌, ◌++◌, append-nil, length, take, if◌then◌else◌, leb, ◌==◌, arith,
}
use jni2hook.ByteStream.Cursor.{Reader, ◌>>=◌, pure, byte_cursor_u2}
use jni2hook.ByteStream.Reads.{be1, be2}
use jni2hook.ByteStream.Sound.{
  Sound, Sound-bind, Sound-weaken, Sound-pure, Sound-fail, Sound-check, Sound-u1, Sound-u2,
  Sound-allocate, Sound-reserve,
}
use jni2hook.ByteStream.Ends.{
  EndsFine, EndsFine-bind, EndsFine-then, KeepsFine-bind, KeepsFine-EndsFine, KeepsFine-pure,
  EndsFine-check, KeepsFine-reserve, KeepsFine,
}
use jni2hook.ByteStream.Many.{Sound-many}
use jni2hook.StackMapTable.Codec.{
  FrameKind, VerificationType, StackMapFrame, offset_of, delta_of, read_item, read_type, read_head,
  read_types, read_parts, read_frame, read_frames, read_frame_table,
}
use jni2hook.StackMapTable.Layout.{
  item_bytes, type_bytes, types_bytes, head_bytes, parts_bytes, frame_bytes, frames_bytes,
  IsOrdered,
}

Sound-cases :
    {A : Type 0} {R : A → List ℕ → Type 0} (b : Bool) {p q : Reader A}
    → (b ≡ true → Sound p R)
    → (b ≡ false → Sound q R)
    → Sound (if b then p else q) R
Sound-cases true h k = h refl
Sound-cases false h k = k refl

Sound-item : (tag : ℕ) → Sound (read_item tag) (λ item bs. item_bytes tag item.0 item.1 ≡ bs)
unfolding read_item
Sound-item tag =
    Sound-cases (tag == 7)
      (λ h. Sound-bind _ _ Sound-u2 λ index bs. Sound-pure _ λ (fits, same). rw (h, same) refl)
      (λ h.
        Sound-cases (tag == 8)
          (λ k.
            Sound-bind _ _ Sound-u2 λ offset bs. Sound-pure _ λ (fits, same). rw (h, k, same) refl)
          (λ k. Sound-pure _ (rw (h, k) refl)))

Sound-read_type : Sound read_type (λ t bs. Unit {0} × (type_bytes t ≡ bs))
unfolding read_type
Sound-read_type = Sound-bind _ _ Sound-u1 λ tag bs. Sound-bind _ _ (Sound-item tag) λ item cs.
    Sound-bind _ _ (Sound-check _)
      λ _ ds. Sound-pure _ λ none same' (fits, same). (tt, simp (none, same', same, append-nil))

-- What the head of a frame has consumed, after its tag.
abbrev IsHead : ℕ → FrameKind × ℕ × ℕ → List ℕ → Type 0
IsHead tag h bs = (h.1 ≤ 0xFFFF) × (be1 tag ++ bs ≡ head_bytes h.0 tag h.1 h.2 (tag - 251))

Sound-wide :
    (tag : ℕ) (kind : FrameKind) (chop : ℕ)
    → ((delta : ℕ) → be1 tag ++ be2 delta ≡ head_bytes kind tag delta chop (tag - 251))
    → Sound (byte_cursor_u2 >>= λ delta. pure (kind, delta, chop)) (IsHead tag)
Sound-wide tag kind chop h =
    Sound-bind _ _ Sound-u2
      λ delta bs. Sound-pure _ λ (fits, same). (omega arith, simp (same, append-nil) (h delta))

Sound-read_head : (tag : ℕ) → Sound (read_head tag) (IsHead tag)
unfolding read_head
Sound-read_head tag =
    Sound-cases (leb tag 63) (λ h. Sound-pure _ (ground arith, ground arith))
      λ h₁.
        Sound-cases (leb tag 127) (λ h. Sound-pure _ (ground arith, ground arith))
          λ h₂.
            Sound-cases (tag == 247) (λ h. Sound-wide tag _ 0 λ delta. ground arith)
              λ h₃.
                Sound-cases (leb 248 tag && leb tag 250)
                  (λ h. Sound-wide tag FrameKind.chop (251 - tag) λ delta. ground arith)
                  λ h₄.
                    Sound-cases (tag == 251)
                      (λ h. Sound-wide tag FrameKind.same 0 λ delta. ground arith)
                      λ h₅.
                        Sound-cases (leb 252 tag && leb tag 254)
                          (λ h. Sound-wide tag FrameKind.append 0 λ delta. ground arith)
                          λ h₆.
                            Sound-cases (tag == 255)
                              (λ h. Sound-wide tag FrameKind.full 0 λ delta. ground arith)
                              λ h₇. Sound-fail _

take_one : (l : List VerificationType) → length l ≡ 1 → take 1 l ≡ l
take_one [] h = absurd (omega (arith, h))
take_one (t ∷ []) h = refl
take_one (t ∷ u ∷ l) h = absurd (omega (arith, h))

delta_of-offset_of :
    (first : Bool) (previous delta : ℕ)
    → previous < 2 ^ 32
    → delta ≤ 0xFFFF
    → delta_of first previous (offset_of first previous delta) ≡ delta
delta_of-offset_of true previous delta h k = refl
delta_of-offset_of false previous delta h k = omega arith

module _ (grants : ℕ → Bool) where
  Sound-types :
      (n : ℕ) → Sound (read_types grants n) (λ l bs. (length l ≡ n) × (types_bytes l ≡ bs))
  unfolding read_types
  Sound-types n =
      Sound-cases (n == 0) (λ h. Sound-pure [] (ground arith, refl))
        λ h. Sound-bind _ _ (Sound-allocate grants (n * 8)) λ _ bs.
          Sound-weaken (Sound-many type_bytes (λ t. Unit {0}) read_type Sound-read_type n)
            λ l cs (counted, _, same) none. (counted, simp (none, same))

  -- The parts are consumed, and as many locals are appended as the tag says.
  abbrev IsParts : FrameKind → ℕ → List VerificationType × List VerificationType → List ℕ → Type 0
  IsParts kind tag p bs =
      (parts_bytes kind p.0 p.1 ≡ bs)
      × ((delta chop : ℕ)
          → head_bytes kind tag delta chop (length p.0)
            ≡ head_bytes kind tag delta chop (tag - 251))

  Sound-read_parts :
      (kind : FrameKind) (tag : ℕ) → Sound (read_parts grants kind tag) (IsParts kind tag)
  unfolding read_parts
  Sound-read_parts FrameKind.same tag = Sound-pure _ (refl, λ delta chop. refl)
  Sound-read_parts FrameKind.chop tag = Sound-pure _ (refl, λ delta chop. refl)
  Sound-read_parts FrameKind.same_locals_1_stack_item tag =
      Sound-bind _ _ (Sound-types 1) λ stack bs. Sound-pure _ λ (one, same).
        (ap types_bytes (take_one stack one) ∙ same ∙ sym (append-nil bs), λ delta chop. refl)
  Sound-read_parts FrameKind.append tag = Sound-bind _ _ (Sound-types (tag - 251)) λ locals bs.
      Sound-pure _ λ (counted, same). (
        same ∙ sym (append-nil bs),
        λ delta chop. ap (λ n. head_bytes FrameKind.append tag delta chop n) counted,
      )
  Sound-read_parts FrameKind.full tag = Sound-bind _ _ Sound-u2 λ n bs.
      Sound-bind _ _ (Sound-types n) λ locals cs. Sound-bind _ _ Sound-u2 λ m ds.
        Sound-bind _ _ (Sound-types m) λ stack es.
          Sound-pure _ λ (counted₂, same₄) (fits₂, same₃) (counted₁, same₂) (fits₁, same₁).
            (simp (same₁, same₂, same₃, same₄, counted₁, counted₂, append-nil), λ delta chop. refl)

  -- A frame whose delta is a u2, and the bytes that it is written as.
  abbrev IsFrame : Bool → ℕ → StackMapFrame → List ℕ → Type 0
  IsFrame first previous f bs =
      (f.offset < 2 ^ 32)
      × (delta_of first previous f.offset ≤ 0xFFFF)
      × (frame_bytes f (delta_of first previous f.offset) ≡ bs)

  IsFrame-join :
      (first : Bool) (previous tag : ℕ) (head : FrameKind × ℕ × ℕ)
      (parts : List VerificationType × List VerificationType) (bs cs ds es : List ℕ)
      → previous < 2 ^ 32
      → bs ≡ be1 tag
      → IsHead tag head cs
      → IsParts head.0 tag parts ds
      → es ≡ []
      → IsFrame first previous
          (record {
            raw_tag = tag;
            kind = head.0;
            offset = offset_of first previous head.1;
            chop_count = head.2;
            locals = parts.0;
            stack = parts.1;
          })
          (bs ++ (cs ++ (ds ++ (es ++ []))))
  IsFrame-join first previous tag head parts bs cs ds es low same₁ (small, same₂) (same₃, counted)
        none =
      let back = delta_of-offset_of first previous head.1 low small in
      (
        ground arith,
        rw back small,
        rw back (
            simp (none, same₁, same₃, append-nil)
              (ap (λ xs. xs ++ ds) (counted head.1 head.2 ∙ sym same₂))),
      )

  Sound-read_frame :
      (first : Bool) (previous : ℕ)
      → Sound
          (read_frame grants first previous)
          (λ f bs. previous < 2 ^ 32 → IsFrame first previous f bs)
  unfolding read_frame
  Sound-read_frame first previous = Sound-bind _ _ Sound-u1 λ tag bs.
      Sound-bind _ _ (Sound-read_head tag) λ head cs.
        Sound-bind _ _ (Sound-read_parts head.0 tag) λ parts ds.
          Sound-bind _ _ (Sound-check _) λ _ es.
            Sound-pure _ λ none consumed selected (fits, same) low.
              IsFrame-join first previous tag head parts bs cs ds es low same selected consumed none

  Sound-frames :
      (count : ℕ) (first : Bool) (previous : ℕ)
      → Sound (read_frames grants count first previous) (λ fs bs.
        previous < 2 ^ 32
        → (length fs ≡ count) × IsOrdered first previous fs × (frames_bytes first previous fs ≡ bs))
  unfolding read_frames
  Sound-frames zero first previous = Sound-pure [] (λ low. (refl, tt, refl))
  Sound-frames (suc count) first previous = Sound-bind _ _ (Sound-read_frame first previous) λ f bs.
      Sound-bind _ _ (Sound-frames count false f.offset) λ fs cs.
        Sound-pure (f ∷ fs) λ rest one low.
          let (below, small, same) = one low in
          let (counted, ordered, same') = rest below in
          (omega (arith, counted), (small, ordered), simp (same', same, append-nil))

  pub Sound-table : Sound (read_frame_table grants) (λ fs bs.
      IsOrdered true (2 ^ 32 - 1) fs × (be2 (length fs) ++ frames_bytes true (2 ^ 32 - 1) fs ≡ bs))
  unfolding read_frame_table
  Sound-table = Sound-bind _ _ Sound-u2 λ count bs. Sound-bind _ _ (Sound-check _) λ _ cs.
      Sound-bind _ _ (Sound-reserve grants count 48) λ _ ds.
        Sound-weaken (Sound-frames count true (2 ^ 32 - 1)) λ fs es rest none₂ none₁ (fits, same₁).
          let (counted, ordered, same) = rest (omega arith) in
          (ordered, simp (none₁, none₂, same, same₁, counted))

  EndsFine-frame : (first : Bool) (previous : ℕ) → EndsFine (read_frame grants first previous)
  unfolding read_frame
  EndsFine-frame first previous = EndsFine-bind _ _ λ tag.
      EndsFine-bind _ _ λ head.
        EndsFine-bind _ _ λ parts. EndsFine-then _ _ (EndsFine-check _) λ _. KeepsFine-pure _

  KeepsFine-frames :
      (count : ℕ) (first : Bool) (previous : ℕ)
      → KeepsFine (read_frames grants count first previous)
  unfolding read_frames
  KeepsFine-frames zero first previous = KeepsFine-pure []
  KeepsFine-frames (suc count) first previous =
      KeepsFine-bind _ _ (KeepsFine-EndsFine (EndsFine-frame first previous))
        λ f. KeepsFine-bind _ _ (KeepsFine-frames count false f.offset) λ fs. KeepsFine-pure _

  pub EndsFine-table : EndsFine (read_frame_table grants)
  unfolding read_frame_table
  EndsFine-table = EndsFine-bind _ _ λ count.
      EndsFine-then _ _ (EndsFine-check _) λ _.
        KeepsFine-bind _ _ (KeepsFine-reserve grants count 48) λ _. KeepsFine-frames count true _
