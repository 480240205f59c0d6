-- ===== src/ByteStream/Writes.antt =====
-- src/byte_stream.c, what the writer leaves behind: growing makes room and keeps the contents, and
-- the rules by which a sequence of writes is known to append certain bytes.
use jni2hook.Base.{
  ℕ, zero, suc, ◌+◌, ◌*◌, ◌%◌, ◌^◌, ◌≤◌, ◌<◌, ◌≡◌, sym, ap, ◌∙◌, Bool, true, List, [], ◌∷◌, ◌++◌,
  append_assoc, append-nil, length, length-append, arith, if◌then◌else◌, Bool-cases, inl, inr, ltb,
  ◌==◌, subst,
}
use jni2hook.ByteStream.Buffer.{
  ByteBuffer, Writer, ◌>>◌, skip, size_mod, double_until, grown_capacity, byte_buffer_reserve,
  byte_buffer_u1, byte_buffer_u2, byte_buffer_u4, byte_buffer_bytes, store,
}
use jni2hook.ByteStream.Reads.{be1, be2, be4}
use native.Mathlib.Nat.{pow-suc}
use mathlib.Core.Path.{fun_ext}

-- One above `PTRDIFF_MAX`. Up to it the arithmetic on sizes does not wrap.
abbrev pub no_wrap : ℕ
no_wrap = 2 ^ 63

-- The sizes that the theorems are about.
abbrev pub max_size : ℕ
max_size = 2 ^ 62

two_pow : (f : ℕ) → 2 ^ suc f ≡ 2 * 2 ^ f
two_pow f = rw pow-suc (omega arith)

-- The loop ends by its test as soon as enough doublings are left.
double_until_reaches :
    (fuel capacity need : ℕ)
    → need < no_wrap
    → need ≤ capacity * 2 ^ fuel
    → need ≤ double_until fuel capacity need
unfolding double_until
double_until_reaches zero capacity need h k = omega arith
double_until_reaches (suc f) capacity need h k = elim (Bool-cases (ltb capacity need)) [
  | inl less ↦
      let fits : capacity * 2 % size_mod ≡ capacity * 2 = ground arith in
      rw (less, fits)
        (double_until_reaches f (capacity * 2) need h
          (omega (arith, ap (λ (t : ℕ). capacity * t) (two_pow f))))
  | inr enough ↦ rw enough (ground arith)
]

pub grown_capacity_reaches :
    (capacity need : ℕ) → need < no_wrap → need ≤ grown_capacity capacity need
grown_capacity_reaches capacity need h =
    double_until_reaches 64 (if capacity == 0 then 4096 else capacity) need h (ground arith)

-- The allocator grants whatever is asked for.
abbrev pub Plenty : (ℕ → Bool) → Type 0
Plenty grants = (n : ℕ) → grants n ≡ true

abbrev pub IsWithin : ByteBuffer → Type 0
IsWithin b = length b.written ≤ b.capacity

module _ (grants : ℕ → Bool) where
  -- Growing keeps what is written. A buffer in order afterwards was so before, and has room.
  pub reserve_room :
      (extra : ℕ) (b : ByteBuffer)
      → length b.written + extra < no_wrap
      → ((byte_buffer_reserve grants extra b).written ≡ b.written)
        × ((byte_buffer_reserve grants extra b).fine ≡ true
            → (b.fine ≡ true)
              × (length b.written + extra ≤ (byte_buffer_reserve grants extra b).capacity))
  unfolding byte_buffer_reserve
  reserve_room extra b h =
      ground (arith, grown_capacity_reaches b.capacity (length b.written + extra))

  reserve_keeps :
      (extra : ℕ) (b : ByteBuffer) → (byte_buffer_reserve grants extra b).written ≡ b.written
  unfolding byte_buffer_reserve
  reserve_keeps extra b = ground arith

  reserve-Plenty :
      (extra : ℕ) (b : ByteBuffer)
      → Plenty grants
      → b.fine ≡ true
      → (byte_buffer_reserve grants extra b).fine ≡ true
  unfolding byte_buffer_reserve
  reserve-Plenty extra b p h =
      ground (arith, p (grown_capacity b.capacity ((length b.written + extra) % size_mod)))

  -- `w` appends `bytes` unless the buffer has failed, within the block that it holds; with memory
  -- enough it does not fail.
  pub record Writes (w : Writer) (bytes : List ℕ) : Type 0 where
    pub appends :
        (b : ByteBuffer)
        → length b.written + length bytes < max_size
        → (w b).fine ≡ true
        → (b.fine ≡ true) × ((w b).written ≡ b.written ++ bytes)
    pub stays_within :
        (b : ByteBuffer)
        → length b.written + length bytes < max_size
        → (w b).fine ≡ true
        → IsWithin b
        → IsWithin (w b)
    pub grows : (b : ByteBuffer) → length (w b).written ≤ length b.written + length bytes
    pub succeeds : (b : ByteBuffer) → Plenty grants → b.fine ≡ true → (w b).fine ≡ true

  Writes-store :
      (bytes : List ℕ)
      → Writes (λ b. store bytes (byte_buffer_reserve grants (length bytes) b)) bytes
  Writes-store bytes = record {
    appends = λ b h e. ground (arith, reserve_room (length bytes) b);
    stays_within =
        λ b h e k. ground (arith, reserve_room (length bytes) b, length-append b.written bytes);
    grows = λ b. ground (
      arith,
      reserve_keeps (length bytes) b,
      length-append (byte_buffer_reserve grants (length bytes) b).written bytes,
    );
    succeeds = λ b p h. ground (arith, reserve-Plenty (length bytes) b p h);
  }

  -- A request for room ahead of the first write.
  pub Writes-reserve : (extra : ℕ) → extra < 2 ^ 32 → Writes (byte_buffer_reserve grants extra) []
  Writes-reserve extra small = record {
    appends = λ b h e.
        let (same, room) = reserve_room extra b (omega arith) in
        ((room e).0, same ∙ sym (append-nil b.written));
    stays_within = λ b h e k. ground (arith, reserve_room extra b, reserve_keeps extra b);
    grows = λ b. ground (arith, reserve_keeps extra b);
    succeeds = λ b p h. ground (arith, reserve-Plenty extra b p h);
  }

  pub Writes-u1 : (v : ℕ) → Writes (byte_buffer_u1 grants v) (be1 v)
  unfolding byte_buffer_u1
  Writes-u1 v = Writes-store (be1 v)

  pub Writes-u2 : (v : ℕ) → Writes (byte_buffer_u2 grants v) (be2 v)
  unfolding byte_buffer_u2
  Writes-u2 v = Writes-store (be2 v)

  pub Writes-u4 : (v : ℕ) → Writes (byte_buffer_u4 grants v) (be4 v)
  unfolding byte_buffer_u4
  Writes-u4 v = Writes-store (be4 v)

  pub Writes-skip : Writes skip []
  Writes-skip = record {
    appends = λ b h e. (e, sym (append-nil b.written));
    stays_within = λ b h e k. k;
    grows = λ b. omega arith;
    succeeds = λ b p h. h;
  }

  bytes_stored :
      (x : ℕ) (xs : List ℕ) (b : ByteBuffer)
      → byte_buffer_bytes grants (x ∷ xs) b
        ≡ store (x ∷ xs) (byte_buffer_reserve grants (length (x ∷ xs)) b)
  unfolding byte_buffer_bytes
  bytes_stored x xs b = ground arith

  pub Writes-bytes : (bytes : List ℕ) → Writes (byte_buffer_bytes grants bytes) bytes
  unfolding byte_buffer_bytes
  Writes-bytes [] = Writes-skip
  Writes-bytes (x ∷ xs) =
      subst (λ w. Writes w (x ∷ xs)) (sym (fun_ext (bytes_stored x xs))) (Writes-store (x ∷ xs))

  pub Writes-then :
      (w v : Writer) {bs cs : List ℕ} → Writes w bs → Writes v cs → Writes (w >> v) (bs ++ cs)
  unfolding ◌>>◌
  Writes-then w v {bs} {cs} h k = record {
    appends = λ b room e.
        let fits : length (w b).written + length cs < max_size =
          omega (arith, length-append bs cs, h.grows b) in
        let (was, end) = k.appends (w b) fits e in
        let (fine, start) = h.appends b (omega (arith, length-append bs cs)) was in
        (fine, end ∙ ap (λ xs. xs ++ cs) start ∙ append_assoc b.written bs cs);
    stays_within = λ b room e within.
        let fits : length (w b).written + length cs < max_size =
          omega (arith, length-append bs cs, h.grows b) in
        let (was, end) = k.appends (w b) fits e in
        k.stays_within (w b) fits e
          (h.stays_within b (omega (arith, length-append bs cs)) was within);
    grows = λ b. omega (arith, length-append bs cs, h.grows b, k.grows (w b));
    succeeds = λ b p good. k.succeeds (w b) p (h.succeeds b p good);
  }

  -- A last step that writes nothing.
  pub Writes-last : (w v : Writer) {bs : List ℕ} → Writes w bs → Writes v [] → Writes (w >> v) bs
  Writes-last w v {bs} h k = subst (λ cs. Writes (w >> v) cs) (append-nil bs) (Writes-then w v h k)
