-- ===== src/ConstantPool/RoundTrip/Reading.antt =====
-- src/visitors/cp_info.c, `constant_pool_read`: what it reads from the bytes of a pool, and from
-- any bytes.
use jni2hook.Base.{
  ℕ, zero, suc, ◌-◌, ◌<◌, ◌≡◌, refl, sym, ap, ◌∙◌, subst, Bool, true, List, [], ◌∷◌, ◌++◌, length,
  ◌==◌, eq_of_test, arith, append-nil, drop, Bool-cases, inl, inr,
}
use mathlib.Core.Path.{ap₂}
use jni2hook.ByteStream.Cursor.{Reader, IsByte, copy_size}
use jni2hook.ByteStream.Reads.{
  be1, be2, Reads, Reads-bind, Reads-then, Reads-last, Reads-pure, Reads-check, Reads-require,
  Reads-u1, Reads-u2, Reads-bytes, Reads-allocate, Reads-reserve,
}
use jni2hook.ByteStream.Sound.{
  Sound, Sound-bind, Sound-pure, Sound-fail, Sound-check, Sound-require, Sound-u1, Sound-u2,
  Sound-bytes, Sound-allocate, Sound-reserve, Sound-if,
}
use jni2hook.ConstantPool.Entry.{CpInfo, IsU2, IsBlock, IsEntry, tag_of, cp_info_slots}
use jni2hook.ConstantPool.Codec.{
  ConstantPool, read_index, read_index_pair, read_numeric, read_method_handle, read_unknown,
  read_utf8, read_payload, read_entry, read_entries, constant_pool_read,
}
use jni2hook.ConstantPool.RoundTrip.Layout.{entry_bytes, entries_bytes, pool_bytes, IsSlots, IsPool}

Reads-index : (make : ℕ → CpInfo) (a : ℕ) → IsU2 a → Reads (read_index make) (be2 a) (make a)
unfolding read_index
Reads-index make a h = Reads-last _ _ (Reads-u2 a h) (Reads-pure (make a))

Reads-index_pair :
    (make : ℕ → ℕ → CpInfo) (a b : ℕ)
    → IsU2 a × IsU2 b
    → Reads (read_index_pair make) (be2 a ++ be2 b) (make a b)
unfolding read_index_pair
Reads-index_pair make a b h =
    Reads-bind _ _ (Reads-u2 a h.0) (Reads-last _ _ (Reads-u2 b h.1) (Reads-pure (make a b)))

Reads-numeric :
    (make : List ℕ → CpInfo) (n : ℕ) (bytes : List ℕ)
    → IsBlock n bytes
    → Reads (read_numeric make n) bytes (make bytes)
unfolding read_numeric
Reads-numeric make n bytes h =
    subst (λ m. Reads (read_numeric make m) bytes (make bytes)) h.0
      (Reads-last _ _ (Reads-bytes bytes) (Reads-pure (make bytes)))

Reads-method_handle :
    (kind reference : ℕ)
    → IsByte kind × IsU2 reference
    → Reads read_method_handle (be1 kind ++ be2 reference) (CpInfo.method_handle kind reference)
unfolding read_method_handle
Reads-method_handle kind reference h =
    Reads-bind _ _ (Reads-u1 kind h.0) (Reads-last _ _ (Reads-u2 reference h.1) (Reads-pure _))

module _ (grants : ℕ → Bool) (plenty : (n : ℕ) → grants n ≡ true) where
  Reads-utf8 :
      (bytes : List ℕ)
      → IsU2 (length bytes)
      → Reads (read_utf8 grants) (be2 (length bytes) ++ bytes) (CpInfo.utf8 bytes)
  unfolding read_utf8
  Reads-utf8 bytes h = Reads-bind _ _ (Reads-u2 (length bytes) h) (
      Reads-last _ _ (Reads-bytes bytes)
        (Reads-then _ _ (Reads-allocate grants (copy_size (length bytes)) plenty) (Reads-pure _)))

  tagged :
      (tag : ℕ) {bytes : List ℕ} {entry : CpInfo}
      → tag < 256
      → Reads (read_payload grants tag) bytes entry
      → Reads (read_entry grants) (be1 tag ++ bytes) entry
  unfolding read_entry
  tagged tag h payload =
      Reads-bind _ _ (Reads-u1 tag h)
        (Reads-last _ _ payload (Reads-then _ _ (Reads-check _) (Reads-pure _)))

  Reads-entry : (e : CpInfo) → IsEntry e → Reads (read_entry grants) (entry_bytes e) e
  unfolding read_payload
  Reads-entry CpInfo.empty h = absurd h
  Reads-entry (CpInfo.utf8 bytes) h = tagged 1 (omega arith) (Reads-utf8 bytes h.0)
  Reads-entry (CpInfo.integer bytes) h = tagged 3 (omega arith) (Reads-numeric _ 4 bytes h)
  Reads-entry (CpInfo.float bytes) h = tagged 4 (omega arith) (Reads-numeric _ 4 bytes h)
  Reads-entry (CpInfo.long bytes) h = tagged 5 (omega arith) (Reads-numeric _ 8 bytes h)
  Reads-entry (CpInfo.double bytes) h = tagged 6 (omega arith) (Reads-numeric _ 8 bytes h)
  Reads-entry (CpInfo.class_info a) h = tagged 7 (omega arith) (Reads-index _ a h)
  Reads-entry (CpInfo.module_info a) h = tagged 19 (omega arith) (Reads-index _ a h)
  Reads-entry (CpInfo.package_info a) h = tagged 20 (omega arith) (Reads-index _ a h)
  Reads-entry (CpInfo.string_info a) h = tagged 8 (omega arith) (Reads-index _ a h)
  Reads-entry (CpInfo.fieldref a b) h = tagged 9 (omega arith) (Reads-index_pair _ a b h)
  Reads-entry (CpInfo.methodref a b) h = tagged 10 (omega arith) (Reads-index_pair _ a b h)
  Reads-entry (CpInfo.interface_methodref a b) h =
      tagged 11 (omega arith) (Reads-index_pair _ a b h)
  Reads-entry (CpInfo.name_and_type a b) h = tagged 12 (omega arith) (Reads-index_pair _ a b h)
  Reads-entry (CpInfo.method_handle a b) h = tagged 15 (omega arith) (Reads-method_handle a b h)
  Reads-entry (CpInfo.method_type a) h = tagged 16 (omega arith) (Reads-index _ a h)
  Reads-entry (CpInfo.dynamic a b) h = tagged 17 (omega arith) (Reads-index_pair _ a b h)
  Reads-entry (CpInfo.invoke_dynamic a b) h = tagged 18 (omega arith) (Reads-index_pair _ a b h)
  Reads-entry (CpInfo.unknown t) h = absurd h

  Reads-entries :
      (es : List CpInfo)
      → IsSlots es
      → Reads (read_entries grants (length es)) (entries_bytes es) es
  unfolding read_entries
  Reads-entries es IsSlots.nil = Reads-pure []
  Reads-entries es (IsSlots.one e {entries = []} h narrow rest) =
      Reads-bind _ _ (Reads-entry e h)
        (Reads-then _ _ (Reads-require _ _ (rw narrow)) (Reads-pure _))
  Reads-entries es (IsSlots.one e {entries = d ∷ ds} h narrow rest) =
      Reads-bind _ _ (Reads-entry e h)
        (rw narrow (Reads-last _ _ (Reads-entries (d ∷ ds) rest) (Reads-pure _)))
  Reads-entries es (IsSlots.two e {entries} h wide rest) =
      Reads-bind _ _ (Reads-entry e h)
        (rw wide (Reads-last _ _ (Reads-entries entries rest) (Reads-pure _)))

  Reads-pool_slots :
      (slots : List CpInfo)
      → IsSlots slots
      → suc (length slots) < 65536
      → Reads
          (constant_pool_read grants)
          (be2 (suc (length slots)) ++ entries_bytes slots)
          (record { entries = CpInfo.empty ∷ slots; capacity = suc (length slots) })
  unfolding constant_pool_read
  Reads-pool_slots slots h counted =
      let left : suc (length slots) - 1 ≡ length slots = omega arith in
      Reads-bind _ _ (Reads-u2 (suc (length slots)) counted) (
        Reads-then _ _ (Reads-check _) (
          Reads-then _ _ (Reads-require _ _ (ground arith)) (
            Reads-then _ _ (Reads-reserve grants (suc (length slots)) 24 plenty)
              (Reads-last _ _ (rw left (Reads-entries slots h)) (Reads-pure _)))))

  pub Reads-pool :
      (pool : ConstantPool)
      → IsPool pool
      → Reads
          (constant_pool_read grants)
          (pool_bytes pool)
          (record pool { capacity = length pool.entries })
  Reads-pool pool h =
      subst
        (λ entries.
          Reads (constant_pool_read grants) (be2 (length entries) ++ entries_bytes (drop 1 entries))
            (record { entries = entries; capacity = length entries }))
        (sym h.shape)
        (Reads-pool_slots h.slots h.in_order
          (subst (λ entries. length entries < 65536) h.shape h.counted))

-- The value is one that the format allows, and `bytes` are its bytes behind its tag.
abbrev IsPayload : ℕ → CpInfo → List ℕ → Type 0
IsPayload tag e bytes = IsEntry e × (entry_bytes e ≡ tag ∷ bytes)

Sound-index :
    (make : ℕ → CpInfo) {tag : ℕ}
    → ((a : ℕ) → IsU2 a → IsPayload tag (make a) (be2 a))
    → Sound (read_index make) (IsPayload tag)
unfolding read_index
Sound-index make {tag} h = Sound-bind _ _ Sound-u2 λ a bs.
    Sound-pure (make a) λ (fits, same).
      subst (λ xs. IsPayload tag (make a) xs) (sym (append-nil bs ∙ same)) (h a fits)

Sound-index_pair :
    (make : ℕ → ℕ → CpInfo) {tag : ℕ}
    → ((a b : ℕ) → IsU2 a × IsU2 b → IsPayload tag (make a b) (be2 a ++ be2 b))
    → Sound (read_index_pair make) (IsPayload tag)
unfolding read_index_pair
Sound-index_pair make {tag} h = Sound-bind _ _ Sound-u2 λ a bs. Sound-bind _ _ Sound-u2 λ b cs.
    Sound-pure (make a b) λ (fits', same') (fits, same).
      subst (IsPayload tag (make a b)) (sym (ap₂ ◌++◌ same (append-nil cs ∙ same')))
        (h a b (fits, fits'))

Sound-numeric :
    (make : List ℕ → CpInfo) (n : ℕ) {tag : ℕ}
    → ((bytes : List ℕ) → IsBlock n bytes → IsPayload tag (make bytes) bytes)
    → Sound (read_numeric make n) (IsPayload tag)
unfolding read_numeric
Sound-numeric make n {tag} h = Sound-bind _ _ (Sound-bytes n) λ v bs.
    Sound-pure (make v) λ (counted, same, bytes).
      subst (IsPayload tag (make v)) (sym (append-nil bs ∙ same)) (h v (counted, bytes))

Sound-method_handle : Sound read_method_handle (IsPayload 15)
unfolding read_method_handle
Sound-method_handle = Sound-bind _ _ Sound-u1 λ a bs. Sound-bind _ _ Sound-u2 λ b cs.
    Sound-pure (CpInfo.method_handle a b) λ (fits', same') (fits, same).
      subst (IsPayload 15 (CpInfo.method_handle a b)) (sym (ap₂ ◌++◌ same (append-nil cs ∙ same')))
        ((fits, fits'), refl)

Sound-unknown : {R : CpInfo → List ℕ → Type 0} → Sound read_unknown R
unfolding read_unknown
Sound-unknown = Sound-bind _ _ (Sound-check _) λ u bs. Sound-fail _

Sound-utf8 : (grants : ℕ → Bool) → Sound (read_utf8 grants) (IsPayload 1)
unfolding read_utf8
Sound-utf8 grants = Sound-bind _ _ Sound-u2 λ n bs. Sound-bind _ _ (Sound-bytes n) λ v cs.
    Sound-bind _ _ (Sound-allocate grants (copy_size n)) λ u ds.
      Sound-pure (CpInfo.utf8 v) λ none_read (counted, same', bytes) (fits, same).
        ((rw counted fits, bytes), simp (none_read, same', same, counted, append-nil))

at_tag :
    {p : Reader CpInfo} (tag k : ℕ)
    → (tag == k) ≡ true
    → Sound p (IsPayload k)
    → Sound p (IsPayload tag)
at_tag {p} tag k h s = subst (λ t. Sound p (IsPayload t)) (sym (eq_of_test tag k h)) s

module _ (grants : ℕ → Bool) where
  Sound-read_payload : (tag : ℕ) → Sound (read_payload grants tag) (IsPayload tag)
  unfolding read_payload
  Sound-read_payload t =
      Sound-if (t == 1) (λ h. at_tag t 1 h (Sound-utf8 grants))
        (Sound-if (t == 3) (λ h. at_tag t 3 h (Sound-numeric _ 4 λ b k. (k, refl)))
          (Sound-if (t == 4) (λ h. at_tag t 4 h (Sound-numeric _ 4 λ b k. (k, refl)))
            (Sound-if (t == 5) (λ h. at_tag t 5 h (Sound-numeric _ 8 λ b k. (k, refl)))
              (Sound-if (t == 6) (λ h. at_tag t 6 h (Sound-numeric _ 8 λ b k. (k, refl)))
                (Sound-if (t == 7) (λ h. at_tag t 7 h (Sound-index _ λ a k. (k, refl)))
                  (Sound-if (t == 19) (λ h. at_tag t 19 h (Sound-index _ λ a k. (k, refl)))
                    (Sound-if (t == 20) (λ h. at_tag t 20 h (Sound-index _ λ a k. (k, refl)))
                      (Sound-if (t == 8) (λ h. at_tag t 8 h (Sound-index _ λ a k. (k, refl)))
                        (Sound-if (t == 9)
                          (λ h. at_tag t 9 h (Sound-index_pair _ λ a b k. (k, refl)))
                          (Sound-if (t == 10)
                            (λ h. at_tag t 10 h (Sound-index_pair _ λ a b k. (k, refl)))
                            (Sound-if (t == 11)
                              (λ h. at_tag t 11 h (Sound-index_pair _ λ a b k. (k, refl)))
                              (Sound-if (t == 12)
                                (λ h. at_tag t 12 h (Sound-index_pair _ λ a b k. (k, refl)))
                                (Sound-if (t == 15) (λ h. at_tag t 15 h (Sound-method_handle))
                                  (Sound-if (t == 16)
                                    (λ h. at_tag t 16 h (Sound-index _ λ a k. (k, refl)))
                                    (Sound-if (t == 17)
                                      (λ h. at_tag t 17 h (Sound-index_pair _ λ a b k. (k, refl)))
                                      (Sound-if (t == 18)
                                        (λ h. at_tag t 18 h (Sound-index_pair _ λ a b k. (k, refl)))
                                        (Sound-unknown)))))))))))))))))

  Sound-read_entry : Sound (read_entry grants) (λ e bytes. IsEntry e × (entry_bytes e ≡ bytes))
  unfolding read_entry
  Sound-read_entry = Sound-bind _ _ Sound-u1 λ tag bs.
      Sound-bind _ _ (Sound-read_payload tag) λ e cs. Sound-bind _ _ (Sound-check _) λ u ds.
        Sound-pure e λ none_read (valid, same') (fits, same).
          (valid, same' ∙ simp (none_read, same, append-nil) (ap (λ t. t ∷ cs) (omega arith)))

  Sound-entries :
      (left : ℕ)
      → Sound
          (read_entries grants left)
          (λ es bytes. IsSlots es × (length es ≡ left) × (entries_bytes es ≡ bytes))
  unfolding read_entries
  Sound-entries zero = Sound-pure [] (IsSlots.nil, refl, refl)
  Sound-entries (suc zero) = Sound-bind _ _ Sound-read_entry λ e bs.
      Sound-bind _ _ (Sound-require _ _) λ u cs.
        Sound-pure (e ∷ []) λ (narrow, none_read) (valid, same).
          (IsSlots.one e valid (ground arith) IsSlots.nil, refl, simp (none_read, same, append-nil))
  Sound-entries (suc (suc left)) = Sound-bind _ _ Sound-read_entry λ e bs.
      elim (Bool-cases (cp_info_slots (tag_of e) == 2)) [
        | inl wide ↦ rw wide (
            Sound-bind _ _ (Sound-entries left) λ es cs.
              Sound-pure (e ∷ CpInfo.empty ∷ es) λ (slots, counted, same') (valid, same). (
                IsSlots.two e valid wide slots,
                omega (arith, counted),
                simp (same', same, append-nil),
              ))
        | inr narrow ↦ rw narrow (
            Sound-bind _ _ (Sound-entries (suc left)) λ es cs.
              Sound-pure (e ∷ es) λ (slots, counted, same') (valid, same). (
                IsSlots.one e valid narrow slots,
                omega (arith, counted),
                simp (same', same, append-nil),
              ))
      ]

  pub Sound-pool : Sound (constant_pool_read grants) (λ pool bytes.
      IsPool pool × (pool_bytes pool ≡ bytes) × (pool.capacity ≡ length pool.entries))
  unfolding constant_pool_read
  Sound-pool = Sound-bind _ _ Sound-u2 λ count bs. Sound-bind _ _ (Sound-check _) λ _ cs.
      Sound-bind _ _ (Sound-require _ _) λ _ ds.
        Sound-bind _ _ (Sound-reserve grants count 24) λ _ es.
          Sound-bind _ _ (Sound-entries (count - 1)) λ slots fs.
            Sound-pure _ λ (h, counted, same') none₃ (some_slot, none₂) none₁ (fits, same).
              let total : suc (length slots) ≡ count = ground arith in
              (
                record {
                  slots = slots;
                  shape = refl;
                  in_order = h;
                  counted = omega (arith, total);
                },
                simp (none₁, none₂, none₃, total, same', same, append-nil),
                sym total,
              )
