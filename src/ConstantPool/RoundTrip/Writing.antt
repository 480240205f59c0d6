-- ===== src/ConstantPool/RoundTrip/Writing.antt =====
-- src/class_file_writer.c, `write_constant_pool`: the bytes that it writes.
use jni2hook.Base.{ℕ, ◌≡◌, refl, sym, subst, Bool, List, [], ◌++◌, length, drop, Result, ok, bind}
use jni2hook.ByteStream.Buffer.{
  Writer, ◌>>◌, skip, byte_buffer_u1, byte_buffer_u2, byte_buffer_bytes,
}
use jni2hook.ByteStream.Reads.{be1, be2}
use jni2hook.ByteStream.Writes.{
  Writes, Writes-u1, Writes-u2, Writes-bytes, Writes-skip, Writes-then,
}
use jni2hook.ConstantPool.Entry.{CpInfo, IsEntry}
use jni2hook.ConstantPool.Codec.{ConstantPool, write_entry, write_entries, write_constant_pool}
use jni2hook.ConstantPool.RoundTrip.Layout.{entry_bytes, entries_bytes, pool_bytes, IsSlots, IsPool}

module _ (grants : ℕ → Bool) where
  -- A routine that may refuse the tree does not, and what it then does writes `bytes`.
  pub record Accepts (r : Result Writer) (bytes : List ℕ) : Type 0 where
    pub writer : Writer
    pub accepted : r ≡ ok writer
    pub writes : Writes grants writer bytes

  pub accept : (w : Writer) {bytes : List ℕ} → Writes grants w bytes → Accepts (ok w) bytes
  accept w h = record { writer = w; accepted = refl; writes = h }

  tagged_pair :
      (tag a b : ℕ)
      → Accepts
          (ok (byte_buffer_u1 grants tag >> (byte_buffer_u2 grants a >> byte_buffer_u2 grants b)))
          (be1 tag ++ (be2 a ++ be2 b))
  tagged_pair tag a b = accept _ (
      Writes-then grants _ _ (Writes-u1 grants tag)
        (Writes-then grants _ _ (Writes-u2 grants a) (Writes-u2 grants b)))

  tagged_index :
      (tag a : ℕ)
      → Accepts (ok (byte_buffer_u1 grants tag >> byte_buffer_u2 grants a)) (be1 tag ++ be2 a)
  tagged_index tag a = accept _ (Writes-then grants _ _ (Writes-u1 grants tag) (Writes-u2 grants a))

  tagged_block :
      (tag : ℕ) (bytes : List ℕ)
      → Accepts
          (ok (byte_buffer_u1 grants tag >> byte_buffer_bytes grants bytes))
          (be1 tag ++ bytes)
  tagged_block tag bytes =
      accept _ (Writes-then grants _ _ (Writes-u1 grants tag) (Writes-bytes grants bytes))

  Accepts-entry : (e : CpInfo) → IsEntry e → Accepts (write_entry grants e) (entry_bytes e)
  unfolding write_entry
  Accepts-entry CpInfo.empty h = absurd h
  Accepts-entry (CpInfo.utf8 bytes) h = accept _ (
      Writes-then grants _ _ (Writes-u1 grants 1)
        (Writes-then grants _ _ (Writes-u2 grants (length bytes)) (Writes-bytes grants bytes)))
  Accepts-entry (CpInfo.integer bytes) h = tagged_block 3 bytes
  Accepts-entry (CpInfo.float bytes) h = tagged_block 4 bytes
  Accepts-entry (CpInfo.long bytes) h = tagged_block 5 bytes
  Accepts-entry (CpInfo.double bytes) h = tagged_block 6 bytes
  Accepts-entry (CpInfo.class_info a) h = tagged_index 7 a
  Accepts-entry (CpInfo.module_info a) h = tagged_index 19 a
  Accepts-entry (CpInfo.package_info a) h = tagged_index 20 a
  Accepts-entry (CpInfo.string_info a) h = tagged_index 8 a
  Accepts-entry (CpInfo.fieldref a b) h = tagged_pair 9 a b
  Accepts-entry (CpInfo.methodref a b) h = tagged_pair 10 a b
  Accepts-entry (CpInfo.interface_methodref a b) h = tagged_pair 11 a b
  Accepts-entry (CpInfo.name_and_type a b) h = tagged_pair 12 a b
  Accepts-entry (CpInfo.method_handle a b) h = accept _ (
      Writes-then grants _ _ (Writes-u1 grants 15)
        (Writes-then grants _ _ (Writes-u1 grants a) (Writes-u2 grants b)))
  Accepts-entry (CpInfo.method_type a) h = tagged_index 16 a
  Accepts-entry (CpInfo.dynamic a b) h = tagged_pair 17 a b
  Accepts-entry (CpInfo.invoke_dynamic a b) h = tagged_pair 18 a b
  Accepts-entry (CpInfo.unknown t) h = absurd h

  pub accept_both :
      {r s : Result Writer} {bs cs : List ℕ}
      → Accepts r bs
      → Accepts s cs
      → Accepts (bind r (λ w. bind s (λ v. ok (w >> v)))) (bs ++ cs)
  accept_both h k =
      rw (h.accepted, k.accepted)
        (accept (h.writer >> k.writer) (Writes-then grants h.writer k.writer h.writes k.writes))

  empty_slot : Accepts (write_entry grants CpInfo.empty) []
  unfolding write_entry
  empty_slot = accept skip (Writes-skip grants)

  Accepts-entries :
      (es : List CpInfo) → IsSlots es → Accepts (write_entries grants es) (entries_bytes es)
  unfolding write_entries
  Accepts-entries es IsSlots.nil = accept skip (Writes-skip grants)
  Accepts-entries es (IsSlots.one e {entries} h narrow rest) =
      accept_both (Accepts-entry e h) (Accepts-entries entries rest)
  Accepts-entries es (IsSlots.two e {entries} h wide rest) =
      accept_both (Accepts-entry e h) (accept_both empty_slot (Accepts-entries entries rest))

  pub Accepts-pool :
      (pool : ConstantPool)
      → IsPool pool
      → Accepts (write_constant_pool grants pool) (pool_bytes pool)
  unfolding write_constant_pool
  Accepts-pool pool h =
      let slots =
        subst (λ es. Accepts (write_entries grants (drop 1 es)) (entries_bytes (drop 1 es)))
          (sym h.shape) (Accepts-entries h.slots h.in_order) in
      rw slots.accepted (
        accept (byte_buffer_u2 grants (length pool.entries) >> slots.writer)
          (Writes-then grants _ _ (Writes-u2 grants (length pool.entries)) slots.writes))
