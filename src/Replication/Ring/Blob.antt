-- ===== src/Replication/Ring/Blob.antt =====
-- `write_blob` of `MirrorRing` (src/replication.rs): the record's blob moves into the mirror's arena, and its
-- descriptor points to it.
use ringfire.Prelude.{
  ℕ, ◌-◌, ◌^◌, ◌≤◌, ◌<◌, ◌≡◌, refl, ap, ◌∙◌, some, List, ◌++◌, length, take, drop, length-append,
  length-take, arith, add_u64, bit_and, update_self,
}
use ringfire.Errors.{ok}
use ringfire.Slot.{write_slot}
use ringfire.Arena.{BlobRef, PayloadArena, read_blob}
use ringfire.Arena.Reserve.{IsArena, IsAligned}
use ringfire.Arena.Blobs.{
  Fits, ref_of, arena_after, placed, write_blob-eq, write_blob-IsHeld, IsHeld-read,
  arena_after-IsArena,
}
use ringfire.Replication.Bytes.{to_le_bytes, from_le_bytes-to_le_bytes, take-append, drop-append}
use ringfire.Replication.Ring.{MirrorRing, blob_ref_at, put_blob_ref, write, write_blob}

-- The descriptor that was put is the one that is found.
blob_ref_at-put_blob_ref :
    (d : List ℕ) (r : BlobRef)
    → 16 ≤ length d
    → r.offset < 2 ^ 64
    → r.len < 2 ^ 32
    → r.flags < 2 ^ 32
    → blob_ref_at (put_blob_ref d r) ≡ r
unfolding blob_ref_at put_blob_ref to_le_bytes
blob_ref_at-put_blob_ref d r long offset len flags =
    let front = take (length d - 16) d in
    let tail = to_le_bytes 8 r.offset ++ (to_le_bytes 4 r.len ++ to_le_bytes 4 r.flags) in
    let size : length front ≡ length d - 16 = omega (arith, length-take (length d - 16) d) in
    let at : length (front ++ tail) - 16 ≡ length front = omega (arith, length-append front tail) in
    let found : drop (length (front ++ tail) - 16) (front ++ tail) ≡ tail =
      rw at (drop-append front tail (length front) refl) in
    rw found (
      cc (
        from_le_bytes-to_le_bytes 8 r.offset offset,
        from_le_bytes-to_le_bytes 4 r.len len,
        from_le_bytes-to_le_bytes 4 r.flags flags,
      ))

-- What a reader of the mirror finds in the slot of message `seq`.
pub record IsCopied (r : MirrorRing) (seq idx : ℕ) (descriptor blob : List ℕ) (a : PayloadArena)
    : Type 0 where
  pub arena : r.arena ≡ some a
  pub seq_eq : (r.slots idx).seq ≡ seq
  pub front :
      take (length descriptor - 16) (r.slots idx).content ≡ take (length descriptor - 16) descriptor
  pub flags : (blob_ref_at (r.slots idx).content).flags ≡ (blob_ref_at descriptor).flags
  pub len : (blob_ref_at (r.slots idx).content).len ≡ length blob
  pub payload : read_blob a (blob_ref_at (r.slots idx).content) (length blob) ≡ ok blob
  pub next_seq : r.next_seq ≡ add_u64 seq 1

-- A blob that the mirror's arena takes is written: the slot of its message then has the source's
-- descriptor up to its reference, the source's length and flags, and a reference at which the
-- mirror's arena holds the source's bytes. The descriptor has room for a reference, its flags have
-- 32 bits, and `reserved` has room to grow.
pub write_blob-IsCopied :
    (seq : ℕ) (descriptor blob : List ℕ) (r : MirrorRing) (a : PayloadArena)
    → r.arena ≡ some a
    → IsArena a
    → IsAligned a.reserved a
    → Fits a blob
    → 16 ≤ length descriptor
    → (blob_ref_at descriptor).flags < 2 ^ 32
    → (r' : MirrorRing) × (write_blob seq descriptor blob r ≡ some (ok tt, r'))
      × IsCopied r' seq (bit_and seq r.view.mask) descriptor blob (arena_after a blob)
unfolding write_blob write write_slot
write_blob-IsCopied seq descriptor blob r a has i al fits long flags =
    let f = (blob_ref_at descriptor).flags in
    let ref = ref_of a blob f in
    let p = placed a blob i al fits in
    let content = put_blob_ref descriptor ref in
    let idx = bit_and seq r.view.mask in
    let r' = write seq content (record r { arena = some (arena_after a blob) }) in
    let stored : r'.slots idx ≡ record { seq = seq; content = content } =
      update_self r.slots idx (record { seq = seq; content = content }) in
    let found : blob_ref_at content ≡ ref =
      blob_ref_at-put_blob_ref descriptor ref long (omega (arith, p.waste, al.1, fits.1))
        (omega (arith, fits.1)) flags in
    (
      r',
      rw (has, write_blob-eq a blob f fits) refl,
      record {
        arena = refl;
        seq_eq = ap (λ s. s.seq) stored;
        front =
            ap (λ s. take (length descriptor - 16) s.content) stored
            ∙ unfold put_blob_ref in
              take-append (take (length descriptor - 16) descriptor)
                (to_le_bytes 8 ref.offset ++ (to_le_bytes 4 ref.len ++ to_le_bytes 4 ref.flags))
                (length descriptor - 16)
                (omega (arith, length-take (length descriptor - 16) descriptor));
        flags = ap (λ s. (blob_ref_at s.content).flags) stored ∙ ap (λ b. b.flags) found;
        len = ap (λ s. (blob_ref_at s.content).len) stored ∙ ap (λ b. b.len) found;
        payload =
            ap (λ s. read_blob (arena_after a blob) (blob_ref_at s.content) (length blob)) stored
            ∙ (ap (λ b. read_blob (arena_after a blob) b (length blob)) found
                ∙ IsHeld-read (arena_after a blob) ref blob (length blob)
                    (arena_after-IsArena a blob i) (write_blob-IsHeld a blob f i al fits) fits.0
                    (omega arith));
        next_seq = refl;
      },
    )
