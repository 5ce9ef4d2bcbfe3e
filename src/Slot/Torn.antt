-- ===== src/Slot/Torn.antt =====
-- `read_slot` of src/spmc.rs against every interleaving with the slot's writer: no torn copy passes.
use ringfire.Prelude.{ℕ, ◌*◌, ◌≤◌, ◌<◌, ◌≡◌, ◌⊎◌, ◌≢◌, arith, subst, ap, ◌∙◌}
use ringfire.Constants.{slot_writing}
use ringfire.Slot.{item, overwritten, read_slot}
use ringfire.Slot.Protocol.{
  Phase, idle, copying, SlotState, Holds, IsSound, rank, IsHistory, History-IsSound, History-rank,
}

-- The three facts behind an item.
pub read_slot-item :
    {T : Type 0} (s1 : ℕ) (x : T) (s2 want : ℕ) {d : T}
    → read_slot s1 x s2 want ≡ item d
    → (s1 ≡ want) × (s2 ≡ want) × (d ≡ x)
unfolding read_slot
read_slot-item s1 x s2 want e = (ground arith, ground arith, ground arith)

pub read_slot_same :
    {T : Type 0} (s1 : ℕ) (x : T) (s2 want : ℕ)
    → s1 ≡ want
    → s2 ≡ want
    → read_slot s1 x s2 want ≡ item x
unfolding read_slot
read_slot_same s1 x s2 want e f = ground arith

-- What a reader learns of a message that is gone: a sequence in the slot, or nothing.
pub read_slot-overwritten :
    {T : Type 0} (s1 : ℕ) (x : T) (s2 want : ℕ) {seen : ℕ}
    → read_slot s1 x s2 want ≡ overwritten seen
    → (seen ≡ 0) ⊎ ((seen ≢ slot_writing) × ((seen ≡ s1) ⊎ (seen ≡ s2)))
unfolding read_slot
read_slot-overwritten s1 x s2 want e = ground arith

module _ {W : Type 0} (size : ℕ) (msg : ℕ → ℕ → W) where
  -- The slot's sequence is a message's number only while the writer is idle after that message.
  Phase-published :
      (s : SlotState W) (p : Phase) (n : ℕ)
      → Holds size msg s p
      → s.seq ≡ n
      → n < slot_writing
      → p ≡ idle n
  Phase-published s (idle last) n h e lt = ground arith
  Phase-published s (copying m c) n h e lt = absurd (omega arith)

  -- Between two moments of rank `2 * n` the phase is `idle n`.
  Phase_of_rank : (p : Phase) (n : ℕ) → rank p ≡ 2 * n → 0 < n → p ≡ idle n
  Phase_of_rank (idle last) n e pos = ground arith
  Phase_of_rank (copying m c) n e pos = absurd (omega arith)

  -- Whatever the writer does between the reader's accesses, in whatever order the words are copied
  -- between the two loads, `read_slot` returns an item only if each of its words is that word of
  -- message `want`. The writer makes its accesses one at a time, with rising sequences.
  pub read_slot-not_torn :
      (h : ℕ → SlotState W)
      → IsHistory size msg h
      → IsSound size msg (h 0)
      → (want first second : ℕ) (at : ℕ → ℕ) → 0 < want
      → want < slot_writing
      → ((j : ℕ) → j < size → (first ≤ at j) × (at j ≤ second))
      → {d : ℕ → W} → read_slot (h first).seq (λ j. (h (at j)).words j) (h second).seq want ≡ item d
      → (j : ℕ) → j < size
      → d j ≡ msg want j
  read_slot-not_torn h steps start want first second at pos small order e j lt =
      let sound = History-IsSound size msg h steps start in
      let (s1, s2, same) = read_slot-item _ _ _ want e in
      let before = Phase-published (h first) _ want (sound first) s1 small in
      let after = Phase-published (h second) _ want (sound second) s2 small in
      let (le, le') = order j lt in
      let low = History-rank size msg h steps first (at j) le in
      let high = History-rank size msg h steps (at j) second le' in
      let steady : rank (h (at j)).phase ≡ 2 * want = ground (arith, low, high) in
      let idle_at = Phase_of_rank (h (at j)).phase want steady pos in
      let (_, _, words) = subst (Holds size msg (h (at j))) idle_at (sound (at j)) in
      ap (λ f. f j) same ∙ words j pos lt
