-- ===== src/Consumer/Memory.antt =====
-- The memory of a ring whose slots are written by the protocol of src/spmc.rs `write_slot`: each slot
-- goes through its own history, and a copy reads each word at a moment of its own.
use ringfire.Prelude.{ℕ, ◌+◌, ◌≤◌, ◌<◌, ◌≡◌, List, some, length}
use ringfire.Slot.Protocol.{SlotState, IsHistory, IsSound}
use ringfire.Slot.Torn.{read_slot-not_torn, read_slot_same}
use ringfire.Consumer.{World, RingConsumer, recv_batch}
use ringfire.Consumer.Progress.{IsBounded, HasRoom}
use ringfire.Consumer.Order.{IsFaithful, InOrder, recv_batch_total}

-- `slot i t` is slot `i` at moment `t`; a copy at moment `t` reads word `j` of slot `i` at `read_at t i j`.
pub record Memory (W : Type 0) (size : ℕ) (msg : ℕ → ℕ → W) : Type 0 where
  pub write_seq : ℕ → ℕ
  pub slot : ℕ → ℕ → SlotState W
  pub read_at : ℕ → ℕ → ℕ → ℕ
  pub steps : (i : ℕ) → IsHistory size msg (slot i)
  pub start : (i : ℕ) → IsSound size msg (slot i 0)
  pub between : (t i j : ℕ) → (t ≤ read_at (t + 1) i j) × (read_at (t + 1) i j ≤ t + 2)

module _ {W : Type 0} {size : ℕ} {msg : ℕ → ℕ → W} (m : Memory W size msg) where
  abbrev pub world_of : World (ℕ → W)
  world_of t = record {
    write_seq = m.write_seq t;
    slots =
        λ i. record { seq = (m.slot i t).seq; content = λ j. (m.slot i (m.read_at t i j)).words j };
  }

abbrev pub IsMessage : {W : Type 0} → ℕ → (ℕ → ℕ → W) → ℕ → (ℕ → W) → Type 0
IsMessage size msg n x = (j : ℕ) → j < size → x j ≡ msg n j

pub world_of-IsFaithful :
    {W : Type 0} {size : ℕ} {msg : ℕ → ℕ → W} (m : Memory W size msg)
    → IsFaithful (IsMessage size msg) (world_of m)
world_of-IsFaithful {size} {msg} m t i n pos small s1 s2 =
    read_slot-not_torn size msg (m.slot i) (m.steps i) (m.start i) n t (t + 2) (m.read_at (t + 1) i)
      pos small (λ j _. m.between t i j) (read_slot_same _ _ _ n s1 s2)

-- On slots written by the protocol, with the writer and the consumer interleaved in any way and words
-- copied in any order: `recv_batch` returns, and every item of its buffer is, word for word, a message
-- of the writer, with rising numbers that do not come before the cursor.
pub recv_batch-IsMessage :
    {W : Type 0} {size : ℕ} {msg : ℕ → ℕ → W} (m : Memory W size msg) (newest fuel room : ℕ)
    (c : RingConsumer)
    → IsBounded (world_of m) newest
    → HasRoom newest c
    → 0 < c.cursor
    → newest + 2 < fuel
    → (xs : List (ℕ → W)) × (d : RingConsumer) × (recv_batch (world_of m) fuel room c
        ≡ some (xs, d))
      × InOrder (IsMessage size msg) c.cursor xs
      × (length xs ≤ room)
recv_batch-IsMessage {size} {msg} m newest fuel room c bounded r pos enough =
    let (xs, d, _, e, ordered, le, _) =
      recv_batch_total (IsMessage size msg) newest (world_of m) bounded (world_of-IsFaithful m) fuel
        room c r pos enough in
    (xs, d, e, ordered, le)
