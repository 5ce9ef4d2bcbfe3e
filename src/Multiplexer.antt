-- ===== src/Multiplexer.antt =====
-- src/multiplexer.rs `RingMultiplexer`: one reader of many rings. A consumer is any type with the `try_recv` of
-- `RingConsumer`, with its ring, which rests while it is polled; the vector of consumers is a family with its
-- length.
pub mod Fair
mod Examples
use ringfire.Prelude.{
  ℕ, zero, suc, ◌+◌, ◌%◌, Option, none, some, List, [], ◌∷◌, ◌++◌, ◌==◌, if◌then◌else◌, update,
}
use Prim.Native.String.{String}

pub record RingMultiplexer (C : Type 0) : Type 0 where
  pub consumers : ℕ → C
  pub len : ℕ
  pub names : List String
  pub next_idx : ℕ

module _ {C : Type 0} where
  -- `new`; the cells past `len` hold no consumer, and `unused` stands for them.
  unfoldable pub new_multiplexer : C → RingMultiplexer C
  new_multiplexer unused = record { consumers = λ i. unused; len = 0; names = []; next_idx = 0 }

  unfoldable pub add_named : String → C → RingMultiplexer C → ℕ × RingMultiplexer C
  add_named name consumer m = (
    m.len,
    record m {
      consumers = update m.consumers m.len consumer;
      len = m.len + 1;
      names = m.names ++ (name ∷ []);
    },
  )

  -- `label idx` is the text of `format!("channel_{}", idx)`.
  unfoldable pub add : (label : ℕ → String) → C → RingMultiplexer C → ℕ × RingMultiplexer C
  add label consumer m = add_named (label m.len) consumer m

module _ {C T : Type 0} (try_recv : C → Option T × C) where
  -- A poll of channel `idx`: the rest of the loop, unless it had a message.
  abbrev pub found_or :
      (idx : ℕ) → Option T → (ℕ → C) → Option (ℕ × T) × (ℕ → C) → Option (ℕ × T) × (ℕ → C)
  found_or idx none polled rest = rest
  found_or idx (some msg) polled rest = (some (idx, msg), polled)

  -- `for i in 0..n` with the rounds that are left.
  pub poll_from : (rounds i start n : ℕ) → (ℕ → C) → Option (ℕ × T) × (ℕ → C)
  poll_from zero i start n cs = (none, cs)
  poll_from (suc rounds) i start n cs =
      let idx = (start + i) % n in
      let (got, c) = try_recv (cs idx) in
      let polled = update cs idx c in
      found_or idx got polled (poll_from rounds (i + 1) start n polled)

  -- `self.next_idx = (idx + 1) % n` for a message.
  abbrev pub moved_on :
      RingMultiplexer C → Option (ℕ × T) × (ℕ → C) → Option (ℕ × T) × RingMultiplexer C
  moved_on m (none, cs) = (none, record m { consumers = cs })
  moved_on m (some (idx, msg), cs) =
      (some (idx, msg), record m { consumers = cs; next_idx = (idx + 1) % m.len })

  pub try_recv_any : RingMultiplexer C → Option (ℕ × T) × RingMultiplexer C
  try_recv_any m =
      if m.len == 0 then (none, m) else moved_on m (poll_from m.len 0 m.next_idx m.len m.consumers)

  -- The loop over `enumerate` from `idx` on.
  pub poll_in_order : (rounds idx : ℕ) → (ℕ → C) → Option (ℕ × T) × (ℕ → C)
  poll_in_order zero idx cs = (none, cs)
  poll_in_order (suc rounds) idx cs =
      let (got, c) = try_recv (cs idx) in
      let polled = update cs idx c in
      found_or idx got polled (poll_in_order rounds (idx + 1) polled)

  pub try_recv_priority : RingMultiplexer C → Option (ℕ × T) × RingMultiplexer C
  try_recv_priority m =
      let (got, cs) = poll_in_order m.len 0 m.consumers in (got, record m { consumers = cs })

  -- One message more, before the rest of the batch.
  abbrev pub then_batch :
      Option (ℕ × T) × RingMultiplexer C
      → (RingMultiplexer C → List (ℕ × T) × RingMultiplexer C)
      → List (ℕ × T) × RingMultiplexer C
  then_batch (none, m) next = ([], m)
  then_batch (some x, m) next = let (xs, m') = next m in (x ∷ xs, m')

  pub recv_batch_any : (max_items : ℕ) → RingMultiplexer C → List (ℕ × T) × RingMultiplexer C
  recv_batch_any zero m = ([], m)
  recv_batch_any (suc max_items) m = then_batch (try_recv_any m) (recv_batch_any max_items)
