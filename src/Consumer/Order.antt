-- ===== src/Consumer/Order.antt =====
-- What src/spmc.rs `next_item` and `recv_batch` deliver: messages, in order, none twice.
use ringfire.Prelude.{
  ℕ, zero, suc, ◌+◌, ◌≤◌, ◌<◌, ◌≡◌, refl, ◌⊎◌, inl, inr, Option, none, some, arith, bit_and, List,
  [], ◌∷◌, length, ap, ◌∙◌,
}
use ringfire.Constants.{slot_writing}
use ringfire.Slot.{SlotRead, item, pending, overwritten}
use ringfire.Slot.Torn.{read_slot-item}
use ringfire.Consumer.{
  World, RingConsumer, after_read, update_cursor, read_at, Turn, returns, again, Received,
  poll_sparse, turn_pending, turn_on, turn, settle, next_item_from, fill, recv_batch,
}
use ringfire.Consumer.Progress.{IsBounded, HasRoom, Moved, TurnMoved, turn-Moved, next_item_total}

-- `Is n x` says that `x` is message `n`. A copy made while the slot's sequence stays that of a message
-- is that message: `Slot.Torn` proves this of the slot protocol.
abbrev pub IsFaithful : {T : Type 0} → (ℕ → T → Type 0) → World T → Type 0
IsFaithful Is w =
    (t i n : ℕ)
    → 0 < n
    → n < slot_writing
    → ((w t).slots i).seq ≡ n
    → ((w (t + 2)).slots i).seq ≡ n
    → Is n ((w (t + 1)).slots i).content

module _ {T : Type 0} (Is : ℕ → T → Type 0) (newest : ℕ) (w : World T) where
  -- An item that a consumer has read, when its cursor stood at `from` before.
  pub record Delivered (from : ℕ) (capacity : ℕ) (x : T) (d : RingConsumer) : Type 0 where
    pub number : ℕ
    pub in_order : from ≤ number
    pub published : number ≤ newest
    pub cursor : d.cursor ≡ number + 1
    pub is_message : Is number x
    pub same_capacity : d.capacity ≡ capacity

  abbrev pub Delivers : RingConsumer → Option T → RingConsumer → Type 0
  Delivers c none d = Unit
  Delivers c (some x) d = Delivered c.cursor c.capacity x d

  abbrev TurnDelivers : RingConsumer → Turn T → Type 0
  TurnDelivers c (returns x s d) = Delivers c x d
  TurnDelivers c (again s d) = Unit

  module _ (bounded : IsBounded w newest) (faithful : IsFaithful Is w) where
    turn_pending-none :
        (c d : RingConsumer) (skipped : ℕ) → TurnDelivers d (turn_pending w skipped c)
    unfolding turn_pending poll_sparse
    turn_pending-none c d skipped = ground arith

    turn_on-Delivers :
        (skipped : ℕ) (c : RingConsumer) (x : SlotRead T)
        → HasRoom newest c
        → 0 < c.cursor
        → read_at w c ≡ x
        → TurnDelivers c (turn_on w x skipped (after_read c))
    unfolding turn_on read_at
    turn_on-Delivers skipped c (item x) r pos e =
        let i = bit_and c.cursor c.mask in
        let (s1, s2, same) =
          read_slot-item ((w c.now).slots i).seq ((w (c.now + 1)).slots i).content
            ((w (c.now + 2)).slots i).seq c.cursor e in
        record {
          number = c.cursor;
          in_order = omega arith;
          published = omega (arith, bounded.seq_le c.now i, r.ahead, r.positive);
          cursor = omega (arith, r.ahead, r.positive);
          is_message =
              rw same (faithful c.now i c.cursor pos (omega (arith, r.ahead, r.positive)) s1 s2);
          same_capacity = refl;
        }
    turn_on-Delivers skipped c (overwritten seen) r pos e = ground arith
    turn_on-Delivers skipped c pending r pos e = turn_pending-none (after_read c) c skipped

    Delivers-since :
        (c c' d : RingConsumer)
        → Moved newest c c'
        → (x : Option T) → Delivers c' x d
        → Delivers c x d
    Delivers-since c c' d m none h = tt
    Delivers-since c c' d m (some x) h = record {
      number = h.number;
      in_order = omega (arith, m.forward, h.in_order);
      published = h.published;
      cursor = h.cursor;
      is_message = h.is_message;
      same_capacity = h.same_capacity ∙ m.capacity;
    }

    settle-Delivers :
        (c : RingConsumer) (next : ℕ → RingConsumer → Option (Received T)) (t : Turn T)
        → TurnDelivers c t
        → TurnMoved newest w bounded c t
        → (x : Option T) (s : ℕ) (d : RingConsumer)
        → ((s' : ℕ) (c' : RingConsumer)
            → Moved newest c c'
            → next s' c' ≡ some (x, s, d)
            → Delivers c' x d)
        → settle w next t ≡ some (x, s, d)
        → Delivers c x d
    settle-Delivers c next (returns x' s' d') now m x s d later e = ground arith
    settle-Delivers c next (again s' c') now m x s d later e =
        Delivers-since c c' d m x (later s' c' m e)

    HasRoom-Moved : {c d : RingConsumer} → HasRoom newest c → Moved newest c d → HasRoom newest d
    HasRoom-Moved r m = omega arith

    -- An item that `next_item` returns is message `n` of the writer, for the `n` just before its new
    -- cursor, and `n` is not before its old one.
    pub next_item-Delivers :
        (fuel skipped : ℕ) (c : RingConsumer) (x : Option T) (s : ℕ) (d : RingConsumer)
        → HasRoom newest c
        → 0 < c.cursor
        → next_item_from w fuel skipped c ≡ some (x, s, d)
        → Delivers c x d
    unfolding next_item_from turn
    next_item-Delivers zero skipped c x s d r pos e = absurd (ground arith)
    next_item-Delivers (suc fuel) skipped c x s d r pos e =
        settle-Delivers c (next_item_from w fuel) (turn w skipped c)
          (turn_on-Delivers skipped c (read_at w c) r pos refl)
          (turn-Moved newest w bounded skipped c r) x s d
          (λ s' c' m q.
            next_item-Delivers fuel s' c' x s d (HasRoom-Moved r m) (omega (arith, m.forward)) q)
          e

-- The items are messages with rising numbers, from `from` on.
abbrev pub InOrder : {T : Type 0} → (ℕ → T → Type 0) → ℕ → List T → Type 0
InOrder Is from [] = Unit
InOrder Is from (x ∷ xs) = (n : ℕ) × (from ≤ n) × Is n x × InOrder Is (n + 1) xs

module _ {T : Type 0} (Is : ℕ → T → Type 0) (newest : ℕ) (w : World T)
    (bounded : IsBounded w newest) (faithful : IsFaithful Is w) where
  -- Why the loop of `recv_batch` ended: the buffer is full, or a read found nothing.
  abbrev pub Ended : ℕ → ℕ → List T → RingConsumer → Type 0
  Ended fuel room xs d =
      (length xs ≡ room)
      ⊎ ((c : RingConsumer) × (s : ℕ) × (next_item_from w fuel 0 c ≡ some (none, s, d)))

  abbrev Filled : ℕ → ℕ → RingConsumer → Type 0
  Filled fuel room c =
      (xs : List T) × (d : RingConsumer) × (fill w fuel room c ≡ some (xs, d))
      × InOrder Is c.cursor xs
      × (length xs ≤ room)
      × Ended fuel room xs d

  Ended-after :
      (fuel room : ℕ) (x : T) (xs : List T) (d : RingConsumer)
      → Ended fuel room xs d
      → Ended fuel (suc room) (x ∷ xs) d
  Ended-after fuel room x xs d (inl full) = inl (ap suc full)
  Ended-after fuel room x xs d (inr dry) = inr dry

  fill-none :
      (fuel room : ℕ) (c : RingConsumer) (s : ℕ) (d : RingConsumer)
      → next_item_from w fuel 0 c ≡ some (none, s, d)
      → Filled fuel (suc room) c
  unfolding fill
  fill-none fuel room c s d e = ([], d, ground arith, tt, omega arith, inr (c, s, e))

  fill-some :
      (fuel room : ℕ) (c : RingConsumer) (x : T) (s : ℕ) (d : RingConsumer)
      → next_item_from w fuel 0 c ≡ some (some x, s, d)
      → Delivered Is newest w c.cursor c.capacity x d
      → Filled fuel room d
      → Filled fuel (suc room) c
  unfolding fill
  fill-some fuel room c x s d e h (xs, d', e', ordered, le, why) = (
    x ∷ xs,
    d',
    ground arith,
    (h.number, h.in_order, h.is_message, rw h.cursor at ordered),
    omega arith,
    Ended-after fuel room x xs d' why,
  )

  fill_total :
      (fuel room : ℕ) (c : RingConsumer)
      → HasRoom newest c
      → 0 < c.cursor
      → newest + 2 < fuel
      → Filled fuel room c
  unfolding fill
  fill_total fuel zero c r pos enough = ([], c, refl, tt, omega arith, inl refl)
  fill_total fuel (suc room) c r pos enough =
      let (y, e) = next_item_total newest w bounded fuel 0 c r (omega arith) in
      go y e (λ d p q. fill_total fuel room d p q enough)
    where
      go :
          (y : Received T)
          → next_item_from w fuel 0 c ≡ some y
          → ((d : RingConsumer) → HasRoom newest d → 0 < d.cursor → Filled fuel room d)
          → Filled fuel (suc room) c
      go (none, s, d) e rest = fill-none fuel room c s d e
      go (some x, s, d) e rest =
          let h = next_item-Delivers Is newest w bounded faithful fuel 0 c (some x) s d r pos e in
          fill-some fuel room c x s d e h (
            rest d (omega (arith, h.cursor, h.published, h.same_capacity, r.positive, r.room))
              (omega (arith, h.cursor)))

  pub recv_batch_total :
      (fuel room : ℕ) (c : RingConsumer)
      → HasRoom newest c
      → 0 < c.cursor
      → newest + 2 < fuel
      → (xs : List T) × (d e : RingConsumer) × (recv_batch w fuel room c ≡ some (xs, d))
        × InOrder Is c.cursor xs
        × (length xs ≤ room)
        × Ended fuel room xs e
  unfolding recv_batch
  recv_batch_total fuel room c r pos enough = go (fill_total fuel room c r pos enough)
    where
      go :
          Filled fuel room c
          → (xs : List T) × (d e : RingConsumer) × (recv_batch w fuel room c ≡ some (xs, d))
            × InOrder Is c.cursor xs
            × (length xs ≤ room)
            × Ended fuel room xs e
      go ([], d, e, ordered, le, why) = ([], d, d, ground arith, ordered, le, why)
      go (x ∷ xs, d, e, ordered, le, why) =
          (x ∷ xs, update_cursor d, d, ground arith, ordered, le, why)
