-- ===== src/Consumer/Rest.antt =====
-- A consumer of src/spmc.rs at a ring that nobody writes to meanwhile: what it receives is the log.
use ringfire.Prelude.{
  ℕ, ◌+◌, ◌-◌, ◌*◌, ◌/◌, ◌%◌, ◌^◌, ◌≤◌, ◌<◌, max, ◌≡◌, ◌≢◌, refl, sym, ap, ◌∙◌, subst, false, none,
  some, arith, add_u64, bit_and, bit_and-eq-mod,
}
use native.Mathlib.Nat.{div-add-mod, add-mul-mod_self_left}
use ringfire.Slot.{item, overwritten, read_slot}
use ringfire.Window.{oldest_retained}
use ringfire.Window.Retained.{oldest_retained_iff, oldest_retained-le}
use ringfire.Consumer.{
  Snapshot, World, RingConsumer, tick, after_read, update_cursor, move_to, skip_overwritten,
  read_at, returns, again, turn_pending, turn_on, turn,
}

-- The snapshot holds the newest `capacity` messages of the log, and nothing newer, and the consumer is a
-- single-producer one at most one message past the newest.
pub record Rests {T : Type 0} (s : Snapshot T) (log : ℕ → T) (c : RingConsumer) : Type 0 where
  pub exponent : ℕ
  pub capacity : c.capacity ≡ 2 ^ exponent
  pub mask : c.mask + 1 ≡ c.capacity
  pub small : s.write_seq + c.capacity + 1 < 2 ^ 64
  pub window :
      (n : ℕ)
      → 0 < n
      → n ≤ s.write_seq
      → s.write_seq < n + c.capacity
      → s.slots (n % c.capacity) ≡ record { seq = n; content = log n }
  pub beyond : (s.slots ((s.write_seq + 1) % c.capacity)).seq ≤ s.write_seq
  pub started : 0 < c.cursor
  pub behind : c.cursor ≤ s.write_seq + 1
  pub single : c.multi_producer ≡ false
  pub dense : c.sparse ≡ false

-- The retained message in the slot of an older one.
tenant :
    (n ws c : ℕ) → n ≤ ws → 0 < c → (m : ℕ) × (m ≤ ws) × (ws < m + c) × (m % c ≡ n % c) × (n ≤ m)
tenant n ws c le pos =
    let q = (ws - n) / c in
    let split = div-add-mod (ws - n) c in
    (
      n + c * q,
      omega (arith, split),
      omega (arith, split),
      add-mul-mod_self_left n c q,
      omega arith,
    )

-- Memory that does not change.
abbrev pub still : {T : Type 0} → Snapshot T → World T
still s t = s

-- Where the consumer stands once it has skipped what is overwritten.
abbrev pub start_of : {T : Type 0} → Snapshot T → RingConsumer → ℕ
start_of s c = max c.cursor (oldest_retained s.write_seq c.capacity)

-- What `next_item` does to the consumer when it returns message `n`.
abbrev pub Took : RingConsumer → ℕ → RingConsumer → Type 0
Took c n d =
    (d.cursor ≡ n + 1)
    × (d.capacity ≡ c.capacity)
    × (d.mask ≡ c.mask)
    × (d.multi_producer ≡ c.multi_producer)
    × (d.sparse ≡ c.sparse)

module _ {T : Type 0} (s : Snapshot T) (log : ℕ → T) where
  module _ (c : RingConsumer) (r : Rests s log c) where
    masked : bit_and c.cursor c.mask ≡ c.cursor % c.capacity
    masked = (bit_and-eq-mod r.exponent c.capacity c.mask c.cursor r.capacity r.mask).0

    pub positive : 0 < c.capacity
    positive =
        omega (arith, (bit_and-eq-mod r.exponent c.capacity c.mask c.cursor r.capacity r.mask).1)

    -- The slot of the cursor, and the message in it.
    slot_of_cursor :
        c.cursor ≤ s.write_seq
        → (m : ℕ) × (m ≤ s.write_seq)
          × (s.write_seq < m + c.capacity)
          × (c.cursor ≤ m)
          × (s.slots (bit_and c.cursor c.mask) ≡ record { seq = m; content = log m })
    slot_of_cursor le =
        let (m, a, b, e, f) = tenant c.cursor s.write_seq c.capacity le positive in
        (m, a, b, f, ap s.slots (masked ∙ sym e) ∙ r.window m (omega (arith, r.started)) a b)

    read_at-item :
        c.cursor ≤ s.write_seq
        → s.write_seq < c.cursor + c.capacity
        → read_at (still s) c ≡ item (log c.cursor)
    unfolding read_at read_slot
    read_at-item le near =
        let here : s.slots (bit_and c.cursor c.mask)
            ≡ record { seq = c.cursor; content = log c.cursor } =
          ap s.slots masked ∙ r.window c.cursor r.started le near in
        rw here (ground arith)

    pub turn-in_window :
        (skipped : ℕ)
        → c.cursor ≤ s.write_seq
        → s.write_seq < c.cursor + c.capacity
        → turn (still s) skipped c
          ≡ returns (some (log c.cursor)) skipped (record (after_read c) { cursor = c.cursor + 1 })
    unfolding turn turn_on
    turn-in_window skipped le near =
        let wrap : add_u64 c.cursor 1 ≡ c.cursor + 1 = omega (arith, r.small) in
        ap (λ x. turn_on (still s) x skipped (after_read c)) (read_at-item le near)
        ∙ ap (λ n. returns (some (log c.cursor)) skipped (record (after_read c) { cursor = n }))
            wrap

    read_at-overwritten_by :
        c.cursor + c.capacity ≤ s.write_seq
        → (m : ℕ) × (m ≤ s.write_seq) × (read_at (still s) c ≡ overwritten m)
    unfolding read_at read_slot
    read_at-overwritten_by far =
        let (m, a, b, f, here) = slot_of_cursor (omega arith) in
        (m, a, rw here (ground (arith, r.small)))

    skip_overwritten-lapped :
        (m : ℕ)
        → m ≤ s.write_seq
        → c.cursor < oldest_retained s.write_seq c.capacity
        → skip_overwritten (still s) (after_read c) m
          ≡ move_to (tick (after_read c)) (oldest_retained s.write_seq c.capacity)
    unfolding skip_overwritten
    skip_overwritten-lapped m le lt =
        let newest : max s.write_seq m ≡ s.write_seq = omega arith in rw newest (ground arith)

    turn_on-lapped :
        (m skipped : ℕ) (d : RingConsumer) (t : ℕ × RingConsumer)
        → skip_overwritten (still s) d m ≡ t
        → t.0 ≢ 0
        → turn_on (still s) (overwritten m) skipped d ≡ again (add_u64 skipped t.0) t.1
    unfolding turn_on
    turn_on-lapped m skipped d t e ne = rw e (ground arith)

    pub turn-lapped :
        (skipped : ℕ)
        → c.cursor + c.capacity ≤ s.write_seq
        → turn (still s) skipped c
          ≡ again
              (add_u64 skipped (oldest_retained s.write_seq c.capacity - c.cursor))
              (move_to (tick (after_read c)) (oldest_retained s.write_seq c.capacity)).1
    unfolding turn move_to
    turn-lapped skipped far =
        let (m, a, seen) = read_at-overwritten_by far in
        let lo =
          oldest_retained_iff s.write_seq c.capacity c.cursor positive (omega (arith, r.small)) in
        let lt : c.cursor < oldest_retained s.write_seq c.capacity = ground (arith, lo.0) in
        let hi = oldest_retained-le s.write_seq c.capacity positive (omega (arith, r.small)) in
        ap (λ x. turn_on (still s) x skipped (after_read c)) seen
        ∙ turn_on-lapped m skipped (after_read c) _ (skip_overwritten-lapped m a lt)
            (omega (arith, hi, r.small))
        ∙ ap
            (λ n.
              again (add_u64 skipped n)
                (move_to (tick (after_read c)) (oldest_retained s.write_seq c.capacity)).1)
            (omega (arith, hi, r.small))

    pub turn-at_end :
        (skipped : ℕ)
        → c.cursor ≡ s.write_seq + 1
        → turn (still s) skipped c ≡ returns none skipped (after_read c)
    unfolding turn turn_on turn_pending read_at read_slot
    turn-at_end skipped e =
        let here : (s.slots (bit_and c.cursor c.mask)).seq ≤ s.write_seq =
          subst (λ i. (s.slots i).seq ≤ s.write_seq)
            (ap (λ (n : ℕ). n % c.capacity) (sym e) ∙ sym masked) r.beyond in
        ground (arith, r.single, r.dense)

  -- After a skip the consumer rests at the oldest message.
  pub move_to-Rests :
      (c : RingConsumer)
      → Rests s log c
      → c.cursor + c.capacity ≤ s.write_seq
      → Rests s log (move_to (tick (after_read c)) (oldest_retained s.write_seq c.capacity)).1
  unfolding move_to update_cursor
  move_to-Rests c r far =
      let hi = oldest_retained-le s.write_seq c.capacity (positive c r) (omega (arith, r.small)) in
      record {
        exponent = r.exponent;
        capacity = r.capacity;
        mask = r.mask;
        small = r.small;
        window = r.window;
        beyond = r.beyond;
        started = hi.0;
        behind = hi.1;
        single = r.single;
        dense = r.dense;
      }

pub move_to-Took :
    (c : RingConsumer) (next : ℕ) (d : RingConsumer)
    → Took (move_to (tick (after_read c)) next).1 next d
    → Took c next d
unfolding move_to update_cursor
move_to-Took c next d t = t

pub move_to-cursor :
    (c : RingConsumer) (next : ℕ) → (move_to (tick (after_read c)) next).1.cursor ≡ next
unfolding move_to update_cursor
move_to-cursor c next = refl

pub move_to-capacity :
    (c : RingConsumer) (next : ℕ) → (move_to (tick (after_read c)) next).1.capacity ≡ c.capacity
unfolding move_to update_cursor
move_to-capacity c next = refl
