-- ===== src/Blackboard/Table.antt =====
-- The table of src/blackboard.rs as one process sees it: what is written is read, and what is created is
-- accepted.
use ringfire.Prelude.{
  ℕ, ◌+◌, ◌*◌, ◌%◌, ◌^◌, ◌<◌, ◌≡◌, ◌≢◌, refl, ap, false, arith, bit_and, bit_and-mask, none, some,
  [], ◌∷◌, update, update_self, update_ne, leb, if◌then◌else◌,
}
use native.Mathlib.Nat.{mod-eq_of_lt}
use ringfire.Errors.{Result, ok, err, key_out_of_range}
use ringfire.Constants.{blackboard_header_size}
use ringfire.Blackboard.{
  Blackboard, BlackboardSlot, Attempt, write_mark, new_table, create, attach, write, read_loop,
  read,
}
use ringfire.Blackboard.Protocol.{write_mark_lem}

module _ {V : Type 0} where
  -- A round of `read` that nobody interferes with.
  abbrev pub quiet : BlackboardSlot V → Attempt V
  quiet s = record { first = s.seqlock; copied = s.value; second = s.seqlock; stalled = false }

  -- What `write` leaves at a key in range.
  abbrev pub Written : Blackboard V → ℕ → V → Result (Unit {0}) × Blackboard V → Type 0
  Written b key val (r, b') =
      (r ≡ ok tt)
      × (read b' key (quiet (b'.slots key) ∷ []) ≡ some (ok (some val)))
      × ((i : ℕ) → key ≢ i → b'.slots i ≡ b.slots i)
      × (b'.slot_count ≡ b.slot_count)
      × ((b.slots key).seqlock < (b'.slots key).seqlock)

  -- A slot at rest after its write reads back.
  read-quiet :
      (b : Blackboard V) (key : ℕ) (s : BlackboardSlot V)
      → key < b.slot_count
      → b.slots key ≡ s
      → 0 < s.seqlock
      → s.seqlock % 2 ≡ 0
      → read b key (quiet (b.slots key) ∷ []) ≡ some (ok (some s.value))
  unfolding read read_loop
  read-quiet b key s lt e pos even =
      let low : bit_and s.seqlock 1 ≡ s.seqlock % 2 = bit_and-mask 1 s.seqlock in
      rw e (ground (arith, low))

  -- `write` at a key in range stores a value that `read` then returns, with a new version, and leaves every
  -- other key alone, whether or not the last writer died in its write. The seqlock is away from its wrap.
  pub write-Written :
      (b : Blackboard V) (key : ℕ) (val : V)
      → key < b.slot_count
      → (b.slots key).seqlock + 3 < 2 ^ 64
      → Written b key val (write b key val)
  unfolding write
  write-Written b key val lt small =
      let in_range : leb b.slot_count key ≡ false = ground arith in
      let mark = write_mark_lem (b.slots key).seqlock (omega arith) in
      let s : BlackboardSlot V = record {
        seqlock = (write_mark (b.slots key).seqlock + 1) % 2 ^ 64;
        value = val;
      } in
      let b' : Blackboard V = record b { slots = update b.slots key s } in
      let stored : (b'.slots key).seqlock ≡ (write_mark (b.slots key).seqlock + 1) % 2 ^ 64 =
        ap (λ t. t.seqlock) (update_self b.slots key s) in
      rw in_range (
        refl,
        read-quiet b' key s lt (update_self b.slots key s) (omega arith) (omega arith),
        λ i ne. update_ne b.slots key i s ne,
        refl,
        omega (arith, stored, mark),
      )

  -- A table that `create` makes passes the checks of `attach` with the same sizes, has the slots that were
  -- asked for, and none of them is written. The sizes fit in 32 bits and the file's length in 64.
  pub create-attach :
      (value : ℕ → V) (value_size slot_size slot_count : ℕ)
      → value_size < 2 ^ 32
      → slot_size < 2 ^ 32
      → slot_count < 2 ^ 32
      → blackboard_header_size + slot_count * slot_size < 2 ^ 64
      → (b : Blackboard V) × (len : ℕ) × (create value value_size slot_size slot_count
          ≡ ok (b, len))
        × (attach b.header len value_size slot_size ≡ ok slot_count)
        × (b.slot_count ≡ slot_count)
        × ((i : ℕ)
            → read b i (quiet (b.slots i) ∷ []) ≡ (
                if leb slot_count i
                then some (err (key_out_of_range i slot_count))
                else some (ok none)))
  unfolding create attach read read_loop
  create-attach value value_size slot_size slot_count v s n fits =
      let v' = mod-eq_of_lt v in
      let s' = mod-eq_of_lt s in
      let n' = mod-eq_of_lt n in
      (
        new_table value value_size slot_size slot_count,
        (blackboard_header_size + slot_count * slot_size % 2 ^ 64) % 2 ^ 64,
        ground arith,
        ground (arith, v', s', n'),
        refl,
        λ i. refl,
      )
