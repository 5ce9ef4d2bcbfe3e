-- ===== src/Mpmc.antt =====
-- src/mpmc.rs `MpmcQueueConsumer`: workers that compete for the messages of a ring with many producers. The
-- loads of a round are its arguments, so that whatever other workers and producers do in between is
-- covered; `swapped` is whether the round's compare-and-swap on `read_seq` won.
pub mod Queue
pub mod Accepted
pub mod Create
pub mod Push
pub mod Exclusive
mod Examples
use ringfire.Prelude.{
  ℕ, zero, suc, ◌+◌, ◌-◌, Bool, true, false, not, ◌&&◌, Option, none, some, List, [], ◌∷◌, ltb, leb,
  ◌==◌, ◌!=◌, if◌then◌else◌, add_u64, sub_u64,
}
use ringfire.Constants.{slot_writing}

pub data Ticket (T : Type 0) : Type 0 where
  ready : T → Ticket T
  not_yet : Ticket T
  lost : Ticket T

-- The loads of `read_ticket`: the slot's sequence, the copy, the sequence again, and `claim_seq`.
pub record Access (T : Type 0) : Type 0 where
  pub first : ℕ
  pub copied : T
  pub second : ℕ
  pub claimed : ℕ

pub read_ticket : {T : Type 0} → (capacity ticket : ℕ) → Access T → Ticket T
read_ticket capacity ticket a =
    if a.first == ticket
    then (if a.second == ticket then ready a.copied else lost)
    else if a.first != slot_writing && ltb ticket a.first
    then lost
    else if ltb (add_u64 ticket capacity) a.claimed
    then lost
    else not_yet

-- What a worker without a ticket does on `read_seq` and `claim_seq`.
pub data Move : Type 0 where
  stop : Move
  skip : (floor : ℕ) → Move
  take : Move

pub next_move : (capacity read_seq claim_seq : ℕ) → Move
next_move capacity read_seq claim_seq =
    let floor = claim_seq - capacity in
    if leb claim_seq read_seq then stop else if ltb read_seq floor then skip floor else take

pub record MpmcQueueConsumer : Type 0 where
  pub capacity : ℕ
  pub pending : Option ℕ
  pub dropped : ℕ

pub record Round (T : Type 0) : Type 0 where
  pub access : Access T
  pub read_seq : ℕ
  pub claim_seq : ℕ
  pub swapped : Bool

-- The pending ticket of a round: `try_recv` returns, or goes on without a ticket.
pub data Pending (T : Type 0) : Type 0 where
  returns : Option T → MpmcQueueConsumer → Pending T
  goes_on : MpmcQueueConsumer → Pending T

module _ {T : Type 0} where
  pub on_ticket : Ticket T → MpmcQueueConsumer → Pending T
  on_ticket (ready x) c = returns (some x) (record c { pending = none })
  on_ticket not_yet c = returns none c
  on_ticket lost c = goes_on (record c { pending = none; dropped = add_u64 c.dropped 1 })

  pub check_pending : MpmcQueueConsumer → Access T → Pending T
  check_pending c a = elim c.pending [
    | none ↦ goes_on c
    | some ticket ↦ on_ticket (read_ticket c.capacity ticket a) c
  ]

  -- The rest of a round, on the move and with `rest` for the rounds that follow.
  abbrev pub on_move :
      Round T
      → MpmcQueueConsumer
      → (MpmcQueueConsumer → Option (Option T × MpmcQueueConsumer))
      → Move
      → Option (Option T × MpmcQueueConsumer)
  on_move r c rest stop = some (none, c)
  on_move r c rest (skip floor) =
      rest (
        if r.swapped
        then record c { dropped = add_u64 c.dropped (sub_u64 floor r.read_seq) }
        else c)
  on_move r c rest take = rest (if r.swapped then record c { pending = some r.read_seq } else c)

  abbrev pub on_pending :
      Round T
      → (MpmcQueueConsumer → Option (Option T × MpmcQueueConsumer))
      → Pending T
      → Option (Option T × MpmcQueueConsumer)
  on_pending r rest (returns x c) = some (x, c)
  on_pending r rest (goes_on c) = on_move r c rest (next_move c.capacity r.read_seq r.claim_seq)

  -- The loop of `try_recv`; `none` means that the rounds ran out.
  pub try_recv : List (Round T) → MpmcQueueConsumer → Option (Option T × MpmcQueueConsumer)
  try_recv [] c = none
  try_recv (r ∷ rs) c = on_pending r (try_recv rs) (check_pending c r.access)
