-- ===== src/Mpmc/Push.antt =====
-- src/mpmc.rs `MpmcProducer::push` by any number of producers, one shared access at a time. A push is named by the
-- sequence that `fetch_add` on `claim_seq` gives it. A payload has `size` words; `msg n j` is word `j` of
-- message `n`.
use ringfire.Prelude.{
  ℕ, ◌+◌, ◌-◌, ◌<◌, max, ◌≡◌, Bool, true, false, ◌&&◌, ◌||◌, ltb, ◌==◌, ◌!=◌, if◌then◌else◌,
  bit_and, update,
}
use ringfire.Constants.{slot_writing}

-- What a round of the loop does with the sequence that it loaded.
pub data Look : Type 0 where
  obsolete : Look
  swap : Look
  wait : Look

unfoldable pub look : (seq capacity : ℕ) (stalled : Bool) (cur : ℕ) → Look
look seq capacity stalled cur =
    if cur != slot_writing && ltb seq cur
    then obsolete
    else if cur == seq - capacity || stalled && cur != slot_writing
    then swap
    else wait

-- Where a push stands: `copying c` has written the words of `c`, in any
-- order, `dropped` returned without its message.
pub data Phase : Type 0 where
  unclaimed : Phase
  looking : (stalled : Bool) → Phase
  copying : (written : ℕ → Bool) → Phase
  stored : Phase
  returned : Phase
  dropped : Phase

-- The rest of a round that did not win the slot; `late` is whether it looked at the clock and found the
-- deadline past.
unfoldable pub after_miss : (late : Bool) (cur : ℕ) (stalled : Bool) → Phase
after_miss late cur stalled =
    if late then (if cur == slot_writing then dropped else looking true) else looking stalled

pub record Cell (W : Type 0) : Type 0 where
  pub seq : ℕ
  pub words : ℕ → W

pub record Shared (W : Type 0) : Type 0 where
  pub claim_seq : ℕ
  pub write_seq : ℕ
  pub cells : ℕ → Cell W
  pub pushes : ℕ → Phase

abbrev pub none_copied : ℕ → Bool
none_copied j = false

module _ {W : Type 0} where
  abbrev pub moved_to : ℕ → Phase → Shared W → Shared W
  moved_to n phase s = record s { pushes = update s.pushes n phase }

  -- The first access: the sequences do not wrap.
  abbrev pub claimed : Shared W → Shared W
  claimed s = record s {
    claim_seq = s.claim_seq + 1;
    pushes = update s.pushes s.claim_seq (looking false);
  }

  -- `fetch_max` on `write_seq`, and the return.
  abbrev pub counted : ℕ → Shared W → Shared W
  counted n s = record (moved_to n returned s) { write_seq = max s.write_seq n }

module _ {W : Type 0} (capacity mask size : ℕ) (msg : ℕ → ℕ → W) where
  abbrev pub index : ℕ → ℕ
  index n = bit_and n mask

  -- The compare-and-swap that wins.
  abbrev pub marked : ℕ → Shared W → Shared W
  marked n s = record (moved_to n (copying none_copied) s) {
    cells = update s.cells (index n) (record (s.cells (index n)) { seq = slot_writing });
  }

  abbrev pub copied : ℕ → (written : ℕ → Bool) (j : ℕ) → Shared W → Shared W
  copied n written j s = record (moved_to n (copying (update written j true)) s) {
    cells =
        update s.cells (index n)
          (record (s.cells (index n)) { words = update (s.cells (index n)).words j (msg n j) });
  }

  abbrev pub published : ℕ → Shared W → Shared W
  published n s = record (moved_to n stored s) {
    cells = update s.cells (index n) (record (s.cells (index n)) { seq = n });
  }

  -- One access of any producer. A round decides on a sequence `cur` that it loaded before.
  pub data PushStep (s : Shared W) : Shared W → Type 0 where
    claims : s.claim_seq < slot_writing → PushStep s (claimed s)
    gives_up :
        (n cur : ℕ) (stalled : Bool)
        → s.pushes n ≡ looking stalled
        → look n capacity stalled cur ≡ obsolete
        → PushStep s (moved_to n dropped s)
    swaps :
        (n cur : ℕ) (stalled : Bool)
        → s.pushes n ≡ looking stalled
        → look n capacity stalled cur ≡ swap
        → (s.cells (index n)).seq ≡ cur
        → PushStep s (marked n s)
    misses :
        (n cur : ℕ) (stalled late : Bool)
        → s.pushes n ≡ looking stalled
        → PushStep s (moved_to n (after_miss late cur stalled) s)
    copies :
        (n : ℕ) (written : ℕ → Bool) (j : ℕ)
        → s.pushes n ≡ copying written
        → PushStep s (copied n written j s)
    stores :
        (n : ℕ) (written : ℕ → Bool)
        → s.pushes n ≡ copying written
        → ((j : ℕ) → j < size → written j ≡ true)
        → PushStep s (published n s)
    counts : (n : ℕ) → s.pushes n ≡ stored → PushStep s (counted n s)

  pub data PushSteps (s : Shared W) : Shared W → Type 0 where
    done : PushSteps s s
    then_step : {t u : Shared W} → PushSteps s t → PushStep t u → PushSteps s u
