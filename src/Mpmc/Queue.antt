-- ===== src/Mpmc/Queue.antt =====
-- The workers of src/mpmc.rs at the shared `read_seq`: no ticket is taken twice.
use ringfire.Prelude.{ℕ, ◌+◌, ◌-◌, ◌≤◌, ◌<◌, ◌≡◌, ◌≢◌, arith, List, [], ◌∷◌, length, All, All-map}
use ringfire.Mpmc.{skip, take, next_move}

-- The shared words, the tickets that workers have taken, and the messages that they skipped.
pub record Queue : Type 0 where
  pub read_seq : ℕ
  pub claim_seq : ℕ
  pub taken : List ℕ
  pub skipped : ℕ

-- One atomic step of any process. A worker decides on a `claim_seq` that it loaded before (`seen`) and on the
-- `read_seq` that its compare-and-swap finds unchanged.
pub data Step (capacity : ℕ) (q : Queue) : Queue → Type 0 where
  claim : Step capacity q (record q { claim_seq = q.claim_seq + 1 })
  took :
      (seen : ℕ)
      → seen ≤ q.claim_seq
      → next_move capacity q.read_seq seen ≡ take
      → Step capacity q (record q { read_seq = q.read_seq + 1; taken = q.read_seq ∷ q.taken })
  skipped_to :
      (seen floor : ℕ)
      → seen ≤ q.claim_seq
      → next_move capacity q.read_seq seen ≡ skip floor
      → Step capacity q (record q { read_seq = floor; skipped = q.skipped + (floor - q.read_seq) })

pub data Steps (capacity : ℕ) (q : Queue) : Queue → Type 0 where
  done : Steps capacity q q
  then_step : {r s : Queue} → Steps capacity q r → Step capacity r s → Steps capacity q s

abbrev pub Distinct : List ℕ → Type 0
Distinct [] = Unit
Distinct (t ∷ ts) = All (λ u. u ≢ t) ts × Distinct ts

-- Every ticket below `read_seq` was taken once or skipped, and no other.
pub record IsFair (q : Queue) : Type 0 where
  pub behind : q.read_seq ≤ q.claim_seq
  pub below : All (λ t. t < q.read_seq) q.taken
  pub distinct : Distinct q.taken
  pub accounts : q.read_seq ≡ 1 + length q.taken + q.skipped

next_move-take :
    (capacity read_seq seen : ℕ) → next_move capacity read_seq seen ≡ take → read_seq < seen
unfolding next_move
next_move-take capacity read_seq seen e = ground arith

next_move-skip :
    (capacity read_seq seen floor : ℕ)
    → next_move capacity read_seq seen ≡ skip floor
    → (read_seq < floor) × (floor ≤ seen)
unfolding next_move
next_move-skip capacity read_seq seen floor e = ground arith

Step-IsFair : {capacity : ℕ} {q r : Queue} → Step capacity q r → IsFair q → IsFair r
Step-IsFair claim f = record {
  behind = omega (arith, f.behind);
  below = f.below;
  distinct = f.distinct;
  accounts = f.accounts;
}
Step-IsFair {capacity} {q} (took seen le e) f =
    let lt = next_move-take capacity q.read_seq seen e in
    record {
      behind = omega arith;
      below = (omega arith, All-map (λ t b. omega (arith, b)) q.taken f.below);
      distinct = (All-map (λ t b. omega (arith, b)) q.taken f.below, f.distinct);
      accounts = omega (arith, f.accounts);
    }
Step-IsFair {capacity} {q} (skipped_to seen floor le e) f =
    let (lt, le') = next_move-skip capacity q.read_seq seen floor e in
    record {
      behind = omega arith;
      below = All-map (λ t b. omega (arith, b, lt)) q.taken f.below;
      distinct = f.distinct;
      accounts = omega (arith, f.accounts);
    }

-- From a queue where this holds on, as it does for a new one, and however the workers and the producers
-- interleave: no ticket is taken by two workers, only tickets that were claimed are taken, and every ticket
-- below `read_seq` was taken or counted as skipped. The sequences do not wrap.
pub Steps-IsFair : {capacity : ℕ} {q r : Queue} → Steps capacity q r → IsFair q → IsFair r
Steps-IsFair done f = f
Steps-IsFair (then_step rest last) f = Step-IsFair last (Steps-IsFair rest f)
