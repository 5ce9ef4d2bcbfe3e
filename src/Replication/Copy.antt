-- ===== src/Replication/Copy.antt =====
-- The two ends of a TCP connection of src/replication.rs together: `serve_client` and `Mirror::run`.
use ringfire.Prelude.{ℕ, ◌+◌, ◌*◌, ◌^◌, ◌<◌, ◌≡◌, none, List, length}
use ringfire.Replication.Source.{SourceRing}
use ringfire.Replication.Mirror.{Mirror}

-- A source without an arena, whose records have one size.
pub record IsSource (r : SourceRing) (log : ℕ → List ℕ) (width limit : ℕ) : Type 0 where
  pub fixed : r.arena ≡ none
  pub sized : (n : ℕ) → length (log n) ≡ width
  pub capacity_pos : 0 < r.view.capacity
  pub capacity_u64 : r.view.capacity < 2 ^ 64
  pub frame : 2 ^ 16 * width < 2 ^ 32
  pub room : limit + 2 ^ 16 < 2 ^ 64
