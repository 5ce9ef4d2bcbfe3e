-- ===== src/Window.antt =====
-- src/spmc.rs `oldest_retained`: the window of sequences that a ring of `capacity` slots retains.
pub mod Retained
mod Examples
use ringfire.Prelude.{ℕ, leb, if◌then◌else◌, add_u64, sub_u64}

unfoldable pub oldest_retained : ℕ → ℕ → ℕ
oldest_retained write_seq capacity =
    if leb capacity write_seq then add_u64 (sub_u64 write_seq capacity) 1 else 1
