-- ===== src/Window/Examples.antt =====
-- `oldest_retained` of src/spmc.rs at the edges of a window of 8.
use ringfire.Prelude.{◌≡◌, refl}
use ringfire.Window.{oldest_retained}

full : oldest_retained 8 8 ≡ 1
unfolding oldest_retained
full = refl

one_later : oldest_retained 9 8 ≡ 2
unfolding oldest_retained
one_later = refl
