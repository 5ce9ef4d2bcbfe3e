-- ===== src/Replication/Ring/Created.antt =====
-- A mirror's ring from the geometry of its source (src/replication.rs): `validate_ring` accepts it, and a
-- mirror that reconnects adopts it where it stopped.
use ringfire.Prelude.{
  ℕ, ◌+◌, ◌*◌, ◌%◌, ◌^◌, ◌≤◌, ◌<◌, ◌≡◌, refl, sym, ap, ◌∙◌, ◌⊎◌, inl, inr, true, Option, none, some,
  List, arith, ltb, if◌then◌else◌, add_u64, sub_u64, is_power_of_two, is_power_of_two_complete,
}
use native.Mathlib.Nat.{one-le-pow, mod-eq_of_lt, pow-le-pow_right}
use ringfire.Errors.{ok}
use ringfire.Header
use ringfire.Header.{RingHeader, RingView, initialize, publish, validate_ring}
use ringfire.Header.Validate.{IsWellFormed, validate_ring_iff}
use ringfire.Registry
use ringfire.Arena
use ringfire.Arena.{PayloadArena}
use ringfire.Replication.Geometry.{Geometry, from_header, same_layout, total_len, mirror_flags}
use ringfire.Replication.Geometry.Roundtrip.{IsTyped, HasArena, IsGeometry}
use ringfire.Replication.Ring.{MirrorRing, layout_of, new_arena, create, adopted_arena, adopt}

-- The arena's header names the same bytes.
abbrev pub SameArena : Option PayloadArena → Option PayloadArena → Type 0
SameArena none none = Unit
SameArena none (some b) = ⊥
SameArena (some a) none = ⊥
SameArena (some a) (some b) = (a.capacity ≡ b.capacity) × (a.mask ≡ b.mask)

-- `s` is the region of `r` after some messages: `write_seq`, the slots and the arena's bytes may differ.
pub record IsLater (r s : MirrorRing) : Type 0 where
  pub header : s.header ≡ record r.header { write_seq = s.header.write_seq }
  pub len : s.len ≡ r.len
  pub arena : SameArena s.arena r.arena

module _ (g : Geometry) (t : IsTyped g) (i : IsGeometry g) where
  total_len-lem :
      (g.capacity * g.element_size + g.slots_offset ≤ total_len g)
      × (total_len g < 2 ^ 64)
      × ((g.arena_offset ≡ 0)
          ⊎ ((g.arena_offset % 64 ≡ 0) × (g.arena_offset + 64 + g.arena_size ≤ total_len g)))
  unfolding total_len
  total_len-lem = elim i.arena [
    | inl (off, size) ↦ (ground (arith, i.fits), ground (arith, i.fits), inl off)
    | inr a ↦ (
      ground (arith, a.behind, a.fits, a.offset),
      ground (arith, a.fits, a.offset),
      inr (a.aligned, ground (arith, a.fits, a.offset)),
    )
  ]

  header : ℕ → RingHeader
  header n = record (publish (initialize (layout_of g))) { write_seq = n }

  header-IsWellFormed : (n : ℕ) → IsWellFormed (header n) (total_len g) none 8
  unfolding header initialize publish layout_of
  header-IsWellFormed n =
      let (slots, below, arena) = total_len-lem in
      let small : 2 ^ i.log_capacity ≤ 2 ^ 63 =
        pow-le-pow_right {n = 2} (omega arith) {j = 63} (omega (arith, i.log_capacity_max)) in
      let pos : 1 ≤ 2 ^ i.log_capacity = one-le-pow i.log_capacity 2 (omega arith) in
      let size : g.element_size % 2 ^ 32 ≡ g.element_size = mod-eq_of_lt t.element_size_u32 in
      record {
        has_header = omega (arith, i.after_registry, slots);
        magic = refl;
        version = refl;
        size = tt;
        sized = omega (arith, i.sized, t.element_size_u32);
        log_capacity = i.log_capacity;
        small = i.log_capacity_max;
        capacity = i.capacity;
        mask = omega (arith, small, pos, i.capacity);
        after_header = omega (arith, i.after_registry);
        aligned = omega (arith, i.aligned);
        slots = rw size slots;
        registry = ground (arith, i.after_registry, slots, t.registry_count_u32);
        arena = arena;
      }

  header-IsTyped : (n : ℕ) → Header.IsTyped (header n)
  unfolding header initialize publish layout_of
  header-IsTyped n = record {
    element_size_u32 = omega arith;
    capacity_u64 = t.capacity_u64;
    arena_size_u64 = t.arena_size_u64;
    registry_offset_u32 = omega arith;
    registry_count_u32 = omega arith;
    slots_offset_u64 = omega (arith, t.slots_offset_u32);
  }

  view : RingView
  view = record {
    capacity = g.capacity;
    mask = sub_u64 g.capacity 1;
    slot_size = g.element_size;
    slots_offset = g.slots_offset;
  }

  header-valid : (n : ℕ) → validate_ring (header n) (total_len g) none 8 ≡ ok view
  unfolding header view initialize publish layout_of
  header-valid n = (validate_ring_iff (header-IsTyped n) (total_len-lem.1) none 8 view).1 (
    header-IsWellFormed n,
    ap
        (λ (size : ℕ). record {
          capacity = g.capacity;
          mask = sub_u64 g.capacity 1;
          slot_size = size;
          slots_offset = g.slots_offset;
        })
        (sym (mod-eq_of_lt t.element_size_u32)),
  )

  -- The mirror's own geometry differs from the source's in its flags.
  own : Geometry
  own = record g { flags = mirror_flags g }

  header-geometry : (n : ℕ) → from_header (header n) view ≡ own
  unfolding header view own initialize publish layout_of from_header
  header-geometry n = cc (
    mod-eq_of_lt t.element_size_u32,
    mod-eq_of_lt t.registry_count_u32,
    mod-eq_of_lt t.slots_offset_u32,
  )

  own-same_layout : same_layout own g ≡ true
  unfolding own same_layout
  own-same_layout = ground arith

  module _ (payload : ℕ → List ℕ) (bytes : ℕ → ℕ) where
    -- The arena that `create` makes, if any.
    abbrev HasNewArena : Option PayloadArena → Type 0
    HasNewArena none = g.arena_offset ≡ 0
    HasNewArena (some a) =
        (0 < g.arena_offset)
        × HasArena g
        × (a.capacity ≡ g.arena_size)
        × (a.mask ≡ sub_u64 g.arena_size 1)

    new_arena-lem : (a : Option PayloadArena) × (new_arena payload bytes g ≡ ok a) × HasNewArena a
    unfolding new_arena Arena.init
    new_arena-lem = elim i.arena [
      | inl (off, size) ↦ (none, ground arith, off)
      | inr h ↦
          let power : is_power_of_two g.arena_size ≡ true =
            rw h.size (is_power_of_two_complete h.log_size h.log_size_max) in
          (
            some (record {
              capacity = g.arena_size;
              mask = sub_u64 g.arena_size 1;
              reserved = 0;
              bytes = bytes;
            }),
            ground (arith, h.offset, h.size_min),
            (h.offset, h, refl, refl),
          )
    ]

    adopted_arena-lem :
        (a b : Option PayloadArena) → HasNewArena a → SameArena b a → adopted_arena own b ≡ some b
    unfolding own adopted_arena Arena.from_ptr
    adopted_arena-lem none none h s = ground arith
    adopted_arena-lem none (some b) h s = absurd s
    adopted_arena-lem (some a) none h s = absurd s
    adopted_arena-lem (some a) (some b) (off, arena, cap, mask) (cap', mask') =
        let power : is_power_of_two b.capacity ≡ true =
          rw (cap' ∙ cap ∙ arena.size)
            (is_power_of_two_complete arena.log_size arena.log_size_max) in
        let min : 64 ≤ b.capacity = rw (cap' ∙ cap) arena.size_min in
        let m : b.mask ≡ sub_u64 b.capacity 1 = rw (cap' ∙ cap) (mask' ∙ mask) in
        ground (arith, power, min, m, cap, cap', off)

    -- What the next run of the mirror finds in the file: the same ring, and the position behind `write_seq`.
    abbrev pub Adopts : MirrorRing → MirrorRing → Type 0
    Adopts r s =
        (found : MirrorRing) × (adopt s ≡ some found)
        × (found.slots ≡ s.slots)
        × (same_layout found.geometry g ≡ true)
        × (found.view ≡ r.view)
        × (found.next_seq ≡ add_u64 s.header.write_seq 1)
        × (found.arena ≡ s.arena)

    -- From a geometry that `decode` accepts `create` makes a ring that `validate_ring` accepts for slots of
    -- any type, with the geometry's slots. However many messages are published and whatever is written
    -- to the slots and the arena then, `adopt` takes it as a ring of the same layout, with its slots and
    -- its arena, and goes on behind `write_seq`. The lock is free.
    pub create-adopt :
        (r : MirrorRing) × (create payload bytes g ≡ ok r)
        × (validate_ring r.header r.len none 8 ≡ ok r.view)
        × ((s : MirrorRing) → IsLater r s → Adopts r s)
    unfolding create header view own adopt publish initialize layout_of
    create-adopt =
        let (a, made, new) = new_arena-lem in
        let r : MirrorRing = record {
          header = header 0;
          len = total_len g;
          registry = if ltb 0 g.registry_count then some (Registry.init g.registry_count) else none;
          slots = λ i. record { seq = 0; content = payload i };
          arena = a;
          view = view;
          geometry = g;
          next_seq = 1;
        } in
        (
          r,
          rw made refl,
          header-valid 0,
          λ s l.
              let n = s.header.write_seq in
              let valid : validate_ring s.header s.len none 8 ≡ ok view =
                rw (l.header, l.len) (header-valid n) in
              let geometry : from_header s.header view ≡ own = rw l.header (header-geometry n) in
              (
                record s { view = view; geometry = own; next_seq = add_u64 n 1; arena = s.arena },
                rw (valid, geometry, adopted_arena-lem a s.arena new l.arena) refl,
                refl,
                own-same_layout,
                refl,
                refl,
                refl,
              ),
        )
