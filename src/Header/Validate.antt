-- ===== src/Header/Validate.antt =====
-- What `validate_ring` of src/header.rs accepts, and what its refusals mean.
use ringfire.Prelude.{
  ℕ, ◌+◌, ◌*◌, ◌%◌, ◌^◌, ◌≤◌, ◌<◌, max, ◌≡◌, refl, ◌⊎◌, true, Option, none, some, arith, ◌↔◌,
}
use native.Mathlib.Nat.{one-le-pow}
use ringfire.Errors.{ok}
use ringfire.Header.{
  RingHeader, IsTyped, RingView, check_identity, check_capacity, check_slots, check_registry,
  check_arena, check_slot_size, validate_ring,
}
use ringfire.Prelude.{sub_u64, bit_and, bit_and-eq-mod}
use ringfire.Constants.{ringfire_magic, ringfire_version, ring_header_size, reader_slot_size}
use ringfire.Prelude.{is_power_of_two, is_power_of_two_sound, is_power_of_two_complete}

abbrev pub Expects : Option ℕ → ℕ → Type 0
Expects none size = Unit
Expects (some e) size = size ≡ e

-- A header whose regions all lie inside a mapping of `len` bytes.
pub record IsWellFormed (h : RingHeader) (len : ℕ) (expected : Option ℕ) (slot_align : ℕ)
    : Type 0 where
  pub has_header : ring_header_size ≤ len
  pub magic : h.magic ≡ ringfire_magic
  pub version : h.version ≡ ringfire_version
  pub size : Expects expected h.element_size
  pub sized : 8 ≤ h.element_size
  pub log_capacity : ℕ
  pub small : log_capacity < 64
  pub capacity : h.capacity ≡ 2 ^ log_capacity
  pub mask : h.mask + 1 ≡ h.capacity
  pub after_header : ring_header_size ≤ h.slots_offset
  pub aligned : h.slots_offset % max slot_align 8 ≡ 0
  pub slots : h.capacity * h.element_size + h.slots_offset ≤ len
  pub registry :
      (h.reader_registry_offset ≡ 0)
      ⊎ ((h.reader_registry_offset % 64 ≡ 0)
          × (h.reader_registry_offset + h.reader_registry_count * reader_slot_size ≤ len))
  pub arena :
      (h.arena_offset ≡ 0)
      ⊎ ((h.arena_offset % 64 ≡ 0) × (h.arena_offset + 64 + h.arena_size ≤ len))

module _ (h : RingHeader) (len : ℕ) where
  check_slot_size-ok :
      (e : Option ℕ) → (check_slot_size e h.element_size ≡ ok tt) ↔ Expects e h.element_size
  unfolding check_slot_size
  check_slot_size-ok none = (λ p. tt, λ p. refl)
  check_slot_size-ok (some e) = (λ p. ground arith, λ p. ground arith)

  abbrev Identity : Option ℕ → Type 0
  Identity e =
      (ring_header_size ≤ len)
      × (h.magic ≡ ringfire_magic)
      × (h.version ≡ ringfire_version)
      × Expects e h.element_size
      × (8 ≤ h.element_size)

  check_identity-ok : (e : Option ℕ) → check_identity h len e ≡ ok tt → Identity e
  unfolding check_identity
  check_identity-ok e p = (
    ground arith,
    ground arith,
    ground arith,
    (check_slot_size-ok e).0 (ground arith),
    ground arith,
  )

  check_identity_passes : (e : Option ℕ) → Identity e → check_identity h len e ≡ ok tt
  unfolding check_identity
  check_identity_passes e (a, b, c, d, f) = ground (arith, (check_slot_size-ok e).1 d)

  check_slots-ok :
      (al : ℕ)
      → h.capacity < 2 ^ 64
      → len < 2 ^ 64
      → (check_slots h len al ≡ ok tt) ↔ (
          (ring_header_size ≤ h.slots_offset)
          × (h.slots_offset % max al 8 ≡ 0)
          × (h.capacity * h.element_size + h.slots_offset ≤ len))
  unfolding check_slots
  check_slots-ok al lt lt' = (λ p. ground arith, λ p. ground arith)

  check_registry-ok :
      IsTyped h
      → (check_registry h len ≡ ok tt) ↔ (
          (h.reader_registry_offset ≡ 0)
          ⊎ ((h.reader_registry_offset % 64 ≡ 0)
              × (h.reader_registry_offset + h.reader_registry_count * reader_slot_size ≤ len)))
  unfolding check_registry
  check_registry-ok t = (λ p. ground arith, λ p. ground arith)

  check_arena-ok :
      IsTyped h
      → len < 2 ^ 64
      → (check_arena h len ≡ ok tt) ↔ (
          (h.arena_offset ≡ 0)
          ⊎ ((h.arena_offset % 64 ≡ 0) × (h.arena_offset + 64 + h.arena_size ≤ len)))
  unfolding check_arena
  check_arena-ok t lt = (λ p. ground arith, λ p. ground arith)

  check_capacity-ok :
      h.capacity < 2 ^ 64
      → check_capacity h ≡ ok tt
      → (e : ℕ) × (e < 64) × (h.capacity ≡ 2 ^ e) × (h.mask + 1 ≡ h.capacity)
  unfolding check_capacity
  check_capacity-ok lt p =
      let (e, small, eq) = is_power_of_two_sound h.capacity (ground arith) in
      (e, small, eq, ground (arith, one-le-pow e 2))

  check_capacity_passes :
      (e : ℕ)
      → e < 64
      → h.capacity < 2 ^ 64
      → h.capacity ≡ 2 ^ e
      → h.mask + 1 ≡ h.capacity
      → check_capacity h ≡ ok tt
  unfolding check_capacity
  check_capacity_passes e small lt eq m =
      let power : is_power_of_two h.capacity ≡ true = rw eq (is_power_of_two_complete e small) in
      ground arith

abbrev pub view_of : RingHeader → RingView
view_of h = record {
  capacity = h.capacity;
  mask = h.mask;
  slot_size = h.element_size;
  slots_offset = h.slots_offset;
}

-- A run that succeeds has passed each check.
validate_ring-checks :
    (h : RingHeader) (len : ℕ) (e : Option ℕ) (al : ℕ) {v : RingView}
    → validate_ring h len e al ≡ ok v
    → (check_identity h len e ≡ ok tt)
      × (check_capacity h ≡ ok tt)
      × (check_slots h len al ≡ ok tt)
      × (check_registry h len ≡ ok tt)
      × (check_arena h len ≡ ok tt)
      × (v ≡ record (view_of h) { mask = sub_u64 h.capacity 1 })
unfolding validate_ring
validate_ring-checks h len e al p =
    (ground arith, ground arith, ground arith, ground arith, ground arith, ground arith)

module _ {h : RingHeader} {len : ℕ} (t : IsTyped h) (len_usize : len < 2 ^ 64) (e : Option ℕ)
    (al : ℕ) where
  validate_ring_sound :
      {v : RingView} → validate_ring h len e al ≡ ok v → IsWellFormed h len e al × (v ≡ view_of h)
  validate_ring_sound p =
      let (id, cap, slots, reg, arena, view) = validate_ring-checks h len e al p in
      let (has, magic, version, size, sized) = check_identity-ok h len e id in
      let (k, small, eq, mask) = check_capacity-ok h len t.capacity_u64 cap in
      let (after, aligned, fits) = (check_slots-ok h len al t.capacity_u64 len_usize).0 slots in
      (
        record {
          has_header = has;
          magic = magic;
          version = version;
          size = size;
          sized = sized;
          log_capacity = k;
          small = small;
          capacity = eq;
          mask = mask;
          after_header = after;
          aligned = aligned;
          slots = fits;
          registry = (check_registry-ok h len t).0 reg;
          arena = (check_arena-ok h len t len_usize).0 arena;
        },
        ground arith,
      )

  validate_ring_complete : IsWellFormed h len e al → validate_ring h len e al ≡ ok (view_of h)
  unfolding validate_ring
  validate_ring_complete w = ground (
    arith,
    check_identity_passes h len e (w.has_header, w.magic, w.version, w.size, w.sized),
    check_capacity_passes h len w.log_capacity w.small t.capacity_u64 w.capacity w.mask,
    (check_slots-ok h len al t.capacity_u64 len_usize).1 (w.after_header, w.aligned, w.slots),
    (check_registry-ok h len t).1 w.registry,
    (check_arena-ok h len t len_usize).1 w.arena,
    w.mask,
  )

  -- `validate_ring` succeeds exactly on the well-formed headers of a mapping of `len` bytes, and the
  -- view that it returns is the header's own; the header's fields have the ranges of their types.
  pub validate_ring_iff :
      (v : RingView)
      → (validate_ring h len e al ≡ ok v) ↔ (IsWellFormed h len e al × (v ≡ view_of h))
  validate_ring_iff v = (λ p. validate_ring_sound p, λ (w, eq). rw eq (validate_ring_complete w))

slot_fits : (i c size off len : ℕ) → i < c → c * size + off ≤ len → off + i * size + size ≤ len
slot_fits i c size off len h k = grind arith

-- The address of any slot that a masked sequence names lies, with its whole slot, between the header
-- and the end of a mapping that `validate_ring` accepted.
pub validate_ring-slot_in_mapping :
    {h : RingHeader} {len : ℕ} (e : Option ℕ) (al : ℕ) {v : RingView} (seq : ℕ)
    → IsTyped h
    → len < 2 ^ 64
    → validate_ring h len e al ≡ ok v
    → let at = v.slots_offset + bit_and seq v.mask * v.slot_size in
      (ring_header_size ≤ at) × (at + v.slot_size ≤ len)
validate_ring-slot_in_mapping {h} {len} e al seq t lt p =
    let (w, eq) = validate_ring_sound t lt e al p in
    let (_, i) = bit_and-eq-mod w.log_capacity h.capacity h.mask seq w.capacity w.mask in
    let fits =
      slot_fits (bit_and seq h.mask) h.capacity h.element_size h.slots_offset len i w.slots in
    ground (arith, w.after_header)
