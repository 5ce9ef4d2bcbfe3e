-- ===== src/Create/Accepted.antt =====
-- A ring that `create_with_options` of src/spmc.rs makes passes the `validate_ring` of src/header.rs.
use ringfire.Prelude.{
  ℕ, zero, suc, ◌+◌, ◌*◌, ◌%◌, ◌^◌, ◌≤◌, ◌<◌, max, ◌≡◌, refl, sym, subst, inl, true, some, arith,
  is_power_of_two, is_power_of_two_complete, next_multiple_of_lem, mul_u64, add_u64,
}
use native.Mathlib.Nat.{one-le-pow, mod-eq_of_lt, pow-le-pow_right}
use ringfire.Errors.{ok}
use ringfire.Constants.{ring_header_size, reader_slot_size}
use ringfire.Header.{IsTyped, initialize, publish, validate_ring}
use ringfire.Header.Validate.{IsWellFormed, view_of, validate_ring_iff}
use ringfire.Producer.{RingProducer}
use ringfire.Producer.Lossy.{IsClean}
use ringfire.Create.{
  RingProducerBuilder, Region, max_readers_of, slots_offset_of, total_size_of, layout_of,
  new_region, new_producer, create_with_options,
}

-- The sizes of a ring whose region has fewer than 2^64 bytes.
pub record Sized (o : RingProducerBuilder) (slot_size slot_align : ℕ) : Type 0 where
  pub exponent : ℕ
  pub exponent_max : exponent < 64
  pub capacity : o.capacity ≡ 2 ^ exponent
  pub size_min : 8 ≤ slot_size
  pub size_max : slot_size < 2 ^ 32
  pub align_exponent : ℕ
  pub align : slot_align ≡ 2 ^ align_exponent
  pub readers : max_readers_of o < 2 ^ 32
  pub total :
      ring_header_size
        + max_readers_of o * reader_slot_size
        + max slot_align 64
        + o.capacity * slot_size
      < 2 ^ 64

align_lem : (j n : ℕ) → n % max (2 ^ j) 64 ≡ 0 → n % max (2 ^ j) 8 ≡ 0
align_lem zero n h = omega arith
align_lem (suc zero) n h = omega arith
align_lem (suc (suc zero)) n h = omega arith
align_lem (suc (suc (suc zero))) n h = omega arith
align_lem (suc (suc (suc (suc zero)))) n h = omega arith
align_lem (suc (suc (suc (suc (suc zero))))) n h = omega arith
align_lem (suc (suc (suc (suc (suc (suc j)))))) n h =
    let big : 64 ≤ 2 ^ suc (suc (suc (suc (suc (suc j))))) =
      pow-le-pow_right {n = 2} (omega arith) {i = 6} {j = suc (suc (suc (suc (suc (suc j)))))}
        (omega arith) in
    let same : max (2 ^ suc (suc (suc (suc (suc (suc j)))))) 64
        ≡ max (2 ^ suc (suc (suc (suc (suc (suc j)))))) 8 =
      omega (arith, big) in
    subst (λ (m : ℕ). n % m ≡ 0) same h

module _ (o : RingProducerBuilder) (slot_size slot_align schema_sig : ℕ)
    (z : Sized o slot_size slot_align) where
  slots_offset_lem :
      (slots_offset_of o slot_align % max slot_align 64 ≡ 0)
      × (ring_header_size + max_readers_of o * reader_slot_size ≤ slots_offset_of o slot_align)
      × (slots_offset_of o slot_align
          < ring_header_size + max_readers_of o * reader_slot_size + max slot_align 64)
  unfolding slots_offset_of
  slots_offset_lem =
      let bytes : add_u64 ring_header_size (mul_u64 (max_readers_of o) reader_slot_size)
          ≡ ring_header_size + max_readers_of o * reader_slot_size =
        omega (arith, z.total) in
      let up =
        next_multiple_of_lem
          (add_u64 ring_header_size (mul_u64 (max_readers_of o) reader_slot_size))
          (max slot_align 64) (omega arith) (omega (arith, z.total, bytes)) in
      omega (arith, up, bytes)

  header-IsWellFormed :
      IsWellFormed
        (publish (initialize (layout_of o slot_size slot_align schema_sig)))
        (total_size_of o slot_size slot_align)
        (some slot_size)
        slot_align
  unfolding initialize publish layout_of total_size_of
  header-IsWellFormed =
      let off = slots_offset_lem in
      let whole : total_size_of o slot_size slot_align
          ≡ slots_offset_of o slot_align + o.capacity * slot_size =
        omega (arith, off, z.total) in
      let sz : slot_size % 2 ^ 32 ≡ slot_size = mod-eq_of_lt z.size_max in
      let small : 2 ^ z.exponent ≤ 2 ^ 63 =
        pow-le-pow_right {n = 2} (omega arith) {j = 63} (omega (arith, z.exponent_max)) in
      let pos : 1 ≤ 2 ^ z.exponent = one-le-pow z.exponent 2 (omega arith) in
      record {
        has_header = omega (arith, off, whole);
        magic = refl;
        version = refl;
        size = sz;
        sized = omega (arith, z.size_min, z.size_max);
        log_capacity = z.exponent;
        small = z.exponent_max;
        capacity = z.capacity;
        mask = omega (arith, small, pos, z.capacity);
        after_header = omega (arith, off);
        aligned =
            subst
              (λ a.
                slots_offset_of o slot_align % max a 64 ≡ 0
                → slots_offset_of o slot_align % max a 8 ≡ 0)
              (sym z.align) (align_lem z.align_exponent (slots_offset_of o slot_align)) off.0;
        slots = rw sz (omega (arith, whole));
        registry = ground (arith, off, whole, z.readers);
        arena = inl refl;
      }

  header-IsTyped : IsTyped (publish (initialize (layout_of o slot_size slot_align schema_sig)))
  unfolding initialize publish layout_of
  header-IsTyped =
      let off = slots_offset_lem in
      let small : 2 ^ z.exponent ≤ 2 ^ 63 =
        pow-le-pow_right {n = 2} (omega arith) {j = 63} (omega (arith, z.exponent_max)) in
      record {
        element_size_u32 = omega arith;
        capacity_u64 = omega (arith, small, z.capacity);
        arena_size_u64 = omega arith;
        registry_offset_u32 = omega arith;
        registry_count_u32 = omega arith;
        slots_offset_u64 = omega (arith, off, z.total);
      }

  total_size-u64 : total_size_of o slot_size slot_align < 2 ^ 64
  unfolding total_size_of
  total_size-u64 = omega arith

  new_producer-IsClean : {T : Type 0} (payload log : ℕ → T) → IsClean (new_producer payload o) log
  new_producer-IsClean payload log =
      let small : 2 ^ z.exponent ≤ 2 ^ 63 =
        pow-le-pow_right {n = 2} (omega arith) {j = 63} (omega (arith, z.exponent_max)) in
      let pos : 1 ≤ 2 ^ z.exponent = one-le-pow z.exponent 2 (omega arith) in
      record {
        ring = record {
          log_capacity = z.exponent;
          capacity = z.capacity;
          mask = omega (arith, small, pos, z.capacity);
          started = omega arith;
          window = λ n pos lt near. absurd (omega arith);
        };
        untouched = λ i le lt. refl;
        first = λ le. refl;
      }

  -- What a new ring is: a region that attaching accepts, and a producer of the empty log.
  abbrev pub Creates : {T : Type 0} → (ℕ → T) → (ℕ → T) → Region T → RingProducer T → Type 0
  Creates payload log r p =
      (create_with_options payload o slot_size slot_align schema_sig ≡ ok (r, p))
      × (validate_ring r.header r.len (some slot_size) slot_align ≡ ok (view_of r.header))
      × IsClean p log
      × (r.header.capacity ≡ p.capacity)
      × (r.header.schema_sig ≡ schema_sig)

  -- `create_with_options` succeeds on a power-of-two capacity, and what it makes passes `validate_ring`
  -- with the same slot size and alignment; the producer's ring holds no message and agrees with the
  -- header. The sizes fit in their types and the region has fewer than 2^64 bytes.
  pub create_with_options-accepted :
      {T : Type 0} (payload log : ℕ → T)
      → (r : Region T) × (p : RingProducer T) × Creates payload log r p
  unfolding create_with_options initialize publish layout_of
  create_with_options-accepted payload log =
      let power : is_power_of_two o.capacity ≡ true =
        subst (λ (n : ℕ). is_power_of_two n ≡ true) (sym z.capacity)
          (is_power_of_two_complete z.exponent z.exponent_max) in
      (
        new_region payload o slot_size slot_align schema_sig,
        new_producer payload o,
        (
          ground (arith, power),
          (validate_ring_iff header-IsTyped total_size-u64 (some slot_size) slot_align _).1
              (header-IsWellFormed, refl),
          new_producer-IsClean payload log,
          refl,
          refl,
        ),
      )
