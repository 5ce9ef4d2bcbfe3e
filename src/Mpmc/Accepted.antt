-- ===== src/Mpmc/Accepted.antt =====
-- A ring that `create` of src/mpmc.rs makes is accepted by the two `attach`.
use ringfire.Prelude.{
  ℕ, zero, suc, ◌+◌, ◌*◌, ◌%◌, ◌^◌, ◌≤◌, ◌<◌, max, ◌≡◌, refl, sym, subst, inl, true, none, some,
  ◌!=◌, ◌&&◌, false, arith, is_power_of_two, is_power_of_two_complete, next_multiple_of_lem,
  sub_u64,
}
use native.Mathlib.Nat.{one-le-pow, mod-eq_of_lt, pow-le-pow_right}
use Prim.Native.String.{String}
use ringfire.Errors.{ok}
use ringfire.Constants.{ring_header_size}
use ringfire.Header.{IsTyped, initialize, publish, check_schema}
use ringfire.Header.Validate.{IsWellFormed, view_of, validate_ring_iff}
use ringfire.Mpmc.Create.{
  MpmcProducer, MpmcRegion, slots_offset_of, total_size_of, layout_of, new_region, create,
  attach_producer, attach_consumer,
}

-- The sizes of a ring whose region has fewer than 2^64 bytes.
pub record Sized (capacity slot_size slot_align : ℕ) : Type 0 where
  pub exponent : ℕ
  pub exponent_max : exponent < 64
  pub capacity_eq : capacity ≡ 2 ^ exponent
  pub size_min : 8 ≤ slot_size
  pub size_max : slot_size < 2 ^ 32
  pub align_exponent : ℕ
  pub align : slot_align ≡ 2 ^ align_exponent
  pub total : ring_header_size + slot_align + capacity * slot_size < 2 ^ 64

align_lem : (j n : ℕ) → 128 ≤ n → n < 128 + 2 ^ j → n % 2 ^ j ≡ 0 → n % max (2 ^ j) 8 ≡ 0
align_lem zero n lo hi h = omega arith
align_lem (suc zero) n lo hi h = omega arith
align_lem (suc (suc zero)) n lo hi h = omega arith
align_lem (suc (suc (suc j))) n lo hi h =
    let big : 8 ≤ 2 ^ suc (suc (suc j)) =
      pow-le-pow_right {n = 2} (omega arith) {i = 3} {j = suc (suc (suc j))} (omega arith) in
    let same : 2 ^ suc (suc (suc j)) ≡ max (2 ^ suc (suc (suc j))) 8 = omega (arith, big) in
    subst (λ (m : ℕ). n % m ≡ 0) same h

module _ (capacity slot_size slot_align schema_sig : ℕ)
    (z : Sized capacity slot_size slot_align) where
  slots_offset_lem :
      (slots_offset_of slot_align % slot_align ≡ 0)
      × (ring_header_size ≤ slots_offset_of slot_align)
      × (slots_offset_of slot_align < ring_header_size + slot_align)
  unfolding slots_offset_of
  slots_offset_lem =
      let pos : 0 < slot_align =
        subst (λ n. 0 < n) (sym z.align) (one-le-pow z.align_exponent 2 (omega arith)) in
      next_multiple_of_lem ring_header_size slot_align pos (omega (arith, z.total))

  bounds : (1 ≤ capacity) × (capacity ≤ 2 ^ 63)
  bounds =
      let small : 2 ^ z.exponent ≤ 2 ^ 63 =
        pow-le-pow_right {n = 2} (omega arith) {j = 63} (omega (arith, z.exponent_max)) in
      let pos : 1 ≤ 2 ^ z.exponent = one-le-pow z.exponent 2 (omega arith) in
      omega (arith, small, pos, z.capacity_eq)

  header-IsWellFormed :
      IsWellFormed
        (publish (initialize (layout_of capacity slot_size slot_align schema_sig)))
        (total_size_of capacity slot_size slot_align)
        (some slot_size)
        slot_align
  unfolding initialize publish layout_of total_size_of
  header-IsWellFormed =
      let off = slots_offset_lem in
      let whole : total_size_of capacity slot_size slot_align
          ≡ slots_offset_of slot_align + capacity * slot_size =
        omega (arith, off, z.total) in
      let sz : slot_size % 2 ^ 32 ≡ slot_size = mod-eq_of_lt z.size_max in
      record {
        has_header = omega (arith, off, whole);
        magic = refl;
        version = refl;
        size = sz;
        sized = omega (arith, z.size_min, z.size_max);
        log_capacity = z.exponent;
        small = z.exponent_max;
        capacity = z.capacity_eq;
        mask = omega (arith, bounds);
        after_header = omega (arith, off);
        aligned =
            subst (λ a. slots_offset_of slot_align % max a 8 ≡ 0) (sym z.align)
              (align_lem z.align_exponent (slots_offset_of slot_align) off.1
                (subst (λ a. slots_offset_of slot_align < 128 + a) z.align off.2)
                (subst (λ a. slots_offset_of slot_align % a ≡ 0) z.align off.0));
        slots = rw sz (omega (arith, whole));
        registry = ground (arith, off, whole);
        arena = inl refl;
      }

  header-IsTyped :
      IsTyped (publish (initialize (layout_of capacity slot_size slot_align schema_sig)))
  unfolding initialize publish layout_of
  header-IsTyped =
      let off = slots_offset_lem in
      record {
        element_size_u32 = omega arith;
        capacity_u64 = omega (arith, bounds);
        arena_size_u64 = omega arith;
        registry_offset_u32 = omega arith;
        registry_count_u32 = omega arith;
        slots_offset_u64 = omega (arith, off, z.total);
      }

  total_size-u64 : total_size_of capacity slot_size slot_align < 2 ^ 64
  unfolding total_size_of
  total_size-u64 = omega arith

  -- `create` succeeds on a power-of-two capacity, and `attach` then accepts the region for a type with the same
  -- slot size, alignment and signature, for a further producer as for a worker: the producers agree on
  -- capacity and mask, and the worker has no ticket and has dropped nothing. The sizes fit in their
  -- types and the region has fewer than 2^64 bytes.
  pub create-attach_producer :
      {T : Type 0} (payload : ℕ → T) (type_name : String)
      → (r : MpmcRegion T) × (p : MpmcProducer) × (create payload capacity slot_size slot_align
            schema_sig
          ≡ ok (r, p))
        × (attach_producer r slot_size slot_align schema_sig type_name ≡ ok p)
        × (attach_consumer r slot_size slot_align schema_sig type_name
            ≡ ok (record { capacity = p.capacity; pending = none; dropped = 0 }))
  unfolding create attach_producer attach_consumer check_schema initialize publish layout_of
  create-attach_producer payload type_name =
      let power : is_power_of_two capacity ≡ true =
        subst (λ (n : ℕ). is_power_of_two n ≡ true) (sym z.capacity_eq)
          (is_power_of_two_complete z.exponent z.exponent_max) in
      let own : (schema_sig != 0 && schema_sig != schema_sig) ≡ false = ground arith in
      let valid =
        (validate_ring_iff header-IsTyped total_size-u64 (some slot_size) slot_align
            (view_of (publish (initialize (layout_of capacity slot_size slot_align schema_sig))))).1
          (header-IsWellFormed, refl) in
      (
        new_region payload capacity slot_size slot_align schema_sig,
        record { capacity = capacity; mask = sub_u64 capacity 1 },
        rw power refl,
        rw (valid, own) refl,
        rw (valid, own) refl,
      )
