-- ===== src/Arena/Reserve.antt =====
-- Where a reservation of src/arena.rs lies: in one piece inside the ring of bytes, aligned to 64, after
-- all that is reserved.
use ringfire.Prelude.{
  ℕ, ◌+◌, ◌-◌, ◌*◌, ◌%◌, ◌^◌, ◌≤◌, ◌<◌, ◌≡◌, ◌⊎◌, sym, ap, ◌∙◌, subst, true, inl, inr, arith, some, List,
  [], ◌∷◌, All, Any, not, ◌&&◌, Bool-cases, Option-cases, ◌==◌, add_u64, bit_or, bit_and-eq-mod,
  bit_or-mask_next, bit_and-not_63, mod-mod_64, two_pow-mod_64, mod-next,
}
use native.Mathlib.Nat.{pow-le-pow_right}
use native.Mathlib.Decide.{dec_lt}
use ringfire.Errors.{ok}
use ringfire.Arena.{BlobRef, PayloadArena, Attempt, slot_size_of, place, reserve_loop, reserve}

pub record IsArena (a : PayloadArena) : Type 0 where
  pub exponent : ℕ
  pub capacity_eq : a.capacity ≡ 2 ^ exponent
  pub exponent_max : exponent < 64
  pub capacity_min : 64 ≤ a.capacity
  pub mask_eq : a.mask + 1 ≡ a.capacity

-- `off` and `next` delimit a reservation of `len` bytes past `curr`.
pub record IsPlaced (capacity len curr off next : ℕ) : Type 0 where
  pub after : curr ≤ off
  pub covers : off + len ≤ next
  pub contiguous : off % capacity + len ≤ capacity
  pub aligned : off % 64 ≡ 0
  pub next_aligned : next % 64 ≡ 0
  pub waste : off ≤ curr + len
  -- Nothing is skipped, or the reservation would have crossed the end of the ring of bytes from `curr`, and starts
  -- at that end.
  pub skip :
      (off ≡ curr)
      ⊎ ((capacity < curr % capacity + len) × (off + curr % capacity ≡ curr + capacity))
  pub next_max : next < off + len + 64

pub slot_size_lem :
    (len : ℕ)
    → len + 63 < 2 ^ 64
    → (len ≤ slot_size_of len) × (slot_size_of len < len + 64) × (slot_size_of len % 64 ≡ 0)
unfolding slot_size_of
slot_size_lem len h = ground (arith, bit_and-not_63 (add_u64 len 63) (omega arith))

pub capacity_max : (a : PayloadArena) → IsArena a → a.capacity ≤ 2 ^ 63
capacity_max a i =
    let e : 2 ^ i.exponent ≤ 2 ^ 63 =
      pow-le-pow_right {n = 2} (omega arith) {j = 63} (omega arith) in
    omega arith

pub capacity-mod_64 : (a : PayloadArena) → IsArena a → a.capacity % 64 ≡ 0
capacity-mod_64 a i =
    subst (λ (t : ℕ). t % 64 ≡ 0) (sym i.capacity_eq) (two_pow-mod_64 i.exponent (omega arith))

pub place-IsPlaced :
    (a : PayloadArena) (len curr : ℕ)
    → IsArena a
    → len ≤ a.capacity
    → curr % 64 ≡ 0
    → curr + 2 * a.capacity + 64 < 2 ^ 64
    → IsPlaced a.capacity len curr (place a len curr).0 (place a len curr).1
unfolding place
place-IsPlaced a len curr i l m h =
    let ix = bit_and-eq-mod i.exponent a.capacity a.mask curr i.capacity_eq i.mask_eq in
    let up = bit_or-mask_next i.exponent a.capacity a.mask curr i.capacity_eq i.mask_eq in
    let sz = slot_size_lem len (omega arith) in
    let k = capacity-mod_64 a i in
    let m' = mod-mod_64 curr a.capacity m k in
    let z = mod-next curr a.capacity (omega arith) in
    let off_eq : add_u64 (bit_or curr a.mask) 1 ≡ curr + a.capacity - curr % a.capacity =
      omega (arith, up) in
    elim (dec_lt a.capacity (curr % a.capacity + len)) [
      | yes over ↦
          let z' : add_u64 (bit_or curr a.mask) 1 % a.capacity ≡ 0 =
            ap (λ (t : ℕ). t % a.capacity) off_eq ∙ z in
          ground arith
      | no fits ↦ ground arith
    ]

-- The word that the winning attempt loaded is one of the attempts', and it was still there.
abbrev pub IsPlacedFrom : PayloadArena → ℕ → ℕ × ℕ → Attempt → Type 0
IsPlacedFrom a len r t = (t.actual ≡ t.loaded) × IsPlaced a.capacity len t.loaded r.0 r.1

abbrev pub IsAligned : ℕ → PayloadArena → Type 0
IsAligned curr a = (curr % 64 ≡ 0) × (curr + 2 * a.capacity + 64 < 2 ^ 64)

taken :
    (a : PayloadArena) (len : ℕ) (t : Attempt) (ts : List Attempt) (r : ℕ × ℕ)
    → (t.actual == t.loaded && not t.spurious) ≡ true
    → reserve_loop a len (t ∷ ts) ≡ some r
    → place a len t.loaded ≡ r
unfolding reserve_loop
taken a len t ts r won e = ground arith

reserve_loop-IsPlaced :
    (a : PayloadArena) (len : ℕ) (ts : List Attempt) (r : ℕ × ℕ)
    → IsArena a
    → len ≤ a.capacity
    → All (λ t. IsAligned t.loaded a) ts
    → reserve_loop a len ts ≡ some r
    → Any (IsPlacedFrom a len r) ts
unfolding reserve_loop
reserve_loop-IsPlaced a len [] r i l al e = cc
reserve_loop-IsPlaced a len (t ∷ ts) r i l al e =
    let p = place-IsPlaced a len t.loaded i l al.0.0 al.0.1 in
    elim (Bool-cases (t.actual == t.loaded && not t.spurious)) [
      | inl won ↦ inl (
        ground arith,
        subst (λ q. IsPlaced a.capacity len t.loaded q.0 q.1) (taken a len t ts r won e) p,
      )
      | inr lost ↦ inr (reserve_loop-IsPlaced a len ts r i l al.1 (ground arith))
    ]

reserved_at :
    (a : PayloadArena) (len flags : ℕ) (ts : List Attempt) (q : ℕ × ℕ) (r : BlobRef) (next : ℕ)
    → reserve_loop a len ts ≡ some q
    → reserve a len flags ts ≡ some (ok r, some next)
    → (r.len ≡ len) × (q.0 ≡ r.offset) × (q.1 ≡ next) × (len ≤ a.capacity)
unfolding reserve
reserved_at a len flags ts q r next won e = (ground arith, ground arith, ground arith, ground arith)

-- A reservation that succeeds is placed past the value of `reserved` that its own compare-and-swap
-- replaced, in one piece, and holds the whole payload.
pub reserve-IsPlaced :
    (a : PayloadArena) (len flags : ℕ) (ts : List Attempt) (r : BlobRef) (next : ℕ)
    → IsArena a
    → All (λ t. IsAligned t.loaded a) ts
    → reserve a len flags ts ≡ some (ok r, some next)
    → (r.len ≡ len) × Any (IsPlacedFrom a len (r.offset, next)) ts
unfolding reserve
reserve-IsPlaced a len flags ts r next i al e = elim (Option-cases (reserve_loop a len ts)) [
  | inl ran_out ↦ absurd (ground arith)
  | inr (q, won) ↦
      let (len_eq, off_eq, next_eq, small) = reserved_at a len flags ts q r next won e in
      (
        len_eq,
        reserve_loop-IsPlaced a len ts (r.offset, next) i small al
            (won ∙ ap (λ (n : ℕ). some (q.0, n)) next_eq ∙ ap (λ (o : ℕ). some (o, next)) off_eq),
      )
]
