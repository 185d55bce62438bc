-- ===== src/Ring/Laws.antt =====
-- The modulo loads and stores of `atomic_ring_buf`: what is read back, and what `resize` keeps.
use Prim.Native.Nat.{bit_and}
use native.Mathlib.Nat.{mod-lt, mod-eq_of_lt, mod-eq-sub-mod, mod-add-mod}
use parallel_load_balancing.Common.{
  ℕ, ◌+◌, ◌-◌, ◌%◌, ◌^◌, ◌≤◌, ◌<◌, ◌≡◌, ◌≢◌, refl, sym, ap, ◌∙◌, Option, none, some, get_or, set,
  length, length-set, get_or-set_self, get_or-set_ne, arith, dec_lt,
}
use parallel_load_balancing.Common.Bits.{bit_and_mask, pow_pos}
use parallel_load_balancing.Ring.{RingBuf, load, store}

-- The capacity is a power of two, and the array has that many slots.
pub record IsRing {T : Type 0} (r : RingBuf T) : Type 0 where
  pub bits : ℕ
  pub pow : r.cap ≡ 2 ^ bits
  pub full : length r.slots ≡ r.cap

-- Two indices less than `c` apart meet the same slot only if they are one.
near_mod : (c a d : ℕ) → 0 < d → d < c → a % c ≢ (a + d) % c
near_mod c a d h k e = elim (dec_lt (a % c + d) c) [
  | yes p ↦ omega (arith, e, mod-add-mod a c d, mod-eq_of_lt p)
  | no p ↦ omega (
    arith,
    e,
    mod-add-mod a c d,
    mod-lt a {m = c} (omega arith),
    mod-eq-sub-mod {n = a % c + d} {m = c} (omega arith),
    mod-eq_of_lt {n = a % c + d - c} {m = c} (omega (arith, mod-lt a {m = c} (omega arith))),
  )
]

-- Distinct indices of a window of at most `c` have distinct slots.
window_mod : (c lo i j : ℕ) → lo ≤ i → lo ≤ j → i < lo + c → j < lo + c → i ≢ j → i % c ≢ j % c
window_mod c lo i j a b p q ne e = elim (dec_lt i j) [
  | yes l ↦ near_mod c i (j - i) (omega arith) (omega arith) (e ∙ ap (λ n. n % c) (omega arith))
  | no l ↦ near_mod c j (i - j) (omega arith) (omega arith) (sym e ∙ ap (λ n. n % c) (omega arith))
]

module _ {T : Type 0} where
  pub cap_pos : {r : RingBuf T} → IsRing r → 0 < r.cap
  cap_pos v = omega (arith, v.pow, pow_pos v.bits)

  pub load_mod : {r : RingBuf T} (i : ℕ) → IsRing r → load r i ≡ get_or r.slots (i % r.cap) none
  unfolding load
  load_mod {r} i v = rw (v.pow, bit_and_mask v.bits i)

  pub slot_mod : {r : RingBuf T} (i : ℕ) → IsRing r → bit_and i (r.cap - 1) ≡ i % r.cap
  slot_mod {r} i v = rw v.pow (bit_and_mask v.bits i)

  slot-lt : {r : RingBuf T} (i : ℕ) → IsRing r → i % r.cap < length r.slots
  slot-lt i v = omega (arith, mod-lt i (cap_pos v), v.full)

  -- Writing a slot keeps the shape.
  pub set-IsRing :
      {r : RingBuf T} (k : ℕ) (v : Option T)
      → IsRing r
      → IsRing (record r { slots = set r.slots k v })
  set-IsRing {r} k v w = record {
    bits = w.bits;
    pow = w.pow;
    full = length-set r.slots k v ∙ w.full;
  }

  pub store-IsRing : {r : RingBuf T} (i : ℕ) (v : T) → IsRing r → IsRing (store r i v)
  unfolding store
  store-IsRing {r} i v w = set-IsRing (bit_and i (r.cap - 1)) (some v) w

  -- What a write of slot `i` leaves to be read at an index of the same window.
  pub set_self :
      {r : RingBuf T} (i : ℕ) (v : Option T)
      → IsRing r
      → load (record r { slots = set r.slots (bit_and i (r.cap - 1)) v }) i ≡ v
  unfolding load
  set_self {r} i v w = rw (slot_mod i w) (get_or-set_self r.slots (i % r.cap) v none (slot-lt i w))

  pub set_other :
      {r : RingBuf T} (lo i j : ℕ) (v : Option T)
      → IsRing r
      → lo ≤ i
      → lo ≤ j
      → i < lo + r.cap
      → j < lo + r.cap
      → i ≢ j
      → load (record r { slots = set r.slots (bit_and i (r.cap - 1)) v }) j ≡ load r j
  unfolding load
  set_other {r} lo i j v w a b p q ne =
      rw (slot_mod i w, slot_mod j w)
        (get_or-set_ne r.slots v none (window_mod r.cap lo i j a b p q ne))

  pub load-store_self : {r : RingBuf T} (i : ℕ) (v : T) → IsRing r → load (store r i v) i ≡ some v
  unfolding store
  load-store_self i v w = set_self i (some v) w

  pub load-store_other :
      {r : RingBuf T} (lo i j : ℕ) (v : T)
      → IsRing r
      → lo ≤ i
      → lo ≤ j
      → i < lo + r.cap
      → j < lo + r.cap
      → i ≢ j
      → load (store r i v) j ≡ load r j
  unfolding store
  load-store_other lo i j v w a b p q ne = set_other lo i j (some v) w a b p q ne

  pub cap-store : (r : RingBuf T) (i : ℕ) (v : T) → (store r i v).cap ≡ r.cap
  unfolding store
  cap-store r i v = refl
