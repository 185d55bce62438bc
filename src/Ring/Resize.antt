-- ===== src/Ring/Resize.antt =====
-- `atomic_ring_buf::resize`: a ring of twice the capacity that reads the same at every index of the
-- copied range.
use native.Mathlib.Nat.{pow-succ'}
use parallel_load_balancing.Common.{
  ℕ, zero, suc, ◌+◌, ◌-◌, ◌*◌, ◌≤◌, ◌<◌, ◌≡◌, refl, sym, ◌∙◌, ap, ◌^◌, length-replicate, arith,
  ℕ_discrete,
}
use parallel_load_balancing.Ring.{RingBuf, load, make, copy_slot, copy_range, resize}
use parallel_load_balancing.Ring.Laws.{IsRing, set-IsRing, set_self, set_other}

pub make-IsRing : {T : Type 0} (bits cap : ℕ) → cap ≡ 2 ^ bits → IsRing (make T cap)
make-IsRing bits cap e = record { bits = bits; pow = e; full = length-replicate cap _ }

module _ {T : Type 0} where
  copy_slot-IsRing :
      (old : RingBuf T) {new : RingBuf T} (i : ℕ) → IsRing new → IsRing (copy_slot old new i)
  unfolding copy_slot
  copy_slot-IsRing old {new} i w = set-IsRing _ (load old i) w

  cap-copy_slot : (old new : RingBuf T) (i : ℕ) → (copy_slot old new i).cap ≡ new.cap
  unfolding copy_slot
  cap-copy_slot old new i = refl

  -- What is read below `i + 1` after a round, if all below `i` was copied.
  abbrev Copied : RingBuf T → RingBuf T → ℕ → ℕ → Type 0
  Copied old new lo i = (j : ℕ) → lo ≤ j → j < i → load new j ≡ load old j

  copy_slot-Copied :
      (old : RingBuf T) {new : RingBuf T} (lo i : ℕ)
      → IsRing new
      → lo ≤ i
      → i < lo + new.cap
      → Copied old new lo i
      → Copied old (copy_slot old new i) lo (suc i)
  unfolding copy_slot
  copy_slot-Copied old {new} lo i w a b c j p q = elim (ℕ_discrete i j) [
    | yes e ↦ rw (← e) (set_self i (load old i) w)
    | no ne ↦ set_other lo i j (load old i) w a p b (omega arith) ne ∙ c j p (omega arith)
  ]

  copy_range_lem :
      (old : RingBuf T) (new : RingBuf T) (lo i n : ℕ)
      → IsRing new
      → lo ≤ i
      → i + n ≤ lo + new.cap
      → Copied old new lo i
      → IsRing (copy_range old new i n)
        × ((copy_range old new i n).cap ≡ new.cap)
        × Copied old (copy_range old new i n) lo (i + n)
  unfolding copy_range
  copy_range_lem old new lo i zero w a b c = (w, refl, λ j p q. c j p (omega arith))
  copy_range_lem old new lo i (suc n) w a b c =
      let (w', e, c') =
        copy_range_lem old (copy_slot old new i) lo (suc i) n (copy_slot-IsRing old i w)
          (omega arith) (omega (arith, cap-copy_slot old new i))
          (copy_slot-Copied old lo i w a (omega arith) c) in
      (w', e ∙ cap-copy_slot old new i, λ j p q. c' j p (omega arith))

  -- A full ring grows to twice its capacity, stays a ring, and every index of the range
  -- [top, bot) reads as before.
  pub resize_lem :
      {r : RingBuf T} (bot top : ℕ)
      → IsRing r
      → top ≤ bot
      → bot ≤ top + r.cap
      → IsRing (resize r bot top)
        × ((resize r bot top).cap ≡ 2 * r.cap)
        × ((j : ℕ) → top ≤ j → j < bot → load (resize r bot top) j ≡ load r j)
  unfolding resize
  resize_lem {r} bot top w a b =
      let (w', e, c) =
        copy_range_lem r (make T (2 * r.cap)) top top (bot - top)
          (make-IsRing (suc w.bits) (2 * r.cap) (ap (λ n. 2 * n) w.pow ∙ sym (pow-succ' 2 w.bits)))
          (omega arith) (omega arith) (λ j p q. absurd (omega arith)) in
      (w', e, λ j p q. c j p (omega arith))
