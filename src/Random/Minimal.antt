-- ===== src/Random/Minimal.antt =====
-- The step of the generator is the root of a polynomial of degree 256.
use Prim.Native.Nat.{bit_xor}
use native.Mathlib.Nat.{pow-succ', pow-le-pow_right}
use parallel_load_balancing.Common.{
  ℕ, zero, suc, ◌+◌, ◌-◌, ◌^◌, ◌<◌, ◌≤◌, ◌≡◌, refl, sym, ap, ap₂, ◌∙◌, arith, dec_lt,
}
use parallel_load_balancing.Common.Bits.{pow_pos}
use parallel_load_balancing.Common.Xor.{xor_top, zero-xor, xor-zero}
use parallel_load_balancing.Common.Rotations.{eq_of_xor}
use parallel_load_balancing.Random.{Xoshiro, advance, xor_state, zeros}
use parallel_load_balancing.Random.Jump.{IsState, xor_state-IsState, state_eq}
use parallel_load_balancing.Random.Polynomials.{act, act-xor, act-xor_state, act-zeros}

-- The polynomial of degree 256 that the step is a root of, without its first coefficient.
abbrev pub minimal_low : ℕ
minimal_low = 0x3c03c3f3ecb1904b4edcf26259f850280002bcefd1a5e9d116f2bb0f0f001

minimal : ℕ
minimal = 0x10003c03c3f3ecb1904b4edcf26259f850280002bcefd1a5e9d116f2bb0f0f001

-- `x` in one word of the state.
slot : ℕ → ℕ → Xoshiro
slot zero x = record { s0 = x; s1 = 0; s2 = 0; s3 = 0 }
slot (suc zero) x = record { s0 = 0; s1 = x; s2 = 0; s3 = 0 }
slot (suc (suc zero)) x = record { s0 = 0; s1 = 0; s2 = x; s3 = 0 }
slot (suc (suc (suc j))) x = record { s0 = 0; s1 = 0; s2 = 0; s3 = x }

weight : Xoshiro → ℕ
weight m = m.s0 + m.s1 + m.s2 + m.s3

weight-zero : (m : Xoshiro) → weight m ≡ 0 → m ≡ zeros
unfolding weight
weight-zero m h =
    state_eq (omega (arith, h)) (omega (arith, h)) (omega (arith, h)) (omega (arith, h))

-- What the polynomial leaves of the states with one of the lowest `n` bits in word `j`.
left_over : ℕ → ℕ → ℕ
left_over j zero = 0
left_over j (suc n) = weight (act 257 minimal (slot j (2 ^ n))) + left_over j n

word0 : left_over 0 64 ≡ 0
unfolding left_over weight slot minimal act advance
word0 = refl

word1 : left_over 1 64 ≡ 0
unfolding left_over weight slot minimal act advance
word1 = refl

word2 : left_over 2 64 ≡ 0
unfolding left_over weight slot minimal act advance
word2 = refl

word3 : left_over 3 64 ≡ 0
unfolding left_over weight slot minimal act advance
word3 = refl

left_over_at : (j n k : ℕ) → left_over j n ≡ 0 → k < n → act 257 minimal (slot j (2 ^ k)) ≡ zeros
unfolding left_over
left_over_at j zero k h l = absurd (omega (arith, l))
left_over_at j (suc n) k h l = elim (dec_lt k n) [
  | yes q ↦ left_over_at j n k (omega (arith, h)) q
  | no q ↦
      let same : k ≡ n = omega (arith, l, q) in
      rw same (weight-zero (act 257 minimal (slot j (2 ^ n))) (omega (arith, h)))
]

slot-IsState : (j x : ℕ) → x < 2 ^ 64 → IsState (slot j x)
unfolding slot
slot-IsState zero x l = omega (arith, l)
slot-IsState (suc zero) x l = omega (arith, l)
slot-IsState (suc (suc zero)) x l = omega (arith, l)
slot-IsState (suc (suc (suc j))) x l = omega (arith, l)

slot-xor : (j x y : ℕ) → slot j (bit_xor x y) ≡ xor_state (slot j x) (slot j y)
unfolding slot
slot-xor zero x y = refl
slot-xor (suc zero) x y = refl
slot-xor (suc (suc zero)) x y = refl
slot-xor (suc (suc (suc j))) x y = refl

slot-zeros : (j : ℕ) → slot j 0 ≡ zeros
unfolding slot
slot-zeros zero = refl
slot-zeros (suc zero) = refl
slot-zeros (suc (suc zero)) = refl
slot-zeros (suc (suc (suc j))) = refl

pow_le : (w : ℕ) → w < 64 → 2 ^ w < 2 ^ 64
pow_le w l =
    let h : 2 ^ suc w ≤ 2 ^ 64 = pow-le-pow_right (omega arith) {j = 64} (omega (arith, l)) in
    omega (arith, h, pow-succ' 2 w, pow_pos w)

-- The polynomial vanishes on a word, bit by bit.
minimal-slot :
    (j w x : ℕ) → left_over j 64 ≡ 0 → w ≤ 64 → x < 2 ^ w → act 257 minimal (slot j x) ≡ zeros
minimal-slot j zero zero h l p = ap (act 257 minimal) (slot-zeros j) ∙ act-zeros 257 minimal
minimal-slot j zero (suc x) h l p = absurd (omega (arith, p))
minimal-slot j (suc w) x h l p = elim (dec_lt x (2 ^ w)) [
  | yes q ↦ minimal-slot j w x h (omega (arith, l)) q
  | no q ↦
      let rest = x - 2 ^ w in
      let small : rest < 2 ^ w = omega (arith, p, q, pow-succ' 2 w) in
      let parts : x ≡ rest + 2 ^ w = omega (arith, q) in
      let top = pow_le w (omega (arith, l)) in
      ap (λ n. act 257 minimal (slot j n)) (parts ∙ sym (xor_top w rest small))
      ∙ ap (act 257 minimal) (slot-xor j rest (2 ^ w))
      ∙ act-xor_state 257 minimal (slot j rest) (slot j (2 ^ w))
          (slot-IsState j rest (omega (arith, small, top))) (slot-IsState j (2 ^ w) top)
      ∙ ap₂ xor_state (minimal-slot j w rest h (omega (arith, l)) small)
          (left_over_at j 64 w h (omega (arith, l)))
]

four_slots :
    (m : Xoshiro)
    → m ≡ xor_state (slot 0 m.s0) (xor_state (slot 1 m.s1) (xor_state (slot 2 m.s2) (slot 3 m.s3)))
unfolding slot
four_slots m = sym (
    state_eq (xor-zero m.s0) (zero-xor (bit_xor m.s1 0) ∙ xor-zero m.s1)
      (zero-xor (bit_xor 0 (bit_xor m.s2 0)) ∙ zero-xor (bit_xor m.s2 0) ∙ xor-zero m.s2)
      (zero-xor (bit_xor 0 (bit_xor 0 m.s3)) ∙ zero-xor (bit_xor 0 m.s3) ∙ zero-xor m.s3))

-- The step is a root of the polynomial.
act-minimal : (m : Xoshiro) → IsState m → act 257 minimal m ≡ zeros
act-minimal m v =
    let v0 = slot-IsState 0 m.s0 v.word0 in
    let v1 = slot-IsState 1 m.s1 v.word1 in
    let v2 = slot-IsState 2 m.s2 v.word2 in
    let v3 = slot-IsState 3 m.s3 v.word3 in
    let v23 = xor_state-IsState _ _ v2 v3 in
    let v123 = xor_state-IsState _ _ v1 v23 in
    ap (act 257 minimal) (four_slots m)
    ∙ act-xor_state 257 minimal _ _ v0 v123
    ∙ ap₂ xor_state (minimal-slot 0 64 m.s0 word0 (omega arith) v.word0) (
        act-xor_state 257 minimal _ _ v1 v23
        ∙ ap₂ xor_state (minimal-slot 1 64 m.s1 word1 (omega arith) v.word1) (
            act-xor_state 257 minimal _ _ v2 v3
            ∙ ap₂ xor_state (minimal-slot 2 64 m.s2 word2 (omega arith) v.word2)
                (minimal-slot 3 64 m.s3 word3 (omega arith) v.word3)))

split-minimal : bit_xor (2 ^ 256) minimal_low ≡ minimal
unfolding minimal
split-minimal = refl

eq_of_xor_state : (s t : Xoshiro) → xor_state s t ≡ zeros → s ≡ t
eq_of_xor_state s t e =
    state_eq (eq_of_xor s.s0 t.s0 (ap (λ r. r.s0) e)) (eq_of_xor s.s1 t.s1 (ap (λ r. r.s1) e))
      (eq_of_xor s.s2 t.s2 (ap (λ r. r.s2) e)) (eq_of_xor s.s3 t.s3 (ap (λ r. r.s3) e))

-- So 256 steps are the sum that the lower coefficients stand for.
pub act-leading : (m : Xoshiro) → IsState m → act 257 (2 ^ 256) m ≡ act 257 minimal_low m
act-leading m v = eq_of_xor_state _ _ (
    sym (act-xor 257 (2 ^ 256) minimal_low m)
    ∙ ap (λ p. act 257 p m) split-minimal
    ∙ act-minimal m v)
