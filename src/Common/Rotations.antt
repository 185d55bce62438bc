-- ===== src/Common/Rotations.antt =====
-- Rotations of words of `w` bits, and how they and the shifts go with exclusive or.
use Prim.Native.Nat.{ℕ, zero, suc, ◌+◌, ◌-◌, ◌*◌, ◌^◌, ◌≤◌, ◌<◌, max, bit_or, bit_xor, differ}
use mathlib.Core.Path.{◌≡◌, refl, sym, ap, ap₂, ◌∙◌}
use native.Mathlib.Nat.{mod-lt}
use native.Mathlib.Decide.{dec_lt}
use native.Mathlib.Omega.{arith}
use parallel_load_balancing.Common.Bits.{pow_pos}
use parallel_load_balancing.Common.Xor.{bit, bit_lt, bit-zero, bits_eq, bit-xor, bit-or}
use parallel_load_balancing.Common.Words.{
  shl, shr, bit-div, bit-mul, bit-mul_below, bit-mod, bit-mod_above, bit_above, lt_of_bits,
}

-- Of bits.
differ_interchange :
    (a b c d : ℕ)
    → a < 2
    → b < 2
    → c < 2
    → d < 2
    → differ (differ a b) (differ c d) ≡ differ (differ a c) (differ b d)
differ_interchange zero zero c d p q r s = refl
differ_interchange zero (suc zero) zero zero p q r s = refl
differ_interchange zero (suc zero) zero (suc zero) p q r s = refl
differ_interchange zero (suc zero) (suc zero) zero p q r s = refl
differ_interchange zero (suc zero) (suc zero) (suc zero) p q r s = refl
differ_interchange (suc zero) zero zero zero p q r s = refl
differ_interchange (suc zero) zero zero (suc zero) p q r s = refl
differ_interchange (suc zero) zero (suc zero) zero p q r s = refl
differ_interchange (suc zero) zero (suc zero) (suc zero) p q r s = refl
differ_interchange (suc zero) (suc zero) zero zero p q r s = refl
differ_interchange (suc zero) (suc zero) zero (suc zero) p q r s = refl
differ_interchange (suc zero) (suc zero) (suc zero) zero p q r s = refl
differ_interchange (suc zero) (suc zero) (suc zero) (suc zero) p q r s = refl
differ_interchange (suc (suc a)) b c d p q r s = absurd (omega (arith, p))
differ_interchange a (suc (suc b)) c d p q r s = absurd (omega (arith, q))
differ_interchange a b (suc (suc c)) d p q r s = absurd (omega (arith, r))
differ_interchange a b c (suc (suc d)) p q r s = absurd (omega (arith, s))

pub xor_interchange :
    (a b c d : ℕ) → bit_xor (bit_xor a b) (bit_xor c d) ≡ bit_xor (bit_xor a c) (bit_xor b d)
xor_interchange a b c d = bits_eq _ _ (λ i.
    bit-xor i (bit_xor a b) (bit_xor c d)
    ∙ ap₂ differ (bit-xor i a b) (bit-xor i c d)
    ∙ differ_interchange (bit i a) (bit i b) (bit i c) (bit i d) (bit_lt i a) (bit_lt i b)
        (bit_lt i c) (bit_lt i d)
    ∙ sym (ap₂ differ (bit-xor i a c) (bit-xor i b d))
    ∙ sym (bit-xor i (bit_xor a c) (bit_xor b d)))

pub xor_lt : (w a b : ℕ) → a < 2 ^ w → b < 2 ^ w → bit_xor a b < 2 ^ w
xor_lt w a b p q = lt_of_bits w (bit_xor a b) (λ i.
    bit-xor (w + i) a b
    ∙ ap₂ differ (bit_above w (w + i) a p (omega arith)) (bit_above w (w + i) b q (omega arith)))

bit-shl : (w k i x : ℕ) → k ≤ i → i < w → bit i (shl w x k) ≡ bit (i - k) x
bit-shl w k i x h l =
    let parts : i ≡ k + (i - k) = omega (arith, h) in
    bit-mod w i (x * 2 ^ k) l ∙ ap (λ n. bit n (x * 2 ^ k)) parts ∙ bit-mul k (i - k) x

bit-shl_below : (w k i x : ℕ) → i < k → i < w → bit i (shl w x k) ≡ 0
bit-shl_below w k i x h l = bit-mod w i (x * 2 ^ k) l ∙ bit-mul_below k i x h

pub shl-xor : (w k a b : ℕ) → shl w (bit_xor a b) k ≡ bit_xor (shl w a k) (shl w b k)
shl-xor w k a b = bits_eq _ _ (λ i.
    let split = bit-xor i (shl w a k) (shl w b k) in
    elim (dec_lt i w) [
      | yes l ↦ elim (dec_lt i k) [
        | yes h ↦
            bit-shl_below w k i (bit_xor a b) h l
            ∙ sym (split ∙ ap₂ differ (bit-shl_below w k i a h l) (bit-shl_below w k i b h l))
        | no h ↦
            let m : k ≤ i = omega (arith, h) in
            bit-shl w k i (bit_xor a b) m l
            ∙ bit-xor (i - k) a b
            ∙ sym (split ∙ ap₂ differ (bit-shl w k i a m l) (bit-shl w k i b m l))
      ]
      | no l ↦
          let m : w ≤ i = omega (arith, l) in
          bit-mod_above w i (bit_xor a b * 2 ^ k) m
          ∙ sym (
              split
              ∙ ap₂ differ (bit-mod_above w i (a * 2 ^ k) m) (bit-mod_above w i (b * 2 ^ k) m))
    ])

-- The rotation to the left by `k`.
abbrev pub rotl : ℕ → ℕ → ℕ → ℕ
rotl w x k = bit_or (shl w x k) (shr x (w - k))

-- Of a word, the two parts of the rotation have no bit in common.
bit-rotl_low : (w k i x : ℕ) → k ≤ w → i < k → bit i (rotl w x k) ≡ bit (w - k + i) x
bit-rotl_low w k i x h l =
    bit-or i (shl w x k) (shr x (w - k))
    ∙ ap₂ max (bit-shl_below w k i x l (omega (arith, h, l))) (bit-div (w - k) i x)
    ∙ omega arith

bit-rotl_high : (w k i x : ℕ) → k ≤ w → x < 2 ^ w → k ≤ i → bit i (rotl w x k) ≡ bit i (shl w x k)
bit-rotl_high w k i x h p l =
    let gone : bit (w - k + i) x ≡ 0 = bit_above w (w - k + i) x p (omega (arith, h, l)) in
    bit-or i (shl w x k) (shr x (w - k))
    ∙ ap (λ n. max (bit i (shl w x k)) n) (bit-div (w - k) i x ∙ gone)
    ∙ omega arith

pub rotl-xor :
    (w k a b : ℕ)
    → k ≤ w
    → a < 2 ^ w
    → b < 2 ^ w
    → rotl w (bit_xor a b) k ≡ bit_xor (rotl w a k) (rotl w b k)
rotl-xor w k a b h p q = bits_eq _ _ (λ i.
    let split = bit-xor i (rotl w a k) (rotl w b k) in
    elim (dec_lt i k) [
      | yes l ↦
          bit-rotl_low w k i (bit_xor a b) h l
          ∙ bit-xor (w - k + i) a b
          ∙ sym (split ∙ ap₂ differ (bit-rotl_low w k i a h l) (bit-rotl_low w k i b h l))
      | no l ↦
          let m : k ≤ i = omega (arith, l) in
          bit-rotl_high w k i (bit_xor a b) h (xor_lt w a b p q) m
          ∙ ap (bit i) (shl-xor w k a b)
          ∙ bit-xor i (shl w a k) (shl w b k)
          ∙ sym (split ∙ ap₂ differ (bit-rotl_high w k i a h p m) (bit-rotl_high w k i b h q m))
    ])

pub rotl_lt : (w k x : ℕ) → k ≤ w → x < 2 ^ w → rotl w x k < 2 ^ w
rotl_lt w k x h p = lt_of_bits w (rotl w x k) (λ i.
    bit-rotl_high w k (w + i) x h p (omega (arith, h))
    ∙ bit-mod_above w (w + i) (x * 2 ^ k) (omega arith))

pub shl_lt : (w k x : ℕ) → shl w x k < 2 ^ w
shl_lt w k x = mod-lt (x * 2 ^ k) (pow_pos w)

eq_of_differ : (x y : ℕ) → differ x y ≡ 0 → x ≡ y
eq_of_differ zero y h = sym h
eq_of_differ (suc x) zero h = h
eq_of_differ (suc x) (suc y) h = ap suc (eq_of_differ x y h)

pub eq_of_xor : (a b : ℕ) → bit_xor a b ≡ 0 → a ≡ b
eq_of_xor a b h =
    bits_eq a b
      (λ i. eq_of_differ (bit i a) (bit i b) (sym (bit-xor i a b) ∙ ap (bit i) h ∙ bit-zero i))

pub zero_of_rotl : (w k x : ℕ) → k ≤ w → x < 2 ^ w → rotl w x k ≡ 0 → x ≡ 0
zero_of_rotl w k x h p e = bits_eq x 0 (λ i. elim (dec_lt i w) [
  | no l ↦ bit_above w i x p (omega (arith, l)) ∙ sym (bit-zero i)
  | yes l ↦ elim (dec_lt (i + k) w) [
    | yes m ↦
        let back : i + k - k ≡ i = omega arith in
        ap (λ n. bit n x) (sym back)
        ∙ sym (bit-shl w k (i + k) x (omega arith) m)
        ∙ sym (bit-rotl_high w k (i + k) x h p (omega arith))
        ∙ ap (bit (i + k)) e
        ∙ bit-zero (i + k)
        ∙ sym (bit-zero i)
    | no m ↦
        let j = i + k - w in
        let back : i ≡ w - k + j = omega (arith, m, h, l) in
        ap (λ n. bit n x) back
        ∙ sym (bit-rotl_low w k j x h (omega (arith, m, l)))
        ∙ ap (bit j) e
        ∙ bit-zero j
        ∙ sym (bit-zero i)
  ]
])

shl_fixed_bits : (w k x n i : ℕ) → 0 < k → x ≡ shl w x k → i < n → i < w → bit i x ≡ 0
shl_fixed_bits w k x zero i h e l m = absurd (omega (arith, l))
shl_fixed_bits w k x (suc n) i h e l m = elim (dec_lt i k) [
  | yes low ↦ ap (bit i) e ∙ bit-shl_below w k i x low m
  | no high ↦
      ap (bit i) e
      ∙ bit-shl w k i x (omega (arith, high)) m
      ∙ shl_fixed_bits w k x n (i - k) h e (omega (arith, l, high, h)) (omega (arith, m))
]

-- A word that a shift leaves as it is has no bit.
pub shl_fixed : (w k x : ℕ) → 0 < k → x ≡ shl w x k → x < 2 ^ w → x ≡ 0
shl_fixed w k x h e p = bits_eq x 0 (λ i. elim (dec_lt i w) [
  | yes l ↦ shl_fixed_bits w k x w i h e l l ∙ sym (bit-zero i)
  | no l ↦ bit_above w i x p (omega (arith, l)) ∙ sym (bit-zero i)
])
