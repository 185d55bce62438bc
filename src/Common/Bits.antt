-- ===== src/Common/Bits.antt =====
-- An index masked by `capacity - 1` is the remainder by the capacity, a power of two.
use Prim.Native.Nat.{
  ℕ, zero, suc, ◌+◌, ◌-◌, ◌*◌, ◌/◌, ◌%◌, ◌^◌, ◌≤◌, ◌<◌, min, bit_and, digits, bit_and-bitwise,
}
use mathlib.Core.Path.{◌≡◌, refl, sym, ap, ◌∙◌}
use native.Mathlib.Nat.{
  pow-succ', div-add-mod, mod-lt, mod-eq_of_lt, add-mul-mod_self_left, mul_left_comm, zero-div,
  zero-mul, div-one, div-div-eq-div-mul,
}
use native.Mathlib.Omega.{arith}

pub pow_pos : (bits : ℕ) → 1 ≤ 2 ^ bits
pow_pos zero = omega arith
pow_pos (suc bits) = omega (arith, pow-succ' 2 bits, pow_pos bits)

-- The remainder of a number in the form quotient and remainder.
remainder : (d q r : ℕ) → r < d → (r + d * q) % d ≡ r
remainder d q r small = add-mul-mod_self_left r d q ∙ mod-eq_of_lt small

-- Halving the number and the divisor leaves all but the last bit of the remainder.
pub halve : (index cap : ℕ) → 1 ≤ cap → index / 2 % cap * 2 + index % 2 ≡ index % (2 * cap)
halve index cap p =
    let rest = index / 2 % cap in
    let high = index / 2 / cap in
    let here : rest < cap = mod-lt (index / 2) p in
    let parts : rest + cap * high ≡ index / 2 = omega (arith, div-add-mod (index / 2) cap) in
    let whole : rest * 2 + index % 2 + 2 * cap * high ≡ index = omega (arith, parts) in
    sym (remainder (2 * cap) high (rest * 2 + index % 2) (omega (arith, here)))
    ∙ ap (λ n. n % (2 * cap)) whole

-- The digits of an index below a mask of `bits` ones, with `fuel` digits to go.
digits_mask :
    (fuel bits index : ℕ)
    → index ≤ fuel
    → digits (λ b. zero) min fuel index (2 ^ bits - 1) ≡ index % 2 ^ bits
digits_mask zero bits zero le = sym (mod-eq_of_lt (pow_pos bits))
digits_mask zero bits (suc index) le = absurd (omega arith)
digits_mask (suc fuel) bits zero le = sym (mod-eq_of_lt (pow_pos bits))
digits_mask (suc fuel) zero (suc index) le =
    omega (arith, digits_mask fuel zero (suc index / 2) (omega arith))
digits_mask (suc fuel) (suc bits) (suc index) le =
    let p = pow_pos bits in
    let twice = pow-succ' 2 bits in
    let half : (2 ^ suc bits - 1) / 2 ≡ 2 ^ bits - 1 = omega (arith, p, twice) in
    let odd : (2 ^ suc bits - 1) % 2 ≡ 1 = omega (arith, p, twice) in
    rw (half, odd, digits_mask fuel bits (suc index / 2) (omega arith), twice)
      (omega (arith, halve (suc index) (2 ^ bits) p))

pub bit_and_mask : (bits index : ℕ) → bit_and index (2 ^ bits - 1) ≡ index % 2 ^ bits
bit_and_mask bits index =
    (λ i. bit_and-bitwise index (2 ^ bits - 1) i) ∙ digits_mask index bits index (omega arith)

high_double : (w bits : ℕ) → w * 2 ^ suc bits ≡ 2 * (w * 2 ^ bits)
high_double w bits = rw (pow-succ' 2 bits) (mul_left_comm w 2 (2 ^ bits))

-- The digits of an index below a mask of `width` ones over `bits` zeros.
digits_high :
    (fuel bits width index mask : ℕ)
    → index ≤ fuel
    → mask ≡ (2 ^ width - 1) * 2 ^ bits
    → digits (λ b. zero) min fuel index mask ≡ index / 2 ^ bits % 2 ^ width * 2 ^ bits
digits_high fuel zero width index mask le e =
    let e' : mask ≡ 2 ^ width - 1 = omega (arith, e) in
    let one : 2 ^ 0 ≡ 1 = refl in
    rw (e', one, div-one index) (omega (arith, digits_mask fuel width index le))
digits_high zero (suc bits) width zero mask le e =
    rw (zero-div (2 ^ suc bits), mod-eq_of_lt (pow_pos width), zero-mul (2 ^ suc bits)) refl
digits_high zero (suc bits) width (suc index) mask le e = absurd (omega arith)
digits_high (suc fuel) (suc bits) width zero mask le e =
    rw (zero-div (2 ^ suc bits), mod-eq_of_lt (pow_pos width), zero-mul (2 ^ suc bits)) refl
digits_high (suc fuel) (suc bits) width (suc index) mask le e =
    let twice = high_double (2 ^ width - 1) bits in
    let ih =
      digits_high fuel bits width (suc index / 2) (mask / 2) (omega arith)
        (omega (arith, e, twice)) in
    let quotient : suc index / 2 ^ suc bits ≡ suc index / 2 / 2 ^ bits =
      ap (λ n. suc index / n) (pow-succ' 2 bits)
      ∙ sym (div-div-eq-div-mul (suc index) 2 (2 ^ bits)) in
    rw (quotient, ih)
      (omega (arith, e, twice, high_double (suc index / 2 / 2 ^ bits % 2 ^ width) bits))

-- A mask that clears the low `bits` of a word of `width + bits` bits rounds down to a multiple.
pub bit_and_high :
    (bits width index mask : ℕ)
    → mask ≡ (2 ^ width - 1) * 2 ^ bits
    → index / 2 ^ bits < 2 ^ width
    → bit_and index mask ≡ index / 2 ^ bits * 2 ^ bits
bit_and_high bits width index mask e l =
    (λ i. bit_and-bitwise index mask i)
    ∙ digits_high index bits width index mask (omega arith) e
    ∙ ap (λ q. q * 2 ^ bits) (mod-eq_of_lt l)

-- A mask of one bit.
pub bit_and_one : (bits index : ℕ) → bit_and index (2 ^ bits) ≡ index / 2 ^ bits % 2 * 2 ^ bits
bit_and_one bits index =
    let mask : 2 ^ bits ≡ (2 ^ 1 - 1) * 2 ^ bits = omega arith in
    (λ i. bit_and-bitwise index (2 ^ bits) i)
    ∙ digits_high index bits 1 index (2 ^ bits) (omega arith) mask
