-- ===== src/Common/Words.antt =====
-- Shifts of words of `w` bits, bit by bit.
use Prim.Native.Nat.{ℕ, zero, suc, ◌+◌, ◌*◌, ◌/◌, ◌%◌, ◌^◌, ◌≤◌, ◌<◌}
use mathlib.Core.Path.{◌≡◌, sym, ap, ◌∙◌}
use native.Mathlib.Nat.{
  mul-zero, pow-succ', div-div-eq-div-mul, mul_left_comm, div-one, div-add-mod, mod-lt,
  mod-eq_of_lt,
}
use native.Mathlib.Omega.{arith}
use parallel_load_balancing.Common.Bits.{halve, pow_pos}
use parallel_load_balancing.Common.Xor.{bit, bit-zero, bits_eq}

-- `x << k` and `x >> k` of a word of `w` bits.
abbrev pub shl : ℕ → ℕ → ℕ → ℕ
shl w x k = x * 2 ^ k % 2 ^ w

abbrev pub shr : ℕ → ℕ → ℕ
shr x k = x / 2 ^ k

pub bit-div : (k i x : ℕ) → bit i (x / 2 ^ k) ≡ bit (k + i) x
bit-div zero i x =
    let same : i ≡ 0 + i = omega arith in ap (bit i) (div-one x) ∙ ap (λ n. bit n x) same
bit-div (suc k) i x =
    let halved : x / 2 ^ suc k ≡ x / 2 / 2 ^ k =
      ap (λ n. x / n) (pow-succ' 2 k) ∙ sym (div-div-eq-div-mul x 2 (2 ^ k)) in
    let next : suc k + i ≡ suc (k + i) = omega arith in
    ap (bit i) halved ∙ bit-div k i (x / 2) ∙ ap (λ n. bit n x) (sym next)

doubled : (x k : ℕ) → x * 2 ^ suc k ≡ 2 * (x * 2 ^ k)
doubled x k = ap (λ n. x * n) (pow-succ' 2 k) ∙ mul_left_comm x 2 (2 ^ k)

pub bit-mul : (k i x : ℕ) → bit (k + i) (x * 2 ^ k) ≡ bit i x
bit-mul zero i x =
    let same : 0 + i ≡ i = omega arith in
    let once : x * 2 ^ 0 ≡ x = omega arith in ap (λ n. bit n (x * 2 ^ 0)) same ∙ ap (bit i) once
bit-mul (suc k) i x =
    let next : suc k + i ≡ suc (k + i) = omega arith in
    let half : x * 2 ^ suc k / 2 ≡ x * 2 ^ k = omega (arith, doubled x k) in
    ap (λ n. bit n (x * 2 ^ suc k)) next ∙ ap (bit (k + i)) half ∙ bit-mul k i x

pub bit-mul_below : (k i x : ℕ) → i < k → bit i (x * 2 ^ k) ≡ 0
bit-mul_below zero i x h = absurd (omega (arith, h))
bit-mul_below (suc k) zero x h = omega (arith, doubled x k)
bit-mul_below (suc k) (suc i) x h =
    let half : x * 2 ^ suc k / 2 ≡ x * 2 ^ k = omega (arith, doubled x k) in
    ap (bit i) half ∙ bit-mul_below k i x (omega (arith, h))

mod_parts : (w x : ℕ) → (x % 2 ^ suc w / 2 ≡ x / 2 % 2 ^ w) × (x % 2 ^ suc w % 2 ≡ x % 2)
mod_parts w x =
    let e = halve x (2 ^ w) (pow_pos w) in
    let m : x % 2 ^ suc w ≡ x % (2 * 2 ^ w) = ap (λ n. x % n) (pow-succ' 2 w) in
    (omega (arith, e, m), omega (arith, e, m))

pub bit-mod : (w i x : ℕ) → i < w → bit i (x % 2 ^ w) ≡ bit i x
bit-mod zero i x h = absurd (omega (arith, h))
bit-mod (suc w) zero x h = (mod_parts w x).1
bit-mod (suc w) (suc i) x h = ap (bit i) (mod_parts w x).0 ∙ bit-mod w i (x / 2) (omega (arith, h))

pub bit-mod_above : (w i x : ℕ) → w ≤ i → bit i (x % 2 ^ w) ≡ 0
bit-mod_above zero i x h =
    let nothing : x % 2 ^ 0 ≡ 0 = omega arith in ap (bit i) nothing ∙ bit-zero i
bit-mod_above (suc w) zero x h = absurd (omega (arith, h))
bit-mod_above (suc w) (suc i) x h =
    ap (bit i) (mod_parts w x).0 ∙ bit-mod_above w i (x / 2) (omega (arith, h))

pub bit_above : (w i x : ℕ) → x < 2 ^ w → w ≤ i → bit i x ≡ 0
bit_above w i x l h = ap (bit i) (sym (mod-eq_of_lt l)) ∙ bit-mod_above w i x h

-- A number without bits from `w` on is a word.
pub lt_of_bits : (w x : ℕ) → ((i : ℕ) → bit (w + i) x ≡ 0) → x < 2 ^ w
lt_of_bits w x h =
    let none_above : x / 2 ^ w ≡ 0 =
      bits_eq (x / 2 ^ w) 0 (λ i. bit-div w i x ∙ h i ∙ sym (bit-zero i)) in
    let whole : x % 2 ^ w + 2 ^ w * (x / 2 ^ w) ≡ x = omega (arith, div-add-mod x (2 ^ w)) in
    let gone : 2 ^ w * (x / 2 ^ w) ≡ 0 = ap (λ n. 2 ^ w * n) none_above ∙ mul-zero (2 ^ w) in
    omega (arith, whole, gone, mod-lt x (pow_pos w))
