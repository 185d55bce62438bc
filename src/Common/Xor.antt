-- ===== src/Common/Xor.antt =====
-- Exclusive or, disjunction and shifts of words of `w` bits, bit by bit.
use Prim.Native.Nat.{
  ℕ, zero, suc, ◌+◌, ◌-◌, ◌*◌, ◌/◌, ◌%◌, ◌^◌, ◌≤◌, ◌<◌, max, bit_or, bit_xor, digits, differ,
  bit_or-bitwise, bit_xor-bitwise,
}
use mathlib.Core.Path.{◌≡◌, refl, sym, ap, ap₂, ◌∙◌}
use native.Mathlib.Nat.{pow-succ'}
use native.Mathlib.Omega.{arith}

-- The bit at position `i`.
abbrev pub bit : ℕ → ℕ → ℕ
bit zero x = x % 2
bit (suc i) x = bit i (x / 2)

pub bit_lt : (i x : ℕ) → bit i x < 2
bit_lt zero x = omega arith
bit_lt (suc i) x = bit_lt i (x / 2)

pub bit-zero : (i : ℕ) → bit i 0 ≡ 0
bit-zero zero = refl
bit-zero (suc i) = bit-zero i

-- Numbers with the same bits are the same.
bits_eq_fuel : (n a b : ℕ) → a ≤ n → b ≤ n → ((i : ℕ) → bit i a ≡ bit i b) → a ≡ b
bits_eq_fuel zero a b p q h = omega (arith, p, q)
bits_eq_fuel (suc n) a b p q h =
    let low = h 0 in
    let high =
      bits_eq_fuel n (a / 2) (b / 2) (omega (arith, p)) (omega (arith, q)) (λ i. h (suc i)) in
    omega (arith, low, high)

pub bits_eq : (a b : ℕ) → ((i : ℕ) → bit i a ≡ bit i b) → a ≡ b
bits_eq a b h = bits_eq_fuel (a + b) a b (omega arith) (omega arith) h

-- Both operations from the digits that they are defined by.
differ_lt : (x y : ℕ) → x < 2 → y < 2 → differ x y < 2
differ_lt zero y p q = q
differ_lt (suc x) zero p q = p
differ_lt (suc x) (suc y) p q = differ_lt x y (omega (arith, p)) (omega (arith, q))

-- The operation on digits, with the second number where the first has run out.
abbrev by_digits : (ℕ → ℕ → ℕ) → ℕ → ℕ → ℕ → ℕ
by_digits f fuel a b = digits (λ b. b) f fuel a b

at_zero : (f : ℕ → ℕ → ℕ) (fuel b : ℕ) → by_digits f fuel 0 b ≡ b
at_zero f zero b = refl
at_zero f (suc fuel) b = refl

by_digits_enough :
    (f : ℕ → ℕ → ℕ) (fuel more a b : ℕ)
    → a ≤ fuel
    → by_digits f (fuel + more) a b ≡ by_digits f fuel a b
by_digits_enough f fuel more zero b p = at_zero f (fuel + more) b ∙ sym (at_zero f fuel b)
by_digits_enough f zero more (suc a) b p = absurd (omega (arith, p))
by_digits_enough f (suc fuel) more (suc a) b p =
    let next : suc fuel + more ≡ suc (fuel + more) = omega arith in
    ap (λ n. by_digits f n (suc a) b) next
    ∙ ap (λ r. r * 2 + f (suc a % 2) (b % 2))
        (by_digits_enough f fuel more (suc a / 2) (b / 2) (omega (arith, p)))

-- One digit of it.
by_digits_step :
    (f : ℕ → ℕ → ℕ) (a b : ℕ)
    → ((y : ℕ) → f 0 y ≡ y)
    → by_digits f a a b ≡ by_digits f (a / 2) (a / 2) (b / 2) * 2 + f (a % 2) (b % 2)
by_digits_step f zero b h = omega (arith, h (b % 2))
by_digits_step f (suc a) b h =
    let half = suc a / 2 in
    let rest : half + (a - half) ≡ a = omega arith in
    ap (λ r. r * 2 + f (suc a % 2) (b % 2))
      (ap (λ n. by_digits f n half (b / 2)) (sym rest)
        ∙ by_digits_enough f half (a - half) half (b / 2) (omega arith))

-- The operation `op` does `f` to the lowest digits.
abbrev pub OneDigit : (ℕ → ℕ → ℕ) → (ℕ → ℕ → ℕ) → Type 0
OneDigit op f = (a b : ℕ) → op a b ≡ op (a / 2) (b / 2) * 2 + f (a % 2) (b % 2)

pub xor_step : OneDigit bit_xor differ
xor_step a b =
    (λ i. bit_xor-bitwise a b i)
    ∙ by_digits_step differ a b (λ y. refl)
    ∙ ap (λ r. r * 2 + differ (a % 2) (b % 2)) (sym (λ i. bit_xor-bitwise (a / 2) (b / 2) i))

or_step : OneDigit bit_or max
or_step a b =
    (λ i. bit_or-bitwise a b i)
    ∙ by_digits_step max a b (λ y. omega arith)
    ∙ ap (λ r. r * 2 + max (a % 2) (b % 2)) (sym (λ i. bit_or-bitwise (a / 2) (b / 2) i))

pub differ-zero : (x : ℕ) → differ x 0 ≡ x
differ-zero zero = refl
differ-zero (suc x) = refl

pub bit-xor : (i a b : ℕ) → bit i (bit_xor a b) ≡ differ (bit i a) (bit i b)
bit-xor zero a b =
    omega (arith, xor_step a b, differ_lt (a % 2) (b % 2) (omega arith) (omega arith))
bit-xor (suc i) a b =
    let half : bit_xor a b / 2 ≡ bit_xor (a / 2) (b / 2) =
      omega (arith, xor_step a b, differ_lt (a % 2) (b % 2) (omega arith) (omega arith)) in
    ap (bit i) half ∙ bit-xor i (a / 2) (b / 2)

pub bit-or : (i a b : ℕ) → bit i (bit_or a b) ≡ max (bit i a) (bit i b)
bit-or zero a b = omega (arith, or_step a b)
bit-or (suc i) a b =
    let half : bit_or a b / 2 ≡ bit_or (a / 2) (b / 2) = omega (arith, or_step a b) in
    ap (bit i) half ∙ bit-or i (a / 2) (b / 2)

pub xor_half : (a b : ℕ) → bit_xor a b / 2 ≡ bit_xor (a / 2) (b / 2)
xor_half a b = omega (arith, xor_step a b, differ_lt (a % 2) (b % 2) (omega arith) (omega arith))

-- A bit above a number.
pub xor_top : (w x : ℕ) → x < 2 ^ w → bit_xor x (2 ^ w) ≡ x + 2 ^ w
xor_top zero zero l = refl
xor_top zero (suc x) l = absurd (omega (arith, l))
xor_top (suc w) x l =
    let twice = pow-succ' 2 w in
    let half : 2 ^ suc w / 2 ≡ 2 ^ w = omega (arith, twice) in
    let even : 2 ^ suc w % 2 ≡ 0 = omega (arith, twice) in
    let same : differ (x % 2) 0 ≡ x % 2 = differ-zero (x % 2) in
    let ih = xor_top w (x / 2) (omega (arith, l, twice)) in
    xor_step x (2 ^ suc w)
    ∙ ap₂ (λ h b. bit_xor (x / 2) h * 2 + differ (x % 2) b) half even
    ∙ omega (arith, ih, same, twice)

pub zero-xor : (x : ℕ) → bit_xor 0 x ≡ x
zero-xor x = bits_eq _ _ (λ i. bit-xor i 0 x ∙ ap (λ b. differ b (bit i x)) (bit-zero i))

pub xor-zero : (x : ℕ) → bit_xor x 0 ≡ x
xor-zero x =
    bits_eq _ _ (λ i. bit-xor i x 0 ∙ ap (differ (bit i x)) (bit-zero i) ∙ differ-zero (bit i x))

differ_self : (x : ℕ) → differ x x ≡ 0
differ_self zero = refl
differ_self (suc x) = differ_self x

pub xor_self : (x : ℕ) → bit_xor x x ≡ 0
xor_self x = bits_eq _ _ (λ i. bit-xor i x x ∙ differ_self (bit i x) ∙ sym (bit-zero i))
