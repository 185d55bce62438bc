-- ===== src/Random/Powers.antt =====
-- The jumps of the generator are the powers of its step that the source says.
use Prim.Native.Nat.{bit_xor}
use native.Mathlib.Nat.{pow-succ'}
use parallel_load_balancing.Common.{
  ℕ, zero, suc, ◌+◌, ◌-◌, ◌*◌, ◌/◌, ◌%◌, ◌^◌, ◌<◌, ◌≤◌, ◌≡◌, refl, sym, ap, ap₂, ◌∙◌, List, [], ◌∷◌,
  arith, if◌then◌else◌, ltb, dec_lt,
}
use parallel_load_balancing.Common.Xor.{xor_top}
use parallel_load_balancing.Common.Rotations.{xor_lt}
use parallel_load_balancing.Random.{Xoshiro, advance, xor_state, zeros, jump_impl, jump, long_jump}
use parallel_load_balancing.Random.Jump.{
  IsState, advance_by, advance_by-add, advance_by-one, advance_by-IsState, advance-IsState,
}
use parallel_load_balancing.Random.Polynomials.{
  zeros-xor_state, act, act-xor, act-advance, act-zero, act_more, act-double, act-bit, act-one,
}
use parallel_load_balancing.Random.Loop.{size, joined, AreWords, act-jump_array}
use parallel_load_balancing.Random.Minimal.{minimal_low, act-leading}

-- Products of polynomials of degree below 256, reduced.
times_x : ℕ → ℕ
times_x r = if ltb (2 * r) (2 ^ 256) then 2 * r else bit_xor (2 * r - 2 ^ 256) minimal_low

times : (n p q : ℕ) → ℕ
times zero p q = 0
times (suc n) p q = bit_xor (p % 2 * q) (times_x (times n (p / 2) q))

-- The power of the step to 2 ^ k.
power : ℕ → ℕ
power zero = 2
power (suc k) = let c = power k in times 256 c c

times_x_lt : (r : ℕ) → r < 2 ^ 256 → times_x r < 2 ^ 256
unfolding times_x
times_x_lt r l = elim (dec_lt (2 * r) (2 ^ 256)) [
  | yes q ↦ ground (arith, q)
  | no q ↦
      let b = xor_lt 256 (2 * r - 2 ^ 256) minimal_low (omega (arith, l)) (omega arith) in
      ground (arith, q, b)
]

-- Twice a polynomial, whose leading coefficient is split off.
act_reduced :
    (d : ℕ) (m : Xoshiro)
    → IsState m
    → 2 ^ 256 ≤ d
    → d < 2 ^ 257
    → act 256 (bit_xor (d - 2 ^ 256) minimal_low) m ≡ act 257 d m
act_reduced d m v h l =
    let rest = d - 2 ^ 256 in
    let small : rest < 2 ^ 256 = omega (arith, l) in
    let whole : rest + 2 ^ 256 ≡ d = omega (arith, h) in
    act-xor 256 rest minimal_low m
    ∙ ap₂ xor_state (sym (act_more 256 rest m small))
        (sym (act_more 256 minimal_low m (omega arith)) ∙ sym (act-leading m v))
    ∙ sym (act-xor 257 rest (2 ^ 256) m)
    ∙ ap (λ p. act 257 p m) (xor_top 256 rest small ∙ whole)

act-times_x :
    (r : ℕ) (m : Xoshiro) → IsState m → r < 2 ^ 256 → act 256 (times_x r) m ≡ act 256 r (advance m)
unfolding times_x
act-times_x r m v l = elim (dec_lt (2 * r) (2 ^ 256)) [
  | yes q ↦
      let low : times_x r ≡ 2 * r = ground (arith, q) in
      ap (λ p. act 256 p m) low ∙ sym (act_more 256 (2 * r) m q) ∙ act-double 256 r m
  | no q ↦
      let high : times_x r ≡ bit_xor (2 * r - 2 ^ 256) minimal_low = ground (arith, q) in
      ap (λ p. act 256 p m) high
      ∙ act_reduced (2 * r) m v (omega (arith, q)) (omega (arith, l))
      ∙ act-double 256 r m
]

bit-times : (b q : ℕ) → b < 2 → q < 2 ^ 256 → b * q < 2 ^ 256
bit-times zero q k l = let none_left : 0 * q ≡ 0 = omega arith in omega (arith, none_left)
bit-times (suc zero) q k l = let one : 1 * q ≡ q = omega arith in omega (arith, one, l)
bit-times (suc (suc b)) q k l = absurd (omega (arith, k))

times_lt : (n p q : ℕ) → q < 2 ^ 256 → times n p q < 2 ^ 256
unfolding times
times_lt zero p q l = omega arith
times_lt (suc n) p q l =
    xor_lt 256 _ _ (bit-times (p % 2) q (omega arith) l) (times_x_lt _ (times_lt n (p / 2) q l))

act-times :
    (n p q : ℕ) (m : Xoshiro)
    → IsState m
    → q < 2 ^ 256
    → act 256 (times n p q) m ≡ act n p (act 256 q m)
unfolding times act
act-times zero p q m v l = act-zero 256 m
act-times (suc n) p q m v l =
    act-xor 256 (p % 2 * q) (times_x (times n (p / 2) q)) m
    ∙ ap₂ xor_state (act-bit 256 (p % 2) q m (omega arith)) (
        act-times_x _ m v (times_lt n (p / 2) q l)
        ∙ act-times n (p / 2) q (advance m) (advance-IsState m v) l
        ∙ ap (act n (p / 2)) (act-advance 256 q m v))

power_lt : (k : ℕ) → power k < 2 ^ 256
unfolding power
power_lt zero = omega arith
power_lt (suc k) = times_lt 256 (power k) (power k) (power_lt k)

-- Squaring doubles the number of steps.
act-power : (k : ℕ) (m : Xoshiro) → IsState m → act 256 (power k) m ≡ advance_by (2 ^ k) m
unfolding power
act-power zero m v = act-one 254 m ∙ sym (advance_by-one m)
act-power (suc k) m v =
    let double : 2 ^ k + 2 ^ k ≡ 2 ^ suc k = omega (arith, pow-succ' 2 k) in
    act-times 256 (power k) (power k) m v (power_lt k)
    ∙ ap (act 256 (power k)) (act-power k m v)
    ∙ act-power k (advance_by (2 ^ k) m) (advance_by-IsState (2 ^ k) m v)
    ∙ advance_by-add (2 ^ k) (2 ^ k) m
    ∙ ap (λ n. advance_by n m) double

abbrev jump_words : List ℕ
jump_words = 0x180ec6d33cfd0aba ∷ 0xd5a61266f0c9392c ∷ 0xa9582618e03fc9aa ∷ 0x39abdc4529b1661c ∷ []

abbrev long_jump_words : List ℕ
long_jump_words =
    0x76e15d3efefdcbbf ∷ 0xc5004e441c522fb3 ∷ 0x77710069854ee241 ∷ 0x39109bb02acbe635 ∷ []

jump_words-power : joined jump_words ≡ power 128
unfolding power times times_x
jump_words-power = refl

long_jump_words-power : joined long_jump_words ≡ power 192
unfolding power times times_x
long_jump_words-power = refl

jump_impl-advance_by :
    (jumps : List ℕ) (k : ℕ) (m : Xoshiro)
    → IsState m
    → AreWords jumps
    → size jumps ≡ 256
    → joined jumps ≡ power k
    → jump_impl jumps m ≡ advance_by (2 ^ k) m
unfolding jump_impl
jump_impl-advance_by jumps k m v w h e =
    act-jump_array jumps zeros m w
    ∙ zeros-xor_state (act (size jumps) (joined jumps) m)
    ∙ ap₂ (λ n p. act n p m) h e
    ∙ act-power k m v

-- From words of 64 bits, `jump` leaves the state that 2 ^ 128 steps of the generator would leave, and
-- `long_jump` the one that 2 ^ 192 steps would.
pub jumps-advance_by :
    (m : Xoshiro)
    → IsState m
    → (jump m ≡ advance_by (2 ^ 128) m) × (long_jump m ≡ advance_by (2 ^ 192) m)
unfolding jump long_jump
jumps-advance_by m v = (
  jump_impl-advance_by jump_words 128 m v (omega arith) refl jump_words-power,
  jump_impl-advance_by long_jump_words 192 m v (omega arith) refl long_jump_words-power,
)
