-- ===== src/Random/Polynomials.antt =====
-- Polynomials in the step of the generator, over the field of two elements: the bits of a number are
-- the coefficients.
use Prim.Native.Nat.{bit_xor, differ}
use parallel_load_balancing.Common.{
  ℕ, zero, suc, ◌+◌, ◌*◌, ◌/◌, ◌%◌, ◌^◌, ◌<◌, ◌≡◌, refl, sym, ap, ap₂, ◌∙◌, arith,
}
use native.Mathlib.Nat.{pow-succ', mul_assoc}
use parallel_load_balancing.Common.Xor.{zero-xor, xor-zero, xor_self, xor_half, bit-xor}
use parallel_load_balancing.Common.Rotations.{xor_interchange}
use parallel_load_balancing.Random.{Xoshiro, advance, xor_state, zeros}
use parallel_load_balancing.Random.Jump.{
  IsState, advance_by, xor_state-IsState, advance-IsState, state_eq, advance-xor_state,
  advance-zeros, zeros-IsState,
}

pub xor_state_interchange :
    (a b c d : Xoshiro)
    → xor_state (xor_state a b) (xor_state c d) ≡ xor_state (xor_state a c) (xor_state b d)
xor_state_interchange a b c d =
    state_eq (xor_interchange a.s0 b.s0 c.s0 d.s0) (xor_interchange a.s1 b.s1 c.s1 d.s1)
      (xor_interchange a.s2 b.s2 c.s2 d.s2) (xor_interchange a.s3 b.s3 c.s3 d.s3)

pub zeros-xor_state : (m : Xoshiro) → xor_state zeros m ≡ m
zeros-xor_state m = state_eq (zero-xor m.s0) (zero-xor m.s1) (zero-xor m.s2) (zero-xor m.s3)

pub xor_state-zeros : (m : Xoshiro) → xor_state m zeros ≡ m
xor_state-zeros m = state_eq (xor-zero m.s0) (xor-zero m.s1) (xor-zero m.s2) (xor-zero m.s3)

pub xor_state_assoc : (a b c : Xoshiro) → xor_state (xor_state a b) c ≡ xor_state a (xor_state b c)
xor_state_assoc a b c =
    ap (xor_state (xor_state a b)) (sym (zeros-xor_state c))
    ∙ xor_state_interchange a b zeros c
    ∙ ap (λ s. xor_state s (xor_state b c)) (xor_state-zeros a)

pub xor_state_self : (m : Xoshiro) → xor_state m m ≡ zeros
xor_state_self m = state_eq (xor_self m.s0) (xor_self m.s1) (xor_self m.s2) (xor_self m.s3)

-- A coefficient times a state.
abbrev pub pick : ℕ → Xoshiro → Xoshiro
pick zero m = zeros
pick (suc b) m = m

-- The sum of the states that the polynomial `p` stands for, of its lowest `n` coefficients.
unfoldable pub act : (n p : ℕ) → Xoshiro → Xoshiro
act zero p m = zeros
act (suc n) p m = xor_state (pick (p % 2) m) (act n (p / 2) (advance m))

pick-IsState : (b : ℕ) (m : Xoshiro) → IsState m → IsState (pick b m)
pick-IsState zero m v = zeros-IsState
pick-IsState (suc b) m v = v

pub act-IsState : (n p : ℕ) (m : Xoshiro) → IsState m → IsState (act n p m)
unfolding act
act-IsState zero p m v = zeros-IsState
act-IsState (suc n) p m v =
    xor_state-IsState _ _ (pick-IsState (p % 2) m v)
      (act-IsState n (p / 2) (advance m) (advance-IsState m v))

pick-differ :
    (a b : ℕ) (m : Xoshiro) → a < 2 → b < 2 → pick (differ a b) m ≡ xor_state (pick a m) (pick b m)
pick-differ zero b m l k = sym (zeros-xor_state (pick b m))
pick-differ (suc a) zero m l k = sym (xor_state-zeros m)
pick-differ (suc zero) (suc zero) m l k = sym (xor_state_self m)
pick-differ (suc (suc a)) b m l k = absurd (omega (arith, l))
pick-differ a (suc (suc b)) m l k = absurd (omega (arith, k))

pub act-xor : (n p q : ℕ) (m : Xoshiro) → act n (bit_xor p q) m ≡ xor_state (act n p m) (act n q m)
unfolding act
act-xor zero p q m = refl
act-xor (suc n) p q m =
    ap₂ xor_state
      (ap (λ b. pick b m) (bit-xor 0 p q)
        ∙ pick-differ (p % 2) (q % 2) m (omega arith) (omega arith))
      (ap (λ h. act n h (advance m)) (xor_half p q) ∙ act-xor n (p / 2) (q / 2) (advance m))
    ∙ xor_state_interchange (pick (p % 2) m) (pick (q % 2) m) (act n (p / 2) (advance m))
        (act n (q / 2) (advance m))

pick-xor_state : (b : ℕ) (s t : Xoshiro) → pick b (xor_state s t) ≡ xor_state (pick b s) (pick b t)
pick-xor_state zero s t = refl
pick-xor_state (suc b) s t = refl

pub act-xor_state :
    (n p : ℕ) (s t : Xoshiro)
    → IsState s
    → IsState t
    → act n p (xor_state s t) ≡ xor_state (act n p s) (act n p t)
unfolding act
act-xor_state zero p s t v u = refl
act-xor_state (suc n) p s t v u =
    ap₂ xor_state (pick-xor_state (p % 2) s t) (
      ap (act n (p / 2)) (advance-xor_state s t v u)
      ∙ act-xor_state n (p / 2) (advance s) (advance t) (advance-IsState s v) (advance-IsState t u))
    ∙ xor_state_interchange (pick (p % 2) s) (pick (p % 2) t) (act n (p / 2) (advance s))
        (act n (p / 2) (advance t))

pick-advance : (b : ℕ) (m : Xoshiro) → pick b (advance m) ≡ advance (pick b m)
pick-advance zero m = sym advance-zeros
pick-advance (suc b) m = refl

pub act-advance : (n p : ℕ) (m : Xoshiro) → IsState m → act n p (advance m) ≡ advance (act n p m)
unfolding act
act-advance zero p m v = sym advance-zeros
act-advance (suc n) p m v =
    let u = advance-IsState m v in
    ap₂ xor_state (pick-advance (p % 2) m) (act-advance n (p / 2) (advance m) u)
    ∙ sym (
        advance-xor_state (pick (p % 2) m) (act n (p / 2) (advance m)) (pick-IsState (p % 2) m v)
          (act-IsState n (p / 2) (advance m) u))

pub act-zero : (n : ℕ) (m : Xoshiro) → act n 0 m ≡ zeros
unfolding act
act-zero zero m = refl
act-zero (suc n) m = zeros-xor_state (act n 0 (advance m)) ∙ act-zero n (advance m)

pick-zeros : (b : ℕ) → pick b zeros ≡ zeros
pick-zeros zero = refl
pick-zeros (suc b) = refl

pub act-zeros : (n p : ℕ) → act n p zeros ≡ zeros
unfolding act
act-zeros zero p = refl
act-zeros (suc n) p =
    ap₂ xor_state (pick-zeros (p % 2)) (ap (act n (p / 2)) advance-zeros ∙ act-zeros n (p / 2))

-- Coefficients above the polynomial.
pub act_more : (n p : ℕ) (m : Xoshiro) → p < 2 ^ n → act (suc n) p m ≡ act n p m
unfolding act
act_more zero zero m l = refl
act_more zero (suc p) m l = absurd (omega (arith, l))
act_more (suc n) p m l =
    ap (xor_state (pick (p % 2) m))
      (act_more n (p / 2) (advance m) (omega (arith, l, pow-succ' 2 n)))

pub act-double : (n r : ℕ) (m : Xoshiro) → act (suc n) (2 * r) m ≡ act n r (advance m)
unfolding act
act-double n r m =
    let even : 2 * r % 2 ≡ 0 = omega arith in
    let half : 2 * r / 2 ≡ r = omega arith in
    ap₂ (λ b h. xor_state (pick b m) (act n h (advance m))) even half
    ∙ zeros-xor_state (act n r (advance m))

pub act-bit : (n b q : ℕ) (m : Xoshiro) → b < 2 → act n (b * q) m ≡ pick b (act n q m)
act-bit n zero q m l =
    let none_left : 0 * q ≡ 0 = omega arith in ap (λ x. act n x m) none_left ∙ act-zero n m
act-bit n (suc zero) q m l = let one : 1 * q ≡ q = omega arith in ap (λ x. act n x m) one
act-bit n (suc (suc b)) q m l = absurd (omega (arith, l))

pub act-one : (n : ℕ) (m : Xoshiro) → act (suc (suc n)) 2 m ≡ advance m
unfolding act
act-one n m =
    zeros-xor_state _
    ∙ ap (xor_state (advance m)) (act-zero n (advance (advance m)))
    ∙ xor_state-zeros (advance m)

-- A polynomial in two parts.
pub act_join :
    (w n low high : ℕ) (m : Xoshiro)
    → low < 2 ^ w
    → act (w + n) (low + 2 ^ w * high) m ≡ xor_state (act w low m) (act n high (advance_by w m))
unfolding act advance_by
act_join zero n zero high m l =
    let same : 0 + 2 ^ 0 * high ≡ high = omega arith in
    let size : 0 + n ≡ n = omega arith in
    ap₂ (λ k p. act k p m) size same ∙ sym (zeros-xor_state (act n high m))
act_join zero n (suc low) high m l = absurd (omega (arith, l))
act_join (suc w) n low high m l =
    let twice = pow-succ' 2 w in
    let product : 2 ^ suc w * high ≡ 2 * (2 ^ w * high) =
      ap (λ x. x * high) twice ∙ mul_assoc 2 (2 ^ w) high in
    let size : suc w + n ≡ suc (w + n) = omega arith in
    let even : (low + 2 ^ suc w * high) % 2 ≡ low % 2 = omega (arith, product) in
    let half : (low + 2 ^ suc w * high) / 2 ≡ low / 2 + 2 ^ w * high = omega (arith, product) in
    ap (λ k. act k (low + 2 ^ suc w * high) m) size
    ∙ ap₂ (λ b h. xor_state (pick b m) (act (w + n) h (advance m))) even half
    ∙ ap (xor_state (pick (low % 2) m))
        (act_join w n (low / 2) high (advance m) (omega (arith, l, twice)))
    ∙ sym (
        xor_state_assoc (pick (low % 2) m) (act w (low / 2) (advance m))
          (act n high (advance_by w (advance m))))
