-- ===== src/Random/Loop.antt =====
-- The loops of `jump_impl` evaluate the polynomial whose coefficients are the bits of the array.
use native.Mathlib.Nat.{pow-succ', div-div-eq-div-mul, mul_comm, div-one}
use parallel_load_balancing.Common.{
  ℕ, zero, suc, ◌+◌, ◌*◌, ◌/◌, ◌%◌, ◌^◌, ◌<◌, ◌≤◌, ◌≡◌, sym, ap, ◌∙◌, List, [], ◌∷◌, arith,
  if◌then◌else◌, ◌==◌,
}
use parallel_load_balancing.Common.Bits.{bit_and_one, pow_pos}
use parallel_load_balancing.Random.{Xoshiro, advance, xor_state, jump_bits, jump_array, jump}
use parallel_load_balancing.Random.Jump.{advance_by}
use parallel_load_balancing.Random.Polynomials.{
  xor_state-zeros, xor_state_assoc, pick, act, act_join,
}

if_positive : (n : ℕ) (s t : Xoshiro) → 1 ≤ n → (if n == 0 then s else t) ≡ t
if_positive n s t l = ground (arith, l)

-- One step of the loop of `jump_impl`.
pick-test :
    (b w : ℕ) (s m : Xoshiro)
    → b < 2
    → (if b * 2 ^ w == 0 then s else xor_state s m) ≡ xor_state s (pick b m)
pick-test zero w s m l =
    let none_left : 0 * 2 ^ w ≡ 0 = omega arith in rw none_left (sym (xor_state-zeros s))
pick-test (suc zero) w s m l =
    let some_left : 1 ≤ 1 * 2 ^ w = omega (arith, pow_pos w) in
    if_positive (1 * 2 ^ w) s (xor_state s m) some_left
pick-test (suc (suc b)) w s m l = absurd (omega (arith, l))

act-jump_bits :
    (jump bit left : ℕ) (s m : Xoshiro)
    → jump_bits jump bit left (s, m)
      ≡ (xor_state s (act left (jump / 2 ^ bit) m), advance_by left m)
unfolding jump_bits act advance_by
act-jump_bits jump bit zero s m = ap (λ r. (r, m)) (sym (xor_state-zeros s))
act-jump_bits jump bit (suc left) s m =
    let b = jump / 2 ^ bit % 2 in
    let half : jump / 2 ^ suc bit ≡ jump / 2 ^ bit / 2 =
      ap (λ n. jump / n) (pow-succ' 2 bit ∙ mul_comm 2 (2 ^ bit))
      ∙ sym (div-div-eq-div-mul jump (2 ^ bit) 2) in
    let test =
      ap (λ n. if n == 0 then s else xor_state s m) (bit_and_one bit jump)
      ∙ pick-test b bit s m (omega arith) in
    ap (λ r. jump_bits jump (suc bit) left (r, advance m)) test
    ∙ act-jump_bits jump (suc bit) left (xor_state s (pick b m)) (advance m)
    ∙ ap (λ r. (r, advance_by left (advance m)))
        (ap (λ h. xor_state (xor_state s (pick b m)) (act left h (advance m))) half
          ∙ xor_state_assoc s (pick b m) (act left (jump / 2 ^ bit / 2) (advance m)))

-- The polynomial of an array, and how many coefficients it has.
abbrev pub joined : List ℕ → ℕ
joined [] = 0
joined (jump ∷ jumps) = jump + 2 ^ 64 * joined jumps

abbrev pub size : List ℕ → ℕ
size [] = 0
size (jump ∷ jumps) = 64 + size jumps

abbrev pub AreWords : List ℕ → Type 0
AreWords [] = Unit
AreWords (jump ∷ jumps) = (jump < 2 ^ 64) × AreWords jumps

pub act-jump_array :
    (jumps : List ℕ) (s m : Xoshiro)
    → AreWords jumps
    → (jump_array jumps (s, m)).0 ≡ xor_state s (act (size jumps) (joined jumps) m)
unfolding jump_array act
act-jump_array [] s m w = sym (xor_state-zeros s)
act-jump_array (jump ∷ jumps) s m (l, w) =
    ap (λ p. (jump_array jumps p).0)
      (act-jump_bits jump 0 64 s m
        ∙ ap (λ j. (xor_state s (act 64 j m), advance_by 64 m)) (div-one jump))
    ∙ act-jump_array jumps (xor_state s (act 64 jump m)) (advance_by 64 m) w
    ∙ xor_state_assoc s (act 64 jump m) (act (size jumps) (joined jumps) (advance_by 64 m))
    ∙ ap (xor_state s) (sym (act_join 64 (size jumps) jump (joined jumps) m l))
