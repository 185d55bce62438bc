-- ===== src/Random.antt =====
-- include/libfork/schedule/ext/random.hpp: `lf::ext::xoshiro`, the generator that the pools choose
-- victims and workers with, over words of 64 bits. Seeding from another generator is left out, since
-- its numbers are `std::uniform_int_distribution`'s.
mod Jump
mod Polynomials
mod Minimal
mod Loop
mod Powers
mod Tests
use Prim.Native.Nat.{bit_and, bit_xor}
use parallel_load_balancing.Common.{
  ℕ, zero, suc, ◌+◌, ◌-◌, ◌*◌, ◌%◌, ◌^◌, ◌≡◌, List, [], ◌∷◌, if◌then◌else◌, ◌==◌,
}
use parallel_load_balancing.Common.Words.{shl}
use parallel_load_balancing.Common.Rotations.{rotl}

-- `m_state`.
pub record Xoshiro : Type 0 where
  pub s0 : ℕ
  pub s1 : ℕ
  pub s2 : ℕ
  pub s3 : ℕ

-- The default seed.
abbrev pub default_seed : Xoshiro
default_seed = record {
  s0 = 0x8D0B73B52EA17D89;
  s1 = 0x2AA426A407C2B04F;
  s2 = 0xF513614E4798928A;
  s3 = 0xA65E479EC5B49D41;
}

-- The number that `operator()` returns, and the state that it leaves.
pub output : Xoshiro → ℕ
output s = rotl 64 (s.s1 * 5 % 2 ^ 64) 7 * 9 % 2 ^ 64

pub advance : Xoshiro → Xoshiro
advance s =
    let temp = shl 64 s.s1 17 in
    let s2 = bit_xor s.s2 s.s0 in
    let s3 = bit_xor s.s3 s.s1 in
    let s1 = bit_xor s.s1 s2 in
    let s0 = bit_xor s.s0 s3 in
    record { s0 = s0; s1 = s1; s2 = bit_xor s2 temp; s3 = rotl 64 s3 45 }

abbrev pub xor_state : Xoshiro → Xoshiro → Xoshiro
xor_state s t = record {
  s0 = bit_xor s.s0 t.s0;
  s1 = bit_xor s.s1 t.s1;
  s2 = bit_xor s.s2 t.s2;
  s3 = bit_xor s.s3 t.s3;
}

abbrev pub zeros : Xoshiro
zeros = record { s0 = 0; s1 = 0; s2 = 0; s3 = 0 }

-- The loops of `jump_impl`, over the bits from `bit` on of one element, with `left` to go, and over
-- the elements of the array.
pub jump_bits : (jump bit left : ℕ) → Xoshiro × Xoshiro → Xoshiro × Xoshiro
jump_bits jump bit zero (s, m) = (s, m)
jump_bits jump bit (suc left) (s, m) =
    jump_bits jump (suc bit) left
      (if bit_and jump (2 ^ bit) == 0 then s else xor_state s m, advance m)

pub jump_array : List ℕ → Xoshiro × Xoshiro → Xoshiro × Xoshiro
jump_array [] p = p
jump_array (jump ∷ jumps) p = jump_array jumps (jump_bits jump 0 64 p)

pub jump_impl : List ℕ → Xoshiro → Xoshiro
jump_impl jumps m = (jump_array jumps (zeros, m)).0

pub jump : Xoshiro → Xoshiro
jump =
    jump_impl
      (0x180ec6d33cfd0aba ∷ 0xd5a61266f0c9392c ∷ 0xa9582618e03fc9aa ∷ 0x39abdc4529b1661c ∷ [])

pub long_jump : Xoshiro → Xoshiro
long_jump =
    jump_impl
      (0x76e15d3efefdcbbf ∷ 0xc5004e441c522fb3 ∷ 0x77710069854ee241 ∷ 0x39109bb02acbe635 ∷ [])
