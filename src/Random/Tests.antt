-- ===== src/Random/Tests.antt =====
-- The generator from its default seed.
use parallel_load_balancing.Common.{◌^◌, ◌≡◌, ◌≢◌, refl, ap, arith}
use parallel_load_balancing.Random.{default_seed, output, advance, zeros, jump, long_jump}
use parallel_load_balancing.Random.Jump.{IsState, advance_by, advance_by-ne-zeros}
use parallel_load_balancing.Random.Powers.{jumps-advance_by}

second_output : output (advance default_seed) ≡ 0x8a9a634117e030be
unfolding output advance
second_output = refl

default_seed-IsState : IsState default_seed
default_seed-IsState = omega arith

advance_by-ne-zeros_example :
    (advance_by 2 default_seed ≢ zeros) × IsState (advance_by 2 default_seed)
advance_by-ne-zeros_example =
    advance_by-ne-zeros 2 default_seed default_seed-IsState (λ e. omega (arith, ap (λ s. s.s0) e))

jumps-advance_by_example :
    (jump default_seed ≡ advance_by (2 ^ 128) default_seed)
    × (long_jump default_seed ≡ advance_by (2 ^ 192) default_seed)
jumps-advance_by_example = jumps-advance_by default_seed default_seed-IsState
