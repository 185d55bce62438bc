-- ===== src/Lace/Mask.antt =====
-- Below the capacity the mask does nothing.
use native.Mathlib.Nat.{mod-eq_of_lt}
use parallel_load_balancing.Common.{ℕ, ◌^◌, ◌<◌, ◌≡◌, ◌∙◌}
use parallel_load_balancing.Common.Bits.{bit_and_mask}
use parallel_load_balancing.Lace.{mask_index}

pub mask_index-lt : (bits i : ℕ) → i < 2 ^ bits → mask_index (2 ^ bits) i ≡ i
mask_index-lt bits i h = bit_and_mask bits i ∙ mod-eq_of_lt h
