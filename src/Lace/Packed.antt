-- ===== src/Lace/Packed.antt =====
-- include/libfork/core/ext/deque_lace.hpp: `m_top_split`, one 64-bit word for the two halves.
use parallel_load_balancing.Common.{ℕ, ◌+◌, ◌-◌, ◌*◌, ◌/◌, ◌%◌, ◌≤◌, ◌<◌, ◌≡◌, ap₂, arith}

pub record SplitState : Type 0 where
  pub top : ℕ
  pub split : ℕ

-- A split point is shifted by `k_split_shift`, 32 bits.
abbrev pub split_unit : ℕ
split_unit = 4294967296

-- `std::bit_cast` of a `split_state`, in little endian.
abbrev pub pack : ℕ → ℕ → ℕ
pack t s = t + split_unit * s

abbrev pub unpack : ℕ → SplitState
unpack v = record { top = v % split_unit; split = v / split_unit }

-- `fetch_add` and `fetch_sub` on 64 bits, for a shifted argument.
abbrev pub fetch_add_split : ℕ → ℕ → ℕ
fetch_add_split v d = (v + split_unit * d) % 18446744073709551616

abbrev pub fetch_sub_split : ℕ → ℕ → ℕ
fetch_sub_split v d = (v + (18446744073709551616 - split_unit * d)) % 18446744073709551616

split_state-ext : {a b : SplitState} → a.top ≡ b.top → a.split ≡ b.split → a ≡ b
split_state-ext p q = ap₂ (λ t s. record { top = t; split = s }) p q

-- For halves of 32 bits, what is packed is unpacked again, and adding to or subtracting from the
-- split point in the word changes that half alone, as long as it stays within its 32 bits.
pub unpack-fetch :
    (t s a b : ℕ)
    → t < split_unit
    → s + a < split_unit
    → b ≤ s
    → (unpack (pack t s) ≡ record { top = t; split = s })
      × (unpack (fetch_add_split (pack t s) a) ≡ record { top = t; split = s + a })
      × (unpack (fetch_sub_split (pack t s) b) ≡ record { top = t; split = s - b })
unpack-fetch t s a b h k l = (
  split_state-ext (omega arith) (omega arith),
  split_state-ext (omega arith) (omega arith),
  split_state-ext (omega arith) (omega arith),
)
