-- ===== src/Ring.antt =====
-- `lf::impl::atomic_ring_buf` (include/libfork/core/ext/deque_chase_lev.hpp and, word for word the
-- same, deque_blocking.hpp): a fixed array with modulo loads and stores.
pub mod Laws
pub mod Resize
pub mod Span
mod Tests
use Prim.Native.Nat.{bit_and}
use parallel_load_balancing.Common.{
  ℕ, zero, suc, ◌-◌, ◌*◌, Option, none, some, List, get_or, set, replicate,
}

-- `m_mask` is the constructor's `cap - 1`. A slot that was never written is `none`.
pub record RingBuf (T : Type 0) : Type 0 where
  pub cap : ℕ
  pub slots : List (Option T)

module _ {T : Type 0} where
  abbrev pub mask : RingBuf T → ℕ
  mask r = r.cap - 1

  unfoldable pub load : RingBuf T → ℕ → Option T
  load r index = get_or r.slots (bit_and index (mask r)) none

  unfoldable pub store : RingBuf T → ℕ → T → RingBuf T
  store r index val = record r { slots = set r.slots (bit_and index (mask r)) (some val) }

-- The constructor.
abbrev pub make : (T : Type 0) → ℕ → RingBuf T
make T cap = record { cap = cap; slots = replicate cap none }

module _ {T : Type 0} where
  -- One round of the loop of `resize`: `ptr->store(i, load(i))`. A load of an indeterminate slot
  -- copies nothing that can be read back.
  unfoldable pub copy_slot : RingBuf T → RingBuf T → ℕ → RingBuf T
  copy_slot old new i = record new { slots = set new.slots (bit_and i (mask new)) (load old i) }

  -- `for (i = top; i != bot; ++i)`, with `n` rounds left.
  unfoldable pub copy_range : RingBuf T → RingBuf T → ℕ → ℕ → RingBuf T
  copy_range old new i zero = new
  copy_range old new i (suc n) = copy_range old (copy_slot old new i) (suc i) n

  unfoldable pub resize : RingBuf T → ℕ → ℕ → RingBuf T
  resize r bot top = copy_range r (make T (2 * r.cap)) top (bot - top)
