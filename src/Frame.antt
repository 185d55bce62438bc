-- ===== src/Frame.antt =====
-- include/libfork/core/impl/frame.hpp: the counters and the exception of a task's frame.
pub mod Exceptions
mod Tests
use parallel_load_balancing.Common.{
  ℕ, ◌+◌, ◌-◌, ◌%◌, ◌^◌, Bool, true, false, Option, none, some, if◌then◌else◌,
}

-- `k_u16_max`.
abbrev pub u16_max : ℕ
u16_max = 2 ^ 16 - 1

-- The members that the program reads and writes; a stacklet and an exception are known by their
-- addresses. `eptr` is `none` where the storage of `m_eptr` holds no exception.
pub record Frame : Type 0 where
  pub stacklet : ℕ
  pub join : ℕ  -- std::atomic_uint16_t
  pub steal : ℕ  -- std::uint16_t
  pub except : Bool
  pub eptr : Option ℕ

-- The constructor, with the members' default values.
abbrev pub make_frame : ℕ → Frame
make_frame s = record { stacklet = s; join = u16_max; steal = 0; except = false; eptr = none }

-- The new frame, and the previous stacklet.
unfoldable pub reset_stacklet : Frame → ℕ → Frame × ℕ
reset_stacklet f s = (record f { stacklet = s }, f.stacklet)

unfoldable pub fetch_sub_joins : Frame → ℕ → Frame × ℕ
fetch_sub_joins f val = (record f { join = (f.join + 2 ^ 16 - val) % 2 ^ 16 }, f.join)

unfoldable pub fetch_add_steal : Frame → Frame × ℕ
fetch_add_steal f = (record f { steal = (f.steal + 1) % 2 ^ 16 }, f.steal)

unfoldable pub reset : Frame → Frame
reset f = record f { steal = 0; join = u16_max }

-- The flag is exchanged, and the one that finds it clear stores its exception.
unfoldable pub capture_exception : Frame → ℕ → Frame
capture_exception f e =
    if f.except then record f { except = true } else record f { except = true; eptr = some e }

unfoldable pub has_exception : Frame → Bool
has_exception f = f.except

-- The exception that is rethrown, if there is one; the frame is then back in the OK state.
unfoldable pub rethrow_if_exception : Frame → Frame × Option ℕ
rethrow_if_exception f =
    if f.except then (record f { except = false; eptr = none }, f.eptr) else (f, none)
