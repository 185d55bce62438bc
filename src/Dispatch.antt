-- ===== src/Dispatch.antt =====
-- The dispatch of a task with a modifier: `promise_base::await_transform` and
-- `promise::unhandled_exception` (include/libfork/core/impl/promise.hpp), and the `await_resume` of the
-- awaitables that they choose (include/libfork/core/impl/awaitables.hpp). Exceptions are numbers. The
-- constraints on types are Booleans: whether the return address of the child keeps exceptions,
-- `stash_exception_in_return`.
mod Laws
mod Tests
use parallel_load_balancing.Common.{
  ℕ, ◌≡◌, Bool, true, false, Option, none, some, if◌then◌else◌, ◌==◌,
}
use parallel_load_balancing.Frame.{Frame, capture_exception, has_exception, rethrow_if_exception}

pub data Tag : Type 0 where
  call fork : Tag

pub data Modifier : Type 0 where
  plain sync sync_outside eager_throw eager_throw_outside : Modifier

pub data Region : Type 0 where
  unknown outside inside opening_fork : Region

pub data Awaitable : Type 0 where
  call_awaitable : Awaitable
  eager_call_awaitable : Region → Awaitable
  fork_awaitable : Awaitable
  sync_fork_awaitable : (child_throws : Bool) → Region → (steals_pre : ℕ) → Awaitable

-- `valid_modifier_impl`.
pub valid_modifier : Tag → Modifier → Bool
valid_modifier tag plain = true
valid_modifier fork sync = true
valid_modifier fork sync_outside = true
valid_modifier call eager_throw = true
valid_modifier call eager_throw_outside = true
valid_modifier tag modifier = false

-- `await_transform`; none where it does not compile.
pub await_transform : Tag → Modifier → (throwing : Bool) → Frame → Option Awaitable
await_transform call eager_throw throwing f =
    some (if throwing then eager_call_awaitable unknown else call_awaitable)
await_transform call eager_throw_outside throwing f =
    some (if throwing then eager_call_awaitable outside else call_awaitable)
await_transform call modifier throwing f = some call_awaitable
await_transform fork plain throwing f = some fork_awaitable
await_transform fork sync throwing f = some (sync_fork_awaitable throwing unknown f.steal)
await_transform fork sync_outside throwing f =
    some (sync_fork_awaitable throwing opening_fork f.steal)
await_transform fork modifier throwing f = none

-- The frame of the parent and what the return address keeps, after the child has thrown `e`.
pub unhandled_exception : (throwing : Bool) → ℕ → Frame → Frame × Option ℕ
unhandled_exception throwing e parent =
    if throwing then (parent, some e) else (capture_exception parent e, none)

-- What the resumption of the parent throws.
pub data Thrown : Type 0 where
  nothing : Thrown
  original : (e : Option ℕ) → Thrown
  before_join : Thrown

abbrev pub rethrown : Frame × Option ℕ → Frame × Thrown
rethrown (f, none) = (f, nothing)
rethrown (f, some e) = (f, original (some e))

-- The substitute, where the exception itself must not be touched.
abbrev pub substitute : Frame → Frame × Thrown
substitute f = if has_exception f then (f, before_join) else (f, nothing)

-- `eager_call_awaitable::await_resume`; outside a scope there are no steals.
pub eager_resume : Region → Frame → Frame × Thrown
eager_resume outside f = rethrown (rethrow_if_exception f)
eager_resume region f = if f.steal == 0 then rethrown (rethrow_if_exception f) else substitute f

-- `sync_fork_awaitable::await_resume`, for a child that completed synchronously.
pub sync_check : (child_throws : Bool) → Region → Frame → Frame × Thrown
sync_check false region f = (f, nothing)
sync_check true opening_fork f = rethrown (rethrow_if_exception f)
sync_check true region f = if f.steal == 0 then rethrown (rethrow_if_exception f) else substitute f

-- `await_resume`: the frame, what is thrown, and whether a fork reports that its child completed
-- synchronously.
pub await_resume : Awaitable → Frame → Frame × Thrown × Bool
await_resume call_awaitable f = (f, nothing, false)
await_resume fork_awaitable f = (f, nothing, false)
await_resume (eager_call_awaitable region) f = let r = eager_resume region f in (r.0, r.1, false)
await_resume (sync_fork_awaitable child_throws region steals_pre) f =
    let r = sync_check child_throws region f in
    if f.steal == steals_pre then (r.0, r.1, true) else (f, nothing, false)

-- `join_awaitable::await_resume`.
pub join_resume : Frame → Frame × Thrown
join_resume f = rethrown (rethrow_if_exception f)
