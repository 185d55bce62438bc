-- ===== src/Join.antt =====
-- The join of a task with its children: `join_awaitable` (include/libfork/core/impl/awaitables.hpp),
-- `detail::final_await_suspend` (include/libfork/core/impl/promise.hpp) and the resumption of a
-- stolen task (include/libfork/core/ext/resume.hpp).
pub mod Safety
pub mod Limit
mod Tests
use parallel_load_balancing.Common.{
  ℕ, suc, ◌+◌, ◌-◌, ◌≡◌, ◌<◌, Bool, true, false, not, Option, none, some, if◌then◌else◌, ◌==◌, List,
}
use parallel_load_balancing.Frame.{
  Frame, u16_max, fetch_sub_joins, fetch_add_steal, reset, make_frame,
}

-- What a worker does next: resume the parent, or yield to its scheduler. Beside it, what happens to
-- the worker's stack: `take` puts the stack of the frame's stacklet in its place, `release` gives
-- the worker an empty one, `keep` leaves it.
pub data Next : Type 0 where
  resume_parent yield : Next

pub data StackAction : Type 0 where
  keep take release : StackAction

-- `join_awaitable::await_ready`.
unfoldable pub await_ready : Frame → Bool × StackAction × Frame
unfolding reset
await_ready f =
    if f.steal == 0
    then (true, keep, f)
    else let joined = u16_max - f.join in
      if f.steal == joined then (true, take, reset f) else (false, keep, f)

-- `join_awaitable::await_suspend`; the loser goes on with `try_self_stealing`.
unfoldable pub await_suspend : Frame → Next × StackAction × Frame
unfolding fetch_sub_joins reset
await_suspend f =
    let steals = f.steal in
    let (f', joined) = fetch_sub_joins f (u16_max - steals) in
    if steals == u16_max - joined then (resume_parent, take, reset f') else (yield, keep, f')

-- `final_await_suspend`: `popped` tells whether the worker's queue gave the parent back, and
-- `c_stacklet` is the top of the worker's stack.
unfoldable pub final_await_suspend : Bool → ℕ → Frame → Next × StackAction × Frame
unfolding fetch_sub_joins reset
final_await_suspend popped c_stacklet parent =
    if popped
    then (resume_parent, keep, parent)
    else let (parent', old) = fetch_sub_joins parent 1 in
      if old == 1
      then (resume_parent, if parent.stacklet == c_stacklet then keep else take, reset parent')
      else (yield, if parent.stacklet == c_stacklet then release else keep, parent')

-- Where the task stands with respect to its join: running, between `await_ready` and
-- `await_suspend`, or suspended.
pub data Stage : Type 0 where
  running joining suspended : Stage

-- A fork-join scope: the frame of the task, its stage, and the children that lost their parent to a
-- thief and have not yet come to their final suspension.
pub record Scope : Type 0 where
  pub frame : Frame
  pub stage : Stage
  pub pending : ℕ

-- What a step does to the task: it goes on after the join, or not.
pub data Outcome : Type 0 where
  continues waits : Outcome

-- The steps of the task and its children in any order, with at most `limit` steals in one scope.
-- Children that still find their parent in their worker's queue are calls, and do not show here.
pub data Step (limit : ℕ) (s : Scope) : Outcome → Scope → Type 0 where
  stolen :
      s.stage ≡ running
      → s.frame.steal < limit
      → Step limit s waits
          (record s { frame = (fetch_add_steal s.frame).0; pending = suc s.pending })
  ready :
      {a : StackAction} {f : Frame}
      → s.stage ≡ running
      → await_ready s.frame ≡ (true, a, f)
      → Step limit s continues (record s { frame = f })
  not_ready :
      {a : StackAction} {f : Frame}
      → s.stage ≡ running
      → await_ready s.frame ≡ (false, a, f)
      → Step limit s waits (record s { frame = f; stage = joining })
  wins :
      {a : StackAction} {f : Frame}
      → s.stage ≡ joining
      → await_suspend s.frame ≡ (resume_parent, a, f)
      → Step limit s continues (record s { frame = f; stage = running })
  loses :
      {a : StackAction} {f : Frame}
      → s.stage ≡ joining
      → await_suspend s.frame ≡ (yield, a, f)
      → Step limit s waits (record s { frame = f; stage = suspended })
  child_ends :
      {a : StackAction} {f : Frame} (c : ℕ)
      → 0 < s.pending
      → final_await_suspend false c s.frame ≡ (yield, a, f)
      → Step limit s waits (record s { frame = f; pending = s.pending - 1 })
  last_child :
      {a : StackAction} {f : Frame} (c : ℕ)
      → 0 < s.pending
      → final_await_suspend false c s.frame ≡ (resume_parent, a, f)
      → Step limit s continues (record s { frame = f; stage = running; pending = s.pending - 1 })

abbrev pub start : ℕ → Scope
start stacklet = record { frame = make_frame stacklet; stage = running; pending = 0 }

pub data Reach (limit stacklet : ℕ) : Scope → Type 0 where
  here : Reach limit stacklet (start stacklet)
  more :
      {s s' : Scope} {o : Outcome}
      → Reach limit stacklet s
      → Step limit s o s'
      → Reach limit stacklet s'
