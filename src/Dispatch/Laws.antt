-- ===== src/Dispatch/Laws.antt =====
-- Where the exceptions of children come up.
use parallel_load_balancing.Common.{
  ℕ, ◌≡◌, ◌⊎◌, inl, inr, Bool, true, false, none, some, arith, if◌then◌else◌, ◌==◌, ◌≤◌, Bool-cases,
}
use parallel_load_balancing.Frame.{
  Frame, capture_exception, has_exception, rethrow_if_exception, reset,
}
use parallel_load_balancing.Dispatch.{
  Tag, call, Modifier, plain, outside, opening_fork, Awaitable, call_awaitable,
  eager_call_awaitable, fork_awaitable, sync_fork_awaitable, await_transform, unhandled_exception,
  nothing, original, before_join, eager_resume, sync_check, await_resume, join_resume,
}

-- Whatever the modifier and the return address, a parent without an exception that is resumed by a
-- call, or by a fork whose child completed synchronously, after the child has thrown `e`, is resumed
-- without an exception; `e` is in the return address if that keeps exceptions, and in the parent's
-- frame, unseen, if not.
pub resume-throws_nothing :
    (tag : Tag) (modifier : Modifier) (throwing : Bool) (e : ℕ) (f : Frame) {a : Awaitable}
    → f.except ≡ false
    → await_transform tag modifier throwing f ≡ some a
    → ((await_resume a (unhandled_exception throwing e f).0).1 ≡ nothing)
      × ((await_resume a (unhandled_exception throwing e f).0).0
          ≡ (if throwing then f else record f { except = true; eptr = some e }))
      × ((unhandled_exception throwing e f).1 ≡ (if throwing then some e else none))
unfolding await_transform unhandled_exception capture_exception has_exception rethrow_if_exception
    eager_resume sync_check await_resume
resume-throws_nothing call plain throwing e f ok h = ground arith
resume-throws_nothing tag modifier throwing e f ok h = ground arith

-- The awaitables that look for an exception when they resume.
abbrev pub checks : Awaitable → Frame → Bool
checks (eager_call_awaitable region) f = true
checks (sync_fork_awaitable true region steals_pre) f = f.steal == steals_pre
checks awaitable f = false

abbrev pub cleared : Frame → Frame
cleared f = record f { except = false; eptr = none }

-- What the awaitables assert: a parent outside a scope has no steals, nor has one before the opening
-- fork of a scope.
abbrev pub IsPlaced : Awaitable → Frame → Type 0
IsPlaced (eager_call_awaitable outside) f = f.steal ≡ 0
IsPlaced (sync_fork_awaitable child_throws opening_fork steals_pre) f = steals_pre ≡ 0
IsPlaced awaitable f = Unit

-- An awaitable that looks for an exception, and stands where it asserts to stand, finds `e` in the
-- frame, whoever has captured it. If there have been no steals, it throws `e` and clears the frame, and
-- the join, once it has reset the counters, throws nothing. If there have been steals, so that `e` may
-- not be touched, it throws a substitute and leaves the frame, and the join throws `e` and clears it.
pub await_resume-surfaces :
    (a : Awaitable) (f : Frame) (e : ℕ)
    → IsPlaced a f
    → checks a f ≡ true
    → f.except ≡ true
    → f.eptr ≡ some e
    → ((f.steal ≡ 0)
        × ((await_resume a f).1 ≡ original (some e))
        × ((await_resume a f).0 ≡ cleared f)
        × (join_resume (reset (cleared f)) ≡ (cleared (reset f), nothing)))
      ⊎ ((1 ≤ f.steal)
          × ((await_resume a f).1 ≡ before_join)
          × ((await_resume a f).0 ≡ f)
          × (join_resume (reset f) ≡ (cleared (reset f), original (some e))))
unfolding has_exception rethrow_if_exception eager_resume sync_check await_resume join_resume reset
await_resume-surfaces call_awaitable f e p c x h = absurd (ground (arith, c))
await_resume-surfaces fork_awaitable f e p c x h = absurd (ground (arith, c))
await_resume-surfaces (eager_call_awaitable outside) f e p c x h = inl (ground arith)
await_resume-surfaces (eager_call_awaitable region) f e p c x h = elim (Bool-cases (f.steal == 0)) [
  | inl none_stolen ↦ inl (ground arith)
  | inr stolen ↦ inr (ground arith)
]
await_resume-surfaces (sync_fork_awaitable true opening_fork pre) f e p c x h = inl (ground arith)
await_resume-surfaces (sync_fork_awaitable true region pre) f e p c x h =
    elim (Bool-cases (f.steal == 0)) [
      | inl none_stolen ↦ inl (ground arith)
      | inr stolen ↦ inr (ground arith)
    ]
await_resume-surfaces (sync_fork_awaitable false region pre) f e p c x h =
    absurd (ground (arith, c))
