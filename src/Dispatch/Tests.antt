-- ===== src/Dispatch/Tests.antt =====
-- A call with `eager_throw` whose child throws, and a parent whose stolen sibling has thrown.
use parallel_load_balancing.Common.{◌≡◌, ◌≤◌, ◌⊎◌, refl, true, false, none, some, if◌then◌else◌}
use parallel_load_balancing.Frame.{Frame, make_frame, reset}
use parallel_load_balancing.Dispatch.{
  call, eager_throw, unknown, call_awaitable, eager_call_awaitable, await_transform,
  unhandled_exception, nothing, original, before_join, await_resume, join_resume,
}
use parallel_load_balancing.Dispatch.Laws.{resume-throws_nothing, cleared, await_resume-surfaces}

resume-throws_nothing_example :
    ((await_resume call_awaitable (unhandled_exception false 7 (make_frame 1)).0).1 ≡ nothing)
    × ((await_resume call_awaitable (unhandled_exception false 7 (make_frame 1)).0).0
        ≡ (if false then make_frame 1 else record (make_frame 1) { except = true; eptr = some 7 }))
    × ((unhandled_exception false 7 (make_frame 1)).1 ≡ (if false then some 7 else none))
unfolding await_transform
resume-throws_nothing_example =
    resume-throws_nothing call eager_throw false 7 (make_frame 1) refl refl

abbrev thrown_by_sibling : Frame
thrown_by_sibling = record (make_frame 1) { steal = 1; except = true; eptr = some 7 }

await_resume-surfaces_example :
    ((thrown_by_sibling.steal ≡ 0)
      × ((await_resume (eager_call_awaitable unknown) thrown_by_sibling).1 ≡ original (some 7))
      × ((await_resume (eager_call_awaitable unknown) thrown_by_sibling).0
          ≡ cleared thrown_by_sibling)
      × (join_resume (reset (cleared thrown_by_sibling))
          ≡ (cleared (reset thrown_by_sibling), nothing)))
    ⊎ ((1 ≤ thrown_by_sibling.steal)
        × ((await_resume (eager_call_awaitable unknown) thrown_by_sibling).1 ≡ before_join)
        × ((await_resume (eager_call_awaitable unknown) thrown_by_sibling).0 ≡ thrown_by_sibling)
        × (join_resume (reset thrown_by_sibling)
            ≡ (cleared (reset thrown_by_sibling), original (some 7))))
await_resume-surfaces_example =
    await_resume-surfaces (eager_call_awaitable unknown) thrown_by_sibling 7 tt refl refl refl
