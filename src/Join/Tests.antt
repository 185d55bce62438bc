-- ===== src/Join/Tests.antt =====
-- A scope in which a thief takes the task from one child, by evaluation.
use parallel_load_balancing.Common.{◌-◌, ◌≡◌, ◌<◌, ◌++◌, [], ◌∷◌, refl, arith, replicate}
use parallel_load_balancing.Frame.{fetch_add_steal, fetch_sub_joins}
use parallel_load_balancing.Join.{
  continues, Scope, Step, Reach, here, more, await_ready, await_suspend, final_await_suspend,
  resume_parent, yield,
}
use parallel_load_balancing.Join.Safety.{Fresh, continues_when_joined, ends, suspended_is_resumed}

record Run : Type 0 where
  last : Scope
  reach : Reach 5 9 last

-- The task is stolen once, comes to its join before the child ends, and is suspended.
waiting : Run
unfolding fetch_add_steal fetch_sub_joins await_ready await_suspend
waiting = record {
  last = _;
  reach =
      more (more (more here (Step.stolen refl (omega arith))) (Step.not_ready refl refl))
        (Step.loses refl refl);
}

-- Then the child ends, on another stack.
record Resumption : Type 0 where
  next : Scope
  step : Step 5 waiting.last continues next

resumption : Resumption
unfolding waiting fetch_sub_joins final_await_suspend fetch_add_steal await_suspend await_ready
resumption = record { next = _; step = Step.last_child 4 (omega arith) refl }

continues_when_joined_example : Fresh resumption.next
continues_when_joined_example =
    continues_when_joined {limit = 5} (omega arith) waiting.reach resumption.step

suspended_is_resumed_example :
    (0 < waiting.last.pending)
    × ends waiting.last.pending (λ n. n) waiting.last.frame
      ≡ replicate (waiting.last.pending - 1) yield ++ (resume_parent ∷ [])
unfolding waiting
suspended_is_resumed_example =
    suspended_is_resumed {limit = 5} (λ n. n) (omega arith) waiting.reach refl
