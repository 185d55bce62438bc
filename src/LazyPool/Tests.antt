-- ===== src/LazyPool/Tests.antt =====
-- Three workers of one domain: two go to sleep, the third steals a task and wakes one of them; and
-- the end of an idle pool.
use parallel_load_balancing.Common.{ℕ, ◌≤◌, ◌<◌, ◌≡◌, ◌⊎◌, inl, refl, false, arith, ℕ_discrete}
use parallel_load_balancing.LazyPool.{
  wake_up, pop_none, steal_some, steal_none, prepare_wait, pop_again_none, test_stop, leave,
  load_active, compare, leave_found, add_active, Worker, Shared, Move, Pool, move, notify_own,
  submit, request_stop, notify_closing, initial, Reach, start, step,
}
use parallel_load_balancing.LazyPool.Inv.{calls, thieves, actives, guards}
use parallel_load_balancing.LazyPool.Safety.{counters-count, awake_while_active, submitted-notices}

abbrev home : ℕ → ℕ
home t = 0

abbrev Run : Type 0
Run = (s : Pool) × Reach home 3 1 s

abbrev moved :
    (r : Run) (t : ℕ) {sh : Shared} {w : Worker}
    → t < 3
    → Move 1 0 r.0.shared (r.0.workers t) sh w
    → Run
moved r t l mv = (_, step r.1 (move t l mv))

abbrev fresh : Run
fresh = (initial, start)

-- From `wake_up` to the sleep.
abbrev prepared_0 : Run
unfolding ℕ_discrete
prepared_0 =
    let r = moved fresh 0 (omega arith) (wake_up refl) in
    let r = moved r 0 (omega arith) (pop_none refl refl) in
    let r = moved r 0 (omega arith) (steal_none refl) in moved r 0 (omega arith) (prepare_wait refl)

abbrev asleep_0 : Run
unfolding ℕ_discrete
asleep_0 =
    let r = moved prepared_0 0 (omega arith) (pop_again_none refl refl) in
    let r = moved r 0 (omega arith) (test_stop refl) in
    let r = moved r 0 (omega arith) (leave refl) in
    let r = moved r 0 (omega arith) (load_active refl) in moved r 0 (omega arith) (compare refl)

abbrev prepared_2 : Run
unfolding ℕ_discrete
prepared_2 =
    let r = moved asleep_0 2 (omega arith) (wake_up refl) in
    let r = moved r 2 (omega arith) (pop_none refl refl) in
    let r = moved r 2 (omega arith) (steal_none refl) in moved r 2 (omega arith) (prepare_wait refl)

abbrev asleep_2 : Run
unfolding ℕ_discrete
asleep_2 =
    let r = moved prepared_2 2 (omega arith) (pop_again_none refl refl) in
    let r = moved r 2 (omega arith) (test_stop refl) in
    let r = moved r 2 (omega arith) (leave refl) in
    let r = moved r 2 (omega arith) (load_active refl) in moved r 2 (omega arith) (compare refl)

-- Worker 1 steals, is the last thief and wakes worker 0; then it becomes active.
abbrev renotifying_1 : Run
unfolding ℕ_discrete
renotifying_1 =
    let r = moved asleep_2 1 (omega arith) (wake_up refl) in
    let r = moved r 1 (omega arith) (pop_none refl refl) in
    let r = moved r 1 (omega arith) (steal_some refl) in moved r 1 (omega arith) (leave_found refl)

abbrev active_1 : Run
unfolding ℕ_discrete
active_1 =
    let r : Run = (
      _,
      step renotifying_1.1
          (notify_own 1 0 (omega arith) refl (inl (omega arith, refl, (false, refl)))),
    ) in
    moved r 1 (omega arith) (add_active refl)

counters-count_example :
    ((i : ℕ) → active_1.0.shared.thief i ≡ thieves home 3 active_1.0.workers i)
    × (active_1.0.shared.active ≡ actives home 3 active_1.0.workers)
counters-count_example = counters-count active_1.1

awake_while_active_example :
    (1 ≤ active_1.0.shared.thief 0)
    ⊎ ((1 ≤ guards home 3 active_1.0.workers 0) ⊎ (1 ≤ calls 0 active_1.0.closing))
unfolding ℕ_discrete
awake_while_active_example =
    awake_while_active active_1.1 0 (omega arith) (omega arith) (omega arith)

-- A job is submitted to worker 0, which sleeps.
abbrev submitted_0 : Run
submitted_0 = (_, step asleep_0.1 (submit 0 (omega arith)))

submitted-notices_example : 1 ≤ submitted_0.0.notices 0
unfolding ℕ_discrete
submitted-notices_example = submitted-notices submitted_0.1 0 (omega arith) (omega arith) refl

-- The pool is closed while worker 0 sleeps.
abbrev told : Run
unfolding ℕ_discrete
told =
    let r : Run = (_, step asleep_0.1 (request_stop refl)) in
    (_, step r.1 (notify_closing refl (omega arith)))
