-- ===== src/WorkerLoop/Tests.antt =====
-- A worker of the unit pool: two jobs are submitted, the second after the request to stop.
use parallel_load_balancing.Common.{ℕ, ◌≡◌, ◌≢◌, refl, false, [], ◌∷◌, ◌++◌, if◌then◌else◌}
use parallel_load_balancing.WorkerLoop.{
  testing, ended, Loop, Step, test_stop, pop_some, resume_next, resumed, drain_some, drain_next,
  drained, drain_none, submit, request_stop, initial, Reach, start, step,
}
use parallel_load_balancing.WorkerLoop.Inv.{in_hand, ends, ran-submitted}

not_ended : testing ≢ ended
not_ended e = cc

not_empty : (job : ℕ) → job ∷ [] ≢ []
not_empty job e = cc

abbrev Run : Type 0
Run = (s : Loop) × Reach false s

abbrev after : (r : Run) {s : Loop} → Step false r.0 s → Run
after r h = (_, step r.1 h)

abbrev first_run : Run
first_run =
    let r : Run = (initial, start) in
    let r = after r (submit 7 not_ended) in
    let r = after r (test_stop refl) in
    let r = after r (pop_some refl (not_empty 7)) in
    let r = after r (resume_next refl) in let r = after r request_stop in after r (resumed refl)

abbrev ended_run : Run
ended_run =
    let r = after first_run (submit 8 not_ended) in
    let r = after r (test_stop refl) in
    let r = after r (drain_some refl (not_empty 8)) in
    let r = after r (drain_next refl) in
    let r = after r (drained refl) in after r (drain_none refl refl)

all_ran : ended_run.0.ran ≡ 7 ∷ 8 ∷ []
all_ran = refl

ran-submitted_example :
    ended_run.0.ran
      ++ (in_hand ended_run.0.stage ++ (if ends ended_run.0.stage then [] else ended_run.0.queue))
    ≡ ended_run.0.submitted
ran-submitted_example = ran-submitted ended_run.1
