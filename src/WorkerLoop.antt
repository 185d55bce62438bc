-- ===== src/WorkerLoop.antt =====
-- include/libfork/schedule/busy_pool.hpp, unit_pool.hpp: the loops of the workers that do not sleep,
-- `lf::impl::busy_work` and `lf::unit_pool::work`, with the threads that submit and the one that
-- requests the stop, in any interleaving. A job is a number. The list of submissions is handed out
-- whole and in order (IntrusiveList); `lf::resume` runs the jobs of a list one after the other.
-- Whether a steal succeeds is left open.
mod Inv
mod Tests
use parallel_load_balancing.Common.{
  ℕ, zero, suc, ◌+◌, ◌<◌, ◌≡◌, ◌≢◌, Bool, true, false, List, [], ◌∷◌, ◌++◌, if◌then◌else◌,
}

-- Where the worker is: about to test the flag; about to pop; about to steal; running the jobs of a
-- list; and the same of the second loop, after the flag is set.
pub data Stage : Type 0 where
  testing : Stage
  popping : Stage
  stealing : Stage
  resuming : (jobs : List ℕ) → Stage
  running_stolen : Stage
  draining : Stage
  drain_resuming : (jobs : List ℕ) → Stage
  ended : Stage

pub record Loop : Type 0 where
  pub stage : Stage
  pub queue : List ℕ
  pub stop : Bool
  -- The jobs submitted and the jobs run, in order.
  pub submitted : List ℕ
  pub ran : List ℕ

abbrev pub goto : Loop → Stage → Loop
goto s stage = record s { stage = stage }

-- One step; `steals` says whether the pool has workers to steal from.
pub data Step (steals : Bool) (s : Loop) : Loop → Type 0 where
  test_stop : s.stage ≡ testing → Step steals s (goto s (if s.stop then draining else popping))
  pop_some :
      s.stage ≡ popping
      → s.queue ≢ []
      → Step steals s (record s { stage = resuming s.queue; queue = [] })
  pop_none :
      s.stage ≡ popping
      → s.queue ≡ []
      → Step steals s (goto s (if steals then stealing else testing))
  resume_next :
      {job : ℕ} {jobs : List ℕ}
      → s.stage ≡ resuming (job ∷ jobs)
      → Step steals s (record s { stage = resuming jobs; ran = s.ran ++ job ∷ [] })
  resumed : s.stage ≡ resuming [] → Step steals s (goto s testing)
  steal_some : s.stage ≡ stealing → Step steals s (goto s running_stolen)
  steal_none : s.stage ≡ stealing → Step steals s (goto s testing)
  ran_stolen : s.stage ≡ running_stolen → Step steals s (goto s testing)
  drain_some :
      s.stage ≡ draining
      → s.queue ≢ []
      → Step steals s (record s { stage = drain_resuming s.queue; queue = [] })
  drain_none : s.stage ≡ draining → s.queue ≡ [] → Step steals s (goto s ended)
  drain_next :
      {job : ℕ} {jobs : List ℕ}
      → s.stage ≡ drain_resuming (job ∷ jobs)
      → Step steals s (record s { stage = drain_resuming jobs; ran = s.ran ++ job ∷ [] })
  drained : s.stage ≡ drain_resuming [] → Step steals s (goto s draining)
  -- `schedule`, also from a job that runs, before the second loop has ended.
  submit :
      (job : ℕ)
      → s.stage ≢ ended
      → Step steals s
          (record s { queue = s.queue ++ job ∷ []; submitted = s.submitted ++ job ∷ [] })
  request_stop : Step steals s (record s { stop = true })

abbrev pub initial : Loop
initial = record { stage = testing; queue = []; stop = false; submitted = []; ran = [] }

pub data Reach (steals : Bool) : Loop → Type 0 where
  start : Reach steals initial
  step : {s t : Loop} → Reach steals s → Step steals s t → Reach steals t
