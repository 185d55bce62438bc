-- ===== src/LazyPool/Moves.antt =====
-- What a step of one worker changes in the numbers that it counts for.
use parallel_load_balancing.Common.{ℕ, ◌+◌, ◌≤◌, ◌<◌, ◌≡◌, ◌⊎◌, inl, inr, ap, true, false, arith}
use parallel_load_balancing.LazyPool.{
  waking, searching, stealing, preparing, prepared, asking, leaving, last, waiting, asleep,
  cancelling_work, cancelling_stop, cancelling_sleep, found, starting, rousing, running,
  stopping_leave, ending, Worker, Shared, Move, wake_up, pop_some, pop_none, steal_some, steal_none,
  prepare_wait, pop_again, pop_again_none, cancel_work, test_stop, cancel_stop, leave, load_active,
  cancel_sleep, compare, wake_spuriously, leave_found, add_active, load_thief, roused_all,
  sub_active, leave_stopping, set_stop,
}
use parallel_load_balancing.LazyPool.Weights.{
  thieving, working, sleeping, unheard, exiting, only, alerts, stranded, Guarded,
}

-- The premises of a step, for the catch-all clauses below, which cannot name them.
abbrev pub Guard :
    {domains d : ℕ} {sh sh' : Shared} {w w' : Worker} → Move domains d sh w sh' w' → Type 0
Guard {w} (wake_up _) = w.stage ≡ waking
Guard {w} (pop_some _ _) = (w.stage ≡ searching) × (1 ≤ w.queued)
Guard {w} (pop_none _ _) = (w.stage ≡ searching) × (w.queued ≡ 0)
Guard {w} (steal_some _) = w.stage ≡ stealing
Guard {w} (steal_none _) = w.stage ≡ stealing
Guard {w} (prepare_wait _) = w.stage ≡ preparing
Guard {w} (pop_again {b} _ _) = (w.stage ≡ prepared b) × (1 ≤ w.queued)
Guard {w} (pop_again_none {b} _ _) = (w.stage ≡ prepared b) × (w.queued ≡ 0)
Guard {w} (cancel_work _) = w.stage ≡ cancelling_work
Guard {w} (test_stop {b} _) = w.stage ≡ asking b
Guard {w} (cancel_stop _) = w.stage ≡ cancelling_stop
Guard {w} (leave {b} _) = w.stage ≡ leaving b
Guard {w} (load_active {b} _) = w.stage ≡ last b
Guard {w} (cancel_sleep _) = w.stage ≡ cancelling_sleep
Guard {w} (compare {b} _) = w.stage ≡ waiting b
Guard {w} (wake_spuriously {b} _) = w.stage ≡ asleep b
Guard {w} (leave_found _) = w.stage ≡ found
Guard {w} (add_active _) = w.stage ≡ starting
Guard {domains} {w} (load_thief {j} _ _) = (w.stage ≡ rousing j) × (j < domains)
Guard {domains} {w} (roused_all {j} _ _) = (w.stage ≡ rousing j) × (domains ≤ j)
Guard {w} (sub_active _) = w.stage ≡ running
Guard {w} (leave_stopping _) = w.stage ≡ stopping_leave
Guard {w} (set_stop _) = w.stage ≡ ending

pub guard :
    {domains d : ℕ} {sh sh' : Shared} {w w' : Worker} (mv : Move domains d sh w sh' w') → Guard mv
guard (wake_up e) = e
guard (pop_some e q) = (e, q)
guard (pop_none e q) = (e, q)
guard (steal_some e) = e
guard (steal_none e) = e
guard (prepare_wait e) = e
guard (pop_again e q) = (e, q)
guard (pop_again_none e q) = (e, q)
guard (cancel_work e) = e
guard (test_stop e) = e
guard (cancel_stop e) = e
guard (leave e) = e
guard (load_active e) = e
guard (cancel_sleep e) = e
guard (compare e) = e
guard (wake_spuriously e) = e
guard (leave_found e) = e
guard (add_active e) = e
guard (load_thief e q) = (e, q)
guard (roused_all e q) = (e, q)
guard (sub_active e) = e
guard (leave_stopping e) = e
guard (set_stop e) = e

module _ {domains d : ℕ} {sh : Shared} {w : Worker} where
  pub Move-thieving :
      {sh' : Shared} {w' : Worker} (i : ℕ)
      → thieving w.stage ≤ sh.thief d
      → Move domains d sh w sh' w'
      → sh'.thief i + only i d (thieving w.stage) ≡ sh.thief i + only i d (thieving w'.stage)
  Move-thieving i h (wake_up e) = ground arith
  Move-thieving i h mv = ground (arith, guard mv)

  pub Move-working :
      {sh' : Shared} {w' : Worker}
      → working w.stage ≤ sh.active
      → Move domains d sh w sh' w'
      → sh'.active + working w.stage ≡ sh.active + working w'.stage
  Move-working h (wake_up e) = ground arith
  Move-working h mv = ground (arith, guard mv)

  pub Move-stranded :
      {sh' : Shared} {w' : Worker} (i : ℕ)
      → Move domains d sh w sh' w'
      → stranded i d w' ≤ stranded i d w
  Move-stranded i (wake_up e) = ground arith
  Move-stranded i mv = ground (arith, guard mv)

  pub Move-unheard :
      {sh' : Shared} {w' : Worker} (i : ℕ)
      → sh.stop ≡ true
      → Move domains d sh w sh' w'
      → only i d (unheard w'.stage) ≤ only i d (unheard w.stage)
  Move-unheard i h (wake_up e) = ground arith
  Move-unheard i h mv = ground (arith, guard mv)

  pub Move-stop :
      {sh' : Shared} {w' : Worker} → Move domains d sh w sh' w' → sh.stop ≡ true → sh'.stop ≡ true
  Move-stop (wake_up e) h = h
  Move-stop mv h = ground (arith, guard mv)

  pub Move-exiting :
      {sh' : Shared} {w' : Worker}
      → Move domains d sh w sh' w'
      → sh.stop ≡ false
      → exiting w.stage ≡ 0
      → (sh'.stop ≡ false) × (exiting w'.stage ≡ 0)
  Move-exiting (wake_up e) h q = ground arith
  Move-exiting mv h q = ground (arith, guard mv)

  -- With the workers other than this one: the sleepers and those on the alert.
  pub Move-Guarded :
      {sh' : Shared} {w' : Worker} (i sleepers guards : ℕ)
      → i < domains
      → thieving w.stage ≤ sh.thief d
      → (exiting w.stage ≡ 1 → (sleepers ≡ 0) ⊎ (1 ≤ guards))
      → Guarded sh.active
          (sleepers + only i d (sleeping w.stage))
          (guards + alerts i d w + sh.thief i)
      → Move domains d sh w sh' w'
      → Guarded sh'.active
          (sleepers + only i d (sleeping w'.stage))
          (guards + alerts i d w' + sh'.thief i)
  Move-Guarded i sleepers guards l h x v (wake_up e) = ground arith
  Move-Guarded i sleepers guards l h x v (leave_stopping e) =
      let left : exiting w.stage ≡ 1 = ap exiting e in
      elim (x left) [
        | inl none_sleeps ↦ inr (inl (ground arith))
        | inr some_guard ↦ inr (inr (omega arith))
      ]
  Move-Guarded i sleepers guards l h x v mv = ground (arith, guard mv)
