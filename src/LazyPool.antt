-- ===== src/LazyPool.antt =====
-- include/libfork/schedule/lazy_pool.hpp: the workers of `lf::lazy_pool`, each running `lazy_work`,
-- with `lazy_vars::thief_work_sleep`, the calls of `schedule` (include/libfork/core/ext/context.hpp)
-- and the destructor of the pool, in any interleaving; each access to a counter, to the flag or to
-- a list of submissions is a step. Of an event count (EventCount) a worker between `prepare_wait` and
-- the end of its wait keeps whether the epoch has moved on since its key was taken. Whether a steal
-- succeeds, how long a task runs and who submits are left open. The counters do not wrap, with fewer
-- than 2^64 workers.
mod Weights
mod Totals
mod Inv
mod Moves
mod Notified
mod Steps
mod Reachable
mod Safety
mod Shutdown
mod Tests
use parallel_load_balancing.Common.{
  ℕ, zero, suc, ◌+◌, ◌-◌, ◌≤◌, ◌<◌, ◌≡◌, ◌≢◌, ◌⊎◌, Bool, true, false, if◌then◌else◌, ◌==◌,
}
use parallel_load_balancing.Common.Family.{update}

-- Where a worker is in `lazy_work`. A Boolean says whether there has been a notification since
-- `prepare_wait`.
pub data Stage : Type 0 where
  waking : Stage
  searching : Stage
  stealing : Stage
  preparing : Stage
  prepared : (stale : Bool) → Stage
  asking : (stale : Bool) → Stage
  leaving : (stale : Bool) → Stage
  last : (stale : Bool) → Stage
  waiting : (stale : Bool) → Stage
  asleep : (stale : Bool) → Stage
  cancelling_work : Stage
  cancelling_stop : Stage
  cancelling_sleep : Stage
  found : Stage
  renotifying : Stage
  starting : Stage
  rousing : (domain : ℕ) → Stage
  rousing_notify : (domain : ℕ) → Stage
  running : Stage
  stopping_notify : Stage
  stopping_leave : Stage
  ending : Stage
  ended : Stage

-- A worker, with the number of submissions in its list.
pub record Worker : Type 0 where
  pub stage : Stage
  pub queued : ℕ

-- `lazy_vars`: the number of thieves of each domain, the number of actives and the flag.
pub record Shared : Type 0 where
  pub thief : ℕ → ℕ
  pub active : ℕ
  pub stop : Bool

abbrev pub goto : Worker → Stage → Worker
goto w stage = record { stage = stage; queued = w.queued }

abbrev pub add_thief : Shared → ℕ → Shared
add_thief sh d = record sh { thief = update sh.thief d (suc (sh.thief d)) }

-- `fetch_sub`.
abbrev pub sub_thief : Shared → ℕ → Shared
sub_thief sh d = record sh { thief = update sh.thief d (sh.thief d - 1) }

-- A step of a worker of domain `d` other than its notifications, of `domains` domains.
pub data Move (domains d : ℕ) (sh : Shared) (w : Worker) : Shared → Worker → Type 0 where
  wake_up : w.stage ≡ waking → Move domains d sh w (add_thief sh d) (goto w searching)
  pop_some :
      w.stage ≡ searching
      → 1 ≤ w.queued
      → Move domains d sh w sh (record { stage = found; queued = 0 })
  pop_none : w.stage ≡ searching → w.queued ≡ 0 → Move domains d sh w sh (goto w stealing)
  steal_some : w.stage ≡ stealing → Move domains d sh w sh (goto w found)
  steal_none : w.stage ≡ stealing → Move domains d sh w sh (goto w preparing)
  prepare_wait : w.stage ≡ preparing → Move domains d sh w sh (goto w (prepared false))
  pop_again :
      {b : Bool}
      → w.stage ≡ prepared b
      → 1 ≤ w.queued
      → Move domains d sh w sh (record { stage = cancelling_work; queued = 0 })
  pop_again_none :
      {b : Bool} → w.stage ≡ prepared b → w.queued ≡ 0 → Move domains d sh w sh (goto w (asking b))
  cancel_work : w.stage ≡ cancelling_work → Move domains d sh w sh (goto w found)
  test_stop :
      {b : Bool}
      → w.stage ≡ asking b
      → Move domains d sh w sh (goto w (if sh.stop then cancelling_stop else leaving b))
  cancel_stop : w.stage ≡ cancelling_stop → Move domains d sh w sh (goto w stopping_notify)
  leave :
      {b : Bool}
      → w.stage ≡ leaving b
      → Move domains d sh w
          (sub_thief sh d)
          (goto w (if sh.thief d == 1 then last b else waiting b))
  load_active :
      {b : Bool}
      → w.stage ≡ last b
      → Move domains d sh w sh (goto w (if sh.active == 0 then waiting b else cancelling_sleep))
  cancel_sleep : w.stage ≡ cancelling_sleep → Move domains d sh w sh (goto w waking)
  compare :
      {b : Bool}
      → w.stage ≡ waiting b
      → Move domains d sh w sh (goto w (if b then waking else asleep false))
  wake_spuriously : {b : Bool} → w.stage ≡ asleep b → Move domains d sh w sh (goto w (waiting b))
  -- `thief_work_sleep`.
  leave_found :
      w.stage ≡ found
      → Move domains d sh w
          (sub_thief sh d)
          (goto w (if sh.thief d == 1 then renotifying else starting))
  add_active :
      w.stage ≡ starting
      → Move domains d sh w
          (record sh { active = suc sh.active })
          (goto w (if sh.active == 0 then rousing 0 else running))
  load_thief :
      {j : ℕ}
      → w.stage ≡ rousing j
      → j < domains
      → Move domains d sh w sh
          (goto w (if sh.thief j == 0 then rousing_notify j else rousing (suc j)))
  roused_all : {j : ℕ} → w.stage ≡ rousing j → domains ≤ j → Move domains d sh w sh (goto w running)
  sub_active :
      w.stage ≡ running → Move domains d sh w (record sh { active = sh.active - 1 }) (goto w waking)
  -- The return, and what is deferred to it.
  leave_stopping : w.stage ≡ stopping_leave → Move domains d sh w (sub_thief sh d) (goto w ending)
  set_stop : w.stage ≡ ending → Move domains d sh w (record sh { stop = true }) (goto w ended)

-- The epoch moves on; a worker that sleeps is woken if it is among those that `notify` wakes.
abbrev pub heard : Bool → Stage → Stage
heard wakes (prepared b) = prepared true
heard wakes (asking b) = asking true
heard wakes (leaving b) = leaving true
heard wakes (last b) = last true
heard wakes (waiting b) = waiting true
heard wakes (asleep b) = if wakes then waiting true else asleep true
heard wakes stage = stage

-- The destructor: not called; about to notify a domain, after the flag is set; all threads joined.
pub data Closing : Type 0 where
  opened : Closing
  notifying : (domain : ℕ) → Closing
  joined : Closing

-- `notices` are the calls of `schedule` between the push and the notification, for each domain.
pub record Pool : Type 0 where
  pub shared : Shared
  pub workers : ℕ → Worker
  pub notices : ℕ → ℕ
  pub closing : Closing

-- After `latch_start`.
abbrev pub initial : Pool
initial = record {
  shared = record { thief = λ _. 0; active = 0; stop = false };
  workers = λ _. record { stage = waking; queued = 0 };
  notices = λ _. 0;
  closing = opened;
}

-- `home` is the domain of each worker.
module _ (home : ℕ → ℕ) where
  -- A notification in a domain, which wakes those that `who` says.
  abbrev pub notify : (ℕ → Bool) → ℕ → (ℕ → Worker) → ℕ → Worker
  notify who d ws = λ k. if home k == d then goto (ws k) (heard (who k) (ws k).stage) else ws k

  -- `notify_one` wakes a worker of the domain that sleeps, or nobody if nobody does.
  abbrev pub Chosen : ℕ → ℕ → (ℕ → Worker) → ℕ → Type 0
  Chosen workers d ws c =
      ((c < workers) × (home c ≡ d) × ((b : Bool) × ((ws c).stage ≡ asleep b)))
      ⊎ ((k : ℕ) → k < workers → home k ≡ d → (b : Bool) → (ws k).stage ≢ asleep b)

  abbrev pub notify_one : ℕ → ℕ → (ℕ → Worker) → ℕ → Worker
  notify_one c d ws = notify (λ k. c == k) d ws

  abbrev pub notify_all : ℕ → (ℕ → Worker) → ℕ → Worker
  notify_all d ws = notify (λ _. true) d ws

  -- One step, of one of `workers` workers, of a thread that submits, or of the one that closes the
  -- pool.
  pub data Step (workers domains : ℕ) (s : Pool) : Pool → Type 0 where
    move :
        (t : ℕ) {sh : Shared} {w : Worker}
        → t < workers
        → Move domains (home t) s.shared (s.workers t) sh w
        → Step workers domains s (record s { shared = sh; workers = update s.workers t w })
    notify_own :
        (t c : ℕ)
        → t < workers
        → (s.workers t).stage ≡ renotifying
        → Chosen workers (home t) s.workers c
        → Step workers domains s (record s {
          workers = update (notify_one c (home t) s.workers) t (goto (s.workers t) starting);
        })
    notify_domain :
        (t c : ℕ) {j : ℕ}
        → t < workers
        → (s.workers t).stage ≡ rousing_notify j
        → Chosen workers j s.workers c
        → Step workers domains s (record s {
          workers = update (notify_one c j s.workers) t (goto (s.workers t) (rousing (suc j)));
        })
    notify_stop :
        (t : ℕ)
        → t < workers
        → (s.workers t).stage ≡ stopping_notify
        → Step workers domains s (record s {
          workers = update (notify_all (home t) s.workers) t (goto (s.workers t) stopping_leave);
        })
    -- `schedule` on the `t`-th worker: the push, and the notification.
    submit :
        (t : ℕ)
        → t < workers
        → Step workers domains s (record s {
          workers =
              update s.workers t
                (record { stage = (s.workers t).stage; queued = suc (s.workers t).queued });
          notices = update s.notices (home t) (suc (s.notices (home t)));
        })
    notify_submitted :
        (d : ℕ)
        → 1 ≤ s.notices d
        → Step workers domains s (record s {
          workers = notify_all d s.workers;
          notices = update s.notices d (s.notices d - 1);
        })
    -- `~lazy_pool`.
    request_stop :
        s.closing ≡ opened
        → Step workers domains s
            (record s { shared = record s.shared { stop = true }; closing = notifying 0 })
    notify_closing :
        {j : ℕ}
        → s.closing ≡ notifying j
        → j < domains
        → Step workers domains s
            (record s { workers = notify_all j s.workers; closing = notifying (suc j) })
    join :
        s.closing ≡ notifying domains
        → ((t : ℕ) → t < workers → (s.workers t).stage ≡ ended)
        → Step workers domains s (record s { closing = joined })

  pub data Reach (workers domains : ℕ) : Pool → Type 0 where
    start : Reach workers domains initial
    step :
        {s t : Pool} → Reach workers domains s → Step workers domains s t → Reach workers domains t
