-- ===== src/LazyPool/Weights.antt =====
-- What a worker counts for: as a thief, as active, as one that sleeps without having been notified, as
-- one that will see to it that its domain has a thief, and so on.
use parallel_load_balancing.Common.{ℕ, ◌+◌, ◌≤◌, ◌≡◌, ◌⊎◌, true, false, if◌then◌else◌, ◌==◌, leb}
use parallel_load_balancing.LazyPool.{
  Stage, waking, searching, stealing, preparing, prepared, asking, leaving, last, waiting, asleep,
  cancelling_work, cancelling_stop, cancelling_sleep, found, renotifying, rousing, rousing_notify,
  running, stopping_notify, stopping_leave, ending, ended, Worker,
}

-- Between `fetch_add` and `fetch_sub` of the domain's counter.
abbrev pub thieving : Stage → ℕ
thieving searching = 1
thieving stealing = 1
thieving preparing = 1
thieving (prepared b) = 1
thieving (asking b) = 1
thieving (leaving b) = 1
thieving cancelling_work = 1
thieving cancelling_stop = 1
thieving found = 1
thieving stopping_notify = 1
thieving stopping_leave = 1
thieving stage = 0

-- Between `fetch_add` and `fetch_sub` of the counter of actives.
abbrev pub working : Stage → ℕ
working (rousing j) = 1
working (rousing_notify j) = 1
working running = 1
working stage = 0

-- In the wait, not notified or not woken.
abbrev pub sleeping : Stage → ℕ
sleeping (waiting false) = 1
sleeping (asleep b) = 1
sleeping stage = 0

-- About to become a thief, to notify its domain or to see whether anyone is active.
abbrev pub alert : Stage → ℕ
alert waking = 1
alert (last b) = 1
alert cancelling_sleep = 1
alert (waiting true) = 1
alert renotifying = 1
alert stage = 0

-- The first active, with the domain still to look at.
abbrev pub rouses : ℕ → Stage → ℕ
rouses i (rousing j) = if leb j i then 1 else 0
rouses i (rousing_notify j) = if leb j i then 1 else 0
rouses i stage = 0

-- Past the test of the flag, and not notified or not woken.
abbrev pub unheard : Stage → ℕ
unheard (leaving false) = 1
unheard (last false) = 1
unheard (waiting false) = 1
unheard (asleep b) = 1
unheard stage = 0

-- Past the second look at its list, and not notified or not woken.
abbrev pub deaf : Stage → ℕ
deaf (asking false) = 1
deaf stage = unheard stage

abbrev pub exiting : Stage → ℕ
exiting cancelling_stop = 1
exiting stopping_notify = 1
exiting stopping_leave = 1
exiting ending = 1
exiting ended = 1
exiting stage = 0

-- A weight that counts in the worker's own domain.
abbrev pub only : ℕ → ℕ → ℕ → ℕ
only i d x = if i == d then x else 0

abbrev pub alerts : ℕ → ℕ → Worker → ℕ
alerts i d w = only i d (alert w.stage) + rouses i w.stage

abbrev pub stranded : ℕ → ℕ → Worker → ℕ
stranded i d w = if w.queued == 0 then 0 else only i d (deaf w.stage)

-- Nobody is active, or nobody sleeps, or there is a thief or somebody on the alert.
abbrev pub Guarded : ℕ → ℕ → ℕ → Type 0
Guarded actives sleepers guards = (actives ≡ 0) ⊎ ((sleepers ≡ 0) ⊎ (1 ≤ guards))
