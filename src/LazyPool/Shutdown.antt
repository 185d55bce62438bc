-- ===== src/LazyPool/Shutdown.antt =====
-- The end of the workers' loops, once the destructor has notified all the domains.
use parallel_load_balancing.Common.{ℕ, suc, Option, some, none, ◌+◌, ◌-◌, ◌*◌, ◌<◌, ◌≡◌, ◌⊎◌}
use parallel_load_balancing.LazyPool.{
  Stage, waking, searching, stealing, preparing, prepared, asking, leaving, last, waiting, asleep,
  cancelling_work, cancelling_stop, cancelling_sleep, found, renotifying, starting, rousing,
  rousing_notify, running, stopping_notify, stopping_leave, ending, ended, Pool, Step, move,
  notify_own, notify_domain, notify_stop, submit, notify_submitted, request_stop, notify_closing,
  join,
}

-- The most steps of its own that a worker takes to its end, if it finds no more work and no domain
-- is left out.
abbrev pub rank : ℕ → Stage → ℕ
rank domains ended = 0
rank domains ending = 1
rank domains stopping_leave = 2
rank domains stopping_notify = 3
rank domains cancelling_stop = 4
rank domains (asking b) = 5
rank domains (prepared b) = 6
rank domains preparing = 7
rank domains stealing = 8
rank domains searching = 9
rank domains waking = 10
rank domains cancelling_sleep = 11
rank domains (waiting b) = 11
rank domains (asleep b) = 12
rank domains (last b) = 12
rank domains (leaving b) = 13
rank domains running = 11
rank domains (rousing j) = 12 + 2 * (domains - j)
rank domains (rousing_notify j) = 13 + 2 * (domains - suc j)
rank domains starting = 13 + 2 * domains
rank domains renotifying = 14 + 2 * domains
rank domains found = 15 + 2 * domains
rank domains cancelling_work = 16 + 2 * domains

-- Work is found, or the rank is lower.
abbrev pub Advances : ℕ → Stage → Stage → Type 0
Advances domains before after =
    (after ≡ found) ⊎ ((after ≡ cancelling_work) ⊎ (rank domains after < rank domains before))

-- The worker that takes the step; none, if another thread does.
abbrev pub taken_by :
    {home : ℕ → ℕ} {workers domains : ℕ} {s s' : Pool} → Step home workers domains s s' → Option ℕ
taken_by (move t l mv) = some t
taken_by (notify_own t c l e ch) = some t
taken_by (notify_domain t c l e ch) = some t
taken_by (notify_stop t l e) = some t
taken_by (submit t l) = none
taken_by (notify_submitted d n) = none
taken_by (request_stop e) = none
taken_by (notify_closing e l) = none
taken_by (join e ends) = none
