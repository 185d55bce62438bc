-- ===== src/LazyPool/Inv.antt =====
-- The invariant of the pool.
use parallel_load_balancing.Common.{
  ℕ, ◌+◌, ◌≤◌, ◌<◌, ◌≡◌, ◌⊎◌, Bool, true, false, if◌then◌else◌, ltb, leb,
}
use parallel_load_balancing.LazyPool.{Worker, Closing, opened, notifying, joined, Pool}
use parallel_load_balancing.LazyPool.Weights.{
  thieving, working, sleeping, unheard, exiting, only, alerts, stranded, Guarded,
}
use parallel_load_balancing.LazyPool.Totals.{total}

-- The destructor has set the flag; it has yet to notify domain `i`; it has notified it.
abbrev pub closes : Closing → Bool
closes opened = false
closes (notifying j) = true
closes joined = true

abbrev pub calls : ℕ → Closing → ℕ
calls i opened = 0
calls i (notifying j) = if leb j i then 1 else 0
calls i joined = 0

abbrev pub passed : ℕ → Closing → Bool
passed i opened = false
passed i (notifying j) = ltb i j
passed i joined = true

module _ (home : ℕ → ℕ) (workers : ℕ) where
  abbrev pub thieves : (ℕ → Worker) → ℕ → ℕ
  thieves ws i = total (λ k. only i (home k) (thieving (ws k).stage)) workers

  abbrev pub actives : (ℕ → Worker) → ℕ
  actives ws = total (λ k. working (ws k).stage) workers

  abbrev pub sleepers : (ℕ → Worker) → ℕ → ℕ
  sleepers ws i = total (λ k. only i (home k) (sleeping (ws k).stage)) workers

  abbrev pub guards : (ℕ → Worker) → ℕ → ℕ
  guards ws i = total (λ k. alerts i (home k) (ws k)) workers

  abbrev pub strandeds : (ℕ → Worker) → ℕ → ℕ
  strandeds ws i = total (λ k. stranded i (home k) (ws k)) workers

  abbrev pub unheards : (ℕ → Worker) → ℕ → ℕ
  unheards ws i = total (λ k. only i (home k) (unheard (ws k).stage)) workers

  abbrev pub exits : (ℕ → Worker) → ℕ
  exits ws = total (λ k. exiting (ws k).stage) workers

  pub record Inv (domains : ℕ) (s : Pool) : Type 0 where
    pub thieves_counted : (i : ℕ) → s.shared.thief i ≡ thieves s.workers i
    pub actives_counted : s.shared.active ≡ actives s.workers
    pub guarded :
        (i : ℕ)
        → i < domains
        → Guarded s.shared.active
            (sleepers s.workers i)
            (calls i s.closing + guards s.workers i + s.shared.thief i)
    pub noticed : (i : ℕ) → (strandeds s.workers i ≡ 0) ⊎ (1 ≤ s.notices i)
    pub told : (i : ℕ) → passed i s.closing ≡ true → unheards s.workers i ≡ 0
    pub stopped : s.shared.stop ≡ closes s.closing
    pub staying : closes s.closing ≡ false → exits s.workers ≡ 0
