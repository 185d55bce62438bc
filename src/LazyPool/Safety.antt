-- ===== src/LazyPool/Safety.antt =====
-- What holds of the pool in every interleaving.
use parallel_load_balancing.Common.{ℕ, ◌≤◌, ◌<◌, ◌≡◌, ◌⊎◌, ap, ◌∙◌, true, arith}
use parallel_load_balancing.LazyPool.{notifying, Pool, Reach}
use parallel_load_balancing.LazyPool.Weights.{unheard, deaf, only, stranded}
use parallel_load_balancing.LazyPool.Totals.{total-ge}
use parallel_load_balancing.LazyPool.Inv.{calls, passed, thieves, actives, sleepers, guards}
use parallel_load_balancing.LazyPool.Reachable.{Reach-Inv}

module _ {home : ℕ → ℕ} {workers domains : ℕ} {s : Pool} (r : Reach home workers domains s) where
  -- In every interleaving the counter of thieves of a domain is the number of its workers between
  -- waking up and leaving the thieves, and the counter of actives that of the workers between
  -- becoming active and the end of their task.
  pub counters-count :
      ((i : ℕ) → s.shared.thief i ≡ thieves home workers s.workers i)
      × (s.shared.active ≡ actives home workers s.workers)
  counters-count = ((Reach-Inv r).thieves_counted, (Reach-Inv r).actives_counted)

  -- In every interleaving, while the counter of actives is not zero and a worker of a domain sleeps
  -- without having been woken, the domain's counter of thieves is not zero, or a worker is about to
  -- become a thief there, to notify it or to look at the counters for it, or the destructor is about
  -- to notify it.
  pub awake_while_active :
      (i : ℕ)
      → i < domains
      → 1 ≤ s.shared.active
      → 1 ≤ sleepers home workers s.workers i
      → (1 ≤ s.shared.thief i) ⊎ ((1 ≤ guards home workers s.workers i) ⊎ (1 ≤ calls i s.closing))
  awake_while_active i l a b = ground (arith, (Reach-Inv r).guarded i l)

  -- In every interleaving a worker with submissions that is past its second look at them, and
  -- neither notified since it has prepared to wait nor woken, is in a domain that a call of
  -- schedule is about to notify.
  pub submitted-notices :
      (t : ℕ)
      → t < workers
      → 1 ≤ (s.workers t).queued
      → deaf (s.workers t).stage ≡ 1
      → 1 ≤ s.notices (home t)
  submitted-notices t l q e =
      let one = total-ge (λ k. stranded (home t) (home k) (s.workers k)) workers t l in
      ground (arith, (Reach-Inv r).noticed (home t), one)

  -- Once the destructor has notified all the domains, no worker of any domain sleeps or can go to
  -- sleep without testing the flag.
  pub told_all :
      (t : ℕ)
      → t < workers
      → home t < domains
      → s.closing ≡ notifying domains
      → unheard (s.workers t).stage ≡ 0
  told_all t l h e =
      let one = total-ge (λ k. only (home t) (home k) (unheard (s.workers k).stage)) workers t l in
      let p : passed (home t) s.closing ≡ true = ap (passed (home t)) e ∙ ground arith in
      ground (arith, (Reach-Inv r).told (home t) p, one)
