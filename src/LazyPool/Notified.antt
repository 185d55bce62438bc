-- ===== src/LazyPool/Notified.antt =====
-- What a notification changes in the numbers that the workers count for.
use parallel_load_balancing.Common.{
  ℕ, ◌≤◌, ◌≡◌, ◌≢◌, ◌⊎◌, inl, inr, refl, ap, ◌∙◌, Bool, true, false, arith, ◌==◌, if_intro,
  ℕ_discrete,
}
use parallel_load_balancing.Common.Family.{update, update_other, update_cases}
use parallel_load_balancing.LazyPool.{
  Stage, waking, asking, leaving, waiting, asleep, Worker, goto, heard, notify, notify_one,
  notify_all, Chosen, Pool,
}
use parallel_load_balancing.LazyPool.Weights.{
  thieving, working, sleeping, alert, rouses, unheard, deaf, exiting, only, alerts,
}
use parallel_load_balancing.LazyPool.Totals.{total-le, total-eq, total-zero, total-ge}
use parallel_load_balancing.LazyPool.Inv.{
  thieves, actives, sleepers, guards, strandeds, unheards, exits, Inv,
}

-- Nobody becomes or ceases to be a thief, active or exiting.
record Kept (st st' : Stage) : Type 0 where
  pub same_thieving : thieving st' ≡ thieving st
  pub same_working : working st' ≡ working st
  pub same_exiting : exiting st' ≡ exiting st
  pub fewer_sleeping : sleeping st' ≤ sleeping st
  pub more_alert : alert st ≤ alert st'
  pub fewer_unheard : unheard st' ≤ unheard st
  pub fewer_deaf : deaf st' ≤ deaf st

heard-Kept : (wakes : Bool) (st : Stage) → Kept st (heard wakes st)
heard-Kept wakes waking = ground arith
heard-Kept wakes (asleep b) = ground arith
heard-Kept wakes (waiting true) = ground arith
heard-Kept wakes (waiting false) = ground arith
heard-Kept wakes (leaving true) = ground arith
heard-Kept wakes (leaving false) = ground arith
heard-Kept wakes (asking true) = ground arith
heard-Kept wakes (asking false) = ground arith
heard-Kept wakes st = ground arith

heard-rouses : (i : ℕ) (wakes : Bool) (st : Stage) → rouses i (heard wakes st) ≡ rouses i st
heard-rouses i wakes waking = refl
heard-rouses i true (asleep b) = refl
heard-rouses i false (asleep b) = refl
heard-rouses i wakes st = refl

-- All are notified.
heard_all : (st : Stage) → (unheard (heard true st) ≡ 0) × (deaf (heard true st) ≡ 0)
heard_all waking = (refl, refl)
heard_all st = (refl, refl)

only-le : (i d : ℕ) {x y : ℕ} → x ≤ y → only i d x ≤ only i d y
only-le i d h = ground arith

module _ (home : ℕ → ℕ) (who : ℕ → Bool) (d : ℕ) (ws : ℕ → Worker) where
  notify-Kept : (k : ℕ) → Kept (ws k).stage (notify home who d ws k).stage
  notify-Kept k =
      if_intro (λ (w : Worker). Kept (ws k).stage w.stage) (home k == d)
        (λ _. heard-Kept (who k) (ws k).stage) (λ _. ground arith)

  notify-rouses : (i k : ℕ) → rouses i (notify home who d ws k).stage ≡ rouses i (ws k).stage
  notify-rouses i k =
      if_intro (λ (w : Worker). rouses i w.stage ≡ rouses i (ws k).stage) (home k == d)
        (λ _. heard-rouses i (who k) (ws k).stage) (λ _. refl)

  notify-queued : (k : ℕ) → (notify home who d ws k).queued ≡ (ws k).queued
  notify-queued k =
      if_intro (λ (w : Worker). w.queued ≡ (ws k).queued) (home k == d) (λ _. refl) (λ _. refl)

  module _ (workers : ℕ) where
    pub thieves-notify :
        (i : ℕ) → thieves home workers (notify home who d ws) i ≡ thieves home workers ws i
    thieves-notify i =
        total-eq _ _ workers (λ k l. ap (only i (home k)) (notify-Kept k).same_thieving)

    pub actives-notify : actives home workers (notify home who d ws) ≡ actives home workers ws
    actives-notify = total-eq _ _ workers (λ k l. (notify-Kept k).same_working)

    pub exits-notify : exits home workers (notify home who d ws) ≡ exits home workers ws
    exits-notify = total-eq _ _ workers (λ k l. (notify-Kept k).same_exiting)

    pub sleepers-notify :
        (i : ℕ) → sleepers home workers (notify home who d ws) i ≤ sleepers home workers ws i
    sleepers-notify i =
        total-le _ _ workers (λ k l. only-le i (home k) (notify-Kept k).fewer_sleeping)

    pub unheards-notify :
        (i : ℕ) → unheards home workers (notify home who d ws) i ≤ unheards home workers ws i
    unheards-notify i =
        total-le _ _ workers (λ k l. only-le i (home k) (notify-Kept k).fewer_unheard)

    pub guards-notify :
        (i : ℕ) → guards home workers ws i ≤ guards home workers (notify home who d ws) i
    guards-notify i =
        total-le _ _ workers
          (λ k l. omega (arith, only-le i (home k) (notify-Kept k).more_alert, notify-rouses i k))

    pub strandeds-notify :
        (i : ℕ) → strandeds home workers (notify home who d ws) i ≤ strandeds home workers ws i
    strandeds-notify i = total-le _ _ workers (λ k l.
        let fewer = only-le i (home k) (notify-Kept k).fewer_deaf in
        ground (arith, fewer, notify-queued k))

pub notify-Inv :
    (home : ℕ → ℕ) (who : ℕ → Bool) (d : ℕ) {workers domains : ℕ} {s : Pool}
    → Inv home workers domains s
    → Inv home workers domains (record s { workers = notify home who d s.workers })
notify-Inv home who d {workers} {s} v = record {
  thieves_counted =
      λ i. omega (arith, v.thieves_counted i, thieves-notify home who d s.workers workers i);
  actives_counted = omega (arith, v.actives_counted, actives-notify home who d s.workers workers);
  guarded = λ i l. ground (
    arith,
    v.guarded i l,
    sleepers-notify home who d s.workers workers i,
    guards-notify home who d s.workers workers i,
  );
  noticed = λ i. ground (arith, v.noticed i, strandeds-notify home who d s.workers workers i);
  told = λ i p. omega (arith, v.told i p, unheards-notify home who d s.workers workers i);
  stopped = v.stopped;
  staying = λ p. omega (arith, v.staying p, exits-notify home who d s.workers workers);
}

pub sleeping-le : (st : Stage) → sleeping st ≤ unheard st
sleeping-le waking = omega arith
sleeping-le (waiting true) = omega arith
sleeping-le (waiting false) = omega arith
sleeping-le st = omega arith

pub sleepers-le :
    (home : ℕ → ℕ) (workers : ℕ) (ws : ℕ → Worker) (i : ℕ)
    → sleepers home workers ws i ≤ unheards home workers ws i
sleepers-le home workers ws i =
    total-le _ _ workers (λ k l. only-le i (home k) (sleeping-le (ws k).stage))

-- `notify_all` leaves nobody of the domain unheard.
module _ (home : ℕ → ℕ) (workers d : ℕ) (ws : ℕ → Worker) where
  pub unheards-notify_all : unheards home workers (notify_all home d ws) d ≡ 0
  unheards-notify_all = total-zero _ workers (λ k l. elim (ℕ_discrete (home k) d) [
    | yes e ↦ ground (arith, e, (heard_all (ws k).stage).0)
    | no ne ↦ ground (arith, ne)
  ])

  pub strandeds-notify_all : strandeds home workers (notify_all home d ws) d ≡ 0
  strandeds-notify_all = total-zero _ workers (λ k l. elim (ℕ_discrete (home k) d) [
    | yes e ↦ ground (arith, e, (heard_all (ws k).stage).1)
    | no ne ↦ ground (arith, ne)
  ])

heard_one :
    (wakes : Bool) (st : Stage) → ((b : Bool) → st ≢ asleep b) → sleeping (heard wakes st) ≡ 0
heard_one wakes waking h = refl
heard_one wakes (asleep b) h = absurd (h b refl)
heard_one wakes st h = refl

-- `notify_one` by a worker that is then at `stage`: nobody of the domain sleeps, or the one that is
-- woken is on the alert.
pub notify_one-guards :
    (home : ℕ → ℕ) (workers d t c : ℕ) (ws : ℕ → Worker) (w : Worker)
    → Chosen home workers d ws c
    → ((b : Bool) → (ws t).stage ≢ asleep b)
    → sleeping w.stage ≡ 0
    → (sleepers home workers (update (notify_one home c d ws) t w) d ≡ 0)
      ⊎ (1 ≤ guards home workers (update (notify_one home c d ws) t w) d)
notify_one-guards home workers d t c ws w (inl (l, at, (b, asleep_c))) awake quiet =
    let after = update (notify_one home c d ws) t w in
    let apart : t ≢ c = λ e. awake b (ap (λ k. (ws k).stage) e ∙ asleep_c) in
    let kept : after c ≡ notify_one home c d ws c =
      update_other (notify_one home c d ws) t w apart in
    let roused : notify_one home c d ws c ≡ goto (ws c) (waiting true) =
      ground (arith, at, asleep_c) in
    let one : alerts d (home c) (after c) ≡ 1 =
      ap (alerts d (home c)) (kept ∙ roused) ∙ ground (arith, at) in
    inr (omega (arith, one, total-ge (λ k. alerts d (home k) (after k)) workers c l))
notify_one-guards home workers d t c ws w (inr nobody) awake quiet = inl (
    total-zero _ workers (λ k l.
      update_cases (notify_one home c d ws) t w
        (λ (u : Worker). only d (home k) (sleeping u.stage) ≡ 0) k (λ e. ground (arith, quiet))
        (λ ne. elim (ℕ_discrete (home k) d) [
          | yes e ↦ ground (arith, e, heard_one (c == k) (ws k).stage (nobody k l e))
          | no other ↦ ground (arith, other)
        ])))
