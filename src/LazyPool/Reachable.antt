-- ===== src/LazyPool/Reachable.antt =====
-- Every reachable state of the pool has the invariant.
use parallel_load_balancing.Common.{
  ℕ, suc, ◌+◌, ◌-◌, ◌≤◌, ◌<◌, ◌≡◌, inl, inr, refl, sym, ap, ◌∙◌, Bool, true, arith, ◌==◌,
  ℕ_discrete, if_intro,
}
use parallel_load_balancing.Common.Family.{update, update_other}
use parallel_load_balancing.LazyPool.{
  Stage, renotifying, starting, rousing, rousing_notify, stopping_notify, stopping_leave, ended,
  Worker, goto, heard, opened, notifying, joined, Pool, notify, notify_one, notify_all, Chosen,
  Step, move, notify_own, notify_domain, notify_stop, submit, notify_submitted, request_stop,
  notify_closing, join, Reach, start, step,
}
use parallel_load_balancing.LazyPool.Weights.{
  thieving, working, sleeping, alert, rouses, unheard, deaf, exiting, only, alerts, stranded,
  Guarded,
}
use parallel_load_balancing.LazyPool.Totals.{total-zero, total-update}
use parallel_load_balancing.LazyPool.Inv.{
  closes, calls, passed, sleepers, guards, strandeds, unheards, Inv,
}
use parallel_load_balancing.LazyPool.Notified.{
  notify-Inv, sleepers-le, unheards-notify_all, strandeds-notify_all, notify_one-guards,
}
use parallel_load_balancing.LazyPool.Steps.{Changed, update-Inv, move-Inv, exit_zero}

-- The notifier's own stage is not that of one who waits.
notify-stage :
    (home : ℕ → ℕ) (who : ℕ → Bool) (d : ℕ) (ws : ℕ → Worker) (t : ℕ) (st : Stage)
    → ((b : Bool) → heard b st ≡ st)
    → (ws t).stage ≡ st
    → (notify home who d ws t).stage ≡ st
notify-stage home who d ws t st fixed e =
    if_intro (λ (w : Worker). w.stage ≡ st) (home t == d)
      (λ _. ap (heard (who t)) e ∙ fixed (who t)) (λ _. e)

notify-queued :
    (home : ℕ → ℕ) (who : ℕ → Bool) (d : ℕ) (ws : ℕ → Worker) (t : ℕ)
    → (notify home who d ws t).queued ≡ (ws t).queued
notify-queued home who d ws t =
    if_intro (λ (w : Worker). w.queued ≡ (ws t).queued) (home t == d) (λ _. refl) (λ _. refl)

module _ {home : ℕ → ℕ} {workers domains : ℕ} {s : Pool} (v : Inv home workers domains s) where
  -- From a stage at which a worker has notified, to one that counts for the same but the alert.
  goto-Changed :
      (t : ℕ) (l : t < workers) (w : Worker)
      → thieving w.stage ≡ thieving (s.workers t).stage
      → working w.stage ≡ working (s.workers t).stage
      → unheard w.stage ≡ 0
      → deaf w.stage ≡ 0
      → (exiting (s.workers t).stage ≡ 0 → exiting w.stage ≡ 0)
      → Changed v t l s.shared w
  goto-Changed t l w a b c d e = record {
    steals = λ i. omega (arith, ap (only i (home t)) a);
    works = omega (arith, b);
    strands = λ i. ground (arith, d);
    hears = λ p i. ground (arith, c);
    stops = refl;
    stays = λ p. e (exit_zero v t l p);
  }

  -- In a domain for which the worker was not on the alert nothing is lost.
  goto-Guarded :
      (t : ℕ) (w : Worker) (i : ℕ)
      → t < workers
      → i < domains
      → sleeping w.stage ≡ 0
      → alerts i (home t) (s.workers t) ≤ alerts i (home t) w
      → Guarded s.shared.active
          (sleepers home workers (update s.workers t w) i)
          (calls i s.closing + guards home workers (update s.workers t w) i + s.shared.thief i)
  goto-Guarded t w i l q quiet alert_on = ground (
    arith,
    v.guarded i q,
    total-update (λ k u. only i (home k) (sleeping u.stage)) s.workers workers t w l,
    total-update (λ k u. alerts i (home k) u) s.workers workers t w l,
  )

  submit-Inv :
      (t : ℕ)
      → t < workers
      → Inv home workers domains (record s {
        workers =
            update s.workers t
              (record { stage = (s.workers t).stage; queued = suc (s.workers t).queued });
        notices = update s.notices (home t) (suc (s.notices (home t)));
      })
  submit-Inv t l =
      let w : Worker = record { stage = (s.workers t).stage; queued = suc (s.workers t).queued } in
      record {
        thieves_counted = λ i. omega (
          arith,
          v.thieves_counted i,
          total-update (λ k u. only i (home k) (thieving u.stage)) s.workers workers t w l,
        );
        actives_counted = omega (
          arith,
          v.actives_counted,
          total-update (λ k u. working u.stage) s.workers workers t w l,
        );
        guarded = λ i q. ground (
          arith,
          v.guarded i q,
          total-update (λ k u. only i (home k) (sleeping u.stage)) s.workers workers t w l,
          total-update (λ k u. alerts i (home k) u) s.workers workers t w l,
        );
        noticed = λ i. elim (ℕ_discrete i (home t)) [
          | yes e ↦ inr (ground (arith, e))
          | no ne ↦ ground (
            arith,
            ne,
            v.noticed i,
            total-update (λ k u. stranded i (home k) u) s.workers workers t w l,
          )
        ];
        told = λ i p. omega (
          arith,
          v.told i p,
          total-update (λ k u. only i (home k) (unheard u.stage)) s.workers workers t w l,
        );
        stopped = v.stopped;
        staying = λ p.
            omega
              (arith, v.staying p, total-update (λ k u. exiting u.stage) s.workers workers t w l);
      }

  request_stop-Inv :
      s.closing ≡ opened
      → Inv home workers domains
          (record s { shared = record s.shared { stop = true }; closing = notifying 0 })
  request_stop-Inv e = record {
    thieves_counted = v.thieves_counted;
    actives_counted = v.actives_counted;
    guarded = λ i q. inr (inr (ground arith));
    noticed = v.noticed;
    told = λ i p. ground (arith, p);
    stopped = refl;
    staying = λ p. absurd (ground (arith, p));
  }

  notify_submitted-Inv :
      (d : ℕ)
      → Inv home workers domains (record s {
        workers = notify_all home d s.workers;
        notices = update s.notices d (s.notices d - 1);
      })
  notify_submitted-Inv d =
      let u = notify-Inv home (λ _. true) d v in
      record {
        thieves_counted = u.thieves_counted;
        actives_counted = u.actives_counted;
        guarded = u.guarded;
        noticed = λ i. elim (ℕ_discrete d i) [
          | yes e ↦ inl (
              ap (strandeds home workers (notify_all home d s.workers)) (sym e)
              ∙ strandeds-notify_all home workers d s.workers)
          | no ne ↦ elim (u.noticed i) [
            | inl none_stranded ↦ inl none_stranded
            | inr some ↦ inr (omega (arith, some, update_other s.notices d (s.notices d - 1) ne))
          ]
        ];
        told = u.told;
        stopped = u.stopped;
        staying = u.staying;
      }

  notify_closing-Inv :
      {j : ℕ}
      → s.closing ≡ notifying j
      → Inv home workers domains
          (record s { workers = notify_all home j s.workers; closing = notifying (suc j) })
  notify_closing-Inv {j} e =
      let ws = notify_all home j s.workers in
      let u = notify-Inv home (λ _. true) j v in
      let gone = unheards-notify_all home workers j s.workers in
      record {
        thieves_counted = u.thieves_counted;
        actives_counted = u.actives_counted;
        guarded = λ i q. elim (ℕ_discrete j i) [
          | yes here ↦ inr (
              inl (
                omega
                  (arith, sleepers-le home workers ws i, ap (unheards home workers ws) here, gone)))
          | no ne ↦ ground (arith, ne, u.guarded i q, ap (calls i) e)
        ];
        noticed = u.noticed;
        told = λ i p. elim (ℕ_discrete j i) [
          | yes here ↦ ap (unheards home workers ws) (sym here) ∙ gone
          | no ne ↦ u.told i (ap (passed i) e ∙ ground (arith, ne, p))
        ];
        stopped = u.stopped ∙ ap closes e;
        staying = λ p. absurd (ground (arith, p));
      }

  join-Inv :
      s.closing ≡ notifying domains
      → ((t : ℕ) → t < workers → (s.workers t).stage ≡ ended)
      → Inv home workers domains (record s { closing = joined })
  join-Inv e all = record {
    thieves_counted = v.thieves_counted;
    actives_counted = v.actives_counted;
    guarded = λ i q. ground (arith, v.guarded i q, ap (calls i) e);
    noticed = v.noticed;
    told = λ i p.
        total-zero _ workers
          (λ k l. ap (λ st. only i (home k) (unheard st)) (all k l) ∙ ground arith);
    stopped = v.stopped ∙ ap closes e;
    staying = λ p. absurd (ground (arith, p));
  }

notify_own-Inv :
    {home : ℕ → ℕ} {workers domains : ℕ} {s : Pool} (t c : ℕ)
    → Inv home workers domains s
    → t < workers
    → (s.workers t).stage ≡ renotifying
    → Chosen home workers (home t) s.workers c
    → Inv home workers domains (record s {
      workers = update (notify_one home c (home t) s.workers) t (goto (s.workers t) starting);
    })
notify_own-Inv {home} {workers} {s} t c v l e chosen =
    let ws = notify_one home c (home t) s.workers in
    let u = notify-Inv home (λ k. c == k) (home t) v in
    let w = goto (s.workers t) starting in
    let at = notify-stage home (λ k. c == k) (home t) s.workers t renotifying (λ b. refl) e in
    let changed =
      goto-Changed u t l w (sym (ap thieving at)) (sym (ap working at)) refl refl (λ _. refl) in
    update-Inv u t l s.shared w changed (λ i q. elim (ℕ_discrete i (home t)) [
      | yes here ↦
          elim (notify_one-guards home workers (home t) t c s.workers w chosen
            (λ b h. ground (arith, e, h)) refl) [
              | inl quiet ↦ inr (inl (ap (sleepers home workers (update ws t w)) here ∙ quiet))
              | inr some ↦
                  inr (inr (omega (arith, ap (guards home workers (update ws t w)) here, some)))
            ]
      | no ne ↦ goto-Guarded u t w i l q refl (ground (arith, ne, ap (rouses i) at))
    ])

notify_domain-Inv :
    {home : ℕ → ℕ} {workers domains : ℕ} {s : Pool} (t c j : ℕ)
    → Inv home workers domains s
    → t < workers
    → (s.workers t).stage ≡ rousing_notify j
    → Chosen home workers j s.workers c
    → Inv home workers domains (record s {
      workers = update (notify_one home c j s.workers) t (goto (s.workers t) (rousing (suc j)));
    })
notify_domain-Inv {home} {workers} {s} t c j v l e chosen =
    let ws = notify_one home c j s.workers in
    let u = notify-Inv home (λ k. c == k) j v in
    let w = goto (s.workers t) (rousing (suc j)) in
    let at = notify-stage home (λ k. c == k) j s.workers t (rousing_notify j) (λ b. refl) e in
    let changed =
      goto-Changed u t l w (sym (ap thieving at)) (sym (ap working at)) refl refl (λ _. refl) in
    update-Inv u t l s.shared w changed (λ i q. elim (ℕ_discrete i j) [
      | yes here ↦
          elim (notify_one-guards home workers j t c s.workers w chosen
            (λ b h. ground (arith, e, h)) refl) [
              | inl quiet ↦ inr (inl (ap (sleepers home workers (update ws t w)) here ∙ quiet))
              | inr some ↦
                  inr (inr (omega (arith, ap (guards home workers (update ws t w)) here, some)))
            ]
      | no ne ↦ goto-Guarded u t w i l q refl (ground (arith, ne, ap (rouses i) at, ap alert at))
    ])

notify_stop-Inv :
    {home : ℕ → ℕ} {workers domains : ℕ} {s : Pool} (t : ℕ)
    → Inv home workers domains s
    → t < workers
    → (s.workers t).stage ≡ stopping_notify
    → Inv home workers domains (record s {
      workers = update (notify_all home (home t) s.workers) t (goto (s.workers t) stopping_leave);
    })
notify_stop-Inv {home} {s} t v l e =
    let u = notify-Inv home (λ _. true) (home t) v in
    let w = goto (s.workers t) stopping_leave in
    let at = notify-stage home (λ _. true) (home t) s.workers t stopping_notify (λ b. refl) e in
    let changed =
      goto-Changed u t l w (sym (ap thieving at)) (sym (ap working at)) refl refl
        (λ h. absurd (omega (arith, h, ap exiting at))) in
    update-Inv u t l s.shared w changed
      (λ i q. goto-Guarded u t w i l q refl (ground (arith, ap (rouses i) at, ap alert at)))

Step-Inv :
    {home : ℕ → ℕ} {workers domains : ℕ} {s s' : Pool}
    → Inv home workers domains s
    → Step home workers domains s s'
    → Inv home workers domains s'
Step-Inv v (move t l mv) = move-Inv v t l mv
Step-Inv v (notify_own t c l e chosen) = notify_own-Inv t c v l e chosen
Step-Inv v (notify_domain t c {j} l e chosen) = notify_domain-Inv t c j v l e chosen
Step-Inv v (notify_stop t l e) = notify_stop-Inv t v l e
Step-Inv v (submit t l) = submit-Inv v t l
Step-Inv v (notify_submitted d some) = notify_submitted-Inv v d
Step-Inv v (request_stop e) = request_stop-Inv v e
Step-Inv v (notify_closing e l) = notify_closing-Inv v e
Step-Inv v (join e all) = join-Inv v e all

pub Reach-Inv :
    {home : ℕ → ℕ} {workers domains : ℕ} {s : Pool}
    → Reach home workers domains s
    → Inv home workers domains s
Reach-Inv {home} {workers} start = record {
  thieves_counted = λ i. sym (total-zero _ workers (λ k l. ground arith));
  actives_counted = sym (total-zero _ workers (λ k l. refl));
  guarded = λ i l. inl refl;
  noticed = λ i. inl (total-zero _ workers (λ k l. refl));
  told = λ i p. absurd (ground (arith, p));
  stopped = refl;
  staying = λ p. total-zero _ workers (λ k l. refl);
}
Reach-Inv (step r h) = Step-Inv (Reach-Inv r) h
