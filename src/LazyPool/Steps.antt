-- ===== src/LazyPool/Steps.antt =====
-- Every step keeps the invariant of the pool.
use parallel_load_balancing.Common.{
  ℕ, ◌+◌, ◌-◌, ◌≤◌, ◌<◌, ◌≡◌, ◌⊎◌, inl, inr, refl, sym, ◌∙◌, true, false, arith, Bool-cases,
}
use parallel_load_balancing.Common.Family.{update}
use parallel_load_balancing.LazyPool.{
  Worker, Shared, Move, Closing, opened, notifying, joined, Pool,
}
use parallel_load_balancing.LazyPool.Weights.{
  thieving, working, sleeping, unheard, exiting, only, alerts, stranded, Guarded,
}
use parallel_load_balancing.LazyPool.Totals.{total-ge, total-update}
use parallel_load_balancing.LazyPool.Inv.{closes, calls, passed, sleepers, guards, Inv}
use parallel_load_balancing.LazyPool.Moves.{
  Move-thieving, Move-working, Move-stranded, Move-unheard, Move-stop, Move-exiting, Move-Guarded,
}
use parallel_load_balancing.LazyPool.Notified.{sleepers-le}

passed-closes : (i : ℕ) (c : Closing) → passed i c ≡ true → closes c ≡ true
passed-closes i opened h = h
passed-closes i (notifying j) h = refl
passed-closes i joined h = refl

-- Once the destructor has set the flag, a domain has been notified or is yet to be notified.
passed_or_called : (i : ℕ) (c : Closing) → closes c ≡ true → (passed i c ≡ true) ⊎ (1 ≤ calls i c)
passed_or_called i opened h = ground (arith, h)
passed_or_called i (notifying j) h = ground arith
passed_or_called i joined h = inl refl

module _ {home : ℕ → ℕ} {workers domains : ℕ} {s : Pool} (v : Inv home workers domains s) (t : ℕ)
    (l : t < workers) where
  -- A worker changes, with the shared variables.
  pub record Changed (sh : Shared) (w : Worker) : Type 0 where
    pub steals :
        (i : ℕ)
        → sh.thief i + only i (home t) (thieving (s.workers t).stage)
          ≡ s.shared.thief i + only i (home t) (thieving w.stage)
    pub works : sh.active + working (s.workers t).stage ≡ s.shared.active + working w.stage
    pub strands : (i : ℕ) → stranded i (home t) w ≤ stranded i (home t) (s.workers t)
    pub hears :
        s.shared.stop ≡ true
        → (i : ℕ)
        → only i (home t) (unheard w.stage) ≤ only i (home t) (unheard (s.workers t).stage)
    pub stops : sh.stop ≡ s.shared.stop
    pub stays : closes s.closing ≡ false → exiting w.stage ≡ 0

  pub update-Inv :
      (sh : Shared) (w : Worker)
      → Changed sh w
      → ((i : ℕ)
          → i < domains
          → Guarded sh.active
              (sleepers home workers (update s.workers t w) i)
              (calls i s.closing + guards home workers (update s.workers t w) i + sh.thief i))
      → Inv home workers domains (record s { shared = sh; workers = update s.workers t w })
  update-Inv sh w c g = record {
    thieves_counted = λ i. omega (
      arith,
      v.thieves_counted i,
      c.steals i,
      total-update (λ k u. only i (home k) (thieving u.stage)) s.workers workers t w l,
    );
    actives_counted = omega (
      arith,
      v.actives_counted,
      c.works,
      total-update (λ k u. working u.stage) s.workers workers t w l,
    );
    guarded = g;
    noticed = λ i. ground (
      arith,
      v.noticed i,
      c.strands i,
      total-update (λ k u. stranded i (home k) u) s.workers workers t w l,
    );
    told = λ i p. omega (
      arith,
      v.told i p,
      c.hears (v.stopped ∙ passed-closes i s.closing p) i,
      total-update (λ k u. only i (home k) (unheard u.stage)) s.workers workers t w l,
    );
    stopped = c.stops ∙ v.stopped;
    staying = λ p. omega (
      arith,
      v.staying p,
      c.stays p,
      total-update (λ k u. exiting u.stage) s.workers workers t w l,
    );
  }

  counted : thieving (s.workers t).stage ≤ s.shared.thief (home t)
  counted =
      let one = total-ge (λ k. only (home t) (home k) (thieving (s.workers k).stage)) workers t l in
      ground (arith, one, v.thieves_counted (home t))

  pub exit_zero : closes s.closing ≡ false → exiting (s.workers t).stage ≡ 0
  exit_zero p = omega (arith, v.staying p, total-ge (λ k. exiting (s.workers k).stage) workers t l)

  -- Whoever exits has seen the flag, so the destructor has notified the domain or will notify it.
  exit_guards :
      (i : ℕ)
      → exiting (s.workers t).stage ≡ 1
      → (sleepers home workers s.workers i ≡ 0) ⊎ (1 ≤ calls i s.closing)
  exit_guards i e = elim (Bool-cases (closes s.closing)) [
    | inr open_pool ↦ absurd (omega (arith, exit_zero open_pool, e))
    | inl closing ↦ elim (passed_or_called i s.closing closing) [
      | inl p ↦ inl (omega (arith, v.told i p, sleepers-le home workers s.workers i))
      | inr q ↦ inr q
    ]
  ]

  Move-Changed :
      {sh : Shared} {w : Worker} → Move domains (home t) s.shared (s.workers t) sh w → Changed sh w
  Move-Changed {sh} mv = record {
    steals = λ i. Move-thieving i counted mv;
    works =
        Move-working
          (omega
            (arith, v.actives_counted, total-ge (λ k. working (s.workers k).stage) workers t l))
          mv;
    strands = λ i. Move-stranded i mv;
    hears = λ p i. Move-unheard i p mv;
    stops = elim (Bool-cases s.shared.stop) [
      | inl p ↦ Move-stop mv p ∙ sym p
      | inr p ↦ (Move-exiting mv p (exit_zero (sym v.stopped ∙ p))).0 ∙ sym p
    ];
    stays = λ p. (Move-exiting mv (v.stopped ∙ p) (exit_zero p)).1;
  }

  pub move-Inv :
      {sh : Shared} {w : Worker}
      → Move domains (home t) s.shared (s.workers t) sh w
      → Inv home workers domains (record s { shared = sh; workers = update s.workers t w })
  move-Inv {sh} {w} mv = update-Inv sh w (Move-Changed mv) (λ i q.
      let others =
        sleepers home workers s.workers i - only i (home t) (sleeping (s.workers t).stage) in
      let guarding =
        calls i s.closing + (guards home workers s.workers i - alerts i (home t) (s.workers t)) in
      let a = total-ge (λ k. only i (home k) (sleeping (s.workers k).stage)) workers t l in
      let b = total-ge (λ k. alerts i (home k) (s.workers k)) workers t l in
      let exits : exiting (s.workers t).stage ≡ 1 → (others ≡ 0) ⊎ (1 ≤ guarding) =
        λ e. ground (arith, exit_guards i e) in
      let before : Guarded s.shared.active (others + only i (home t) (sleeping (s.workers t).stage))
          (guarding + alerts i (home t) (s.workers t) + s.shared.thief i) =
        ground (arith, v.guarded i q, a, b) in
      ground (
        arith,
        Move-Guarded i others guarding q counted exits before mv,
        a,
        b,
        total-update (λ k u. only i (home k) (sleeping u.stage)) s.workers workers t w l,
        total-update (λ k u. alerts i (home k) u) s.workers workers t w l,
      ))
