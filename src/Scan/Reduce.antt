-- ===== src/Scan/Reduce.antt =====
-- `rise_sweep` for the operation `fold`.
use parallel_load_balancing.Common.{
  ℕ, zero, suc, ◌+◌, ◌-◌, ◌≤◌, ◌<◌, ◌≡◌, refl, sym, ap, ap₂, ◌∙◌, ◌⊎◌, ◌≢◌, inl, inr, true, arith,
  leb, leb→le, if_intro,
}
use parallel_load_balancing.Common.Family.{update_self, update_other}
use parallel_load_balancing.Scan.{
  Interval, l_child_of, r_child_of, has_right, Sweep, split, fold_chunk, restore, fork_join,
  store_last, rise_fold,
}
use parallel_load_balancing.Scan.Sums.{sum_one, sum-split, fold_loop-sum}
use parallel_load_balancing.Scan.ForkJoin.{fork_join_keeps, fork_join_both}
use parallel_load_balancing.Scan.Swept.{
  stop, stop-le, stop-ge, stop-has_right, stop-r_child_of, l_child_of-has_right,
  r_child_of-has_right, total, IsFresh, Reduced, leaf, node, Reduced-local,
}

module _ {ℓ} {A : Type ℓ} (i : Interval) (e : ℕ) (v : A) (s : ℕ → A) where
  pub store_last-other : (j : ℕ) → (has_right i ≡ true → e - 1 ≢ j) → store_last i e v s j ≡ s j
  store_last-other j ne =
      if_intro (λ (t : ℕ → A). t j ≡ s j) (has_right i) (λ h. update_other s (e - 1) v (ne h))
        (λ h. refl)

  pub store_last-inside : (j : ℕ) → j < stop i e → store_last i e v s j ≡ s j
  store_last-inside j lt = store_last-other j (λ h q. omega (arith, lt, q, stop-has_right i e h))

  pub store_last-last : has_right i ≡ true → store_last i e v s (e - 1) ≡ v
  store_last-last h = rw h (update_self s (e - 1) v)

module _ {ℓ} {A : Type ℓ} (c : Sweep A) (n : 1 ≤ c.n) where
  pub rise_fold-outside :
      (fuel : ℕ) (i : Interval) (b e : ℕ) (s : ℕ → A) (j : ℕ)
      → b < e
      → (j < b) ⊎ (e ≤ j)
      → rise_fold c fuel i b e s j ≡ s j
  unfolding rise_fold
  rise_fold-outside zero i b e s j lt out = refl
  rise_fold-outside (suc fuel) i b e s j lt out =
      let m = split b e in
      let left = rise_fold c fuel (l_child_of i) b m in
      let right = rise_fold c fuel (r_child_of i) m e in
      let joined = fork_join (c.left_first b e) left right s in
      let ne : e - 1 ≢ j = ground (arith, lt, out) in
      if_intro (λ (t : ℕ → A). t j ≡ s j) (leb (e - b) c.n)
        (λ h. store_last-other i e _ s j (λ _. ne))
        (λ h.
          let big : c.n < e - b = ground (arith, h) in
          store_last-other i e _ joined j (λ _. ne)
          ∙ fork_join_keeps left right (λ (t : ℕ → A). t j ≡ s j)
              (λ t p.
                rise_fold-outside fuel (l_child_of i) b m t j (omega (arith, big, n))
                  (ground (arith, out, big))
                ∙ p)
              (λ t p.
                rise_fold-outside fuel (r_child_of i) m e t j (omega (arith, big, n))
                  (ground (arith, out, big))
                ∙ p)
              (c.left_first b e) s refl)

module _ {ℓ} {A : Type ℓ} (c : Sweep A) (n : 1 ≤ c.n) (s₀ : ℕ → A)
    (assoc : (x y z : A) → c.bop (c.bop x y) z ≡ c.bop x (c.bop y z)) where
  -- What a task for [b, e) leaves behind.
  abbrev pub IsReduced : Interval → ℕ → ℕ → (ℕ → A) → Type ℓ
  IsReduced i b e t = Reduced c s₀ t i b e × (has_right i ≡ true → t (e - 1) ≡ total c s₀ b e)

  fold_chunk-IsReduced :
      (i : Interval) (b e : ℕ) (s : ℕ → A)
      → b < e
      → e - b ≤ c.n
      → IsFresh c s₀ b e s
      → IsReduced i b e (fold_chunk c i b e s)
  fold_chunk-IsReduced i b e s lt small fresh =
      let start = ap (c.read b) (fresh b (omega arith) lt) in
      let at_end : suc b + (e - b - 1) ≡ e = omega (arith, lt) in
      (
        leaf small
            (λ j l r. store_last-inside i e _ s j r ∙ fresh j l (omega (arith, r, stop-le i e))),
        λ h.
            store_last-last i e _ s h
            ∙ fold_loop-sum c s₀ assoc (e - b - 1) b (suc b) _ s (omega arith)
                (start ∙ sym (sum_one c.bop (λ j. c.read j (s₀ j)) b (suc b) refl))
                (λ k l r. fresh k (omega (arith, l)) (omega (arith, r, lt)))
            ∙ ap (total c s₀ b) at_end,
      )

  pub IsReduced-local :
      (i : Interval) (b e : ℕ) (s t : ℕ → A)
      → b < e
      → ((j : ℕ) → b ≤ j → j < e → t j ≡ s j)
      → IsReduced i b e s
      → IsReduced i b e t
  IsReduced-local i b e s t lt same (tree, last) = (
    Reduced-local c s₀ s t i b e lt n (λ j p q. same j p (omega (arith, q, stop-le i e))) tree,
    λ h. same (e - 1) (omega (arith, lt)) (omega (arith, lt)) ∙ last h,
  )

  -- The last cell of a range takes in the reduction of the left half.
  restore-IsReduced :
      (i : Interval) (b e : ℕ) (s : ℕ → A)
      → b < e
      → c.n < e - b
      → IsReduced (l_child_of i) b (split b e) s
      → IsReduced (r_child_of i) (split b e) e s
      → IsReduced i b e (restore c i (split b e) e s)
  restore-IsReduced i b e s lt big l r =
      let m = split b e in
      let low : b < m = omega (arith, big, n) in
      let high : m < e = omega (arith, big, n) in
      let left_last = l.1 (l_child_of-has_right i) in
      (
        node big
            (Reduced-local c s₀ s _ (l_child_of i) b m low n
              (λ j p q.
                store_last-inside i e _ s j
                  (omega (arith, q, high, stop-le (l_child_of i) m, stop-ge i e)))
              l.0)
            (store_last-inside i e _ s (m - 1) (omega (arith, low, high, stop-ge i e)) ∙ left_last)
            (Reduced-local c s₀ s _ (r_child_of i) m e high n
              (λ j p q. store_last-inside i e _ s j (omega (arith, q, stop-r_child_of i e))) r.0),
        λ h.
            store_last-last i e _ s h
            ∙ ap₂ c.bop left_last (r.1 (r_child_of-has_right i ∙ h))
            ∙ sum-split c.bop (λ j. c.read j (s₀ j)) assoc b m e low high,
      )

  pub rise_fold-IsReduced :
      (fuel : ℕ) (i : Interval) (b e : ℕ) (s : ℕ → A)
      → b < e
      → e - b ≤ fuel
      → IsFresh c s₀ b e s
      → IsReduced i b e (rise_fold c fuel i b e s)
  unfolding rise_fold
  rise_fold-IsReduced zero i b e s lt enough fresh = absurd (omega (arith, lt, enough))
  rise_fold-IsReduced (suc fuel) i b e s lt enough fresh =
      let m = split b e in
      let left = rise_fold c fuel (l_child_of i) b m in
      let right = rise_fold c fuel (r_child_of i) m e in
      let joined = fork_join (c.left_first b e) left right s in
      if_intro (IsReduced i b e) (leb (e - b) c.n)
        (λ h. fold_chunk-IsReduced i b e s lt (leb→le _ _ h) fresh)
        (λ h.
          let big : c.n < e - b = ground (arith, h) in
          let low : b < m = omega (arith, big, n) in
          let high : m < e = omega (arith, big, n) in
          let (l, r) =
            fork_join_both left right (IsFresh c s₀ b m) (IsReduced (l_child_of i) b m)
              (IsFresh c s₀ m e) (IsReduced (r_child_of i) m e)
              (λ t p.
                rise_fold-IsReduced fuel (l_child_of i) b m t low (omega (arith, big, n, enough)) p)
              (λ t p.
                rise_fold-IsReduced fuel (r_child_of i) m e t high (omega (arith, big, n, enough))
                  p)
              (λ t p j l r. rise_fold-outside c n fuel (l_child_of i) b m t j low (inr l) ∙ p j l r)
              (λ t p.
                IsReduced-local (r_child_of i) m e t (left t) high
                  (λ j l r. rise_fold-outside c n fuel (l_child_of i) b m t j low (inr l)) p)
              (λ t p j l r.
                rise_fold-outside c n fuel (r_child_of i) m e t j high (inl r) ∙ p j l r)
              (λ t p.
                IsReduced-local (l_child_of i) b m t (right t) low
                  (λ j l r. rise_fold-outside c n fuel (r_child_of i) m e t j high (inl r)) p)
              (c.left_first b e) s (λ j p q. fresh j p (omega (arith, q, high)))
              (λ j p q. fresh j (omega (arith, p, low)) q) in
          restore-IsReduced i b e joined lt big l r)
