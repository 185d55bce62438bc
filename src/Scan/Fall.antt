-- ===== src/Scan/Fall.antt =====
-- `fall_sweep_impl`.
use parallel_load_balancing.Common.{
  ℕ, zero, suc, ◌+◌, ◌-◌, ◌≤◌, ◌<◌, ◌≡◌, refl, ap, ap₂, ◌∙◌, ◌⊎◌, ◌≢◌, inl, inr, Bool, arith, leb,
  leb→le, if_intro, ℕ_discrete,
}
use parallel_load_balancing.Common.Family.{update, update_self, update_other}
use parallel_load_balancing.Scan.{
  Interval, all, lhs, mid, rhs, l_child_of, r_child_of, Sweep, split, left_over, fork_join,
  fall_sweep_impl,
}
use parallel_load_balancing.Scan.Sums.{sum-split, scan_loop-outside, scan_loop-sum}
use parallel_load_balancing.Scan.ForkJoin.{fork_join_keeps, fork_join_both}
use parallel_load_balancing.Scan.Swept.{
  stop, stop-ge, stop-l_child_of, stop-r_child_of, total, IsScanned, IsScanned-join, Reduced,
  Reduced-local, Reduced-small, Reduced-big,
}

-- Where the loop of a chunk ends.
left_over-stop : (i : Interval) (b e : ℕ) → b < e → b + left_over i b e ≡ stop i e
left_over-stop all b e lt = omega (arith, lt)
left_over-stop rhs b e lt = omega (arith, lt)
left_over-stop lhs b e lt = omega (arith, lt)
left_over-stop mid b e lt = omega (arith, lt)

module _ {ℓ} {A : Type ℓ} (c : Sweep A) (n : 1 ≤ c.n) where
  pub fall_sweep_impl-outside :
      (fuel : ℕ) (i : Interval) (b e : ℕ) (s : ℕ → A) (j : ℕ)
      → b < e
      → (j < b) ⊎ (stop i e ≤ j)
      → fall_sweep_impl c fuel i b e s j ≡ s j
  unfolding fall_sweep_impl
  fall_sweep_impl-outside zero i b e s j lt out = refl
  fall_sweep_impl-outside (suc fuel) i b e s j lt out =
      let m = split b e in
      let left = fall_sweep_impl c fuel (l_child_of i) b m in
      let right = fall_sweep_impl c fuel (r_child_of i) m e in
      let v = c.bop (s (b - 1)) (s (m - 1)) in
      if_intro (λ (t : ℕ → A). t j ≡ s j) (leb (e - b) c.n)
        (λ h.
          scan_loop-outside c (left_over i b e) b (s (b - 1)) s j
            (ground (arith, out, left_over-stop i b e lt)))
        (λ h.
          let big : c.n < e - b = ground (arith, h) in
          let apart : m - 1 ≢ j = ground (arith, out, big, n, stop-ge i e) in
          fork_join_keeps left right (λ (t : ℕ → A). t j ≡ s j)
            (λ t p.
              fall_sweep_impl-outside fuel (l_child_of i) b m t j (omega (arith, big, n))
                (ground (arith, out, big, n, stop-ge i e, stop-l_child_of i m))
              ∙ p)
            (λ t p.
              fall_sweep_impl-outside fuel (r_child_of i) m e t j (omega (arith, big, n))
                (ground (arith, out, big, n, stop-r_child_of i e))
              ∙ p)
            (c.left_first b e) (update s (m - 1) v) (update_other s (m - 1) v apart))

module _ {ℓ} {A : Type ℓ} (c : Sweep A) (n : 1 ≤ c.n) (s₀ : ℕ → A)
    (assoc : (x y z : A) → c.bop (c.bop x y) z ≡ c.bop x (c.bop y z)) where
  -- What a task for [b, e) expects.
  abbrev pub Ready : Interval → ℕ → ℕ → (ℕ → A) → Type ℓ
  Ready i b e t = Reduced c s₀ t i b e × (t (b - 1) ≡ total c s₀ 0 b)

  -- Both halves and the last cell of the left one.
  IsScanned-halves :
      (i : Interval) (b e : ℕ) (t : ℕ → A)
      → 0 < split b e
      → IsScanned c s₀ b (split b e - 1) t
      → IsScanned c s₀ (split b e) (stop i e) t × (t (split b e - 1) ≡ total c s₀ 0 (split b e))
      → IsScanned c s₀ b (stop i e) t
  IsScanned-halves i b e t pos l (r, cell) =
      let m = split b e in
      IsScanned-join c s₀ t b m (stop i e)
        (λ j p q. elim (ℕ_discrete j (m - 1)) [
          | yes at ↦
              ap t at ∙ cell ∙ ap (total c s₀ 0) (let up : m ≡ suc j = omega (arith, at, pos) in up)
          | no ne ↦ l j p (omega (arith, ne, q))
        ])
        r

  -- A task whose left half has what it needs below the split, and whose right half is reduced.
  pub fall_join :
      (i : Interval) (b e : ℕ) (left right : (ℕ → A) → ℕ → A) (Pl : (ℕ → A) → Type ℓ)
      → 0 < split b e
      → split b e < e
      → ((t t' : ℕ → A) → ((j : ℕ) → j < split b e → t' j ≡ t j) → Pl t → Pl t')
      → ((t : ℕ → A) (j : ℕ) → (j < b) ⊎ (split b e - 1 ≤ j) → left t j ≡ t j)
      → ((t : ℕ → A) (j : ℕ) → (j < split b e) ⊎ (stop i e ≤ j) → right t j ≡ t j)
      → ((t : ℕ → A) → Pl t → IsScanned c s₀ b (split b e - 1) (left t))
      → ((t : ℕ → A)
          → Ready (r_child_of i) (split b e) e t
          → IsScanned c s₀ (split b e) (stop i e) (right t))
      → (first : Bool) (s : ℕ → A) → Pl s
      → Ready (r_child_of i) (split b e) e s
      → IsScanned c s₀ b (stop i e) (fork_join first left right s)
  fall_join i b e left right Pl below high local out_l out_r do_l do_r first s pl pr =
      let m = split b e in
      let (l, r) =
        fork_join_both left right Pl (IsScanned c s₀ b (m - 1)) (Ready (r_child_of i) m e)
          (λ t. IsScanned c s₀ m (stop i e) t × (t (m - 1) ≡ total c s₀ 0 m)) do_l
          (λ t (tree, cell).
            (do_r t (tree, cell), out_r t (m - 1) (inl (omega (arith, below))) ∙ cell))
          (λ t (tree, cell). (
            Reduced-local c s₀ t (left t) (r_child_of i) m e high n
                (λ j p q. out_l t j (inr (omega (arith, p)))) tree,
            out_l t (m - 1) (inr (omega arith)) ∙ cell,
          ))
          (λ t (done, cell). (
            λ j p q. out_l t j (inr (omega (arith, p))) ∙ done j p q,
            out_l t (m - 1) (inr (omega arith)) ∙ cell,
          ))
          (λ t p. local t (right t) (λ j q. out_r t j (inl q)) p)
          (λ t done j p q. out_r t j (inl (omega (arith, q))) ∙ done j p q) first s pl pr in
      IsScanned-halves i b e (fork_join first left right s) below l r

  pub fall_sweep_impl-IsScanned :
      (fuel : ℕ) (i : Interval) (b e : ℕ) (s : ℕ → A)
      → b < e
      → 0 < b
      → e - b ≤ fuel
      → Ready i b e s
      → IsScanned c s₀ b (stop i e) (fall_sweep_impl c fuel i b e s)
  unfolding fall_sweep_impl
  fall_sweep_impl-IsScanned zero i b e s lt pos enough pre = absurd (omega (arith, lt, enough))
  fall_sweep_impl-IsScanned (suc fuel) i b e s lt pos enough (tree, cell) =
      let m = split b e in
      let left = fall_sweep_impl c fuel (l_child_of i) b m in
      let right = fall_sweep_impl c fuel (r_child_of i) m e in
      let v = c.bop (s (b - 1)) (s (m - 1)) in
      if_intro (IsScanned c s₀ b (stop i e)) (leb (e - b) c.n)
        (λ h j p q.
          let fresh = Reduced-small c s₀ s i b e (leb→le _ _ h) tree in
          scan_loop-sum c s₀ assoc (left_over i b e) b (s (b - 1)) s j pos cell
            (λ k l r. fresh k l (omega (arith, r, left_over-stop i b e lt))) p
            (omega (arith, q, left_over-stop i b e lt)))
        (λ h.
          let big : c.n < e - b = ground (arith, h) in
          let low : b < m = omega (arith, big, n) in
          let high : m < e = omega (arith, big, n) in
          let (lt_tree, at, rt_tree) = Reduced-big c s₀ s i b e big tree in
          let here = update s (m - 1) v in
          let other = λ (j : ℕ) (ne : m - 1 ≢ j). update_other s (m - 1) v ne in
          let stop_left = stop-l_child_of i m in
          let stop_right = stop-r_child_of i e in
          fall_join i b e left right (Ready (l_child_of i) b m) (omega (arith, low)) high
            (λ t t' same (tree', cell'). (
              Reduced-local c s₀ t t' (l_child_of i) b m low n
                  (λ j p q. same j (omega (arith, q, stop_left))) tree',
              same (b - 1) (omega (arith, low, pos)) ∙ cell',
            ))
            (λ t j out.
              fall_sweep_impl-outside c n fuel (l_child_of i) b m t j low
                (ground (arith, out, stop_left)))
            (λ t j out.
              fall_sweep_impl-outside c n fuel (r_child_of i) m e t j high
                (ground (arith, out, stop_right)))
            (λ t p j l r.
              fall_sweep_impl-IsScanned fuel (l_child_of i) b m t low pos
                (omega (arith, big, n, enough)) p j l (omega (arith, r, stop_left)))
            (λ t p j l r.
              fall_sweep_impl-IsScanned fuel (r_child_of i) m e t high (omega (arith, low))
                (omega (arith, big, n, enough)) p j l (omega (arith, r, stop_right)))
            (c.left_first b e) here
            (
              Reduced-local c s₀ s here (l_child_of i) b m low n
                  (λ j p q. other j (λ o. omega (arith, o, q, stop_left))) lt_tree,
              other (b - 1) (λ o. omega (arith, o, low, pos)) ∙ cell,
            )
            (
              Reduced-local c s₀ s here (r_child_of i) m e high n
                  (λ j p q. other j (λ o. omega (arith, o, p, low))) rt_tree,
              update_self s (m - 1) v
                  ∙ ap₂ c.bop cell at
                  ∙ sum-split c.bop (λ j. c.read j (s₀ j)) assoc 0 b m pos low,
            ))
