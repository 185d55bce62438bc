-- ===== src/Scan/Rise.antt =====
-- `rise_sweep` for the operation `scan`.
use parallel_load_balancing.Common.{
  ℕ, zero, suc, ◌-◌, ◌≤◌, ◌<◌, ◌≡◌, refl, sym, ap, ap₂, ◌∙◌, ◌⊎◌, ◌≢◌, inl, true, false, ◌&&◌, ◌==◌,
  arith, leb, if_intro, ℕ_discrete,
}
use parallel_load_balancing.Common.Family.{update, update_self, update_other}
use parallel_load_balancing.Scan.{
  Interval, l_child_of, r_child_of, has_left, has_right, Sweep, split, fork_join, scan_chunk,
  restore, rise_fold, rise_scan,
}
use parallel_load_balancing.Scan.Sums.{sum_one, sum-split, scan_loop-sum, scan_loop-outside}
use parallel_load_balancing.Scan.ForkJoin.{fork_join_keeps}
use parallel_load_balancing.Scan.Reduce.{
  store_last-other, store_last-inside, store_last-last, rise_fold-outside, IsReduced,
}
use parallel_load_balancing.Scan.Swept.{
  stop-ge, stop-r_child_of, l_child_of-has_right, r_child_of-has_right, total, IsFresh, IsScanned,
  IsScanned-join, Reduced-local, Partial, whole, left_part, left_whole, right_part, Partial-local,
  Partial-end,
}

module _ {ℓ} {A : Type ℓ} (c : Sweep A) where
  scan_chunk-outside :
      (i : Interval) (b e : ℕ) (s : ℕ → A) (j : ℕ)
      → b < e
      → (j < b) ⊎ (e ≤ j)
      → scan_chunk c i b e s j ≡ s j
  scan_chunk-outside i b e s j lt out =
      let v = c.read b (s b) in
      let ne : b ≢ j = ground (arith, out, lt) in
      if_intro (λ (t : ℕ → A). t j ≡ s j) (has_left i)
        (λ h. scan_loop-outside c (e - b) b (s (b - 1)) s j (ground (arith, out, lt)))
        (λ h.
          scan_loop-outside c (e - b - 1) (suc b) v (update s b v) j (ground (arith, out, lt))
          ∙ update_other s b v ne)

module _ {ℓ} {A : Type ℓ} (c : Sweep A) (n : 1 ≤ c.n) where
  pub rise_scan-outside :
      (fuel : ℕ) (i : Interval) (b e : ℕ) (s : ℕ → A) (j : ℕ)
      → b < e
      → (j < b) ⊎ (e ≤ j)
      → (rise_scan c fuel i b e s).0 j ≡ s j
  unfolding rise_scan
  rise_scan-outside zero i b e s j lt out = refl
  rise_scan-outside (suc fuel) i b e s j lt out =
      let m = split b e in
      let left = rise_scan c fuel (l_child_of i) b m in
      let right = rise_fold c fuel (r_child_of i) m e in
      let joined = fork_join (c.left_first b e) (λ p. left p.0) (λ p. (right p.0, p.1)) (s, b) in
      let ne : e - 1 ≢ j = ground (arith, lt, out) in
      let P = λ (p : (ℕ → A) × ℕ). p.0 j ≡ s j in
      if_intro P (leb (e - b) c.n) (λ h. scan_chunk-outside c i b e s j lt out)
        (λ h.
          let big : c.n < e - b = ground (arith, h) in
          let low : b < m = omega (arith, big, n) in
          let high : m < e = omega (arith, big, n) in
          let at_left = λ (t : ℕ → A).
            rise_scan-outside fuel (l_child_of i) b m t j low (ground (arith, out, high)) in
          if_intro P (c.ready b e && ((left s).1 == m))
            (λ g.
              rise_scan-outside fuel (r_child_of i) m e (left s).0 j high (ground (arith, out, low))
              ∙ at_left s)
            (λ g.
              store_last-other i e _ joined.0 j (λ _. ne)
              ∙ fork_join_keeps (λ p. left p.0) (λ p. (right p.0, p.1)) P (λ p q. at_left p.0 ∙ q)
                  (λ p q.
                    rise_fold-outside c n fuel (r_child_of i) m e p.0 j high
                      (ground (arith, out, low))
                    ∙ q)
                  (c.left_first b e) (s, b) refl))

module _ {ℓ} {A : Type ℓ} (c : Sweep A) (n : 1 ≤ c.n) (s₀ : ℕ → A)
    (assoc : (x y z : A) → c.bop (c.bop x y) z ≡ c.bop x (c.bop y z)) where
  -- What a task for a range that starts at b expects: the scan of what is left of it, if anything.
  abbrev pub Starts : Interval → ℕ → (ℕ → A) → Type ℓ
  Starts i b t =
      (has_left i ≡ true → (0 < b) × (t (b - 1) ≡ total c s₀ 0 b)) × (has_left i ≡ false → b ≡ 0)

  -- What it leaves behind, and says has been scanned.
  abbrev pub Risen : Interval → ℕ → ℕ → (ℕ → A) × ℕ → Type ℓ
  Risen i b e p =
      Partial c s₀ p.0 i b e p.1
      × (b < p.1)
      × (p.1 ≤ e)
      × (has_right i ≡ true → p.0 (e - 1) ≡ total c s₀ 0 e)

  pub scan_chunk-IsScanned :
      (i : Interval) (b e : ℕ) (s : ℕ → A)
      → b < e
      → IsFresh c s₀ b e s
      → Starts i b s
      → IsScanned c s₀ b e (scan_chunk c i b e s)
  scan_chunk-IsScanned i b e s lt fresh (starts, zeroth) =
      let v = c.read b (s b) in
      if_intro (IsScanned c s₀ b e) (has_left i)
        (λ h j p q.
          scan_loop-sum c s₀ assoc (e - b) b (s (b - 1)) s j (starts h).0 (starts h).1
            (λ k l r. fresh k l (omega (arith, r, lt))) p (omega (arith, q, lt)))
        (λ h j p q.
          let first : v ≡ total c s₀ 0 (suc b) =
            ap (c.read b) (fresh b (omega arith) lt)
            ∙ sym (sum_one c.bop (λ k. c.read k (s₀ k)) b (suc b) refl)
            ∙ ap (λ k. total c s₀ k (suc b)) (zeroth h) in
          elim (ℕ_discrete b j) [
            | yes at ↦
                scan_loop-outside c (e - b - 1) (suc b) v (update s b v) j (inl (omega (arith, at)))
                ∙ ap (update s b v) (sym at)
                ∙ update_self s b v
                ∙ first
                ∙ ap (λ k. total c s₀ 0 (suc k)) at
            | no ne ↦
                scan_loop-sum c s₀ assoc (e - b - 1) (suc b) v (update s b v) j (omega arith) first
                  (λ k l r.
                    update_other s b v (λ o. omega (arith, o, l))
                    ∙ fresh k (omega (arith, l)) (omega (arith, r, lt)))
                  (omega (arith, ne, p)) (omega (arith, q, lt))
          ])

  -- After a right half that went on scanning.
  pub fused-Risen :
      (i : Interval) (b e : ℕ) (s : ℕ → A) (p : (ℕ → A) × ℕ)
      → c.n < e - b
      → IsScanned c s₀ b (split b e) s
      → ((j : ℕ) → j < split b e → p.0 j ≡ s j)
      → Risen (r_child_of i) (split b e) e p
      → Risen i b e p
  fused-Risen i b e s p big done same (tree, far, inside, last) =
      let m = split b e in
      let low : b < m = omega (arith, big, n) in
      let left : IsScanned c s₀ b m p.0 = λ j l q. same j q ∙ done j l q in
      (
        elim (ℕ_discrete p.1 e) [
          | yes at ↦ whole at (
              IsScanned-join c s₀ p.0 b m e left
                (Partial-end c s₀ p.0 (r_child_of i) m e p.1 n at tree))
          | no ne ↦ right_part big far (omega (arith, ne, inside)) left tree
        ],
        omega (arith, low, far),
        inside,
        λ h. last (r_child_of-has_right i ∙ h),
      )

  -- After a right half that folded.
  pub restore-Risen :
      (i : Interval) (b e : ℕ) (p : (ℕ → A) × ℕ)
      → c.n < e - b
      → Risen (l_child_of i) b (split b e) p
      → IsReduced c n s₀ assoc (r_child_of i) (split b e) e p.0
      → Risen i b e (restore c i (split b e) e p.0, p.1)
  restore-Risen i b e p big (tree, far, inside, last) (reduced, sum_right) =
      let m = split b e in
      let low : b < m = omega (arith, big, n) in
      let high : m < e = omega (arith, big, n) in
      let t = restore c i m e p.0 in
      let cell = last (l_child_of-has_right i) in
      let below = λ (j : ℕ) (q : j < m).
        store_last-inside i e (c.bop (p.0 (m - 1)) (p.0 (e - 1))) p.0 j
          (omega (arith, q, high, stop-ge i e)) in
      let right =
        Reduced-local c s₀ p.0 t (r_child_of i) m e high n
          (λ j l q. store_last-inside i e _ p.0 j (omega (arith, q, stop-r_child_of i e)))
          reduced in
      (
        elim (ℕ_discrete p.1 m) [
          | yes at ↦
              left_whole big at
                (λ j l q. below j q ∙ Partial-end c s₀ p.0 (l_child_of i) b m p.1 n at tree j l q)
                right
          | no ne ↦
              left_part big (omega (arith, ne, inside))
                (Partial-local c s₀ p.0 t (l_child_of i) b m p.1 low n (λ j l q. below j q) tree)
                (below (m - 1) (omega (arith, low)) ∙ cell) right
        ],
        far,
        omega (arith, inside, high),
        λ h.
            store_last-last i e _ p.0 h
            ∙ ap₂ c.bop cell (sum_right (r_child_of-has_right i ∙ h))
            ∙ sum-split c.bop (λ j. c.read j (s₀ j)) assoc 0 m e (omega (arith, low)) high,
      )
