-- ===== src/Scan/Finish.antt =====
-- `fall_sweep`.
use parallel_load_balancing.Common.{
  ℕ, zero, suc, ◌-◌, ◌≤◌, ◌<◌, ◌≡◌, refl, ap, ◌∙◌, ◌⊎◌, inl, ◌==◌, arith, ltb, ltb→lt, if_intro,
}
use parallel_load_balancing.Scan.{
  Interval, l_child_of, r_child_of, Sweep, split, fall_sweep_impl, fall_sweep,
}
use parallel_load_balancing.Scan.ForkJoin.{fork_join_keeps}
use parallel_load_balancing.Scan.Swept.{
  stop, stop-ge, stop-l_child_of, stop-r_child_of, total, IsScanned, IsScanned-join, Partial, whole,
  left_part, left_whole, right_part, Partial-local,
}
use parallel_load_balancing.Scan.Fall.{
  fall_join, fall_sweep_impl-outside, fall_sweep_impl-IsScanned,
}

module _ {ℓ} {A : Type ℓ} (c : Sweep A) (n : 1 ≤ c.n) where
  pub fall_sweep-outside :
      (fuel : ℕ) (i : Interval) (b e k : ℕ) (s : ℕ → A) (j : ℕ)
      → b < k
      → k < e
      → (j < b) ⊎ (stop i e ≤ j)
      → fall_sweep c fuel i b e k s j ≡ s j
  unfolding fall_sweep
  fall_sweep-outside zero i b e k s j low high out = refl
  fall_sweep-outside (suc fuel) i b e k s j low high out =
      let m = split b e in
      let left = fall_sweep c fuel (l_child_of i) b m k in
      let right = fall_sweep_impl c fuel (r_child_of i) m e in
      let stop_left = stop-l_child_of i m in
      let stop_right = stop-r_child_of i e in
      let m_low : b < m = omega (arith, low, high) in
      let m_high : m < e = omega (arith, low, high) in
      let at_right = λ (t : ℕ → A).
        fall_sweep_impl-outside c n fuel (r_child_of i) m e t j m_high
          (ground (arith, out, m_low, stop_right)) in
      if_intro (λ (t : ℕ → A). t j ≡ s j) (ltb k m)
        (λ h.
          fork_join_keeps left right (λ (t : ℕ → A). t j ≡ s j)
            (λ t p.
              fall_sweep-outside fuel (l_child_of i) b m k t j low (ltb→lt _ _ h)
                (ground (arith, out, m_high, stop_left, stop-ge i e))
              ∙ p)
            (λ t p. at_right t ∙ p) (c.left_first b e) s refl)
        (λ h.
          if_intro (λ (t : ℕ → A). t j ≡ s j) (k == m) (λ g. at_right s)
            (λ g.
              fall_sweep-outside fuel (r_child_of i) m e k s j (ground (arith, h, g)) high
                (ground (arith, out, m_low, stop_right))))

module _ {ℓ} {A : Type ℓ} (c : Sweep A) (n : 1 ≤ c.n) (s₀ : ℕ → A)
    (assoc : (x y z : A) → c.bop (c.bop x y) z ≡ c.bop x (c.bop y z)) where
  -- The right half, after a left half that is scanned.
  after_left :
      (i : Interval) (b e : ℕ) (s t : ℕ → A)
      → IsScanned c s₀ b (split b e) s
      → ((j : ℕ) → j < split b e → t j ≡ s j)
      → IsScanned c s₀ (split b e) (stop (r_child_of i) e) t
      → IsScanned c s₀ b (stop i e) t
  after_left i b e s t left same right =
      IsScanned-join c s₀ t b (split b e) (stop i e) (λ j p q. same j q ∙ left j p q)
        (λ j p q. right j p (omega (arith, q, stop-r_child_of i e)))

  pub fall_sweep-IsScanned :
      (fuel : ℕ) (i : Interval) (b e k : ℕ) (s : ℕ → A)
      → b < k
      → k < e
      → e - b ≤ fuel
      → Partial c s₀ s i b e k
      → IsScanned c s₀ b (stop i e) (fall_sweep c fuel i b e k s)
  unfolding fall_sweep
  fall_sweep-IsScanned zero i b e k s low high enough tree =
      absurd (omega (arith, low, high, enough))
  fall_sweep-IsScanned (suc fuel) i b e k s low high enough (whole at done) =
      absurd (omega (arith, at, high))
  fall_sweep-IsScanned (suc fuel) i b e k s low high enough (left_part big near l cell r) =
      let m = split b e in
      let left = fall_sweep c fuel (l_child_of i) b m k in
      let right = fall_sweep_impl c fuel (r_child_of i) m e in
      let stop_left = stop-l_child_of i m in
      let stop_right = stop-r_child_of i e in
      let m_high : m < e = omega (arith, low, high) in
      if_intro (IsScanned c s₀ b (stop i e)) (ltb k m)
        (λ h.
          fall_join c n s₀ assoc i b e left right (λ t. Partial c s₀ t (l_child_of i) b m k)
            (omega (arith, near)) m_high
            (λ t t' same p.
              Partial-local c s₀ t t' (l_child_of i) b m k (omega (arith, low, near)) n
                (λ j l q. same j q) p)
            (λ t j out.
              fall_sweep-outside c n fuel (l_child_of i) b m k t j low near
                (ground (arith, out, stop_left)))
            (λ t j out.
              fall_sweep_impl-outside c n fuel (r_child_of i) m e t j m_high
                (ground (arith, out, stop_right)))
            (λ t p j l q.
              fall_sweep-IsScanned fuel (l_child_of i) b m k t low near
                (omega (arith, low, high, enough)) p j l (omega (arith, q, stop_left)))
            (λ t p j l q.
              fall_sweep_impl-IsScanned c n s₀ assoc fuel (r_child_of i) m e t m_high
                (omega (arith, near)) (omega (arith, low, high, enough)) p j l
                (omega (arith, q, stop_right)))
            (c.left_first b e) s l (r, cell))
        (λ h. ground (arith, h, near))
  fall_sweep-IsScanned (suc fuel) i b e k s low high enough (left_whole big at done r) =
      let m = split b e in
      let m_high : m < e = omega (arith, low, high) in
      let up : suc (m - 1) ≡ m = omega (arith, at, low) in
      if_intro (IsScanned c s₀ b (stop i e)) (ltb k m) (λ h. ground (arith, h, at))
        (λ h.
          if_intro (IsScanned c s₀ b (stop i e)) (k == m)
            (λ g.
              after_left i b e s (fall_sweep_impl c fuel (r_child_of i) m e s) done
                (λ j q. fall_sweep_impl-outside c n fuel (r_child_of i) m e s j m_high (inl q))
                (fall_sweep_impl-IsScanned c n s₀ assoc fuel (r_child_of i) m e s m_high
                  (omega (arith, at, low)) (omega (arith, low, high, enough))
                  (
                    r,
                    done (m - 1) (omega (arith, at, low)) (omega (arith, at, low))
                        ∙ ap (total c s₀ 0) up,
                  )))
            (λ g. ground (arith, g, at)))
  fall_sweep-IsScanned (suc fuel) i b e k s low high enough (right_part big far inside done r) =
      let m = split b e in
      if_intro (IsScanned c s₀ b (stop i e)) (ltb k m) (λ h. ground (arith, h, far))
        (λ h.
          if_intro (IsScanned c s₀ b (stop i e)) (k == m) (λ g. ground (arith, g, far))
            (λ g.
              after_left i b e s (fall_sweep c fuel (r_child_of i) m e k s) done
                (λ j q. fall_sweep-outside c n fuel (r_child_of i) m e k s j far high (inl q))
                (fall_sweep-IsScanned fuel (r_child_of i) m e k s far high
                  (omega (arith, low, high, enough)) r)))
