-- ===== src/Scan/Sums.antt =====
-- The combination of a part of a range, and what the loops of a chunk do.
use parallel_load_balancing.Common.{
  ℕ, zero, suc, ◌+◌, ◌-◌, ◌≤◌, ◌<◌, ◌≡◌, refl, sym, ap, ap₂, ◌∙◌, ◌⊎◌, ◌≢◌, inl, arith, ℕ_discrete,
}
use parallel_load_balancing.Common.Family.{update, update_self, update_other}
use parallel_load_balancing.Fold.{accumulate}
use parallel_load_balancing.Fold.Laws.{accumulate-split}
use parallel_load_balancing.Scan.{Sweep, scan_loop, fold_loop}

module _ {ℓ} {A : Type ℓ} (bop : A → A → A) (x : ℕ → A) where
  -- x b · x (b + 1) · … · x (e - 1)
  unfoldable pub sum : ℕ → ℕ → A
  sum b e = accumulate bop x (x b) (suc b) (e - b - 1)

  pub sum_one : (b e : ℕ) → e ≡ suc b → sum b e ≡ x b
  unfolding sum
  sum_one b e h = let none_left : e - b - 1 ≡ 0 = omega (arith, h) in rw none_left refl

  module _ (assoc : (x y z : A) → bop (bop x y) z ≡ bop x (bop y z)) where
    pub sum-split : (b m e : ℕ) → b < m → m < e → bop (sum b m) (sum m e) ≡ sum b e
    unfolding sum
    sum-split b m e p q =
        accumulate-split bop x assoc (x b) (suc b) (m - b - 1) (e - m - 1) m (e - b - 1)
          (omega arith) (omega arith)

    pub sum-next : (b i : ℕ) → b < i → bop (sum b i) (x i) ≡ sum b (suc i)
    sum-next b i p =
        ap (bop (sum b i)) (sym (sum_one i (suc i) refl)) ∙ sum-split b i (suc i) p (omega arith)

module _ {ℓ} {A : Type ℓ} (c : Sweep A) where
  -- A loop writes to the positions that it goes over only.
  pub scan_loop-outside :
      (len i : ℕ) (acc : A) (s : ℕ → A) (j : ℕ)
      → (j < i) ⊎ (i + len ≤ j)
      → scan_loop c acc i len s j ≡ s j
  scan_loop-outside zero i acc s j h = refl
  scan_loop-outside (suc len) i acc s j h =
      let next = c.bop acc (c.read i (s i)) in
      let apart : i ≢ j = ground (arith, h) in
      scan_loop-outside len (suc i) next (update s i next) j (ground (arith, h))
      ∙ update_other s i next apart

module _ {ℓ} {A : Type ℓ} (c : Sweep A) (s₀ : ℕ → A)
    (assoc : (x y z : A) → c.bop (c.bop x y) z ≡ c.bop x (c.bop y z)) where
  abbrev elem : ℕ → A
  elem i = c.read i (s₀ i)

  pub scan_loop-sum :
      (len i : ℕ) (acc : A) (s : ℕ → A) (j : ℕ)
      → 0 < i
      → acc ≡ sum c.bop elem 0 i
      → ((k : ℕ) → i ≤ k → k < i + len → s k ≡ s₀ k)
      → i ≤ j
      → j < i + len
      → scan_loop c acc i len s j ≡ sum c.bop elem 0 (suc j)
  scan_loop-sum zero i acc s j pos e fresh l r = absurd (omega arith)
  scan_loop-sum (suc len) i acc s j pos e fresh l r =
      let next = c.bop acc (c.read i (s i)) in
      let e' : next ≡ sum c.bop elem 0 (suc i) =
        ap₂ c.bop e (ap (c.read i) (fresh i (omega arith) (omega arith)))
        ∙ sum-next c.bop elem assoc 0 i pos in
      elim (ℕ_discrete i j) [
        | yes same ↦
            scan_loop-outside c len (suc i) next (update s i next) j (inl (omega (arith, same)))
            ∙ ap (update s i next) (sym same)
            ∙ update_self s i next
            ∙ e'
            ∙ ap (λ k. sum c.bop elem 0 (suc k)) same
        | no apart ↦
            scan_loop-sum len (suc i) next (update s i next) j (omega arith) e'
              (λ k p q.
                update_other s i next (λ h. omega (arith, h, p))
                ∙ fresh k (omega (arith, p)) (omega (arith, q)))
              (omega (arith, apart, l)) (omega (arith, r))
      ]

  pub fold_loop-sum :
      (len b i : ℕ) (acc : A) (s : ℕ → A)
      → b < i
      → acc ≡ sum c.bop elem b i
      → ((k : ℕ) → i ≤ k → k < i + len → s k ≡ s₀ k)
      → fold_loop c acc i len s ≡ sum c.bop elem b (i + len)
  fold_loop-sum zero b i acc s p e fresh =
      let stop : i + 0 ≡ i = omega arith in e ∙ ap (sum c.bop elem b) (sym stop)
  fold_loop-sum (suc len) b i acc s p e fresh =
      let next = c.bop acc (c.read i (s i)) in
      let e' : next ≡ sum c.bop elem b (suc i) =
        ap₂ c.bop e (ap (c.read i) (fresh i (omega arith) (omega arith)))
        ∙ sum-next c.bop elem assoc b i p in
      let stop : suc i + len ≡ i + suc len = omega arith in
      fold_loop-sum len b (suc i) next s (omega arith) e'
        (λ k l r. fresh k (omega (arith, l)) (omega (arith, r)))
      ∙ ap (sum c.bop elem b) stop
