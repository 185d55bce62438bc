-- ===== src/Scan/Swept.antt =====
-- What the two sweeps of a scan leave behind: a tree of reductions, part of it scanned.
use parallel_load_balancing.Common.{
  ℕ, suc, ◌-◌, ◌≤◌, ◌<◌, ◌≡◌, refl, ◌∙◌, true, false, arith, dec_lt,
}
use parallel_load_balancing.Scan.{
  Interval, all, lhs, mid, rhs, l_child_of, r_child_of, has_left, has_right, Sweep, split,
}
use parallel_load_balancing.Scan.Sums.{sum}

-- The end of the cells of [b, e) that are final only when their task's parent says so: the last cell
-- of a range with a right sibling is its reduction.
abbrev pub stop : Interval → ℕ → ℕ
stop all e = e
stop rhs e = e
stop lhs e = e - 1
stop mid e = e - 1

pub stop-le : (i : Interval) (e : ℕ) → stop i e ≤ e
stop-le all e = omega arith
stop-le rhs e = omega arith
stop-le lhs e = omega arith
stop-le mid e = omega arith

pub stop-ge : (i : Interval) (e : ℕ) → e - 1 ≤ stop i e
stop-ge all e = omega arith
stop-ge rhs e = omega arith
stop-ge lhs e = omega arith
stop-ge mid e = omega arith

pub stop-has_right : (i : Interval) (e : ℕ) → has_right i ≡ true → stop i e ≡ e - 1
stop-has_right all e h = ground arith
stop-has_right rhs e h = ground arith
stop-has_right lhs e h = refl
stop-has_right mid e h = refl

pub stop-no_right : (i : Interval) (e : ℕ) → has_right i ≡ false → stop i e ≡ e
stop-no_right all e h = refl
stop-no_right rhs e h = refl
stop-no_right lhs e h = ground arith
stop-no_right mid e h = ground arith

pub stop-l_child_of : (i : Interval) (e : ℕ) → stop (l_child_of i) e ≡ e - 1
stop-l_child_of all e = refl
stop-l_child_of rhs e = refl
stop-l_child_of lhs e = refl
stop-l_child_of mid e = refl

pub stop-r_child_of : (i : Interval) (e : ℕ) → stop (r_child_of i) e ≡ stop i e
stop-r_child_of all e = refl
stop-r_child_of rhs e = refl
stop-r_child_of lhs e = refl
stop-r_child_of mid e = refl

pub l_child_of-has_right : (i : Interval) → has_right (l_child_of i) ≡ true
l_child_of-has_right all = refl
l_child_of-has_right rhs = refl
l_child_of-has_right lhs = refl
l_child_of-has_right mid = refl

pub l_child_of-has_left : (i : Interval) → has_left (l_child_of i) ≡ has_left i
l_child_of-has_left all = refl
l_child_of-has_left rhs = refl
l_child_of-has_left lhs = refl
l_child_of-has_left mid = refl

pub r_child_of-has_right : (i : Interval) → has_right (r_child_of i) ≡ has_right i
r_child_of-has_right all = refl
r_child_of-has_right rhs = refl
r_child_of-has_right lhs = refl
r_child_of-has_right mid = refl

pub r_child_of-has_left : (i : Interval) → has_left (r_child_of i) ≡ true
r_child_of-has_left all = refl
r_child_of-has_left rhs = refl
r_child_of-has_left lhs = refl
r_child_of-has_left mid = refl

module _ {ℓ} {A : Type ℓ} (c : Sweep A) (s₀ : ℕ → A) where
  abbrev pub total : ℕ → ℕ → A
  total b e = sum c.bop (λ i. c.read i (s₀ i)) b e

  -- The cells of [b, e) are as they were, or have the inclusive scan of all before them.
  abbrev pub IsFresh : ℕ → ℕ → (ℕ → A) → Type ℓ
  IsFresh b e s = (i : ℕ) → b ≤ i → i < e → s i ≡ s₀ i

  abbrev pub IsScanned : ℕ → ℕ → (ℕ → A) → Type ℓ
  IsScanned b e s = (i : ℕ) → b ≤ i → i < e → s i ≡ total 0 (suc i)

-- The last cell of every left child inside [b, e) has the child's reduction.
pub data Reduced {ℓ} {A : Type ℓ} (c : Sweep A) (s₀ s : ℕ → A) : Interval → ℕ → ℕ → Type ℓ where
  leaf : {i : Interval} {b e : ℕ} → e - b ≤ c.n → IsFresh c s₀ b (stop i e) s → Reduced c s₀ s i b e
  node :
      {i : Interval} {b e : ℕ}
      → c.n < e - b
      → Reduced c s₀ s (l_child_of i) b (split b e)
      → s (split b e - 1) ≡ total c s₀ b (split b e)
      → Reduced c s₀ s (r_child_of i) (split b e) e
      → Reduced c s₀ s i b e

-- [b, k) has been scanned, and the rest of [b, e) is reduced.
pub data Partial {ℓ} {A : Type ℓ} (c : Sweep A) (s₀ s : ℕ → A) : Interval → ℕ → ℕ → ℕ → Type ℓ where
  whole : {i : Interval} {b e k : ℕ} → k ≡ e → IsScanned c s₀ b e s → Partial c s₀ s i b e k
  left_part :
      {i : Interval} {b e k : ℕ}
      → c.n < e - b
      → k < split b e
      → Partial c s₀ s (l_child_of i) b (split b e) k
      → s (split b e - 1) ≡ total c s₀ 0 (split b e)
      → Reduced c s₀ s (r_child_of i) (split b e) e
      → Partial c s₀ s i b e k
  left_whole :
      {i : Interval} {b e k : ℕ}
      → c.n < e - b
      → k ≡ split b e
      → IsScanned c s₀ b (split b e) s
      → Reduced c s₀ s (r_child_of i) (split b e) e
      → Partial c s₀ s i b e k
  right_part :
      {i : Interval} {b e k : ℕ}
      → c.n < e - b
      → split b e < k
      → k < e
      → IsScanned c s₀ b (split b e) s
      → Partial c s₀ s (r_child_of i) (split b e) e k
      → Partial c s₀ s i b e k

module _ {ℓ} {A : Type ℓ} (c : Sweep A) (s₀ s t : ℕ → A) where
  -- Only what is inside the range matters.
  pub Reduced-local :
      (i : Interval) (b e : ℕ)
      → b < e
      → 1 ≤ c.n
      → ((j : ℕ) → b ≤ j → j < stop i e → t j ≡ s j)
      → Reduced c s₀ s i b e
      → Reduced c s₀ t i b e
  Reduced-local i b e lt n same (leaf small fresh) = leaf small (λ j l r. same j l r ∙ fresh j l r)
  Reduced-local i b e lt n same (node big l whole_left r) =
      let m = split b e in
      node big
        (Reduced-local (l_child_of i) b m (omega (arith, big, n)) n
          (λ j p q. same j p (omega (arith, p, q, big, n, stop-ge i e, stop-l_child_of i m))) l)
        (same (m - 1) (omega (arith, big, n)) (omega (arith, big, n, stop-ge i e)) ∙ whole_left)
        (Reduced-local (r_child_of i) m e (omega (arith, big, n)) n
          (λ j p q. same j (omega (arith, p, big)) (omega (arith, q, stop-r_child_of i e))) r)

  pub Partial-local :
      (i : Interval) (b e k : ℕ)
      → b < e
      → 1 ≤ c.n
      → ((j : ℕ) → b ≤ j → j < e → t j ≡ s j)
      → Partial c s₀ s i b e k
      → Partial c s₀ t i b e k
  Partial-local i b e k lt n same (whole eq done) = whole eq (λ j l r. same j l r ∙ done j l r)
  Partial-local i b e k lt n same (left_part big near l cell r) =
      let m = split b e in
      left_part big near
        (Partial-local (l_child_of i) b m k (omega (arith, big, n)) n
          (λ j p q. same j p (omega (arith, q, big, n))) l)
        (same (m - 1) (omega (arith, big, n)) (omega (arith, big, n)) ∙ cell)
        (Reduced-local (r_child_of i) m e (omega (arith, big, n)) n
          (λ j p q. same j (omega (arith, p)) (omega (arith, q, stop-le (r_child_of i) e))) r)
  Partial-local i b e k lt n same (left_whole big at done r) =
      let m = split b e in
      left_whole big at (λ j p q. same j p (omega (arith, q, big, n)) ∙ done j p q)
        (Reduced-local (r_child_of i) m e (omega (arith, big, n)) n
          (λ j p q. same j (omega (arith, p)) (omega (arith, q, stop-le (r_child_of i) e))) r)
  Partial-local i b e k lt n same (right_part big far inside done r) =
      let m = split b e in
      right_part big far inside (λ j p q. same j p (omega (arith, q, big, n)) ∙ done j p q)
        (Partial-local (r_child_of i) m e k (omega (arith, big, n)) n
          (λ j p q. same j (omega (arith, p)) q) r)

module _ {ℓ} {A : Type ℓ} (c : Sweep A) (s₀ s : ℕ → A) where
  pub Reduced-small :
      (i : Interval) (b e : ℕ) → e - b ≤ c.n → Reduced c s₀ s i b e → IsFresh c s₀ b (stop i e) s
  Reduced-small i b e small (leaf _ fresh) = fresh
  Reduced-small i b e small (node big _ _ _) = absurd (omega (arith, small, big))

  pub Reduced-big :
      (i : Interval) (b e : ℕ)
      → c.n < e - b
      → Reduced c s₀ s i b e
      → Reduced c s₀ s (l_child_of i) b (split b e)
        × (s (split b e - 1) ≡ total c s₀ b (split b e))
        × Reduced c s₀ s (r_child_of i) (split b e) e
  Reduced-big i b e big (leaf small _) = absurd (omega (arith, small, big))
  Reduced-big i b e big (node _ l cell r) = (l, cell, r)

  -- Nothing is left to scan.
  pub Partial-end :
      (i : Interval) (b e k : ℕ) → 1 ≤ c.n → k ≡ e → Partial c s₀ s i b e k → IsScanned c s₀ b e s
  Partial-end i b e k n at (whole eq done) = done
  Partial-end i b e k n at (left_part big near l cell r) = absurd (omega (arith, big, near, at, n))
  Partial-end i b e k n at (left_whole big at_split done r) =
      absurd (omega (arith, big, at_split, at, n))
  Partial-end i b e k n at (right_part big far inside done r) = absurd (omega (arith, inside, at))

  -- A range is scanned if its halves are.
  pub IsScanned-join :
      (b m e : ℕ) → IsScanned c s₀ b m s → IsScanned c s₀ m e s → IsScanned c s₀ b e s
  IsScanned-join b m e l r j p q = elim (dec_lt j m) [
    | yes h ↦ l j p h
    | no h ↦ r j (omega (arith, h)) q
  ]
