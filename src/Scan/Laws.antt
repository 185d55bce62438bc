-- ===== src/Scan/Laws.antt =====
-- The two sweeps together.
use parallel_load_balancing.Common.{
  ℕ, zero, suc, Bool, ◌-◌, ◌≤◌, ◌<◌, ◌≡◌, refl, sym, ap, ◌∙◌, inl, inr, ◌&&◌, ◌==◌, arith, leb, ltb,
  ltb→lt, if◌then◌else◌, if_intro,
}
use parallel_load_balancing.Fold.{accumulate}
use parallel_load_balancing.Scan.{
  Interval, all, l_child_of, r_child_of, Sweep, split, fork_join, restore, rise_fold, rise_scan,
  scan, Schedule, sweep, scan_to, scan_in_place,
}
use parallel_load_balancing.Scan.Sums.{sum}
use parallel_load_balancing.Scan.ForkJoin.{fork_join_both}
use parallel_load_balancing.Scan.Reduce.{
  rise_fold-outside, IsReduced, IsReduced-local, rise_fold-IsReduced,
}
use parallel_load_balancing.Scan.Swept.{
  l_child_of-has_left, l_child_of-has_right, r_child_of-has_left, total, IsFresh, IsScanned, whole,
  Partial-local, Partial-end,
}
use parallel_load_balancing.Scan.Rise.{
  rise_scan-outside, Starts, Risen, scan_chunk-IsScanned, fused-Risen, restore-Risen,
}
use parallel_load_balancing.Scan.Finish.{fall_sweep-outside, fall_sweep-IsScanned}

module _ {ℓ} {A : Type ℓ} (c : Sweep A) (n : 1 ≤ c.n) (s₀ : ℕ → A)
    (assoc : (x y z : A) → c.bop (c.bop x y) z ≡ c.bop x (c.bop y z)) where
  -- What a scanning half leaves behind holds after what happens beyond the range.
  Risen-local :
      (i : Interval) (b e k : ℕ) (s t : ℕ → A)
      → b < e
      → ((j : ℕ) → j < e → t j ≡ s j)
      → Risen c n s₀ assoc i b e (s, k)
      → Risen c n s₀ assoc i b e (t, k)
  Risen-local i b e k s t lt same (tree, far, inside, last) = (
    Partial-local c s₀ s t i b e k lt n (λ j p q. same j q) tree,
    far,
    inside,
    λ h. same (e - 1) (omega (arith, lt)) ∙ last h,
  )

  Starts-l_child_of :
      (i : Interval) (b : ℕ) (s : ℕ → A)
      → Starts c n s₀ assoc i b s
      → Starts c n s₀ assoc (l_child_of i) b s
  Starts-l_child_of i b s (starts, zeroth) =
      (λ h. starts (sym (l_child_of-has_left i) ∙ h), λ h. zeroth (sym (l_child_of-has_left i) ∙ h))

  -- A left half that scans and a right half that folds, in either order.
  joined-Risen :
      (i : Interval) (b e : ℕ) (left : (ℕ → A) → (ℕ → A) × ℕ) (right : (ℕ → A) → ℕ → A)
      → c.n < e - b
      → ((t : ℕ → A) (j : ℕ) → split b e ≤ j → (left t).0 j ≡ t j)
      → ((t : ℕ → A) (j : ℕ) → j < split b e → right t j ≡ t j)
      → ((t : ℕ → A)
          → IsFresh c s₀ b (split b e) t
          → Starts c n s₀ assoc (l_child_of i) b t
          → Risen c n s₀ assoc (l_child_of i) b (split b e) (left t))
      → ((t : ℕ → A)
          → IsFresh c s₀ (split b e) e t
          → IsReduced c n s₀ assoc (r_child_of i) (split b e) e (right t))
      → (first : Bool) (s : ℕ → A) → IsFresh c s₀ b e s
      → Starts c n s₀ assoc (l_child_of i) b s
      → Risen c n s₀ assoc i b e (
        restore c i
            (split b e)
            e
            (fork_join first (λ p. left p.0) (λ p. (right p.0, p.1)) (s, b)).0,
        (fork_join first (λ p. left p.0) (λ p. (right p.0, p.1)) (s, b)).1,
      )
  joined-Risen i b e left right big at_left at_right do_l do_r first s fresh starts =
      let m = split b e in
      let low : b < m = omega (arith, big, n) in
      let high : m < e = omega (arith, big, n) in
      let go_left = λ (p : (ℕ → A) × ℕ). left p.0 in
      let go_right : (ℕ → A) × ℕ → (ℕ → A) × ℕ = λ p. (right p.0, p.1) in
      let (l, r) =
        fork_join_both go_left go_right
          (λ p. IsFresh c s₀ b m p.0 × Starts c n s₀ assoc (l_child_of i) b p.0)
          (Risen c n s₀ assoc (l_child_of i) b m) (λ p. IsFresh c s₀ m e p.0)
          (λ p. IsReduced c n s₀ assoc (r_child_of i) m e p.0) (λ p (f, st). do_l p.0 f st)
          (λ p f. do_r p.0 f) (λ p f j l q. at_left p.0 j l ∙ f j l q)
          (λ p.
            IsReduced-local c n s₀ assoc (r_child_of i) m e p.0 (left p.0).0 high
              (λ j l q. at_left p.0 j l))
          (λ p (f, st). (
            λ j l q. at_right p.0 j q ∙ f j l q,
            (
              λ o. ((st.0 o).0, at_right p.0 (b - 1) (omega (arith, low, (st.0 o).0)) ∙ (st.0 o).1),
              st.1,
            ),
          ))
          (λ p. Risen-local (l_child_of i) b m p.1 p.0 (right p.0) low (at_right p.0)) first (s, b)
          (λ j p q. fresh j p (omega (arith, q, high)), starts)
          (λ j p q. fresh j (omega (arith, p, low)) q) in
      restore-Risen c n s₀ assoc i b e (fork_join first go_left go_right (s, b)) big l r

  rise_scan-Risen :
      (fuel : ℕ) (i : Interval) (b e : ℕ) (s : ℕ → A)
      → b < e
      → e - b ≤ fuel
      → IsFresh c s₀ b e s
      → Starts c n s₀ assoc i b s
      → Risen c n s₀ assoc i b e (rise_scan c fuel i b e s)
  unfolding rise_scan
  rise_scan-Risen zero i b e s lt enough fresh starts = absurd (omega (arith, lt, enough))
  rise_scan-Risen (suc fuel) i b e s lt enough fresh starts =
      let m = split b e in
      let left = rise_scan c fuel (l_child_of i) b m in
      let right = rise_fold c fuel (r_child_of i) m e in
      let P = Risen c n s₀ assoc i b e in
      if_intro P (leb (e - b) c.n)
        (λ h.
          let done = scan_chunk-IsScanned c n s₀ assoc i b e s lt fresh starts in
          (
            whole refl done,
            lt,
            omega arith,
            λ _.
                done (e - 1) (omega (arith, lt)) (omega (arith, lt))
                ∙ ap (total c s₀ 0) (let up : suc (e - 1) ≡ e = omega (arith, lt) in up),
          ))
        (λ h.
          let big : c.n < e - b = ground (arith, h) in
          let low : b < m = omega (arith, big, n) in
          let high : m < e = omega (arith, big, n) in
          let left_room : m - b ≤ fuel = omega (arith, big, n, enough) in
          let right_room : e - m ≤ fuel = omega (arith, big, n, enough) in
          let at_left = λ (t : ℕ → A) (j : ℕ) (q : m ≤ j).
            rise_scan-outside c n fuel (l_child_of i) b m t j low (inr q) in
          let starts_left = Starts-l_child_of i b s starts in
          if_intro P (c.ready b e && ((left s).1 == m))
            (λ g.
              let (tree, far, inside, last) =
                rise_scan-Risen fuel (l_child_of i) b m s low left_room
                  (λ j p q. fresh j p (omega (arith, q, high))) starts_left in
              let at : (left s).1 ≡ m = ground (arith, g) in
              let t = (left s).0 in
              fused-Risen c n s₀ assoc i b e t _ big
                (Partial-end c s₀ t (l_child_of i) b m (left s).1 n at tree)
                (λ j q. rise_scan-outside c n fuel (r_child_of i) m e t j high (inl q))
                (rise_scan-Risen fuel (r_child_of i) m e t high right_room
                  (λ j p q. at_left s j p ∙ fresh j (omega (arith, p, low)) q)
                  (
                    λ _. (omega (arith, low), last (l_child_of-has_right i)),
                    λ o. ground (arith, o, r_child_of-has_left i),
                  )))
            (λ g.
              joined-Risen i b e left right big at_left
                (λ t j q. rise_fold-outside c n fuel (r_child_of i) m e t j high (inl q))
                (λ t. rise_scan-Risen fuel (l_child_of i) b m t low left_room)
                (λ t. rise_fold-IsReduced c n s₀ assoc fuel (r_child_of i) m e t high right_room)
                (c.left_first b e) s fresh starts_left))

-- The scan in one loop: what a sequential inclusive scan leaves at position i.
pub inclusive_scan {ℓ} : {A : Type ℓ} → (A → A → A) → (ℕ → A) → ℕ → A
inclusive_scan bop elem i = accumulate bop elem (elem 0) 1 i

pub sum-inclusive_scan {ℓ} :
    {A : Type ℓ} (bop : A → A → A) (elem : ℕ → A) (i : ℕ)
    → sum bop elem 0 (suc i) ≡ inclusive_scan bop elem i
unfolding sum inclusive_scan
sum-inclusive_scan bop elem i = let len : suc i - 0 - 1 ≡ i = omega arith in rw len refl

module _ {ℓ} {A : Type ℓ} (c : Sweep A) (n : 1 ≤ c.n) (s : ℕ → A)
    (assoc : (x y z : A) → c.bop (c.bop x y) z ≡ c.bop x (c.bop y z)) where
  rise-Risen : (len : ℕ) → 0 < len → Risen c n s assoc all 0 len (rise_scan c len all 0 len s)
  rise-Risen len pos =
      rise_scan-Risen c n s assoc len all 0 len s pos (omega arith) (λ j p q. refl)
        (λ h. ground (arith, h), λ h. refl)

  scan-IsScanned : (len : ℕ) → IsScanned c s 0 len (scan c len s)
  unfolding scan
  scan-IsScanned len =
      let rise = rise_scan c len all 0 len s in
      let P = IsScanned c s 0 len in
      if_intro P (len == 0) (λ h j p q. ground (arith, h, q))
        (λ h.
          let (tree, far, inside, _) = rise-Risen len (ground (arith, h)) in
          if_intro P (rise.1 == len)
            (λ g. Partial-end c s rise.0 all 0 len rise.1 n (ground (arith, g)) tree)
            (λ g.
              fall_sweep-IsScanned c n s assoc len all 0 len rise.1 rise.0 far
                (ground (arith, g, inside)) (omega arith) tree))

  scan-outside : (len j : ℕ) → len ≤ j → scan c len s j ≡ s j
  unfolding scan
  scan-outside len j out =
      let rise = rise_scan c len all 0 len s in
      let P = λ (t : ℕ → A). t j ≡ s j in
      if_intro P (len == 0) (λ h. refl)
        (λ h.
          let pos : 0 < len = ground (arith, h) in
          let (tree, far, inside, _) = rise-Risen len pos in
          let same = rise_scan-outside c n len all 0 len s j pos (inr out) in
          if_intro P (rise.1 == len) (λ g. same)
            (λ g.
              fall_sweep-outside c n len all 0 len rise.1 rise.0 j far (ground (arith, g, inside))
                (inr out)
              ∙ same))

-- If the operator is associative, then for any chunk size of at least 1, whichever forks complete
-- early and whichever half of a task goes first, `scan` leaves at every position of the range the
-- combination of all elements up to it, from left to right, where the elements are those that the
-- output had at the start if the scan is in place; and it leaves the rest of the output alone.
pub scan-eq-inclusive_scan {ℓ} :
    {A : Type ℓ} (c : Sweep A) (len : ℕ) (s : ℕ → A) (i : ℕ)
    → ((x y z : A) → c.bop (c.bop x y) z ≡ c.bop x (c.bop y z))
    → 1 ≤ c.n
    → scan c len s i ≡ (if ltb i len then inclusive_scan c.bop (λ j. c.read j (s j)) i else s i)
scan-eq-inclusive_scan {A = A} c len s i assoc n =
    if_intro (λ (a : A). scan c len s i ≡ a) (ltb i len)
      (λ h.
        scan-IsScanned c n s assoc len i (omega arith) (ltb→lt _ _ h)
        ∙ sum-inclusive_scan c.bop (λ j. c.read j (s j)) i)
      (λ h. scan-outside c n s assoc len i (ground (arith, h)))

-- If the operator is associative and the chunk size is at least 1, then a scan in place leaves at
-- every position what a scan with an output of its own does that starts with the same elements,
-- whatever each of the two has for a schedule.
pub scan_in_place-eq-scan_to {ℓ} :
    {A : Type ℓ} (bop : A → A → A) (proj : A → A) (t u : Schedule) (s : ℕ → A) (len n i : ℕ)
    → ((x y z : A) → bop (bop x y) z ≡ bop x (bop y z))
    → 1 ≤ n
    → scan_in_place bop proj t len n s i ≡ scan_to bop proj u s len n s i
unfolding scan_in_place scan_to
scan_in_place-eq-scan_to bop proj t u s len n i assoc p =
    scan-eq-inclusive_scan (sweep bop (λ i v. proj v) n t) len s i assoc p
    ∙ sym (scan-eq-inclusive_scan (sweep bop (λ i v. proj (s i)) n u) len s i assoc p)
