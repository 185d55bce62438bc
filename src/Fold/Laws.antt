-- ===== src/Fold/Laws.antt =====
-- The parallel fold and the sequential one.
use native.Mathlib.Numerals.{unary_clauses}
use parallel_load_balancing.Common.{
  ℕ, zero, suc, ◌+◌, ◌-◌, ◌/◌, ◌≤◌, ◌<◌, ◌≡◌, refl, sym, ap, ap₂, ◌∙◌, leb, ◌==◌, if_intro, Option,
  none, some, arith,
}
use parallel_load_balancing.Fold.{accumulate, fold_chunks, fold_single, fold}

-- `std::ranges::fold_left_first`: from left to right, from the first element on.
pub fold_left_first {ℓ} : {A : Type ℓ} → (A → A → A) → (ℕ → A) → ℕ → ℕ → Option A
fold_left_first bop elem head zero = none
fold_left_first bop elem head (suc len) = some (accumulate bop elem (elem head) (suc head) len)

module _ {ℓ} {A : Type ℓ} (bop : A → A → A) (elem : ℕ → A)
    (assoc : (x y z : A) → bop (bop x y) z ≡ bop x (bop y z)) where
  -- A left operand moves into the accumulator.
  accumulate-bop :
      (x y : A) (head len : ℕ)
      → bop x (accumulate bop elem y head len) ≡ accumulate bop elem (bop x y) head len
  accumulate-bop x y head zero = refl
  accumulate-bop x y head (suc len) =
      accumulate-bop x (bop y (elem head)) (suc head) len
      ∙ ap (λ z. accumulate bop elem z (suc head) len) (sym (assoc x y (elem head)))

  pub accumulate-split :
      (x : A) (head k m mid len : ℕ)
      → mid ≡ head + k
      → len ≡ suc (k + m)
      → bop (accumulate bop elem x head k) (accumulate bop elem (elem mid) (suc mid) m)
        ≡ accumulate bop elem x head len
  accumulate-split x head zero m mid len e f =
      let e' : mid ≡ head = omega (arith, e) in
      let f' : len ≡ suc m = omega (arith, f) in
      rw (e', f') (accumulate-bop x (elem head) (suc head) m)
  accumulate-split x head (suc k) m mid len e f =
      let f' : len ≡ suc (suc (k + m)) = omega (arith, f) in
      rw f' (
        accumulate-split (bop x (elem head)) (suc head) k m mid (suc (k + m)) (omega (arith, e))
          refl)

  -- What a task for the range [head, tail) returns.
  abbrev Folds : ℕ → ℕ → A → Type ℓ
  Folds head tail a = a ≡ accumulate bop elem (elem head) (suc head) (tail - head - 1)

  bop-Folds :
      (head mid tail : ℕ) (lhs rhs : A)
      → head < mid
      → mid < tail
      → Folds head mid lhs
      → Folds mid tail rhs
      → Folds head tail (bop lhs rhs)
  bop-Folds head mid tail lhs rhs p q l r =
      ap₂ bop l r
      ∙ accumulate-split (elem head) (suc head) (mid - head - 1) (tail - mid - 1) mid
          (tail - head - 1) (omega arith) (omega arith)

  fold_chunks-Folds :
      (fuel head tail n : ℕ)
      → 1 ≤ n
      → head < tail
      → tail - head ≤ fuel
      → Folds head tail (fold_chunks bop elem fuel head tail n)
  unfolding fold_chunks
  fold_chunks-Folds zero head tail n p h l = absurd (omega arith)
  fold_chunks-Folds (suc fuel) head tail n p h l =
      let mid = head + (tail - head) / 2 in
      if_intro (Folds head tail) (leb (tail - head) n) (λ s. refl)
        (λ s.
          let long : n < tail - head = ground (arith, s) in
          bop-Folds head mid tail _ _ (omega (arith, long, p)) (omega arith)
            (fold_chunks-Folds fuel head mid n p (omega (arith, long, p))
              (omega (arith, long, p, l)))
            (fold_chunks-Folds fuel mid tail n p (omega (arith, long, p))
              (omega (arith, long, p, l))))

  fold_single-Folds :
      (fuel head tail : ℕ)
      → head < tail
      → tail - head ≤ fuel
      → Folds head tail (fold_single bop elem fuel head tail)
  unfolding fold_single
  fold_single-Folds zero head tail h l = absurd (omega arith)
  fold_single-Folds (suc fuel) head tail h l =
      let mid = head + (tail - head) / 2 in
      if_intro (Folds head tail) (tail - head == 1)
        (λ s. let e : tail - head - 1 ≡ 0 = ground (arith, s) in rw e refl)
        (λ s.
          let long : 1 < tail - head = ground (arith, s, h) in
          bop-Folds head mid tail _ _ (omega (arith, long)) (omega (arith, long))
            (fold_single-Folds fuel head mid (omega (arith, long)) (omega (arith, long, l)))
            (fold_single-Folds fuel mid tail (omega (arith, long)) (omega (arith, long, l))))

  fold_left_first-pos :
      (head len : ℕ)
      → 0 < len
      → fold_left_first bop elem head len
        ≡ some (accumulate bop elem (elem head) (suc head) (len - 1))
  unfolding fold_left_first
  fold_left_first-pos head zero l = absurd (omega arith)
  fold_left_first-pos head (suc len) l = simp unary_clauses refl

-- If the operator is associative, then for any chunk size of at least 1 the parallel `fold` of a
-- range gives what a fold from left to right gives: nothing if the range is empty.
pub fold-eq-fold_left_first {ℓ} :
    {A : Type ℓ} (bop : A → A → A) (elem : ℕ → A) (head tail n : ℕ)
    → ((x y z : A) → bop (bop x y) z ≡ bop x (bop y z))
    → 1 ≤ n
    → head ≤ tail
    → fold bop elem head tail n ≡ fold_left_first bop elem head (tail - head)
unfolding fold fold_left_first
fold-eq-fold_left_first {A = A} bop elem head tail n assoc p h =
    let P = λ (a : Option A). a ≡ fold_left_first bop elem head (tail - head) in
    if_intro P (head == tail)
      (λ e. let none_left : tail - head ≡ 0 = ground (arith, e) in rw none_left refl)
      (λ e.
        let l : head < tail = ground (arith, e, h) in
        let first =
          sym (fold_left_first-pos bop elem assoc head (tail - head) (omega (arith, l))) in
        if_intro P (n == 1)
          (λ o.
            ap some (fold_single-Folds bop elem assoc (tail - head) head tail l (omega arith))
            ∙ first)
          (λ o.
            ap some (fold_chunks-Folds bop elem assoc (tail - head) head tail n p l (omega arith))
            ∙ first))
