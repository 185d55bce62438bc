-- ===== src/Fold/Tests.antt =====
-- A fold of five elements, by evaluation.
use native.Mathlib.Nat.{add_assoc}
use parallel_load_balancing.Common.{◌+◌, ◌*◌, ◌≡◌, refl, some, arith}
use parallel_load_balancing.Fold.{fold, fold_chunks}
use parallel_load_balancing.Fold.Laws.{fold_left_first, fold-eq-fold_left_first}

-- 9 + 16 + 25 + 36 + 49, in chunks of two.
sum_of_squares : fold ◌+◌ (λ i. i * i) 3 8 2 ≡ some 135
unfolding fold fold_chunks
sum_of_squares = refl

fold-eq-fold_left_first_example : fold ◌+◌ (λ i. i * i) 3 8 2 ≡ fold_left_first ◌+◌ (λ i. i * i) 3 5
fold-eq-fold_left_first_example =
    fold-eq-fold_left_first ◌+◌ (λ i. i * i) 3 8 2 add_assoc (omega arith) (omega arith)
