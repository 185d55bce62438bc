-- ===== src/ForEach/Tests.antt =====
-- The visits of a range of five elements, by evaluation.
use mathlib.Core.List.{Perm}
use parallel_load_balancing.Common.{ℕ, ◌≡◌, refl, arith, List, [], ◌∷◌}
use parallel_load_balancing.Tasks.{Runs, chunk, par, indices, IsGrained}
use parallel_load_balancing.ForEach.{for_each, for_each_chunks}
use parallel_load_balancing.ForEach.Laws.{for_each-Runs}

in_twos : for_each 3 8 2 ≡ par (chunk (3 ∷ 4 ∷ [])) (par (chunk (5 ∷ [])) (chunk (6 ∷ 7 ∷ [])))
unfolding for_each for_each_chunks
in_twos = refl

for_each-Runs_example :
    Runs ℕ (for_each 3 8 2) (indices 3 5)
    × ((order : List ℕ) → Runs ℕ (for_each 3 8 2) order → Perm order (indices 3 5))
    × IsGrained 2 (for_each 3 8 2)
for_each-Runs_example = for_each-Runs 3 8 2 (omega arith) (omega arith)
