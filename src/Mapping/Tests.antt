-- ===== src/Mapping/Tests.antt =====
-- The assignments of a range of three elements, by evaluation.
use parallel_load_balancing.Common.{ℕ, ◌+◌, ◌*◌, ◌≤◌, ◌<◌, ◌≡◌, ◌⊎◌, arith, List, [], ◌∷◌}
use parallel_load_balancing.Tasks.{Runs, Shuffle, in_order, both}
use parallel_load_balancing.Mapping.{map_range, map_chunks, assign}
use parallel_load_balancing.Mapping.Output.{assign-map_range}

-- The second half runs first.
abbrev order : List (ℕ × ℕ)
order = (4, 11) ∷ (5, 12) ∷ (3, 10) ∷ []

order-Runs : Runs (ℕ × ℕ) (map_range 3 6 10 2) order
unfolding map_range map_chunks
order-Runs =
    both (in_order _) (in_order _) (Shuffle.right (Shuffle.right (Shuffle.left Shuffle.done)))

assign-map_range_example :
    ((j : ℕ) → j < 3 → assign (λ i. i * i) order (λ _. 0) (10 + j) ≡ (3 + j) * (3 + j))
    × ((p : ℕ) → (p < 10) ⊎ (13 ≤ p) → assign (λ i. i * i) order (λ _. 0) p ≡ 0)
assign-map_range_example =
    assign-map_range (λ i. i * i) (λ _. 0) 3 6 10 2 order (omega arith) (omega arith) order-Runs
