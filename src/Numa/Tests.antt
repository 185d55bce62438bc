-- ===== src/Numa/Tests.antt =====
-- Five workers in two packages.
use parallel_load_balancing.Common.{
  ◌%◌, some, none, ℕ, ◌≡◌, refl, [], ◌∷◌, if◌then◌else◌, ltb, ◌==◌, arith,
}
use parallel_load_balancing.IntrusiveList.{occurs}
use parallel_load_balancing.Numa.{neighbors, m_neigh, neighbors_flat}
use parallel_load_balancing.DequeCommon.{Err, Steal, to_bool}
use parallel_load_balancing.Numa.Steal.{try_steal}
use parallel_load_balancing.Numa.Laws.{m_neigh-occurs}

-- Workers 0, 1 and 2 are close to each other, and so are 3 and 4.
abbrev dist : ℕ → ℕ → ℕ
dist i j = if ltb i 3 then (if ltb j 3 then 1 else 4) else (if ltb j 3 then 4 else 1)

lists_of_1 : neighbors dist 5 1 ≡ (1 ∷ []) ∷ (0 ∷ 2 ∷ []) ∷ (3 ∷ 4 ∷ []) ∷ []
lists_of_1 = refl

lists_of_3 : neighbors_flat 5 3 ≡ (3 ∷ []) ∷ (0 ∷ 1 ∷ 2 ∷ 4 ∷ []) ∷ []
lists_of_3 = refl

m_neigh-occurs_example :
    (occurs 4 (m_neigh (neighbors dist 5 1)) ≡ (if 1 == 4 then 0 else 1))
    × (occurs 4 (m_neigh (neighbors_flat 5 1)) ≡ (if 1 == 4 then 0 else 1))
m_neigh-occurs_example = m_neigh-occurs dist 5 1 4 (omega arith) (omega arith)

-- Worker 3 of the neighbors 0, 2, 3 and 4 has a task; 0 and 2, which are close, have none.
abbrev respond : ℕ → ℕ → Steal ℕ
respond t v =
    if v == 3
    then record { code = Err.success; val = some 77 }
    else record { code = Err.empty; val = none }

-- The close ones are asked in the order of the shuffle; the choices go round.
abbrev pick : ℕ → ℕ
pick i = i % 4

stolen_third : try_steal respond (0 ∷ 2 ∷ 3 ∷ 4 ∷ []) (2 ∷ 3 ∷ []) pick ≡ (some (some 77), 2)
unfolding to_bool
stolen_third = refl
