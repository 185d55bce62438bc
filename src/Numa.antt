-- ===== src/Numa.antt =====
-- include/libfork/schedule/ext/numa.hpp and include/libfork/schedule/impl/numa_context.hpp: whom a
-- worker steals from. Workers are numbered as in the vector that is distributed; `dist i j` is the
-- topological distance of their processing units, which hwloc gives. `split` is taken to give one
-- handle for each worker.
mod Lists
mod Laws
mod Steal
mod Tests
use parallel_load_balancing.Common.{
  ℕ, zero, suc, ◌+◌, ◌*◌, Bool, true, false, List, [], ◌∷◌, ◌++◌, if◌then◌else◌, ◌==◌, ltb, length,
  get_or, set, drop, replicate, map,
}
use parallel_load_balancing.Tasks.{indices}

-- `std::set<int>::insert`
abbrev pub insert : ℕ → List ℕ → List ℕ
insert d [] = d ∷ []
insert d (x ∷ xs) =
    let rest = insert d xs in if ltb d x then d ∷ x ∷ xs else if d == x then x ∷ xs else x ∷ rest

-- `std::distance(uniques.begin(), uniques.find(d))`
abbrev pub index_of : ℕ → List ℕ → ℕ
index_of d [] = 0
index_of d (x ∷ xs) = if d == x then 0 else suc (index_of d xs)

-- `lists[b].push_back(j)`
abbrev pub push_at : ℕ → ℕ → List (List ℕ) → List (List ℕ)
push_at b j lists = set lists b (get_or lists b [] ++ j ∷ [])

module _ (dist : ℕ → ℕ → ℕ) where
  -- The first loop over j, which collects the distances from worker i.
  abbrev pub uniques : ℕ → List ℕ → List ℕ → List ℕ
  uniques i [] found = found
  uniques i (j ∷ js) found = uniques i js (if i == j then found else insert (dist i j) found)

  -- Which neighbors-list of worker i worker j is in.
  abbrev pub slot_of : ℕ → List ℕ → ℕ → ℕ
  slot_of i found j = if i == j then 0 else suc (index_of (dist i j) found)

  -- The second loop over j.
  abbrev pub fill : ℕ → List ℕ → List ℕ → List (List ℕ) → List (List ℕ)
  fill i found [] lists = lists
  fill i found (j ∷ js) lists = fill i found js (push_at (slot_of i found j) j lists)

  -- `distribute`: the neighbors-lists of worker i of n.
  abbrev pub neighbors : ℕ → ℕ → List (List ℕ)
  neighbors n i =
      let found = uniques i (indices 0 n) [] in
      fill i found (indices 0 n) (replicate (suc (length found)) [])

-- `distribute` where there is no hwloc: one list for all others.
abbrev pub fill_flat : ℕ → List ℕ → List (List ℕ) → List (List ℕ)
fill_flat i [] lists = lists
fill_flat i (j ∷ js) lists = fill_flat i js (if i == j then lists else push_at 1 j lists)

abbrev pub neighbors_flat : ℕ → ℕ → List (List ℕ)
neighbors_flat n i =
    fill_flat i (indices 0 n) (if ltb 1 n then (i ∷ []) ∷ [] ∷ [] else (i ∷ []) ∷ [])

-- `init_worker_and_bind`: all lists but the first one, which is the worker itself.
abbrev pub concat : List (List ℕ) → List ℕ
concat [] = []
concat (xs ∷ xss) = xs ++ concat xss

abbrev pub m_neigh : List (List ℕ) → List ℕ
m_neigh lists = concat (drop 1 lists)
