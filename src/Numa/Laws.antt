-- ===== src/Numa/Laws.antt =====
-- The neighbors-lists of a worker.
use parallel_load_balancing.Common.{
  ℕ, zero, suc, ◌+◌, ◌≤◌, ◌<◌, ◌≡◌, ◌≢◌, refl, ap, ◌∙◌, List, [], ◌∷◌, ◌++◌, if◌then◌else◌, ◌==◌,
  ltb, length, get_or, drop, replicate, length-set, length-replicate, arith, if_intro,
  get_or-set_self, get_or-set_ne, ℕ_discrete,
}
use parallel_load_balancing.Tasks.{indices}
use parallel_load_balancing.IntrusiveList.{occurs}
use parallel_load_balancing.Numa.{
  push_at, uniques, slot_of, fill, neighbors, concat, m_neigh, fill_flat, neighbors_flat,
}
use parallel_load_balancing.Numa.Lists.{
  occurs-append, index_of-lt, occurs-insert, occurs-insert_self, IsSorted, insert-IsSorted,
  index_of_mono,
}

occurs-indices_below : (k head n : ℕ) → k < head → occurs k (indices head n) ≡ 0
occurs-indices_below k head zero h = refl
occurs-indices_below k head (suc n) h =
    ground (arith, h, occurs-indices_below k (suc head) n (omega (arith, h)))

occurs-indices : (k head n : ℕ) → head ≤ k → k < head + n → occurs k (indices head n) ≡ 1
occurs-indices k head zero h l = absurd (omega (arith, h, l))
occurs-indices k head (suc n) h l = elim (ℕ_discrete k head) [
  | yes e ↦ ground (arith, e, occurs-indices_below k (suc head) n (omega (arith, e)))
  | no ne ↦
      ground (arith, ne, occurs-indices k (suc head) n (omega (arith, h, ne)) (omega (arith, l)))
]

-- What a push_back adds to a list.
push_at-occurs :
    (k b j c : ℕ) (lists : List (List ℕ))
    → c < length lists
    → occurs k (get_or (push_at b j lists) c [])
      ≡ occurs k (get_or lists c []) + (if b == c then occurs k (j ∷ []) else 0)
push_at-occurs k b j c lists h = elim (ℕ_discrete b c) [
  | yes e ↦
      let at : get_or (push_at b j lists) c [] ≡ get_or lists c [] ++ j ∷ [] =
        ap (λ x. get_or (push_at x j lists) c []) e
        ∙ get_or-set_self lists c (get_or lists c [] ++ j ∷ []) [] h in
      ap (occurs k) at ∙ occurs-append k (get_or lists c []) (j ∷ []) ∙ ground (arith, e)
  | no ne ↦
      ap (occurs k) (get_or-set_ne lists {i = b} {j = c} (get_or lists b [] ++ j ∷ []) [] ne)
      ∙ ground (arith, ne)
]

module _ (dist : ℕ → ℕ → ℕ) (i : ℕ) where
  uniques-IsSorted : (js found : List ℕ) → IsSorted found → IsSorted (uniques dist i js found)
  uniques-IsSorted [] found s = s
  uniques-IsSorted (j ∷ js) found s =
      uniques-IsSorted js _
        (if_intro IsSorted (i == j) (λ _. s) (λ _. insert-IsSorted (dist i j) found s))

  uniques-keeps :
      (js found : List ℕ) (d : ℕ) → 1 ≤ occurs d found → 1 ≤ occurs d (uniques dist i js found)
  uniques-keeps [] found d h = h
  uniques-keeps (j ∷ js) found d h = uniques-keeps js _ d (
      if_intro (λ (xs : List ℕ). 1 ≤ occurs d xs) (i == j) (λ _. h)
        (λ _. omega (arith, h, occurs-insert d (dist i j) found)))

  -- The distance of every other worker is found.
  uniques-occurs :
      (js found : List ℕ) (j : ℕ)
      → i ≢ j
      → 1 ≤ occurs j js
      → 1 ≤ occurs (dist i j) (uniques dist i js found)
  uniques-occurs [] found j ne h = absurd (omega (arith, h))
  uniques-occurs (k ∷ js) found j ne h = elim (ℕ_discrete j k) [
    | yes e ↦ uniques-keeps js _ (dist i j) (
        if_intro (λ (xs : List ℕ). 1 ≤ occurs (dist i j) xs) (i == k)
          (λ q. ground (arith, q, e, ne)) (λ _. rw e (occurs-insert_self (dist i k) found)))
    | no other ↦
        let rest : 1 ≤ occurs j js = ground (arith, h, other) in uniques-occurs js _ j ne rest
  ]

  fill-length :
      (found js : List ℕ) (lists : List (List ℕ))
      → length (fill dist i found js lists) ≡ length lists
  fill-length found [] lists = refl
  fill-length found (j ∷ js) lists =
      fill-length found js (push_at (slot_of dist i found j) j lists) ∙ length-set lists _ _

  -- A worker comes into the list of its slot as often as it is gone over.
  fill-occurs :
      (found js : List ℕ) (lists : List (List ℕ)) (k b : ℕ)
      → b < length lists
      → occurs k (get_or (fill dist i found js lists) b [])
        ≡ occurs k (get_or lists b []) + (if slot_of dist i found k == b then occurs k js else 0)
  fill-occurs found [] lists k b h = ground arith
  fill-occurs found (j ∷ js) lists k b h =
      let s = slot_of dist i found j in
      let room : b < length (push_at s j lists) =
        omega (arith, h, length-set lists s (get_or lists s [] ++ j ∷ [])) in
      let more = push_at-occurs k s j b lists h in
      fill-occurs found js (push_at s j lists) k b room ∙ elim (ℕ_discrete k j) [
        | yes e ↦
            let same : slot_of dist i found k ≡ s = ap (slot_of dist i found) e in
            ground (arith, more, same, e)
        | no ne ↦ ground (arith, more, ne)
      ]

get_or-replicate : (n b : ℕ) → get_or {A = List ℕ} (replicate n []) b [] ≡ []
get_or-replicate zero b = refl
get_or-replicate (suc n) zero = refl
get_or-replicate (suc n) (suc b) = get_or-replicate n b

module _ (dist : ℕ → ℕ → ℕ) (n i : ℕ) where
  abbrev found : List ℕ
  found = uniques dist i (indices 0 n) []

  neighbors-length : length (neighbors dist n i) ≡ suc (length found)
  neighbors-length =
      fill-length dist i found (indices 0 n) (replicate (suc (length found)) [])
      ∙ length-replicate (suc (length found)) []

  -- A worker is in the list of its slot once, and in no other.
  neighbors-occurs :
      (j b : ℕ)
      → j < n
      → b < length (neighbors dist n i)
      → occurs j (get_or (neighbors dist n i) b []) ≡ (if slot_of dist i found j == b then 1 else 0)
  neighbors-occurs j b h l =
      let lists : List (List ℕ) = replicate (suc (length found)) [] in
      let room : b < length lists =
        omega (arith, l, neighbors-length, length-replicate {A = List ℕ} (suc (length found)) []) in
      let none_yet : occurs j (get_or lists b []) ≡ 0 =
        ap (occurs j) (get_or-replicate (suc (length found)) b) in
      let once : occurs j (indices 0 n) ≡ 1 =
        occurs-indices j 0 n (omega arith) (omega (arith, h)) in
      fill-occurs dist i found (indices 0 n) lists j b room ∙ ground (arith, none_yet, once)

  slot_of-lt : (j : ℕ) → j < n → slot_of dist i found j < length (neighbors dist n i)
  slot_of-lt j h =
      let once : occurs j (indices 0 n) ≡ 1 =
        occurs-indices j 0 n (omega arith) (omega (arith, h)) in
      elim (ℕ_discrete i j) [
        | yes e ↦ ground (arith, e, neighbors-length)
        | no ne ↦
            let member = uniques-occurs dist i (indices 0 n) [] j ne (omega (arith, once)) in
            ground (arith, ne, neighbors-length, index_of-lt (dist i j) found member)
      ]

-- The whole of a list of lists in which one worker is in the list with the number s, if they are
-- counted from o on.
concat-occurs :
    (k s o : ℕ) (lists : List (List ℕ))
    → ((b : ℕ) → b < length lists → occurs k (get_or lists b []) ≡ (if s == o + b then 1 else 0))
    → occurs k (concat lists) ≡ (if ltb s o then 0 else if ltb s (o + length lists) then 1 else 0)
concat-occurs k s o [] h = ground arith
concat-occurs k s o (xs ∷ xss) h =
    let first = h 0 (omega arith) in
    let rest = concat-occurs k s (suc o) xss (λ b l.
      let e : o + suc b ≡ suc o + b = omega arith in
      h (suc b) (omega (arith, l)) ∙ ap (λ z. if s == z then 1 else 0) e) in
    ground (arith, first, rest, occurs-append k xs (concat xss))

concat-occurs-drop :
    (k s : ℕ) (lists : List (List ℕ))
    → ((b : ℕ) → b < length lists → occurs k (get_or lists b []) ≡ (if s == b then 1 else 0))
    → occurs k (concat (drop 1 lists))
      ≡ (if ltb s 1 then 0 else if ltb s (length lists) then 1 else 0)
concat-occurs-drop k s [] h = ground arith
concat-occurs-drop k s (xs ∷ xss) h =
    let rest = concat-occurs k s 1 xss (λ b l.
      let e : suc b ≡ 1 + b = omega arith in
      h (suc b) (omega (arith, l)) ∙ ap (λ z. if s == z then 1 else 0) e) in
    ground (arith, rest)

m_neigh-neighbors :
    (dist : ℕ → ℕ → ℕ) (n i j : ℕ)
    → j < n
    → occurs j (m_neigh (neighbors dist n i)) ≡ (if i == j then 0 else 1)
m_neigh-neighbors dist n i j q =
    let s = slot_of dist i (found dist n i) j in
    let whole =
      concat-occurs-drop j s (neighbors dist n i) (λ b l. neighbors-occurs dist n i j b q l) in
    whole ∙ elim (ℕ_discrete i j) [
      | yes e ↦ ground (arith, e)
      | no ne ↦ ground (arith, ne, slot_of-lt dist n i j q)
    ]

-- The list of the others, however much is in it already.
fill_flat-occurs :
    (i j : ℕ) (js own rest : List ℕ)
    → occurs j (m_neigh (fill_flat i js (own ∷ rest ∷ [])))
      ≡ occurs j rest + (if i == j then 0 else occurs j js)
fill_flat-occurs i j [] own rest = ground (arith, occurs-append j rest [])
fill_flat-occurs i j (k ∷ js) own rest = elim (ℕ_discrete i k) [
  | yes e ↦ ground (arith, e, fill_flat-occurs i j js own rest)
  | no ne ↦
      let more = fill_flat-occurs i j js own (rest ++ k ∷ []) in
      ground (arith, ne, more, occurs-append j rest (k ∷ []))
]

m_neigh-neighbors_flat :
    (n i j : ℕ)
    → i < n
    → j < n
    → occurs j (m_neigh (neighbors_flat n i)) ≡ (if i == j then 0 else 1)
m_neigh-neighbors_flat n i j p q =
    let once : occurs j (indices 0 n) ≡ 1 = occurs-indices j 0 n (omega arith) (omega (arith, q)) in
    if_intro
      (λ (ls : List (List ℕ)).
        occurs j (m_neigh (fill_flat i (indices 0 n) ls)) ≡ (if i == j then 0 else 1))
      (ltb 1 n) (λ e. fill_flat-occurs i j (indices 0 n) (i ∷ []) [] ∙ ground (arith, once))
      (λ e.
        let few : n ≤ 1 = ground (arith, e) in
        let one : n ≡ 1 = omega (arith, few, p) in
        let i_first : i ≡ 0 = omega (arith, few, p) in
        let j_first : j ≡ 0 = omega (arith, few, q) in rw (one, i_first, j_first) refl)

-- Of n workers each of the others is once among those that worker i steals from, and worker i itself
-- is not, for any distances, and where there is no hwloc.
pub m_neigh-occurs :
    (dist : ℕ → ℕ → ℕ) (n i j : ℕ)
    → i < n
    → j < n
    → (occurs j (m_neigh (neighbors dist n i)) ≡ (if i == j then 0 else 1))
      × (occurs j (m_neigh (neighbors_flat n i)) ≡ (if i == j then 0 else 1))
m_neigh-occurs dist n i j p q = (m_neigh-neighbors dist n i j q, m_neigh-neighbors_flat n i j p q)

-- For any distances, a nearer worker is in an earlier neighbors-list.
pub neighbors-nearer :
    (dist : ℕ → ℕ → ℕ) (n i j k b c : ℕ)
    → j < n
    → k < n
    → i ≢ j
    → i ≢ k
    → b < length (neighbors dist n i)
    → c < length (neighbors dist n i)
    → occurs j (get_or (neighbors dist n i) b []) ≡ 1
    → occurs k (get_or (neighbors dist n i) c []) ≡ 1
    → dist i j < dist i k
    → b < c
neighbors-nearer dist n i j k b c p q nj nk lb lc hj hk lt =
    let once_j : occurs j (indices 0 n) ≡ 1 =
      occurs-indices j 0 n (omega arith) (omega (arith, p)) in
    let once_k : occurs k (indices 0 n) ≡ 1 =
      occurs-indices k 0 n (omega arith) (omega (arith, q)) in
    let before =
      index_of_mono (dist i j) (dist i k) (found dist n i)
        (uniques-IsSorted dist i (indices 0 n) [] 0)
        (uniques-occurs dist i (indices 0 n) [] j nj (omega (arith, once_j)))
        (uniques-occurs dist i (indices 0 n) [] k nk (omega (arith, once_k))) lt in
    ground (
      arith,
      before,
      neighbors-occurs dist n i j b p lb,
      neighbors-occurs dist n i k c q lc,
      hj,
      hk,
      nj,
      nk,
    )
