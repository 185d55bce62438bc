-- ===== src/Numa/Lists.antt =====
-- Sets of distances as sorted lists, and lists of lists.
use parallel_load_balancing.Common.{
  ℕ, suc, ◌+◌, ◌≤◌, ◌<◌, ◌≡◌, ◌≢◌, List, [], ◌∷◌, ◌++◌, ◌==◌, ltb, length, arith, if_intro,
  ℕ_discrete,
}
use parallel_load_balancing.IntrusiveList.{occurs}
use parallel_load_balancing.Numa.{insert, index_of}

pub occurs-append : (k : ℕ) (xs ys : List ℕ) → occurs k (xs ++ ys) ≡ occurs k xs + occurs k ys
occurs-append k [] ys = omega arith
occurs-append k (x ∷ xs) ys = omega (arith, occurs-append k xs ys)

-- A member is found before the end.
pub index_of-lt : (d : ℕ) (xs : List ℕ) → 1 ≤ occurs d xs → index_of d xs < length xs
index_of-lt d [] h = absurd (omega arith)
index_of-lt d (x ∷ xs) h =
    if_intro (λ (k : ℕ). k < suc (length xs)) (d == x) (λ e. omega arith)
      (λ e.
        let rest : 1 ≤ occurs d xs = ground (arith, e, h) in omega (arith, index_of-lt d xs rest))

-- An insertion keeps what is there, and adds its element if it is not.
pub occurs-insert : (k d : ℕ) (xs : List ℕ) → occurs k xs ≤ occurs k (insert d xs)
occurs-insert k d [] = omega arith
occurs-insert k d (x ∷ xs) =
    if_intro (λ (ys : List ℕ). occurs k (x ∷ xs) ≤ occurs k ys) (ltb d x) (λ e. omega arith)
      (λ e.
        if_intro (λ (ys : List ℕ). occurs k (x ∷ xs) ≤ occurs k ys) (d == x) (λ f. omega arith)
          (λ f. omega (arith, occurs-insert k d xs)))

pub occurs-insert_self : (d : ℕ) (xs : List ℕ) → 1 ≤ occurs d (insert d xs)
occurs-insert_self d [] = ground arith
occurs-insert_self d (x ∷ xs) =
    if_intro (λ (ys : List ℕ). 1 ≤ occurs d ys) (ltb d x) (λ e. ground arith)
      (λ e.
        if_intro (λ (ys : List ℕ). 1 ≤ occurs d ys) (d == x) (λ f. ground (arith, f))
          (λ f. omega (arith, occurs-insert_self d xs)))

-- Every element is larger than those before it.
abbrev pub IsSorted : List ℕ → Type 0
IsSorted [] = ℕ
IsSorted (x ∷ xs) = ((d : ℕ) → 1 ≤ occurs d xs → x < d) × IsSorted xs

-- What is found after an insertion was there, or has been inserted.
insert-occurs : (k d : ℕ) (xs : List ℕ) → k ≢ d → 1 ≤ occurs k (insert d xs) → 1 ≤ occurs k xs
insert-occurs k d [] ne = λ h. ground (arith, ne, h)
insert-occurs k d (x ∷ xs) ne =
    if_intro (λ (ys : List ℕ). 1 ≤ occurs k ys → 1 ≤ occurs k (x ∷ xs)) (ltb d x)
      (λ e h. ground (arith, ne, h))
      (λ e.
        if_intro (λ (ys : List ℕ). 1 ≤ occurs k ys → 1 ≤ occurs k (x ∷ xs)) (d == x) (λ f h. h)
          (λ f h. elim (ℕ_discrete k x) [
            | yes q ↦ ground (arith, q)
            | no other ↦
                let rest : 1 ≤ occurs k (insert d xs) = ground (arith, h, other) in
                omega (arith, insert-occurs k d xs ne rest)
          ]))

pub insert-IsSorted : (d : ℕ) (xs : List ℕ) → IsSorted xs → IsSorted (insert d xs)
insert-IsSorted d [] s = ((λ k h. absurd (omega (arith, h))), 0)
insert-IsSorted d (x ∷ xs) (least, s) =
    if_intro IsSorted (ltb d x)
      (λ e.
        let lt : d < x = ground (arith, e) in
        (
          λ k h. elim (ℕ_discrete k x) [
            | yes q ↦ omega (arith, q, lt)
            | no ne ↦
                let rest : 1 ≤ occurs k xs = ground (arith, h, ne) in
                omega (arith, least k rest, lt)
          ],
          (least, s),
        ))
      (λ e.
        if_intro IsSorted (d == x) (λ f. (least, s))
          (λ f. (
            λ k h. elim (ℕ_discrete k d) [
              | yes q ↦ ground (arith, q, e, f)
              | no ne ↦ least k (insert-occurs k d xs ne h)
            ],
            insert-IsSorted d xs s,
          )))

-- In a sorted list the smaller of two members comes first.
pub index_of_mono :
    (d e : ℕ) (xs : List ℕ)
    → IsSorted xs
    → 1 ≤ occurs d xs
    → 1 ≤ occurs e xs
    → d < e
    → index_of d xs < index_of e xs
index_of_mono d e [] s h k lt = absurd (omega (arith, h))
index_of_mono d e (x ∷ xs) (least, s) h k lt = elim (ℕ_discrete d x) [
  | yes p ↦ ground (arith, p, lt)
  | no ne ↦
      let member : 1 ≤ occurs d xs = ground (arith, h, ne) in
      let above = least d member in
      let other : e ≢ x = λ q. omega (arith, q, above, lt) in
      let member' : 1 ≤ occurs e xs = ground (arith, k, other) in
      ground (arith, ne, other, index_of_mono d e xs s member member' lt)
]
