-- ===== src/Tasks/Laws.antt =====
-- The orders in which the calls of a task may be made, beside the sequential one.
use mathlib.Core.List.{Perm, perm_middle}
use mathlib.Core.List.Perm
use parallel_load_balancing.Common.{
  ℕ, zero, suc, ◌+◌, ◌≡◌, ◌⊎◌, ◌↔◌, inl, inr, refl, ap, List, [], ◌∷◌, ◌++◌, length, arith,
}
use parallel_load_balancing.Tasks.{
  Work, chunk, par, Shuffle, done, left, right, Runs, in_order, both, items, indices,
}

module _ {A : Type 0} where
  Shuffle-perm : {xs ys zs : List A} → Shuffle A xs ys zs → Perm zs (xs ++ ys)
  Shuffle-perm done = Perm.refl []
  Shuffle-perm (left {x} s) = Perm.cons x (Shuffle-perm s)
  Shuffle-perm (right {y} {xs} {ys} s) =
      Perm.trans (Perm.cons y (Shuffle-perm s)) (Perm.symm (perm_middle xs ys))

  pub Runs-perm : {w : Work A} {zs : List A} → Runs A w zs → Perm zs (items w)
  Runs-perm (in_order xs) = Perm.refl xs
  Runs-perm (both {a} {b} {xs} {ys} r q s) =
      Perm.trans (Shuffle-perm s) (Perm.append (Runs-perm r) (Runs-perm q))

  Shuffle-right : (ys : List A) → Shuffle A [] ys ys
  Shuffle-right [] = done
  Shuffle-right (y ∷ ys) = right (Shuffle-right ys)

  Shuffle-append : (xs ys : List A) → Shuffle A xs ys (xs ++ ys)
  Shuffle-append [] ys = Shuffle-right ys
  Shuffle-append (x ∷ xs) ys = left (Shuffle-append xs ys)

  pub Runs-items : (w : Work A) → Runs A w (items w)
  Runs-items (chunk xs) = in_order xs
  Runs-items (par a b) = both (Runs-items a) (Runs-items b) (Shuffle-append (items a) (items b))

pub indices-append :
    (head m n mid len : ℕ)
    → mid ≡ head + m
    → len ≡ m + n
    → indices head m ++ indices mid n ≡ indices head len
indices-append head zero n mid len e f =
    let e' : mid ≡ head = omega (arith, e) in
    let f' : len ≡ n = omega (arith, f) in rw (e', f') refl
indices-append head (suc m) n mid len e f =
    let f' : len ≡ suc (m + n) = omega (arith, f) in
    rw f' (ap (λ xs. head ∷ xs) (indices-append (suc head) m n mid (m + n) (omega (arith, e)) refl))

pub length-indices : (head n : ℕ) → length (indices head n) ≡ n
length-indices head zero = refl
length-indices head (suc n) = ap suc (length-indices (suc head) n)

module _ {A : Type 0} where
  abbrev pub Has : A → List A → Type 0
  Has c [] = ⊥
  Has c (x ∷ xs) = (c ≡ x) ⊎ Has c xs

  Has-append_left : (c : A) (xs ys : List A) → Has c xs → Has c (xs ++ ys)
  Has-append_left c [] ys h = elim h [ ]
  Has-append_left c (x ∷ xs) ys (inl e) = inl e
  Has-append_left c (x ∷ xs) ys (inr h) = inr (Has-append_left c xs ys h)

  Has-append_right : (c : A) (xs ys : List A) → Has c ys → Has c (xs ++ ys)
  Has-append_right c [] ys h = h
  Has-append_right c (x ∷ xs) ys h = inr (Has-append_right c xs ys h)

  Has-append_split : (c : A) (xs ys : List A) → Has c (xs ++ ys) → Has c xs ⊎ Has c ys
  Has-append_split c [] ys h = inr h
  Has-append_split c (x ∷ xs) ys (inl e) = inl (inl e)
  Has-append_split c (x ∷ xs) ys (inr h) = elim (Has-append_split c xs ys h) [
    | inl p ↦ inl (inr p)
    | inr p ↦ inr p
  ]

  Shuffle-Has : {xs ys zs : List A} (c : A) → Shuffle A xs ys zs → Has c zs ↔ (Has c xs ⊎ Has c ys)
  Shuffle-Has c done = (λ h. absurd h, λ h. elim h [ inl p ↦ p | inr p ↦ p ])
  Shuffle-Has c (left {x} s) =
      let (to, from) = Shuffle-Has c s in
      (
        λ h. elim h [
          | inl e ↦ inl (inl e)
          | inr p ↦ elim (to p) [ inl q ↦ inl (inr q) | inr q ↦ inr q ]
        ],
        λ h. elim h [
          | inl p ↦ elim p [ inl e ↦ inl e | inr q ↦ inr (from (inl q)) ]
          | inr q ↦ inr (from (inr q))
        ],
      )
  Shuffle-Has c (right {y} s) =
      let (to, from) = Shuffle-Has c s in
      (
        λ h. elim h [
          | inl e ↦ inr (inl e)
          | inr p ↦ elim (to p) [ inl q ↦ inl q | inr q ↦ inr (inr q) ]
        ],
        λ h. elim h [
          | inl q ↦ inr (from (inl q))
          | inr p ↦ elim p [ inl e ↦ inl e | inr q ↦ inr (from (inr q)) ]
        ],
      )

  -- Every order makes the calls of the sequential one, and no others.
  pub Runs-Has : {w : Work A} {zs : List A} (c : A) → Runs A w zs → Has c zs ↔ Has c (items w)
  Runs-Has c (in_order xs) = (λ h. h, λ h. h)
  Runs-Has c (both {a} {b} r q s) =
      let (to, from) = Shuffle-Has c s in
      let (to_a, from_a) = Runs-Has c r in
      let (to_b, from_b) = Runs-Has c q in
      (
        λ h. elim (to h) [
          | inl p ↦ Has-append_left c (items a) (items b) (to_a p)
          | inr p ↦ Has-append_right c (items a) (items b) (to_b p)
        ],
        λ h. elim (Has-append_split c (items a) (items b) h) [
          | inl p ↦ from (inl (from_a p))
          | inr p ↦ from (inr (from_b p))
        ],
      )
