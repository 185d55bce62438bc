-- ===== src/Ring/Span.antt =====
-- The values that a ring holds at a range of its indices.
use parallel_load_balancing.Common.{
  ℕ, zero, suc, ◌+◌, ◌-◌, ◌≤◌, ◌<◌, ◌≡◌, refl, ap, ap₂, ◌∙◌, Option, none, some, List, [], ◌∷◌,
  ◌++◌, arith,
}

module _ {T : Type 0} where
  -- The values at `n` indices from `i` on.
  abbrev pub collect : (ℕ → Option T) → ℕ → ℕ → List T
  collect f i zero = []
  collect f i (suc n) =
      let rest = collect f (suc i) n in elim (f i) [ some x ↦ x ∷ rest | none ↦ rest ]

  pub collect-same :
      (f g : ℕ → Option T) (i n : ℕ)
      → ((j : ℕ) → i ≤ j → j < i + n → f j ≡ g j)
      → collect f i n ≡ collect g i n
  collect-same f g i zero h = refl
  collect-same f g i (suc n) h = ground (
    arith,
    h i (omega arith) (omega arith),
    collect-same f g (suc i) n (λ j u v. h j (omega arith) (omega arith)),
  )

  pub collect-snoc :
      (f : ℕ → Option T) (i n : ℕ) {x : T}
      → f (i + n) ≡ some x
      → collect f i (suc n) ≡ collect f i n ++ (x ∷ [])
  collect-snoc f i zero h = let e : f i ≡ some _ = ap f (omega arith) ∙ h in ground (arith, e)
  collect-snoc f i (suc n) {x} h =
      let e : f (suc i + n) ≡ some x = ap f (omega arith) ∙ h in
      ground (arith, collect-snoc f (suc i) n e)

  -- The values at the indices from `a` up to `b`.
  abbrev pub span : (ℕ → Option T) → ℕ → ℕ → List T
  span f a b = collect f a (b - a)

  pub span-same :
      (f g : ℕ → Option T) (a b : ℕ)
      → ((j : ℕ) → a ≤ j → j < b → f j ≡ g j)
      → span f a b ≡ span g a b
  span-same f g a b h = collect-same f g a (b - a) (λ j u v. h j u (omega arith))

  pub span-nil : (f : ℕ → Option T) (a b : ℕ) → b ≤ a → span f a b ≡ []
  span-nil f a b h = let e : b - a ≡ 0 = omega arith in rw e

  pub span-snoc :
      (f : ℕ → Option T) (a b : ℕ) {x : T}
      → a ≤ b
      → f b ≡ some x
      → span f a (suc b) ≡ span f a b ++ (x ∷ [])
  span-snoc f a b {x} h e =
      let n : suc b - a ≡ suc (b - a) = omega arith in
      let at : f (a + (b - a)) ≡ some x = ap f (omega arith) ∙ e in
      rw n (collect-snoc f a (b - a) at)

  pub span-cons :
      (f : ℕ → Option T) (a b : ℕ) {x : T}
      → a < b
      → f a ≡ some x
      → span f a b ≡ x ∷ span f (suc a) b
  span-cons f a b {x} h e =
      let n : b - a ≡ suc (b - suc a) = omega arith in rw n (ground (arith, e))

  pub span-ends : (f : ℕ → Option T) (a b a' b' : ℕ) → a ≡ a' → b ≡ b' → span f a b ≡ span f a' b'
  span-ends f a b a' b' = ap₂ (span f)
