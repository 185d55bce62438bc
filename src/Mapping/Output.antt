-- ===== src/Mapping/Output.antt =====
-- What the output of `lf::map` holds in the end, whatever the order of its calls.
use mathlib.Core.Path.{subst}
use parallel_load_balancing.Common.{
  ℕ, zero, suc, ◌+◌, ◌-◌, ◌≤◌, ◌<◌, ◌≡◌, refl, sym, ap, List, [], ◌∷◌, ◌⊎◌, inl, inr, arith,
}
use parallel_load_balancing.Common.Family.{update, update_cases}
use parallel_load_balancing.Tasks.{Runs}
use parallel_load_balancing.Tasks.Laws.{Has, Runs-Has}
use parallel_load_balancing.Mapping.{calls, map_range, assign}
use parallel_load_balancing.Mapping.Laws.{map_range-Covers}

-- The call is one of those that the range owes.
abbrev Belongs : ℕ → ℕ → ℕ → ℕ × ℕ → Type 0
Belongs head out len (i, o) = (i ≡ head + (o - out)) × (out ≤ o) × (o < out + len)

calls-Belongs : (head out len : ℕ) (c : ℕ × ℕ) → Has c (calls head out len) → Belongs head out len c
calls-Belongs head out zero c h = elim h [ ]
calls-Belongs head out (suc len) c (inl e) =
    let p : c.0 ≡ head = ap (λ x. x.0) e in
    let q : c.1 ≡ out = ap (λ x. x.1) e in (omega (arith, p, q), omega (arith, q), omega (arith, q))
calls-Belongs head out (suc len) c (inr h) =
    let (p, q, r) = calls-Belongs (suc head) (suc out) len c h in
    (omega (arith, p, q), omega (arith, q), omega (arith, r))

calls-Has :
    (head out len j i o : ℕ)
    → j < len
    → i ≡ head + j
    → o ≡ out + j
    → Has (i, o) (calls head out len)
calls-Has head out zero j i o l e f = absurd (omega (arith, l))
calls-Has head out (suc len) zero i o l e f =
    let e' : i ≡ head = omega (arith, e) in
    let f' : o ≡ out = omega (arith, f) in rw (e', f') (inl refl)
calls-Has head out (suc len) (suc j) i o l e f = inr (
    calls-Has (suc head) (suc out) len j i o (omega (arith, l)) (omega (arith, e))
      (omega (arith, f)))

module _ {ℓ} {B : Type ℓ} (value : ℕ → B) (p : ℕ) (v : B) where
  -- Every call that writes to `p` writes `v`.
  abbrev Agrees : List (ℕ × ℕ) → Type ℓ
  Agrees order = (i o : ℕ) → Has (i, o) order → o ≡ p → value i ≡ v

  assign-keeps :
      (order : List (ℕ × ℕ)) (memory : ℕ → B)
      → Agrees order
      → memory p ≡ v
      → assign value order memory p ≡ v
  unfolding assign
  assign-keeps [] memory a e = e
  assign-keeps ((i, o) ∷ rest) memory a e =
      assign-keeps rest (update memory o (value i)) (λ k q h. a k q (inr h))
        (update_cases memory o (value i) (λ x. x ≡ v) p (λ f. a i o (inl refl) f) (λ ne. e))

  assign-sets :
      (order : List (ℕ × ℕ)) (memory : ℕ → B) (k : ℕ)
      → Agrees order
      → Has (k, p) order
      → assign value order memory p ≡ v
  unfolding assign
  assign-sets [] memory k a h = elim h [ ]
  assign-sets ((i, o) ∷ rest) memory k a (inl e) =
      assign-keeps rest (update memory o (value i)) (λ k q h. a k q (inr h))
        (update_cases memory o (value i) (λ x. x ≡ v) p (λ f. a i o (inl refl) f)
          (λ ne. absurd (ne (sym (ap (λ x. x.1) e)))))
  assign-sets ((i, o) ∷ rest) memory k a (inr h) =
      assign-sets rest (update memory o (value i)) k (λ k q h. a k q (inr h)) h

-- For a chunk size of at least 1, whatever the order in which the workers run the calls of `map`,
-- the output holds at the j-th position the function's value on the j-th element of the range, and
-- keeps what it held everywhere else.
pub assign-map_range {ℓ} :
    {B : Type ℓ} (value memory : ℕ → B) (head tail out n : ℕ) (order : List (ℕ × ℕ))
    → 1 ≤ n
    → head ≤ tail
    → Runs (ℕ × ℕ) (map_range head tail out n) order
    → ((j : ℕ) → j < tail - head → assign value order memory (out + j) ≡ value (head + j))
      × ((p : ℕ) → (p < out) ⊎ (out + (tail - head) ≤ p) → assign value order memory p ≡ memory p)
assign-map_range value memory head tail out n order l h r =
    let len = tail - head in
    let e = (map_range-Covers head tail out n l h).0 in
    let owed : (i o : ℕ) → Has (i, o) order → Belongs head out len (i, o) =
      λ i o g. calls-Belongs head out len (i, o) (subst (Has (i, o)) e ((Runs-Has (i, o) r).0 g)) in
    (
      λ j b.
          assign-sets value (out + j) (value (head + j)) order memory (head + j)
            (λ i o g f. let i' : i ≡ head + j = omega (arith, (owed i o g).0, f) in ap value i')
            ((Runs-Has (head + j, out + j) r).1 (
              subst (Has (head + j, out + j)) (sym e)
                (calls-Has head out len j (head + j) (out + j) b refl refl))),
      λ p b.
          assign-keeps value p (memory p) order memory
            (λ i o g f. absurd (ground (arith, owed i o g, f, b))) refl,
    )
