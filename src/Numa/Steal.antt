-- ===== src/Numa/Steal.antt =====
-- include/libfork/schedule/impl/numa_context.hpp: `try_steal`. `respond t v` is what worker v gives when
-- it is the t-th one asked, `pick i` the i-th choice of the distribution; both, and the shuffle that
-- `m_close` has gone through, are the library's and the other workers'.
use parallel_load_balancing.Common.{
  ℕ, zero, suc, ◌+◌, ◌-◌, ◌*◌, ◌≤◌, ◌<◌, ◌≡◌, ◌⊎◌, inl, inr, refl, sym, ap, ◌∙◌, true, Option, none,
  some, List, [], ◌∷◌, if◌then◌else◌, ◌==◌, length, get_or, arith, if_intro,
}
use parallel_load_balancing.DequeCommon.{Steal, to_bool}
use parallel_load_balancing.IntrusiveList.{occurs}

abbrev pub k_min_steal_attempts : ℕ
k_min_steal_attempts = 1024

abbrev pub k_steal_attempts_per_target : ℕ
k_steal_attempts_per_target = 32

occurs-get_or : (xs : List ℕ) (i : ℕ) → i < length xs → 1 ≤ occurs (get_or xs i 0) xs
occurs-get_or [] i h = absurd (omega (arith, h))
occurs-get_or (x ∷ xs) zero h = ground arith
occurs-get_or (x ∷ xs) (suc i) h = omega (arith, occurs-get_or xs i (omega (arith, h)))

-- How many are asked at random.
abbrev pub attempts_for : ℕ → ℕ
attempts_for targets = k_min_steal_attempts + k_steal_attempts_per_target * targets

module _ {T : Type 0} (respond : ℕ → ℕ → Steal T) where
  -- The loop over the closest workers, and how many have been asked when it is left. It is left
  -- with a task, which the value of a steal that succeeds is, or goes to its end.
  abbrev pub try_close : List ℕ → ℕ → Option (Option T) × ℕ
  try_close [] t = (none, t)
  try_close (v ∷ vs) t =
      let rest = try_close vs (suc t) in
      if to_bool (respond t v) then (some (respond t v).val, suc t) else rest

  -- The loop over workers taken at random, with `attempts` rounds left.
  abbrev pub try_random : List ℕ → (ℕ → ℕ) → ℕ → ℕ → ℕ → Option (Option T) × ℕ
  try_random neigh pick zero i t = (none, t)
  try_random neigh pick (suc attempts) i t =
      let v = get_or neigh (pick i) 0 in
      let rest = try_random neigh pick attempts (suc i) (suc t) in
      if to_bool (respond t v) then (some (respond t v).val, suc t) else rest

  abbrev pub then_random : List ℕ → (ℕ → ℕ) → Option (Option T) × ℕ → Option (Option T) × ℕ
  then_random neigh pick (some task, t) = (some task, t)
  then_random neigh pick (none, t) = try_random neigh pick (attempts_for (length neigh)) 0 t

  -- `none` is the return of `nullptr` at the end.
  abbrev pub try_steal : List ℕ → List ℕ → (ℕ → ℕ) → Option (Option T) × ℕ
  try_steal neigh close pick =
      if length neigh == 0 then (none, 0) else then_random neigh pick (try_close close 0)

  -- The last worker asked is a neighbor, and has given the task.
  abbrev pub IsStolen : List ℕ → Option (Option T) × ℕ → Type 0
  IsStolen neigh r =
      (v : ℕ) × (1 ≤ occurs v neigh)
      × (to_bool (respond (r.1 - 1) v) ≡ true)
      × (r.0 ≡ some (respond (r.1 - 1) v).val)

  -- Nobody has given one, and k have been asked.
  abbrev pub IsOver : ℕ → Option (Option T) × ℕ → Type 0
  IsOver k r = (r.0 ≡ none) × (r.1 ≡ k)

  IsStolen-intro :
      (neigh : List ℕ) (t v : ℕ)
      → 1 ≤ occurs v neigh
      → to_bool (respond t v) ≡ true
      → IsStolen neigh (some (respond t v).val, suc t)
  IsStolen-intro neigh t v h e =
      let last : t ≡ suc t - 1 = omega arith in
      (v, h, ap (λ k. to_bool (respond k v)) (sym last) ∙ e, ap (λ k. some (respond k v).val) last)

  try_close-IsStolen :
      (neigh vs : List ℕ) (t : ℕ)
      → ((v : ℕ) → 1 ≤ occurs v vs → 1 ≤ occurs v neigh)
      → IsStolen neigh (try_close vs t) ⊎ IsOver (t + length vs) (try_close vs t)
  try_close-IsStolen neigh [] t h = inr (refl, omega arith)
  try_close-IsStolen neigh (v ∷ vs) t h =
      let P = λ (r : Option (Option T) × ℕ). IsStolen neigh r ⊎ IsOver (t + length (v ∷ vs)) r in
      if_intro P (to_bool (respond t v))
        (λ e. inl (IsStolen-intro neigh t v (h v (ground arith)) e))
        (λ e. elim (try_close-IsStolen neigh vs (suc t) (λ w l. h w (omega (arith, l)))) [
          | inl won ↦ inl won
          | inr (a, b) ↦ inr (a, omega (arith, b))
        ])

  try_random-IsStolen :
      (neigh : List ℕ) (pick : ℕ → ℕ) (attempts i t : ℕ)
      → ((k : ℕ) → pick k < length neigh)
      → IsStolen neigh (try_random neigh pick attempts i t)
        ⊎ IsOver (t + attempts) (try_random neigh pick attempts i t)
  try_random-IsStolen neigh pick zero i t h = inr (refl, omega arith)
  try_random-IsStolen neigh pick (suc attempts) i t h =
      let v = get_or neigh (pick i) 0 in
      let P = λ (r : Option (Option T) × ℕ). IsStolen neigh r ⊎ IsOver (t + suc attempts) r in
      if_intro P (to_bool (respond t v))
        (λ e. inl (IsStolen-intro neigh t v (occurs-get_or neigh (pick i) (h i)) e))
        (λ e. elim (try_random-IsStolen neigh pick attempts (suc i) (suc t) h) [
          | inl won ↦ inl won
          | inr (a, b) ↦ inr (a, omega (arith, b))
        ])

  then_random-IsStolen :
      (neigh : List ℕ) (pick : ℕ → ℕ) (k : ℕ) (p : Option (Option T) × ℕ)
      → ((i : ℕ) → pick i < length neigh)
      → IsStolen neigh p ⊎ IsOver k p
      → IsStolen neigh (then_random neigh pick p)
        ⊎ IsOver (k + attempts_for (length neigh)) (then_random neigh pick p)
  then_random-IsStolen neigh pick k (some task, t) h (inl won) = inl won
  then_random-IsStolen neigh pick k (some task, t) h (inr (a, b)) = ground (arith, a)
  then_random-IsStolen neigh pick k (none, t) h (inl (v, a, b, e)) = ground (arith, e)
  then_random-IsStolen neigh pick k (none, t) h (inr (a, b)) =
      elim (try_random-IsStolen neigh pick (attempts_for (length neigh)) 0 t h) [
        | inl won ↦ inl won
        | inr (c, d) ↦ inr (c, omega (arith, b, d))
      ]

  -- If the closest workers are neighbors and the choices are in range, then `try_steal` returns what a
  -- neighbor gave that was the last one it asked; or nothing, after it has asked each of the closest
  -- ones and 1024 + 32 n others, where n is the number of neighbors.
  pub try_steal-IsStolen :
      (neigh close : List ℕ) (pick : ℕ → ℕ)
      → ((i : ℕ) → pick i < length neigh)
      → ((v : ℕ) → 1 ≤ occurs v close → 1 ≤ occurs v neigh)
      → IsStolen neigh (try_steal neigh close pick)
        ⊎ IsOver (length close + attempts_for (length neigh)) (try_steal neigh close pick)
  try_steal-IsStolen neigh close pick h k =
      let P = λ (r : Option (Option T) × ℕ).
        IsStolen neigh r ⊎ IsOver (length close + attempts_for (length neigh)) r in
      if_intro P (length neigh == 0) (λ e. let few = h 0 in ground (arith, few, e))
        (λ e.
          then_random-IsStolen neigh pick (length close) (try_close close 0) h
            (elim (try_close-IsStolen neigh close 0 k) [
              | inl won ↦ inl won
              | inr (a, b) ↦ inr (a, omega (arith, b))
            ]))
