-- ===== src/Common/Family.antt =====
-- Families `ℕ → A` indexed by thread: the update at one index.
use Prim.Native.Nat.{ℕ}
use mathlib.Core.Path.{◌≡◌, refl}
use mathlib.Core.Logic.{ite, if_pos, if_neg, ◌≢◌}
use native.Mathlib.Decide.{ℕ_discrete}

module _ {ℓ} {A : Type ℓ} where
  -- The family with `new` for the thread `at`.
  abbrev pub update : (ℕ → A) → ℕ → A → ℕ → A
  update family at new = λ t. ite (ℕ_discrete at t) new (family t)

module _ {ℓ} {A : Type ℓ} (f : ℕ → A) (i : ℕ) (a : A) where
  pub update_self : update f i a i ≡ a
  update_self = if_pos (ℕ_discrete i i) refl a (f i)

  pub update_other : {j : ℕ} → i ≢ j → update f i a j ≡ f j
  update_other {j} ne = if_neg (ℕ_discrete i j) ne a (f j)

  -- To prove something of an updated family at `j`.
  pub update_cases {κ} :
      (P : A → Type κ) (j : ℕ) → (i ≡ j → P a) → (i ≢ j → P (f j)) → P (update f i a j)
  update_cases P j h k = elim (ℕ_discrete i j) [
    | yes e ↦ rw (if_pos (ℕ_discrete i j) e) (h e)
    | no ne ↦ rw (update_other ne) (k ne)
  ]
