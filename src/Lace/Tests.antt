-- ===== src/Lace/Tests.antt =====
-- A push, a steal and a failed pop.
use parallel_load_balancing.Common.{
  ℕ, ◌≡◌, refl, true, false, none, some, List, [], ◌∷◌, arith, ℕ_discrete,
}
use parallel_load_balancing.Common.Family.{update}
use parallel_load_balancing.DequeCommon.{Event, Spec, inner, pushed, stole}
use parallel_load_balancing.Lace.Run
use parallel_load_balancing.Lace.{
  Mem, idle, Thief, outside, checked, loaded, reading, mask_index, ssize, empty, OwnerMove,
  ThiefMove,
}
use parallel_load_balancing.Lace.Run.{System, Step, by_owner, by_thief, initial, Reach, start, step}
use parallel_load_balancing.Lace.Refine.{lace-refines-Spec, reading-keeps}
use parallel_load_balancing.Lace.Packed.{
  pack, unpack, fetch_add_split, fetch_sub_split, unpack-fetch,
}

abbrev m₁ : Mem ℕ
m₁ = record (Run.fresh ℕ) { array = update (λ _. none) (mask_index 4 0) (some 7) }

abbrev m₂ : Mem ℕ
m₂ = record m₁ { top = 0; split = 1 }

abbrev m₃ : Mem ℕ
m₃ = record m₂ { allstolen = false }

abbrev m₄ : Mem ℕ
m₄ = record m₃ { osplit = 1; o_allstolen = false }

abbrev m₅ : Mem ℕ
m₅ = record m₄ { bottom = 1; m_bottom = 1 }

abbrev m₆ : Mem ℕ
m₆ = record m₅ { top = 1 }

abbrev thieves₁ : ℕ → Thief ℕ
thieves₁ = update (λ _. outside) 3 checked

abbrev thieves₂ : ℕ → Thief ℕ
thieves₂ = update thieves₁ 3 (loaded 0 1)

abbrev thieves₃ : ℕ → Thief ℕ
thieves₃ = update thieves₂ 3 (reading 0 7)

abbrev events : List (Event ℕ)
events = stole 7 ∷ inner ∷ inner ∷ inner ∷ inner ∷ inner ∷ pushed 7 ∷ inner ∷ []

abbrev last : System ℕ
last = record { mem = m₆; owner = idle; thieves = thieves₃ }

-- The owner pushes 7, and thief 3 takes it.
run : Reach ℕ 4 events last
unfolding ℕ_discrete
run =
    step
      (step
        (step
          (step
            (step
              (step
                (step (step start (by_owner (OwnerMove.write_first (omega arith) refl)))
                  (by_owner OwnerMove.store_top_split))
                (by_owner OwnerMove.store_allstolen))
              (by_owner (OwnerMove.no_request refl)))
            (by_owner OwnerMove.publish))
          (by_thief 3 (ThiefMove.see_some refl)))
        (by_thief 3 (ThiefMove.load_top_split (omega arith))))
      (by_thief 3 (ThiefMove.exchange refl refl refl))

lace-refines-Spec_example : Spec ℕ events []
lace-refines-Spec_example = lace-refines-Spec 2 refl run

reading-keeps_example : m₆.array (mask_index 4 0) ≡ some 7
unfolding ℕ_discrete
reading-keeps_example = reading-keeps 2 3 0 7 refl run refl

-- The observers, before and after the steal.
observed : (ssize m₅ ≡ 1) × (empty m₅ ≡ false) × (ssize m₆ ≡ 0) × (empty m₆ ≡ true)
observed = (refl, refl, refl, refl)

unpack-fetch_example :
    (unpack (pack 3 8) ≡ record { top = 3; split = 8 })
    × (unpack (fetch_add_split (pack 3 8) 5) ≡ record { top = 3; split = 13 })
    × (unpack (fetch_sub_split (pack 3 8) 2) ≡ record { top = 3; split = 6 })
unpack-fetch_example = unpack-fetch 3 8 5 2 (omega arith) (omega arith) (omega arith)
