-- ===== src/Blocking/Tests.antt =====
-- An execution of the blocking deque over a buffer of one slot, by evaluation.
use parallel_load_balancing.Common.{ℕ, ◌≡◌, ◌≢◌, refl, true, List, [], ◌∷◌, arith, ℕ_discrete}
use parallel_load_balancing.Ring.{load, store, resize, copy_range, copy_slot}
use parallel_load_balancing.DequeCommon.{Event, Spec}
use parallel_load_balancing.Blocking.{
  System, Step, OwnerMove, ThiefMove, Reach, here, more, by_owner, by_thief, room_for,
}
use parallel_load_balancing.Blocking.Inv.{owner_holds, thief_holds}
use parallel_load_balancing.Blocking.Safety.{items, blocking-refines-Spec, mutual_exclusion}

infixl 5 ◌▷◌
abbrev ◌▷◌ :
    {T : Type 0} {cap : ℕ} {es : List (Event T)} {e : Event T} {s s' : System T}
    → Reach T cap es s
    → Step T s e s'
    → Reach T cap (e ∷ es) s'
r ▷ st = more r st

record Run : Type 0 where
  es : List (Event ℕ)
  last : System ℕ
  reach : Reach ℕ 1 es last

-- 7 and 8 are pushed; a thief holds the lock with 7 in sight.
held : Run
unfolding ℕ_discrete load store resize copy_range copy_slot room_for
held = record {
  es = _;
  last = _;
  reach =
      here
      ▷ by_owner (OwnerMove.start_push 7)
      ▷ by_owner (OwnerMove.lock_push refl)
      ▷ by_owner OwnerMove.load_push
      ▷ by_owner OwnerMove.store_push
      ▷ by_owner OwnerMove.unlock
      ▷ by_owner (OwnerMove.start_push 8)
      ▷ by_owner (OwnerMove.lock_push refl)
      ▷ by_owner OwnerMove.load_push
      ▷ by_owner OwnerMove.store_push
      ▷ by_owner OwnerMove.unlock
      ▷ by_thief 2 ThiefMove.look_top
      ▷ by_thief 2 (ThiefMove.look_some (omega arith))
      ▷ by_thief 2 (ThiefMove.lock refl)
      ▷ by_thief 2 ThiefMove.load_both;
}

held_items : items held.last.mem ≡ 7 ∷ 8 ∷ []
unfolding held
held_items = refl

blocking-refines-Spec_example : Spec ℕ held.es (items held.last.mem)
blocking-refines-Spec_example = blocking-refines-Spec 0 refl held.reach

mutual_exclusion_example :
    ((i : ℕ) → owner_holds held.last.owner ≡ true → thief_holds (held.last.thieves i) ≡ true → ⊥)
    × ((i j : ℕ)
        → i ≢ j
        → thief_holds (held.last.thieves i) ≡ true
        → thief_holds (held.last.thieves j) ≡ true
        → ⊥)
mutual_exclusion_example = mutual_exclusion 0 refl held.reach

-- A thief that looks while nothing was pushed.
looking : Run
looking = record { es = _; last = _; reach = here ▷ by_thief 3 ThiefMove.look_top }
