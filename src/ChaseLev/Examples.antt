-- ===== src/ChaseLev/Examples.antt =====
-- Executions of the Chase-Lev deque, by evaluation, over a buffer of one slot.
use mathlib.Core.List.{Perm}
use parallel_load_balancing.Common.{
  ℕ, ◌≡◌, refl, ◌⊎◌, ◌<◌, List, [], ◌∷◌, ◌++◌, true, ◌≤◌, arith, ℕ_discrete,
}
use parallel_load_balancing.Ring.{load, store, resize, copy_range, copy_slot}
use parallel_load_balancing.DequeCommon.{Event, Spec, put_in, handed_out}
use parallel_load_balancing.ChaseLev.{
  Mem, System, Step, Owner, Thief, OwnerMove, ThiefMove, Reach, here, more, by_owner, by_thief,
}
use parallel_load_balancing.ChaseLev.Refine.{contents}
use parallel_load_balancing.ChaseLev.Inv.{IsLive}
use parallel_load_balancing.ChaseLev.Progress.{
  owner_advances, thief_advances, owner_rank, thief_rank,
}
use parallel_load_balancing.ChaseLev.Safety.{
  refines_spec, items_conserved, steal_empty_sound, reads-IsLive, is_popping,
}

infixl 5 ◌▷◌
abbrev ◌▷◌ :
    {T : Type 0} {cap : ℕ} {es : List (Event T)} {e : Event T} {s s' : System T}
    → Reach T cap es s
    → Step T s e s'
    → Reach T cap (e ∷ es) s'
r ▷ st = more r st

record Run : Type 0 where
  es : List (Event ℕ)
  last : System ℕ
  reach : Reach ℕ 1 es last

-- 7 is pushed.
one_item : Run
unfolding ℕ_discrete load store resize copy_range copy_slot
one_item = record {
  es = _;
  last = _;
  reach =
      here
      ▷ by_owner (OwnerMove.load_bottom 7 refl)
      ▷ by_owner OwnerMove.load_top
      ▷ by_owner OwnerMove.load_buf
      ▷ by_owner (OwnerMove.fits (omega arith))
      ▷ by_owner OwnerMove.store_slot
      ▷ by_owner OwnerMove.publish;
}

-- Then 8 is pushed, which makes the buffer grow; meanwhile a thief has read the old buffer.
two_items : Run
unfolding one_item
two_items = record {
  es = _;
  last = _;
  reach =
      one_item.reach
      ▷ by_thief 0 ThiefMove.load_top
      ▷ by_thief 0 (ThiefMove.see_some (omega arith))
      ▷ by_thief 0 ThiefMove.load_buf
      ▷ by_owner (OwnerMove.load_bottom 8 refl)
      ▷ by_owner OwnerMove.load_top
      ▷ by_owner OwnerMove.load_buf
      ▷ by_owner (OwnerMove.grow (omega arith))
      ▷ by_owner OwnerMove.swap_buf
      ▷ by_owner OwnerMove.store_slot
      ▷ by_owner OwnerMove.publish;
}

-- The thief takes 7 from the buffer that it read, which is now garbage; the owner pops 8.
drained : Run
unfolding two_items
drained = record {
  es = _;
  last = _;
  reach =
      two_items.reach
      ▷ by_thief 0 ThiefMove.load_slot
      ▷ by_owner OwnerMove.start_pop
      ▷ by_owner OwnerMove.load_buf_pop
      ▷ by_owner OwnerMove.lower
      ▷ by_thief 0 (ThiefMove.win refl refl)
      ▷ by_owner (OwnerMove.see_last refl refl)
      ▷ by_owner (OwnerMove.win_race refl)
      ▷ by_owner OwnerMove.restore_won
      ▷ by_owner (OwnerMove.take_last refl);
}

two_items_contents : contents two_items.last ≡ 7 ∷ 8 ∷ []
unfolding two_items
two_items_contents = refl

drained_contents : (contents drained.last ≡ []) × (handed_out drained.es ≡ 8 ∷ 7 ∷ [])
unfolding drained
drained_contents = (refl, refl)

refines_spec_example : Spec ℕ two_items.es (contents two_items.last)
refines_spec_example = refines_spec 0 refl two_items.reach

items_conserved_example : Perm (put_in drained.es) (handed_out drained.es ++ contents drained.last)
items_conserved_example = items_conserved 0 refl drained.reach

-- A thief that looks while nothing was pushed.
looking : Run
looking = record { es = _; last = _; reach = here ▷ by_thief 3 ThiefMove.load_top }

steal_empty_sound_example : (contents looking.last ≡ []) ⊎ (is_popping looking.last.owner ≡ true)
unfolding looking ℕ_discrete
steal_empty_sound_example =
    steal_empty_sound 0 refl looking.reach (by_thief 3 (ThiefMove.see_empty (omega arith)))

reads-IsLive_example : IsLive two_items.last.mem 0
unfolding two_items
reads-IsLive_example = reads-IsLive 0 refl two_items.reach 0 0 0 refl

-- The owner between its load of `m_bottom` and that of `m_top`.
pushing : Run
unfolding two_items
pushing = record {
  es = _;
  last = _;
  reach = two_items.reach ▷ by_owner (OwnerMove.load_bottom 9 refl);
}

owner_advances_example :
    (owner_rank pushing.last.owner ≤ 6)
    × ((e : Event ℕ) × (m' : Mem ℕ) × (o' : Owner ℕ) × OwnerMove ℕ pushing.last.mem
          pushing.last.owner e m' o'
        × (owner_rank o' < owner_rank pushing.last.owner))
unfolding pushing
owner_advances_example = owner_advances 0 refl pushing.reach (λ e. cc)

thief_advances_example :
    (thief_rank (two_items.last.thieves 0) ≤ 4)
    × ((e : Event ℕ) × (m' : Mem ℕ) × (th' : Thief ℕ) × ThiefMove ℕ two_items.last.mem
          (two_items.last.thieves 0)
          e
          m'
          th'
        × (thief_rank th' < thief_rank (two_items.last.thieves 0)))
unfolding two_items
thief_advances_example = thief_advances 0 refl two_items.reach 0 (λ e. cc)
