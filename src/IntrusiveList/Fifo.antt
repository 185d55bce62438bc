-- ===== src/IntrusiveList/Fifo.antt =====
-- What the owner gets, and in which order.
use parallel_load_balancing.Common.{ℕ, ◌≡◌, List, [], ◌∷◌, ◌++◌, Option, none, some}
use parallel_load_balancing.Common.Family.{update}
use parallel_load_balancing.IntrusiveList.{
  reversing, last_of, first_of, System, ForEachElem, Event, Step, construct, load_head, link,
  exchange_head, fail, take_all, turn_round, return, Reach, start, step, pushes, pops, reverse_aux,
}
use parallel_load_balancing.IntrusiveList.Inv.{Inv, initial-Inv, construct-Inv}
use parallel_load_balancing.IntrusiveList.PushMoves.{
  load_head-Inv, link-Inv, fail-Inv, exchange_head-Inv,
}
use parallel_load_balancing.IntrusiveList.PopMoves.{take_all-Inv, turn_round-Inv, return-Inv}

Step-Inv : {es : List Event} {s t : System} {e : Event} → Inv es s → Step s e t → Inv (e ∷ es) t
Step-Inv v (construct un) = construct-Inv v un
Step-Inv v (load_head t {n} out un fresh) = load_head-Inv v t n un
Step-Inv v (link t {n} {stale} at) = link-Inv v t n stale at
Step-Inv v (exchange_head t {n} {stale} at same) = exchange_head-Inv v t n stale at same
Step-Inv v (fail t {n} {stale} at) = fail-Inv v t n stale at
Step-Inv v (take_all at) = take_all-Inv v at
Step-Inv v (turn_round {n} {first} at) = turn_round-Inv v n first at
Step-Inv v (return {first} {xs} at walk) = return-Inv v first xs at walk

pub Reach-Inv : {es : List Event} {s : System} → Reach es s → Inv es s
Reach-Inv start = initial-Inv
Reach-Inv (step r h) = Step-Inv (Reach-Inv r) h

-- In every execution, whatever the threads that push do in between and though nodes are pushed
-- again, `for_each_elem` visits from the roots that `try_pop_all` has returned, one root after the
-- other, exactly the nodes that were pushed, first in first out: the nodes pushed so far are, in
-- their order, those visited; then, if the owner is in the loop, those that it has still to turn
-- round, in reverse, and those that it has turned round; then the reverse of those linked from
-- `m_head`.
pub pushes-eq-pops :
    {es : List Event} {s : System}
    → Reach es s
    → (queued todo done : List ℕ) × ForEachElem s.next s.head queued
      × ForEachElem s.next (last_of s.owner) todo
      × ForEachElem s.next (first_of s.owner) done
      × (pushes es ≡ pops es ++ reverse_aux todo done ++ reverse_aux queued [])
pushes-eq-pops r =
    let v = Reach-Inv r in (v.queued, v.todo, v.done, v.at_head, v.at_last, v.at_first, v.fifo)

-- The owner alone comes to the end of `try_pop_all`, with a root from which xs is visited.
pub data Finishes : System → List ℕ → Type 0 where
  now :
      {s : System} {first : Option ℕ} {xs : List ℕ}
      → s.owner ≡ reversing none first
      → ForEachElem s.next first xs
      → Finishes s xs
  later :
      {s : System} {n : ℕ} {first : Option ℕ} {xs : List ℕ}
      → s.owner ≡ reversing (some n) first
      → Finishes
          (record s { next = update s.next n first; owner = reversing (s.next n) (some n) })
          xs
      → Finishes s xs
