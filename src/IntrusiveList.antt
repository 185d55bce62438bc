-- ===== src/IntrusiveList.antt =====
-- include/libfork/core/ext/list.hpp: `lf::ext::intrusive_list`, to which any number of threads push
-- while its owner pops. Nodes are numbers, and the heap is the family of their `m_next`; what a node
-- stores plays no part. Each access of `m_head` or of an `m_next` is a step of its own. A node may be
-- pushed again, at the same address, once nothing links to it and its constructor has run again.
mod Inv
mod PushMoves
mod PopMoves
mod Fifo
mod Tests
use parallel_load_balancing.Common.{
  ℕ, zero, suc, ◌+◌, ◌≡◌, ◌≢◌, List, [], ◌∷◌, ◌++◌, Option, none, some, if◌then◌else◌, ◌==◌,
}
use parallel_load_balancing.Common.Family.{update}

-- A thread in `push`: it has the value of `m_head` that it saw last.
pub data Pusher : Type 0 where
  outside : Pusher
  looping : (new_node : ℕ) (stale_head : Option ℕ) → Pusher
  linked : (new_node : ℕ) (stale_head : Option ℕ) → Pusher

-- The owner in `try_pop_all`.
pub data Owner : Type 0 where
  idle : Owner
  reversing : (last first : Option ℕ) → Owner

abbrev pub new_node_of : Pusher → Option ℕ
new_node_of outside = none
new_node_of (looping n _) = some n
new_node_of (linked n _) = some n

abbrev pub last_of : Owner → Option ℕ
last_of idle = none
last_of (reversing last _) = last

abbrev pub first_of : Owner → Option ℕ
first_of idle = none
first_of (reversing _ first) = first

pub record System : Type 0 where
  pub next : ℕ → Option ℕ
  pub head : Option ℕ
  pub pushers : ℕ → Pusher
  pub owner : Owner

-- The nodes that `for_each_elem` visits from a root.
pub data ForEachElem (next : ℕ → Option ℕ) : Option ℕ → List ℕ → Type 0 where
  stop : ForEachElem next none []
  visit :
      {root : ℕ} {xs : List ℕ}
      → ForEachElem next (next root) xs
      → ForEachElem next (some root) (root ∷ xs)

abbrev pub occurs : ℕ → List ℕ → ℕ
occurs n [] = 0
occurs n (x ∷ xs) = (if n == x then 1 else 0) + occurs n xs

-- Not part of a list, and not being pushed.
abbrev pub IsUnlinked : System → ℕ → Type 0
IsUnlinked s n =
    ((xs : List ℕ) → ForEachElem s.next s.head xs → occurs n xs ≡ 0)
    × ((xs : List ℕ) → ForEachElem s.next (last_of s.owner) xs → occurs n xs ≡ 0)
    × ((xs : List ℕ) → ForEachElem s.next (first_of s.owner) xs → occurs n xs ≡ 0)
    × ((t : ℕ) → new_node_of (s.pushers t) ≢ some n)

pub data Event : Type 0 where
  inner : Event
  pushed : ℕ → Event
  popped : List ℕ → Event

pub data Step (s : System) : Event → System → Type 0 where
  -- The constructor of a node.
  construct : {n : ℕ} → IsUnlinked s n → Step s inner (record s { next = update s.next n none })
  -- `push`: the first load of `m_head`,
  load_head :
      (t : ℕ) {n : ℕ}
      → s.pushers t ≡ outside
      → IsUnlinked s n
      → s.next n ≡ none
      → Step s inner (record s { pushers = update s.pushers t (looping n s.head) })
  -- the store of `m_next`,
  link :
      (t : ℕ) {n : ℕ} {stale : Option ℕ}
      → s.pushers t ≡ looping n stale
      → Step s inner
          (record s { next = update s.next n stale; pushers = update s.pushers t (linked n stale) })
  -- and `compare_exchange_weak`, which may fail though the head is the expected one.
  exchange_head :
      (t : ℕ) {n : ℕ} {stale : Option ℕ}
      → s.pushers t ≡ linked n stale
      → s.head ≡ stale
      → Step s (pushed n) (record s { head = some n; pushers = update s.pushers t outside })
  fail :
      (t : ℕ) {n : ℕ} {stale : Option ℕ}
      → s.pushers t ≡ linked n stale
      → Step s inner (record s { pushers = update s.pushers t (looping n s.head) })
  -- `try_pop_all`: the exchange,
  take_all : s.owner ≡ idle → Step s inner (record s { head = none; owner = reversing s.head none })
  -- a round of the loop,
  turn_round :
      {n : ℕ} {first : Option ℕ}
      → s.owner ≡ reversing (some n) first
      → Step s inner
          (record s { next = update s.next n first; owner = reversing (s.next n) (some n) })
  -- and the return of a root, from which `for_each_elem` visits xs.
  return :
      {first : Option ℕ} {xs : List ℕ}
      → s.owner ≡ reversing none first
      → ForEachElem s.next first xs
      → Step s (popped xs) (record s { owner = idle })

abbrev pub initial : System
initial = record { next = λ _. none; head = none; pushers = λ _. outside; owner = idle }

-- The executions, with their events, latest first.
pub data Reach : List Event → System → Type 0 where
  start : Reach [] initial
  step : {es : List Event} {e : Event} {s t : System} → Reach es s → Step s e t → Reach (e ∷ es) t

-- The nodes in the order of the pushes, and in the order in which the owner got them.
abbrev pub pushes : List Event → List ℕ
pushes [] = []
pushes (inner ∷ es) = pushes es
pushes (pushed n ∷ es) = pushes es ++ n ∷ []
pushes (popped xs ∷ es) = pushes es

abbrev pub pops : List Event → List ℕ
pops [] = []
pops (inner ∷ es) = pops es
pops (pushed n ∷ es) = pops es
pops (popped xs ∷ es) = pops es ++ xs

-- The reverse of a list, in front of another.
abbrev pub reverse_aux : List ℕ → List ℕ → List ℕ
reverse_aux [] ys = ys
reverse_aux (x ∷ xs) ys = reverse_aux xs (x ∷ ys)
