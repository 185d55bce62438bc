-- ===== src/IntrusiveList/Inv.antt =====
-- The three chains of a list and the nodes that are being pushed.
use parallel_load_balancing.Common.{
  ℕ, ◌+◌, ◌≤◌, ◌≡◌, ◌≢◌, refl, sym, ap, ◌∙◌, List, [], ◌∷◌, ◌++◌, Option, none, some, arith,
}
use parallel_load_balancing.Common.Family.{update, update_other, update_cases}
use parallel_load_balancing.IntrusiveList.{
  Pusher, linked, new_node_of, last_of, first_of, System, ForEachElem, stop, visit, occurs,
  IsUnlinked, Event, inner, initial, pushes, pops, reverse_aux,
}

-- A write to a node that is not visited.
pub ForEachElem-update :
    {next : ℕ → Option ℕ} {p : Option ℕ} {xs : List ℕ} (n : ℕ) (v : Option ℕ)
    → occurs n xs ≡ 0
    → ForEachElem next p xs
    → ForEachElem (update next n v) p xs
ForEachElem-update n v out stop = stop
ForEachElem-update {next} n v out (visit {root} {xs} rest) =
    let ne : n ≢ root = ground (arith, out) in
    let out' : occurs n xs ≡ 0 = ground (arith, out) in
    visit (rw (update_other next n v ne) (ForEachElem-update n v out' rest))

pub ForEachElem-unique :
    {next : ℕ → Option ℕ} {p : Option ℕ} {xs ys : List ℕ}
    → ForEachElem next p xs
    → ForEachElem next p ys
    → xs ≡ ys
ForEachElem-unique stop stop = refl
ForEachElem-unique (visit {root} a) (visit b) = ap (λ zs. root ∷ zs) (ForEachElem-unique a b)

pub ForEachElem-none :
    {next : ℕ → Option ℕ} {p : Option ℕ} {xs : List ℕ} → p ≡ none → ForEachElem next p xs → xs ≡ []
ForEachElem-none e stop = refl
ForEachElem-none e (visit a) = ground (arith, e)

pub record Inv (es : List Event) (s : System) : Type 0 where
  pub queued : List ℕ
  pub todo : List ℕ
  pub done : List ℕ
  pub at_head : ForEachElem s.next s.head queued
  pub at_last : ForEachElem s.next (last_of s.owner) todo
  pub at_first : ForEachElem s.next (first_of s.owner) done
  pub once : (n : ℕ) → occurs n queued + occurs n todo + occurs n done ≤ 1
  pub mine :
      (t n : ℕ)
      → new_node_of (s.pushers t) ≡ some n
      → occurs n queued + occurs n todo + occurs n done ≡ 0
  pub apart :
      (t u n : ℕ) → new_node_of (s.pushers t) ≡ some n → new_node_of (s.pushers u) ≡ some n → t ≡ u
  pub behind : (t n : ℕ) (stale : Option ℕ) → s.pushers t ≡ linked n stale → s.next n ≡ stale
  pub fifo : pushes es ≡ pops es ++ reverse_aux todo done ++ reverse_aux queued []

pub initial-Inv : Inv [] initial
initial-Inv = record {
  queued = [];
  todo = [];
  done = [];
  at_head = stop;
  at_last = stop;
  at_first = stop;
  once = λ n. omega arith;
  mine = λ t n h. ground (arith, h);
  apart = λ t u n h. ground (arith, h);
  behind = λ t n stale h. ground (arith, h);
  fifo = refl;
}

module _ {es : List Event} {s : System} (v : Inv es s) where
  -- A node in none of the chains.
  abbrev pub Free : ℕ → Type 0
  Free n = occurs n v.queued + occurs n v.todo + occurs n v.done ≡ 0

  pub IsUnlinked-Free : {n : ℕ} → IsUnlinked s n → Free n
  IsUnlinked-Free (h, l, f, _) =
      omega (arith, h v.queued v.at_head, l v.todo v.at_last, f v.done v.at_first)

  pub construct-Inv :
      {n : ℕ} → IsUnlinked s n → Inv (inner ∷ es) (record s { next = update s.next n none })
  construct-Inv {n} un =
      let free = IsUnlinked-Free un in
      record {
        queued = v.queued;
        todo = v.todo;
        done = v.done;
        at_head = ForEachElem-update n none (omega (arith, free)) v.at_head;
        at_last = ForEachElem-update n none (omega (arith, free)) v.at_last;
        at_first = ForEachElem-update n none (omega (arith, free)) v.at_first;
        once = v.once;
        mine = v.mine;
        apart = v.apart;
        behind = λ t k stale h.
            let ne : n ≢ k = λ e. un.3 t (ap new_node_of h ∙ ap some (sym e)) in
            update_other s.next n none ne ∙ v.behind t k stale h;
        fifo = v.fifo;
      }

  -- The threads' part, when t goes to another state.
  abbrev pub IsFreshFor : ℕ → Pusher → Type 0
  IsFreshFor t p = (n u : ℕ) → new_node_of p ≡ some n → t ≢ u → new_node_of (s.pushers u) ≢ some n

  pub mine-update :
      (P : ℕ → Type 0) (t : ℕ) (p : Pusher)
      → ((n : ℕ) → new_node_of p ≡ some n → P n)
      → ((u n : ℕ) → t ≢ u → new_node_of (s.pushers u) ≡ some n → P n)
      → (u n : ℕ) → new_node_of (update s.pushers t p u) ≡ some n
      → P n
  mine-update P t p here there u n =
      update_cases s.pushers t p (λ q. new_node_of q ≡ some n → P n) u (λ _. here n) (there u n)

  pub apart-update :
      (t : ℕ) (p : Pusher)
      → IsFreshFor t p
      → (a b n : ℕ) → new_node_of (update s.pushers t p a) ≡ some n
      → new_node_of (update s.pushers t p b) ≡ some n
      → a ≡ b
  apart-update t p new a b n =
      let other = update s.pushers t p b in
      update_cases s.pushers t p (λ q. new_node_of q ≡ some n → new_node_of other ≡ some n → a ≡ b)
        a
        (λ ea h.
          update_cases s.pushers t p (λ q. new_node_of q ≡ some n → a ≡ b) b (λ eb _. sym ea ∙ eb)
            (λ nb k. absurd (new n b h nb k)))
        (λ na h.
          update_cases s.pushers t p (λ q. new_node_of q ≡ some n → a ≡ b) b
            (λ eb k. absurd (new n a k na h)) (λ nb k. v.apart a b n h k))

  pub same-IsFreshFor :
      (t : ℕ) (p : Pusher) → new_node_of p ≡ new_node_of (s.pushers t) → IsFreshFor t p
  same-IsFreshFor t p same n u h ne k = ne (v.apart t u n (sym same ∙ h) k)
