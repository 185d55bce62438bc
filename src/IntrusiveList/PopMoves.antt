-- ===== src/IntrusiveList/PopMoves.antt =====
-- The steps of `try_pop_all`.
use parallel_load_balancing.Common.{
  append-nil, ℕ, ◌+◌, ◌≤◌, ◌≡◌, ◌≢◌, refl, sym, ap, ◌∙◌, List, [], ◌∷◌, ◌++◌, Option, none, some,
  arith,
}
use parallel_load_balancing.Common.Family.{update, update_self, update_other}
use parallel_load_balancing.IntrusiveList.{
  idle, reversing, new_node_of, last_of, first_of, System, ForEachElem, stop, visit, occurs, Event,
  inner, popped, pushes, pops, reverse_aux,
}
use parallel_load_balancing.IntrusiveList.Inv.{
  ForEachElem-update, ForEachElem-unique, ForEachElem-none, Inv,
}

ForEachElem-some :
    {next : ℕ → Option ℕ} {n : ℕ} {xs : List ℕ}
    → ForEachElem next (some n) xs
    → (ys : List ℕ) × (xs ≡ n ∷ ys) × ForEachElem next (next n) ys
ForEachElem-some (visit {xs} rest) = (xs, refl, rest)

module _ {es : List Event} {s : System} (v : Inv es s) where
  pub take_all-Inv :
      s.owner ≡ idle → Inv (inner ∷ es) (record s { head = none; owner = reversing s.head none })
  take_all-Inv at =
      let no_todo : v.todo ≡ [] = ForEachElem-none (ap last_of at) v.at_last in
      let no_done : v.done ≡ [] = ForEachElem-none (ap first_of at) v.at_first in
      record {
        queued = [];
        todo = v.queued;
        done = [];
        at_head = stop;
        at_last = v.at_head;
        at_first = stop;
        once = λ k. omega (arith, v.once k);
        mine = λ t k h. omega (arith, v.mine t k h);
        apart = v.apart;
        behind = v.behind;
        fifo =
            v.fifo
            ∙ rw (no_todo, no_done)
                (ap (λ l. l ++ reverse_aux v.queued []) (append-nil (pops es))
                  ∙ sym (append-nil (pops es ++ reverse_aux v.queued [])));
      }

  pub turn_round-Inv :
      (n : ℕ) (first : Option ℕ)
      → s.owner ≡ reversing (some n) first
      → Inv
          (inner ∷ es)
          (record s { next = update s.next n first; owner = reversing (s.next n) (some n) })
  turn_round-Inv n first at =
      let (ys, split, rest) = ForEachElem-some {xs = v.todo} (rw (sym (ap last_of at)) v.at_last) in
      let once : (k : ℕ) → occurs k v.queued + occurs k (n ∷ ys) + occurs k v.done ≤ 1 =
        λ k. omega (arith, v.once k, ap (occurs k) split) in
      let free : (t k : ℕ)
          → new_node_of (s.pushers t) ≡ some k
          → occurs k v.queued + occurs k (n ∷ ys) + occurs k v.done ≡ 0 =
        λ t k h. omega (arith, v.mine t k h, ap (occurs k) split) in
      let one : occurs n v.queued + occurs n ys + occurs n v.done ≡ 0 = ground (arith, once n) in
      let order : pushes es ≡ pops es ++ reverse_aux (n ∷ ys) v.done ++ reverse_aux v.queued [] =
        v.fifo ∙ ap (λ l. pops es ++ reverse_aux l v.done ++ reverse_aux v.queued []) split in
      record {
        queued = v.queued;
        todo = ys;
        done = n ∷ v.done;
        at_head = ForEachElem-update n first (omega (arith, one)) v.at_head;
        at_last = ForEachElem-update n first (omega (arith, one)) rest;
        at_first = visit (
            rw (update_self s.next n first) (
              ForEachElem-update n first (omega (arith, one))
                (rw (sym (ap first_of at)) v.at_first)));
        once = λ k. ground (arith, once k);
        mine = λ t k h. ground (arith, free t k h);
        apart = v.apart;
        behind = λ t k old h.
            let other : n ≢ k = ground (arith, free t k (ap new_node_of h)) in
            update_other s.next n first other ∙ v.behind t k old h;
        fifo = order;
      }

  pub return-Inv :
      (first : Option ℕ) (xs : List ℕ)
      → s.owner ≡ reversing none first
      → ForEachElem s.next first xs
      → Inv (popped xs ∷ es) (record s { owner = idle })
  return-Inv first xs at walk =
      let no_todo : v.todo ≡ [] = ForEachElem-none (ap last_of at) v.at_last in
      let all_done : v.done ≡ xs = ForEachElem-unique (rw (sym (ap first_of at)) v.at_first) walk in
      record {
        queued = v.queued;
        todo = [];
        done = [];
        at_head = v.at_head;
        at_last = stop;
        at_first = stop;
        once = λ k. omega (arith, v.once k);
        mine = λ t k h. omega (arith, v.mine t k h);
        apart = v.apart;
        behind = v.behind;
        fifo =
            v.fifo
            ∙ rw (no_todo, all_done)
                (ap (λ l. l ++ reverse_aux v.queued []) (sym (append-nil (pops es ++ xs))));
      }
