-- ===== src/IntrusiveList/PushMoves.antt =====
-- The steps of `push`.
use parallel_load_balancing.Common.{
  ℕ, ◌+◌, ◌≡◌, ◌≢◌, refl, sym, ap, ◌∙◌, List, [], ◌∷◌, ◌++◌, Option, some, arith, append_assoc,
  ℕ_discrete,
}
use parallel_load_balancing.Common.Family.{update, update_self, update_other, update_cases}
use parallel_load_balancing.IntrusiveList.{
  outside, looping, linked, new_node_of, System, visit, occurs, IsUnlinked, Event, inner, pushed,
  pushes, pops, reverse_aux,
}
use parallel_load_balancing.IntrusiveList.Inv.{
  ForEachElem-update, Inv, mine-update, apart-update, same-IsFreshFor, IsUnlinked-Free, Free,
}

reverse_aux-append : (xs ys : List ℕ) → reverse_aux xs [] ++ ys ≡ reverse_aux xs ys
reverse_aux-append xs ys = go xs [] ys
  where
    go : (xs ys zs : List ℕ) → reverse_aux xs ys ++ zs ≡ reverse_aux xs (ys ++ zs)
    go [] ys zs = refl
    go (x ∷ xs) ys zs = go xs (x ∷ ys) zs

pushed-fifo :
    (n : ℕ) (queued xs ys zs : List ℕ)
    → zs ≡ xs ++ ys ++ reverse_aux queued []
    → zs ++ n ∷ [] ≡ xs ++ ys ++ reverse_aux (n ∷ queued) []
pushed-fifo n queued xs ys zs e =
    ap (λ l. l ++ n ∷ []) e
    ∙ append_assoc (xs ++ ys) (reverse_aux queued []) (n ∷ [])
    ∙ ap (λ l. xs ++ ys ++ l) (reverse_aux-append queued (n ∷ []))

module _ {es : List Event} {s : System} (v : Inv es s) where
  pub load_head-Inv :
      (t n : ℕ)
      → IsUnlinked s n
      → Inv (inner ∷ es) (record s { pushers = update s.pushers t (looping n s.head) })
  load_head-Inv t n un = record {
    queued = v.queued;
    todo = v.todo;
    done = v.done;
    at_head = v.at_head;
    at_last = v.at_last;
    at_first = v.at_first;
    once = v.once;
    mine =
        mine-update v (Free v) t (looping n s.head)
          (λ k e. let e' : n ≡ k = ground (arith, e) in rw (sym e') (IsUnlinked-Free v un))
          (λ u k _. v.mine u k);
    apart = apart-update v t (looping n s.head) (λ k u e _ h. un.3 u (h ∙ sym e));
    behind = λ u k stale.
        update_cases s.pushers t (looping n s.head) (λ q. q ≡ linked k stale → s.next k ≡ stale) u
          (λ _ h. ground (arith, h)) (λ _. v.behind u k stale);
    fifo = v.fifo;
  }

  pub fail-Inv :
      (t n : ℕ) (stale : Option ℕ)
      → s.pushers t ≡ linked n stale
      → Inv (inner ∷ es) (record s { pushers = update s.pushers t (looping n s.head) })
  fail-Inv t n stale at =
      let same : new_node_of (looping n s.head) ≡ new_node_of (s.pushers t) = rw at refl in
      record {
        queued = v.queued;
        todo = v.todo;
        done = v.done;
        at_head = v.at_head;
        at_last = v.at_last;
        at_first = v.at_first;
        once = v.once;
        mine =
            mine-update v (Free v) t (looping n s.head) (λ k e. v.mine t k (sym same ∙ e))
              (λ u k _. v.mine u k);
        apart = apart-update v t (looping n s.head) (same-IsFreshFor v t (looping n s.head) same);
        behind = λ u k old.
            update_cases s.pushers t (looping n s.head) (λ q. q ≡ linked k old → s.next k ≡ old) u
              (λ _ h. ground (arith, h)) (λ _. v.behind u k old);
        fifo = v.fifo;
      }

  pub link-Inv :
      (t n : ℕ) (stale : Option ℕ)
      → s.pushers t ≡ looping n stale
      → Inv
          (inner ∷ es)
          (record s { next = update s.next n stale; pushers = update s.pushers t (linked n stale) })
  link-Inv t n stale at =
      let same : new_node_of (linked n stale) ≡ new_node_of (s.pushers t) = rw at refl in
      let free = v.mine t n (sym same) in
      record {
        queued = v.queued;
        todo = v.todo;
        done = v.done;
        at_head = ForEachElem-update n stale (omega (arith, free)) v.at_head;
        at_last = ForEachElem-update n stale (omega (arith, free)) v.at_last;
        at_first = ForEachElem-update n stale (omega (arith, free)) v.at_first;
        once = v.once;
        mine =
            mine-update v (Free v) t (linked n stale) (λ k e. v.mine t k (sym same ∙ e))
              (λ u k _. v.mine u k);
        apart = apart-update v t (linked n stale) (same-IsFreshFor v t (linked n stale) same);
        behind = λ u k old.
            update_cases s.pushers t (linked n stale)
              (λ q. q ≡ linked k old → update s.next n stale k ≡ old) u
              (λ _ h.
                let en : n ≡ k = ground (arith, h) in
                let eo : stale ≡ old = ground (arith, h) in
                ap (update s.next n stale) (sym en) ∙ update_self s.next n stale ∙ eo)
              (λ ne h.
                let apart : n ≢ k =
                  λ e. ne (v.apart t u n (sym same) (ap new_node_of h ∙ ap some (sym e))) in
                update_other s.next n stale apart ∙ v.behind u k old h);
        fifo = v.fifo;
      }

  pub exchange_head-Inv :
      (t n : ℕ) (stale : Option ℕ)
      → s.pushers t ≡ linked n stale
      → s.head ≡ stale
      → Inv (pushed n ∷ es) (record s { head = some n; pushers = update s.pushers t outside })
  exchange_head-Inv t n stale at same =
      let node : new_node_of (s.pushers t) ≡ some n = rw at refl in
      let free = v.mine t n node in
      let next : s.next n ≡ s.head = v.behind t n stale at ∙ sym same in
      record {
        queued = n ∷ v.queued;
        todo = v.todo;
        done = v.done;
        at_head = visit (rw next v.at_head);
        at_last = v.at_last;
        at_first = v.at_first;
        once = λ k. elim (ℕ_discrete k n) [
          | yes e ↦ rw e (ground (arith, free))
          | no ne ↦ ground (arith, ne, v.once k)
        ];
        mine =
            mine-update v (λ k. occurs k (n ∷ v.queued) + occurs k v.todo + occurs k v.done ≡ 0) t
              outside (λ k e. ground (arith, e))
              (λ u k ne h.
                let other : k ≢ n = λ e. ne (v.apart t u n node (h ∙ ap some e)) in
                ground (arith, other, v.mine u k h));
        apart = apart-update v t outside (λ k u e _ _. ground (arith, e));
        behind = λ u k old.
            update_cases s.pushers t outside (λ q. q ≡ linked k old → s.next k ≡ old) u
              (λ _ h. ground (arith, h)) (λ _. v.behind u k old);
        fifo = pushed-fifo n v.queued (pops es) (reverse_aux v.todo v.done) (pushes es) v.fifo;
      }
