-- ===== src/IntrusiveList/Tests.antt =====
-- Two threads that push at the same time, and the owner.
use parallel_load_balancing.Common.{
  ◌≢◌, ap, ℕ, ◌≡◌, refl, List, [], ◌∷◌, ◌++◌, Option, none, some, arith, ℕ_discrete,
}
use parallel_load_balancing.Common.Family.{update, update_cases}
use parallel_load_balancing.IntrusiveList.Inv.{ForEachElem-none}
use parallel_load_balancing.IntrusiveList.{
  new_node_of, occurs, outside, looping, linked, reversing, System, ForEachElem, IsUnlinked, inner,
  pushed, load_head, link, exchange_head, fail, take_all, Reach, start, step, initial, reverse_aux,
}
use parallel_load_balancing.IntrusiveList.Fifo.{pushes-eq-pops}

-- Thread 1 reads the head before thread 0 has pushed node 7, fails, and pushes node 9 then.
abbrev s₁ : System
s₁ = record initial { pushers = update initial.pushers 0 (looping 7 none) }

abbrev s₂ : System
s₂ = record s₁ { pushers = update s₁.pushers 1 (looping 9 none) }

abbrev s₃ : System
s₃ = record s₂ { next = update s₂.next 7 none; pushers = update s₂.pushers 0 (linked 7 none) }

abbrev s₄ : System
s₄ = record s₃ { next = update s₃.next 9 none; pushers = update s₃.pushers 1 (linked 9 none) }

abbrev s₅ : System
s₅ = record s₄ { head = some 7; pushers = update s₄.pushers 0 outside }

abbrev s₆ : System
s₆ = record s₅ { pushers = update s₅.pushers 1 (looping 9 (some 7)) }

abbrev s₇ : System
s₇ = record s₆ {
  next = update s₆.next 9 (some 7);
  pushers = update s₆.pushers 1 (linked 9 (some 7));
}

abbrev s₈ : System
s₈ = record s₇ { head = some 9; pushers = update s₇.pushers 1 outside }

abbrev s₉ : System
s₉ = record s₈ { head = none; owner = reversing (some 9) none }

no_nodes : (n : ℕ) {next : ℕ → Option ℕ} (xs : List ℕ) → ForEachElem next none xs → occurs n xs ≡ 0
no_nodes n xs w = ap (occurs n) (ForEachElem-none refl w)

initial-IsUnlinked : IsUnlinked initial 7
initial-IsUnlinked = (no_nodes 7, no_nodes 7, no_nodes 7, λ t e. ground (arith, e))

s₁-IsUnlinked : IsUnlinked s₁ 9
s₁-IsUnlinked = (
  no_nodes 9,
  no_nodes 9,
  no_nodes 9,
  λ t.
      update_cases initial.pushers 0 (looping 7 none) (λ q. new_node_of q ≢ some 9) t
        (λ _ e. ground (arith, e)) (λ _ e. ground (arith, e)),
)

run : Reach (inner ∷ pushed 9 ∷ inner ∷ inner ∷ pushed 7 ∷ inner ∷ inner ∷ inner ∷ inner ∷ []) s₉
unfolding ℕ_discrete
run =
    step
      (step
        (step
          (step
            (step
              (step
                (step
                  (step (step start (load_head 0 refl initial-IsUnlinked refl))
                    (load_head 1 refl s₁-IsUnlinked refl))
                  (link 0 refl))
                (link 1 refl))
              (exchange_head 0 refl refl))
            (fail 1 refl))
          (link 1 refl))
        (exchange_head 1 refl refl))
      (take_all refl)

pushes-eq-pops_example :
    (queued todo done : List ℕ) × ForEachElem s₉.next none queued
    × ForEachElem s₉.next (some 9) todo
    × ForEachElem s₉.next none done
    × (7 ∷ 9 ∷ [] ≡ [] ++ reverse_aux todo done ++ reverse_aux queued [])
pushes-eq-pops_example = pushes-eq-pops run
