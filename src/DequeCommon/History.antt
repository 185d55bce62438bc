-- ===== src/DequeCommon/History.antt =====
-- What every sequential history of the promised deque satisfies.
use mathlib.Core.Path.{subst}
use mathlib.Core.List.{Perm, perm_middle}
use mathlib.Core.List.Perm
use parallel_load_balancing.Common.{sym, ◌∙◌, List, [], ◌∷◌, ◌++◌, append-nil, append_assoc}
use parallel_load_balancing.DequeCommon.{
  Event, inner, pushed, popped, pop_failed, stole, steal_lost, steal_empty, Spec, put_in,
  handed_out, fresh, after,
}

module _ {T : Type 0} where
  perm_snoc : (a : T) (l : List T) → Perm (l ++ (a ∷ [])) (a ∷ l)
  perm_snoc a l = subst (λ k. Perm (l ++ (a ∷ [])) (a ∷ k)) (append-nil l) (perm_middle l [])

  -- Every item put in is handed out or still there, and as often.
  pub Spec-perm :
      {es : List (Event T)} {q : List T} → Spec T es q → Perm (put_in es) (handed_out es ++ q)
  Spec-perm fresh = Perm.refl []
  Spec-perm (after {es} {q} inner r h) = rw (← h) (Spec-perm r)
  Spec-perm (after {es} {q} steal_lost r h) = rw (← h) (Spec-perm r)
  Spec-perm (after {es} {q} steal_empty r h) = rw (← h) (Spec-perm r)
  Spec-perm (after {es} {q} pop_failed r h) = rw (h.1 ∙ sym h.0) (Spec-perm r)
  Spec-perm (after {es} {q} (pushed x) r h) =
      rw (h, ← append_assoc)
        (Perm.trans (Perm.cons x (Spec-perm r)) (Perm.symm (perm_snoc x (handed_out es ++ q))))
  Spec-perm (after {es} {q} {q'} (popped x) r h) =
      Perm.trans (Spec-perm r) (rw (h, ← append_assoc) (perm_snoc x (handed_out es ++ q')))
  Spec-perm (after {es} {q} {q'} (stole x) r h) =
      Perm.trans (Spec-perm r) (rw h (perm_middle (handed_out es) q'))
