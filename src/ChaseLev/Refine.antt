-- ===== src/ChaseLev/Refine.antt =====
-- The items that a Chase-Lev deque holds, and what each event does to them.
use parallel_load_balancing.Common.{
  ℕ, suc, ◌≤◌, ◌<◌, ◌≡◌, refl, sym, ap, ◌∙◌, List, [], ◌∷◌, ◌++◌, arith,
}
use parallel_load_balancing.Common.Int.{inc, pos_part}
use parallel_load_balancing.Common.Family.{update_other}
use parallel_load_balancing.Ring.Span.{span, span-same, span-nil, span-snoc, span-cons, span-ends}
use parallel_load_balancing.Ring.{load}
use parallel_load_balancing.DequeCommon.{Event, Effect}
use parallel_load_balancing.ChaseLev.{Mem, Owner, OwnerMove, Thief, ThiefMove, System, peek}
use parallel_load_balancing.ChaseLev.Inv.{after, lo, hi, reach, Shared, ThiefOk}
use parallel_load_balancing.ChaseLev.OwnerMoves.{now_written, written_other}

module _ {T : Type 0} where
  -- The items of the deque, oldest first.
  abbrev pub items : Mem T → Owner T → List T
  items m o = span (peek m m.buf) (lo m o) (hi m o)

  abbrev pub contents : System T → List T
  contents s = items s.mem s.owner

  module _ {m : Mem T} where
    lo-le-hi : (o : Owner T) → Shared m o → lo m o ≤ hi m o
    lo-le-hi Owner.idle s = ground (arith, s.low)
    lo-le-hi o s = ground (arith, s.low, s.own)

    pub OwnerMove-Effect :
        {o o' : Owner T} {e : Event T} {m' : Mem T}
        → OwnerMove T m o e m' o'
        → Shared m o
        → Effect e (items m o) (items m' o')
    OwnerMove-Effect (OwnerMove.grow h) s =
        span-same (peek m m.buf) _ m.top (pos_part m.bottom) (λ j u v.
          ap (λ r. load r j) (sym (update_other m.heap m.next _ (omega (arith, s.current)))))
    OwnerMove-Effect OwnerMove.swap_buf s =
        span-same (peek m m.buf) _ m.top (pos_part m.bottom)
          (λ j u (v : j < pos_part m.bottom). sym (s.own.4 j u (ground (arith, s.own.0))))
    OwnerMove-Effect OwnerMove.store_slot s =
        span-same (peek m m.buf) _ m.top (pos_part m.bottom) (λ j u (v : j < pos_part m.bottom).
          sym (ap (λ r. load r j) (now_written s) ∙ written_other s j u (ground (arith, s.own.0))))
    OwnerMove-Effect (OwnerMove.publish {x} {b}) s =
        let e : pos_part m.bottom ≡ b = ap pos_part s.own.0 in
        rw e (span-snoc _ m.top _ (ground (arith, s.low, s.own.0)) s.own.2)
    OwnerMove-Effect (OwnerMove.take_last {n} {p} {x} q) s =
        let none_left : pos_part m.bottom ≤ m.top = ground (arith, s.own) in
        span-snoc (peek m m.buf) n n (omega arith) (ap (λ r. peek m r n) (sym s.own.1) ∙ q)
        ∙ ap (λ l. l ++ (x ∷ []))
            (span-nil (peek m m.buf) n n (omega arith)
              ∙ sym (span-nil (peek m m.buf) m.top (pos_part m.bottom) none_left))
    OwnerMove-Effect (OwnerMove.take {n} q) s =
        let e : pos_part m.bottom ≡ n = ap pos_part s.own.0 in
        rw e (span-snoc (peek m m.buf) m.top n s.low (ap (λ r. peek m r n) (sym s.own.1) ∙ q))
    OwnerMove-Effect OwnerMove.give_up s =
        let e = span-nil (peek m m.buf) m.top (pos_part m.bottom) (ground (arith, s.own)) in (e, e)
    OwnerMove-Effect (OwnerMove.load_bottom x q) s = refl
    OwnerMove-Effect (OwnerMove.lower {b}) s =
        let e : pos_part m.bottom ≡ after b = ground (arith, s.own) in
        ap (span (peek m m.buf) m.top) e
    OwnerMove-Effect (OwnerMove.fits h) s = refl
    OwnerMove-Effect (OwnerMove.see_more q h) s = ap (λ b. span (peek m m.buf) m.top (after b)) q
    OwnerMove-Effect (OwnerMove.see_last q h) s = ap (λ b. span (peek m m.buf) m.top (after b)) q
    OwnerMove-Effect (OwnerMove.see_none h) s = refl
    OwnerMove-Effect (OwnerMove.win_race {n} q) s = ap (λ a. span (peek m m.buf) a (suc n)) q
    OwnerMove-Effect (OwnerMove.lose_race q) s = refl
    OwnerMove-Effect OwnerMove.restore_won s = refl
    OwnerMove-Effect OwnerMove.restore_beaten s = refl
    OwnerMove-Effect (OwnerMove.restore_none {b}) s =
        let e : after b ≡ pos_part (inc b) = ground (arith, s.own) in
        ap (span (peek m m.buf) m.top) e
    OwnerMove-Effect _ s = refl

    steal-ends :
        (o : Owner T) (t : ℕ)
        → m.top ≡ t
        → t < reach m o
        → Shared m o
        → (lo m o ≡ t)
          × (lo (record m { top = suc t }) o ≡ suc t)
          × (hi (record m { top = suc t }) o ≡ hi m o)
          × (t < hi m o)
    steal-ends Owner.idle t e l s = ground (arith, s.own)
    steal-ends o t e l s = ground (arith, s.own, s.low)

    pub ThiefMove-Effect :
        {o : Owner T} {e : Event T} {th th' : Thief T} {m' : Mem T}
        → ThiefMove T m th e m' th'
        → Shared m o
        → ThiefOk m o th
        → Effect e (items m o) (items m' o)
    ThiefMove-Effect {o} (ThiefMove.win {t} {tmp} {x} q r) s h =
        let (e1, e2, e3, l) = steal-ends o t q (h.0.1 q) s in
        span-ends _ _ _ _ _ e1 refl
        ∙ span-cons _ t (hi m o) l (sym (h.1 q) ∙ r)
        ∙ ap (λ k. x ∷ k) (span-ends _ _ _ _ _ (sym e2) (sym e3))
    ThiefMove-Effect ThiefMove.load_top s h = refl
    ThiefMove-Effect (ThiefMove.see_some q) s h = refl
    ThiefMove-Effect (ThiefMove.see_empty q) s h = refl
    ThiefMove-Effect ThiefMove.load_buf s h = refl
    ThiefMove-Effect ThiefMove.load_slot s h = refl
    ThiefMove-Effect (ThiefMove.lose q) s h = refl
