-- ===== src/ChaseLev/ThiefMoves.antt =====
-- What a step of one thread of a Chase-Lev deque does to the thieves, and the thieves' own steps.
use parallel_load_balancing.Common.{ℕ, suc, ◌≤◌, ◌<◌, ◌≡◌, ◌∷◌, refl, sym, ap, ◌∙◌, inl, inr, arith}
use parallel_load_balancing.Common.Int.{pos, ◌≤ℤ◌}
use parallel_load_balancing.Common.Family.{update, update_other, update_cases}
use parallel_load_balancing.Ring.{load, resize}
use parallel_load_balancing.DequeCommon.{Event}
use parallel_load_balancing.ChaseLev.{Mem, Owner, OwnerMove, Thief, ThiefMove, peek}
use parallel_load_balancing.ChaseLev.Inv.{lo, hi, reach, IsLive, MayTake, OwnerOk, Shared, ThiefOk}
use parallel_load_balancing.ChaseLev.OwnerMoves.{written, now_written, written_other}

-- A step that a thief does not notice: the top and the heap only grow, no buffer is freed, and if
-- the top is where it was, the item there may still be taken and reads the same.
pub record Frame {T : Type 0} (m : Mem T) (o : Owner T) (m' : Mem T) (o' : Owner T) : Type 0 where
  pub up : m.top ≤ m'.top
  pub grown : m.next ≤ m'.next
  pub live : (p : ℕ) → IsLive m p → IsLive m' p
  pub within : m'.top ≡ m.top → m.top < reach m o → m.top < reach m' o'
  pub reads :
      m'.top ≡ m.top
      → m.top < reach m o
      → (peek m' m'.buf m.top ≡ peek m m.buf m.top)
        × ((p : ℕ) → p < m.next → peek m' p m.top ≡ peek m p m.top)

module _ {T : Type 0} {m m' : Mem T} {o o' : Owner T} where
  Frame-MayTake : Frame m o m' o' → (t : ℕ) → MayTake m o t → MayTake m' o' t
  Frame-MayTake f t h = ground (arith, f.within)

  pub Frame-ThiefOk : Frame m o m' o' → (th : Thief T) → ThiefOk m o th → ThiefOk m' o' th
  Frame-ThiefOk f Thief.outside h = tt
  Frame-ThiefOk f (Thief.steal_top t) h = ground (arith, f.up)
  Frame-ThiefOk f (Thief.steal_some t) h = Frame-MayTake f t h
  Frame-ThiefOk f (Thief.steal_buf t p) h =
      (Frame-MayTake f t h.0, omega (arith, f.grown, h.1), f.live p h.2, same)
    where
      same : m'.top ≡ t → peek m' p t ≡ peek m' m'.buf t
      same e =
          let here : m.top ≡ t = omega (arith, f.up, h.0.0, e) in
          let (cur, others) = f.reads (e ∙ sym here) (rw here (h.0.1 here)) in
          rw here at (others p h.1) ∙ h.3 here ∙ sym (rw here at cur)
  Frame-ThiefOk f (Thief.steal_tmp t tmp) h = (Frame-MayTake f t h.0, same)
    where
      same : m'.top ≡ t → tmp ≡ peek m' m'.buf t
      same e =
          let here : m.top ≡ t = omega (arith, f.up, h.0.0, e) in
          let (cur, others) = f.reads (e ∙ sym here) (rw here (h.0.1 here)) in
          h.1 here ∙ sym (rw here at cur)

module _ {T : Type 0} {m : Mem T} where
  grow-Frame :
      {x : T} {b t p : ℕ}
      → Shared m (Owner.push_buf x b t p)
      → Frame m
          (Owner.push_buf x b t p)
          (record m {
            heap = update m.heap m.next (resize (m.heap p) b t);
            next = suc m.next;
            garbage = p ∷ m.garbage;
          })
          (Owner.push_grown x b m.next)
  grow-Frame {x} {b} {t} {p} s = record {
    up = omega arith;
    grown = omega arith;
    live = λ q l. elim l [ inl e ↦ inl e | inr r ↦ inr (inr r) ];
    within = λ e l. l;
    reads = λ e l. (view m.buf s.current, view);
  }
    where
      view :
          (q : ℕ)
          → q < m.next
          → load (update m.heap m.next (resize (m.heap p) b t) q) m.top ≡ peek m q m.top
      view q l =
          ap (λ r. load r m.top)
            (update_other m.heap m.next (resize (m.heap p) b t) {j = q} (omega arith))

  swap-Frame :
      {x : T} {b p : ℕ}
      → Shared m (Owner.push_grown x b p)
      → Frame m (Owner.push_grown x b p) (record m { buf = p }) (Owner.push_room x b p)
  swap-Frame s = record {
    up = omega arith;
    grown = omega arith;
    live = λ q l. elim l [ inl e ↦ inr (rw e s.own.2) | inr r ↦ inr r ];
    within = λ e l. l;
    reads = λ e l. (s.own.4 m.top (omega arith) (ground (arith, s.own)), λ q k. refl);
  }

  store-Frame :
      {x : T} {b p : ℕ} (s : Shared m (Owner.push_room x b p))
      → Frame m
          (Owner.push_room x b p)
          (record m { heap = update m.heap p (written s) })
          (Owner.push_stored x b)
  store-Frame {x} {b} {p} s = record {
    up = omega arith;
    grown = omega arith;
    live = λ q l. l;
    within = λ e l. l;
    reads = λ e l. (rw (now_written s) (old l), λ q k. view l q);
  }
    where
      old : m.top < reach m (Owner.push_room x b p) → load (written s) m.top ≡ peek m m.buf m.top
      old l = written_other s m.top (omega arith) (ground (arith, s.own))

      view :
          m.top < reach m (Owner.push_room x b p)
          → (q : ℕ) → load (update m.heap p (written s) q) m.top ≡ peek m q m.top
      view l q =
          update_cases m.heap p (written s) (λ r. load r m.top ≡ peek m q m.top) q
            (λ e. old l ∙ ap (λ k. peek m k m.top) (sym s.own.1 ∙ e)) (λ ne. refl)

  pub OwnerMove-Frame :
      {o o' : Owner T} {e : Event T} {m' : Mem T}
      → OwnerMove T m o e m' o'
      → Shared m o
      → Frame m o m' o'
  OwnerMove-Frame (OwnerMove.grow h) s = grow-Frame s
  OwnerMove-Frame OwnerMove.swap_buf s = swap-Frame s
  OwnerMove-Frame OwnerMove.store_slot s = store-Frame s
  OwnerMove-Frame (OwnerMove.load_bottom x q) s = ground arith
  OwnerMove-Frame (OwnerMove.fits h) s = ground arith
  OwnerMove-Frame (OwnerMove.see_more q h) s = ground arith
  OwnerMove-Frame (OwnerMove.see_last q h) s = ground arith
  OwnerMove-Frame (OwnerMove.see_none h) s = ground arith
  OwnerMove-Frame (OwnerMove.win_race q) s = ground arith
  OwnerMove-Frame (OwnerMove.lose_race q) s = ground arith
  OwnerMove-Frame _ s = ground arith

  -- A thief that may take the top raises it by one.
  raise-own :
      (o : Owner T) (t : ℕ)
      → m.top ≡ t
      → t < reach m o
      → Shared m o
      → OwnerOk (record m { top = suc t }) o
  raise-own Owner.idle t e l s = ground (arith, s.own)
  raise-own (Owner.push_grown x b p) t e l s =
      (s.own.0, s.own.1, s.own.2, omega (arith, s.own.3), λ j u v. s.own.4 j (omega arith) v)
  raise-own o t e l s = ground (arith, s.own, s.low)

  raise-ends :
      (o : Owner T) (t : ℕ)
      → m.top ≡ t
      → t < reach m o
      → Shared m o
      → (lo m o ≤ lo (record m { top = suc t }) o)
        × (hi (record m { top = suc t }) o ≡ hi m o)
        × (suc t ≤ reach (record m { top = suc t }) o)
  raise-ends Owner.idle t e l s = ground (arith, s.own)
  raise-ends o t e l s = ground (arith, s.own, s.low)

  raise-Shared :
      (o : Owner T) (t : ℕ)
      → m.top ≡ t
      → t < reach m o
      → Shared m o
      → Shared (record m { top = suc t }) o
  raise-Shared o t e l s =
      let (up, same, below) = raise-ends o t e l s in
      record {
        rings = s.rings;
        current = s.current;
        kept = s.kept;
        low = below;
        span = rw same (ground (arith, s.span, up));
        filled = λ j u v. s.filled j (ground (arith, up)) (rw same at v);
        own = raise-own o t e l s;
      }

  bottom-le-reach : (o : Owner T) → Shared m o → m.bottom ≤ℤ pos (reach m o)
  bottom-le-reach Owner.idle s = ground (arith, s.own)
  bottom-le-reach o s = ground (arith, s.own, s.low)

  -- A step of a thief changes at most the top, and keeps the invariant of the memory, its own, and
  -- that of the other thieves.
  pub ThiefMove-Shared :
      {o : Owner T} {e : Event T} {th th' : Thief T} {m' : Mem T}
      → ThiefMove T m th e m' th'
      → Shared m o
      → ThiefOk m o th
      → Shared m' o
  ThiefMove-Shared {o} (ThiefMove.win q r) s h = raise-Shared o _ q (h.0.1 q) s
  ThiefMove-Shared ThiefMove.load_top s h = s
  ThiefMove-Shared _ s h = s

  pub ThiefMove-Frame :
      {o : Owner T} {e : Event T} {th th' : Thief T} {m' : Mem T}
      → ThiefMove T m th e m' th'
      → Shared m o
      → ThiefOk m o th
      → Frame m o m' o
  ThiefMove-Frame (ThiefMove.win q r) s h = ground arith
  ThiefMove-Frame ThiefMove.load_top s h = ground arith
  ThiefMove-Frame _ s h = ground arith

  pub ThiefMove-ThiefOk :
      {o : Owner T} {e : Event T} {th th' : Thief T} {m' : Mem T}
      → ThiefMove T m th e m' th'
      → Shared m o
      → ThiefOk m o th
      → ThiefOk m' o th'
  ThiefMove-ThiefOk ThiefMove.load_top s h = omega arith
  ThiefMove-ThiefOk {o} (ThiefMove.see_some q) s h = (h, λ e. ground (arith, bottom-le-reach o s))
  ThiefMove-ThiefOk ThiefMove.load_buf s h = (h, s.current, inl refl, λ e. refl)
  ThiefMove-ThiefOk ThiefMove.load_slot s h = (h.0, h.3)
  ThiefMove-ThiefOk (ThiefMove.win q r) s h = tt
  ThiefMove-ThiefOk (ThiefMove.see_empty q) s h = tt
  ThiefMove-ThiefOk (ThiefMove.lose q) s h = tt
