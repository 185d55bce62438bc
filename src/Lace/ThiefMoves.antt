-- ===== src/Lace/ThiefMoves.antt =====
-- The steps of `steal`.
use mathlib.Core.Path.{subst}
use parallel_load_balancing.Common.{
  ℕ, suc, ◌≤◌, ◌<◌, ◌^◌, ◌≡◌, sym, ap, ◌∙◌, true, Bool-cases, inl, inr, Option, some, arith,
}
use parallel_load_balancing.Common.Family.{update, update_cases}
use parallel_load_balancing.DequeCommon.{Event}
use parallel_load_balancing.Lace.{
  Mem, to_push, to_pop, Owner, idle, packing, unstealing, looking, clearing, asking, growing, grown,
  answering, publishing, shrinking, shrink_sub, shrink_look, correcting, taking, emptied, Thief,
  outside, checked, loaded, reading, requesting, ThiefMove, see_allstolen, see_some, load_top_split,
  load_unshared, exchange, lose, read, request, mask_index,
}
use parallel_load_balancing.Lace.Inv.{limit_of, IsOpen, Shape, Held, Inv, View, view}
use parallel_load_balancing.Lace.Mask.{mask_index-lt}

module _ {T : Type 0} where
  IsOpen-steal :
      {o : Owner T} {m : View T}
      → m.top < m.split
      → IsOpen o m
      → IsOpen o (record m { top = suc m.top })
  IsOpen-steal h v = record { own = v.own; known = v.known; shared = h; inside = v.inside }

  -- While there is something to steal it is an item.
  pub Shape-upto :
      (cap : ℕ) (o : Owner T) (m : View T)
      → m.top < m.split
      → Shape cap o m
      → m.split ≤ limit_of o m.bottom
  Shape-upto cap idle m h (shut, shared) = elim (Bool-cases m.o_allstolen) [
    | inl e ↦ omega (arith, h, (shut e).unshared)
    | inr e ↦ (shared e).inside
  ]
  Shape-upto cap (packing x) m h v = omega (arith, h, v.0.unshared)
  Shape-upto cap unstealing m h v = omega (arith, v.one)
  Shape-upto cap looking m h v = omega (arith, v.one)
  Shape-upto cap clearing m h v = omega (arith, v.one)
  Shape-upto cap (asking a) m h v = v.inside
  Shape-upto cap (growing to_push) m h v = v.0.inside
  Shape-upto cap (growing to_pop) m h v = v.0.inside
  Shape-upto cap (grown to_push) m h v = v.inside
  Shape-upto cap (grown to_pop) m h v = v.inside
  Shape-upto cap (answering to_push) m h v = v.inside
  Shape-upto cap (answering to_pop) m h v = v.inside
  Shape-upto cap publishing m h v = v.inside
  Shape-upto cap shrinking m h v = v.0.inside
  Shape-upto cap (shrink_sub t s) m h v = omega (arith, v.0, v.1)
  Shape-upto cap (shrink_look s n) m h v = omega (arith, v.0, v.1, v.2)
  Shape-upto cap (correcting s n t) m h v = omega (arith, v.0, v.1, v.3, v.4)
  Shape-upto cap taking m h v = v.0.inside
  Shape-upto cap emptied m h v = omega (arith, h, v.unshared)

  -- A thief that takes an item leaves the owner's part as it is.
  Shape-steal :
      (cap : ℕ) (o : Owner T) (m : View T)
      → m.top < m.split
      → Shape cap o m
      → Shape cap o (record m { top = suc m.top })
  Shape-steal cap idle m h (shut, shared) =
      (λ e. absurd (omega (arith, h, (shut e).unshared)), λ e. IsOpen-steal h (shared e))
  Shape-steal cap (packing x) m h v = absurd (omega (arith, h, v.0.unshared))
  Shape-steal cap unstealing m h v = record { one = v.one; near = h }
  Shape-steal cap looking m h v = record { one = v.one; near = h }
  Shape-steal cap clearing m h v = record { one = v.one; near = h }
  Shape-steal cap (asking a) m h v = IsOpen-steal h v
  Shape-steal cap (growing a) m h (v, l) = (IsOpen-steal h v, l)
  Shape-steal cap (grown a) m h v = IsOpen-steal h v
  Shape-steal cap (answering a) m h v = IsOpen-steal h v
  Shape-steal cap publishing m h v = IsOpen-steal h v
  Shape-steal cap shrinking m h (v, l) = (IsOpen-steal h v, l)
  Shape-steal cap (shrink_sub t s) m h (a, b, c, d, e, f) = (a, b, c, omega (arith, h, a), e, f)
  Shape-steal cap (shrink_look s n) m h (a, b, c, d, e, f) = (a, b, c, omega (arith, h, a, c), e, f)
  Shape-steal cap (correcting s n t) m h (a, b, c, d, e, f) = absurd (omega (arith, h, a, c, d))
  Shape-steal cap taking m h (v, l) = (IsOpen-steal h v, l)
  Shape-steal cap emptied m h v = absurd (omega (arith, h, v.unshared))

  Held-steal :
      (array : ℕ → Option T) (top : ℕ) (t : Thief T) → Held array top t → Held array (suc top) t
  Held-steal array top outside h = h
  Held-steal array top checked h = h
  Held-steal array top (loaded t s) h = h
  Held-steal array top (reading t x) (l, e) = (omega (arith, l), e)
  Held-steal array top requesting h = h

module _ {T : Type 0} {cap : ℕ} {m : Mem T} {o : Owner T} {thieves : ℕ → Thief T}
    (v : Inv cap m o thieves) where
  -- The thief i goes to another state and changes nothing.
  stay : (i : ℕ) (t : Thief T) → Held m.array m.top t → Inv cap m o (update thieves i t)
  stay i t h = record {
    shape = v.shape;
    room = v.room;
    upto = v.upto;
    live = v.live;
    held = λ k. update_cases thieves i t (Held m.array m.top) k (λ _. h) (λ _. v.held k);
  }

  -- What the exchange takes is the oldest item.
  pub taken_slot :
      (bits i t s : ℕ) {x : T}
      → cap ≡ 2 ^ bits
      → thieves i ≡ loaded t s
      → m.top ≡ t
      → m.split ≡ s
      → m.array (mask_index cap t) ≡ some x
      → (m.top < m.split) × (m.split ≤ limit_of o m.bottom) × (m.array t ≡ some x)
  taken_slot bits i t s pow is a b e =
      let low : m.top < m.split = omega (arith, a, b, subst (Held m.array m.top) is (v.held i)) in
      let bound = Shape-upto cap o (view m) low v.shape in
      let here : mask_index cap t ≡ t =
        ap (λ c. mask_index c t) pow
        ∙ mask_index-lt bits t (omega (arith, low, bound, a, v.room, pow)) in
      (low, bound, ap m.array (sym here) ∙ e)

  take :
      (i t : ℕ) (x : T)
      → m.top ≡ t
      → (m.top < m.split) × (m.split ≤ limit_of o m.bottom) × (m.array t ≡ some x)
      → Inv cap (record m { top = suc t }) o (update thieves i (reading t x))
  take i t x a (low, bound, slot) = record {
    shape =
        subst (λ k. Shape cap o (record (view m) { top = suc k })) a
          (Shape-steal cap o (view m) low v.shape);
    room = v.room;
    upto = omega (arith, low, bound, a);
    live = λ j p q. v.live j (omega (arith, p, a)) q;
    held = λ k.
        update_cases thieves i (reading t x) (Held m.array (suc t)) k (λ _. (omega arith, slot))
          (λ _.
            subst (λ j. Held m.array (suc j) (thieves k)) a
              (Held-steal m.array m.top (thieves k) (v.held k)));
  }

  request_split : (i : ℕ) → Inv cap (record m { splitreq = true }) o (update thieves i outside)
  request_split i =
      let w = stay i outside 0 in
      record { shape = w.shape; room = w.room; upto = w.upto; live = w.live; held = w.held }

pub ThiefMove-Inv :
    {T : Type 0} {cap : ℕ} (bits : ℕ) {m m' : Mem T} {o : Owner T} {thieves : ℕ → Thief T} (i : ℕ)
    {t t' : Thief T} {e : Event T}
    → cap ≡ 2 ^ bits
    → Inv cap m o thieves
    → thieves i ≡ t
    → ThiefMove T cap m t e m' t'
    → Inv cap m' o (update thieves i t')
ThiefMove-Inv bits i pow v is (see_allstolen _) = stay v i outside 0
ThiefMove-Inv bits i pow v is (see_some _) = stay v i checked 0
ThiefMove-Inv bits i pow v is (load_top_split h) = stay v i (loaded _ _) h
ThiefMove-Inv bits i pow v is (load_unshared h) = stay v i requesting 0
ThiefMove-Inv bits i pow v is (exchange {t} {s} {x} a b e) =
    take v i t x a (taken_slot v bits i t s pow is a b e)
ThiefMove-Inv bits i pow v is (lose _) = stay v i outside 0
ThiefMove-Inv bits i pow v is (read _) = stay v i outside 0
ThiefMove-Inv bits i pow v is request = request_split v i
