-- ===== src/Lace/OwnerMoves.antt =====
-- The steps of `push`, `pop`, `grow_shared` and `shrink_shared`.
use mathlib.Core.Path.{subst}
use parallel_load_balancing.Common.{
  ℕ, suc, ◌+◌, ◌-◌, ◌/◌, ◌≤◌, ◌<◌, ◌^◌, ◌≡◌, refl, sym, ap, ◌∙◌, false, Bool-cases, inl, inr, arith,
}
use parallel_load_balancing.DequeCommon.{Event}
use parallel_load_balancing.Lace.{
  Mem, After, to_pop, Owner, idle, packing, unstealing, asking, growing, grown, shrink_sub,
  shrink_look, correcting, taking, Thief, halfway, corrected, OwnerMove, write_first,
  store_top_split, store_allstolen, no_request, some_request, clear_request, write_next, publish,
  not_asked, nothing_to_share, asked, add_split, grow_allstolen, answer, take_own, none_left,
  enter_shrink, load_shared, load_none, sub_split, load_stolen, load_beyond, load_within, correct,
  take_shared, shut,
}
use parallel_load_balancing.Lace.Inv.{limit_of, IsOpen, IsFirst, Held, Inv, view}
use parallel_load_balancing.Lace.Writes.{
  idle-Shape, back-Shape, After-limit, keep, written_here, write,
}

module _ {T : Type 0} where
  -- After the two halves have been stored.
  first-IsOpen :
      {o : Owner T} (m : Mem T)
      → limit_of o m.bottom ≡ suc m.bottom
      → IsFirst (view m)
      → IsOpen o (record (view m) { osplit = suc m.bottom; o_allstolen = false })
  first-IsOpen m e f = record {
    own = refl;
    known = f.one;
    shared = f.near;
    inside = omega (arith, e, f.one);
  }

module _ {T : Type 0} {cap : ℕ} {m : Mem T} {thieves : ℕ → Thief T} where
  store_top_split-Inv :
      (x : T)
      → Inv cap m (packing x) thieves
      → Inv cap (record m { top = m.bottom; split = suc m.bottom }) unstealing thieves
  store_top_split-Inv x v =
      let (gone, e, room) = v.shape in
      record {
        shape = record { one = refl; near = omega arith };
        room = room;
        upto = omega arith;
        live = λ j p q. let h : m.bottom ≡ j = omega (arith, p, q) in (x, ap m.array (sym h) ∙ e);
        held = λ i. subst (λ k. Held m.array k (thieves i)) gone.taken (v.held i);
      }

  -- A pop of an item that no thief can get at.
  take-Inv :
      {o : Owner T}
      → Inv cap m o thieves
      → limit_of o m.bottom ≡ m.bottom
      → IsOpen idle (view m)
      → m.split < m.bottom
      → Inv cap
          (record m { bottom = m.bottom - 1; m_bottom = m.bottom - 1 })
          (asking to_pop)
          thieves
  take-Inv v e shared lt =
      keep v refl refl (omega (arith, e)) (omega (arith, shared.shared, lt)) (record {
        own = shared.own;
        known = shared.known;
        shared = shared.shared;
        inside = omega (arith, lt);
      })

  add_split-Inv :
      (a : After)
      → Inv cap m (growing a) thieves
      → Inv cap
          (record m {
            split = m.split + (m.bottom - m.osplit + 1) / 2;
            osplit = m.osplit + (m.bottom - m.osplit + 1) / 2;
            o_allstolen = false;
          })
          (grown a)
          thieves
  add_split-Inv a v =
      let (shared, room) = v.shape in
      let (_, el, en, _, up) = After-limit T a m.bottom in
      let top : m.top ≤ m.split = shared.shared in
      keep v refl refl (omega (arith, el, en)) (omega (arith, v.upto, el, en)) (record {
        own = refl;
        known = ap (λ k. k + (m.bottom - m.osplit + 1) / 2) shared.known;
        shared = omega (arith, top);
        inside = omega (arith, room, shared.known, up);
      })

  sub_split-Inv :
      (t s : ℕ)
      → Inv cap m (shrink_sub t s) thieves
      → Inv cap
          (record m { split = m.split - (s - halfway t s) })
          (shrink_look s (halfway t s))
          thieves
  sub_split-Inv t s v =
      let (a, b, c, d, e, f) = v.shape in
      keep v refl refl (omega arith) (omega (arith, v.upto))
        (omega (arith, a, c), b, omega (arith, c), d, e, f)

  correct-Inv :
      (s n t : ℕ)
      → Inv cap m (correcting s n t) thieves
      → Inv cap
          (record m { split = m.split + (corrected t s - n); osplit = corrected t s })
          taking
          thieves
  correct-Inv s n t v =
      let (a, b, c, d, f, e) = v.shape in
      let half : n ≤ corrected t s = omega (arith, d, f) in
      keep v refl refl (omega arith) (omega (arith, v.upto)) (
        record {
          own = e;
          known = omega (arith, a, half);
          shared = omega (arith, a, c, d, f);
          inside = omega (arith, a, b, f, half);
        },
        omega (arith, a, b, d, f),
      )

pub OwnerMove-Inv :
    {T : Type 0} {cap : ℕ} (bits : ℕ) {m m' : Mem T} {o o' : Owner T} {thieves : ℕ → Thief T}
    {e : Event T}
    → cap ≡ 2 ^ bits
    → Inv cap m o thieves
    → OwnerMove T cap m o e m' o'
    → Inv cap m' o' thieves
OwnerMove-Inv {cap} bits {m} pow v (write_first {x} room h) =
    write v bits pow room x (omega arith) (omega arith) (
      record {
        taken = (v.shape.0 h).taken;
        unshared = (v.shape.0 h).unshared;
        closed = (v.shape.0 h).closed;
      },
      written_here v bits pow room x,
      room,
    )
OwnerMove-Inv {cap} bits {m} pow v (store_top_split {x}) = store_top_split-Inv x v
OwnerMove-Inv {cap} bits {m} pow v store_allstolen =
    keep v refl refl (omega arith) (omega (arith, v.upto)) v.shape
OwnerMove-Inv {cap} bits {m} pow v (no_request h) =
    keep v refl refl (omega arith) (omega (arith, v.upto)) (first-IsOpen m refl v.shape)
OwnerMove-Inv {cap} bits {m} pow v (some_request h) =
    keep v refl refl (omega arith) (omega (arith, v.upto)) v.shape
OwnerMove-Inv {cap} bits {m} pow v clear_request =
    keep v refl refl (omega arith) (omega (arith, v.upto)) (first-IsOpen m refl v.shape)
OwnerMove-Inv {cap} bits {m} pow v (write_next {x} room h) =
    let shared = v.shape.1 h in
    write v bits pow room x (omega arith) (omega arith) (record {
      own = h;
      known = shared.known;
      shared = shared.shared;
      inside = omega (arith, shared.inside);
    })
OwnerMove-Inv {cap} bits {m} pow v publish =
    keep v refl refl (omega arith) (omega (arith, v.upto)) (
      idle-Shape cap (record {
        own = v.shape.own;
        known = v.shape.known;
        shared = v.shape.shared;
        inside = v.shape.inside;
      }))
OwnerMove-Inv {T} {cap} bits {m} pow v (not_asked {a} h) =
    let (e, _, _, _, _) = After-limit T a m.bottom in
    keep v refl refl (omega (arith, e)) (omega (arith, v.upto, e))
      (back-Shape cap a (view m) v.shape)
OwnerMove-Inv {T} {cap} bits {m} pow v (nothing_to_share {a} h l) =
    let (e, _, _, _, _) = After-limit T a m.bottom in
    keep v refl refl (omega (arith, e)) (omega (arith, v.upto, e))
      (back-Shape cap a (view m) v.shape)
OwnerMove-Inv {T} {cap} bits {m} pow v (asked {a} h l) =
    let (_, e, _, _, _) = After-limit T a m.bottom in
    keep v refl refl (omega (arith, e)) (omega (arith, v.upto, e)) (v.shape, l)
OwnerMove-Inv {cap} bits {m} pow v (add_split {a}) = add_split-Inv a v
OwnerMove-Inv {T} {cap} bits {m} pow v (grow_allstolen {a}) =
    let (_, _, e, f, _) = After-limit T a m.bottom in
    keep v refl refl (omega (arith, e, f)) (omega (arith, v.upto, e, f)) v.shape
OwnerMove-Inv {T} {cap} bits {m} pow v (answer {a}) =
    let (e, _, _, f, _) = After-limit T a m.bottom in
    keep v refl refl (omega (arith, e, f)) (omega (arith, v.upto, e, f))
      (back-Shape cap a (view m) v.shape)
OwnerMove-Inv {cap} bits {m} pow v (take_own {x} l e) = elim (Bool-cases m.o_allstolen) [
  | inl h ↦ absurd (omega (arith, l, (v.shape.0 h).closed))
  | inr h ↦ let shared = v.shape.1 h in take-Inv v refl shared (omega (arith, shared.known, l))
]
OwnerMove-Inv {cap} bits {m} pow v (none_left l h) = v
OwnerMove-Inv {cap} bits {m} pow v (enter_shrink l h) =
    let shared = v.shape.1 h in
    keep v refl refl (omega arith) v.upto (shared, omega (arith, shared.known, l, shared.inside))
OwnerMove-Inv {cap} bits {m} pow v (load_shared ne) =
    let (shared, e) = v.shape in
    keep v refl refl (omega arith) v.upto (
      refl,
      sym e,
      omega (arith, ne, shared.shared),
      shared.shared,
      shared.own,
      omega (arith, e, shared.known),
    )
OwnerMove-Inv {cap} bits {m} pow v (load_none h) =
    let (shared, e) = v.shape in
    keep v refl refl (omega arith) v.upto (record {
      taken = h ∙ e;
      unshared = omega (arith, h);
      closed = omega (arith, e, shared.known);
    })
OwnerMove-Inv {cap} bits {m} pow v (sub_split {t} {s}) = sub_split-Inv t s v
OwnerMove-Inv {cap} bits {m} pow v (load_stolen {s} {n} h) =
    let (a, b, c, d, e, f) = v.shape in
    keep v refl refl (omega arith) v.upto
      (record { taken = h ∙ sym b; unshared = omega (arith, a, c, h); closed = f })
OwnerMove-Inv {cap} bits {m} pow v (load_beyond {s} {n} ne l) =
    let (a, b, c, d, e, f) = v.shape in
    keep v refl refl (omega arith) v.upto (a, b, refl, l, omega (arith, ne, d), e)
OwnerMove-Inv {cap} bits {m} pow v (load_within {s} {n} ne l) =
    let (a, b, c, d, e, f) = v.shape in
    keep v refl refl (omega arith) v.upto (
      record { own = e; known = a; shared = omega (arith, a, l); inside = omega (arith, a, b, c) },
      omega (arith, a, b, c),
    )
OwnerMove-Inv {cap} bits {m} pow v (correct {s} {n} {t}) = correct-Inv s n t v
OwnerMove-Inv {cap} bits {m} pow v (take_shared {x} e) = take-Inv v refl v.shape.0 v.shape.1
OwnerMove-Inv {cap} bits {m} pow v shut = keep v refl refl (omega arith) v.upto (
  λ _. record { taken = v.shape.taken; unshared = v.shape.unshared; closed = v.shape.closed },
  λ e. ground (arith, e),
)
