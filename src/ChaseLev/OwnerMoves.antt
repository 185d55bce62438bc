-- ===== src/ChaseLev/OwnerMoves.antt =====
-- The steps of the owner of a Chase-Lev deque and the invariant.
use parallel_load_balancing.Common.{
  ℕ, suc, ◌*◌, ◌≤◌, ◌<◌, ◌≡◌, ◌∷◌, refl, sym, ap, ◌∙◌, inl, inr, arith, ℕ_discrete,
}
use parallel_load_balancing.Common.Int.{pos}
use parallel_load_balancing.Common.Family.{update, update_self, update_other, update_cases}
use parallel_load_balancing.Ring.{RingBuf, load, store, resize}
use parallel_load_balancing.Ring.Laws.{
  IsRing, cap_pos, store-IsRing, load-store_self, load-store_other, cap-store,
}
use parallel_load_balancing.Ring.Resize.{resize_lem}
use parallel_load_balancing.DequeCommon.{Event}
use parallel_load_balancing.ChaseLev.{Mem, Owner, OwnerMove, peek}
use parallel_load_balancing.ChaseLev.Inv.{Shared}

-- What a push that has allocated, swapped or stored leaves, with the fields that its heap changes.
module _ {T : Type 0} {m : Mem T} where
  grow-Shared :
      {x : T} {b t p : ℕ}
      → Shared m (Owner.push_buf x b t p)
      → Shared
          (record m {
            heap = update m.heap m.next (resize (m.heap p) b t);
            next = suc m.next;
            garbage = p ∷ m.garbage;
          })
          (Owner.push_grown x b m.next)
  grow-Shared {x} {b} {t} {p} s = record {
    rings = λ q l.
        update_cases m.heap m.next bigger IsRing q (λ e. big.0) (λ ne. s.rings q (omega arith));
    current = omega (arith, s.current);
    kept = λ q l. elim l [ inl e ↦ omega (arith, e, at_buf) | inr r ↦ omega (arith, s.kept q r) ];
    low = s.low;
    span = rw here s.span;
    filled = rw here s.filled;
    own = (
      s.own.0,
      omega arith,
      inl (sym s.own.4),
      rw there (ground (arith, s.own, s.span, big.1, room, same)),
      λ j u v.
          rw (there, here) (big.2 j (omega (arith, s.own)) v ∙ ap (λ q. load (m.heap q) j) s.own.4),
    );
  }
    where
      bigger : RingBuf T
      bigger = resize (m.heap p) b t

      at_buf : p < m.next
      at_buf = omega (arith, s.current, s.own)

      same : (m.heap p).cap ≡ (m.heap m.buf).cap
      same = ap (λ q. (m.heap q).cap) s.own.4

      room : 0 < (m.heap p).cap
      room = cap_pos (s.rings p at_buf)

      big :
          IsRing bigger
          × (bigger.cap ≡ 2 * (m.heap p).cap)
          × ((j : ℕ) → t ≤ j → j < b → load bigger j ≡ load (m.heap p) j)
      big = resize_lem b t (s.rings p at_buf) s.own.3 (omega (arith, s.own, same))

      here : update m.heap m.next bigger m.buf ≡ m.heap m.buf
      here = update_other m.heap m.next bigger (omega (arith, s.current))

      there : update m.heap m.next bigger m.next ≡ bigger
      there = update_self m.heap m.next bigger

  swap-Shared :
      {x : T} {b p : ℕ}
      → Shared m (Owner.push_grown x b p)
      → Shared (record m { buf = p }) (Owner.push_room x b p)
  swap-Shared {x} {b} {p} s = record {
    rings = s.rings;
    current = s.own.1;
    kept = s.kept;
    low = s.low;
    span = ground (arith, s.own.0, s.own.3);
    filled = λ j u v. let (y, e) = s.filled j u v in (y, s.own.4 j u (ground (arith, s.own.0)) ∙ e);
    own = (s.own.0, refl, s.own.3);
  }

  -- What a store at the young end leaves to be read: the stored item, and what was there before at
  -- every other index of the span.
  module _ {x : T} {b p : ℕ} (s : Shared m (Owner.push_room x b p)) where
    abbrev pub written : RingBuf T
    written = store (m.heap p) b x

    at_buf : p < m.next
    at_buf = omega (arith, s.current, s.own)

    same : (m.heap p).cap ≡ (m.heap m.buf).cap
    same = ap (λ q. (m.heap q).cap) s.own.1

    pub now_written : update m.heap p written m.buf ≡ written
    now_written = ap (update m.heap p written) (sym s.own.1) ∙ update_self m.heap p written

    pub written_other : (j : ℕ) → m.top ≤ j → j < b → load written j ≡ peek m m.buf j
    written_other j u v =
        load-store_other m.top b j x (s.rings p at_buf) (omega arith) u
          (ground (arith, s.own, same)) (ground (arith, s.own, same)) (omega arith)
        ∙ ap (λ q. load (m.heap q) j) s.own.1

    pub store-Shared : Shared (record m { heap = update m.heap p written }) (Owner.push_stored x b)
    store-Shared = record {
      rings = λ q l.
          update_cases m.heap p written IsRing q (λ e. store-IsRing b x (s.rings p at_buf))
            (λ ne. s.rings q l);
      current = s.current;
      kept = s.kept;
      low = s.low;
      span = rw now_written (ground (arith, s.span, same, cap-store (m.heap p) b x));
      filled = λ j u v.
          let (y, e) = s.filled j u v in
          (y, rw now_written (written_other j u (ground (arith, s.own)) ∙ e));
      own = (
        s.own.0,
        rw now_written (ground (arith, s.own, same, cap-store (m.heap p) b x)),
        rw now_written (load-store_self b x (s.rings p at_buf)),
      );
    }

  publish-Shared :
      {x : T} {b : ℕ}
      → Shared m (Owner.push_stored x b)
      → Shared (record m { bottom = pos (suc b) }) Owner.idle
  publish-Shared {x} {b} s = record {
    rings = s.rings;
    current = s.current;
    kept = s.kept;
    low = ground (arith, s.low, s.own);
    span = ground (arith, s.own);
    filled = λ j u v. elim (ℕ_discrete j b) [
      | yes e ↦ (x, rw e s.own.2)
      | no ne ↦ s.filled j u (ground (arith, s.own))
    ];
    own = refl;
  }

module _ {T : Type 0} {m : Mem T} where
  -- Every step of the owner keeps the shared part of the invariant.
  pub OwnerMove-Shared :
      {o o' : Owner T} {e : Event T} {m' : Mem T}
      → OwnerMove T m o e m' o'
      → Shared m o
      → Shared m' o'
  OwnerMove-Shared (OwnerMove.grow h) s = grow-Shared s
  OwnerMove-Shared OwnerMove.swap_buf s = swap-Shared s
  OwnerMove-Shared OwnerMove.store_slot s = store-Shared s
  OwnerMove-Shared OwnerMove.publish s = publish-Shared s
  OwnerMove-Shared (OwnerMove.load_bottom x q) s = ground arith
  OwnerMove-Shared (OwnerMove.fits h) s = ground arith
  OwnerMove-Shared (OwnerMove.see_more q h) s = ground arith
  OwnerMove-Shared (OwnerMove.see_last q h) s = ground arith
  OwnerMove-Shared (OwnerMove.see_none h) s = ground arith
  OwnerMove-Shared (OwnerMove.win_race q) s = ground arith
  OwnerMove-Shared (OwnerMove.lose_race q) s = ground arith
  OwnerMove-Shared _ s = ground arith
