-- ===== src/Blocking/Moves.antt =====
-- The steps of the blocking deque and its invariant.
use parallel_load_balancing.Common.{
  ℕ, suc, ◌≤◌, ◌<◌, ◌≡◌, ◌≢◌, true, some, arith, refl, ◌∙◌, ap, sym, ℕ_discrete,
}
use parallel_load_balancing.Common.Family.{update, update_cases}
use parallel_load_balancing.Ring.{load, store}
use parallel_load_balancing.Ring.Laws.{store-IsRing, load-store_self, load-store_other, cap-store}
use parallel_load_balancing.DequeCommon.{Event}
use parallel_load_balancing.Blocking.{
  Mem, Owner, OwnerMove, Thief, ThiefMove, System, Step, by_owner, by_thief, room_for,
}
use parallel_load_balancing.Blocking.Inv.{
  thief_holds, OwnerOk, ThiefOk, Sound, Inv, Peer, room_for_lem,
}

module _ {T : Type 0} where
  -- A push under the lock, with indices that are still those of the memory.
  abbrev pub push_at : Mem T → T → Mem T
  push_at m x = record m {
    buf = store (room_for m.buf m.bottom m.top) m.bottom x;
    bottom = suc m.bottom;
  }

  pub load-push_at :
      (m : Mem T) (x : T)
      → Sound m
      → (j : ℕ) → m.top ≤ j
      → j < m.bottom
      → load (push_at m x).buf j ≡ load m.buf j
  load-push_at m x s j u v =
      let (w, r, c) = room_for_lem m s in
      load-store_other m.top m.bottom j x w s.low u r (omega (arith, r, v))
        (λ e. omega (arith, e, v))
      ∙ c j u v

  pub load-push_at_self : (m : Mem T) (x : T) → Sound m → load (push_at m x).buf m.bottom ≡ some x
  load-push_at_self m x s = load-store_self m.bottom x (room_for_lem m s).0

  push_at-Sound : (m : Mem T) (x : T) → Sound m → Sound (push_at m x)
  push_at-Sound m x s =
      let (w, r, c) = room_for_lem m s in
      record {
        ring = store-IsRing m.bottom x w;
        low = omega (arith, s.low);
        room = ground (arith, r, cap-store (room_for m.buf m.bottom m.top) m.bottom x);
        filled = λ j u v. elim (ℕ_discrete m.bottom j) [
          | yes e ↦ (x, ap (load (push_at m x).buf) (sym e) ∙ load-push_at_self m x s)
          | no n ↦
              let (y, q) = s.filled j u (omega arith) in
              (y, load-push_at m x s j u (omega arith) ∙ q)
        ];
      }

  flag-Sound : (m : Mem T) (n : ℕ) → Sound m → Sound (record m { flag = n })
  flag-Sound m n s = record { ring = s.ring; low = s.low; room = s.room; filled = s.filled }

  OwnerMove-Sound :
      {m m' : Mem T} {o o' : Owner T} {e : Event T}
      → OwnerMove T m o e m' o'
      → Sound m
      → OwnerOk m o
      → Sound m' × OwnerOk m' o'
  OwnerMove-Sound (OwnerMove.start_push x) s k = (s, tt)
  OwnerMove-Sound {m} (OwnerMove.lock_push f) s k = (flag-Sound m 1 s, tt)
  OwnerMove-Sound OwnerMove.load_push s k = (s, (refl, refl))
  OwnerMove-Sound {m} (OwnerMove.store_push {x} {b} {t}) s (e, f) =
      rw (e, f) (push_at-Sound m x s, tt)
  OwnerMove-Sound OwnerMove.look_top s k = (s, omega arith)
  OwnerMove-Sound (OwnerMove.look_empty l) s k = (s, tt)
  OwnerMove-Sound (OwnerMove.look_some l) s k = (s, tt)
  OwnerMove-Sound {m} (OwnerMove.lock_pop f) s k = (flag-Sound m 1 s, tt)
  OwnerMove-Sound OwnerMove.load_pop s k = (s, (refl, refl))
  OwnerMove-Sound (OwnerMove.take {b} {t} l q) s (e, f) = (
    record {
      ring = s.ring;
      low = omega (arith, l, e, f);
      room = omega (arith, s.room, e);
      filled = λ j u v. s.filled j u (omega (arith, v, e));
    },
    tt,
  )
  OwnerMove-Sound (OwnerMove.none_left l) s k = (s, tt)
  OwnerMove-Sound {m} OwnerMove.unlock s k = (flag-Sound m 0 s, tt)

  pub OwnerMove-Peer :
      {m m' : Mem T} {o o' : Owner T} {e : Event T} (th : Thief)
      → OwnerMove T m o e m' o'
      → Peer m o th
      → Peer m' o' th
  OwnerMove-Peer th (OwnerMove.lock_push f) p = ground (arith, f, p.ok, p.flag, p.not_both, p.held)
  OwnerMove-Peer th (OwnerMove.lock_pop f) p = ground (arith, f, p.ok, p.flag, p.not_both, p.held)
  OwnerMove-Peer th (OwnerMove.take l q) p = ground (arith, p.ok, p.flag, p.not_both, p.held)
  OwnerMove-Peer th _ p = ground (arith, p.ok, p.flag, p.not_both, p.held)

  ThiefMove-Sound :
      {m m' : Mem T} {th th' : Thief} {e : Event T}
      → ThiefMove T m th e m' th'
      → Sound m
      → ThiefOk m th
      → Sound m'
  ThiefMove-Sound {m} (ThiefMove.lock f) s k = flag-Sound m 1 s
  ThiefMove-Sound {m} (ThiefMove.take l q) s (e, f) = record {
    ring = s.ring;
    low = omega (arith, l, e, f);
    room = omega (arith, s.room);
    filled = λ j u v. s.filled j (omega (arith, u, f)) v;
  }
  ThiefMove-Sound {m} ThiefMove.unlock s k = flag-Sound m 0 s
  ThiefMove-Sound (ThiefMove.look_empty l) s k = s
  ThiefMove-Sound _ s k = s

  ThiefMove-Peer :
      {m m' : Mem T} {o : Owner T} {th th' : Thief} {e : Event T}
      → ThiefMove T m th e m' th'
      → Peer m o th
      → Peer m' o th'
  ThiefMove-Peer (ThiefMove.lock f) p = ground (arith, f, p.ok, p.flag, p.not_both, p.held)
  ThiefMove-Peer (ThiefMove.take l q) p = ground (arith, p.ok, p.flag, p.not_both, p.held)
  ThiefMove-Peer _ p = ground (arith, p.ok, p.flag, p.not_both, p.held)

  ThiefMove-OwnerOk :
      {m m' : Mem T} (o : Owner T) {th th' : Thief} {e : Event T}
      → ThiefMove T m th e m' th'
      → OwnerOk m o
      → Peer m o th
      → OwnerOk m' o
  ThiefMove-OwnerOk o (ThiefMove.take l q) k p = ground (arith, k, p.ok, p.not_both)
  ThiefMove-OwnerOk o _ k p = ground (arith, k)

  -- What another thief knows, after the move of one.
  ThiefMove-other :
      {m m' : Mem T} {o : Owner T} {th th' : Thief} {e : Event T} (other : Thief)
      → ThiefMove T m th e m' th'
      → Peer m o th
      → Peer m o other
      → (thief_holds th ≡ true → thief_holds other ≡ true → ⊥)
      → Peer m' o other × (thief_holds th' ≡ true → thief_holds other ≡ true → ⊥)
  ThiefMove-other other (ThiefMove.lock f) p r n =
      ground (arith, f, r.ok, r.flag, r.not_both, r.held, n)
  ThiefMove-other other (ThiefMove.take l q) p r n =
      ground (arith, p.ok, r.ok, r.flag, r.not_both, r.held, n)
  ThiefMove-other other _ p r n =
      ground (arith, p.flag, p.not_both, r.ok, r.flag, r.not_both, r.held, n)

  pub Step-Inv : {s s' : System T} {e : Event T} → Step T s e s' → Inv s → Inv s'
  Step-Inv {s} (by_owner {o = o} mv) v =
      let (w, k) = OwnerMove-Sound mv v.sound v.owner_ok in
      record {
        sound = w;
        owner_ok = k;
        peer = λ i. OwnerMove-Peer (s.thieves i) mv (v.peer i);
        alone = v.alone;
      }
  Step-Inv {s} (by_thief i {m = m} {t = t} mv) v =
      let others : (j : ℕ)
          → i ≢ j
          → Peer m s.owner (s.thieves j)
            × (thief_holds t ≡ true → thief_holds (s.thieves j) ≡ true → ⊥) =
        λ j n. ThiefMove-other (s.thieves j) mv (v.peer i) (v.peer j) (v.alone i j n) in
      record {
        sound = ThiefMove-Sound mv v.sound (v.peer i).ok;
        owner_ok = ThiefMove-OwnerOk s.owner mv v.owner_ok (v.peer i);
        peer = λ j.
            update_cases s.thieves i t (λ th. Peer m s.owner th) j
              (λ _. ThiefMove-Peer mv (v.peer i)) (λ n. (others j n).0);
        alone = λ j k ne.
            update_cases s.thieves i t
              (λ th. thief_holds th ≡ true → thief_holds (update s.thieves i t k) ≡ true → ⊥) j
              (λ e.
                update_cases s.thieves i t (λ th. thief_holds t ≡ true → thief_holds th ≡ true → ⊥)
                  k (λ f. absurd (ne (sym e ∙ f))) (λ n. (others k n).1))
              (λ n.
                update_cases s.thieves i t
                  (λ th. thief_holds (s.thieves j) ≡ true → thief_holds th ≡ true → ⊥) k
                  (λ f g h. (others j n).1 h g) (λ _. v.alone j k ne));
      }
