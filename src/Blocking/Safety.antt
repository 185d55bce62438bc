-- ===== src/Blocking/Safety.antt =====
-- What holds of every execution of the blocking deque.
use parallel_load_balancing.Common.{
  ℕ, suc, ◌-◌, ◌^◌, ◌≤◌, ◌≡◌, ◌≢◌, true, arith, refl, sym, ◌∙◌, ap, List, [], ◌∷◌, ◌++◌,
}
use parallel_load_balancing.Ring.{load}
use parallel_load_balancing.Ring.Resize.{make-IsRing}
use parallel_load_balancing.DequeCommon.{Event, Effect, Spec}
use parallel_load_balancing.Ring.Span.{span, span-same, span-snoc, span-cons, span-nil}
use parallel_load_balancing.Blocking.{
  Mem, Owner, OwnerMove, Thief, ThiefMove, System, Step, by_owner, by_thief, Reach, here, more,
  initial,
}
use parallel_load_balancing.Blocking.Inv.{owner_holds, thief_holds, OwnerOk, ThiefOk, Sound, Inv}
use parallel_load_balancing.Blocking.Moves.{Step-Inv, load-push_at, load-push_at_self, push_at}

module _ {T : Type 0} where
  -- The items of the deque, oldest first.
  abbrev pub items : Mem T → List T
  items m = span (load m.buf) m.top m.bottom

  initial-Inv : (bits cap : ℕ) → cap ≡ 2 ^ bits → Inv (initial T cap)
  initial-Inv bits cap e = record {
    sound = record {
      ring = make-IsRing bits cap e;
      low = omega arith;
      room = omega arith;
      filled = λ j u v. absurd (omega arith);
    };
    owner_ok = tt;
    peer = λ i. ground arith;
    alone = λ i j n h k. ground arith;
  }

  Reach-Inv :
      {cap : ℕ} {es : List (Event T)} {s : System T} (bits : ℕ)
      → cap ≡ 2 ^ bits
      → Reach T cap es s
      → Inv s
  Reach-Inv {cap} bits e here = initial-Inv bits cap e
  Reach-Inv bits e (more r st) = Step-Inv st (Reach-Inv bits e r)

  items-nil : (m : Mem T) → m.bottom ≤ m.top → items m ≡ []
  items-nil m l = span-nil (load m.buf) m.top m.bottom l

  OwnerMove-Effect :
      {m m' : Mem T} {o o' : Owner T} {e : Event T}
      → OwnerMove T m o e m' o'
      → Sound m
      → OwnerOk m o
      → Effect e (items m) (items m')
  OwnerMove-Effect {m} (OwnerMove.store_push {x} {b} {t}) s (e, f) =
      rw (e, f)
        (span-snoc (load (push_at m x).buf) m.top m.bottom s.low (load-push_at_self m x s)
          ∙ ap (λ l. l ++ (x ∷ []))
              (span-same (load (push_at m x).buf) (load m.buf) m.top m.bottom (load-push_at m x s)))
  OwnerMove-Effect {m} (OwnerMove.look_empty l) s k =
      (items-nil m (omega (arith, l, k)), items-nil m (omega (arith, l, k)))
  OwnerMove-Effect {m} (OwnerMove.none_left l) s (e, f) =
      (items-nil m (omega (arith, l, e, f)), items-nil m (omega (arith, l, e, f)))
  OwnerMove-Effect {m} (OwnerMove.take {b} {t} {x} l q) s (e, f) =
      let last : m.bottom ≡ suc (b - 1) = omega (arith, l, e) in
      ap (span (load m.buf) m.top) last
      ∙ span-snoc (load m.buf) m.top (b - 1) (omega (arith, l, f)) q
  OwnerMove-Effect _ s k = refl

  ThiefMove-Effect :
      {m m' : Mem T} {th th' : Thief} {e : Event T}
      → ThiefMove T m th e m' th'
      → Sound m
      → ThiefOk m th
      → Effect e (items m) (items m')
  ThiefMove-Effect {m} (ThiefMove.take {t} {b} {x} l q) s (e, f) =
      ap (λ n. span (load m.buf) n m.bottom) (sym f)
      ∙ span-cons (load m.buf) t m.bottom (omega (arith, l, e)) q
  ThiefMove-Effect (ThiefMove.look_empty l) s k = refl
  ThiefMove-Effect _ s k = refl

  Step-Effect :
      {s s' : System T} {e : Event T}
      → Step T s e s'
      → Inv s
      → Effect e (items s.mem) (items s'.mem)
  Step-Effect (by_owner mv) v = OwnerMove-Effect mv v.sound v.owner_ok
  Step-Effect (by_thief i mv) v = ThiefMove-Effect mv v.sound (v.peer i).ok

  -- Linearizability: in every interleaving of the owner and any number of thieves, over a buffer
  -- whose capacity is a power of two, the events of the blocking deque happen in an order that the
  -- sequential deque allows, and leave the items that the memory holds.
  pub blocking-refines-Spec :
      {cap : ℕ} {es : List (Event T)} {s : System T} (bits : ℕ)
      → cap ≡ 2 ^ bits
      → Reach T cap es s
      → Spec T es (items s.mem)
  blocking-refines-Spec bits e here = Spec.fresh
  blocking-refines-Spec bits e (more {e = ev} r st) =
      Spec.after ev (blocking-refines-Spec bits e r) (Step-Effect st (Reach-Inv bits e r))

  -- Mutual exclusion: in a reachable state the owner and a thief are never both between their
  -- `lock()` and `unlock()`, nor are two thieves.
  pub mutual_exclusion :
      {cap : ℕ} {es : List (Event T)} {s : System T} (bits : ℕ)
      → cap ≡ 2 ^ bits
      → Reach T cap es s
      → ((i : ℕ) → owner_holds s.owner ≡ true → thief_holds (s.thieves i) ≡ true → ⊥)
        × ((i j : ℕ)
            → i ≢ j
            → thief_holds (s.thieves i) ≡ true
            → thief_holds (s.thieves j) ≡ true
            → ⊥)
  mutual_exclusion bits e r = let v = Reach-Inv bits e r in (λ i. (v.peer i).not_both, v.alone)

  ThiefMove-empty :
      {m m' : Mem T} {th th' : Thief} {e : Event T}
      → ThiefMove T m th e m' th'
      → e ≡ Event.steal_empty
      → ThiefOk m th
      → m.bottom ≤ m.top
  ThiefMove-empty (ThiefMove.look_empty l) q k = omega (arith, l, k)
  ThiefMove-empty (ThiefMove.none_left l) q (e, f) = omega (arith, l, e, f)
  ThiefMove-empty (ThiefMove.take l p) q k = cc
  ThiefMove-empty _ q k = cc

  OwnerMove-ne-empty :
      {m m' : Mem T} {o o' : Owner T} {e : Event T}
      → OwnerMove T m o e m' o'
      → e ≢ Event.steal_empty
  OwnerMove-ne-empty (OwnerMove.take l q) h = cc
  OwnerMove-ne-empty _ h = cc

  Step-empty :
      {s s' : System T} {e : Event T}
      → Step T s e s'
      → e ≡ Event.steal_empty
      → Inv s
      → items s.mem ≡ []
  Step-empty (by_owner mv) q v = absurd (OwnerMove-ne-empty mv q)
  Step-empty {s} (by_thief i mv) q v = items-nil s.mem (ThiefMove-empty mv q (v.peer i).ok)

  -- A steal that reports `err::empty` sees an empty deque, whether it has taken the lock or not.
  pub blocking_steal_empty_sound :
      {cap : ℕ} {es : List (Event T)} {s s' : System T} (bits : ℕ)
      → cap ≡ 2 ^ bits
      → Reach T cap es s
      → Step T s Event.steal_empty s'
      → items s.mem ≡ []
  blocking_steal_empty_sound bits e r st = Step-empty st refl (Reach-Inv bits e r)
