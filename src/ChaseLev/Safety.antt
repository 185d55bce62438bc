-- ===== src/ChaseLev/Safety.antt =====
-- What holds of every execution of the Chase-Lev deque.
use mathlib.Core.Path.{subst}
use mathlib.Core.List.{Perm}
use parallel_load_balancing.Common.{
  ℕ, zero, suc, ◌+◌, ◌-◌, ◌^◌, ◌≤◌, ◌<◌, ◌≡◌, ◌≢◌, refl, sym, ap, ◌∙◌, ◌↔◌, ◌⊎◌, inl, inr, Option,
  some, Bool, true, false, List, [], ◌∷◌, ◌++◌, length, arith,
}
use parallel_load_balancing.Common.Int.{pos, ◌≤ℤ◌}
use parallel_load_balancing.Common.Family.{update_cases}
use parallel_load_balancing.Ring.Resize.{make-IsRing}
use parallel_load_balancing.DequeCommon.{Event, Effect, Spec, put_in, handed_out}
use parallel_load_balancing.DequeCommon.History.{Spec-perm}
use parallel_load_balancing.ChaseLev.{
  Mem, Owner, OwnerMove, Thief, ThiefMove, System, Step, Reach, initial, peek, capacity, ssize,
  empty, by_owner, by_thief, here, more,
}
use parallel_load_balancing.ChaseLev.Inv.{lo, hi, IsLive, Shared, ThiefOk, Inv}
use parallel_load_balancing.ChaseLev.OwnerMoves.{OwnerMove-Shared}
use parallel_load_balancing.ChaseLev.ThiefMoves.{
  OwnerMove-Frame, Frame-ThiefOk, ThiefMove-Shared, ThiefMove-Frame, ThiefMove-ThiefOk,
}
use parallel_load_balancing.Ring.Span.{collect, span-nil}
use parallel_load_balancing.ChaseLev.Refine.{items, contents, OwnerMove-Effect, ThiefMove-Effect}

module _ {T : Type 0} where
  pub Step-Inv : {s s' : System T} {e : Event T} → Step T s e s' → Inv s → Inv s'
  Step-Inv {s} (by_owner mv) v = record {
    shared = OwnerMove-Shared mv v.shared;
    thief = λ i. Frame-ThiefOk (OwnerMove-Frame mv v.shared) (s.thieves i) (v.thief i);
  }
  Step-Inv {s} (by_thief i {m = m} {t = t} mv) v = record {
    shared = ThiefMove-Shared mv v.shared (v.thief i);
    thief = λ j.
        update_cases s.thieves i t (ThiefOk m s.owner) j
          (λ e. ThiefMove-ThiefOk mv v.shared (v.thief i))
          (λ ne. Frame-ThiefOk (ThiefMove-Frame mv v.shared (v.thief i)) (s.thieves j) (v.thief j));
  }

  initial-Inv : (bits cap : ℕ) → cap ≡ 2 ^ bits → Inv (initial T cap)
  initial-Inv bits cap e = record {
    shared = record {
      rings = λ p l. make-IsRing bits cap e;
      current = omega arith;
      kept = λ p l. elim l [ ];
      low = omega arith;
      span = omega arith;
      filled = λ j u v. absurd (omega (arith, v));
      own = refl;
    };
    thief = λ i. tt;
  }

  pub Reach-Inv :
      {cap : ℕ} {es : List (Event T)} {s : System T} (bits : ℕ)
      → cap ≡ 2 ^ bits
      → Reach T cap es s
      → Inv s
  Reach-Inv {cap} bits e here = initial-Inv bits cap e
  Reach-Inv bits e (more r st) = Step-Inv st (Reach-Inv bits e r)

  Step-Effect :
      {s s' : System T} {e : Event T} → Step T s e s' → Inv s → Effect e (contents s) (contents s')
  Step-Effect (by_owner mv) v = OwnerMove-Effect mv v.shared
  Step-Effect (by_thief i mv) v = ThiefMove-Effect mv v.shared (v.thief i)

  -- Linearizability: in every interleaving of the owner and any number of thieves, over a buffer
  -- whose capacity is a power of two, the events happen in an order that the sequential deque
  -- allows, and leave the items that the memory holds: a push adds at the young end, a pop takes
  -- the youngest item and fails only on an empty deque, a steal takes the oldest item.
  pub refines_spec :
      {cap : ℕ} {es : List (Event T)} {s : System T} (bits : ℕ)
      → cap ≡ 2 ^ bits
      → Reach T cap es s
      → Spec T es (contents s)
  refines_spec bits e here = Spec.fresh
  refines_spec bits e (more {e = ev} r st) =
      Spec.after ev (refines_spec bits e r) (Step-Effect st (Reach-Inv bits e r))

  -- No item is lost, duplicated or invented: in every interleaving the items pushed are, as often,
  -- those returned by pops and steals together with those in the deque.
  pub items_conserved :
      {cap : ℕ} {es : List (Event T)} {s : System T} (bits : ℕ)
      → cap ≡ 2 ^ bits
      → Reach T cap es s
      → Perm (put_in es) (handed_out es ++ contents s)
  items_conserved bits e r = Spec-perm (refines_spec bits e r)

  -- The owner is inside `pop`.
  abbrev pub is_popping : Owner T → Bool
  is_popping Owner.idle = false
  is_popping (Owner.push_bottom x b) = false
  is_popping (Owner.push_top x b t) = false
  is_popping (Owner.push_buf x b t p) = false
  is_popping (Owner.push_grown x b p) = false
  is_popping (Owner.push_room x b p) = false
  is_popping (Owner.push_stored x b) = false
  is_popping _ = true

  bottom-lt-top :
      {m : Mem T} (o : Owner T) (t : ℕ)
      → Shared m o
      → t ≤ m.top
      → m.bottom ≤ℤ pos t
      → (hi m o ≤ lo m o) ⊎ (is_popping o ≡ true)
  bottom-lt-top Owner.idle t s a b = inl (ground arith)
  bottom-lt-top o t s a b = ground arith

  OwnerMove-ne-empty :
      {m m' : Mem T} {o o' : Owner T} {e : Event T}
      → OwnerMove T m o e m' o'
      → e ≢ Event.steal_empty
  OwnerMove-ne-empty (OwnerMove.take q) h = cc
  OwnerMove-ne-empty _ h = cc

  ThiefMove-empty :
      {m m' : Mem T} {o : Owner T} {e : Event T} {th th' : Thief T}
      → ThiefMove T m th e m' th'
      → e ≡ Event.steal_empty
      → Shared m o
      → ThiefOk m o th
      → (items m o ≡ []) ⊎ (is_popping o ≡ true)
  ThiefMove-empty {m} {o = o} (ThiefMove.see_empty {t} q) e s h = elim (bottom-lt-top o t s h q) [
    | inl l ↦ inl (span-nil (peek m m.buf) (lo m o) (hi m o) l)
    | inr b ↦ inr b
  ]
  ThiefMove-empty _ e s h = cc

  Step-empty :
      {s s' : System T} {e : Event T}
      → Step T s e s'
      → e ≡ Event.steal_empty
      → Inv s
      → (contents s ≡ []) ⊎ (is_popping s.owner ≡ true)
  Step-empty (by_owner mv) e v = absurd (OwnerMove-ne-empty mv e)
  Step-empty (by_thief i mv) e v = ThiefMove-empty mv e v.shared (v.thief i)

  -- A steal that reports `err::empty` has seen an empty deque, or an owner in the middle of a pop.
  pub steal_empty_sound :
      {cap : ℕ} {es : List (Event T)} {s s' : System T} (bits : ℕ)
      → cap ≡ 2 ^ bits
      → Reach T cap es s
      → Step T s Event.steal_empty s'
      → (contents s ≡ []) ⊎ (is_popping s.owner ≡ true)
  steal_empty_sound bits e r st = Step-empty st refl (Reach-Inv bits e r)

  -- No thief reads a freed buffer: one that holds a buffer's address holds that of the current
  -- buffer or of one kept in `m_garbage`.
  pub reads-IsLive :
      {cap : ℕ} {es : List (Event T)} {s : System T} (bits : ℕ)
      → cap ≡ 2 ^ bits
      → Reach T cap es s
      → (i t p : ℕ) → s.thieves i ≡ Thief.steal_buf t p
      → IsLive s.mem p
  reads-IsLive {s = s} bits e r i t p at =
      (subst (ThiefOk s.mem s.owner) at ((Reach-Inv bits e r).thief i)).2

  length-collect-le : (f : ℕ → Option T) (i n : ℕ) → length (collect f i n) ≤ n
  length-collect-le f i zero = omega arith
  length-collect-le f i (suc n) = ground (arith, length-collect-le f (suc i) n)

  length-collect :
      (f : ℕ → Option T) (i n : ℕ)
      → ((j : ℕ) → i ≤ j → j < i + n → (x : T) × (f j ≡ some x))
      → length (collect f i n) ≡ n
  length-collect f i zero h = refl
  length-collect f i (suc n) h =
      let (x, e) = h i (omega arith) (omega arith) in
      let rest = length-collect f (suc i) n (λ j u v. h j (omega arith) (omega arith)) in
      ground (arith, e, rest)

  -- The deque never holds more items than its buffer has slots.
  pub size-le-capacity :
      {cap : ℕ} {es : List (Event T)} {s : System T} (bits : ℕ)
      → cap ≡ 2 ^ bits
      → Reach T cap es s
      → length (contents s) ≤ capacity s.mem
  unfolding capacity
  size-le-capacity {s = s} bits e r = ground (
    arith,
    length-collect-le (peek s.mem s.mem.buf) (lo s.mem s.owner)
        (hi s.mem s.owner - lo s.mem s.owner),
    (Reach-Inv bits e r).shared.span,
  )

  ssize-eq-length :
      {cap : ℕ} {es : List (Event T)} {s : System T} (bits : ℕ)
      → cap ≡ 2 ^ bits
      → Reach T cap es s
      → s.owner ≡ Owner.idle
      → ssize s.mem ≡ length (contents s)
  unfolding ssize
  ssize-eq-length {s = s} bits e r at =
      let v = (Reach-Inv bits e r).shared in
      let n =
        length-collect (peek s.mem s.mem.buf) (lo s.mem s.owner)
          (hi s.mem s.owner - lo s.mem s.owner) (λ j u w. v.filled j u (ground arith)) in
      sym (n ∙ ap (λ o. hi s.mem o - lo s.mem o) at)

  length-nil : (xs : List T) → length xs ≡ 0 → xs ≡ []
  length-nil [] e = refl
  length-nil (x ∷ xs) e = absurd (omega (arith, e))

  empty-ssize : (m : Mem T) → (empty m ≡ true) ↔ (ssize m ≡ 0)
  unfolding empty ssize
  empty-ssize m = (λ h. ground arith, λ h. ground arith)

  empty-iff-nil :
      {cap : ℕ} {es : List (Event T)} {s : System T} (bits : ℕ)
      → cap ≡ 2 ^ bits
      → Reach T cap es s
      → s.owner ≡ Owner.idle
      → (empty s.mem ≡ true) ↔ (contents s ≡ [])
  empty-iff-nil {s = s} bits e r at =
      let n = ssize-eq-length bits e r at in
      let (to, from) = empty-ssize s.mem in
      (λ h. length-nil (contents s) (sym n ∙ to h), λ h. from (n ∙ ap length h))

  -- Between the owner's operations `ssize()` is the number of items, and `empty()` holds exactly if
  -- there are none.
  pub observers-contents :
      {cap : ℕ} {es : List (Event T)} {s : System T} (bits : ℕ)
      → cap ≡ 2 ^ bits
      → Reach T cap es s
      → s.owner ≡ Owner.idle
      → (ssize s.mem ≡ length (contents s)) × ((empty s.mem ≡ true) ↔ (contents s ≡ []))
  observers-contents bits e r at = (ssize-eq-length bits e r at, empty-iff-nil bits e r at)
