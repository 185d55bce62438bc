-- ===== src/Lace/Refine.antt =====
-- The items of a Lace deque, step by step.
use mathlib.Core.Path.{subst}
use parallel_load_balancing.Common.{
  ℕ, suc, ◌-◌, ◌<◌, ◌^◌, ◌≡◌, refl, sym, ap, ◌∙◌, Bool-cases, inl, inr, some, List, [], ◌∷◌, ◌++◌,
  arith,
}
use parallel_load_balancing.Ring.Span.{span, span-same, span-nil, span-snoc, span-cons, span-ends}
use parallel_load_balancing.DequeCommon.{Event, Effect, Spec, fresh, after}
use parallel_load_balancing.Lace.Run
use parallel_load_balancing.Lace.{
  Mem, Owner, idle, Thief, outside, reading, mask_index, OwnerMove, write_first, store_top_split,
  store_allstolen, no_request, some_request, clear_request, write_next, publish, not_asked,
  nothing_to_share, asked, add_split, grow_allstolen, answer, take_own, none_left, enter_shrink,
  load_shared, load_none, sub_split, load_stolen, load_beyond, load_within, correct, take_shared,
  shut, ThiefMove, see_allstolen, see_some, load_top_split, load_unshared, exchange, lose, read,
  request,
}
use parallel_load_balancing.Lace.Run.{System, Step, by_owner, by_thief, initial, Reach, start, step}
use parallel_load_balancing.Lace.Inv.{limit_of, Held, Inv}
use parallel_load_balancing.Lace.Mask.{mask_index-lt}
use parallel_load_balancing.Lace.Writes.{After-limit, written, written_here, written_below}
use parallel_load_balancing.Lace.OwnerMoves.{OwnerMove-Inv}
use parallel_load_balancing.Lace.ThiefMoves.{taken_slot, ThiefMove-Inv}

-- The items, oldest first.
abbrev pub items : {T : Type 0} → Mem T → Owner T → List T
items m o = span m.array m.top (limit_of o m.bottom)

module _ {T : Type 0} where
  -- A pop takes the youngest item.
  take-items :
      (m : Mem T) (x : T)
      → m.top < m.bottom
      → m.array (m.bottom - 1) ≡ some x
      → span m.array m.top m.bottom ≡ span m.array m.top (m.bottom - 1) ++ x ∷ []
  take-items m x h e =
      span-ends m.array m.top m.bottom m.top (suc (m.bottom - 1)) refl (omega (arith, h))
      ∙ span-snoc m.array m.top (m.bottom - 1) (omega (arith, h)) e

module _ {T : Type 0} {cap : ℕ} {m : Mem T} {thieves : ℕ → Thief T} where
  write-items :
      (v : Inv cap m idle thieves) (bits : ℕ) (pow : cap ≡ 2 ^ bits) (room : m.bottom < cap) (x : T)
      → span (written v bits pow room x) m.top m.bottom ≡ span m.array m.top m.bottom
  write-items v bits pow room x =
      span-same (written v bits pow room x) m.array m.top m.bottom
        (λ j _ q. written_below v bits pow room x j q)

OwnerMove-Effect :
    {T : Type 0} {cap : ℕ} (bits : ℕ) {m m' : Mem T} {o o' : Owner T} {thieves : ℕ → Thief T}
    {e : Event T}
    → cap ≡ 2 ^ bits
    → Inv cap m o thieves
    → OwnerMove T cap m o e m' o'
    → Effect e (items m o) (items m' o')
OwnerMove-Effect {cap} bits {m} pow v (write_first {x} room h) = sym (write-items v bits pow room x)
OwnerMove-Effect bits {m} pow v (store_top_split {x}) =
    span-snoc m.array m.bottom m.bottom (omega arith) v.shape.1
    ∙ ap (λ k. span m.array k m.bottom ++ x ∷ []) (sym v.shape.0.taken)
OwnerMove-Effect bits {m} pow v (write_next {x} room h) =
    span-snoc (written v bits pow room x) m.top m.bottom v.upto (written_here v bits pow room x)
    ∙ ap (λ q. q ++ x ∷ []) (write-items v bits pow room x)
OwnerMove-Effect {T} bits {m} pow v (not_asked {a} h) =
    ap (span m.array m.top) (sym (After-limit T a m.bottom).0)
OwnerMove-Effect {T} bits {m} pow v (nothing_to_share {a} h l) =
    ap (span m.array m.top) (sym (After-limit T a m.bottom).0)
OwnerMove-Effect {T} bits {m} pow v (asked {a} h l) =
    ap (span m.array m.top) (sym (After-limit T a m.bottom).1)
OwnerMove-Effect {T} bits {m} pow v (add_split {a}) =
    let (_, e, f, _, _) = After-limit T a m.bottom in ap (span m.array m.top) (e ∙ sym f)
OwnerMove-Effect {T} bits {m} pow v (grow_allstolen {a}) =
    let (_, _, e, f, _) = After-limit T a m.bottom in ap (span m.array m.top) (e ∙ sym f)
OwnerMove-Effect {T} bits {m} pow v (answer {a}) =
    let (e, _, _, f, _) = After-limit T a m.bottom in ap (span m.array m.top) (f ∙ sym e)
OwnerMove-Effect bits {m} pow v (take_own {x} l e) = elim (Bool-cases m.o_allstolen) [
  | inl h ↦ absurd (omega (arith, l, (v.shape.0 h).closed))
  | inr h ↦
      let shared = v.shape.1 h in take-items m x (omega (arith, l, shared.known, shared.shared)) e
]
OwnerMove-Effect bits {m} pow v (none_left l h) =
    let none_there = span-nil m.array m.top m.bottom (omega (arith, (v.shape.0 h).taken)) in
    (none_there, none_there)
OwnerMove-Effect bits {m} pow v (load_none h) =
    let none_there = span-nil m.array m.top m.bottom (omega (arith, h, v.shape.1)) in
    (none_there, none_there)
OwnerMove-Effect bits {m} pow v (load_stolen h) =
    let none_there = span-nil m.array m.top m.bottom (omega (arith, h, v.shape.1)) in
    (none_there, none_there)
OwnerMove-Effect {cap} bits {m} pow v (take_shared {x} e) =
    let (shared, below) = v.shape in
    let here : mask_index cap (m.bottom - 1) ≡ m.bottom - 1 =
      ap (λ c. mask_index c (m.bottom - 1)) pow
      ∙ mask_index-lt bits (m.bottom - 1) (omega (arith, below, v.room, pow)) in
    take-items m x (omega (arith, below, shared.shared)) (ap m.array (sym here) ∙ e)
OwnerMove-Effect bits {m} pow v store_allstolen = refl
OwnerMove-Effect bits {m} pow v (no_request h) = refl
OwnerMove-Effect bits {m} pow v (some_request h) = refl
OwnerMove-Effect bits {m} pow v clear_request = refl
OwnerMove-Effect bits {m} pow v publish = refl
OwnerMove-Effect bits {m} pow v (enter_shrink l h) = refl
OwnerMove-Effect bits {m} pow v (load_shared ne) = refl
OwnerMove-Effect bits {m} pow v sub_split = refl
OwnerMove-Effect bits {m} pow v (load_beyond ne l) = refl
OwnerMove-Effect bits {m} pow v (load_within ne l) = refl
OwnerMove-Effect bits {m} pow v correct = refl
OwnerMove-Effect bits {m} pow v shut = refl

ThiefMove-Effect :
    {T : Type 0} {cap : ℕ} (bits : ℕ) {m m' : Mem T} {o : Owner T} {thieves : ℕ → Thief T} (i : ℕ)
    {t t' : Thief T} {e : Event T}
    → cap ≡ 2 ^ bits
    → Inv cap m o thieves
    → thieves i ≡ t
    → ThiefMove T cap m t e m' t'
    → Effect e (items m o) (items m' o)
ThiefMove-Effect bits {m} {o} i pow v is (exchange {t} {s} {x} a b e) =
    let (low, bound, slot) = taken_slot v bits i t s pow is a b e in
    span-cons m.array m.top (limit_of o m.bottom) (omega (arith, low, bound)) (ap m.array a ∙ slot)
    ∙ ap (λ k. x ∷ span m.array (suc k) (limit_of o m.bottom)) a
ThiefMove-Effect bits i pow v is (see_allstolen _) = refl
ThiefMove-Effect bits i pow v is (see_some _) = refl
ThiefMove-Effect bits i pow v is (load_top_split h) = refl
ThiefMove-Effect bits i pow v is (load_unshared h) = refl
ThiefMove-Effect bits i pow v is (lose _) = refl
ThiefMove-Effect bits i pow v is (read _) = refl
ThiefMove-Effect bits i pow v is request = refl

initial-Inv : (T : Type 0) (cap : ℕ) → Inv cap (Run.fresh T) idle (λ _. outside)
initial-Inv T cap = record {
  shape = (
    λ _. record { taken = refl; unshared = omega arith; closed = omega arith },
    λ e. ground (arith, e),
  );
  room = omega arith;
  upto = omega arith;
  live = λ j p q. absurd (omega (arith, q));
  held = λ i. 0;
}

Step-Inv :
    {T : Type 0} {cap : ℕ} (bits : ℕ) {s t : System T} {e : Event T}
    → cap ≡ 2 ^ bits
    → Inv cap s.mem s.owner s.thieves
    → Step T cap s e t
    → Inv cap t.mem t.owner t.thieves
Step-Inv bits pow v (by_owner move) = OwnerMove-Inv bits pow v move
Step-Inv bits pow v (by_thief i move) = ThiefMove-Inv bits i pow v refl move

Step-Effect :
    {T : Type 0} {cap : ℕ} (bits : ℕ) {s t : System T} {e : Event T}
    → cap ≡ 2 ^ bits
    → Inv cap s.mem s.owner s.thieves
    → Step T cap s e t
    → Effect e (items s.mem s.owner) (items t.mem t.owner)
Step-Effect bits pow v (by_owner move) = OwnerMove-Effect bits pow v move
Step-Effect bits pow v (by_thief i move) = ThiefMove-Effect bits i pow v refl move

pub Reach-Inv :
    {T : Type 0} {cap : ℕ} (bits : ℕ) {es : List (Event T)} {s : System T}
    → cap ≡ 2 ^ bits
    → Reach T cap es s
    → Inv cap s.mem s.owner s.thieves
Reach-Inv {T} {cap} bits pow start = initial-Inv T cap
Reach-Inv bits pow (step r h) = Step-Inv bits pow (Reach-Inv bits pow r) h

-- In every interleaving of the owner and any number of thieves, over a capacity that is a power of
-- two and as long as no push begins with `bottom` at the capacity, the events of a Lace deque are
-- a history of the sequential deque: pushes and pops at the young end, steals at the old end, a pop
-- that fails only when there is no item, and a steal counted when its exchange succeeds.
pub lace-refines-Spec :
    {T : Type 0} {cap : ℕ} (bits : ℕ) {es : List (Event T)} {s : System T}
    → cap ≡ 2 ^ bits
    → Reach T cap es s
    → Spec T es (items s.mem s.owner)
lace-refines-Spec bits pow start = fresh
lace-refines-Spec bits pow (step {e} r h) =
    after e (lace-refines-Spec bits pow r) (Step-Effect bits pow (Reach-Inv bits pow r) h)

-- Under the same conditions the slot that a thief reads after its exchange still has the item that it
-- has taken, whatever the owner has pushed and popped since.
pub reading-keeps :
    {T : Type 0} {cap : ℕ} (bits : ℕ) {es : List (Event T)} {s : System T} (i t : ℕ) (x : T)
    → cap ≡ 2 ^ bits
    → Reach T cap es s
    → s.thieves i ≡ reading t x
    → s.mem.array (mask_index cap t) ≡ some x
reading-keeps {cap} bits {s} i t x pow r is =
    let v = Reach-Inv bits pow r in
    let (below, slot) = subst (Held s.mem.array s.mem.top) is (v.held i) in
    let here : mask_index cap t ≡ t =
      ap (λ c. mask_index c t) pow
      ∙ mask_index-lt bits t (omega (arith, below, v.upto, v.room, pow)) in
    ap s.mem.array here ∙ slot
