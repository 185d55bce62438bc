-- ===== src/Lace/Writes.antt =====
-- What the owner's steps have in common.
use mathlib.Core.Path.{subst}
use parallel_load_balancing.Common.{
  ℕ, suc, ◌≤◌, ◌<◌, ◌^◌, ◌≡◌, ◌≢◌, refl, sym, ap, ◌∙◌, Option, some, arith, ℕ_discrete,
}
use parallel_load_balancing.Common.Family.{update, update_self, update_other}
use parallel_load_balancing.Lace.{
  Mem, After, to_push, to_pop, Owner, idle, asking, growing, grown, answering, publishing, Thief,
  outside, checked, loaded, reading, requesting, back, mask_index,
}
use parallel_load_balancing.Lace.Inv.{limit_of, IsOpen, Shape, Held, Inv, View, view}
use parallel_load_balancing.Lace.Mask.{mask_index-lt}

module _ {T : Type 0} where
  pub IsOpen-as :
      (o o' : Owner T) {m : View T}
      → limit_of o m.bottom ≤ limit_of o' m.bottom
      → IsOpen o m
      → IsOpen o' m
  IsOpen-as o o' h v = record {
    own = v.own;
    known = v.known;
    shared = v.shared;
    inside = omega (arith, h, v.inside);
  }

  -- A deque that is open is not shut.
  pub idle-Shape : (cap : ℕ) {m : View T} → IsOpen idle m → Shape cap idle m
  idle-Shape cap v = (λ e. ground (arith, e, v.own), λ _. v)

  pub back-Shape : (cap : ℕ) (a : After) (m : View T) → IsOpen (asking a) m → Shape cap (back a) m
  back-Shape cap to_push m v = IsOpen-as (asking to_push) publishing (omega arith) v
  back-Shape cap to_pop m v = idle-Shape cap (IsOpen-as (asking to_pop) idle (omega arith) v)

module _ (T : Type 0) where
  -- A call of `grow_shared` leaves the end of the items where it is.
  pub After-limit :
      (a : After) (b : ℕ)
      → (limit_of {T = T} (back a) b ≡ limit_of {T = T} (asking a) b)
        × (limit_of {T = T} (growing a) b ≡ limit_of {T = T} (asking a) b)
        × (limit_of {T = T} (grown a) b ≡ limit_of {T = T} (asking a) b)
        × (limit_of {T = T} (answering a) b ≡ limit_of {T = T} (asking a) b)
        × (b ≤ limit_of {T = T} (asking a) b)
  After-limit to_push b = (refl, refl, refl, refl, omega arith)
  After-limit to_pop b = (refl, refl, refl, refl, omega arith)

module _ {T : Type 0} {cap : ℕ} {m : Mem T} {o : Owner T} {thieves : ℕ → Thief T}
    (v : Inv cap m o thieves) where
  -- A step that writes no slot and does not move the top.
  pub keep :
      {m' : Mem T} {o' : Owner T}
      → m'.array ≡ m.array
      → m'.top ≡ m.top
      → limit_of o' m'.bottom ≤ limit_of o m.bottom
      → m.top ≤ limit_of o' m'.bottom
      → Shape cap o' (view m')
      → Inv cap m' o' thieves
  keep {m'} {o'} ea et le up shape = record {
    shape = shape;
    room = omega (arith, le, v.room);
    upto = omega (arith, et, up);
    live = λ j p q.
        let (x, e) = v.live j (omega (arith, p, et)) (omega (arith, q, le)) in
        (x, ap (λ a. a j) ea ∙ e);
    held = λ i.
        subst (λ a. Held a m'.top (thieves i)) (sym ea)
          (subst (λ k. Held m.array k (thieves i)) (sym et) (v.held i));
  }

Held-write :
    {T : Type 0} (array : ℕ → Option T) (top b : ℕ) (x : Option T) (t : Thief T)
    → top ≤ b
    → Held array top t
    → Held (update array b x) top t
Held-write array top b x outside h l = l
Held-write array top b x checked h l = l
Held-write array top b x (loaded t s) h l = l
Held-write array top b x (reading t y) h (l, e) =
    let ne : b ≢ t = λ q. omega (arith, q, h, l) in (l, update_other array b x ne ∙ e)
Held-write array top b x requesting h l = l

module _ {T : Type 0} {cap : ℕ} {m : Mem T} {thieves : ℕ → Thief T} (v : Inv cap m idle thieves)
    (bits : ℕ) (pow : cap ≡ 2 ^ bits) (room : m.bottom < cap) (x : T) where
  -- The slot that a push writes.
  pub slot : mask_index cap m.bottom ≡ m.bottom
  slot =
      ap (λ c. mask_index c m.bottom) pow ∙ mask_index-lt bits m.bottom (omega (arith, room, pow))

  abbrev pub written : ℕ → Option T
  written = update m.array (mask_index cap m.bottom) (some x)

  pub written_here : written m.bottom ≡ some x
  written_here =
      ap (λ i. update m.array i (some x) m.bottom) slot ∙ update_self m.array m.bottom (some x)

  pub written_below : (j : ℕ) → j < m.bottom → written j ≡ m.array j
  written_below j h =
      update_other m.array (mask_index cap m.bottom) (some x) (λ q. omega (arith, q, h, slot))

  pub write :
      {o' : Owner T}
      → limit_of o' m.bottom ≤ suc m.bottom
      → m.bottom ≤ limit_of o' m.bottom
      → Shape cap o' (view (record m { array = written }))
      → Inv cap (record m { array = written }) o' thieves
  write {o'} le ge shape = record {
    shape = shape;
    room = omega (arith, le, room);
    upto = omega (arith, ge, v.upto);
    live = λ j p q. elim (ℕ_discrete m.bottom j) [
      | yes e ↦ (x, ap written (sym e) ∙ written_here)
      | no ne ↦
          let (y, e) = v.live j p (omega (arith, q, le, ne)) in
          (y, written_below j (omega (arith, q, le, ne)) ∙ e)
    ];
    held = λ i.
        Held-write m.array m.top (mask_index cap m.bottom) (some x) (thieves i)
          (omega (arith, slot, v.upto)) (v.held i);
  }
