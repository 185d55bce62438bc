-- ===== src/ChaseLev/Progress.antt =====
-- Wait-freedom of the operations of the Chase-Lev deque: the next step of a thread, and the number of
-- its own steps that an operation takes.
use parallel_load_balancing.Common.{
  ℕ, ◌+◌, ◌-◌, ◌^◌, ◌≤◌, ◌<◌, ◌≡◌, ◌≢◌, refl, ap, ◌∙◌, ◌⊎◌, inl, inr, List, arith, dec_lt,
  ℕ_discrete,
}
use parallel_load_balancing.Common.Int.{pos, negsuc, pos_part, neg_part}
use parallel_load_balancing.DequeCommon.{Event}
use parallel_load_balancing.ChaseLev.{Mem, Owner, OwnerMove, Thief, ThiefMove, System, Reach, peek}
use parallel_load_balancing.ChaseLev.Inv.{lo, hi, reach, Shared, ThiefOk}
use parallel_load_balancing.ChaseLev.Safety.{Reach-Inv}

-- The most steps that are left to the owner before its operation returns.
pub owner_rank : {T : Type 0} → Owner T → ℕ
owner_rank Owner.idle = 0
owner_rank (Owner.push_bottom x b) = 6
owner_rank (Owner.push_top x b t) = 5
owner_rank (Owner.push_buf x b t p) = 4
owner_rank (Owner.push_grown x b p) = 3
owner_rank (Owner.push_room x b p) = 2
owner_rank (Owner.push_stored x b) = 1
owner_rank (Owner.pop_bottom b) = 6
owner_rank (Owner.pop_buf b p) = 5
owner_rank (Owner.pop_fenced b p) = 4
owner_rank (Owner.pop_race b p) = 3
owner_rank (Owner.pop_won b p) = 2
owner_rank (Owner.pop_last b p) = 1
owner_rank (Owner.pop_take b p) = 1
owner_rank (Owner.pop_beaten b) = 2
owner_rank (Owner.pop_none b) = 2
owner_rank Owner.pop_empty = 1

pub thief_rank : {T : Type 0} → Thief T → ℕ
thief_rank Thief.outside = 0
thief_rank (Thief.steal_top t) = 4
thief_rank (Thief.steal_some t) = 3
thief_rank (Thief.steal_buf t p) = 2
thief_rank (Thief.steal_tmp t tmp) = 1

module _ {T : Type 0} where
  abbrev pub OwnerNext : Mem T → Owner T → Type 0
  OwnerNext m o = (e : Event T) × (m' : Mem T) × (o' : Owner T) × OwnerMove T m o e m' o'

  abbrev pub ThiefNext : Mem T → Thief T → Type 0
  ThiefNext m th = (e : Event T) × (m' : Mem T) × (th' : Thief T) × ThiefMove T m th e m' th'

  owner_next : {m : Mem T} (o : Owner T) → o ≢ Owner.idle → Shared m o → OwnerNext m o
  owner_next Owner.idle ne s = absurd (ne refl)
  owner_next (Owner.push_bottom x b) ne s = (_, _, _, OwnerMove.load_top)
  owner_next (Owner.push_top x b t) ne s = (_, _, _, OwnerMove.load_buf)
  owner_next {m} (Owner.push_buf x b t p) ne s = elim (dec_lt (m.heap p).cap (b - t + 1)) [
    | yes l ↦ (_, _, _, OwnerMove.grow l)
    | no l ↦ (_, _, _, OwnerMove.fits (omega arith))
  ]
  owner_next (Owner.push_grown x b p) ne s = (_, _, _, OwnerMove.swap_buf)
  owner_next (Owner.push_room x b p) ne s = (_, _, _, OwnerMove.store_slot)
  owner_next (Owner.push_stored x b) ne s = (_, _, _, OwnerMove.publish)
  owner_next (Owner.pop_bottom b) ne s = (_, _, _, OwnerMove.load_buf_pop)
  owner_next (Owner.pop_buf b p) ne s = (_, _, _, OwnerMove.lower)
  owner_next (Owner.pop_fenced (negsuc k) p) ne s = (_, _, _, OwnerMove.see_none (omega arith))
  owner_next {m} (Owner.pop_fenced (pos n) p) ne s = elim (dec_lt m.top n) [
    | yes l ↦ (_, _, _, OwnerMove.see_more refl l)
    | no l ↦ elim (ℕ_discrete m.top n) [
      | yes e ↦ (_, _, _, OwnerMove.see_last refl e)
      | no q ↦ (_, _, _, OwnerMove.see_none (omega arith))
    ]
  ]
  owner_next {m} (Owner.pop_race n p) ne s = elim (ℕ_discrete m.top n) [
    | yes e ↦ (_, _, _, OwnerMove.win_race e)
    | no q ↦ (_, _, _, OwnerMove.lose_race q)
  ]
  owner_next (Owner.pop_won n p) ne s = (_, _, _, OwnerMove.restore_won)
  owner_next {m} (Owner.pop_last n p) ne s =
      let (x, q) = s.filled n (omega arith) (omega arith) in
      (_, _, _, OwnerMove.take_last (ap (λ r. peek m r n) s.own.1 ∙ q))
  owner_next {m} (Owner.pop_take n p) ne s =
      let (x, q) = s.filled n s.low (omega arith) in
      (_, _, _, OwnerMove.take (ap (λ r. peek m r n) s.own.1 ∙ q))
  owner_next (Owner.pop_beaten n) ne s = (_, _, _, OwnerMove.restore_beaten)
  owner_next (Owner.pop_none b) ne s = (_, _, _, OwnerMove.restore_none)
  owner_next Owner.pop_empty ne s = (_, _, _, OwnerMove.give_up)

  top_ends :
      {m : Mem T} (o : Owner T) (t : ℕ)
      → m.top ≡ t
      → t < reach m o
      → Shared m o
      → (lo m o ≤ t) × (t < hi m o)
  top_ends Owner.idle t e l s = ground (arith, s.own)
  top_ends o t e l s = ground (arith, s.own, s.low)

  thief_next :
      {m : Mem T} {o : Owner T} (th : Thief T)
      → th ≢ Thief.outside
      → Shared m o
      → ThiefOk m o th
      → ThiefNext m th
  thief_next Thief.outside ne s h = absurd (ne refl)
  thief_next {m} (Thief.steal_top t) ne s h =
      elim (dec_lt (t + neg_part m.bottom) (pos_part m.bottom)) [
        | yes l ↦ (_, _, _, ThiefMove.see_some (omega arith))
        | no l ↦ (_, _, _, ThiefMove.see_empty (omega arith))
      ]
  thief_next (Thief.steal_some t) ne s h = (_, _, _, ThiefMove.load_buf)
  thief_next (Thief.steal_buf t p) ne s h = (_, _, _, ThiefMove.load_slot)
  thief_next {m} {o} (Thief.steal_tmp t tmp) ne s h = elim (ℕ_discrete m.top t) [
    | yes e ↦
        let (low, l) = top_ends o t e (h.0.1 e) s in
        let (x, q) = s.filled t low l in (_, _, _, ThiefMove.win e (h.1 e ∙ q))
    | no q ↦ (_, _, _, ThiefMove.lose q)
  ]

  -- Inside an operation the owner always has a next step: every buffer that it reads a result from
  -- has a value there, and every test of the code has a branch.
  pub owner_progress :
      {cap : ℕ} {es : List (Event T)} {s : System T} (bits : ℕ)
      → cap ≡ 2 ^ bits
      → Reach T cap es s
      → s.owner ≢ Owner.idle
      → OwnerNext s.mem s.owner
  owner_progress {s = s} bits e r ne = owner_next s.owner ne (Reach-Inv bits e r).shared

  -- Inside a steal a thief always has a next step, whatever the other threads do; one whose
  -- compare-exchange succeeds has read an item.
  pub thief_progress :
      {cap : ℕ} {es : List (Event T)} {s : System T} (bits : ℕ)
      → cap ≡ 2 ^ bits
      → Reach T cap es s
      → (i : ℕ) → s.thieves i ≢ Thief.outside
      → ThiefNext s.mem (s.thieves i)
  thief_progress {s = s} bits e r i ne =
      let v = Reach-Inv bits e r in thief_next (s.thieves i) ne v.shared (v.thief i)

  -- Each step inside an operation of the owner lowers the number of steps left, and an operation
  -- starts with at most 6 left: a push or a pop ends within 7 steps of the owner.
  pub owner_steps_bounded :
      {m m' : Mem T} {o o' : Owner T} {e : Event T}
      → OwnerMove T m o e m' o'
      → (owner_rank o' < owner_rank o) ⊎ ((o ≡ Owner.idle) × (owner_rank o' ≤ 6))
  unfolding owner_rank
  owner_steps_bounded (OwnerMove.load_bottom x q) = inr (refl, omega arith)
  owner_steps_bounded OwnerMove.start_pop = inr (refl, omega arith)
  owner_steps_bounded _ = inl (omega arith)

  -- Each step inside a steal lowers the number of steps left, and a steal starts with 4 left: it
  -- ends within 5 steps of the thief, won or lost.
  pub thief_steps_bounded :
      {m m' : Mem T} {th th' : Thief T} {e : Event T}
      → ThiefMove T m th e m' th'
      → (thief_rank th' < thief_rank th) ⊎ ((th ≡ Thief.outside) × (thief_rank th' ≤ 4))
  unfolding thief_rank
  thief_steps_bounded ThiefMove.load_top = inr (refl, omega arith)
  thief_steps_bounded _ = inl (omega arith)

  owner_rank-le : (o : Owner T) → owner_rank o ≤ 6
  unfolding owner_rank
  owner_rank-le Owner.idle = omega arith
  owner_rank-le o = omega arith

  thief_rank-le : (th : Thief T) → thief_rank th ≤ 4
  unfolding thief_rank
  thief_rank-le Thief.outside = omega arith
  thief_rank-le th = omega arith

  -- In every reachable state over a capacity that is a power of two, an owner inside a push or a pop
  -- has a next step, which lowers the number of its steps left, at most 6: every test has a branch
  -- and every slot that it returns from holds a value.
  pub owner_advances :
      {cap : ℕ} {es : List (Event T)} {s : System T} (bits : ℕ)
      → cap ≡ 2 ^ bits
      → Reach T cap es s
      → s.owner ≢ Owner.idle
      → (owner_rank s.owner ≤ 6)
        × ((e : Event T) × (m' : Mem T) × (o' : Owner T) × OwnerMove T s.mem s.owner e m' o'
            × (owner_rank o' < owner_rank s.owner))
  owner_advances {s = s} bits e r ne =
      let (ev, m', o', mv) = owner_progress bits e r ne in
      (
        owner_rank-le s.owner,
        (
          ev,
          m',
          o',
          mv,
          elim (owner_steps_bounded mv) [ inl lt ↦ lt | inr (idle, _) ↦ absurd (ne idle) ],
        ),
      )

  -- In every reachable state over a capacity that is a power of two, a thief inside a steal has a next
  -- step, whatever the others do, which lowers the number of its steps left, at most 4.
  pub thief_advances :
      {cap : ℕ} {es : List (Event T)} {s : System T} (bits : ℕ)
      → cap ≡ 2 ^ bits
      → Reach T cap es s
      → (i : ℕ) → s.thieves i ≢ Thief.outside
      → (thief_rank (s.thieves i) ≤ 4)
        × ((e : Event T) × (m' : Mem T) × (th' : Thief T) × ThiefMove T s.mem (s.thieves i) e m' th'
            × (thief_rank th' < thief_rank (s.thieves i)))
  thief_advances {s = s} bits e r i ne =
      let (ev, m', th', mv) = thief_progress bits e r i ne in
      (
        thief_rank-le (s.thieves i),
        (
          ev,
          m',
          th',
          mv,
          elim (thief_steps_bounded mv) [ inl lt ↦ lt | inr (outside, _) ↦ absurd (ne outside) ],
        ),
      )
