-- ===== src/Lace/Progress.antt =====
-- No operation of a Lace deque gets stuck.
use parallel_load_balancing.Common.{
  ℕ, ◌-◌, ◌≤◌, ◌^◌, ◌≡◌, ap, ◌∙◌, Bool-cases, inl, inr, List, arith, dec_lt, ℕ_discrete,
}
use parallel_load_balancing.DequeCommon.{Event}
use parallel_load_balancing.Lace.{
  Mem, After, Owner, idle, packing, unstealing, looking, clearing, asking, growing, grown,
  answering, publishing, shrinking, shrink_sub, shrink_look, correcting, taking, emptied, Thief,
  mask_index, OwnerMove,
}
use parallel_load_balancing.Lace.Run.{System, Reach}
use parallel_load_balancing.Lace.Inv.{Inv}
use parallel_load_balancing.Lace.Mask.{mask_index-lt}
use parallel_load_balancing.Lace.Refine.{Reach-Inv}

-- Some step of the owner.
abbrev pub Moves : {T : Type 0} → ℕ → Mem T → Owner T → Type 0
Moves {T} cap m o = (e : Event T) × (m' : Mem T) × (o' : Owner T) × OwnerMove T cap m o e m' o'

module _ {T : Type 0} {cap : ℕ} {m : Mem T} where
  asking-Moves : (a : After) → Moves cap m (asking a)
  asking-Moves a = elim (Bool-cases m.splitreq) [
    | inr h ↦ (_, _, _, OwnerMove.not_asked h)
    | inl h ↦ elim (dec_lt m.osplit m.bottom) [
      | yes l ↦ (_, _, _, OwnerMove.asked h l)
      | no g ↦ (_, _, _, OwnerMove.nothing_to_share h (omega (arith, g)))
    ]
  ]

  shrink_look-Moves : (s n : ℕ) → Moves cap m (shrink_look s n)
  shrink_look-Moves s n = elim (ℕ_discrete m.top s) [
    | yes e ↦ (_, _, _, OwnerMove.load_stolen e)
    | no ne ↦ elim (dec_lt n m.top) [
      | yes l ↦ (_, _, _, OwnerMove.load_beyond ne l)
      | no g ↦ (_, _, _, OwnerMove.load_within ne (omega (arith, g)))
    ]
  ]

module _ {T : Type 0} {cap : ℕ} {m : Mem T} {thieves : ℕ → Thief T} where
  -- `pop` can begin.
  idle-Moves : Inv cap m idle thieves → Moves cap m idle
  idle-Moves v = elim (dec_lt m.osplit m.bottom) [
    | yes l ↦
        let low : m.top ≤ m.bottom - 1 = elim (Bool-cases m.o_allstolen) [
          | inl h ↦ absurd (omega (arith, l, (v.shape.0 h).closed))
          | inr h ↦ omega (arith, l, (v.shape.1 h).known, (v.shape.1 h).shared)
        ] in
        let (x, e) = v.live (m.bottom - 1) low (omega (arith, l)) in
        (_, _, _, OwnerMove.take_own l e)
    | no g ↦ elim (Bool-cases m.o_allstolen) [
      | inl h ↦ (_, _, _, OwnerMove.none_left (omega (arith, g)) h)
      | inr h ↦ (_, _, _, OwnerMove.enter_shrink (omega (arith, g)) h)
    ]
  ]

  taking-Moves : (bits : ℕ) → cap ≡ 2 ^ bits → Inv cap m taking thieves → Moves cap m taking
  taking-Moves bits pow v =
      let (shared, below) = v.shape in
      let (x, e) =
        v.live (m.bottom - 1) (omega (arith, below, shared.shared)) (omega (arith, below)) in
      let here : mask_index cap (m.bottom - 1) ≡ m.bottom - 1 =
        ap (λ c. mask_index c (m.bottom - 1)) pow
        ∙ mask_index-lt bits (m.bottom - 1) (omega (arith, below, v.room, pow)) in
      (_, _, _, OwnerMove.take_shared (ap m.array here ∙ e))

owner-Moves :
    {T : Type 0} {cap : ℕ} (bits : ℕ) {m : Mem T} (o : Owner T) {thieves : ℕ → Thief T}
    → cap ≡ 2 ^ bits
    → Inv cap m o thieves
    → Moves cap m o
owner-Moves bits idle pow v = idle-Moves v
owner-Moves bits (packing x) pow v = (_, _, _, OwnerMove.store_top_split)
owner-Moves bits unstealing pow v = (_, _, _, OwnerMove.store_allstolen)
owner-Moves bits {m} looking pow v = elim (Bool-cases m.splitreq) [
  | inl h ↦ (_, _, _, OwnerMove.some_request h)
  | inr h ↦ (_, _, _, OwnerMove.no_request h)
]
owner-Moves bits clearing pow v = (_, _, _, OwnerMove.clear_request)
owner-Moves bits (asking a) pow v = asking-Moves a
owner-Moves bits (growing a) pow v = (_, _, _, OwnerMove.add_split)
owner-Moves bits (grown a) pow v = (_, _, _, OwnerMove.grow_allstolen)
owner-Moves bits (answering a) pow v = (_, _, _, OwnerMove.answer)
owner-Moves bits publishing pow v = (_, _, _, OwnerMove.publish)
owner-Moves bits {m} shrinking pow v = elim (ℕ_discrete m.top m.split) [
  | yes e ↦ (_, _, _, OwnerMove.load_none e)
  | no ne ↦ (_, _, _, OwnerMove.load_shared ne)
]
owner-Moves bits (shrink_sub t s) pow v = (_, _, _, OwnerMove.sub_split)
owner-Moves bits (shrink_look s n) pow v = shrink_look-Moves s n
owner-Moves bits (correcting s n t) pow v = (_, _, _, OwnerMove.correct)
owner-Moves bits taking pow v = taking-Moves bits pow v
owner-Moves bits emptied pow v = (_, _, _, OwnerMove.shut)

-- Under the conditions of the refinement, the owner has a next step in every state that comes up, be
-- it inside an operation or, outside, the first step of a pop: every test has a branch, and every
-- slot that it takes an item from has one.
pub lace-owner_progress :
    {T : Type 0} {cap : ℕ} (bits : ℕ) {es : List (Event T)} {s : System T}
    → cap ≡ 2 ^ bits
    → Reach T cap es s
    → Moves cap s.mem s.owner
lace-owner_progress bits {s} pow r = owner-Moves bits s.owner pow (Reach-Inv bits pow r)
