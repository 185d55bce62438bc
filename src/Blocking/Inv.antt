-- ===== src/Blocking/Inv.antt =====
-- The invariant of the blocking deque: the lock, and what a thread's locals say of the memory.
use parallel_load_balancing.Common.{
  ℕ, ◌+◌, ◌-◌, ◌≤◌, ◌<◌, ◌≡◌, ◌≢◌, Bool, true, false, some, arith, if_intro, ltb, refl,
}
use parallel_load_balancing.Ring.{load}
use parallel_load_balancing.Ring.Laws.{IsRing, cap_pos}
use parallel_load_balancing.Ring.Resize.{resize_lem}
use parallel_load_balancing.Blocking.{Mem, Owner, Thief, System, room_for}

-- The thread is between its `lock()` and its `unlock()`.
abbrev pub owner_holds : {T : Type 0} → Owner T → Bool
owner_holds Owner.idle = false
owner_holds (Owner.push_lock x) = false
owner_holds (Owner.pop_look t) = false
owner_holds Owner.pop_lock = false
owner_holds _ = true

abbrev pub thief_holds : Thief → Bool
thief_holds Thief.outside = false
thief_holds (Thief.steal_look t) = false
thief_holds Thief.steal_try = false
thief_holds _ = true

module _ {T : Type 0} where
  abbrev pub OwnerOk : Mem T → Owner T → Type 0
  OwnerOk m (Owner.push_loaded x b t) = (b ≡ m.bottom) × (t ≡ m.top)
  OwnerOk m (Owner.pop_loaded b t) = (b ≡ m.bottom) × (t ≡ m.top)
  OwnerOk m (Owner.pop_look t) = t ≤ m.top
  OwnerOk m _ = Unit

  abbrev pub ThiefOk : Mem T → Thief → Type 0
  ThiefOk m (Thief.steal_loaded t b) = (b ≡ m.bottom) × (t ≡ m.top)
  ThiefOk m (Thief.steal_look t) = t ≤ m.top
  ThiefOk m _ = Unit

  -- The memory, whoever runs.
  pub record Sound (m : Mem T) : Type 0 where
    pub ring : IsRing m.buf
    pub low : m.top ≤ m.bottom
    pub room : m.bottom ≤ m.top + m.buf.cap
    pub filled : (j : ℕ) → m.top ≤ j → j < m.bottom → (x : T) × (load m.buf j ≡ some x)

  -- What the owner and a thief know of each other and of the lock.
  pub record Peer (m : Mem T) (o : Owner T) (th : Thief) : Type 0 where
    pub held : owner_holds o ≡ true → m.flag ≡ 1
    pub ok : ThiefOk m th
    pub flag : thief_holds th ≡ true → m.flag ≡ 1
    pub not_both : owner_holds o ≡ true → thief_holds th ≡ true → ⊥

  pub record Inv (s : System T) : Type 0 where
    pub sound : Sound s.mem
    pub owner_ok : OwnerOk s.mem s.owner
    pub peer : (i : ℕ) → Peer s.mem s.owner (s.thieves i)
    pub alone :
        (i j : ℕ) → i ≢ j → thief_holds (s.thieves i) ≡ true → thief_holds (s.thieves j) ≡ true → ⊥

  -- A buffer with room for one more, which reads as the old one.
  pub room_for_lem :
      (m : Mem T)
      → Sound m
      → IsRing (room_for m.buf m.bottom m.top)
        × (m.bottom < m.top + (room_for m.buf m.bottom m.top).cap)
        × ((j : ℕ)
            → m.top ≤ j
            → j < m.bottom
            → load (room_for m.buf m.bottom m.top) j ≡ load m.buf j)
  unfolding room_for
  room_for_lem m s =
      if_intro
        (λ r.
          IsRing r
          × (m.bottom < m.top + r.cap)
          × ((j : ℕ) → m.top ≤ j → j < m.bottom → load r j ≡ load m.buf j))
        (ltb m.buf.cap (m.bottom - m.top + 1))
        (λ h.
          let (w, e, c) = resize_lem m.bottom m.top s.ring s.low s.room in
          (w, ground (arith, h, e, s.room, s.low, cap_pos s.ring), c))
        (λ h. (s.ring, ground (arith, h, s.low), λ j u v. refl))
