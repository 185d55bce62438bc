-- ===== src/ChaseLev/Inv.antt =====
-- The invariant of the Chase-Lev deque.
--
-- The items of the deque lie at the indices from `lo` to `hi`. They are `m_top` and `m_bottom`, but
-- while the owner pops: then `m_bottom` is one lower, or `m_top` one higher, than what has been
-- agreed on. No thief takes an index from `reach` on.
use parallel_load_balancing.Common.{ℕ, suc, ◌+◌, ◌≤◌, ◌<◌, ◌≡◌, ◌⊎◌, some, List, [], ◌∷◌}
use parallel_load_balancing.Common.Int.{ℤ, pos, negsuc, pos_part, neg_part, dec}
use parallel_load_balancing.Ring.Laws.{IsRing}
use parallel_load_balancing.ChaseLev.{
  Mem, Owner, Thief, System, peek, idle, push_bottom, push_top, push_buf, push_grown, push_room,
  push_stored, pop_bottom, pop_buf, pop_fenced, pop_race, pop_won, pop_last, pop_take, pop_beaten,
  pop_none, pop_empty, outside, steal_top, steal_some, steal_buf, steal_tmp,
}

-- b + 1, for b ≥ -1.
abbrev pub after : ℤ → ℕ
after (pos n) = suc n
after (negsuc n) = 0

abbrev pub IsIn : ℕ → List ℕ → Type 0
IsIn p [] = ⊥
IsIn p (q ∷ qs) = (p ≡ q) ⊎ IsIn p qs

module _ {T : Type 0} where
  abbrev pub lo : Mem T → Owner T → ℕ
  lo m (pop_won n p) = n
  lo m (pop_last n p) = n
  lo m _ = m.top

  abbrev pub hi : Mem T → Owner T → ℕ
  hi m (pop_fenced b p) = after b
  hi m (pop_race n p) = suc n
  hi m (pop_won n p) = suc n
  hi m (pop_take n p) = suc n
  hi m (pop_last n p) = suc n
  hi m (pop_beaten n) = suc n
  hi m (pop_none b) = after b
  hi m _ = pos_part m.bottom

  abbrev pub reach : Mem T → Owner T → ℕ
  reach m (pop_take n p) = n
  reach m o = hi m o

  -- The buffers that may be read: the current one, and those kept in `m_garbage`.
  abbrev pub IsLive : Mem T → ℕ → Type 0
  IsLive m p = (p ≡ m.buf) ⊎ IsIn p m.garbage

  -- What the owner's locals say of the memory.
  abbrev pub OwnerOk : Mem T → Owner T → Type 0
  OwnerOk m idle = neg_part m.bottom ≡ 0
  OwnerOk m (push_bottom x b) = m.bottom ≡ pos b
  OwnerOk m (push_top x b t) =
      (m.bottom ≡ pos b) × (t ≤ m.top) × (b ≤ t + (m.heap m.buf).cap) × (t ≤ b)
  OwnerOk m (push_buf x b t p) =
      (m.bottom ≡ pos b) × (t ≤ m.top) × (b ≤ t + (m.heap m.buf).cap) × (t ≤ b) × (p ≡ m.buf)
  OwnerOk m (push_grown x b p) =
      (m.bottom ≡ pos b)
      × (p < m.next)
      × IsIn m.buf m.garbage
      × (b < m.top + (m.heap p).cap)
      × ((j : ℕ) → m.top ≤ j → j < b → peek m p j ≡ peek m m.buf j)
  OwnerOk m (push_room x b p) = (m.bottom ≡ pos b) × (p ≡ m.buf) × (b < m.top + (m.heap m.buf).cap)
  OwnerOk m (push_stored x b) =
      (m.bottom ≡ pos b) × (b < m.top + (m.heap m.buf).cap) × (peek m m.buf b ≡ some x)
  OwnerOk m (pop_bottom b) = (b ≡ dec m.bottom) × (neg_part m.bottom ≡ 0)
  OwnerOk m (pop_buf b p) = (b ≡ dec m.bottom) × (neg_part m.bottom ≡ 0) × (p ≡ m.buf)
  OwnerOk m (pop_fenced b p) = (m.bottom ≡ b) × (neg_part b ≤ 1) × (p ≡ m.buf)
  OwnerOk m (pop_race n p) = (m.bottom ≡ pos n) × (p ≡ m.buf) × (n ≤ m.top)
  OwnerOk m (pop_won n p) = (m.bottom ≡ pos n) × (p ≡ m.buf) × (m.top ≡ suc n)
  OwnerOk m (pop_last n p) = (m.bottom ≡ pos (suc n)) × (p ≡ m.buf) × (m.top ≡ suc n)
  OwnerOk m (pop_take n p) = (m.bottom ≡ pos n) × (p ≡ m.buf)
  OwnerOk m (pop_beaten n) = (m.bottom ≡ pos n) × (m.top ≡ suc n)
  OwnerOk m (pop_none b) = (m.bottom ≡ b) × (neg_part b ≤ 1) × (m.top ≡ after b)
  OwnerOk m pop_empty = m.bottom ≡ pos m.top

  -- A thief at index `t` may win only if `t` is still the top and below `reach`.
  abbrev pub MayTake : Mem T → Owner T → ℕ → Type 0
  MayTake m o t = (t ≤ m.top) × (m.top ≡ t → t < reach m o)

  -- What a thief's locals say: were it to win, what it has read is the oldest item.
  abbrev pub ThiefOk : Mem T → Owner T → Thief T → Type 0
  ThiefOk m o outside = Unit {0}
  ThiefOk m o (steal_top t) = t ≤ m.top
  ThiefOk m o (steal_some t) = MayTake m o t
  ThiefOk m o (steal_buf t p) =
      MayTake m o t × (p < m.next) × IsLive m p × (m.top ≡ t → peek m p t ≡ peek m m.buf t)
  ThiefOk m o (steal_tmp t tmp) = MayTake m o t × (m.top ≡ t → tmp ≡ peek m m.buf t)

  pub record Shared (m : Mem T) (o : Owner T) : Type 0 where
    pub rings : (p : ℕ) → p < m.next → IsRing (m.heap p)
    pub current : m.buf < m.next
    pub kept : (p : ℕ) → IsIn p m.garbage → p < m.next
    pub low : m.top ≤ reach m o
    pub span : hi m o ≤ lo m o + (m.heap m.buf).cap
    pub filled : (j : ℕ) → lo m o ≤ j → j < hi m o → (x : T) × (peek m m.buf j ≡ some x)
    pub own : OwnerOk m o

  pub record Inv (s : System T) : Type 0 where
    pub shared : Shared s.mem s.owner
    pub thief : (i : ℕ) → ThiefOk s.mem s.owner (s.thieves i)
