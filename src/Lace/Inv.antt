-- ===== src/Lace/Inv.antt =====
-- The invariant of a Lace deque.
use parallel_load_balancing.Common.{ℕ, suc, ◌≤◌, ◌<◌, ◌≡◌, Bool, true, false, Option, some}
use parallel_load_balancing.Lace.{
  Mem, Owner, idle, packing, unstealing, looking, clearing, asking, growing, grown, answering,
  publishing, shrinking, shrink_sub, shrink_look, correcting, taking, emptied, Thief, loaded,
  reading, to_push,
}

-- The end of the items, the one of a push included once it counts.
abbrev pub limit_of : {T : Type 0} → Owner T → ℕ → ℕ
limit_of unstealing b = suc b
limit_of looking b = suc b
limit_of clearing b = suc b
limit_of (asking to_push) b = suc b
limit_of (growing to_push) b = suc b
limit_of (grown to_push) b = suc b
limit_of (answering to_push) b = suc b
limit_of publishing b = suc b
limit_of _ b = b

-- What the invariant is about: all but `m_bottom` and the two flags that the threads share.
pub record View (T : Type 0) : Type 0 where
  pub array : ℕ → Option T
  pub top : ℕ
  pub split : ℕ
  pub bottom : ℕ
  pub osplit : ℕ
  pub o_allstolen : Bool

abbrev pub view : {T : Type 0} → Mem T → View T
view m = record {
  array = m.array;
  top = m.top;
  split = m.split;
  bottom = m.bottom;
  osplit = m.osplit;
  o_allstolen = m.o_allstolen;
}

module _ {T : Type 0} where
  -- The owner knows the split point, up to which the items are shared.
  pub record IsOpen (o : Owner T) (m : View T) : Type 0 where
    pub own : m.o_allstolen ≡ false
    pub known : m.split ≡ m.osplit
    pub shared : m.top ≤ m.split
    pub inside : m.split ≤ limit_of o m.bottom

  -- Nothing is left.
  pub record IsShut (m : View T) : Type 0 where
    pub taken : m.top ≡ m.bottom
    pub unshared : m.split ≤ m.top
    pub closed : m.bottom ≤ m.osplit

  -- A push to an empty deque has stored the two halves.
  pub record IsFirst (m : View T) : Type 0 where
    pub one : m.split ≡ suc m.bottom
    pub near : m.top ≤ m.split

  abbrev pub Shape : ℕ → Owner T → View T → Type 0
  Shape cap idle m = (m.o_allstolen ≡ true → IsShut m) × (m.o_allstolen ≡ false → IsOpen idle m)
  Shape cap (packing x) m = IsShut m × (m.array m.bottom ≡ some x) × (m.bottom < cap)
  Shape cap unstealing m = IsFirst m
  Shape cap looking m = IsFirst m
  Shape cap clearing m = IsFirst m
  Shape cap (asking a) m = IsOpen (asking a) m
  Shape cap (growing a) m = IsOpen (asking a) m × (m.osplit < m.bottom)
  Shape cap (grown a) m = IsOpen (asking a) m
  Shape cap (answering a) m = IsOpen (asking a) m
  Shape cap publishing m = IsOpen publishing m
  Shape cap shrinking m = IsOpen idle m × (m.split ≡ m.bottom)
  Shape cap (shrink_sub t s) m =
      (m.split ≡ s)
      × (m.bottom ≡ s)
      × (t < s)
      × (m.top ≤ s)
      × (m.o_allstolen ≡ false)
      × (m.bottom ≤ m.osplit)
  Shape cap (shrink_look s n) m =
      (m.split ≡ n)
      × (m.bottom ≡ s)
      × (n < s)
      × (m.top ≤ s)
      × (m.o_allstolen ≡ false)
      × (m.bottom ≤ m.osplit)
  Shape cap (correcting s n t) m =
      (m.split ≡ n) × (m.bottom ≡ s) × (m.top ≡ t) × (n < t) × (t < s) × (m.o_allstolen ≡ false)
  Shape cap taking m = IsOpen idle m × (m.split < m.bottom)
  Shape cap emptied m = IsShut m

  -- What a thief has taken stays in its slot until it has read it.
  abbrev pub Held : (ℕ → Option T) → ℕ → Thief T → Type 0
  Held array top (loaded t s) = t < s
  Held array top (reading t x) = (t < top) × (array t ≡ some x)
  Held array top _ = ℕ

  pub record Inv (cap : ℕ) (m : Mem T) (o : Owner T) (thieves : ℕ → Thief T) : Type 0 where
    pub shape : Shape cap o (view m)
    pub room : limit_of o m.bottom ≤ cap
    pub upto : m.top ≤ limit_of o m.bottom
    pub live : (j : ℕ) → m.top ≤ j → j < limit_of o m.bottom → (x : T) × (m.array j ≡ some x)
    pub held : (i : ℕ) → Held m.array m.top (thieves i)
