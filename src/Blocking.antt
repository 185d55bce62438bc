-- ===== src/Blocking.antt =====
-- include/libfork/core/ext/deque_blocking.hpp: the deque with a lock, one owner and any number of
-- thieves. Outside the lock each access to shared memory is a step. Under it a thread takes three:
-- it loads, it computes and stores (one store of `m_top` or `m_bottom`, which are all that the
-- other threads' operations read), it unlocks. A spin of `lock()` that finds the flag set changes
-- nothing and is no step.
pub mod Inv
pub mod Moves
pub mod Safety
mod Tests
use parallel_load_balancing.Common.{
  ℕ, suc, ◌+◌, ◌-◌, ◌≤◌, ◌<◌, ◌≡◌, ◌≢◌, Bool, true, false, Option, some, List, [], ◌∷◌,
  if◌then◌else◌, leb, ltb,
}
use parallel_load_balancing.Common.Family.{update}
use parallel_load_balancing.Ring.{RingBuf, load, store, make, resize}
use parallel_load_balancing.DequeCommon.{
  Event, inner, pushed, popped, pop_failed, stole, steal_lost, steal_empty,
}

-- The members of `blocking_deque`; `buf` is the buffer that `m_buf` points at, and is only read
-- under the lock. Indices are never negative here: the code's `bottom - 1` is compared before it is
-- stored.
pub record Mem (T : Type 0) : Type 0 where
  pub flag : ℕ
  pub top : ℕ
  pub bottom : ℕ
  pub buf : RingBuf T

abbrev pub fresh : (T : Type 0) → ℕ → Mem T
fresh T cap = record { flag = 0; top = 0; bottom = 0; buf = make T cap }

module _ {T : Type 0} where
  unfoldable pub ssize : Mem T → ℕ
  ssize m = m.bottom - m.top

  unfoldable pub capacity : Mem T → ℕ
  capacity m = m.buf.cap

  unfoldable pub empty : Mem T → Bool
  empty m = leb m.bottom m.top

  -- The buffer to push to, given the loaded indices.
  unfoldable pub room_for : RingBuf T → ℕ → ℕ → RingBuf T
  room_for r bottom top = if ltb r.cap (bottom - top + 1) then resize r bottom top else r

-- Where the owner stands, with the locals that are live there.
pub data Owner (T : Type 0) : Type 0 where
  idle : Owner T
  push_lock : (val : T) → Owner T  -- in `lock()`
  push_locked : (val : T) → Owner T
  push_loaded : (val : T) (b t : ℕ) → Owner T
  pop_look : (t : ℕ) → Owner T  -- in `empty_relaxed()`, `m_top` is loaded
  pop_lock : Owner T
  pop_locked : Owner T
  pop_loaded : (b t : ℕ) → Owner T  -- `b` is `m_bottom`, before the 1 is subtracted
  unlocking : Owner T  -- before `unlock()`

pub data OwnerMove (T : Type 0) (m : Mem T) : Owner T → Event T → Mem T → Owner T → Type 0 where
  start_push : (x : T) → OwnerMove T m idle inner m (push_lock x)
  lock_push :
      {x : T}
      → m.flag ≡ 0
      → OwnerMove T m (push_lock x) inner (record m { flag = 1 }) (push_locked x)
  load_push : {x : T} → OwnerMove T m (push_locked x) inner m (push_loaded x m.bottom m.top)
  store_push :
      {x : T} {b t : ℕ}
      → OwnerMove T m
          (push_loaded x b t)
          (pushed x)
          (record m { buf = store (room_for m.buf b t) b x; bottom = suc b })
          unlocking
  look_top : OwnerMove T m idle inner m (pop_look m.top)
  look_empty : {t : ℕ} → m.bottom ≤ t → OwnerMove T m (pop_look t) pop_failed m idle
  look_some : {t : ℕ} → t < m.bottom → OwnerMove T m (pop_look t) inner m pop_lock
  lock_pop : m.flag ≡ 0 → OwnerMove T m pop_lock inner (record m { flag = 1 }) pop_locked
  load_pop : OwnerMove T m pop_locked inner m (pop_loaded m.bottom m.top)
  take :
      {b t : ℕ} {x : T}
      → t < b
      → load m.buf (b - 1) ≡ some x
      → OwnerMove T m (pop_loaded b t) (popped x) (record m { bottom = b - 1 }) unlocking
  none_left : {b t : ℕ} → b ≤ t → OwnerMove T m (pop_loaded b t) pop_failed m unlocking
  unlock : OwnerMove T m unlocking inner (record m { flag = 0 }) idle

-- Where a thief stands.
pub data Thief : Type 0 where
  outside : Thief
  steal_look : (t : ℕ) → Thief
  steal_try : Thief  -- before `try_lock()`
  steal_locked : Thief
  steal_loaded : (t b : ℕ) → Thief
  leaving : Thief  -- before `unlock()`

pub data ThiefMove (T : Type 0) (m : Mem T) : Thief → Event T → Mem T → Thief → Type 0 where
  look_top : ThiefMove T m outside inner m (steal_look m.top)
  look_empty : {t : ℕ} → m.bottom ≤ t → ThiefMove T m (steal_look t) steal_empty m outside
  look_some : {t : ℕ} → t < m.bottom → ThiefMove T m (steal_look t) inner m steal_try
  lock : m.flag ≡ 0 → ThiefMove T m steal_try inner (record m { flag = 1 }) steal_locked
  busy : m.flag ≢ 0 → ThiefMove T m steal_try steal_lost m outside
  load_both : ThiefMove T m steal_locked inner m (steal_loaded m.top m.bottom)
  take :
      {t b : ℕ} {x : T}
      → t < b
      → load m.buf t ≡ some x
      → ThiefMove T m (steal_loaded t b) (stole x) (record m { top = suc t }) leaving
  none_left : {t b : ℕ} → b ≤ t → ThiefMove T m (steal_loaded t b) steal_empty m leaving
  unlock : ThiefMove T m leaving inner (record m { flag = 0 }) outside

pub record System (T : Type 0) : Type 0 where
  pub mem : Mem T
  pub owner : Owner T
  pub thieves : ℕ → Thief

pub data Step (T : Type 0) (s : System T) : Event T → System T → Type 0 where
  by_owner :
      {e : Event T} {m : Mem T} {o : Owner T}
      → OwnerMove T s.mem s.owner e m o
      → Step T s e (record s { mem = m; owner = o })
  by_thief :
      (i : ℕ) {e : Event T} {m : Mem T} {t : Thief}
      → ThiefMove T s.mem (s.thieves i) e m t
      → Step T s e (record s { mem = m; thieves = update s.thieves i t })

abbrev pub initial : (T : Type 0) → ℕ → System T
initial T cap = record { mem = fresh T cap; owner = idle; thieves = λ _. outside }

-- The executions of a deque of capacity `cap`, with their events, latest first.
pub data Reach (T : Type 0) (cap : ℕ) : List (Event T) → System T → Type 0 where
  here : Reach T cap [] (initial T cap)
  more :
      {es : List (Event T)} {e : Event T} {s s' : System T}
      → Reach T cap es s
      → Step T s e s'
      → Reach T cap (e ∷ es) s'
