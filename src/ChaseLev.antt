-- ===== src/ChaseLev.antt =====
-- include/libfork/core/ext/deque_chase_lev.hpp: the Chase-Lev deque, one owner and any number of
-- thieves. Each access to shared memory is a step, and the steps interleave in any order: the
-- model is sequentially consistent, and the memory orders of the source are not read.
pub mod Inv
pub mod OwnerMoves
pub mod ThiefMoves
pub mod Refine
pub mod Safety
pub mod Progress
mod Examples
use parallel_load_balancing.Common.{
  ℕ, suc, ◌+◌, ◌-◌, ◌≤◌, ◌<◌, ◌≡◌, ◌≢◌, Bool, leb, Option, some, List, [], ◌∷◌,
}
use parallel_load_balancing.Common.Int.{ℤ, pos, pos_part, ◌≤ℤ◌, ◌<ℤ◌, inc, dec}
use parallel_load_balancing.Common.Family.{update}
use parallel_load_balancing.Ring.{RingBuf, load, store, make, resize}
use parallel_load_balancing.DequeCommon.{
  Event, inner, pushed, popped, pop_failed, stole, steal_lost, steal_empty,
}

-- The members of `chase_lev_deque`, with the buffers on a heap: addresses below `next` are
-- allocated, `buf` is the pointer `m_buf`. `m_top` starts at 0 and is only raised; `m_bottom` is
-- -1 inside a `pop` of an empty deque.
pub record Mem (T : Type 0) : Type 0 where
  pub top : ℕ
  pub bottom : ℤ
  pub heap : ℕ → RingBuf T
  pub next : ℕ
  pub buf : ℕ
  pub garbage : List ℕ

abbrev pub k_default_capacity : ℕ
k_default_capacity = 1024

-- The constructor.
abbrev pub fresh : (T : Type 0) → ℕ → Mem T
fresh T cap = record {
  top = 0;
  bottom = pos 0;
  heap = λ _. make T cap;
  next = 1;
  buf = 0;
  garbage = [];
}

module _ {T : Type 0} where
  abbrev pub peek : Mem T → ℕ → ℕ → Option T
  peek m p i = load (m.heap p) i

  -- `std::max(bottom - top, 0)`.
  unfoldable pub ssize : Mem T → ℕ
  ssize m = pos_part m.bottom - m.top

  unfoldable pub capacity : Mem T → ℕ
  capacity m = (m.heap m.buf).cap

  -- `top >= bottom`.
  unfoldable pub empty : Mem T → Bool
  empty m = leb (pos_part m.bottom) m.top

-- Where the owner stands, with the locals that are live there.
pub data Owner (T : Type 0) : Type 0 where
  idle : Owner T
  push_bottom : (val : T) (b : ℕ) → Owner T  -- `bottom` is loaded
  push_top : (val : T) (b t : ℕ) → Owner T  -- `top` is loaded
  push_buf : (val : T) (b t p : ℕ) → Owner T  -- `buf` is loaded
  push_grown : (val : T) (b p : ℕ) → Owner T  -- before `m_buf.store`
  push_room : (val : T) (b p : ℕ) → Owner T  -- before `buf->store`
  push_stored : (val : T) (b : ℕ) → Owner T  -- before `m_bottom.store`
  pop_bottom : (b : ℤ) → Owner T  -- `bottom` is computed
  pop_buf : (b : ℤ) (p : ℕ) → Owner T  -- `buf` is loaded
  pop_fenced : (b : ℤ) (p : ℕ) → Owner T  -- `m_bottom` is lowered, before `m_top.load`
  pop_race : (b p : ℕ) → Owner T  -- `top == bottom`, before the compare-exchange
  pop_won : (b p : ℕ) → Owner T  -- before `m_bottom` is restored
  pop_last : (b p : ℕ) → Owner T  -- the last item is won, before `buf->load`
  pop_take : (b p : ℕ) → Owner T  -- `top < bottom`, before `buf->load`
  pop_beaten : (b : ℕ) → Owner T  -- the race is lost, before `m_bottom` is restored
  pop_none : (b : ℤ) → Owner T  -- `top > bottom`, before `m_bottom` is restored
  pop_empty : Owner T  -- before `when_empty()`

-- One step of the owner: the event that users see, the memory after it, and where it stands then.
pub data OwnerMove (T : Type 0) (m : Mem T) : Owner T → Event T → Mem T → Owner T → Type 0 where
  load_bottom : (x : T) {b : ℕ} → m.bottom ≡ pos b → OwnerMove T m idle inner m (push_bottom x b)
  load_top : {x : T} {b : ℕ} → OwnerMove T m (push_bottom x b) inner m (push_top x b m.top)
  load_buf : {x : T} {b t : ℕ} → OwnerMove T m (push_top x b t) inner m (push_buf x b t m.buf)
  grow :
      {x : T} {b t p : ℕ}
      → (m.heap p).cap < b - t + 1
      → OwnerMove T m
          (push_buf x b t p)
          inner
          (record m {
            heap = update m.heap m.next (resize (m.heap p) b t);
            next = suc m.next;
            garbage = p ∷ m.garbage;
          })
          (push_grown x b m.next)
  swap_buf :
      {x : T} {b p : ℕ}
      → OwnerMove T m (push_grown x b p) inner (record m { buf = p }) (push_room x b p)
  fits :
      {x : T} {b t p : ℕ}
      → b - t + 1 ≤ (m.heap p).cap
      → OwnerMove T m (push_buf x b t p) inner m (push_room x b p)
  store_slot :
      {x : T} {b p : ℕ}
      → OwnerMove T m
          (push_room x b p)
          inner
          (record m { heap = update m.heap p (store (m.heap p) b x) })
          (push_stored x b)
  publish :
      {x : T} {b : ℕ}
      → OwnerMove T m (push_stored x b) (pushed x) (record m { bottom = pos (suc b) }) idle
  start_pop : OwnerMove T m idle inner m (pop_bottom (dec m.bottom))
  load_buf_pop : {b : ℤ} → OwnerMove T m (pop_bottom b) inner m (pop_buf b m.buf)
  lower :
      {b : ℤ} {p : ℕ} → OwnerMove T m (pop_buf b p) inner (record m { bottom = b }) (pop_fenced b p)
  see_more :
      {b : ℤ} {n p : ℕ}
      → b ≡ pos n
      → m.top < n
      → OwnerMove T m (pop_fenced b p) inner m (pop_take n p)
  see_last :
      {b : ℤ} {n p : ℕ}
      → b ≡ pos n
      → m.top ≡ n
      → OwnerMove T m (pop_fenced b p) inner m (pop_race n p)
  see_none : {b : ℤ} {p : ℕ} → b <ℤ pos m.top → OwnerMove T m (pop_fenced b p) inner m (pop_none b)
  win_race :
      {n p : ℕ}
      → m.top ≡ n
      → OwnerMove T m (pop_race n p) inner (record m { top = suc n }) (pop_won n p)
  lose_race : {n p : ℕ} → m.top ≢ n → OwnerMove T m (pop_race n p) inner m (pop_beaten n)
  restore_won :
      {n p : ℕ}
      → OwnerMove T m (pop_won n p) inner (record m { bottom = pos (suc n) }) (pop_last n p)
  take_last :
      {n p : ℕ} {x : T} → peek m p n ≡ some x → OwnerMove T m (pop_last n p) (popped x) m idle
  take : {n p : ℕ} {x : T} → peek m p n ≡ some x → OwnerMove T m (pop_take n p) (popped x) m idle
  restore_beaten :
      {n : ℕ} → OwnerMove T m (pop_beaten n) inner (record m { bottom = pos (suc n) }) pop_empty
  restore_none : {b : ℤ} → OwnerMove T m (pop_none b) inner (record m { bottom = inc b }) pop_empty
  give_up : OwnerMove T m pop_empty pop_failed m idle

-- Where a thief stands.
pub data Thief (T : Type 0) : Type 0 where
  outside : Thief T
  steal_top : (t : ℕ) → Thief T  -- `top` is loaded
  steal_some : (t : ℕ) → Thief T  -- `top < bottom`
  steal_buf : (t p : ℕ) → Thief T  -- the buffer's pointer is loaded
  steal_tmp : (t : ℕ) (tmp : Option T) → Thief T  -- before the compare-exchange

pub data ThiefMove (T : Type 0) (m : Mem T) : Thief T → Event T → Mem T → Thief T → Type 0 where
  load_top : ThiefMove T m outside inner m (steal_top m.top)
  see_some : {t : ℕ} → pos t <ℤ m.bottom → ThiefMove T m (steal_top t) inner m (steal_some t)
  see_empty : {t : ℕ} → m.bottom ≤ℤ pos t → ThiefMove T m (steal_top t) steal_empty m outside
  load_buf : {t : ℕ} → ThiefMove T m (steal_some t) inner m (steal_buf t m.buf)
  load_slot : {t p : ℕ} → ThiefMove T m (steal_buf t p) inner m (steal_tmp t (peek m p t))
  win :
      {t : ℕ} {tmp : Option T} {x : T}
      → m.top ≡ t
      → tmp ≡ some x
      → ThiefMove T m (steal_tmp t tmp) (stole x) (record m { top = suc t }) outside
  lose : {t : ℕ} {tmp : Option T} → m.top ≢ t → ThiefMove T m (steal_tmp t tmp) steal_lost m outside

-- A deque in use: the owner, and a family of thieves.
pub record System (T : Type 0) : Type 0 where
  pub mem : Mem T
  pub owner : Owner T
  pub thieves : ℕ → Thief T

pub data Step (T : Type 0) (s : System T) : Event T → System T → Type 0 where
  by_owner :
      {e : Event T} {m : Mem T} {o : Owner T}
      → OwnerMove T s.mem s.owner e m o
      → Step T s e (record s { mem = m; owner = o })
  by_thief :
      (i : ℕ) {e : Event T} {m : Mem T} {t : Thief T}
      → ThiefMove T s.mem (s.thieves i) e m t
      → Step T s e (record s { mem = m; thieves = update s.thieves i t })

abbrev pub initial : (T : Type 0) → ℕ → System T
initial T cap = record { mem = fresh T cap; owner = idle; thieves = λ _. outside }

-- The executions of a deque of capacity `cap`, with their events, latest first.
pub data Reach (T : Type 0) (cap : ℕ) : List (Event T) → System T → Type 0 where
  here : Reach T cap [] (initial T cap)
  more :
      {es : List (Event T)} {e : Event T} {s s' : System T}
      → Reach T cap es s
      → Step T s e s'
      → Reach T cap (e ∷ es) s'
