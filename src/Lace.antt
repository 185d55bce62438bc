-- ===== src/Lace.antt =====
-- include/libfork/core/ext/deque_lace.hpp: `lf::ext::lace_deque`, whose owner moves a split point
-- between the items that thieves may take and its own. `m_array` is a family of slots, and `top` and
-- `split` are the halves of `m_top_split`, which change in one access. Each access to a shared
-- variable is a step of its own; the owner's plain variables change along with the next one. Indices
-- do not wrap: a push begins only while `bottom` is below the capacity, which is at most 2^31.
mod Run
mod Inv
mod Mask
mod Writes
mod OwnerMoves
mod ThiefMoves
mod Refine
mod Progress
mod Packed
mod Tests
use Prim.Native.Nat.{bit_and}
use parallel_load_balancing.Common.{
  if◌then◌else◌, leb, ℕ, zero, suc, ◌+◌, ◌-◌, ◌/◌, ◌≤◌, ◌<◌, ◌≡◌, ◌≢◌, ◌⊎◌, Bool, true, false, List,
  [], ◌∷◌, Option, none, some,
}
use parallel_load_balancing.Common.Family.{update}
use parallel_load_balancing.DequeCommon.{
  Event, inner, pushed, popped, pop_failed, stole, steal_lost, steal_empty,
}

pub record Mem (T : Type 0) : Type 0 where
  pub array : ℕ → Option T
  pub top : ℕ
  pub split : ℕ
  pub m_bottom : ℕ
  pub allstolen : Bool
  pub splitreq : Bool
  -- `m_worker`
  pub bottom : ℕ
  pub osplit : ℕ
  pub o_allstolen : Bool

-- What a call of `grow_shared` returns to.
pub data After : Type 0 where
  to_push : After
  to_pop : After

-- The owner outside and inside `push`, `grow_shared`, `pop` and `shrink_shared`.
pub data Owner (T : Type 0) : Type 0 where
  idle : Owner T
  packing : T → Owner T
  unstealing : Owner T
  looking : Owner T
  clearing : Owner T
  asking : After → Owner T
  growing : After → Owner T
  grown : After → Owner T
  answering : After → Owner T
  publishing : Owner T
  shrinking : Owner T
  shrink_sub : (top split : ℕ) → Owner T
  shrink_look : (split new_split : ℕ) → Owner T
  correcting : (split new_split fresh_t : ℕ) → Owner T
  taking : Owner T
  emptied : Owner T

pub data Thief (T : Type 0) : Type 0 where
  outside : Thief T
  checked : Thief T
  loaded : (top split : ℕ) → Thief T
  reading : (top : ℕ) → T → Thief T
  requesting : Thief T

abbrev pub back : {T : Type 0} → After → Owner T
back to_push = publishing
back to_pop = idle

-- `mask_index`
abbrev pub mask_index : ℕ → ℕ → ℕ
mask_index cap i = bit_and i (cap - 1)

abbrev pub halfway : ℕ → ℕ → ℕ
halfway top split = top + (split - top) / 2

abbrev pub corrected : ℕ → ℕ → ℕ
corrected fresh_t split = (fresh_t + split) / 2

-- The split point after `grow_shared`.
abbrev pub grown_split : ℕ → ℕ → ℕ
grown_split split bottom = split + (bottom - split + 1) / 2

pub data OwnerMove (T : Type 0) (cap : ℕ) (m : Mem T)
    : Owner T → Event T → Mem T → Owner T → Type 0 where
  -- `push` after the deque was empty,
  write_first :
      {x : T}
      → m.bottom < cap
      → m.o_allstolen ≡ true
      → OwnerMove T cap m idle inner
          (record m { array = update m.array (mask_index cap m.bottom) (some x) })
          (packing x)
  store_top_split :
      {x : T}
      → OwnerMove T cap m
          (packing x)
          (pushed x)
          (record m { top = m.bottom; split = suc m.bottom })
          unstealing
  store_allstolen : OwnerMove T cap m unstealing inner (record m { allstolen = false }) looking
  no_request :
      m.splitreq ≡ false
      → OwnerMove T cap m looking inner
          (record m { osplit = suc m.bottom; o_allstolen = false })
          publishing
  some_request : m.splitreq ≡ true → OwnerMove T cap m looking inner m clearing
  clear_request :
      OwnerMove T cap m clearing inner
        (record m { splitreq = false; osplit = suc m.bottom; o_allstolen = false })
        publishing
  -- and else.
  write_next :
      {x : T}
      → m.bottom < cap
      → m.o_allstolen ≡ false
      → OwnerMove T cap m idle
          (pushed x)
          (record m { array = update m.array (mask_index cap m.bottom) (some x) })
          (asking to_push)
  publish :
      OwnerMove T cap m publishing inner
        (record m { bottom = suc m.bottom; m_bottom = suc m.bottom })
        idle
  -- `if (m_splitreq.load(relaxed)) grow_shared();`
  not_asked : {a : After} → m.splitreq ≡ false → OwnerMove T cap m (asking a) inner m (back a)
  nothing_to_share :
      {a : After}
      → m.splitreq ≡ true
      → m.bottom ≤ m.osplit
      → OwnerMove T cap m (asking a) inner m (back a)
  asked :
      {a : After}
      → m.splitreq ≡ true
      → m.osplit < m.bottom
      → OwnerMove T cap m (asking a) inner m (growing a)
  add_split :
      {a : After}
      → OwnerMove T cap m
          (growing a)
          inner
          (record m {
            split = m.split + (m.bottom - m.osplit + 1) / 2;
            osplit = grown_split m.osplit m.bottom;
            o_allstolen = false;
          })
          (grown a)
  grow_allstolen :
      {a : After} → OwnerMove T cap m (grown a) inner (record m { allstolen = false }) (answering a)
  answer :
      {a : After} → OwnerMove T cap m (answering a) inner (record m { splitreq = false }) (back a)
  -- `pop`: the fast path, which does not mask the index,
  take_own :
      {x : T}
      → m.osplit < m.bottom
      → m.array (m.bottom - 1) ≡ some x
      → OwnerMove T cap m idle
          (popped x)
          (record m { bottom = m.bottom - 1; m_bottom = m.bottom - 1 })
          (asking to_pop)
  -- and `pop_cold_path`.
  none_left : m.bottom ≤ m.osplit → m.o_allstolen ≡ true → OwnerMove T cap m idle pop_failed m idle
  enter_shrink :
      m.bottom ≤ m.osplit → m.o_allstolen ≡ false → OwnerMove T cap m idle inner m shrinking
  load_shared : m.top ≢ m.split → OwnerMove T cap m shrinking inner m (shrink_sub m.top m.split)
  load_none : m.top ≡ m.split → OwnerMove T cap m shrinking pop_failed m emptied
  sub_split :
      {t s : ℕ}
      → OwnerMove T cap m
          (shrink_sub t s)
          inner
          (record m { split = m.split - (s - halfway t s) })
          (shrink_look s (halfway t s))
  load_stolen : {s n : ℕ} → m.top ≡ s → OwnerMove T cap m (shrink_look s n) pop_failed m emptied
  load_beyond :
      {s n : ℕ}
      → m.top ≢ s
      → n < m.top
      → OwnerMove T cap m (shrink_look s n) inner m (correcting s n m.top)
  load_within :
      {s n : ℕ}
      → m.top ≢ s
      → m.top ≤ n
      → OwnerMove T cap m (shrink_look s n) inner (record m { osplit = n }) taking
  correct :
      {s n t : ℕ}
      → OwnerMove T cap m
          (correcting s n t)
          inner
          (record m { split = m.split + (corrected t s - n); osplit = corrected t s })
          taking
  take_shared :
      {x : T}
      → m.array (mask_index cap (m.bottom - 1)) ≡ some x
      → OwnerMove T cap m taking
          (popped x)
          (record m { bottom = m.bottom - 1; m_bottom = m.bottom - 1 })
          (asking to_pop)
  shut : OwnerMove T cap m emptied inner (record m { allstolen = true; o_allstolen = true }) idle

pub data ThiefMove (T : Type 0) (cap : ℕ) (m : Mem T)
    : Thief T → Event T → Mem T → Thief T → Type 0 where
  see_allstolen : m.allstolen ≡ true → ThiefMove T cap m outside steal_empty m outside
  see_some : m.allstolen ≡ false → ThiefMove T cap m outside inner m checked
  load_top_split : m.top < m.split → ThiefMove T cap m checked inner m (loaded m.top m.split)
  load_unshared : m.split ≤ m.top → ThiefMove T cap m checked inner m requesting
  -- The exchange takes the item, which the thief reads after it.
  exchange :
      {t s : ℕ} {x : T}
      → m.top ≡ t
      → m.split ≡ s
      → m.array (mask_index cap t) ≡ some x
      → ThiefMove T cap m (loaded t s) (stole x) (record m { top = suc t }) (reading t x)
  lose :
      {t s : ℕ} → (m.top ≢ t) ⊎ (m.split ≢ s) → ThiefMove T cap m (loaded t s) steal_lost m outside
  read :
      {t : ℕ} {x tmp : T}
      → m.array (mask_index cap t) ≡ some tmp
      → ThiefMove T cap m (reading t x) inner m outside
  request : ThiefMove T cap m requesting steal_empty (record m { splitreq = true }) outside

module _ {T : Type 0} where
  -- What the observers make of the values that they load.
  abbrev pub ssize : Mem T → ℕ
  ssize m = if leb m.m_bottom m.top then 0 else m.m_bottom - m.top

  abbrev pub empty : Mem T → Bool
  empty m = if m.allstolen then true else leb m.m_bottom m.top
