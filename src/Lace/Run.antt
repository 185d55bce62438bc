-- ===== src/Lace/Run.antt =====
-- The interleavings of the owner and the thieves of a Lace deque.
use parallel_load_balancing.Common.{ℕ, true, false, none, List, [], ◌∷◌}
use parallel_load_balancing.Common.Family.{update}
use parallel_load_balancing.DequeCommon.{Event}
use parallel_load_balancing.Lace.{Mem, Owner, OwnerMove, idle, Thief, ThiefMove, outside}

pub record System (T : Type 0) : Type 0 where
  pub mem : Mem T
  pub owner : Owner T
  pub thieves : ℕ → Thief T

pub data Step (T : Type 0) (cap : ℕ) (s : System T) : Event T → System T → Type 0 where
  by_owner :
      {e : Event T} {m : Mem T} {o : Owner T}
      → OwnerMove T cap s.mem s.owner e m o
      → Step T cap s e (record s { mem = m; owner = o })
  by_thief :
      (i : ℕ) {e : Event T} {m : Mem T} {t : Thief T}
      → ThiefMove T cap s.mem (s.thieves i) e m t
      → Step T cap s e (record s { mem = m; thieves = update s.thieves i t })

-- The constructor.
abbrev pub fresh : (T : Type 0) → Mem T
fresh T = record {
  array = λ _. none;
  top = 0;
  split = 0;
  m_bottom = 0;
  allstolen = true;
  splitreq = false;
  bottom = 0;
  osplit = 0;
  o_allstolen = true;
}

abbrev pub initial : (T : Type 0) → System T
initial T = record { mem = fresh T; owner = idle; thieves = λ _. outside }

-- The executions for the capacity `cap`, with their events, latest first.
pub data Reach (T : Type 0) (cap : ℕ) : List (Event T) → System T → Type 0 where
  start : Reach T cap [] (initial T)
  step :
      {es : List (Event T)} {e : Event T} {s t : System T}
      → Reach T cap es s
      → Step T cap s e t
      → Reach T cap (e ∷ es) t
