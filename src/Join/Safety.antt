-- ===== src/Join/Safety.antt =====
-- The join protocol: who continues the task, when, and with which counters.
use parallel_load_balancing.Common.{
  ℕ, zero, suc, ◌+◌, ◌-◌, ◌≡◌, ◌≤◌, ◌<◌, List, [], ◌∷◌, ◌++◌, false, replicate, arith,
}
use native.Mathlib.Numerals.{unary_clauses}
use parallel_load_balancing.Frame.{Frame, u16_max, fetch_sub_joins, fetch_add_steal}
use parallel_load_balancing.Join.{
  Next, resume_parent, yield, await_ready, await_suspend, final_await_suspend, Stage, running,
  joining, suspended, Scope, Outcome, continues, Step, Reach, here, more,
}

-- With j children joined, `m_join` is `k_u16_max - j` before the task is suspended, and the number
-- of those still to come after.
abbrev Counts : Stage → ℕ → ℕ → ℕ → Type 0
Counts running join steal pending = (join + steal ≡ u16_max + pending) × (pending ≤ steal)
Counts joining join steal pending = (join + steal ≡ u16_max + pending) × (pending ≤ steal)
Counts suspended join steal pending = (join ≡ pending) × (0 < pending) × (pending ≤ steal)

-- What a scope keeps, if it allows at most `limit` steals.
record Inv (limit : ℕ) (s : Scope) : Type 0 where
  few : s.frame.steal ≤ limit
  counts : Counts s.stage s.frame.join s.frame.steal s.pending

-- A scope without steals: what `frame::reset` leaves.
pub record Fresh (s : Scope) : Type 0 where
  pub none_pending : s.pending ≡ 0
  pub join_reset : s.frame.join ≡ u16_max
  pub steal_reset : s.frame.steal ≡ 0
  pub goes_on : s.stage ≡ running

-- What n children that end one after the other do, each on a stack of its own.
unfoldable pub ends : ℕ → (ℕ → ℕ) → Frame → List Next
ends zero stacks f = []
ends (suc n) stacks f =
    let (next, _, f') = final_await_suspend false (stacks n) f in next ∷ ends n stacks f'

module _ {limit : ℕ} (small : limit ≤ u16_max - 1) where
  Step-Inv : {s s' : Scope} {o : Outcome} → Step limit s o s' → Inv limit s → Inv limit s'
  unfolding fetch_add_steal fetch_sub_joins await_ready await_suspend final_await_suspend
  Step-Inv (Step.stolen r l) v = ground arith
  Step-Inv (Step.ready r q) v = ground arith
  Step-Inv (Step.not_ready r q) v = ground arith
  Step-Inv (Step.wins r q) v = ground arith
  Step-Inv (Step.loses r q) v = ground arith
  Step-Inv (Step.child_ends c p q) v = ground arith
  Step-Inv (Step.last_child c p q) v = ground arith

  Reach-Inv : {stacklet : ℕ} {s : Scope} → Reach limit stacklet s → Inv limit s
  Reach-Inv here = ground arith
  Reach-Inv (more r t) = Step-Inv t (Reach-Inv r)

  Step-Fresh : {s s' : Scope} → Step limit s continues s' → Inv limit s → Fresh s'
  unfolding fetch_sub_joins await_ready await_suspend final_await_suspend
  Step-Fresh (Step.ready r q) v = ground arith
  Step-Fresh (Step.wins r q) v = ground arith
  Step-Fresh (Step.last_child c p q) v = ground arith

  -- If a scope allows at most 65534 steals, then a step that continues the task, from any reachable
  -- state, leaves no pending child, both counters as `frame::reset` sets them and the task running.
  pub continues_when_joined :
      {stacklet : ℕ} {s s' : Scope} → Reach limit stacklet s → Step limit s continues s' → Fresh s'
  continues_when_joined r t = Step-Fresh t (Reach-Inv r)

final_await_suspend-yield :
    (f : Frame) (n c : ℕ)
    → f.join ≡ suc (suc n)
    → n < u16_max - 1
    → (final_await_suspend false c f).0 ≡ yield × (final_await_suspend false c f).2.join ≡ suc n
unfolding final_await_suspend fetch_sub_joins
final_await_suspend-yield f n c j l = ground arith

pub final_await_suspend-resume :
    (f : Frame) (c : ℕ) → f.join ≡ 1 → (final_await_suspend false c f).0 ≡ resume_parent
unfolding final_await_suspend fetch_sub_joins
final_await_suspend-resume f c j = ground arith

ends-last :
    (f : Frame) (n : ℕ) (stacks : ℕ → ℕ)
    → f.join ≡ suc n
    → n < u16_max
    → ends (suc n) stacks f ≡ replicate n yield ++ (resume_parent ∷ [])
unfolding ends
ends-last f zero stacks j l = rw (final_await_suspend-resume f (stacks 0) j)
ends-last f (suc n) stacks j l =
    let (y, k) = final_await_suspend-yield f n (stacks (suc n)) j (omega arith) in
    rw (y, ends-last (final_await_suspend false (stacks (suc n)) f).2 n stacks k (omega arith))

ends-suspended :
    (f : Frame) (n : ℕ) (stacks : ℕ → ℕ)
    → f.join ≡ n
    → 0 < n
    → n ≤ u16_max
    → ends n stacks f ≡ replicate (n - 1) yield ++ (resume_parent ∷ [])
ends-suspended f zero stacks j p l = absurd (omega arith)
ends-suspended f (suc n) stacks j p l = simp unary_clauses (ends-last f n stacks j (omega arith))

owed :
    {limit : ℕ} {s : Scope}
    → Inv limit s
    → s.stage ≡ suspended
    → (s.frame.join ≡ s.pending) × (0 < s.pending) × (s.pending ≤ limit)
owed v e = ground arith

-- If a scope allows at most 65534 steals and the task is suspended in a reachable state, then there
-- are children to come, and when they end, in any number of places, each but the last yields to its
-- scheduler and the last one resumes the task.
pub suspended_is_resumed :
    {limit stacklet : ℕ} {s : Scope} (stacks : ℕ → ℕ)
    → limit ≤ u16_max - 1
    → Reach limit stacklet s
    → s.stage ≡ suspended
    → (0 < s.pending)
      × ends s.pending stacks s.frame ≡ replicate (s.pending - 1) yield ++ (resume_parent ∷ [])
suspended_is_resumed {s} stacks small r e =
    let (j, p, l) = owed (Reach-Inv small r) e in
    (p, ends-suspended s.frame s.pending stacks j p (omega (arith, l, small)))
