-- ===== src/Scan/Instances.antt =====
-- The instantiations of the sweeps' templates.
use parallel_load_balancing.Common.{◌≡◌, ◌∙◌, ◌⊎◌, inl, inr, true}
use parallel_load_balancing.Scan.{Interval, all, l_child_of, r_child_of, has_left}
use parallel_load_balancing.Scan.Swept.{l_child_of-has_left, r_child_of-has_left}

pub data Op : Type 0 where
  scan : Op
  fold : Op

-- The instantiations `rise_sweep<.., Ival, Op>` that `scan_impl` needs: `up_lhs`, and `up_rhs` with
-- the same operation or with `op::fold`.
pub data Rising : Interval → Op → Type 0 where
  rise : Rising all scan
  up_lhs : {i : Interval} {o : Op} → Rising i o → Rising (l_child_of i) o
  up_rhs : {i : Interval} {o : Op} → Rising i o → Rising (r_child_of i) o
  up_rhs_fold : {i : Interval} {o : Op} → Rising i o → Rising (r_child_of i) fold

-- Those of `fall_sweep`: `recur_lhs` and `recur_rhs`.
pub data Falling : Interval → Type 0 where
  fall : Falling all
  recur_lhs : {i : Interval} → Falling i → Falling (l_child_of i)
  recur_rhs : {i : Interval} → Falling i → Falling (r_child_of i)

-- Those of `fall_sweep_impl`: its own children, and `down_rhs` of a `fall_sweep`.
pub data Launched : Interval → Type 0 where
  launch : {i : Interval} → Falling i → Launched (r_child_of i)
  down_lhs : {i : Interval} → Launched i → Launched (l_child_of i)
  down_rhs : {i : Interval} → Launched i → Launched (r_child_of i)

Rising-has_left : {i : Interval} → Rising i fold → has_left i ≡ true
Rising-has_left (up_lhs {i} r) = l_child_of-has_left i ∙ Rising-has_left r
Rising-has_left (up_rhs {i} r) = r_child_of-has_left i
Rising-has_left (up_rhs_fold {i} r) = r_child_of-has_left i

Launched-has_left : {i : Interval} → Launched i → has_left i ≡ true
Launched-has_left (launch {i} f) = r_child_of-has_left i
Launched-has_left (down_lhs {i} l) = l_child_of-has_left i ∙ Launched-has_left l
Launched-has_left (down_rhs {i} l) = r_child_of-has_left i

-- Every instantiation of `rise_sweep` for the operation `fold` and every one of `fall_sweep_impl`
-- that a scan leads to is for an interval with a left sibling, as the first `static_assert` of the
-- one and the `requires` clause of the other want.
pub instances-has_left : {i : Interval} → Rising i fold ⊎ Launched i → has_left i ≡ true
instances-has_left (inl r) = Rising-has_left r
instances-has_left (inr l) = Launched-has_left l
