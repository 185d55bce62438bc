-- ===== src/Scan.antt =====
-- include/libfork/algorithm/scan.hpp: `lf::scan`, a scan in two sweeps over the implicit tree of
-- halves. Positions count from the start of the range, and `out` moves along with `beg`, so that
-- the cell `*(out + k)` of a task for the range [b, e) has position b + k. Fuel is the length of
-- the range, which every division lowers. The operator and the projection are taken not to throw.
mod Sums
mod ForkJoin
mod Swept
mod Reduce
mod Rise
mod Fall
mod Finish
mod Laws
mod Instances
mod Tests
use parallel_load_balancing.Common.{
  ℕ, zero, suc, ◌+◌, ◌-◌, ◌/◌, Bool, true, false, ◌&&◌, if◌then◌else◌, ◌==◌, leb, ltb,
}
use parallel_load_balancing.Common.Family.{update}

-- The part of the range that a task works for.
pub data Interval : Type 0 where
  all : Interval
  lhs : Interval
  mid : Interval
  rhs : Interval

abbrev pub l_child_of : Interval → Interval
l_child_of all = lhs
l_child_of lhs = lhs
l_child_of mid = mid
l_child_of rhs = mid

abbrev pub r_child_of : Interval → Interval
r_child_of all = rhs
r_child_of rhs = rhs
r_child_of lhs = mid
r_child_of mid = mid

-- `Ival == interval::mid || Ival == interval::rhs`
abbrev pub has_left : Interval → Bool
has_left all = false
has_left lhs = false
has_left mid = true
has_left rhs = true

-- `Ival == interval::lhs || Ival == interval::mid`
abbrev pub has_right : Interval → Bool
has_right all = false
has_right lhs = true
has_right mid = true
has_right rhs = false

-- What is fixed for a scan. `read i v` is the projection of the input element at position i, where
-- v is what the output has there: an input of its own disregards v, a scan in place projects v.
-- Two oracles stand for the scheduler: `ready b e` says if the fork of the left half of [b, e)
-- completed before its continuation went on, and `left_first b e` which of two halves that are
-- forked and called has its turn first.
pub record Sweep {ℓ} (A : Type ℓ) : Type ℓ where
  pub bop : A → A → A
  pub read : ℕ → A → A
  pub n : ℕ
  pub ready : ℕ → ℕ → Bool
  pub left_first : ℕ → ℕ → Bool

-- The two halves of a task, between `lf::fork` and `lf::join`.
abbrev pub fork_join {ℓ} : {S : Type ℓ} → Bool → (S → S) → (S → S) → S → S
fork_join true l r s = r (l s)
fork_join false l r s = l (r s)

-- Where a range is split.
abbrev pub split : ℕ → ℕ → ℕ
split b e = b + (e - b) / 2

-- How many elements the falling sweep has to scan in a chunk: "the furthest-right chunk has no
-- reduction stored in it so we include it in the scan".
abbrev pub left_over : Interval → ℕ → ℕ → ℕ
left_over i b e = if has_right i then e - b - 1 else e - b

-- What a task leaves in its last cell, which only a task with a right sibling does.
abbrev pub store_last {ℓ} : {A : Type ℓ} → Interval → ℕ → A → (ℕ → A) → ℕ → A
store_last i e v s = if has_right i then update s (e - 1) v else s

module _ {ℓ} {A : Type ℓ} (c : Sweep A) where
  -- The loop over `len` elements from position i that stores every partial result.
  abbrev pub scan_loop : A → ℕ → ℕ → (ℕ → A) → ℕ → A
  scan_loop acc i zero s = s
  scan_loop acc i (suc len) s =
      let next = c.bop acc (c.read i (s i)) in scan_loop next (suc i) len (update s i next)

  -- The loop that stores none.
  abbrev pub fold_loop : A → ℕ → ℕ → (ℕ → A) → A
  fold_loop acc i zero s = acc
  fold_loop acc i (suc len) s = fold_loop (c.bop acc (c.read i (s i))) (suc i) len s

  -- A chunk of `rise_sweep` for the operation `fold`.
  abbrev pub fold_chunk : Interval → ℕ → ℕ → (ℕ → A) → ℕ → A
  fold_chunk i b e s = store_last i e (fold_loop (c.read b (s b)) (suc b) (e - b - 1) s) s

  -- A chunk of `rise_sweep` for the operation `scan`.
  abbrev pub scan_chunk : Interval → ℕ → ℕ → (ℕ → A) → ℕ → A
  scan_chunk i b e s =
      if has_left i
      then scan_loop (s (b - 1)) b (e - b) s
      else scan_loop (c.read b (s b)) (suc b) (e - b - 1) (update s b (c.read b (s b)))

  -- "Restore invariant": the reduction of the left child goes to the right one's last cell.
  abbrev pub restore : Interval → ℕ → ℕ → (ℕ → A) → ℕ → A
  restore i m e s = store_last i e (c.bop (s (m - 1)) (s (e - 1))) s

  -- `rise_sweep` for the operation `fold`, which returns nothing.
  unfoldable pub rise_fold : ℕ → Interval → ℕ → ℕ → (ℕ → A) → ℕ → A
  rise_fold zero i b e s = s
  rise_fold (suc fuel) i b e s =
      let m = split b e in
      let left = rise_fold fuel (l_child_of i) b m in
      let right = rise_fold fuel (r_child_of i) m e in
      if leb (e - b) c.n
      then fold_chunk i b e s
      else restore i m e (fork_join (c.left_first b e) left right s)

  -- `rise_sweep` for the operation `scan`: the output, and the end of what is scanned. The right
  -- half can only go on scanning after a left half that was ready and has been scanned.
  unfoldable pub rise_scan : ℕ → Interval → ℕ → ℕ → (ℕ → A) → (ℕ → A) × ℕ
  rise_scan zero i b e s = (s, b)
  rise_scan (suc fuel) i b e s =
      let m = split b e in
      let left = rise_scan fuel (l_child_of i) b in
      let right = rise_fold fuel (r_child_of i) m e in
      let first = left m s in
      let fused = rise_scan fuel (r_child_of i) m e first.0 in
      let joined = fork_join (c.left_first b e) (λ p. left m p.0) (λ p. (right p.0, p.1)) (s, b) in
      if leb (e - b) c.n
      then (scan_chunk i b e s, e)
      else if c.ready b e && (first.1 == m)
      then fused
      else (restore i m e joined.0, joined.1)

  -- `fall_sweep_impl`.
  unfoldable pub fall_sweep_impl : ℕ → Interval → ℕ → ℕ → (ℕ → A) → ℕ → A
  fall_sweep_impl zero i b e s = s
  fall_sweep_impl (suc fuel) i b e s =
      let m = split b e in
      let left = fall_sweep_impl fuel (l_child_of i) b m in
      let right = fall_sweep_impl fuel (r_child_of i) m e in
      if leb (e - b) c.n
      then scan_loop (s (b - 1)) b (left_over i b e) s
      else fork_join (c.left_first b e) left right
          (update s (m - 1) (c.bop (s (b - 1)) (s (m - 1))))

  -- `fall_sweep`; its loop goes to the right child where that has the same interval.
  unfoldable pub fall_sweep : ℕ → Interval → ℕ → ℕ → ℕ → (ℕ → A) → ℕ → A
  fall_sweep zero i b e scan_end s = s
  fall_sweep (suc fuel) i b e scan_end s =
      let m = split b e in
      let left = fall_sweep fuel (l_child_of i) b m scan_end in
      let again = fall_sweep fuel (r_child_of i) m e scan_end s in
      let right = fall_sweep_impl fuel (r_child_of i) m e in
      if ltb scan_end m
      then fork_join (c.left_first b e) left right s
      else if scan_end == m
      then right s
      else again

  -- `scan_impl`, for a range of `len` elements and the output's first contents.
  unfoldable pub scan : ℕ → (ℕ → A) → ℕ → A
  scan len s =
      let rise = rise_scan len all 0 len s in
      if len == 0
      then s
      else if rise.1 == len
      then rise.0
      else fall_sweep len all 0 len rise.1 rise.0

-- The oracles of a `Sweep`.
pub record Schedule : Type 0 where
  pub ready : ℕ → ℕ → Bool
  pub left_first : ℕ → ℕ → Bool

module _ {ℓ} {A : Type ℓ} (bop : A → A → A) where
  abbrev pub sweep : (ℕ → A → A) → ℕ → Schedule → Sweep A
  sweep read n t = record {
    bop = bop;
    read = read;
    n = n;
    ready = t.ready;
    left_first = t.left_first;
  }

module _ {ℓ κ} {A : Type ℓ} {B : Type κ} (bop : A → A → A) (proj : B → A) (t : Schedule) where
  -- The overloads with an output, of an iterator pair or a range with `len` elements.
  unfoldable pub scan_to : (ℕ → B) → ℕ → ℕ → (ℕ → A) → ℕ → A
  scan_to input len n out = scan (sweep bop (λ i v. proj (input i)) n t) len out

  -- Those without a chunk size.
  unfoldable pub scan_to_single : (ℕ → B) → ℕ → (ℕ → A) → ℕ → A
  scan_to_single input len out = scan (sweep bop (λ i v. proj (input i)) 1 t) len out

module _ {ℓ} {A : Type ℓ} (bop : A → A → A) (proj : A → A) (t : Schedule) where
  -- The overloads in place.
  unfoldable pub scan_in_place : ℕ → ℕ → (ℕ → A) → ℕ → A
  scan_in_place len n out = scan (sweep bop (λ i v. proj v) n t) len out

  unfoldable pub scan_in_place_single : ℕ → (ℕ → A) → ℕ → A
  scan_in_place_single len out = scan (sweep bop (λ i v. proj v) 1 t) len out
