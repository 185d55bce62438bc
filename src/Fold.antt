-- ===== src/Fold.antt =====
-- include/libfork/algorithm/fold.hpp: `lf::fold`. `elem i` is the projection of the element at
-- position i, converted to the accumulator's type; the operator is taken not to throw, and the two
-- halves write to variables of their own, so that the result does not depend on their order. Fuel
-- is the length of the range, which every division lowers.
pub mod Laws
mod Tests
use parallel_load_balancing.Common.{
  ℕ, zero, suc, ◌+◌, ◌-◌, ◌/◌, if◌then◌else◌, ◌==◌, leb, Option, none, some,
}

module _ {ℓ} {A : Type ℓ} (bop : A → A → A) (elem : ℕ → A) where
  -- The loop `for (++head; head != tail; ++head)`, with `len` rounds left.
  abbrev pub accumulate : A → ℕ → ℕ → A
  accumulate lhs head zero = lhs
  accumulate lhs head (suc len) = accumulate (bop lhs (elem head)) (suc head) len

  -- The recursive implementation, for a range that is not empty.
  unfoldable pub fold_chunks : ℕ → ℕ → ℕ → ℕ → A
  fold_chunks zero head tail n = elem head
  fold_chunks (suc fuel) head tail n =
      let len = tail - head in
      let mid = head + len / 2 in
      let lhs = fold_chunks fuel head mid n in
      let rhs = fold_chunks fuel mid tail n in
      if leb len n then accumulate (elem head) (suc head) (len - 1) else bop lhs rhs

  -- The n = 1 version, for a range that is not empty.
  unfoldable pub fold_single : ℕ → ℕ → ℕ → A
  fold_single zero head tail = elem head
  fold_single (suc fuel) head tail =
      let len = tail - head in
      let mid = head + len / 2 in
      let lhs = fold_single fuel head mid in
      let rhs = fold_single fuel mid tail in if len == 1 then elem head else bop lhs rhs

  -- The overload that users call.
  unfoldable pub fold : ℕ → ℕ → ℕ → Option A
  fold head tail n =
      if head == tail
      then none
      else if n == 1
      then some (fold_single (tail - head) head tail)
      else some (fold_chunks (tail - head) head tail n)
