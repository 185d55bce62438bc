-- ===== src/ForEach.antt =====
-- include/libfork/algorithm/for_each.hpp: `lf::for_each`. The range is [head, tail), and a position
-- in a chunk stands for the call of `fun` on the projection of the element there. The calls are
-- taken not to throw. Fuel is the length of the range, which every division lowers.
pub mod Laws
mod Tests
use parallel_load_balancing.Common.{ℕ, zero, suc, ◌+◌, ◌-◌, ◌/◌, if◌then◌else◌, ◌==◌, leb, [], ◌∷◌}
use parallel_load_balancing.Tasks.{Work, chunk, par, indices}

-- The divide and conquer implementation.
unfoldable pub for_each_chunks : ℕ → ℕ → ℕ → ℕ → Work ℕ
for_each_chunks zero head tail n = chunk []
for_each_chunks (suc fuel) head tail n =
    let len = tail - head in
    let mid = head + len / 2 in
    let forked = for_each_chunks fuel head mid n in
    let called = for_each_chunks fuel mid tail n in
    if len == 0 then chunk [] else if leb len n then chunk (indices head len) else par forked called

-- The n = 1 version.
unfoldable pub for_each_single : ℕ → ℕ → ℕ → Work ℕ
for_each_single zero head tail = chunk []
for_each_single (suc fuel) head tail =
    let len = tail - head in
    let mid = head + len / 2 in
    let forked = for_each_single fuel head mid in
    let called = for_each_single fuel mid tail in
    if len == 0 then chunk [] else if len == 1 then chunk (head ∷ []) else par forked called

-- The range version, which dispatches to the other two.
unfoldable pub for_each : ℕ → ℕ → ℕ → Work ℕ
for_each head tail n =
    if n == 1
    then for_each_single (tail - head) head tail
    else for_each_chunks (tail - head) head tail n
