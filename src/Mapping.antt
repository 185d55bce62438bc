-- ===== src/Mapping.antt =====
-- include/libfork/algorithm/map.hpp: `lf::map`. A call (i, o) assigns to the output's position `o`
-- what `fun` gives on the projection of the element at `i`; the ranges do not overlap and the calls
-- are taken not to throw. Fuel is the length of the range, which every division lowers.
pub mod Laws
mod Tests
pub mod Output
use parallel_load_balancing.Common.{
  ℕ, zero, suc, ◌+◌, ◌-◌, ◌/◌, if◌then◌else◌, ◌==◌, leb, List, [], ◌∷◌,
}
use parallel_load_balancing.Common.Family.{update}
use parallel_load_balancing.Tasks.{Work, chunk, par}

-- The loop `for (; head != tail; ++head, ++out)`, with `len` rounds left.
abbrev pub calls : ℕ → ℕ → ℕ → List (ℕ × ℕ)
calls head out zero = []
calls head out (suc len) = (head, out) ∷ calls (suc head) (suc out) len

-- The divide and conquer implementation.
unfoldable pub map_chunks : ℕ → ℕ → ℕ → ℕ → ℕ → Work (ℕ × ℕ)
map_chunks zero head tail out n = chunk []
map_chunks (suc fuel) head tail out n =
    let len = tail - head in
    let dif = len / 2 in
    let mid = head + dif in
    let forked = map_chunks fuel head mid out n in
    let called = map_chunks fuel mid tail (out + dif) n in
    if len == 0
    then chunk []
    else if leb len n
    then chunk (calls head out len)
    else par forked called

-- The n = 1 version.
unfoldable pub map_single : ℕ → ℕ → ℕ → ℕ → Work (ℕ × ℕ)
map_single zero head tail out = chunk []
map_single (suc fuel) head tail out =
    let len = tail - head in
    let dif = len / 2 in
    let mid = head + dif in
    let forked = map_single fuel head mid out in
    let called = map_single fuel mid tail (out + dif) in
    if len == 0 then chunk [] else if len == 1 then chunk ((head, out) ∷ []) else par forked called

-- The range version, which dispatches to the other two.
unfoldable pub map_range : ℕ → ℕ → ℕ → ℕ → Work (ℕ × ℕ)
map_range head tail out n =
    if n == 1
    then map_single (tail - head) head tail out
    else map_chunks (tail - head) head tail out n

-- The output after the calls, in their order; `value i` is `fun(proj(*i))`.
unfoldable pub assign {ℓ} : {B : Type ℓ} → (ℕ → B) → List (ℕ × ℕ) → (ℕ → B) → ℕ → B
assign value [] memory = memory
assign value ((i, o) ∷ rest) memory = assign value rest (update memory o (value i))
