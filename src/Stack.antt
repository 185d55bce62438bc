-- ===== src/Stack.antt =====
-- include/libfork/core/impl/stack.hpp: the geometric segmented stack that coroutine frames are
-- allocated on. Sizes are words of 64 bits, `sizeof(stacklet)` is 48 (five pointers, aligned to 16)
-- and `k_new_align` is 16. `malloc` is not the program's: the address that it returns is an
-- argument, `none` where it fails.
pub mod Sizes
pub mod Inv
pub mod Filo
mod Room
mod Tests
use Prim.Native.Nat.{bit_and}
use parallel_load_balancing.Common.{
  ℕ, ◌+◌, ◌-◌, ◌*◌, ◌%◌, ◌^◌, max, Bool, true, false, Option, none, some, List, [], ◌∷◌,
  if◌then◌else◌, ◌==◌, ltb, leb, ◌&&◌, ◌>>=◌,
}

abbrev pub page_size : ℕ
page_size = 4096

abbrev pub malloc_meta_data_size : ℕ
malloc_meta_data_size = 6 * 8

abbrev pub sizeof_stacklet : ℕ
sizeof_stacklet = 48

abbrev pub k_new_align : ℕ
k_new_align = 16

-- `LF_FIBRE_INIT_SIZE`.
abbrev pub fibre_init_size : ℕ
fibre_init_size = 1

unfoldable pub round_up_to_page_size : ℕ → ℕ
round_up_to_page_size size =
    let minimum = (size + malloc_meta_data_size) % 2 ^ 64 in
    let rounded = bit_and ((minimum + page_size - 1) % 2 ^ 64) (2 ^ 64 - page_size) in
    (rounded + 2 ^ 64 - malloc_meta_data_size) % 2 ^ 64

-- A `stacklet`, without its links.
pub record Stacklet : Type 0 where
  pub lo : ℕ
  pub sp : ℕ
  pub hi : ℕ

unfoldable pub capacity : Stacklet → ℕ
capacity s = s.hi - s.lo

unfoldable pub unused : Stacklet → ℕ
unused s = s.hi - s.sp

unfoldable pub is_empty : Stacklet → Bool
is_empty s = s.sp == s.lo

-- A `stack` and the chain that `m_fib` stands in: `below` are the stacklets that one meets along
-- `m_prev`, the next one first, and `cached` is that of `m_next`, if there is one; `is_top()` says
-- that it is the last.
pub record Stack : Type 0 where
  pub below : List Stacklet
  pub fib : Stacklet
  pub cached : Option Stacklet

-- `stacklet::next_stacklet` for the block that `malloc` has returned, of the size asked for.
unfoldable pub next_stacklet : ℕ → ℕ → Stacklet
next_stacklet size block =
    let request = round_up_to_page_size ((size + sizeof_stacklet) % 2 ^ 64) in
    record { lo = block + sizeof_stacklet; sp = block + sizeof_stacklet; hi = block + request }

-- The default constructor; `none` stands for `std::bad_alloc`.
unfoldable pub make_stack : Option ℕ → Option Stack
make_stack none = none
make_stack (some block) =
    some (record { below = []; fib = next_stacklet fibre_init_size block; cached = none })

unfoldable pub empty : Stack → Bool
empty s = is_empty s.fib && elim s.below [ [] ↦ true | _ ↦ false ]

-- `set_next(nullptr)`: the cached stacklet is freed.
unfoldable pub drop_cached : Stack → Stack
drop_cached s = record s { cached = none }

-- The size that `allocate` reserves: the next multiple of the alignment.
unfoldable pub ext_size : ℕ → ℕ
ext_size size = bit_and ((size + k_new_align - 1) % 2 ^ 64) (2 ^ 64 - k_new_align)

-- The pointer is exchanged for one that lies `ext` further.
unfoldable pub bump : Stack → ℕ → Stack × ℕ
bump s ext = (record s { fib = record (s.fib) { sp = s.fib.sp + ext } }, s.fib.sp)

-- `m_fib = m_fib->m_next`.
unfoldable pub advance : Stack → Stacklet → Stack
advance s next = record { below = s.fib ∷ s.below; fib = next; cached = none }

-- A new stacklet on top, in place of the cached one.
unfoldable pub grow : Stack → ℕ → Option ℕ → Option Stack
grow s ext none = none
grow s ext (some block) =
    some (advance s (next_stacklet (max (2 * capacity s.fib % 2 ^ 64) ext) block))

-- The stack to allocate on, once the top stacklet has been found too small.
unfoldable pub make_room : Stack → ℕ → Option ℕ → Option Stack
make_room s ext malloc = elim s.cached [
  | none ↦ grow s ext malloc
  | some next ↦ if leb ext (capacity next) then some (advance s next) else grow s ext malloc
]

-- The new stack and the address of the block; `none` stands for `std::bad_alloc`.
unfoldable pub allocate : Stack → ℕ → Option ℕ → Option (Stack × ℕ)
allocate s size malloc = do
  let ext = ext_size size
  r ← if ltb (unused s.fib) ext then make_room s ext malloc else some s
  some (bump r ext)

-- The guard against over-caching.
unfoldable pub guard_cache : Stack → Stack
guard_cache s = elim s.cached [
  | none ↦ s
  | some next ↦ if ltb (8 * capacity s.fib % 2 ^ 64) (capacity next) then drop_cached s else s
]

-- Back to the stacklet below, if there is one; the stacklet that is left stays in the cache.
unfoldable pub retreat : Stack → Stack
retreat s = elim s.below [
  | [] ↦ s
  | prev ∷ rest ↦ record { below = rest; fib = prev; cached = some s.fib }
]

unfoldable pub deallocate : Stack → ℕ → Stack
deallocate s ptr =
    let s' = record s { fib = record (s.fib) { sp = ptr } } in
    if is_empty s'.fib then guard_cache (retreat s') else s'

-- The stack that is given away, and a fresh one in its place.
unfoldable pub release : Stack → Option ℕ → Option (Stack × Stack)
release s malloc = do r ← make_stack malloc; some (r, s)
