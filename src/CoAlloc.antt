-- ===== src/CoAlloc.antt =====
-- Memory that a task allocates on its stack: `alloc_awaitable::await_resume`
-- (include/libfork/core/impl/awaitables.hpp) and the destructor of `stack_allocated`
-- (include/libfork/core/co_alloc.hpp), on the frame of Frame and the stack of Stack. A stacklet is
-- known by the address that its block begins at. Whether a constructor of the elements throws is an
-- argument.
mod Scope
mod Tests
use parallel_load_balancing.Common.{
  ℕ, ◌*◌, ◌%◌, ◌^◌, Bool, true, false, Option, none, some, if◌then◌else◌, ◌>>=◌,
}
use parallel_load_balancing.Frame.{Frame, reset_stacklet}
use parallel_load_balancing.Stack.{Stack, allocate, deallocate}

-- The frame of a task and the stack of the worker that runs it.
pub record Task : Type 0 where
  pub frame : Frame
  pub stack : Stack

-- `stack::top`.
abbrev pub top : Stack → ℕ
top s = s.fib.lo

-- What is thrown, or the memory.
pub data Allocated : Type 0 where
  bad_alloc : Allocated
  rethrows : Task → Allocated
  memory : Task → (ptr : ℕ) → Allocated

-- The number of bytes for `count` elements, a word of 64 bits.
abbrev pub bytes : (count size : ℕ) → ℕ
bytes count size = count * size % 2 ^ 64

pub constructed : Bool → Frame → Option (Stack × ℕ) → Allocated
constructed constructs f none = bad_alloc
constructed constructs f (some (stack, ptr)) =
    if constructs
    then memory (record { frame = (reset_stacklet f (top stack)).0; stack = stack }) ptr
    else rethrows (record { frame = f; stack = deallocate stack ptr })

-- `alloc_awaitable::await_resume`.
pub await_resume : (count size : ℕ) → (constructs : Bool) → (malloc : Option ℕ) → Task → Allocated
await_resume count size constructs malloc t =
    constructed constructs t.frame (allocate t.stack (bytes count size) malloc)

-- `stack_allocated::~stack_allocated`.
pub destroy : Task → ℕ → Task
destroy t ptr =
    let stack = deallocate t.stack ptr in
    record { frame = (reset_stacklet t.frame (top stack)).0; stack = stack }
