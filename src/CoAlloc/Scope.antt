-- ===== src/CoAlloc/Scope.antt =====
-- The life of memory that a task has allocated on its stack.
use parallel_load_balancing.Common.{
  ℕ, ◌+◌, ◌≤◌, ◌≡◌, refl, sym, ap, ◌∙◌, Bool, true, false, Option, none, some,
}
use parallel_load_balancing.Frame.{reset_stacklet}
use parallel_load_balancing.Stack.{Stack, allocate, deallocate}
use parallel_load_balancing.Stack.Inv.{Inv, Fits}
use parallel_load_balancing.Stack.Filo.{allocate-Inv_block, deallocate-allocate}
use parallel_load_balancing.CoAlloc.{
  Task, top, Allocated, bad_alloc, rethrows, memory, bytes, constructed, await_resume, destroy,
}

-- The frame and the stacklets in use, with the stack pointer, are the same.
pub record AreSame (t u : Task) : Type 0 where
  pub same_frame : u.frame ≡ t.frame
  pub same_below : u.stack.below ≡ t.stack.below
  pub same_fib : u.stack.fib ≡ t.stack.fib

-- What the task may rely on: with the memory, its elements lie on the stack whose top the frame
-- knows, and their destruction brings back what was there; without, all is as it was.
abbrev pub IsScoped : Task → ℕ → Allocated → Type 0
IsScoped t bytes bad_alloc = Unit
IsScoped t bytes (rethrows u) = AreSame t u
IsScoped t bytes (memory u ptr) =
    (u.frame.stacklet ≡ top u.stack)
    × (u.stack.fib.lo ≤ ptr)
    × (ptr + bytes ≤ u.stack.fib.sp)
    × (u.stack.fib.sp ≤ u.stack.fib.hi)
    × AreSame t (destroy u ptr)

constructed-IsScoped :
    (constructs : Bool) (count size : ℕ) (malloc : Option ℕ) (t : Task) (o : Option (Stack × ℕ))
    → Inv t.stack
    → Fits t.stack (bytes count size)
    → t.frame.stacklet ≡ top t.stack
    → allocate t.stack (bytes count size) malloc ≡ o
    → IsScoped t (bytes count size) (constructed constructs t.frame o)
unfolding constructed destroy reset_stacklet
constructed-IsScoped constructs count size malloc t none v f own e = tt
constructed-IsScoped true count size malloc t (some (stack, ptr)) v f own e =
    let (w, a, b, c) = allocate-Inv_block t.stack stack (bytes count size) ptr malloc v f e in
    let (below, fib) = deallocate-allocate t.stack stack (bytes count size) ptr malloc v f e in
    let back : top (deallocate stack ptr) ≡ t.frame.stacklet = ap (λ s. s.lo) fib ∙ sym own in
    (
      refl,
      a,
      b,
      c,
      record {
        same_frame = ap (λ s. record (t.frame) { stacklet = s }) back;
        same_below = below;
        same_fib = fib;
      },
    )
constructed-IsScoped false count size malloc t (some (stack, ptr)) v f own e =
    let (below, fib) = deallocate-allocate t.stack stack (bytes count size) ptr malloc v f e in
    record { same_frame = refl; same_below = below; same_fib = fib }

-- If the worker's stack is well-formed and its top the task's stacklet, with the bytes of the elements,
-- as a word of 64 bits, clear of the end of that word, then memory that is allocated lies within the
-- top stacklet, which the frame knows, and its destruction brings back the frame, the stack pointer
-- and the stacklets in use; if a constructor throws they are as they were before.
pub await_resume-IsScoped :
    (count size : ℕ) (constructs : Bool) (malloc : Option ℕ) (t : Task)
    → Inv t.stack
    → Fits t.stack (bytes count size)
    → t.frame.stacklet ≡ top t.stack
    → IsScoped t (bytes count size) (await_resume count size constructs malloc t)
unfolding await_resume
await_resume-IsScoped count size constructs malloc t v f own =
    constructed-IsScoped constructs count size malloc t _ v f own refl
