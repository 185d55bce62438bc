-- ===== src/Stack/Filo.antt =====
-- Allocation and deallocation on the segmented stack, first in, last out.
use parallel_load_balancing.Common.{
  ℕ, ◌+◌, ◌*◌, ◌≤◌, ◌≡◌, Option, some, List, [], ◌∷◌, arith, refl, ◌≢◌, ℕ_discrete,
}
use parallel_load_balancing.Stack.{
  Stack, Stacklet, capacity, unused, is_empty, bump, allocate, guard_cache, retreat, deallocate,
  drop_cached,
}
use parallel_load_balancing.Stack.Sizes.{ext_size_lem}
use parallel_load_balancing.Stack.Inv.{
  Inv, Fits, Placed, here, above, allocate-Placed, allocate-Inv, deallocate-Placed, IsWithin,
  AreUsed, IsSpare,
}

Placed-within :
    {s s' : Stack} {ext ptr : ℕ} (size : ℕ)
    → Inv s
    → size ≤ ext
    → Placed s ext s' ptr
    → (s'.fib.lo ≤ ptr) × (ptr + size ≤ s'.fib.sp) × (s'.fib.sp ≤ s'.fib.hi)
unfolding bump unused
Placed-within size v large (here l p q) = ground (arith, v.top, l, p, q, large)
Placed-within size v large (above r l room p q) = ground (arith, l, room, p, q, large)

-- From a well-formed stack, with sizes clear of the end of the 64 bits, an allocation that returns
-- leaves a well-formed stack and gives a block of the size asked for that lies within the top
-- stacklet, below its stack pointer.
pub allocate-Inv_block :
    (s s' : Stack) (size ptr : ℕ) (malloc : Option ℕ)
    → Inv s
    → Fits s size
    → allocate s size malloc ≡ some (s', ptr)
    → Inv s' × (s'.fib.lo ≤ ptr) × (ptr + size ≤ s'.fib.sp) × (s'.fib.sp ≤ s'.fib.hi)
allocate-Inv_block s s' size ptr malloc v f e =
    let large = (ext_size_lem size (omega (arith, f.block))).0 in
    let (a, b, c) = Placed-within size v large (allocate-Placed malloc v f e) in
    (allocate-Inv malloc v f e, a, b, c)

-- From a well-formed stack, with sizes clear of the end of the 64 bits, deallocating the block that
-- was just allocated gives back the stack pointer and the stacklets in use as they were before.
pub deallocate-allocate :
    (s s' : Stack) (size ptr : ℕ) (malloc : Option ℕ)
    → Inv s
    → Fits s size
    → allocate s size malloc ≡ some (s', ptr)
    → ((deallocate s' ptr).below ≡ s.below) × ((deallocate s' ptr).fib ≡ s.fib)
deallocate-allocate s s' size ptr malloc v f e = deallocate-Placed (allocate-Placed malloc v f e) v

AreUsed-head :
    (t : Stacklet) (ss : List Stacklet)
    → AreUsed (t ∷ ss)
    → IsWithin t × (t.sp ≡ t.lo → ss ≡ []) × AreUsed ss
AreUsed-head t [] u = (u, λ e. refl, tt)
AreUsed-head t (s ∷ ss) (w, l, u) = (w, λ e. absurd (omega (arith, l, e)), u)

retreat-Inv :
    (below : List Stacklet) (fib : Stacklet) (cached : Option Stacklet)
    → IsWithin fib
    → AreUsed below
    → IsSpare cached
    → fib.sp ≡ fib.lo
    → Inv (retreat (record { below = below; fib = fib; cached = cached }))
unfolding retreat
retreat-Inv [] fib cached w u c e = record { top = w; used = u; rooted = λ _. refl; spare = c }
retreat-Inv (t ∷ ss) fib cached w u c e =
    let (w', r, u') = AreUsed-head t ss u in
    record { top = w'; used = u'; rooted = r; spare = (e, omega (arith, w)) }

-- The cached stacklet is not larger than the guard allows.
abbrev IsGuarded : Stack → Type 0
IsGuarded s = (next : Stacklet) → s.cached ≡ some next → capacity next ≤ 8 * capacity s.fib

guard_cache-Inv : (s : Stack) → Inv s → Inv (guard_cache s) × IsGuarded (guard_cache s)
unfolding guard_cache drop_cached
guard_cache-Inv s v =
    (ground (arith, v.top, v.used, v.rooted, v.spare), λ next e. ground (arith, e))

-- The stack pointer set back to `ptr`.
abbrev set_back : Stack → ℕ → Stack
set_back s ptr = record s { fib = record (s.fib) { sp = ptr } }

deallocate-last :
    (s : Stack) (ptr : ℕ)
    → ptr ≡ s.fib.lo
    → deallocate s ptr ≡ guard_cache (retreat (set_back s ptr))
unfolding deallocate is_empty
deallocate-last s ptr e = ground (arith, e)

deallocate-inner : (s : Stack) (ptr : ℕ) → ptr ≢ s.fib.lo → deallocate s ptr ≡ set_back s ptr
unfolding deallocate is_empty
deallocate-inner s ptr n = ground (arith, n)

set_back-Inv :
    (s : Stack) (ptr : ℕ)
    → Inv s
    → s.fib.lo ≤ ptr
    → ptr ≤ s.fib.sp
    → (ptr ≡ s.fib.lo → s.below ≡ [])
    → Inv (set_back s ptr)
set_back-Inv s ptr v l u r = record {
  top = (l, omega (arith, u, v.top));
  used = v.used;
  rooted = r;
  spare = v.spare;
}

-- From a well-formed stack, deallocating a block of the top stacklet leaves a well-formed stack, and
-- if it was the stacklet's last one, none or a cached stacklet of at most 8 times the capacity of
-- the top one.
pub deallocate-Inv :
    (s : Stack) (ptr : ℕ)
    → Inv s
    → s.fib.lo ≤ ptr
    → ptr ≤ s.fib.sp
    → Inv (deallocate s ptr)
      × (ptr ≡ s.fib.lo
          → (next : Stacklet) → (deallocate s ptr).cached ≡ some next
          → capacity next ≤ 8 * capacity (deallocate s ptr).fib)
deallocate-Inv s ptr v l u = elim (ℕ_discrete ptr s.fib.lo) [
  | yes e ↦
      let (w, g) = guard_cache-Inv (retreat (set_back s ptr)) (
        retreat-Inv s.below (record (s.fib) { sp = ptr }) s.cached (l, omega (arith, u, v.top))
          v.used v.spare e) in
      rw (deallocate-last s ptr e) (w, λ _. g)
  | no n ↦
      rw (deallocate-inner s ptr n)
        (set_back-Inv s ptr v l u (λ e. absurd (n e)), λ e. absurd (n e))
]
