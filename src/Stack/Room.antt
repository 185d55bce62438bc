-- ===== src/Stack/Room.antt =====
-- Where an allocation on the segmented stack finds its memory.
use parallel_load_balancing.Common.{
  ℕ, ◌+◌, ◌≤◌, ◌≡◌, Option, none, some, ◌∷◌, arith, refl, ◌⊎◌, inl, inr, Option-cases, dec_lt,
  ◌>>=◌,
}
use parallel_load_balancing.Stack.{
  Stack, Stacklet, capacity, unused, bump, advance, grow, make_room, allocate, ext_size,
  sizeof_stacklet, next_stacklet,
}
use parallel_load_balancing.Stack.Inv.{Inv, Fits}
use parallel_load_balancing.Stack.Filo.{allocate-Inv_block}

-- The cached stacklet, if there is one, has room for `ext` bytes.
abbrev pub HasSpare : Option Stacklet → ℕ → Type 0
HasSpare none ext = ⊥
HasSpare (some next) ext = next.lo + ext ≤ next.hi

-- The stack has room for `ext` bytes without new memory.
abbrev pub HasRoom : Stack → ℕ → Type 0
HasRoom s ext = (s.fib.sp + ext ≤ s.fib.hi) ⊎ HasSpare s.cached ext

-- The block of `size` bytes at `ptr` lies within the top stacklet and below its stack pointer.
abbrev pub IsOnTop : Stack → ℕ → ℕ → Type 0
IsOnTop s ptr size = (s.fib.lo ≤ ptr) × (ptr + size ≤ s.fib.sp) × (s.fib.sp ≤ s.fib.hi)

allocate_top :
    {s : Stack} (size : ℕ) (malloc : Option ℕ)
    → Inv s
    → s.fib.sp + ext_size size ≤ s.fib.hi
    → allocate s size malloc ≡ some (bump s (ext_size size))
unfolding allocate unused
allocate_top size malloc v l = ground (arith, v.top)

allocate_spare :
    {s : Stack} (next : Stacklet) (size : ℕ) (malloc : Option ℕ)
    → Inv s
    → ¬ (s.fib.sp + ext_size size ≤ s.fib.hi)
    → s.cached ≡ some next
    → next.lo + ext_size size ≤ next.hi
    → allocate s size malloc ≡ some (bump (advance s next) (ext_size size))
unfolding allocate unused make_room capacity
allocate_spare next size malloc v n e l = ground (arith, v.top, v.spare)

allocate_room :
    {s : Stack} (size : ℕ) (malloc : Option ℕ)
    → Inv s
    → HasRoom s (ext_size size)
    → (r : Stack × ℕ) × (allocate s size malloc ≡ some r) × (allocate s size none ≡ some r)
allocate_room size malloc v (inl l) = (_, allocate_top size malloc v l, allocate_top size none v l)
allocate_room {s} size malloc v (inr h) = elim (dec_lt s.fib.hi (s.fib.sp + ext_size size)) [
  | no l ↦
      let m : s.fib.sp + ext_size size ≤ s.fib.hi = omega (arith, l) in
      (_, allocate_top size malloc v m, allocate_top size none v m)
  | yes l ↦ elim (Option-cases s.cached) [
    | inl e ↦ absurd (ground (arith, h, e))
    | inr (next, e) ↦
        let n : ¬ (s.fib.sp + ext_size size ≤ s.fib.hi) = (λ m. omega (arith, l, m)) in
        let m : next.lo + ext_size size ≤ next.hi = ground (arith, h, e) in
        (_, allocate_spare next size malloc v n e m, allocate_spare next size none v n e m)
  ]
]

allocate_grown :
    (s : Stack) (size : ℕ) (malloc : Option ℕ)
    → Inv s
    → ¬ HasRoom s (ext_size size)
    → allocate s size malloc
      ≡ (grow s (ext_size size) malloc >>= (λ r. some (bump r (ext_size size))))
unfolding allocate unused make_room capacity
allocate_grown s size malloc v n = elim (Option-cases s.cached) [
  | inl e ↦ ground arith
  | inr (next, e) ↦ ground (arith, v.spare)
]

dec_HasRoom : (s : Stack) (ext : ℕ) → HasRoom s ext ⊎ (¬ HasRoom s ext)
dec_HasRoom s ext = elim (dec_lt s.fib.hi (s.fib.sp + ext)) [
  | no l ↦ inl (inl (omega (arith, l)))
  | yes l ↦ elim (Option-cases s.cached) [
    | inl e ↦ inr (λ h. ground (arith, h, e))
    | inr (next, e) ↦ elim (dec_lt next.hi (next.lo + ext)) [
      | no m ↦ inl (inr (ground (arith, e)))
      | yes m ↦ inr (λ h. ground (arith, h, e))
    ]
  ]
]

allocate-IsOnTop :
    {s s' : Stack} {size ptr : ℕ} (malloc : Option ℕ)
    → Inv s
    → Fits s size
    → allocate s size malloc ≡ some (s', ptr)
    → IsOnTop s' ptr size
allocate-IsOnTop {s} {s'} {size} {ptr} malloc v f e =
    let (w, a, b, c) = allocate-Inv_block s s' size ptr malloc v f e in (a, b, c)

-- From a well-formed stack, with sizes clear of the end of the 64 bits, an allocation ends in one of
-- three ways. If the top stacklet or the cached one has room for the rounded size, it gives a block of
-- the size asked for within the top stacklet, whatever `malloc` does. If neither has, and `malloc`
-- fails, it fails. If neither has, and `malloc` returns an address, it gives the first block of a
-- new stacklet there, which is large enough, on top of the others.
pub allocate_returns :
    (s : Stack) (size : ℕ) (malloc : Option ℕ)
    → Inv s
    → Fits s size
    → (HasRoom s (ext_size size)
        × ((s' : Stack) × (ptr : ℕ) × (allocate s size malloc ≡ some (s', ptr))
            × (allocate s size none ≡ some (s', ptr))
            × IsOnTop s' ptr size))
      ⊎ (((¬ HasRoom s (ext_size size)) × (malloc ≡ none) × (allocate s size malloc ≡ none))
          ⊎ ((¬ HasRoom s (ext_size size))
              × ((block : ℕ) × (s' : Stack) × (ptr : ℕ) × (malloc ≡ some block)
                  × (allocate s size malloc ≡ some (s', ptr))
                  × (ptr ≡ block + sizeof_stacklet)
                  × (s'.fib.lo ≡ ptr)
                  × (s'.below ≡ s.fib ∷ s.below)
                  × IsOnTop s' ptr size)))
unfolding grow advance next_stacklet bump
allocate_returns s size none v f = elim (dec_HasRoom s (ext_size size)) [
  | inl h ↦
      let ((s', ptr), e, o) = allocate_room size none v h in
      inl (h, (s', ptr, e, o, allocate-IsOnTop none v f e))
  | inr n ↦ inr (inl (n, refl, allocate_grown s size none v n))
]
allocate_returns s size (some block) v f = elim (dec_HasRoom s (ext_size size)) [
  | inl h ↦
      let ((s', ptr), e, o) = allocate_room size (some block) v h in
      inl (h, (s', ptr, e, o, allocate-IsOnTop (some block) v f e))
  | inr n ↦
      let e = allocate_grown s size (some block) v n in
      inr (inr (n, (block, _, _, refl, e, refl, refl, refl, allocate-IsOnTop (some block) v f e)))
]
