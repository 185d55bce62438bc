-- ===== src/Stack/Inv.antt =====
-- The invariant of the segmented stack.
use parallel_load_balancing.Common.{
  ℕ, ◌+◌, ◌*◌, ◌^◌, ◌%◌, ◌≤◌, ◌<◌, ◌≡◌, refl, max, Option, none, some, List, [], ◌∷◌, inl, inr,
  Option-cases, dec_lt, arith,
}
use parallel_load_balancing.Stack.{
  Stacklet, Stack, next_stacklet, capacity, unused, is_empty, bump, advance, grow, make_room,
  allocate, ext_size, guard_cache, retreat, deallocate, drop_cached,
}
use parallel_load_balancing.Stack.Sizes.{round_up_to_page_size_lem, ext_size_lem}

-- The stack pointer is within the stacklet.
abbrev pub IsWithin : Stacklet → Type 0
IsWithin s = (s.lo ≤ s.sp) × (s.sp ≤ s.hi)

-- Every stacklet below the top one holds something, but for the root, which may have been too small
-- for the first block.
abbrev pub AreUsed : List Stacklet → Type 0
AreUsed [] = Unit
AreUsed (s ∷ []) = IsWithin s
AreUsed (s ∷ t ∷ ss) = IsWithin s × (s.lo < s.sp) × AreUsed (t ∷ ss)

-- A cached stacklet is empty.
abbrev pub IsSpare : Option Stacklet → Type 0
IsSpare none = Unit
IsSpare (some s) = (s.sp ≡ s.lo) × (s.lo ≤ s.hi)

pub record Inv (s : Stack) : Type 0 where
  pub top : IsWithin s.fib
  pub used : AreUsed s.below
  pub rooted : s.fib.sp ≡ s.fib.lo → s.below ≡ []
  pub spare : IsSpare s.cached

-- The sizes stay clear of the end of the 64 bits.
pub record Fits (s : Stack) (size : ℕ) : Type 0 where
  pub block : size < 2 ^ 62
  pub segment : capacity s.fib < 2 ^ 62

-- What `make_room` leaves for a block of `ext` bytes: an empty stacklet that is large enough.
pub record Room (s : Stack) (ext : ℕ) (r : Stack) : Type 0 where
  pub moved : r.below ≡ s.fib ∷ s.below
  pub bare : r.fib.sp ≡ r.fib.lo
  pub large : r.fib.lo + ext ≤ r.fib.hi
  pub alone : r.cached ≡ none

next_stacklet_lem :
    (size block : ℕ)
    → size < 2 ^ 63 + 2 ^ 62
    → ((next_stacklet size block).sp ≡ (next_stacklet size block).lo)
      × ((next_stacklet size block).lo + size ≤ (next_stacklet size block).hi)
unfolding next_stacklet
next_stacklet_lem size block l =
    let e : (size + 48) % 2 ^ 64 ≡ size + 48 = omega (arith, l) in
    (refl, rw e (omega (arith, round_up_to_page_size_lem (size + 48) (omega (arith, l)))))

grow-Room :
    (s r : Stack) (ext : ℕ) (malloc : Option ℕ)
    → capacity s.fib < 2 ^ 62
    → ext < 2 ^ 63
    → grow s ext malloc ≡ some r
    → Room s ext r
unfolding grow advance
grow-Room s r ext none c l e = cc
grow-Room s r ext (some block) c l e =
    let size = max (2 * capacity s.fib % 2 ^ 64) ext in
    let (p, q) = next_stacklet_lem size block (omega (arith, c, l)) in ground (arith, p, q)

make_room-Room :
    {s r : Stack} {ext : ℕ} (malloc : Option ℕ)
    → Inv s
    → capacity s.fib < 2 ^ 62
    → ext < 2 ^ 63
    → make_room s ext malloc ≡ some r
    → Room s ext r
unfolding make_room advance capacity
make_room-Room {s} {r} {ext} malloc v c l e =
    let g = grow-Room s r ext malloc c l in ground (arith, g, v.spare)

-- Where `allocate` has put a block of `ext` bytes: on the top stacklet, or at the start of a new one.
pub data Placed (s : Stack) (ext : ℕ) (s' : Stack) (ptr : ℕ) : Type 0 where
  here : ext ≤ unused s.fib → s' ≡ (bump s ext).0 → ptr ≡ s.fib.sp → Placed s ext s' ptr
  above :
      (r : Stack)
      → unused s.fib < ext
      → Room s ext r
      → s' ≡ (bump r ext).0
      → ptr ≡ r.fib.sp
      → Placed s ext s' ptr

pub allocate-Placed :
    {s s' : Stack} {size ptr : ℕ} (malloc : Option ℕ)
    → Inv s
    → Fits s size
    → allocate s size malloc ≡ some (s', ptr)
    → Placed s (ext_size size) s' ptr
unfolding allocate bump
allocate-Placed {s} {s'} {size} {ptr} malloc v f e = elim (dec_lt (unused s.fib) (ext_size size)) [
  | yes l ↦ elim (Option-cases (make_room s (ext_size size) malloc)) [
    | inl n ↦ ground arith
    | inr (r, q) ↦
        above r l
          (make_room-Room malloc v f.segment
            (omega (arith, ext_size_lem size (omega (arith, f.block)), f.block)) q)
          (ground arith) (ground arith)
  ]
  | no l ↦ here (omega arith) (ground arith) (ground arith)
]

AreUsed-cons :
    (t : Stacklet) (ss : List Stacklet)
    → IsWithin t
    → (t.sp ≡ t.lo → ss ≡ [])
    → AreUsed ss
    → AreUsed (t ∷ ss)
AreUsed-cons t [] w h u = w
AreUsed-cons t (s ∷ ss) w h u = ground (arith, w, h, u)

pub allocate-Inv :
    {s s' : Stack} {size ptr : ℕ} (malloc : Option ℕ)
    → Inv s
    → Fits s size
    → allocate s size malloc ≡ some (s', ptr)
    → Inv s'
unfolding bump unused
allocate-Inv {s} {s'} {size} {ptr} malloc v f e = elim (allocate-Placed malloc v f e) [
  | here l p q ↦ ground (arith, v.top, v.used, v.rooted, v.spare, l, p)
  | above r l room p q ↦
      let u = AreUsed-cons s.fib s.below v.top v.rooted v.used in ground (arith, u, l, room, p)
]

pub deallocate-Placed :
    {s s' : Stack} {ext ptr : ℕ}
    → Placed s ext s' ptr
    → Inv s
    → ((deallocate s' ptr).below ≡ s.below) × ((deallocate s' ptr).fib ≡ s.fib)
unfolding bump unused deallocate retreat guard_cache drop_cached is_empty capacity
deallocate-Placed {s} {s'} {ext} {ptr} (here l p q) v = ground (arith, v.top, v.rooted)
deallocate-Placed {s} {s'} {ext} {ptr} (above r l room p q) v = ground (arith, v.top, l, room)
