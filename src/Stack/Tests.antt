-- ===== src/Stack/Tests.antt =====
-- A stack on a block at address 4096, by evaluation: two frames, the second on a new stacklet.
use parallel_load_balancing.Common.{
  ℕ, ◌+◌, ◌*◌, ◌≤◌, ◌≡◌, ◌⊎◌, refl, arith, Option, none, some, [], ◌∷◌,
}
use parallel_load_balancing.Stack.{
  Stack, Stacklet, make_stack, next_stacklet, round_up_to_page_size, ext_size, allocate, deallocate,
  capacity, unused, bump, grow, make_room, advance, sizeof_stacklet,
}
use parallel_load_balancing.Stack.Inv.{Inv, Fits}
use parallel_load_balancing.Stack.Filo.{allocate-Inv_block, deallocate-allocate, deallocate-Inv}
use parallel_load_balancing.Stack.Room.{HasRoom, IsOnTop, allocate_returns}

abbrev root : Stacklet
root = record { lo = 4144; sp = 4144; hi = 8144 }

abbrev base : Stack
base = record { below = []; fib = root; cached = none }

make_stack-base : make_stack (some 4096) ≡ some base
unfolding make_stack next_stacklet round_up_to_page_size
make_stack-base = refl

base-Inv : Inv base
base-Inv = record { top = (omega arith, omega arith); used = tt; rooted = λ _. refl; spare = tt }

-- A frame of 100 bytes.
abbrev one_frame : Stack
one_frame = record { below = []; fib = record { lo = 4144; sp = 4256; hi = 8144 }; cached = none }

abbrev two_frames : Stack
two_frames = record {
  below = one_frame.fib ∷ [];
  fib = record { lo = 16432; sp = 26432; hi = 28624 };
  cached = none;
}

first : allocate base 100 none ≡ some (one_frame, 4144)
unfolding allocate ext_size unused bump
first = refl

second : allocate one_frame 10000 (some 16384) ≡ some (two_frames, 16432)
unfolding allocate ext_size unused bump make_room grow advance next_stacklet round_up_to_page_size
    capacity
second = refl

one_frame-Inv : Inv one_frame
one_frame-Inv = record {
  top = (omega arith, omega arith);
  used = tt;
  rooted = λ _. refl;
  spare = tt;
}

one_frame-Fits : Fits one_frame 10000
unfolding capacity
one_frame-Fits = record { block = omega arith; segment = omega arith }

allocate-Inv_block_example :
    Inv two_frames × (16432 ≤ 16432) × (16432 + 10000 ≤ 26432) × (26432 ≤ 28624)
allocate-Inv_block_example =
    allocate-Inv_block one_frame two_frames 10000 16432 (some 16384) one_frame-Inv one_frame-Fits
      second

deallocate-allocate_example :
    ((deallocate two_frames 16432).below ≡ []) × ((deallocate two_frames 16432).fib ≡ one_frame.fib)
deallocate-allocate_example =
    deallocate-allocate one_frame two_frames 10000 16432 (some 16384) one_frame-Inv one_frame-Fits
      second

allocate_returns_example :
    (HasRoom one_frame (ext_size 10000)
      × ((s' : Stack) × (ptr : ℕ) × (allocate one_frame 10000 (some 16384) ≡ some (s', ptr))
          × (allocate one_frame 10000 none ≡ some (s', ptr))
          × IsOnTop s' ptr 10000))
    ⊎ (((¬ HasRoom one_frame (ext_size 10000))
          × (◌≡◌ {A = Option ℕ} (some 16384) none)
          × (allocate one_frame 10000 (some 16384) ≡ none))
        ⊎ ((¬ HasRoom one_frame (ext_size 10000))
            × ((block : ℕ) × (s' : Stack) × (ptr : ℕ) × (◌≡◌ {A = Option ℕ}
                  (some 16384)
                  (some block))
                × (allocate one_frame 10000 (some 16384) ≡ some (s', ptr))
                × (ptr ≡ block + sizeof_stacklet)
                × (s'.fib.lo ≡ ptr)
                × (s'.below ≡ one_frame.fib ∷ [])
                × IsOnTop s' ptr 10000)))
allocate_returns_example =
    allocate_returns one_frame 10000 (some 16384) one_frame-Inv one_frame-Fits

deallocate-Inv_example :
    Inv (deallocate one_frame 4144)
    × (◌≡◌ {A = ℕ} 4144 4144
        → (next : Stacklet) → (deallocate one_frame 4144).cached ≡ some next
        → capacity next ≤ 8 * capacity (deallocate one_frame 4144).fib)
deallocate-Inv_example = deallocate-Inv one_frame 4144 one_frame-Inv (omega arith) (omega arith)
