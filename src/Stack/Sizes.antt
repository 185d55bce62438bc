-- ===== src/Stack/Sizes.antt =====
-- The roundings of include/libfork/core/impl/stack.hpp.
use Prim.Native.Nat.{bit_and}
use parallel_load_balancing.Common.{ℕ, ◌+◌, ◌-◌, ◌*◌, ◌/◌, ◌%◌, ◌^◌, ◌≤◌, ◌<◌, ◌≡◌, refl, arith}
use parallel_load_balancing.Common.Bits.{bit_and_high}
use parallel_load_balancing.Stack.{round_up_to_page_size, ext_size}

mask_page : (x : ℕ) → x < 2 ^ 64 → bit_and x (2 ^ 64 - 4096) ≡ x / 4096 * 4096
mask_page x l = bit_and_high 12 52 x (2 ^ 64 - 4096) refl (omega arith)

mask_align : (x : ℕ) → x < 2 ^ 64 → bit_and x (2 ^ 64 - 16) ≡ x / 16 * 16
mask_align x l = bit_and_high 4 60 x (2 ^ 64 - 16) refl (omega arith)

pub round_up_to_page_size_lem :
    (size : ℕ)
    → size < 2 ^ 64 - 4200
    → (size ≤ round_up_to_page_size size)
      × (round_up_to_page_size size < size + 4096)
      × ((round_up_to_page_size size + 48) % 4096 ≡ 0)
unfolding round_up_to_page_size
round_up_to_page_size_lem size l =
    let e : (size + 48) % 2 ^ 64 ≡ size + 48 = omega (arith, l) in
    let f : (size + 48 + 4096 - 1) % 2 ^ 64 ≡ size + 48 + 4095 = omega (arith, l) in
    rw (e, f, mask_page (size + 48 + 4095) (omega (arith, l))) (omega (arith, l))

pub ext_size_lem :
    (size : ℕ)
    → size < 2 ^ 64 - 16
    → (size ≤ ext_size size) × (ext_size size < size + 16) × (ext_size size % 16 ≡ 0)
unfolding ext_size
ext_size_lem size l =
    let f : (size + 16 - 1) % 2 ^ 64 ≡ size + 15 = omega (arith, l) in
    rw (f, mask_align (size + 15) (omega (arith, l))) (omega (arith, l))

-- If the sizes stay clear of the end of the 64 bits, a block has at least its size, less than 16 bytes
-- more, and a multiple of 16 bytes; and a request is not smaller than its size and less than a page
-- larger, and with the allocator's own data it fills whole pages.
pub sizes-round :
    (size request : ℕ)
    → size < 2 ^ 64 - 16
    → request < 2 ^ 64 - 4200
    → (size ≤ ext_size size)
      × (ext_size size < size + 16)
      × (ext_size size % 16 ≡ 0)
      × (request ≤ round_up_to_page_size request)
      × (round_up_to_page_size request < request + 4096)
      × ((round_up_to_page_size request + 48) % 4096 ≡ 0)
sizes-round size request l k =
    let (a, b, c) = ext_size_lem size l in
    let (d, e, f) = round_up_to_page_size_lem request k in (a, b, c, d, e, f)
