-- ===== src/Ring/Tests.antt =====
-- A full ring of two slots that grows while its indices have passed its capacity, by evaluation.
use parallel_load_balancing.Common.{ℕ, ◌≡◌, refl, some, [], ◌∷◌}
use parallel_load_balancing.Ring.{RingBuf, load, store, resize, copy_range, copy_slot}

-- Index 3 holds 8 and index 4 holds 9.
abbrev two_full : RingBuf ℕ
two_full = record { cap = 2; slots = some 9 ∷ some 8 ∷ [] }

resized_slots : load (resize two_full 5 3) 4 ≡ some 9
unfolding load store resize copy_range copy_slot
resized_slots = refl
