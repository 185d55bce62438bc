-- ===== src/Join/Limit.antt =====
-- What the 16 bits of the two counters cannot hold: a scope with 65535 steals.
use parallel_load_balancing.Common.{ℕ, ◌-◌, ◌≡◌}
use parallel_load_balancing.Frame.{Frame, u16_max}
use parallel_load_balancing.Join.{running, Scope, Reach}

-- A reachable running task, with n steals of which j children have joined.
abbrev Running : ℕ → ℕ → ℕ → Type 0
Running stacklet n j =
    (s : Scope) × Reach u16_max stacklet s
    × (s.stage ≡ running)
    × (s.frame.steal ≡ n)
    × (s.frame.join ≡ u16_max - j)
    × (s.pending ≡ n - j)
