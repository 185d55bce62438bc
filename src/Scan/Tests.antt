-- ===== src/Scan/Tests.antt =====
-- Scans by evaluation.
use native.Mathlib.Nat.{add_assoc}
use parallel_load_balancing.Common.{
  inl, if◌then◌else◌, false, true, ℕ_discrete, arith, ℕ, ◌+◌, ◌*◌, ◌≡◌, refl, true, false, [], ◌∷◌,
  ltb, map,
}
use parallel_load_balancing.Scan.{
  all, l_child_of, r_child_of, has_left, Schedule, scan_to_single, scan_in_place_single, Sweep,
  scan, rise_scan, rise_fold, fall_sweep, fall_sweep_impl,
}
use parallel_load_balancing.Scan.Instances.{rise, up_lhs, up_rhs_fold, instances-has_left}
use parallel_load_balancing.Scan.Laws.{inclusive_scan, scan-eq-inclusive_scan}

abbrev job : Sweep ℕ
job = record {
  bop = ◌+◌;
  read = λ i v. v;
  n = 2;
  ready = λ b e. ltb b 3;
  left_first = λ b e. ltb 3 e;
}

abbrev out : ℕ → ℕ
out i = i * i + 1

some_prefixes :
    map (scan job 7 out) (0 ∷ 1 ∷ 2 ∷ 3 ∷ 4 ∷ 5 ∷ 6 ∷ 7 ∷ [])
    ≡ 1 ∷ 3 ∷ 8 ∷ 18 ∷ 35 ∷ 61 ∷ 98 ∷ 50 ∷ []
unfolding scan rise_scan rise_fold fall_sweep fall_sweep_impl ℕ_discrete
some_prefixes = refl

scan-eq-inclusive_scan_example :
    scan job 7 out 4 ≡ (if ltb 4 7 then inclusive_scan ◌+◌ out 4 else out 4)
scan-eq-inclusive_scan_example = scan-eq-inclusive_scan job 7 out 4 add_assoc (omega arith)

abbrev stolen : Schedule
stolen = record { ready = λ b e. false; left_first = λ b e. false }

abbrev alone : Schedule
alone = record { ready = λ b e. true; left_first = λ b e. true }

-- The overloads without a chunk size, by evaluation.
in_chunks_of_one :
    scan_in_place_single ◌+◌ (λ a. a) alone 7 out 5 ≡ scan_to_single ◌+◌ (λ a. a) stolen out 7 out 5
unfolding scan_in_place_single scan_to_single scan rise_scan rise_fold fall_sweep fall_sweep_impl
    ℕ_discrete
in_chunks_of_one = refl

-- The right child of the left child of a scan, which folds, and its left child.
instances-has_left_example : has_left (l_child_of (r_child_of (l_child_of all))) ≡ true
instances-has_left_example = instances-has_left (inl (up_lhs (up_rhs_fold (up_lhs rise))))
