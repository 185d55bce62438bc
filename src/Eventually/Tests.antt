-- ===== src/Eventually/Tests.antt =====
-- A value whose constructor throws at first, in an eventual value that keeps exceptions.
use parallel_load_balancing.Common.{refl, true, false, some, List, [], ◌∷◌}
use parallel_load_balancing.Eventually.{is_val, make, Operation, assigns}
use parallel_load_balancing.Eventually.Refine.{pending, runs, performs, Agrees, eventually-refines}

abbrev two_tries : List Operation
two_tries = assigns 3 false ∷ assigns 4 true ∷ []

eventually-refines_example :
    Agrees is_val true
      (runs is_val true two_tries (some (make is_val true)))
      (performs is_val true two_tries (some pending))
eventually-refines_example = eventually-refines is_val true two_tries refl
