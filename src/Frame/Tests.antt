-- ===== src/Frame/Tests.antt =====
-- Two children of a scope throw, by evaluation.
use parallel_load_balancing.Common.{◌≡◌, refl, some, [], ◌∷◌}
use parallel_load_balancing.Frame.{make_frame, rethrow_if_exception}
use parallel_load_balancing.Frame.Exceptions.{capture_all, rethrow-capture}

rethrow-capture_example :
    rethrow_if_exception (capture_all (make_frame 3) (7 ∷ 8 ∷ [])) ≡ (make_frame 3, some 7)
rethrow-capture_example = rethrow-capture (make_frame 3) 7 (8 ∷ []) refl refl
