-- ===== src/Frame/Exceptions.antt =====
-- The exceptions of a scope: `frame::capture_exception` and `frame::unsafe_rethrow_if_exception`.
use parallel_load_balancing.Common.{ℕ, arith, ◌≡◌, true, false, none, some, List, [], ◌∷◌, refl}
use parallel_load_balancing.Frame.{Frame, capture_exception, has_exception, rethrow_if_exception}

-- The captures of several children, in the order of their exchanges of the flag.
abbrev pub capture_all : Frame → List ℕ → Frame
capture_all f [] = f
capture_all f (e ∷ es) = capture_all (capture_exception f e) es

capture_exception-flagged : (f : Frame) (e : ℕ) → f.except ≡ true → capture_exception f e ≡ f
unfolding capture_exception
capture_exception-flagged f e h = rw h

capture_all-flagged : (f : Frame) (es : List ℕ) → f.except ≡ true → capture_all f es ≡ f
capture_all-flagged f [] h = refl
capture_all-flagged f (e ∷ es) h = rw (capture_exception-flagged f e h, capture_all-flagged f es h)

capture_exception-sets : (f : Frame) (e : ℕ) → has_exception (capture_exception f e) ≡ true
unfolding capture_exception has_exception
capture_exception-sets f e = ground arith

rethrow-first :
    (f : Frame) (e : ℕ)
    → f.except ≡ false
    → f.eptr ≡ none
    → rethrow_if_exception (capture_exception f e) ≡ (f, some e)
unfolding capture_exception rethrow_if_exception
rethrow-first f e h n = ground arith

-- If a frame holds no exception, then of those that its children capture the first one is rethrown,
-- and the frame is then what it was before.
pub rethrow-capture :
    (f : Frame) (e : ℕ) (es : List ℕ)
    → f.except ≡ false
    → f.eptr ≡ none
    → rethrow_if_exception (capture_all f (e ∷ es)) ≡ (f, some e)
unfolding has_exception
rethrow-capture f e es h n = rw (
  capture_all-flagged (capture_exception f e) es (capture_exception-sets f e),
  rethrow-first f e h n,
)
