-- ===== src/Tasks.antt =====
-- Fork-join trees: `lf::fork` of one half, `lf::call` of the other, `lf::join`, as the algorithms of
-- include/libfork/algorithm use them.
pub mod Laws
use parallel_load_balancing.Common.{ℕ, zero, suc, ◌+◌, ◌≤◌, List, [], ◌∷◌, ◌++◌, length}

-- What a task does: calls one after the other, each known by what it is made for; or a fork, a call
-- and the join of both.
pub data Work (A : Type 0) : Type 0 where
  chunk : List A → Work A
  par : (forked called : Work A) → Work A

-- The interleavings of two sequences.
pub data Shuffle (A : Type 0) : List A → List A → List A → Type 0 where
  done : Shuffle A [] [] []
  left : {x : A} {xs ys zs : List A} → Shuffle A xs ys zs → Shuffle A (x ∷ xs) ys (x ∷ zs)
  right : {y : A} {xs ys zs : List A} → Shuffle A xs ys zs → Shuffle A xs (y ∷ ys) (y ∷ zs)

-- The orders in which the calls of a task may be made.
pub data Runs (A : Type 0) : Work A → List A → Type 0 where
  in_order : (xs : List A) → Runs A (chunk xs) xs
  both :
      {a b : Work A} {xs ys zs : List A}
      → Runs A a xs
      → Runs A b ys
      → Shuffle A xs ys zs
      → Runs A (par a b) zs

module _ {A : Type 0} where
  -- The calls in the order of one worker that is never stolen from.
  abbrev pub items : Work A → List A
  items (chunk xs) = xs
  items (par a b) = items a ++ items b

  -- No chunk has more than `n` calls.
  abbrev pub IsGrained : ℕ → Work A → Type 0
  IsGrained n (chunk xs) = length xs ≤ n
  IsGrained n (par a b) = IsGrained n a × IsGrained n b

-- The positions of the range that starts at `head` and has `len` elements.
abbrev pub indices : ℕ → ℕ → List ℕ
indices head zero = []
indices head (suc len) = head ∷ indices (suc head) len
