-- ===== src/DequeCommon.antt =====
-- include/libfork/core/ext/deque_common.hpp: what `steal()` returns. The events are what the users
-- of a deque see of its operations, and `Spec` is the deque that they are promised.
pub mod History
use parallel_load_balancing.Common.{Bool, true, false, Option, none, some, List, [], ◌∷◌, ◌++◌, ◌≡◌}

-- `enum class err`; the constructor for `err::none` is `success`.
pub data Err : Type 0 where
  success lost empty : Err

-- `steal_t<T>`; `none` is the value-initialised `val` of a failure.
pub record Steal (T : Type 0) : Type 0 where
  pub code : Err
  pub val : Option T

module _ {T : Type 0} where
  -- `explicit operator bool`.
  unfoldable pub to_bool : Steal T → Bool
  to_bool s = elim s.code [ Err.success ↦ true | _ ↦ false ]

-- The return of one operation, or a step inside one (`inner`).
pub data Event (T : Type 0) : Type 0 where
  inner : Event T
  pushed : T → Event T
  popped : T → Event T
  pop_failed : Event T
  stole : T → Event T
  steal_lost : Event T
  steal_empty : Event T

-- What an event does to the items, oldest first: the owner works at the young end, a thief takes
-- the oldest.
abbrev pub Effect : {T : Type 0} → Event T → List T → List T → Type 0
Effect inner q q' = q ≡ q'
Effect (pushed x) q q' = q' ≡ q ++ (x ∷ [])
Effect (popped x) q q' = q ≡ q' ++ (x ∷ [])
Effect pop_failed q q' = (q ≡ []) × (q' ≡ [])
Effect (stole x) q q' = q ≡ x ∷ q'
Effect steal_lost q q' = q ≡ q'
Effect steal_empty q q' = q ≡ q'

-- A sequential history of events (latest first) and the items that it leaves.
pub data Spec (T : Type 0) : List (Event T) → List T → Type 0 where
  fresh : Spec T [] []
  after :
      {es : List (Event T)} {q q' : List T} (e : Event T)
      → Spec T es q
      → Effect e q q'
      → Spec T (e ∷ es) q'

module _ {T : Type 0} where
  -- The items that a history has put in, and those that it has handed out.
  abbrev pub put_in : List (Event T) → List T
  put_in [] = []
  put_in (pushed x ∷ es) = x ∷ put_in es
  put_in (_ ∷ es) = put_in es

  abbrev pub handed_out : List (Event T) → List T
  handed_out [] = []
  handed_out (popped x ∷ es) = x ∷ handed_out es
  handed_out (stole x ∷ es) = x ∷ handed_out es
  handed_out (_ ∷ es) = handed_out es
