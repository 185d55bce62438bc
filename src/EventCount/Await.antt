-- ===== src/EventCount/Await.antt =====
-- include/libfork/schedule/ext/event_count.hpp: `event_count::await`, for the outcomes that the
-- evaluations of the condition have one after the other.
use parallel_load_balancing.Common.{ℕ, suc, ◌+◌, ◌≡◌, refl, List, [], ◌∷◌, arith}

pub data Outcome : Type 0 where
  holds : Outcome
  fails : Outcome
  throws : Outcome

pub data Call : Type 0 where
  prepare_wait : Call
  cancel_wait : Call
  wait : Call

-- Where `await` is after the outcomes: in the first evaluation, in one of the loop's, or done.
pub data Stage : Type 0 where
  asking : Stage
  in_loop : Stage
  returned : Stage
  threw : Stage

-- The loop, with its `catch` clause.
abbrev pub await_loop : List Outcome → List Call × Stage
await_loop [] = (prepare_wait ∷ [], in_loop)
await_loop (holds ∷ rest) = (prepare_wait ∷ cancel_wait ∷ [], returned)
await_loop (fails ∷ rest) =
    let (calls, stage) = await_loop rest in (prepare_wait ∷ wait ∷ calls, stage)
await_loop (throws ∷ rest) = (prepare_wait ∷ cancel_wait ∷ [], threw)

abbrev pub await : List Outcome → List Call × Stage
await [] = ([], asking)
await (holds ∷ rest) = ([], returned)
await (fails ∷ rest) = await_loop rest
await (throws ∷ rest) = ([], threw)

-- How often a thread announces itself, and how often it takes itself off again.
abbrev pub prepares : List Call → ℕ
prepares [] = 0
prepares (prepare_wait ∷ calls) = suc (prepares calls)
prepares (cancel_wait ∷ calls) = prepares calls
prepares (wait ∷ calls) = prepares calls

abbrev pub ends : List Call → ℕ
ends [] = 0
ends (prepare_wait ∷ calls) = ends calls
ends (cancel_wait ∷ calls) = suc (ends calls)
ends (wait ∷ calls) = suc (ends calls)

-- How many announcements are open.
abbrev pub held : Stage → ℕ
held asking = 0
held in_loop = 1
held returned = 0
held threw = 0

-- What the first outcome that is not `fails` makes of `await`.
pub verdict : List Outcome → Stage → Stage
verdict [] stage = stage
verdict (holds ∷ rest) stage = returned
verdict (fails ∷ rest) stage = verdict rest in_loop
verdict (throws ∷ rest) stage = threw

await_loop-held :
    (os : List Outcome)
    → (prepares (await_loop os).0 ≡ ends (await_loop os).0 + held (await_loop os).1)
      × ((await_loop os).1 ≡ verdict os in_loop)
unfolding verdict
await_loop-held [] = (refl, refl)
await_loop-held (holds ∷ rest) = (refl, refl)
await_loop-held (fails ∷ rest) = (omega (arith, (await_loop-held rest).0), (await_loop-held rest).1)
await_loop-held (throws ∷ rest) = (refl, refl)

-- For all outcomes of the condition, `await` has called `cancel_wait` or `wait` once for every call of
-- `prepare_wait`, except for the one of the round of the loop that it is in, also if the condition
-- has thrown; and it returns if the first outcome that is not false is true, throws if that is an
-- exception, and goes on if there is none.
pub await-held :
    (os : List Outcome)
    → (prepares (await os).0 ≡ ends (await os).0 + held (await os).1)
      × ((await os).1 ≡ verdict os asking)
unfolding verdict
await-held [] = (refl, refl)
await-held (holds ∷ rest) = (refl, refl)
await-held (fails ∷ rest) = await_loop-held rest
await-held (throws ∷ rest) = (refl, refl)
