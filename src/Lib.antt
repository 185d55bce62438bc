-- ===== src/Lib.antt =====
-- libfork: a work-stealing fork-join runtime for C++20 coroutines. What is modelled is the code that
-- its correctness rests on: the deque that a worker shares with the thieves, the join counter that
-- tells which worker continues a task, the stack that the coroutine frames are allocated on, and the
-- parallel algorithms that are built from forks and joins.
--
-- Ring models `lf::impl::atomic_ring_buf`, DequeCommon the results of `steal()` and ChaseLev the
-- deque (include/libfork/core/ext/deque_chase_lev.hpp, deque_common.hpp). A worker pushes the tasks
-- that it forks and pops them when the forked children end; other workers steal. The memory of a
-- deque is `ChaseLev.Mem`; each access of `push`, `pop` and `steal` to shared memory is one
-- constructor of `OwnerMove` or `ThiefMove`, so that the steps of the owner and of any number of
-- thieves interleave in any order. ChaseLev/Inv states the invariant, OwnerMoves and ThiefMoves are
-- about its preservation, Refine about the items that a memory holds.
--
-- Blocking models the deque with a lock (include/libfork/core/ext/deque_blocking.hpp) in the same way:
-- outside the lock each access is a step, under it a thread loads, stores and unlocks.
-- Lace models the deque with a split point (include/libfork/core/ext/deque_lace.hpp) in this way too;
-- its two halves of one word are a pair there, and Lace/Packed is about the word. Lace/Run has the
-- interleavings, Lace/Inv the invariant. `DequeCommon.Spec` is the sequential deque that the three are
-- compared with.
--
-- Frame models the counters and the exception of `lf::impl::frame`
-- (include/libfork/core/impl/frame.hpp), Join the join of a task with its children
-- (include/libfork/core/impl/awaitables.hpp, promise.hpp, include/libfork/core/ext/resume.hpp). A
-- thief that steals a task raises the frame's steal counter; the task's children and the task itself
-- meet at the join counter. `Join.Scope` is the frame with the stage of its task and the number of
-- children still to come.
--
-- Stack models the segmented stack (include/libfork/core/impl/stack.hpp): the doubly linked chain of
-- stacklets is a zipper around the stacklet that `m_fib` points at. Stack/Sizes has the roundings,
-- Stack/Inv the invariant, Stack/Room where an allocation finds its memory, Stack/Filo the effect of an
-- allocation and its deallocation. CoAlloc models the memory that a task allocates on it
-- (include/libfork/core/co_alloc.hpp, impl/awaitables.hpp).
--
-- Tasks has the fork-join trees of calls that the algorithms make, with every order in which the
-- workers may run them. ForEach, Mapping and Fold model `lf::for_each`, `lf::map` and `lf::fold`
-- (include/libfork/algorithm/for_each.hpp, map.hpp, fold.hpp).
--
-- Scan models `lf::scan` (include/libfork/algorithm/scan.hpp) on one output whose cells the tasks read
-- and write: Scan/Swept says what the two sweeps leave in it, Reduce and Rise are about `rise_sweep`,
-- Fall and Finish about `fall_sweep_impl` and `fall_sweep`, Instances about the templates' arguments.
--
-- IntrusiveList models the list by which tasks are submitted to a worker
-- (include/libfork/core/ext/list.hpp), with the heap of the nodes' links, EventCount the event count
-- that idle workers sleep on (include/libfork/schedule/ext/event_count.hpp), both as step relations of
-- any number of threads; EventCount/Await is about `await`.
--
-- LazyPool models the pool whose idle workers sleep (include/libfork/schedule/lazy_pool.hpp): the loop
-- `lazy_work` of any number of workers in any number of domains, `thief_work_sleep`, the calls of
-- `schedule` and the destructor, each access to a counter, the flag or a list of submissions being a
-- step. It stands on the event count, of which a worker keeps whether the epoch has moved on since its
-- key was taken, and on the list of submissions, of which it keeps the number. LazyPool/Weights says
-- what a worker counts for, Inv states the invariant, Moves, Notified, Steps and Reachable are about its
-- preservation, Shutdown about the end of the workers.
--
-- WorkerLoop models the workers that do not sleep, those of include/libfork/schedule/busy_pool.hpp and
-- unit_pool.hpp, from the submissions to the end of the second loop. Dispatch models which awaitable a
-- call or a fork with a modifier gets and where the exception of a child goes
-- (include/libfork/core/impl/promise.hpp, awaitables.hpp), on the frames of Frame; Eventually models
-- the values that are constructed late (include/libfork/core/eventually.hpp).
--
-- Numa models whom a worker steals from: how `numa_topology::distribute` sorts the workers into lists by
-- distance (include/libfork/schedule/ext/numa.hpp), and `try_steal` (Numa/Steal, from
-- include/libfork/schedule/impl/numa_context.hpp). Distances and random choices are parameters. Random
-- models the generator of random numbers (include/libfork/schedule/ext/random.hpp), on the words of
-- Common/Xor, Words and Rotations. Its steps go with exclusive or, so that sums of states some steps
-- ahead are polynomials in the step (Random/Polynomials): the loops of a jump evaluate one
-- (Random/Loop), and modulo the polynomial that the step is a root of (Random/Minimal) its powers are
-- computed by squaring (Random/Powers).
--
-- Numbers: indices of the deques are natural numbers, since `m_top` and `m_bottom` are 64-bit and only
-- `m_bottom` falls below 0, to -1, within a pop: it is an integer. The frame's counters have 16 bits
-- and wrap; the sizes of the stack have 64 bits and wrap, its addresses do not; the word of the event
-- count has 64 bits and wraps; the halves of the Lace deque's word stay within their 32 bits. The recursions of the
-- algorithms run on fuel, the length of the range: each half of a range that is divided is shorter,
-- and a range without elements needs none.
--
-- Not modelled: the memory orders (the model is sequentially consistent), failures of allocation
-- outside the stack, exceptions within an algorithm, and the coroutines themselves, whose switches are
-- the results of the modelled functions. The halves of a task of `lf::scan` run one after the other, in
-- either order. Of the Lace deque, indices beyond the capacity, at which its pop leaves the array, are
-- not modelled, nor are its constructor's checks. Of the pools, the construction of the contexts and
-- threads, the latches and the seeding of the generators are not modelled, and a notification is one
-- step; the counters of the lazy pool are natural numbers, which with fewer than 2^64 workers do not
-- wrap. Nor are the switch of a task to another context and `lf::sync_wait` modelled.
pub mod Common
pub mod Ring
pub mod DequeCommon
pub mod ChaseLev
pub mod Blocking
pub mod Frame
pub mod Join
pub mod Dispatch
pub mod LazyPool
pub mod WorkerLoop
pub mod Scan
pub mod Lace
pub mod EventCount
pub mod Eventually
pub mod IntrusiveList
pub mod Numa
pub mod Random
pub mod Tasks
pub mod ForEach
pub mod Mapping
pub mod Fold
pub mod Stack
pub mod CoAlloc
