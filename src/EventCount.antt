-- ===== src/EventCount.antt =====
-- include/libfork/schedule/ext/event_count.hpp: `lf::ext::event_count`, one 64-bit word with the epoch
-- in its high half and the count of waiters in its low half. A waiter that has compared the epoch
-- with its key either sleeps or goes on, in one step, as `std::atomic::wait` does; a thread that is
-- woken compares again. The memory order is sequential consistency.
mod Word
mod Inv
mod WakeUp
mod Await
mod Tests
use Prim.Native.Nat.{bit_and}
use parallel_load_balancing.Common.{
  ℕ, zero, suc, ◌+◌, ◌-◌, ◌/◌, ◌%◌, ◌^◌, ◌<◌, ◌≡◌, ◌≢◌, Bool, true, false, List, [], ◌∷◌,
  if◌then◌else◌, ◌==◌,
}
use parallel_load_balancing.Common.Family.{update}

abbrev pub k_add_waiter : ℕ
k_add_waiter = 1

abbrev pub k_sub_waiter : ℕ
k_sub_waiter = 18446744073709551615

abbrev pub k_add_epoch : ℕ
k_add_epoch = 4294967296

abbrev pub k_waiter_mask : ℕ
k_waiter_mask = 4294967295

-- `fetch_add` on 64 bits: the word after it.
abbrev pub fetch_add : ℕ → ℕ → ℕ
fetch_add word k = (word + k) % 18446744073709551616

abbrev pub epoch_of : ℕ → ℕ
epoch_of word = word / k_add_epoch

-- A thread that waits: after `prepare_wait`; about to compare in `wait`; asleep; about to leave.
pub data Waiter : Type 0 where
  outside : Waiter
  prepared : (key : ℕ) → Waiter
  comparing : (key : ℕ) → Waiter
  asleep : (key : ℕ) → Waiter
  leaving : Waiter

-- A thread between its `fetch_add` and the `notify_one` or `notify_all` of the epoch.
pub data Notifier : Type 0 where
  quiet : Notifier
  waking_one : Notifier
  waking_all : Notifier

abbrev pub woken : Waiter → Waiter
woken outside = outside
woken (prepared key) = prepared key
woken (comparing key) = comparing key
woken (asleep key) = comparing key
woken leaving = leaving

pub record System : Type 0 where
  pub word : ℕ
  pub waiters : ℕ → Waiter
  pub notifiers : ℕ → Notifier

pub data Event : Type 0 where
  inner : Event
  notified_one : Event
  notified_all : Event

-- One step, of one of the threads below `limit` or of a thread that notifies.
pub data Step (limit : ℕ) (s : System) : Event → System → Type 0 where
  prepare_wait :
      (t : ℕ)
      → t < limit
      → s.waiters t ≡ outside
      → Step limit s inner (record s {
        word = fetch_add s.word k_add_waiter;
        waiters = update s.waiters t (prepared (epoch_of s.word));
      })
  cancel_wait :
      (t : ℕ) {key : ℕ}
      → s.waiters t ≡ prepared key
      → Step limit s inner
          (record s { word = fetch_add s.word k_sub_waiter; waiters = update s.waiters t outside })
  wait :
      (t : ℕ) {key : ℕ}
      → s.waiters t ≡ prepared key
      → Step limit s inner (record s { waiters = update s.waiters t (comparing key) })
  compare_epoch :
      (t : ℕ) {key : ℕ}
      → s.waiters t ≡ comparing key
      → Step limit s inner (record s {
        waiters = update s.waiters t (if epoch_of s.word == key then asleep key else leaving);
      })
  leave :
      (t : ℕ)
      → s.waiters t ≡ leaving
      → Step limit s inner
          (record s { word = fetch_add s.word k_sub_waiter; waiters = update s.waiters t outside })
  notify_one :
      (u : ℕ)
      → s.notifiers u ≡ quiet
      → Step limit s notified_one (record s {
        word = fetch_add s.word k_add_epoch;
        notifiers =
            update s.notifiers u (if bit_and s.word k_waiter_mask == 0 then quiet else waking_one);
      })
  notify_all :
      (u : ℕ)
      → s.notifiers u ≡ quiet
      → Step limit s notified_all (record s {
        word = fetch_add s.word k_add_epoch;
        notifiers =
            update s.notifiers u (if bit_and s.word k_waiter_mask == 0 then quiet else waking_all);
      })
  -- One thread is woken, or none if none sleeps.
  wake_one :
      (u t : ℕ) {key : ℕ}
      → s.notifiers u ≡ waking_one
      → s.waiters t ≡ asleep key
      → Step limit s inner (record s {
        waiters = update s.waiters t (comparing key);
        notifiers = update s.notifiers u quiet;
      })
  wake_none :
      (u : ℕ)
      → s.notifiers u ≡ waking_one
      → ((t key : ℕ) → s.waiters t ≢ asleep key)
      → Step limit s inner (record s { notifiers = update s.notifiers u quiet })
  wake_all :
      (u : ℕ)
      → s.notifiers u ≡ waking_all
      → Step limit s inner
          (record s { waiters = λ t. woken (s.waiters t); notifiers = update s.notifiers u quiet })

abbrev pub initial : System
initial = record { word = 0; waiters = λ _. outside; notifiers = λ _. quiet }

-- The executions, with their events, latest first.
pub data Reach (limit : ℕ) : List Event → System → Type 0 where
  start : Reach limit [] initial
  step :
      {es : List Event} {e : Event} {s t : System}
      → Reach limit es s
      → Step limit s e t
      → Reach limit (e ∷ es) t

-- How many notifications there have been.
abbrev pub notifications : List Event → ℕ
notifications [] = 0
notifications (inner ∷ es) = notifications es
notifications (notified_one ∷ es) = suc (notifications es)
notifications (notified_all ∷ es) = suc (notifications es)

abbrev pub counts : Waiter → ℕ
counts outside = 0
counts (prepared key) = 1
counts (comparing key) = 1
counts (asleep key) = 1
counts leaving = 1

-- The threads below `limit` that wait.
abbrev pub waiting : (ℕ → Waiter) → ℕ → ℕ
waiting waiters zero = 0
waiting waiters (suc limit) = counts (waiters limit) + waiting waiters limit
