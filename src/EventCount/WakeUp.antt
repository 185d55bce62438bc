-- ===== src/EventCount/WakeUp.antt =====
-- No wake-up is lost.
use Prim.Native.Nat.{bit_and}
use parallel_load_balancing.Common.{
  ℕ, suc, ◌%◌, ◌<◌, ◌≡◌, ◌≢◌, ◌⊎◌, inl, inr, refl, sym, ap, ◌∙◌, List, [], ◌∷◌, ◌==◌, arith,
  if_intro,
}
use parallel_load_balancing.Common.Family.{update, update_self, update_other, update_cases}
use parallel_load_balancing.EventCount.{
  k_add_epoch, k_waiter_mask, epoch_of, Waiter, outside, prepared, comparing, asleep, leaving,
  Notifier, quiet, waking_all, woken, System, Event, inner, notified_one, notified_all, Step,
  prepare_wait, cancel_wait, wait, compare_epoch, leave, notify_one, notify_all, wake_one,
  wake_none, wake_all, Reach, start, step, notifications, counts,
}
use parallel_load_balancing.EventCount.Inv.{waiting-ge, below, Reach-Inv, word-counts}

-- How many of the notifications were for one thread.
abbrev pub ones : List Event → ℕ
ones [] = 0
ones (inner ∷ es) = ones es
ones (notified_one ∷ es) = suc (ones es)
ones (notified_all ∷ es) = ones es

-- A thread with the key sleeps rightly, or is about to be woken.
abbrev pub IsDue : List Event → (ℕ → Notifier) → ℕ → Type 0
IsDue es notifiers key =
    (key ≡ notifications es % k_add_epoch) ⊎ ((u : ℕ) × (notifiers u ≡ waking_all))

abbrev Heard : List Event → (ℕ → Waiter) → (ℕ → Notifier) → Type 0
Heard es waiters notifiers = (t key : ℕ) → waiters t ≡ asleep key → IsDue es notifiers key

Heard-update :
    (es : List Event) {waiters : ℕ → Waiter} {notifiers : ℕ → Notifier} (t : ℕ) (w : Waiter)
    → ((key : ℕ) → w ≡ asleep key → IsDue es notifiers key)
    → Heard es waiters notifiers
    → Heard es (update waiters t w) notifiers
Heard-update es {waiters} {notifiers} t w new old u key =
    update_cases waiters t w (λ x. x ≡ asleep key → IsDue es notifiers key) u (λ _. new key)
      (λ _. old u key)

-- A notifier that was not waking all threads goes to another state.
IsDue-update :
    (es : List Event) {notifiers : ℕ → Notifier} (u : ℕ) (n : Notifier) {key : ℕ}
    → notifiers u ≢ waking_all
    → IsDue es notifiers key
    → IsDue es (update notifiers u n) key
IsDue-update es u n ne (inl e) = inl e
IsDue-update es {notifiers} u n ne (inr (k, busy)) =
    let apart : u ≢ k = λ e. ne (ap notifiers e ∙ busy) in
    inr (k, update_other notifiers u n apart ∙ busy)

woken-asleep : (w : Waiter) (key : ℕ) → woken w ≢ asleep key
woken-asleep outside key e = ground (arith, e)
woken-asleep (prepared k) key e = ground (arith, e)
woken-asleep (comparing k) key e = ground (arith, e)
woken-asleep (asleep k) key e = ground (arith, e)
woken-asleep leaving key e = ground (arith, e)

Step-Heard :
    {limit : ℕ} {es : List Event} {e : Event} {s t : System}
    → limit < k_add_epoch
    → Reach limit es s
    → Step limit s e t
    → ones (e ∷ es) ≡ 0
    → Heard es s.waiters s.notifiers
    → Heard (e ∷ es) t.waiters t.notifiers
Step-Heard {es} small r (prepare_wait t h at) all heard =
    Heard-update es t _ (λ key e. ground (arith, e)) heard
Step-Heard {es} small r (cancel_wait t at) all heard =
    Heard-update es t _ (λ key e. ground (arith, e)) heard
Step-Heard {es} small r (wait t at) all heard =
    Heard-update es t _ (λ key e. ground (arith, e)) heard
Step-Heard {es} {s} small r (compare_epoch t {key = k} at) all heard =
    Heard-update es t _
      (λ key.
        if_intro (λ (w : Waiter). w ≡ asleep key → IsDue (inner ∷ es) s.notifiers key)
          (epoch_of s.word == k)
          (λ h e.
            let same : epoch_of s.word ≡ key = ground (arith, h, e) in
            inl (sym same ∙ (word-counts small r).1))
          (λ h e. ground (arith, e)))
      heard
Step-Heard {es} small r (leave t at) all heard =
    Heard-update es t _ (λ key e. ground (arith, e)) heard
Step-Heard {es} small r (notify_one u at) all heard = absurd (omega (arith, all))
Step-Heard {limit} {s} small r (notify_all u at) all heard = λ t key e.
    let v = Reach-Inv small r in
    let in_range = below small v t (λ o. ground (arith, o, e)) in
    let one : counts (s.waiters t) ≡ 1 = ap counts e in
    let some_wait : bit_and s.word k_waiter_mask ≢ 0 =
      omega (arith, (word-counts small r).0, waiting-ge s.waiters limit t in_range, one) in
    inr (
      u,
      update_self s.notifiers u _
          ∙ if_intro (λ (n : Notifier). n ≡ waking_all) (bit_and s.word k_waiter_mask == 0)
              (λ h. ground (arith, h, some_wait)) (λ h. refl),
    )
Step-Heard {es} {s} small r (wake_one u t busy at) all heard =
    Heard-update es t _ (λ key e. ground (arith, e))
      (λ k key e. IsDue-update es u quiet (λ h. ground (arith, h, busy)) (heard k key e))
Step-Heard {es} {s} small r (wake_none u busy none_asleep) all heard =
    λ k key e. IsDue-update es u quiet (λ h. ground (arith, h, busy)) (heard k key e)
Step-Heard {es} {s} small r (wake_all u busy) all heard =
    λ t key e. absurd (woken-asleep (s.waiters t) key e)

ones-tail : (e : Event) (es : List Event) → ones (e ∷ es) ≡ 0 → ones es ≡ 0
ones-tail inner es h = h
ones-tail notified_one es h = absurd (omega (arith, h))
ones-tail notified_all es h = h

-- In every execution with fewer than 2^32 threads that wait and with `notify_all` for all
-- notifications, a thread that sleeps in `wait` has a key that is the number of notifications so far
-- modulo 2^32, or else some `notify_all` is about to wake the threads that sleep. So a thread whose
-- key was taken before a notification does not sleep through it, unless the epoch has come round.
pub asleep-IsDue :
    {limit : ℕ} {es : List Event} {s : System}
    → limit < k_add_epoch
    → Reach limit es s
    → ones es ≡ 0
    → (t key : ℕ) → s.waiters t ≡ asleep key
    → IsDue es s.notifiers key
asleep-IsDue small start all t key e = ground (arith, e)
asleep-IsDue small (step {es} {e} r h) all t key at =
    Step-Heard small r h all (asleep-IsDue small r (ones-tail e es all)) t key at
