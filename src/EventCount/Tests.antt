-- ===== src/EventCount/Tests.antt =====
-- One thread that sleeps and one that notifies it.
use Prim.Native.Nat.{bit_and}
use parallel_load_balancing.Common.{◌%◌, ◌≡◌, refl, [], ◌∷◌, arith, ℕ_discrete}
use parallel_load_balancing.Common.Family.{update}
use parallel_load_balancing.EventCount.{
  k_add_epoch, k_waiter_mask, epoch_of, prepared, comparing, asleep, waking_all, System, inner,
  notified_all, prepare_wait, wait, compare_epoch, notify_all, initial, Reach, start, step, waiting,
}
use parallel_load_balancing.EventCount.Inv.{word-counts}
use parallel_load_balancing.EventCount.WakeUp.{IsDue, asleep-IsDue}

-- Thread 2 of 3 goes to sleep; thread 5 notifies.
abbrev s₁ : System
s₁ = record initial { word = 1; waiters = update initial.waiters 2 (prepared 0) }

abbrev s₂ : System
s₂ = record s₁ { waiters = update s₁.waiters 2 (comparing 0) }

abbrev s₃ : System
s₃ = record s₂ { waiters = update s₂.waiters 2 (asleep 0) }

abbrev s₄ : System
s₄ = record s₃ { word = 4294967297; notifiers = update s₃.notifiers 5 waking_all }

run : Reach 3 (notified_all ∷ inner ∷ inner ∷ inner ∷ []) s₄
unfolding ℕ_discrete
run =
    step
      (step (step (step start (prepare_wait 2 (omega arith) refl)) (wait 2 refl))
        (compare_epoch 2 refl))
      (notify_all 5 refl)

word-counts_example :
    (bit_and 4294967297 k_waiter_mask ≡ waiting s₄.waiters 3)
    × (epoch_of 4294967297 ≡ 1 % k_add_epoch)
word-counts_example = word-counts (omega arith) run

asleep-IsDue_example :
    IsDue (notified_all ∷ inner ∷ inner ∷ inner ∷ []) (update s₃.notifiers 5 waking_all) 0
unfolding ℕ_discrete
asleep-IsDue_example = asleep-IsDue (omega arith) run refl 2 0 refl
