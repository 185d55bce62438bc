-- ===== src/EventCount/Word.antt =====
-- The two halves of the word.
use parallel_load_balancing.Common.{ℕ, suc, ◌+◌, ◌*◌, ◌%◌, ◌<◌, ◌≡◌, arith}
use parallel_load_balancing.EventCount.{
  k_add_waiter, k_sub_waiter, k_add_epoch, fetch_add, epoch_of,
}

-- The word for n notifications, of which the epoch counts the last 2^32, and c waiters.
abbrev pub word_of : ℕ → ℕ → ℕ
word_of n c = k_add_epoch * (n % k_add_epoch) + c

pub add_waiter :
    (n c : ℕ) → suc c < k_add_epoch → fetch_add (word_of n c) k_add_waiter ≡ word_of n (suc c)
add_waiter n c h = omega arith

pub sub_waiter :
    (n c : ℕ) → suc c < k_add_epoch → fetch_add (word_of n (suc c)) k_sub_waiter ≡ word_of n c
sub_waiter n c h = omega arith

pub add_epoch :
    (n c : ℕ) → c < k_add_epoch → fetch_add (word_of n c) k_add_epoch ≡ word_of (suc n) c
add_epoch n c h = omega arith

pub epoch_of-word_of : (n c : ℕ) → c < k_add_epoch → epoch_of (word_of n c) ≡ n % k_add_epoch
epoch_of-word_of n c h = omega arith

pub word_of-waiters : (n c : ℕ) → c < k_add_epoch → word_of n c % k_add_epoch ≡ c
word_of-waiters n c h = omega arith
