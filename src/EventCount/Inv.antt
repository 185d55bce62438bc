-- ===== src/EventCount/Inv.antt =====
-- The count of waiters, and who sleeps.
use Prim.Native.Nat.{bit_and}
use parallel_load_balancing.Common.{
  ℕ, zero, suc, ◌+◌, ◌%◌, ◌≤◌, ◌<◌, ◌≡◌, ◌≢◌, refl, sym, ap, ◌∙◌, List, ◌∷◌, if◌then◌else◌, ◌==◌,
  arith, if_intro, dec_lt, ℕ_discrete,
}
use parallel_load_balancing.Common.Bits.{bit_and_mask}
use parallel_load_balancing.Common.Family.{update, update_self, update_other}
use parallel_load_balancing.EventCount.{
  k_add_waiter, k_sub_waiter, k_add_epoch, k_waiter_mask, fetch_add, epoch_of, Waiter, outside,
  prepared, comparing, asleep, leaving, woken, System, Event, inner, Step, prepare_wait,
  cancel_wait, wait, compare_epoch, leave, notify_one, notify_all, wake_one, wake_none, wake_all,
  Reach, start, step, notifications, counts, waiting,
}
use parallel_load_balancing.EventCount.Word.{
  word_of, add_waiter, sub_waiter, add_epoch, epoch_of-word_of, word_of-waiters,
}

counts-le : (w : Waiter) → counts w ≤ 1
counts-le outside = omega arith
counts-le (prepared key) = omega arith
counts-le (comparing key) = omega arith
counts-le (asleep key) = omega arith
counts-le leaving = omega arith

counts-woken : (w : Waiter) → counts (woken w) ≡ counts w
counts-woken outside = refl
counts-woken (prepared key) = refl
counts-woken (comparing key) = refl
counts-woken (asleep key) = refl
counts-woken leaving = refl

pub waiting-le : (f : ℕ → Waiter) (limit : ℕ) → waiting f limit ≤ limit
waiting-le f zero = omega arith
waiting-le f (suc limit) = omega (arith, counts-le (f limit), waiting-le f limit)

pub waiting-ge : (f : ℕ → Waiter) (limit t : ℕ) → t < limit → counts (f t) ≤ waiting f limit
waiting-ge f zero t h = absurd (omega arith)
waiting-ge f (suc limit) t h = elim (ℕ_discrete t limit) [
  | yes e ↦ omega (arith, ap (λ k. counts (f k)) e)
  | no ne ↦ omega (arith, waiting-ge f limit t (omega (arith, h, ne)))
]

waiting-woken : (f : ℕ → Waiter) (limit : ℕ) → waiting (λ t. woken (f t)) limit ≡ waiting f limit
waiting-woken f zero = refl
waiting-woken f (suc limit) = omega (arith, counts-woken (f limit), waiting-woken f limit)

-- Beyond the limit an update is not counted.
waiting-update_beyond :
    (f : ℕ → Waiter) (limit t : ℕ) (w : Waiter)
    → limit ≤ t
    → waiting (update f t w) limit ≡ waiting f limit
waiting-update_beyond f zero t w h = refl
waiting-update_beyond f (suc limit) t w h =
    let apart : t ≢ limit = ground arith in
    omega (
      arith,
      ap counts (update_other f t w apart),
      waiting-update_beyond f limit t w (omega (arith, h)),
    )

waiting-update :
    (f : ℕ → Waiter) (limit t : ℕ) (w : Waiter)
    → t < limit
    → waiting (update f t w) limit + counts (f t) ≡ waiting f limit + counts w
waiting-update f zero t w h = absurd (omega arith)
waiting-update f (suc limit) t w h = elim (ℕ_discrete t limit) [
  | yes e ↦
      let here : counts (update f t w limit) ≡ counts w =
        ap (λ k. counts (update f t w k)) (sym e) ∙ ap counts (update_self f t w) in
      let same : counts (f t) ≡ counts (f limit) = ap (λ k. counts (f k)) e in
      omega (arith, here, same, waiting-update_beyond f limit t w (omega (arith, e)))
  | no ne ↦
      let there : counts (update f t w limit) ≡ counts (f limit) =
        ap counts (update_other f t w ne) in
      omega (arith, there, waiting-update f limit t w (omega (arith, h, ne)))
]

pub record Inv (limit : ℕ) (es : List Event) (s : System) : Type 0 where
  pub word : s.word ≡ word_of (notifications es) (waiting s.waiters limit)
  pub inside : (t : ℕ) → limit ≤ t → s.waiters t ≡ outside

module _ {limit : ℕ} {es : List Event} {s : System} (small : limit < k_add_epoch)
    (v : Inv limit es s) where
  pub below : (t : ℕ) → s.waiters t ≢ outside → t < limit
  below t ne = elim (dec_lt t limit) [
    | yes h ↦ h
    | no h ↦ absurd (ne (v.inside t (omega (arith, h))))
  ]

  -- A thread that goes on waiting, or that was waiting and does not any more.
  move :
      (t : ℕ) (w : Waiter) (word : ℕ)
      → t < limit
      → word ≡ word_of (notifications es) (waiting (update s.waiters t w) limit)
      → Inv limit (inner ∷ es) (record s { word = word; waiters = update s.waiters t w })
  move t w word h e = record {
    word = e;
    inside = λ u far. update_other s.waiters t w (λ q. omega (arith, q, h, far)) ∙ v.inside u far;
  }

  stay :
      (t : ℕ) (w : Waiter)
      → t < limit
      → counts w ≡ counts (s.waiters t)
      → Inv limit (inner ∷ es) (record s { waiters = update s.waiters t w })
  stay t w h same =
      let e : waiting s.waiters limit ≡ waiting (update s.waiters t w) limit =
        omega (arith, waiting-update s.waiters limit t w h, same) in
      move t w s.word h (v.word ∙ ap (word_of (notifications es)) e)

  enter :
      (t : ℕ) (w : Waiter)
      → t < limit
      → counts w ≡ suc (counts (s.waiters t))
      → Inv limit
          (inner ∷ es)
          (record s { word = fetch_add s.word k_add_waiter; waiters = update s.waiters t w })
  enter t w h more =
      let c = waiting s.waiters limit in
      let e : suc c ≡ waiting (update s.waiters t w) limit =
        omega (arith, waiting-update s.waiters limit t w h, more) in
      let room : suc c < k_add_epoch =
        omega (arith, e, waiting-le (update s.waiters t w) limit, small) in
      move t w (fetch_add s.word k_add_waiter) h (
        ap (λ x. fetch_add x k_add_waiter) v.word
        ∙ add_waiter (notifications es) c room
        ∙ ap (word_of (notifications es)) e)

  exit :
      (t : ℕ)
      → counts (s.waiters t) ≡ 1
      → s.waiters t ≢ outside
      → Inv limit
          (inner ∷ es)
          (record s { word = fetch_add s.word k_sub_waiter; waiters = update s.waiters t outside })
  exit t one ne =
      let h = below t ne in
      let c = waiting (update s.waiters t outside) limit in
      let e : waiting s.waiters limit ≡ suc c =
        omega (arith, waiting-update s.waiters limit t outside h, one) in
      let room : suc c < k_add_epoch = omega (arith, e, waiting-le s.waiters limit, small) in
      move t outside (fetch_add s.word k_sub_waiter) h (
        ap (λ x. fetch_add x k_sub_waiter) (v.word ∙ ap (word_of (notifications es)) e)
        ∙ sub_waiter (notifications es) c room)

  notified :
      s.word ≡ word_of (notifications es) (waiting s.waiters limit)
      → fetch_add s.word k_add_epoch ≡ word_of (suc (notifications es)) (waiting s.waiters limit)
  notified e =
      ap (λ x. fetch_add x k_add_epoch) e
      ∙ add_epoch (notifications es) (waiting s.waiters limit)
          (omega (arith, waiting-le s.waiters limit, small))

Step-Inv :
    {limit : ℕ} {es : List Event} {e : Event} {s t : System}
    → limit < k_add_epoch
    → Inv limit es s
    → Step limit s e t
    → Inv limit (e ∷ es) t
Step-Inv {s} small v (prepare_wait t h at) =
    enter small v t (prepared (epoch_of s.word)) h (sym (ap (λ w. suc (counts w)) at))
Step-Inv small v (cancel_wait t at) = exit small v t (ap counts at) (λ e. ground (arith, at, e))
Step-Inv small v (wait t {key} at) =
    stay small v t (comparing key) (below small v t (λ e. ground (arith, at, e)))
      (sym (ap counts at))
Step-Inv {s} small v (compare_epoch t {key} at) =
    stay small v t (if epoch_of s.word == key then asleep key else leaving)
      (below small v t (λ e. ground (arith, at, e)))
      (if_intro (λ w. counts w ≡ counts (s.waiters t)) (epoch_of s.word == key)
        (λ _. sym (ap counts at)) (λ _. sym (ap counts at)))
Step-Inv small v (leave t at) = exit small v t (ap counts at) (λ e. ground (arith, at, e))
Step-Inv small v (notify_one u at) = record { word = notified small v v.word; inside = v.inside }
Step-Inv small v (notify_all u at) = record { word = notified small v v.word; inside = v.inside }
Step-Inv {s} small v (wake_one u t {key} busy at) =
    let w =
      stay small v t (comparing key) (below small v t (λ e. ground (arith, at, e)))
        (sym (ap counts at)) in
    record { word = w.word; inside = w.inside }
Step-Inv small v (wake_none u busy none_asleep) = record { word = v.word; inside = v.inside }
Step-Inv {limit} {es} {s} small v (wake_all u busy) = record {
  word = v.word ∙ ap (word_of (notifications es)) (sym (waiting-woken s.waiters limit));
  inside = λ t far. ap woken (v.inside t far);
}

nobody : (limit : ℕ) → waiting (λ t. outside) limit ≡ 0
nobody zero = refl
nobody (suc limit) = omega (arith, nobody limit)

pub Reach-Inv :
    {limit : ℕ} {es : List Event} {s : System}
    → limit < k_add_epoch
    → Reach limit es s
    → Inv limit es s
Reach-Inv {limit} small start = record {
  word = ap (word_of 0) (sym (nobody limit));
  inside = λ t far. refl;
}
Reach-Inv small (step r h) = Step-Inv small (Reach-Inv small r) h

-- In every execution with fewer than 2^32 threads that wait, the low half of the word is the number
-- of threads between `prepare_wait` and the end of `cancel_wait` or `wait`, so that it is not zero
-- when one of them takes itself off, and the high half is the number of notifications modulo 2^32.
pub word-counts :
    {limit : ℕ} {es : List Event} {s : System}
    → limit < k_add_epoch
    → Reach limit es s
    → (bit_and s.word k_waiter_mask ≡ waiting s.waiters limit)
      × (epoch_of s.word ≡ notifications es % k_add_epoch)
word-counts {limit} {es} {s} small r =
    let v = Reach-Inv small r in
    let room : waiting s.waiters limit < k_add_epoch =
      omega (arith, waiting-le s.waiters limit, small) in
    (
      bit_and_mask 32 s.word
          ∙ ap (λ w. w % k_add_epoch) v.word
          ∙ word_of-waiters (notifications es) (waiting s.waiters limit) room,
      ap epoch_of v.word ∙ epoch_of-word_of (notifications es) (waiting s.waiters limit) room,
    )
