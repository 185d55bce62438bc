-- ===== src/LazyPool/Totals.antt =====
-- Sums over the workers of a pool.
use parallel_load_balancing.Common.Family.{update, update_self, update_other}
use parallel_load_balancing.Common.{
  ℕ, zero, suc, ◌+◌, ◌≤◌, ◌<◌, ◌≡◌, ◌≢◌, refl, ap, arith, ℕ_discrete,
}

abbrev pub total : (ℕ → ℕ) → ℕ → ℕ
total f zero = 0
total f (suc n) = f n + total f n

pub total-le : (f g : ℕ → ℕ) (n : ℕ) → ((k : ℕ) → k < n → f k ≤ g k) → total f n ≤ total g n
total-le f g zero h = omega arith
total-le f g (suc n) h =
    omega (arith, h n (omega arith), total-le f g n (λ k l. h k (omega (arith, l))))

pub total-eq : (f g : ℕ → ℕ) (n : ℕ) → ((k : ℕ) → k < n → f k ≡ g k) → total f n ≡ total g n
total-eq f g zero h = refl
total-eq f g (suc n) h =
    omega (arith, h n (omega arith), total-eq f g n (λ k l. h k (omega (arith, l))))

pub total-zero : (f : ℕ → ℕ) (n : ℕ) → ((k : ℕ) → k < n → f k ≡ 0) → total f n ≡ 0
total-zero f zero h = refl
total-zero f (suc n) h =
    omega (arith, h n (omega arith), total-zero f n (λ k l. h k (omega (arith, l))))

pub total-ge : (f : ℕ → ℕ) (n t : ℕ) → t < n → f t ≤ total f n
total-ge f zero t l = absurd (omega arith)
total-ge f (suc n) t l = elim (ℕ_discrete t n) [
  | yes e ↦ omega (arith, ap f e)
  | no ne ↦ omega (arith, total-ge f n t (omega (arith, l, ne)))
]

-- Two families that differ at one index.
pub total-change :
    (f g : ℕ → ℕ) (n t : ℕ)
    → t < n
    → ((k : ℕ) → t ≢ k → f k ≡ g k)
    → total f n + g t ≡ total g n + f t
total-change f g zero t l h = absurd (omega arith)
total-change f g (suc n) t l h = elim (ℕ_discrete t n) [
  | yes e ↦
      let rest : total f n ≡ total g n =
        total-eq f g n (λ k m. h k (λ q. omega (arith, q, e, m))) in
      omega (arith, rest, ap f e, ap g e)
  | no ne ↦ omega (arith, h n ne, total-change f g n t (omega (arith, l, ne)) h)
]

-- Of a family of workers that is updated at one index.
pub total-update {ℓ} :
    {A : Type ℓ} (F : ℕ → A → ℕ) (f : ℕ → A) (n t : ℕ) (a : A)
    → t < n
    → total (λ k. F k (update f t a k)) n + F t (f t) ≡ total (λ k. F k (f k)) n + F t a
total-update F f n t a l =
    let change =
      total-change (λ k. F k (update f t a k)) (λ k. F k (f k)) n t l
        (λ k ne. ap (F k) (update_other f t a ne)) in
    omega (arith, change, ap (F t) (update_self f t a))
