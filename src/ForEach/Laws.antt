-- ===== src/ForEach/Laws.antt =====
-- The visits of `lf::for_each`, and the lengths of its chunks.
use mathlib.Core.Path.{subst}
use mathlib.Core.List.{Perm}
use parallel_load_balancing.Common.{
  ℕ, zero, suc, ◌+◌, ◌-◌, ◌/◌, ◌≤◌, ◌≡◌, refl, ap₂, ◌∙◌, List, [], ◌++◌, leb, if_intro, arith, ◌==◌,
}
use parallel_load_balancing.Tasks.{Work, chunk, par, Runs, items, indices, IsGrained}
use parallel_load_balancing.Tasks.Laws.{Runs-perm, Runs-items, indices-append, length-indices}
use parallel_load_balancing.ForEach.{for_each_chunks, for_each_single, for_each}

-- What a task for the range owes: all of it in order, in chunks of at most `n`.
abbrev Covers : ℕ → ℕ → ℕ → Work ℕ → Type 0
Covers head len n w = (items w ≡ indices head len) × IsGrained n w

chunk-Covers : (head len n : ℕ) → len ≤ n → Covers head len n (chunk (indices head len))
chunk-Covers head len n l = (refl, omega (arith, length-indices head len))

par-Covers :
    (head mid tail n : ℕ) (a b : Work ℕ)
    → head ≤ mid
    → mid ≤ tail
    → Covers head (mid - head) n a
    → Covers mid (tail - mid) n b
    → Covers head (tail - head) n (par a b)
par-Covers head mid tail n a b h k (p, g) (q, g') = (
  ap₂ ◌++◌ p q
      ∙ indices-append head (mid - head) (tail - mid) mid (tail - head) (omega arith) (omega arith),
  (g, g'),
)

nil-Covers : (head len n : ℕ) → len ≡ 0 → Covers head len n (chunk [])
nil-Covers head len n e = rw e (refl, omega arith)

for_each_chunks-Covers :
    (fuel head tail n : ℕ)
    → 1 ≤ n
    → head ≤ tail
    → tail - head ≤ fuel
    → Covers head (tail - head) n (for_each_chunks fuel head tail n)
unfolding for_each_chunks
for_each_chunks-Covers zero head tail n p h l = nil-Covers head (tail - head) n (omega (arith, l))
for_each_chunks-Covers (suc fuel) head tail n p h l =
    let mid = head + (tail - head) / 2 in
    let C = Covers head (tail - head) n in
    let left = for_each_chunks-Covers fuel head mid n p (omega arith) in
    let right = for_each_chunks-Covers fuel mid tail n p (omega arith) in
    if_intro C (tail - head == 0) (λ z. nil-Covers head (tail - head) n (ground (arith, z)))
      (λ z.
        if_intro C (leb (tail - head) n)
          (λ s. chunk-Covers head (tail - head) n (ground (arith, s)))
          (λ s.
            par-Covers head mid tail n _ _ (omega arith) (omega arith)
              (left (ground (arith, s, p, l))) (right (ground (arith, s, p, l)))))

for_each_single-Covers :
    (fuel head tail : ℕ)
    → head ≤ tail
    → tail - head ≤ fuel
    → Covers head (tail - head) 1 (for_each_single fuel head tail)
unfolding for_each_single
for_each_single-Covers zero head tail h l = nil-Covers head (tail - head) 1 (omega (arith, l))
for_each_single-Covers (suc fuel) head tail h l =
    let mid = head + (tail - head) / 2 in
    let C = Covers head (tail - head) 1 in
    let left = for_each_single-Covers fuel head mid (omega arith) in
    let right = for_each_single-Covers fuel mid tail (omega arith) in
    if_intro C (tail - head == 0) (λ z. nil-Covers head (tail - head) 1 (ground (arith, z)))
      (λ z.
        if_intro C (tail - head == 1)
          (λ s.
            let e : tail - head ≡ 1 = ground (arith, s) in
            rw e (chunk-Covers head 1 1 (omega arith)))
          (λ s.
            par-Covers head mid tail 1 _ _ (omega arith) (omega arith)
              (left (ground (arith, z, s, l))) (right (ground (arith, z, s, l)))))

for_each-Covers :
    (head tail n : ℕ) → 1 ≤ n → head ≤ tail → Covers head (tail - head) n (for_each head tail n)
unfolding for_each
for_each-Covers head tail n p h =
    if_intro (Covers head (tail - head) n) (n == 1)
      (λ e.
        let one : n ≡ 1 = ground (arith, e) in
        rw one (for_each_single-Covers (tail - head) head tail h (omega arith)))
      (λ e. for_each_chunks-Covers (tail - head) head tail n p h (omega arith))

-- For a chunk size of at least 1, `for_each` visits each element of the range once and in no other
-- position, in whatever order the workers run its tasks, and can run from front to back; none of
-- its chunks is longer than the chunk size.
pub for_each-Runs :
    (head tail n : ℕ)
    → 1 ≤ n
    → head ≤ tail
    → Runs ℕ (for_each head tail n) (indices head (tail - head))
      × ((order : List ℕ)
          → Runs ℕ (for_each head tail n) order
          → Perm order (indices head (tail - head)))
      × IsGrained n (for_each head tail n)
for_each-Runs head tail n p h =
    let (e, g) = for_each-Covers head tail n p h in
    (
      subst (Runs ℕ (for_each head tail n)) e (Runs-items (for_each head tail n)),
      λ order r. subst (Perm order) e (Runs-perm r),
      g,
    )
