-- ===== src/Mapping/Laws.antt =====
-- The output of `lf::map`, whatever the order of its calls.
use parallel_load_balancing.Common.{
  ℕ, zero, suc, ◌+◌, ◌-◌, ◌/◌, ◌≤◌, ◌≡◌, refl, ap, ap₂, ◌∙◌, [], ◌∷◌, ◌++◌, leb, if_intro, ◌==◌,
  arith, length,
}
use parallel_load_balancing.Tasks.{Work, chunk, par, items, IsGrained}
use parallel_load_balancing.Mapping.{calls, map_chunks, map_single, map_range}

calls-append :
    (head out m n mid out' len : ℕ)
    → mid ≡ head + m
    → out' ≡ out + m
    → len ≡ m + n
    → calls head out m ++ calls mid out' n ≡ calls head out len
calls-append head out zero n mid out' len e g f =
    let e' : mid ≡ head = omega (arith, e) in
    let g' : out' ≡ out = omega (arith, g) in
    let f' : len ≡ n = omega (arith, f) in rw (e', g', f') refl
calls-append head out (suc m) n mid out' len e g f =
    let f' : len ≡ suc (m + n) = omega (arith, f) in
    let tail =
      calls-append (suc head) (suc out) m n mid out' (m + n) (omega (arith, e)) (omega (arith, g))
        refl in
    rw f' (ap (λ xs. (head, out) ∷ xs) tail)

length-calls : (head out len : ℕ) → length (calls head out len) ≡ len
length-calls head out zero = refl
length-calls head out (suc len) = ap suc (length-calls (suc head) (suc out) len)

-- What a task for the range owes: all of it in order, in chunks of at most `n`.
abbrev pub Covers : ℕ → ℕ → ℕ → ℕ → Work (ℕ × ℕ) → Type 0
Covers head out len n w = (items w ≡ calls head out len) × IsGrained n w

chunk-Covers : (head out len n : ℕ) → len ≤ n → Covers head out len n (chunk (calls head out len))
chunk-Covers head out len n l = (refl, omega (arith, length-calls head out len))

nil-Covers : (head out len n : ℕ) → len ≡ 0 → Covers head out len n (chunk [])
nil-Covers head out len n e = rw e (refl, omega arith)

par-Covers :
    (head dif tail out n : ℕ) (a b : Work (ℕ × ℕ))
    → head + dif ≤ tail
    → Covers head out (head + dif - head) n a
    → Covers (head + dif) (out + dif) (tail - (head + dif)) n b
    → Covers head out (tail - head) n (par a b)
par-Covers head dif tail out n a b k (p, g) (q, g') = (
  ap₂ ◌++◌ p q
      ∙ calls-append head out (head + dif - head) (tail - (head + dif)) (head + dif) (out + dif)
          (tail - head) (omega arith) (omega arith) (omega arith),
  (g, g'),
)

map_chunks-Covers :
    (fuel head tail out n : ℕ)
    → 1 ≤ n
    → head ≤ tail
    → tail - head ≤ fuel
    → Covers head out (tail - head) n (map_chunks fuel head tail out n)
unfolding map_chunks
map_chunks-Covers zero head tail out n p h l =
    nil-Covers head out (tail - head) n (omega (arith, l))
map_chunks-Covers (suc fuel) head tail out n p h l =
    let dif = (tail - head) / 2 in
    let C = Covers head out (tail - head) n in
    let left = map_chunks-Covers fuel head (head + dif) out n p (omega arith) in
    let right = map_chunks-Covers fuel (head + dif) tail (out + dif) n p (omega arith) in
    if_intro C (tail - head == 0) (λ z. nil-Covers head out (tail - head) n (ground (arith, z)))
      (λ z.
        if_intro C (leb (tail - head) n)
          (λ s. chunk-Covers head out (tail - head) n (ground (arith, s)))
          (λ s.
            par-Covers head dif tail out n _ _ (omega arith) (left (ground (arith, s, p, l)))
              (right (ground (arith, s, p, l)))))

map_single-Covers :
    (fuel head tail out : ℕ)
    → head ≤ tail
    → tail - head ≤ fuel
    → Covers head out (tail - head) 1 (map_single fuel head tail out)
unfolding map_single
map_single-Covers zero head tail out h l = nil-Covers head out (tail - head) 1 (omega (arith, l))
map_single-Covers (suc fuel) head tail out h l =
    let dif = (tail - head) / 2 in
    let C = Covers head out (tail - head) 1 in
    let left = map_single-Covers fuel head (head + dif) out (omega arith) in
    let right = map_single-Covers fuel (head + dif) tail (out + dif) (omega arith) in
    if_intro C (tail - head == 0) (λ z. nil-Covers head out (tail - head) 1 (ground (arith, z)))
      (λ z.
        if_intro C (tail - head == 1)
          (λ s.
            let e : tail - head ≡ 1 = ground (arith, s) in
            rw e (chunk-Covers head out 1 1 (omega arith)))
          (λ s.
            par-Covers head dif tail out 1 _ _ (omega arith) (left (ground (arith, z, s, l)))
              (right (ground (arith, z, s, l)))))

pub map_range-Covers :
    (head tail out n : ℕ)
    → 1 ≤ n
    → head ≤ tail
    → Covers head out (tail - head) n (map_range head tail out n)
unfolding map_range
map_range-Covers head tail out n p h =
    if_intro (Covers head out (tail - head) n) (n == 1)
      (λ e.
        let one : n ≡ 1 = ground (arith, e) in
        rw one (map_single-Covers (tail - head) head tail out h (omega arith)))
      (λ e. map_chunks-Covers (tail - head) head tail out n p h (omega arith))
