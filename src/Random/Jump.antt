-- ===== src/Random/Jump.antt =====
-- The states of the generator; a step goes with exclusive or.
use Prim.Native.Nat.{bit_xor}
use parallel_load_balancing.Common.{
  ℕ, zero, suc, ◌+◌, ◌^◌, ◌<◌, ◌≡◌, ◌≢◌, refl, sym, ap, ap₂, ◌∙◌, arith,
}
use parallel_load_balancing.Common.Words.{shl}
use parallel_load_balancing.Common.Rotations.{
  rotl, xor_interchange, xor_lt, shl-xor, rotl-xor, rotl_lt, shl_lt, eq_of_xor, zero_of_rotl,
  shl_fixed,
}
use parallel_load_balancing.Random.{Xoshiro, advance, xor_state, zeros}

-- Every element of the state is a word of 64 bits.
pub record IsState (s : Xoshiro) : Type 0 where
  pub word0 : s.s0 < 2 ^ 64
  pub word1 : s.s1 < 2 ^ 64
  pub word2 : s.s2 < 2 ^ 64
  pub word3 : s.s3 < 2 ^ 64

pub xor_state-IsState : (s t : Xoshiro) → IsState s → IsState t → IsState (xor_state s t)
xor_state-IsState s t v u = record {
  word0 = xor_lt 64 s.s0 t.s0 v.word0 u.word0;
  word1 = xor_lt 64 s.s1 t.s1 v.word1 u.word1;
  word2 = xor_lt 64 s.s2 t.s2 v.word2 u.word2;
  word3 = xor_lt 64 s.s3 t.s3 v.word3 u.word3;
}

pub advance-IsState : (s : Xoshiro) → IsState s → IsState (advance s)
unfolding advance
advance-IsState s v =
    let s2 = xor_lt 64 s.s2 s.s0 v.word2 v.word0 in
    let s3 = xor_lt 64 s.s3 s.s1 v.word3 v.word1 in
    record {
      word0 = xor_lt 64 s.s0 (bit_xor s.s3 s.s1) v.word0 s3;
      word1 = xor_lt 64 s.s1 (bit_xor s.s2 s.s0) v.word1 s2;
      word2 = xor_lt 64 (bit_xor s.s2 s.s0) (shl 64 s.s1 17) s2 (shl_lt 64 17 s.s1);
      word3 = rotl_lt 64 45 (bit_xor s.s3 s.s1) (omega arith) s3;
    }

pub state_eq : {s t : Xoshiro} → s.s0 ≡ t.s0 → s.s1 ≡ t.s1 → s.s2 ≡ t.s2 → s.s3 ≡ t.s3 → s ≡ t
state_eq a b c d = λ i. record { s0 = a i; s1 = b i; s2 = c i; s3 = d i }

-- A step is linear.
pub advance-xor_state :
    (s t : Xoshiro)
    → IsState s
    → IsState t
    → advance (xor_state s t) ≡ xor_state (advance s) (advance t)
unfolding advance
advance-xor_state s t v u =
    let two = xor_interchange s.s2 t.s2 s.s0 t.s0 in
    let three = xor_interchange s.s3 t.s3 s.s1 t.s1 in
    state_eq
      (ap (bit_xor (bit_xor s.s0 t.s0)) three
        ∙ xor_interchange s.s0 t.s0 (bit_xor s.s3 s.s1) (bit_xor t.s3 t.s1))
      (ap (bit_xor (bit_xor s.s1 t.s1)) two
        ∙ xor_interchange s.s1 t.s1 (bit_xor s.s2 s.s0) (bit_xor t.s2 t.s0))
      (ap₂ bit_xor two (shl-xor 64 17 s.s1 t.s1)
        ∙ xor_interchange (bit_xor s.s2 s.s0) (bit_xor t.s2 t.s0) (shl 64 s.s1 17) (shl 64 t.s1 17))
      (ap (λ x. rotl 64 x 45) three
        ∙ rotl-xor 64 45 (bit_xor s.s3 s.s1) (bit_xor t.s3 t.s1) (omega arith)
            (xor_lt 64 s.s3 s.s1 v.word3 v.word1) (xor_lt 64 t.s3 t.s1 u.word3 u.word1))

pub advance-zeros : advance zeros ≡ zeros
unfolding advance
advance-zeros = refl

pub zeros-IsState : IsState zeros
zeros-IsState = omega arith

-- The state after `n` numbers.
unfoldable pub advance_by : ℕ → Xoshiro → Xoshiro
advance_by zero m = m
advance_by (suc n) m = advance_by n (advance m)

pub advance_by-add : (n k : ℕ) (m : Xoshiro) → advance_by n (advance_by k m) ≡ advance_by (k + n) m
unfolding advance_by
advance_by-add n zero m = let same : n ≡ 0 + n = omega arith in ap (λ i. advance_by i m) same
advance_by-add n (suc k) m =
    let next : suc (k + n) ≡ suc k + n = omega arith in
    advance_by-add n k (advance m) ∙ ap (λ i. advance_by i m) next

pub advance_by-one : (m : Xoshiro) → advance_by 1 m ≡ advance m
unfolding advance_by
advance_by-one m = refl

pub advance_by-IsState : (n : ℕ) (m : Xoshiro) → IsState m → IsState (advance_by n m)
unfolding advance_by
advance_by-IsState zero m v = v
advance_by-IsState (suc n) m v = advance_by-IsState n (advance m) (advance-IsState m v)

advance-eq-zeros : (s : Xoshiro) → IsState s → advance s ≡ zeros → s ≡ zeros
unfolding advance
advance-eq-zeros s v e =
    let x2 = bit_xor s.s2 s.s0 in
    let x3 = bit_xor s.s3 s.s1 in
    let no3 : x3 ≡ 0 =
      zero_of_rotl 64 45 x3 (omega arith) (xor_lt 64 s.s3 s.s1 v.word3 v.word1)
        (ap (λ r. r.s3) e) in
    let same0 : s.s0 ≡ x3 = eq_of_xor s.s0 x3 (ap (λ r. r.s0) e) in
    let same1 : s.s1 ≡ x2 = eq_of_xor s.s1 x2 (ap (λ r. r.s1) e) in
    let same2 : x2 ≡ shl 64 s.s1 17 = eq_of_xor x2 (shl 64 s.s1 17) (ap (λ r. r.s2) e) in
    let no1 : s.s1 ≡ 0 = shl_fixed 64 17 s.s1 (omega arith) (same1 ∙ same2) v.word1 in
    let no0 : s.s0 ≡ 0 = same0 ∙ no3 in
    let pair3 : s.s3 ≡ s.s1 = eq_of_xor s.s3 s.s1 no3 in
    let pair2 : s.s2 ≡ s.s0 = eq_of_xor s.s2 s.s0 (sym same1 ∙ no1) in
    state_eq no0 no1 (pair2 ∙ no0) (pair3 ∙ no1)

-- From a seed of words of 64 bits that is not everywhere zero, no state of the generator is
-- everywhere zero, and all have words of 64 bits.
pub advance_by-ne-zeros :
    (n : ℕ) (m : Xoshiro)
    → IsState m
    → m ≢ zeros
    → (advance_by n m ≢ zeros) × IsState (advance_by n m)
unfolding advance_by
advance_by-ne-zeros zero m v ne = (ne, v)
advance_by-ne-zeros (suc n) m v ne =
    advance_by-ne-zeros n (advance m) (advance-IsState m v) (λ e. ne (advance-eq-zeros m v e))
