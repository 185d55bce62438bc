-- ===== src/Eventually/Refine.antt =====
-- What an eventual value promises: it is empty, holds a value or holds an exception.
use parallel_load_balancing.Common.{
  ℕ, ◌≡◌, refl, Bool, true, false, Option, none, some, List, [], ◌∷◌, arith, inl, inr,
  if◌then◌else◌, ◌>>=◌, Option-cases,
}
use parallel_load_balancing.Eventually.{
  Kind, is_void, is_ref, is_val, value_state, exception_state, Member, m_empty, m_value,
  m_exception, Eventually, Destroyed, nothing, the_value, the_exception, allowed, make, empty,
  has_value, has_exception, assign, stash_exception, deref, exception, destroyed, destroy, flagged,
  Operation, assigns, stashes, apply,
}

pub data Outcome : Type 0 where
  pending : Outcome
  returned : (v : ℕ) → Outcome
  threw : (e : ℕ) → Outcome

-- A value whose constructor throws leaves it empty.
abbrev perform : Kind → Bool → Operation → Outcome → Option Outcome
perform is_void throws (assigns v constructed) pending = none
perform is_ref throws (assigns v constructed) pending = some (returned v)
perform is_val throws (assigns v constructed) pending =
    some (if constructed then returned v else pending)
perform kind throws (stashes e) pending = if throws then some (threw e) else none
perform kind throws op o = none

abbrev is_pending : Outcome → Bool
is_pending pending = true
is_pending o = false

abbrev result : Outcome → Option ℕ
result (returned v) = some v
result o = none

abbrev thrown : Outcome → Option ℕ
thrown (threw e) = some e
thrown o = none

abbrev is_some : Option ℕ → Bool
is_some none = false
is_some (some v) = true

-- The member that is alive, with what a value or an exception needs no destructor for left out.
abbrev alive : Member → Destroyed
alive m_empty = nothing
alive (m_value v) = the_value
alive (m_exception e) = the_exception

-- The destructor destroys the member that is alive; an address on its own needs none.
abbrev Destroys : Kind → Bool → Eventually → Type 0
Destroys is_ref false s = destroy is_ref false s ≡ nothing
Destroys kind throws s = destroy kind throws s ≡ alive s.member

pub record Represents (kind : Kind) (throws : Bool) (s : Eventually) (o : Outcome) : Type 0 where
  pub is_empty : empty kind throws s ≡ is_pending o
  pub holds_value :
      has_value kind throws s ≡ (elim kind [ is_void ↦ none | other ↦ some (is_some (result o)) ])
  pub holds_exception :
      has_exception kind throws s ≡ (if throws then some (is_some (thrown o)) else none)
  pub its_value : deref kind throws s ≡ result o
  pub its_exception : exception kind throws s ≡ thrown o
  pub destroys : Destroys kind throws s

-- Where T is void there is no value; an exception is kept only if the class says so.
abbrev fits : Kind → Bool → Outcome → Bool
fits is_void throws (returned v) = false
fits kind throws (threw e) = throws
fits kind throws o = true

abbrev concrete : Kind → Bool → Outcome → Eventually
concrete kind throws pending = make kind throws
concrete kind throws (returned v) = record {
  member = m_value (some v);
  flag = flagged kind throws value_state;
}
concrete kind throws (threw e) = record {
  member = m_exception (some e);
  flag = flagged kind throws exception_state;
}

concrete-Represents :
    (kind : Kind) (throws : Bool) (o : Outcome)
    → allowed kind throws ≡ true
    → fits kind throws o ≡ true
    → Represents kind throws (concrete kind throws o) o
unfolding make empty has_value has_exception deref exception destroy destroyed
concrete-Represents is_void true pending a h = ground arith
concrete-Represents is_void true (threw e) a h = ground arith
concrete-Represents is_void true (returned v) a h = absurd (ground (arith, h))
concrete-Represents is_void false o a h = absurd (ground (arith, a))
concrete-Represents is_ref true pending a h = ground arith
concrete-Represents is_ref true (returned v) a h = ground arith
concrete-Represents is_ref true (threw e) a h = ground arith
concrete-Represents is_ref false pending a h = ground arith
concrete-Represents is_ref false (returned v) a h = ground arith
concrete-Represents is_ref false (threw e) a h = absurd (ground (arith, h))
concrete-Represents is_val true pending a h = ground arith
concrete-Represents is_val true (returned v) a h = ground arith
concrete-Represents is_val true (threw e) a h = ground arith
concrete-Represents is_val false pending a h = ground arith
concrete-Represents is_val false (returned v) a h = ground arith
concrete-Represents is_val false (threw e) a h = absurd (ground (arith, h))

apply-concrete :
    (kind : Kind) (throws : Bool) (op : Operation) (o : Outcome)
    → allowed kind throws ≡ true
    → fits kind throws o ≡ true
    → apply kind throws op (concrete kind throws o)
      ≡ (perform kind throws op o >>= λ o'. some (concrete kind throws o'))
unfolding make empty assign stash_exception
apply-concrete is_void true (assigns v b) pending a h = refl
apply-concrete is_void true (assigns v b) (threw x) a h = refl
apply-concrete is_void true (assigns v b) (returned x) a h = absurd (ground (arith, h))
apply-concrete is_void true (stashes e) pending a h = refl
apply-concrete is_void true (stashes e) (threw x) a h = refl
apply-concrete is_void true (stashes e) (returned x) a h = absurd (ground (arith, h))
apply-concrete is_void false op o a h = absurd (ground (arith, a))
apply-concrete is_ref true (assigns v b) pending a h = refl
apply-concrete is_ref true (stashes e) pending a h = refl
apply-concrete is_ref true (assigns v b) (returned x) a h = refl
apply-concrete is_ref true (stashes e) (returned x) a h = refl
apply-concrete is_ref true (assigns v b) (threw x) a h = refl
apply-concrete is_ref true (stashes e) (threw x) a h = refl
apply-concrete is_ref false (assigns v b) pending a h = refl
apply-concrete is_ref false (assigns v b) (returned x) a h = refl
apply-concrete is_ref false (stashes e) pending a h = refl
apply-concrete is_ref false (stashes e) (returned x) a h = refl
apply-concrete is_ref false op (threw x) a h = absurd (ground (arith, h))
apply-concrete is_val true (assigns v true) pending a h = refl
apply-concrete is_val true (assigns v false) pending a h = refl
apply-concrete is_val true (stashes e) pending a h = refl
apply-concrete is_val true (assigns v b) (returned x) a h = refl
apply-concrete is_val true (stashes e) (returned x) a h = refl
apply-concrete is_val true (assigns v b) (threw x) a h = refl
apply-concrete is_val true (stashes e) (threw x) a h = refl
apply-concrete is_val false (assigns v true) pending a h = refl
apply-concrete is_val false (assigns v false) pending a h = refl
apply-concrete is_val false (assigns v b) (returned x) a h = refl
apply-concrete is_val false (stashes e) pending a h = refl
apply-concrete is_val false (stashes e) (returned x) a h = refl
apply-concrete is_val false op (threw x) a h = absurd (ground (arith, h))

perform-fits :
    (kind : Kind) (throws : Bool) (op : Operation) (o : Outcome) {o' : Outcome}
    → fits kind throws o ≡ true
    → perform kind throws op o ≡ some o'
    → fits kind throws o' ≡ true
perform-fits is_void throws (assigns v b) pending h e = ground arith
perform-fits is_ref throws (assigns v b) pending h e = ground arith
perform-fits is_val throws (assigns v b) pending h e = ground arith
perform-fits is_void throws (stashes x) pending h e = ground arith
perform-fits is_ref throws (stashes x) pending h e = ground arith
perform-fits is_val throws (stashes x) pending h e = ground arith
perform-fits kind throws op o h e = ground arith

-- A sequence of operations from a start; none if an assert fails.
abbrev pub runs : Kind → Bool → List Operation → Option Eventually → Option Eventually
runs kind throws [] s = s
runs kind throws (op ∷ ops) s = runs kind throws ops (s >>= apply kind throws op)

abbrev pub performs : Kind → Bool → List Operation → Option Outcome → Option Outcome
performs kind throws [] o = o
performs kind throws (op ∷ ops) o = performs kind throws ops (o >>= perform kind throws op)

abbrev pub Agrees : Kind → Bool → Option Eventually → Option Outcome → Type 0
Agrees kind throws none none = Unit
Agrees kind throws none (some o) = ⊥
Agrees kind throws (some s) none = ⊥
Agrees kind throws (some s) (some o) = Represents kind throws s o

performs-none :
    (kind : Kind) (throws : Bool) (ops : List Operation) → performs kind throws ops none ≡ none
performs-none kind throws [] = refl
performs-none kind throws (op ∷ ops) = performs-none kind throws ops

runs-none : (kind : Kind) (throws : Bool) (ops : List Operation) → runs kind throws ops none ≡ none
runs-none kind throws [] = refl
runs-none kind throws (op ∷ ops) = runs-none kind throws ops

runs-Agrees :
    (kind : Kind) (throws : Bool) (ops : List Operation) (o : Outcome)
    → allowed kind throws ≡ true
    → fits kind throws o ≡ true
    → Agrees kind throws
        (runs kind throws ops (some (concrete kind throws o)))
        (performs kind throws ops (some o))
runs-Agrees kind throws [] o a h = concrete-Represents kind throws o a h
runs-Agrees kind throws (op ∷ ops) o a h =
    let same = apply-concrete kind throws op o a h in
    elim (Option-cases (perform kind throws op o)) [
      | inl e ↦ rw (same, e, runs-none kind throws ops, performs-none kind throws ops) tt
      | inr (o', e) ↦
          rw (same, e) (runs-Agrees kind throws ops o' a (perform-fits kind throws op o h e))
    ]

-- For every T and Exception that the class allows, a sequence of assignments and stashed exceptions
-- fails an assert exactly if one of them comes after a value or an exception is held, or has no place
-- in the class; otherwise `empty`, `has_value`, `has_exception`, `operator*` and `exception` give what
-- the sequence has left, and the destructor destroys the member of the union that is alive.
pub eventually-refines :
    (kind : Kind) (throws : Bool) (ops : List Operation)
    → allowed kind throws ≡ true
    → Agrees kind throws
        (runs kind throws ops (some (make kind throws)))
        (performs kind throws ops (some pending))
eventually-refines is_void throws ops a = runs-Agrees is_void throws ops pending a refl
eventually-refines is_ref throws ops a = runs-Agrees is_ref throws ops pending a refl
eventually-refines is_val throws ops a = runs-Agrees is_val throws ops pending a refl
