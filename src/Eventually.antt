-- ===== src/Eventually.antt =====
-- include/libfork/core/eventually.hpp: `lf::core::basic_eventually<T, Exception>`, for T void, a
-- reference or a value. The union is the member of it that is alive; values, addresses and
-- exceptions are numbers, and the null pointer is none. The flag is missing where the state is
-- implicit in a pointer. The asserts are conditions of the operations, and moving out is reading.
mod Refine
mod Tests
use parallel_load_balancing.Common.{
  ℕ, ◌≡◌, Bool, true, false, not, ◌&&◌, ◌||◌, Option, none, some, List, [], ◌∷◌, if◌then◌else◌,
}

-- What T is: void, a reference or a value.
pub data Kind : Type 0 where
  is_void : Kind
  is_ref : Kind
  is_val : Kind

pub data State : Type 0 where
  empty_state : State
  value_state : State
  exception_state : State

pub data Member : Type 0 where
  m_empty : Member
  m_value : (value : Option ℕ) → Member
  m_exception : (exception : Option ℕ) → Member

pub record Eventually : Type 0 where
  pub member : Member
  pub flag : Option State

-- What the destructor destroys.
pub data Destroyed : Type 0 where
  nothing : Destroyed
  the_value : Destroyed
  the_exception : Destroyed
  unreachable : Destroyed

abbrev pub value_of : Member → Option ℕ
value_of m_empty = none
value_of (m_value value) = value
value_of (m_exception exception) = none

abbrev pub exception_of : Member → Option ℕ
exception_of m_empty = none
exception_of (m_value value) = none
exception_of (m_exception exception) = exception

abbrev pub is_null : Option ℕ → Bool
is_null none = true
is_null (some p) = false

abbrev pub has_flag : State → Option State → Bool
has_flag empty_state (some empty_state) = true
has_flag value_state (some value_state) = true
has_flag exception_state (some exception_state) = true
has_flag state flag = false

-- `throws` is the template's argument `Exception`.
abbrev pub implicit_state : Kind → Bool → Bool
implicit_state is_void throws = throws
implicit_state is_ref throws = not throws
implicit_state is_val throws = false

-- The class's constraint.
abbrev pub allowed : Kind → Bool → Bool
allowed is_void throws = throws
allowed is_ref throws = true
allowed is_val throws = true

abbrev pub flagged : Kind → Bool → State → Option State
flagged kind throws state = if implicit_state kind throws then none else some state

pub make : Kind → Bool → Eventually
make kind throws =
    if implicit_state kind throws
    then (if throws
        then record { member = m_exception none; flag = none }
        else record { member = m_value none; flag = none })
    else record { member = m_empty; flag = some empty_state }

pub empty : Kind → Bool → Eventually → Bool
empty kind throws s =
    if implicit_state kind throws
    then (if throws then is_null (exception_of s.member) else is_null (value_of s.member))
    else has_flag empty_state s.flag

-- There is no `has_value` where T is void.
pub has_value : Kind → Bool → Eventually → Option Bool
has_value is_void throws s = none
has_value kind throws s = some (
    if implicit_state kind throws
    then not (is_null (value_of s.member))
    else has_flag value_state s.flag)

-- There is no `has_exception` where exceptions are not kept.
pub has_exception : Kind → Bool → Eventually → Option Bool
has_exception kind false s = none
has_exception kind true s = some (
    if implicit_state kind true
    then not (is_null (exception_of s.member))
    else has_flag exception_state s.flag)

-- The assignments of a value or a reference; a value's constructor may throw.
pub assign : Kind → Bool → ℕ → (constructed : Bool) → Eventually → Option Eventually
assign is_void throws v constructed s = none
assign is_ref throws v constructed s =
    if empty is_ref throws s
    then some (record { member = m_value (some v); flag = flagged is_ref throws value_state })
    else none
assign is_val throws v constructed s =
    if empty is_val throws s
    then (if constructed
        then some (record { member = m_value (some v); flag = some value_state })
        else some s)
    else none

pub stash_exception : Kind → Bool → ℕ → Eventually → Option Eventually
stash_exception kind false e s = none
stash_exception kind true e s =
    if empty kind true s
    then some (record { member = m_exception (some e); flag = flagged kind true exception_state })
    else none

-- `operator*` and `exception`, under their asserts.
pub deref : Kind → Bool → Eventually → Option ℕ
deref kind throws s = elim (has_value kind throws s) [
  | some true ↦ value_of s.member
  | other ↦ none
]

pub exception : Kind → Bool → Eventually → Option ℕ
exception kind throws s = elim (has_exception kind throws s) [
  | some true ↦ exception_of s.member
  | other ↦ none
]

pub destroyed : Kind → Bool → Option State → Destroyed
destroyed kind throws (some empty_state) = nothing
destroyed is_void throws (some value_state) = unreachable
destroyed kind throws (some value_state) = the_value
destroyed kind throws (some exception_state) = if throws then the_exception else unreachable
destroyed kind throws none = unreachable

pub destroy : Kind → Bool → Eventually → Destroyed
destroy kind throws s =
    if implicit_state kind throws
    then (if throws then the_exception else nothing)
    else destroyed kind throws s.flag

pub data Operation : Type 0 where
  assigns : (v : ℕ) (constructed : Bool) → Operation
  stashes : (e : ℕ) → Operation

abbrev pub apply : Kind → Bool → Operation → Eventually → Option Eventually
apply kind throws (assigns v constructed) s = assign kind throws v constructed s
apply kind throws (stashes e) s = stash_exception kind throws e s
