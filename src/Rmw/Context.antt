-- ===== src/Rmw/Context.antt =====
-- AdapterContext of include/openrtdds/rmw/foundation.hpp: a context with bounded tables of nodes and
-- guard conditions. The capacities and the name bounds are the template's parameters. Operations
-- return the error and the new context. A load or an update of an atomic is one step.
use open_rtdds.Prelude.{
  replicate, ℕ, zero, suc, ◌+◌, ◌-◌, ◌^◌, Bool, true, false, ◌&&◌, ◌||◌, not, List, [], ◌∷◌, Option,
  ltb, ◌==◌, ◌!=◌, if◌then◌else◌, set, BytePointer,
}
use open_rtdds.Serialization.Cdr.{byte_at}

pub data AdapterError : Type 0 where
  none invalid_argument incorrect_implementation invalid_limits : AdapterError
  invalid_domain invalid_state resource_exhausted name_too_long : AdapterError
  stale_handle unsupported : AdapterError

pub data ContextState : Type 0 where
  zeroed initialized active shutting_down finalizable : ContextState

abbrev pub max_portable_domain_id : ℕ
max_portable_domain_id = 232

-- "rmw_openrtdds_cpp" with its NUL
abbrev pub implementation_identifier : List ℕ
implementation_identifier =
    114 ∷ 109 ∷ 119 ∷ 95 ∷ 111 ∷ 112 ∷ 101 ∷ 110 ∷ 114 ∷ 116 ∷ 100 ∷ 100 ∷ 115 ∷ 95 ∷ 99 ∷ 112 ∷ 112
    ∷ 0 ∷ []

pub record AdapterLimits : Type 0 where
  pub max_nodes : ℕ
  pub max_guard_conditions : ℕ

abbrev pub default_limits : AdapterLimits
default_limits = record { max_nodes = 8; max_guard_conditions = 16 }

unfoldable pub validate : AdapterLimits → ℕ → ℕ → AdapterError
validate limits node_capacity guard_condition_capacity =
    if limits.max_nodes == 0 || limits.max_guard_conditions == 0
    then AdapterError.invalid_limits
    else if ltb node_capacity limits.max_nodes
        || ltb guard_condition_capacity limits.max_guard_conditions
    then AdapterError.invalid_limits
    else AdapterError.none

pub record AdapterConfig : Type 0 where
  pub limits : AdapterLimits
  pub domain_id : ℕ
  pub identifier : BytePointer

-- NodeHandle and GuardConditionHandle, which have the same fields.
pub record Handle : Type 0 where
  pub slot : ℕ
  pub slot_generation : ℕ
  pub context_generation : ℕ

-- The arrays `name` and `name_space` hold a string with its NUL.
pub record NodeSlot : Type 0 where
  pub name : List ℕ
  pub name_space : List ℕ
  pub generation : ℕ
  pub used : Bool

pub record GuardConditionSlot : Type 0 where
  pub trigger_generation : ℕ
  pub generation : ℕ
  pub used : Bool

-- A slot as it is built, with the arrays of its name and its namespace.
abbrev pub empty_node : ℕ → ℕ → NodeSlot
empty_node name_bytes namespace_bytes = record {
  name = replicate name_bytes 0;
  name_space = replicate namespace_bytes 0;
  generation = 0;
  used = false;
}

-- What an index past the array stands for.
abbrev pub no_node : NodeSlot
no_node = empty_node 0 0

abbrev pub no_guard_condition : GuardConditionSlot
no_guard_condition = record { trigger_generation = 0; generation = 0; used = false }

pub record AdapterContext : Type 0 where
  pub nodes : List NodeSlot
  pub guard_conditions : List GuardConditionSlot
  pub limits : AdapterLimits
  pub wake_generation : ℕ
  pub node_count : ℕ
  pub guard_condition_count : ℕ
  pub context_generation : ℕ
  pub domain_id : ℕ
  pub state : ContextState

abbrev pub next_generation : ℕ → ℕ
next_generation current = if current == 2 ^ 32 - 1 then 1 else current + 1

-- The compare-and-exchange loop, at the round that succeeds.
abbrev pub advance_atomic : ℕ → ℕ
advance_atomic current = if current == 2 ^ 64 - 1 then 1 else current + 1

-- `state_ == initialized || state_ == active`
abbrev pub is_open : ContextState → Bool
is_open ContextState.initialized = true
is_open ContextState.active = true
is_open _ = false

-- `state_ == active || state_ == shutting_down`
abbrev pub is_holding : ContextState → Bool
is_holding ContextState.active = true
is_holding ContextState.shutting_down = true
is_holding _ = false

abbrev pub is_zero : ContextState → Bool
is_zero ContextState.zeroed = true
is_zero _ = false

abbrev pub is_finalizable : ContextState → Bool
is_finalizable ContextState.finalizable = true
is_finalizable _ = false

-- The loop compares up to the NUL of the identifier.
abbrev pub matches_from : List ℕ → ℕ → BytePointer → Bool
matches_from [] index candidate = false
matches_from (c ∷ cs) index candidate =
    let rest = matches_from cs (suc index) candidate in
    if byte_at candidate index != c then false else if c == 0 then true else rest

abbrev pub identifier_matches : BytePointer → Bool
identifier_matches Option.none = false
identifier_matches (Option.some bytes) =
    matches_from implementation_identifier 0 (Option.some bytes)

-- The loop over the rounds that are left.
abbrev pub bounded_length_from : ℕ → ℕ → BytePointer → ℕ
bounded_length_from zero length value = length
bounded_length_from (suc rounds) length value =
    let rest = bounded_length_from rounds (suc length) value in
    if byte_at value length != 0 then rest else length

abbrev pub bounded_length : BytePointer → ℕ → ℕ
bounded_length value capacity = bounded_length_from capacity 0 value

-- The array after `index` characters were copied from the source, and the NUL.
abbrev pub copy_from : ℕ → ℕ → BytePointer → List ℕ → List ℕ
copy_from zero index source destination = destination
copy_from (suc rounds) index source destination =
    copy_from rounds (suc index) source (set destination index (byte_at source index))

abbrev pub copy_bounded : BytePointer → ℕ → List ℕ → List ℕ
copy_bounded source length destination = set (copy_from length 0 source destination) length 0

abbrev pub emptied : AdapterContext → Bool
emptied c = c.node_count == 0 && c.guard_condition_count == 0

-- The state that `update_state_after_release` gives.
abbrev pub after_release : ContextState → ContextState
after_release ContextState.shutting_down = ContextState.finalizable
after_release _ = ContextState.initialized

abbrev pub update_state_after_release : AdapterContext → AdapterContext
update_state_after_release c = if emptied c then record c { state = after_release c.state } else c

unfoldable pub shutdown : AdapterContext → AdapterError × AdapterContext
shutdown c = if not (is_open c.state) then (AdapterError.invalid_state, c) else (
  AdapterError.none,
  record c {
    state = if emptied c then ContextState.finalizable else ContextState.shutting_down;
    wake_generation = advance_atomic c.wake_generation;
  },
)

unfoldable pub finalize : AdapterContext → AdapterError × AdapterContext
finalize c = if not (is_finalizable c.state) then (AdapterError.invalid_state, c) else (
  AdapterError.none,
  record c {
    limits = default_limits;
    domain_id = 0;
    wake_generation = 0;
    state = ContextState.zeroed;
  },
)
