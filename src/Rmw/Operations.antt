-- ===== src/Rmw/Operations.antt =====
-- The operations of AdapterContext that depend on the capacities. `output` is `none` where the source
-- leaves it as it is.
use open_rtdds.Prelude.{
  ℕ, ◌^◌, ◌%◌, Bool, true, false, ◌&&◌, ◌||◌, not, Option, ltb, leb, ◌==◌, ◌!=◌, if◌then◌else◌,
  get_or, set, add64, sub64, BytePointer,
}
use open_rtdds.Core.History.{is_null}
use open_rtdds.Serialization.Cdr.{byte_at}
use open_rtdds.Rmw.Context.{
  AdapterError, ContextState, AdapterConfig, AdapterContext, NodeSlot, GuardConditionSlot, Handle,
  no_node, no_guard_condition, validate, max_portable_domain_id, next_generation, advance_atomic,
  is_open, is_holding, is_zero, identifier_matches, bounded_length, copy_bounded,
  update_state_after_release,
}
use open_rtdds.Rmw.Slots.{free_slot}

abbrev pub node_used : NodeSlot → Bool
node_used s = s.used

abbrev pub guard_used : GuardConditionSlot → Bool
guard_used s = s.used

abbrev pub after_limits :
    AdapterContext → AdapterConfig → AdapterError → AdapterError × AdapterContext
after_limits c config AdapterError.none =
    if ltb max_portable_domain_id config.domain_id then (AdapterError.invalid_domain, c) else (
      AdapterError.none,
      record c {
        limits = config.limits;
        domain_id = config.domain_id;
        context_generation = next_generation c.context_generation;
        wake_generation = 0;
        state = ContextState.initialized;
      },
    )
after_limits c config error = (error, c)

module _ (node_capacity guard_condition_capacity : ℕ) where
  unfoldable pub initialize : AdapterContext → AdapterConfig → AdapterError × AdapterContext
  initialize c config =
      if not (is_zero c.state)
      then (AdapterError.invalid_state, c)
      else if not (identifier_matches config.identifier)
      then (
        if is_null config.identifier
            then AdapterError.invalid_argument
            else AdapterError.incorrect_implementation,
        c,
      )
      else after_limits c config (validate config.limits node_capacity guard_condition_capacity)

  abbrev pub valid_node_handle : AdapterContext → Handle → Bool
  valid_node_handle c h =
      if h.context_generation != c.context_generation || leb node_capacity h.slot
      then false
      else (get_or c.nodes h.slot no_node).used
        && (get_or c.nodes h.slot no_node).generation == h.slot_generation

  abbrev pub valid_guard_condition_handle : AdapterContext → Handle → Bool
  valid_guard_condition_handle c h =
      if h.context_generation != c.context_generation || leb guard_condition_capacity h.slot
      then false
      else (get_or c.guard_conditions h.slot no_guard_condition).used
        && (get_or c.guard_conditions h.slot no_guard_condition).generation == h.slot_generation

  unfoldable pub destroy_node : AdapterContext → Handle → AdapterError × AdapterContext
  destroy_node c h =
      if not (is_holding c.state)
      then (AdapterError.invalid_state, c)
      else if not (valid_node_handle c h)
      then (AdapterError.stale_handle, c)
      else (
        AdapterError.none,
        update_state_after_release (record c {
          nodes = set c.nodes h.slot (record (get_or c.nodes h.slot no_node) {
            used = false;
            name = set (get_or c.nodes h.slot no_node).name 0 0;
            name_space = set (get_or c.nodes h.slot no_node).name_space 0 0;
          });
          node_count = sub64 c.node_count 1;
        }),
      )

  abbrev pub guard_condition_at :
      AdapterContext → Option ℕ → AdapterError × Option Handle × AdapterContext
  guard_condition_at c Option.none = (AdapterError.resource_exhausted, Option.none, c)
  guard_condition_at c (Option.some index) =
      let generation =
        next_generation (get_or c.guard_conditions index no_guard_condition).generation in
      (
        AdapterError.none,
        Option.some (record {
          slot = index % 2 ^ 16;
          slot_generation = generation;
          context_generation = c.context_generation;
        }),
        record c {
          guard_conditions =
              set c.guard_conditions index
                (record { generation = generation; trigger_generation = 0; used = true });
          guard_condition_count = add64 c.guard_condition_count 1;
          state = ContextState.active;
        },
      )

  unfoldable pub create_guard_condition :
      AdapterContext → AdapterError × Option Handle × AdapterContext
  create_guard_condition c =
      if not (is_open c.state)
      then (AdapterError.invalid_state, Option.none, c)
      else if leb c.limits.max_guard_conditions c.guard_condition_count
      then (AdapterError.resource_exhausted, Option.none, c)
      else guard_condition_at c
          (free_slot guard_used no_guard_condition guard_condition_capacity 0 c.guard_conditions)

  unfoldable pub destroy_guard_condition : AdapterContext → Handle → AdapterError × AdapterContext
  destroy_guard_condition c h =
      if not (is_holding c.state)
      then (AdapterError.invalid_state, c)
      else if not (valid_guard_condition_handle c h)
      then (AdapterError.stale_handle, c)
      else (
        AdapterError.none,
        update_state_after_release (record c {
          guard_conditions =
              set c.guard_conditions h.slot
                (record (get_or c.guard_conditions h.slot no_guard_condition) {
                  used = false;
                  trigger_generation = 0;
                });
          guard_condition_count = sub64 c.guard_condition_count 1;
        }),
      )

  unfoldable pub trigger_guard_condition : AdapterContext → Handle → AdapterError × AdapterContext
  trigger_guard_condition c h =
      if not (is_open c.state)
      then (AdapterError.invalid_state, c)
      else if not (valid_guard_condition_handle c h)
      then (AdapterError.stale_handle, c)
      else (
        AdapterError.none,
        record c {
          guard_conditions =
              set c.guard_conditions h.slot
                (record (get_or c.guard_conditions h.slot no_guard_condition) {
                  trigger_generation =
                      advance_atomic
                        (get_or c.guard_conditions h.slot no_guard_condition).trigger_generation;
                });
          wake_generation = advance_atomic c.wake_generation;
        },
      )

  -- `current` and `ready`, where they are written.
  unfoldable pub observe_guard_condition :
      AdapterContext → Handle → ℕ → AdapterError × Option (ℕ × Bool)
  observe_guard_condition c h last_observed =
      if not (is_open c.state)
      then (AdapterError.invalid_state, Option.none)
      else if not (valid_guard_condition_handle c h)
      then (AdapterError.stale_handle, Option.none)
      else (
        AdapterError.none,
        Option.some (
          (get_or c.guard_conditions h.slot no_guard_condition).trigger_generation,
          (get_or c.guard_conditions h.slot no_guard_condition).trigger_generation != last_observed,
        ),
      )

  module _ (max_node_name_bytes max_namespace_bytes : ℕ) where
    abbrev pub node_at :
        AdapterContext
        → BytePointer
        → BytePointer
        → Option ℕ
        → AdapterError × Option Handle × AdapterContext
    node_at c name name_space Option.none = (AdapterError.resource_exhausted, Option.none, c)
    node_at c name name_space (Option.some index) =
        let slot = get_or c.nodes index no_node in
        let generation = next_generation slot.generation in
        (
          AdapterError.none,
          Option.some (record {
            slot = index % 2 ^ 16;
            slot_generation = generation;
            context_generation = c.context_generation;
          }),
          record c {
            nodes = set c.nodes index (record {
              name = copy_bounded name (bounded_length name max_node_name_bytes) slot.name;
              name_space =
                  copy_bounded name_space (bounded_length name_space max_namespace_bytes)
                    slot.name_space;
              generation = generation;
              used = true;
            });
            node_count = add64 c.node_count 1;
            state = ContextState.active;
          },
        )

    unfoldable pub create_node :
        AdapterContext → BytePointer → BytePointer → AdapterError × Option Handle × AdapterContext
    create_node c name name_space =
        if not (is_open c.state)
        then (AdapterError.invalid_state, Option.none, c)
        else if is_null name
            || is_null name_space
            || byte_at name 0 == 0
            || byte_at name_space 0 == 0
        then (AdapterError.invalid_argument, Option.none, c)
        else if leb max_node_name_bytes (bounded_length name max_node_name_bytes)
            || leb max_namespace_bytes (bounded_length name_space max_namespace_bytes)
        then (AdapterError.name_too_long, Option.none, c)
        else if leb c.limits.max_nodes c.node_count
        then (AdapterError.resource_exhausted, Option.none, c)
        else node_at c name name_space (free_slot node_used no_node node_capacity 0 c.nodes)
