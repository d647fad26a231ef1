-- ===== src/Rmw/Tests.antt =====
-- A context with two nodes and two guard conditions at most.
use open_rtdds.Prelude.{
  ◌≡◌, ◌≢◌, ◌↔◌, suc, refl, true, false, List, [], ◌∷◌, Option, arith, BytePointer,
}
use open_rtdds.Rmw.Context.{
  AdapterError, AdapterConfig, AdapterContext, Handle, implementation_identifier, validate, is_open,
  is_holding, shutdown, finalize,
}
use open_rtdds.Rmw.Operations.{initialize, create_node, destroy_node, valid_node_handle}
use open_rtdds.Rmw.Invariant.{IsValid}
use open_rtdds.Rmw.Preserved.{initialize-IsValid}
use open_rtdds.Rmw.Nodes.{Accepts, Created, create_node_lem}
use open_rtdds.Rmw.Runs.{
  Call, new_context, new_context-IsValid, run, run-IsValid, finalize_lem, destroy_node_lem,
}

abbrev config : AdapterConfig
config = record {
  limits = record { max_nodes = 2; max_guard_conditions = 2 };
  domain_id = 7;
  identifier = Option.some implementation_identifier;
}

abbrev fresh : AdapterContext
fresh = (initialize 2 2 (new_context 2 2 8 8) config).1

fresh-IsValid : IsValid 2 2 fresh
fresh-IsValid = initialize-IsValid (new_context-IsValid 2 2 8 8 (omega arith) (omega arith)) config

initialized : (initialize 2 2 (new_context 2 2 8 8) config).0 ≡ AdapterError.none
unfolding initialize validate
initialized = refl

-- "ab" in "/"
abbrev name : BytePointer
name = Option.some (97 ∷ 98 ∷ 0 ∷ [])

abbrev name_space : BytePointer
name_space = Option.some (47 ∷ 0 ∷ [])

created : (create_node 2 2 8 8 fresh name name_space).0 ≡ AdapterError.none
unfolding initialize validate create_node
created = refl

create_node_lem_example :
    let out = create_node 2 2 8 8 fresh name name_space in
    ((out.0 ≡ AdapterError.none) ↔ Accepts 8 8 fresh name name_space)
    × (out.0 ≡ AdapterError.none → Created 2 2 fresh out)
    × (out.0 ≢ AdapterError.none → (out.1 ≡ Option.none) × (out.2 ≡ fresh))
    × IsValid 2 2 out.2
create_node_lem_example = create_node_lem 8 8 name name_space fresh-IsValid

abbrev handle : Handle
handle = record { slot = 0; slot_generation = 1; context_generation = 1 }

abbrev holding : AdapterContext
holding = (create_node 2 2 8 8 fresh name name_space).2

holding-IsValid : IsValid 2 2 holding
holding-IsValid = (create_node_lem 8 8 name name_space fresh-IsValid).3

destroyed : (destroy_node 2 2 holding handle).0 ≡ AdapterError.none
unfolding initialize validate create_node destroy_node
destroyed = refl

destroy_node_lem_example :
    let (e, d) = destroy_node 2 2 holding handle in
    ((e ≡ AdapterError.none)
      ↔ ((is_holding holding.state ≡ true) × (valid_node_handle 2 2 holding handle ≡ true)))
    × (e ≡ AdapterError.none
        → (valid_node_handle 2 2 d handle ≡ false) × (suc d.node_count ≡ holding.node_count))
    × (e ≢ AdapterError.none → d ≡ holding)
destroy_node_lem_example = destroy_node_lem handle holding-IsValid

abbrev calls : List Call
calls =
    Call.initialize_call config
    ∷ Call.create_node_call name name_space
    ∷ Call.create_guard_condition_call
    ∷ Call.shutdown_call
    ∷ Call.destroy_node_call handle
    ∷ []

run-IsValid_example : IsValid 2 2 (run 2 2 8 8 (new_context 2 2 8 8) calls)
run-IsValid_example = run-IsValid 2 2 8 8 calls (omega arith) (omega arith)

finalize_lem_example :
    ((finalize fresh).0 ≡ AdapterError.none
      → (fresh.node_count ≡ 0) × (fresh.guard_condition_count ≡ 0))
    × (is_open fresh.state ≡ true
        → fresh.node_count ≡ 0
        → fresh.guard_condition_count ≡ 0
        → (finalize (shutdown fresh).1).0 ≡ AdapterError.none)
finalize_lem_example = finalize_lem fresh-IsValid
