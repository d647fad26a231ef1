-- ===== src/Rmw/Graph/Tests.antt =====
-- A graph cache with a node and a publisher, whose snapshot another cache takes.
use open_rtdds.Prelude.{ℕ, ◌≡◌, refl, true, List, [], ◌∷◌, Option, BytePointer, replicate}
use open_rtdds.Rtps.Wire.{read_uint16, write_uint16}
use open_rtdds.Serialization.Integral.{load_integral, load_loop, store_integral, store_loop}
use open_rtdds.Rmw.Graph.Records.{GraphError, GraphUpdate, GraphEndpointKind, new_cache}
use open_rtdds.Rmw.Graph.Cache.{EndpointName, add_local_node}
use open_rtdds.Rmw.Graph.Sent.{serialize_local}
use open_rtdds.Rmw.Graph.Remote.{apply_remote}
use open_rtdds.Rmw.Graph.Owners.{IsConsistent}
use open_rtdds.Rmw.Graph.Runs.{Call, run, run-IsConsistent}
use open_rtdds.Rmw.Graph.Once.{apply_remote_lem}

abbrev prefix : List ℕ
prefix = replicate 12 1

abbrev text : BytePointer
text = Option.some (97 ∷ 0 ∷ [])

abbrev endpoint : EndpointName
endpoint = record {
  participant_prefix = prefix;
  entity_id = record { e0 = 0; e1 = 0; e2 = 1; e3 = 3 };
  node_id = 5;
  kind = GraphEndpointKind.publisher;
  ros_namespace_conventions = true;
}

abbrev calls : List Call
calls =
    Call.add_node_call prefix 5 text text text
    ∷ Call.add_endpoint_call endpoint text text text text
    ∷ Call.remove_node_call 5
    ∷ []

run-IsConsistent_example : IsConsistent (run new_cache calls)
run-IsConsistent_example = run-IsConsistent calls

-- The snapshot of one node without endpoints.
abbrev payload : List ℕ
payload =
    0 ∷ 1 ∷ 0 ∷ 0 ∷ 79 ∷ 82 ∷ 84 ∷ 71 ∷ 1 ∷ 0 ∷ 1 ∷ 0 ∷ 0 ∷ 0 ∷ 0 ∷ 0 ∷ 2 ∷ 0 ∷ 0 ∷ 0 ∷ 0 ∷ 0 ∷ 0
    ∷ 0 ∷ 5 ∷ 0 ∷ 0 ∷ 0 ∷ 0 ∷ 0 ∷ 0 ∷ 0 ∷ 1 ∷ 0 ∷ 1 ∷ 0 ∷ 1 ∷ 0 ∷ 0 ∷ 0 ∷ 97 ∷ 97 ∷ 97 ∷ []

serialized :
    serialize_local
      (run new_cache (Call.add_node_call prefix 5 text text text ∷ []))
      (Option.some (replicate 43 0))
      43
    ≡ (GraphError.none, 43, 2, Option.some payload)
unfolding serialize_local add_local_node write_uint16 store_integral store_loop
serialized = refl

applied : (apply_remote new_cache prefix (Option.some payload) 43 2).0 ≡ GraphUpdate.changed
unfolding apply_remote read_uint16 load_integral load_loop
applied = refl

apply_remote_lem_example :
    let d = (apply_remote new_cache prefix (Option.some payload) 43 2).2 in
    apply_remote d prefix (Option.some payload) 43 2
    ≡ (GraphUpdate.unchanged, GraphError.stale_snapshot, d)
apply_remote_lem_example = (apply_remote_lem new_cache prefix (Option.some payload) 43 2).1 applied
