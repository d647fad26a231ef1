-- ===== src/Rmw/Graph/Runs.antt =====
-- The life of a graph cache: any sequence of its operations.
use open_rtdds.Prelude.{ℕ, ◌≡◌, refl, List, [], ◌∷◌, arith, All, BytePointer, replicate, zero, suc}
use open_rtdds.Rtps.Types.{EntityId, GuidPrefix}
use open_rtdds.Rmw.Graph.Tables.{tally}
use open_rtdds.Rmw.Graph.Records.{
  GraphNodeRecord, GraphCache, new_cache, no_node, no_endpoint, local_node, graph_node_capacity,
  graph_endpoint_capacity,
}
use open_rtdds.Rmw.Graph.Cache.{
  EndpointName, add_local_node, remove_local_node, add_local_endpoint, remove_local_endpoint,
  remove_remote_participant, local_endpoint,
}
use open_rtdds.Rmw.Graph.Remote.{apply_remote}
use open_rtdds.Rmw.Graph.Owners.{IsConsistent, IsOwned}
use open_rtdds.Rmw.Graph.Preserved.{add_local_node-IsConsistent, remove_local_node-IsConsistent}
use open_rtdds.Rmw.Graph.Endpoints.{
  add_local_endpoint-IsConsistent, remove_local_endpoint-IsConsistent,
}
use open_rtdds.Rmw.Graph.Foreign.{remove_remote_participant-IsConsistent, apply_remote-IsConsistent}

none_local : (j n : ℕ) → tally (local_node j) (replicate n no_node) ≡ 0
none_local j zero = refl
none_local j (suc n) = none_local j n

none_local_endpoint :
    (j : EntityId) (n : ℕ) → tally (local_endpoint j) (replicate n no_endpoint) ≡ 0
none_local_endpoint j zero = refl
none_local_endpoint j (suc n) = none_local_endpoint j n

none-IsOwned :
    (nodes : List GraphNodeRecord) (n : ℕ) → All (IsOwned nodes) (replicate n no_endpoint)
none-IsOwned nodes zero = _
none-IsOwned nodes (suc n) = (λ sent. cc, none-IsOwned nodes n)

new_cache-IsConsistent : IsConsistent new_cache
new_cache-IsConsistent = record {
  nodes_unique = λ j. omega (arith, none_local j graph_node_capacity);
  endpoints_unique = λ j. omega (arith, none_local_endpoint j graph_endpoint_capacity);
  owned = none-IsOwned (replicate graph_node_capacity no_node) graph_endpoint_capacity;
  generation_range = (omega arith, omega arith);
  local_range = (omega arith, omega arith);
}

pub data Call : Type 0 where
  add_node_call : GuidPrefix → ℕ → BytePointer → BytePointer → BytePointer → Call
  remove_node_call : ℕ → Call
  add_endpoint_call : EndpointName → BytePointer → BytePointer → BytePointer → BytePointer → Call
  remove_endpoint_call : EntityId → Call
  apply_call : GuidPrefix → BytePointer → ℕ → ℕ → Call
  remove_participant_call : GuidPrefix → Call

abbrev pub perform : GraphCache → Call → GraphCache
perform c (add_node_call prefix node_id name name_space enclave) =
    (add_local_node c prefix node_id name name_space enclave).1
perform c (remove_node_call node_id) = (remove_local_node c node_id).1
perform c (add_endpoint_call n a b d e) = (add_local_endpoint c n a b d e).1
perform c (remove_endpoint_call entity_id) = (remove_local_endpoint c entity_id).1
perform c (apply_call prefix payload payload_size sequence) =
    (apply_remote c prefix payload payload_size sequence).2
perform c (remove_participant_call prefix) = (remove_remote_participant c prefix).1

abbrev pub run : GraphCache → List Call → GraphCache
run c [] = c
run c (call ∷ calls) = run (perform c call) calls

perform-IsConsistent :
    (c : GraphCache) (call : Call) → IsConsistent c → IsConsistent (perform c call)
perform-IsConsistent c (add_node_call prefix node_id name name_space enclave) v =
    add_local_node-IsConsistent c prefix node_id name name_space enclave v
perform-IsConsistent c (remove_node_call node_id) v = remove_local_node-IsConsistent c node_id v
perform-IsConsistent c (add_endpoint_call n a b d e) v =
    add_local_endpoint-IsConsistent c n a b d e v
perform-IsConsistent c (remove_endpoint_call entity_id) v =
    remove_local_endpoint-IsConsistent c entity_id v
perform-IsConsistent c (apply_call prefix payload payload_size sequence) v =
    apply_remote-IsConsistent c prefix payload payload_size sequence v
perform-IsConsistent c (remove_participant_call prefix) v =
    remove_remote_participant-IsConsistent c prefix v

-- Whatever is called on a new graph cache, and in whatever order: no two local nodes have the same
-- identifier and no two local endpoints the same entity identifier, each local endpoint belongs to a
-- local node of its participant, and both generations lie between 1 and 2 ^ 63 - 1.
pub run-IsConsistent : (calls : List Call) → IsConsistent (run new_cache calls)
run-IsConsistent calls = go calls new_cache new_cache-IsConsistent
  where
    go : (calls : List Call) (c : GraphCache) → IsConsistent c → IsConsistent (run c calls)
    go [] c v = v
    go (call ∷ calls) c v = go calls (perform c call) (perform-IsConsistent c call v)
