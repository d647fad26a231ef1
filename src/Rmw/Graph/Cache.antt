-- ===== src/Rmw/Graph/Cache.antt =====
-- GraphCache's operations on the records of this participant, `snapshot` and
-- `remove_remote_participant` of src/rmw/graph_cache.cpp. They return the result and the new cache.
use open_rtdds.Prelude.{
  ℕ, Bool, true, false, ◌&&◌, ◌||◌, not, List, Option, ◌==◌, if◌then◌else◌, BytePointer,
}
use open_rtdds.Rtps.Types.{GuidPrefix, EntityId, entity_eq, bytes_eq}
use open_rtdds.Rtps.Router.{nonzero_prefix}
use open_rtdds.Rmw.Graph.Tables.{◌>>=◌, any, collect, replace_first, replace_all, or_same}
use open_rtdds.Rmw.Graph.Records.{
  graph_node_name_capacity, graph_namespace_capacity, graph_enclave_capacity,
  graph_topic_name_capacity, graph_type_name_capacity, GraphEndpointKind, GraphError, GraphUpdate,
  GraphNodeRecord, GraphEndpointRecord, RemoteGeneration, GraphCache, no_node, no_endpoint,
  no_generation, valid_entity, known_kind, copy_text, advance_generation, node_free, endpoint_free,
  local_node, remote_node, remote_endpoint,
}

abbrev pub Outcome : Type 0
Outcome = GraphError × GraphCache

abbrev pub node_candidate : GuidPrefix → ℕ → List ℕ × ℕ → List ℕ × ℕ → List ℕ × ℕ → GraphNodeRecord
node_candidate prefix node_id (name, n) (name_space, s) (enclave, e) = record {
  participant_prefix = prefix;
  node_id = node_id;
  name = name;
  name_space = name_space;
  enclave = enclave;
  name_size = n;
  namespace_size = s;
  enclave_size = e;
  local = true;
  occupied = true;
}

abbrev pub node_with_texts :
    GuidPrefix → ℕ → BytePointer → BytePointer → BytePointer → Option GraphNodeRecord
node_with_texts prefix node_id name name_space enclave = do
  n ← copy_text graph_node_name_capacity name false
  s ← copy_text graph_namespace_capacity name_space false
  e ← copy_text graph_enclave_capacity enclave false
  Option.some (node_candidate prefix node_id n s e)

-- The nodes after a search, and the error where it finds none.
abbrev pub with_nodes : GraphError → GraphCache → Option (List GraphNodeRecord) → Outcome
with_nodes error c Option.none = (error, c)
with_nodes error c (Option.some nodes) =
    (GraphError.none, advance_generation true (record c { nodes = nodes }))

abbrev pub store_node : GraphCache → Option GraphNodeRecord → Outcome
store_node c Option.none = (GraphError.invalid_record, c)
store_node c (Option.some candidate) =
    with_nodes GraphError.capacity_exceeded c (replace_first node_free candidate c.nodes)

unfoldable pub add_local_node :
    GraphCache → GuidPrefix → ℕ → BytePointer → BytePointer → BytePointer → Outcome
add_local_node c prefix node_id name name_space enclave =
    if not (nonzero_prefix prefix) || node_id == 0
    then (GraphError.invalid_argument, c)
    else if any (local_node node_id) c.nodes
    then (GraphError.duplicate_record, c)
    else store_node c (node_with_texts prefix node_id name name_space enclave)

abbrev pub endpoint_of : ℕ → GraphEndpointRecord → Bool
endpoint_of node_id endpoint = endpoint.occupied && endpoint.local && endpoint.node_id == node_id

unfoldable pub remove_local_node : GraphCache → ℕ → Outcome
remove_local_node c node_id =
    if any (endpoint_of node_id) c.endpoints
    then (GraphError.invalid_record, c)
    else with_nodes GraphError.record_not_found c
        (replace_first (local_node node_id) no_node c.nodes)

abbrev pub owner : GuidPrefix → ℕ → GraphNodeRecord → Bool
owner prefix node_id node = local_node node_id node && bytes_eq node.participant_prefix prefix

abbrev pub local_endpoint : EntityId → GraphEndpointRecord → Bool
local_endpoint entity_id endpoint =
    endpoint.occupied && endpoint.local && entity_eq endpoint.entity_id entity_id

-- The arguments of add_local_endpoint that name the endpoint.
pub record EndpointName : Type 0 where
  pub participant_prefix : GuidPrefix
  pub entity_id : EntityId
  pub node_id : ℕ
  pub kind : GraphEndpointKind
  pub ros_namespace_conventions : Bool

abbrev pub endpoint_candidate :
    EndpointName → List ℕ × ℕ → List ℕ × ℕ → List ℕ × ℕ → List ℕ × ℕ → GraphEndpointRecord
endpoint_candidate n (ros_topic, a) (ros_type, b) (dds_topic, d) (dds_type, e) = record {
  participant_prefix = n.participant_prefix;
  entity_id = n.entity_id;
  node_id = n.node_id;
  kind = n.kind;
  ros_topic_name = ros_topic;
  ros_type_name = ros_type;
  dds_topic_name = dds_topic;
  dds_type_name = dds_type;
  ros_topic_name_size = a;
  ros_type_name_size = b;
  dds_topic_name_size = d;
  dds_type_name_size = e;
  ros_namespace_conventions = n.ros_namespace_conventions;
  local = true;
  occupied = true;
}

abbrev pub endpoint_with_texts :
    EndpointName
    → BytePointer
    → BytePointer
    → BytePointer
    → BytePointer
    → Option GraphEndpointRecord
endpoint_with_texts n ros_topic ros_type dds_topic dds_type = do
  a ← copy_text graph_topic_name_capacity ros_topic false
  b ← copy_text graph_type_name_capacity ros_type false
  d ← copy_text graph_topic_name_capacity dds_topic false
  e ← copy_text graph_type_name_capacity dds_type false
  Option.some (endpoint_candidate n a b d e)

abbrev pub with_endpoints : GraphError → GraphCache → Option (List GraphEndpointRecord) → Outcome
with_endpoints error c Option.none = (error, c)
with_endpoints error c (Option.some endpoints) =
    (GraphError.none, advance_generation true (record c { endpoints = endpoints }))

abbrev pub store_endpoint : GraphCache → Option GraphEndpointRecord → Outcome
store_endpoint c Option.none = (GraphError.invalid_record, c)
store_endpoint c (Option.some candidate) =
    with_endpoints GraphError.capacity_exceeded c
      (replace_first endpoint_free candidate c.endpoints)

unfoldable pub add_local_endpoint :
    GraphCache → EndpointName → BytePointer → BytePointer → BytePointer → BytePointer → Outcome
add_local_endpoint c n ros_topic ros_type dds_topic dds_type =
    if not (nonzero_prefix n.participant_prefix)
      || not (valid_entity n.entity_id)
      || n.node_id == 0
      || not (known_kind n.kind)
    then (GraphError.invalid_argument, c)
    else if not (any (owner n.participant_prefix n.node_id) c.nodes)
    then (GraphError.record_not_found, c)
    else if any (local_endpoint n.entity_id) c.endpoints
    then (GraphError.duplicate_record, c)
    else store_endpoint c (endpoint_with_texts n ros_topic ros_type dds_topic dds_type)

unfoldable pub remove_local_endpoint : GraphCache → EntityId → Outcome
remove_local_endpoint c entity_id =
    with_endpoints GraphError.record_not_found c
      (replace_first (local_endpoint entity_id) no_endpoint c.endpoints)

-- The arrays of a GraphSnapshot up to their counts.
pub record GraphSnapshot : Type 0 where
  pub nodes : List GraphNodeRecord
  pub endpoints : List GraphEndpointRecord
  pub generation : ℕ

abbrev pub node_occupied : GraphNodeRecord → Bool
node_occupied node = node.occupied

abbrev pub endpoint_occupied : GraphEndpointRecord → Bool
endpoint_occupied endpoint = endpoint.occupied

unfoldable pub snapshot : GraphCache → GraphSnapshot
snapshot c = record {
  nodes = collect node_occupied c.nodes;
  endpoints = collect endpoint_occupied c.endpoints;
  generation = c.generation;
}

abbrev pub generation_of : GuidPrefix → RemoteGeneration → Bool
generation_of prefix entry = entry.occupied && bytes_eq entry.participant_prefix prefix

-- The records received from a participant are removed.
abbrev pub without : GraphCache → GuidPrefix → GraphCache
without c prefix = record c {
  nodes = replace_all (remote_node prefix) no_node c.nodes;
  endpoints = replace_all (remote_endpoint prefix) no_endpoint c.endpoints;
}

abbrev pub forgotten : GraphCache → GuidPrefix → GraphCache
forgotten c prefix = record (without c prefix) {
  remote_generations =
      or_same c.remote_generations
        (replace_first (generation_of prefix) no_generation c.remote_generations);
}

unfoldable pub remove_remote_participant : GraphCache → GuidPrefix → GraphUpdate × GraphCache
remove_remote_participant c prefix =
    if any (remote_node prefix) c.nodes || any (remote_endpoint prefix) c.endpoints
    then (GraphUpdate.changed, advance_generation false (forgotten c prefix))
    else (GraphUpdate.unchanged, forgotten c prefix)
