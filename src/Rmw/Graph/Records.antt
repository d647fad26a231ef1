-- ===== src/Rmw/Graph/Records.antt =====
-- The records of include/openrtdds/rmw/graph_cache.hpp and the helpers on texts of
-- src/rmw/graph_cache.cpp. A `char` array is its bytes.
use open_rtdds.Prelude.{
  ℕ, Bool, true, false, ◌&&◌, ◌||◌, not, List, Option, ◌==◌, ◌!=◌, leb, if◌then◌else◌, bit_or,
  replicate, take, blit, BytePointer, add64, int64_max,
}
use open_rtdds.Rtps.Types.{GuidPrefix, EntityId, bytes_eq}
use open_rtdds.Rmw.Context.{bounded_length}

abbrev pub graph_local_node_capacity : ℕ
graph_local_node_capacity = 8

abbrev pub graph_local_endpoint_capacity : ℕ
graph_local_endpoint_capacity = 16

abbrev pub graph_remote_participant_capacity : ℕ
graph_remote_participant_capacity = 16

abbrev pub graph_node_capacity : ℕ
graph_node_capacity = 136

abbrev pub graph_endpoint_capacity : ℕ
graph_endpoint_capacity = 48

abbrev pub graph_node_name_capacity : ℕ
graph_node_name_capacity = 64

abbrev pub graph_namespace_capacity : ℕ
graph_namespace_capacity = 128

abbrev pub graph_enclave_capacity : ℕ
graph_enclave_capacity = 256

abbrev pub graph_topic_name_capacity : ℕ
graph_topic_name_capacity = 256

abbrev pub graph_type_name_capacity : ℕ
graph_type_name_capacity = 256

-- A cast from a byte of a message may give a value without a name.
pub data GraphEndpointKind : Type 0 where
  publisher subscription : GraphEndpointKind
  unnamed : ℕ → GraphEndpointKind

pub data GraphError : Type 0 where
  none invalid_argument invalid_record capacity_exceeded duplicate_record : GraphError
  record_not_found stale_snapshot malformed_snapshot buffer_overflow : GraphError

pub data GraphUpdate : Type 0 where
  unchanged changed rejected : GraphUpdate

pub record GraphNodeRecord : Type 0 where
  pub participant_prefix : GuidPrefix
  pub node_id : ℕ
  pub name : List ℕ
  pub name_space : List ℕ
  pub enclave : List ℕ
  pub name_size : ℕ
  pub namespace_size : ℕ
  pub enclave_size : ℕ
  pub local : Bool
  pub occupied : Bool

pub record GraphEndpointRecord : Type 0 where
  pub participant_prefix : GuidPrefix
  pub entity_id : EntityId
  pub node_id : ℕ
  pub kind : GraphEndpointKind
  pub ros_topic_name : List ℕ
  pub ros_type_name : List ℕ
  pub dds_topic_name : List ℕ
  pub dds_type_name : List ℕ
  pub ros_topic_name_size : ℕ
  pub ros_type_name_size : ℕ
  pub dds_topic_name_size : ℕ
  pub dds_type_name_size : ℕ
  pub ros_namespace_conventions : Bool
  pub local : Bool
  pub occupied : Bool

pub record RemoteGeneration : Type 0 where
  pub participant_prefix : GuidPrefix
  pub generation : ℕ
  pub occupied : Bool

pub record GraphCache : Type 0 where
  pub nodes : List GraphNodeRecord
  pub endpoints : List GraphEndpointRecord
  pub remote_generations : List RemoteGeneration
  pub generation : ℕ
  pub local_generation : ℕ

abbrev pub no_node : GraphNodeRecord
no_node = record {
  participant_prefix = replicate 12 0;
  node_id = 0;
  name = replicate graph_node_name_capacity 0;
  name_space = replicate graph_namespace_capacity 0;
  enclave = replicate graph_enclave_capacity 0;
  name_size = 0;
  namespace_size = 0;
  enclave_size = 0;
  local = false;
  occupied = false;
}

abbrev pub no_endpoint : GraphEndpointRecord
no_endpoint = record {
  participant_prefix = replicate 12 0;
  entity_id = record { e0 = 0; e1 = 0; e2 = 0; e3 = 0 };
  node_id = 0;
  kind = GraphEndpointKind.publisher;
  ros_topic_name = replicate graph_topic_name_capacity 0;
  ros_type_name = replicate graph_type_name_capacity 0;
  dds_topic_name = replicate graph_topic_name_capacity 0;
  dds_type_name = replicate graph_type_name_capacity 0;
  ros_topic_name_size = 0;
  ros_type_name_size = 0;
  dds_topic_name_size = 0;
  dds_type_name_size = 0;
  ros_namespace_conventions = true;
  local = false;
  occupied = false;
}

abbrev pub no_generation : RemoteGeneration
no_generation = record { participant_prefix = replicate 12 0; generation = 0; occupied = false }

abbrev pub new_cache : GraphCache
new_cache = record {
  nodes = replicate graph_node_capacity no_node;
  endpoints = replicate graph_endpoint_capacity no_endpoint;
  remote_generations = replicate graph_remote_participant_capacity no_generation;
  generation = 1;
  local_generation = 1;
}

abbrev pub valid_entity : EntityId → Bool
valid_entity entity = bit_or (bit_or (bit_or entity.e0 entity.e1) entity.e2) entity.e3 != 0

abbrev pub known_kind : GraphEndpointKind → Bool
known_kind (GraphEndpointKind.unnamed value) = false
known_kind _ = true

-- The array and the size of its text.
abbrev pub copy_text : ℕ → BytePointer → Bool → Option (List ℕ × ℕ)
copy_text capacity Option.none empty_allowed = Option.none
copy_text capacity (Option.some input) empty_allowed =
    let size = bounded_length (Option.some input) capacity in
    if leb capacity size || not empty_allowed && size == 0
    then Option.none
    else Option.some (blit (replicate capacity 0) 0 (take size input), size)

abbrev pub next_count : ℕ → ℕ
next_count generation = if leb int64_max generation then 1 else add64 generation 1

abbrev pub advance_generation : Bool → GraphCache → GraphCache
advance_generation local_change c = record c {
  generation = next_count c.generation;
  local_generation = if local_change then next_count c.local_generation else c.local_generation;
}

-- Tests of the loops: a record of this participant, and one that was received from another.
abbrev pub node_free : GraphNodeRecord → Bool
node_free node = not node.occupied

abbrev pub endpoint_free : GraphEndpointRecord → Bool
endpoint_free endpoint = not endpoint.occupied

abbrev pub local_node : ℕ → GraphNodeRecord → Bool
local_node node_id node = node.occupied && node.local && node.node_id == node_id

abbrev pub remote_node : GuidPrefix → GraphNodeRecord → Bool
remote_node prefix node = node.occupied && not node.local && bytes_eq node.participant_prefix prefix

abbrev pub remote_endpoint : GuidPrefix → GraphEndpointRecord → Bool
remote_endpoint prefix endpoint =
    endpoint.occupied && not endpoint.local && bytes_eq endpoint.participant_prefix prefix
