-- ===== src/Rmw/Graph/Received.antt =====
-- The parser of a participant's snapshot, from src/rmw/graph_cache.cpp's apply_remote: the header, then
-- the nodes and the endpoints. The arrays of incoming records are lists of the records read so far.
use open_rtdds.Prelude.{
  ℕ, zero, suc, ◌+◌, Bool, true, false, ◌&&◌, ◌||◌, not, List, [], ◌∷◌, ◌++◌, Option, ◌==◌, ◌!=◌,
  ltb, leb, if◌then◌else◌, replicate, blit, BytePointer, add64, sub64, int64_max,
}
use open_rtdds.Core.History.{is_null}
use open_rtdds.Rtps.Types.{little_endian, GuidPrefix, entity_eq, bytes_eq}
use open_rtdds.Rtps.Router.{nonzero_prefix}
use open_rtdds.Rtps.Wire.{read_uint16, entity_at}
use open_rtdds.Serialization.Cdr.{byte_at}
use open_rtdds.Serialization.Integral.{load_integral}
use open_rtdds.Serialization.Reader.{bytes_from}
use open_rtdds.Rmw.Graph.Tables.{◌>>=◌, any}
use open_rtdds.Rmw.Graph.Records.{
  graph_local_node_capacity, graph_local_endpoint_capacity, graph_node_name_capacity,
  graph_namespace_capacity, graph_enclave_capacity, graph_topic_name_capacity,
  graph_type_name_capacity, GraphEndpointKind, GraphError, GraphNodeRecord, GraphEndpointRecord,
  valid_entity, known_kind,
}

abbrev pub encapsulation : List ℕ
encapsulation = 0 ∷ 1 ∷ 0 ∷ 0 ∷ []

-- "ORTG"
abbrev pub magic : List ℕ
magic = 79 ∷ 82 ∷ 84 ∷ 71 ∷ []

abbrev pub version : ℕ
version = 1

abbrev pub header_size : ℕ
header_size = 24

abbrev pub node_header_size : ℕ
node_header_size = 16

abbrev pub endpoint_header_size : ℕ
endpoint_header_size = 24

abbrev pub read_u16 : BytePointer → ℕ → ℕ
read_u16 input index = read_uint16 input index little_endian

abbrev pub read_u64 : BytePointer → ℕ → ℕ
read_u64 input index = load_integral little_endian index 8 input

-- The position after the text, and its array.
abbrev pub read_text : BytePointer → ℕ → ℕ → ℕ → ℕ → Bool → Option (ℕ × List ℕ)
read_text payload payload_size position size capacity empty_allowed =
    if leb capacity size
      || not empty_allowed && size == 0
      || ltb payload_size position
      || ltb (sub64 payload_size position) size
    then Option.none
    else Option.some
        (add64 position size, blit (replicate capacity 0) 0 (bytes_from payload position size))

abbrev pub malformed_header : GuidPrefix → BytePointer → ℕ → Bool
malformed_header prefix payload payload_size =
    not (nonzero_prefix prefix)
    || is_null payload
    || ltb payload_size header_size
    || not (bytes_eq (bytes_from payload 0 4) encapsulation)
    || not (bytes_eq (bytes_from payload 4 4) magic)
    || byte_at payload 8 != version
    || byte_at payload 9 != 0
    || byte_at payload 14 != 0
    || byte_at payload 15 != 0

abbrev pub malformed_counts : BytePointer → ℕ → Bool
malformed_counts payload rtps_sequence_number =
    ltb graph_local_node_capacity (read_u16 payload 10)
    || ltb graph_local_endpoint_capacity (read_u16 payload 12)
    || read_u64 payload 16 == 0
    || ltb int64_max (read_u64 payload 16)
    || read_u64 payload 16 != rtps_sequence_number

-- What the loops over the records leave: an error, or the position and the records.
pub data ReadRecords (A : Type 0) : Type 0 where
  refused : GraphError → ReadRecords A
  read : ℕ → List A → ReadRecords A

abbrev pub and_then : {A B : Type 0} → ReadRecords A → (ℕ → List A → ReadRecords B) → ReadRecords B
and_then (ReadRecords.refused error) next = ReadRecords.refused error
and_then (ReadRecords.read position records) next = next position records

abbrev pub too_short : ℕ → ℕ → ℕ → Bool
too_short payload_size position amount =
    ltb payload_size position || ltb (sub64 payload_size position) amount

module _ (prefix : GuidPrefix) (payload : BytePointer) (payload_size : ℕ) where
  -- A record with its texts, and the position after them.
  abbrev pub read_node_texts : ℕ → Option (ℕ × GraphNodeRecord)
  read_node_texts start = do
    name ←
        read_text payload payload_size (add64 start node_header_size) (read_u16 payload (start + 8))
          graph_node_name_capacity false
    name_space ←
        read_text payload payload_size name.0 (read_u16 payload (start + 10))
          graph_namespace_capacity false
    enclave ←
        read_text payload payload_size name_space.0 (read_u16 payload (start + 12))
          graph_enclave_capacity false
    Option.some (
      enclave.0,
      record {
        participant_prefix = prefix;
        node_id = read_u64 payload start;
        name = name.1;
        name_space = name_space.1;
        enclave = enclave.1;
        name_size = read_u16 payload (start + 8);
        namespace_size = read_u16 payload (start + 10);
        enclave_size = read_u16 payload (start + 12);
        local = false;
        occupied = true;
      },
    )

  abbrev pub read_node : ℕ → Option (ℕ × GraphNodeRecord)
  read_node start =
      if too_short payload_size start node_header_size
      then Option.none
      else if read_u64 payload start == 0
          || byte_at payload (start + 14) != 0
          || byte_at payload (start + 15) != 0
      then Option.none
      else read_node_texts start

  abbrev pub same_node_id : GraphNodeRecord → GraphNodeRecord → Bool
  same_node_id a b = b.node_id == a.node_id

  abbrev pub keep_node :
      List GraphNodeRecord → Option (ℕ × GraphNodeRecord) → ReadRecords GraphNodeRecord
  keep_node nodes Option.none = ReadRecords.refused GraphError.malformed_snapshot
  keep_node nodes (Option.some (position, candidate)) =
      if any (same_node_id candidate) nodes
      then ReadRecords.refused GraphError.duplicate_record
      else ReadRecords.read position (nodes ++ candidate ∷ [])

  -- The loop over the rounds that are left.
  abbrev pub read_nodes : ℕ → ℕ → List GraphNodeRecord → ReadRecords GraphNodeRecord
  read_nodes zero position nodes = ReadRecords.read position nodes
  read_nodes (suc rounds) position nodes =
      and_then (keep_node nodes (read_node position)) (read_nodes rounds)

  abbrev pub kind_at : ℕ → GraphEndpointKind
  kind_at index =
      if byte_at payload index == 1
      then GraphEndpointKind.publisher
      else if byte_at payload index == 2
      then GraphEndpointKind.subscription
      else GraphEndpointKind.unnamed (byte_at payload index)

  abbrev pub read_endpoint_texts : ℕ → Option (ℕ × GraphEndpointRecord)
  read_endpoint_texts start = do
    ros_topic ←
        read_text payload payload_size (add64 start endpoint_header_size)
          (read_u16 payload (start + 16)) graph_topic_name_capacity false
    ros_type ←
        read_text payload payload_size ros_topic.0 (read_u16 payload (start + 18))
          graph_type_name_capacity false
    dds_topic ←
        read_text payload payload_size ros_type.0 (read_u16 payload (start + 20))
          graph_topic_name_capacity false
    dds_type ←
        read_text payload payload_size dds_topic.0 (read_u16 payload (start + 22))
          graph_type_name_capacity false
    Option.some (
      dds_type.0,
      record {
        participant_prefix = prefix;
        entity_id = entity_at payload (start + 8);
        node_id = read_u64 payload start;
        kind = kind_at (start + 12);
        ros_topic_name = ros_topic.1;
        ros_type_name = ros_type.1;
        dds_topic_name = dds_topic.1;
        dds_type_name = dds_type.1;
        ros_topic_name_size = read_u16 payload (start + 16);
        ros_type_name_size = read_u16 payload (start + 18);
        dds_topic_name_size = read_u16 payload (start + 20);
        dds_type_name_size = read_u16 payload (start + 22);
        ros_namespace_conventions = byte_at payload (start + 13) == 1;
        local = false;
        occupied = true;
      },
    )

  abbrev pub has_node_id : ℕ → GraphNodeRecord → Bool
  has_node_id node_id node = node.node_id == node_id

  abbrev pub read_endpoint : List GraphNodeRecord → ℕ → Option (ℕ × GraphEndpointRecord)
  read_endpoint nodes start =
      if too_short payload_size start endpoint_header_size
      then Option.none
      else if not (valid_entity (entity_at payload (start + 8)))
          || not (any (has_node_id (read_u64 payload start)) nodes)
          || not (known_kind (kind_at (start + 12)))
          || ltb 1 (byte_at payload (start + 13))
          || byte_at payload (start + 14) != 0
          || byte_at payload (start + 15) != 0
      then Option.none
      else read_endpoint_texts start

  abbrev pub same_entity : GraphEndpointRecord → GraphEndpointRecord → Bool
  same_entity a b = entity_eq b.entity_id a.entity_id

  abbrev pub keep_endpoint :
      List GraphEndpointRecord → Option (ℕ × GraphEndpointRecord) → ReadRecords GraphEndpointRecord
  keep_endpoint endpoints Option.none = ReadRecords.refused GraphError.malformed_snapshot
  keep_endpoint endpoints (Option.some (position, candidate)) =
      if any (same_entity candidate) endpoints
      then ReadRecords.refused GraphError.duplicate_record
      else ReadRecords.read position (endpoints ++ candidate ∷ [])

  abbrev pub read_endpoints :
      List GraphNodeRecord → ℕ → ℕ → List GraphEndpointRecord → ReadRecords GraphEndpointRecord
  read_endpoints nodes zero position endpoints = ReadRecords.read position endpoints
  read_endpoints nodes (suc rounds) position endpoints =
      and_then (keep_endpoint endpoints (read_endpoint nodes position))
        (read_endpoints nodes rounds)
