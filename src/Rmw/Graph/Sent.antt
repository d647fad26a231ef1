-- ===== src/Rmw/Graph/Sent.antt =====
-- GraphCache::serialize_local of src/rmw/graph_cache.cpp. It gives the error, the size and the
-- generation that it sets, and the memory behind the output pointer, written in part on an overflow.
use open_rtdds.Prelude.{
  ℕ, ◌+◌, ◌%◌, ◌^◌, Bool, ◌&&◌, ◌||◌, not, List, [], ◌∷◌, ltb, if◌then◌else◌, take, BytePointer,
  add64,
}
use open_rtdds.Core.History.{is_null}
use open_rtdds.Rtps.Types.{little_endian}
use open_rtdds.Rtps.Wire.{write_uint16, entity_bytes}
use open_rtdds.Serialization.Cdr.{put_byte, copy_to}
use open_rtdds.Serialization.Integral.{store_integral}
use open_rtdds.Rmw.Graph.Tables.{tally}
use open_rtdds.Rmw.Graph.Records.{
  graph_local_node_capacity, graph_local_endpoint_capacity, GraphEndpointKind, GraphError,
  GraphNodeRecord, GraphEndpointRecord, GraphCache,
}
use open_rtdds.Rmw.Graph.Received.{
  encapsulation, magic, version, header_size, node_header_size, endpoint_header_size, too_short,
}

abbrev pub write_u16 : BytePointer → ℕ → ℕ → BytePointer
write_u16 output index value = write_uint16 output index value little_endian

abbrev pub write_u64 : BytePointer → ℕ → ℕ → BytePointer
write_u64 output index value = store_integral little_endian index value 8 output

abbrev pub kind_value : GraphEndpointKind → ℕ
kind_value GraphEndpointKind.publisher = 1
kind_value GraphEndpointKind.subscription = 2
kind_value (GraphEndpointKind.unnamed value) = value

abbrev pub node_is_sent : GraphNodeRecord → Bool
node_is_sent node = node.occupied && node.local

abbrev pub endpoint_is_sent : GraphEndpointRecord → Bool
endpoint_is_sent endpoint = endpoint.occupied && endpoint.local

-- What the loops over the records leave: the memory, with the position after what is written.
pub data Emitted : Type 0 where
  overflowed : BytePointer → Emitted
  emitted : ℕ → BytePointer → Emitted

abbrev pub write_header : BytePointer → ℕ → ℕ → ℕ → BytePointer
write_header output node_count endpoint_count generation =
    let named = copy_to (copy_to output 0 encapsulation) 4 magic in
    let versioned = put_byte (put_byte named 8 version) 9 0 in
    let counted = write_u16 (write_u16 versioned 10 node_count) 12 endpoint_count in
    write_u64 (put_byte (put_byte counted 14 0) 15 0) 16 generation

abbrev pub node_size : GraphNodeRecord → ℕ
node_size node =
    add64 (add64 (add64 node_header_size node.name_size) node.namespace_size) node.enclave_size

abbrev pub write_node : GraphNodeRecord → ℕ → BytePointer → BytePointer
write_node node start output =
    let named =
      write_u16 (write_u64 output start node.node_id) (start + 8) (node.name_size % 2 ^ 16) in
    let spaced = write_u16 named (start + 10) (node.namespace_size % 2 ^ 16) in
    let enclosed = write_u16 spaced (start + 12) (node.enclave_size % 2 ^ 16) in
    let cleared = put_byte (put_byte enclosed (start + 14) 0) (start + 15) 0 in
    let a = add64 start node_header_size in
    let b = add64 a node.name_size in
    let c = add64 b node.namespace_size in
    copy_to
      (copy_to (copy_to cleared a (take node.name_size node.name)) b
        (take node.namespace_size node.name_space))
      c (take node.enclave_size node.enclave)

abbrev pub endpoint_size : GraphEndpointRecord → ℕ
endpoint_size endpoint =
    add64
      (add64
        (add64 (add64 endpoint_header_size endpoint.ros_topic_name_size)
          endpoint.ros_type_name_size)
        endpoint.dds_topic_name_size)
      endpoint.dds_type_name_size

abbrev pub write_endpoint_head : GraphEndpointRecord → ℕ → BytePointer → BytePointer
write_endpoint_head endpoint start output =
    let owned = write_u64 output start endpoint.node_id in
    let identified = copy_to owned (start + 8) (entity_bytes endpoint.entity_id) in
    let typed = put_byte identified (start + 12) (kind_value endpoint.kind) in
    let flagged =
      put_byte typed (start + 13) (if endpoint.ros_namespace_conventions then 1 else 0) in
    let cleared = put_byte (put_byte flagged (start + 14) 0) (start + 15) 0 in
    let a = write_u16 cleared (start + 16) (endpoint.ros_topic_name_size % 2 ^ 16) in
    let b = write_u16 a (start + 18) (endpoint.ros_type_name_size % 2 ^ 16) in
    let c = write_u16 b (start + 20) (endpoint.dds_topic_name_size % 2 ^ 16) in
    write_u16 c (start + 22) (endpoint.dds_type_name_size % 2 ^ 16)

abbrev pub write_endpoint : GraphEndpointRecord → ℕ → BytePointer → BytePointer
write_endpoint endpoint start output =
    let a = add64 start endpoint_header_size in
    let b = add64 a endpoint.ros_topic_name_size in
    let c = add64 b endpoint.ros_type_name_size in
    let d = add64 c endpoint.dds_topic_name_size in
    copy_to
      (copy_to
        (copy_to
          (copy_to (write_endpoint_head endpoint start output) a
            (take endpoint.ros_topic_name_size endpoint.ros_topic_name))
          b (take endpoint.ros_type_name_size endpoint.ros_type_name))
        c (take endpoint.dds_topic_name_size endpoint.dds_topic_name))
      d (take endpoint.dds_type_name_size endpoint.dds_type_name)

-- The loop over the records, of nodes or of endpoints. After an overflow nothing is written.
module _ {A : Type 0} (is_sent : A → Bool) (size : A → ℕ) where
  module _ (write : A → ℕ → BytePointer → BytePointer) (capacity : ℕ) where
    abbrev pub write_record : A → Emitted → Emitted
    write_record x (Emitted.overflowed output) = Emitted.overflowed output
    write_record x (Emitted.emitted position output) =
        if not (is_sent x)
        then Emitted.emitted position output
        else if too_short capacity position (size x)
        then Emitted.overflowed output
        else Emitted.emitted (add64 position (size x)) (write x position output)

    abbrev pub write_records : List A → Emitted → Emitted
    write_records [] state = state
    write_records (x ∷ xs) state = write_records xs (write_record x state)

abbrev pub Serialized : Type 0
Serialized = GraphError × ℕ × ℕ × BytePointer

abbrev pub finish_endpoints : ℕ → Emitted → Serialized
finish_endpoints generation (Emitted.overflowed output) =
    (GraphError.buffer_overflow, 0, generation, output)
finish_endpoints generation (Emitted.emitted position output) =
    (GraphError.none, position, generation, output)

abbrev pub finish_nodes : GraphCache → ℕ → Emitted → Serialized
finish_nodes c capacity (Emitted.overflowed output) =
    (GraphError.buffer_overflow, 0, c.local_generation, output)
finish_nodes c capacity (Emitted.emitted position output) = finish_endpoints c.local_generation (
    write_records endpoint_is_sent endpoint_size write_endpoint capacity c.endpoints
      (Emitted.emitted position output))

unfoldable pub serialize_local : GraphCache → BytePointer → ℕ → Serialized
serialize_local c output capacity =
    let node_count = tally node_is_sent c.nodes % 2 ^ 16 in
    let endpoint_count = tally endpoint_is_sent c.endpoints % 2 ^ 16 in
    if is_null output || ltb capacity header_size
    then (GraphError.invalid_argument, 0, c.local_generation, output)
    else if ltb graph_local_node_capacity node_count
        || ltb graph_local_endpoint_capacity endpoint_count
    then (GraphError.capacity_exceeded, 0, c.local_generation, output)
    else finish_nodes c capacity (
        write_records node_is_sent node_size write_node capacity c.nodes (
          Emitted.emitted header_size
            (write_header output node_count endpoint_count c.local_generation)))
