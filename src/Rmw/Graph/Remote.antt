-- ===== src/Rmw/Graph/Remote.antt =====
-- GraphCache::apply_remote of src/rmw/graph_cache.cpp: a snapshot that is read without an error
-- replaces the records of its participant, if it is newer than the last one and if there is room.
use open_rtdds.Prelude.{
  ℕ, suc, Bool, true, false, ◌&&◌, ◌||◌, not, List, [], ◌∷◌, Option, ◌!=◌, ltb, leb, if◌then◌else◌,
  length, get_or, set, BytePointer, sub64,
}
use open_rtdds.Rtps.Types.{GuidPrefix, bytes_eq}
use open_rtdds.Rmw.Graph.Tables.{tally, place_all}
use open_rtdds.Rmw.Graph.Records.{
  graph_node_capacity, graph_endpoint_capacity, GraphError, GraphUpdate, GraphNodeRecord,
  GraphEndpointRecord, RemoteGeneration, GraphCache, no_generation, advance_generation, node_free,
  endpoint_free,
}
use open_rtdds.Rmw.Graph.Cache.{generation_of, without}
use open_rtdds.Rmw.Graph.Received.{
  ReadRecords, header_size, malformed_header, malformed_counts, read_nodes, read_endpoints,
  read_u16, read_u64,
}

abbrev pub is_none : Option ℕ → Bool
is_none Option.none = true
is_none (Option.some index) = false

-- The indices of the participant's entry, and of the first free entry before it.
abbrev pub find_generation : GuidPrefix → ℕ → Option ℕ → List RemoteGeneration → Option ℕ × Option ℕ
find_generation prefix index available [] = (Option.none, available)
find_generation prefix index available (entry ∷ entries) =
    let rest =
      find_generation prefix (suc index)
        (if not entry.occupied && is_none available then Option.some index else available)
        entries in
    if generation_of prefix entry then (Option.some index, available) else rest

abbrev pub kept_node : GuidPrefix → GraphNodeRecord → Bool
kept_node prefix node =
    node.occupied && (node.local || not (bytes_eq node.participant_prefix prefix))

abbrev pub kept_endpoint : GuidPrefix → GraphEndpointRecord → Bool
kept_endpoint prefix endpoint =
    endpoint.occupied && (endpoint.local || not (bytes_eq endpoint.participant_prefix prefix))

abbrev pub Applied : Type 0
Applied = GraphUpdate × GraphError × GraphCache

abbrev pub reject : GraphError → GraphCache → Applied
reject error c = (GraphUpdate.rejected, error, c)

module _ (prefix : GuidPrefix) (remote_generation : ℕ) where
  abbrev pub install : GraphCache → ℕ → List GraphNodeRecord → List GraphEndpointRecord → GraphCache
  install c index nodes endpoints = record c {
    nodes = place_all node_free nodes (without c prefix).nodes;
    endpoints = place_all endpoint_free endpoints (without c prefix).endpoints;
    remote_generations =
        set c.remote_generations index
          (record { participant_prefix = prefix; generation = remote_generation; occupied = true });
  }

  abbrev pub apply_at : GraphCache → ℕ → List GraphNodeRecord → List GraphEndpointRecord → Applied
  apply_at c index nodes endpoints =
      if ltb (sub64 graph_node_capacity (tally (kept_node prefix) c.nodes)) (length nodes)
        || ltb (sub64 graph_endpoint_capacity (tally (kept_endpoint prefix) c.endpoints))
            (length endpoints)
      then reject GraphError.capacity_exceeded c
      else (
        GraphUpdate.changed,
        GraphError.none,
        advance_generation false (install c index nodes endpoints),
      )

  abbrev pub apply_found :
      GraphCache → List GraphNodeRecord → List GraphEndpointRecord → Option ℕ × Option ℕ → Applied
  apply_found c nodes endpoints (Option.some index, available) =
      if leb remote_generation (get_or c.remote_generations index no_generation).generation
      then (GraphUpdate.unchanged, GraphError.stale_snapshot, c)
      else apply_at c index nodes endpoints
  apply_found c nodes endpoints (Option.none, Option.some index) = apply_at c index nodes endpoints
  apply_found c nodes endpoints (Option.none, Option.none) = reject GraphError.capacity_exceeded c

  abbrev pub apply_endpoints :
      GraphCache → ℕ → List GraphNodeRecord → ReadRecords GraphEndpointRecord → Applied
  apply_endpoints c payload_size nodes (ReadRecords.refused error) = reject error c
  apply_endpoints c payload_size nodes (ReadRecords.read position endpoints) =
      if position != payload_size
      then reject GraphError.malformed_snapshot c
      else apply_found c nodes endpoints (find_generation prefix 0 Option.none c.remote_generations)

  abbrev pub apply_nodes : GraphCache → BytePointer → ℕ → ReadRecords GraphNodeRecord → Applied
  apply_nodes c payload payload_size (ReadRecords.refused error) = reject error c
  apply_nodes c payload payload_size (ReadRecords.read position nodes) =
      apply_endpoints c payload_size nodes
        (read_endpoints prefix payload payload_size nodes (read_u16 payload 12) position [])

unfoldable pub apply_remote : GraphCache → GuidPrefix → BytePointer → ℕ → ℕ → Applied
apply_remote c prefix payload payload_size rtps_sequence_number =
    if malformed_header prefix payload payload_size
    then reject GraphError.malformed_snapshot c
    else if malformed_counts payload rtps_sequence_number
    then reject GraphError.malformed_snapshot c
    else apply_nodes prefix (read_u64 payload 16) c payload payload_size
        (read_nodes prefix payload payload_size (read_u16 payload 10) header_size [])
