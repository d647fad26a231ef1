-- ===== src/Rmw/Graph/Foreign.antt =====
-- The operations on the records of another participant keep the invariant of a graph cache.
use open_rtdds.Prelude.{
  ℕ, ◌≡◌, refl, Bool, true, false, ◌||◌, ◌!=◌, List, [], Option, arith, All, Bool-cases, inl, inr,
  BytePointer, ltb, leb, length, get_or, sub64,
}
use open_rtdds.Rtps.Types.{GuidPrefix}
use open_rtdds.Rmw.Graph.Tables.{any, tally, place_all}
use open_rtdds.Rmw.Graph.Counts.{
  All-map, replace_all-tally, replace_all-All, place_all-tally, place_all-All,
}
use open_rtdds.Rmw.Graph.Records.{
  GraphNodeRecord, GraphEndpointRecord, GraphCache, no_node, no_endpoint, no_generation, local_node,
  node_free, endpoint_free, remote_node, remote_endpoint, graph_node_capacity,
  graph_endpoint_capacity,
}
use open_rtdds.Rmw.Graph.Cache.{
  remove_remote_participant, owner, local_endpoint, without, forgotten,
}
use open_rtdds.Rmw.Graph.Received.{
  ReadRecords, header_size, malformed_header, malformed_counts, read_nodes, read_endpoints,
  read_u16, read_u64,
}
use open_rtdds.Rmw.Graph.Remote.{
  kept_node, kept_endpoint, install, apply_at, apply_found, apply_endpoints, apply_nodes,
  apply_remote, find_generation,
}
use open_rtdds.Rmw.Graph.Owners.{IsConsistent, IsOwned, advance-IsConsistent, All-IsOwned}
use open_rtdds.Rmw.Graph.Incoming.{
  Reads, NodeIsRemote, EndpointIsRemote, read_nodes-Reads, read_endpoints-Reads,
}

-- The tables without a participant's records.
without-IsConsistent :
    (c : GraphCache) (prefix : GuidPrefix) → IsConsistent c → IsConsistent (without c prefix)
without-IsConsistent c prefix v =
    let same : (q : GraphNodeRecord → Bool)
        → ((n : GraphNodeRecord) → remote_node prefix n ≡ true → q n ≡ false)
        → q no_node ≡ false
        → tally q (without c prefix).nodes ≡ tally q c.nodes =
      λ q. replace_all-tally (remote_node prefix) q no_node c.nodes in
    record {
      nodes_unique = λ j.
          let u = same (local_node j) (λ n t. ground (arith, t)) refl in
          omega (arith, u, v.nodes_unique j);
      endpoints_unique = λ j.
          let u =
            replace_all-tally (remote_endpoint prefix) (local_endpoint j) no_endpoint c.endpoints
              (λ n t. ground (arith, t)) refl in
          omega (arith, u, v.endpoints_unique j);
      owned =
          All-IsOwned c.nodes (without c prefix).nodes (without c prefix).endpoints
            (λ e.
              let u = same (owner e.participant_prefix e.node_id) (λ n t. ground (arith, t)) refl in
              omega (arith, u))
            (replace_all-All (IsOwned c.nodes) (remote_endpoint prefix) no_endpoint c.endpoints
              (λ sent. cc) v.owned);
      generation_range = v.generation_range;
      local_range = v.local_range;
    }

pub remove_remote_participant-IsConsistent :
    (c : GraphCache) (prefix : GuidPrefix)
    → IsConsistent c
    → IsConsistent (remove_remote_participant c prefix).1
unfolding remove_remote_participant
remove_remote_participant-IsConsistent c prefix v =
    elim (Bool-cases
      (any (remote_node prefix) c.nodes || any (remote_endpoint prefix) c.endpoints)) [
        | inl t ↦ rw t (advance-IsConsistent false (forgotten c prefix) settled)
        | inr f ↦ rw f settled
      ]
  where
    settled : IsConsistent (forgotten c prefix)
    settled =
        let w = without-IsConsistent c prefix v in
        record {
          nodes_unique = w.nodes_unique;
          endpoints_unique = w.endpoints_unique;
          owned = w.owned;
          generation_range = w.generation_range;
          local_range = w.local_range;
        }

install-IsConsistent :
    (c : GraphCache) (prefix : GuidPrefix) (generation index : ℕ) (nodes : List GraphNodeRecord)
    (endpoints : List GraphEndpointRecord)
    → All NodeIsRemote nodes
    → All EndpointIsRemote endpoints
    → IsConsistent c
    → IsConsistent (install prefix generation c index nodes endpoints)
install-IsConsistent c prefix generation index nodes endpoints ns es v =
    let w = without-IsConsistent c prefix v in
    let rest = without c prefix in
    let placed = place_all node_free nodes rest.nodes in
    let same : (q : GraphNodeRecord → Bool)
        → ((n : GraphNodeRecord) → node_free n ≡ true → q n ≡ false)
        → ((n : GraphNodeRecord) → NodeIsRemote n → q n ≡ false)
        → tally q placed ≡ tally q rest.nodes =
      λ q free far.
        place_all-tally node_free q nodes rest.nodes free
          (All-map NodeIsRemote (λ n. q n ≡ false) nodes far ns) in
    record {
      nodes_unique = λ j.
          let u = same (local_node j) (λ n t. ground (arith, t)) (λ n t. ground (arith, t)) in
          omega (arith, u, w.nodes_unique j);
      endpoints_unique = λ j.
          let u =
            place_all-tally endpoint_free (local_endpoint j) endpoints rest.endpoints
              (λ n t. ground (arith, t))
              (All-map EndpointIsRemote (λ e. local_endpoint j e ≡ false) endpoints
                (λ e t. ground (arith, t)) es) in
          omega (arith, u, w.endpoints_unique j);
      owned =
          All-IsOwned rest.nodes placed (place_all endpoint_free endpoints rest.endpoints)
            (λ e.
              let u =
                same (owner e.participant_prefix e.node_id) (λ n t. ground (arith, t))
                  (λ n t. ground (arith, t)) in
              omega (arith, u))
            (place_all-All (IsOwned rest.nodes) endpoint_free endpoints rest.endpoints
              (All-map EndpointIsRemote (IsOwned rest.nodes) endpoints
                (λ e t sent. absurd (ground (arith, t, sent))) es)
              w.owned);
      generation_range = w.generation_range;
      local_range = w.local_range;
    }

apply_at-IsConsistent :
    (c : GraphCache) (prefix : GuidPrefix) (generation index : ℕ) (nodes : List GraphNodeRecord)
    (endpoints : List GraphEndpointRecord)
    → All NodeIsRemote nodes
    → All EndpointIsRemote endpoints
    → IsConsistent c
    → IsConsistent (apply_at prefix generation c index nodes endpoints).2
apply_at-IsConsistent c prefix generation index nodes endpoints ns es v =
    elim (Bool-cases (
      ltb (sub64 graph_node_capacity (tally (kept_node prefix) c.nodes)) (length nodes)
      || ltb (sub64 graph_endpoint_capacity (tally (kept_endpoint prefix) c.endpoints))
          (length endpoints))) [
            | inl t ↦ rw t v
            | inr f ↦ rw f (
                advance-IsConsistent false (install prefix generation c index nodes endpoints)
                  (install-IsConsistent c prefix generation index nodes endpoints ns es v))
          ]

apply_found-IsConsistent :
    (c : GraphCache) (prefix : GuidPrefix) (generation : ℕ) (nodes : List GraphNodeRecord)
    (endpoints : List GraphEndpointRecord) (found : Option ℕ × Option ℕ)
    → All NodeIsRemote nodes
    → All EndpointIsRemote endpoints
    → IsConsistent c
    → IsConsistent (apply_found prefix generation c nodes endpoints found).2
apply_found-IsConsistent c prefix generation nodes endpoints (Option.some index, available) ns es
      v =
    elim (Bool-cases
      (leb generation (get_or c.remote_generations index no_generation).generation)) [
        | inl t ↦ rw t v
        | inr f ↦ rw f (apply_at-IsConsistent c prefix generation index nodes endpoints ns es v)
      ]
apply_found-IsConsistent c prefix generation nodes endpoints (Option.none, Option.some index) ns es
      v =
    apply_at-IsConsistent c prefix generation index nodes endpoints ns es v
apply_found-IsConsistent c prefix generation nodes endpoints (Option.none, Option.none) ns es v = v

apply_endpoints-IsConsistent :
    (c : GraphCache) (prefix : GuidPrefix) (generation payload_size : ℕ)
    (nodes : List GraphNodeRecord) (result : ReadRecords GraphEndpointRecord)
    → All NodeIsRemote nodes
    → Reads EndpointIsRemote result
    → IsConsistent c
    → IsConsistent (apply_endpoints prefix generation c payload_size nodes result).2
apply_endpoints-IsConsistent c prefix generation payload_size nodes (ReadRecords.refused error) ns
      es v =
    v
apply_endpoints-IsConsistent c prefix generation payload_size nodes
      (ReadRecords.read position endpoints) ns es v =
    elim (Bool-cases (position != payload_size)) [
      | inl t ↦ rw t v
      | inr f ↦ rw f (
          apply_found-IsConsistent c prefix generation nodes endpoints
            (find_generation prefix 0 Option.none c.remote_generations) ns es v)
    ]

apply_nodes-IsConsistent :
    (c : GraphCache) (prefix : GuidPrefix) (generation : ℕ) (payload : BytePointer)
    (payload_size : ℕ) (result : ReadRecords GraphNodeRecord)
    → Reads NodeIsRemote result
    → IsConsistent c
    → IsConsistent (apply_nodes prefix generation c payload payload_size result).2
apply_nodes-IsConsistent c prefix generation payload payload_size (ReadRecords.refused error) ns v =
    v
apply_nodes-IsConsistent c prefix generation payload payload_size (ReadRecords.read position nodes)
      ns v =
    apply_endpoints-IsConsistent c prefix generation payload_size nodes
      (read_endpoints prefix payload payload_size nodes (read_u16 payload 12) position []) ns
      (read_endpoints-Reads prefix payload payload_size nodes (read_u16 payload 12) position [] _) v

pub apply_remote-IsConsistent :
    (c : GraphCache) (prefix : GuidPrefix) (payload : BytePointer) (payload_size sequence : ℕ)
    → IsConsistent c
    → IsConsistent (apply_remote c prefix payload payload_size sequence).2
unfolding apply_remote
apply_remote-IsConsistent c prefix payload payload_size sequence v =
    elim (Bool-cases (malformed_header prefix payload payload_size)) [
      | inl t ↦ rw t v
      | inr f ↦ rw f (elim (Bool-cases (malformed_counts payload sequence)) [
        | inl t ↦ rw t v
        | inr g ↦ rw g (
            apply_nodes-IsConsistent c prefix (read_u64 payload 16) payload payload_size
              (read_nodes prefix payload payload_size (read_u16 payload 10) header_size [])
              (read_nodes-Reads prefix payload payload_size (read_u16 payload 10) header_size [] _)
              v)
      ])
    ]
