-- ===== src/Rmw/Graph/Incoming.antt =====
-- The records that the parser of a snapshot gives are records of another participant.
use open_rtdds.Prelude.{
  subst, ℕ, zero, suc, ◌+◌, ◌≡◌, refl, false, List, [], ◌∷◌, ◌++◌, Option, All, All-append,
  Bool-cases, Option-cases, inl, inr, BytePointer, ◌||◌, ◌==◌, ◌!=◌, ltb, not, add64,
}
use open_rtdds.Rtps.Types.{GuidPrefix}
use open_rtdds.Rtps.Wire.{entity_at}
use open_rtdds.Serialization.Cdr.{byte_at}
use open_rtdds.Rmw.Graph.Tables.{any}
use open_rtdds.Rmw.Graph.Counts.{When, bind-When, refuse-When, When-some}
use open_rtdds.Rmw.Graph.Records.{
  graph_node_name_capacity, graph_namespace_capacity, graph_enclave_capacity,
  graph_topic_name_capacity, graph_type_name_capacity, valid_entity, known_kind, GraphNodeRecord,
  GraphEndpointRecord,
}
use open_rtdds.Rmw.Graph.Received.{
  node_header_size, endpoint_header_size, too_short, read_u16, read_u64, read_text, has_node_id,
  kind_at, ReadRecords, read_node, same_node_id, read_nodes, read_endpoint, same_entity,
  read_endpoints,
}

-- Whatever is read has a property.
abbrev pub Reads : {A : Type 0} → (A → Type 0) → ReadRecords A → Type 0
Reads P (ReadRecords.refused error) = Unit
Reads P (ReadRecords.read position records) = All P records

abbrev pub NodeIsRemote : GraphNodeRecord → Type 0
NodeIsRemote node = node.local ≡ false

abbrev pub EndpointIsRemote : GraphEndpointRecord → Type 0
EndpointIsRemote endpoint = endpoint.local ≡ false

module _ (prefix : GuidPrefix) (payload : BytePointer) (payload_size : ℕ) where
  read_node-NodeIsRemote :
      (start : ℕ) (r : ℕ × GraphNodeRecord)
      → read_node prefix payload payload_size start ≡ Option.some r
      → NodeIsRemote r.1
  read_node-NodeIsRemote start r h = When-some (
      subst (When (λ r. NodeIsRemote r.1)) h (
        refuse-When (too_short payload_size start node_header_size) (
          refuse-When
            (read_u64 payload start == 0
              || byte_at payload (start + 14) != 0
              || byte_at payload (start + 15) != 0)
            (bind-When
              (read_text payload payload_size (add64 start node_header_size)
                (read_u16 payload (start + 8)) graph_node_name_capacity false)
              (λ a.
                bind-When
                  (read_text payload payload_size a.0 (read_u16 payload (start + 10))
                    graph_namespace_capacity false)
                  (λ b.
                    bind-When
                      (read_text payload payload_size b.0 (read_u16 payload (start + 12))
                        graph_enclave_capacity false)
                      (λ c. When.just refl)))))))

  pub read_nodes-Reads :
      (rounds position : ℕ) (nodes : List GraphNodeRecord)
      → All NodeIsRemote nodes
      → Reads NodeIsRemote (read_nodes prefix payload payload_size rounds position nodes)
  read_nodes-Reads zero position nodes a = a
  read_nodes-Reads (suc rounds) position nodes a =
      elim (Option-cases (read_node prefix payload payload_size position)) [
        | inl n ↦ rw n _
        | inr (r, e) ↦
            rw e (elim (Bool-cases (any (same_node_id prefix payload payload_size r.1) nodes)) [
              | inl t ↦ rw t _
              | inr f ↦ rw f (
                  read_nodes-Reads rounds r.0 (nodes ++ r.1 ∷ []) (
                    All-append NodeIsRemote nodes (r.1 ∷ []) a
                      (read_node-NodeIsRemote position r e, _)))
            ])
      ]

  read_endpoint-EndpointIsRemote :
      (nodes : List GraphNodeRecord) (start : ℕ) (r : ℕ × GraphEndpointRecord)
      → read_endpoint prefix payload payload_size nodes start ≡ Option.some r
      → EndpointIsRemote r.1
  read_endpoint-EndpointIsRemote nodes start r h = When-some (
      subst (When (λ r. EndpointIsRemote r.1)) h (
        refuse-When (too_short payload_size start endpoint_header_size) (
          refuse-When
            (not (valid_entity (entity_at payload (start + 8)))
              || not (any (has_node_id prefix payload payload_size (read_u64 payload start)) nodes)
              || not (known_kind (kind_at prefix payload payload_size (start + 12)))
              || ltb 1 (byte_at payload (start + 13))
              || byte_at payload (start + 14) != 0
              || byte_at payload (start + 15) != 0)
            (bind-When
              (read_text payload payload_size (add64 start endpoint_header_size)
                (read_u16 payload (start + 16)) graph_topic_name_capacity false)
              (λ a.
                bind-When
                  (read_text payload payload_size a.0 (read_u16 payload (start + 18))
                    graph_type_name_capacity false)
                  (λ b.
                    bind-When
                      (read_text payload payload_size b.0 (read_u16 payload (start + 20))
                        graph_topic_name_capacity false)
                      (λ c.
                        bind-When
                          (read_text payload payload_size c.0 (read_u16 payload (start + 22))
                            graph_type_name_capacity false)
                          (λ d. When.just refl))))))))

  pub read_endpoints-Reads :
      (nodes : List GraphNodeRecord) (rounds position : ℕ) (endpoints : List GraphEndpointRecord)
      → All EndpointIsRemote endpoints
      → Reads EndpointIsRemote
          (read_endpoints prefix payload payload_size nodes rounds position endpoints)
  read_endpoints-Reads nodes zero position endpoints a = a
  read_endpoints-Reads nodes (suc rounds) position endpoints a =
      elim (Option-cases (read_endpoint prefix payload payload_size nodes position)) [
        | inl n ↦ rw n _
        | inr (r, e) ↦
            rw e (elim (Bool-cases (any (same_entity prefix payload payload_size r.1) endpoints)) [
              | inl t ↦ rw t _
              | inr f ↦ rw f (
                  read_endpoints-Reads nodes rounds r.0 (endpoints ++ r.1 ∷ []) (
                    All-append EndpointIsRemote endpoints (r.1 ∷ []) a
                      (read_endpoint-EndpointIsRemote nodes position r e, _)))
            ])
      ]
