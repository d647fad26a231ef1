-- ===== src/Rmw/Graph/Endpoints.antt =====
-- The operations on endpoints keep the invariant of a
-- graph cache.
use open_rtdds.Prelude.{
  ◌≡◌, ◌≢◌, refl, sym, subst, ◌∙◌, true, false, ◌||◌, ◌==◌, not, Option, arith, Bool-cases, inl,
  inr, BytePointer,
}
use open_rtdds.Rtps.Types.{EntityId, entity_eq, entity_eq_iff}
use open_rtdds.Rtps.Router.{nonzero_prefix}
use open_rtdds.Rmw.Graph.Tables.{any, tally}
use open_rtdds.Rmw.Graph.Counts.{
  When, bind-When, not_any-tally, any-tally, replace_first-Replaced, Replaced-tally, Replaced-All,
}
use open_rtdds.Rmw.Graph.Records.{
  copy_text, graph_topic_name_capacity, graph_type_name_capacity, GraphEndpointRecord, GraphCache,
  no_endpoint, valid_entity, known_kind, endpoint_free,
}
use open_rtdds.Rmw.Graph.Cache.{
  EndpointName, store_endpoint, endpoint_with_texts, add_local_endpoint, remove_local_endpoint,
  owner, local_endpoint,
}
use open_rtdds.Rmw.Graph.Owners.{IsConsistent, IsOwned, advance-IsConsistent}

-- What is known of an endpoint that is put in.
record Named (n : EndpointName) (y : GraphEndpointRecord) : Type 0 where
  entity_eq : y.entity_id ≡ n.entity_id
  node_eq : y.node_id ≡ n.node_id
  prefix_eq : y.participant_prefix ≡ n.participant_prefix

endpoint_with_texts-Named :
    (n : EndpointName) (ros_topic ros_type dds_topic dds_type : BytePointer)
    → When (Named n) (endpoint_with_texts n ros_topic ros_type dds_topic dds_type)
endpoint_with_texts-Named n ros_topic ros_type dds_topic dds_type =
    bind-When (copy_text graph_topic_name_capacity ros_topic false) (λ a.
      bind-When (copy_text graph_type_name_capacity ros_type false) (λ b.
        bind-When (copy_text graph_topic_name_capacity dds_topic false) (λ c.
          bind-When (copy_text graph_type_name_capacity dds_type false)
            (λ d. When.just (record { entity_eq = refl; node_eq = refl; prefix_eq = refl })))))

store_endpoint-IsConsistent :
    (c : GraphCache) (n : EndpointName) (o : Option GraphEndpointRecord)
    → tally (owner n.participant_prefix n.node_id) c.nodes ≢ 0
    → tally (local_endpoint n.entity_id) c.endpoints ≡ 0
    → When (Named n) o
    → IsConsistent c
    → IsConsistent (store_endpoint c o).1
store_endpoint-IsConsistent c n Option.none has new same v = v
store_endpoint-IsConsistent c n (Option.some y) has new (When.just same) v =
    elim (replace_first-Replaced endpoint_free y c.endpoints) [
      | inl z ↦ rw z v
      | inr (es, e, r) ↦
          let (x, t, h) = Replaced-tally r in
          rw e (
            advance-IsConsistent true (record c { endpoints = es })
              (record {
                nodes_unique = v.nodes_unique;
                endpoints_unique = λ j.
                    let u = h (local_endpoint j) in
                    elim (Bool-cases (entity_eq y.entity_id j)) [
                      | inl q ↦
                          let s : n.entity_id ≡ j =
                            sym same.entity_eq ∙ (entity_eq_iff y.entity_id j).0 q in
                          let z : tally (local_endpoint j) c.endpoints ≡ 0 =
                            subst (λ k. tally (local_endpoint k) c.endpoints ≡ 0) s new in
                          ground (arith, u, z, t)
                      | inr q ↦ let w = v.endpoints_unique j in ground (arith, u, q, w, t)
                    ];
                owned =
                    Replaced-All (IsOwned c.nodes) r (λ sent. rw (same.node_eq, same.prefix_eq) has)
                      v.owned;
                generation_range = v.generation_range;
                local_range = v.local_range;
              }))
    ]

pub add_local_endpoint-IsConsistent :
    (c : GraphCache) (n : EndpointName) (ros_topic ros_type dds_topic dds_type : BytePointer)
    → IsConsistent c
    → IsConsistent (add_local_endpoint c n ros_topic ros_type dds_topic dds_type).1
unfolding add_local_endpoint
add_local_endpoint-IsConsistent c n ros_topic ros_type dds_topic dds_type v =
    elim (Bool-cases (
      not (nonzero_prefix n.participant_prefix)
      || not (valid_entity n.entity_id)
      || n.node_id == 0
      || not (known_kind n.kind))) [
        | inl t ↦ rw t v
        | inr f ↦ rw f (elim (Bool-cases (any (owner n.participant_prefix n.node_id) c.nodes)) [
          | inr g ↦ rw g v
          | inl has ↦ rw has (elim (Bool-cases (any (local_endpoint n.entity_id) c.endpoints)) [
            | inl t ↦ rw t v
            | inr g ↦ rw g (
                store_endpoint-IsConsistent c n
                  (endpoint_with_texts n ros_topic ros_type dds_topic dds_type)
                  (any-tally (owner n.participant_prefix n.node_id) c.nodes has)
                  (not_any-tally (local_endpoint n.entity_id) c.endpoints g)
                  (endpoint_with_texts-Named n ros_topic ros_type dds_topic dds_type) v)
          ])
        ])
      ]

pub remove_local_endpoint-IsConsistent :
    (c : GraphCache) (entity_id : EntityId)
    → IsConsistent c
    → IsConsistent (remove_local_endpoint c entity_id).1
unfolding remove_local_endpoint
remove_local_endpoint-IsConsistent c entity_id v =
    elim (replace_first-Replaced (local_endpoint entity_id) no_endpoint c.endpoints) [
      | inl z ↦ rw z v
      | inr (es, e, r) ↦
          let (x, t, h) = Replaced-tally r in
          rw e (
            advance-IsConsistent true (record c { endpoints = es })
              (record {
                nodes_unique = v.nodes_unique;
                endpoints_unique =
                    λ j. let u = h (local_endpoint j) in omega (arith, u, v.endpoints_unique j);
                owned = Replaced-All (IsOwned c.nodes) r (λ sent. cc) v.owned;
                generation_range = v.generation_range;
                local_range = v.local_range;
              }))
    ]
