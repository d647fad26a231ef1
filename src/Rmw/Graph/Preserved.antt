-- ===== src/Rmw/Graph/Preserved.antt =====
-- Every operation of a graph cache keeps its invariant.
use open_rtdds.Prelude.{
  ℕ, ◌≡◌, refl, true, false, ◌||◌, ◌==◌, not, Option, arith, Bool-cases, inl, inr, BytePointer,
  ℕ_discrete,
}
use open_rtdds.Rtps.Types.{GuidPrefix}
use open_rtdds.Rtps.Router.{nonzero_prefix}
use open_rtdds.Rmw.Graph.Tables.{any, tally}
use open_rtdds.Rmw.Graph.Counts.{
  When, bind-When, not_any-tally, not_any-All, replace_first-Replaced, Replaced-tally,
}
use open_rtdds.Rmw.Graph.Records.{
  copy_text, graph_node_name_capacity, graph_namespace_capacity, graph_enclave_capacity,
  GraphNodeRecord, GraphCache, no_node, local_node, node_free,
}
use open_rtdds.Rmw.Graph.Cache.{
  store_node, node_with_texts, add_local_node, remove_local_node, owner, endpoint_of,
}
use open_rtdds.Rmw.Graph.Owners.{
  IsConsistent, advance-IsConsistent, All-IsOwned, All-IsOwned_except,
}

-- The node that is put in has the given identifier.
node_id_of :
    (prefix : GuidPrefix) (node_id : ℕ) (name name_space enclave : BytePointer)
    → When (λ n. n.node_id ≡ node_id) (node_with_texts prefix node_id name name_space enclave)
node_id_of prefix node_id name name_space enclave =
    bind-When (copy_text graph_node_name_capacity name false) (λ a.
      bind-When (copy_text graph_namespace_capacity name_space false)
        (λ b. bind-When (copy_text graph_enclave_capacity enclave false) (λ c. When.just refl)))

store_node-IsConsistent :
    (c : GraphCache) (node_id : ℕ) (o : Option GraphNodeRecord)
    → tally (local_node node_id) c.nodes ≡ 0
    → When (λ n. n.node_id ≡ node_id) o
    → IsConsistent c
    → IsConsistent (store_node c o).1
store_node-IsConsistent c node_id Option.none new same v = v
store_node-IsConsistent c node_id (Option.some y) new (When.just same) v =
    elim (replace_first-Replaced node_free y c.nodes) [
      | inl n ↦ rw n v
      | inr (ns, e, r) ↦
          let (x, t, h) = Replaced-tally r in
          rw e (
            advance-IsConsistent true (record c { nodes = ns })
              (record {
                nodes_unique = λ j.
                    let u = h (local_node j) in
                    elim (ℕ_discrete j node_id) [
                      | yes q ↦ ground (arith, u, q, new, t)
                      | no ne ↦ let w = v.nodes_unique j in ground (arith, u, ne, same, w, t)
                    ];
                endpoints_unique = v.endpoints_unique;
                owned =
                    All-IsOwned c.nodes ns c.endpoints
                      (λ e.
                        let u = h (owner e.participant_prefix e.node_id) in ground (arith, u, t))
                      v.owned;
                generation_range = v.generation_range;
                local_range = v.local_range;
              }))
    ]

pub add_local_node-IsConsistent :
    (c : GraphCache) (prefix : GuidPrefix) (node_id : ℕ) (name name_space enclave : BytePointer)
    → IsConsistent c
    → IsConsistent (add_local_node c prefix node_id name name_space enclave).1
unfolding add_local_node
add_local_node-IsConsistent c prefix node_id name name_space enclave v =
    elim (Bool-cases (not (nonzero_prefix prefix) || node_id == 0)) [
      | inl t ↦ rw t v
      | inr f ↦ rw f (elim (Bool-cases (any (local_node node_id) c.nodes)) [
        | inl t ↦ rw t v
        | inr g ↦ rw g (
            store_node-IsConsistent c node_id
              (node_with_texts prefix node_id name name_space enclave)
              (not_any-tally (local_node node_id) c.nodes g)
              (node_id_of prefix node_id name name_space enclave) v)
      ])
    ]

pub remove_local_node-IsConsistent :
    (c : GraphCache) (node_id : ℕ) → IsConsistent c → IsConsistent (remove_local_node c node_id).1
unfolding remove_local_node
remove_local_node-IsConsistent c node_id v =
    elim (Bool-cases (any (endpoint_of node_id) c.endpoints)) [
      | inl t ↦ rw t v
      | inr f ↦ rw f (elim (replace_first-Replaced (local_node node_id) no_node c.nodes) [
        | inl n ↦ rw n v
        | inr (ns, e, r) ↦
            let (x, t, h) = Replaced-tally r in
            rw e (
              advance-IsConsistent true (record c { nodes = ns })
                (record {
                  nodes_unique =
                      λ j. let u = h (local_node j) in omega (arith, u, v.nodes_unique j);
                  endpoints_unique = v.endpoints_unique;
                  owned =
                      All-IsOwned_except c.nodes ns node_id c.endpoints
                        (λ e ne.
                          let u = h (owner e.participant_prefix e.node_id) in
                          ground (arith, u, ne, t))
                        (not_any-All (endpoint_of node_id) c.endpoints f) v.owned;
                  generation_range = v.generation_range;
                  local_range = v.local_range;
                }))
      ])
    ]
