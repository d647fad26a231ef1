-- ===== src/Rmw/Graph/Owners.antt =====
-- The invariant of a graph cache, and its two halves: what it needs of the nodes and of the endpoints.
use open_rtdds.Prelude.{
  ℕ, ◌≤◌, ◌<◌, ◌≡◌, ◌≢◌, Bool, true, false, List, [], ◌∷◌, arith, All, Bool-cases, inl, inr,
  int64_max, leb,
}
use open_rtdds.Rtps.Types.{EntityId}
use open_rtdds.Rmw.Graph.Tables.{tally}
use open_rtdds.Rmw.Graph.Records.{
  GraphNodeRecord, GraphEndpointRecord, GraphCache, next_count, advance_generation, local_node,
}
use open_rtdds.Rmw.Graph.Cache.{owner, endpoint_of, local_endpoint}
use open_rtdds.Rmw.Graph.Sent.{endpoint_is_sent}

-- A local endpoint belongs to a local node of its participant.
abbrev pub IsOwned : List GraphNodeRecord → GraphEndpointRecord → Type 0
IsOwned nodes endpoint =
    endpoint_is_sent endpoint ≡ true
    → tally (owner endpoint.participant_prefix endpoint.node_id) nodes ≢ 0

abbrev pub InRange : ℕ → Type 0
InRange generation = (0 < generation) × (generation ≤ int64_max)

pub record IsConsistent (c : GraphCache) : Type 0 where
  pub nodes_unique : (node_id : ℕ) → tally (local_node node_id) c.nodes ≤ 1
  pub endpoints_unique : (entity_id : EntityId) → tally (local_endpoint entity_id) c.endpoints ≤ 1
  pub owned : All (IsOwned c.nodes) c.endpoints
  pub generation_range : InRange c.generation
  pub local_range : InRange c.local_generation

pub next_count-InRange : (n : ℕ) → InRange n → InRange (next_count n)
next_count-InRange n h = elim (Bool-cases (leb int64_max n)) [
  | inl t ↦ rw t (omega arith, omega arith)
  | inr f ↦ rw f (ground (arith, f), ground (arith, f))
]

-- A cache whose tables are replaced and whose generation is advanced.
pub advance-IsConsistent :
    (local : Bool) (c : GraphCache) → IsConsistent c → IsConsistent (advance_generation local c)
advance-IsConsistent local c v = record {
  nodes_unique = v.nodes_unique;
  endpoints_unique = v.endpoints_unique;
  owned = v.owned;
  generation_range = next_count-InRange c.generation v.generation_range;
  local_range = elim (Bool-cases local) [
    | inl t ↦ rw t (next_count-InRange c.local_generation v.local_range)
    | inr f ↦ rw f v.local_range
  ];
}

-- Nodes may be exchanged for others that own as much.
pub All-IsOwned :
    (xs ys : List GraphNodeRecord) (es : List GraphEndpointRecord)
    → ((e : GraphEndpointRecord)
        → tally (owner e.participant_prefix e.node_id) xs
          ≤ tally (owner e.participant_prefix e.node_id) ys)
    → All (IsOwned xs) es
    → All (IsOwned ys) es
All-IsOwned xs ys [] h a = _
All-IsOwned xs ys (e ∷ es) h a = (λ s z. a.0 s (omega (arith, h e, z)), All-IsOwned xs ys es h a.1)

-- The same, where the endpoints do not belong to a given node.
pub All-IsOwned_except :
    (xs ys : List GraphNodeRecord) (node_id : ℕ) (es : List GraphEndpointRecord)
    → ((e : GraphEndpointRecord)
        → e.node_id ≢ node_id
        → tally (owner e.participant_prefix e.node_id) xs
          ≤ tally (owner e.participant_prefix e.node_id) ys)
    → All (λ e. endpoint_of node_id e ≡ false) es
    → All (IsOwned xs) es
    → All (IsOwned ys) es
All-IsOwned_except xs ys node_id [] h k a = _
All-IsOwned_except xs ys node_id (e ∷ es) h k a = (
  λ s z.
      a.0 s
        (let ne : e.node_id ≢ node_id = λ q. ground (arith, s, q, k.0) in omega (arith, h e ne, z)),
  All-IsOwned_except xs ys node_id es h k.1 a.1,
)
