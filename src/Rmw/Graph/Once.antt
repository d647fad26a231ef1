-- ===== src/Rmw/Graph/Once.antt =====
-- A snapshot of another participant is applied at most once.
use open_rtdds.Prelude.{
  ℕ, ◌+◌, ◌≡◌, ◌≢◌, ◌⊎◌, refl, sym, ap, subst, ◌∙◌, true, ◌||◌, ◌!=◌, List, [], Option, arith,
  Bool-cases, inl, inr, BytePointer, leb, ltb, length, get_or, get_or-set_self, set, sub64,
}
use mathlib.Core.Option.{some-injective}
use open_rtdds.Rtps.Types.{GuidPrefix, bytes_eq_refl}
use open_rtdds.Rmw.Graph.Tables.{tally}
use open_rtdds.Rmw.Graph.Records.{
  GraphError, GraphUpdate, GraphNodeRecord, GraphEndpointRecord, RemoteGeneration, GraphCache,
  no_generation, graph_node_capacity, graph_endpoint_capacity,
}
use open_rtdds.Rmw.Graph.Cache.{generation_of}
use open_rtdds.Rmw.Graph.Received.{
  ReadRecords, header_size, malformed_header, malformed_counts, read_nodes, read_endpoints,
  read_u16, read_u64,
}
use open_rtdds.Rmw.Graph.Remote.{
  Applied, reject, find_generation, kept_node, kept_endpoint, apply_at, apply_found,
  apply_endpoints, apply_nodes, apply_remote,
}
use open_rtdds.Rmw.Graph.Entries.{Finds, found_again, free_again}

-- A snapshot is refused whatever the cache holds, or what is read does not depend on the cache.
apply_remote-cases :
    (prefix : GuidPrefix) (payload : BytePointer) (size sequence : ℕ)
    → ((error : GraphError) × ((c : GraphCache)
          → apply_remote c prefix payload size sequence ≡ reject error c))
      ⊎ ((nodes : List GraphNodeRecord) × (endpoints : List GraphEndpointRecord) × ((c : GraphCache)
            → apply_remote c prefix payload size sequence
              ≡ apply_found prefix
                  (read_u64 payload 16)
                  c
                  nodes
                  endpoints
                  (find_generation prefix 0 Option.none c.remote_generations)))
unfolding apply_remote
apply_remote-cases prefix payload size sequence =
    elim (Bool-cases (malformed_header prefix payload size)) [
      | inl t ↦ rw t (inl (GraphError.malformed_snapshot, λ c. refl))
      | inr f ↦ rw f (elim (Bool-cases (malformed_counts payload sequence)) [
        | inl t ↦ rw t (inl (GraphError.malformed_snapshot, λ c. refl))
        | inr g ↦
            rw g (read_cases (read_nodes prefix payload size (read_u16 payload 10) header_size []))
      ])
    ]
  where
    endpoint_cases :
        (nodes : List GraphNodeRecord) (result : ReadRecords GraphEndpointRecord)
        → ((error : GraphError) × ((c : GraphCache)
              → apply_endpoints prefix (read_u64 payload 16) c size nodes result ≡ reject error c))
          ⊎ ((ns : List GraphNodeRecord) × (endpoints : List GraphEndpointRecord)
              × ((c : GraphCache)
                  → apply_endpoints prefix (read_u64 payload 16) c size nodes result
                    ≡ apply_found prefix
                        (read_u64 payload 16)
                        c
                        ns
                        endpoints
                        (find_generation prefix 0 Option.none c.remote_generations)))
    endpoint_cases nodes (ReadRecords.refused error) = inl (error, λ c. refl)
    endpoint_cases nodes (ReadRecords.read position endpoints) =
        elim (Bool-cases (position != size)) [
          | inl t ↦ rw t (inl (GraphError.malformed_snapshot, λ c. refl))
          | inr f ↦ rw f (inr (nodes, endpoints, λ c. refl))
        ]

    read_cases :
        (result : ReadRecords GraphNodeRecord)
        → ((error : GraphError) × ((c : GraphCache)
              → apply_nodes prefix (read_u64 payload 16) c payload size result ≡ reject error c))
          ⊎ ((ns : List GraphNodeRecord) × (endpoints : List GraphEndpointRecord)
              × ((c : GraphCache)
                  → apply_nodes prefix (read_u64 payload 16) c payload size result
                    ≡ apply_found prefix
                        (read_u64 payload 16)
                        c
                        ns
                        endpoints
                        (find_generation prefix 0 Option.none c.remote_generations)))
    read_cases (ReadRecords.refused error) = inl (error, λ c. refl)
    read_cases (ReadRecords.read position nodes) =
        endpoint_cases nodes
          (read_endpoints prefix payload size nodes (read_u16 payload 12) position [])

-- The generation that is kept of a snapshot.
abbrev noted : GuidPrefix → ℕ → RemoteGeneration
noted prefix generation = record {
  participant_prefix = prefix;
  generation = generation;
  occupied = true;
}

module _ (prefix : GuidPrefix) (generation : ℕ) where
  -- A call that finds an entry of no older generation.
  stale :
      (c : GraphCache) (nodes : List GraphNodeRecord) (endpoints : List GraphEndpointRecord) (m : ℕ)
      (found : Option ℕ × Option ℕ)
      → found.0 ≡ Option.some m
      → leb generation (get_or c.remote_generations m no_generation).generation ≡ true
      → apply_found prefix generation c nodes endpoints found
        ≡ (GraphUpdate.unchanged, GraphError.stale_snapshot, c)
  stale c nodes endpoints m (Option.none, available) h t = cc
  stale c nodes endpoints m (Option.some i, available) h t =
      let t' : leb generation (get_or c.remote_generations i no_generation).generation ≡ true =
        subst (λ k. leb generation (get_or c.remote_generations k no_generation).generation ≡ true)
          (sym (some-injective i m h)) t in
      rw t' refl

  abbrev Once : GraphCache → List GraphNodeRecord → List GraphEndpointRecord → Applied → Type 0
  Once c nodes endpoints (update, error, d) =
      (update ≢ GraphUpdate.changed → d ≡ c)
      × (update ≡ GraphUpdate.changed
          → apply_found prefix generation d nodes endpoints
              (find_generation prefix 0 Option.none d.remote_generations)
            ≡ (GraphUpdate.unchanged, GraphError.stale_snapshot, d))

  apply_at-Once :
      (c : GraphCache) (nodes : List GraphNodeRecord) (endpoints : List GraphEndpointRecord)
      (i m : ℕ) (mine : generation_of prefix (noted prefix generation) ≡ true)
      → i ≡ 0 + m
      → Finds prefix (noted prefix generation) mine 0 m c.remote_generations
      → Once c nodes endpoints (apply_at prefix generation c i nodes endpoints)
  apply_at-Once c nodes endpoints i m mine eq (lt, finds) =
      elim (Bool-cases (
        ltb (sub64 graph_node_capacity (tally (kept_node prefix) c.nodes)) (length nodes)
        || ltb (sub64 graph_endpoint_capacity (tally (kept_endpoint prefix) c.endpoints))
            (length endpoints))) [
              | inl t ↦ rw t (λ ne. refl, λ u. cc)
              | inr f ↦ rw f (
                λ ne. absurd (ne refl),
                λ u.
                    let entries = c.remote_generations in
                    let e : set entries i (noted prefix generation)
                        ≡ set entries m (noted prefix generation) =
                      ap (λ k. set entries k (noted prefix generation)) (omega (arith, eq)) in
                    stale _ nodes endpoints m _
                      (ap (λ xs. (find_generation prefix 0 Option.none xs).0) e
                        ∙ finds Option.none
                        ∙ ap Option.some {x = 0 + m} {y = m} (omega arith))
                      (ground (
                        arith,
                        ap (λ xs. (get_or xs m no_generation).generation) e,
                        ap (λ x. x.generation)
                            (get_or-set_self entries m (noted prefix generation) no_generation lt),
                      )),
              )
            ]

  apply_found-Once :
      (c : GraphCache) (nodes : List GraphNodeRecord) (endpoints : List GraphEndpointRecord)
      (found : Option ℕ × Option ℕ)
      → found ≡ find_generation prefix 0 Option.none c.remote_generations
      → Once c nodes endpoints (apply_found prefix generation c nodes endpoints found)
  apply_found-Once c nodes endpoints (Option.none, Option.none) e = (λ ne. refl, λ u. cc)
  apply_found-Once c nodes endpoints (Option.none, Option.some i) e =
      let mine : generation_of prefix (noted prefix generation) ≡ true = bytes_eq_refl prefix in
      let (m, eq, finds) =
        free_again prefix (noted prefix generation) mine 0 c.remote_generations i
          (sym (ap (λ f. f.0) e)) (sym (ap (λ f. f.1) e)) in
      apply_at-Once c nodes endpoints i m mine eq finds
  apply_found-Once c nodes endpoints (Option.some i, available) e =
      elim (Bool-cases (leb generation (get_or c.remote_generations i no_generation).generation)) [
        | inl t ↦ rw t (λ ne. refl, λ u. cc)
        | inr f ↦
            let mine : generation_of prefix (noted prefix generation) ≡ true =
              bytes_eq_refl prefix in
            let (m, eq, finds) =
              found_again prefix (noted prefix generation) mine 0 Option.none c.remote_generations i
                (sym (ap (λ f. f.0) e)) in
            rw f (apply_at-Once c nodes endpoints i m mine eq finds)
      ]

-- A snapshot changes the cache exactly when `apply_remote` says so, and the same snapshot that comes
-- again is then stale and changes nothing.
pub apply_remote_lem :
    (c : GraphCache) (prefix : GuidPrefix) (payload : BytePointer) (size sequence : ℕ)
    → let (update, error, d) = apply_remote c prefix payload size sequence in
      (update ≢ GraphUpdate.changed → d ≡ c)
      × (update ≡ GraphUpdate.changed
          → apply_remote d prefix payload size sequence
            ≡ (GraphUpdate.unchanged, GraphError.stale_snapshot, d))
apply_remote_lem c prefix payload size sequence =
    elim (apply_remote-cases prefix payload size sequence) [
      | inl (error, h) ↦ rw (h c) (λ ne. refl, λ u. cc)
      | inr (nodes, endpoints, h) ↦
          let generation = read_u64 payload 16 in
          let found = find_generation prefix 0 Option.none c.remote_generations in
          let once = apply_found-Once prefix generation c nodes endpoints found refl in
          rw (h c)
            (once.0, λ u. h (apply_found prefix generation c nodes endpoints found).2 ∙ once.1 u)
    ]
