-- ===== src/Rtps/Participants/Upsert.antt =====
-- DiscoveredParticipantTable::upsert: the participant is found after it, with its new lease.
use open_rtdds.Prelude.{
  ℕ, ◌+◌, ◌^◌, ◌≤◌, ◌<◌, ◌≡◌, ◌≢◌, refl, ap, ◌∙◌, true, false, List, Option, arith, length, get_or,
  length-set, inl, inr, Bool-cases, ltb, add64, sub64, size_max,
}
use open_rtdds.Rtps.Types.{bytes_eq}
use open_rtdds.Rtps.Participants.{
  SpdpError, ParticipantUpdate, ParticipantTableResult, SpdpMessageView, DiscoveredParticipant,
  DiscoveredParticipantTable, no_entry, holds, is_free, search, find, upsert, upsert_error,
  upsert_after, upsert_at, refresh_at, add_at, refreshed_entry, added_entry,
}
use open_rtdds.Rtps.Participants.Search.{
  search_lem, find-set_hit, find-set_miss, bytes_eq_refl, bytes_eq_sound,
}

-- A table of its capacity.
pub record IsValid (capacity : ℕ) (t : DiscoveredParticipantTable) : Type 0 where
  pub slots : length t.entries ≡ capacity

-- What an accepted announcement leaves.
pub record Learned (t : DiscoveredParticipantTable) (a : SpdpMessageView) (now : ℕ)
    (u : DiscoveredParticipantTable) : Type 0 where
  pub entry : DiscoveredParticipant
  pub found : find a.participant.guid_prefix u.entries ≡ Option.some entry
  pub seen : entry.last_seen_ns ≡ now
  pub expires : entry.expires_at_ns ≡ now + a.participant.lease_duration_ns
  pub newest : a.sequence_number ≤ entry.sequence_number
  pub others :
      (prefix : List ℕ)
      → bytes_eq a.participant.guid_prefix prefix ≡ false
      → find prefix u.entries ≡ find prefix t.entries
  pub clock : u.last_time_ns ≡ now

holds_other :
    (p q : List ℕ) (e : DiscoveredParticipant)
    → holds p e ≡ true
    → bytes_eq p q ≡ false
    → holds q e ≡ false
holds_other p q e h ne =
    let same = bytes_eq_sound e.participant.guid_prefix p (ground (arith, h)) in
    ground (arith, h, ap (λ x. bytes_eq x q) same, ne)

-- What an operation on the table gives: it learns the participant, or leaves the table as it is.
abbrev pub Outcome :
    ℕ
    → DiscoveredParticipantTable
    → SpdpMessageView
    → ℕ
    → ParticipantTableResult × DiscoveredParticipantTable
    → Type 0
Outcome capacity t a now (r, u) =
    (r.error ≡ SpdpError.none → Learned t a now u)
    × (r.error ≢ SpdpError.none → u ≡ t)
    × IsValid capacity u

module _ (capacity now : ℕ) (t : DiscoveredParticipantTable) (a : SpdpMessageView)
    (v : IsValid capacity t) where
  refused_Outcome :
      (e : SpdpError) (index : ℕ)
      → e ≢ SpdpError.none
      → Outcome capacity t a now
          (record { error = e; update = ParticipantUpdate.none; index = index }, t)
  refused_Outcome e index ne = (λ q. absurd (ne q), λ q. refl, v)

  module _
      (fits : add64 now a.participant.lease_duration_ns
        ≡ now + a.participant.lease_duration_ns) where
    refresh_at_Outcome :
        (i : ℕ)
        → i < length t.entries
        → holds a.participant.guid_prefix (get_or t.entries i no_entry) ≡ true
        → ((j : ℕ) → j < i → holds a.participant.guid_prefix (get_or t.entries j no_entry) ≡ false)
        → Outcome capacity t a now (refresh_at t a now i)
    refresh_at_Outcome i lt h before =
        elim (Bool-cases (ltb a.sequence_number (get_or t.entries i no_entry).sequence_number)) [
          | inl stale ↦ rw stale (refused_Outcome SpdpError.stale_announcement i (λ q. cc))
          | inr newer ↦
              let e : DiscoveredParticipant = get_or t.entries i no_entry in
              let y : DiscoveredParticipant = refreshed_entry a now e in
              let h' : holds a.participant.guid_prefix y ≡ true =
                ground (arith, h, bytes_eq_refl a.participant.guid_prefix) in
              rw newer (
                λ q. record {
                  entry = y;
                  found = find-set_hit a.participant.guid_prefix t.entries i y lt h' before;
                  seen = refl;
                  expires = fits;
                  newest = ground (arith, newer);
                  others = λ p ne.
                      find-set_miss p t.entries i y
                        (holds_other a.participant.guid_prefix p y h' ne)
                        (holds_other a.participant.guid_prefix p e h ne);
                  clock = refl;
                },
                λ q. absurd (q refl),
                record { slots = length-set t.entries i y ∙ v.slots },
              )
        ]

    add_at_Outcome :
        ((j : ℕ)
          → j < length t.entries
          → holds a.participant.guid_prefix (get_or t.entries j no_entry) ≡ false)
        → Outcome capacity t a now (add_at t a now (search is_free capacity 0 t.entries))
    add_at_Outcome absent =
        elim (search_lem is_free capacity 0 t.entries (omega (arith, v.slots))
          (λ j l. absurd (omega arith))) [
            | inl (e, all) ↦ rw e (refused_Outcome SpdpError.table_full 0 (λ q. cc))
            | inr (i, e, lt, free, before) ↦
                let y : DiscoveredParticipant = added_entry a now in
                let h' : holds a.participant.guid_prefix y ≡ true =
                  bytes_eq_refl a.participant.guid_prefix in
                rw e (
                  λ q. record {
                    entry = y;
                    found =
                        find-set_hit a.participant.guid_prefix t.entries i y lt h'
                          (λ j l. absent j (omega (arith, lt)));
                    seen = refl;
                    expires = fits;
                    newest = omega arith;
                    others = λ p ne.
                        find-set_miss p t.entries i y
                          (holds_other a.participant.guid_prefix p y h' ne) (ground (arith, free));
                    clock = refl;
                  },
                  λ q. absurd (q refl),
                  record { slots = length-set t.entries i y ∙ v.slots },
                )
          ]

    upsert_at_Outcome :
        Outcome capacity t a now (
          upsert_at capacity t a now
            (search (holds a.participant.guid_prefix) capacity 0 t.entries))
    upsert_at_Outcome =
        elim (search_lem (holds a.participant.guid_prefix) capacity 0 t.entries
          (omega (arith, v.slots)) (λ j l. absurd (omega arith))) [
            | inl (e, all) ↦ rw e (add_at_Outcome all)
            | inr (i, e, lt, hit, before) ↦ rw e (refresh_at_Outcome i lt hit before)
          ]

  lease_fits :
      now < 2 ^ 64
      → upsert_error t a now ≡ SpdpError.none
      → add64 now a.participant.lease_duration_ns ≡ now + a.participant.lease_duration_ns
  unfolding upsert_error
  lease_fits small e =
      let le : a.participant.lease_duration_ns ≤ sub64 size_max now = ground (arith, e) in
      omega (arith, le)

  upsert_after_Outcome :
      (e : SpdpError)
      → now < 2 ^ 64
      → upsert_error t a now ≡ e
      → Outcome capacity t a now (upsert_after capacity t a now e)
  upsert_after_Outcome SpdpError.none small q = upsert_at_Outcome (lease_fits small q)
  upsert_after_Outcome _ small q = refused_Outcome _ 0 (λ x. cc)

-- `upsert` learns the announced participant or, with an error, leaves the table as it is. When it
-- learns it, `find` gives its entry: seen now, with a lease from now on that did not wrap, and a
-- sequence number no older than the announcement's. What `find` gives for any other prefix does not
-- change.
pub upsert_lem :
    {capacity : ℕ} (now : ℕ) {t : DiscoveredParticipantTable} (a : SpdpMessageView)
    → IsValid capacity t
    → now < 2 ^ 64
    → Outcome capacity t a now (upsert capacity t a now)
unfolding upsert
upsert_lem {capacity} now {t} a v small =
    upsert_after_Outcome capacity now t a v (upsert_error t a now) small refl
