-- ===== src/Rtps/Participants/Tests.antt =====
-- A table of two participants.
use open_rtdds.Prelude.{List, ◌↔◌, ◌<◌, ◌^◌, ◌≡◌, ◌≢◌, refl, true, [], ◌∷◌, arith, replicate}
use open_rtdds.Rtps.Types.{ByteOrder, GuidPrefix}
use open_rtdds.Rtps.Participants.{
  SpdpError, SpdpMessageView, DiscoveredParticipantTable, DiscoveredParticipant, no_entry,
  no_participant, upsert, upsert_error, expire,
}
use open_rtdds.Rtps.Participants.Upsert.{IsValid, Outcome, upsert_lem}
use open_rtdds.Rtps.Participants.Expire.{Expired, Expiry, Accepts, count_occupied, expire_lem}

abbrev table : DiscoveredParticipantTable
table = record {
  local_guid_prefix = replicate 12 1;
  entries = replicate 2 no_entry;
  size = 0;
  last_time_ns = 0;
}

table-IsValid : IsValid 2 table
table-IsValid = record { slots = refl }

abbrev announcement : SpdpMessageView
announcement = record {
  participant = record no_participant { guid_prefix = replicate 12 2; lease_duration_ns = 50 };
  sequence_number = 1;
  submessage_byte_order = ByteOrder.little_endian;
  parameter_byte_order = ByteOrder.little_endian;
}

accepted : (upsert 2 table announcement 10).0.error ≡ SpdpError.none
unfolding upsert upsert_error
accepted = refl

upsert_lem_example : Outcome 2 table announcement 10 (upsert 2 table announcement 10)
upsert_lem_example = upsert_lem 10 announcement table-IsValid (omega arith)

abbrev learned : DiscoveredParticipantTable
learned = (upsert 2 table announcement 10).1

expired : (expire learned 60 true 4).2 ≡ replicate 12 2 ∷ []
unfolding upsert upsert_error expire
expired = refl

learned_counts : learned.size ≡ count_occupied learned.entries
unfolding upsert upsert_error
learned_counts = refl

learned_small : learned.size < 2 ^ 64
unfolding upsert upsert_error
learned_small = omega arith

expire_lem_example :
    let out = expire learned 60 true 4 in
    ((kept : List DiscoveredParticipant) × ((gone : List GuidPrefix) × Expiry 60 learned.entries
          kept gone
        × ((out.0 ≡ SpdpError.none) ↔ Accepts learned 60 true 4 gone)))
    × (out.0 ≡ SpdpError.none → Expired learned 60 out)
    × (out.0 ≢ SpdpError.none → (out.1 ≡ learned) × (out.2 ≡ []))
expire_lem_example = expire_lem learned 60 true 4 learned_counts learned_small
