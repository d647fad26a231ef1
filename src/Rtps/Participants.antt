-- ===== src/Rtps/Participants.antt =====
-- DiscoveredParticipantTable of include/openrtdds/rtps/spdp.hpp: the participants that announcements
-- have shown, each with a lease. The capacity is the template's parameter.
pub mod Search
pub mod Upsert
pub mod Expire
mod Tests
use open_rtdds.Prelude.{
  ℕ, zero, suc, ◌+◌, ◌-◌, ◌^◌, Bool, true, false, ◌&&◌, ◌||◌, not, List, [], ◌∷◌, ◌++◌, Option, ltb,
  leb, ◌==◌, ◌!=◌, if◌then◌else◌, get_or, set, replicate, add64, sub64, size_max,
}
use open_rtdds.Rtps.Types.{
  ByteOrder, big_endian, little_endian, ProtocolVersion, default_version, VendorId, GuidPrefix,
  bytes_eq,
}

pub data SpdpError : Type 0 where
  none invalid_argument invalid_configuration buffer_overflow rtps_error : SpdpError
  unsupported_representation malformed_parameter unknown_required_parameter : SpdpError
  missing_required_parameter duplicate_parameter locator_bound_exceeded : SpdpError
  invalid_locator invalid_duration invalid_identity domain_mismatch : SpdpError
  self_announcement table_full stale_announcement time_regression : SpdpError
  expiration_overflow action_capacity_exceeded : SpdpError

pub record Locator : Type 0 where
  pub kind : ℕ
  pub port : ℕ
  pub address : List ℕ

pub record BoundedLocatorList : Type 0 where
  pub values : List Locator
  pub size : ℕ

pub record SpdpParticipantData : Type 0 where
  pub protocol_version : ProtocolVersion
  pub vendor_id : VendorId
  pub guid_prefix : GuidPrefix
  pub domain_id : ℕ
  pub expects_inline_qos : Bool
  pub metatraffic_unicast : BoundedLocatorList
  pub metatraffic_multicast : BoundedLocatorList
  pub default_unicast : BoundedLocatorList
  pub default_multicast : BoundedLocatorList
  pub available_builtin_endpoints : ℕ
  pub lease_duration_ns : ℕ
  pub entity_name : List ℕ
  pub entity_name_size : ℕ

pub record SpdpMessageView : Type 0 where
  pub participant : SpdpParticipantData
  pub sequence_number : ℕ
  pub submessage_byte_order : ByteOrder
  pub parameter_byte_order : ByteOrder

pub data ParticipantUpdate : Type 0 where
  none added refreshed : ParticipantUpdate

pub record ParticipantTableResult : Type 0 where
  pub error : SpdpError
  pub update : ParticipantUpdate
  pub index : ℕ

pub record DiscoveredParticipant : Type 0 where
  pub participant : SpdpParticipantData
  pub sequence_number : ℕ
  pub last_seen_ns : ℕ
  pub expires_at_ns : ℕ
  pub occupied : Bool

abbrev pub no_locators : BoundedLocatorList
no_locators = record {
  values = replicate 4 (record { kind = 1; port = 0; address = replicate 16 0 });
  size = 0;
}

abbrev pub no_participant : SpdpParticipantData
no_participant = record {
  protocol_version = default_version;
  vendor_id = record { v0 = 0; v1 = 0 };
  guid_prefix = replicate 12 0;
  domain_id = 0;
  expects_inline_qos = false;
  metatraffic_unicast = no_locators;
  metatraffic_multicast = no_locators;
  default_unicast = no_locators;
  default_multicast = no_locators;
  available_builtin_endpoints = 3;
  lease_duration_ns = 100_000_000_000;
  entity_name = replicate 64 0;
  entity_name_size = 0;
}

abbrev pub no_entry : DiscoveredParticipant
no_entry = record {
  participant = no_participant;
  sequence_number = 0;
  last_seen_ns = 0;
  expires_at_ns = 0;
  occupied = false;
}

pub record DiscoveredParticipantTable : Type 0 where
  pub local_guid_prefix : GuidPrefix
  pub entries : List DiscoveredParticipant
  pub size : ℕ
  pub last_time_ns : ℕ

abbrev pub holds : GuidPrefix → DiscoveredParticipant → Bool
holds prefix e = e.occupied && bytes_eq e.participant.guid_prefix prefix

abbrev pub is_free : DiscoveredParticipant → Bool
is_free e = not e.occupied

-- A loop that goes on past the entries that fail a test: the index of the first that passes.
abbrev pub search : (DiscoveredParticipant → Bool) → ℕ → ℕ → List DiscoveredParticipant → Option ℕ
search test zero index entries = Option.none
search test (suc rounds) index entries =
    let rest = search test rounds (suc index) entries in
    if test (get_or entries index no_entry) then Option.some index else rest

abbrev pub find : GuidPrefix → List DiscoveredParticipant → Option DiscoveredParticipant
find prefix [] = Option.none
find prefix (e ∷ es) = let rest = find prefix es in if holds prefix e then Option.some e else rest

abbrev pub refused : SpdpError → ℕ → ParticipantTableResult
refused error index = record { error = error; update = ParticipantUpdate.none; index = index }

-- The entry that `upsert` refreshes.
abbrev pub refreshed_entry : SpdpMessageView → ℕ → DiscoveredParticipant → DiscoveredParticipant
refreshed_entry a now e = record {
  participant = if ltb e.sequence_number a.sequence_number then a.participant else e.participant;
  sequence_number =
      if ltb e.sequence_number a.sequence_number then a.sequence_number else e.sequence_number;
  last_seen_ns = now;
  expires_at_ns = add64 now a.participant.lease_duration_ns;
  occupied = e.occupied;
}

abbrev pub added_entry : SpdpMessageView → ℕ → DiscoveredParticipant
added_entry a now = record {
  participant = a.participant;
  sequence_number = a.sequence_number;
  last_seen_ns = now;
  expires_at_ns = add64 now a.participant.lease_duration_ns;
  occupied = true;
}

abbrev pub refresh_at :
    DiscoveredParticipantTable
    → SpdpMessageView
    → ℕ
    → ℕ
    → ParticipantTableResult × DiscoveredParticipantTable
refresh_at t a now index =
    if ltb a.sequence_number (get_or t.entries index no_entry).sequence_number
    then (refused SpdpError.stale_announcement index, t)
    else (
      record { error = SpdpError.none; update = ParticipantUpdate.refreshed; index = index },
      record t {
        entries = set t.entries index (refreshed_entry a now (get_or t.entries index no_entry));
        last_time_ns = now;
      },
    )

abbrev pub add_at :
    DiscoveredParticipantTable
    → SpdpMessageView
    → ℕ
    → Option ℕ
    → ParticipantTableResult × DiscoveredParticipantTable
add_at t a now Option.none = (refused SpdpError.table_full 0, t)
add_at t a now (Option.some index) = (
  record { error = SpdpError.none; update = ParticipantUpdate.added; index = index },
  record t {
    entries = set t.entries index (added_entry a now);
    size = add64 t.size 1;
    last_time_ns = now;
  },
)

-- The second loop runs where the first finds no entry.
abbrev pub upsert_at :
    ℕ
    → DiscoveredParticipantTable
    → SpdpMessageView
    → ℕ
    → Option ℕ
    → ParticipantTableResult × DiscoveredParticipantTable
upsert_at capacity t a now Option.none = add_at t a now (search is_free capacity 0 t.entries)
upsert_at capacity t a now (Option.some index) = refresh_at t a now index

-- The tests of `upsert`, in order.
unfoldable pub upsert_error : DiscoveredParticipantTable → SpdpMessageView → ℕ → SpdpError
upsert_error t a now =
    if ltb now t.last_time_ns
    then SpdpError.time_regression
    else if bytes_eq a.participant.guid_prefix t.local_guid_prefix
    then SpdpError.self_announcement
    else if a.participant.lease_duration_ns == 0
    then SpdpError.invalid_duration
    else if ltb (sub64 size_max now) a.participant.lease_duration_ns
    then SpdpError.expiration_overflow
    else SpdpError.none

abbrev pub upsert_after :
    ℕ
    → DiscoveredParticipantTable
    → SpdpMessageView
    → ℕ
    → SpdpError
    → ParticipantTableResult × DiscoveredParticipantTable
upsert_after capacity t a now SpdpError.none =
    upsert_at capacity t a now (search (holds a.participant.guid_prefix) capacity 0 t.entries)
upsert_after capacity t a now error = (refused error 0, t)

unfoldable pub upsert :
    ℕ
    → DiscoveredParticipantTable
    → SpdpMessageView
    → ℕ
    → ParticipantTableResult × DiscoveredParticipantTable
upsert capacity t a now = upsert_after capacity t a now (upsert_error t a now)

abbrev pub is_due : ℕ → DiscoveredParticipant → Bool
is_due now e = e.occupied && leb e.expires_at_ns now

abbrev pub count_due : ℕ → List DiscoveredParticipant → ℕ
count_due now [] = 0
count_due now (e ∷ es) = if is_due now e then suc (count_due now es) else count_due now es

-- The second loop of `expire`: the entries that are left, and the prefixes that it hands out.
abbrev pub expire_entries :
    ℕ → List DiscoveredParticipant → List DiscoveredParticipant × List GuidPrefix
expire_entries now [] = ([], [])
expire_entries now (e ∷ es) =
    let (kept, gone) = expire_entries now es in
    if is_due now e then (no_entry ∷ kept, e.participant.guid_prefix ∷ gone) else (e ∷ kept, gone)

-- `present` says whether the output array is there. The last result is what is written to it.
unfoldable pub expire :
    DiscoveredParticipantTable
    → ℕ
    → Bool
    → ℕ
    → SpdpError × DiscoveredParticipantTable × List GuidPrefix
expire t now present expired_capacity =
    if ltb now t.last_time_ns
    then (SpdpError.time_regression, t, [])
    else if count_due now t.entries != 0 && not present
    then (SpdpError.invalid_argument, t, [])
    else if ltb expired_capacity (count_due now t.entries)
    then (SpdpError.action_capacity_exceeded, t, [])
    else (
      SpdpError.none,
      record t {
        entries = (expire_entries now t.entries).0;
        size = sub64 t.size (count_due now t.entries);
        last_time_ns = now;
      },
      (expire_entries now t.entries).1,
    )
