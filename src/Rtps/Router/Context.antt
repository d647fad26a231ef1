-- ===== src/Rtps/Router/Context.antt =====
-- The types of include/openrtdds/rtps/message_router.hpp, and the context that the INFO submessages
-- set, of apply_info in src/rtps/message_router.cpp.
use open_rtdds.Prelude.{
  ℕ, ◌+◌, Bool, true, false, ◌||◌, not, [], ◌∷◌, ◌==◌, ◌!=◌, if◌then◌else◌, bit_and, BytePointer,
}
use open_rtdds.Rtps.Types.{
  ByteOrder, big_endian, little_endian, ProtocolVersion, VendorId, GuidPrefix,
}
use open_rtdds.Serialization.Cdr.{byte_at}
use open_rtdds.Rtps.Wire.{read_uint32, vendor_at, prefix_at, supported_version}

abbrev pub submessage_id_pad : ℕ
submessage_id_pad = 0x01

abbrev pub submessage_id_acknack : ℕ
submessage_id_acknack = 0x06

abbrev pub submessage_id_heartbeat : ℕ
submessage_id_heartbeat = 0x07

abbrev pub submessage_id_info_timestamp : ℕ
submessage_id_info_timestamp = 0x09

abbrev pub submessage_id_info_source : ℕ
submessage_id_info_source = 0x0C

abbrev pub submessage_id_info_destination : ℕ
submessage_id_info_destination = 0x0E

abbrev pub submessage_id_data : ℕ
submessage_id_data = 0x15

pub data MessageRouteError : Type 0 where
  none invalid_argument truncated invalid_protocol : MessageRouteError
  unsupported_version malformed_submessage invalid_info_submessage : MessageRouteError
  submessage_not_found : MessageRouteError

pub record RtpsTimestamp : Type 0 where
  pub seconds : ℕ
  pub fraction : ℕ

pub record RoutedSubmessageView : Type 0 where
  pub version : ProtocolVersion
  pub vendor_id : VendorId
  pub source_guid_prefix : GuidPrefix
  pub destination_guid_prefix : GuidPrefix
  pub has_destination : Bool
  pub source_timestamp : RtpsTimestamp
  pub has_source_timestamp : Bool
  pub id : ℕ
  pub flags : ℕ
  pub byte_order : ByteOrder
  pub content : BytePointer
  pub content_size : ℕ
  pub offset : ℕ

pub record RouteContext : Type 0 where
  pub version : ProtocolVersion
  pub vendor_id : VendorId
  pub source : GuidPrefix
  pub destination : GuidPrefix
  pub has_destination : Bool
  pub timestamp : RtpsTimestamp
  pub has_timestamp : Bool

abbrev pub nonzero_prefix : GuidPrefix → Bool
nonzero_prefix [] = false
nonzero_prefix (octet ∷ octets) = octet != 0 || nonzero_prefix octets

abbrev pub order_of : ℕ → ByteOrder
order_of flags = if bit_and flags 1 != 0 then little_endian else big_endian

-- `content` is read only where the size is that of the submessage.
abbrev pub set_destination : ℕ → GuidPrefix → RouteContext → MessageRouteError × RouteContext
set_destination size destination context =
    if size != 12 then (MessageRouteError.invalid_info_submessage, context) else (
      MessageRouteError.none,
      record context { destination = destination; has_destination = nonzero_prefix destination },
    )

abbrev pub apply_destination : BytePointer → ℕ → RouteContext → MessageRouteError × RouteContext
apply_destination content size context = set_destination size (prefix_at content 0) context

abbrev pub version_at : BytePointer → ℕ → ProtocolVersion
version_at content index = record {
  major = byte_at content index;
  minor = byte_at content (index + 1);
}

abbrev pub set_source :
    ℕ → ProtocolVersion → VendorId → GuidPrefix → RouteContext → MessageRouteError × RouteContext
set_source size version vendor_id source context =
    if size != 20
    then (MessageRouteError.invalid_info_submessage, context)
    else if not (supported_version version)
    then (MessageRouteError.unsupported_version, record context { version = version })
    else (
      MessageRouteError.none,
      record context { version = version; vendor_id = vendor_id; source = source },
    )

abbrev pub apply_source : BytePointer → ℕ → RouteContext → MessageRouteError × RouteContext
apply_source content size context =
    set_source size (version_at content 4) (vendor_at content 6) (prefix_at content 8) context

abbrev pub apply_timestamp :
    ℕ → ByteOrder → BytePointer → ℕ → RouteContext → MessageRouteError × RouteContext
apply_timestamp flags order content size context =
    if bit_and flags 2 != 0
    then (if size != 0
        then (MessageRouteError.invalid_info_submessage, context)
        else (MessageRouteError.none, record context { has_timestamp = false }))
    else if size != 8
    then (MessageRouteError.invalid_info_submessage, context)
    else (
      MessageRouteError.none,
      record context {
        timestamp = record {
          seconds = read_uint32 content 0 order;
          fraction = read_uint32 content 4 order;
        };
        has_timestamp = true;
      },
    )

unfoldable pub apply_info :
    ℕ → ℕ → ByteOrder → BytePointer → ℕ → RouteContext → MessageRouteError × RouteContext
apply_info id flags order content size context =
    if id == submessage_id_info_destination
    then apply_destination content size context
    else if id == submessage_id_info_source
    then apply_source content size context
    else if id == submessage_id_info_timestamp
    then apply_timestamp flags order content size context
    else (MessageRouteError.none, context)
