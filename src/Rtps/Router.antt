-- ===== src/Rtps/Router.antt =====
-- include/openrtdds/rtps/message_router.hpp and src/rtps/message_router.cpp: the walk over the
-- submessages of one RTPS message. Where the source has tested that an index is not past the
-- message's size, the sums and differences of std::size_t do not wrap and are written plainly. A
-- std::int32_t is its bit pattern. The walk takes fuel: each round moves the offset by four bytes or
-- more.
mod Context
pub mod Carried
pub mod Listed
pub mod Walk
pub mod Bounds
mod Tests
pub use open_rtdds.Rtps.Router.Context.{
  submessage_id_pad, submessage_id_acknack, submessage_id_heartbeat, submessage_id_info_timestamp,
  submessage_id_info_source, submessage_id_info_destination, submessage_id_data, MessageRouteError,
  RtpsTimestamp, RoutedSubmessageView, RouteContext, nonzero_prefix, order_of, set_destination,
  apply_destination, version_at, set_source, apply_source, apply_timestamp,
}
unfoldable pub use open_rtdds.Rtps.Router.Context.{apply_info}
use open_rtdds.Prelude.{
  ℕ, zero, suc, ◌+◌, ◌-◌, Bool, true, false, ◌&&◌, ◌||◌, not, List, [], ◌∷◌, Option, ltb, leb, ◌==◌,
  ◌!=◌, if◌then◌else◌, replicate, bit_and, BytePointer,
}
use open_rtdds.Core.History.{is_null}
use open_rtdds.Rtps.Types.{
  ByteOrder, big_endian, little_endian, ProtocolVersion, VendorId, GuidPrefix,
}
use open_rtdds.Serialization.Cdr.{byte_at}
use open_rtdds.Rtps.Wire.{
  pointer_at, read_uint16, read_uint32, vendor_at, prefix_at, supported_version,
}

-- The variables of the loop. `candidate` is `none` while `found` is false.
pub record WalkState : Type 0 where
  pub context : RouteContext
  pub candidate : Option RoutedSubmessageView
  pub occurrence : ℕ
  pub offset : ℕ

pub data Step : Type 0 where
  failed : MessageRouteError → Step
  stopped : WalkState → Step
  continued : WalkState → Step

abbrev pub routed_view :
    RouteContext → ℕ → ℕ → ByteOrder → BytePointer → ℕ → ℕ → RoutedSubmessageView
routed_view context id flags order content size offset = record {
  version = context.version;
  vendor_id = context.vendor_id;
  source_guid_prefix = context.source;
  destination_guid_prefix = context.destination;
  has_destination = context.has_destination;
  source_timestamp = context.timestamp;
  has_source_timestamp = context.has_timestamp;
  id = id;
  flags = flags;
  byte_order = order;
  content = content;
  content_size = size;
  offset = offset;
}

-- What follows `apply_info` in a round.
abbrev pub advance : Bool → WalkState → ℕ → MessageRouteError × RouteContext → Step
advance extends_to_end s next (MessageRouteError.none, context) =
    if extends_to_end
    then Step.stopped (record s { context = context; offset = next })
    else Step.continued (record s { context = context; offset = next })
advance extends_to_end s next (error, context) = Step.failed error

-- The variables once the submessage is compared with the wanted one.
abbrev pub noted : BytePointer → ℕ → ℕ → ℕ → ℕ → ByteOrder → ℕ → WalkState → WalkState
noted m wanted_id wanted_occurrence id flags order content_size s = record s {
  candidate =
      if id == wanted_id && s.occurrence == wanted_occurrence
      then Option.some
          (routed_view s.context id flags order (pointer_at m (s.offset + 4)) content_size s.offset)
      else s.candidate;
  occurrence = if id == wanted_id then s.occurrence + 1 else s.occurrence;
}

-- The round once the submessage's size is known.
unfoldable pub visit : BytePointer → ℕ → ℕ → ℕ → ℕ → ByteOrder → ℕ → Bool → WalkState → Step
visit m wanted_id wanted_occurrence id flags order content_size extends_to_end s =
    advance extends_to_end (noted m wanted_id wanted_occurrence id flags order content_size s)
      (s.offset + 4 + content_size)
      (apply_info id flags order (pointer_at m (s.offset + 4)) content_size s.context)

-- `declared == 0` for a submessage that may be empty.
abbrev pub may_be_empty : ℕ → Bool
may_be_empty id = id == submessage_id_pad || id == submessage_id_info_timestamp

abbrev pub extends : ℕ → ℕ → Bool
extends id declared = declared == 0 && not (may_be_empty id)

unfoldable pub step_with : BytePointer → ℕ → ℕ → ℕ → WalkState → ℕ → ℕ → ByteOrder → ℕ → Step
step_with m size wanted_id wanted_occurrence s id flags order declared =
    let available = size - (s.offset + 4) in
    let content_size = if extends id declared then available else declared in
    if ltb available content_size
    then Step.failed MessageRouteError.truncated
    else visit m wanted_id wanted_occurrence id flags order content_size (extends id declared) s

-- One round of the loop, at an offset before the end.
unfoldable pub step : BytePointer → ℕ → ℕ → ℕ → WalkState → Step
step m size wanted_id wanted_occurrence s =
    if ltb (size - s.offset) 4
    then Step.failed MessageRouteError.malformed_submessage
    else step_with m size wanted_id wanted_occurrence s (byte_at m s.offset)
        (byte_at m (s.offset + 1)) (order_of (byte_at m (s.offset + 1)))
        (read_uint16 m (s.offset + 2) (order_of (byte_at m (s.offset + 1))))

-- What follows the loop. `none` is a view that is not changed.
abbrev pub finish : ℕ → WalkState → MessageRouteError × Option RoutedSubmessageView
finish size s =
    if s.offset != size
    then (MessageRouteError.malformed_submessage, Option.none)
    else elim s.candidate [
      | Option.none ↦ (MessageRouteError.submessage_not_found, Option.none)
      | Option.some view ↦ (MessageRouteError.none, Option.some view)
    ]

-- The rest of the function after a round, where `rest` goes on with the loop.
abbrev pub resume :
    (WalkState → MessageRouteError × Option RoutedSubmessageView)
    → ℕ
    → Step
    → MessageRouteError × Option RoutedSubmessageView
resume rest size (Step.failed error) = (error, Option.none)
resume rest size (Step.stopped s) = finish size s
resume rest size (Step.continued s) = rest s

unfoldable pub walk :
    ℕ → BytePointer → ℕ → ℕ → ℕ → WalkState → MessageRouteError × Option RoutedSubmessageView
walk zero m size wanted_id wanted_occurrence s = finish size s
walk (suc fuel) m size wanted_id wanted_occurrence s =
    let rest =
      resume (walk fuel m size wanted_id wanted_occurrence) size
        (step m size wanted_id wanted_occurrence s) in
    if ltb s.offset size then rest else finish size s

abbrev pub start_context : BytePointer → RouteContext
start_context m = record {
  version = version_at m 4;
  vendor_id = vendor_at m 6;
  source = prefix_at m 8;
  destination = replicate 12 0;
  has_destination = false;
  timestamp = record { seconds = 0; fraction = 0 };
  has_timestamp = false;
}

abbrev pub start_state : BytePointer → WalkState
start_state m = record {
  context = start_context m;
  candidate = Option.none;
  occurrence = 0;
  offset = 20;
}

abbrev pub is_rtps : BytePointer → Bool
is_rtps m = byte_at m 0 == b'R' && byte_at m 1 == b'T' && byte_at m 2 == b'P' && byte_at m 3 == b'S'

unfoldable pub find_submessage :
    BytePointer → ℕ → ℕ → ℕ → MessageRouteError × Option RoutedSubmessageView
find_submessage m size wanted_id wanted_occurrence =
    if is_null m && size != 0
    then (MessageRouteError.invalid_argument, Option.none)
    else if ltb size 20
    then (MessageRouteError.truncated, Option.none)
    else if not (is_rtps m)
    then (MessageRouteError.invalid_protocol, Option.none)
    else if not (supported_version (version_at m 4))
    then (MessageRouteError.unsupported_version, Option.none)
    else walk (suc size) m size wanted_id wanted_occurrence (start_state m)
