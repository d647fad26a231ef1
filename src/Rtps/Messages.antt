-- ===== src/Rtps/Messages.antt =====
-- The HEARTBEAT and ACKNACK structures of include/openrtdds/rtps/reliability_messages.hpp.
use open_rtdds.Prelude.{ℕ, Bool}
use open_rtdds.Rtps.Types.{ByteOrder, ProtocolVersion, VendorId, GuidPrefix, EntityId}
use open_rtdds.Rtps.SequenceSet.{SequenceNumberSet}

pub record ReliabilityMessageHeader : Type 0 where
  pub version : ProtocolVersion
  pub vendor_id : VendorId
  pub guid_prefix : GuidPrefix
  pub submessage_byte_order : ByteOrder

-- HeartbeatConfig and HeartbeatView, which have the same fields.
pub record Heartbeat : Type 0 where
  pub header : ReliabilityMessageHeader
  pub reader_id : EntityId
  pub writer_id : EntityId
  pub first_sequence_number : ℕ
  pub last_sequence_number : ℕ
  pub count : ℕ
  pub final_flag : Bool
  pub liveliness_flag : Bool

-- AckNackConfig and AckNackView, which have the same fields.
pub record AckNack : Type 0 where
  pub header : ReliabilityMessageHeader
  pub reader_id : EntityId
  pub writer_id : EntityId
  pub reader_state : SequenceNumberSet
  pub count : ℕ
  pub final_flag : Bool
