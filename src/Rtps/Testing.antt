-- ===== src/Rtps/Testing.antt =====
-- Concrete values that the tests of several modules use.
use open_rtdds.Prelude.{false, ◌∷◌, replicate}
use open_rtdds.Rtps.Types.{EntityId, ByteOrder, default_version}
use open_rtdds.Rtps.Messages.{ReliabilityMessageHeader, Heartbeat, AckNack}

abbrev pub reader_id : EntityId
reader_id = record { e0 = 0; e1 = 0; e2 = 1; e3 = 4 }

abbrev pub writer_id : EntityId
writer_id = record { e0 = 0; e1 = 0; e2 = 1; e3 = 3 }

abbrev pub header : ReliabilityMessageHeader
header = record {
  version = default_version;
  vendor_id = record { v0 = 1; v1 = 2 };
  guid_prefix = replicate 12 1;
  submessage_byte_order = ByteOrder.little_endian;
}

-- Sample 1 is there and sample 2 is missing.
abbrev pub asks_for_two : AckNack
asks_for_two = record {
  header = header;
  reader_id = reader_id;
  writer_id = writer_id;
  reader_state = record { bitmap_base = 2; num_bits = 1; bitmap = 0x8000_0000 ∷ replicate 7 0 };
  count = 1;
  final_flag = false;
}

-- The writer has samples 1 and 2.
abbrev pub has_two : Heartbeat
has_two = record {
  header = header;
  reader_id = reader_id;
  writer_id = writer_id;
  first_sequence_number = 1;
  last_sequence_number = 2;
  count = 1;
  final_flag = false;
  liveliness_flag = false;
}
