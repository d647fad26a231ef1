-- ===== src/Dds/Testing.antt =====
-- A writer and a reader of Boolean samples, for the tests.
use open_rtdds.Prelude.{◌≡◌, refl, arith, Bool, true, Option, BytePointer, replicate}
use open_rtdds.Rtps.Types.{default_version, ByteOrder}
use open_rtdds.Rtps.Testing.{reader_id, writer_id}
use open_rtdds.Rtps.Writer.{fill_heartbeat}
use open_rtdds.Rtps.Writer.Invariant.{live}
use open_rtdds.Rtps.Writer
use open_rtdds.Rtps.Writer.Invariant
use open_rtdds.Serialization.Writer.{write_bool}
use open_rtdds.Serialization.Reader.{read_bool}
use open_rtdds.Dds.Entities.{
  TypeSupport, DomainParticipant, make_participant, make_topic, Topic, StaticEndpointConfig,
}
use open_rtdds.Dds.DataWriter
use open_rtdds.Dds.DataWriter.{DataWriter, write, on_acknack, build_heartbeat_datagram}
use open_rtdds.Dds.DataReader
use open_rtdds.Dds.DataReader.{DataReader, take, accept_sample, on_heartbeat, settle_heartbeat}
use open_rtdds.Dds.Control.{Announcing}

abbrev pub support : TypeSupport Bool
support = record { type_id = 7; serialize = λ s w. write_bool w s; deserialize = read_bool }

abbrev pub participant : DomainParticipant
participant = make_participant (record {
  domain_id = 0;
  version = default_version;
  vendor_id = record { v0 = 1; v1 = 2 };
  guid_prefix = replicate 12 1;
})

abbrev pub topic : Topic
topic = make_topic support (record { topic_id = 3; type_id = 7 })

abbrev pub endpoint : StaticEndpointConfig
endpoint = record {
  reader_id = reader_id;
  writer_id = writer_id;
  remote_guid_prefix = replicate 12 1;
  byte_order = ByteOrder.big_endian;
}

abbrev pub writer : DataWriter
writer =
    DataWriter.init support 2 8 participant topic endpoint
      (record { max_repair_attempts = 2; repair_window_ns = 100 })

abbrev pub reader : DataReader
reader = DataReader.init support 4 participant topic endpoint

abbrev pub memory : BytePointer
memory = Option.some (replicate 64 0)

pub announcing : Announcing 2 writer memory 64
unfolding DataWriter.init Writer.init
announcing = record {
  valid = refl;
  configured = configured;
  state = Invariant.init-IsValid 2 8 _ (omega arith) (omega arith);
  prefix_size = refl;
  supported = refl;
  datagram_sized = refl;
  room = omega arith;
}
  where
    configured : writer.reliability.valid ≡ true
    configured = refl
