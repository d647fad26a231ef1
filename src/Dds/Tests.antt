-- ===== src/Dds/Tests.antt =====
-- A sample and a heartbeat from a writer to a reader.
use open_rtdds.Prelude.{Bool, replicate, ℕ, ◌^◌, ◌∷◌, ◌≡◌, refl, true, false}
use open_rtdds.Rtps.Actions.{fresh}
use open_rtdds.Rtps.Reader
use open_rtdds.Rtps.Reader.{response, request, num_requested, mark_missing}
use open_rtdds.Rtps.Writer.{fill_heartbeat}
use open_rtdds.Rtps.Writer
use open_rtdds.Serialization.Writer.{init as init_cdr}
use open_rtdds.Dds.Entities.{sent_result}
use open_rtdds.Dds.DataWriter
use open_rtdds.Dds.DataWriter.{DataWriter, write, build_heartbeat_datagram}
use open_rtdds.Dds.DataReader
use open_rtdds.Dds.DataReader.{DataReader, on_heartbeat, settle_heartbeat}
use open_rtdds.Dds.Delivery.Taking.{Matched}
use open_rtdds.Dds.Control.{filled, on_heartbeat-build_heartbeat}
use open_rtdds.Rtps.Messages.{AckNack}
use open_rtdds.Rtps.Testing.{asks_for_two}
use open_rtdds.Rtps.Writer.Invariant
use open_rtdds.Rtps.DataMessage
use open_rtdds.Dds.Testing.{support, writer, reader, memory, announcing}

matched : Matched writer reader
unfolding DataWriter.init DataReader.init
matched = record { valid = refl; reader_eq = refl; writer_eq = refl; prefix_eq = refl }

on_heartbeat-build_heartbeat_example :
    let out = build_heartbeat_datagram writer memory 64 false in
    (out.0 ≡ sent_result 52 writer.reliability.last_sequence_number)
    × (on_heartbeat 4 reader out.2 out.0.bytes memory 64
        ≡ settle_heartbeat reader memory 64
            (Reader.on_heartbeat 4 1 reader.reliability (filled writer false) (fresh 1)))
    × (out.1 ≡ record writer {
      reliability = record writer.reliability { heartbeat_count = (filled writer false).count };
    })
on_heartbeat-build_heartbeat_example =
    on_heartbeat-build_heartbeat 2 4 writer reader memory memory 64 64 false matched announcing

-- The writer once the sample is written, and an ACKNACK that asks for it again.
abbrev sent : DataWriter
sent = (write support 2 8 writer true 10 memory 64).1

abbrev log : ℕ → Bool
log number = true

abbrev asks_again : AckNack
asks_again = record asks_for_two {
  reader_state = record { bitmap_base = 1; num_bits = 1; bitmap = 2 ^ 31 ∷ replicate 7 0 };
}
