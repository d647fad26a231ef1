-- ===== src/Dds/Repair/Tests.antt =====
-- A round of repair on datagrams, of a writer with one sample and a reader with none.
use open_rtdds.Prelude.{
  ℕ, suc, ◌+◌, ◌≤◌, ◌∙◌, ap, min, map, All, ◌≡◌, refl, arith, true, false, Option, BytePointer,
  replicate, ◌∷◌, [],
}
use open_rtdds.Core.History.{assign}
use open_rtdds.Rtps.Actions.{fresh, push, fresh-IsValid, listed, ActionBuffer}
use open_rtdds.Rtps.Codec
use open_rtdds.Rtps.Codec.{
  build_heartbeat, write_heartbeat, write_submessage_header, build_acknack, write_acknack,
  write_words,
}
use open_rtdds.Rtps.Codec.Parsing.{
  parse_heartbeat_message, parse_prefix, read_sequence_number, parse_acknack_message, read_words,
  read_bits,
}
use open_rtdds.Rtps.Wire.{
  write_rtps_header, write_sequence_number, write_uint16, write_uint32, read_uint16, read_uint32,
}
use open_rtdds.Rtps.Router
use open_rtdds.Rtps.Router.{find_submessage, step_with, visit, apply_info}
use open_rtdds.Rtps.SequenceSet.{reset, set_bit, word, test_bit}
use open_rtdds.Rtps.ControlCount.{next_control_count, control_count_is_newer}
use open_rtdds.Rtps.Reader
use open_rtdds.Rtps.Reader.{response, request, num_requested, mark_missing}
use open_rtdds.Rtps.Writer.{fill_heartbeat}
use open_rtdds.Rtps.Writer.Invariant.{live}
use open_rtdds.Rtps.Writer.Write.{write-IsValid}
use open_rtdds.Rtps.Sent.{sequence_of, decide, decide_loop}
use open_rtdds.Rtps.Reader.Seen.{seen, init-IsValid}
use open_rtdds.Rtps.Trace.{member}
use open_rtdds.Rtps.Recovery.Offered.{receive_all}
use open_rtdds.Rtps.Recovery.Resent.{repairs, Repairable}
use open_rtdds.Dds.Reply.{Replying}
use open_rtdds.Dds.Repair.{on_acknack-on_heartbeat-build_heartbeat}
use open_rtdds.Rtps.Writer
use open_rtdds.Rtps.Writer.Invariant
use open_rtdds.Serialization.Integral.{store_integral, store_loop, load_integral, load_loop}
use open_rtdds.Dds.Entities.{DdsError, DdsResult}
use open_rtdds.Dds.DataWriter
use open_rtdds.Dds.DataWriter.{DataWriter, write, on_acknack, build_heartbeat_datagram}
use open_rtdds.Dds.DataReader
use open_rtdds.Dds.DataReader.{DataReader, take, accept_sample, on_heartbeat, settle_heartbeat}
use open_rtdds.Dds.Delivery.Taking.{Matched}
use open_rtdds.Dds.Control.{Announcing}
use open_rtdds.Dds.Testing.{writer, reader, memory, announcing}

-- The writer once it has written a sample.
abbrev wrote : DataWriter
wrote = record writer {
  reliability =
      (Writer.write 1 2 8 writer.reliability (Option.some (0 ∷ 1 ∷ 0 ∷ 0 ∷ 1 ∷ [])) 5 1 10
        (fresh 1)).1;
  next_sequence = 2;
}

abbrev reply_memory : BytePointer
reply_memory = Option.some (replicate 80 0)

abbrev announcement : DataWriter.Outcome
announcement = build_heartbeat_datagram wrote memory 64 false

abbrev reply : DataReader.Replied
reply = on_heartbeat 4 reader announcement.2 announcement.0.bytes reply_memory 80

abbrev verdict : DdsResult × DataWriter × ActionBuffer
verdict = on_acknack 4 announcement.1 reply.2 reply.0.bytes 30 (fresh 4)

-- The two calls succeed.
succeed : (reply.0.error ≡ DdsError.none) × (verdict.0.error ≡ DdsError.none)
unfolding DataWriter.init DataReader.init on_heartbeat build_heartbeat_datagram Writer.init
    Writer.write Writer.write_error Writer.append_record assign push fill_heartbeat build_heartbeat
    Codec.init Codec.begin write_heartbeat write_rtps_header write_submessage_header
    write_sequence_number write_uint16 write_uint32 store_integral store_loop
    parse_heartbeat_message parse_prefix read_sequence_number read_uint16 read_uint32
    find_submessage Router.walk Router.step step_with visit apply_info load_integral load_loop
    Reader.init Reader.on_heartbeat Reader.heartbeat_error Reader.accept_heartbeat response request
    num_requested mark_missing reset set_bit build_acknack write_acknack write_words word
    next_control_count on_acknack parse_acknack_message read_words read_bits Writer.on_acknack
    Writer.acknack_error Writer.finish_acknack Writer.apply_loop decide decide_loop test_bit
    control_count_is_newer
succeed = (refl, refl)

wrote-IsValid : Invariant.IsValid 2 wrote.reliability
unfolding DataWriter.init
wrote-IsValid =
    write-IsValid 8 (Option.some (0 ∷ 1 ∷ 0 ∷ 0 ∷ 1 ∷ [])) 5 1 10 announcing.state
      (fresh-IsValid 1 (omega arith))

wrote-Announcing : Announcing 2 wrote memory 64
unfolding DataWriter.init Writer.init Writer.write Writer.write_error Writer.append_record assign
    push
wrote-Announcing = record {
  valid = refl;
  configured = refl;
  state = wrote-IsValid;
  prefix_size = refl;
  supported = refl;
  datagram_sized = refl;
  room = omega arith;
}

replying : Replying 4 reader reply_memory 80
unfolding DataReader.init
replying = record {
  state = init-IsValid 4 _ (omega arith) (omega arith) refl;
  prefix_size = refl;
  supported = refl;
  memory_sized = refl;
  room = omega arith;
}

wrote-Matched : Matched wrote reader
unfolding DataWriter.init DataReader.init
wrote-Matched = record { valid = refl; reader_eq = refl; writer_eq = refl; prefix_eq = refl }

peers : wrote.endpoint.remote_guid_prefix ≡ reader.participant.guid_prefix
unfolding DataWriter.init DataReader.init
peers = refl

first_missing : seen 4 reader.reliability reader.reliability.base ≡ false
unfolding DataReader.init Reader.init
first_missing = refl

last_written : wrote.reliability.last_sequence_number ≡ 1
unfolding DataWriter.init Writer.init Writer.write Writer.write_error Writer.append_record assign
    push
last_written = refl

first_expected : reader.reliability.base ≡ 1
unfolding DataReader.init Reader.init
first_expected = refl

numbers : map sequence_of (live wrote.reliability) ≡ 1 ∷ []
unfolding DataWriter.init Writer.init Writer.write Writer.write_error Writer.append_record assign
    push
numbers = refl

repairable : All (Repairable wrote.reliability.config 30) (live wrote.reliability)
unfolding DataWriter.init Writer.init Writer.write Writer.write_error Writer.append_record assign
    push
repairable =
    (record { sent_before = omega arith; in_window = omega arith; attempts_left = omega arith }, _)

in_history :
    (t : ℕ)
    → reader.reliability.base ≤ t
    → t ≤ wrote.reliability.last_sequence_number
    → seen 4 reader.reliability t ≡ false
    → member t (map sequence_of (live wrote.reliability)) ≡ true
in_history t lo hi f =
    let one : t ≡ 1 = omega (arith, last_written, first_expected, lo, hi) in
    ap (member t) numbers ∙ ground (arith, one)

on_acknack-on_heartbeat-build_heartbeat_example :
    min (suc wrote.reliability.last_sequence_number) (reader.reliability.base + 4)
    ≤ (receive_all 4 reply.1.reliability (repairs (listed verdict.2))).base
on_acknack-on_heartbeat-build_heartbeat_example =
    on_acknack-on_heartbeat-build_heartbeat 4 4 wrote reader 30 (fresh 4) 2 memory reply_memory 64
      80 wrote-Matched peers wrote-Announcing replying (fresh-IsValid 4 (omega arith)) first_missing
      succeed.0 succeed.1 repairable in_history
