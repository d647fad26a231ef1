-- ===== src/Rtps/Reader/Tests.antt =====
-- A reader with a window of four numbers.
use open_rtdds.Prelude.{
  ℕ, ap, ◌∙◌, ◌+◌, ◌≤◌, ◌<◌, map, true, false, All, Option, ◌≡◌, ◌⊎◌, refl, [], ◌∷◌, arith,
}
use open_rtdds.Rtps.Actions
use open_rtdds.Rtps.Actions.{listed, ActionBuffer, ReliabilityError, fresh, fresh-IsValid, push}
use open_rtdds.Rtps.Testing.{reader_id, writer_id, has_two, asks_for_two}
use open_rtdds.Rtps.Reader.{
  heartbeat_error, data_error, slide, response, request, ReliableReader, ReliableReaderConfig, init,
  on_data, on_heartbeat,
}
use open_rtdds.Rtps.Reader.Seen.{seen, IsValid, init-IsValid}
use open_rtdds.Rtps.Reader.Data.{Received, Dropped, on_data_lem}
use open_rtdds.Rtps.Messages.{AckNack}
use open_rtdds.Rtps.Writer.{
  write, ReliableWriter, on_acknack, finish_acknack, acknack_error, apply_loop, write_error,
  append_record,
}
use open_rtdds.Core.History.{assign}
use open_rtdds.Rtps.ControlCount.{control_count_is_newer}
use open_rtdds.Rtps.Writer
use open_rtdds.Rtps.Writer.Invariant
use open_rtdds.Rtps.Writer.Invariant.{live}
use open_rtdds.Rtps.Writer.Write.{write-IsValid}
use open_rtdds.Rtps.Writer.Acknack.{Rejected}
use open_rtdds.Rtps.Sent.{sequence_of, decide, decide_loop}
use open_rtdds.Rtps.SequenceSet.{reset, set_bit, test_bit}
use open_rtdds.Rtps.Recovery.{round_advances}
use open_rtdds.Rtps.Recovery.Offered.{receive_all}
use open_rtdds.Rtps.Recovery.Resent.{repairs, Repairable}
use open_rtdds.Rtps.Trace.{member, Run, Once, Run-Once}
use open_rtdds.Rtps.Exchange.{answered_bits, Understood, on_acknack-on_heartbeat}
use open_rtdds.Rtps.Reader.Heartbeats.{Ignored, Answered, on_heartbeat_lem}

abbrev config : ReliableReaderConfig
config = record { reader_id = reader_id; writer_id = writer_id; initial_sequence_number = 1 }

abbrev reader : ReliableReader
reader = init 4 config

reader-IsValid : IsValid 4 reader
reader-IsValid = init-IsValid 4 config (omega arith) (omega arith) refl

abbrev buffer : ActionBuffer
buffer = fresh 4

buffer-IsValid : Actions.IsValid 4 buffer
buffer-IsValid = fresh-IsValid 4 (omega arith)

on_data_lem_example :
    Received 4 4 reader 1 buffer (on_data 4 4 reader 1 buffer)
    ⊎ Dropped 4 4 reader 1 buffer (on_data 4 4 reader 1 buffer)
on_data_lem_example = on_data_lem 1 reader-IsValid buffer-IsValid

on_heartbeat_lem_example :
    Ignored reader buffer (on_heartbeat 4 4 reader has_two buffer)
    ⊎ Answered 4 4 reader has_two buffer (on_heartbeat 4 4 reader has_two buffer)
on_heartbeat_lem_example = on_heartbeat_lem has_two reader-IsValid buffer-IsValid

first_accepted : (on_data 4 4 reader 1 buffer).0 ≡ ReliabilityError.none
unfolding init on_data data_error
first_accepted = refl

-- Sample 1 arrives, and then a heartbeat.
run : Run 4 reader (1 ∷ []) (on_heartbeat 4 4 (on_data 4 4 reader 1 buffer).1 has_two buffer).1
run =
    Run.answered (Run.accepted Run.start 4 1 buffer buffer-IsValid first_accepted) 4 has_two buffer
      buffer-IsValid

Run-Once_example :
    Once 4 reader (1 ∷ []) (on_heartbeat 4 4 (on_data 4 4 reader 1 buffer).1 has_two buffer).1
Run-Once_example = Run-Once reader-IsValid run

abbrev holding : ReliableReader
holding = (on_data 4 4 reader 1 buffer).1

holding-IsValid : IsValid 4 holding
holding-IsValid =
    (Run-Once reader-IsValid
      (Run.accepted Run.start 4 1 buffer buffer-IsValid first_accepted)).valid

heartbeat_accepted : (on_heartbeat 4 4 holding has_two buffer).0 ≡ ReliabilityError.none
unfolding init on_data on_heartbeat heartbeat_error data_error slide
heartbeat_accepted = refl

abbrev empty : ReliableWriter
empty = Writer.init 2 3 (record {
  reader_id = reader_id;
  writer_id = writer_id;
  max_repair_attempts = 1;
  repair_window_ns = 100;
})

abbrev one : ReliableWriter
one = (write 4 2 3 empty (Option.some (7 ∷ 8 ∷ [])) 2 1 10 buffer).1

abbrev two : ReliableWriter
two = (write 4 2 3 one (Option.some (9 ∷ [])) 1 2 20 buffer).1

two-IsValid : Invariant.IsValid 2 two
two-IsValid =
    write-IsValid 3 (Option.some (9 ∷ [])) 1 2 20
      (write-IsValid 3 (Option.some (7 ∷ 8 ∷ [])) 2 1 10
        (Invariant.init-IsValid 2 3 _ (omega arith) (omega arith)) buffer-IsValid)
      buffer-IsValid

abbrev reply : AckNack
reply = record asks_for_two { reader_state = (response 4 holding has_two).reader_state }

on_acknack-on_heartbeat_example :
    Rejected two buffer (on_acknack 4 two reply 30 buffer)
    ⊎ Understood 4 holding has_two buffer (on_acknack 4 two reply 30 buffer)
on_acknack-on_heartbeat_example =
    on_acknack-on_heartbeat 30 has_two reply two-IsValid holding-IsValid buffer-IsValid
      buffer-IsValid heartbeat_accepted refl

base_missing : seen 4 holding holding.base ≡ false
unfolding init on_data data_error slide
base_missing = refl

taken_in : (on_acknack 4 two reply 30 buffer).0 ≡ ReliabilityError.none
unfolding init on_data data_error slide response on_acknack finish_acknack acknack_error apply_loop
    decide decide_loop Writer.init write write_error assign append_record push reset set_bit
    test_bit control_count_is_newer request
taken_in = refl

numbers : map sequence_of (live two) ≡ 1 ∷ 2 ∷ []
unfolding Writer.init write write_error append_record assign push
numbers = refl

repairable : All (Repairable two.config 30) (live two)
unfolding Writer.init write write_error append_record assign push
repairable = (
  record { sent_before = omega arith; in_window = omega arith; attempts_left = omega arith },
  (record { sent_before = omega arith; in_window = omega arith; attempts_left = omega arith }, _),
)

asked_for : holding.base + answered_bits 4 holding has_two ≡ 3
unfolding init on_data data_error slide
asked_for = refl

next_expected : holding.base ≡ 2
unfolding init on_data data_error slide
next_expected = refl

in_history :
    (t : ℕ)
    → holding.base ≤ t
    → t < holding.base + answered_bits 4 holding has_two
    → seen 4 holding t ≡ false
    → member t (map sequence_of (live two)) ≡ true
in_history t lo hi f =
    let two_or : t ≡ 2 = omega (arith, asked_for, next_expected, lo, hi) in
    ap (member t) numbers ∙ ground (arith, two_or)

round_advances_example :
    holding.base + answered_bits 4 holding has_two
    ≤ (receive_all 4
        (on_heartbeat 4 4 holding has_two buffer).1
        (repairs (listed (on_acknack 4 two reply 30 buffer).2))).base
round_advances_example =
    round_advances 30 has_two reply two-IsValid holding-IsValid buffer-IsValid buffer-IsValid
      base_missing heartbeat_accepted refl taken_in repairable in_history
