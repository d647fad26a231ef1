-- ===== src/Rtps/Writer.antt =====
-- ReliableWriter of include/openrtdds/rtps/reliability_state.hpp. The history depth, the payload
-- bound and the capacity of the action buffer are the templates' parameters. Operations return the
-- error, the new writer and the new buffer.
pub mod Compact
pub mod Invariant
pub mod Write
pub mod Acknack
pub mod Pointers
pub mod Timer
pub mod Announce
mod Tests
use open_rtdds.Prelude.{
  ℕ, zero, suc, ◌+◌, ◌-◌, ◌%◌, ◌^◌, Bool, true, false, ◌&&◌, ◌||◌, not, List, [], ◌∷◌, Option, ltb,
  leb, ◌==◌, ◌!=◌, if◌then◌else◌, get_or, set, take, replicate, add64, add8, int64_max, BytePointer,
}
use open_rtdds.Core.History.{
  HistoryError, SampleMetadata, BoundedSample, assign, is_null, empty_sample,
}
use open_rtdds.Rtps.Sent.{
  send_action, retransmit_action, delivered_action, failed_action, Decision, ReliableWriterConfig,
  SentRecord, blank, count_expired, decide, decide_loop, deliver, fail_attempts, fail_window, keep,
  moved, repair, repaired, required_actions, sequence_of,
}
use open_rtdds.Rtps.Types.{EntityId, entity_ne}
use open_rtdds.Rtps.SequenceSet.{SequenceNumberSet, test_bit}
use open_rtdds.Rtps.ControlCount.{control_count_is_newer, next_control_count}
use open_rtdds.Rtps.Messages.{Heartbeat, AckNack}
use open_rtdds.Rtps.Actions.{
  ReliabilityError, ReliabilityActionKind, RepairFailure, ReliabilityAction, ActionBuffer,
  no_action, push, guarded, remaining,
}

-- `records` is the whole array, of which the first `size` are in use.
pub record ReliableWriter : Type 0 where
  pub config : ReliableWriterConfig
  pub records : List SentRecord
  pub size : ℕ
  pub last_sequence_number : ℕ
  pub heartbeat_count : ℕ
  pub last_acknack_count : ℕ
  pub valid : Bool
  pub acknack_count_initialized : Bool

unfoldable pub init : ℕ → ℕ → ReliableWriterConfig → ReliableWriter
init depth max config = record {
  config = config;
  records = replicate depth (record blank { sample = empty_sample max });
  size = 0;
  last_sequence_number = 0;
  heartbeat_count = 0;
  last_acknack_count = 0;
  valid = config.repair_window_ns != 0;
  acknack_count_initialized = false;
}

abbrev pub valid_state_sequence : ℕ → Bool
valid_state_sequence n = n != 0 && ltb n int64_max

abbrev pub Outcome : Type 0
Outcome = ReliabilityError × ReliableWriter × ActionBuffer

unfoldable pub finish_acknack :
    ReliableWriter → AckNack → ℕ × List SentRecord × ActionBuffer → Outcome
finish_acknack w acknack (destination, records, b) = (
  ReliabilityError.none,
  record w {
    records = records;
    size = destination;
    last_acknack_count = acknack.count;
    acknack_count_initialized = true;
  },
  b,
)

pub finish_timer : ReliableWriter → ℕ × List SentRecord × ActionBuffer → Outcome
finish_timer w (destination, records, b) =
    (ReliabilityError.none, record w { records = records; size = destination }, b)

-- The tests of `on_acknack` on the message, in order.
unfoldable pub acknack_error : ReliableWriter → AckNack → ReliabilityError
acknack_error w acknack =
    if not w.valid
    then ReliabilityError.invalid_configuration
    else if entity_ne acknack.reader_id w.config.reader_id
        || entity_ne acknack.writer_id w.config.writer_id
    then ReliabilityError.unexpected_peer
    else if w.acknack_count_initialized
        && not (control_count_is_newer acknack.count w.last_acknack_count)
    then ReliabilityError.stale_control
    else ReliabilityError.none

module _ (capacity : ℕ) where
  -- The record that `assign` has filled goes to the end of the history.
  unfoldable pub append_record :
      ReliableWriter → ActionBuffer → ℕ → ℕ → HistoryError × BoundedSample → Outcome
  append_record w b sequence now (HistoryError.invalid_argument, sample) =
      (ReliabilityError.invalid_argument, w, b)
  append_record w b sequence now (HistoryError.payload_too_large, sample) =
      (ReliabilityError.payload_too_large, w, b)
  append_record w b sequence now (HistoryError.none, sample) = (
    ReliabilityError.none,
    record w {
      records =
          set w.records w.size
            (record { sample = sample; first_send_ns = now; repair_attempts = 0 });
      size = add64 w.size 1;
      last_sequence_number = sequence;
    },
    (push capacity b (send_action sequence w.size sample.size)).1,
  )

  -- The tests of `write`, in order.
  unfoldable pub write_error :
      ℕ → ℕ → ReliableWriter → BytePointer → ℕ → ℕ → ActionBuffer → ReliabilityError
  write_error depth max w payload payload_size sequence b =
      if not w.valid
      then ReliabilityError.invalid_configuration
      else if is_null payload && payload_size != 0
      then ReliabilityError.invalid_argument
      else if ltb max payload_size
      then ReliabilityError.payload_too_large
      else if not (valid_state_sequence sequence)
      then ReliabilityError.invalid_sequence_number
      else if w.last_sequence_number != 0 && leb sequence w.last_sequence_number
      then ReliabilityError.non_monotonic_sequence
      else if w.size == depth
      then ReliabilityError.history_full
      else if remaining capacity b == 0
      then ReliabilityError.action_capacity_exceeded
      else ReliabilityError.none

  unfoldable pub write : ℕ → ℕ → ReliableWriter → BytePointer → ℕ → ℕ → ℕ → ActionBuffer → Outcome
  unfolding append_record
  write depth max w payload payload_size sequence now b =
      let error = write_error depth max w payload payload_size sequence b in
      guarded error (error, w, b)
        (append_record w b sequence now (
          assign max (get_or w.records w.size blank).sample payload payload_size
            (record { sequence_number = sequence; source_timestamp_ns = now })))

  -- The second loop: it compacts the array in place and pushes the actions. The results are
  -- `destination`, the array and the buffer.
  unfoldable pub apply_loop :
      List Decision → ℕ → ℕ → List SentRecord → ActionBuffer → ℕ × List SentRecord × ActionBuffer
  apply_loop [] index destination records b = (destination, records, b)
  apply_loop (keep ∷ ds) index destination records b =
      apply_loop ds (suc index) (suc destination) (moved records index destination) b
  apply_loop (repair ∷ ds) index destination records b =
      let retained = repaired (get_or (moved records index destination) destination blank) in
      apply_loop ds (suc index) (suc destination)
        (set (moved records index destination) destination retained)
        (push capacity b (
          retransmit_action (sequence_of (get_or records index blank)) destination
            retained.sample.size)).1
  apply_loop (deliver ∷ ds) index destination records b =
      apply_loop ds (suc index) destination records
        (push capacity b (delivered_action (sequence_of (get_or records index blank)))).1
  apply_loop (fail_window ∷ ds) index destination records b =
      apply_loop ds (suc index) destination records
        (push capacity b (
          failed_action (sequence_of (get_or records index blank))
            RepairFailure.repair_window_expired)).1
  apply_loop (fail_attempts ∷ ds) index destination records b =
      apply_loop ds (suc index) destination records
        (push capacity b (
          failed_action (sequence_of (get_or records index blank))
            RepairFailure.repair_limit_exceeded)).1

  pub act_on : ReliableWriter → AckNack → ActionBuffer → Option (List Decision) → Outcome
  unfolding finish_acknack
  act_on w acknack b Option.none = (ReliabilityError.time_regression, w, b)
  act_on w acknack b (Option.some decisions) =
      if ltb (remaining capacity b) (required_actions decisions)
      then (ReliabilityError.action_capacity_exceeded, w, b)
      else finish_acknack w acknack (apply_loop decisions 0 0 w.records b)

  unfoldable pub on_acknack : ReliableWriter → AckNack → ℕ → ActionBuffer → Outcome
  unfolding act_on
  on_acknack w acknack now b =
      let error = acknack_error w acknack in
      guarded error (error, w, b)
        (act_on w acknack b (decide_loop w.config acknack now (take w.size w.records)))

  -- The second loop of `on_timer`, over the rounds that are left.
  pub expire_loop :
      ℕ → ℕ → ℕ → ℕ → ℕ → List SentRecord → ActionBuffer → ℕ × List SentRecord × ActionBuffer
  expire_loop window now zero index destination records b = (destination, records, b)
  expire_loop window now (suc rounds) index destination records b =
      let expired =
        expire_loop window now rounds (suc index) destination records
          (push capacity b (
            failed_action (sequence_of (get_or records index blank))
              RepairFailure.repair_window_expired)).1 in
      let retained =
        expire_loop window now rounds (suc index) (suc destination)
          (moved records index destination) b in
      if leb window (now - (get_or records index blank).first_send_ns) then expired else retained

  pub expire : ReliableWriter → ℕ → ActionBuffer → Option ℕ → Outcome
  unfolding finish_timer
  expire w now b Option.none = (ReliabilityError.time_regression, w, b)
  expire w now b (Option.some expired) =
      if ltb (remaining capacity b) expired
      then (ReliabilityError.action_capacity_exceeded, w, b)
      else finish_timer w (expire_loop w.config.repair_window_ns now w.size 0 0 w.records b)

  pub on_timer : ReliableWriter → ℕ → ActionBuffer → Outcome
  unfolding expire
  on_timer w now b =
      if not w.valid
      then (ReliabilityError.invalid_configuration, w, b)
      else expire w now b (count_expired w.config.repair_window_ns now (take w.size w.records))

unfoldable pub fill_heartbeat :
    ReliableWriter → Heartbeat → ReliabilityError × ReliableWriter × Heartbeat
fill_heartbeat w heartbeat =
    if not w.valid then (ReliabilityError.invalid_configuration, w, heartbeat) else (
      ReliabilityError.none,
      record w { heartbeat_count = next_control_count w.heartbeat_count },
      record heartbeat {
        first_sequence_number =
            if w.size == 0
            then add64 w.last_sequence_number 1
            else sequence_of (get_or w.records 0 blank);
        last_sequence_number = w.last_sequence_number;
        reader_id = w.config.reader_id;
        writer_id = w.config.writer_id;
        count = next_control_count w.heartbeat_count;
      },
    )
