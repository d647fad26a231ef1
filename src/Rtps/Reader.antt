-- ===== src/Rtps/Reader.antt =====
-- ReliableReader of include/openrtdds/rtps/reliability_state.hpp: a bounded receive window as a
-- bitmap that turns. The window's size and the capacity of the action buffer are the templates'
-- parameters. Operations return the error, the new reader and the new buffer.
pub mod Seen
pub mod Data
pub mod Requests
pub mod Heartbeats
pub mod Replies
mod Tests
use open_rtdds.Prelude.{
  ℕ, zero, suc, ◌+◌, ◌-◌, ◌%◌, ◌^◌, Bool, true, false, ◌&&◌, ◌||◌, not, List, [], ◌∷◌, Option, ltb,
  leb, ◌==◌, ◌!=◌, if◌then◌else◌, get_or, set, replicate, add64, int64_max, sub64,
}
use open_rtdds.Rtps.Types.{EntityId, entity_ne}
use open_rtdds.Rtps.SequenceSet.{SequenceNumberSet, empty_set, reset, set_bit}
use open_rtdds.Rtps.ControlCount.{control_count_is_newer, next_control_count}
use open_rtdds.Rtps.Messages.{Heartbeat}
use open_rtdds.Rtps.Actions.{
  ReliabilityError, ReliabilityActionKind, ReliabilityAction, ActionBuffer, guarded, no_action,
  push, remaining,
}

pub record ReliableReaderConfig : Type 0 where
  pub reader_id : EntityId
  pub writer_id : EntityId
  pub initial_sequence_number : ℕ

pub record ReliableReader : Type 0 where
  pub config : ReliableReaderConfig
  pub received : List Bool
  pub base : ℕ
  pub base_index : ℕ
  pub acknack_count : ℕ
  pub last_heartbeat_count : ℕ
  pub valid : Bool
  pub heartbeat_count_initialized : Bool

abbrev pub Outcome : Type 0
Outcome = ReliabilityError × ReliableReader × ActionBuffer

abbrev pub valid_state_sequence : ℕ → Bool
valid_state_sequence n = n != 0 && ltb n int64_max

-- `first - 1` is taken only where `first` is not 0.
abbrev pub valid_heartbeat_range : Heartbeat → Bool
valid_heartbeat_range h =
    h.first_sequence_number != 0
    && (leb h.first_sequence_number int64_max
        && (leb h.last_sequence_number int64_max
            && leb (h.first_sequence_number - 1) h.last_sequence_number))

abbrev pub flag : List Bool → ℕ → Bool
flag received slot = get_or received slot false

abbrev pub received_action : ℕ → ReliabilityAction
received_action sequence = record no_action {
  kind = ReliabilityActionKind.sample_received;
  sequence_number = sequence;
}

abbrev pub covers_base : ReliableReader → Heartbeat → Bool
covers_base r h = leb r.base h.last_sequence_number

abbrev pub response_required : ReliableReader → Heartbeat → Bool
response_required r h = covers_base r h || not h.final_flag

-- The tests of `on_heartbeat`, in order.
unfoldable pub heartbeat_error : ℕ → ReliableReader → Heartbeat → ActionBuffer → ReliabilityError
heartbeat_error capacity r h b =
    if not r.valid
    then ReliabilityError.invalid_configuration
    else if not (valid_heartbeat_range h)
    then ReliabilityError.invalid_sequence_number
    else if entity_ne h.reader_id r.config.reader_id || entity_ne h.writer_id r.config.writer_id
    then ReliabilityError.unexpected_peer
    else if r.heartbeat_count_initialized
        && not (control_count_is_newer h.count r.last_heartbeat_count)
    then ReliabilityError.stale_control
    else if leb r.base h.last_sequence_number && ltb r.base h.first_sequence_number
    then ReliabilityError.gap_not_repairable
    else if response_required r h && remaining capacity b == 0
    then ReliabilityError.action_capacity_exceeded
    else ReliabilityError.none

module _ (window : ℕ) where
  unfoldable pub init : ReliableReaderConfig → ReliableReader
  init config = record {
    config = config;
    received = replicate window false;
    base = config.initial_sequence_number;
    base_index = 0;
    acknack_count = 0;
    last_heartbeat_count = 0;
    valid = valid_state_sequence config.initial_sequence_number;
    heartbeat_count_initialized = false;
  }

  -- The slot of the number that lies `offset` above the base.
  abbrev pub slot_of : ReliableReader → ℕ → ℕ
  slot_of r offset = add64 r.base_index offset % window

  -- `while (received_[base_index_]) { … }`. Each round clears a flag, so `window` rounds are enough.
  unfoldable pub slide : ℕ → ReliableReader → ReliableReader
  slide zero r = r
  slide (suc fuel) r =
      let rest = slide fuel (record r {
        received = set r.received r.base_index false;
        base_index = add64 r.base_index 1 % window;
        base = add64 r.base 1;
      }) in
      if flag r.received r.base_index then rest else r

  -- The loop that marks the missing numbers, over the rounds that are left.
  unfoldable pub mark_missing : ℕ → ℕ → ReliableReader → SequenceNumberSet → SequenceNumberSet
  mark_missing zero offset r s = s
  mark_missing (suc rounds) offset r s =
      mark_missing rounds (suc offset) r
        (if not (flag r.received (slot_of r offset)) then (set_bit s offset).1 else s)

  -- The numbers that the reader asks for, in reply to a heartbeat that covers the base.
  unfoldable pub num_requested : ReliableReader → Heartbeat → ℕ
  num_requested r h =
      let available = add64 (h.last_sequence_number - r.base) 1 in
      (if ltb available window then available else window) % 2 ^ 32

  unfoldable pub request : ReliableReader → Heartbeat → SequenceNumberSet
  unfolding mark_missing num_requested
  request r h = mark_missing (num_requested r h) 0 r (reset empty_set r.base (num_requested r h)).1

  unfoldable pub response : ReliableReader → Heartbeat → ReliabilityAction
  response r h = record no_action {
    kind = ReliabilityActionKind.send_acknack;
    reader_id = r.config.reader_id;
    writer_id = r.config.writer_id;
    control_count = next_control_count r.acknack_count;
    reader_state = if covers_base r h then request r h else (reset empty_set r.base 0).1;
    final_flag = not (covers_base r h);
  }

  module _ (capacity : ℕ) where
    -- The tests of `on_data`, in order. `sequence - base` is taken only where it does not wrap.
    unfoldable pub data_error : ReliableReader → ℕ → ActionBuffer → ReliabilityError
    data_error r sequence b =
        if not r.valid
        then ReliabilityError.invalid_configuration
        else if not (valid_state_sequence sequence)
        then ReliabilityError.invalid_sequence_number
        else if ltb sequence r.base
        then ReliabilityError.stale_data
        else if leb window (sequence - r.base)
        then ReliabilityError.receive_window_exceeded
        else if flag r.received (slot_of r (sequence - r.base))
        then ReliabilityError.duplicate_data
        else if remaining capacity b == 0
        then ReliabilityError.action_capacity_exceeded
        else ReliabilityError.none

    unfoldable pub accept_data : ReliableReader → ℕ → ActionBuffer → Outcome
    accept_data r sequence b = (
      ReliabilityError.none,
      slide (suc window)
          (record r { received = set r.received (slot_of r (sequence - r.base)) true }),
      (push capacity b (received_action sequence)).1,
    )

    unfoldable pub on_data : ReliableReader → ℕ → ActionBuffer → Outcome
    unfolding accept_data
    on_data r sequence b =
        let error = data_error r sequence b in
        guarded error (error, r, b) (accept_data r sequence b)

    unfoldable pub accept_heartbeat : ReliableReader → Heartbeat → ActionBuffer → Outcome
    accept_heartbeat r h b = (
      ReliabilityError.none,
      record r {
        acknack_count =
            if response_required r h then next_control_count r.acknack_count else r.acknack_count;
        last_heartbeat_count = h.count;
        heartbeat_count_initialized = true;
      },
      if response_required r h then (push capacity b (response r h)).1 else b,
    )

    unfoldable pub on_heartbeat : ReliableReader → Heartbeat → ActionBuffer → Outcome
    unfolding accept_heartbeat
    on_heartbeat r h b =
        let error = heartbeat_error capacity r h b in
        guarded error (error, r, b) (accept_heartbeat r h b)
