-- ===== src/Rtps/Sent.antt =====
-- The records of ReliableWriter (struct Record of include/openrtdds/rtps/reliability_state.hpp) and the
-- first loops of its `on_acknack` and `on_timer`, which decide each record and change nothing.
use open_rtdds.Prelude.{
  ℕ, suc, ◌-◌, ◌%◌, ◌^◌, not, List, [], ◌∷◌, Option, ltb, leb, ◌!=◌, if◌then◌else◌, get_or, set,
  add8,
}
use open_rtdds.Core.History.{BoundedSample, empty_sample}
use open_rtdds.Rtps.Types.{EntityId}
use open_rtdds.Rtps.SequenceSet.{test_bit}
use open_rtdds.Rtps.Actions.{ReliabilityAction, ReliabilityActionKind, RepairFailure, no_action}
use open_rtdds.Rtps.Messages.{AckNack}

pub record ReliableWriterConfig : Type 0 where
  pub reader_id : EntityId
  pub writer_id : EntityId
  pub max_repair_attempts : ℕ
  pub repair_window_ns : ℕ

-- The writer's struct `Record`.
pub record SentRecord : Type 0 where
  pub sample : BoundedSample
  pub first_send_ns : ℕ
  pub repair_attempts : ℕ

abbrev pub sequence_of : SentRecord → ℕ
sequence_of r = r.sample.metadata.sequence_number

abbrev pub blank : SentRecord
blank = record { sample = empty_sample 0; first_send_ns = 0; repair_attempts = 0 }

pub data Decision : Type 0 where
  keep deliver repair fail_window fail_attempts : Decision

-- `++retained.repair_attempts`, a uint8_t.
abbrev pub repaired : SentRecord → SentRecord
repaired r = record r { repair_attempts = add8 r.repair_attempts 1 }

-- `if (destination != index) records_[destination] = records_[index];`
abbrev pub moved : List SentRecord → ℕ → ℕ → List SentRecord
moved records index destination =
    if destination != index then set records destination (get_or records index blank) else records

abbrev pub send_action : ℕ → ℕ → ℕ → ReliabilityAction
send_action sequence slot bytes = record no_action {
  kind = ReliabilityActionKind.send_data;
  sequence_number = sequence;
  payload = Option.some slot;
  data_size = bytes;
}

abbrev pub retransmit_action : ℕ → ℕ → ℕ → ReliabilityAction
retransmit_action sequence slot bytes = record no_action {
  kind = ReliabilityActionKind.retransmit_data;
  sequence_number = sequence;
  payload = Option.some slot;
  data_size = bytes;
}

abbrev pub delivered_action : ℕ → ReliabilityAction
delivered_action sequence = record no_action {
  kind = ReliabilityActionKind.sample_delivered;
  sequence_number = sequence;
}

abbrev pub failed_action : ℕ → RepairFailure → ReliabilityAction
failed_action sequence failure = record no_action {
  kind = ReliabilityActionKind.sample_failed;
  sequence_number = sequence;
  failure = failure;
}

-- The decision for one record; `none` is the return with `time_regression`. The differences are
-- taken only where they do not wrap.
unfoldable pub decide : ReliableWriterConfig → AckNack → ℕ → SentRecord → Option Decision
decide config acknack now r =
    if ltb (sequence_of r) acknack.reader_state.bitmap_base
    then Option.some deliver
    else if ltb (sequence_of r - acknack.reader_state.bitmap_base) acknack.reader_state.num_bits
    then (if not (
          test_bit acknack.reader_state
            ((sequence_of r - acknack.reader_state.bitmap_base) % 2 ^ 32))
        then Option.some deliver
        else if ltb now r.first_send_ns
        then Option.none
        else if leb config.repair_window_ns (now - r.first_send_ns)
        then Option.some fail_window
        else if leb config.max_repair_attempts r.repair_attempts
        then Option.some fail_attempts
        else Option.some repair)
    else Option.some keep

unfoldable pub decide_loop :
    ReliableWriterConfig → AckNack → ℕ → List SentRecord → Option (List Decision)
decide_loop config acknack now [] = Option.some []
decide_loop config acknack now (r ∷ rs) =
    let rest = decide_loop config acknack now rs in
    elim (decide config acknack now r) [
      | Option.none ↦ Option.none
      | Option.some d ↦ elim rest [
        | Option.none ↦ Option.none
        | Option.some ds ↦ Option.some (d ∷ ds)
      ]
    ]

abbrev pub required_actions : List Decision → ℕ
required_actions [] = 0
required_actions (keep ∷ ds) = required_actions ds
required_actions (deliver ∷ ds) = suc (required_actions ds)
required_actions (repair ∷ ds) = suc (required_actions ds)
required_actions (fail_window ∷ ds) = suc (required_actions ds)
required_actions (fail_attempts ∷ ds) = suc (required_actions ds)

-- The first loop of `on_timer`: the number of expired records, or `time_regression`.
unfoldable pub count_expired : ℕ → ℕ → List SentRecord → Option ℕ
count_expired window now [] = Option.some 0
count_expired window now (r ∷ rs) =
    let rest = count_expired window now rs in
    if ltb now r.first_send_ns then Option.none else elim rest [
      | Option.none ↦ Option.none
      | Option.some n ↦ Option.some (if leb window (now - r.first_send_ns) then suc n else n)
    ]
