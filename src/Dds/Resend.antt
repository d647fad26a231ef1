-- ===== src/Dds/Resend.antt =====
-- The samples that a DataWriter sends again, taken by a DataReader.
pub mod Records
use open_rtdds.Prelude.{
  ℕ, ◌+◌, ◌<◌, ◌^◌, ◌≡◌, ◌≢◌, ◌⊎◌, true, false, ◌||◌, not, Option, BytePointer, int64_max, min,
}
use open_rtdds.Rtps.Actions
use open_rtdds.Rtps.Actions.{ReliabilityAction, fresh}
use open_rtdds.Rtps.Writer
use open_rtdds.Rtps.Writer.Compact.{retain}
use open_rtdds.Rtps.Writer.Invariant
use open_rtdds.Rtps.Reader.{on_data}
use open_rtdds.Rtps.DataMessage
use open_rtdds.Rtps.DataMessage.Routed.{Buildable}
use open_rtdds.Dds.Entities.{TypeSupport, DdsResult, sent_result}
use open_rtdds.Dds.DataWriter.{DataWriter, build_data_action, sends_data, no_data}
use open_rtdds.Dds.DataReader.{DataReader, take, accept_sample}

-- An action of an ACKNACK either sends no data or points into the writer's history.
abbrev Pointing : ReliabilityAction → Type 0
Pointing a =
    (sends_data a.kind ≡ false)
    ⊎ ((sends_data a.kind ≡ true) × ((slot : ℕ) × (a.payload ≡ Option.some slot)))

module _ {Sample : Type 0} (support : TypeSupport Sample) (window : ℕ) (log : ℕ → Sample)
    (limit : ℕ) where
  -- An action that sends data is built into a datagram from which the reader takes the sample that was
  -- written under the action's number.
  abbrev pub Resent : DataWriter → DataReader → BytePointer → ℕ → ReliabilityAction → Type 0
  Resent w r datagram capacity a =
      (sends_data a.kind ≡ false)
      ⊎ (let out = build_data_action w a datagram capacity in
          (out.0 ≡ sent_result (44 + a.data_size) a.sequence_number)
          × (take support window r out.1 out.0.bytes
              ≡ accept_sample support window r out.0.bytes a.sequence_number (log a.sequence_number)
                  (on_data window 1 r.reliability a.sequence_number (fresh 1))))
