-- ===== src/Rtps/Codec/Tests.antt =====
-- A HEARTBEAT and an ACKNACK that are built and parsed, and one that is refused.
use open_rtdds.Prelude.{
  ◌↔◌, ℕ, zero, suc, ◌≡◌, ◌<◌, refl, arith, true, false, Option, replicate, get_or,
  get_or-replicate, ◌^◌,
}
use open_rtdds.Rtps.SequenceSet.{SequenceNumberSet, reset, test_bit}
use open_rtdds.Rtps.SequenceSet.Laws.{IsValid}
use open_rtdds.Rtps.Testing.{has_two, asks_for_two}
use open_rtdds.Rtps.Codec.{
  ReliabilityMessageBuilder, ReliabilityMessageError, build_heartbeat, build_acknack,
}
use open_rtdds.Rtps.Codec.Parsing.{Parsed, parse_heartbeat_message, parse_acknack_message}
use open_rtdds.Rtps.Codec.HeartbeatTrip.{Buildable, parse_heartbeat-build_heartbeat}
use open_rtdds.Rtps.Codec.AcknackBytes.{Readable}
use open_rtdds.Rtps.Codec.AcknackTrip.{parse_acknack-build_acknack}
use open_rtdds.Rtps.Codec.Refused.{Unbuildable, build_heartbeat_refused}

abbrev builder : ReliabilityMessageBuilder
builder = record {
  buffer = Option.some (replicate 60 0);
  capacity = 60;
  size = 0;
  error = ReliabilityMessageError.none;
}

abbrev small_builder : ReliabilityMessageBuilder
small_builder = record builder { buffer = Option.some (replicate 51 0); capacity = 51 }

has_two-Buildable : Buildable has_two
has_two-Buildable = record {
  prefix_size = refl;
  count_small = omega arith;
  supported = refl;
  range = refl;
}

parse_heartbeat-build_heartbeat_example :
    ((build_heartbeat builder has_two).0 ≡ true)
    × (parse_heartbeat_message
          (build_heartbeat builder has_two).1.buffer
          (build_heartbeat builder has_two).1.size
        ≡ Parsed.parsed has_two)
parse_heartbeat-build_heartbeat_example =
    parse_heartbeat-build_heartbeat builder has_two (refl, omega arith) has_two-Buildable

build_heartbeat_refused_example :
    (((build_heartbeat small_builder has_two).0 ≡ false) ↔ Unbuildable small_builder has_two)
    × (Unbuildable small_builder has_two
        → (build_heartbeat small_builder has_two).1
          ≡ record small_builder { size = 0; error = ReliabilityMessageError.buffer_overflow })
build_heartbeat_refused_example = build_heartbeat_refused small_builder has_two refl

word_bound : (i : ℕ) → get_or asks_for_two.reader_state.bitmap i 0 < 2 ^ 32
word_bound zero = omega arith
word_bound (suc i) = ground (arith, get_or-replicate {A = ℕ} 7 i 0)

asks_for_two-Readable : Readable asks_for_two
unfolding reset
asks_for_two-Readable = record {
  prefix_size = refl;
  count_small = omega arith;
  supported = refl;
  accepted = refl;
  valid = record { bits_le = omega arith; words = refl };
  small = word_bound;
}

parse_acknack-build_acknack_example :
    ((build_acknack builder asks_for_two).0 ≡ true)
    × ((t : SequenceNumberSet) × (parse_acknack_message
            (build_acknack builder asks_for_two).1.buffer
            (build_acknack builder asks_for_two).1.size
          ≡ Parsed.parsed (record asks_for_two { reader_state = t }))
        × (t.bitmap_base ≡ 2)
        × (t.num_bits ≡ 1)
        × ((j : ℕ) → test_bit t j ≡ test_bit asks_for_two.reader_state j)
        × IsValid t)
parse_acknack-build_acknack_example =
    parse_acknack-build_acknack builder asks_for_two (refl, omega arith) asks_for_two-Readable
