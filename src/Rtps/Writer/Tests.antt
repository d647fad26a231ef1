-- ===== src/Rtps/Writer/Tests.antt =====
-- A writer with a history of two samples of at most three bytes.
use open_rtdds.Prelude.{
  true, false, ◌≡◌, ◌≢◌, ◌⊎◌, ◌↔◌, ◌++◌, Option, List, [], ◌∷◌, All, arith, get_or,
}
use open_rtdds.Core.History.{BoundedSample, HistoryError, assign}
use open_rtdds.Rtps.Actions
use open_rtdds.Rtps.Actions.{
  ActionBuffer, ReliabilityAction, ReliabilityError, fresh, fresh-IsValid, listed,
}
use open_rtdds.Rtps.Testing.{reader_id, writer_id, asks_for_two, has_two}
use open_rtdds.Rtps.Sent.{Decision, ReliableWriterConfig, blank}
use open_rtdds.Rtps.Sent.{send_action}
use open_rtdds.Rtps.Writer.{fill_heartbeat, ReliableWriter, init, write, on_acknack, on_timer}
use open_rtdds.Rtps.Writer.Invariant.{IsValid, init-IsValid, live}
use open_rtdds.Rtps.Writer.Write.{Accepts, fresh_record, write-IsValid, write_lem}
use open_rtdds.Rtps.Writer.Acknack.{Rejected, Handled, on_acknack_lem}
use open_rtdds.Rtps.Writer.Pointers.{Backed, on_acknack-Backed}
use open_rtdds.Rtps.Writer.Announce.{Announces, fill_heartbeat_lem}
use open_rtdds.Rtps.Writer.Timer.{Expired, on_timer_lem}

abbrev config : ReliableWriterConfig
config = record {
  reader_id = reader_id;
  writer_id = writer_id;
  max_repair_attempts = 1;
  repair_window_ns = 100;
}

abbrev empty : ReliableWriter
empty = init 2 3 config

empty-IsValid : IsValid 2 empty
empty-IsValid = init-IsValid 2 3 config (omega arith) (omega arith)

abbrev buffer : ActionBuffer
buffer = fresh 4

buffer-IsValid : Actions.IsValid 4 buffer
buffer-IsValid = fresh-IsValid 4 (omega arith)

-- After samples 1 and 2, with the buffer cleared.
abbrev one : ReliableWriter
one = (write 4 2 3 empty (Option.some (7 ∷ 8 ∷ [])) 2 1 10 buffer).1

abbrev two : ReliableWriter
two = (write 4 2 3 one (Option.some (9 ∷ [])) 1 2 20 buffer).1

two-IsValid : IsValid 2 two
two-IsValid =
    write-IsValid 3 (Option.some (9 ∷ [])) 1 2 20
      (write-IsValid 3 (Option.some (7 ∷ 8 ∷ [])) 2 1 10 empty-IsValid buffer-IsValid)
      buffer-IsValid

write_lem_example :
    let (e, w', b') = write 4 2 3 empty (Option.some (7 ∷ 8 ∷ [])) 2 1 10 buffer in
    ((e ≡ ReliabilityError.none) ↔ Accepts 4 2 3 empty (Option.some (7 ∷ 8 ∷ [])) 2 1 buffer)
    × (e ≢ ReliabilityError.none → (w' ≡ empty) × (b' ≡ buffer))
    × (e ≡ ReliabilityError.none
        → (x : BoundedSample) × (assign 3
              (get_or empty.records empty.size blank).sample
              (Option.some (7 ∷ 8 ∷ []))
              2
              (record { sequence_number = 1; source_timestamp_ns = 10 })
            ≡ (HistoryError.none, x))
          × (live w' ≡ live empty ++ fresh_record x 10 ∷ [])
          × (w'.last_sequence_number ≡ 1)
          × (listed b' ≡ listed buffer ++ send_action 1 empty.size 2 ∷ []))
    × IsValid 2 w'
write_lem_example = write_lem (Option.some (7 ∷ 8 ∷ [])) 2 1 10 empty-IsValid buffer-IsValid

on_acknack_lem_example :
    Rejected two buffer (on_acknack 4 two asks_for_two 30 buffer)
    ⊎ ((ds : List Decision) × Handled 2 4 30 two asks_for_two buffer ds
          (on_acknack 4 two asks_for_two 30 buffer))
on_acknack_lem_example = on_acknack_lem 30 asks_for_two two-IsValid buffer-IsValid

on_acknack-Backed_example :
    Rejected two buffer (on_acknack 4 two asks_for_two 30 buffer)
    ⊎ ((made : List ReliabilityAction) × (listed (on_acknack 4 two asks_for_two 30 buffer).2
          ≡ listed buffer ++ made)
        × All (Backed (live (on_acknack 4 two asks_for_two 30 buffer).1)) made)
on_acknack-Backed_example = on_acknack-Backed 30 asks_for_two two-IsValid buffer-IsValid

on_timer_lem_example :
    Rejected two buffer (on_timer 4 two 115 buffer)
    ⊎ Expired 2 4 115 two buffer (on_timer 4 two 115 buffer)
on_timer_lem_example = on_timer_lem 115 two-IsValid buffer-IsValid

fill_heartbeat_lem_example :
    let (e, w', h) = fill_heartbeat two has_two in
    (two.valid ≡ true
      → (e ≡ ReliabilityError.none)
        × Announces two has_two h
        × (w' ≡ record two { heartbeat_count = h.count }))
    × (two.valid ≡ false → (e ≢ ReliabilityError.none) × (w' ≡ two) × (h ≡ has_two))
fill_heartbeat_lem_example = fill_heartbeat_lem has_two two-IsValid
