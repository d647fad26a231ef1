-- ===== src/Rtps/Router/Tests.antt =====
-- A message with a timestamp, a submessage of an unknown kind, and an open-ended one.
use open_rtdds.Prelude.{
  ◌*◌, ◌-◌, ◌+◌, ◌<◌, ℕ, ◌≡◌, refl, true, false, List, [], ◌∷◌, ◌++◌, Option, BytePointer,
  replicate,
}
use open_rtdds.Serialization.Integral.{load_integral, load_loop}
use open_rtdds.Rtps.Wire.{read_uint16, read_uint32}
use open_rtdds.Rtps.Router.{
  MessageRouteError, find_submessage, walk, step, step_with, visit, apply_info, start_state,
}
use open_rtdds.Rtps.Router.Bounds.{ResultIsRouted, find_submessage-Routed}
use open_rtdds.Rtps.Router.Walk.{Loop, walk_total}
use open_rtdds.Rtps.Router.Carried.{Submessage}

abbrev message_bytes : List ℕ
message_bytes =
    b'R' ∷ b'T' ∷ b'P' ∷ b'S' ∷ 2 ∷ 5 ∷ 1 ∷ 2 ∷ replicate 12 7
    ++ (9 ∷ 1 ∷ 8 ∷ 0 ∷ 1 ∷ 0 ∷ 0 ∷ 0 ∷ 2 ∷ 0 ∷ 0 ∷ 0 ∷ [])
    ++ (0x80 ∷ 1 ∷ 2 ∷ 0 ∷ 3 ∷ 4 ∷ [])
    ++ (7 ∷ 1 ∷ 0 ∷ 0 ∷ 9 ∷ 9 ∷ 9 ∷ [])

abbrev message : BytePointer
message = Option.some message_bytes

abbrev timestamp : Submessage
timestamp = record {
  id = 9;
  flags = 1;
  body = 1 ∷ 0 ∷ 0 ∷ 0 ∷ 2 ∷ 0 ∷ 0 ∷ 0 ∷ [];
  open_ended = false;
}

abbrev unknown : Submessage
unknown = record { id = 0x80; flags = 1; body = 3 ∷ 4 ∷ []; open_ended = false }

abbrev open_heartbeat : Submessage
open_heartbeat = record { id = 7; flags = 1; body = 9 ∷ 9 ∷ 9 ∷ []; open_ended = true }

abbrev submessages : List Submessage
submessages = timestamp ∷ unknown ∷ open_heartbeat ∷ []

found_it : (find_submessage message 45 7 0).0 ≡ MessageRouteError.none
unfolding find_submessage walk step step_with visit apply_info read_uint16 read_uint32 load_integral
    load_loop
found_it = refl

find_submessage-Routed_example : ResultIsRouted message 45 7 (find_submessage message 45 7 0)
find_submessage-Routed_example = find_submessage-Routed message 45 7 0

walk_total_example :
    (rounds : ℕ) × (4 * rounds < 45 - 20 + 4)
    × Loop message 45 7 0
        (start_state message)
        rounds
        (walk 46 message 45 7 0 (start_state message))
walk_total_example = walk_total message 45 7 0
