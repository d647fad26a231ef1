-- ===== src/Rtps/Reader/Replies.antt =====
-- The reply of ReliableReader::on_heartbeat can be sent: its reader state is made of 32-bit words, and
-- `reset` accepts its base and its size.
use open_rtdds.Prelude.{
  ℕ, zero, suc, ◌≡◌, Bool, true, false, not, arith, Bool-cases, inl, inr, get_or-replicate, refl,
  if◌then◌else◌,
}
use open_rtdds.Rtps.SequenceSet.{SequenceNumberSet, empty_set, reset, set_bit}
use open_rtdds.Rtps.SequenceSet.Laws
use open_rtdds.Rtps.SequenceSet.Laws.{reset_accepts, set_bit-IsValid, reset-IsValid}
use open_rtdds.Rtps.SequenceSet.Words.{Small, set_bit-Small, reset-Small}
use open_rtdds.Rtps.Messages.{Heartbeat}
use open_rtdds.Rtps.Reader.{
  ReliableReader, flag, slot_of, mark_missing, num_requested, request, response, covers_base,
  valid_heartbeat_range,
}
use open_rtdds.Rtps.Reader.Seen.{IsValid}
use open_rtdds.Rtps.Reader.Requests.{Requests, requested_bits}

empty_set-Small : Small empty_set
empty_set-Small i = ground (arith, get_or-replicate {A = ℕ} 8 i 0)

-- A round of the loop.
marked :
    (b : Bool) {s : SequenceNumberSet} (i : ℕ)
    → Laws.IsValid s
    → Small s
    → let t = if b then (set_bit s i).1 else s in Laws.IsValid t × Small t
marked true i v small = (set_bit-IsValid i v, set_bit-Small i v small)
marked false i v small = (v, small)

mark_missing-Small :
    (window rounds offset : ℕ) (r : ReliableReader) (s : SequenceNumberSet)
    → Laws.IsValid s
    → Small s
    → Small (mark_missing window rounds offset r s)
unfolding mark_missing
mark_missing-Small window zero offset r s v small = small
mark_missing-Small window (suc rounds) offset r s v small =
    let m = marked (not (flag r.received (slot_of window r offset))) offset v small in
    mark_missing-Small window rounds (suc offset) r _ m.0 m.1

pub response-Small :
    (window : ℕ) (r : ReliableReader) (h : Heartbeat) → Small (response window r h).reader_state
unfolding response request
response-Small window r h = elim (Bool-cases (covers_base r h)) [
  | inl c ↦ rw c (
      mark_missing-Small window (num_requested window r h) 0 r
        (reset empty_set r.base (num_requested window r h)).1
        (reset-IsValid r.base (num_requested window r h)
          (record { bits_le = omega arith; words = refl }))
        (reset-Small empty_set r.base (num_requested window r h) empty_set-Small))
  | inr n ↦ rw n (reset-Small empty_set r.base 0 empty_set-Small)
]

-- `reset` accepts the base and the size of a set that asks for the numbers up to the last announced.
pub Requests-accepted :
    {window : ℕ} {r : ReliableReader} (h : Heartbeat) (s : SequenceNumberSet)
    → IsValid window r
    → valid_heartbeat_range h ≡ true
    → Requests window r (if covers_base r h then requested_bits window r h else 0) s
    → (reset empty_set s.bitmap_base s.num_bits).0 ≡ true
Requests-accepted {window} {r} h s v range q =
    (reset_accepts empty_set s.bitmap_base s.num_bits).0.1 (
      omega (arith, q.base, v.base_pos),
      q.valid.bits_le,
      omega (arith, q.base, v.base_le),
      ground (arith, q.base, q.count, v.base_le, range),
    )
