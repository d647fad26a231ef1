-- ===== src/Rtps/Reader/Heartbeats.antt =====
-- ReliableReader::on_heartbeat: the ACKNACK asks for exactly the numbers that are missing.
use open_rtdds.Prelude.{
  ℕ, ◌≤◌, ◌<◌, ◌≡◌, ◌≢◌, ◌⊎◌, refl, true, false, [], ◌∷◌, ◌++◌, arith, if◌then◌else◌, Bool-cases,
  inl, inr,
}
use open_rtdds.Rtps.SequenceSet.{empty_set}
use open_rtdds.Rtps.SequenceSet.Laws.{reset_lem, reset-IsValid}
use open_rtdds.Rtps.Messages.{Heartbeat}
use open_rtdds.Rtps.Actions
use open_rtdds.Rtps.Actions.{
  ReliabilityError, ReliabilityAction, ActionBuffer, guarded_cases, listed, remaining, remaining_eq,
  push, push_lem, push-IsValid,
}
use open_rtdds.Rtps.Reader.{
  ReliableReader, Outcome, covers_base, response_required, heartbeat_error, response,
  accept_heartbeat, on_heartbeat, valid_heartbeat_range,
}
use open_rtdds.Rtps.Reader.Requests.{Requests, requested_bits, request-Requests}
use open_rtdds.Rtps.Reader.Seen.{IsValid}

-- The conditions under which `on_heartbeat` takes a heartbeat apart from those on its peer and count.
pub record AcceptsHeartbeat (capacity : ℕ) (r : ReliableReader) (h : Heartbeat) (b : ActionBuffer)
    : Type 0 where
  pub configured : r.valid ≡ true
  pub range : valid_heartbeat_range h ≡ true
  pub reader_peer : h.reader_id ≡ r.config.reader_id
  pub writer_peer : h.writer_id ≡ r.config.writer_id
  pub repairable : r.base ≤ h.last_sequence_number → h.first_sequence_number ≤ r.base
  pub action_room : response_required r h ≡ true → b.size < capacity

heartbeat_error-AcceptsHeartbeat :
    {capacity : ℕ} {r : ReliableReader} (h : Heartbeat) {b : ActionBuffer}
    → Actions.IsValid capacity b
    → heartbeat_error capacity r h b ≡ ReliabilityError.none
    → AcceptsHeartbeat capacity r h b
unfolding heartbeat_error
heartbeat_error-AcceptsHeartbeat h vb e = record {
  configured = ground arith;
  range = ground arith;
  reader_peer = ground arith;
  writer_peer = ground arith;
  repairable = λ c. ground arith;
  action_room = λ q. ground arith;
}

-- What an accepted heartbeat does: the receive state stays as it is, and a reply, where one is
-- required, requests the missing numbers that the writer has.
pub record Answered (window capacity : ℕ) (r : ReliableReader) (h : Heartbeat) (b : ActionBuffer)
    (out : Outcome) : Type 0 where
  pub no_error : out.0 ≡ ReliabilityError.none
  pub accepts : AcceptsHeartbeat capacity r h b
  pub received : out.1.received ≡ r.received
  pub base : out.1.base ≡ r.base
  pub base_index : out.1.base_index ≡ r.base_index
  pub usable : out.1.valid ≡ r.valid
  pub counted : out.1.last_heartbeat_count ≡ h.count
  pub silent : response_required r h ≡ false → out.2 ≡ b
  pub replied : response_required r h ≡ true → listed out.2 ≡ listed b ++ response window r h ∷ []
  pub requests :
      Requests window r
        (if covers_base r h then requested_bits window r h else 0)
        (response window r h).reader_state
  pub valid : IsValid window out.1
  pub buffer : Actions.IsValid capacity out.2

-- What a rejected heartbeat does: nothing.
pub record Ignored (r : ReliableReader) (b : ActionBuffer) (out : Outcome) : Type 0 where
  pub error : out.0 ≢ ReliabilityError.none
  pub reader : out.1 ≡ r
  pub buffer : out.2 ≡ b

response-Requests :
    {window : ℕ} {r : ReliableReader} (h : Heartbeat)
    → IsValid window r
    → valid_heartbeat_range h ≡ true
    → Requests window r
        (if covers_base r h then requested_bits window r h else 0)
        (response window r h).reader_state
unfolding response
response-Requests {window} {r} h v range = elim (Bool-cases (covers_base r h)) [
  | inl c ↦ rw c (request-Requests h v (ground arith) (ground arith))
  | inr n ↦
      let e =
        reset_lem empty_set r.base 0 (omega (arith, v.base_pos)) (omega arith)
          (omega (arith, v.base_le)) (omega (arith, v.base_le)) in
      rw n (record {
        base = e.1;
        count = e.2;
        valid = reset-IsValid r.base 0 (omega arith);
        missing = λ j lt. absurd (omega arith);
      })
]

accept_heartbeat-Answered :
    {window capacity : ℕ} {r : ReliableReader} (h : Heartbeat) {b : ActionBuffer}
    → IsValid window r
    → Actions.IsValid capacity b
    → AcceptsHeartbeat capacity r h b
    → Answered window capacity r h b (accept_heartbeat window capacity r h b)
unfolding accept_heartbeat
accept_heartbeat-Answered {window} {capacity} {r} h {b} v vb a = record {
  no_error = refl;
  accepts = a;
  received = refl;
  base = refl;
  base_index = refl;
  usable = refl;
  counted = refl;
  silent = λ q. simp q refl;
  replied = λ q. simp q (push_lem (response window r h) vb (a.action_room q)).1;
  requests = response-Requests h v a.range;
  valid = record {
    window_pos = v.window_pos;
    window_le = v.window_le;
    storage = v.storage;
    index_lt = v.index_lt;
    base_pos = v.base_pos;
    base_le = v.base_le;
    flagged = v.flagged;
  };
  buffer = elim (Bool-cases (response_required r h)) [
    | inl q ↦ rw q (push-IsValid (response window r h) vb)
    | inr q ↦ rw q vb
  ];
}

-- `on_heartbeat` either ignores the message and changes nothing, or keeps the receive state and
-- answers, where an answer is required, with one ACKNACK whose bitmap starts at the base and marks
-- exactly the missing numbers among those that the heartbeat announces and the window holds.
pub on_heartbeat_lem :
    {window capacity : ℕ} {r : ReliableReader} (h : Heartbeat) {b : ActionBuffer}
    → IsValid window r
    → Actions.IsValid capacity b
    → Ignored r b (on_heartbeat window capacity r h b)
      ⊎ Answered window capacity r h b (on_heartbeat window capacity r h b)
unfolding on_heartbeat
on_heartbeat_lem {window} {capacity} {r} h {b} v vb =
    elim (guarded_cases {A = Outcome} (heartbeat_error capacity r h b)
      (heartbeat_error capacity r h b, r, b) (accept_heartbeat window capacity r h b)) [
        | inl (e, q) ↦
            rw q (inr (accept_heartbeat-Answered h v vb (heartbeat_error-AcceptsHeartbeat h vb e)))
        | inr (ne, q) ↦ rw q (inl (record { error = ne; reader = refl; buffer = refl }))
      ]
