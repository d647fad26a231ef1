-- ===== src/Dds/Reply.antt =====
-- The ACKNACK datagram with which a DataReader answers a HEARTBEAT, given to a DataWriter.
use open_rtdds.Prelude.{
  ℕ, zero, suc, ◌*◌, ◌+◌, ◌≤◌, ◌≡◌, ◌≢◌, refl, sym, subst, ◌∙◌, arith, Bool, true, false, length,
  BytePointer, ◌==◌, inl, inr, List, [], ◌∷◌, get_or, take,
}
use open_rtdds.Rtps.Types.{bytes_eq}
use open_rtdds.Rtps.Actions.{
  ReliabilityError, ReliabilityAction, ActionBuffer, fresh, fresh-IsValid, listed, no_action,
}
use open_rtdds.Rtps.ControlCount.{next_control_count-lt}
use open_rtdds.Rtps.SequenceSet.{SequenceNumberSet, word_count}
use open_rtdds.Rtps.Messages.{Heartbeat, AckNack}
use open_rtdds.Rtps.Writer
use open_rtdds.Rtps.Reader
use open_rtdds.Rtps.Reader.{ReliableReader, Outcome, response, response_required}
use open_rtdds.Rtps.Reader.Seen.{IsValid}
use open_rtdds.Rtps.Reader.Requests.{Requests}
use open_rtdds.Rtps.Reader.Heartbeats.{Answered, on_heartbeat_lem}
use open_rtdds.Rtps.Reader.Replies.{response-Small, Requests-accepted}
use open_rtdds.Rtps.Exchange.{answered_bits}
use open_rtdds.Rtps.Wire.{supported_version}
use open_rtdds.Rtps.Codec
use open_rtdds.Rtps.Codec.{ReliabilityMessageBuilder, build_acknack}
use open_rtdds.Rtps.Codec.Parsing.{Parsed, parse_acknack_message}
use open_rtdds.Rtps.Codec.AcknackBytes.{Readable}
use open_rtdds.Rtps.Codec.AcknackTrip.{parse_acknack-build_acknack}
use open_rtdds.Rtps.Codec.Starts.{HasRoom}
use open_rtdds.Serialization.Integral.{Sized}
use open_rtdds.Dds.Entities.{DdsError, sent_result}
use open_rtdds.Dds.DataWriter
use open_rtdds.Dds.DataWriter.{DataWriter, settle}
use open_rtdds.Dds.DataReader.{
  DataReader, Replied, acknack_of, respond, finish_response, settle_heartbeat,
}

-- When a reader can reply.
pub record Replying (window : ℕ) (r : DataReader) (memory : BytePointer) (capacity : ℕ)
    : Type 0 where
  pub state : IsValid window r.reliability
  pub prefix_size : length r.participant.guid_prefix ≡ 12
  pub supported : supported_version r.participant.version ≡ true
  pub memory_sized : Sized capacity memory
  pub room : 80 ≤ capacity

-- A buffer that holds one action has it in its first slot.
one_listed :
    (b : ActionBuffer) (a : ReliabilityAction)
    → listed b ≡ a ∷ []
    → (b.size ≢ 0) × (get_or b.actions 0 no_action ≡ a)
one_listed b a e = go b.size b.actions a e
  where
    go :
        (n : ℕ) (xs : List ReliabilityAction) (a : ReliabilityAction)
        → take n xs ≡ a ∷ []
        → (n ≢ 0) × (get_or xs 0 no_action ≡ a)
    go zero xs a e = cc
    go (suc n) [] a e = cc
    go (suc n) (x ∷ xs) a e = (λ q. omega (arith, q), cc)

response-Readable :
    {window : ℕ} {r : DataReader} {memory : BytePointer} {capacity : ℕ} (h : Heartbeat)
    {out : Outcome}
    → Replying window r memory capacity
    → Answered window 1 r.reliability h (fresh 1) out
    → Readable (acknack_of r (response window r.reliability h))
unfolding response
response-Readable {window} {r} h v a = record {
  prefix_size = v.prefix_size;
  count_small = next_control_count-lt r.reliability.acknack_count;
  supported = v.supported;
  accepted = Requests-accepted h _ v.state a.accepts.range a.requests;
  valid = a.requests.valid;
  small = response-Small window r.reliability h;
}

-- What is left of the settled answer once the reliability state has accepted the heartbeat.
settled :
    (r : DataReader) (memory : BytePointer) (capacity : ℕ) (out : Outcome)
    → out.0 ≡ ReliabilityError.none
    → settle_heartbeat r memory capacity out
      ≡ respond (record r { reliability = out.1 }) memory capacity out.2
settled r memory capacity (ReliabilityError.none, reliability, actions) e = refl
settled r memory capacity (_, reliability, actions) e = cc

-- An answer with no error comes from an accepted heartbeat.
pub settled_none :
    (r : DataReader) (memory : BytePointer) (capacity : ℕ) (out : Outcome)
    → (settle_heartbeat r memory capacity out).0.error ≡ DdsError.none
    → out.0 ≡ ReliabilityError.none
settled_none r memory capacity (ReliabilityError.none, reliability, actions) e = refl
settled_none r memory capacity (_, reliability, actions) e = cc

-- What a reply says: it is an ACKNACK datagram, and what is parsed from it asks for the numbers that
-- the reader misses among those that the reply speaks of.
pub record Replies (window : ℕ) (r : DataReader) (h : Heartbeat) (reliability : ReliableReader)
    (out : Replied) : Type 0 where
  pub size : ℕ
  pub state : SequenceNumberSet
  pub result : out.0 ≡ sent_result size 0
  pub reader : out.1 ≡ record r { reliability = reliability }
  pub parses :
      parse_acknack_message out.2 out.0.bytes
      ≡ Parsed.parsed
          (record (acknack_of r (response window r.reliability h)) { reader_state = state })
  pub requests : Requests window r.reliability (answered_bits window r.reliability h) state

init_acknack_room :
    (memory : BytePointer) (capacity : ℕ) (s : SequenceNumberSet)
    → Sized capacity memory
    → 80 ≤ capacity
    → s.num_bits ≤ 256
    → HasRoom (Codec.init memory capacity) (48 + 4 * word_count s)
unfolding Codec.init
init_acknack_room memory capacity s sized room le = (sized, omega arith)

-- The reply as it is built.
finished :
    (r : DataReader) (p : Bool × ReliabilityMessageBuilder)
    → p.0 ≡ true
    → finish_response r p ≡ (sent_result p.1.size 0, r, p.1.buffer)
finished r (true, b) e = refl
finished r (false, b) e = cc

responded :
    (r : DataReader) (memory : BytePointer) (capacity : ℕ) (actions : ActionBuffer)
    (a : ReliabilityAction)
    → listed actions ≡ a ∷ []
    → (build_acknack (Codec.init memory capacity) (acknack_of r a)).0 ≡ true
    → let b = (build_acknack (Codec.init memory capacity) (acknack_of r a)).1 in
      respond r memory capacity actions ≡ (sent_result b.size 0, r, b.buffer)
responded r memory capacity actions a one built =
    let (some, first) = one_listed actions a one in
    let taken : (actions.size == 0) ≡ false = ground (arith, some) in
    rw (taken, first)
      (finished r (build_acknack (Codec.init memory capacity) (acknack_of r a)) built)

pub settle_heartbeat-Replies :
    {window : ℕ} {r : DataReader} {memory : BytePointer} {capacity : ℕ} (h : Heartbeat)
    → Replying window r memory capacity
    → response_required r.reliability h ≡ true
    → let out = Reader.on_heartbeat window 1 r.reliability h (fresh 1) in
      out.0 ≡ ReliabilityError.none
      → Replies window r h out.1 (settle_heartbeat r memory capacity out)
settle_heartbeat-Replies {window} {r} {memory} {capacity} h v required heard =
    elim (on_heartbeat_lem h v.state (fresh-IsValid 1 (omega arith))) [
      | inl i ↦ absurd (i.error heard)
      | inr answered ↦
          let out = Reader.on_heartbeat window 1 r.reliability h (fresh 1) in
          let a = response window r.reliability h in
          let (built, (t, parses, base, size, test, valid)) =
            parse_acknack-build_acknack (Codec.init memory capacity) (acknack_of r a)
              (init_acknack_room memory capacity a.reader_state v.memory_sized v.room
                answered.requests.valid.bits_le)
              (response-Readable h v answered) in
          let e =
            settled r memory capacity out heard
            ∙ responded (record r { reliability = out.1 }) memory capacity out.2 a
                (answered.replied required) built in
          subst (Replies window r h out.1) (sym e) (record {
            size = _;
            state = t;
            result = refl;
            reader = refl;
            parses = parses;
            requests = record {
              base = base ∙ answered.requests.base;
              count = size ∙ answered.requests.count;
              valid = valid;
              missing = λ j lt. test j ∙ answered.requests.missing j lt;
            };
          })
    ]

-- A valid writer takes in an ACKNACK of its peer as its reliability state does.
pub on_acknack_valid :
    (capacity : ℕ) (w : DataWriter) (memory : BytePointer) (size now : ℕ) (actions : ActionBuffer)
    (a : AckNack)
    → w.valid ≡ true
    → parse_acknack_message memory size ≡ Parsed.parsed a
    → bytes_eq a.header.guid_prefix w.endpoint.remote_guid_prefix ≡ true
    → DataWriter.on_acknack capacity w memory size now actions
      ≡ settle w (Writer.on_acknack capacity w.reliability a now actions)
unfolding DataWriter.on_acknack
on_acknack_valid capacity w memory size now actions a valid parses same =
    simp (valid, parses, same) refl
