-- ===== src/Dds/Control.antt =====
-- A HEARTBEAT that a DataWriter builds, given to a DataReader.
use open_rtdds.Prelude.{
  ℕ, ◌≤◌, ◌≡◌, refl, sym, ap, ap₂, ◌∙◌, arith, Bool, true, false, length, BytePointer,
}
use open_rtdds.Rtps.Types.{bytes_eq_refl, bytes_eq}
use open_rtdds.Rtps.Actions.{ReliabilityError, fresh}
use open_rtdds.Rtps.ControlCount.{next_control_count-lt}
use open_rtdds.Rtps.Messages.{Heartbeat}
use open_rtdds.Rtps.Writer.{ReliableWriter, fill_heartbeat}
use open_rtdds.Rtps.Writer.Invariant.{IsValid}
use open_rtdds.Rtps.Writer.Announce.{fill_heartbeat_lem}
use open_rtdds.Rtps.Reader
use open_rtdds.Rtps.Wire.{supported_version}
use open_rtdds.Rtps.Codec
use open_rtdds.Rtps.Codec.{ReliabilityMessageBuilder, build_heartbeat, valid_range}
use open_rtdds.Rtps.Codec.Parsing.{Parsed, parse_heartbeat_message}
use open_rtdds.Rtps.Codec.HeartbeatTrip.{Buildable, parse_heartbeat-build_heartbeat, built_size}
use open_rtdds.Rtps.Codec.Starts.{HasRoom}
use open_rtdds.Serialization.Integral.{Sized}
use open_rtdds.Dds.Entities.{sent_result}
use open_rtdds.Dds.DataWriter.{
  DataWriter, blank_heartbeat, build_heartbeat_datagram, send_heartbeat, finish_heartbeat_message,
}
use open_rtdds.Dds.DataReader.{DataReader, on_heartbeat, settle_heartbeat}
use open_rtdds.Dds.Delivery.Taking.{Matched}

-- The heartbeat that the reliability state fills in.
abbrev pub filled : DataWriter → Bool → Heartbeat
filled w final_flag = (fill_heartbeat w.reliability (blank_heartbeat w final_flag)).2

-- When a heartbeat goes out.
pub record Announcing (depth : ℕ) (w : DataWriter) (datagram : BytePointer) (capacity : ℕ)
    : Type 0 where
  pub valid : w.valid ≡ true
  pub configured : w.reliability.valid ≡ true
  pub state : IsValid depth w.reliability
  pub prefix_size : length w.participant.guid_prefix ≡ 12
  pub supported : supported_version w.participant.version ≡ true
  pub datagram_sized : Sized capacity datagram
  pub room : 52 ≤ capacity

filled-Buildable :
    (depth : ℕ) (w : DataWriter) (datagram : BytePointer) (capacity : ℕ) (final_flag : Bool)
    → Announcing depth w datagram capacity
    → Buildable (filled w final_flag)
      × ((fill_heartbeat w.reliability (blank_heartbeat w final_flag)).0 ≡ ReliabilityError.none)
      × ((filled w final_flag).header ≡ (blank_heartbeat w final_flag).header)
filled-Buildable depth w datagram capacity final_flag a =
    let (ok, announces, same) =
      (fill_heartbeat_lem (blank_heartbeat w final_flag) a.state).0 a.configured in
    (
      record {
        prefix_size = ap (λ h. length h.guid_prefix) announces.header ∙ a.prefix_size;
        count_small =
            omega (arith, announces.count, next_control_count-lt w.reliability.heartbeat_count);
        supported = ap (λ h. supported_version h.version) announces.header ∙ a.supported;
        range = ground (arith, announces.range);
      },
      ok,
      announces.header,
    )

init_heartbeat_room :
    (datagram : BytePointer) (capacity : ℕ)
    → Sized capacity datagram
    → 52 ≤ capacity
    → HasRoom (Codec.init datagram capacity) 52
unfolding Codec.init
init_heartbeat_room datagram capacity sized room = (sized, room)

sending :
    (w : DataWriter) (datagram : BytePointer) (capacity : ℕ) (final_flag : Bool)
    → w.valid ≡ true
    → build_heartbeat_datagram w datagram capacity final_flag
      ≡ send_heartbeat w datagram capacity
          (fill_heartbeat w.reliability (blank_heartbeat w final_flag))
unfolding build_heartbeat_datagram
sending w datagram capacity final_flag valid = simp valid refl

-- The steps of the writer.
sends :
    (w : DataWriter) (datagram : BytePointer) (capacity : ℕ) (final_flag : Bool)
    → w.valid ≡ true
    → (fill_heartbeat w.reliability (blank_heartbeat w final_flag)).0 ≡ ReliabilityError.none
    → (build_heartbeat (Codec.init datagram capacity) (filled w final_flag)).0 ≡ true
    → let b = (build_heartbeat (Codec.init datagram capacity) (filled w final_flag)).1 in
      let out = build_heartbeat_datagram w datagram capacity final_flag in
      (out.0 ≡ sent_result b.size (filled w final_flag).last_sequence_number)
      × (out.2 ≡ b.buffer)
      × (out.1 ≡ record w {
        reliability = (fill_heartbeat w.reliability (blank_heartbeat w final_flag)).1;
      })
sends w datagram capacity final_flag valid ok built =
    rw (sending w datagram capacity final_flag valid)
      (filling (fill_heartbeat w.reliability (blank_heartbeat w final_flag)) ok built)
  where
    building :
        (w1 : DataWriter) (h : Heartbeat) (p : Bool × ReliabilityMessageBuilder)
        → p.0 ≡ true
        → ((finish_heartbeat_message w1 h p).0 ≡ sent_result p.1.size h.last_sequence_number)
          × ((finish_heartbeat_message w1 h p).2 ≡ p.1.buffer)
          × ((finish_heartbeat_message w1 h p).1 ≡ w1)
    building w1 h (true, b) e = (refl, refl, refl)
    building w1 h (false, b) e = cc

    filling :
        (o : ReliabilityError × ReliableWriter × Heartbeat)
        → o.0 ≡ ReliabilityError.none
        → (build_heartbeat (Codec.init datagram capacity) o.2).0 ≡ true
        → let b = (build_heartbeat (Codec.init datagram capacity) o.2).1 in
          let out = send_heartbeat w datagram capacity o in
          (out.0 ≡ sent_result b.size o.2.last_sequence_number)
          × (out.2 ≡ b.buffer)
          × (out.1 ≡ record w { reliability = o.1 })
    filling (ReliabilityError.none, reliability, h) e b =
        building (record w { reliability = reliability }) h
          (build_heartbeat (Codec.init datagram capacity) h) b
    filling (_, reliability, h) e b = cc

heartbeat_valid :
    (window : ℕ) (r : DataReader) (datagram response : BytePointer) (capacity : ℕ) (h : Heartbeat)
    → r.valid ≡ true
    → parse_heartbeat_message datagram 52 ≡ Parsed.parsed h
    → bytes_eq h.header.guid_prefix r.endpoint.remote_guid_prefix ≡ true
    → on_heartbeat window r datagram 52 response capacity
      ≡ settle_heartbeat r response capacity
          (Reader.on_heartbeat window 1 r.reliability h (fresh 1))
unfolding on_heartbeat
heartbeat_valid window r datagram response capacity h valid parses same =
    simp (valid, parses, same) refl

-- A valid writer whose history is in order and whose memory for the datagram has 52 bytes or more
-- builds a HEARTBEAT, and a valid reader that is matched acts on that datagram as its reliability
-- state acts on the heartbeat that the writer's reliability state filled in. The writer keeps the
-- control count of that heartbeat and is otherwise unchanged.
pub on_heartbeat-build_heartbeat :
    (depth window : ℕ) (w : DataWriter) (r : DataReader) (datagram response : BytePointer)
    (capacity response_capacity : ℕ) (final_flag : Bool)
    → Matched w r
    → Announcing depth w datagram capacity
    → let out = build_heartbeat_datagram w datagram capacity final_flag in
      (out.0 ≡ sent_result 52 w.reliability.last_sequence_number)
      × (on_heartbeat window r out.2 out.0.bytes response response_capacity
          ≡ settle_heartbeat r response response_capacity
              (Reader.on_heartbeat window 1 r.reliability (filled w final_flag) (fresh 1)))
      × (out.1 ≡ record w {
        reliability = record w.reliability { heartbeat_count = (filled w final_flag).count };
      })
on_heartbeat-build_heartbeat depth window w r datagram response capacity response_capacity
      final_flag m a =
    let h = filled w final_flag in
    let (buildable, ok, header) = filled-Buildable depth w datagram capacity final_flag a in
    let room = init_heartbeat_room datagram capacity a.datagram_sized a.room in
    let b = Codec.init datagram capacity in
    let (built, parses) = parse_heartbeat-build_heartbeat b h room buildable in
    let size = built_size b h room buildable in
    let (result, memory, after) = sends w datagram capacity final_flag a.valid ok built in
    let (_, announces, counted) =
      (fill_heartbeat_lem (blank_heartbeat w final_flag) a.state).0 a.configured in
    let last = announces.last in
    let sent : (build_heartbeat_datagram w datagram capacity final_flag).0
        ≡ sent_result 52 w.reliability.last_sequence_number =
      result ∙ ap₂ sent_result size last in
    let prefix : bytes_eq h.header.guid_prefix r.endpoint.remote_guid_prefix ≡ true =
      ap₂ bytes_eq (ap (λ x. x.guid_prefix) header) m.prefix_eq
      ∙ bytes_eq_refl w.participant.guid_prefix in
    (
      sent,
      ap₂ (λ x n. on_heartbeat window r x n response response_capacity) memory
            (ap (λ x. x.bytes) sent)
          ∙ heartbeat_valid window r (build_heartbeat b h).1.buffer response response_capacity h
              m.valid
              (ap (parse_heartbeat_message (build_heartbeat b h).1.buffer) (sym size) ∙ parses)
              prefix,
      after ∙ ap (λ x. record w { reliability = x }) counted,
    )
