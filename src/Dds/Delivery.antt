-- ===== src/Dds/Delivery.antt =====
-- A sample that a DataWriter writes, taken by a DataReader from the datagram.
pub mod Payload
pub mod Taking
use open_rtdds.Prelude.{
  ℕ, ◌+◌, ◌≤◌, ◌<◌, ◌^◌, ◌≡◌, refl, sym, ap, subst, ◌∙◌, arith, Bool, true, false, Option, length,
  leb, BytePointer, int64_max,
}
use open_rtdds.Core.History.{is_null, pointed}
use open_rtdds.Rtps.Types.{
  ByteOrder, little_endian, big_endian, EntityId, entity_ne, bytes_eq, bytes_eq_refl,
}
use open_rtdds.Rtps.Actions.{ReliabilityError, fresh}
use open_rtdds.Rtps.Writer
use open_rtdds.Rtps.Writer.{ReliableWriter}
use open_rtdds.Rtps.Wire.{supported_version}
use open_rtdds.Rtps.DataMessage
use open_rtdds.Rtps.DataMessage.{
  DataMessageBuilder, build, parse_data_message, supported_serialized_payload, RtpsError,
}
use open_rtdds.Rtps.DataMessage.Routed.{Buildable, plain_view}
use open_rtdds.Rtps.DataMessage.RoundTrip.{parse_data-build, build_lem}
use open_rtdds.Rtps.DataMessage.Bounds.{parse_data_message-Within}
use open_rtdds.Serialization.Cdr.{byte_at}
use open_rtdds.Serialization.Integral.{Sized}
use open_rtdds.Serialization.Copies.{length-take_le}
use open_rtdds.Serialization.Writer.{CdrWriter, begin, init as init_cdr, order_byte}
use open_rtdds.Serialization.Reader
use open_rtdds.Serialization.Written.{Ready, Written}
use open_rtdds.Serialization.RoundTrip.{
  begin-Ready, begin_reads, begun_offset, begin_bytes, not_null,
}
use open_rtdds.Dds.Delivery.Payload.{
  serialized_sample, Serialized, Carries, Serialized-Carries, supported_pointed,
}
use open_rtdds.Dds.Delivery.Taking.{init-Sized, init_room}
use open_rtdds.Dds.Entities.{TypeSupport, same_guid_prefix, sent_result}
use open_rtdds.Dds.DataWriter.{
  array_of, DataWriter, write, data_config, serialized_by, send_sample, store_sample, record_sample,
}
use open_rtdds.Dds.DataReader.{DataReader, take_view, deliver_sample, deserialized_by}

-- A payload that carries a sample can be built into a DATA message.
pub Carries-Buildable :
    {Sample : Type 0} (support : TypeSupport Sample) (window : ℕ) (w : DataWriter) (s n : ℕ)
    (payload : BytePointer) (sample : Sample)
    → Carries support window (pointed payload n) sample
    → length (pointed payload n) ≡ n
    → length w.participant.guid_prefix ≡ 12
    → supported_version w.participant.version ≡ true
    → 0 < s
    → s ≤ int64_max
    → 44 + n ≤ 65507
    → Buildable (data_config w s) payload n
Carries-Buildable support window w s n payload sample c size prefix version positive range fits =
    record {
      prefix_size = prefix;
      supported = version;
      positive = positive;
      in_range = range;
      payload_supported = supported_pointed payload n size c.supported;
      payload_length = size;
      datagram = fits;
    }

module _ {Sample : Type 0} (support : TypeSupport Sample) (depth max : ℕ) where
  -- When a write goes through: the writer is valid, the sample is serialized, its DATA message fits
  -- the datagram and the memory that the caller gives, and the reliability state takes the sample.
  pub record Goes (w : DataWriter) (sample : Sample) (now : ℕ) (datagram : BytePointer)
      (capacity : ℕ) : Type 0 where
    pub valid : w.valid ≡ true
    pub storage : length w.serialized ≡ max
    pub max_small : max < 2 ^ 64
    pub prefix_size : length w.participant.guid_prefix ≡ 12
    pub supported : supported_version w.participant.version ≡ true
    pub serialized : (serialized_sample support depth max w sample).0 ≡ true
    pub datagram_sized : Sized capacity datagram
    pub datagram_fits : 44 + (serialized_sample support depth max w sample).1.offset ≤ 65507
    pub room : 44 + (serialized_sample support depth max w sample).1.offset ≤ capacity
    pub positive : 0 < w.next_sequence
    pub in_range : w.next_sequence ≤ int64_max
    pub taken :
        (Writer.write 1 depth max w.reliability
          (serialized_sample support depth max w sample).1.buffer
          (serialized_sample support depth max w sample).1.offset
          w.next_sequence
          now
          (fresh 1)).0
        ≡ ReliabilityError.none

  -- The payload is one that a DATA message may carry.
  pub sent-Buildable :
      (w : DataWriter) (sample : Sample) (now : ℕ) (datagram : BytePointer) (capacity window : ℕ)
      → Goes w sample now datagram capacity
      → Serialized support depth max w sample (serialized_sample support depth max w sample).1
      → let cdr = (serialized_sample support depth max w sample).1 in
        Buildable (data_config w w.next_sequence) cdr.buffer cdr.offset
        × Carries support window (pointed cdr.buffer cdr.offset) sample
  sent-Buildable w sample now datagram capacity window g s =
      let (size, carries) = Serialized-Carries support depth max w sample window g.storage s in
      (
        Carries-Buildable support window w w.next_sequence _ _ sample carries size g.prefix_size
            g.supported g.positive g.in_range g.datagram_fits,
        carries,
      )

  -- The datagram that a write that goes through has built.
  abbrev sent_datagram : DataWriter → Sample → BytePointer → ℕ → DataMessageBuilder
  sent_datagram w sample datagram capacity =
      (build (DataMessage.init datagram capacity) (data_config w w.next_sequence)
        (serialized_sample support depth max w sample).1.buffer
        (serialized_sample support depth max w sample).1.offset).1

  write_valid :
      (w : DataWriter) (sample : Sample) (now : ℕ) (datagram : BytePointer) (capacity : ℕ)
      → w.valid ≡ true
      → write support depth max w sample now datagram capacity
        ≡ send_sample support depth max w datagram capacity now
            (serialized_sample support depth max w sample)
  unfolding write
  write_valid w sample now datagram capacity h = simp h refl

  -- The steps of a write that goes through.
  pub write-Goes :
      (w : DataWriter) (sample : Sample) (now : ℕ) (datagram : BytePointer) (capacity : ℕ)
      → Goes w sample now datagram capacity
      → Serialized support depth max w sample (serialized_sample support depth max w sample).1
      → let b = sent_datagram w sample datagram capacity in
        let out = write support depth max w sample now datagram capacity in
        (out.0
          ≡ sent_result
              (44 + (serialized_sample support depth max w sample).1.offset)
              w.next_sequence)
        × (out.2 ≡ b.buffer)
        × (out.1.reliability
            ≡ (Writer.write 1 depth max w.reliability
                (serialized_sample support depth max w sample).1.buffer
                (serialized_sample support depth max w sample).1.offset
                w.next_sequence
                now
                (fresh 1)).1)
  write-Goes w sample now datagram capacity g s =
      let cdr = (serialized_sample support depth max w sample).1 in
      let b = sent_datagram w sample datagram capacity in
      let w1 : DataWriter = record w { serialized = array_of cdr.buffer } in
      let built =
        build_lem (DataMessage.init datagram capacity) (data_config w w.next_sequence) cdr.buffer
          cdr.offset (init-Sized datagram capacity g.datagram_sized)
          (sent-Buildable w sample now datagram capacity 0 g s).0
          (init_room datagram capacity (44 + cdr.offset) g.room) in
      let good = ap (λ p. p.0) built in
      let size : b.size ≡ 44 + cdr.offset = ap (λ p. p.1.size) built in
      let o =
        Writer.write 1 depth max w.reliability cdr.buffer cdr.offset w.next_sequence now
          (fresh 1) in
      let e =
        write_valid w sample now datagram capacity g.valid
        ∙ ap (λ x. send_sample support depth max w datagram capacity now (x, cdr)) g.serialized
        ∙ ap (λ x. store_sample support depth max w1 cdr now (x, b)) good in
      let (result, memory, after) = sent w1 b o g.taken in
      (
        ap (λ p. p.0) e ∙ result ∙ ap (λ n. sent_result n w.next_sequence) size,
        ap (λ p. p.2) e ∙ memory,
        ap (λ p. p.1.reliability) e ∙ after,
      )
    where
      sent :
          (w1 : DataWriter) (b : DataMessageBuilder) (o : Writer.Outcome)
          → o.0 ≡ ReliabilityError.none
          → let out = record_sample support depth max w1 b o in
            (out.0 ≡ sent_result b.size w1.next_sequence)
            × (out.2 ≡ b.buffer)
            × (out.1.reliability ≡ o.1)
      sent w1 b (ReliabilityError.none, reliability, actions) e = (refl, refl, refl)
      sent w1 b (_, reliability, actions) e = cc
