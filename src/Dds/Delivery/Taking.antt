-- ===== src/Dds/Delivery/Taking.antt =====
-- DataReader::take on a DATA datagram that carries a sample.
use open_rtdds.Prelude.{ℕ, ◌+◌, ◌≤◌, ◌<◌, ◌≡◌, refl, sym, ap, ◌∙◌, arith, true, false, BytePointer}
use open_rtdds.Core.History.{is_null, pointed}
use open_rtdds.Rtps.Types.{EntityId, entity_ne, bytes_eq, bytes_eq_refl}
use open_rtdds.Rtps.Actions.{fresh}
use open_rtdds.Rtps.Reader.{on_data}
use open_rtdds.Rtps.DataMessage
use open_rtdds.Rtps.DataMessage.{
  DataMessageBuilder, build, parse_data_message, supported_serialized_payload, RtpsError,
}
use open_rtdds.Rtps.DataMessage.Routed.{Buildable, plain_view}
use open_rtdds.Rtps.DataMessage.RoundTrip.{parse_data-build, build_lem}
use open_rtdds.Rtps.DataMessage.Bounds.{parse_data_message-Within}
use open_rtdds.Serialization.Integral.{Sized}
use open_rtdds.Serialization.Reader
use open_rtdds.Dds.Delivery.Payload.{Carries, byte_at-pointed}
use open_rtdds.Dds.Entities.{TypeSupport, same_guid_prefix}
use open_rtdds.Dds.DataWriter.{DataWriter, data_config}
use open_rtdds.Dds.DataReader.{
  DataReader, take, take_view, deliver_sample, deserialized_by, accept_sample,
}

-- The reader is the one that the writer sends to.
pub record Matched (w : DataWriter) (r : DataReader) : Type 0 where
  pub valid : r.valid ≡ true
  pub reader_eq : r.endpoint.reader_id ≡ w.endpoint.reader_id
  pub writer_eq : r.endpoint.writer_id ≡ w.endpoint.writer_id
  pub prefix_eq : r.endpoint.remote_guid_prefix ≡ w.participant.guid_prefix

entity_ne_refl : (id : EntityId) → entity_ne id id ≡ false
entity_ne_refl id = ground arith

pub init-Sized :
    (datagram : BytePointer) (capacity : ℕ)
    → Sized capacity datagram
    → Sized
        (DataMessage.init datagram capacity).capacity
        (DataMessage.init datagram capacity).buffer
unfolding DataMessage.init
init-Sized datagram capacity h = h

pub init_room :
    (datagram : BytePointer) (capacity n : ℕ)
    → n ≤ capacity
    → n ≤ (DataMessage.init datagram capacity).capacity
unfolding DataMessage.init
init_room datagram capacity n h = h

module _ {Sample : Type 0} (support : TypeSupport Sample) (window : ℕ) where
  take_valid :
      (r : DataReader) (datagram : BytePointer) (size : ℕ)
      → r.valid ≡ true
      → take support window r datagram size
        ≡ take_view support window r size (parse_data_message datagram size)
  unfolding take
  take_valid r datagram size h = simp h refl

  -- The tests of the participant and of the endpoints pass.
  view-Matched :
      (w : DataWriter) (r : DataReader) (s n : ℕ) (p : BytePointer) (k : ℕ)
      → Matched w r
      → take_view support window r n (DataMessage.Parsed.parsed (plain_view (data_config w s) p k))
        ≡ deliver_sample support window r n s
            (deserialized_by support window (Reader.begin (Reader.init p k)))
  view-Matched w r s n p k m =
      let same_prefix : same_guid_prefix w.participant.guid_prefix r.endpoint.remote_guid_prefix
          ≡ true =
        ap (bytes_eq w.participant.guid_prefix) m.prefix_eq
        ∙ bytes_eq_refl w.participant.guid_prefix in
      let same_reader : entity_ne w.endpoint.reader_id r.endpoint.reader_id ≡ false =
        ap (entity_ne w.endpoint.reader_id) m.reader_eq ∙ entity_ne_refl w.endpoint.reader_id in
      let same_writer : entity_ne w.endpoint.writer_id r.endpoint.writer_id ≡ false =
        ap (entity_ne w.endpoint.writer_id) m.writer_eq ∙ entity_ne_refl w.endpoint.writer_id in
      simp (same_prefix, same_reader, same_writer) refl

  -- A reader that is matched takes a DATA datagram of the writer whose payload carries a sample.
  pub take_data :
      (w : DataWriter) (r : DataReader) (s n : ℕ) (payload : BytePointer) (sample : Sample)
      (datagram : BytePointer) (capacity : ℕ)
      → Matched w r
      → Buildable (data_config w s) payload n
      → Carries support window (pointed payload n) sample
      → Sized capacity datagram
      → 44 + n ≤ capacity
      → let b = (build (DataMessage.init datagram capacity) (data_config w s) payload n).1 in
        take support window r b.buffer (44 + n)
        ≡ accept_sample support window r
            (44 + n)
            s
            sample
            (on_data window 1 r.reliability s (fresh 1))
  take_data w r s n payload sample datagram capacity m v carries sized_d fits =
      let start = DataMessage.init datagram capacity in
      let b = (build start (data_config w s) payload n).1 in
      let sized = init-Sized datagram capacity sized_d in
      let room = init_room datagram capacity (44 + n) fits in
      let size : b.size ≡ 44 + n =
        ap (λ p. p.1.size) (build_lem start (data_config w s) payload n sized v room) in
      let (built, (p, parses, same)) =
        parse_data-build start (data_config w s) payload n sized v room in
      let parsed = ap (parse_data_message b.buffer) (sym size) ∙ parses in
      let within =
        parse_data_message-Within b.buffer (44 + n) (plain_view (data_config w s) p n) parsed in
      let there : is_null p ≡ false = ground (arith, within.encapsulated) in
      let length_eq = v.payload_length in
      let (c, reads) = carries.reads p there (λ i lt.
        let below : i < n = omega (arith, length_eq, lt) in
        same i below ∙ sym (byte_at-pointed payload n i below)) in
      take_valid r b.buffer (44 + n) m.valid
      ∙ ap (take_view support window r (44 + n)) parsed
      ∙ view-Matched w r s (44 + n) p n m
      ∙ ap
          (λ k.
            deliver_sample support window r (44 + n) s
              (deserialized_by support window (Reader.begin (Reader.init p k))))
          (sym length_eq)
      ∙ ap (deliver_sample support window r (44 + n) s) reads
