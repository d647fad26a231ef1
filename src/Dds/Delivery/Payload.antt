-- ===== src/Dds/Delivery/Payload.antt =====
-- The payload of a DATA message: the bytes that DataWriter::write serializes, and what
-- DataReader::take makes of them.
use open_rtdds.Prelude.{
  get_or-take, List, get_or, ℕ, ◌≤◌, ◌<◌, ◌^◌, ◌≡◌, refl, sym, ap, subst, ◌∙◌, arith, Bool, true,
  false, Option, length, leb, BytePointer,
}
use open_rtdds.Core.History.{is_null, pointed}
use open_rtdds.Rtps.Types.{ByteOrder, little_endian, big_endian}
use open_rtdds.Rtps.DataMessage.{supported_serialized_payload}
use open_rtdds.Serialization.Cdr.{byte_at}
use open_rtdds.Serialization.Integral.{Sized}
use open_rtdds.Serialization.Copies.{length-take_le}
use open_rtdds.Serialization.Writer.{CdrWriter, begin, init as init_cdr, order_byte}
use open_rtdds.Serialization.Reader
use open_rtdds.Serialization.Written.{Ready, Written}
use open_rtdds.Serialization.RoundTrip.{
  begin-Ready, begin_reads, begun_offset, begin_bytes, not_null,
}
use open_rtdds.Dds.Entities.{TypeSupport}
use open_rtdds.Dds.DataWriter.{DataWriter, serialized_by}
use open_rtdds.Dds.DataReader.{deserialized_by}

-- What the entities rely on: what `serialize` has written without an error, `deserialize` reads.
pub record RoundTrips {Sample : Type 0} (support : TypeSupport Sample) : Type 0 where
  pub serialize-Written :
      (sample : Sample) (w : CdrWriter)
      → Ready w
      → (support.serialize sample w).0 ≡ true
      → Written w (support.serialize sample w).1 support.deserialize (Option.some sample)

order_byte-le : (order : ByteOrder) → leb (order_byte order) 3 ≡ true
order_byte-le little_endian = refl
order_byte-le big_endian = refl

-- A payload that a DATA message may carry, and from which the sample is read, wherever it is copied.
pub record Carries {Sample : Type 0} (support : TypeSupport Sample) (window : ℕ) (content : List ℕ)
    (sample : Sample) : Type 0 where
  pub supported : supported_serialized_payload (Option.some content) (length content) ≡ true
  pub reads :
      (p : BytePointer)
      → is_null p ≡ false
      → ((i : ℕ) → i < length content → byte_at p i ≡ get_or content i 0)
      → (c : Reader.CdrReader) × (deserialized_by support window
            (Reader.begin (Reader.init p (length content)))
          ≡ (Option.some sample, c))

pub byte_at-pointed : (b : BytePointer) (n i : ℕ) → i < n → get_or (pointed b n) i 0 ≡ byte_at b i
byte_at-pointed Option.none n i lt = refl
byte_at-pointed (Option.some bytes) n i lt = get_or-take n i bytes 0 lt

pub supported_pointed :
    (b : BytePointer) (n : ℕ)
    → length (pointed b n) ≡ n
    → supported_serialized_payload (Option.some (pointed b n)) (length (pointed b n)) ≡ true
    → supported_serialized_payload b n ≡ true
supported_pointed Option.none n size ok = absurd (ground (arith, ok))
supported_pointed (Option.some bytes) n size ok =
    let four : leb 4 n ≡ true = ground (arith, size, ok) in
    let zero_at = byte_at-pointed (Option.some bytes) n 0 (ground (arith, four)) in
    let one_at = byte_at-pointed (Option.some bytes) n 1 (ground (arith, four)) in
    ground (arith, ok, four, zero_at, one_at)

module _ {Sample : Type 0} (support : TypeSupport Sample) (depth max : ℕ) where
  -- The CDR writer after the sample is serialized.
  abbrev pub serialized_sample : DataWriter → Sample → Bool × CdrWriter
  serialized_sample w sample =
      serialized_by support depth max sample
        (begin (init_cdr (Option.some w.serialized) max) w.endpoint.byte_order)

  -- What is serialized is read again from a copy of its bytes.
  pub record Serialized (w : DataWriter) (sample : Sample) (cdr : CdrWriter) : Type 0 where
    pub begun : (begin (init_cdr (Option.some w.serialized) max) w.endpoint.byte_order).0 ≡ true
    pub written :
        Written
          (begin (init_cdr (Option.some w.serialized) max) w.endpoint.byte_order).1
          cdr
          support.deserialize
          (Option.some sample)
    pub start : (begin (init_cdr (Option.some w.serialized) max) w.endpoint.byte_order).1.offset ≡ 4

  pub serialized-Serialized :
      (w : DataWriter) (sample : Sample)
      → RoundTrips support
      → length w.serialized ≡ max
      → max < 2 ^ 64
      → (serialized_sample w sample).0 ≡ true
      → Serialized w sample (serialized_sample w sample).1
  serialized-Serialized w sample law storage small ok =
      go (begin (init_cdr (Option.some w.serialized) max) w.endpoint.byte_order) refl ok
    where
      go :
          (p : Bool × CdrWriter)
          → begin (init_cdr (Option.some w.serialized) max) w.endpoint.byte_order ≡ p
          → (serialized_by support depth max sample p).0 ≡ true
          → Serialized w sample (serialized_by support depth max sample p).1
      go (false, cdr) e h = cc
      go (true, cdr) e h =
          let begun : (begin (init_cdr (Option.some w.serialized) max) w.endpoint.byte_order).0
              ≡ true =
            ap (λ p. p.0) e in
          let same : (begin (init_cdr (Option.some w.serialized) max) w.endpoint.byte_order).1
              ≡ cdr =
            ap (λ p. p.1) e in
          let ready = subst Ready same (
            begin-Ready (Option.some w.serialized) max w.endpoint.byte_order storage small begun) in
          record {
            begun = begun;
            written =
                subst
                  (λ x.
                    Written x (support.serialize sample cdr).1 support.deserialize
                      (Option.some sample))
                  (sym same) (law.serialize-Written sample cdr ready h);
            start = begun_offset (Option.some w.serialized) max w.endpoint.byte_order begun;
          }

  pointed_length :
      (n k : ℕ) (b : BytePointer) → Sized n b → k ≤ n → is_null b ≡ false → length (pointed b k) ≡ k
  pointed_length n k Option.none sized le there = cc
  pointed_length n k (Option.some bytes) sized le there = length-take_le k bytes (omega arith)

  -- What is serialized carries the sample.
  pub Serialized-Carries :
      (w : DataWriter) (sample : Sample) (window : ℕ)
      → length w.serialized ≡ max
      → Serialized w sample (serialized_sample w sample).1
      → let cdr = (serialized_sample w sample).1 in
        (length (pointed cdr.buffer cdr.offset) ≡ cdr.offset)
        × Carries support window (pointed cdr.buffer cdr.offset) sample
  Serialized-Carries w sample window storage s =
      let cdr = (serialized_sample w sample).1 in
      let four : 4 ≤ cdr.offset = omega (arith, s.start, s.written.advances) in
      let (first, second) = begin_bytes w.serialized max w.endpoint.byte_order storage s.begun in
      let there = not_null cdr s.written.ready four in
      let content = pointed cdr.buffer cdr.offset in
      let size : length content ≡ cdr.offset =
        pointed_length cdr.capacity cdr.offset cdr.buffer s.written.ready.sized
          s.written.ready.offset_le there in
      let byte = λ (i : ℕ) (lt : i < cdr.offset). byte_at-pointed cdr.buffer cdr.offset i lt in
      let zero_at : get_or content 0 0 ≡ 0 =
        byte 0 (omega (arith, four)) ∙ sym (s.written.keeps 0 (omega (arith, s.start))) ∙ first in
      let one_at : get_or content 1 0 ≡ order_byte w.endpoint.byte_order =
        byte 1 (omega (arith, four)) ∙ sym (s.written.keeps 1 (omega (arith, s.start))) ∙ second in
      let long : leb 4 (length content) ≡ true = ground (arith, size, four) in
      let le : cdr.offset ≤ cdr.capacity = s.written.ready.offset_le in
      let small : cdr.offset < 2 ^ 64 = omega (arith, s.written.ready.small) in
      (
        size,
        record {
          supported = rw (long, zero_at, one_at) (order_byte-le w.endpoint.byte_order);
          reads = λ p there_p same.
              let agree =
                λ (i : ℕ) (lt : i < cdr.offset). same i (omega (arith, size, lt)) ∙ byte i lt in
              let begins =
                begin_reads w.serialized max w.endpoint.byte_order p cdr.offset storage s.begun
                  (λ i lt.
                    s.written.keeps i (omega (arith, s.start))
                    ∙ sym (agree i (omega (arith, s.start, s.written.advances))))
                  (omega (arith, s.start, s.written.advances)) there_p in
              let reads =
                s.written.reads p cdr.offset (λ i lt. sym (agree i lt)) (omega arith) small in
              (
                _,
                ap (λ k. deserialized_by support window (Reader.begin (Reader.init p k))) size
                    ∙ ap (deserialized_by support window) begins
                    ∙ reads,
              );
        },
      )
