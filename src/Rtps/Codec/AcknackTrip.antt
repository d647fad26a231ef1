-- ===== src/Rtps/Codec/AcknackTrip.antt =====
-- An ACKNACK that is built is parsed again.
use open_rtdds.Prelude.{
  bit_and, ◌+◌, Bool, ◌*◌, get_or, replicate, subst, ℕ, ◌^◌, ◌<◌, ◌≡◌, refl, ap, ap₂, ◌∙◌, arith,
  true, false, List, Option, ◌!=◌, ltb, bit_and, BytePointer,
}
use open_rtdds.Core.History.{is_null}
use open_rtdds.Rtps.Types.{EntityId}
use open_rtdds.Rtps.SequenceSet.{
  valid_sequence_number, SequenceNumberSet, word, word_count, test_bit,
}
use open_rtdds.Rtps.SequenceSet.Laws.{IsValid}
use open_rtdds.Rtps.Codec.BitmapTrip.{read_words-Adds}
use open_rtdds.Rtps.Messages.{AckNack}
use open_rtdds.Rtps.Wire.{pointer_at, entity_bytes, read_uint32, write_rtps_header}
use open_rtdds.Rtps.Wire.Holds.{
  Holds, Holds-pointer_at, uint32_bytes, read_uint32_lem, entity_at_lem,
}
use open_rtdds.Rtps.Wire.Begins.{Begins, Begins-split}
use open_rtdds.Rtps.Router.{submessage_id_acknack}
use open_rtdds.Rtps.Codec.{write_acknack, build_acknack, ReliabilityMessageBuilder, cleared}
use open_rtdds.Rtps.Codec.Parsing.{
  read_words, acknack_from, parse_acknack_message, Parsed, read_sequence_number,
}
use open_rtdds.Rtps.Codec.Written.{rtps_header, Begins-write_rtps_header, flags_of, sequence_bytes}
use open_rtdds.Rtps.Codec.Prefix.{read_sequence_number_lem}
use open_rtdds.Rtps.Codec.Starts.{
  flags_of-Flags, Begins-Starts, parse_prefix-Starts, HasRoom, begin-HasRoom, written_pointed,
}
use open_rtdds.Rtps.Codec.AcknackBytes.{
  words_bytes, Holds-word, Readable, acknack_bytes, Begins-write_acknack, reset_lem, read_words_lem,
  length-words_bytes,
}

abbrev acknack_of : AckNack → EntityId → EntityId → ℕ → Bool → SequenceNumberSet → AckNack
acknack_of config reader writer count final state = record {
  header = config.header;
  reader_id = reader;
  writer_id = writer;
  reader_state = state;
  count = count;
  final_flag = final;
}

Holds-at : (b : BytePointer) (k k' : ℕ) (xs : List ℕ) → k ≡ k' → Holds b k xs → Holds b k' xs
Holds-at b k k' xs e h = subst (λ x. Holds b x xs) e h

word_small :
    (s : SequenceNumberSet) → ((i : ℕ) → get_or s.bitmap i 0 < 2 ^ 32) → (i : ℕ) → word s i < 2 ^ 32
unfolding word
word_small s small i = ground (arith, small i)

-- What is read from a memory that holds the message.
parsed_acknack :
    (n : ℕ) (m : BytePointer) (config : AckNack)
    → Readable config
    → is_null m ≡ false
    → Begins n m (44 + 4 * word_count config.reader_state + 4) (
        acknack_bytes
          (rtps_header config.header.version config.header.vendor_id config.header.guid_prefix)
          config
          config.header.submessage_byte_order
          (word_count config.reader_state))
    → parse_acknack_message m (20 + 4 + (24 + word_count config.reader_state * 4))
        ≡ Parsed.parsed (record config {
          reader_state =
              read_words
                (word_count config.reader_state)
                0
                (pointer_at m 24)
                config.header.submessage_byte_order
                (record {
                  bitmap_base = config.reader_state.bitmap_base;
                  num_bits = config.reader_state.num_bits;
                  bitmap = replicate 8 0;
                });
        })
      × ((i : ℕ)
          → i < word_count config.reader_state
          → read_uint32 (pointer_at m 24) (20 + 4 * i) config.header.submessage_byte_order
            ≡ word config.reader_state i)
unfolding parse_acknack_message
parsed_acknack n m config v pointed begins =
    let order = config.header.submessage_byte_order in
    let s = config.reader_state in
    let words = word_count s in
    let flags = flags_of order config.final_flag false in
    let c = pointer_at m 24 in
    let (before_count, count_at) =
      Begins-split n m (44 + 4 * words) 4 _ (uint32_bytes config.count order) begins refl in
    let (before_words, words_at) =
      Begins-split n m 44 (4 * words) _ (words_bytes words 0 s order) before_count
        (length-words_bytes words 0 s order) in
    let (before_size, size_at) =
      Begins-split n m 40 4 _ (uint32_bytes s.num_bits order) before_words refl in
    let (entities, base_at) =
      Begins-split n m 32 8 _ (sequence_bytes s.bitmap_base order) before_size refl in
    let starts =
      Begins-Starts n m config.header submessage_id_acknack flags (24 + words * 4) config.reader_id
        config.writer_id v.prefix_size entities in
    let f = flags_of-Flags order config.final_flag false in
    let (accepted, positive, small, bits_le) = reset_lem s.bitmap_base s.num_bits v.accepted in
    let base : read_sequence_number c 8 order false ≡ Option.some s.bitmap_base =
      read_sequence_number_lem c 8 s.bitmap_base order false small (ground arith)
        (Holds-pointer_at m 24 8 (sequence_bytes s.bitmap_base order) base_at) in
    let size : read_uint32 c 16 order ≡ s.num_bits =
      read_uint32_lem c 16 s.num_bits order (omega arith)
        (Holds-pointer_at m 24 16 (uint32_bytes s.num_bits order) size_at) in
    let few : ltb 256 s.num_bits ≡ false = ground arith in
    let long : ltb (24 + words * 4) 24 ≡ false = ground arith in
    let expected : (24 + words * 4 != 24 + words * 4) ≡ false = ground arith in
    (
      ap acknack_from (
            parse_prefix-Starts starts (refl, refl, refl) f.order_eq v.supported pointed
              (omega arith) (omega arith))
          ∙ rw (f.only_two, long, base, size, few, expected, accepted)
              (ap Parsed.parsed (
                ap₂
                  (λ r w.
                    acknack_of config r w (read_uint32 c (20 + 4 * words) order)
                      (bit_and flags 0x02 != 0)
                      (read_words words 0 c order (record {
                        bitmap_base = s.bitmap_base;
                        num_bits = s.num_bits;
                        bitmap = replicate 8 0;
                      })))
                  (entity_at_lem c 0 config.reader_id
                    (Holds-pointer_at m 24 0 (entity_bytes config.reader_id) starts.reader_at))
                  (entity_at_lem c 4 config.writer_id
                    (Holds-pointer_at m 24 4 (entity_bytes config.writer_id) starts.writer_at))
                ∙ ap₂
                    (λ k x. acknack_of config config.reader_id config.writer_id k x (
                      read_words words 0 c order (record {
                        bitmap_base = s.bitmap_base;
                        num_bits = s.num_bits;
                        bitmap = replicate 8 0;
                      })))
                    (read_uint32_lem c (20 + 4 * words) config.count order v.count_small (
                      Holds-pointer_at m 24 (20 + 4 * words) (uint32_bytes config.count order) (
                        Holds-at m (44 + 4 * words) (24 + (20 + 4 * words))
                          (uint32_bytes config.count order) (omega arith) count_at)))
                    f.final_eq)),
      λ i lt. read_uint32_lem c (20 + 4 * i) (word s i) order (word_small s v.small i) (
          Holds-pointer_at m 24 (20 + 4 * i) (uint32_bytes (word s i) order) (
            Holds-at m (44 + 4 * i) (24 + (20 + 4 * i)) (uint32_bytes (word s i) order)
              (omega arith) (Holds-word m words 0 i s order words_at (omega arith) (omega arith)))),
    )

-- With a buffer of enough bytes and a supported version, an ACKNACK whose reader state is one that
-- `reset` accepts is built, and parsing what was built, in either byte order, gives an ACKNACK that
-- differs at most in the representation of the reader state: its base, its size and the answer of
-- `test` for every offset are the same. It has at most 256 bits, and eight words.
pub parse_acknack-build_acknack :
    (b : ReliabilityMessageBuilder) (config : AckNack)
    → HasRoom b (48 + 4 * word_count config.reader_state)
    → Readable config
    → ((build_acknack b config).0 ≡ true)
      × ((t : SequenceNumberSet) × (parse_acknack_message
              (build_acknack b config).1.buffer
              (build_acknack b config).1.size
            ≡ Parsed.parsed (record config { reader_state = t }))
          × (t.bitmap_base ≡ config.reader_state.bitmap_base)
          × (t.num_bits ≡ config.reader_state.num_bits)
          × ((j : ℕ) → test_bit t j ≡ test_bit config.reader_state j)
          × IsValid t)
unfolding build_acknack
parse_acknack-build_acknack b config room v =
    let header = config.header in
    let s = config.reader_state in
    let words = word_count s in
    let (accepted, positive, small, bits_le) = reset_lem s.bitmap_base s.num_bits v.accepted in
    let base : valid_sequence_number s.bitmap_base ≡ true = ground arith in
    let few : ltb 256 s.num_bits ≡ false = ground arith in
    let e =
      begin-HasRoom (cleared b) header (20 + 4 + (24 + words * 4)) (room.0, omega (arith, room.1))
        (omega arith) v.supported in
    let w =
      Begins-write_acknack b.capacity _
        (rtps_header header.version header.vendor_id header.guid_prefix) config
        header.submessage_byte_order
        (Begins-write_rtps_header b.capacity b.buffer header.version header.vendor_id
          header.guid_prefix room.0 v.prefix_size (omega (arith, room.1)))
        room.1 in
    let (parses, read) =
      parsed_acknack b.capacity _ config v
        (written_pointed b.capacity _ (44 + 4 * words + 4) _ w (omega (arith, room.1))) w in
    let m =
      write_acknack (write_rtps_header b.buffer header.version header.vendor_id header.guid_prefix)
        config header.submessage_byte_order in
    let a =
      read_words-Adds words 0 (pointer_at m 24) header.submessage_byte_order
        (record { bitmap_base = s.bitmap_base; num_bits = s.num_bits; bitmap = replicate 8 0 })
        (record { bits_le = v.valid.bits_le; words = refl }) in
    rw (base, few, e)
      (
        refl,
        (
          _,
          parses,
          a.base_eq,
          a.size_eq,
          read_words_lem (pointer_at m 24) header.submessage_byte_order s v.valid read,
          a.valid,
        ),
      )
