-- ===== src/Rtps/Codec/AcknackBytes.antt =====
-- The bytes of an ACKNACK that is built, and what its words are read as.
use Prim.Native.Nat.{bit_and-bitwise}
use open_rtdds.Prelude.{
  length-append, int64_max, dec_lt, get_or-replicate, bit_and, ◌+◌, zero, suc, ◌*◌, ◌/◌, get_or,
  ℕ_discrete, replicate, subst, ℕ, ◌-◌, ◌%◌, ◌^◌, ◌≤◌, ◌<◌, ◌≡◌, refl, ◌∙◌, arith, true, false,
  List, [], ◌∷◌, ◌++◌, length, bit_and, BytePointer,
}
use open_rtdds.Rtps.Types.{ByteOrder}
use open_rtdds.Rtps.SequenceSet.{SequenceNumberSet, empty_set, reset, word, word_count, test_bit}
use open_rtdds.Rtps.SequenceSet.Laws.{IsValid}
use open_rtdds.Rtps.Codec.BitmapTrip.{read_words-Adds, within}
use open_rtdds.Rtps.Messages.{AckNack}
use open_rtdds.Rtps.Wire.{supported_version, entity_bytes, read_uint32, write_uint32}
use open_rtdds.Rtps.Wire.Holds.{Holds, Holds-append, uint16_bytes, uint32_bytes}
use open_rtdds.Rtps.Wire.Begins.{Begins, Begins-write_uint32, Begins-at, Begins-end, Begins-assoc}
use open_rtdds.Rtps.Router.{submessage_id_acknack}
use open_rtdds.Rtps.Codec.{write_words, write_acknack}
use open_rtdds.Rtps.Codec.Parsing.{read_words}
use open_rtdds.Rtps.Codec.Written.{
  flags_of, Begins-write_submessage_header, sequence_bytes, Begins-write_sequence_number,
  Begins-entities,
}

-- The bytes of the words from an index on.
abbrev pub words_bytes : ℕ → ℕ → SequenceNumberSet → ByteOrder → List ℕ
words_bytes zero index s order = []
words_bytes (suc rounds) index s order =
    uint32_bytes (word s index) order ++ words_bytes rounds (suc index) s order

pub Begins-write_words :
    (n : ℕ) (b : BytePointer) (rounds index : ℕ) (ps : List ℕ) (s : SequenceNumberSet)
    (order : ByteOrder)
    → Begins n b (44 + 4 * index) ps
    → 44 + 4 * (index + rounds) ≤ n
    → Begins n
        (write_words rounds index s order b)
        (44 + 4 * (index + rounds))
        (ps ++ words_bytes rounds index s order)
unfolding write_words
Begins-write_words n b zero index ps s order v room =
    Begins-at (44 + 4 * (index + 0)) (omega arith) (Begins-end ps v)
Begins-write_words n b (suc rounds) index ps s order v room =
    let bytes = uint32_bytes (word s index) order in
    let one = Begins-write_uint32 n b (44 + 4 * index) ps (word s index) order v (omega arith) in
    let rest =
      Begins-write_words n (write_uint32 b (44 + 4 * index) (word s index) order) rounds (suc index)
        (ps ++ bytes) s order (Begins-at (44 + 4 * suc index) (omega arith) one) (omega arith) in
    Begins-at (44 + 4 * (index + suc rounds)) (omega arith)
      (Begins-assoc ps bytes (words_bytes rounds (suc index) s order) rest)

pub Holds-word :
    (m : BytePointer) (rounds index i : ℕ) (s : SequenceNumberSet) (order : ByteOrder)
    → Holds m (44 + 4 * index) (words_bytes rounds index s order)
    → index ≤ i
    → i < index + rounds
    → Holds m (44 + 4 * i) (uint32_bytes (word s i) order)
Holds-word m zero index i s order h le lt = absurd (omega arith)
Holds-word m (suc rounds) index i s order h le lt =
    let parts =
      Holds-append m (44 + 4 * index) (uint32_bytes (word s index) order)
        (words_bytes rounds (suc index) s order) h in
    elim (ℕ_discrete index i) [
      | yes e ↦ subst (λ k. Holds m (44 + 4 * k) (uint32_bytes (word s k) order)) e parts.0
      | no ne ↦
          Holds-word m rounds (suc index) i s order
            (subst (λ k. Holds m k (words_bytes rounds (suc index) s order))
              {x = 44 + 4 * index + 4} {y = 44 + 4 * suc index} (omega arith) parts.1)
            (omega arith) (omega arith)
    ]

-- What a config must be for its ACKNACK to be built and read: its reader state is one that `reset`
-- makes, in words of 32 bits.
pub record Readable (config : AckNack) : Type 0 where
  pub prefix_size : length config.header.guid_prefix ≡ 12
  pub count_small : config.count < 2 ^ 32
  pub supported : supported_version config.header.version ≡ true
  pub accepted :
      (reset empty_set config.reader_state.bitmap_base config.reader_state.num_bits).0 ≡ true
  pub valid : IsValid config.reader_state
  pub small : (i : ℕ) → get_or config.reader_state.bitmap i 0 < 2 ^ 32

abbrev pub acknack_bytes : List ℕ → AckNack → ByteOrder → ℕ → List ℕ
acknack_bytes ps config order words =
    (((((((((ps ++ submessage_id_acknack ∷ []) ++ flags_of order config.final_flag false ∷ [])
                  ++ uint16_bytes ((24 + words * 4) % 2 ^ 16) order)
                ++ entity_bytes config.reader_id)
              ++ entity_bytes config.writer_id)
            ++ sequence_bytes config.reader_state.bitmap_base order)
          ++ uint32_bytes config.reader_state.num_bits order)
        ++ words_bytes words 0 config.reader_state order)
      ++ uint32_bytes config.count order)

pub Begins-write_acknack :
    (n : ℕ) (b : BytePointer) (ps : List ℕ) (config : AckNack) (order : ByteOrder)
    → Begins n b 20 ps
    → 48 + 4 * word_count config.reader_state ≤ n
    → Begins n
        (write_acknack b config order)
        (44 + 4 * word_count config.reader_state + 4)
        (acknack_bytes ps config order (word_count config.reader_state))
unfolding write_acknack
Begins-write_acknack n b ps config order v room =
    let s = config.reader_state in
    let words = word_count s in
    let h =
      Begins-write_submessage_header n b ps submessage_id_acknack config.final_flag false
        (24 + words * 4) order v (omega arith) in
    let e = Begins-entities n _ 24 _ config.reader_id config.writer_id h (omega arith) in
    let f = Begins-write_sequence_number n _ 32 _ s.bitmap_base order e (omega arith) in
    let c = Begins-write_uint32 n _ 40 _ s.num_bits order f (omega arith) in
    let w = Begins-write_words n _ words 0 _ s order c (omega arith) in
    Begins-write_uint32 n _ (44 + 4 * words) _ config.count order
      (Begins-at (44 + 4 * words) (omega arith) w) (omega arith)

bit_and-zero_left : (b : ℕ) → bit_and 0 b ≡ 0
bit_and-zero_left b = omega (arith, bit_and-bitwise 0 b)

pub fresh_test :
    (base num j : ℕ)
    → test_bit (record { bitmap_base = base; num_bits = num; bitmap = replicate 8 0 }) j ≡ false
unfolding test_bit
fresh_test base num j =
    ground (arith, get_or-replicate {A = ℕ} 8 (j / 32) 0, bit_and-zero_left (2 ^ (31 - j % 32)))

-- `reset` gives an empty set of the size.
pub reset_lem :
    (base num : ℕ)
    → (reset empty_set base num).0 ≡ true
    → (reset empty_set base num
        ≡ (true, record { bitmap_base = base; num_bits = num; bitmap = replicate 8 0 }))
      × (0 < base)
      × (base ≤ int64_max)
      × (num ≤ 256)
unfolding reset
reset_lem base num h = ground (arith, h)

-- The bits of the parsed state are those of the state that was written.
pub read_words_lem :
    (content : BytePointer) (order : ByteOrder) (s : SequenceNumberSet)
    → IsValid s
    → ((i : ℕ) → i < word_count s → read_uint32 content (20 + 4 * i) order ≡ word s i)
    → (j : ℕ)
    → test_bit
        (read_words
          (word_count s)
          0
          content
          order
          (record { bitmap_base = s.bitmap_base; num_bits = s.num_bits; bitmap = replicate 8 0 }))
        j
      ≡ test_bit s j
unfolding test_bit word
read_words_lem content order s v words j =
    let fresh : SequenceNumberSet = record {
      bitmap_base = s.bitmap_base;
      num_bits = s.num_bits;
      bitmap = replicate 8 0;
    } in
    let a =
      read_words-Adds (word_count s) 0 content order fresh
        (record { bits_le = v.bits_le; words = refl }) in
    elim (dec_lt j s.num_bits) [
      | no out ↦ ground (arith, a.size_eq, out)
      | yes within ↦
          let w = words (j / 32) (omega (arith, v.bits_le)) in
          a.test_eq j within
          ∙ ground (arith, fresh_test s.bitmap_base s.num_bits j, w, within, v.bits_le)
    ]

pub length-words_bytes :
    (rounds index : ℕ) (s : SequenceNumberSet) (order : ByteOrder)
    → length (words_bytes rounds index s order) ≡ 4 * rounds
length-words_bytes zero index s order = refl
length-words_bytes (suc rounds) index s order = omega (
  arith,
  length-append (uint32_bytes (word s index) order) (words_bytes rounds (suc index) s order),
  length-words_bytes rounds (suc index) s order,
)
