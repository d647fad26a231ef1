-- ===== src/Serialization/RoundTrip/Tests.antt =====
-- A payload of 32 bytes with items that need padding.
use open_rtdds.Prelude.{ℕ, ◌≡◌, refl, true, List, [], ◌∷◌, Option, All, arith, replicate, length}
use open_rtdds.Rtps.Types.{big_endian}
use open_rtdds.Serialization.Writer
use open_rtdds.Serialization.Writer.{CdrWriter, begin, reserve, write_integral, write_string}
use open_rtdds.Serialization.Integral.{store_integral, store_loop}
use open_rtdds.Serialization.Cdr.{aligned_position}
use open_rtdds.Serialization.Reader
use open_rtdds.Serialization.Items.{Item, Fits, write_all, read_all, values_of}
use open_rtdds.Serialization.RoundTrip.{read_all-write_all}

abbrev buffer : List ℕ
buffer = replicate 32 255

abbrev items : List Item
items = Item.uint8 7 ∷ Item.uint32 0x0102_0304 ∷ Item.string (72 ∷ 105 ∷ []) 10 ∷ Item.uint16 9 ∷ []

items-Fits : All Fits items
items-Fits = (omega arith, (omega arith, (tt, (omega arith, tt))))

abbrev writer : CdrWriter
writer = (begin (Writer.init (Option.some buffer) (length buffer)) big_endian).1

begun : (begin (Writer.init (Option.some buffer) (length buffer)) big_endian).0 ≡ true
unfolding begin Writer.init
begun = refl

written : (write_all items writer).0 ≡ true
unfolding begin Writer.init reserve write_integral write_string store_integral store_loop
    aligned_position
written = refl

-- The padding is zero, and the string has its length and its NUL.
written_bytes :
    (write_all items writer).1.buffer
    ≡ Option.some (
        0
        ∷ 0
        ∷ 0
        ∷ 0
        ∷ 7
        ∷ 0
        ∷ 0
        ∷ 0
        ∷ 1
        ∷ 2
        ∷ 3
        ∷ 4
        ∷ 0
        ∷ 0
        ∷ 0
        ∷ 3
        ∷ 72
        ∷ 105
        ∷ 0
        ∷ 0
        ∷ 0
        ∷ 9
        ∷ replicate 10 255)
unfolding begin Writer.init reserve write_integral write_string store_integral store_loop
    aligned_position
written_bytes = refl

read_all-write_all_example :
    let w = (write_all items writer).1 in
    let (ok, r) = Reader.begin (Reader.init w.buffer w.offset) in
    (ok ≡ true)
    × ((read_all items r).0 ≡ Option.some (values_of items))
    × ((read_all items r).1.offset ≡ w.offset)
read_all-write_all_example =
    read_all-write_all buffer big_endian items (omega arith) items-Fits begun written
