-- ===== src/Serialization/RoundTrip.antt =====
-- A whole payload: a list of items that a CdrWriter writes, and a CdrReader reads again.
mod Tests
use open_rtdds.Prelude.{
  ℕ, zero, suc, ◌+◌, ◌≤◌, ◌<◌, ◌^◌, ◌≡◌, refl, sym, ap, ap₂, subst, ◌∙◌, Bool, true, false, List,
  [], ◌∷◌, ◌++◌, Option, All, arith, BytePointer, if◌then◌else◌, length, take, replicate, blit,
  length-replicate, set, length-set, length-append, ◌!=◌, ◌⊎◌, Bool-cases, inl, inr, ◌||◌, ◌&&◌,
  ltb, ◌==◌,
}
use open_rtdds.Core.History.{is_null}
use open_rtdds.Rtps.Types.{ByteOrder, big_endian, little_endian}
use open_rtdds.Serialization.Cdr.{copy_to, byte_at, put_byte, CdrError}
use open_rtdds.Serialization.Integral.{
  Sized, put_byte-Sized, byte_at-put_byte_self, byte_at-put_byte_ne,
}
use open_rtdds.Serialization.Writer
use open_rtdds.Serialization.Writer.{
  CdrWriter, begin, write_bool, write_uint8, write_uint16, write_uint32, write_uint64, write_bytes,
  write_string,
}
use open_rtdds.Serialization.Reader
use open_rtdds.Serialization.Reader.{
  CdrReader, read_bool, read_uint8, read_uint16, read_uint32, read_uint64, read_bytes, read_string,
}
use open_rtdds.Serialization.Written.{Agree, Ready, Written, reader_at}
use open_rtdds.Serialization.Integers.{write_integral-Written, narrowed-Written, write_bool-Written}
use open_rtdds.Serialization.Bytes.{write_bytes-Written, received_bytes}
use open_rtdds.Serialization.Strings.{write_string-Written, with_nul}
use open_rtdds.Serialization.Items.{
  Item, Value, Fits, write_item, write_all, read_all, values_of, write_all-Written,
}

abbrev pub begun : ByteOrder → BytePointer → BytePointer
begun order b = put_byte (put_byte (put_byte (put_byte b 0 0) 1 (Writer.order_byte order)) 2 0) 3 0

-- After `begin` a writer is ready, and a reader over what it wrote begins at the same place.
pub begin-Ready :
    (buffer : BytePointer) (capacity : ℕ) (order : ByteOrder)
    → Sized capacity buffer
    → capacity < 2 ^ 64
    → (begin (Writer.init buffer capacity) order).0 ≡ true
    → Ready (begin (Writer.init buffer capacity) order).1
unfolding begin Writer.init
begin-Ready Option.none capacity order sized small ok = absurd (ground (arith, sized, ok))
begin-Ready (Option.some xs) capacity order sized small ok = elim (Bool-cases (ltb capacity 4)) [
  | inl short ↦ absurd (ground (arith, ok, short))
  | inr enough ↦ rw enough (record {
    small = small;
    sized = begun-Sized capacity order xs sized;
    offset_le = ground (arith, enough);
    good = refl;
    initialized = refl;
  })
]
  where
    begun-Sized :
        (capacity : ℕ) (order : ByteOrder) (xs : List ℕ)
        → length xs ≡ capacity
        → Sized capacity (begun order (Option.some xs))
    begun-Sized capacity order xs h =
        length-set (set (set (set xs 0 0) 1 (Writer.order_byte order)) 2 0) 3 0
        ∙ length-set (set (set xs 0 0) 1 (Writer.order_byte order)) 2 0
        ∙ length-set (set xs 0 0) 1 (Writer.order_byte order)
        ∙ length-set xs 0 0
        ∙ h

pub begun_bytes :
    (order : ByteOrder) (xs : List ℕ)
    → 4 ≤ length xs
    → (byte_at (begun order (Option.some xs)) 0 ≡ 0)
      × (byte_at (begun order (Option.some xs)) 1 ≡ Writer.order_byte order)
begun_bytes order [] h = absurd (omega arith)
begun_bytes order (a ∷ []) h = absurd (omega arith)
begun_bytes order (a ∷ b ∷ xs) h = (refl, refl)

abbrev begun_reader : ByteOrder → BytePointer → ℕ → CdrReader
begun_reader order memory size = record {
  buffer = memory;
  size = size;
  offset = 4;
  origin = 4;
  byte_order = order;
  error = CdrError.none;
  initialized = true;
}

reader_begins :
    (order : ByteOrder) (memory : BytePointer) (size : ℕ)
    → byte_at memory 0 ≡ 0
    → byte_at memory 1 ≡ Writer.order_byte order
    → 4 ≤ size
    → is_null memory ≡ false
    → Reader.begin (Reader.init memory size) ≡ (true, begun_reader order memory size)
unfolding Reader.begin Reader.init
reader_begins big_endian memory size first second le there = ground arith
reader_begins little_endian memory size first second le there = ground arith

pub begin_reads :
    (xs : List ℕ) (capacity : ℕ) (order : ByteOrder) (memory : BytePointer) (size : ℕ)
    → length xs ≡ capacity
    → (begin (Writer.init (Option.some xs) capacity) order).0 ≡ true
    → Agree 4 (begin (Writer.init (Option.some xs) capacity) order).1.buffer memory
    → 4 ≤ size
    → is_null memory ≡ false
    → Reader.begin (Reader.init memory size)
      ≡ (true, reader_at (begin (Writer.init (Option.some xs) capacity) order).1 memory size)
unfolding begin Writer.init
begin_reads xs capacity order memory size sized ok agree le there =
    go (Bool-cases (ltb capacity 4)) agree
  where
    go :
        (ltb capacity 4 ≡ true) ⊎ (ltb capacity 4 ≡ false)
        → Agree 4 (begin (Writer.init (Option.some xs) capacity) order).1.buffer memory
        → Reader.begin (Reader.init memory size)
          ≡ (true, reader_at (begin (Writer.init (Option.some xs) capacity) order).1 memory size)
    go (inl short) agree = absurd (ground (arith, ok, short))
    go (inr enough) agree =
        let (first, second) = begun_bytes order xs (ground (arith, enough)) in
        let same = rw enough at agree in
        rw enough (
          reader_begins order memory size (sym (same 0 (omega arith)) ∙ first)
            (sym (same 1 (omega arith)) ∙ second) le there)

pub begun_offset :
    (buffer : BytePointer) (capacity : ℕ) (order : ByteOrder)
    → (begin (Writer.init buffer capacity) order).0 ≡ true
    → (begin (Writer.init buffer capacity) order).1.offset ≡ 4
unfolding begin Writer.init
begun_offset buffer capacity order ok = ground (arith, ok)

pub not_null : (w : CdrWriter) → Ready w → 4 ≤ w.offset → is_null w.buffer ≡ false
not_null w v le = go w.buffer v.sized
  where
    go : (b : BytePointer) → Sized w.capacity b → is_null b ≡ false
    go Option.none e = absurd (omega (arith, v.offset_le))
    go (Option.some xs) e = refl

-- A payload that is begun and written without an error is read again: over the bytes that were
-- written, the reader begins, the operations of the same kinds give the items that were written, in
-- either byte order and with whatever padding lies between them, and the reader ends where the
-- writer ended.
pub read_all-write_all :
    (memory : List ℕ) (order : ByteOrder) (items : List Item)
    → length memory < 2 ^ 64
    → All Fits items
    → let (begun, w) = begin (Writer.init (Option.some memory) (length memory)) order in
      begun ≡ true
      → (write_all items w).0 ≡ true
      → let w1 = (write_all items w).1 in
        let (ok, r) = Reader.begin (Reader.init w1.buffer w1.offset) in
        (ok ≡ true)
        × ((read_all items r).0 ≡ Option.some (values_of items))
        × ((read_all items r).1.offset ≡ w1.offset)
read_all-write_all memory order items small fits ok written =
    let w0 : CdrWriter = (begin (Writer.init (Option.some memory) (length memory)) order).1 in
    let at = begun_offset (Option.some memory) (length memory) order ok in
    let h =
      write_all-Written items (begin-Ready (Option.some memory) (length memory) order refl small ok)
        fits written in
    let w1 : CdrWriter = (write_all items w0).1 in
    let begins =
      begin_reads memory (length memory) order w1.buffer w1.offset refl ok
        (λ i lt. h.keeps i (omega (arith, at))) (omega (arith, at, h.advances))
        (not_null w1 h.ready (omega (arith, at, h.advances))) in
    let reads =
      h.reads w1.buffer w1.offset (λ i lt. refl) (omega arith)
        (omega (arith, h.ready.offset_le, h.ready.small)) in
    (
      ap (λ p. p.0) begins,
      ap (λ p. (read_all items p.1).0) begins ∙ ap (λ p. p.0) reads,
      ap (λ p. (read_all items p.1).1.offset) begins ∙ ap (λ p. p.1.offset) reads,
    )

-- The first two bytes of a payload that is begun.
pub begin_bytes :
    (xs : List ℕ) (capacity : ℕ) (order : ByteOrder)
    → length xs ≡ capacity
    → (begin (Writer.init (Option.some xs) capacity) order).0 ≡ true
    → (byte_at (begin (Writer.init (Option.some xs) capacity) order).1.buffer 0 ≡ 0)
      × (byte_at (begin (Writer.init (Option.some xs) capacity) order).1.buffer 1
          ≡ Writer.order_byte order)
unfolding begin Writer.init
begin_bytes xs capacity order sized ok = elim (Bool-cases (ltb capacity 4)) [
  | inl short ↦ absurd (ground (arith, ok, short))
  | inr enough ↦ rw enough (begun_bytes order xs (ground (arith, enough)))
]
