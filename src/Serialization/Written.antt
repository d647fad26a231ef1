-- ===== src/Serialization/Written.antt =====
-- What a CdrWriter wrote, a CdrReader at the same place reads.
use open_rtdds.Prelude.{
  ℕ, zero, suc, ◌+◌, ◌-◌, ◌^◌, ◌≤◌, ◌<◌, ◌≡◌, refl, ap, ◌∙◌, true, ◌||◌, Option, arith, ltb, ◌⊎◌,
  BytePointer, Bool-cases, inl, inr,
}
use open_rtdds.Serialization.Cdr.{
  CdrError, aligned_position, aligned_position-le, byte_at, put_byte,
}
use open_rtdds.Serialization.Integral.{Sized, put_byte-Sized, byte_at-put_byte_ne}
use open_rtdds.Serialization.Writer.{CdrWriter, zero_loop, reserve_at, reserve}
use open_rtdds.Serialization.Reader.{CdrReader, locate_at, locate}

-- The first `n` bytes are the same.
abbrev pub Agree : ℕ → BytePointer → BytePointer → Type 0
Agree n b c = (i : ℕ) → i < n → byte_at b i ≡ byte_at c i

-- A writer between two operations, none of which failed.
pub record Ready (w : CdrWriter) : Type 0 where
  pub small : w.capacity < 2 ^ 64
  pub sized : Sized w.capacity w.buffer
  pub offset_le : w.offset ≤ w.capacity
  pub good : w.error ≡ CdrError.none
  pub initialized : w.initialized ≡ true

-- A reader over the first `size` bytes of a memory, at the place of a writer.
abbrev pub reader_at : CdrWriter → BytePointer → ℕ → CdrReader
reader_at w memory size = record {
  buffer = memory;
  size = size;
  offset = w.offset;
  origin = w.origin;
  byte_order = w.byte_order;
  error = CdrError.none;
  initialized = true;
}

-- From `w` to `w1` something was written that `read` reads as `value`.
pub record Written {ℓ} {A : Type ℓ} (w w1 : CdrWriter) (read : CdrReader → A × CdrReader)
    (value : A) : Type ℓ where
  pub advances : w.offset ≤ w1.offset
  pub keeps : Agree w.offset w.buffer w1.buffer
  pub ready : Ready w1
  pub reads :
      (memory : BytePointer) (size : ℕ)
      → Agree w1.offset w1.buffer memory
      → w1.offset ≤ size
      → size < 2 ^ 64
      → read (reader_at w memory size) ≡ (value, reader_at w1 memory size)

-- The padding changes nothing below it.
pub zero_loop_lem :
    (n rounds index : ℕ) (b : BytePointer)
    → Sized n b
    → Sized n (zero_loop rounds index b) × Agree index (zero_loop rounds index b) b
zero_loop_lem n zero index b h = (h, λ i lt. refl)
zero_loop_lem n (suc rounds) index b h =
    let (s, a) =
      zero_loop_lem n rounds (suc index) (put_byte b index 0) (put_byte-Sized n index 0 b h) in
    (s, λ i lt. a i (omega arith) ∙ byte_at-put_byte_ne index i 0 b (omega arith))

pub reserve-Ready :
    {w : CdrWriter} (alignment width : ℕ)
    → Ready w
    → reserve w alignment width ≡ reserve_at w width (aligned_position w.offset w.origin alignment)
unfolding reserve
reserve-Ready {w} alignment width v = simp (v.good, v.initialized) refl

-- The writer after a reservation at `start`.
abbrev pub padded : CdrWriter → ℕ → CdrWriter
padded w start = record w { buffer = zero_loop (start - w.offset) w.offset w.buffer }

-- A place that was reserved.
pub record Reserved (w : CdrWriter) (alignment width start : ℕ) : Type 0 where
  pub position : aligned_position w.offset w.origin alignment ≡ Option.some start
  pub offset_le : w.offset ≤ start
  pub fits : start + width ≤ w.capacity
  pub sized : Sized w.capacity (padded w start).buffer
  pub keeps : Agree w.offset (padded w start).buffer w.buffer

-- An operation that reserves either fails or goes on from a reserved place.
pub reserve_cases :
    {w : CdrWriter} (alignment width : ℕ)
    → Ready w
    → ((reserve w alignment width).0 ≡ Option.none)
      ⊎ ((start : ℕ) × (reserve w alignment width ≡ (Option.some start, padded w start))
          × Reserved w alignment width start)
reserve_cases {w} alignment width v =
    rw (reserve-Ready alignment width v) (go (aligned_position w.offset w.origin alignment) refl)
  where
    go :
        (o : Option ℕ)
        → aligned_position w.offset w.origin alignment ≡ o
        → ((reserve_at w width o).0 ≡ Option.none)
          ⊎ ((start : ℕ) × (reserve_at w width o ≡ (Option.some start, padded w start))
              × Reserved w alignment width start)
    go Option.none e = inl refl
    go (Option.some start) e =
        elim (Bool-cases (ltb w.capacity start || ltb (w.capacity - start) width)) [
          | inl out ↦ rw out (inl refl)
          | inr fits ↦
              let (le, lt) = aligned_position-le w.offset w.origin alignment start e in
              let (s, a) = zero_loop_lem w.capacity (start - w.offset) w.offset w.buffer v.sized in
              rw fits (
                inr (
                  start,
                  refl,
                  record {
                    position = e;
                    offset_le = le;
                    fits = ground arith;
                    sized = s;
                    keeps = a;
                  },
                ))
        ]

-- A reader at the same place locates the same bytes.
pub locate-Reserved :
    {w : CdrWriter} {alignment width start : ℕ} (memory : BytePointer) (size : ℕ)
    → Reserved w alignment width start
    → start + width ≤ size
    → size < 2 ^ 64
    → locate (reader_at w memory size) alignment width
      ≡ (Option.some (start, start + width), reader_at w memory size)
unfolding locate
locate-Reserved {w} {alignment} {width} {start} memory size q le small =
    ap (locate_at (reader_at w memory size) width) q.position ∙ ground arith
