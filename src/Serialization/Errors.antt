-- ===== src/Serialization/Errors.antt =====
-- Failures of the CDR writer: the first error stays, and neither the bytes nor the place change.
use open_rtdds.Prelude.{
  Bool, ℕ, ◌-◌, ◌^◌, add64, size_max, ◌≡◌, refl, ap, sym, ◌∙◌, false, Option, arith, BytePointer,
  ◌||◌, ◌&&◌, ltb, leb, Bool-cases, inl, inr, ◌!=◌,
}
use open_rtdds.Core.History.{is_null}
use open_rtdds.Serialization.Cdr.{CdrError, is_good, aligned_position}
use open_rtdds.Serialization.Writer
use open_rtdds.Serialization.Writer.{
  CdrWriter, reserve, reserve_at, write_integral, write_bytes, write_string,
}

-- What a failed write leaves.
abbrev pub Kept : CdrWriter → CdrWriter → Type 0
Kept w w' =
    (w'.buffer ≡ w.buffer)
    × (w'.offset ≡ w.offset)
    × (is_good w'.error ≡ false)
    × (is_good w.error ≡ false → w' ≡ w)

fail-Kept : (w : CdrWriter) (e : CdrError) → is_good e ≡ false → Kept w (Writer.fail w e)
fail-Kept w e bad_e = elim (Bool-cases (is_good w.error)) [
  | inl good ↦ simp good (refl, refl, bad_e, λ b. cc)
  | inr bad ↦ simp bad (refl, refl, refl, λ b. refl)
]

reserve_at_failed :
    (w : CdrWriter) (width : ℕ) (o : Option ℕ)
    → (reserve_at w width o).0 ≡ Option.none
    → Kept w (reserve_at w width o).1
reserve_at_failed w width Option.none e = fail-Kept w CdrError.overflow refl
reserve_at_failed w width (Option.some start) e =
    elim (Bool-cases (ltb w.capacity start || ltb (w.capacity - start) width)) [
      | inl out ↦ rw out (fail-Kept w CdrError.overflow refl)
      | inr fits ↦ absurd (ground (arith, e, fits))
    ]

reserve_failed :
    (w : CdrWriter) (alignment width : ℕ)
    → (reserve w alignment width).0 ≡ Option.none
    → Kept w (reserve w alignment width).1
unfolding reserve
reserve_failed w alignment width e = elim (Bool-cases (is_good w.error)) [
  | inr bad ↦
      let same : reserve w alignment width ≡ (Option.none, w) = ground (arith, bad) in
      rw same (refl, refl, bad, λ b. refl)
  | inl good ↦ elim (Bool-cases w.initialized) [
    | inr uninitialized ↦
        let same : reserve w alignment width
            ≡ (Option.none, Writer.fail w CdrError.not_initialized) =
          ground (arith, good, uninitialized) in
        rw same (fail-Kept w CdrError.not_initialized refl)
    | inl ready ↦
        let same : reserve w alignment width
            ≡ reserve_at w width (aligned_position w.offset w.origin alignment) =
          ground (arith, good, ready) in
        rw same (
          reserve_at_failed w width (aligned_position w.offset w.origin alignment)
            (ap (λ p. p.0) (sym same) ∙ e))
  ]
]

-- Each operation goes on from its reservation, or leaves what the reservation leaves.
integral_failed :
    (w : CdrWriter) (value width : ℕ) (p : Option ℕ × CdrWriter)
    → (p.0 ≡ Option.none → Kept w p.1)
    → (Writer.finish_integral value width p).0 ≡ false
    → Kept w (Writer.finish_integral value width p).1
integral_failed w value width (Option.none, w1) h e = h refl
integral_failed w value width (Option.some s, w1) h e = cc

bytes_failed :
    (w : CdrWriter) (source : BytePointer) (size : ℕ) (p : Option ℕ × CdrWriter)
    → (p.0 ≡ Option.none → Kept w p.1)
    → (Writer.finish_bytes source size p).0 ≡ false
    → Kept w (Writer.finish_bytes source size p).1
bytes_failed w source size (Option.none, w1) h e = h refl
bytes_failed w source size (Option.some s, w1) h e = cc

string_failed :
    (w : CdrWriter) (source : BytePointer) (size : ℕ) (p : Option ℕ × CdrWriter)
    → (p.0 ≡ Option.none → Kept w p.1)
    → (Writer.finish_string source size p).0 ≡ false
    → Kept w (Writer.finish_string source size p).1
string_failed w source size (Option.none, w1) h e = h refl
string_failed w source size (Option.some s, w1) h e = cc

write_bytes-Kept :
    (w : CdrWriter) (source : BytePointer) (size : ℕ)
    → (write_bytes w source size).0 ≡ false
    → Kept w (write_bytes w source size).1
unfolding write_bytes
write_bytes-Kept w source size f = elim (Bool-cases (is_null source && size != 0)) [
  | inl null ↦ rw null (fail-Kept w CdrError.invalid_argument refl)
  | inr there ↦ rw there (
      bytes_failed w source size (reserve w 1 size) (reserve_failed w 1 size)
        (ground (arith, f, there)))
]

write_string-Kept :
    (w : CdrWriter) (value : BytePointer) (n max : ℕ)
    → (write_string w value n max).0 ≡ false
    → Kept w (write_string w value n max).1
unfolding write_string
write_string-Kept w value n max f = elim (Bool-cases (is_null value && n != 0)) [
  | inl null ↦ rw null (fail-Kept w CdrError.invalid_argument refl)
  | inr there ↦ elim (Bool-cases (ltb max n)) [
    | inl long ↦ rw (there, long) (fail-Kept w CdrError.bound_exceeded refl)
    | inr bounded ↦ elim (Bool-cases (leb (2 ^ 32 - 1) n)) [
      | inl huge ↦ rw (there, bounded, huge) (fail-Kept w CdrError.bound_exceeded refl)
      | inr small ↦ elim (Bool-cases (ltb (size_max - 4) (add64 n 1))) [
        | inl wraps ↦ rw (there, bounded, small, wraps) (fail-Kept w CdrError.bound_exceeded refl)
        | inr fits ↦
            rw (there, bounded, small, fits)
              (string_failed w value n (reserve w 4 (add64 4 (add64 n 1)))
                (reserve_failed w 4 (add64 4 (add64 n 1)))
                (ground (arith, f, there, bounded, small, fits)))
      ]
    ]
  ]
]

-- The operations of a writer with an error.
reserve_bad :
    (w : CdrWriter) (alignment width : ℕ)
    → is_good w.error ≡ false
    → reserve w alignment width ≡ (Option.none, w)
unfolding reserve
reserve_bad w alignment width bad = ground (arith, bad)

fail_bad : (w : CdrWriter) (e : CdrError) → is_good w.error ≡ false → Writer.fail w e ≡ w
fail_bad w e bad = simp bad refl

write_bytes_bad :
    (w : CdrWriter) (source : BytePointer) (size : ℕ)
    → is_good w.error ≡ false
    → write_bytes w source size ≡ (false, w)
unfolding write_bytes
write_bytes_bad w source size bad = elim (Bool-cases (is_null source && size != 0)) [
  | inl null ↦ rw null (ap (λ x. (false, x)) (fail_bad w CdrError.invalid_argument bad))
  | inr there ↦ rw there (ap (Writer.finish_bytes source size) (reserve_bad w 1 size bad))
]

write_string_bad :
    (w : CdrWriter) (value : BytePointer) (n max : ℕ)
    → is_good w.error ≡ false
    → write_string w value n max ≡ (false, w)
unfolding write_string
write_string_bad w value n max bad =
    let bound = ap (λ x. (false, x)) (fail_bad w CdrError.bound_exceeded bad) in
    elim (Bool-cases (is_null value && n != 0)) [
      | inl null ↦ rw null (ap (λ x. (false, x)) (fail_bad w CdrError.invalid_argument bad))
      | inr there ↦ elim (Bool-cases (ltb max n)) [
        | inl long ↦ rw (there, long) bound
        | inr bounded ↦ elim (Bool-cases (leb (2 ^ 32 - 1) n)) [
          | inl huge ↦ rw (there, bounded, huge) bound
          | inr small ↦ elim (Bool-cases (ltb (size_max - 4) (add64 n 1))) [
            | inl wraps ↦ rw (there, bounded, small, wraps) bound
            | inr fits ↦
                rw (there, bounded, small, fits)
                  (ap (Writer.finish_string value n) (reserve_bad w 4 (add64 4 (add64 n 1)) bad))
          ]
        ]
      ]
    ]

-- What holds of a call, by its answer and by the state of the writer before.
abbrev pub Sticky : CdrWriter → Bool × CdrWriter → Type 0
Sticky w out =
    (out.0 ≡ false
      → (out.1.buffer ≡ w.buffer) × (out.1.offset ≡ w.offset) × (is_good out.1.error ≡ false))
    × (is_good w.error ≡ false → out ≡ (false, w))

failing :
    (w : CdrWriter) (out : Bool × CdrWriter)
    → (out.0 ≡ false → Kept w out.1)
    → out.0 ≡ false
    → (out.1.buffer ≡ w.buffer) × (out.1.offset ≡ w.offset) × (is_good out.1.error ≡ false)
failing w out kept f = let (bytes, place, error, same) = kept f in (bytes, place, error)

-- A write that answers false leaves the bytes and the place as they are and records an error. A call
-- on a writer that has an error answers false and does not change the writer at all, whatever its
-- arguments are.
pub write-Kept :
    (w : CdrWriter) (value width alignment : ℕ) (source : BytePointer) (size max : ℕ)
    → Sticky w (write_integral w value width alignment)
      × Sticky w (write_bytes w source size)
      × Sticky w (write_string w source size max)
unfolding write_integral
write-Kept w value width alignment source size max = (
  (
    failing w (write_integral w value width alignment) (
        integral_failed w value width (reserve w alignment width)
          (reserve_failed w alignment width)),
    λ bad. ap (Writer.finish_integral value width) (reserve_bad w alignment width bad),
  ),
  (
    failing w (write_bytes w source size) (write_bytes-Kept w source size),
    write_bytes_bad w source size,
  ),
  (
    failing w (write_string w source size max) (write_string-Kept w source size max),
    write_string_bad w source size max,
  ),
)
