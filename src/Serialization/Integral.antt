-- ===== src/Serialization/Integral.antt =====
-- CdrWriter::store_integral and CdrReader::load_integral of src/serialization/cdr.cpp.
use open_rtdds.Prelude.{
  ℕ, zero, suc, ◌+◌, ◌-◌, ◌*◌, ◌/◌, ◌%◌, ◌^◌, ◌≤◌, ◌<◌, ◌≡◌, ◌≢◌, refl, sym, ap, subst, ◌∙◌, arith,
  Option, length, get_or-set_self, get_or-set_ne, length-set, bit_or, BytePointer, ℕ_discrete,
}
use open_rtdds.Prelude.Shift.{
  shift_left64, shift_right, bit_or-high_low, bit_or-low_high, byte-below, byte-above, byte-le,
  byte_place-lt,
}
use native.Mathlib.Nat.{mod-eq_of_lt, mod-lt, one-le-pow, div-eq_of_lt}
use open_rtdds.Rtps.Types.{ByteOrder, big_endian, little_endian}
use open_rtdds.Serialization.Cdr.{byte_at, put_byte}

abbrev pub shift_index : ByteOrder → ℕ → ℕ → ℕ
shift_index little_endian width index = index
shift_index big_endian width index = width - 1 - index

-- The loops count the rounds that are left; `index` is the loop variable.
unfoldable pub store_loop : ByteOrder → ℕ → ℕ → ℕ → ℕ → ℕ → BytePointer → BytePointer
store_loop order width zero index start value buffer = buffer
store_loop order width (suc rounds) index start value buffer =
    store_loop order width rounds (suc index) start value (
      put_byte buffer (start + index)
        (shift_right value (shift_index order width index * 8) % 2 ^ 8))

unfoldable pub store_integral : ByteOrder → ℕ → ℕ → ℕ → BytePointer → BytePointer
store_integral order start value width buffer = store_loop order width width 0 start value buffer

unfoldable pub load_loop : ByteOrder → ℕ → ℕ → ℕ → ℕ → BytePointer → ℕ → ℕ
load_loop order width zero index start buffer value = value
load_loop order width (suc rounds) index start buffer value =
    load_loop order width rounds (suc index) start buffer (
      bit_or value
        (shift_left64 (byte_at buffer (start + index)) (shift_index order width index * 8)))

unfoldable pub load_integral : ByteOrder → ℕ → ℕ → BytePointer → ℕ
load_integral order start width buffer = load_loop order width width 0 start buffer 0

-- Memory of a given size.
abbrev pub Sized : ℕ → BytePointer → Type 0
Sized n Option.none = n ≡ 0
Sized n (Option.some bytes) = length bytes ≡ n

pub put_byte-Sized : (n i v : ℕ) (b : BytePointer) → Sized n b → Sized n (put_byte b i v)
put_byte-Sized n i v Option.none h = h
put_byte-Sized n i v (Option.some bytes) h = length-set bytes i v ∙ h

pub byte_at-put_byte_self :
    (n i v : ℕ) (b : BytePointer) → Sized n b → i < n → byte_at (put_byte b i v) i ≡ v
byte_at-put_byte_self n i v Option.none h lt = absurd (omega arith)
byte_at-put_byte_self n i v (Option.some bytes) h lt = get_or-set_self bytes i v 0 (omega arith)

pub byte_at-put_byte_ne :
    (i j v : ℕ) (b : BytePointer) → i ≢ j → byte_at (put_byte b i v) j ≡ byte_at b j
byte_at-put_byte_ne i j v Option.none ne = refl
byte_at-put_byte_ne i j v (Option.some bytes) ne = get_or-set_ne bytes i j v 0 ne

-- The byte that is stored at an index.
abbrev pub stored_byte : ByteOrder → ℕ → ℕ → ℕ → ℕ
stored_byte order width value index = shift_right value (shift_index order width index * 8) % 2 ^ 8

-- What the loop leaves of the memory.
pub record Stored (n : ℕ) (order : ByteOrder) (width rounds index start value : ℕ)
    (b c : BytePointer) : Type 0 where
  pub sized : Sized n c
  pub below : (i : ℕ) → i < start + index → byte_at c i ≡ byte_at b i
  pub inside :
      (i : ℕ)
      → index ≤ i
      → i < index + rounds
      → byte_at c (start + i) ≡ stored_byte order width value i

pub store_loop-Stored :
    (n : ℕ) (order : ByteOrder) (width rounds index start value : ℕ) (b : BytePointer)
    → Sized n b
    → start + index + rounds ≤ n
    → Stored n order width rounds index start value b
        (store_loop order width rounds index start value b)
unfolding store_loop
store_loop-Stored n order width zero index start value b h fits = record {
  sized = h;
  below = λ i lt. refl;
  inside = λ i lo hi. absurd (omega arith);
}
store_loop-Stored n order width (suc rounds) index start value b h fits =
    let v : ℕ = stored_byte order width value index in
    let c : BytePointer = put_byte b (start + index) v in
    let s =
      store_loop-Stored n order width rounds (suc index) start value c
        (put_byte-Sized n (start + index) v b h) (omega arith) in
    record {
      sized = s.sized;
      below =
          λ i lt. s.below i (omega arith) ∙ byte_at-put_byte_ne (start + index) i v b (omega arith);
      inside = λ i lo hi. elim (ℕ_discrete index i) [
        | yes e ↦
            subst
              (λ j.
                byte_at (store_loop order width rounds (suc index) start value c) (start + j)
                ≡ stored_byte order width value j)
              e
              (s.below (start + index) (omega arith)
                ∙ byte_at-put_byte_self n (start + index) v b h (omega arith))
        | no ne ↦ s.inside i (omega arith) (omega arith)
      ];
    }

shift_left64_byte :
    (v s : ℕ)
    → v < 2 ^ 64
    → shift_left64 (shift_right v (s * 8) % 2 ^ 8) (s * 8) ≡ v / 2 ^ (s * 8) % 256 * 2 ^ (s * 8)
shift_left64_byte v s small =
    mod-eq_of_lt {n = v / 2 ^ (s * 8) % 256 * 2 ^ (s * 8)} (omega (arith, byte-le v s))

join_below :
    (v s : ℕ)
    → v < 2 ^ 64
    → bit_or (v % 2 ^ (s * 8)) (shift_left64 (shift_right v (s * 8) % 2 ^ 8) (s * 8))
      ≡ v % 2 ^ (suc s * 8)
join_below v s small =
    ap (bit_or (v % 2 ^ (s * 8))) (shift_left64_byte v s small)
    ∙ bit_or-low_high (s * 8) (v / 2 ^ (s * 8) % 256) (v % 2 ^ (s * 8))
        (mod-lt v (one-le-pow (s * 8) 2 (omega arith)))
    ∙ sym (byte-below v s)

join_above :
    (v s : ℕ)
    → v < 2 ^ 64
    → bit_or
        (v / 2 ^ (suc s * 8) * 2 ^ (suc s * 8))
        (shift_left64 (shift_right v (s * 8) % 2 ^ 8) (s * 8))
      ≡ v / 2 ^ (s * 8) * 2 ^ (s * 8)
join_above v s small =
    ap (bit_or (v / 2 ^ (suc s * 8) * 2 ^ (suc s * 8))) (shift_left64_byte v s small)
    ∙ bit_or-high_low (suc s * 8) (v / 2 ^ (suc s * 8)) (v / 2 ^ (s * 8) % 256 * 2 ^ (s * 8))
        (byte_place-lt v s)
    ∙ sym (byte-above v s)

-- Loading what was stored.
load_loop_little :
    (width value rounds index start : ℕ) (b : BytePointer)
    → value < 2 ^ 64
    → ((i : ℕ)
        → i < index + rounds
        → byte_at b (start + i) ≡ stored_byte little_endian width value i)
    → load_loop little_endian width rounds index start b (value % 2 ^ (index * 8))
      ≡ value % 2 ^ ((index + rounds) * 8)
unfolding load_loop
load_loop_little width value zero index start b small h =
    ap (λ k. value % 2 ^ (k * 8)) (omega arith)
load_loop_little width value (suc rounds) index start b small h =
    ap
      (λ byte.
        load_loop little_endian width rounds (suc index) start b
          (bit_or (value % 2 ^ (index * 8)) (shift_left64 byte (index * 8))))
      (h index (omega arith))
    ∙ ap (load_loop little_endian width rounds (suc index) start b) (join_below value index small)
    ∙ load_loop_little width value rounds (suc index) start b small (λ i lt. h i (omega arith))
    ∙ ap (λ k. value % 2 ^ (k * 8)) (omega arith)

load_loop_big :
    (width value rounds index start : ℕ) (b : BytePointer)
    → value < 2 ^ 64
    → index + rounds ≡ width
    → ((i : ℕ) → i < width → byte_at b (start + i) ≡ stored_byte big_endian width value i)
    → load_loop big_endian width rounds index start b (value / 2 ^ (rounds * 8) * 2 ^ (rounds * 8))
      ≡ value
unfolding load_loop
load_loop_big width value zero index start b small e h = omega arith
load_loop_big width value (suc rounds) index start b small e h =
    let here : width - 1 - index ≡ rounds = omega arith in
    ap
      (λ byte. load_loop big_endian width rounds (suc index) start b (
        bit_or (value / 2 ^ (suc rounds * 8) * 2 ^ (suc rounds * 8))
          (shift_left64 byte ((width - 1 - index) * 8))))
      (h index (omega arith))
    ∙ ap
        (λ s. load_loop big_endian width rounds (suc index) start b (
          bit_or (value / 2 ^ (suc rounds * 8) * 2 ^ (suc rounds * 8))
            (shift_left64 (shift_right value (s * 8) % 2 ^ 8) (s * 8))))
        here
    ∙ ap (load_loop big_endian width rounds (suc index) start b) (join_above value rounds small)
    ∙ load_loop_big width value rounds (suc index) start b small (omega arith) h

-- An integer that fits its width is loaded as it was stored, in either byte order.
pub load_integral_stored :
    (order : ByteOrder) (width value start : ℕ) (b : BytePointer)
    → value < 2 ^ 64
    → value < 2 ^ (width * 8)
    → ((i : ℕ) → i < width → byte_at b (start + i) ≡ stored_byte order width value i)
    → load_integral order start width b ≡ value
unfolding load_integral
load_integral_stored big_endian width value start b small fits h =
    ap (load_loop big_endian width width 0 start b) {x = 0}
      {y = value / 2 ^ (width * 8) * 2 ^ (width * 8)}
      (omega (arith, ap (λ n. n * 2 ^ (width * 8)) (div-eq_of_lt fits)))
    ∙ load_loop_big width value width 0 start b small (omega arith) h
load_integral_stored little_endian width value start b small fits h =
    ap (load_loop little_endian width width 0 start b) {x = 0} {y = value % 2 ^ (0 * 8)}
      (omega arith)
    ∙ load_loop_little width value width 0 start b small (λ i lt. h i (omega arith))
    ∙ ap (λ k. value % 2 ^ (k * 8)) {x = 0 + width} {y = width} (omega arith)
    ∙ mod-eq_of_lt fits
