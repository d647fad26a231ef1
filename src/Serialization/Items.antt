-- ===== src/Serialization/Items.antt =====
-- Items of a payload, one after the other: what a CdrWriter writes, a CdrReader at its place reads.
use open_rtdds.Prelude.{
  ℕ, suc, ◌+◌, ◌<◌, ◌^◌, ◌≡◌, refl, sym, ap, ◌∙◌, Bool, true, false, List, [], ◌∷◌, ◌++◌, Option,
  All, arith, BytePointer, if◌then◌else◌, length, take, replicate, blit, length-replicate,
  length-append, ◌!=◌, Bool-cases, inl, inr,
}
use open_rtdds.Serialization.Cdr.{copy_to}
use open_rtdds.Serialization.Writer.{
  CdrWriter, write_bool, write_uint8, write_uint16, write_uint32, write_uint64, write_bytes,
  write_string,
}
use open_rtdds.Serialization.Reader.{
  CdrReader, read_bool, read_uint8, read_uint16, read_uint32, read_uint64, read_bytes, read_string,
}
use open_rtdds.Serialization.Written.{Ready, Written, reader_at}
use open_rtdds.Serialization.Integers.{write_integral-Written, narrowed-Written, write_bool-Written}
use open_rtdds.Serialization.Bytes.{write_bytes-Written, received_bytes}
use open_rtdds.Serialization.Strings.{write_string-Written, with_nul}

-- The last number of a string is its bound.
pub data Item : Type 0 where
  boolean : Bool → Item
  uint8 uint16 uint32 uint64 : ℕ → Item
  bytes : List ℕ → Item
  string : List ℕ → ℕ → Item

-- What is read: a number, a Boolean, or the memory behind the destination.
pub data Value : Type 0 where
  number : ℕ → Value
  truth : Bool → Value
  content : BytePointer → Value

abbrev pub Fits : Item → Type 0
Fits (boolean b) = Unit {0}
Fits (uint8 n) = n < 2 ^ 8
Fits (uint16 n) = n < 2 ^ 16
Fits (uint32 n) = n < 2 ^ 32
Fits (uint64 n) = n < 2 ^ 64
Fits (bytes xs) = Unit {0}
Fits (string xs max) = Unit {0}

abbrev pub write_item : Item → CdrWriter → Bool × CdrWriter
write_item (boolean b) w = write_bool w b
write_item (uint8 n) w = write_uint8 w n
write_item (uint16 n) w = write_uint16 w n
write_item (uint32 n) w = write_uint32 w n
write_item (uint64 n) w = write_uint64 w n
write_item (bytes xs) w = write_bytes w (Option.some xs) (length xs)
write_item (string xs max) w = write_string w (Option.some xs) (length xs) max

abbrev pub mapped : {A : Type 0} → (A → Value) → Option A × CdrReader → Option Value × CdrReader
mapped f (Option.none, r) = (Option.none, r)
mapped f (Option.some a, r) = (Option.some (f a), r)

-- The operation that reads an item of the same kind, into a destination that just holds it.
abbrev pub read_item : Item → CdrReader → Option Value × CdrReader
read_item (boolean b) r = mapped truth (read_bool r)
read_item (uint8 n) r = mapped number (read_uint8 r)
read_item (uint16 n) r = mapped number (read_uint16 r)
read_item (uint32 n) r = mapped number (read_uint32 r)
read_item (uint64 n) r = mapped number (read_uint64 r)
read_item (bytes xs) r =
    mapped content (read_bytes r (Option.some (replicate (length xs) 0)) (length xs))
read_item (string xs max) r =
    mapped (λ v. content v.0)
      (read_string r (Option.some (replicate (length xs + 1) 0)) (length xs + 1) max)

abbrev pub value_of : Item → Value
value_of (boolean b) = truth b
value_of (uint8 n) = number n
value_of (uint16 n) = number n
value_of (uint32 n) = number n
value_of (uint64 n) = number n
value_of (bytes xs) = content (Option.some xs)
value_of (string xs max) = content (Option.some (xs ++ 0 ∷ []))

blit_all : (ds xs : List ℕ) → length ds ≡ length xs → blit ds 0 xs ≡ xs
blit_all [] [] e = refl
blit_all [] (x ∷ xs) e = absurd (omega arith)
blit_all (d ∷ ds) [] e = absurd (omega arith)
blit_all (d ∷ ds) (x ∷ xs) e = ap (◌∷◌ x) (blit_all ds xs (omega arith))

take-length : (xs : List ℕ) → take (length xs) xs ≡ xs
take-length [] = refl
take-length (x ∷ xs) = ap (◌∷◌ x) (take-length xs)

received_all :
    (xs : List ℕ)
    → content (received_bytes (Option.some (replicate (length xs) 0)) xs (length xs))
      ≡ content (Option.some xs)
received_all [] = refl
received_all (x ∷ xs) =
    let nonzero : (suc (length xs) != 0) ≡ true = ground arith in
    rw nonzero (
      ap (λ ys. content (Option.some ys))
        (blit_all (replicate (length (x ∷ xs)) 0) (take (length (x ∷ xs)) (x ∷ xs))
            (length-replicate (length (x ∷ xs)) 0 ∙ sym (ap length (take-length (x ∷ xs))))
          ∙ take-length (x ∷ xs)))

received_string :
    (xs : List ℕ)
    → content (copy_to (Option.some (replicate (length xs + 1) 0)) 0 (with_nul xs (length xs)))
      ≡ content (Option.some (xs ++ 0 ∷ []))
received_string xs =
    ap (λ ys. content (Option.some (blit (replicate (length xs + 1) 0) 0 (ys ++ 0 ∷ []))))
      (take-length xs)
    ∙ ap (λ ys. content (Option.some ys))
        (blit_all (replicate (length xs + 1) 0) (xs ++ 0 ∷ [])
          (length-replicate (length xs + 1) 0 ∙ sym (length-append xs (0 ∷ []))))

mapped-Written :
    {A : Type 0} {w w1 : CdrWriter} {read : CdrReader → Option A × CdrReader} {a : A}
    (f : A → Value) {v : Value}
    → f a ≡ v
    → Written w w1 read (Option.some a)
    → Written w w1 (λ r. mapped f (read r)) (Option.some v)
mapped-Written {A} {w} {w1} {read} {a} f e h = record {
  advances = h.advances;
  keeps = h.keeps;
  ready = h.ready;
  reads = λ memory size agree le bound.
      ap (mapped f) (h.reads memory size agree le bound)
      ∙ ap (λ v. (Option.some v, reader_at w1 memory size)) e;
}

-- Each item on its own.
write_item-Written :
    {w : CdrWriter} (x : Item)
    → Ready w
    → Fits x
    → (write_item x w).0 ≡ true
    → Written w (write_item x w).1 (read_item x) (Option.some (value_of x))
write_item-Written (boolean b) v fits ok = mapped-Written truth refl (write_bool-Written b v ok)
write_item-Written (uint8 n) v fits ok =
    mapped-Written number refl
      (narrowed-Written 8 fits (write_integral-Written n 1 1 v (omega arith) fits ok))
write_item-Written (uint16 n) v fits ok =
    mapped-Written number refl
      (narrowed-Written 16 fits (write_integral-Written n 2 2 v (omega arith) fits ok))
write_item-Written (uint32 n) v fits ok =
    mapped-Written number refl
      (narrowed-Written 32 fits (write_integral-Written n 4 4 v (omega arith) fits ok))
write_item-Written (uint64 n) v fits ok =
    mapped-Written number refl (write_integral-Written n 8 8 v fits fits ok)
write_item-Written (bytes xs) v fits ok =
    mapped-Written content (received_all xs)
      (write_bytes-Written xs (length xs) (replicate (length xs) 0) v (omega arith) ok)
write_item-Written (string xs max) v fits ok =
    mapped-Written (λ v. content v.0) (received_string xs)
      (write_string-Written xs (length xs) max (replicate (length xs + 1) 0) (length xs + 1) v
        (omega arith) (omega arith) ok)

abbrev pub write_all : List Item → CdrWriter → Bool × CdrWriter
write_all [] w = (true, w)
write_all (x ∷ xs) w =
    let (ok, w1) = write_item x w in let rest = write_all xs w1 in if ok then rest else (false, w1)

abbrev pub prepend : Value → Option (List Value) × CdrReader → Option (List Value) × CdrReader
prepend v (Option.none, r) = (Option.none, r)
prepend v (Option.some vs, r) = (Option.some (v ∷ vs), r)

abbrev pub values_of : List Item → List Value
values_of [] = []
values_of (x ∷ xs) = value_of x ∷ values_of xs

abbrev pub and_then :
    Option Value × CdrReader → Option (List Value) × CdrReader → Option (List Value) × CdrReader
and_then (Option.none, r) rest = (Option.none, r)
and_then (Option.some v, r) rest = prepend v rest

abbrev pub read_all : List Item → CdrReader → Option (List Value) × CdrReader
read_all [] r = (Option.some [], r)
read_all (x ∷ xs) r = let rest = read_all xs (read_item x r).1 in and_then (read_item x r) rest

pub write_all-Written :
    (xs : List Item) {w : CdrWriter}
    → Ready w
    → All Fits xs
    → (write_all xs w).0 ≡ true
    → Written w (write_all xs w).1 (read_all xs) (Option.some (values_of xs))
write_all-Written [] {w} v fits ok = record {
  advances = omega arith;
  keeps = λ i lt. refl;
  ready = v;
  reads = λ memory size agree le bound. refl;
}
write_all-Written (x ∷ xs) {w} v fits ok = elim (Bool-cases (write_item x w).0) [
  | inr bad ↦ absurd (ground (arith, ok, bad))
  | inl good ↦
      let first = write_item-Written x v fits.0 good in
      let rest = write_all-Written xs first.ready fits.1 (ground (arith, ok, good)) in
      rw good (record {
        advances = omega (arith, first.advances, rest.advances);
        keeps = λ i lt. first.keeps i lt ∙ rest.keeps i (omega (arith, first.advances));
        ready = rest.ready;
        reads = λ memory size agree le bound.
            ap (λ p. and_then p (read_all xs p.1))
              (first.reads memory size
                (λ i lt. rest.keeps i lt ∙ agree i (omega (arith, rest.advances)))
                (omega (arith, rest.advances)) bound)
            ∙ ap (prepend (value_of x)) (rest.reads memory size agree le bound);
      })
]
