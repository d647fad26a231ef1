-- ===== src/Serialization/Strings.antt =====
-- Bounded strings: what `write_string` writes, `read_string` reads.
use open_rtdds.Prelude.{
  ℕ, zero, suc, ◌+◌, ◌-◌, ◌≤◌, ◌<◌, ◌^◌, ◌%◌, ◌≡◌, refl, sym, ap, ap₂, subst, ◌∙◌, true, false,
  List, [], ◌∷◌, ◌++◌, Option, arith, BytePointer, inl, inr, add64, sub64, length, take, get_or,
}
use open_rtdds.Serialization.Cdr.{byte_at, copy_to, put_byte}
use open_rtdds.Serialization.Integral.{
  stored_byte, Sized, store_integral, load_integral_stored, put_byte-Sized, byte_at-put_byte_self,
  byte_at-put_byte_ne,
}
use open_rtdds.Serialization.Integers.{store_integral-Stored}
use open_rtdds.Serialization.Copies.{copied, Copied, copied-Copied, length-take_le}
use open_rtdds.Serialization.Writer
use open_rtdds.Serialization.Writer.{CdrWriter, reserve, write_string}
use open_rtdds.Serialization.Reader
use open_rtdds.Serialization.Reader.{CdrReader, read_string, string_at, bytes_from}
use open_rtdds.Serialization.Written.{
  Ready, Written, Reserved, padded, reader_at, reserve_cases, locate-Reserved,
}

finish_none :
    (value : BytePointer) (size : ℕ) (p : Option ℕ × CdrWriter)
    → p.0 ≡ Option.none
    → (Writer.finish_string value size p).0 ≡ false
finish_none value size (Option.none, w) e = refl
finish_none value size (Option.some s, w) e = cc

-- The memory that `finish_string` leaves, for the first `n` characters of `text`.
abbrev string_memory : CdrWriter → ℕ → List ℕ → ℕ → BytePointer
string_memory w start text n =
    put_byte
      (copied n (store_integral w.byte_order start (add64 n 1 % 2 ^ 32) 4 (padded w start).buffer)
        (add64 start 4) (take n text))
      (add64 (add64 start 4) n) 0

-- What that memory holds: the count with the NUL, the characters, and the NUL.
record Holds (w : CdrWriter) (start : ℕ) (text : List ℕ) (n : ℕ) (c : BytePointer) : Type 0 where
  pub sized : Sized w.capacity c
  pub below : (i : ℕ) → i < w.offset → byte_at c i ≡ byte_at w.buffer i
  pub count : (i : ℕ) → i < 4 → byte_at c (start + i) ≡ stored_byte w.byte_order 4 (n + 1) i
  pub characters : (i : ℕ) → i < n → byte_at c (start + 4 + i) ≡ get_or text i 0
  pub nul : byte_at c (start + 4 + n) ≡ 0

get_or-take : (n i : ℕ) (xs : List ℕ) → i < n → get_or (take n xs) i 0 ≡ get_or xs i 0
get_or-take zero i xs h = absurd (omega arith)
get_or-take (suc n) i [] h = refl
get_or-take (suc n) zero (x ∷ xs) h = refl
get_or-take (suc n) (suc i) (x ∷ xs) h = get_or-take n i xs (omega arith)

string_memory-Holds :
    {w : CdrWriter} {alignment start : ℕ} (text : List ℕ) (n : ℕ)
    → Ready w
    → n ≤ length text
    → n < 2 ^ 32 - 1
    → Reserved w alignment (4 + (n + 1)) start
    → Holds w start text n (string_memory w start text n)
string_memory-Holds {w} {alignment} {start} text n v le small q =
    let s = store_integral-Stored (add64 n 1 % 2 ^ 32) 4 (omega arith) q in
    let counted : BytePointer =
      store_integral w.byte_order start (add64 n 1 % 2 ^ 32) 4 (padded w start).buffer in
    let len : length (take n text) ≡ n = length-take_le n text le in
    let at : add64 start 4 ≡ start + 4 = omega (arith, q.fits, v.small) in
    let last : add64 (add64 start 4) n ≡ start + 4 + n = omega (arith, q.fits, v.small) in
    let value : add64 n 1 % 2 ^ 32 ≡ n + 1 = omega arith in
    let c : Copied w.capacity (add64 start 4) (take n text) counted
        (copied n counted (add64 start 4) (take n text)) =
      subst
        (λ k.
          Copied w.capacity (add64 start 4) (take n text) counted
            (copied k counted (add64 start 4) (take n text)))
        len
        (copied-Copied w.capacity (add64 start 4) (take n text) counted s.sized
          (omega (arith, q.fits, len, at))) in
    let chars : BytePointer = copied n counted (add64 start 4) (take n text) in
    record {
      sized = put_byte-Sized w.capacity (add64 (add64 start 4) n) 0 chars c.sized;
      below = λ i lt.
          byte_at-put_byte_ne (add64 (add64 start 4) n) i 0 chars (omega (arith, last, q.offset_le))
          ∙ c.below i (omega (arith, at, q.offset_le))
          ∙ s.below i (omega (arith, q.offset_le))
          ∙ q.keeps i lt;
      count = λ i lt.
          byte_at-put_byte_ne (add64 (add64 start 4) n) (start + i) 0 chars (omega (arith, last))
          ∙ c.below (start + i) (omega (arith, at))
          ∙ s.inside i (omega arith) (omega arith)
          ∙ ap (λ m. stored_byte w.byte_order 4 m i) value;
      characters = λ i lt.
          byte_at-put_byte_ne (add64 (add64 start 4) n) (start + 4 + i) 0 chars
            (omega (arith, last))
          ∙ ap (byte_at chars) {x = start + 4 + i} {y = add64 start 4 + i} (omega (arith, at))
          ∙ c.inside i (omega (arith, len))
          ∙ get_or-take n i text lt;
      nul =
          ap (byte_at (string_memory w start text n)) (sym last)
          ∙ byte_at-put_byte_self w.capacity (add64 (add64 start 4) n) 0 chars c.sized
              (omega (arith, last, q.fits));
    }

-- What `read_string` copies: the characters and the NUL.
abbrev pub with_nul : List ℕ → ℕ → List ℕ
with_nul text n = take n text ++ 0 ∷ []

bytes_from_snoc :
    (b : BytePointer) (start : ℕ) (src : List ℕ)
    → ((i : ℕ) → i < length src → byte_at b (start + i) ≡ get_or src i 0)
    → byte_at b (start + length src) ≡ 0
    → bytes_from b start (suc (length src)) ≡ src ++ 0 ∷ []
bytes_from_snoc b start [] h nul =
    ap (λ x. x ∷ []) (ap (byte_at b) {x = start} {y = start + 0} (omega arith) ∙ nul)
bytes_from_snoc b start (x ∷ src) h nul =
    ap₂ (λ y ys. y ∷ ys)
      (ap (byte_at b) {x = start} {y = start + 0} (omega arith) ∙ h 0 (omega arith))
      (bytes_from_snoc b (suc start) src
        (λ i lt.
          ap (byte_at b) {x = suc start + i} {y = start + suc i} (omega arith)
          ∙ h (suc i) (omega arith))
        (ap (byte_at b) {x = suc start + length src} {y = start + suc (length src)} (omega arith)
          ∙ nul))

narrower :
    {w : CdrWriter} {alignment room start : ℕ} (width : ℕ)
    → width ≤ room
    → Reserved w alignment room start
    → Reserved w alignment width start
narrower width le q = record {
  position = q.position;
  offset_le = q.offset_le;
  fits = omega (arith, q.fits);
  sized = q.sized;
  keeps = q.keeps;
}

string_at_eq :
    (r : CdrReader) (destination : BytePointer) (capacity max n p : ℕ)
    → n ≤ max
    → n + 1 ≤ capacity
    → p + (n + 1) ≤ r.size
    → r.size < 2 ^ 64
    → byte_at r.buffer (p + n) ≡ 0
    → string_at r destination capacity max (n + 1) p ≡ (
      Option.some (copy_to destination 0 (bytes_from r.buffer p (n + 1)), n),
      record r { offset = p + (n + 1) },
    )
unfolding string_at
string_at_eq r destination capacity max n p a b c small nul =
    ground (arith, ap (byte_at r.buffer) {x = sub64 (add64 p (n + 1)) 1} {y = p + n} (omega arith))

-- A string that is written is within its bound.
write_string_ok :
    (w : CdrWriter) (text : List ℕ) (n max : ℕ)
    → (write_string w (Option.some text) n max).0 ≡ true
    → (n ≤ max)
      × (n < 2 ^ 32 - 1)
      × (write_string w (Option.some text) n max
          ≡ Writer.finish_string (Option.some text) n (reserve w 4 (4 + (n + 1))))
unfolding write_string
write_string_ok w text n max ok =
    let small : n < 2 ^ 32 - 1 = ground arith in
    (
      ground arith,
      small,
      ground (
        arith,
        ap (λ k. Writer.finish_string (Option.some text) n (reserve w 4 k))
            {x = add64 4 (add64 n 1)} {y = 4 + (n + 1)} (omega (arith, small)),
      ),
    )

finished-Written :
    {w : CdrWriter} {start : ℕ} (text : List ℕ) (n max : ℕ) (destination : List ℕ) (room : ℕ)
    → Ready w
    → n ≤ length text
    → n ≤ max
    → n < 2 ^ 32 - 1
    → n + 1 ≤ room
    → Reserved w 4 (4 + (n + 1)) start
    → Written w
        (Writer.finish_string (Option.some text) n (Option.some start, padded w start)).1
        (λ r. read_string r (Option.some destination) room max)
        (Option.some (copy_to (Option.some destination) 0 (with_nul text n), n))
unfolding read_string
finished-Written {w} {start} text n max destination room v le bounded small fits q =
    let holds = string_memory-Holds text n v le small q in
    let end : add64 (add64 start 4) (add64 n 1) ≡ start + 4 + (n + 1) =
      omega (arith, q.fits, v.small) in
    record {
      advances = omega (arith, q.offset_le, end);
      keeps = λ i lt. sym (holds.below i lt);
      ready = record {
        small = v.small;
        sized = holds.sized;
        offset_le = omega (arith, q.fits, end);
        good = v.good;
        initialized = v.initialized;
      };
      reads = λ memory size agree inside bound.
          ap (Reader.finish_string (Option.some destination) room max)
            (locate-Reserved memory size (narrower 4 (omega arith) q) (omega (arith, end)) bound)
          ∙ ap
              (λ m.
                string_at (reader_at w memory size) (Option.some destination) room max m
                  (start + 4))
              (load_integral_stored w.byte_order 4 (n + 1) start memory (omega arith) (omega arith)
                (λ i lt. sym (agree (start + i) (omega (arith, end))) ∙ holds.count i lt))
          ∙ string_at_eq (reader_at w memory size) (Option.some destination) room max n (start + 4)
              bounded fits (omega (arith, end)) bound
              (sym (agree (start + 4 + n) (omega (arith, end))) ∙ holds.nul)
          ∙ ap₂
              (λ bytes m. (
                Option.some (copy_to (Option.some destination) 0 bytes, n),
                record (reader_at w memory size) { offset = m },
              ))
              (read_back memory
                (λ i lt. sym (agree (start + 4 + i) (omega (arith, end))) ∙ holds.characters i lt)
                (sym (agree (start + 4 + n) (omega (arith, end))) ∙ holds.nul))
              (sym end);
    }
  where
    read_back :
        (memory : BytePointer)
        → ((i : ℕ) → i < n → byte_at memory (start + 4 + i) ≡ get_or text i 0)
        → byte_at memory (start + 4 + n) ≡ 0
        → bytes_from memory (start + 4) (n + 1) ≡ with_nul text n
    read_back memory h nul =
        let len : length (take n text) ≡ n = length-take_le n text le in
        ap (bytes_from memory (start + 4)) {x = n + 1} {y = suc (length (take n text))}
          (omega (arith, len))
        ∙ bytes_from_snoc memory (start + 4) (take n text)
            (λ i lt. h i (omega (arith, len)) ∙ sym (get_or-take n i text (omega (arith, len))))
            (ap (λ k. byte_at memory (start + 4 + k)) len ∙ nul)

pub write_string-Written :
    {w : CdrWriter} (text : List ℕ) (n max : ℕ) (destination : List ℕ) (room : ℕ)
    → Ready w
    → n ≤ length text
    → n + 1 ≤ room
    → (write_string w (Option.some text) n max).0 ≡ true
    → Written w
        (write_string w (Option.some text) n max).1
        (λ r. read_string r (Option.some destination) room max)
        (Option.some (copy_to (Option.some destination) 0 (with_nul text n), n))
write_string-Written {w} text n max destination room v le fits ok =
    let (bounded, small, e) = write_string_ok w text n max ok in
    rw e (elim (reserve_cases 4 (4 + (n + 1)) v) [
      | inl none ↦
          absurd (
            ground
              (arith, ok, e, finish_none (Option.some text) n (reserve w 4 (4 + (n + 1))) none))
      | inr (start, f, q) ↦
          rw f (finished-Written text n max destination room v le bounded small fits q)
    ])
