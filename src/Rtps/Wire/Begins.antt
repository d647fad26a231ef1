-- ===== src/Rtps/Wire/Begins.antt =====
-- What the writers leave: memory that begins with given bytes. Every write goes on where the one
-- before it stopped.
use open_rtdds.Prelude.{
  ℕ, ◌+◌, ◌-◌, ◌/◌, ◌%◌, ◌^◌, ◌≤◌, ◌<◌, ◌≡◌, refl, sym, ap, ◌∙◌, arith, List, [], ◌∷◌, ◌++◌, length,
  length-append, append_assoc, append-nil, subst, get_or, dec_lt, Bool, true, false, bit_or,
  BytePointer, if◌then◌else◌,
}
use open_rtdds.Rtps.Types.{ByteOrder, big_endian, little_endian}
use open_rtdds.Serialization.Cdr.{byte_at, put_byte, copy_to}
use open_rtdds.Serialization.Integral.{
  Sized, put_byte-Sized, byte_at-put_byte_self, byte_at-put_byte_ne, store_loop-Stored,
  store_integral,
}
use open_rtdds.Serialization.Copies.{copy_to-Sized, copy_to_below, copy_to_inside}
use open_rtdds.Rtps.Wire.{or_byte, write_uint16, write_uint32}
use open_rtdds.Rtps.Wire.Holds.{
  Holds, get_or-append_left, get_or-append_right, uint16_bytes, uint32_bytes, get_or-uint32_bytes,
}

-- Memory of `n` bytes whose first `k` are `ps`.
pub record Begins (n : ℕ) (b : BytePointer) (k : ℕ) (ps : List ℕ) : Type 0 where
  pub sized : Sized n b
  pub size : length ps ≡ k
  pub holds : (i : ℕ) → i < k → byte_at b i ≡ get_or ps i 0

pub Begins-nil : (n : ℕ) (b : BytePointer) → Sized n b → Begins n b 0 []
Begins-nil n b h = record { sized = h; size = refl; holds = λ i lt. absurd (omega arith) }

-- A write at `k` that leaves what is below it.
extend :
    (n : ℕ) (b c : BytePointer) (k : ℕ) (ps qs : List ℕ)
    → Begins n b k ps
    → Sized n c
    → ((i : ℕ) → i < k → byte_at c i ≡ byte_at b i)
    → Holds c k qs
    → Begins n c (k + length qs) (ps ++ qs)
extend n b c k ps qs v sized below inside = record {
  sized = sized;
  size = omega (arith, length-append ps qs, v.size);
  holds = λ i lt. elim (dec_lt i k) [
    | yes low ↦
        below i low ∙ v.holds i low ∙ sym (get_or-append_left ps qs i (omega (arith, v.size)))
    | no high ↦
        let there : i ≡ k + (i - k) = omega arith in
        ap (byte_at c) there
        ∙ inside (i - k) (omega arith)
        ∙ sym (get_or-append_right ps qs (i - k))
        ∙ ap (λ j. get_or (ps ++ qs) j 0) {x = length ps + (i - k)} {y = i} (omega (arith, v.size))
  ];
}

pub Begins-copy_to :
    (n : ℕ) (b : BytePointer) (k w : ℕ) (ps src : List ℕ)
    → Begins n b k ps
    → length src ≡ w
    → k + w ≤ n
    → Begins n (copy_to b k src) (k + w) (ps ++ src)
Begins-copy_to n b k w ps src v size room =
    let h =
      extend n b (copy_to b k src) k ps src v (copy_to-Sized n k src b v.sized)
        (λ i lt. copy_to_below n k src i b lt)
        (λ i lt. copy_to_inside n k src i b v.sized lt (omega arith)) in
    record {
      sized = h.sized;
      size = omega (arith, h.size);
      holds = λ i lt. h.holds i (omega arith);
    }

pub Begins-put_byte :
    (n : ℕ) (b : BytePointer) (k : ℕ) (ps : List ℕ) (value : ℕ)
    → Begins n b k ps
    → k + 1 ≤ n
    → Begins n (put_byte b k value) (k + 1) (ps ++ value ∷ [])
Begins-put_byte n b k ps value v room =
    extend n b (put_byte b k value) k ps (value ∷ []) v (put_byte-Sized n k value b v.sized)
      (λ i lt. byte_at-put_byte_ne k i value b (omega arith))
      (λ i lt.
        let first : i ≡ 0 = omega arith in
        ap (byte_at (put_byte b k value)) {x = k + i} {y = k} (omega arith)
        ∙ byte_at-put_byte_self n k value b v.sized (omega arith)
        ∙ sym (ap (λ j. get_or (value ∷ []) j 0) first))

-- The last byte is written again.
rewritten :
    (n : ℕ) (b : BytePointer) (k : ℕ) (ps : List ℕ) (x value : ℕ)
    → Begins n b (k + 1) (ps ++ x ∷ [])
    → length ps ≡ k
    → k + 1 ≤ n
    → Begins n (put_byte b k value) (k + 1) (ps ++ value ∷ [])
rewritten n b k ps x value v size room =
    Begins-put_byte n b k ps value
      (record {
        sized = v.sized;
        size = size;
        holds = λ i lt. v.holds i (omega arith) ∙ get_or-append_left ps (x ∷ []) i (omega arith);
      })
      room

-- `if (test) { buffer[k] |= mask; }`
pub Begins-or_byte :
    (n : ℕ) (b : BytePointer) (k : ℕ) (ps : List ℕ) (x mask : ℕ) (test : Bool)
    → Begins n b (k + 1) (ps ++ x ∷ [])
    → length ps ≡ k
    → k + 1 ≤ n
    → Begins n
        (if test then or_byte b k mask else b)
        (k + 1)
        (ps ++ (if test then bit_or x mask else x) ∷ [])
Begins-or_byte n b k ps x mask false v size room = v
Begins-or_byte n b k ps x mask true v size room =
    let last : byte_at b k ≡ x =
      v.holds k (omega arith)
      ∙ ap (λ j. get_or (ps ++ x ∷ []) j 0) {x = k} {y = length ps + 0} (omega arith)
      ∙ get_or-append_right ps (x ∷ []) 0 in
    subst (λ y. Begins n (put_byte b k (bit_or y mask)) (k + 1) (ps ++ bit_or x mask ∷ []))
      (sym last) (rewritten n b k ps x (bit_or x mask) v size room)

two :
    (n : ℕ) (b : BytePointer) (k : ℕ) (ps : List ℕ) (x y : ℕ)
    → Begins n b k ps
    → k + 2 ≤ n
    → Begins n (put_byte (put_byte b k x) (k + 1) y) (k + 2) (ps ++ x ∷ y ∷ [])
two n b k ps x y v room =
    let h =
      Begins-put_byte n (put_byte b k x) (k + 1) (ps ++ x ∷ []) y
        (Begins-put_byte n b k ps x v (omega arith)) (omega arith) in
    record {
      sized = h.sized;
      size = omega (arith, length-append ps (x ∷ y ∷ []), v.size);
      holds = λ i lt.
          h.holds i (omega arith) ∙ ap (λ l. get_or l i 0) (append_assoc ps (x ∷ []) (y ∷ []));
    }

pub Begins-write_uint16 :
    (n : ℕ) (b : BytePointer) (k : ℕ) (ps : List ℕ) (value : ℕ) (order : ByteOrder)
    → Begins n b k ps
    → k + 2 ≤ n
    → Begins n (write_uint16 b k value order) (k + 2) (ps ++ uint16_bytes value order)
unfolding write_uint16
Begins-write_uint16 n b k ps value little_endian v room =
    two n b k ps (value % 2 ^ 8) (value / 2 ^ 8 % 2 ^ 8) v room
Begins-write_uint16 n b k ps value big_endian v room =
    two n b k ps (value / 2 ^ 8 % 2 ^ 8) (value % 2 ^ 8) v room

pub Begins-write_uint32 :
    (n : ℕ) (b : BytePointer) (k : ℕ) (ps : List ℕ) (value : ℕ) (order : ByteOrder)
    → Begins n b k ps
    → k + 4 ≤ n
    → Begins n (write_uint32 b k value order) (k + 4) (ps ++ uint32_bytes value order)
unfolding write_uint32 store_integral
Begins-write_uint32 n b k ps value order v room =
    let s = store_loop-Stored n order 4 4 0 k value b v.sized (omega arith) in
    extend n b (store_integral order k value 4 b) k ps (uint32_bytes value order) v s.sized
      (λ i lt. s.below i (omega arith))
      (λ i lt.
        s.inside i (omega arith) (omega arith)
        ∙ sym (get_or-uint32_bytes value order i (omega arith)))

-- A segment at the end.
pub Begins-split :
    (n : ℕ) (b : BytePointer) (k w : ℕ) (ps qs : List ℕ)
    → Begins n b (k + w) (ps ++ qs)
    → length qs ≡ w
    → Begins n b k ps × Holds b k qs
Begins-split n b k w ps qs v size =
    let front : length ps ≡ k = omega (arith, v.size, length-append ps qs) in
    (
      record {
        sized = v.sized;
        size = front;
        holds = λ i lt. v.holds i (omega arith) ∙ get_or-append_left ps qs i (omega arith);
      },
      λ i lt.
          v.holds (k + i) (omega arith)
          ∙ ap (λ j. get_or (ps ++ qs) j 0) {x = k + i} {y = length ps + i} (omega arith)
          ∙ get_or-append_right ps qs i,
    )

pub Begins-at :
    {n : ℕ} {b : BytePointer} {k : ℕ} {ps : List ℕ} (k' : ℕ)
    → k ≡ k'
    → Begins n b k ps
    → Begins n b k' ps
Begins-at {n} {b} {k} {ps} k' e v = subst (λ x. Begins n b x ps) e v

pub Begins-assoc :
    {n : ℕ} {b : BytePointer} {k : ℕ} (ps qs rs : List ℕ)
    → Begins n b k ((ps ++ qs) ++ rs)
    → Begins n b k (ps ++ (qs ++ rs))
Begins-assoc {n} {b} {k} ps qs rs v = subst (λ xs. Begins n b k xs) (append_assoc ps qs rs) v

pub Begins-end :
    {n : ℕ} {b : BytePointer} {k : ℕ} (ps : List ℕ) → Begins n b k ps → Begins n b k (ps ++ [])
Begins-end {n} {b} {k} ps v = subst (λ xs. Begins n b k xs) (sym (append-nil ps)) v
