-- ===== src/Serialization/ReadErrors.antt =====
-- Failures of the CDR reader: the first error stays, and the cursor does not move.
use open_rtdds.Prelude.{
  ap, ℕ, ◌-◌, ◌≡◌, refl, true, false, Option, arith, BytePointer, ◌||◌, ◌&&◌, ltb, Bool-cases, inl,
  inr, ◌==◌, ◌!=◌, add64, sub64,
}
use open_rtdds.Core.History.{is_null}
use open_rtdds.Serialization.Cdr.{CdrError, is_good, aligned_position, byte_at}
use open_rtdds.Serialization.Integral.{load_integral}
use open_rtdds.Serialization.Reader
use open_rtdds.Serialization.Reader.{
  CdrReader, locate, locate_at, fail, read_integral, read_uint8, narrowed, read_bool, finish_bool,
  read_bytes, read_string, string_at, read_string_view, string_view_at,
}

-- What a failed read leaves.
abbrev pub Stays : CdrReader → CdrReader → Type 0
Stays r r' =
    (r'.offset ≡ r.offset) × (is_good r'.error ≡ false) × (is_good r.error ≡ false → r' ≡ r)

fail-Stays : (r : CdrReader) (e : CdrError) → is_good e ≡ false → Stays r (fail r e)
fail-Stays r e bad_e = elim (Bool-cases (is_good r.error)) [
  | inl good ↦ simp good (refl, bad_e, λ b. cc)
  | inr bad ↦ simp bad (refl, refl, λ b. refl)
]

-- `locate` fails and keeps the cursor, or gives a place and leaves the reader as it is.
abbrev Located : CdrReader → Option (ℕ × ℕ) × CdrReader → Type 0
Located r (Option.none, r') = Stays r r'
Located r (Option.some p, r') = r' ≡ r

locate_at-Located : (r : CdrReader) (width : ℕ) (o : Option ℕ) → Located r (locate_at r width o)
locate_at-Located r width Option.none = fail-Stays r CdrError.underflow refl
locate_at-Located r width (Option.some start) =
    elim (Bool-cases (ltb r.size start || ltb (r.size - start) width)) [
      | inl out ↦ rw out (fail-Stays r CdrError.underflow refl)
      | inr fits ↦ rw fits refl
    ]

locate-Located : (r : CdrReader) (alignment width : ℕ) → Located r (locate r alignment width)
unfolding locate
locate-Located r alignment width = elim (Bool-cases (is_good r.error)) [
  | inr bad ↦
      let same : locate r alignment width ≡ (Option.none, r) = ground (arith, bad) in
      rw same (refl, bad, λ b. refl)
  | inl good ↦ elim (Bool-cases r.initialized) [
    | inr uninitialized ↦
        let same : locate r alignment width ≡ (Option.none, fail r CdrError.not_initialized) =
          ground (arith, good, uninitialized) in
        rw same (fail-Stays r CdrError.not_initialized refl)
    | inl ready ↦
        let same : locate r alignment width
            ≡ locate_at r width (aligned_position r.offset r.origin alignment) =
          ground (arith, good, ready) in
        rw same (locate_at-Located r width (aligned_position r.offset r.origin alignment))
  ]
]

-- A result that fails keeps the cursor.
abbrev Safe : {A : Type 0} → CdrReader → Option A × CdrReader → Type 0
Safe r (Option.none, r') = Stays r r'
Safe r (Option.some a, r') = Unit {0}

integral-Safe :
    (r : CdrReader) (width : ℕ) (p : Option (ℕ × ℕ) × CdrReader)
    → Located r p
    → Safe r (Reader.finish_integral width p)
integral-Safe r width (Option.none, r1) h = h
integral-Safe r width (Option.some (s, e), r1) h = tt

narrowed-Safe :
    (r : CdrReader) (bits : ℕ) (p : Option ℕ × CdrReader) → Safe r p → Safe r (narrowed bits p)
narrowed-Safe r bits (Option.none, r1) h = h
narrowed-Safe r bits (Option.some v, r1) h = tt

bytes-Safe :
    (r : CdrReader) (d : BytePointer) (size : ℕ) (p : Option (ℕ × ℕ) × CdrReader)
    → Located r p
    → Safe r (Reader.finish_bytes d size p)
bytes-Safe r d size (Option.none, r1) h = h
bytes-Safe r d size (Option.some (s, e), r1) h = tt

string_at-Safe :
    (r : CdrReader) (d : BytePointer) (room max n p : ℕ) → Safe r (string_at r d room max n p)
unfolding string_at
string_at-Safe r d room max n p = elim (Bool-cases (n == 0)) [
  | inl a ↦ rw a (fail-Stays r CdrError.invalid_data refl)
  | inr a ↦ elim (Bool-cases (ltb max (n - 1))) [
    | inl b ↦ rw (a, b) (fail-Stays r CdrError.bound_exceeded refl)
    | inr b ↦ elim (Bool-cases (ltb room n)) [
      | inl c ↦ rw (a, b, c) (fail-Stays r CdrError.bound_exceeded refl)
      | inr c ↦ elim (Bool-cases (ltb r.size p || ltb (r.size - p) n)) [
        | inl d ↦ rw (a, b, c, d) (fail-Stays r CdrError.underflow refl)
        | inr d ↦ elim (Bool-cases (byte_at r.buffer (sub64 (add64 p n) 1) != 0)) [
          | inl e ↦ rw (a, b, c, d, e) (fail-Stays r CdrError.invalid_data refl)
          | inr e ↦ rw (a, b, c, d, e) tt
        ]
      ]
    ]
  ]
]

string_view_at-Safe : (r : CdrReader) (max n p : ℕ) → Safe r (string_view_at r max n p)
unfolding string_view_at
string_view_at-Safe r max n p = elim (Bool-cases (n == 0)) [
  | inl a ↦ rw a (fail-Stays r CdrError.invalid_data refl)
  | inr a ↦ elim (Bool-cases (ltb max (n - 1))) [
    | inl b ↦ rw (a, b) (fail-Stays r CdrError.bound_exceeded refl)
    | inr b ↦ elim (Bool-cases (ltb r.size p || ltb (r.size - p) n)) [
      | inl d ↦ rw (a, b, d) (fail-Stays r CdrError.underflow refl)
      | inr d ↦ elim (Bool-cases (byte_at r.buffer (add64 p (n - 1)) != 0)) [
        | inl e ↦ rw (a, b, d, e) (fail-Stays r CdrError.invalid_data refl)
        | inr e ↦ rw (a, b, d, e) tt
      ]
    ]
  ]
]

read_string-Safe :
    (r : CdrReader) (d : BytePointer) (room max : ℕ) → Safe r (read_string r d room max)
unfolding read_string
read_string-Safe r d room max = elim (Bool-cases (is_null d && room != 0)) [
  | inl null ↦ rw null (fail-Stays r CdrError.invalid_argument refl)
  | inr there ↦ rw there (go (locate r 4 4) (locate-Located r 4 4))
]
  where
    go : (p : Option (ℕ × ℕ) × CdrReader) → Located r p → Safe r (Reader.finish_string d room max p)
    go (Option.none, r1) h = h
    go (Option.some (first, start), r1) h =
        rw h (string_at-Safe r d room max (load_integral r.byte_order first 4 r.buffer) start)

read_string_view-Safe : (r : CdrReader) (max : ℕ) → Safe r (read_string_view r max)
unfolding read_string_view
read_string_view-Safe r max = go (locate r 4 4) (locate-Located r 4 4)
  where
    go : (p : Option (ℕ × ℕ) × CdrReader) → Located r p → Safe r (Reader.finish_string_view max p)
    go (Option.none, r1) h = h
    go (Option.some (first, start), r1) h =
        rw h (string_view_at-Safe r max (load_integral r.byte_order first 4 r.buffer) start)

read_bytes-Safe : (r : CdrReader) (d : BytePointer) (size : ℕ) → Safe r (read_bytes r d size)
unfolding read_bytes
read_bytes-Safe r d size = elim (Bool-cases (is_null d && size != 0)) [
  | inl null ↦ rw null (fail-Stays r CdrError.invalid_argument refl)
  | inr there ↦ rw there (bytes-Safe r d size (locate r 1 size) (locate-Located r 1 size))
]

read_integral-Safe :
    (r : CdrReader) (width alignment : ℕ) → Safe r (read_integral r width alignment)
unfolding read_integral
read_integral-Safe r width alignment =
    integral-Safe r width (locate r alignment width) (locate-Located r alignment width)

read_bool-Safe : (r : CdrReader) → Safe r (read_bool r)
unfolding read_bool read_integral locate
read_bool-Safe r = elim (Bool-cases (is_good r.error)) [
  | inr bad ↦
      let same : read_bool r ≡ (Option.none, r) = ground (arith, bad) in
      rw same (refl, bad, λ b. refl)
  | inl good ↦
      go good (read_uint8 r) (narrowed-Safe r 8 (read_integral r 1 1) (read_integral-Safe r 1 1))
]
  where
    go :
        is_good r.error ≡ true
        → (p : Option ℕ × CdrReader) → Safe r p
        → Safe r (finish_bool r.offset p)
    go good (Option.none, r1) h = h
    go good (Option.some n, r1) h = elim (Bool-cases (ltb 1 n)) [
      | inl odd ↦ rw odd (
        refl,
        (fail-Stays (record r1 { offset = r.offset }) CdrError.invalid_data refl).1,
        λ b. absurd (cc (good, b)),
      )
      | inr fine ↦ rw fine tt
    ]

failed :
    {A : Type 0} {r : CdrReader} (p : Option A × CdrReader)
    → Safe r p
    → p.0 ≡ Option.none
    → Stays r p.1
failed (Option.none, r1) h e = h
failed (Option.some a, r1) h e = cc

-- The operations of a reader with an error.
locate_bad :
    (r : CdrReader) (alignment width : ℕ)
    → is_good r.error ≡ false
    → locate r alignment width ≡ (Option.none, r)
unfolding locate
locate_bad r alignment width bad = ground (arith, bad)

fail_bad : (r : CdrReader) (e : CdrError) → is_good r.error ≡ false → fail r e ≡ r
fail_bad r e bad = simp bad refl

read_integral_bad :
    (r : CdrReader) (width alignment : ℕ)
    → is_good r.error ≡ false
    → read_integral r width alignment ≡ (Option.none, r)
unfolding read_integral
read_integral_bad r width alignment bad =
    ap (Reader.finish_integral width) (locate_bad r alignment width bad)

read_bool_bad : (r : CdrReader) → is_good r.error ≡ false → read_bool r ≡ (Option.none, r)
unfolding read_bool
read_bool_bad r bad = ap (λ p. finish_bool r.offset (narrowed 8 p)) (read_integral_bad r 1 1 bad)

read_bytes_bad :
    (r : CdrReader) (d : BytePointer) (size : ℕ)
    → is_good r.error ≡ false
    → read_bytes r d size ≡ (Option.none, r)
unfolding read_bytes
read_bytes_bad r d size bad = elim (Bool-cases (is_null d && size != 0)) [
  | inl null ↦ rw null (ap (λ x. (Option.none, x)) (fail_bad r CdrError.invalid_argument bad))
  | inr there ↦ rw there (ap (Reader.finish_bytes d size) (locate_bad r 1 size bad))
]

read_string_bad :
    (r : CdrReader) (d : BytePointer) (room max : ℕ)
    → is_good r.error ≡ false
    → read_string r d room max ≡ (Option.none, r)
unfolding read_string
read_string_bad r d room max bad = elim (Bool-cases (is_null d && room != 0)) [
  | inl null ↦ rw null (ap (λ x. (Option.none, x)) (fail_bad r CdrError.invalid_argument bad))
  | inr there ↦ rw there (ap (Reader.finish_string d room max) (locate_bad r 4 4 bad))
]

read_string_view_bad :
    (r : CdrReader) (max : ℕ) → is_good r.error ≡ false → read_string_view r max ≡ (Option.none, r)
unfolding read_string_view
read_string_view_bad r max bad = ap (Reader.finish_string_view max) (locate_bad r 4 4 bad)

-- What holds of a call, by its answer and by the state of the reader before.
abbrev pub Sticky : {A : Type 0} → CdrReader → Option A × CdrReader → Type 0
Sticky r out =
    (out.0 ≡ Option.none → (out.1.offset ≡ r.offset) × (is_good out.1.error ≡ false))
    × (is_good r.error ≡ false → out ≡ (Option.none, r))

failing :
    {A : Type 0} (r : CdrReader) (p : Option A × CdrReader)
    → Safe r p
    → p.0 ≡ Option.none
    → (p.1.offset ≡ r.offset) × (is_good p.1.error ≡ false)
failing r p safe e = let (place, error, same) = failed p safe e in (place, error)

-- A read that answers false leaves the cursor where it is and records an error. A call on a reader that
-- has an error answers false and does not change the reader at all, whatever its arguments are.
pub read-Stays :
    (r : CdrReader) (width alignment : ℕ) (destination : BytePointer) (size room max : ℕ)
    → Sticky r (read_integral r width alignment)
      × Sticky r (read_bool r)
      × Sticky r (read_bytes r destination size)
      × Sticky r (read_string r destination room max)
      × Sticky r (read_string_view r max)
read-Stays r width alignment destination size room max = (
  (
    failing r (read_integral r width alignment) (read_integral-Safe r width alignment),
    read_integral_bad r width alignment,
  ),
  (failing r (read_bool r) (read_bool-Safe r), read_bool_bad r),
  (
    failing r (read_bytes r destination size) (read_bytes-Safe r destination size),
    read_bytes_bad r destination size,
  ),
  (
    failing r (read_string r destination room max) (read_string-Safe r destination room max),
    read_string_bad r destination room max,
  ),
  (failing r (read_string_view r max) (read_string_view-Safe r max), read_string_view_bad r max),
)
