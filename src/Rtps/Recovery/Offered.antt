-- ===== src/Rtps/Recovery/Offered.antt =====
-- A reader that is offered numbers, as a run of ReliableReader::on_data.
use open_rtdds.Prelude.{
  ℕ, ◌+◌, ◌≤◌, ◌<◌, ◌≡◌, ◌⊎◌, sym, ap, subst, ◌∙◌, true, false, List, [], ◌∷◌, arith, inl, inr,
  int64_max, dec_lt, Bool-cases, ℕ_discrete,
}
use open_rtdds.Rtps.Actions.{fresh, fresh-IsValid}
use open_rtdds.Rtps.Reader.{ReliableReader, on_data}
use open_rtdds.Rtps.Reader.Seen.{seen, IsValid}
use open_rtdds.Rtps.Reader.Data.{on_data_lem}
use open_rtdds.Rtps.Trace.{member}

-- The reader after it is given the numbers in order, each with an action buffer of one entry.
abbrev pub receive_all : ℕ → ReliableReader → List ℕ → ReliableReader
receive_all window r [] = r
receive_all window r (n ∷ ns) = receive_all window (on_data window 1 r n (fresh 1)).1 ns

-- What is known of a reader that came from `r`.
pub record Later (window : ℕ) (r s : ReliableReader) : Type 0 where
  pub valid : IsValid window s
  pub configured : s.valid ≡ true
  pub keeps : (t : ℕ) → seen window r t ≡ true → seen window s t ≡ true
  pub base_missing : seen window s s.base ≡ false

-- The base does not fall.
Later-base : {window : ℕ} {r s : ReliableReader} → Later window r s → r.base ≤ s.base
Later-base {window} {r} {s} l = elim (dec_lt s.base r.base) [
  | no p ↦ omega arith
  | yes p ↦
      let below : seen window r s.base ≡ true = ground arith in
      absurd (let h = l.keeps s.base below in let k = l.base_missing in cc)
]

receives :
    {window : ℕ} {r s : ReliableReader} (n : ℕ)
    → Later window r s
    → Later window r (on_data window 1 s n (fresh 1)).1
      × (0 < n
          → n < int64_max
          → n < r.base + window
          → seen window (on_data window 1 s n (fresh 1)).1 n ≡ true)
receives {window} {r} {s} n l =
    elim (on_data_lem {capacity = 1} n {b = fresh 1} l.valid (fresh-IsValid 1 (omega arith))) [
      | inl q ↦ (
        record {
          valid = q.valid;
          configured = q.usable ∙ l.configured;
          keeps = λ t h. let k = l.keeps t h in ground (arith, q.sees t, k);
          base_missing = q.base_missing;
        },
        λ lo hi inside. ground (arith, q.sees n),
      )
      | inr d ↦ (
        subst (Later window r) (sym d.reader) l,
        λ lo hi inside. ap (λ x. seen window x n) d.reader ∙ (elim (Bool-cases (seen window s n)) [
          | inl t ↦ t
          | inr f ↦ absurd (
              d.refuses (record {
                configured = l.configured;
                sequence_pos = lo;
                sequence_lt = hi;
                unseen = f;
                in_window = omega (arith, inside, Later-base l);
                action_room = omega arith;
              }))
        ]),
      )
    ]

itself : {window : ℕ} {r s : ReliableReader} → Later window r s → Later window s s
itself l = record {
  valid = l.valid;
  configured = l.configured;
  keeps = λ t h. h;
  base_missing = l.base_missing;
}

-- Whatever is offered, and in whatever order: a valid number of the window that is offered has been
-- seen at the end.
receives_all :
    {window : ℕ} {r : ReliableReader} (s : ReliableReader) (ns : List ℕ)
    → Later window r s
    → Later window r (receive_all window s ns)
      × ((t : ℕ)
          → (seen window s t ≡ true) ⊎ (member t ns ≡ true)
          → 0 < t
          → t < int64_max
          → t < r.base + window
          → seen window (receive_all window s ns) t ≡ true)
receives_all s [] l = (l, λ t h lo hi inside. elim h [ inl q ↦ q | inr q ↦ cc ])
receives_all {window} {r} s (n ∷ ns) l =
    let next = (on_data window 1 s n (fresh 1)).1 in
    let (m, sees) = receives n l in
    let (last, rest) = receives_all next ns m in
    (
      last,
      λ t h lo hi inside. elim h [
        | inl q ↦ rest t (inl ((receives n (itself l)).0.keeps t q)) lo hi inside
        | inr q ↦ elim (ℕ_discrete t n) [
          | yes e ↦
              rest t
                (inl (
                  subst (λ k. seen window next k ≡ true) (sym e)
                    (sees (omega arith) (omega arith) (omega arith))))
                lo hi inside
          | no ne ↦ rest t (inr (ground (arith, q, ne))) lo hi inside
        ]
      ],
    )

-- The base passes a stretch of the window whose missing numbers are all offered.
pub advances :
    {window : ℕ} {r : ReliableReader} (ns : List ℕ) (k : ℕ)
    → Later window r r
    → k ≤ window
    → ((t : ℕ)
        → r.base ≤ t
        → t < r.base + k
        → seen window r t ≡ false
        → (member t ns ≡ true) × (t < int64_max))
    → r.base + k ≤ (receive_all window r ns).base
advances {window} {r} ns k l le offered =
    let s = receive_all window r ns in
    let (last, sees) = receives_all r ns l in
    elim (dec_lt s.base (r.base + k)) [
      | no p ↦ omega arith
      | yes p ↦
          let lo = Later-base last in
          let t : seen window s s.base ≡ true = elim (Bool-cases (seen window r s.base)) [
            | inl q ↦ last.keeps s.base q
            | inr q ↦
                let (m, small) = offered s.base lo p q in
                sees s.base (inr m) (omega (arith, last.valid.base_pos)) small (omega arith)
          ] in
          absurd (let f = last.base_missing in cc)
    ]
