-- ===== src/Rtps/Recovery/Resent.antt =====
-- The samples that the actions of ReliableWriter::on_acknack send again.
use open_rtdds.Prelude.{
  ℕ, suc, ◌-◌, ◌%◌, ◌^◌, ◌≤◌, ◌<◌, ◌≡◌, ◌≢◌, sym, ap, ◌∙◌, Bool, true, false, if◌then◌else◌, List,
  [], ◌∷◌, ◌++◌, Option, arith, All, inl, inr, map, Bool-cases, ℕ_discrete,
}
use mathlib.Core.Option.{some-injective}
use open_rtdds.Rtps.Messages.{AckNack}
use open_rtdds.Rtps.Actions.{ReliabilityAction, ReliabilityActionKind}
use open_rtdds.Rtps.SequenceSet.{test_bit}
use open_rtdds.Rtps.Sent.{
  ReliableWriterConfig, SentRecord, sequence_of, Decision, keep, deliver, repair, fail_window,
  fail_attempts, decide, decide_loop,
}
use open_rtdds.Rtps.Writer.Compact.{emit}
use open_rtdds.Rtps.Writer.Invariant.{Within, decide_loop_cons, length-decide_loop}
use open_rtdds.Rtps.Trace.{member}

abbrev pub is_repair : ReliabilityActionKind → Bool
is_repair ReliabilityActionKind.retransmit_data = true
is_repair _ = false

-- The numbers of the samples that a list of actions sends again, in order.
abbrev pub repairs : List ReliabilityAction → List ℕ
repairs [] = []
repairs (a ∷ actions) =
    let rest = repairs actions in if is_repair a.kind then a.sequence_number ∷ rest else rest

-- A record that can be sent again.
pub record Repairable (config : ReliableWriterConfig) (now : ℕ) (x : SentRecord) : Type 0 where
  pub sent_before : x.first_send_ns ≤ now
  pub in_window : now - x.first_send_ns < config.repair_window_ns
  pub attempts_left : x.repair_attempts < config.max_repair_attempts

module _ (config : ReliableWriterConfig) (a : AckNack) (now t : ℕ)
    (lo : a.reader_state.bitmap_base ≤ t)
    (hi : t - a.reader_state.bitmap_base < a.reader_state.num_bits)
    (asked : test_bit a.reader_state ((t - a.reader_state.bitmap_base) % 2 ^ 32) ≡ true) where
  decides :
      (x : SentRecord)
      → Repairable config now x
      → sequence_of x ≡ t
      → decide config a now x ≡ Option.some repair
  unfolding decide
  decides x ok e = ground (
    arith,
    ok.sent_before,
    ok.in_window,
    ok.attempts_left,
    ap (λ n. test_bit a.reader_state ((n - a.reader_state.bitmap_base) % 2 ^ 32)) e,
  )

  -- The number is that of a later record, where this one is not repaired.
  passes :
      (d : Decision) (x : SentRecord) (rs : List SentRecord)
      → decide config a now x ≡ Option.some d
      → d ≢ repair
      → Repairable config now x
      → member t (map sequence_of (x ∷ rs)) ≡ true
      → member t (map sequence_of rs) ≡ true
  passes d x rs this ne ok m = elim (ℕ_discrete t (sequence_of x)) [
    | yes q ↦ absurd (ne (some-injective d repair (sym this ∙ decides x ok (sym q))))
    | no q ↦ ground (arith, m, q)
  ]

  pub repairs-emit :
      (slot : ℕ) (rs : List SentRecord) (ds : List Decision)
      → decide_loop config a now rs ≡ Option.some ds
      → All (Repairable config now) rs
      → member t (map sequence_of rs) ≡ true
      → member t (repairs (emit slot ds rs)) ≡ true
  repairs-emit slot [] ds e ok m = cc
  repairs-emit slot (x ∷ rs) [] e ok m =
      absurd (omega (arith, length-decide_loop config a now (x ∷ rs) [] e))
  repairs-emit slot (x ∷ rs) (keep ∷ ds) e ok m =
      let (this, rest) = decide_loop_cons config a now x rs keep ds e in
      repairs-emit (suc slot) rs ds rest ok.1 (passes keep x rs this (λ q. cc) ok.0 m)
  repairs-emit slot (x ∷ rs) (deliver ∷ ds) e ok m =
      let (this, rest) = decide_loop_cons config a now x rs deliver ds e in
      repairs-emit slot rs ds rest ok.1 (passes deliver x rs this (λ q. cc) ok.0 m)
  repairs-emit slot (x ∷ rs) (fail_window ∷ ds) e ok m =
      let (this, rest) = decide_loop_cons config a now x rs fail_window ds e in
      repairs-emit slot rs ds rest ok.1 (passes fail_window x rs this (λ q. cc) ok.0 m)
  repairs-emit slot (x ∷ rs) (fail_attempts ∷ ds) e ok m =
      let (this, rest) = decide_loop_cons config a now x rs fail_attempts ds e in
      repairs-emit slot rs ds rest ok.1 (passes fail_attempts x rs this (λ q. cc) ok.0 m)
  repairs-emit slot (x ∷ rs) (repair ∷ ds) e ok m =
      let (this, rest) = decide_loop_cons config a now x rs repair ds e in
      elim (ℕ_discrete t (sequence_of x)) [
        | yes q ↦ ground (arith, q)
        | no q ↦ ground (arith, q, repairs-emit (suc slot) rs ds rest ok.1 (ground (arith, m, q)))
      ]

pub repairs_after :
    (t : ℕ) (xs ys : List ReliabilityAction)
    → member t (repairs ys) ≡ true
    → member t (repairs (xs ++ ys)) ≡ true
repairs_after t [] ys h = h
repairs_after t (x ∷ xs) ys h = elim (Bool-cases (is_repair x.kind)) [
  | inl q ↦ rw q (ground (arith, repairs_after t xs ys h))
  | inr q ↦ rw q (repairs_after t xs ys h)
]

pub member-Within :
    (t last attempts : ℕ) (rs : List SentRecord)
    → All (Within last attempts) rs
    → member t (map sequence_of rs) ≡ true
    → t ≤ last
member-Within t last attempts [] v m = cc
member-Within t last attempts (x ∷ rs) v m = elim (ℕ_discrete t (sequence_of x)) [
  | yes q ↦ omega (arith, q, v.0.0)
  | no q ↦ member-Within t last attempts rs v.1 (ground (arith, m, q))
]
