-- ===== src/Rtps/Exchange.antt =====
-- A reader's reply to a heartbeat, taken in by the writer: what the writer concludes about each of
-- its samples is what the reader has seen.
use open_rtdds.Prelude.{
  ℕ, suc, ◌+◌, ◌-◌, ◌%◌, ◌^◌, ◌≤◌, ◌<◌, ◌≡◌, ◌⊎◌, sym, ap, ◌∙◌, true, false, not, List, [], ◌∷◌,
  ◌++◌, Option, arith, All, inl, inr, subst, if◌then◌else◌,
}
use open_rtdds.Rtps.SequenceSet.{test_bit}
use open_rtdds.Rtps.Messages.{Heartbeat, AckNack}
use open_rtdds.Rtps.Actions
use open_rtdds.Rtps.Actions.{
  ReliabilityError, ReliabilityAction, ReliabilityActionKind, ActionBuffer, listed,
}
use open_rtdds.Rtps.Sent.{
  ReliableWriterConfig, SentRecord, sequence_of, Decision, keep, deliver, repair, fail_window,
  fail_attempts, decide, decide_loop,
}
use open_rtdds.Rtps.Writer.{ReliableWriter, on_acknack, Outcome}
use open_rtdds.Rtps.Writer.Compact.{emit, retain}
use open_rtdds.Rtps.Writer.Invariant.{IsValid, live, decide_loop_cons}
use open_rtdds.Rtps.Writer.Acknack.{Rejected, on_acknack_lem}
use open_rtdds.Rtps.Reader.{ReliableReader, on_heartbeat, response, covers_base}
use open_rtdds.Rtps.Reader.Seen
use open_rtdds.Rtps.Reader.Seen.{seen}
use open_rtdds.Rtps.Reader.Requests.{Requests, requested_bits}
use open_rtdds.Rtps.Reader.Heartbeats.{on_heartbeat_lem}

-- What a decision says of the reader.
abbrev pub Justified : ℕ → ReliableReader → ℕ → Decision → ℕ → Type 0
Justified window r bits keep n = r.base + bits ≤ n
Justified window r bits deliver n = seen window r n ≡ true
Justified window r bits repair n = seen window r n ≡ false
Justified window r bits fail_window n = seen window r n ≡ false
Justified window r bits fail_attempts n = seen window r n ≡ false

-- What an action says of the reader.
abbrev pub Honest : ℕ → ReliableReader → ReliabilityAction → Type 0
Honest window r a = elim a.kind [
  | ReliabilityActionKind.sample_delivered ↦ seen window r a.sequence_number ≡ true
  | ReliabilityActionKind.retransmit_data ↦ seen window r a.sequence_number ≡ false
  | ReliabilityActionKind.sample_failed ↦ seen window r a.sequence_number ≡ false
  | _ ↦ Unit {0}
]

-- A sample that stays in the history is one that the reader was not asked about or has not seen.
abbrev pub Waiting : ℕ → ℕ → ReliableReader → SentRecord → Type 0
Waiting window bits r x = (r.base + bits ≤ sequence_of x) ⊎ (seen window r (sequence_of x) ≡ false)

module _ (window bits now : ℕ) (r : ReliableReader) (config : ReliableWriterConfig) (a : AckNack)
    (q : Requests window r bits a.reader_state) where
  -- The bit of a sample, at the offset that the writer computes.
  pub asked :
      (n : ℕ)
      → r.base ≤ n
      → n - r.base < bits
      → test_bit a.reader_state ((n - a.reader_state.bitmap_base) % 2 ^ 32) ≡ not (seen window r n)
  asked n le lt =
      ap (test_bit a.reader_state) {x = (n - a.reader_state.bitmap_base) % 2 ^ 32} {y = n - r.base}
        (omega (arith, q.base, q.count, q.valid.bits_le))
      ∙ q.missing (n - r.base) lt
      ∙ ap (λ m. not (seen window r m)) {x = r.base + (n - r.base)} {y = n} (omega arith)

  seen_below : (n : ℕ) → n < r.base → seen window r n ≡ true
  seen_below n lt = ground arith

  decide-Justified :
      (d : Decision) (x : SentRecord)
      → decide config a now x ≡ Option.some d
      → Justified window r bits d (sequence_of x)
  unfolding decide
  decide-Justified keep x e = ground (arith, q.base, q.count)
  decide-Justified deliver x e =
      ground (arith, q.base, q.count, asked (sequence_of x), seen_below (sequence_of x))
  decide-Justified repair x e = ground (arith, q.base, q.count, asked (sequence_of x))
  decide-Justified fail_window x e = ground (arith, q.base, q.count, asked (sequence_of x))
  decide-Justified fail_attempts x e = ground (arith, q.base, q.count, asked (sequence_of x))

  emit-Honest :
      (slot : ℕ) (rs : List SentRecord) (ds : List Decision)
      → decide_loop config a now rs ≡ Option.some ds
      → All (Honest window r) (emit slot ds rs)
  emit-Honest slot rs [] e = tt
  emit-Honest slot [] (d ∷ ds) e = tt
  emit-Honest slot (x ∷ rs) (keep ∷ ds) e =
      emit-Honest (suc slot) rs ds (decide_loop_cons config a now x rs keep ds e).1
  emit-Honest slot (x ∷ rs) (deliver ∷ ds) e =
      let (this, rest) = decide_loop_cons config a now x rs deliver ds e in
      (decide-Justified deliver x this, emit-Honest slot rs ds rest)
  emit-Honest slot (x ∷ rs) (repair ∷ ds) e =
      let (this, rest) = decide_loop_cons config a now x rs repair ds e in
      (decide-Justified repair x this, emit-Honest (suc slot) rs ds rest)
  emit-Honest slot (x ∷ rs) (fail_window ∷ ds) e =
      let (this, rest) = decide_loop_cons config a now x rs fail_window ds e in
      (decide-Justified fail_window x this, emit-Honest slot rs ds rest)
  emit-Honest slot (x ∷ rs) (fail_attempts ∷ ds) e =
      let (this, rest) = decide_loop_cons config a now x rs fail_attempts ds e in
      (decide-Justified fail_attempts x this, emit-Honest slot rs ds rest)

  retain-Waiting :
      (rs : List SentRecord) (ds : List Decision)
      → decide_loop config a now rs ≡ Option.some ds
      → All (Waiting window bits r) (retain ds rs)
  retain-Waiting rs [] e = tt
  retain-Waiting [] (d ∷ ds) e = tt
  retain-Waiting (x ∷ rs) (keep ∷ ds) e =
      let (this, rest) = decide_loop_cons config a now x rs keep ds e in
      (inl (decide-Justified keep x this), retain-Waiting rs ds rest)
  retain-Waiting (x ∷ rs) (deliver ∷ ds) e =
      retain-Waiting rs ds (decide_loop_cons config a now x rs deliver ds e).1
  retain-Waiting (x ∷ rs) (repair ∷ ds) e =
      let (this, rest) = decide_loop_cons config a now x rs repair ds e in
      (inr (decide-Justified repair x this), retain-Waiting rs ds rest)
  retain-Waiting (x ∷ rs) (fail_window ∷ ds) e =
      retain-Waiting rs ds (decide_loop_cons config a now x rs fail_window ds e).1
  retain-Waiting (x ∷ rs) (fail_attempts ∷ ds) e =
      retain-Waiting rs ds (decide_loop_cons config a now x rs fail_attempts ds e).1

-- The numbers that the reply to a heartbeat speaks of, from the reader's base on.
abbrev pub answered_bits : ℕ → ReliableReader → Heartbeat → ℕ
answered_bits window r h = if covers_base r h then requested_bits window r h else 0

-- What the writer makes of a reply.
pub record Understood (window : ℕ) (r : ReliableReader) (h : Heartbeat) (b : ActionBuffer)
    (out : Outcome) : Type 0 where
  pub no_error : out.0 ≡ ReliabilityError.none
  pub waiting : All (Waiting window (answered_bits window r h) r) (live out.1)
  pub honest :
      (made : List ReliabilityAction) × (listed out.2 ≡ listed b ++ made)
      × All (Honest window r) made

-- A reader accepts a heartbeat, and the writer takes in an ACKNACK with the set that the reader
-- replies. The writer either rejects it and changes nothing, or each action it adds is true of the
-- reader: it reports as delivered only what the reader has seen, and it repairs or gives up only what
-- the reader has not seen. A sample that stays in the history has not been seen either or lies above
-- the numbers that the reply covers.
pub on_acknack-on_heartbeat :
    {window capacity room depth : ℕ} (now : ℕ) {w : ReliableWriter} {r : ReliableReader}
    (h : Heartbeat) (a : AckNack) {b c : ActionBuffer}
    → IsValid depth w
    → Seen.IsValid window r
    → Actions.IsValid capacity b
    → Actions.IsValid room c
    → (on_heartbeat window room r h c).0 ≡ ReliabilityError.none
    → a.reader_state ≡ (response window r h).reader_state
    → Rejected w b (on_acknack capacity w a now b)
      ⊎ Understood window r h b (on_acknack capacity w a now b)
on_acknack-on_heartbeat {window} {capacity} {room} {depth} now {w} {r} h a {b} {c} v vr vb vc ok e =
    elim (on_heartbeat_lem h vr vc) [
      | inl ignored ↦ absurd (ignored.error ok)
      | inr answered ↦
          let asks : Requests window r (answered_bits window r h) a.reader_state =
            subst (Requests window r (answered_bits window r h)) (sym e) answered.requests in
          elim (on_acknack_lem now a v vb) [
            | inl q ↦ inl q
            | inr (ds, q) ↦ inr (record {
              no_error = q.no_error;
              waiting =
                  rw q.history
                    (retain-Waiting window _ now r w.config a asks (live w) ds q.decisions);
              honest = (
                _,
                q.actions,
                emit-Honest window _ now r w.config a asks 0 (live w) ds q.decisions,
              );
            })
          ]
    ]
