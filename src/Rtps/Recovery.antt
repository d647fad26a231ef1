-- ===== src/Rtps/Recovery.antt =====
-- A round of repair in which no message is lost: the reader answers a heartbeat, the writer takes in
-- the ACKNACK, and the reader receives what the writer's actions send again.
pub mod Offered
pub mod Resent
use open_rtdds.Prelude.{
  ℕ, zero, suc, ◌+◌, ◌-◌, ◌%◌, ◌^◌, ◌≤◌, ◌<◌, ◌≡◌, ◌≢◌, ◌⊎◌, refl, sym, ap, subst, ◌∙◌, Bool, true,
  false, not, ◌||◌, ◌==◌, if◌then◌else◌, length, List, [], ◌∷◌, ◌++◌, Option, arith, All, inl, inr,
  map, int64_max, dec_lt, Bool-cases, ℕ_discrete,
}
use mathlib.Core.Option.{some-injective}
use open_rtdds.Rtps.Messages.{Heartbeat, AckNack}
use open_rtdds.Rtps.Actions
use open_rtdds.Rtps.Actions.{
  ReliabilityError, ReliabilityAction, ReliabilityActionKind, ActionBuffer, listed, fresh,
  fresh-IsValid,
}
use open_rtdds.Rtps.SequenceSet.{test_bit}
use open_rtdds.Rtps.Sent.{
  ReliableWriterConfig, SentRecord, sequence_of, Decision, keep, deliver, repair, fail_window,
  fail_attempts, decide, decide_loop,
}
use open_rtdds.Rtps.Writer.{ReliableWriter, on_acknack}
use open_rtdds.Rtps.Writer.Compact.{emit}
use open_rtdds.Rtps.Writer.Invariant
use open_rtdds.Rtps.Writer.Invariant.{live, Within, decide_loop_cons, length-decide_loop}
use open_rtdds.Rtps.Writer.Acknack.{on_acknack_lem}
use open_rtdds.Rtps.Reader.{ReliableReader, on_data, on_heartbeat, response}
use open_rtdds.Rtps.Reader.Seen.{seen, IsValid}
use open_rtdds.Rtps.Reader.Data.{AcceptsData, on_data_lem}
use open_rtdds.Rtps.Reader.Requests.{Requests}
use open_rtdds.Rtps.Reader.Heartbeats.{on_heartbeat_lem}
use open_rtdds.Rtps.Exchange.{answered_bits, asked}
use open_rtdds.Rtps.Trace.{member, seen_eq}
use open_rtdds.Rtps.Recovery.Offered.{receive_all, Later, advances}
use open_rtdds.Rtps.Recovery.Resent.{
  repairs, Repairable, repairs-emit, repairs_after, member-Within,
}

answered_bits-le :
    (window : ℕ) (r : ReliableReader) (h : Heartbeat) → answered_bits window r h ≤ window
answered_bits-le window r h = ground arith

-- The round for any set that asks for the missing numbers.
pub Requests-advance :
    {window capacity room depth : ℕ} (now : ℕ) {w : ReliableWriter} {r : ReliableReader}
    (h : Heartbeat) (a : AckNack) {b c : ActionBuffer}
    → Invariant.IsValid depth w
    → IsValid window r
    → Actions.IsValid capacity b
    → Actions.IsValid room c
    → seen window r r.base ≡ false
    → (on_heartbeat window room r h c).0 ≡ ReliabilityError.none
    → Requests window r (answered_bits window r h) a.reader_state
    → (on_acknack capacity w a now b).0 ≡ ReliabilityError.none
    → All (Repairable w.config now) (live w)
    → ((t : ℕ)
        → r.base ≤ t
        → t < r.base + answered_bits window r h
        → seen window r t ≡ false
        → member t (map sequence_of (live w)) ≡ true)
    → r.base + answered_bits window r h
      ≤ (receive_all window
          (on_heartbeat window room r h c).1
          (repairs (listed (on_acknack capacity w a now b).2))).base
Requests-advance {window} {capacity} {room} {depth} now {w} {r} h a {b} {c} v vr vb vc missing heard
      asks took ok holds =
    elim (on_heartbeat_lem h vr vc) [
      | inl i ↦ absurd (i.error heard)
      | inr answered ↦ elim (on_acknack_lem now a v vb) [
        | inl q ↦ absurd (q.error took)
        | inr (ds, q) ↦
            let s = (on_heartbeat window room r h c).1 in
            let bits = answered_bits window r h in
            let same =
              λ (t : ℕ). seen_eq window r s t answered.received answered.base answered.base_index in
            let later : Later window s s = record {
              valid = answered.valid;
              configured = answered.usable ∙ answered.accepts.configured;
              keeps = λ t k. k;
              base_missing = same s.base ∙ ap (seen window r) answered.base ∙ missing;
            } in
            let base = answered.base in
            let up =
              advances (repairs (listed (on_acknack capacity w a now b).2)) bits later
                (answered_bits-le window r h)
                (λ t lo hi f.
                  let le : r.base ≤ t = omega (arith, base, lo) in
                  let lt : t < r.base + bits = omega (arith, base, hi) in
                  let unseen = sym (same t) ∙ f in
                  let has = holds t le lt unseen in
                  (
                    subst (λ xs. member t (repairs xs) ≡ true) (sym q.actions)
                        (repairs_after t (listed b) _ (
                          repairs-emit w.config a now t (omega (arith, asks.base, le))
                            (omega (arith, asks.base, asks.count, lt, le))
                            (asked window bits now r w.config a asks t le (omega (arith, lt, le))
                              ∙ ap not unseen)
                            0 (live w) ds q.decisions ok has)),
                    let top =
                          member-Within t w.last_sequence_number w.config.max_repair_attempts
                            (live w) v.within has in
                        let small = v.last_lt in omega (arith, top, small),
                  )) in
            omega (arith, base, up)
      ]
    ]

-- A round of repair in which nothing is lost. A reader whose base is missing answers a heartbeat, and
-- a writer takes in the reply, while its history has every number that the reader misses among those
-- that the reply speaks of and each of its samples can be sent again. Once the reader has received
-- what the writer's buffer of actions sends again, its base has passed all the numbers that the reply
-- speaks of.
pub round_advances :
    {window capacity room depth : ℕ} (now : ℕ) {w : ReliableWriter} {r : ReliableReader}
    (h : Heartbeat) (a : AckNack) {b c : ActionBuffer}
    → Invariant.IsValid depth w
    → IsValid window r
    → Actions.IsValid capacity b
    → Actions.IsValid room c
    → seen window r r.base ≡ false
    → (on_heartbeat window room r h c).0 ≡ ReliabilityError.none
    → a.reader_state ≡ (response window r h).reader_state
    → (on_acknack capacity w a now b).0 ≡ ReliabilityError.none
    → All (Repairable w.config now) (live w)
    → ((t : ℕ)
        → r.base ≤ t
        → t < r.base + answered_bits window r h
        → seen window r t ≡ false
        → member t (map sequence_of (live w)) ≡ true)
    → r.base + answered_bits window r h
      ≤ (receive_all window
          (on_heartbeat window room r h c).1
          (repairs (listed (on_acknack capacity w a now b).2))).base
round_advances {window} now {w} {r} h a v vr vb vc missing heard e took ok holds =
    elim (on_heartbeat_lem h vr vc) [
      | inl i ↦ absurd (i.error heard)
      | inr answered ↦
          Requests-advance now h a v vr vb vc missing heard
            (subst (Requests window r (answered_bits window r h)) (sym e) answered.requests) took ok
            holds
    ]
