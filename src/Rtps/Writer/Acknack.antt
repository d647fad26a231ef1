-- ===== src/Rtps/Writer/Acknack.antt =====
-- ReliableWriter::on_acknack: it decides each sample by the message, or changes nothing.
use open_rtdds.Prelude.{
  ℕ, suc, ◌≤◌, ◌≡◌, ◌≢◌, ◌⊎◌, refl, sym, ap, ◌∙◌, List, [], ◌∷◌, ◌++◌, Option, arith, length, take,
  true, length-take, ltb, inl, inr, Bool-cases,
}
use open_rtdds.Rtps.Actions
use open_rtdds.Rtps.Actions.{
  ReliabilityError, ReliabilityAction, ActionBuffer, guarded_cases, listed, remaining, remaining_eq,
}
use open_rtdds.Rtps.Messages.{AckNack}
use open_rtdds.Rtps.Sent.{
  SentRecord, Decision, keep, deliver, repair, fail_window, fail_attempts, repaired, decide_loop,
  required_actions,
}
use open_rtdds.Rtps.Writer.{
  ReliableWriter, Outcome, apply_loop, finish_acknack, act_on, acknack_error, on_acknack,
}
use open_rtdds.Rtps.Writer.Compact.{retain, emit, apply_loop-Compacted}
use open_rtdds.Rtps.Writer.Invariant.{
  live, IsValid, retain-Rising, retain-Within, length-decide_loop,
}

-- Only the records that have a decision matter.
retain-take :
    (ds : List Decision) (rs : List SentRecord) → retain ds (take (length ds) rs) ≡ retain ds rs
retain-take [] rs = refl
retain-take (keep ∷ ds) [] = refl
retain-take (repair ∷ ds) [] = refl
retain-take (deliver ∷ ds) [] = refl
retain-take (fail_window ∷ ds) [] = refl
retain-take (fail_attempts ∷ ds) [] = refl
retain-take (keep ∷ ds) (r ∷ rs) = ap (◌∷◌ r) (retain-take ds rs)
retain-take (repair ∷ ds) (r ∷ rs) = ap (◌∷◌ (repaired r)) (retain-take ds rs)
retain-take (deliver ∷ ds) (r ∷ rs) = retain-take ds rs
retain-take (fail_window ∷ ds) (r ∷ rs) = retain-take ds rs
retain-take (fail_attempts ∷ ds) (r ∷ rs) = retain-take ds rs

emit-take :
    (d : ℕ) (ds : List Decision) (rs : List SentRecord)
    → emit d ds (take (length ds) rs) ≡ emit d ds rs
emit-take d [] rs = refl
emit-take d (keep ∷ ds) [] = refl
emit-take d (repair ∷ ds) [] = refl
emit-take d (deliver ∷ ds) [] = refl
emit-take d (fail_window ∷ ds) [] = refl
emit-take d (fail_attempts ∷ ds) [] = refl
emit-take d (keep ∷ ds) (r ∷ rs) = emit-take (suc d) ds rs
emit-take d (repair ∷ ds) (r ∷ rs) = cc (emit-take (suc d) ds rs)
emit-take d (deliver ∷ ds) (r ∷ rs) = cc (emit-take d ds rs)
emit-take d (fail_window ∷ ds) (r ∷ rs) = cc (emit-take d ds rs)
emit-take d (fail_attempts ∷ ds) (r ∷ rs) = cc (emit-take d ds rs)

-- What an accepted message does with the decisions `ds`.
pub record Handled (depth capacity now : ℕ) (w : ReliableWriter) (a : AckNack) (b : ActionBuffer)
    (ds : List Decision) (out : Outcome) : Type 0 where
  pub no_error : out.0 ≡ ReliabilityError.none
  pub decisions : decide_loop w.config a now (live w) ≡ Option.some ds
  pub history : live out.1 ≡ retain ds (live w)
  pub actions : listed out.2 ≡ listed b ++ emit 0 ds (live w)
  pub counted : out.1.last_acknack_count ≡ a.count
  pub initialized : out.1.acknack_count_initialized ≡ true
  pub last : out.1.last_sequence_number ≡ w.last_sequence_number
  pub valid : IsValid depth out.1
  pub buffer : Actions.IsValid capacity out.2

-- What a rejected message does: nothing.
pub record Rejected (w : ReliableWriter) (b : ActionBuffer) (out : Outcome) : Type 0 where
  pub error : out.0 ≢ ReliabilityError.none
  pub writer : out.1 ≡ w
  pub buffer : out.2 ≡ b

module _ {depth capacity : ℕ} (now : ℕ) {w : ReliableWriter} (a : AckNack) {b : ActionBuffer}
    (v : IsValid depth w) (vb : Actions.IsValid capacity b) where
  finish-Handled :
      (ds : List Decision)
      → decide_loop w.config a now (live w) ≡ Option.some ds
      → required_actions ds ≤ remaining capacity b
      → Handled depth capacity now w a b ds
          (finish_acknack w a (apply_loop capacity ds 0 0 w.records b))
  unfolding finish_acknack
  finish-Handled ds e room =
      let len : length ds ≡ w.size = omega (
        arith,
        length-decide_loop w.config a now (live w) ds e,
        length-take w.size w.records,
        v.storage,
        v.size_le,
      ) in
      let c =
        apply_loop-Compacted capacity ds 0 0 w.records b (omega arith)
          (omega (arith, v.storage, v.size_le)) vb (omega (arith, remaining_eq vb)) in
      let kept : retain ds (live w) ≡ retain ds w.records =
        ap (λ n. retain ds (take n w.records)) (sym len) ∙ retain-take ds w.records in
      let history = c.records ∙ sym kept in
      record {
        no_error = refl;
        decisions = e;
        history = history;
        actions =
            c.actions
            ∙ ap (◌++◌ (listed b))
                (sym (ap (λ n. emit 0 ds (take n w.records)) (sym len) ∙ emit-take 0 ds w.records));
        counted = refl;
        initialized = refl;
        last = refl;
        valid = record {
          depth_small = v.depth_small;
          storage = c.storage ∙ v.storage;
          size_le = omega (arith, c.dest_le, v.storage);
          rising = rw history (retain-Rising 0 ds (live w) v.rising);
          within = rw history (
              retain-Within w.config a now w.last_sequence_number (live w) ds v.attempts_uint8 e
                v.within);
          last_lt = v.last_lt;
          attempts_uint8 = v.attempts_uint8;
        };
        buffer = c.buffer;
      }

  -- `on_acknack` either rejects the message and changes neither the writer nor the buffer, or
  -- decides every sample of the history: the history is then what the decisions retain, in order,
  -- the buffer has one action more for each sample that is repaired, delivered or failed, in order,
  -- and both stay valid.
  pub on_acknack_lem :
      Rejected w b (on_acknack capacity w a now b)
      ⊎ ((ds : List Decision) × Handled depth capacity now w a b ds (on_acknack capacity w a now b))
  unfolding on_acknack
  on_acknack_lem =
      elim (guarded_cases {A = Outcome} (acknack_error w a) (acknack_error w a, w, b)
        (act_on capacity w a b (decide_loop w.config a now (live w)))) [
          | inr (ne, r) ↦ rw r (inl (record { error = ne; writer = refl; buffer = refl }))
          | inl (e, r) ↦ rw r (acts (decide_loop w.config a now (live w)) refl)
        ]
    where
      acts :
          (o : Option (List Decision))
          → decide_loop w.config a now (live w) ≡ o
          → Rejected w b (act_on capacity w a b o)
            ⊎ ((ds : List Decision) × Handled depth capacity now w a b ds (act_on capacity w a b o))
      acts Option.none e = inl (record { error = λ q. cc; writer = refl; buffer = refl })
      acts (Option.some ds) e =
          elim (Bool-cases (ltb (remaining capacity b) (required_actions ds))) [
            | inl full ↦ rw full (inl (record { error = λ q. cc; writer = refl; buffer = refl }))
            | inr fits ↦ rw fits (inr (ds, finish-Handled ds e (ground arith)))
          ]
