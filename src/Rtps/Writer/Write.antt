-- ===== src/Rtps/Writer/Write.antt =====
-- ReliableWriter::write: what is refused, and what an accepted sample adds.
use open_rtdds.Prelude.{
  ℕ, suc, ◌≤◌, ◌<◌, ◌≡◌, ◌≢◌, ◌⊎◌, refl, ap, ◌∙◌, [], ◌∷◌, ◌++◌, arith, get_or, set, take,
  length-set, take-set_end, All-append, int64_max, add64, true, false, inl, inr, BytePointer, ◌↔◌,
}
use open_rtdds.Core.History.{HistoryError, SampleMetadata, BoundedSample, assign}
use open_rtdds.Rtps.Actions
use open_rtdds.Rtps.Actions.{
  ReliabilityAction, ReliabilityError, ActionBuffer, guarded_cases, push_lem,
}
use open_rtdds.Rtps.Sent.{SentRecord, blank}
use open_rtdds.Rtps.Writer.{ReliableWriter, write, append_record}
use open_rtdds.Rtps.Writer.Invariant.{live, Within, IsValid, Rising-snoc, Within-mono}
use open_rtdds.Core.History.{is_null}
use open_rtdds.Rtps.Sent.{send_action}
use open_rtdds.Rtps.Writer.{write_error, Outcome}

-- The record that `write` appends.
abbrev pub fresh_record : BoundedSample → ℕ → SentRecord
fresh_record sample now = record { sample = sample; first_send_ns = now; repair_attempts = 0 }

-- The array after an accepted write.
live-append :
    (depth : ℕ) (w : ReliableWriter) (r : SentRecord)
    → IsValid depth w
    → w.size ≢ depth
    → take (add64 w.size 1) (set w.records w.size r) ≡ live w ++ r ∷ []
live-append depth w r v ne =
    ap (λ n. take n (set w.records w.size r)) {y = suc w.size} (omega arith)
    ∙ take-set_end w.records w.size r (omega arith)

append_record-IsValid :
    (capacity depth : ℕ) (w : ReliableWriter) (b : ActionBuffer) (s now : ℕ)
    (r : HistoryError × BoundedSample)
    → IsValid depth w
    → (r.0 ≡ HistoryError.none → r.1.metadata.sequence_number ≡ s)
    → w.size ≢ depth
    → w.last_sequence_number < s
    → s < int64_max
    → IsValid depth (append_record capacity w b s now r).1
unfolding append_record
append_record-IsValid capacity depth w b s now (HistoryError.invalid_argument, x) v m ne lt h = v
append_record-IsValid capacity depth w b s now (HistoryError.payload_too_large, x) v m ne lt h = v
append_record-IsValid capacity depth w b s now (HistoryError.none, x) v m ne lt h = record {
  depth_small = v.depth_small;
  storage = length-set w.records w.size (fresh_record x now) ∙ v.storage;
  size_le = omega arith;
  rising = rw (live-append depth w (fresh_record x now) v ne) (
      Rising-snoc 0 w.last_sequence_number w.config.max_repair_attempts (live w)
        (fresh_record x now) v.rising v.within (omega (arith, m refl)) (omega (arith, m refl)));
  within = rw (live-append depth w (fresh_record x now) v ne) (
      All-append (Within s w.config.max_repair_attempts) (live w) (fresh_record x now ∷ [])
        (Within-mono w.last_sequence_number s w.config.max_repair_attempts (live w) (omega arith)
          v.within)
        ((omega (arith, m refl), omega arith), tt));
  last_lt = h;
  attempts_uint8 = v.attempts_uint8;
}

assign-metadata :
    (max : ℕ) (x : BoundedSample) (p : BytePointer) (n : ℕ) (m : SampleMetadata)
    → (assign max x p n m).0 ≡ HistoryError.none
    → (assign max x p n m).1.metadata.sequence_number ≡ m.sequence_number
unfolding assign
assign-metadata max x p n m e = ground arith

-- The conditions under which `write` accepts a sample.
pub record Accepts (capacity depth max : ℕ) (w : ReliableWriter) (p : BytePointer) (n s : ℕ)
    (b : ActionBuffer) : Type 0 where
  pub configured : w.valid ≡ true
  pub readable : (is_null p ≡ false) ⊎ (n ≡ 0)
  pub payload_fits : n ≤ max
  pub sequence_pos : 0 < s
  pub sequence_lt : s < int64_max
  pub newer : w.last_sequence_number < s
  pub history_room : w.size ≢ depth
  pub action_room : b.size < capacity

-- What an accepted sample adds.
append_record_lem :
    {capacity depth : ℕ} {w : ReliableWriter} {b : ActionBuffer} (s now : ℕ) (x : BoundedSample)
    → IsValid depth w
    → Actions.IsValid capacity b
    → w.size ≢ depth
    → b.size < capacity
    → let (e, w', b') = append_record capacity w b s now (HistoryError.none, x) in
      (e ≡ ReliabilityError.none)
      × (live w' ≡ live w ++ fresh_record x now ∷ [])
      × (w'.last_sequence_number ≡ s)
      × (Actions.listed b' ≡ Actions.listed b ++ send_action s w.size x.size ∷ [])
unfolding append_record
append_record_lem {capacity} {depth} {w} {b} s now x v vb ne room = (
  refl,
  live-append depth w (fresh_record x now) v ne,
  refl,
  (push_lem (send_action s w.size x.size) vb room).1,
)

-- `assign` cannot fail after the tests of `write`.
pub assign_ok :
    (max : ℕ) (x : BoundedSample) (p : BytePointer) (n : ℕ) (m : SampleMetadata)
    → (is_null p ≡ false) ⊎ (n ≡ 0)
    → n ≤ max
    → ((assign max x p n m).0 ≡ HistoryError.none) × ((assign max x p n m).1.size ≡ n)
unfolding assign
assign_ok max x p n m r h = ground arith

-- The tests pass exactly on `Accepts`.
write_error-Accepts :
    {capacity depth max : ℕ} {w : ReliableWriter} (p : BytePointer) (n s : ℕ) {b : ActionBuffer}
    → Actions.IsValid capacity b
    → (write_error capacity depth max w p n s b ≡ ReliabilityError.none)
      ↔ Accepts capacity depth max w p n s b
unfolding write_error
write_error-Accepts p n s vb = (λ h. ground arith, λ h. ground arith)

-- `write` keeps the history in order, below the last number written, and within its depth.
pub write-IsValid :
    {capacity depth : ℕ} (max : ℕ) {w : ReliableWriter} (p : BytePointer) (n s now : ℕ)
    {b : ActionBuffer}
    → IsValid depth w
    → Actions.IsValid capacity b
    → IsValid depth (write capacity depth max w p n s now b).1
unfolding write
write-IsValid {capacity} {depth} max {w} p n s now {b} v vb =
    let m : SampleMetadata = record { sequence_number = s; source_timestamp_ns = now } in
    let x : BoundedSample = (get_or w.records w.size blank).sample in
    elim (guarded_cases {A = Outcome} (write_error capacity depth max w p n s b)
      (write_error capacity depth max w p n s b, w, b)
      (append_record capacity w b s now (assign max x p n m))) [
        | inl (e, r) ↦
            let a = (write_error-Accepts p n s vb).0 e in
            rw r (
              append_record-IsValid capacity depth w b s now (assign max x p n m) v
                (assign-metadata max x p n m) a.history_room a.newer a.sequence_lt)
        | inr (e, r) ↦ rw r v
      ]

-- What a call does on each branch.
write_effects :
    {capacity depth max : ℕ} {w : ReliableWriter} (p : BytePointer) (n s now : ℕ) {b : ActionBuffer}
    → IsValid depth w
    → Actions.IsValid capacity b
    → let (e, w', b') = write capacity depth max w p n s now b in
      ((e ≡ ReliabilityError.none) ↔ Accepts capacity depth max w p n s b)
      × (e ≢ ReliabilityError.none → (w' ≡ w) × (b' ≡ b))
      × (e ≡ ReliabilityError.none
          → (x : BoundedSample) × (assign max
                (get_or w.records w.size blank).sample
                p
                n
                (record { sequence_number = s; source_timestamp_ns = now })
              ≡ (HistoryError.none, x))
            × (live w' ≡ live w ++ fresh_record x now ∷ [])
            × (w'.last_sequence_number ≡ s)
            × (Actions.listed b' ≡ Actions.listed b ++ send_action s w.size n ∷ []))
unfolding write
write_effects {capacity} {depth} {max} {w} p n s now {b} v vb =
    let m : SampleMetadata = record { sequence_number = s; source_timestamp_ns = now } in
    let x : BoundedSample = (get_or w.records w.size blank).sample in
    elim (guarded_cases {A = Outcome} (write_error capacity depth max w p n s b)
      (write_error capacity depth max w p n s b, w, b)
      (append_record capacity w b s now (assign max x p n m))) [
        | inl (e, r) ↦
            let a = (write_error-Accepts p n s vb).0 e in
            let (filled, size) = assign_ok max x p n m a.readable a.payload_fits in
            let y : BoundedSample = (assign max x p n m).1 in
            let eq : assign max x p n m ≡ (HistoryError.none, y) = ground arith in
            let (ok, grown, last, sent) =
              append_record_lem s now y v vb a.history_room a.action_room in
            rw (r, eq)
              (
                (λ q. a, λ q. ok),
                (λ q. absurd (q ok)),
                λ q. (
                  y,
                  refl,
                  grown,
                  last,
                  sent ∙ ap (λ k. Actions.listed b ++ send_action s w.size k ∷ []) size,
                ),
              )
        | inr (e, r) ↦ rw r (
          (λ q. absurd (e q), λ a. absurd (e ((write_error-Accepts p n s vb).1 a))),
          (λ q. (refl, refl)),
          λ q. absurd (e q),
        )
      ]

-- `write` accepts a sample exactly when `Accepts` holds, and changes neither the writer nor the
-- buffer when it refuses one. Accepted, the sample goes to the end of the history with the payload,
-- the number and the time given, its number becomes the last one written, and the one action asks
-- to send that record. The history stays in order, below the last number written, and within its
-- depth.
pub write_lem :
    {capacity depth max : ℕ} {w : ReliableWriter} (p : BytePointer) (n s now : ℕ) {b : ActionBuffer}
    → IsValid depth w
    → Actions.IsValid capacity b
    → let (e, w', b') = write capacity depth max w p n s now b in
      ((e ≡ ReliabilityError.none) ↔ Accepts capacity depth max w p n s b)
      × (e ≢ ReliabilityError.none → (w' ≡ w) × (b' ≡ b))
      × (e ≡ ReliabilityError.none
          → (x : BoundedSample) × (assign max
                (get_or w.records w.size blank).sample
                p
                n
                (record { sequence_number = s; source_timestamp_ns = now })
              ≡ (HistoryError.none, x))
            × (live w' ≡ live w ++ fresh_record x now ∷ [])
            × (w'.last_sequence_number ≡ s)
            × (Actions.listed b' ≡ Actions.listed b ++ send_action s w.size n ∷ []))
      × IsValid depth w'
write_lem {capacity} {depth} {max} p n s now v vb =
    let (accepts, refuses, adds) = write_effects p n s now v vb in
    (accepts, refuses, adds, write-IsValid max p n s now v vb)
