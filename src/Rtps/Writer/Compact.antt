-- ===== src/Rtps/Writer/Compact.antt =====
-- The in-place compaction of the writer's records, against its description on lists.
use open_rtdds.Prelude.{
  ℕ, suc, ◌+◌, ◌≤◌, ◌<◌, ◌≡◌, refl, sym, ap, ◌∙◌, List, [], ◌∷◌, ◌++◌, arith, length, get_or, set,
  take, drop, length-set, get_or-set_self, take-set_end, take-set_ge, drop-set_lt, drop-cons,
  take-snoc, append_assoc, append-nil,
}
use open_rtdds.Rtps.Actions.{
  ReliabilityAction, ActionBuffer, RepairFailure, listed, push, push_lem, push-IsValid,
}
use open_rtdds.Rtps.Actions
use open_rtdds.Rtps.Sent.{
  SentRecord, sequence_of, blank, Decision, keep, deliver, repair, fail_window, fail_attempts,
  repaired, moved, required_actions,
}
use open_rtdds.Rtps.Sent.{retransmit_action, delivered_action, failed_action}
use open_rtdds.Rtps.Writer.{apply_loop}

-- The records that the decisions leave, in order.
abbrev pub retain : List Decision → List SentRecord → List SentRecord
retain [] rs = []
retain (d ∷ ds) [] = []
retain (keep ∷ ds) (r ∷ rs) = r ∷ retain ds rs
retain (repair ∷ ds) (r ∷ rs) = repaired r ∷ retain ds rs
retain (deliver ∷ ds) (r ∷ rs) = retain ds rs
retain (fail_window ∷ ds) (r ∷ rs) = retain ds rs
retain (fail_attempts ∷ ds) (r ∷ rs) = retain ds rs

-- The actions that the decisions call for, in order; `slot` is where the next retained record goes.
abbrev pub emit : ℕ → List Decision → List SentRecord → List ReliabilityAction
emit slot [] rs = []
emit slot (d ∷ ds) [] = []
emit slot (keep ∷ ds) (r ∷ rs) = emit (suc slot) ds rs
emit slot (repair ∷ ds) (r ∷ rs) =
    retransmit_action (sequence_of r) slot r.sample.size ∷ emit (suc slot) ds rs
emit slot (deliver ∷ ds) (r ∷ rs) = delivered_action (sequence_of r) ∷ emit slot ds rs
emit slot (fail_window ∷ ds) (r ∷ rs) =
    failed_action (sequence_of r) RepairFailure.repair_window_expired ∷ emit slot ds rs
emit slot (fail_attempts ∷ ds) (r ∷ rs) =
    failed_action (sequence_of r) RepairFailure.repair_limit_exceeded ∷ emit slot ds rs

module _ (rs : List SentRecord) (i d : ℕ) (le : d ≤ i) (lt : i < length rs) where
  pub length-moved : length (moved rs i d) ≡ length rs
  length-moved = ground (arith, length-set rs d (get_or rs i blank))

  pub get_or-moved : get_or (moved rs i d) d blank ≡ get_or rs i blank
  get_or-moved = ground (arith, get_or-set_self rs d (get_or rs i blank) blank)

  pub take-moved : take (suc d) (moved rs i d) ≡ take d rs ++ get_or rs i blank ∷ []
  take-moved = ground (arith, take-set_end rs d (get_or rs i blank), take-snoc rs d blank)

  pub drop-moved : drop (suc i) (moved rs i d) ≡ drop (suc i) rs
  drop-moved = ground (arith, drop-set_lt rs (suc i) d (get_or rs i blank))

  take-moved-set : (x : SentRecord) → take (suc d) (set (moved rs i d) d x) ≡ take d rs ++ x ∷ []
  take-moved-set x =
      take-set_end (moved rs i d) d x (omega (arith, length-moved))
      ∙ ap (λ t. t ++ x ∷ []) (ground (arith, take-set_ge rs d d (get_or rs i blank)))

  drop-moved-set : (x : SentRecord) → drop (suc i) (set (moved rs i d) d x) ≡ drop (suc i) rs
  drop-moved-set x = drop-set_lt (moved rs i d) (suc i) d x (omega arith) ∙ drop-moved

-- What the loop leaves: a prefix of `dest` records, an array of the same size, and a buffer.
pub record Compacted (capacity n : ℕ) (kept : List SentRecord) (made : List ReliabilityAction)
    (out : ℕ × List SentRecord × ActionBuffer) : Type 0 where
  pub records : take out.0 out.1 ≡ kept
  pub storage : length out.1 ≡ n
  pub dest_le : out.0 ≤ n
  pub actions : listed out.2 ≡ made
  pub buffer : Actions.IsValid capacity out.2

pub recast :
    {capacity m n : ℕ} {ks ls : List SentRecord} {made more : List ReliabilityAction}
    {out : ℕ × List SentRecord × ActionBuffer}
    → m ≡ n
    → ks ≡ ls
    → made ≡ more
    → Compacted capacity m ks made out
    → Compacted capacity n ls more out
recast e f g c = record {
  records = c.records ∙ f;
  storage = c.storage ∙ e;
  dest_le = omega (arith, c.dest_le);
  actions = c.actions ∙ g;
  buffer = c.buffer;
}

-- One more action in front of those of the rest of the loop.
pub listed-push :
    {capacity : ℕ} {b : ActionBuffer} (a : ReliabilityAction) (more : List ReliabilityAction)
    → Actions.IsValid capacity b
    → b.size < capacity
    → listed (push capacity b a).1 ++ more ≡ listed b ++ a ∷ more
listed-push {capacity} {b} a more v h =
    ap (λ t. t ++ more) (push_lem a v h).1 ∙ append_assoc (listed b) (a ∷ []) more

pub apply_loop-Compacted :
    (capacity : ℕ) (ds : List Decision) (i d : ℕ) (rs : List SentRecord) (b : ActionBuffer)
    → d ≤ i
    → i + length ds ≤ length rs
    → Actions.IsValid capacity b
    → b.size + required_actions ds ≤ capacity
    → Compacted capacity
        (length rs)
        (take d rs ++ retain ds (drop i rs))
        (listed b ++ emit d ds (drop i rs))
        (apply_loop capacity ds i d rs b)
unfolding apply_loop
apply_loop-Compacted capacity [] i d rs b le fits v room = record {
  records = sym (append-nil _);
  storage = refl;
  dest_le = omega arith;
  actions = sym (append-nil _);
  buffer = v;
}
apply_loop-Compacted capacity (keep ∷ ds) i d rs b le fits v room =
    let lt : i < length rs = omega arith in
    let m : List SentRecord = moved rs i d in
    let same : length m ≡ length rs = length-moved rs i d le lt in
    recast same
      (rw (drop-cons rs i blank lt, take-moved rs i d le lt, drop-moved rs i d le lt)
        (append_assoc (take d rs) (get_or rs i blank ∷ []) _))
      (rw (drop-cons rs i blank lt, drop-moved rs i d le lt))
      (apply_loop-Compacted capacity ds (suc i) (suc d) m b (omega arith) (omega (arith, same)) v
        (omega arith))
apply_loop-Compacted capacity (repair ∷ ds) i d rs b le fits v room =
    let lt : i < length rs = omega arith in
    let x : SentRecord = repaired (get_or (moved rs i d) d blank) in
    let m : List SentRecord = set (moved rs i d) d x in
    let a : ReliabilityAction =
      retransmit_action (sequence_of (get_or rs i blank)) d x.sample.size in
    let same : length m ≡ length rs = length-set (moved rs i d) d x ∙ length-moved rs i d le lt in
    recast same
      (rw
        (
          drop-cons rs i blank lt,
          take-moved-set rs i d le lt x,
          drop-moved-set rs i d le lt x,
          get_or-moved rs i d le lt,
        )
        (append_assoc (take d rs) (repaired (get_or rs i blank) ∷ []) _))
      (rw (drop-moved-set rs i d le lt x)
        (listed-push a _ v (omega arith) ∙ rw (drop-cons rs i blank lt, get_or-moved rs i d le lt)))
      (apply_loop-Compacted capacity ds (suc i) (suc d) m (push capacity b a).1 (omega arith)
        (omega (arith, same)) (push-IsValid a v) (omega (arith, push_lem a v (omega arith))))
apply_loop-Compacted capacity (deliver ∷ ds) i d rs b le fits v room =
    let a : ReliabilityAction = delivered_action (sequence_of (get_or rs i blank)) in
    rw (drop-cons rs i blank (omega arith)) (
      recast refl refl (listed-push a (emit d ds (drop (suc i) rs)) v (omega arith)) (
        apply_loop-Compacted capacity ds (suc i) d rs (push capacity b a).1 (omega arith)
          (omega arith) (push-IsValid a v) (omega (arith, push_lem a v (omega arith)))))
apply_loop-Compacted capacity (fail_window ∷ ds) i d rs b le fits v room =
    let a : ReliabilityAction =
      failed_action (sequence_of (get_or rs i blank)) RepairFailure.repair_window_expired in
    rw (drop-cons rs i blank (omega arith)) (
      recast refl refl (listed-push a (emit d ds (drop (suc i) rs)) v (omega arith)) (
        apply_loop-Compacted capacity ds (suc i) d rs (push capacity b a).1 (omega arith)
          (omega arith) (push-IsValid a v) (omega (arith, push_lem a v (omega arith)))))
apply_loop-Compacted capacity (fail_attempts ∷ ds) i d rs b le fits v room =
    let a : ReliabilityAction =
      failed_action (sequence_of (get_or rs i blank)) RepairFailure.repair_limit_exceeded in
    rw (drop-cons rs i blank (omega arith)) (
      recast refl refl (listed-push a (emit d ds (drop (suc i) rs)) v (omega arith)) (
        apply_loop-Compacted capacity ds (suc i) d rs (push capacity b a).1 (omega arith)
          (omega arith) (push-IsValid a v) (omega (arith, push_lem a v (omega arith)))))
