-- ===== src/Rtps/Writer/Timer.antt =====
-- ReliableWriter::on_timer: the samples whose repair window has passed fail, the others stay.
use open_rtdds.Prelude.{
  ℕ, zero, suc, ◌+◌, ◌-◌, ◌≤◌, ◌<◌, ◌≡◌, ◌⊎◌, refl, sym, ◌∙◌, List, [], ◌∷◌, ◌++◌, Option, arith,
  length, take, drop, All, get_or, ltb, leb, inl, inr, Bool, Bool-cases, Option-cases,
  if◌then◌else◌, drop-cons, append-nil, append_assoc,
}
use open_rtdds.Rtps.Actions
use open_rtdds.Rtps.Actions.{
  ReliabilityError, ReliabilityAction, RepairFailure, ActionBuffer, listed, remaining, remaining_eq,
  push, push-IsValid, push_lem,
}
use open_rtdds.Rtps.Sent.{SentRecord, sequence_of, blank, moved, count_expired}
use open_rtdds.Rtps.Sent.{failed_action}
use open_rtdds.Rtps.Writer.{ReliableWriter, Outcome, expire_loop, finish_timer, expire, on_timer}
use open_rtdds.Rtps.Writer.Compact.{
  Compacted, recast, listed-push, length-moved, take-moved, drop-moved,
}
use open_rtdds.Rtps.Writer.Invariant.{live, IsValid, Rising, Rising-mono, Within}
use open_rtdds.Rtps.Writer.Acknack.{Rejected}

abbrev pub is_expired : ℕ → ℕ → SentRecord → Bool
is_expired window now r = leb window (now - r.first_send_ns)

-- The records that stay.
abbrev pub survivors : ℕ → ℕ → List SentRecord → List SentRecord
survivors window now [] = []
survivors window now (r ∷ rs) =
    let rest = survivors window now rs in if is_expired window now r then rest else r ∷ rest

-- The actions for those that go.
abbrev pub failures : ℕ → ℕ → List SentRecord → List ReliabilityAction
failures window now [] = []
failures window now (r ∷ rs) =
    let rest = failures window now rs in
    if is_expired window now r
    then failed_action (sequence_of r) RepairFailure.repair_window_expired ∷ rest
    else rest

count_expired_lem :
    (window now : ℕ) (rs : List SentRecord) (n : ℕ)
    → count_expired window now rs ≡ Option.some n
    → (n ≡ length (failures window now rs)) × All (λ r. r.first_send_ns ≤ now) rs
unfolding count_expired
count_expired_lem window now [] n e = ground arith
count_expired_lem window now (r ∷ rs) n e = elim (Option-cases (count_expired window now rs)) [
  | inl q ↦ ground arith
  | inr (m, q) ↦
      let (ih, all) = count_expired_lem window now rs m q in (ground arith, (ground arith, all))
]

expire_loop-Compacted :
    (capacity window now rounds i d : ℕ) (rs : List SentRecord) (b : ActionBuffer)
    → d ≤ i
    → i + rounds ≤ length rs
    → Actions.IsValid capacity b
    → b.size + length (failures window now (take rounds (drop i rs))) ≤ capacity
    → Compacted capacity
        (length rs)
        (take d rs ++ survivors window now (take rounds (drop i rs)))
        (listed b ++ failures window now (take rounds (drop i rs)))
        (expire_loop capacity window now rounds i d rs b)
unfolding expire_loop
expire_loop-Compacted capacity window now zero i d rs b le fits v room = record {
  records = sym (append-nil _);
  storage = refl;
  dest_le = omega arith;
  actions = sym (append-nil _);
  buffer = v;
}
expire_loop-Compacted capacity window now (suc rounds) i d rs b le fits v room =
    let lt : i < length rs = omega arith in
    let r : SentRecord = get_or rs i blank in
    let split : drop i rs ≡ r ∷ drop (suc i) rs = drop-cons rs i blank lt in
    elim (Bool-cases (is_expired window now r)) [
      | inl gone ↦
          let a : ReliabilityAction =
            failed_action (sequence_of r) RepairFailure.repair_window_expired in
          let room' : b.size + suc (length (failures window now (take rounds (drop (suc i) rs))))
              ≤ capacity =
            rw (split, gone) at room in
          rw (split, gone)
            (recast refl refl
              (listed-push a (failures window now (take rounds (drop (suc i) rs))) v (omega arith))
              (expire_loop-Compacted capacity window now rounds (suc i) d rs (push capacity b a).1
                (omega arith) (omega arith) (push-IsValid a v)
                (omega (arith, push_lem a v (omega arith)))))
      | inr stays ↦
          let m : List SentRecord = moved rs i d in
          let same : length m ≡ length rs = length-moved rs i d le lt in
          let tail : drop (suc i) m ≡ drop (suc i) rs = drop-moved rs i d le lt in
          let room' : b.size + length (failures window now (take rounds (drop (suc i) rs)))
              ≤ capacity =
            rw (split, stays) at room in
          rw (split, stays)
            (recast same (rw (take-moved rs i d le lt, tail) (append_assoc (take d rs) (r ∷ []) _))
              (rw tail)
              (expire_loop-Compacted capacity window now rounds (suc i) (suc d) m b (omega arith)
                (omega (arith, same)) v (rw tail room')))
    ]

survivors-Rising :
    (window now lo : ℕ) (rs : List SentRecord) → Rising lo rs → Rising lo (survivors window now rs)
survivors-Rising window now lo [] up = tt
survivors-Rising window now lo (r ∷ rs) up = elim (Bool-cases (is_expired window now r)) [
  | inl gone ↦
      rw gone (survivors-Rising window now lo rs (Rising-mono rs (omega (arith, up.0)) up.1))
  | inr stays ↦ rw stays (up.0, survivors-Rising window now (sequence_of r) rs up.1)
]

survivors-All :
    (P : SentRecord → Type 0) (window now : ℕ) (rs : List SentRecord)
    → All P rs
    → All P (survivors window now rs)
survivors-All P window now [] all = tt
survivors-All P window now (r ∷ rs) all = elim (Bool-cases (is_expired window now r)) [
  | inl gone ↦ rw gone (survivors-All P window now rs all.1)
  | inr stays ↦ rw stays (all.0, survivors-All P window now rs all.1)
]

-- What a successful `on_timer` does.
pub record Expired (depth capacity now : ℕ) (w : ReliableWriter) (b : ActionBuffer) (out : Outcome)
    : Type 0 where
  pub no_error : out.0 ≡ ReliabilityError.none
  pub clock : All (λ r. r.first_send_ns ≤ now) (live w)
  pub history : live out.1 ≡ survivors w.config.repair_window_ns now (live w)
  pub actions : listed out.2 ≡ listed b ++ failures w.config.repair_window_ns now (live w)
  pub last : out.1.last_sequence_number ≡ w.last_sequence_number
  pub valid : IsValid depth out.1
  pub buffer : Actions.IsValid capacity out.2

module _ {depth capacity : ℕ} (now : ℕ) {w : ReliableWriter} {b : ActionBuffer}
    (v : IsValid depth w) (vb : Actions.IsValid capacity b) where
  finish-Expired :
      (n : ℕ)
      → count_expired w.config.repair_window_ns now (live w) ≡ Option.some n
      → n ≤ remaining capacity b
      → Expired depth capacity now w b (
          finish_timer w
            (expire_loop capacity w.config.repair_window_ns now w.size 0 0 w.records b))
  unfolding finish_timer
  finish-Expired n e room =
      let window : ℕ = w.config.repair_window_ns in
      let (count, clock) = count_expired_lem window now (live w) n e in
      let c =
        expire_loop-Compacted capacity window now w.size 0 0 w.records b (omega arith)
          (omega (arith, v.storage, v.size_le)) vb (omega (arith, remaining_eq vb)) in
      record {
        no_error = refl;
        clock = clock;
        history = c.records;
        actions = c.actions;
        last = refl;
        valid = record {
          depth_small = v.depth_small;
          storage = c.storage ∙ v.storage;
          size_le = omega (arith, c.dest_le, v.storage);
          rising = rw c.records (survivors-Rising window now 0 (live w) v.rising);
          within = rw c.records (
              survivors-All (Within w.last_sequence_number w.config.max_repair_attempts) window now
                (live w) v.within);
          last_lt = v.last_lt;
          attempts_uint8 = v.attempts_uint8;
        };
        buffer = c.buffer;
      }

  -- `on_timer` either fails and changes neither the writer nor the buffer, or takes exactly the
  -- samples out of the history whose repair window has passed, with one failure action for each, in
  -- order, and both stay valid.
  pub on_timer_lem :
      Rejected w b (on_timer capacity w now b)
      ⊎ Expired depth capacity now w b (on_timer capacity w now b)
  unfolding on_timer expire
  on_timer_lem = elim (Bool-cases w.valid) [
    | inr bad ↦ simp bad (inl (record { error = λ q. cc; writer = refl; buffer = refl }))
    | inl good ↦ simp good (acts (count_expired w.config.repair_window_ns now (live w)) refl)
  ]
    where
      acts :
          (o : Option ℕ)
          → count_expired w.config.repair_window_ns now (live w) ≡ o
          → Rejected w b (expire capacity w now b o)
            ⊎ Expired depth capacity now w b (expire capacity w now b o)
      acts Option.none e = inl (record { error = λ q. cc; writer = refl; buffer = refl })
      acts (Option.some n) e = elim (Bool-cases (ltb (remaining capacity b) n)) [
        | inl full ↦ rw full (inl (record { error = λ q. cc; writer = refl; buffer = refl }))
        | inr fits ↦ rw fits (inr (finish-Expired n e (ground arith)))
      ]
