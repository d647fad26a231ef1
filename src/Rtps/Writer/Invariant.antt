-- ===== src/Rtps/Writer/Invariant.antt =====
-- The writer's history: sequence numbers rise, none passes the last one written, and no sample is
-- repaired more often than configured.
use open_rtdds.Prelude.{
  ℕ, suc, ◌≤◌, ◌<◌, ◌^◌, ◌≡◌, ap, List, [], ◌∷◌, ◌++◌, Option, arith, length, take, All,
  length-replicate, int64_max,
}
use open_rtdds.Rtps.Messages.{AckNack}
use open_rtdds.Rtps.Sent.{
  ReliableWriterConfig, SentRecord, sequence_of, Decision, keep, deliver, repair, fail_window,
  fail_attempts, decide, decide_loop,
}
use open_rtdds.Rtps.Writer.{ReliableWriter, init}
use open_rtdds.Rtps.Writer.Compact.{retain}

abbrev pub live : ReliableWriter → List SentRecord
live w = take w.size w.records

-- Sequence numbers rise strictly, from above the bound.
abbrev pub Rising : ℕ → List SentRecord → Type 0
Rising lo [] = Unit {0}
Rising lo (r ∷ rs) = (lo < sequence_of r) × Rising (sequence_of r) rs

-- At most `last`, and repaired at most `attempts` times.
abbrev pub Within : ℕ → ℕ → SentRecord → Type 0
Within last attempts r = (sequence_of r ≤ last) × (r.repair_attempts ≤ attempts)

pub record IsValid (depth : ℕ) (w : ReliableWriter) : Type 0 where
  pub depth_small : depth < 2 ^ 64
  pub storage : length w.records ≡ depth
  pub size_le : w.size ≤ depth
  pub rising : Rising 0 (live w)
  pub within : All (Within w.last_sequence_number w.config.max_repair_attempts) (live w)
  pub last_lt : w.last_sequence_number < int64_max
  pub attempts_uint8 : w.config.max_repair_attempts < 2 ^ 8

pub Rising-mono : {lo hi : ℕ} (rs : List SentRecord) → lo ≤ hi → Rising hi rs → Rising lo rs
Rising-mono [] h r = tt
Rising-mono (x ∷ rs) h r = (omega arith, r.1)

pub Rising-snoc :
    (lo last attempts : ℕ) (rs : List SentRecord) (r : SentRecord)
    → Rising lo rs
    → All (Within last attempts) rs
    → lo < sequence_of r
    → last < sequence_of r
    → Rising lo (rs ++ r ∷ [])
Rising-snoc lo last attempts [] r up all h k = (h, tt)
Rising-snoc lo last attempts (x ∷ rs) r up all h k =
    (up.0, Rising-snoc (sequence_of x) last attempts rs r up.1 all.1 (omega (arith, all.0.0)) k)

pub Within-mono :
    (last next attempts : ℕ) (rs : List SentRecord)
    → last ≤ next
    → All (Within last attempts) rs
    → All (Within next attempts) rs
Within-mono last next attempts [] h a = tt
Within-mono last next attempts (r ∷ rs) h a =
    ((omega (arith, a.0.0), a.0.1), Within-mono last next attempts rs h a.1)

pub retain-Rising :
    (lo : ℕ) (ds : List Decision) (rs : List SentRecord) → Rising lo rs → Rising lo (retain ds rs)
retain-Rising lo [] rs up = tt
retain-Rising lo (keep ∷ ds) [] up = tt
retain-Rising lo (repair ∷ ds) [] up = tt
retain-Rising lo (deliver ∷ ds) [] up = tt
retain-Rising lo (fail_window ∷ ds) [] up = tt
retain-Rising lo (fail_attempts ∷ ds) [] up = tt
retain-Rising lo (keep ∷ ds) (r ∷ rs) up = (up.0, retain-Rising (sequence_of r) ds rs up.1)
retain-Rising lo (repair ∷ ds) (r ∷ rs) up = (up.0, retain-Rising (sequence_of r) ds rs up.1)
retain-Rising lo (deliver ∷ ds) (r ∷ rs) up =
    retain-Rising lo ds rs (Rising-mono rs (omega (arith, up.0)) up.1)
retain-Rising lo (fail_window ∷ ds) (r ∷ rs) up =
    retain-Rising lo ds rs (Rising-mono rs (omega (arith, up.0)) up.1)
retain-Rising lo (fail_attempts ∷ ds) (r ∷ rs) up =
    retain-Rising lo ds rs (Rising-mono rs (omega (arith, up.0)) up.1)

-- A record is repaired only below the bound on attempts.
pub decide-repair :
    (config : ReliableWriterConfig) (acknack : AckNack) (now : ℕ) (r : SentRecord)
    → decide config acknack now r ≡ Option.some repair
    → r.repair_attempts < config.max_repair_attempts
unfolding decide
decide-repair config acknack now r e = ground arith

pub decide_loop_cons :
    (config : ReliableWriterConfig) (acknack : AckNack) (now : ℕ) (r : SentRecord)
    (rs : List SentRecord) (d : Decision) (ds : List Decision)
    → decide_loop config acknack now (r ∷ rs) ≡ Option.some (d ∷ ds)
    → (decide config acknack now r ≡ Option.some d)
      × (decide_loop config acknack now rs ≡ Option.some ds)
unfolding decide_loop
decide_loop_cons config acknack now r rs d ds e = (ground arith, ground arith)

pub length-decide_loop :
    (config : ReliableWriterConfig) (acknack : AckNack) (now : ℕ) (rs : List SentRecord)
    (ds : List Decision)
    → decide_loop config acknack now rs ≡ Option.some ds
    → length ds ≡ length rs
unfolding decide_loop
length-decide_loop config acknack now [] ds e = ground arith
length-decide_loop config acknack now (r ∷ rs) [] e = ground arith
length-decide_loop config acknack now (r ∷ rs) (d ∷ ds) e =
    ap suc (length-decide_loop config acknack now rs ds (ground arith))

pub retain-Within :
    (config : ReliableWriterConfig) (acknack : AckNack) (now last : ℕ) (rs : List SentRecord)
    (ds : List Decision)
    → config.max_repair_attempts < 2 ^ 8
    → decide_loop config acknack now rs ≡ Option.some ds
    → All (Within last config.max_repair_attempts) rs
    → All (Within last config.max_repair_attempts) (retain ds rs)
retain-Within config acknack now last [] [] small e all = tt
retain-Within config acknack now last [] (keep ∷ ds) small e all = tt
retain-Within config acknack now last [] (repair ∷ ds) small e all = tt
retain-Within config acknack now last [] (deliver ∷ ds) small e all = tt
retain-Within config acknack now last [] (fail_window ∷ ds) small e all = tt
retain-Within config acknack now last [] (fail_attempts ∷ ds) small e all = tt
retain-Within config acknack now last (r ∷ rs) [] small e all = tt
retain-Within config acknack now last (r ∷ rs) (keep ∷ ds) small e all = (
  all.0,
  retain-Within config acknack now last rs ds small
      (decide_loop_cons config acknack now r rs keep ds e).1 all.1,
)
retain-Within config acknack now last (r ∷ rs) (repair ∷ ds) small e all =
    let (this, rest) = decide_loop_cons config acknack now r rs repair ds e in
    (
      (all.0.0, omega (arith, decide-repair config acknack now r this)),
      retain-Within config acknack now last rs ds small rest all.1,
    )
retain-Within config acknack now last (r ∷ rs) (deliver ∷ ds) small e all =
    retain-Within config acknack now last rs ds small
      (decide_loop_cons config acknack now r rs deliver ds e).1 all.1
retain-Within config acknack now last (r ∷ rs) (fail_window ∷ ds) small e all =
    retain-Within config acknack now last rs ds small
      (decide_loop_cons config acknack now r rs fail_window ds e).1 all.1
retain-Within config acknack now last (r ∷ rs) (fail_attempts ∷ ds) small e all =
    retain-Within config acknack now last rs ds small
      (decide_loop_cons config acknack now r rs fail_attempts ds e).1 all.1

pub init-IsValid :
    (depth max : ℕ) (config : ReliableWriterConfig)
    → depth < 2 ^ 64
    → config.max_repair_attempts < 2 ^ 8
    → IsValid depth (init depth max config)
unfolding init
init-IsValid depth max config h k = record {
  depth_small = h;
  storage = length-replicate depth _;
  size_le = omega arith;
  rising = tt;
  within = tt;
  last_lt = omega arith;
  attempts_uint8 = k;
}
