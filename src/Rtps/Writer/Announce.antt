-- ===== src/Rtps/Writer/Announce.antt =====
-- ReliableWriter::fill_heartbeat: the range that it announces is the range of the history.
use open_rtdds.Prelude.{
  ℕ, suc, ◌≤◌, ◌<◌, ◌≡◌, ◌≢◌, refl, true, false, List, [], ◌∷◌, arith, All, get_or, take, zero,
  length, ℕ_discrete, subst, sym,
}
use open_rtdds.Rtps.Actions.{ReliabilityError}
use open_rtdds.Rtps.ControlCount.{next_control_count}
use open_rtdds.Rtps.Messages.{Heartbeat}
use open_rtdds.Rtps.Reader.{valid_heartbeat_range}
use open_rtdds.Rtps.Sent.{SentRecord, sequence_of, blank}
use open_rtdds.Rtps.Writer.{ReliableWriter, fill_heartbeat}
use open_rtdds.Rtps.Writer.Invariant.{IsValid, live, Rising, Within, Rising-mono}

-- The numbers of a rising history lie between its first and its last.
abbrev pub Between : ℕ → ℕ → SentRecord → Type 0
Between first last x = (first ≤ sequence_of x) × (sequence_of x ≤ last)

Rising-All :
    (lo last attempts : ℕ) (rs : List SentRecord)
    → Rising lo rs
    → All (Within last attempts) rs
    → All (Between (suc lo) last) rs
Rising-All lo last attempts [] up all = tt
Rising-All lo last attempts (x ∷ rs) up all = (
  (omega (arith, up.0), all.0.0),
  Rising-All lo last attempts rs (Rising-mono rs (omega (arith, up.0)) up.1) all.1,
)

-- What a filled heartbeat says.
pub record Announces (w : ReliableWriter) (given h : Heartbeat) : Type 0 where
  pub range : valid_heartbeat_range h ≡ true
  pub last : h.last_sequence_number ≡ w.last_sequence_number
  pub covers : All (Between h.first_sequence_number h.last_sequence_number) (live w)
  pub reader_id : h.reader_id ≡ w.config.reader_id
  pub writer_id : h.writer_id ≡ w.config.writer_id
  pub count : h.count ≡ next_control_count w.heartbeat_count
  pub header : h.header ≡ given.header
  pub final_flag : h.final_flag ≡ given.final_flag

announced :
    (n last attempts : ℕ) (records : List SentRecord)
    → Rising 0 (take n records)
    → All (Within last attempts) (take n records)
    → n ≤ length records
    → n ≢ 0
    → let first = sequence_of (get_or records 0 blank) in
      (0 < first) × (first ≤ last) × All (Between first last) (take n records)
announced n last attempts [] up all le ne = absurd (omega arith)
announced zero last attempts (x ∷ rs) up all le ne = absurd (ne refl)
announced (suc n) last attempts (x ∷ rs) up all le ne = (
  up.0,
  all.0.0,
  (
    (omega arith, all.0.0),
    weaken (sequence_of x) last (take n rs)
        (Rising-All (sequence_of x) last attempts (take n rs) up.1 all.1),
  ),
)
  where
    weaken :
        (lo last : ℕ) (rs : List SentRecord)
        → All (Between (suc lo) last) rs
        → All (Between lo last) rs
    weaken lo last [] a = tt
    weaken lo last (x ∷ rs) a = ((omega (arith, a.0.0), a.0.1), weaken lo last rs a.1)

none_held :
    (first last n : ℕ) (records : List SentRecord)
    → n ≡ 0
    → All (Between first last) (take n records)
none_held first last n records e = subst (λ k. All (Between first last) (take k records)) (sym e) tt

-- `fill_heartbeat` of a configured writer succeeds, announces a valid range that ends at the last
-- number written and holds every sample of the history, with the next control count; it changes the
-- writer only in that count. A writer that is not configured changes nothing.
pub fill_heartbeat_lem :
    {depth : ℕ} {w : ReliableWriter} (given : Heartbeat)
    → IsValid depth w
    → let (e, w', h) = fill_heartbeat w given in
      (w.valid ≡ true
        → (e ≡ ReliabilityError.none)
          × Announces w given h
          × (w' ≡ record w { heartbeat_count = h.count }))
      × (w.valid ≡ false → (e ≢ ReliabilityError.none) × (w' ≡ w) × (h ≡ given))
unfolding fill_heartbeat
fill_heartbeat_lem {depth} {w} given v = (
  λ ok. simp ok (
    refl,
    record {
      range = elim (ℕ_discrete w.size 0) [
        | yes e ↦ ground (arith, v.last_lt)
        | no ne ↦ ground (arith, v.last_lt, held ne)
      ];
      last = refl;
      covers = elim (ℕ_discrete w.size 0) [
        | yes e ↦ none_held _ _ w.size w.records e
        | no ne ↦
            subst (λ n. All (Between n w.last_sequence_number) (live w)) (ground arith) (held ne).2
      ];
      reader_id = refl;
      writer_id = refl;
      count = refl;
      header = refl;
      final_flag = refl;
    },
    refl,
  ),
  λ bad. simp bad (λ q. cc, refl, refl),
)
  where
    held :
        w.size ≢ 0
        → let first = sequence_of (get_or w.records 0 blank) in
          (0 < first)
          × (first ≤ w.last_sequence_number)
          × All (Between first w.last_sequence_number) (live w)
    held ne =
        announced w.size w.last_sequence_number w.config.max_repair_attempts w.records v.rising
          v.within (omega (arith, v.storage, v.size_le)) ne
