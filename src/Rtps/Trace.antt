-- ===== src/Rtps/Trace.antt =====
-- Any interleaving of DATA and HEARTBEAT messages at one reader, as a run of calls of `on_data` and
-- `on_heartbeat`. Each call brings the action buffer that its caller gives it.
use open_rtdds.Prelude.{
  ℕ, ◌≡◌, ◌≢◌, refl, ◌∙◌, Bool, false, ◌||◌, List, [], ◌∷◌, arith, ◌==◌, All, ◌⊎◌, inl, inr,
}
use open_rtdds.Rtps.Messages.{Heartbeat}
use open_rtdds.Rtps.Actions
use open_rtdds.Rtps.Actions.{ReliabilityError, ActionBuffer}
use open_rtdds.Rtps.Reader.{ReliableReader, on_data, on_heartbeat}
use open_rtdds.Rtps.Reader.Seen.{seen, IsValid}
use open_rtdds.Rtps.Reader.Data.{Received, Dropped, on_data_lem}
use open_rtdds.Rtps.Reader.Heartbeats.{Ignored, Answered, on_heartbeat_lem}

abbrev pub member : ℕ → List ℕ → Bool
member t [] = false
member t (n ∷ ns) = t == n || member t ns

abbrev pub Distinct : List ℕ → Type 0
Distinct [] = Unit {0}
Distinct (n ∷ ns) = (member n ns ≡ false) × Distinct ns

-- The list holds the numbers accepted so far, the last one first.
pub data Run (window : ℕ) (r : ReliableReader) : List ℕ → ReliableReader → Type 0 where
  start : Run window r [] r
  accepted :
      {ns : List ℕ} {s : ReliableReader}
      → Run window r ns s
      → (capacity n : ℕ) (b : ActionBuffer) → Actions.IsValid capacity b
      → (on_data window capacity s n b).0 ≡ ReliabilityError.none
      → Run window r (n ∷ ns) (on_data window capacity s n b).1
  refused :
      {ns : List ℕ} {s : ReliableReader}
      → Run window r ns s
      → (capacity n : ℕ) (b : ActionBuffer) → Actions.IsValid capacity b
      → (on_data window capacity s n b).0 ≢ ReliabilityError.none
      → Run window r ns (on_data window capacity s n b).1
  answered :
      {ns : List ℕ} {s : ReliableReader}
      → Run window r ns s
      → (capacity : ℕ) (h : Heartbeat) (b : ActionBuffer) → Actions.IsValid capacity b
      → Run window r ns (on_heartbeat window capacity s h b).1

-- What is known of a run.
pub record Once (window : ℕ) (r : ReliableReader) (ns : List ℕ) (s : ReliableReader) : Type 0 where
  pub valid : IsValid window s
  pub sees : (t : ℕ) → seen window s t ≡ (member t ns || seen window r t)
  pub distinct : Distinct ns
  pub fresh : All (λ n. seen window r n ≡ false) ns

keeps :
    {window : ℕ} {r s q : ReliableReader} {ns : List ℕ}
    → s ≡ q
    → Once window r ns q
    → Once window r ns s
keeps e o = rw e o

pub seen_eq :
    (window : ℕ) (s q : ReliableReader) (t : ℕ)
    → q.received ≡ s.received
    → q.base ≡ s.base
    → q.base_index ≡ s.base_index
    → seen window q t ≡ seen window s t
seen_eq window s q t e f g = rw (e, f, g)

-- In any interleaving each number is accepted at most once, and only if it was not seen before the
-- run; and at the end the reader has seen just what it had seen at the start and what was accepted.
pub Run-Once :
    {window : ℕ} {r s : ReliableReader} {ns : List ℕ}
    → IsValid window r
    → Run window r ns s
    → Once window r ns s
Run-Once v start = record { valid = v; sees = λ t. refl; distinct = tt; fresh = tt }
Run-Once {window} {r} v (accepted {ns} {s} run capacity n b vb e) =
    step (Run-Once v run) (on_data_lem n (Run-Once v run).valid vb)
  where
    step :
        Once window r ns s
        → Received window capacity s n b (on_data window capacity s n b)
          ⊎ Dropped window capacity s n b (on_data window capacity s n b)
        → Once window r (n ∷ ns) (on_data window capacity s n b).1
    step o (inr d) = absurd (d.error e)
    step o (inl q) = record {
      valid = q.valid;
      sees = λ t. ground (arith, q.sees t, o.sees t);
      distinct = (ground (arith, o.sees n, q.accepts.unseen), o.distinct);
      fresh = (ground (arith, o.sees n, q.accepts.unseen), o.fresh);
    }
Run-Once {window} {r} v (refused {ns} {s} run capacity n b vb ne) =
    step (Run-Once v run) (on_data_lem n (Run-Once v run).valid vb)
  where
    step :
        Once window r ns s
        → Received window capacity s n b (on_data window capacity s n b)
          ⊎ Dropped window capacity s n b (on_data window capacity s n b)
        → Once window r ns (on_data window capacity s n b).1
    step o (inl q) = absurd (ne q.no_error)
    step o (inr d) = keeps d.reader o
Run-Once {window} {r} v (answered {ns} {s} run capacity h b vb) =
    step (Run-Once v run) (on_heartbeat_lem h (Run-Once v run).valid vb)
  where
    step :
        Once window r ns s
        → Ignored s b (on_heartbeat window capacity s h b)
          ⊎ Answered window capacity s h b (on_heartbeat window capacity s h b)
        → Once window r ns (on_heartbeat window capacity s h b).1
    step o (inl i) = keeps i.reader o
    step o (inr a) = record {
      valid = a.valid;
      sees = λ t.
          seen_eq window s (on_heartbeat window capacity s h b).1 t a.received a.base a.base_index
          ∙ o.sees t;
      distinct = o.distinct;
      fresh = o.fresh;
    }
