-- ===== src/Dds/Resend/Records.antt =====
-- The samples in the history of a DataWriter carry what was written.
use open_rtdds.Prelude.{
  ℕ, ◌+◌, ◌≤◌, ◌<◌, ◌≡◌, ◌⊎◌, sym, ap, subst, ◌∙◌, arith, false, List, [], ◌∷◌, Option, length,
  get_or, take, BytePointer, All, All-append, length-take, int64_max,
}
use open_rtdds.Core.History.{pointed}
use open_rtdds.Rtps.Sent.{
  SentRecord, sequence_of, blank, Decision, keep, deliver, repair, fail_window, fail_attempts,
}
use open_rtdds.Rtps.Writer.Compact.{retain}
use open_rtdds.Rtps.Writer.Invariant
use open_rtdds.Rtps.Writer.Invariant.{live}
use open_rtdds.Dds.Entities.{TypeSupport}
use open_rtdds.Dds.DataWriter.{DataWriter}
use open_rtdds.Dds.Delivery.Payload.{Carries}
use open_rtdds.Core.History.{is_null, assign, BoundedSample, SampleMetadata, HistoryError}
use open_rtdds.Core.History.Invariant.{IsReadable}
use open_rtdds.Core.History.Refine.{view-assign}
use open_rtdds.Rtps.Actions.{fresh-IsValid}
use open_rtdds.Rtps.Writer.Write.{write_lem, assign_ok, fresh_record}
use open_rtdds.Dds.Delivery.{Goes, sent-Buildable, write-Goes}
use open_rtdds.Dds.Delivery.Payload.{RoundTrips, serialized_sample, serialized-Serialized}
use open_rtdds.Dds.DataWriter.{write}

module _ {Sample : Type 0} (support : TypeSupport Sample) (window : ℕ) (log : ℕ → Sample)
    (limit : ℕ) where
  -- A record whose payload carries the sample that was written under its number, in a datagram of at
  -- most `limit` bytes.
  pub record Stored (x : SentRecord) : Type 0 where
    pub held : length (pointed (Option.some x.sample.payload) x.sample.size) ≡ x.sample.size
    pub carries :
        Carries support window
          (pointed (Option.some x.sample.payload) x.sample.size)
          (log (sequence_of x))
    pub fits : 44 + x.sample.size ≤ limit
    pub positive : 0 < sequence_of x
    pub in_range : sequence_of x ≤ int64_max

  pub retain-Stored :
      (ds : List Decision) (rs : List SentRecord) → All Stored rs → All Stored (retain ds rs)
  retain-Stored [] rs all = tt
  retain-Stored (keep ∷ ds) [] all = tt
  retain-Stored (repair ∷ ds) [] all = tt
  retain-Stored (deliver ∷ ds) [] all = tt
  retain-Stored (fail_window ∷ ds) [] all = tt
  retain-Stored (fail_attempts ∷ ds) [] all = tt
  retain-Stored (keep ∷ ds) (r ∷ rs) all = (all.0, retain-Stored ds rs all.1)
  retain-Stored (repair ∷ ds) (r ∷ rs) all = (
    record {
      held = all.0.held;
      carries = all.0.carries;
      fits = all.0.fits;
      positive = all.0.positive;
      in_range = all.0.in_range;
    },
    retain-Stored ds rs all.1,
  )
  retain-Stored (deliver ∷ ds) (r ∷ rs) all = retain-Stored ds rs all.1
  retain-Stored (fail_window ∷ ds) (r ∷ rs) all = retain-Stored ds rs all.1
  retain-Stored (fail_attempts ∷ ds) (r ∷ rs) all = retain-Stored ds rs all.1

  -- `assign` keeps the bytes that it is given.
  assigned :
      (max : ℕ) (old x : BoundedSample) (p : BytePointer) (n : ℕ) (m : SampleMetadata)
      → length old.payload ≡ max
      → IsReadable p n
      → (is_null p ≡ false) ⊎ (n ≡ 0)
      → n ≤ max
      → assign max old p n m ≡ (HistoryError.none, x)
      → (take x.size x.payload ≡ pointed p n) × (x.size ≡ n) × (x.metadata ≡ m)
  assigned max old x p n m storage readable there le e =
      let (ok, kept) =
        view-assign max old p n m storage readable (ground (arith, there)) (ground (arith, le)) in
      let same = ap (λ q. q.1) e in
      (
        sym (ap (λ (y : BoundedSample). take y.size y.payload) same) ∙ ap (λ q. q.0) kept,
        sym (ap (λ (y : BoundedSample). y.size) same) ∙ (assign_ok max old p n m there le).1,
        sym (ap (λ (y : BoundedSample). y.metadata) same) ∙ ap (λ q. q.1) kept,
      )

  pointed-IsReadable : (b : BytePointer) (n : ℕ) → length (pointed b n) ≡ n → IsReadable b n
  pointed-IsReadable Option.none n h = tt
  pointed-IsReadable (Option.some bytes) n h = omega (arith, h, length-take n bytes)

  -- A write that goes through adds a record that carries its sample.
  pub write-Stored :
      (depth max : ℕ) (w : DataWriter) (sample : Sample) (now : ℕ) (datagram : BytePointer)
      (capacity : ℕ)
      → RoundTrips support
      → Goes support depth max w sample now datagram capacity
      → Invariant.IsValid depth w.reliability
      → length (get_or w.reliability.records w.reliability.size blank).sample.payload ≡ max
      → 44 + (serialized_sample support depth max w sample).1.offset ≤ limit
      → log w.next_sequence ≡ sample
      → All Stored (live w.reliability)
      → All Stored (live (write support depth max w sample now datagram capacity).1.reliability)
  write-Stored depth max w sample now datagram capacity law g v storage fits logged all =
      let s =
        serialized-Serialized support depth max w sample law g.storage g.max_small g.serialized in
      let cdr = (serialized_sample support depth max w sample).1 in
      let (_, _, after) = write-Goes support depth max w sample now datagram capacity g s in
      let (buildable, carries) =
        sent-Buildable support depth max w sample now datagram capacity window g s in
      let (accepts, refuses, adds, _) =
        write_lem {max = max} cdr.buffer cdr.offset w.next_sequence now v
          (fresh-IsValid 1 (omega arith)) in
      let a = accepts.0 g.taken in
      let (x, filled, grown, _, _) = adds g.taken in
      let (content, size, metadata) =
        assigned max _ x cdr.buffer cdr.offset _ storage
          (pointed-IsReadable cdr.buffer cdr.offset buildable.payload_length) a.readable
          a.payload_fits filled in
      let number = ap (λ (k : SampleMetadata). k.sequence_number) metadata in
      let small = size in
      let added : Stored (fresh_record x now) = record {
        held = ap length content ∙ buildable.payload_length ∙ sym size;
        carries =
            subst (λ c. Carries support window c (log x.metadata.sequence_number)) (sym content)
              (subst (λ y. Carries support window (pointed cdr.buffer cdr.offset) y)
                (sym (ap log number ∙ logged)) carries);
        fits = omega (arith, small, fits);
        positive = omega (arith, number, g.positive);
        in_range = omega (arith, number, g.in_range);
      } in
      rw (after, grown)
        (All-append Stored (live w.reliability) (fresh_record x now ∷ []) all (added, tt))
