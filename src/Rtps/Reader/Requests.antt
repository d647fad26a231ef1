-- ===== src/Rtps/Reader/Requests.antt =====
-- The bitmap that ReliableReader::on_heartbeat builds marks exactly the missing numbers.
use open_rtdds.Prelude.{
  ℕ, zero, suc, ◌+◌, ◌-◌, ◌≤◌, ◌<◌, ◌≡◌, refl, ap, ◌∙◌, not, ◌||◌, arith, int64_max, Bool-cases,
  inl, inr, ℕ_discrete, min,
}
use open_rtdds.Rtps.SequenceSet.{SequenceNumberSet, empty_set, reset, set_bit, test_bit}
use open_rtdds.Rtps.SequenceSet.Laws
use open_rtdds.Rtps.SequenceSet.Laws.{
  test_bit-set_bit, num_bits-set_bit, set_bit-IsValid, reset_lem, reset-IsValid,
}
use open_rtdds.Rtps.Messages.{Heartbeat}
use open_rtdds.Rtps.Reader.{ReliableReader, flag, slot_of, mark_missing, num_requested, request}
use open_rtdds.Rtps.Reader.Seen.{seen, IsValid}

-- What the loop leaves of a set.
pub record Marked (window rounds offset : ℕ) (r : ReliableReader) (s t : SequenceNumberSet)
    : Type 0 where
  pub base : t.bitmap_base ≡ s.bitmap_base
  pub bits : t.num_bits ≡ s.num_bits
  pub valid : Laws.IsValid t
  pub inside :
      (j : ℕ)
      → offset ≤ j
      → j < offset + rounds
      → test_bit t j ≡ (not (flag r.received (slot_of window r j)) || test_bit s j)
  pub below : (j : ℕ) → j < offset → test_bit t j ≡ test_bit s j

mark_missing-Marked :
    (window rounds offset : ℕ) (r : ReliableReader) (s : SequenceNumberSet)
    → Laws.IsValid s
    → offset + rounds ≤ s.num_bits
    → Marked window rounds offset r s (mark_missing window rounds offset r s)
unfolding mark_missing
mark_missing-Marked window zero offset r s v h = record {
  base = refl;
  bits = refl;
  valid = v;
  inside = λ j a b. absurd (omega arith);
  below = λ j a. refl;
}
mark_missing-Marked window (suc rounds) offset r s v h =
    elim (Bool-cases (flag r.received (slot_of window r offset))) [
      | inl got ↦
          let rest = mark_missing-Marked window rounds (suc offset) r s v (omega arith) in
          rw got (record {
            base = rest.base;
            bits = rest.bits;
            valid = rest.valid;
            inside = λ j lo hi. elim (ℕ_discrete j offset) [
              | yes e ↦
                  ground
                    (arith, e, got, rest.below j, ap (λ k. flag r.received (slot_of window r k)) e)
              | no ne ↦ rest.inside j (omega arith) (omega arith)
            ];
            below = λ j h. rest.below j (omega arith);
          })
      | inr missing ↦
          let s1 : SequenceNumberSet = (set_bit s offset).1 in
          let kept = num_bits-set_bit s offset in
          let rest =
            mark_missing-Marked window rounds (suc offset) r s1 (set_bit-IsValid offset v)
              (omega (arith, kept.0)) in
          rw missing (record {
            base = rest.base ∙ kept.1;
            bits = rest.bits ∙ kept.0;
            valid = rest.valid;
            inside = λ j lo hi. elim (ℕ_discrete j offset) [
              | yes e ↦ ground (
                arith,
                e,
                missing,
                rest.below j,
                test_bit-set_bit offset j v,
                ap (λ k. flag r.received (slot_of window r k)) e,
              )
              | no ne ↦ ground (arith, rest.inside j, test_bit-set_bit offset j v)
            ];
            below =
                λ j lt. rest.below j (omega arith) ∙ ground (arith, test_bit-set_bit offset j v);
          })
    ]

-- The set that an ACKNACK carries: from the base on, and each of its numbers is requested exactly
-- when the reader has not seen it.
pub record Requests (window : ℕ) (r : ReliableReader) (bits : ℕ) (s : SequenceNumberSet)
    : Type 0 where
  pub base : s.bitmap_base ≡ r.base
  pub count : s.num_bits ≡ bits
  pub valid : Laws.IsValid s
  pub missing : (j : ℕ) → j < bits → test_bit s j ≡ not (seen window r (r.base + j))

-- As many numbers as the heartbeat announces from the base on, and at most the window.
abbrev pub requested_bits : ℕ → ReliableReader → Heartbeat → ℕ
requested_bits window r h = min (h.last_sequence_number + 1 - r.base) window

num_requested_eq :
    {window : ℕ} {r : ReliableReader} (h : Heartbeat)
    → IsValid window r
    → h.last_sequence_number ≤ int64_max
    → r.base ≤ h.last_sequence_number
    → num_requested window r h ≡ requested_bits window r h
unfolding num_requested
num_requested_eq h v le cov = ground arith

pub request-Requests :
    {window : ℕ} {r : ReliableReader} (h : Heartbeat)
    → IsValid window r
    → h.last_sequence_number ≤ int64_max
    → r.base ≤ h.last_sequence_number
    → Requests window r (requested_bits window r h) (request window r h)
unfolding request
request-Requests {window} {r} h v le cov =
    let n : ℕ = num_requested window r h in
    let n_eq : n ≡ requested_bits window r h = num_requested_eq h v le cov in
    let e =
      reset_lem empty_set r.base n (omega (arith, v.base_pos)) (omega (arith, n_eq, v.window_le))
        (omega (arith, n_eq, le)) (omega (arith, v.base_le)) in
    let start : SequenceNumberSet = (reset empty_set r.base n).1 in
    let m =
      mark_missing-Marked window n 0 r start (reset-IsValid r.base n (omega arith))
        (omega (arith, e.2)) in
    record {
      base = m.base ∙ e.1;
      count = m.bits ∙ e.2 ∙ n_eq;
      valid = m.valid;
      missing = λ j lt. ground (
        arith,
        n_eq,
        m.inside j (omega arith) (omega (arith, n_eq)),
        e.3 j,
        ap (λ k. flag r.received (slot_of window r k)) {x = r.base + j - r.base} {y = j}
            (omega arith),
      );
    }
