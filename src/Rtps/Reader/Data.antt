-- ===== src/Rtps/Reader/Data.antt =====
-- ReliableReader::on_data: each number is accepted once, and the base is the first number missing.
use open_rtdds.Prelude.{
  ℕ, zero, suc, ◌+◌, ◌-◌, ◌≤◌, ◌<◌, ◌≡◌, ◌≢◌, ◌⊎◌, ◌↔◌, refl, sym, ap, ◌∙◌, true, false, ◌||◌, [],
  ◌∷◌, ◌++◌, arith, ◌==◌, set, length-set, get_or-set_self, get_or-set_ne, int64_max, Bool-cases,
  inl, inr, dec_lt, ℕ_discrete,
}
use open_rtdds.Rtps.Actions
use open_rtdds.Rtps.Actions.{
  ReliabilityError, ReliabilityAction, ActionBuffer, guarded_cases, listed, remaining, remaining_eq,
  push, push_lem, push-IsValid,
}
use open_rtdds.Rtps.Reader.{
  ReliableReader, Outcome, flag, slot_of, slide, data_error, accept_data, on_data, received_action,
}
use open_rtdds.Rtps.Reader.Seen.{
  seen, IsValid, count_true, count_true-le, count_true-clear, slot_of-zero, slot_of-ne, advanced,
  advanced-IsValid, seen-advanced,
}

-- What `slide` keeps, and where it stops.
pub record Slid (window : ℕ) (r s : ReliableReader) : Type 0 where
  pub valid : IsValid window s
  pub same : (t : ℕ) → seen window s t ≡ seen window r t
  pub stopped : flag s.received s.base_index ≡ false
  pub config : s.config ≡ r.config
  pub usable : s.valid ≡ r.valid

slide-Slid :
    {window : ℕ} (fuel : ℕ) (r : ReliableReader)
    → IsValid window r
    → count_true r.received < fuel
    → Slid window r (slide window fuel r)
unfolding slide
slide-Slid zero r v h = absurd (omega arith)
slide-Slid {window} (suc fuel) r v h = elim (Bool-cases (flag r.received r.base_index)) [
  | inr stop ↦
      rw stop (record { valid = v; same = λ t. refl; stopped = stop; config = refl; usable = refl })
  | inl go ↦
      let rest =
        slide-Slid fuel (advanced window r) (advanced-IsValid v go)
          (omega (arith, count_true-clear r.received r.base_index go)) in
      rw go (record {
        valid = rest.valid;
        same = λ t. rest.same t ∙ seen-advanced v go t;
        stopped = rest.stopped;
        config = rest.config;
        usable = rest.usable;
      })
]

-- The reader after a number has been flagged, before the window slides.
abbrev pub flagged_reader : ℕ → ReliableReader → ℕ → ReliableReader
flagged_reader window r s = record r {
  received = set r.received (slot_of window r (s - r.base)) true;
}

module _ {window : ℕ} {r : ReliableReader} (s : ℕ) (v : IsValid window r) (lo : r.base ≤ s)
    (hi : s - r.base < window) (lt : s < int64_max) where
  flag-set :
      (k : ℕ)
      → k < window
      → flag (set r.received (slot_of window r (s - r.base)) true) (slot_of window r k)
        ≡ (k == (s - r.base) || flag r.received (slot_of window r k))
  flag-set k h = elim (ℕ_discrete k (s - r.base)) [
    | yes e ↦ ground (
      arith,
      e,
      ap (λ n. slot_of window r n) e,
      get_or-set_self r.received (slot_of window r (s - r.base)) true false (omega arith),
    )
    | no ne ↦ elim (dec_lt k (s - r.base)) [
      | yes p ↦ ground (
        arith,
        get_or-set_ne r.received (slot_of window r (s - r.base)) (slot_of window r k) true false
            (λ e. slot_of-ne v k (s - r.base) p hi (sym e)),
      )
      | no p ↦ ground (
        arith,
        get_or-set_ne r.received (slot_of window r (s - r.base)) (slot_of window r k) true false
            (λ e. slot_of-ne v (s - r.base) k (omega arith) h e),
      )
    ]
  ]

  flagged-IsValid : IsValid window (flagged_reader window r s)
  flagged-IsValid = record {
    window_pos = v.window_pos;
    window_le = v.window_le;
    storage = length-set r.received (slot_of window r (s - r.base)) true ∙ v.storage;
    index_lt = v.index_lt;
    base_pos = v.base_pos;
    base_le = v.base_le;
    flagged = λ k h e. ground (arith, flag-set k h, v.flagged k h);
  }

  seen-flagged : (t : ℕ) → seen window (flagged_reader window r s) t ≡ (t == s || seen window r t)
  seen-flagged t = ground (arith, flag-set (t - r.base))

-- The conditions under which `on_data` accepts a number: it is valid, new, and in the window.
pub record AcceptsData (window capacity : ℕ) (r : ReliableReader) (s : ℕ) (b : ActionBuffer)
    : Type 0 where
  pub configured : r.valid ≡ true
  pub sequence_pos : 0 < s
  pub sequence_lt : s < int64_max
  pub unseen : seen window r s ≡ false
  pub in_window : s < r.base + window
  pub action_room : b.size < capacity

data_error-AcceptsData :
    {window capacity : ℕ} {r : ReliableReader} (s : ℕ) {b : ActionBuffer}
    → IsValid window r
    → Actions.IsValid capacity b
    → (data_error window capacity r s b ≡ ReliabilityError.none) ↔ AcceptsData window capacity r s b
unfolding data_error
data_error-AcceptsData s v vb = (λ h. ground arith, λ h. ground arith)

-- What an accepted number does.
pub record Received (window capacity : ℕ) (r : ReliableReader) (s : ℕ) (b : ActionBuffer)
    (out : Outcome) : Type 0 where
  pub no_error : out.0 ≡ ReliabilityError.none
  pub accepts : AcceptsData window capacity r s b
  pub sees : (t : ℕ) → seen window out.1 t ≡ (t == s || seen window r t)
  pub base_missing : seen window out.1 out.1.base ≡ false
  pub reported : listed out.2 ≡ listed b ++ received_action s ∷ []
  pub config : out.1.config ≡ r.config
  pub usable : out.1.valid ≡ r.valid
  pub valid : IsValid window out.1
  pub buffer : Actions.IsValid capacity out.2

-- What a rejected number does: nothing.
pub record Dropped (window capacity : ℕ) (r : ReliableReader) (s : ℕ) (b : ActionBuffer)
    (out : Outcome) : Type 0 where
  pub error : out.0 ≢ ReliabilityError.none
  pub refuses : ¬ (AcceptsData window capacity r s b)
  pub reader : out.1 ≡ r
  pub buffer : out.2 ≡ b

accept_data-Received :
    {window capacity : ℕ} {r : ReliableReader} (s : ℕ) {b : ActionBuffer}
    → IsValid window r
    → Actions.IsValid capacity b
    → AcceptsData window capacity r s b
    → Received window capacity r s b (accept_data window capacity r s b)
unfolding accept_data
accept_data-Received {window} {capacity} {r} s {b} v vb a =
    let lo : r.base ≤ s = ground (arith, a.unseen) in
    let hi : s - r.base < window = omega (arith, a.in_window, v.window_pos) in
    let f = flagged-IsValid s v lo hi a.sequence_lt in
    let c =
      slide-Slid (suc window) (flagged_reader window r s) f
        (omega (arith, count_true-le (flagged_reader window r s).received, f.storage)) in
    record {
      no_error = refl;
      accepts = a;
      sees = λ t. c.same t ∙ seen-flagged s v lo hi a.sequence_lt t;
      base_missing = ground (
        arith,
        c.stopped,
        slot_of-zero c.valid,
        ap (λ n. slot_of window (slide window (suc window) (flagged_reader window r s)) n)
            {x = (slide window (suc window) (flagged_reader window r s)).base
              - (slide window (suc window) (flagged_reader window r s)).base}
            {y = 0} (omega arith),
      );
      reported = (push_lem (received_action s) vb a.action_room).1;
      config = c.config;
      usable = c.usable;
      valid = c.valid;
      buffer = push-IsValid (received_action s) vb;
    }

-- `on_data` accepts a number exactly when it is valid, in the window and not seen before, and the
-- buffer has room. The reader has then seen that number and what it had seen, and nothing else; its
-- base is a number that it has not seen; the buffer has one action more. Otherwise nothing changes.
pub on_data_lem :
    {window capacity : ℕ} {r : ReliableReader} (s : ℕ) {b : ActionBuffer}
    → IsValid window r
    → Actions.IsValid capacity b
    → Received window capacity r s b (on_data window capacity r s b)
      ⊎ Dropped window capacity r s b (on_data window capacity r s b)
unfolding on_data
on_data_lem {window} {capacity} {r} s {b} v vb =
    let tests = data_error-AcceptsData s v vb in
    elim (guarded_cases {A = Outcome} (data_error window capacity r s b)
      (data_error window capacity r s b, r, b) (accept_data window capacity r s b)) [
        | inl (e, q) ↦ rw q (inl (accept_data-Received s v vb (tests.0 e)))
        | inr (ne, q) ↦ rw q (
            inr
              (record { error = ne; refuses = λ a. ne (tests.1 a); reader = refl; buffer = refl }))
      ]
