-- ===== src/Rtps/Actions.antt =====
-- ReliabilityAction and ReliabilityActionBuffer of include/openrtdds/rtps/reliability_state.hpp.
use open_rtdds.Prelude.{
  ℕ, replicate, length-replicate, ◌-◌, ◌≤◌, ◌<◌, ◌^◌, ◌≡◌, ◌≢◌, ◌⊎◌, inl, inr, refl, Bool, true,
  false, List, [], ◌∷◌, ◌++◌, Option, arith, ◌==◌, if◌then◌else◌, length, set, take, add64, sub64,
  length-set, take-set_end, suc, ap,
}
use open_rtdds.Rtps.Types.{EntityId, no_entity}
use open_rtdds.Rtps.SequenceSet.{SequenceNumberSet, empty_set}

pub data ReliabilityError : Type 0 where
  none invalid_configuration invalid_argument unexpected_peer : ReliabilityError
  invalid_sequence_number non_monotonic_sequence payload_too_large history_full : ReliabilityError
  action_capacity_exceeded stale_control duplicate_data stale_data : ReliabilityError
  receive_window_exceeded time_regression gap_not_repairable : ReliabilityError

-- An operation first makes its tests in order. The first that fails gives the error, and then the
-- operation returns the refusal.
abbrev pub guarded {ℓ} : {A : Type ℓ} → ReliabilityError → A → A → A
guarded ReliabilityError.none refusal rest = rest
guarded _ refusal rest = refusal

pub guarded_cases {ℓ} :
    {A : Type ℓ} (e : ReliabilityError) (refusal rest : A)
    → ((e ≡ ReliabilityError.none) × (guarded e refusal rest ≡ rest))
      ⊎ ((e ≢ ReliabilityError.none) × (guarded e refusal rest ≡ refusal))
guarded_cases ReliabilityError.none refusal rest = inl (refl, refl)
guarded_cases _ refusal rest = inr ((λ q. cc), refl)

pub data ReliabilityActionKind : Type 0 where
  none send_data retransmit_data send_acknack : ReliabilityActionKind
  sample_received sample_delivered sample_failed : ReliabilityActionKind

pub data RepairFailure : Type 0 where
  none repair_limit_exceeded repair_window_expired : RepairFailure

-- `payload` is the pointer `data`: the index of the writer's record whose sample it points into, or
-- null.
pub record ReliabilityAction : Type 0 where
  pub kind : ReliabilityActionKind
  pub sequence_number : ℕ
  pub reader_id : EntityId
  pub writer_id : EntityId
  pub payload : Option ℕ
  pub data_size : ℕ
  pub reader_state : SequenceNumberSet
  pub control_count : ℕ
  pub failure : RepairFailure
  pub final_flag : Bool

abbrev pub no_action : ReliabilityAction
no_action = record {
  kind = ReliabilityActionKind.none;
  sequence_number = 0;
  reader_id = no_entity;
  writer_id = no_entity;
  payload = Option.none;
  data_size = 0;
  reader_state = empty_set;
  control_count = 0;
  failure = RepairFailure.none;
  final_flag = false;
}

-- The array of the capacity that the template fixes, and the number of actions in it.
pub record ActionBuffer : Type 0 where
  pub actions : List ReliabilityAction
  pub size : ℕ

module _ (capacity : ℕ) where
  unfoldable pub push : ActionBuffer → ReliabilityAction → Bool × ActionBuffer
  push b action =
      if b.size == capacity
      then (false, b)
      else (true, record { actions = set b.actions b.size action; size = add64 b.size 1 })

  abbrev pub remaining : ActionBuffer → ℕ
  remaining b = sub64 capacity b.size

abbrev pub cleared : ActionBuffer → ActionBuffer
cleared b = record b { size = 0 }

-- The actions that the buffer holds, in the order of the pushes.
abbrev pub listed : ActionBuffer → List ReliabilityAction
listed b = take b.size b.actions

pub record IsValid (capacity : ℕ) (b : ActionBuffer) : Type 0 where
  pub small : capacity < 2 ^ 64
  pub storage : length b.actions ≡ capacity
  pub size_le : b.size ≤ capacity

pub remaining_eq :
    {capacity : ℕ} {b : ActionBuffer}
    → IsValid capacity b
    → remaining capacity b ≡ capacity - b.size
remaining_eq v = omega arith

pub push-IsValid :
    {capacity : ℕ} {b : ActionBuffer} (a : ReliabilityAction)
    → IsValid capacity b
    → IsValid capacity (push capacity b a).1
unfolding push
push-IsValid {capacity} {b} a v = ground (arith, length-set b.actions b.size a)

-- A push into a buffer with room appends the action.
pub push_lem :
    {capacity : ℕ} {b : ActionBuffer} (a : ReliabilityAction)
    → IsValid capacity b
    → b.size < capacity
    → ((push capacity b a).1.size ≡ suc b.size)
      × (listed (push capacity b a).1 ≡ listed b ++ a ∷ [])
unfolding push
push_lem {capacity} {b} a v h =
    let grown : add64 b.size 1 ≡ suc b.size = omega arith in
    ground (
      arith,
      grown,
      ap (λ n. take n (set b.actions b.size a)) grown,
      take-set_end b.actions b.size a,
    )

-- A buffer as it is built.
abbrev pub fresh : ℕ → ActionBuffer
fresh capacity = record { actions = replicate capacity no_action; size = 0 }

pub fresh-IsValid : (capacity : ℕ) → capacity < 2 ^ 64 → IsValid capacity (fresh capacity)
fresh-IsValid capacity h = record {
  small = h;
  storage = length-replicate capacity no_action;
  size_le = omega arith;
}
