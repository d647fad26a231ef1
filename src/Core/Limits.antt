-- ===== src/Core/Limits.antt =====
-- include/openrtdds/core/runtime_limits.hpp: the resource limits that are validated at startup.
mod Tests
use open_rtdds.Prelude.{ℕ, ◌≤◌, ◌<◌, ◌≡◌, ◌≢◌, ◌↔◌, ◌||◌, arith, ltb, ◌==◌, if◌then◌else◌}

pub data LimitError : Type 0 where
  none zero_participants zero_topics zero_endpoints : LimitError
  zero_samples zero_payload invalid_history_depth : LimitError

pub record RuntimeLimits : Type 0 where
  pub max_participants : ℕ
  pub max_topics : ℕ
  pub max_writers : ℕ
  pub max_readers : ℕ
  pub max_samples : ℕ
  pub max_payload_bytes : ℕ
  pub history_depth : ℕ

abbrev pub default_limits : RuntimeLimits
default_limits = record {
  max_participants = 16;
  max_topics = 128;
  max_writers = 256;
  max_readers = 256;
  max_samples = 1024;
  max_payload_bytes = 65536;
  history_depth = 4;
}

pub validate : RuntimeLimits → LimitError
validate r =
    if r.max_participants == 0
    then zero_participants
    else if r.max_topics == 0
    then zero_topics
    else if r.max_writers == 0 || r.max_readers == 0
    then zero_endpoints
    else if r.max_samples == 0
    then zero_samples
    else if r.max_payload_bytes == 0
    then zero_payload
    else if r.history_depth == 0 || ltb r.max_samples r.history_depth
    then invalid_history_depth
    else none

-- Every resource that the profile bounds is there, and the history fits the sample budget.
pub record IsUsable (r : RuntimeLimits) : Type 0 where
  pub participants : 0 < r.max_participants
  pub topics : 0 < r.max_topics
  pub writers : 0 < r.max_writers
  pub readers : 0 < r.max_readers
  pub payload : 0 < r.max_payload_bytes
  pub depth_pos : 0 < r.history_depth
  pub depth_le : r.history_depth ≤ r.max_samples

-- `validate` accepts exactly the usable limits: every bound is positive and the history depth is at
-- most the number of samples.
pub validate-eq-none : (r : RuntimeLimits) → (validate r ≡ none) ↔ IsUsable r
unfolding validate
validate-eq-none r = (λ h. ground arith, λ h. ground arith)
