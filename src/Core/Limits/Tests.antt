-- ===== src/Core/Limits/Tests.antt =====
-- Concrete limits.
use open_rtdds.Prelude.{◌≡◌, refl}
use open_rtdds.Core.Limits.{LimitError, default_limits, validate}

validate_default : validate default_limits ≡ LimitError.none
unfolding validate
validate_default = refl

validate_depth :
    validate (record default_limits { history_depth = 1025 }) ≡ LimitError.invalid_history_depth
unfolding validate
validate_depth = refl
