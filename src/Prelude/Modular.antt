-- ===== src/Prelude/Modular.antt =====
-- Indices round a ring of `d` places.
use Prim.Native.Nat.{ℕ, ◌+◌, ◌/◌, ◌%◌, ◌<◌}
use mathlib.Core.Path.{◌≡◌}
use mathlib.Core.Logic.{◌≢◌}
use native.Mathlib.Nat.{div-add-mod, mod-add-mod}
use native.Mathlib.Decide.{dec_lt}
use native.Mathlib.Omega.{arith}

-- Two positions less than a turn apart are different places.
pub mod-ne : (a b d : ℕ) → a < b → b < a + d → (a % d) ≢ (b % d)
mod-ne a b d lt near e = elim (dec_lt (a / d) (b / d)) [
  | yes q ↦ absurd (grind (arith, div-add-mod a d, div-add-mod b d))
  | no q ↦ absurd (grind (arith, div-add-mod a d, div-add-mod b d))
]

pub mod-add_left : (a b d : ℕ) → (a % d + b) % d ≡ (a + b) % d
mod-add_left a b d = mod-add-mod a d b
