-- ===== src/Prelude/Machine.antt =====
-- Unsigned machine arithmetic with its wrap-around, and the limits that the sources name.
use Prim.Native.Nat.{ℕ, ◌+◌, ◌-◌, ◌%◌, ◌^◌}
use mathlib.Core.List.{List}
use mathlib.Core.Option.{Option}

-- std::size_t and std::uint64_t
abbrev pub add64 : ℕ → ℕ → ℕ
add64 a b = (a + b) % 2 ^ 64

abbrev pub sub64 : ℕ → ℕ → ℕ
sub64 a b = (a + 2 ^ 64 - b) % 2 ^ 64

abbrev pub add32 : ℕ → ℕ → ℕ
add32 a b = (a + b) % 2 ^ 32

abbrev pub sub32 : ℕ → ℕ → ℕ
sub32 a b = (a + 2 ^ 32 - b) % 2 ^ 32

abbrev pub add8 : ℕ → ℕ → ℕ
add8 a b = (a + b) % 2 ^ 8

-- std::numeric_limits<std::int64_t>::max()
abbrev pub int64_max : ℕ
int64_max = 2 ^ 63 - 1

abbrev pub size_max : ℕ
size_max = 2 ^ 64 - 1

-- A pointer to bytes: `none` is nullptr, and the list is the memory that it points to.
abbrev pub BytePointer : Type 0
BytePointer = Option (List ℕ)
