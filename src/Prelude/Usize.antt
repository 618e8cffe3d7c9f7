-- ===== src/Prelude/Usize.antt =====
-- `usize` on a 64-bit target: the largest value and the checked operations.
use Prim.Native.Nat.{ℕ, ◌+◌, ◌-◌, ◌*◌, ◌%◌, ◌^◌, ◌≤◌}
use mathlib.Core.Path.{◌≡◌}
use mathlib.Core.Bool.{true, false}
use mathlib.Core.Option.{Option, none, some}
use native.Mathlib.Omega.{arith}
use wincode.Prelude.Tests.{leb, le→leb, if◌then◌else◌}

abbrev pub max_usize : ℕ
max_usize = 2 ^ 64 - 1

unfoldable pub checked_mul : ℕ → ℕ → Option ℕ
checked_mul a b = if leb (a * b) max_usize then some (a * b) else none

unfoldable pub checked_add : ℕ → ℕ → Option ℕ
checked_add a b = if leb (a + b) max_usize then some (a + b) else none

pub checked_mul-fits : (a b : ℕ) → a * b ≤ max_usize → checked_mul a b ≡ some (a * b)
unfolding checked_mul
checked_mul-fits a b h = rw (le→leb _ _ h)

pub checked_mul-overflows : (a b : ℕ) → leb (a * b) max_usize ≡ false → checked_mul a b ≡ none
unfolding checked_mul
checked_mul-overflows a b h = rw h

pub checked_add-fits : (a b : ℕ) → leb (a + b) max_usize ≡ true → checked_add a b ≡ some (a + b)
unfolding checked_add
checked_add-fits a b h = rw h

pub checked_add-overflows : (a b : ℕ) → leb (a + b) max_usize ≡ false → checked_add a b ≡ none
unfolding checked_add
checked_add-overflows a b h = rw h

-- `+` and `*` as a release build computes them.
unfoldable pub wrapping_add : ℕ → ℕ → ℕ
wrapping_add a b = (a + b) % 2 ^ 64

unfoldable pub wrapping_mul : ℕ → ℕ → ℕ
wrapping_mul a b = a * b % 2 ^ 64

pub wrapping_add-fits : (a b : ℕ) → a + b ≤ max_usize → wrapping_add a b ≡ a + b
unfolding wrapping_add
wrapping_add-fits a b h = omega arith

pub wrapping_mul-fits : (a b : ℕ) → a * b ≤ max_usize → wrapping_mul a b ≡ a * b
unfolding wrapping_mul
wrapping_mul-fits a b h = omega arith
