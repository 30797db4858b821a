-- ===== src/Prelude/Words.antt =====
-- Rust's unsigned integers as natural numbers: the bounds of each width, and the saturating and
-- checked operations of the standard library at a bound.
use Prim.Native.Nat.{ℕ, ◌+◌, ◌-◌, ◌*◌, min}
use mathlib.Core.Option.{Option, none, some}
use lunes_nightly.Prelude.Tests.{leb, if◌then◌else◌}

abbrev pub u32_max : ℕ
u32_max = 4_294_967_295

abbrev pub u64_max : ℕ
u64_max = 18_446_744_073_709_551_615

abbrev pub u128_max : ℕ
u128_max = 340_282_366_920_938_463_463_374_607_431_768_211_455

-- `a.saturating_add(b)` and `a.saturating_mul(b)` of the type whose largest value is `top`.
abbrev pub saturating_add : ℕ → ℕ → ℕ → ℕ
saturating_add top a b = min (a + b) top

abbrev pub saturating_mul : ℕ → ℕ → ℕ → ℕ
saturating_mul top a b = min (a * b) top

-- `a.saturating_sub(b)`, at every width.
abbrev pub saturating_sub : ℕ → ℕ → ℕ
saturating_sub a b = a - b

-- `a.checked_add(b)`
abbrev pub checked_add : ℕ → ℕ → ℕ → Option ℕ
checked_add top a b = if leb (a + b) top then some (a + b) else none
