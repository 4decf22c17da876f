-- ===== src/Prelude/Words.antt =====
-- Machine arithmetic on `usize`, whose largest value is a parameter.
use Prim.Native.Nat.{ℕ, ◌+◌, ◌-◌, min}
use mathlib.Core.Option.{Option, none, some}
use halyard.Prelude.Tests.{leb, if◌then◌else◌}

abbrev pub checked_add : ℕ → ℕ → ℕ → Option ℕ
checked_add usize_max a b = if leb (a + b) usize_max then some (a + b) else none

abbrev pub saturating_add : ℕ → ℕ → ℕ → ℕ
saturating_add usize_max a b = min (a + b) usize_max

abbrev pub checked_sub : ℕ → ℕ → Option ℕ
checked_sub a b = if leb b a then some (a - b) else none
