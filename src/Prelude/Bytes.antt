-- ===== src/Prelude/Bytes.antt =====
-- Byte strings: the `str` methods that the code calls, on the bytes of UTF-8.
use Prim.Native.Nat.{ℕ, zero, suc, ◌-◌}
use mathlib.Core.Path.{◌≡◌, refl}
use mathlib.Core.Logic.{◌↔◌}
use mathlib.Core.Bool.{Bool, true, false, not, ◌&&◌, ◌||◌}
use mathlib.Core.Option.{Option, none, some}
use mathlib.Core.List.{List, [], ◌∷◌}
use native.Mathlib.Omega.{arith}
use halyard.Prelude.Tests.{◌==◌, leb, ltb, if◌then◌else◌}
use halyard.Prelude.Lists.{length, get_elem?, take, drop}

abbrev pub Bytes : Type 0
Bytes = List ℕ

infix 50 ◌=b◌
unfoldable pub ◌=b◌ : Bytes → Bytes → Bool
[] =b [] = true
[] =b (b ∷ bs) = false
(a ∷ as') =b [] = false
(a ∷ as') =b (b ∷ bs) = a == b && as' =b bs

pub =b_iff : (s t : Bytes) → ((s =b t) ≡ true) ↔ (s ≡ t)
unfolding ◌=b◌
=b_iff [] [] = (λ _. refl, λ _. refl)
=b_iff [] (b ∷ t) = ground arith
=b_iff (a ∷ s) [] = ground arith
=b_iff (a ∷ s) (b ∷ t) = ground (arith, =b_iff s t)

-- `strip_prefix` of a string.
unfoldable pub strip_prefix : Bytes → Bytes → Option Bytes
strip_prefix [] s = some s
strip_prefix (p ∷ ps) [] = none
strip_prefix (p ∷ ps) (b ∷ s) = if b == p then strip_prefix ps s else none

-- `path.strip_suffix(suffix)`
unfoldable pub strip_suffix : Bytes → Bytes → Option Bytes
unfolding ◌=b◌
strip_suffix suffix s =
    let n = length s - length suffix in
    if leb (length suffix) (length s) && drop n s =b suffix then some (take n s) else none

-- `find` and `contains` of a byte below 128.
unfoldable pub find_byte : ℕ → Bytes → Option ℕ
find_byte b [] = none
find_byte b (c ∷ s) =
    let later : Option ℕ = elim (find_byte b s) [ none ↦ none | some i ↦ some (suc i) ] in
    if c == b then some 0 else later

unfoldable pub contains_byte : ℕ → Bytes → Bool
contains_byte b [] = false
contains_byte b (c ∷ s) = c == b || contains_byte b s

abbrev pub is_empty : Bytes → Bool
is_empty [] = true
is_empty (_ ∷ _) = false

abbrev pub starts_with_byte : ℕ → Bytes → Bool
starts_with_byte b [] = false
starts_with_byte b (c ∷ _) = c == b

-- Not the first byte of a character.
abbrev pub is_continuation : ℕ → Bool
is_continuation b = leb 128 b && ltb b 192

-- `str::is_char_boundary`
unfoldable pub is_char_boundary : Bytes → ℕ → Bool
is_char_boundary s zero = true
is_char_boundary s (suc i) = elim (get_elem? s (suc i)) [
  | none ↦ suc i == length s
  | some b ↦ not (is_continuation b)
]

-- `s.get(..end)`
unfoldable pub get_prefix : Bytes → ℕ → Option Bytes
unfolding is_char_boundary
get_prefix s end = if leb end (length s) && is_char_boundary s end then some (take end s) else none

-- `s.split_at_checked(mid)`
unfoldable pub split_at_checked : Bytes → ℕ → Option (Bytes × Bytes)
unfolding is_char_boundary
split_at_checked s mid =
    if leb mid (length s) && is_char_boundary s mid then some (take mid s, drop mid s) else none
