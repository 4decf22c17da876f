-- ===== src/Router/Optionals.antt =====
-- halyard/src/router/matching/path_segment.rs, `expand_optionals`: a route with optional parameters
-- as the routes with and without each.
pub mod Expansion
use halyard.Prelude.{ℕ, zero, suc, ◌+◌, ◌*◌, Option, none, some, List, [], ◌∷◌, ◌++◌, set}
use halyard.Prelude.Bytes.{Bytes}
use halyard.Router.Segments.{PathSegment, optional_param, param}

abbrev pub Segments : Type 0
Segments = List PathSegment

-- The first optional parameter and its index; `idx` is the index of the head.
pub first_optional : ℕ → Segments → Option (ℕ × Bytes)
first_optional idx [] = none
first_optional idx (optional_param name ∷ segments) = some (idx, name)
first_optional idx (_ ∷ segments) = first_optional (suc idx) segments

-- `Vec::remove`
pub remove : Segments → ℕ → Segments
remove [] idx = []
remove (s ∷ segments) zero = segments
remove (s ∷ segments) (suc idx) = s ∷ remove segments idx

-- The loop, on fuel; the head of `stack` is the end of `segments`. `none` means that the fuel ran out.
pub expand_loop : ℕ → List Segments → List Segments → Option (List Segments)
expand_loop fuel [] checked = some checked
expand_loop zero (_ ∷ _) checked = none
expand_loop (suc fuel) (next_to_check ∷ stack) checked = elim (first_optional 0 next_to_check) [
  | none ↦ expand_loop fuel stack (checked ++ next_to_check ∷ [])
  | some (idx, name) ↦
      let unit_variant = remove next_to_check idx in
      let param_variant = set next_to_check idx (param name) in
      expand_loop fuel (param_variant ∷ unit_variant ∷ stack) checked
]

pub count_optionals : Segments → ℕ
count_optionals [] = 0
count_optionals (optional_param name ∷ segments) = suc (count_optionals segments)
count_optionals (_ ∷ segments) = count_optionals segments

-- The rounds that a route with `n` optional parameters takes.
pub rounds : ℕ → ℕ
rounds zero = 1
rounds (suc n) = suc (rounds n + rounds n)

pub expand_optionals : Segments → Option (List Segments)
unfolding first_optional remove expand_loop count_optionals rounds
expand_optionals segments = expand_loop (rounds (count_optionals segments)) (segments ∷ []) []
