-- ===== src/Router/Tests.antt =====
-- Runs of the segment tests, and the theorems on concrete paths.
use halyard.Prelude.{◌≡◌, ◌↔◌, ◌⊎◌, refl, Option, none, some, List, [], ◌∷◌, ◌++◌, map, All}
use halyard.Prelude.Bytes.{Bytes, contains_byte}
use halyard.Router.Segments.{
  slash, static, optional_param, PartialPathMatch, static_segment, param_segment,
  optional_param_segment, static_test, param_test, optional_param_test, unit_segment,
  wildcard_segment,
}
use halyard.Router.Segments.Parts.{Ends}
use halyard.Router.Segments.Single.{
  IsPlainName, HasValue, consumed_name, static_test_iff, param_test_iff, optional_param_test_total,
  skipped,
}
use halyard.Router.Segments.Placed.{Placed, IsPlacing, IsExact, segments_IsPlacing}
use halyard.Router.Tuples.{tuple_test}
use halyard.Router.Tuples.Sound.{tuple_test-Placed}
use halyard.Router.Tuples.RoundTrip.{
  Written, fixed, bound, text_of, segment_of, path_of, whole_match, tuple_test-path_of,
}
use halyard.Router.Optionals.{Segments, expand_optionals}
use halyard.Router.Optionals.Expansion.{choices, IsPlain, expand_optionals-choices}

abbrev a : Bytes
a = b'a' ∷ []

abbrev n : Bytes
n = b'n' ∷ []

-- `/a/x`
abbrev written : List Written
written = fixed a ∷ bound n (b'x' ∷ []) ∷ []

written-plain : All (λ w. IsPlainName (text_of w)) written
unfolding contains_byte
written-plain = ((refl, refl), ((refl, refl), tt))

tuple_test-path_of_example :
    tuple_test (map segment_of written) (path_of written) ≡ some (whole_match written)
tuple_test-path_of_example = tuple_test-path_of written written-plain

two_IsPlacing : All IsPlacing (map segment_of written)
two_IsPlacing = ((segments_IsPlacing a).0.1, ((segments_IsPlacing n).0.2, tt))

tuple_test-Placed_example : Placed (path_of written) (whole_match written)
tuple_test-Placed_example =
    tuple_test-Placed (map segment_of written) (path_of written) (whole_match written) two_IsPlacing
      (tuple_test-path_of written written-plain)

static_test_iff_example :
    (static_test a (b'/' ∷ b'a' ∷ b'/' ∷ []) ≡ some (consumed_name a (b'/' ∷ []))) ↔ (
      (rest : Bytes) × (b'/' ∷ b'a' ∷ b'/' ∷ [] ≡ b'/' ∷ (a ++ rest))
      × Ends rest
      × (consumed_name a (b'/' ∷ []) ≡ consumed_name a rest))
unfolding contains_byte
static_test_iff_example =
    static_test_iff a (b'/' ∷ b'a' ∷ b'/' ∷ []) (consumed_name a (b'/' ∷ [])) (refl, refl)

param_test_iff_example :
    (param_test n (b'/' ∷ a) ≡ some (skipped [])) ↔ HasValue n (b'/' ∷ a) (skipped [])
param_test_iff_example = param_test_iff n (b'/' ∷ a) (skipped [])

optional_param_test_total_example :
    optional_param_test n (b'/' ∷ a)
    ≡ (elim (param_test n (b'/' ∷ a)) as (λ _. Option PartialPathMatch) [
      | none ↦ some (skipped (b'/' ∷ a))
      | some m ↦ some m
    ])
optional_param_test_total_example = optional_param_test_total n (b'/' ∷ a)

segments_IsPlacing_example :
    (IsPlacing unit_segment
      × IsPlacing (static_segment a)
      × IsPlacing (param_segment a)
      × IsPlacing (wildcard_segment a)
      × IsPlacing (optional_param_segment a))
    × IsExact unit_segment
    × ((a ≡ slash) ⊎ IsExact (static_segment a))
    × IsExact (param_segment a)
    × IsExact (wildcard_segment a)
    × IsExact (optional_param_segment a)
segments_IsPlacing_example = segments_IsPlacing a

abbrev optional_route : Segments
optional_route = static a ∷ optional_param n ∷ []

expand_optionals-choices_example :
    (expand_optionals optional_route ≡ some (choices optional_route))
    × All IsPlain (choices optional_route)
expand_optionals-choices_example = expand_optionals-choices optional_route
