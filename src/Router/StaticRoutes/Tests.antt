-- ===== src/Router/StaticRoutes/Tests.antt =====
-- The theorems on a static route with an optional parameter.
use halyard.Prelude.{◌≡◌, ◌≢◌, ◌↔◌, refl, Option, some, List, [], ◌∷◌}
use halyard.Prelude.Bytes.{Bytes, ◌=b◌}
use halyard.Router.Segments.{PathSegment, static, optional_param}
use halyard.Router.Optionals.Expansion.{choices, expand_optionals-choices}
use halyard.Router.StaticRoutes.{
  StaticParamsMap, insert, get, into_paths, add_segments, add_segment, add_static, add_value,
  with_and_without,
}
use halyard.Router.StaticRoutes.Spelled.{In, Spells, into_paths_iff}
use halyard.Router.StaticRoutes.Values.{get-insert}
use halyard.Router.StaticRoutes.Expanded.{into_paths-expand_optionals}

abbrev a : Bytes
a = b'a' ∷ []

abbrev n : Bytes
n = b'n' ∷ []

-- `/a/:n?`, with the value `a` for `n`.
abbrev route : List PathSegment
route = static a ∷ optional_param n ∷ []

abbrev given : Option StaticParamsMap
given = some ((n, a ∷ []) ∷ [])

abbrev two : Bytes
two = b'/' ∷ b'a' ∷ b'/' ∷ b'a' ∷ []

into_paths-route : into_paths given route ≡ (b'/' ∷ a) ∷ two ∷ []
unfolding into_paths add_segments add_segment add_static add_value with_and_without get ◌=b◌
into_paths-route = refl

into_paths_iff_example : In two (into_paths given route) ↔ Spells given route two
into_paths_iff_example = into_paths_iff given route two

into_paths-expand_optionals_example :
    In two (into_paths given route)
    ↔ ((r : List PathSegment) × In r (choices route) × In two (into_paths given r))
into_paths-expand_optionals_example =
    into_paths-expand_optionals given route two (choices route) (expand_optionals-choices route).0

get-insert_example :
    (get n (insert n [] ((n, a ∷ []) ∷ [])) ≡ some [])
    × ((a ≢ n) → get a (insert n [] ((n, a ∷ []) ∷ [])) ≡ get a ((n, a ∷ []) ∷ []))
get-insert_example = get-insert n a [] ((n, a ∷ []) ∷ [])
