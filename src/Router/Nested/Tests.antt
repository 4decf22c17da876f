-- ===== src/Router/Nested/Tests.antt =====
-- Nested routes on concrete paths.
use halyard.Prelude.{◌≡◌, ◌↔◌, ◌⊎◌, refl, some, [], ◌∷◌, ◌++◌}
use halyard.Prelude.Bytes.{Bytes, strip_prefix, strip_suffix, ◌=b◌, contains_byte}
use halyard.Router.Segments.{
  slash, static_segment, static_test, static_name_test, optional_param_segment,
}
use halyard.Router.Nested.{
  Routes, leaf, parent, pair, RouteMatch, leaf_match, match_nested, strip_base, match_route,
  finish_leaf,
}
use halyard.Router.Nested.Below.{Below}
use halyard.Router.Nested.Whole.{Whole, match_nested-Whole, match_route_iff}

abbrev about : Bytes
about = b'a' ∷ []

-- `/:n?` with `/a` below it, and `/a`.
abbrev routes : Routes
routes =
    pair (parent 1 (optional_param_segment (b'n' ∷ [])) (leaf 2 (static_segment about)))
      (leaf 3 (static_segment about))

abbrev path : Bytes
path = b'/' ∷ b'a' ∷ []

match_nested-Whole_example : Whole path (match_nested routes path)
match_nested-Whole_example = match_nested-Whole routes path (tt, tt)

abbrev about_match : RouteMatch
about_match = leaf_match 3 path []

-- `/b` and `/a`.
abbrev named : Routes
named = pair (leaf 2 (static_segment (b'b' ∷ []))) (leaf 3 (static_segment about))

match_route_iff_example : (match_route (some path) named (path ++ path) ≡ some about_match) ↔ (
    (path' : Bytes) × Below (some path) (path ++ path) path'
    × (r : Bytes) × (match_nested named path' ≡ (some about_match, r))
    × ((r ≡ []) ⊎ (r ≡ slash)))
match_route_iff_example = match_route_iff (some path) named (path ++ path) about_match

-- Below `/a`, the path `/a/a` matches.
match_route_about : match_route (some path) named (path ++ path) ≡ some about_match
unfolding match_route strip_base match_nested finish_leaf static_test static_name_test strip_prefix
    ◌=b◌ contains_byte strip_suffix
match_route_about = refl
