-- ===== src/Axum/Registry/Tests.antt =====
-- The theorems on a registry with two routes.
use halyard.Prelude.{ℕ, ◌≡◌, ◌↔◌, ◌⊎◌, refl, true, some, [], ◌∷◌, ◌==◌, ==_iff, ok, err}
use halyard.Prelude.Bytes.{◌=b◌}
use halyard.Axum.RoutePath.Tests.{user, user_tokens, parse-user}
use halyard.Axum.Registry.{
  Http, Registry, admit, admit_parsed, contains, find_path, push_method, duplicate,
}
use halyard.Axum.Registry.Invariant.{Has, IsConsistent, admit-IsConsistent}
use halyard.Axum.Registry.Admission.{admit-Has, Fits, admit-ok_iff, admit_refused}

-- Methods are numbers, and each is supported.
abbrev numbered : Http
numbered = record {
  Method = ℕ;
  Filter = ℕ;
  method_eq = λ m n. m == n;
  method_eq_iff = ==_iff;
  filter = λ m. some m;
}

abbrev get_method : ℕ
get_method = 0

abbrev post_method : ℕ
post_method = 1

abbrev one_route : Registry numbered
one_route = record { path = user; parsed = user_tokens; methods = get_method ∷ [] } ∷ []

abbrev two_methods : Registry numbered
two_methods =
    record { path = user; parsed = user_tokens; methods = get_method ∷ post_method ∷ [] } ∷ []

one_route-IsConsistent : IsConsistent numbered one_route
unfolding contains
one_route-IsConsistent = (parse-user, tt, (refl, tt), tt)

admit-post : admit numbered one_route user post_method ≡ (two_methods, ok post_method)
unfolding admit admit_parsed contains find_path push_method ◌=b◌
admit-post = rw (admit, parse-user) refl

admit-get : admit numbered one_route user get_method ≡ (one_route, err (duplicate user get_method))
unfolding admit admit_parsed contains find_path ◌=b◌
admit-get = rw (admit, parse-user) refl

admit-IsConsistent_example : IsConsistent numbered (admit numbered one_route user post_method).0
admit-IsConsistent_example =
    admit-IsConsistent numbered one_route user post_method one_route-IsConsistent

admit-ok_iff_example :
    ((admit numbered one_route user post_method).1 ≡ ok post_method)
    ↔ Fits numbered one_route user post_method post_method
admit-ok_iff_example =
    admit-ok_iff numbered one_route user post_method post_method one_route-IsConsistent

admit-post-ok : (admit numbered one_route user post_method).1 ≡ ok post_method
admit-post-ok = rw admit-post refl

admit-Has_example : Has numbered (admit numbered one_route user post_method).0 user get_method ↔ (
    Has numbered one_route user get_method ⊎ (user ≡ user) × ((post_method == get_method) ≡ true))
admit-Has_example = admit-Has numbered one_route user user post_method get_method admit-post-ok

admit-get_refused : (admit numbered one_route user get_method).1 ≡ err (duplicate user get_method)
admit-get_refused = rw admit-get refl

admit_refused_example : (admit numbered one_route user get_method).0 ≡ one_route
admit_refused_example =
    admit_refused numbered one_route user get_method (duplicate user get_method) admit-get_refused
