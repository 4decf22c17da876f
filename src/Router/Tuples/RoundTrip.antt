-- ===== src/Router/Tuples/RoundTrip.antt =====
-- Matching a path that was written for the route.
use halyard.Prelude.{
  ℕ, zero, suc, ◌≡◌, refl, sym, ap, ◌∙◌, subst, true, none, some, List, [], ◌∷◌, ◌++◌, map, All,
  length, length-append, get_elem?, take, arith,
}
use mathlib.Core.List.{append_assoc, append-nil}
use halyard.Prelude.Bytes.{Bytes, get_prefix, is_char_boundary}
use halyard.Router.Segments.{
  Params, PartialPathMatch, PossibleRouteMatch, static_segment, param_segment, unit_test,
}
use halyard.Router.Segments.Parts.{Ends}
use halyard.Router.Segments.Single.{IsPlainName, static_test-append, param_test_iff}
use halyard.Router.Tuples.{
  record_match, matches, Progress, finish_pass, advance, pass_rest, pass, attempt, single_test,
  tuple_test, count_optionals,
}

-- A segment of a route with the text that a path has in its place.
pub data Written : Type 0 where
  fixed : Bytes → Written
  bound : Bytes → Bytes → Written

abbrev pub text_of : Written → Bytes
text_of (fixed name) = name
text_of (bound name value) = value

abbrev pub segment_of : Written → PossibleRouteMatch
segment_of (fixed name) = static_segment name
segment_of (bound name value) = param_segment name

abbrev pub binding_of : Written → Params
binding_of (fixed name) = []
binding_of (bound name value) = (name, value) ∷ []

abbrev pub path_of : List Written → Bytes
path_of [] = []
path_of (w ∷ ws) = b'/' ∷ (text_of w ++ path_of ws)

abbrev pub params_of : List Written → Params
params_of [] = []
params_of (w ∷ ws) = binding_of w ++ params_of ws

path_of-Ends : (ws : List Written) → Ends (path_of ws)
path_of-Ends [] = refl
path_of-Ends (w ∷ ws) = refl

abbrev match_of : Written → List Written → PartialPathMatch
match_of w ws = record { remaining = path_of ws; params = binding_of w; matched = b'/' ∷ text_of w }

test-path_of :
    (w : Written) (ws : List Written)
    → IsPlainName (text_of w)
    → (segment_of w).test (path_of (w ∷ ws)) ≡ some (match_of w ws)
test-path_of (fixed name) ws h = static_test-append name (path_of ws) h (path_of-Ends ws)
test-path_of (bound name value) ws h =
    (param_test_iff name (path_of (bound name value ∷ ws)) (match_of (bound name value) ws)).1
      (record {
        value = value;
        rest = path_of ws;
        begins = record { path_eq = refl; whole = h.1; ends = path_of-Ends ws };
        nonempty = h.0;
        gives = refl;
      })

get_elem?-length {ℓ} : {A : Type ℓ} (s : List A) → get_elem? s (length s) ≡ none
get_elem?-length [] = refl
get_elem?-length (b ∷ s) = get_elem?-length s

take-length {ℓ} : {A : Type ℓ} (s : List A) → take (length s) s ≡ s
take-length [] = refl
take-length (b ∷ s) = ap (λ l. b ∷ l) (take-length s)

is_char_boundary-length : (s : Bytes) → is_char_boundary s (length s) ≡ true
unfolding is_char_boundary
is_char_boundary-length [] = refl
is_char_boundary-length (b ∷ s) = ground (arith, get_elem?-length s)

get_prefix-length : (s : Bytes) → get_prefix s (length s) ≡ some s
unfolding get_prefix
get_prefix-length s = ground (arith, is_char_boundary-length s, take-length s)

record_match-append :
    (before text rest : Bytes)
    → record_match (before ++ (text ++ rest)) (length before) (text ++ rest) text rest
      ≡ some (length (before ++ text))
unfolding record_match
record_match-append before text rest =
    ground (
      arith,
      length-append before (text ++ rest),
      length-append text rest,
      length-append before text,
    )

-- Before the segments `ws` are matched, `before` having been consumed.
abbrev at_segment : ℕ → Bytes → List Written → Params → Progress
at_segment nth before ws p = record { nth_field = nth; end = length before; r = path_of ws; p = p }

advance-path_of :
    (path before : Bytes) (nth : ℕ) (w : Written) (ws : List Written) (p : Params)
    → path ≡ before ++ path_of (w ∷ ws)
    → advance path (at_segment nth before (w ∷ ws) p) nth (match_of w ws)
      ≡ some (at_segment nth (before ++ b'/' ∷ text_of w) ws (p ++ binding_of w))
unfolding advance
advance-path_of path before nth w ws p e =
    let recorded : record_match path (length before) (path_of (w ∷ ws)) (b'/' ∷ text_of w)
          (path_of ws)
        ≡ some (length (before ++ b'/' ∷ text_of w)) =
      subst
        (λ q.
          record_match q (length before) (path_of (w ∷ ws)) (b'/' ∷ text_of w) (path_of ws)
          ≡ some (length (before ++ b'/' ∷ text_of w)))
        (sym e) (record_match-append before (b'/' ∷ text_of w) (path_of ws)) in
    rw (recorded, advance) refl

finish_pass-found :
    (path matched : Bytes) (s : Progress)
    → get_prefix path s.end ≡ some matched
    → finish_pass path s ≡ matches (record { remaining = s.r; params = s.p; matched = matched })
finish_pass-found path matched s h = ground arith

pass_rest-step :
    (path before : Bytes) (n nth : ℕ) (w : Written) (ws : List Written) (p : Params)
    → path ≡ before ++ path_of (w ∷ ws)
    → IsPlainName (text_of w)
    → pass_rest path n (at_segment nth before (w ∷ ws) p) (map segment_of (w ∷ ws))
      ≡ pass_rest path n
          (at_segment nth (before ++ b'/' ∷ text_of w) ws (p ++ binding_of w))
          (map segment_of ws)
unfolding pass_rest
pass_rest-step path before n nth (fixed name) ws p e h =
    rw
      (
        test-path_of (fixed name) ws h,
        advance-path_of path before nth (fixed name) ws p e,
        pass_rest,
      )
      refl
pass_rest-step path before n nth (bound name value) ws p e h =
    rw
      (
        test-path_of (bound name value) ws h,
        advance-path_of path before nth (bound name value) ws p e,
        pass_rest,
      )
      refl

pass_rest-path_of :
    (path before : Bytes) (n nth : ℕ) (ws : List Written) (p : Params)
    → path ≡ before ++ path_of ws
    → All (λ w. IsPlainName (text_of w)) ws
    → pass_rest path n (at_segment nth before ws p) (map segment_of ws)
      ≡ matches (record { remaining = []; params = p ++ params_of ws; matched = path })
unfolding pass_rest
pass_rest-path_of path before n nth [] p e h =
    let same : path ≡ before = e ∙ append-nil before in
    let found : get_prefix path (length before) ≡ some path =
      subst (λ q. get_prefix path (length q) ≡ some path) same (get_prefix-length path) in
    finish_pass-found path path (at_segment nth before [] p) found
    ∙ ap (λ q. matches (record { remaining = []; params = q; matched = path })) (sym (append-nil p))
pass_rest-path_of path before n nth (w ∷ ws) p e h =
    pass_rest-step path before n nth w ws p e h.0
    ∙ pass_rest-path_of path (before ++ b'/' ∷ text_of w) n nth ws (p ++ binding_of w)
        (e ∙ sym (append_assoc before (b'/' ∷ text_of w) (path_of ws))) h.1
    ∙ ap (λ q. matches (record { remaining = []; params = q; matched = path }))
        (append_assoc p (binding_of w) (params_of ws))

abbrev pub whole_match : List Written → PartialPathMatch
whole_match ws = record { remaining = []; params = params_of ws; matched = path_of ws }

pass-pass_rest :
    (n : ℕ) (w : Written) (ws : List Written)
    → IsPlainName (text_of w)
    → pass (path_of (w ∷ ws)) n (segment_of w) (map segment_of ws)
      ≡ pass_rest (path_of (w ∷ ws)) n (at_segment 0 [] (w ∷ ws) []) (map segment_of (w ∷ ws))
unfolding pass pass_rest
pass-pass_rest n (fixed name) ws h = rw (test-path_of (fixed name) ws h, pass, pass_rest) refl
pass-pass_rest n (bound name value) ws h =
    rw (test-path_of (bound name value) ws h, pass, pass_rest) refl

pass-path_of :
    (n : ℕ) (w : Written) (ws : List Written)
    → All (λ w. IsPlainName (text_of w)) (w ∷ ws)
    → pass (path_of (w ∷ ws)) n (segment_of w) (map segment_of ws) ≡ matches (whole_match (w ∷ ws))
unfolding pass
pass-path_of n w ws h =
    pass-pass_rest n w ws h.0 ∙ pass_rest-path_of (path_of (w ∷ ws)) [] n 0 (w ∷ ws) [] refl h

single_test-path_of :
    (w : Written)
    → IsPlainName (text_of w)
    → single_test (segment_of w) (path_of (w ∷ [])) ≡ some (whole_match (w ∷ []))
unfolding single_test
single_test-path_of w h =
    let path : Bytes = path_of (w ∷ []) in
    let tested = test-path_of w [] h in
    let recorded : record_match path 0 path (b'/' ∷ text_of w) []
        ≡ some (length (b'/' ∷ text_of w)) =
      record_match-append [] (b'/' ∷ text_of w) [] in
    let found : get_prefix path (length (b'/' ∷ text_of w)) ≡ some path =
      subst (λ q. get_prefix path (length q) ≡ some path) (append-nil (b'/' ∷ text_of w))
        (get_prefix-length path) in
    rw (tested, recorded, found, append-nil (binding_of w)) refl

attempt-matches :
    (path : Bytes) (first : PossibleRouteMatch) (segments : List PossibleRouteMatch) (n : ℕ)
    (m : PartialPathMatch)
    → pass path n first segments ≡ matches m
    → attempt path first segments n ≡ some m
unfolding attempt
attempt-matches path first segments zero m h = rw (h, attempt) refl
attempt-matches path first segments (suc n) m h = rw (h, attempt) refl

-- A path written for a route of static segments and parameters, with a name or a value that is not
-- empty and has no `/` in each place, is matched as a whole, and the parameters get their values.
pub tuple_test-path_of :
    (ws : List Written)
    → All (λ w. IsPlainName (text_of w)) ws
    → tuple_test (map segment_of ws) (path_of ws) ≡ some (whole_match ws)
unfolding tuple_test unit_test
tuple_test-path_of [] h = refl
tuple_test-path_of (w ∷ []) h = single_test-path_of w h.0
tuple_test-path_of (w ∷ w' ∷ ws) h =
    let n : ℕ = count_optionals (map segment_of (w ∷ w' ∷ ws)) in
    attempt-matches (path_of (w ∷ w' ∷ ws)) (segment_of w) (map segment_of (w' ∷ ws)) n
      (whole_match (w ∷ w' ∷ ws)) (pass-path_of n w (w' ∷ ws) h)
