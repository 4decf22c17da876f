-- ===== src/Router/Tuples.antt =====
-- halyard/src/router/matching/horizontal/tuples.rs: a tuple of segments, one after the other.
pub mod Sound
pub mod RoundTrip
use halyard.Prelude.{
  ℕ, zero, suc, ◌+◌, Bool, true, false, not, ◌||◌, Option, none, some, List, [], ◌∷◌, ◌++◌, leb,
  max, length, if◌then◌else◌,
}
use halyard.Prelude.Words.{checked_sub}
use halyard.Prelude.Bytes.{Bytes, get_prefix}
use halyard.Router.Segments.{
  PathSegment, PartialPathMatch, PossibleRouteMatch, Params, unit_test, ◌>>=◌,
}

-- `MatchedPrefix::record`: the new end of the matched prefix of `path`. The sums are of lengths of parts
-- of `path`, which do not overflow.
pub record_match : Bytes → ℕ → Bytes → Bytes → Bytes → Option ℕ
record_match path end input matched remaining = do
  start ← checked_sub (length path) (length input)
  consumed_end ← checked_sub (length path) (length remaining)
  some (max (max end (start + length matched)) consumed_end)

-- What one pass over the segments gives.
pub data Pass : Type 0 where
  matches : PartialPathMatch → Pass
  fails : Pass
  -- A segment that is not optional did not match: try with one optional fewer.
  retries : Pass

-- The variables of a pass: `nth_field`, `prefix.end`, `r` and `p`.
pub record Progress : Type 0 where
  pub nth_field : ℕ
  pub end : ℕ
  pub r : Bytes
  pub p : Params

abbrev pub finish_pass : Bytes → Progress → Pass
finish_pass path s = elim (get_prefix path s.end) [
  | none ↦ fails
  | some matched ↦ matches (record { remaining = s.r; params = s.p; matched = matched })
]

-- A segment that matched.
pub advance : Bytes → Progress → ℕ → PartialPathMatch → Option Progress
advance path s nth_field m = do
  end ← record_match path s.end s.r m.matched m.remaining
  some (record { nth_field = nth_field; end = end; r = m.remaining; p = s.p ++ m.params })

module _ (path : Bytes) (include_optionals : ℕ) where
  -- The segments after the first.
  pub pass_rest : Progress → List PossibleRouteMatch → Pass
  pass_rest s [] = finish_pass path s
  pass_rest s (segment ∷ segments) =
      let nth_field = if segment.optional then suc s.nth_field else s.nth_field in
      let skipped = pass_rest (record s { nth_field = nth_field }) segments in
      let tested : Pass = elim (segment.test s.r) [
        | none ↦ if segment.optional then fails else retries
        | some m ↦ elim (advance path s nth_field m) [
          | none ↦ fails
          | some s' ↦ pass_rest s' segments
        ]
      ] in
      if not segment.optional || leb nth_field include_optionals then tested else skipped

  abbrev pub start : Progress
  start = record { nth_field = 0; end = 0; r = path; p = [] }

  -- A whole pass; where the first segment does not match, the tuple does not.
  pub pass : PossibleRouteMatch → List PossibleRouteMatch → Pass
  pass first segments =
      let nth_field = if first.optional then 1 else 0 in
      let skipped = pass_rest (record start { nth_field = nth_field }) segments in
      let tested : Pass = elim (first.test path) [
        | none ↦ fails
        | some m ↦ elim (advance path start nth_field m) [
          | none ↦ fails
          | some s' ↦ pass_rest s' segments
        ]
      ] in
      if not first.optional || leb nth_field include_optionals then tested else skipped

pub count_optionals : List PossibleRouteMatch → ℕ
count_optionals [] = 0
count_optionals (segment ∷ segments) =
    if segment.optional then suc (count_optionals segments) else count_optionals segments

-- The loop, on the number of optionals included.
pub attempt : Bytes → PossibleRouteMatch → List PossibleRouteMatch → ℕ → Option PartialPathMatch
attempt path first segments zero = elim (pass path 0 first segments) [
  | matches m ↦ some m
  | fails ↦ none
  | retries ↦ none
]
attempt path first segments (suc n) = elim (pass path (suc n) first segments) [
  | matches m ↦ some m
  | fails ↦ none
  | retries ↦ attempt path first segments n
]

-- The implementation for tuples of one segment.
pub single_test : PossibleRouteMatch → Bytes → Option PartialPathMatch
single_test segment path = do
  m ← segment.test path
  end ← record_match path 0 path m.matched m.remaining
  matched ← get_prefix path end
  some (record { remaining = m.remaining; params = m.params; matched = matched })

pub tuple_test : List PossibleRouteMatch → Bytes → Option PartialPathMatch
tuple_test [] path = unit_test path
tuple_test (segment ∷ []) path = single_test segment path
tuple_test (first ∷ next ∷ segments) path =
    attempt path first (next ∷ segments) (count_optionals (first ∷ next ∷ segments))

pub tuple_optional : List PossibleRouteMatch → Bool
tuple_optional [] = false
tuple_optional (segment ∷ segments) = segment.optional || tuple_optional segments

pub tuple_generate_path : List PossibleRouteMatch → List PathSegment → List PathSegment
tuple_generate_path [] path = path
tuple_generate_path (segment ∷ segments) path =
    tuple_generate_path segments (segment.generate_path path)
