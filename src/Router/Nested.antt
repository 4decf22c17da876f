-- ===== src/Router/Nested.antt =====
-- halyard/src/router/matching/nested/{mod,tuples}.rs and matching/mod.rs: a path against a tree of routes. A route
-- without its view, which matching only passes on.
pub mod Below
pub mod Whole
mod Tests
use halyard.Prelude.{
  ℕ, zero, suc, Bool, true, false, ◌&&◌, ◌||◌, Option, none, some, List, [], ◌∷◌, ◌++◌, ◌==◌,
  if◌then◌else◌, length, map,
}
use halyard.Prelude.Bytes.{Bytes, ◌=b◌, strip_prefix, strip_suffix, is_empty, starts_with_byte}
use halyard.Router.Segments.{PathSegment, Params, PartialPathMatch, PossibleRouteMatch, slash}

-- `()`, a `NestedRoute` with its id and segments, without children or with them, and a pair of routes; a longer tuple
-- or a `StaticVec` tries its routes in the same order.
pub data Routes : Type 0 where
  unit_route : Routes
  leaf : ℕ → PossibleRouteMatch → Routes
  parent : ℕ → PossibleRouteMatch → Routes → Routes
  pair : Routes → Routes → Routes

-- The matched routes: `()`, or a `NestedMatch` with its id, its matched text, its parameters and its child, if any.
pub data RouteMatch : Type 0 where
  unit_match : RouteMatch
  leaf_match : ℕ → Bytes → Params → RouteMatch
  parent_match : ℕ → Bytes → Params → RouteMatch → RouteMatch

pub as_matched : RouteMatch → Bytes
as_matched unit_match = []
as_matched (leaf_match id matched params) = matched
as_matched (parent_match id matched params child) = matched

pub to_params : RouteMatch → Params
to_params unit_match = []
to_params (leaf_match id matched params) = params
to_params (parent_match id matched params child) = params

-- `remaining.is_empty() || remaining == "/"`
abbrev pub is_end : Bytes → Bool
is_end remaining = is_empty remaining || remaining =b slash

-- `trim_end_matches` with a string, on fuel: each round takes at least a byte.
abbrev pub trim_rounds : ℕ → Bytes → Bytes → Bytes
trim_rounds zero suffix s = s
trim_rounds (suc fuel) suffix s = elim (strip_suffix suffix s) [
  | none ↦ s
  | some rest ↦ trim_rounds fuel suffix rest
]

abbrev pub trim_end_matches : Bytes → Bytes → Bytes
trim_end_matches suffix s = if is_empty suffix then s else trim_rounds (length s) suffix s

abbrev pub trim_start_slashes : Bytes → Bytes
trim_start_slashes [] = []
trim_start_slashes (b ∷ s) = let rest = trim_start_slashes s in if b == b'/' then rest else b ∷ s

pub optional : Routes → Bool
optional unit_route = false
optional (leaf id segments) = segments.optional
optional (parent id segments children) = segments.optional && optional children
optional (pair a b) = optional a && optional b

-- The child's match, what it leaves, and whether it was matched again against the full path.
pub record ChildMatch : Type 0 where
  pub child : RouteMatch
  pub remaining : Bytes
  pub was_optional_fallback : Bool

abbrev pub as_child : Bool → Option RouteMatch × Bytes → Option ChildMatch
as_child fallback (none, remaining) = none
as_child fallback (some child, remaining) =
    some (record { child = child; remaining = remaining; was_optional_fallback = fallback })

-- What is matched of the children: after the parent's match, or from the start where the parent was optional.
abbrev pub choose_child :
    Bool → Option RouteMatch × Bytes → Option RouteMatch × Bytes → Option ChildMatch
choose_child this_was_optional (some child, remaining) whole =
    as_child false (some child, remaining)
choose_child this_was_optional (none, remaining) whole =
    if this_was_optional then as_child true whole else none

-- The parameters of the parent: those of its match, or read again from what the child has left.
abbrev pub reparse : PossibleRouteMatch → Bytes → PartialPathMatch → ChildMatch → Option Params
reparse segments path partial c =
    if c.was_optional_fallback
    then (elim (segments.test (trim_end_matches (as_matched c.child ++ c.remaining) path)) [
      | none ↦ none
      | some again ↦ some again.params
    ])
    else some partial.params

pub finish_leaf : ℕ → PartialPathMatch → Option RouteMatch × Bytes → Option RouteMatch × Bytes
finish_leaf id partial fails =
    if is_end partial.remaining
    then (some (leaf_match id partial.matched (partial.params ++ [])), partial.remaining)
    else fails

pub finish_parent :
    ℕ
    → PossibleRouteMatch
    → Bytes
    → PartialPathMatch
    → Option ChildMatch
    → Option RouteMatch × Bytes
finish_parent id segments path partial none = (none, path)
finish_parent id segments path partial (some c) =
    if is_end c.remaining
    then (elim (reparse segments path partial c) [
      | none ↦ (none, path)
      | some params ↦ (
        some (parent_match id partial.matched (params ++ to_params c.child) c.child),
        c.remaining,
      )
    ])
    else (none, path)

pub match_nested : Routes → Bytes → Option RouteMatch × Bytes
match_nested unit_route path = (some unit_match, path)
match_nested (leaf id segments) path = elim (segments.test path) [
  | none ↦ (none, path)
  | some partial ↦ finish_leaf id partial (none, path)
]
match_nested (parent id segments children) path = elim (segments.test path) [
  | none ↦ (none, path)
  | some partial ↦ finish_parent id segments path partial (
      choose_child segments.optional (match_nested children partial.remaining)
        (match_nested children path))
]
match_nested (pair a b) path = elim (match_nested a path).0 [
  | some matched ↦ (some matched, (match_nested a path).1)
  | none ↦ elim (match_nested b path).0 [
    | some matched ↦ (some matched, (match_nested b path).1)
    | none ↦ (none, path)
  ]
]

-- The path past the base.
pub strip_base : Option Bytes → Bytes → Option Bytes
strip_base none path = some path
strip_base (some base) path =
    if starts_with_byte b'/' base
    then strip_prefix (trim_start_slashes base) (trim_start_slashes path)
    else strip_prefix base path

pub match_route : Option Bytes → Routes → Bytes → Option RouteMatch
match_route base children path = elim (strip_base base path) [
  | none ↦ none
  | some path' ↦
      let (matched, remaining) = match_nested children path' in
      elim matched [ none ↦ none | some m ↦ if is_end remaining then some m else none ]
]
