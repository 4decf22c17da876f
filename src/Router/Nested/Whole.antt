-- ===== src/Router/Nested/Whole.antt =====
-- A match of nested routes takes the whole path, below the base.
use halyard.Prelude.{
  ℕ, [], ◌++◌, ◌≡◌, ◌↔◌, ◌⊎◌, refl, ap, ◌∙◌, true, false, Bool-cases, inl, inr, Option, none, some,
  Option-cases,
}
use halyard.Prelude.Bytes.{Bytes}
use halyard.Router.Segments.{PartialPathMatch, PossibleRouteMatch, slash}
use halyard.Router.Nested.Below.{
  Below, strip_base-Below, Below-strip_base, is_end-cases, end-is_end,
}
use halyard.Router.Nested.{
  Routes, unit_route, leaf, parent, pair, RouteMatch, leaf_match, parent_match, is_end,
  choose_child, reparse, finish_leaf, finish_parent, ChildMatch, match_nested, strip_base,
  match_route, to_params,
}

-- The alternatives are routes of their own, not `()`.
abbrev pub IsNested : Routes → Type 0
IsNested unit_route = true ≡ false
IsNested (leaf id segments) = Unit {0}
IsNested (parent id segments children) = Unit {0}
IsNested (pair a b) = IsNested a × IsNested b

-- Either a match that leaves at most a slash, or none, with the path as it was.
abbrev pub Whole : Bytes → Option RouteMatch × Bytes → Type 0
Whole path r =
    ((m : RouteMatch) × (r.0 ≡ some m) × (is_end r.1 ≡ true)) ⊎ ((r.0 ≡ none) × (r.1 ≡ path))

finish_parent-Whole :
    (id : ℕ) (segments : PossibleRouteMatch) (path : Bytes) (partial : PartialPathMatch)
    (c : Option ChildMatch)
    → Whole path (finish_parent id segments path partial c)
unfolding finish_parent
finish_parent-Whole id segments path partial none = inr (refl, refl)
finish_parent-Whole id segments path partial (some c) = elim (Bool-cases (is_end c.remaining)) [
  | inr e ↦ rw e (inr (refl, refl))
  | inl e ↦ elim (Option-cases (reparse segments path partial c)) [
    | inl e' ↦ rw (e, e') (inr (refl, refl))
    | inr (params, e') ↦
        rw (e, e')
          (inl (parent_match id partial.matched (params ++ to_params c.child) c.child, refl, e))
  ]
]

-- Nested routes match the whole path, but for at most a slash, or not at all, and then give the path back.
pub match_nested-Whole :
    (routes : Routes) (path : Bytes) → IsNested routes → Whole path (match_nested routes path)
unfolding match_nested finish_leaf
match_nested-Whole unit_route path h = cc
match_nested-Whole (leaf id segments) path h = elim (Option-cases (segments.test path)) [
  | inl e ↦ rw (e, match_nested) (inr (refl, refl))
  | inr (partial, e) ↦ elim (Bool-cases (is_end partial.remaining)) [
    | inl e' ↦
        rw (e, e', match_nested, finish_leaf)
          (inl (leaf_match id partial.matched (partial.params ++ []), refl, e'))
    | inr e' ↦ rw (e, e', match_nested, finish_leaf) (inr (refl, refl))
  ]
]
match_nested-Whole (parent id segments children) path h = elim (Option-cases (segments.test path)) [
  | inl e ↦ rw (e, match_nested) (inr (refl, refl))
  | inr (partial, e) ↦
      rw (e, match_nested)
        (finish_parent-Whole id segments path partial (
          choose_child segments.optional (match_nested children partial.remaining)
            (match_nested children path)))
]
match_nested-Whole (pair a b) path h = elim (match_nested-Whole a path h.0) [
  | inl (m, e, end) ↦ rw (e, match_nested) (inl (m, refl, end))
  | inr (e, back) ↦ elim (match_nested-Whole b path h.1) [
    | inl (m, e', end) ↦ rw (e, e', match_nested) (inl (m, refl, end))
    | inr (e', back') ↦ rw (e, e', match_nested) (inr (refl, refl))
  ]
]

-- A route matches exactly if the path lies below the base, and the routes match the rest of it and leave nothing
-- or a slash.
pub match_route_iff :
    (base : Option Bytes) (routes : Routes) (path : Bytes) (m : RouteMatch)
    → (match_route base routes path ≡ some m) ↔ (
        (path' : Bytes) × Below base path path'
        × (r : Bytes) × (match_nested routes path' ≡ (some m, r))
        × ((r ≡ []) ⊎ (r ≡ slash)))
unfolding match_route
match_route_iff base routes path m = elim (Option-cases (strip_base base path)) [
  | inl e ↦ (
    λ x. let lost : none ≡ some m = rw (e, match_route) at x in absurd cc,
    λ (path', below, r, found, end).
        let there = Below-strip_base base path path' below in absurd cc,
  )
  | inr (rest, e) ↦ (to rest e, from rest e)
]
  where
    to :
        (rest : Bytes)
        → strip_base base path ≡ some rest
        → match_route base routes path ≡ some m
        → (path' : Bytes) × Below base path path'
          × (r : Bytes) × (match_nested routes path' ≡ (some m, r))
          × ((r ≡ []) ⊎ (r ≡ slash))
    to rest e x =
        let below = strip_base-Below base path rest e in
        elim (Option-cases (match_nested routes rest).0) [
          | inl e' ↦ let lost : none ≡ some m = rw (e, e', match_route) at x in absurd cc
          | inr (m', e') ↦ elim (Bool-cases (is_end (match_nested routes rest).1)) [
            | inl end ↦
                let same : some m' ≡ some m = rw (e, e', end, match_route) at x in
                (
                  rest,
                  below,
                  (match_nested routes rest).1,
                  ap (λ o. (o, (match_nested routes rest).1)) (e' ∙ same),
                  is_end-cases (match_nested routes rest).1 end,
                )
            | inr more ↦ let lost : none ≡ some m = rw (e, e', more, match_route) at x in absurd cc
          ]
        ]

    from :
        (rest : Bytes)
        → strip_base base path ≡ some rest
        → (path' : Bytes) × Below base path path'
          × (r : Bytes) × (match_nested routes path' ≡ (some m, r))
          × ((r ≡ []) ⊎ (r ≡ slash))
        → match_route base routes path ≡ some m
    from rest e (path', below, r, found, end) =
        let there = Below-strip_base base path path' below in
        let first : (match_nested routes path').0 ≡ some m = ap (λ q. q.0) found in
        let ended : is_end (match_nested routes path').1 ≡ true =
          ap (λ q. is_end q.1) found ∙ end-is_end r end in
        rw (there, first, ended, match_route) refl
