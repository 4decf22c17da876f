-- ===== src/Router/StaticRoutes/Expanded.antt =====
-- The paths to prerender against the expansion of optional parameters.
use halyard.Prelude.{
  ◌≡◌, ◌↔◌, inl, inr, refl, sym, ap, ◌∙◌, subst, Option, some, List, [], ◌∷◌, ◌++◌, map,
}
use mathlib.Core.Option.{some-injective}
use halyard.Prelude.Bytes.{Bytes}
use halyard.Router.Segments.{PathSegment, unit, static, param, optional_param, splat}
use halyard.Router.Optionals.{expand_optionals}
use halyard.Router.Optionals.Expansion.{choices, expand_optionals-choices}
use halyard.Router.StaticRoutes.{StaticParamsMap, into_paths}
use halyard.Router.StaticRoutes.Spelled.{In, In-append, In-map, Spells, into_paths_iff}

module _ (params : Option StaticParamsMap) where
  -- One of the routes spells the path.
  abbrev AnySpells : List (List PathSegment) → Bytes → Type 0
  AnySpells routes path = (route : List PathSegment) × In route routes × Spells params route path

  Spells-kept :
      (segment : PathSegment) (segments : List PathSegment)
      → ((path : Bytes) → Spells params segments path ↔ AnySpells (choices segments) path)
      → (path : Bytes)
      → Spells params (segment ∷ segments) path
        ↔ AnySpells (map (λ rest. segment ∷ rest) (choices segments)) path
  Spells-kept segment segments ih path = (
    λ (text, rest, stands, spells, e).
        let (route, at, spells') = (ih rest).0 spells in
        (
          segment ∷ route,
          (In-map (λ l. segment ∷ l) (segment ∷ route) (choices segments)).1 (route, at, refl),
          (text, rest, stands, spells', e),
        ),
    λ (route, at, spells).
        let (later, at', is) = (In-map (λ l. segment ∷ l) route (choices segments)).0 at in
        let (text, rest, stands, spells', e) : Spells params (segment ∷ later) path =
          subst (λ q. Spells params q path) is spells in
        (text, rest, stands, (ih rest).1 (later, at', spells'), e),
  )

  Spells-choices :
      (segments : List PathSegment) (path : Bytes)
      → Spells params segments path ↔ AnySpells (choices segments) path
  Spells-choices [] path = (
    λ h. ([], inl refl, h),
    λ (route, at, h). elim at [
      | inl is ↦ subst (λ q. Spells params q path) is h
      | inr lost ↦ absurd lost
    ],
  )
  Spells-choices (unit ∷ segments) path = Spells-kept unit segments (Spells-choices segments) path
  Spells-choices (static s ∷ segments) path =
      Spells-kept (static s) segments (Spells-choices segments) path
  Spells-choices (param name ∷ segments) path =
      Spells-kept (param name) segments (Spells-choices segments) path
  Spells-choices (splat name ∷ segments) path =
      Spells-kept (splat name) segments (Spells-choices segments) path
  Spells-choices (optional_param name ∷ segments) path =
      let kept = Spells-kept (param name) segments (Spells-choices segments) path in
      let left_out = Spells-choices segments in
      let with_it = map (λ rest. param name ∷ rest) (choices segments) in
      (
        λ (text, rest, stands, spells, e). elim stands [
          | inl nothing ↦
              let (route, at, spells') = (left_out rest).0 spells in
              (
                route,
                (In-append route with_it (choices segments)).1 (inr at),
                subst (Spells params route) (sym (e ∙ ap (λ q. q ++ rest) nothing)) spells',
              )
          | inr value ↦
              let (route, at, spells') = kept.0 (text, rest, value, spells, e) in
              (route, (In-append route with_it (choices segments)).1 (inl at), spells')
        ],
        λ (route, at, spells). elim ((In-append route with_it (choices segments)).0 at) [
          | inl first ↦
              let (text, rest, value, spells', e) : Spells params (param name ∷ segments) path =
                kept.1 (route, first, spells) in
              (text, rest, inr value, spells', e)
          | inr second ↦ ([], path, inl refl, (left_out path).1 (route, second, spells), refl)
        ],
      )

  -- The paths to prerender for a route with optional parameters are those for the routes that
  -- `expand_optionals` lists.
  pub into_paths-expand_optionals :
      (segments : List PathSegment) (path : Bytes) (routes : List (List PathSegment))
      → expand_optionals segments ≡ some routes
      → In path (into_paths params segments)
        ↔ ((route : List PathSegment) × In route routes × In path (into_paths params route))
  into_paths-expand_optionals segments path routes h =
      let same : choices segments ≡ routes =
        some-injective (choices segments) routes (sym (expand_optionals-choices segments).0 ∙ h) in
      let spelled = Spells-choices segments path in
      (
        λ at.
            let (route, in_choices, spells) =
              spelled.0 ((into_paths_iff params segments path).0 at) in
            (route, subst (In route) same in_choices, (into_paths_iff params route path).1 spells),
        λ (route, at, in_paths). (into_paths_iff params segments path).1 (
            spelled.1 (
              route,
              subst (In route) (sym same) at,
              (into_paths_iff params route path).0 in_paths,
            )),
      )
