-- ===== src/Router/Segments/Placed.antt =====
-- The contract of a segment's test: it takes a beginning of the path and leaves the rest, and reports
-- what it took, or a `/` more that it leaves. Most segments are exact: they report what they took.
use halyard.Prelude.{
  ◌≡◌, ◌⊎◌, inl, inr, refl, sym, ap, ◌∙◌, true, false, some, [], ◌∷◌, ◌++◌, arith, Bool-cases,
  Option-cases,
}
use mathlib.Core.List.{append-nil}
use halyard.Prelude.Bytes.{Bytes, ◌=b◌, =b_iff, strip_suffix, is_empty, starts_with_byte}
use halyard.Prelude.Prefixes.{strip_suffix-some}
use halyard.Router.Segments.{
  slash, PartialPathMatch, PossibleRouteMatch, static_name_test, static_test, param_test,
  wildcard_test, unit_test, static_segment, param_segment, wildcard_segment, optional_param_segment,
  unit_segment,
}
use halyard.Router.Segments.Single.{param_test_iff, optional_param_test_total}

pub record Placed (path : Bytes) (m : PartialPathMatch) : Type 0 where
  pub consumed : Bytes
  pub split : path ≡ consumed ++ m.remaining
  pub reported :
      (m.matched ≡ consumed)
      ⊎ (starts_with_byte b'/' m.remaining ≡ true) × (m.matched ≡ consumed ++ slash)

abbrev pub IsPlacing : PossibleRouteMatch → Type 0
IsPlacing segment =
    (path : Bytes) (m : PartialPathMatch) → segment.test path ≡ some m → Placed path m

-- What is reported and what is left make up the path.
abbrev pub IsExact : PossibleRouteMatch → Type 0
IsExact segment =
    (path : Bytes) (m : PartialPathMatch)
    → segment.test path ≡ some m
    → path ≡ m.matched ++ m.remaining

exact-Placed :
    (segment : PossibleRouteMatch) (path : Bytes) (m : PartialPathMatch)
    → IsExact segment
    → segment.test path ≡ some m
    → Placed path m
exact-Placed segment path m exact h = record {
  consumed = m.matched;
  split = exact path m h;
  reported = inl refl;
}

static_name_test-suffix :
    (name path : Bytes) (m : PartialPathMatch)
    → static_name_test name path ≡ some m
    → strip_suffix m.remaining path ≡ some m.matched
unfolding static_name_test
static_name_test-suffix name path m h = ground arith

static_test-IsExact : (name : Bytes) → (name ≡ slash) ⊎ IsExact (static_segment name)
unfolding static_test
static_test-IsExact name = elim (Bool-cases (name =b slash)) [
  | inl s ↦ inl ((=b_iff name slash).0 s)
  | inr s ↦ inr (λ path m h. elim (Bool-cases (is_empty name)) [
    | inl e ↦ ground arith
    | inr e ↦
        let named : static_name_test name path ≡ some m = ground arith in
        strip_suffix-some m.remaining path (static_name_test-suffix name path m named)
  ])
]

static_test-Placed :
    (name path : Bytes) (m : PartialPathMatch) → static_test name path ≡ some m → Placed path m
unfolding static_test
static_test-Placed name path m h = elim (static_test-IsExact name) [
  | inr exact ↦ exact-Placed (static_segment name) path m exact h
  | inl s ↦
      let e : is_empty name ≡ false = ap is_empty s in
      let t : (name =b slash) ≡ true = (=b_iff name slash).1 s in
      record { consumed = []; split = ground arith; reported = inr (ground arith, ground arith) }
]

wildcard_test-some :
    (name path : Bytes) (m : PartialPathMatch)
    → wildcard_test name path ≡ some m
    → (m.remaining ≡ []) × (m.matched ≡ path)
unfolding wildcard_test
wildcard_test-some name path m h = ground arith

wildcard_test-IsExact : (name : Bytes) → IsExact (wildcard_segment name)
wildcard_test-IsExact name path m h =
    let (none_left, all) = wildcard_test-some name path m h in
    sym (append-nil path)
    ∙ ap (λ l. path ++ l) (sym none_left)
    ∙ ap (λ l. l ++ m.remaining) (sym all)

param_test-IsExact : (name : Bytes) → IsExact (param_segment name)
param_test-IsExact name path m h =
    let v = (param_test_iff name path m).0 h in
    let rest : m.remaining ≡ v.rest = ap (λ n. n.remaining) v.gives in
    let took : m.matched ≡ b'/' ∷ v.value = ap (λ n. n.matched) v.gives in
    v.begins.path_eq
    ∙ ap (λ l. b'/' ∷ (v.value ++ l)) (sym rest)
    ∙ ap (λ l. l ++ m.remaining) (sym took)

optional_param_test-IsExact : (name : Bytes) → IsExact (optional_param_segment name)
optional_param_test-IsExact name path m h =
    let total = optional_param_test_total name path in
    elim (Option-cases (param_test name path)) [
      | inl lost ↦ ground arith
      | inr (m', found) ↦ param_test-IsExact name path m (ground arith)
    ]

unit_test-IsExact : IsExact unit_segment
unfolding unit_test
unit_test-IsExact path m h = ground arith

-- Each kind of segment takes a beginning of the path, leaves the rest, and reports what it took, or this and a `/`
-- that it leaves. What a segment reports is exactly what it took unless it is the static segment `/`.
pub segments_IsPlacing :
    (name : Bytes)
    → (IsPlacing unit_segment
        × IsPlacing (static_segment name)
        × IsPlacing (param_segment name)
        × IsPlacing (wildcard_segment name)
        × IsPlacing (optional_param_segment name))
      × IsExact unit_segment
      × ((name ≡ slash) ⊎ IsExact (static_segment name))
      × IsExact (param_segment name)
      × IsExact (wildcard_segment name)
      × IsExact (optional_param_segment name)
segments_IsPlacing name = (
  (
    λ path m. exact-Placed unit_segment path m unit_test-IsExact,
    static_test-Placed name,
    λ path m. exact-Placed (param_segment name) path m (param_test-IsExact name),
    λ path m. exact-Placed (wildcard_segment name) path m (wildcard_test-IsExact name),
    λ path m. exact-Placed (optional_param_segment name) path m (optional_param_test-IsExact name),
  ),
  unit_test-IsExact,
  static_test-IsExact name,
  param_test-IsExact name,
  wildcard_test-IsExact name,
  optional_param_test-IsExact name,
)
