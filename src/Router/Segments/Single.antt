-- ===== src/Router/Segments/Single.antt =====
-- What a single segment matches.
use halyard.Prelude.{
  ◌≡◌, ◌↔◌, inl, inr, refl, sym, ap, ◌∙◌, subst, false, Option, none, some, [], ◌∷◌, ◌++◌, arith,
  Bool-cases, Option-cases,
}
use halyard.Prelude.Bytes.{Bytes, ◌=b◌, strip_prefix, strip_suffix, contains_byte, is_empty}
use halyard.Prelude.Prefixes.{strip_prefix-some, strip_prefix-append, strip_suffix-append}
use halyard.Router.Segments.{
  slash, first_segment, PartialPathMatch, static_name_test, static_test, param_test,
  optional_param_test,
}
use halyard.Router.Segments.Parts.{
  Ends, HasNoSlash, Begins, first_segment-cases, first_segment-append,
}

-- The match of a parameter.
abbrev pub binding : Bytes → Bytes → Bytes → PartialPathMatch
binding name value rest = record {
  remaining = rest;
  params = (name, value) ∷ [];
  matched = b'/' ∷ value;
}

-- A path that begins with a whole segment, which is not empty.
pub record HasValue (name path : Bytes) (m : PartialPathMatch) : Type 0 where
  pub value : Bytes
  pub rest : Bytes
  pub begins : Begins path value rest
  pub nonempty : is_empty value ≡ false
  pub gives : m ≡ binding name value rest

Begins-first_segment :
    {path value rest : Bytes}
    → Begins path value rest
    → first_segment path ≡ some (b'/' ∷ value, value, rest)
Begins-first_segment b = rw b.path_eq (first_segment-append _ _ b.whole b.ends)

HasValue-param_test :
    (name path : Bytes) (m : PartialPathMatch)
    → HasValue name path m
    → param_test name path ≡ some m
unfolding param_test
HasValue-param_test name path m h =
    let first = Begins-first_segment h.begins in
    let e = h.nonempty in let g = h.gives in rw (first, e, g) refl

param_test-HasValue :
    (name path : Bytes) (m : PartialPathMatch)
    → param_test name path ≡ some m
    → HasValue name path m
unfolding param_test
param_test-HasValue name path m h = elim (first_segment-cases path) [
  | inl (lost, _) ↦ ground arith
  | inr (value, rest, begins, first) ↦ elim (Bool-cases (is_empty value)) [
    | inl e ↦ ground arith
    | inr e ↦ record {
      value = value;
      rest = rest;
      begins = begins;
      nonempty = e;
      gives = ground arith;
    }
  ]
]

-- A parameter matches exactly a path that begins with `/`, a value that is not empty and has no `/`,
-- and then a `/` or the end; it binds the value and leaves the rest.
pub param_test_iff :
    (name path : Bytes) (m : PartialPathMatch)
    → (param_test name path ≡ some m) ↔ HasValue name path m
param_test_iff name path m = (param_test-HasValue name path m, HasValue-param_test name path m)

abbrev pub skipped : Bytes → PartialPathMatch
skipped path = record { remaining = path; params = []; matched = [] }

-- An optional parameter matches every path: it binds what a parameter would, and takes nothing where a
-- parameter does not match.
pub optional_param_test_total :
    (name path : Bytes)
    → optional_param_test name path
      ≡ (elim (param_test name path) as (λ _. Option PartialPathMatch) [
        | none ↦ some (skipped path)
        | some m ↦ some m
      ])
unfolding optional_param_test param_test
optional_param_test_total name path = elim (first_segment-cases path) [
  | inl (lost, _) ↦ rw (lost, optional_param_test, param_test) refl
  | inr (value, rest, begins, first) ↦ elim (Bool-cases (is_empty value)) [
    | inl e ↦ rw (first, e, optional_param_test, param_test) refl
    | inr e ↦ rw (first, e, optional_param_test, param_test) refl
  ]
]

-- The match of a static segment `name`.
abbrev pub consumed_name : Bytes → Bytes → PartialPathMatch
consumed_name name rest = record { remaining = rest; params = []; matched = b'/' ∷ name }

-- The name of a static segment, with no `/` in it.
abbrev pub IsPlainName : Bytes → Type 0
IsPlainName name = (is_empty name ≡ false) × HasNoSlash name

plain_tests :
    (name : Bytes) → IsPlainName name → ((name =b slash) ≡ false) × (strip_prefix slash name ≡ none)
unfolding contains_byte strip_prefix ◌=b◌
plain_tests [] h = cc
plain_tests (c ∷ name) h = ground arith

pub static_test-append :
    (name rest : Bytes)
    → IsPlainName name
    → Ends rest
    → static_test name (b'/' ∷ (name ++ rest)) ≡ some (consumed_name name rest)
unfolding static_test static_name_test
static_test-append name rest (some_name, whole) e =
    let (other, bare) = plain_tests name (some_name, whole) in
    let rooted : strip_prefix slash (b'/' ∷ (name ++ rest)) ≡ some (name ++ rest) =
      strip_prefix-append slash (name ++ rest) in
    let named = strip_prefix-append name rest in
    let matched : strip_suffix rest (b'/' ∷ (name ++ rest)) ≡ some (b'/' ∷ name) =
      strip_suffix-append (b'/' ∷ name) rest in
    ground arith

static_test-some :
    (name path : Bytes) {m : PartialPathMatch}
    → IsPlainName name
    → static_test name path ≡ some m
    → (rest : Bytes) × (path ≡ b'/' ∷ (name ++ rest)) × Ends rest
unfolding static_test static_name_test
static_test-some name path {m} (some_name, whole) h =
    let (other, bare) = plain_tests name (some_name, whole) in
    elim (Option-cases (strip_prefix slash path)) [
      | inl lost ↦ ground arith
      | inr (rest, rooted) ↦ elim (Option-cases (strip_prefix name rest)) [
        | inl lost ↦ ground arith
        | inr (remaining, named) ↦ (
          remaining,
          strip_prefix-some slash path rooted
              ∙ ap (λ l. b'/' ∷ l) (strip_prefix-some name rest named),
          ground arith,
        )
      ]
    ]

-- A static segment with a name of its own matches exactly `/`, the name, and then a `/` or the end.
pub static_test_iff :
    (name path : Bytes) (m : PartialPathMatch)
    → IsPlainName name
    → (static_test name path ≡ some m) ↔ (
        (rest : Bytes) × (path ≡ b'/' ∷ (name ++ rest)) × Ends rest × (m ≡ consumed_name name rest))
static_test_iff name path m plain = (to, from)
  where
    to :
        static_test name path ≡ some m
        → (rest : Bytes) × (path ≡ b'/' ∷ (name ++ rest))
          × Ends rest
          × (m ≡ consumed_name name rest)
    to h =
        let (rest, e, ends) = static_test-some name path plain h in
        let found : static_test name path ≡ some (consumed_name name rest) =
          subst (λ p. static_test name p ≡ some (consumed_name name rest)) (sym e)
            (static_test-append name rest plain ends) in
        let same : some m ≡ some (consumed_name name rest) = sym h ∙ found in (rest, e, ends, cc)

    from :
        (rest : Bytes) × (path ≡ b'/' ∷ (name ++ rest)) × Ends rest × (m ≡ consumed_name name rest)
        → static_test name path ≡ some m
    from (rest, e, ends, g) = rw (e, g) (static_test-append name rest plain ends)
