-- ===== src/Router/Segments.antt =====
-- halyard/src/router/matching/horizontal/{mod,static_segment,param_segments}.rs: one segment of a route
-- against the beginning of a path. A `str` is its bytes.
pub mod Parts
pub mod Single
pub mod Placed
use halyard.Prelude.{
  ℕ, Bool, true, false, not, ◌&&◌, ◌||◌, Option, none, some, List, [], ◌∷◌, ◌++◌, if◌then◌else◌,
}
use halyard.Prelude.Bytes.{
  Bytes, ◌=b◌, strip_prefix, strip_suffix, find_byte, contains_byte, is_empty, starts_with_byte,
  split_at_checked,
}

pub data PathSegment : Type 0 where
  unit : PathSegment
  static param optional_param splat : Bytes → PathSegment

pub as_raw_str : PathSegment → Bytes
as_raw_str unit = []
as_raw_str (static i) = i
as_raw_str (param i) = i
as_raw_str (optional_param i) = i
as_raw_str (splat i) = i

abbrev pub Params : Type 0
Params = List (Bytes × Bytes)

pub record PartialPathMatch : Type 0 where
  pub remaining : Bytes
  pub params : Params
  pub matched : Bytes

-- The trait `PossibleRouteMatch`.
pub record PossibleRouteMatch : Type 0 where
  pub optional : Bool
  pub test : Bytes → Option PartialPathMatch
  pub generate_path : List PathSegment → List PathSegment

abbrev pub slash : Bytes
slash = b'/' ∷ []

infixl 5 ◌>>=◌
abbrev pub ◌>>=◌ {ℓ κ} : {A : Type ℓ} {B : Type κ} → Option A → (A → Option B) → Option B
none >>= k = none
some a >>= k = k a

-- `cond.then(|| value)`
abbrev pub guard : Bool → Option (Unit {0})
guard true = some tt
guard false = none

unfoldable pub unit_test : Bytes → Option PartialPathMatch
unit_test path = some (record { remaining = path; params = []; matched = [] })

-- Past the checks for the segments `""` and `"/"`.
unfoldable pub static_name_test : Bytes → Bytes → Option PartialPathMatch
static_name_test segment path = do
  rest ← strip_prefix slash path
  let name : Bytes = elim (strip_prefix slash segment) [ none ↦ segment | some name ↦ name ]
  _ ← guard (not (contains_byte b'/' name))
  remaining ← strip_prefix name rest
  _ ← guard (is_empty remaining || starts_with_byte b'/' remaining)
  matched ← strip_suffix remaining path
  some (record { remaining = remaining; params = []; matched = matched })

unfoldable pub static_test : Bytes → Bytes → Option PartialPathMatch
static_test segment path =
    let passed : PartialPathMatch = record { remaining = path; params = []; matched = [] } in
    let slashed : PartialPathMatch = record { remaining = path; params = []; matched = slash } in
    if is_empty segment
    then if is_empty path || starts_with_byte b'/' path then some passed else none
    else if segment =b slash
    then if starts_with_byte b'/' path then some slashed else none
    else static_name_test segment path

-- The matched part, the value and the rest.
pub first_segment : Bytes → Option (Bytes × Bytes × Bytes)
first_segment path = do
  rest ← strip_prefix slash path
  let split : Option (Bytes × Bytes) = elim (find_byte b'/' rest) [
    | some end ↦ split_at_checked rest end
    | none ↦ some (rest, [])
  ]
  (value, remaining) ← split
  matched ← strip_suffix remaining path
  some (matched, value, remaining)

pub param_test : Bytes → Bytes → Option PartialPathMatch
param_test name path = do
  (matched, value, remaining) ← first_segment path
  _ ← guard (not (is_empty value))
  some (record { remaining = remaining; params = (name, value) ∷ []; matched = matched })

pub wildcard_test : Bytes → Bytes → Option PartialPathMatch
wildcard_test name path = do
  value ← (if is_empty path then some path else strip_prefix slash path)
  some (record { remaining = []; params = (name, value) ∷ []; matched = path })

pub optional_param_test : Bytes → Bytes → Option PartialPathMatch
optional_param_test name path =
    let nothing : Option PartialPathMatch =
      some (record { remaining = path; params = []; matched = [] }) in
    elim (first_segment path) [
      | none ↦ nothing
      | some (matched, value, remaining) ↦
          if is_empty value
          then nothing
          else some
              (record { remaining = remaining; params = (name, value) ∷ []; matched = matched })
    ]

-- The implementations of the trait.
abbrev pub unit_segment : PossibleRouteMatch
unit_segment = record { optional = false; test = unit_test; generate_path = λ path. path }

abbrev pub static_segment : Bytes → PossibleRouteMatch
static_segment name = record {
  optional = false;
  test = static_test name;
  generate_path = λ path. path ++ static name ∷ [];
}

abbrev pub param_segment : Bytes → PossibleRouteMatch
param_segment name = record {
  optional = false;
  test = param_test name;
  generate_path = λ path. path ++ param name ∷ [];
}

abbrev pub wildcard_segment : Bytes → PossibleRouteMatch
wildcard_segment name = record {
  optional = false;
  test = wildcard_test name;
  generate_path = λ path. path ++ splat name ∷ [];
}

abbrev pub optional_param_segment : Bytes → PossibleRouteMatch
optional_param_segment name = record {
  optional = true;
  test = optional_param_test name;
  generate_path = λ path. path ++ optional_param name ∷ [];
}
