-- ===== src/Axum/Registry.antt =====
-- halyard/src/axum/route_path.rs, `RouteRegistry`: the routes added to one router so far. The `http`
-- crate's `Method`, its equality and axum's `MethodFilter::try_from` are parameters.
pub mod Invariant
pub mod Admission
mod Tests
use halyard.Prelude.{
  ◌≡◌, ◌↔◌, Bool, true, false, ◌||◌, Option, none, some, List, [], ◌∷◌, ◌++◌, if◌then◌else◌, Result,
  ok, err,
}
use halyard.Prelude.Bytes.{Bytes, ◌=b◌}
use halyard.Axum.RoutePath.{Token, PathError, parsed, failed, out_of_fuel, parse, conflicts_with}

-- What the registry uses of axum's and http's methods.
pub record Http : Type 1 where
  pub Method : Type 0
  pub Filter : Type 0
  pub method_eq : Method → Method → Bool
  pub method_eq_iff : (m n : Method) → (method_eq m n ≡ true) ↔ (m ≡ n)
  pub filter : Method → Option Filter

pub data RouteError (Method : Type 0) : Type 0 where
  invalid_path : Bytes → PathError → RouteError Method
  unsupported_method : Bytes → Method → RouteError Method
  duplicate : Bytes → Method → RouteError Method
  conflict : Bytes → Bytes → RouteError Method
  -- Reading the path ran out of fuel.
  unread : RouteError Method

pub record RegisteredPath (Method : Type 0) : Type 0 where
  pub path : Bytes
  pub parsed : List Token
  pub methods : List Method

module _ (http : Http) where
  open http use {Method, Filter, method_eq, filter}

  abbrev pub Registry : Type 0
  Registry = List (RegisteredPath Method)

  pub contains : List Method → Method → Bool
  contains [] m = false
  contains (n ∷ ns) m = method_eq n m || contains ns m

  pub find_path : Bytes → Registry → Option (RegisteredPath Method)
  find_path path [] = none
  find_path path (r ∷ rs) = if r.path =b path then some r else find_path path rs

  -- The method is pushed on the first entry of that path.
  pub push_method : Bytes → Method → Registry → Registry
  push_method path m [] = []
  push_method path m (r ∷ rs) =
      if r.path =b path
      then record r { methods = r.methods ++ m ∷ [] } ∷ rs
      else r ∷ push_method path m rs

  pub find_conflict : List Token → Registry → Option (RegisteredPath Method)
  find_conflict ts [] = none
  find_conflict ts (r ∷ rs) = if conflicts_with r.parsed ts then some r else find_conflict ts rs

  abbrev pub Admitted : Type 0
  Admitted = Registry × Result (RouteError Method) Filter

  -- Where the path is read: a second method of a known path, or a new path.
  pub admit_parsed : Registry → Bytes → Method → Filter → List Token → Admitted
  admit_parsed routes path m f ts = elim (find_path path routes) [
    | some existing ↦
        if contains existing.methods m
        then (routes, err (duplicate path m))
        else (push_method path m routes, ok f)
    | none ↦ elim (find_conflict ts routes) [
      | some existing ↦ (routes, err (conflict path existing.path))
      | none ↦ (routes ++ record { path = path; parsed = ts; methods = m ∷ [] } ∷ [], ok f)
    ]
  ]

  pub admit : Registry → Bytes → Method → Admitted
  admit routes path m = elim (filter m) [
    | none ↦ (routes, err (unsupported_method path m))
    | some f ↦ elim (parse path) [
      | failed reason ↦ (routes, err (invalid_path path reason))
      | out_of_fuel ↦ (routes, err unread)
      | parsed ts ↦ admit_parsed routes path m f ts
    ]
  ]
