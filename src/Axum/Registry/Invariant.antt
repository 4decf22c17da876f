-- ===== src/Axum/Registry/Invariant.antt =====
-- The registry's invariant: what it holds can stand in one router.
use halyard.Prelude.{
  ◌≡◌, ◌⊎◌, inl, inr, refl, true, false, ◌||◌, none, some, Option-cases, Bool-cases, List, [], ◌∷◌,
  ◌++◌, All, ok, err, arith,
}
use halyard.Prelude.Bytes.{Bytes, ◌=b◌}
use halyard.Axum.RoutePath.{
  Token, PathError, ParseResult, parsed, failed, out_of_fuel, parse, conflicts_with,
}
use halyard.Axum.Registry.{
  Http, RegisteredPath, Registry, contains, find_path, push_method, find_conflict, admit_parsed,
  admit, RouteError, unsupported_method, duplicate, conflict, invalid_path, unread,
}

pub ParseResult-cases :
    (r : ParseResult)
    → ((ts : List Token) × (r ≡ parsed ts)) ⊎ ((e : PathError) × (r ≡ failed e)) ⊎ (r ≡ out_of_fuel)
ParseResult-cases (parsed ts) = inl (ts, refl)
ParseResult-cases (failed e) = inr (inl (e, refl))
ParseResult-cases out_of_fuel = inr (inr refl)

module _ (http : Http) where
  open http use {Method, Filter, method_eq, method_eq_iff, filter}

  abbrev Registered : Type 0
  Registered = RegisteredPath Method

  -- `m` is routed at `path`.
  abbrev pub Has : Registry http → Bytes → Method → Type 0
  Has [] path m = ⊥
  Has (r ∷ rs) path m = ((r.path ≡ path) × (contains http r.methods m ≡ true)) ⊎ Has rs path m

  abbrev pub IsNew : List Token → Registry http → Type 0
  IsNew ts = All (λ (r : Registered). conflicts_with r.parsed ts ≡ false)

  abbrev pub IsDistinct : List Method → Type 0
  IsDistinct [] = Unit
  IsDistinct (m ∷ ms) = (contains http ms m ≡ false) × IsDistinct ms

  abbrev pub Apart : Registered → Registry http → Type 0
  Apart r = All (λ (s : Registered). conflicts_with r.parsed s.parsed ≡ false)

  -- Each path was read, no two conflict, and no method is routed twice at a path.
  abbrev pub IsConsistent : Registry http → Type 0
  IsConsistent [] = Unit
  IsConsistent (r ∷ rs) =
      (parse r.path ≡ parsed r.parsed) × Apart r rs × IsDistinct r.methods × IsConsistent rs

  pub contains-concat :
      (ns : List Method) (m k : Method)
      → contains http (ns ++ m ∷ []) k ≡ (contains http ns k || method_eq m k)
  unfolding contains
  contains-concat [] m k = ground arith
  contains-concat (n ∷ ns) m k = ground (arith, contains-concat ns m k)

  IsDistinct-concat :
      (ns : List Method) (m : Method)
      → contains http ns m ≡ false
      → IsDistinct ns
      → IsDistinct (ns ++ m ∷ [])
  unfolding contains
  IsDistinct-concat [] m h d = (refl, tt)
  IsDistinct-concat (n ∷ ns) m h d = (
    ground (arith, contains-concat ns m n, method_eq_iff m n, method_eq_iff n m),
    IsDistinct-concat ns m (ground arith) d.1,
  )

  Apart-push_method :
      (r : Registered) (path : Bytes) (m : Method) (rs : Registry http)
      → Apart r rs
      → Apart r (push_method http path m rs)
  unfolding push_method
  Apart-push_method r path m [] h = tt
  Apart-push_method r path m (s ∷ rs) h = elim (Bool-cases (s.path =b path)) [
    | inl e ↦ rw e h
    | inr e ↦ rw e (h.0, Apart-push_method r path m rs h.1)
  ]

  push_method-IsConsistent :
      (path : Bytes) (m : Method) (rs : Registry http) {existing : Registered}
      → find_path http path rs ≡ some existing
      → contains http existing.methods m ≡ false
      → IsConsistent rs
      → IsConsistent (push_method http path m rs)
  unfolding push_method find_path
  push_method-IsConsistent path m [] f n h = cc
  push_method-IsConsistent path m (r ∷ rs) {existing} f n (read, apart, distinct, h) =
      elim (Bool-cases (r.path =b path)) [
        | inl e ↦
            let same : r ≡ existing = ground arith in
            rw e (read, apart, IsDistinct-concat r.methods m (rw same n) distinct, h)
        | inr e ↦ rw e (
          read,
          Apart-push_method r path m rs apart,
          distinct,
          push_method-IsConsistent path m rs {existing = existing} (ground arith) n h,
        )
      ]

  Apart-concat :
      (r s : Registered) (rs : Registry http)
      → Apart r rs
      → conflicts_with r.parsed s.parsed ≡ false
      → Apart r (rs ++ s ∷ [])
  Apart-concat r s [] h n = (n, tt)
  Apart-concat r s (t ∷ rs) h n = (h.0, Apart-concat r s rs h.1 n)

  concat-IsConsistent :
      (rs : Registry http) (s : Registered)
      → IsConsistent rs
      → parse s.path ≡ parsed s.parsed
      → IsNew s.parsed rs
      → IsDistinct s.methods
      → IsConsistent (rs ++ s ∷ [])
  concat-IsConsistent [] s h read new d = (read, tt, d, tt)
  concat-IsConsistent (r ∷ rs) s (read', apart, distinct, h) read (n, new) d =
      (read', Apart-concat r s rs apart n, distinct, concat-IsConsistent rs s h read new d)

  pub find_conflict-IsNew :
      (ts : List Token) (rs : Registry http) → find_conflict http ts rs ≡ none → IsNew ts rs
  unfolding find_conflict
  find_conflict-IsNew ts [] h = tt
  find_conflict-IsNew ts (r ∷ rs) h = (ground arith, find_conflict-IsNew ts rs (ground arith))

  -- A second method of a known path.
  pub record Joins (routes : Registry http) (path : Bytes) (m : Method) : Type 0 where
    pub f : Filter
    pub ts : List Token
    pub existing : RegisteredPath Method
    pub supported : filter m ≡ some f
    pub read : parse path ≡ parsed ts
    pub known : find_path http path routes ≡ some existing
    pub once : contains http existing.methods m ≡ false
    pub gives : admit http routes path m ≡ (push_method http path m routes, ok f)

  -- A new path.
  pub record Adds (routes : Registry http) (path : Bytes) (m : Method) : Type 0 where
    pub f : Filter
    pub ts : List Token
    pub supported : filter m ≡ some f
    pub read : parse path ≡ parsed ts
    pub unknown : find_path http path routes ≡ none
    pub new : find_conflict http ts routes ≡ none
    pub gives :
        admit http routes path m
        ≡ (routes ++ record { path = path; parsed = ts; methods = m ∷ [] } ∷ [], ok f)

  pub record Refuses (routes : Registry http) (path : Bytes) (m : Method) : Type 0 where
    pub e : RouteError Method
    pub gives : admit http routes path m ≡ (routes, err e)

  abbrev pub AdmitCases : Registry http → Bytes → Method → Type 0
  AdmitCases routes path m = Refuses routes path m ⊎ Joins routes path m ⊎ Adds routes path m

  admit-read_cases :
      (routes : Registry http) (path : Bytes) (m : Method) (f : Filter) (ts : List Token)
      → filter m ≡ some f
      → parse path ≡ parsed ts
      → AdmitCases routes path m
  unfolding admit admit_parsed
  admit-read_cases routes path m f ts supported read =
      elim (Option-cases (find_path http path routes)) [
        | inr (existing, known) ↦ elim (Bool-cases (contains http existing.methods m)) [
          | inl twice ↦ inl (record {
            e = duplicate path m;
            gives = rw (supported, read, known, twice, admit, admit_parsed);
          })
          | inr once ↦ inr (
              inl (record {
                f = f;
                ts = ts;
                existing = existing;
                supported = supported;
                read = read;
                known = known;
                once = once;
                gives = rw (supported, read, known, once, admit, admit_parsed);
              }))
        ]
        | inl unknown ↦ elim (Option-cases (find_conflict http ts routes)) [
          | inr (existing, found) ↦ inl (record {
            e = conflict path existing.path;
            gives = rw (supported, read, unknown, found, admit, admit_parsed);
          })
          | inl new ↦ inr (
              inr (record {
                f = f;
                ts = ts;
                supported = supported;
                read = read;
                unknown = unknown;
                new = new;
                gives = rw (supported, read, unknown, new, admit, admit_parsed);
              }))
        ]
      ]

  pub admit-cases : (routes : Registry http) (path : Bytes) (m : Method) → AdmitCases routes path m
  unfolding admit
  admit-cases routes path m = elim (Option-cases (filter m)) [
    | inl e ↦ inl (record { e = unsupported_method path m; gives = rw (e, admit) })
    | inr (f, supported) ↦ elim (ParseResult-cases (parse path)) [
      | inl (ts, read) ↦ admit-read_cases routes path m f ts supported read
      | inr (inl (reason, refused)) ↦
          inl (record { e = invalid_path path reason; gives = rw (supported, refused, admit) })
      | inr (inr stuck) ↦ inl (record { e = unread; gives = rw (supported, stuck, admit) })
    ]
  ]

  -- Whatever routes are offered, those that the registry holds can stand in one router: each path was
  -- read, no two conflict, and none has a method twice.
  pub admit-IsConsistent :
      (routes : Registry http) (path : Bytes) (m : Method)
      → IsConsistent routes
      → IsConsistent (admit http routes path m).0
  unfolding contains
  admit-IsConsistent routes path m h = elim (admit-cases routes path m) [
    | inl r ↦ rw r.gives h
    | inr (inl j) ↦ rw j.gives (push_method-IsConsistent path m routes j.known j.once h)
    | inr (inr a) ↦ rw a.gives (
        concat-IsConsistent routes (record { path = path; parsed = a.ts; methods = m ∷ [] }) h
          a.read (find_conflict-IsNew a.ts routes a.new) (refl, tt))
  ]
