-- ===== src/Axum/Registry/Admission.antt =====
-- What `RouteRegistry::admit` records, and when it succeeds.
use halyard.Prelude.{
  ◌≡◌, ◌≢◌, ◌↔◌, ◌⊎◌, inl, inr, refl, sym, ap, subst, true, false, none, some, Option-cases,
  Bool-cases, List, [], ◌∷◌, ◌++◌, All, All-imp, ok, err, arith, ◌∙◌,
}
use mathlib.Core.Logic.{⊎_elim}
use halyard.Prelude.Bytes.{Bytes, ◌=b◌, =b_iff}
use halyard.Axum.RoutePath.{Token, parsed, parse, conflicts_with}
use halyard.Axum.RoutePath.Conflicts.{conflicts_with_self, conflicts_with_comm}
use halyard.Axum.Registry.{
  Http, RegisteredPath, Registry, contains, find_path, push_method, find_conflict, admit,
  admit_parsed, RouteError,
}
use halyard.Axum.Registry.Invariant.{
  Has, Apart, IsConsistent, contains-concat, find_conflict-IsNew, admit-cases,
}

module _ (http : Http) where
  open http use {Method, Filter, method_eq, method_eq_iff, filter}

  Has-push_method :
      (rs : Registry http) (path q : Bytes) (m k : Method) {existing : RegisteredPath Method}
      → find_path http path rs ≡ some existing
      → Has http (push_method http path m rs) q k
        ↔ (Has http rs q k ⊎ (path ≡ q) × (method_eq m k ≡ true))
  unfolding push_method find_path
  Has-push_method [] path q m k f = cc
  Has-push_method (r ∷ rs) path q m k {existing} f = elim (Bool-cases (r.path =b path)) [
    | inl e ↦
        let same : r.path ≡ path = (=b_iff r.path path).0 e in
        rw e (ground (arith, contains-concat http r.methods m k))
    | inr e ↦
        let ih = Has-push_method rs path q m k {existing = existing} (ground arith) in
        rw e (ground (arith, ih))
  ]

  Has-concat :
      (rs : Registry http) (s : RegisteredPath Method) (q : Bytes) (k : Method)
      → Has http (rs ++ s ∷ []) q k
        ↔ (Has http rs q k ⊎ (s.path ≡ q) × (contains http s.methods k ≡ true))
  Has-concat [] s q k = ground arith
  Has-concat (r ∷ rs) s q k = ground (arith, Has-concat rs s q k)

  -- A route that is admitted is recorded, and nothing else changes.
  pub admit-Has :
      (routes : Registry http) (path q : Bytes) (m k : Method) {f : Filter}
      → (admit http routes path m).1 ≡ ok f
      → Has http (admit http routes path m).0 q k
        ↔ (Has http routes q k ⊎ (path ≡ q) × (method_eq m k ≡ true))
  unfolding contains
  admit-Has routes path q m k {f} h = elim (admit-cases http routes path m) [
    | inl r ↦ let refused : err r.e ≡ ok f = sym (ap (λ a. a.1) r.gives) ∙ h in cc
    | inr (inl j) ↦ rw j.gives (Has-push_method routes path q m k j.known)
    | inr (inr a) ↦ rw a.gives (
        ground
          (arith, Has-concat routes (record { path = path; parsed = a.ts; methods = m ∷ [] }) q k))
  ]

  Has-reads :
      (rs : Registry http) (path : Bytes) (m : Method) (ts : List Token) (r : RegisteredPath Method)
      → parse path ≡ parsed ts
      → IsConsistent http rs
      → Has http rs path m
      → Apart http r rs
      → r.parsed ≢ ts
  Has-reads [] path m ts r read h has apart e = has
  Has-reads (s ∷ rs) path m ts r read h (inl here) apart e =
      let read' : parse s.path ≡ parsed s.parsed = h.0 in
      let at : s.path ≡ path = here.0 in
      let same : s.parsed ≡ ts = cc in
      let clash : conflicts_with r.parsed s.parsed ≡ true = rw (e, same) (conflicts_with_self ts) in
      let clear : conflicts_with r.parsed s.parsed ≡ false = apart.0 in cc
  Has-reads (s ∷ rs) path m ts r read h (inr later) apart e =
      Has-reads rs path m ts r read h.3 later apart.1 e

  -- The first entry of a path is the only one.
  find_path-Has :
      (rs : Registry http) (path : Bytes) (m : Method) {existing : RegisteredPath Method}
      → find_path http path rs ≡ some existing
      → IsConsistent http rs
      → (contains http existing.methods m ≡ true) ↔ Has http rs path m
  unfolding find_path
  find_path-Has [] path m f h = cc
  find_path-Has (r ∷ rs) path m {existing} f h = elim (Bool-cases (r.path =b path)) [
    | inl e ↦
        let same : r.path ≡ path = (=b_iff r.path path).0 e in
        let this : r ≡ existing = ground arith in
        let later : ¬ Has http rs path m =
          λ has. Has-reads rs path m r.parsed r (rw (← same) h.0) h.3 has h.1 refl in
        rw (← this) (λ c. inl (same, c), ⊎_elim (λ here. here.1) (λ has. absurd (later has)))
    | inr e ↦
        let ih = find_path-Has rs path m {existing = existing} (ground arith) h.3 in
        ground (arith, ih, =b_iff r.path path)
  ]

  find_path-All {ℓ} :
      (P : RegisteredPath Method → Type ℓ) (rs : Registry http) (path : Bytes)
      {existing : RegisteredPath Method}
      → find_path http path rs ≡ some existing
      → All P rs
      → P existing × (existing.path ≡ path)
  unfolding find_path
  find_path-All P [] path f h = cc
  find_path-All P (r ∷ rs) path {existing} f h = elim (Bool-cases (r.path =b path)) [
    | inl e ↦
        let this : r ≡ existing = ground arith in
        (subst P this h.0, rw (← this) ((=b_iff r.path path).0 e))
    | inr e ↦ find_path-All P rs path (ground arith) h.1
  ]

  find_path-none :
      (rs : Registry http) (path : Bytes) (m : Method)
      → find_path http path rs ≡ none
      → All (λ (r : RegisteredPath Method). r.path ≢ path) rs × ¬ Has http rs path m
  unfolding find_path
  find_path-none [] path m h = (tt, λ has. has)
  find_path-none (r ∷ rs) path m h = ground (arith, =b_iff r.path path, find_path-none rs path m)

  -- No other path conflicts with this one.
  abbrev pub Clears : Bytes → List Token → RegisteredPath Method → Type 0
  Clears path ts r = (r.path ≡ path) ⊎ (conflicts_with r.parsed ts ≡ false)

  IsConsistent-reads :
      (rs : Registry http)
      → IsConsistent http rs
      → All (λ (r : RegisteredPath Method). parse r.path ≡ parsed r.parsed) rs
  IsConsistent-reads [] h = tt
  IsConsistent-reads (r ∷ rs) h = (h.0, IsConsistent-reads rs h.3)

  find_path-Clears :
      (rs : Registry http) (path : Bytes) (ts : List Token) {existing : RegisteredPath Method}
      → find_path http path rs ≡ some existing
      → parse path ≡ parsed ts
      → IsConsistent http rs
      → All (Clears path ts) rs
  unfolding find_path
  find_path-Clears [] path ts f read h = cc
  find_path-Clears (r ∷ rs) path ts {existing} f read h = elim (Bool-cases (r.path =b path)) [
    | inl e ↦
        let at : r.path ≡ path = (=b_iff r.path path).0 e in
        let read' : parse r.path ≡ parsed r.parsed = h.0 in
        let same : r.parsed ≡ ts = cc in
        (
          inl at,
          All-imp (λ s apart. inr (rw (← same) (conflicts_with_comm s.parsed r.parsed ∙ apart))) rs
              h.1,
        )
    | inr e ↦
        let found : find_path http path rs ≡ some existing = ground arith in
        let (read', at) =
          find_path-All (λ r. parse r.path ≡ parsed r.parsed) rs path {existing = existing} found
            (IsConsistent-reads rs h.3) in
        let same : existing.parsed ≡ ts = cc in
        let (apart, _) =
          find_path-All (λ s. conflicts_with r.parsed s.parsed ≡ false) rs path
            {existing = existing} found h.1 in
        (inr (rw (← same) apart), find_path-Clears rs path ts {existing = existing} found read h.3)
  ]

  -- Why a route can be added: its method has a filter, its path is read, the method is not routed at
  -- the path yet, and the path is known or conflicts with no other.
  pub record Fits (routes : Registry http) (path : Bytes) (m : Method) (f : Filter) : Type 0 where
    pub ts : List Token
    pub supported : filter m ≡ some f
    pub read : parse path ≡ parsed ts
    pub new : ¬ Has http routes path m
    pub clear : All (Clears path ts) routes

  admit-Fits :
      (routes : Registry http) (path : Bytes) (m : Method) (f : Filter)
      → IsConsistent http routes
      → (admit http routes path m).1 ≡ ok f
      → Fits routes path m f
  admit-Fits routes path m f h e = elim (admit-cases http routes path m) [
    | inl r ↦ let refused : err r.e ≡ ok f = sym (ap (λ a. a.1) r.gives) ∙ e in cc
    | inr (inl j) ↦
        let same : ok j.f ≡ ok f = sym (ap (λ a. a.1) j.gives) ∙ e in
        let cases = find_path-Has routes path m {existing = j.existing} j.known h in
        let once : contains http j.existing.methods m ≡ false = j.once in
        record {
          ts = j.ts;
          supported = j.supported ∙ ap some (cc);
          read = j.read;
          new = λ has. let twice = cases.1 has in cc;
          clear = find_path-Clears routes path j.ts {existing = j.existing} j.known j.read h;
        }
    | inr (inr a) ↦
        let same : ok a.f ≡ ok f = sym (ap (λ a. a.1) a.gives) ∙ e in
        record {
          ts = a.ts;
          supported = a.supported ∙ ap some (cc);
          read = a.read;
          new = (find_path-none routes path m a.unknown).1;
          clear =
              All-imp (λ r apart. inr apart) routes (find_conflict-IsNew http a.ts routes a.new);
        }
  ]

  Fits-find_conflict :
      (rs : Registry http) (path : Bytes) (ts : List Token)
      → All (λ (r : RegisteredPath Method). r.path ≢ path) rs
      → All (Clears path ts) rs
      → find_conflict http ts rs ≡ none
  unfolding find_conflict
  Fits-find_conflict [] path ts other clear = refl
  Fits-find_conflict (r ∷ rs) path ts other clear =
      let ih = Fits-find_conflict rs path ts other.1 clear.1 in
      elim clear.0 [ inl at ↦ absurd (other.0 at) | inr apart ↦ rw apart ih ]

  Fits-admit :
      (routes : Registry http) (path : Bytes) (m : Method) (f : Filter)
      → IsConsistent http routes
      → Fits routes path m f
      → (admit http routes path m).1 ≡ ok f
  unfolding admit admit_parsed
  Fits-admit routes path m f h fits = elim (Option-cases (find_path http path routes)) [
    | inr (existing, known) ↦
        let once : contains http existing.methods m ≡ false =
          elim (Bool-cases (contains http existing.methods m)) [
            | inl twice ↦
                absurd
                  (fits.new ((find_path-Has routes path m {existing = existing} known h).0 twice))
            | inr once ↦ once
          ] in
        rw (fits.supported, fits.read, known, once, admit, admit_parsed)
    | inl unknown ↦
        let clear =
          Fits-find_conflict routes path fits.ts (find_path-none routes path m unknown).0
            fits.clear in
        rw (fits.supported, fits.read, unknown, clear, admit, admit_parsed)
  ]

  -- In a registry that holds what can stand in one router, a route is admitted exactly when axum has
  -- a filter for its method, its path is read, the method is not routed at that path yet, and no other
  -- path of the registry conflicts with it.
  pub admit-ok_iff :
      (routes : Registry http) (path : Bytes) (m : Method) (f : Filter)
      → IsConsistent http routes
      → ((admit http routes path m).1 ≡ ok f) ↔ Fits routes path m f
  admit-ok_iff routes path m f h = (admit-Fits routes path m f h, Fits-admit routes path m f h)

  -- A route that is refused leaves the registry as it was.
  pub admit_refused :
      (routes : Registry http) (path : Bytes) (m : Method) (e : RouteError Method)
      → (admit http routes path m).1 ≡ err e
      → (admit http routes path m).0 ≡ routes
  admit_refused routes path m e h = elim (admit-cases http routes path m) [
    | inl r ↦ ap (λ a. a.0) r.gives
    | inr (inl j) ↦ let added : ok j.f ≡ err e = sym (ap (λ a. a.1) j.gives) ∙ h in cc
    | inr (inr a) ↦ let added : ok a.f ≡ err e = sym (ap (λ a. a.1) a.gives) ∙ h in cc
  ]
