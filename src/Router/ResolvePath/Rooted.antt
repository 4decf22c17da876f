-- ===== src/Router/ResolvePath/Rooted.antt =====
-- A link that has no scheme resolves to an absolute path.
use mathlib.Core.Option.{some-injective}
use halyard.Prelude.{
  ◌≡◌, ◌⊎◌, refl, subst, true, false, Bool-cases, inl, inr, Option, none, some, [], ◌∷◌, length,
  if◌then◌else◌,
}
use halyard.Prelude.Bytes.{Bytes, is_empty, starts_with_byte}
use halyard.Router.Nested.{trim_start_slashes}
use halyard.Router.ResolvePath.{
  starts_with, begins_with_query_or_hash, trim_end_slashes, get_through, normalize, concat, base_of,
  has_scheme, resolve_path,
}

abbrev IsRooted : Bytes → Type 0
IsRooted s = (s ≡ []) ⊎ (starts_with_byte b'/' s ≡ true)

is_empty-nil : (s : Bytes) → is_empty s ≡ true → s ≡ []
is_empty-nil [] h = refl
is_empty-nil (c ∷ s) h = cc

normalize-IsRooted :
    (path : Bytes)
    → begins_with_query_or_hash (normalize path true) ≡ false
    → IsRooted (normalize path false)
unfolding normalize
normalize-IsRooted path h =
    let s =
      get_through (length (trim_end_slashes (trim_start_slashes path))) (trim_start_slashes path) in
    elim (Bool-cases (is_empty s)) [
      | inl e ↦ rw e (inl (is_empty-nil s e))
      | inr e ↦
          let plain : begins_with_query_or_hash s ≡ false = rw e at h in rw (e, plain) (inr refl)
    ]

concat-IsRooted :
    (left right : Bytes) → IsRooted left → IsRooted right → IsRooted (concat left right)
unfolding concat
concat-IsRooted [] right l r = r
concat-IsRooted (c ∷ s) [] l r = l
concat-IsRooted (c ∷ s) (d ∷ t) (inl e) r = cc
concat-IsRooted (c ∷ s) (d ∷ t) (inr e) r = inr e

base_of-IsRooted :
    (base_path path : Bytes) (from_path : Option Bytes)
    → IsRooted base_path
    → ((f : Bytes) → from_path ≡ some f → IsRooted f)
    → IsRooted (base_of base_path path from_path)
unfolding base_of
base_of-IsRooted base_path path none b f = b
base_of-IsRooted base_path path (some from_path) b f =
    elim (Bool-cases (starts_with_byte b'/' path)) [
      | inl e ↦ rw e b
      | inr e ↦ elim (Bool-cases (starts_with base_path from_path)) [
        | inl e' ↦ rw (e, e') (f from_path refl)
        | inr e' ↦ rw (e, e') (concat-IsRooted base_path from_path b (f from_path refl))
      ]
    ]

prefix-slash :
    (result right : Bytes)
    → IsRooted result
    → starts_with_byte b'/' (concat (if is_empty result then b'/' ∷ [] else result) right) ≡ true
unfolding concat
prefix-slash [] [] r = refl
prefix-slash [] (c ∷ s) r = refl
prefix-slash (c ∷ s) right (inl e) = cc
prefix-slash (c ∷ s) [] (inr e) = e
prefix-slash (c ∷ s) (d ∷ t) (inr e) = e

-- The path, past its slashes, begins with neither a query nor a hash.
abbrev pub IsPlainPath : Bytes → Type 0
IsPlainPath path = begins_with_query_or_hash (normalize path true) ≡ false

-- Against a base and a current path that begin with neither a query nor a hash, a path that has no scheme resolves to
-- one that begins with a slash.
pub resolve_path-slash :
    (base path : Bytes) (from : Option Bytes)
    → has_scheme path ≡ false
    → IsPlainPath base
    → ((f : Bytes) → from ≡ some f → IsPlainPath f)
    → starts_with_byte b'/' (resolve_path base path from) ≡ true
unfolding resolve_path
resolve_path-slash base path none no_scheme b f =
    let result = base_of (normalize base false) path none in
    rw no_scheme (
      prefix-slash result (normalize path (is_empty result))
        (base_of-IsRooted (normalize base false) path none (normalize-IsRooted base b) (λ g e. cc)))
resolve_path-slash base path (some from) no_scheme b f =
    let result = base_of (normalize base false) path (some (normalize from false)) in
    let from_rooted = normalize-IsRooted from (f from refl) in
    rw no_scheme (
      prefix-slash result (normalize path (is_empty result)) (
        base_of-IsRooted (normalize base false) path (some (normalize from false))
          (normalize-IsRooted base b)
          (λ g e. subst IsRooted (some-injective (normalize from false) g e) from_rooted)))
