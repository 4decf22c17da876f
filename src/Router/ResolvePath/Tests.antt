-- ===== src/Router/ResolvePath/Tests.antt =====
-- Links on concrete paths.
use mathlib.Core.Option.{some-injective}
use halyard.Prelude.{◌≡◌, refl, true, false, some, [], ◌∷◌}
use halyard.Prelude.Bytes.{Bytes, starts_with_byte, strip_prefix}
use halyard.Router.ResolvePath.{
  has_scheme, begins_with_query_or_hash, normalize, concat, base_of, resolve_path,
}
use halyard.Router.ResolvePath.Rooted.{IsPlainPath, resolve_path-slash}

abbrev base : Bytes
base = b'/' ∷ b'b' ∷ []

abbrev from : Bytes
from = b'/' ∷ b'x' ∷ []

abbrev foo : Bytes
foo = b'f' ∷ []

-- `resolve_path("/b", "f", Some("/x"))` is `/b/x/f`.
resolved : resolve_path base foo (some from) ≡ b'/' ∷ b'b' ∷ b'/' ∷ b'x' ∷ b'/' ∷ b'f' ∷ []
unfolding resolve_path has_scheme begins_with_query_or_hash normalize concat base_of strip_prefix
resolved = refl

no_scheme : has_scheme foo ≡ false
unfolding has_scheme strip_prefix
no_scheme = refl

base-IsPlainPath : IsPlainPath base
unfolding begins_with_query_or_hash normalize
base-IsPlainPath = refl

from-IsPlainPath : (f : Bytes) → some from ≡ some f → IsPlainPath f
unfolding begins_with_query_or_hash normalize
from-IsPlainPath f e = rw⁻¹ (some-injective from f e) refl

resolve_path-slash_example : starts_with_byte b'/' (resolve_path base foo (some from)) ≡ true
resolve_path-slash_example =
    resolve_path-slash base foo (some from) no_scheme base-IsPlainPath from-IsPlainPath
