-- ===== src/Router/Nested/Below.antt =====
-- What it is for a path to lie below the base of a router, and that `strip_base` finds it.
use mathlib.Core.Option.{some-injective}
use halyard.Prelude.{
  ℕ, zero, suc, ◌≡◌, ◌⊎◌, refl, sym, ap, ◌∙◌, subst, true, false, Bool-cases, inl, inr, Option,
  none, some, [], ◌∷◌, ◌++◌, ◌==◌, arith,
}
use halyard.Prelude.Bytes.{Bytes, =b_iff, strip_prefix, starts_with_byte}
use halyard.Prelude.Prefixes.{strip_prefix-some, strip_prefix-append}
use halyard.Router.Segments.{slash}
use halyard.Router.Nested.{is_end, trim_start_slashes, strip_base}

abbrev pub slashes : ℕ → Bytes
slashes zero = []
slashes (suc n) = b'/' ∷ slashes n

-- The path is `rest` below the base. Where the base begins with slashes, these and those of the path do not
-- count.
pub data Below : Option Bytes → Bytes → Bytes → Type 0 where
  no_base : (path : Bytes) → Below none path path
  prefixed :
      (base path rest : Bytes)
      → starts_with_byte b'/' base ≡ false
      → path ≡ base ++ rest
      → Below (some base) path rest
  rooted :
      (n k : ℕ) (b base path rest : Bytes)
      → base ≡ slashes (suc n) ++ b
      → starts_with_byte b'/' b ≡ false
      → path ≡ slashes k ++ (b ++ rest)
      → starts_with_byte b'/' (b ++ rest) ≡ false
      → Below (some base) path rest

trim_start_slashes-split :
    (s : Bytes)
    → (n : ℕ) × (s ≡ slashes n ++ trim_start_slashes s)
      × (starts_with_byte b'/' (trim_start_slashes s) ≡ false)
trim_start_slashes-split [] = (0, refl, refl)
trim_start_slashes-split (b ∷ s) = elim (Bool-cases (b == b'/')) [
  | inr e ↦ rw e (0, refl, e)
  | inl e ↦
      let (n, split, off) = trim_start_slashes-split s in
      let first : b ≡ b'/' = ground arith in
      rw e (suc n, ap (λ q. q ∷ s) first ∙ ap (λ q. b'/' ∷ q) split, off)
]

trim_start_slashes-slashes :
    (n : ℕ) (b : Bytes) → starts_with_byte b'/' b ≡ false → trim_start_slashes (slashes n ++ b) ≡ b
trim_start_slashes-slashes zero [] h = refl
trim_start_slashes-slashes zero (c ∷ b) h = rw h refl
trim_start_slashes-slashes (suc n) b h = trim_start_slashes-slashes n b h

rooted_base :
    (n : ℕ) (base b : Bytes)
    → base ≡ slashes n ++ b
    → starts_with_byte b'/' b ≡ false
    → starts_with_byte b'/' base ≡ true
    → (k : ℕ) × (base ≡ slashes (suc k) ++ b)
rooted_base zero base b split off on = absurd cc
rooted_base (suc n) base b split off on = (n, split)

pub strip_base-Below :
    (base : Option Bytes) (path rest : Bytes)
    → strip_base base path ≡ some rest
    → Below base path rest
unfolding strip_base
strip_base-Below none path rest h =
    subst (λ q. Below none path q) (some-injective path rest h) (no_base path)
strip_base-Below (some base) path rest h = elim (Bool-cases (starts_with_byte b'/' base)) [
  | inr e ↦ prefixed base path rest e (strip_prefix-some base path (rw (e, strip_base) at h))
  | inl e ↦
      let (n, split, off) = trim_start_slashes-split base in
      let (k, split', off') = trim_start_slashes-split path in
      let (n', more) = rooted_base n base (trim_start_slashes base) split off e in
      let left : trim_start_slashes path ≡ trim_start_slashes base ++ rest =
        strip_prefix-some (trim_start_slashes base) (trim_start_slashes path)
          (rw (e, strip_base) at h) in
      rooted n' k (trim_start_slashes base) base path rest more off
        (split' ∙ ap (λ q. slashes k ++ q) left) (ap (starts_with_byte b'/') (sym left) ∙ off')
]

pub Below-strip_base :
    (base : Option Bytes) (path rest : Bytes)
    → Below base path rest
    → strip_base base path ≡ some rest
unfolding strip_base
Below-strip_base none path rest (no_base _) = refl
Below-strip_base (some base) path rest (prefixed _ _ _ off split) =
    rw (off, strip_base) (ap (strip_prefix base) split ∙ strip_prefix-append base rest)
Below-strip_base (some base) path rest (rooted n k b _ _ _ is off split off') =
    let on : starts_with_byte b'/' base ≡ true = ap (starts_with_byte b'/') is in
    let base_is : trim_start_slashes base ≡ b =
      ap trim_start_slashes is ∙ trim_start_slashes-slashes (suc n) b off in
    let path_is : trim_start_slashes path ≡ b ++ rest =
      ap trim_start_slashes split ∙ trim_start_slashes-slashes k (b ++ rest) off' in
    rw (on, base_is, path_is, strip_base) (strip_prefix-append b rest)

pub is_end-cases : (r : Bytes) → is_end r ≡ true → (r ≡ []) ⊎ (r ≡ slash)
is_end-cases [] h = inl refl
is_end-cases (b ∷ r) h = inr ((=b_iff (b ∷ r) slash).0 h)

pub end-is_end : (r : Bytes) → (r ≡ []) ⊎ (r ≡ slash) → is_end r ≡ true
end-is_end r (inl q) = ap is_end q
end-is_end r (inr q) = ap is_end q ∙ (=b_iff slash slash).1 refl
