-- ===== src/Prelude/Prefixes.antt =====
-- Laws of the byte-string methods: prefixes, suffixes and splits.
use Prim.Native.Nat.{ℕ, zero, suc, ◌-◌, ◌<◌}
use mathlib.Core.Path.{◌≡◌, refl, ap, subst}
use mathlib.Core.Logic.{inl, inr}
use mathlib.Core.Bool.{true, false}
use mathlib.Core.Option.{none, some}
use mathlib.Core.List.{List, [], ◌∷◌, ◌++◌}
use native.Mathlib.Omega.{arith}
use halyard.Prelude.Tests.{◌==◌, ==_iff, leb, Bool-cases, Option-cases}
use halyard.Prelude.Lists.{
  length, length-append, take, drop, take-length_append, drop-length_append,
}
use halyard.Prelude.Bytes.{
  Bytes, =b_iff, strip_prefix, strip_suffix, find_byte, contains_byte, starts_with_byte,
}

pub strip_prefix-some : (p s : Bytes) {rest : Bytes} → strip_prefix p s ≡ some rest → s ≡ p ++ rest
unfolding strip_prefix
strip_prefix-some [] s h = cc
strip_prefix-some (b ∷ p) [] h = cc
strip_prefix-some (b ∷ p) (c ∷ s) {rest} h = ground (arith, strip_prefix-some p s {rest = rest})

pub strip_prefix-append : (p rest : Bytes) → strip_prefix p (p ++ rest) ≡ some rest
unfolding strip_prefix
strip_prefix-append [] rest = refl
strip_prefix-append (b ∷ p) rest = rw ((==_iff b b).1 refl) (strip_prefix-append p rest)

pub take-append-drop {ℓ} : {A : Type ℓ} (n : ℕ) (xs : List A) → take n xs ++ drop n xs ≡ xs
take-append-drop zero xs = refl
take-append-drop (suc n) [] = refl
take-append-drop (suc n) (x ∷ xs) = ap (λ l. x ∷ l) (take-append-drop n xs)

pub strip_suffix-some :
    (suffix s : Bytes) {rest : Bytes} → strip_suffix suffix s ≡ some rest → s ≡ rest ++ suffix
unfolding strip_suffix
strip_suffix-some suffix s {rest} h =
    let n = length s - length suffix in
    ground (arith, =b_iff (drop n s) suffix, take-append-drop n s)

pub strip_suffix-append : (p suffix : Bytes) → strip_suffix suffix (p ++ suffix) ≡ some p
unfolding strip_suffix
strip_suffix-append p suffix =
    let n : length (p ++ suffix) - length suffix ≡ length p =
      omega (arith, length-append p suffix) in
    let fits : leb (length suffix) (length (p ++ suffix)) ≡ true =
      ground (arith, length-append p suffix) in
    rw
      (
        fits,
        n,
        drop-length_append p suffix,
        take-length_append p suffix,
        (=b_iff suffix suffix).1 refl,
      )
      refl

-- A split at the first byte `b`.
pub record Split (b : ℕ) (s : Bytes) (i : ℕ) : Type 0 where
  pub before : contains_byte b (take i s) ≡ false
  pub at : starts_with_byte b (drop i s) ≡ true
  pub within : i < length s

pub find_byte-Split : (b : ℕ) (s : Bytes) {i : ℕ} → find_byte b s ≡ some i → Split b s i
unfolding find_byte contains_byte
find_byte-Split b [] h = cc
find_byte-Split b (c ∷ s) {i} h = elim (Bool-cases (c == b)) [
  | inl e ↦
      let here : zero ≡ i = ground arith in
      subst (Split b (c ∷ s)) here (record { before = refl; at = e; within = omega arith })
  | inr e ↦ elim (Option-cases (find_byte b s)) [
    | inl lost ↦ ground arith
    | inr (j, found) ↦
        let later : suc j ≡ i = ground arith in
        let ih = find_byte-Split b s found in
        subst (Split b (c ∷ s)) later
          (record { before = rw e ih.before; at = ih.at; within = omega arith })
  ]
]

pub find_byte-none : (b : ℕ) (s : Bytes) → find_byte b s ≡ none → contains_byte b s ≡ false
unfolding find_byte contains_byte
find_byte-none b [] h = refl
find_byte-none b (c ∷ s) h = ground (arith, find_byte-none b s)

-- The first `b` of a text that has none up to a `b`.
pub find_byte-append :
    (b : ℕ) (v r : Bytes)
    → contains_byte b v ≡ false
    → starts_with_byte b r ≡ true
    → find_byte b (v ++ r) ≡ some (length v)
unfolding find_byte contains_byte
find_byte-append b [] [] h e = cc
find_byte-append b [] (c ∷ r) h e = rw e
find_byte-append b (c ∷ v) r h e = ground (arith, find_byte-append b v r)

pub find_byte_absent : (b : ℕ) (v : Bytes) → contains_byte b v ≡ false → find_byte b v ≡ none
unfolding find_byte contains_byte
find_byte_absent b [] h = refl
find_byte_absent b (c ∷ v) h = ground (arith, find_byte_absent b v)
