-- ===== src/Router/Segments/Parts.antt =====
-- How `first_segment` and the tests take a path apart.
use halyard.Prelude.{
  ℕ, ◌≡◌, ◌⊎◌, inl, inr, refl, sym, ap, ◌∙◌, subst, true, false, ◌||◌, none, some, [], ◌∷◌, ◌++◌,
  length, get_elem?, length-append, take, drop, take-length_append, drop-length_append, arith, leb,
  Option-cases,
}
use mathlib.Core.List.{append-nil}
use halyard.Prelude.Bytes.{
  Bytes, strip_prefix, strip_suffix, find_byte, contains_byte, is_empty, starts_with_byte,
  is_char_boundary, split_at_checked, is_continuation,
}
use halyard.Prelude.Prefixes.{
  strip_prefix-some, strip_prefix-append, strip_suffix-append, find_byte-append, find_byte_absent,
  find_byte-none, find_byte-Split, take-append-drop,
}
use halyard.Router.Segments.{slash, first_segment}

-- The end of the path, or the beginning of a segment.
abbrev pub Ends : Bytes → Type 0
Ends r = (is_empty r || starts_with_byte b'/' r) ≡ true

abbrev pub HasNoSlash : Bytes → Type 0
HasNoSlash v = contains_byte b'/' v ≡ false

get_elem?-length_append : (v r : Bytes) (b : ℕ) → get_elem? (v ++ b ∷ r) (length v) ≡ some b
get_elem?-length_append [] r b = refl
get_elem?-length_append (c ∷ v) r b = get_elem?-length_append v r b

pub is_char_boundary_before :
    (v r : Bytes) (b : ℕ)
    → is_continuation b ≡ false
    → is_char_boundary (v ++ b ∷ r) (length v) ≡ true
unfolding is_char_boundary
is_char_boundary_before [] r b h = refl
is_char_boundary_before (c ∷ v) r b h = ground (arith, get_elem?-length_append v r b)

split_at_slash :
    (v r : Bytes)
    → starts_with_byte b'/' r ≡ true
    → split_at_checked (v ++ r) (length v) ≡ some (v, r)
unfolding split_at_checked
split_at_slash v [] h = cc
split_at_slash v (b ∷ r) h =
    let at : is_continuation b ≡ false = ground arith in
    let fits : leb (length v) (length (v ++ b ∷ r)) ≡ true =
      ground (arith, length-append v (b ∷ r)) in
    rw
      (
        fits,
        is_char_boundary_before v r b at,
        take-length_append v (b ∷ r),
        drop-length_append v (b ∷ r),
      )
      refl

pub first_segment-append :
    (v r : Bytes) → HasNoSlash v → Ends r → first_segment (b'/' ∷ (v ++ r)) ≡ some (b'/' ∷ v, v, r)
unfolding first_segment
first_segment-append v [] h e =
    let empty : v ++ [] ≡ v = append-nil v in
    let rest : strip_prefix slash (b'/' ∷ v) ≡ some v = strip_prefix-append slash v in
    let matched : strip_suffix [] (b'/' ∷ v) ≡ some (b'/' ∷ v) =
      subst (λ p. strip_suffix [] p ≡ some (b'/' ∷ v)) (append-nil (b'/' ∷ v))
        (strip_suffix-append (b'/' ∷ v) []) in
    let lost = find_byte_absent b'/' v h in rw empty (ground arith)
first_segment-append v (b ∷ r) h e =
    let rest : strip_prefix slash (b'/' ∷ (v ++ b ∷ r)) ≡ some (v ++ b ∷ r) =
      strip_prefix-append slash (v ++ b ∷ r) in
    let matched : strip_suffix (b ∷ r) (b'/' ∷ (v ++ b ∷ r)) ≡ some (b'/' ∷ v) =
      strip_suffix-append (b'/' ∷ v) (b ∷ r) in
    let found = find_byte-append b'/' v (b ∷ r) h e in
    let split = split_at_slash v (b ∷ r) e in ground arith

-- A path of which `first_segment` splits off `value`.
pub record Begins (path value rest : Bytes) : Type 0 where
  pub path_eq : path ≡ b'/' ∷ (value ++ rest)
  pub whole : HasNoSlash value
  pub ends : Ends rest

-- A path has a first segment exactly when it begins with `/`.
pub first_segment-cases :
    (path : Bytes)
    → ((first_segment path ≡ none) × (strip_prefix slash path ≡ none))
      ⊎ ((value : Bytes) × (rest : Bytes) × Begins path value rest
          × (first_segment path ≡ some (b'/' ∷ value, value, rest)))
unfolding first_segment
first_segment-cases path = elim (Option-cases (strip_prefix slash path)) [
  | inl bare ↦ inl (rw bare, bare)
  | inr (rest, slashed) ↦ elim (Option-cases (find_byte b'/' rest)) [
    | inl lost ↦
        let b : Begins path rest [] = record {
          path_eq =
              strip_prefix-some slash path slashed ∙ ap (λ l. b'/' ∷ l) (sym (append-nil rest));
          whole = find_byte-none b'/' rest lost;
          ends = refl;
        } in
        inr (rest, [], b, rw b.path_eq (first_segment-append rest [] b.whole b.ends))
    | inr (end, found) ↦
        let s = find_byte-Split b'/' rest found in
        let b : Begins path (take end rest) (drop end rest) = record {
          path_eq =
              strip_prefix-some slash path slashed
              ∙ ap (λ l. b'/' ∷ l) (sym (take-append-drop end rest));
          whole = s.before;
          ends = ground (arith, s.at);
        } in
        inr (
          take end rest,
          drop end rest,
          b,
          rw b.path_eq (first_segment-append (take end rest) (drop end rest) b.whole b.ends),
        )
  ]
]
