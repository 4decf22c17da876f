-- ===== src/Axum/RoutePath/Shape.antt =====
-- Reading a path ends, and what it returns is a path that matchit can hold.
use halyard.Prelude.{
  ℕ, zero, suc, ◌+◌, ◌≤◌, ◌≡◌, ◌≢◌, refl, Bool, true, false, not, ◌||◌, List, [], ◌∷◌, arith, ◌==◌,
  ◌⊎◌, sym, ◌∙◌, subst, Bool-cases, inl, inr, length, ok, Result-cases, none, Option-cases,
}
use halyard.Prelude.Bytes.{Bytes}
use halyard.Axum.RoutePath.{
  Token, literal, param, catch_all, Cell, is_brace, wildcard, ends_segment, ParseResult, parsed,
  failed, out_of_fuel, push, admit_wildcard, max_params, tokens, unescape, split_slash,
  check_segments, parse, is_empty, PathError, no_leading_slash,
}
use halyard.Axum.RoutePath.Wildcard.{IsName, IsWildcard, wildcard-ok}

abbrev pub count_params : List Token → ℕ
count_params [] = 0
count_params (literal _ ∷ ts) = count_params ts
count_params (param ∷ ts) = suc (count_params ts)
count_params (catch_all _ ∷ ts) = count_params ts

-- The end of a path, or the beginning of a segment.
abbrev pub StartsSegment : List Token → Type 0
StartsSegment [] = Unit
StartsSegment (literal b ∷ _) = b ≡ b'/'
StartsSegment (_ ∷ _) = ⊥

-- A parameter ends its segment, and a catch-all ends the path.
abbrev pub IsPlaced : List Token → Type 0
IsPlaced [] = Unit
IsPlaced (literal _ ∷ ts) = IsPlaced ts
IsPlaced (param ∷ ts) = StartsSegment ts × IsPlaced ts
IsPlaced (catch_all name ∷ ts) = IsName name × (ts ≡ [])

abbrev Sound : ℕ → List Cell → ParseResult → Type 0
Sound params cells out_of_fuel = ⊥
Sound params cells (failed _) = Unit
Sound params cells (parsed ts) =
    IsPlaced ts
    × (params + count_params ts ≤ max_params)
    × (ends_segment cells ≡ true → StartsSegment ts)
    × (is_empty cells ≡ true → ts ≡ [])

Sound-literal :
    (params byte : ℕ) (escaped : Bool) (after : List Cell) (r : ParseResult)
    → Sound params after r
    → Sound params ((byte, escaped) ∷ after) (push (literal byte) r)
Sound-literal params byte escaped after (parsed ts) h = (h.0, h.1, λ e. ground arith, λ e. cc)
Sound-literal params byte escaped after (failed e) h = tt
Sound-literal params byte escaped after out_of_fuel h = h

-- Past a wildcard the rest of the path is read with at most 25 parameters.
admit_wildcard-le :
    (params : ℕ) (token : Token) (rest : List Cell) {params' : ℕ}
    → params ≤ max_params
    → admit_wildcard params token rest ≡ ok params'
    → params' ≤ max_params
unfolding admit_wildcard
admit_wildcard-le params (literal _) rest p h = ground arith
admit_wildcard-le params param rest p h = ground arith
admit_wildcard-le params (catch_all _) rest p h = ground arith

Sound-wildcard :
    (params params' byte : ℕ) (escaped : Bool) (after rest : List Cell) (token : Token)
    (r : ParseResult)
    → (byte == b'/') ≡ false
    → admit_wildcard params token rest ≡ ok params'
    → IsWildcard token
    → ends_segment rest ≡ true
    → Sound params' rest r
    → Sound params ((byte, escaped) ∷ after) (push token r)
unfolding admit_wildcard
Sound-wildcard params params' byte escaped after rest (literal _) r b a w e h = absurd w
Sound-wildcard params params' byte escaped after rest param (parsed ts) b a w e h =
    ((h.2 e, h.0), ground arith, λ q. cc, λ q. cc)
Sound-wildcard params params' byte escaped after rest (catch_all name) (parsed ts) b a w e h =
    ((w, h.3 (ground arith)), ground arith, λ q. cc, λ q. cc)
Sound-wildcard params params' byte escaped after rest token (failed e') b a w e h = tt
Sound-wildcard params params' byte escaped after rest token out_of_fuel b a w e h = h

tokens-Sound :
    (fuel params : ℕ) (cells : List Cell)
    → length cells ≤ fuel
    → params ≤ max_params
    → Sound params cells (tokens fuel params cells)
unfolding tokens
tokens-Sound fuel params [] h p = (tt, omega arith, λ _. tt, λ _. refl)
tokens-Sound zero params (cell ∷ cells) h p = elim h [ ]
tokens-Sound (suc fuel) params ((byte, escaped) ∷ after) h p =
    elim (Bool-cases (escaped || not (is_brace byte))) [
      | inl plain ↦ rw plain (
          Sound-literal params byte escaped after (tokens fuel params after)
            (tokens-Sound fuel params after (omega arith) p))
      | inr brace ↦ elim (Bool-cases (byte == b'}')) [
        | inl e ↦ rw (brace, e) tt
        | inr e ↦ elim (Result-cases (wildcard after)) [
          | inr (e', refused) ↦ rw (brace, e, refused) tt
          | inl ((token, rest), read) ↦ elim (Result-cases (admit_wildcard params token rest)) [
            | inr (e', refused) ↦ rw (brace, e, read, refused) tt
            | inl (params', admitted) ↦
                let (w, ends, shorter) = wildcard-ok after read in
                rw (brace, e, read, admitted)
                  (Sound-wildcard params params' byte escaped after rest token
                    (tokens fuel params' rest) (ground arith) admitted w ends
                    (tokens-Sound fuel params' rest (omega arith)
                      (admit_wildcard-le params token rest p admitted)))
          ]
        ]
      ]
    ]

-- A path that `RoutePath::parse` accepts: it begins with `/`, wildcards stand where they may, and
-- there are at most 25 parameters.
pub record IsRoutable (ts : List Token) : Type 0 where
  pub rooted : (rest : List Token) × (ts ≡ literal b'/' ∷ rest)
  pub placed : IsPlaced ts
  pub few : count_params ts ≤ max_params

unescape-slash :
    (bytes : Bytes) → (cells : List Cell) × (unescape (b'/' ∷ bytes) ≡ (b'/', false) ∷ cells)
unfolding unescape
unescape-slash [] = ([], refl)
unescape-slash (byte ∷ bytes) = (unescape (byte ∷ bytes), refl)

-- What `parse` says of a path that begins with `/` and passes the checks on its segments.
pub cells_of : Bytes → ParseResult
cells_of path = tokens (length (unescape path)) 0 (unescape path)

cells_of-Sound : (path : Bytes) → Sound 0 (unescape path) (cells_of path)
unfolding cells_of
cells_of-Sound path =
    tokens-Sound (length (unescape path)) 0 (unescape path) (omega arith) (omega arith)

pub parse-cases :
    (path : Bytes)
    → ((e : PathError) × (parse path ≡ failed e))
      ⊎ ((rest : Bytes) × (path ≡ b'/' ∷ rest)
          × (check_segments (split_slash path) ≡ none)
          × (parse path ≡ cells_of path))
unfolding parse cells_of
parse-cases [] = inl (no_leading_slash, refl)
parse-cases (byte ∷ rest) = elim (Bool-cases (byte == b'/')) [
  | inr bare ↦ inl (no_leading_slash, rw bare)
  | inl rooted ↦ elim (Option-cases (check_segments (split_slash (byte ∷ rest)))) [
    | inr (e, refused) ↦ inl (e, rw (rooted, refused))
    | inl fine ↦ inr (rest, ground arith, fine, rw (rooted, fine))
  ]
]

-- Reading a path always ends: the fuel, one unit for each byte, does not run out.
pub parse-ne-out_of_fuel : (path : Bytes) → parse path ≢ out_of_fuel
parse-ne-out_of_fuel path e = elim (parse-cases path) [
  | inl (e', refused) ↦ cc
  | inr (rest, rooted, fine, read) ↦
      subst (Sound 0 (unescape path)) (sym read ∙ e) (cells_of-Sound path)
]

push-eq-parsed :
    (t : Token) (r : ParseResult) {ts : List Token}
    → push t r ≡ parsed ts
    → (later : List Token) × (ts ≡ t ∷ later)
push-eq-parsed t (parsed later) h = (later, cc)
push-eq-parsed t (failed e) h = cc
push-eq-parsed t out_of_fuel h = cc

cells_of-rooted :
    (rest : Bytes) {ts : List Token}
    → cells_of (b'/' ∷ rest) ≡ parsed ts
    → (later : List Token) × (ts ≡ literal b'/' ∷ later)
unfolding cells_of tokens
cells_of-rooted rest {ts} e =
    let (cells, slash) = unescape-slash rest in
    push-eq-parsed (literal b'/') (tokens (length cells) 0 cells)
      (subst (λ c. tokens (length c) 0 c ≡ parsed ts) slash e)

-- What `RoutePath::parse` accepts begins with `/`, ends a segment after each parameter, has nothing
-- after a catch-all, whose name is not empty and has no `*` and no `/`, and has at most 25
-- parameters.
pub parse-IsRoutable : (path : Bytes) {ts : List Token} → parse path ≡ parsed ts → IsRoutable ts
parse-IsRoutable path {ts} e = elim (parse-cases path) [
  | inl (e', refused) ↦ ground arith
  | inr (rest, rooted, fine, read) ↦
      let s : Sound 0 (unescape path) (parsed ts) =
        subst (Sound 0 (unescape path)) (sym read ∙ e) (cells_of-Sound path) in
      record {
        rooted = cells_of-rooted rest (rw rooted at (sym read ∙ e));
        placed = s.0;
        few = omega arith;
      }
]
