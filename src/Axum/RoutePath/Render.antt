-- ===== src/Axum/RoutePath/Render.antt =====
-- Writing a path that matchit can hold, and reading it back.
use halyard.Prelude.{
  ℕ, zero, suc, ◌+◌, ◌≤◌, ◌≡◌, ◌≢◌, refl, Bool, true, false, not, ◌||◌, List, [], ◌∷◌, ◌++◌, map,
  All, if◌then◌else◌, take-length_append, drop-length_append, length-map, length-append, ap, arith,
  ==_iff, ltb, Bool-cases, inl, inr, length, ok, none, ◌∙◌,
}
use halyard.Prelude.Bytes.{Bytes}
use halyard.Axum.RoutePath.{
  Token, literal, param, catch_all, Cell, is_brace, wildcard, find_close, close_wildcard,
  last_is_star, ends_segment, parsed, admit_wildcard, max_params, tokens, unescape, split_slash,
  check_segments, parse, starts_with,
}
use halyard.Axum.RoutePath.Wildcard.{IsNameByte, IsName}
use halyard.Axum.RoutePath.Shape.{count_params, StartsSegment, IsPlaced, IsRoutable}

-- A literal brace is written twice, and every parameter is named `p`.
abbrev pub render : List Token → Bytes
render [] = []
render (literal b ∷ ts) = if is_brace b then b ∷ b ∷ render ts else b ∷ render ts
render (param ∷ ts) = b'{' ∷ b'p' ∷ b'}' ∷ render ts
render (catch_all name ∷ ts) = b'{' ∷ b'*' ∷ (name ++ b'}' ∷ render ts)

-- No brace in the names of catch-alls.
abbrev pub HasPlainNames : List Token → Type 0
HasPlainNames [] = Unit
HasPlainNames (catch_all name ∷ ts) = All (λ b. is_brace b ≡ false) name × HasPlainNames ts
HasPlainNames (_ ∷ ts) = HasPlainNames ts

-- The cells of the written path.
cells : List Token → List Cell
cells [] = []
cells (literal b ∷ ts) = (b, is_brace b) ∷ cells ts
cells (param ∷ ts) = (b'{', false) ∷ (b'p', false) ∷ (b'}', false) ∷ cells ts
cells (catch_all name ∷ ts) =
    (b'{', false) ∷ (b'*', false) ∷ (map (λ b. (b, false)) name ++ (b'}', false) ∷ cells ts)

unescape-single :
    (b : ℕ) (bytes : Bytes)
    → is_brace b ≡ false
    → unescape (b ∷ bytes) ≡ (b, false) ∷ unescape bytes
unfolding unescape
unescape-single b [] h = refl
unescape-single b (next ∷ bytes) h = rw h

unescape-name :
    (name bytes : Bytes)
    → All (λ b. is_brace b ≡ false) name
    → unescape (name ++ bytes) ≡ map (λ b. (b, false)) name ++ unescape bytes
unescape-name [] bytes h = refl
unescape-name (b ∷ name) bytes (hb, h) =
    unescape-single b (name ++ bytes) hb ∙ ap (λ l. (b, false) ∷ l) (unescape-name name bytes h)

unescape-close :
    (ts : List Token)
    → StartsSegment ts
    → unescape (b'}' ∷ render ts) ≡ (b'}', false) ∷ unescape (render ts)
unfolding unescape
unescape-close [] h = refl
unescape-close (literal b ∷ ts) h = rw h refl
unescape-close (param ∷ ts) h = absurd h
unescape-close (catch_all name ∷ ts) h = absurd h

unescape-brace :
    (b : ℕ) (bytes : Bytes)
    → is_brace b ≡ true
    → unescape (b ∷ b ∷ bytes) ≡ (b, true) ∷ unescape bytes
unfolding unescape
unescape-brace b bytes h = rw (h, (==_iff b b).1 refl)

unescape-render :
    (ts : List Token) → IsPlaced ts → HasPlainNames ts → unescape (render ts) ≡ cells ts
unfolding cells unescape
unescape-render [] h n = refl
unescape-render (literal b ∷ ts) h n = elim (Bool-cases (is_brace b)) [
  | inl brace ↦
      rw brace
        (unescape-brace b (render ts) brace ∙ ap (λ l. (b, true) ∷ l) (unescape-render ts h n))
  | inr other ↦
      rw other
        (unescape-single b (render ts) other ∙ ap (λ l. (b, false) ∷ l) (unescape-render ts h n))
]
unescape-render (param ∷ ts) h n =
    ap (λ l. (b'{', false) ∷ (b'p', false) ∷ l)
      (unescape-close ts h.0 ∙ ap (λ l. (b'}', false) ∷ l) (unescape-render ts h.1 n))
unescape-render (catch_all name ∷ ts) h n =
    ap (λ l. (b'{', false) ∷ l)
      (unescape-single b'*' (name ++ b'}' ∷ render ts) refl
        ∙ ap (λ l. (b'*', false) ∷ l)
            (unescape-name name (b'}' ∷ render ts) n.0
              ∙ ap (λ l. map (λ b. (b, false)) name ++ l) (rw h.1 refl)))

-- The search for the end of a name without braces.
find_close-name :
    (i : ℕ) (name : Bytes) (rest : List Cell)
    → All IsNameByte name
    → All (λ b. is_brace b ≡ false) name
    → find_close i (map (λ b. (b, false)) name ++ (b'}', false) ∷ rest) ≡ ok (i + length name)
unfolding find_close
find_close-name i [] rest h n = ground arith
find_close-name i (b ∷ name) rest h n = ground (arith, find_close-name (suc i) name rest h.1 n.1)

wildcard-param :
    (rest : List Cell)
    → ends_segment rest ≡ true
    → wildcard ((b'p', false) ∷ (b'}', false) ∷ rest) ≡ ok (param, rest)
unfolding wildcard find_close close_wildcard
wildcard-param rest h = ground arith

last_is_star-name :
    (cell : Cell) (name : Bytes)
    → name ≢ []
    → All IsNameByte name
    → last_is_star (cell ∷ map (λ b. (b, false)) name) ≡ false
last_is_star-name cell [] some_name h = absurd (some_name refl)
last_is_star-name cell (b ∷ []) some_name h = ground arith
last_is_star-name cell (b ∷ next ∷ name) some_name h =
    last_is_star-name (b, false) (next ∷ name) (λ e. cc) h.1

bytes-plain : (name : Bytes) → map (λ (cell : Cell). cell.0) (map (λ b. (b, false)) name) ≡ name
bytes-plain [] = refl
bytes-plain (b ∷ name) = ap (λ l. b ∷ l) (bytes-plain name)

close_wildcard-name :
    (m : List Cell)
    → last_is_star ((b'*', false) ∷ m) ≡ false
    → close_wildcard ((b'*', false) ∷ (m ++ (b'}', false) ∷ [])) (suc (length m))
      ≡ ok (catch_all (map (λ cell. cell.0) m), [])
unfolding close_wildcard
close_wildcard-name m h =
    let short : ltb (suc (length (m ++ (b'}', false) ∷ []))) (suc (length m)) ≡ false =
      ground (arith, length-append m ((b'}', false) ∷ [])) in
    rw (
      short,
      take-length_append m ((b'}', false) ∷ []),
      drop-length_append m ((b'}', false) ∷ []),
      h,
    )

wildcard-catch_all :
    (name : Bytes)
    → IsName name
    → All (λ b. is_brace b ≡ false) name
    → wildcard ((b'*', false) ∷ (map (λ b. (b, false)) name ++ (b'}', false) ∷ []))
      ≡ ok (catch_all name, [])
unfolding wildcard
wildcard-catch_all name (some_name, h) n =
    let m : List Cell = map (λ b. (b, false)) name in
    let index : 1 + length name ≡ suc (length m) =
      omega (arith, length-map {0, 0} (λ (b : ℕ). let c : Cell = (b, false) in c) name) in
    rw (find_close-name 1 name [] h n, index)
      (close_wildcard-name m (last_is_star-name (b'*', false) name some_name h)
        ∙ ap (λ l. ok (catch_all l, [])) (bytes-plain name))

cells-ends_segment : (ts : List Token) → StartsSegment ts → ends_segment (cells ts) ≡ true
unfolding cells
cells-ends_segment [] h = refl
cells-ends_segment (literal b ∷ ts) h = rw h refl
cells-ends_segment (param ∷ ts) h = absurd h
cells-ends_segment (catch_all name ∷ ts) h = absurd h

or-not_self : (b : Bool) → (b || not b) ≡ true
or-not_self true = refl
or-not_self false = refl

tokens-cells :
    (fuel params : ℕ) (ts : List Token)
    → length (cells ts) ≤ fuel
    → params + count_params ts ≤ max_params
    → IsPlaced ts
    → HasPlainNames ts
    → tokens fuel params (cells ts) ≡ parsed ts
unfolding cells tokens admit_wildcard
tokens-cells fuel params [] h p w n = refl
tokens-cells zero params (literal b ∷ ts) h p w n = absurd (omega arith)
tokens-cells zero params (param ∷ ts) h p w n = absurd (omega arith)
tokens-cells zero params (catch_all name ∷ ts) h p w n = absurd (omega arith)
tokens-cells (suc fuel) params (literal b ∷ ts) h p w n =
    rw (or-not_self (is_brace b), tokens-cells fuel params ts (omega arith) p w n) refl
tokens-cells (suc fuel) params (param ∷ ts) h p w n =
    let admitted : admit_wildcard params param (cells ts) ≡ ok (suc params) = ground arith in
    rw
      (
        wildcard-param (cells ts) (cells-ends_segment ts w.0),
        admitted,
        tokens-cells fuel (suc params) ts (omega arith) (omega arith) w.1 n,
      )
      refl
tokens-cells (suc fuel) params (catch_all name ∷ ts) h p w n =
    rw (w.1, wildcard-catch_all name w.0 n.0) refl

-- Written with each literal brace doubled and each parameter as `{p}`, a path that matchit can hold,
-- in whose catch-all's name there are no braces and whose text has no segment in axum 0.7's syntax
-- (one that begins with `:` or `*`), is read back as it was.
pub parse-render :
    (ts : List Token)
    → IsRoutable ts
    → HasPlainNames ts
    → check_segments (split_slash (render ts)) ≡ none
    → parse (render ts) ≡ parsed ts
unfolding parse
parse-render ts r n modern =
    let slash : starts_with b'/' (render ts) ≡ true = rw r.rooted.1 refl in
    rw (slash, modern, unescape-render ts r.placed n)
      (tokens-cells (length (cells ts)) 0 ts (omega arith) (omega arith) r.placed n)
