-- ===== src/Axum/RoutePath.antt =====
-- halyard/src/axum/route_path.rs: how axum 0.8 and matchit 0.8 read the path of a route. A path is
-- its bytes. `parse` is a loop on fuel; `ParseResult` has the case that the fuel runs out.
pub mod Wildcard
pub mod Shape
pub mod Render
pub mod Conflicts
pub mod Tests
use halyard.Prelude.{
  ℕ, zero, suc, Bool, true, false, not, ◌&&◌, ◌||◌, Option, none, some, List, [], ◌∷◌, map, ltb,
  ◌==◌, if◌then◌else◌, length, take, drop, Result, ok, err, ◌>>=◌,
}
use halyard.Prelude.Bytes.{Bytes, ◌=b◌}

pub data PathError : Type 0 where
  no_leading_slash colon_segment star_segment invalid_param : PathError
  invalid_param_segment catch_all_not_last too_many_params : PathError

abbrev pub max_params : ℕ
max_params = 25

pub data Token : Type 0 where
  literal : ℕ → Token
  param : Token
  catch_all : Bytes → Token

pub is_wildcard : Token → Bool
is_wildcard (literal _) = false
is_wildcard param = true
is_wildcard (catch_all _) = true

-- The derived equality.
infix 50 ◌=t◌
pub ◌=t◌ : Token → Token → Bool
unfolding ◌=b◌
literal a =t literal b = a == b
param =t param = true
catch_all a =t catch_all b = a =b b
_ =t _ = false

-- A byte of the path, and whether it is a brace that was written twice.
abbrev pub Cell : Type 0
Cell = ℕ × Bool

abbrev pub is_brace : ℕ → Bool
is_brace b = b == b'{' || b == b'}'

pub unescape : Bytes → List Cell
unescape [] = []
unescape (byte ∷ []) = (byte, false) ∷ []
unescape (byte ∷ next ∷ bytes) =
    let doubled = (byte, true) ∷ unescape bytes in
    let single = (byte, false) ∷ unescape (next ∷ bytes) in
    if is_brace byte && next == byte then doubled else single

-- The search for the closing brace; `i` is the index of the first cell.
pub find_close : ℕ → List Cell → Result PathError ℕ
find_close i [] = err invalid_param
find_close i ((byte, escaped) ∷ cells) =
    if byte == b'}' && not escaped
    then ok i
    else if byte == b'*' || byte == b'/'
    then err invalid_param
    else find_close (suc i) cells

abbrev pub last_is_star : List Cell → Bool
last_is_star [] = false
last_is_star ((byte, _) ∷ []) = byte == b'*'
last_is_star (_ ∷ cell ∷ cells) = last_is_star (cell ∷ cells)

-- Whether a wildcard may be followed by these cells.
abbrev pub ends_segment : List Cell → Bool
ends_segment [] = true
ends_segment ((next, _) ∷ _) = next == b'/'

pub wildcard_token : List Cell → Token
wildcard_token [] = param
wildcard_token ((byte, _) ∷ name) =
    if byte == b'*' then catch_all (map (λ cell. cell.0) name) else param

-- What follows the search: `close` is the index of the closing brace.
pub close_wildcard : List Cell → ℕ → Result PathError (Token × List Cell)
unfolding wildcard_token
close_wildcard after close =
    let name = take close after in
    let rest = drop 1 (drop close after) in
    if ltb (length after) close
    then err invalid_param
    else if last_is_star name
    then err invalid_param
    else if ends_segment rest
    then ok (wildcard_token name, rest)
    else err invalid_param_segment

pub wildcard : List Cell → Result PathError (Token × List Cell)
wildcard [] = err invalid_param
wildcard ((byte, escaped) ∷ cells) =
    if byte == b'}'
    then err invalid_param
    else (find_close 1 cells >>= close_wildcard ((byte, escaped) ∷ cells))

pub data ParseResult : Type 0 where
  parsed : List Token → ParseResult
  failed : PathError → ParseResult
  out_of_fuel : ParseResult

abbrev pub push : Token → ParseResult → ParseResult
push token (parsed tokens) = parsed (token ∷ tokens)
push token (failed e) = failed e
push token out_of_fuel = out_of_fuel

abbrev pub is_empty {ℓ} : {A : Type ℓ} → List A → Bool
is_empty [] = true
is_empty (_ ∷ _) = false

-- How many parameters there are after a wildcard that `rest` follows, or why it is refused.
pub admit_wildcard : ℕ → Token → List Cell → Result PathError ℕ
admit_wildcard params (catch_all _) rest =
    if is_empty rest then ok params else err catch_all_not_last
admit_wildcard params param rest =
    if ltb max_params (suc params) then err too_many_params else ok (suc params)
admit_wildcard params (literal _) rest = ok params

-- The loop of `parse`; `params` counts the parameters read so far.
pub tokens : ℕ → ℕ → List Cell → ParseResult
tokens fuel params [] = parsed []
tokens zero params (_ ∷ _) = out_of_fuel
tokens (suc fuel) params ((byte, escaped) ∷ after) =
    let plain = push (literal byte) (tokens fuel params after) in
    let opened : ParseResult = elim (wildcard after) [
      | err e ↦ failed e
      | ok (token, rest) ↦ elim (admit_wildcard params token rest) [
        | err e ↦ failed e
        | ok params' ↦ push token (tokens fuel params' rest)
      ]
    ] in
    if escaped || not (is_brace byte)
    then plain
    else if byte == b'}'
    then failed invalid_param
    else opened

-- `str::split` at `/`.
abbrev pub extend_first : ℕ → List Bytes → List Bytes
extend_first byte [] = (byte ∷ []) ∷ []
extend_first byte (segment ∷ segments) = (byte ∷ segment) ∷ segments

pub split_slash : Bytes → List Bytes
split_slash [] = [] ∷ []
split_slash (byte ∷ bytes) =
    let later = split_slash bytes in if byte == b'/' then [] ∷ later else extend_first byte later

abbrev pub starts_with : ℕ → Bytes → Bool
starts_with b [] = false
starts_with b (byte ∷ _) = byte == b

-- The checks for the syntax of axum 0.7.
pub check_segments : List Bytes → Option PathError
check_segments [] = none
check_segments (segment ∷ segments) =
    if starts_with b':' segment
    then some colon_segment
    else if starts_with b'*' segment
    then some star_segment
    else check_segments segments

pub parse : Bytes → ParseResult
parse path =
    if not (starts_with b'/' path)
    then failed no_leading_slash
    else elim (check_segments (split_slash path)) [
      | some e ↦ failed e
      | none ↦ let cells = unescape path in tokens (length cells) 0 cells
    ]

pub conflicts_with : List Token → List Token → Bool
unfolding ◌=t◌ is_wildcard
conflicts_with [] [] = true
conflicts_with (a ∷ ours) (b ∷ theirs) =
    if a =t b then conflicts_with ours theirs else is_wildcard a && is_wildcard b
conflicts_with _ _ = false
