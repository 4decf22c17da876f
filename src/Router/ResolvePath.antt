-- ===== src/Router/ResolvePath.antt =====
-- halyard/src/router/matching/resolve_path.rs: a link's path against the base and the path that it is on. A `str` is
-- its bytes.
pub mod Rooted
mod Tests
use halyard.Prelude.{
  ℕ, zero, suc, Bool, true, false, not, ◌&&◌, ◌||◌, Option, none, some, List, [], ◌∷◌, ◌++◌, leb,
  ◌==◌, if◌then◌else◌, length, take, Option,
}
use halyard.Prelude.Bytes.{Bytes, strip_prefix, is_empty, starts_with_byte}
use halyard.Router.Nested.{trim_start_slashes}

abbrev pub starts_with : Bytes → Bytes → Bool
starts_with prefix s = elim (strip_prefix prefix s) [ none ↦ false | some rest ↦ true ]

abbrev pub is_alphanumeric : ℕ → Bool
is_alphanumeric c =
    (leb b'a' c && leb c b'z') || (leb b'A' c && leb c b'Z') || (leb b'0' c && leb c b'9')

abbrev pub all_alphanumeric : Bytes → Bool
all_alphanumeric [] = true
all_alphanumeric (c ∷ s) = is_alphanumeric c && all_alphanumeric s

abbrev pub scheme_separator : Bytes
scheme_separator = b':' ∷ b'/' ∷ b'/' ∷ []

-- What stands before the first `separator`, from `split_once`.
abbrev pub before_first : Bytes → Bytes → Option Bytes
before_first separator [] = if is_empty separator then some [] else none
before_first separator (c ∷ s) =
    let rest = before_first separator s in
    if starts_with separator (c ∷ s)
    then some []
    else (elim rest [ none ↦ none | some prefix ↦ some (c ∷ prefix) ])

pub has_scheme : Bytes → Bool
has_scheme path =
    starts_with (b'/' ∷ b'/' ∷ []) path
    || starts_with (b't' ∷ b'e' ∷ b'l' ∷ b':' ∷ []) path
    || starts_with (b'm' ∷ b'a' ∷ b'i' ∷ b'l' ∷ b't' ∷ b'o' ∷ b':' ∷ []) path
    || (elim (before_first scheme_separator path) [
      | none ↦ false
      | some prefix ↦ all_alphanumeric prefix
    ])

pub begins_with_query_or_hash : Bytes → Bool
begins_with_query_or_hash text = starts_with_byte b'#' text || starts_with_byte b'?' text

-- `trim_end_matches('/')`
abbrev pub trim_end_slashes : Bytes → Bytes
trim_end_slashes [] = []
trim_end_slashes (c ∷ s) =
    let rest = trim_end_slashes s in if c == b'/' && is_empty rest then [] else c ∷ rest

-- `s.get(..=end).unwrap_or(s)`
abbrev pub get_through : ℕ → Bytes → Bytes
get_through end s = if leb (suc end) (length s) then take (suc end) s else s

pub normalize : Bytes → Bool → Bytes
normalize path omit_slash =
    let trimmed = trim_start_slashes path in
    let s = get_through (length (trim_end_slashes trimmed)) trimmed in
    if is_empty s || omit_slash || begins_with_query_or_hash s then s else b'/' ∷ s

pub concat : Bytes → Bytes → Bytes
concat left right = if is_empty left then right else if is_empty right then left else left ++ right

-- What the path is put after.
pub base_of : Bytes → Bytes → Option Bytes → Bytes
base_of base_path path none = base_path
base_of base_path path (some from_path) =
    if starts_with_byte b'/' path
    then base_path
    else if not (starts_with base_path from_path)
    then concat base_path from_path
    else from_path

pub resolve_path : Bytes → Bytes → Option Bytes → Bytes
resolve_path base path from =
    let from_path : Option Bytes = elim from [ none ↦ none | some f ↦ some (normalize f false) ] in
    let result = base_of (normalize base false) path from_path in
    let prefix = if is_empty result then b'/' ∷ [] else result in
    if has_scheme path then path else concat prefix (normalize path (is_empty result))
