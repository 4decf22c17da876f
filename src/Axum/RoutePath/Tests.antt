-- ===== src/Axum/RoutePath/Tests.antt =====
-- Runs of `parse`, and the theorems on concrete paths.
use halyard.Prelude.{◌≡◌, ◌≢◌, ◌↔◌, ◌⊎◌, refl, true, none, List, [], ◌∷◌}
use halyard.Prelude.Bytes.{Bytes}
use halyard.Axum.RoutePath.{
  Token, literal, param, catch_all, parse, parsed, failed, out_of_fuel, conflicts_with, unescape,
  find_close, close_wildcard, wildcard_token, wildcard, admit_wildcard, tokens, split_slash,
  check_segments, invalid_param_segment, colon_segment, catch_all_not_last,
}
use halyard.Axum.RoutePath.Shape.{parse-ne-out_of_fuel, parse-IsRoutable, IsRoutable}
use halyard.Axum.RoutePath.Render.{parse-render, render}
use halyard.Axum.RoutePath.Conflicts.{conflicts_with_iff, conflicts_with_comm, Fork}

-- `/u/{p}`
abbrev pub user : Bytes
user = b'/' ∷ b'u' ∷ b'/' ∷ b'{' ∷ b'p' ∷ b'}' ∷ []

abbrev pub user_tokens : List Token
user_tokens = literal b'/' ∷ literal b'u' ∷ literal b'/' ∷ param ∷ []

-- `/{*p}`
abbrev files : Bytes
files = b'/' ∷ b'{' ∷ b'*' ∷ b'p' ∷ b'}' ∷ []

abbrev files_tokens : List Token
files_tokens = literal b'/' ∷ catch_all (b'p' ∷ []) ∷ []

pub parse-user : parse user ≡ parsed user_tokens
unfolding parse tokens wildcard find_close close_wildcard wildcard_token admit_wildcard unescape
    split_slash check_segments
parse-user = refl

parse-files : parse files ≡ parsed files_tokens
unfolding parse tokens wildcard find_close close_wildcard wildcard_token admit_wildcard unescape
    split_slash check_segments
parse-files = refl

-- `/{{`
parse_doubled : parse (b'/' ∷ b'{' ∷ b'{' ∷ []) ≡ parsed (literal b'/' ∷ literal b'{' ∷ [])
unfolding parse tokens unescape split_slash check_segments
parse_doubled = refl

-- `/:a`
parse_colon : parse (b'/' ∷ b':' ∷ b'a' ∷ []) ≡ failed colon_segment
unfolding parse split_slash check_segments
parse_colon = refl

-- `/{p}a`
parse_glued : parse (b'/' ∷ b'{' ∷ b'p' ∷ b'}' ∷ b'a' ∷ []) ≡ failed invalid_param_segment
unfolding parse tokens wildcard find_close close_wildcard unescape split_slash check_segments
parse_glued = refl

-- `/{*p}/`
parse_after_catch_all :
    parse (b'/' ∷ b'{' ∷ b'*' ∷ b'p' ∷ b'}' ∷ b'/' ∷ []) ≡ failed catch_all_not_last
unfolding parse tokens wildcard find_close close_wildcard wildcard_token admit_wildcard unescape
    split_slash check_segments
parse_after_catch_all = refl

parse-ne-out_of_fuel_example : parse user ≢ out_of_fuel
parse-ne-out_of_fuel_example = parse-ne-out_of_fuel user

parse-IsRoutable_example : IsRoutable user_tokens
parse-IsRoutable_example = parse-IsRoutable user parse-user

files_check : check_segments (split_slash (render files_tokens)) ≡ none
unfolding split_slash check_segments
files_check = refl

parse-render_example : parse (render files_tokens) ≡ parsed files_tokens
parse-render_example =
    parse-render files_tokens (parse-IsRoutable files parse-files) ((refl, tt), tt) files_check

conflicts_with_iff_example :
    (conflicts_with user_tokens files_tokens ≡ true)
    ↔ ((user_tokens ≡ files_tokens) ⊎ Fork user_tokens files_tokens)
conflicts_with_iff_example = conflicts_with_iff user_tokens files_tokens

conflicts_with_comm_example :
    conflicts_with user_tokens files_tokens ≡ conflicts_with files_tokens user_tokens
conflicts_with_comm_example = conflicts_with_comm user_tokens files_tokens
