-- ===== src/Reactive/PageData/Tests.antt =====
-- The parsers on concrete values.
use halyard.Prelude.{
  ℕ, ◌≡◌, ◌↔◌, refl, Bool, true, false, Option, none, some, List, [], ◌∷◌, Result, ok, err,
}
use halyard.Reactive.PageData.{
  JsValueLike, id, serialized_error, incomplete_chunk, collect, collect_from, incomplete_chunks,
  MalformedEntry, at_entry, incomplete_chunks_global, a_chunk_id, of_type, malformed_entries,
  parse_each, describe,
}
use halyard.Reactive.PageData.Parsed.{
  oks, errs, Reported, collect-oks, serialized_error-ok_iff, ids, AllIds, incomplete_chunks-ids,
}

data Js : Type 0 where
  undefined : Js
  num str : ℕ → Js
  -- Arrays of numbers.
  arr : List ℕ → Js

abbrev number_of : Js → Option ℕ
number_of (num n) = some n
number_of _ = none

abbrev string_of : Js → Option ℕ
string_of (str s) = some s
string_of _ = none

abbrev nums : List ℕ → List Js
nums [] = []
nums (n ∷ ns) = num n ∷ nums ns

abbrev items_of : Js → Option (List Js)
items_of (arr ns) = some (nums ns)
items_of _ = none

abbrev is_undefined : Js → Bool
is_undefined undefined = true
is_undefined _ = false

-- Numbers are whole, and strings are numbers.
abbrev page : JsValueLike
page = record {
  Value = Js;
  Number = ℕ;
  Text = ℕ;
  is_missing = is_undefined;
  number = number_of;
  string = string_of;
  items = items_of;
  type_of = λ _. 0;
  is_finite = λ _. true;
  is_nonnegative = λ _. true;
  is_whole = λ _. true;
  as_usize = λ n. n;
}

abbrev chunks : List Js
chunks = num 4 ∷ str 5 ∷ num 6 ∷ []

incomplete_chunks-chunks : incomplete_chunks page chunks ≡ (
  4 ∷ 6 ∷ [],
  some (
      malformed_entries incomplete_chunks_global 1 (record {
        location = at_entry incomplete_chunks_global 1;
        expected = a_chunk_id;
        found = of_type 0;
      })),
)
unfolding incomplete_chunks collect collect_from parse_each incomplete_chunk id describe
incomplete_chunks-chunks = refl

incomplete_chunks-ids_example :
    ((incomplete_chunks page chunks).0 ≡ ids page chunks)
    × (((incomplete_chunks page chunks).1 ≡ none) ↔ AllIds page chunks)
incomplete_chunks-ids_example = incomplete_chunks-ids page chunks

serialized_error-ok_iff_example :
    (serialized_error page 0 (arr (1 ∷ 2 ∷ 3 ∷ [])) ≡ ok (1, 2, 3)) ↔ (
      (a : Js) × (b : Js) × (c : Js) × (rest : List Js) × (items_of (arr (1 ∷ 2 ∷ 3 ∷ []))
        ≡ some (a ∷ b ∷ c ∷ rest))
      × (id page a ≡ some 1)
      × (id page b ≡ some 2)
      × (string_of c ≡ some 3))
serialized_error-ok_iff_example = serialized_error-ok_iff page 0 (arr (1 ∷ 2 ∷ 3 ∷ [])) 1 2 3

abbrev entries : List (Result (MalformedEntry page) ℕ)
entries =
    ok 7
    ∷ err (record {
      location = at_entry incomplete_chunks_global 1;
      expected = a_chunk_id;
      found = of_type 0;
    })
    ∷ []

collect-oks_example :
    ((collect page incomplete_chunks_global entries).0 ≡ oks page entries)
    × Reported page incomplete_chunks_global
        (errs page entries)
        (collect page incomplete_chunks_global entries).1
collect-oks_example = collect-oks page incomplete_chunks_global entries
