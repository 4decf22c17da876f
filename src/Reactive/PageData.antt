-- ===== src/Reactive/PageData.antt =====
-- halyard_reactive_graph/src/hydration_context/page_data.rs: the parsers of the data that the server
-- embeds in the page. A JavaScript value is the interface `JsValueLike`; texts for the log are the parts
-- that they are made of.
pub mod Parsed
mod Tests
use halyard.Prelude.{
  ℕ, zero, suc, Bool, true, false, ◌&&◌, Option, none, some, List, [], ◌∷◌, ◌++◌, leb,
  if◌then◌else◌, length, Result, ok, err, ◌>>=◌,
}

-- The trait `JsValueLike`, with what the parsers use of `f64` and strings.
pub record JsValueLike : Type 1 where
  pub Value : Type 0
  pub Number : Type 0
  pub Text : Type 0
  pub is_missing : Value → Bool
  pub number : Value → Option Number
  pub string : Value → Option Text
  pub items : Value → Option (List Value)
  pub type_of : Value → Text
  -- `number.is_finite()`, `number >= 0.0`, `number.fract() == 0.0` and `number as usize`.
  pub is_finite : Number → Bool
  pub is_nonnegative : Number → Bool
  pub is_whole : Number → Bool
  pub as_usize : Number → ℕ

pub data Global : Type 0 where
  resolved_resources serialized_errors_global incomplete_chunks_global : Global

-- The place of a malformed value: the index of the entry, and the field in it.
pub data Location : Type 0 where
  at_entry : Global → ℕ → Location
  at_field : Global → ℕ → ℕ → Location

pub data Expected : Type 0 where
  a_serialized_value an_error_entry a_boundary_id an_error_id a_message a_chunk_id : Expected

module _ (js : JsValueLike) where
  open js use {
    Value, Number, Text, is_missing, number, string, items, type_of, is_finite, is_nonnegative,
    is_whole, as_usize,
  }

  -- What `describe` says.
  pub data Found : Type 0 where
    the_number : Number → Found
    an_array : Found
    of_type : Text → Found
    an_array_of_length : ℕ → Found

  pub record MalformedEntry : Type 0 where
    pub location : Location
    pub expected : Expected
    pub found : Found

  pub data PageDataError : Type 0 where
    missing : Global → PageDataError
    unreadable : Global → Text → PageDataError
    not_array : Global → Found → PageDataError
    malformed_entries : Global → ℕ → MalformedEntry → PageDataError
    malformed_resource : MalformedEntry → PageDataError
    id_out_of_range : ℕ → PageDataError

  pub describe : Value → Found
  describe value = elim (number value) [
    | some n ↦ the_number n
    | none ↦ elim (items value) [ some _ ↦ an_array | none ↦ of_type (type_of value) ]
  ]

  pub id : Value → Option ℕ
  id value = elim (number value) [
    | none ↦ none
    | some n ↦ if is_finite n && is_nonnegative n && is_whole n then some (as_usize n) else none
  ]

  pub not_an_array : Global → Value → PageDataError
  not_an_array global value =
      if is_missing value then missing global else not_array global (describe value)

  abbrev pub u32_max : ℕ
  u32_max = 4294967295

  pub resource_index : ℕ → Result PageDataError ℕ
  resource_index id = if leb id u32_max then ok id else err (id_out_of_range id)

  pub resolved_resource : ℕ → Value → Result PageDataError (Option Text)
  resolved_resource id entry = if is_missing entry then ok none else elim (string entry) [
    | some text ↦ ok (some text)
    | none ↦ err (
        malformed_resource (record {
          location = at_entry resolved_resources id;
          expected = a_serialized_value;
          found = describe entry;
        }))
  ]

  -- `ok_or_else`
  abbrev pub ok_or : {E A : Type 0} → Option A → E → Result E A
  ok_or none e = err e
  ok_or (some a) e = ok a

  abbrev pub ErrorEntry : Type 0
  ErrorEntry = ℕ × ℕ × Text

  -- The first three fields of an entry.
  abbrev pub three_of : ℕ → List Value → Result MalformedEntry (Value × Value × Value)
  three_of index (boundary_id ∷ error_id ∷ message ∷ _) = ok (boundary_id, error_id, message)
  three_of index fields = err (record {
    location = at_entry serialized_errors_global index;
    expected = an_error_entry;
    found = an_array_of_length (length fields);
  })

  abbrev pub malformed_field : ℕ → ℕ → Expected → Value → MalformedEntry
  malformed_field index field expected value = record {
    location = at_field serialized_errors_global index field;
    expected = expected;
    found = describe value;
  }

  pub serialized_error : ℕ → Value → Result MalformedEntry ErrorEntry
  serialized_error index entry = do
    fields ← ok_or (items entry) (record {
      location = at_entry serialized_errors_global index;
      expected = an_error_entry;
      found = describe entry;
    })
    (boundary_id, error_id, message) ← three_of index fields
    boundary ← ok_or (id boundary_id) (malformed_field index 0 a_boundary_id boundary_id)
    error ← ok_or (id error_id) (malformed_field index 1 an_error_id error_id)
    text ← ok_or (string message) (malformed_field index 2 a_message message)
    ok (boundary, error, text)

  pub incomplete_chunk : ℕ → Value → Result MalformedEntry ℕ
  incomplete_chunk index entry = ok_or (id entry) (record {
    location = at_entry incomplete_chunks_global index;
    expected = a_chunk_id;
    found = describe entry;
  })

  abbrev pub first_error : Global → List MalformedEntry → Option PageDataError
  first_error global [] = none
  first_error global (first ∷ rest) = some (malformed_entries global (suc (length rest)) first)

  module _ {A : Type 0} where
    -- The loop of `collect`.
    pub collect_from :
        Global
        → List A
        → List MalformedEntry
        → List (Result MalformedEntry A)
        → List A × Option PageDataError
    collect_from global values malformed [] = (values, first_error global malformed)
    collect_from global values malformed (ok value ∷ entries) =
        collect_from global (values ++ value ∷ []) malformed entries
    collect_from global values malformed (err error ∷ entries) =
        collect_from global values (malformed ++ error ∷ []) entries

    pub collect : Global → List (Result MalformedEntry A) → List A × Option PageDataError
    collect global entries = collect_from global [] [] entries

    -- `entries.iter().enumerate().map(…)`, from `index` on.
    pub parse_each :
        (ℕ → Value → Result MalformedEntry A) → ℕ → List Value → List (Result MalformedEntry A)
    parse_each parse index [] = []
    parse_each parse index (entry ∷ entries) =
        parse index entry ∷ parse_each parse (suc index) entries

  pub serialized_errors : List Value → List ErrorEntry × Option PageDataError
  serialized_errors entries =
      collect serialized_errors_global (parse_each serialized_error 0 entries)

  pub incomplete_chunks : List Value → List ℕ × Option PageDataError
  incomplete_chunks entries =
      collect incomplete_chunks_global (parse_each incomplete_chunk 0 entries)
