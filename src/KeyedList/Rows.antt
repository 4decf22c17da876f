-- ===== src/KeyedList/Rows.antt =====
-- What `apply_plan` reads of rows and items: places, and the check of the new rows.
pub mod Places
use halyard.Prelude.{
  ℕ, zero, suc, Bool, true, false, not, ◌&&◌, ◌||◌, Option, none, some, List, [], ◌∷◌, ◌++◌, ltb,
  ◌==◌, if◌then◌else◌, length, get_elem?, take, drop, Result, ok, err,
}
use halyard.KeyedList.{
  ListError, invariant, too_few_places, left_past_end, free_places_differ, new_row_misfits,
}
use halyard.KeyedList.Diff.{DiffOpAdd, Diff}

module _ {ℓ} {A : Type ℓ} where
  abbrev pub is_none : Option A → Bool
  is_none none = true
  is_none (some _) = false

  -- `iter().flatten().next()`
  abbrev pub first_some : List (Option A) → Option A
  first_some [] = none
  first_some (none ∷ xs) = first_some xs
  first_some (some x ∷ xs) = some x

  -- `get(i)`, flattened.
  abbrev pub item_at : List (Option A) → ℕ → Option A
  item_at xs i = elim (get_elem? xs i) [ none ↦ none | some x ↦ x ]

  -- `resize_with(len, || None)` for a `len` that is not smaller.
  abbrev pub pad : List (Option A) → ℕ → List (Option A)
  pad xs zero = xs
  pad xs (suc n) = pad (xs ++ none ∷ []) n

  abbrev pub count_none : List (Option A) → ℕ
  count_none [] = 0
  count_none (none ∷ xs) = suc (count_none xs)
  count_none (some _ ∷ xs) = count_none xs

  abbrev pub has_some : List (Option A) → Bool
  has_some [] = false
  has_some (x ∷ xs) = not (is_none x) || has_some xs

  -- `Some(None)` is at `i`.
  abbrev pub is_free : List (Option A) → ℕ → Bool
  is_free xs i = elim (get_elem? xs i) [ none ↦ false | some x ↦ is_none x ]

-- Whether `at` is past the index before it.
abbrev pub is_past : Option ℕ → ℕ → Bool
is_past none at = true
is_past (some previous) at = ltb previous at

-- The last check of `check_new_rows`, in the order of the additions.
unfoldable pub new_rows_fit {ℓ κ} :
    {R : Type ℓ} {I : Type κ} → List (Option R) → List (Option I) → Option ℕ → List DiffOpAdd → Bool
new_rows_fit places items previous [] = true
new_rows_fit places items previous (add ∷ added) =
    (is_past previous add.at && is_free places add.at && not (is_none (item_at items add.at)))
    && new_rows_fit places items (some add.at) added

unfoldable pub check_new_rows {ℓ κ} :
    {R : Type ℓ} {I : Type κ}
    → Diff
    → List (Option R)
    → List (Option I)
    → ℕ
    → Result ListError (Unit {0})
check_new_rows plan rows items new_len =
    let places = take new_len rows in
    if ltb (length rows) new_len
    then err (invariant too_few_places)
    else if has_some (drop new_len rows)
    then err (invariant left_past_end)
    else if not (count_none places == length plan.added)
    then err (invariant free_places_differ)
    else if new_rows_fit places items none plan.added
    then ok tt
    else err (invariant new_row_misfits)
