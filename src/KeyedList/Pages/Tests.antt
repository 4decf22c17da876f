-- ===== src/KeyedList/Pages/Tests.antt =====
-- A page of numbered rows, and the theorems on it.
use halyard.Prelude.{
  ℕ, zero, suc, ◌≤◌, ◌≡◌, ◌≢◌, refl, true, false, Bool-cases, inl, inr, Option, none, some, List,
  [], ◌∷◌, ◌++◌, ◌==◌, max, length, arith,
}
use halyard.Prelude.Ranges.{memb}
use halyard.KeyedList.{ListOps}
use halyard.KeyedList.Labels.{Labels}
use halyard.KeyedList.Pages.{Pages, ids}
use halyard.KeyedList.Pages.Lists.{without, without_all, put_before}
use halyard.KeyedList.Reconcile.{rebuild_from_scratch, reconcile}
use halyard.KeyedList.Reconcile.Scratch.{
  labels, made_from, rebuild_from_scratch-page, reconcile_repeated,
}
use halyard.KeyedList.Tests.{first_keys, silent, three_items, all_items}
use halyard.KeyedList.Diff.Tests.{windows, keys_before, keys_after}
use halyard.KeyedList.Apply.OnPage.Plan.{ShowsRows}
use halyard.KeyedList.Reconcile.Shows.{AllThere}
use halyard.KeyedList.Reconcile.Updates.{Updates, reconcile-Updates}

abbrev largest : List ℕ → ℕ
largest [] = 0
largest (x ∷ xs) = max x (largest xs)

largest-le : (j : ℕ) (xs : List ℕ) → memb j xs ≡ true → j ≤ largest xs
largest-le j [] h = absurd cc
largest-le j (x ∷ xs) h = elim (Bool-cases (x == j)) [
  | inl e ↦ let same : x ≡ j = ground arith in omega arith
  | inr e ↦ let ih = largest-le j xs (ground arith) in omega arith
]

pub largest-fresh : (xs : List ℕ) → memb (suc (largest xs)) xs ≡ false
largest-fresh xs = elim (Bool-cases (memb (suc (largest xs)) xs)) [
  | inl there ↦ let le = largest-le (suc (largest xs)) xs there in absurd (omega arith)
  | inr off ↦ off
]

abbrev mounted : ℕ → Option (ℕ × ℕ × ℕ) → List ℕ → List ℕ
mounted x none s = without x s ++ x ∷ []
mounted x (some next) s = put_before x next.0 (without x s)

-- A row has a number, and the index and the item that it was built for; the state is the numbers on the page.
abbrev pub numbered : ListOps
numbered = record {
  Item = ℕ;
  Row = ℕ × ℕ × ℕ;
  State = List ℕ;
  build = λ index item s. ((suc (largest s), index, item), s);
  unmount = λ row s. (row, without row.0 s);
  mount = λ row before s. (row, mounted row.0 before s);
  set_index = λ row index s. s;
}

abbrev pub on_page : Pages numbered
on_page = record {
  id = λ row. row.0;
  page = λ s. s;
  page-build = λ index item s. refl;
  id-build = λ index item s. largest-fresh s;
  page-unmount = λ row s. refl;
  id-mount = λ row before s. refl;
  page-mount_last = λ row s. refl;
  page-mount_before = λ row next s h. refl;
  page-set_index = λ row index s. refl;
}

abbrev pub built_for : Labels numbered
built_for = record {
  Label = ℕ × ℕ;
  label = λ row. (row.1, row.2);
  made = λ index item. (index, item);
  label-build = λ index item s. refl;
  label-mount = λ row before s. refl;
}

abbrev numbered_rows : List (Option (ℕ × ℕ × ℕ))
numbered_rows = some (4, 0, 7) ∷ none ∷ some (2, 2, 8) ∷ []

abbrev items : List (Option ℕ)
items = some 5 ∷ none ∷ some 6 ∷ []

-- The row 9 is not of this list.
rebuild_from_scratch-page_example :
    ((rebuild_from_scratch numbered numbered_rows items (9 ∷ 4 ∷ 2 ∷ [])).1
      ≡ without_all (ids numbered on_page numbered_rows) (9 ∷ 4 ∷ 2 ∷ [])
        ++ ids numbered on_page
            (rebuild_from_scratch numbered numbered_rows items (9 ∷ 4 ∷ 2 ∷ [])).0)
    × (labels numbered built_for
          (rebuild_from_scratch numbered numbered_rows items (9 ∷ 4 ∷ 2 ∷ [])).0
        ≡ made_from numbered built_for 0 items)
rebuild_from_scratch-page_example =
    rebuild_from_scratch-page numbered on_page built_for numbered_rows items (9 ∷ 4 ∷ 2 ∷ [])

differ : length items ≢ 2
differ = omega arith

reconcile_repeated_example :
    ((reconcile numbered first_keys 100 2 2 numbered_rows items (4 ∷ 2 ∷ []) silent).state
      ≡ ids numbered on_page
          (reconcile numbered first_keys 100 2 2 numbered_rows items (4 ∷ 2 ∷ []) silent).rows)
    × (labels numbered built_for
          (reconcile numbered first_keys 100 2 2 numbered_rows items (4 ∷ 2 ∷ []) silent).rows
        ≡ made_from numbered built_for 0 items)
reconcile_repeated_example =
    reconcile_repeated numbered on_page first_keys 100 built_for 2 2 numbered_rows items
      (4 ∷ 2 ∷ []) silent (inl differ) refl

abbrev three_rows : List (Option (ℕ × ℕ × ℕ))
three_rows = some (4, 0, 70) ∷ some (9, 1, 71) ∷ some (2, 2, 72) ∷ []

all_rows : AllThere three_rows
all_rows zero h = ((4, 0, 70), refl)
all_rows (suc zero) h = ((9, 1, 71), refl)
all_rows (suc (suc zero)) h = ((2, 2, 72), refl)
all_rows (suc (suc (suc i))) h = absurd (omega arith)

three-ShowsRows : ShowsRows numbered on_page three_rows (4 ∷ 9 ∷ 2 ∷ [])
three-ShowsRows j = ground arith

reconcile-Updates_example :
    Updates numbered built_for windows 100 keys_before keys_after three_rows three_items
      (reconcile numbered windows 100 keys_before keys_after three_rows three_items
        (4 ∷ 9 ∷ 2 ∷ [])
        silent).rows
    × ((reconcile numbered windows 100 keys_before keys_after three_rows three_items
          (4 ∷ 9 ∷ 2 ∷ [])
          silent).reports
        ≡ silent)
    × ShowsRows numbered on_page
        (reconcile numbered windows 100 keys_before keys_after three_rows three_items
          (4 ∷ 9 ∷ 2 ∷ [])
          silent).rows
        (reconcile numbered windows 100 keys_before keys_after three_rows three_items
          (4 ∷ 9 ∷ 2 ∷ [])
          silent).state
reconcile-Updates_example =
    reconcile-Updates numbered built_for windows 100 keys_before keys_after three_rows three_items
      (4 ∷ 9 ∷ 2 ∷ []) silent on_page refl refl all_rows all_items (omega arith) (omega arith)
      three-ShowsRows
