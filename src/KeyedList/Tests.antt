-- ===== src/KeyedList/Tests.antt =====
-- The keyed list on a concrete model of the rendered list.
use halyard.Prelude.{
  ok, ℕ, zero, suc, ◌≡◌, ◌<◌, ◌≤◌, ◌↔◌, refl, false, Option, none, some, List, [], ◌∷◌, ltb, ◌==◌,
  ==_iff, if◌then◌else◌, arith,
}
use halyard.KeyedList.{KeySets, ListOps}
use halyard.KeyedList.Diff.{Diff, diff}
use halyard.KeyedList.Diff.Tests.{windows, keys_before, keys_after, plan_after, planned_after}
use halyard.KeyedList.Rows.{item_at}
use halyard.KeyedList.Work.Shown
use halyard.KeyedList.Work.Shown.{Rendering}
use halyard.KeyedList.Apply.{apply}
use halyard.KeyedList.Reconcile.Shows.{AllThere, wanted}
use halyard.KeyedList.Reconcile.Updates.{Updates, apply-diff}
use halyard.KeyedList.Diff.Total.{diff-ok}
use halyard.KeyedList.Labels.{Labels}
use halyard.KeyedList.Reconcile.{Reports}

-- A row is the index and the item that it was built for, and the state counts the rows mounted.
abbrev counted : ListOps
counted = record {
  Item = ℕ;
  Row = ℕ × ℕ;
  State = ℕ;
  build = λ index item s. ((index, item), s);
  unmount = λ row s. (row, s);
  mount = λ row before s. (row, suc s);
  set_index = λ row index s. s;
}

abbrev shown : Labels counted
shown = record {
  Label = ℕ × ℕ;
  label = λ row. row;
  made = λ index item. (index, item);
  label-build = λ index item s. refl;
  label-mount = λ row before s. refl;
}

-- The set of the first keys: each key is its index.
abbrev index_below : ℕ → ℕ → Option ℕ
index_below n i = if ltb i n then some i else none

pub index_below-swap : (n k i : ℕ) → (index_below n k ≡ some i) ↔ (index_below n i ≡ some k)
index_below-swap n k i = ground arith

pub index_below-lt : (n i : ℕ) → i < n → (k : ℕ) × (index_below n i ≡ some k)
index_below-lt n i h = (i, ground arith)

pub index_below-none : (n i : ℕ) → n ≤ i → index_below n i ≡ none
index_below-none n i h = ground arith

pub index_below-ltb : (n k : ℕ) → (ltb k n ≡ false) ↔ (index_below n k ≡ none)
index_below-ltb n k = ground arith

abbrev pub first_keys : KeySets
first_keys = record {
  Key = ℕ;
  key_eq = λ a b. a == b;
  key_eq_iff = ==_iff;
  KeySet = ℕ;
  len = λ n. n;
  get_index = index_below;
  get_index_of = index_below;
  contains = λ n k. ltb k n;
  get_index-lt = index_below-lt;
  get_index-none = index_below-none;
  get_index_of_iff = index_below-swap;
  contains_iff = index_below-ltb;
}

diff-ok_example : (plan : Diff) × (diff first_keys 100 3 2 ≡ ok plan)
diff-ok_example = diff-ok first_keys 100 3 2 (omega arith) (omega arith)

abbrev pub silent : Reports
silent = record { reported_repeated_keys = false; reported_invariant = false; logged = [] }

abbrev three_rows : List (Option (ℕ × ℕ))
three_rows = some (0, 70) ∷ some (1, 71) ∷ some (2, 72) ∷ []

abbrev pub three_items : List (Option ℕ)
three_items = some 81 ∷ some 82 ∷ some 83 ∷ []

all_rows : AllThere three_rows
all_rows zero h = ((0, 70), refl)
all_rows (suc zero) h = ((1, 71), refl)
all_rows (suc (suc zero)) h = ((2, 72), refl)
all_rows (suc (suc (suc i))) h = absurd (omega arith)

pub all_items : AllThere three_items
all_items zero h = (81, refl)
all_items (suc zero) h = (82, refl)
all_items (suc (suc zero)) h = (83, refl)
all_items (suc (suc (suc i))) h = absurd (omega arith)

-- The rows of the keys 1 and 2 are kept, and a row is built for the key 3.
wanted_after :
    wanted counted shown windows 100 keys_before keys_after
      (λ i. Shown.shown counted shown (item_at three_rows i))
      (item_at three_items)
      0
    ≡ some (1, 71)
wanted_after = refl

apply-diff_example :
    (w' : Rendering counted shown) × (apply counted 100 plan_after
        (record { rows = three_rows; items = three_items; moving = []; state = 0 })
      ≡ (ok tt, w'))
    × Updates counted shown windows 100 keys_before keys_after three_rows three_items w'.rows
apply-diff_example =
    apply-diff counted shown windows 100 keys_before keys_after three_rows three_items [] 0 refl
      refl all_rows all_items (omega arith) (omega arith) plan_after planned_after
