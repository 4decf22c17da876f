-- ===== src/KeyedList/Pages.antt =====
-- The page behind the rendered list: which rows stand on it, in order, and what building, mounting and unmounting a
-- row does to it.
pub mod Lists
pub mod Counts
mod Tests
use halyard.Prelude.{ℕ, ◌≡◌, true, false, Option, none, some, List, [], ◌∷◌, ◌++◌}
use halyard.Prelude.Ranges.{memb}
use halyard.KeyedList.{ListOps}
use halyard.KeyedList.Pages.Lists.{without, put_before}

-- A row's `id` tells it from the other rows. A new row is not on the page yet; mounting puts a row before the row
-- given, which must be on the page, or at the end, and takes it from where it was.
pub record Pages (ops : ListOps) : Type 1 where
  pub id : ops.Row → ℕ
  pub page : ops.State → List ℕ
  pub page-build :
      (index : ℕ) (item : ops.Item) (s : ops.State) → page (ops.build index item s).1 ≡ page s
  pub id-build :
      (index : ℕ) (item : ops.Item) (s : ops.State)
      → memb (id (ops.build index item s).0) (page s) ≡ false
  pub page-unmount :
      (row : ops.Row) (s : ops.State) → page (ops.unmount row s).1 ≡ without (id row) (page s)
  pub id-mount :
      (row : ops.Row) (before : Option ops.Row) (s : ops.State)
      → id (ops.mount row before s).0 ≡ id row
  pub page-mount_last :
      (row : ops.Row) (s : ops.State)
      → page (ops.mount row none s).1 ≡ without (id row) (page s) ++ id row ∷ []
  pub page-mount_before :
      (row next : ops.Row) (s : ops.State)
      → memb (id next) (without (id row) (page s)) ≡ true
      → page (ops.mount row (some next) s).1
        ≡ put_before (id row) (id next) (without (id row) (page s))
  pub page-set_index :
      (row : ops.Row) (index : ℕ) (s : ops.State) → page (ops.set_index row index s) ≡ page s

module _ (ops : ListOps) (pages : Pages ops) where
  -- The rows that are there, in order.
  abbrev pub ids : List (Option ops.Row) → List ℕ
  ids [] = []
  ids (none ∷ rows) = ids rows
  ids (some row ∷ rows) = pages.id row ∷ ids rows
