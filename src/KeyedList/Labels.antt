-- ===== src/KeyedList/Labels.antt =====
-- A label on rows that tells what they show: mounting keeps it, and building a row decides it.
use halyard.Prelude.{ℕ, ◌≡◌, Option}
use halyard.KeyedList.{ListOps}

pub record Labels (ops : ListOps) : Type 1 where
  pub Label : Type 0
  pub label : ops.Row → Label
  pub made : ℕ → ops.Item → Label
  pub label-build :
      (index : ℕ) (item : ops.Item) (s : ops.State)
      → label (ops.build index item s).0 ≡ made index item
  pub label-mount :
      (row : ops.Row) (before : Option ops.Row) (s : ops.State)
      → label (ops.mount row before s).0 ≡ label row
