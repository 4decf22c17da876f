-- ===== src/KeyedList/Reconcile.antt =====
-- `reconcile`, and rendering again from scratch.
pub mod Scratch
pub mod Suited
pub mod Shows
pub mod Updates
use halyard.Prelude.{
  ℕ, suc, Bool, true, not, ◌||◌, Option, none, some, List, [], ◌∷◌, ◌++◌, ◌==◌, if◌then◌else◌,
  length, ok, err,
}
use halyard.KeyedList.{KeySets, ListOps, ListError, repeated_keys}
use halyard.KeyedList.Diff.{Diff, diff}
use halyard.KeyedList.Apply.{unmount_all, apply}

-- The once-only flags of the two errors, and the errors logged.
pub record Reports : Type 0 where
  pub reported_repeated_keys : Bool
  pub reported_invariant : Bool
  pub logged : List ListError

pub report_repeated_keys : ListError → Reports → Reports
report_repeated_keys e r =
    if r.reported_repeated_keys
    then r
    else record r { reported_repeated_keys = true; logged = r.logged ++ e ∷ [] }

pub report_invariant : ListError → Reports → Reports
report_invariant e r =
    if r.reported_invariant
    then r
    else record r { reported_invariant = true; logged = r.logged ++ e ∷ [] }

module _ (ops : ListOps) where
  open ops use {Item, Row, State, build, unmount, mount, set_index}

  -- The loop of `rebuild_from_scratch` over the items, from `index` on.
  pub build_all : ℕ → List (Option Item) → State → List (Option Row) × State
  build_all index [] s = ([], s)
  build_all index (none ∷ items) s = build_all (suc index) items s
  build_all index (some item ∷ items) s =
      let (row, s1) = build index item s in
      let (row', s2) = mount row none s1 in
      let (rows, s3) = build_all (suc index) items s2 in (some row' ∷ rows, s3)

  pub rebuild_from_scratch :
      List (Option Row) → List (Option Item) → State → List (Option Row) × State
  rebuild_from_scratch rows items s = build_all 0 items (unmount_all ops rows s)

  pub record Rendered : Type 0 where
    pub rows : List (Option Row)
    pub state : State
    pub reports : Reports

  pub apply_or_rebuild :
      ℕ → Diff → List (Option Row) → List (Option Item) → State → Reports → Rendered
  apply_or_rebuild usize_max plan rows items s reports =
      let (result, w) =
        apply ops usize_max plan (record { rows = rows; items = items; moving = []; state = s }) in
      elim result [
        | ok _ ↦ record { rows = w.rows; state = w.state; reports = reports }
        | err e ↦
            let (rows', s') = rebuild_from_scratch w.rows w.items w.state in
            record { rows = rows'; state = s'; reports = report_invariant e reports }
      ]

  module _ (sets : KeySets) (usize_max : ℕ) where
    open sets use {KeySet, len}

    pub reconcile :
        KeySet → KeySet → List (Option Row) → List (Option Item) → State → Reports → Rendered
    reconcile old_keys new_keys rows items s reports =
        let (scratch_rows, scratch_state) = rebuild_from_scratch rows items s in
        let error =
          if not (length items == len new_keys)
          then repeated_keys (length items) (len new_keys)
          else repeated_keys (length rows) (len old_keys) in
        let repeated : Rendered = record {
          rows = scratch_rows;
          state = scratch_state;
          reports = report_repeated_keys error reports;
        } in
        let planned : Rendered = elim (diff sets usize_max old_keys new_keys) [
          | ok plan ↦ apply_or_rebuild usize_max plan rows items s reports
          | err e ↦ record {
            rows = scratch_rows;
            state = scratch_state;
            reports = report_invariant e reports;
          }
        ] in
        if not (length items == len new_keys) || not (length rows == len old_keys)
        then repeated
        else planned
