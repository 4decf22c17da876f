-- ===== src/KeyedList/Apply.antt =====
-- Carrying out a plan: `apply` and `apply_plan`.
pub mod OnPage
pub mod Removed
pub mod Checked
pub mod Added
pub mod Carried
pub mod Cleared
pub mod Placed
use halyard.Prelude.{
  ℕ, suc, Bool, false, not, Option, none, some, List, [], ◌∷◌, ◌==◌, if◌then◌else◌, length, take,
  drop, ok, err,
}
use halyard.Prelude.Words.{checked_add, checked_sub}
use halyard.KeyedList.{
  ListOps, invariant, unaccounted, index_overflows, row_to_remove_missing, row_to_move_missing,
}
use halyard.KeyedList.Diff.{DiffOpMove, DiffOpAdd, normal, append, Diff}
use halyard.KeyedList.Rows.{first_some, pad, check_new_rows}
use halyard.Prelude.Actions.{◌>>=◌, ◌>>◌, done, stop}
use halyard.KeyedList.Work.{
  M, take_row, take_moving, take_item, free_place, put_row, push_moving, call_unmount, call_mount,
  call_set_index, call_build,
}

module _ (ops : ListOps) where
  open ops use {Item, Row, State, build, unmount, mount, set_index}

  -- `for mut row in rows.drain(..).flatten() { ops.unmount(&mut row) }`, and the same of `moving`.
  pub unmount_all : List (Option Row) → State → State
  unmount_all [] s = s
  unmount_all (none ∷ rows) s = unmount_all rows s
  unmount_all (some row ∷ rows) s = unmount_all rows (unmount row s).1

  pub clear_rows : M Row Item State (Unit {0})
  clear_rows w = (ok tt, record w { rows = []; state = unmount_all w.rows w.state })

  pub remove_rows : List ℕ → M Row Item State (Unit {0})
  remove_rows [] = done tt
  remove_rows (at ∷ removed) = do
    row ← take_row at row_to_remove_missing
    _ ← call_unmount ops row
    remove_rows removed

  pub take_out : List DiffOpMove → M Row Item State (Unit {0})
  take_out [] = done tt
  take_out (op ∷ moved) = do
    row ← take_row op.from row_to_move_missing
    push_moving row
    take_out moved

  -- `usize_max` bounds the new length.
  pub make_room : ℕ → ℕ → M Row Item State (Unit {0})
  make_room usize_max n w = elim (checked_add usize_max (length w.rows) n) [
    | none ↦ stop (invariant index_overflows) w
    | some _ ↦ (ok tt, record w { rows = pad w.rows n })
  ]

  -- The rows whose place on the page is right; `i` counts the moves.
  pub place_still : ℕ → ℕ → List DiffOpMove → M Row Item State (Unit {0})
  place_still new_len i [] = done tt
  place_still new_len i (op ∷ moved) =
      let rest = place_still new_len (suc i) moved in
      let place = (do
        free_place new_len op.to
        row ← take_moving i
        call_set_index ops row op.to
        put_row op.to row
        rest) in
      if op.move_in_dom then rest else place

  -- Before the next row in place after `index`.
  pub call_mount_at : Row → ℕ → M Row Item State Row
  call_mount_at row index w = call_mount ops row (first_some (drop (suc index) w.rows)) w

  -- The rows that move on the page.
  pub place_moved : ℕ → ℕ → List DiffOpMove → M Row Item State (Unit {0})
  place_moved new_len i [] = done tt
  place_moved new_len i (op ∷ moved) =
      let rest = place_moved new_len (suc i) moved in
      let place = (do
        free_place new_len op.to
        row ← take_moving i
        row' ← call_mount_at row op.to
        call_set_index ops row' op.to
        put_row op.to row'
        rest) in
      if op.move_in_dom then place else rest

  pub mount_added : Row → DiffOpAdd → M Row Item State Row
  mount_added row add = elim add.mode [
    | normal ↦ call_mount_at row add.at
    | append ↦ call_mount ops row none
  ]

  pub add_rows : ℕ → List DiffOpAdd → M Row Item State (Unit {0})
  add_rows new_len [] = done tt
  add_rows new_len (add ∷ added) = do
    free_place new_len add.at
    item ← take_item add.at
    row ← call_build ops add.at item
    row' ← mount_added row add
    put_row add.at row'
    add_rows new_len added

  pub check_rows : Diff → ℕ → M Row Item State (Unit {0})
  check_rows plan new_len w = (check_new_rows plan w.rows w.items new_len, w)

  pub truncate_rows : ℕ → M Row Item State (Unit {0})
  truncate_rows new_len w = (ok tt, record w { rows = take new_len w.rows })

  -- Whether the kept and the added rows are as many as the new list's.
  pub accounts_for : ℕ → Diff → ℕ → ℕ → Bool
  accounts_for usize_max plan rows_len new_len =
      let kept = if plan.clear then some 0 else checked_sub rows_len (length plan.removed) in
      elim kept [
        | none ↦ false
        | some k ↦ elim (checked_add usize_max k (length plan.added)) [
          | none ↦ false
          | some n ↦ n == new_len
        ]
      ]

  -- `apply_plan` past the clearing of the rows.
  pub apply_changes : ℕ → Diff → ℕ → M Row Item State (Unit {0})
  apply_changes usize_max plan new_len = do
    remove_rows plan.removed
    take_out plan.moved
    make_room usize_max (length plan.added)
    place_still new_len 0 plan.moved
    place_moved new_len 0 plan.moved
    check_rows plan new_len
    add_rows new_len plan.added
    truncate_rows new_len

  pub apply_plan : ℕ → Diff → M Row Item State (Unit {0})
  apply_plan usize_max plan w =
      let new_len = length w.items in
      let changes = apply_changes usize_max plan new_len in
      let cleared = clear_rows >> (if length plan.added == 0 then done tt else changes) in
      if not (accounts_for usize_max plan (length w.rows) new_len)
      then stop (invariant unaccounted) w
      else if plan.clear
      then cleared w
      else changes w

  -- On an error the rows taken out are unmounted.
  pub apply : ℕ → Diff → M Row Item State (Unit {0})
  apply usize_max plan w =
      let (result, w') = apply_plan usize_max plan (record w { moving = [] }) in
      elim result [
        | ok _ ↦ (ok tt, w')
        | err e ↦ (err e, record w' { moving = []; state = unmount_all w'.moving w'.state })
      ]
