-- ===== src/KeyedList/Work.antt =====
-- The steps that `apply_plan` is made of. A step returns its result and the state that it leaves, which
-- an error keeps.
pub mod Shown
pub mod OnPage
use halyard.Prelude.{ℕ, Option, none, some, List, [], ◌∷◌, ◌++◌, leb, if◌then◌else◌, set, ok}
use halyard.Prelude.Actions.{Action, done, stop}
use halyard.KeyedList.{
  ListOps, ListError, Invariant, invariant, moves_twice, new_index_past_end, same_index,
  item_missing,
}
use halyard.KeyedList.Rows.{item_at, is_free}

-- `rows`, `items`, the rows taken out to be moved, and the state behind `ops`.
pub record Work (Row Item State : Type 0) : Type 0 where
  pub rows : List (Option Row)
  pub items : List (Option Item)
  pub moving : List (Option Row)
  pub state : State

abbrev pub M : Type 0 → Type 0 → Type 0 → Type 0 → Type 0
M Row Item State A = Action ListError (Work Row Item State) A

-- `rows.get_mut(at).and_then(Option::take)`
pub take_row : {Row Item State : Type 0} → ℕ → Invariant → M Row Item State Row
take_row at i w = elim (item_at w.rows at) [
  | none ↦ stop (invariant i) w
  | some row ↦ (ok row, record w { rows = set w.rows at none })
]

pub take_moving : {Row Item State : Type 0} → ℕ → M Row Item State Row
take_moving i w = elim (item_at w.moving i) [
  | none ↦ stop (invariant moves_twice) w
  | some row ↦ (ok row, record w { moving = set w.moving i none })
]

pub take_item : {Row Item State : Type 0} → ℕ → M Row Item State Item
take_item at w = elim (item_at w.items at) [
  | none ↦ stop (invariant item_missing) w
  | some item ↦ (ok item, record w { items = set w.items at none })
]

pub free_place : {Row Item State : Type 0} → ℕ → ℕ → M Row Item State (Unit {0})
free_place new_len index w =
    if leb new_len index
    then stop (invariant new_index_past_end) w
    else if is_free w.rows index
    then done tt w
    else stop (invariant same_index) w

pub put_row : {Row Item State : Type 0} → ℕ → Row → M Row Item State (Unit {0})
put_row at row w = (ok tt, record w { rows = set w.rows at (some row) })

pub push_moving : {Row Item State : Type 0} → Row → M Row Item State (Unit {0})
push_moving row w = (ok tt, record w { moving = w.moving ++ some row ∷ [] })

module _ (ops : ListOps) where
  open ops use {Item, Row, State, build, unmount, mount, set_index}

  -- The calls of the rendered list's methods.
  pub call_unmount : Row → M Row Item State Row
  call_unmount row w = let (row', s) = unmount row w.state in (ok row', record w { state = s })

  pub call_mount : Row → Option Row → M Row Item State Row
  call_mount row before w =
      let (row', s) = mount row before w.state in (ok row', record w { state = s })

  pub call_set_index : Row → ℕ → M Row Item State (Unit {0})
  call_set_index row index w = (ok tt, record w { state = set_index row index w.state })

  pub call_build : ℕ → Item → M Row Item State Row
  call_build index item w =
      let (row, s) = build index item w.state in (ok row, record w { state = s })
