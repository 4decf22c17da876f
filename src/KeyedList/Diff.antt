-- ===== src/KeyedList/Diff.antt =====
-- The plan of an update: `diff`.
pub mod Total
pub mod Moves
pub mod Planned
pub mod Tests
use halyard.Prelude.{
  ℕ, zero, suc, Bool, true, false, not, ◌&&◌, Option, none, some, List, [], ◌∷◌, ◌++◌, ltb, ◌==◌,
  if◌then◌else◌, length, get_elem?, min, max, Result, ok, err, ◌>>=◌,
}
use halyard.Prelude.Words.{checked_add, saturating_add}
use halyard.KeyedList.{KeySets, ListError, invariant, index_overflows, past_the_end}

pub record DiffOpMove : Type 0 where
  pub from : ℕ
  pub to : ℕ
  pub move_in_dom : Bool

pub data DiffOpAddMode : Type 0 where
  normal append : DiffOpAddMode

pub record DiffOpAdd : Type 0 where
  pub at : ℕ
  pub mode : DiffOpAddMode

pub record Diff : Type 0 where
  pub removed : List ℕ
  pub moved : List DiffOpMove
  pub added : List DiffOpAdd
  pub clear : Bool

-- The variables of the first loop of `diff`.
pub record Scan : Type 0 where
  pub removed : List ℕ
  pub moved : List DiffOpMove
  pub added : List DiffOpAdd
  pub stays_before : List ℕ
  pub stays : ℕ

-- `(0..n).map(…)`, from `at` on.
pub append_from : ℕ → ℕ → List DiffOpAdd
append_from at zero = []
append_from at (suc n) = record { at = at; mode = append } ∷ append_from (suc at) n

-- The number of rows that stay, before index `low + 1` and before index `high`.
pub passes_a_row_that_stays : List ℕ → ℕ → ℕ → ℕ → Result ListError Bool
passes_a_row_that_stays stays_before usize_max from to =
    let low = min from to in
    let high = max from to in
    elim (checked_add usize_max low 1) [
      | none ↦ err (invariant past_the_end)
      | some next ↦ elim (get_elem? stays_before next) [
        | none ↦ err (invariant past_the_end)
        | some after_low ↦ elim (get_elem? stays_before high) [
          | none ↦ err (invariant past_the_end)
          | some before_high ↦ ok (ltb after_low before_high)
        ]
      ]
    ]

-- Whether `b` is `some` of one more than `a`.
abbrev pub is_next : ℕ → ℕ → ℕ → Bool
is_next usize_max a b = elim (checked_add usize_max a 1) [ none ↦ false | some n ↦ n == b ]

abbrev pub is_adjacent : ℕ → Option DiffOpMove → DiffOpMove → Bool
is_adjacent usize_max none op = false
is_adjacent usize_max (some run) op =
    is_next usize_max run.from op.from && is_next usize_max run.to op.to

abbrev pub moves_of : Option DiffOpMove → Bool
moves_of none = false
moves_of (some run) = run.move_in_dom

-- Whether the move `op` is made on the page, after the move `previous`.
pub settle : ℕ → List ℕ → Option DiffOpMove → DiffOpMove → Result ListError Bool
settle usize_max stays_before previous op =
    if is_adjacent usize_max previous op
    then ok (moves_of previous)
    else if op.move_in_dom
    then ok true
    else passes_a_row_that_stays stays_before usize_max op.from op.to

-- The second loop of `diff`.
pub settle_all :
    ℕ → List ℕ → Option DiffOpMove → List DiffOpMove → Result ListError (List DiffOpMove)
settle_all usize_max stays_before previous [] = ok []
settle_all usize_max stays_before previous (op ∷ ops) = do
  move_in_dom ← settle usize_max stays_before previous op
  let op' = record op { move_in_dom = move_in_dom }
  rest ← settle_all usize_max stays_before (some op') ops
  ok (op' ∷ rest)

module _ (sets : KeySets) (usize_max : ℕ) where
  open sets use {Key, key_eq, KeySet, len, get_index, get_index_of, contains}

  -- `from_key == to_key`.
  abbrev pub same_key : Option Key → Option Key → Bool
  same_key none none = true
  same_key (some a) (some b) = key_eq a b
  same_key _ _ = false

  abbrev pub new_index_of : KeySet → Option Key → Option ℕ
  new_index_of to none = none
  new_index_of to (some key) = get_index_of to key

  -- `from_key.is_some() && new_index.is_none()`
  abbrev pub is_removed : Option Key → Option ℕ → Bool
  is_removed (some _) none = true
  is_removed _ _ = false

  abbrev pub is_added : KeySet → Option Key → Bool
  is_added from none = false
  is_added from (some key) = not (contains from key)

  -- A row that is kept at another index.
  pub record_move : ℕ → Option ℕ → Scan → Result ListError Scan
  record_move index none s = ok s
  record_move index (some to_index) s = elim (checked_add usize_max index (length s.added)) [
    | none ↦ err (invariant index_overflows)
    | some shifted ↦ elim (checked_add usize_max to_index (length s.removed)) [
      | none ↦ err (invariant index_overflows)
      | some target ↦
          let op : DiffOpMove = record {
            from = index;
            to = to_index;
            move_in_dom = not (shifted == target);
          } in
          ok (record s { moved = s.moved ++ op ∷ [] })
    ]
  ]

  -- The body of the first loop of `diff`, where the keys at `index` differ.
  pub scan_changed : KeySet → KeySet → ℕ → Scan → Result ListError Scan
  scan_changed from to index s =
      let from_key = get_index from index in
      let to_key = get_index to index in
      let new_index = new_index_of to from_key in
      let removed = if is_removed from_key new_index then s.removed ++ index ∷ [] else s.removed in
      let added =
        if is_added from to_key
        then s.added ++ record { at = index; mode = normal } ∷ []
        else s.added in
      record_move index new_index (record s { removed = removed; added = added })

  pub scan_index : KeySet → KeySet → ℕ → Scan → Result ListError Scan
  scan_index from to index s =
      let pushed = record s { stays_before = s.stays_before ++ s.stays ∷ [] } in
      if same_key (get_index from index) (get_index to index)
      then ok (record pushed { stays = saturating_add usize_max s.stays 1 })
      else scan_changed from to index pushed

  -- The indices from `index` on, `n` of them.
  pub scan : KeySet → KeySet → ℕ → ℕ → Scan → Result ListError Scan
  scan from to zero index s = ok s
  scan from to (suc n) index s = scan_index from to index s >>= scan from to n (suc index)

  abbrev pub no_diff : Diff
  no_diff = record { removed = []; moved = []; added = []; clear = false }

  abbrev pub start : Scan
  start = record { removed = []; moved = []; added = []; stays_before = []; stays = 0 }

  pub finish : Scan → Result ListError Diff
  finish s = do
    moved ← settle_all usize_max (s.stays_before ++ s.stays ∷ []) none s.moved
    ok (record { removed = s.removed; moved = moved; added = s.added; clear = false })

  pub diff : KeySet → KeySet → Result ListError Diff
  diff from to =
      if len to == 0
      then ok (record no_diff { clear = not (len from == 0) })
      else if len from == 0
      then ok (record no_diff { added = append_from 0 (len to) })
      else (scan from to (max (len from) (len to)) 0 start >>= finish)
