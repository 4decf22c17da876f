-- ===== src/KeyedList.antt =====
-- halyard_tachys/src/view/list_diff.rs: the keyed list diff behind `<For>`. This file has what the
-- plan and its execution share: the errors, the key sets and the interface to the rendered list.
pub mod Diff
pub mod Rows
pub mod Work
pub mod Apply
pub mod Reconcile
pub mod Labels
pub mod Pages
mod Tests
use halyard.Prelude.{ℕ, ◌≤◌, ◌<◌, ◌≡◌, ◌↔◌, Bool, true, false, Option, none, some}

pub data Invariant : Type 0 where
  index_overflows past_the_end unaccounted row_to_remove_missing : Invariant
  row_to_move_missing moves_twice new_index_past_end same_index : Invariant
  too_few_places left_past_end free_places_differ new_row_misfits item_missing : Invariant

pub data ListError : Type 0 where
  repeated_keys : ℕ → ℕ → ListError
  invariant : Invariant → ListError

-- What the diff uses of `indexmap::IndexSet`, which lists each key once, in order of insertion, and of
-- the keys' own equality.
pub record KeySets : Type 1 where
  pub Key : Type 0
  pub key_eq : Key → Key → Bool
  pub key_eq_iff : (a b : Key) → (key_eq a b ≡ true) ↔ (a ≡ b)
  pub KeySet : Type 0
  pub len : KeySet → ℕ
  pub get_index : KeySet → ℕ → Option Key
  pub get_index_of : KeySet → Key → Option ℕ
  pub contains : KeySet → Key → Bool
  pub get_index-lt : (s : KeySet) (i : ℕ) → i < len s → (k : Key) × (get_index s i ≡ some k)
  pub get_index-none : (s : KeySet) (i : ℕ) → len s ≤ i → get_index s i ≡ none
  pub get_index_of_iff :
      (s : KeySet) (k : Key) (i : ℕ) → (get_index_of s k ≡ some i) ↔ (get_index s i ≡ some k)
  pub contains_iff : (s : KeySet) (k : Key) → (contains s k ≡ false) ↔ (get_index_of s k ≡ none)

-- The trait `ListOps`: the rendered list, with its state passed on. Mounting and unmounting may change
-- the row.
pub record ListOps : Type 1 where
  pub Item : Type 0
  pub Row : Type 0
  pub State : Type 0
  pub build : ℕ → Item → State → Row × State
  pub unmount : Row → State → Row × State
  pub mount : Row → Option Row → State → Row × State
  pub set_index : Row → ℕ → State → State
