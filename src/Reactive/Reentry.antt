-- ===== src/Reactive/Reentry.antt =====
-- halyard_reactive_graph/src/reentry.rs: the record that a thread keeps of the values it is using. Its
-- `Entry`s are a list; the record cannot be reached (`none`) while the thread shuts down. The writer
-- turn, the deferred writes and the shared read guard are of types of the other modules.
pub mod Lookup
pub mod Tally
pub mod Alive
pub mod Ending
pub mod Writing
mod Tests
use halyard.Prelude.{
  ℕ, zero, suc, ◌-◌, Bool, true, false, not, ◌&&◌, Option, none, some, List, [], ◌∷◌, ltb, ◌==◌,
  if◌then◌else◌, set, get_elem?,
}
use halyard.Prelude.Words.{saturating_add}

pub data Kind : Type 0 where
  read write_lock snapshot compute : Kind

-- What a thread is doing with a value.
pub record State : Type 0 where
  pub depth : ℕ
  pub write_locks : ℕ
  pub snapshots : ℕ
  pub computing : ℕ
  pub has_turn : Bool

abbrev pub in_use : State → Bool
in_use s = ltb 0 s.depth

-- The types and the test that the record uses of the other modules.
pub record Writes : Type 1 where
  pub Turn : Type 0
  pub Pending : Type 0
  pub Weak : Type 0
  pub is_empty : Pending → Bool

module _ (writes : Writes) where
  open writes use {Turn, Pending, Weak, is_empty}

  pub record Entry : Type 0 where
    pub id : ℕ
    pub depth : ℕ
    pub write_locks : ℕ
    pub snapshots : ℕ
    pub computing : ℕ
    pub turn : Option Turn
    pub pending : Option Pending
    pub shared_read : Option Weak

  -- `Entry::new`
  abbrev pub new_entry : ℕ → Entry
  new_entry id = record {
    id = id;
    depth = 0;
    write_locks = 0;
    snapshots = 0;
    computing = 0;
    turn = none;
    pending = none;
    shared_read = none;
  }

  abbrev is_some {ℓ} : {A : Type ℓ} → Option A → Bool
  is_some none = false
  is_some (some _) = true

  pub find : ℕ → List Entry → Option Entry
  find id [] = none
  find id (entry ∷ entries) = if entry.id == id then some entry else find id entries

  -- `State::default()` where there is no entry.
  abbrev pub state_of : Option Entry → State
  state_of none = record {
    depth = 0;
    write_locks = 0;
    snapshots = 0;
    computing = 0;
    has_turn = false;
  }
  state_of (some e) = record {
    depth = e.depth;
    write_locks = e.write_locks;
    snapshots = e.snapshots;
    computing = e.computing;
    has_turn = is_some e.turn;
  }

  abbrev pub state : ℕ → Option (List Entry) → Option State
  state id none = none
  state id (some entries) = some (state_of (find id entries))

  abbrev is_some_and : Option State → (State → Bool) → Bool
  is_some_and none test = false
  is_some_and (some s) test = test s

  pub held_by_this_thread : ℕ → Option (List Entry) → Bool
  held_by_this_thread id accesses = is_some_and (state id accesses) in_use

  pub computing_here : ℕ → Option (List Entry) → Bool
  computing_here id accesses = is_some_and (state id accesses) (λ s. ltb 0 s.computing)

  -- The entry of the value is changed in place, or a new one is pushed.
  pub upsert : ℕ → (Entry → Entry) → List Entry → List Entry
  upsert id change [] = change (new_entry id) ∷ []
  upsert id change (entry ∷ entries) =
      if entry.id == id then change entry ∷ entries else entry ∷ upsert id change entries

  abbrev pub last : List Entry → Option Entry
  last [] = none
  last (e ∷ []) = some e
  last (e ∷ e' ∷ es) = last (e' ∷ es)

  abbrev pub init : List Entry → List Entry
  init [] = []
  init (e ∷ []) = []
  init (e ∷ e' ∷ es) = e ∷ init (e' ∷ es)

  -- `swap_remove` of the first entry.
  abbrev pub swap_remove : List Entry → List Entry
  swap_remove entries = elim (last entries) [ none ↦ [] | some e ↦ e ∷ init entries ]

  -- What happens once the record is released.
  pub data Ended : Type 0 where
    -- Another access is alive, or the record cannot be reached.
    goes_on : Ended
    flushes : Pending → Option Turn → Ended
    drops : Option Turn → Option Pending → Ended

  abbrev pub ended : Bool → Option (Option Pending × Option Turn) → Ended
  ended panicking none = goes_on
  ended panicking (some (none, turn)) = drops turn none
  ended panicking (some (some pending, turn)) =
      if not (is_empty pending) && not panicking
      then flushes pending turn
      else drops turn (some pending)

  module _ (usize_max : ℕ) where
    abbrev pub step : Bool → ℕ → ℕ
    step up n = if up then saturating_add usize_max n 1 else n - 1

    pub count : Entry → Kind → Bool → Entry
    count e read up = record e { depth = step up e.depth }
    count e write_lock up = record e {
      depth = step up e.depth;
      write_locks = step up e.write_locks;
    }
    count e snapshot up = record e { depth = step up e.depth; snapshots = step up e.snapshots }
    count e compute up = record e { depth = step up e.depth; computing = step up e.computing }

    abbrev pub enter_entries : ℕ → Kind → List Entry → List Entry
    enter_entries id kind = upsert id (λ entry. count entry kind true)

    -- Whether the access was recorded, and the record.
    pub enter : ℕ → Kind → Option (List Entry) → Bool × Option (List Entry)
    enter id kind none = (false, none)
    enter id kind (some entries) = (true, some (enter_entries id kind entries))

    -- The writes and the turn of an entry that ends are taken out.
    pub exit_entries : ℕ → Kind → List Entry → List Entry × Option (Option Pending × Option Turn)
    exit_entries id kind [] = ([], none)
    exit_entries id kind (entry ∷ entries) =
        let counted = count entry kind false in
        let (rest, finished) = exit_entries id kind entries in
        if entry.id == id
        then (if ltb 0 counted.depth
            then (counted ∷ entries, none)
            else (swap_remove entries, some (counted.pending, counted.turn)))
        else (entry ∷ rest, finished)

    pub exit : Bool → ℕ → Kind → Option (List Entry) → Ended × Option (List Entry)
    exit panicking id kind none = (goes_on, none)
    exit panicking id kind (some entries) =
        let (rest, finished) = exit_entries id kind entries in (ended panicking finished, some rest)
