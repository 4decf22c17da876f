-- ===== src/Reactive/Reentry/Writing.antt =====
-- halyard_reactive_graph/src/reentry.rs: beginning a write, and the writes deferred while the value is in
-- use. Taking a turn waits for other threads; what it gives is a parameter of the call.
-- `take_pending` and `put_pending` are for a record that can be reached.
pub mod Deferred
pub mod Reachable
use halyard.Prelude.{
  ℕ, Bool, true, false, ◌&&◌, Option, none, some, List, [], ◌∷◌, ltb, ◌==◌, if◌then◌else◌,
}
use halyard.Reactive.Reentry.{
  Kind, read, snapshot, Writes, Entry, State, in_use, state, count, upsert,
}

-- `Pending::append`
pub record Appends (writes : Writes) : Type 0 where
  pub append : writes.Pending → writes.Pending → writes.Pending

-- The access that a write holds while it lives.
pub record Held : Type 0 where
  pub id : ℕ
  pub kind : Kind

pub data Begin : Type 0 where
  started : Held → Begin
  in_use_here unavailable : Begin

module _ (writes : Writes) (usize_max : ℕ) where
  open writes use {Turn, Pending}

  abbrev pub Accesses : Type 0
  Accesses = Option (List (Entry writes))

  abbrev hold : Turn → Kind → Entry writes → Entry writes
  hold turn kind entry = record (count writes usize_max entry kind true) { turn = some turn }

  -- The turn was taken, or it is busy.
  pub with_turn : ℕ → Bool → Option Turn → Accesses → Begin × Accesses
  with_turn id on_copy none accesses = (unavailable, accesses)
  with_turn id on_copy (some turn) none = (unavailable, none)
  with_turn id on_copy (some turn) (some entries) =
      let kind = if on_copy then snapshot else read in
      (started (record { id = id; kind = kind }), some (upsert writes id (hold turn kind) entries))

  pub begin_write : ℕ → Bool → Option Turn → Accesses → Begin × Accesses
  begin_write id on_copy turn accesses = elim (state writes id accesses) [
    | none ↦ (unavailable, accesses)
    | some s ↦ if in_use s then (in_use_here, accesses) else with_turn id on_copy turn accesses
  ]

  module _ (appends : Appends writes) where
    open appends use {append}

    -- `pending`, and the writes deferred since.
    abbrev pub ahead_of : Pending → Option Pending → Pending
    ahead_of pending none = pending
    ahead_of pending (some later) = append pending later

    abbrev or_turn : Option Turn → Turn → Turn
    or_turn none turn = turn
    or_turn (some turn) _ = turn

    abbrev resume : Turn → Pending → Entry writes → Entry writes
    resume turn pending entry = record (count writes usize_max entry read true) {
      turn = some (or_turn entry.turn turn);
      pending = some (ahead_of pending entry.pending);
    }

    pub resume_write : ℕ → Turn → Pending → Accesses → Option Held × Accesses
    resume_write id turn pending none = (none, none)
    resume_write id turn pending (some entries) = (
      some (record { id = id; kind = read }),
      some (upsert writes id (resume turn pending) entries),
    )

    pub take_pending : ℕ → List (Entry writes) → Option Pending × List (Entry writes)
    take_pending id [] = (none, [])
    take_pending id (entry ∷ entries) =
        let (later, rest) = take_pending id entries in
        if entry.id == id
        then (entry.pending, record entry { pending = none } ∷ entries)
        else (later, entry ∷ rest)

    -- The writes are given back where nothing would apply them.
    pub put_pending : ℕ → Pending → List (Entry writes) → Option Pending × List (Entry writes)
    put_pending id pending [] = (some pending, [])
    put_pending id pending (entry ∷ entries) =
        let (back, rest) = put_pending id pending entries in
        if entry.id == id && ltb 0 entry.depth
        then (none, record entry { pending = some (ahead_of pending entry.pending) } ∷ entries)
        else (back, entry ∷ rest)
