-- ===== src/Reactive/Reentry/Writing/Reachable.antt =====
-- The records that a thread can reach, and what they say of the accesses that are alive.
use halyard.Prelude.{
  ℕ, ◌<◌, ◌≡◌, inl, inr, refl, subst, Bool, true, Bool-cases, Option, none, some, List, [], ◌∷◌,
  ◌++◌, length, if◌then◌else◌,
}
use halyard.Reactive.Reentry.{
  Kind, read, snapshot, Writes, Entry, find, state_of, in_use, count, enter_entries, exit_entries,
}
use halyard.Reactive.Reentry.Lookup.{count-id}
use halyard.Reactive.Reentry.Tally.{Access, tally}
use halyard.Reactive.Reentry.Alive.{Represents, upsert-Represents, exit-Represents}
use halyard.Reactive.Reentry.Writing.Deferred.{
  take_pending-Tracks, take_pending-IsDistinct, put_pending-Tracks, put_pending-IsDistinct,
}
use halyard.Reactive.Reentry.Writing.{
  Appends, Held, Begin, started, begin_write, with_turn, hold, resume_write, resume, take_pending,
  put_pending,
}

module _ (writes : Writes) (usize_max : ℕ) (appends : Appends writes) where
  open writes use {Turn, Pending}

  -- The accesses alive, in any order, and the record, after some calls. An access ends whatever other
  -- accesses are alive.
  pub data Reachable : List Access → List (Entry writes) → Type 0 where
    starts : Reachable [] []
    enters :
        (id : ℕ) (kind : Kind) (accesses : List Access) (entries : List (Entry writes))
        → length accesses < usize_max
        → Reachable accesses entries
        → Reachable ((id, kind) ∷ accesses) (enter_entries writes usize_max id kind entries)
    exits :
        (id : ℕ) (kind : Kind) (before after : List Access) (entries : List (Entry writes))
        → Reachable (before ++ (id, kind) ∷ after) entries
        → Reachable (before ++ after) (exit_entries writes usize_max id kind entries).0
    begins :
        (id : ℕ) (on_copy : Bool) (turn : Option Turn) (held : Held) (accesses : List Access)
        (entries entries' : List (Entry writes))
        → length accesses < usize_max
        → begin_write writes usize_max id on_copy turn (some entries)
          ≡ (started held, some entries')
        → Reachable accesses entries
        → Reachable ((held.id, held.kind) ∷ accesses) entries'
    resumes :
        (id : ℕ) (turn : Turn) (pending : Pending) (accesses : List Access)
        (entries entries' : List (Entry writes))
        → length accesses < usize_max
        → (resume_write writes usize_max appends id turn pending (some entries)).1 ≡ some entries'
        → Reachable accesses entries
        → Reachable ((id, read) ∷ accesses) entries'
    takes :
        (id : ℕ) (accesses : List Access) (entries : List (Entry writes))
        → Reachable accesses entries
        → Reachable accesses (take_pending writes usize_max appends id entries).1
    puts :
        (id : ℕ) (pending : Pending) (accesses : List Access) (entries : List (Entry writes))
        → Reachable accesses entries
        → Reachable accesses (put_pending writes usize_max appends id pending entries).1

  abbrev held_or : Held → Begin → Held
  held_or default (started held) = held
  held_or default _ = default

  abbrev entries_or : Option (List (Entry writes)) → List (Entry writes)
  entries_or none = []
  entries_or (some entries) = entries

  begun-Represents :
      (id : ℕ) (on_copy : Bool) (turn : Option Turn) (held : Held) (accesses : List Access)
      (entries entries' : List (Entry writes))
      → length accesses < usize_max
      → begin_write writes usize_max id on_copy turn (some entries) ≡ (started held, some entries')
      → Represents writes accesses entries
      → Represents writes ((held.id, held.kind) ∷ accesses) entries'
  unfolding begin_write with_turn
  begun-Represents id on_copy none held accesses entries entries' room h r =
      elim (Bool-cases (in_use (state_of writes (find writes id entries)))) [
        | inl busy ↦ let lost = rw busy at h in cc
        | inr free ↦ let lost = rw free at h in cc
      ]
  begun-Represents id on_copy (some turn) held accesses entries entries' room h r =
      elim (Bool-cases (in_use (state_of writes (find writes id entries)))) [
        | inl busy ↦ let lost = rw busy at h in cc
        | inr free ↦
            let kind = if on_copy then snapshot else read in
            subst
              (λ q.
                Represents writes (((held_or held q.0).id, (held_or held q.0).kind) ∷ accesses)
                  (entries_or q.1))
              (rw free at h)
              (upsert-Represents writes usize_max id kind (hold writes usize_max turn kind) accesses
                entries (λ e. count-id writes usize_max e kind true) (λ e. refl) room r)
      ]

  -- However accesses start (each while fewer than `usize::MAX` are alive), end in any order, and
  -- defer or apply writes, the record has one entry for each value in use and none for the others,
  -- and it counts the accesses alive, in all and of each kind.
  pub Reachable-Represents :
      (accesses : List Access) (entries : List (Entry writes))
      → Reachable accesses entries
      → Represents writes accesses entries
  unfolding find resume_write
  Reachable-Represents accesses entries starts = record { distinct = tt; tracks = λ id. refl }
  Reachable-Represents accesses entries (enters id kind before es room r) =
      upsert-Represents writes usize_max id kind (λ e. count writes usize_max e kind true) before es
        (λ e. count-id writes usize_max e kind true) (λ e. refl) room
        (Reachable-Represents before es r)
  Reachable-Represents accesses entries (exits id kind before after es r) =
      exit-Represents writes usize_max id kind before after es
        (Reachable-Represents (before ++ (id, kind) ∷ after) es r)
  Reachable-Represents accesses entries (begins id on_copy turn held before es es' room h r) =
      begun-Represents id on_copy turn held before es es' room h (Reachable-Represents before es r)
  Reachable-Represents accesses entries (resumes id turn pending before es es' room h r) =
      subst (λ q. Represents writes ((id, read) ∷ before) (entries_or q)) h
        (upsert-Represents writes usize_max id read (resume writes usize_max appends turn pending)
          before es (λ e. count-id writes usize_max e read true) (λ e. refl) room
          (Reachable-Represents before es r))
  Reachable-Represents accesses entries (takes id before es r) =
      let ih = Reachable-Represents before es r in
      record {
        distinct = take_pending-IsDistinct writes usize_max appends id es ih.distinct;
        tracks = λ j.
            take_pending-Tracks writes usize_max appends id j es (tally j before) (ih.tracks j);
      }
  Reachable-Represents accesses entries (puts id pending before es r) =
      let ih = Reachable-Represents before es r in
      record {
        distinct = put_pending-IsDistinct writes usize_max appends id pending es ih.distinct;
        tracks = λ j.
            put_pending-Tracks writes usize_max appends id j pending es (tally j before)
              (ih.tracks j);
      }
