-- ===== src/Reactive/Reentry/Tests.antt =====
-- The theorems on a record that a few accesses reach.
use halyard.Prelude.{ℕ, ◌<◌, ◌≡◌, ◌↔◌, ◌⊎◌, refl, true, false, some, List, [], ◌∷◌, ltb, arith}
use halyard.Reactive.Reentry.{
  read, compute, Writes, Entry, enter_entries, exit_entries, find, count, upsert, exit, goes_on,
  held_by_this_thread, computing_here,
}
use halyard.Reactive.Reentry.Tally.{Access, tally}
use halyard.Reactive.Reentry.Alive.{Represents, held_iff}
use halyard.Reactive.Reentry.Ending.{EndsWith, exit-ended}
use halyard.Reactive.Reentry.Writing.{Appends}
use halyard.Reactive.Reentry.Writing.Reachable.{
  Reachable, starts, enters, exits, Reachable-Represents,
}

-- A deferred write is a number.
abbrev numbers : Writes
numbers = record {
  Turn = ℕ;
  Pending = List ℕ;
  Weak = ℕ;
  is_empty = λ pending. elim pending [ [] ↦ true | _ ∷ _ ↦ false ];
}

abbrev in_order : Appends numbers
in_order = record { append = λ pending later. later }

-- Value 1 is read while it is computed, and value 2 is read.
abbrev three : List Access
three = (1, read) ∷ (2, read) ∷ (1, compute) ∷ []

abbrev three_entries : List (Entry numbers)
three_entries =
    enter_entries numbers 9 1 read
      (enter_entries numbers 9 2 read (enter_entries numbers 9 1 compute []))

three_reached : Reachable numbers 9 in_order three three_entries
three_reached =
    enters 1 read ((2, read) ∷ (1, compute) ∷ [])
      (enter_entries numbers 9 2 read (enter_entries numbers 9 1 compute [])) (omega arith)
      (enters 2 read ((1, compute) ∷ []) (enter_entries numbers 9 1 compute []) (omega arith)
        (enters 1 compute [] [] (omega arith) starts))

three_represented : Represents numbers three three_entries
three_represented = Reachable-Represents numbers 9 in_order three three_entries three_reached

Reachable-Represents_example :
    Represents numbers
      ((1, read) ∷ (1, compute) ∷ [])
      (exit_entries numbers 9 2 read three_entries).0
Reachable-Represents_example =
    Reachable-Represents numbers 9 in_order ((1, read) ∷ (1, compute) ∷ [])
      (exit_entries numbers 9 2 read three_entries).0
      (exits 2 read ((1, read) ∷ []) ((1, compute) ∷ []) three_entries three_reached)

held_iff_example :
    ((held_by_this_thread numbers 2 (some three_entries) ≡ true) ↔ (0 < (tally 2 three).depth))
    × ((computing_here numbers 2 (some three_entries) ≡ true) ↔ (0 < (tally 2 three).computing))
held_iff_example = held_iff numbers 9 2 three three_entries three_represented

exit-ended_example :
    (e : Entry numbers) × (find numbers 2 three_entries ≡ some e)
    × ((ltb 0 (tally 2 ((1, read) ∷ (1, compute) ∷ [])).depth ≡ true)
          × ((exit numbers 9 false 2 read (some three_entries)).0 ≡ goes_on)
        ⊎ (ltb 0 (tally 2 ((1, read) ∷ (1, compute) ∷ [])).depth ≡ false)
          × EndsWith numbers false e.pending e.turn
              (exit numbers 9 false 2 read (some three_entries)).0)
exit-ended_example =
    exit-ended numbers 9 false 2 read ((1, read) ∷ []) ((1, compute) ∷ []) three_entries
      three_represented

-- The last entry takes the place of the one that ends.
exit-entries_order :
    (exit_entries numbers 9 1 compute (exit_entries numbers 9 1 read three_entries).0).0
    ≡ enter_entries numbers 9 2 read []
unfolding exit_entries upsert count
exit-entries_order = refl
