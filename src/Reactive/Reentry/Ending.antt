-- ===== src/Reactive/Reentry/Ending.antt =====
-- How an access ends: what becomes of the deferred writes and of the writer turn.
use halyard.Prelude.{
  ℕ, ◌≡◌, ◌⊎◌, inl, inr, refl, ap, Bool, true, false, Bool-cases, Option, none, some, List, ◌∷◌,
  ◌++◌, ltb, length,
}
use halyard.Reactive.Reentry.{
  Kind, Writes, Entry, find, count, exit, Ended, goes_on, flushes, drops, ended,
}
use halyard.Reactive.Reentry.Lookup.{exit-finished}
use halyard.Reactive.Reentry.Tally.{Access, tally}
use halyard.Reactive.Reentry.Alive.{Represents, count_keeps, uncounted, alive}

module _ (writes : Writes) where
  open writes use {Turn, Pending, is_empty}

  -- The end of the last access to a value, by the writes that were deferred and the turn that is held. The writes
  -- are applied with the turn; if there are none, or the thread panics, the turn is released.
  pub data EndsWith (panicking : Bool) : Option Pending → Option Turn → Ended writes → Type 0 where
    nothing_deferred : (turn : Option Turn) → EndsWith panicking none turn (drops turn none)
    none_left :
        (pending : Pending) (turn : Option Turn)
        → is_empty pending ≡ true
        → EndsWith panicking (some pending) turn (drops turn (some pending))
    while_panicking :
        (pending : Pending) (turn : Option Turn)
        → panicking ≡ true
        → EndsWith panicking (some pending) turn (drops turn (some pending))
    applied :
        (pending : Pending) (turn : Option Turn)
        → is_empty pending ≡ false
        → panicking ≡ false
        → EndsWith panicking (some pending) turn (flushes pending turn)

  ended-EndsWith :
      (panicking : Bool) (pending : Option Pending) (turn : Option Turn)
      → EndsWith panicking pending turn (ended writes panicking (some (pending, turn)))
  ended-EndsWith panicking none turn = nothing_deferred turn
  ended-EndsWith panicking (some pending) turn = elim (Bool-cases (is_empty pending)) [
    | inl e ↦ rw e (none_left pending turn e)
    | inr e ↦ elim (Bool-cases panicking) [
      | inl p ↦ rw (e, p) (while_panicking pending turn refl)
      | inr p ↦ rw (e, p) (applied pending turn e refl)
    ]
  ]

  -- When an access ends that the record represents with the others alive, its value stays in use if another of its
  -- accesses is alive. Otherwise the deferred writes are applied, with the writer turn; where there are none, or
  -- the thread panics, the turn is released.
  pub exit-ended :
      (usize_max : ℕ) (panicking : Bool) (id : ℕ) (kind : Kind) (before after : List Access)
      (entries : List (Entry writes))
      → Represents writes (before ++ (id, kind) ∷ after) entries
      → (e : Entry writes) × (find writes id entries ≡ some e)
        × ((ltb 0 (tally id (before ++ after)).depth ≡ true)
              × ((exit writes usize_max panicking id kind (some entries)).0 ≡ goes_on)
            ⊎ (ltb 0 (tally id (before ++ after)).depth ≡ false)
              × EndsWith panicking e.pending e.turn
                  (exit writes usize_max panicking id kind (some entries)).0)
  unfolding exit
  exit-ended usize_max panicking id kind before after entries r =
      let (e, found, was) = alive writes usize_max id kind before after entries r in
      let left =
        uncounted writes usize_max (length (before ++ after)) kind e (tally id (before ++ after))
          was in
      let depth : (count writes usize_max e kind false).depth ≡ (tally id (before ++ after)).depth =
        ap (λ q. q.depth) left in
      let finished = exit-finished writes usize_max id kind entries e found in
      let p : (count writes usize_max e kind false).pending ≡ e.pending =
        (count_keeps writes usize_max e kind).0 in
      let t : (count writes usize_max e kind false).turn ≡ e.turn =
        (count_keeps writes usize_max e kind).1 in
      elim (Bool-cases (ltb 0 (tally id (before ++ after)).depth)) [
        | inl in_use ↦ (e, found, inl (in_use, rw (finished, depth, in_use) refl))
        | inr over ↦ (
          e,
          found,
          inr (over, rw (finished, depth, over, p, t) (ended-EndsWith panicking e.pending e.turn)),
        )
      ]
