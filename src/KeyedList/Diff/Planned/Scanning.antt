-- ===== src/KeyedList/Diff/Planned/Scanning.antt =====
-- The first loop of `diff` lists the keys by what becomes of them.
use halyard.Prelude.{
  ℕ, zero, suc, ◌+◌, ◌≡◌, ◌⊎◌, refl, sym, ap, ◌∙◌, subst, Bool, true, false, not, Bool-cases, inl,
  inr, Option, none, some, Option-cases, List, [], ◌∷◌, ◌++◌, if◌then◌else◌, length, ◌==◌,
  Result-cases, ok, arith,
}
use halyard.Prelude.Words.{checked_add, saturating_add}
use halyard.Prelude.Ranges.{upto}
use halyard.KeyedList.{KeySets, invariant, index_overflows}
use halyard.KeyedList.Diff.{
  DiffOpAdd, normal, DiffOpMove, Scan, same_key, new_index_of, record_move, scan_changed,
  scan_index, scan,
}
use halyard.KeyedList.Diff.Moves.{froms, froms-concat, ats, Moves, Moves-concat}
use halyard.KeyedList.Diff.Planned.{
  ok_unique, ok_err, leaves, arrives, goes, Scanned, same_key-stays,
}

ats-concat :
    (added : List DiffOpAdd) (add : DiffOpAdd) → ats (added ++ add ∷ []) ≡ ats added ++ add.at ∷ []
ats-concat [] add = refl
ats-concat (a ∷ added) add = ap (λ l. a.at ∷ l) (ats-concat added add)

module _ (sets : KeySets) (usize_max : ℕ) where
  open sets use {Key, KeySet, get_index, get_index_of}

  record_move-cases :
      (index : ℕ) (new_index : Option ℕ) (s s' : Scan)
      → record_move sets usize_max index new_index s ≡ ok s'
      → ((new_index ≡ none) × (s ≡ s'))
        ⊎ ((op : DiffOpMove) × (op.from ≡ index)
            × (new_index ≡ some op.to)
            × (record s { moved = s.moved ++ op ∷ [] } ≡ s'))
  unfolding record_move
  record_move-cases index none s s' e = inl (refl, ok_unique refl e)
  record_move-cases index (some j) s s' e =
      elim (Option-cases (checked_add usize_max index (length s.added))) [
        | inl e1 ↦ absurd (ok_err {x = invariant index_overflows} e (rw (e1, record_move) refl))
        | inr (a, e1) ↦ elim (Option-cases (checked_add usize_max j (length s.removed))) [
          | inl e2 ↦
              absurd (ok_err {x = invariant index_overflows} e (rw (e1, e2, record_move) refl))
          | inr (b, e2) ↦
              let op : DiffOpMove = record { from = index; to = j; move_in_dom = not (a == b) } in
              inr (op, refl, refl, ok_unique (rw (e1, e2, record_move) refl) e)
        ]
      ]

  module _ (from to : KeySet) where
    Removed : ℕ → Scan → Scan → Type 0
    Removed n s s' =
        s'.removed ≡ (if leaves sets usize_max from to n then s.removed ++ n ∷ [] else s.removed)

    Arrived : ℕ → Scan → Scan → Type 0
    Arrived n s s' =
        ats s'.added
        ≡ (if arrives sets usize_max from to n then ats s.added ++ n ∷ [] else ats s.added)

    -- The next index of the loop.
    Scanned-stays :
        (n : ℕ) (s s' : Scan)
        → Scanned sets usize_max from to n s
        → Removed n s s'
        → Arrived n s s'
        → goes sets usize_max from to n ≡ none
        → s'.moved ≡ s.moved
        → Scanned sets usize_max from to (suc n) s'
    unfolding Removed Arrived upto
    Scanned-stays n s s' h r a g m = record {
      gone = r ∙ rw h.gone refl;
      come = a ∙ rw h.come refl;
      movers = ap froms m ∙ h.movers ∙ rw g refl;
      moves = subst (Moves (goes sets usize_max from to)) (sym m) h.moves;
    }

    Scanned-moves :
        (n : ℕ) (s s' : Scan) (op : DiffOpMove)
        → Scanned sets usize_max from to n s
        → Removed n s s'
        → Arrived n s s'
        → op.from ≡ n
        → goes sets usize_max from to n ≡ some op.to
        → s'.moved ≡ s.moved ++ op ∷ []
        → Scanned sets usize_max from to (suc n) s'
    unfolding Removed Arrived upto
    Scanned-moves n s s' op h r a at g m = record {
      gone = r ∙ rw h.gone refl;
      come = a ∙ rw h.come refl;
      movers = ap froms m ∙ froms-concat s.moved op ∙ (rw (g, at) (ap (λ l. l ++ n ∷ []) h.movers));
      moves = subst (Moves (goes sets usize_max from to)) (sym m) (
          Moves-concat (goes sets usize_max from to) s.moved op h.moves
            (ap (goes sets usize_max from to) at ∙ g));
    }

    ats-if :
        (b : Bool) (added : List DiffOpAdd) (n : ℕ)
        → ats (if b then added ++ record { at = n; mode = normal } ∷ [] else added)
          ≡ (if b then ats added ++ n ∷ [] else ats added)
    ats-if true added n = ats-concat added (record { at = n; mode = normal })
    ats-if false added n = refl

    -- The variables after the two pushes at the index `n`, where the keys differ.
    abbrev recorded : ℕ → Scan → Scan
    recorded n s = record s {
      removed = if leaves sets usize_max from to n then s.removed ++ n ∷ [] else s.removed;
      added =
          if arrives sets usize_max from to n
          then s.added ++ record { at = n; mode = normal } ∷ []
          else s.added;
      stays_before = s.stays_before ++ s.stays ∷ [];
    }

    scan_changed-Scanned :
        (n : ℕ) (s s' : Scan)
        → same_key sets usize_max (get_index from n) (get_index to n) ≡ false
        → record_move sets usize_max n
            (new_index_of sets usize_max to (get_index from n))
            (recorded n s)
          ≡ ok s'
        → Scanned sets usize_max from to n s
        → Scanned sets usize_max from to (suc n) s'
    unfolding Removed Arrived
    scan_changed-Scanned n s s' differ e h =
        let new_index = new_index_of sets usize_max to (get_index from n) in
        let goes_is : goes sets usize_max from to n ≡ new_index = rw differ refl in
        let come = ats-if (arrives sets usize_max from to n) s.added n in
        elim (record_move-cases n new_index (recorded n s) s' e) [
          | inl (nowhere, done) ↦
              subst (Scanned sets usize_max from to (suc n)) done
                (Scanned-stays n s (recorded n s) h refl come (goes_is ∙ nowhere) refl)
          | inr (op, at, there, done) ↦ subst (Scanned sets usize_max from to (suc n)) done (
              Scanned-moves n s (record (recorded n s) { moved = s.moved ++ op ∷ [] }) op h refl
                come at (goes_is ∙ there) refl)
        ]

    scan_index-Scanned :
        (n : ℕ) (s s' : Scan)
        → scan_index sets usize_max from to n s ≡ ok s'
        → Scanned sets usize_max from to n s
        → Scanned sets usize_max from to (suc n) s'
    unfolding scan_index scan_changed Removed Arrived
    scan_index-Scanned n s s' e h =
        elim (Bool-cases (same_key sets usize_max (get_index from n) (get_index to n))) [
          | inl alike ↦
              let s1 : Scan = record s {
                stays_before = s.stays_before ++ s.stays ∷ [];
                stays = saturating_add usize_max s.stays 1;
              } in
              let done : s1 ≡ s' = ok_unique (rw (alike, scan_index) refl) e in
              let (kept, old) = same_key-stays sets usize_max from to n alike in
              subst (Scanned sets usize_max from to (suc n)) done
                (Scanned-stays n s s1 h (rw kept refl) (rw old refl) (rw alike refl) refl)
          | inr differ ↦ scan_changed-Scanned n s s' differ (rw (differ, scan_index) at e) h
        ]

    pub scan-Scanned :
        (more n : ℕ) (s s' : Scan)
        → scan sets usize_max from to more n s ≡ ok s'
        → Scanned sets usize_max from to n s
        → Scanned sets usize_max from to (more + n) s'
    unfolding scan
    scan-Scanned zero n s s' e h =
        let done : s ≡ s' = ok_unique refl e in
        let end : n ≡ zero + n = omega arith in
        subst (Scanned sets usize_max from to (zero + n)) done
          (subst (λ q. Scanned sets usize_max from to q s) end h)
    scan-Scanned (suc more) n s s' e h =
        elim (Result-cases (scan_index sets usize_max from to n s)) [
          | inr (x, e1) ↦ absurd (ok_err {x = x} e (rw (e1, scan) refl))
          | inl (s1, e1) ↦
              let rest : scan sets usize_max from to more (suc n) s1 ≡ ok s' = rw (e1, scan) at e in
              let ih = scan-Scanned more (suc n) s1 s' rest (scan_index-Scanned n s s1 e1 h) in
              let end : more + suc n ≡ suc more + n = omega arith in
              subst (λ q. Scanned sets usize_max from to q s') end ih
        ]
