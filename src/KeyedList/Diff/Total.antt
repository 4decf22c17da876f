-- ===== src/KeyedList/Diff/Total.antt =====
-- A plan is made for every pair of key sets.
use halyard.Prelude.{
  ℕ, zero, suc, ◌+◌, ◌≤◌, ◌<◌, ◌≡◌, inl, inr, refl, ap, ◌∙◌, subst, Bool, true, false, not,
  Bool-cases, Option, none, some, List, [], ◌∷◌, ◌++◌, All, length, length-append, get_elem?, min,
  max, Result, ok, ◌==◌, ltb, if◌then◌else◌, arith,
}
use halyard.KeyedList.{KeySets, ListError}
use halyard.Prelude.Words.{saturating_add}
use halyard.KeyedList.Diff.{
  Diff, DiffOpAdd, normal, no_diff, append_from, DiffOpMove, Scan, passes_a_row_that_stays,
  is_adjacent, moves_of, settle, settle_all, same_key, new_index_of, is_removed, is_added,
  record_move, scan_changed, scan_index, scan, start, finish, diff,
}

abbrev Gives : {A : Type 0} → Result ListError A → Type 0
Gives {A} r = (a : A) × (r ≡ ok a)

get_elem?-lt : (xs : List ℕ) (i : ℕ) → i < length xs → (x : ℕ) × (get_elem? xs i ≡ some x)
get_elem?-lt [] i h = absurd (omega arith)
get_elem?-lt (x ∷ xs) zero h = (x, refl)
get_elem?-lt (x ∷ xs) (suc i) h = get_elem?-lt xs i (omega arith)

passes-ok :
    (stays : List ℕ) (usize_max from to len : ℕ)
    → length stays ≡ suc len
    → from < len
    → to < len
    → len ≤ usize_max
    → Gives (passes_a_row_that_stays stays usize_max from to)
unfolding passes_a_row_that_stays
passes-ok stays usize_max from to len l f t room =
    let (x, first) = get_elem?-lt stays (min from to + 1) (omega arith) in
    let (y, second) = get_elem?-lt stays (max from to) (omega arith) in (ltb x y, ground arith)

InBounds : ℕ → DiffOpMove → Type 0
InBounds len op = (op.from < len) × (op.to < len)

settle-ok :
    (stays : List ℕ) (usize_max len : ℕ) (previous : Option DiffOpMove) (op : DiffOpMove)
    → length stays ≡ suc len
    → InBounds len op
    → len ≤ usize_max
    → Gives (settle usize_max stays previous op)
unfolding settle InBounds
settle-ok stays usize_max len previous op l b room =
    let (passes, e) = passes-ok stays usize_max op.from op.to len l b.0 b.1 room in
    elim (Bool-cases (is_adjacent usize_max previous op)) [
      | inl adjacent ↦ (moves_of previous, rw adjacent refl)
      | inr apart ↦ elim (Bool-cases op.move_in_dom) [
        | inl moves ↦ (true, rw (apart, moves) refl)
        | inr still ↦ (passes, rw (apart, still) e)
      ]
    ]

settle_all-ok :
    (stays : List ℕ) (usize_max len : ℕ) (previous : Option DiffOpMove) (ops : List DiffOpMove)
    → length stays ≡ suc len
    → All (InBounds len) ops
    → len ≤ usize_max
    → Gives (settle_all usize_max stays previous ops)
unfolding settle_all
settle_all-ok stays usize_max len previous [] l b room = ([], refl)
settle_all-ok stays usize_max len previous (op ∷ ops) l b room =
    let (moves, e) = settle-ok stays usize_max len previous op l b.0 room in
    let op' : DiffOpMove = record op { move_in_dom = moves } in
    let (rest, e') = settle_all-ok stays usize_max len (some op') ops l b.1 room in
    (op' ∷ rest, rw (e, e') refl)

All-concat :
    (len : ℕ) (ops : List DiffOpMove) (op : DiffOpMove)
    → All (InBounds len) ops
    → InBounds len op
    → All (InBounds len) (ops ++ op ∷ [])
All-concat len [] op h p = (p, tt)
All-concat len (o ∷ ops) op h p = (h.0, All-concat len ops op h.1 p)

-- The variables of the first loop, before index `index`.
record IsScan (len index : ℕ) (s : Scan) : Type 0 where
  removed_le : length s.removed ≤ index
  added_le : length s.added ≤ index
  stays_len : length s.stays_before ≡ index
  moves : All (InBounds len) s.moved

length-concat {ℓ} : {A : Type ℓ} (xs : List A) (x : A) → length (xs ++ x ∷ []) ≡ suc (length xs)
length-concat xs x = length-append xs (x ∷ []) ∙ omega arith

grow-le {ℓ} :
    {A : Type ℓ} (grows : Bool) (xs : List A) (x : A) (n : ℕ)
    → length xs ≤ n
    → length (if grows then xs ++ x ∷ [] else xs) ≤ suc n
grow-le true xs x n h = omega (arith, length-concat xs x)
grow-le false xs x n h = omega arith

module _ (sets : KeySets) (usize_max : ℕ) where
  open sets use {Key, KeySet, len, get_index, get_index_of, get_index-none, get_index_of_iff}

  record_move-ok :
      (len' index : ℕ) (new_index : Option ℕ) (s : Scan)
      → index < len'
      → ((i : ℕ) → new_index ≡ some i → i < len')
      → length s.removed ≤ suc index
      → length s.added ≤ suc index
      → length s.stays_before ≡ suc index
      → All (InBounds len') s.moved
      → len' + len' ≤ usize_max
      → (s' : Scan) × (record_move sets usize_max index new_index s ≡ ok s')
        × IsScan len' (suc index) s'
  unfolding record_move InBounds
  record_move-ok len' index none s here there r a l m room =
      (s, refl, record { removed_le = r; added_le = a; stays_len = l; moves = m })
  record_move-ok len' index (some to) s here there r a l m room =
      let t = there to refl in
      let op : DiffOpMove = record {
        from = index;
        to = to;
        move_in_dom = not (index + length s.added == to + length s.removed);
      } in
      let s' : Scan = record s { moved = s.moved ++ op ∷ [] } in
      (
        s',
        ground arith,
        record {
          removed_le = r;
          added_le = a;
          stays_len = l;
          moves = All-concat len' s.moved op m (here, t);
        },
      )

  new_index_of-lt :
      (to : KeySet) (k : Option Key) (i : ℕ)
      → new_index_of sets usize_max to k ≡ some i
      → i < len to
  new_index_of-lt to none i h = cc
  new_index_of-lt to (some key) i h = elim (Bool-cases (ltb i (len to))) [
    | inl lt ↦ ground arith
    | inr past ↦
        let none_there : get_index to i ≡ none = get_index-none to i (ground arith) in
        let some_there : get_index to i ≡ some key = (get_index_of_iff to key i).0 h in cc
  ]

  scan_index-ok :
      (from to : KeySet) (len' index : ℕ) (s : Scan)
      → index < len'
      → len to ≤ len'
      → len' + len' ≤ usize_max
      → IsScan len' index s
      → (s' : Scan) × (scan_index sets usize_max from to index s ≡ ok s')
        × IsScan len' (suc index) s'
  unfolding scan_index scan_changed
  scan_index-ok from to len' index s here wide room h =
      let (r, a, l) : (length s.removed ≤ index)
          × (length s.added ≤ index)
          × (length s.stays_before ≡ index) =
        (h.removed_le, h.added_le, h.stays_len) in
      let pushed : length (s.stays_before ++ s.stays ∷ []) ≡ suc index =
        length-concat s.stays_before s.stays ∙ ap suc l in
      let from_key = get_index from index in
      let to_key = get_index to index in
      let new_index = new_index_of sets usize_max to from_key in
      let there : (i : ℕ) → new_index ≡ some i → i < len' =
        λ i e. let lt = new_index_of-lt to from_key i e in omega arith in
      let removed =
        if is_removed sets usize_max from_key new_index
        then s.removed ++ index ∷ []
        else s.removed in
      let added : List DiffOpAdd =
        if is_added sets usize_max from to_key
        then s.added ++ record { at = index; mode = normal } ∷ []
        else s.added in
      elim (Bool-cases (same_key sets usize_max from_key to_key)) [
        | inl same ↦ (
          record s {
            stays_before = s.stays_before ++ s.stays ∷ [];
            stays = saturating_add usize_max s.stays 1;
          },
          rw same refl,
          record {
            removed_le = omega arith;
            added_le = omega arith;
            stays_len = pushed;
            moves = h.moves;
          },
        )
        | inr differ ↦
            let (s', e, h') =
              record_move-ok len' index new_index
                (record s {
                  removed = removed;
                  added = added;
                  stays_before = s.stays_before ++ s.stays ∷ [];
                })
                here there
                (grow-le (is_removed sets usize_max from_key new_index) s.removed index index r)
                (grow-le (is_added sets usize_max from to_key) s.added
                  (record { at = index; mode = normal }) index a)
                pushed h.moves room in
            (s', rw differ e, h')
      ]

  scan-ok :
      (from to : KeySet) (len' n index : ℕ) (s : Scan)
      → index + n ≡ len'
      → len to ≤ len'
      → len' + len' ≤ usize_max
      → IsScan len' index s
      → (s' : Scan) × (scan sets usize_max from to n index s ≡ ok s') × IsScan len' len' s'
  unfolding scan
  scan-ok from to len' zero index s at wide room h =
      let end : index ≡ len' = omega arith in (s, refl, subst (λ q. IsScan len' q s) end h)
  scan-ok from to len' (suc n) index s at wide room h =
      let (s1, e1, h1) = scan_index-ok from to len' index s (omega arith) wide room h in
      let (s2, e2, h2) = scan-ok from to len' n (suc index) s1 (omega arith) wide room h1 in
      (s2, rw (e1, e2) refl, h2)

  -- A plan is made for every pair of key sets whose lengths, doubled, fit in a `usize`: none of the errors
  -- of `diff` occurs.
  pub diff-ok :
      (from to : KeySet)
      → len from + len from ≤ usize_max
      → len to + len to ≤ usize_max
      → (plan : Diff) × (diff sets usize_max from to ≡ ok plan)
  unfolding diff finish
  diff-ok from to f t = elim (Bool-cases (len to == 0)) [
    | inl empty ↦ (record (no_diff sets usize_max) { clear = not (len from == 0) }, rw empty refl)
    | inr some_to ↦ elim (Bool-cases (len from == 0)) [
      | inl empty ↦ (
        record (no_diff sets usize_max) { added = append_from 0 (len to) },
        rw (some_to, empty) refl,
      )
      | inr some_from ↦
          let len' = max (len from) (len to) in
          let (s, e, h) =
            scan-ok from to len' len' 0 (start sets usize_max) (omega arith) (omega arith)
              (omega arith)
              (record {
                removed_le = omega arith;
                added_le = omega arith;
                stays_len = refl;
                moves = tt;
              }) in
          let l = h.stays_len in
          let closed : length (s.stays_before ++ s.stays ∷ []) ≡ suc len' =
            length-concat s.stays_before s.stays ∙ ap suc l in
          let (moved, e') =
            settle_all-ok (s.stays_before ++ s.stays ∷ []) usize_max len' none s.moved closed
              h.moves (omega arith) in
          (
            record { removed = s.removed; moved = moved; added = s.added; clear = false },
            rw (some_to, some_from, e, e') refl,
          )
    ]
  ]
