-- ===== src/Reactive/Reentry/Lookup.antt =====
-- What a lookup finds after each change of the record.
use halyard.Prelude.{
  ℕ, ◌≡◌, ◌≢◌, inl, inr, refl, sym, ap, ◌∙◌, subst, Bool, true, false, Bool-cases, Option, none,
  some, List, [], ◌∷◌, ◌++◌, ltb, ◌==◌, arith, if◌then◌else◌,
}
use mathlib.Core.Option.{some-injective}
use halyard.Reactive.Reentry.{
  Writes, Entry, new_entry, find, upsert, last, init, swap_remove, Kind, count, exit_entries, read,
  write_lock, snapshot, compute,
}

module _ (writes : Writes) where
  -- No two entries are of one value.
  abbrev pub IsDistinct : List (Entry writes) → Type 0
  IsDistinct [] = Unit
  IsDistinct (e ∷ es) = (find writes e.id es ≡ none) × IsDistinct es

  abbrev pub or_new : ℕ → Option (Entry writes) → Entry writes
  or_new id none = new_entry writes id
  or_new id (some e) = e

  module _ (id : ℕ) (change : Entry writes → Entry writes)
      (keeps : (e : Entry writes) → (change e).id ≡ e.id) where
    pub find-upsert_same :
        (es : List (Entry writes))
        → find writes id (upsert writes id change es)
          ≡ some (change (or_new id (find writes id es)))
    unfolding find upsert
    find-upsert_same [] = ground (arith, keeps (new_entry writes id))
    find-upsert_same (e ∷ es) = elim (Bool-cases (e.id == id)) [
      | inl here ↦
          let there : ((change e).id == id) ≡ true = ground (arith, keeps e) in
          rw (here, there) refl
      | inr other ↦ rw (other, other) (find-upsert_same es)
    ]

    pub find-upsert_other :
        (j : ℕ) (es : List (Entry writes))
        → j ≢ id
        → find writes j (upsert writes id change es) ≡ find writes j es
    unfolding find upsert
    find-upsert_other j [] other =
        let apart : ((change (new_entry writes id)).id == j) ≡ false =
          ground (arith, keeps (new_entry writes id)) in
        rw apart refl
    find-upsert_other j (e ∷ es) other = elim (Bool-cases (e.id == id)) [
      | inl here ↦
          let a : ((change e).id == j) ≡ false = ground (arith, keeps e) in
          let b : (e.id == j) ≡ false = ground arith in rw (here, a, b) refl
      | inr not_here ↦
          rw not_here (ap (λ q. if e.id == j then some e else q) (find-upsert_other j es other))
    ]

    pub upsert-IsDistinct :
        (es : List (Entry writes)) → IsDistinct es → IsDistinct (upsert writes id change es)
    unfolding find upsert
    upsert-IsDistinct [] d = (refl, tt)
    upsert-IsDistinct (e ∷ es) d = elim (Bool-cases (e.id == id)) [
      | inl here ↦ rw (here, keeps e) d
      | inr other ↦
          let apart : e.id ≢ id = ground arith in
          rw other (find-upsert_other e.id es apart ∙ d.0, upsert-IsDistinct es d.1)
    ]

  pub count-id :
      (usize_max : ℕ) (e : Entry writes) (kind : Kind) (up : Bool)
      → (count writes usize_max e kind up).id ≡ e.id
  unfolding count
  count-id usize_max e read up = refl
  count-id usize_max e write_lock up = refl
  count-id usize_max e snapshot up = refl
  count-id usize_max e compute up = refl

  find-concat_last :
      (j : ℕ) (xs : List (Entry writes)) (l : Entry writes)
      → find writes l.id xs ≡ none
      → find writes j (xs ++ l ∷ []) ≡ find writes j (l ∷ xs)
  unfolding find
  find-concat_last j [] l h = refl
  find-concat_last j (x ∷ xs) l h = elim (Bool-cases (x.id == l.id)) [
    | inl same ↦ let lost : some x ≡ none = sym (rw same refl) ∙ h in cc
    | inr apart ↦
        let ih = find-concat_last j xs l (rw apart at h) in
        elim (Bool-cases (x.id == j)) [
          | inl here ↦ let other : (l.id == j) ≡ false = ground arith in rw (here, other) refl
          | inr not_here ↦ rw not_here ih
        ]
  ]

  concat_last-IsDistinct :
      (xs : List (Entry writes)) (l : Entry writes)
      → IsDistinct (xs ++ l ∷ [])
      → IsDistinct (l ∷ xs)
  unfolding find
  concat_last-IsDistinct [] l d = d
  concat_last-IsDistinct (x ∷ xs) l d =
      let (absent, distinct) = concat_last-IsDistinct xs l d.1 in
      let found = sym (find-concat_last x.id xs l absent) ∙ d.0 in
      elim (Bool-cases (l.id == x.id)) [
        | inl same ↦ let lost : some l ≡ none = sym (rw same refl) ∙ found in cc
        | inr apart ↦
            let apart' : (x.id == l.id) ≡ false = ground arith in
            (rw apart' absent, (rw apart at found, distinct))
      ]

  split_last :
      (e : Entry writes) (es : List (Entry writes))
      → (l : Entry writes) × (last writes (e ∷ es) ≡ some l)
        × (e ∷ es ≡ init writes (e ∷ es) ++ l ∷ [])
  split_last e [] = (e, refl, refl)
  split_last e (e' ∷ es) = let (l, at, split) = split_last e' es in (l, at, ap (λ q. e ∷ q) split)

  swap_remove-find :
      (j : ℕ) (es : List (Entry writes))
      → IsDistinct es
      → find writes j (swap_remove writes es) ≡ find writes j es
  swap_remove-find j [] d = refl
  swap_remove-find j (e ∷ es) d =
      let (l, at, split) = split_last e es in
      let d' = concat_last-IsDistinct (init writes (e ∷ es)) l (subst IsDistinct split d) in
      rw (swap_remove, at)
        (sym (find-concat_last j (init writes (e ∷ es)) l d'.0) ∙ ap (find writes j) (sym split))

  swap_remove-IsDistinct :
      (es : List (Entry writes)) → IsDistinct es → IsDistinct (swap_remove writes es)
  swap_remove-IsDistinct [] d = tt
  swap_remove-IsDistinct (e ∷ es) d =
      let (l, at, split) = split_last e es in
      rw (swap_remove, at)
        (concat_last-IsDistinct (init writes (e ∷ es)) l (subst IsDistinct split d))

  -- An entry that still has accesses.
  abbrev pub kept : Entry writes → Option (Entry writes)
  kept e = if ltb 0 e.depth then some e else none

  module _ (usize_max id : ℕ) (kind : Kind) where
    abbrev exited : List (Entry writes) → List (Entry writes)
    exited es = (exit_entries writes usize_max id kind es).0

    exit_here :
        (x : Entry writes) (es : List (Entry writes))
        → (x.id == id) ≡ true
        → exited (x ∷ es) ≡ (
            if ltb 0 (count writes usize_max x kind false).depth
            then count writes usize_max x kind false ∷ es
            else swap_remove writes es)
    unfolding exit_entries
    exit_here x es here = elim (Bool-cases (ltb 0 (count writes usize_max x kind false).depth)) [
      | inl alive ↦ rw (exited, exit_entries, here, alive) refl
      | inr over ↦ rw (exited, exit_entries, here, over) refl
    ]

    exit_there :
        (x : Entry writes) (es : List (Entry writes))
        → (x.id == id) ≡ false
        → exited (x ∷ es) ≡ x ∷ exited es
    unfolding exit_entries
    exit_there x es there = rw (exited, exit_entries, there) refl

    find-exit_here :
        (j : ℕ) (x : Entry writes) (es : List (Entry writes))
        → IsDistinct (x ∷ es)
        → (x.id == id) ≡ true
        → find writes j (exited (x ∷ es))
          ≡ (if j == id then kept (count writes usize_max x kind false) else find writes j (x ∷ es))
    unfolding find
    find-exit_here j x es d here =
        let same = count-id usize_max x kind false in
        elim (Bool-cases (ltb 0 (count writes usize_max x kind false).depth)) [
          | inl alive ↦ elim (Bool-cases (j == id)) [
            | inl at ↦
                let a : ((count writes usize_max x kind false).id == j) ≡ true = ground arith in
                rw (exit_here x es here, alive, at, a) refl
            | inr off ↦
                let a : ((count writes usize_max x kind false).id == j) ≡ false = ground arith in
                let b : (x.id == j) ≡ false = ground arith in
                rw (exit_here x es here, alive, off, a, b) refl
          ]
          | inr over ↦ elim (Bool-cases (j == id)) [
            | inl at ↦
                let x_id : x.id ≡ j = ground arith in
                rw (exit_here x es here, over, at)
                  (swap_remove-find j es d.1 ∙ subst (λ q. find writes q es ≡ none) x_id d.0)
            | inr off ↦
                let b : (x.id == j) ≡ false = ground arith in
                rw (exit_here x es here, over, off, b) (swap_remove-find j es d.1)
          ]
        ]

    pub find-exit :
        (j : ℕ) (es : List (Entry writes)) (e : Entry writes)
        → IsDistinct es
        → find writes id es ≡ some e
        → find writes j (exited es)
          ≡ (if j == id then kept (count writes usize_max e kind false) else find writes j es)
    unfolding find
    find-exit j [] e d h = cc
    find-exit j (x ∷ es) e d h = elim (Bool-cases (x.id == id)) [
      | inl here ↦
          let same : x ≡ e = some-injective x e (rw here at h) in
          subst
            (λ q. find writes j (exited (x ∷ es)) ≡ (
              if j == id
              then kept (count writes usize_max q kind false)
              else find writes j (x ∷ es)))
            same (find-exit_here j x es d here)
      | inr there ↦
          let ih = find-exit j es e d.1 (rw there at h) in
          elim (Bool-cases (x.id == j)) [
            | inl at ↦
                let off : (j == id) ≡ false = ground arith in
                rw (exit_there x es there, off, at) refl
            | inr off ↦ rw (exit_there x es there, off) ih
          ]
    ]

    pub exit-IsDistinct :
        (es : List (Entry writes)) (e : Entry writes)
        → IsDistinct es
        → find writes id es ≡ some e
        → IsDistinct (exited es)
    unfolding find
    exit-IsDistinct [] e d h = cc
    exit-IsDistinct (x ∷ es) e d h = elim (Bool-cases (x.id == id)) [
      | inl here ↦ elim (Bool-cases (ltb 0 (count writes usize_max x kind false).depth)) [
        | inl alive ↦ rw (exit_here x es here, alive, count-id usize_max x kind false) d
        | inr over ↦ rw (exit_here x es here, over) (swap_remove-IsDistinct es d.1)
      ]
      | inr there ↦
          let h' = rw there at h in
          let off : (x.id == id) ≡ false = there in
          let absent = find-exit x.id es e d.1 h' in
          rw (exit_there x es there) ((rw off at absent) ∙ d.0, exit-IsDistinct es e d.1 h')
    ]

    pub exit-finished :
        (es : List (Entry writes)) (e : Entry writes)
        → find writes id es ≡ some e
        → (exit_entries writes usize_max id kind es).1 ≡ (
            if ltb 0 (count writes usize_max e kind false).depth
            then none
            else some (
              (count writes usize_max e kind false).pending,
              (count writes usize_max e kind false).turn,
            ))
    unfolding find exit_entries
    exit-finished [] e h = cc
    exit-finished (x ∷ es) e h = elim (Bool-cases (x.id == id)) [
      | inl here ↦
          let same : x ≡ e = some-injective x e (rw here at h) in
          elim (Bool-cases (ltb 0 (count writes usize_max x kind false).depth)) [
            | inl alive ↦ rw (sym same, here, exit_entries, alive) refl
            | inr over ↦ rw (sym same, here, exit_entries, over) refl
          ]
      | inr there ↦ rw (exit_entries, there) (exit-finished es e (rw there at h))
    ]
