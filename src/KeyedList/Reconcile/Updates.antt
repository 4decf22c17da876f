-- ===== src/KeyedList/Reconcile/Updates.antt =====
-- An update of a list whose keys are distinct: `apply` of the plan of `diff`, and `reconcile`.
use halyard.Prelude.{
  ℕ, zero, suc, ◌+◌, ◌≤◌, ◌<◌, ◌≡◌, refl, sym, ap, ◌∙◌, subst, true, false, not, ◌||◌, Bool-cases,
  inl, inr, Option, none, some, List, [], ◌∷◌, ◌==◌, length, Result, ok, err, arith,
}
use halyard.KeyedList.{KeySets, ListOps, ListError}
use halyard.KeyedList.Diff.{Diff, diff}
use halyard.KeyedList.Diff.Total.{diff-ok}
use halyard.KeyedList.Diff.Planned.Plans.{diff-IsPlanned, diff-clears}
use halyard.KeyedList.Diff.Planned.{arrives}
use halyard.KeyedList.Labels.{Labels}
use halyard.KeyedList.Rows.{item_at}
use halyard.KeyedList.Work.Shown.{shown, Rendering}
use halyard.KeyedList.Apply.{accounts_for, apply}
use halyard.KeyedList.Apply.Carried.{apply-Suits}
use halyard.KeyedList.Apply.OnPage.Plan.{ShowsRows, apply-ShowsRows}
use halyard.KeyedList.Pages.{Pages}
use halyard.KeyedList.Apply.Cleared.{accounts_for-clear, apply-clears}
use halyard.KeyedList.Reconcile.{
  Reports, Rendered, apply_or_rebuild, report_invariant, rebuild_from_scratch, reconcile,
}
use halyard.KeyedList.Reconcile.Shows.{AllThere, wanted, planned-Suits, planned_counts}

item_at-past : {A : Type 0} (xs : List (Option A)) (i : ℕ) → length xs ≤ i → item_at xs i ≡ none
item_at-past [] i h = refl
item_at-past (x ∷ xs) zero h = absurd (omega arith)
item_at-past (x ∷ xs) (suc i) h = item_at-past xs i (omega arith)

module _ (ops : ListOps) (ls : Labels ops) (sets : KeySets) (usize_max : ℕ)
    (from to : sets.KeySet) where
  open ops use {Item, Row, State}
  open ls use {Label, made}
  open sets use {KeySet, len}

  -- The rows show what the new list is to show.
  abbrev pub Updates : List (Option Row) → List (Option Item) → List (Option Row) → Type 0
  Updates rows items rows' =
      (length rows' ≡ length items)
      × ((j : ℕ)
          → j < length items
          → shown ops ls (item_at rows' j)
            ≡ wanted ops ls sets usize_max from to (λ i. shown ops ls (item_at rows i))
                (item_at items) j)

  module _ (rows : List (Option Row)) (items : List (Option Item)) (moving : List (Option Row))
      (s : State) (old_len : length rows ≡ len from) (new_len : length items ≡ len to)
      (all_rows : AllThere rows) (all_items : AllThere items)
      (room_old : len from + len from ≤ usize_max) (room_new : len to + len to ≤ usize_max) where
    abbrev before : Rendering ops ls
    before = record { rows = rows; items = items; moving = moving; state = s }

    old_labels : ℕ → Option Label
    old_labels i = shown ops ls (item_at rows i)

    apply-planned :
        (plan : Diff)
        → diff sets usize_max from to ≡ ok plan
        → (len to ≡ 0 → len from ≡ 0)
        → (w' : Rendering ops ls) × (apply ops usize_max plan before ≡ (ok tt, w'))
          × Updates rows items w'.rows
    unfolding old_labels
    apply-planned plan e h =
        let planned = diff-IsPlanned sets usize_max from to plan e h in
        let there : (i : ℕ) → i < len from → (l : Label) × (old_labels i ≡ some l) = λ i lt.
          let (row, at) = all_rows i (omega arith) in (ls.label row, ap (shown ops ls) at) in
        let past : (i : ℕ) → len from ≤ i → old_labels i ≡ none =
          λ i beyond. ap (shown ops ls) (item_at-past rows i (omega arith)) in
        let supplied : (j : ℕ) → j < len to → (item : Item) × (item_at items j ≡ some item) =
          λ j lt. all_items j (omega arith) in
        let suits =
          planned-Suits ops ls sets usize_max from to plan planned old_labels (item_at items) there
            past supplied in
        let (le, sum, few) =
          planned_counts ops ls sets usize_max from to plan planned old_labels (item_at items) there
            past supplied in
        let accounts =
          accounts_for-clear ops usize_max plan (len from) (len to) planned.stays le sum
            (omega arith) in
        let accounts' =
          subst (λ q. accounts_for ops usize_max plan q (len to) ≡ true) (sym old_len) accounts in
        let (w', done, long, shows) =
          apply-Suits ops ls plan (len to) old_labels
            (wanted ops ls sets usize_max from to old_labels (item_at items)) (item_at items)
            (arrives sets usize_max from to) suits usize_max before (λ i. refl) (λ i. refl) new_len
            accounts' planned.stays (omega arith) (omega arith) in
        (w', done, (long ∙ sym new_len, λ j lt. shows j (omega arith)))

    -- The plan of `diff` is carried out without an error, and the vector of rows then holds those of the new list: in
    -- order, the row that each key had, or the row built for a key that is new.
    pub apply-diff :
        (plan : Diff)
        → diff sets usize_max from to ≡ ok plan
        → (w' : Rendering ops ls) × (apply ops usize_max plan before ≡ (ok tt, w'))
          × Updates rows items w'.rows
    apply-diff plan e = elim (Bool-cases (len to == 0)) [
      | inr some_to ↦ apply-planned plan e (λ empty. absurd (ground arith))
      | inl no_to ↦ elim (Bool-cases (len from == 0)) [
        | inl no_from ↦ apply-planned plan e (λ empty. ground arith)
        | inr some_from ↦
            let no_items : length items ≡ 0 = ground arith in
            let is_cleared = diff-clears sets usize_max from to plan e (ground arith) some_from in
            let (w', done, none_left) = apply-clears ops usize_max before no_items in
            (
              w',
              subst (λ q. apply ops usize_max q before ≡ (ok tt, w')) is_cleared done,
              (ap length none_left ∙ sym no_items, λ j lt. absurd (omega arith)),
            )
      ]
    ]

  module _ (rows : List (Option Row)) (items : List (Option Item)) (s : State)
      (reports : Reports) where
    apply_or_rebuild-ok :
        (plan : Diff) (w' : Rendering ops ls)
        → apply ops usize_max plan (record { rows = rows; items = items; moving = []; state = s })
          ≡ (ok tt, w')
        → apply_or_rebuild ops usize_max plan rows items s reports
          ≡ record { rows = w'.rows; state = w'.state; reports = reports }
    unfolding apply_or_rebuild
    apply_or_rebuild-ok plan w' e = ap rendered e
      where
        rendered : Result ListError (Unit {0}) × Rendering ops ls → Rendered ops
        rendered (result, w) = elim result [
          | ok _ ↦ record { rows = w.rows; state = w.state; reports = reports }
          | err x ↦
              let (rows', s') = rebuild_from_scratch ops w.rows w.items w.state in
              record { rows = rows'; state = s'; reports = report_invariant x reports }
        ]

    -- An update of a list, with a row for each old key and an item for each new key, logs no error and is not rendered
    -- from scratch. Its vector of rows then holds, in order, the row that each key had, or the row built for a key
    -- that is new. If the page showed exactly the old rows, it then shows exactly these, each once; in which order they
    -- stand on the page is not stated.
    pub reconcile-Updates :
        (pages : Pages ops)
        → length rows ≡ len from
        → length items ≡ len to
        → AllThere rows
        → AllThere items
        → len from + len from ≤ usize_max
        → len to + len to ≤ usize_max
        → ShowsRows ops pages rows s
        → Updates rows items (reconcile ops sets usize_max from to rows items s reports).rows
          × ((reconcile ops sets usize_max from to rows items s reports).reports ≡ reports)
          × ShowsRows ops pages
              (reconcile ops sets usize_max from to rows items s reports).rows
              (reconcile ops sets usize_max from to rows items s reports).state
    unfolding reconcile
    reconcile-Updates pages old_len new_len all_rows all_items room_old room_new shows =
        let (plan, e) = diff-ok sets usize_max from to room_old room_new in
        let (w', done, updates) =
          apply-diff rows items [] s old_len new_len all_rows all_items room_old room_new plan e in
        let start : Rendering ops ls = record {
          rows = rows;
          items = items;
          moving = [];
          state = s;
        } in
        let on_page = apply-ShowsRows ops pages usize_max plan start w' shows done in
        let test : (not (length items == len to) || not (length rows == len from)) ≡ false =
          ground arith in
        let final : reconcile ops sets usize_max from to rows items s reports
            ≡ record { rows = w'.rows; state = w'.state; reports = reports } =
          rw (test, e, reconcile) (apply_or_rebuild-ok plan w' done) in
        (
          subst (λ q. Updates rows items q.rows) (sym final) updates,
          ap (λ q. q.reports) final,
          subst (λ q. ShowsRows ops pages q.rows q.state) (sym final) on_page,
        )
