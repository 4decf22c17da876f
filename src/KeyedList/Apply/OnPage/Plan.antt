-- ===== src/KeyedList/Apply/OnPage/Plan.antt =====
-- A plan that is carried out without an error leaves exactly its rows on the page.
use halyard.Prelude.{
  ℕ, ◌+◌, ◌≤◌, ◌≡◌, refl, sym, ap, ◌∙◌, subst, true, false, Bool-cases, inl, inr, Option, none,
  some, Option-cases, List, [], ◌∷◌, ◌==◌, ltb, length, drop, take, Result, ok, err, arith,
}
use halyard.Prelude.Words.{checked_add}
use halyard.Prelude.Ranges.{memb}
use halyard.KeyedList.{ListOps, ListError}
use halyard.KeyedList.Diff.{Diff, DiffOpMove}
use halyard.KeyedList.Diff.Moves.{tos}
use halyard.KeyedList.Rows.{has_some, check_new_rows, new_rows_fit, count_none}
use halyard.KeyedList.Work.OnPage.{After, After-then, Rendering, OnPage, on}
use halyard.KeyedList.Pages.{Pages, ids}
use halyard.KeyedList.Pages.Lists.{
  without_all, without_all_none, without_all-without, memb-without_all,
}
use halyard.KeyedList.Pages.Counts.{bit, occurrences, total, each_once, total-pad, total-truncate}
use halyard.KeyedList.Apply.{
  unmount_all, clear_rows, remove_rows, take_out, make_room, place_still, place_moved, check_rows,
  add_rows, truncate_rows, accounts_for, apply_changes, apply_plan, apply,
}
use halyard.KeyedList.Apply.OnPage.{
  remove_rows-OnPage, take_out-OnPage, Fewer, place_still-OnPage, place_moved-OnPage, Within,
  add_rows-OnPage,
}

tos-length :
    (moved : List DiffOpMove) → length (tos false moved) + length (tos true moved) ≡ length moved
tos-length [] = refl
tos-length (op ∷ moved) =
    let ih = tos-length moved in
    elim (Bool-cases op.move_in_dom) [ inl e ↦ rw e (omega arith) | inr e ↦ rw e (omega arith) ]

occurrences-memb : (j : ℕ) (xs : List ℕ) → 1 ≤ occurrences j xs → memb j xs ≡ true
occurrences-memb j [] h = absurd (omega arith)
occurrences-memb j (x ∷ xs) h = elim (Bool-cases (x == j)) [
  | inl e ↦ rw e refl
  | inr e ↦
      let rest : occurrences j (x ∷ xs) ≡ occurrences j xs = rw e (omega arith) in
      rw e (occurrences-memb j xs (omega arith))
]

ids_none : (xs : List ℕ) → total each_once xs ≡ 0 → xs ≡ []
ids_none [] h = refl
ids_none (x ∷ xs) h = absurd (omega arith)

module _ (ops : ListOps) (pages : Pages ops) where
  open ops use {Item, Row, State}
  open pages use {id, page}

  pub unmount_all-page :
      (rows : List (Option Row)) (s : State)
      → page (unmount_all ops rows s) ≡ without_all (ids ops pages rows) (page s)
  unfolding unmount_all
  unmount_all-page [] s = without_all_none (page s)
  unmount_all-page (none ∷ rows) s = unmount_all-page rows s
  unmount_all-page (some row ∷ rows) s =
      unmount_all-page rows (ops.unmount row s).1
      ∙ ap (without_all (ids ops pages rows)) (pages.page-unmount row s)
      ∙ without_all-without (ids ops pages rows) (id row) (page s)

  make_room-OnPage :
      (usize_max n c : ℕ) (w : Rendering ops pages)
      → OnPage ops pages w c
      → After (λ u w'. OnPage ops pages w' c) (make_room ops usize_max n w)
  unfolding make_room
  make_room-OnPage usize_max n c w h =
      elim (Option-cases (checked_add usize_max (length w.rows) n)) [
        | inl e ↦ rw (e, make_room) tt
        | inr (m, e) ↦
            rw (e, make_room)
              (record {
                rows_on = λ j.
                    let same = total-pad ops pages (λ x. bit (x == j)) w.rows n in
                    let at = h.rows_on j in omega arith;
                waiting = h.waiting;
              })
      ]

  check_rows-Within :
      (plan : Diff) (m c : ℕ) (w : Rendering ops pages)
      → OnPage ops pages w c
      → After (λ u w'. Within ops pages m c w') (check_rows ops plan m w)
  unfolding check_rows check_new_rows
  check_rows-Within plan m c w h = elim (Bool-cases (ltb (length w.rows) m)) [
    | inl e ↦ rw (e, check_rows, check_new_rows) tt
    | inr e ↦ elim (Bool-cases (has_some (drop m w.rows))) [
      | inl e' ↦ rw (e, e', check_rows, check_new_rows) tt
      | inr e' ↦ elim (Bool-cases (count_none (take m w.rows) == length plan.added)) [
        | inr e'' ↦ rw (e, e', e'', check_rows, check_new_rows) tt
        | inl e'' ↦ elim (Bool-cases (new_rows_fit (take m w.rows) w.items none plan.added)) [
          | inr e3 ↦ rw (e, e', e'', e3, check_rows, check_new_rows) tt
          | inl e3 ↦ rw (e, e', e'', e3, check_rows, check_new_rows) (e', h)
        ]
      ]
    ]
  ]

  truncate_rows-OnPage :
      (m c : ℕ) (w : Rendering ops pages)
      → Within ops pages m c w
      → After (λ u w'. OnPage ops pages w' c) (truncate_rows ops m w)
  unfolding truncate_rows
  truncate_rows-OnPage m c w (past, h) = record {
    rows_on = λ j.
        let same = total-truncate ops pages (λ x. bit (x == j)) w.rows m past in
        let at = h.rows_on j in omega arith;
    waiting = h.waiting;
  }

  -- The rows that are to be moved are all placed at the end.
  apply_changes-OnPage :
      (usize_max m : ℕ) (plan : Diff) (w : Rendering ops pages)
      → OnPage ops pages w 0
      → After (λ u w'. OnPage ops pages w' 0) (apply_changes ops usize_max plan m w)
  unfolding apply_changes
  apply_changes-OnPage usize_max m plan w h =
      let stills = length (tos false plan.moved) in
      let moves = length (tos true plan.moved) in
      let all = tos-length plan.moved in
      After-then (λ u w'. OnPage ops pages w' 0) _ (remove_rows ops plan.removed w) _
        (remove_rows-OnPage ops pages plan.removed 0 w h)
        (λ u w1 h1.
          After-then (λ u w'. OnPage ops pages w' (0 + length plan.moved)) _
            (take_out ops plan.moved w1) _ (take_out-OnPage ops pages plan.moved 0 w1 h1)
            (λ u w2 h2.
              After-then (λ u w'. OnPage ops pages w' (0 + length plan.moved)) _
                (make_room ops usize_max (length plan.added) w2) _
                (make_room-OnPage usize_max (length plan.added) (0 + length plan.moved) w2 h2)
                (λ u w3 h3.
                  After-then (λ u w'. Fewer ops pages stills (0 + length plan.moved) w') _
                    (place_still ops m 0 plan.moved w3) _
                    (place_still-OnPage ops pages plan.moved m 0 (0 + length plan.moved) w3 h3)
                    (λ u w4 (c4, e4, h4).
                      After-then (λ u w'. Fewer ops pages moves c4 w') _
                        (place_moved ops m 0 plan.moved w4) _
                        (place_moved-OnPage ops pages plan.moved m 0 c4 w4 h4)
                        (λ u w5 (c5, e5, h5).
                          let none_left : c5 ≡ 0 = omega arith in
                          After-then (λ u w'. Within ops pages m 0 w') _ (check_rows ops plan m w5)
                            _
                            (check_rows-Within plan m 0 w5
                              (subst (OnPage ops pages w5) none_left h5))
                            (λ u w6 h6.
                              After-then (λ u w'. Within ops pages m 0 w') _
                                (add_rows ops m plan.added w6) _
                                (add_rows-OnPage ops pages plan.added m 0 w6 h6)
                                (λ u w7 h7. truncate_rows-OnPage m 0 w7 h7)))))))

  clear_rows-OnPage :
      (w : Rendering ops pages)
      → w.moving ≡ []
      → OnPage ops pages w 0
      → After (λ u w'. OnPage ops pages w' 0) (clear_rows ops w)
  unfolding clear_rows
  clear_rows-OnPage w nothing h = record {
    rows_on = λ j.
        let at = h.rows_on j in
        let none_moving : occurrences j (ids ops pages w.moving) ≡ 0 =
          ap (λ q. occurrences j (ids ops pages q)) nothing in
        let out : memb j (page (unmount_all ops w.rows w.state)) ≡ false =
          ap (memb j) (unmount_all-page w.rows w.state)
          ∙ memb-without_all j (ids ops pages w.rows) (page w.state)
          ∙ (elim (Bool-cases (memb j (page w.state))) [
            | inr e ↦ ground arith
            | inl e ↦
                let one : on ops pages w j ≡ 1 = rw e refl in
                let there = occurrences-memb j (ids ops pages w.rows) (omega arith) in ground arith
          ]) in
        ap (λ q. 0 + q) none_moving ∙ sym (ap bit out);
    waiting = h.waiting;
  }

  apply_plan-OnPage :
      (usize_max : ℕ) (plan : Diff) (w : Rendering ops pages)
      → w.moving ≡ []
      → OnPage ops pages w 0
      → After (λ u w'. OnPage ops pages w' 0) (apply_plan ops usize_max plan w)
  unfolding apply_plan
  apply_plan-OnPage usize_max plan w nothing h =
      let m = length w.items in
      elim (Bool-cases (accounts_for ops usize_max plan (length w.rows) m)) [
        | inr e ↦ rw (e, apply_plan) tt
        | inl e ↦ elim (Bool-cases plan.clear) [
          | inr keeps ↦
              rw (e, keeps, apply_plan)
                (apply_changes-OnPage usize_max m (record plan { clear = false }) w h)
          | inl clears ↦ elim (Bool-cases (length plan.added == 0)) [
            | inl empty ↦
                rw (e, clears, empty, apply_plan)
                  (After-then (λ u w'. OnPage ops pages w' 0) _ (clear_rows ops w) _
                    (clear_rows-OnPage w nothing h) (λ u w1 h1. h1))
            | inr more ↦
                rw (e, clears, more, apply_plan)
                  (After-then (λ u w'. OnPage ops pages w' 0) _ (clear_rows ops w) _
                    (clear_rows-OnPage w nothing h)
                    (λ u w1 h1.
                      apply_changes-OnPage usize_max m (record plan { clear = true }) w1 h1))
          ]
        ]
      ]

  -- Every row of the vector is on the page, once, and no other is.
  abbrev pub ShowsRows : List (Option Row) → State → Type 0
  ShowsRows rows s = (j : ℕ) → occurrences j (ids ops pages rows) ≡ bit (memb j (page s))

  OnPage-ShowsRows : (w : Rendering ops pages) → OnPage ops pages w 0 → ShowsRows w.rows w.state
  OnPage-ShowsRows w h j =
      let at = h.rows_on j in
      let none_moving : occurrences j (ids ops pages w.moving) ≡ 0 =
        ap (occurrences j) (ids_none (ids ops pages w.moving) h.waiting) in
      omega arith

  -- `apply`, where it succeeds.
  pub apply-ShowsRows :
      (usize_max : ℕ) (plan : Diff) (w w' : Rendering ops pages)
      → ShowsRows w.rows w.state
      → apply ops usize_max plan w ≡ (ok tt, w')
      → ShowsRows w'.rows w'.state
  unfolding apply
  apply-ShowsRows usize_max plan w w' h e =
      let cleared : Rendering ops pages = record w { moving = [] } in
      let start : OnPage ops pages cleared 0 = record {
        rows_on = λ j. let at = h j in omega arith;
        waiting = refl;
      } in
      subst (After {A = Unit {0}} {W = Rendering ops pages} (λ u w'. ShowsRows w'.rows w'.state)) e
        (finished (apply_plan ops usize_max plan cleared)
          (apply_plan-OnPage usize_max plan cleared refl start))
    where
      finished :
          (r : Result ListError (Unit {0}) × Rendering ops pages)
          → After (λ u w'. OnPage ops pages w' 0) r
          → After {A = Unit {0}} {W = Rendering ops pages}
              (λ u w'. ShowsRows w'.rows w'.state)
              (let (result, w') = r in
                elim result [
                  | ok _ ↦ (ok tt, w')
                  | err x ↦
                      (err x, record w' { moving = []; state = unmount_all ops w'.moving w'.state })
                ])
      finished (ok u, w1) h1 = OnPage-ShowsRows w1 h1
      finished (err x, w1) h1 = tt
