-- ===== src/KeyedList/Apply/OnPage.antt =====
-- The steps of `apply_plan` keep every row that they hold on the page, and no other.
pub mod Plan
use halyard.Prelude.{
  ℕ, zero, suc, ◌+◌, ◌<◌, ◌≡◌, refl, sym, ap, ◌∙◌, subst, true, false, Bool-cases, inl, inr, Option,
  none, some, Option-cases, List, [], ◌∷◌, ◌==◌, if◌then◌else◌, length, set, drop, take, Result, ok,
  err, arith,
}
use halyard.KeyedList.{ListOps, row_to_remove_missing, row_to_move_missing}
use halyard.KeyedList.Diff.{Diff, DiffOpMove, DiffOpAdd, DiffOpAddMode, normal, append}
use halyard.KeyedList.Diff.Moves.{tos}
use halyard.KeyedList.Rows.{first_some, is_free, has_some}
use halyard.KeyedList.Work.{
  Work, take_row, take_moving, take_item, free_place, put_row, push_moving, call_unmount,
  call_mount, call_set_index, call_build,
}
use halyard.KeyedList.Work.OnPage.{
  After, After-then, Rendering, OnPage, Taken, Taken-Off, Off, take_row-OnPage, take_moving-OnPage,
  push_moving-OnPage, call_unmount-OnPage, put_row-OnPage, call_set_index-Taken, free_place-After,
  take_item-After, call_build-After, call_mount-After,
}
use halyard.KeyedList.Pages.{Pages, ids}
use halyard.KeyedList.Pages.Counts.{anchor-occurs}
use halyard.KeyedList.Apply.{
  remove_rows, take_out, place_still, place_moved, call_mount_at, mount_added, add_rows,
}

drop-set : {A : Type 0} (n at : ℕ) (xs : List A) (v : A) → at < n → drop n (set xs at v) ≡ drop n xs
drop-set zero at xs v lt = absurd (omega arith)
drop-set (suc n) at [] v lt = refl
drop-set (suc n) zero (x ∷ xs) v lt = refl
drop-set (suc n) (suc at) (x ∷ xs) v lt = drop-set n at xs v (omega arith)

module _ (ops : ListOps) (pages : Pages ops) where
  open ops use {Item, Row, State}
  open pages use {id}

  pub remove_rows-OnPage :
      (removed : List ℕ) (c : ℕ) (w : Rendering ops pages)
      → OnPage ops pages w c
      → After (λ u w'. OnPage ops pages w' c) (remove_rows ops removed w)
  unfolding remove_rows
  remove_rows-OnPage [] c w h = h
  remove_rows-OnPage (at ∷ removed) c w h =
      After-then (λ row w'. Taken ops pages (id row) w' c) _ (take_row at row_to_remove_missing w) _
        (take_row-OnPage ops pages at c row_to_remove_missing w h)
        (λ row w1 h1.
          After-then (λ u w'. OnPage ops pages w' c) _ (call_unmount ops row w1) _
            (call_unmount-OnPage ops pages c row w1 h1)
            (λ u w2 h2. remove_rows-OnPage removed c w2 h2))

  pub take_out-OnPage :
      (moved : List DiffOpMove) (c : ℕ) (w : Rendering ops pages)
      → OnPage ops pages w c
      → After (λ u w'. OnPage ops pages w' (c + length moved)) (take_out ops moved w)
  unfolding take_out
  take_out-OnPage [] c w h = let same : c ≡ c + 0 = omega arith in subst (OnPage ops pages w) same h
  take_out-OnPage (op ∷ moved) c w h =
      let more : suc c + length moved ≡ c + suc (length moved) = omega arith in
      After-then (λ row w'. Taken ops pages (id row) w' c) _
        (take_row op.from row_to_move_missing w) _
        (take_row-OnPage ops pages op.from c row_to_move_missing w h)
        (λ row w1 h1.
          After-then (λ u w'. OnPage ops pages w' (suc c)) _ (push_moving row w1) _
            (push_moving-OnPage ops pages c row w1 h1)
            (λ u w2 h2.
              subst (λ q. After (λ u w'. OnPage ops pages w' q) (take_out ops moved w2)) more
                (take_out-OnPage moved (suc c) w2 h2)))

  -- `n` of the `c` rows to be moved are placed.
  abbrev pub Fewer : ℕ → ℕ → Rendering ops pages → Type 0
  Fewer n c w' = (c' : ℕ) × (c' + n ≡ c) × OnPage ops pages w' c'

  Fewer-suc :
      (n c c' : ℕ) (r : Result _ (Unit {0}) × Rendering ops pages)
      → suc c' ≡ c
      → After (λ u w'. Fewer n c' w') r
      → After (λ u w'. Fewer (suc n) c w') r
  Fewer-suc n c c' (ok u, w) e (c2, e2, h) = (c2, omega arith, h)
  Fewer-suc n c c' (err x, w) e h = tt

  pub place_still-OnPage :
      (moved : List DiffOpMove) (m i c : ℕ) (w : Rendering ops pages)
      → OnPage ops pages w c
      → After (λ u w'. Fewer (length (tos false moved)) c w') (place_still ops m i moved w)
  unfolding place_still
  place_still-OnPage [] m i c w h = (c, omega arith, h)
  place_still-OnPage (op ∷ moved) m i c w h = elim (Bool-cases op.move_in_dom) [
    | inl moves ↦ rw moves (place_still-OnPage moved m (suc i) c w h)
    | inr still ↦ rw still (
        After-then (λ u w'. (w' ≡ w) × (op.to < m) × (is_free w.rows op.to ≡ true)) _
          (free_place m op.to w) _ (free_place-After ops pages m op.to w)
          (λ u w0 (same, lt, free).
            After-then
              (λ row w'.
                (c' : ℕ) × (suc c' ≡ c) × (w'.rows ≡ w0.rows) × Taken ops pages (id row) w' c')
              _ (take_moving i w0) _
              (take_moving-OnPage ops pages i c w0 (subst (λ q. OnPage ops pages q c) (sym same) h))
              (λ row w1 (c', e, rows1, h1).
                After-then (λ u w'. (w'.rows ≡ w1.rows) × Taken ops pages (id row) w' c') _
                  (call_set_index ops row op.to w1) _
                  (call_set_index-Taken ops pages (id row) c' op.to row w1 h1)
                  (λ u w2 (rows2, h2).
                    After-then
                      (λ u w'. (w'.rows ≡ set w2.rows op.to (some row)) × OnPage ops pages w' c') _
                      (put_row op.to row w2) _
                      (put_row-OnPage ops pages op.to c' row w2
                        (ap (λ q. is_free q op.to) (rows2 ∙ rows1 ∙ ap (λ q. q.rows) same) ∙ free)
                        h2)
                      (λ u w3 (rows3, h3).
                        Fewer-suc (length (tos false moved)) c c' _ e
                          (place_still-OnPage moved m (suc i) c' w3 h3))))))
  ]

  pub call_mount_at-After :
      (at c : ℕ) (row : Row) (w : Rendering ops pages)
      → Off ops pages (id row) w c
      → After
          (λ row' w'. (w'.rows ≡ w.rows) × Taken ops pages (id row') w' c)
          (call_mount_at ops row at w)
  unfolding call_mount_at
  call_mount_at-After at c row w h =
      call_mount-After ops pages c row (first_some (drop (suc at) w.rows)) w h
        (anchor-occurs ops pages (suc at) w.rows)

  pub place_moved-OnPage :
      (moved : List DiffOpMove) (m i c : ℕ) (w : Rendering ops pages)
      → OnPage ops pages w c
      → After (λ u w'. Fewer (length (tos true moved)) c w') (place_moved ops m i moved w)
  unfolding place_moved
  place_moved-OnPage [] m i c w h = (c, omega arith, h)
  place_moved-OnPage (op ∷ moved) m i c w h = elim (Bool-cases op.move_in_dom) [
    | inr still ↦ rw still (place_moved-OnPage moved m (suc i) c w h)
    | inl moves ↦ rw moves (
        After-then (λ u w'. (w' ≡ w) × (op.to < m) × (is_free w.rows op.to ≡ true)) _
          (free_place m op.to w) _ (free_place-After ops pages m op.to w)
          (λ u w0 (same, lt, free).
            After-then
              (λ row w'.
                (c' : ℕ) × (suc c' ≡ c) × (w'.rows ≡ w0.rows) × Taken ops pages (id row) w' c')
              _ (take_moving i w0) _
              (take_moving-OnPage ops pages i c w0 (subst (λ q. OnPage ops pages q c) (sym same) h))
              (λ row w1 (c', e, rows1, h1).
                After-then (λ row' w'. (w'.rows ≡ w1.rows) × Taken ops pages (id row') w' c') _
                  (call_mount_at ops row op.to w1) _
                  (call_mount_at-After op.to c' row w1 (Taken-Off ops pages (id row) c' w1 h1))
                  (λ row' w2 (rows2, h2).
                    After-then (λ u w'. (w'.rows ≡ w2.rows) × Taken ops pages (id row') w' c') _
                      (call_set_index ops row' op.to w2) _
                      (call_set_index-Taken ops pages (id row') c' op.to row' w2 h2)
                      (λ u w3 (rows3, h3).
                        After-then
                          (λ u w'.
                            (w'.rows ≡ set w3.rows op.to (some row')) × OnPage ops pages w' c')
                          _ (put_row op.to row' w3) _
                          (put_row-OnPage ops pages op.to c' row' w3
                            (ap (λ q. is_free q op.to)
                                (rows3 ∙ rows2 ∙ rows1 ∙ ap (λ q. q.rows) same)
                              ∙ free)
                            h3)
                          (λ u w4 (rows4, h4).
                            Fewer-suc (length (tos true moved)) c c' _ e
                              (place_moved-OnPage moved m (suc i) c' w4 h4)))))))
  ]

  mount_added-After :
      (c : ℕ) (row : Row) (add : DiffOpAdd) (mode : DiffOpAddMode) (w : Rendering ops pages)
      → add.mode ≡ mode
      → Off ops pages (id row) w c
      → After
          (λ row' w'. (w'.rows ≡ w.rows) × Taken ops pages (id row') w' c)
          (mount_added ops row add w)
  unfolding mount_added
  mount_added-After c row add normal w e h =
      rw (e, mount_added) (call_mount_at-After add.at c row w h)
  mount_added-After c row add append w e h =
      rw (e, mount_added) (call_mount-After ops pages c row none w h (λ next lost. absurd cc))

  -- No row is past the new length.
  abbrev pub Within : ℕ → ℕ → Rendering ops pages → Type 0
  Within m c w = (has_some (drop m w.rows) ≡ false) × OnPage ops pages w c

  pub add_rows-OnPage :
      (added : List DiffOpAdd) (m c : ℕ) (w : Rendering ops pages)
      → Within m c w
      → After (λ u w'. Within m c w') (add_rows ops m added w)
  unfolding add_rows
  add_rows-OnPage [] m c w h = h
  add_rows-OnPage (add ∷ added) m c w (past, h) =
      After-then (λ u w'. (w' ≡ w) × (add.at < m) × (is_free w.rows add.at ≡ true)) _
        (free_place m add.at w) _ (free_place-After ops pages m add.at w)
        (λ u w0 (same, lt, free).
          After-then (λ item w'. (w'.rows ≡ w0.rows) × OnPage ops pages w' c) _
            (take_item add.at w0) _
            (take_item-After ops pages add.at c w0 (subst (λ q. OnPage ops pages q c) (sym same) h))
            (λ item w1 (rows1, h1).
              After-then (λ row w'. (w'.rows ≡ w1.rows) × Off ops pages (id row) w' c) _
                (call_build ops add.at item w1) _ (call_build-After ops pages add.at c item w1 h1)
                (λ row w2 (rows2, h2).
                  After-then (λ row' w'. (w'.rows ≡ w2.rows) × Taken ops pages (id row') w' c) _
                    (mount_added ops row add w2) _ (mount_added-After c row add add.mode w2 refl h2)
                    (λ row' w3 (rows3, h3).
                      let rows = rows3 ∙ rows2 ∙ rows1 ∙ ap (λ q. q.rows) same in
                      After-then
                        (λ u w'. (w'.rows ≡ set w3.rows add.at (some row')) × OnPage ops pages w' c)
                        _ (put_row add.at row' w3) _
                        (put_row-OnPage ops pages add.at c row' w3
                          (ap (λ q. is_free q add.at) rows ∙ free) h3)
                        (λ u w4 (rows4, h4). add_rows-OnPage added m c w4 (
                          ap (λ q. has_some (drop m q)) rows4
                              ∙ ap has_some (drop-set m add.at w3.rows (some row') lt)
                              ∙ ap (λ q. has_some (drop m q)) rows
                              ∙ past,
                          h4,
                        ))))))
