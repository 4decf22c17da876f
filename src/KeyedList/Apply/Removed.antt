-- ===== src/KeyedList/Apply/Removed.antt =====
-- The steps of `apply_plan` that take rows out and make room.
use halyard.Prelude.{
  ℕ, suc, ◌+◌, ◌≤◌, ◌<◌, ◌≡◌, refl, ap, ◌∙◌, true, false, Bool-cases, inl, inr, Option, none, some,
  List, [], ◌∷◌, ◌==◌, leb, if◌then◌else◌, length, ok, arith,
}
use halyard.Prelude.Ranges.{memb, AllDistinct}
use halyard.KeyedList.{ListOps, row_to_remove_missing, row_to_move_missing}
use halyard.KeyedList.Diff.{DiffOpMove}
use halyard.KeyedList.Diff.Moves.{froms}
use halyard.KeyedList.Labels.{Labels}
use halyard.KeyedList.Rows.{pad}
use halyard.KeyedList.Work.{take_row, call_unmount, push_moving}
use halyard.KeyedList.Rows.Places.{upd, length-pad, item_at-pad}
use halyard.KeyedList.Work.Shown.{
  shown, Rendering, Stands, Stands_ext, take_row-Stands, call_unmount-Stands, push_moving-Stands,
}
use halyard.KeyedList.Apply.{remove_rows, take_out, make_room}

module _ {L : Type 0} where
  -- `t` at the places of the list, `f` elsewhere.
  abbrev pub chosen : List ℕ → (ℕ → Option L) → (ℕ → Option L) → ℕ → Option L
  chosen xs t f j = if memb j xs then t j else f j

  pub chosen-upd :
      (x : ℕ) (xs : List ℕ) (t f : ℕ → Option L) (o : Option L)
      → o ≡ t x
      → (j : ℕ) → chosen xs t (upd f x o) j ≡ chosen (x ∷ xs) t f j
  chosen-upd x xs t f o is j = elim (Bool-cases (memb j xs)) [
    | inl e ↦ ground arith
    | inr e ↦ elim (Bool-cases (x == j)) [
      | inl here ↦ let same : x ≡ j = ground arith in rw (e, here) (is ∙ ap t same)
      | inr there ↦ rw (e, there) refl
    ]
  ]

  pub upd-off : (f : ℕ → Option L) (x j : ℕ) (v : Option L) → (x == j) ≡ false → upd f x v j ≡ f j
  upd-off f x j v e = rw e refl

  abbrev pub nowhere : ℕ → Option L
  nowhere j = none

  -- Each place of the list shows something.
  abbrev pub AllShown : List ℕ → (ℕ → Option L) → Type 0
  AllShown [] f = Unit
  AllShown (x ∷ xs) f = ((l : L) × (f x ≡ some l)) × AllShown xs f

  pub AllShown-upd :
      (x : ℕ) (xs : List ℕ) (f : ℕ → Option L)
      → memb x xs ≡ false
      → AllShown xs f
      → AllShown xs (upd f x none)
  AllShown-upd x [] f apart h = tt
  AllShown-upd x (y ∷ xs) f apart h =
      let off : (x == y) ≡ false = ground arith in
      let rest : memb x xs ≡ false = ground arith in
      ((h.0.0, upd-off f x y none off ∙ h.0.1), AllShown-upd x xs f rest h.1)

module _ (ops : ListOps) (ls : Labels ops) where
  open ops use {Item, Row}
  open ls use {Label}

  remove_rows-step :
      (at : ℕ) (removed : List ℕ) (row row' : Row) (w w1 w2 : Rendering ops ls)
      → take_row at row_to_remove_missing w ≡ (ok row, w1)
      → call_unmount ops row w1 ≡ (ok row', w2)
      → remove_rows ops (at ∷ removed) w ≡ remove_rows ops removed w2
  unfolding remove_rows
  remove_rows-step at removed row row' w w1 w2 e1 e2 = rw (e1, e2) refl

  pub remove_rows-Stands :
      (removed : List ℕ) (w : Rendering ops ls) (n k : ℕ) (f g : ℕ → Option Label)
      (left : ℕ → Option Item)
      → Stands ops ls w n f k g left
      → AllDistinct removed
      → AllShown removed f
      → (w' : Rendering ops ls) × (remove_rows ops removed w ≡ (ok tt, w'))
        × Stands ops ls w' n (chosen removed nowhere f) k g left
  unfolding remove_rows
  remove_rows-Stands [] w n k f g left s d h = (w, refl, s)
  remove_rows-Stands (at ∷ removed) w n k f g left s d h =
      let (row, w1, e1, is, s1) =
        take_row-Stands ops ls w n k f g left s at row_to_remove_missing h.0.0 h.0.1 in
      let (row', w2, e2, s2) = call_unmount-Stands ops ls w1 n k (upd f at none) g left s1 row in
      let (w3, e3, s3) =
        remove_rows-Stands removed w2 n k (upd f at none) g left s2 d.1
          (AllShown-upd at removed f d.0 h.1) in
      (
        w3,
        remove_rows-step at removed row row' w w1 w2 e1 e2 ∙ e3,
        Stands_ext ops ls w3 n k (chosen removed nowhere (upd f at none)) g left
            (chosen (at ∷ removed) nowhere f) (chosen-upd at removed nowhere f none refl) s3,
      )

  -- Each move's place shows the row that the target has where the move goes.
  abbrev pub Sourced : List DiffOpMove → (ℕ → Option Label) → (ℕ → Option Label) → Type 0
  Sourced [] f t = Unit
  Sourced (op ∷ moved) f t =
      ((l : Label) × (f op.from ≡ some l) × (t op.to ≡ some l)) × Sourced moved f t

  Sourced-upd :
      (x : ℕ) (moved : List DiffOpMove) (f t : ℕ → Option Label)
      → memb x (froms moved) ≡ false
      → Sourced moved f t
      → Sourced moved (upd f x none) t
  Sourced-upd x [] f t apart h = tt
  Sourced-upd x (op ∷ moved) f t apart h =
      let off : (x == op.from) ≡ false = ground arith in
      let rest : memb x (froms moved) ≡ false = ground arith in
      ((h.0.0, upd-off f x op.from none off ∙ h.0.1, h.0.2), Sourced-upd x moved f t rest h.1)

  -- The rows to be moved, from `i` on, are those that the target has where the moves go.
  abbrev pub Held : ℕ → List DiffOpMove → (ℕ → Option Label) → (ℕ → Option Label) → Type 0
  Held i [] g t = Unit
  Held i (op ∷ moved) g t =
      ((l : Label) × (g i ≡ some l) × (t op.to ≡ some l)) × Held (suc i) moved g t

  take_out-step :
      (op : DiffOpMove) (moved : List DiffOpMove) (row : Row) (w w1 w2 : Rendering ops ls)
      → take_row op.from row_to_move_missing w ≡ (ok row, w1)
      → push_moving row w1 ≡ (ok tt, w2)
      → take_out ops (op ∷ moved) w ≡ take_out ops moved w2
  unfolding take_out
  take_out-step op moved row w w1 w2 e1 e2 = rw (e1, e2) refl

  pub take_out-Stands :
      (moved : List DiffOpMove) (w : Rendering ops ls) (n k : ℕ) (f g t : ℕ → Option Label)
      (left : ℕ → Option Item)
      → Stands ops ls w n f k g left
      → AllDistinct (froms moved)
      → Sourced moved f t
      → (w' : Rendering ops ls) × (k' : ℕ) × (g' : ℕ → Option Label) × (take_out ops moved w
          ≡ (ok tt, w'))
        × ((x : ℕ) → x < k → g' x ≡ g x)
        × Held k moved g' t
        × Stands ops ls w' n (chosen (froms moved) nowhere f) k' g' left
  unfolding take_out
  take_out-Stands [] w n k f g t left s d h = (w, k, g, refl, λ x lt. refl, tt, s)
  take_out-Stands (op ∷ moved) w n k f g t left s d h =
      let (row, w1, e1, is, s1) =
        take_row-Stands ops ls w n k f g left s op.from row_to_move_missing h.0.0 h.0.1 in
      let (w2, e2, s2) = push_moving-Stands ops ls w1 n k (upd f op.from none) g left s1 row in
      let g2 = upd g k (some (ls.label row)) in
      let (w3, k', g', e3, same, held, s3) =
        take_out-Stands moved w2 n (suc k) (upd f op.from none) g2 t left s2 d.1
          (Sourced-upd op.from moved f t d.0 h.1) in
      let here : (k == k) ≡ true = ground arith in
      let last : upd g k (some (ls.label row)) k ≡ some (ls.label row) = rw here refl in
      (
        w3,
        k',
        g',
        take_out-step op moved row w w1 w2 e1 e2 ∙ e3,
        λ x lt.
            let off : (k == x) ≡ false = ground arith in
            same x (omega arith) ∙ upd-off g k x (some (ls.label row)) off,
        ((h.0.0, same k (omega arith) ∙ last ∙ ap some is, h.0.2), held),
        Stands_ext ops ls w3 n k' (chosen (froms moved) nowhere (upd f op.from none)) g' left
            (chosen (op.from ∷ froms moved) nowhere f)
            (chosen-upd op.from (froms moved) nowhere f none refl) s3,
      )

  pub make_room-Stands :
      (usize_max a : ℕ) (w : Rendering ops ls) (n k : ℕ) (f g : ℕ → Option Label)
      (left : ℕ → Option Item)
      → Stands ops ls w n f k g left
      → n + a ≤ usize_max
      → (w' : Rendering ops ls) × (make_room ops usize_max a w ≡ (ok tt, w'))
        × Stands ops ls w' (n + a) f k g left
  unfolding make_room
  make_room-Stands usize_max a w n k f g left s room =
      let fits : leb (length w.rows + a) usize_max ≡ true = ground (arith, s.places) in
      (
        record w { rows = pad w.rows a },
        rw (fits, make_room) refl,
        record {
          places = length-pad w.rows a ∙ omega (arith, s.places);
          shows = λ i. ap (shown ops ls) (item_at-pad w.rows a i) ∙ s.shows i;
          moves = s.moves;
          holds = s.holds;
          leaves = s.leaves;
        },
      )
