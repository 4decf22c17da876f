-- ===== src/KeyedList/Apply/Added.antt =====
-- The step of `apply_plan` that builds the new rows.
use halyard.Prelude.{
  ℕ, ◌≤◌, ◌≡◌, ◌⊎◌, refl, sym, ap, ◌∙◌, true, false, Bool-cases, inl, inr, Option, none, some, List,
  [], ◌∷◌, ◌==◌, ok, arith,
}
use halyard.Prelude.Ranges.{memb, AllDistinct}
use halyard.KeyedList.{ListOps}
use halyard.KeyedList.Diff.{DiffOpAdd, DiffOpAddMode, normal, append}
use halyard.KeyedList.Diff.Moves.{ats}
use halyard.KeyedList.Labels.{Labels}
use halyard.KeyedList.Work.{free_place, take_item, call_build, put_row}
use halyard.KeyedList.Rows.Places.{upd}
use halyard.KeyedList.Work.Shown.{
  Rendering, Stands, Stands_ext, free_place-Stands, take_item-Stands, call_build-Stands,
  call_mount-Stands, put_row-Stands,
}
use halyard.KeyedList.Apply.{mount_added, add_rows}
use halyard.KeyedList.Apply.Removed.{chosen, chosen-upd, upd-off}
use halyard.KeyedList.Apply.Placed.{Vacant, Vacant-upd, call_mount_at-Stands}

mode-cases : (mode : DiffOpAddMode) → (mode ≡ normal) ⊎ (mode ≡ append)
mode-cases normal = inl refl
mode-cases append = inr refl

module _ (ops : ListOps) (ls : Labels ops) where
  open ops use {Item, Row}
  open ls use {Label}

  -- For each place of the list there is an item, and the target has the row built for it there.
  abbrev pub Supplied : List ℕ → (ℕ → Option Item) → (ℕ → Option Label) → Type 0
  Supplied xs left t =
      (j : ℕ)
      → memb j xs ≡ true
      → (item : Item) × (left j ≡ some item) × (t j ≡ some (ls.made j item))

  Supplied-upd :
      (x : ℕ) (xs : List ℕ) (left : ℕ → Option Item) (t : ℕ → Option Label)
      → memb x xs ≡ false
      → Supplied (x ∷ xs) left t
      → Supplied xs (upd left x none) t
  Supplied-upd x xs left t apart h j j_in =
      let (item, there, is) = h j (ground arith) in
      elim (Bool-cases (x == j)) [
        | inl here ↦
            let eq : x ≡ j = ground arith in
            let clash : memb x xs ≡ true = ap (λ q. memb q xs) eq ∙ j_in in cc
        | inr off ↦ (item, upd-off left x j none off ∙ there, is)
      ]

  mount_added-Stands :
      (w : Rendering ops ls) (n k : ℕ) (f g : ℕ → Option Label) (left : ℕ → Option Item)
      → Stands ops ls w n f k g left
      → (row : Row) (add : DiffOpAdd)
      → (row' : Row) × (w' : Rendering ops ls) × (mount_added ops row add w ≡ (ok row', w'))
        × (ls.label row' ≡ ls.label row)
        × Stands ops ls w' n f k g left
  unfolding mount_added
  mount_added-Stands w n k f g left s row add = elim (mode-cases add.mode) [
    | inl e ↦
        let (row', w', mounts, is, s') = call_mount_at-Stands ops ls w n k f g left s row add.at in
        (row', w', rw (e, mount_added) mounts, is, s')
    | inr e ↦
        let (row', w', mounts, is, s') = call_mount-Stands ops ls w n k f g left s row none in
        (row', w', rw (e, mount_added) mounts, is, s')
  ]

  add_rows-step :
      (m : ℕ) (add : DiffOpAdd) (added : List DiffOpAdd) (item : Item) (row row' : Row)
      (w w1 w2 w3 w4 : Rendering ops ls)
      → free_place m add.at w ≡ (ok tt, w)
      → take_item add.at w ≡ (ok item, w1)
      → call_build ops add.at item w1 ≡ (ok row, w2)
      → mount_added ops row add w2 ≡ (ok row', w3)
      → put_row add.at row' w3 ≡ (ok tt, w4)
      → add_rows ops m (add ∷ added) w ≡ add_rows ops m added w4
  unfolding add_rows
  add_rows-step m add added item row row' w w1 w2 w3 w4 f t b a p = rw (f, t, b, a, p) refl

  pub add_rows-Stands :
      (added : List DiffOpAdd) (m : ℕ) (w : Rendering ops ls) (n k : ℕ) (f g t : ℕ → Option Label)
      (left : ℕ → Option Item)
      → m ≤ n
      → Stands ops ls w n f k g left
      → AllDistinct (ats added)
      → Vacant m (ats added) f
      → Supplied (ats added) left t
      → (w' : Rendering ops ls) × (left' : ℕ → Option Item) × (add_rows ops m added w ≡ (ok tt, w'))
        × Stands ops ls w' n (chosen (ats added) t f) k g left'
  unfolding add_rows
  add_rows-Stands [] m w n k f g t left le s d v h = (w, left, refl, s)
  add_rows-Stands (add ∷ added) m w n k f g t left le s d v h =
      let (free, lt) = v add.at (ground arith) in
      let (item, there, is) = h add.at (ground arith) in
      let e0 = free_place-Stands ops ls w n k f g left s m add.at lt le free in
      let (w1, e1, s1) = take_item-Stands ops ls w n k f g left s add.at item there in
      let left1 = upd left add.at none in
      let (row, w2, e2, built, s2) = call_build-Stands ops ls w1 n k f g left1 s1 add.at item in
      let (row', w3, e3, mounted, s3) = mount_added-Stands w2 n k f g left1 s2 row add in
      let (w4, e4, s4) =
        put_row-Stands ops ls w3 n k f g left1 s3 add.at row' (t add.at) (omega arith)
          (ap some (mounted ∙ built) ∙ sym is) in
      let (w5, left', e5, s5) =
        add_rows-Stands added m w4 n k (upd f add.at (t add.at)) g t left1 le s4 d.1
          (Vacant-upd m add.at (ats added) f (t add.at) d.0 v)
          (Supplied-upd add.at (ats added) left t d.0 h) in
      (
        w5,
        left',
        add_rows-step m add added item row row' w w1 w2 w3 w4 e0 e1 e2 e3 e4 ∙ e5,
        Stands_ext ops ls w5 n k (chosen (ats added) t (upd f add.at (t add.at))) g left'
            (chosen (add.at ∷ ats added) t f) (chosen-upd add.at (ats added) t f (t add.at) refl)
            s5,
      )
