-- ===== src/KeyedList/Apply/Placed.antt =====
-- The two passes of `apply_plan` that put the rows taken out at their new places.
pub mod Passes
use halyard.Prelude.{
  ℕ, suc, ◌+◌, ◌≤◌, ◌<◌, ◌≡◌, refl, sym, ap, ◌∙◌, Bool, true, false, not, Bool-cases, inl, inr,
  Option, none, some, List, [], ◌∷◌, ◌==◌, ◌||◌, if◌then◌else◌, ok, drop, arith,
}
use halyard.Prelude.Ranges.{memb, AllDistinct}
use halyard.KeyedList.{ListOps}
use halyard.KeyedList.Diff.{DiffOpMove}
use halyard.KeyedList.Diff.Moves.{same, tos}
use halyard.KeyedList.Labels.{Labels}
use halyard.KeyedList.Rows.{first_some}
use halyard.KeyedList.Work.{free_place, take_moving, call_set_index, put_row}
use halyard.KeyedList.Rows.Places.{upd}
use halyard.KeyedList.Work.Shown.{
  Rendering, Stands, Stands_ext, free_place-Stands, take_moving-Stands, call_mount-Stands,
  call_set_index-Stands, put_row-Stands,
}
use halyard.KeyedList.Apply.{place_still, place_moved, call_mount_at}
use halyard.KeyedList.Apply.Removed.{chosen, chosen-upd, upd-off, Held}

module _ {L : Type 0} where
  -- The places of the list are below `m` and free.
  abbrev pub Vacant : ℕ → List ℕ → (ℕ → Option L) → Type 0
  Vacant m xs f = (j : ℕ) → memb j xs ≡ true → (f j ≡ none) × (j < m)

  pub Vacant-upd :
      (m x : ℕ) (xs : List ℕ) (f : ℕ → Option L) (o : Option L)
      → memb x xs ≡ false
      → Vacant m (x ∷ xs) f
      → Vacant m xs (upd f x o)
  Vacant-upd m x xs f o apart h j j_in =
      let j_all : memb j (x ∷ xs) ≡ true = ground arith in
      let (free, lt) = h j j_all in
      elim (Bool-cases (x == j)) [
        | inl here ↦
            let eq : x ≡ j = ground arith in
            let clash : memb x xs ≡ true = ap (λ q. memb q xs) eq ∙ j_in in cc
        | inr off ↦ (upd-off f x j o off ∙ free, lt)
      ]

  -- The rows to be moved with the flag `b`, from `i` on, are those that the target has where they go.
  abbrev pub HeldFor : Bool → ℕ → List DiffOpMove → (ℕ → Option L) → (ℕ → Option L) → Type 0
  HeldFor b i [] g t = Unit
  HeldFor b i (op ∷ moved) g t =
      (same b op.move_in_dom ≡ true → (l : L) × (g i ≡ some l) × (t op.to ≡ some l))
      × HeldFor b (suc i) moved g t

  HeldFor-upd :
      (b : Bool) (i x : ℕ) (moved : List DiffOpMove) (g t : ℕ → Option L)
      → x < i
      → HeldFor b i moved g t
      → HeldFor b i moved (upd g x none) t
  HeldFor-upd b i x [] g t lt h = tt
  HeldFor-upd b i x (op ∷ moved) g t lt h =
      let off : (x == i) ≡ false = ground arith in
      (
        λ is. let (l, at, to) = h.0 is in (l, upd-off g x i none off ∙ at, to),
        HeldFor-upd b (suc i) x moved g t (omega arith) h.1,
      )

module _ (ops : ListOps) (ls : Labels ops) where
  open ops use {Item, Row}
  open ls use {Label}

  pub Held-HeldFor :
      (b : Bool) (i : ℕ) (moved : List DiffOpMove) (g t : ℕ → Option Label)
      → Held ops ls i moved g t
      → HeldFor b i moved g t
  Held-HeldFor b i [] g t h = tt
  Held-HeldFor b i (op ∷ moved) g t h = (λ is. h.0, Held-HeldFor b (suc i) moved g t h.1)

  pub place_still-skip :
      (m i : ℕ) (op : DiffOpMove) (moved : List DiffOpMove) (w : Rendering ops ls)
      → op.move_in_dom ≡ true
      → place_still ops m i (op ∷ moved) w ≡ place_still ops m (suc i) moved w
  unfolding place_still
  place_still-skip m i op moved w e = rw e refl

  pub place_still-step :
      (m i : ℕ) (op : DiffOpMove) (moved : List DiffOpMove) (row : Row)
      (w w1 w2 w3 : Rendering ops ls)
      → op.move_in_dom ≡ false
      → free_place m op.to w ≡ (ok tt, w)
      → take_moving i w ≡ (ok row, w1)
      → call_set_index ops row op.to w1 ≡ (ok tt, w2)
      → put_row op.to row w2 ≡ (ok tt, w3)
      → place_still ops m i (op ∷ moved) w ≡ place_still ops m (suc i) moved w3
  unfolding place_still
  place_still-step m i op moved row w w1 w2 w3 e f t c p = rw (e, f, t, c, p) refl

  pub place_moved-skip :
      (m i : ℕ) (op : DiffOpMove) (moved : List DiffOpMove) (w : Rendering ops ls)
      → op.move_in_dom ≡ false
      → place_moved ops m i (op ∷ moved) w ≡ place_moved ops m (suc i) moved w
  unfolding place_moved
  place_moved-skip m i op moved w e = rw e refl

  pub place_moved-step :
      (m i : ℕ) (op : DiffOpMove) (moved : List DiffOpMove) (row row' : Row)
      (w w1 w2 w3 w4 : Rendering ops ls)
      → op.move_in_dom ≡ true
      → free_place m op.to w ≡ (ok tt, w)
      → take_moving i w ≡ (ok row, w1)
      → call_mount_at ops row op.to w1 ≡ (ok row', w2)
      → call_set_index ops row' op.to w2 ≡ (ok tt, w3)
      → put_row op.to row' w3 ≡ (ok tt, w4)
      → place_moved ops m i (op ∷ moved) w ≡ place_moved ops m (suc i) moved w4
  unfolding place_moved
  place_moved-step m i op moved row row' w w1 w2 w3 w4 e f t b c p = rw (e, f, t, b, c, p) refl

  pub call_mount_at-Stands :
      (w : Rendering ops ls) (n k : ℕ) (f g : ℕ → Option Label) (left : ℕ → Option Item)
      → Stands ops ls w n f k g left
      → (row : Row) (at : ℕ)
      → (row' : Row) × (w' : Rendering ops ls) × (call_mount_at ops row at w ≡ (ok row', w'))
        × (ls.label row' ≡ ls.label row)
        × Stands ops ls w' n f k g left
  unfolding call_mount_at
  call_mount_at-Stands w n k f g left s row at =
      call_mount-Stands ops ls w n k f g left s row (first_some (drop (suc at) w.rows))
