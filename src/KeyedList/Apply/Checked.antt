-- ===== src/KeyedList/Apply/Checked.antt =====
-- The check of the new rows passes when the free places are those of the additions.
use halyard.Prelude.{
  ℕ, zero, suc, ◌≤◌, ◌<◌, ◌≡◌, refl, sym, ap, ◌∙◌, subst, Bool, true, false, Bool-cases, inl, inr,
  Option, none, some, List, [], ◌∷◌, ◌++◌, ◌==◌, ltb, length, take, drop, ok, arith,
}
use halyard.Prelude.Ranges.{upto, count, count_head, count_ext, memb, memb-upto, length-upto}
use halyard.KeyedList.{ListOps}
use halyard.KeyedList.Diff.{Diff, DiffOpAdd}
use halyard.KeyedList.Diff.Moves.{ats, length-ats}
use halyard.KeyedList.Labels.{Labels}
use halyard.KeyedList.Rows.{
  is_none, is_free, item_at, count_none, has_some, is_past, new_rows_fit, check_new_rows,
}
use halyard.KeyedList.Rows.Places.{is_free-item_at}
use halyard.KeyedList.Work.Shown.{shown, shown-none, Rendering, Stands}
use halyard.KeyedList.Apply.{check_rows, truncate_rows}

-- Each index is past the one before it.
abbrev Ascending : Option ℕ → List ℕ → Type 0
Ascending previous [] = Unit
Ascending previous (x ∷ xs) = (is_past previous x ≡ true) × Ascending (some x) xs

Ascending-concat :
    (previous : Option ℕ) (xs : List ℕ) (x : ℕ)
    → Ascending previous xs
    → is_past previous x ≡ true
    → ((y : ℕ) → memb y xs ≡ true → y < x)
    → Ascending previous (xs ++ x ∷ [])
Ascending-concat previous [] x a past below = (past, tt)
Ascending-concat previous (y ∷ ys) x a past below = (
  a.0,
  Ascending-concat (some y) ys x a.1 (let lt = below y (ground arith) in ground arith)
      (λ z z_in. below z (ground arith)),
)

upto-Ascending : (p : ℕ → Bool) (n : ℕ) → Ascending none (upto p n)
unfolding upto
upto-Ascending p zero = tt
upto-Ascending p (suc n) = elim (Bool-cases (p n)) [
  | inl e ↦ rw e (
      Ascending-concat none (upto p n) n (upto-Ascending p n) refl
        (λ y y_in. ground (arith, memb-upto p y n)))
  | inr e ↦ rw e (upto-Ascending p n)
]

module _ {A : Type 0} where
  count_none-take :
      (xs : List (Option A)) (m : ℕ)
      → m ≤ length xs
      → count_none (take m xs) ≡ count (λ i. is_none (item_at xs i)) m
  unfolding count
  count_none-take xs zero h = refl
  count_none-take [] (suc m) h = absurd (omega arith)
  count_none-take (none ∷ xs) (suc m) h =
      ap suc (count_none-take xs m (omega arith))
      ∙ sym (count_head (λ i. is_none (item_at (none ∷ xs) i)) m)
  count_none-take (some x ∷ xs) (suc m) h =
      count_none-take xs m (omega arith)
      ∙ sym (count_head (λ i. is_none (item_at (some x ∷ xs) i)) m)

  has_some-drop :
      (xs : List (Option A)) (m : ℕ)
      → ((j : ℕ) → m ≤ j → item_at xs j ≡ none)
      → has_some (drop m xs) ≡ false
  has_some-drop [] zero h = refl
  has_some-drop [] (suc m) h = refl
  has_some-drop (none ∷ xs) zero h = has_some-drop xs zero (λ j le. h (suc j) (omega arith))
  has_some-drop (some x ∷ xs) zero h = let first = h zero (omega arith) in cc
  has_some-drop (x ∷ xs) (suc m) h = has_some-drop xs m (λ j le. h (suc j) (omega arith))

  pub length-take : (xs : List A) (m : ℕ) → m ≤ length xs → length (take m xs) ≡ m
  length-take xs zero h = refl
  length-take [] (suc m) h = absurd (omega arith)
  length-take (x ∷ xs) (suc m) h = ap suc (length-take xs m (omega arith))

  pub item_at-take : (xs : List (Option A)) (m j : ℕ) → j < m → item_at (take m xs) j ≡ item_at xs j
  item_at-take xs zero j h = absurd (omega arith)
  item_at-take [] (suc m) j h = refl
  item_at-take (x ∷ xs) (suc m) zero h = refl
  item_at-take (x ∷ xs) (suc m) (suc j) h = item_at-take xs m j (omega arith)

module _ {A B : Type 0} where
  fit-Ascending :
      (places : List (Option A)) (items : List (Option B)) (previous : Option ℕ)
      (added : List DiffOpAdd)
      → Ascending previous (ats added)
      → ((j : ℕ)
          → memb j (ats added) ≡ true
          → (is_free places j ≡ true) × (is_none (item_at items j) ≡ false))
      → new_rows_fit places items previous added ≡ true
  unfolding new_rows_fit
  fit-Ascending places items previous [] a h = refl
  fit-Ascending places items previous (add ∷ added) a h =
      let (free, there) = h add.at (ground arith) in
      let ih = fit-Ascending places items (some add.at) added a.1 (λ j j_in. h j (ground arith)) in
      rw (a.0, free, there, ih) refl

module _ (ops : ListOps) (ls : Labels ops) where
  open ops use {Item}
  open ls use {Label}

  is_none-shown : (o : Option ops.Row) → is_none (shown ops ls o) ≡ is_none o
  is_none-shown none = refl
  is_none-shown (some row) = refl

  -- The free places below `m` are those of the additions, there is an item for each, and no row is past
  -- `m`.
  pub record Awaits (m : ℕ) (f : ℕ → Option Label) (left : ℕ → Option Item) (added : List DiffOpAdd)
      (q : ℕ → Bool) : Type 0 where
    pub chosen_ats : ats added ≡ upto q m
    pub free : (j : ℕ) → j < m → is_none (f j) ≡ q j
    pub past_end : (j : ℕ) → m ≤ j → f j ≡ none
    pub supplied : (j : ℕ) → j < m → q j ≡ true → is_none (left j) ≡ false

  pub check_rows-ok :
      (plan : Diff) (m : ℕ) (w : Rendering ops ls) (n k : ℕ) (f g : ℕ → Option Label)
      (left : ℕ → Option Item) (q : ℕ → Bool)
      → m ≤ n
      → Stands ops ls w n f k g left
      → Awaits m f left plan.added q
      → check_rows ops plan m w ≡ (ok tt, w)
  unfolding check_rows check_new_rows
  check_rows-ok plan m w n k f g left q le s a =
      let enough : m ≤ length w.rows = omega (arith, s.places) in
      let room : ltb (length w.rows) m ≡ false = ground arith in
      let row_none : (j : ℕ) → is_none (item_at w.rows j) ≡ is_none (f j) =
        λ j. sym (is_none-shown (item_at w.rows j)) ∙ ap is_none (s.shows j) in
      let none_left : has_some (drop m w.rows) ≡ false =
        has_some-drop w.rows m
          (λ j past. shown-none ops ls (item_at w.rows j) (s.shows j ∙ a.past_end j past)) in
      let as_many : count_none (take m w.rows) ≡ length plan.added =
        count_none-take w.rows m enough
        ∙ count_ext (λ i. is_none (item_at w.rows i)) q m (λ i lt. row_none i ∙ a.free i lt)
        ∙ sym (length-upto q m)
        ∙ sym (ap length a.chosen_ats)
        ∙ length-ats plan.added in
      let equal : (count_none (take m w.rows) == length plan.added) ≡ true = ground arith in
      let places_free : (j : ℕ)
          → memb j (ats plan.added) ≡ true
          → (is_free (take m w.rows) j ≡ true) × (is_none (item_at w.items j) ≡ false) =
        λ j j_in.
          let in_upto = sym (memb-upto q j m) ∙ sym (ap (memb j) a.chosen_ats) ∙ j_in in
          let lt : j < m = ground arith in
          let chosen : q j ≡ true = ground arith in
          let is_none_row : is_none (item_at w.rows j) ≡ true = row_none j ∙ a.free j lt ∙ chosen in
          (
            is_free-item_at (take m w.rows) j (omega (arith, length-take w.rows m enough))
                (item_at-take w.rows m j lt ∙ none-is_none (item_at w.rows j) is_none_row),
            ap is_none (s.leaves j) ∙ a.supplied j lt chosen,
          ) in
      let fit : new_rows_fit (take m w.rows) w.items none plan.added ≡ true =
        fit-Ascending (take m w.rows) w.items none plan.added
          (subst (Ascending none) (sym a.chosen_ats) (upto-Ascending q m)) places_free in
      rw (check_rows, check_new_rows, room, none_left, equal, fit) refl
    where
      none-is_none : (o : Option ops.Row) → is_none o ≡ true → o ≡ none
      none-is_none none h = refl
      none-is_none (some row) h = cc

  pub truncate_rows-Stands :
      (m : ℕ) (w : Rendering ops ls) (n k : ℕ) (f g : ℕ → Option Label) (left : ℕ → Option Item)
      → m ≤ n
      → Stands ops ls w n f k g left
      → (w' : Rendering ops ls) × (truncate_rows ops m w ≡ (ok tt, w'))
        × (length w'.rows ≡ m)
        × ((j : ℕ) → j < m → shown ops ls (item_at w'.rows j) ≡ f j)
  unfolding truncate_rows
  truncate_rows-Stands m w n k f g left le s = (
    record w { rows = take m w.rows },
    refl,
    length-take w.rows m (omega (arith, s.places)),
    λ j lt. ap (shown ops ls) (item_at-take w.rows m j lt) ∙ s.shows j,
  )
