-- ===== src/KeyedList/Pages/Counts.antt =====
-- Sums over the rows that are there: what taking a row out of a vector of rows, or putting one in, does to them.
use halyard.Prelude.{
  ℕ, zero, suc, ◌+◌, ◌≤◌, ◌<◌, ◌≡◌, refl, ap, ◌∙◌, Bool, true, false, Option, none, some, List, [],
  ◌∷◌, ◌++◌, ◌==◌, if◌then◌else◌, length, set, take, drop, arith,
}
use halyard.KeyedList.{ListOps}
use halyard.KeyedList.Rows.{item_at, first_some, pad, has_some, is_free}
use halyard.KeyedList.Pages.{Pages, ids}

abbrev pub bit : Bool → ℕ
bit b = if b then 1 else 0

abbrev pub total : (ℕ → ℕ) → List ℕ → ℕ
total f [] = 0
total f (x ∷ xs) = f x + total f xs

-- How often `j` occurs.
abbrev pub occurrences : ℕ → List ℕ → ℕ
occurrences j = total (λ x. bit (x == j))

abbrev pub each_once : ℕ → ℕ
each_once x = 1

pub is_free-inside :
    {A : Type 0} (xs : List (Option A)) (i : ℕ)
    → is_free xs i ≡ true
    → (i < length xs) × (item_at xs i ≡ none)
is_free-inside [] i h = absurd cc
is_free-inside (none ∷ xs) zero h = (omega arith, refl)
is_free-inside (some x ∷ xs) zero h = absurd cc
is_free-inside (x ∷ xs) (suc i) h = let ih = is_free-inside xs i h in (omega (arith, ih.0), ih.1)

module _ (ops : ListOps) (pages : Pages ops) (f : ℕ → ℕ) where
  open ops use {Row}
  open pages use {id}

  abbrev sum : List (Option Row) → ℕ
  sum rows = total f (ids ops pages rows)

  pub total-take :
      (rows : List (Option Row)) (at : ℕ) (row : Row)
      → item_at rows at ≡ some row
      → f (id row) + sum (set rows at none) ≡ sum rows
  total-take [] at row h = absurd cc
  total-take (none ∷ rows) zero row h = absurd cc
  total-take (some r ∷ rows) zero row h =
      let same : row ≡ r = cc in ap (λ q. f (id q) + sum rows) same
  total-take (none ∷ rows) (suc at) row h = total-take rows at row h
  total-take (some r ∷ rows) (suc at) row h = let ih = total-take rows at row h in omega arith

  pub total-put :
      (rows : List (Option Row)) (at : ℕ) (row : Row)
      → at < length rows
      → item_at rows at ≡ none
      → sum (set rows at (some row)) ≡ f (id row) + sum rows
  total-put [] at row lt h = absurd (omega arith)
  total-put (none ∷ rows) zero row lt h = refl
  total-put (some r ∷ rows) zero row lt h = absurd cc
  total-put (none ∷ rows) (suc at) row lt h = total-put rows at row (omega arith) h
  total-put (some r ∷ rows) (suc at) row lt h =
      let ih = total-put rows at row (omega arith) h in omega arith

  pub total-push :
      (rows : List (Option Row)) (row : Row) → sum (rows ++ some row ∷ []) ≡ f (id row) + sum rows
  total-push [] row = refl
  total-push (none ∷ rows) row = total-push rows row
  total-push (some r ∷ rows) row = let ih = total-push rows row in omega arith

  total-append_none : (rows : List (Option Row)) → sum (rows ++ none ∷ []) ≡ sum rows
  total-append_none [] = refl
  total-append_none (none ∷ rows) = total-append_none rows
  total-append_none (some r ∷ rows) = let ih = total-append_none rows in omega arith

  pub total-pad : (rows : List (Option Row)) (n : ℕ) → sum (pad rows n) ≡ sum rows
  total-pad rows zero = refl
  total-pad rows (suc n) = total-pad (rows ++ none ∷ []) n ∙ total-append_none rows

  total-none : (rows : List (Option Row)) → has_some rows ≡ false → sum rows ≡ 0
  total-none [] h = refl
  total-none (none ∷ rows) h = total-none rows h
  total-none (some r ∷ rows) h = absurd cc

  pub total-truncate :
      (rows : List (Option Row)) (n : ℕ)
      → has_some (drop n rows) ≡ false
      → sum (take n rows) ≡ sum rows
  total-truncate rows zero h = let none_left = total-none rows h in omega arith
  total-truncate [] (suc n) h = refl
  total-truncate (none ∷ rows) (suc n) h = total-truncate rows n h
  total-truncate (some r ∷ rows) (suc n) h = let ih = total-truncate rows n h in omega arith

module _ (ops : ListOps) (pages : Pages ops) where
  open ops use {Row}
  open pages use {id}

  first_some-occurs :
      (rows : List (Option Row)) (next : Row)
      → first_some rows ≡ some next
      → 1 ≤ occurrences (id next) (ids ops pages rows)
  first_some-occurs [] next h = absurd cc
  first_some-occurs (none ∷ rows) next h = first_some-occurs rows next h
  first_some-occurs (some r ∷ rows) next h =
      let found : r ≡ next = cc in
      let same : id r ≡ id next = ap id found in
      let here : (id r == id next) ≡ true = ground arith in rw here (omega arith)

  pub anchor-occurs :
      (n : ℕ) (rows : List (Option Row)) (next : Row)
      → first_some (drop n rows) ≡ some next
      → 1 ≤ occurrences (id next) (ids ops pages rows)
  anchor-occurs zero rows next h = first_some-occurs rows next h
  anchor-occurs (suc n) [] next h = absurd cc
  anchor-occurs (suc n) (none ∷ rows) next h = anchor-occurs n rows next h
  anchor-occurs (suc n) (some r ∷ rows) next h = let ih = anchor-occurs n rows next h in omega arith
