-- ===== src/KeyedList/Rows/Places.antt =====
-- Lists of rows with free places: what stands where after an update of one.
use halyard.Prelude.{
  ℕ, zero, suc, ◌+◌, ◌<◌, ◌≡◌, refl, ap, ◌∙◌, true, Option, none, some, List, [], ◌∷◌, ◌++◌, ◌==◌,
  if◌then◌else◌, length, length-append, set, arith,
}
use halyard.KeyedList.Rows.{item_at, is_free, pad}

module _ {A : Type 0} where
  pub length-set : (xs : List A) (i : ℕ) (v : A) → length (set xs i v) ≡ length xs
  length-set [] i v = refl
  length-set (x ∷ xs) zero v = refl
  length-set (x ∷ xs) (suc i) v = ap suc (length-set xs i v)

  -- A function changed at one place.
  abbrev pub upd : (ℕ → Option A) → ℕ → Option A → ℕ → Option A
  upd f i v j = if i == j then v else f j

  pub item_at-set-none :
      (xs : List (Option A)) (i j : ℕ)
      → item_at (set xs i none) j ≡ (if i == j then none else item_at xs j)
  item_at-set-none [] i j = ground arith
  item_at-set-none (x ∷ xs) zero zero = refl
  item_at-set-none (x ∷ xs) zero (suc j) = ground arith
  item_at-set-none (x ∷ xs) (suc i) zero = ground arith
  item_at-set-none (x ∷ xs) (suc i) (suc j) = ground (arith, item_at-set-none xs i j)

  pub item_at-set :
      (xs : List (Option A)) (i j : ℕ) (v : Option A)
      → i < length xs
      → item_at (set xs i v) j ≡ (if i == j then v else item_at xs j)
  item_at-set [] i j v h = absurd (omega arith)
  item_at-set (x ∷ xs) zero zero v h = refl
  item_at-set (x ∷ xs) zero (suc j) v h = ground arith
  item_at-set (x ∷ xs) (suc i) zero v h = ground arith
  item_at-set (x ∷ xs) (suc i) (suc j) v h =
      let fits : i < length xs = omega arith in ground (arith, item_at-set xs i j v fits)

  pub item_at-append_none :
      (xs : List (Option A)) (j : ℕ) → item_at (xs ++ none ∷ []) j ≡ item_at xs j
  item_at-append_none [] zero = refl
  item_at-append_none [] (suc j) = refl
  item_at-append_none (x ∷ xs) zero = refl
  item_at-append_none (x ∷ xs) (suc j) = item_at-append_none xs j

  pub item_at-pad : (xs : List (Option A)) (n j : ℕ) → item_at (pad xs n) j ≡ item_at xs j
  item_at-pad xs zero j = refl
  item_at-pad xs (suc n) j = item_at-pad (xs ++ none ∷ []) n j ∙ item_at-append_none xs j

  pub length-pad : (xs : List (Option A)) (n : ℕ) → length (pad xs n) ≡ length xs + n
  length-pad xs zero = omega arith
  length-pad xs (suc n) =
      length-pad (xs ++ none ∷ []) n ∙ omega (arith, length-append xs (none ∷ []))

  pub is_free-item_at :
      (xs : List (Option A)) (i : ℕ) → i < length xs → item_at xs i ≡ none → is_free xs i ≡ true
  is_free-item_at [] i h e = absurd (omega arith)
  is_free-item_at (none ∷ xs) zero h e = refl
  is_free-item_at (some x ∷ xs) zero h e = cc
  is_free-item_at (x ∷ xs) (suc i) h e = is_free-item_at xs i (omega arith) e

  pub item_at-append :
      (xs : List (Option A)) (x : A) (j : ℕ)
      → item_at (xs ++ some x ∷ []) j ≡ (if length xs == j then some x else item_at xs j)
  item_at-append [] x zero = refl
  item_at-append [] x (suc j) = ground arith
  item_at-append (y ∷ xs) x zero = ground arith
  item_at-append (y ∷ xs) x (suc j) = ground (arith, item_at-append xs x j)
