-- ===== src/KeyedList/Pages/Lists.antt =====
-- Lists of the rows on a page: one taken out, several taken out, and one put before another.
use halyard.Prelude.{
  ℕ, ◌≡◌, refl, ap, true, false, not, ◌&&◌, ◌||◌, Bool-cases, inl, inr, List, [], ◌∷◌, ◌==◌,
  if◌then◌else◌, arith,
}
use halyard.Prelude.Ranges.{memb}

abbrev pub without : ℕ → List ℕ → List ℕ
without x [] = []
without x (y ∷ ys) = if y == x then without x ys else y ∷ without x ys

abbrev pub without_all : List ℕ → List ℕ → List ℕ
without_all xs [] = []
without_all xs (y ∷ ys) = if memb y xs then without_all xs ys else y ∷ without_all xs ys

abbrev pub put_before : ℕ → ℕ → List ℕ → List ℕ
put_before x next [] = x ∷ []
put_before x next (y ∷ ys) = if y == next then x ∷ y ∷ ys else y ∷ put_before x next ys

pub memb-without : (j x : ℕ) (ys : List ℕ) → memb j (without x ys) ≡ (not (x == j) && memb j ys)
memb-without j x [] = ground arith
memb-without j x (y ∷ ys) = let ih = memb-without j x ys in ground arith

pub memb-without_all :
    (j : ℕ) (xs ys : List ℕ) → memb j (without_all xs ys) ≡ (not (memb j xs) && memb j ys)
memb-without_all j xs [] = ground arith
memb-without_all j xs (y ∷ ys) =
    let ih = memb-without_all j xs ys in
    elim (Bool-cases (y == j)) [
      | inl e ↦
          let same : y ≡ j = ground arith in
          let alike : memb y xs ≡ memb j xs = ap (λ q. memb q xs) same in ground arith
      | inr e ↦ ground arith
    ]

pub without_absent : (x : ℕ) (ys : List ℕ) → memb x ys ≡ false → without x ys ≡ ys
without_absent x [] h = refl
without_absent x (y ∷ ys) h =
    let off : (y == x) ≡ false = ground arith in
    rw off (ap (λ q. y ∷ q) (without_absent x ys (ground arith)))

pub without_all-without :
    (xs : List ℕ) (x : ℕ) (ys : List ℕ) → without_all xs (without x ys) ≡ without_all (x ∷ xs) ys
without_all-without xs x [] = refl
without_all-without xs x (y ∷ ys) =
    let ih = without_all-without xs x ys in
    elim (Bool-cases (y == x)) [
      | inl e ↦ let e' : (x == y) ≡ true = ground arith in rw (e, e') ih
      | inr e ↦
          let e' : (x == y) ≡ false = ground arith in
          elim (Bool-cases (memb y xs)) [
            | inl there ↦ rw (e, e', there) ih
            | inr off ↦ rw (e, e', off) (ap (λ q. y ∷ q) ih)
          ]
    ]

-- Only which ids are in the list counts.
pub without_all_ext :
    (xs xs' ys : List ℕ)
    → ((j : ℕ) → memb j xs ≡ memb j xs')
    → without_all xs ys ≡ without_all xs' ys
without_all_ext xs xs' [] h = refl
without_all_ext xs xs' (y ∷ ys) h = rw (h y, without_all_ext xs xs' ys h) refl

pub without_all_none : (ys : List ℕ) → ys ≡ without_all [] ys
without_all_none [] = refl
without_all_none (y ∷ ys) = ap (λ q. y ∷ q) (without_all_none ys)

without_all_subset :
    (xs ys : List ℕ) → ((j : ℕ) → memb j ys ≡ true → memb j xs ≡ true) → without_all xs ys ≡ []
without_all_subset xs [] h = refl
without_all_subset xs (y ∷ ys) h =
    rw (h y (ground arith)) (without_all_subset xs ys (λ j j_in. h j (ground arith)))

pub without_all_self : (xs : List ℕ) → without_all xs xs ≡ []
without_all_self xs = without_all_subset xs xs (λ j h. h)

pub memb-put_before :
    (j x next : ℕ) (ys : List ℕ) → memb j (put_before x next ys) ≡ (x == j || memb j ys)
memb-put_before j x next [] = refl
memb-put_before j x next (y ∷ ys) = let ih = memb-put_before j x next ys in ground arith
