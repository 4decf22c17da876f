-- ===== src/Prelude/Ranges.antt =====
-- Loops over the indices below a bound that collect those with a property.
pub mod Pairing
use Prim.Native.Nat.{ℕ, zero, suc, ◌+◌, ◌-◌, ◌≤◌, ◌<◌}
use mathlib.Core.Path.{◌≡◌, refl, sym, ap, ◌∙◌}
use mathlib.Core.Logic.{◌≢◌, inl, inr}
use mathlib.Core.Bool.{Bool, true, false, not, ◌&&◌, ◌||◌}
use mathlib.Core.List.{List, [], ◌∷◌, ◌++◌}
use native.Mathlib.Omega.{arith}
use halyard.Prelude.Tests.{ltb, ◌==◌, if◌then◌else◌, Bool-cases}
use halyard.Prelude.Lists.{length, length-append}

unfoldable pub upto : (ℕ → Bool) → ℕ → List ℕ
upto p zero = []
upto p (suc n) = if p n then upto p n ++ n ∷ [] else upto p n

unfoldable pub count : (ℕ → Bool) → ℕ → ℕ
count p zero = 0
count p (suc n) = if p n then suc (count p n) else count p n

abbrev pub memb : ℕ → List ℕ → Bool
memb j [] = false
memb j (x ∷ xs) = x == j || memb j xs

abbrev pub AllDistinct : List ℕ → Type 0
AllDistinct [] = Unit
AllDistinct (x ∷ xs) = (memb x xs ≡ false) × AllDistinct xs

pub memb-append : (j : ℕ) (xs ys : List ℕ) → memb j (xs ++ ys) ≡ (memb j xs || memb j ys)
memb-append j [] ys = refl
memb-append j (x ∷ xs) ys = ground (arith, memb-append j xs ys)

pub AllDistinct-concat :
    (xs : List ℕ) (x : ℕ) → AllDistinct xs → memb x xs ≡ false → AllDistinct (xs ++ x ∷ [])
AllDistinct-concat [] x d h = (refl, tt)
AllDistinct-concat (y ∷ ys) x d h =
    (ground (arith, memb-append y ys (x ∷ [])), AllDistinct-concat ys x d.1 (ground arith))

pub memb-upto : (p : ℕ → Bool) (j n : ℕ) → memb j (upto p n) ≡ (ltb j n && p j)
unfolding upto
memb-upto p j zero = ground arith
memb-upto p j (suc n) =
    let ih = memb-upto p j n in
    elim (Bool-cases (n == j)) [
      | inl here ↦
          let same : n ≡ j = ground arith in
          elim (Bool-cases (p n)) [
            | inl yes_n ↦ rw yes_n (ground (arith, memb-append j (upto p n) (n ∷ []), ap p same))
            | inr no_n ↦ rw no_n (ground (arith, ap p same))
          ]
      | inr there ↦ elim (Bool-cases (p n)) [
        | inl yes_n ↦ rw yes_n (ground (arith, memb-append j (upto p n) (n ∷ [])))
        | inr no_n ↦ rw no_n (ground arith)
      ]
    ]

pub upto-AllDistinct : (p : ℕ → Bool) (n : ℕ) → AllDistinct (upto p n)
unfolding upto
upto-AllDistinct p zero = tt
upto-AllDistinct p (suc n) = elim (Bool-cases (p n)) [
  | inl e ↦
      rw e
        (AllDistinct-concat (upto p n) n (upto-AllDistinct p n) (ground (arith, memb-upto p n n)))
  | inr e ↦ rw e (upto-AllDistinct p n)
]

pub length-upto : (p : ℕ → Bool) (n : ℕ) → length (upto p n) ≡ count p n
unfolding upto count
length-upto p zero = refl
length-upto p (suc n) = elim (Bool-cases (p n)) [
  | inl e ↦ rw e (length-append (upto p n) (n ∷ []) ∙ omega (arith, length-upto p n))
  | inr e ↦ rw e (length-upto p n)
]

pub upto_ext : (p q : ℕ → Bool) (n : ℕ) → ((i : ℕ) → i < n → p i ≡ q i) → upto p n ≡ upto q n
unfolding upto
upto_ext p q zero h = refl
upto_ext p q (suc n) h =
    let ih = upto_ext p q n (λ i lt. h i (omega arith)) in rw (h n (omega arith), ih) refl

pub count_ext : (p q : ℕ → Bool) (n : ℕ) → ((i : ℕ) → i < n → p i ≡ q i) → count p n ≡ count q n
unfolding count
count_ext p q zero h = refl
count_ext p q (suc n) h =
    let ih = count_ext p q n (λ i lt. h i (omega arith)) in rw (h n (omega arith), ih) refl

pub upto_stable :
    (p : ℕ → Bool) (n more : ℕ) → ((i : ℕ) → n ≤ i → p i ≡ false) → upto p (more + n) ≡ upto p n
unfolding upto
upto_stable p n zero h = ap (upto p) (omega arith)
upto_stable p n (suc more) h =
    let next : suc more + n ≡ suc (more + n) = omega arith in
    let ih = upto_stable p n more h in ap (upto p) next ∙ rw (h (more + n) (omega arith)) ih

pub count_head :
    (p : ℕ → Bool) (n : ℕ)
    → count p (suc n) ≡ (if p 0 then suc (count (λ i. p (suc i)) n) else count (λ i. p (suc i)) n)
unfolding count
count_head p zero = ground arith
count_head p (suc n) = let ih = count_head p n in ground arith

pub count_all : (n : ℕ) (p : ℕ → Bool) → count p n + count (λ i. not (p i)) n ≡ n
unfolding count
count_all zero p = omega arith
count_all (suc n) p =
    let ih = count_all n p in
    elim (Bool-cases (p n)) [ inl e ↦ rw e (omega arith) | inr e ↦ rw e (omega arith) ]

pub upto_shrink :
    (p : ℕ → Bool) (n m : ℕ) → n ≤ m → ((i : ℕ) → n ≤ i → p i ≡ false) → upto p m ≡ upto p n
upto_shrink p n m le h =
    let split : m ≡ (m - n) + n = omega arith in ap (upto p) split ∙ upto_stable p n (m - n) h
