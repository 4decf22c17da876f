-- ===== src/Prelude/Ranges/Pairing.antt =====
-- Two partial functions that undo each other have as many values.
use Prim.Native.Nat.{ℕ, zero, suc, ◌<◌}
use mathlib.Core.Path.{◌≡◌, refl, sym, ap, ◌∙◌, subst}
use mathlib.Core.Logic.{inl, inr}
use mathlib.Core.Bool.{Bool, true, false}
use mathlib.Core.Option.{Option, none, some}
use native.Mathlib.Omega.{arith}
use halyard.Prelude.Tests.{◌==◌, if◌then◌else◌, Bool-cases, Option-cases}
use halyard.Prelude.Ranges.{count, count_ext}

abbrev pub is_some {ℓ} : {A : Type ℓ} → Option A → Bool
is_some none = false
is_some (some _) = true

pub record Paired (f : ℕ → Option ℕ) (n : ℕ) (g : ℕ → Option ℕ) (m : ℕ) : Type 0 where
  pub there : (i j : ℕ) → i < n → f i ≡ some j → (j < m) × (g j ≡ some i)
  pub back : (j i : ℕ) → j < m → g j ≡ some i → (i < n) × (f i ≡ some j)

count_zero : (p : ℕ → Bool) (n : ℕ) → ((i : ℕ) → i < n → p i ≡ false) → count p n ≡ 0
unfolding count
count_zero p zero h = refl
count_zero p (suc n) h = rw (h n (omega arith)) (count_zero p n (λ i lt. h i (omega arith)))

count_drop :
    (p : ℕ → Bool) (j m : ℕ)
    → j < m
    → p j ≡ true
    → count p m ≡ suc (count (λ i. if i == j then false else p i) m)
unfolding count
count_drop p j zero lt h = absurd (omega arith)
count_drop p j (suc m) lt h = elim (Bool-cases (m == j)) [
  | inl here ↦
      let same : j ≡ m = ground arith in
      let same_count : count p m ≡ count (λ i. if i == j then false else p i) m =
        count_ext p (λ i. if i == j then false else p i) m
          (λ i lt'. let off : (i == j) ≡ false = ground arith in rw off refl) in
      let at_m : p m ≡ true = subst (λ q. p q ≡ true) same h in rw (at_m, here) (ap suc same_count)
  | inr there ↦
      let ih = count_drop p j m (ground arith) h in
      elim (Bool-cases (p m)) [ inl e ↦ rw (e, there) (ap suc ih) | inr e ↦ rw (e, there) ih ]
]

without : (ℕ → Option ℕ) → ℕ → ℕ → Option ℕ
without g j i = if i == j then none else g i

without-Paired :
    (f : ℕ → Option ℕ) (n : ℕ) (g : ℕ → Option ℕ) (m j : ℕ)
    → Paired f (suc n) g m
    → f n ≡ some j
    → Paired f n (without g j) m
unfolding without
without-Paired f n g m j h e = record {
  there = λ i k lt fi.
      let (k_lt, gk) = h.there i k (omega arith) fi in
      let gj = (h.there n j (omega arith) e).1 in
      elim (Bool-cases (k == j)) [
        | inl same ↦
            let k_j : k ≡ j = ground arith in
            let both : some i ≡ some n = sym gk ∙ ap g k_j ∙ gj in
            let i_n : i ≡ n = cc in absurd (omega arith)
        | inr off ↦ (k_lt, rw off gk)
      ];
  back = λ k i lt gk. elim (Bool-cases (k == j)) [
    | inl same ↦ let lost : none ≡ some i = rw same at gk in cc
    | inr off ↦
        let (i_lt, fi) = h.back k i lt (rw off at gk) in
        elim (Bool-cases (i == n)) [
          | inl last ↦
              let i_n : i ≡ n = ground arith in
              let both : some k ≡ some j = sym fi ∙ ap f i_n ∙ e in
              let k_j : k ≡ j = cc in absurd (ground arith)
          | inr earlier ↦ (ground arith, fi)
        ]
  ];
}

pub count-Paired :
    (n m : ℕ) (f g : ℕ → Option ℕ)
    → Paired f n g m
    → count (λ i. is_some (f i)) n ≡ count (λ j. is_some (g j)) m
unfolding count without
count-Paired zero m f g h = sym (
    count_zero (λ j. is_some (g j)) m
      (λ j lt. elim (Option-cases (g j)) [
        | inl e ↦ rw e refl
        | inr (i, e) ↦ absurd (omega (arith, (h.back j i lt e).0))
      ]))
count-Paired (suc n) m f g h = elim (Option-cases (f n)) [
  | inl e ↦
      let smaller : Paired f n g m = record {
        there = λ i j lt fi. h.there i j (omega arith) fi;
        back = λ j i lt gj.
            let (i_lt, fi) = h.back j i lt gj in
            elim (Bool-cases (i == n)) [
              | inl last ↦
                  let i_n : i ≡ n = ground arith in
                  let lost : some j ≡ none = sym fi ∙ ap f i_n ∙ e in cc
              | inr earlier ↦ (ground arith, fi)
            ];
      } in
      rw e (count-Paired n m f g smaller)
  | inr (j, e) ↦
      let (j_lt, gj) = h.there n j (omega arith) e in
      let some_j : is_some (g j) ≡ true = rw gj refl in
      let dropped = count_drop (λ k. is_some (g k)) j m j_lt some_j in
      let same =
        count_ext (λ k. is_some (without g j k)) (λ k. if k == j then false else is_some (g k)) m
          (λ k lt. is_some-without g j k) in
      let ih = count-Paired n m f (without g j) (without-Paired f n g m j h e) in
      rw e (ap suc (ih ∙ same) ∙ sym dropped)
]
  where
    is_some-without :
        (g : ℕ → Option ℕ) (j k : ℕ)
        → is_some (without g j k) ≡ (if k == j then false else is_some (g k))
    is_some-without g j k = elim (Bool-cases (k == j)) [ inl e ↦ rw e refl | inr e ↦ rw e refl ]
