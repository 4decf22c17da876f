-- ===== src/Router/Optionals/Expansion.antt =====
-- The expansion ends, and gives each choice of optional parameters once.
use halyard.Prelude.{
  ℕ, zero, suc, ◌+◌, ◌≡◌, inl, inr, refl, sym, ap, ◌∙◌, subst, none, some, Option-cases, List, [],
  ◌∷◌, ◌++◌, map, set, All, arith,
}
use mathlib.Core.Option.{some-injective}
use mathlib.Core.List.{append_assoc, map-append}
use halyard.Prelude.Bytes.{Bytes}
use halyard.Router.Segments.{PathSegment, unit, static, optional_param, param, splat}
use halyard.Router.Optionals.{
  Segments, first_optional, remove, expand_loop, count_optionals, rounds, expand_optionals,
}

-- Each optional parameter is a parameter, or is left out; the routes that have it come first.
abbrev pub choices : Segments → List Segments
choices [] = [] ∷ []
choices (optional_param name ∷ segments) =
    map (λ rest. param name ∷ rest) (choices segments) ++ choices segments
choices (s ∷ segments) = map (λ rest. s ∷ rest) (choices segments)

-- No optional parameter is left.
abbrev pub IsPlain : Segments → Type 0
IsPlain segments = count_optionals segments ≡ 0

-- What is known of a route with an optional parameter first at `idx`.
record Expands (segments : Segments) (idx : ℕ) (name : Bytes) : Type 0 where
  with_it : suc (count_optionals (set segments idx (param name))) ≡ count_optionals segments
  without : suc (count_optionals (remove segments idx)) ≡ count_optionals segments
  both : choices segments ≡ choices (set segments idx (param name)) ++ choices (remove segments idx)

Expands-cons :
    (s : PathSegment) (segments : Segments) (idx : ℕ) (name : Bytes)
    → ((rest : Segments) → count_optionals (s ∷ rest) ≡ count_optionals rest)
    → ((rest : Segments) → choices (s ∷ rest) ≡ map (λ l. s ∷ l) (choices rest))
    → Expands segments idx name
    → Expands (s ∷ segments) (suc idx) name
unfolding remove
Expands-cons s segments idx name plain mapped e = record {
  with_it = ap suc (plain (set segments idx (param name))) ∙ e.with_it ∙ sym (plain segments);
  without = ap suc (plain (remove segments idx)) ∙ e.without ∙ sym (plain segments);
  both =
      mapped segments
      ∙ ap (map (λ l. s ∷ l)) e.both
      ∙ map-append (λ l. s ∷ l) (choices (set segments idx (param name)))
          (choices (remove segments idx))
      ∙ sym (rw (mapped (set segments idx (param name)), mapped (remove segments idx)) refl);
}

first_optional-Expands :
    (i : ℕ) (segments : Segments) (idx : ℕ) (name : Bytes)
    → first_optional i segments ≡ some (idx, name)
    → (k : ℕ) × (idx ≡ i + k) × Expands segments k name
unfolding first_optional count_optionals remove
first_optional-Expands i [] idx name h = cc
first_optional-Expands i (optional_param n ∷ segments) idx name h =
    let x : Expands (optional_param n ∷ segments) 0 n = record {
      with_it = refl;
      without = refl;
      both = refl;
    } in
    let pair : (i, n) ≡ (idx, name) = some-injective (i, n) (idx, name) h in
    (
      0,
      sym (ap (λ q. q.0) pair) ∙ omega arith,
      subst (λ q. Expands (optional_param n ∷ segments) 0 q) (ap (λ q. q.1) pair) x,
    )
first_optional-Expands i (unit ∷ segments) idx name h =
    let (k, e, x) = first_optional-Expands (suc i) segments idx name h in
    (suc k, omega arith, Expands-cons unit segments k name (λ _. refl) (λ _. refl) x)
first_optional-Expands i (static n ∷ segments) idx name h =
    let (k, e, x) = first_optional-Expands (suc i) segments idx name h in
    (suc k, omega arith, Expands-cons (static n) segments k name (λ _. refl) (λ _. refl) x)
first_optional-Expands i (param n ∷ segments) idx name h =
    let (k, e, x) = first_optional-Expands (suc i) segments idx name h in
    (suc k, omega arith, Expands-cons (param n) segments k name (λ _. refl) (λ _. refl) x)
first_optional-Expands i (splat n ∷ segments) idx name h =
    let (k, e, x) = first_optional-Expands (suc i) segments idx name h in
    (suc k, omega arith, Expands-cons (splat n) segments k name (λ _. refl) (λ _. refl) x)

first_optional-none :
    (i : ℕ) (segments : Segments)
    → first_optional i segments ≡ none
    → IsPlain segments × (choices segments ≡ segments ∷ [])
unfolding first_optional count_optionals
first_optional-none i [] h = (refl, refl)
first_optional-none i (optional_param n ∷ segments) h = cc
first_optional-none i (unit ∷ segments) h =
    let (p, c) = first_optional-none (suc i) segments h in (p, rw c refl)
first_optional-none i (static n ∷ segments) h =
    let (p, c) = first_optional-none (suc i) segments h in (p, rw c refl)
first_optional-none i (param n ∷ segments) h =
    let (p, c) = first_optional-none (suc i) segments h in (p, rw c refl)
first_optional-none i (splat n ∷ segments) h =
    let (p, c) = first_optional-none (suc i) segments h in (p, rw c refl)

-- A route on the stack is replaced by its choices, in `rounds` rounds.
expand_loop-choices :
    (n fuel : ℕ) (segments : Segments) (stack checked : List Segments)
    → count_optionals segments ≡ n
    → expand_loop (rounds n + fuel) (segments ∷ stack) checked
      ≡ expand_loop fuel stack (checked ++ choices segments)
unfolding expand_loop rounds
expand_loop-choices zero fuel segments stack checked h =
    let one_round : expand_loop (suc fuel) (segments ∷ stack) checked
        ≡ expand_loop fuel stack (checked ++ choices segments) =
      elim (Option-cases (first_optional 0 segments)) [
        | inl e ↦ let (p, c) = first_optional-none 0 segments e in rw (e, expand_loop, c) refl
        | inr ((idx, name), e) ↦
            let (k, at, x) = first_optional-Expands 0 segments idx name e in
            let one = x.with_it in absurd (omega arith)
      ] in
    let fuel_left : rounds zero + fuel ≡ suc fuel = omega arith in
    ap (λ q. expand_loop q (segments ∷ stack) checked) fuel_left ∙ one_round
expand_loop-choices (suc n) fuel segments stack checked h =
    let one_round : expand_loop (suc (rounds n + (rounds n + fuel))) (segments ∷ stack) checked
        ≡ expand_loop fuel stack (checked ++ choices segments) =
      elim (Option-cases (first_optional 0 segments)) [
        | inl e ↦ let (p, c) = first_optional-none 0 segments e in absurd (omega arith)
        | inr ((idx, name), e) ↦
            let (k, at, x) = first_optional-Expands 0 segments idx name e in
            let here : k ≡ idx = omega arith in
            let y : Expands segments idx name = subst (λ q. Expands segments q name) here x in
            let one = y.with_it in
            let two = y.without in
            let with_it = set segments idx (param name) in
            let without = remove segments idx in
            let first =
              expand_loop-choices n (rounds n + fuel) with_it (without ∷ stack) checked
                (omega arith) in
            let second =
              expand_loop-choices n fuel without stack (checked ++ choices with_it) (omega arith) in
            let collected = append_assoc checked (choices with_it) (choices without) in
            rw (e, expand_loop)
              (first
                ∙ second
                ∙ ap (expand_loop fuel stack) (collected ∙ ap (λ q. checked ++ q) (sym y.both)))
      ] in
    let fuel_left : rounds (suc n) + fuel ≡ suc (rounds n + (rounds n + fuel)) = omega arith in
    ap (λ q. expand_loop q (segments ∷ stack) checked) fuel_left ∙ one_round

All-append : (xs ys : List Segments) → All IsPlain xs → All IsPlain ys → All IsPlain (xs ++ ys)
All-append [] ys p q = q
All-append (x ∷ xs) ys p q = (p.0, All-append xs ys p.1 q)

All-cons_map :
    (s : PathSegment) (ls : List Segments)
    → ((rest : Segments) → IsPlain rest → IsPlain (s ∷ rest))
    → All IsPlain ls
    → All IsPlain (map (λ l. s ∷ l) ls)
All-cons_map s [] plain p = p
All-cons_map s (l ∷ ls) plain p = (plain l p.0, All-cons_map s ls plain p.1)

choices-IsPlain : (segments : Segments) → All IsPlain (choices segments)
unfolding count_optionals
choices-IsPlain [] = (refl, tt)
choices-IsPlain (optional_param n ∷ segments) =
    All-append _ _ (All-cons_map (param n) _ (λ _ p. p) (choices-IsPlain segments))
      (choices-IsPlain segments)
choices-IsPlain (unit ∷ segments) = All-cons_map unit _ (λ _ p. p) (choices-IsPlain segments)
choices-IsPlain (static n ∷ segments) =
    All-cons_map (static n) _ (λ _ p. p) (choices-IsPlain segments)
choices-IsPlain (param n ∷ segments) =
    All-cons_map (param n) _ (λ _ p. p) (choices-IsPlain segments)
choices-IsPlain (splat n ∷ segments) =
    All-cons_map (splat n) _ (λ _ p. p) (choices-IsPlain segments)

-- `expand_optionals` ends on every route, in the fuel of the model. It gives the choices of the
-- route's optional parameters, each as a parameter or left out, the routes that have the first one
-- before those that do not, and no optional parameter is left in any of them.
pub expand_optionals-choices :
    (segments : Segments)
    → (expand_optionals segments ≡ some (choices segments)) × All IsPlain (choices segments)
unfolding expand_optionals expand_loop
expand_optionals-choices segments =
    let n = rounds (count_optionals segments) in
    let fuel_left : n ≡ n + 0 = omega arith in
    (
      ap (λ q. expand_loop q (segments ∷ []) []) fuel_left
          ∙ expand_loop-choices (count_optionals segments) 0 segments [] [] refl,
      choices-IsPlain segments,
    )
