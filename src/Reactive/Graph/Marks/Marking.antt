-- ===== src/Reactive/Graph/Marks/Marking.antt =====
-- What `mark_check` and `mark_dirty` mark.
use halyard.Prelude.{
  ℕ, suc, ◌≡◌, ◌⊎◌, refl, sym, ap, ◌∙◌, subst, true, Bool-cases, inl, inr, Option, some,
  Option-cases, List, [], ◌∷◌, ◌==◌, if◌then◌else◌, arith,
}
use halyard.Prelude.Ranges.{memb}
use halyard.Reactive.Graph.{
  IndexSets, Node, signal, memo, effect, Graph, put, checked_state, mark_each, mark_check,
}
use halyard.Reactive.Graph.Marks.{
  Mark, to_check, marked, nexts, IsMarked, Never, IsMarked-none, IsMarked-both, IsMarked-ext,
}

module _ (sets : IndexSets) where
  open sets use {items}

  -- The first step of a mark: the node itself is marked.
  abbrev pub MarksNode : Mark → ℕ → Graph sets → Graph sets → Type 0
  MarksNode l id g g1 = (j : ℕ) → g1 j ≡ (if id == j then marked sets l (g j) else g j)

  pub put-MarksNode :
      (l : Mark) (id : ℕ) (g : Graph sets) (node node' : Node sets)
      → g id ≡ some node
      → marked sets l (some node) ≡ some node'
      → MarksNode l id g (put sets id node' g)
  put-MarksNode l id g node node' at is j = elim (Bool-cases (id == j)) [
    | inl e ↦
        let same : id ≡ j = ground arith in
        rw e (sym (ap (marked sets l) (sym (ap g same) ∙ at) ∙ is))
    | inr e ↦ rw e refl
  ]

  pub same-MarksNode :
      (l : Mark) (id : ℕ) (g : Graph sets) → marked sets l (g id) ≡ g id → MarksNode l id g g
  same-MarksNode l id g is j = elim (Bool-cases (id == j)) [
    | inl e ↦
        let same : id ≡ j = ground arith in
        rw e (subst (λ q. g q ≡ marked sets l (g q)) same (sym is))
    | inr e ↦ rw e refl
  ]

  pub mark_check-step :
      (fuel id : ℕ) (g : Graph sets)
      → (g1 : Graph sets) × (mark_check sets (suc fuel) id g
          ≡ mark_each sets (mark_check sets fuel) (nexts sets (g id)) g1)
        × MarksNode to_check id g g1
  unfolding mark_check mark_each
  mark_check-step fuel id g = elim (Option-cases (g id)) [
    | inl e ↦ (g, rw (e, mark_check) refl, same-MarksNode to_check id g (rw e refl))
    | inr (node, e) ↦ step node e
  ]
    where
      step :
          (node : Node sets)
          → g id ≡ some node
          → (g1 : Graph sets) × (mark_check sets (suc fuel) id g
              ≡ mark_each sets (mark_check sets fuel) (nexts sets (g id)) g1)
            × MarksNode to_check id g g1
      step (signal subs) e = (g, rw (e, mark_check) refl, same-MarksNode to_check id g (rw e refl))
      step (memo m) e =
          let node' : Node sets = memo (record m { state = checked_state m.state }) in
          (
            put sets id node' g,
            rw (e, mark_check) refl,
            put-MarksNode to_check id g (memo m) node' e refl,
          )
      step (effect x) e =
          let node' : Node sets = effect (record x { notified = true }) in
          (
            put sets id node' g,
            rw (e, mark_check) refl,
            put-MarksNode to_check id g (effect x) node' e refl,
          )

  -- A loop over subscribers adds up what its steps mark.
  pub mark_each-IsMarked :
      (f : ℕ → Graph sets → Option (Graph sets)) (d c : ℕ → ℕ → Type 0) (inv : Graph sets → Type 0)
      → ((d' c' : ℕ → Type 0) (g g' : Graph sets) → IsMarked sets d' c' g g' → inv g → inv g')
      → (subs : List ℕ)
      → ((k : ℕ) (g : Graph sets)
          → memb k subs ≡ true
          → inv g
          → (g' : Graph sets) × (f k g ≡ some g') × IsMarked sets (d k) (c k) g g')
      → (g : Graph sets) → inv g
      → (g' : Graph sets) × (mark_each sets f subs g ≡ some g')
        × IsMarked sets
            (λ j. (k : ℕ) × (memb k subs ≡ true) × d k j)
            (λ j. (k : ℕ) × (memb k subs ≡ true) × c k j)
            g
            g'
  unfolding mark_each
  mark_each-IsMarked f d c inv keeps [] h g i = (
    g,
    refl,
    IsMarked-ext sets (Never sets) (Never sets) (λ j. (k : ℕ) × (memb k [] ≡ true) × d k j)
        (λ j. (k : ℕ) × (memb k [] ≡ true) × c k j) g g (λ j (k, at, x). absurd cc)
        (λ j x. absurd cc) (λ j (k, at, x). absurd cc)
        (λ j x. elim x [ inl y ↦ absurd cc | inr y ↦ absurd cc ]) (IsMarked-none sets g),
  )
  mark_each-IsMarked f d c inv keeps (sub ∷ subs) h g i =
      let (g1, e1, m1) = h sub g (ground arith) i in
      let (g2, e2, m2) =
        mark_each-IsMarked f d c inv keeps subs (λ k g' at. h k g' (ground arith)) g1
          (keeps (d sub) (c sub) g g1 m1 i) in
      let rest_d : ℕ → Type 0 = λ j. (k : ℕ) × (memb k subs ≡ true) × d k j in
      let rest_c : ℕ → Type 0 = λ j. (k : ℕ) × (memb k subs ≡ true) × c k j in
      (
        g2,
        rw (e1, mark_each) e2,
        IsMarked-ext sets (λ j. d sub j ⊎ rest_d j) (λ j. c sub j ⊎ rest_c j)
            (λ j. (k : ℕ) × (memb k (sub ∷ subs) ≡ true) × d k j)
            (λ j. (k : ℕ) × (memb k (sub ∷ subs) ≡ true) × c k j) g g2 (λ j. from_each d j)
            (λ j. to_each d j) (λ j x. inr (from_each c j x))
            (λ j x. elim x [ inl y ↦ inl (to_each d j y) | inr y ↦ inr (to_each c j y) ])
            (IsMarked-both sets (d sub) (c sub) rest_d rest_c g g1 g2 m1 m2),
      )
    where
      from_each :
          (p : ℕ → ℕ → Type 0) (j : ℕ)
          → (k : ℕ) × (memb k (sub ∷ subs) ≡ true) × p k j
          → p sub j ⊎ ((k : ℕ) × (memb k subs ≡ true) × p k j)
      from_each p j (k, at, x) = elim (Bool-cases (sub == k)) [
        | inl e ↦ let same : k ≡ sub = ground arith in inl (subst (λ q. p q j) same x)
        | inr e ↦ inr (k, ground arith, x)
      ]

      to_each :
          (p : ℕ → ℕ → Type 0) (j : ℕ)
          → p sub j ⊎ ((k : ℕ) × (memb k subs ≡ true) × p k j)
          → (k : ℕ) × (memb k (sub ∷ subs) ≡ true) × p k j
      to_each p j (inl x) = (sub, ground arith, x)
      to_each p j (inr (k, at, x)) = (k, ground arith, x)
