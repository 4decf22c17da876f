-- ===== src/Reactive/Graph/Marks/Reached.antt =====
-- A change marks the nodes that it reaches, and no others.
use halyard.Prelude.{
  ℕ, zero, suc, ◌<◌, ◌≡◌, ◌⊎◌, refl, sym, ap, ◌∙◌, subst, Bool, true, false, inl, inr, Option, none,
  some, Option-cases, List, arith,
}
use halyard.Prelude.Ranges.{memb}
use halyard.Reactive.Graph.{
  IndexSets, dirty, Node, signal, memo, effect, Graph, put, mark_each, mark_check, mark_dirty,
}
use halyard.Reactive.Graph.Marks.{
  Mark, to_check, to_dirty, marked, nexts, IsMarked, Never, IsMarked-both, IsMarked-ext,
  IsMarked-put,
}
use halyard.Reactive.Graph.Marks.Reach.{
  Reaches, here, onward, Reaches-split, FromEach, Ranked, next_of, next_of-marked,
}
use halyard.Reactive.Graph.Marks.Marking.{
  MarksNode, put-MarksNode, same-MarksNode, mark_check-step, mark_each-IsMarked,
}

module _ (sets : IndexSets) where
  open sets use {items}

  abbrev pub is_signal : Option (Node sets) → Bool
  is_signal (some (signal subs)) = true
  is_signal _ = false

  is_signal-marked : (l : Mark) (o : Option (Node sets)) → is_signal (marked sets l o) ≡ is_signal o
  is_signal-marked l none = refl
  is_signal-marked l (some (signal subs)) = refl
  is_signal-marked l (some (memo m)) = refl
  is_signal-marked l (some (effect e)) = refl

  -- The subscribers of the graph's nodes are those of `next`.
  abbrev pub Along : (ℕ → List ℕ) → Graph sets → Type 0
  Along next g = (k : ℕ) → next_of sets g k ≡ next k

  Along-marked :
      (next : ℕ → List ℕ) (d c : ℕ → Type 0) (g g' : Graph sets)
      → IsMarked sets d c g g'
      → Along next g
      → Along next g'
  Along-marked next d c g g' m a k = sym (next_of-marked sets d c g g' m k) ∙ a k

  module _ (rank : ℕ → ℕ) (next : ℕ → List ℕ) (ranked : Ranked rank next) where
    check_each :
        (fuel : ℕ)
        → ((id : ℕ) (g : Graph sets)
            → rank id < fuel
            → Along next g
            → (g' : Graph sets) × (mark_check sets fuel id g ≡ some g')
              × IsMarked sets (Never sets) (Reaches next id) g g')
        → (subs : List ℕ) → ((k : ℕ) → memb k subs ≡ true → rank k < fuel)
        → (g : Graph sets) → Along next g
        → (g' : Graph sets) × (mark_each sets (mark_check sets fuel) subs g ≡ some g')
          × IsMarked sets (Never sets) (FromEach next subs) g g'
    check_each fuel one subs low g a =
        let (g', e, m) =
          mark_each-IsMarked sets (mark_check sets fuel) (λ k. Never sets) (Reaches next)
            (Along next) (Along-marked next) subs (λ k g at a. one k g (low k at) a) g a in
        (
          g',
          e,
          IsMarked-ext sets (λ j. (k : ℕ) × (memb k subs ≡ true) × Never sets j)
              (FromEach next subs) (Never sets) (FromEach next subs) g g' (λ j x. absurd cc)
              (λ j (k, at, y). y) (λ j x. inr x)
              (λ j x. elim x [ inl (k, at, y) ↦ inl y | inr y ↦ inr y ]) m,
        )

    mark_check-Along :
        (fuel id : ℕ) (g : Graph sets)
        → rank id < fuel
        → Along next g
        → (g' : Graph sets) × (mark_check sets fuel id g ≡ some g')
          × IsMarked sets (Never sets) (Reaches next id) g g'
    mark_check-Along zero id g lt a = absurd (omega arith)
    mark_check-Along (suc fuel) id g lt a =
        let (g1, e1, node) = mark_check-step sets fuel id g in
        let first = IsMarked-put sets to_check id g g1 (λ e. cc) node in
        let single_d : ℕ → Type 0 = λ j. (to_check ≡ to_dirty) × (id ≡ j) in
        let single : ℕ → Type 0 = λ j. id ≡ j in
        let a1 = Along-marked next single_d single g g1 first a in
        let low : (k : ℕ) → memb k (nexts sets (g id)) ≡ true → rank k < fuel =
          λ k at. let below = ranked id k (ap (memb k) (sym (a id)) ∙ at) in omega arith in
        let (g2, e2, m2) = check_each fuel (mark_check-Along fuel) (nexts sets (g id)) low g1 a1 in
        let both =
          IsMarked-both sets single_d single (Never sets) (FromEach next (nexts sets (g id))) g g1
            g2 first m2 in
        (
          g2,
          e1 ∙ e2,
          IsMarked-ext sets (λ j. single_d j ⊎ Never sets j)
              (λ j. single j ⊎ FromEach next (nexts sets (g id)) j) (Never sets) (Reaches next id) g
              g2 (λ j x. absurd cc) (λ j x. elim x [ inl z ↦ absurd cc | inr z ↦ z ])
              (λ j r. inr (elim (Reaches-split next id j r) [
                | inl same ↦ inl same
                | inr (k, at, rest) ↦ inr (k, ap (memb k) (a id) ∙ at, rest)
              ]))
              (λ j x. elim x [
                | inl y ↦ elim y [ inl z ↦ absurd cc | inr z ↦ absurd cc ]
                | inr y ↦ elim y [
                  | inl same ↦ inr (subst (Reaches next id) same (here id))
                  | inr (k, at, rest) ↦ inr (onward id k j (ap (memb k) (sym (a id)) ∙ at) rest)
                ]
              ])
              both,
        )

    mark_dirty-step :
        (fuel id : ℕ) (g : Graph sets)
        → is_signal (g id) ≡ false
        → (g1 : Graph sets) × (mark_dirty sets (suc fuel) id g
            ≡ mark_each sets (mark_check sets fuel) (nexts sets (g id)) g1)
          × MarksNode sets to_dirty id g g1
    unfolding mark_dirty mark_each
    mark_dirty-step fuel id g h = elim (Option-cases (g id)) [
      | inl e ↦ (g, rw (e, mark_dirty) refl, same-MarksNode sets to_dirty id g (rw e refl))
      | inr (node, e) ↦ step node e
    ]
      where
        step :
            (node : Node sets)
            → g id ≡ some node
            → (g1 : Graph sets) × (mark_dirty sets (suc fuel) id g
                ≡ mark_each sets (mark_check sets fuel) (nexts sets (g id)) g1)
              × MarksNode sets to_dirty id g g1
        step (signal subs) e = let is : is_signal (g id) ≡ true = rw e refl in absurd cc
        step (memo m) e =
            let node' : Node sets = memo (record m { state = dirty }) in
            (
              put sets id node' g,
              rw (e, mark_dirty) refl,
              put-MarksNode sets to_dirty id g (memo m) node' e refl,
            )
        step (effect x) e =
            let node' : Node sets = effect (record x { dirty = true; notified = true }) in
            (
              put sets id node' g,
              rw (e, mark_dirty) refl,
              put-MarksNode sets to_dirty id g (effect x) node' e refl,
            )

    mark_dirty-Along :
        (fuel id : ℕ) (g : Graph sets)
        → is_signal (g id) ≡ false
        → rank id < fuel
        → Along next g
        → (g' : Graph sets) × (mark_dirty sets fuel id g ≡ some g')
          × IsMarked sets (λ j. id ≡ j) (Reaches next id) g g'
    mark_dirty-Along zero id g not_signal lt a = absurd (omega arith)
    mark_dirty-Along (suc fuel) id g not_signal lt a =
        let (g1, e1, node) = mark_dirty-step fuel id g not_signal in
        let first = IsMarked-put sets to_dirty id g g1 (λ e. cc) node in
        let single_d : ℕ → Type 0 = λ j. (to_dirty ≡ to_dirty) × (id ≡ j) in
        let single : ℕ → Type 0 = λ j. id ≡ j in
        let a1 = Along-marked next single_d single g g1 first a in
        let low : (k : ℕ) → memb k (nexts sets (g id)) ≡ true → rank k < fuel =
          λ k at. let below = ranked id k (ap (memb k) (sym (a id)) ∙ at) in omega arith in
        let (g2, e2, m2) = check_each fuel (mark_check-Along fuel) (nexts sets (g id)) low g1 a1 in
        let both =
          IsMarked-both sets single_d single (Never sets) (FromEach next (nexts sets (g id))) g g1
            g2 first m2 in
        (
          g2,
          e1 ∙ e2,
          IsMarked-ext sets (λ j. single_d j ⊎ Never sets j)
              (λ j. single j ⊎ FromEach next (nexts sets (g id)) j) single (Reaches next id) g g2
              (λ j x. inl (refl, x)) (λ j x. elim x [ inl z ↦ z.1 | inr z ↦ absurd cc ])
              (λ j r. inr (elim (Reaches-split next id j r) [
                | inl same ↦ inl same
                | inr (k, at, rest) ↦ inr (k, ap (memb k) (a id) ∙ at, rest)
              ]))
              (λ j x. elim x [
                | inl y ↦ elim y [ inl z ↦ inl z.1 | inr z ↦ absurd cc ]
                | inr y ↦ elim y [
                  | inl same ↦ inl same
                  | inr (k, at, rest) ↦ inr (onward id k j (ap (memb k) (sym (a id)) ∙ at) rest)
                ]
              ])
              both,
        )

    mark_dirty-signal :
        (fuel id : ℕ) (g : Graph sets) (subs : sets.IndexSet)
        → g id ≡ some (signal subs)
        → mark_dirty sets (suc fuel) id g ≡ mark_each sets (mark_dirty sets fuel) (items subs) g
    unfolding mark_dirty
    mark_dirty-signal fuel id g subs e = rw (e, mark_dirty) refl

    pub each-Along :
        (fuel : ℕ) (g : Graph sets) (subs : sets.IndexSet)
        → ((k : ℕ) → memb k (items subs) ≡ true → (is_signal (g k) ≡ false) × (rank k < fuel))
        → Along next g
        → (g' : Graph sets) × (mark_each sets (mark_dirty sets fuel) (items subs) g ≡ some g')
          × IsMarked sets (λ j. memb j (items subs) ≡ true) (FromEach next (items subs)) g g'
    each-Along fuel g subs h a =
        let no_signals : Graph sets → Type 0 =
          λ q. (k : ℕ) → memb k (items subs) ≡ true → is_signal (q k) ≡ false in
        let (g', e, m) =
          mark_each-IsMarked sets (mark_dirty sets fuel) (λ k j. k ≡ j) (Reaches next)
            (λ q. Along next q × no_signals q)
            (λ d c q q' m i. (
              Along-marked next d c q q' m i.0,
              λ k k_in. ap is_signal (m.is k) ∙ is_signal-marked (m.level k) (q k) ∙ i.1 k k_in,
            ))
            (items subs) (λ k q k_in i. mark_dirty-Along fuel k q (i.1 k k_in) (h k k_in).1 i.0) g
            (a, λ k k_in. (h k k_in).0) in
        (
          g',
          e,
          IsMarked-ext sets (λ j. (k : ℕ) × (memb k (items subs) ≡ true) × (k ≡ j))
              (FromEach next (items subs)) (λ j. memb j (items subs) ≡ true)
              (FromEach next (items subs)) g g' (λ j j_in. (j, j_in, refl))
              (λ j (k, k_in, same). subst (λ q. memb q (items subs) ≡ true) same k_in)
              (λ j x. inr x)
              (λ j x. elim x [
                | inl (k, k_in, same) ↦ inl (subst (λ q. memb q (items subs) ≡ true) same k_in)
                | inr y ↦ inr y
              ])
              m,
        )

    signal-Along :
        (fuel id : ℕ) (g : Graph sets) (subs : sets.IndexSet)
        → g id ≡ some (signal subs)
        → ((k : ℕ) → memb k (items subs) ≡ true → (is_signal (g k) ≡ false) × (rank k < fuel))
        → Along next g
        → (g' : Graph sets) × (mark_dirty sets (suc fuel) id g ≡ some g')
          × IsMarked sets (λ j. memb j (items subs) ≡ true) (FromEach next (items subs)) g g'
    signal-Along fuel id g subs at h a =
        let (g', e, m) = each-Along fuel g subs h a in
        (g', mark_dirty-signal fuel id g subs at ∙ e, m)

  -- When a signal changes, its subscribers become dirty, every node that these lead to is at least to be checked,
  -- and nothing else changes. It ends: a rank that falls from each memo to its subscribers bounds the fuel.
  pub mark_dirty-Reaches :
      (rank : ℕ → ℕ) (fuel id : ℕ) (g : Graph sets) (subs : sets.IndexSet)
      → Ranked rank (next_of sets g)
      → g id ≡ some (signal subs)
      → ((k : ℕ) → memb k (items subs) ≡ true → (is_signal (g k) ≡ false) × (rank k < fuel))
      → (g' : Graph sets) × (mark_dirty sets (suc fuel) id g ≡ some g')
        × IsMarked sets
            (λ j. memb j (items subs) ≡ true)
            (FromEach (next_of sets g) (items subs))
            g
            g'
  mark_dirty-Reaches rank fuel id g subs ranked at h =
      signal-Along rank (next_of sets g) ranked fuel id g subs at h (λ k. refl)
