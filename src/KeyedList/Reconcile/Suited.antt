-- ===== src/KeyedList/Reconcile/Suited.antt =====
-- The plan of `diff` suits the rows of the old list.
use halyard.Prelude.{
  ℕ, ◌≤◌, ◌≡◌, ◌≢◌, refl, sym, ap, ◌∙◌, subst, Bool, true, false, ◌&&◌, Bool-cases, inl, inr,
  Option, none, some, Option-cases, List, [], ◌∷◌, ltb, ◌==◌, arith,
}
use halyard.Prelude.Ranges.{memb, memb-upto, upto-AllDistinct, AllDistinct}
use halyard.Prelude.Ranges.Pairing.{is_some}
use halyard.KeyedList.{KeySets}
use halyard.KeyedList.Diff.{Diff}
use halyard.KeyedList.Diff.Moves.{
  froms, targets, tos, memb-targets, memb-tos, targets-from, froms-target, targets-AllDistinct,
}
use halyard.KeyedList.Diff.Planned.{leaves, goes}
use halyard.KeyedList.Diff.Planned.Plans.{IsPlanned}
use halyard.KeyedList.Diff.Planned.Keys.{
  kept, kept_back, kept-lt, goes-kept, kept-goes, kept_here-goes, leaves-kept, lost-leaves,
}
use halyard.KeyedList.Apply.Removed.{AllShown}
use halyard.KeyedList.Apply.Placed.{Vacant}
use halyard.KeyedList.Apply.Carried.{emptied, moved_back}

module _ {L : Type 0} where
  pub AllShown-members :
      (xs : List ℕ) (f : ℕ → Option L)
      → ((j : ℕ) → memb j xs ≡ true → (l : L) × (f j ≡ some l))
      → AllShown xs f
  AllShown-members [] f h = tt
  AllShown-members (x ∷ xs) f h =
      (h x (ground arith), AllShown-members xs f (λ j j_in. h j (ground arith)))

  module _ (sets : KeySets) (usize_max : ℕ) (from to : sets.KeySet) (plan : Diff)
      (planned : IsPlanned sets usize_max from to plan) (f : ℕ → Option L)
      (past : (i : ℕ) → sets.len from ≤ i → f i ≡ none) where
    pub memb-froms :
        (i : ℕ)
        → memb i (froms plan.moved)
          ≡ (ltb i (sets.len from) && is_some (goes sets usize_max from to i))
    memb-froms i =
        ap (memb i) planned.movers
        ∙ memb-upto (λ k. is_some (goes sets usize_max from to k)) i (sets.len from)

    pub memb-removed :
        (i : ℕ) → memb i plan.removed ≡ (ltb i (sets.len from) && leaves sets usize_max from to i)
    memb-removed i =
        ap (memb i) planned.gone ∙ memb-upto (leaves sets usize_max from to) i (sets.len from)

    -- The rows that are not kept in place are out.
    emptied-none : (i : ℕ) → kept sets usize_max from to i ≢ some i → emptied plan f i ≡ none
    emptied-none i off = elim (Bool-cases (ltb i (sets.len from))) [
      | inr beyond ↦
          let nothing = past i (ground arith) in
          let not_removed : memb i plan.removed ≡ false = ground (arith, memb-removed i) in
          let not_moved : memb i (froms plan.moved) ≡ false = ground (arith, memb-froms i) in
          rw (not_removed, not_moved) nothing
      | inl lt ↦ elim (Option-cases (kept sets usize_max from to i)) [
        | inl lost ↦
            let gone = lost-leaves sets usize_max from to i (ground arith) lost in
            let removed : memb i plan.removed ≡ true = ground (arith, memb-removed i) in
            elim (Bool-cases (memb i (froms plan.moved))) [
              | inl e ↦ rw e refl
              | inr e ↦ rw (e, removed) refl
            ]
        | inr (j, there) ↦
            let differ : i ≢ j = λ same. off (there ∙ ap some (sym same)) in
            let moves = ap is_some (kept-goes sets usize_max from to i j there differ) in
            let moved : memb i (froms plan.moved) ≡ true = ground (arith, memb-froms i) in
            rw moved refl
      ]
    ]

    emptied-kept : (i : ℕ) → kept sets usize_max from to i ≡ some i → emptied plan f i ≡ f i
    emptied-kept i here =
        let stays = leaves-kept sets usize_max from to i i here in
        let still = ap is_some (kept_here-goes sets usize_max from to i here) in
        let not_removed : memb i plan.removed ≡ false = ground (arith, memb-removed i) in
        let not_moved : memb i (froms plan.moved) ≡ false = ground (arith, memb-froms i) in
        rw (not_removed, not_moved) refl

    target-moves :
        (j : ℕ)
        → memb j (targets plan.moved) ≡ true
        → (i : ℕ) × (kept sets usize_max from to i ≡ some j) × (i ≢ j)
    target-moves j j_in =
        let (i, i_in, at) =
          targets-from (goes sets usize_max from to) plan.moved j planned.moves j_in in
        let (there, off) = goes-kept sets usize_max from to i j at in (i, there, off)

    moves-target :
        (i j : ℕ)
        → kept sets usize_max from to i ≡ some j
        → i ≢ j
        → memb j (targets plan.moved) ≡ true
    moves-target i j there off =
        let at = kept-goes sets usize_max from to i j there off in
        let lt = (kept-lt sets usize_max from to i j there).0 in
        let moves = ap is_some at in
        let i_in : memb i (froms plan.moved) ≡ true = ground (arith, memb-froms i) in
        froms-target (goes sets usize_max from to) plan.moved i j planned.moves i_in at

    pub planned-Vacant : (b : Bool) → Vacant (sets.len to) (tos b plan.moved) (emptied plan f)
    planned-Vacant b j j_in =
        let (i, there, off) = target-moves j (memb-tos b j plan.moved j_in) in
        let back = kept_back sets usize_max from to i j there in
        (
          emptied-none j (λ here.
              let back_here = kept_back sets usize_max from to j j here in
              let same : i ≡ j = cc in off same),
          (kept-lt sets usize_max from to i j there).1,
        )

    pub targets_distinct : AllDistinct (targets plan.moved)
    targets_distinct =
        targets-AllDistinct (goes sets usize_max from to) plan.moved
          (λ i k j first second.
            let a =
              kept_back sets usize_max from to i j (goes-kept sets usize_max from to i j first).0 in
            let b =
              kept_back sets usize_max from to k j
                (goes-kept sets usize_max from to k j second).0 in
            cc)
          planned.moves
          (subst AllDistinct (sym planned.movers)
            (upto-AllDistinct (λ i. is_some (goes sets usize_max from to i)) (sets.len from)))

    moved_back-target :
        (t : ℕ → Option L) (j : ℕ)
        → memb j (targets plan.moved) ≡ true
        → moved_back plan f t j ≡ t j
    moved_back-target t j j_in =
        let either = memb-targets j plan.moved in
        elim (Bool-cases (memb j (tos true plan.moved))) [
          | inl e ↦ rw e refl
          | inr e ↦
              let other : memb j (tos false plan.moved) ≡ true = ground arith in rw (e, other) refl
        ]

    moved_back-other :
        (t : ℕ → Option L) (j : ℕ)
        → memb j (targets plan.moved) ≡ false
        → moved_back plan f t j ≡ emptied plan f j
    moved_back-other t j off =
        let either = memb-targets j plan.moved in
        let not_true : memb j (tos true plan.moved) ≡ false = ground arith in
        let not_false : memb j (tos false plan.moved) ≡ false = ground arith in
        rw (not_true, not_false) refl

    -- A place whose key was there before shows its row, and one whose key is new is free.
    pub moved_back-old :
        (t : ℕ → Option L) (i j : ℕ)
        → kept sets usize_max to from j ≡ some i
        → t j ≡ f i
        → moved_back plan f t j ≡ t j
    moved_back-old t i j e is =
        let there = kept_back sets usize_max to from j i e in
        elim (Bool-cases (memb j (targets plan.moved))) [
          | inl j_in ↦ moved_back-target t j j_in
          | inr off ↦
              let same : i ≡ j = elim (Bool-cases (i == j)) [
                | inl eq ↦ ground arith
                | inr differ ↦
                    let j_in = moves-target i j there (λ eq. ground arith) in absurd (ground arith)
              ] in
              moved_back-other t j off
              ∙ emptied-kept j (subst (λ q. kept sets usize_max from to q ≡ some j) same there)
              ∙ ap f (sym same)
              ∙ sym is
        ]

    pub moved_back-new :
        (t : ℕ → Option L) (j : ℕ)
        → kept sets usize_max to from j ≡ none
        → moved_back plan f t j ≡ none
    moved_back-new t j e = elim (Bool-cases (memb j (targets plan.moved))) [
      | inl j_in ↦
          let (i, there, off) = target-moves j j_in in
          let back = kept_back sets usize_max from to i j there in absurd cc
      | inr off ↦
          moved_back-other t j off
          ∙ emptied-none j (λ here. let back = kept_back sets usize_max from to j j here in cc)
    ]
