-- ===== src/KeyedList/Reconcile/Shows.antt =====
-- After an update, the list shows the new keys: kept rows at their new places, new rows at the others.
use halyard.Prelude.{
  ℕ, ◌+◌, ◌≤◌, ◌<◌, ◌≡◌, refl, sym, ap, ◌∙◌, subst, true, false, inl, inr, Option, none, some,
  Option-cases, List, [], ◌∷◌, length, arith,
}
use halyard.Prelude.Ranges.{memb, length-upto, count_all, upto-AllDistinct, AllDistinct}
use halyard.Prelude.Ranges.Pairing.{is_some}
use halyard.KeyedList.{KeySets, ListOps}
use halyard.KeyedList.Diff.{Diff, DiffOpMove, new_index_of}
use halyard.KeyedList.Diff.Moves.{length-ats, Moves, tos-AllDistinct, tos_apart}
use halyard.KeyedList.Diff.Planned.{leaves, arrives, goes}
use halyard.KeyedList.Diff.Planned.Plans.{IsPlanned}
use halyard.KeyedList.Diff.Planned.Keys.{
  kept, kept_back, kept-lt, goes-kept, leaves-kept, arrives-kept, arrives-lost,
}
use halyard.KeyedList.Diff.Planned.Accounts.{count-accounts}
use halyard.KeyedList.Labels.{Labels}
use halyard.KeyedList.Rows.{is_none, item_at}
use halyard.KeyedList.Apply.Removed.{chosen, nowhere, Sourced}
use halyard.KeyedList.Apply.Carried.{Suits}
use halyard.KeyedList.Reconcile.Suited.{
  AllShown-members, memb-removed, planned-Vacant, targets_distinct, moved_back-old, moved_back-new,
}

-- There is a row, or an item, at every index.
abbrev pub AllThere : {A : Type 0} → List (Option A) → Type 0
AllThere {A} xs = (i : ℕ) → i < length xs → (x : A) × (item_at xs i ≡ some x)

module _ (ops : ListOps) (ls : Labels ops) (sets : KeySets) (usize_max : ℕ)
    (from to : sets.KeySet) where
  open ops use {Item, Row, State}
  open ls use {Label, made}
  open sets use {KeySet, len}

  -- What the new list is to show at the index `j`: the row that the key had, or the row built for it.
  abbrev pub wanted : (ℕ → Option Label) → (ℕ → Option Item) → ℕ → Option Label
  wanted old_labels new_items j = elim (new_index_of sets usize_max from (sets.get_index to j)) [
    | some i ↦ old_labels i
    | none ↦ elim (new_items j) [ none ↦ none | some item ↦ some (made j item) ]
  ]

  module _ (plan : Diff) (planned : IsPlanned sets usize_max from to plan) (f : ℕ → Option Label)
      (left : ℕ → Option Item) (there : (i : ℕ) → i < len from → (l : Label) × (f i ≡ some l))
      (past : (i : ℕ) → len from ≤ i → f i ≡ none)
      (supplied : (j : ℕ) → j < len to → (item : Item) × (left j ≡ some item)) where
    wanted-old : (i j : ℕ) → kept sets usize_max to from j ≡ some i → wanted f left j ≡ f i
    wanted-old i j e = rw (e, wanted) refl

    wanted-new :
        (j : ℕ) (item : Item)
        → kept sets usize_max to from j ≡ none
        → left j ≡ some item
        → wanted f left j ≡ some (made j item)
    wanted-new j item e at = rw (e, at, wanted) refl

    sourced :
        (moved : List DiffOpMove)
        → Moves (goes sets usize_max from to) moved
        → Sourced ops ls moved (chosen plan.removed nowhere f) (wanted f left)
    sourced [] h = tt
    sourced (op ∷ moved) h =
        let stays = (goes-kept sets usize_max from to op.from op.to h.0).0 in
        let (lt, lt') = kept-lt sets usize_max from to op.from op.to stays in
        let not_left = leaves-kept sets usize_max from to op.from op.to stays in
        let not_removed : memb op.from plan.removed ≡ false =
          ground (arith, memb-removed sets usize_max from to plan planned f past op.from) in
        let (l, shows) = there op.from lt in
        let back = kept_back sets usize_max from to op.from op.to stays in
        ((l, rw not_removed shows, wanted-old op.from op.to back ∙ shows), sourced moved h.1)

    -- A place is either a kept row's or a new row's.
    new_place :
        (j : ℕ)
        → j < len to
        → arrives sets usize_max from to j ≡ true
        → kept sets usize_max to from j ≡ none
    new_place j lt h = elim (Option-cases (kept sets usize_max to from j)) [
      | inl e ↦ e
      | inr (i, e) ↦ let old = arrives-kept sets usize_max from to i j e in absurd cc
    ]

    pub planned-Suits :
        Suits ops ls plan (len to) f (wanted f left) left (arrives sets usize_max from to)
    planned-Suits = record {
      removed_distinct =
          subst AllDistinct (sym planned.gone)
            (upto-AllDistinct (leaves sets usize_max from to) (len from));
      removed_shown = AllShown-members plan.removed f (λ j j_in.
          let tests = sym (memb-removed sets usize_max from to plan planned f past j) ∙ j_in in
          there j (ground arith));
      froms_distinct =
          subst AllDistinct (sym planned.movers)
            (upto-AllDistinct (λ i. is_some (goes sets usize_max from to i)) (len from));
      sourced = sourced plan.moved planned.moves;
      tos_distinct = λ b.
          tos-AllDistinct b plan.moved
            (targets_distinct sets usize_max from to plan planned f past);
      tos_apart =
          λ j. tos_apart j plan.moved (targets_distinct sets usize_max from to plan planned f past);
      vacant = planned-Vacant sets usize_max from to plan planned f past;
      chosen_ats = planned.come;
      free = λ j lt. elim (Option-cases (kept sets usize_max to from j)) [
        | inl e ↦
            ap is_none
              (moved_back-new sets usize_max from to plan planned f past (wanted f left) j e)
            ∙ sym (arrives-lost sets usize_max from to j lt e)
        | inr (i, e) ↦
            let lt' = (kept-lt sets usize_max to from j i e).1 in
            let (l, shows) = there i lt' in
            let is = wanted-old i j e in
            ap is_none (
              moved_back-old sets usize_max from to plan planned f past (wanted f left) i j e is
              ∙ is
              ∙ shows)
            ∙ sym (arrives-kept sets usize_max from to i j e)
      ];
      past_end = λ j beyond. elim (Option-cases (kept sets usize_max to from j)) [
        | inl e ↦ moved_back-new sets usize_max from to plan planned f past (wanted f left) j e
        | inr (i, e) ↦ let lt = (kept-lt sets usize_max to from j i e).0 in absurd (omega arith)
      ];
      built = λ j lt is_new.
          let (item, at) = supplied j lt in
          (item, at, wanted-new j item (new_place j lt is_new) at);
      kept = λ j lt old. elim (Option-cases (kept sets usize_max to from j)) [
        | inl e ↦ let is_new = arrives-lost sets usize_max from to j lt e in absurd cc
        | inr (i, e) ↦
            moved_back-old sets usize_max from to plan planned f past (wanted f left) i j e
              (wanted-old i j e)
      ];
    }

    -- The counts that `apply_plan` checks.
    pub planned_counts :
        (length plan.removed ≤ len from)
        × (len from + length plan.added ≡ length plan.removed + len to)
        × (length plan.added ≤ len to)
    planned_counts =
        let removed =
          ap length planned.gone ∙ length-upto (leaves sets usize_max from to) (len from) in
        let added =
          sym (length-ats plan.added)
          ∙ ap length planned.come
          ∙ length-upto (arrives sets usize_max from to) (len to) in
        let sum = count-accounts sets usize_max from to in
        let all_old = count_all (len from) (leaves sets usize_max from to) in
        let all_new = count_all (len to) (arrives sets usize_max from to) in
        (omega arith, omega arith, omega arith)
