-- ===== src/KeyedList/Apply/Carried.antt =====
-- A plan that suits the rows is carried out: `apply_changes` and `apply`.
use halyard.Prelude.{
  ℕ, ◌+◌, ◌≤◌, ◌<◌, ◌≡◌, refl, sym, ap, ◌∙◌, subst, Bool, true, false, Bool-cases, inl, inr, Option,
  none, some, [], length, ok, arith,
}
use halyard.Prelude.Ranges.{upto, upto-AllDistinct, memb, memb-upto, AllDistinct}
use halyard.KeyedList.{ListOps}
use halyard.KeyedList.Diff.{Diff}
use halyard.KeyedList.Diff.Moves.{ats, froms, tos}
use halyard.KeyedList.Labels.{Labels}
use halyard.KeyedList.Rows.{is_none, item_at}
use halyard.KeyedList.Work.Shown.{shown, Rendering, Stands}
use halyard.KeyedList.Apply.{
  remove_rows, take_out, make_room, place_still, place_moved, check_rows, add_rows, truncate_rows,
  accounts_for, apply_changes, apply_plan, apply,
}
use halyard.KeyedList.Apply.Removed.{
  chosen, nowhere, AllShown, Sourced, remove_rows-Stands, take_out-Stands, make_room-Stands,
}
use halyard.KeyedList.Apply.Placed.{Vacant, Held-HeldFor}
use halyard.KeyedList.Apply.Placed.Passes.{place_still-Stands, place_moved-Stands}
use halyard.KeyedList.Apply.Checked.{Awaits, check_rows-ok, truncate_rows-Stands}
use halyard.KeyedList.Apply.Added.{add_rows-Stands}

module _ {L : Type 0} where
  -- What is left in place when the rows to remove and to move are out.
  abbrev pub emptied : Diff → (ℕ → Option L) → ℕ → Option L
  emptied plan f = chosen (froms plan.moved) nowhere (chosen plan.removed nowhere f)

  -- What is in place when the rows to move are back.
  abbrev pub moved_back : Diff → (ℕ → Option L) → (ℕ → Option L) → ℕ → Option L
  moved_back plan f t =
      chosen (tos true plan.moved) t (chosen (tos false plan.moved) t (emptied plan f))

module _ (ops : ListOps) (ls : Labels ops) where
  open ops use {Item, Row}
  open ls use {Label}

  -- The plan turns the rows that show `f` into `m` rows that show `t`; `q` tells the places of new rows.
  pub record Suits (plan : Diff) (m : ℕ) (f t : ℕ → Option Label) (left : ℕ → Option Item)
      (q : ℕ → Bool) : Type 0 where
    pub removed_distinct : AllDistinct plan.removed
    pub removed_shown : AllShown plan.removed f
    pub froms_distinct : AllDistinct (froms plan.moved)
    pub sourced : Sourced ops ls plan.moved (chosen plan.removed nowhere f) t
    pub tos_distinct : (b : Bool) → AllDistinct (tos b plan.moved)
    pub tos_apart :
        (j : ℕ) → memb j (tos true plan.moved) ≡ true → memb j (tos false plan.moved) ≡ false
    pub vacant : (b : Bool) → Vacant m (tos b plan.moved) (emptied plan f)
    pub chosen_ats : ats plan.added ≡ upto q m
    pub free : (j : ℕ) → j < m → is_none (moved_back plan f t j) ≡ q j
    pub past_end : (j : ℕ) → m ≤ j → moved_back plan f t j ≡ none
    pub built :
        (j : ℕ)
        → j < m
        → q j ≡ true
        → (item : Item) × (left j ≡ some item) × (t j ≡ some (ls.made j item))
    pub kept : (j : ℕ) → j < m → q j ≡ false → moved_back plan f t j ≡ t j

  apply_changes-steps :
      (usize_max m : ℕ) (plan : Diff) (w w1 w2 w3 w4 w5 w6 w7 : Rendering ops ls)
      → remove_rows ops plan.removed w ≡ (ok tt, w1)
      → take_out ops plan.moved w1 ≡ (ok tt, w2)
      → make_room ops usize_max (length plan.added) w2 ≡ (ok tt, w3)
      → place_still ops m 0 plan.moved w3 ≡ (ok tt, w4)
      → place_moved ops m 0 plan.moved w4 ≡ (ok tt, w5)
      → check_rows ops plan m w5 ≡ (ok tt, w5)
      → add_rows ops m plan.added w5 ≡ (ok tt, w6)
      → truncate_rows ops m w6 ≡ (ok tt, w7)
      → apply_changes ops usize_max plan m w ≡ (ok tt, w7)
  unfolding apply_changes
  apply_changes-steps usize_max m plan w w1 w2 w3 w4 w5 w6 w7 a b c d e f g h =
      rw (a, b, c, d, e, f, g, apply_changes) h

  module _ (plan : Diff) (m : ℕ) (f t : ℕ → Option Label) (left : ℕ → Option Item) (q : ℕ → Bool)
      (suits : Suits plan m f t left q) where
    still-Vacant : Vacant m (tos true plan.moved) (chosen (tos false plan.moved) t (emptied plan f))
    still-Vacant j j_in =
        let apart = suits.tos_apart j j_in in
        let (free, lt) = suits.vacant true j j_in in (rw apart free, lt)

    memb-ats : (j : ℕ) → memb j (ats plan.added) ≡ true → (j < m) × (q j ≡ true)
    memb-ats j j_in =
        let in_upto = sym (memb-upto q j m) ∙ sym (ap (memb j) suits.chosen_ats) ∙ j_in in
        (ground arith, ground arith)

    is_none-none : (o : Option Label) → is_none o ≡ true → o ≡ none
    is_none-none none h = refl
    is_none-none (some l) h = cc

    added-Vacant : Vacant m (ats plan.added) (moved_back plan f t)
    added-Vacant j j_in =
        let (lt, is_new) = memb-ats j j_in in
        (is_none-none (moved_back plan f t j) (suits.free j lt ∙ is_new), lt)

    target : (j : ℕ) → j < m → chosen (ats plan.added) t (moved_back plan f t) j ≡ t j
    target j lt = elim (Bool-cases (memb j (ats plan.added))) [
      | inl e ↦ rw e refl
      | inr e ↦
          let not_in = sym (memb-upto q j m) ∙ sym (ap (memb j) suits.chosen_ats) ∙ e in
          let old : q j ≡ false = ground arith in rw e (suits.kept j lt old)
    ]

    awaits : Awaits ops ls m (moved_back plan f t) left plan.added q
    awaits = record {
      chosen_ats = suits.chosen_ats;
      free = suits.free;
      past_end = suits.past_end;
      supplied = λ j lt is_new. let (item, there, is) = suits.built j lt is_new in ap is_none there;
    }

    pub apply_changes-Suits :
        (usize_max : ℕ) (w : Rendering ops ls) (n : ℕ)
        → Stands ops ls w n f 0 nowhere left
        → n + length plan.added ≤ usize_max
        → m ≤ n + length plan.added
        → (w' : Rendering ops ls) × (apply_changes ops usize_max plan m w ≡ (ok tt, w'))
          × (length w'.rows ≡ m)
          × ((j : ℕ) → j < m → shown ops ls (item_at w'.rows j) ≡ t j)
    apply_changes-Suits usize_max w n s room enough =
        let f1 = chosen plan.removed nowhere f in
        let (w1, e1, s1) =
          remove_rows-Stands ops ls plan.removed w n 0 f nowhere left s suits.removed_distinct
            suits.removed_shown in
        let (w2, k, g, e2, before, held, s2) =
          take_out-Stands ops ls plan.moved w1 n 0 f1 nowhere t left s1 suits.froms_distinct
            suits.sourced in
        let n' = n + length plan.added in
        let (w3, e3, s3) =
          make_room-Stands ops ls usize_max (length plan.added) w2 n k (emptied plan f) g left s2
            room in
        let (w4, e4, p) =
          place_still-Stands ops ls plan.moved m 0 w3 n' k (emptied plan f) g t left enough s3
            (suits.tos_distinct false) (suits.vacant false)
            (Held-HeldFor ops ls false 0 plan.moved g t held) in
        let f4 = chosen (tos false plan.moved) t (emptied plan f) in
        let (w5, g5, e5, s5) =
          place_moved-Stands ops ls plan.moved m 0 w4 n' k f4 p.after t left enough p.stands
            (suits.tos_distinct true) still-Vacant
            (p.others (Held-HeldFor ops ls true 0 plan.moved g t held)) in
        let f5 = moved_back plan f t in
        let e6 = check_rows-ok ops ls plan m w5 n' k f5 g5 left q enough s5 awaits in
        let (w6, left', e7, s6) =
          add_rows-Stands ops ls plan.added m w5 n' k f5 g5 t left enough s5
            (subst AllDistinct (sym suits.chosen_ats) (upto-AllDistinct q m)) added-Vacant
            (λ j j_in. let (lt, is_new) = memb-ats j j_in in suits.built j lt is_new) in
        let (w7, e8, long, shows) =
          truncate_rows-Stands ops ls m w6 n' k (chosen (ats plan.added) t f5) g5 left' enough s6 in
        (
          w7,
          apply_changes-steps usize_max m plan w w1 w2 w3 w4 w5 w6 w7 e1 e2 e3 e4 e5 e6 e7 e8,
          long,
          λ j lt. shows j lt ∙ target j lt,
        )

    apply_plan-changes :
        (usize_max : ℕ) (w w' : Rendering ops ls)
        → accounts_for ops usize_max plan (length w.rows) (length w.items) ≡ true
        → plan.clear ≡ false
        → apply_changes ops usize_max plan (length w.items) w ≡ (ok tt, w')
        → apply_plan ops usize_max plan w ≡ (ok tt, w')
    unfolding apply_plan
    apply_plan-changes usize_max w w' accounts clear e = rw accounts (simp clear e)

    apply-plan :
        (usize_max : ℕ) (w w' : Rendering ops ls)
        → apply_plan ops usize_max plan (record w { moving = [] }) ≡ (ok tt, w')
        → apply ops usize_max plan w ≡ (ok tt, w')
    unfolding apply
    apply-plan usize_max w w' e = rw (e, apply) (ap (λ p. (ok tt, p.1)) e)

    pub apply-Suits :
        (usize_max : ℕ) (w : Rendering ops ls)
        → ((i : ℕ) → shown ops ls (item_at w.rows i) ≡ f i)
        → ((i : ℕ) → item_at w.items i ≡ left i)
        → length w.items ≡ m
        → accounts_for ops usize_max plan (length w.rows) m ≡ true
        → plan.clear ≡ false
        → length w.rows + length plan.added ≤ usize_max
        → m ≤ length w.rows + length plan.added
        → (w' : Rendering ops ls) × (apply ops usize_max plan w ≡ (ok tt, w'))
          × (length w'.rows ≡ m)
          × ((j : ℕ) → j < m → shown ops ls (item_at w'.rows j) ≡ t j)
    apply-Suits usize_max w shows leaves len accounts clear room enough =
        let w0 : Rendering ops ls = record w { moving = [] } in
        let s : Stands ops ls w0 (length w.rows) f 0 nowhere left = record {
          places = refl;
          shows = shows;
          moves = refl;
          holds = λ i. refl;
          leaves = leaves;
        } in
        let (w', e, long, there) = apply_changes-Suits usize_max w0 (length w.rows) s room enough in
        let e' = subst (λ q. apply_changes ops usize_max plan q w0 ≡ (ok tt, w')) (sym len) e in
        let accounts' =
          subst (λ q. accounts_for ops usize_max plan (length w.rows) q ≡ true) (sym len)
            accounts in
        (
          w',
          apply-plan usize_max w w' (apply_plan-changes usize_max w0 w' accounts' clear e'),
          long,
          there,
        )
