-- ===== src/KeyedList/Apply/Cleared.antt =====
-- The plan for an empty new list clears the rows, and the count that a plan has to pass.
use halyard.Prelude.{
  ℕ, ◌+◌, ◌-◌, ◌≤◌, ◌≡◌, refl, ap, ◌∙◌, true, false, [], length, leb, ◌==◌, ok, arith,
}
use halyard.KeyedList.{ListOps}
use halyard.KeyedList.Diff.{Diff}
use halyard.KeyedList.Work.{Work}
use halyard.KeyedList.Apply.{accounts_for, clear_rows, unmount_all, apply_plan, apply}

module _ (ops : ListOps) (usize_max : ℕ) where
  open ops use {Item, Row, State}

  pub accounts_for-clear :
      (plan : Diff) (n m : ℕ)
      → plan.clear ≡ false
      → length plan.removed ≤ n
      → n + length plan.added ≡ length plan.removed + m
      → m ≤ usize_max
      → accounts_for ops usize_max plan n m ≡ true
  unfolding accounts_for
  accounts_for-clear plan n m clear le sum room =
      let r = length plan.removed in
      let a = length plan.added in
      let fits : leb r n ≡ true = ground arith in
      let inside : leb (n - r + a) usize_max ≡ true = ground arith in
      let equal : (n - r + a == m) ≡ true = ground arith in
      rw (clear, accounts_for, fits, inside) equal

  abbrev pub cleared : Diff
  cleared = record { removed = []; moved = []; added = []; clear = true }

  accounts_for-cleared : (n : ℕ) → accounts_for ops usize_max cleared n 0 ≡ true
  unfolding accounts_for
  accounts_for-cleared n =
      let fits : leb (0 + 0) usize_max ≡ true = ground arith in rw (fits, accounts_for) refl

  apply_plan-clears :
      (w : Work Row Item State)
      → length w.items ≡ 0
      → apply_plan ops usize_max cleared w
        ≡ (ok tt, record w { rows = []; state = unmount_all ops w.rows w.state })
  unfolding apply_plan clear_rows
  apply_plan-clears w none_left =
      let accounts =
        ap (accounts_for ops usize_max cleared (length w.rows)) none_left
        ∙ accounts_for-cleared (length w.rows) in
      rw accounts refl

  -- All the rows are unmounted and none is left.
  pub apply-clears :
      (w : Work Row Item State)
      → length w.items ≡ 0
      → (w' : Work Row Item State) × (apply ops usize_max cleared w ≡ (ok tt, w')) × (w'.rows ≡ [])
  unfolding apply
  apply-clears w none_left =
      let e = apply_plan-clears (record w { moving = [] }) none_left in
      (
        record w { rows = []; moving = []; state = unmount_all ops w.rows w.state },
        rw (e, apply) (ap (λ p. (ok tt, p.1)) e),
        refl,
      )
