-- ===== src/KeyedList/Diff/Planned/Plans.antt =====
-- What the plan of `diff` lists.
use mathlib.Core.List.{append-nil, append_assoc}
use halyard.Prelude.{
  ℕ, zero, suc, ◌+◌, ◌≤◌, ◌<◌, ◌≡◌, refl, sym, ap, ◌∙◌, subst, Bool, true, false, Bool-cases, inl,
  inr, none, some, Option-cases, [], ◌∷◌, ◌++◌, ◌==◌, max, Result-cases, ok, arith,
}
use halyard.Prelude.Ranges.{upto, upto_shrink}
use halyard.Prelude.Ranges.Pairing.{is_some}
use halyard.KeyedList.{KeySets}
use halyard.KeyedList.Diff.{
  Diff, append_from, no_diff, Scan, same_key, settle_all, scan, start, finish, diff,
}
use halyard.KeyedList.Diff.Moves.{froms, ats, Moves}
use halyard.KeyedList.Diff.Planned.{
  ok_unique, ok_err, leaves, arrives, goes, Scanned, settle_all-froms,
}
use halyard.KeyedList.Diff.Planned.Scanning.{scan-Scanned}

ats-append_from :
    (p : ℕ → Bool) (n a : ℕ)
    → ((i : ℕ) → i < a + n → p i ≡ true)
    → upto p a ++ ats (append_from a n) ≡ upto p (a + n)
unfolding append_from upto
ats-append_from p zero a h =
    let end : a ≡ a + zero = omega arith in append-nil (upto p a) ∙ ap (upto p) end
ats-append_from p (suc n) a h =
    let here : p a ≡ true = h a (omega arith) in
    let next : upto p (suc a) ≡ upto p a ++ a ∷ [] = rw here refl in
    let ih = ats-append_from p n (suc a) (λ i lt. h i (omega arith)) in
    let end : suc a + n ≡ a + suc n = omega arith in
    sym (append_assoc (upto p a) (a ∷ []) (ats (append_from (suc a) n)))
    ∙ ap (λ l. l ++ ats (append_from (suc a) n)) (sym next)
    ∙ ih
    ∙ ap (upto p) end

module _ (sets : KeySets) (usize_max : ℕ) where
  open sets use {
    Key, KeySet, len, get_index, get_index_of, contains, get_index-lt, get_index-none,
    get_index_of_iff, contains_iff,
  }

  module _ (from to : KeySet) where
    -- The plan removes the keys that leave, adds those that arrive and moves those that change their index.
    pub record IsPlanned (plan : Diff) : Type 0 where
      pub gone : plan.removed ≡ upto (leaves sets usize_max from to) (len from)
      pub come : ats plan.added ≡ upto (arrives sets usize_max from to) (len to)
      pub movers : froms plan.moved ≡ upto (λ i. is_some (goes sets usize_max from to i)) (len from)
      pub moves : Moves (goes sets usize_max from to) plan.moved
      pub stays : plan.clear ≡ false

    leaves-past : (i : ℕ) → len from ≤ i → leaves sets usize_max from to i ≡ false
    leaves-past i h = rw (get_index-none from i h) refl

    arrives-past : (j : ℕ) → len to ≤ j → arrives sets usize_max from to j ≡ false
    arrives-past j h = rw (get_index-none to j h) refl

    goes-past : (i : ℕ) → len from ≤ i → is_some (goes sets usize_max from to i) ≡ false
    goes-past i h =
        elim (Bool-cases (same_key sets usize_max (get_index from i) (get_index to i))) [
          | inl e ↦ rw e refl
          | inr e ↦ rw e (rw (get_index-none from i h) refl)
        ]

    arrives_all : len from ≡ 0 → (j : ℕ) → j < len to → arrives sets usize_max from to j ≡ true
    arrives_all empty j lt =
        let (key, there) = get_index-lt to j lt in
        let new_key : contains from key ≡ false =
          (contains_iff from key).1 (elim (Option-cases (get_index_of from key)) [
            | inl e ↦ e
            | inr (i, e) ↦
                let at : get_index from i ≡ some key = (get_index_of_iff from key i).0 e in
                let past : get_index from i ≡ none = get_index-none from i (omega arith) in
                absurd cc
          ]) in
        rw (there, new_key) refl

    -- The first two branches, where a list is empty.
    no_diff-IsPlanned :
        len from ≡ 0
        → (n : ℕ) → n ≡ len to
        → IsPlanned (record (no_diff sets usize_max) { added = append_from 0 n })
    unfolding upto
    no_diff-IsPlanned empty n all = record {
      gone = sym (ap (upto (leaves sets usize_max from to)) empty);
      come =
          ats-append_from (arrives sets usize_max from to) n 0
            (λ j lt. arrives_all empty j (omega arith))
          ∙ ap (upto (arrives sets usize_max from to)) (omega arith);
      movers = sym (ap (upto (λ i. is_some (goes sets usize_max from to i))) empty);
      moves = tt;
      stays = refl;
    }

    finish-IsPlanned :
        (s : Scan) (plan : Diff)
        → finish sets usize_max s ≡ ok plan
        → Scanned sets usize_max from to (max (len from) (len to)) s
        → IsPlanned plan
    unfolding finish
    finish-IsPlanned s plan e h =
        elim (Result-cases (settle_all usize_max (s.stays_before ++ s.stays ∷ []) none s.moved)) [
          | inr (x, e1) ↦ absurd (ok_err {x = x} e (rw (e1, finish) refl))
          | inl (moved, e1) ↦
              let done : record {
                removed = s.removed;
                moved = moved;
                added = s.added;
                clear = false;
              }
                  ≡ plan =
                ok_unique (rw (e1, finish) refl) e in
              let (same, m) =
                settle_all-froms (goes sets usize_max from to) usize_max
                  (s.stays_before ++ s.stays ∷ []) none s.moved moved e1 h.moves in
              let wide = max (len from) (len to) in
              subst IsPlanned done (record {
                gone =
                    h.gone
                    ∙ upto_shrink (leaves sets usize_max from to) (len from) wide (omega arith)
                        leaves-past;
                come =
                    h.come
                    ∙ upto_shrink (arrives sets usize_max from to) (len to) wide (omega arith)
                        arrives-past;
                movers =
                    same
                    ∙ h.movers
                    ∙ upto_shrink (λ i. is_some (goes sets usize_max from to i)) (len from) wide
                        (omega arith) goes-past;
                moves = m;
                stays = refl;
              })
        ]

    -- Unless only the new list is empty, the plan of `diff` lists, in order, the old indices of the keys that
    -- are gone, the new indices of the keys that are new, and the moves of the kept keys whose index changes.
    pub diff-IsPlanned :
        (plan : Diff)
        → diff sets usize_max from to ≡ ok plan
        → (len to ≡ 0 → len from ≡ 0)
        → IsPlanned plan
    unfolding diff upto append_from
    diff-IsPlanned plan e h = elim (Bool-cases (len to == 0)) [
      | inl no_to ↦
          let no_from : len from ≡ 0 = h (ground arith) in
          let from_empty : (len from == 0) ≡ true = ground arith in
          let done : no_diff sets usize_max ≡ plan =
            ok_unique (rw (no_to, from_empty, diff) refl) e in
          subst IsPlanned done (no_diff-IsPlanned no_from 0 (ground arith))
      | inr some_to ↦ elim (Bool-cases (len from == 0)) [
        | inl no_from ↦
            let done : record (no_diff sets usize_max) { added = append_from 0 (len to) } ≡ plan =
              ok_unique (rw (some_to, no_from, diff) refl) e in
            subst IsPlanned done (no_diff-IsPlanned (ground arith) (len to) refl)
        | inr some_from ↦
            let wide = max (len from) (len to) in
            elim (Result-cases (scan sets usize_max from to wide 0 (start sets usize_max))) [
              | inr (x, e1) ↦ absurd (ok_err {x = x} e (rw (some_to, some_from, e1, diff) refl))
              | inl (s, e1) ↦
                  let rest : finish sets usize_max s ≡ ok plan =
                    rw (some_to, some_from, e1, diff) at e in
                  let first : Scanned sets usize_max from to 0 (start sets usize_max) = record {
                    gone = refl;
                    come = refl;
                    movers = refl;
                    moves = tt;
                  } in
                  let end : wide + 0 ≡ wide = omega arith in
                  finish-IsPlanned s plan rest (
                    subst (λ q. Scanned sets usize_max from to q s) end
                      (scan-Scanned sets usize_max from to wide 0 (start sets usize_max) s e1
                        first))
            ]
      ]
    ]

    pub diff-clears :
        (plan : Diff)
        → diff sets usize_max from to ≡ ok plan
        → len to ≡ 0
        → (len from == 0) ≡ false
        → record { removed = []; moved = []; added = []; clear = true } ≡ plan
    unfolding diff
    diff-clears plan e no_to some_from =
        let none_left : (len to == 0) ≡ true = ground arith in
        ok_unique (rw (none_left, some_from, diff) refl) e
