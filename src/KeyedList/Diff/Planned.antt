-- ===== src/KeyedList/Diff/Planned.antt =====
-- What a plan lists: the keys removed, the keys added and the keys at another index.
pub mod Scanning
pub mod Plans
pub mod Keys
pub mod Accounts
use halyard.Prelude.{
  ℕ, zero, suc, ◌+◌, ◌-◌, ◌≤◌, ◌<◌, ◌≡◌, ◌≢◌, refl, sym, ap, ◌∙◌, subst, Bool, true, false, not,
  ◌||◌, Bool-cases, inl, inr, Option, none, some, Option-cases, List, [], ◌∷◌, ◌++◌, ltb, ◌==◌,
  if◌then◌else◌, length, max, Result, Result-cases, ok, err, arith,
}
use halyard.Prelude.Words.{checked_add, saturating_add}
use halyard.Prelude.Ranges.{upto, upto_ext, upto_stable}
use halyard.Prelude.Ranges.Pairing.{is_some}
use halyard.KeyedList.{KeySets, ListError}
use halyard.KeyedList.Diff.{
  Diff, DiffOpAdd, normal, append, no_diff, append_from, DiffOpMove, Scan, settle, settle_all,
  same_key, new_index_of, is_removed, is_added, record_move, scan_changed, scan_index, scan, start,
  finish, diff,
}
use halyard.KeyedList.Diff.Moves.{froms, froms-concat, ats, Moves, Moves-concat}

pub ok_unique : {A : Type 0} {r : Result ListError A} {a b : A} → r ≡ ok a → r ≡ ok b → a ≡ b
ok_unique e e' = cc

pub ok_err : {A : Type 0} {r : Result ListError A} {a : A} {x : ListError} → r ≡ ok a → r ≢ err x
ok_err e e' = cc

pub settle_all-froms :
    (goes : ℕ → Option ℕ) (usize_max : ℕ) (stays : List ℕ) (previous : Option DiffOpMove)
    (moved settled : List DiffOpMove)
    → settle_all usize_max stays previous moved ≡ ok settled
    → Moves goes moved
    → (froms settled ≡ froms moved) × Moves goes settled
unfolding settle_all
settle_all-froms goes usize_max stays previous [] settled e h =
    let done : [] ≡ settled = ok_unique refl e in
    subst (λ q. (froms q ≡ []) × Moves goes q) done (refl, tt)
settle_all-froms goes usize_max stays previous (op ∷ moved) settled e h =
    elim (Result-cases (settle usize_max stays previous op)) [
      | inr (x, e1) ↦ absurd (ok_err {x = x} e (rw (e1, settle_all) refl))
      | inl (b, e1) ↦
          let op' : DiffOpMove = record op { move_in_dom = b } in
          elim (Result-cases (settle_all usize_max stays (some op') moved)) [
            | inr (x, e2) ↦ absurd (ok_err {x = x} e (rw (e1, e2, settle_all) refl))
            | inl (rest, e2) ↦
                let (same, m) =
                  settle_all-froms goes usize_max stays (some op') moved rest e2 h.1 in
                let done : op' ∷ rest ≡ settled = ok_unique (rw (e1, e2, settle_all) refl) e in
                subst (λ q. (froms q ≡ op.from ∷ froms moved) × Moves goes q) done
                  (ap (λ l. op.from ∷ l) same, (h.0, m))
          ]
    ]

module _ (sets : KeySets) (usize_max : ℕ) where
  open sets use {
    Key, key_eq, key_eq_iff, KeySet, len, get_index, get_index_of, contains, get_index-lt,
    get_index-none, get_index_of_iff, contains_iff,
  }

  module _ (from to : KeySet) where
    abbrev pub leaves : ℕ → Bool
    leaves i =
        is_removed sets usize_max (get_index from i)
          (new_index_of sets usize_max to (get_index from i))

    abbrev pub arrives : ℕ → Bool
    arrives j = is_added sets usize_max from (get_index to j)

    -- The new index of a key that is kept at another index.
    abbrev pub goes : ℕ → Option ℕ
    goes i =
        if same_key sets usize_max (get_index from i) (get_index to i)
        then none
        else new_index_of sets usize_max to (get_index from i)

    -- The variables of the first loop, before index `n`.
    pub record Scanned (n : ℕ) (s : Scan) : Type 0 where
      pub gone : s.removed ≡ upto leaves n
      pub come : ats s.added ≡ upto arrives n
      pub movers : froms s.moved ≡ upto (λ i. is_some (goes i)) n
      pub moves : Moves goes s.moved

    pub same_key-key : (a b : Option Key) → same_key sets usize_max a b ≡ true → a ≡ b
    same_key-key none none h = refl
    same_key-key none (some b) h = cc
    same_key-key (some a) none h = cc
    same_key-key (some a) (some b) h = ap some ((key_eq_iff a b).0 h)

    pub same_key-stays :
        (i : ℕ)
        → same_key sets usize_max (get_index from i) (get_index to i) ≡ true
        → (leaves i ≡ false) × (arrives i ≡ false)
    same_key-stays i h =
        let both = same_key-key (get_index from i) (get_index to i) h in
        elim (Option-cases (get_index from i)) [
          | inl e ↦ (rw e refl, rw (sym both ∙ e) refl)
          | inr (key, e) ↦
              let here : get_index_of to key ≡ some i =
                (get_index_of_iff to key i).1 (sym both ∙ e) in
              let there : get_index_of from key ≡ some i = (get_index_of_iff from key i).1 e in
              let kept : contains from key ≡ true = elim (Bool-cases (contains from key)) [
                | inl yes_kept ↦ yes_kept
                | inr lost ↦ let none_there = (contains_iff from key).0 lost in absurd cc
              ] in
              (rw (e, here) refl, rw (sym both ∙ e, kept) refl)
        ]
