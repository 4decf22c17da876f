-- ===== src/KeyedList/Diff/Planned/Accounts.antt =====
-- The keys that stay are as many in both lists.
use halyard.Prelude.{ℕ, ◌+◌, ◌<◌, ◌≡◌, sym, ap, ◌∙◌, not, inl, inr, Option-cases, arith}
use halyard.Prelude.Ranges.{count, count_ext, count_all}
use halyard.Prelude.Ranges.Pairing.{is_some, Paired, count-Paired}
use halyard.KeyedList.{KeySets}
use halyard.KeyedList.Diff.Planned.{leaves, arrives}
use halyard.KeyedList.Diff.Planned.Keys.{
  kept, kept_back, kept-lt, leaves-kept, lost-leaves, arrives-kept, arrives-lost,
}

module _ (sets : KeySets) (usize_max : ℕ) where
  open sets use {KeySet, len}

  module _ (from to : KeySet) where
    kept-Paired :
        Paired (kept sets usize_max from to) (len from) (kept sets usize_max to from) (len to)
    kept-Paired = record {
      there = λ i j lt e.
          ((kept-lt sets usize_max from to i j e).1, kept_back sets usize_max from to i j e);
      back = λ j i lt e.
          ((kept-lt sets usize_max to from j i e).1, kept_back sets usize_max to from j i e);
    }

    is_some-leaves :
        (i : ℕ)
        → i < len from
        → not (leaves sets usize_max from to i) ≡ is_some (kept sets usize_max from to i)
    is_some-leaves i lt = elim (Option-cases (kept sets usize_max from to i)) [
      | inl e ↦
          let off = lost-leaves sets usize_max from to i lt e in ap not off ∙ sym (ap is_some e)
      | inr (j, e) ↦
          let off = leaves-kept sets usize_max from to i j e in ap not off ∙ sym (ap is_some e)
    ]

    is_some-arrives :
        (j : ℕ)
        → j < len to
        → not (arrives sets usize_max from to j) ≡ is_some (kept sets usize_max to from j)
    is_some-arrives j lt = elim (Option-cases (kept sets usize_max to from j)) [
      | inl e ↦
          let off = arrives-lost sets usize_max from to j lt e in ap not off ∙ sym (ap is_some e)
      | inr (i, e) ↦
          let off = arrives-kept sets usize_max from to i j e in ap not off ∙ sym (ap is_some e)
    ]

    -- The old rows less those removed, and the rows added, are as many as the new list's.
    pub count-accounts :
        len from + count (arrives sets usize_max from to) (len to)
        ≡ count (leaves sets usize_max from to) (len from) + len to
    count-accounts =
        let stay : count (λ i. not (leaves sets usize_max from to i)) (len from)
            ≡ count (λ j. not (arrives sets usize_max from to j)) (len to) =
          count_ext (λ i. not (leaves sets usize_max from to i))
            (λ i. is_some (kept sets usize_max from to i)) (len from) is_some-leaves
          ∙ count-Paired (len from) (len to) (kept sets usize_max from to)
              (kept sets usize_max to from) kept-Paired
          ∙ sym (
              count_ext (λ j. not (arrives sets usize_max from to j))
                (λ j. is_some (kept sets usize_max to from j)) (len to) is_some-arrives) in
        let old = count_all (len from) (leaves sets usize_max from to) in
        let new = count_all (len to) (arrives sets usize_max from to) in omega arith
