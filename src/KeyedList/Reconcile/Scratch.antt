-- ===== src/KeyedList/Reconcile/Scratch.antt =====
-- Rendering again from scratch puts a new row on the page for every item, in order.
use mathlib.Core.List.{append-nil, append_assoc}
use halyard.Prelude.{
  ℕ, suc, ◌≡◌, ◌≢◌, ◌⊎◌, refl, sym, ap, ◌∙◌, true, ◌++◌, not, ◌||◌, Option, none, some, List, [],
  ◌∷◌, ◌==◌, length, arith,
}
use halyard.KeyedList.{KeySets, ListOps}
use halyard.KeyedList.Labels.{Labels}
use halyard.KeyedList.Reconcile.{build_all, rebuild_from_scratch, reconcile, Reports}
use halyard.KeyedList.Apply.{unmount_all}
use halyard.KeyedList.Apply.OnPage.Plan.{unmount_all-page}
use halyard.KeyedList.Pages.{Pages, ids}
use halyard.KeyedList.Pages.Lists.{without, without_all, without_absent, without_all_self}

module _ (ops : ListOps) (ls : Labels ops) where
  open ops use {Item, Row, State}
  open ls use {Label, label, made, label-build, label-mount}

  -- The labels of the rows built from the items that are there, from `index` on.
  abbrev pub made_from : ℕ → List (Option Item) → List (Option Label)
  made_from index [] = []
  made_from index (none ∷ items) = made_from (suc index) items
  made_from index (some item ∷ items) = some (made index item) ∷ made_from (suc index) items

  abbrev pub labels : List (Option Row) → List (Option Label)
  labels [] = []
  labels (none ∷ rows) = none ∷ labels rows
  labels (some row ∷ rows) = some (label row) ∷ labels rows

  labels-build_all :
      (index : ℕ) (items : List (Option Item)) (s : State)
      → labels (build_all ops index items s).0 ≡ made_from index items
  unfolding build_all
  labels-build_all index [] s = refl
  labels-build_all index (none ∷ items) s = labels-build_all (suc index) items s
  labels-build_all index (some item ∷ items) s =
      rw (label-mount, label-build, labels-build_all (suc index) items) refl

module _ (ops : ListOps) (pages : Pages ops) where
  open ops use {Item, Row, State}
  open pages use {id, page}

  build_all-page :
      (index : ℕ) (items : List (Option Item)) (s : State)
      → page (build_all ops index items s).1
        ≡ page s ++ ids ops pages (build_all ops index items s).0
  unfolding build_all
  build_all-page index [] s = sym (append-nil (page s))
  build_all-page index (none ∷ items) s = build_all-page (suc index) items s
  build_all-page index (some item ∷ items) s =
      let row = (ops.build index item s).0 in
      let s1 = (ops.build index item s).1 in
      let s2 = (ops.mount row none s1).1 in
      let rest = ids ops pages (build_all ops (suc index) items s2).0 in
      let built : page s1 ≡ page s = pages.page-build index item s in
      let fresh : without (id row) (page s1) ≡ page s =
        ap (without (id row)) built
        ∙ without_absent (id row) (page s) (pages.id-build index item s) in
      build_all-page (suc index) items s2
      ∙ ap (λ q. q ++ rest) (pages.page-mount_last row s1 ∙ ap (λ q. q ++ id row ∷ []) fresh)
      ∙ append_assoc (page s) (id row ∷ []) rest
      ∙ ap (λ q. page s ++ q ∷ rest) (sym (pages.id-mount row none s1))

  -- Rendering from scratch takes the rows that were there off the page, and leaves, after whatever else stood on it,
  -- exactly the new rows, in order. There is one for each item that is there, in order, built for its index.
  pub rebuild_from_scratch-page :
      (ls : Labels ops) (rows : List (Option Row)) (items : List (Option Item)) (s : State)
      → (page (rebuild_from_scratch ops rows items s).1
          ≡ without_all (ids ops pages rows) (page s)
            ++ ids ops pages (rebuild_from_scratch ops rows items s).0)
        × (labels ops ls (rebuild_from_scratch ops rows items s).0 ≡ made_from ops ls 0 items)
  unfolding rebuild_from_scratch
  rebuild_from_scratch-page ls rows items s = (
    build_all-page 0 items (unmount_all ops rows s)
        ∙ ap (λ q. q ++ ids ops pages (build_all ops 0 items (unmount_all ops rows s)).0)
            (unmount_all-page ops pages rows s),
    labels-build_all ops ls 0 items (unmount_all ops rows s),
  )

  module _ (sets : KeySets) (usize_max : ℕ) where
    open sets use {KeySet, len}

    -- With repeated keys, that is with fewer or more keys than items in the new list or than rows in the
    -- old one, the list is rendered from scratch: if only its rows stood on the page, these are gone, and the page shows
    -- exactly the new rows, one for each item that is there, in order.
    pub reconcile_repeated :
        (ls : Labels ops) (old_keys new_keys : KeySet) (rows : List (Option Row))
        (items : List (Option Item)) (s : State) (reports : Reports)
        → (length items ≢ len new_keys) ⊎ (length rows ≢ len old_keys)
        → page s ≡ ids ops pages rows
        → (page (reconcile ops sets usize_max old_keys new_keys rows items s reports).state
            ≡ ids ops pages
                (reconcile ops sets usize_max old_keys new_keys rows items s reports).rows)
          × (labels ops ls
                (reconcile ops sets usize_max old_keys new_keys rows items s reports).rows
              ≡ made_from ops ls 0 items)
    unfolding reconcile
    reconcile_repeated ls old_keys new_keys rows items s reports h only =
        let test : (not (length items == len new_keys) || not (length rows == len old_keys))
            ≡ true =
          ground arith in
        let scratch = rebuild_from_scratch-page ls rows items s in
        let cleared : without_all (ids ops pages rows) (page s) ≡ [] =
          ap (without_all (ids ops pages rows)) only ∙ without_all_self (ids ops pages rows) in
        rw test (
          scratch.0
              ∙ ap (λ q. q ++ ids ops pages (rebuild_from_scratch ops rows items s).0) cleared,
          scratch.1,
        )
