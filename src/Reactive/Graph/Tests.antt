-- ===== src/Reactive/Graph/Tests.antt =====
-- Marks and links on a concrete graph: a signal at 1, a memo at 2 and an effect at 3.
use halyard.Prelude.{
  ℕ, ◌-◌, ◌<◌, ◌≡◌, ◌≢◌, refl, sym, ap, ◌∙◌, true, false, not, ◌&&◌, ◌||◌, Bool-cases, inl, inr,
  none, some, List, [], ◌∷◌, ◌++◌, ◌==◌, if◌then◌else◌, arith,
}
use halyard.Prelude.Ranges.{memb, memb-append}
use halyard.Reactive.Graph.{
  IndexSets, clean, signal, memo, effect, Graph, mark_dirty, add_subscriber, add_source, track,
  clear_sources,
}
use halyard.Reactive.Graph.Marks.{IsMarked}
use halyard.Reactive.Graph.Marks.Reach.{FromEach, Ranked, next_of}
use halyard.Reactive.Graph.Marks.Reached.{is_signal, mark_dirty-Reaches}
use halyard.Reactive.Graph.Links.{is_subscriber, subscribes, has_source}
use halyard.Reactive.Graph.Links.Kept.{IsLinked}
use halyard.Reactive.Graph.Links.Cleared.{track-IsLinked, clear_sources-IsLinked}

abbrev without : ℕ → List ℕ → List ℕ
without i [] = []
without i (x ∷ xs) = if x == i then without i xs else x ∷ without i xs

abbrev insert_last : List ℕ → ℕ → List ℕ
insert_last xs i = if memb i xs then xs else xs ++ i ∷ []

memb-insert_last : (xs : List ℕ) (i j : ℕ) → memb j (insert_last xs i) ≡ (i == j || memb j xs)
memb-insert_last xs i j = elim (Bool-cases (memb i xs)) [
  | inl e ↦ rw e (elim (Bool-cases (i == j)) [
    | inl same ↦ let eq : i ≡ j = ground arith in rw same (ap (λ q. memb q xs) (sym eq) ∙ e)
    | inr off ↦ rw off refl
  ])
  | inr e ↦ rw e (ground (arith, memb-append j xs (i ∷ [])))
]

memb-without : (xs : List ℕ) (i j : ℕ) → memb j (without i xs) ≡ (not (i == j) && memb j xs)
memb-without [] i j = ground arith
memb-without (x ∷ xs) i j = let ih = memb-without xs i j in ground arith

abbrev lists : IndexSets
lists = record {
  IndexSet = List ℕ;
  items = λ xs. xs;
  empty = [];
  insert = insert_last;
  shift_remove = λ xs i. without i xs;
  items-empty = refl;
  memb-insert = memb-insert_last;
  memb-shift_remove = memb-without;
}

abbrev counter : Graph lists
counter j =
    if j == 1
    then some (signal (2 ∷ []))
    else if j == 2
    then some (memo (record { state = clean; sources = 1 ∷ []; subscribers = 3 ∷ [] }))
    else if j == 3
    then some (effect (record { dirty = false; notified = false; sources = 2 ∷ [] }))
    else none

abbrev height : ℕ → ℕ
height i = 3 - i

counter-Ranked : Ranked height (next_of lists counter)
counter-Ranked i k at = elim (Bool-cases (i == 1)) [
  | inl e ↦ let lost : false ≡ true = rw e at at in absurd cc
  | inr e ↦ elim (Bool-cases (i == 2)) [
    | inl e' ↦ let third : (3 == k || false) ≡ true = rw (e, e') at at in ground arith
    | inr e' ↦ elim (Bool-cases (i == 3)) [
      | inl e'' ↦ let lost : false ≡ true = rw (e, e', e'') at at in absurd cc
      | inr e'' ↦ let lost : false ≡ true = rw (e, e', e'') at at in absurd cc
    ]
  ]
]

subscribers_low :
    (k : ℕ) → memb k (2 ∷ []) ≡ true → (is_signal lists (counter k) ≡ false) × (height k < 2)
subscribers_low k at =
    let second : 2 ≡ k = ground arith in
    (ap (λ q. is_signal lists (counter q)) (sym second), omega arith)

mark_dirty-Reaches_example :
    (g : Graph lists) × (mark_dirty lists 3 1 counter ≡ some g)
    × IsMarked lists
        (λ j. memb j (2 ∷ []) ≡ true)
        (FromEach (next_of lists counter) (2 ∷ []))
        counter
        g
mark_dirty-Reaches_example =
    mark_dirty-Reaches lists height 2 1 counter (2 ∷ []) counter-Ranked refl subscribers_low

-- A signal at 1 and an effect at 2 that has not run.
abbrev apart : Graph lists
apart j =
    if j == 1
    then some (signal [])
    else if j == 2
    then some (effect (record { dirty = true; notified = false; sources = [] }))
    else none

none_subscribes : (s m : ℕ) → subscribes lists apart s m ≡ false
none_subscribes s m = elim (Bool-cases (s == 1)) [
  | inl e ↦ rw e refl
  | inr e ↦ elim (Bool-cases (s == 2)) [ inl e' ↦ rw (e, e') refl | inr e' ↦ rw (e, e') refl ]
]

none_has_source : (m s : ℕ) → has_source lists apart m s ≡ false
none_has_source m s = elim (Bool-cases (m == 1)) [
  | inl e ↦ rw e refl
  | inr e ↦ elim (Bool-cases (m == 2)) [ inl e' ↦ rw (e, e') refl | inr e' ↦ rw (e, e') refl ]
]

apart-IsLinked : IsLinked lists apart
apart-IsLinked = record {
  forward = λ m s live h. let off = none_has_source m s in absurd cc;
  backward = λ s m live h. let off = none_subscribes s m in absurd cc;
}

abbrev linked : Graph lists
linked = track lists 1 (some 2) apart

track-IsLinked_example :
    IsLinked lists linked
    × (subscribes lists linked 1 2 ≡ true)
    × (has_source lists linked 2 1 ≡ true)
    × ((s m : ℕ)
        → (1 == s && 2 == m) ≡ false
        → (subscribes lists linked s m ≡ subscribes lists apart s m)
          × (has_source lists linked m s ≡ has_source lists apart m s))
track-IsLinked_example = track-IsLinked lists 1 2 apart refl refl (omega arith) apart-IsLinked

linked-live : is_subscriber lists (linked 2) ≡ true
unfolding track add_source add_subscriber
linked-live = refl

linked-IsLinked : IsLinked lists linked
linked-IsLinked = (track-IsLinked lists 1 2 apart refl refl (omega arith) apart-IsLinked).0

clear_sources-IsLinked_example :
    IsLinked lists (clear_sources lists 2 linked)
    × ((s : ℕ)
        → (has_source lists (clear_sources lists 2 linked) 2 s ≡ false)
          × (subscribes lists (clear_sources lists 2 linked) s 2 ≡ false))
    × ((m' s : ℕ)
        → 2 ≢ m'
        → (has_source lists (clear_sources lists 2 linked) m' s ≡ has_source lists linked m' s)
          × (subscribes lists (clear_sources lists 2 linked) s m' ≡ subscribes lists linked s m'))
clear_sources-IsLinked_example = clear_sources-IsLinked lists 2 linked linked-live linked-IsLinked
