-- ===== src/Reactive/Graph/Marks/Reach.antt =====
-- The nodes that a mark reaches.
use halyard.Prelude.{ℕ, ◌<◌, ◌≡◌, ◌⊎◌, refl, sym, ap, ◌∙◌, true, inl, inr, List}
use halyard.Prelude.Ranges.{memb}
use halyard.Reactive.Graph.{IndexSets, Graph}
use halyard.Reactive.Graph.Marks.{nexts, nexts-marked, IsMarked}

-- From `i`, following the lists of `next`, `j` is reached.
pub data Reaches (next : ℕ → List ℕ) : ℕ → ℕ → Type 0 where
  here : (i : ℕ) → Reaches next i i
  onward : (i k j : ℕ) → memb k (next i) ≡ true → Reaches next k j → Reaches next i j

pub Reaches-ext :
    (next next' : ℕ → List ℕ) (i j : ℕ)
    → ((k : ℕ) → next k ≡ next' k)
    → Reaches next i j
    → Reaches next' i j
Reaches-ext next next' i j same (here _) = here i
Reaches-ext next next' i j same (onward _ k _ at rest) =
    onward i k j (sym (ap (memb k) (same i)) ∙ at) (Reaches-ext next next' k j same rest)

-- Through one of the list.
abbrev pub FromEach : (ℕ → List ℕ) → List ℕ → ℕ → Type 0
FromEach next subs j = (k : ℕ) × (memb k subs ≡ true) × Reaches next k j

pub Reaches-split :
    (next : ℕ → List ℕ) (i j : ℕ) → Reaches next i j → (i ≡ j) ⊎ FromEach next (next i) j
Reaches-split next i j (here _) = inl refl
Reaches-split next i j (onward _ k _ at rest) = inr (k, at, rest)

-- The rank falls along the lists of `next`, so that they have no cycle.
abbrev pub Ranked : (ℕ → ℕ) → (ℕ → List ℕ) → Type 0
Ranked rank next = (i k : ℕ) → memb k (next i) ≡ true → rank k < rank i

module _ (sets : IndexSets) where
  -- Where `mark_check` goes on to.
  abbrev pub next_of : Graph sets → ℕ → List ℕ
  next_of g i = nexts sets (g i)

  pub next_of-marked :
      (d c : ℕ → Type 0) (g g' : Graph sets) (m : IsMarked sets d c g g') (k : ℕ)
      → next_of g k ≡ next_of g' k
  next_of-marked d c g g' m k =
      sym (nexts-marked sets (m.level k) (g k)) ∙ ap (nexts sets) (sym (m.is k))

  pub marked-Ranked :
      (d c : ℕ → Type 0) (g g' : Graph sets) (rank : ℕ → ℕ)
      → IsMarked sets d c g g'
      → Ranked rank (next_of g)
      → Ranked rank (next_of g')
  marked-Ranked d c g g' rank m h i k at = h i k (ap (memb k) (next_of-marked d c g g' m i) ∙ at)
