-- ===== src/Reactive/Graph/Marks.antt =====
-- How marks add up: a node is raised to check or to dirty, and never lowered.
pub mod Reach
pub mod Marking
pub mod Reached
pub mod Notified
use halyard.Prelude.{
  ℕ, ◌≡◌, ◌≢◌, ◌⊎◌, refl, sym, ap, ◌∙◌, Bool, true, false, Bool-cases, inl, inr, Option, none, some,
  List, [], ◌==◌, if◌then◌else◌, arith,
}
use halyard.Reactive.Graph.{
  IndexSets, ReactiveNodeState, clean, check, dirty, Node, signal, memo, effect, Graph, EffectInner,
  put, checked_state,
}

pub data Mark : Type 0 where
  untouched to_check to_dirty : Mark

abbrev pub join : Mark → Mark → Mark
join to_dirty l = to_dirty
join to_check to_dirty = to_dirty
join to_check _ = to_check
join untouched l = l

abbrev pub raise : Mark → ReactiveNodeState → ReactiveNodeState
raise untouched s = s
raise to_check s = checked_state s
raise to_dirty s = dirty

pub join-touched : (a b : Mark) → join a b ≢ untouched → (a ≢ untouched) ⊎ (b ≢ untouched)
join-touched untouched b h = inr h
join-touched to_check b h = inl cc
join-touched to_dirty b h = inl cc

pub join-left : (a b : Mark) → a ≢ untouched → join a b ≢ untouched
join-left untouched b h = absurd (h refl)
join-left to_check untouched h = cc
join-left to_check to_check h = cc
join-left to_check to_dirty h = cc
join-left to_dirty b h = cc

pub join-right : (a b : Mark) → b ≢ untouched → join a b ≢ untouched
join-right untouched b h = h
join-right to_check untouched h = cc
join-right to_check to_check h = cc
join-right to_check to_dirty h = cc
join-right to_dirty b h = cc

pub join-dirty : (a b : Mark) → b ≡ to_dirty → join a b ≡ to_dirty
join-dirty untouched b h = h
join-dirty to_check b h = rw h refl
join-dirty to_dirty b h = refl

join-all_dirty : (a b : Mark) → join a b ≡ to_dirty → (a ≡ to_dirty) ⊎ (b ≡ to_dirty)
join-all_dirty untouched b h = inr h
join-all_dirty to_check untouched h = absurd cc
join-all_dirty to_check to_check h = absurd cc
join-all_dirty to_check to_dirty h = inr refl
join-all_dirty to_dirty b h = inl refl

raise-join : (a b : Mark) (s : ReactiveNodeState) → raise b (raise a s) ≡ raise (join a b) s
raise-join untouched b s = refl
raise-join to_check untouched s = refl
raise-join to_check to_check clean = refl
raise-join to_check to_check check = refl
raise-join to_check to_check dirty = refl
raise-join to_check to_dirty s = refl
raise-join to_dirty untouched s = refl
raise-join to_dirty to_check s = refl
raise-join to_dirty to_dirty s = refl

module _ (sets : IndexSets) where
  open sets use {items}

  abbrev pub raise_effect : Mark → EffectInner sets → EffectInner sets
  raise_effect untouched e = e
  raise_effect to_check e = record e { notified = true }
  raise_effect to_dirty e = record e { dirty = true; notified = true }

  raise_effect-join :
      (a b : Mark) (e : EffectInner sets)
      → raise_effect b (raise_effect a e) ≡ raise_effect (join a b) e
  raise_effect-join untouched b e = refl
  raise_effect-join to_check untouched e = refl
  raise_effect-join to_check to_check e = refl
  raise_effect-join to_check to_dirty e = refl
  raise_effect-join to_dirty untouched e = refl
  raise_effect-join to_dirty to_check e = refl
  raise_effect-join to_dirty to_dirty e = refl

  -- A node with a mark put on it.
  abbrev pub marked : Mark → Option (Node sets) → Option (Node sets)
  marked l none = none
  marked l (some (signal subs)) = some (signal subs)
  marked l (some (memo m)) = some (memo (record m { state = raise l m.state }))
  marked l (some (effect e)) = some (effect (raise_effect l e))

  marked-untouched : (o : Option (Node sets)) → marked untouched o ≡ o
  marked-untouched none = refl
  marked-untouched (some (signal subs)) = refl
  marked-untouched (some (memo m)) = refl
  marked-untouched (some (effect e)) = refl

  marked-join : (a b : Mark) (o : Option (Node sets)) → marked b (marked a o) ≡ marked (join a b) o
  marked-join a b none = refl
  marked-join a b (some (signal subs)) = refl
  marked-join a b (some (memo m)) =
      ap (λ s. some (memo (record m { state = s }))) (raise-join a b m.state)
  marked-join a b (some (effect e)) = ap (λ e'. some (effect e')) (raise_effect-join a b e)

  -- The subscribers that a mark of the node goes on to.
  abbrev pub nexts : Option (Node sets) → List ℕ
  nexts (some (memo m)) = items m.subscribers
  nexts _ = []

  pub nexts-marked : (l : Mark) (o : Option (Node sets)) → nexts (marked l o) ≡ nexts o
  nexts-marked l none = refl
  nexts-marked l (some (signal subs)) = refl
  nexts-marked l (some (memo m)) = refl
  nexts-marked l (some (effect e)) = refl

  -- Every node with a mark put on it: dirty exactly where `d` holds, and one or the other exactly where `d` or
  -- `c` holds.
  pub record IsMarked (d c : ℕ → Type 0) (g g' : Graph sets) : Type 0 where
    pub level : ℕ → Mark
    pub is : (j : ℕ) → g' j ≡ marked (level j) (g j)
    pub dirties : (j : ℕ) → d j → level j ≡ to_dirty
    pub dirty_only : (j : ℕ) → level j ≡ to_dirty → d j
    pub checks : (j : ℕ) → c j → level j ≢ untouched
    pub only : (j : ℕ) → level j ≢ untouched → d j ⊎ c j

  abbrev pub Never : ℕ → Type 0
  Never j = true ≡ false

  pub IsMarked-none : (g : Graph sets) → IsMarked Never Never g g
  IsMarked-none g = record {
    level = λ j. untouched;
    is = λ j. sym (marked-untouched (g j));
    dirties = λ j h. cc;
    dirty_only = λ j h. absurd cc;
    checks = λ j h. cc;
    only = λ j h. absurd (h refl);
  }

  pub IsMarked-both :
      (d c d' c' : ℕ → Type 0) (g g1 g2 : Graph sets)
      → IsMarked d c g g1
      → IsMarked d' c' g1 g2
      → IsMarked (λ j. d j ⊎ d' j) (λ j. c j ⊎ c' j) g g2
  IsMarked-both d c d' c' g g1 g2 a b = record {
    level = λ j. join (a.level j) (b.level j);
    is = λ j. b.is j ∙ ap (marked (b.level j)) (a.is j) ∙ marked-join (a.level j) (b.level j) (g j);
    dirties = λ j h. elim h [
      | inl x ↦ rw (a.dirties j x) refl
      | inr x ↦ join-dirty (a.level j) (b.level j) (b.dirties j x)
    ];
    dirty_only = λ j h. elim (join-all_dirty (a.level j) (b.level j) h) [
      | inl x ↦ inl (a.dirty_only j x)
      | inr x ↦ inr (b.dirty_only j x)
    ];
    checks = λ j h. elim h [
      | inl x ↦ join-left (a.level j) (b.level j) (a.checks j x)
      | inr x ↦ join-right (a.level j) (b.level j) (b.checks j x)
    ];
    only = λ j h. elim (join-touched (a.level j) (b.level j) h) [
      | inl x ↦ elim (a.only j x) [ inl y ↦ inl (inl y) | inr y ↦ inr (inl y) ]
      | inr x ↦ elim (b.only j x) [ inl y ↦ inl (inr y) | inr y ↦ inr (inr y) ]
    ];
  }

  pub IsMarked-ext :
      (d c d' c' : ℕ → Type 0) (g g' : Graph sets)
      → ((j : ℕ) → d' j → d j)
      → ((j : ℕ) → d j → d' j)
      → ((j : ℕ) → c' j → d j ⊎ c j)
      → ((j : ℕ) → d j ⊎ c j → d' j ⊎ c' j)
      → IsMarked d c g g'
      → IsMarked d' c' g g'
  IsMarked-ext d c d' c' g g' to_d from_d to_c back a = record {
    level = a.level;
    is = a.is;
    dirties = λ j h. a.dirties j (to_d j h);
    dirty_only = λ j h. from_d j (a.dirty_only j h);
    checks = λ j h. elim (to_c j h) [
      | inl x ↦ let full = a.dirties j x in (λ e. cc)
      | inr x ↦ a.checks j x
    ];
    only = λ j h. back j (a.only j h);
  }

  -- A mark on one node.
  pub IsMarked-put :
      (l : Mark) (id : ℕ) (g g' : Graph sets)
      → l ≢ untouched
      → ((j : ℕ) → g' j ≡ (if id == j then marked l (g j) else g j))
      → IsMarked (λ j. (l ≡ to_dirty) × (id ≡ j)) (λ j. id ≡ j) g g'
  IsMarked-put l id g g' h set_at = record {
    level = λ j. if id == j then l else untouched;
    is = λ j. set_at j ∙ (elim (Bool-cases (id == j)) [
      | inl e ↦ rw e refl
      | inr e ↦ rw e (sym (marked-untouched (g j)))
    ]);
    dirties = λ j (full, same). let here : (id == j) ≡ true = ground arith in rw here full;
    dirty_only = λ j touched. elim (Bool-cases (id == j)) [
      | inl e ↦ (rw e at touched, ground arith)
      | inr e ↦ let lost : untouched ≡ to_dirty = rw e at touched in absurd cc
    ];
    checks = λ j same. let here : (id == j) ≡ true = ground arith in rw here h;
    only = λ j touched. elim (Bool-cases (id == j)) [
      | inl e ↦ inr (ground arith)
      | inr e ↦ absurd ((rw e at touched) refl)
    ];
  }
