-- ===== src/Reactive/Graph/Marks/Notified.antt =====
-- What a trigger marks when it notifies: it gives up its subscribers first.
use halyard.Prelude.{
  ℕ, ◌<◌, ◌≡◌, refl, sym, ap, ◌∙◌, true, false, Bool-cases, inl, inr, some, ◌==◌, arith,
}
use halyard.Prelude.Ranges.{memb}
use halyard.Reactive.Graph.{
  IndexSets, signal, Graph, put, mark_each, mark_dirty, notify, trigger_mark_subscribers,
}
use halyard.Reactive.Graph.Marks.{nexts, IsMarked}
use halyard.Reactive.Graph.Marks.Reach.{FromEach, Ranked, next_of}
use halyard.Reactive.Graph.Marks.Reached.{is_signal, each-Along}

module _ (sets : IndexSets) where
  open sets use {IndexSet, items, empty}

  emptied-keeps :
      {A : Type 0} (p : _ → A) (id : ℕ) (g : Graph sets) (subs : IndexSet)
      → g id ≡ some (signal subs)
      → p (some (signal empty)) ≡ p (some (signal subs))
      → (k : ℕ) → p (put sets id (signal empty) g k) ≡ p (g k)
  emptied-keeps p id g subs at same k = elim (Bool-cases (id == k)) [
    | inl e ↦
        let here : id ≡ k = ground arith in rw e (same ∙ ap p (sym at) ∙ ap (λ q. p (g q)) here)
    | inr e ↦ rw e refl
  ]

  notify-signal :
      (fuel id : ℕ) (g : Graph sets) (subs : IndexSet)
      → g id ≡ some (signal subs)
      → notify sets fuel id g
        ≡ mark_each sets (mark_dirty sets fuel) (items subs) (put sets id (signal empty) g)
  unfolding notify trigger_mark_subscribers
  notify-signal fuel id g subs e = rw (e, notify) refl

  -- When a trigger notifies, it is left without subscribers; those that it had become dirty, every node that they
  -- lead to is at least to be checked, and nothing else changes. It ends: a rank that falls from each memo to its
  -- subscribers bounds the fuel.
  pub notify-Reaches :
      (rank : ℕ → ℕ) (fuel id : ℕ) (g : Graph sets) (subs : IndexSet)
      → Ranked rank (next_of sets g)
      → g id ≡ some (signal subs)
      → ((k : ℕ) → memb k (items subs) ≡ true → (is_signal sets (g k) ≡ false) × (rank k < fuel))
      → (g' : Graph sets) × (notify sets fuel id g ≡ some g')
        × IsMarked sets
            (λ j. memb j (items subs) ≡ true)
            (FromEach (next_of sets g) (items subs))
            (put sets id (signal empty) g)
            g'
        × (g' id ≡ some (signal empty))
  notify-Reaches rank fuel id g subs ranked at h =
      let (g', e, m) =
        each-Along sets rank (next_of sets g) ranked fuel (put sets id (signal empty) g) subs
          (λ k k_in.
            (emptied-keeps (is_signal sets) id g subs at refl k ∙ (h k k_in).0, (h k k_in).1))
          (emptied-keeps (nexts sets) id g subs at refl) in
      let here : (id == id) ≡ true = ground arith in
      (g', notify-signal fuel id g subs at ∙ e, m, m.is id ∙ rw here refl)
