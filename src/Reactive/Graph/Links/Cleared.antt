-- ===== src/Reactive/Graph/Links/Cleared.antt =====
-- The links of a graph when a source is tracked and when the sources of a node are cleared.
use halyard.Prelude.{
  ℕ, ◌≡◌, ◌≢◌, refl, sym, ap, ◌∙◌, subst, true, false, ◌&&◌, Bool-cases, inl, inr, some,
  Option-cases, List, [], ◌∷◌, ◌==◌, if◌then◌else◌, arith,
}
use halyard.Prelude.Ranges.{memb}
use halyard.Reactive.Graph.{
  IndexSets, Node, signal, memo, effect, Graph, put, add_subscriber, remove_subscriber, add_source,
  remove_from_each, clear_sources, track,
}
use halyard.Reactive.Graph.Links.{
  subscribers_of, sources_of, is_source, is_subscriber, subscribes, has_source, SameKinds, if_same,
  put-keeps, put-at, put-off,
}
use halyard.Reactive.Graph.Links.Kept.{
  IsLinked, add_subscriber-Sets, remove_subscriber-Sets, add_source-Sets, Sets-both, Sets-IsLinked,
}

module _ (sets : IndexSets) where
  open sets use {IndexSet, items, empty, items-empty}

  -- Reading a live source under a live observer that is not the source itself links the two at both ends, leaves
  -- every other link as it was, and keeps the ends of every link together.
  pub track-IsLinked :
      (s m : ℕ) (g : Graph sets)
      → is_source sets (g s) ≡ true
      → is_subscriber sets (g m) ≡ true
      → s ≢ m
      → IsLinked sets g
      → IsLinked sets (track sets s (some m) g)
        × (subscribes sets (track sets s (some m) g) s m ≡ true)
        × (has_source sets (track sets s (some m) g) m s ≡ true)
        × ((s' m' : ℕ)
            → (s == s' && m == m') ≡ false
            → (subscribes sets (track sets s (some m) g) s' m' ≡ subscribes sets g s' m')
              × (has_source sets (track sets s (some m) g) m' s' ≡ has_source sets g m' s'))
  unfolding track
  track-IsLinked s m g live live' apart l =
      let differ : (s == m) ≡ false = ground arith in
      let differ' : (m == s) ≡ false = ground arith in
      let g1 = add_source sets m s g in
      let a = add_source-Sets sets m s g live' differ in
      let b = add_subscriber-Sets sets s m g1 (a.kinds.source s ∙ live) differ' in
      let both = Sets-both sets g g1 (add_subscriber sets s m g1) s m a b in
      let here : (s == s && m == m) ≡ true = ground arith in
      (
        Sets-IsLinked sets g (add_subscriber sets s m g1) s m both l,
        both.subs s m ∙ rw here refl,
        both.srcs m s ∙ rw here refl,
        λ s' m' off. (both.subs s' m' ∙ rw off refl, both.srcs m' s' ∙ rw off refl),
      )

  -- `m` is taken out of the subscribers of each of `from`, and nothing else changes.
  record Detaches (g g' : Graph sets) (from : List ℕ) (m : ℕ) : Type 0 where
    kinds : SameKinds sets g g'
    subs :
        (s' m' : ℕ)
        → subscribes sets g' s' m'
          ≡ (if m == m' && memb s' from then false else subscribes sets g s' m')
    srcs : (m' s' : ℕ) → has_source sets g' m' s' ≡ has_source sets g m' s'

  remove_from_each-Detaches :
      (from : List ℕ) (m : ℕ) (g : Graph sets) → Detaches g (remove_from_each sets from m g) from m
  unfolding remove_from_each
  remove_from_each-Detaches [] m g = record {
    kinds = record { source = λ j. refl; subscriber = λ j. refl };
    subs = λ s' m'. ground arith;
    srcs = λ m' s'. refl;
  }
  remove_from_each-Detaches (s ∷ from) m g =
      let g1 = remove_subscriber sets s m g in
      let a = remove_subscriber-Sets sets s m g in
      let b = remove_from_each-Detaches from m g1 in
      record {
        kinds = record {
          source = λ j. b.kinds.source j ∙ a.kinds.source j;
          subscriber = λ j. b.kinds.subscriber j ∙ a.kinds.subscriber j;
        };
        subs = λ s' m'. let first = a.subs s' m' in b.subs s' m' ∙ ground arith;
        srcs = λ m' s'.
            b.srcs m' s'
            ∙ a.srcs m' s'
            ∙ sym (if_same (s == s' && m == m') (has_source sets g m' s'));
      }

  -- What `clear_sources` of `m` does to every link.
  record Clears (g g' : Graph sets) (m : ℕ) : Type 0 where
    kinds : SameKinds sets g g'
    subs :
        (s' m' : ℕ)
        → subscribes sets g' s' m'
          ≡ (if m == m' && has_source sets g m s' then false else subscribes sets g s' m')
    srcs :
        (m' s' : ℕ)
        → has_source sets g' m' s' ≡ (if m == m' then false else has_source sets g m' s')

  put-Clears :
      (m : ℕ) (g : Graph sets) (node node' : Node sets)
      → g m ≡ some node
      → is_source sets (some node') ≡ is_source sets (some node)
      → is_subscriber sets (some node') ≡ is_subscriber sets (some node)
      → subscribers_of sets (some node') ≡ subscribers_of sets (some node)
      → sources_of sets (some node') ≡ []
      → Clears g (remove_from_each sets (sources_of sets (some node)) m (put sets m node' g)) m
  put-Clears m g node node' e kind kind' subs srcs =
      let g1 = put sets m node' g in
      let a = remove_from_each-Detaches (sources_of sets (some node)) m g1 in
      let same_kind =
        put-keeps sets (is_source sets) m node' g (kind ∙ ap (is_source sets) (sym e)) in
      let same_kind' =
        put-keeps sets (is_subscriber sets) m node' g (kind' ∙ ap (is_subscriber sets) (sym e)) in
      let same_subs =
        put-keeps sets (subscribers_of sets) m node' g (subs ∙ ap (subscribers_of sets) (sym e)) in
      record {
        kinds = record {
          source = λ j. a.kinds.source j ∙ same_kind j;
          subscriber = λ j. a.kinds.subscriber j ∙ same_kind' j;
        };
        subs = λ s' m'.
            let listed : memb s' (sources_of sets (some node)) ≡ has_source sets g m s' =
              ap (λ o. memb s' (sources_of sets o)) (sym e) in
            let kept : subscribes sets g1 s' m' ≡ subscribes sets g s' m' =
              ap (memb m') (same_subs s') in
            a.subs s' m' ∙ rw (listed, kept) refl;
        srcs = λ m' s'. a.srcs m' s' ∙ (elim (Bool-cases (m == m')) [
          | inl at ↦
              put-at sets (λ o. memb s' (sources_of sets o)) m node' g m' at
              ∙ ap (memb s') srcs
              ∙ rw at refl
          | inr at ↦ put-off sets (λ o. memb s' (sources_of sets o)) m node' g m' at ∙ rw at refl
        ]);
      }

  clear_sources-Clears :
      (m : ℕ) (g : Graph sets)
      → is_subscriber sets (g m) ≡ true
      → Clears g (clear_sources sets m g) m
  unfolding clear_sources
  clear_sources-Clears m g live = elim (Option-cases (g m)) [
    | inl e ↦ let lost : false ≡ true = rw e at live in absurd cc
    | inr (node, e) ↦ with_node node e
  ]
    where
      with_node : (node : Node sets) → g m ≡ some node → Clears g (clear_sources sets m g) m
      with_node (signal subs) e = let lost : false ≡ true = rw e at live in absurd cc
      with_node (memo x) e =
          rw (e, clear_sources)
            (put-Clears m g (memo x) (memo (record x { sources = empty })) e refl refl refl
              items-empty)
      with_node (effect x) e =
          rw (e, clear_sources)
            (put-Clears m g (effect x) (effect (record x { sources = empty })) e refl refl refl
              items-empty)

  -- Clearing the sources of a memo or an effect leaves it without sources, and no source with it as a subscriber; the
  -- links of the others are as before, and the ends of every link stay together.
  pub clear_sources-IsLinked :
      (m : ℕ) (g : Graph sets)
      → is_subscriber sets (g m) ≡ true
      → IsLinked sets g
      → IsLinked sets (clear_sources sets m g)
        × ((s : ℕ)
            → (has_source sets (clear_sources sets m g) m s ≡ false)
              × (subscribes sets (clear_sources sets m g) s m ≡ false))
        × ((m' s : ℕ)
            → m ≢ m'
            → (has_source sets (clear_sources sets m g) m' s ≡ has_source sets g m' s)
              × (subscribes sets (clear_sources sets m g) s m' ≡ subscribes sets g s m'))
  clear_sources-IsLinked m g live l =
      let a = clear_sources-Clears m g live in
      let here : (m == m) ≡ true = ground arith in
      let unlisted : (s : ℕ) → subscribes sets (clear_sources sets m g) s m ≡ false = λ s.
        a.subs s m ∙ (elim (Bool-cases (has_source sets g m s)) [
          | inl e ↦ rw (here, e) refl
          | inr e ↦ elim (Bool-cases (subscribes sets g s m)) [
            | inl there ↦ let listed = l.backward s m live there in absurd cc
            | inr off ↦ rw (here, e) off
          ]
        ]) in
      (
        record {
          forward = λ m' s' live' h. elim (Bool-cases (m == m')) [
            | inl e ↦ let lost : false ≡ true = sym (a.srcs m' s' ∙ rw e refl) ∙ h in absurd cc
            | inr e ↦
                let before : has_source sets g m' s' ≡ true = sym (a.srcs m' s' ∙ rw e refl) ∙ h in
                a.subs s' m' ∙ rw e (l.forward m' s' (sym (a.kinds.source s') ∙ live') before)
          ];
          backward = λ s' m' live' h. elim (Bool-cases (m == m')) [
            | inl e ↦
                let same : m ≡ m' = ground arith in
                let off : subscribes sets (clear_sources sets m g) s' m' ≡ false =
                  subst (λ q. subscribes sets (clear_sources sets m g) s' q ≡ false) same
                    (unlisted s') in
                absurd cc
            | inr e ↦
                let before : subscribes sets g s' m' ≡ true = sym (a.subs s' m' ∙ rw e refl) ∙ h in
                a.srcs m' s' ∙ rw e (l.backward s' m' (sym (a.kinds.subscriber m') ∙ live') before)
          ];
        },
        λ s. (a.srcs m s ∙ rw here refl, unlisted s),
        λ m' s apart.
            let off : (m == m') ≡ false = ground arith in
            (a.srcs m' s ∙ rw off refl, a.subs s m' ∙ rw off refl),
      )
