-- ===== src/Reactive/Graph/Links/Kept.antt =====
-- What an operation on one link sets, and that a link set at both ends keeps the ends together.
use halyard.Prelude.{
  ℕ, ◌≡◌, refl, sym, ap, ◌∙◌, Bool, true, false, ◌&&◌, Bool-cases, inl, inr, some, Option-cases, [],
  ◌==◌, if◌then◌else◌, arith,
}
use halyard.Prelude.Ranges.{memb}
use halyard.Reactive.Graph.{
  IndexSets, Node, signal, memo, effect, Graph, add_subscriber, remove_subscriber, add_source,
}
use halyard.Reactive.Graph.Links.{
  subscribers_of, is_source, is_subscriber, subscribes, has_source, Sets, same_bit, if_same,
  put-subs, put-srcs,
}

abbrev pub set_bit : Bool → Bool
set_bit b = true

abbrev pub clear_bit : Bool → Bool
clear_bit b = false

module _ (sets : IndexSets) where
  open sets use {
    IndexSet, items, empty, insert, shift_remove, items-empty, memb-insert, memb-shift_remove,
  }

  -- A live source has each live subscriber that lists it, and is listed by each that it has.
  pub record IsLinked (g : Graph sets) : Type 0 where
    pub forward :
        (m s : ℕ)
        → is_source sets (g s) ≡ true
        → has_source sets g m s ≡ true
        → subscribes sets g s m ≡ true
    pub backward :
        (s m : ℕ)
        → is_subscriber sets (g m) ≡ true
        → subscribes sets g s m ≡ true
        → has_source sets g m s ≡ true

  pub insert-bit :
      (xs : IndexSet) (i j : ℕ)
      → memb j (items (insert xs i)) ≡ (if i == j then true else memb j (items xs))
  insert-bit xs i j =
      memb-insert xs i j ∙ (elim (Bool-cases (i == j)) [ inl e ↦ rw e refl | inr e ↦ rw e refl ])

  pub remove-bit :
      (xs : IndexSet) (i j : ℕ)
      → memb j (items (shift_remove xs i)) ≡ (if i == j then false else memb j (items xs))
  remove-bit xs i j =
      memb-shift_remove xs i j
      ∙ (elim (Bool-cases (i == j)) [ inl e ↦ rw e refl | inr e ↦ rw e refl ])

  -- Each operation on the node at its address, whatever that node is.
  pub add_subscriber-Sets :
      (s m : ℕ) (g : Graph sets)
      → is_source sets (g s) ≡ true
      → (m == s) ≡ false
      → Sets sets g (add_subscriber sets s m g) s m set_bit same_bit
  unfolding add_subscriber
  add_subscriber-Sets s m g live apart = elim (Option-cases (g s)) [
    | inl e ↦ let lost : false ≡ true = rw e at live in absurd cc
    | inr (node, e) ↦ with_node node e
  ]
    where
      with_node :
          (node : Node sets)
          → g s ≡ some node
          → Sets sets g (add_subscriber sets s m g) s m set_bit same_bit
      with_node (signal subs) e =
          rw (e, add_subscriber)
            (put-subs sets g s m set_bit (signal (insert subs m)) (rw e refl) (rw e refl)
              (rw e refl) (λ j. rw e (insert-bit subs m j)))
      with_node (memo x) e =
          rw (e, add_subscriber, apart)
            (put-subs sets g s m set_bit (memo (record x { subscribers = insert x.subscribers m }))
              (rw e refl) (rw e refl) (rw e refl) (λ j. rw e (insert-bit x.subscribers m j)))
      with_node (effect x) e = let lost : false ≡ true = rw e at live in absurd cc

  pub remove_subscriber-Sets :
      (s m : ℕ) (g : Graph sets) → Sets sets g (remove_subscriber sets s m g) s m clear_bit same_bit
  unfolding remove_subscriber
  remove_subscriber-Sets s m g = elim (Option-cases (g s)) [
    | inl e ↦ rw (e, remove_subscriber) (unlisted (rw e refl))
    | inr (node, e) ↦ with_node node e
  ]
    where
      unlisted : subscribers_of sets (g s) ≡ [] → Sets sets g g s m clear_bit same_bit
      unlisted none_there = record {
        kinds = record { source = λ j. refl; subscriber = λ j. refl };
        subs = λ s' m'. elim (Bool-cases (s == s' && m == m')) [
          | inl e ↦
              let same : s ≡ s' = ground arith in
              rw e (ap (memb m') (ap (λ q. subscribers_of sets (g q)) (sym same) ∙ none_there))
          | inr e ↦ rw e refl
        ];
        srcs = λ m' s'. if_same (s == s' && m == m') (has_source sets g m' s');
      }

      with_node :
          (node : Node sets)
          → g s ≡ some node
          → Sets sets g (remove_subscriber sets s m g) s m clear_bit same_bit
      with_node (signal subs) e =
          rw (e, remove_subscriber)
            (put-subs sets g s m clear_bit (signal (shift_remove subs m)) (rw e refl) (rw e refl)
              (rw e refl) (λ j. rw e (remove-bit subs m j)))
      with_node (memo x) e =
          rw (e, remove_subscriber)
            (put-subs sets g s m clear_bit
              (memo (record x { subscribers = shift_remove x.subscribers m })) (rw e refl)
              (rw e refl) (rw e refl) (λ j. rw e (remove-bit x.subscribers m j)))
      with_node (effect x) e = rw (e, remove_subscriber) (unlisted (rw e refl))

  pub add_source-Sets :
      (m s : ℕ) (g : Graph sets)
      → is_subscriber sets (g m) ≡ true
      → (s == m) ≡ false
      → Sets sets g (add_source sets m s g) s m same_bit set_bit
  unfolding add_source
  add_source-Sets m s g live apart = elim (Option-cases (g m)) [
    | inl e ↦ let lost : false ≡ true = rw e at live in absurd cc
    | inr (node, e) ↦ with_node node e
  ]
    where
      with_node :
          (node : Node sets)
          → g m ≡ some node
          → Sets sets g (add_source sets m s g) s m same_bit set_bit
      with_node (signal subs) e = let lost : false ≡ true = rw e at live in absurd cc
      with_node (memo x) e =
          rw (e, add_source, apart)
            (put-srcs sets g s m set_bit (memo (record x { sources = insert x.sources s }))
              (rw e refl) (rw e refl) (rw e refl) (λ j. rw e (insert-bit x.sources s j)))
      with_node (effect x) e =
          rw (e, add_source)
            (put-srcs sets g s m set_bit (effect (record x { sources = insert x.sources s }))
              (rw e refl) (rw e refl) (rw e refl) (λ j. rw e (insert-bit x.sources s j)))

  pub Sets-both :
      (g g1 g2 : Graph sets) (s m : ℕ)
      → Sets sets g g1 s m same_bit set_bit
      → Sets sets g1 g2 s m set_bit same_bit
      → Sets sets g g2 s m set_bit set_bit
  Sets-both g g1 g2 s m a b = record {
    kinds = record {
      source = λ j. b.kinds.source j ∙ a.kinds.source j;
      subscriber = λ j. b.kinds.subscriber j ∙ a.kinds.subscriber j;
    };
    subs = λ s' m'. b.subs s' m' ∙ (elim (Bool-cases (s == s' && m == m')) [
      | inl e ↦ rw e refl
      | inr e ↦ rw e (a.subs s' m' ∙ rw e refl)
    ]);
    srcs = λ m' s'. b.srcs m' s' ∙ (elim (Bool-cases (s == s' && m == m')) [
      | inl e ↦ rw e (a.srcs m' s' ∙ rw e refl)
      | inr e ↦ rw e (a.srcs m' s' ∙ rw e refl)
    ]);
  }

  pub Sets-IsLinked :
      (g g' : Graph sets) (s m : ℕ) → Sets sets g g' s m set_bit set_bit → IsLinked g → IsLinked g'
  Sets-IsLinked g g' s m a l = record {
    forward = λ m' s' live h. elim (Bool-cases (s == s' && m == m')) [
      | inl e ↦ a.subs s' m' ∙ rw e refl
      | inr e ↦
          let before : has_source sets g m' s' ≡ true = sym (a.srcs m' s' ∙ rw e refl) ∙ h in
          a.subs s' m' ∙ rw e (l.forward m' s' (sym (a.kinds.source s') ∙ live) before)
    ];
    backward = λ s' m' live h. elim (Bool-cases (s == s' && m == m')) [
      | inl e ↦ a.srcs m' s' ∙ rw e refl
      | inr e ↦
          let before : subscribes sets g s' m' ≡ true = sym (a.subs s' m' ∙ rw e refl) ∙ h in
          a.srcs m' s' ∙ rw e (l.backward s' m' (sym (a.kinds.subscriber m') ∙ live) before)
    ];
  }
