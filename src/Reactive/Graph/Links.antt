-- ===== src/Reactive/Graph/Links.antt =====
-- The two ends of a link: a subscriber's sources and a source's subscribers.
pub mod Kept
pub mod Cleared
use halyard.Prelude.{
  ℕ, ◌≡◌, ◌≢◌, refl, sym, ap, ◌∙◌, Bool, true, false, not, ◌&&◌, ◌||◌, Bool-cases, inl, inr, Option,
  none, some, Option-cases, List, [], ◌∷◌, ◌==◌, if◌then◌else◌, arith,
}
use halyard.Prelude.Ranges.{memb}
use halyard.Reactive.Graph.{
  IndexSets, Node, signal, memo, effect, Graph, put, add_subscriber, remove_subscriber, add_source,
  remove_from_each, clear_sources, track,
}

abbrev pub same_bit : Bool → Bool
same_bit b = b

pub if_same : (c b : Bool) → b ≡ (if c then b else b)
if_same true b = refl
if_same false b = refl

module _ (sets : IndexSets) where
  open sets use {
    IndexSet, items, empty, insert, shift_remove, items-empty, memb-insert, memb-shift_remove,
  }

  abbrev pub subscribers_of : Option (Node sets) → List ℕ
  subscribers_of (some (signal subs)) = items subs
  subscribers_of (some (memo m)) = items m.subscribers
  subscribers_of _ = []

  abbrev pub sources_of : Option (Node sets) → List ℕ
  sources_of (some (memo m)) = items m.sources
  sources_of (some (effect e)) = items e.sources
  sources_of _ = []

  abbrev pub is_source : Option (Node sets) → Bool
  is_source (some (signal subs)) = true
  is_source (some (memo m)) = true
  is_source _ = false

  abbrev pub is_subscriber : Option (Node sets) → Bool
  is_subscriber (some (memo m)) = true
  is_subscriber (some (effect e)) = true
  is_subscriber _ = false

  -- Whether the source `s` has the subscriber `m`, and whether `m` has the source `s`.
  abbrev pub subscribes : Graph sets → ℕ → ℕ → Bool
  subscribes g s m = memb m (subscribers_of (g s))

  abbrev pub has_source : Graph sets → ℕ → ℕ → Bool
  has_source g m s = memb s (sources_of (g m))

  -- The kinds of the nodes are the same.
  pub record SameKinds (g g' : Graph sets) : Type 0 where
    pub source : (j : ℕ) → is_source (g' j) ≡ is_source (g j)
    pub subscriber : (j : ℕ) → is_subscriber (g' j) ≡ is_subscriber (g j)

  -- A property of nodes that a change of the one at `id` keeps.
  pub put-keeps :
      {A : Type 0} (p : Option (Node sets) → A) (id : ℕ) (node : Node sets) (g : Graph sets)
      → p (some node) ≡ p (g id)
      → (j : ℕ) → p (put sets id node g j) ≡ p (g j)
  put-keeps p id node g h j = elim (Bool-cases (id == j)) [
    | inl e ↦ let same : id ≡ j = ground arith in rw e (h ∙ ap (λ q. p (g q)) same)
    | inr e ↦ rw e refl
  ]

  pub put-at :
      {A : Type 0} (p : Option (Node sets) → A) (id : ℕ) (node : Node sets) (g : Graph sets) (j : ℕ)
      → (id == j) ≡ true
      → p (put sets id node g j) ≡ p (some node)
  put-at p id node g j e = rw e refl

  pub put-off :
      {A : Type 0} (p : Option (Node sets) → A) (id : ℕ) (node : Node sets) (g : Graph sets) (j : ℕ)
      → (id == j) ≡ false
      → p (put sets id node g j) ≡ p (g j)
  put-off p id node g j e = rw e refl

  -- What an operation on one link does to every link: it sets the bits at `s`, `m`.
  pub record Sets (g g' : Graph sets) (s m : ℕ) (sub src : Bool → Bool) : Type 0 where
    pub kinds : SameKinds g g'
    pub subs :
        (s' m' : ℕ)
        → subscribes g' s' m'
          ≡ (if s == s' && m == m' then sub (subscribes g s' m') else subscribes g s' m')
    pub srcs :
        (m' s' : ℕ)
        → has_source g' m' s'
          ≡ (if s == s' && m == m' then src (has_source g m' s') else has_source g m' s')

  pub Sets-none : (g : Graph sets) (s m : ℕ) → Sets g g s m same_bit same_bit
  Sets-none g s m = record {
    kinds = record { source = λ j. refl; subscriber = λ j. refl };
    subs = λ s' m'. if_same (s == s' && m == m') (subscribes g s' m');
    srcs = λ m' s'. if_same (s == s' && m == m') (has_source g m' s');
  }

  -- A change of the subscribers of `s` that changes only the bit of `m`.
  pub put-subs :
      (g : Graph sets) (s m : ℕ) (sub : Bool → Bool) (node : Node sets)
      → is_source (some node) ≡ is_source (g s)
      → is_subscriber (some node) ≡ is_subscriber (g s)
      → sources_of (some node) ≡ sources_of (g s)
      → ((j : ℕ)
          → memb j (subscribers_of (some node)) ≡ (
              if m == j
              then sub (memb j (subscribers_of (g s)))
              else memb j (subscribers_of (g s))))
      → Sets g (put sets s node g) s m sub same_bit
  put-subs g s m sub node kind kind' srcs subs = record {
    kinds = record {
      source = put-keeps is_source s node g kind;
      subscriber = put-keeps is_subscriber s node g kind';
    };
    subs = λ s' m'. elim (Bool-cases (s == s')) [
      | inl e ↦
          let same : s ≡ s' = ground arith in
          put-at (λ o. memb m' (subscribers_of o)) s node g s' e
          ∙ subs m'
          ∙ ap
              (λ q.
                if m == m'
                then sub (memb m' (subscribers_of (g q)))
                else memb m' (subscribers_of (g q)))
              same
          ∙ rw e refl
      | inr e ↦ put-off (λ o. memb m' (subscribers_of o)) s node g s' e ∙ rw e refl
    ];
    srcs = λ m' s'.
        ap (memb s') (put-keeps sources_of s node g srcs m')
        ∙ if_same (s == s' && m == m') (has_source g m' s');
  }

  -- A change of the sources of `m` that changes only the bit of `s`.
  pub put-srcs :
      (g : Graph sets) (s m : ℕ) (src : Bool → Bool) (node : Node sets)
      → is_source (some node) ≡ is_source (g m)
      → is_subscriber (some node) ≡ is_subscriber (g m)
      → subscribers_of (some node) ≡ subscribers_of (g m)
      → ((j : ℕ)
          → memb j (sources_of (some node))
            ≡ (if s == j then src (memb j (sources_of (g m))) else memb j (sources_of (g m))))
      → Sets g (put sets m node g) s m same_bit src
  put-srcs g s m src node kind kind' subs srcs = record {
    kinds = record {
      source = put-keeps is_source m node g kind;
      subscriber = put-keeps is_subscriber m node g kind';
    };
    subs = λ s' m'.
        ap (memb m') (put-keeps subscribers_of m node g subs s')
        ∙ if_same (s == s' && m == m') (subscribes g s' m');
    srcs = λ m' s'. elim (Bool-cases (m == m')) [
      | inl e ↦
          let same : m ≡ m' = ground arith in
          put-at (λ o. memb s' (sources_of o)) m node g m' e
          ∙ srcs s'
          ∙ ap
              (λ q.
                if s == s' then src (memb s' (sources_of (g q))) else memb s' (sources_of (g q)))
              same
          ∙ ground arith
      | inr e ↦ put-off (λ o. memb s' (sources_of o)) m node g m' e ∙ ground arith
    ];
  }
