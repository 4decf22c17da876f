-- ===== src/Reactive/Graph.antt =====
-- The nodes of the reactive graph and how a change marks them: graph/{node,sets,source,subscriber}.rs,
-- computed/inner.rs, effect/inner.rs and signal/subscriber_traits.rs.
pub mod Marks
pub mod Links
mod Tests
use halyard.Prelude.{
  ℕ, zero, suc, ◌≡◌, Bool, true, false, not, ◌&&◌, ◌||◌, Option, none, some, List, [], ◌∷◌, ◌==◌,
  if◌then◌else◌,
}
use halyard.Prelude.Ranges.{memb}

-- What the sets of the graph use of `indexmap::IndexSet`: sets of addresses, in order of insertion.
pub record IndexSets : Type 1 where
  pub IndexSet : Type 0
  pub items : IndexSet → List ℕ
  pub empty : IndexSet
  pub insert : IndexSet → ℕ → IndexSet
  pub shift_remove : IndexSet → ℕ → IndexSet
  pub items-empty : items empty ≡ []
  pub memb-insert :
      (s : IndexSet) (i j : ℕ) → memb j (items (insert s i)) ≡ (i == j || memb j (items s))
  pub memb-shift_remove :
      (s : IndexSet) (i j : ℕ)
      → memb j (items (shift_remove s i)) ≡ (not (i == j) && memb j (items s))

pub data ReactiveNodeState : Type 0 where
  clean check dirty : ReactiveNodeState

-- The state after `mark_check`.
abbrev pub checked_state : ReactiveNodeState → ReactiveNodeState
checked_state dirty = dirty
checked_state _ = check

module _ (sets : IndexSets) where
  open sets use {IndexSet, items, empty, insert, shift_remove}

  pub record MemoInnerReactivity : Type 0 where
    pub state : ReactiveNodeState
    pub sources : IndexSet
    pub subscribers : IndexSet

  -- `notified` is the flag of the effect's channel.
  pub record EffectInner : Type 0 where
    pub dirty : Bool
    pub notified : Bool
    pub sources : IndexSet

  -- A signal is its set of subscribers.
  pub data Node : Type 0 where
    signal : IndexSet → Node
    memo : MemoInnerReactivity → Node
    effect : EffectInner → Node

  -- The nodes by address; `none` where the node is dropped, so that the weak reference is not upgraded.
  abbrev pub Graph : Type 0
  Graph = ℕ → Option Node

  abbrev pub put : ℕ → Node → Graph → Graph
  put id node g j = if id == j then some node else g j

  -- `for sub in subs { sub.mark(…) }`, where a mark may run out of fuel.
  pub mark_each : (ℕ → Graph → Option Graph) → List ℕ → Graph → Option Graph
  mark_each mark [] g = some g
  mark_each mark (sub ∷ subs) g = elim (mark sub g) [
    | none ↦ none
    | some g' ↦ mark_each mark subs g'
  ]

  -- What a mark does to an effect.
  abbrev pub effect_mark_check : EffectInner → EffectInner
  effect_mark_check e = record e { notified = true }

  abbrev pub effect_mark_dirty : EffectInner → EffectInner
  effect_mark_dirty e = record e { dirty = true; notified = true }

  -- `mark_check` of a node, on fuel.
  pub mark_check : ℕ → ℕ → Graph → Option Graph
  mark_check zero id g = none
  mark_check (suc fuel) id g = elim (g id) [
    | none ↦ some g
    | some node ↦ elim node [
      | signal subs ↦ some g
      | memo m ↦
          mark_each (mark_check fuel) (items m.subscribers)
            (put id (memo (record m { state = checked_state m.state })) g)
      | effect e ↦ some (put id (effect (effect_mark_check e)) g)
    ]
  ]

  -- `mark_subscribers_check` of a signal, which is its `mark_dirty` too.
  abbrev pub signal_mark_subscribers : (ℕ → Graph → Option Graph) → IndexSet → Graph → Option Graph
  signal_mark_subscribers mark subs = mark_each mark (items subs)

  -- `mark_dirty` of a node.
  pub mark_dirty : ℕ → ℕ → Graph → Option Graph
  mark_dirty zero id g = none
  mark_dirty (suc fuel) id g = elim (g id) [
    | none ↦ some g
    | some node ↦ elim node [
      | signal subs ↦ signal_mark_subscribers (mark_dirty fuel) subs g
      | memo m ↦
          mark_each (mark_check fuel) (items m.subscribers)
            (put id (memo (record m { state = dirty })) g)
      | effect e ↦ some (put id (effect (effect_mark_dirty e)) g)
    ]
  ]

  -- `mark_subscribers_check` of a node.
  pub mark_subscribers_check : ℕ → ℕ → Graph → Option Graph
  mark_subscribers_check fuel id g = elim (g id) [
    | none ↦ some g
    | some node ↦ elim node [
      | signal subs ↦ signal_mark_subscribers (mark_dirty fuel) subs g
      | memo m ↦ mark_each (mark_check fuel) (items m.subscribers) g
      | effect e ↦ some g
    ]
  ]

  -- `mark_subscribers_check` of the set of subscribers itself, which is the `mark_dirty` and the `notify` of a trigger:
  -- the subscribers are taken out of the set, and then marked.
  pub trigger_mark_subscribers : (ℕ → Graph → Option Graph) → ℕ → IndexSet → Graph → Option Graph
  trigger_mark_subscribers mark id subs g = mark_each mark (items subs) (put id (signal empty) g)

  -- `notify` of the trigger at the address.
  pub notify : ℕ → ℕ → Graph → Option Graph
  notify fuel id g = elim (g id) [
    | none ↦ some g
    | some node ↦ elim node [
      | signal subs ↦ trigger_mark_subscribers (mark_dirty fuel) id subs g
      | memo m ↦ some g
      | effect e ↦ some g
    ]
  ]

  -- `Source::add_subscriber`: a memo does not subscribe to itself.
  pub add_subscriber : ℕ → ℕ → Graph → Graph
  add_subscriber source subscriber g = elim (g source) [
    | none ↦ g
    | some node ↦ elim node [
      | signal subs ↦ put source (signal (insert subs subscriber)) g
      | memo m ↦
          if subscriber == source
          then g
          else put source (memo (record m { subscribers = insert m.subscribers subscriber })) g
      | effect e ↦ g
    ]
  ]

  pub remove_subscriber : ℕ → ℕ → Graph → Graph
  remove_subscriber source subscriber g = elim (g source) [
    | none ↦ g
    | some node ↦ elim node [
      | signal subs ↦ put source (signal (shift_remove subs subscriber)) g
      | memo m ↦
          put source (memo (record m { subscribers = shift_remove m.subscribers subscriber })) g
      | effect e ↦ g
    ]
  ]

  pub clear_subscribers : ℕ → Graph → Graph
  clear_subscribers source g = elim (g source) [
    | none ↦ g
    | some node ↦ elim node [
      | signal subs ↦ put source (signal empty) g
      | memo m ↦ put source (memo (record m { subscribers = empty })) g
      | effect e ↦ g
    ]
  ]

  -- `Subscriber::add_source`.
  pub add_source : ℕ → ℕ → Graph → Graph
  add_source subscriber source g = elim (g subscriber) [
    | none ↦ g
    | some node ↦ elim node [
      | signal subs ↦ g
      | memo m ↦
          if source == subscriber
          then g
          else put subscriber (memo (record m { sources = insert m.sources source })) g
      | effect e ↦ put subscriber (effect (record e { sources = insert e.sources source })) g
    ]
  ]

  -- `for source in self.take() { source.remove_subscriber(subscriber) }`
  pub remove_from_each : List ℕ → ℕ → Graph → Graph
  remove_from_each [] subscriber g = g
  remove_from_each (source ∷ sources) subscriber g =
      remove_from_each sources subscriber (remove_subscriber source subscriber g)

  -- `Subscriber::clear_sources` of the node, with itself as the argument, as every call has it.
  pub clear_sources : ℕ → Graph → Graph
  clear_sources subscriber g = elim (g subscriber) [
    | none ↦ g
    | some node ↦ elim node [
      | signal subs ↦ g
      | memo m ↦
          remove_from_each (items m.sources) subscriber
            (put subscriber (memo (record m { sources = empty })) g)
      | effect e ↦
          remove_from_each (items e.sources) subscriber
            (put subscriber (effect (record e { sources = empty })) g)
    ]
  ]

  -- `Track::track` of a source that is not disposed, under the observer.
  pub track : ℕ → Option ℕ → Graph → Graph
  track source none g = g
  track source (some observer) g = add_subscriber source observer (add_source observer source g)
