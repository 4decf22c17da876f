-- ===== src/Reactive/Observer/Scopes.antt =====
-- What nested scopes observe.
use halyard.Prelude.{ℕ, ◌≡◌, sym, ap, ◌∙◌, true, false, Option, none, some, List, [], ◌∷◌, ◌++◌}
use mathlib.Core.List.{append-nil, append_assoc}
use halyard.Reactive.Observer.{
  ObserverCell, get, subscriber_of, observe, set, take, replace, replace_untracked, Run, untrack,
  with_observer, with_maybe_observer, with_observer_untracked, with_maybe_observer_untracked,
}

pub data Scope : Type 0 where
  unobserved : Scope
  observed : ℕ → Scope
  maybe_observed : Option ℕ → Scope
  observed_untracked : ℕ → Scope
  maybe_observed_untracked : Option ℕ → Scope

-- Code that asks for the observer, and opens scopes with code inside and code after.
pub data Script : Type 0 where
  finish : Script
  read : Script → Script
  inside : Scope → Script → Script → Script

abbrev pub in_scope : Scope → Run (List (Option ℕ)) (Unit {0}) → Run (List (Option ℕ)) (Unit {0})
in_scope unobserved fun = untrack fun
in_scope (observed subscriber) fun = with_observer subscriber fun
in_scope (maybe_observed observer) fun = with_maybe_observer observer fun
in_scope (observed_untracked subscriber) fun = with_observer_untracked subscriber fun
in_scope (maybe_observed_untracked observer) fun = with_maybe_observer_untracked observer fun

-- The state is the list of what `Observer::get` gave.
pub run : Script → Run (List (Option ℕ)) (Unit {0})
run finish (c, log) = (tt, (c, log))
run (read rest) (c, log) = run rest (c, log ++ get c ∷ [])
run (inside scope body rest) (c, log) =
    let (_, after) = in_scope scope (run body) (c, log) in run rest after

-- The observer inside a scope.
abbrev pub observer_in : Scope → ObserverCell
observer_in unobserved = none
observer_in (observed subscriber) = observe false (some subscriber)
observer_in (maybe_observed observer) = observe false observer
observer_in (observed_untracked subscriber) = observe true (some subscriber)
observer_in (maybe_observed_untracked observer) = observe true observer

-- The same observer, tracked.
abbrev pub tracked : ObserverCell → ObserverCell
tracked c = observe false (subscriber_of c)

-- What is observed after a script: the first scope in it makes the observer a tracked one.
abbrev pub left_by : Script → ObserverCell → ObserverCell
left_by finish c = c
left_by (read rest) c = left_by rest c
left_by (inside scope body rest) c = left_by rest (tracked c)

-- What `Observer::get` gives at each point, told from the scopes around it.
pub seen : ObserverCell → Script → List (Option ℕ)
seen c finish = []
seen c (read rest) = get c ∷ seen c rest
seen c (inside scope body rest) = seen (observer_in scope) body ++ seen (tracked c) rest

scope-run :
    (scope : Scope) (fun : Run (List (Option ℕ)) (Unit {0})) (c c' : ObserverCell)
    (log log' : List (Option ℕ))
    → fun (observer_in scope, log) ≡ (tt, (c', log'))
    → in_scope scope fun (c, log) ≡ (tt, (tracked c, log'))
unfolding untrack with_observer with_maybe_observer with_observer_untracked
    with_maybe_observer_untracked take replace replace_untracked set
scope-run unobserved fun c c' log log' e = ap (λ p. (tt, (tracked c, p.1.1))) e
scope-run (observed s) fun c c' log log' e = ap (λ p. (tt, (tracked c, p.1.1))) e
scope-run (maybe_observed s) fun c c' log log' e = ap (λ p. (tt, (tracked c, p.1.1))) e
scope-run (observed_untracked s) fun c c' log log' e = ap (λ p. (tt, (tracked c, p.1.1))) e
scope-run (maybe_observed_untracked s) fun c c' log log' e = ap (λ p. (tt, (tracked c, p.1.1))) e

-- Whatever scopes are nested, what `Observer::get` gives is told from the scopes around it, and once a scope has ended
-- the observer before it is back, as a tracked one.
pub run-seen :
    (script : Script) (c : ObserverCell) (log : List (Option ℕ))
    → run script (c, log) ≡ (tt, (left_by script c, log ++ seen c script))
unfolding run seen
run-seen finish c log = ap (λ l. (tt, (c, l))) (sym (append-nil log))
run-seen (read rest) c log =
    run-seen rest c (log ++ get c ∷ [])
    ∙ ap (λ l. (tt, (left_by rest c, l))) (append_assoc log (get c ∷ []) (seen c rest))
run-seen (inside scope body rest) c log =
    let inner = run-seen body (observer_in scope) log in
    let middle =
      scope-run scope (run body) c (left_by body (observer_in scope)) log
        (log ++ seen (observer_in scope) body) inner in
    ap (λ p. run rest p.1) middle
    ∙ run-seen rest (tracked c) (log ++ seen (observer_in scope) body)
    ∙ ap (λ l. (tt, (left_by rest (tracked c), l)))
        (append_assoc log (seen (observer_in scope) body) (seen (tracked c) rest))

-- Inside `with_observer_untracked`, nothing is tracked until another scope has been opened and has ended: from then on,
-- `Observer::get` gives the subscriber.
pub run-observed_untracked :
    (s : ℕ) (scope : Scope) (body : Script) (c : ObserverCell)
    → run (inside (observed_untracked s) (read (inside scope body (read finish))) finish) (c, [])
      ≡ (tt, (tracked c, none ∷ (seen (observer_in scope) body ++ some s ∷ [])))
unfolding seen get
run-observed_untracked s scope body c =
    run-seen (inside (observed_untracked s) (read (inside scope body (read finish))) finish) c []
    ∙ ap (λ l. (tt, (tracked c, none ∷ l)))
        (append-nil (seen (observer_in scope) body ++ some s ∷ []))
