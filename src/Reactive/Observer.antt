-- ===== src/Reactive/Observer.antt =====
-- The observer of a thread and the scopes that replace it: graph/subscriber.rs. A subscriber is its address.
pub mod Scopes
mod Tests
use halyard.Prelude.{ℕ, Bool, true, false, Option, none, some, ◌==◌, if◌then◌else◌}

pub record ObserverState : Type 0 where
  pub subscriber : ℕ
  pub untracked : Bool

-- The thread-local `OBSERVER`.
abbrev pub ObserverCell : Type 0
ObserverCell = Option ObserverState

-- `Observer::get`
pub get : ObserverCell → Option ℕ
get none = none
get (some o) = if o.untracked then none else some o.subscriber

-- `Observer::is`
pub is : ℕ → ObserverCell → Bool
is observer none = false
is observer (some o) = o.subscriber == observer

abbrev pub subscriber_of : ObserverCell → Option ℕ
subscriber_of none = none
subscriber_of (some o) = some o.subscriber

abbrev pub observe : Bool → Option ℕ → ObserverCell
observe untracked none = none
observe untracked (some subscriber) =
    some (record { subscriber = subscriber; untracked = untracked })

-- `Observer::set`; what a `SetObserverOnDrop` does when it is dropped.
pub set : Option ℕ → ObserverCell → ObserverCell
set observer c = observe false observer

-- The observer that a `SetObserverOnDrop` holds, and the cell.
pub take : ObserverCell → Option ℕ × ObserverCell
take c = (subscriber_of c, none)

pub replace : Option ℕ → ObserverCell → Option ℕ × ObserverCell
replace observer c = (subscriber_of c, observe false observer)

pub replace_untracked : Option ℕ → ObserverCell → Option ℕ × ObserverCell
replace_untracked observer c = (subscriber_of c, observe true observer)

-- Code that runs on a thread, with the rest of the state.
abbrev pub Run : Type 0 → Type 0 → Type 0
Run W A = ObserverCell × W → A × (ObserverCell × W)

-- A scope: the observer is exchanged, `fun` runs, and the guard is dropped.
abbrev pub scoped : {W A : Type 0} → (ObserverCell → Option ℕ × ObserverCell) → Run W A → Run W A
scoped exchange fun (c, w) =
    let (previous, c1) = exchange c in let (a, (c2, w')) = fun (c1, w) in (a, (set previous c2, w'))

pub untrack : {W A : Type 0} → Run W A → Run W A
untrack fun = scoped take fun

-- `with_observer` of `AnySubscriber` and of `Option<AnySubscriber>`.
pub with_observer : {W A : Type 0} → ℕ → Run W A → Run W A
with_observer subscriber fun = scoped (replace (some subscriber)) fun

pub with_maybe_observer : {W A : Type 0} → Option ℕ → Run W A → Run W A
with_maybe_observer observer fun = scoped (replace observer) fun

pub with_observer_untracked : {W A : Type 0} → ℕ → Run W A → Run W A
with_observer_untracked subscriber fun = scoped (replace_untracked (some subscriber)) fun

pub with_maybe_observer_untracked : {W A : Type 0} → Option ℕ → Run W A → Run W A
with_maybe_observer_untracked observer fun = scoped (replace_untracked observer) fun
