-- ===== src/Reactive/Observer/Tests.antt =====
-- Scopes of observers on concrete code.
use halyard.Prelude.{◌≡◌, none, some, [], ◌∷◌, ◌++◌, false}
use halyard.Reactive.Observer.{observe}
use halyard.Reactive.Observer.Scopes.{
  Script, finish, read, inside, observed, observed_untracked, unobserved, run, seen, left_by,
  tracked, observer_in, run-seen, run-observed_untracked,
}

-- An effect at 1 reads, a memo at 2 recomputes and reads, the effect reads again, and then without an observer.
abbrev nested : Script
nested = read (inside (observed 2) (read finish) (read (inside unobserved (read finish) finish)))

run-seen_example :
    run nested (observe false (some 1), [])
    ≡ (tt, (left_by nested (observe false (some 1)), [] ++ seen (observe false (some 1)) nested))
run-seen_example = run-seen nested (observe false (some 1)) []

run-observed_untracked_example :
    run
      (inside
        (observed_untracked 1)
        (read (inside (observed 2) (read finish) (read finish)))
        finish)
      (none, [])
    ≡ (tt, (tracked none, none ∷ (seen (observer_in (observed 2)) (read finish) ++ some 1 ∷ [])))
run-observed_untracked_example = run-observed_untracked 1 (observed 2) (read finish) none
