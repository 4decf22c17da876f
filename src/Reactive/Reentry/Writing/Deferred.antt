-- ===== src/Reactive/Reentry/Writing/Deferred.antt =====
-- Taking the deferred writes out, and putting them back, leaves the accesses as they are.
use halyard.Prelude.{ℕ, ◌≡◌, inl, inr, ◌&&◌, Bool-cases, none, some, List, [], ◌∷◌, ltb, ◌==◌}
use halyard.Reactive.Reentry.{Writes, Entry, find}
use halyard.Reactive.Reentry.Lookup.{IsDistinct}
use halyard.Reactive.Reentry.Tally.{Tally}
use halyard.Reactive.Reentry.Alive.{Tracks}
use halyard.Reactive.Reentry.Writing.{Appends, take_pending, put_pending}

module _ (writes : Writes) (usize_max : ℕ) (appends : Appends writes) where
  open writes use {Turn, Pending}

  pub take_pending-Tracks :
      (id j : ℕ) (es : List (Entry writes)) (t : Tally)
      → Tracks writes (find writes j es) t
      → Tracks writes (find writes j (take_pending writes usize_max appends id es).1) t
  unfolding find take_pending
  take_pending-Tracks id j [] t h = h
  take_pending-Tracks id j (e ∷ es) t h = elim (Bool-cases (e.id == id)) [
    | inl here ↦ elim (Bool-cases (e.id == j)) [
      | inl at ↦ rw (here, at) (rw at at h)
      | inr off ↦ rw (here, off) (rw off at h)
    ]
    | inr there ↦ elim (Bool-cases (e.id == j)) [
      | inl at ↦ rw (there, at) (rw at at h)
      | inr off ↦ rw (there, off) (take_pending-Tracks id j es t (rw off at h))
    ]
  ]

  take_pending_absent :
      (id j : ℕ) (es : List (Entry writes))
      → find writes j es ≡ none
      → find writes j (take_pending writes usize_max appends id es).1 ≡ none
  unfolding find take_pending
  take_pending_absent id j [] h = h
  take_pending_absent id j (e ∷ es) h = elim (Bool-cases (e.id == j)) [
    | inl at ↦ let found : some e ≡ none = rw at at h in cc
    | inr off ↦ elim (Bool-cases (e.id == id)) [
      | inl here ↦ rw (here, off) (rw off at h)
      | inr there ↦ rw (there, off) (take_pending_absent id j es (rw off at h))
    ]
  ]

  pub take_pending-IsDistinct :
      (id : ℕ) (es : List (Entry writes))
      → IsDistinct writes es
      → IsDistinct writes (take_pending writes usize_max appends id es).1
  unfolding take_pending
  take_pending-IsDistinct id [] d = d
  take_pending-IsDistinct id (e ∷ es) d = elim (Bool-cases (e.id == id)) [
    | inl here ↦ rw here d
    | inr there ↦ rw there (take_pending_absent id e.id es d.0, take_pending-IsDistinct id es d.1)
  ]

  pub put_pending-Tracks :
      (id j : ℕ) (p : Pending) (es : List (Entry writes)) (t : Tally)
      → Tracks writes (find writes j es) t
      → Tracks writes (find writes j (put_pending writes usize_max appends id p es).1) t
  unfolding find put_pending
  put_pending-Tracks id j p [] t h = h
  put_pending-Tracks id j p (e ∷ es) t h = elim (Bool-cases (e.id == id && ltb 0 e.depth)) [
    | inl here ↦ elim (Bool-cases (e.id == j)) [
      | inl at ↦ rw (here, at) (rw at at h)
      | inr off ↦ rw (here, off) (rw off at h)
    ]
    | inr there ↦ elim (Bool-cases (e.id == j)) [
      | inl at ↦ rw (there, at) (rw at at h)
      | inr off ↦ rw (there, off) (put_pending-Tracks id j p es t (rw off at h))
    ]
  ]

  put_pending_absent :
      (id j : ℕ) (p : Pending) (es : List (Entry writes))
      → find writes j es ≡ none
      → find writes j (put_pending writes usize_max appends id p es).1 ≡ none
  unfolding find put_pending
  put_pending_absent id j p [] h = h
  put_pending_absent id j p (e ∷ es) h = elim (Bool-cases (e.id == j)) [
    | inl at ↦ let found : some e ≡ none = rw at at h in cc
    | inr off ↦ elim (Bool-cases (e.id == id && ltb 0 e.depth)) [
      | inl here ↦ rw (here, off) (rw off at h)
      | inr there ↦ rw (there, off) (put_pending_absent id j p es (rw off at h))
    ]
  ]

  pub put_pending-IsDistinct :
      (id : ℕ) (p : Pending) (es : List (Entry writes))
      → IsDistinct writes es
      → IsDistinct writes (put_pending writes usize_max appends id p es).1
  unfolding put_pending
  put_pending-IsDistinct id p [] d = d
  put_pending-IsDistinct id p (e ∷ es) d = elim (Bool-cases (e.id == id && ltb 0 e.depth)) [
    | inl here ↦ rw here d
    | inr there ↦ rw there (put_pending_absent id e.id p es d.0, put_pending-IsDistinct id p es d.1)
  ]
