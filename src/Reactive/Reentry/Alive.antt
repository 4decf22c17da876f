-- ===== src/Reactive/Reentry/Alive.antt =====
-- The record against the accesses that are alive: which value each uses, and how.
use halyard.Prelude.{
  ℕ, ◌<◌, ◌≡◌, ◌↔◌, inl, inr, refl, sym, ap, ◌∙◌, subst, true, false, Bool-cases, Option-cases,
  Option, none, some, List, ◌∷◌, ◌++◌, ltb, ◌==◌, length, arith,
}
use halyard.Reactive.Reentry.{
  Kind, read, write_lock, snapshot, compute, Writes, Entry, find, count, exit_entries, upsert,
  held_by_this_thread, computing_here,
}
use halyard.Reactive.Reentry.Lookup.{
  IsDistinct, or_new, find-upsert_same, find-upsert_other, upsert-IsDistinct, kept, find-exit,
  exit-IsDistinct,
}
use halyard.Reactive.Reentry.Tally.{
  Tally, nothing, bump, Access, tally, Fits, tally-Fits, tally-insert, Tally_eq, bump_ne,
}

module _ (writes : Writes) where
  abbrev pub tally_of : Entry writes → Tally
  tally_of e = record {
    depth = e.depth;
    write_locks = e.write_locks;
    snapshots = e.snapshots;
    computing = e.computing;
  }

  -- The entry of a value tells how it is used, and is there only while it is used.
  abbrev pub Tracks : Option (Entry writes) → Tally → Type 0
  Tracks none t = t ≡ nothing
  Tracks (some e) t = (tally_of e ≡ t) × (0 < e.depth)

  pub record Represents (accesses : List Access) (entries : List (Entry writes)) : Type 0 where
    pub distinct : IsDistinct writes entries
    pub tracks : (id : ℕ) → Tracks (find writes id entries) (tally id accesses)

  parts :
      (e : Entry writes) (t : Tally)
      → tally_of e ≡ t
      → (e.depth ≡ t.depth)
        × (e.write_locks ≡ t.write_locks)
        × (e.snapshots ≡ t.snapshots)
        × (e.computing ≡ t.computing)
  parts e t h = (
    ap (λ q. q.depth) h,
    ap (λ q. q.write_locks) h,
    ap (λ q. q.snapshots) h,
    ap (λ q. q.computing) h,
  )

  module _ (usize_max : ℕ) where
    counted :
        (n : ℕ) (kind : Kind) (e : Entry writes) (t : Tally)
        → tally_of e ≡ t
        → Fits t n
        → n < usize_max
        → Tracks (some (count writes usize_max e kind true)) (bump kind t)
    unfolding count
    counted n read e t h f room =
        let (a, b, c, d) = parts e t h in
        (Tally_eq _ _ (omega arith) (omega arith) (omega arith) (omega arith), omega arith)
    counted n write_lock e t h f room =
        let (a, b, c, d) = parts e t h in
        (Tally_eq _ _ (omega arith) (omega arith) (omega arith) (omega arith), omega arith)
    counted n snapshot e t h f room =
        let (a, b, c, d) = parts e t h in
        (Tally_eq _ _ (omega arith) (omega arith) (omega arith) (omega arith), omega arith)
    counted n compute e t h f room =
        let (a, b, c, d) = parts e t h in
        (Tally_eq _ _ (omega arith) (omega arith) (omega arith) (omega arith), omega arith)

    pub count_keeps :
        (e : Entry writes) (kind : Kind)
        → ((count writes usize_max e kind false).pending ≡ e.pending)
          × ((count writes usize_max e kind false).turn ≡ e.turn)
    unfolding count
    count_keeps e read = (refl, refl)
    count_keeps e write_lock = (refl, refl)
    count_keeps e snapshot = (refl, refl)
    count_keeps e compute = (refl, refl)

    pub uncounted :
        (n : ℕ) (kind : Kind) (e : Entry writes) (t : Tally)
        → tally_of e ≡ bump kind t
        → tally_of (count writes usize_max e kind false) ≡ t
    unfolding count
    uncounted n read e t h =
        let (a, b, c, d) = parts e (bump read t) h in
        Tally_eq _ _ (omega arith) (omega arith) (omega arith) (omega arith)
    uncounted n write_lock e t h =
        let (a, b, c, d) = parts e (bump write_lock t) h in
        Tally_eq _ _ (omega arith) (omega arith) (omega arith) (omega arith)
    uncounted n snapshot e t h =
        let (a, b, c, d) = parts e (bump snapshot t) h in
        Tally_eq _ _ (omega arith) (omega arith) (omega arith) (omega arith)
    uncounted n compute e t h =
        let (a, b, c, d) = parts e (bump compute t) h in
        Tally_eq _ _ (omega arith) (omega arith) (omega arith) (omega arith)

    tracked :
        (id : ℕ) (o : Option (Entry writes)) (t : Tally)
        → Tracks o t
        → tally_of (or_new writes id o) ≡ t
    tracked id none t h = sym h
    tracked id (some e) t h = h.0

    -- An access that starts, whatever else it writes in the entry.
    pub upsert-Represents :
        (id : ℕ) (kind : Kind) (change : Entry writes → Entry writes) (accesses : List Access)
        (entries : List (Entry writes))
        → ((e : Entry writes) → (change e).id ≡ e.id)
        → ((e : Entry writes) → tally_of (change e) ≡ tally_of (count writes usize_max e kind true))
        → length accesses < usize_max
        → Represents accesses entries
        → Represents ((id, kind) ∷ accesses) (upsert writes id change entries)
    upsert-Represents id kind change accesses entries keeps counts room r = record {
      distinct = upsert-IsDistinct writes id change keeps entries r.distinct;
      tracks = λ j. elim (Bool-cases (id == j)) [
        | inl same ↦
            let e = or_new writes id (find writes id entries) in
            let t = tally id accesses in
            let up =
              counted (length accesses) kind e t
                (tracked id (find writes id entries) t (r.tracks id)) (tally-Fits id accesses)
                room in
            let d : (change e).depth ≡ (count writes usize_max e kind true).depth =
              ap (λ q. q.depth) (counts e) in
            let found : Tracks (find writes id (upsert writes id change entries)) (bump kind t) =
              rw (find-upsert_same writes id change keeps entries)
                (counts e ∙ up.0, omega (arith, up.1)) in
            let here : id ≡ j = ground arith in
            rw same (
              subst
                (λ q.
                  Tracks (find writes q (upsert writes id change entries))
                    (bump kind (tally q accesses)))
                here found)
        | inr other ↦
            rw (other, find-upsert_other writes id change keeps j entries (ground arith))
              (r.tracks j)
      ];
    }

    kept-Tracks :
        (n : ℕ) (e : Entry writes) (t : Tally)
        → tally_of e ≡ t
        → Fits t n
        → Tracks (kept writes e) t
    kept-Tracks n e t h f =
        let (a, b, c, d) = parts e t h in
        elim (Bool-cases (ltb 0 e.depth)) [
          | inl alive ↦ rw alive (h, ground arith)
          | inr over ↦
              let zero_depth : e.depth ≡ 0 = ground arith in
              rw over (Tally_eq _ _ (omega arith) (omega arith) (omega arith) (omega arith))
        ]

    exited-Represents :
        (id : ℕ) (kind : Kind) (e : Entry writes) (before after : List Access)
        (entries : List (Entry writes))
        → find writes id entries ≡ some e
        → tally_of e ≡ bump kind (tally id (before ++ after))
        → Represents (before ++ (id, kind) ∷ after) entries
        → Represents (before ++ after) (exit_entries writes usize_max id kind entries).0
    exited-Represents id kind e before after entries found was r = record {
      distinct = exit-IsDistinct writes usize_max id kind entries e r.distinct found;
      tracks = λ j.
          let at = find-exit writes usize_max id kind j entries e r.distinct found in
          elim (Bool-cases (j == id)) [
            | inl same ↦
                let here : id ≡ j = ground arith in
                let left : Tracks (kept writes (count writes usize_max e kind false))
                    (tally id (before ++ after)) =
                  kept-Tracks (length (before ++ after)) (count writes usize_max e kind false)
                    (tally id (before ++ after))
                    (uncounted (length (before ++ after)) kind e (tally id (before ++ after)) was)
                    (tally-Fits id (before ++ after)) in
                subst (λ q. Tracks q (tally j (before ++ after))) (sym (rw same at at))
                  (subst
                    (λ q.
                      Tracks (kept writes (count writes usize_max e kind false))
                        (tally q (before ++ after)))
                    here left)
            | inr other ↦
                let apart : (id == j) ≡ false = ground arith in
                subst (λ q. Tracks q (tally j (before ++ after))) (sym (rw other at at))
                  (rw apart at (rw (tally-insert j id kind before after) at (r.tracks j)))
          ];
    }

    -- What an access that is alive has in the record.
    pub alive :
        (id : ℕ) (kind : Kind) (before after : List Access) (entries : List (Entry writes))
        → Represents (before ++ (id, kind) ∷ after) entries
        → (e : Entry writes) × (find writes id entries ≡ some e)
          × (tally_of e ≡ bump kind (tally id (before ++ after)))
    alive id kind before after entries r =
        let here : (id == id) ≡ true = ground arith in
        let at : tally id (before ++ (id, kind) ∷ after) ≡ bump kind (tally id (before ++ after)) =
          rw here at (tally-insert id id kind before after) in
        let tr : Tracks (find writes id entries) (bump kind (tally id (before ++ after))) =
          subst (Tracks (find writes id entries)) at (r.tracks id) in
        elim (Option-cases (find writes id entries)) [
          | inl none_found ↦
              absurd (bump_ne kind (tally id (before ++ after)) (rw none_found at tr))
          | inr (e, found) ↦
              let tr' : Tracks (some e) (bump kind (tally id (before ++ after))) = rw found at tr in
              (e, found, tr'.0)
        ]

    pub exit-Represents :
        (id : ℕ) (kind : Kind) (before after : List Access) (entries : List (Entry writes))
        → Represents (before ++ (id, kind) ∷ after) entries
        → Represents (before ++ after) (exit_entries writes usize_max id kind entries).0
    exit-Represents id kind before after entries r =
        let (e, found, was) = alive id kind before after entries r in
        exited-Represents id kind e before after entries found was r

    -- In a record that represents the accesses alive, a value is held by this thread exactly while one of its accesses is alive, and it is being computed
    -- here exactly while an access that computes it is.
    pub held_iff :
        (id : ℕ) (accesses : List Access) (entries : List (Entry writes))
        → Represents accesses entries
        → ((held_by_this_thread writes id (some entries) ≡ true) ↔ (0 < (tally id accesses).depth))
          × ((computing_here writes id (some entries) ≡ true) ↔ (0 < (tally id accesses).computing))
    unfolding held_by_this_thread computing_here
    held_iff id accesses entries r =
        let tr = r.tracks id in
        elim (Option-cases (find writes id entries)) [
          | inl lost ↦
              let t : tally id accesses ≡ nothing = rw lost at tr in rw (lost, t) (ground arith)
          | inr (e, found) ↦
              let tr' : Tracks (some e) (tally id accesses) = rw found at tr in
              let (a, b, c, d) = parts e (tally id accesses) tr'.0 in rw found (ground arith)
        ]
