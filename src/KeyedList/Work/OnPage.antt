-- ===== src/KeyedList/Work/OnPage.antt =====
-- The rows on the page while a plan is carried out: each row in the vector, or among those to be moved, once.
use halyard.Prelude.{
  ℕ, suc, ◌+◌, ◌≤◌, ◌<◌, ◌≡◌, refl, sym, ap, ◌∙◌, true, false, not, ◌&&◌, ◌||◌, Bool-cases, inl,
  inr, Option, none, some, Option-cases, [], ◌∷◌, leb, ◌==◌, set, Result, ok, err, arith,
}
use halyard.Prelude.Ranges.{memb, memb-append}
use halyard.Prelude.Actions.{and_then}
use halyard.KeyedList.{ListOps, ListError, Invariant}
use halyard.KeyedList.Rows.{item_at, is_free}
use halyard.KeyedList.Work.{
  Work, take_row, take_moving, take_item, free_place, put_row, push_moving, call_unmount,
  call_mount, call_set_index, call_build,
}
use halyard.KeyedList.Pages.{Pages, ids}
use halyard.KeyedList.Pages.Lists.{without, memb-without, memb-put_before}
use halyard.KeyedList.Pages.Counts.{
  bit, occurrences, total, each_once, is_free-inside, total-take, total-put, total-push,
}

-- What holds of a result, unless it is an error.
abbrev pub After : {A W : Type 0} → (A → W → Type 0) → Result ListError A × W → Type 0
After p (ok a, w) = p a w
After p (err e, w) = Unit

pub After-then :
    {A B W : Type 0} (p : A → W → Type 0) (q : B → W → Type 0) (r : Result ListError A × W)
    (k : A → W → Result ListError B × W)
    → After p r
    → ((a : A) (w : W) → p a w → After q (k a w))
    → After q (and_then r k)
After-then p q (ok a, w) k h next = next a w h
After-then p q (err e, w) k h next = tt

module _ (ops : ListOps) (pages : Pages ops) where
  open ops use {Item, Row, State}
  open pages use {id, page}

  abbrev pub Rendering : Type 0
  Rendering = Work Row Item State

  -- How often a row is in the vector or among those to be moved.
  abbrev pub held : Rendering → ℕ → ℕ
  held w j = occurrences j (ids ops pages w.rows) + occurrences j (ids ops pages w.moving)

  abbrev pub on : Rendering → ℕ → ℕ
  on w j = bit (memb j (page w.state))

  -- Every row held is on the page, and held once, and no other is on the page; `c` rows are to be moved.
  pub record OnPage (w : Rendering) (c : ℕ) : Type 0 where
    pub rows_on : (j : ℕ) → held w j ≡ on w j
    pub waiting : total each_once (ids ops pages w.moving) ≡ c

  -- The same, but for the row `x`, which is on the page and not held.
  pub record Taken (x : ℕ) (w : Rendering) (c : ℕ) : Type 0 where
    pub rows_on : (j : ℕ) → bit (x == j) + held w j ≡ on w j
    pub waiting : total each_once (ids ops pages w.moving) ≡ c

  pub take_row-OnPage :
      (at c : ℕ) (i : Invariant) (w : Rendering)
      → OnPage w c
      → After (λ row w'. Taken (id row) w' c) (take_row at i w)
  unfolding take_row
  take_row-OnPage at c i w h = elim (Option-cases (item_at w.rows at)) [
    | inl e ↦ rw (e, take_row) tt
    | inr (row, e) ↦
        rw (e, take_row)
          (record {
            rows_on = λ j.
                let before = h.rows_on j in
                let gone = total-take ops pages (λ x. bit (x == j)) w.rows at row e in omega arith;
            waiting = h.waiting;
          })
  ]

  pub take_moving-OnPage :
      (i c : ℕ) (w : Rendering)
      → OnPage w c
      → After
          (λ row w'. (c' : ℕ) × (suc c' ≡ c) × (w'.rows ≡ w.rows) × Taken (id row) w' c')
          (take_moving i w)
  unfolding take_moving
  take_moving-OnPage i c w h = elim (Option-cases (item_at w.moving i)) [
    | inl e ↦ rw (e, take_moving) tt
    | inr (row, e) ↦
        let fewer = total-take ops pages each_once w.moving i row e in
        rw (e, take_moving)
          ((
            total each_once (ids ops pages (set w.moving i none)),
            (let before = h.waiting in omega arith),
            refl,
            record {
              rows_on = λ j.
                  let before = h.rows_on j in
                  let gone = total-take ops pages (λ x. bit (x == j)) w.moving i row e in
                  omega arith;
              waiting = refl;
            },
          ))
  ]

  pub push_moving-OnPage :
      (c : ℕ) (row : Row) (w : Rendering)
      → Taken (id row) w c
      → After (λ u w'. OnPage w' (suc c)) (push_moving row w)
  unfolding push_moving
  push_moving-OnPage c row w h = record {
    rows_on = λ j.
        let before = h.rows_on j in
        let more = total-push ops pages (λ x. bit (x == j)) w.moving row in omega arith;
    waiting =
        let more = total-push ops pages each_once w.moving row in
        let before = h.waiting in omega arith;
  }

  pub call_unmount-OnPage :
      (c : ℕ) (row : Row) (w : Rendering)
      → Taken (id row) w c
      → After (λ row' w'. OnPage w' c) (call_unmount ops row w)
  unfolding call_unmount
  call_unmount-OnPage c row w h = record {
    rows_on = λ j.
        let before = h.rows_on j in
        let gone : memb j (page (ops.unmount row w.state).1)
            ≡ (not (id row == j) && memb j (page w.state)) =
          ap (memb j) (pages.page-unmount row w.state) ∙ memb-without j (id row) (page w.state) in
        rw gone (ground arith);
    waiting = h.waiting;
  }

  pub put_row-OnPage :
      (at c : ℕ) (row : Row) (w : Rendering)
      → is_free w.rows at ≡ true
      → Taken (id row) w c
      → After (λ u w'. (w'.rows ≡ set w.rows at (some row)) × OnPage w' c) (put_row at row w)
  unfolding put_row
  put_row-OnPage at c row w free h =
      let (lt, off) = is_free-inside w.rows at free in
      (
        refl,
        record {
          rows_on = λ j.
              let before = h.rows_on j in
              let more = total-put ops pages (λ x. bit (x == j)) w.rows at row lt off in
              omega arith;
          waiting = h.waiting;
        },
      )

  pub call_set_index-Taken :
      (x c index : ℕ) (row : Row) (w : Rendering)
      → Taken x w c
      → After (λ u w'. (w'.rows ≡ w.rows) × Taken x w' c) (call_set_index ops row index w)
  unfolding call_set_index
  call_set_index-Taken x c index row w h = (
    refl,
    record {
      rows_on = λ j.
          h.rows_on j ∙ ap (λ q. bit (memb j q)) (sym (pages.page-set_index row index w.state));
      waiting = h.waiting;
    },
  )

  pub free_place-After :
      (new_len at : ℕ) (w : Rendering)
      → After
          (λ u w'. (w' ≡ w) × (at < new_len) × (is_free w.rows at ≡ true))
          (free_place new_len at w)
  unfolding free_place
  free_place-After new_len at w = elim (Bool-cases (leb new_len at)) [
    | inl e ↦ rw e tt
    | inr e ↦ elim (Bool-cases (is_free w.rows at)) [
      | inl e' ↦ rw (e, e') (refl, ground arith, refl)
      | inr e' ↦ rw (e, e') tt
    ]
  ]

  pub take_item-After :
      (at c : ℕ) (w : Rendering)
      → OnPage w c
      → After (λ item w'. (w'.rows ≡ w.rows) × OnPage w' c) (take_item at w)
  unfolding take_item
  take_item-After at c w h = elim (Option-cases (item_at w.items at)) [
    | inl e ↦ rw (e, take_item) tt
    | inr (item, e) ↦
        rw (e, take_item) (refl, record { rows_on = λ j. h.rows_on j; waiting = h.waiting })
  ]

  -- The row `x` is not held.
  pub record Off (x : ℕ) (w : Rendering) (c : ℕ) : Type 0 where
    pub others : (j : ℕ) → (x == j) ≡ false → held w j ≡ on w j
    pub gone : held w x ≡ 0
    pub waiting : total each_once (ids ops pages w.moving) ≡ c

  pub Taken-Off : (x c : ℕ) (w : Rendering) → Taken x w c → Off x w c
  Taken-Off x c w h = record {
    others = λ j off.
        let at = h.rows_on j in let none_there : bit (x == j) ≡ 0 = rw off refl in omega arith;
    gone = let at = h.rows_on x in let here : (x == x) ≡ true = ground arith in ground arith;
    waiting = h.waiting;
  }

  pub call_build-After :
      (index c : ℕ) (item : Item) (w : Rendering)
      → OnPage w c
      → After (λ row w'. (w'.rows ≡ w.rows) × Off (id row) w' c) (call_build ops index item w)
  unfolding call_build
  call_build-After index c item w h =
      let row = (ops.build index item w.state).0 in
      let same : (j : ℕ) → on (record w { state = (ops.build index item w.state).1 }) j ≡ on w j =
        λ j. ap (λ q. bit (memb j q)) (pages.page-build index item w.state) in
      let fresh : on w (id row) ≡ 0 = ap bit (pages.id-build index item w.state) in
      (
        refl,
        record {
          others = λ j off. h.rows_on j ∙ sym (same j);
          gone = h.rows_on (id row) ∙ fresh;
          waiting = h.waiting;
        },
      )

  -- The row that another is mounted before is in the vector.
  abbrev pub Anchored : Option Row → Rendering → Type 0
  Anchored before w =
      (next : Row) → before ≡ some next → 1 ≤ occurrences (id next) (ids ops pages w.rows)

  anchor-on :
      (x c : ℕ) (next : Row) (w : Rendering)
      → Off x w c
      → 1 ≤ occurrences (id next) (ids ops pages w.rows)
      → memb (id next) (without x (page w.state)) ≡ true
  anchor-on x c next w h there =
      let is = memb-without (id next) x (page w.state) in
      elim (Bool-cases (x == id next)) [
        | inl e ↦
            let same : x ≡ id next = ground arith in
            let none_there : held w (id next) ≡ 0 = sym (ap (held w) same) ∙ h.gone in
            absurd (omega arith)
        | inr e ↦ let at = h.others (id next) e in ground arith
      ]

  mount-page :
      (j c : ℕ) (row : Row) (before : Option Row) (w : Rendering)
      → Off (id row) w c
      → Anchored before w
      → memb j (page (ops.mount row before w.state).1) ≡ (id row == j || memb j (page w.state))
  mount-page j c row none w h anchored =
      let out = memb-without j (id row) (page w.state) in
      ap (memb j) (pages.page-mount_last row w.state)
      ∙ memb-append j (without (id row) (page w.state)) (id row ∷ [])
      ∙ ground arith
  mount-page j c row (some next) w h anchored =
      let out = memb-without j (id row) (page w.state) in
      ap (memb j) (
        pages.page-mount_before row next w.state
          (anchor-on (id row) c next w h (anchored next refl)))
      ∙ memb-put_before j (id row) (id next) (without (id row) (page w.state))
      ∙ ground arith

  pub call_mount-After :
      (c : ℕ) (row : Row) (before : Option Row) (w : Rendering)
      → Off (id row) w c
      → Anchored before w
      → After (λ row' w'. (w'.rows ≡ w.rows) × Taken (id row') w' c) (call_mount ops row before w)
  unfolding call_mount
  call_mount-After c row before w h anchored =
      let kept : id (ops.mount row before w.state).0 ≡ id row = pages.id-mount row before w.state in
      (
        refl,
        record {
          rows_on = λ j.
              let is = mount-page j c row before w h anchored in
              rw (kept, is)
                (elim (Bool-cases (id row == j)) [
                  | inl e ↦
                      let same : id row ≡ j = ground arith in
                      let none_there : held w j ≡ 0 = sym (ap (held w) same) ∙ h.gone in
                      rw e (omega arith)
                  | inr e ↦ let at = h.others j e in rw e (omega arith)
                ]);
          waiting = h.waiting;
        },
      )
