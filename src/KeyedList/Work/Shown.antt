-- ===== src/KeyedList/Work/Shown.antt =====
-- What the rows show while a plan is carried out: a label at each place.
use halyard.Prelude.{
  ℕ, suc, ◌≤◌, ◌<◌, ◌≡◌, refl, ap, ◌∙◌, subst, false, Bool-cases, inl, inr, Option, none, some,
  List, [], ◌∷◌, ◌++◌, leb, ◌==◌, if◌then◌else◌, length, length-append, set, ok, arith,
}
use halyard.KeyedList.{ListOps, Invariant}
use halyard.KeyedList.Labels.{Labels}
use halyard.KeyedList.Rows.{item_at}
use halyard.KeyedList.Rows.Places.{
  length-set, upd, item_at-set-none, item_at-set, is_free-item_at, item_at-append,
}
use halyard.KeyedList.Work.{
  Work, take_row, take_moving, take_item, free_place, put_row, push_moving, call_unmount,
  call_mount, call_set_index, call_build,
}

module _ (ops : ListOps) (ls : Labels ops) where
  open ops use {Item, Row, State}
  open ls use {Label, label}

  abbrev pub shown : Option Row → Option Label
  shown none = none
  shown (some row) = some (label row)

  abbrev pub Rendering : Type 0
  Rendering = Work Row Item State

  -- The rows' places and what they show, what the rows to be moved show, and the items that are left.
  pub record Stands (w : Rendering) (n : ℕ) (f : ℕ → Option Label) (k : ℕ) (g : ℕ → Option Label)
      (left : ℕ → Option Item) : Type 0 where
    pub places : length w.rows ≡ n
    pub shows : (i : ℕ) → shown (item_at w.rows i) ≡ f i
    pub moves : length w.moving ≡ k
    pub holds : (i : ℕ) → shown (item_at w.moving i) ≡ g i
    pub leaves : (i : ℕ) → item_at w.items i ≡ left i

  pub shown-some :
      (o : Option Row) (l : Label)
      → shown o ≡ some l
      → (row : Row) × (o ≡ some row) × (label row ≡ l)
  shown-some none l h = cc
  shown-some (some row) l h = (row, refl, cc)

  pub shown-none : (o : Option Row) → shown o ≡ none → o ≡ none
  shown-none none h = refl
  shown-none (some row) h = cc

  take_row-ok :
      (at : ℕ) (i : Invariant) (w : Rendering) (row : Row)
      → item_at w.rows at ≡ some row
      → take_row at i w ≡ (ok row, record w { rows = set w.rows at none })
  unfolding take_row
  take_row-ok at i w row h = rw (h, take_row) refl

  take_moving-ok :
      (at : ℕ) (w : Rendering) (row : Row)
      → item_at w.moving at ≡ some row
      → take_moving at w ≡ (ok row, record w { moving = set w.moving at none })
  unfolding take_moving
  take_moving-ok at w row h = rw (h, take_moving) refl

  take_item-ok :
      (at : ℕ) (w : Rendering) (item : Item)
      → item_at w.items at ≡ some item
      → take_item at w ≡ (ok item, record w { items = set w.items at none })
  unfolding take_item
  take_item-ok at w item h = rw (h, take_item) refl

  shown-upd :
      (xs ys : List (Option Row)) (h : ℕ → Option Label) (at : ℕ) (v : Option Row)
      → ((j : ℕ) → item_at ys j ≡ (if at == j then v else item_at xs j))
      → ((j : ℕ) → shown (item_at xs j) ≡ h j)
      → (j : ℕ) → shown (item_at ys j) ≡ upd h at (shown v) j
  shown-upd xs ys h at v set_at shows j =
      ap shown (set_at j)
      ∙ (elim (Bool-cases (at == j)) [ inl e ↦ rw e refl | inr e ↦ rw e (shows j) ])

  module _ (w : Rendering) (n k : ℕ) (f g : ℕ → Option Label) (left : ℕ → Option Item) where
    pub Stands_ext :
        (f' : ℕ → Option Label)
        → ((i : ℕ) → f i ≡ f' i)
        → Stands w n f k g left
        → Stands w n f' k g left
    Stands_ext f' same s = record {
      places = s.places;
      shows = λ i. s.shows i ∙ same i;
      moves = s.moves;
      holds = s.holds;
      leaves = s.leaves;
    }

    module _ (s : Stands w n f k g left) where
      pub take_row-Stands :
          (at : ℕ) (i : Invariant) (l : Label)
          → f at ≡ some l
          → (row : Row) × (w' : Rendering) × (take_row at i w ≡ (ok row, w'))
            × (label row ≡ l)
            × Stands w' n (upd f at none) k g left
      take_row-Stands at i l h =
          let (row, found, is) = shown-some (item_at w.rows at) l (s.shows at ∙ h) in
          (
            row,
            record w { rows = set w.rows at none },
            take_row-ok at i w row found,
            is,
            record {
              places = length-set w.rows at none ∙ s.places;
              shows =
                  shown-upd w.rows (set w.rows at none) f at none (item_at-set-none w.rows at)
                    s.shows;
              moves = s.moves;
              holds = s.holds;
              leaves = s.leaves;
            },
          )

      pub take_moving-Stands :
          (at : ℕ) (l : Label)
          → g at ≡ some l
          → (row : Row) × (w' : Rendering) × (take_moving at w ≡ (ok row, w'))
            × (label row ≡ l)
            × Stands w' n f k (upd g at none) left
      take_moving-Stands at l h =
          let (row, found, is) = shown-some (item_at w.moving at) l (s.holds at ∙ h) in
          (
            row,
            record w { moving = set w.moving at none },
            take_moving-ok at w row found,
            is,
            record {
              places = s.places;
              shows = s.shows;
              moves = length-set w.moving at none ∙ s.moves;
              holds =
                  shown-upd w.moving (set w.moving at none) g at none (item_at-set-none w.moving at)
                    s.holds;
              leaves = s.leaves;
            },
          )

      pub push_moving-Stands :
          (row : Row)
          → (w' : Rendering) × (push_moving row w ≡ (ok tt, w'))
            × Stands w' n f (suc k) (upd g k (some (label row))) left
      unfolding push_moving
      push_moving-Stands row = (
        record w { moving = w.moving ++ some row ∷ [] },
        refl,
        record {
          places = s.places;
          shows = s.shows;
          moves = length-append w.moving (some row ∷ []) ∙ omega (arith, s.moves);
          holds =
              subst
                (λ q.
                  (i : ℕ)
                  → shown (item_at (w.moving ++ some row ∷ []) i) ≡ upd g q (some (label row)) i)
                s.moves
                (shown-upd w.moving (w.moving ++ some row ∷ []) g (length w.moving) (some row)
                  (item_at-append w.moving row) s.holds);
          leaves = s.leaves;
        },
      )

      pub put_row-Stands :
          (at : ℕ) (row : Row) (o : Option Label)
          → at < n
          → some (label row) ≡ o
          → (w' : Rendering) × (put_row at row w ≡ (ok tt, w')) × Stands w' n (upd f at o) k g left
      unfolding put_row
      put_row-Stands at row o h is =
          let inside : at < length w.rows = omega (arith, s.places) in
          (
            record w { rows = set w.rows at (some row) },
            refl,
            record {
              places = length-set w.rows at (some row) ∙ s.places;
              shows =
                  subst (λ q. (i : ℕ) → shown (item_at (set w.rows at (some row)) i) ≡ upd f at q i)
                    is
                    (shown-upd w.rows (set w.rows at (some row)) f at (some row)
                      (λ j. item_at-set w.rows at j (some row) inside) s.shows);
              moves = s.moves;
              holds = s.holds;
              leaves = s.leaves;
            },
          )

      pub free_place-Stands :
          (new_len at : ℕ)
          → at < new_len
          → new_len ≤ n
          → f at ≡ none
          → free_place new_len at w ≡ (ok tt, w)
      unfolding free_place
      free_place-Stands new_len at lt le h =
          let inside : leb new_len at ≡ false = ground arith in
          let free =
            is_free-item_at w.rows at (omega (arith, s.places))
              (shown-none (item_at w.rows at) (s.shows at ∙ h)) in
          rw (inside, free) refl

      pub take_item-Stands :
          (at : ℕ) (item : Item)
          → left at ≡ some item
          → (w' : Rendering) × (take_item at w ≡ (ok item, w'))
            × Stands w' n f k g (upd left at none)
      take_item-Stands at item h = (
        record w { items = set w.items at none },
        take_item-ok at w item (s.leaves at ∙ h),
        record {
          places = s.places;
          shows = s.shows;
          moves = s.moves;
          holds = s.holds;
          leaves = λ j.
              item_at-set-none w.items at j
              ∙ (elim (Bool-cases (at == j)) [ inl e ↦ rw e refl | inr e ↦ rw e (s.leaves j) ]);
        },
      )

      -- The calls of the rendered list leave rows and items alone.
      kept : (s' : State) → Stands (record w { state = s' }) n f k g left
      kept s' = record {
        places = s.places;
        shows = s.shows;
        moves = s.moves;
        holds = s.holds;
        leaves = s.leaves;
      }

      pub call_unmount-Stands :
          (row : Row)
          → (row' : Row) × (w' : Rendering) × (call_unmount ops row w ≡ (ok row', w'))
            × Stands w' n f k g left
      unfolding call_unmount
      call_unmount-Stands row =
          let (row', s') = ops.unmount row w.state in (row', record w { state = s' }, refl, kept s')

      pub call_set_index-Stands :
          (row : Row) (index : ℕ)
          → (w' : Rendering) × (call_set_index ops row index w ≡ (ok tt, w'))
            × Stands w' n f k g left
      unfolding call_set_index
      call_set_index-Stands row index =
          let s' = ops.set_index row index w.state in (record w { state = s' }, refl, kept s')

      pub call_mount-Stands :
          (row : Row) (before : Option Row)
          → (row' : Row) × (w' : Rendering) × (call_mount ops row before w ≡ (ok row', w'))
            × (label row' ≡ label row)
            × Stands w' n f k g left
      unfolding call_mount
      call_mount-Stands row before =
          let (row', s') = ops.mount row before w.state in
          (row', record w { state = s' }, refl, ls.label-mount row before w.state, kept s')

      pub call_build-Stands :
          (index : ℕ) (item : Item)
          → (row : Row) × (w' : Rendering) × (call_build ops index item w ≡ (ok row, w'))
            × (label row ≡ ls.made index item)
            × Stands w' n f k g left
      unfolding call_build
      call_build-Stands index item =
          let (row, s') = ops.build index item w.state in
          (row, record w { state = s' }, refl, ls.label-build index item w.state, kept s')
