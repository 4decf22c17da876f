-- ===== src/KeyedList/Apply/Placed/Passes.antt =====
-- What the two passes show: each move of the pass ends with its row at the new place.
use halyard.Prelude.{
  ℕ, suc, ◌≤◌, ◌<◌, ◌≡◌, refl, sym, ap, ◌∙◌, subst, Bool, true, false, Bool-cases, inl, inr, Option,
  none, some, List, [], ◌∷◌, ok, arith,
}
use halyard.Prelude.Ranges.{AllDistinct}
use halyard.KeyedList.{ListOps}
use halyard.KeyedList.Diff.{DiffOpMove}
use halyard.KeyedList.Diff.Moves.{same, tos}
use halyard.KeyedList.Labels.{Labels}
use halyard.KeyedList.Rows.Places.{upd}
use halyard.KeyedList.Work.Shown.{
  Rendering, Stands, Stands_ext, free_place-Stands, take_moving-Stands, call_set_index-Stands,
  put_row-Stands,
}
use halyard.KeyedList.Apply.{place_still, place_moved}
use halyard.KeyedList.Apply.Removed.{chosen, chosen-upd, upd-off}
use halyard.KeyedList.Apply.Placed.{
  Vacant, Vacant-upd, HeldFor, HeldFor-upd, place_still-skip, place_still-step, place_moved-skip,
  place_moved-step, call_mount_at-Stands,
}

tos-here :
    (b : Bool) (op : DiffOpMove) (moved : List DiffOpMove)
    → same b op.move_in_dom ≡ true
    → tos b (op ∷ moved) ≡ op.to ∷ tos b moved
tos-here b op moved e = rw e refl

tos-past :
    (b : Bool) (op : DiffOpMove) (moved : List DiffOpMove)
    → same b op.move_in_dom ≡ false
    → tos b (op ∷ moved) ≡ tos b moved
tos-past b op moved e = rw e refl

module _ (ops : ListOps) (ls : Labels ops) where
  open ops use {Item, Row}
  open ls use {Label}

  -- The rows of the moves to `xs` stand at their new places, and the rows to be moved before `i` and those
  -- of the other pass are still there.
  pub record Passed (w : Rendering ops ls) (n k : ℕ) (f g t : ℕ → Option Label)
      (left : ℕ → Option Item) (i : ℕ) (moved : List DiffOpMove) (xs : List ℕ) : Type 0 where
    pub after : ℕ → Option Label
    pub stands : Stands ops ls w n (chosen xs t f) k after left
    pub earlier : (x : ℕ) → x < i → after x ≡ g x
    pub others : HeldFor true i moved g t → HeldFor true i moved after t

  -- One move of the pass, and then the rest of the pass.
  Passed-here :
      (w : Rendering ops ls) (n k : ℕ) (f g t : ℕ → Option Label) (left : ℕ → Option Item) (i : ℕ)
      (op : DiffOpMove) (moved : List DiffOpMove) (xs : List ℕ)
      → Passed w n k (upd f op.to (t op.to)) (upd g i none) t left (suc i) moved xs
      → op.move_in_dom ≡ false
      → Passed w n k f g t left i (op ∷ moved) (op.to ∷ xs)
  Passed-here w n k f g t left i op moved xs p still = record {
    after = p.after;
    stands =
        Stands_ext ops ls w n k (chosen xs t (upd f op.to (t op.to))) p.after left
          (chosen (op.to ∷ xs) t f) (chosen-upd op.to xs t f (t op.to) refl) p.stands;
    earlier =
        λ x lt. let off = upd-off g i x none (ground arith) in p.earlier x (omega arith) ∙ off;
    others = λ h. (
      λ moves. let clash : false ≡ true = sym still ∙ moves in cc,
      p.others (HeldFor-upd true (suc i) i moved g t (omega arith) h.1),
    );
  }

  pub place_still-Stands :
      (moved : List DiffOpMove) (m i : ℕ) (w : Rendering ops ls) (n k : ℕ)
      (f g t : ℕ → Option Label) (left : ℕ → Option Item)
      → m ≤ n
      → Stands ops ls w n f k g left
      → AllDistinct (tos false moved)
      → Vacant m (tos false moved) f
      → HeldFor false i moved g t
      → (w' : Rendering ops ls) × (place_still ops m i moved w ≡ (ok tt, w'))
        × Passed w' n k f g t left i moved (tos false moved)
  unfolding place_still
  place_still-Stands [] m i w n k f g t left le s d v h =
      (w, refl, record { after = g; stands = s; earlier = λ x lt. refl; others = λ o. o })
  place_still-Stands (op ∷ moved) m i w n k f g t left le s d v h =
      elim (Bool-cases op.move_in_dom) [
        | inl moves ↦
            let past = tos-past false op moved (ground arith) in
            let (w', e, p) =
              place_still-Stands moved m (suc i) w n k f g t left le s (subst AllDistinct past d)
                (subst (λ q. Vacant m q f) past v) h.1 in
            (
              w',
              place_still-skip ops ls m i op moved w moves ∙ e,
              subst (λ q. Passed w' n k f g t left i (op ∷ moved) q) (sym past)
                  (record {
                    after = p.after;
                    stands = p.stands;
                    earlier = λ x lt. p.earlier x (omega arith);
                    others = λ o. (
                      λ is. let (l, at, to) = o.0 is in (l, p.earlier i (omega arith) ∙ at, to),
                      p.others o.1,
                    );
                  }),
            )
        | inr still ↦
            let here = tos-here false op moved (ground arith) in
            let d' : AllDistinct (op.to ∷ tos false moved) = subst AllDistinct here d in
            let v' : Vacant m (op.to ∷ tos false moved) f = subst (λ q. Vacant m q f) here v in
            let (l, at, to) = h.0 (ground arith) in
            let (free, lt) = v' op.to (ground arith) in
            let e0 = free_place-Stands ops ls w n k f g left s m op.to lt le free in
            let (row, w1, e1, is, s1) = take_moving-Stands ops ls w n k f g left s i l at in
            let (w2, e2, s2) =
              call_set_index-Stands ops ls w1 n k f (upd g i none) left s1 row op.to in
            let (w3, e3, s3) =
              put_row-Stands ops ls w2 n k f (upd g i none) left s2 op.to row (t op.to)
                (omega arith) (ap some is ∙ sym to) in
            let (w4, e4, p) =
              place_still-Stands moved m (suc i) w3 n k (upd f op.to (t op.to)) (upd g i none) t
                left le s3 d'.1 (Vacant-upd m op.to (tos false moved) f (t op.to) d'.0 v')
                (HeldFor-upd false (suc i) i moved g t (omega arith) h.1) in
            (
              w4,
              place_still-step ops ls m i op moved row w w1 w2 w3 still e0 e1 e2 e3 ∙ e4,
              subst (λ q. Passed w4 n k f g t left i (op ∷ moved) q) (sym here)
                  (Passed-here w4 n k f g t left i op moved (tos false moved) p still),
            )
      ]

  pub place_moved-Stands :
      (moved : List DiffOpMove) (m i : ℕ) (w : Rendering ops ls) (n k : ℕ)
      (f g t : ℕ → Option Label) (left : ℕ → Option Item)
      → m ≤ n
      → Stands ops ls w n f k g left
      → AllDistinct (tos true moved)
      → Vacant m (tos true moved) f
      → HeldFor true i moved g t
      → (w' : Rendering ops ls) × (g' : ℕ → Option Label) × (place_moved ops m i moved w
          ≡ (ok tt, w'))
        × Stands ops ls w' n (chosen (tos true moved) t f) k g' left
  unfolding place_moved
  place_moved-Stands [] m i w n k f g t left le s d v h = (w, g, refl, s)
  place_moved-Stands (op ∷ moved) m i w n k f g t left le s d v h =
      elim (Bool-cases op.move_in_dom) [
        | inr still ↦
            let past = tos-past true op moved still in
            let (w', g', e, p) =
              place_moved-Stands moved m (suc i) w n k f g t left le s (subst AllDistinct past d)
                (subst (λ q. Vacant m q f) past v) h.1 in
            (
              w',
              g',
              place_moved-skip ops ls m i op moved w still ∙ e,
              subst (λ q. Stands ops ls w' n (chosen q t f) k g' left) (sym past) p,
            )
        | inl moves ↦
            let here = tos-here true op moved moves in
            let d' : AllDistinct (op.to ∷ tos true moved) = subst AllDistinct here d in
            let v' : Vacant m (op.to ∷ tos true moved) f = subst (λ q. Vacant m q f) here v in
            let (l, at, to) = h.0 moves in
            let (free, lt) = v' op.to (ground arith) in
            let e0 = free_place-Stands ops ls w n k f g left s m op.to lt le free in
            let (row, w1, e1, is, s1) = take_moving-Stands ops ls w n k f g left s i l at in
            let (row', w2, e2, is', s2) =
              call_mount_at-Stands ops ls w1 n k f (upd g i none) left s1 row op.to in
            let (w3, e3, s3) =
              call_set_index-Stands ops ls w2 n k f (upd g i none) left s2 row' op.to in
            let (w4, e4, s4) =
              put_row-Stands ops ls w3 n k f (upd g i none) left s3 op.to row' (t op.to)
                (omega arith) (ap some (is' ∙ is) ∙ sym to) in
            let (w5, g', e5, p) =
              place_moved-Stands moved m (suc i) w4 n k (upd f op.to (t op.to)) (upd g i none) t
                left le s4 d'.1 (Vacant-upd m op.to (tos true moved) f (t op.to) d'.0 v')
                (HeldFor-upd true (suc i) i moved g t (omega arith) h.1) in
            (
              w5,
              g',
              place_moved-step ops ls m i op moved row row' w w1 w2 w3 w4 moves e0 e1 e2 e3 e4 ∙ e5,
              subst (λ q. Stands ops ls w5 n (chosen q t f) k g' left) (sym here)
                  (Stands_ext ops ls w5 n k (chosen (tos true moved) t (upd f op.to (t op.to))) g'
                    left (chosen (op.to ∷ tos true moved) t f)
                    (chosen-upd op.to (tos true moved) t f (t op.to) refl) p),
            )
      ]
