-- ===== src/Router/StaticRoutes/Values.antt =====
-- `StaticParamsMap`: what an insertion changes.
use halyard.Prelude.{
  ◌≡◌, ◌≢◌, refl, sym, ap, subst, true, false, Bool-cases, inl, inr, some, List, [], ◌∷◌,
  if◌then◌else◌,
}
use halyard.Prelude.Bytes.{Bytes, ◌=b◌, =b_iff}
use halyard.Router.StaticRoutes.{StaticParamsMap, insert, get}

=b_refl : (key : Bytes) → (key =b key) ≡ true
=b_refl key = (=b_iff key key).1 refl

=b_apart : (key other : Bytes) → other ≢ key → (key =b other) ≡ false
=b_apart key other apart = elim (Bool-cases (key =b other)) [
  | inl same ↦ absurd (apart (sym ((=b_iff key other).0 same)))
  | inr e ↦ e
]

-- After an insertion, the key has the value, and the other keys have what they had.
pub get-insert :
    (key other : Bytes) (value : List Bytes) (items : StaticParamsMap)
    → (get key (insert key value items) ≡ some value)
      × ((other ≢ key) → get other (insert key value items) ≡ get other items)
unfolding get insert
get-insert key other value [] = (rw (=b_refl key) refl, λ apart. rw (=b_apart key other apart) refl)
get-insert key other value ((k, v) ∷ items) =
    let (same, others) = get-insert key other value items in
    elim (Bool-cases (k =b key)) [
      | inl here ↦ (
        rw (here, here) refl,
        λ apart.
            let off : (k =b other) ≡ false =
              subst (λ q. (q =b other) ≡ false) (sym ((=b_iff k key).0 here))
                (=b_apart key other apart) in
            rw (here, off) refl,
      )
      | inr there ↦ (
        rw (there, there) same,
        λ apart. rw there (ap (λ q. if k =b other then some v else q) (others apart)),
      )
    ]
