-- ===== src/KeyedList/Diff/Moves.antt =====
-- The indices in a plan; its moves as a partial function from old to new indices.
use halyard.Prelude.{
  ℕ, ◌≡◌, refl, sym, ap, ◌∙◌, subst, Bool, true, false, not, ◌||◌, Bool-cases, inl, inr, Option,
  some, List, [], ◌∷◌, ◌++◌, length, suc, ◌==◌, if◌then◌else◌, arith,
}
use halyard.Prelude.Ranges.{memb, AllDistinct}
use halyard.KeyedList.Diff.{DiffOpMove, DiffOpAdd}

abbrev pub froms : List DiffOpMove → List ℕ
froms [] = []
froms (op ∷ moved) = op.from ∷ froms moved

abbrev pub targets : List DiffOpMove → List ℕ
targets [] = []
targets (op ∷ moved) = op.to ∷ targets moved

-- The places of the additions.
abbrev pub ats : List DiffOpAdd → List ℕ
ats [] = []
ats (add ∷ added) = add.at ∷ ats added

pub length-ats : (added : List DiffOpAdd) → length (ats added) ≡ length added
length-ats [] = refl
length-ats (add ∷ added) = ap suc (length-ats added)

-- Whether `b` is the value of the flag `move_in_dom`.
abbrev pub same : Bool → Bool → Bool
same true flag = flag
same false flag = not flag

-- Where the moves with the flag `b` go.
abbrev pub tos : Bool → List DiffOpMove → List ℕ
tos b [] = []
tos b (op ∷ moved) = if same b op.move_in_dom then op.to ∷ tos b moved else tos b moved

-- The function takes each move's old index to its new one.
abbrev pub Moves : (ℕ → Option ℕ) → List DiffOpMove → Type 0
Moves goes [] = Unit
Moves goes (op ∷ moved) = (goes op.from ≡ some op.to) × Moves goes moved

pub froms-concat :
    (moved : List DiffOpMove) (op : DiffOpMove)
    → froms (moved ++ op ∷ []) ≡ froms moved ++ op.from ∷ []
froms-concat [] op = refl
froms-concat (o ∷ moved) op = ap (λ l. o.from ∷ l) (froms-concat moved op)

pub Moves-concat :
    (goes : ℕ → Option ℕ) (moved : List DiffOpMove) (op : DiffOpMove)
    → Moves goes moved
    → goes op.from ≡ some op.to
    → Moves goes (moved ++ op ∷ [])
Moves-concat goes [] op h e = (e, tt)
Moves-concat goes (o ∷ moved) op h e = (h.0, Moves-concat goes moved op h.1 e)

pub memb-targets :
    (j : ℕ) (moved : List DiffOpMove)
    → memb j (targets moved) ≡ (memb j (tos true moved) || memb j (tos false moved))
memb-targets j [] = refl
memb-targets j (op ∷ moved) =
    let ih = memb-targets j moved in
    elim (Bool-cases op.move_in_dom) [
      | inl e ↦ rw e (ground (arith, ih))
      | inr e ↦ rw e (ground (arith, ih))
    ]

pub memb-tos :
    (b : Bool) (j : ℕ) (moved : List DiffOpMove)
    → memb j (tos b moved) ≡ true
    → memb j (targets moved) ≡ true
memb-tos true j moved h = memb-targets j moved ∙ ground arith
memb-tos false j moved h = memb-targets j moved ∙ ground arith

pub tos-AllDistinct :
    (b : Bool) (moved : List DiffOpMove) → AllDistinct (targets moved) → AllDistinct (tos b moved)
tos-AllDistinct b [] d = tt
tos-AllDistinct b (op ∷ moved) d = elim (Bool-cases (same b op.move_in_dom)) [
  | inl e ↦
      let apart : memb op.to (tos b moved) ≡ false = elim (Bool-cases (memb op.to (tos b moved))) [
        | inl there ↦ let clash = memb-tos b op.to moved there in absurd (ground arith)
        | inr off ↦ off
      ] in
      rw e (apart, tos-AllDistinct b moved d.1)
  | inr e ↦ rw e (tos-AllDistinct b moved d.1)
]

pub tos_apart :
    (j : ℕ) (moved : List DiffOpMove)
    → AllDistinct (targets moved)
    → memb j (tos true moved) ≡ true
    → memb j (tos false moved) ≡ false
tos_apart j [] d h = refl
tos_apart j (op ∷ moved) d h =
    let both = memb-targets j moved in
    let ih = tos_apart j moved d.1 in
    let apart = d.0 in
    elim (Bool-cases (op.to == j)) [
      | inl here ↦
          let eq : op.to ≡ j = ground arith in
          let not_later : memb j (targets moved) ≡ false =
            subst (λ q. memb q (targets moved) ≡ false) eq apart in
          elim (Bool-cases op.move_in_dom) [
            | inl e ↦ rw e (ground arith)
            | inr e ↦
                let later : memb j (tos true moved) ≡ true = rw e at h in absurd (ground arith)
          ]
      | inr off ↦ elim (Bool-cases op.move_in_dom) [
        | inl e ↦
            let later : (op.to == j || memb j (tos true moved)) ≡ true = rw e at h in
            rw e (ih (ground arith))
        | inr e ↦
            let later : memb j (tos true moved) ≡ true = rw e at h in
            let none_later = ih later in rw e (ground arith)
      ]
    ]

-- A place that a move goes to.
pub targets-from :
    (goes : ℕ → Option ℕ) (moved : List DiffOpMove) (j : ℕ)
    → Moves goes moved
    → memb j (targets moved) ≡ true
    → (i : ℕ) × (memb i (froms moved) ≡ true) × (goes i ≡ some j)
targets-from goes [] j h e = cc
targets-from goes (op ∷ moved) j h e = elim (Bool-cases (op.to == j)) [
  | inl here ↦ let eq : op.to ≡ j = ground arith in (op.from, ground arith, h.0 ∙ ap some eq)
  | inr off ↦
      let (i, i_in, at) = targets-from goes moved j h.1 (ground arith) in (i, ground arith, at)
]

pub froms-target :
    (goes : ℕ → Option ℕ) (moved : List DiffOpMove) (i j : ℕ)
    → Moves goes moved
    → memb i (froms moved) ≡ true
    → goes i ≡ some j
    → memb j (targets moved) ≡ true
froms-target goes [] i j h e at = cc
froms-target goes (op ∷ moved) i j h e at = elim (Bool-cases (op.from == i)) [
  | inl here ↦
      let eq : op.from ≡ i = ground arith in
      let both : some op.to ≡ some j = sym h.0 ∙ ap goes eq ∙ at in
      let to : op.to ≡ j = cc in ground arith
  | inr off ↦ let ih = froms-target goes moved i j h.1 (ground arith) at in ground arith
]

pub targets-AllDistinct :
    (goes : ℕ → Option ℕ) (moved : List DiffOpMove)
    → ((i k j : ℕ) → goes i ≡ some j → goes k ≡ some j → i ≡ k)
    → Moves goes moved
    → AllDistinct (froms moved)
    → AllDistinct (targets moved)
targets-AllDistinct goes [] inj h d = tt
targets-AllDistinct goes (op ∷ moved) inj h d = (
  elim (Bool-cases (memb op.to (targets moved))) [
    | inl there ↦
        let (i, i_in, at) = targets-from goes moved op.to h.1 there in
        let eq : i ≡ op.from = inj i op.from op.to at h.0 in
        let clash : memb op.from (froms moved) ≡ true =
          ap (λ q. memb q (froms moved)) (sym eq) ∙ i_in in
        absurd (ground arith)
    | inr off ↦ off
  ],
  targets-AllDistinct goes moved inj h.1 d.1,
)
