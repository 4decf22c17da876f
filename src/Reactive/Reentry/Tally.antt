-- ===== src/Reactive/Reentry/Tally.antt =====
-- Lists of the accesses that are alive, and how many of them use a value.
use halyard.Prelude.{
  ℕ, suc, ◌≤◌, ◌≡◌, ◌≢◌, inl, inr, refl, ap, ◌∙◌, Bool-cases, List, [], ◌∷◌, ◌++◌, ◌==◌, length,
  arith, if◌then◌else◌,
}
use halyard.Reactive.Reentry.{Kind, read, write_lock, snapshot, compute}

-- How many accesses of a value are alive, and how many of each kind.
pub record Tally : Type 0 where
  pub depth : ℕ
  pub write_locks : ℕ
  pub snapshots : ℕ
  pub computing : ℕ

abbrev pub nothing : Tally
nothing = record { depth = 0; write_locks = 0; snapshots = 0; computing = 0 }

abbrev pub bump : Kind → Tally → Tally
bump read t = record t { depth = suc t.depth }
bump write_lock t = record t { depth = suc t.depth; write_locks = suc t.write_locks }
bump snapshot t = record t { depth = suc t.depth; snapshots = suc t.snapshots }
bump compute t = record t { depth = suc t.depth; computing = suc t.computing }

abbrev pub Access : Type 0
Access = ℕ × Kind

abbrev pub tally : ℕ → List Access → Tally
tally id [] = nothing
tally id ((j, kind) ∷ accesses) =
    let later = tally id accesses in if j == id then bump kind later else later

-- Each count is at most the depth.
pub record Fits (t : Tally) (n : ℕ) : Type 0 where
  pub depth_le : t.depth ≤ n
  pub write_locks_le : t.write_locks ≤ t.depth
  pub snapshots_le : t.snapshots ≤ t.depth
  pub computing_le : t.computing ≤ t.depth

pub bump-Fits : (kind : Kind) (t : Tally) (n : ℕ) → Fits t n → Fits (bump kind t) (suc n)
bump-Fits read t n f = omega arith
bump-Fits write_lock t n f = omega arith
bump-Fits snapshot t n f = omega arith
bump-Fits compute t n f = omega arith

bump_comm : (k l : Kind) (t : Tally) → bump k (bump l t) ≡ bump l (bump k t)
bump_comm read read t = refl
bump_comm read write_lock t = refl
bump_comm read snapshot t = refl
bump_comm read compute t = refl
bump_comm write_lock read t = refl
bump_comm write_lock write_lock t = refl
bump_comm write_lock snapshot t = refl
bump_comm write_lock compute t = refl
bump_comm snapshot read t = refl
bump_comm snapshot write_lock t = refl
bump_comm snapshot snapshot t = refl
bump_comm snapshot compute t = refl
bump_comm compute read t = refl
bump_comm compute write_lock t = refl
bump_comm compute snapshot t = refl
bump_comm compute compute t = refl

pub Tally_eq :
    (a b : Tally)
    → a.depth ≡ b.depth
    → a.write_locks ≡ b.write_locks
    → a.snapshots ≡ b.snapshots
    → a.computing ≡ b.computing
    → a ≡ b
Tally_eq a b p q r s =
    λ i. record { depth = p i; write_locks = q i; snapshots = r i; computing = s i }

pub tally-Fits : (id : ℕ) (accesses : List Access) → Fits (tally id accesses) (length accesses)
tally-Fits id [] = omega arith
tally-Fits id ((j, kind) ∷ accesses) =
    let f = tally-Fits id accesses in
    elim (Bool-cases (j == id)) [
      | inl same ↦ rw same (bump-Fits kind (tally id accesses) (length accesses) f)
      | inr other ↦
          let wider : Fits (tally id accesses) (suc (length accesses)) = omega arith in
          rw other wider
    ]

-- Where an access stands in the list makes no difference.
pub tally-insert :
    (j id : ℕ) (kind : Kind) (before after : List Access)
    → tally j (before ++ (id, kind) ∷ after)
      ≡ (if id == j then bump kind (tally j (before ++ after)) else tally j (before ++ after))
tally-insert j id kind [] after = refl
tally-insert j id kind ((i, k) ∷ before) after =
    let ih = tally-insert j id kind before after in
    let rest = tally j (before ++ after) in
    elim (Bool-cases (i == j)) [
      | inr other ↦ rw other ih
      | inl same ↦ elim (Bool-cases (id == j)) [
        | inr apart ↦ rw (same, apart) (ap (bump k) (rw apart at ih))
        | inl here ↦ rw (same, here) (ap (bump k) (rw here at ih) ∙ bump_comm k kind rest)
      ]
    ]

pub bump_ne : (kind : Kind) (t : Tally) → bump kind t ≢ nothing
bump_ne read t h = let d : suc t.depth ≡ 0 = ap (λ q. q.depth) h in omega arith
bump_ne write_lock t h = let d : suc t.depth ≡ 0 = ap (λ q. q.depth) h in omega arith
bump_ne snapshot t h = let d : suc t.depth ≡ 0 = ap (λ q. q.depth) h in omega arith
bump_ne compute t h = let d : suc t.depth ≡ 0 = ap (λ q. q.depth) h in omega arith
