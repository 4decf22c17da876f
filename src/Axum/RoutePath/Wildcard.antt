-- ===== src/Axum/RoutePath/Wildcard.antt =====
-- What `find_close` and `wildcard` return.
use halyard.Prelude.{
  ℕ, zero, suc, ◌+◌, ◌≤◌, ◌<◌, ◌≡◌, ◌≢◌, Bool, true, false, not, ◌&&◌, List, [], ◌∷◌, map, arith,
  ◌==◌, Bool-cases, inl, inr, length, take, drop, All, ok, Result-cases,
}
use halyard.Axum.RoutePath.{
  Token, literal, param, catch_all, Cell, find_close, wildcard_token, close_wildcard, wildcard,
  ends_segment, last_is_star,
}

-- A byte that may stand in the name of a parameter after its first place.
abbrev pub IsNameByte : ℕ → Type 0
IsNameByte b = (b ≢ b'*') × (b ≢ b'/')

-- The name of a catch-all.
abbrev pub IsName : List ℕ → Type 0
IsName name = (name ≢ []) × All IsNameByte name

length-drop_le {ℓ} : {A : Type ℓ} (n : ℕ) (xs : List A) → length (drop n xs) ≤ length xs
length-drop_le zero xs = omega arith
length-drop_le (suc n) [] = omega arith
length-drop_le (suc n) (x ∷ xs) = omega (arith, length-drop_le {ℓ} n xs)

-- The index of the closing brace is in range, and the name before it has no `*` and no `/`.
find_close-ok :
    (i : ℕ) (cells : List Cell) {close : ℕ}
    → find_close i cells ≡ ok close
    → (k : ℕ) × (close ≡ i + k)
      × (k < length cells)
      × All IsNameByte (map (λ cell. cell.0) (take k cells))
unfolding find_close
find_close-ok i [] h = cc
find_close-ok i ((byte, escaped) ∷ cells) {close} h =
    elim (Bool-cases (byte == b'}' && not escaped)) [
      | inl here ↦ (0, ground arith, omega arith, tt)
      | inr more ↦
          let bytes : IsNameByte byte = ground arith in
          let later : find_close (suc i) cells ≡ ok close = ground arith in
          let (k, e, lt, name) = find_close-ok (suc i) cells later in
          (suc k, omega arith, omega arith, (bytes, name))
    ]

-- A wildcard takes at least its closing brace, is followed by `/` or by nothing, and a catch-all has
-- a name.
abbrev pub IsWildcard : Token → Type 0
IsWildcard (literal _) = ⊥
IsWildcard param = Unit
IsWildcard (catch_all name) = IsName name

wildcard_token-IsWildcard :
    (byte : ℕ) (escaped : Bool) (name : List Cell)
    → All IsNameByte (map (λ cell. cell.0) name)
    → last_is_star ((byte, escaped) ∷ name) ≡ false
    → IsWildcard (wildcard_token ((byte, escaped) ∷ name))
unfolding wildcard_token
wildcard_token-IsWildcard byte escaped [] h star = rw star tt
wildcard_token-IsWildcard byte escaped (cell ∷ name) h star = elim (Bool-cases (byte == b'*')) [
  | inl e ↦ rw e (λ q. cc, h)
  | inr e ↦ rw e tt
]

close_wildcard-ok :
    (byte : ℕ) (escaped : Bool) (cells : List Cell) (k : ℕ) {token : Token} {rest : List Cell}
    → k < length cells
    → All IsNameByte (map (λ cell. cell.0) (take k cells))
    → close_wildcard ((byte, escaped) ∷ cells) (suc k) ≡ ok (token, rest)
    → IsWildcard token × (ends_segment rest ≡ true) × (length rest < suc (length cells))
unfolding close_wildcard
close_wildcard-ok byte escaped cells k lt h e = ground (
  arith,
  wildcard_token-IsWildcard byte escaped (take k cells) h,
  length-drop_le 1 (drop k cells),
  length-drop_le k cells,
)

wildcard-found :
    (cell : Cell) (cells : List Cell) {found : Token × List Cell}
    → wildcard (cell ∷ cells) ≡ ok found
    → (close : ℕ) × (find_close 1 cells ≡ ok close)
      × (close_wildcard (cell ∷ cells) close ≡ ok found)
unfolding wildcard
wildcard-found (byte, escaped) cells h = elim (Result-cases (find_close 1 cells)) [
  | inr (e, lost) ↦ ground arith
  | inl (close, found) ↦ (close, found, ground arith)
]

pub wildcard-ok :
    (after : List Cell) {token : Token} {rest : List Cell}
    → wildcard after ≡ ok (token, rest)
    → IsWildcard token × (ends_segment rest ≡ true) × (length rest < length after)
unfolding wildcard
wildcard-ok [] h = cc
wildcard-ok ((byte, escaped) ∷ cells) h =
    let (close, found, closed) = wildcard-found (byte, escaped) cells h in
    let (k, e, lt, name) = find_close-ok 1 cells found in
    let index : close ≡ suc k = omega arith in
    close_wildcard-ok byte escaped cells k lt name (rw index at closed)
