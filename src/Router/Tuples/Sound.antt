-- ===== src/Router/Tuples/Sound.antt =====
-- A tuple of segments that keep the contract keeps it too.
use halyard.Prelude.{
  ℕ, zero, suc, ◌+◌, ◌<◌, ◌≡◌, ◌⊎◌, inl, inr, refl, sym, ap, ◌∙◌, Bool, true, not, ◌||◌, some, List,
  [], ◌∷◌, ◌++◌, All, length, length-append, take, take-length_append, leb, max, arith, Bool-cases,
  Option-cases, if◌then◌else◌,
}
use mathlib.Core.Logic.{⊎_elim}
use mathlib.Core.List.{append_assoc}
use halyard.Prelude.Bytes.{Bytes, starts_with_byte, get_prefix}
use halyard.Router.Segments.{slash, PartialPathMatch, PossibleRouteMatch}
use halyard.Router.Segments.Placed.{Placed, IsPlacing, segments_IsPlacing}
use halyard.Router.Tuples.{
  record_match, Pass, matches, fails, retries, Progress, finish_pass, advance, pass_rest, pass,
  start, attempt, single_test, tuple_test, count_optionals,
}

-- After some segments: what they consumed, and where the matched prefix ends.
record Inv (path : Bytes) (s : Progress) : Type 0 where
  consumed : Bytes
  split : path ≡ consumed ++ s.r
  end_at :
      (s.end ≡ length consumed) ⊎ (starts_with_byte b'/' s.r ≡ true) × (s.end ≡ length consumed + 1)

record_match-some :
    (path r consumed d rest : Bytes) (end : ℕ) (matched : Bytes) {end' : ℕ}
    → path ≡ consumed ++ r
    → r ≡ d ++ rest
    → record_match path end r matched rest ≡ some end'
    → end' ≡ max (max end (length consumed + length matched)) (length consumed + length d)
unfolding record_match
record_match-some path r consumed d rest end matched p q h =
    let whole : length path ≡ length consumed + length r = ap length p ∙ length-append consumed r in
    let part : length r ≡ length d + length rest = ap length q ∙ length-append d rest in
    ground arith

advance-some :
    (path : Bytes) (s : Progress) (nth : ℕ) (m : PartialPathMatch) {s' : Progress}
    → advance path s nth m ≡ some s'
    → (record_match path s.end s.r m.matched m.remaining ≡ some s'.end) × (s'.r ≡ m.remaining)
unfolding advance
advance-some path s nth m h = ground arith

-- The end of the matched prefix after one more segment, which took `d` bytes and reported `l`; `a` and
-- `b` say whether the paths before and after it begin with `/`.
end_after :
    (end c d l : ℕ) (a b : Bool)
    → (end ≡ c) ⊎ (a ≡ true) × (end ≡ c + 1)
    → (l ≡ d) ⊎ (b ≡ true) × (l ≡ d + 1)
    → (0 < d) ⊎ (a ≡ b)
    → (max (max end (c + l)) (c + d) ≡ c + d)
      ⊎ (b ≡ true) × (max (max end (c + l)) (c + d) ≡ c + d + 1)
end_after end c d l a b p h z = ground arith

reported_length :
    (path : Bytes) (m : PartialPathMatch) (p : Placed path m)
    → (length m.matched ≡ length p.consumed)
      ⊎ (starts_with_byte b'/' m.remaining ≡ true) × (length m.matched ≡ length p.consumed + 1)
reported_length path m p =
    ⊎_elim (λ e. inl (ap length e)) (λ e. inr (e.0, ap length e.1 ∙ length-append p.consumed slash))
      p.reported

took_some :
    (consumed rest r : Bytes)
    → r ≡ consumed ++ rest
    → (0 < length consumed) ⊎ (starts_with_byte b'/' r ≡ starts_with_byte b'/' rest)
took_some [] rest r e = inr (ap (starts_with_byte b'/') e)
took_some (b ∷ consumed) rest r e = inl (omega arith)

advance-Inv :
    (path : Bytes) (s : Progress) (nth : ℕ) (m : PartialPathMatch) (s' : Progress)
    → Inv path s
    → Placed s.r m
    → advance path s nth m ≡ some s'
    → Inv path s'
advance-Inv path s nth m s' inv placed h =
    let (recorded, rest) = advance-some path s nth m h in
    let end =
      record_match-some path s.r inv.consumed placed.consumed m.remaining s.end m.matched inv.split
        placed.split recorded in
    let after =
      end_after s.end (length inv.consumed) (length placed.consumed) (length m.matched)
        (starts_with_byte b'/' s.r) (starts_with_byte b'/' m.remaining) inv.end_at
        (reported_length s.r m placed) (took_some placed.consumed m.remaining s.r placed.split) in
    let size = length-append inv.consumed placed.consumed in
    let begins : starts_with_byte b'/' s'.r ≡ starts_with_byte b'/' m.remaining =
      ap (starts_with_byte b'/') rest in
    record {
      consumed = inv.consumed ++ placed.consumed;
      split =
          inv.split
          ∙ ap (λ l. inv.consumed ++ l) placed.split
          ∙ ap (λ l. inv.consumed ++ (placed.consumed ++ l)) (sym rest)
          ∙ sym (append_assoc inv.consumed placed.consumed s'.r);
      end_at =
          ⊎_elim (λ e. inl (end ∙ e ∙ sym size)) (λ e. inr (begins ∙ e.0, omega (arith, e.1)))
            after;
    }

get_prefix-some :
    (path : Bytes) (end : ℕ) {matched : Bytes}
    → get_prefix path end ≡ some matched
    → matched ≡ take end path
unfolding get_prefix
get_prefix-some path end h = ground arith

-- One byte more, where the rest begins with `/`.
take-slash :
    (consumed r : Bytes)
    → starts_with_byte b'/' r ≡ true
    → take (length consumed + 1) (consumed ++ r) ≡ consumed ++ slash
take-slash consumed [] h = cc
take-slash consumed (b ∷ r) h =
    let slashed : b ≡ b'/' = ground arith in
    let size : length consumed + 1 ≡ length (consumed ++ b ∷ []) =
      sym (length-append consumed (b ∷ [])) in
    rw (size) (
      ap (take (length (consumed ++ b ∷ []))) (sym (append_assoc consumed (b ∷ []) r))
      ∙ take-length_append (consumed ++ b ∷ []) r
      ∙ ap (λ c. consumed ++ c ∷ []) slashed)

prefix-Placed :
    (path : Bytes) (s : Progress) (m : PartialPathMatch)
    → Inv path s
    → get_prefix path s.end ≡ some m.matched
    → m.remaining ≡ s.r
    → Placed path m
prefix-Placed path s m inv found rest =
    let whole : m.matched ≡ take s.end (inv.consumed ++ s.r) =
      get_prefix-some path s.end found ∙ ap (take s.end) inv.split in
    let shifted = λ (n : ℕ) (e : s.end ≡ n). whole ∙ ap (λ k. take k (inv.consumed ++ s.r)) e in
    record {
      consumed = inv.consumed;
      split = inv.split ∙ ap (λ l. inv.consumed ++ l) (sym rest);
      reported =
          ⊎_elim (λ e. inl (shifted (length inv.consumed) e ∙ take-length_append inv.consumed s.r))
            (λ e. inr (
              ap (starts_with_byte b'/') rest ∙ e.0,
              shifted (length inv.consumed + 1) e.1 ∙ take-slash inv.consumed s.r e.0,
            ))
            inv.end_at;
    }

finish_pass-Placed :
    (path : Bytes) (s : Progress) (m : PartialPathMatch)
    → Inv path s
    → finish_pass path s ≡ matches m
    → Placed path m
finish_pass-Placed path s m inv h = elim (Option-cases (get_prefix path s.end)) [
  | inl lost ↦ ground arith
  | inr (matched, found) ↦ prefix-Placed path s m inv (ground arith) (ground arith)
]

skip-Inv :
    (path : Bytes) (s : Progress) (n : ℕ) → Inv path s → Inv path (record s { nth_field = n })
skip-Inv path s n inv = record { consumed = inv.consumed; split = inv.split; end_at = inv.end_at }

pass_rest-Placed :
    (path : Bytes) (n : ℕ) (s : Progress) (segments : List PossibleRouteMatch)
    (m : PartialPathMatch)
    → All IsPlacing segments
    → Inv path s
    → pass_rest path n s segments ≡ matches m
    → Placed path m
unfolding pass_rest
pass_rest-Placed path n s [] m c inv h = finish_pass-Placed path s m inv h
pass_rest-Placed path n s (segment ∷ segments) m (c, cs) inv h =
    let nth : ℕ = if segment.optional then suc s.nth_field else s.nth_field in
    elim (Bool-cases (not segment.optional || leb nth n)) [
      | inr e ↦
          pass_rest-Placed path n (record s { nth_field = nth }) segments m cs
            (skip-Inv path s nth inv) (rw (e, pass_rest) at h)
      | inl e ↦ elim (Option-cases (segment.test s.r)) [
        | inl lost ↦ let stopped = rw (e, lost, pass_rest) at h in ground arith
        | inr (m', found) ↦ elim (Option-cases (advance path s nth m')) [
          | inl lost ↦ let stopped = rw (e, found, lost, pass_rest) at h in cc
          | inr (s', moved) ↦
              pass_rest-Placed path n s' segments m cs
                (advance-Inv path s nth m' s' inv (c s.r m' found) moved)
                (rw (e, found, moved, pass_rest) at h)
        ]
      ]
    ]

start-Inv : (path : Bytes) (n : ℕ) → Inv path (record (start path 0) { nth_field = n })
start-Inv path n = record { consumed = []; split = refl; end_at = inl refl }

pass-Placed :
    (path : Bytes) (n : ℕ) (first : PossibleRouteMatch) (segments : List PossibleRouteMatch)
    (m : PartialPathMatch)
    → IsPlacing first
    → All IsPlacing segments
    → pass path n first segments ≡ matches m
    → Placed path m
unfolding pass
pass-Placed path n first segments m c cs h =
    let nth : ℕ = if first.optional then 1 else 0 in
    elim (Bool-cases (not first.optional || leb nth n)) [
      | inr e ↦
          pass_rest-Placed path n (record (start path n) { nth_field = nth }) segments m cs
            (start-Inv path nth) (rw (e, pass) at h)
      | inl e ↦ elim (Option-cases (first.test path)) [
        | inl lost ↦ let stopped = rw (e, lost, pass) at h in cc
        | inr (m', found) ↦ elim (Option-cases (advance path (start path n) nth m')) [
          | inl lost ↦ let stopped = rw (e, found, lost, pass) at h in cc
          | inr (s', moved) ↦
              pass_rest-Placed path n s' segments m cs
                (advance-Inv path (start path n) nth m' s' (start-Inv path 0) (c path m' found)
                  moved)
                (rw (e, found, moved, pass) at h)
        ]
      ]
    ]

Pass-cases : (p : Pass) → ((m : PartialPathMatch) × (p ≡ matches m)) ⊎ (p ≡ fails) ⊎ (p ≡ retries)
Pass-cases (matches m) = inl (m, refl)
Pass-cases fails = inr (inl refl)
Pass-cases retries = inr (inr refl)

advance-record :
    (path : Bytes) (m : PartialPathMatch) (end : ℕ)
    → record_match path 0 path m.matched m.remaining ≡ some end
    → advance path (start path 0) 0 m
      ≡ some (record { nth_field = 0; end = end; r = m.remaining; p = [] ++ m.params })
unfolding advance
advance-record path m end h = rw (h, advance) refl

attempt-Placed :
    (path : Bytes) (first : PossibleRouteMatch) (segments : List PossibleRouteMatch) (n : ℕ)
    (m : PartialPathMatch)
    → IsPlacing first
    → All IsPlacing segments
    → attempt path first segments n ≡ some m
    → Placed path m
unfolding attempt
attempt-Placed path first segments zero m c cs h = elim (Pass-cases (pass path 0 first segments)) [
  | inl (m', e) ↦
      let same : some m' ≡ some m = rw (e, attempt) at h in
      pass-Placed path 0 first segments m c cs (e ∙ ap matches (cc))
  | inr (inl e) ↦ let stopped = rw (e, attempt) at h in cc
  | inr (inr e) ↦ let stopped = rw (e, attempt) at h in cc
]
attempt-Placed path first segments (suc n) m c cs h =
    elim (Pass-cases (pass path (suc n) first segments)) [
      | inl (m', e) ↦
          let same : some m' ≡ some m = rw (e, attempt) at h in
          pass-Placed path (suc n) first segments m c cs (e ∙ ap matches (cc))
      | inr (inl e) ↦ let stopped = rw (e, attempt) at h in cc
      | inr (inr e) ↦ attempt-Placed path first segments n m c cs (rw (e, attempt) at h)
    ]

single_test-Placed :
    (segment : PossibleRouteMatch) (path : Bytes) (m : PartialPathMatch)
    → IsPlacing segment
    → single_test segment path ≡ some m
    → Placed path m
unfolding single_test
single_test-Placed segment path m c h = elim (Option-cases (segment.test path)) [
  | inl lost ↦ ground arith
  | inr (m', found) ↦ elim (Option-cases (record_match path 0 path m'.matched m'.remaining)) [
    | inl lost ↦ ground arith
    | inr (end, recorded) ↦
        let s' : Progress = record {
          nth_field = 0;
          end = end;
          r = m'.remaining;
          p = [] ++ m'.params;
        } in
        let moved : advance path (start path 0) 0 m' ≡ some s' =
          advance-record path m' end recorded in
        let inv : Inv path s' =
          advance-Inv path (start path 0) 0 m' s' (start-Inv path 0) (c path m' found) moved in
        prefix-Placed path s' m inv (ground arith) (ground arith)
  ]
]

-- A tuple of segments that take a beginning of the path and report what they took does the same on the
-- whole path, whichever optional segments it skips: what it matches and what is left are parts of the
-- path, and it reports at most one `/` that it leaves.
pub tuple_test-Placed :
    (segments : List PossibleRouteMatch) (path : Bytes) (m : PartialPathMatch)
    → All IsPlacing segments
    → tuple_test segments path ≡ some m
    → Placed path m
unfolding tuple_test
tuple_test-Placed [] path m c h = (segments_IsPlacing []).0.0 path m h
tuple_test-Placed (segment ∷ []) path m c h = single_test-Placed segment path m c.0 h
tuple_test-Placed (first ∷ next ∷ segments) path m c h =
    attempt-Placed path first (next ∷ segments) (count_optionals (first ∷ next ∷ segments)) m c.0
      c.1 h
