-- ===== src/Reactive/PageData/Parsed.antt =====
-- What the parsers keep, and what they report.
use halyard.Prelude.{
  ℕ, suc, ◌+◌, ◌≡◌, ◌↔◌, ◌⊎◌, refl, sym, ap, ◌∙◌, subst, Option, length, arith, none, some,
  Option-cases, List, [], ◌∷◌, ◌++◌, Result, ok, err, inl, inr,
}
use mathlib.Core.List.{append_assoc, append-nil}
use halyard.Reactive.PageData.{
  JsValueLike, Global, MalformedEntry, PageDataError, malformed_entries, id, three_of,
  serialized_error, incomplete_chunk, first_error, collect_from, collect, parse_each,
  incomplete_chunks, incomplete_chunks_global,
}

module _ (js : JsValueLike) where
  open js use {Value, Text, items, string}

  -- What is reported of the malformed entries of a global: nothing if there are none, and otherwise how many
  -- there are, and the first.
  pub data Reported (global : Global)
      : List (MalformedEntry js) → Option (PageDataError js) → Type 0 where
    all_parsed : Reported global [] none
    some_malformed :
        (n : ℕ) (first : MalformedEntry js) (rest : List (MalformedEntry js))
        → n ≡ 1 + length rest
        → Reported global (first ∷ rest) (some (malformed_entries global n first))

  first_error-Reported :
      (global : Global) (malformed : List (MalformedEntry js))
      → Reported global malformed (first_error js global malformed)
  first_error-Reported global [] = all_parsed
  first_error-Reported global (first ∷ rest) =
      some_malformed (suc (length rest)) first rest (omega arith)

  module _ {A : Type 0} where
    abbrev pub oks : List (Result (MalformedEntry js) A) → List A
    oks [] = []
    oks (ok value ∷ entries) = value ∷ oks entries
    oks (err error ∷ entries) = oks entries

    abbrev pub errs : List (Result (MalformedEntry js) A) → List (MalformedEntry js)
    errs [] = []
    errs (ok value ∷ entries) = errs entries
    errs (err error ∷ entries) = error ∷ errs entries

    collect_from-oks :
        (global : Global) (values : List A) (malformed : List (MalformedEntry js))
        (entries : List (Result (MalformedEntry js) A))
        → collect_from js global values malformed entries
          ≡ (values ++ oks entries, first_error js global (malformed ++ errs entries))
    unfolding collect_from
    collect_from-oks global values malformed [] = rw (append-nil values, append-nil malformed) refl
    collect_from-oks global values malformed (ok value ∷ entries) =
        collect_from-oks global (values ++ value ∷ []) malformed entries
        ∙ ap (λ q. (q, first_error js global (malformed ++ errs entries)))
            (append_assoc values (value ∷ []) (oks entries))
    collect_from-oks global values malformed (err error ∷ entries) =
        collect_from-oks global values (malformed ++ error ∷ []) entries
        ∙ ap (λ q. (values ++ oks entries, first_error js global q))
            (append_assoc malformed (error ∷ []) (errs entries))

    collect-first_error :
        (global : Global) (entries : List (Result (MalformedEntry js) A))
        → collect js global entries ≡ (oks entries, first_error js global (errs entries))
    unfolding collect
    collect-first_error global entries = collect_from-oks global [] [] entries

    -- `collect` keeps the entries that parsed, in their order. It reports no error if there are no others, and
    -- otherwise how many there are, and the first of them.
    pub collect-oks :
        (global : Global) (entries : List (Result (MalformedEntry js) A))
        → ((collect js global entries).0 ≡ oks entries)
          × Reported global (errs entries) (collect js global entries).1
    collect-oks global entries =
        let kept = collect-first_error global entries in
        (
          ap (λ q. q.0) kept,
          subst (Reported global (errs entries)) (sym (ap (λ q. q.1) kept))
              (first_error-Reported global (errs entries)),
        )

  three_of-cases :
      (index : ℕ) (fields : List Value)
      → ((a : Value) × (b : Value) × (c : Value) × (rest : List Value) × (fields
            ≡ a ∷ b ∷ c ∷ rest))
        ⊎ ((m : MalformedEntry js) × (three_of js index fields ≡ err m))
  three_of-cases index [] = inr (_, refl)
  three_of-cases index (a ∷ []) = inr (_, refl)
  three_of-cases index (a ∷ b ∷ []) = inr (_, refl)
  three_of-cases index (a ∷ b ∷ c ∷ rest) = inl (a, b, c, rest, refl)

  abbrev value_or : {A : Type 0} → A → Result (MalformedEntry js) A → A
  value_or default (ok value) = value
  value_or default (err error) = default

  -- An entry of `__SERIALIZED_ERRORS` is kept exactly if it is an array that begins with two ids and a
  -- string, and these are what is kept of it.
  pub serialized_error-ok_iff :
      (index : ℕ) (entry : Value) (boundary error : ℕ) (text : Text)
      → (serialized_error js index entry ≡ ok (boundary, error, text)) ↔ (
          (a : Value) × (b : Value) × (c : Value) × (rest : List Value) × (items entry
            ≡ some (a ∷ b ∷ c ∷ rest))
          × (id js a ≡ some boundary)
          × (id js b ≡ some error)
          × (string c ≡ some text))
  unfolding serialized_error
  serialized_error-ok_iff index entry boundary error text = (to, from)
    where
      Parts : Type 0
      Parts =
          (a : Value) × (b : Value) × (c : Value) × (rest : List Value) × (items entry
            ≡ some (a ∷ b ∷ c ∷ rest))
          × (id js a ≡ some boundary)
          × (id js b ≡ some error)
          × (string c ≡ some text)

      to : serialized_error js index entry ≡ ok (boundary, error, text) → Parts
      to h = elim (Option-cases (items entry)) [
        | inl lost ↦ let no = rw lost at h in cc
        | inr (fields, is_array) ↦
            let h1 = rw is_array at h in
            elim (three_of-cases index fields) [
              | inr (m, few) ↦ let no = rw few at h1 in cc
              | inl (a, b, c, rest, split) ↦
                  let h2 = rw split at h1 in
                  elim (Option-cases (id js a)) [
                    | inl lost ↦ let no = rw lost at h2 in cc
                    | inr (b', first) ↦
                        let h3 = rw first at h2 in
                        elim (Option-cases (id js b)) [
                          | inl lost ↦ let no = rw lost at h3 in cc
                          | inr (e', second) ↦
                              let h4 = rw second at h3 in
                              elim (Option-cases (string c)) [
                                | inl lost ↦ let no = rw lost at h4 in cc
                                | inr (t', third) ↦
                                    let h5 = rw third at h4 in
                                    let same = ap (value_or (boundary, error, text)) h5 in
                                    (
                                      a,
                                      b,
                                      c,
                                      rest,
                                      is_array ∙ ap some split,
                                      first ∙ ap (λ q. some q.0) same,
                                      second ∙ ap (λ q. some q.1) same,
                                      third ∙ ap (λ q. some q.2) same,
                                    )
                              ]
                        ]
                  ]
            ]
      ]

      from : Parts → serialized_error js index entry ≡ ok (boundary, error, text)
      from (a, b, c, rest, fields, first, second, third) = rw (fields, first, second, third) refl

  -- All entries of `__INCOMPLETE_CHUNKS` are ids.
  abbrev pub AllIds : List Value → Type 0
  AllIds [] = Unit
  AllIds (entry ∷ entries) = ((n : ℕ) × (id js entry ≡ some n)) × AllIds entries

  abbrev pub ids : List Value → List ℕ
  ids [] = []
  ids (entry ∷ entries) = elim (id js entry) [ none ↦ ids entries | some n ↦ n ∷ ids entries ]

  oks-parse_each :
      (index : ℕ) (entries : List Value)
      → oks (parse_each js (incomplete_chunk js) index entries) ≡ ids entries
  unfolding parse_each incomplete_chunk
  oks-parse_each index [] = refl
  oks-parse_each index (entry ∷ entries) = elim (Option-cases (id js entry)) [
    | inl lost ↦ rw (lost, ids) (oks-parse_each (suc index) entries)
    | inr (n, found) ↦ rw (found, ids) (ap (λ q. n ∷ q) (oks-parse_each (suc index) entries))
  ]

  parse_each-AllIds :
      (index : ℕ) (entries : List Value)
      → first_error js incomplete_chunks_global
          (errs (parse_each js (incomplete_chunk js) index entries))
        ≡ none
      → AllIds entries
  unfolding parse_each incomplete_chunk
  parse_each-AllIds index [] h = tt
  parse_each-AllIds index (entry ∷ entries) h = elim (Option-cases (id js entry)) [
    | inl lost ↦ let no = rw lost at h in cc
    | inr (n, found) ↦ ((n, found), parse_each-AllIds (suc index) entries (rw found at h))
  ]

  AllIds-parse_each :
      (index : ℕ) (entries : List Value)
      → AllIds entries
      → errs (parse_each js (incomplete_chunk js) index entries) ≡ []
  unfolding parse_each incomplete_chunk
  AllIds-parse_each index [] h = refl
  AllIds-parse_each index (entry ∷ entries) ((n, found), h) =
      rw found (AllIds-parse_each (suc index) entries h)

  -- Parsing `__INCOMPLETE_CHUNKS` keeps the entries that are ids, in order, and reports no error exactly if
  -- all are.
  pub incomplete_chunks-ids :
      (entries : List Value)
      → ((incomplete_chunks js entries).0 ≡ ids entries)
        × (((incomplete_chunks js entries).1 ≡ none) ↔ AllIds entries)
  unfolding incomplete_chunks
  incomplete_chunks-ids entries =
      let parsed =
        collect-first_error incomplete_chunks_global
          (parse_each js (incomplete_chunk js) 0 entries) in
      (
        ap (λ q. q.0) parsed ∙ oks-parse_each 0 entries,
        (
          λ h. parse_each-AllIds 0 entries (sym (ap (λ q. q.1) parsed) ∙ h),
          λ h.
              ap (λ q. q.1) parsed
              ∙ ap (first_error js incomplete_chunks_global) (AllIds-parse_each 0 entries h),
        ),
      )
