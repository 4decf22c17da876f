-- ===== src/KeyedList/Diff/Planned/Keys.antt =====
-- The keys of two lists: where a key of one stands in the other.
use halyard.Prelude.{
  ℕ, ◌<◌, ◌≡◌, ◌≢◌, refl, sym, ap, ◌∙◌, true, false, Bool-cases, inl, inr, Option, none, some,
  Option-cases, ltb, arith,
}
use halyard.KeyedList.{KeySets}
use halyard.KeyedList.Diff.{same_key, new_index_of}
use halyard.KeyedList.Diff.Planned.{leaves, arrives, goes, same_key-key}

module _ (sets : KeySets) (usize_max : ℕ) where
  open sets use {
    Key, key_eq_iff, KeySet, len, get_index, get_index_of, contains, get_index-lt, get_index-none,
    get_index_of_iff, contains_iff,
  }

  -- The index in `b` of the key at `i` in `a`.
  abbrev pub kept : KeySet → KeySet → ℕ → Option ℕ
  kept a b i = new_index_of sets usize_max b (get_index a i)

  pub kept-key :
      (a b : KeySet) (i j : ℕ)
      → kept a b i ≡ some j
      → (key : Key) × (get_index a i ≡ some key) × (get_index b j ≡ some key)
  kept-key a b i j h = elim (Option-cases (get_index a i)) [
    | inl e ↦ let lost : none ≡ some j = rw e at h in absurd cc
    | inr (key, e) ↦
        let there : get_index_of b key ≡ some j = rw e at h in
        (key, e, (get_index_of_iff b key j).0 there)
  ]

  pub kept_back : (a b : KeySet) (i j : ℕ) → kept a b i ≡ some j → kept b a j ≡ some i
  kept_back a b i j h =
      let (key, here, there) = kept-key a b i j h in
      let back = (get_index_of_iff a key i).1 here in rw there back

  pub kept-lt : (a b : KeySet) (i j : ℕ) → kept a b i ≡ some j → (i < len a) × (j < len b)
  kept-lt a b i j h =
      let (key, here, there) = kept-key a b i j h in (inside a i key here, inside b j key there)
    where
      inside : (s : KeySet) (i : ℕ) (key : Key) → get_index s i ≡ some key → i < len s
      inside s i key e = elim (Bool-cases (ltb i (len s))) [
        | inl lt ↦ ground arith
        | inr past ↦ let off : get_index s i ≡ none = get_index-none s i (ground arith) in absurd cc
      ]

  module _ (from to : KeySet) where
    pub kept_here :
        (i : ℕ)
        → kept from to i ≡ some i
        → same_key sets usize_max (get_index from i) (get_index to i) ≡ true
    kept_here i h =
        let (key, here, there) = kept-key from to i i h in
        let alike = (key_eq_iff key key).1 refl in rw (here, there) alike

    pub kept_same :
        (i j : ℕ)
        → same_key sets usize_max (get_index from i) (get_index to i) ≡ true
        → kept from to i ≡ some j
        → i ≡ j
    kept_same i j h e =
        let both = same_key-key sets usize_max from to (get_index from i) (get_index to i) h in
        let (key, here, there) = kept-key from to i j e in
        let first : get_index_of to key ≡ some i =
          (get_index_of_iff to key i).1 (sym both ∙ here) in
        let second : get_index_of to key ≡ some j = (get_index_of_iff to key j).1 there in cc

    -- A key that is kept moves exactly when its index changes.
    pub goes-kept :
        (i j : ℕ) → goes sets usize_max from to i ≡ some j → (kept from to i ≡ some j) × (i ≢ j)
    goes-kept i j h =
        elim (Bool-cases (same_key sets usize_max (get_index from i) (get_index to i))) [
          | inl alike ↦ let lost : none ≡ some j = rw alike at h in absurd cc
          | inr differ ↦
              let there : kept from to i ≡ some j = rw differ at h in
              (there, λ eq. let alike = kept_here i (there ∙ ap some (sym eq)) in cc)
        ]

    pub kept-goes :
        (i j : ℕ) → kept from to i ≡ some j → i ≢ j → goes sets usize_max from to i ≡ some j
    kept-goes i j h off =
        elim (Bool-cases (same_key sets usize_max (get_index from i) (get_index to i))) [
          | inl alike ↦ absurd (off (kept_same i j alike h))
          | inr differ ↦ rw differ h
        ]

    pub kept_here-goes : (i : ℕ) → kept from to i ≡ some i → goes sets usize_max from to i ≡ none
    kept_here-goes i h = let alike = kept_here i h in rw alike refl

    pub leaves-kept : (i j : ℕ) → kept from to i ≡ some j → leaves sets usize_max from to i ≡ false
    leaves-kept i j h = let (key, here, there) = kept-key from to i j h in rw (h, here) refl

    pub lost-leaves :
        (i : ℕ) → i < len from → kept from to i ≡ none → leaves sets usize_max from to i ≡ true
    lost-leaves i lt h = let (key, here) = get_index-lt from i lt in rw (h, here) refl

    pub arrives-kept :
        (i j : ℕ) → kept to from j ≡ some i → arrives sets usize_max from to j ≡ false
    arrives-kept i j h =
        let (key, here, there) = kept-key to from j i h in
        let at : get_index_of from key ≡ some i = (get_index_of_iff from key i).1 there in
        let found : contains from key ≡ true = elim (Bool-cases (contains from key)) [
          | inl e ↦ e
          | inr e ↦ let off = (contains_iff from key).0 e in absurd cc
        ] in
        rw (here, found) refl

    pub arrives-lost :
        (j : ℕ) → j < len to → kept to from j ≡ none → arrives sets usize_max from to j ≡ true
    arrives-lost j lt h =
        let (key, here) = get_index-lt to j lt in
        let off : get_index_of from key ≡ none = rw here at h in
        let not_found = (contains_iff from key).1 off in rw (here, not_found) refl
