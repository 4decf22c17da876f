-- ===== src/KeyedList/Diff/Tests.antt =====
-- The plan of an update on concrete key sets.
use halyard.Prelude.{
  ok, ℕ, ◌+◌, ◌-◌, ◌≡◌, ◌≤◌, ◌<◌, ◌↔◌, refl, Option, none, some, [], ◌∷◌, false, ◌&&◌, leb, ltb,
  ◌==◌, ==_iff, if◌then◌else◌, arith,
}
use halyard.KeyedList.{KeySets}
use halyard.KeyedList.Diff.{
  Diff, normal, diff, finish, scan, scan_index, scan_changed, record_move, settle_all, settle,
  passes_a_row_that_stays,
}
use halyard.KeyedList.Diff.Planned.Plans.{IsPlanned, diff-IsPlanned}

-- A window of keys: the keys `first`, `first + 1` and so on, `size` of them.
pub record Window : Type 0 where
  pub first : ℕ
  pub size : ℕ

abbrev key_at : Window → ℕ → Option ℕ
key_at s i = if ltb i s.size then some (s.first + i) else none

abbrev index_in : Window → ℕ → Option ℕ
index_in s k = if leb s.first k && ltb k (s.first + s.size) then some (k - s.first) else none

pub index_in-key_at : (s : Window) (k i : ℕ) → (index_in s k ≡ some i) ↔ (key_at s i ≡ some k)
index_in-key_at s k i = ground arith

pub key_at-lt : (s : Window) (i : ℕ) → i < s.size → (k : ℕ) × (key_at s i ≡ some k)
key_at-lt s i h = (s.first + i, ground arith)

pub key_at-none : (s : Window) (i : ℕ) → s.size ≤ i → key_at s i ≡ none
key_at-none s i h = ground arith

pub index_in-none :
    (s : Window) (k : ℕ)
    → ((leb s.first k && ltb k (s.first + s.size)) ≡ false) ↔ (index_in s k ≡ none)
index_in-none s k = ground arith

abbrev pub windows : KeySets
windows = record {
  Key = ℕ;
  key_eq = λ a b. a == b;
  key_eq_iff = ==_iff;
  KeySet = Window;
  len = λ s. s.size;
  get_index = key_at;
  get_index_of = index_in;
  contains = λ s k. leb s.first k && ltb k (s.first + s.size);
  get_index-lt = key_at-lt;
  get_index-none = key_at-none;
  get_index_of_iff = index_in-key_at;
  contains_iff = index_in-none;
}

-- The keys 0, 1, 2 become the keys 1, 2, 3.
abbrev pub keys_before : Window
keys_before = record { first = 0; size = 3 }

abbrev pub keys_after : Window
keys_after = record { first = 1; size = 3 }

abbrev pub plan_after : Diff
plan_after = record {
  removed = 0 ∷ [];
  moved =
      record { from = 1; to = 0; move_in_dom = false }
      ∷ record { from = 2; to = 1; move_in_dom = false }
      ∷ [];
  added = record { at = 2; mode = normal } ∷ [];
  clear = false;
}

pub planned_after : diff windows 100 keys_before keys_after ≡ ok plan_after
unfolding diff finish scan scan_index scan_changed record_move settle_all settle
    passes_a_row_that_stays
planned_after = refl

diff-IsPlanned_example : IsPlanned windows 100 keys_before keys_after plan_after
diff-IsPlanned_example =
    diff-IsPlanned windows 100 keys_before keys_after plan_after planned_after
      (λ e. absurd (omega arith))
