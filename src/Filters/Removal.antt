-- ===== src/Filters/Removal.antt =====
-- layer1-filter/src/pipeline.py: `remove_filter` and `get_filter`.
use aads.Prelude.{
  ℕ, suc, ◌≤◌, String, Bool, true, false, Option, none, some, List, [], ◌∷◌, length, ltb, str_eq,
  str_eq_iff, ◌≡◌, ◌≢◌, refl, ◌∙◌, arith, inl, inr, Bool-cases,
}
use aads.Filters.{Filter, FilterPipeline, without, remove_filter, find_filter, get_filter}

differs : (a b c : String) → str_eq c b ≡ false → str_eq a b ≡ true → str_eq a c ≡ false
differs a b c h t = elim (Bool-cases (str_eq a c)) [
  | inl same ↦ cc (h, t, (str_eq_iff a c).0 same)
  | inr f ↦ f
]

abbrev pub is_found {ℓ} : {A : Type ℓ} → Option A → Bool
is_found none = false
is_found (some _) = true

less : (m n : ℕ) → m ≤ n → ltb m (suc n) ≡ true
less m n h = ground arith

shorter : (m n : ℕ) → ltb (suc m) (suc n) ≡ ltb m n
shorter m n = ground arith

module _ {L S : Type 0} (name : String) where
  find-without : (fs : List (Filter L S)) → find_filter name (without name fs) ≡ none
  unfolding find_filter without
  find-without [] = refl
  find-without (f ∷ fs) = elim (Bool-cases (str_eq f.filter_name name)) [
    | inl t ↦ rw (t) (find-without fs)
    | inr g ↦ rw (g) (rw (g, find_filter) (find-without fs))
  ]

  find-without_other :
      (other : String) (fs : List (Filter L S))
      → str_eq other name ≡ false
      → find_filter other (without name fs) ≡ find_filter other fs
  unfolding find_filter without
  find-without_other other [] h = refl
  find-without_other other (f ∷ fs) h = elim (Bool-cases (str_eq f.filter_name name)) [
    | inl t ↦ rw (t, differs f.filter_name name other h t) (find-without_other other fs h)
    | inr g ↦ rw (g, find-without_other other fs h) refl
  ]

  length-without_le : (fs : List (Filter L S)) → length (without name fs) ≤ length fs
  unfolding without
  length-without_le [] = omega arith
  length-without_le (f ∷ fs) = elim (Bool-cases (str_eq f.filter_name name)) [
    | inl t ↦ rw (t) (omega (arith, length-without_le fs))
    | inr g ↦ rw (g) (omega (arith, length-without_le fs))
  ]

  answer_lem :
      (fs : List (Filter L S))
      → ltb (length (without name fs)) (length fs) ≡ is_found (find_filter name fs)
  unfolding find_filter without
  answer_lem [] = refl
  answer_lem (f ∷ fs) = elim (Bool-cases (str_eq f.filter_name name)) [
    | inl t ↦ rw (t) (less (length (without name fs)) (length fs) (length-without_le fs))
    | inr g ↦ rw (g) (shorter (length (without name fs)) (length fs) ∙ answer_lem fs)
  ]

-- Removing a filter answers whether one of that name was there; afterwards none is found under the
-- name, what is found under another name is unchanged, and the statistics are kept.
pub remove_filter-get_filter :
    (L S : Type 0) (name other : String) (p : FilterPipeline L S)
    → other ≢ name
    → ((remove_filter name p).1 ≡ is_found (get_filter name p))
      × ((get_filter name (remove_filter name p).0 ≡ none)
          × ((get_filter other (remove_filter name p).0 ≡ get_filter other p)
              × ((remove_filter name p).0.stats ≡ p.stats)))
unfolding remove_filter get_filter
remove_filter-get_filter L S name other p differ = (
  answer_lem name p.filters,
  (
    find-without name p.filters,
    (find-without_other name other p.filters (ground (arith, str_eq_iff other name)), refl),
  ),
)
