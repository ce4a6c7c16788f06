-- ===== src/Prelude/Sorting.antt =====
-- `sorted` with a key: a stable sort by insertion, which keeps the elements.
use mathlib.Core.Path.{◌≡◌}
use mathlib.Core.Bool.{Bool}
use mathlib.Core.List.{List, [], ◌∷◌}
use mathlib.Core.Logic.{inl, inr, ◌⊎◌}
use aads.Prelude.Tests.{Bool-cases, if◌then◌else◌}
use aads.Prelude.Lists.{In, here, there}

module _ {ℓ} {A : Type ℓ} (lt : A → A → Bool) where
  unfoldable pub insert_by : A → List A → List A
  insert_by x [] = x ∷ []
  insert_by x (y ∷ ys) = let rest = insert_by x ys in if lt y x then y ∷ rest else x ∷ y ∷ ys

  unfoldable pub sorted_by : List A → List A
  sorted_by [] = []
  sorted_by (x ∷ xs) = insert_by x (sorted_by xs)

  insert_new : (x y : A) (ys : List A) → x ≡ y → In x (insert_by y ys)
  unfolding insert_by
  insert_new x y [] e = here e
  insert_new x y (z ∷ ys) e = elim (Bool-cases (lt z y)) [
    | inl t ↦ rw (t) (there (insert_new x y ys e))
    | inr f ↦ rw (f) (here e)
  ]

  insert_old : (x y : A) (ys : List A) → In x ys → In x (insert_by y ys)
  unfolding insert_by
  insert_old x y [] m = there m
  insert_old x y (z ∷ ys) (here e) = elim (Bool-cases (lt z y)) [
    | inl t ↦ rw (t) (here e)
    | inr f ↦ rw (f) (there (here e))
  ]
  insert_old x y (z ∷ ys) (there m) = elim (Bool-cases (lt z y)) [
    | inl t ↦ rw (t) (there (insert_old x y ys m))
    | inr f ↦ rw (f) (there (there m))
  ]

  pub In-sorted_by : (x : A) (xs : List A) → In x xs → In x (sorted_by xs)
  unfolding sorted_by
  In-sorted_by x [] m = m
  In-sorted_by x (y ∷ ys) (here e) = insert_new x y (sorted_by ys) e
  In-sorted_by x (y ∷ ys) (there m) = insert_old x y (sorted_by ys) (In-sorted_by x ys m)

  under :
      (x y z : A) (ys zs : List A)
      → (In x zs → (x ≡ y) ⊎ In x ys)
      → In x (z ∷ zs)
      → (x ≡ y) ⊎ In x (z ∷ ys)
  under x y z ys zs f (here e) = inr (here e)
  under x y z ys zs f (there m) = elim (f m) [ inl e ↦ inl e | inr n ↦ inr (there n) ]

  split_first : (x y : A) (ys : List A) → In x (y ∷ ys) → (x ≡ y) ⊎ In x ys
  split_first x y ys (here e) = inl e
  split_first x y ys (there m) = inr m

  insert_from : (x y : A) (ys : List A) → In x (insert_by y ys) → (x ≡ y) ⊎ In x ys
  unfolding insert_by
  insert_from x y [] m = split_first x y [] m
  insert_from x y (z ∷ ys) m = elim (Bool-cases (lt z y)) [
    | inl t ↦ under x y z ys (insert_by y ys) (λ n. insert_from x y ys n) (rw (t, insert_by) at m)
    | inr f ↦ split_first x y (z ∷ ys) (rw (f, insert_by) at m)
  ]

  pub sorted_by-In : (x : A) (xs : List A) → In x (sorted_by xs) → In x xs
  unfolding sorted_by
  sorted_by-In x [] m = m
  sorted_by-In x (y ∷ ys) m = elim (insert_from x y (sorted_by ys) m) [
    | inl e ↦ here e
    | inr n ↦ there (sorted_by-In x ys n)
  ]
