-- ===== src/Prelude/Lists.antt =====
-- Lists measured by native numbers, under the library's names, and a predicate on all elements.
use Prim.Native.Nat.{ℕ, zero, suc, ◌+◌, ◌≤◌}
use mathlib.Core.Path.{◌≡◌, refl, ap}
use mathlib.Core.Bool.{Bool, true, false, ◌&&◌, ◌||◌}
use mathlib.Core.List.{List, [], ◌∷◌, ◌++◌, map}
use mathlib.Core.Option.{Option, none, some}
use mathlib.Core.Logic.{inl, inr, ◌⊎◌}
use native.Mathlib.Omega.{arith}
use aads.Prelude.Tests.{Bool-cases, &&-true, &&-intro}

module _ {ℓ} {A : Type ℓ} where
  abbrev pub length : List A → ℕ
  length [] = 0
  length (x ∷ xs) = suc (length xs)

  abbrev pub take : ℕ → List A → List A
  take zero xs = []
  take (suc n) [] = []
  take (suc n) (x ∷ xs) = x ∷ take n xs

  abbrev pub drop : ℕ → List A → List A
  drop zero xs = xs
  drop (suc n) [] = []
  drop (suc n) (x ∷ xs) = drop n xs

  abbrev pub get_elem? : List A → ℕ → Option A
  get_elem? [] i = none
  get_elem? (x ∷ xs) zero = some x
  get_elem? (x ∷ xs) (suc i) = get_elem? xs i

  abbrev pub any : (A → Bool) → List A → Bool
  any p [] = false
  any p (x ∷ xs) = p x || any p xs

  abbrev pub all : (A → Bool) → List A → Bool
  all p [] = true
  all p (x ∷ xs) = p x && all p xs

  pub length-append : (xs ys : List A) → length (xs ++ ys) ≡ length xs + length ys
  length-append [] ys = omega arith
  length-append (x ∷ xs) ys = omega (arith, length-append xs ys)

  pub take-length_append : (xs ys : List A) → take (length xs) (xs ++ ys) ≡ xs
  take-length_append [] ys = refl
  take-length_append (x ∷ xs) ys = ap (λ (l : List A). x ∷ l) (take-length_append xs ys)

  pub length-take_le : (n : ℕ) (xs : List A) → length (take n xs) ≤ n
  length-take_le zero xs = omega arith
  length-take_le (suc n) [] = omega arith
  length-take_le (suc n) (x ∷ xs) = omega (arith, length-take_le n xs)

module _ {ℓ} {A : Type ℓ} where
  pub append_nil : (xs : List A) → xs ++ [] ≡ xs
  append_nil [] = refl
  append_nil (x ∷ xs) = ap (λ (l : List A). x ∷ l) (append_nil xs)

  pub append_assoc : (xs ys zs : List A) → (xs ++ ys) ++ zs ≡ xs ++ (ys ++ zs)
  append_assoc [] ys zs = refl
  append_assoc (x ∷ xs) ys zs = ap (λ (l : List A). x ∷ l) (append_assoc xs ys zs)

or_true : (a b : Bool) → b ≡ true → (a || b) ≡ true
or_true a b h = ground arith

-- A predicate by recursion computes to tuples, which the tactics read and build.
abbrev pub All {ℓ κ} : {E : Type ℓ} (holds : E → Type κ) (elements : List E) → Type κ
All holds [] = Unit
All holds (e ∷ es) = holds e × All holds es

-- `x` stands in the list: the index at which it does is kept.
pub data In {ℓ} {A : Type ℓ} (x : A) : List A → Type ℓ where
  here : {y : A} {xs : List A} → x ≡ y → In x (y ∷ xs)
  there : {y : A} {xs : List A} → In x xs → In x (y ∷ xs)

module _ {ℓ κ} {A : Type ℓ} (P : A → Type κ) where
  pub All-append : (front back : List A) → All P front → All P back → All P (front ++ back)
  All-append [] back f b = b
  All-append (x ∷ front) back f b = (f.0, All-append front back f.1 b)

module _ {ℓ} {A : Type ℓ} (p : A → Bool) where
  pub any-In : (xs : List A) → any p xs ≡ true → (x : A) × In x xs × (p x ≡ true)
  any-In [] h = ground arith
  any-In (x ∷ xs) h = elim (Bool-cases (p x)) [
    | inl yes' ↦ (x, here refl, yes')
    | inr not' ↦ let (y, m, e) = any-In xs (rw (not', ◌||◌) at h) in (y, there m, e)
  ]

  pub In-any : {x : A} (xs : List A) → In x xs → p x ≡ true → any p xs ≡ true
  In-any [] m h = elim m [ ]
  In-any (y ∷ ys) (here e) h = rw (← e) (rw h refl)
  In-any (y ∷ ys) (there m) h = or_true (p y) (any p ys) (In-any ys m h)

module _ {ℓ} {A : Type ℓ} where
  pub In-append_left : {x : A} (xs ys : List A) → In x xs → In x (xs ++ ys)
  In-append_left [] ys m = elim m [ ]
  In-append_left (x ∷ xs) ys (here e) = here e
  In-append_left (x ∷ xs) ys (there m) = there (In-append_left xs ys m)

  pub In-append_right : {x : A} (xs ys : List A) → In x ys → In x (xs ++ ys)
  In-append_right [] ys m = m
  In-append_right (x ∷ xs) ys m = there (In-append_right xs ys m)

  pub append-In : {x : A} (xs ys : List A) → In x (xs ++ ys) → In x xs ⊎ In x ys
  append-In [] ys m = inr m
  append-In (x ∷ xs) ys (here e) = inl (here e)
  append-In (x ∷ xs) ys (there m) = elim (append-In xs ys m) [
    | inl n ↦ inl (there n)
    | inr n ↦ inr n
  ]

  pub all-In : (p : A → Bool) (xs : List A) (x : A) → all p xs ≡ true → In x xs → p x ≡ true
  all-In p [] x h m = elim m [ ]
  all-In p (y ∷ ys) x h (here e) = rw (e) (&&-true (p y) (all p ys) h).0
  all-In p (y ∷ ys) x h (there m) = all-In p ys x (&&-true (p y) (all p ys) h).1 m

  pub In-all : (p : A → Bool) (xs : List A) → ((x : A) → In x xs → p x ≡ true) → all p xs ≡ true
  In-all p [] h = refl
  In-all p (y ∷ ys) h =
      &&-intro (p y) (all p ys) (h y (here refl)) (In-all p ys (λ x m. h x (there m)))

pub In-map {ℓ κ} :
    {A : Type ℓ} {B : Type κ} (f : A → B) {x : A} (xs : List A) → In x xs → In (f x) (map f xs)
In-map f [] m = elim m [ ]
In-map f (y ∷ ys) (here e) = here (ap f e)
In-map f (y ∷ ys) (there m) = there (In-map f ys m)

pub All-In {ℓ κ} : {A : Type ℓ} (P : A → Type κ) (xs : List A) {x : A} → All P xs → In x xs → P x
All-In P [] a m = elim m [ ]
All-In P (y ∷ ys) a (here e) = rw (e) a.0
All-In P (y ∷ ys) a (there m) = All-In P ys a.1 m
