-- ===== src/Prelude/TextLaws.antt =====
-- The text tests decide equality and membership.
use Prim.Native.String.{String}
use mathlib.Core.Path.{◌≡◌, refl, ap₂}
use mathlib.Core.Logic.{◌↔◌}
use mathlib.Core.Bool.{true}
use mathlib.Core.List.{List, [], ◌∷◌, ◌++◌}
use native.Mathlib.Omega.{arith}
use text.Mathlib.Text.{◌==◌ as str_eq}
use text.Mathlib.TextEquality.{eq_iff}
use aads.Prelude.Tests.{&&-true, &&-intro}
use aads.Prelude.Lists.{length, take}
use aads.Prelude.Text.{strs_eq}

pub strs_eq_sound : (xs ys : List String) → strs_eq xs ys ≡ true → xs ≡ ys
strs_eq_sound [] [] h = refl
strs_eq_sound [] (y ∷ ys) h = ground arith
strs_eq_sound (x ∷ xs) [] h = ground arith
strs_eq_sound (x ∷ xs) (y ∷ ys) h =
    let (same, rest) = &&-true (str_eq x y) (strs_eq xs ys) h in
    ap₂ (λ (z : String) (zs : List String). z ∷ zs) ((eq_iff x y).0 same) (strs_eq_sound xs ys rest)

pub strs_eq_refl : (xs : List String) → strs_eq xs xs ≡ true
strs_eq_refl [] = refl
strs_eq_refl (x ∷ xs) =
    &&-intro (str_eq x x) (strs_eq xs xs) ((eq_iff x x).1 refl) (strs_eq_refl xs)

pub strs_eq_iff : (xs ys : List String) → (strs_eq xs ys ≡ true) ↔ (xs ≡ ys)
strs_eq_iff xs ys = (strs_eq_sound xs ys, λ e. rw (← e) (strs_eq_refl xs))

pub take-length_eq :
    (p xs : List String)
    → strs_eq (take (length p) xs) p ≡ true
    → (ys : List String) × (xs ≡ p ++ ys)
take-length_eq [] xs h = (xs, refl)
take-length_eq (a ∷ p) [] h = ground arith
take-length_eq (a ∷ p) (x ∷ xs) h =
    let (same, rest) = &&-true (str_eq x a) (strs_eq (take (length p) xs) p) h in
    let (ys, e) = take-length_eq p xs rest in
    (ys, ap₂ (λ (z : String) (zs : List String). z ∷ zs) ((eq_iff x a).0 same) e)
