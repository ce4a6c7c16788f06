-- ===== src/Prelude/TextOrder.antt =====
-- The order of texts is the same read from the other side.
use Prim.Native.Nat.compare as compare_ℕ
use Prim.Native.Nat.{ℕ, zero, suc, Ordering, compare as compare_ℕ}
use Prim.Native.Char.{code}
use Prim.Native.String.compare
use Prim.Native.String.{String, [], ◌∷◌, then, compare}
use mathlib.Core.Path.{◌≡◌, refl, sym, ◌∙◌, ap}
use mathlib.Core.Bool.{Bool, true, false}
use text.Mathlib.Text.{is_eq, ◌==◌ as str_eq}
use aads.Prelude.Text.{str_lt}

abbrev flip : Ordering → Ordering
flip Ordering.lt = Ordering.gt
flip Ordering.eq = Ordering.eq
flip Ordering.gt = Ordering.lt

abbrev less : Ordering → Bool
less o = elim o [ Ordering.lt ↦ true | _ ↦ false ]

numbers-flip : (m n : ℕ) → compare_ℕ n m ≡ flip (compare_ℕ m n)
numbers-flip zero zero = compare_ℕ.zero-zero ∙ sym (ap flip compare_ℕ.zero-zero)
numbers-flip zero (suc n) = compare_ℕ.suc-zero n ∙ sym (ap flip (compare_ℕ.zero-suc n))
numbers-flip (suc m) zero = compare_ℕ.zero-suc m ∙ sym (ap flip (compare_ℕ.suc-zero m))
numbers-flip (suc m) (suc n) =
    compare_ℕ.suc-suc n m ∙ (numbers-flip m n ∙ sym (ap flip (compare_ℕ.suc-suc m n)))

then-flip : (a b : Ordering) → then (flip a) (flip b) ≡ flip (then a b)
then-flip Ordering.lt b = refl
then-flip Ordering.eq b = refl
then-flip Ordering.gt b = refl

texts-flip : (s t : String) → compare t s ≡ flip (compare s t)
texts-flip [] [] = compare.nil-nil ∙ sym (ap flip compare.nil-nil)
texts-flip [] (d ∷ t) = compare.cons-nil d t ∙ sym (ap flip (compare.nil-cons d t))
texts-flip (c ∷ s) [] = compare.nil-cons c s ∙ sym (ap flip (compare.cons-nil c s))
texts-flip (c ∷ s) (d ∷ t) =
    compare.cons-cons d c t s
    ∙ (rw (numbers-flip (code c) (code d), texts-flip s t)
          (then-flip (compare_ℕ (code c) (code d)) (compare s t))
        ∙ sym (ap flip (compare.cons-cons c d s t)))

less_if : (o : Ordering) → is_eq o ≡ false → less (flip o) ≡ false → less o ≡ true
less_if Ordering.lt e l = refl
less_if Ordering.eq e l = cc
less_if Ordering.gt e l = cc

same_not : (o : Ordering) → is_eq o ≡ true → less (flip o) ≡ false
same_not Ordering.lt e = cc
same_not Ordering.eq e = refl
same_not Ordering.gt e = cc

-- Of two texts that differ, one is less.
pub str_lt-total : (s t : String) → str_eq s t ≡ false → str_lt t s ≡ false → str_lt s t ≡ true
str_lt-total s t e l = less_if (compare s t) e (sym (ap less (texts-flip s t)) ∙ l)

-- A text is not less than one that it equals.
pub str_lt-same : (s t : String) → str_eq s t ≡ true → str_lt t s ≡ false
str_lt-same s t e = ap less (texts-flip s t) ∙ same_not (compare s t) e
