-- ===== src/Executor/Order/Increasing.antt =====
-- `validate_plan` of layer4-executor/src/executor.py on orders that are increasing integers.
use aads.Prelude.{◌≡◌, refl, arith, true, false, List, [], ◌∷◌, ℤ, ltb_ℤ, eq_ℤ, All, any}
use aads.Python.{ok, Json, num, py_eq}
use aads.Schema.Orders.{Increasing}
use aads.Executor.Order.{py_lt, insert, sorted, unique, all_hashable, json_list_eq, misordered}

abbrev pub numbers : List ℤ → List Json
numbers [] = []
numbers (n ∷ ns) = num n ∷ numbers ns

ltb_flip : (m n : ℤ) → ltb_ℤ m n ≡ true → ltb_ℤ n m ≡ false
ltb_flip m n h = ground arith

eq_self : (n : ℤ) → eq_ℤ n n ≡ true
eq_self n = ground arith

ltb_differs : (m n : ℤ) → ltb_ℤ m n ≡ true → eq_ℤ m n ≡ false
ltb_differs m n h = ground arith

insert-first :
    (n : ℤ) (ns : List ℤ)
    → All (λ m. ltb_ℤ n m ≡ true) ns
    → insert (num n) (numbers ns) ≡ ok (num n ∷ numbers ns)
unfolding insert py_lt
insert-first n [] a = refl
insert-first n (m ∷ ns) a = rw (ltb_flip n m a.0) refl

sorted-Increasing : (ns : List ℤ) → Increasing ns → sorted (numbers ns) ≡ ok (numbers ns)
unfolding sorted
sorted-Increasing [] i = refl
sorted-Increasing (n ∷ ns) i = rw (sorted-Increasing ns i.1) (insert-first n ns i.0)

absent :
    (n : ℤ) (ns : List ℤ)
    → All (λ m. ltb_ℤ n m ≡ true) ns
    → any (py_eq (num n)) (numbers ns) ≡ false
unfolding py_eq
absent n [] a = refl
absent n (m ∷ ns) a = rw (ltb_differs n m a.0) (absent n ns a.1)

unique-Increasing : (ns : List ℤ) → Increasing ns → unique (numbers ns) ≡ true
unfolding unique
unique-Increasing [] i = refl
unique-Increasing (n ∷ ns) i = rw (absent n ns i.0) (unique-Increasing ns i.1)

all_hashable-numbers : (ns : List ℤ) → all_hashable (numbers ns) ≡ true
unfolding all_hashable
all_hashable-numbers [] = refl
all_hashable-numbers (n ∷ ns) = all_hashable-numbers ns

json_list_eq-numbers : (ns : List ℤ) → json_list_eq (numbers ns) (numbers ns) ≡ true
unfolding json_list_eq py_eq
json_list_eq-numbers [] = refl
json_list_eq-numbers (n ∷ ns) = rw (eq_self n) (json_list_eq-numbers ns)

-- Increasing orders pass the test of the executor.
pub misordered-Increasing : (ns : List ℤ) → Increasing ns → misordered (numbers ns) ≡ ok false
unfolding misordered
misordered-Increasing ns i =
    rw
      (
        sorted-Increasing ns i,
        json_list_eq-numbers ns,
        all_hashable-numbers ns,
        unique-Increasing ns i,
      )
      refl
