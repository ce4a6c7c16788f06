-- ===== src/Executor/Order/Ascending.antt =====
-- What the test of the step orders in `validate_plan` of layer4-executor/src/executor.py accepts.
use mathlib.Core.Path.{subst}
use aads.Prelude.{
  ◌≡◌, refl, sym, ◌∙◌, ap, arith, Bool, true, false, not, ◌||◌, ℤ, List, [], ◌∷◌, any, ltb_ℤ, eq_ℤ,
  &&-true, str_lt-total, str_lt-same, if◌then◌else◌,
}
use aads.Python.{
  Py, ok, raise, ◌>>=◌, type_error, Json, null, bool, num, str, arr, obj, int_of_bool, py_eq,
}
use aads.Python.Laws.{>>=-returns}
use aads.Executor.Order.{
  py_lt, insert, sorted, hashable, unique, all_hashable, json_list_eq, misordered,
}

abbrev pub Before : Json → List Json → Type 0
Before x [] = Unit {0}
Before x (y ∷ ys) = py_lt x y ≡ ok true

-- Each element is less than the next one, as Python compares them.
abbrev pub Ascending : List Json → Type 0
Ascending [] = Unit {0}
Ascending (x ∷ xs) = Before x xs × Ascending xs

differs : (m n : ℤ) → ltb_ℤ n m ≡ true → eq_ℤ m n ≡ true → ⊥
differs m n l e = ground arith

total : (m n : ℤ) → eq_ℤ m n ≡ false → ltb_ℤ n m ≡ false → ltb_ℤ m n ≡ true
total m n e l = ground arith

ok_bool : {a b : Bool} → ok a ≡ ok b → a ≡ b
ok_bool h = cc

-- An element that can be hashed does not equal a lesser one.
less-differs : (x y : Json) → hashable x ≡ true → py_lt y x ≡ ok true → py_eq x y ≡ true → ⊥
unfolding py_lt py_eq
less-differs null null h l e = cc
less-differs (bool true) (bool true) h l e = cc
less-differs (bool true) (bool false) h l e = cc
less-differs (bool false) (bool true) h l e = cc
less-differs (bool false) (bool false) h l e = cc
less-differs (bool a) (num b) h l e = differs (int_of_bool a) b (ok_bool l) e
less-differs (num a) (bool b) h l e = differs a (int_of_bool b) (ok_bool l) e
less-differs (num a) (num b) h l e = differs a b (ok_bool l) e
less-differs (str a) (str b) h l e = cc (ok_bool l, str_lt-same a b e)
less-differs (arr a) y h l e = cc
less-differs (obj a) y h l e = cc
less-differs _ _ h l e = cc

-- Of two elements that differ and can be compared, one is less.
less-total :
    (x y : Json)
    → hashable x ≡ true
    → py_eq x y ≡ false
    → py_lt y x ≡ ok false
    → py_lt x y ≡ ok true
unfolding py_lt py_eq
less-total (bool true) (bool true) h e l = cc
less-total (bool true) (bool false) h e l = cc
less-total (bool false) (bool true) h e l = refl
less-total (bool false) (bool false) h e l = cc
less-total (bool a) (num b) h e l = ap ok (total (int_of_bool a) b e (ok_bool l))
less-total (num a) (bool b) h e l = ap ok (total a (int_of_bool b) e (ok_bool l))
less-total (num a) (num b) h e l = ap ok (total a b e (ok_bool l))
less-total (str a) (str b) h e l = ap ok (str_lt-total a b e (ok_bool l))
less-total null null h e l = cc
less-total null (bool b) h e l = cc
less-total null (num b) h e l = cc
less-total null (str b) h e l = cc
less-total null (arr b) h e l = cc
less-total null (obj b) h e l = cc
less-total (arr a) y h e l = cc
less-total (obj a) y h e l = cc
less-total _ _ h e l = cc

-- No element is less than the one in front of it.
abbrev NotAfter : Json → List Json → Type 0
NotAfter x [] = Unit {0}
NotAfter x (y ∷ ys) = py_lt y x ≡ ok false

abbrev Settled : List Json → Type 0
Settled [] = Unit {0}
Settled (x ∷ xs) = NotAfter x xs × Settled xs

-- What is inserted in front stays there, if the result equals the list that it came from.
insert-front :
    (x : Json) (xs ys r : List Json)
    → hashable x ≡ true
    → insert x ys ≡ ok r
    → json_list_eq (x ∷ xs) r ≡ true
    → (json_list_eq xs ys ≡ true) × ((r ≡ x ∷ ys) × NotAfter x ys)
unfolding insert json_list_eq
insert-front x xs [] r h e same =
    let front : x ∷ [] ≡ r = cc (e) in
    let both = rw (← front) at same in
    ((&&-true (py_eq x x) (json_list_eq xs []) both).1, (sym front, tt))
insert-front x xs (y ∷ ys) r h e same =
    let (less, decided, rest) = >>=-returns (py_lt y x) _ e in by_less less decided rest
  where
    by_less :
        (b : Bool)
        → py_lt y x ≡ ok b
        → (if b then (do zs ← insert x ys; ok (y ∷ zs)) else ok (x ∷ y ∷ ys)) ≡ ok r
        → (json_list_eq xs (y ∷ ys) ≡ true) × ((r ≡ x ∷ y ∷ ys) × NotAfter x (y ∷ ys))
    by_less true decided rest =
        let (zs, _, last) = >>=-returns (insert x ys) _ rest in
        let front : y ∷ zs ≡ r = cc (last) in
        let both = rw (← front) at same in
        elim (less-differs x y h decided (&&-true (py_eq x y) (json_list_eq xs zs) both).0) [ ]
    by_less false decided rest =
        let front : x ∷ y ∷ ys ≡ r = cc (rest) in
        let both = rw (← front) at same in
        ((&&-true (py_eq x x) (json_list_eq xs (y ∷ ys)) both).1, (sym front, decided))

-- A list that equals the sorted one is sorted.
sorted-Settled :
    (xs r : List Json)
    → sorted xs ≡ ok r
    → json_list_eq xs r ≡ true
    → all_hashable xs ≡ true
    → (r ≡ xs) × Settled xs
unfolding sorted all_hashable
sorted-Settled [] r e same h = (cc (e), tt)
sorted-Settled (x ∷ xs) r e same h =
    let (hx, hxs) = &&-true (hashable x) (all_hashable xs) h in
    let (ys, ranked, inserted) = >>=-returns (sorted xs) _ e in
    let (equal, (front, before)) = insert-front x xs ys r hx inserted same in
    let (stays, settled) = sorted-Settled xs ys ranked equal hxs in
    (front ∙ ap (λ (l : List Json). x ∷ l) stays, (subst (NotAfter x) stays before, settled))

Settled-Ascending :
    (xs : List Json) → Settled xs → all_hashable xs ≡ true → unique xs ≡ true → Ascending xs
unfolding unique all_hashable
Settled-Ascending [] s h u = tt
Settled-Ascending (x ∷ []) s h u = (tt, tt)
Settled-Ascending (x ∷ y ∷ ys) s h u =
    let (hx, hxs) = &&-true (hashable x) (all_hashable (y ∷ ys)) h in
    let (alone, others) = &&-true (not (any (py_eq x) (y ∷ ys))) (unique (y ∷ ys)) u in
    (
      less-total x y hx (not_first (py_eq x y) (any (py_eq x) ys) alone) s.0,
      Settled-Ascending (y ∷ ys) s.1 hxs others,
    )
  where
    not_first : (a b : Bool) → not (a || b) ≡ true → a ≡ false
    not_first a b n = ground arith

-- Orders that pass the test of the executor ascend.
pub misordered-Ascending : (orders : List Json) → misordered orders ≡ ok false → Ascending orders
unfolding misordered
misordered-Ascending orders e =
    let (ranked, s, tests) = >>=-returns (sorted orders) _ e in
    let (equal, rest) = if_ok (json_list_eq orders ranked) _ tests in
    let (h, last) = if_raised (all_hashable orders) _ rest in
    Settled-Ascending orders (sorted-Settled orders ranked s equal h).1 h
      (distinct (unique orders) last)
  where
    if_ok :
        (b : Bool) (m : Py Bool)
        → (if not b then ok true else m) ≡ ok false
        → (b ≡ true) × (m ≡ ok false)
    if_ok true m k = (refl, k)
    if_ok false m k = cc

    if_raised :
        (b : Bool) (m : Py Bool)
        → (if not b then raise type_error else m) ≡ ok false
        → (b ≡ true) × (m ≡ ok false)
    if_raised true m k = (refl, k)
    if_raised false m k = cc

    distinct : (b : Bool) → ok (not b) ≡ ok false → b ≡ true
    distinct true k = refl
    distinct false k = cc
