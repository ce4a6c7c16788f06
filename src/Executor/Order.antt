-- ===== src/Executor/Order.antt =====
-- The test of the step orders in `validate_plan`: `sorted`, and the size of a `set`. Values of
-- unlike types cannot be compared, and lists and dicts cannot be put into a set.
pub mod Increasing
pub mod Ascending
use aads.Prelude.{
  String, Bool, true, false, not, ◌&&◌, List, [], ◌∷◌, ltb_ℤ, any, str_lt, if◌then◌else◌,
}
use aads.Python.{
  Py, ok, raise, type_error, ◌>>=◌, Json, null, bool, num, str, arr, obj, Items, nil, cons,
  int_of_bool, py_eq,
}

-- `a < b`
mutual
  pub py_lt : Json → Json → Py Bool
  py_lt null b = raise type_error
  py_lt (bool x) b = elim b [
    | bool y ↦ ok (ltb_ℤ (int_of_bool x) (int_of_bool y))
    | num n ↦ ok (ltb_ℤ (int_of_bool x) n)
    | _ ↦ raise type_error
  ]
  py_lt (num m) b = elim b [
    | num n ↦ ok (ltb_ℤ m n)
    | bool y ↦ ok (ltb_ℤ m (int_of_bool y))
    | _ ↦ raise type_error
  ]
  py_lt (str s) b = elim b [ str t ↦ ok (str_lt s t) | _ ↦ raise type_error ]
  py_lt (arr xs) b = elim b [ arr ys ↦ items_lt xs ys | _ ↦ raise type_error ]
  py_lt (obj fs) b = raise type_error

  pub items_lt : Items → Items → Py Bool
  items_lt nil ys = elim ys [ nil ↦ ok false | cons _ _ ↦ ok true ]
  items_lt (cons x xs) ys = elim ys [
    | nil ↦ ok false
    | cons y ys' ↦
        let below = items_lt xs ys' in let here = py_lt x y in if py_eq x y then below else here
  ]

-- `sorted(xs)`: stable, and it raises where two elements cannot be compared
pub insert : Json → List Json → Py (List Json)
insert x [] = ok (x ∷ [])
insert x (y ∷ ys) =
    let rest = insert x ys in
    do less ← py_lt y x; if less then (do zs ← rest; ok (y ∷ zs)) else ok (x ∷ y ∷ ys)

pub sorted : List Json → Py (List Json)
unfolding insert
sorted [] = ok []
sorted (x ∷ xs) = do ys ← sorted xs; insert x ys

-- `len(set(xs)) == len(xs)`: no two elements are equal, once all are hashable
abbrev pub hashable : Json → Bool
hashable (arr _) = false
hashable (obj _) = false
hashable _ = true

pub unique : List Json → Bool
unique [] = true
unique (x ∷ xs) = not (any (py_eq x) xs) && unique xs

pub all_hashable : List Json → Bool
all_hashable [] = true
all_hashable (x ∷ xs) = hashable x && all_hashable xs

pub json_list_eq : List Json → List Json → Bool
json_list_eq [] [] = true
json_list_eq [] (_ ∷ _) = false
json_list_eq (_ ∷ _) [] = false
json_list_eq (x ∷ xs) (y ∷ ys) = py_eq x y && json_list_eq xs ys

-- whether `orders != sorted(orders) or len(set(orders)) != len(orders)`
unfoldable pub misordered : List Json → Py Bool
unfolding sorted unique all_hashable json_list_eq
misordered orders = do
  ranked ← sorted orders
  if not (json_list_eq orders ranked)
      then ok true
      else if not (all_hashable orders)
      then raise type_error
      else ok (not (unique orders))
