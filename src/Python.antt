-- ===== src/Python.antt =====
-- Values of JSON as Python holds them, the operations on `dict` and `list` that the program uses,
-- and results that may be an exception. Numbers are integers: a plan holds no fraction.
pub mod Laws
use aads.Prelude.{
  ℕ, String, Bool, true, false, not, ◌&&◌, ◌||◌, Option, none, some, List, [], ◌∷◌, ℤ, pos, eq_ℤ,
  ltb_ℤ, str_eq, str_mem, bool_eq, ◌==◌, if◌then◌else◌, zero, suc, ltb,
}
use Prim.Native.Nat.{Ordering}
use Prim.Native.String.{compare}

-- the exceptions, by class
pub data Exception : Type 0 where
  attribute_error type_error key_error value_error index_error regex_error runtime_error : Exception

pub data Py {ℓ} (A : Type ℓ) : Type ℓ where
  ok : A → Py A
  raise : Exception → Py A

infixl 10 ◌>>=◌
abbrev pub ◌>>=◌ {ℓ κ} : {A : Type ℓ} {B : Type κ} → Py A → (A → Py B) → Py B
ok a >>= f = f a
raise e >>= f = raise e

mutual
  pub data Json : Type 0 where
    null : Json
    bool : Bool → Json
    num : ℤ → Json
    str : String → Json
    arr : Items → Json
    obj : Fields → Json

  pub data Items : Type 0 where
    nil : Items
    cons : Json → Items → Items

  pub data Fields : Type 0 where
    end : Fields
    field : String → Json → Fields → Fields

-- `d.get(k)`, `k in d`, `d[k] = v` of a `dict`, which keeps the order of insertion
unfoldable pub get : Fields → String → Option Json
get end k = none
get (field j v fs) k = if str_eq j k then some v else get fs k

unfoldable pub has : Fields → String → Bool
has end k = false
has (field j v fs) k = str_eq j k || has fs k

unfoldable pub set : Fields → String → Json → Fields
set end k w = field k w end
set (field j v fs) k w = if str_eq j k then field j w fs else field j v (set fs k w)

abbrev pub keys : Fields → List String
keys end = []
keys (field k v fs) = k ∷ keys fs

abbrev pub size : Fields → ℕ
size end = 0
size (field k v fs) = suc (size fs)

abbrev pub items : Items → List Json
items nil = []
items (cons x xs) = x ∷ items xs

-- `bool(x)`
abbrev pub truthy : Json → Bool
truthy null = false
truthy (bool b) = b
truthy (num n) = not (eq_ℤ n (pos 0))
truthy (str s) = not (str_eq s "")
truthy (arr nil) = false
truthy (arr (cons _ _)) = true
truthy (obj end) = false
truthy (obj (field _ _ _)) = true

-- `x or d`, where a missing value is `None`
abbrev pub or_else : Option Json → Json → Json
or_else none d = d
or_else (some x) d = if truthy x then x else d

-- `d.get(k, default)`
abbrev pub get_or : Option Json → Json → Json
get_or none d = d
get_or (some x) d = x

abbrev pub truthy? : Option Json → Bool
truthy? none = false
truthy? (some x) = truthy x

-- A `bool` is an `int`.
abbrev pub int_of_bool : Bool → ℤ
int_of_bool true = pos 1
int_of_bool false = pos 0

-- `a == b`: numbers and truth values compare by value, dicts without regard to order.
unfoldable mutual
  pub py_eq : Json → Json → Bool
  py_eq null b = elim b [ null ↦ true | _ ↦ false ]
  py_eq (bool x) b = elim b [ bool y ↦ bool_eq x y | num n ↦ eq_ℤ (int_of_bool x) n | _ ↦ false ]
  py_eq (num m) b = elim b [ num n ↦ eq_ℤ m n | bool y ↦ eq_ℤ m (int_of_bool y) | _ ↦ false ]
  py_eq (str s) b = elim b [ str t ↦ str_eq s t | _ ↦ false ]
  py_eq (arr xs) b = elim b [ arr ys ↦ items_eq xs ys | _ ↦ false ]
  py_eq (obj fs) b = elim b [ obj gs ↦ size fs == size gs && fields_eq fs gs | _ ↦ false ]

  pub items_eq : Items → Items → Bool
  items_eq nil ys = elim ys [ nil ↦ true | cons _ _ ↦ false ]
  items_eq (cons x xs) ys = elim ys [ nil ↦ false | cons y ys' ↦ py_eq x y && items_eq xs ys' ]

  pub fields_eq : Fields → Fields → Bool
  fields_eq end gs = true
  fields_eq (field k v fs) gs = elim (get gs k) [
    | none ↦ false
    | some w ↦ py_eq v w && fields_eq fs gs
  ]

abbrev pub is_str : Json → String → Bool
is_str (str s) t = str_eq s t
is_str _ t = false

-- `x.get` and `x[k]` on a value that may be no dict
abbrev pub as_dict : Json → Py Fields
as_dict (obj fs) = ok fs
as_dict _ = raise attribute_error

unfoldable pub item : Fields → String → Py Json
item fs k = elim (get fs k) [ none ↦ raise key_error | some v ↦ ok v ]

abbrev pub isinstance_dict : Json → Bool
isinstance_dict (obj _) = true
isinstance_dict _ = false

-- `x in s` for a set of texts: the value is hashed
abbrev pub in_set : Json → List String → Py Bool
in_set (str s) names = ok (str_mem s names)
in_set (arr _) names = raise type_error
in_set (obj _) names = raise type_error
in_set _ names = ok false
