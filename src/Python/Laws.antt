-- ===== src/Python/Laws.antt =====
-- Inversion of computations that succeeded.
use aads.Prelude.{
  String, ◌≡◌, refl, Bool, true, false, Option, none, some, inl, inr, str_eq, str_eq_refl,
  Bool-cases, if◌then◌else◌,
}
use aads.Python.{Py, ok, raise, ◌>>=◌, Json, obj, Fields, end, field, get, set, or_else}

-- An expression that returned: its first part returned a value, from which the rest returned.
pub >>=-returns {ℓ κ} :
    {V : Type ℓ} {W : Type κ} (first : Py V) (rest : V → Py W) {result : W}
    → first >>= rest ≡ ok result
    → (value : V) × (first ≡ ok value) × (rest value ≡ ok result)
>>=-returns (raise exception) rest returned = cc
>>=-returns (ok value) rest returned = (value, refl, returned)

-- A test that fails a check was not passed by a check that found nothing.
pub if-none :
    (test : Bool) (reason : String) (rest : Py (Option String))
    → (if test then ok (some reason) else rest) ≡ ok none
    → (test ≡ false) × (rest ≡ ok none)
if-none true reason rest h = cc
if-none false reason rest h = (refl, h)

-- `d[k] = v` and then `d.get(k)`
pub get-set : (fs : Fields) (k : String) (v : Json) → get (set fs k v) k ≡ some v
unfolding get set
get-set end k v = rw (str_eq_refl k) refl
get-set (field j w fs) k v = elim (Bool-cases (str_eq j k)) [
  | inl t ↦ rw (t, t) refl
  | inr f ↦ rw (f, f) (get-set fs k v)
]

-- `d or {}` of a dict
pub or_else-obj : (fs : Fields) → or_else (some (obj fs)) (obj end) ≡ obj fs
or_else-obj end = refl
or_else-obj (field k v fs) = refl
