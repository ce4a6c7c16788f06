-- ===== src/Schema/Orders.antt =====
-- The orders of a plan in layer2-analyzer/src/schemas/action_plan.py: sorted and without repetition.
use mathlib.Core.Path.{subst}
use aads.Prelude.{
  ◌≡◌, refl, sym, ap, inl, inr, arith, true, false, not, ◌||◌, &&-true, &&-intro, List, [], ◌∷◌, ℤ,
  pos, negsuc, ◌≤ℤ◌, ltb_ℤ, eq_ℤ, All, any, sorted_by, insert_by, Bool-cases,
}
use aads.Schema.{unique_orders, same_orders}

-- a list of which every element is at most, or below, all that follow
abbrev Ordered : List ℤ → Type 0
Ordered [] = Unit
Ordered (n ∷ ns) = All (λ m. n ≤ℤ m) ns × Ordered ns

abbrev pub Increasing : List ℤ → Type 0
Increasing [] = Unit
Increasing (n ∷ ns) = All (λ m. ltb_ℤ n m ≡ true) ns × Increasing ns

All-insert_by :
    (b x : ℤ) (ys : List ℤ)
    → b ≤ℤ x
    → All (λ m. b ≤ℤ m) ys
    → All (λ m. b ≤ℤ m) (insert_by ltb_ℤ x ys)
unfolding insert_by
All-insert_by b x [] h a = (h, tt)
All-insert_by b x (y ∷ ys) h a = elim (Bool-cases (ltb_ℤ y x)) [
  | inl t ↦ rw (t) (a.0, All-insert_by b x ys h a.1)
  | inr f ↦ rw (f) (h, a)
]

All-below : (a b : ℤ) (ys : List ℤ) → a ≤ℤ b → All (λ m. b ≤ℤ m) ys → All (λ m. a ≤ℤ m) ys
All-below a b [] h all = tt
All-below a b (y ∷ ys) h all = (omega (arith, h, all.0), All-below a b ys h all.1)

insert_by-Ordered : (x : ℤ) (ys : List ℤ) → Ordered ys → Ordered (insert_by ltb_ℤ x ys)
unfolding insert_by
insert_by-Ordered x [] o = (tt, tt)
insert_by-Ordered x (y ∷ ys) o = elim (Bool-cases (ltb_ℤ y x)) [
  | inl t ↦ rw (t) (All-insert_by y x ys (ground arith) o.0, insert_by-Ordered x ys o.1)
  | inr f ↦ let below : x ≤ℤ y = ground arith in rw (f) ((below, All-below x y ys below o.0), o)
]

sorted_by-Ordered : (xs : List ℤ) → Ordered (sorted_by ltb_ℤ xs)
unfolding sorted_by
sorted_by-Ordered [] = tt
sorted_by-Ordered (x ∷ xs) = insert_by-Ordered x (sorted_by ltb_ℤ xs) (sorted_by-Ordered xs)

eq_ℤ-eq : (m n : ℤ) → eq_ℤ m n ≡ true → m ≡ n
eq_ℤ-eq (pos m) (pos n) h = let e : m ≡ n = ground arith in ap pos e
eq_ℤ-eq (pos m) (negsuc n) h = ground arith
eq_ℤ-eq (negsuc m) (pos n) h = ground arith
eq_ℤ-eq (negsuc m) (negsuc n) h = let e : m ≡ n = ground arith in ap negsuc e

same_orders-eq : (ms ns : List ℤ) → same_orders ms ns ≡ true → ms ≡ ns
unfolding same_orders
same_orders-eq [] [] h = refl
same_orders-eq [] (n ∷ ns) h = cc
same_orders-eq (m ∷ ms) [] h = cc
same_orders-eq (m ∷ ms) (n ∷ ns) h =
    let (first, others) = &&-true (eq_ℤ m n) (same_orders ms ns) h in
    cc (eq_ℤ-eq m n first, same_orders-eq ms ns others)

strict : (n m : ℤ) → n ≤ℤ m → eq_ℤ n m ≡ false → ltb_ℤ n m ≡ true
strict n m h e = ground arith

All-strict :
    (n : ℤ) (ns : List ℤ)
    → All (λ m. n ≤ℤ m) ns
    → any (eq_ℤ n) ns ≡ false
    → All (λ m. ltb_ℤ n m ≡ true) ns
All-strict n [] a h = tt
All-strict n (m ∷ ns) a h = elim (Bool-cases (eq_ℤ n m)) [
  | inl t ↦ cc (rw (t, ◌||◌) at h)
  | inr f ↦ (strict n m a.0 f, All-strict n ns a.1 (rw (f, ◌||◌) at h))
]

Ordered-Increasing : (ns : List ℤ) → Ordered ns → unique_orders ns ≡ true → Increasing ns
unfolding unique_orders
Ordered-Increasing [] o u = tt
Ordered-Increasing (n ∷ ns) o u =
    let (fresh, others) = &&-true (not (any (eq_ℤ n) ns)) (unique_orders ns) u in
    (All-strict n ns o.0 (ground arith), Ordered-Increasing ns o.1 others)

-- The two tests of the validator accept only increasing orders.
pub orders-Increasing :
    (orders : List ℤ)
    → unique_orders orders ≡ true
    → same_orders orders (sorted_by ltb_ℤ orders) ≡ true
    → Increasing orders
orders-Increasing orders u s =
    Ordered-Increasing orders
      (rw (same_orders-eq orders (sorted_by ltb_ℤ orders) s) (sorted_by-Ordered orders)) u

insert_by-first :
    (n : ℤ) (ns : List ℤ) → All (λ m. ltb_ℤ n m ≡ true) ns → insert_by ltb_ℤ n ns ≡ n ∷ ns
unfolding insert_by
insert_by-first n [] a = refl
insert_by-first n (m ∷ ns) a = let off : ltb_ℤ m n ≡ false = ground arith in rw (off) refl

Increasing-sorted : (ns : List ℤ) → Increasing ns → sorted_by ltb_ℤ ns ≡ ns
unfolding sorted_by
Increasing-sorted [] i = refl
Increasing-sorted (n ∷ ns) i = rw (Increasing-sorted ns i.1) (insert_by-first n ns i.0)

same_orders_refl : (ns : List ℤ) → same_orders ns ns ≡ true
unfolding same_orders
same_orders_refl [] = refl
same_orders_refl (n ∷ ns) =
    &&-intro (eq_ℤ n n) (same_orders ns ns) (ground arith) (same_orders_refl ns)

fresh : (n : ℤ) (ns : List ℤ) → All (λ m. ltb_ℤ n m ≡ true) ns → any (eq_ℤ n) ns ≡ false
fresh n [] a = refl
fresh n (m ∷ ns) a = let off : eq_ℤ n m ≡ false = ground arith in rw (off) (fresh n ns a.1)

Increasing-unique : (ns : List ℤ) → Increasing ns → unique_orders ns ≡ true
unfolding unique_orders
Increasing-unique [] i = refl
Increasing-unique (n ∷ ns) i = rw (fresh n ns i.0) (Increasing-unique ns i.1)

-- Increasing orders pass both tests.
pub Increasing-orders :
    (ns : List ℤ)
    → Increasing ns
    → (unique_orders ns ≡ true) × (same_orders ns (sorted_by ltb_ℤ ns) ≡ true)
Increasing-orders ns i = (
  Increasing-unique ns i,
  subst (λ ms. same_orders ns ms ≡ true) (sym (Increasing-sorted ns i)) (same_orders_refl ns),
)
