-- ===== src/Executor/Effect/Chain.antt =====
-- What an action that returned has done: its first part returned, and then its rest.
use aads.Prelude.{◌≡◌, refl, ap}
use aads.Python.{Py, ok, raise}
use aads.Executor.Effect.{World, M, continue, ◌>>=◌, lift}

-- The first of two actions returned, and then the second did.
pub record Chain {A B : Type 0} (m : M A) (f : A → M B) (w : World) (b : B) (w' : World)
    : Type 0 where
  pub value : A
  pub between : World
  pub first : m w ≡ (ok value, between)
  pub second : f value between ≡ (ok b, w')

chain :
    {A B : Type 0} (m : M A) (f : A → M B) (w : World) (b : B) (w' : World) (r : Py A) (v : World)
    → m w ≡ (r, v)
    → continue r f v ≡ (ok b, w')
    → Chain m f w b w'
chain m f w b w' (ok a) v e k = record { value = a; between = v; first = e; second = k }
chain m f w b w' (raise x) v e k = cc (ap (λ p. p.0) k)

pub bind-Chain :
    {A B : Type 0} (m : M A) (f : A → M B) (w : World) (b : B) (w' : World)
    → (m >>= f) w ≡ (ok b, w')
    → Chain m f w b w'
unfolding ◌>>=◌
bind-Chain m f w b w' h = chain m f w b w' (m w).0 (m w).1 refl h

pub lift-Chain :
    {A B : Type 0} (r : Py A) (f : A → M B) (w : World) (b : B) (w' : World)
    → (lift r >>= f) w ≡ (ok b, w')
    → (a : A) × ((r ≡ ok a) × (f a w ≡ (ok b, w')))
unfolding ◌>>=◌ lift
lift-Chain (ok a) f w b w' h = (a, (refl, h))
lift-Chain (raise e) f w b w' h = cc (ap (λ p. p.0) h)
