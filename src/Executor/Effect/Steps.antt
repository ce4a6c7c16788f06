-- ===== src/Executor/Effect/Steps.antt =====
-- Relations between the world before and after an action, one rule for each way to build it.
use aads.Prelude.{◌≡◌, refl, Bool, true, false, if◌then◌else◌}
use aads.Python.{Py, ok, raise}
use aads.Executor.Effect.{World, M, ◌>>=◌, pure, lift, gets}

-- A relation that an action may not leave, reflexive and transitive.
pub record Frame (R : World → World → Type 0) : Type 0 where
  pub same : (w : World) → R w w
  pub then' : (u v w : World) → R u v → R v w → R u w

pub record Stays {A : Type 0} (R : World → World → Type 0) (m : M A) : Type 0 where
  pub at : (w : World) → R w (m w).1

module _ {R : World → World → Type 0} (frame : Frame R) where
  pub Stays-pure : {A : Type 0} (a : A) → Stays R (pure a)
  unfolding pure
  Stays-pure a = record { at = λ w. frame.same w }

  pub Stays-lift : {A : Type 0} (r : Py A) → Stays R (lift r)
  unfolding lift
  Stays-lift r = record { at = λ w. frame.same w }

  pub Stays-gets : {A : Type 0} (f : World → A) → Stays R (gets f)
  unfolding gets
  Stays-gets f = record { at = λ w. frame.same w }

  pub Stays-if :
      {A : Type 0} (b : Bool) (m n : M A)
      → (b ≡ true → Stays R m)
      → (b ≡ false → Stays R n)
      → Stays R (if b then m else n)
  Stays-if true m n hm hn = hm refl
  Stays-if false m n hm hn = hn refl

  continue-Stays :
      {A B : Type 0} (r : Py A) (w : World) (f : A → M B)
      → ((a : A) → Stays R (f a))
      → R w (((λ (v : World). (r, v)) >>= f) w).1
  unfolding ◌>>=◌
  continue-Stays (ok a) w f h = (h a).at w
  continue-Stays (raise e) w f h = frame.same w

  pub Stays-bind :
      {A B : Type 0} (m : M A) (f : A → M B)
      → Stays R m
      → ((a : A) → Stays R (f a))
      → Stays R (m >>= f)
  unfolding ◌>>=◌
  Stays-bind m f hm hf = record {
    at = λ w. let (r, w') = m w in frame.then' w w' _ (hm.at w) (continue-Stays r w' f hf);
  }
