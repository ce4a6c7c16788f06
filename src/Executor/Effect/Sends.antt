-- ===== src/Executor/Effect/Sends.antt =====
-- Actions that send one request only, and how often.
use native.Mathlib.Nat.{add-zero, add-suc}
use mathlib.Core.Path.{subst}
use aads.Prelude.{ℕ, zero, suc, ◌+◌, ◌*◌, ◌≤◌, String, ◌≡◌, refl, ap, ◌∙◌, List, ◌∷◌, arith}
use aads.Python.{Py, ok, raise}
use aads.Store.{Db}
use aads.Executor.Effect.{Env, World, M, ◌>>=◌, pure, lift, change, Call, audit}

-- `n` requests `call` on top of `calls`
abbrev pub repeat : ℕ → Call → List Call → List Call
repeat zero call calls = calls
repeat (suc n) call calls = call ∷ repeat n call calls

repeat-add :
    (m n : ℕ) (call : Call) (calls : List Call)
    → repeat m call (repeat n call calls) ≡ repeat (n + m) call calls
repeat-add zero n call calls = rw add-zero
repeat-add (suc m) n call calls =
    rw add-suc (ap (λ (l : List Call). call ∷ l) (repeat-add m n call calls))

-- From one world to the next, at most `n` requests have been sent, all of them are `call`, and no
-- more time has passed than they took.
pub record Sent (env : Env) (call : Call) (n : ℕ) (u v : World) : Type 0 where
  pub count : ℕ
  pub at_most : count ≤ n
  pub calls : v.calls ≡ repeat count call u.calls
  pub elapsed :
      (limit : ℕ)
      → ((i : ℕ) (c : Call) → env.seconds i c + env.writes i ≤ limit)
      → v.now ≤ u.now + count * limit

pub record Sends {A : Type 0} (env : Env) (call : Call) (n : ℕ) (m : M A) : Type 0 where
  pub at : (w : World) → Sent env call n w (m w).1

module _ (env : Env) (call : Call) where
  pub Sent-none : (n : ℕ) (u v : World) → v.calls ≡ u.calls → v.now ≡ u.now → Sent env call n u v
  Sent-none n u v e t = record {
    count = 0;
    at_most = omega arith;
    calls = e;
    elapsed = λ limit h. omega arith;
  }

  Sent-trans :
      (m n : ℕ) (u v w : World)
      → Sent env call m u v
      → Sent env call n v w
      → Sent env call (m + n) u w
  Sent-trans m n u v w a b = record {
    count = a.count + b.count;
    at_most = omega arith;
    calls = b.calls ∙ ap (repeat b.count call) a.calls ∙ repeat-add b.count a.count call u.calls;
    elapsed = λ limit h. omega (arith, a.elapsed limit h, b.elapsed limit h);
  }

  pub Sends-pure : {A : Type 0} (n : ℕ) (a : A) → Sends env call n (pure a)
  unfolding pure
  Sends-pure n a = record { at = λ w. Sent-none n w w refl refl }

  pub Sends-lift : {A : Type 0} (n : ℕ) (r : Py A) → Sends env call n (lift r)
  unfolding lift
  Sends-lift n r = record { at = λ w. Sent-none n w w refl refl }

  pub Sends-change : (n : ℕ) (f : Db → Db) → Sends env call n (change f)
  unfolding change
  Sends-change n f = record { at = λ w. Sent-none n w _ refl refl }

  continue-Sends :
      {A B : Type 0} (n : ℕ) (r : Py A) (w : World) (f : A → M B)
      → ((a : A) → Sends env call n (f a))
      → Sent env call n w (((λ (v : World). (r, v)) >>= f) w).1
  unfolding ◌>>=◌
  continue-Sends n (ok a) w f h = (h a).at w
  continue-Sends n (raise e) w f h = Sent-none n w w refl refl

  pub Sends-bind :
      {A B : Type 0} (m n : ℕ) (x : M A) (f : A → M B)
      → Sends env call m x
      → ((a : A) → Sends env call n (f a))
      → Sends env call (m + n) (x >>= f)
  unfolding ◌>>=◌
  Sends-bind m n x f hx hf = record {
    at = λ w. let (r, w') = x w in Sent-trans m n w w' _ (hx.at w) (continue-Sends n r w' f hf);
  }

  -- A part that sends nothing may stand in front.
  pub Sends-after :
      {A B : Type 0} (n : ℕ) (x : M A) (f : A → M B)
      → Sends env call 0 x
      → ((a : A) → Sends env call n (f a))
      → Sends env call n (x >>= f)
  Sends-after n x f hx hf =
      subst (λ k. Sends env call k (x >>= f)) (omega arith) (Sends-bind 0 n x f hx hf)

  -- The rest may use that a computation returned.
  pub Sends-lift_bind :
      {A B : Type 0} (n : ℕ) (r : Py A) (f : A → M B)
      → ((a : A) → r ≡ ok a → Sends env call n (f a))
      → Sends env call n (lift r >>= f)
  unfolding ◌>>=◌ lift
  Sends-lift_bind n (ok a) f h = record { at = λ w. (h a refl).at w }
  Sends-lift_bind n (raise e) f h = record { at = λ w. Sent-none n w w refl refl }

  pub Sends-le : {A : Type 0} {m n : ℕ} (x : M A) → m ≤ n → Sends env call m x → Sends env call n x
  Sends-le x h s = record {
    at = λ w.
        let t = s.at w in
        record { count = t.count; at_most = omega arith; calls = t.calls; elapsed = t.elapsed };
  }

  pub Sends-audit : (n : ℕ) (e p d r : String) → Sends env call n (audit e p d r)
  unfolding audit
  Sends-audit n e p d r = Sends-change n _
