-- ===== src/Prelude/Values.antt =====
-- The values of a dict whose values hold their keys, in the order of insertion. `same v w` compares
-- the keys.
use mathlib.Core.Path.{◌≡◌, refl}
use mathlib.Core.Bool.{Bool, true, false, ◌||◌}
use mathlib.Core.List.{List, [], ◌∷◌, ◌++◌}
use mathlib.Core.Option.{Option, none, some}
use mathlib.Core.Logic.{inl, inr, ◌⊎◌}
use native.Mathlib.Omega.{arith}
use aads.Prelude.Tests.{Bool-cases, if◌then◌else◌}
use aads.Prelude.Lists.{In, here, there, any}

or_false : (a b : Bool) → (a || b) ≡ false → (a ≡ false) × (b ≡ false)
or_false a b h = ground arith

module _ {ℓ} {A : Type ℓ} (same : A → A → Bool) where
  -- `d.get(key of v)`
  unfoldable pub find_same : A → List A → Option A
  find_same v [] = none
  find_same v (w ∷ ws) = let rest = find_same v ws in if same v w then some w else rest

  replace_same : A → List A → List A
  replace_same v [] = []
  replace_same v (w ∷ ws) = (if same v w then v else w) ∷ replace_same v ws

  -- `d[key of v] = v`: an entry with the key is replaced in place, a new one stands last
  unfoldable pub put_same : A → List A → List A
  unfolding replace_same
  put_same v ws = if any (same v) ws then replace_same v ws else ws ++ v ∷ []

  pub find_same-In : (v w : A) (ws : List A) → find_same v ws ≡ some w → In w ws × (same v w ≡ true)
  unfolding find_same
  find_same-In v w [] h = cc
  find_same-In v w (u ∷ ws) h = elim (Bool-cases (same v u)) [
    | inl t ↦ let e : u ≡ w = cc (rw (t, find_same) at h) in (here (cc (e)), rw (← e) t)
    | inr f ↦ let (m, e) = find_same-In v w ws (rw (f, find_same) at h) in (there m, e)
  ]

  pub In-find_same :
      (v w : A) (ws : List A) → In w ws → same v w ≡ true → (u : A) × (find_same v ws ≡ some u)
  unfolding find_same
  In-find_same v w [] m h = elim m [ ]
  In-find_same v w (u ∷ ws) (here e) h = (w, rw (← e, h) refl)
  In-find_same v w (u ∷ ws) (there m) h = elim (Bool-cases (same v u)) [
    | inl t ↦ (u, rw (t) refl)
    | inr f ↦ let (x, e) = In-find_same v w ws m h in (x, rw (f) e)
  ]

  In-replaced : (v : A) (ws : List A) → any (same v) ws ≡ true → In v (replace_same v ws)
  unfolding replace_same
  In-replaced v [] h = cc
  In-replaced v (w ∷ ws) h = elim (Bool-cases (same v w)) [
    | inl t ↦ rw (t) (here refl)
    | inr f ↦ there (In-replaced v ws (rw (f, ◌||◌) at h))
  ]

  In-last : (v : A) (ws : List A) → In v (ws ++ v ∷ [])
  In-last v [] = here refl
  In-last v (w ∷ ws) = there (In-last v ws)

  In-front : (v w : A) (ws : List A) → In w ws → In w (ws ++ v ∷ [])
  In-front v w [] m = elim m [ ]
  In-front v w (u ∷ ws) (here e) = here e
  In-front v w (u ∷ ws) (there m) = there (In-front v w ws m)

  pub In-put_new : (v : A) (ws : List A) → In v (put_same v ws)
  unfolding put_same
  In-put_new v ws = elim (Bool-cases (any (same v) ws)) [
    | inl t ↦ rw (t) (In-replaced v ws t)
    | inr f ↦ rw (f) (In-last v ws)
  ]

  In-replaced_other :
      (v w : A) (ws : List A) → In w ws → same v w ≡ false → In w (replace_same v ws)
  unfolding replace_same
  In-replaced_other v w [] m h = elim m [ ]
  In-replaced_other v w (u ∷ ws) (here e) h = rw (← e) (rw (h, if◌then◌else◌) (here refl))
  In-replaced_other v w (u ∷ ws) (there m) h = there (In-replaced_other v w ws m h)

  pub In-put_other : (v w : A) (ws : List A) → In w ws → same v w ≡ false → In w (put_same v ws)
  unfolding put_same
  In-put_other v w ws m h = elim (Bool-cases (any (same v) ws)) [
    | inl t ↦ rw (t) (In-replaced_other v w ws m h)
    | inr f ↦ rw (f) (In-front v w ws m)
  ]

  -- An entry of the dict after an assignment is the new value, or an old one with another key.
  abbrev pub After : A → A → List A → Type ℓ
  After v w ws = (w ≡ v) ⊎ (In w ws × (same v w ≡ false))

  After-later : (v w u : A) (ws : List A) → After v w ws → After v w (u ∷ ws)
  After-later v w u ws (inl e) = inl e
  After-later v w u ws (inr (m, f)) = inr (there m, f)

  replaced-After : (v w : A) (ws : List A) → In w (replace_same v ws) → After v w ws
  unfolding replace_same
  replaced-After v w [] m = elim m [ ]
  replaced-After v w (u ∷ ws) (here e) = elim (Bool-cases (same v u)) [
    | inl t ↦ inl (rw (t) at e)
    | inr f ↦ let e' : w ≡ u = rw (f) at e in inr (here e', rw (e') f)
  ]
  replaced-After v w (u ∷ ws) (there m) = After-later v w u ws (replaced-After v w ws m)

  appended-After :
      (v w : A) (ws : List A) → any (same v) ws ≡ false → In w (ws ++ v ∷ []) → After v w ws
  appended-After v w [] h (here e) = inl e
  appended-After v w [] h (there m) = elim m [ ]
  appended-After v w (u ∷ ws) h (here e) =
      let off = (or_false (same v u) (any (same v) ws) h).0 in inr (here e, rw (e) off)
  appended-After v w (u ∷ ws) h (there m) =
      After-later v w u ws (appended-After v w ws (or_false (same v u) (any (same v) ws) h).1 m)

  pub put_same-After : (v w : A) (ws : List A) → In w (put_same v ws) → After v w ws
  unfolding put_same
  put_same-After v w ws m = elim (Bool-cases (any (same v) ws)) [
    | inl t ↦ replaced-After v w ws (rw (t, put_same) at m)
    | inr f ↦ appended-After v w ws f (rw (f, put_same) at m)
  ]
