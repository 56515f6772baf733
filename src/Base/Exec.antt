-- ===== src/Base/Exec.antt =====
-- Fallible code: `Result`, and code that also changes a state. What was changed before an error
-- stays changed, so the state comes back beside the error too.

use mathlib.Core.Path.{◌≡◌, refl}

pub data Result {ℓ} (E A : Type ℓ) : Type ℓ where
  ok : A → Result E A
  err : E → Result E A

module _ {ℓ} {E F A : Type ℓ} where
  abbrev pub map_err : (E → F) → Result E A → Result F A
  map_err f (ok a) = ok a
  map_err f (err e) = err (f e)

abbrev pub Exec {ℓ} : Type ℓ → Type ℓ → Type ℓ → Type ℓ
Exec S E A = S → Result E A × S

module _ {ℓ} {S E A : Type ℓ} where
  abbrev pub pure : A → Exec S E A
  pure a s = (ok a, s)

  abbrev pub raise : E → Exec S E A
  raise e s = (err e, s)

  -- A fallible computation that does not touch the state.
  abbrev pub lift : Result E A → Exec S E A
  lift r s = (r, s)

module _ {ℓ} {S E F A : Type ℓ} where
  abbrev pub map_err_result : (E → F) → Result E A × S → Result F A × S
  map_err_result f (ok a, s) = (ok a, s)
  map_err_result f (err e, s) = (err (f e), s)

  -- `m.map_err(f)`
  abbrev pub with_context : (E → F) → Exec S E A → Exec S F A
  with_context f m s = map_err_result f (m s)

module _ {ℓ} {S E A B : Type ℓ} where
  -- `?` after a step that has run.
  abbrev pub continue : Result E A × S → (A → Exec S E B) → Result E B × S
  continue (ok a, s) f = f a s
  continue (err e, s) f = (err e, s)

  infixl 5 ◌>>=◌ ◌>>◌
  abbrev pub ◌>>=◌ : Exec S E A → (A → Exec S E B) → Exec S E B
  ◌>>=◌ m f s = continue (m s) f

  abbrev pub ◌>>◌ : Exec S E A → Exec S E B → Exec S E B
  ◌>>◌ m n s = continue (m s) (λ _. n)

module _ {ℓ} {S T E A : Type ℓ} where
  abbrev pub on_first_result : T → Result E A × S → Result E A × (S × T)
  on_first_result t (r, s) = (r, (s, t))

  abbrev pub on_second_result : T → Result E A × S → Result E A × (T × S)
  on_second_result t (r, s) = (r, (t, s))

  -- A step on one half of a state.
  abbrev pub on_first : Exec S E A → Exec (S × T) E A
  on_first m (s, t) = on_first_result t (m s)

  abbrev pub on_second : Exec S E A → Exec (T × S) E A
  on_second m (t, s) = on_second_result t (m s)

module _ {ℓ} {S E A B : Type ℓ} where
  -- A property of the state that two steps keep, their sequence keeps, also where the first fails.
  pub continue-keeps :
      (P : S → Type ℓ) (x : Result E A × S) (k : A → Exec S E B)
      → P x.1
      → ((a : A) (s : S) → P s → P (k a s).1)
      → P (continue x k).1
  continue-keeps P (ok a, s) k h keep = keep a s h
  continue-keeps P (err e, s) k h keep = h

module _ {ℓ} {S E A B : Type ℓ} where
  -- Inversion of a sequence that succeeds.
  pub continue-eq-ok :
      (x : Result E A × S) (k : A → Exec S E B) (b : B) (s' : S)
      → continue x k ≡ (ok b, s')
      → (a : A) × (s : S) × (x ≡ (ok a, s)) × (k a s ≡ (ok b, s'))
  continue-eq-ok (ok a, s) k b s' h = (a, s, refl, h)
  continue-eq-ok (err e, s) k b s' h = absurd (cc)

module _ {ℓ} {S E F A : Type ℓ} where
  pub map_err_result-eq-ok :
      (f : E → F) (x : Result E A × S) (a : A) (s' : S)
      → map_err_result f x ≡ (ok a, s')
      → x ≡ (ok a, s')
  map_err_result-eq-ok f (ok b, s) a s' h = cc
  map_err_result-eq-ok f (err e, s) a s' h = absurd (cc)
