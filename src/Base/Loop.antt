-- ===== src/Base/Loop.antt =====
-- Loops that need not end. A step returns a result, or goes round again; `none` as the result of
-- a loop means that it has not returned within the fuel, which counts the rounds.
use Prim.Native.Nat.{ℕ, zero, suc, ◌<◌}
use mathlib.Core.Path.{◌≡◌, ◌∙◌, refl}
use mathlib.Core.Option.{Option, none, some}
use native.Mathlib.Omega.{arith}
use kafka_file_writer.Base.Exec.{Result}

abbrev pub Step {ℓ} : Type ℓ → Type ℓ → Type ℓ
Step S R = S → Option R × S

-- Code that may go on for ever.
abbrev pub Run {ℓ} : Type ℓ → Type ℓ → Type ℓ → Type ℓ
Run S E A = S → Option (Result E A × S)

module _ {ℓ} {S R : Type ℓ} where
  abbrev pub after_step : (S → Option (R × S)) → Option R × S → Option (R × S)
  after_step go (none, s) = go s
  after_step go (some r, s) = some (r, s)

module _ {ℓ} {S R : Type ℓ} (step : Step S R) where
  unfoldable pub loop : ℕ → S → Option (R × S)
  loop zero s = none
  loop (suc fuel) s = let go = loop fuel in after_step go (step s)

  -- `n` rounds that do not return lead from a state to `t`.
  pub data Rounds (t : S) : ℕ → S → Type ℓ where
    start : Rounds t zero t
    again : {n : ℕ} {s u : S} → step s ≡ (none, u) → Rounds t n u → Rounds t (suc n) s

  pub loop-return :
      (fuel : ℕ) (s t : S) (r : R) → step s ≡ (some r, t) → loop (suc fuel) s ≡ some (r, t)
  unfolding loop
  loop-return fuel s t r h = rw (h, loop)

  pub loop-again : (fuel : ℕ) (s t : S) → step s ≡ (none, t) → loop (suc fuel) s ≡ loop fuel t
  unfolding loop
  loop-again fuel s t h = rw (h, loop)

  -- Enough fuel: a round that returns after `n` rounds that do not is the loop's result.
  pub loop_complete :
      (fuel : ℕ) {n : ℕ} {s t : S} (u : S) (r : R)
      → Rounds t n s
      → step t ≡ (some r, u)
      → n < fuel
      → loop fuel s ≡ some (r, u)
  loop_complete zero u r rounds h lt = elim lt [ ]
  loop_complete (suc fuel) u r start h lt = loop-return fuel _ u r h
  loop_complete (suc fuel) u r (again {u = v} e rounds) h lt =
      loop-again fuel _ v e ∙ loop_complete fuel u r rounds h (omega arith)

  -- What a round returned at the end of some rounds.
  abbrev pub Returned : S → S → R → Type ℓ
  Returned s u r = (n : ℕ) × (t : S) × Rounds t n s × (step t ≡ (some r, u))

  loop_sound_after :
      (go : S → Option (R × S)) (s u : S) (r : R) (x : Option R × S)
      → ((t : S) → go t ≡ some (r, u) → Returned t u r)
      → step s ≡ x
      → after_step go x ≡ some (r, u)
      → Returned s u r
  loop_sound_after go s u r (none, t) ih e h =
      let (n, v, rounds, last) = ih t h in (suc n, v, again e rounds, last)
  loop_sound_after go s u r (some q, t) ih e h = (0, s, start, e ∙ cc)

  pub loop_sound : (fuel : ℕ) (s u : S) (r : R) → loop fuel s ≡ some (r, u) → Returned s u r
  unfolding loop
  loop_sound zero s u r h = absurd (cc)
  loop_sound (suc fuel) s u r h =
      loop_sound_after (loop fuel) s u r (step s) (λ t k. loop_sound fuel t u r k) refl h

  -- A property that every round keeps holds where the loop returns.
  pub rounds_keep :
      (P : S → Type ℓ)
      → ((s t : S) → P s → step s ≡ (none, t) → P t)
      → (t : S) {n : ℕ} {s : S} → Rounds t n s
      → P s
      → P t
  rounds_keep P keep t start h = h
  rounds_keep P keep t (again {s = s} {u = u} e rounds) h =
      rounds_keep P keep t rounds (keep s u h e)
