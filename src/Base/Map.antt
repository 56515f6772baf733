-- ===== src/Base/Map.antt =====
-- `HashMap`, as an association list: its iteration order, which the program leaves open, is the
-- order in which the keys came in.
use kafka_file_writer.Base.Tests.{if◌then◌else◌}
use kafka_file_writer.Base.Equality.{Eq, ◌==◌}
use mathlib.Core.Path.{◌≡◌, refl}
use mathlib.Core.Bool.{Bool, true, false, ◌||◌, not, ◌&&◌}
use mathlib.Core.Option.{Option, none, some}
use mathlib.Core.List.{List, [], ◌∷◌}
use native.Mathlib.Omega.{arith}

abbrev pub HashMap {ℓ} : Type ℓ → Type ℓ → Type ℓ
HashMap K V = List (K × V)

abbrev pub or_default {ℓ} : {V : Type ℓ} → V → Option V → V
or_default d none = d
or_default d (some v) = v

module _ {ℓ} {K V : Type ℓ} ⦃e : Eq K⦄ where
  unfoldable pub get : K → HashMap K V → Option V
  get k [] = none
  get k ((j, v) ∷ m) = if j == k then some v else get k m

  unfoldable pub insert : K → V → HashMap K V → HashMap K V
  insert k v [] = (k, v) ∷ []
  insert k v ((j, w) ∷ m) = if j == k then (j, v) ∷ m else (j, w) ∷ insert k v m

  -- `entry(k).or_default()` with default `d`, changed in place by `f`.
  unfoldable pub entry : K → V → (V → V) → HashMap K V → HashMap K V
  entry k d f [] = (k, f d) ∷ []
  entry k d f ((j, w) ∷ m) = if j == k then (j, f w) ∷ m else (j, w) ∷ entry k d f m

  unfoldable pub keys : HashMap K V → List K
  keys [] = []
  keys ((j, v) ∷ m) = j ∷ keys m

  pub get-insert :
      (k j : K) (v : V) (m : HashMap K V)
      → get j (insert k v m) ≡ (if k == j then some v else get j m)
  unfolding get insert
  get-insert k j v [] = refl
  get-insert k j v ((i, w) ∷ m) =
      ground (arith, e.equal_iff k j, e.equal_iff i k, e.equal_iff i j, get-insert k j v m)

  pub get-entry :
      (k j : K) (d : V) (f : V → V) (m : HashMap K V)
      → get j (entry k d f m) ≡ (if k == j then some (f (or_default d (get k m))) else get j m)
  unfolding get entry
  get-entry k j d f [] = refl
  get-entry k j d f ((i, w) ∷ m) =
      ground (arith, e.equal_iff k j, e.equal_iff i k, e.equal_iff i j, get-entry k j d f m)

-- Sets of keys, as lists.
module _ {ℓ} {K : Type ℓ} ⦃e : Eq K⦄ where
  unfoldable pub contains : K → List K → Bool
  contains k [] = false
  contains k (j ∷ js) = j == k || contains k js

  -- No key stands twice.
  unfoldable pub distinct : List K → Bool
  distinct [] = true
  distinct (j ∷ js) = not (contains j js) && distinct js

module _ {ℓ} {K V : Type ℓ} ⦃e : Eq K⦄ where
  pub contains-keys-entry :
      (k j : K) (d : V) (f : V → V) (m : HashMap K V)
      → contains j (keys (entry k d f m)) ≡ (k == j || contains j (keys m))
  unfolding keys entry contains
  contains-keys-entry k j d f [] = refl
  contains-keys-entry k j d f ((i, w) ∷ m) =
      ground
        (arith, e.equal_iff k j, e.equal_iff i k, e.equal_iff i j, contains-keys-entry k j d f m)

  pub distinct-keys-entry :
      (k : K) (d : V) (f : V → V) (m : HashMap K V)
      → distinct (keys m) ≡ true
      → distinct (keys (entry k d f m)) ≡ true
  unfolding keys entry distinct contains
  distinct-keys-entry k d f [] h = refl
  distinct-keys-entry k d f ((i, w) ∷ m) h = ground (
    arith,
    e.equal_iff i k,
    e.equal_iff k i,
    contains-keys-entry k i d f m,
    distinct-keys-entry k d f m,
  )

  pub get-contains-keys : (k : K) (m : HashMap K V) → contains k (keys m) ≡ false → get k m ≡ none
  unfolding keys get contains
  get-contains-keys k [] h = refl
  get-contains-keys k ((i, w) ∷ m) h = ground (arith, get-contains-keys k m)
