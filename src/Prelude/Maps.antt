-- ===== src/Prelude/Maps.antt =====
-- `HashMap` as an association list. The source's iteration order is unspecified: a definition that
-- iterates does so in the order of the list, and what is proved holds for every such order.
use mathlib.Core.Path.{◌≡◌, refl}
use mathlib.Core.Bool.{Bool}
use mathlib.Core.Option.{Option, none, some}
use mathlib.Core.List.{List, [], ◌∷◌, map}
use native.Mathlib.Omega.{arith}
use kepler.Prelude.Tests.{Eq, if◌then◌else◌, is_some}

abbrev pub Map {ℓ κ} : Type ℓ → Type κ → Type (ℓ ⊔ κ)
Map K V = List (K × V)

module _ {ℓ κ} {K : Type ℓ} {V : Type κ} where
  abbrev pub keys : Map K V → List K
  keys m = map (λ e. e.0) m

  abbrev pub values : Map K V → List V
  values m = map (λ e. e.1) m

module _ {ℓ κ} {K : Type ℓ} {V : Type κ} ⦃e : Eq K⦄ where
  unfoldable pub lookup : K → Map K V → Option V
  lookup k [] = none
  lookup k ((j, v) ∷ m) = if e.beq j k then some v else lookup k m

  abbrev pub contains_key : Map K V → K → Bool
  contains_key m k = is_some (lookup k m)

  -- `insert`, and `entry(k).or_insert` followed by a write
  unfoldable pub insert : K → V → Map K V → Map K V
  insert k v [] = (k, v) ∷ []
  insert k v ((j, w) ∷ m) = if e.beq j k then (j, v) ∷ m else (j, w) ∷ insert k v m

  unfoldable pub remove : K → Map K V → Map K V
  remove k [] = []
  remove k ((j, v) ∷ m) = let rest = remove k m in if e.beq j k then rest else (j, v) ∷ rest

  -- a write through `get_mut`
  unfoldable pub adjust : (V → V) → K → Map K V → Map K V
  adjust f k [] = []
  adjust f k ((j, v) ∷ m) = if e.beq j k then (j, f v) ∷ m else (j, v) ∷ adjust f k m

  pub lookup-insert :
      (k j : K) (v : V) (m : Map K V)
      → lookup j (insert k v m) ≡ (if e.beq k j then some v else lookup j m)
  unfolding lookup insert
  lookup-insert k j v [] = refl
  lookup-insert k j v ((i, w) ∷ m) =
      ground (arith, e.beq_iff k j, e.beq_iff i k, e.beq_iff i j, lookup-insert k j v m)

  pub lookup-remove :
      (k j : K) (m : Map K V) → lookup j (remove k m) ≡ (if e.beq k j then none else lookup j m)
  unfolding lookup remove
  lookup-remove k j [] = ground arith
  lookup-remove k j ((i, w) ∷ m) =
      ground (arith, e.beq_iff k j, e.beq_iff i k, e.beq_iff i j, lookup-remove k j m)

  pub lookup-adjust :
      (f : V → V) (k j : K) (m : Map K V)
      → lookup j (adjust f k m) ≡ (
          if e.beq k j then elim (lookup j m) [ none ↦ none | some v ↦ some (f v) ] else lookup j m)
  unfolding lookup adjust
  lookup-adjust f k j [] = ground arith
  lookup-adjust f k j ((i, w) ∷ m) =
      ground (arith, e.beq_iff k j, e.beq_iff i k, e.beq_iff i j, lookup-adjust f k j m)

pub ruleset map_laws = (lookup-insert, lookup-remove, lookup-adjust)
