-- ===== src/Prelude/Lists.antt =====
-- Lists measured by native numbers, with Boolean search.
use Prim.Native.Nat.{ℕ, suc, ◌+◌}
use mathlib.Core.Path.{◌≡◌, refl}
use mathlib.Core.Bool.{Bool, true, false, ◌&&◌, ◌||◌}
use mathlib.Core.List.{List, [], ◌∷◌, ◌++◌}
use native.Mathlib.Omega.{arith}
use kepler.Prelude.Tests.{Eq, if◌then◌else◌}

module _ {ℓ} {A : Type ℓ} where
  abbrev pub length : List A → ℕ
  length [] = 0
  length (x ∷ xs) = suc (length xs)

  abbrev pub is_empty : List A → Bool
  is_empty [] = true
  is_empty (x ∷ xs) = false

  unfoldable pub any : (A → Bool) → List A → Bool
  any p [] = false
  any p (x ∷ xs) = p x || any p xs

  unfoldable pub all : (A → Bool) → List A → Bool
  all p [] = true
  all p (x ∷ xs) = p x && all p xs

  -- `Vec::retain`
  unfoldable pub retain : (A → Bool) → List A → List A
  retain p [] = []
  retain p (x ∷ xs) = let rest = retain p xs in if p x then x ∷ rest else rest

  pub length-append : (xs ys : List A) → length (xs ++ ys) ≡ length xs + length ys
  length-append [] ys = omega arith
  length-append (x ∷ xs) ys = omega (arith, length-append xs ys)

-- A set of the source (`HashSet`) is a list, read through `contains`.
module _ {ℓ} {A : Type ℓ} ⦃e : Eq A⦄ where
  unfoldable pub contains : List A → A → Bool
  contains [] a = false
  contains (x ∷ xs) a = e.beq x a || contains xs a

  pub contains-append :
      (xs ys : List A) (a : A) → contains (xs ++ ys) a ≡ (contains xs a || contains ys a)
  unfolding contains
  contains-append [] ys a = refl
  contains-append (x ∷ xs) ys a = ground (arith, contains-append xs ys a)

  -- `HashSet::intersection`
  unfoldable pub intersection : List A → List A → List A
  unfolding retain
  intersection xs ys = retain (contains ys) xs

  contains-retain :
      (p : A → Bool) (xs : List A) (a : A) → contains (retain p xs) a ≡ (contains xs a && p a)
  unfolding contains retain
  contains-retain p [] a = refl
  contains-retain p (x ∷ xs) a = ground (arith, e.beq_iff x a, contains-retain p xs a)

  pub contains-intersection :
      (xs ys : List A) (a : A) → contains (intersection xs ys) a ≡ (contains xs a && contains ys a)
  unfolding intersection
  contains-intersection xs ys a = contains-retain (contains ys) xs a
