-- ===== src/Deps/Order/Counting.antt =====
-- How often names stand in lists: the facts on sets and lengths that the sort of deps.rs rests on.
use kepler.Prelude.{
  ℕ, suc, ◌+◌, ◌≤◌, ◌<◌, ◌≡◌, ◌↔◌, refl, String, Bool, true, false, List, [], ◌∷◌, ◌++◌, arith,
  length, contains, ◌==◌, string_eq, beq_refl,
}

abbrev pub one_if : Bool → ℕ
one_if true = 1
one_if false = 0

unfoldable pub count : String → List String → ℕ
count a [] = 0
count a (x ∷ xs) = one_if (x == a) + count a xs

-- How many elements of the second list stand in the first, with repetitions.
unfoldable pub hits : List String → List String → ℕ
hits r [] = 0
hits r (y ∷ l) = count y r + hits r l

pub count-append : (a : String) (xs ys : List String) → count a (xs ++ ys) ≡ count a xs + count a ys
unfolding count
count-append a [] ys = omega arith
count-append a (x ∷ xs) ys = omega (arith, count-append a xs ys)

pub contains_iff : (xs : List String) (a : String) → (contains xs a ≡ true) ↔ (0 < count a xs)
unfolding contains count
contains_iff [] a = ground arith
contains_iff (x ∷ xs) a = ground (arith, contains_iff xs a)

pub count_cons_self : (a : String) (l : List String) → count a (a ∷ l) ≡ suc (count a l)
unfolding count
count_cons_self a l = rw (beq_refl a) (omega arith)

pub hits_nil : (l : List String) → hits [] l ≡ 0
unfolding hits count
hits_nil [] = refl
hits_nil (y ∷ l) = omega (arith, hits_nil l)

pub hits_cons : (n : String) (r l : List String) → hits (n ∷ r) l ≡ hits r l + count n l
unfolding hits count
hits_cons n r [] = refl
hits_cons n r (y ∷ l) =
    ground (arith, hits_cons n r l, string_eq.beq_iff n y, string_eq.beq_iff y n)

pub hits-append : (r s l : List String) → hits (r ++ s) l ≡ hits r l + hits s l
unfolding hits
hits-append r s [] = refl
hits-append r s (y ∷ l) = omega (arith, hits-append r s l, count-append y r s)

pub hits_snoc : (n : String) (r l : List String) → hits (r ++ n ∷ []) l ≡ hits r l + count n l
hits_snoc n r l = omega (arith, hits-append r (n ∷ []) l, hits_cons n [] l, hits_nil l)

pub hits_swap : (r l : List String) → hits r l ≡ hits l r
unfolding hits
hits_swap r [] = rw (hits_nil r)
hits_swap r (y ∷ l) = omega (arith, hits_swap r l, hits_cons y l r)

-- No name stands twice.
abbrev pub IsNodup : List String → Type 0
IsNodup r = (a : String) → count a r ≤ 1

-- Every name of the first list stands in the second.
abbrev pub IsSubset : List String → List String → Type 0
IsSubset l r = (a : String) → 0 < count a l → 0 < count a r

pub hits-le : (r l : List String) → IsNodup r → hits r l ≤ length l
unfolding hits
hits-le r [] h = omega arith
hits-le r (y ∷ l) h = omega (arith, h y, hits-le r l h)

pub length-le-hits : (r l : List String) → IsSubset l r → length l ≤ hits r l
unfolding hits
length-le-hits r [] h = omega arith
length-le-hits r (y ∷ l) h = omega (
  arith,
  h y (omega (arith, count_cons_self y l)),
  length-le-hits r l (λ a p. h a (unfold count in omega (arith, p))),
)

-- A list of which every element is hit is a subset.
pub subset_of_hits : (r l : List String) → IsNodup r → length l ≤ hits r l → IsSubset l r
unfolding hits count
subset_of_hits r [] h e a p = absurd (omega arith)
subset_of_hits r (y ∷ l) h e a p = ground (
  arith,
  h y,
  hits-le r l h,
  string_eq.beq_iff y a,
  subset_of_hits r l h (omega (arith, h y, hits-le r l h)) a,
)

-- A list without repetitions that lies in another is no longer than it.
pub length-le_of_subset : (r l : List String) → IsNodup r → IsSubset r l → length r ≤ length l
length-le_of_subset r l h s = omega (arith, length-le-hits l r s, hits_swap r l, hits-le r l h)

-- If it is as long, it holds every element.
pub subset_of_length :
    (r l : List String) → IsNodup r → IsSubset r l → length l ≤ length r → IsSubset l r
subset_of_length r l h s e =
    subset_of_hits r l h (omega (arith, length-le-hits l r s, hits_swap r l))
