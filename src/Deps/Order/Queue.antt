-- ===== src/Deps/Order/Queue.antt =====
-- The queue of `topological_sort` as a collection: sorting, inserting and taking from its end move
-- no other element, and it starts with the services that have no dependency.
use kepler.Prelude.{
  ℕ, zero, suc, ◌+◌, ◌≤◌, ◌≡◌, refl, String, false, Option, none, some, List, [], ◌∷◌, arith, ◌==◌,
  string_eq, eqb, Option-cases, inl, inr,
}
use kepler.Prelude.Maps.{Map, keys, lookup, insert, adjust}
use kepler.Deps.Order.{sort, insert_sorted, insert_at, pop, no_dependencies}
use kepler.Deps.Order.Counting.{count, one_if}

count-insert_sorted :
    (a x : String) (l : List String) → count a (insert_sorted x l) ≡ one_if (x == a) + count a l
unfolding insert_sorted count
count-insert_sorted a x [] = refl
count-insert_sorted a x (y ∷ l) = ground (arith, count-insert_sorted a x l)

pub count-sort : (a : String) (l : List String) → count a (sort l) ≡ count a l
unfolding sort count
count-sort a [] = refl
count-sort a (x ∷ l) = omega (arith, count-sort a l, count-insert_sorted a x (sort l))

pub count-insert_at :
    (a x : String) (i : ℕ) (l : List String)
    → count a (insert_at i x l) ≡ one_if (x == a) + count a l
unfolding insert_at count
count-insert_at a x zero l = refl
count-insert_at a x (suc i) [] = refl
count-insert_at a x (suc i) (y ∷ l) = omega (arith, count-insert_at a x i l)

pub count-pop :
    (a : String) (l r : List String) (x : String)
    → pop l ≡ some (r, x)
    → count a l ≡ one_if (x == a) + count a r
unfolding pop count
count-pop a [] r x h = cc
count-pop a (y ∷ []) r x h = ground arith
count-pop a (y ∷ z ∷ l) r x h = elim (Option-cases (pop (z ∷ l))) [
  | inl e ↦ ground arith
  | inr ((r', x'), e) ↦ ground (arith, count-pop a (z ∷ l) r' x')
]

pub pop-none : (l : List String) → pop l ≡ none → l ≡ []
unfolding pop
pop-none [] h = refl
pop-none (y ∷ []) h = cc
pop-none (y ∷ z ∷ l) h = ground (arith, pop-none (z ∷ l))

count-keys-insert_ne :
    (a k : String) (v : ℕ) (m : Map String ℕ)
    → (k == a) ≡ false
    → count a (keys (insert k v m)) ≡ count a (keys m)
unfolding insert count
count-keys-insert_ne a k v [] h = rw h
count-keys-insert_ne a k v ((j, w) ∷ m) h = ground (arith, count-keys-insert_ne a k v m)

pub keys-insert_nodup :
    (k : String) (v : ℕ) (m : Map String ℕ) (a : String)
    → count a (keys m) ≤ 1
    → count a (keys (insert k v m)) ≤ 1
unfolding insert count
keys-insert_nodup k v [] a h = ground arith
keys-insert_nodup k v ((j, w) ∷ m) a h = ground (
  arith,
  keys-insert_nodup k v m a,
  count-keys-insert_ne a k v m,
  string_eq.beq_iff j a,
  string_eq.beq_iff k a,
  string_eq.beq_iff j k,
)

pub keys-adjust : (f : ℕ → ℕ) (k : String) (m : Map String ℕ) → keys (adjust f k m) ≡ keys m
unfolding adjust
keys-adjust f k [] = refl
keys-adjust f k ((j, w) ∷ m) = ground (arith, keys-adjust f k m)

count-no_dependencies-le :
    (a : String) (m : Map String ℕ) → count a (no_dependencies m) ≤ count a (keys m)
unfolding no_dependencies count
count-no_dependencies-le a [] = omega arith
count-no_dependencies-le a ((j, d) ∷ m) = ground (arith, count-no_dependencies-le a m)

abbrev pub is_some_zero : Option ℕ → ℕ
is_some_zero none = 0
is_some_zero (some d) = one_if (eqb d 0)

pub count-no_dependencies :
    (a : String) (m : Map String ℕ)
    → count a (keys m) ≤ 1
    → count a (no_dependencies m) ≡ is_some_zero (lookup a m)
unfolding no_dependencies count lookup
count-no_dependencies a [] h = refl
count-no_dependencies a ((j, d) ∷ m) h =
    ground (arith, count-no_dependencies a m, count-no_dependencies-le a m)
