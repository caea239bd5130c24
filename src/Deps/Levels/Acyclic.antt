-- ===== src/Deps/Levels/Acyclic.antt =====
-- Acyclic services have levels (`get_start_levels` of kepler-daemon/src/deps.rs): the stack of the
-- recursion holds each service once, so that its fuel is enough.
use kepler.Prelude.{
  ℕ, zero, suc, ◌+◌, ◌<◌, ◌≡◌, refl, ap, ◌∙◌, String, true, false, none, some, List, [], ◌∷◌,
  contains, string_eq, ◌==◌, length, Bool-cases, Option-cases, inl, inr, arith,
}
use kepler.Prelude.Maps.{keys, values, lookup}
use kepler.Prelude.Result.{ok}
use kepler.Deps.{Services, RawServiceConfig, names}
use kepler.Deps.Order.{find_missing}
use kepler.Deps.Order.Counting.{
  count, count-append, IsNodup, IsSubset, contains_iff, length-le_of_subset,
}
use kepler.Deps.Order.Edges.{deps_of, find_missing-none}
use kepler.Deps.Order.Sorted.{length-keys}
use kepler.Deps.Levels.{
  Levels, Visit, max, level_deps, store_level, level_of, compute_level, compute_levels, grouped,
  group, sort_all, empty_levels, highest_level, get_start_levels,
}
use kepler.Deps.Levels.Laws.{compute_level_known, compute_level_fresh}

pub lookup_deps :
    (services : Services) (x d : String) (raw : RawServiceConfig)
    → lookup x services ≡ some raw
    → contains (names raw.depends_on) d ≡ true
    → 0 < count d (deps_of x services)
unfolding lookup deps_of
lookup_deps [] x d raw h c = cc
lookup_deps ((name, r) ∷ services) x d raw h c = elim (Bool-cases (name == x)) [
  | inl same ↦
      let eq : r ≡ raw = ground (arith, same, h) in
      let listed : contains (names r.depends_on) d ≡ true = rw eq c in
      rw same (
        omega (
          arith,
          count-append d (names r.depends_on) (deps_of x services),
          (contains_iff (names r.depends_on) d).0 listed,
        ))
  | inr other ↦
      let rest : lookup x services ≡ some raw = ground (arith, other, h) in
      rw other (lookup_deps services x d raw rest c)
]

pub lookup_key :
    (services : Services) (x : String)
    → contains (keys services) x ≡ true
    → (raw : RawServiceConfig) × (lookup x services ≡ some raw)
unfolding lookup contains
lookup_key [] x h = cc
lookup_key ((name, r) ∷ services) x h = elim (Bool-cases (name == x)) [
  | inl same ↦ (r, rw same refl)
  | inr other ↦ rw other (lookup_key services x (rw other at h))
]

-- A loop or a service whose visits all succeed.
level_deps_total :
    (visit : Visit) (deps : List String) (highest : ℕ) (m : Levels)
    → ((d : String) (a : Levels) → contains deps d ≡ true → (r : ℕ × Levels) × (visit d a ≡ ok r))
    → (r : ℕ × Levels) × (level_deps visit deps highest m ≡ ok r)
unfolding level_deps contains
level_deps_total visit [] highest m h = ((highest, m), refl)
level_deps_total visit (dep ∷ deps) highest m h =
    let ((l, m1), visited) = h dep m (rw ((string_eq.beq_iff dep dep).1 refl) refl) in
    rw (visited, level_deps)
      (level_deps_total visit deps (max highest l) m1 (λ d a c. h d a (rw c (ground arith))))

level_of_total :
    (visit : Visit) (name : String) (ns : List String) (m : Levels)
    → ((d : String) (a : Levels) → contains ns d ≡ true → (r : ℕ × Levels) × (visit d a ≡ ok r))
    → (r : ℕ × Levels) × (level_of visit name ns m ≡ ok r)
unfolding level_of store_level
level_of_total visit name [] m h = (_, refl)
level_of_total visit name (dep ∷ deps) m h =
    let ((l, m1), looped) = level_deps_total visit (dep ∷ deps) 0 m h in
    (_, ap (store_level name) looped)

IsNodup-cons : (x : String) (l : List String) → IsNodup l → contains l x ≡ false → IsNodup (x ∷ l)
unfolding count
IsNodup-cons x l h apart a = ground (arith, h a, contains_iff l x, string_eq.beq_iff x a)

IsSubset-cons :
    (x : String) (l r : List String) → IsSubset l r → contains r x ≡ true → IsSubset (x ∷ l) r
unfolding count
IsSubset-cons x l r h known a p = ground (arith, h a, contains_iff r x, string_eq.beq_iff x a)

module _ (services : Services) (rank : String → ℕ)
    (complete : find_missing (keys services) services ≡ none)
    (falls : (d x : String) → 0 < count d (deps_of x services) → rank d < rank x) where
  -- The services on the way have higher ranks than the one that is visited.
  abbrev Above : List String → String → Type 0
  Above stack name = (s : String) → contains stack s ≡ true → rank name < rank s

  Above-cons :
      (stack : List String) (name d : String)
      → Above stack name
      → rank d < rank name
      → Above (name ∷ stack) d
  unfolding contains
  Above-cons stack name d above lt s c = elim (Bool-cases (name == s)) [
    | inl same ↦
        let eq : name ≡ s = (string_eq.beq_iff name s).0 same in
        let rank_is : rank name ≡ rank s = ap rank eq in omega arith
    | inr other ↦ let higher : rank name < rank s = above s (rw other at c) in omega arith
  ]

  compute_level_total :
      (fuel : ℕ) (stack : List String) (name : String) (m : Levels)
      → IsNodup stack
      → IsSubset stack (keys services)
      → length services < fuel + length stack
      → contains (keys services) name ≡ true
      → Above stack name
      → (r : ℕ × Levels) × (compute_level fuel services stack name m ≡ ok r)
  compute_level_total zero stack name m nodup inside enough known above =
      absurd (
        omega (arith, length-le_of_subset stack (keys services) nodup inside, length-keys services))
  compute_level_total (suc fuel) stack name m nodup inside enough known above =
      elim (Option-cases (lookup name m)) [
        | inr (l, found) ↦ ((l, m), compute_level_known services fuel stack name m l found)
        | inl absent ↦ elim (Bool-cases (contains stack name)) [
          | inl cycle ↦ absurd (omega (arith, above name cycle))
          | inr apart ↦
              let (raw, is_raw) = lookup_key services name known in
              let each = λ (d : String) (a : Levels) (c : contains (names raw.depends_on) d ≡ true).
                let listed = lookup_deps services name d raw is_raw c in
                compute_level_total fuel (name ∷ stack) d a (IsNodup-cons name stack nodup apart)
                  (IsSubset-cons name stack (keys services) inside known) (omega arith)
                  (find_missing-none (keys services) services d name complete listed)
                  (Above-cons stack name d above (falls d name listed)) in
              let (r, reached) =
                level_of_total (compute_level fuel services (name ∷ stack)) name
                  (names raw.depends_on) m each in
              (r, compute_level_fresh services fuel stack name m raw absent apart is_raw ∙ reached)
        ]
      ]

  compute_levels_total :
      (rest : List String) (m : Levels)
      → ((x : String) → contains rest x ≡ true → contains (keys services) x ≡ true)
      → (m' : Levels) × (compute_levels services rest m ≡ ok m')
  unfolding compute_levels contains
  compute_levels_total [] m h = (m, refl)
  compute_levels_total (name ∷ rest) m h =
      let known = h name (rw ((string_eq.beq_iff name name).1 refl) refl) in
      let ((l, m1), visited) =
        compute_level_total (suc (length services)) [] name m (λ a. unfold count in omega arith)
          (λ a p. unfold count in absurd (omega arith)) (omega arith) known (λ s c. cc) in
      rw (visited, compute_levels) (compute_levels_total rest m1 (λ x c. h x (rw c (ground arith))))

  -- Where every dependency is a service and the dependencies have no cycle (a rank falls along each of
  -- them), `get_start_levels` gives levels.
  pub get_start_levels_acyclic :
      (levels : List (List String)) × (get_start_levels services ≡ ok levels)
  unfolding get_start_levels grouped
  get_start_levels_acyclic =
      let (m, computed) = compute_levels_total (keys services) [] (λ x c. c) in
      (
        sort_all (group m (empty_levels (highest_level (values m) + 1))),
        rw (complete, get_start_levels) (ap grouped computed),
      )
