-- ===== src/Deps/Levels/Needed/Ordered.antt =====
-- The order of what one service needs: the result of `get_service_with_deps`
-- (kepler-daemon/src/deps.rs), for every `partition_point`.
use mathlib.Core.Path.{subst}
use kepler.Prelude.{
  ℕ, suc, ◌<◌, ◌≡◌, refl, ◌∙◌, String, Bool, true, false, ◌&&◌, List, [], ◌∷◌, ◌++◌, contains,
  string_eq, ◌==◌, length, Bool-cases, inl, inr, arith, if◌then◌else◌,
}
use kepler.Prelude.Maps.{keys, lookup, contains_key}
use kepler.Prelude.Result.{ok, Result-cases}
use kepler.Deps.{Services, names}
use kepler.Deps.Order.{topological_sort}
use kepler.Deps.Order.Counting.{count, count-append, IsNodup, IsSubset, contains_iff}
use kepler.Deps.Order.Edges.{deps_of}
use kepler.Deps.Order.Sorted.{IsOrdered}
use kepler.Deps.Order.Found.{topological_sort-IsOrdered}
use kepler.Deps.Levels.{collect_deps, filter_needed, get_service_with_deps}
use kepler.Deps.Levels.Needed.{IsClosed, Within, Within-single, contains_head, collect_deps-Grown}

-- What one service needs, in an order: each service behind its dependencies, no name twice, and
-- the set is the least closed one with the service.
abbrev pub IsNeeded : Services → String → List String → Type 0
IsNeeded services service order =
    (contains order service ≡ true)
    × IsNodup order
    × IsOrdered (filter_needed order services) [] order
    × IsClosed services (contains order)
    × ((p : String → Bool) → IsClosed services p → p service ≡ true → Within order p)

pub key_listed :
    (services : Services) (x : String)
    → contains_key services x ≡ true
    → contains (keys services) x ≡ true
unfolding lookup contains
key_listed [] x h = cc
key_listed ((name, raw) ∷ services) x h = elim (Bool-cases (name == x)) [
  | inl same ↦ rw same refl
  | inr other ↦ rw other (key_listed services x (rw other at h))
]

pub contains_filter :
    (needed : List String) (services : Services) (x : String)
    → contains (keys (filter_needed needed services)) x
      ≡ (contains needed x && contains (keys services) x)
unfolding filter_needed contains
contains_filter needed [] x = ground arith
contains_filter needed ((name, raw) ∷ services) x =
    ground (arith, string_eq.beq_iff name x, contains_filter needed services x)

pub deps_of_filter :
    (needed : List String) (services : Services) (d x : String)
    → contains needed x ≡ true
    → count d (deps_of x (filter_needed needed services)) ≡ count d (deps_of x services)
unfolding filter_needed deps_of
deps_of_filter needed [] d x h = refl
deps_of_filter needed ((name, raw) ∷ services) d x h = elim (Bool-cases (contains needed name)) [
  | inl kept ↦ rw (kept) (
      omega (
        arith,
        count-append d (if name == x then names raw.depends_on else [])
            (deps_of x (filter_needed needed services)),
        count-append d (if name == x then names raw.depends_on else []) (deps_of x services),
        deps_of_filter needed services d x h,
      ))
  | inr dropped ↦ elim (Bool-cases (name == x)) [
    | inl same ↦
        let eq : name ≡ x = (string_eq.beq_iff name x).0 same in
        let clash : contains needed x ≡ false = rw eq at dropped in absurd (cc)
    | inr other ↦ rw (dropped, other) (deps_of_filter needed services d x h)
  ]
]

-- A set that agrees on the services filters them alike.
filter_same :
    (a b : List String) (services : Services)
    → ((x : String) → contains (keys services) x ≡ true → contains a x ≡ contains b x)
    → filter_needed a services ≡ filter_needed b services
unfolding filter_needed contains
filter_same a b [] h = refl
filter_same a b ((name, raw) ∷ services) h =
    let here : contains a name ≡ contains b name =
      h name (rw ((string_eq.beq_iff name name).1 refl) refl) in
    let rest = filter_same a b services (λ x c. h x (rw c (ground arith))) in rw (here, rest) refl

-- A dependency of a listed service is listed.
IsOrdered-deps :
    (services : Services) (placed xs : List String) (x : String)
    → IsOrdered services placed xs
    → 0 < count x xs
    → IsSubset (deps_of x services) (placed ++ xs)
unfolding count
IsOrdered-deps services placed [] x o h d e = absurd (omega arith)
IsOrdered-deps services placed (y ∷ ys) x (here, rest) h d e = elim (Bool-cases (y == x)) [
  | inl same ↦
      let eq : y ≡ x = (string_eq.beq_iff y x).0 same in
      let before : 0 < count d placed = here d (rw eq e) in
      omega (arith, count-append d placed (y ∷ ys))
  | inr other ↦
      let tail : 0 < count x ys = ground (arith, other, h) in
      let found = IsOrdered-deps services (placed ++ y ∷ []) ys x rest tail d e in
      omega (
        arith,
        count-append d (placed ++ y ∷ []) ys,
        count-append d placed (y ∷ []),
        count-append d placed (y ∷ ys),
      )
]

module _ (partition_point : (String → Bool) → List String → ℕ) where
  steps :
      (services : Services) (service : String) (order : List String)
      → get_service_with_deps partition_point service services ≡ ok order
      → (needed : List String) × (contains_key services service ≡ true)
        × (collect_deps (suc (suc (length services))) services service [] ≡ ok needed)
        × (topological_sort partition_point (filter_needed needed services) ≡ ok order)
  unfolding get_service_with_deps
  steps services service order e = elim (Bool-cases (contains_key services service)) [
    | inr missing ↦ absurd (ground (arith, missing, e))
    | inl known ↦
        elim (Result-cases (collect_deps (suc (suc (length services))) services service [])) [
          | inl (x, failed) ↦ absurd (ground (arith, known, failed, e))
          | inr (needed, collected) ↦
              (needed, known, collected, ground (arith, known, collected, e))
        ]
  ]

  -- The order that `get_service_with_deps` gives holds the service, no name twice, and each name
  -- behind all services that it depends on; and its names are the least set that holds the service
  -- and the dependencies of its members.
  pub get_service_with_deps-IsNeeded :
      (services : Services) (service : String) (order : List String)
      → get_service_with_deps partition_point service services ≡ ok order
      → IsNeeded services service order
  unfolding contains
  get_service_with_deps-IsNeeded services service order e =
      let (needed, known, collected, sorted) = steps services service order e in
      let (kept, listed, least, shut) =
        collect_deps-Grown services (suc (suc (length services))) service [] needed collected in
      let (ordered, once, exact) =
        topological_sort-IsOrdered partition_point (filter_needed needed services) order sorted in
      let member = λ (x : String). exact x ∙ contains_filter needed services x in
      let same = filter_same needed order services (λ x c. ground (arith, member x, c)) in
      let ordered' = subst (λ s. IsOrdered s [] order) same ordered in
      (
        member service
            ∙ ground (
              arith,
              listed service (contains_head services service []),
              key_listed services service known,
            ),
        once,
        ordered',
        λ x d h c. (contains_iff order d).1 (
            IsOrdered-deps (filter_needed order services) [] order x ordered'
              ((contains_iff order x).0 h) d (omega (arith, deps_of_filter order services d x h))),
        λ p closed start x h.
            least p closed (Within-single services service p start) (λ y c. absurd (cc)) x
              (ground (arith, member x, h)),
      )
