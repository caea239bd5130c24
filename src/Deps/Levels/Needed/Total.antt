-- ===== src/Deps/Levels/Needed/Total.antt =====
-- `get_service_with_deps` (kepler-daemon/src/deps.rs) gives an order where the dependencies allow one:
-- the fuel of `collect_deps` is enough, since each service is added once.
use kepler.Prelude.{
  ℕ, zero, suc, ◌+◌, ◌≤◌, ◌<◌, ◌≡◌, refl, ◌∙◌, String, Bool, true, false, none, some, List, [], ◌∷◌,
  ◌++◌, contains, string_eq, ◌==◌, length, Bool-cases, Option-cases, inl, inr, arith, if◌then◌else◌,
}
use kepler.Prelude.Maps.{keys, lookup, contains_key}
use kepler.Prelude.Result.{Result, ok}
use kepler.Errors.{DaemonError}
use kepler.Deps.{Services, RawServiceConfig, names}
use kepler.Deps.Order.{find_missing, topological_sort}
use kepler.Deps.Order.Counting.{count, count-append, IsNodup, contains_iff}
use kepler.Deps.Order.Edges.{deps_of, find_missing-none, find_missing-known}
use kepler.Deps.Order.Sorted.{has_key}
use kepler.Deps.Order.Found.{topological_sort-acyclic}
use kepler.Deps.Levels.{collect_each, collect_deps, filter_needed, get_service_with_deps}
use kepler.Deps.Levels.Acyclic.{lookup_deps, lookup_key}
use kepler.Deps.Levels.Needed.{
  Within, Collects, collect_deps-Grown, collect_deps_seen, collect_deps_unknown, collect_deps_known,
}
use kepler.Deps.Levels.Needed.Ordered.{
  IsNeeded, contains_filter, deps_of_filter, get_service_with_deps-IsNeeded,
}

-- How many services are not needed yet.
left : List String → Services → ℕ
left needed [] = 0
left needed ((name, raw) ∷ services) =
    (if contains needed name then 0 else 1) + left needed services

left-le : (needed : List String) (services : Services) → left needed services ≤ length services
unfolding left
left-le needed [] = omega arith
left-le needed ((name, raw) ∷ services) = ground (arith, left-le needed services)

left-Within :
    (a b : List String) (services : Services)
    → Within a (contains b)
    → left b services ≤ left a services
unfolding left
left-Within a b [] h = omega arith
left-Within a b ((name, raw) ∷ services) h = ground (arith, h name, left-Within a b services h)

contains_tail :
    (name : String) (xs : List String) (x : String)
    → contains xs x ≡ true
    → contains (name ∷ xs) x ≡ true
unfolding contains
contains_tail name xs x h = rw h (ground arith)

left_added :
    (needed : List String) (services : Services) (service : String) (raw : RawServiceConfig)
    → contains needed service ≡ false
    → lookup service services ≡ some raw
    → left (service ∷ needed) services < left needed services
unfolding left lookup contains
left_added needed [] service raw h e = cc
left_added needed ((name, r) ∷ services) service raw h e = elim (Bool-cases (name == service)) [
  | inl same ↦
      let eq : name ≡ service = (string_eq.beq_iff name service).0 same in
      let fresh : contains needed name ≡ false = rw eq h in
      let rest =
        left-Within needed (service ∷ needed) services (λ x k. contains_tail service needed x k) in
      ground (arith, fresh, rest, eq, string_eq.beq_iff service name)
  | inr other ↦ ground (
    arith,
    left_added needed services service raw h (rw other at e),
    other,
    string_eq.beq_iff service name,
    string_eq.beq_iff name service,
  )
]

module _ (services : Services) where
  Totals : ℕ → (String → List String → Result DaemonError (List String)) → Type 0
  Totals bound visit =
      (name : String) (needed : List String)
      → left needed services < bound
      → (needed' : List String) × (visit name needed ≡ ok needed')

  collect_each_total :
      (bound : ℕ) (visit : String → List String → Result DaemonError (List String))
      (service : String) (deps needed : List String)
      → Totals bound visit
      → Collects services visit
      → ((d : String) → contains deps d ≡ true → contains_key services d ≡ true)
      → left needed services < bound
      → (needed' : List String) × (collect_each visit services service deps needed ≡ ok needed')
  unfolding collect_each contains Totals
  collect_each_total bound visit service [] needed total grows known lt = (needed, refl)
  collect_each_total bound visit service (dep ∷ deps) needed total grows known lt =
      let (middle, visited) = total dep needed lt in
      let (kept, _, _, _) = grows dep needed middle visited in
      let here : contains_key services dep ≡ true =
        known dep (rw ((string_eq.beq_iff dep dep).1 refl) refl) in
      let (needed', rest) =
        collect_each_total bound visit service deps middle total grows
          (λ d h. known d (rw h (ground arith)))
          (omega (arith, left-Within needed middle services kept)) in
      (needed', rw (here, collect_each, visited) rest)

  module _ (complete : find_missing (keys services) services ≡ none) where
    dep_known :
        (service : String) (raw : RawServiceConfig)
        → lookup service services ≡ some raw
        → (d : String) → contains (names raw.depends_on) d ≡ true
        → contains_key services d ≡ true
    dep_known service raw is_raw d h =
        let (_, found) = lookup_key services d (
          find_missing-none (keys services) services d service complete
            (lookup_deps services service d raw is_raw h)) in
        rw found refl

    -- Where no dependency is missing, fuel for one step more than there are services that are not
    -- needed yet is enough.
    collect_deps_total : (fuel : ℕ) → Totals fuel (collect_deps fuel services)
    unfolding Totals
    collect_deps_total zero service needed lt = absurd (omega arith)
    collect_deps_total (suc fuel) service needed lt = elim (Bool-cases (contains needed service)) [
      | inl seen ↦ (needed, collect_deps_seen services fuel service needed seen)
      | inr fresh ↦ elim (Option-cases (lookup service services)) [
        | inl unknown ↦
            (service ∷ needed, collect_deps_unknown services fuel service needed fresh unknown)
        | inr (raw, is_raw) ↦
            let (needed', done) =
              collect_each_total fuel (collect_deps fuel services) service (names raw.depends_on)
                (service ∷ needed) (collect_deps_total fuel) (collect_deps-Grown services fuel)
                (dep_known service raw is_raw)
                (omega (arith, left_added needed services service raw fresh is_raw)) in
            (needed', collect_deps_known services fuel service needed raw fresh is_raw ∙ done)
      ]
    ]

count_filter :
    (needed : List String) (services : Services) (x : String)
    → count x (keys (filter_needed needed services)) ≤ count x (keys services)
unfolding filter_needed count
count_filter needed [] x = omega arith
count_filter needed ((name, raw) ∷ services) x = ground (arith, count_filter needed services x)

IsNodup-rest : (x : String) (l : List String) → IsNodup (x ∷ l) → IsNodup l
unfolding count
IsNodup-rest x l h a = ground (arith, h a)

-- Where no service is listed twice, a dependency of a service is in its config.
deps_lookup :
    (services : Services) (d x : String)
    → IsNodup (keys services)
    → 0 < count d (deps_of x services)
    → (raw : RawServiceConfig) × (lookup x services ≡ some raw)
      × (contains (names raw.depends_on) d ≡ true)
unfolding deps_of lookup
deps_lookup [] d x h p = absurd (unfold count in omega arith)
deps_lookup ((name, r) ∷ services) d x h p = elim (Bool-cases (name == x)) [
  | inl same ↦
      let eq : name ≡ x = (string_eq.beq_iff name x).0 same in
      let apart : ¬ (0 < count d (deps_of x services)) = λ q.
        unfold count in
        ground (arith, h x, same, (contains_iff (keys services) x).0 (has_key services d x q)) in
      let split = count-append d (names r.depends_on) (deps_of x services) in
      let total : 0 < count d (names r.depends_on ++ deps_of x services) = rw same at p in
      (
        r,
        rw same refl,
        (contains_iff (names r.depends_on) d).1 (ground (arith, apart, split, total)),
      )
  | inr other ↦
      rw other (deps_lookup services d x (IsNodup-rest name (keys services) h) (rw other at p))
]

module _ (partition_point : (String → Bool) → List String → ℕ) (services : Services)
    (service : String) (rank : String → ℕ) (known : contains_key services service ≡ true)
    (complete : find_missing (keys services) services ≡ none) (nodup : IsNodup (keys services))
    (falls : (d x : String) → 0 < count d (deps_of x services) → rank d < rank x) where
  -- What is needed has no missing dependency, and is as acyclic as the services are.
  sorted_needed :
      (needed : List String)
      → collect_deps (suc (suc (length services))) services service [] ≡ ok needed
      → (order : List String) × (topological_sort partition_point (filter_needed needed services)
          ≡ ok order)
  unfolding contains
  sorted_needed needed collected =
      let (kept, listed, least, shut) =
        collect_deps-Grown services (suc (suc (length services))) service [] needed collected in
      let edge : (d x : String)
          → 0 < count d (deps_of x (filter_needed needed services))
          → (contains needed x ≡ true) × (0 < count d (deps_of x services)) =
        λ d x p.
          let key = has_key (filter_needed needed services) d x p in
          let inside : contains needed x ≡ true =
            ground (arith, key, contains_filter needed services x) in
          (inside, omega (arith, deps_of_filter needed services d x inside)) in
      topological_sort-acyclic partition_point (filter_needed needed services) rank
        (find_missing-known (keys (filter_needed needed services)) (filter_needed needed services)
          (λ d x p.
            let (inside, q) = edge d x p in
            let (raw, is_raw, in_raw) = deps_lookup services d x nodup q in
            ground (
              arith,
              contains_filter needed services d,
              find_missing-none (keys services) services d x complete q,
              shut x d raw inside refl is_raw in_raw,
            )))
        (λ a. omega (arith, count_filter needed services a, nodup a))
        (λ d x p. falls d x (edge d x p).1)

  -- For a service whose config lists no service twice, has no missing dependency and no cycle (a rank
  -- falls along each dependency), `get_service_with_deps` gives an order. It holds the service, no name
  -- twice, and each name behind all services that it depends on; and its names are the least set that
  -- holds the service and the dependencies of its members.
  pub get_service_with_deps_acyclic :
      (order : List String) × (get_service_with_deps partition_point service services ≡ ok order)
      × IsNeeded services service order
  unfolding get_service_with_deps Totals
  get_service_with_deps_acyclic =
      let (needed, collected) =
        collect_deps_total services complete (suc (suc (length services))) service []
          (omega (arith, left-le [] services)) in
      let (order, sorted) = sorted_needed needed collected in
      let result : get_service_with_deps partition_point service services ≡ ok order =
        rw (known, get_service_with_deps, collected) sorted in
      (order, result, get_service_with_deps-IsNeeded partition_point services service order result)
