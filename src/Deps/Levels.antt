-- ===== src/Deps/Levels.antt =====
-- `get_start_levels` of kepler-daemon/src/deps.rs: the services by the depth of their dependencies, and
-- `get_service_with_deps`, the order of what one service needs. The recursion of `compute_level` and of
-- `collect_deps` has fuel for one step more than there are services. The set `computed` of the source,
-- which nothing reads, is left out.
pub mod Laws
pub mod Grouped
pub mod Acyclic
pub mod Needed
use kepler.Prelude.{
  ℕ, zero, suc, ◌+◌, ◌<◌, String, Bool, true, false, not, Option, none, some, List, [], ◌∷◌, ◌++◌,
  if◌then◌else◌, eqb, leb, length, contains, is_empty, string_eq, ◌==◌,
}
use kepler.Prelude.Maps.{Map, keys, values, lookup, insert, contains_key}
use kepler.Prelude.Result.{Result, ok, err, ◌>>=◌}
use kepler.Errors.{DaemonError, service_not_found, missing_dependency, dependency_cycle, internal}
use kepler.Deps.{Services, RawServiceConfig, names}
use kepler.Deps.Order.{find_missing, sort, topological_sort}

abbrev pub Levels : Type 0
Levels = Map String ℕ

abbrev pub Visit : Type 0
Visit = String → Levels → Result DaemonError (ℕ × Levels)

abbrev pub max : ℕ → ℕ → ℕ
max a b = if leb a b then b else a

-- The loop over the dependencies, with the highest level so far
unfoldable pub level_deps : Visit → List String → ℕ → Levels → Result DaemonError (ℕ × Levels)
level_deps visit [] highest levels = ok (highest, levels)
level_deps visit (dep ∷ deps) highest levels = elim (visit dep levels) [
  | err e ↦ err e
  | ok (level, levels') ↦ level_deps visit deps (max highest level) levels'
]

store_level : String → Result DaemonError (ℕ × Levels) → Result DaemonError (ℕ × Levels)
unfolding insert
store_level name (err e) = err e
store_level name (ok (highest, levels)) = ok (suc highest, insert name (suc highest) levels)

unfoldable pub level_of : Visit → String → List String → Levels → Result DaemonError (ℕ × Levels)
unfolding level_deps store_level insert
level_of visit name [] levels = ok (0, insert name 0 levels)
level_of visit name (dep ∷ deps) levels = store_level name (level_deps visit (dep ∷ deps) 0 levels)

-- The stack holds the services on the way here; a call that succeeds leaves it as it was.
unfoldable pub compute_level : ℕ → Services → List String → Visit
unfolding level_of lookup
compute_level zero services stack name levels = err (internal name name)
compute_level (suc fuel) services stack name levels = elim (lookup name levels) [
  | some level ↦ ok (level, levels)
  | none ↦ elim (contains stack name) [
    | true ↦ err (dependency_cycle (name ∷ []))
    | false ↦ elim (lookup name services) [
      | none ↦ err (service_not_found name)
      | some raw ↦
          level_of (compute_level fuel services (name ∷ stack)) name (names raw.depends_on) levels
    ]
  ]
]

unfoldable pub compute_levels : Services → List String → Levels → Result DaemonError Levels
unfolding compute_level
compute_levels services [] levels = ok levels
compute_levels services (name ∷ rest) levels =
    elim (compute_level (suc (length services)) services [] name levels) [
      | err e ↦ err e
      | ok (level, levels') ↦ compute_levels services rest levels'
    ]

push_at : ℕ → String → List (List String) → List (List String)
push_at i name [] = []
push_at zero name (l ∷ ls) = (l ++ name ∷ []) ∷ ls
push_at (suc i) name (l ∷ ls) = l ∷ push_at i name ls

group : Levels → List (List String) → List (List String)
unfolding push_at
group [] result = result
group ((name, level) ∷ levels) result = group levels (push_at level name result)

highest_level : List ℕ → ℕ
highest_level [] = 0
highest_level (n ∷ ns) = max n (highest_level ns)

empty_levels : ℕ → List (List String)
empty_levels zero = []
empty_levels (suc n) = [] ∷ empty_levels n

sort_all : List (List String) → List (List String)
unfolding sort
sort_all [] = []
sort_all (l ∷ ls) = sort l ∷ sort_all ls

grouped : Result DaemonError Levels → Result DaemonError (List (List String))
unfolding group highest_level empty_levels sort_all
grouped (err e) = err e
grouped (ok levels) =
    ok (sort_all (group levels (empty_levels (highest_level (values levels) + 1))))

unfoldable pub get_start_levels : Services → Result DaemonError (List (List String))
unfolding find_missing compute_levels grouped
get_start_levels services = elim (find_missing (keys services) services) [
  | some e ↦ err e
  | none ↦ grouped (compute_levels services (keys services) [])
]

-- `collect_deps`: the set of what is needed, newest first
unfoldable pub collect_each :
    (String → List String → Result DaemonError (List String))
    → Services
    → String
    → List String
    → List String
    → Result DaemonError (List String)
collect_each visit services service [] needed = ok needed
collect_each visit services service (dep ∷ deps) needed = elim (contains_key services dep) [
  | false ↦ err (missing_dependency service dep)
  | true ↦ elim (visit dep needed) [
    | err e ↦ err e
    | ok needed' ↦ collect_each visit services service deps needed'
  ]
]

unfoldable pub collect_deps : ℕ → Services → String → List String → Result DaemonError (List String)
unfolding collect_each lookup
collect_deps zero services service needed = err (internal service service)
collect_deps (suc fuel) services service needed = elim (contains needed service) [
  | true ↦ ok needed
  | false ↦ elim (lookup service services) [
    | none ↦ ok (service ∷ needed)
    | some raw ↦
        collect_each (collect_deps fuel services) services service (names raw.depends_on)
          (service ∷ needed)
  ]
]

unfoldable pub filter_needed : List String → Services → Services
filter_needed needed [] = []
filter_needed needed ((name, raw) ∷ services) =
    let rest = filter_needed needed services in
    if contains needed name then (name, raw) ∷ rest else rest

module _ (partition_point : (String → Bool) → List String → ℕ) where
  unfoldable pub get_service_with_deps : String → Services → Result DaemonError (List String)
  unfolding collect_deps filter_needed topological_sort
  get_service_with_deps service services =
      if contains_key services service
      then (collect_deps (suc (suc (length services))) services service [] >>= λ needed.
          topological_sort partition_point (filter_needed needed services))
      else err (service_not_found service)
