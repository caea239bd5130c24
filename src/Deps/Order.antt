-- ===== src/Deps/Order.antt =====
-- kepler-daemon/src/deps.rs: the order in which services start and stop (`topological_sort`, Kahn's
-- algorithm) and the search for cycles. `HashMap`s are iterated in the order of their lists.
-- `partition_point` is the standard library's, whose result is unspecified on a list that is not
-- partitioned: it is a parameter. The loop takes fuel: one round more than there are services.
pub mod Edges
pub mod Counting
pub mod Queue
pub mod Invariant
pub mod Sorted
pub mod Found
use mathlib.Core.List.{reverse}
use kepler.Prelude.{
  ℕ, zero, suc, ◌+◌, ◌-◌, ◌^◌, String, Bool, true, false, not, ◌&&◌, ◌||◌, Option, none, some, List,
  [], ◌∷◌, ◌++◌, if◌then◌else◌, eqb, ltb, length, contains, ◌==◌, string_eq, is_some, any, retain,
}
use kepler.Prelude.Maps.{Map, keys, lookup, insert, adjust, contains_key}
use kepler.Prelude.Result.{Result, ok, err}
use kepler.Text.{Str, codes}
use kepler.Errors.{DaemonError, service_not_found, missing_dependency, dependency_cycle, internal}
use kepler.Deps.{Services, RawServiceConfig, names}

-- `x < y` of two texts, by code points (as by the bytes of UTF-8).
abbrev codes_lt : Str → Str → Bool
codes_lt s [] = false
codes_lt [] (c ∷ t) = true
codes_lt (b ∷ s) (c ∷ t) = ltb b c || (eqb b c && codes_lt s t)

unfoldable pub str_lt : String → String → Bool
str_lt x y = codes_lt (codes x) (codes y)

insert_sorted : String → List String → List String
insert_sorted x [] = x ∷ []
insert_sorted x (y ∷ ys) = if str_lt y x then y ∷ insert_sorted x ys else x ∷ y ∷ ys

-- `Vec::sort`
unfoldable pub sort : List String → List String
unfolding insert_sorted str_lt
sort [] = []
sort (x ∷ xs) = insert_sorted x (sort xs)

-- `Vec::insert`; `partition_point` gives no place beyond the end
unfoldable pub insert_at : ℕ → String → List String → List String
insert_at zero x ys = x ∷ ys
insert_at (suc i) x [] = x ∷ []
insert_at (suc i) x (y ∷ ys) = y ∷ insert_at i x ys

-- `Vec::pop`: the list without its last element, and that element
unfoldable pub pop : List String → Option (List String × String)
pop [] = none
pop (x ∷ []) = some ([], x)
pop (x ∷ y ∷ ys) = elim (pop (y ∷ ys)) [ none ↦ none | some (rest, z) ↦ some (x ∷ rest, z) ]

missing_of : String → List String → List String → Option DaemonError
missing_of service known [] = none
missing_of service known (dep ∷ deps) =
    if contains known dep
    then missing_of service known deps
    else some (missing_dependency service dep)

-- The first dependency that is no service.
unfoldable pub find_missing : List String → Services → Option DaemonError
unfolding missing_of
find_missing known [] = none
find_missing known ((name, raw) ∷ services) = elim (missing_of name known (names raw.depends_on)) [
  | some e ↦ some e
  | none ↦ find_missing known services
]

pub record Graph : Type 0 where
  pub in_degree : Map String ℕ
  pub dependents : Map String (List String)

init_graph : List String → Graph → Graph
init_graph [] g = g
init_graph (name ∷ rest) g =
    init_graph rest
      (record { in_degree = insert name 0 g.in_degree; dependents = insert name [] g.dependents })

-- One dependency of `name`: it counts, and `name` becomes a dependent of it.
unfoldable pub add_edge : String → String → Graph → Result DaemonError Graph
add_edge name dep g =
    if not (contains_key g.in_degree name)
    then err (internal name name)
    else if not (contains_key g.dependents dep)
    then err (missing_dependency name dep)
    else ok (record {
      in_degree = adjust (λ n. n + 1) name g.in_degree;
      dependents = adjust (λ l. l ++ name ∷ []) dep g.dependents;
    })

unfoldable pub add_deps : String → List String → Graph → Result DaemonError Graph
unfolding add_edge
add_deps name [] g = ok g
add_deps name (dep ∷ deps) g = elim (add_edge name dep g) [
  | ok g' ↦ add_deps name deps g'
  | err e ↦ err e
]

unfoldable pub add_services : Services → Graph → Result DaemonError Graph
unfolding add_deps
add_services [] g = ok g
add_services ((name, raw) ∷ services) g = elim (add_deps name (names raw.depends_on) g) [
  | ok g' ↦ add_services services g'
  | err e ↦ err e
]

unfoldable pub build_graph : Services → Result DaemonError Graph
unfolding init_graph add_services
build_graph services =
    add_services services (init_graph (keys services) (record { in_degree = []; dependents = [] }))

unfoldable pub no_dependencies : Map String ℕ → List String
no_dependencies [] = []
no_dependencies ((name, deg) ∷ m) =
    let rest = no_dependencies m in if eqb deg 0 then name ∷ rest else rest

-- `deg -= 1` of a `usize`, which wraps
unfoldable pub decrement : ℕ → ℕ
decrement deg = if eqb deg 0 then 2 ^ 64 - 1 else deg - 1

abbrev pub unwrap_list : Option (List String) → List String
unwrap_list none = []
unwrap_list (some l) = l

module _ (partition_point : (String → Bool) → List String → ℕ) where
  -- `queue.insert(queue.partition_point(|x| x > &dep), dep)`
  unfoldable pub enqueue : String → List String → List String
  unfolding insert_at str_lt
  enqueue dep queue = insert_at (partition_point (λ x. str_lt dep x) queue) dep queue

  -- The inner loop, over the dependents of the node that was taken from the queue.
  unfoldable pub release :
      String
      → List String
      → Map String ℕ × List String
      → Result DaemonError (Map String ℕ × List String)
  unfolding enqueue decrement
  release node [] s = ok s
  release node (dep ∷ deps) (degrees, queue) = elim (lookup dep degrees) [
    | none ↦ err (internal node dep)
    | some deg ↦ release node deps (
      insert dep (decrement deg) degrees,
      if eqb (decrement deg) 0 then enqueue dep queue else queue,
    )
  ]

  -- The outer loop, on the queue and the result; it gives both as they are at its end.
  unfoldable pub sort_loop :
      ℕ
      → Map String (List String)
      → Map String ℕ
      → List String
      → List String
      → Result DaemonError (List String × List String)
  unfolding pop release
  sort_loop zero dependents degrees queue result = ok (queue, result)
  sort_loop (suc fuel) dependents degrees queue result = elim (pop queue) [
    | none ↦ ok ([], result)
    | some (rest, node) ↦
        elim (release node (unwrap_list (lookup node dependents)) (degrees, rest)) [
          | err e ↦ err e
          | ok (degrees', queue') ↦ sort_loop fuel dependents degrees' queue' (result ++ node ∷ [])
        ]
  ]

  -- `Err` with the services that are left, or the order
  check_cycle : Services → List String → Result DaemonError (List String)
  check_cycle services result =
      if eqb (length result) (length services)
      then ok result
      else err (dependency_cycle (retain (λ k. not (contains result k)) (keys services)))

  unfoldable pub kahn : Services → Graph → Result DaemonError (List String × List String)
  unfolding sort_loop no_dependencies
  kahn services g =
      sort_loop (suc (length services)) g.dependents g.in_degree
        (sort (no_dependencies g.in_degree)) []

  after_loop :
      Services → Result DaemonError (List String × List String) → Result DaemonError (List String)
  unfolding check_cycle
  after_loop services (err e) = err e
  after_loop services (ok (queue, result)) = check_cycle services result

  after_build : Services → Result DaemonError Graph → Result DaemonError (List String)
  unfolding kahn after_loop
  after_build services (err e) = err e
  after_build services (ok g) = after_loop services (kahn services g)

  unfoldable pub topological_sort : Services → Result DaemonError (List String)
  unfolding after_build build_graph
  topological_sort services = elim (find_missing (keys services) services) [
    | some e ↦ err e
    | none ↦ after_build services (build_graph services)
  ]

  unfoldable pub get_start_order : Services → Result DaemonError (List String)
  get_start_order services = topological_sort services

  unfoldable pub get_stop_order : Services → Result DaemonError (List String)
  get_stop_order services = elim (topological_sort services) [
    | ok order ↦ ok (reverse order)
    | err e ↦ err e
  ]

  unfoldable pub detect_cycles : Services → Result DaemonError Unit
  unfolding topological_sort
  detect_cycles services = elim (find_missing (keys services) services) [
    | some e ↦ err e
    | none ↦ elim (topological_sort services) [ ok order ↦ ok tt | err e ↦ err e ]
  ]
