-- ===== src/Deps/Order/Found.antt =====
-- The result of `topological_sort` (kepler-daemon/src/deps.rs), for every `partition_point`.
use kepler.Prelude.{
  ℕ, zero, suc, ◌<◌, ◌≡◌, refl, sym, ◌∙◌, String, Bool, true, none, List, [], arith, length,
  contains, string_eq, Option-cases, inl, inr,
}
use mathlib.Core.Path.{subst}
use kepler.Prelude.Maps.{Map, keys}
use kepler.Prelude.Result.{ok}
use kepler.Deps.{Services}
use kepler.Deps.Order.{
  kahn, check_cycle, after_loop, after_build, topological_sort, find_missing, no_dependencies, sort,
}
use kepler.Deps.Order.Counting.{
  count, IsNodup, IsSubset, length-le_of_subset, subset_of_length, contains_iff, length-le-hits,
}
use kepler.Deps.Order.Edges.{deps_of, build_graph-IsGraphOf, find_missing-none}
use kepler.Deps.Order.Invariant.{Inv}
use kepler.Deps.Order.Sorted.{
  IsOrdered, count_nil, sort_loop-Inv, length-keys, start-Inv, result-IsNodup, result-IsSubset,
}

module _ (partition_point : (String → Bool) → List String → ℕ) (services : Services) where
  -- Without a missing dependency, the loop ends with an empty queue, and only the check for a cycle
  -- is left.
  loop_ends :
      find_missing (keys services) services ≡ none
      → (order : List String) × (degrees : Map String ℕ) × (topological_sort partition_point
            services
          ≡ check_cycle partition_point services order)
        × Inv services order [] degrees []
        × IsOrdered services [] order
  unfolding topological_sort after_build after_loop kahn
  loop_ends e =
      let (g, b, gr) = build_graph-IsGraphOf services e in
      let (order, degrees, r, h, o) =
        sort_loop-Inv services g.dependents gr.edges partition_point (suc (length services)) []
          (sort (no_dependencies g.in_degree)) g.in_degree (start-Inv services g gr) tt
          (omega (arith, length-keys services)) in
      (order, degrees, rw (e, topological_sort, b, after_build, r, after_loop) refl, h, o)

  module _ (order : List String) (degrees : Map String ℕ) (h : Inv services order [] degrees [])
      (rank : String → ℕ) (e : find_missing (keys services) services ≡ none)
      (falls : (d x : String) → 0 < count d (deps_of x services) → rank d < rank x) where
    reached :
        (n : ℕ) (x : String) → rank x < n → contains (keys services) x ≡ true → 0 < count x order
    reached zero x p k = absurd (omega (arith, p))
    reached (suc n) x p k =
        let before : IsSubset (deps_of x services) order = λ d q.
          reached n d (omega (arith, falls d x q, p))
            (find_missing-none (keys services) services d x e q) in
        omega (
          arith,
          count_nil x,
          h.balance x k,
          length-le-hits order (deps_of x services) before,
          h.finished x k (
              omega (
                arith,
                count_nil x,
                h.balance x k,
                length-le-hits order (deps_of x services) before,
              )),
        )

  -- An order that `topological_sort` gives has every service behind all services that it depends
  -- on, none twice, and exactly the names of the services.
  pub topological_sort-IsOrdered :
      (order : List String)
      → topological_sort partition_point services ≡ ok order
      → IsOrdered services [] order
        × IsNodup order
        × ((x : String) → contains order x ≡ contains (keys services) x)
  unfolding check_cycle topological_sort
  topological_sort-IsOrdered order t = elim (Option-cases (find_missing (keys services) services)) [
    | inr (d, e) ↦ absurd (ground (arith, e, t))
    | inl e ↦
        let (found, degrees, r, h, o) = loop_ends e in
        let once = result-IsNodup services found [] [] degrees h in
        let inside = result-IsSubset services found [] [] degrees h in
        let (same, long) : (found ≡ order) × (length found ≡ length services) =
          ground (arith, sym r ∙ t) in
        let every : IsSubset (keys services) found =
          subset_of_length found (keys services) once inside
            (omega (arith, long, length-keys services)) in
        (
          subst (IsOrdered services []) same o,
          subst IsNodup same once,
          λ x. ground (
            arith,
            same,
            every x,
            inside x,
            contains_iff (keys services) x,
            contains_iff found x,
          ),
        )
  ]

  -- Where every dependency is a service, no service is listed twice, and the dependencies have no
  -- cycle (a rank falls along each of them), `topological_sort` gives an order.
  pub topological_sort-acyclic :
      (rank : String → ℕ)
      → find_missing (keys services) services ≡ none
      → IsNodup (keys services)
      → ((d x : String) → 0 < count d (deps_of x services) → rank d < rank x)
      → (order : List String) × (topological_sort partition_point services ≡ ok order)
  unfolding check_cycle
  topological_sort-acyclic rank e nodup falls =
      let (order, degrees, r, h, o) = loop_ends e in
      (
        order,
        r
            ∙ ground (
              arith,
              length-keys services,
              length-le_of_subset order (keys services)
                  (result-IsNodup services order [] [] degrees h)
                  (result-IsSubset services order [] [] degrees h),
              length-le_of_subset (keys services) order nodup (λ x p.
                  reached order degrees h rank e falls (suc (rank x)) x (omega arith)
                    ((contains_iff (keys services) x).1 p)),
            ),
      )
