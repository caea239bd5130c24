-- ===== src/Deps/Order/Sorted.antt =====
-- The loop of `topological_sort`, for every `partition_point`.
use kepler.Prelude.{
  ℕ, zero, suc, ◌+◌, ◌<◌, ◌≡◌, refl, ◌∙◌, String, Bool, true, some, List, [], ◌∷◌, ◌++◌, arith,
  length, length-append, contains, string_eq, beq_refl, Option-cases, inl, inr,
}
use kepler.Prelude.Maps.{Map, keys, lookup}
use kepler.Prelude.Result.{ok}
use kepler.Deps.{Services}
use kepler.Deps.Order.{Graph, pop, sort, no_dependencies, unwrap_list, sort_loop}
use kepler.Deps.Order.Queue.{count-pop, count-sort, pop-none, count-no_dependencies, is_some_zero}
use kepler.Deps.Order.Counting.{
  hits_nil, count, hits_snoc, IsNodup, IsSubset, count-append, subset_of_hits, length-le_of_subset,
  contains_iff,
}
use kepler.Deps.Order.Edges.{deps_of, IsGraphOf}
use kepler.Deps.Order.Invariant.{Inv, release-Inv}

-- After `placed`, the services of the list stand behind all their dependencies.
abbrev pub IsOrdered : Services → List String → List String → Type 0
IsOrdered services placed [] = Unit {0}
IsOrdered services placed (x ∷ xs) =
    IsSubset (deps_of x services) placed × IsOrdered services (placed ++ x ∷ []) xs

pub count_nil : (a : String) → count a [] ≡ 0
unfolding count
count_nil a = refl

IsOrdered-snoc :
    (services : Services) (placed xs : List String) (n : String)
    → IsOrdered services placed xs
    → IsSubset (deps_of n services) (placed ++ xs)
    → IsOrdered services placed (xs ++ n ∷ [])
IsOrdered-snoc services placed [] n o d =
    ((λ a p. omega (arith, d a p, count-append a placed [], count_nil a)), tt)
IsOrdered-snoc services placed (x ∷ xs) n o d = (
  o.0,
  IsOrdered-snoc services (placed ++ x ∷ []) xs n o.1 (λ a p. omega (
    arith,
    d a p,
    count-append a placed (x ∷ xs),
    count-append a (placed ++ x ∷ []) xs,
    count-append a placed (x ∷ []),
    count-append a (x ∷ []) xs,
  )),
)

pub has_key :
    (services : Services) (d x : String)
    → 0 < count d (deps_of x services)
    → contains (keys services) x ≡ true
unfolding deps_of contains
has_key [] d x p = absurd (omega (arith, count_nil d, p))
has_key ((name, raw) ∷ services) d x p = ground (arith, has_key services d x)

-- The result so far lies in the services, without repetitions.
module _ (services : Services) (result pending queue : List String) (degrees : Map String ℕ)
    (h : Inv services result pending degrees queue) where
  pub result-IsNodup : IsNodup result
  result-IsNodup a = omega (arith, h.once a)

  pub result-IsSubset : IsSubset result (keys services)
  result-IsSubset a p = (contains_iff (keys services) a).0 (h.known a (omega (arith, p)))

module _ (services : Services) (dependents : Map String (List String))
    (edges : (d x : String)
      → count x (unwrap_list (lookup d dependents)) ≡ count d (deps_of x services)) where
  -- Taking a node from the queue leaves its dependents to be told.
  take-Inv :
      (result queue rest : List String) (node : String) (degrees : Map String ℕ)
      → pop queue ≡ some (rest, node)
      → Inv services result [] degrees queue
      → Inv services (result ++ node ∷ []) (unwrap_list (lookup node dependents)) degrees rest
  take-Inv result queue rest node degrees e h =
      let moved : (x : String)
          → count x (result ++ node ∷ []) + count x rest ≡ count x result + count x queue =
        λ x.
          unfold count in
          omega (arith, count-pop x queue rest node e, count-append x result (node ∷ [])) in
      record {
        balance = λ x k. omega (
          arith,
          h.balance x k,
          hits_snoc node result (deps_of x services),
          edges node x,
          count_nil x,
        );
        once = λ x. omega (arith, moved x, h.once x);
        finished = λ x k z. omega (arith, moved x, h.finished x k z);
        blocked = λ x p. omega (arith, moved x, h.blocked x p);
        known = λ x p. h.known x (omega (arith, moved x, p));
        counted = h.counted;
        told = λ x p. has_key services node x (omega (arith, edges node x, p));
      }

  -- What is taken from the queue has all its dependencies in the result.
  node_ready :
      (result queue rest : List String) (node : String) (degrees : Map String ℕ)
      → pop queue ≡ some (rest, node)
      → Inv services result [] degrees queue
      → IsSubset (deps_of node services) result
  node_ready result queue rest node degrees e h =
      let there : 0 < count node result + count node queue =
        ground (arith, count-pop node queue rest node, beq_refl node) in
      subset_of_hits result (deps_of node services) (λ a. omega (arith, h.once a))
        (ground (arith, h.balance node (h.known node there), h.blocked node, count_nil node))

  pub sort_loop-Inv :
      (partition_point : (String → Bool) → List String → ℕ) (fuel : ℕ) (result queue : List String)
      (degrees : Map String ℕ)
      → Inv services result [] degrees queue
      → IsOrdered services [] result
      → length (keys services) < fuel + length result
      → (result' : List String) × (degrees' : Map String ℕ) × (sort_loop partition_point fuel
            dependents degrees queue result
          ≡ ok ([], result'))
        × Inv services result' [] degrees' []
        × IsOrdered services [] result'
  unfolding sort_loop
  sort_loop-Inv pp zero result queue degrees h o f = absurd (
      omega (
        arith,
        f,
        length-le_of_subset result (keys services)
            (result-IsNodup services result [] queue degrees h)
            (result-IsSubset services result [] queue degrees h),
      ))
  sort_loop-Inv pp (suc fuel) result queue degrees h o f = elim (Option-cases (pop queue)) [
    | inl e ↦ (result, degrees, rw (e, sort_loop), rw (pop-none queue e) at h, o)
    | inr ((rest, node), e) ↦
        let (degrees1, queue1, r, h1) =
          release-Inv pp services (result ++ node ∷ []) node (unwrap_list (lookup node dependents))
            rest degrees (take-Inv result queue rest node degrees e h) in
        let (result', degrees', r', h', o') =
          sort_loop-Inv pp fuel (result ++ node ∷ []) queue1 degrees1 h1
            (IsOrdered-snoc services [] result node o
              (node_ready result queue rest node degrees e h))
            (omega (arith, f, length-append {0} result (node ∷ []))) in
        (result', degrees', rw (e, sort_loop) (rw r r'), h', o')
  ]

pub length-keys : (services : Services) → length (keys services) ≡ length services
length-keys [] = refl
length-keys (e ∷ services) = omega (arith, length-keys services)

module _ (services : Services) (g : Graph) (gr : IsGraphOf services g) where
  pub start-Inv : Inv services [] [] g.in_degree (sort (no_dependencies g.in_degree))
  start-Inv =
      let starts : (x : String)
          → count x (sort (no_dependencies g.in_degree)) ≡ is_some_zero (lookup x g.in_degree) =
        λ x.
          count-sort x (no_dependencies g.in_degree)
          ∙ count-no_dependencies x g.in_degree (gr.nodup x) in
      record {
        balance = λ x k. omega (arith, gr.degrees x, hits_nil (deps_of x services), count_nil x);
        once = λ x. ground (arith, count_nil x, starts x);
        finished = λ x k z. ground (arith, count_nil x, starts x, gr.known x);
        blocked = λ x p. ground (arith, count_nil x, starts x);
        known = λ x p. ground (arith, count_nil x, starts x, gr.known x);
        counted = gr.known;
        told = λ x p. absurd (omega (arith, p, count_nil x));
      }
