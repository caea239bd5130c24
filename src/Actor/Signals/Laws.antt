-- ===== src/Actor/Signals/Laws.antt =====
-- What the signals of kepler-daemon/src/config_actor/actor.rs promise of the services of the config.
use kepler.Prelude.{
  ℕ, ◌≡◌, ◌⊎◌, refl, ◌∙◌, String, Bool, true, false, not, ◌&&◌, ◌||◌, Option, none, some, List, [],
  ◌∷◌, arith, string_eq, Option-cases, Bool-cases, inl, inr, ◌==◌, all, contains, is_some,
}
use mathlib.Core.Path.{subst}
use kepler.Prelude.Maps.{Map, keys, values, lookup, insert, lookup-insert}
use kepler.Prelude.Result.{Result, ok, err}
use kepler.Errors.{DaemonError}
use kepler.State.{ServiceState, is_running, is_active}
use kepler.Deps.{RawServiceConfig, DependencyConfig, pairs}
use kepler.Deps.Order.{get_start_order, topological_sort}
use kepler.Deps.Levels.Needed.Ordered.{key_listed}
use kepler.Deps.Order.Found.{topological_sort-IsOrdered}
use kepler.Actor.{Actor}
use kepler.Actor.Signals.{
  is_waiting, is_stopped, is_skipped, restart_follows, is_condition_satisfied_sync,
  blocked_for_good, all_satisfiable, waits_settled, are_deps_satisfiable, is_service_ready,
  compute_ready, is_service_settled, settle, all_settled, computed_order, topo_order,
  compute_quiescence,
}

all-contains :
    (p : String → Bool) (xs : List String) (x : String)
    → all p xs ≡ true
    → contains xs x ≡ true
    → p x ≡ true
unfolding all contains
all-contains p [] x h k = absurd (ground (arith, k))
all-contains p (y ∷ ys) x h k = ground (arith, h, k, string_eq.beq_iff y x, all-contains p ys x)

-- Every value in a map of tests that holds throughout is `true`.
all-values :
    (m : Map String Bool) (name : String) (b : Bool)
    → all (λ x. x) (values m) ≡ true
    → lookup name m ≡ some b
    → b ≡ true
unfolding all lookup
all-values [] name b h e = absurd (ground (arith, e))
all-values ((n, v) ∷ m) name b h e = ground (arith, h, e, all-values m name b)

inserted :
    (n : String) (b : Bool) (m : Map String Bool) (name : String)
    → (n == name || is_some (lookup name m)) ≡ true
    → is_some (lookup name (insert n b m)) ≡ true
inserted n b m name h = ground (arith, lookup-insert n name b m, h)

found_order :
    (r : Result DaemonError (List String)) (order : List String)
    → ◌≡◌ {A = Option (List String)} (elim r [ ok found ↦ some found | err e ↦ none ]) (some order)
    → r ≡ ok order
found_order (ok found) order e = ground arith
found_order (err x) order e = absurd (cc)

module _ {T : Type 0} where
  ready_status :
      (a : Actor T) (name : String) (s : ServiceState T)
      → lookup name a.services ≡ some s
      → is_service_ready a name ≡ true
      → (is_running s.status
          || is_waiting s.status
          || not (is_active s.status) && not (is_stopped s.status))
        ≡ true
  unfolding is_service_ready
  ready_status a name s e h = ground (arith, e, h)

  -- Where `compute_ready` says yes, every service of the config that the actor knows either runs,
  -- has ended without being stopped, or waits: none is stopped, starting, stopping or restarting.
  pub compute_ready_lem :
      (a : Actor T) (name : String) (s : ServiceState T)
      → compute_ready a ≡ true
      → contains (keys a.config) name ≡ true
      → lookup name a.services ≡ some s
      → (is_running s.status
          || is_waiting s.status
          || not (is_active s.status) && not (is_stopped s.status))
        ≡ true
  unfolding compute_ready
  compute_ready_lem a name s h k e =
      ready_status a name s e (all-contains (is_service_ready a) (keys a.config) name h k)

  IsSettling : Actor T → Map String Bool → Type 0
  IsSettling a m =
      (name : String)
      → lookup name m ≡ some true
      → (cache : Map String Bool) × (is_service_settled a name cache ≡ true)

  insert-IsSettling :
      (a : Actor T) (m : Map String Bool) (n : String) (b : Bool)
      → (b ≡ true → (cache : Map String Bool) × (is_service_settled a n cache ≡ true))
      → IsSettling a m
      → IsSettling a (insert n b m)
  unfolding IsSettling
  insert-IsSettling a m n b g h name e = elim (Bool-cases (n == name)) [
    | inl same ↦
        subst (λ x. (cache : Map String Bool) × (is_service_settled a x cache ≡ true))
          ((string_eq.beq_iff n name).0 same)
          (g (ground (arith, same, e, lookup-insert n name b m)))
    | inr other ↦ h name (ground (arith, other, e, lookup-insert n name b m))
  ]

  settle-IsSettling :
      (a : Actor T) (order : List String) (cache : Map String Bool)
      → IsSettling a cache
      → IsSettling a (settle a order cache)
  unfolding settle
  settle-IsSettling a [] cache h = h
  settle-IsSettling a (n ∷ order) cache h =
      settle-IsSettling a order (insert n (is_service_settled a n cache) cache)
        (insert-IsSettling a cache n (is_service_settled a n cache) (λ e. (cache, e)) h)

  settle_keeps :
      (a : Actor T) (order : List String) (cache : Map String Bool) (name : String)
      → is_some (lookup name cache) ≡ true
      → is_some (lookup name (settle a order cache)) ≡ true
  unfolding settle
  settle_keeps a [] cache name k = k
  settle_keeps a (n ∷ order) cache name k =
      settle_keeps a order (insert n (is_service_settled a n cache) cache) name
        (inserted n (is_service_settled a n cache) cache name (ground (arith, k)))

  settle_covers :
      (a : Actor T) (order : List String) (cache : Map String Bool) (name : String)
      → contains order name ≡ true
      → is_some (lookup name (settle a order cache)) ≡ true
  unfolding settle contains
  settle_covers a [] cache name k = absurd (ground (arith, k))
  settle_covers a (n ∷ order) cache name k = elim (Bool-cases (n == name)) [
    | inl same ↦
        settle_keeps a order (insert n (is_service_settled a n cache) cache) name
          (inserted n (is_service_settled a n cache) cache name (ground (arith, same)))
    | inr other ↦
        settle_covers a order (insert n (is_service_settled a n cache) cache) name
          (ground (arith, other, k))
  ]

  -- Whether all dependencies of a service are satisfied now
  abbrev pub met : Actor T → RawServiceConfig → Bool
  met a raw = all (λ e. is_condition_satisfied_sync a e.0 e.1) (pairs raw.depends_on)

  -- A dependency of the service is not satisfied.
  abbrev pub HasUnmet : Actor T → String → Type 0
  HasUnmet a name =
      (raw : RawServiceConfig) × (lookup name a.config ≡ some raw) × (met a raw ≡ false)

  -- A service that does nothing more by itself: it is skipped; or it waits for a dependency that is not
  -- satisfied; or it has ended and is not restarted, by its policy or for such a dependency.
  abbrev pub IsQuiet : Actor T → String → ServiceState T → Type 0
  IsQuiet a name s =
      (is_skipped s.status ≡ true)
      ⊎ ((is_waiting s.status ≡ true) × HasUnmet a name)
      ⊎ ((is_active s.status ≡ false)
          × ((restart_follows a name s.status s.exit_code ≡ false) ⊎ HasUnmet a name))

  blocked-unmet :
      (a : Actor T) (cache : Map String Bool) (deps : List (String × DependencyConfig))
      → blocked_for_good a cache deps false ≡ true
      → all (λ e. is_condition_satisfied_sync a e.0 e.1) deps ≡ false
  unfolding blocked_for_good all
  blocked-unmet a cache [] h = absurd (cc)
  blocked-unmet a cache ((dep_name, dep) ∷ deps) h =
      elim (Bool-cases (is_condition_satisfied_sync a dep_name dep)) [
        | inl holds ↦ rw holds (blocked-unmet a cache deps (rw (holds, blocked_for_good) at h))
        | inr fails ↦ rw fails refl
      ]

  satisfiable-unmet :
      (a : Actor T) (cache : Map String Bool) (deps : List (String × DependencyConfig))
      → all_satisfiable a cache deps ≡ false
      → all (λ e. is_condition_satisfied_sync a e.0 e.1) deps ≡ false
  unfolding all_satisfiable all
  satisfiable-unmet a cache [] h = absurd (cc)
  satisfiable-unmet a cache ((dep_name, dep) ∷ deps) h =
      elim (Bool-cases (is_condition_satisfied_sync a dep_name dep)) [
        | inl holds ↦ rw holds (satisfiable-unmet a cache deps (rw holds at h))
        | inr fails ↦ rw fails refl
      ]

  waits-unmet :
      (a : Actor T) (name : String) (cache : Map String Bool)
      → waits_settled a cache (lookup name a.config) ≡ true
      → HasUnmet a name
  unfolding waits_settled
  waits-unmet a name cache h = elim (Option-cases (lookup name a.config)) [
    | inl e ↦ absurd (ground (arith, e, h))
    | inr (raw, e) ↦ (raw, e, blocked-unmet a cache (pairs raw.depends_on) (rw e at h))
  ]

  ended-unmet :
      (a : Actor T) (name : String) (cache : Map String Bool) (raw : RawServiceConfig)
      → lookup name a.config ≡ some raw
      → are_deps_satisfiable a name cache ≡ false
      → HasUnmet a name
  unfolding are_deps_satisfiable
  ended-unmet a name cache raw e h =
      (raw, e, satisfiable-unmet a cache (pairs raw.depends_on) (rw (e, are_deps_satisfiable) at h))

  settled-IsQuiet :
      (a : Actor T) (name : String) (s : ServiceState T) (cache : Map String Bool)
      (raw : RawServiceConfig)
      → lookup name a.config ≡ some raw
      → lookup name a.services ≡ some s
      → is_service_settled a name cache ≡ true
      → IsQuiet a name s
  unfolding is_service_settled
  settled-IsQuiet a name s cache raw known e h = elim (Bool-cases (is_skipped s.status)) [
    | inl skips ↦ inl skips
    | inr other ↦ elim (Bool-cases (is_waiting s.status)) [
      | inl waits ↦ inr (inl (waits, waits-unmet a name cache (ground (arith, e, h, other, waits))))
      | inr awake ↦ elim (Bool-cases (is_active s.status)) [
        | inl active ↦ absurd (ground (arith, e, h, other, awake, active))
        | inr idle ↦ elim (Bool-cases (restart_follows a name s.status s.exit_code)) [
          | inr stays ↦ inr (inr (idle, inl stays))
          | inl again ↦
              let blocked : are_deps_satisfiable a name cache ≡ false =
                ground (arith, e, h, other, awake, idle, again) in
              inr (inr (idle, inr (ended-unmet a name cache raw known blocked)))
        ]
      ]
    ]
  ]

  in_order_settled :
      (a : Actor T) (order : List String) (name : String)
      → all_settled a (some order) ≡ true
      → contains order name ≡ true
      → (cache : Map String Bool) × (is_service_settled a name cache ≡ true)
  unfolding all_settled IsSettling
  in_order_settled a order name h k = elim (Option-cases (lookup name (settle a order []))) [
    | inl none_there ↦ absurd (ground (arith, none_there, settle_covers a order [] name k))
    | inr (b, there) ↦
        settle-IsSettling a order [] (λ n p. absurd (unfold lookup in ground (arith, p))) name
          (ground (arith, there, all-values (settle a order []) name b h there))
  ]

  order_found :
      (a : Actor T) (r : Result DaemonError (List String))
      → all_settled a (elim r [ ok order ↦ some order | err e ↦ none ]) ≡ true
      → (order : List String) × (r ≡ ok order) × (all_settled a (some order) ≡ true)
  unfolding all_settled
  order_found a (ok order) h = (order, refl, h)
  order_found a (err e) h = absurd (ground (arith, h))

  module _ (partition_point : (String → Bool) → List String → ℕ) where
    -- The order that the actor has kept, if it has kept one, is the one of its config.
    abbrev pub HasOwnOrder : Actor T → Type 0
    HasOwnOrder a =
        (order : List String)
        → a.cached_topo_order ≡ some order
        → topological_sort partition_point a.config ≡ ok order

    order_of :
        (a : Actor T)
        → HasOwnOrder a
        → all_settled a (topo_order partition_point a) ≡ true
        → (order : List String) × (topological_sort partition_point a.config ≡ ok order)
          × (all_settled a (some order) ≡ true)
    unfolding topo_order computed_order get_start_order all_settled
    order_of a own h = elim (Option-cases a.cached_topo_order) [
      | inl fresh ↦
          order_found a (topological_sort partition_point a.config) (rw (fresh, topo_order) at h)
      | inr (order, kept) ↦ (order, own order kept, rw (kept, topo_order) at h)
    ]

    -- Computing the quiescence keeps the order of the config.
    pub compute_quiescence-HasOwnOrder :
        (a : Actor T) → HasOwnOrder a → HasOwnOrder (compute_quiescence partition_point a).1
    unfolding compute_quiescence topo_order computed_order get_start_order
    compute_quiescence-HasOwnOrder a own order e = elim (Option-cases a.cached_topo_order) [
      | inl fresh ↦
          found_order (topological_sort partition_point a.config) order
            (rw (fresh, topo_order) at e)
      | inr (old, kept) ↦ own order (kept ∙ (rw (kept, topo_order) at e))
    ]

    pub quiescent-IsQuiet :
        (a : Actor T) (name : String) (s : ServiceState T) (raw : RawServiceConfig)
        → HasOwnOrder a
        → (compute_quiescence partition_point a).0 ≡ true
        → lookup name a.config ≡ some raw
        → lookup name a.services ≡ some s
        → IsQuiet a name s
    unfolding compute_quiescence
    quiescent-IsQuiet a name s raw own h known e =
        let k : contains (keys a.config) name ≡ true = key_listed a.config name (rw known refl) in
        let (order, sorted, settled) = order_of a own h in
        let (_, _, names) = topological_sort-IsOrdered partition_point a.config order sorted in
        let (cache, done) = in_order_settled a order name settled (names name ∙ k) in
        settled-IsQuiet a name s cache raw known e done
