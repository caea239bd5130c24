-- ===== src/Actor/Signals.antt =====
-- The signals of kepler-daemon/src/config_actor/actor.rs: when the services of a config are ready,
-- when they are settled, and what subscribers are told of it.
pub mod Laws
use kepler.Prelude.{
  ℕ, String, Bool, true, false, not, ◌&&◌, ◌||◌, Option, none, some, List, [], ◌∷◌, ◌++◌,
  if◌then◌else◌, all, unwrap_or, string_eq,
}
use kepler.Prelude.Int.{ℤ}
use kepler.Prelude.Maps.{Map, keys, values, lookup, insert}
use kepler.Prelude.Result.{Result, ok, err}
use kepler.Errors.{DaemonError}
use kepler.State.{
  ServiceStatus, ServiceState, stopped, waiting, starting, running, stopping, restarting, failed,
  healthy, unhealthy, exited, killed, skipped, is_running, is_active,
}
use kepler.Restart.{RestartConfig}
use kepler.Deps.{
  Services, RawServiceConfig, DependencyConfig, pairs, static_restart, has_healthcheck,
}
use kepler.Deps.Condition.{restart_follows as policy_follows, is_condition_met}
use kepler.Deps.Order.{get_start_order}
use kepler.Actor.{Actor, ServiceConfig, ready, quiescent, notify_subscribers}

abbrev pub is_waiting : ServiceStatus → Bool
is_waiting waiting = true
is_waiting _ = false

abbrev pub is_starting : ServiceStatus → Bool
is_starting starting = true
is_starting _ = false

abbrev pub is_stopped : ServiceStatus → Bool
is_stopped stopped = true
is_stopped _ = false

abbrev pub is_skipped : ServiceStatus → Bool
is_skipped skipped = true
is_skipped _ = false

-- `Healthy` or `Unhealthy`
abbrev is_resolved : ServiceStatus → Bool
is_resolved healthy = true
is_resolved unhealthy = true
is_resolved _ = false

-- `Starting`, `Waiting` or `Stopping`
abbrev is_settling : ServiceStatus → Bool
is_settling starting = true
is_settling waiting = true
is_settling stopping = true
is_settling _ = false

-- `Exited`, `Killed` or `Failed`
abbrev ended : ServiceStatus → Bool
ended exited = true
ended killed = true
ended failed = true
ended _ = false

runs_ready : ServiceStatus → Option RawServiceConfig → Bool
runs_ready status none = true
runs_ready status (some raw) = if has_healthcheck raw then is_resolved status else true

abbrev is_settled : Map String Bool → String → Bool
is_settled cache name = unwrap_or (lookup name cache) false

-- `get_start_order(services).ok()`
computed_order : ((String → Bool) → List String → ℕ) → Services → Option (List String)
computed_order partition_point services = elim (get_start_order partition_point services) [
  | ok order ↦ some order
  | err e ↦ none
]

module _ {T : Type 0} where
  -- The restart policy of a service: that of the resolved config, or of the raw one.
  unfoldable pub restart_config : Actor T → String → Option RestartConfig
  unfolding static_restart
  restart_config a name = elim (lookup name a.resolved_configs) [
    | some rc ↦ some rc.restart
    | none ↦ elim (lookup name a.config) [ some raw ↦ some (static_restart raw) | none ↦ none ]
  ]

  unfoldable pub restart_follows : Actor T → String → ServiceStatus → Option ℤ → Bool
  unfolding restart_config
  restart_follows a name status exit_code = elim (restart_config a name) [
    | some r ↦ policy_follows status exit_code r
    | none ↦ false
  ]

  unfoldable pub is_condition_satisfied_sync : Actor T → String → DependencyConfig → Bool
  unfolding restart_config is_condition_met
  is_condition_satisfied_sync a dep_name dep = elim (lookup dep_name a.services) [
    | none ↦ false
    | some s ↦ is_condition_met s dep (restart_config a dep_name)
  ]

  still_settling : Actor T → String → Option (ServiceState T) → Bool
  unfolding restart_follows
  still_settling a dep_name none = false
  still_settling a dep_name (some s) =
      is_settling s.status || (ended s.status && restart_follows a dep_name s.status s.exit_code)

  -- The loop over the dependencies of a waiting service. The flag is `has_unsatisfied_stable_dep`.
  deferred : Actor T → List (String × DependencyConfig) → Bool → Bool
  unfolding is_condition_satisfied_sync still_settling
  deferred a [] stable = stable
  deferred a ((dep_name, dep) ∷ deps) stable = elim (is_condition_satisfied_sync a dep_name dep) [
    | true ↦ deferred a deps stable
    | false ↦ elim (still_settling a dep_name (lookup dep_name a.services)) [
      | true ↦ false
      | false ↦ deferred a deps true
    ]
  ]

  waits_ready : Actor T → Option RawServiceConfig → Bool
  unfolding deferred
  waits_ready a none = false
  waits_ready a (some raw) = deferred a (pairs raw.depends_on) false

  unfoldable pub is_service_ready : Actor T → String → Bool
  unfolding waits_ready runs_ready is_active is_running
  is_service_ready a name = elim (lookup name a.services) [
    | none ↦ true
    | some s ↦
        if is_stopped s.status
        then false
        else if not (is_active s.status)
        then true
        else if is_running s.status
        then runs_ready s.status (lookup name a.config)
        else if is_starting s.status
        then false
        else if is_waiting s.status
        then waits_ready a (lookup name a.config)
        else false
  ]

  unfoldable pub compute_ready : Actor T → Bool
  unfolding is_service_ready all
  compute_ready a = all (is_service_ready a) (keys a.config)

  -- The loop of `is_service_settled` over the dependencies of a waiting service.
  blocked_for_good : Actor T → Map String Bool → List (String × DependencyConfig) → Bool → Bool
  unfolding is_condition_satisfied_sync
  blocked_for_good a cache [] found = found
  blocked_for_good a cache ((dep_name, dep) ∷ deps) found =
      elim (is_condition_satisfied_sync a dep_name dep) [
        | true ↦ blocked_for_good a cache deps found
        | false ↦ elim (is_settled cache dep_name) [
          | false ↦ false
          | true ↦ blocked_for_good a cache deps true
        ]
      ]

  waits_settled : Actor T → Map String Bool → Option RawServiceConfig → Bool
  unfolding blocked_for_good
  waits_settled a cache none = false
  waits_settled a cache (some raw) = blocked_for_good a cache (pairs raw.depends_on) false

  all_satisfiable : Actor T → Map String Bool → List (String × DependencyConfig) → Bool
  unfolding is_condition_satisfied_sync
  all_satisfiable a cache [] = true
  all_satisfiable a cache ((dep_name, dep) ∷ deps) =
      let rest = all_satisfiable a cache deps in
      if is_condition_satisfied_sync a dep_name dep
      then rest
      else elim (lookup dep_name a.services) [
        | none ↦ false
        | some s ↦
            if is_skipped s.status && not dep.allow_skipped
            then false
            else if is_settled cache dep_name
            then false
            else rest
      ]

  unfoldable pub are_deps_satisfiable : Actor T → String → Map String Bool → Bool
  unfolding all_satisfiable
  are_deps_satisfiable a name cache = elim (lookup name a.config) [
    | none ↦ false
    | some raw ↦ all_satisfiable a cache (pairs raw.depends_on)
  ]

  unfoldable pub is_service_settled : Actor T → String → Map String Bool → Bool
  unfolding waits_settled are_deps_satisfiable restart_follows is_active
  is_service_settled a name cache = elim (lookup name a.services) [
    | none ↦ true
    | some s ↦
        if is_skipped s.status
        then true
        else if is_waiting s.status
        then waits_settled a cache (lookup name a.config)
        else if is_active s.status
        then false
        else if not (restart_follows a name s.status s.exit_code)
        then true
        else not (are_deps_satisfiable a name cache)
  ]

  settle : Actor T → List String → Map String Bool → Map String Bool
  unfolding is_service_settled
  settle a [] cache = cache
  settle a (name ∷ order) cache =
      settle a order (insert name (is_service_settled a name cache) cache)

  all_settled : Actor T → Option (List String) → Bool
  unfolding settle all
  all_settled a none = false
  all_settled a (some order) = all (λ b. b) (values (settle a order []))

  module _ (partition_point : (String → Bool) → List String → ℕ) where
    -- The order that the actor has kept, or that it computes now.
    unfoldable pub topo_order : Actor T → Option (List String)
    unfolding computed_order
    topo_order a = elim a.cached_topo_order [
      | some order ↦ some order
      | none ↦ computed_order partition_point a.config
    ]

    -- The answer, and the actor with the order kept.
    unfoldable pub compute_quiescence : Actor T → Bool × Actor T
    unfolding topo_order all_settled
    compute_quiescence a =
        (all_settled a (topo_order a), record a { cached_topo_order = topo_order a })

    unfoldable pub check_and_notify_quiescent : Actor T → Actor T
    unfolding compute_quiescence
    check_and_notify_quiescent a =
        if a.startup_in_progress
        then a
        else (let (q, a1) = compute_quiescence a in
            if q && not a1.last_quiescent
            then notify_subscribers (record a1 { last_quiescent = true }) quiescent
            else a1)

  unfoldable pub check_and_notify_ready : Actor T → Actor T
  unfolding compute_ready
  check_and_notify_ready a =
      if a.startup_in_progress
      then a
      else if compute_ready a && not a.last_ready
      then notify_subscribers (record a { last_ready = true }) ready
      else a
