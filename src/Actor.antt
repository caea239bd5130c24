-- ===== src/Actor.antt =====
-- kepler-daemon/src/config_actor/actor.rs: the actor that owns the services of one config. Its state
-- is `Actor`; `T` is chrono's `DateTime<Utc>`. A task of a health check is a number, and `aborted`
-- holds those whose handle was aborted. `emitted` is what the subscribers of config events were
-- sent, `dep_notices` what the dependency watchers of a service were, `saved` what was last handed
-- to the persistence. Closed channels, which are pruned, are left out.
pub mod Signals
pub mod Status
pub mod Commands
pub mod Frame
pub mod Change
pub mod Kept
use kepler.Prelude.{
  ℕ, ◌+◌, ◌%◌, ◌^◌, String, Bool, true, false, not, ◌&&◌, Option, none, some, List, [], ◌∷◌, ◌++◌,
  if◌then◌else◌, unwrap_or, opt_eq, ◌==◌, string_eq, nat_eq,
}
use kepler.Prelude.Int.{ℤ}
use kepler.Prelude.Maps.{Map, lookup, insert, remove, adjust}
use kepler.Prelude.Result.{Result, ok, err}
use kepler.Errors.{DaemonError, service_not_found}
use kepler.State.{
  ServiceStatus, ServiceState, PersistedServiceState, persist, waiting, starting, running,
  restarting, healthy, unhealthy, is_running,
}
use kepler.Restart.{RestartConfig}
use kepler.Deps.{Services}

-- The field of `ServiceConfig` (config/mod.rs) that the actor reads.
pub record ServiceConfig : Type 0 where
  pub restart : RestartConfig

-- The output tasks of a `ProcessHandle` (state.rs).
pub record ProcessHandle : Type 0 where
  pub stdout_task : Option ℕ
  pub stderr_task : Option ℕ

pub record ServiceStatusChange : Type 0 where
  pub service : String
  pub status : ServiceStatus

pub data ConfigEvent : Type 0 where
  status_change : ServiceStatusChange → ConfigEvent
  ready : ConfigEvent
  quiescent : ConfigEvent
  unhandled_failure : String → Option ℤ → ConfigEvent

pub record PersistedConfigState : Type 0 where
  pub services : Map String PersistedServiceState
  pub config_initialized : Bool
  pub snapshot_time : ℤ
  pub owner_uid : Option ℕ

-- A `ServiceStartup`, a `ServiceInstance` and a `HealthCheckSession` are each their generation, a
-- `u64`.
pub record Actor (T : Type 0) : Type 0 where
  pub config : Services
  pub services : Map String (ServiceState T)
  pub startup_generations : Map String ℕ
  pub startup_claims : Map String ℕ
  pub initialized : Bool
  pub resolved_configs : Map String ServiceConfig
  pub processes : Map String ProcessHandle
  pub health_checks : Map String ℕ
  pub aborted : List ℕ
  pub service_instances : Map String ℕ
  pub next_service_instance : ℕ
  pub health_check_sessions : Map String ℕ
  pub next_health_check : ℕ
  pub owner_uid : Option ℕ
  pub last_ready : Bool
  pub last_quiescent : Bool
  pub startup_in_progress : Bool
  pub cached_topo_order : Option (List String)
  pub emitted : List ConfigEvent
  pub dep_notices : List ServiceStatusChange
  pub saved : Option PersistedConfigState

-- `wrapping_add(1)` of a `u64`
abbrev pub wrapping_suc : ℕ → ℕ
wrapping_suc n = (n + 1) % 2 ^ 64

-- `Waiting | Starting | Restarting`
abbrev pub is_startup_status : ServiceStatus → Bool
is_startup_status waiting = true
is_startup_status starting = true
is_startup_status restarting = true
is_startup_status _ = false

-- `handle.abort()`, where there is a handle
abbrev pub abort : Option ℕ → List ℕ → List ℕ
abort none aborted = aborted
abort (some task) aborted = aborted ++ task ∷ []

module _ {T : Type 0} where
  startup_of : Option (ServiceState T) → Option ℕ → Option ℕ
  startup_of none claim = none
  startup_of (some s) claim = if is_startup_status s.status then claim else none

  unfoldable pub service_startup : Actor T → String → Option ℕ
  unfolding startup_of
  service_startup a name = startup_of (lookup name a.services) (lookup name a.startup_claims)

  abbrev pub generation : Actor T → String → ℕ
  generation a name = unwrap_or (lookup name a.startup_generations) 0

  -- `claim_startup`: the actor after it. What it returns is `generation a name`.
  unfoldable pub claim_startup : Actor T → String → Actor T
  claim_startup a name = record a {
    startup_claims = insert name (generation a name) a.startup_claims;
  }

  unfoldable pub cancel_health_check : Actor T → String → Actor T
  cancel_health_check a name = record a {
    health_check_sessions = remove name a.health_check_sessions;
    health_checks = remove name a.health_checks;
    aborted = abort (lookup name a.health_checks) a.aborted;
  }

  -- `self.services.get(name).is_some_and(|state| state.status.is_running())`
  abbrev pub runs : Option (ServiceState T) → Bool
  runs none = false
  runs (some s) = is_running s.status

  unfoldable pub is_health_check_current : Actor T → String → ℕ → Bool
  unfolding is_running
  is_health_check_current a name session =
      opt_eq (lookup name a.health_check_sessions) (some session) && runs (lookup name a.services)

  -- `services.get_mut(name).ok_or(ServiceNotFound)?`, a write, `Ok(())`
  unfoldable pub with_service :
      (ServiceState T → ServiceState T) → Actor T → String → Result DaemonError Unit × Actor T
  with_service f a name = elim (lookup name a.services) [
    | none ↦ (err (service_not_found name), a)
    | some s ↦ (ok tt, record a { services = adjust f name a.services })
  ]

  -- `if let Some(state) = self.services.get_mut(name)`, and a write
  abbrev pub write_service : (ServiceState T → ServiceState T) → Actor T → String → Actor T
  write_service f a name = record a { services = adjust f name a.services }

  unfoldable pub set_service_pid :
      Actor T → String → Option ℕ → Option T → Result DaemonError Unit × Actor T
  unfolding with_service
  set_service_pid a name pid started_at =
      with_service (λ s. record s { pid = pid; started_at = started_at }) a name

  unfoldable pub record_process_exit :
      Actor T → String → Option ℤ → Option ℤ → Result DaemonError Unit × Actor T
  unfolding with_service cancel_health_check
  record_process_exit a name exit_code signal =
      let a1 = cancel_health_check a name in
      with_service (λ s. record s { exit_code = exit_code; signal = signal; pid = none })
        (record a1 { processes = remove name a1.processes }) name

  abbrev pub notify_subscribers : Actor T → ConfigEvent → Actor T
  notify_subscribers a e = record a { emitted = a.emitted ++ e ∷ [] }

  abbrev pub notify_dep_watchers : Actor T → ServiceStatusChange → Actor T
  notify_dep_watchers a change = record a { dep_notices = a.dep_notices ++ change ∷ [] }

  persist_all : (T → ℤ) → Map String (ServiceState T) → Map String PersistedServiceState
  persist_all timestamp [] = []
  persist_all timestamp ((name, s) ∷ m) = (name, persist timestamp s) ∷ persist_all timestamp m

  -- `save_state` at the time `now`; an error of the persistence is ignored by every caller
  unfoldable pub save_state : (T → ℤ) → T → Actor T → Actor T
  unfolding persist_all
  save_state timestamp now a = record a {
    saved = some (record {
      services = persist_all timestamp a.services;
      config_initialized = a.initialized;
      snapshot_time = timestamp now;
      owner_uid = a.owner_uid;
    });
  }
