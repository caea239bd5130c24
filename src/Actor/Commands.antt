-- ===== src/Actor/Commands.antt =====
-- `process_command` of kepler-daemon/src/config_actor/actor.rs, for the commands
-- (config_actor/command.rs) that read or change the lifecycle of a service; each gives the reply and
-- the actor after it. `RestartState` is from kepler-protocol/src/protocol.rs.
pub mod Step
pub mod Keeps
pub mod Startup
pub mod Quiescence
use kepler.Prelude.{
  ℕ, ◌+◌, ◌%◌, ◌^◌, String, Bool, true, false, not, ◌&&◌, ◌||◌, Option, none, some, List, [], ◌∷◌,
  ◌++◌, if◌then◌else◌, all, any, opt_eq, is_some, ◌==◌, string_eq, nat_eq,
}
use kepler.Prelude.Int.{ℤ}
use kepler.Prelude.Maps.{Map, keys, values, lookup, insert, remove, adjust}
use kepler.Prelude.Result.{Result, ok, err}
use kepler.Errors.{DaemonError, service_not_found}
use kepler.State.{ServiceStatus, ServiceState, waiting, restarting, is_running, is_active, as_str}
use kepler.Actor.{
  Actor, ServiceConfig, ProcessHandle, service_startup, generation, claim_startup,
  cancel_health_check, runs, is_health_check_current, with_service, write_service, set_service_pid,
  record_process_exit, save_state, abort, wrapping_suc,
}
use kepler.Actor.Signals.{
  compute_ready, compute_quiescence, check_and_notify_ready, check_and_notify_quiescent, is_waiting,
}
use kepler.Actor.Status.{set_service_status, update_health_check, HealthCheckUpdate, differs}

pub data RestartState : Type 0 where
  stopped exited failed killed all_states : RestartState

unfoldable pub includes : RestartState → String → Bool
includes stopped status = status == "stopped"
includes exited status = status == "exited"
includes failed status = status == "failed"
includes killed status = status == "killed"
includes all_states status =
    (status == "stopped" || status == "exited") || (status == "failed" || status == "killed")

module _ {T : Type 0} where
  -- `if result.is_ok() { save_state }`
  abbrev pub save_if_ok :
      {A : Type 0} → (T → ℤ) → T → Result DaemonError A × Actor T → Result DaemonError A × Actor T
  save_if_ok timestamp now (ok v, a) = (ok v, save_state timestamp now a)
  save_if_ok timestamp now (err e, a) = (err e, a)

  unfoldable pub all_services_stopped : Actor T → Bool
  unfolding all is_running
  all_services_stopped a = all (λ s. not (is_running s.status)) (values a.services)

  module _ (partition_point : (String → Bool) → List String → ℕ) (timestamp : T → ℤ) (now : T) where
    -- `let _ = self.set_service_status(...)`
    abbrev pub force_status : Actor T → String → ServiceStatus → Actor T
    force_status a name status = (set_service_status partition_point now a name status).1

    unfoldable pub check_quiescence : Actor T → Bool × Actor T
    unfolding compute_quiescence
    check_quiescence a =
        if a.startup_in_progress then (false, a) else compute_quiescence partition_point a

    unfoldable pub check_readiness : Actor T → Bool
    unfolding compute_ready
    check_readiness a = if a.startup_in_progress then false else compute_ready a

    unfoldable pub recheck_ready_quiescent : Actor T → Actor T
    unfolding check_and_notify_ready check_and_notify_quiescent
    recheck_ready_quiescent a =
        check_and_notify_quiescent partition_point
          (check_and_notify_ready (record a { last_ready = false; last_quiescent = false }))

    unfoldable pub set_startup_in_progress : Bool → Actor T → Actor T
    unfolding check_and_notify_ready check_and_notify_quiescent
    set_startup_in_progress in_progress a =
        let a1 = record a { startup_in_progress = in_progress } in
        if in_progress
        then a1
        else check_and_notify_quiescent partition_point (check_and_notify_ready a1)

    -- The token for the new claim, and the actor that holds it.
    abbrev pub claim : Actor T → String → Option ℕ × Actor T
    claim a name = (some (generation a name), claim_startup a name)

    -- A claim, saved.
    abbrev saved_claim : Actor T → String → Option ℕ × Actor T
    saved_claim a name = (some (generation a name), save_state timestamp now (claim_startup a name))

    claim_state : Actor T → String → Option (ServiceState T) → Option ℕ × Actor T
    unfolding is_active claim_startup set_service_status save_state
    claim_state a name none = (none, a)
    claim_state a name (some s) =
        if is_waiting s.status
        then (if is_some (lookup name a.startup_claims) then (none, a) else saved_claim a name)
        else if not (is_active s.status)
        then saved_claim (force_status a name waiting) name
        else (none, a)

    unfoldable pub claim_service_start : Actor T → String → Option ℕ × Actor T
    unfolding claim_state
    claim_service_start a name = claim_state a name (lookup name a.services)

    initialized_and_runs : Option (ServiceState T) → Bool
    unfolding is_running
    initialized_and_runs none = false
    initialized_and_runs (some s) = s.initialized && is_running s.status

    unfoldable pub claim_service_restart : Actor T → String → Option ℕ × Actor T
    unfolding initialized_and_runs claim_startup set_service_status save_state
    claim_service_restart a name =
        if initialized_and_runs (lookup name a.services)
        then claim (save_state timestamp now (force_status a name restarting)) name
        else (none, a)

    is_eligible : List RestartState → Option (ServiceState T) → Bool
    unfolding any includes as_str
    is_eligible states none = false
    is_eligible states (some s) =
        s.initialized && any (λ selected. includes selected (as_str s.status)) states

    unfoldable pub claim_inactive_service_restart :
        Actor T → String → List RestartState → Option ℕ × Actor T
    unfolding is_eligible claim_startup set_service_status save_state
    claim_inactive_service_restart a name states =
        if is_eligible states (lookup name a.services)
        then saved_claim (force_status a name waiting) name
        else (none, a)

    abbrev pub is_ok : {A : Type 0} → Result DaemonError A × Actor T → Bool × Actor T
    is_ok (ok v, a) = (true, a)
    is_ok (err e, a) = (false, a)

    unfoldable pub transition_service_startup :
        Actor T
        → String
        → (startup : ℕ) → ServiceStatus
        → (skip_reason fail_reason : Option String) → Bool × Actor T
    unfolding service_startup set_service_status save_state
    transition_service_startup a name startup status skip_reason fail_reason =
        if opt_eq (service_startup a name) (some startup)
        then is_ok (
            save_if_ok timestamp now (
              set_service_status partition_point now
                (write_service
                  (λ s. record s { skip_reason = skip_reason; fail_reason = fail_reason }) a name)
                name status))
        else (false, a)

    keep_or : Option String → Option String → Option String
    keep_or none old = old
    keep_or (some reason) old = some reason

    unfoldable pub set_service_status_with_reason :
        Actor T
        → String
        → ServiceStatus
        → (skip_reason fail_reason : Option String) → Result DaemonError Unit × Actor T
    unfolding keep_or set_service_status save_state
    set_service_status_with_reason a name status skip_reason fail_reason =
        save_if_ok timestamp now (
          set_service_status partition_point now
            (write_service
              (λ s. record s {
                skip_reason = keep_or skip_reason s.skip_reason;
                fail_reason = keep_or fail_reason s.fail_reason;
              })
              a name)
            name status)

    -- The new instance of the service, after `set_service_pid`.
    new_instance : String → Result DaemonError Unit × Actor T → Result DaemonError ℕ × Actor T
    unfolding cancel_health_check save_state
    new_instance name (err e, a) = (err e, a)
    new_instance name (ok _, a) =
        let a1 = cancel_health_check a name in
        let instance_of = wrapping_suc a1.next_service_instance in
        (
          ok instance_of,
          save_state timestamp now (record a1 {
            next_service_instance = instance_of;
            service_instances = insert name instance_of a1.service_instances;
          }),
        )

    unfoldable pub register_service_instance :
        Actor T → String → Option ℕ → T → Result DaemonError ℕ × Actor T
    unfolding new_instance set_service_pid
    register_service_instance a name pid started_at =
        new_instance name (set_service_pid a name pid (some started_at))

    unfoldable pub begin_health_check : Actor T → String → (instance_of : ℕ) → Option ℕ × Actor T
    unfolding cancel_health_check is_running
    begin_health_check a name instance_of =
        if opt_eq (lookup name a.service_instances) (some instance_of)
          && runs (lookup name a.services)
        then (let a1 = cancel_health_check a name in
            let session = wrapping_suc a1.next_health_check in
            (
              some session,
              record a1 {
                next_health_check = session;
                health_check_sessions = insert name session a1.health_check_sessions;
              },
            ))
        else (none, a)

    unfoldable pub store_health_check_task : Actor T → String → (session handle : ℕ) → Actor T
    unfolding is_health_check_current
    store_health_check_task a name session handle =
        if is_health_check_current a name session
        then record a {
          health_checks = insert name handle a.health_checks;
          aborted = abort (lookup name a.health_checks) a.aborted;
        }
        else record a { aborted = a.aborted ++ handle ∷ [] }

    save_change :
        Result DaemonError HealthCheckUpdate × Actor T
        → Result DaemonError (Option HealthCheckUpdate) × Actor T
    unfolding save_state
    save_change (err e, a) = (err e, a)
    save_change (ok u, a) = (
      ok (some u),
      if differs u.previous_status u.new_status then save_state timestamp now a else a,
    )

    unfoldable pub update_health_check_command :
        Actor T
        → String
        → (session : ℕ) → Bool
        → ℕ
        → Result DaemonError (Option HealthCheckUpdate) × Actor T
    unfolding save_change is_health_check_current update_health_check
    update_health_check_command a name session passed retries =
        if is_health_check_current a name session
        then save_change (update_health_check a name passed retries)
        else (ok none, a)

    unfoldable pub store_resolved_config :
        Actor T → String → ServiceConfig → Map String String → String → Map String String → Actor T
    store_resolved_config a name config computed_env working_dir env_file_vars =
        let a1 =
          write_service
            (λ s. record s {
              computed_env = computed_env;
              working_dir = working_dir;
              env_file_vars = env_file_vars;
            })
            a name in
        record a1 { resolved_configs = insert name config a1.resolved_configs }
