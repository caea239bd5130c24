-- ===== src/Actor/Commands/Step.antt =====
-- The commands that kepler-daemon/src/config_actor/actor.rs processes one after another, as a step
-- relation between actors. The replies are those of the functions of the handlers.
use kepler.Prelude.{
  ℕ, suc, ◌+◌, ◌%◌, ◌^◌, String, Bool, true, Option, none, some, List, [], if◌then◌else◌, string_eq,
}
use kepler.Prelude.Int.{ℤ}
use kepler.Prelude.Maps.{Map, lookup, insert, remove, adjust}
use kepler.State.{ServiceStatus, ServiceState}
use kepler.Actor.{
  Actor, ServiceConfig, ProcessHandle, with_service, write_service, set_service_pid,
  record_process_exit, save_state, cancel_health_check, abort,
}
use kepler.Actor.Status.{set_service_status}
use kepler.Actor.Commands.{
  RestartState, save_if_ok, check_quiescence, recheck_ready_quiescent, set_startup_in_progress,
  claim_service_start, claim_service_restart, claim_inactive_service_restart,
  transition_service_startup, set_service_status_with_reason, register_service_instance,
  begin_health_check, store_health_check_task, update_health_check_command, store_resolved_config,
}

-- The commands that change what `Actor` has of the actor, all of them. `ClearSnapshot` comes with
-- whether the persistence succeeded, and the merges of the environment and of the flags, which only
-- differ in fields that `Actor` has not, are without what they merge. Left out are the commands that
-- only read the actor, and those that only change its token guards, watchers, event channels,
-- subscribers, logs, monitor or snapshot.
pub data Command (T : Type 0) : Type 0 where
  check_quiescence_now recheck : Command T
  set_startup : Bool → Command T
  claim_start claim_restart : String → Command T
  claim_inactive_restart : String → List RestartState → Command T
  transition_startup :
      (name : String) (startup : ℕ)
      → ServiceStatus
      → (skip_reason fail_reason : Option String) → Command T
  set_status_with_reason :
      String → ServiceStatus → (skip_reason fail_reason : Option String) → Command T
  set_status : String → ServiceStatus → Command T
  set_skip_reason set_fail_reason : (name reason : String) → Command T
  set_pid : String → Option ℕ → Option T → Command T
  record_exit : String → (exit_code signal : Option ℤ) → Command T
  register_instance : String → Option ℕ → T → Command T
  begin_check : (name : String) (instance_of : ℕ) → Command T
  store_check_task : (name : String) (session handle : ℕ) → Command T
  update_check : (name : String) (session : ℕ) (passed : Bool) (retries : ℕ) → Command T
  mark_config_initialized : Command T
  mark_service_initialized increment_restart_count reset_restart_count : String → Command T
  store_config : String → ServiceConfig → Map String String → String → Map String String → Command T
  store_process_handle : String → ProcessHandle → Command T
  remove_process_handle take_output_tasks : String → Command T
  store_task_handle : (name : String) (handle : ℕ) → Command T
  cancel_task_handle : String → Command T
  shutdown : (clean : Bool) → Command T
  clear_snapshot : (cleared : Bool) → Command T
  merge_kepler_env merge_kepler_flags : Command T

-- `take` of both tasks of a process
abbrev pub take_tasks : ProcessHandle → ProcessHandle
take_tasks handle = record { stdout_task = none; stderr_task = none }

module _ {T : Type 0} where
  abbrev pub initialize : ServiceState T → ServiceState T
  initialize s = record s { initialized = true }

  -- Both counts are `u32`s, which wrap.
  abbrev pub count_restart : ServiceState T → ServiceState T
  count_restart s = record s {
    restart_count = (s.restart_count + 1) % 2 ^ 32;
    restart_count_since_healthy = (s.restart_count_since_healthy + 1) % 2 ^ 32;
  }

  abbrev pub reset_restarts : ServiceState T → ServiceState T
  reset_restarts s = record s { restart_count = 0; restart_count_since_healthy = 0 }

  -- `resolved_configs.clear()`
  abbrev pub clear_resolved : Actor T → Actor T
  clear_resolved a = record a { resolved_configs = [] }

  module _ (partition_point : (String → Bool) → List String → ℕ) (timestamp : T → ℤ) (now : T) where
    -- The actor after a command that is processed at the time `now`.
    unfoldable pub process_command : Actor T → Command T → Actor T
    unfolding check_quiescence recheck_ready_quiescent set_startup_in_progress claim_service_start
        claim_service_restart claim_inactive_service_restart transition_service_startup
        set_service_status_with_reason register_service_instance begin_health_check
        store_health_check_task update_health_check_command store_resolved_config with_service
        set_service_pid record_process_exit save_state set_service_status cancel_health_check
    process_command a check_quiescence_now = (check_quiescence partition_point timestamp now a).1
    process_command a recheck = recheck_ready_quiescent partition_point timestamp now a
    process_command a (set_startup in_progress) =
        set_startup_in_progress partition_point timestamp now in_progress a
    process_command a (claim_start name) =
        (claim_service_start partition_point timestamp now a name).1
    process_command a (claim_restart name) =
        (claim_service_restart partition_point timestamp now a name).1
    process_command a (claim_inactive_restart name states) =
        (claim_inactive_service_restart partition_point timestamp now a name states).1
    process_command a (transition_startup name startup status skip_reason fail_reason) =
        (transition_service_startup partition_point timestamp now a name startup status skip_reason
          fail_reason).1
    process_command a (set_status_with_reason name status skip_reason fail_reason) =
        (set_service_status_with_reason partition_point timestamp now a name status skip_reason
          fail_reason).1
    process_command a (set_status name status) =
        (save_if_ok timestamp now (set_service_status partition_point now a name status)).1
    process_command a (set_skip_reason name reason) =
        write_service (λ s. record s { skip_reason = some reason }) a name
    process_command a (set_fail_reason name reason) =
        write_service (λ s. record s { fail_reason = some reason }) a name
    process_command a (set_pid name pid started_at) =
        (save_if_ok timestamp now (set_service_pid a name pid started_at)).1
    process_command a (record_exit name exit_code signal) =
        (save_if_ok timestamp now (record_process_exit a name exit_code signal)).1
    process_command a (register_instance name pid started_at) =
        (register_service_instance partition_point timestamp now a name pid started_at).1
    process_command a (begin_check name instance_of) =
        (begin_health_check partition_point timestamp now a name instance_of).1
    process_command a (store_check_task name session handle) =
        store_health_check_task partition_point timestamp now a name session handle
    process_command a (update_check name session passed retries) =
        (update_health_check_command partition_point timestamp now a name session passed retries).1
    process_command a mark_config_initialized =
        save_state timestamp now (record a { initialized = true })
    process_command a (mark_service_initialized name) =
        (save_if_ok timestamp now (with_service initialize a name)).1
    process_command a (increment_restart_count name) =
        (save_if_ok timestamp now (with_service count_restart a name)).1
    process_command a (reset_restart_count name) =
        (save_if_ok timestamp now (with_service reset_restarts a name)).1
    process_command a (store_config name config computed_env working_dir env_file_vars) =
        store_resolved_config partition_point timestamp now a name config computed_env working_dir
          env_file_vars
    process_command a (store_process_handle name handle) = record a {
      processes = insert name handle a.processes;
    }
    process_command a (remove_process_handle name) = record a {
      processes = remove name a.processes;
    }
    process_command a (take_output_tasks name) = record a {
      processes = adjust take_tasks name a.processes;
    }
    process_command a (store_task_handle name handle) = record a {
      health_checks = insert name handle a.health_checks;
      aborted = abort (lookup name a.health_checks) a.aborted;
    }
    process_command a (cancel_task_handle name) = cancel_health_check a name
    process_command a (shutdown clean) = if clean then a else save_state timestamp now a
    process_command a (clear_snapshot cleared) = if cleared then clear_resolved a else a
    process_command a merge_kepler_env = clear_resolved a
    process_command a merge_kepler_flags = clear_resolved a

  -- Commands that are processed one after another, each at its time; how many there were.
  pub data Steps (partition_point : (String → Bool) → List String → ℕ) (timestamp : T → ℤ)
      : ℕ → Actor T → Actor T → Type 0 where
    start : {a : Actor T} → Steps partition_point timestamp 0 a a
    step :
        {n : ℕ} {a b : Actor T}
        → Steps partition_point timestamp n a b
        → (now : T) (command : Command T)
        → Steps partition_point timestamp
            (suc n)
            a
            (process_command partition_point timestamp now b command)
