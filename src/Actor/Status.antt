-- ===== src/Actor/Status.antt =====
-- How kepler-daemon/src/config_actor/actor.rs changes the status of a service: `set_service_status`
-- and `update_health_check`.
use kepler.Prelude.{
  ℕ, ◌+◌, ◌%◌, ◌^◌, String, Bool, true, false, not, ◌&&◌, ◌||◌, Option, none, some, List,
  if◌then◌else◌, leb, string_eq,
}
use kepler.Prelude.Int.{ℤ, pos, eqb_ℤ}
use kepler.Prelude.Maps.{lookup, insert, remove}
use kepler.Prelude.Result.{Result, ok, err}
use kepler.Errors.{DaemonError, service_not_found}
use kepler.State.{
  ServiceStatus-discrete, ServiceStatus, ServiceState, stopped, waiting, starting, running,
  stopping, restarting, failed, healthy, unhealthy, exited, killed, skipped, is_running, is_active,
}
use kepler.Deps.Condition.{is_failure_handled}
use kepler.Actor.{
  Actor, ServiceStatusChange, status_change, unhandled_failure, wrapping_suc, is_startup_status,
  generation, cancel_health_check, notify_subscribers, notify_dep_watchers, write_service,
}
use kepler.Actor.Signals.{
  is_waiting, restart_follows, check_and_notify_ready, check_and_notify_quiescent,
}

-- Whether a service that goes from the second status to the first begins a new operation.
unfoldable pub invalidates : ServiceStatus → ServiceStatus → Bool
invalidates stopping _ = true
invalidates waiting waiting = false
invalidates waiting _ = true
invalidates restarting restarting = false
invalidates restarting _ = true
invalidates _ _ = false

-- `Starting | Running`
abbrev begins_run : ServiceStatus → Bool
begins_run starting = true
begins_run running = true
begins_run _ = false

-- `Stopped | Exited | Failed | Killed | Skipped`
abbrev pub is_ended : ServiceStatus → Bool
is_ended stopped = true
is_ended exited = true
is_ended failed = true
is_ended killed = true
is_ended skipped = true
is_ended _ = false

-- `exit_code.is_some_and(|c| c != 0)`
abbrev is_nonzero : Option ℤ → Bool
is_nonzero none = false
is_nonzero (some c) = not (eqb_ℤ c (pos 0))

unfoldable pub is_failure : ServiceStatus → Option ℤ → Bool
is_failure failed exit_code = true
is_failure killed exit_code = true
is_failure exited exit_code = is_nonzero exit_code
is_failure _ exit_code = false

-- `Starting` or `Restarting`
abbrev leaves_target : ServiceStatus → Bool
leaves_target starting = true
leaves_target restarting = true
leaves_target _ = false

module _ {T : Type 0} where
  clear_reasons : ServiceStatus → ServiceState T → ServiceState T
  clear_reasons status s =
      if is_startup_status status then record s { fail_reason = none; skip_reason = none } else s

  clear_run : ServiceStatus → ServiceState T → ServiceState T
  clear_run status s =
      if begins_run status
      then record s {
        was_healthy = false;
        health_check_failures = 0;
        stopped_at = none;
        signal = none;
        exit_code = none;
      }
      else s

  end_run : T → ServiceStatus → ServiceState T → ServiceState T
  end_run now status s =
      if is_ended status
      then record s { pid = none; started_at = none; stopped_at = some now }
      else s

  -- What `set_service_status` makes of the state of the service.
  unfoldable pub enter_status : T → ServiceStatus → ServiceState T → ServiceState T
  unfolding clear_reasons clear_run end_run
  enter_status now status s =
      record (end_run now status (clear_run status (clear_reasons status s))) { status = status }

  unfoldable pub advance_generation : String → Bool → Actor T → Actor T
  advance_generation name advances a =
      if advances
      then record a {
        startup_generations = insert name (wrapping_suc (generation a name)) a.startup_generations;
        startup_claims = remove name a.startup_claims;
      }
      else a

  unfoldable pub drop_claim : String → ServiceStatus → Actor T → Actor T
  drop_claim name status a =
      if is_startup_status status
      then a
      else record a { startup_claims = remove name a.startup_claims }

  exit_code_of : Option (ServiceState T) → Option ℤ
  exit_code_of none = none
  exit_code_of (some s) = s.exit_code

  unfoldable pub report_failure : String → ServiceStatus → Actor T → Actor T
  unfolding is_failure exit_code_of restart_follows is_failure_handled
  report_failure name status a =
      let exit_code = exit_code_of (lookup name a.services) in
      if is_failure status exit_code
        && (not (restart_follows a name status exit_code) && not (is_failure_handled name a.config))
      then notify_subscribers a (unhandled_failure name exit_code)
      else a

  unfoldable pub announce : String → ServiceStatus → Actor T → Actor T
  announce name status a =
      let change : ServiceStatusChange = record { service = name; status = status } in
      notify_subscribers (notify_dep_watchers a change) (status_change change)

  unfoldable pub reset_signals : ServiceStatus → Actor T → Actor T
  unfolding is_active
  reset_signals status a = record a {
    last_ready = if leaves_target status then false else a.last_ready;
    last_quiescent =
        if is_active status && not (is_waiting status) then false else a.last_quiescent;
  }

  -- The checks of a service that does not run are stopped before anything else.
  unfoldable pub stop_checks : String → ServiceStatus → Actor T → Actor T
  unfolding is_running cancel_health_check
  stop_checks name status a = if is_running status then a else cancel_health_check a name

  module _ (partition_point : (String → Bool) → List String → ℕ) where
    unfoldable pub send_signals : ServiceStatus → Actor T → Actor T
    unfolding is_active check_and_notify_ready check_and_notify_quiescent
    send_signals status a =
        let a1 = check_and_notify_ready a in
        if not (is_active status) || is_waiting status
        then check_and_notify_quiescent partition_point a1
        else a1

    -- The rest of `set_service_status` where the service, with the state `old`, is known.
    unfoldable pub change_status : T → String → ServiceStatus → ServiceState T → Actor T → Actor T
    unfolding advance_generation drop_claim enter_status announce report_failure reset_signals
        send_signals
    change_status now name status old a = send_signals status (
        reset_signals status (
          report_failure name status (
            announce name status (
              write_service (enter_status now status)
                (drop_claim name status (advance_generation name (invalidates status old.status) a))
                name))))

    unfoldable pub set_service_status :
        T → Actor T → String → ServiceStatus → Result DaemonError Unit × Actor T
    unfolding change_status stop_checks
    set_service_status now a name status =
        let a1 = stop_checks name status a in
        elim (lookup name a1.services) [
          | none ↦ (err (service_not_found name), a1)
          | some old ↦ (ok tt, change_status now name status old a1)
        ]

-- `HealthCheckUpdate` (config_actor/context.rs)
pub record HealthCheckUpdate : Type 0 where
  pub previous_status : ServiceStatus
  pub new_status : ServiceStatus
  pub failures : ℕ

abbrev is_running_or_unhealthy : ServiceStatus → Bool
is_running_or_unhealthy running = true
is_running_or_unhealthy unhealthy = true
is_running_or_unhealthy _ = false

abbrev is_unhealthy : ServiceStatus → Bool
is_unhealthy unhealthy = true
is_unhealthy _ = false

-- Whether the two statuses differ, where the second is that after a check of a service with the first.
abbrev pub differs : ServiceStatus → ServiceStatus → Bool
differs old new = elim (ServiceStatus-discrete old new) [ yes _ ↦ false | no _ ↦ true ]

module _ {T : Type 0} where
  pass_check : ServiceState T → ServiceState T
  pass_check s =
      if is_running_or_unhealthy s.status
      then record s {
        health_check_failures = 0;
        status = healthy;
        was_healthy = true;
        restart_count_since_healthy = 0;
      }
      else record s { health_check_failures = 0 }

  fail_check : ℕ → ServiceState T → ServiceState T
  fail_check retries s =
      let failures = (s.health_check_failures + 1) % 2 ^ 32 in
      if leb retries failures && not (is_unhealthy s.status)
      then record s { health_check_failures = failures; status = unhealthy }
      else record s { health_check_failures = failures }

  -- What `update_health_check` makes of the state of the service. The count is a `u32`, which wraps.
  unfoldable pub take_check : Bool → ℕ → ServiceState T → ServiceState T
  unfolding pass_check fail_check
  take_check passed retries s = if passed then pass_check s else fail_check retries s

  unfoldable pub update_health_check :
      Actor T → String → Bool → ℕ → Result DaemonError HealthCheckUpdate × Actor T
  unfolding take_check announce check_and_notify_ready
  update_health_check a name passed retries = elim (lookup name a.services) [
    | none ↦ (err (service_not_found name), a)
    | some s ↦
        let new = take_check passed retries s in
        let a1 = write_service (take_check passed retries) a name in
        (
          ok (record {
            previous_status = s.status;
            new_status = new.status;
            failures = new.health_check_failures;
          }),
          if differs s.status new.status
              then check_and_notify_ready (announce name new.status a1)
              else a1,
        )
  ]
