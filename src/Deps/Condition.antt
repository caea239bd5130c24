-- ===== src/Deps/Condition.antt =====
-- The conditions of kepler-daemon/src/deps.rs: when a dependency lets its dependent start, when it
-- never will, and which failures some service handles.
pub mod Laws
use kepler.Prelude.{
  ℕ, String, Bool, true, false, not, ◌&&◌, ◌||◌, Option, none, some, List, [], ◌∷◌, if◌then◌else◌,
  any, unwrap_or, ◌==◌, string_eq,
}
use kepler.Prelude.Maps.{values}
use kepler.Prelude.Int.{ℤ, pos, negsuc, eqb_ℤ}
use kepler.State.{
  ServiceStatus, ServiceState, stopped, waiting, starting, running, stopping, restarting, failed,
  healthy, unhealthy, exited, killed, skipped,
}
use kepler.Restart.{
  RestartConfig, RestartPolicy, should_restart_on_exit, has, on_failure, on_success,
}
use kepler.Deps.{
  DependencyCondition, DependencyConfig, service_started, service_healthy,
  service_completed_successfully, service_unhealthy, service_failed, service_stopped,
  filter_matches, RawServiceConfig, Services, pairs,
}

abbrev is_skipped : ServiceStatus → Bool
is_skipped skipped = true
is_skipped _ = false

abbrev is_failed : ServiceStatus → Bool
is_failed failed = true
is_failed _ = false

abbrev is_stopped : ServiceStatus → Bool
is_stopped stopped = true
is_stopped _ = false

-- `exit_code == Some(0)`
abbrev pub is_zero : Option ℤ → Bool
is_zero none = false
is_zero (some code) = eqb_ℤ code (pos 0)

-- `restart_follows`
unfoldable pub restart_follows : ServiceStatus → Option ℤ → RestartConfig → Bool
restart_follows status exit_code r = not (is_failed status) && should_restart_on_exit r exit_code

abbrev is_exited_or_killed : ServiceStatus → Bool
is_exited_or_killed exited = true
is_exited_or_killed killed = true
is_exited_or_killed _ = false

-- `Stopped | Exited | Failed | Killed`
abbrev pub is_terminal : ServiceStatus → Bool
is_terminal stopped = true
is_terminal exited = true
is_terminal failed = true
is_terminal killed = true
is_terminal _ = false

-- The `match` of `is_condition_met`, on the status, the exit code, and whether the service was
-- healthy once.
unfoldable pub condition_holds :
    DependencyCondition → (matches : ℤ → Bool) → ServiceStatus → Option ℤ → Bool → Bool
condition_holds service_started matches running code was_healthy = true
condition_holds service_started matches healthy code was_healthy = true
condition_holds service_started matches unhealthy code was_healthy = true
condition_holds service_started matches _ code was_healthy = false
condition_holds service_healthy matches healthy code was_healthy = true
condition_holds service_healthy matches _ code was_healthy = false
condition_holds service_completed_successfully matches stopped code was_healthy = is_zero code
condition_holds service_completed_successfully matches exited code was_healthy = is_zero code
condition_holds service_completed_successfully matches _ code was_healthy = false
condition_holds service_unhealthy matches unhealthy code was_healthy = was_healthy
condition_holds service_unhealthy matches _ code was_healthy = false
condition_holds service_failed matches failed code was_healthy = matches (unwrap_or code (negsuc 0))
condition_holds service_failed matches killed code was_healthy = matches (unwrap_or code (negsuc 0))
condition_holds service_failed matches exited code was_healthy =
    not (is_zero code) && matches (unwrap_or code (negsuc 0))
condition_holds service_failed matches _ code was_healthy = false
condition_holds service_stopped matches stopped code was_healthy =
    matches (unwrap_or code (negsuc 0))
condition_holds service_stopped matches exited code was_healthy =
    matches (unwrap_or code (negsuc 0))
condition_holds service_stopped matches failed code was_healthy =
    matches (unwrap_or code (negsuc 0))
condition_holds service_stopped matches killed code was_healthy =
    matches (unwrap_or code (negsuc 0))
condition_holds service_stopped matches _ code was_healthy = false

module _ {T : Type 0} where
  unfoldable pub is_transient_satisfaction : ServiceState T → RestartConfig → Bool
  unfolding restart_follows
  is_transient_satisfaction s r =
      is_exited_or_killed s.status && restart_follows s.status s.exit_code r

  is_transient : ServiceState T → Option RestartConfig → Bool
  unfolding is_transient_satisfaction
  is_transient s none = false
  is_transient s (some r) = is_transient_satisfaction s r

  unfoldable pub is_condition_met : ServiceState T → DependencyConfig → Option RestartConfig → Bool
  unfolding is_transient condition_holds
  is_condition_met s dep r =
      if is_skipped s.status && dep.allow_skipped
      then true
      else if is_skipped s.status
      then false
      else if not (
          condition_holds dep.condition (filter_matches dep.exit_code) s.status s.exit_code
            s.was_healthy)
      then false
      else if is_transient s r
      then false
      else true

  -- `check_dependency_satisfied`, on the answer of `get_service_state`
  unfoldable pub check_dependency_satisfied : Option (ServiceState T) → DependencyConfig → Bool
  unfolding is_condition_met
  check_dependency_satisfied none dep = false
  check_dependency_satisfied (some s) dep = is_condition_met s dep none

  -- `is_dependency_permanently_unsatisfied`. The state is read once for the function and once for
  -- `check_dependency_satisfied`: `later` is the second answer.
  unfoldable pub is_dependency_permanently_unsatisfied :
      Option (ServiceState T)
      → (later : Option (ServiceState T)) → DependencyConfig
      → RestartConfig
      → Bool
  unfolding check_dependency_satisfied
  is_dependency_permanently_unsatisfied none later dep r = false
  is_dependency_permanently_unsatisfied (some s) later dep r =
      if is_skipped s.status
      then not dep.allow_skipped
      else if not (is_terminal s.status)
      then false
      else if check_dependency_satisfied later dep
      then false
      else is_stopped s.status || not (restart_follows s.status s.exit_code r)

-- The three reasons of `is_condition_unreachable_by_policy`, with the name that they show.
pub data Unreachable : Type 0 where
  never_failed never_stopped never_completed : String → Unreachable

unfoldable pub is_condition_unreachable_by_policy :
    String → DependencyCondition → RestartPolicy → Option Unreachable
unfolding has
is_condition_unreachable_by_policy dep service_failed p =
    if has p on_failure then some (never_failed dep) else none
is_condition_unreachable_by_policy dep service_stopped p =
    if has p on_failure && has p on_success then some (never_stopped dep) else none
is_condition_unreachable_by_policy dep service_completed_successfully p =
    if has p on_success then some (never_completed dep) else none
is_condition_unreachable_by_policy dep _ p = none

abbrev handles_failure : DependencyCondition → Bool
handles_failure service_failed = true
handles_failure service_stopped = true
handles_failure _ = false

handles : String → String × DependencyConfig → Bool
handles failed_service (name, dep) = name == failed_service && handles_failure dep.condition

service_handles : String → RawServiceConfig → Bool
unfolding handles any pairs
service_handles failed_service raw = any (handles failed_service) (pairs raw.depends_on)

unfoldable pub is_failure_handled : String → Services → Bool
unfolding service_handles
is_failure_handled failed_service services = any (service_handles failed_service) (values services)
