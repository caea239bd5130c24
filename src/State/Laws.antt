-- ===== src/State/Laws.antt =====
-- What of a service survives being written to disk and read back (state.rs).
use kepler.Prelude.{
  String, ◌≡◌, refl, ap, Option, none, some, true, arith, [], if◌then◌else◌, ◌==◌, string_eq,
}
use kepler.Prelude.Int.{ℤ}
use kepler.Prelude.Maps.{Map}
use kepler.State.{
  ServiceStatus, ServiceState, as_str, is_running, is_active, restore_status, persist_status,
  persist, to_service_state, map_opt, and_then,
}

-- Reading back a written status gives the status.
pub restore_status-persist_status : (s : ServiceStatus) → restore_status (persist_status s) ≡ s
unfolding restore_status persist_status
restore_status-persist_status ServiceStatus.stopped = refl
restore_status-persist_status _ = refl

-- The status behind a text.
status_of : String → Option ServiceStatus
status_of t =
    if t == "stopped"
    then some ServiceStatus.stopped
    else if t == "waiting"
    then some ServiceStatus.waiting
    else if t == "starting"
    then some ServiceStatus.starting
    else if t == "running"
    then some ServiceStatus.running
    else if t == "stopping"
    then some ServiceStatus.stopping
    else if t == "restarting"
    then some ServiceStatus.restarting
    else if t == "failed"
    then some ServiceStatus.failed
    else if t == "healthy"
    then some ServiceStatus.healthy
    else if t == "unhealthy"
    then some ServiceStatus.unhealthy
    else if t == "exited"
    then some ServiceStatus.exited
    else if t == "killed"
    then some ServiceStatus.killed
    else if t == "skipped"
    then some ServiceStatus.skipped
    else none

status_of-as_str : (s : ServiceStatus) → status_of (as_str s) ≡ some s
unfolding status_of as_str
status_of-as_str ServiceStatus.stopped = refl
status_of-as_str _ = refl

-- The statuses of a service are told apart by what a client is shown.
pub as_str-injective : (s t : ServiceStatus) → as_str s ≡ as_str t → s ≡ t
as_str-injective s t h = cc (status_of-as_str s, status_of-as_str t, ap status_of h)

-- A running service is active.
pub is_active_of_running : (s : ServiceStatus) → is_running s ≡ true → is_active s ≡ true
unfolding is_running is_active
is_active_of_running s h = ground arith

module _ {T : Type 0} (timestamp : T → ℤ) (from_timestamp : ℤ → Option T) (trunc : T → T)
    (reads_back : (t : T) → from_timestamp (timestamp t) ≡ some (trunc t)) where
  and_then-map_opt :
      (o : Option T) → and_then (map_opt timestamp o) from_timestamp ≡ map_opt trunc o
  and_then-map_opt none = refl
  and_then-map_opt (some t) = reads_back t

  -- A service written to disk and read back, with an environment and a directory given anew, is
  -- the service with the instants cut by `trunc`, and with three things gone: both restart counts
  -- are 0 again and the variables of the environment files are empty. Nothing else changes.
  pub to_service_state-persist :
      (s : ServiceState T) (env : Map String String) (dir : String)
      → to_service_state from_timestamp (persist timestamp s) env dir ≡ record s {
        started_at = map_opt trunc s.started_at;
        stopped_at = map_opt trunc s.stopped_at;
        restart_count = 0;
        restart_count_since_healthy = 0;
        computed_env = env;
        working_dir = dir;
        env_file_vars = [];
      }
  unfolding to_service_state persist
  to_service_state-persist s env dir = ground (
    arith,
    restore_status-persist_status s.status,
    and_then-map_opt s.started_at,
    and_then-map_opt s.stopped_at,
  )
