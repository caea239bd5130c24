-- ===== src/State.antt =====
-- kepler-daemon/src/state.rs: the status and the state of a service, what a client is shown of it
-- (`ServiceInfo`, kepler-protocol/src/protocol.rs), and what is written to disk. `T` stands for
-- chrono's `DateTime<Utc>`, with its `timestamp` and `from_timestamp` as arguments.
pub mod Laws
use kepler.Prelude.{ℕ, String, Bool, true, false, not, Option, none, some, [], List}
use kepler.Prelude.Int.{ℤ}
use kepler.Prelude.Maps.{Map}
use mathlib.Core.Option

pub data ServiceStatus : Type 0 where
  stopped waiting starting running stopping restarting failed healthy unhealthy exited killed
        skipped :
      ServiceStatus

pub ServiceStatus-discrete : Discrete ServiceStatus
ServiceStatus-discrete = hlevel

unfoldable pub as_str : ServiceStatus → String
as_str stopped = "stopped"
as_str waiting = "waiting"
as_str starting = "starting"
as_str running = "running"
as_str stopping = "stopping"
as_str restarting = "restarting"
as_str failed = "failed"
as_str healthy = "healthy"
as_str unhealthy = "unhealthy"
as_str exited = "exited"
as_str killed = "killed"
as_str skipped = "skipped"

unfoldable pub is_running : ServiceStatus → Bool
is_running running = true
is_running healthy = true
is_running unhealthy = true
is_running _ = false

unfoldable pub is_active : ServiceStatus → Bool
is_active stopped = false
is_active failed = false
is_active exited = false
is_active killed = false
is_active skipped = false
is_active _ = true

pub record ServiceState (T : Type 0) : Type 0 where
  pub status : ServiceStatus
  pub pid : Option ℕ  -- u32
  pub started_at : Option T
  pub stopped_at : Option T
  pub exit_code : Option ℤ  -- i32
  pub signal : Option ℤ  -- i32
  pub health_check_failures : ℕ  -- u32
  pub restart_count : ℕ  -- u32
  pub restart_count_since_healthy : ℕ  -- u32
  pub initialized : Bool
  pub computed_env : Map String String
  pub working_dir : String
  pub env_file_vars : Map String String
  pub was_healthy : Bool
  pub skip_reason : Option String
  pub fail_reason : Option String

-- `ServiceState::default`
unfoldable pub default_state : (T : Type 0) → ServiceState T
default_state T = record {
  status = stopped;
  pid = none;
  started_at = none;
  stopped_at = none;
  exit_code = none;
  signal = none;
  health_check_failures = 0;
  restart_count = 0;
  restart_count_since_healthy = 0;
  initialized = false;
  computed_env = [];
  working_dir = "";
  env_file_vars = [];
  was_healthy = false;
  skip_reason = none;
  fail_reason = none;
}

pub record ServiceInfo : Type 0 where
  pub status : String
  pub pid : Option ℕ
  pub started_at : Option ℤ
  pub stopped_at : Option ℤ
  pub health_check_failures : ℕ
  pub restart_count : ℕ
  pub exit_code : Option ℤ
  pub signal : Option ℤ
  pub initialized : Bool
  pub skip_reason : Option String
  pub fail_reason : Option String

pub data PersistedServiceStatus : Type 0 where
  stopped waiting starting running stopping restarting failed healthy unhealthy exited killed
        skipped :
      PersistedServiceStatus

pub record PersistedServiceState : Type 0 where
  pub status : PersistedServiceStatus
  pub pid : Option ℕ
  pub started_at : Option ℤ
  pub stopped_at : Option ℤ
  pub exit_code : Option ℤ
  pub signal : Option ℤ
  pub health_check_failures : ℕ
  pub restart_count : ℕ
  pub restart_count_since_healthy : ℕ
  pub initialized : Bool
  pub was_healthy : Bool
  pub skip_reason : Option String
  pub fail_reason : Option String

-- `From<ServiceStatus> for PersistedServiceStatus`
unfoldable pub persist_status : ServiceStatus → PersistedServiceStatus
persist_status ServiceStatus.stopped = PersistedServiceStatus.stopped
persist_status ServiceStatus.waiting = PersistedServiceStatus.waiting
persist_status ServiceStatus.starting = PersistedServiceStatus.starting
persist_status ServiceStatus.running = PersistedServiceStatus.running
persist_status ServiceStatus.stopping = PersistedServiceStatus.stopping
persist_status ServiceStatus.restarting = PersistedServiceStatus.restarting
persist_status ServiceStatus.failed = PersistedServiceStatus.failed
persist_status ServiceStatus.healthy = PersistedServiceStatus.healthy
persist_status ServiceStatus.unhealthy = PersistedServiceStatus.unhealthy
persist_status ServiceStatus.exited = PersistedServiceStatus.exited
persist_status ServiceStatus.killed = PersistedServiceStatus.killed
persist_status ServiceStatus.skipped = PersistedServiceStatus.skipped

-- `From<PersistedServiceStatus> for ServiceStatus`
unfoldable pub restore_status : PersistedServiceStatus → ServiceStatus
restore_status PersistedServiceStatus.stopped = ServiceStatus.stopped
restore_status PersistedServiceStatus.waiting = ServiceStatus.waiting
restore_status PersistedServiceStatus.starting = ServiceStatus.starting
restore_status PersistedServiceStatus.running = ServiceStatus.running
restore_status PersistedServiceStatus.stopping = ServiceStatus.stopping
restore_status PersistedServiceStatus.restarting = ServiceStatus.restarting
restore_status PersistedServiceStatus.failed = ServiceStatus.failed
restore_status PersistedServiceStatus.healthy = ServiceStatus.healthy
restore_status PersistedServiceStatus.unhealthy = ServiceStatus.unhealthy
restore_status PersistedServiceStatus.exited = ServiceStatus.exited
restore_status PersistedServiceStatus.killed = ServiceStatus.killed
restore_status PersistedServiceStatus.skipped = ServiceStatus.skipped

-- `opt.and_then(f)`
abbrev pub and_then {ℓ} : {A B : Type ℓ} → Option A → (A → Option B) → Option B
and_then none f = none
and_then (some a) f = f a

-- `opt.map(f)`
abbrev pub map_opt {ℓ} : {A B : Type ℓ} → (A → B) → Option A → Option B
map_opt f none = none
map_opt f (some a) = some (f a)

module _ {T : Type 0} where
  -- `From<&ServiceState> for ServiceInfo`, and `to_service_info`
  unfoldable pub to_service_info : (T → ℤ) → ServiceState T → ServiceInfo
  to_service_info timestamp state = record {
    status = as_str state.status;
    pid = state.pid;
    started_at = map_opt timestamp state.started_at;
    stopped_at = map_opt timestamp state.stopped_at;
    health_check_failures = state.health_check_failures;
    restart_count = state.restart_count;
    exit_code = state.exit_code;
    signal = state.signal;
    initialized = state.initialized;
    skip_reason = state.skip_reason;
    fail_reason = state.fail_reason;
  }

  -- `From<&ServiceState> for PersistedServiceState`
  unfoldable pub persist : (T → ℤ) → ServiceState T → PersistedServiceState
  unfolding persist_status
  persist timestamp state = record {
    status = persist_status state.status;
    pid = state.pid;
    started_at = map_opt timestamp state.started_at;
    stopped_at = map_opt timestamp state.stopped_at;
    exit_code = state.exit_code;
    signal = state.signal;
    health_check_failures = state.health_check_failures;
    restart_count = state.restart_count;
    restart_count_since_healthy = state.restart_count_since_healthy;
    initialized = state.initialized;
    was_healthy = state.was_healthy;
    skip_reason = state.skip_reason;
    fail_reason = state.fail_reason;
  }

  -- `PersistedServiceState::to_service_state`; `from_timestamp ts` is `from_timestamp(ts, 0)`
  unfoldable pub to_service_state :
      (ℤ → Option T) → PersistedServiceState → Map String String → String → ServiceState T
  unfolding restore_status
  to_service_state from_timestamp p computed_env working_dir = record {
    status = restore_status p.status;
    pid = p.pid;
    started_at = and_then p.started_at from_timestamp;
    stopped_at = and_then p.stopped_at from_timestamp;
    exit_code = p.exit_code;
    signal = p.signal;
    health_check_failures = p.health_check_failures;
    restart_count = 0;
    restart_count_since_healthy = 0;
    initialized = p.initialized;
    computed_env = computed_env;
    working_dir = working_dir;
    env_file_vars = [];
    was_healthy = p.was_healthy;
    skip_reason = p.skip_reason;
    fail_reason = p.fail_reason;
  }
