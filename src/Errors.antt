-- ===== src/Errors.antt =====
-- kepler-daemon/src/errors.rs: the errors that the modelled code returns. `DependencyCycle` and
-- `Internal` hold the names that the source formats into their texts.
use kepler.Prelude.{String, List}

pub data DaemonError : Type 0 where
  service_not_found : String → DaemonError
  missing_dependency : (service dependency : String) → DaemonError
  dependency_cycle : List String → DaemonError
  internal : (service dependency : String) → DaemonError
