-- ===== src/Lib.antt =====
-- Kepler's daemon: which services start, in which order, when they restart, and who may ask for it.
--
-- The parts and their files:
--   Duration      kepler-daemon/src/config/duration.rs: `parse_duration`, `format_duration`; a
--                 duration is its nanoseconds.
--   Restart       kepler-daemon/src/config/restart.rs: `RestartPolicy` (Restart/Policy), the delays.
--   State         kepler-daemon/src/state.rs: `ServiceStatus`, `ServiceState`, their persisted forms.
--   Deps          kepler-daemon/src/config/deps.rs: what a service declares of its dependencies, and
--                 kepler-daemon/src/deps.rs: the conditions (Deps/Condition), the start order
--                 (Deps/Order), the start levels (Deps/Levels) and what one service needs
--                 (Deps/Levels/Needed).
--   Actor         kepler-daemon/src/config_actor/actor.rs: the actor of one config, with the fields of
--                 `ConfigActor` that the lifecycle of services uses. Actor/Signals computes Ready and
--                 Quiescent, Actor/Status is `set_service_status` and `update_health_check`,
--                 Actor/Commands has the handlers of the commands on the lifecycle, and
--                 Actor/Commands/Step composes them to `process_command`, for every command that changes
--                 these fields.
--   Access        kepler-daemon/src/permissions.rs, token_store.rs, auth.rs and acl.rs: rights,
--                 tokens, authentication and access control lists.
--   Query         kepler-daemon/src/query/dsl.rs: the query language. Query/Tokens is the tokenizer,
--                 Query/Parse the parser (with a printer for its round trip), Query/Sql the SQL with
--                 numbered parameters (Query/Sql/Template says what it promises). What the
--                 LIKE patterns match is up to SQLite and not modelled.
--   Logs          kepler-daemon/src/logs: the statements of the log reader (Logs, Logs/Reader; what its
--                 WHERE clause says is Logs/Conditions), structured log lines (Logs/Json), and the
--                 check of raw filters of kepler-daemon/src/query/filter.rs.
--   Monitor       kepler-daemon/src/monitor/query.rs: the statements of the queries for metrics.
--   Text, Prelude texts as lists of code points, decimal numbers, maps, integers, results.
--   Tests         the theorems at concrete data.
--
-- How they interact: the actor asks Deps/Condition whether a dependency is met and Deps/Order for the
-- order in which it settles services; a restart policy of Restart decides whether an ended service
-- comes back. The log reader puts the SQL of a query behind its own conditions, with the placeholders
-- shifted. Access is what a request passes before it reaches an actor.
--
-- Bounds and fuel: counters of the source keep their width (`% 2 ^ 32`, `% 2 ^ 64`). The loop of
-- `topological_sort` has fuel for one round more than there are services, which is enough, since every
-- round places another service. `compute_level` has one step more than there are services: its stack
-- holds each service once; `collect_deps` has two more, and adds a service in every step. The tokenizer and the loops of the parser have fuel for one round more
-- than there are characters or tokens, and each round takes one. Aliases of rights are resolved to the depth of the source.
--
-- Parameters: `partition_point` of the standard library on lists that are not partitioned, the
-- operations on `f64` and its parsing, time stamps (`timestamp`, `from_timestamp`), the databases of users and groups,
-- SQLite, JSON and dates.
--
-- Not modelled: processes and signals, files, SQLite, Lua, the wire protocol, the terminal client, the
-- orchestrator's asynchronous tasks; of the actor its event channels, token guards, snapshots and
-- handles of other tasks. A `HashMap` is iterated in the order of a list; what is proved holds for
-- every list.
pub mod Prelude
pub mod State
pub mod Text
pub mod Duration
pub mod Restart
pub mod Errors
pub mod Deps
pub mod Actor
pub mod Access
pub mod Query
pub mod Logs
pub mod Monitor
pub mod Tests
