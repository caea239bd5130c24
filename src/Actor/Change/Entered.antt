-- ===== src/Actor/Change/Entered.antt =====
-- What `set_service_status` of kepler-daemon/src/config_actor/actor.rs writes, told by the names of the
-- statuses.
use kepler.Prelude.{
  ℕ, ◌≡◌, refl, ◌∙◌, ap, String, Bool, false, not, ◌&&◌, ◌||◌, none, some, List, [], ◌∷◌,
  if◌then◌else◌, arith, contains, string_eq, ◌==◌, Bool-cases, inl, inr,
}
use kepler.Prelude.Maps.{lookup, adjust, lookup-adjust}
use kepler.Prelude.Result.{ok}
use kepler.State.{
  ServiceStatus, ServiceState, as_str, stopped, waiting, starting, running, stopping, restarting,
  failed, healthy, unhealthy, exited, killed, skipped, is_running, is_active,
}
use kepler.Actor.{Actor, write_service, generation, wrapping_suc, is_startup_status}
use kepler.Actor.Signals.{
  is_waiting, check_and_notify_ready, check_and_notify_quiescent, compute_quiescence,
}
use kepler.Actor.Status.{
  invalidates, enter_status, advance_generation, drop_claim, announce, report_failure,
  reset_signals, send_signals, change_status, set_service_status, stop_checks,
}
use kepler.Actor.Change.{set_service_status_known, stop_checks-services}

-- A change of status begins a new operation.
abbrev pub begins_anew : (old new : String) → Bool
begins_anew old new =
    new == "stopping" || contains ("waiting" ∷ "restarting" ∷ []) new && not (old == new)

abbrev pub starts_up : String → Bool
starts_up status = contains ("waiting" ∷ "starting" ∷ "restarting" ∷ []) status

abbrev pub runs_now : String → Bool
runs_now status = contains ("running" ∷ "healthy" ∷ "unhealthy" ∷ []) status

abbrev pub enters_run : String → Bool
enters_run status = contains ("starting" ∷ "running" ∷ []) status

abbrev pub is_over : String → Bool
is_over status = contains ("stopped" ∷ "exited" ∷ "failed" ∷ "killed" ∷ "skipped" ∷ []) status

invalidates-begins_anew :
    (status old : ServiceStatus) → invalidates status old ≡ begins_anew (as_str old) (as_str status)
unfolding invalidates as_str contains
invalidates-begins_anew stopped old = refl
invalidates-begins_anew waiting stopped = refl
invalidates-begins_anew waiting waiting = refl
invalidates-begins_anew waiting starting = refl
invalidates-begins_anew waiting running = refl
invalidates-begins_anew waiting stopping = refl
invalidates-begins_anew waiting restarting = refl
invalidates-begins_anew waiting failed = refl
invalidates-begins_anew waiting healthy = refl
invalidates-begins_anew waiting unhealthy = refl
invalidates-begins_anew waiting exited = refl
invalidates-begins_anew waiting killed = refl
invalidates-begins_anew waiting skipped = refl
invalidates-begins_anew starting old = refl
invalidates-begins_anew running old = refl
invalidates-begins_anew stopping old = refl
invalidates-begins_anew restarting stopped = refl
invalidates-begins_anew restarting waiting = refl
invalidates-begins_anew restarting starting = refl
invalidates-begins_anew restarting running = refl
invalidates-begins_anew restarting stopping = refl
invalidates-begins_anew restarting restarting = refl
invalidates-begins_anew restarting failed = refl
invalidates-begins_anew restarting healthy = refl
invalidates-begins_anew restarting unhealthy = refl
invalidates-begins_anew restarting exited = refl
invalidates-begins_anew restarting killed = refl
invalidates-begins_anew restarting skipped = refl
invalidates-begins_anew failed old = refl
invalidates-begins_anew healthy old = refl
invalidates-begins_anew unhealthy old = refl
invalidates-begins_anew exited old = refl
invalidates-begins_anew killed old = refl
invalidates-begins_anew skipped old = refl

is_startup_status-starts_up :
    (status : ServiceStatus) → is_startup_status status ≡ starts_up (as_str status)
unfolding as_str contains
is_startup_status-starts_up stopped = refl
is_startup_status-starts_up waiting = refl
is_startup_status-starts_up starting = refl
is_startup_status-starts_up running = refl
is_startup_status-starts_up stopping = refl
is_startup_status-starts_up restarting = refl
is_startup_status-starts_up failed = refl
is_startup_status-starts_up healthy = refl
is_startup_status-starts_up unhealthy = refl
is_startup_status-starts_up exited = refl
is_startup_status-starts_up killed = refl
is_startup_status-starts_up skipped = refl

is_running-runs_now : (status : ServiceStatus) → is_running status ≡ runs_now (as_str status)
unfolding is_running as_str contains
is_running-runs_now stopped = refl
is_running-runs_now waiting = refl
is_running-runs_now starting = refl
is_running-runs_now running = refl
is_running-runs_now stopping = refl
is_running-runs_now restarting = refl
is_running-runs_now failed = refl
is_running-runs_now healthy = refl
is_running-runs_now unhealthy = refl
is_running-runs_now exited = refl
is_running-runs_now killed = refl
is_running-runs_now skipped = refl

module _ {T : Type 0} where
  -- The state of a service that was `old` and enters a status. An ended service has no process and a
  -- stop time, one whose run begins has no result of the last run, one that starts up has no reason.
  abbrev pub entered : T → ServiceStatus → ServiceState T → ServiceState T
  entered now status old =
      let name = as_str status in
      record old {
        status = status;
        pid = if is_over name then none else old.pid;
        started_at = if is_over name then none else old.started_at;
        stopped_at =
            if is_over name then some now else if enters_run name then none else old.stopped_at;
        exit_code = if enters_run name then none else old.exit_code;
        signal = if enters_run name then none else old.signal;
        was_healthy = if enters_run name then false else old.was_healthy;
        health_check_failures = if enters_run name then 0 else old.health_check_failures;
        fail_reason = if starts_up name then none else old.fail_reason;
        skip_reason = if starts_up name then none else old.skip_reason;
      }

  enter_status-entered :
      (now : T) (status : ServiceStatus) (old : ServiceState T)
      → enter_status now status old ≡ entered now status old
  unfolding enter_status as_str contains
  enter_status-entered now stopped old = refl
  enter_status-entered now waiting old = refl
  enter_status-entered now starting old = refl
  enter_status-entered now running old = refl
  enter_status-entered now stopping old = refl
  enter_status-entered now restarting old = refl
  enter_status-entered now failed old = refl
  enter_status-entered now healthy old = refl
  enter_status-entered now unhealthy old = refl
  enter_status-entered now exited old = refl
  enter_status-entered now killed old = refl
  enter_status-entered now skipped old = refl

  module _ (partition_point : (String → Bool) → List String → ℕ) where
    ready-services : (a : Actor T) → (check_and_notify_ready a).services ≡ a.services
    unfolding check_and_notify_ready
    ready-services a = ground arith

    quiescent-services :
        (a : Actor T) → (check_and_notify_quiescent partition_point a).services ≡ a.services
    unfolding check_and_notify_quiescent compute_quiescence
    quiescent-services a = ground arith

    send_signals-services :
        (status : ServiceStatus) (a : Actor T)
        → (send_signals partition_point status a).services ≡ a.services
    unfolding send_signals
    send_signals-services status a =
        elim (Bool-cases (not (is_active status) || is_waiting status)) [
          | inl both ↦
              rw (both, send_signals)
                (quiescent-services (check_and_notify_ready a) ∙ ready-services a)
          | inr one ↦ rw (one, send_signals) (ready-services a)
        ]

    report_failure-services :
        (name : String) (status : ServiceStatus) (a : Actor T)
        → (report_failure name status a).services ≡ a.services
    unfolding report_failure
    report_failure-services name status a = ground arith

    dropped-services :
        (name : String) (status : ServiceStatus) (advances : Bool) (a : Actor T)
        → (drop_claim name status (advance_generation name advances a)).services ≡ a.services
    unfolding drop_claim advance_generation
    dropped-services name status advances a = ground arith

    change_status-services :
        (now : T) (name : String) (status : ServiceStatus) (old : ServiceState T) (a : Actor T)
        → (change_status partition_point now name status old a).services
          ≡ (write_service (enter_status now status) a name).services
    unfolding change_status announce reset_signals
    change_status-services now name status old a =
        let dropped =
          drop_claim name status (advance_generation name (invalidates status old.status) a) in
        let told = announce name status (write_service (enter_status now status) dropped name) in
        send_signals-services status (reset_signals status (report_failure name status told))
        ∙ report_failure-services name status told
        ∙ ap (adjust (enter_status now status) name)
            (dropped-services name status (invalidates status old.status) a)

  -- On a service that the actor knows, `set_service_status` succeeds. The state of the service becomes
  -- the one that is entered, and every other service keeps its state. The generation of the service
  -- goes on by one exactly where a new operation begins: when it is stopping, or goes to waiting or
  -- restarting from another status. Its claim stays exactly where that is not so and the service
  -- starts up, and its health checks stay exactly where it runs. Every other service keeps its
  -- generation, claim and health checks.
  pub set_service_status-entered :
      (partition_point : (String → Bool) → List String → ℕ) (now : T) (a : Actor T) (name : String)
      (status : ServiceStatus) (old : ServiceState T)
      → lookup name a.services ≡ some old
      → let b = (set_service_status partition_point now a name status).1 in
        let anew = begins_anew (as_str old.status) (as_str status) in
        ((set_service_status partition_point now a name status).0 ≡ ok tt)
        × ((n : String)
            → lookup n b.services
              ≡ (if name == n then some (entered now status old) else lookup n a.services))
        × ((n : String)
            → generation b n
              ≡ (if name == n && anew then wrapping_suc (generation a n) else generation a n))
        × ((n : String)
            → lookup n b.startup_claims ≡ (
                if name == n && (anew || not (starts_up (as_str status)))
                then none
                else lookup n a.startup_claims))
        × ((n : String)
            → (lookup n b.health_check_sessions ≡ (
                if name == n && not (runs_now (as_str status))
                then none
                else lookup n a.health_check_sessions))
              × (lookup n b.health_checks ≡ (
                  if name == n && not (runs_now (as_str status))
                  then none
                  else lookup n a.health_checks)))
  unfolding set_service_status
  set_service_status-entered partition_point now a name status old e =
      let (done, moved) = set_service_status_known partition_point now a name status old e in
      let a1 = stop_checks name status a in
      let kept = stop_checks-services name status a in
      let e1 : lookup name a1.services ≡ some old = rw kept e in
      let written : (set_service_status partition_point now a name status).1.services
          ≡ (write_service (enter_status now status) a1 name).services =
        rw (e1, set_service_status)
          (change_status-services partition_point now name status old a1) in
      let anew = invalidates-begins_anew status old.status in
      (
        done,
        λ n. ground (
          arith,
          ap (lookup n) written,
          ap (lookup n) kept,
          e1,
          lookup-adjust (enter_status now status) name n a1.services,
          string_eq.beq_iff name n,
          enter_status-entered now status old,
        ),
        λ n. rw (← anew) (moved.generations n),
        λ n. rw (← anew, ← is_startup_status-starts_up status) (moved.claims n),
        λ n. rw (← is_running-runs_now status) ((moved.sessions n, moved.tasks n)),
      )
