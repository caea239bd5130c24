-- ===== src/Actor/Commands/Keeps.antt =====
-- Every command of kepler-daemon/src/config_actor/actor.rs keeps the actor consistent, and no
-- generation goes on by more than one in a command.
use kepler.Prelude.{
  ℕ, ◌≡◌, refl, sym, String, Bool, true, false, ◌&&◌, Option, none, some, List, if◌then◌else◌,
  arith, string_eq, Option-cases, Bool-cases, inl, inr, ◌==◌, is_some, any, opt_eq, nat_eq,
}
use mathlib.Core.Path.{subst}
use kepler.Prelude.Int.{ℤ}
use kepler.Prelude.Maps.{lookup, insert, remove, lookup-insert, lookup-remove, lookup-adjust}
use kepler.Prelude.Result.{Result, ok, err}
use kepler.Errors.{DaemonError}
use kepler.State.{ServiceStatus, ServiceState, waiting, restarting, is_running, is_active, as_str}
use kepler.Actor.{
  Actor, service_startup, wrapping_suc, is_startup_status, claim_startup, cancel_health_check,
  write_service, with_service, set_service_pid, record_process_exit, runs, is_health_check_current,
  save_state, abort,
}
use kepler.Actor.Signals.{is_waiting, check_and_notify_ready, compute_quiescence}
use kepler.Actor.Status.{
  set_service_status, update_health_check, HealthCheckUpdate, take_check, announce, differs,
}
use kepler.Actor.Frame.{
  Same, Same-refl, Same-trans, status_of, save_state-Same, if_Same, ready-Same, quiescent-Same,
  write_service-Same, announce-Same,
}
use kepler.Actor.Change.{set_service_status_known}
use kepler.Actor.Kept.{
  opt_test, IsConsistent, IsKept, IsKept-of_Same, IsKept-then_Same, Same-then-IsKept, status-IsKept,
  cancel-IsKept, tasks-IsKept, claim-IsKept, save_if_ok-Same,
}
use kepler.Actor.Commands.{
  RestartState, includes, save_if_ok, is_ok, check_quiescence, recheck_ready_quiescent,
  set_startup_in_progress, claim_service_start, claim_state, claim_service_restart,
  initialized_and_runs, is_eligible, claim_inactive_service_restart, transition_service_startup,
  set_service_status_with_reason, keep_or, register_service_instance, new_instance,
  begin_health_check, store_health_check_task, update_health_check_command, save_change,
  store_resolved_config,
}
use kepler.Actor.Commands.Step.{
  Command, process_command, initialize, count_restart, reset_restarts, check_quiescence_now,
  recheck, set_startup, claim_start, claim_restart, claim_inactive_restart, transition_startup,
  set_status_with_reason, set_status, set_skip_reason, set_fail_reason, set_pid, record_exit,
  register_instance, begin_check, store_check_task, update_check, mark_config_initialized,
  mark_service_initialized, increment_restart_count, reset_restart_count, store_config,
  store_process_handle, remove_process_handle, take_output_tasks, store_task_handle,
  cancel_task_handle, shutdown, clear_snapshot, merge_kepler_env, merge_kepler_flags,
}

take_check-runs :
    {T : Type 0} (passed : Bool) (retries : ℕ) (s : ServiceState T)
    → is_running s.status ≡ true
    → is_running (take_check passed retries s).status ≡ true
unfolding take_check is_running
take_check-runs passed retries s r = ground arith

starts_or_runs :
    (status : ServiceStatus) → is_running status ≡ true → is_startup_status status ≡ false
unfolding is_running
starts_or_runs status r = ground arith

waits_or_runs : (status : ServiceStatus) → is_running status ≡ true → is_waiting status ≡ false
unfolding is_running
waits_or_runs status r = ground arith

module _ {T : Type 0} where
  with_service-Same :
      (f : ServiceState T → ServiceState T) (a : Actor T) (name : String)
      → ((s : ServiceState T) → (f s).status ≡ s.status)
      → Same a (with_service f a name).1
  unfolding with_service
  with_service-Same f a name h = elim (Option-cases (lookup name a.services)) [
    | inl e ↦ rw (e, with_service) (Same-refl a)
    | inr (s, e) ↦ rw (e, with_service) (write_service-Same f a name h)
  ]

  module _ (partition_point : (String → Bool) → List String → ℕ) (timestamp : T → ℤ) (now : T)
      (a : Actor T) (c : IsConsistent a) where
    -- The service starts after it is set to a status in which services start.
    forced_starts :
        (name : String) (status : ServiceStatus) (old : ServiceState T)
        → lookup name a.services ≡ some old
        → is_startup_status status ≡ true
        → opt_test is_startup_status
            (status_of (set_service_status partition_point now a name status).1 name)
          ≡ true
    forced_starts name status old e p = ground (
      arith,
      (set_service_status_known partition_point now a name status old e).1.statuses name,
      p,
      string_eq.beq_iff name name,
    )

    forced_claim :
        (name : String) (status : ServiceStatus) (old : ServiceState T)
        → lookup name a.services ≡ some old
        → is_startup_status status ≡ true
        → IsKept a (claim_startup (set_service_status partition_point now a name status).1 name)
    forced_claim name status old e p =
        claim-IsKept a _ name (status-IsKept partition_point now a name status c)
          (forced_starts name status old e p)

    claim_state-IsKept :
        (name : String) (s : ServiceState T)
        → lookup name a.services ≡ some s
        → IsKept a (claim_state partition_point timestamp now a name (some s)).1
    unfolding claim_state
    claim_state-IsKept name s e = elim (Bool-cases (is_waiting s.status)) [
      | inl w ↦ elim (Bool-cases (is_some (lookup name a.startup_claims))) [
        | inl held ↦ rw (w, claim_state, held) (IsKept-of_Same a a c (Same-refl a))
        | inr free ↦
            rw (w, claim_state, free)
              (IsKept-then_Same a _ _
                (claim-IsKept a a name (IsKept-of_Same a a c (Same-refl a)) (ground (arith, e, w)))
                (save_state-Same timestamp now (claim_startup a name)))
      ]
      | inr w ↦ elim (Bool-cases (is_active s.status)) [
        | inl active ↦ rw (w, claim_state, active) (IsKept-of_Same a a c (Same-refl a))
        | inr ended ↦
            rw (w, claim_state, ended)
              (IsKept-then_Same a _ _ (forced_claim name waiting s e refl)
                (save_state-Same timestamp now _))
      ]
    ]

    pub claim_service_start-IsKept :
        (name : String) → IsKept a (claim_service_start partition_point timestamp now a name).1
    unfolding claim_service_start claim_state
    claim_service_start-IsKept name = elim (Option-cases (lookup name a.services)) [
      | inl e ↦ rw (e, claim_service_start) (IsKept-of_Same a a c (Same-refl a))
      | inr (s, e) ↦ rw (e, claim_service_start) (claim_state-IsKept name s e)
    ]

    claim_service_restart-IsKept :
        (name : String) → IsKept a (claim_service_restart partition_point timestamp now a name).1
    unfolding claim_service_restart initialized_and_runs
    claim_service_restart-IsKept name = elim (Option-cases (lookup name a.services)) [
      | inl e ↦ rw (e, claim_service_restart) (IsKept-of_Same a a c (Same-refl a))
      | inr (s, e) ↦ elim (Bool-cases (s.initialized && is_running s.status)) [
        | inl r ↦
            rw (e, claim_service_restart, r)
              (claim-IsKept a _ name
                (IsKept-then_Same a _ _ (status-IsKept partition_point now a name restarting c)
                  (save_state-Same timestamp now _))
                (unfold save_state in forced_starts name restarting s e refl))
        | inr r ↦ rw (e, claim_service_restart, r) (IsKept-of_Same a a c (Same-refl a))
      ]
    ]

    claim_inactive_service_restart-IsKept :
        (name : String) (states : List RestartState)
        → IsKept a (claim_inactive_service_restart partition_point timestamp now a name states).1
    unfolding claim_inactive_service_restart is_eligible
    claim_inactive_service_restart-IsKept name states =
        elim (Option-cases (lookup name a.services)) [
          | inl e ↦ rw (e, claim_inactive_service_restart) (IsKept-of_Same a a c (Same-refl a))
          | inr (s, e) ↦
              elim (Bool-cases
                (s.initialized && any (λ selected. includes selected (as_str s.status)) states)) [
                  | inl r ↦
                      rw (e, claim_inactive_service_restart, r)
                        (IsKept-then_Same a _ _ (forced_claim name waiting s e refl)
                          (save_state-Same timestamp now _))
                  | inr r ↦
                      rw (e, claim_inactive_service_restart, r) (IsKept-of_Same a a c (Same-refl a))
                ]
        ]

    -- Reasons are written before the status.
    reasons-IsKept :
        (f : ServiceState T → ServiceState T)
        → ((s : ServiceState T) → (f s).status ≡ s.status)
        → (name : String) (status : ServiceStatus)
        → IsKept a
            (save_if_ok timestamp now
              (set_service_status partition_point now (write_service f a name) name status)).1
    reasons-IsKept f h name status =
        let a1 = write_service f a name in
        let same = write_service-Same f a name h in
        Same-then-IsKept a a1 _ same (
          IsKept-then_Same a1 _ _
            (status-IsKept partition_point now a1 name status
              (IsKept-of_Same a a1 c same).consistent)
            (save_if_ok-Same timestamp now (set_service_status partition_point now a1 name status)))

    is_ok-actor :
        {A : Type 0} (r : Result DaemonError A × Actor T)
        → (is_ok partition_point timestamp now r).1 ≡ r.1
    is_ok-actor (ok v, b) = refl
    is_ok-actor (err e, b) = refl

    transition_service_startup-IsKept :
        (name : String) (startup : ℕ) (status : ServiceStatus)
        (skip_reason fail_reason : Option String)
        → IsKept a
            (transition_service_startup partition_point timestamp now a name startup status
              skip_reason fail_reason).1
    unfolding transition_service_startup
    transition_service_startup-IsKept name startup status skip_reason fail_reason =
        elim (Bool-cases (opt_eq (service_startup a name) (some startup))) [
          | inr stale ↦ rw (stale, transition_service_startup) (IsKept-of_Same a a c (Same-refl a))
          | inl now_current ↦
              rw (now_current, transition_service_startup)
                (subst (IsKept a)
                  (sym (
                    is_ok-actor (
                      save_if_ok timestamp now (
                        set_service_status partition_point now
                          (write_service
                            (λ s. record s { skip_reason = skip_reason; fail_reason = fail_reason })
                            a name)
                          name status))))
                  (reasons-IsKept
                    (λ s. record s { skip_reason = skip_reason; fail_reason = fail_reason })
                    (λ s. refl) name status))
        ]

    new_instance-IsKept :
        (name : String) (r : Result DaemonError Unit × Actor T)
        → Same a r.1
        → IsKept a (new_instance partition_point timestamp now name r).1
    unfolding new_instance
    new_instance-IsKept name (err e, b) same = IsKept-of_Same a b c same
    new_instance-IsKept name (ok _, b) same =
        let b1 = cancel_health_check b name in
        let instance_of = wrapping_suc b1.next_service_instance in
        let b2 : Actor T = record b1 {
          next_service_instance = instance_of;
          service_instances = insert name instance_of b1.service_instances;
        } in
        Same-then-IsKept a b _ same (
          IsKept-then_Same b b1 _ (cancel-IsKept b name (IsKept-of_Same a b c same).consistent) (
            Same-trans b1 b2 _ (unfold cancel_health_check in ground arith)
              (save_state-Same timestamp now b2)))

    register_service_instance-IsKept :
        (name : String) (pid : Option ℕ) (started_at : T)
        → IsKept a (register_service_instance partition_point timestamp now a name pid started_at).1
    unfolding register_service_instance
    register_service_instance-IsKept name pid started_at =
        new_instance-IsKept name (set_service_pid a name pid (some started_at)) (
          unfold set_service_pid in
          with_service-Same (λ s. record s { pid = pid; started_at = some started_at }) a name
            (λ s. refl))

    begin_health_check-IsKept :
        (name : String) (instance_of : ℕ)
        → IsKept a (begin_health_check partition_point timestamp now a name instance_of).1
    unfolding begin_health_check
    begin_health_check-IsKept name instance_of =
        elim (Bool-cases (
          opt_eq (lookup name a.service_instances) (some instance_of)
          && runs (lookup name a.services))) [
            | inr other ↦ rw (other, begin_health_check) (IsKept-of_Same a a c (Same-refl a))
            | inl here ↦
                rw (here, begin_health_check)
                  (unfold cancel_health_check in
                    record {
                      consistent = record {
                        current = c.current;
                        claimed = c.claimed;
                        checked = λ n s. ground (
                          arith,
                          here,
                          string_eq.beq_iff name n,
                          c.checked n s,
                          lookup-insert name n (wrapping_suc a.next_health_check)
                              (remove name a.health_check_sessions),
                          lookup-remove name n a.health_check_sessions,
                        );
                      };
                      advances = λ n. inl refl;
                      still_taken = λ n e t. t;
                    })
          ]

    store_health_check_task-IsKept :
        (name : String) (session handle : ℕ)
        → IsKept a (store_health_check_task partition_point timestamp now a name session handle)
    unfolding store_health_check_task
    store_health_check_task-IsKept name session handle =
        elim (Bool-cases (is_health_check_current a name session)) [
          | inr other ↦ rw (other, store_health_check_task) (IsKept-of_Same a _ c (ground arith))
          | inl here ↦
              rw (here, store_health_check_task)
                (tasks-IsKept a (insert name handle a.health_checks)
                  (abort (lookup name a.health_checks) a.aborted) c)
        ]

    checked-IsKept :
        (name : String) (passed : Bool) (retries : ℕ) (s : ServiceState T)
        → lookup name a.services ≡ some s
        → is_running s.status ≡ true
        → IsKept a (write_service (take_check passed retries) a name)
    checked-IsKept name passed retries s e runs_now =
        let status_after : (n : String)
            → status_of (write_service (take_check passed retries) a name) n
              ≡ (if name == n then some (take_check passed retries s).status else status_of a n) =
          λ n. ground (
            arith,
            e,
            lookup-adjust (take_check passed retries) name n a.services,
            string_eq.beq_iff name n,
          ) in
        let runs_after = take_check-runs passed retries s runs_now in
        record {
          consistent = record {
            current = c.current;
            claimed = λ n g. ground (
              arith,
              status_after n,
              c.claimed n g,
              e,
              runs_now,
              string_eq.beq_iff name n,
              starts_or_runs s.status,
            );
            checked = λ n x.
                ground (arith, status_after n, c.checked n x, runs_after, string_eq.beq_iff name n);
          };
          advances = λ n. inl refl;
          still_taken = λ n g t. ground (
            arith,
            status_after n,
            t,
            runs_after,
            string_eq.beq_iff name n,
            waits_or_runs (take_check passed retries s).status,
          );
        }

    update_health_check-IsKept :
        (name : String) (passed : Bool) (retries : ℕ) (s : ServiceState T)
        → lookup name a.services ≡ some s
        → is_running s.status ≡ true
        → IsKept a (update_health_check a name passed retries).1
    unfolding update_health_check
    update_health_check-IsKept name passed retries s e r =
        let a1 = write_service (take_check passed retries) a name in
        let a2 = announce name (take_check passed retries s).status a1 in
        rw (e, update_health_check)
          (IsKept-then_Same a a1 _ (checked-IsKept name passed retries s e r) (
            if_Same _ a1 (check_and_notify_ready a2) a1
              (Same-trans a1 a2 _ (announce-Same name _ a1) (ready-Same a2)) (Same-refl a1)))

    save_change-Same :
        (r : Result DaemonError HealthCheckUpdate × Actor T)
        → Same r.1 (save_change partition_point timestamp now r).1
    unfolding save_change
    save_change-Same (err e, b) = Same-refl b
    save_change-Same (ok u, b) =
        if_Same (differs u.previous_status u.new_status) b (save_state timestamp now b) b
          (save_state-Same timestamp now b) (Same-refl b)

    update_health_check_command-IsKept :
        (name : String) (session : ℕ) (passed : Bool) (retries : ℕ)
        → IsKept a
            (update_health_check_command partition_point timestamp now a name session passed
              retries).1
    unfolding update_health_check_command
    update_health_check_command-IsKept name session passed retries =
        elim (Bool-cases (is_health_check_current a name session)) [
          | inr other ↦ rw (other, update_health_check_command) (IsKept-of_Same a a c (Same-refl a))
          | inl here ↦ elim (Option-cases (lookup name a.services)) [
            | inl e ↦ absurd (unfold is_health_check_current in ground (arith, here, e))
            | inr (s, e) ↦
                rw (here, update_health_check_command)
                  (IsKept-then_Same a _ _
                    (update_health_check-IsKept name passed retries s e
                      (unfold is_health_check_current in ground (arith, here, e)))
                    (save_change-Same (update_health_check a name passed retries)))
          ]
        ]

    pub process_command-IsKept :
        (command : Command T) → IsKept a (process_command partition_point timestamp now a command)
    unfolding process_command
    process_command-IsKept check_quiescence_now =
        IsKept-of_Same a _ c (unfold check_quiescence compute_quiescence in ground arith)
    process_command-IsKept recheck = IsKept-of_Same a _ c (
        unfold recheck_ready_quiescent in
        Same-trans a (record a { last_ready = false; last_quiescent = false }) _ (ground arith)
          (Same-trans _
            (check_and_notify_ready (record a { last_ready = false; last_quiescent = false })) _
            (ready-Same _) (quiescent-Same partition_point _)))
    process_command-IsKept (set_startup in_progress) = IsKept-of_Same a _ c (
        unfold set_startup_in_progress in
        if_Same in_progress a _ _ (ground arith) (
          Same-trans a (record a { startup_in_progress = in_progress }) _ (ground arith)
            (Same-trans _ (check_and_notify_ready (record a { startup_in_progress = in_progress }))
              _ (ready-Same _) (quiescent-Same partition_point _))))
    process_command-IsKept (claim_start name) = claim_service_start-IsKept name
    process_command-IsKept (claim_restart name) = claim_service_restart-IsKept name
    process_command-IsKept (claim_inactive_restart name states) =
        claim_inactive_service_restart-IsKept name states
    process_command-IsKept (transition_startup name startup status skip_reason fail_reason) =
        transition_service_startup-IsKept name startup status skip_reason fail_reason
    process_command-IsKept (set_status_with_reason name status skip_reason fail_reason) =
        unfold set_service_status_with_reason in
        reasons-IsKept
          (λ s. record s {
            skip_reason = keep_or partition_point timestamp now skip_reason s.skip_reason;
            fail_reason = keep_or partition_point timestamp now fail_reason s.fail_reason;
          })
          (λ s. refl) name status
    process_command-IsKept (set_status name status) =
        IsKept-then_Same a _ _ (status-IsKept partition_point now a name status c)
          (save_if_ok-Same timestamp now (set_service_status partition_point now a name status))
    process_command-IsKept (set_skip_reason name reason) =
        IsKept-of_Same a _ c
          (write_service-Same (λ s. record s { skip_reason = some reason }) a name (λ s. refl))
    process_command-IsKept (set_fail_reason name reason) =
        IsKept-of_Same a _ c
          (write_service-Same (λ s. record s { fail_reason = some reason }) a name (λ s. refl))
    process_command-IsKept (set_pid name pid started_at) = IsKept-of_Same a _ c (
        Same-trans a _ _
          (unfold set_service_pid in
            with_service-Same (λ s. record s { pid = pid; started_at = started_at }) a name
              (λ s. refl))
          (save_if_ok-Same timestamp now (set_service_pid a name pid started_at)))
    process_command-IsKept (record_exit name exit_code signal) =
        IsKept-then_Same a _ _
          (unfold record_process_exit in
            IsKept-then_Same a _ _ (cancel-IsKept a name c) (
              Same-trans (cancel_health_check a name)
                (record (cancel_health_check a name) {
                  processes = remove name (cancel_health_check a name).processes;
                })
                _ (ground arith)
                (with_service-Same
                  (λ s. record s { exit_code = exit_code; signal = signal; pid = none }) _ name
                  (λ s. refl))))
          (save_if_ok-Same timestamp now (record_process_exit a name exit_code signal))
    process_command-IsKept (register_instance name pid started_at) =
        register_service_instance-IsKept name pid started_at
    process_command-IsKept (begin_check name instance_of) =
        begin_health_check-IsKept name instance_of
    process_command-IsKept (store_check_task name session handle) =
        store_health_check_task-IsKept name session handle
    process_command-IsKept (update_check name session passed retries) =
        update_health_check_command-IsKept name session passed retries
    process_command-IsKept mark_config_initialized =
        IsKept-of_Same a _ c (unfold save_state in ground arith)
    process_command-IsKept (mark_service_initialized name) = IsKept-of_Same a _ c (
        Same-trans a _ _ (with_service-Same initialize a name (λ s. refl))
          (save_if_ok-Same timestamp now (with_service initialize a name)))
    process_command-IsKept (increment_restart_count name) = IsKept-of_Same a _ c (
        Same-trans a _ _ (with_service-Same count_restart a name (λ s. refl))
          (save_if_ok-Same timestamp now (with_service count_restart a name)))
    process_command-IsKept (reset_restart_count name) = IsKept-of_Same a _ c (
        Same-trans a _ _ (with_service-Same reset_restarts a name (λ s. refl))
          (save_if_ok-Same timestamp now (with_service reset_restarts a name)))
    process_command-IsKept (store_config name config computed_env working_dir env_file_vars) =
        unfold store_resolved_config in
        IsKept-of_Same a _ c (
          Same-trans a
            (write_service
              (λ s. record s {
                computed_env = computed_env;
                working_dir = working_dir;
                env_file_vars = env_file_vars;
              })
              a name)
            _
            (write_service-Same
              (λ s. record s {
                computed_env = computed_env;
                working_dir = working_dir;
                env_file_vars = env_file_vars;
              })
              a name (λ s. refl))
            (ground arith))
    process_command-IsKept (store_process_handle name handle) = IsKept-of_Same a _ c (ground arith)
    process_command-IsKept (remove_process_handle name) = IsKept-of_Same a _ c (ground arith)
    process_command-IsKept (take_output_tasks name) = IsKept-of_Same a _ c (ground arith)
    process_command-IsKept (store_task_handle name handle) =
        tasks-IsKept a (insert name handle a.health_checks)
          (abort (lookup name a.health_checks) a.aborted) c
    process_command-IsKept (cancel_task_handle name) = cancel-IsKept a name c
    process_command-IsKept (shutdown clean) =
        IsKept-of_Same a _ c (if_Same clean a a _ (Same-refl a) (save_state-Same timestamp now a))
    process_command-IsKept (clear_snapshot cleared) =
        IsKept-of_Same a _ c (if_Same cleared a _ a (ground arith) (Same-refl a))
    process_command-IsKept merge_kepler_env = IsKept-of_Same a _ c (ground arith)
    process_command-IsKept merge_kepler_flags = IsKept-of_Same a _ c (ground arith)
