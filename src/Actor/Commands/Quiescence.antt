-- ===== src/Actor/Commands/Quiescence.antt =====
-- The order that the actor of kepler-daemon/src/config_actor/actor.rs keeps is that of its config, over
-- any sequence of commands, and what Quiescent then means.
use kepler.Prelude.{
  ℕ, ◌≡◌, refl, sym, ◌∙◌, String, Bool, true, false, not, ◌&&◌, ◌||◌, Option, none, some, List,
  arith, Bool-cases, Option-cases, inl, inr, if◌then◌else◌, is_some, opt_eq, string_eq, nat_eq,
}
use kepler.Prelude.Int.{ℤ}
use kepler.Prelude.Maps.{lookup}
use kepler.Prelude.Result.{Result, ok, err}
use kepler.Errors.{DaemonError}
use kepler.State.{ServiceStatus, ServiceState, waiting, restarting, is_active}
use kepler.Deps.{RawServiceConfig}
use kepler.Actor.{
  Actor, claim_startup, cancel_health_check, with_service, write_service, set_service_pid,
  record_process_exit, save_state, service_startup, is_health_check_current, runs,
}
use kepler.Actor.Signals.{
  is_waiting, check_and_notify_ready, check_and_notify_quiescent, compute_quiescence,
}
use kepler.Actor.Signals.Laws.{
  HasOwnOrder, IsQuiet, compute_quiescence-HasOwnOrder, quiescent-IsQuiet,
}
use kepler.Actor.Status.{
  invalidates, advance_generation, drop_claim, announce, report_failure, reset_signals,
  send_signals, change_status, set_service_status, stop_checks, enter_status, update_health_check,
  HealthCheckUpdate, differs,
}
use kepler.Actor.Commands.{
  save_if_ok, is_ok, check_quiescence, recheck_ready_quiescent, set_startup_in_progress,
  claim_service_start, claim_state, claim_service_restart, initialized_and_runs, is_eligible,
  claim_inactive_service_restart, transition_service_startup, set_service_status_with_reason,
  register_service_instance, new_instance, begin_health_check, store_health_check_task,
  update_health_check_command, save_change, store_resolved_config,
}
use kepler.Actor.Commands.Step.{
  Command, Steps, start, step, process_command, initialize, count_restart, reset_restarts,
  check_quiescence_now, recheck, set_startup, claim_start, claim_restart, claim_inactive_restart,
  transition_startup, set_status_with_reason, set_status, set_skip_reason, set_fail_reason, set_pid,
  record_exit, register_instance, begin_check, store_check_task, update_check,
  mark_config_initialized, mark_service_initialized, increment_restart_count, reset_restart_count,
  store_config, store_process_handle, remove_process_handle, take_output_tasks, store_task_handle,
  cancel_task_handle, shutdown, clear_snapshot, merge_kepler_env, merge_kepler_flags,
}

module _ {T : Type 0} where
  -- The config and the kept order are the same.
  pub record SameOrder (a b : Actor T) : Type 0 where
    config : b.config ≡ a.config
    kept : b.cached_topo_order ≡ a.cached_topo_order

  SameOrder-refl : (a : Actor T) → SameOrder a a
  SameOrder-refl a = record { config = refl; kept = refl }

  SameOrder-trans : (a b c : Actor T) → SameOrder a b → SameOrder b c → SameOrder a c
  SameOrder-trans a b c h k = record { config = k.config ∙ h.config; kept = k.kept ∙ h.kept }

  save_state-SameOrder :
      (timestamp : T → ℤ) (now : T) (a : Actor T) → SameOrder a (save_state timestamp now a)
  unfolding save_state
  save_state-SameOrder timestamp now a = record { config = refl; kept = refl }

  save_if_ok-SameOrder :
      {A : Type 0} (timestamp : T → ℤ) (now : T) (r : Result DaemonError A × Actor T)
      → SameOrder r.1 (save_if_ok timestamp now r).1
  save_if_ok-SameOrder timestamp now (ok v, a) = save_state-SameOrder timestamp now a
  save_if_ok-SameOrder timestamp now (err e, a) = SameOrder-refl a

  with_service-SameOrder :
      (f : ServiceState T → ServiceState T) (a : Actor T) (name : String)
      → SameOrder a (with_service f a name).1
  unfolding with_service
  with_service-SameOrder f a name = elim (Option-cases (lookup name a.services)) [
    | inl e ↦ rw (e, with_service) (SameOrder-refl a)
    | inr (s, e) ↦ rw (e, with_service) (record { config = refl; kept = refl })
  ]

  ready-SameOrder : (a : Actor T) → SameOrder a (check_and_notify_ready a)
  unfolding check_and_notify_ready
  ready-SameOrder a = ground arith

  module _ (partition_point : (String → Bool) → List String → ℕ) where
    -- What keeps the order of the config.
    KeepsOrder : Actor T → Actor T → Type 0
    KeepsOrder a b = HasOwnOrder partition_point a → HasOwnOrder partition_point b

    same : (a b : Actor T) → SameOrder a b → KeepsOrder a b
    unfolding KeepsOrder
    same a b h own order e = rw (h.config) (own order (sym h.kept ∙ e))

    quiescence-KeepsOrder : (a : Actor T) → KeepsOrder a (compute_quiescence partition_point a).1
    unfolding KeepsOrder
    quiescence-KeepsOrder a own = compute_quiescence-HasOwnOrder partition_point a own

    if_own :
        (test : Bool) (a b : Actor T)
        → HasOwnOrder partition_point a
        → HasOwnOrder partition_point b
        → HasOwnOrder partition_point (if test then a else b)
    if_own true a b h k = h
    if_own false a b h k = k

    check_and_notify-KeepsOrder :
        (a : Actor T) → KeepsOrder a (check_and_notify_quiescent partition_point a)
    unfolding KeepsOrder check_and_notify_quiescent
    check_and_notify-KeepsOrder a own =
        let (q, a1) = compute_quiescence partition_point a in
        let own1 = quiescence-KeepsOrder a own in
        if_own a.startup_in_progress a _ own (if_own (q && not a1.last_quiescent) _ _ own1 own1)

    signals-KeepsOrder :
        (a : Actor T)
        → KeepsOrder a (check_and_notify_quiescent partition_point (check_and_notify_ready a))
    unfolding KeepsOrder
    signals-KeepsOrder a own =
        check_and_notify-KeepsOrder (check_and_notify_ready a)
          (same a (check_and_notify_ready a) (ready-SameOrder a) own)

    send_signals-KeepsOrder :
        (status : ServiceStatus) (a : Actor T)
        → KeepsOrder a (send_signals partition_point status a)
    unfolding KeepsOrder send_signals
    send_signals-KeepsOrder status a own =
        elim (Bool-cases (not (is_active status) || is_waiting status)) [
          | inl both ↦ rw (both, send_signals) (signals-KeepsOrder a own)
          | inr one ↦
              rw (one, send_signals) (same a (check_and_notify_ready a) (ready-SameOrder a) own)
        ]

    announced-SameOrder :
        (now : T) (name : String) (status : ServiceStatus) (old : ServiceState T) (a : Actor T)
        → SameOrder a (
            reset_signals status (
              report_failure name status (
                announce name status (
                  write_service
                    (enter_status now status)
                    (drop_claim name status
                      (advance_generation name (invalidates status old.status) a))
                    name))))
    unfolding reset_signals report_failure announce drop_claim advance_generation
    announced-SameOrder now name status old a = ground arith

    stop_checks-SameOrder :
        (name : String) (status : ServiceStatus) (a : Actor T)
        → SameOrder a (stop_checks name status a)
    unfolding stop_checks cancel_health_check
    stop_checks-SameOrder name status a = ground arith

    status-KeepsOrder :
        (now : T) (a : Actor T) (name : String) (status : ServiceStatus)
        → KeepsOrder a (set_service_status partition_point now a name status).1
    unfolding KeepsOrder set_service_status change_status
    status-KeepsOrder now a name status own =
        let a1 = stop_checks name status a in
        let own1 = same a a1 (stop_checks-SameOrder name status a) own in
        elim (Option-cases (lookup name a1.services)) [
          | inl e ↦ rw (e, set_service_status) own1
          | inr (old, e) ↦
              rw (e, set_service_status)
                (send_signals-KeepsOrder status _
                  (same a1 _ (announced-SameOrder now name status old a1) own1))
        ]

    if_own_pair :
        {X : Type 0} (test : Bool) (r s : X × Actor T)
        → HasOwnOrder partition_point r.1
        → HasOwnOrder partition_point s.1
        → HasOwnOrder partition_point (if test then r else s).1
    if_own_pair true r s h k = h
    if_own_pair false r s h k = k

    module _ (timestamp : T → ℤ) (now : T) where
      -- What is saved after a change.
      saved_own :
          {A : Type 0} (r : Result DaemonError A × Actor T)
          → HasOwnOrder partition_point r.1
          → HasOwnOrder partition_point (save_if_ok timestamp now r).1
      saved_own r own = unfold KeepsOrder in same r.1 _ (save_if_ok-SameOrder timestamp now r) own

      is_ok_own :
          {A : Type 0} (r : Result DaemonError A × Actor T)
          → HasOwnOrder partition_point r.1
          → HasOwnOrder partition_point (is_ok partition_point timestamp now r).1
      is_ok_own (ok v, a) own = own
      is_ok_own (err e, a) own = own

      claimed_own :
          (a : Actor T) (name : String)
          → HasOwnOrder partition_point a
          → HasOwnOrder partition_point (claim_startup a name)
      unfolding claim_startup
      claimed_own a name own = own

      claim_state_own :
          (a : Actor T) (name : String) (s : Option (ServiceState T))
          → HasOwnOrder partition_point a
          → HasOwnOrder partition_point (claim_state partition_point timestamp now a name s).1
      unfolding claim_state save_state claim_startup KeepsOrder
      claim_state_own a name none own = own
      claim_state_own a name (some s) own =
          if_own_pair (is_waiting s.status) _ _
            (if_own_pair (is_some (lookup name a.startup_claims)) _ _ own own)
            (if_own_pair (not (is_active s.status)) _ _ (status-KeepsOrder now a name waiting own)
              own)

      new_instance_own :
          (name : String) (r : Result DaemonError Unit × Actor T)
          → HasOwnOrder partition_point r.1
          → HasOwnOrder partition_point (new_instance partition_point timestamp now name r).1
      unfolding new_instance cancel_health_check save_state
      new_instance_own name (err e, a) own = own
      new_instance_own name (ok _, a) own = own

      save_change_own :
          (r : Result DaemonError HealthCheckUpdate × Actor T)
          → HasOwnOrder partition_point r.1
          → HasOwnOrder partition_point (save_change partition_point timestamp now r).1
      unfolding save_change save_state
      save_change_own (err e, a) own = own
      save_change_own (ok u, a) own = if_own (differs u.previous_status u.new_status) _ _ own own

      check-SameOrder :
          (a : Actor T) (name : String) (passed : Bool) (retries : ℕ)
          → SameOrder a (update_health_check a name passed retries).1
      unfolding update_health_check announce check_and_notify_ready
      check-SameOrder a name passed retries = elim (Option-cases (lookup name a.services)) [
        | inl e ↦ rw (e, update_health_check) (SameOrder-refl a)
        | inr (s, e) ↦ rw (e, update_health_check) (ground arith)
      ]

      -- A service with a new status, after a change that the order does not depend on.
      set_own :
          (a b : Actor T) (name : String) (status : ServiceStatus)
          → SameOrder a b
          → HasOwnOrder partition_point a
          → HasOwnOrder partition_point
              (save_if_ok timestamp now (set_service_status partition_point now b name status)).1
      set_own a b name status h own =
          saved_own (set_service_status partition_point now b name status)
            (unfold KeepsOrder in status-KeepsOrder now b name status (same a b h own))

      with_own :
          (f : ServiceState T → ServiceState T) (a : Actor T) (name : String)
          → HasOwnOrder partition_point a
          → HasOwnOrder partition_point (save_if_ok timestamp now (with_service f a name)).1
      with_own f a name own =
          saved_own (with_service f a name)
            (unfold KeepsOrder in same a _ (with_service-SameOrder f a name) own)

      pub process_command-HasOwnOrder :
          (a : Actor T) (command : Command T)
          → HasOwnOrder partition_point a
          → HasOwnOrder partition_point (process_command partition_point timestamp now a command)
      unfolding process_command KeepsOrder
      process_command-HasOwnOrder a check_quiescence_now own =
          unfold check_quiescence in
          if_own_pair a.startup_in_progress _ _ own (quiescence-KeepsOrder a own)
      process_command-HasOwnOrder a recheck own =
          unfold recheck_ready_quiescent in
          signals-KeepsOrder (record a { last_ready = false; last_quiescent = false }) own
      process_command-HasOwnOrder a (set_startup in_progress) own =
          unfold set_startup_in_progress in
          if_own in_progress _ _ own
            (signals-KeepsOrder (record a { startup_in_progress = in_progress }) own)
      process_command-HasOwnOrder a (claim_start name) own =
          unfold claim_service_start in claim_state_own a name (lookup name a.services) own
      process_command-HasOwnOrder a (claim_restart name) own =
          unfold claim_service_restart claim_startup save_state in
          if_own_pair (initialized_and_runs partition_point timestamp now (lookup name a.services))
            _ _ (status-KeepsOrder now a name restarting own) own
      process_command-HasOwnOrder a (claim_inactive_restart name states) own =
          unfold claim_inactive_service_restart claim_startup save_state in
          if_own_pair (is_eligible partition_point timestamp now states (lookup name a.services)) _
            _ (status-KeepsOrder now a name waiting own) own
      process_command-HasOwnOrder a (transition_startup name startup status skip_reason fail_reason)
            own =
          unfold transition_service_startup in
          if_own_pair (opt_eq (service_startup a name) (some startup)) _ _
            (is_ok_own
              (save_if_ok timestamp now (
                set_service_status partition_point now
                  (write_service
                    (λ s. record s { skip_reason = skip_reason; fail_reason = fail_reason }) a name)
                  name status))
              (set_own a _ name status (record { config = refl; kept = refl }) own))
            own
      process_command-HasOwnOrder a (set_status_with_reason name status skip_reason fail_reason)
            own =
          unfold set_service_status_with_reason in
          set_own a _ name status (record { config = refl; kept = refl }) own
      process_command-HasOwnOrder a (set_status name status) own =
          set_own a a name status (SameOrder-refl a) own
      process_command-HasOwnOrder a (set_skip_reason name reason) own = own
      process_command-HasOwnOrder a (set_fail_reason name reason) own = own
      process_command-HasOwnOrder a (set_pid name pid started_at) own =
          unfold set_service_pid in
          with_own (λ s. record s { pid = pid; started_at = started_at }) a name own
      process_command-HasOwnOrder a (record_exit name exit_code signal) own =
          unfold record_process_exit cancel_health_check in
          with_own (λ s. record s { exit_code = exit_code; signal = signal; pid = none }) _ name own
      process_command-HasOwnOrder a (register_instance name pid started_at) own =
          unfold register_service_instance set_service_pid in
          new_instance_own name _ (
            same a _
              (with_service-SameOrder (λ s. record s { pid = pid; started_at = some started_at }) a
                name)
              own)
      process_command-HasOwnOrder a (begin_check name instance_of) own =
          unfold begin_health_check cancel_health_check in
          if_own_pair
            (opt_eq (lookup name a.service_instances) (some instance_of)
              && runs (lookup name a.services))
            _ _ own own
      process_command-HasOwnOrder a (store_check_task name session handle) own =
          unfold store_health_check_task in
          if_own (is_health_check_current a name session) _ _ own own
      process_command-HasOwnOrder a (update_check name session passed retries) own =
          unfold update_health_check_command in
          if_own_pair (is_health_check_current a name session) _ _
            (save_change_own (update_health_check a name passed retries)
              (same a _ (check-SameOrder a name passed retries) own))
            own
      process_command-HasOwnOrder a mark_config_initialized own = unfold save_state in own
      process_command-HasOwnOrder a (mark_service_initialized name) own =
          with_own initialize a name own
      process_command-HasOwnOrder a (increment_restart_count name) own =
          with_own count_restart a name own
      process_command-HasOwnOrder a (reset_restart_count name) own =
          with_own reset_restarts a name own
      process_command-HasOwnOrder a
            (store_config name config computed_env working_dir env_file_vars) own =
          unfold store_resolved_config in own
      process_command-HasOwnOrder a (store_process_handle name handle) own = own
      process_command-HasOwnOrder a (remove_process_handle name) own = own
      process_command-HasOwnOrder a (take_output_tasks name) own = own
      process_command-HasOwnOrder a (store_task_handle name handle) own = own
      process_command-HasOwnOrder a (cancel_task_handle name) own =
          unfold cancel_health_check in own
      process_command-HasOwnOrder a (shutdown clean) own =
          unfold save_state in if_own clean _ _ own own
      process_command-HasOwnOrder a (clear_snapshot cleared) own = if_own cleared _ _ own own
      process_command-HasOwnOrder a merge_kepler_env own = own
      process_command-HasOwnOrder a merge_kepler_flags own = own

    Steps-HasOwnOrder :
        (timestamp : T → ℤ) (n : ℕ) (a b : Actor T)
        → HasOwnOrder partition_point a
        → Steps partition_point timestamp n a b
        → HasOwnOrder partition_point b
    Steps-HasOwnOrder timestamp n a b own start = own
    Steps-HasOwnOrder timestamp n a b own (step {n = m} {b = before} steps now command) =
        process_command-HasOwnOrder timestamp now before command
          (Steps-HasOwnOrder timestamp m a before own steps)

    -- An actor starts without a kept order. Where after any commands `compute_quiescence` says yes,
    -- every service of the config that the actor knows does nothing more by itself: it is skipped; or
    -- it waits, and a dependency of it is not satisfied; or it has ended, and its policy does not
    -- restart it or a dependency of it is not satisfied.
    pub compute_quiescence-IsQuiet :
        (timestamp : T → ℤ) (n : ℕ) (a b : Actor T) (name : String) (s : ServiceState T)
        (raw : RawServiceConfig)
        → a.cached_topo_order ≡ none
        → Steps partition_point timestamp n a b
        → (compute_quiescence partition_point b).0 ≡ true
        → lookup name b.config ≡ some raw
        → lookup name b.services ≡ some s
        → IsQuiet b name s
    compute_quiescence-IsQuiet timestamp n a b name s raw fresh steps h known e =
        quiescent-IsQuiet partition_point b name s raw
          (Steps-HasOwnOrder timestamp n a b (λ order kept. absurd (ground (arith, fresh, kept)))
            steps)
          h known e
