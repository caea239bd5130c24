-- ===== src/Actor/Change.antt =====
-- What `set_service_status` of kepler-daemon/src/config_actor/actor.rs does to the lifecycle of every
-- service.
pub mod Entered
use kepler.Prelude.{
  ℕ, ◌≡◌, refl, ◌∙◌, ap, String, Bool, not, ◌&&◌, ◌||◌, none, some, List, if◌then◌else◌, arith,
  string_eq, ◌==◌, unwrap_or,
}
use kepler.Prelude.Maps.{lookup, remove, lookup-adjust, lookup-insert, lookup-remove}
use kepler.Prelude.Result.{ok, err}
use kepler.Errors.{service_not_found}
use kepler.State.{ServiceStatus, ServiceState, is_running}
use kepler.Actor.{
  Actor, write_service, generation, wrapping_suc, is_startup_status, cancel_health_check,
}
use kepler.Actor.Status.{
  invalidates, enter_status, advance_generation, drop_claim, announce, report_failure,
  reset_signals, change_status, set_service_status, stop_checks,
}
use kepler.Actor.Frame.{
  Same, Same-trans, status_of, announce-Same, report_failure-Same, reset_signals-Same,
  send_signals-Same,
}

module _ {T : Type 0} where
  -- From `a` to `b`, the service `name` went from the status `old` to `status`; what became of the
  -- statuses, generations, claims and health checks of all services.
  pub record IsMoved (name : String) (old status : ServiceStatus) (a b : Actor T) : Type 0 where
    pub statuses : (n : String) → status_of b n ≡ (if name == n then some status else status_of a n)
    pub generations :
        (n : String)
        → generation b n ≡ (
            if name == n && invalidates status old
            then wrapping_suc (generation a n)
            else generation a n)
    pub claims :
        (n : String)
        → lookup n b.startup_claims ≡ (
            if name == n && (invalidates status old || not (is_startup_status status))
            then none
            else lookup n a.startup_claims)
    pub sessions :
        (n : String)
        → lookup n b.health_check_sessions ≡ (
            if name == n && not (is_running status) then none else lookup n a.health_check_sessions)
    pub tasks :
        (n : String)
        → lookup n b.health_checks
          ≡ (if name == n && not (is_running status) then none else lookup n a.health_checks)

  -- From `a` to `b`, at most the health checks of the service were stopped.
  pub record IsUnmoved (name : String) (status : ServiceStatus) (a b : Actor T) : Type 0 where
    pub statuses : (n : String) → status_of b n ≡ status_of a n
    pub generations : (n : String) → generation b n ≡ generation a n
    pub claims : (n : String) → lookup n b.startup_claims ≡ lookup n a.startup_claims
    pub sessions :
        (n : String)
        → lookup n b.health_check_sessions ≡ (
            if name == n && not (is_running status) then none else lookup n a.health_check_sessions)
    pub tasks :
        (n : String)
        → lookup n b.health_checks
          ≡ (if name == n && not (is_running status) then none else lookup n a.health_checks)

  stop_checks-IsUnmoved :
      (name : String) (status : ServiceStatus) (a : Actor T)
      → IsUnmoved name status a (stop_checks name status a)
  unfolding stop_checks cancel_health_check
  stop_checks-IsUnmoved name status a = record {
    statuses = λ n. ground arith;
    generations = λ n. ground arith;
    claims = λ n. ground arith;
    sessions = λ n. ground (arith, lookup-remove name n a.health_check_sessions);
    tasks = λ n. ground (arith, lookup-remove name n a.health_checks);
  }

  stop_checks-services :
      (name : String) (status : ServiceStatus) (a : Actor T)
      → (stop_checks name status a).services ≡ a.services
  unfolding stop_checks cancel_health_check
  stop_checks-services name status a = ground arith

  enter_status-status :
      (now : T) (status : ServiceStatus) (s : ServiceState T)
      → (enter_status now status s).status ≡ status
  unfolding enter_status
  enter_status-status now status s = refl

  module _ (now : T) (name : String) (status : ServiceStatus) (old : ServiceState T)
      (a : Actor T) where
    -- The part of `change_status` that writes the state of the service.
    written : Actor T
    written =
        write_service (enter_status now status)
          (drop_claim name status (advance_generation name (invalidates status old.status) a)) name

    written-statuses :
        lookup name a.services ≡ some old
        → (n : String) → status_of written n ≡ (if name == n then some status else status_of a n)
    unfolding written drop_claim advance_generation
    written-statuses e n = ground (
      arith,
      e,
      lookup-adjust (enter_status now status) name n a.services,
      string_eq.beq_iff name n,
      enter_status-status now status old,
    )

    written-generations :
        (n : String)
        → generation written n ≡ (
            if name == n && invalidates status old.status
            then wrapping_suc (generation a n)
            else generation a n)
    unfolding written drop_claim advance_generation
    written-generations n = ground (
      arith,
      string_eq.beq_iff name n,
      lookup-insert name n (wrapping_suc (generation a name)) a.startup_generations,
    )

    written-claims :
        (n : String)
        → lookup n written.startup_claims ≡ (
            if name == n && (invalidates status old.status || not (is_startup_status status))
            then none
            else lookup n a.startup_claims)
    unfolding written drop_claim advance_generation
    written-claims n = ground (
      arith,
      lookup-remove name n a.startup_claims,
      lookup-remove name n (remove name a.startup_claims),
    )

    change_status-Same :
        (partition_point : (String → Bool) → List String → ℕ)
        → Same written (change_status partition_point now name status old a)
    unfolding written change_status
    change_status-Same partition_point =
        let a1 = announce name status written in
        let a2 = report_failure name status a1 in
        let a3 = reset_signals status a2 in
        Same-trans written a1 _ (announce-Same name status written) (
          Same-trans a1 a2 _ (report_failure-Same name status a1) (
            Same-trans a2 a3 _ (reset_signals-Same status a2)
              (send_signals-Same partition_point status a3)))

    written-checks :
        (written.health_check_sessions ≡ a.health_check_sessions)
        × (written.health_checks ≡ a.health_checks)
    unfolding written drop_claim advance_generation
    written-checks = ground arith

  module _ (partition_point : (String → Bool) → List String → ℕ) (now : T) (a : Actor T)
      (name : String) (status : ServiceStatus) where
    after_stop :
        (old : ServiceState T)
        → lookup name (stop_checks name status a).services ≡ some old
        → IsMoved name old.status status a
            (change_status partition_point now name status old (stop_checks name status a))
    after_stop old e =
        let a1 = stop_checks name status a in
        let b = written now name status old a1 in
        let u = stop_checks-IsUnmoved name status a in
        let same = change_status-Same now name status old a1 partition_point in
        let (se, ta) = written-checks now name status old a1 in
        record {
          statuses = λ n.
              ground
                (arith, same.statuses n, written-statuses now name status old a1 e n, u.statuses n);
          generations = λ n.
              ap (λ m. unwrap_or (lookup n m) 0) same.generations
              ∙ ground (arith, written-generations now name status old a1 n, u.generations n);
          claims = λ n.
              ap (lookup n) same.claims
              ∙ ground (arith, written-claims now name status old a1 n, u.claims n);
          sessions = λ n. ap (lookup n) (same.sessions ∙ se) ∙ u.sessions n;
          tasks = λ n. ap (lookup n) (same.tasks ∙ ta) ∙ u.tasks n;
        }

    -- On a service that the actor knows, `set_service_status` succeeds and moves the service.
    pub set_service_status_known :
        (old : ServiceState T)
        → lookup name a.services ≡ some old
        → ((set_service_status partition_point now a name status).0 ≡ ok tt)
          × IsMoved name old.status status a
              (set_service_status partition_point now a name status).1
    unfolding set_service_status
    set_service_status_known old e =
        let a1 = stop_checks name status a in
        let e1 : lookup name a1.services ≡ some old = rw (stop_checks-services name status a) e in
        rw (e1, set_service_status) ((refl, after_stop old e1))

    pub set_service_status_unknown :
        lookup name a.services ≡ none
        → ((set_service_status partition_point now a name status).0 ≡ err (service_not_found name))
          × IsUnmoved name status a (set_service_status partition_point now a name status).1
    unfolding set_service_status
    set_service_status_unknown e =
        rw (stop_checks-services name status a, e, set_service_status)
          ((refl, stop_checks-IsUnmoved name status a))
