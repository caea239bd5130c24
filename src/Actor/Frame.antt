-- ===== src/Actor/Frame.antt =====
-- What the helpers of kepler-daemon/src/config_actor/actor.rs leave as it is: the status of every
-- service, the claims and generations of its startups, and its health checks.
use kepler.Prelude.{
  ℕ, ◌≡◌, refl, ◌∙◌, String, Bool, true, false, Option, none, some, List, if◌then◌else◌, arith,
  string_eq, Option-cases, inl, inr,
}
use kepler.Prelude.Int.{ℤ}
use kepler.Prelude.Maps.{lookup, lookup-adjust}
use kepler.State.{ServiceStatus, ServiceState}
use kepler.Actor.{Actor, write_service, save_state}
use kepler.Actor.Signals.{check_and_notify_ready, check_and_notify_quiescent, compute_quiescence}
use kepler.Actor.Status.{announce, report_failure, reset_signals, send_signals}

module _ {T : Type 0} where
  abbrev pub opt_status : Option (ServiceState T) → Option ServiceStatus
  opt_status none = none
  opt_status (some s) = some s.status

  abbrev pub status_of : Actor T → String → Option ServiceStatus
  status_of a name = opt_status (lookup name a.services)

  pub record Same (a b : Actor T) : Type 0 where
    pub statuses : (name : String) → status_of b name ≡ status_of a name
    pub generations : b.startup_generations ≡ a.startup_generations
    pub claims : b.startup_claims ≡ a.startup_claims
    pub sessions : b.health_check_sessions ≡ a.health_check_sessions
    pub tasks : b.health_checks ≡ a.health_checks

  pub Same-refl : (a : Actor T) → Same a a
  Same-refl a = record {
    statuses = λ name. refl;
    generations = refl;
    claims = refl;
    sessions = refl;
    tasks = refl;
  }

  pub Same-trans : (a b c : Actor T) → Same a b → Same b c → Same a c
  Same-trans a b c p q = record {
    statuses = λ name. q.statuses name ∙ p.statuses name;
    generations = q.generations ∙ p.generations;
    claims = q.claims ∙ p.claims;
    sessions = q.sessions ∙ p.sessions;
    tasks = q.tasks ∙ p.tasks;
  }

  pub if_Same :
      (test : Bool) (a b c : Actor T) → Same a b → Same a c → Same a (if test then b else c)
  if_Same true a b c p q = p
  if_Same false a b c p q = q

  pub save_state-Same :
      (timestamp : T → ℤ) (now : T) (a : Actor T) → Same a (save_state timestamp now a)
  unfolding save_state
  save_state-Same timestamp now a = ground arith

  pub ready-Same : (a : Actor T) → Same a (check_and_notify_ready a)
  unfolding check_and_notify_ready
  ready-Same a = ground arith

  pub quiescent-Same :
      (partition_point : (String → Bool) → List String → ℕ) (a : Actor T)
      → Same a (check_and_notify_quiescent partition_point a)
  unfolding check_and_notify_quiescent compute_quiescence
  quiescent-Same partition_point a = ground arith

  pub announce-Same :
      (name : String) (status : ServiceStatus) (a : Actor T) → Same a (announce name status a)
  unfolding announce
  announce-Same name status a = ground arith

  pub report_failure-Same :
      (name : String) (status : ServiceStatus) (a : Actor T) → Same a (report_failure name status a)
  unfolding report_failure
  report_failure-Same name status a = ground arith

  pub reset_signals-Same : (status : ServiceStatus) (a : Actor T) → Same a (reset_signals status a)
  unfolding reset_signals
  reset_signals-Same status a = ground arith

  pub send_signals-Same :
      (partition_point : (String → Bool) → List String → ℕ) (status : ServiceStatus) (a : Actor T)
      → Same a (send_signals partition_point status a)
  unfolding send_signals
  send_signals-Same partition_point status a =
      if_Same _ a (check_and_notify_quiescent partition_point (check_and_notify_ready a))
        (check_and_notify_ready a)
        (Same-trans a (check_and_notify_ready a) _ (ready-Same a)
          (quiescent-Same partition_point (check_and_notify_ready a)))
        (ready-Same a)

  pub write_service-Same :
      (f : ServiceState T → ServiceState T) (a : Actor T) (name : String)
      → ((s : ServiceState T) → (f s).status ≡ s.status)
      → Same a (write_service f a name)
  write_service-Same f a name h = record {
    statuses = λ n. elim (Option-cases (lookup n a.services)) [
      | inl e ↦ ground (arith, e, lookup-adjust f name n a.services)
      | inr (s, e) ↦ ground (arith, e, lookup-adjust f name n a.services, h s)
    ];
    generations = refl;
    claims = refl;
    sessions = refl;
    tasks = refl;
  }
