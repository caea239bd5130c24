-- ===== src/Actor/Commands/Startup.antt =====
-- Startup tokens of kepler-daemon/src/config_actor/actor.rs over any sequence of commands: a token
-- that a stop or a new start has made stale never acts again, and no token is given out twice. A
-- generation is a `u64` that wraps, so the number of commands is bounded.
use kepler.Prelude.{
  ℕ, ◌+◌, ◌^◌, ◌≤◌, ◌<◌, ◌≡◌, ◌≢◌, refl, ◌∙◌, ap, String, Bool, true, false, Option, none, some,
  List, arith, string_eq, nat_eq, Option-cases, Bool-cases, inl, inr, ◌⊎◌, is_some, opt_eq,
}
use kepler.Prelude.Int.{ℤ}
use kepler.Prelude.Maps.{lookup, lookup-insert}
use kepler.State.{ServiceStatus, ServiceState, waiting, stopping, is_active}
use kepler.Actor.{
  Actor, service_startup, startup_of, generation, wrapping_suc, claim_startup, save_state,
}
use kepler.Actor.Signals.{is_waiting}
use kepler.Actor.Status.{set_service_status, invalidates}
use kepler.Actor.Change.{set_service_status_known}
use kepler.Actor.Kept.{taken, IsConsistent, IsKept, status-IsKept}
use kepler.Actor.Commands.{transition_service_startup, claim_service_start, claim_state}
use kepler.Actor.Commands.Step.{Steps, start, step}
use kepler.Actor.Commands.Keeps.{process_command-IsKept, claim_service_start-IsKept}

module _ {T : Type 0} (partition_point : (String → Bool) → List String → ℕ)
    (timestamp : T → ℤ) where
  -- Every actor that commands lead to is consistent, where the first was: a claim is of the current
  -- generation of a service that starts, and a session of health checks is of a service that runs.
  pub Steps-IsConsistent :
      (n : ℕ) (a b : Actor T)
      → IsConsistent a
      → Steps partition_point timestamp n a b
      → IsConsistent b
  Steps-IsConsistent n a b c start = c
  Steps-IsConsistent n a b c (step {n = m} {b = before} steps now command) =
      (process_command-IsKept partition_point timestamp now before
        (Steps-IsConsistent m a before c steps) command).consistent

  -- The token was given out, or the service is past it.
  abbrev IsSpent : Actor T → String → ℕ → Type 0
  IsSpent a name t = (t < generation a name) ⊎ ((generation a name ≡ t) × (taken a name ≡ true))

  IsSpent-kept :
      (a b : Actor T) (name : String) (t : ℕ)
      → IsKept a b
      → generation a name + 1 < 2 ^ 64
      → IsSpent a name t
      → IsSpent b name t
  IsSpent-kept a b name t k bound s = elim s [
    | inl p ↦ inl (ground (arith, k.advances name, bound, p))
    | inr (e, held) ↦ elim (k.advances name) [
      | inl g ↦ inr (g ∙ e, k.still_taken name g held)
      | inr g ↦ inl (omega (arith, e, g, bound))
    ]
  ]

  bounded_kept :
      (a b : Actor T) (name : String)
      → IsKept a b
      → generation a name + 1 < 2 ^ 64
      → (generation a name ≤ generation b name) × (generation b name ≤ generation a name + 1)
  bounded_kept a b name k bound = ground (arith, k.advances name)

  -- Over `n` commands the generation of a service does not fall, and grows by at most `n`, and a
  -- token that is spent stays so.
  Steps-go_on :
      (n : ℕ) (a b : Actor T) (name : String) (t : ℕ)
      → IsConsistent a
      → generation a name + n < 2 ^ 64
      → IsSpent a name t
      → Steps partition_point timestamp n a b
      → (generation a name ≤ generation b name)
        × (generation b name ≤ generation a name + n)
        × IsSpent b name t
  Steps-go_on n a b name t c bound s start = (omega arith, omega arith, s)
  Steps-go_on n a b name t c bound s (step {n = m} {b = before} steps now command) =
      let (low, high, s1) = Steps-go_on m a before name t c (omega (arith, bound)) s steps in
      let k =
        process_command-IsKept partition_point timestamp now before
          (Steps-IsConsistent m a before c steps) command in
      let small : generation before name + 1 < 2 ^ 64 = omega (arith, bound, high) in
      let (low1, high1) = bounded_kept before _ name k small in
      (
        omega (arith, low, low1),
        omega (arith, high, high1),
        IsSpent-kept before _ name t k small s1,
      )

  -- The token of a current startup is the generation of the service.
  startup_is_generation :
      (a : Actor T) (name : String) (t : ℕ)
      → IsConsistent a
      → service_startup a name ≡ some t
      → generation a name ≡ t
  unfolding service_startup startup_of
  startup_is_generation a name t c e = elim (Option-cases (lookup name a.services)) [
    | inl none_there ↦ absurd (ground (arith, none_there, e))
    | inr (s, there) ↦ c.current name t (ground (arith, there, e))
  ]

  past_is_stale :
      (a : Actor T) (name : String) (t : ℕ)
      → IsConsistent a
      → t < generation a name
      → opt_eq (service_startup a name) (some t) ≡ false
  past_is_stale a name t c p = elim (Option-cases (service_startup a name)) [
    | inl e ↦ rw e refl
    | inr (u, e) ↦ ground (arith, e, startup_is_generation a name u c e, p)
  ]

  -- A token of an earlier generation is refused, and the actor stays as it is, after any sequence of
  -- commands from a consistent actor that is too short for the generation to wrap.
  pub transition_service_startup_stale :
      (n : ℕ) (a b : Actor T) (now : T) (name : String) (startup : ℕ) (status : ServiceStatus)
      (skip_reason fail_reason : Option String)
      → IsConsistent a
      → startup < generation a name
      → generation a name + n < 2 ^ 64
      → Steps partition_point timestamp n a b
      → transition_service_startup partition_point timestamp now b name startup status skip_reason
          fail_reason
        ≡ (false, b)
  unfolding transition_service_startup
  transition_service_startup_stale n a b now name startup status skip_reason fail_reason c p bound
        steps =
      let (low, high, s) = Steps-go_on n a b name startup c bound (inl p) steps in
      rw
        (
          past_is_stale b name startup (Steps-IsConsistent n a b c steps) (omega (arith, p, low)),
          transition_service_startup,
        )
        refl

  stopping_advances :
      (a : Actor T) (stop_time : T) (name : String) (startup : ℕ)
      → IsConsistent a
      → service_startup a name ≡ some startup
      → startup + 1 < 2 ^ 64
      → generation (set_service_status partition_point stop_time a name stopping).1 name
        ≡ startup + 1
  unfolding service_startup startup_of invalidates
  stopping_advances a stop_time name startup c e bound =
      elim (Option-cases (lookup name a.services)) [
        | inl none_there ↦ absurd (ground (arith, none_there, e))
        | inr (s, there) ↦ ground (
          arith,
          (set_service_status_known partition_point stop_time a name stopping s there).1.generations
              name,
          startup_is_generation a name startup c e,
          string_eq.beq_iff name name,
          bound,
        )
      ]

  -- Stopping a service makes the startup that was current stale: whatever commands follow, its token
  -- is refused and the actor stays as it is. The actor is consistent, and the generation does not
  -- wrap.
  pub stopping-transition_service_startup :
      (n : ℕ) (a b : Actor T) (stop_time now : T) (name : String) (startup : ℕ)
      (status : ServiceStatus) (skip_reason fail_reason : Option String)
      → IsConsistent a
      → service_startup a name ≡ some startup
      → startup + 1 + n < 2 ^ 64
      → Steps partition_point timestamp n
          (set_service_status partition_point stop_time a name stopping).1
          b
      → transition_service_startup partition_point timestamp now b name startup status skip_reason
          fail_reason
        ≡ (false, b)
  stopping-transition_service_startup n a b stop_time now name startup status skip_reason
        fail_reason c e bound steps =
      let moved = stopping_advances a stop_time name startup c e (omega (arith, bound)) in
      transition_service_startup_stale n
        (set_service_status partition_point stop_time a name stopping).1 b now name startup status
        skip_reason fail_reason
        (status-IsKept partition_point stop_time a name stopping c).consistent
        (omega (arith, moved)) (omega (arith, moved, bound)) steps

  begins_anew :
      (status : ServiceStatus) → is_waiting status ≡ false → invalidates waiting status ≡ true
  unfolding invalidates
  begins_anew status p = ground arith

  claim_state_cases :
      (a : Actor T) (now : T) (name : String) (s : ServiceState T)
      → lookup name a.services ≡ some s
      → (claim_state partition_point timestamp now a name (some s) ≡ (none, a))
        ⊎ ((b : Actor T) × (claim_state partition_point timestamp now a name (some s)
              ≡ (some (generation b name), save_state timestamp now (claim_startup b name)))
            × (((taken a name ≡ false) × (generation b name ≡ generation a name))
                ⊎ (generation b name ≡ wrapping_suc (generation a name))))
  unfolding claim_state
  claim_state_cases a now name s e = elim (Bool-cases (is_waiting s.status)) [
    | inl w ↦ elim (Bool-cases (is_some (lookup name a.startup_claims))) [
      | inl held ↦ inl (rw (w, claim_state, held) refl)
      | inr free ↦ inr (a, rw (w, claim_state, free) refl, inl (ground (arith, e, w, free), refl))
    ]
    | inr w ↦ elim (Bool-cases (is_active s.status)) [
      | inl active ↦ inl (rw (w, claim_state, active) refl)
      | inr ended ↦ inr (
        (set_service_status partition_point now a name waiting).1,
        rw (w, claim_state, ended) refl,
        inr (
            ground (
              arith,
              (set_service_status_known partition_point now a name waiting s e).1.generations name,
              string_eq.beq_iff name name,
              begins_anew s.status w,
            )),
      )
    ]
  ]

  claimed_is_taken :
      (b : Actor T) (now : T) (name : String) (t : ℕ)
      → some (generation b name) ≡ some t
      → (generation (save_state timestamp now (claim_startup b name)) name ≡ t)
        × (taken (save_state timestamp now (claim_startup b name)) name ≡ true)
  unfolding save_state claim_startup
  claimed_is_taken b now name t e = ground (
    arith,
    e,
    lookup-insert name name (generation b name) b.startup_claims,
    string_eq.beq_iff name name,
  )

  claims_state :
      (a : Actor T) (now : T) (name : String)
      → claim_service_start partition_point timestamp now a name
        ≡ claim_state partition_point timestamp now a name (lookup name a.services)
  unfolding claim_service_start
  claims_state a now name = refl

  -- What `ClaimServiceStart` answers: nothing, the generation of a service that waits for a claim, or
  -- the generation that it began.
  claim_cases :
      (a : Actor T) (now : T) (name : String)
      → (claim_service_start partition_point timestamp now a name ≡ (none, a))
        ⊎ ((b : Actor T) × (claim_service_start partition_point timestamp now a name
              ≡ (some (generation b name), save_state timestamp now (claim_startup b name)))
            × (((taken a name ≡ false) × (generation b name ≡ generation a name))
                ⊎ (generation b name ≡ wrapping_suc (generation a name))))
  unfolding claim_state
  claim_cases a now name = elim (Option-cases (lookup name a.services)) [
    | inl e ↦ inl (claims_state a now name ∙ rw e refl)
    | inr (s, e) ↦
        rw (claims_state a now name ∙ ap (claim_state partition_point timestamp now a name) e)
          (claim_state_cases a now name s e)
  ]

  -- A claim leaves the service with its token as the current generation, and with a claim.
  token_is_held :
      (a : Actor T) (now : T) (name : String) (t : ℕ)
      → (claim_service_start partition_point timestamp now a name).0 ≡ some t
      → (generation (claim_service_start partition_point timestamp now a name).1 name ≡ t)
        × (taken (claim_service_start partition_point timestamp now a name).1 name ≡ true)
  token_is_held a now name t e = elim (claim_cases a now name) [
    | inl r ↦ absurd (ground (arith, ap (λ p. p.0) r, e))
    | inr (b, r, _) ↦ rw r (claimed_is_taken b now name t (rw r at e))
  ]

  token_is_new :
      (a : Actor T) (now : T) (name : String) (t : ℕ)
      → (claim_service_start partition_point timestamp now a name).0 ≡ some t
      → ((taken a name ≡ false) × (t ≡ generation a name)) ⊎ (t ≡ wrapping_suc (generation a name))
  token_is_new a now name t e = elim (claim_cases a now name) [
    | inl r ↦ absurd (ground (arith, ap (λ p. p.0) r, e))
    | inr (b, r, g) ↦ ground (arith, ap (λ p. p.0) r, e, g)
  ]

  -- `ClaimServiceStart` never gives out the token that it gave before, whatever commands are
  -- processed between the two claims, as long as the generation does not wrap.
  pub claim_service_start_once :
      (n : ℕ) (a b : Actor T) (first second : T) (name : String) (t u : ℕ)
      → IsConsistent a
      → (claim_service_start partition_point timestamp first a name).0 ≡ some t
      → t + n + 1 < 2 ^ 64
      → Steps partition_point timestamp n
          (claim_service_start partition_point timestamp first a name).1
          b
      → (claim_service_start partition_point timestamp second b name).0 ≡ some u
      → t ≢ u
  claim_service_start_once n a b first second name t u c e bound steps f =
      let k = claim_service_start-IsKept partition_point timestamp first a c name in
      let (now_t, held) = token_is_held a first name t e in
      let (low, high, s) =
        Steps-go_on n (claim_service_start partition_point timestamp first a name).1 b name t
          k.consistent (omega (arith, now_t, bound)) (inr (now_t, held)) steps in
      ground (arith, token_is_new b second name u f, s, low, high, now_t, bound)
