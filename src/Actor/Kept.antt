-- ===== src/Actor/Kept.antt =====
-- What every command of kepler-daemon/src/config_actor/actor.rs keeps: the claims and the health
-- checks of the actor fit the statuses of its services, and generations go on by at most one.
use kepler.Prelude.{
  ℕ, ◌≡◌, refl, sym, ◌∙◌, ap, String, Bool, true, false, not, ◌||◌, Option, none, some, List, arith,
  string_eq, Option-cases, inl, inr, unwrap_or, ◌⊎◌, ◌≢◌, is_some,
}
use kepler.Prelude.Int.{ℤ}
use kepler.Prelude.Maps.{Map, lookup, lookup-insert, lookup-remove}
use kepler.Prelude.Result.{Result, ok, err}
use kepler.Errors.{DaemonError}
use kepler.State.{ServiceStatus, is_running}
use kepler.Actor.{
  Actor, generation, wrapping_suc, is_startup_status, claim_startup, cancel_health_check,
}
use kepler.Actor.Signals.{is_waiting}
use kepler.Actor.Status.{invalidates, set_service_status}
use kepler.Actor.Commands.{save_if_ok}
use kepler.Actor.Frame.{Same, Same-refl, status_of, save_state-Same}
use kepler.Actor.Change.{IsMoved, IsUnmoved, set_service_status_known, set_service_status_unknown}

abbrev pub opt_test : (ServiceStatus → Bool) → Option ServiceStatus → Bool
opt_test p none = false
opt_test p (some status) = p status

-- A service that enters `Waiting` without a new operation was waiting.
waits_on :
    (status old : ServiceStatus)
    → is_waiting status ≡ true
    → invalidates status old ≡ false
    → is_waiting old ≡ true
unfolding invalidates
waits_on status old p q = ground arith

waiting_starts :
    (status : ServiceStatus) → is_waiting status ≡ true → is_startup_status status ≡ true
waiting_starts status p = ground arith

goes_on : (g : ℕ) → wrapping_suc g ≢ g
goes_on g e = omega (arith, e)

module _ {T : Type 0} where
  -- A claim is of the current generation, of a service that starts; a session of health checks
  -- belongs to a service that runs.
  pub record IsConsistent (a : Actor T) : Type 0 where
    pub current : (n : String) (g : ℕ) → lookup n a.startup_claims ≡ some g → generation a n ≡ g
    pub claimed :
        (n : String) (g : ℕ)
        → lookup n a.startup_claims ≡ some g
        → opt_test is_startup_status (status_of a n) ≡ true
    pub checked :
        (n : String) (session : ℕ)
        → lookup n a.health_check_sessions ≡ some session
        → opt_test is_running (status_of a n) ≡ true

  -- The service does not wait for somebody to claim its startup.
  abbrev pub taken : Actor T → String → Bool
  taken a n = not (opt_test is_waiting (status_of a n)) || is_some (lookup n a.startup_claims)

  pub record IsKept (a b : Actor T) : Type 0 where
    pub consistent : IsConsistent b
    pub advances :
        (n : String)
        → (generation b n ≡ generation a n) ⊎ (generation b n ≡ wrapping_suc (generation a n))
    pub still_taken :
        (n : String) → generation b n ≡ generation a n → taken a n ≡ true → taken b n ≡ true

  Same-generation : (a b : Actor T) → Same a b → (n : String) → generation b n ≡ generation a n
  Same-generation a b h n = ap (λ m. unwrap_or (lookup n m) 0) h.generations

  Same-IsConsistent : (a b : Actor T) → Same a b → IsConsistent a → IsConsistent b
  Same-IsConsistent a b h c = record {
    current = λ n g e. Same-generation a b h n ∙ c.current n g (rw h.claims at e);
    claimed = λ n g e. rw (h.statuses n) (c.claimed n g (rw h.claims at e));
    checked = λ n s e. rw (h.statuses n) (c.checked n s (rw h.sessions at e));
  }

  Same-taken : (a b : Actor T) → Same a b → (n : String) → taken b n ≡ taken a n
  Same-taken a b h n = rw (h.statuses n, h.claims) refl

  pub IsKept-of_Same : (a b : Actor T) → IsConsistent a → Same a b → IsKept a b
  IsKept-of_Same a b c h = record {
    consistent = Same-IsConsistent a b h c;
    advances = λ n. inl (Same-generation a b h n);
    still_taken = λ n e t. Same-taken a b h n ∙ t;
  }

  pub IsKept-then_Same : (a b c : Actor T) → IsKept a b → Same b c → IsKept a c
  IsKept-then_Same a b c k h = record {
    consistent = Same-IsConsistent b c h k.consistent;
    advances = λ n. ground (arith, Same-generation b c h n, k.advances n);
    still_taken =
        λ n e t. Same-taken b c h n ∙ k.still_taken n (sym (Same-generation b c h n) ∙ e) t;
  }

  pub Same-then-IsKept : (a b c : Actor T) → Same a b → IsKept b c → IsKept a c
  Same-then-IsKept a b c h k = record {
    consistent = k.consistent;
    advances = λ n. ground (arith, Same-generation a b h n, k.advances n);
    still_taken =
        λ n e t. k.still_taken n (e ∙ sym (Same-generation a b h n)) (Same-taken a b h n ∙ t);
  }

  set-IsKept :
      (name : String) (old status : ServiceStatus) (a b : Actor T)
      → status_of a name ≡ some old
      → IsConsistent a
      → IsMoved name old status a b
      → IsKept a b
  set-IsKept name old status a b o c h = record {
    consistent = record {
      current = λ n g. ground (arith, h.generations n, h.claims n, c.current n g);
      claimed = λ n g. ground (arith, h.statuses n, h.claims n, c.claimed n g);
      checked = λ n s. ground (arith, h.statuses n, h.sessions n, c.checked n s);
    };
    advances = λ n. ground (arith, h.generations n);
    still_taken = λ n e t. ground (
      arith,
      h.statuses n,
      h.claims n,
      h.generations n,
      e,
      t,
      o,
      string_eq.beq_iff name n,
      waits_on status old,
      goes_on (generation a n),
      waiting_starts status,
    );
  }

  unset-IsKept :
      (name : String) (status : ServiceStatus) (a b : Actor T)
      → IsConsistent a
      → IsUnmoved name status a b
      → IsKept a b
  unset-IsKept name status a b c h = record {
    consistent = record {
      current = λ n g. ground (arith, h.generations n, h.claims n, c.current n g);
      claimed = λ n g. ground (arith, h.statuses n, h.claims n, c.claimed n g);
      checked = λ n s. ground (arith, h.statuses n, h.sessions n, c.checked n s);
    };
    advances = λ n. inl (h.generations n);
    still_taken = λ n e t. ground (arith, h.statuses n, h.claims n, t);
  }

  pub status-IsKept :
      (partition_point : (String → Bool) → List String → ℕ) (now : T) (a : Actor T) (name : String)
      (status : ServiceStatus)
      → IsConsistent a
      → IsKept a (set_service_status partition_point now a name status).1
  status-IsKept partition_point now a name status c = elim (Option-cases (lookup name a.services)) [
    | inl e ↦
        unset-IsKept name status a _ c
          (set_service_status_unknown partition_point now a name status e).1
    | inr (old, e) ↦
        set-IsKept name old.status status a _ (rw e refl) c
          (set_service_status_known partition_point now a name status old e).1
  ]

  -- Where only the tasks of health checks change, which no other claim is about.
  pub tasks-IsKept :
      (a : Actor T) (health_checks : Map String ℕ) (aborted : List ℕ)
      → IsConsistent a
      → IsKept a (record a { health_checks = health_checks; aborted = aborted })
  tasks-IsKept a health_checks aborted c = record {
    consistent = record { current = c.current; claimed = c.claimed; checked = c.checked };
    advances = λ n. inl refl;
    still_taken = λ n e t. t;
  }

  pub cancel-IsKept :
      (a : Actor T) (name : String) → IsConsistent a → IsKept a (cancel_health_check a name)
  unfolding cancel_health_check
  cancel-IsKept a name c = record {
    consistent = record {
      current = c.current;
      claimed = c.claimed;
      checked = λ n s. ground (arith, lookup-remove name n a.health_check_sessions, c.checked n s);
    };
    advances = λ n. inl refl;
    still_taken = λ n e t. t;
  }

  pub claim-IsKept :
      (a b : Actor T) (name : String)
      → IsKept a b
      → opt_test is_startup_status (status_of b name) ≡ true
      → IsKept a (claim_startup b name)
  unfolding claim_startup
  claim-IsKept a b name k starts = record {
    consistent = record {
      current = λ n g. ground (
        arith,
        lookup-insert name n (generation b name) b.startup_claims,
        k.consistent.current n g,
        string_eq.beq_iff name n,
      );
      claimed = λ n g. ground (
        arith,
        lookup-insert name n (generation b name) b.startup_claims,
        k.consistent.claimed n g,
        string_eq.beq_iff name n,
        starts,
      );
      checked = k.consistent.checked;
    };
    advances = k.advances;
    still_taken = λ n e t. ground (
      arith,
      lookup-insert name n (generation b name) b.startup_claims,
      k.still_taken n e t,
      string_eq.beq_iff name n,
    );
  }

  pub save_if_ok-Same :
      {A : Type 0} (timestamp : T → ℤ) (now : T) (r : Result DaemonError A × Actor T)
      → Same r.1 (save_if_ok timestamp now r).1
  save_if_ok-Same timestamp now (ok v, a) = save_state-Same timestamp now a
  save_if_ok-Same timestamp now (err e, a) = Same-refl a
