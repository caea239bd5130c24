-- ===== src/Tests/Values.antt =====
-- Durations, restart policies and dependencies (kepler-daemon/src/config/duration.rs, restart.rs and
-- deps.rs, and kepler-daemon/src/deps.rs) and the states of services (state.rs) on concrete values.
use kepler.Prelude.{
  ℕ, ◌*◌, ◌/◌, ◌^◌, ◌≡◌, ◌≢◌, ◌≤◌, ◌<◌, ◌⊎◌, ◌↔◌, refl, true, not, ◌||◌, none, some, [], ◌∷◌, arith,
  any, string_eq, ltb, eqb, if◌then◌else◌,
}
use kepler.Prelude.Int.{ℤ, pos, negsuc}
use kepler.Prelude.Result.{ok}
use kepler.Text.Decimal.{parse_u64}
use kepler.Text.{split, codes, trim, to_lowercase, digits_then}
use kepler.Duration.{from_millis, parse_duration, format_duration}
use kepler.Duration.RoundTrip.{parse_duration-format_duration}
use kepler.Restart.{
  RestartConfig, RestartPolicy, Floats, static, has, on_failure, on_success, on_unhealthy, delay,
  max_delay, delay_secs, compute_restart_delay, policy,
}
use kepler.Restart.Delay.{compute_restart_delay-le-max_delay, compute_restart_delay_panics}
use kepler.Restart.Policy.{parse, to_string_repr, tokens}
use kepler.Restart.Policy.Laws.{
  parse-to_string_repr, parse-flags, asks_failure, asks_success, asks_unhealthy, is_no_flag,
}
use kepler.State.{ServiceState, default_state, failed, stopped, skipped, persist, to_service_state}
use kepler.State.Laws.{to_service_state-persist}
use kepler.Deps.{
  DependencyConfig, DependsOn, default_dependency, simple, extended, service_failed, filter_matches,
}
use kepler.Deps.ExitCode.{serialize, deserialize}
use kepler.Deps.ExitCode.RoundTrip.{deserialize-serialize}
use kepler.Deps.Condition.{is_condition_met, is_condition_unreachable_by_policy, never_failed}
use kepler.Deps.Condition.Laws.{unreachable_met}

parse_duration-format_duration_example :
    parse_duration (format_duration (from_millis 90000)) ≡ ok (from_millis 90000)
parse_duration-format_duration_example = parse_duration-format_duration 90000 (omega arith)

parse-to_string_repr_example :
    parse (to_string_repr (record { flags = 5 })) ≡ ok (record { flags = 5 })
parse-to_string_repr_example = parse-to_string_repr (record { flags = 5 }) (omega arith)

abbrev restarting_policy : RestartPolicy
restarting_policy = record { flags = 3 }

two_tokens : parse (codes "on-failure|on-success") ≡ ok restarting_policy
unfolding parse split trim
two_tokens = refl

parse-flags_example :
    (3 < 8)
    × (has restarting_policy on_failure ≡ any asks_failure (tokens (codes "on-failure|on-success")))
    × (has restarting_policy on_success ≡ any asks_success (tokens (codes "on-failure|on-success")))
    × (has restarting_policy on_unhealthy
        ≡ any asks_unhealthy (tokens (codes "on-failure|on-success")))
    × ((not (any is_no_flag (tokens (codes "on-failure|on-success"))) || eqb 3 0) ≡ true)
parse-flags_example = parse-flags (codes "on-failure|on-success") restarting_policy two_tokens

power : ℕ → ℤ → ℕ
power b (pos n) = b ^ n
power b (negsuc n) = 0

-- Floating point numbers that are whole, with a `Duration` below 100000 of them.
abbrev whole : Floats
whole = record {
  one = 1;
  powi = power;
  times = λ a b. a * b;
  max_zero = λ a. a;
  as_secs_f64 = λ d. d / 1000000;
  from_secs_f64 = λ a. if ltb a 100000 then some (a * 1000000) else none;
}

abbrev doubling : RestartConfig
doubling =
    RestartConfig.extended restarting_policy (static []) (static "0s") (static "1s") (static 2)
      (static "5s")

capped : compute_restart_delay whole doubling 4 ≡ some 5000000000
unfolding compute_restart_delay delay parse_duration trim parse_u64 digits_then to_lowercase
    delay_secs power max_delay
capped = refl

compute_restart_delay-le-max_delay_example : 5000000000 ≤ max_delay doubling
unfolding max_delay parse_duration trim parse_u64 digits_then to_lowercase
compute_restart_delay-le-max_delay_example =
    compute_restart_delay-le-max_delay whole doubling 4 (omega arith) capped

compute_restart_delay_panics_example :
    (compute_restart_delay whole doubling 10 ≡ none)
    ↔ ((delay doubling ≢ 0) × (whole.from_secs_f64 (delay_secs whole doubling 10) ≡ none))
compute_restart_delay_panics_example = compute_restart_delay_panics whole doubling 10

deserialize-serialize_example :
    deserialize (serialize (record { start = pos 1; end = pos 5 } ∷ []))
    ≡ ok (record { start = pos 1; end = pos 5 } ∷ [])
deserialize-serialize_example =
    deserialize-serialize (record { start = pos 1; end = pos 5 } ∷ [])
      ((omega arith, omega arith, omega arith), tt)

abbrev failed_state : ServiceState ℕ
failed_state = record (default_state ℕ) { status = failed }

abbrev on_failed : DependencyConfig
on_failed = record default_dependency { condition = service_failed }

abbrev on_failure_only : RestartConfig
on_failure_only = RestartConfig.simple (record { flags = 1 })

said :
    is_condition_unreachable_by_policy "db" service_failed (policy on_failure_only)
    ≡ some (never_failed "db")
unfolding is_condition_unreachable_by_policy policy has
said = refl

met : is_condition_met failed_state on_failed (some on_failure_only) ≡ true
unfolding is_condition_met default_state default_dependency filter_matches
met = refl

unreachable_met_example :
    (failed_state.status ≡ stopped)
    ⊎ (failed_state.status ≡ failed)
    ⊎ ((failed_state.status ≡ skipped) × (on_failed.allow_skipped ≡ true))
unreachable_met_example =
    unreachable_met failed_state on_failed on_failure_only "db" (never_failed "db") said
      (λ k. ground (arith, k)) met

abbrev on_db : DependsOn
on_db = simple "web" ∷ extended (("db", record default_dependency { restart = true }) ∷ []) ∷ []

to_service_state-persist_example :
    to_service_state some (persist (λ t. t) (default_state ℤ)) [] "/srv"
    ≡ record (default_state ℤ) { working_dir = "/srv" }
unfolding default_state
to_service_state-persist_example =
    to_service_state-persist (λ t. t) some (λ t. t) (λ t. refl) (default_state ℤ) [] "/srv"
