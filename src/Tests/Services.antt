-- ===== src/Tests/Services.antt =====
-- The lifecycle of kepler-daemon/src/config_actor/actor.rs and the order of kepler-daemon/src/deps.rs
-- on two services: `db`, and `web`, which depends on it.
use kepler.Prelude.{
  ℕ, suc, ◌<◌, ◌≤◌, ◌≡◌, ◌≢◌, refl, String, Bool, true, false, not, ◌&&◌, ◌||◌, none, some, List,
  [], ◌∷◌, if◌then◌else◌, arith, contains, string_eq, ◌==◌, Bool-cases, inl, inr,
}
use mathlib.Core.Path.{subst}
use kepler.Prelude.Int.{pos}
use kepler.Prelude.Maps.{Map, keys, lookup, insert, adjust, remove, contains_key}
use kepler.Prelude.Result.{ok}
use kepler.State.{
  as_str, ServiceState, default_state, stopped, running, stopping, exited, is_active, is_running,
}
use kepler.Restart.{static, default_restart, as_static, should_restart_on_exit}
use kepler.Deps.{Services, RawServiceConfig, simple, names}
use kepler.Deps.Order.{topological_sort, find_missing, get_start_order, sort}
use kepler.Deps.Levels.{get_start_levels, get_service_with_deps}
use kepler.Deps.Levels.Needed.Ordered.{IsNeeded}
use kepler.Deps.Levels.Needed.Total.{get_service_with_deps_acyclic}
use kepler.Deps.Levels.Grouped.{IsLeveled, get_start_levels-IsLeveled}
use kepler.Deps.Levels.Acyclic.{get_start_levels_acyclic}
use kepler.Deps.Order.Counting.{IsNodup, count}
use kepler.Deps.Order.Edges.{deps_of}
use kepler.Deps.Order.Found.{topological_sort-IsOrdered, topological_sort-acyclic}
use kepler.Deps.Order.Sorted.{IsOrdered}
use kepler.Actor.{Actor, service_startup, generation, wrapping_suc}
use kepler.Actor.Signals.{compute_quiescence, compute_ready, is_waiting, is_stopped}
use kepler.Actor.Signals.Laws.{IsQuiet, compute_ready_lem}
use kepler.Actor.Kept.{IsConsistent}
use kepler.Actor.Status.{set_service_status, invalidates}
use kepler.Actor.Change.Entered.{
  begins_anew, starts_up, runs_now, entered, set_service_status-entered,
}
use kepler.Actor.Commands.{transition_service_startup, claim_service_start}
use kepler.Actor.Commands.Step.{start, step, recheck, claim_start, set_status, process_command}
use kepler.Actor.Commands.Quiescence.{compute_quiescence-IsQuiet}
use kepler.Actor.Commands.Startup.{
  Steps-IsConsistent, stopping-transition_service_startup, claim_service_start_once,
}

-- A partition point of a list: the number of elements at its front that pass.
abbrev first_point : (String → Bool) → List String → ℕ
first_point p [] = 0
first_point p (x ∷ xs) = let rest = first_point p xs in if p x then suc rest else 0

abbrev web_raw : RawServiceConfig
web_raw = record {
  restart = static default_restart;
  depends_on = simple "db" ∷ [];
  healthcheck = static none;
}

abbrev config : Services
config =
    ("web", web_raw)
    ∷ (
      "db",
      record { restart = static default_restart; depends_on = []; healthcheck = static none },
    )
    ∷ []

abbrev two_services : Map String (ServiceState ℕ)
two_services = ("web", default_state ℕ) ∷ ("db", default_state ℕ) ∷ []

abbrev loaded : Actor ℕ
loaded = record {
  config = config;
  services = two_services;
  startup_generations = [];
  startup_claims = [];
  initialized = false;
  resolved_configs = [];
  processes = [];
  health_checks = [];
  aborted = [];
  service_instances = [];
  next_service_instance = 0;
  health_check_sessions = [];
  next_health_check = 0;
  owner_uid = none;
  last_ready = false;
  last_quiescent = false;
  startup_in_progress = false;
  cached_topo_order = none;
  emitted = [];
  dep_notices = [];
  saved = none;
}

loaded-IsConsistent : IsConsistent loaded
unfolding lookup
loaded-IsConsistent = record {
  current = λ n g e. absurd (ground (arith, e));
  claimed = λ n g e. absurd (ground (arith, e));
  checked = λ n s e. absurd (ground (arith, e));
}

-- After `web` was claimed at the time 7.
abbrev claimed : Actor ℕ
claimed = process_command first_point pos 7 loaded (claim_start "web")

claimed-IsConsistent : IsConsistent claimed
claimed-IsConsistent =
    Steps-IsConsistent first_point pos 1 loaded claimed loaded-IsConsistent
      (step start 7 (claim_start "web"))

token_is_one : service_startup claimed "web" ≡ some 1
unfolding service_startup process_command default_state get_start_order lookup invalidates adjust
    topological_sort find_missing names contains insert sort should_restart_on_exit as_static
    default_restart remove
token_is_one = refl

order_example : topological_sort first_point config ≡ ok ("db" ∷ "web" ∷ [])
unfolding topological_sort find_missing names contains lookup insert sort adjust
order_example = refl

stopping-transition_service_startup_example :
    transition_service_startup first_point pos 9
      (process_command first_point pos 8
        (set_service_status first_point 8 claimed "web" stopping).1
        (claim_start "web"))
      "web"
      1
      running
      none
      none
    ≡ (
      false,
      process_command first_point pos 8
          (set_service_status first_point 8 claimed "web" stopping).1
          (claim_start "web"),
    )
stopping-transition_service_startup_example =
    stopping-transition_service_startup first_point pos 1 claimed
      (process_command first_point pos 8 (set_service_status first_point 8 claimed "web" stopping).1
        (claim_start "web"))
      8 9 "web" 1 running none none claimed-IsConsistent token_is_one (omega arith)
      (step start 8 (claim_start "web"))

-- `web` was claimed and stopped.
abbrev stopped_again : Actor ℕ
stopped_again =
    process_command first_point pos 8 (claim_service_start first_point pos 7 loaded "web").1
      (set_status "web" stopped)

first_token : (claim_service_start first_point pos 7 loaded "web").0 ≡ some 1
unfolding claim_service_start lookup default_state invalidates adjust get_start_order
    topological_sort find_missing names contains insert sort should_restart_on_exit as_static
    default_restart
first_token = refl

second_token : (claim_service_start first_point pos 9 stopped_again "web").0 ≡ some 2
unfolding claim_service_start process_command lookup default_state invalidates adjust
    get_start_order topological_sort find_missing names contains insert sort should_restart_on_exit
    as_static default_restart
second_token = refl

claim_service_start_once_example : ◌≢◌ {A = ℕ} 1 2
claim_service_start_once_example =
    claim_service_start_once first_point pos 1 loaded stopped_again 7 9 "web" 1 2
      loaded-IsConsistent first_token (omega arith) (step start 8 (set_status "web" stopped))
      second_token

Steps-IsConsistent_example :
    IsConsistent (process_command first_point pos 7 loaded (claim_start "web"))
Steps-IsConsistent_example =
    Steps-IsConsistent first_point pos 1 loaded
      (process_command first_point pos 7 loaded (claim_start "web")) loaded-IsConsistent
      (step start 7 (claim_start "web"))

set_service_status-entered_example :
    let b = (set_service_status first_point 7 loaded "web" running).1 in
    let anew = begins_anew "stopped" "running" in
    ((set_service_status first_point 7 loaded "web" running).0 ≡ ok tt)
    × ((n : String)
        → lookup n b.services ≡ (
            if "web" == n
            then some (entered 7 running (default_state ℕ))
            else lookup n loaded.services))
    × ((n : String)
        → generation b n ≡ (
            if "web" == n && anew then wrapping_suc (generation loaded n) else generation loaded n))
    × ((n : String)
        → lookup n b.startup_claims ≡ (
            if "web" == n && (anew || not (starts_up "running"))
            then none
            else lookup n loaded.startup_claims))
    × ((n : String)
        → (lookup n b.health_check_sessions ≡ (
            if "web" == n && not (runs_now "running")
            then none
            else lookup n loaded.health_check_sessions))
          × (lookup n b.health_checks ≡ (
              if "web" == n && not (runs_now "running")
              then none
              else lookup n loaded.health_checks)))
unfolding lookup default_state as_str
set_service_status-entered_example =
    set_service_status-entered first_point 7 loaded "web" running (default_state ℕ) refl

topological_sort-IsOrdered_example :
    IsOrdered config [] ("db" ∷ "web" ∷ [])
    × IsNodup ("db" ∷ "web" ∷ [])
    × ((x : String) → contains ("db" ∷ "web" ∷ []) x ≡ contains (keys config) x)
topological_sort-IsOrdered_example =
    topological_sort-IsOrdered first_point config ("db" ∷ "web" ∷ []) order_example

abbrev rank : String → ℕ
rank x = if x == "web" then 1 else 0

no_missing : find_missing (keys config) config ≡ none
unfolding find_missing names contains
no_missing = refl

config-IsNodup : IsNodup (keys config)
unfolding count
config-IsNodup a = elim (Bool-cases ("web" == a)) [
  | inl w ↦ subst (λ x. count x (keys config) ≤ 1) ((string_eq.beq_iff "web" a).0 w) (omega arith)
  | inr w ↦ ground (arith, w)
]

falls_from_web : (d : String) → 0 < count d ("db" ∷ []) → rank d < 1
unfolding count
falls_from_web d p = elim (Bool-cases ("db" == d)) [
  | inl e ↦ subst (λ x. rank x < 1) ((string_eq.beq_iff "db" d).0 e) (omega arith)
  | inr e ↦ absurd (ground (arith, e, p))
]

rank_falls : (d x : String) → 0 < count d (deps_of x config) → rank d < rank x
unfolding deps_of names count
rank_falls d x p = elim (Bool-cases ("web" == x)) [
  | inl e ↦
      subst (λ y. 0 < count d (deps_of y config) → rank d < rank y)
        ((string_eq.beq_iff "web" x).0 e) (falls_from_web d) p
  | inr e ↦ absurd (ground (arith, e, p))
]

topological_sort-acyclic_example :
    (order : List String) × (topological_sort first_point config ≡ ok order)
topological_sort-acyclic_example =
    topological_sort-acyclic first_point config rank no_missing config-IsNodup rank_falls

-- The actor after a first evaluation, which keeps the order.
abbrev rechecked : Actor ℕ
rechecked = process_command first_point pos 7 loaded recheck

all_settled_now : (compute_quiescence first_point rechecked).0 ≡ true
unfolding compute_quiescence process_command get_start_order topological_sort find_missing names
    contains lookup insert sort adjust default_state should_restart_on_exit as_static
    default_restart
all_settled_now = refl

web_configured : lookup "web" rechecked.config ≡ some web_raw
unfolding lookup process_command compute_quiescence get_start_order topological_sort find_missing
    names contains insert sort adjust default_state should_restart_on_exit as_static default_restart
web_configured = refl

web_stopped : lookup "web" rechecked.services ≡ some (default_state ℕ)
unfolding lookup process_command compute_quiescence get_start_order topological_sort find_missing
    names contains insert sort adjust default_state should_restart_on_exit as_static default_restart
web_stopped = refl

compute_quiescence-IsQuiet_example : IsQuiet rechecked "web" (default_state ℕ)
compute_quiescence-IsQuiet_example =
    compute_quiescence-IsQuiet first_point pos 1 loaded rechecked "web" (default_state ℕ) web_raw
      refl (step start 7 recheck) all_settled_now web_configured web_stopped

-- Both services have exited.
abbrev exited_state : ServiceState ℕ
exited_state = record (default_state ℕ) { status = exited }

abbrev both_exited : Actor ℕ
both_exited = record loaded { services = ("web", exited_state) ∷ ("db", exited_state) ∷ [] }

all_ready : compute_ready both_exited ≡ true
unfolding compute_ready lookup
all_ready = refl

compute_ready_lem_example :
    (is_running exited || is_waiting exited || not (is_active exited) && not (is_stopped exited))
    ≡ true
unfolding contains lookup
compute_ready_lem_example = compute_ready_lem both_exited "web" exited_state all_ready refl refl

levels_example : get_start_levels config ≡ ok (("db" ∷ []) ∷ ("web" ∷ []) ∷ [])
unfolding get_start_levels lookup insert contains names sort find_missing
levels_example = refl

get_start_levels-IsLeveled_example : IsLeveled config (("db" ∷ []) ∷ ("web" ∷ []) ∷ [])
get_start_levels-IsLeveled_example =
    get_start_levels-IsLeveled config (("db" ∷ []) ∷ ("web" ∷ []) ∷ []) levels_example

web_with_deps : get_service_with_deps first_point "web" config ≡ ok ("db" ∷ "web" ∷ [])
unfolding get_service_with_deps topological_sort find_missing names contains lookup insert sort
    adjust
web_with_deps = refl

web_known : contains_key config "web" ≡ true
unfolding lookup
web_known = refl

get_service_with_deps_acyclic_example :
    (order : List String) × (get_service_with_deps first_point "web" config ≡ ok order)
    × IsNeeded config "web" order
get_service_with_deps_acyclic_example =
    get_service_with_deps_acyclic first_point config "web" rank web_known no_missing config-IsNodup
      rank_falls

get_start_levels_acyclic_example :
    (levels : List (List String)) × (get_start_levels config ≡ ok levels)
get_start_levels_acyclic_example = get_start_levels_acyclic config rank no_missing rank_falls
