-- ===== src/Restart.antt =====
-- kepler-daemon/src/config/restart.rs: when a service is started again, and `ConfigValue` of
-- kepler-daemon/src/config/mod.rs. A policy is the byte of its flags. An `f64` is its bit pattern.
pub mod Policy
pub mod Delay
use Prim.Native.Nat.{bit_and, bit_or}
use kepler.Prelude.{
  ℕ, ◌-◌, ◌^◌, String, Bool, true, false, not, ◌&&◌, Option, none, some, List, [], ◌∷◌,
  if◌then◌else◌, is_empty, unwrap_or, eqb, ltb,
}
use kepler.Prelude.Int.{ℤ, pos, negsuc, eqb_ℤ}
use kepler.Prelude.Result.{Result, ok, err}
use kepler.Duration.{Duration, DurationError, parse_duration}
use kepler.Text.{codes}

-- `Dynamic` holds an expression that is evaluated when the service starts: here, its text.
pub data ConfigValue (A : Type 0) : Type 0 where
  static : A → ConfigValue A
  dynamic : String → ConfigValue A

unfoldable pub as_static : {A : Type 0} → ConfigValue A → Option A
as_static (static v) = some v
as_static (dynamic e) = none

-- `RestartPolicy(u8)`
pub record RestartPolicy : Type 0 where
  pub flags : ℕ

abbrev pub on_failure : ℕ
on_failure = 1

abbrev pub on_success : ℕ
on_success = 2

abbrev pub on_unhealthy : ℕ
on_unhealthy = 4

abbrev pub always : ℕ
always = bit_or (bit_or on_failure on_success) on_unhealthy

unfoldable pub has : RestartPolicy → ℕ → Bool
has p flag = not (eqb (bit_and p.flags flag) 0)

unfoldable pub is_no : RestartPolicy → Bool
is_no p = eqb p.flags 0

-- `RestartPolicy::should_restart_on_exit`
unfoldable pub policy_restarts : RestartPolicy → Option ℤ → Bool
policy_restarts p none = has p on_failure
policy_restarts p (some code) = if eqb_ℤ code (pos 0) then has p on_success else has p on_failure

-- An `f64`, by its bit pattern.
abbrev pub F64 : Type 0
F64 = ℕ

pub data RestartConfig : Type 0 where
  simple : RestartPolicy → RestartConfig
  extended :
      (policy : RestartPolicy) (watch : ConfigValue (List (ConfigValue String)))
      (grace_period delay : ConfigValue String) (backoff : ConfigValue F64)
      (max_delay : ConfigValue String)
      → RestartConfig

-- `RestartConfig::default`
unfoldable pub default_restart : RestartConfig
default_restart = simple (record { flags = 0 })

unfoldable pub policy : RestartConfig → RestartPolicy
policy (simple p) = p
policy (extended p _ _ _ _ _) = p

unfoldable pub should_restart_on_exit : RestartConfig → Option ℤ → Bool
unfolding policy policy_restarts has
should_restart_on_exit r code = policy_restarts (policy r) code

unfoldable pub should_restart_on_unhealthy : RestartConfig → Bool
unfolding policy has
should_restart_on_unhealthy r = has (policy r) on_unhealthy

static_items : List (ConfigValue String) → List String
static_items [] = []
static_items (static v ∷ items) = v ∷ static_items items
static_items (dynamic e ∷ items) = static_items items

static_watch : Option (List (ConfigValue String)) → List String
unfolding static_items
static_watch (some items) = static_items items
static_watch none = []

unfoldable pub watch_patterns : RestartConfig → List String
unfolding static_watch as_static
watch_patterns (simple _) = []
watch_patterns (extended _ watch _ _ _ _) = static_watch (as_static watch)

unfoldable pub should_restart_on_file_change : RestartConfig → Bool
unfolding watch_patterns
should_restart_on_file_change r = not (is_empty (watch_patterns r))

-- The one error of `RestartConfig::validate`.
pub data RestartError : Type 0 where
  watch_requires_restart : RestartError

unfoldable pub validate : RestartConfig → Result RestartError Unit
unfolding watch_patterns policy is_no
validate r =
    if not (is_empty (watch_patterns r)) && is_no (policy r)
    then err watch_requires_restart
    else ok tt

-- `as_static().and_then(|s| parse_duration(s).ok()).unwrap_or(Duration::ZERO)`
or_zero : Result DurationError Duration → Duration
or_zero (ok d) = d
or_zero (err e) = 0

duration_or_zero : Option String → Duration
unfolding or_zero
duration_or_zero none = 0
duration_or_zero (some s) = or_zero (parse_duration (codes s))

unfoldable pub grace_period : RestartConfig → Duration
unfolding duration_or_zero as_static
grace_period (simple _) = 0
grace_period (extended _ _ g _ _ _) = duration_or_zero (as_static g)

unfoldable pub delay : RestartConfig → Duration
unfolding duration_or_zero as_static
delay (simple _) = 0
delay (extended _ _ _ d _ _) = duration_or_zero (as_static d)

unfoldable pub max_delay : RestartConfig → Duration
unfolding duration_or_zero as_static
max_delay (simple _) = 0
max_delay (extended _ _ _ _ _ m) = duration_or_zero (as_static m)

-- `restart_count_since_healthy as i32`
abbrev pub as_i32 : ℕ → ℤ
as_i32 n = if ltb n (2 ^ 31) then pos n else negsuc (2 ^ 32 - 1 - n)

-- The operations of `f64` that the delay is computed with. `from_secs_f64` panics on a value that
-- is not finite or too large for a `Duration`: `none`.
pub record Floats : Type 0 where
  pub one : F64
  pub powi : F64 → ℤ → F64
  pub times : F64 → F64 → F64
  pub max_zero : F64 → F64
  pub as_secs_f64 : Duration → F64
  pub from_secs_f64 : F64 → Option Duration

module _ (fl : Floats) where
  unfoldable pub backoff_factor : RestartConfig → F64
  unfolding as_static
  backoff_factor (simple _) = fl.one
  backoff_factor (extended _ _ _ _ b _) = unwrap_or (as_static b) fl.one

  -- `max(delay_secs, 0.0)`, before the conversion
  unfoldable pub delay_secs : RestartConfig → ℕ → F64
  unfolding backoff_factor
  delay_secs r count =
      fl.max_zero (fl.times (fl.as_secs_f64 (delay r)) (fl.powi (backoff_factor r) (as_i32 count)))

  clamp_delay : Duration → Option Duration → Option Duration
  clamp_delay cap none = none
  clamp_delay cap (some computed) =
      some (if not (eqb cap 0) && ltb cap computed then cap else computed)

  -- `none` is the panic of `from_secs_f64`.
  unfoldable pub compute_restart_delay : RestartConfig → ℕ → Option Duration
  unfolding clamp_delay
  compute_restart_delay r count =
      if eqb (delay r) 0
      then some 0
      else clamp_delay (max_delay r) (fl.from_secs_f64 (delay_secs r count))
