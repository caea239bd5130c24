-- ===== src/Deps.antt =====
-- kepler-daemon/src/config/deps.rs: what a service declares of the services that it depends on.
pub mod ExitCode
pub mod Condition
pub mod Names
pub mod Order
pub mod Levels
use kepler.Prelude.{
  ℕ, ◌≡◌, String, Bool, true, false, ◌||◌, ◌&&◌, Option, none, some, List, [], ◌∷◌, ◌++◌,
  if◌then◌else◌, is_empty, any, map, ◌==◌, string_eq,
}
use kepler.Prelude.Int.{ℤ, leb_ℤ}
use kepler.Prelude.Maps.{Map, keys, lookup}
use kepler.Duration.{Duration}
use kepler.Restart.{RestartConfig, ConfigValue, default_restart, as_static, static, dynamic}

pub data DependencyCondition : Type 0 where
  service_started service_healthy service_completed_successfully service_unhealthy service_failed
        service_stopped :
      DependencyCondition

-- Both ends belong to the range.
pub record ExitCodeRange : Type 0 where
  pub start : ℤ
  pub end : ℤ

abbrev pub ExitCodeFilter : Type 0
ExitCodeFilter = List ExitCodeRange

unfoldable pub in_range : ℤ → ExitCodeRange → Bool
in_range code r = leb_ℤ r.start code && leb_ℤ code r.end

-- `ExitCodeFilter::matches`: an empty filter matches every code
unfoldable pub filter_matches : ExitCodeFilter → ℤ → Bool
unfolding any in_range
filter_matches filter code = if is_empty filter then true else any (in_range code) filter

pub record DependencyConfig : Type 0 where
  pub condition : DependencyCondition
  pub timeout : Option Duration
  pub restart : Bool
  pub exit_code : ExitCodeFilter
  pub allow_skipped : Bool

-- `DependencyConfig::default`
unfoldable pub default_dependency : DependencyConfig
default_dependency = record {
  condition = service_started;
  timeout = none;
  restart = false;
  exit_code = [];
  allow_skipped = false;
}

pub data DependencyEntry : Type 0 where
  simple : String → DependencyEntry
  extended : Map String DependencyConfig → DependencyEntry

-- `DependsOnFormat`: a list of entries, or one map
pub data DependsOnFormat : Type 0 where
  list : List DependencyEntry → DependsOnFormat
  map_of : Map String DependencyConfig → DependsOnFormat

abbrev pub DependsOn : Type 0
DependsOn = List DependencyEntry

unfoldable pub from_format : DependsOnFormat → DependsOn
from_format (list entries) = entries
from_format (map_of m) = extended m ∷ []

entry_names : DependencyEntry → List String
entry_names (simple name) = name ∷ []
entry_names (extended m) = keys m

-- `DependsOn::names`
unfoldable pub names : DependsOn → List String
unfolding entry_names
names [] = []
names (entry ∷ entries) = entry_names entry ++ names entries

entry_get : String → DependencyEntry → Option DependencyConfig
unfolding default_dependency lookup
entry_get name (simple n) = if n == name then some default_dependency else none
entry_get name (extended m) = lookup name m

or_else : Option DependencyConfig → Option DependencyConfig → Option DependencyConfig
or_else none rest = rest
or_else (some c) rest = some c

-- `DependsOn::get`: the first entry that has the name
unfoldable pub get : DependsOn → String → Option DependencyConfig
unfolding entry_get or_else
get [] name = none
get (entry ∷ entries) name = or_else (entry_get name entry) (get entries name)

entry_pairs : DependencyEntry → List (String × DependencyConfig)
entry_pairs (simple name) = (name, default_dependency) ∷ []
entry_pairs (extended m) = m

-- `DependsOn::iter`
unfoldable pub pairs : DependsOn → List (String × DependencyConfig)
unfolding entry_pairs default_dependency
pairs [] = []
pairs (entry ∷ entries) = entry_pairs entry ++ pairs entries

restart_of : Option DependencyConfig → Bool
restart_of none = false
restart_of (some c) = c.restart

-- `DependsOn::should_restart_on_dependency`
unfoldable pub should_restart_on_dependency : DependsOn → String → Bool
unfolding restart_of get
should_restart_on_dependency deps name = restart_of (get deps name)

names_with_restart : List (String × DependencyConfig) → List String
names_with_restart [] = []
names_with_restart ((name, c) ∷ ps) =
    let rest = names_with_restart ps in if c.restart then name ∷ rest else rest

-- `DependsOn::dependencies_with_restart`
unfoldable pub dependencies_with_restart : DependsOn → List String
unfolding names_with_restart pairs
dependencies_with_restart deps = names_with_restart (pairs deps)

-- The fields of `RawServiceConfig` (config/mod.rs) that the modelled code reads. A health check is
-- the text of its section.
pub record RawServiceConfig : Type 0 where
  pub restart : ConfigValue RestartConfig
  pub depends_on : DependsOn
  pub healthcheck : ConfigValue (Option String)

-- `raw.restart.as_static().cloned().unwrap_or_default()`
unfoldable pub static_restart : RawServiceConfig → RestartConfig
static_restart raw = elim (as_static raw.restart) [ some r ↦ r | none ↦ default_restart ]

has_check : ConfigValue (Option String) → Bool
has_check (static none) = false
has_check (static (some _)) = true
has_check (dynamic e) = true

unfoldable pub has_healthcheck : RawServiceConfig → Bool
unfolding has_check
has_healthcheck raw = has_check raw.healthcheck

abbrev pub Services : Type 0
Services = Map String RawServiceConfig
