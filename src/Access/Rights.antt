-- ===== src/Access/Rights.antt =====
-- kepler-daemon/src/permissions.rs: the rights, what a request needs, and the aliases. Of a request
-- (kepler-protocol/src/protocol.rs) the fields that `required_rights` reads are kept.
pub mod Laws
use kepler.Prelude.{
  ℕ, zero, suc, String, Bool, true, false, ◌&&◌, ◌||◌, Option, none, some, List, [], ◌∷◌, ◌++◌,
  if◌then◌else◌, is_empty, is_some, contains, ◌==◌, string_eq,
}
use kepler.Prelude.Maps.{Map, lookup, contains_key}
use kepler.Prelude.Result.{Result, ok, err}
use kepler.Actor.Commands.{RestartState}

unfoldable pub base_rights : List String
base_rights =
    "start" ∷ "run" ∷ "stop" ∷ "restart" ∷ "recreate" ∷ "status" ∷ "inspect" ∷ "logs" ∷ "subscribe"
    ∷ "quiescence" ∷ "readiness" ∷ "monitor" ∷ []

unfoldable pub sub_rights : List String
sub_rights =
    "start:env-override" ∷ "start:hardening" ∷ "start:no-deps" ∷ "run:env-override"
    ∷ "run:hardening" ∷ "run:no-deps" ∷ "run:start-clean" ∷ "stop:clean" ∷ "stop:signal"
    ∷ "restart:env-override" ∷ "restart:inactive" ∷ "restart:no-deps" ∷ "recreate:hardening"
    ∷ "inspect:services" ∷ "inspect:environment" ∷ "inspect:flags" ∷ "logs:search"
    ∷ "logs:search:sql" ∷ "monitor:search" ∷ "monitor:search:sql" ∷ []

unfoldable pub all_rights : List String
unfolding base_rights sub_rights
all_rights = base_rights ++ sub_rights

unfoldable pub builtin_aliases : Map String (List String)
unfolding all_rights
builtin_aliases = ("all", all_rights) ∷ []

find_right : List String → String → Option String
find_right [] right = none
find_right (r ∷ rs) right = if r == right then some r else find_right rs right

unfoldable pub intern_right : String → Option String
unfolding find_right base_rights sub_rights
intern_right right = elim (find_right base_rights right) [
  | some r ↦ some r
  | none ↦ find_right sub_rights right
]

pub record RequiredRights : Type 0 where
  pub base : String
  pub sub : List String

pub data Request : Type 0 where
  start :
      (override_envs : Option (Map String String)) (hardening : Option String) (no_deps : Bool)
      → Request
  run :
      (override_envs : Option (Map String String)) (hardening : Option String)
      (no_deps start_clean : Bool)
      → Request
  stop : (clean : Bool) (signal : Option String) → Request
  restart :
      (override_envs : Option (Map String String)) (no_deps : Bool) (states : List RestartState)
      → Request
  recreate : (hardening : Option String) → Request
  logs_stream monitor_metrics : (filter : Option String) (sql : Bool) → Request
  subscribe_logs subscribe check_quiescence check_readiness inspect : Request
  status : (config_path : Option String) → Request
  ping list_configs shutdown prune config_owner user_rights : Request

-- `if test { s.push(right) }`
abbrev push_if : Bool → String → List String
push_if test right = if test then right ∷ [] else []

abbrev search_rights : Bool → Bool → (search sql_search : String) → List String
search_rights true true search sql_search = search ∷ sql_search ∷ []
search_rights true false search sql_search = search ∷ []
search_rights _ _ search sql_search = []

unfoldable pub required_rights : Request → Option RequiredRights
required_rights (start override_envs hardening no_deps) = some (record {
  base = "start";
  sub =
      push_if (is_some override_envs) "start:env-override"
      ++ push_if (is_some hardening) "start:hardening"
      ++ push_if no_deps "start:no-deps";
})
required_rights (run override_envs hardening no_deps start_clean) = some (record {
  base = "run";
  sub =
      push_if (is_some override_envs) "run:env-override"
      ++ push_if (is_some hardening) "run:hardening"
      ++ push_if no_deps "run:no-deps"
      ++ push_if start_clean "run:start-clean";
})
required_rights (stop clean signal) = some (record {
  base = "stop";
  sub = push_if clean "stop:clean" ++ push_if (is_some signal) "stop:signal";
})
required_rights (restart override_envs no_deps states) = some (record {
  base = "restart";
  sub =
      (if is_empty states then [] else "restart:inactive" ∷ [])
      ++ push_if (is_some override_envs) "restart:env-override"
      ++ push_if no_deps "restart:no-deps";
})
required_rights (recreate hardening) =
    some (record { base = "recreate"; sub = push_if (is_some hardening) "recreate:hardening" })
required_rights (logs_stream filter sql) = some (record {
  base = "logs";
  sub = search_rights (is_some filter) sql "logs:search" "logs:search:sql";
})
required_rights subscribe_logs = some (record { base = "logs"; sub = [] })
required_rights subscribe = some (record { base = "subscribe"; sub = [] })
required_rights check_quiescence = some (record { base = "quiescence"; sub = [] })
required_rights check_readiness = some (record { base = "readiness"; sub = [] })
required_rights inspect = some (record { base = "inspect"; sub = [] })
required_rights (monitor_metrics filter sql) = some (record {
  base = "monitor";
  sub = search_rights (is_some filter) sql "monitor:search" "monitor:search:sql";
})
required_rights (status (some config_path)) = some (record { base = "status"; sub = [] })
required_rights (status none) = none
required_rights ping = none
required_rights list_configs = none
required_rights shutdown = none
required_rights prune = none
required_rights config_owner = none
required_rights user_rights = none

-- The errors of this file, with the names that they show.
pub data RightsError : Type 0 where
  missing_right missing_sub_right unknown_right shadows_right shadows_alias : String → RightsError
  recursive_alias alias_depth_exceeded : (chain : List String) → String → RightsError

check_sub_rights : List String → List String → Result RightsError Unit
check_sub_rights granted [] = ok tt
check_sub_rights granted (sub ∷ subs) =
    if contains granted sub then check_sub_rights granted subs else err (missing_sub_right sub)

check_required : List String → Option RequiredRights → Result RightsError Unit
unfolding check_sub_rights
check_required granted none = ok tt
check_required granted (some r) =
    if contains granted r.base then check_sub_rights granted r.sub else err (missing_right r.base)

unfoldable pub check_rights : List String → Request → Result RightsError Unit
unfolding check_required required_rights
check_rights granted request = check_required granted (required_rights request)

unfoldable pub validate_rights : List String → Map String (List String) → Result RightsError Unit
unfolding all_rights builtin_aliases
validate_rights [] user_aliases = ok tt
validate_rights (right ∷ rights) user_aliases =
    if contains all_rights right
    then validate_rights rights user_aliases
    else if contains_key builtin_aliases right
    then validate_rights rights user_aliases
    else if contains_key user_aliases right
    then validate_rights rights user_aliases
    else err (unknown_right right)

resolve_each :
    (String → List String → Result RightsError (List String))
    → List String
    → List String
    → Result RightsError (List String)
resolve_each resolve [] result = ok result
resolve_each resolve (entry ∷ entries) result = elim (resolve entry result) [
  | err e ↦ err e
  | ok result' ↦ resolve_each resolve entries result'
]

resolve_user :
    (List String → Result RightsError (List String))
    → List String
    → String
    → Option (List String)
    → Result RightsError (List String)
resolve_user expand chain entry none = err (unknown_right entry)
resolve_user expand chain entry (some entries) =
    if contains chain entry then err (recursive_alias chain entry) else expand entries

-- One entry; `expand` resolves the entries of a user's alias.
resolve_entry :
    (List String → Result RightsError (List String))
    → Map String (List String)
    → List String
    → String
    → List String
    → Result RightsError (List String)
unfolding intern_right builtin_aliases resolve_user
resolve_entry expand user_aliases chain entry result = elim (intern_right entry) [
  | some interned ↦ ok (interned ∷ result)
  | none ↦ elim (lookup entry builtin_aliases) [
    | some expanded ↦ ok (expanded ++ result)
    | none ↦ resolve_user expand chain entry (lookup entry user_aliases)
  ]
]

-- `resolve_alias_entry`. The first argument is how many levels of aliases are left: 2 less the depth.
unfoldable pub resolve_alias_entry :
    ℕ
    → Map String (List String)
    → List String
    → String
    → List String
    → Result RightsError (List String)
unfolding resolve_entry resolve_each
resolve_alias_entry zero user_aliases chain entry result =
    resolve_entry (λ entries. err (alias_depth_exceeded chain entry)) user_aliases chain entry
      result
resolve_alias_entry (suc left) user_aliases chain entry result =
    resolve_entry
      (λ entries.
        resolve_each (resolve_alias_entry left user_aliases (chain ++ entry ∷ [])) entries result)
      user_aliases chain entry result

unfoldable pub resolve_aliases :
    List String → Map String (List String) → Result RightsError (List String)
unfolding resolve_each resolve_alias_entry
resolve_aliases allow user_aliases = resolve_each (resolve_alias_entry 2 user_aliases []) allow []

check_shadowing : Map String (List String) → Result RightsError Unit
unfolding all_rights builtin_aliases
check_shadowing [] = ok tt
check_shadowing ((name, entries) ∷ aliases) =
    if contains all_rights name
    then err (shadows_right name)
    else if contains_key builtin_aliases name
    then err (shadows_alias name)
    else check_shadowing aliases

check_resolution : Map String (List String) → Map String (List String) → Result RightsError Unit
unfolding resolve_each resolve_alias_entry
check_resolution user_aliases [] = ok tt
check_resolution user_aliases ((name, entries) ∷ aliases) =
    elim (resolve_each (resolve_alias_entry 1 user_aliases (name ∷ [])) entries []) [
      | err e ↦ err e
      | ok result ↦ check_resolution user_aliases aliases
    ]

unfoldable pub validate_user_aliases : Map String (List String) → Result RightsError Unit
unfolding check_shadowing check_resolution
validate_user_aliases user_aliases = elim (check_shadowing user_aliases) [
  | err e ↦ err e
  | ok _ ↦ check_resolution user_aliases user_aliases
]

unfoldable pub expand_allow :
    List String → Map String (List String) → Result RightsError (List String)
unfolding validate_rights resolve_aliases
expand_allow allow user_aliases = elim (validate_rights allow user_aliases) [
  | err e ↦ err e
  | ok _ ↦ resolve_aliases allow user_aliases
]
