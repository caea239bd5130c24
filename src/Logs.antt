-- ===== src/Logs.antt =====
-- The log reader of kepler-daemon/src/logs/log_reader.rs and the levels and fields of logs/mod.rs, with
-- the check of raw filters of kepler-daemon/src/query/filter.rs. The database is a parameter: whether
-- it opens, and what a statement with its parameters gives.
pub mod Conditions
pub mod Filter
pub mod Json
pub mod Reader
pub mod Reading
use kepler.Prelude.{
  ℕ, zero, suc, ◌+◌, ◌-◌, ◌%◌, ◌^◌, ◌≤◌, String, Bool, true, false, not, ◌||◌, Option, none, some,
  List, [], ◌∷◌, ◌++◌, if◌then◌else◌, eqb, ltb, leb, length, is_empty, map,
}
use kepler.Prelude.Int.{ℤ, pos}
use kepler.Prelude.Result.{Result, ok, err, ◌>>=◌}
use kepler.Restart.{F64}
use kepler.Text.{Str, codes, str_beq, trim, to_lowercase}
use kepler.Query.{QueryDsl, Field, ColumnType, SqlValue, SqlFragment, new_field, build}
use kepler.Query.Sql.{placeholder, sql_with_offset, as_bytes}

-- The errors of `validate_filter`, without their texts
pub data FilterError : Type 0 where
  empty_filter filter_too_long filter_has_placeholder : FilterError

has_char : ℕ → Str → Bool
has_char c [] = false
has_char c (x ∷ s) = eqb x c || has_char c s

unfoldable pub validate_filter : Str → Result FilterError (Unit {0})
unfolding trim as_bytes has_char
validate_filter filter =
    if is_empty (trim filter)
    then err empty_filter
    else if ltb 4096 (length (as_bytes (trim filter)))
    then err filter_too_long
    else if has_char b'?' (trim filter)
    then err filter_has_placeholder
    else ok tt

pub data BindValue : Type 0 where
  text : Str → BindValue
  int : ℤ → BindValue
  real : F64 → BindValue

unfoldable pub from_sql : SqlValue → BindValue
from_sql (SqlValue.text s) = text s
from_sql (SqlValue.integer i) = int i
from_sql (SqlValue.real f) = real f

-- The two vectors that `build_filter` fills
pub record Building : Type 0 where
  pub conditions : List Str
  pub bind : List BindValue

-- `parts.join(sep)` with a text between
unfoldable pub join_with : Str → List Str → Str
join_with sep [] = []
join_with sep (s ∷ []) = s
join_with sep (s ∷ t ∷ rest) = s ++ (sep ++ join_with sep (t ∷ rest))

-- A parameter, and the condition that compares with it
unfoldable pub push_bound : Str → BindValue → Building → Building
push_bound prefix value b = record {
  conditions = b.conditions ++ (prefix ++ placeholder (length b.bind + 1)) ∷ [];
  bind = b.bind ++ value ∷ [];
}

unfoldable pub push_condition : Str → Building → Building
push_condition condition b = record b { conditions = b.conditions ++ condition ∷ [] }

-- The placeholders of the services, which are pushed one by one
unfoldable pub push_services : List Str → List BindValue → List Str × List BindValue
push_services [] bind = ([], bind)
push_services (svc ∷ rest) bind =
    let bound = bind ++ text svc ∷ [] in
    let (placeholders, all_bound) = push_services rest bound in
    (placeholder (length bound) ∷ placeholders, all_bound)

unfoldable pub list_condition : Building → List Str × List BindValue → Building
unfolding join_with
list_condition b (placeholders, bound) = record {
  conditions =
      b.conditions
      ++ (codes "service IN (" ++ (join_with (codes ", ") placeholders ++ codes ")")) ∷ [];
  bind = bound;
}

unfoldable pub service_condition : List Str → Building → Building
unfolding push_bound push_services list_condition
service_condition [] b = b
service_condition (svc ∷ []) b = push_bound (codes "service = ") (text svc) b
service_condition (svc ∷ next ∷ rest) b =
    list_condition b (push_services (svc ∷ next ∷ rest) b.bind)

unfoldable pub hook_condition : Bool → Building → Building
unfolding push_condition
hook_condition false b = b
hook_condition true b = push_condition (codes "hook IS NULL") b

unfoldable pub bound_condition : Str → Option ℤ → Building → Building
unfolding push_bound
bound_condition prefix none b = b
bound_condition prefix (some ts) b = push_bound prefix (int ts) b

unfoldable pub add_filter : SqlFragment → Building → Option Str → Option Building
unfolding from_sql
add_filter frag b none = none
add_filter frag b (some shifted) = some (record {
  conditions = b.conditions ++ (codes "(" ++ (shifted ++ codes ")")) ∷ [];
  bind = b.bind ++ map from_sql frag.params;
})

-- The filter, its placeholders shifted behind the parameters so far; `none` is a panic of the shift.
unfoldable pub filter_condition : Option SqlFragment → Building → Option Building
unfolding add_filter sql_with_offset
filter_condition none b = some b
filter_condition (some frag) b = add_filter frag b (sql_with_offset frag (length b.bind))

unfoldable pub where_clause : Building → Str × List BindValue
unfolding join_with
where_clause b =
    if is_empty b.conditions
    then ([], b.bind)
    else (codes "WHERE " ++ join_with (codes " AND ") b.conditions, b.bind)

unfoldable pub finish : Option Building → Option (Str × List BindValue)
unfolding where_clause
finish none = none
finish (some b) = some (where_clause b)

unfoldable pub build_filter :
    List Str → Bool → Option SqlFragment → Option ℤ → Option ℤ → Option (Str × List BindValue)
unfolding finish filter_condition bound_condition hook_condition service_condition
build_filter services no_hooks filter after_ts before_ts =
    let empty : Building = record { conditions = []; bind = [] } in
    let scoped = hook_condition no_hooks (service_condition services empty) in
    let bounded =
      bound_condition (codes "timestamp <= ") before_ts
        (bound_condition (codes "timestamp >= ") after_ts scoped) in
    finish (filter_condition filter bounded)
