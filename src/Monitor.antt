-- ===== src/Monitor.antt =====
-- The queries of kepler-daemon/src/monitor/query.rs on the metrics of services. The database is a
-- parameter: what a statement gives with its values, if it gives anything; rows that cannot be read
-- are left out by it. The outer `Option` of `query_filtered` is a panic of the shift of placeholders.
pub mod Filtered
use kepler.Prelude.{ℕ, zero, suc, ◌+◌, Option, none, some, List, [], ◌∷◌, ◌++◌, unwrap_or, length}
use kepler.Prelude.Int.{ℤ, pos, negsuc}
use kepler.Restart.{F64}
use kepler.Text.{Str, codes}
use kepler.Text.Decimal.{print}
use kepler.Query.{QueryDsl, ColumnType, SqlFragment, new_field, build}
use kepler.Query.Sql.{placeholder}
use kepler.Logs.{
  BindValue, int, text, Building, push_bound, bound_condition, filter_condition, where_clause,
}
use kepler.Logs.Reader.{as_i64}

pub record MonitorMetricEntry : Type 0 where
  pub timestamp : ℤ
  pub service : Str
  pub cpu_percent : F64
  pub memory_rss : ℕ
  pub memory_vss : ℕ
  pub pids : List ℕ

abbrev pub Rows : Type 0
Rows = Str → List BindValue → Option (List MonitorMetricEntry)

unfoldable pub raw_clause : Str × Str
raw_clause =
    (codes "SELECT timestamp, service, cpu_percent, memory_rss, memory_vss, pids", codes "")

-- The SELECT and the GROUP BY clause
unfoldable pub bucket_select_clause : Option ℤ → Str × Str
unfolding print raw_clause
bucket_select_clause none = raw_clause
bucket_select_clause (some (negsuc n)) = raw_clause
bucket_select_clause (some (pos zero)) = raw_clause
bucket_select_clause (some (pos (suc n))) = (
  codes "SELECT (timestamp / "
      ++ (print (suc n)
          ++ (codes ") * "
              ++ (print (suc n)
                  ++ codes
                      " AS timestamp, service, AVG(cpu_percent) AS cpu_percent, MAX(memory_rss) AS memory_rss, MAX(memory_vss) AS memory_vss, '[]' AS pids"))),
  codes "GROUP BY 1, service",
)

unfoldable pub one_service : Option Str → Building → Building
unfolding push_bound
one_service none b = b
one_service (some svc) b = push_bound (codes "service = ") (text svc) b

-- The statement, with the limit as the last value
unfoldable pub statement : Option ℕ → Option ℤ → Building → Str × List BindValue
unfolding bucket_select_clause where_clause as_i64
statement limit bucket_ms b =
    let (select, group_by) = bucket_select_clause bucket_ms in
    let (clause, bind) = where_clause b in
    (
      select
          ++ (codes " FROM metrics "
              ++ (clause
                  ++ (codes " "
                      ++ (group_by
                          ++ (codes " ORDER BY 1 ASC LIMIT " ++ placeholder (length bind + 1)))))),
      bind ++ int (as_i64 (unwrap_or limit 10000)) ∷ [],
    )

abbrev pub start : Building
start = record { conditions = []; bind = [] }

unfoldable pub history_conditions : Option Str → ℤ → Option ℤ → Building
unfolding one_service bound_condition push_bound
history_conditions service since before_ts =
    bound_condition (codes "timestamp <= ") before_ts
      (one_service service (push_bound (codes "timestamp >= ") (int since) start))

unfoldable pub filtered_conditions :
    Option Str → Option ℤ → SqlFragment → Option ℤ → Option ℤ → Option Building
unfolding one_service bound_condition filter_condition
filtered_conditions service since frag after_ts before_ts = filter_condition (some frag) (
    bound_condition (codes "timestamp <= ") before_ts (
      bound_condition (codes "timestamp >= ") after_ts
        (bound_condition (codes "timestamp >= ") since (one_service service start))))

module _ (query_rows : Rows) where
  unfoldable pub query_latest : Option Str → Option (List MonitorMetricEntry)
  query_latest (some svc) =
      query_rows
        (codes
          "SELECT timestamp, service, cpu_percent, memory_rss, memory_vss, pids FROM metrics WHERE service = ?1 ORDER BY timestamp DESC LIMIT 1")
        (text svc ∷ [])
  query_latest none =
      query_rows
        (codes
          "SELECT m.timestamp, m.service, m.cpu_percent, m.memory_rss, m.memory_vss, m.pids FROM metrics m INNER JOIN (SELECT service, MAX(timestamp) as max_ts FROM metrics GROUP BY service) latest ON m.service = latest.service AND m.timestamp = latest.max_ts")
        []

  unfoldable pub run : Str × List BindValue → Option (List MonitorMetricEntry)
  run (sql, bind) = query_rows sql bind

  unfoldable pub query_history :
      Option Str → ℤ → Option ℕ → Option ℤ → Option ℤ → Option (List MonitorMetricEntry)
  unfolding statement history_conditions run
  query_history service since limit bucket_ms before_ts =
      run (statement limit bucket_ms (history_conditions service since before_ts))

  unfoldable pub run_each :
      Option ℕ → Option ℤ → Option Building → Option (Option (List MonitorMetricEntry))
  unfolding statement run
  run_each limit bucket_ms none = none
  run_each limit bucket_ms (some b) = some (run (statement limit bucket_ms b))

  unfoldable pub query_filtered :
      Option Str
      → Option ℤ
      → Option ℕ
      → SqlFragment
      → Option ℤ
      → Option ℤ
      → Option ℤ
      → Option (Option (List MonitorMetricEntry))
  unfolding filtered_conditions run_each
  query_filtered service since limit frag bucket_ms after_ts before_ts =
      run_each limit bucket_ms (filtered_conditions service since frag after_ts before_ts)

unfoldable pub monitor_query_dsl : QueryDsl
unfolding build new_field
monitor_query_dsl =
    build
      (new_field ColumnType.text (codes "service")
        ∷ new_field ColumnType.int (codes "timestamp")
        ∷ new_field ColumnType.real (codes "cpu_percent")
        ∷ new_field ColumnType.int (codes "memory_rss")
        ∷ new_field ColumnType.int (codes "memory_vss")
        ∷ [])
      none
