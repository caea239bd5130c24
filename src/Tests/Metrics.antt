-- ===== src/Tests/Metrics.antt =====
-- The queries for metrics (kepler-daemon/src/monitor) on a concrete filter.
use kepler.Prelude.{◌≡◌, refl, false, none, some, [], ◌∷◌, Option, arith, length}
use kepler.Prelude.Int.{pos}
use kepler.Prelude.Result.{ok}
use kepler.Restart.{F64}
use kepler.Text.{Str, codes}
use kepler.Text.Decimal.{parse_u64}
use kepler.Query.{Expr, SqlValue, field_match}
use kepler.Query.Sql.{resolve_field, resolved_col}
use kepler.Query.Sql.Template.{Template, compare_pieces, template, at_counter, render, holes}
use kepler.Logs.Filter.{FromQuery}
use kepler.Monitor.{Rows, MonitorMetricEntry, monitor_query_dsl, query_filtered}
use kepler.Monitor.Filtered.{
  metric_conditions, statement_pieces, statement_values, query_filtered-metric_conditions,
}

abbrev finite : Str → Option F64
finite s = parse_u64 s

abbrev on_web : Expr
on_web = field_match (codes "service") (codes "web") false

abbrev web_template : Template
web_template = record {
  pieces = compare_pieces (codes "service") (codes "=");
  params = SqlValue.text (codes "web") ∷ [];
}

web_translated : template finite monitor_query_dsl on_web ≡ ok web_template
unfolding template monitor_query_dsl
web_translated = refl

web-FromQuery : FromQuery finite monitor_query_dsl (some web_template)
unfolding resolve_field resolved_col monitor_query_dsl
web-FromQuery = (on_web, web_translated, refl, omega arith)

abbrev sample : MonitorMetricEntry
sample = record {
  timestamp = pos 5;
  service = codes "web";
  cpu_percent = 1;
  memory_rss = 100;
  memory_vss = 200;
  pids = 7 ∷ [];
}

abbrev rows : Rows
rows sql bind = some (sample ∷ [])

query_filtered-metric_conditions_example :
    let cs =
      metric_conditions (some (codes "web")) (some (pos 3)) web_template none (some (pos 9)) in
    (query_filtered rows
        (some (codes "web"))
        (some (pos 3))
        none
        (at_counter 0 web_template).0
        (some (pos 60))
        none
        (some (pos 9))
      ≡ some (rows (render 0 (statement_pieces (some (pos 60)) cs)) (statement_values none cs)))
    × (holes (statement_pieces (some (pos 60)) cs) ≡ length (statement_values none cs))
query_filtered-metric_conditions_example =
    query_filtered-metric_conditions rows finite monitor_query_dsl web_template (some (codes "web"))
      (some (pos 3)) none (some (pos 60)) none (some (pos 9)) web-FromQuery
