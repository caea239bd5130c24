-- ===== src/Monitor/Filtered.antt =====
-- The statement of `query_filtered` (kepler-daemon/src/monitor/query.rs) is that of its conditions,
-- with every parameter numbered as it is bound.
use mathlib.Core.List.{append-nil}
use kepler.Prelude.{
  ℕ, suc, ◌+◌, ◌≡◌, ap, ◌∙◌, Option, none, some, List, [], ◌∷◌, ◌++◌, length, length-append,
  unwrap_or, arith,
}
use kepler.Prelude.Int.{ℤ}
use kepler.Restart.{F64}
use kepler.Text.{Str, codes}
use kepler.Query.{QueryDsl}
use kepler.Query.Sql.Template.{
  Piece, text, hole, render, holes, Template, at_counter, render-append, holes-append,
}
use kepler.Logs.{BindValue, int, Building}
use kepler.Logs.Conditions.{
  Condition, AllFilled, all_values, where_pieces, service_conditions, bound_conditions,
  filter_conditions, Shiftable, AllFilled-append, service_conditions-AllFilled,
  bound_conditions-AllFilled, filter_conditions-AllFilled, where_pieces-holes,
}
use kepler.Logs.Filter.{
  Built, push_bound-Built, bound_condition-Built, filter_condition-Built, where_clause-Built,
  empty-Built, FromQuery, FromQuery-Shiftable,
}
use kepler.Logs.Reader.{as_i64}
use kepler.Monitor.{
  Rows, bucket_select_clause, one_service, statement, start, filtered_conditions, run, run_each,
  query_filtered,
}

abbrev pub service_list : Option Str → List Str
service_list none = []
service_list (some svc) = svc ∷ []

-- The conditions, in the order of the source.
abbrev pub metric_conditions :
    Option Str → Option ℤ → Template → Option ℤ → Option ℤ → List Condition
metric_conditions service since filter after_ts before_ts =
    let scoped = service_conditions (service_list service) in
    let recent = scoped ++ bound_conditions (codes "timestamp >= ") since in
    let after = recent ++ bound_conditions (codes "timestamp >= ") after_ts in
    (after ++ bound_conditions (codes "timestamp <= ") before_ts) ++ filter_conditions (some filter)

abbrev pub ending : Str → List Piece
ending group_by =
    text (codes " ") ∷ text group_by ∷ text (codes " ORDER BY 1 ASC LIMIT ") ∷ hole ∷ []

-- The statement with its holes, the last of them for the limit, and the values for them.
abbrev pub statement_pieces : Option ℤ → List Condition → List Piece
statement_pieces bucket_ms cs =
    let clauses = bucket_select_clause bucket_ms in
    text clauses.0 ∷ text (codes " FROM metrics ") ∷ (where_pieces cs ++ ending clauses.1)

abbrev pub statement_values : Option ℕ → List Condition → List BindValue
statement_values limit cs = all_values cs ++ int (as_i64 (unwrap_or limit 10000)) ∷ []

one_service-Built :
    (service : Option Str)
    → Built (service_conditions (service_list service)) (one_service service start)
unfolding one_service
one_service-Built none = empty-Built
one_service-Built (some svc) =
    push_bound-Built [] start (codes "service = ") (BindValue.text svc) empty-Built

statement-Built :
    (cs : List Condition) (b : Building) (limit : Option ℕ) (bucket_ms : Option ℤ)
    → Built cs b
    → AllFilled cs
    → ◌≡◌ {A = Str × List BindValue}
        (statement limit bucket_ms b)
        (render 0 (statement_pieces bucket_ms cs), statement_values limit cs)
unfolding statement render
statement-Built cs b limit bucket_ms built filled =
    let clause = where_clause-Built cs b built filled in
    let count : length (all_values cs) + 1 ≡ suc (0 + holes (where_pieces cs)) =
      omega (arith, where_pieces-holes cs filled) in
    let split = render-append 0 (where_pieces cs) (ending (bucket_select_clause bucket_ms).1) in
    rw (clause, split, count) (simp append-nil)

metric_conditions-AllFilled :
    (service : Option Str) (since : Option ℤ) (filter : Template) (after_ts before_ts : Option ℤ)
    → Shiftable (some filter)
    → AllFilled (metric_conditions service since filter after_ts before_ts)
metric_conditions-AllFilled service since filter after_ts before_ts h =
    AllFilled-append _ (filter_conditions (some filter))
      (AllFilled-append _ (bound_conditions (codes "timestamp <= ") before_ts)
        (AllFilled-append _ (bound_conditions (codes "timestamp >= ") after_ts)
          (AllFilled-append (service_conditions (service_list service))
            (bound_conditions (codes "timestamp >= ") since)
            (service_conditions-AllFilled (service_list service))
            (bound_conditions-AllFilled (codes "timestamp >= ") since))
          (bound_conditions-AllFilled (codes "timestamp >= ") after_ts))
        (bound_conditions-AllFilled (codes "timestamp <= ") before_ts))
      (filter_conditions-AllFilled (some filter) h)

-- A query for metrics whose filter is made by the query language from an expression over plain
-- fields with fewer than 2^64 parameters does not panic. It runs one statement: the conditions on the
-- service and the times and the filter, joined by AND, with the holes numbered from 1 on and the limit
-- as the last of them; and it binds one value for each hole, in the order of the numbers.
pub query_filtered-metric_conditions :
    (query_rows : Rows) (finite : Str → Option F64) (dsl : QueryDsl) (filter : Template)
    (service : Option Str) (since : Option ℤ) (limit : Option ℕ)
    (bucket_ms after_ts before_ts : Option ℤ)
    → FromQuery finite dsl (some filter)
    → let cs = metric_conditions service since filter after_ts before_ts in
      (query_filtered query_rows service since limit
          (at_counter 0 filter).0
          bucket_ms
          after_ts
          before_ts
        ≡ some (query_rows (render 0 (statement_pieces bucket_ms cs)) (statement_values limit cs)))
      × (holes (statement_pieces bucket_ms cs) ≡ length (statement_values limit cs))
unfolding query_filtered filtered_conditions run_each run
query_filtered-metric_conditions query_rows finite dsl filter service since limit bucket_ms after_ts
      before_ts from_query =
    let shiftable = FromQuery-Shiftable finite dsl (some filter) from_query in
    let cs = metric_conditions service since filter after_ts before_ts in
    let filled = metric_conditions-AllFilled service since filter after_ts before_ts shiftable in
    let recent =
      bound_condition-Built _ _ (codes "timestamp >= ") since (one_service-Built service) in
    let bounded =
      bound_condition-Built _ _ (codes "timestamp <= ") before_ts
        (bound_condition-Built _ _ (codes "timestamp >= ") after_ts recent) in
    let (b, added, built) = filter_condition-Built _ _ (some filter) shiftable bounded in
    (
      ap (run_each query_rows limit bucket_ms) added
          ∙ ap (λ s. some (run query_rows s)) (statement-Built cs b limit bucket_ms built filled),
      holes-append (where_pieces cs) (ending (bucket_select_clause bucket_ms).1)
          ∙ omega (
            arith,
            where_pieces-holes cs filled,
            length-append (all_values cs) (int (as_i64 (unwrap_or limit 10000)) ∷ []),
          ),
    )
