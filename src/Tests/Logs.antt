-- ===== src/Tests/Logs.antt =====
-- The log reader (kepler-daemon/src/logs) on concrete queries and lines.
use kepler.Prelude.{
  ◌≡◌, ◌^◌, ◌<◌, refl, true, false, none, some, [], ◌∷◌, List, Option, arith, length,
}
use kepler.Prelude.Int.{pos}
use kepler.Prelude.Result.{ok, err}
use kepler.Restart.{F64}
use kepler.Text.{Str, codes, str_eq}
use kepler.Text.Decimal.{parse_u64}
use kepler.Query.{Expr, SqlValue, full_text, field_match, and_expr}
use kepler.Query.Sql.{expr_to_sql, resolve_field, resolved_col}
use kepler.Query.Sql.Template.{Template, text, hole, template, render, holes}
use kepler.Logs.{filter_has_placeholder, BindValue, int, build_filter}
use kepler.Logs.Conditions.{conditions_of, where_pieces, all_values}
use kepler.Logs.Filter.{FromQuery, fragment_of, build_filter-conditions_of}
use kepler.Logs.Reader.{LogLine, Database, log_query_dsl, check_raw, cost, tail, tail_bounded}
use kepler.Logs.Reading.{
  IsLongestWithin, total_cost, tail_bounded-IsLongestWithin, check_raw-expr_to_sql,
}
use kepler.Logs.Json.{Json, Object, ParsedJsonLog, warn, string, number, try_parse_json_log}
use kepler.Logs.Json.Laws.{Extracts, try_parse_json_log-Extracts}

abbrev finite : Str → Option F64
finite s = parse_u64 s

abbrev boot_on_web : Expr
boot_on_web =
    and_expr (full_text (codes "boot") false) (field_match (codes "user") (codes "7") false)

abbrev boot_template : Template
boot_template = record {
  pieces =
      text (codes "(")
      ∷ text (codes "line")
      ∷ text (codes " LIKE ")
      ∷ hole
      ∷ text (codes " ESCAPE '\\'")
      ∷ text (codes " AND ")
      ∷ text (codes "(")
      ∷ text (codes "json_extract(attributes, '$.user')")
      ∷ text (codes " = ")
      ∷ hole
      ∷ text (codes " OR ")
      ∷ text (codes "json_extract(attributes, '$.user')")
      ∷ text (codes " = ")
      ∷ hole
      ∷ text (codes ")")
      ∷ text (codes ")")
      ∷ [];
  params = SqlValue.text (codes "%boot%") ∷ SqlValue.text (codes "7") ∷ SqlValue.real 7 ∷ [];
}

boot_translated : template finite log_query_dsl boot_on_web ≡ ok boot_template
unfolding template log_query_dsl parse_u64
boot_translated = refl

boot-FromQuery : FromQuery finite log_query_dsl (some boot_template)
unfolding resolve_field resolved_col log_query_dsl
boot-FromQuery = (boot_on_web, boot_translated, (refl, refl), omega arith)

boot_where :
    build_filter
      (codes "web" ∷ codes "db" ∷ [])
      true
      (fragment_of (some boot_template))
      (some (pos 5))
      none
    ≡ some (
      codes
          "WHERE service IN (?1, ?2) AND hook IS NULL AND timestamp >= ?3 AND ((line LIKE ?4 ESCAPE '\\' AND (json_extract(attributes, '$.user') = ?5 OR json_extract(attributes, '$.user') = ?6)))",
      BindValue.text (codes "web")
          ∷ BindValue.text (codes "db")
          ∷ int (pos 5)
          ∷ BindValue.text (codes "%boot%")
          ∷ BindValue.text (codes "7")
          ∷ BindValue.real 7
          ∷ [],
    )
unfolding build_filter render
boot_where = refl

build_filter-conditions_of_example :
    let cs = conditions_of (codes "web" ∷ []) false (some boot_template) none (some (pos 9)) in
    (build_filter (codes "web" ∷ []) false (fragment_of (some boot_template)) none (some (pos 9))
      ≡ some (render 0 (where_pieces cs), all_values cs))
    × (holes (where_pieces cs) ≡ length (all_values cs))
build_filter-conditions_of_example =
    build_filter-conditions_of finite log_query_dsl (some boot_template) (codes "web" ∷ []) false
      none (some (pos 9)) boot-FromQuery

abbrev entry : Str → LogLine
entry line = record {
  id = pos 1;
  service = codes "web";
  line = line;
  timestamp = pos 5;
  level = codes "info";
  hook = none;
  attributes = none;
}

abbrev two_entries : List LogLine
two_entries = entry (codes "one") ∷ entry (codes "two") ∷ []

abbrev two_lines : Database
two_lines = record {
  opens = true;
  query_log_lines = λ sql bind. some two_entries;
  query_id = λ sql bind. none;
}

both_read : tail two_lines [] false none none none 9 ≡ some two_entries
unfolding tail
both_read = refl

one_fits :
    tail_bounded two_lines [] false none none none 9 (some 40) ≡ some (entry (codes "one") ∷ [])
unfolding tail_bounded tail
one_fits = refl

two_entries_small : total_cost two_entries < 2 ^ 64
unfolding cost
two_entries_small = omega arith

tail_bounded-IsLongestWithin_example :
    (tail_bounded two_lines [] false none none none 9 none ≡ some two_entries)
    × ((kept : List LogLine) × (tail_bounded two_lines [] false none none none 9 (some 40)
          ≡ some kept)
        × IsLongestWithin 40 0 two_entries kept)
tail_bounded-IsLongestWithin_example =
    tail_bounded-IsLongestWithin two_lines [] false none none none 9 40 two_entries both_read
      two_entries_small

raw_refused :
    check_raw (some (record { sql = codes "line = ?"; params = [] })) ≡ err filter_has_placeholder
unfolding check_raw
raw_refused = refl

boot_sql :
    expr_to_sql finite log_query_dsl (full_text (codes "a?b") false) 0
    ≡ ok (
      record {
        sql = codes "line LIKE ?1 ESCAPE '\\'";
        params = SqlValue.text (codes "%a?b%") ∷ [];
      },
      1,
    )
unfolding expr_to_sql log_query_dsl
boot_sql = refl

check_raw-expr_to_sql_example :
    check_raw (
      some (record {
        sql = codes "line LIKE ?1 ESCAPE '\\'";
        params = SqlValue.text (codes "%a?b%") ∷ [];
      }))
    ≡ ok tt
check_raw-expr_to_sql_example =
    check_raw-expr_to_sql finite log_query_dsl (full_text (codes "a?b") false) 0 1 _ boot_sql

abbrev pino : Object
pino =
    (codes "level", string (codes "WARNING"))
    ∷ (codes "time", number (codes "1700000000") (some (pos 1700000000)) none)
    ∷ (codes "msg", string (codes "hi"))
    ∷ (codes "pid", number (codes "7") (some (pos 7)) none)
    ∷ []

abbrev serde : Json
serde = record {
  from_str = λ s. some pino;
  show_value = λ v. [];
  show_object = λ o. codes "{\"pid\":7}";
  from_rfc3339 = λ s. none;
  from_naive = λ s. none;
  is_late = λ f. false;
  to_millis = λ f. pos 0;
}

pino_parsed :
    try_parse_json_log serde (codes "{…}")
    ≡ some (record {
      message = codes "hi";
      level = some warn;
      timestamp = some (pos 1700000000000);
      attributes = some (codes "{\"pid\":7}");
    })
unfolding try_parse_json_log
pino_parsed = refl

try_parse_json_log-Extracts_example :
    (parsed : ParsedJsonLog) × (try_parse_json_log serde (codes "{…}") ≡ some parsed)
    × Extracts serde (codes "{…}") pino parsed
try_parse_json_log-Extracts_example = try_parse_json_log-Extracts serde (codes "{…}") pino refl
