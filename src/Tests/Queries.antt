-- ===== src/Tests/Queries.antt =====
-- The query language (kepler-daemon/src/query/dsl.rs) on concrete queries.
use kepler.Prelude.{◌≡◌, ◌≢◌, refl, true, false, none, some, [], ◌∷◌, ◌++◌, List, arith, Option}
use kepler.Prelude.Int.{pos}
use kepler.Prelude.Result.{ok, err}
use kepler.Restart.{F64}
use kepler.Text.{Str, codes}
use kepler.Text.Decimal.{parse_u64}
use kepler.Query.{
  Expr, QueryDsl, ColumnType, SqlFragment, SqlValue, new_field, build, full_text, field_match,
  and_expr, or_expr, not_expr, out_of_fuel, word, quoted_string, minus, at, colon, Token,
}
use kepler.Query.Tokens.{tokenize}
use kepler.Query.Parse.{parse_tokens, has_wildcards}
use kepler.Query.Parse.RoundTrip.{print_at, IsWellFormed, parse_tokens-print_at}
use kepler.Query.Parse.Accepted.{parse_tokens-print_at-parse_tokens}
use kepler.Query.Sql.{expr_to_sql, parse, sql_with_offset, resolve_field, resolved_col}
use kepler.Query.Sql.Template.{template, numbered}
use kepler.Query.Sql.Numbered.{expr_to_sql-template}
use kepler.Query.Sql.Offset.{PlainFields, sql_with_offset-expr_to_sql}
use kepler.Query.Sql.Total.{parse_total}

-- Digits stand for the numbers that are finite.
abbrev finite : Str → Option F64
finite s = parse_u64 s

abbrev log_fields : QueryDsl
unfolding build new_field
log_fields =
    build
      ((record (new_field ColumnType.text (codes "message")) { fts = true })
        ∷ new_field ColumnType.int (codes "pid")
        ∷ [])
      (some (codes "attributes"))

-- `(boot OR NOT @pid:7) AND @user:"a b"`
abbrev sample : Expr
sample =
    and_expr
      (or_expr (full_text (codes "bo?t") true)
        (not_expr (field_match (codes "pid") (codes "7") false)))
      (field_match (codes "user") (codes "a b") false)

query_tokens :
    tokenize (codes "@a:\"b c\"x")
    ≡ ok (at ∷ word (codes "a") ∷ colon ∷ quoted_string (codes "b c") ∷ word (codes "x") ∷ [])
unfolding tokenize
query_tokens = refl

query_parsed :
    parse_tokens
      (at ∷ word (codes "a") ∷ colon ∷ quoted_string (codes "b c") ∷ word (codes "x") ∷ [])
    ≡ ok (and_expr (field_match (codes "a") (codes "b c") false) (full_text (codes "x") false))
unfolding parse_tokens
query_parsed = refl

query_sql :
    parse finite log_fields (codes "@pid:7 x") 2
    ≡ ok (record {
      sql = codes "(pid = ?3 AND message LIKE ?4 ESCAPE '\\')";
      params = SqlValue.integer (pos 7) ∷ SqlValue.text (codes "%x%") ∷ [];
    })
unfolding parse build log_fields
query_sql = refl

sample-IsWellFormed : IsWellFormed sample
unfolding has_wildcards
sample-IsWellFormed = ((refl, refl), refl)

parse_tokens-print_at_example : parse_tokens (print_at 0 sample) ≡ ok sample
parse_tokens-print_at_example = parse_tokens-print_at sample sample-IsWellFormed

-- `@a:-1* x`, with no `AND`
abbrev implicit_tokens : List Token
implicit_tokens = at ∷ word (codes "a") ∷ colon ∷ minus ∷ word (codes "1*") ∷ word (codes "x") ∷ []

abbrev implicit_query : Expr
implicit_query = and_expr (field_match (codes "a") (codes "-1*") true) (full_text (codes "x") false)

implicit_parsed : parse_tokens implicit_tokens ≡ ok implicit_query
unfolding parse_tokens
implicit_parsed = refl

parse_tokens-print_at-parse_tokens_example :
    parse_tokens (print_at 0 implicit_query) ≡ ok implicit_query
parse_tokens-print_at-parse_tokens_example =
    parse_tokens-print_at-parse_tokens implicit_tokens implicit_query implicit_parsed

-- The same query with other values
abbrev hostile : Expr
hostile =
    and_expr
      (or_expr (full_text (codes "') --") false)
        (not_expr (field_match (codes "pid") (codes "8") false)))
      (field_match (codes "user") (codes "x' OR 1") false)

abbrev sample_params : List SqlValue
sample_params =
    SqlValue.text (codes "bo_t") ∷ SqlValue.integer (pos 7) ∷ SqlValue.text (codes "a b") ∷ []

abbrev sample_fragment : Str → SqlFragment
sample_fragment text = record { sql = text; params = sample_params }

abbrev at_zero : SqlFragment
at_zero = sample_fragment (
    codes
      "((message LIKE ?1 ESCAPE '\\' OR NOT (pid = ?2)) AND json_extract(attributes, '$.user') = ?3)")

abbrev at_nine : SqlFragment
at_nine = sample_fragment (
    codes
      "((message LIKE ?10 ESCAPE '\\' OR NOT (pid = ?11)) AND json_extract(attributes, '$.user') = ?12)")

sql_at_zero : expr_to_sql finite log_fields sample 0 ≡ ok (at_zero, 3)
unfolding expr_to_sql build log_fields parse_u64
sql_at_zero = refl

sql_at_nine : expr_to_sql finite log_fields sample 9 ≡ ok (at_nine, 12)
unfolding expr_to_sql build log_fields parse_u64
sql_at_nine = refl

sample-PlainFields : PlainFields log_fields sample
unfolding resolve_field build log_fields resolved_col
sample-PlainFields = ((refl, refl), refl)

sql_with_offset-expr_to_sql_example : sql_with_offset at_zero 9 ≡ some at_nine.sql
sql_with_offset-expr_to_sql_example =
    sql_with_offset-expr_to_sql finite log_fields sample 9 3 12 at_zero at_nine sample-PlainFields
      sql_at_zero sql_at_nine (omega arith)

expr_to_sql-template_example :
    expr_to_sql finite log_fields sample 3 ≡ numbered 3 (template finite log_fields sample)
expr_to_sql-template_example = expr_to_sql-template finite log_fields sample 3

parse_total_example : parse finite log_fields (codes "@a:>(") 0 ≢ err out_of_fuel
parse_total_example = parse_total finite log_fields (codes "@a:>(") 0

-- A field name with `?1` in it is changed by the shift, and one with a number beyond `usize` panics.
abbrev in_path : Str → SqlFragment
in_path name = record {
  sql = codes "json_extract(attributes, '$." ++ (name ++ codes "') = ?1");
  params = SqlValue.text (codes "x") ∷ [];
}

path_sql : parse finite log_fields (codes "@a?1:x") 0 ≡ ok (in_path (codes "a?1"))
unfolding parse build log_fields parse_u64
path_sql = refl

path_shifted :
    sql_with_offset (in_path (codes "a?1")) 2
    ≡ some (codes "json_extract(attributes, '$.a?3') = ?3")
unfolding sql_with_offset
path_shifted = refl

path_panics : sql_with_offset (in_path (codes "a?99999999999999999999")) 2 ≡ none
unfolding sql_with_offset
path_panics = refl
