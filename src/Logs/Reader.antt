-- ===== src/Logs/Reader.antt =====
-- The queries of kepler-daemon/src/logs/log_reader.rs. The database is a parameter: whether it opens,
-- and what a statement gives with its values, if it gives anything. The outer `Option` is a panic of
-- the shift of placeholders.
use kepler.Prelude.{
  ℕ, zero, suc, ◌+◌, ◌-◌, ◌%◌, ◌^◌, Bool, true, false, Option, none, some, List, [], ◌∷◌, ◌++◌,
  if◌then◌else◌, eqb, ltb, leb, length, is_empty,
}
use kepler.Prelude.Int.{ℤ, pos, negsuc}
use kepler.Prelude.Result.{Result, ok, err}
use kepler.Text.{Str, codes}
use kepler.Query.{QueryDsl, ColumnType, SqlFragment, new_field, build}
use kepler.Query.Sql.{placeholder, as_bytes}
use kepler.Logs.{BindValue, int, FilterError, validate_filter, build_filter}

pub record LogLine : Type 0 where
  pub id : ℤ
  pub service : Str
  pub line : Str
  pub timestamp : ℤ
  pub level : Str
  pub hook : Option Str
  pub attributes : Option Str

unfoldable pub log_query_dsl : QueryDsl
unfolding build new_field
log_query_dsl =
    let message = record (new_field ColumnType.text (codes "message")) {
      column = codes "line";
      fts = true;
    } in
    build
      (new_field ColumnType.text (codes "service")
        ∷ new_field ColumnType.text (codes "level")
        ∷ message
        ∷ new_field ColumnType.text (codes "hook")
        ∷ new_field ColumnType.int (codes "timestamp")
        ∷ new_field ColumnType.int (codes "id")
        ∷ [])
      (some (codes "attributes"))

pub record Database : Type 0 where
  pub opens : Bool
  -- `query_log_lines`, with the limit as the last value
  pub query_log_lines : Str → List BindValue → Option (List LogLine)
  -- `query_row` of one id
  pub query_id : Str → List BindValue → Option ℤ

-- `as i64` of a `usize`
unfoldable pub as_i64 : ℕ → ℤ
as_i64 n = if ltb n (2 ^ 63) then pos n else negsuc (2 ^ 64 - 1 - n)

-- A filter without parameters is raw SQL, which is checked.
unfoldable pub check_raw : Option SqlFragment → Result FilterError (Unit {0})
unfolding validate_filter
check_raw none = ok tt
check_raw (some frag) = if is_empty frag.params then validate_filter frag.sql else ok tt

abbrev pub or_default : Option (List LogLine) → List LogLine
or_default none = []
or_default (some lines) = lines

columns : Str
columns = codes "SELECT id, timestamp, service, hook, level, line, attributes FROM logs "

unfoldable pub head_sql : Str → ℕ → Str
unfolding columns placeholder
head_sql where_clause next =
    columns ++ (where_clause ++ (codes " ORDER BY id ASC LIMIT " ++ placeholder next))

unfoldable pub tail_sql : Str → ℕ → Str
unfolding columns placeholder
tail_sql where_clause next =
    codes "SELECT * FROM ("
    ++ (columns
        ++ (where_clause
            ++ (codes " ORDER BY id DESC LIMIT "
                ++ (placeholder next ++ codes ") ORDER BY id ASC"))))

unfoldable pub start_sql : Str → ℕ → Str
unfolding placeholder
start_sql where_clause next =
    codes "SELECT id FROM logs "
    ++ (where_clause ++ (codes " ORDER BY id DESC LIMIT 1 OFFSET " ++ placeholder next))

-- What `after` puts behind the clause of the filter
unfoldable pub after_clause : Str → List BindValue → Str
unfolding placeholder
after_clause filter_clause bind =
    if is_empty filter_clause
    then codes "WHERE id > ?1"
    else filter_clause ++ (codes " AND id > " ++ placeholder (length bind + 1))

-- `take`, over the native numbers
unfoldable pub take : ℕ → List LogLine → List LogLine
take zero lines = []
take (suc n) [] = []
take (suc n) (l ∷ lines) = l ∷ take n lines

-- What an entry costs of the byte budget
unfoldable pub cost : LogLine → ℕ
unfolding as_bytes
cost e = length (as_bytes e.line) + length (as_bytes e.service) + 32

-- `take_while` with the running total, a `usize`
unfoldable pub within_budget : ℕ → ℕ → List LogLine → List LogLine
unfolding cost
within_budget budget total [] = []
within_budget budget total (e ∷ lines) =
    let next = (total + cost e) % 2 ^ 64 in
    let rest = within_budget budget next lines in if leb next budget then e ∷ rest else []

module _ (db : Database) where
  lines_of : (Str → ℕ → Str) → ℕ → Option (Str × List BindValue) → Option (List LogLine)
  unfolding as_i64
  lines_of sql count none = none
  lines_of sql count (some (where_clause, bind)) = some (
      or_default
        (db.query_log_lines (sql where_clause (length bind + 1)) (bind ++ int (as_i64 count) ∷ [])))

  module _ (services : List Str) (no_hooks : Bool) (filter : Option SqlFragment)
      (after_ts before_ts : Option ℤ) where
    -- `tail` and `head`, which differ in their statements
    unfoldable pub read_lines : (Str → ℕ → Str) → ℕ → Option (List LogLine)
    unfolding check_raw build_filter lines_of
    read_lines sql count = elim (check_raw filter) [
      | err e ↦ some []
      | ok u ↦
          if db.opens
          then lines_of sql count (build_filter services no_hooks filter after_ts before_ts)
          else some []
    ]

    unfoldable pub tail : ℕ → Option (List LogLine)
    unfolding read_lines tail_sql
    tail count = read_lines tail_sql count

    unfoldable pub head : ℕ → Option (List LogLine)
    unfolding read_lines head_sql
    head count = read_lines head_sql count

    id_of : ℕ → Option (Str × List BindValue) → Option (Result FilterError (Option ℤ))
    unfolding start_sql as_i64
    id_of count none = none
    id_of count (some (where_clause, bind)) = some (
        ok (
          db.query_id (start_sql where_clause (length bind + 1))
            (bind ++ int (as_i64 (count - 1)) ∷ [])))

    unfoldable pub tail_start_id : ℕ → Option (Result FilterError (Option ℤ))
    unfolding check_raw build_filter id_of
    tail_start_id count = if eqb count 0 then some (ok none) else elim (check_raw filter) [
      | err e ↦ some (err e)
      | ok u ↦
          if db.opens
          then id_of count (build_filter services no_hooks filter after_ts before_ts)
          else some (ok none)
    ]

    unfoldable pub page : ℕ → List LogLine → List LogLine × Bool
    unfolding take
    page limit lines = (take limit lines, ltb limit (length lines))

    page_of :
        ℤ → ℕ → Option (Str × List BindValue) → Option (Result FilterError (List LogLine × Bool))
    unfolding after_clause head_sql as_i64 page
    page_of after_id limit none = none
    page_of after_id limit (some (filter_clause, bind)) =
        let bound = bind ++ int after_id ∷ [] in
        let sql = head_sql (after_clause filter_clause bind) (length bound + 1) in
        some (
          ok (
            page limit
              (or_default (db.query_log_lines sql (bound ++ int (as_i64 (limit + 1)) ∷ [])))))

    unfoldable pub after : ℤ → ℕ → Option (Result FilterError (List LogLine × Bool))
    unfolding check_raw build_filter page_of
    after after_id limit = elim (check_raw filter) [
      | err e ↦ some (err e)
      | ok u ↦
          if db.opens
          then page_of after_id limit (build_filter services no_hooks filter after_ts before_ts)
          else some (ok ([], false))
    ]

    bounded_lines : Option ℕ → Option (List LogLine) → Option (List LogLine)
    unfolding within_budget
    bounded_lines max_bytes none = none
    bounded_lines none (some lines) = some lines
    bounded_lines (some budget) (some lines) = some (within_budget budget 0 lines)

    unfoldable pub tail_bounded : ℕ → Option ℕ → Option (List LogLine)
    unfolding bounded_lines
    tail_bounded count max_bytes = bounded_lines max_bytes (tail count)
