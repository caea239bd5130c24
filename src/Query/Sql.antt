-- ===== src/Query/Sql.antt =====
-- From an expression to SQL with numbered parameters, in kepler-daemon/src/query/dsl.rs. The counter
-- is the number of the last parameter; its overflow of `usize` is out of the model.
pub mod Template
pub mod Numbered
pub mod Values
pub mod Shift
pub mod Offset
pub mod Total
use kepler.Prelude.{
  ℕ, zero, suc, ◌+◌, ◌/◌, ◌%◌, ◌^◌, ◌<◌, Bool, true, false, ◌||◌, ◌&&◌, Option, none, some, List,
  [], ◌∷◌, ◌++◌, if◌then◌else◌, eqb, ltb, leb, length, is_empty,
}
use kepler.Prelude.Int.{ℤ, pos}
use kepler.Prelude.Maps.{lookup}
use kepler.Prelude.Result.{Result, ok, err, ◌>>=◌}
use kepler.Restart.{F64}
use kepler.Text.{Str, codes, trim, to_lowercase, str_eq, digits_then, is_ascii_digit}
use kepler.Text.Decimal.{print, digits_value, negate, u64_mod}
use kepler.Query.{
  Expr, DslError, CompOp, ColumnType, Field, QueryDsl, SqlValue, SqlFragment, as_sql, sql_escape,
  wildcard_to_like, literal_to_like, full_text, field_match, comparison, and_expr, or_expr,
  not_expr, no_full_text, unknown_field, empty_query,
}
use kepler.Query.Tokens.{tokenize}
use kepler.Query.Parse.{parse_tokens}

in_i64 : Bool → Option ℕ → Option ℤ
unfolding negate
in_i64 negative none = none
in_i64 true (some n) = if leb n (2 ^ 63) then some (negate n) else none
in_i64 false (some n) = if ltb n (2 ^ 63) then some (pos n) else none

-- `parse::<i64>`: an optional sign and digits, in range
unfoldable pub parse_i64 : Str → Option ℤ
unfolding in_i64 digits_value
parse_i64 [] = none
parse_i64 (c ∷ s) =
    if eqb c b'-'
    then in_i64 true (digits_value s)
    else if eqb c b'+'
    then in_i64 false (digits_value s)
    else in_i64 false (digits_value (c ∷ s))

pub data ResolvedField : Type 0 where
  known : (column : Str) (column_type : ColumnType) → ResolvedField
  attribute : (expr : Str) → ResolvedField

json_path : Str → Str → Str
unfolding sql_escape
json_path column name =
    codes "json_extract(" ++ (column ++ (codes ", '$." ++ (sql_escape name ++ codes "')")))

attribute_field : Option Str → Str → Result DslError ResolvedField
unfolding json_path
attribute_field none name = err (unknown_field name)
attribute_field (some column) name = ok (attribute (json_path column name))

known_or_attribute : Option Field → Option Str → Str → Result DslError ResolvedField
unfolding attribute_field
known_or_attribute (some field) attributes name = ok (known field.column field.column_type)
known_or_attribute none attributes name = attribute_field attributes name

unfoldable pub resolve_field : QueryDsl → Str → Result DslError ResolvedField
unfolding known_or_attribute lookup to_lowercase
resolve_field dsl name =
    known_or_attribute (lookup (to_lowercase name) dsl.fields) dsl.attributes_column name

unfoldable pub resolved_col : ResolvedField → Str
resolved_col (known column column_type) = column
resolved_col (attribute expr) = expr

unfoldable pub needs_cast : ResolvedField → Bool
needs_cast (known column ColumnType.text) = true
needs_cast (known column column_type) = false
needs_cast (attribute expr) = true

-- `?{}`
unfoldable pub placeholder : ℕ → Str
unfolding print
placeholder n = b'?' ∷ print n

unfoldable pub text_pattern : Str → Bool → Str
unfolding wildcard_to_like literal_to_like
text_pattern text true = wildcard_to_like text
text_pattern text false = literal_to_like text

-- The clauses of the SQL, with the numbers of their parameters.
like_sql : Str → ℕ → Str
unfolding placeholder
like_sql col n = col ++ (codes " LIKE " ++ (placeholder n ++ codes " ESCAPE '\\'"))

compare_sql : Str → Str → ℕ → Str
unfolding placeholder
compare_sql col op n = col ++ (codes " " ++ (op ++ (codes " " ++ placeholder n)))

cast_sql : Str → Str → ℕ → Str
unfolding placeholder
cast_sql col op n =
    codes "CAST(" ++ (col ++ (codes " AS REAL) " ++ (op ++ (codes " " ++ placeholder n))))

-- `expr = ?{} OR expr = ?{}` in parentheses: the value as a text and as a number
dual_sql : Str → ℕ → ℕ → Str
unfolding placeholder
dual_sql expr m n =
    codes "("
    ++ (expr
        ++ (codes " = "
            ++ (placeholder m
                ++ (codes " OR " ++ (expr ++ (codes " = " ++ (placeholder n ++ codes ")")))))))

one_param : (ℕ → Str) → SqlValue → ℕ → Result DslError (SqlFragment × ℕ)
one_param sql param counter =
    ok (record { sql = sql (suc counter); params = param ∷ [] }, suc counter)

-- Two results under a connective
join_sql : Str → SqlFragment → SqlFragment → SqlFragment
join_sql connective l r = record {
  sql = codes "(" ++ (l.sql ++ (connective ++ (r.sql ++ codes ")")));
  params = l.params ++ r.params;
}

not_sql : SqlFragment → SqlFragment
not_sql frag = record { sql = codes "NOT (" ++ (frag.sql ++ codes ")"); params = frag.params }

full_text_sql : Option Str → Str → ℕ → Result DslError (SqlFragment × ℕ)
unfolding one_param like_sql
full_text_sql none pattern counter = err no_full_text
full_text_sql (some column) pattern counter =
    one_param (like_sql column) (SqlValue.text pattern) counter

-- `value.parse::<f64>()` where it gives a finite number, of the standard library
module _ (finite_f64 : Str → Option F64) where
  real_param : Str → Option F64 → SqlValue
  real_param value (some n) = SqlValue.real n
  real_param value none = SqlValue.text value

  integer_param : Str → Option ℤ → SqlValue
  integer_param value (some n) = SqlValue.integer n
  integer_param value none = SqlValue.text value

  unfoldable pub typed_param : ColumnType → Str → SqlValue
  unfolding real_param integer_param parse_i64
  typed_param ColumnType.int value = integer_param value (parse_i64 value)
  typed_param ColumnType.real value = real_param value (finite_f64 value)
  typed_param ColumnType.text value = SqlValue.text value

  -- Both `f64` branches that give no finite number have the same SQL.
  dual_or_text : Str → Str → Option F64 → ℕ → Result DslError (SqlFragment × ℕ)
  unfolding one_param dual_sql compare_sql
  dual_or_text expr value (some n) counter = ok (
    record {
      sql = dual_sql expr (suc counter) (suc (suc counter));
      params = SqlValue.text value ∷ SqlValue.real n ∷ [];
    },
    suc (suc counter),
  )
  dual_or_text expr value none counter =
      one_param (compare_sql expr (codes "=")) (SqlValue.text value) counter

  equals_sql : ResolvedField → Str → ℕ → Result DslError (SqlFragment × ℕ)
  unfolding one_param compare_sql typed_param dual_or_text
  equals_sql (known column column_type) value counter =
      one_param (compare_sql column (codes "=")) (typed_param column_type value) counter
  equals_sql (attribute expr) value counter = dual_or_text expr value (finite_f64 value) counter

  match_sql : Bool → Str → ResolvedField → ℕ → Result DslError (SqlFragment × ℕ)
  unfolding one_param like_sql resolved_col wildcard_to_like equals_sql
  match_sql true value field counter =
      one_param (like_sql (resolved_col field)) (SqlValue.text (wildcard_to_like value)) counter
  match_sql false value field counter = equals_sql field value counter

  comparison_sql : ResolvedField → CompOp → Str → Option F64 → ℕ → Result DslError (SqlFragment × ℕ)
  unfolding one_param cast_sql compare_sql resolved_col needs_cast as_sql
  comparison_sql field op value (some n) counter =
      if needs_cast field
      then one_param (cast_sql (resolved_col field) (as_sql op)) (SqlValue.real n) counter
      else one_param (compare_sql (resolved_col field) (as_sql op)) (SqlValue.real n) counter
  comparison_sql field op value none counter =
      one_param (compare_sql (resolved_col field) (as_sql op)) (SqlValue.text value) counter

  unfoldable pub expr_to_sql : QueryDsl → Expr → ℕ → Result DslError (SqlFragment × ℕ)
  unfolding full_text_sql text_pattern resolve_field match_sql comparison_sql join_sql not_sql
  expr_to_sql dsl (full_text text has_wildcards) counter =
      full_text_sql dsl.fts_column (text_pattern text has_wildcards) counter
  expr_to_sql dsl (field_match field value has_wildcards) counter =
      resolve_field dsl field >>= λ resolved. match_sql has_wildcards value resolved counter
  expr_to_sql dsl (comparison field op value) counter = resolve_field dsl field >>= λ resolved.
      comparison_sql resolved op value (finite_f64 value) counter
  expr_to_sql dsl (and_expr left right) counter = expr_to_sql dsl left counter >>= λ l.
      expr_to_sql dsl right l.1 >>= λ r. ok (join_sql (codes " AND ") l.0 r.0, r.1)
  expr_to_sql dsl (or_expr left right) counter = expr_to_sql dsl left counter >>= λ l.
      expr_to_sql dsl right l.1 >>= λ r. ok (join_sql (codes " OR ") l.0 r.0, r.1)
  expr_to_sql dsl (not_expr inner) counter =
      expr_to_sql dsl inner counter >>= λ f. ok (not_sql f.0, f.1)

  -- `QueryDsl::parse`
  unfoldable pub parse : QueryDsl → Str → ℕ → Result DslError SqlFragment
  unfolding trim tokenize parse_tokens expr_to_sql
  parse dsl input param_offset =
      if is_empty (trim input)
      then err empty_query
      else tokenize (trim input) >>= λ tokens.
          if is_empty tokens
          then err empty_query
          else parse_tokens tokens >>= λ ast. expr_to_sql dsl ast param_offset >>= λ f. ok f.0

-- `as_bytes` of a text
unfoldable pub as_bytes : Str → Str
as_bytes [] = []
as_bytes (c ∷ s) =
    let rest = as_bytes s in
    if ltb c 0x80
    then c ∷ rest
    else if ltb c 0x800
    then (0xc0 + c / 0x40) ∷ (0x80 + c % 0x40) ∷ rest
    else if ltb c 0x10000
    then (0xe0 + c / 0x1000) ∷ (0x80 + c / 0x40 % 0x40) ∷ (0x80 + c % 0x40) ∷ rest
    else (0xf0 + c / 0x40000)
      ∷ (0x80 + c / 0x1000 % 0x40)
      ∷ (0x80 + c / 0x40 % 0x40)
      ∷ (0x80 + c % 0x40)
      ∷ rest

digit_next : Str → Bool
unfolding is_ascii_digit
digit_next [] = false
digit_next (c ∷ s) = is_ascii_digit c

push_shifted : ℕ → Option ℕ → Option Str → Option Str
unfolding placeholder
push_shifted offset (some n) (some rest) = some (placeholder (n + offset) ++ rest)
push_shifted offset _ _ = none

push_char : ℕ → Option Str → Option Str
push_char c none = none
push_char c (some s) = some (c ∷ s)

in_usize : Option ℕ → Option ℕ
in_usize none = none
in_usize (some n) = if ltb n u64_mod then some n else none

-- `str::parse::<usize>` of digits, on 64 bits
parse_usize : Str → Option ℕ
unfolding in_usize digits_value
parse_usize ds = in_usize (digits_value ds)

-- The loop of `sql_with_offset` over the bytes that are left; `none` is the panic of `unwrap`.
unfoldable pub shift_from : ℕ → ℕ → Str → Option Str
unfolding digit_next push_shifted push_char parse_usize digits_then
shift_from offset zero bytes = none
shift_from offset (suc f) [] = some []
shift_from offset (suc f) (b ∷ bytes) = elim (eqb b b'?' && digit_next bytes) [
  | true ↦
      push_shifted offset (parse_usize (digits_then bytes).0)
        (shift_from offset f (digits_then bytes).1)
  | false ↦ push_char b (shift_from offset f bytes)
]

unfoldable pub sql_with_offset : SqlFragment → ℕ → Option Str
unfolding shift_from as_bytes
sql_with_offset frag offset =
    if eqb offset 0
    then some frag.sql
    else shift_from offset (suc (length (as_bytes frag.sql))) (as_bytes frag.sql)
