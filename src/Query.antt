-- ===== src/Query.antt =====
-- The query language of kepler-daemon/src/query/dsl.rs: tokens, expressions, and the SQL that they
-- become. The text of a query is its code points.
pub mod Tokens
pub mod Parse
pub mod Sql
use kepler.Prelude.{
  ℕ, String, Bool, true, false, not, ◌||◌, Option, none, some, List, [], ◌∷◌, ◌++◌, if◌then◌else◌,
  eqb,
}
use kepler.Prelude.Int.{ℤ}
use kepler.Prelude.Maps.{Map, insert}
use kepler.Text.{Str, codes, to_lowercase, str_eq}
use kepler.Restart.{F64}

pub data Token : Type 0 where
  word quoted_string : Str → Token
  colon at left_paren right_paren and_word or_word not_word minus bang gt gte lt lte : Token

pub data CompOp : Type 0 where
  gt gte lt lte : CompOp

unfoldable pub as_sql : CompOp → Str
as_sql CompOp.gt = codes ">"
as_sql CompOp.gte = codes ">="
as_sql CompOp.lt = codes "<"
as_sql CompOp.lte = codes "<="

pub data Expr : Type 0 where
  full_text : (text : Str) (has_wildcards : Bool) → Expr
  field_match : (field value : Str) (has_wildcards : Bool) → Expr
  comparison : (field : Str) (op : CompOp) (value : Str) → Expr
  and_expr or_expr : (left right : Expr) → Expr
  not_expr : Expr → Expr

-- The errors of this file, without their texts. `out_of_fuel` is none of the source.
pub data DslError : Type 0 where
  empty_query unterminated_quote unexpected_end no_full_text out_of_fuel : DslError
  unexpected_token : Token → DslError
  expected : Token → Option Token → DslError
  expected_field expected_value : Option Token → DslError
  bare_field unknown_field : Str → DslError

pub data ColumnType : Type 0 where
  text int real : ColumnType

pub record Field : Type 0 where
  pub name : Str
  pub column : Str
  pub column_type : ColumnType
  pub fts : Bool

-- `Field::text`, `int` and `real`
unfoldable pub new_field : ColumnType → Str → Field
new_field column_type name = record {
  name = name;
  column = name;
  column_type = column_type;
  fts = false;
}

pub record QueryDsl : Type 0 where
  pub fields : Map Str Field
  pub fts_column : Option Str
  pub attributes_column : Option Str

build_from : List Field → QueryDsl → QueryDsl
unfolding to_lowercase insert
build_from [] dsl = dsl
build_from (field ∷ rest) dsl = build_from rest (record dsl {
  fields = insert (to_lowercase field.name) field dsl.fields;
  fts_column = if field.fts then some field.column else dsl.fts_column;
})

-- `build`, on the fields that the builder was given
unfoldable pub build : List Field → Option Str → QueryDsl
unfolding build_from
build fields attributes_column =
    build_from fields
      (record { fields = []; fts_column = none; attributes_column = attributes_column })

pub data SqlValue : Type 0 where
  text : Str → SqlValue
  integer : ℤ → SqlValue
  real : F64 → SqlValue

pub record SqlFragment : Type 0 where
  pub sql : Str
  pub params : List SqlValue

-- `s.replace(c, with)`
unfoldable pub replace : ℕ → Str → Str → Str
replace c with_text [] = []
replace c with_text (x ∷ s) =
    let rest = replace c with_text s in if eqb x c then with_text ++ rest else x ∷ rest

unfoldable pub sql_escape : Str → Str
unfolding replace
sql_escape s = replace b'\'' (codes "''") s

like_char : ℕ → Str
like_char c =
    if eqb c b'*'
    then b'%' ∷ []
    else if eqb c b'?'
    then b'_' ∷ []
    else if eqb c b'\\' || (eqb c b'%' || eqb c b'_')
    then b'\\' ∷ c ∷ []
    else c ∷ []

unfoldable pub wildcard_to_like : Str → Str
unfolding like_char
wildcard_to_like [] = []
wildcard_to_like (c ∷ s) = like_char c ++ wildcard_to_like s

-- The pattern of a text without wildcards: `%{}%` of the escaped text
unfoldable pub literal_to_like : Str → Str
unfolding replace
literal_to_like s =
    b'%'
    ∷ (replace b'_' (codes "\\_") (replace b'%' (codes "\\%") (replace b'\\' (codes "\\\\") s))
        ++ b'%' ∷ [])
