-- ===== src/Query/Sql/Template.antt =====
-- What `expr_to_sql` of kepler-daemon/src/query/dsl.rs promises, without a counter: the text of the
-- SQL with holes for the parameters, and the parameters in the order of the holes.
use kepler.Prelude.{
  ℕ, suc, ◌+◌, ◌≡◌, ap, Bool, true, false, Option, none, some, List, [], ◌∷◌, ◌++◌, if◌then◌else◌,
  length, arith,
}
use mathlib.Core.List.{append_assoc}
use kepler.Prelude.Result.{Result, ok, err, ◌>>=◌}
use kepler.Restart.{F64}
use kepler.Text.{Str, codes}
use kepler.Query.{
  Expr, DslError, CompOp, QueryDsl, SqlValue, SqlFragment, as_sql, wildcard_to_like, full_text,
  field_match, comparison, and_expr, or_expr, not_expr, no_full_text,
}
use kepler.Query.Sql.{
  ResolvedField, known, attribute, resolve_field, resolved_col, needs_cast, placeholder,
  text_pattern, typed_param,
}

pub data Piece : Type 0 where
  text : Str → Piece
  hole : Piece

-- The holes numbered from `n + 1` on.
unfoldable pub render : ℕ → List Piece → Str
unfolding placeholder
render n [] = []
render n (text s ∷ ps) = s ++ render n ps
render n (hole ∷ ps) = placeholder (suc n) ++ render (suc n) ps

abbrev pub holes : List Piece → ℕ
holes [] = 0
holes (text s ∷ ps) = holes ps
holes (hole ∷ ps) = suc (holes ps)

pub record Template : Type 0 where
  pub pieces : List Piece
  pub params : List SqlValue

abbrev pub like_pieces : Str → List Piece
like_pieces col = text col ∷ text (codes " LIKE ") ∷ hole ∷ text (codes " ESCAPE '\\'") ∷ []

abbrev pub compare_pieces : Str → Str → List Piece
compare_pieces col op = text col ∷ text (codes " ") ∷ text op ∷ text (codes " ") ∷ hole ∷ []

abbrev pub cast_pieces : Str → Str → List Piece
cast_pieces col op =
    text (codes "CAST(")
    ∷ text col
    ∷ text (codes " AS REAL) ")
    ∷ text op
    ∷ text (codes " ")
    ∷ hole
    ∷ []

abbrev pub dual_pieces : Str → List Piece
dual_pieces e =
    text (codes "(")
    ∷ text e
    ∷ text (codes " = ")
    ∷ hole
    ∷ text (codes " OR ")
    ∷ text e
    ∷ text (codes " = ")
    ∷ hole
    ∷ text (codes ")")
    ∷ []

abbrev pub one : List Piece → SqlValue → Template
one ps v = record { pieces = ps; params = v ∷ [] }

abbrev pub join : Str → Template → Template → Template
join connective l r = record {
  pieces =
      text (codes "(") ∷ (l.pieces ++ (text connective ∷ (r.pieces ++ (text (codes ")") ∷ []))));
  params = l.params ++ r.params;
}

abbrev pub negation : Template → Template
negation t = record {
  pieces = text (codes "NOT (") ∷ (t.pieces ++ (text (codes ")") ∷ []));
  params = t.params;
}

abbrev pub full_text_template : Option Str → Str → Result DslError Template
full_text_template none pattern = err no_full_text
full_text_template (some column) pattern = ok (one (like_pieces column) (SqlValue.text pattern))

module _ (finite_f64 : Str → Option F64) where
  abbrev pub equals_template : ResolvedField → Str → Option F64 → Template
  equals_template (known column column_type) value n =
      one (compare_pieces column (codes "=")) (typed_param finite_f64 column_type value)
  equals_template (attribute expr) value (some n) = record {
    pieces = dual_pieces expr;
    params = SqlValue.text value ∷ SqlValue.real n ∷ [];
  }
  equals_template (attribute expr) value none =
      one (compare_pieces expr (codes "=")) (SqlValue.text value)

  abbrev pub match_template : Bool → Str → ResolvedField → Template
  match_template true value field =
      one (like_pieces (resolved_col field)) (SqlValue.text (wildcard_to_like value))
  match_template false value field = equals_template field value (finite_f64 value)

  abbrev pub comparison_template : ResolvedField → CompOp → Str → Option F64 → Template
  comparison_template field op value (some n) =
      one
        (if needs_cast field
          then cast_pieces (resolved_col field) (as_sql op)
          else compare_pieces (resolved_col field) (as_sql op))
        (SqlValue.real n)
  comparison_template field op value none =
      one (compare_pieces (resolved_col field) (as_sql op)) (SqlValue.text value)

  unfoldable pub template : QueryDsl → Expr → Result DslError Template
  unfolding text_pattern resolve_field typed_param resolved_col needs_cast as_sql wildcard_to_like
  template dsl (full_text s w) = full_text_template dsl.fts_column (text_pattern s w)
  template dsl (field_match f v w) =
      resolve_field dsl f >>= λ resolved. ok (match_template w v resolved)
  template dsl (comparison f op v) =
      resolve_field dsl f >>= λ resolved. ok (comparison_template resolved op v (finite_f64 v))
  template dsl (and_expr l r) =
      template dsl l >>= λ a. template dsl r >>= λ b. ok (join (codes " AND ") a b)
  template dsl (or_expr l r) =
      template dsl l >>= λ a. template dsl r >>= λ b. ok (join (codes " OR ") a b)
  template dsl (not_expr e) = template dsl e >>= λ a. ok (negation a)

-- The fragment that a template is at a counter, and the counter after it.
abbrev pub at_counter : ℕ → Template → SqlFragment × ℕ
at_counter n t = (record { sql = render n t.pieces; params = t.params }, n + length t.params)

abbrev pub numbered : ℕ → Result DslError Template → Result DslError (SqlFragment × ℕ)
numbered n (err e) = err e
numbered n (ok t) = ok (at_counter n t)

pub render-append :
    (n : ℕ) (ps qs : List Piece) → render n (ps ++ qs) ≡ render n ps ++ render (n + holes ps) qs
unfolding render
render-append n [] qs = ap (λ k. render k qs) (omega arith)
render-append n (text s ∷ ps) qs = simp (render-append n ps qs, append_assoc)
render-append n (hole ∷ ps) qs =
    let shift : suc n + holes ps ≡ n + suc (holes ps) = omega arith in
    simp (render-append (suc n) ps qs, append_assoc, shift)

pub holes-append : (ps qs : List Piece) → holes (ps ++ qs) ≡ holes ps + holes qs
holes-append [] qs = omega arith
holes-append (text s ∷ ps) qs = holes-append ps qs
holes-append (hole ∷ ps) qs = omega (arith, holes-append ps qs)

-- As many parameters as holes
abbrev pub Filled : Result DslError Template → Type 0
Filled (err e) = Unit {0}
Filled (ok t) = holes t.pieces ≡ length t.params
