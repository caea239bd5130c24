-- ===== src/Query/Sql/Values.antt =====
-- The values of a query reach the SQL of kepler-daemon/src/query/dsl.rs as parameters only.
use kepler.Prelude.{ℕ, ◌+◌, ◌≡◌, Option, List, is_some}
use kepler.Prelude.Result.{Result, ok, err}
use kepler.Restart.{F64}
use kepler.Text.{Str}
use kepler.Query.{
  Expr, DslError, SqlFragment, full_text, field_match, comparison, and_expr, or_expr, not_expr,
}
use kepler.Query.Sql.Template.{Piece, render, holes, Template}

-- The text of a result and the counter after it, without the parameters.
abbrev pub text_of : Result DslError (SqlFragment × ℕ) → Result DslError (Str × ℕ)
text_of (err e) = err e
text_of (ok (frag, counter)) = ok (frag.sql, counter)

abbrev pieces_of : Result DslError Template → Result DslError (List Piece)
pieces_of (err e) = err e
pieces_of (ok t) = ok t.pieces

abbrev number_pieces : ℕ → Result DslError (List Piece) → Result DslError (Str × ℕ)
number_pieces n (err e) = err e
number_pieces n (ok ps) = ok (render n ps, n + holes ps)

module _ (finite_f64 : Str → Option F64) where
  -- Two expressions that differ in the texts of their values only, and in these not as to whether
  -- they are finite numbers.
  abbrev pub SameShape : Expr → Expr → Type 0
  SameShape (full_text s w) (full_text t x) = Unit {0}
  SameShape (field_match f v w) (field_match g u x) =
      (f ≡ g) × (w ≡ x) × (is_some (finite_f64 v) ≡ is_some (finite_f64 u))
  SameShape (comparison f o v) (comparison g p u) =
      (f ≡ g) × (o ≡ p) × (is_some (finite_f64 v) ≡ is_some (finite_f64 u))
  SameShape (and_expr a b) (and_expr c d) = SameShape a c × SameShape b d
  SameShape (or_expr a b) (or_expr c d) = SameShape a c × SameShape b d
  SameShape (not_expr a) (not_expr b) = SameShape a b
  SameShape _ _ = ⊥
