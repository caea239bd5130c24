-- ===== src/Query/Sql/Numbered.antt =====
-- That `expr_to_sql` of kepler-daemon/src/query/dsl.rs numbers the holes of a template.
use kepler.Prelude.{
  ℕ, suc, ◌+◌, ◌≡◌, refl, ap, Bool, true, false, Option, none, some, List, [], ◌∷◌, ◌++◌, length,
  arith, length-append, inl, inr, Bool-cases,
}
use mathlib.Core.List.{append-nil}
use kepler.Prelude.Result.{Result, ok, err, ◌>>=◌}
use kepler.Restart.{F64}
use kepler.Text.{Str, codes}
use kepler.Query.{
  Expr, DslError, CompOp, QueryDsl, SqlValue, SqlFragment, as_sql, wildcard_to_like, full_text,
  field_match, comparison, and_expr, or_expr, not_expr,
}
use kepler.Query.Sql.{
  ResolvedField, known, attribute, resolve_field, resolved_col, needs_cast, text_pattern,
  typed_param, expr_to_sql, like_sql, compare_sql, cast_sql, dual_sql, one_param, join_sql, not_sql,
  full_text_sql, dual_or_text, equals_sql, match_sql, comparison_sql,
}
use kepler.Query.Sql.Template.{
  Piece, text, render, holes, Template, like_pieces, compare_pieces, cast_pieces, dual_pieces, one,
  join, negation, full_text_template, equals_template, match_template, comparison_template,
  template, at_counter, numbered, render-append, holes-append, Filled,
}

one_param-numbered :
    (sql : ℕ → Str) (ps : List Piece) (v : SqlValue) (n : ℕ)
    → sql (suc n) ≡ render n ps
    → one_param sql v n ≡ numbered n (ok (one ps v))
unfolding one_param
one_param-numbered sql ps v n h = ground (arith, h)

like_sql-render : (col : Str) (n : ℕ) → like_sql col (suc n) ≡ render n (like_pieces col)
unfolding like_sql render
like_sql-render col n = refl

compare_sql-render :
    (col op : Str) (n : ℕ) → compare_sql col op (suc n) ≡ render n (compare_pieces col op)
unfolding compare_sql render
compare_sql-render col op n = simp append-nil

cast_sql-render : (col op : Str) (n : ℕ) → cast_sql col op (suc n) ≡ render n (cast_pieces col op)
unfolding cast_sql render
cast_sql-render col op n = simp append-nil

dual_sql-render : (e : Str) (n : ℕ) → dual_sql e (suc n) (suc (suc n)) ≡ render n (dual_pieces e)
unfolding dual_sql render
dual_sql-render e n = refl

full_text-numbered :
    (column : Option Str) (pattern : Str) (n : ℕ)
    → full_text_sql column pattern n ≡ numbered n (full_text_template column pattern)
unfolding full_text_sql
full_text-numbered none pattern n = refl
full_text-numbered (some col) pattern n =
    one_param-numbered (like_sql col) (like_pieces col) (SqlValue.text pattern) n
      (like_sql-render col n)

join-numbered :
    (c : Str) (n : ℕ) (l r : Template)
    → holes l.pieces ≡ length l.params
    → let right = at_counter (n + length l.params) r in
      ◌≡◌ {A = SqlFragment × ℕ}
        (join_sql c (at_counter n l).0 right.0, right.1)
        (at_counter n (join c l r))
unfolding join_sql render
join-numbered c n l r h =
    let split_pieces = render-append n l.pieces (text c ∷ (r.pieces ++ (text (codes ")") ∷ []))) in
    let split_right = render-append (n + length l.params) r.pieces (text (codes ")") ∷ []) in
    let split_params = length-append l.params r.params in
    let text_eq : (join_sql c (at_counter n l).0 (at_counter (n + length l.params) r).0).sql
        ≡ (at_counter n (join c l r)).0.sql =
      simp (split_pieces, h, split_right) in
    ground (arith, text_eq, split_params)

not-numbered :
    (n : ℕ) (t : Template)
    → ◌≡◌ {A = SqlFragment × ℕ}
        (not_sql (at_counter n t).0, (at_counter n t).1)
        (at_counter n (negation t))
unfolding not_sql render
not-numbered n t =
    let text_eq : (not_sql (at_counter n t).0).sql ≡ (at_counter n (negation t)).0.sql =
      simp (render-append n t.pieces (text (codes ")") ∷ [])) in
    ground (arith, text_eq)

module _ (finite : Str → Option F64) where
  dual-numbered :
      (e v : Str) (x : Option F64) (n : ℕ)
      → dual_or_text finite e v x n ≡ numbered n (ok (equals_template finite (attribute e) v x))
  unfolding dual_or_text
  dual-numbered e v none n =
      one_param-numbered (compare_sql e (codes "=")) (compare_pieces e (codes "="))
        (SqlValue.text v) n (compare_sql-render e (codes "=") n)
  dual-numbered e v (some x) n = ground (arith, dual_sql-render e n)

  equals-numbered :
      (r : ResolvedField) (v : Str) (n : ℕ)
      → equals_sql finite r v n ≡ numbered n (ok (equals_template finite r v (finite v)))
  unfolding equals_sql
  equals-numbered (known col ty) v n =
      one_param-numbered (compare_sql col (codes "=")) (compare_pieces col (codes "="))
        (typed_param finite ty v) n (compare_sql-render col (codes "=") n)
  equals-numbered (attribute e) v n = dual-numbered e v (finite v) n

  match-numbered :
      (w : Bool) (v : Str) (r : ResolvedField) (n : ℕ)
      → match_sql finite w v r n ≡ numbered n (ok (match_template finite w v r))
  unfolding match_sql
  match-numbered true v r n =
      one_param-numbered (like_sql (resolved_col r)) (like_pieces (resolved_col r))
        (SqlValue.text (wildcard_to_like v)) n (like_sql-render (resolved_col r) n)
  match-numbered false v r n = equals-numbered r v n

  comparison-numbered :
      (r : ResolvedField) (op : CompOp) (v : Str) (x : Option F64) (n : ℕ)
      → comparison_sql finite r op v x n ≡ numbered n (ok (comparison_template finite r op v x))
  unfolding comparison_sql
  comparison-numbered r op v none n =
      one_param-numbered (compare_sql (resolved_col r) (as_sql op))
        (compare_pieces (resolved_col r) (as_sql op)) (SqlValue.text v) n
        (compare_sql-render (resolved_col r) (as_sql op) n)
  comparison-numbered r op v (some x) n = elim (Bool-cases (needs_cast r)) [
    | inl cast ↦ rw cast (
        one_param-numbered (cast_sql (resolved_col r) (as_sql op))
          (cast_pieces (resolved_col r) (as_sql op)) (SqlValue.real x) n
          (cast_sql-render (resolved_col r) (as_sql op) n))
    | inr plain ↦ rw plain (
        one_param-numbered (compare_sql (resolved_col r) (as_sql op))
          (compare_pieces (resolved_col r) (as_sql op)) (SqlValue.real x) n
          (compare_sql-render (resolved_col r) (as_sql op) n))
  ]

  equals-Filled :
      (r : ResolvedField) (v : Str) (x : Option F64) → Filled (ok (equals_template finite r v x))
  equals-Filled (known col ty) v x = refl
  equals-Filled (attribute e) v none = refl
  equals-Filled (attribute e) v (some x) = refl

  match-Filled :
      (w : Bool) (v : Str) (r : ResolvedField) → Filled (ok (match_template finite w v r))
  match-Filled true v r = refl
  match-Filled false v r = equals-Filled r v (finite v)

  comparison-Filled :
      (r : ResolvedField) (op : CompOp) (v : Str) (x : Option F64)
      → Filled (ok (comparison_template finite r op v x))
  comparison-Filled r op v none = refl
  comparison-Filled r op v (some x) = ground arith

  join-Filled :
      (c : Str) (a b : Result DslError Template)
      → Filled a
      → Filled b
      → Filled (a >>= λ x. b >>= λ y. ok (join c x y))
  join-Filled c (err e) b h k = tt
  join-Filled c (ok l) (err e) h k = tt
  join-Filled c (ok l) (ok r) h k =
      let split = holes-append l.pieces (text c ∷ (r.pieces ++ (text (codes ")") ∷ []))) in
      let split_right = holes-append r.pieces (text (codes ")") ∷ []) in
      let split_params = length-append l.params r.params in omega arith

  negation-Filled : (a : Result DslError Template) → Filled a → Filled (a >>= λ x. ok (negation x))
  negation-Filled (err e) h = tt
  negation-Filled (ok t) h = omega (arith, holes-append t.pieces (text (codes ")") ∷ []))

  field-Filled :
      (r : Result DslError ResolvedField) (f : ResolvedField → Template)
      → ((x : ResolvedField) → Filled (ok (f x)))
      → Filled (r >>= λ x. ok (f x))
  field-Filled (err e) f h = tt
  field-Filled (ok x) f h = h x

  full_text-Filled : (c : Option Str) (p : Str) → Filled (full_text_template c p)
  full_text-Filled none p = tt
  full_text-Filled (some c) p = refl

  -- A template has as many parameters as holes.
  pub template-Filled : (dsl : QueryDsl) (e : Expr) → Filled (template finite dsl e)
  unfolding template
  template-Filled dsl (full_text s w) = full_text-Filled dsl.fts_column (text_pattern s w)
  template-Filled dsl (field_match f v w) =
      field-Filled (resolve_field dsl f) (match_template finite w v) (match-Filled w v)
  template-Filled dsl (comparison f op v) =
      field-Filled (resolve_field dsl f) (λ r. comparison_template finite r op v (finite v))
        (λ r. comparison-Filled r op v (finite v))
  template-Filled dsl (and_expr l r) =
      join-Filled (codes " AND ") (template finite dsl l) (template finite dsl r)
        (template-Filled dsl l) (template-Filled dsl r)
  template-Filled dsl (or_expr l r) =
      join-Filled (codes " OR ") (template finite dsl l) (template finite dsl r)
        (template-Filled dsl l) (template-Filled dsl r)
  template-Filled dsl (not_expr e) = negation-Filled (template finite dsl e) (template-Filled dsl e)

join_steps :
    (c : Str) (n : ℕ) (a b : Result DslError Template)
    (right : ℕ → Result DslError (SqlFragment × ℕ))
    → Filled a
    → ((m : ℕ) → right m ≡ numbered m b)
    → (numbered n a >>= λ l. right l.1 >>= λ r. ok (join_sql c l.0 r.0, r.1))
      ≡ numbered n (a >>= λ x. b >>= λ y. ok (join c x y))
join_steps c n (err e) b right h k = refl
join_steps c n (ok l) (err e) right h k = rw (k (n + length l.params)) refl
join_steps c n (ok l) (ok r) right h k =
    rw (k (n + length l.params)) (ap ok (join-numbered c n l r h))

not_steps :
    (n : ℕ) (a : Result DslError Template)
    → (numbered n a >>= λ f. ok (not_sql f.0, f.1)) ≡ numbered n (a >>= λ x. ok (negation x))
not_steps n (err e) = refl
not_steps n (ok t) = ap ok (not-numbered n t)

field_steps :
    (n : ℕ) (r : Result DslError ResolvedField)
    (sql : ResolvedField → Result DslError (SqlFragment × ℕ)) (f : ResolvedField → Template)
    → ((x : ResolvedField) → sql x ≡ numbered n (ok (f x)))
    → (r >>= sql) ≡ numbered n (r >>= λ x. ok (f x))
field_steps n (err e) sql f h = refl
field_steps n (ok x) sql f h = h x

-- The translation with a counter is the template with its holes numbered from the counter on: the
-- same error, or the text with the holes filled in order by the numbers after the counter, the same
-- parameters, and a counter that has grown by their number.
pub expr_to_sql-template :
    (finite : Str → Option F64) (dsl : QueryDsl) (e : Expr) (n : ℕ)
    → expr_to_sql finite dsl e n ≡ numbered n (template finite dsl e)
unfolding expr_to_sql template
expr_to_sql-template finite dsl (full_text s w) n =
    full_text-numbered dsl.fts_column (text_pattern s w) n
expr_to_sql-template finite dsl (field_match f v w) n =
    field_steps n (resolve_field dsl f) (λ r. match_sql finite w v r n) (match_template finite w v)
      (λ r. match-numbered finite w v r n)
expr_to_sql-template finite dsl (comparison f op v) n =
    field_steps n (resolve_field dsl f) (λ r. comparison_sql finite r op v (finite v) n)
      (λ r. comparison_template finite r op v (finite v))
      (λ r. comparison-numbered finite r op v (finite v) n)
expr_to_sql-template finite dsl (and_expr l r) n = rw (expr_to_sql-template finite dsl l n) (
    join_steps (codes " AND ") n (template finite dsl l) (template finite dsl r)
      (expr_to_sql finite dsl r) (template-Filled finite dsl l) (expr_to_sql-template finite dsl r))
expr_to_sql-template finite dsl (or_expr l r) n = rw (expr_to_sql-template finite dsl l n) (
    join_steps (codes " OR ") n (template finite dsl l) (template finite dsl r)
      (expr_to_sql finite dsl r) (template-Filled finite dsl l) (expr_to_sql-template finite dsl r))
expr_to_sql-template finite dsl (not_expr e) n =
    rw (expr_to_sql-template finite dsl e n) (not_steps n (template finite dsl e))
