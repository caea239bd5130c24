-- ===== src/Query/Sql/Offset.antt =====
-- `sql_with_offset` of kepler-daemon/src/query/dsl.rs against the numbering of the parameters: the
-- fragment made at counter 0 and shifted is the fragment made at the offset.
use kepler.Prelude.{
  ℕ, zero, suc, ◌+◌, ◌<◌, ◌≡◌, refl, sym, ap, ◌∙◌, Bool, true, false, Option, none, some, List, [],
  ◌∷◌, ◌++◌, eqb, length, arith, Bool-cases, inl, inr,
}
use kepler.Prelude.Result.{Result, ok, err, ◌>>=◌}
use kepler.Restart.{F64}
use kepler.Text.{Str, codes, is_ascii_digit}
use kepler.Text.Decimal.{u64_mod}
use kepler.Query.{
  Expr, DslError, QueryDsl, SqlFragment, as_sql, CompOp, full_text, field_match, comparison,
  and_expr, or_expr, not_expr,
}
use kepler.Query.Sql.{
  ResolvedField, known, attribute, resolve_field, resolved_col, needs_cast, text_pattern,
  expr_to_sql, sql_with_offset,
}
use kepler.Query.Sql.Template.{
  Piece, text, hole, render, Template, like_pieces, compare_pieces, cast_pieces, dual_pieces, join,
  negation, full_text_template, equals_template, match_template, comparison_template, template,
  numbered, at_counter, Filled,
}
use kepler.Query.Sql.Numbered.{template-Filled, expr_to_sql-template}
use kepler.Query.Sql.Shift.{plain, Follows, Clean, as_bytes-render, render-Shifts}

-- Every field that an expression names stands for plain text of SQL.
abbrev PlainField : Result DslError ResolvedField → Type 0
PlainField (err e) = Unit {0}
PlainField (ok r) = plain (resolved_col r) ≡ true

abbrev PlainColumn : Option Str → Type 0
PlainColumn none = Unit {0}
PlainColumn (some c) = plain c ≡ true

abbrev pub PlainFields : QueryDsl → Expr → Type 0
PlainFields dsl (full_text s w) = PlainColumn dsl.fts_column
PlainFields dsl (field_match f v w) = PlainField (resolve_field dsl f)
PlainFields dsl (comparison f op v) = PlainField (resolve_field dsl f)
PlainFields dsl (and_expr l r) = PlainFields dsl l × PlainFields dsl r
PlainFields dsl (or_expr l r) = PlainFields dsl l × PlainFields dsl r
PlainFields dsl (not_expr e) = PlainFields dsl e

-- Fixed texts are plain, and what follows a hole in them begins with no digit.
Clean-append : (ps qs : List Piece) → Clean ps → Clean qs → Follows qs → Clean (ps ++ qs)
Clean-append [] qs h k f = k
Clean-append (text s ∷ ps) qs (p, h) k f = (p, Clean-append ps qs h k f)
Clean-append (hole ∷ []) qs (p, h) k f = (f, k)
Clean-append (hole ∷ text s ∷ ps) qs (p, h) k f = (p, Clean-append (text s ∷ ps) qs h k f)
Clean-append (hole ∷ hole ∷ ps) qs (p, h) k f = absurd p

abbrev pub CleanResult : Result DslError Template → Type 0
CleanResult (err e) = Unit {0}
CleanResult (ok t) = Clean t.pieces

as_sql-plain : (op : CompOp) → plain (as_sql op) ≡ true
unfolding as_sql
as_sql-plain CompOp.gt = refl
as_sql-plain CompOp.gte = refl
as_sql-plain CompOp.lt = refl
as_sql-plain CompOp.lte = refl

closed : Clean (text (codes ")") ∷ [])
closed = (refl, tt)

join-Clean :
    (c : Str) (a b : Result DslError Template)
    → plain c ≡ true
    → Follows (text c ∷ [])
    → CleanResult a
    → CleanResult b
    → CleanResult (a >>= λ x. b >>= λ y. ok (join c x y))
unfolding is_ascii_digit
join-Clean c (err e) b p f h k = tt
join-Clean c (ok l) (err e) p f h k = tt
join-Clean c (ok l) (ok r) p f h k =
    let right = Clean-append r.pieces (text (codes ")") ∷ []) k closed (refl, refl) in
    (refl, Clean-append l.pieces (text c ∷ (r.pieces ++ (text (codes ")") ∷ []))) h (p, right) f)

negation-Clean :
    (a : Result DslError Template) → CleanResult a → CleanResult (a >>= λ x. ok (negation x))
unfolding is_ascii_digit
negation-Clean (err e) h = tt
negation-Clean (ok t) h =
    (refl, Clean-append t.pieces (text (codes ")") ∷ []) h closed (refl, refl))

like-Clean : (c : Str) → plain c ≡ true → Clean (like_pieces c)
unfolding is_ascii_digit
like-Clean c h = (h, (refl, ((refl, refl), (refl, tt))))

compare-Clean : (c op : Str) → plain c ≡ true → plain op ≡ true → Clean (compare_pieces c op)
compare-Clean c op h k = (h, (refl, (k, (refl, (tt, tt)))))

cast-Clean : (c op : Str) → plain c ≡ true → plain op ≡ true → Clean (cast_pieces c op)
cast-Clean c op h k = (refl, (h, (refl, (k, (refl, (tt, tt))))))

dual-Clean : (c : Str) → plain c ≡ true → Clean (dual_pieces c)
unfolding is_ascii_digit
dual-Clean c h =
    (refl, (h, (refl, ((refl, refl), (refl, (h, (refl, ((refl, refl), (refl, tt)))))))))

full_text-Clean : (c : Option Str) (p : Str) → PlainColumn c → CleanResult (full_text_template c p)
full_text-Clean none p h = tt
full_text-Clean (some c) p h = like-Clean c h

module _ (finite : Str → Option F64) where
  equals-Clean :
      (r : ResolvedField) (v : Str) (x : Option F64)
      → plain (resolved_col r) ≡ true
      → Clean (equals_template finite r v x).pieces
  unfolding resolved_col
  equals-Clean (known c t) v x h = compare-Clean c (codes "=") h refl
  equals-Clean (attribute e) v none h = compare-Clean e (codes "=") h refl
  equals-Clean (attribute e) v (some x) h = dual-Clean e h

  match-Clean :
      (w : Bool) (v : Str) (r : ResolvedField)
      → plain (resolved_col r) ≡ true
      → Clean (match_template finite w v r).pieces
  match-Clean true v r h = like-Clean (resolved_col r) h
  match-Clean false v r h = equals-Clean r v (finite v) h

  comparison-Clean :
      (r : ResolvedField) (op : CompOp) (v : Str) (x : Option F64)
      → plain (resolved_col r) ≡ true
      → Clean (comparison_template finite r op v x).pieces
  comparison-Clean r op v none h = compare-Clean (resolved_col r) (as_sql op) h (as_sql-plain op)
  comparison-Clean r op v (some x) h = elim (Bool-cases (needs_cast r)) [
    | inl cast ↦ rw cast (cast-Clean (resolved_col r) (as_sql op) h (as_sql-plain op))
    | inr bare ↦ rw bare (compare-Clean (resolved_col r) (as_sql op) h (as_sql-plain op))
  ]

  field-Clean :
      (r : Result DslError ResolvedField) (f : ResolvedField → Template)
      → PlainField r
      → ((x : ResolvedField) → plain (resolved_col x) ≡ true → Clean (f x).pieces)
      → CleanResult (r >>= λ x. ok (f x))
  field-Clean (err e) f h k = tt
  field-Clean (ok x) f h k = k x h

  pub template-Clean :
      (dsl : QueryDsl) (e : Expr) → PlainFields dsl e → CleanResult (template finite dsl e)
  unfolding template is_ascii_digit
  template-Clean dsl (full_text s w) h = full_text-Clean dsl.fts_column (text_pattern s w) h
  template-Clean dsl (field_match f v w) h =
      field-Clean (resolve_field dsl f) (match_template finite w v) h (match-Clean w v)
  template-Clean dsl (comparison f op v) h =
      field-Clean (resolve_field dsl f) (λ r. comparison_template finite r op v (finite v)) h
        (λ r. comparison-Clean r op v (finite v))
  template-Clean dsl (and_expr l r) (h, k) =
      join-Clean (codes " AND ") (template finite dsl l) (template finite dsl r) refl (refl, refl)
        (template-Clean dsl l h) (template-Clean dsl r k)
  template-Clean dsl (or_expr l r) (h, k) =
      join-Clean (codes " OR ") (template finite dsl l) (template finite dsl r) refl (refl, refl)
        (template-Clean dsl l h) (template-Clean dsl r k)
  template-Clean dsl (not_expr e) h =
      negation-Clean (template finite dsl e) (template-Clean dsl e h)

-- Shifting a numbered template.
pub numbered_shift :
    (k : ℕ) (t : Template)
    → Filled (ok t)
    → Clean t.pieces
    → length t.params < u64_mod
    → sql_with_offset (at_counter 0 t).0 k ≡ some (at_counter k t).0.sql
unfolding sql_with_offset
numbered_shift zero t filled h lt = refl
numbered_shift (suc k) t filled h lt =
    let zero_plus : 0 + suc k ≡ suc k = omega arith in
    let shifted =
      render-Shifts (suc k) 0 t.pieces h (omega arith) (suc (length (render 0 t.pieces)))
        (omega arith) in
    let moved : eqb (suc k) 0 ≡ false = ground arith in
    rw (moved, sql_with_offset)
      (rw (as_bytes-render 0 t.pieces h) (shifted ∙ ap (λ m. some (render m t.pieces)) zero_plus))

ok-numbered :
    (n m : ℕ) (a : Result DslError Template) (frag : SqlFragment)
    → numbered n a ≡ ok (frag, m)
    → (t : Template) × (a ≡ ok t) × (frag ≡ (at_counter n t).0) × (m ≡ n + length t.params)
ok-numbered n m (err e) frag h = cc
ok-numbered n m (ok t) frag h = (t, refl, ground arith, ground arith)

-- A fragment made at counter 0 and shifted by an offset is the fragment made at that offset, where
-- the columns and the fields that the query names are ASCII without a question mark, and the query
-- has fewer than 2^64 parameters: the shift succeeds, and moves every placeholder and nothing else.
pub sql_with_offset-expr_to_sql :
    (finite : Str → Option F64) (dsl : QueryDsl) (e : Expr) (k m n : ℕ) (a b : SqlFragment)
    → PlainFields dsl e
    → expr_to_sql finite dsl e 0 ≡ ok (a, m)
    → expr_to_sql finite dsl e k ≡ ok (b, n)
    → m < u64_mod
    → sql_with_offset a k ≡ some b.sql
sql_with_offset-expr_to_sql finite dsl e k m n a b plain_fields ha hb lt =
    let (t, is_t, a_eq, m_eq) =
      ok-numbered 0 m (template finite dsl e) a (sym (expr_to_sql-template finite dsl e 0) ∙ ha) in
    let (t', is_t', b_eq, n_eq) =
      ok-numbered k n (template finite dsl e) b (sym (expr_to_sql-template finite dsl e k) ∙ hb) in
    let same : t ≡ t' = cc in
    let filled : Filled (ok t) = rw is_t at (template-Filled finite dsl e) in
    let clean : Clean t.pieces = rw is_t at (template-Clean finite dsl e plain_fields) in
    rw (a_eq, b_eq, ← same) (numbered_shift k t filled clean (omega arith))
