-- ===== src/Query/Sql/Total.antt =====
-- `QueryDsl::parse` of kepler-daemon/src/query/dsl.rs always ends with SQL or an error of its own.
use kepler.Prelude.{ℕ, ◌≢◌, Option, none, some, List, arith, Bool-cases, inl, inr, is_empty}
use kepler.Prelude.Result.{Result, ok, err, ◌>>=◌}
use kepler.Restart.{F64}
use kepler.Text.{Str, codes, trim}
use kepler.Query.{
  Expr, Token, DslError, QueryDsl, Field, full_text, field_match, comparison, and_expr, or_expr,
  not_expr, out_of_fuel,
}
use kepler.Query.Tokens.{tokenize}
use kepler.Query.Tokens.Fuel.{tokenize_total}
use kepler.Query.Parse.{parse_tokens}
use kepler.Query.Parse.Fuel.{parse_tokens_total}
use kepler.Query.Sql.{
  known_or_attribute, attribute_field, resolve_field, text_pattern, expr_to_sql, parse,
}
use kepler.Query.Sql.Template.{
  Template, join, negation, full_text_template, match_template, comparison_template, template,
  numbered,
}
use kepler.Query.Sql.Numbered.{expr_to_sql-template}

-- A result that does not lack fuel.
abbrev Ends : {A : Type 0} → Result DslError A → Type 0
Ends (err e) = e ≢ out_of_fuel
Ends (ok a) = Unit {0}

of_ne : {A : Type 0} (r : Result DslError A) → r ≢ err out_of_fuel → Ends r
of_ne (err e) h = ground (arith, h)
of_ne (ok a) h = tt

to_ne : {A : Type 0} (r : Result DslError A) → Ends r → r ≢ err out_of_fuel
to_ne (err e) h = ground arith
to_ne (ok a) h = ground arith

bind-Ends :
    {A B : Type 0} (r : Result DslError A) (f : A → Result DslError B)
    → Ends r
    → ((a : A) → Ends (f a))
    → Ends (r >>= f)
bind-Ends (err e) f h k = h
bind-Ends (ok a) f h k = k a

attribute_field-Ends : (c : Option Str) (f : Str) → Ends (attribute_field c f)
unfolding attribute_field
attribute_field-Ends none f = ground arith
attribute_field-Ends (some c) f = tt

known_or_attribute-Ends :
    (o : Option Field) (c : Option Str) (f : Str) → Ends (known_or_attribute o c f)
unfolding known_or_attribute
known_or_attribute-Ends none c f = attribute_field-Ends c f
known_or_attribute-Ends (some x) c f = tt

resolve_field-Ends : (dsl : QueryDsl) (f : Str) → Ends (resolve_field dsl f)
unfolding resolve_field
resolve_field-Ends dsl f = known_or_attribute-Ends _ dsl.attributes_column f

full_text-Ends : (c : Option Str) (p : Str) → Ends (full_text_template c p)
full_text-Ends none p = ground arith
full_text-Ends (some c) p = tt

numbered-Ends : (n : ℕ) (a : Result DslError Template) → Ends a → Ends (numbered n a)
numbered-Ends n (err e) h = h
numbered-Ends n (ok t) h = tt

module _ (finite : Str → Option F64) where
  template-Ends : (dsl : QueryDsl) (e : Expr) → Ends (template finite dsl e)
  unfolding template
  template-Ends dsl (full_text s w) = full_text-Ends dsl.fts_column (text_pattern s w)
  template-Ends dsl (field_match f v w) =
      bind-Ends (resolve_field dsl f) (λ r. ok (match_template finite w v r))
        (resolve_field-Ends dsl f) (λ r. tt)
  template-Ends dsl (comparison f op v) =
      bind-Ends (resolve_field dsl f) (λ r. ok (comparison_template finite r op v (finite v)))
        (resolve_field-Ends dsl f) (λ r. tt)
  template-Ends dsl (and_expr l r) =
      bind-Ends (template finite dsl l)
        (λ a. template finite dsl r >>= λ b. ok (join (codes " AND ") a b)) (template-Ends dsl l)
        (λ a.
          bind-Ends (template finite dsl r) (λ b. ok (join (codes " AND ") a b))
            (template-Ends dsl r) (λ b. tt))
  template-Ends dsl (or_expr l r) =
      bind-Ends (template finite dsl l)
        (λ a. template finite dsl r >>= λ b. ok (join (codes " OR ") a b)) (template-Ends dsl l)
        (λ a.
          bind-Ends (template finite dsl r) (λ b. ok (join (codes " OR ") a b))
            (template-Ends dsl r) (λ b. tt))
  template-Ends dsl (not_expr e) =
      bind-Ends (template finite dsl e) (λ a. ok (negation a)) (template-Ends dsl e) (λ a. tt)

  expr_to_sql-Ends : (dsl : QueryDsl) (e : Expr) (n : ℕ) → Ends (expr_to_sql finite dsl e n)
  expr_to_sql-Ends dsl e n =
      rw (expr_to_sql-template finite dsl e n)
        (numbered-Ends n (template finite dsl e) (template-Ends dsl e))

  -- What follows the tokens
  after_tokens-Ends :
      (dsl : QueryDsl) (n : ℕ) (ts : List Token)
      → Ends (parse_tokens ts >>= λ ast. expr_to_sql finite dsl ast n >>= λ f. ok f.0)
  after_tokens-Ends dsl n ts =
      bind-Ends (parse_tokens ts) (λ ast. expr_to_sql finite dsl ast n >>= λ f. ok f.0)
        (of_ne (parse_tokens ts) (parse_tokens_total ts))
        (λ ast.
          bind-Ends (expr_to_sql finite dsl ast n) (λ f. ok f.0) (expr_to_sql-Ends dsl ast n)
            (λ f. tt))

-- A query is always answered: for every schema, text and offset the tokenizer, the parser and the
-- generation of the SQL end with a fragment or an error of the source, and never for lack of fuel.
pub parse_total :
    (finite : Str → Option F64) (dsl : QueryDsl) (input : Str) (offset : ℕ)
    → parse finite dsl input offset ≢ err out_of_fuel
unfolding parse
parse_total finite dsl input offset =
    to_ne (parse finite dsl input offset) (elim (Bool-cases (is_empty (trim input))) [
      | inl blank ↦ rw (blank, parse) (ground arith)
      | inr full ↦
          rw (full, parse)
            (bind-Ends (tokenize (trim input)) _
              (of_ne (tokenize (trim input)) (tokenize_total (trim input)))
              λ ts. elim (Bool-cases (is_empty ts)) [
                | inl none_left ↦ rw none_left (ground arith)
                | inr some_left ↦ rw some_left (after_tokens-Ends finite dsl offset ts)
              ])
    ])
