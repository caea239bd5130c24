-- ===== src/Query/Parse/Accepted.antt =====
-- The expressions that the parser of kepler-daemon/src/query/dsl.rs gives: each is well-formed, so
-- that a query that is accepted has a printed form with the same meaning.
use kepler.Prelude.{
  ℕ, zero, suc, ◌≡◌, refl, Bool, ◌&&◌, List, [], ◌∷◌, length, arith, Option-cases, inl, inr,
}
use kepler.Prelude.Result.{Result, ok, err, ◌>>=◌, Result-cases}
use kepler.Text.{Str}
use kepler.Query.{
  Token, DslError, Expr, CompOp, word, quoted_string, colon, at, left_paren, right_paren, not_word,
  minus, bang, and_expr, or_expr,
}
use kepler.Query.Parse.{
  Parser, has_wildcards, compare_to, match_to, close, negated, expect, value, parse_field_value,
  parse_field_expr, bare_word, parse_primary, parse_unary, next_operand, and_loop, and_run,
  parse_and, after_or, or_loop, or_run, parse_or, parse_group, parse_tokens, all_read,
}
use kepler.Query.Parse.RoundTrip.{IsWellFormed, print_at, parse_tokens-print_at}

abbrev Forms : Result DslError (Expr × List Token) → Type 0
Forms (err e) = Unit {0}
Forms (ok (e, rest)) = IsWellFormed e

Forms-ok :
    (r : Result DslError (Expr × List Token)) (e : Expr) (rest : List Token)
    → Forms r
    → r ≡ ok (e, rest)
    → IsWellFormed e
Forms-ok r e rest h eq = rw eq at h

flag_idem : (b w : Bool) → (b && w) ≡ ((b && w) && w)
flag_idem b w = ground arith

compare_to-Forms :
    (f : Str) (op : CompOp) (r : Result DslError ((Str × Bool) × List Token))
    → Forms (compare_to f op r)
unfolding compare_to
compare_to-Forms f op (err e) = tt
compare_to-Forms f op (ok ((v, b), ts)) = tt

match_to-Forms : (f : Str) (r : Result DslError ((Str × Bool) × List Token)) → Forms (match_to f r)
unfolding match_to
match_to-Forms f (err e) = tt
match_to-Forms f (ok ((v, b), ts)) = flag_idem b (has_wildcards v)

parse_field_value-Forms : (f : Str) (ts : List Token) → Forms (parse_field_value f ts)
unfolding parse_field_value
parse_field_value-Forms f [] = match_to-Forms f (value [])
parse_field_value-Forms f (Token.gt ∷ ts) = compare_to-Forms f CompOp.gt (value ts)
parse_field_value-Forms f (Token.gte ∷ ts) = compare_to-Forms f CompOp.gte (value ts)
parse_field_value-Forms f (Token.lt ∷ ts) = compare_to-Forms f CompOp.lt (value ts)
parse_field_value-Forms f (Token.lte ∷ ts) = compare_to-Forms f CompOp.lte (value ts)
parse_field_value-Forms f (t ∷ ts) = match_to-Forms f (value (t ∷ ts))

then_value-Forms : (f : Str) (r : Result DslError (List Token)) → Forms (r >>= parse_field_value f)
then_value-Forms f (err e) = tt
then_value-Forms f (ok ts) = parse_field_value-Forms f ts

parse_field_expr-Forms : (ts : List Token) → Forms (parse_field_expr ts)
unfolding parse_field_expr
parse_field_expr-Forms [] = tt
parse_field_expr-Forms (word w ∷ ts) = then_value-Forms w (expect colon ts)
parse_field_expr-Forms (t ∷ ts) = tt

bare_word-Forms : (w : Str) (ts : List Token) → Forms (bare_word w ts)
unfolding bare_word
bare_word-Forms w [] = ground arith
bare_word-Forms w (colon ∷ ts) = tt
bare_word-Forms w (t ∷ ts) = ground arith

then_done-Forms :
    (e : Expr) (r : Result DslError (List Token))
    → IsWellFormed e
    → Forms (r >>= λ rest. ok (e, rest))
then_done-Forms e (err x) h = tt
then_done-Forms e (ok ts) h = h

close-Forms : (r : Result DslError (Expr × List Token)) → Forms r → Forms (close r)
unfolding close
close-Forms (err e) h = tt
close-Forms (ok (e, ts)) h = then_done-Forms e (expect right_paren ts) h

negated-Forms : (r : Result DslError (Expr × List Token)) → Forms r → Forms (negated r)
unfolding negated
negated-Forms (err e) h = tt
negated-Forms (ok (e, ts)) h = h

module _ (group : Parser) (groups : (ts : List Token) → Forms (group ts)) where
  primary-Forms : (ts : List Token) → Forms (parse_primary group ts)
  unfolding parse_primary
  primary-Forms [] = tt
  primary-Forms (left_paren ∷ ts) = close-Forms (group ts) (groups ts)
  primary-Forms (at ∷ ts) = parse_field_expr-Forms ts
  primary-Forms (word w ∷ ts) = bare_word-Forms w ts
  primary-Forms (quoted_string s ∷ ts) = refl
  primary-Forms (t ∷ ts) = tt

  unary-Forms : (ts : List Token) → Forms (parse_unary group ts)
  unfolding parse_unary
  unary-Forms [] = primary-Forms []
  unary-Forms (not_word ∷ ts) = negated-Forms (parse_primary group ts) (primary-Forms ts)
  unary-Forms (minus ∷ ts) = negated-Forms (parse_primary group ts) (primary-Forms ts)
  unary-Forms (bang ∷ ts) = negated-Forms (parse_primary group ts) (primary-Forms ts)
  unary-Forms (t ∷ ts) = primary-Forms (t ∷ ts)

  and_loop-Forms :
      (n : ℕ) (left : Expr) (ts : List Token) → IsWellFormed left → Forms (and_loop n group left ts)
  unfolding and_loop
  and_loop-Forms zero left ts h = tt
  and_loop-Forms (suc n) left ts h = elim (Option-cases (next_operand ts)) [
    | inl last ↦ rw (last, and_loop, Forms) h
    | inr (operand, e) ↦ elim (Result-cases (parse_unary group operand)) [
      | inl (x, failed) ↦ rw (e, and_loop, Forms) (rw failed tt)
      | inr ((right, rest), parsed) ↦
          let form = Forms-ok (parse_unary group operand) right rest (unary-Forms operand) parsed in
          rw (e, and_loop, Forms)
            (rw parsed (and_loop-Forms n (and_expr left right) rest (h, form)))
    ]
  ]

  parse_and-Forms : (ts : List Token) → Forms (parse_and group ts)
  unfolding parse_and and_run
  parse_and-Forms ts = elim (Result-cases (parse_unary group ts)) [
    | inl (x, failed) ↦ rw (failed, Forms) tt
    | inr ((left, rest), parsed) ↦
        rw (parsed, Forms)
          (and_loop-Forms (suc (length ts)) left rest
            (Forms-ok (parse_unary group ts) left rest (unary-Forms ts) parsed))
  ]

  or_loop-Forms :
      (n : ℕ) (left : Expr) (ts : List Token) → IsWellFormed left → Forms (or_loop n group left ts)
  unfolding or_loop
  or_loop-Forms zero left ts h = tt
  or_loop-Forms (suc n) left ts h = elim (Option-cases (after_or ts)) [
    | inl last ↦ rw (last, or_loop, Forms) h
    | inr (operand, e) ↦ elim (Result-cases (parse_and group operand)) [
      | inl (x, failed) ↦ rw (e, or_loop, Forms) (rw failed tt)
      | inr ((right, rest), parsed) ↦
          let form =
            Forms-ok (parse_and group operand) right rest (parse_and-Forms operand) parsed in
          rw (e, or_loop, Forms) (rw parsed (or_loop-Forms n (or_expr left right) rest (h, form)))
    ]
  ]

  parse_or-Forms : (ts : List Token) → Forms (parse_or group ts)
  unfolding parse_or or_run
  parse_or-Forms ts = elim (Result-cases (parse_and group ts)) [
    | inl (x, failed) ↦ rw (failed, Forms) tt
    | inr ((left, rest), parsed) ↦
        rw (parsed, Forms)
          (or_loop-Forms (suc (length ts)) left rest
            (Forms-ok (parse_and group ts) left rest (parse_and-Forms ts) parsed))
  ]

parse_group-Forms : (depth : ℕ) (ts : List Token) → Forms (parse_group depth ts)
unfolding parse_group
parse_group-Forms zero ts = tt
parse_group-Forms (suc depth) ts = parse_or-Forms (parse_group depth) (parse_group-Forms depth) ts

all_read-Forms :
    (r : Result DslError (Expr × List Token)) (e : Expr)
    → Forms r
    → all_read r ≡ ok e
    → IsWellFormed e
unfolding all_read
all_read-Forms (err x) e h eq = cc
all_read-Forms (ok (x, [])) e h eq = let same : x ≡ e = ground arith in rw (← same) h
all_read-Forms (ok (x, t ∷ ts)) e h eq = cc

pub parse_tokens-IsWellFormed :
    (ts : List Token) (e : Expr) → parse_tokens ts ≡ ok e → IsWellFormed e
unfolding parse_tokens
parse_tokens-IsWellFormed ts e eq =
    all_read-Forms (parse_group (suc (length ts)) ts) e (parse_group-Forms (suc (length ts)) ts) eq

-- A query that is accepted, however it is written, means what its printed form means: printing the
-- expression it parses to gives tokens that parse to the same expression.
pub parse_tokens-print_at-parse_tokens :
    (ts : List Token) (e : Expr) → parse_tokens ts ≡ ok e → parse_tokens (print_at 0 e) ≡ ok e
parse_tokens-print_at-parse_tokens ts e eq =
    parse_tokens-print_at e (parse_tokens-IsWellFormed ts e eq)
