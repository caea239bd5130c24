-- ===== src/Query/Parse/Fuel.antt =====
-- The fuel of the query parser suffices: each operand takes a token at least.
use mathlib.Core.Path.{subst}
use kepler.Prelude.{
  sym, ℕ, zero, suc, ◌≡◌, ◌≢◌, ◌≤◌, ◌<◌, refl, Bool, some, List, [], ◌∷◌, length, arith,
  Option-cases, Bool-cases, inl, inr,
}
use kepler.Prelude.Result.{Result, ok, err, ◌>>=◌, Result-cases}
use kepler.Text.{Str}
use kepler.Query.{
  Token, DslError, Expr, CompOp, word, quoted_string, colon, at, left_paren, right_paren, and_word,
  or_word, unexpected_end, not_word, minus, bang, out_of_fuel, and_expr, or_expr,
}
use kepler.Query.Parse.{
  Parser, token_beq, value_token, signed, compare_to, match_to, close, negated, expect, value,
  parse_field_value, parse_field_expr, bare_word, parse_primary, parse_unary, next_operand,
  and_loop, and_run, parse_and, after_or, or_loop, or_run, parse_or, parse_group, parse_tokens,
  all_read,
}

-- A result that is no lack of fuel, and that leaves `n` tokens at most.
abbrev Ends : {A : Type 0} → ℕ → Result DslError (A × List Token) → Type 0
Ends n (err e) = e ≢ out_of_fuel
Ends n (ok (a, rest)) = length rest ≤ n

Ends-mono :
    {A : Type 0} (m n : ℕ) (r : Result DslError (A × List Token)) → Ends m r → m ≤ n → Ends n r
Ends-mono m n (err e) h le = h
Ends-mono m n (ok (a, rest)) h le = omega arith

value_token-Ends : (n : ℕ) (ts : List Token) → length ts ≤ n → Ends n (value_token ts)
unfolding value_token
value_token-Ends n [] h = ground arith
value_token-Ends n (word w ∷ ts) h = omega arith
value_token-Ends n (quoted_string w ∷ ts) h = omega arith
value_token-Ends n (t ∷ ts) h = ground arith

signed-Ends :
    (n : ℕ) (r : Result DslError ((Str × Bool) × List Token)) → Ends n r → Ends n (signed r)
unfolding signed
signed-Ends n (err e) h = h
signed-Ends n (ok ((v, b), ts)) h = h

value-Ends : (n : ℕ) (ts : List Token) → length ts ≤ n → Ends n (value ts)
unfolding value
value-Ends n [] h = value_token-Ends n [] h
value-Ends n (minus ∷ ts) h = signed-Ends n _ (value_token-Ends n ts (omega arith))
value-Ends n (t ∷ ts) h = value_token-Ends n (t ∷ ts) h

compare_to-Ends :
    (f : Str) (op : CompOp) (n : ℕ) (r : Result DslError ((Str × Bool) × List Token))
    → Ends n r
    → Ends n (compare_to f op r)
unfolding compare_to
compare_to-Ends f op n (err e) h = h
compare_to-Ends f op n (ok ((v, b), ts)) h = h

match_to-Ends :
    (f : Str) (n : ℕ) (r : Result DslError ((Str × Bool) × List Token))
    → Ends n r
    → Ends n (match_to f r)
unfolding match_to
match_to-Ends f n (err e) h = h
match_to-Ends f n (ok ((v, b), ts)) h = h

parse_field_value-Ends :
    (f : Str) (n : ℕ) (ts : List Token) → length ts ≤ n → Ends n (parse_field_value f ts)
unfolding parse_field_value
parse_field_value-Ends f n [] h = match_to-Ends f n (value []) (value-Ends n [] h)
parse_field_value-Ends f n (Token.gt ∷ ts) h =
    compare_to-Ends f CompOp.gt n (value ts) (value-Ends n ts (omega arith))
parse_field_value-Ends f n (Token.gte ∷ ts) h =
    compare_to-Ends f CompOp.gte n (value ts) (value-Ends n ts (omega arith))
parse_field_value-Ends f n (Token.lt ∷ ts) h =
    compare_to-Ends f CompOp.lt n (value ts) (value-Ends n ts (omega arith))
parse_field_value-Ends f n (Token.lte ∷ ts) h =
    compare_to-Ends f CompOp.lte n (value ts) (value-Ends n ts (omega arith))
parse_field_value-Ends f n (t ∷ ts) h = match_to-Ends f n (value (t ∷ ts)) (value-Ends n (t ∷ ts) h)

-- A result of `expect`, with the tokens for the value.
abbrev Took : ℕ → Result DslError (List Token) → Type 0
Took n (err e) = e ≢ out_of_fuel
Took n (ok ts) = length ts ≤ n

expect-Took : (t : Token) (n : ℕ) (ts : List Token) → length ts ≤ n → Took n (expect t ts)
unfolding expect
expect-Took t n [] h = ground arith
expect-Took t n (u ∷ ts) h = elim (Bool-cases (token_beq u t)) [
  | inl same ↦ rw same (omega arith)
  | inr other ↦ rw other (ground arith)
]

then_value-Ends :
    (f : Str) (n : ℕ) (r : Result DslError (List Token))
    → Took n r
    → Ends n (r >>= parse_field_value f)
then_value-Ends f n (err e) h = h
then_value-Ends f n (ok ts) h = parse_field_value-Ends f n ts h

parse_field_expr-Ends : (n : ℕ) (ts : List Token) → length ts ≤ n → Ends n (parse_field_expr ts)
unfolding parse_field_expr
parse_field_expr-Ends n [] h = ground arith
parse_field_expr-Ends n (word w ∷ ts) h =
    then_value-Ends w n (expect colon ts) (expect-Took colon n ts (omega arith))
parse_field_expr-Ends n (t ∷ ts) h = ground arith

bare_word-Ends : (w : Str) (n : ℕ) (ts : List Token) → length ts ≤ n → Ends n (bare_word w ts)
unfolding bare_word
bare_word-Ends w n [] h = h
bare_word-Ends w n (colon ∷ ts) h = ground arith
bare_word-Ends w n (t ∷ ts) h = h

then_done-Ends :
    (e : Expr) (n : ℕ) (r : Result DslError (List Token))
    → Took n r
    → Ends n (r >>= λ rest. ok (e, rest))
then_done-Ends e n (err x) h = h
then_done-Ends e n (ok ts) h = h

close-Ends : (n : ℕ) (r : Result DslError (Expr × List Token)) → Ends n r → Ends n (close r)
unfolding close
close-Ends n (err e) h = h
close-Ends n (ok (e, ts)) h =
    then_done-Ends e n (expect right_paren ts) (expect-Took right_paren n ts h)

negated-Ends : (n : ℕ) (r : Result DslError (Expr × List Token)) → Ends n r → Ends n (negated r)
unfolding negated
negated-Ends n (err e) h = h
negated-Ends n (ok (e, ts)) h = h

-- A parser of groups that has fuel for `n` tokens.
abbrev Ready : ℕ → Parser → Type 0
Ready n group = (ts : List Token) → length ts ≤ n → Ends (length ts) (group ts)

next_operand-length :
    (n : ℕ) (ts rest : List Token) → next_operand ts ≡ some rest → length ts ≤ n → length rest ≤ n
unfolding next_operand
next_operand-length n [] rest e h = cc
next_operand-length n (and_word ∷ ts) rest e h = ground arith
next_operand-length n (t ∷ ts) rest e h = ground arith

after_or-length :
    (n : ℕ) (ts rest : List Token) → after_or ts ≡ some rest → length ts ≤ n → length rest ≤ n
unfolding after_or
after_or-length n [] rest e h = cc
after_or-length n (or_word ∷ ts) rest e h = ground arith
after_or-length n (t ∷ ts) rest e h = cc

-- What the equation of a result gives.
module _ {A : Type 0} (n : ℕ) (r : Result DslError (A × List Token)) (h : Ends n r) where
  Ends-err : (e : DslError) → r ≡ err e → e ≢ out_of_fuel
  Ends-err e eq = rw eq at h

  Ends-ok : (a : A) (rest : List Token) → r ≡ ok (a, rest) → length rest ≤ n
  Ends-ok a rest eq = rw eq at h

module _ (bound : ℕ) (group : Parser) (ready : Ready bound group) where
  -- An operand takes a token at least.
  primary-Ends :
      (n : ℕ) (ts : List Token) → n ≤ bound → length ts ≤ suc n → Ends n (parse_primary group ts)
  unfolding parse_primary
  primary-Ends n [] k h = ground arith
  primary-Ends n (left_paren ∷ ts) k h =
      close-Ends n (group ts)
        (Ends-mono (length ts) n (group ts) (ready ts (omega arith)) (omega arith))
  primary-Ends n (at ∷ ts) k h = parse_field_expr-Ends n ts (omega arith)
  primary-Ends n (word w ∷ ts) k h = bare_word-Ends w n ts (omega arith)
  primary-Ends n (quoted_string s ∷ ts) k h = omega arith
  primary-Ends n (t ∷ ts) k h = ground arith

  unary-Ends :
      (n : ℕ) (ts : List Token) → n ≤ bound → length ts ≤ suc n → Ends n (parse_unary group ts)
  unfolding parse_unary
  unary-Ends n [] k h = primary-Ends n [] k h
  unary-Ends n (not_word ∷ ts) k h =
      negated-Ends n (parse_primary group ts) (primary-Ends n ts k (omega arith))
  unary-Ends n (minus ∷ ts) k h =
      negated-Ends n (parse_primary group ts) (primary-Ends n ts k (omega arith))
  unary-Ends n (bang ∷ ts) k h =
      negated-Ends n (parse_primary group ts) (primary-Ends n ts k (omega arith))
  unary-Ends n (t ∷ ts) k h = primary-Ends n (t ∷ ts) k h

  -- A loop with more rounds than tokens ends.
  and_loop-Ends :
      (n : ℕ) (left : Expr) (ts : List Token)
      → length ts ≤ suc bound
      → length ts < n
      → Ends (length ts) (and_loop n group left ts)
  unfolding and_loop next_operand
  and_loop-Ends zero left ts k h = absurd (omega arith)
  and_loop-Ends (suc n) left [] k h = omega arith
  and_loop-Ends (suc n) left (t ∷ ts) k h = elim (Option-cases (next_operand (t ∷ ts))) [
    | inl last ↦ rw (last, and_loop, Ends) (omega arith)
    | inr (operand, e) ↦
        let shorter = next_operand-length (suc (length ts)) (t ∷ ts) operand e (omega arith) in
        let ends = unary-Ends (length ts) operand (omega arith) shorter in
        elim (Result-cases (parse_unary group operand)) [
          | inl (x, failed) ↦
              rw (e, and_loop, Ends)
                (rw failed (Ends-err (length ts) (parse_unary group operand) ends x failed))
          | inr ((right, rest), parsed) ↦
              let left_over =
                Ends-ok (length ts) (parse_unary group operand) ends right rest parsed in
              rw (e, and_loop, Ends)
                (rw parsed (
                  Ends-mono (length rest) (suc (length ts))
                    (and_loop n group (and_expr left right) rest)
                    (and_loop-Ends n (and_expr left right) rest (omega arith) (omega arith))
                    (omega arith)))
        ]
  ]

  parse_and_exact :
      (n : ℕ) (ts : List Token)
      → n ≤ bound
      → length ts ≤ suc n
      → n ≤ length ts
      → Ends n (parse_and group ts)
  unfolding parse_and and_run
  parse_and_exact n ts k h l =
      let ends = unary-Ends n ts k h in
      elim (Result-cases (parse_unary group ts)) [
        | inl (x, failed) ↦ rw (failed, Ends) (Ends-err n (parse_unary group ts) ends x failed)
        | inr ((left, rest), parsed) ↦
            let left_over = Ends-ok n (parse_unary group ts) ends left rest parsed in
            rw (parsed, Ends)
              (Ends-mono (length rest) n (and_loop (suc (length ts)) group left rest)
                (and_loop-Ends (suc (length ts)) left rest (omega arith) (omega arith))
                (omega arith))
      ]

  parse_and-Ends :
      (n : ℕ) (ts : List Token) → n ≤ bound → length ts ≤ suc n → Ends n (parse_and group ts)
  parse_and-Ends n [] k h =
      Ends-mono 0 n (parse_and group [])
        (parse_and_exact 0 [] (omega arith) (omega arith) (omega arith)) (omega arith)
  parse_and-Ends n (t ∷ ts) k h =
      Ends-mono (length ts) n (parse_and group (t ∷ ts))
        (parse_and_exact (length ts) (t ∷ ts) (omega arith) (omega arith) (omega arith))
        (omega arith)

  or_loop-Ends :
      (n : ℕ) (left : Expr) (ts : List Token)
      → length ts ≤ suc bound
      → length ts < n
      → Ends (length ts) (or_loop n group left ts)
  unfolding or_loop after_or
  or_loop-Ends zero left ts k h = absurd (omega arith)
  or_loop-Ends (suc n) left [] k h = omega arith
  or_loop-Ends (suc n) left (t ∷ ts) k h = elim (Option-cases (after_or (t ∷ ts))) [
    | inl last ↦ rw (last, or_loop, Ends) (omega arith)
    | inr (operand, e) ↦
        let shorter = after_or-length (suc (length ts)) (t ∷ ts) operand e (omega arith) in
        let ends = parse_and-Ends (length ts) operand (omega arith) shorter in
        elim (Result-cases (parse_and group operand)) [
          | inl (x, failed) ↦
              rw (e, or_loop, Ends)
                (rw failed (Ends-err (length ts) (parse_and group operand) ends x failed))
          | inr ((right, rest), parsed) ↦
              let left_over =
                Ends-ok (length ts) (parse_and group operand) ends right rest parsed in
              rw (e, or_loop, Ends)
                (rw parsed (
                  Ends-mono (length rest) (suc (length ts))
                    (or_loop n group (or_expr left right) rest)
                    (or_loop-Ends n (or_expr left right) rest (omega arith) (omega arith))
                    (omega arith)))
        ]
  ]

  parse_or_exact :
      (n : ℕ) (ts : List Token)
      → n ≤ bound
      → length ts ≤ suc n
      → n ≤ length ts
      → Ends n (parse_or group ts)
  unfolding parse_or or_run
  parse_or_exact n ts k h l =
      let ends = parse_and-Ends n ts k h in
      elim (Result-cases (parse_and group ts)) [
        | inl (x, failed) ↦ rw (failed, Ends) (Ends-err n (parse_and group ts) ends x failed)
        | inr ((left, rest), parsed) ↦
            let left_over = Ends-ok n (parse_and group ts) ends left rest parsed in
            rw (parsed, Ends)
              (Ends-mono (length rest) n (or_loop (suc (length ts)) group left rest)
                (or_loop-Ends (suc (length ts)) left rest (omega arith) (omega arith))
                (omega arith))
      ]

  parse_or-Ends :
      (n : ℕ) (ts : List Token) → n ≤ bound → length ts ≤ suc n → Ends n (parse_or group ts)
  parse_or-Ends n [] k h =
      Ends-mono 0 n (parse_or group [])
        (parse_or_exact 0 [] (omega arith) (omega arith) (omega arith)) (omega arith)
  parse_or-Ends n (t ∷ ts) k h =
      Ends-mono (length ts) n (parse_or group (t ∷ ts))
        (parse_or_exact (length ts) (t ∷ ts) (omega arith) (omega arith) (omega arith))
        (omega arith)

parse_or_nil : (group : Parser) → parse_or group [] ≡ err unexpected_end
unfolding parse_or or_run parse_and and_run parse_unary parse_primary
parse_or_nil group = refl

parse_group-Ready : (n depth : ℕ) → n < depth → Ready n (parse_group depth)
unfolding parse_group
parse_group-Ready n zero lt ts h = absurd (omega arith)
parse_group-Ready n (suc depth) lt [] h =
    subst (Ends 0) (sym (parse_or_nil (parse_group depth))) (ground arith)
parse_group-Ready zero (suc depth) lt (t ∷ ts) h = absurd (omega arith)
parse_group-Ready (suc n) (suc depth) lt (t ∷ ts) h =
    Ends-mono (length ts) (suc (length ts)) (parse_or (parse_group depth) (t ∷ ts))
      (parse_or-Ends n (parse_group depth) (parse_group-Ready n depth (omega arith)) (length ts)
        (t ∷ ts) (omega arith) (omega arith))
      (omega arith)

all_read_fuel :
    (n : ℕ) (r : Result DslError (Expr × List Token)) → Ends n r → all_read r ≢ err out_of_fuel
unfolding all_read
all_read_fuel n (err e) h = ground arith
all_read_fuel n (ok (e, [])) h = ground arith
all_read_fuel n (ok (e, t ∷ ts)) h = ground arith

-- The parser never runs out of its fuel: on every list of tokens it gives an expression or one of
-- the errors of the source.
pub parse_tokens_total : (ts : List Token) → parse_tokens ts ≢ err out_of_fuel
unfolding parse_tokens
parse_tokens_total ts =
    all_read_fuel (length ts) (parse_group (suc (length ts)) ts)
      (parse_group-Ready (length ts) (suc (length ts)) (omega arith) ts (omega arith))
