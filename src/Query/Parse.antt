-- ===== src/Query/Parse.antt =====
-- The parser of kepler-daemon/src/query/dsl.rs, on the tokens that are left. A loop has one round
-- more as fuel than there are tokens, and so have the groups in parentheses.
pub mod Fuel
pub mod RoundTrip
pub mod Accepted
use kepler.Prelude.{
  ℕ, zero, suc, Bool, true, false, ◌||◌, ◌&&◌, Option, none, some, List, [], ◌∷◌, if◌then◌else◌,
  eqb, length,
}
use kepler.Prelude.Result.{Result, ok, err, ◌>>=◌}
use kepler.Text.{Str, str_beq}
use kepler.Query.{
  Token, DslError, Expr, CompOp, word, quoted_string, colon, at, left_paren, right_paren, and_word,
  or_word, not_word, minus, bang, unexpected_end, out_of_fuel, unexpected_token, expected,
  expected_field, expected_value, bare_field, full_text, field_match, comparison, and_expr, or_expr,
  not_expr,
}

abbrev pub Parser : Type 0
Parser = List Token → Result DslError (Expr × List Token)

-- `peek`
unfoldable pub peek : List Token → Option Token
peek [] = none
peek (t ∷ ts) = some t

unfoldable pub token_beq : Token → Token → Bool
token_beq (word v) (word w) = str_beq v w
token_beq (quoted_string v) (quoted_string w) = str_beq v w
token_beq colon colon = true
token_beq at at = true
token_beq left_paren left_paren = true
token_beq right_paren right_paren = true
token_beq and_word and_word = true
token_beq or_word or_word = true
token_beq not_word not_word = true
token_beq minus minus = true
token_beq bang bang = true
token_beq Token.gt Token.gt = true
token_beq Token.gte Token.gte = true
token_beq Token.lt Token.lt = true
token_beq Token.lte Token.lte = true
token_beq _ _ = false

unfoldable pub expect : Token → List Token → Result DslError (List Token)
unfolding token_beq
expect t [] = err (expected t none)
expect t (u ∷ ts) = if token_beq u t then ok ts else err (expected t (some u))

unfoldable pub has_wildcards : Str → Bool
has_wildcards [] = false
has_wildcards (c ∷ s) = (eqb c b'*' || eqb c b'?') || has_wildcards s

-- The next value token: its text, and whether it is a bare word.
value_token : List Token → Result DslError ((Str × Bool) × List Token)
unfolding peek
value_token (word w ∷ ts) = ok ((w, true), ts)
value_token (quoted_string s ∷ ts) = ok ((s, false), ts)
value_token ts = err (expected_value (peek ts))

signed : Result DslError ((Str × Bool) × List Token) → Result DslError ((Str × Bool) × List Token)
signed (err e) = err e
signed (ok ((v, bare), ts)) = ok ((b'-' ∷ v, bare), ts)

-- What `read_value` and `read_value_with_wildcards` have in common: a minus may stand before the value.
unfoldable pub value : List Token → Result DslError ((Str × Bool) × List Token)
unfolding value_token signed
value (minus ∷ ts) = signed (value_token ts)
value ts = value_token ts

compare_to :
    Str → CompOp → Result DslError ((Str × Bool) × List Token) → Result DslError (Expr × List Token)
compare_to field op (err e) = err e
compare_to field op (ok ((v, bare), ts)) = ok (comparison field op v, ts)

match_to : Str → Result DslError ((Str × Bool) × List Token) → Result DslError (Expr × List Token)
unfolding has_wildcards
match_to field (err e) = err e
match_to field (ok ((v, bare), ts)) = ok (field_match field v (bare && has_wildcards v), ts)

unfoldable pub parse_field_value : Str → Parser
unfolding compare_to match_to value
parse_field_value field (Token.gt ∷ ts) = compare_to field CompOp.gt (value ts)
parse_field_value field (Token.gte ∷ ts) = compare_to field CompOp.gte (value ts)
parse_field_value field (Token.lt ∷ ts) = compare_to field CompOp.lt (value ts)
parse_field_value field (Token.lte ∷ ts) = compare_to field CompOp.lte (value ts)
parse_field_value field ts = match_to field (value ts)

unfoldable pub parse_field_expr : Parser
unfolding peek expect parse_field_value
parse_field_expr (word w ∷ ts) = expect colon ts >>= parse_field_value w
parse_field_expr ts = err (expected_field (peek ts))

unfoldable pub bare_word : Str → Parser
unfolding has_wildcards
bare_word w (colon ∷ ts) = err (bare_field w)
bare_word w ts = ok (full_text w (has_wildcards w), ts)

close : Result DslError (Expr × List Token) → Result DslError (Expr × List Token)
unfolding expect
close (err e) = err e
close (ok (e, ts)) = expect right_paren ts >>= λ rest. ok (e, rest)

-- `group` parses what stands in parentheses: `parse_or`, with what fuel is left.
unfoldable pub parse_primary : Parser → Parser
unfolding close parse_field_expr bare_word
parse_primary group [] = err unexpected_end
parse_primary group (left_paren ∷ ts) = close (group ts)
parse_primary group (at ∷ ts) = parse_field_expr ts
parse_primary group (word w ∷ ts) = bare_word w ts
parse_primary group (quoted_string s ∷ ts) = ok (full_text s false, ts)
parse_primary group (t ∷ ts) = err (unexpected_token t)

negated : Result DslError (Expr × List Token) → Result DslError (Expr × List Token)
negated (err e) = err e
negated (ok (e, ts)) = ok (not_expr e, ts)

unfoldable pub parse_unary : Parser → Parser
unfolding negated parse_primary
parse_unary group (not_word ∷ ts) = negated (parse_primary group ts)
parse_unary group (minus ∷ ts) = negated (parse_primary group ts)
parse_unary group (bang ∷ ts) = negated (parse_primary group ts)
parse_unary group ts = parse_primary group ts

-- Where the right operand of a conjunction begins, if there is one: after `AND`, or at once.
unfoldable pub next_operand : List Token → Option (List Token)
next_operand [] = none
next_operand (and_word ∷ ts) = some ts
next_operand (at ∷ ts) = some (at ∷ ts)
next_operand (word w ∷ ts) = some (word w ∷ ts)
next_operand (quoted_string s ∷ ts) = some (quoted_string s ∷ ts)
next_operand (left_paren ∷ ts) = some (left_paren ∷ ts)
next_operand (not_word ∷ ts) = some (not_word ∷ ts)
next_operand (minus ∷ ts) = some (minus ∷ ts)
next_operand (bang ∷ ts) = some (bang ∷ ts)
next_operand (t ∷ ts) = none

unfoldable pub and_loop : ℕ → Parser → Expr → Parser
unfolding next_operand parse_unary
and_loop zero group left ts = err out_of_fuel
and_loop (suc n) group left ts = elim (next_operand ts) [
  | none ↦ ok (left, ts)
  | some operand ↦ elim (parse_unary group operand) [
    | err e ↦ err e
    | ok (right, rest) ↦ and_loop n group (and_expr left right) rest
  ]
]

unfoldable pub and_run : ℕ → Parser → Parser
unfolding parse_unary and_loop
and_run n group ts = elim (parse_unary group ts) [
  | err e ↦ err e
  | ok (left, rest) ↦ and_loop n group left rest
]

unfoldable pub parse_and : Parser → Parser
unfolding and_run
parse_and group ts = and_run (suc (length ts)) group ts

-- What follows an `OR`
unfoldable pub after_or : List Token → Option (List Token)
after_or (or_word ∷ ts) = some ts
after_or ts = none

unfoldable pub or_loop : ℕ → Parser → Expr → Parser
unfolding after_or parse_and
or_loop zero group left ts = err out_of_fuel
or_loop (suc n) group left ts = elim (after_or ts) [
  | none ↦ ok (left, ts)
  | some operand ↦ elim (parse_and group operand) [
    | err e ↦ err e
    | ok (right, rest) ↦ or_loop n group (or_expr left right) rest
  ]
]

unfoldable pub or_run : ℕ → Parser → Parser
unfolding parse_and or_loop
or_run n group ts = elim (parse_and group ts) [
  | err e ↦ err e
  | ok (left, rest) ↦ or_loop n group left rest
]

unfoldable pub parse_or : Parser → Parser
unfolding or_run
parse_or group ts = or_run (suc (length ts)) group ts

unfoldable pub parse_group : ℕ → Parser
unfolding parse_or
parse_group zero ts = err out_of_fuel
parse_group (suc depth) ts = parse_or (parse_group depth) ts

all_read : Result DslError (Expr × List Token) → Result DslError Expr
all_read (err e) = err e
all_read (ok (e, [])) = ok e
all_read (ok (e, t ∷ ts)) = err (unexpected_token t)

unfoldable pub parse_tokens : List Token → Result DslError Expr
unfolding parse_group all_read
parse_tokens ts = all_read (parse_group (suc (length ts)) ts)
