-- ===== src/Query/Tokens.antt =====
-- The tokenizer of kepler-daemon/src/query/dsl.rs. Each round takes a code point at least, so that the
-- length of the text is fuel enough.
pub mod Fuel
use kepler.Prelude.{
  ℕ, zero, suc, ◌≤◌, ◌<◌, ◌≡◌, ◌≢◌, refl, Bool, true, false, ◌||◌, Option, none, some, List, [],
  ◌∷◌, if◌then◌else◌, eqb, length, arith, Option-cases, Bool-cases, inl, inr,
}
use kepler.Prelude.Result.{Result, ok, err}
use kepler.Text.{Str, codes, str_beq, to_lowercase}
use kepler.Query.{
  Token, DslError, word, quoted_string, colon, at, left_paren, right_paren, and_word, or_word,
  not_word, minus, bang, unterminated_quote, out_of_fuel,
}

unfoldable pub is_space : ℕ → Bool
is_space c = (eqb c b' ' || eqb c b'\t') || (eqb c b'\n' || eqb c b'\r')

unfoldable pub ends_word : ℕ → Bool
unfolding is_space
ends_word c =
    is_space c
    || (eqb c b':'
        || (eqb c b'@'
            || (eqb c b'('
                || (eqb c b')'
                    || (eqb c b'>'
                        || (eqb c b'<' || (eqb c b'"' || (eqb c b'\'' || eqb c b'!'))))))))

-- The word at the front, and what follows it.
unfoldable pub span_word : Str → Str × Str
unfolding ends_word
span_word [] = ([], [])
span_word (c ∷ s) =
    let (w, rest) = span_word s in if ends_word c then ([], c ∷ s) else (c ∷ w, rest)

unfoldable pub classify : Str → Token
unfolding to_lowercase
classify w =
    if str_beq (to_lowercase w) (codes "and")
    then and_word
    else if str_beq (to_lowercase w) (codes "or")
    then or_word
    else if str_beq (to_lowercase w) (codes "not")
    then not_word
    else word w

with_char : ℕ → Option (Str × Str) → Option (Str × Str)
with_char c none = none
with_char c (some (raw, rest)) = some (c ∷ raw, rest)

-- What stands before the closing quote, escapes as they are written, and what follows the quote.
unfoldable pub scan_quoted : ℕ → Str → Option (Str × Str)
unfolding with_char
scan_quoted quote [] = none
scan_quoted quote (c ∷ []) = if eqb c quote then some ([], []) else none
scan_quoted quote (c ∷ d ∷ s) =
    let after_escape = with_char c (with_char d (scan_quoted quote s)) in
    let after_char = with_char c (scan_quoted quote (d ∷ s)) in
    if eqb c quote then some ([], d ∷ s) else if eqb c b'\\' then after_escape else after_char

unfoldable pub unescape : Str → Str
unescape [] = []
unescape (c ∷ []) = if eqb c b'\\' then [] else c ∷ []
unescape (c ∷ d ∷ s) =
    let escaped = d ∷ unescape s in
    let plain = c ∷ unescape (d ∷ s) in if eqb c b'\\' then escaped else plain

quoted : Option (Str × Str) → Result DslError (Token × Str)
unfolding unescape
quoted none = err unterminated_quote
quoted (some (raw, rest)) = ok (quoted_string (unescape raw), rest)

-- `>` or `>=`: what follows the first character
with_equals : Token → Token → Str → Token × Str
with_equals plain equal [] = (plain, [])
with_equals plain equal (c ∷ s) = if eqb c b'=' then (equal, s) else (plain, c ∷ s)

-- The token that begins with `c`, which is no space, and what follows it.
next_token : ℕ → Str → Result DslError (Token × Str)
unfolding with_equals quoted scan_quoted span_word classify
next_token c s =
    if eqb c b':'
    then ok (colon, s)
    else if eqb c b'@'
    then ok (at, s)
    else if eqb c b'('
    then ok (left_paren, s)
    else if eqb c b')'
    then ok (right_paren, s)
    else if eqb c b'>'
    then ok (with_equals Token.gt Token.gte s)
    else if eqb c b'<'
    then ok (with_equals Token.lt Token.lte s)
    else if eqb c b'-'
    then ok (minus, s)
    else if eqb c b'!'
    then ok (bang, s)
    else if eqb c b'"'
    then quoted (scan_quoted b'"' s)
    else if eqb c b'\''
    then quoted (scan_quoted b'\'' s)
    else ok (classify (c ∷ (span_word s).0), (span_word s).1)

push_token : Token → Result DslError (List Token) → Result DslError (List Token)
push_token t (ok ts) = ok (t ∷ ts)
push_token t (err e) = err e

tokens_from : ℕ → Str → Result DslError (List Token)
unfolding next_token push_token is_space
tokens_from zero s = err out_of_fuel
tokens_from (suc f) [] = ok []
tokens_from (suc f) (c ∷ s) = elim (is_space c) [
  | true ↦ tokens_from f s
  | false ↦ elim (next_token c s) [
    | err e ↦ err e
    | ok (t, rest) ↦ push_token t (tokens_from f rest)
  ]
]

unfoldable pub tokenize : Str → Result DslError (List Token)
unfolding tokens_from
tokenize s = tokens_from (suc (length s)) s
