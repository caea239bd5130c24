-- ===== src/Query/Tokens/Fuel.antt =====
-- The fuel of the tokenizer suffices: each token takes a code point at least.
use kepler.Prelude.{
  ℕ, zero, suc, ◌≤◌, ◌<◌, ◌≡◌, ◌≢◌, Option, none, some, List, [], ◌∷◌, eqb, length, arith,
  Bool-cases, inl, inr,
}
use kepler.Prelude.Result.{Result, ok, err, Result-cases}
use kepler.Text.{Str}
use kepler.Query.{Token, DslError, out_of_fuel}
use kepler.Query.Tokens.{
  is_space, span_word, with_char, scan_quoted, quoted, with_equals, next_token, push_token,
  tokens_from, tokenize,
}

length-span_word : (s : Str) → length (span_word s).1 ≤ length s
unfolding span_word
length-span_word [] = omega arith
length-span_word (c ∷ s) = ground (arith, length-span_word s)

-- What a quotation leaves is shorter than what it is read from.
abbrev Within : ℕ → Option (Str × Str) → Type 0
Within n none = Unit {0}
Within n (some (raw, rest)) = length rest ≤ n

with_char-Within :
    (c m n : ℕ) (o : Option (Str × Str)) → Within m o → m ≤ n → Within n (with_char c o)
unfolding with_char
with_char-Within c m n none h le = tt
with_char-Within c m n (some (raw, rest)) h le = omega arith

scan_quoted-Within : (q : ℕ) (s : Str) → Within (length s) (scan_quoted q s)
unfolding scan_quoted
scan_quoted-Within q [] = tt
scan_quoted-Within q (c ∷ []) = elim (Bool-cases (eqb c q)) [
  | inl e ↦ rw e (omega arith)
  | inr e ↦ rw e tt
]
scan_quoted-Within q (c ∷ d ∷ s) = elim (Bool-cases (eqb c q)) [
  | inl e ↦ rw e (omega arith)
  | inr e ↦ elim (Bool-cases (eqb c b'\\')) [
    | inl escape ↦
        rw (e, scan_quoted)
          (rw escape (
            with_char-Within c (length s) (suc (suc (length s))) (with_char d (scan_quoted q s))
              (with_char-Within d (length s) (length s) (scan_quoted q s) (scan_quoted-Within q s)
                (omega arith))
              (omega arith)))
    | inr plain ↦
        rw (e, scan_quoted)
          (rw plain (
            with_char-Within c (suc (length s)) (suc (suc (length s))) (scan_quoted q (d ∷ s))
              (scan_quoted-Within q (d ∷ s)) (omega arith)))
  ]
]

abbrev Ends : ℕ → Result DslError (Token × Str) → Type 0
Ends n (err e) = e ≢ out_of_fuel
Ends n (ok (t, rest)) = length rest ≤ n

quoted-Ends : (n : ℕ) (o : Option (Str × Str)) → Within n o → Ends n (quoted o)
unfolding quoted
quoted-Ends n none h = ground arith
quoted-Ends n (some (raw, rest)) h = h

with_equals-length : (t u : Token) (s : Str) → length (with_equals t u s).1 ≤ length s
unfolding with_equals
with_equals-length t u [] = omega arith
with_equals-length t u (c ∷ s) = ground arith

quoted-ok :
    (q : ℕ) (s : Str) (t : Token) (rest : Str)
    → quoted (scan_quoted q s) ≡ ok (t, rest)
    → length rest ≤ length s
quoted-ok q s t rest e = rw e at (quoted-Ends (length s) (scan_quoted q s) (scan_quoted-Within q s))

quoted-err : (q : ℕ) (s : Str) (x : DslError) → quoted (scan_quoted q s) ≡ err x → x ≢ out_of_fuel
quoted-err q s x e = rw e at (quoted-Ends (length s) (scan_quoted q s) (scan_quoted-Within q s))

next_token-ok :
    (c : ℕ) (s : Str) (t : Token) (rest : Str)
    → next_token c s ≡ ok (t, rest)
    → length rest ≤ length s
unfolding next_token
next_token-ok c s t rest e = ground (
  arith,
  quoted-ok b'"' s t rest,
  quoted-ok b'\'' s t rest,
  with_equals-length Token.gt Token.gte s,
  with_equals-length Token.lt Token.lte s,
  length-span_word s,
)

next_token-err : (c : ℕ) (s : Str) (x : DslError) → next_token c s ≡ err x → x ≢ out_of_fuel
unfolding next_token
next_token-err c s x e = ground (arith, quoted-err b'"' s x, quoted-err b'\'' s x)

push_token_fuel :
    (t : Token) (r : Result DslError (List Token))
    → r ≢ err out_of_fuel
    → push_token t r ≢ err out_of_fuel
unfolding push_token
push_token_fuel t (ok ts) h = ground arith
push_token_fuel t (err e) h = h

tokens_from_total : (f : ℕ) (s : Str) → length s < f → tokens_from f s ≢ err out_of_fuel
unfolding tokens_from
tokens_from_total zero s h = absurd (omega arith)
tokens_from_total (suc f) [] h = ground arith
tokens_from_total (suc f) (c ∷ s) h = elim (Bool-cases (is_space c)) [
  | inl space ↦ rw (space, tokens_from) (tokens_from_total f s (omega arith))
  | inr other ↦ elim (Result-cases (next_token c s)) [
    | inl (e, failed) ↦
        let real_error : e ≢ out_of_fuel = next_token-err c s e failed in
        rw (other, tokens_from) (rw failed (ground arith))
    | inr ((t, rest), read) ↦
        let left_over : length rest ≤ length s = next_token-ok c s t rest read in
        rw (other, tokens_from)
          (rw read
            (push_token_fuel t (tokens_from f rest) (tokens_from_total f rest (omega arith))))
  ]
]

-- The tokenizer never runs out of its fuel: on every text it gives tokens or an error of the source.
pub tokenize_total : (s : Str) → tokenize s ≢ err out_of_fuel
unfolding tokenize
tokenize_total s = tokens_from_total (suc (length s)) s (omega arith)
