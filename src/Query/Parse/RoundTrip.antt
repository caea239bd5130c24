-- ===== src/Query/Parse/RoundTrip.antt =====
-- A query printed from its expression, with parentheses where the precedence wants them, and that
-- the parser of kepler-daemon/src/query/dsl.rs reads the expression back.
use kepler.Prelude.{
  ℕ, zero, suc, ◌+◌, ◌-◌, ◌≡◌, ◌≢◌, ◌≤◌, refl, ◌∙◌, ap, Bool, true, false, ◌&&◌, none, some, List,
  [], ◌∷◌, ◌++◌, length, arith, ltb, length-append,
}
use mathlib.Core.List.{append_assoc, append-nil}
use kepler.Prelude.Result.{ok}
use kepler.Text.{Str}
use kepler.Query.{
  Token, Expr, CompOp, word, quoted_string, colon, at, left_paren, right_paren, and_word, or_word,
  not_word, full_text, field_match, comparison, and_expr, or_expr, not_expr,
}
use kepler.Query.Parse.{
  Parser, has_wildcards, bare_word, parse_primary, parse_unary, next_operand, and_loop, and_run,
  parse_and, after_or, or_loop, or_run, parse_or, parse_group, parse_tokens, all_read,
}

-- A text whose wildcards count is written bare, any other in quotes.
abbrev text_token : Str → Bool → Token
text_token s true = word s
text_token s false = quoted_string s

abbrev op_token : CompOp → Token
op_token CompOp.gt = Token.gt
op_token CompOp.gte = Token.gte
op_token CompOp.lt = Token.lt
op_token CompOp.lte = Token.lte

abbrev group_if : Bool → List Token → List Token
group_if true ts = left_paren ∷ (ts ++ right_paren ∷ [])
group_if false ts = ts

-- The tokens of an expression that stands where operators from this level on need no parentheses:
-- 0 for `OR`, 1 for `AND`, 2 for `NOT`, 3 for an operand of `NOT`.
unfoldable pub print_at : ℕ → Expr → List Token
print_at level (full_text s w) = text_token s w ∷ []
print_at level (field_match f v w) = at ∷ word f ∷ colon ∷ text_token v w ∷ []
print_at level (comparison f op v) = at ∷ word f ∷ colon ∷ op_token op ∷ quoted_string v ∷ []
print_at level (not_expr e) = group_if (ltb 2 level) (not_word ∷ print_at 3 e)
print_at level (and_expr l r) = group_if (ltb 1 level) (print_at 1 l ++ (and_word ∷ print_at 2 r))
print_at level (or_expr l r) = group_if (ltb 0 level) (print_at 0 l ++ (or_word ∷ print_at 1 r))

-- An expression whose wildcard flags are true only for texts with wildcards.
abbrev pub IsWellFormed : Expr → Type 0
IsWellFormed (full_text s w) = w ≡ (w && has_wildcards s)
IsWellFormed (field_match f v w) = w ≡ (w && has_wildcards v)
IsWellFormed (comparison f op v) = Unit {0}
IsWellFormed (and_expr l r) = IsWellFormed l × IsWellFormed r
IsWellFormed (or_expr l r) = IsWellFormed l × IsWellFormed r
IsWellFormed (not_expr e) = IsWellFormed e

-- The operators of the chain at the head of an expression: rounds of the parser's loops.
abbrev ands : Expr → ℕ
ands (and_expr l r) = suc (ands l)
ands _ = 0

abbrev ors : Expr → ℕ
ors (or_expr l r) = suc (ors l)
ors _ = 0

-- What may follow an operand, and what ends a conjunction.
abbrev NoColon : List Token → Type 0
NoColon [] = Unit {0}
NoColon (t ∷ ts) = t ≢ colon

abbrev Stops : List Token → Type 0
Stops ts = NoColon ts × (next_operand ts ≡ none)

module _ (depth : ℕ) (ts : List Token) (e : Expr) where
  abbrev ReadsPrimary : Type 0
  ReadsPrimary =
      (rest : List Token)
      → NoColon rest
      → parse_primary (parse_group depth) (ts ++ rest) ≡ ok (e, rest)

  abbrev ReadsUnary : Type 0
  ReadsUnary =
      (rest : List Token)
      → NoColon rest
      → parse_unary (parse_group depth) (ts ++ rest) ≡ ok (e, rest)

  -- The loop takes `k` rounds for the expression, and goes on with what follows.
  abbrev ReadsAnd : ℕ → Type 0
  ReadsAnd k =
      (f n : ℕ) (rest : List Token)
      → f ≡ k + n
      → NoColon rest
      → and_run f (parse_group depth) (ts ++ rest) ≡ and_loop n (parse_group depth) e rest

  abbrev ReadsOr : ℕ → Type 0
  ReadsOr k =
      (f n : ℕ) (rest : List Token)
      → f ≡ k + n
      → Stops rest
      → or_run f (parse_group depth) (ts ++ rest) ≡ or_loop n (parse_group depth) e rest

record Reads (e : Expr) (depth : ℕ) : Type 0 where
  primary : length (print_at 3 e) ≤ depth → ReadsPrimary depth (print_at 3 e) e
  unary : length (print_at 2 e) ≤ depth → ReadsUnary depth (print_at 2 e) e
  conjunction : length (print_at 1 e) ≤ depth → ReadsAnd depth (print_at 1 e) e (ands e)
  disjunction : length (print_at 0 e) ≤ depth → ReadsOr depth (print_at 0 e) e (ors e)

-- The steps of the loops, for any parser of groups.
module _ (group : Parser) where
  and_run_step :
      (n : ℕ) (ts rest : List Token) (e : Expr)
      → parse_unary group ts ≡ ok (e, rest)
      → and_run n group ts ≡ and_loop n group e rest
  unfolding and_run
  and_run_step n ts rest e h = rw (h, and_run) refl

  and_loop_stop :
      (n : ℕ) (e : Expr) (rest : List Token)
      → next_operand rest ≡ none
      → and_loop (suc n) group e rest ≡ ok (e, rest)
  unfolding and_loop
  and_loop_stop n e rest h = rw (h, and_loop) refl

  and_loop_step :
      (n : ℕ) (l r : Expr) (ts operand rest : List Token)
      → next_operand ts ≡ some operand
      → parse_unary group operand ≡ ok (r, rest)
      → and_loop (suc n) group l ts ≡ and_loop n group (and_expr l r) rest
  unfolding and_loop
  and_loop_step n l r ts operand rest h u = rw (h, and_loop) (rw u refl)

  or_run_step :
      (n : ℕ) (ts rest : List Token) (e : Expr)
      → parse_and group ts ≡ ok (e, rest)
      → or_run n group ts ≡ or_loop n group e rest
  unfolding or_run
  or_run_step n ts rest e h = rw (h, or_run) refl

  or_loop_stop :
      (n : ℕ) (e : Expr) (rest : List Token)
      → after_or rest ≡ none
      → or_loop (suc n) group e rest ≡ ok (e, rest)
  unfolding or_loop
  or_loop_stop n e rest h = rw (h, or_loop) refl

  or_loop_step :
      (n : ℕ) (l r : Expr) (ts operand rest : List Token)
      → after_or ts ≡ some operand
      → parse_and group operand ≡ ok (r, rest)
      → or_loop (suc n) group l ts ≡ or_loop n group (or_expr l r) rest
  unfolding or_loop
  or_loop_step n l r ts operand rest h u = rw (h, or_loop) (rw u refl)

module _ (depth : ℕ) where
  abbrev group : Parser
  group = parse_group depth

  and_of_unary : (ts : List Token) (e : Expr) → ReadsUnary depth ts e → ReadsAnd depth ts e 0
  and_of_unary ts e u f n rest eq h =
      let fuel : f ≡ n = omega arith in
      rw fuel (and_run_step group n (ts ++ rest) rest e (u rest h))

  parse_and-print_at :
      (k : ℕ) (ts : List Token) (e : Expr)
      → k ≤ length ts
      → ReadsAnd depth ts e k
      → (rest : List Token) → Stops rest
      → parse_and group (ts ++ rest) ≡ ok (e, rest)
  unfolding parse_and
  parse_and-print_at k ts e le a rest (h, stop) =
      let n = length ts + length rest - k in
      a (suc (length (ts ++ rest))) (suc n) rest (omega (arith, length-append ts rest)) h
      ∙ and_loop_stop group n e rest stop

  or_of_and :
      (k : ℕ) (ts : List Token) (e : Expr)
      → k ≤ length ts
      → ReadsAnd depth ts e k
      → ReadsOr depth ts e 0
  or_of_and k ts e le a f n rest eq stops =
      let fuel : f ≡ n = omega arith in
      rw fuel (or_run_step group n (ts ++ rest) rest e (parse_and-print_at k ts e le a rest stops))

  and_more :
      (k : ℕ) (ls rs : List Token) (l r : Expr)
      → ReadsAnd depth ls l k
      → ReadsUnary depth rs r
      → ReadsAnd depth (ls ++ (and_word ∷ rs)) (and_expr l r) (suc k)
  unfolding next_operand
  and_more k ls rs l r a u f n rest eq h = rw (append_assoc ls (and_word ∷ rs) rest) (
      a f (suc n) (and_word ∷ (rs ++ rest)) (omega arith) (ground arith)
      ∙ and_loop_step group n l r (and_word ∷ (rs ++ rest)) (rs ++ rest) rest refl (u rest h))

  or_more :
      (j k : ℕ) (ls rs : List Token) (l r : Expr)
      → j ≤ length rs
      → ReadsOr depth ls l k
      → ReadsAnd depth rs r j
      → ReadsOr depth (ls ++ (or_word ∷ rs)) (or_expr l r) (suc k)
  unfolding next_operand after_or
  or_more j k ls rs l r le a u f n rest eq stops = rw (append_assoc ls (or_word ∷ rs) rest) (
      a f (suc n) (or_word ∷ (rs ++ rest)) (omega arith) (ground arith, refl)
      ∙ or_loop_step group n l r (or_word ∷ (rs ++ rest)) (rs ++ rest) rest refl
          (parse_and-print_at j rs r le u rest stops))

ands-le-length : (e : Expr) → ands e ≤ length (print_at 1 e)
unfolding print_at
ands-le-length (and_expr l r) =
    omega (arith, ands-le-length l, length-append (print_at 1 l) (and_word ∷ print_at 2 r))
ands-le-length (full_text s w) = omega arith
ands-le-length (field_match f v w) = omega arith
ands-le-length (comparison f op v) = omega arith
ands-le-length (or_expr l r) = omega arith
ands-le-length (not_expr e) = omega arith

ors-le-length : (e : Expr) → ors e ≤ length (print_at 0 e)
unfolding print_at
ors-le-length (or_expr l r) =
    omega (arith, ors-le-length l, length-append (print_at 0 l) (or_word ∷ print_at 1 r))
ors-le-length (full_text s w) = omega arith
ors-le-length (field_match f v w) = omega arith
ors-le-length (comparison f op v) = omega arith
ors-le-length (and_expr l r) = omega arith
ors-le-length (not_expr e) = omega arith

-- What an expression in parentheses needs: to be read as a whole, with a level less.
paren-ReadsPrimary :
    (depth : ℕ) (e : Expr) (ts : List Token)
    → ((rest : List Token)
        → parse_or (parse_group depth) (ts ++ right_paren ∷ rest) ≡ ok (e, right_paren ∷ rest))
    → ReadsPrimary (suc depth) (left_paren ∷ (ts ++ right_paren ∷ [])) e
unfolding parse_primary parse_group next_operand
paren-ReadsPrimary depth e ts whole rest h =
    rw (append_assoc ts (right_paren ∷ []) rest) (rw (whole rest) refl)

parse_or-print_at :
    (depth : ℕ) (e : Expr)
    → ReadsOr depth (print_at 0 e) e (ors e)
    → (rest : List Token) → Stops rest
    → after_or rest ≡ none
    → parse_or (parse_group depth) (print_at 0 e ++ rest) ≡ ok (e, rest)
unfolding parse_or
parse_or-print_at depth e o rest stops stop =
    let n = length (print_at 0 e) + length rest - ors e in
    o (suc (length (print_at 0 e ++ rest))) (suc n) rest
      (omega (arith, length-append (print_at 0 e) rest, ors-le-length e)) stops
    ∙ or_loop_stop (parse_group depth) n e rest stop

bare_word-NoColon :
    (w : Str) (rest : List Token)
    → NoColon rest
    → bare_word w rest ≡ ok (full_text w (has_wildcards w), rest)
unfolding bare_word
bare_word-NoColon w [] h = refl
bare_word-NoColon w (colon ∷ ts) h = absurd (h refl)
bare_word-NoColon w (t ∷ ts) h = refl

full_text-ReadsPrimary :
    (depth : ℕ) (s : Str) (w : Bool)
    → IsWellFormed (full_text s w)
    → ReadsPrimary depth (text_token s w ∷ []) (full_text s w)
unfolding parse_primary
full_text-ReadsPrimary depth s true h rest n = rw (bare_word-NoColon s rest n) (ground arith)
full_text-ReadsPrimary depth s false h rest n = refl

field_match-ReadsPrimary :
    (depth : ℕ) (f v : Str) (w : Bool)
    → IsWellFormed (field_match f v w)
    → ReadsPrimary depth (at ∷ word f ∷ colon ∷ text_token v w ∷ []) (field_match f v w)
unfolding parse_primary
field_match-ReadsPrimary depth f v true h rest n = ground arith
field_match-ReadsPrimary depth f v false h rest n = refl

comparison-ReadsPrimary :
    (depth : ℕ) (f v : Str) (op : CompOp)
    → ReadsPrimary depth
        (at ∷ word f ∷ colon ∷ op_token op ∷ quoted_string v ∷ [])
        (comparison f op v)
unfolding parse_primary
comparison-ReadsPrimary depth f v CompOp.gt rest n = refl
comparison-ReadsPrimary depth f v CompOp.gte rest n = refl
comparison-ReadsPrimary depth f v CompOp.lt rest n = refl
comparison-ReadsPrimary depth f v CompOp.lte rest n = refl

module _ (e : Expr)
    (reads_or : (d : ℕ) → length (print_at 0 e) ≤ d → ReadsOr d (print_at 0 e) e (ors e)) where
  group_ReadsPrimary :
      (depth : ℕ)
      → length (group_if true (print_at 0 e)) ≤ depth
      → ReadsPrimary depth (group_if true (print_at 0 e)) e
  unfolding after_or next_operand
  group_ReadsPrimary zero h = absurd (omega arith)
  group_ReadsPrimary (suc depth) h =
      let shorter = length-append (print_at 0 e) (right_paren ∷ []) in
      paren-ReadsPrimary depth e (print_at 0 e) λ rest.
        parse_or-print_at depth e (reads_or depth (omega arith)) (right_paren ∷ rest)
          (ground arith, refl) refl

  group_ReadsUnary :
      (depth : ℕ)
      → length (group_if true (print_at 0 e)) ≤ depth
      → ReadsUnary depth (group_if true (print_at 0 e)) e
  unfolding parse_unary
  group_ReadsUnary depth h rest n = group_ReadsPrimary depth h rest n

-- The two chains of an expression that is no chain.
module _ (depth : ℕ) (ts : List Token) (e : Expr) (u : ReadsUnary depth ts e) where
  single_ReadsOr : ReadsOr depth ts e 0
  single_ReadsOr = or_of_and depth 0 ts e (omega arith) (and_of_unary depth ts e u)

negated-Reads :
    (depth : ℕ) (ts : List Token) (e : Expr)
    → ReadsPrimary depth ts e
    → ReadsUnary depth (not_word ∷ ts) (not_expr e)
unfolding parse_unary
negated-Reads depth ts e p rest n = rw (p rest n) refl

-- An expression whose tokens are the same at all levels, and that begins with no negation.
atom-Reads :
    (depth : ℕ) (ts : List Token) (e : Expr)
    → ReadsUnary depth ts e
    → ReadsPrimary depth ts e
    → (ReadsPrimary depth ts e)
      × (ReadsUnary depth ts e)
      × (ReadsAnd depth ts e 0)
      × (ReadsOr depth ts e 0)
atom-Reads depth ts e u p = (p, u, and_of_unary depth ts e u, single_ReadsOr depth ts e u)

reads : (e : Expr) → IsWellFormed e → (depth : ℕ) → Reads e depth
unfolding print_at parse_unary
reads (full_text s true) h depth =
    let (p, u, a, o) =
      atom-Reads depth (word s ∷ []) (full_text s true) (full_text-ReadsPrimary depth s true h)
        (full_text-ReadsPrimary depth s true h) in
    record { primary = λ le. p; unary = λ le. u; conjunction = λ le. a; disjunction = λ le. o }
reads (full_text s false) h depth =
    let (p, u, a, o) =
      atom-Reads depth (quoted_string s ∷ []) (full_text s false)
        (full_text-ReadsPrimary depth s false h) (full_text-ReadsPrimary depth s false h) in
    record { primary = λ le. p; unary = λ le. u; conjunction = λ le. a; disjunction = λ le. o }
reads (field_match f v w) h depth =
    let (p, u, a, o) =
      atom-Reads depth (print_at 3 (field_match f v w)) (field_match f v w)
        (field_match-ReadsPrimary depth f v w h) (field_match-ReadsPrimary depth f v w h) in
    record { primary = λ le. p; unary = λ le. u; conjunction = λ le. a; disjunction = λ le. o }
reads (comparison f op v) h depth =
    let (p, u, a, o) =
      atom-Reads depth (print_at 3 (comparison f op v)) (comparison f op v)
        (comparison-ReadsPrimary depth f v op) (comparison-ReadsPrimary depth f v op) in
    record { primary = λ le. p; unary = λ le. u; conjunction = λ le. a; disjunction = λ le. o }
reads (not_expr e) h depth =
    let negation = λ (d : ℕ) (le : length (print_at 0 (not_expr e)) ≤ d).
      negated-Reads d (print_at 3 e) e ((reads e h d).primary (omega arith)) in
    let whole = λ (d : ℕ) (le : length (print_at 0 (not_expr e)) ≤ d).
      single_ReadsOr d (print_at 0 (not_expr e)) (not_expr e) (negation d le) in
    record {
      primary = group_ReadsPrimary (not_expr e) whole depth;
      unary = negation depth;
      conjunction =
          λ le. and_of_unary depth (print_at 1 (not_expr e)) (not_expr e) (negation depth le);
      disjunction = whole depth;
    }
reads (and_expr l r) (hl, hr) depth =
    let split = length-append (print_at 1 l) (and_word ∷ print_at 2 r) in
    let chain = λ (d : ℕ) (le : length (print_at 0 (and_expr l r)) ≤ d).
      and_more d (ands l) (print_at 1 l) (print_at 2 r) l r
        ((reads l hl d).conjunction (omega arith)) ((reads r hr d).unary (omega arith)) in
    let whole = λ (d : ℕ) (le : length (print_at 0 (and_expr l r)) ≤ d).
      or_of_and d (suc (ands l)) (print_at 1 (and_expr l r)) (and_expr l r)
        (ands-le-length (and_expr l r)) (chain d le) in
    record {
      primary = group_ReadsPrimary (and_expr l r) whole depth;
      unary = group_ReadsUnary (and_expr l r) whole depth;
      conjunction = chain depth;
      disjunction = whole depth;
    }
reads (or_expr l r) (hl, hr) depth =
    let split = length-append (print_at 0 l) (or_word ∷ print_at 1 r) in
    let chain = λ (d : ℕ) (le : length (print_at 0 (or_expr l r)) ≤ d).
      or_more d (ands r) (ors l) (print_at 0 l) (print_at 1 r) l r (ands-le-length r)
        ((reads l hl d).disjunction (omega arith)) ((reads r hr d).conjunction (omega arith)) in
    let grouped = group_ReadsUnary (or_expr l r) chain depth in
    record {
      primary = group_ReadsPrimary (or_expr l r) chain depth;
      unary = grouped;
      conjunction = λ le. and_of_unary depth (print_at 1 (or_expr l r)) (or_expr l r) (grouped le);
      disjunction = chain depth;
    }

-- Parsing the tokens that a well-formed expression is printed as gives the expression.
pub parse_tokens-print_at : (e : Expr) → IsWellFormed e → parse_tokens (print_at 0 e) ≡ ok e
unfolding parse_tokens parse_group
parse_tokens-print_at e h =
    let n = length (print_at 0 e) in
    let whole : parse_or (parse_group n) (print_at 0 e ++ []) ≡ ok (e, []) =
      parse_or-print_at n e ((reads e h n).disjunction (omega arith)) [] (tt, refl) refl in
    let parsed : parse_or (parse_group n) (print_at 0 e) ≡ ok (e, []) = rw append-nil at whole in
    ap all_read parsed
