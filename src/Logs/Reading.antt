-- ===== src/Logs/Reading.antt =====
-- What the readers of kepler-daemon/src/logs/log_reader.rs keep: filters of the query language are
-- never refused as raw SQL, and a byte budget is kept with as many entries as it allows.
use mathlib.Core.Path.{subst}
use kepler.Prelude.{
  ℕ, ◌+◌, ◌%◌, ◌^◌, ◌≤◌, ◌<◌, ◌≡◌, ◌⊎◌, inl, inr, refl, sym, ap, ◌∙◌, Bool, true, false, Option,
  none, some, List, [], ◌∷◌, ◌++◌, if◌then◌else◌, is_empty, leb, arith, Bool-cases,
}
use kepler.Prelude.Int.{ℤ}
use kepler.Prelude.Result.{Result, ok, err, ◌>>=◌}
use kepler.Restart.{F64}
use kepler.Text.{Str, codes}
use kepler.Query.{
  QueryDsl, Expr, CompOp, DslError, SqlValue, SqlFragment, full_text, field_match, comparison,
  and_expr, or_expr, not_expr,
}
use kepler.Query.Sql.{ResolvedField, known, attribute, resolve_field, text_pattern, expr_to_sql}
use kepler.Query.Sql.Template.{
  Template, join, negation, full_text_template, equals_template, match_template,
  comparison_template, template, numbered,
}
use kepler.Query.Sql.Numbered.{expr_to_sql-template}
use kepler.Logs.Reader.{LogLine, Database, check_raw, cost, within_budget, tail, tail_bounded}

-- What a list of entries costs
abbrev pub total_cost : List LogLine → ℕ
total_cost [] = 0
total_cost (e ∷ lines) = cost e + total_cost lines

-- The longest prefix of the entries whose cost, with what is spent, the budget allows: `kept` is a
-- prefix within the budget, and the entry that follows it is not.
abbrev pub IsLongestWithin : ℕ → ℕ → List LogLine → List LogLine → Type 0
IsLongestWithin budget spent lines kept =
    (rest : List LogLine) × (lines ≡ kept ++ rest)
    × ((kept ≡ []) ⊎ (spent + total_cost kept ≤ budget))
    × ((rest ≡ [])
        ⊎ ((e : LogLine) × (more : List LogLine) × (rest ≡ e ∷ more)
            × (budget < spent + total_cost kept + cost e)))

within_budget_step :
    (budget spent : ℕ) (e : LogLine) (lines : List LogLine)
    → spent + cost e < 2 ^ 64
    → within_budget budget spent (e ∷ lines) ≡ (
        if leb (spent + cost e) budget then e ∷ within_budget budget (spent + cost e) lines else [])
unfolding within_budget
within_budget_step budget spent e lines h =
    let no_wrap : (spent + cost e) % 2 ^ 64 ≡ spent + cost e = omega arith in rw no_wrap refl

cons_within :
    (budget spent : ℕ) (e : LogLine) (lines kept : List LogLine)
    → spent + cost e ≤ budget
    → IsLongestWithin budget (spent + cost e) lines kept
    → IsLongestWithin budget spent (e ∷ lines) (e ∷ kept)
cons_within budget spent e lines kept le (rest, split, fits, stop) = (
  rest,
  ap (λ l. e ∷ l) split,
  inr (elim fits [ inl none_kept ↦ rw none_kept (omega arith) | inr within ↦ omega arith ]),
  elim stop [
    | inl none_left ↦ inl none_left
    | inr (x, more, eq, over) ↦ inr (x, more, eq, omega arith)
  ],
)

within_budget-IsLongestWithin :
    (budget spent : ℕ) (lines : List LogLine)
    → spent + total_cost lines < 2 ^ 64
    → IsLongestWithin budget spent lines (within_budget budget spent lines)
unfolding within_budget
within_budget-IsLongestWithin budget spent [] h = ([], refl, inl refl, inl refl)
within_budget-IsLongestWithin budget spent (e ∷ lines) h =
    let step = within_budget_step budget spent e lines (omega arith) in
    subst (IsLongestWithin budget spent (e ∷ lines)) (sym step)
      (elim (Bool-cases (leb (spent + cost e) budget)) [
        | inl fits ↦ rw fits (
            cons_within budget spent e lines (within_budget budget (spent + cost e) lines)
              (ground arith)
              (within_budget-IsLongestWithin budget (spent + cost e) lines (omega arith)))
        | inr over ↦ rw over (e ∷ lines, refl, inl refl, inr (e, lines, refl, ground arith))
      ])

-- `tail_bounded`, where the entries that `tail` gives cost less than 2^64 bytes: without a budget it
-- gives them all, and with one the longest prefix of them whose cost the budget allows.
pub tail_bounded-IsLongestWithin :
    (db : Database) (services : List Str) (no_hooks : Bool) (filter : Option SqlFragment)
    (after_ts before_ts : Option ℤ) (count budget : ℕ) (all : List LogLine)
    → tail db services no_hooks filter after_ts before_ts count ≡ some all
    → total_cost all < 2 ^ 64
    → (tail_bounded db services no_hooks filter after_ts before_ts count none ≡ some all)
      × ((kept : List LogLine) × (tail_bounded db services no_hooks filter after_ts before_ts count
              (some budget)
            ≡ some kept)
          × IsLongestWithin budget 0 all kept)
unfolding tail_bounded
tail_bounded-IsLongestWithin db services no_hooks filter after_ts before_ts count budget all e h = (
  rw (e, tail_bounded) refl,
  (
    within_budget budget 0 all,
    rw (e, tail_bounded) refl,
    within_budget-IsLongestWithin budget 0 all (omega arith),
  ),
)

-- A template with a parameter at least
abbrev Bound : Result DslError Template → Type 0
Bound (err e) = Unit {0}
Bound (ok t) = is_empty t.params ≡ false

is_empty-append : (a b : List SqlValue) → is_empty a ≡ false → is_empty (a ++ b) ≡ false
is_empty-append [] b h = cc
is_empty-append (x ∷ a) b h = refl

join-Bound :
    (c : Str) (a b : Result DslError Template)
    → Bound a
    → Bound (a >>= λ x. b >>= λ y. ok (join c x y))
join-Bound c (err e) b h = tt
join-Bound c (ok l) (err e) h = tt
join-Bound c (ok l) (ok r) h = is_empty-append l.params r.params h

negation-Bound : (a : Result DslError Template) → Bound a → Bound (a >>= λ x. ok (negation x))
negation-Bound (err e) h = tt
negation-Bound (ok t) h = h

full_text-Bound : (c : Option Str) (p : Str) → Bound (full_text_template c p)
full_text-Bound none p = tt
full_text-Bound (some c) p = refl

field-Bound :
    (r : Result DslError ResolvedField) (f : ResolvedField → Template)
    → ((x : ResolvedField) → is_empty (f x).params ≡ false)
    → Bound (r >>= λ x. ok (f x))
field-Bound (err e) f h = tt
field-Bound (ok x) f h = h x

module _ (finite : Str → Option F64) where
  equals-Bound :
      (r : ResolvedField) (v : Str) (x : Option F64)
      → is_empty (equals_template finite r v x).params ≡ false
  equals-Bound (known c t) v x = refl
  equals-Bound (attribute e) v none = refl
  equals-Bound (attribute e) v (some x) = refl

  match-Bound :
      (w : Bool) (v : Str) (r : ResolvedField)
      → is_empty (match_template finite w v r).params ≡ false
  match-Bound true v r = refl
  match-Bound false v r = equals-Bound r v (finite v)

  comparison-Bound :
      (r : ResolvedField) (op : CompOp) (v : Str) (x : Option F64)
      → is_empty (comparison_template finite r op v x).params ≡ false
  comparison-Bound r op v none = refl
  comparison-Bound r op v (some x) = refl

  template-Bound : (dsl : QueryDsl) (e : Expr) → Bound (template finite dsl e)
  unfolding template
  template-Bound dsl (full_text s w) = full_text-Bound dsl.fts_column (text_pattern s w)
  template-Bound dsl (field_match f v w) =
      field-Bound (resolve_field dsl f) (match_template finite w v) (match-Bound w v)
  template-Bound dsl (comparison f op v) =
      field-Bound (resolve_field dsl f) (λ r. comparison_template finite r op v (finite v))
        (λ r. comparison-Bound r op v (finite v))
  template-Bound dsl (and_expr l r) =
      join-Bound (codes " AND ") (template finite dsl l) (template finite dsl r)
        (template-Bound dsl l)
  template-Bound dsl (or_expr l r) =
      join-Bound (codes " OR ") (template finite dsl l) (template finite dsl r)
        (template-Bound dsl l)
  template-Bound dsl (not_expr e) = negation-Bound (template finite dsl e) (template-Bound dsl e)

numbered-Bound :
    (n m : ℕ) (a : Result DslError Template) (frag : SqlFragment)
    → Bound a
    → numbered n a ≡ ok (frag, m)
    → is_empty frag.params ≡ false
numbered-Bound n m (err e) frag h eq = cc
numbered-Bound n m (ok t) frag h eq =
    let same : t.params ≡ frag.params = ground arith in rw (← same) h

-- A filter that the query language makes always has a parameter, so that the check of raw SQL never
-- refuses it, whatever its text holds.
pub check_raw-expr_to_sql :
    (finite : Str → Option F64) (dsl : QueryDsl) (e : Expr) (n m : ℕ) (frag : SqlFragment)
    → expr_to_sql finite dsl e n ≡ ok (frag, m)
    → check_raw (some frag) ≡ ok tt
unfolding check_raw
check_raw-expr_to_sql finite dsl e n m frag h =
    let bound =
      numbered-Bound n m (template finite dsl e) frag (template-Bound finite dsl e)
        (sym (expr_to_sql-template finite dsl e n) ∙ h) in
    rw bound refl
