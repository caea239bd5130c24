-- ===== src/Logs/Filter.antt =====
-- The WHERE clause that kepler-daemon/src/logs/log_reader.rs builds is that of its conditions, with
-- every parameter numbered as it is bound.
use mathlib.Core.Path.{subst}
use mathlib.Core.List.{append_assoc, append-nil}
use kepler.Prelude.{
  ℕ, suc, ◌+◌, ◌<◌, ◌≡◌, refl, sym, ap, ◌∙◌, Bool, true, false, Option, none, some, List, [], ◌∷◌,
  ◌++◌, length, map, length-append, arith,
}
use kepler.Prelude.Int.{ℤ}
use kepler.Prelude.Result.{ok}
use kepler.Restart.{F64}
use kepler.Text.{Str, codes}
use kepler.Text.Decimal.{u64_mod}
use kepler.Query.{QueryDsl, Expr, SqlFragment}
use kepler.Query.Sql.{placeholder}
use kepler.Query.Sql.Template.{
  text, hole, render, holes, Template, template, at_counter, render-append, Filled,
}
use kepler.Query.Sql.Numbered.{template-Filled}
use kepler.Query.Sql.Shift.{Clean}
use kepler.Query.Sql.Offset.{PlainFields, numbered_shift, template-Clean}
use kepler.Logs.{
  BindValue, int, Building, from_sql, join_with, push_bound, push_services, service_condition,
  list_condition, hook_condition, bound_condition, filter_condition, add_filter, where_clause,
  finish, build_filter,
}
use kepler.Logs.Conditions.{
  Condition, AllFilled, texts, all_values, where_pieces, commas, service_conditions,
  hook_conditions, bound_conditions, filter_conditions, conditions_of, Shiftable, texts-append,
  all_values-append, joined-render, conditions_of-AllFilled, where_pieces-holes,
}

pub record Built (cs : List Condition) (b : Building) : Type 0 where
  said : b.conditions ≡ texts 0 cs
  bound : b.bind ≡ all_values cs

texts_more :
    (cs ds : List Condition) → texts 0 (cs ++ ds) ≡ texts 0 cs ++ texts (length (all_values cs)) ds
texts_more cs ds =
    let start : 0 + length (all_values cs) ≡ length (all_values cs) = omega arith in
    texts-append 0 cs ds ∙ ap (λ k. texts 0 cs ++ texts k ds) start

-- One more condition, whose text is numbered after the values so far.
push-Built :
    (cs : List Condition) (b : Building) (c : Condition) (s : Str)
    → Built cs b
    → s ≡ render (length b.bind) c.pieces
    → Built
        (cs ++ c ∷ [])
        (record { conditions = b.conditions ++ s ∷ []; bind = b.bind ++ c.values })
push-Built cs b c s h e = record {
  said = rw (e, h.said, h.bound) (sym (texts_more cs (c ∷ [])));
  bound = rw (h.bound) (sym (all_values-append cs (c ∷ []) ∙ rw append-nil));
}

pub none-Built : (cs : List Condition) (b : Building) → Built cs b → Built (cs ++ []) b
none-Built cs b h = rw append-nil h

pub push_bound-Built :
    (cs : List Condition) (b : Building) (prefix : Str) (v : BindValue)
    → Built cs b
    → Built
        (cs ++ record { pieces = text prefix ∷ hole ∷ []; values = v ∷ [] } ∷ [])
        (push_bound prefix v b)
unfolding push_bound render
push_bound-Built cs b prefix v h =
    let next : length b.bind + 1 ≡ suc (length b.bind) = omega arith in
    push-Built cs b (record { pieces = text prefix ∷ hole ∷ []; values = v ∷ [] }) _ h
      (rw next (simp append-nil))

pub bound_condition-Built :
    (cs : List Condition) (b : Building) (prefix : Str) (ts : Option ℤ)
    → Built cs b
    → Built (cs ++ bound_conditions prefix ts) (bound_condition prefix ts b)
unfolding bound_condition
bound_condition-Built cs b prefix none h = none-Built cs b h
bound_condition-Built cs b prefix (some ts) h = push_bound-Built cs b prefix (int ts) h

hook_condition-Built :
    (cs : List Condition) (b : Building) (no_hooks : Bool)
    → Built cs b
    → Built (cs ++ hook_conditions no_hooks) (hook_condition no_hooks b)
unfolding hook_condition render
hook_condition-Built cs b false h = none-Built cs b h
hook_condition-Built cs b true h =
    let pushed =
      push-Built cs b (record { pieces = text (codes "hook IS NULL") ∷ []; values = [] })
        (codes "hook IS NULL") h refl in
    record { said = pushed.said; bound = rw append-nil at pushed.bound }

-- The placeholders after `n` for a list of services
numbers : ℕ → List Str → List Str
numbers n [] = []
numbers n (s ∷ ss) = placeholder (suc n) ∷ numbers (suc n) ss

push_services_lem :
    (ss : List Str) (bind : List BindValue)
    → ◌≡◌ {A = List Str × List BindValue}
        (push_services ss bind)
        (numbers (length bind) ss, bind ++ map BindValue.text ss)
unfolding push_services numbers
push_services_lem [] bind = ground (arith, append-nil bind)
push_services_lem (s ∷ ss) bind =
    let size : length (bind ++ BindValue.text s ∷ []) ≡ suc (length bind) =
      omega (arith, length-append bind (BindValue.text s ∷ [])) in
    let grouped = append_assoc bind (BindValue.text s ∷ []) (map BindValue.text ss) in
    rw (push_services_lem ss (bind ++ BindValue.text s ∷ []), size, grouped) refl

commas-render :
    (n : ℕ) (ss : List Str) → join_with (codes ", ") (numbers n ss) ≡ render n (commas ss)
unfolding join_with numbers render
commas-render n [] = refl
commas-render n (s ∷ []) = simp append-nil
commas-render n (s ∷ t ∷ ss) = rw (commas-render (suc n) (t ∷ ss)) refl

service_condition-Built :
    (cs : List Condition) (b : Building) (ss : List Str)
    → Built cs b
    → Built (cs ++ service_conditions ss) (service_condition ss b)
unfolding service_condition list_condition render
service_condition-Built cs b [] h = none-Built cs b h
service_condition-Built cs b (s ∷ []) h =
    push_bound-Built cs b (codes "service = ") (BindValue.text s) h
service_condition-Built cs b (s ∷ t ∷ ss) h =
    let listed = commas-render (length b.bind) (s ∷ t ∷ ss) in
    let split = render-append (length b.bind) (commas (s ∷ t ∷ ss)) (text (codes ")") ∷ []) in
    subst (λ r. Built (cs ++ service_conditions (s ∷ t ∷ ss)) (list_condition b r))
      (sym (push_services_lem (s ∷ t ∷ ss) b.bind))
      (push-Built cs b
        (record {
          pieces = text (codes "service IN (") ∷ (commas (s ∷ t ∷ ss) ++ (text (codes ")") ∷ []));
          values = map BindValue.text (s ∷ t ∷ ss);
        })
        _ h (rw (listed, split) refl))

abbrev pub fragment_of : Option Template → Option SqlFragment
fragment_of none = none
fragment_of (some t) = some (at_counter 0 t).0

pub filter_condition-Built :
    (cs : List Condition) (b : Building) (f : Option Template)
    → Shiftable f
    → Built cs b
    → (b' : Building) × (filter_condition (fragment_of f) b ≡ some b')
      × Built (cs ++ filter_conditions f) b'
unfolding filter_condition add_filter render
filter_condition-Built cs b none s h = (b, refl, none-Built cs b h)
filter_condition-Built cs b (some t) (filled, clean, lt) h =
    let shifted = numbered_shift (length b.bind) t filled clean lt in
    let split = render-append (length b.bind) t.pieces (text (codes ")") ∷ []) in
    (
      record {
        conditions =
            b.conditions ++ (codes "(" ++ (render (length b.bind) t.pieces ++ codes ")")) ∷ [];
        bind = b.bind ++ map from_sql t.params;
      },
      ap (add_filter (at_counter 0 t).0 b) shifted,
      push-Built cs b
          (record {
            pieces = text (codes "(") ∷ (t.pieces ++ (text (codes ")") ∷ []));
            values = map from_sql t.params;
          })
          _ h (rw split refl),
    )

pub where_clause-Built :
    (cs : List Condition) (b : Building)
    → Built cs b
    → AllFilled cs
    → ◌≡◌ {A = Str × List BindValue} (where_clause b) (render 0 (where_pieces cs), all_values cs)
unfolding where_clause render
where_clause-Built [] b h k = rw (h.said, h.bound) refl
where_clause-Built (c ∷ cs) b h k =
    rw (h.said, h.bound)
      (ap (λ t. (codes "WHERE " ++ t, all_values (c ∷ cs))) (joined-render 0 (c ∷ cs) k))

pub empty-Built : Built [] (record { conditions = []; bind = [] })
empty-Built = record { said = refl; bound = refl }

-- A filter that the query language gives: from an expression over plain fields, with fewer than 2^64
-- parameters.
abbrev pub FromQuery : (Str → Option F64) → QueryDsl → Option Template → Type 0
FromQuery finite dsl none = Unit {0}
FromQuery finite dsl (some t) =
    (e : Expr) × (template finite dsl e ≡ ok t) × PlainFields dsl e × (length t.params < u64_mod)

pub FromQuery-Shiftable :
    (finite : Str → Option F64) (dsl : QueryDsl) (filter : Option Template)
    → FromQuery finite dsl filter
    → Shiftable filter
FromQuery-Shiftable finite dsl none h = tt
FromQuery-Shiftable finite dsl (some t) (e, is_t, plain_fields, lt) =
    let filled : Filled (ok t) = rw is_t at (template-Filled finite dsl e) in
    let clean : Clean t.pieces = rw is_t at (template-Clean finite dsl e plain_fields) in
    (filled, clean, lt)

-- The WHERE clause of a log query whose filter, if it has one, is made by the query language from an
-- expression over plain fields with fewer than 2^64 parameters: `build_filter` does not panic, its text
-- is that of the conditions on services, hooks and times and of the filter, joined by AND, with the
-- holes numbered from 1 on, and it binds one value for each hole, in the order of the numbers.
pub build_filter-conditions_of :
    (finite : Str → Option F64) (dsl : QueryDsl) (filter : Option Template) (services : List Str)
    (no_hooks : Bool) (after_ts before_ts : Option ℤ)
    → FromQuery finite dsl filter
    → let cs = conditions_of services no_hooks filter after_ts before_ts in
      (build_filter services no_hooks (fragment_of filter) after_ts before_ts
        ≡ some (render 0 (where_pieces cs), all_values cs))
      × (holes (where_pieces cs) ≡ length (all_values cs))
unfolding build_filter finish
build_filter-conditions_of finite dsl filter services no_hooks after_ts before_ts from_query =
    let shiftable = FromQuery-Shiftable finite dsl filter from_query in
    let filled = conditions_of-AllFilled services no_hooks filter after_ts before_ts shiftable in
    let scoped =
      hook_condition-Built _ _ no_hooks (service_condition-Built [] _ services empty-Built) in
    let bounded =
      bound_condition-Built _ _ (codes "timestamp <= ") before_ts
        (bound_condition-Built _ _ (codes "timestamp >= ") after_ts scoped) in
    let (b, added, built) = filter_condition-Built _ _ filter shiftable bounded in
    (ap finish added ∙ ap some (where_clause-Built _ b built filled), where_pieces-holes _ filled)
