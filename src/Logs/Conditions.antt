-- ===== src/Logs/Conditions.antt =====
-- What the WHERE clause of kepler-daemon/src/logs/log_reader.rs says: conditions, each with its holes
-- and, in their order, the values for them.
use mathlib.Core.List.{append_assoc, append-nil}
use kepler.Prelude.{
  ℕ, suc, ◌+◌, ◌<◌, ◌≡◌, refl, sym, ap, ◌∙◌, Bool, true, false, Option, none, some, List, [], ◌∷◌,
  ◌++◌, length, map, length-append, arith,
}
use kepler.Prelude.Int.{ℤ}
use kepler.Prelude.Result.{ok}
use kepler.Text.{Str, codes}
use kepler.Text.Decimal.{u64_mod}
use kepler.Query.{SqlValue}
use kepler.Query.Sql.Template.{
  Piece, text, hole, render, holes, Template, render-append, holes-append, Filled,
}
use kepler.Query.Sql.Shift.{Clean}
use kepler.Logs.{BindValue, int, from_sql, join_with}

pub record Condition : Type 0 where
  pub pieces : List Piece
  pub values : List BindValue

-- The text of each condition, with the holes numbered through all of them.
abbrev pub texts : ℕ → List Condition → List Str
texts n [] = []
texts n (c ∷ cs) = render n c.pieces ∷ texts (n + length c.values) cs

abbrev pub all_values : List Condition → List BindValue
all_values [] = []
all_values (c ∷ cs) = c.values ++ all_values cs

abbrev pub joined : List Condition → List Piece
joined [] = []
joined (c ∷ []) = c.pieces
joined (c ∷ d ∷ cs) = c.pieces ++ (text (codes " AND ") ∷ joined (d ∷ cs))

abbrev pub where_pieces : List Condition → List Piece
where_pieces [] = []
where_pieces (c ∷ cs) = text (codes "WHERE ") ∷ joined (c ∷ cs)

-- Every condition has a value for each hole.
abbrev pub AllFilled : List Condition → Type 0
AllFilled [] = Unit {0}
AllFilled (c ∷ cs) = (holes c.pieces ≡ length c.values) × AllFilled cs

-- `?, ?, …`
abbrev pub commas : List Str → List Piece
commas [] = []
commas (s ∷ []) = hole ∷ []
commas (s ∷ t ∷ rest) = hole ∷ text (codes ", ") ∷ commas (t ∷ rest)

abbrev pub service_conditions : List Str → List Condition
service_conditions [] = []
service_conditions (s ∷ []) =
    record { pieces = text (codes "service = ") ∷ hole ∷ []; values = BindValue.text s ∷ [] } ∷ []
service_conditions (s ∷ t ∷ rest) =
    record {
      pieces = text (codes "service IN (") ∷ (commas (s ∷ t ∷ rest) ++ (text (codes ")") ∷ []));
      values = map BindValue.text (s ∷ t ∷ rest);
    }
    ∷ []

abbrev pub hook_conditions : Bool → List Condition
hook_conditions false = []
hook_conditions true = record { pieces = text (codes "hook IS NULL") ∷ []; values = [] } ∷ []

abbrev pub bound_conditions : Str → Option ℤ → List Condition
bound_conditions prefix none = []
bound_conditions prefix (some ts) =
    record { pieces = text prefix ∷ hole ∷ []; values = int ts ∷ [] } ∷ []

abbrev pub filter_conditions : Option Template → List Condition
filter_conditions none = []
filter_conditions (some t) =
    record {
      pieces = text (codes "(") ∷ (t.pieces ++ (text (codes ")") ∷ []));
      values = map from_sql t.params;
    }
    ∷ []

-- All the conditions of a query, in the order of the source.
abbrev pub conditions_of : List Str → Bool → Option Template → Option ℤ → Option ℤ → List Condition
conditions_of services no_hooks filter after_ts before_ts =
    let scoped = service_conditions services ++ hook_conditions no_hooks in
    let since = scoped ++ bound_conditions (codes "timestamp >= ") after_ts in
    (since ++ bound_conditions (codes "timestamp <= ") before_ts) ++ filter_conditions filter

pub texts-append :
    (n : ℕ) (cs ds : List Condition)
    → texts n (cs ++ ds) ≡ texts n cs ++ texts (n + length (all_values cs)) ds
texts-append n [] ds = ap (λ k. texts k ds) (omega arith)
texts-append n (c ∷ cs) ds =
    let count = length-append c.values (all_values cs) in
    let shift : (n + length c.values) + length (all_values cs)
        ≡ n + length (c.values ++ all_values cs) =
      omega arith in
    simp (texts-append (n + length c.values) cs ds, shift)

pub all_values-append :
    (cs ds : List Condition) → all_values (cs ++ ds) ≡ all_values cs ++ all_values ds
all_values-append [] ds = refl
all_values-append (c ∷ cs) ds = simp (all_values-append cs ds, append_assoc)

-- The conditions joined are the texts joined.
pub joined-render :
    (n : ℕ) (cs : List Condition)
    → AllFilled cs
    → join_with (codes " AND ") (texts n cs) ≡ render n (joined cs)
unfolding join_with render
joined-render n [] h = refl
joined-render n (c ∷ []) h = refl
joined-render n (c ∷ d ∷ cs) (filled, h) =
    rw
      (
        joined-render (n + length c.values) (d ∷ cs) h,
        render-append n c.pieces (text (codes " AND ") ∷ joined (d ∷ cs)),
        filled,
      )
      refl

pub AllFilled-append : (cs ds : List Condition) → AllFilled cs → AllFilled ds → AllFilled (cs ++ ds)
AllFilled-append [] ds h k = k
AllFilled-append (c ∷ cs) ds (e, h) k = (e, AllFilled-append cs ds h k)

holes-commas : (ss : List Str) → holes (commas ss) ≡ length ss
holes-commas [] = refl
holes-commas (s ∷ []) = refl
holes-commas (s ∷ t ∷ ss) = ap suc (holes-commas (t ∷ ss))

length-map_text : (ss : List Str) → length (map BindValue.text ss) ≡ length ss
length-map_text [] = refl
length-map_text (s ∷ ss) = ap suc (length-map_text ss)

length-map_sql : (vs : List SqlValue) → length (map from_sql vs) ≡ length vs
length-map_sql [] = refl
length-map_sql (v ∷ vs) = ap suc (length-map_sql vs)

pub service_conditions-AllFilled : (ss : List Str) → AllFilled (service_conditions ss)
service_conditions-AllFilled [] = tt
service_conditions-AllFilled (s ∷ []) = (refl, tt)
service_conditions-AllFilled (s ∷ t ∷ ss) = (
  holes-append (commas (s ∷ t ∷ ss)) (text (codes ")") ∷ [])
      ∙ omega (arith, holes-commas (s ∷ t ∷ ss), length-map_text (s ∷ t ∷ ss)),
  tt,
)

hook_conditions-AllFilled : (b : Bool) → AllFilled (hook_conditions b)
hook_conditions-AllFilled false = tt
hook_conditions-AllFilled true = (refl, tt)

pub bound_conditions-AllFilled : (p : Str) (ts : Option ℤ) → AllFilled (bound_conditions p ts)
bound_conditions-AllFilled p none = tt
bound_conditions-AllFilled p (some ts) = (refl, tt)

-- A filter whose holes have parameters, and that a shift leaves in form.
abbrev pub Shiftable : Option Template → Type 0
Shiftable none = Unit {0}
Shiftable (some t) = Filled (ok t) × Clean t.pieces × (length t.params < u64_mod)

pub filter_conditions-AllFilled :
    (f : Option Template) → Shiftable f → AllFilled (filter_conditions f)
filter_conditions-AllFilled none h = tt
filter_conditions-AllFilled (some t) (filled, clean, lt) = (
  holes-append t.pieces (text (codes ")") ∷ []) ∙ omega (arith, filled, length-map_sql t.params),
  tt,
)

pub conditions_of-AllFilled :
    (services : List Str) (no_hooks : Bool) (filter : Option Template)
    (after_ts before_ts : Option ℤ)
    → Shiftable filter
    → AllFilled (conditions_of services no_hooks filter after_ts before_ts)
conditions_of-AllFilled services no_hooks filter after_ts before_ts h =
    AllFilled-append _ (filter_conditions filter)
      (AllFilled-append _ (bound_conditions (codes "timestamp <= ") before_ts)
        (AllFilled-append _ (bound_conditions (codes "timestamp >= ") after_ts)
          (AllFilled-append (service_conditions services) (hook_conditions no_hooks)
            (service_conditions-AllFilled services) (hook_conditions-AllFilled no_hooks))
          (bound_conditions-AllFilled (codes "timestamp >= ") after_ts))
        (bound_conditions-AllFilled (codes "timestamp <= ") before_ts))
      (filter_conditions-AllFilled filter h)

-- The holes of the clause are the values.
pub where_pieces-holes :
    (cs : List Condition) → AllFilled cs → holes (where_pieces cs) ≡ length (all_values cs)
where_pieces-holes [] h = refl
where_pieces-holes (c ∷ []) (e, h) = e ∙ ap length (sym (append-nil c.values))
where_pieces-holes (c ∷ d ∷ cs) (e, h) =
    holes-append c.pieces (text (codes " AND ") ∷ joined (d ∷ cs))
    ∙ omega (arith, e, where_pieces-holes (d ∷ cs) h, length-append c.values (all_values (d ∷ cs)))
