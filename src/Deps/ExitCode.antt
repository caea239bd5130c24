-- ===== src/Deps/ExitCode.antt =====
-- The text form of an exit code filter (`Serialize` and `Deserialize` of `ExitCodeFilter`,
-- config/deps.rs).
pub mod RoundTrip
use kepler.Prelude.{
  ℕ, String, Bool, true, false, not, Option, none, some, List, [], ◌∷◌, ◌++◌, if◌then◌else◌, eqb,
}
use kepler.Prelude.Int.{ℤ, leb_ℤ, eqb_ℤ}
use kepler.Prelude.Result.{Result, ok, err}
use kepler.Text.{Str, trim}
use kepler.Text.Decimal.{parse_i32, print_i32}
use kepler.Deps.{ExitCodeRange, ExitCodeFilter}

pub data ExitCodeEntry : Type 0 where
  range : Str → ExitCodeEntry
  single : ℤ → ExitCodeEntry

-- The errors of `deserialize`, each with the text of the entry.
pub data ExitCodeError : Type 0 where
  no_colon bad_start bad_end : Str → ExitCodeError
  start_after_end : Str → ℤ → ℤ → ExitCodeError

serialize_range : ExitCodeRange → ExitCodeEntry
serialize_range r =
    if eqb_ℤ r.start r.end
    then single r.start
    else range (print_i32 r.start ++ b':' ∷ print_i32 r.end)

unfoldable pub serialize : ExitCodeFilter → List ExitCodeEntry
unfolding serialize_range
serialize [] = []
serialize (r ∷ filter) = serialize_range r ∷ serialize filter

-- `splitn(2, ':')`: the text before the first colon and what follows it, if there is one
split_colon : Str → Option (Str × Str)
split_colon [] = none
split_colon (c ∷ s) =
    if eqb c b':'
    then some ([], s)
    else elim (split_colon s) [ none ↦ none | some (a, b) ↦ some (c ∷ a, b) ]

check_order : Str → ℤ → ℤ → Result ExitCodeError ExitCodeRange
check_order s start end =
    if leb_ℤ start end
    then ok (record { start = start; end = end })
    else err (start_after_end s start end)

parse_end : Str → ℤ → Option ℤ → Result ExitCodeError ExitCodeRange
unfolding check_order
parse_end s start none = err (bad_end s)
parse_end s start (some end) = check_order s start end

parse_start : Str → Option ℤ → Str → Result ExitCodeError ExitCodeRange
unfolding parse_end
parse_start s none b = err (bad_start s)
parse_start s (some start) b = parse_end s start (parse_i32 (trim b))

parse_parts : Str → Option (Str × Str) → Result ExitCodeError ExitCodeRange
unfolding parse_start
parse_parts s none = err (no_colon s)
parse_parts s (some (a, b)) = parse_start s (parse_i32 (trim a)) b

unfoldable pub parse_entry : ExitCodeEntry → Result ExitCodeError ExitCodeRange
unfolding parse_parts split_colon
parse_entry (single n) = ok (record { start = n; end = n })
parse_entry (range s) = parse_parts s (split_colon s)

push_range :
    ExitCodeRange → Result ExitCodeError ExitCodeFilter → Result ExitCodeError ExitCodeFilter
push_range r (ok rest) = ok (r ∷ rest)
push_range r (err e) = err e

-- The loop of `deserialize`: the first entry in error ends it.
unfoldable pub deserialize : List ExitCodeEntry → Result ExitCodeError ExitCodeFilter
unfolding parse_entry push_range
deserialize [] = ok []
deserialize (entry ∷ entries) = elim (parse_entry entry) [
  | ok r ↦ push_range r (deserialize entries)
  | err e ↦ err e
]
