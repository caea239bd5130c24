-- ===== src/Duration.antt =====
-- kepler-daemon/src/config/duration.rs: durations as text. A duration is its
-- nanoseconds; the errors are those of the source, with the texts that they show.
pub mod RoundTrip
use kepler.Prelude.{
  ℕ, ◌*◌, ◌/◌, ◌%◌, ◌^◌, String, Option, none, some, Bool, List, [], ◌∷◌, ◌++◌, eqb, ltb, is_empty,
  if◌then◌else◌, ◌||◌,
}
use kepler.Prelude.Result.{Result, ok, err, ◌>>=◌}
use kepler.Text.{Str, codes, str_beq, trim, to_lowercase, digits_then}
use kepler.Text.Decimal.{print, parse_u64, u64_mod}

pub data DurationError : Type 0 where
  empty : DurationError
  invalid_number unknown_unit too_large : Str → DurationError

abbrev pub Duration : Type 0
Duration = ℕ

-- `Duration::from_millis` and `as_millis`, which drops the rest
abbrev pub from_millis : ℕ → Duration
from_millis n = n * 1000000

abbrev pub as_millis : Duration → ℕ
as_millis duration = duration / 1000000

-- The milliseconds of a unit.
unit_multiplier : Str → Option ℕ
unit_multiplier u =
    if str_beq u (codes "ms")
    then some 1
    else if str_beq u (codes "s") || is_empty u
    then some 1000
    else if str_beq u (codes "m")
    then some 60000
    else if str_beq u (codes "h")
    then some 3600000
    else if str_beq u (codes "d")
    then some 86400000
    else none

-- `find(..).map(split_at).unwrap_or((s, "s"))`: with no other character the unit is "s"
split_unit : Str × Str → Str × Str
split_unit (num, []) = (num, codes "s")
split_unit (num, c ∷ rest) = (num, c ∷ rest)

checked_mul : Str → ℕ → ℕ → Result DurationError Duration
checked_mul s num multiplier =
    if ltb (num * multiplier) u64_mod
    then ok (from_millis (num * multiplier))
    else err (too_large s)

with_unit : Str → Str → ℕ → Option ℕ → Result DurationError Duration
unfolding checked_mul
with_unit s unit num none = err (unknown_unit unit)
with_unit s unit num (some multiplier) = checked_mul s num multiplier

with_number : Str → Str → Str → Option ℕ → Result DurationError Duration
unfolding with_unit unit_multiplier
with_number s num_str unit none = err (invalid_number num_str)
with_number s num_str unit (some num) = with_unit s unit num (unit_multiplier (to_lowercase unit))

with_parts : Str → Str × Str → Result DurationError Duration
unfolding with_number
with_parts s (num_str, unit) = with_number s num_str unit (parse_u64 num_str)

parse_trimmed : Str → Result DurationError Duration
unfolding with_parts split_unit
parse_trimmed s = if is_empty s then err empty else with_parts s (split_unit (digits_then s))

unfoldable pub parse_duration : Str → Result DurationError Duration
unfolding parse_trimmed
parse_duration s = parse_trimmed (trim s)

-- `as_millis() as u64`, and the largest unit that divides evenly
unfoldable pub format_duration : Duration → Str
format_duration duration =
    let millis = as_millis duration % u64_mod in
    if eqb millis 0
    then codes "0s"
    else if eqb (millis % 86400000) 0
    then print (millis / 86400000) ++ codes "d"
    else if eqb (millis % 3600000) 0
    then print (millis / 3600000) ++ codes "h"
    else if eqb (millis % 60000) 0
    then print (millis / 60000) ++ codes "m"
    else if eqb (millis % 1000) 0
    then print (millis / 1000) ++ codes "s"
    else print millis ++ codes "ms"
