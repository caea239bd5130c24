-- ===== src/Duration/RoundTrip.antt =====
-- Parsing a formatted duration (config/duration.rs).
use mathlib.Core.List.{append_assoc}
use mathlib.Core.Path.{sym, ◌∙◌}
use kepler.Prelude.{ℕ, ◌+◌, ◌*◌, ◌/◌, ◌<◌, ◌≡◌, refl, ◌++◌, [], ◌∷◌, arith, some, false, ap}
use kepler.Prelude.Result.{ok}
use kepler.Text.{Str, codes, trim, is_whitespace, to_lowercase, digits_then, is_ascii_digit}
use kepler.Text.Trim.{trim_id}
use kepler.Text.Decimal.{print, u64_mod, parse_u64, parse_u64-print, digits_then-print, print_head}
use kepler.Duration.{from_millis, as_millis, parse_duration, unit_multiplier, format_duration}

trim-print :
    (n : ℕ) (u t : Str) (e : ℕ)
    → u ≡ t ++ e ∷ []
    → is_whitespace e ≡ false
    → trim (print n ++ u) ≡ print n ++ u
unfolding is_whitespace
trim-print n u t e last he =
    let (d, s, first, lt) = print_head n in
    rw first (
      trim_id (48 + d) e (s ++ u) ((48 + d) ∷ (s ++ t)) (ground arith) he
        (ap (λ x. (48 + d) ∷ x) (ap (λ x. s ++ x) last ∙ sym (append_assoc s t (e ∷ [])))))

-- A number with a unit is read as their product.
parse_duration-print :
    (n m u0 : ℕ) (u t : Str) (e : ℕ)
    → u0 ∷ u ≡ t ++ e ∷ []
    → is_whitespace e ≡ false
    → is_ascii_digit u0 ≡ false
    → unit_multiplier (to_lowercase (u0 ∷ u)) ≡ some m
    → n < u64_mod
    → n * m < u64_mod
    → parse_duration (print n ++ u0 ∷ u) ≡ ok (from_millis (n * m))
unfolding parse_duration
parse_duration-print n m u0 u t e last he hd hu hn hm =
    let (d, s, first, lt) = print_head n in
    rw
      (trim-print n (u0 ∷ u) t e last he, digits_then-print n (u0 ∷ u) hd, parse_u64-print n hn, hu)
      (rw first (ground arith))

module _ (n : ℕ) where
  days :
      n * 86400000 < u64_mod
      → parse_duration (print n ++ codes "d") ≡ ok (from_millis (n * 86400000))
  unfolding is_whitespace is_ascii_digit unit_multiplier to_lowercase
  days h = parse_duration-print n 86400000 b'd' [] [] b'd' refl refl refl refl (omega arith) h

  hours :
      n * 3600000 < u64_mod → parse_duration (print n ++ codes "h") ≡ ok (from_millis (n * 3600000))
  unfolding is_whitespace is_ascii_digit unit_multiplier to_lowercase
  hours h = parse_duration-print n 3600000 b'h' [] [] b'h' refl refl refl refl (omega arith) h

  minutes :
      n * 60000 < u64_mod → parse_duration (print n ++ codes "m") ≡ ok (from_millis (n * 60000))
  unfolding is_whitespace is_ascii_digit unit_multiplier to_lowercase
  minutes h = parse_duration-print n 60000 b'm' [] [] b'm' refl refl refl refl (omega arith) h

  seconds : n * 1000 < u64_mod → parse_duration (print n ++ codes "s") ≡ ok (from_millis (n * 1000))
  unfolding is_whitespace is_ascii_digit unit_multiplier to_lowercase
  seconds h = parse_duration-print n 1000 b's' [] [] b's' refl refl refl refl (omega arith) h

  millis : n * 1 < u64_mod → parse_duration (print n ++ codes "ms") ≡ ok (from_millis (n * 1))
  unfolding is_whitespace is_ascii_digit unit_multiplier to_lowercase
  millis h =
      parse_duration-print n 1 b'm' (b's' ∷ []) (b'm' ∷ []) b's' refl refl refl refl (omega arith) h

zero_seconds : parse_duration (codes "0s") ≡ ok 0
unfolding parse_duration trim parse_u64 digits_then to_lowercase
zero_seconds = refl

-- Every duration of whole milliseconds, fewer than 2^64 of them, is read back from its text, whichever
-- unit the text has.
pub parse_duration-format_duration :
    (millis_of : ℕ)
    → millis_of < u64_mod
    → parse_duration (format_duration (from_millis millis_of)) ≡ ok (from_millis millis_of)
unfolding format_duration
parse_duration-format_duration d h =
    let same : as_millis (from_millis d) ≡ d = omega arith in
    rw same (
      ground (
        arith,
        zero_seconds,
        days (d / 86400000),
        hours (d / 3600000),
        minutes (d / 60000),
        seconds (d / 1000),
        millis d,
      ))
