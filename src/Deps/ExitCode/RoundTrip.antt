-- ===== src/Deps/ExitCode/RoundTrip.antt =====
-- Reading back a written exit code filter (config/deps.rs).
use kepler.Prelude.{
  ◌≡◌, refl, true, some, [], ◌∷◌, ◌++◌, arith, all, eqb, not, Bool-cases, inl, inr,
}
use kepler.Prelude.Int.{ℤ, ◌≤ℤ◌, eqb_ℤ, eqb_ℤ_iff}
use kepler.Prelude.Result.{ok}
use kepler.Text.{Str, is_ascii_digit}
use kepler.Text.Decimal.{print_i32, IsI32, parse_i32-print_i32, trim-print_i32, all-print_i32}
use kepler.Deps.{ExitCodeRange, ExitCodeFilter}
use kepler.Deps.ExitCode.{split_colon, parse_entry, serialize_range, serialize, deserialize}

-- A filter as `deserialize` makes it: ends of 32 bits, in order.
abbrev pub IsValid : ExitCodeFilter → Type 0
IsValid [] = Unit {0}
IsValid (r ∷ filter) = (IsI32 r.start × IsI32 r.end × (r.start ≤ℤ r.end)) × IsValid filter

split_colon-append :
    (a b : Str) → all (λ c. not (eqb c b':')) a ≡ true → split_colon (a ++ b':' ∷ b) ≡ some (a, b)
unfolding split_colon all
split_colon-append [] b h = refl
split_colon-append (c ∷ a) b h = ground (arith, split_colon-append a b)

split_colon-print_i32 :
    (z : ℤ) (b : Str) → split_colon (print_i32 z ++ b':' ∷ b) ≡ some (print_i32 z, b)
unfolding is_ascii_digit
split_colon-print_i32 z b =
    split_colon-append (print_i32 z) b (all-print_i32 _ z (λ c h. ground arith) refl)

parse_entry-serialize_range :
    (r : ExitCodeRange)
    → IsI32 r.start
    → IsI32 r.end
    → r.start ≤ℤ r.end
    → parse_entry (serialize_range r) ≡ ok r
unfolding parse_entry serialize_range
parse_entry-serialize_range r hs he o = elim (Bool-cases (eqb_ℤ r.start r.end)) [
  | inl same ↦ rw same (ground (arith, eqb_ℤ_iff r.start r.end))
  | inr other ↦
      rw
        (
          other,
          split_colon-print_i32 r.start (print_i32 r.end),
          trim-print_i32 r.start,
          parse_i32-print_i32 r.start hs,
          trim-print_i32 r.end,
          parse_i32-print_i32 r.end he,
        )
        (ground arith)
]

-- A valid filter is read back from the entries that it is written as.
pub deserialize-serialize :
    (filter : ExitCodeFilter) → IsValid filter → deserialize (serialize filter) ≡ ok filter
unfolding deserialize serialize
deserialize-serialize [] h = refl
deserialize-serialize (r ∷ filter) ((hs, he, o), h) =
    ground (arith, parse_entry-serialize_range r hs he o, deserialize-serialize filter h)
