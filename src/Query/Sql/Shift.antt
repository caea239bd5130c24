-- ===== src/Query/Sql/Shift.antt =====
-- The loop of `sql_with_offset` of kepler-daemon/src/query/dsl.rs on the text of a template.
use mathlib.Core.Path.{subst}
use kepler.Prelude.{
  ℕ, zero, suc, ◌+◌, ◌<◌, ◌≡◌, refl, ap, ◌∙◌, Bool, true, false, not, ◌&&◌, some, List, [], ◌∷◌,
  ◌++◌, eqb, all, is_empty, ltb, length, length-append, arith,
}
use kepler.Text.{Str, digits_then, is_ascii_digit}
use kepler.Text.Decimal.{
  print, digits_value-print, digits_then-print, print_head, NoDigit, u64_mod, all-print,
}
use kepler.Query.Sql.{
  placeholder, as_bytes, shift_from, parse_usize, in_usize, push_shifted, digit_next,
}
use kepler.Query.Sql.Template.{Piece, text, hole, render, holes}

-- ASCII without a question mark
abbrev pub plain : Str → Bool
plain [] = true
plain (c ∷ s) = (ltb c 0x80 && not (eqb c b'?')) && plain s

-- What shifting gives, with any fuel that is enough.
abbrev pub Shifts : ℕ → Str → Str → Type 0
Shifts k u v = (f : ℕ) → length u < f → shift_from k f u ≡ some v

text-Shifts : (k : ℕ) (s u v : Str) → plain s ≡ true → Shifts k u v → Shifts k (s ++ u) (s ++ v)
unfolding shift_from
text-Shifts k [] u v h sh f lt = sh f lt
text-Shifts k (c ∷ s) u v h sh zero lt = absurd (omega arith)
text-Shifts k (c ∷ s) u v h sh (suc f) lt =
    let other : (eqb c b'?' && digit_next (s ++ u)) ≡ false = ground arith in
    let rest = text-Shifts k s u v (ground arith) sh f (omega arith) in
    rw (other, shift_from) (rw rest refl)

shift_hole :
    (k f m : ℕ) (bytes ds u v : Str)
    → digit_next bytes ≡ true
    → digits_then bytes ≡ (ds, u)
    → parse_usize ds ≡ some m
    → shift_from k f u ≡ some v
    → shift_from k (suc f) (b'?' ∷ bytes) ≡ some (placeholder (m + k) ++ v)
unfolding shift_from push_shifted
shift_hole k f m bytes ds u v starts split value rest =
    rw (starts, shift_from) (rw split (rw (value, rest) refl))

parse_usize-print : (m : ℕ) → m < u64_mod → parse_usize (print m) ≡ some m
unfolding parse_usize
parse_usize-print m h =
    let bounded : in_usize (some m) ≡ some m = unfold in_usize in ground arith in
    ap in_usize (digits_value-print m) ∙ bounded

digit_next-print : (m : ℕ) (u : Str) → digit_next (print m ++ u) ≡ true
unfolding digit_next is_ascii_digit
digit_next-print m u = let (d, s, first, lt) = print_head m in rw first (ground arith)

print-pos : (m : ℕ) → 0 < length (print m)
print-pos m = let (d, s, first, lt) = print_head m in rw first (omega arith)

hole-Shifts :
    (k m : ℕ) (u v : Str)
    → m < u64_mod
    → NoDigit u
    → Shifts k u v
    → Shifts k (placeholder m ++ u) (placeholder (m + k) ++ v)
unfolding placeholder
hole-Shifts k m u v small follows sh zero lt = absurd (omega arith)
hole-Shifts k m u v small follows sh (suc f) lt =
    let size = length-append (print m) u in
    shift_hole k f m (print m ++ u) (print m) u v (digit_next-print m u)
      (digits_then-print m u follows) (parse_usize-print m small) (sh f (omega arith))

as_bytes-append : (s t : Str) → as_bytes (s ++ t) ≡ as_bytes s ++ as_bytes t
unfolding as_bytes
as_bytes-append [] t = refl
as_bytes-append (c ∷ s) t = ground (arith, as_bytes-append s t)

as_bytes_nil : as_bytes [] ≡ []
unfolding as_bytes
as_bytes_nil = refl

-- A text of ASCII is its own bytes.
as_bytes-plain : (s : Str) → plain s ≡ true → as_bytes s ≡ s
unfolding as_bytes
as_bytes-plain [] h = refl
as_bytes-plain (c ∷ s) h = ground (arith, as_bytes-plain s)

digits-plain : (s : Str) → all is_ascii_digit s ≡ true → plain s ≡ true
unfolding all is_ascii_digit
digits-plain [] h = refl
digits-plain (c ∷ s) h = ground (arith, digits-plain s)

as_bytes-placeholder : (n : ℕ) → as_bytes (placeholder n) ≡ placeholder n
unfolding placeholder as_bytes
as_bytes-placeholder n = rw (as_bytes-plain (print n) (digits-plain (print n) (all-print n))) refl

-- What follows a hole begins with no digit.
abbrev pub Follows : List Piece → Type 0
Follows [] = Unit {0}
Follows (text s ∷ ps) = (is_empty s ≡ false) × NoDigit s
Follows (hole ∷ ps) = ⊥

-- Pieces whose texts the shift leaves alone.
abbrev pub Clean : List Piece → Type 0
Clean [] = Unit {0}
Clean (text s ∷ ps) = (plain s ≡ true) × Clean ps
Clean (hole ∷ ps) = Follows ps × Clean ps

pub as_bytes-render : (n : ℕ) (ps : List Piece) → Clean ps → as_bytes (render n ps) ≡ render n ps
unfolding render
as_bytes-render n [] h = as_bytes_nil
as_bytes-render n (text s ∷ ps) (p, h) =
    rw (as_bytes-append s (render n ps), as_bytes-plain s p, as_bytes-render n ps h) refl
as_bytes-render n (hole ∷ ps) (p, h) =
    rw
      (
        as_bytes-append (placeholder (suc n)) (render (suc n) ps),
        as_bytes-placeholder (suc n),
        as_bytes-render (suc n) ps h,
      )
      refl

render-NoDigit : (n : ℕ) (ps : List Piece) → Follows ps → NoDigit (render n ps)
unfolding render
render-NoDigit n [] h = tt
render-NoDigit n (text [] ∷ ps) (e, h) = cc
render-NoDigit n (text (c ∷ s) ∷ ps) (e, h) = h
render-NoDigit n (hole ∷ ps) h = absurd h

nil-Shifts : (k : ℕ) → Shifts k [] []
unfolding shift_from
nil-Shifts k zero lt = absurd (omega arith)
nil-Shifts k (suc f) lt = refl

pub render-Shifts :
    (k n : ℕ) (ps : List Piece)
    → Clean ps
    → n + holes ps < u64_mod
    → Shifts k (render n ps) (render (n + k) ps)
unfolding render
render-Shifts k n [] h lt = nil-Shifts k
render-Shifts k n (text s ∷ ps) (p, h) lt =
    text-Shifts k s (render n ps) (render (n + k) ps) p (render-Shifts k n ps h lt)
render-Shifts k n (hole ∷ ps) (p, h) lt =
    let next : suc n + k ≡ suc (n + k) = omega arith in
    subst (λ m. Shifts k (placeholder (suc n) ++ render (suc n) ps) (placeholder m ++ render m ps))
      next
      (hole-Shifts k (suc n) (render (suc n) ps) (render (suc n + k) ps) (omega arith)
        (render-NoDigit (suc n) ps p) (render-Shifts k (suc n) ps h (omega arith)))
