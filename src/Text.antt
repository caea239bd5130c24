-- ===== src/Text.antt =====
-- Texts as lists of code points, with what the source calls of `str`: `trim`, `split`, `join`,
-- `to_lowercase` (its part on ASCII, which is all that the source's comparisons can see), and the
-- decimal digits of a number.
pub mod Trim
pub mod Decimal
use Prim.Native.Char.{code}
use Prim.Native.String
use kepler.Prelude.{
  ℕ, zero, suc, ◌+◌, ◌-◌, String, ◌≡◌, refl, ◌↔◌, Bool, true, false, ◌&&◌, ◌||◌, List, [], ◌∷◌,
  ◌++◌, leb, eqb, if◌then◌else◌, arith, eqb_iff, Eq,
}
use mathlib.Core.List.{reverse}

abbrev pub Str : Type 0
Str = List ℕ

-- The code points of a text.
abbrev pub codes : String → Str
codes String.[] = []
codes (String.◌∷◌ c s) = code c ∷ codes s

abbrev pub str_beq : Str → Str → Bool
str_beq [] [] = true
str_beq (a ∷ s) (b ∷ t) = eqb a b && str_beq s t
str_beq _ _ = false

pub str_beq_iff : (s t : Str) → (str_beq s t ≡ true) ↔ (s ≡ t)
str_beq_iff [] [] = ground arith
str_beq_iff [] (b ∷ t) = ground arith
str_beq_iff (a ∷ s) [] = ground arith
str_beq_iff (a ∷ s) (b ∷ t) = ground (arith, str_beq_iff s t)

instance abbrev pub str_eq : Eq Str
str_eq = record { beq = str_beq; beq_iff = str_beq_iff }

-- `char::is_whitespace`: the Unicode property White_Space
unfoldable pub is_whitespace : ℕ → Bool
is_whitespace c =
    leb 9 c && leb c 13
    || eqb c 32
    || eqb c 0x85
    || eqb c 0xa0
    || eqb c 0x1680
    || leb 0x2000 c && leb c 0x200a
    || eqb c 0x2028
    || eqb c 0x2029
    || eqb c 0x202f
    || eqb c 0x205f
    || eqb c 0x3000

unfoldable pub trim_start : Str → Str
unfolding is_whitespace
trim_start [] = []
trim_start (c ∷ s) = if is_whitespace c then trim_start s else c ∷ s

unfoldable pub trim : Str → Str
unfolding trim_start
trim s = reverse (trim_start (reverse (trim_start s)))

abbrev cons_head : ℕ → List Str → List Str
cons_head c [] = (c ∷ []) ∷ []
cons_head c (s ∷ rest) = (c ∷ s) ∷ rest

-- `s.split(sep)`: one piece more than there are separators
unfoldable pub split : ℕ → Str → List Str
split sep [] = [] ∷ []
split sep (c ∷ s) = let rest = split sep s in if eqb c sep then [] ∷ rest else cons_head c rest

-- `parts.join(sep)`
unfoldable pub join : ℕ → List Str → Str
join sep [] = []
join sep (s ∷ []) = s
join sep (s ∷ t ∷ rest) = s ++ sep ∷ join sep (t ∷ rest)

unfoldable pub is_ascii_digit : ℕ → Bool
is_ascii_digit c = leb b'0' c && leb c b'9'

unfoldable pub to_lowercase : Str → Str
to_lowercase [] = []
to_lowercase (c ∷ s) = (if leb b'A' c && leb c b'Z' then c + 32 else c) ∷ to_lowercase s

-- `s.split_at(s.find(|c| !c.is_ascii_digit()))`, with the whole text where nothing is found
unfoldable pub digits_then : Str → Str × Str
unfolding is_ascii_digit
digits_then [] = ([], [])
digits_then (c ∷ s) =
    let (ds, rest) = digits_then s in if is_ascii_digit c then (c ∷ ds, rest) else ([], c ∷ s)
