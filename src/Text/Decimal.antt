-- ===== src/Text/Decimal.antt =====
-- The decimal text of a number (`{}` of a `u64`), its parsing (`parse::<u64>` of a text of ASCII
-- digits), and that the second takes back the first.
use kepler.Prelude.{
  ℕ, zero, suc, ◌+◌, ◌-◌, ◌*◌, ◌/◌, ◌%◌, ◌^◌, ◌≤◌, ◌<◌, ◌≡◌, refl, Bool, true, false, Option, none,
  some, List, [], ◌∷◌, ◌++◌, leb, ltb, if◌then◌else◌, inl, inr, Bool-cases, arith, sym, ap, ◌∙◌,
  eqb, all, is_empty, not, ◌&&◌,
}
use kepler.Prelude.Int.{ℤ, pos, negsuc}
use kepler.Text.{Str, digits_then, is_ascii_digit, trim, is_whitespace}
use kepler.Text.Trim.{trim_id}

-- The digits of a number before a text. The fuel is more than the number, and each round divides
-- the number by ten.
prepend : ℕ → ℕ → Str → Str
prepend zero n out = out
prepend (suc f) n out =
    let rest = prepend f (n / 10) ((48 + n % 10) ∷ out) in if ltb n 10 then (48 + n) ∷ out else rest

unfoldable pub print : ℕ → Str
unfolding prepend
print n = prepend (suc n) n []

value_from : ℕ → Str → ℕ
value_from acc [] = acc
value_from acc (c ∷ s) = value_from (acc * 10 + (c - 48)) s

abbrev pub u64_mod : ℕ
u64_mod = 2 ^ 64

-- The checks of overflow at each digit come to one check of the value.
unfoldable pub parse_u64 : Str → Option ℕ
unfolding value_from is_ascii_digit all
parse_u64 s =
    if not (is_empty s) && all is_ascii_digit s && ltb (value_from 0 s) u64_mod
    then some (value_from 0 s)
    else none

prepend-append : (f n : ℕ) (out u : Str) → prepend f n (out ++ u) ≡ prepend f n out ++ u
unfolding prepend
prepend-append zero n out u = refl
prepend-append (suc f) n out u = ground (arith, prepend-append f (n / 10) ((48 + n % 10) ∷ out) u)

value_from-prepend :
    (f n : ℕ) (out : Str) → n < f → value_from 0 (prepend f n out) ≡ value_from n out
unfolding prepend value_from
value_from-prepend zero n out h = absurd (omega arith)
value_from-prepend (suc f) n out h =
    ground (arith, value_from-prepend f (n / 10) ((48 + n % 10) ∷ out))

all-prepend :
    (f n : ℕ) (out : Str) → n < f → all is_ascii_digit (prepend f n out) ≡ all is_ascii_digit out
unfolding prepend is_ascii_digit all
all-prepend zero n out h = absurd (omega arith)
all-prepend (suc f) n out h = ground (arith, all-prepend f (n / 10) ((48 + n % 10) ∷ out))

prepend_cons : (f n : ℕ) (out : Str) → n < f → is_empty (prepend f n out) ≡ false
unfolding prepend
prepend_cons zero n out h = absurd (omega arith)
prepend_cons (suc f) n out h = ground (arith, prepend_cons f (n / 10) ((48 + n % 10) ∷ out))

-- Parsing the text of a number gives the number.
pub parse_u64-print : (n : ℕ) → n < u64_mod → parse_u64 (print n) ≡ some n
unfolding parse_u64 print
parse_u64-print n h =
    ground
      (arith, value_from-prepend (suc n) n [], all-prepend (suc n) n [], prepend_cons (suc n) n [])

-- A text that begins with no digit.
abbrev pub NoDigit : Str → Type 0
NoDigit [] = Unit {0}
NoDigit (c ∷ s) = is_ascii_digit c ≡ false

digits_then-NoDigit : (u : Str) → NoDigit u → digits_then u ≡ ([], u)
unfolding digits_then
digits_then-NoDigit [] h = refl
digits_then-NoDigit (c ∷ s) h = rw h

digits_then-digit :
    (d : ℕ) (ds u out : Str)
    → d < 10
    → digits_then out ≡ (ds, u)
    → digits_then ((48 + d) ∷ out) ≡ ((48 + d) ∷ ds, u)
unfolding digits_then
digits_then-digit d ds u out h e = rw e (ground arith)

digits_then-prepend :
    (f n : ℕ) (ds u out : Str)
    → n < f
    → digits_then out ≡ (ds, u)
    → digits_then (prepend f n out) ≡ (prepend f n ds, u)
unfolding digits_then prepend
digits_then-prepend zero n ds u out h e = absurd (omega arith)
digits_then-prepend (suc f) n ds u out h e = ground (
  arith,
  digits_then-digit n ds u out,
  digits_then-digit (n % 10) ds u out,
  digits_then-prepend f (n / 10) ((48 + n % 10) ∷ ds) u ((48 + n % 10) ∷ out),
)

pub digits_then-print : (n : ℕ) (u : Str) → NoDigit u → digits_then (print n ++ u) ≡ (print n, u)
unfolding print
digits_then-print n u h =
    rw (← prepend-append (suc n) n [] u)
      (digits_then-prepend (suc n) n [] u u (omega arith) (digits_then-NoDigit u h))

print_cons : (n : ℕ) → is_empty (print n) ≡ false
unfolding print
print_cons n = prepend_cons (suc n) n [] (omega arith)

prepend_head :
    (f n : ℕ) (out : Str)
    → n < f
    → (d : ℕ) × (s : Str) × (prepend f n out ≡ (48 + d) ∷ s) × (d < 10)
unfolding prepend
prepend_head zero n out h = absurd (omega arith)
prepend_head (suc f) n out h = elim (Bool-cases (ltb n 10)) [
  | inl small ↦ (n, out, rw small, ground arith)
  | inr large ↦ rw large (prepend_head f (n / 10) ((48 + n % 10) ∷ out) (ground arith))
]

-- The text of a number begins with a digit.
pub print_head : (n : ℕ) → (d : ℕ) × (s : Str) × (print n ≡ (48 + d) ∷ s) × (d < 10)
unfolding print
print_head n = prepend_head (suc n) n [] (omega arith)

unfoldable pub digits_value : Str → Option ℕ
unfolding value_from is_ascii_digit all
digits_value s = if not (is_empty s) && all is_ascii_digit s then some (value_from 0 s) else none

-- The integer with a magnitude below a sign.
unfoldable pub negate : ℕ → ℤ
negate zero = pos 0
negate (suc n) = negsuc n

negative_i32 : Option ℕ → Option ℤ
unfolding negate
negative_i32 none = none
negative_i32 (some n) = if leb n (2 ^ 31) then some (negate n) else none

positive_i32 : Option ℕ → Option ℤ
positive_i32 none = none
positive_i32 (some n) = if ltb n (2 ^ 31) then some (pos n) else none

-- `parse::<i32>`: an optional sign and digits, in range
unfoldable pub parse_i32 : Str → Option ℤ
unfolding negative_i32 positive_i32 digits_value
parse_i32 [] = none
parse_i32 (c ∷ s) =
    if eqb c b'-'
    then negative_i32 (digits_value s)
    else if eqb c b'+'
    then positive_i32 (digits_value s)
    else positive_i32 (digits_value (c ∷ s))

-- `{}` of an `i32`
unfoldable pub print_i32 : ℤ → Str
unfolding print
print_i32 (pos n) = print n
print_i32 (negsuc n) = b'-' ∷ print (suc n)

-- The range of an `i32`.
abbrev pub IsI32 : ℤ → Type 0
IsI32 (pos n) = n < 2 ^ 31
IsI32 (negsuc n) = suc n ≤ 2 ^ 31

pub digits_value-print : (n : ℕ) → digits_value (print n) ≡ some n
unfolding digits_value print
digits_value-print n =
    ground
      (arith, value_from-prepend (suc n) n [], all-prepend (suc n) n [], prepend_cons (suc n) n [])

parse_i32_digit :
    (d : ℕ) (s : Str)
    → d < 10
    → parse_i32 ((48 + d) ∷ s) ≡ positive_i32 (digits_value ((48 + d) ∷ s))
unfolding parse_i32
parse_i32_digit d s h = ground arith

-- Parsing the text of an integer gives the integer.
pub parse_i32-print_i32 : (z : ℤ) → IsI32 z → parse_i32 (print_i32 z) ≡ some z
unfolding print_i32 positive_i32 negative_i32
parse_i32-print_i32 (pos n) h =
    let (d, s, first, lt) = print_head n in
    rw (first, parse_i32_digit d s lt, ← first, digits_value-print n) (ground arith)
parse_i32-print_i32 (negsuc n) h =
    unfold parse_i32 in rw (digits_value-print (suc n)) (ground arith)

-- The text of a number ends with a digit.
print_last : (n : ℕ) → (t : Str) × (d : ℕ) × (print n ≡ t ++ (48 + d) ∷ []) × (d < 10)
unfolding print prepend
print_last n = elim (Bool-cases (ltb n 10)) [
  | inl small ↦ ([], n, rw small, ground arith)
  | inr large ↦ (
    prepend n (n / 10) [],
    n % 10,
    rw large (prepend-append n (n / 10) [] ((48 + n % 10) ∷ [])),
    omega arith,
  )
]

trim-print : (n : ℕ) → trim (print n) ≡ print n
unfolding is_whitespace
trim-print n =
    let (d, s, first, lt) = print_head n in
    let (t, e, last, le) = print_last n in
    rw first (trim_id (48 + d) (48 + e) s t (ground arith) (ground arith) (sym first ∙ last))

-- The text of an integer has no space at its ends.
pub trim-print_i32 : (z : ℤ) → trim (print_i32 z) ≡ print_i32 z
unfolding print_i32 is_whitespace
trim-print_i32 (pos n) = trim-print n
trim-print_i32 (negsuc n) =
    let (t, e, last, le) = print_last (suc n) in
    trim_id b'-' (48 + e) (print (suc n)) (b'-' ∷ t) refl (ground arith) (ap (λ x. b'-' ∷ x) last)

all_mono {ℓ} :
    {A : Type ℓ} (p q : A → Bool) (xs : List A)
    → ((a : A) → p a ≡ true → q a ≡ true)
    → all p xs ≡ true
    → all q xs ≡ true
unfolding all
all_mono p q [] f h = refl
all_mono p q (x ∷ xs) f h = ground (arith, f x, all_mono p q xs f)

-- The text of an integer has only digits and a sign.
pub all-print_i32 :
    (q : ℕ → Bool) (z : ℤ)
    → ((c : ℕ) → is_ascii_digit c ≡ true → q c ≡ true)
    → q b'-' ≡ true
    → all q (print_i32 z) ≡ true
unfolding print_i32 print all
all-print_i32 q (pos n) f m =
    all_mono is_ascii_digit q (print n) f (all-prepend (suc n) n [] (omega arith))
all-print_i32 q (negsuc n) f m = rw m (
    all_mono is_ascii_digit q (print (suc n)) f
      (all-prepend (suc (suc n)) (suc n) [] (omega arith)))

-- The text of a number has only digits.
pub all-print : (n : ℕ) → all is_ascii_digit (print n) ≡ true
unfolding print all
all-print n = all-prepend (suc n) n [] (omega arith)
