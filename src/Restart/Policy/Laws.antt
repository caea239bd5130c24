-- ===== src/Restart/Policy/Laws.antt =====
-- What `parse` makes of the texts of a restart policy, and the round trip (config/restart.rs).
use Prim.Native.Nat.{bit_or}
use kepler.Prelude.{
  ℕ, zero, suc, ◌<◌, ◌≡◌, refl, Bool, true, false, not, eqb, ◌||◌, some, List, [], ◌∷◌, arith, any,
}
use kepler.Prelude.Result.{Result, ok, err}
use kepler.Text.{Str, trim, split, join}
use kepler.Restart.{RestartPolicy, on_failure, on_success, on_unhealthy, always, has}
use kepler.Restart.Policy.{
  PolicyError, no_flag, failure_flag, success_flag, unhealthy_flag, always_flag, flag_of,
  apply_flag, parse_tokens, policy_of, tokens, parse, to_string_repr,
}

-- A property of the bytes of policies, one by one.
below_8 : (P : ℕ → Type 0) → P 0 → P 1 → P 2 → P 3 → P 4 → P 5 → P 6 → P 7 → (f : ℕ) → f < 8 → P f
below_8 P a b c d e f g h zero lt = a
below_8 P a b c d e f g h (suc zero) lt = b
below_8 P a b c d e f g h (suc (suc zero)) lt = c
below_8 P a b c d e f g h (suc (suc (suc zero))) lt = d
below_8 P a b c d e f g h (suc (suc (suc (suc zero)))) lt = e
below_8 P a b c d e f g h (suc (suc (suc (suc (suc zero))))) lt = f
below_8 P a b c d e f g h (suc (suc (suc (suc (suc (suc zero)))))) lt = g
below_8 P a b c d e f g h (suc (suc (suc (suc (suc (suc (suc zero))))))) lt = h
below_8 P a b c d e f g h (suc (suc (suc (suc (suc (suc (suc (suc n)))))))) lt =
    absurd (omega arith)

round_trip :
    (f : ℕ) → f < 8 → parse (to_string_repr (record { flags = f })) ≡ ok (record { flags = f })
unfolding parse to_string_repr split trim join
round_trip =
    below_8 (λ f. parse (to_string_repr (record { flags = f })) ≡ ok (record { flags = f })) refl
      refl refl refl refl refl refl refl

-- Every policy, a byte with no bit but the three flags, is read back from its text.
pub parse-to_string_repr : (p : RestartPolicy) → p.flags < 8 → parse (to_string_repr p) ≡ ok p
parse-to_string_repr p h = round_trip p.flags h

-- Whether a token asks for a flag.
abbrev pub asks_failure : Str → Bool
asks_failure t = elim (flag_of t) [ some failure_flag ↦ true | some always_flag ↦ true | _ ↦ false ]

abbrev pub asks_success : Str → Bool
asks_success t = elim (flag_of t) [ some success_flag ↦ true | some always_flag ↦ true | _ ↦ false ]

abbrev pub asks_unhealthy : Str → Bool
asks_unhealthy t = elim (flag_of t) [
  | some unhealthy_flag ↦ true
  | some always_flag ↦ true
  | _ ↦ false
]

abbrev pub is_no_flag : Str → Bool
is_no_flag t = elim (flag_of t) [ some no_flag ↦ true | _ ↦ false ]

abbrev of_byte : ℕ → RestartPolicy
of_byte f = record { flags = f }

-- What a token does to the byte of a policy.
abbrev Marks : ℕ → ℕ → Bool → Bool → Bool → Type 0
Marks f f' a b c =
    (f' < 8)
    × (has (of_byte f') on_failure ≡ (has (of_byte f) on_failure || a))
    × (has (of_byte f') on_success ≡ (has (of_byte f) on_success || b))
    × (has (of_byte f') on_unhealthy ≡ (has (of_byte f) on_unhealthy || c))

or_1 : (f : ℕ) → f < 8 → Marks f (bit_or f on_failure) true false false
unfolding has
or_1 =
    below_8 (λ f. Marks f (bit_or f on_failure) true false false) (omega arith, refl, refl, refl)
      (omega arith, refl, refl, refl) (omega arith, refl, refl, refl)
      (omega arith, refl, refl, refl) (omega arith, refl, refl, refl)
      (omega arith, refl, refl, refl) (omega arith, refl, refl, refl)
      (omega arith, refl, refl, refl)

or_2 : (f : ℕ) → f < 8 → Marks f (bit_or f on_success) false true false
unfolding has
or_2 =
    below_8 (λ f. Marks f (bit_or f on_success) false true false) (omega arith, refl, refl, refl)
      (omega arith, refl, refl, refl) (omega arith, refl, refl, refl)
      (omega arith, refl, refl, refl) (omega arith, refl, refl, refl)
      (omega arith, refl, refl, refl) (omega arith, refl, refl, refl)
      (omega arith, refl, refl, refl)

or_4 : (f : ℕ) → f < 8 → Marks f (bit_or f on_unhealthy) false false true
unfolding has
or_4 =
    below_8 (λ f. Marks f (bit_or f on_unhealthy) false false true) (omega arith, refl, refl, refl)
      (omega arith, refl, refl, refl) (omega arith, refl, refl, refl)
      (omega arith, refl, refl, refl) (omega arith, refl, refl, refl)
      (omega arith, refl, refl, refl) (omega arith, refl, refl, refl)
      (omega arith, refl, refl, refl)

or_7 : (f : ℕ) → f < 8 → Marks f (bit_or f always) true true true
unfolding has
or_7 =
    below_8 (λ f. Marks f (bit_or f always) true true true) (omega arith, refl, refl, refl)
      (omega arith, refl, refl, refl) (omega arith, refl, refl, refl)
      (omega arith, refl, refl, refl) (omega arith, refl, refl, refl)
      (omega arith, refl, refl, refl) (omega arith, refl, refl, refl)
      (omega arith, refl, refl, refl)

-- What the tokens do to the byte and to `has_no`: each flag is set if it was set or some token asks
-- for it.
parse_tokens-Marks :
    (ts : List Str) (f f' : ℕ) (b b' : Bool)
    → f < 8
    → parse_tokens ts (f, b) ≡ ok (f', b')
    → Marks f f' (any asks_failure ts) (any asks_success ts) (any asks_unhealthy ts)
      × (b' ≡ (b || any is_no_flag ts))
unfolding parse_tokens any apply_flag
parse_tokens-Marks [] f f' b b' h e = ground arith
parse_tokens-Marks (t ∷ ts) f f' b b' h e = ground (
  arith,
  or_1 f,
  or_2 f,
  or_4 f,
  or_7 f,
  parse_tokens-Marks ts f f' true b',
  parse_tokens-Marks ts (bit_or f on_failure) f' b b',
  parse_tokens-Marks ts (bit_or f on_success) f' b b',
  parse_tokens-Marks ts (bit_or f on_unhealthy) f' b b',
  parse_tokens-Marks ts (bit_or f always) f' b b',
)

policy_of-eq-ok :
    (r : Result PolicyError (ℕ × Bool)) (p : RestartPolicy)
    → policy_of r ≡ ok p
    → (f : ℕ) × (b : Bool) × (r ≡ ok (f, b)) × (p ≡ of_byte f) × (b ≡ true → f ≡ 0)
unfolding policy_of
policy_of-eq-ok (err e) p h = cc
policy_of-eq-ok (ok (f, b)) p h = (f, b, refl, ground arith, ground arith)

no_flags :
    (has (of_byte 0) on_failure ≡ false)
    × (has (of_byte 0) on_success ≡ false)
    × (has (of_byte 0) on_unhealthy ≡ false)
unfolding has
no_flags = (refl, refl, refl)

flags-tokens :
    (ts : List Str) (p : RestartPolicy)
    → policy_of (parse_tokens ts (0, false)) ≡ ok p
    → (p.flags < 8)
      × (has p on_failure ≡ any asks_failure ts)
      × (has p on_success ≡ any asks_success ts)
      × (has p on_unhealthy ≡ any asks_unhealthy ts)
      × ((not (any is_no_flag ts) || eqb p.flags 0) ≡ true)
flags-tokens ts p h =
    let (f, b, e, ep, z) = policy_of-eq-ok (parse_tokens ts (0, false)) p h in
    rw ep (ground (arith, no_flags, parse_tokens-Marks ts 0 f false b))

-- An accepted text gives a policy in which each flag is set exactly if some token of the text asks
-- for it (`always` asks for all three), and `no` stands in the text only if no flag is set.
pub parse-flags :
    (s : Str) (p : RestartPolicy)
    → parse s ≡ ok p
    → (p.flags < 8)
      × (has p on_failure ≡ any asks_failure (tokens s))
      × (has p on_success ≡ any asks_success (tokens s))
      × (has p on_unhealthy ≡ any asks_unhealthy (tokens s))
      × ((not (any is_no_flag (tokens s)) || eqb p.flags 0) ≡ true)
unfolding parse
parse-flags s p h = flags-tokens (tokens s) p h
