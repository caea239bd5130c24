-- ===== src/Restart/Policy.antt =====
-- The text of a restart policy (`parse` and `to_string_repr` of config/restart.rs).
pub mod Laws
use Prim.Native.Nat.{bit_and, bit_or}
use kepler.Prelude.{
  ℕ, zero, suc, ◌<◌, ◌≡◌, ◌↔◌, ◌⊎◌, Option, none, some, refl, Bool, true, false, not, ◌&&◌, ◌||◌,
  List, [], ◌∷◌, ◌++◌, map, if◌then◌else◌, eqb, arith, any,
}
use kepler.Prelude.Result.{Result, ok, err}
use kepler.Text.{Str, codes, str_beq, trim, split, join}
use kepler.Restart.{RestartPolicy, on_failure, on_success, on_unhealthy, always, has, is_no}

-- The errors of `RestartPolicy::parse`.
pub data PolicyError : Type 0 where
  unknown_flag : Str → PolicyError
  no_combined : PolicyError

-- The texts that the `match` of `parse` knows.
pub data Flag : Type 0 where
  no_flag failure_flag success_flag unhealthy_flag always_flag : Flag

unfoldable pub flag_of : Str → Option Flag
flag_of token =
    if str_beq token (codes "no")
    then some no_flag
    else if str_beq token (codes "on-failure")
    then some failure_flag
    else if str_beq token (codes "on-success")
    then some success_flag
    else if str_beq token (codes "on-unhealthy")
    then some unhealthy_flag
    else if str_beq token (codes "always")
    then some always_flag
    else none

-- One round of the loop over the tokens, on `flags` and `has_no`.
unfoldable pub apply_flag : Flag → ℕ × Bool → ℕ × Bool
apply_flag no_flag (flags, has_no) = (flags, true)
apply_flag failure_flag (flags, has_no) = (bit_or flags on_failure, has_no)
apply_flag success_flag (flags, has_no) = (bit_or flags on_success, has_no)
apply_flag unhealthy_flag (flags, has_no) = (bit_or flags on_unhealthy, has_no)
apply_flag always_flag (flags, has_no) = (bit_or flags always, has_no)

unfoldable pub parse_tokens : List Str → ℕ × Bool → Result PolicyError (ℕ × Bool)
parse_tokens [] acc = ok acc
parse_tokens (token ∷ tokens) acc = elim (flag_of token) [
  | some flag ↦ parse_tokens tokens (apply_flag flag acc)
  | none ↦ err (unknown_flag token)
]

policy_of : Result PolicyError (ℕ × Bool) → Result PolicyError RestartPolicy
policy_of (err e) = err e
policy_of (ok (flags, has_no)) =
    if has_no && not (eqb flags 0)
    then err no_combined
    else if has_no
    then ok (record { flags = 0 })
    else ok (record { flags = flags })

unfoldable pub tokens : Str → List Str
tokens s = map trim (split b'|' s)

unfoldable pub parse : Str → Result PolicyError RestartPolicy
unfolding policy_of parse_tokens apply_flag flag_of tokens
parse s = policy_of (parse_tokens (tokens s) (0, false))

unfoldable pub to_string_repr : RestartPolicy → Str
unfolding has is_no
to_string_repr p =
    if is_no p
    then codes "no"
    else if eqb p.flags always
    then codes "always"
    else join b'|' (
        (if has p on_failure then codes "on-failure" ∷ [] else [])
        ++ ((if has p on_success then codes "on-success" ∷ [] else [])
            ++ (if has p on_unhealthy then codes "on-unhealthy" ∷ [] else [])))
