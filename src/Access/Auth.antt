-- ===== src/Access/Auth.antt =====
-- kepler-daemon/src/auth.rs: who is at the other end of a connection, and the hardening checks. The
-- membership in a group (`uid_has_gid`) and the user database (`resolve_user`) are parameters.
pub mod Laws
use kepler.Prelude.{
  ℕ, String, Bool, true, false, not, ◌&&◌, ◌||◌, Option, none, some, List, if◌then◌else◌, eqb,
}
use kepler.Prelude.Result.{Result, ok, err}
use kepler.Access.Tokens.{
  HardeningLevel, no_hardening, no_root, strict, below, parse_level, TokenContext, TokenStore, get,
}

pub data AuthContext : Type 0 where
  root group : (uid gid : ℕ) → AuthContext
  token : (uid gid : ℕ) → TokenContext → AuthContext

-- The errors of this file, without their texts.
pub data AuthError : Type 0 where
  not_authorized : AuthError
  invalid_level : String → AuthError
  below_floor : (level floor : HardeningLevel) → AuthError
  unresolved_user : String → AuthError
  runs_as_root : String → AuthError
  not_owner : String → AuthError

token_context : TokenStore → Option ℕ → Option TokenContext
unfolding get
token_context store none = none
token_context store (some t) = get store t

unfoldable pub resolve_auth :
    (uid_has_gid : ℕ → ℕ → Bool)
    → Option ℕ
    → (uid gid kepler_gid : ℕ) → TokenStore
    → Result AuthError AuthContext
unfolding token_context
resolve_auth uid_has_gid presented uid gid kepler_gid store = elim (token_context store presented) [
  | some ctx ↦ ok (token uid gid ctx)
  | none ↦
      if eqb uid 0
      then ok (root uid gid)
      else if eqb gid kepler_gid || uid_has_gid uid kepler_gid
      then ok (group uid gid)
      else err not_authorized
]

parse_or : String → Option HardeningLevel → Result AuthError HardeningLevel
parse_or s none = err (invalid_level s)
parse_or s (some level) = ok level

-- `requested.map(parse).transpose()`
parse_requested : Option String → Result AuthError (Option HardeningLevel)
unfolding parse_or parse_level
parse_requested none = ok none
parse_requested (some s) = elim (parse_or s (parse_level s)) [
  | ok level ↦ ok (some level)
  | err e ↦ err e
]

at_least :
    HardeningLevel → Result AuthError HardeningLevel → Result AuthError (Option HardeningLevel)
unfolding below
at_least floor (err e) = err e
at_least floor (ok level) =
    if below level floor then err (below_floor level floor) else ok (some level)

floored : HardeningLevel → Option String → Result AuthError (Option HardeningLevel)
unfolding at_least parse_or parse_level
floored floor none = ok (some floor)
floored floor (some s) = at_least floor (parse_or s (parse_level s))

by_floor : HardeningLevel → Option String → Result AuthError (Option HardeningLevel)
unfolding parse_requested floored
by_floor no_hardening requested = parse_requested requested
by_floor no_root requested = floored no_root requested
by_floor strict requested = floored strict requested

unfoldable pub check_hardening_floor :
    TokenContext → Option String → Result AuthError (Option HardeningLevel)
unfolding by_floor
check_hardening_floor ctx requested = by_floor ctx.max_hardening requested

-- Of the resolved user, only the uid matters.
check_resolved : HardeningLevel → ℕ → String → ℕ → Result AuthError Unit
check_resolved no_hardening owner spec uid = ok tt
check_resolved no_root owner spec uid = if eqb uid 0 then err (runs_as_root spec) else ok tt
check_resolved strict owner spec uid = if eqb uid owner then ok tt else err (not_owner spec)

check_spec : (String → Option ℕ) → HardeningLevel → ℕ → Option String → Result AuthError Unit
unfolding check_resolved
check_spec resolve_user level owner none = ok tt
check_spec resolve_user level owner (some spec) = elim (resolve_user spec) [
  | none ↦ err (unresolved_user spec)
  | some uid ↦ check_resolved level owner spec uid
]

check_owner :
    (String → Option ℕ) → HardeningLevel → Option String → Option ℕ → Result AuthError Unit
unfolding check_spec
check_owner resolve_user level user_spec none = ok tt
check_owner resolve_user level user_spec (some owner) =
    if eqb owner 0 then ok tt else check_spec resolve_user level owner user_spec

-- `resolve_user spec` is the uid that the user database gives, or `none` for its error.
unfoldable pub check_privilege_escalation :
    (resolve_user : String → Option ℕ)
    → HardeningLevel
    → Option String
    → (owner_uid : Option ℕ) → Result AuthError Unit
unfolding check_owner
check_privilege_escalation resolve_user no_hardening user_spec owner_uid = ok tt
check_privilege_escalation resolve_user no_root user_spec owner_uid =
    check_owner resolve_user no_root user_spec owner_uid
check_privilege_escalation resolve_user strict user_spec owner_uid =
    check_owner resolve_user strict user_spec owner_uid
