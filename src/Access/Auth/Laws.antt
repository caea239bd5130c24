-- ===== src/Access/Auth/Laws.antt =====
-- What the hardening checks of kepler-daemon/src/auth.rs promise.
use kepler.Prelude.{
  ℕ, ◌≡◌, ◌≢◌, refl, String, false, Option, none, some, arith, Option-cases, Bool-cases, inl, inr,
}
use kepler.Prelude.Result.{ok}
use kepler.Access.Tokens.{
  HardeningLevel, no_hardening, no_root, strict, below, parse_level, TokenContext,
}
use kepler.Access.Auth.{
  check_hardening_floor, by_floor, floored, at_least, check_privilege_escalation, check_owner,
  check_spec, check_resolved,
}

-- The level that a request without a level of its own gets is no hardening.
abbrev pub level_or_none : Option HardeningLevel → HardeningLevel
level_or_none none = no_hardening
level_or_none (some level) = level

level_is_at_least :
    (floor l : HardeningLevel) (level : Option HardeningLevel)
    → at_least floor (ok l) ≡ ok level
    → below (level_or_none level) floor ≡ false
unfolding at_least
level_is_at_least floor l level e = elim (Bool-cases (below l floor)) [
  | inl b ↦ absurd (ground (arith, rw (b, at_least) at e))
  | inr b ↦ ground (arith, b, rw (b, at_least) at e)
]

never_below : (level : HardeningLevel) → below level level ≡ false
unfolding below
never_below level = ground arith

never_below_none : (level : HardeningLevel) → below level no_hardening ≡ false
unfolding below
never_below_none level = ground arith

floored-below :
    (floor : HardeningLevel) (requested : Option String) (level : Option HardeningLevel)
    → floored floor requested ≡ ok level
    → below (level_or_none level) floor ≡ false
unfolding floored
floored-below floor none level e = ground (arith, e, never_below floor)
floored-below floor (some s) level e = elim (Option-cases (parse_level s)) [
  | inl p ↦ absurd (ground (arith, rw (p, floored) at e))
  | inr (l, p) ↦ level_is_at_least floor l level (rw (p, floored) at e)
]

floor_holds :
    (floor : HardeningLevel) (requested : Option String) (level : Option HardeningLevel)
    → by_floor floor requested ≡ ok level
    → below (level_or_none level) floor ≡ false
unfolding by_floor
floor_holds no_hardening requested level e = never_below_none (level_or_none level)
floor_holds no_root requested level e = floored-below no_root requested level e
floor_holds strict requested level e = floored-below strict requested level e

-- What `check_hardening_floor` allows is never below the floor of the token.
pub check_hardening_floor-below :
    (ctx : TokenContext) (requested : Option String) (level : Option HardeningLevel)
    → check_hardening_floor ctx requested ≡ ok level
    → below (level_or_none level) ctx.max_hardening ≡ false
unfolding check_hardening_floor
check_hardening_floor-below ctx requested level e = floor_holds ctx.max_hardening requested level e

owner_monotone :
    (resolve_user : String → Option ℕ) (user_spec : Option String) (owner_uid : Option ℕ)
    → check_owner resolve_user strict user_spec owner_uid ≡ ok tt
    → check_owner resolve_user no_root user_spec owner_uid ≡ ok tt
unfolding check_owner check_spec check_resolved
owner_monotone resolve_user user_spec none e = refl
owner_monotone resolve_user none (some owner) e = ground arith
owner_monotone resolve_user (some spec) (some owner) e = elim (Option-cases (resolve_user spec)) [
  | inl p ↦ ground (arith, p, e)
  | inr (uid, p) ↦ ground (arith, p, e)
]

-- A privilege check that a stricter level lets pass, a laxer level lets pass too.
pub check_privilege_escalation_monotone :
    (resolve_user : String → Option ℕ) (lax hard : HardeningLevel) (user_spec : Option String)
    (owner_uid : Option ℕ)
    → below hard lax ≡ false
    → check_privilege_escalation resolve_user hard user_spec owner_uid ≡ ok tt
    → check_privilege_escalation resolve_user lax user_spec owner_uid ≡ ok tt
unfolding check_privilege_escalation below
check_privilege_escalation_monotone resolve_user no_hardening hard user_spec owner_uid h e = refl
check_privilege_escalation_monotone resolve_user no_root no_hardening user_spec owner_uid h e =
    absurd (ground (arith, h))
check_privilege_escalation_monotone resolve_user no_root no_root user_spec owner_uid h e = e
check_privilege_escalation_monotone resolve_user no_root strict user_spec owner_uid h e =
    owner_monotone resolve_user user_spec owner_uid e
check_privilege_escalation_monotone resolve_user strict no_hardening user_spec owner_uid h e =
    absurd (ground (arith, h))
check_privilege_escalation_monotone resolve_user strict no_root user_spec owner_uid h e =
    absurd (ground (arith, h))
check_privilege_escalation_monotone resolve_user strict strict user_spec owner_uid h e = e

-- With hardening, a service of a config that root does not own runs as root under no user spec that
-- the check lets pass.
pub check_privilege_escalation_no_root :
    (resolve_user : String → Option ℕ) (level : HardeningLevel) (spec : String) (owner uid : ℕ)
    → level ≢ no_hardening
    → owner ≢ 0
    → resolve_user spec ≡ some uid
    → check_privilege_escalation resolve_user level (some spec) (some owner) ≡ ok tt
    → uid ≢ 0
unfolding check_privilege_escalation check_owner check_spec check_resolved
check_privilege_escalation_no_root resolve_user no_hardening spec owner uid h o r e =
    absurd (h refl)
check_privilege_escalation_no_root resolve_user no_root spec owner uid h o r e =
    ground (arith, o, r, e)
check_privilege_escalation_no_root resolve_user strict spec owner uid h o r e =
    ground (arith, o, r, e)
