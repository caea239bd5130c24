-- ===== src/Tests/Rights.antt =====
-- The access control of kepler-daemon/src/acl.rs, auth.rs, permissions.rs and token_store.rs on
-- concrete rules.
use kepler.Prelude.{
  ℕ, ◌≡◌, ◌≢◌, refl, String, Bool, true, false, Option, none, some, List, [], ◌∷◌, contains, arith,
  string_eq, nat_eq, ◌==◌,
}
use kepler.Prelude.Maps.{lookup}
use kepler.Prelude.Result.{ok}
use kepler.Access.Rights.{stop, check_rights, expand_allow}
use kepler.Access.Rights.Laws.{IsKnown, expand_allow-IsKnown}
use kepler.Access.Tokens.{
  TokenContext, TokenStore, ServiceTokenGuard, guard_token, no_root, strict, below, get, revoke,
  new_guard, revoke_for_service,
}
use kepler.Access.Tokens.Laws.{new_guard-revoke}
use kepler.Access.Auth.{token, check_hardening_floor, check_privilege_escalation}
use kepler.Access.Auth.Laws.{check_hardening_floor-below, check_privilege_escalation_no_root}
use kepler.Access.Acl.{ResolvedAcl, collect_rights, has_read_access, effective_rights}
use kepler.Access.Acl.Laws.{
  granted_by, has_read_access-collect_rights, effective_rights-allow,
  effective_rights-collect_rights,
}

-- Every user is in one group besides the primary one.
abbrev groups : ℕ → ℕ → Option (List ℕ)
groups uid gid = some (gid ∷ 50 ∷ [])

abbrev rules : ResolvedAcl
rules = record {
  user_rules = (1000, "start" ∷ "stop" ∷ []) ∷ [];
  group_rules = (50, "status" ∷ []) ∷ [];
}

abbrev context : TokenContext
context = record {
  allow = "status" ∷ "run" ∷ [];
  max_hardening = no_root;
  service = "web";
  config_path = "/etc/app";
  authorizer = none;
}

token_rights :
    effective_rights groups (token 1000 1000 context) (some 1) (some rules)
    ≡ ok (some ("status" ∷ []))
unfolding effective_rights lookup contains
token_rights = refl

effective_rights-allow_example : contains {A = String} ("status" ∷ "run" ∷ []) "status" ≡ true
unfolding contains
effective_rights-allow_example =
    effective_rights-allow groups 1000 1000 context (some 1) (some rules) ("status" ∷ []) "status"
      token_rights refl

effective_rights-collect_rights_example :
    (found : ResolvedAcl) × (listed : List String) × (some rules ≡ some found)
    × (collect_rights groups found 1000 1000 ≡ ok (some listed))
    × (contains {A = String} listed "status" ≡ true)
unfolding contains
effective_rights-collect_rights_example =
    effective_rights-collect_rights groups 1000 1000 context (some 1) (some rules) ("status" ∷ [])
      "status" token_rights refl refl

has_read_access-collect_rights_example :
    has_read_access groups rules 1000 1000
    ≡ granted_by (lookup 1000 rules.user_rules) (collect_rights groups rules 1000 1000)
has_read_access-collect_rights_example = has_read_access-collect_rights groups rules 1000 1000

expanded :
    expand_allow ("ops" ∷ []) (("ops", "stop" ∷ "stop:clean" ∷ []) ∷ [])
    ≡ ok ("stop:clean" ∷ "stop" ∷ [])
unfolding expand_allow contains lookup
expanded = refl

expand_allow-IsKnown_example : IsKnown ("stop:clean" ∷ "stop" ∷ [])
expand_allow-IsKnown_example =
    expand_allow-IsKnown ("ops" ∷ []) (("ops", "stop" ∷ "stop:clean" ∷ []) ∷ [])
      ("stop:clean" ∷ "stop" ∷ []) expanded

stop_allowed : check_rights ("stop" ∷ "stop:clean" ∷ []) (stop true none) ≡ ok tt
unfolding check_rights contains
stop_allowed = refl

floor_met : check_hardening_floor context (some "strict") ≡ ok (some strict)
unfolding check_hardening_floor
floor_met = refl

check_hardening_floor-below_example : below strict no_root ≡ false
check_hardening_floor-below_example =
    check_hardening_floor-below context (some "strict") (some strict) floor_met

abbrev if_app : Bool → Option ℕ
if_app true = some 1000
if_app false = none

abbrev users : String → Option ℕ
users name = if_app (name == "app")

own_user : check_privilege_escalation users strict (some "app") (some 1000) ≡ ok tt
unfolding check_privilege_escalation
own_user = refl

check_privilege_escalation_no_root_example : ◌≢◌ {A = ℕ} 1000 0
check_privilege_escalation_no_root_example =
    check_privilege_escalation_no_root users strict "app" 1000 1000 (ground arith) (omega arith)
      refl own_user

new_guard-revoke_example :
    (guard : ServiceTokenGuard) × (store' : TokenStore) × (new_guard (some 5) context []
      ≡ (some guard, store'))
    × (guard_token guard ≡ some 5)
    × (guard.service ≡ context.service)
    × (get store' 5 ≡ some context)
    × (get (revoke guard store') 5 ≡ get [] 5)
unfolding get
new_guard-revoke_example = new_guard-revoke [] 5 5 context refl

kept_token : get (revoke_for_service "/etc/app" "db" ((5, context) ∷ [])) 5 ≡ some context
unfolding get revoke_for_service
kept_token = refl
