-- ===== src/Access/Acl.antt =====
-- kepler-daemon/src/acl.rs: the rights that an access control list gives to a caller. The group
-- database is a parameter: `get_all_gids uid gid` are the groups of the user, `none` its error.
pub mod Laws
use kepler.Prelude.{
  ℕ, String, Bool, true, false, ◌||◌, Option, none, some, List, [], ◌∷◌, ◌++◌, if◌then◌else◌, eqb,
  contains, intersection, opt_eq, string_eq, nat_eq,
}
use kepler.Prelude.Maps.{Map, lookup}
use kepler.Prelude.Result.{Result, ok, err}
use kepler.Access.Rights.{
  Request, RequiredRights, RightsError, required_rights, check_rights, all_rights,
}
use kepler.Access.Tokens.{TokenContext}
use kepler.Access.Auth.{AuthContext, root, group, token}

-- The rules of a `ResolvedAcl`. The authorizers, which are Lua code, are left out.
pub record ResolvedAcl : Type 0 where
  pub user_rules : Map ℕ (List String)
  pub group_rules : Map ℕ (List String)

pub data AclError : Type 0 where
  group_lookup_failed : AclError
  no_matching_rules : AclError
  denied : RightsError → AclError

-- The rights of the rules for these groups; the flag is `matched`.
collect_groups : Map ℕ (List String) → List ℕ → Bool × List String → Bool × List String
collect_groups rules [] (matched, rights) = (matched, rights)
collect_groups rules (g ∷ gids) (matched, rights) = elim (lookup g rules) [
  | none ↦ collect_groups rules gids (matched, rights)
  | some group_rights ↦ collect_groups rules gids (true, rights ++ group_rights)
]

user_part : Option (List String) → Bool × List String
user_part none = (false, [])
user_part (some rights) = (true, rights)

if_matched : Bool × List String → Option (List String)
if_matched (true, rights) = some rights
if_matched (false, rights) = none

group_has_status : Map ℕ (List String) → List ℕ → Bool
group_has_status rules [] = false
group_has_status rules (g ∷ gids) =
    let rest = group_has_status rules gids in
    elim (lookup g rules) [
      | none ↦ rest
      | some rights ↦ if contains rights "status" then true else rest
    ]

abbrev opt_contains : Option (List String) → String → Bool
opt_contains none right = false
opt_contains (some rights) right = contains rights right

module _ (get_all_gids : ℕ → ℕ → Option (List ℕ)) where
  unfoldable pub collect_rights : ResolvedAcl → ℕ → ℕ → Result AclError (Option (List String))
  unfolding collect_groups user_part if_matched
  collect_rights acl uid gid = elim (get_all_gids uid gid) [
    | none ↦ err group_lookup_failed
    | some gids ↦
        ok
          (if_matched (collect_groups acl.group_rules gids (user_part (lookup uid acl.user_rules))))
  ]

  unfoldable pub has_read_access : ResolvedAcl → ℕ → ℕ → Bool
  unfolding group_has_status
  has_read_access acl uid gid =
      if opt_contains (lookup uid acl.user_rules) "status"
      then true
      else elim (get_all_gids uid gid) [
        | none ↦ false
        | some gids ↦ group_has_status acl.group_rules gids
      ]

  deny_or_free : Option RequiredRights → Result AclError Unit
  deny_or_free none = ok tt
  deny_or_free (some _) = err no_matching_rules

  as_denied : Result RightsError Unit → Result AclError Unit
  as_denied (ok _) = ok tt
  as_denied (err e) = err (denied e)

  check_collected : Request → Result AclError (Option (List String)) → Result AclError Unit
  unfolding deny_or_free as_denied required_rights check_rights
  check_collected request (err e) = err e
  check_collected request (ok none) = deny_or_free (required_rights request)
  check_collected request (ok (some granted)) = as_denied (check_rights granted request)

  unfoldable pub check_access : ResolvedAcl → ℕ → ℕ → Request → Result AclError Unit
  unfolding check_collected collect_rights
  check_access acl uid gid request = check_collected request (collect_rights acl uid gid)

  group_rights_of : Result AclError (Option (List String)) → Result AclError (Option (List String))
  group_rights_of (err e) = err e
  group_rights_of (ok none) = ok (some [])
  group_rights_of (ok (some rights)) = ok (some rights)

  token_rights_of :
      List String → Result AclError (Option (List String)) → Result AclError (Option (List String))
  unfolding intersection
  token_rights_of allow (err e) = err e
  token_rights_of allow (ok none) = ok none
  token_rights_of allow (ok (some rights)) = ok (some (intersection allow rights))

  unfoldable pub effective_rights :
      AuthContext
      → (owner_uid : Option ℕ) → Option ResolvedAcl
      → Result AclError (Option (List String))
  unfolding group_rights_of token_rights_of collect_rights all_rights
  effective_rights (root uid gid) owner_uid acl = ok (some all_rights)
  effective_rights (group uid gid) owner_uid acl =
      if opt_eq (some uid) owner_uid then ok (some all_rights) else elim acl [
        | some rules ↦ group_rights_of (collect_rights rules uid gid)
        | none ↦ ok (some [])
      ]
  effective_rights (token uid gid ctx) owner_uid acl =
      if eqb uid 0 || opt_eq (some uid) owner_uid then ok (some ctx.allow) else elim acl [
        | some rules ↦ token_rights_of ctx.allow (collect_rights rules uid gid)
        | none ↦ ok none
      ]
