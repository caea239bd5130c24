-- ===== src/Access/Acl/Laws.antt =====
-- What the access control of kepler-daemon/src/acl.rs promises.
use kepler.Prelude.{
  ℕ, ◌≡◌, refl, sym, ◌∙◌, String, Bool, true, false, ◌||◌, Option, none, some, List, [], ◌∷◌, ◌++◌,
  if◌then◌else◌, arith, eqb, contains, contains-append, contains-intersection, intersection, opt_eq,
  string_eq, nat_eq, Option-cases, Bool-cases, inl, inr,
}
use kepler.Prelude.Maps.{Map, lookup}
use kepler.Prelude.Result.{Result, ok, err}
use kepler.Access.Tokens.{TokenContext}
use kepler.Access.Auth.{token}
use kepler.Access.Acl.{
  ResolvedAcl, AclError, collect_groups, user_part, if_matched, group_has_status, opt_contains,
  collect_rights, has_read_access, token_rights_of, effective_rights,
}

-- Whether some rights were collected, and the right is among them.
abbrev pub granted_in : Option (List String) → String → Bool
granted_in none right = false
granted_in (some rights) right = contains rights right

-- Whether `status` is granted, where the rule of the user and what `collect_rights` gave are known.
abbrev pub granted_by : Option (List String) → Result AclError (Option (List String)) → Bool
granted_by user (err e) = opt_contains user "status"
granted_by user (ok rights) = granted_in rights "status"

collect_groups_status :
    (rules : Map ℕ (List String)) (gids : List ℕ) (matched : Bool) (rights : List String)
    → (contains rights "status" ≡ true → matched ≡ true)
    → granted_in (if_matched (collect_groups rules gids (matched, rights))) "status"
      ≡ (contains rights "status" || group_has_status rules gids)
unfolding collect_groups if_matched group_has_status
collect_groups_status rules [] matched rights h = ground (arith, h)
collect_groups_status rules (g ∷ gids) matched rights h = elim (Option-cases (lookup g rules)) [
  | inl e ↦
      rw (e, collect_groups, group_has_status) (collect_groups_status rules gids matched rights h)
  | inr (more, e) ↦
      rw (e, collect_groups, group_has_status)
        (collect_groups_status rules gids true (rights ++ more) (λ _. refl)
          ∙ ground (arith, contains-append rights more "status"))
]

status_in :
    (rules : Map ℕ (List String)) (gids : List ℕ) (user : Option (List String))
    → (if opt_contains user "status" then true else group_has_status rules gids)
      ≡ granted_in (if_matched (collect_groups rules gids (user_part user))) "status"
unfolding user_part contains
status_in rules gids none =
    ground (arith, collect_groups_status rules gids false [] (λ p. absurd (ground (arith, p))))
status_in rules gids (some rights) =
    ground (arith, collect_groups_status rules gids true rights (λ _. refl))

module _ (get_all_gids : ℕ → ℕ → Option (List ℕ)) where
  -- For every caller, `has_read_access` says yes exactly where `status` is among the rights that
  -- `collect_rights` gives, or where `collect_rights` fails, since the groups of the caller are not
  -- known, and the rule of the user has `status`.
  pub has_read_access-collect_rights :
      (acl : ResolvedAcl) (uid gid : ℕ)
      → has_read_access get_all_gids acl uid gid
        ≡ granted_by (lookup uid acl.user_rules) (collect_rights get_all_gids acl uid gid)
  unfolding collect_rights has_read_access
  has_read_access-collect_rights acl uid gid = elim (Option-cases (get_all_gids uid gid)) [
    | inl unknown ↦ rw (unknown, has_read_access, collect_rights) (ground arith)
    | inr (gids, e) ↦
        rw (e, has_read_access, collect_rights)
          (status_in acl.group_rules gids (lookup uid acl.user_rules))
  ]

  owner_rights :
      (uid gid : ℕ) (ctx : TokenContext) (owner_uid : Option ℕ) (acl : Option ResolvedAcl)
      → (eqb uid 0 || opt_eq (some uid) owner_uid) ≡ true
      → effective_rights get_all_gids (token uid gid ctx) owner_uid acl ≡ ok (some ctx.allow)
  unfolding effective_rights
  owner_rights uid gid ctx owner_uid acl own = rw (own, effective_rights) refl

  token_rights-listed :
      (allow rights : List String) (collected : Result AclError (Option (List String)))
      → token_rights_of get_all_gids allow collected ≡ ok (some rights)
      → (listed : List String) × (collected ≡ ok (some listed))
        × (rights ≡ intersection allow listed)
  unfolding token_rights_of
  token_rights-listed allow rights (err x) e = absurd (ground (arith, e))
  token_rights-listed allow rights (ok none) e = absurd (ground (arith, e))
  token_rights-listed allow rights (ok (some listed)) e = (listed, refl, ground (arith, e))

  listed_rights :
      (uid gid : ℕ) (ctx : TokenContext) (owner_uid : Option ℕ) (acl : Option ResolvedAcl)
      (rights : List String)
      → (eqb uid 0 || opt_eq (some uid) owner_uid) ≡ false
      → effective_rights get_all_gids (token uid gid ctx) owner_uid acl ≡ ok (some rights)
      → (rules : ResolvedAcl) × (listed : List String) × (acl ≡ some rules)
        × (collect_rights get_all_gids rules uid gid ≡ ok (some listed))
        × (rights ≡ intersection ctx.allow listed)
  unfolding effective_rights
  listed_rights uid gid ctx owner_uid none rights other e =
      absurd (ground (arith, rw (other, effective_rights) at e))
  listed_rights uid gid ctx owner_uid (some rules) rights other e =
      let (listed, c, same) =
        token_rights-listed ctx.allow rights (collect_rights get_all_gids rules uid gid)
          (rw (other, effective_rights) at e) in
      (rules, listed, refl, c, same)

  -- A token never has more rights than it was given.
  pub effective_rights-allow :
      (uid gid : ℕ) (ctx : TokenContext) (owner_uid : Option ℕ) (acl : Option ResolvedAcl)
      (rights : List String) (right : String)
      → effective_rights get_all_gids (token uid gid ctx) owner_uid acl ≡ ok (some rights)
      → contains rights right ≡ true
      → contains ctx.allow right ≡ true
  effective_rights-allow uid gid ctx owner_uid acl rights right e k =
      elim (Bool-cases (eqb uid 0 || opt_eq (some uid) owner_uid)) [
        | inl own ↦ ground (arith, k, sym (owner_rights uid gid ctx owner_uid acl own) ∙ e)
        | inr other ↦
            let (rules, listed, a, c, same) =
              listed_rights uid gid ctx owner_uid acl rights other e in
            ground (arith, k, same, contains-intersection ctx.allow listed right)
      ]

  -- For a caller who neither is root nor owns the config, a token gives no more rights than the
  -- access control list gives to that caller.
  pub effective_rights-collect_rights :
      (uid gid : ℕ) (ctx : TokenContext) (owner_uid : Option ℕ) (acl : Option ResolvedAcl)
      (rights : List String) (right : String)
      → effective_rights get_all_gids (token uid gid ctx) owner_uid acl ≡ ok (some rights)
      → contains rights right ≡ true
      → (eqb uid 0 || opt_eq (some uid) owner_uid) ≡ false
      → (rules : ResolvedAcl) × (listed : List String) × (acl ≡ some rules)
        × (collect_rights get_all_gids rules uid gid ≡ ok (some listed))
        × (contains listed right ≡ true)
  effective_rights-collect_rights uid gid ctx owner_uid acl rights right e k other =
      let (rules, listed, a, c, same) = listed_rights uid gid ctx owner_uid acl rights other e in
      (rules, listed, a, c, ground (arith, k, same, contains-intersection ctx.allow listed right))
