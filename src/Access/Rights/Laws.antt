-- ===== src/Access/Rights/Laws.antt =====
-- What the rights of kepler-daemon/src/permissions.rs promise.
use kepler.Prelude.{
  ℕ, zero, suc, ◌≡◌, refl, ◌∙◌, String, Bool, true, ◌&&◌, ◌||◌, Option, none, some, List, [], ◌∷◌,
  ◌++◌, arith, contains, contains-append, all, string_eq, Option-cases, Bool-cases, inl, inr, ◌↔◌,
}
use mathlib.Core.Path.{subst}
use kepler.Prelude.Maps.{Map, lookup}
use kepler.Prelude.Result.{Result, ok, Result-cases}
use kepler.Access.Rights.{
  RequiredRights, Request, RightsError, all_rights, builtin_aliases, base_rights, sub_rights,
  find_right, intern_right, required_rights, check_sub_rights, check_required, check_rights,
  resolve_each, resolve_user, resolve_entry, resolve_alias_entry, resolve_aliases, validate_rights,
  expand_allow,
}

-- Every right of the list is one of `ALL_RIGHTS`.
abbrev pub IsKnown : List String → Type 0
IsKnown rights = (r : String) → contains rights r ≡ true → contains all_rights r ≡ true

find_right-contains :
    (rights : List String) (right r : String)
    → find_right rights right ≡ some r
    → contains rights r ≡ true
unfolding find_right contains
find_right-contains [] right r e = absurd (ground (arith, e))
find_right-contains (x ∷ rights) right r e =
    ground (arith, e, string_eq.beq_iff x r, find_right-contains rights right r)

sum_known : (r : String) → contains all_rights r ≡ (contains base_rights r || contains sub_rights r)
unfolding all_rights
sum_known r = contains-append base_rights sub_rights r

found : Option String → List String → String → Option String
found first rights right = elim first [ some r ↦ some r | none ↦ find_right rights right ]

found-contains :
    (left right : List String) (entry r : String)
    → found (find_right left entry) right entry ≡ some r
    → (contains left r || contains right r) ≡ true
unfolding found
found-contains left right entry r e =
    ground (arith, e, find_right-contains left entry r, find_right-contains right entry r)

interns :
    (entry : String) → found (find_right base_rights entry) sub_rights entry ≡ intern_right entry
unfolding found intern_right
interns entry = refl

intern_right-known : (entry r : String) → intern_right entry ≡ some r → contains all_rights r ≡ true
intern_right-known entry r e =
    rw (sum_known r) (found-contains base_rights sub_rights entry r (interns entry ∙ e))

cons-IsKnown :
    (r : String) (result : List String)
    → contains all_rights r ≡ true
    → IsKnown result
    → IsKnown (r ∷ result)
unfolding contains
cons-IsKnown r result k h x e = ground (arith, e, h x, k, string_eq.beq_iff r x)

append-IsKnown :
    (expanded result : List String)
    → IsKnown expanded
    → IsKnown result
    → IsKnown (expanded ++ result)
append-IsKnown expanded result k h x e =
    ground (arith, e, h x, k x, contains-append expanded result x)

lookup_one :
    (k : String) (v : List String) (entry : String) (x : List String)
    → lookup entry ((k, v) ∷ []) ≡ some x
    → v ≡ x
unfolding lookup
lookup_one k v entry x e = ground (arith, e)

builtin-IsKnown :
    (entry : String) (expanded : List String)
    → lookup entry builtin_aliases ≡ some expanded
    → IsKnown expanded
unfolding builtin_aliases
builtin-IsKnown entry expanded e =
    subst IsKnown (lookup_one "all" all_rights entry expanded e) (λ r h. h)

-- What resolves an entry adds only rights that are known.
abbrev Keeps : (String → List String → Result RightsError (List String)) → Type 0
Keeps resolve =
    (entry : String) (result result' : List String)
    → IsKnown result
    → resolve entry result ≡ ok result'
    → IsKnown result'

resolve_each-IsKnown :
    (resolve : String → List String → Result RightsError (List String))
    → Keeps resolve
    → (entries result result' : List String) → IsKnown result
    → resolve_each resolve entries result ≡ ok result'
    → IsKnown result'
unfolding resolve_each
resolve_each-IsKnown resolve keeps [] result result' h e = ground (arith, e, h)
resolve_each-IsKnown resolve keeps (entry ∷ entries) result result' h e =
    elim (Result-cases (resolve entry result)) [
      | inl (x, f) ↦ absurd (ground (arith, f, e))
      | inr (next, f) ↦
          resolve_each-IsKnown resolve keeps entries next result' (keeps entry result next h f)
            (ground (arith, f, e))
    ]

ok_injective :
    {x y : List String} → ◌≡◌ {A = Result RightsError (List String)} (ok x) (ok y) → x ≡ y
ok_injective e = ground (arith, e)

resolve_user-IsKnown :
    (expand : List String → Result RightsError (List String)) (chain : List String) (entry : String)
    (found_entries : Option (List String)) (result' : List String)
    → ((entries : List String) → expand entries ≡ ok result' → IsKnown result')
    → resolve_user expand chain entry found_entries ≡ ok result'
    → IsKnown result'
unfolding resolve_user
resolve_user-IsKnown expand chain entry none result' g e = absurd (ground (arith, e))
resolve_user-IsKnown expand chain entry (some entries) result' g e =
    elim (Bool-cases (contains chain entry)) [
      | inl c ↦ absurd (ground (arith, c, e))
      | inr c ↦ g entries (ground (arith, c, e))
    ]

resolve_entry-IsKnown :
    (expand : List String → Result RightsError (List String))
    (user_aliases : Map String (List String)) (chain : List String) (entry : String)
    (result result' : List String)
    → ((entries : List String) → expand entries ≡ ok result' → IsKnown result')
    → IsKnown result
    → resolve_entry expand user_aliases chain entry result ≡ ok result'
    → IsKnown result'
unfolding resolve_entry
resolve_entry-IsKnown expand user_aliases chain entry result result' g h e =
    elim (Option-cases (intern_right entry)) [
      | inr (r, p) ↦
          subst IsKnown (ok_injective (rw (p, resolve_entry) at e))
            (cons-IsKnown r result (intern_right-known entry r p) h)
      | inl p ↦ elim (Option-cases (lookup entry builtin_aliases)) [
        | inr (expanded, q) ↦
            subst IsKnown (ok_injective (rw (p, resolve_entry, q) at e))
              (append-IsKnown expanded result (builtin-IsKnown entry expanded q) h)
        | inl q ↦
            resolve_user-IsKnown expand chain entry (lookup entry user_aliases) result' g
              (rw (p, resolve_entry, q) at e)
      ]
    ]

resolve_alias_entry-IsKnown :
    (left : ℕ) (user_aliases : Map String (List String)) (chain : List String)
    → Keeps (resolve_alias_entry left user_aliases chain)
unfolding resolve_alias_entry
resolve_alias_entry-IsKnown zero user_aliases chain entry result result' h e =
    resolve_entry-IsKnown _ user_aliases chain entry result result'
      (λ entries f. absurd (ground (arith, f))) h e
resolve_alias_entry-IsKnown (suc left) user_aliases chain entry result result' h e =
    resolve_entry-IsKnown _ user_aliases chain entry result result'
      (λ entries f.
        resolve_each-IsKnown (resolve_alias_entry left user_aliases (chain ++ entry ∷ []))
          (resolve_alias_entry-IsKnown left user_aliases (chain ++ entry ∷ [])) entries result
          result' h f)
      h e

-- The rights that a request needs are all granted.
abbrev pub grants : List String → Option RequiredRights → Bool
grants granted none = true
grants granted (some r) = contains granted r.base && all (contains granted) r.sub

sub_rights_iff :
    (granted subs : List String)
    → (check_sub_rights granted subs ≡ ok tt) ↔ (all (contains granted) subs ≡ true)
unfolding check_sub_rights all
sub_rights_iff granted [] = ground arith
sub_rights_iff granted (sub ∷ subs) = ground (arith, sub_rights_iff granted subs)

required_iff :
    (granted : List String) (required : Option RequiredRights)
    → (check_required granted required ≡ ok tt) ↔ (grants granted required ≡ true)
unfolding check_required
required_iff granted none = ground arith
required_iff granted (some r) = ground (arith, sub_rights_iff granted r.sub)

all_monotone :
    (granted more subs : List String)
    → ((r : String) → contains granted r ≡ true → contains more r ≡ true)
    → all (contains granted) subs ≡ true
    → all (contains more) subs ≡ true
unfolding all
all_monotone granted more [] h e = refl
all_monotone granted more (sub ∷ subs) h e =
    ground (arith, h sub, e, all_monotone granted more subs h)

grants_monotone :
    (granted more : List String) (required : Option RequiredRights)
    → ((r : String) → contains granted r ≡ true → contains more r ≡ true)
    → grants granted required ≡ true
    → grants more required ≡ true
grants_monotone granted more none h e = refl
grants_monotone granted more (some r) h e =
    ground (arith, h r.base, e, all_monotone granted more r.sub h)

-- Where an `allow` list expands, every right of the result is one of `ALL_RIGHTS`, whatever the
-- user's aliases are.
pub expand_allow-IsKnown :
    (allow : List String) (user_aliases : Map String (List String)) (rights : List String)
    → expand_allow allow user_aliases ≡ ok rights
    → IsKnown rights
unfolding expand_allow resolve_aliases
expand_allow-IsKnown allow user_aliases rights e =
    elim (Result-cases (validate_rights allow user_aliases)) [
      | inl (x, f) ↦ absurd (ground (arith, f, e))
      | inr (_, f) ↦
          resolve_each-IsKnown (resolve_alias_entry 2 user_aliases [])
            (resolve_alias_entry-IsKnown 2 user_aliases []) allow [] rights
            (λ r p. absurd (unfold contains in ground (arith, p))) (rw (f, expand_allow) at e)
    ]

-- `check_rights` lets a request pass exactly where its base right and all its sub-rights are granted,
-- or it needs none.
pub check_rights_iff :
    (granted : List String) (request : Request)
    → (check_rights granted request ≡ ok tt) ↔ (grants granted (required_rights request) ≡ true)
unfolding check_rights check_required
check_rights_iff granted request = required_iff granted (required_rights request)

-- More rights let no fewer requests pass.
pub check_rights_monotone :
    (granted more : List String) (request : Request)
    → ((r : String) → contains granted r ≡ true → contains more r ≡ true)
    → check_rights granted request ≡ ok tt
    → check_rights more request ≡ ok tt
check_rights_monotone granted more request h e = (check_rights_iff more request).1 (
    grants_monotone granted more (required_rights request) h
      ((check_rights_iff granted request).0 e))
