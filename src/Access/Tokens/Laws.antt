-- ===== src/Access/Tokens/Laws.antt =====
-- Registering and revoking tokens (kepler-daemon/src/token_store.rs).
use kepler.Prelude.{
  ℕ, ◌≡◌, refl, String, false, not, ◌&&◌, none, some, [], ◌∷◌, if◌then◌else◌, arith, retain, ◌==◌,
  string_eq, nat_eq,
}
use kepler.Access.Tokens.{
  HardeningLevel, no_hardening, no_root, strict, parse_level, show_level, TokenContext, TokenStore,
  ServiceTokenGuard, guard_token, register, get, new_guard, revoke, revoke_for_service,
}

-- Every hardening level is read back from its text.
pub parse_level-show_level : (level : HardeningLevel) → parse_level (show_level level) ≡ some level
unfolding parse_level show_level
parse_level-show_level no_hardening = refl
parse_level-show_level no_root = refl
parse_level-show_level strict = refl

get-register :
    (store : TokenStore) (token other : ℕ) (context : TokenContext)
    → get (register token context store) other ≡ elim (get store other) [
      | some c ↦ some c
      | none ↦ if token == other then some context else none
    ]
unfolding get register
get-register [] token other context = ground arith
get-register ((stored, c) ∷ store) token other context =
    ground (arith, get-register store token other context)

get-without :
    (store : TokenStore) (token other : ℕ)
    → get (retain (λ e. not (e.0 == token)) store) other
      ≡ (if token == other then none else get store other)
unfolding get retain
get-without [] token other = ground arith
get-without ((stored, c) ∷ store) token other = ground (arith, get-without store token other)

-- A token that is made gives a guard, which holds it. The store then knows the token with its context
-- and answers for every other token as before; and when the guard is revoked it answers as before for
-- every token, provided that it did not know the new one.
pub new_guard-revoke :
    (store : TokenStore) (token other : ℕ) (context : TokenContext)
    → get store token ≡ none
    → (guard : ServiceTokenGuard) × (store' : TokenStore) × (new_guard (some token) context store
        ≡ (some guard, store'))
      × (guard_token guard ≡ some token)
      × (guard.service ≡ context.service)
      × (get store' other ≡ (if token == other then some context else get store other))
      × (get (revoke guard store') other ≡ get store other)
unfolding revoke new_guard guard_token
new_guard-revoke store token other context h = (
  record { token = some token; service = context.service },
  register token context store,
  refl,
  refl,
  refl,
  ground (arith, h, get-register store token other context, nat_eq.beq_iff token other),
  ground (
    arith,
    h,
    nat_eq.beq_iff token other,
    get-without (register token context store) token other,
    get-register store token other context,
  ),
)

-- After `revoke_for_service`, no token is known whose context belongs to the service of the config.
pub revoke_for_service_lem :
    (config_path service : String) (store : TokenStore) (token : ℕ) (context : TokenContext)
    → get (revoke_for_service config_path service store) token ≡ some context
    → (context.config_path == config_path && context.service == service) ≡ false
unfolding get revoke_for_service retain
revoke_for_service_lem config_path service [] token context e = absurd (ground (arith, e))
revoke_for_service_lem config_path service ((stored, c) ∷ store) token context e =
    ground (arith, e, revoke_for_service_lem config_path service store token context)
