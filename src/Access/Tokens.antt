-- ===== src/Access/Tokens.antt =====
-- kepler-daemon/src/token_store.rs: the tokens that are registered and what each allows, and
-- `HardeningLevel` of hardening.rs. A `Token` is its 32 bytes as one number.
pub mod Laws
use kepler.Prelude.{
  ℕ, String, Bool, true, false, not, ◌&&◌, Option, none, some, List, [], ◌∷◌, ◌++◌, if◌then◌else◌,
  retain, length, is_empty, ◌==◌, string_eq, nat_eq,
}
use kepler.Prelude.Result.{Result, ok, err}

pub data HardeningLevel : Type 0 where
  no_hardening no_root strict : HardeningLevel

-- The order of the variants
unfoldable pub below : HardeningLevel → HardeningLevel → Bool
below no_hardening no_hardening = false
below no_hardening _ = true
below no_root strict = true
below _ _ = false

-- `from_str`: `none` is the error
unfoldable pub parse_level : String → Option HardeningLevel
parse_level s =
    if s == "none"
    then some no_hardening
    else if s == "no-root"
    then some no_root
    else if s == "strict"
    then some strict
    else none

unfoldable pub show_level : HardeningLevel → String
show_level no_hardening = "none"
show_level no_root = "no-root"
show_level strict = "strict"

pub record TokenContext : Type 0 where
  pub allow : List String
  pub max_hardening : HardeningLevel
  pub service : String
  pub config_path : String
  pub authorizer : Option ℕ

abbrev pub TokenStore : Type 0
TokenStore = List (ℕ × TokenContext)

unfoldable pub register : ℕ → TokenContext → TokenStore → TokenStore
register token context store = store ++ (token, context) ∷ []

-- `get`: the first entry of the token
unfoldable pub get : TokenStore → ℕ → Option TokenContext
get [] token = none
get ((stored, context) ∷ store) token = if stored == token then some context else get store token

unfoldable pub revoke_for_service : String → String → TokenStore → TokenStore
unfolding retain
revoke_for_service config_path service store =
    retain (λ e. not (e.1.config_path == config_path && e.1.service == service)) store

unfoldable pub revoke_for_config : String → TokenStore → TokenStore
unfolding retain
revoke_for_config config_path store = retain (λ e. not (e.1.config_path == config_path)) store

-- The store is shared: it is passed to the operations of the guard.
pub record ServiceTokenGuard : Type 0 where
  pub token : Option ℕ
  pub service : String

-- `ServiceTokenGuard::new`, on what `Token::generate` gave; `none` is its error
unfoldable pub new_guard :
    Option ℕ → TokenContext → TokenStore → Option ServiceTokenGuard × TokenStore
unfolding register
new_guard none context store = (none, store)
new_guard (some token) context store =
    (some (record { token = some token; service = context.service }), register token context store)

-- `token`: `none` is the error "token already revoked"
unfoldable pub guard_token : ServiceTokenGuard → Option ℕ
guard_token guard = guard.token

-- `revoke`, and what `drop` does in the background
unfoldable pub revoke : ServiceTokenGuard → TokenStore → TokenStore
unfolding retain
revoke guard store = elim guard.token [
  | none ↦ store
  | some token ↦ retain (λ e. not (e.0 == token)) store
]
