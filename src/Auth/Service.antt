-- ===== src/Auth/Service.antt =====
-- app/auth/service.py: `AuthService` over the in-memory accounts. What it asks of the language and of
-- app/auth/passwords.py is an argument: see `Environment`. What the clock, `uuid4` and
-- `token_urlsafe` give one call are its draws; times are microseconds.
pub mod Calls
pub mod Resolving
pub mod Sessions
use mini_alpha.Auth.Accounts.{
  Account, AccountCredentials, Accounts, create_account, get_credentials, create_session,
  get_account_by_session, delete_session,
}
use mini_alpha.Common.{
  ℕ, ◌+◌, ◌*◌, String, Bool, true, false, Option, none, some, ◌==◌, string_eq, leb, length,
  if◌then◌else◌, ◌&&◌,
}
use mini_alpha.Common.Value.{codes}

pub record Environment : Type 0 where
  -- `email.strip().casefold()`, and the pattern of an address
  pub fold : String → String
  pub is_address : String → Bool
  -- `" ".join(name.split())`
  pub compact : String → String
  pub hash_password : String → String
  pub verify_password : String → String → Bool
  pub dummy_hash : String
  -- the SHA-256 digest of a token, as a number
  pub digest : String → ℕ

pub record Draws : Type 0 where
  pub user_id : ℕ
  pub token : String
  -- the clock of the service, and of the repository a moment later
  pub now : ℕ
  pub later : ℕ

pub record AuthService : Type 0 where
  pub session_ttl_seconds : ℕ
  pub single_user : Bool

-- `ValueError`, `InvalidCredentialsError` and `EmailAlreadyRegisteredError`
pub data AuthError : Type 0 where
  invalid_value invalid_credentials email_taken : AuthError

pub data Grant : Type 0 where
  granted : Account → String → Grant
  denied : AuthError → Grant

abbrev pub local_email : String
local_email = "local@minialpha.invalid"

abbrev between : ℕ → ℕ → String → Bool
between low high t = leb low (length (codes t)) && leb (length (codes t)) high

unfoldable pub is_password : String → Bool
is_password password = between 12 128 password

unfoldable pub is_display_name : String → Bool
is_display_name normalized = between 1 80 normalized

module _ (env : Environment) (service : AuthService) where
  open env use {fold, is_address, compact, hash_password, verify_password, dummy_hash, digest}

  unfoldable pub is_email : String → Bool
  is_email normalized = leb (length (codes normalized)) 254 && is_address normalized

  abbrev pub expiry : Draws → ℕ
  expiry draws = draws.now + service.session_ttl_seconds * 1000000

  -- `_create_session`
  unfoldable pub open_session : Draws → Account → Accounts → Grant × Accounts
  open_session draws account s = (
    granted account draws.token,
    create_session draws.later account.user_id (digest draws.token) (expiry draws) s,
  )

  abbrev pub opened : Draws → Option Account × Accounts → Grant × Accounts
  opened draws (none, s) = (denied email_taken, s)
  opened draws (some account, s) = open_session draws account s

  unfoldable pub register : Draws → String → String → String → Accounts → Grant × Accounts
  register draws email display_name password s =
      if is_password password
      then (if is_email (fold email)
          then (if is_display_name (compact display_name)
              then opened draws (
                  create_account draws.user_id draws.now (fold email) (compact display_name)
                    (hash_password password) s)
              else (denied invalid_value, s))
          else (denied invalid_value, s))
      else (denied invalid_value, s)

  abbrev pub encoded : Option AccountCredentials → String
  encoded none = dummy_hash
  encoded (some known) = known.password_hash

  -- The password is verified whether there is an account or not.
  abbrev pub checked : Draws → Bool → Option AccountCredentials → Accounts → Grant × Accounts
  checked draws valid none s = (denied invalid_credentials, s)
  checked draws valid (some known) s =
      if valid then open_session draws known.account s else (denied invalid_credentials, s)

  unfoldable pub login : Draws → String → String → Accounts → Grant × Accounts
  login draws email password s =
      let known = get_credentials (fold email) s in
      if is_email (fold email)
      then (if is_password password
          then checked draws (verify_password password (encoded known)) known s
          else (denied invalid_value, s))
      else (denied invalid_value, s)

  abbrev account_in : Option AccountCredentials → Option Account
  account_in none = none
  account_in (some known) = some known.account

  -- The answer to a registration of the local account that another request may have won
  abbrev raced : Option Account × Accounts → Option Account × Accounts
  raced (some account, s) = (some account, s)
  raced (none, s) = (account_in (get_credentials local_email s), s)

  -- `_local_account`; none where it raises
  unfoldable pub local_account : Draws → Accounts → Option Account × Accounts
  local_account draws s = elim (get_credentials local_email s) [
    | some known ↦ (some known.account, s)
    | none ↦ raced (
        create_account draws.user_id draws.now local_email "Local workspace"
          (hash_password draws.token) s)
  ]

  abbrev pub resolve_token : Draws → Option String → Accounts → Option Account × Accounts
  resolve_token draws none s = (none, s)
  resolve_token draws (some token) s =
      if token == "" then (none, s) else get_account_by_session (digest token) draws.now s

  unfoldable pub resolve_session : Draws → Option String → Accounts → Option Account × Accounts
  unfolding local_account
  resolve_session draws token s =
      if service.single_user then local_account draws s else resolve_token draws token s

  unfoldable pub logout : Option String → Accounts → Accounts
  logout none s = s
  logout (some token) s = if token == "" then s else delete_session (digest token) s
