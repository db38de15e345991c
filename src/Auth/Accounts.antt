-- ===== src/Auth/Accounts.antt =====
-- app/auth/memory.py: `InMemoryAccountRepository`, with the records of app/auth/models.py. A method runs
-- under the repository's lock, so it is one step. A token's hash is the number of its bytes; `now` and
-- `user_id` are what the clock and `uuid4` give the call.
pub mod Invariant
pub mod Held
use mini_alpha.Common.{
  ℕ, String, Bool, true, false, Option, none, some, List, [], ◌∷◌, ◌==◌, nat_eq, string_eq, ltb,
  leb, if◌then◌else◌,
}
use mini_alpha.Common.Dict.{Dict, get, put, del}

pub record Account : Type 0 where
  pub user_id : ℕ
  pub email : String
  pub display_name : String
  pub created_at : ℕ

pub record AccountCredentials : Type 0 where
  pub account : Account
  pub password_hash : String

-- The user of a session, and when it expires
pub record Session : Type 0 where
  pub user_id : ℕ
  pub expires_at : ℕ

pub record Accounts : Type 0 where
  pub credentials : Dict String AccountCredentials
  pub sessions : Dict ℕ Session

abbrev pub empty : Accounts
empty = record { credentials = []; sessions = [] }

-- The account, or none for `EmailAlreadyRegisteredError`
unfoldable pub create_account :
    ℕ → ℕ → String → String → String → Accounts → Option Account × Accounts
create_account user_id now email display_name password_hash s = elim (get email s.credentials) [
  | some known ↦ (none, s)
  | none ↦
      let account : Account = record {
        user_id = user_id;
        email = email;
        display_name = display_name;
        created_at = now;
      } in
      (
        some account,
        record s {
          credentials =
              put email (record { account = account; password_hash = password_hash }) s.credentials;
        },
      )
]

unfoldable pub get_credentials : String → Accounts → Option AccountCredentials
get_credentials email s = get email s.credentials

unfoldable pub live_sessions : ℕ → Dict ℕ Session → Dict ℕ Session
live_sessions now [] = []
live_sessions now ((token, session) ∷ sessions) =
    if ltb now session.expires_at
    then (token, session) ∷ live_sessions now sessions
    else live_sessions now sessions

unfoldable pub create_session : ℕ → ℕ → ℕ → ℕ → Accounts → Accounts
create_session now user_id token_hash expires_at s = record s {
  sessions =
      put token_hash (record { user_id = user_id; expires_at = expires_at })
        (live_sessions now s.sessions);
}

-- The first account with an id
unfoldable pub account_of : ℕ → Dict String AccountCredentials → Option Account
account_of user_id [] = none
account_of user_id ((email, known) ∷ credentials) =
    if known.account.user_id == user_id then some known.account else account_of user_id credentials

unfoldable pub get_account_by_session : ℕ → ℕ → Accounts → Option Account × Accounts
get_account_by_session token_hash now s = elim (get token_hash s.sessions) [
  | none ↦ (none, s)
  | some session ↦
      if leb session.expires_at now
      then (none, record s { sessions = del token_hash s.sessions })
      else (account_of session.user_id s.credentials, s)
]

-- `pop` of a key that may be missing
unfoldable pub delete_session : ℕ → Accounts → Accounts
delete_session token_hash s = record s { sessions = del token_hash s.sessions }
