-- ===== src/Auth/Service/Calls.antt =====
-- Calls of app/auth/service.py that come after a session was opened.
use mini_alpha.Auth.Accounts.Held.{
  IsHeld, create_account-IsHeld, create_session-IsHeld, delete_session-IsHeld,
  get_account_by_session-IsHeld,
}
use mini_alpha.Auth.Accounts.Invariant.{IsUnused}
use mini_alpha.Auth.Accounts.{
  Account, AccountCredentials, Accounts, Session, create_account, get_credentials,
}
use mini_alpha.Auth.Service.{
  Environment, AuthService, Draws, is_password, is_email, is_display_name, open_session, opened,
  register, checked, encoded, login, resolve_token, resolve_session, logout, expiry,
}
use mini_alpha.Common.{
  ℕ, ◌<◌, ◌≡◌, ◌≢◌, String, Bool, true, false, Option, none, some, List, [], ◌∷◌, ◌==◌, string_eq,
  Bool-cases, inl, inr,
}

pub data Call : Type 0 where
  registers : Draws → String → String → String → Call
  logs_in : Draws → String → String → Call
  resolves : Draws → Option String → Call
  logs_out : Option String → Call

module _ (env : Environment) (service : AuthService) where
  open env use {fold, digest}

  unfoldable pub perform : Call → Accounts → Accounts
  perform (registers draws email name password) s =
      (register env service draws email name password s).1
  perform (logs_in draws email password) s = (login env service draws email password s).1
  perform (resolves draws token) s = (resolve_session env service draws token s).1
  perform (logs_out token) s = logout env service token s

  unfoldable pub perform_all : List Call → Accounts → Accounts
  perform_all [] s = s
  perform_all (call ∷ calls) s = perform_all calls (perform call s)

  -- The call is made while the session lasts, draws an unused id and a token with another digest, and
  -- gives back no token with the digest of the session's.
  abbrev pub Spares : ℕ → ℕ → Call → Accounts → Type 0
  Spares hash expires_at (registers draws email name password) s =
      IsUnused draws.user_id s × (draws.later < expires_at) × (digest draws.token ≢ hash)
  Spares hash expires_at (logs_in draws email password) s =
      (draws.later < expires_at) × (digest draws.token ≢ hash)
  Spares hash expires_at (resolves draws token) s = draws.now < expires_at
  Spares hash expires_at (logs_out none) s = Unit
  Spares hash expires_at (logs_out (some token)) s = digest token ≢ hash

  abbrev pub AllSpare : ℕ → ℕ → List Call → Accounts → Type 0
  AllSpare hash expires_at [] s = Unit
  AllSpare hash expires_at (call ∷ calls) s =
      Spares hash expires_at call s × AllSpare hash expires_at calls (perform call s)

  module _ (multi : service.single_user ≡ false) (email : String) (known : AccountCredentials)
      (hash : ℕ) (session : Session) where
    opened-IsHeld :
        (draws : Draws) (o : Option Account) (s : Accounts)
        → draws.later < session.expires_at
        → digest draws.token ≢ hash
        → IsHeld email known hash session s
        → IsHeld email known hash session (opened env service draws (o, s)).1
    unfolding open_session
    opened-IsHeld draws none s lt ne held = held
    opened-IsHeld draws (some account) s lt ne held =
        create_session-IsHeld email known hash session s held draws.later account.user_id
          (digest draws.token) (expiry env service draws) lt ne

    checked-IsHeld :
        (draws : Draws) (valid : Bool) (o : Option AccountCredentials) (s : Accounts)
        → draws.later < session.expires_at
        → digest draws.token ≢ hash
        → IsHeld email known hash session s
        → IsHeld email known hash session (checked env service draws valid o s).1
    unfolding open_session
    checked-IsHeld draws valid none s lt ne held = held
    checked-IsHeld draws false (some found) s lt ne held = held
    checked-IsHeld draws true (some found) s lt ne held =
        create_session-IsHeld email known hash session s held draws.later found.account.user_id
          (digest draws.token) (expiry env service draws) lt ne

    register-IsHeld :
        (draws : Draws) (address name password : String) (s : Accounts)
        → IsUnused draws.user_id s
        → draws.later < session.expires_at
        → digest draws.token ≢ hash
        → IsHeld email known hash session s
        → IsHeld email known hash session (register env service draws address name password s).1
    unfolding register
    register-IsHeld draws address name password s unused lt ne held =
        elim (Bool-cases (is_password password)) [
          | inr p ↦ rw (register, p) held
          | inl p ↦ elim (Bool-cases (is_email env service (fold address))) [
            | inr e ↦ rw (register, p, e) held
            | inl e ↦ elim (Bool-cases (is_display_name (env.compact name))) [
              | inr d ↦ rw (register, p, e, d) held
              | inl d ↦
                  let created =
                    create_account draws.user_id draws.now (fold address) (env.compact name)
                      (env.hash_password password) s in
                  rw (register, p, e, d)
                    (opened-IsHeld draws created.0 created.1 lt ne (
                      create_account-IsHeld email known hash session s held draws.user_id draws.now
                        (fold address) (env.compact name) (env.hash_password password) unused))
            ]
          ]
        ]

    login-IsHeld :
        (draws : Draws) (address password : String) (s : Accounts)
        → draws.later < session.expires_at
        → digest draws.token ≢ hash
        → IsHeld email known hash session s
        → IsHeld email known hash session (login env service draws address password s).1
    unfolding login
    login-IsHeld draws address password s lt ne held =
        elim (Bool-cases (is_email env service (fold address))) [
          | inr e ↦ rw (login, e) held
          | inl e ↦ elim (Bool-cases (is_password password)) [
            | inr p ↦ rw (login, e, p) held
            | inl p ↦
                let found = get_credentials (fold address) s in
                rw (login, e, p)
                  (checked-IsHeld draws (env.verify_password password (encoded env service found))
                    found s lt ne held)
          ]
        ]

    resolve_token-IsHeld :
        (draws : Draws) (token : Option String) (s : Accounts)
        → draws.now < session.expires_at
        → IsHeld email known hash session s
        → IsHeld email known hash session (resolve_token env service draws token s).1
    resolve_token-IsHeld draws none s lt held = held
    resolve_token-IsHeld draws (some token) s lt held = elim (Bool-cases (token == "")) [
      | inl e ↦ rw e held
      | inr e ↦ rw e (
          get_account_by_session-IsHeld email known hash session s held (digest token) draws.now lt)
    ]

    perform-IsHeld :
        (call : Call) (s : Accounts)
        → Spares hash session.expires_at call s
        → IsHeld email known hash session s
        → IsHeld email known hash session (perform call s)
    unfolding perform resolve_session logout
    perform-IsHeld (registers draws address name password) s (unused, lt, ne) held =
        register-IsHeld draws address name password s unused lt ne held
    perform-IsHeld (logs_in draws address password) s (lt, ne) held =
        login-IsHeld draws address password s lt ne held
    perform-IsHeld (resolves draws token) s lt held =
        rw (resolve_session, multi) (resolve_token-IsHeld draws token s lt held)
    perform-IsHeld (logs_out none) s spares held = held
    perform-IsHeld (logs_out (some token)) s ne held = elim (Bool-cases (token == "")) [
      | inl e ↦ rw e held
      | inr e ↦ rw e (delete_session-IsHeld email known hash session s held (digest token) ne)
    ]

    -- A session outlives calls that spare it.
    pub perform_all-IsHeld :
        (calls : List Call) (s : Accounts)
        → AllSpare hash session.expires_at calls s
        → IsHeld email known hash session s
        → IsHeld email known hash session (perform_all calls s)
    unfolding perform_all
    perform_all-IsHeld [] s spare held = held
    perform_all-IsHeld (call ∷ calls) s (first, rest) held =
        perform_all-IsHeld calls (perform call s) rest (perform-IsHeld call s first held)
