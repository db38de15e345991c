-- ===== src/Auth/Service/Resolving.antt =====
-- What a token that app/auth/service.py handed out resolves to.
use mini_alpha.Auth.Accounts.Invariant.{IsValid, account_of-known}
use mini_alpha.Auth.Accounts.{
  Account, AccountCredentials, Accounts, create_account, get_account_by_session, delete_session,
}
use mini_alpha.Auth.Service.{Environment, AuthService, Draws, resolve_session, logout}
use mini_alpha.Common.{
  ℕ, ◌≤◌, ◌<◌, ◌≡◌, refl, ap, ◌∙◌, String, true, false, none, some, ◌==◌, nat_eq, string_eq, leb,
  arith, Option-cases, inl, inr,
}
use mini_alpha.Common.Dict.{get, del, get-put_self, get-del}

pub created :
    (user_id now : ℕ) (email name hash : String) (s : Accounts) (a : Account)
    → (create_account user_id now email name hash s).0 ≡ some a
    → get email (create_account user_id now email name hash s).1.credentials
      ≡ some (record { account = a; password_hash = hash })
unfolding create_account
created user_id now email name hash s a h = elim (Option-cases (get email s.credentials)) [
  | inr (x, e) ↦ absurd (ground (arith, h, e))
  | inl e ↦
      let stored : AccountCredentials = record { account = a; password_hash = hash } in
      ground (arith, h, e, get-put_self email stored s.credentials)
]

pub was_free :
    (user_id now : ℕ) (email name hash : String) (s : Accounts) (a : Account)
    → (create_account user_id now email name hash s).0 ≡ some a
    → get email s.credentials ≡ none
unfolding create_account
was_free user_id now email name hash s a h = elim (Option-cases (get email s.credentials)) [
  | inr (x, e) ↦ absurd (ground (arith, h, e))
  | inl e ↦ e
]

module _ (env : Environment) (service : AuthService) where
  open env use {fold, compact, digest}

  -- A token stands for its account until it expires or is given back.
  pub record IsSession (token : String) (account : Account) (expires_at : ℕ) (s : Accounts)
      : Type 0 where
    pub live :
        (draws : Draws)
        → draws.now < expires_at
        → resolve_session env service draws (some token) s ≡ (some account, s)
    pub lapsed :
        (draws : Draws)
        → expires_at ≤ draws.now
        → (resolve_session env service draws (some token) s).0 ≡ none
    pub closed :
        (draws : Draws)
        → (resolve_session env service draws (some token) (logout env service (some token) s)).0
          ≡ none

  module _ (multi : service.single_user ≡ false) (draws : Draws)
      (named : (draws.token == "") ≡ false) where
    resolve-named :
        (d : Draws) (s : Accounts)
        → resolve_session env service d (some draws.token) s
          ≡ get_account_by_session (digest draws.token) d.now s
    unfolding resolve_session
    resolve-named d s = ground (arith, multi, named)

    logout-named :
        (s : Accounts)
        → logout env service (some draws.token) s ≡ delete_session (digest draws.token) s
    unfolding logout
    logout-named s = ground (arith, named)

    pub stored-IsSession :
        (email : String) (known : AccountCredentials) (expires_at : ℕ) (s : Accounts)
        → IsValid s
        → get email s.credentials ≡ some known
        → get (digest draws.token) s.sessions
          ≡ some (record { user_id = known.account.user_id; expires_at = expires_at })
        → IsSession draws.token known.account expires_at s
    unfolding get_account_by_session delete_session
    stored-IsSession email known expires_at s v there stored = record {
      live = λ d lt.
          let early : leb expires_at d.now ≡ false = ground (arith, lt) in
          resolve-named d s
          ∙ rw (get_account_by_session, stored, early, account_of-known email known s v there) refl;
      lapsed = λ d le.
          let late : leb expires_at d.now ≡ true = ground (arith, le) in
          ap (λ q. q.0) (resolve-named d s) ∙ rw (get_account_by_session, stored, late) refl;
      closed = λ d.
          let gone : get (digest draws.token) (del (digest draws.token) s.sessions) ≡ none =
            ground (
              arith,
              get-del (digest draws.token) (digest draws.token) s.sessions v.session_distinct,
            ) in
          ap (λ q. (resolve_session env service d (some draws.token) q).0) (logout-named s)
          ∙ ap (λ q. q.0) (resolve-named d (delete_session (digest draws.token) s))
          ∙ rw (get_account_by_session, gone) refl;
    }
