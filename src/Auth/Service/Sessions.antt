-- ===== src/Auth/Service/Sessions.antt =====
-- The life of a session of app/auth/service.py.
use mini_alpha.Auth.Accounts.Invariant.{
  IsValid, IsUnused, create_account-IsValid, create_session-IsValid,
}
use mini_alpha.Auth.Accounts.Held.{IsHeld}
use mini_alpha.Auth.Service.Calls.{Call, AllSpare, perform_all, perform_all-IsHeld}
use mini_alpha.Auth.Accounts.{
  Account, AccountCredentials, Accounts, create_account, get_credentials, create_session,
  live_sessions,
}
use mini_alpha.Auth.Service.Resolving.{IsSession, created, was_free, stored-IsSession}
use mini_alpha.Auth.Service.{
  Environment, AuthService, Draws, granted, is_password, is_email, is_display_name, expiry,
  open_session, opened, register, checked, encoded, login,
}
use mini_alpha.Common.{
  ◌≡◌, refl, ap, sym, ◌∙◌, subst, String, Bool, true, false, Option, none, some, List, ◌==◌, nat_eq,
  string_eq, arith, Bool-cases, inl, inr,
}
use mini_alpha.Common.Dict.{get, get-put_self}

module _ (env : Environment) (service : AuthService) where
  open env use {fold, compact, digest}

  module _ (multi : service.single_user ≡ false) (draws : Draws)
      (named : (draws.token == "") ≡ false) where
    open_session-IsSession :
        (email : String) (known : AccountCredentials) (s : Accounts)
        → IsValid s
        → get email s.credentials ≡ some known
        → IsSession env service draws.token known.account
            (expiry env service draws)
            (open_session env service draws known.account s).1
    unfolding open_session create_session
    open_session-IsSession email known s v there =
        stored-IsSession env service multi draws named email known (expiry env service draws) _
          (create_session-IsValid draws.later known.account.user_id (digest draws.token)
            (expiry env service draws) s v)
          there (get-put_self (digest draws.token) _ (live_sessions draws.later s.sessions))

    -- What a grant hands out: the token of a session for an account that is there
    pub record IsGranted (email : String) (account : Account) (token : String) (s : Accounts)
        : Type 0 where
      pub fresh : token ≡ draws.token
      pub known : AccountCredentials
      pub there : get (fold email) s.credentials ≡ some known
      pub same : known.account ≡ account
      pub session : IsSession env service token account (expiry env service draws) s

    -- The session that a grant opens for an account stands in valid tables.
    abbrev Holds : String → AccountCredentials → Accounts → Type 0
    Holds email known s =
        IsHeld (fold email) known (digest draws.token)
          (record { user_id = known.account.user_id; expires_at = expiry env service draws }) s

    open_session-IsGranted :
        (email : String) (known : AccountCredentials) (s : Accounts) (account : Account)
        (token : String)
        → IsValid s
        → get (fold email) s.credentials ≡ some known
        → (open_session env service draws known.account s).0 ≡ granted account token
        → (g : IsGranted email account token (open_session env service draws known.account s).1)
          × (g.known ≡ known)
          × Holds email g.known (open_session env service draws known.account s).1
    unfolding open_session create_session
    open_session-IsGranted email known s account token v there h =
        let fresh : token ≡ draws.token = ground (arith, h) in
        let same : known.account ≡ account = ground (arith, h) in
        (
          record {
            fresh = fresh;
            known = known;
            there = there;
            same = same;
            session =
                subst
                  (λ t.
                    IsSession env service t account (expiry env service draws)
                      (open_session env service draws known.account s).1)
                  (sym fresh)
                  (subst
                    (λ a.
                      IsSession env service draws.token a (expiry env service draws)
                        (open_session env service draws known.account s).1)
                    same (open_session-IsSession (fold email) known s v there));
          },
          refl,
          record {
            valid =
                create_session-IsValid draws.later known.account.user_id (digest draws.token)
                  (expiry env service draws) s v;
            there = there;
            stored = get-put_self (digest draws.token) _ (live_sessions draws.later s.sessions);
          },
        )

    checked-IsGranted :
        (email : String) (valid : Bool) (o : Option AccountCredentials) (s : Accounts)
        (account : Account) (token : String)
        → IsValid s
        → get (fold email) s.credentials ≡ o
        → (checked env service draws valid o s).0 ≡ granted account token
        → (g : IsGranted email account token (checked env service draws valid o s).1) × (some
              g.known
            ≡ o)
          × (valid ≡ true)
          × Holds email g.known (checked env service draws valid o s).1
    checked-IsGranted email valid none s account token v there h = absurd (ground (arith, h))
    checked-IsGranted email false (some known) s account token v there h =
        absurd (ground (arith, h))
    checked-IsGranted email true (some known) s account token v there h =
        let (g, same, held) = open_session-IsGranted email known s account token v there h in
        (g, ap some same, refl, held)

    login-Holds :
        (email password : String) (s : Accounts) (account : Account) (token : String)
        → IsValid s
        → (login env service draws email password s).0 ≡ granted account token
        → (g : IsGranted email account token (login env service draws email password s).1)
          × (env.verify_password password g.known.password_hash ≡ true)
          × Holds email g.known (login env service draws email password s).1
    unfolding login get_credentials
    login-Holds email password s account token v h =
        elim (Bool-cases (is_email env service (fold email))) [
          | inr e ↦ absurd (ground (arith, h, e))
          | inl e ↦ elim (Bool-cases (is_password password)) [
            | inr p ↦ absurd (ground (arith, h, e, p))
            | inl p ↦
                let o = get (fold email) s.credentials in
                let (g, found, valid, held) =
                  checked-IsGranted email (env.verify_password password (encoded env service o)) o s
                    account token v refl (rw (login, e, p) at h) in
                rw (login, e, p)
                  (
                    g,
                    ap (λ q. env.verify_password password (encoded env service q)) found ∙ valid,
                    held,
                  )
          ]
        ]

    -- A login of a service with many users that is granted, with valid tables and a token that is not
    -- empty, was given the password of the account under the address. After the login, and after any
    -- further registrations, logins, look-ups and logouts that are made while the session lasts, draw
    -- unused ids and tokens with other digests, and give back no token with this digest: the token
    -- resolves to that account until the session's time is over, to none from then on, and to none once
    -- it is given back.
    pub login-IsGranted :
        (email password : String) (s : Accounts) (account : Account) (token : String)
        (calls : List Call)
        → IsValid s
        → (login env service draws email password s).0 ≡ granted account token
        → AllSpare env service
            (digest token)
            (expiry env service draws)
            calls
            (login env service draws email password s).1
        → (g : IsGranted email account token (login env service draws email password s).1)
          × (env.verify_password password g.known.password_hash ≡ true)
          × IsSession env service token account
              (expiry env service draws)
              (perform_all env service calls (login env service draws email password s).1)
    login-IsGranted email password s account token calls v h spare =
        let (g, verified, held) = login-Holds email password s account token v h in
        let after = (login env service draws email password s).1 in
        let spared =
          subst (λ t. AllSpare env service (digest t) (expiry env service draws) calls after)
            g.fresh spare in
        let kept =
          perform_all-IsHeld env service multi (fold email) g.known (digest draws.token) _ calls
            after spared held in
        let session =
          stored-IsSession env service multi draws named (fold email) g.known
            (expiry env service draws) (perform_all env service calls after) kept.valid kept.there
            kept.stored in
        (
          g,
          verified,
          subst
              (λ t.
                IsSession env service t account (expiry env service draws)
                  (perform_all env service calls after))
              (sym g.fresh)
              (subst
                (λ a.
                  IsSession env service draws.token a (expiry env service draws)
                    (perform_all env service calls after))
                g.same session),
        )

    opened-IsGranted :
        (email hash : String) (o : Option Account) (s : Accounts) (account : Account)
        (token : String)
        → IsValid s
        → ((a : Account)
            → o ≡ some a
            → get (fold email) s.credentials ≡ some (record { account = a; password_hash = hash }))
        → (opened env service draws (o, s)).0 ≡ granted account token
        → (g : IsGranted email account token (opened env service draws (o, s)).1)
          × (g.known.password_hash ≡ hash)
          × IsValid (opened env service draws (o, s)).1
    unfolding open_session
    opened-IsGranted email hash none s account token v there h = absurd (ground (arith, h))
    opened-IsGranted email hash (some a) s account token v there h =
        let known : AccountCredentials = record { account = a; password_hash = hash } in
        let (g, same, held) =
          open_session-IsGranted email known s account token v (there a refl) h in
        (
          g,
          ap (λ (x : AccountCredentials). x.password_hash) same,
          create_session-IsValid draws.later a.user_id (digest draws.token)
              (expiry env service draws) s v,
        )

    opened-some :
        (o : Option Account) (s : Accounts) (account : Account) (token : String)
        → (opened env service draws (o, s)).0 ≡ granted account token
        → (a : Account) × (o ≡ some a)
    opened-some none s account token h = absurd (ground (arith, h))
    opened-some (some a) s account token h = (a, refl)

    -- A registration at a service with many users that is granted, with valid tables, an unused id and a
    -- token that is not empty, has found no account under the address, has stored the account there
    -- with the hash of the password, in valid tables; and its token resolves to that account until it
    -- expires or is given back, while nothing else is called.
    pub register-IsGranted :
        (email display_name password : String) (s : Accounts) (account : Account) (token : String)
        → IsValid s
        → IsUnused draws.user_id s
        → (register env service draws email display_name password s).0 ≡ granted account token
        → (g : IsGranted email account token
            (register env service draws email display_name password s).1)
          × (g.known.password_hash ≡ env.hash_password password)
          × (get (fold email) s.credentials ≡ none)
          × IsValid (register env service draws email display_name password s).1
    unfolding register
    register-IsGranted email display_name password s account token v unused h =
        elim (Bool-cases (is_password password)) [
          | inr p ↦ absurd (ground (arith, h, p))
          | inl p ↦ elim (Bool-cases (is_email env service (fold email))) [
            | inr e ↦ absurd (ground (arith, h, p, e))
            | inl e ↦ elim (Bool-cases (is_display_name (compact display_name))) [
              | inr d ↦ absurd (ground (arith, h, p, e, d))
              | inl d ↦
                  let hash = env.hash_password password in
                  let name = compact display_name in
                  let answer = create_account draws.user_id draws.now (fold email) name hash s in
                  let granted' = rw (register, p, e, d) at h in
                  let (a, made) = opened-some answer.0 answer.1 account token granted' in
                  let free = was_free draws.user_id draws.now (fold email) name hash s a made in
                  let (g, hashed, valid) =
                    opened-IsGranted email hash answer.0 answer.1 account token
                      (create_account-IsValid draws.user_id draws.now (fold email) name hash s v
                        unused)
                      (λ a. created draws.user_id draws.now (fold email) name hash s a) granted' in
                  rw (register, p, e, d) (g, hashed, free, valid)
            ]
          ]
        ]
