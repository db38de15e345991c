-- ===== src/Auth/Accounts/Held.antt =====
-- A session of app/auth/memory.py that the other methods leave in place.
use mini_alpha.Auth.Accounts.Invariant.{
  IsValid, IsUnused, create_account-IsValid, create_session-IsValid, delete_session-IsValid,
}
use mini_alpha.Auth.Accounts.{
  AccountCredentials, Accounts, Session, create_account, create_session, live_sessions,
  get_account_by_session, delete_session,
}
use mini_alpha.Common.{
  ℕ, ◌<◌, ◌≡◌, ◌≢◌, ◌∙◌, String, true, false, some, [], ◌∷◌, ◌==◌, nat_eq, string_eq, ltb, leb,
  arith, Bool-cases, Option-cases, inl, inr, eq_iff, nat_beq_iff,
}
use mini_alpha.Common.Dict.{Dict, get, get-put, get-del_ne}

live-get :
    (now t : ℕ) (d : Dict ℕ Session) (x : Session)
    → get t d ≡ some x
    → now < x.expires_at
    → get t (live_sessions now d) ≡ some x
unfolding get live_sessions
live-get now t [] x h lt = absurd (ground (arith, h))
live-get now t ((k, y) ∷ d) x h lt = elim (Bool-cases (k == t)) [
  | inl e ↦
      let same : y ≡ x = ground (arith, h, e) in
      let early : ltb now y.expires_at ≡ true = rw same (ground (arith, lt)) in
      ground (arith, e, early, same)
  | inr e ↦ ground (arith, e, live-get now t d x (ground (arith, h, e)) lt)
]

-- In valid tables, the session stands under its digest and the account under its address.
pub record IsHeld (email : String) (known : AccountCredentials) (hash : ℕ) (session : Session)
    (s : Accounts) : Type 0 where
  pub valid : IsValid s
  pub there : get email s.credentials ≡ some known
  pub stored : get hash s.sessions ≡ some session

module _ (email : String) (known : AccountCredentials) (hash : ℕ) (session : Session) (s : Accounts)
    (held : IsHeld email known hash session s) where
  pub create_account-IsHeld :
      (user_id now : ℕ) (address display_name password_hash : String)
      → IsUnused user_id s
      → IsHeld email known hash session
          (create_account user_id now address display_name password_hash s).1
  unfolding create_account
  create_account-IsHeld user_id now address display_name password_hash unused =
      elim (Option-cases (get address s.credentials)) [
        | inr (x, e) ↦ rw (create_account, e) held
        | inl e ↦
            let v =
              create_account-IsValid user_id now address display_name password_hash s held.valid
                unused in
            let other : (address == email) ≡ false =
              ground (arith, e, held.there, eq_iff address email) in
            rw (create_account, e)
              (record {
                valid = rw (create_account, e) at v;
                there = rw (get-put, other) held.there;
                stored = held.stored;
              })
      ]

  pub create_session-IsHeld :
      (now user_id token_hash expires_at : ℕ)
      → now < session.expires_at
      → token_hash ≢ hash
      → IsHeld email known hash session (create_session now user_id token_hash expires_at s)
  unfolding create_session
  create_session-IsHeld now user_id token_hash expires_at lt ne =
      let other : (token_hash == hash) ≡ false = ground (arith, ne, nat_beq_iff token_hash hash) in
      record {
        valid = create_session-IsValid now user_id token_hash expires_at s held.valid;
        there = held.there;
        stored = rw (get-put, other) (live-get now hash s.sessions session held.stored lt);
      }

  pub delete_session-IsHeld :
      (token_hash : ℕ)
      → token_hash ≢ hash
      → IsHeld email known hash session (delete_session token_hash s)
  unfolding delete_session
  delete_session-IsHeld token_hash ne =
      let other : (token_hash == hash) ≡ false = ground (arith, ne, nat_beq_iff token_hash hash) in
      record {
        valid = delete_session-IsValid token_hash s held.valid;
        there = held.there;
        stored = get-del_ne token_hash hash s.sessions other ∙ held.stored;
      }

  -- Only a session that is over is dropped when its token is looked up.
  pub get_account_by_session-IsHeld :
      (token_hash now : ℕ)
      → now < session.expires_at
      → IsHeld email known hash session (get_account_by_session token_hash now s).1
  unfolding get_account_by_session delete_session
  get_account_by_session-IsHeld token_hash now lt =
      elim (Option-cases (get token_hash s.sessions)) [
        | inl e ↦ rw (get_account_by_session, e) held
        | inr (x, e) ↦ elim (Bool-cases (leb x.expires_at now)) [
          | inr early ↦ rw (get_account_by_session, e, early) held
          | inl late ↦
              let ne : token_hash ≢ hash =
                λ same. absurd (ground (arith, same, e, held.stored, late, lt)) in
              rw (get_account_by_session, e, late) (delete_session-IsHeld token_hash ne)
        ]
      ]
