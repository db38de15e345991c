-- ===== src/Auth/Accounts/Invariant.antt =====
-- The invariant of the tables of app/auth/memory.py.
use mini_alpha.Common.{
  ℕ, ◌≡◌, ◌≢◌, refl, String, none, some, [], ◌∷◌, ◌==◌, nat_eq, string_eq, ltb, arith, Bool-cases,
  Option-cases, inl, inr, nat_beq_iff, eq_iff,
}
use mini_alpha.Common.Dict.{Dict, get, get-put, Distinct, put-Distinct, del-Distinct}
use mini_alpha.Auth.Accounts.{
  AccountCredentials, Session, Accounts, create_account, create_session, live_sessions, account_of,
  delete_session, empty,
}

-- An account stands under its address, no two accounts have one id, and keys stand once.
pub record IsValid (s : Accounts) : Type 0 where
  pub distinct : Distinct s.credentials
  pub session_distinct : Distinct s.sessions
  pub own :
      (e : String) (x : AccountCredentials) → get e s.credentials ≡ some x → x.account.email ≡ e
  pub unique :
      (e f : String) (x y : AccountCredentials)
      → get e s.credentials ≡ some x
      → get f s.credentials ≡ some y
      → x.account.user_id ≡ y.account.user_id
      → e ≡ f

-- An id that no account has
abbrev pub IsUnused : ℕ → Accounts → Type 0
IsUnused i s =
    (e : String) (x : AccountCredentials) → get e s.credentials ≡ some x → x.account.user_id ≢ i

pub empty-IsValid : IsValid empty
unfolding get
empty-IsValid = ground arith

live-get-none :
    (now t : ℕ) (d : Dict ℕ Session) → get t d ≡ none → get t (live_sessions now d) ≡ none
unfolding get live_sessions
live-get-none now t [] h = refl
live-get-none now t ((k, x) ∷ d) h = ground (arith, live-get-none now t d)

live-Distinct : (now : ℕ) (d : Dict ℕ Session) → Distinct d → Distinct (live_sessions now d)
unfolding live_sessions
live-Distinct now [] h = tt
live-Distinct now ((k, x) ∷ d) h = elim (Bool-cases (ltb now x.expires_at)) [
  | inl e ↦ rw e (live-get-none now k d h.0, live-Distinct now d h.1)
  | inr e ↦ rw e (live-Distinct now d h.1)
]

pub create_account-IsValid :
    (user_id now : ℕ) (email display_name password_hash : String) (s : Accounts)
    → IsValid s
    → IsUnused user_id s
    → IsValid (create_account user_id now email display_name password_hash s).1
unfolding create_account
create_account-IsValid user_id now email display_name password_hash s v fresh =
    elim (Option-cases (get email s.credentials)) [
      | inr (x, e) ↦ rw (create_account, e) v
      | inl e ↦
          let new : AccountCredentials = record {
            account = record {
              user_id = user_id;
              email = email;
              display_name = display_name;
              created_at = now;
            };
            password_hash = password_hash;
          } in
          rw (create_account, e)
            (record {
              distinct = put-Distinct email new s.credentials v.distinct;
              session_distinct = v.session_distinct;
              own = λ f x h.
                  ground (arith, get-put email f new s.credentials, v.own f x, eq_iff email f);
              unique = λ f g x y h k same. ground (
                arith,
                get-put email f new s.credentials,
                get-put email g new s.credentials,
                v.unique f g x y,
                fresh f x,
                fresh g y,
                eq_iff email f,
                eq_iff email g,
              );
            })
    ]

pub create_session-IsValid :
    (now user_id token_hash expires_at : ℕ) (s : Accounts)
    → IsValid s
    → IsValid (create_session now user_id token_hash expires_at s)
unfolding create_session
create_session-IsValid now user_id token_hash expires_at s v = record {
  distinct = v.distinct;
  session_distinct =
      put-Distinct token_hash _ (live_sessions now s.sessions)
        (live-Distinct now s.sessions v.session_distinct);
  own = v.own;
  unique = v.unique;
}

pub delete_session-IsValid :
    (token_hash : ℕ) (s : Accounts) → IsValid s → IsValid (delete_session token_hash s)
unfolding delete_session
delete_session-IsValid token_hash s v = record {
  distinct = v.distinct;
  session_distinct = del-Distinct token_hash s.sessions v.session_distinct;
  own = v.own;
  unique = v.unique;
}

-- A lookup by an id finds an account with the id.
record Found (user_id : ℕ) (d : Dict String AccountCredentials) : Type 0 where
  email : String
  known : AccountCredentials
  there : get email d ≡ some known
  same : known.account.user_id ≡ user_id
  found : account_of user_id d ≡ some known.account

account_of-Found :
    (e : String) (x : AccountCredentials) (d : Dict String AccountCredentials)
    → Distinct d
    → get e d ≡ some x
    → Found x.account.user_id d
unfolding get account_of
account_of-Found e x [] distinct h = absurd (ground (arith, h))
account_of-Found e x ((j, w) ∷ d) distinct h =
    elim (Bool-cases (w.account.user_id == x.account.user_id)) [
      | inl same ↦ record {
        email = j;
        known = w;
        there = ground (arith, eq_iff j j);
        same = ground (arith, same, nat_beq_iff w.account.user_id x.account.user_id);
        found = rw same refl;
      }
      | inr other ↦
          let f =
            account_of-Found e x d distinct.1
              (ground (arith, h, other, nat_beq_iff w.account.user_id x.account.user_id)) in
          record {
            email = f.email;
            known = f.known;
            there = ground (arith, f.there, distinct.0, eq_iff j f.email);
            same = f.same;
            found = rw other f.found;
          }
    ]

-- The account of an id is the one that stands under its address.
pub account_of-known :
    (e : String) (x : AccountCredentials) (s : Accounts)
    → IsValid s
    → get e s.credentials ≡ some x
    → account_of x.account.user_id s.credentials ≡ some x.account
account_of-known e x s v h =
    let f = account_of-Found e x s.credentials v.distinct h in
    let same = v.unique f.email e f.known x f.there h f.same in
    ground (arith, f.found, f.there, h, same)
