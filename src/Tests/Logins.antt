-- ===== src/Tests/Logins.antt =====
-- Runs of the models of app/auth.
use mini_alpha.Auth.Accounts.{
  Account, Accounts, create_account, get_credentials, create_session, live_sessions, empty,
}
use mini_alpha.Auth.Accounts.Invariant.{IsValid, IsUnused, empty-IsValid}
use mini_alpha.Auth.Service.{
  Environment, AuthService, Draws, granted, is_password, is_email, is_display_name, open_session,
  register, login,
}
use mini_alpha.Auth.Service.Calls.{Call, registers, resolves, logs_out, AllSpare, perform_all}
use mini_alpha.Auth.Service.Resolving.{IsSession}
use mini_alpha.Auth.Service.Sessions.{IsGranted, login-IsGranted, register-IsGranted}
use mini_alpha.Common.{
  ◌≡◌, refl, String, List, [], ◌∷◌, none, some, true, false, length, ◌==◌, string_eq, arith,
}
use mini_alpha.Common.Dict.{get, put}
use mini_alpha.Common.Value.{codes}

abbrev same : String → String
same t = t

abbrev environment : Environment
environment = record {
  fold = same;
  is_address = λ t. true;
  compact = same;
  hash_password = same;
  verify_password = λ password hash. password == hash;
  dummy_hash = "";
  digest = λ t. length (codes t);
}

abbrev service : AuthService
service = record { session_ttl_seconds = 3600; single_user = false }

abbrev draws : Draws
draws = record { user_id = 1; token = "token"; now = 10; later = 11 }

abbrev account : Account
account = record { user_id = 1; email = "a@b.c"; display_name = "A"; created_at = 10 }

empty-IsUnused : IsUnused 1 empty
unfolding get
empty-IsUnused e x h = absurd (ground (arith, h))

registered :
    (register environment service draws "a@b.c" "A" "correct horse" empty).0
    ≡ granted account "token"
unfolding register is_password is_email is_display_name create_account open_session get put
registered = refl

register-IsGranted_example :
    (g : IsGranted environment service refl draws refl "a@b.c" account "token"
      (register environment service draws "a@b.c" "A" "correct horse" empty).1)
    × (g.known.password_hash ≡ "correct horse")
    × (get "a@b.c" empty.credentials ≡ none)
    × IsValid (register environment service draws "a@b.c" "A" "correct horse" empty).1
register-IsGranted_example =
    register-IsGranted environment service refl draws refl "a@b.c" "A" "correct horse" empty account
      "token" empty-IsValid empty-IsUnused registered

abbrev accounts : Accounts
accounts = (register environment service draws "a@b.c" "A" "correct horse" empty).1

abbrev later : Draws
later = record { user_id = 2; token = "other token"; now = 50; later = 51 }

logged_in :
    (login environment service later "a@b.c" "correct horse" accounts).0
    ≡ granted account "other token"
unfolding login register is_password is_email is_display_name create_account get_credentials
    open_session create_session live_sessions get put
logged_in = refl

-- Another account registers, and the old session is looked up and given back.
abbrev meanwhile : Draws
meanwhile = record { user_id = 3; token = "a third token"; now = 60; later = 61 }

abbrev calls : List Call
calls =
    registers meanwhile "d@e.f" "D" "correct horse"
    ∷ resolves meanwhile (some "token")
    ∷ logs_out (some "token")
    ∷ []

abbrev logged : Accounts
logged = (login environment service later "a@b.c" "correct horse" accounts).1

other_id : IsUnused 3 logged
unfolding login register is_password is_email is_display_name create_account get_credentials
    open_session create_session live_sessions get put
other_id e x h = ground (arith, h)

calls-AllSpare : AllSpare environment service 11 3600000050 calls logged
calls-AllSpare = ((other_id, ground arith, ground arith), (ground arith, (ground arith, tt)))

login-IsGranted_example :
    (g : IsGranted environment service refl later refl "a@b.c" account "other token" logged)
    × (environment.verify_password "correct horse" g.known.password_hash ≡ true)
    × IsSession environment service "other token" account 3600000050
        (perform_all environment service calls logged)
login-IsGranted_example =
    login-IsGranted environment service refl later refl "a@b.c" "correct horse" accounts account
      "other token" calls register-IsGranted_example.3 logged_in calls-AllSpare
