-- ===== src/Examples/Accounts.antt =====
-- Runs of the accounts (src/modules/auth/auth.service.ts, src/modules/users/users.service.ts), with a
-- library whose hash of a text is the text with a prefix.
use text.Mathlib.Text.{◌==◌ as str_eq}
use text.Mathlib.TextEquality.{eq_iff}
use Prim.Native.String.{◌++◌ as concat}
use notaryday_backend.Common.{
  ℕ, ◌≡◌, refl, String, true, false, ◌==◌, none, some, List, [], ◌∷◌, find_first, arith,
}
use notaryday_backend.Schema.{
  User, Store, HttpError, ok, err, bad_request, conflict_error, general, hybrid,
}
use notaryday_backend.Users.{
  Library, UsersConfig, NewUser, new_user, soft_delete_account, DefaultDto, is_default_of,
  sync_signing_defaults,
}
use notaryday_backend.Users.Defaults.{minutes_for, last_given, sync_signing_defaults_lem}
use notaryday_backend.Billing.{update_user}
use notaryday_backend.Auth.{Session, register, login, forgot_password, reset_password, get_me}
use notaryday_backend.Auth.Passwords.{IsHashing, reset_works}
use notaryday_backend.Auth.Registering.{register_once}
use notaryday_backend.Auth.Closing.{AccountCall, a_forgot, a_reset, a_login, run_calls}
use notaryday_backend.Auth.Closed.{deleted_stays_out}
use notaryday_backend.Examples.{notary, rows}

abbrev library : Library
library = record {
  to_lower_case = λ s. s;
  hash = λ _ s. concat "h:" s;
  compare = λ s h. str_eq (concat "h:" s) h;
  sign = λ _ _ address. address;
  verify = λ _ _. some 1;
}

library-IsHashing : IsHashing library
library-IsHashing salt s = (eq_iff _ _).1 refl

abbrev asked_rows : Store
asked_rows = (forgot_password library 1000 1 "t0k3n" "ann@example.com" rows).1

abbrev renewed_rows : Store
renewed_rows = (reset_password library 2000 2 "t0k3n" "new" asked_rows).1

reset_works_example :
    ((reset_password library 2000 2 "t0k3n" "new" asked_rows).0 ≡ ok true)
    × ((time : ℕ)
        → (login library time "ann@example.com" "new" renewed_rows).0
          ≡ ok (record {
            user = record notary { password_hash = "h:new" };
            token = "ann@example.com";
          }))
    × ((time salt'' : ℕ) (other : String)
        → reset_password library time salt'' "t0k3n" other renewed_rows
          ≡ (err (bad_request "Invalid or expired reset token"), renewed_rows))
unfolding find_first
reset_works_example =
    reset_works library library-IsHashing 1000 2000 1 2 "t0k3n" "ann@example.com" "new" notary rows
      refl refl (omega arith) tt

abbrev config : UsersConfig
config = record { trial_plan = true; trial_days = 30; irs_rate_per_mile = 7250 }

abbrev newcomer : NewUser
newcomer = record {
  email = "bea@example.com";
  password = "secret";
  username = "bea";
  full_name = none;
}

abbrev joined_rows : Store
joined_rows = (register library config 1000 1 newcomer rows).1

abbrev bea : User
bea = new_user library config 1000 1 newcomer 100

register_once_example :
    ((register library config 1000 1 newcomer rows).0
      ≡ ok (record { user = bea; token = "bea@example.com" }))
    × ((address : String)
        → "bea@example.com" ≡ address
        → ((time : ℕ)
            → (login library time address "secret" joined_rows).0
              ≡ ok (record { user = bea; token = "bea@example.com" }))
          × ((time salt' : ℕ) (other : NewUser)
              → other.email ≡ address
              → register library config time salt' other joined_rows
                ≡ (err (conflict_error "Email already registered"), joined_rows)))
unfolding find_first
register_once_example =
    register_once library config 1000 1 newcomer rows library-IsHashing refl refl

-- A deleted user asks for a token, sets a password and logs in.
abbrev attempts : List AccountCall
attempts =
    a_forgot 3000 1 "t0k3n" "ann@example.com"
    ∷ a_reset 4000 2 "t0k3n" "new"
    ∷ a_login 5000 "ann@example.com" "new"
    ∷ []

abbrev closed_rows : Store
closed_rows = run_calls library attempts (soft_delete_account 2000 1 rows).1

deleted_stays_out_example :
    ((e : HttpError) × (get_me 1 closed_rows ≡ (err e, closed_rows)))
    × ((time : ℕ) (address password : String) (v : Session)
        → (login library time address password closed_rows).0 ≡ ok v
        → (v.user.id == 1) ≡ false)
unfolding find_first soft_delete_account update_user
deleted_stays_out_example = deleted_stays_out library 2000 1 attempts rows (omega arith) refl

abbrev given : List DefaultDto
given =
    record { signing_type = general; signing_duration_mins = 40; scanback_duration_mins = 5 }
    ∷ record { signing_type = hybrid; signing_duration_mins = 80; scanback_duration_mins = 20 }
    ∷ record { signing_type = general; signing_duration_mins = 45; scanback_duration_mins = 0 }
    ∷ []

sync_signing_defaults_lem_example :
    (minutes_for 1 general (sync_signing_defaults 1 given rows).1 ≡ some (45, 0))
    × ((other : ℕ)
        → (1 == other) ≡ false
        → find_first
            (is_default_of other general)
            (sync_signing_defaults 1 given rows).1.signing_defaults
          ≡ find_first (is_default_of other general) [])
unfolding last_given
sync_signing_defaults_lem_example = sync_signing_defaults_lem 1 given general rows
