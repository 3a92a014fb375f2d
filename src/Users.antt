-- ===== src/Users.antt =====
-- src/modules/users/users.service.ts, and the signing defaults of user-settings.service.ts.
--
-- `Library` is what the code calls: `String.toLowerCase`, bcrypt and the tokens of jsonwebtoken. A
-- hash takes the salt that bcrypt draws, a token the time at which it is signed.
pub mod Defaults
use text.Mathlib.Text.{◌==◌ as str_eq}
use notaryday_backend.Common.{
  ℕ, ◌+◌, ◌*◌, String, Bool, true, false, ◌&&◌, ◌||◌, ◌==◌, not, Option, none, some, List, [], ◌∷◌,
  find_first, update_where, select, any, if◌then◌else◌, ltb,
}
use notaryday_backend.Schema.{
  User, UserSettings, SigningTypeDefault, PasswordResetToken, Store, M, found, ◌>>=◌, ◌>>◌, pure,
  throw, when, if_some, get_store, fresh_id, ok, bad_request, server_error, free, pro, SigningType,
  eq_type, general, loan_refi, hybrid, purchase_closing, field_inspection, apostille,
}
use notaryday_backend.Tables.{default_settings}
use notaryday_backend.Billing.{update_user}

pub record Library : Type 0 where
  pub to_lower_case : String → String
  pub hash : ℕ → String → String
  pub compare : String → String → Bool
  pub sign : ℕ → ℕ → String → String
  pub verify : ℕ → String → Option ℕ

pub record UsersConfig : Type 0 where
  pub trial_plan : Bool
  pub trial_days : ℕ
  pub irs_rate_per_mile : ℕ

pub record NewUser : Type 0 where
  pub email : String
  pub password : String
  pub username : String
  pub full_name : Option String

abbrev pub find_by_id : ℕ → Store → Option User
find_by_id id s = find_first (λ u. u.id == id) s.users

abbrev pub find_by_email : Library → String → Store → Option User
find_by_email lib email s = find_first (λ u. str_eq u.email (lib.to_lower_case email)) s.users

abbrev pub find_by_username : Library → String → Store → Option User
find_by_username lib username s =
    find_first (λ u. str_eq u.username (lib.to_lower_case username)) s.users

-- The row of `create`.
abbrev pub new_user : Library → UsersConfig → ℕ → ℕ → NewUser → ℕ → User
new_user lib config now salt dto id = record {
  id = id;
  email = lib.to_lower_case dto.email;
  password_hash = lib.hash salt dto.password;
  username = lib.to_lower_case dto.username;
  full_name = dto.full_name;
  plan = if config.trial_plan then pro else free;
  lemon_squeezy_customer_id = none;
  lemon_squeezy_subscription_id = none;
  plan_expires_at = if config.trial_plan then some (now + config.trial_days * 86400000) else none;
  last_seen_at = none;
  deleted_at = none;
}

-- The unique indexes on `email` and `username`.
abbrev pub same_login : User → User → Bool
same_login new u = str_eq u.email new.email || str_eq u.username new.username

unfoldable pub insert_user : UsersConfig → User → M User
unfolding any default_settings
insert_user config u s = if any (same_login u) s.users then throw (server_error "P2002") s else (
  ok u,
  record s {
    users = u ∷ s.users;
    settings =
        record (default_settings u.id) {
          irs_rate_per_mile = config.irs_rate_per_mile;
          booking_page_enabled = true;
        }
        ∷ s.settings;
  },
)

unfoldable pub create : Library → UsersConfig → ℕ → ℕ → NewUser → M User
unfolding insert_user
create lib config now salt dto = do
  id ← fresh_id
  insert_user config (new_user lib config now salt dto id)

unfoldable pub update_password : Library → ℕ → ℕ → String → M (Unit {0})
unfolding update_user
update_password lib salt user_id password =
    update_user user_id (λ u. record u { password_hash = lib.hash salt password })

unfoldable pub change_password : Library → ℕ → ℕ → String → String → M (Unit {0})
unfolding find_first update_password
change_password lib salt user_id current_password new_password = do
  s ← get_store
  user ← found (find_by_id user_id s) "User not found"
  when (not (lib.compare current_password user.password_hash))
      (throw (bad_request "Current password is incorrect"))
  update_password lib salt user_id new_password

abbrev pub closed_account : ℕ → User → User
closed_account now u = record u { deleted_at = some now; plan = free; plan_expires_at = none }

unfoldable pub soft_delete_account : ℕ → ℕ → M (Unit {0})
unfolding find_first update_user
soft_delete_account now user_id = do
  s ← get_store
  user ← found (find_by_id user_id s) "User not found"
  update_user user_id (closed_account now)

-- `createPasswordResetToken`, for the token that `randomUUID` gives.
unfoldable pub create_password_reset_token : Library → ℕ → ℕ → String → ℕ → M String
create_password_reset_token lib now salt token user_id = do
  id ← fresh_id
  (λ s. (
    ok token,
    record s {
      reset_tokens =
          record {
            id = id;
            user_id = user_id;
            token_hash = lib.hash salt token;
            expires_at = now + 3600000;
            used_at = none;
            used = false;
          }
          ∷ s.reset_tokens;
    },
  ))

abbrev pub is_valid_token : ℕ → PasswordResetToken → Bool
is_valid_token now t = not t.used && ltb now t.expires_at

-- The newest rows stand first.
abbrev pub validate_password_reset_token : Library → ℕ → String → Store → Option PasswordResetToken
validate_password_reset_token lib now token s =
    find_first (λ t. lib.compare token t.token_hash) (select (is_valid_token now) s.reset_tokens)

unfoldable pub consume_password_reset_token : ℕ → ℕ → M (Unit {0})
unfolding update_where
consume_password_reset_token now token_id s = (
  ok tt,
  record s {
    reset_tokens =
        update_where (λ t. t.id == token_id) (λ t. record t { used = true; used_at = some now })
          s.reset_tokens;
  },
)

unfoldable pub update_last_seen : ℕ → ℕ → M (Unit {0})
unfolding update_user
update_last_seen now user_id = update_user user_id (λ u. record u { last_seen_at = some now })

abbrev pub is_default_of : ℕ → SigningType → SigningTypeDefault → Bool
is_default_of user_id type d = d.user_id == user_id && eq_type d.signing_type type

unfoldable pub upsert_signing_default : ℕ → SigningType → ℕ → ℕ → M (Unit {0})
unfolding any update_where
upsert_signing_default user_id type signing scanback s = (
  ok tt,
  record s {
    signing_defaults =
        if any (is_default_of user_id type) s.signing_defaults
        then update_where (is_default_of user_id type)
            (λ d. record d { signing_duration_mins = signing; scanback_duration_mins = scanback })
            s.signing_defaults
        else record {
          user_id = user_id;
          signing_type = type;
          signing_duration_mins = signing;
          scanback_duration_mins = scanback;
        }
          ∷ s.signing_defaults;
  },
)

-- An element of the argument of `syncSigningDefaults`.
pub record DefaultDto : Type 0 where
  pub signing_type : SigningType
  pub signing_duration_mins : ℕ
  pub scanback_duration_mins : ℕ

abbrev default_of : SigningType → ℕ → ℕ → DefaultDto
default_of type signing scanback = record {
  signing_type = type;
  signing_duration_mins = signing;
  scanback_duration_mins = scanback;
}

-- `for (const d of defaults) await this.upsertSigningDefault(...)`
unfoldable pub upsert_signing_defaults : ℕ → List DefaultDto → M (Unit {0})
unfolding upsert_signing_default
upsert_signing_defaults user_id [] = pure tt
upsert_signing_defaults user_id (d ∷ ds) =
    upsert_signing_default user_id d.signing_type d.signing_duration_mins d.scanback_duration_mins
    >> upsert_signing_defaults user_id ds

-- The `defaults` of `seedSigningDefaults`.
abbrev pub seeds : List DefaultDto
seeds =
    default_of general 30 0
    ∷ default_of loan_refi 60 20
    ∷ default_of hybrid 75 18
    ∷ default_of purchase_closing 90 28
    ∷ default_of field_inspection 45 0
    ∷ default_of apostille 20 0
    ∷ []

unfoldable pub seed_signing_defaults : ℕ → M (Unit {0})
unfolding upsert_signing_defaults
seed_signing_defaults user_id = upsert_signing_defaults user_id seeds

-- `notIn: types`
abbrev pub is_given : SigningType → List DefaultDto → Bool
is_given type ds = any (λ d. eq_type d.signing_type type) ds

-- `syncSigningDefaults`: what is not among the given types goes.
unfoldable pub sync_signing_defaults : ℕ → List DefaultDto → M (Unit {0})
unfolding upsert_signing_defaults select any
sync_signing_defaults user_id defaults = do
  (λ s. (
    ok tt,
    record s {
      signing_defaults =
          select (λ d. not (d.user_id == user_id && not (is_given d.signing_type defaults)))
            s.signing_defaults;
    },
  ))
  upsert_signing_defaults user_id defaults
