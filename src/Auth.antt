-- ===== src/Auth.antt =====
-- src/modules/auth/auth.service.ts and src/common/guards/auth.guard.ts, without the black list.
pub mod Closing
pub mod Closed
pub mod Registering
pub mod Passwords
use notaryday_backend.Common.{
  ℕ, String, Bool, true, ◌==◌, not, Option, none, some, is_some, find_first,
}
use notaryday_backend.Schema.{
  User, M, ◌>>=◌, ◌>>◌, pure, throw, when, if_some, get_store, emit, bad_request, conflict_error,
  unauthorized, track, notify, email, signup_conversion,
}
use notaryday_backend.Users.{
  Library, UsersConfig, NewUser, find_by_id, find_by_email, find_by_username, create,
  update_password, create_password_reset_token, validate_password_reset_token,
  consume_password_reset_token, update_last_seen, seed_signing_defaults,
}

-- The user and the token of a session.
pub record Session : Type 0 where
  pub user : User
  pub token : String

-- `register`, once the row is written.
unfoldable pub welcome : Library → ℕ → User → M Session
unfolding seed_signing_defaults
welcome lib now user = do
  seed_signing_defaults user.id
  emit (track "user_registered" user.id)
  emit (signup_conversion user.id)
  emit (email user.email)
  emit (notify "WELCOME" user.id)
  pure (record { user = user; token = lib.sign now user.id user.email })

unfoldable pub register : Library → UsersConfig → ℕ → ℕ → NewUser → M Session
unfolding find_first create welcome
register lib config now salt dto = do
  s ← get_store
  when (is_some (find_by_email lib dto.email s)) (throw (conflict_error "Email already registered"))
  when (is_some (find_by_username lib dto.username s))
      (throw (conflict_error "That username is taken. Try a different one"))
  user ← create lib config now salt dto
  welcome lib now user

-- `login`, for the user that was found.
unfoldable pub login_as : Library → ℕ → String → User → M Session
unfolding update_last_seen
login_as lib now password user = do
  when (is_some user.deleted_at)
      (throw (unauthorized "This account has been suspended. Contact support."))
  when (not (lib.compare password user.password_hash))
      (throw (unauthorized "Invalid email or password"))
  update_last_seen now user.id
  pure (record { user = user; token = lib.sign now user.id user.email })

unfoldable pub login : Library → ℕ → String → String → M Session
unfolding find_first login_as
login lib now address password = do
  s ← get_store
  if_some (find_by_email lib address s) (login_as lib now password)
      (throw (unauthorized "Invalid email or password"))

unfoldable pub forgot_password : Library → ℕ → ℕ → String → String → M Bool
unfolding find_first create_password_reset_token
forgot_password lib now salt fresh address = do
  s ← get_store
  if_some (find_by_email lib address s)
      (λ user. do
        token ← create_password_reset_token lib now salt fresh user.id
        emit (email user.email)
        pure true)
      (pure true)

unfoldable pub reset_password : Library → ℕ → ℕ → String → String → M Bool
unfolding find_first update_password consume_password_reset_token
reset_password lib now salt token new_password = do
  s ← get_store
  if_some (validate_password_reset_token lib now token s)
      (λ t. do
        update_password lib salt t.user_id new_password
        consume_password_reset_token now t.id
        pure true)
      (throw (bad_request "Invalid or expired reset token"))

unfoldable pub get_me : ℕ → M User
unfolding find_first
get_me user_id = do
  s ← get_store
  if_some (find_by_id user_id s)
      (λ user. do
        when (is_some user.deleted_at)
            (throw (unauthorized "This account has been suspended. Contact support."))
        pure user)
      (throw (unauthorized "User not found"))

-- `getMeFromToken`, as the guard answers it.
unfoldable pub get_me_from_token : Library → ℕ → String → M User
unfolding get_me
get_me_from_token lib now token =
    if_some (lib.verify now token) get_me (throw (unauthorized "Invalid token"))
