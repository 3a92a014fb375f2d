-- ===== src/Auth/Passwords.antt =====
-- src/modules/auth/auth.service.ts: a forgotten password.
use mathlib.Core.Bool.{false≢true}
use text.Mathlib.Text.{◌==◌ as str_eq}
use notaryday_backend.Common.{
  ℕ, suc, ◌++◌, ◌+◌, ◌<◌, ◌≡◌, refl, String, true, false, ◌==◌, none, some, List, [], ◌∷◌,
  find_first, update_where, select, All, arith, All-update_where, find_first-update_where_at,
  find_first-select-none,
}
use notaryday_backend.Schema.{User, PasswordResetToken, Store, ok, err, bad_request, email}
use notaryday_backend.Users.{
  Library, find_by_email, is_valid_token, validate_password_reset_token,
  consume_password_reset_token, create_password_reset_token, update_password, update_last_seen,
}
use notaryday_backend.Billing.{update_user}
use notaryday_backend.Auth.{login, login_as, forgot_password, reset_password}

-- bcrypt accepts a text against its own hash.
abbrev pub IsHashing : Library → Type 0
IsHashing lib = (salt : ℕ) (text : String) → lib.compare text (lib.hash salt text) ≡ true

-- The row that `forgotPassword` adds.
abbrev pub token_row : Library → ℕ → ℕ → String → ℕ → Store → PasswordResetToken
token_row lib now salt fresh user_id s = record {
  id = s.next_id;
  user_id = user_id;
  token_hash = lib.hash salt fresh;
  expires_at = now + 3600000;
  used_at = none;
  used = false;
}

-- After `forgotPassword`.
abbrev asked : Library → ℕ → ℕ → String → User → Store → Store
asked lib now salt fresh u s = record s {
  next_id = suc s.next_id;
  reset_tokens = token_row lib now salt fresh u.id s ∷ s.reset_tokens;
  outbox = s.outbox ++ email u.email ∷ [];
}

abbrev used_up : ℕ → PasswordResetToken → PasswordResetToken
used_up now t = record t { used = true; used_at = some now }

-- After `resetPassword` with the token of the row t.
abbrev renewed : Library → ℕ → ℕ → String → PasswordResetToken → Store → Store
renewed lib now salt password t s = record s {
  users =
      update_where (λ u. u.id == t.user_id)
        (λ u. record u { password_hash = lib.hash salt password }) s.users;
  reset_tokens = update_where (λ r. r.id == t.id) (used_up now) s.reset_tokens;
}

module _ (lib : Library) where
  forgot_password-asked :
      (now salt : ℕ) (fresh address : String) (u : User) (s : Store)
      → find_by_email lib address s ≡ some u
      → forgot_password lib now salt fresh address s ≡ (ok true, asked lib now salt fresh u s)
  unfolding forgot_password create_password_reset_token
  forgot_password-asked now salt fresh address u s known = rw known refl

  reset_password-renewed :
      (now salt : ℕ) (token password : String) (t : PasswordResetToken) (s : Store)
      → validate_password_reset_token lib now token s ≡ some t
      → reset_password lib now salt token password s ≡ (ok true, renewed lib now salt password t s)
  unfolding reset_password update_password consume_password_reset_token update_user
  reset_password-renewed now salt token password t s valid = rw valid refl

  login-renewed :
      (later time salt : ℕ) (address password : String) (t : PasswordResetToken) (u : User)
      (s : Store)
      → lib.compare password (lib.hash salt password) ≡ true
      → find_by_email lib address s ≡ some u
      → u.deleted_at ≡ none
      → t.user_id ≡ u.id
      → (login lib time address password (renewed lib later salt password t s)).0
        ≡ ok (record {
          user = record u { password_hash = lib.hash salt password };
          token = lib.sign time u.id u.email;
        })
  unfolding login login_as update_last_seen update_user
  login-renewed later time salt address password t u s accepts known active owner =
      let hit : (u.id == t.user_id) ≡ true = ground (arith, owner) in
      let again =
        find_first-update_where_at (λ v. v.id == t.user_id)
          (λ v. str_eq v.email (lib.to_lower_case address))
          (λ v. record v { password_hash = lib.hash salt password }) s.users hit (λ v. refl)
          known in
      rw (again, active, accepts) refl

  -- The token fits no row that can still be used.
  spent-IsRefused :
      (later time salt : ℕ) (fresh password : String) (t : PasswordResetToken)
      (rows : List PasswordResetToken) (s : Store)
      → All (λ r. lib.compare fresh r.token_hash ≡ false) rows
      → s.reset_tokens ≡ t ∷ rows
      → validate_password_reset_token lib time fresh (renewed lib later salt password t s) ≡ none
  unfolding update_where
  spent-IsRefused later time salt fresh password t rows s others shape =
      let own : (t.id == t.id) ≡ true = ground arith in
      let rest =
        All-update_where (λ r. lib.compare fresh r.token_hash ≡ false)
          (λ r. is_valid_token time r ≡ true → lib.compare fresh r.token_hash ≡ false)
          (λ r. r.id == t.id) (used_up later) rows (λ r e h _. h) (λ r e h _. h) others in
      find_first-select-none (λ r. lib.compare fresh r.token_hash) (is_valid_token time) _
        (rw (shape, own) ((λ h. absurd (false≢true h)), rest))

module _ (lib : Library) (hashing : IsHashing lib) where
  -- A user who is not suspended and has forgotten the password asks for a token, and within the hour
  -- sets a new password with it. Both succeed, a login with the new password succeeds at any later
  -- time, and a second use of the token, if it fits no older token, is refused and changes nothing. bcrypt accepts a text against its own hash.
  pub reset_works :
      (now later salt salt' : ℕ) (fresh address new_password : String) (u : User) (s : Store)
      → find_by_email lib address s ≡ some u
      → u.deleted_at ≡ none
      → later < now + 3600000
      → All (λ t. lib.compare fresh t.token_hash ≡ false) s.reset_tokens
      → let s1 = (forgot_password lib now salt fresh address s).1 in
        let s2 = (reset_password lib later salt' fresh new_password s1).1 in
        ((reset_password lib later salt' fresh new_password s1).0 ≡ ok true)
        × ((time : ℕ)
            → (login lib time address new_password s2).0
              ≡ ok (record {
                user = record u { password_hash = lib.hash salt' new_password };
                token = lib.sign time u.id u.email;
              }))
        × ((time salt'' : ℕ) (other : String)
            → reset_password lib time salt'' fresh other s2
              ≡ (err (bad_request "Invalid or expired reset token"), s2))
  unfolding find_first select
  reset_works now later salt salt' fresh address new_password u s known active soon others =
      let row = token_row lib now salt fresh u.id s in
      let match : lib.compare fresh row.token_hash ≡ true = hashing salt fresh in
      let valid : is_valid_token later row ≡ true = ground arith in
      let start = forgot_password-asked lib now salt fresh address u s known in
      let found : validate_password_reset_token lib later fresh (asked lib now salt fresh u s)
          ≡ some row =
        rw (valid, match) refl in
      let s1 = asked lib now salt fresh u s in
      let s2 = renewed lib later salt' new_password row s1 in
      let renew = reset_password-renewed lib later salt' fresh new_password row s1 found in
      let again = login-renewed lib later in
      let spent = spent-IsRefused lib later in
      rw (start, renew)
        (
          refl,
          (λ time.
              again time salt' address new_password row u s1 (hashing salt' new_password) known
                active refl),
          (λ time salt'' other.
              unfold reset_password in
              rw (spent time salt' fresh new_password row s.reset_tokens s1 others refl) refl),
        )
