-- ===== src/Auth/Closing.antt =====
-- src/modules/auth/auth.service.ts and src/modules/users/users.service.ts: no call opens an account
-- that was deleted.
use mathlib.Core.Bool.{false≢true}
use notaryday_backend.Common.{
  ℕ, suc, ◌<◌, ◌≡◌, refl, String, true, false, ◌==◌, List, [], ◌∷◌, any, All, Bool-cases,
  Option-cases, inl, inr, arith, is_some, ◌∙◌, sym, ap, update_where-All,
}
use notaryday_backend.Schema.{User, Store, M, Result, ok, err, continue}
use notaryday_backend.Users.{
  Library, UsersConfig, NewUser, new_user, same_login, create, insert_user, update_password,
  change_password, soft_delete_account, closed_account, create_password_reset_token,
  consume_password_reset_token, update_last_seen, seed_signing_defaults, upsert_signing_defaults,
  upsert_signing_default, DefaultDto, seeds, find_by_id, find_by_email, find_by_username,
  validate_password_reset_token,
}
use notaryday_backend.Billing.{update_user}
use notaryday_backend.Auth.{welcome, register, login, login_as, forgot_password, reset_password}

-- Every row with the identifier is deleted, and no new row can get it.
abbrev pub IsClosed : ℕ → Store → Type 0
IsClosed id s =
    (id < s.next_id) × All (λ u. (u.id == id) ≡ true → is_some u.deleted_at ≡ true) s.users

abbrev Keeps : {A : Type 0} → ℕ → M A → Type 0
Keeps id m = (s : Store) → IsClosed id s → IsClosed id (m s).1

module _ (id : ℕ) where
  continue-Keeps :
      {A B : Type 0} (r : Result A × Store) (f : A → M B)
      → IsClosed id r.1
      → ((a : A) → Keeps id (f a))
      → IsClosed id (continue r f).1
  continue-Keeps (ok a, t) f h k = k a t h
  continue-Keeps (err e, t) f h k = h

  update_user-Keeps :
      (user_id : ℕ) (f : User → User)
      → ((u : User)
          → ((f u).id == id) ≡ true
          → ((u.id == id) ≡ true) × ((f u).deleted_at ≡ u.deleted_at))
      → Keeps id (update_user user_id f)
  unfolding update_user
  update_user-Keeps user_id f keep s (early, rows) = (
    early,
    update_where-All (λ u. (u.id == id) ≡ true → is_some u.deleted_at ≡ true) (λ u. u.id == user_id)
        f s.users (λ u e h same. let (mine, kept) = keep u same in ap is_some kept ∙ h mine) rows,
  )

  update_last_seen-Keeps : (now user_id : ℕ) → Keeps id (update_last_seen now user_id)
  unfolding update_last_seen
  update_last_seen-Keeps now user_id = update_user-Keeps user_id _ (λ u e. (e, refl))

  update_password-Keeps :
      (lib : Library) (salt user_id : ℕ) (p : String)
      → Keeps id (update_password lib salt user_id p)
  unfolding update_password
  update_password-Keeps lib salt user_id p = update_user-Keeps user_id _ (λ u e. (e, refl))

  insert_user-Keeps :
      (config : UsersConfig) (u : User) (s : Store)
      → (u.id == id) ≡ false
      → IsClosed id s
      → IsClosed id (insert_user config u s).1
  unfolding insert_user
  insert_user-Keeps config u s other (early, rows) =
      elim (Bool-cases (any (same_login u) s.users)) [
        | inl e ↦ rw e (early, rows)
        | inr e ↦ rw e (early, ((λ h. absurd (false≢true (sym other ∙ h))), rows))
      ]

  create-Keeps :
      (lib : Library) (config : UsersConfig) (now salt : ℕ) (dto : NewUser)
      → Keeps id (create lib config now salt dto)
  unfolding create
  create-Keeps lib config now salt dto s (early, rows) =
      insert_user-Keeps config (new_user lib config now salt dto s.next_id)
        (record s { next_id = suc s.next_id }) (ground (arith, early)) (omega (arith, early), rows)

  upsert_signing_defaults-Keeps :
      (user_id : ℕ) (ds : List DefaultDto) → Keeps id (upsert_signing_defaults user_id ds)
  unfolding upsert_signing_defaults upsert_signing_default
  upsert_signing_defaults-Keeps user_id [] s closed = closed
  upsert_signing_defaults-Keeps user_id (d ∷ ds) s closed =
      upsert_signing_defaults-Keeps user_id ds _ closed

  seed_signing_defaults-Keeps : (user_id : ℕ) → Keeps id (seed_signing_defaults user_id)
  unfolding seed_signing_defaults
  seed_signing_defaults-Keeps user_id = upsert_signing_defaults-Keeps user_id seeds

-- What the sessions and the accounts are asked to do.
pub data AccountCall : Type 0 where
  a_register : UsersConfig → ℕ → ℕ → NewUser → AccountCall
  a_login : ℕ → String → String → AccountCall
  a_forgot : ℕ → ℕ → String → String → AccountCall
  a_reset : ℕ → ℕ → String → String → AccountCall
  a_change : ℕ → ℕ → String → String → AccountCall
  a_delete : ℕ → ℕ → AccountCall

module _ (lib : Library) where
  unfoldable pub run_call : AccountCall → Store → Store
  unfolding register login forgot_password reset_password change_password soft_delete_account
  run_call (a_register config now salt dto) s = (register lib config now salt dto s).1
  run_call (a_login now address password) s = (login lib now address password s).1
  run_call (a_forgot now salt fresh address) s = (forgot_password lib now salt fresh address s).1
  run_call (a_reset now salt token password) s = (reset_password lib now salt token password s).1
  run_call (a_change salt user_id old new) s = (change_password lib salt user_id old new s).1
  run_call (a_delete now user_id) s = (soft_delete_account now user_id s).1

  unfoldable pub run_calls : List AccountCall → Store → Store
  unfolding run_call
  run_calls [] s = s
  run_calls (c ∷ cs) s = run_calls cs (run_call c s)

module _ (lib : Library) (id : ℕ) where
  welcome-Keeps : (now : ℕ) (u : User) → Keeps id (welcome lib now u)
  unfolding welcome seed_signing_defaults upsert_signing_defaults
  welcome-Keeps now u s closed = upsert_signing_defaults-Keeps id u.id seeds s closed

  register-Keeps :
      (config : UsersConfig) (now salt : ℕ) (dto : NewUser)
      → Keeps id (register lib config now salt dto)
  unfolding register
  register-Keeps config now salt dto s closed =
      elim (Bool-cases (is_some (find_by_email lib dto.email s))) [
        | inl e ↦ rw e closed
        | inr e ↦ elim (Bool-cases (is_some (find_by_username lib dto.username s))) [
          | inl d ↦ rw (e, d) closed
          | inr d ↦
              rw (e, d)
                (continue-Keeps id (create lib config now salt dto s) (welcome lib now)
                  (create-Keeps id lib config now salt dto s closed) (welcome-Keeps now))
        ]
      ]

  login_as-Keeps : (now : ℕ) (password : String) (u : User) → Keeps id (login_as lib now password u)
  unfolding login_as
  login_as-Keeps now password u s closed = elim (Bool-cases (is_some u.deleted_at)) [
    | inl e ↦ rw e closed
    | inr e ↦ elim (Bool-cases (lib.compare password u.password_hash)) [
      | inl d ↦ rw (e, d) (update_last_seen-Keeps id now u.id s closed)
      | inr d ↦ rw (e, d) closed
    ]
  ]

  login-Keeps : (now : ℕ) (address password : String) → Keeps id (login lib now address password)
  unfolding login
  login-Keeps now address password s closed = elim (Option-cases (find_by_email lib address s)) [
    | inl e ↦ rw e closed
    | inr (u, e) ↦ rw e (login_as-Keeps now password u s closed)
  ]

  forgot_password-Keeps :
      (now salt : ℕ) (fresh address : String)
      → Keeps id (forgot_password lib now salt fresh address)
  unfolding forgot_password create_password_reset_token
  forgot_password-Keeps now salt fresh address s (early, rows) =
      elim (Option-cases (find_by_email lib address s)) [
        | inl e ↦ rw e (early, rows)
        | inr (u, e) ↦ rw e (omega (arith, early), rows)
      ]

  reset_password-Keeps :
      (now salt : ℕ) (token password : String)
      → Keeps id (reset_password lib now salt token password)
  unfolding reset_password consume_password_reset_token update_password update_user
  reset_password-Keeps now salt token password s closed =
      elim (Option-cases (validate_password_reset_token lib now token s)) [
        | inl e ↦ rw e closed
        | inr (t, e) ↦ rw e (update_password-Keeps id lib salt t.user_id password s closed)
      ]

  change_password-Keeps :
      (salt user_id : ℕ) (old new : String) → Keeps id (change_password lib salt user_id old new)
  unfolding change_password
  change_password-Keeps salt user_id old new s closed = elim (Option-cases (find_by_id user_id s)) [
    | inl e ↦ rw e closed
    | inr (u, e) ↦ elim (Bool-cases (lib.compare old u.password_hash)) [
      | inl d ↦ rw (e, d) (update_password-Keeps id lib salt user_id new s closed)
      | inr d ↦ rw (e, d) closed
    ]
  ]

  soft_delete_account-Keeps : (now user_id : ℕ) → Keeps id (soft_delete_account now user_id)
  unfolding soft_delete_account update_user
  soft_delete_account-Keeps now user_id s closed = elim (Option-cases (find_by_id user_id s)) [
    | inl e ↦ rw e closed
    | inr (u, e) ↦
        let (early, rows) = closed in
        rw e (
          early,
          update_where-All (λ v. (v.id == id) ≡ true → is_some v.deleted_at ≡ true)
              (λ v. v.id == user_id) (closed_account now) s.users (λ v e h same. refl) rows,
        )
  ]

  run_call-Keeps : (c : AccountCall) (s : Store) → IsClosed id s → IsClosed id (run_call lib c s)
  unfolding run_call
  run_call-Keeps (a_register config now salt dto) s h = register-Keeps config now salt dto s h
  run_call-Keeps (a_login now address password) s h = login-Keeps now address password s h
  run_call-Keeps (a_forgot now salt fresh address) s h =
      forgot_password-Keeps now salt fresh address s h
  run_call-Keeps (a_reset now salt token password) s h =
      reset_password-Keeps now salt token password s h
  run_call-Keeps (a_change salt user_id old new) s h =
      change_password-Keeps salt user_id old new s h
  run_call-Keeps (a_delete now user_id) s h = soft_delete_account-Keeps now user_id s h

  pub run_calls-Keeps :
      (cs : List AccountCall) (s : Store) → IsClosed id s → IsClosed id (run_calls lib cs s)
  unfolding run_calls
  run_calls-Keeps [] s h = h
  run_calls-Keeps (c ∷ cs) s h = run_calls-Keeps cs (run_call lib c s) (run_call-Keeps c s h)
