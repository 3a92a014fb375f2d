-- ===== src/Auth/Registering.antt =====
-- src/modules/auth/auth.service.ts: a new account.
use text.Mathlib.TextEquality.{eq_iff}
use text.Mathlib.Text.{◌==◌ as str_eq}
use notaryday_backend.Common.{
  ℕ, ◌≡◌, refl, String, true, false, none, some, List, [], ◌∷◌, find_first, any, Bool-cases, inl,
  inr, ◌∙◌, sym, ap,
}
use notaryday_backend.Schema.{User, Store, ok, err, conflict_error}
use notaryday_backend.Users.{
  Library, UsersConfig, NewUser, new_user, same_login, create, insert_user, update_last_seen,
  find_by_email, find_by_username, seed_signing_defaults, upsert_signing_defaults,
  upsert_signing_default,
}
use notaryday_backend.Billing.{update_user}
use notaryday_backend.Auth.{welcome, register, login, login_as}
use notaryday_backend.Auth.Passwords.{IsHashing}

-- No row has the address, and none has the name.
free_login :
    (email username : String) (new : User) (us : List User)
    → new.email ≡ email
    → new.username ≡ username
    → find_first (λ u. str_eq u.email email) us ≡ none
    → find_first (λ u. str_eq u.username username) us ≡ none
    → any (same_login new) us ≡ false
unfolding find_first any
free_login email username new [] e f h k = refl
free_login email username new (u ∷ us) e f h k = elim (Bool-cases (str_eq u.email email)) [
  | inl a ↦ let hit = rw a at h in cc
  | inr a ↦ elim (Bool-cases (str_eq u.username username)) [
    | inl b ↦ let hit = rw b at k in cc
    | inr b ↦ rw (e, f, a, b) (free_login email username new us e f (rw a at h) (rw b at k))
  ]
]

module _ (lib : Library) where
  register-Added :
      (config : UsersConfig) (now salt : ℕ) (dto : NewUser) (s : Store)
      → find_by_email lib dto.email s ≡ none
      → find_by_username lib dto.username s ≡ none
      → let u = new_user lib config now salt dto s.next_id in
        ((register lib config now salt dto s).0
          ≡ ok (record { user = u; token = lib.sign now u.id u.email }))
        × ((register lib config now salt dto s).1.users ≡ u ∷ s.users)
  unfolding register create insert_user welcome seed_signing_defaults upsert_signing_defaults
      upsert_signing_default
  register-Added config now salt dto s no_email no_name =
      let u = new_user lib config now salt dto s.next_id in
      let unused =
        free_login (lib.to_lower_case dto.email) (lib.to_lower_case dto.username) u s.users refl
          refl no_email no_name in
      rw (no_email, no_name, unused) (refl, refl)

  login_new :
      (time : ℕ) (address password : String) (u : User) (us : List User) (s : Store)
      → s.users ≡ u ∷ us
      → u.email ≡ lib.to_lower_case address
      → u.deleted_at ≡ none
      → lib.compare password u.password_hash ≡ true
      → (login lib time address password s).0
        ≡ ok (record { user = u; token = lib.sign time u.id u.email })
  unfolding login login_as update_last_seen update_user find_first
  login_new time address password u us s shape mine active accepts =
      let hit : str_eq u.email (lib.to_lower_case address) ≡ true = (eq_iff _ _).1 mine in
      rw (shape, hit, active, accepts) refl

-- Where the address and the name are not taken, a registration succeeds. With the database that it
-- leaves, at any time, a login with its password succeeds for every spelling of the address that is the same in lower case, and a second
-- registration for such a spelling is refused as a conflict and changes nothing. bcrypt accepts a
-- text against its own hash.
pub register_once :
    (lib : Library) (config : UsersConfig) (now salt : ℕ) (dto : NewUser) (s : Store)
    → IsHashing lib
    → find_by_email lib dto.email s ≡ none
    → find_by_username lib dto.username s ≡ none
    → let u = new_user lib config now salt dto s.next_id in
      let t = (register lib config now salt dto s).1 in
      ((register lib config now salt dto s).0
        ≡ ok (record { user = u; token = lib.sign now u.id u.email }))
      × ((address : String)
          → lib.to_lower_case dto.email ≡ lib.to_lower_case address
          → ((time : ℕ)
              → (login lib time address dto.password t).0
                ≡ ok (record { user = u; token = lib.sign time u.id u.email }))
            × ((time salt' : ℕ) (other : NewUser)
                → other.email ≡ address
                → register lib config time salt' other t
                  ≡ (err (conflict_error "Email already registered"), t)))
unfolding find_first
register_once lib config now salt dto s hashing no_email no_name =
    let u = new_user lib config now salt dto s.next_id in
    let t = (register lib config now salt dto s).1 in
    let (done, shape) = register-Added lib config now salt dto s no_email no_name in
    (
      done,
      λ address spelling. (
        (λ time.
            login_new lib time address dto.password u s.users t shape spelling refl
              (hashing salt dto.password)),
        λ time salt' other same.
            let hit : str_eq u.email (lib.to_lower_case other.email) ≡ true =
              (eq_iff _ _).1 (spelling ∙ ap lib.to_lower_case (sym same)) in
            let taken : find_by_email lib other.email t ≡ some u = rw (shape, hit) refl in
            unfold register in rw taken refl,
      ),
    )
