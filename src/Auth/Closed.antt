-- ===== src/Auth/Closed.antt =====
-- src/modules/users/users.service.ts: an account that was deleted stays closed.
use mathlib.Core.Bool.{false≢true}
use text.Mathlib.Text.{◌==◌ as str_eq}
use notaryday_backend.Common.{
  ℕ, ◌<◌, ◌≡◌, refl, String, true, false, ◌==◌, List, [], ◌∷◌, update_where, All, Bool-cases,
  Option-cases, inl, inr, is_some, ◌∙◌, sym, ap, find_first_sound, find_first-All,
}
use notaryday_backend.Schema.{User, Store, HttpError, Result, ok, err, unauthorized}
use notaryday_backend.Users.{
  Library, soft_delete_account, closed_account, update_last_seen, find_by_id, find_by_email,
}
use notaryday_backend.Billing.{update_user}
use notaryday_backend.Auth.{Session, login, login_as, get_me}
use notaryday_backend.Auth.Closing.{IsClosed, AccountCall, run_calls, run_calls-Keeps}

module _ (id : ℕ) where
  closed-rows :
      (now : ℕ) (us : List User)
      → All
          (λ u. (u.id == id) ≡ true → is_some u.deleted_at ≡ true)
          (update_where (λ u. u.id == id) (closed_account now) us)
  unfolding update_where
  closed-rows now [] = tt
  closed-rows now (u ∷ us) = elim (Bool-cases (u.id == id)) [
    | inl e ↦ rw e ((λ _. refl), closed-rows now us)
    | inr e ↦ rw e ((λ h. absurd (false≢true (sym e ∙ h))), closed-rows now us)
  ]

  soft_delete_account-IsClosed :
      (now : ℕ) (s : Store)
      → (soft_delete_account now id s).0 ≡ ok tt
      → id < s.next_id
      → IsClosed id (soft_delete_account now id s).1
  unfolding soft_delete_account update_user
  soft_delete_account-IsClosed now s done early = elim (Option-cases (find_by_id id s)) [
    | inl e ↦ let no_user = rw e at done in cc
    | inr (u, e) ↦ rw e (early, closed-rows now s.users)
  ]

  get_me-refuses : (s : Store) → IsClosed id s → (e : HttpError) × (get_me id s ≡ (err e, s))
  unfolding get_me
  get_me-refuses s (early, rows) = elim (Option-cases (find_by_id id s)) [
    | inl e ↦ (unauthorized "User not found", rw e refl)
    | inr (u, e) ↦
        let mine = find_first_sound (λ v. v.id == id) s.users e in
        let gone =
          find_first-All (λ v. (v.id == id) ≡ true → is_some v.deleted_at ≡ true) (λ v. v.id == id)
            s.users e rows mine in
        (unauthorized "This account has been suspended. Contact support.", rw (e, gone) refl)
  ]

  login-refuses :
      (lib : Library) (now : ℕ) (address password : String) (s : Store) (v : Session)
      → IsClosed id s
      → (login lib now address password s).0 ≡ ok v
      → (v.user.id == id) ≡ false
  unfolding login login_as update_last_seen update_user
  login-refuses lib now address password s v (early, rows) h =
      elim (Option-cases (find_by_email lib address s)) [
        | inl e ↦ let refused = rw e at h in cc
        | inr (u, e) ↦
            let gone =
              find_first-All (λ w. (w.id == id) ≡ true → is_some w.deleted_at ≡ true)
                (λ w. str_eq w.email (lib.to_lower_case address)) s.users e rows in
            elim (Bool-cases (is_some u.deleted_at)) [
              | inl d ↦ let refused = rw (e, d) at h in cc
              | inr d ↦ elim (Bool-cases (lib.compare password u.password_hash)) [
                | inr c ↦ let refused = rw (e, d, c) at h in cc
                | inl c ↦
                    let granted = rw (e, d, c) at h in
                    let same : u ≡ v.user = ap (λ r. session_user u r) granted in
                    elim (Bool-cases (u.id == id)) [
                      | inl m ↦ absurd (false≢true (sym d ∙ gone m))
                      | inr m ↦ ap (λ w. w.id == id) (sym same) ∙ m
                    ]
              ]
            ]
      ]
    where
      session_user : User → Result Session → User
      session_user u (ok w) = w.user
      session_user u (err e) = u

-- Once an account is deleted, no calls reopen it, whatever registrations, logins, resets and changes
-- of passwords follow, in whatever order and for whatever addresses: the guard's getMe refuses the
-- user's identifier, and no login answers with a session of this user.
pub deleted_stays_out :
    (lib : Library) (now id : ℕ) (calls : List AccountCall) (s : Store)
    → id < s.next_id
    → (soft_delete_account now id s).0 ≡ ok tt
    → let t = run_calls lib calls (soft_delete_account now id s).1 in
      ((e : HttpError) × (get_me id t ≡ (err e, t)))
      × ((time : ℕ) (address password : String) (v : Session)
          → (login lib time address password t).0 ≡ ok v
          → (v.user.id == id) ≡ false)
deleted_stays_out lib now id calls s early done =
    let t = run_calls lib calls (soft_delete_account now id s).1 in
    let closed =
      run_calls-Keeps lib id calls (soft_delete_account now id s).1
        (soft_delete_account-IsClosed id now s done early) in
    (
      get_me-refuses id t closed,
      λ time address password v h. login-refuses id lib time address password t v closed h,
    )
