-- ===== src/Users/Defaults.antt =====
-- src/modules/users/user-settings.service.ts: the signing defaults of a user.
use notaryday_backend.Common.{
  ℕ, ◌≡◌, refl, Bool, true, false, ◌&&◌, ◌==◌, not, Option, none, some, List, [], ◌∷◌, or_else,
  find_first, select, any, Bool-cases, Option-cases, inl, inr, arith, if◌then◌else◌, ◌∙◌, sym, ap,
  find_first-update_where, find_first-update_where_away, find_first-select-none,
  find_first-select-all, any-find_first, All-always, ==_iff,
}
use notaryday_backend.Schema.{
  SigningTypeDefault, Store, SigningType, eq_type, eq_type_sound, eq_type_refl,
}
use notaryday_backend.Users.{
  DefaultDto, is_default_of, is_given, upsert_signing_default, upsert_signing_defaults,
  sync_signing_defaults,
}

-- The minutes of a default.
abbrev pub minutes_of : Option SigningTypeDefault → Option (ℕ × ℕ)
minutes_of none = none
minutes_of (some d) = some (d.signing_duration_mins, d.scanback_duration_mins)

-- The minutes that a user has for a type.
abbrev pub minutes_for : ℕ → SigningType → Store → Option (ℕ × ℕ)
minutes_for user_id type s = minutes_of (find_first (is_default_of user_id type) s.signing_defaults)

abbrev pub given_by : SigningType → DefaultDto → Option (ℕ × ℕ)
given_by type d =
    if eq_type d.signing_type type
    then some (d.signing_duration_mins, d.scanback_duration_mins)
    else none

-- The last entry of the list for a type.
unfoldable pub last_given : SigningType → List DefaultDto → Option (ℕ × ℕ)
last_given type [] = none
last_given type (d ∷ ds) = or_else (last_given type ds) (given_by type d)

and_right : (a b : Bool) → (a && b) ≡ true → b ≡ true
and_right a b h = ground (arith, h)

or_else_assoc : {A : Type 0} (a b c : Option A) → or_else a (or_else b c) ≡ or_else (or_else a b) c
or_else_assoc none b c = refl
or_else_assoc (some a) b c = refl

same_key :
    (user_id : ℕ) (type : SigningType) (d : SigningTypeDefault)
    → is_default_of user_id type d ≡ true
    → (d.user_id ≡ user_id) × (d.signing_type ≡ type)
same_key user_id type d h = (
  (==_iff d.user_id user_id).0 (ground (arith, h)),
  eq_type_sound d.signing_type type
      (and_right (d.user_id == user_id) (eq_type d.signing_type type) h),
)

module _ (user_id : ℕ) (type : SigningType) (signing scanback : ℕ) (s : Store) where
  minutes_for-upsert_signing_default :
      minutes_for user_id type (upsert_signing_default user_id type signing scanback s).1
      ≡ some (signing, scanback)
  unfolding upsert_signing_default find_first
  minutes_for-upsert_signing_default =
      elim (Bool-cases (any (is_default_of user_id type) s.signing_defaults)) [
        | inl e ↦
            let (d, found) =
              any-find_first (is_default_of user_id type) (is_default_of user_id type)
                s.signing_defaults e in
            let after =
              find_first-update_where (is_default_of user_id type)
                (λ r. record r {
                  signing_duration_mins = signing;
                  scanback_duration_mins = scanback;
                })
                s.signing_defaults (λ a h. h) found in
            rw (e, after) refl
        | inr e ↦
            let user : (user_id == user_id) ≡ true = ground arith in
            rw (e, user, eq_type_refl type) refl
      ]

  -- The other defaults stay.
  find_first-upsert_signing_default :
      (other : ℕ) (asked : SigningType)
      → (user_id == other && eq_type type asked) ≡ false
      → find_first
          (is_default_of other asked)
          (upsert_signing_default user_id type signing scanback s).1.signing_defaults
        ≡ find_first (is_default_of other asked) s.signing_defaults
  unfolding upsert_signing_default find_first
  find_first-upsert_signing_default other asked differ =
      elim (Bool-cases (any (is_default_of user_id type) s.signing_defaults)) [
        | inl e ↦ rw e (
            find_first-update_where_away (is_default_of user_id type) (is_default_of other asked) _
              s.signing_defaults
              (λ a h.
                let (user, kind) = same_key user_id type a h in
                ap (λ n. n == other && eq_type a.signing_type asked) user
                ∙ ap (λ k. user_id == other && eq_type k asked) kind
                ∙ differ)
              (λ a. refl))
        | inr e ↦ rw (e, differ) refl
      ]

module _ (user_id : ℕ) where
  minutes_after_one :
      (type : SigningType) (d : DefaultDto) (s : Store)
      → minutes_for user_id type
          (upsert_signing_default user_id d.signing_type d.signing_duration_mins
            d.scanback_duration_mins s).1
        ≡ or_else (given_by type d) (minutes_for user_id type s)
  minutes_after_one type d s =
      let after =
        (upsert_signing_default user_id d.signing_type d.signing_duration_mins
          d.scanback_duration_mins s).1 in
      elim (Bool-cases (eq_type d.signing_type type)) [
        | inl e ↦
            let same = eq_type_sound d.signing_type type e in
            rw e (
              ap (λ k. minutes_for user_id k after) (sym same)
              ∙ minutes_for-upsert_signing_default user_id d.signing_type d.signing_duration_mins
                  d.scanback_duration_mins s)
        | inr e ↦
            let user : (user_id == user_id) ≡ true = ground arith in
            rw e (
              ap minutes_of (
                find_first-upsert_signing_default user_id d.signing_type d.signing_duration_mins
                  d.scanback_duration_mins s user_id type (rw (user, e) refl)))
      ]

  minutes_for-upsert_signing_defaults :
      (type : SigningType) (ds : List DefaultDto) (s : Store)
      → minutes_for user_id type (upsert_signing_defaults user_id ds s).1
        ≡ or_else (last_given type ds) (minutes_for user_id type s)
  unfolding upsert_signing_defaults last_given
  minutes_for-upsert_signing_defaults type [] s = refl
  minutes_for-upsert_signing_defaults type (d ∷ ds) s =
      let one =
        upsert_signing_default user_id d.signing_type d.signing_duration_mins
          d.scanback_duration_mins in
      minutes_for-upsert_signing_defaults type ds (one s).1
      ∙ ap (or_else (last_given type ds)) (minutes_after_one type d s)
      ∙ or_else_assoc (last_given type ds) (given_by type d) (minutes_for user_id type s)

  find_first-upsert_signing_defaults :
      (other : ℕ) (asked : SigningType) (ds : List DefaultDto) (s : Store)
      → (user_id == other) ≡ false
      → find_first
          (is_default_of other asked)
          (upsert_signing_defaults user_id ds s).1.signing_defaults
        ≡ find_first (is_default_of other asked) s.signing_defaults
  unfolding upsert_signing_defaults
  find_first-upsert_signing_defaults other asked [] s differ = refl
  find_first-upsert_signing_defaults other asked (d ∷ ds) s differ =
      find_first-upsert_signing_defaults other asked ds _ differ
      ∙ find_first-upsert_signing_default user_id d.signing_type d.signing_duration_mins
          d.scanback_duration_mins s other asked (rw differ refl)

is_given-none :
    (type : SigningType) (ds : List DefaultDto)
    → last_given type ds ≡ none
    → is_given type ds ≡ false
unfolding last_given any
is_given-none type [] h = refl
is_given-none type (d ∷ ds) h = elim (Bool-cases (eq_type d.signing_type type)) [
  | inr e ↦ rw e (is_given-none type ds (or_else_none (last_given type ds) (rw e at h)))
  | inl e ↦ elim (Option-cases (last_given type ds)) [
    | inl f ↦ let hit = rw (e, f) at h in cc
    | inr (m, f) ↦ let hit = rw (e, f) at h in cc
  ]
]
  where
    or_else_none : (o : Option (ℕ × ℕ)) → or_else o none ≡ none → o ≡ none
    or_else_none none k = refl
    or_else_none (some a) k = k

-- After syncSigningDefaults the user has, for each type, the minutes of the last entry of the list for
-- that type, and none where the list has no entry; the defaults of the other users stay.
pub sync_signing_defaults_lem :
    (user_id : ℕ) (ds : List DefaultDto) (type : SigningType) (s : Store)
    → let t = (sync_signing_defaults user_id ds s).1 in
      (minutes_for user_id type t ≡ last_given type ds)
      × ((other : ℕ)
          → (user_id == other) ≡ false
          → find_first (is_default_of other type) t.signing_defaults
            ≡ find_first (is_default_of other type) s.signing_defaults)
unfolding sync_signing_defaults
sync_signing_defaults_lem user_id ds type s =
    let stays =
      λ (d : SigningTypeDefault). not (d.user_id == user_id && not (is_given d.signing_type ds)) in
    (
      minutes_for-upsert_signing_defaults user_id type ds _ ∙ only_given,
      λ other differ.
          find_first-upsert_signing_defaults user_id other type ds _ differ
          ∙ find_first-select-all stays (is_default_of other type) s.signing_defaults
              (λ a h. let (user, _) = same_key other type a h in ground (arith, user, differ)),
    )
  where
    not_selected :
        is_given type ds ≡ false
        → (a : SigningTypeDefault)
        → not (a.user_id == user_id && not (is_given a.signing_type ds)) ≡ true
        → is_default_of user_id type a ≡ false
    not_selected missing a stays = elim (Bool-cases (is_default_of user_id type a)) [
      | inr h ↦ h
      | inl h ↦
          let (user, kind) = same_key user_id type a h in
          let out : is_given a.signing_type ds ≡ false = ap (λ k. is_given k ds) kind ∙ missing in
          let mine : (a.user_id == user_id) ≡ true = (==_iff a.user_id user_id).1 user in
          absurd (ground (arith, stays, out, mine))
    ]

    only_given :
        or_else (last_given type ds) (
          minutes_of (
            find_first (is_default_of user_id type) (
              select
                (λ d. not (d.user_id == user_id && not (is_given d.signing_type ds)))
                s.signing_defaults)))
        ≡ last_given type ds
    only_given = elim (Option-cases (last_given type ds)) [
      | inr (m, e) ↦ rw e refl
      | inl e ↦
          let missing = is_given-none type ds e in
          let gone =
            find_first-select-none (is_default_of user_id type)
              (λ d. not (d.user_id == user_id && not (is_given d.signing_type ds)))
              s.signing_defaults (All-always _ s.signing_defaults (not_selected missing)) in
          rw (e, gone) refl
    ]
