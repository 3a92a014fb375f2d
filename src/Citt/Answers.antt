-- ===== src/Citt/Answers.antt =====
-- src/modules/citt/citt.service.ts: that `runCheck` answers, and leaves the schedule alone.
use notaryday_backend.Common.{
  ℕ, ◌≡◌, refl, sym, subst, ap, ◌∙◌, Option, none, some, find_first, Option-cases, inl, inr, arith,
  get_or, ◌==◌, ◌&&◌, ◌⊎◌, ◌↔◌, ◌+◌, ◌*◌, ◌≤◌, List, true, Bool, if◌then◌else◌,
}
use notaryday_backend.Common.Int.{ℤ, pos, ◌≤ℤ◌, floor_div, ◌-ℤ◌}
use notaryday_backend.Schema.{
  Job, Route, UserSettings, SigningTypeDefault, User, Store, continue, when, pure, Env, Point, ok,
  eq_type,
}
use notaryday_backend.Tables.{get_settings, find_user}
use notaryday_backend.Jobs.{is_scanback_type}
use notaryday_backend.Jobs.Editing.{home_of, get_signing_duration, get_scanback_duration}
use notaryday_backend.Citt.{
  CittCheckDto, CittResult, Trip, gap_before_of, gap_after_of, judge, declined_result,
  answered_result,
}
use notaryday_backend.Citt.Verdicts.{HasRoom, alone, gap, can_make_it_iff}
use notaryday_backend.Citt.Neighbours.{IsPrevious, IsNext, prev_of-IsPrevious, next_of-IsNext}
use notaryday_backend.Citt.Check.{
  Minutes, prev_of, next_of, assess, report, check_at, run_check, origin_of, trip,
}

-- The minutes that a check reads: those of the offer or the user's own, or the usual ones.
unfoldable pub minutes_of : ℕ → CittCheckDto → Store → Minutes
unfolding find_first
minutes_of user_id dto s =
    let mine : SigningTypeDefault → Bool =
      λ d. d.user_id == user_id && eq_type d.signing_type dto.signing_type in
    record {
      signing = get_or dto.signing_duration_mins (elim (find_first mine s.signing_defaults) [
        | none ↦ 60
        | some d ↦ d.signing_duration_mins
      ]);
      scanback =
          if is_scanback_type dto.signing_type
          then elim (find_first mine s.signing_defaults) [
            | none ↦ 20
            | some d ↦ d.scanback_duration_mins
          ]
          else 0;
    }

report-pure :
    (b : Bool) (user_id : ℕ) (user : Option User) (r : CittResult) (s : Store)
    → (continue (when b (report user_id user) s) (λ _. pure r)).0 ≡ ok r
report-pure b user_id user r s = ground arith

-- The answer is the assessment of what was read.
run_check_assesses :
    (env : Env) (user_id : ℕ) (dto : CittCheckDto) (s : Store) {settings : UserSettings}
    {there : Point}
    → find_first (λ r. r.user_id == user_id) s.settings ≡ some settings
    → env.geocode dto.address ≡ some there
    → (run_check env none user_id dto s).0
      ≡ ok (
          assess env settings dto
            (minutes_of user_id dto s)
            (prev_of user_id dto s)
            (next_of user_id dto s)
            there)
unfolding run_check check_at get_settings get_signing_duration get_scanback_duration minutes_of
run_check_assesses env user_id dto s {settings} {there} known found_there =
    elim (Option-cases dto.signing_duration_mins) [
      | inl e ↦ rw (known, found_there, e) (report-pure _ user_id (find_user user_id s) _ s)
      | inr (n, e) ↦ rw (known, found_there, e) (report-pure _ user_id (find_user user_id s) _ s)
    ]

-- Where the notary comes from: the previous appointment, or the home base if there is none or its
-- place is not known.
pub data IsOrigin (home : Point) : Option Job → Point → Type 0 where
  from_home : IsOrigin home none home
  from_job :
      {j : Job} {a b : ℤ}
      → j.lat ≡ some a
      → j.lng ≡ some b
      → IsOrigin home (some j) (record { lat = a; lng = b })
  from_unknown : {j : Job} → (j.lat ≡ none) ⊎ (j.lng ≡ none) → IsOrigin home (some j) home

-- From the end of the previous appointment's signing there is the time to drive to the offer.
abbrev pub CanArrive : ℕ → ℕ → Option Job → Type 0
CanArrive appointment drive_mins none = Unit
CanArrive appointment drive_mins (some j) =
    get_or j.signing_ends_at (j.appointment_time + j.signing_duration_mins * 60000)
      + drive_mins * 60000
    ≤ appointment

-- The offer ends before the next appointment.
abbrev pub CanLeave : ℕ → Option Job → Type 0
CanLeave job_ends_at none = Unit
CanLeave job_ends_at (some j) = job_ends_at ≤ j.appointment_time

-- What a check answers about the schedule.
pub record IsAnswer (user_id : ℕ) (dto : CittCheckDto) (home there : Point)
    (route : Point → Point → Route) (job_ends_at : ℕ) (js : List Job) (r : CittResult)
    : Type 0 where
  pub previous : IsPrevious user_id dto js r.prev_job
  pub next : IsNext user_id dto js r.next_job
  pub origin : Point
  pub comes_from : IsOrigin home r.prev_job origin
  pub miles : r.drive_distance_miles ≡ (route origin there).distance_miles
  pub minutes : r.drive_time_mins ≡ (route origin there).drive_time_mins
  pub can_make_it : (r.can_make_it ≡ true) ↔ (
      CanArrive dto.appointment_time r.drive_time_mins r.prev_job × CanLeave job_ends_at r.next_job)

origin_of-IsOrigin :
    (settings : UserSettings) (prev : Option Job) {home : Point}
    → home_of settings ≡ some home
    → (o : Point) × (origin_of settings prev ≡ some o) × IsOrigin home prev o
origin_of-IsOrigin settings none {home} at = (home, at, from_home)
origin_of-IsOrigin settings (some j) {home} at = elim (Option-cases j.lat) [
  | inl e ↦ (home, rw (e) at, from_unknown (inl e))
  | inr (a, e) ↦ elim (Option-cases j.lng) [
    | inl d ↦ (home, rw (e, d) at, from_unknown (inr d))
    | inr (b, d) ↦ (record { lat = a; lng = b }, rw (e, d) refl, from_job e d)
  ]
]

room_before :
    (appointment drive_mins : ℕ) (prev : Job)
    → (pos 0 ≤ℤ gap_before_of appointment drive_mins prev)
      ↔ CanArrive appointment drive_mins (some prev)
unfolding gap_before_of ◌-ℤ◌ floor_div
room_before appointment drive_mins prev = ((λ h. ground (arith, h)), (λ h. ground (arith, h)))

room_after :
    (job_ends_at : ℕ) (next : Job)
    → (pos 0 ≤ℤ gap_after_of job_ends_at next) ↔ CanLeave job_ends_at (some next)
unfolding gap_after_of floor_div
room_after job_ends_at next = ((λ h. ground (arith, h)), (λ h. ground (arith, h)))

in_gap : {bound g : ℤ} → HasRoom bound (some g) → bound ≤ℤ g
in_gap (gap h) = h

-- Both gaps of a trip, by its neighbouring appointments.
trip_rooms :
    (dto : CittCheckDto) (m : Minutes) (prev next : Option Job) (r : Route)
    → (HasRoom (pos 0) (trip dto m prev next r).gap_before
        ↔ CanArrive dto.appointment_time r.drive_time_mins prev)
      × (HasRoom (pos 0) (trip dto m prev next r).gap_after
          ↔ CanLeave (dto.appointment_time + (m.signing + m.scanback) * 60000) next)
trip_rooms dto m prev next r = (before prev, after next)
  where
    before :
        (o : Option Job)
        → HasRoom (pos 0) (trip dto m o next r).gap_before
          ↔ CanArrive dto.appointment_time r.drive_time_mins o
    before none = ((λ _. tt), (λ _. alone))
    before (some j) =
        let (there, back) = room_before dto.appointment_time r.drive_time_mins j in
        ((λ h. there (in_gap h)), (λ h. gap (back h)))

    after :
        (o : Option Job)
        → HasRoom (pos 0) (trip dto m prev o r).gap_after
          ↔ CanLeave (dto.appointment_time + (m.signing + m.scanback) * 60000) o
    after none = ((λ _. tt), (λ _. alone))
    after (some j) =
        let (there, back) =
          room_after (dto.appointment_time + (m.signing + m.scanback) * 60000) j in
        ((λ h. there (in_gap h)), (λ h. gap (back h)))

-- Every branch of the judgement passes the trip on.
judge_trip :
    (settings : UserSettings) (dto : CittCheckDto) (signing scanback : ℕ) (t : Trip)
    → let r = judge settings dto signing scanback t in
      (r.prev_job ≡ t.prev_job)
      × (r.next_job ≡ t.next_job)
      × (r.drive_distance_miles ≡ t.distance_miles)
      × (r.drive_time_mins ≡ t.drive_time_mins)
unfolding judge declined_result answered_result
judge_trip settings dto signing scanback t = ground arith

judge-IsAnswer :
    (settings : UserSettings) (user_id : ℕ) (dto : CittCheckDto) (m : Minutes) (s : Store)
    (home there origin : Point) (route : Point → Point → Route)
    → IsOrigin home (prev_of user_id dto s) origin
    → IsAnswer user_id dto home there route
        (dto.appointment_time + (m.signing + m.scanback) * 60000)
        s.jobs
        (judge settings dto m.signing m.scanback
          (trip dto m (prev_of user_id dto s) (next_of user_id dto s) (route origin there)))
judge-IsAnswer settings user_id dto m s home there origin route from =
    let t = trip dto m (prev_of user_id dto s) (next_of user_id dto s) (route origin there) in
    let (prev, next, miles, mins) = judge_trip settings dto m.signing m.scanback t in
    let (before, after) =
      trip_rooms dto m (prev_of user_id dto s) (next_of user_id dto s) (route origin there) in
    let (made, makes) = can_make_it_iff settings dto m.signing m.scanback t in
    record {
      previous =
          subst (IsPrevious user_id dto s.jobs) (sym prev) (prev_of-IsPrevious user_id dto s);
      next = subst (IsNext user_id dto s.jobs) (sym next) (next_of-IsNext user_id dto s);
      origin = origin;
      comes_from = subst (λ o. IsOrigin home o origin) (sym prev) from;
      miles = miles;
      minutes = mins;
      can_make_it =
          rw (prev, next, mins)
            (
              (λ h. let (b, a) = made h in (before.0 b, after.0 a)),
              (λ (b, a). makes (before.1 b, after.1 a)),
            );
    }

assess_from :
    (env : Env) (settings : UserSettings) (dto : CittCheckDto) (m : Minutes)
    (prev next : Option Job) (there : Point) {origin : Point} {r : Route}
    → origin_of settings prev ≡ some origin
    → env.get_route origin there ≡ some r
    → assess env settings dto m prev next there
      ≡ judge settings dto m.signing m.scanback (trip dto m prev next r)
unfolding assess
assess_from env settings dto m prev next there starts way = ground (arith, starts, way)

-- A check that is not cached, of a user with settings and a home base, at an address that is found,
-- where every route is known, is always answered: with the last of the user's confirmed or running
-- appointments of the day up to the offered time, the first one after it, and the way from the place
-- of the former, or from home; and the answer is that the notary can make it exactly if there is time
-- to drive there from the end of the former's signing, and the offer's signing and scanback end before
-- the latter.
pub run_check_answers :
    (env : Env) (user_id : ℕ) (dto : CittCheckDto) (s : Store) (route : Point → Point → Route)
    {settings : UserSettings} {home there : Point}
    → find_first (λ r. r.user_id == user_id) s.settings ≡ some settings
    → home_of settings ≡ some home
    → env.geocode dto.address ≡ some there
    → ((a b : Point) → env.get_route a b ≡ some (route a b))
    → (r : CittResult) × ((run_check env none user_id dto s).0 ≡ ok r)
      × IsAnswer user_id dto home there route
          (dto.appointment_time
            + ((minutes_of user_id dto s).signing + (minutes_of user_id dto s).scanback) * 60000)
          s.jobs
          r
run_check_answers env user_id dto s route {settings} {home} {there} known based found_there routes =
    let m = minutes_of user_id dto s in
    let prev = prev_of user_id dto s in
    let next = next_of user_id dto s in
    let (origin, starts, from) = origin_of-IsOrigin settings prev based in
    let r = judge settings dto m.signing m.scanback (trip dto m prev next (route origin there)) in
    let assessed : assess env settings dto m prev next there ≡ r =
      assess_from env settings dto m prev next there starts (routes origin there) in
    (
      r,
      run_check_assesses env user_id dto s known found_there ∙ ap (λ a. ok a) assessed,
      judge-IsAnswer settings user_id dto m s home there origin route from,
    )
