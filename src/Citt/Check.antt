-- ===== src/Citt/Check.antt =====
-- src/modules/citt/citt.service.ts: `runCheck` from the cache to the answer.
use notaryday_backend.Common.{
  ℕ, ◌+◌, ◌*◌, Bool, true, false, ◌&&◌, ◌||◌, ◌==◌, not, Option, none, some, is_some, is_empty, ltb,
  leb,
}
use notaryday_backend.Schema.{
  Job, User, UserSettings, Store, M, ◌>>=◌, ◌>>◌, pure, when, if_some, get_store, emit, Env, Point,
  Route, confirmed, in_progress, eq_status, track, conversion,
}
use notaryday_backend.Tables.{get_settings, find_user}
use notaryday_backend.Jobs.{earliest}
use notaryday_backend.Jobs.Editing.{home_of, or_await, get_signing_duration, get_scanback_duration}
use notaryday_backend.Citt.{
  CittCheckDto, CittResult, Reason, low_net, tight_gap, marginal, good, Trip, no_trip, no_address,
  no_home, no_route, declined_result, latest, gap_before_of, gap_after_of, judge,
}

-- The confirmed and running jobs of the day.
abbrev pub is_anchor : ℕ → CittCheckDto → Job → Bool
is_anchor user_id dto j =
    j.user_id == user_id
    && (not (is_some j.deleted_at)
        && ((eq_status j.status confirmed || eq_status j.status in_progress)
            && (leb dto.day_start j.appointment_time && ltb j.appointment_time dto.day_end)))

abbrev pub prev_of : ℕ → CittCheckDto → Store → Option Job
prev_of user_id dto s =
    latest (λ j. is_anchor user_id dto j && leb j.appointment_time dto.appointment_time) s.jobs

abbrev pub next_of : ℕ → CittCheckDto → Store → Option Job
next_of user_id dto s =
    earliest (λ j. is_anchor user_id dto j && ltb dto.appointment_time j.appointment_time) s.jobs

abbrev place_of : Job → Option Point
place_of j = elim j.lat [
  | none ↦ none
  | some a ↦ elim j.lng [ none ↦ none | some b ↦ some (record { lat = a; lng = b }) ]
]

-- Where the notary comes from: the previous job, or the home base.
abbrev pub origin_of : UserSettings → Option Job → Option Point
origin_of settings none = home_of settings
origin_of settings (some prev) = elim (place_of prev) [ none ↦ home_of settings | some p ↦ some p ]

-- The durations of the proposed job.
pub record Minutes : Type 0 where
  pub signing : ℕ
  pub scanback : ℕ

abbrev pub trip : CittCheckDto → Minutes → Option Job → Option Job → Route → Trip
trip dto m prev next r = record {
  distance_miles = r.distance_miles;
  drive_time_mins = r.drive_time_mins;
  gap_before = elim prev [
    | none ↦ none
    | some j ↦ some (gap_before_of dto.appointment_time r.drive_time_mins j)
  ];
  gap_after = elim next [
    | none ↦ none
    | some j ↦ some (gap_after_of (dto.appointment_time + (m.signing + m.scanback) * 60000) j)
  ];
  prev_job = prev;
  next_job = next;
}

-- The answer, when the address is found: a pure function of what was read.
unfoldable pub assess :
    Env → UserSettings → CittCheckDto → Minutes → Option Job → Option Job → Point → CittResult
unfolding judge declined_result
assess env settings dto m prev next there = elim (origin_of settings prev) [
  | none ↦ declined_result no_home no_trip dto.fee settings.irs_rate_per_mile false
  | some origin ↦ elim (env.get_route origin there) [
    | none ↦ declined_result no_route no_trip dto.fee settings.irs_rate_per_mile false
    | some r ↦ judge settings dto m.signing m.scanback (trip dto m prev next r)
  ]
]

-- The analytics and the marketing event at the end of an answered check.
abbrev pub report : ℕ → Option User → M (Unit {0})
report user_id user = do
  emit (track "citt_checked" user_id)
  if_some user (λ u. when (not (is_empty u.email)) (emit (conversion user_id))) (pure tt)

-- The declines return before the report.
abbrev pub is_answered : Reason → Bool
is_answered low_net = true
is_answered tight_gap = true
is_answered marginal = true
is_answered good = true
is_answered _ = false

-- The check of an address that was found.
unfoldable pub check_at : Env → UserSettings → ℕ → CittCheckDto → Point → M CittResult
check_at env settings user_id dto there = do
  signing ← or_await dto.signing_duration_mins (get_signing_duration user_id dto.signing_type)
  scanback ← get_scanback_duration user_id dto.signing_type
  s ← get_store
  let m : Minutes = record { signing = signing; scanback = scanback }
  let r = assess env settings dto m (prev_of user_id dto s) (next_of user_id dto s) there
  when (is_answered r.reason) (report user_id (find_user user_id s))
  pure r

-- `cached` is what the cache holds for this user and these inputs.
unfoldable pub run_check : Env → Option CittResult → ℕ → CittCheckDto → M CittResult
run_check env cached user_id dto = if_some cached pure (do
  settings ← get_settings user_id
  if_some (env.geocode dto.address) (check_at env settings user_id dto)
      (pure (declined_result no_address no_trip 0 0 false)))
