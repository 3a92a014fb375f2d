-- ===== src/Planner/Today.antt =====
-- src/modules/planner/planner.service.ts: `getToday` and `populateDriveTimes`.
--
-- A day is given by its start and its end. `PlannerJob` is a job's row; a missing net amount is 0.
use notaryday_backend.Common.{
  ℕ, ◌+◌, ◌*◌, ◌-◌, ◌/◌, Bool, true, false, ◌&&◌, ◌||◌, ◌==◌, not, Option, none, some, List, [],
  ◌∷◌, get_or, or_else, is_some, find_first, sort_by, update_where, select, any, length,
  if◌then◌else◌, leb, ltb,
}
use notaryday_backend.Common.Int.{ℤ, pos, ◌+ℤ◌}
use notaryday_backend.Schema.{
  Job, DayPlan, UserSettings, Store, M, ◌>>=◌, ◌>>◌, pure, get_store, ok, Env, Point, Route,
  confirmed, in_progress, scanning, eq_status,
}
use notaryday_backend.Tables.{get_settings}
use notaryday_backend.Planner.{place, is_place, sort_by_time}

-- The jobs of the day that hold time.
abbrev pub is_planned : ℕ → ℕ → ℕ → Job → Bool
is_planned user_id day next j =
    j.user_id == user_id
    && (not (is_some j.deleted_at)
        && ((eq_status j.status confirmed
              || (eq_status j.status in_progress || eq_status j.status scanning))
            && (leb day j.appointment_time && ltb j.appointment_time next)))

-- `orderBy: [{ route_sequence: 'asc' }, { appointment_time: 'asc' }]`; a missing sequence comes last.
abbrev pub comes_before : Job → Job → Bool
comes_before a b = elim a.route_sequence [
  | none ↦ elim b.route_sequence [
    | none ↦ leb a.appointment_time b.appointment_time
    | some n ↦ false
  ]
  | some m ↦ elim b.route_sequence [
    | none ↦ true
    | some n ↦ ltb m n || (m == n && leb a.appointment_time b.appointment_time)
  ]
]

unfoldable pub sort_by_route : List Job → List Job
unfolding sort_by
sort_by_route = sort_by comes_before

-- A drive that `populateDriveTimes` has computed for a job.
pub record Drive : Type 0 where
  pub job_id : ℕ
  pub route : Route

abbrev pub home_point : UserSettings → Point
home_point settings = record {
  lat = get_or settings.home_base_lat (pos 0);
  lng = get_or settings.home_base_lng (pos 0);
}

abbrev pub route_between : Env → Point → Job → Option Route
route_between env origin j = if is_place origin then env.get_route origin (place j) else none

-- The walk over the day in the order of the appointments.
unfoldable pub missing_drives : Env → Point → List Job → List Drive
missing_drives env origin [] = []
missing_drives env origin (j ∷ js) = elim j.drive_from_prev_mins [
  | some n ↦ missing_drives env (place j) js
  | none ↦ elim (route_between env origin j) [
    | none ↦ missing_drives env origin js
    | some r ↦ record { job_id = j.id; route = r } ∷ missing_drives env (place j) js
  ]
]

abbrev pub with_drive : Drive → Job → Job
with_drive d j = record j {
  drive_from_prev_mins = some d.route.drive_time_mins;
  drive_from_prev_miles = some d.route.distance_miles;
}

-- The writes of the drives, on a list of jobs.
unfoldable pub set_drives : List Drive → List Job → List Job
unfolding update_where
set_drives [] js = js
set_drives (d ∷ ds) js = set_drives ds (update_where (λ j. j.id == d.job_id) (with_drive d) js)

abbrev pub write_drives : List Drive → M (Unit {0})
write_drives ds s = (ok tt, record s { jobs = set_drives ds s.jobs })

-- `populateDriveTimes`: the rows and the jobs at hand are changed alike.
unfoldable pub populate_drive_times : Env → ℕ → List Job → M (List Job)
unfolding missing_drives set_drives sort_by_time any
populate_drive_times env user_id jobs =
    if any (λ j. not (is_some j.drive_from_prev_mins)) jobs
    then (do
      settings ← get_settings user_id
      let drives = missing_drives env (home_point settings) (sort_by_time jobs)
      write_drives drives
      pure (set_drives drives jobs))
    else pure jobs

pub record ScanbackBlock : Type 0 where
  pub job_id : ℕ
  pub starts_at : ℕ
  pub ends_at : ℕ
  pub duration_mins : ℕ

unfoldable pub scanback_blocks : List Job → List ScanbackBlock
scanback_blocks [] = []
scanback_blocks (j ∷ js) =
    let rest = scanback_blocks js in
    if ltb 0 j.scanback_duration_mins
    then elim j.signing_ends_at [
      | none ↦ rest
      | some t ↦
          record {
            job_id = j.id;
            starts_at = t;
            ends_at = get_or j.scanback_ends_at (t + j.scanback_duration_mins * 60000);
            duration_mins = j.scanback_duration_mins;
          }
          ∷ rest
    ]
    else rest

pub record Conflict : Type 0 where
  pub from_job_id : ℕ
  pub to_job_id : ℕ
  pub shortfall_mins : ℕ

-- When the notary is needed at the next job, less when she gets there, in milliseconds; the
-- shortfall is rounded up to minutes.
abbrev pub arrival : ℕ → Job → ℕ
arrival ends next = ends + get_or next.drive_from_prev_mins 0 * 60000

abbrev pub conflict_between : Job → Job → Option Conflict
conflict_between current next = elim (or_else current.scanback_ends_at current.signing_ends_at) [
  | none ↦ none
  | some ends ↦
      if ltb next.appointment_time (arrival ends next)
      then some (record {
        from_job_id = current.id;
        to_job_id = next.id;
        shortfall_mins = (arrival ends next - next.appointment_time + 59999) / 60000;
      })
      else none
]

abbrev pub with_conflict : Option Conflict → List Conflict → List Conflict
with_conflict none cs = cs
with_conflict (some c) cs = c ∷ cs

unfoldable pub conflicts : List Job → List Conflict
conflicts [] = []
conflicts (j ∷ []) = []
conflicts (j ∷ k ∷ js) = with_conflict (conflict_between j k) (conflicts (k ∷ js))

pub record Summary : Type 0 where
  pub total_jobs : ℕ
  pub total_drive_mins : ℕ
  pub total_earnings : ℤ
  pub total_miles : ℕ
  pub naive_total_drive_mins : Option ℕ
  pub saved_drive_mins : Option ℕ

pub record TodayPlan : Type 0 where
  pub jobs : List Job
  pub scanback_blocks : List ScanbackBlock
  pub summary : Summary
  pub is_optimised : Bool
  pub conflicts : List Conflict

unfoldable pub total_drive : List Job → ℕ
total_drive [] = 0
total_drive (j ∷ js) = get_or j.drive_from_prev_mins 0 + total_drive js

unfoldable pub total_miles : List Job → ℕ
total_miles [] = 0
total_miles (j ∷ js) = get_or j.drive_from_prev_miles 0 + total_miles js

unfoldable pub total_earnings : List Job → ℤ
unfolding ◌+ℤ◌
total_earnings [] = pos 0
total_earnings (j ∷ js) = get_or j.net_earnings (pos 0) +ℤ total_earnings js

-- The drive time of the time order, which `optimise` has left with the day.
unfoldable pub naive_total : ℕ → ℕ → List DayPlan → Option ℕ
unfolding find_first
naive_total user_id day plans =
    elim (find_first (λ p. p.user_id == user_id && p.date == day) plans) [
      | none ↦ none
      | some p ↦ p.naive_total_drive_time
    ]

abbrev saved_mins : Option ℕ → ℕ → Option ℕ
saved_mins none total = none
saved_mins (some naive) total = some (naive - total)

unfoldable pub summary_of : List Job → Option ℕ → Summary
unfolding total_drive total_miles total_earnings
summary_of jobs naive =
    let shown : Option ℕ = if ltb 0 (total_drive jobs) then naive else none in
    record {
      total_jobs = length jobs;
      total_drive_mins = total_drive jobs;
      total_earnings = total_earnings jobs;
      total_miles = total_miles jobs;
      naive_total_drive_mins = shown;
      saved_drive_mins = saved_mins shown (total_drive jobs);
    }

-- `jobs.length > 0 && jobs[0].route_sequence != null`
abbrev pub is_routed : List Job → Bool
is_routed [] = false
is_routed (j ∷ js) = is_some j.route_sequence

abbrev pub today_plan : ℕ → ℕ → List Job → List Job → Store → TodayPlan
today_plan user_id day listed jobs t = record {
  jobs = jobs;
  scanback_blocks = scanback_blocks jobs;
  summary = summary_of jobs (naive_total user_id day t.day_plans);
  is_optimised = is_routed listed;
  conflicts = conflicts jobs;
}

unfoldable pub get_today : Env → ℕ → ℕ → ℕ → M TodayPlan
unfolding populate_drive_times sort_by_route select scanback_blocks conflicts summary_of naive_total
get_today env user_id day next = do
  s ← get_store
  let listed = sort_by_route (select (is_planned user_id day next) s.jobs)
  jobs ← populate_drive_times env user_id listed
  t ← get_store
  pure (today_plan user_id day listed jobs t)
