-- ===== src/Planner/Optimise.antt =====
-- src/modules/planner/planner.service.ts: `optimise` and `applyRoute`.
use notaryday_backend.Common.{
  ℕ, ◌+◌, ◌*◌, Bool, true, false, ◌&&◌, ◌||◌, ◌==◌, not, Option, none, some, List, [], ◌∷◌,
  find_first, update_where, any, select, if◌then◌else◌,
}
use notaryday_backend.Schema.{
  Job, DayPlan, M, ◌>>=◌, ◌>>◌, get_store, emit, ok, Env, Point, route_cache_del,
}
use notaryday_backend.Tables.{get_settings}
use notaryday_backend.Planner.{Leg, is_place, sort_by_time, fallback_time_order, chosen_legs}
use notaryday_backend.Planner.Today.{TodayPlan, is_planned, home_point, total_earnings, get_today}

-- The columns that `applyRoute` writes, from the job as it was read.
abbrev pub routed : Leg → Job → Job → Job
routed l job r = record r {
  route_sequence = some l.sequence;
  drive_from_prev_mins = some l.drive_from_prev_mins;
  drive_from_prev_miles = some l.drive_from_prev_miles;
  scanback_ends_at = elim job.signing_ends_at [
    | none ↦ none
    | some t ↦ some (t + job.scanback_duration_mins * 60000)
  ];
}

-- The loop of `applyRoute`, on the table.
unfoldable pub apply_legs : List Job → List Leg → List Job → List Job
unfolding find_first update_where
apply_legs jobs [] rows = rows
apply_legs jobs (l ∷ ls) rows = apply_legs jobs ls (elim (find_first (λ j. j.id == l.job_id) jobs) [
  | none ↦ rows
  | some job ↦ update_where (λ r. r.id == l.job_id) (routed l job) rows
])

unfoldable pub total_of_legs : List Leg → ℕ
total_of_legs [] = 0
total_of_legs (l ∷ ls) = l.drive_from_prev_mins + total_of_legs ls

abbrev pub job_ids : List Job → List ℕ
job_ids [] = []
job_ids (j ∷ js) = j.id ∷ job_ids js

abbrev pub leg_ids : List Leg → List ℕ
leg_ids [] = []
leg_ids (l ∷ ls) = l.job_id ∷ leg_ids ls

-- `a.join('|') !== b.join('|')`, negated
unfoldable pub same_ids : List ℕ → List ℕ → Bool
same_ids [] [] = true
same_ids [] (_ ∷ _) = false
same_ids (_ ∷ _) [] = false
same_ids (a ∷ xs) (b ∷ ys) = a == b && same_ids xs ys

unfoldable pub naive_drive : Env → Point → List Job → List Leg → ℕ
unfolding same_ids total_of_legs fallback_time_order sort_by_time
naive_drive env home jobs legs =
    if same_ids (leg_ids legs) (job_ids (sort_by_time jobs))
    then total_of_legs legs
    else total_of_legs (fallback_time_order env home jobs)

-- `dayPlan.upsert`
abbrev pub is_plan_of : ℕ → ℕ → DayPlan → Bool
is_plan_of user_id day p = p.user_id == user_id && p.date == day

unfoldable pub upsert_plan : DayPlan → List DayPlan → List DayPlan
unfolding any update_where
upsert_plan new plans =
    if any (is_plan_of new.user_id new.date) plans
    then update_where (is_plan_of new.user_id new.date) (λ p. new) plans
    else new ∷ plans

abbrev write_route : ℕ → ℕ → List Job → List Leg → ℕ → M (Unit {0})
write_route user_id day jobs legs naive s = (
  ok tt,
  record s {
    jobs = apply_legs jobs legs s.jobs;
    day_plans =
        upsert_plan
          (record {
            user_id = user_id;
            date = day;
            total_drive_time = total_of_legs legs;
            naive_total_drive_time = some naive;
            total_earnings = total_earnings jobs;
          })
          s.day_plans;
  },
)

unfoldable pub apply_route : Env → ℕ → ℕ → ℕ → List Job → List Leg → Point → M TodayPlan
unfolding apply_legs upsert_plan total_of_legs naive_drive
apply_route env user_id day next jobs legs home = do
  write_route user_id day jobs legs (naive_drive env home jobs legs)
  emit (route_cache_del user_id day)
  get_today env user_id day next

abbrev no_jobs : List Job → Bool
no_jobs [] = true
no_jobs (_ ∷ _) = false

unfoldable pub optimise : Env → (Point → List Job → Option (List ℕ)) → ℕ → ℕ → ℕ → M TodayPlan
unfolding chosen_legs sort_by_time select
optimise env solve user_id day next = do
  settings ← get_settings user_id
  s ← get_store
  let home = home_point settings
  let jobs = sort_by_time (select (is_planned user_id day next) s.jobs)
  if not (is_place home) || no_jobs jobs
      then get_today env user_id day next
      else apply_route env user_id day next jobs (chosen_legs env solve home jobs) home
