-- ===== src/Planner.antt =====
-- src/common/services/ors.service.ts (`optimise`, `fallbackTimeOrder`) and the routes of
-- src/modules/planner/planner.service.ts: the legs of a day and whether they can be reached.
--
-- `solve` stands for the request to the OpenRouteService optimiser: the numbers of its steps of type
-- `job`, or none where the request fails or brings no steps.
pub mod Today
pub mod Optimise
pub mod Gaps
pub mod Feasible
pub mod TimeOrder
pub mod Conflicts
use notaryday_backend.Common.{
  ℕ, zero, suc, ◌+◌, ◌*◌, ◌-◌, Bool, true, false, ◌&&◌, ◌||◌, ◌==◌, not, Option, none, some, List,
  [], ◌∷◌, map, get_or, find_first, if◌then◌else◌, leb, sort_by,
}
use notaryday_backend.Common.Int.{ℤ, pos, pos_part, neg_part}
use notaryday_backend.Schema.{Job, Env, Point, Route}

-- `Number(j.lat)` and `Number(j.lng)`: a missing coordinate is 0.
abbrev pub place : Job → Point
place j = record { lat = get_or j.lat (pos 0); lng = get_or j.lng (pos 0) }

-- `lat && lng`: neither coordinate is 0.
abbrev pub is_place : Point → Bool
is_place p =
    not (pos_part p.lat + neg_part p.lat == 0) && not (pos_part p.lng + neg_part p.lng == 0)

-- OptimisedLeg
pub record Leg : Type 0 where
  pub job_id : ℕ
  pub sequence : ℕ
  pub drive_from_prev_mins : ℕ
  pub drive_from_prev_miles : ℕ

abbrev pub mins_of : Option Route → ℕ
mins_of none = 0
mins_of (some r) = r.drive_time_mins

abbrev pub miles_of : Option Route → ℕ
miles_of none = 0
miles_of (some r) = r.distance_miles

abbrev pub leg : ℕ → ℕ → Option Route → Leg
leg job_id sequence r = record {
  job_id = job_id;
  sequence = sequence;
  drive_from_prev_mins = mins_of r;
  drive_from_prev_miles = miles_of r;
}

-- A stable sort by `appointment_time`.
abbrev pub is_earlier : Job → Job → Bool
is_earlier j k = leb j.appointment_time k.appointment_time

unfoldable pub sort_by_time : List Job → List Job
unfolding sort_by
sort_by_time = sort_by is_earlier

-- The legs from stop to stop, numbered from `sequence` on.
unfoldable pub legs_along : Env → Point → ℕ → List Job → List Leg
legs_along env origin sequence [] = []
legs_along env origin sequence (j ∷ js) =
    leg j.id sequence (env.get_route origin (place j)) ∷ legs_along env (place j) (sequence + 1) js

unfoldable pub fallback_time_order : Env → Point → List Job → List Leg
unfolding sort_by_time legs_along
fallback_time_order env home jobs = legs_along env home 1 (sort_by_time jobs)

-- `jobs[id - 1]`
unfoldable pub nth_job : List Job → ℕ → Option Job
nth_job [] id = none
nth_job (j ∷ js) zero = none
nth_job (j ∷ js) (suc zero) = some j
nth_job (j ∷ js) (suc (suc n)) = nth_job js (suc n)

-- The route to a step: from home for the first step, else from the step before, if it has a job.
abbrev pub route_from : Env → Option Job → Job → Option Route
route_from env none j = none
route_from env (some p) j = env.get_route (place p) (place j)

-- The loop over the solver's steps; `i` counts them, and an unknown number is left out.
unfoldable pub legs_after : Env → List Job → ℕ → ℕ → List ℕ → List Leg
unfolding nth_job
legs_after env jobs previous i [] = []
legs_after env jobs previous i (id ∷ ids) =
    let rest = legs_after env jobs id (i + 1) ids in
    elim (nth_job jobs id) [
      | none ↦ rest
      | some j ↦ leg j.id (i + 1) (route_from env (nth_job jobs previous) j) ∷ rest
    ]

unfoldable pub legs_of_steps : Env → Point → List Job → List ℕ → List Leg
unfolding nth_job legs_after
legs_of_steps env home jobs [] = []
legs_of_steps env home jobs (id ∷ ids) =
    let rest = legs_after env jobs id 1 ids in
    elim (nth_job jobs id) [
      | none ↦ rest
      | some j ↦ leg j.id 1 (env.get_route home (place j)) ∷ rest
    ]

-- `OrsService.optimise`
unfoldable pub ors_optimise :
    Env → (Point → List Job → Option (List ℕ)) → Point → List Job → List Leg
unfolding legs_of_steps fallback_time_order
ors_optimise env solve home [] = []
ors_optimise env solve home (j ∷ []) = leg j.id 1 (env.get_route home (place j)) ∷ []
ors_optimise env solve home (j ∷ k ∷ js) = elim (solve home (j ∷ k ∷ js)) [
  | none ↦ fallback_time_order env home (j ∷ k ∷ js)
  | some ids ↦ legs_of_steps env home (j ∷ k ∷ js) ids
]

-- The test of one leg: the end of the previous job, the drive, ten minutes of tolerance.
abbrev pub reaches : Job → Leg → Job → Bool
reaches previous l job =
    leb
      (previous.appointment_time
        + (previous.signing_duration_mins + previous.scanback_duration_mins) * 60000
        + l.drive_from_prev_mins * 60000)
      (job.appointment_time + 10 * 60000)

-- A leg whose job is not in the list is passed over.
abbrev pub leg_feasible : List Job → Leg → Leg → Bool
leg_feasible jobs p l = elim (find_first (λ j. j.id == p.job_id) jobs) [
  | none ↦ true
  | some previous ↦ elim (find_first (λ j. j.id == l.job_id) jobs) [
    | none ↦ true
    | some job ↦ reaches previous l job
  ]
]

unfoldable pub is_feasible_order : List Job → List Leg → Bool
unfolding find_first
is_feasible_order jobs [] = true
is_feasible_order jobs (l ∷ []) = true
is_feasible_order jobs (p ∷ l ∷ ls) = leg_feasible jobs p l && is_feasible_order jobs (l ∷ ls)

-- The legs that `optimise` applies: the solver's, or those of the time order if they cannot be met.
unfoldable pub chosen_legs :
    Env → (Point → List Job → Option (List ℕ)) → Point → List Job → List Leg
unfolding ors_optimise is_feasible_order fallback_time_order
chosen_legs env solve home jobs =
    if is_feasible_order jobs (ors_optimise env solve home jobs)
    then ors_optimise env solve home jobs
    else fallback_time_order env home jobs
