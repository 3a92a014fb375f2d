-- ===== src/Examples/Planner.antt =====
-- Runs of the planner (src/modules/planner/planner.service.ts).
use notaryday_backend.Common.{ℕ, ◌≡◌, ◌⊎◌, refl, some, Option, List, [], ◌∷◌, select}
use notaryday_backend.Schema.{Job, Store, Point, confirmed, pending}
use notaryday_backend.Tables.{get_settings}
use notaryday_backend.Planner.{sort_by_time, ors_optimise, fallback_time_order}
use notaryday_backend.Planner.Today.{Conflict, home_point}
use notaryday_backend.Planner.Optimise.{optimise, apply_route}
use notaryday_backend.Planner.Feasible.{IsReachable, optimise_applies}
use notaryday_backend.Examples.{env, settings, job, rows}

-- At ten and at two, with a job between them that is not taken yet.
abbrev morning : Job
morning = record job { status = confirmed }

abbrev afternoon : Job
afternoon = record job {
  id = 6;
  status = confirmed;
  appointment_time = 50400000;
  signing_ends_at = some 54000000;
  scanback_ends_at = some 55800000;
  drive_from_prev_mins = some 200;
}

abbrev offered : Job
offered = record job { id = 8; status = pending; appointment_time = 43200000 }

abbrev day_rows : Store
day_rows = record rows { jobs = afternoon ∷ offered ∷ morning ∷ [] }

-- A solver that takes the second job first.
abbrev backwards : Point → List Job → Option (List ℕ)
backwards _ _ = some (2 ∷ 1 ∷ [])

abbrev day_list : List Job
day_list = morning ∷ afternoon ∷ []

optimise_applies_example :
    (IsReachable day_list (ors_optimise env backwards (home_point settings) day_list)
      × (optimise env backwards 1 0 86400000 day_rows
          ≡ apply_route env 1 0 86400000 day_list
              (ors_optimise env backwards (home_point settings) day_list)
              (home_point settings)
              day_rows))
    ⊎ ((¬ IsReachable day_list (ors_optimise env backwards (home_point settings) day_list))
        × (optimise env backwards 1 0 86400000 day_rows
            ≡ apply_route env 1 0 86400000 day_list
                (fallback_time_order env (home_point settings) day_list)
                (home_point settings)
                day_rows))
unfolding get_settings select sort_by_time
optimise_applies_example =
    optimise_applies env backwards 1 0 86400000 day_rows {settings = settings} {j = morning}
      {js = afternoon ∷ []} refl refl refl

-- The drive of two hundred minutes does not fit between half past eleven and two.
abbrev shortfall : Conflict
shortfall = record { from_job_id = 5; to_job_id = 6; shortfall_mins = 50 }
