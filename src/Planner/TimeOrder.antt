-- ===== src/Planner/TimeOrder.antt =====
-- src/common/services/ors.service.ts: what `fallbackTimeOrder` returns.
use mathlib.Core.List.{Perm}
use notaryday_backend.Common.{
  ℕ, ◌+◌, ◌≤◌, ◌≡◌, refl, ap, List, [], ◌∷◌, All, All-map, sort_by, IsSortedBy, sort_by-IsSortedBy,
  sort_by-perm, leb→le, arith,
}
use notaryday_backend.Schema.{Job, Env, Point}
use notaryday_backend.Planner.{
  Leg, place, is_earlier, sort_by_time, legs_along, fallback_time_order,
}
use notaryday_backend.Planner.Optimise.{leg_ids, job_ids}

-- No job starts before an earlier one of the list.
abbrev pub IsTimed : List Job → Type 0
IsTimed [] = Unit
IsTimed (j ∷ js) = All (λ k. j.appointment_time ≤ k.appointment_time) js × IsTimed js

-- The legs are numbered from `n` on.
abbrev pub IsNumbered : ℕ → List Leg → Type 0
IsNumbered n [] = Unit
IsNumbered n (l ∷ ls) = (l.sequence ≡ n) × IsNumbered (n + 1) ls

IsSortedBy-IsTimed : (js : List Job) → IsSortedBy is_earlier js → IsTimed js
IsSortedBy-IsTimed [] h = tt
IsSortedBy-IsTimed (j ∷ js) (h, hs) = (
  All-map _ _ js (λ k e. leb→le j.appointment_time k.appointment_time e) h,
  IsSortedBy-IsTimed js hs,
)

sort_by_time-IsTimed : (js : List Job) → IsTimed (sort_by_time js)
unfolding sort_by_time
sort_by_time-IsTimed js = IsSortedBy-IsTimed (sort_by is_earlier js) (
    sort_by-IsSortedBy is_earlier (λ j k e. ground (arith, e)) (λ j k l e f. ground (arith, e, f))
      js)

sort_by_time-perm : (js : List Job) → Perm (sort_by_time js) js
unfolding sort_by_time
sort_by_time-perm js = sort_by-perm is_earlier js

legs_along_ids :
    (env : Env) (origin : Point) (n : ℕ) (js : List Job)
    → leg_ids (legs_along env origin n js) ≡ job_ids js
unfolding legs_along
legs_along_ids env origin n [] = refl
legs_along_ids env origin n (j ∷ js) =
    ap (λ is. j.id ∷ is) (legs_along_ids env (place j) (n + 1) js)

legs_along-IsNumbered :
    (env : Env) (origin : Point) (n : ℕ) (js : List Job) → IsNumbered n (legs_along env origin n js)
unfolding legs_along
legs_along-IsNumbered env origin n [] = tt
legs_along-IsNumbered env origin n (j ∷ js) = (refl, legs_along-IsNumbered env (place j) (n + 1) js)

-- The time order visits every job of the day once, in the order of the appointments, and numbers the
-- legs from 1 on.
pub fallback_time_order_lem :
    (env : Env) (home : Point) (jobs : List Job)
    → (sorted : List Job) × Perm sorted jobs
      × IsTimed sorted
      × (leg_ids (fallback_time_order env home jobs) ≡ job_ids sorted)
      × IsNumbered 1 (fallback_time_order env home jobs)
unfolding fallback_time_order
fallback_time_order_lem env home jobs = (
  sort_by_time jobs,
  sort_by_time-perm jobs,
  sort_by_time-IsTimed jobs,
  legs_along_ids env home 1 (sort_by_time jobs),
  legs_along-IsNumbered env home 1 (sort_by_time jobs),
)
