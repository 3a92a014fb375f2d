-- ===== src/Planner/Feasible.antt =====
-- src/modules/planner/planner.service.ts: which route `optimise` applies.
use notaryday_backend.Common.{
  ℕ, ◌+◌, ◌*◌, ◌≤◌, ◌≡◌, ◌⊎◌, inl, inr, refl, true, ◌==◌, Option, none, some, List, [], ◌∷◌,
  find_first, select, Bool-cases, Option-cases, arith,
}
use notaryday_backend.Schema.{Job, UserSettings, Store, Env, Point, ok}
use notaryday_backend.Tables.{get_settings}
use notaryday_backend.Planner.{
  Leg, is_place, sort_by_time, leg_feasible, is_feasible_order, ors_optimise, fallback_time_order,
  chosen_legs,
}
use notaryday_backend.Planner.Today.{is_planned, home_point}
use notaryday_backend.Planner.Optimise.{optimise, apply_route}

-- The job of the second leg is reached in time from the job of the first, at most ten minutes late;
-- nothing is asked of a leg whose job is not known.
pub data IsOnTime (jobs : List Job) (p l : Leg) : Type 0 where
  unknown_start : find_first (λ j. j.id == p.job_id) jobs ≡ none → IsOnTime jobs p l
  unknown_end : find_first (λ j. j.id == l.job_id) jobs ≡ none → IsOnTime jobs p l
  met :
      {a b : Job}
      → find_first (λ j. j.id == p.job_id) jobs ≡ some a
      → find_first (λ j. j.id == l.job_id) jobs ≡ some b
      → a.appointment_time
          + (a.signing_duration_mins + a.scanback_duration_mins + l.drive_from_prev_mins) * 60000
        ≤ b.appointment_time + 600000
      → IsOnTime jobs p l

-- Every leg but the first is on time.
abbrev pub IsReachable : List Job → List Leg → Type 0
IsReachable jobs [] = Unit
IsReachable jobs (l ∷ []) = Unit
IsReachable jobs (p ∷ l ∷ ls) = IsOnTime jobs p l × IsReachable jobs (l ∷ ls)

leg_feasible-IsOnTime :
    (jobs : List Job) (p l : Leg) → leg_feasible jobs p l ≡ true → IsOnTime jobs p l
leg_feasible-IsOnTime jobs p l h = elim (Option-cases (find_first (λ j. j.id == p.job_id) jobs)) [
  | inl e ↦ unknown_start e
  | inr (a, e) ↦ elim (Option-cases (find_first (λ j. j.id == l.job_id) jobs)) [
    | inl d ↦ unknown_end d
    | inr (b, d) ↦ met e d (ground (arith, rw (leg_feasible, e, d) at h))
  ]
]

IsOnTime-leg_feasible :
    (jobs : List Job) (p l : Leg) → IsOnTime jobs p l → leg_feasible jobs p l ≡ true
IsOnTime-leg_feasible jobs p l (unknown_start e) = rw (leg_feasible, e) refl
IsOnTime-leg_feasible jobs p l (unknown_end d) =
    elim (Option-cases (find_first (λ j. j.id == p.job_id) jobs)) [
      | inl e ↦ rw (leg_feasible, e) refl
      | inr (a, e) ↦ rw (leg_feasible, e, d) refl
    ]
IsOnTime-leg_feasible jobs p l (met e d h) = rw (leg_feasible, e, d) (ground arith)

is_feasible_order-IsReachable :
    (jobs : List Job) (legs : List Leg) → is_feasible_order jobs legs ≡ true → IsReachable jobs legs
unfolding is_feasible_order
is_feasible_order-IsReachable jobs [] h = tt
is_feasible_order-IsReachable jobs (l ∷ []) h = tt
is_feasible_order-IsReachable jobs (p ∷ l ∷ ls) h = elim (Bool-cases (leg_feasible jobs p l)) [
  | inl e ↦
      (leg_feasible-IsOnTime jobs p l e, is_feasible_order-IsReachable jobs (l ∷ ls) (rw e at h))
  | inr e ↦ absurd (ground (arith, rw e at h))
]

IsReachable-is_feasible_order :
    (jobs : List Job) (legs : List Leg) → IsReachable jobs legs → is_feasible_order jobs legs ≡ true
unfolding is_feasible_order
IsReachable-is_feasible_order jobs [] h = refl
IsReachable-is_feasible_order jobs (l ∷ []) h = refl
IsReachable-is_feasible_order jobs (p ∷ l ∷ ls) (h, hs) =
    rw (IsOnTime-leg_feasible jobs p l h) (IsReachable-is_feasible_order jobs (l ∷ ls) hs)

module _ (env : Env) (solve : Point → List Job → Option (List ℕ)) (user_id day next : ℕ)
    (s : Store) where
  abbrev day_jobs : List Job
  day_jobs = sort_by_time (select (is_planned user_id day next) s.jobs)

  optimise_step :
      {settings : UserSettings} {j : Job} {js : List Job}
      → get_settings user_id s ≡ (ok settings, s)
      → is_place (home_point settings) ≡ true
      → day_jobs ≡ j ∷ js
      → optimise env solve user_id day next s
        ≡ apply_route env user_id day next
            (j ∷ js)
            (chosen_legs env solve (home_point settings) (j ∷ js))
            (home_point settings)
            s
  unfolding optimise
  optimise_step known placed listed = rw (known, placed, listed) refl

  -- For a user with a home and with jobs on the day, `optimise` applies the solver's route exactly if
  -- every leg of it is on time, and the route of the time order otherwise.
  pub optimise_applies :
      {settings : UserSettings} {j : Job} {js : List Job}
      → get_settings user_id s ≡ (ok settings, s)
      → is_place (home_point settings) ≡ true
      → day_jobs ≡ j ∷ js
      → (IsReachable (j ∷ js) (ors_optimise env solve (home_point settings) (j ∷ js))
          × (optimise env solve user_id day next s
              ≡ apply_route env user_id day next
                  (j ∷ js)
                  (ors_optimise env solve (home_point settings) (j ∷ js))
                  (home_point settings)
                  s))
        ⊎ ((¬ IsReachable (j ∷ js) (ors_optimise env solve (home_point settings) (j ∷ js)))
            × (optimise env solve user_id day next s
                ≡ apply_route env user_id day next
                    (j ∷ js)
                    (fallback_time_order env (home_point settings) (j ∷ js))
                    (home_point settings)
                    s))
  unfolding chosen_legs
  optimise_applies {settings} {j} {js} known placed listed =
      let legs = ors_optimise env solve (home_point settings) (j ∷ js) in
      let step = optimise_step known placed listed in
      elim (Bool-cases (is_feasible_order (j ∷ js) legs)) [
        | inl e ↦ inl (is_feasible_order-IsReachable (j ∷ js) legs e, rw e at step)
        | inr e ↦ inr (
          (λ r. absurd (ground (arith, IsReachable-is_feasible_order (j ∷ js) legs r))),
          rw e at step,
        )
      ]
