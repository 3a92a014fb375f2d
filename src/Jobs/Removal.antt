-- ===== src/Jobs/Removal.antt =====
-- Soft deletion: `remove` of src/modules/jobs/jobs.service.ts and `cancel` of
-- src/modules/booking/booking.service.ts.
use notaryday_backend.Common.{
  ℕ, ◌≡◌, refl, ◌&&◌, ◌==◌, not, none, some, is_some, List, [], ◌∷◌, find_first, update_where,
  find_first-weaken, find_first-update_where, Bool-cases, inl, inr, arith,
}
use notaryday_backend.Schema.{
  Job, Booking, Store, Env, ok, err, not_found, booking_confirmed, cancelled_by_client,
}
use notaryday_backend.Tables.{live_job, live_booking, update_job, update_booking}
use notaryday_backend.Jobs.{find_one}
use notaryday_backend.Jobs.Updating.{remove}
use notaryday_backend.Booking.Review.{is_job_of, cancel}

abbrev deleted : ℕ → Job → Job
deleted now j = record j { deleted_at = some now }

deleted_gone :
    (user_id id now : ℕ) (js : List Job)
    → find_first (live_job user_id id) (update_where (λ j. j.id == id) (deleted now) js) ≡ none
unfolding find_first update_where
deleted_gone user_id id now [] = refl
deleted_gone user_id id now (j ∷ js) = elim (Bool-cases (j.id == id)) [
  | inl e ↦ ground (arith, deleted_gone user_id id now js)
  | inr e ↦ ground (arith, deleted_gone user_id id now js)
]

module _ (env : Env) (user_id job_id : ℕ) (s : Store) {job : Job}
    (here : find_first (live_job user_id job_id) s.jobs ≡ some job) where
  remove_jobs :
      (remove env user_id job_id s).1.jobs
      ≡ update_where (λ j. j.id == job_id) (deleted env.now) s.jobs
  unfolding remove find_one update_job
  remove_jobs = ground arith

  remove-ok : (k : Job) × ((remove env user_id job_id s).0 ≡ ok k)
  unfolding remove find_one update_job
  remove-ok =
      let (k, old) =
        find_first-weaken (live_job user_id job_id) (λ j. j.id == job_id) s.jobs
          (λ a h. ground arith) here in
      let new =
        find_first-update_where (λ j. j.id == job_id) (deleted env.now) s.jobs (λ a h. h) old in
      (deleted env.now k, ground (arith, new))

  removed_gone : find_first (live_job user_id job_id) (remove env user_id job_id s).1.jobs ≡ none
  removed_gone = rw remove_jobs (deleted_gone user_id job_id env.now s.jobs)

removed_before :
    (env : Env) (user_id job_id : ℕ) (s : Store)
    → find_first (live_job user_id job_id) s.jobs ≡ none
    → remove env user_id job_id s ≡ (err (not_found "Job not found"), s)
unfolding remove find_one
removed_before env user_id job_id s gone = ground arith

-- Removing a job of the user succeeds; afterwards no live job has its identifier, and a second
-- request to remove it, at any time, is answered with "not found" and changes nothing.
pub remove_once :
    (env env' : Env) (user_id job_id : ℕ) (s : Store) {job : Job}
    → find_first (live_job user_id job_id) s.jobs ≡ some job
    → ((k : Job) × ((remove env user_id job_id s).0 ≡ ok k))
      × (find_first (live_job user_id job_id) (remove env user_id job_id s).1.jobs ≡ none)
      × (remove env' user_id job_id (remove env user_id job_id s).1
          ≡ (err (not_found "Job not found"), (remove env user_id job_id s).1))
remove_once env env' user_id job_id s here = (
  remove-ok env user_id job_id s here,
  removed_gone env user_id job_id s here,
  removed_before env' user_id job_id _ (removed_gone env user_id job_id s here),
)

cancel_jobs :
    (env : Env) (notary_id booking_id : ℕ) (s : Store) {booking : Booking} {job : Job}
    → find_first (live_booking notary_id booking_id) s.bookings ≡ some booking
    → booking.status ≡ booking_confirmed
    → find_first
        (λ j. is_job_of booking_id j && (j.user_id == notary_id && not (is_some j.deleted_at)))
        s.jobs
      ≡ some job
    → ((cancel env notary_id booking_id s).0 ≡ ok (record booking { status = cancelled_by_client }))
      × ((cancel env notary_id booking_id s).1.jobs
          ≡ update_where (λ j. j.id == job.id) (deleted env.now) s.jobs)
unfolding cancel update_booking update_job
cancel_jobs env notary_id booking_id s here approved there = (ground arith, ground arith)

-- Cancelling a confirmed booking whose job is live succeeds and leaves no live job with that
-- identifier.
pub cancel_frees :
    (env : Env) (notary_id booking_id : ℕ) (s : Store) {booking : Booking} {job : Job}
    → find_first (live_booking notary_id booking_id) s.bookings ≡ some booking
    → booking.status ≡ booking_confirmed
    → find_first
        (λ j. is_job_of booking_id j && (j.user_id == notary_id && not (is_some j.deleted_at)))
        s.jobs
      ≡ some job
    → ((cancel env notary_id booking_id s).0 ≡ ok (record booking { status = cancelled_by_client }))
      × (find_first (live_job notary_id job.id) (cancel env notary_id booking_id s).1.jobs ≡ none)
cancel_frees env notary_id booking_id s {booking} {job} here approved there =
    let (answer, jobs) = cancel_jobs env notary_id booking_id s here approved there in
    (answer, rw jobs (deleted_gone notary_id job.id env.now s.jobs))
