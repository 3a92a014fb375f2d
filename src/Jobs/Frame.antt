-- ===== src/Jobs/Frame.antt =====
-- What `update_status` leaves alone: the steps after the write never fail and keep the jobs table.
use notaryday_backend.Common.{ℕ, ◌≡◌, arith}
use notaryday_backend.Schema.{Job, Store, Env, ok, JobStatus, KeepsJobs, OthersKeepJobs}
use notaryday_backend.Tables.{get_settings, get_notification_config}
use notaryday_backend.Journal.{create_for_completed_job}
use notaryday_backend.Invoices.Frame.{generate_jobs}
use notaryday_backend.Jobs.{dispatch_client_eta, after_status}

get_notification_config_jobs : (user_id : ℕ) → KeepsJobs (get_notification_config user_id)
unfolding get_notification_config get_settings
get_notification_config_jobs user_id s = ground arith

create_for_completed_job_jobs :
    (user_id : ℕ) (job : Job) → KeepsJobs (create_for_completed_job user_id job)
unfolding create_for_completed_job
create_for_completed_job_jobs user_id job s = ground arith

dispatch_client_eta_jobs :
    (env : Env) (user_id : ℕ) (job : Job) → KeepsJobs (dispatch_client_eta env user_id job)
unfolding dispatch_client_eta
dispatch_client_eta_jobs env user_id job s = grind (arith, get_notification_config_jobs)

module _ (env : Env) (other_calls : ℕ → Store → Store) where
  -- Nothing after the write can fail the request.
  pub after_status-ok :
      (user_id : ℕ) (job : Job) (new_status : JobStatus) (s : Store)
      → (after_status env other_calls user_id job new_status s).0 ≡ ok tt
  unfolding after_status get_notification_config get_settings
  after_status-ok user_id job new_status s = ground arith

  pub after_status_jobs :
      OthersKeepJobs other_calls
      → (user_id : ℕ) (job : Job) (new_status : JobStatus)
      → KeepsJobs (after_status env other_calls user_id job new_status)
  unfolding after_status
  after_status_jobs keep user_id job new_status s = grind (
    arith,
    get_notification_config_jobs,
    create_for_completed_job_jobs,
    dispatch_client_eta_jobs,
    generate_jobs env.year other_calls keep,
  )
