-- ===== src/Jobs.antt =====
-- src/modules/jobs/jobs.service.ts: the life cycle of a job (`updateStatus`).
--
-- `dispatchClientEta` runs unawaited in the source; it only reads the database and sends a
-- message, and it runs at the place of its call here.
pub mod Frame
pub mod Lifecycle
pub mod Stamps
pub mod Editing
pub mod Keys
pub mod Windows
pub mod Removal
pub mod Updating
use notaryday_backend.Common.{
  ℕ, ◌+◌, ◌*◌, String, Bool, true, false, ◌&&◌, ◌||◌, ◌==◌, not, Option, none, some, List, [], ◌∷◌,
  get_or, is_some, is_empty, find_first, any, if◌then◌else◌, ltb, leb,
}
use notaryday_backend.Schema.{
  Job, Store, M, found, ◌>>=◌, ◌>>◌, pure, throw, when, if_some, attempt, get_store, emit,
  bad_request, sync_job, scanback_reminder, client_eta, track, Env, JobStatus, pending,
  pending_review, confirmed, in_progress, scanning, complete, cancelled, declined, eq_status,
  SigningType, loan_refi, hybrid, purchase_closing,
}
use notaryday_backend.Tables.{live_job, update_job, get_notification_config}
use notaryday_backend.Profitability.{is_eta_send_appropriate}
use notaryday_backend.Journal.{create_for_completed_job}
use notaryday_backend.Invoices.{generate}

-- SCANBACK_TYPES
abbrev pub is_scanback_type : SigningType → Bool
is_scanback_type loan_refi = true
is_scanback_type hybrid = true
is_scanback_type purchase_closing = true
is_scanback_type _ = false

-- TRANSITIONS
abbrev pub transitions : JobStatus → List JobStatus
transitions pending = confirmed ∷ cancelled ∷ []
transitions pending_review = confirmed ∷ declined ∷ []
transitions confirmed = in_progress ∷ cancelled ∷ []
transitions in_progress = scanning ∷ complete ∷ cancelled ∷ []
transitions scanning = complete ∷ in_progress ∷ []
transitions complete = []
transitions cancelled = []
transitions declined = []

unfoldable pub find_one : ℕ → ℕ → M Job
unfolding find_first
find_one user_id job_id = do
  s ← get_store
  found (find_first (live_job user_id job_id) s.jobs) "Job not found"

-- The first of the selected jobs by `appointment_time`.
unfoldable pub earliest : (Job → Bool) → List Job → Option Job
earliest p [] = none
earliest p (j ∷ js) =
    let rest = earliest p js in
    let first : Job = elim rest [
      | none ↦ j
      | some k ↦ if leb j.appointment_time k.appointment_time then j else k
    ] in
    if p j then some first else rest

-- `{ status: newStatus, ...timestamps }`, written to the row `r` of the job that was read before.
unfoldable pub stamp : ℕ → Job → JobStatus → Job → Job
stamp now job confirmed r = record r { status = confirmed; confirmed_at = some now }
stamp now job in_progress r =
    if eq_status job.status scanning
    then record r {
      status = in_progress;
      started_at = some now;
      scanning_started_at = none;
      scanback_ends_at = none;
    }
    else record r { status = in_progress; started_at = some now }
stamp now job scanning r = record r {
  status = scanning;
  scanning_started_at = some now;
  scanback_ends_at =
      if ltb 0 job.scanback_duration_mins
      then some (now + job.scanback_duration_mins * 60000)
      else none;
}
stamp now job complete r = record r { status = complete; completed_at = some now }
stamp now job cancelled r = record r { status = cancelled; cancelled_at = some now }
stamp now job status r = record r { status = status }

-- The two guards of `updateStatus`.
unfoldable pub check_transition : Job → JobStatus → M (Unit {0})
unfolding any
check_transition job new_status = do
  when (not (any (eq_status new_status) (transitions job.status)))
      (throw (bad_request "Cannot transition"))
  when
      (eq_status new_status complete
        && (eq_status job.status in_progress && is_scanback_type job.signing_type))
      (throw (bad_request "Requires SCANNING step before COMPLETE"))

-- The end of `dispatchClientEta`, once the next job is found.
abbrev eta_message : ℕ → ℕ → Job → M (Unit {0})
eta_message user_id now next =
    let drive_mins = get_or next.drive_from_prev_mins 20 in
    when
      (not (is_empty (get_or next.client_email ""))
        && is_eta_send_appropriate next.appointment_time drive_mins now)
      (emit (client_eta user_id next.id drive_mins))

module _ (env : Env) where
  unfoldable pub dispatch_client_eta : ℕ → Job → M (Unit {0})
  dispatch_client_eta user_id completed = do
    config ← get_notification_config user_id
    s ← get_store
    let next_job =
        earliest
          (λ j.
            j.user_id == user_id
            && (not (is_some j.deleted_at)
                && (eq_status j.status confirmed
                    && ltb completed.appointment_time j.appointment_time)))
          s.jobs
    when config.client_eta_enabled (if_some next_job (eta_message user_id env.now) (pure tt))

  module _ (other_calls : ℕ → Store → Store) where
    -- What follows the write: the journal, the reminder, the invoice and the messages.
    unfoldable pub after_status : ℕ → Job → JobStatus → M (Unit {0})
    after_status user_id job new_status = do
      when (eq_status new_status complete) (attempt (create_for_completed_job user_id job))
      when (eq_status new_status scanning && is_scanback_type job.signing_type) (do
        config ← get_notification_config user_id
        when (config.reminders_enabled && config.scanback_reminder)
            (emit (scanback_reminder user_id job.id)))
      when (eq_status new_status complete) (do
        emit (track "job_completed" user_id)
        attempt (generate env.year other_calls user_id job.id))
      when
          ((eq_status new_status scanning || eq_status new_status complete)
            && eq_status job.status in_progress)
          (attempt (dispatch_client_eta user_id job))
      when (eq_status new_status confirmed && not (eq_status job.status confirmed))
          (emit (sync_job user_id job.id))

    unfoldable pub update_status : ℕ → ℕ → JobStatus → M Job
    update_status user_id job_id new_status = do
      job ← find_one user_id job_id
      check_transition job new_status
      update_job job_id (stamp env.now job new_status)
      s ← get_store
      updated ← found (find_first (λ j. j.id == job_id) s.jobs) "Record to update not found"
      after_status user_id job new_status
      pure updated
