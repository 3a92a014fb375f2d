-- ===== src/Examples/Jobs.antt =====
-- Runs of the jobs service (src/modules/jobs/jobs.service.ts).
use mathlib.Core.List.{Memᴰ}
use notaryday_backend.Common.{
  ◌≡◌, refl, none, some, [], ◌∷◌, find_first, update_where, ◌==◌, ◌+◌, ◌*◌, arith, String,
}
use notaryday_backend.Schema.{
  Job, SigningTypeDefault, Store, ok, err, bad_request, scanning, complete, general,
}
use notaryday_backend.Tables.{update_job, get_notification_config}
use notaryday_backend.Jobs.{
  update_status, stamp, after_status, find_one, check_transition, dispatch_client_eta, earliest,
}
use notaryday_backend.Invoices.{generate, refresh_existing}
use notaryday_backend.Journal.{create_for_completed_job}
use notaryday_backend.Common.Int.{pos}
use notaryday_backend.Jobs.Editing.{create, compute, new_job, Computed, compute_mileage}
use notaryday_backend.Jobs.Keys.{create_twice}
use notaryday_backend.Jobs.Updating.{UpdateJobDto, update}
use notaryday_backend.Jobs.Windows.{retyped, update_new_type}
use notaryday_backend.Jobs.Lifecycle.{
  Transition, finish, scan, written, update_status_accepted, update_status_refused,
}
use notaryday_backend.Jobs.Stamps.{complete_needs_scanning}
use notaryday_backend.Examples.{env, settings, job, rows, quiet, quiet_calls, job_request}

update_status_accepted_example :
    (updated : Job) × ((update_status env quiet_calls 1 5 scanning rows).0 ≡ ok updated)
    × (find_first (λ j. j.id == 5) (written env.now 5 job scanning rows) ≡ some updated)
    × ((update_status env quiet_calls 1 5 scanning rows).1.jobs
        ≡ written env.now 5 job scanning rows)
    × (updated.status ≡ scanning)
unfolding find_first
update_status_accepted_example =
    update_status_accepted env quiet_calls 1 5 scanning rows {job = job} refl (λ n s. refl) scan

-- A loan signing has to be scanned before it is complete.
complete_first : ¬ Transition job.signing_type job.status complete
complete_first (finish n) = elim n [ ]

update_status_refused_example :
    (message : String) × (update_status env quiet_calls 1 5 complete rows
      ≡ (err (bad_request message), rows))
unfolding find_first
update_status_refused_example =
    update_status_refused env quiet_calls 1 5 complete rows {job = job} refl complete_first

abbrev computed : Computed
computed = record {
  irs_rate = 7000;
  geo_point = some (record { lat = pos 1; lng = pos 2 });
  mileage = compute_mileage env settings (some (record { lat = pos 1; lng = pos 2 })) 7000;
  signing_duration_mins = 45;
  scanback_duration_mins = 0;
}

abbrev no_change : UpdateJobDto
no_change = record {
  status = none;
  address = none;
  appointment_time = none;
  signing_type = none;
  fee = none;
  platform_fee = none;
  signing_duration_mins = none;
  scanback_duration_mins = none;
  client_name = none;
  client_email = none;
  client_phone = none;
  platform_name = none;
  signer_count = none;
  notes = none;
}

abbrev general_default : SigningTypeDefault
general_default = record {
  user_id = 1;
  signing_type = general;
  signing_duration_mins = 20;
  scanback_duration_mins = 0;
}

abbrev with_default : Store
with_default = record rows { signing_defaults = general_default ∷ [] }

complete_needs_scanning_example : Memᴰ scanning (scanning ∷ complete ∷ [])
unfolding find_first update_status after_status stamp find_one check_transition update_job
    update_where get_notification_config dispatch_client_eta earliest generate
    create_for_completed_job refresh_existing
complete_needs_scanning_example =
    complete_needs_scanning env quiet_calls 1 5 (λ n s. refl) (scanning ∷ complete ∷ []) rows
      {job = job} {last = stamp env.now job complete (stamp env.now job scanning job)} refl refl
      (λ e. ground (arith, e)) (λ e. ground (arith, e)) refl refl

create_twice_example :
    create env quiet 1
      (record job_request { fee = 1 })
      (some 77)
      none
      (create env quiet 1 job_request (some 77) none rows).1
    ≡ (
      ok (new_job env 100 1 job_request (some 77) none computed),
      (create env quiet 1 job_request (some 77) none rows).1,
    )
unfolding create find_first compute
create_twice_example =
    create_twice env env quiet quiet 1 77 job_request (record job_request { fee = 1 }) none none
      rows {job = new_job env 100 1 job_request (some 77) none computed} refl

-- The loan signing of an hour becomes a general signing, whose default is set to 20 minutes.
update_new_type_example :
    (updated : Job) × ((update env quiet_calls 1 5 (retyped general no_change) with_default).0
      ≡ ok updated)
    × (find_first
          (λ j. j.id == 5)
          (update env quiet_calls 1 5 (retyped general no_change) with_default).1.jobs
        ≡ some updated)
    × (updated.signing_type ≡ general)
    × (updated.signing_duration_mins ≡ 60)
    × (updated.signing_ends_at ≡ some (updated.appointment_time + 20 * 60000))
unfolding find_first
update_new_type_example =
    update_new_type env quiet_calls 1 5 with_default {job = job} refl refl no_change general
      {usual = general_default} (λ e. ground (arith, e)) refl
