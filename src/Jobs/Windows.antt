-- ===== src/Jobs/Windows.antt =====
-- src/modules/jobs/jobs.service.ts: what `update` writes when the type of a signing changes.
use notaryday_backend.Common.{
  ℕ, ◌+◌, ◌*◌, ◌≡◌, ◌≢◌, refl, sym, ap, ◌∙◌, Bool, true, false, ◌&&◌, ◌||◌, ◌==◌, not, none, some,
  is_some, get_or, find_first, update_where, find_first-update_where, Bool-cases, Option-cases, inl,
  inr, arith, subst,
}
use notaryday_backend.Schema.{
  Job, SigningType, SigningTypeDefault, UserSettings, Invoice, Store, Env, M, Result, ok, when,
  ◌>>◌, eq_type, eq_type_sound,
}
use notaryday_backend.Tables.{live_job, update_job, update_invoice, get_settings, default_settings}
use notaryday_backend.Jobs.{find_one, is_scanback_type}
use notaryday_backend.Jobs.Editing.{
  Mileage, get_signing_duration, get_scanback_duration, compute_mileage,
}
use notaryday_backend.Invoices.Edits.{JobAmounts, sync_invoice, sync_draft_from_job}
use notaryday_backend.Jobs.Updating.{
  UpdateJobDto, Durations, durations, edited, recalculated, change, after_update, update,
  calc_changed, position, point_of,
}

answered : {A : Type 0} (r : Result A × Store) {a : A} → r.0 ≡ ok a → r ≡ (ok a, r.1)
answered r e = ap (λ o. (o, r.1)) e

settings_answered :
    (user_id : ℕ) (s : Store)
    → (r : UserSettings) × (get_settings user_id s ≡ (ok r, (get_settings user_id s).1))
      × ((get_settings user_id s).1.jobs ≡ s.jobs)
unfolding get_settings
settings_answered user_id s =
    elim (Option-cases (find_first (λ r. r.user_id == user_id) s.settings)) [
      | inl e ↦ (default_settings user_id, ground arith, ground arith)
      | inr (r, e) ↦ (r, ground arith, ground arith)
    ]

-- A call that does not fail and leaves the jobs.
abbrev Runs : M (Unit {0}) → Type 0
Runs m = (s : Store) → ((m s).0 ≡ ok tt) × ((m s).1.jobs ≡ s.jobs)

when-Runs : (b : Bool) (m : M (Unit {0})) → Runs m → Runs (when b m)
when-Runs true m h s = h s
when-Runs false m h s = (refl, refl)

>>-Runs : (m k : M (Unit {0})) → Runs m → Runs k → Runs (m >> k)
>>-Runs m k h hk s = rw (answered (m s) (h s).0) ((hk (m s).1).0, (hk (m s).1).1 ∙ (h s).1)

sync_invoice-Runs :
    (user_id : ℕ) (amounts : JobAmounts) (i : Invoice) → Runs (sync_invoice user_id amounts i)
unfolding sync_invoice update_invoice
sync_invoice-Runs user_id amounts i = when-Runs _ _ (λ s. (refl, refl))

sync_draft_from_job-Runs :
    (user_id job_id : ℕ) (amounts : JobAmounts) → Runs (sync_draft_from_job user_id job_id amounts)
unfolding sync_draft_from_job
sync_draft_from_job-Runs user_id job_id amounts s =
    elim (Option-cases (
      find_first (λ i. i.job_id == job_id && (i.user_id == user_id && not (is_some i.deleted_at)))
        s.invoices)) [
          | inl e ↦ rw e (refl, refl)
          | inr (i, e) ↦ rw e (sync_invoice-Runs user_id amounts i s)
        ]

-- The steps after the write do not fail, and leave the jobs.
after_update-Runs :
    (env : Env) (user_id : ℕ) (dto : UpdateJobDto) (job updated : Job)
    → Runs (after_update env user_id dto job updated)
unfolding after_update
after_update-Runs env user_id dto job updated s =
    let amounts : JobAmounts = record {
      fee = get_or dto.fee job.fee;
      mileage_cost = get_or updated.mileage_cost 0;
      client_name = dto.client_name;
      client_email = dto.client_email;
    } in
    let sync = sync_draft_from_job user_id job.id amounts in
    let (done, kept) = sync_draft_from_job-Runs user_id job.id amounts s in
    elim (Bool-cases
      (calc_changed dto job || (is_some dto.client_name || is_some dto.client_email))) [
        | inl e ↦ rw (e, answered (sync s) done) (ground (arith, kept))
        | inr e ↦ rw e (ground arith)
      ]

-- A request that asks for another type, and neither for signing minutes nor for a status.
abbrev pub retyped : SigningType → UpdateJobDto → UpdateJobDto
retyped new_type dto = record dto {
  signing_type = some new_type;
  signing_duration_mins = none;
  status = none;
}

module _ (env : Env) (user_id : ℕ) (dto : UpdateJobDto) (s : Store) (job : Job)
    (new_type : SigningType) {usual : SigningTypeDefault}
    (other : eq_type new_type job.signing_type ≡ false)
    (known : find_first
        (λ d. d.user_id == user_id && eq_type d.signing_type new_type)
        s.signing_defaults
      ≡ some usual) where
  -- The signing minutes are the new type's.
  durations_new_type :
      (scanback : ℕ) × (durations user_id (retyped new_type dto) job s
        ≡ (ok (record { signing = usual.signing_duration_mins; scanback = scanback }), s))
  unfolding durations get_signing_duration get_scanback_duration
  durations_new_type = elim (Option-cases dto.scanback_duration_mins) [
    | inr (n, e) ↦ (n, rw (other, e, known) refl)
    | inl e ↦ elim (Bool-cases (is_scanback_type new_type)) [
      | inl b ↦ (usual.scanback_duration_mins, rw (other, e, known, b) refl)
      | inr b ↦ (0, rw (other, e, known, b) refl)
    ]
  ]

module _ (env : Env) (user_id : ℕ) (dto : UpdateJobDto) (s : Store) (job : Job)
    (new_type : SigningType) where
  change_new_type :
      (d : Durations)
      → (f : Job → Job) × (change env user_id (retyped new_type dto) job d s
          ≡ (ok f, (get_settings user_id s).1))
        × ((k : Job) → (f k).id ≡ k.id)
        × ((f job).signing_type ≡ new_type)
        × ((f job).signing_duration_mins ≡ job.signing_duration_mins)
        × ((f job).signing_ends_at ≡ some ((f job).appointment_time + d.signing * 60000))
  unfolding change edited recalculated
  change_new_type d =
      let asks = retyped new_type dto in
      let (settings, got, _) = settings_answered user_id s in
      let m : Mileage =
        compute_mileage env settings (point_of (position env asks job))
          settings.irs_rate_per_mile in
      let here : calc_changed asks job ≡ true = ground arith in
      (
        (λ r. recalculated asks job d m settings.irs_rate_per_mile (edited env asks job d r)),
        rw (here, got) refl,
        (λ k. refl),
        refl,
        refl,
        refl,
      )

module _ (env : Env) (other_calls : ℕ → Store → Store) (user_id job_id : ℕ) (s : Store) {job : Job}
    (live : find_first (live_job user_id job_id) s.jobs ≡ some job)
    (first : find_first (λ j. j.id == job_id) s.jobs ≡ some job) where
  update_runs :
      (dto : UpdateJobDto) {d : Durations} (f : Job → Job)
      → durations user_id dto job s ≡ (ok d, s)
      → change env user_id dto job d s ≡ (ok f, (get_settings user_id s).1)
      → ((k : Job) → (f k).id ≡ k.id)
      → dto.status ≡ none
      → ((update env other_calls user_id job_id dto s).0 ≡ ok (f job))
        × ((update env other_calls user_id job_id dto s).1.jobs
            ≡ update_where (λ j. j.id == job_id) f s.jobs)
  unfolding update find_one update_job
  update_runs dto f timed changed keep no_status =
      let (_, _, same) = settings_answered user_id s in
      let t : Store = (get_settings user_id s).1 in
      let written : Store = record t { jobs = update_where (λ j. j.id == job_id) f t.jobs } in
      let there : find_first (λ j. j.id == job_id) written.jobs ≡ some (f job) =
        find_first-update_where (λ j. j.id == job_id) f t.jobs
          (λ k h. subst (λ n. (n == job_id) ≡ true) (sym (keep k)) h)
          (ap (find_first (λ j. j.id == job_id)) same ∙ first) in
      let (done, kept) = after_update-Runs env user_id dto job (f job) written in
      let after = answered (after_update env user_id dto job (f job) written) done in
      let rows = kept ∙ ap (update_where (λ j. j.id == job_id) f) same in
      rw (live, timed, changed, there, after, no_status) (refl, rows)

  -- For a job of the user whose request asks for another type, and neither for signing minutes nor
  -- for a status, where the user has minutes for the new type, `update` succeeds: the row it answers
  -- with, which is the row of the table, has the new type and keeps the old signing minutes, while its
  -- signing ends the new type's minutes after its appointment, if no other job has the identifier.
  pub update_new_type :
      (dto : UpdateJobDto) (new_type : SigningType) {usual : SigningTypeDefault}
      → new_type ≢ job.signing_type
      → find_first (λ d. d.user_id == user_id && eq_type d.signing_type new_type) s.signing_defaults
        ≡ some usual
      → (updated : Job) × ((update env other_calls user_id job_id (retyped new_type dto) s).0
          ≡ ok updated)
        × (find_first
              (λ j. j.id == job_id)
              (update env other_calls user_id job_id (retyped new_type dto) s).1.jobs
            ≡ some updated)
        × (updated.signing_type ≡ new_type)
        × (updated.signing_duration_mins ≡ job.signing_duration_mins)
        × (updated.signing_ends_at
            ≡ some (updated.appointment_time + usual.signing_duration_mins * 60000))
  update_new_type dto new_type {usual} differs known =
      let other : eq_type new_type job.signing_type ≡ false =
        elim (Bool-cases (eq_type new_type job.signing_type)) [
          | inr e ↦ e
          | inl e ↦ absurd (differs (eq_type_sound _ _ e))
        ] in
      let (scanback, timed) = durations_new_type env user_id dto s job new_type other known in
      let d : Durations = record { signing = usual.signing_duration_mins; scanback = scanback } in
      let (f, changed, keep, type, mins, end) = change_new_type env user_id dto s job new_type d in
      let (done, rows) = update_runs (retyped new_type dto) f timed changed keep refl in
      (
        f job,
        done,
        ap (find_first (λ j. j.id == job_id)) rows
            ∙ find_first-update_where (λ j. j.id == job_id) f s.jobs
                (λ k h. subst (λ n. (n == job_id) ≡ true) (sym (keep k)) h) first,
        type,
        mins,
        end,
      )
