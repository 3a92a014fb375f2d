-- ===== src/Jobs/Updating.antt =====
-- src/modules/jobs/jobs.service.ts: `update` and `remove`.
--
-- A field of the DTO is missing (`undefined`) or has a value.
use text.Mathlib.Text.{◌==◌ as str_eq}
use notaryday_backend.Common.{
  ℕ, ◌+◌, ◌*◌, String, Bool, false, ◌&&◌, ◌||◌, ◌==◌, not, Option, none, some, get_or, or_else,
  is_some, find_first, if◌then◌else◌,
}
use notaryday_backend.Common.Int.{ℤ}
use notaryday_backend.Schema.{
  Job, Store, M, found, ◌>>=◌, ◌>>◌, pure, when, get_store, emit, sync_job, delete_event,
  route_cache_del, Env, Point, JobStatus, SigningType, confirmed, in_progress, scanning, complete,
  eq_status, eq_type,
}
use notaryday_backend.Tables.{update_job, get_settings}
use notaryday_backend.Profitability.{Profitability, calculate_profitability}
use notaryday_backend.Invoices.Edits.{sync_draft_from_job}
use notaryday_backend.Jobs.{find_one, update_status}
use notaryday_backend.Jobs.Editing.{
  Mileage, compute_mileage, get_signing_duration, get_scanback_duration, or_await, scanback_end,
  positive,
}

pub record UpdateJobDto : Type 0 where
  pub status : Option JobStatus
  pub address : Option String
  pub appointment_time : Option ℕ
  pub signing_type : Option SigningType
  pub fee : Option ℕ
  pub platform_fee : Option ℕ
  pub signing_duration_mins : Option ℕ
  pub scanback_duration_mins : Option ℕ
  pub client_name : Option String
  pub client_email : Option String
  pub client_phone : Option String
  pub platform_name : Option String
  pub signer_count : Option ℕ
  pub notes : Option String

-- `dto.x !== undefined && dto.x !== job.x`
abbrev changed_ℕ : Option ℕ → ℕ → Bool
changed_ℕ none n = false
changed_ℕ (some m) n = not (m == n)

abbrev changed_type : Option SigningType → SigningType → Bool
changed_type none t = false
changed_type (some u) t = not (eq_type u t)

abbrev changed_text : Option String → String → Bool
changed_text none t = false
changed_text (some u) t = not (str_eq u t)

module _ (dto : UpdateJobDto) (job : Job) where
  abbrev pub type_changed : Bool
  type_changed = changed_type dto.signing_type job.signing_type

  abbrev pub address_changed : Bool
  address_changed = changed_text dto.address job.address

  -- `signingWindowChanged`
  abbrev pub window_changed : Bool
  window_changed =
      changed_ℕ dto.appointment_time job.appointment_time
      || (changed_ℕ dto.signing_duration_mins job.signing_duration_mins
          || (type_changed || changed_ℕ dto.scanback_duration_mins job.scanback_duration_mins))

  -- `calcChanged`
  abbrev pub calc_changed : Bool
  calc_changed =
      address_changed
      || (is_some dto.fee
          || (is_some dto.platform_fee
              || (is_some dto.signing_type
                  || (is_some dto.signing_duration_mins || is_some dto.scanback_duration_mins))))

-- The position after the edit: a changed address is geocoded, and keeps the old position if that
-- finds nothing.
abbrev pub position : Env → UpdateJobDto → Job → Option ℤ × Option ℤ
position env dto job =
    elim (if address_changed dto job then env.geocode (get_or dto.address "") else none) [
      | none ↦ (job.lat, job.lng)
      | some g ↦ (some g.lat, some g.lng)
    ]

abbrev pub point_of : Option ℤ × Option ℤ → Option Point
point_of (some a, some b) = some (record { lat = a; lng = b })
point_of (some a, none) = none
point_of (none, b) = none

-- The durations that `update` works with.
pub record Durations : Type 0 where
  pub signing : ℕ
  pub scanback : ℕ

unfoldable pub durations : ℕ → UpdateJobDto → Job → M Durations
unfolding get_signing_duration get_scanback_duration
durations user_id dto job = do
  signing ← or_await dto.signing_duration_mins (
      if type_changed dto job
      then get_signing_duration user_id (get_or dto.signing_type job.signing_type)
      else pure job.signing_duration_mins)
  scanback ← or_await dto.scanback_duration_mins (
      if type_changed dto job
      then get_scanback_duration user_id (get_or dto.signing_type job.signing_type)
      else pure job.scanback_duration_mins)
  pure (record { signing = signing; scanback = scanback })

-- The first part of `data`: the fields of the DTO and the two end times.
unfoldable pub edited : Env → UpdateJobDto → Job → Durations → Job → Job
edited env dto job d r =
    let appointment : ℕ = get_or dto.appointment_time job.appointment_time in
    let signing_end : ℕ = appointment + d.signing * 60000 in
    record r {
      address = get_or dto.address r.address;
      lat = if is_some dto.address then (position env dto job).0 else r.lat;
      lng = if is_some dto.address then (position env dto job).1 else r.lng;
      appointment_time = get_or dto.appointment_time r.appointment_time;
      fee = get_or dto.fee r.fee;
      platform_fee = get_or dto.platform_fee r.platform_fee;
      signing_type = get_or dto.signing_type r.signing_type;
      signing_duration_mins =
          if is_some dto.signing_duration_mins then d.signing else r.signing_duration_mins;
      signing_ends_at = some signing_end;
      scanback_ends_at =
          if window_changed dto job && not (eq_status job.status scanning)
          then scanback_end signing_end d.scanback
          else r.scanback_ends_at;
      scanback_duration_mins =
          if not (d.scanback == job.scanback_duration_mins)
          then d.scanback
          else r.scanback_duration_mins;
      client_name = or_else dto.client_name r.client_name;
      client_email = or_else dto.client_email r.client_email;
      client_phone = or_else dto.client_phone r.client_phone;
      platform_name = or_else dto.platform_name r.platform_name;
      notes = or_else dto.notes r.notes;
      signer_count = get_or dto.signer_count r.signer_count;
    }

-- `calculateProfitability` as `update` calls it.
abbrev pub update_profitability : UpdateJobDto → Job → Durations → Mileage → ℕ → Profitability
update_profitability dto job d m irs_rate = calculate_profitability (record {
  fee = get_or dto.fee job.fee;
  platform_fee = get_or dto.platform_fee job.platform_fee;
  distance_miles = m.distance_miles;
  irs_rate_per_mile = irs_rate;
  signing_duration_mins = d.signing;
  drive_time_mins = m.drive_time_mins;
  scanback_duration_mins = d.scanback;
})

-- The second part of `data`, written if `calcChanged`.
unfoldable pub recalculated : UpdateJobDto → Job → Durations → Mileage → ℕ → Job → Job
recalculated dto job d m irs_rate r = record r {
  mileage_miles = positive m.distance_miles;
  mileage_cost = positive m.mileage_cost;
  net_earnings = some (update_profitability dto job d m irs_rate).net_earnings;
  effective_hourly = some (update_profitability dto job d m irs_rate).effective_hourly;
  irs_rate_snapshot = irs_rate;
}

module _ (env : Env) where
  -- `data` as a function on the row.
  unfoldable pub change : ℕ → UpdateJobDto → Job → Durations → M (Job → Job)
  unfolding edited recalculated get_settings compute_mileage
  change user_id dto job d =
      if calc_changed dto job
      then (do
        settings ← get_settings user_id
        let m =
            compute_mileage env settings (point_of (position env dto job))
              settings.irs_rate_per_mile
        pure (λ r. recalculated dto job d m settings.irs_rate_per_mile (edited env dto job d r)))
      else pure (edited env dto job d)

  -- The steps of `update` after the write.
  unfoldable pub after_update : ℕ → UpdateJobDto → Job → Job → M (Unit {0})
  unfolding sync_draft_from_job
  after_update user_id dto job updated = do
    when (calc_changed dto job || (is_some dto.client_name || is_some dto.client_email)) (
        sync_draft_from_job user_id job.id (record {
          fee = get_or dto.fee job.fee;
          mileage_cost = get_or updated.mileage_cost 0;
          client_name = dto.client_name;
          client_email = dto.client_email;
        }))
    when (is_some dto.appointment_time) (do
      emit (route_cache_del user_id job.appointment_time)
      emit (route_cache_del user_id (get_or dto.appointment_time job.appointment_time)))
    when
        (eq_status updated.status confirmed
          && (is_some dto.appointment_time
              || (is_some dto.address || is_some dto.signing_duration_mins)))
        (emit (sync_job user_id job.id))

  -- `dto.status !== undefined && dto.status !== updated.status`
  abbrev pub wants_status : Option JobStatus → Job → (JobStatus → M Job) → M Job
  wants_status none updated f s = pure updated s
  wants_status (some new) updated f s =
      if eq_status new updated.status then pure updated s else f new s

  unfoldable pub update : (ℕ → Store → Store) → ℕ → ℕ → UpdateJobDto → M Job
  unfolding find_one durations change update_job after_update find_first
  update other_calls user_id job_id dto = do
    job ← find_one user_id job_id
    d ← durations user_id dto job
    f ← change user_id dto job d
    update_job job_id f
    s ← get_store
    updated ← found (find_first (λ j. j.id == job_id) s.jobs) "Record to update not found"
    after_update user_id dto job updated
    wants_status dto.status updated (update_status env other_calls user_id job_id)

  unfoldable pub remove : ℕ → ℕ → M Job
  unfolding find_one update_job find_first
  remove user_id job_id = do
    job ← find_one user_id job_id
    when
        (eq_status job.status confirmed
          || (eq_status job.status in_progress || eq_status job.status complete))
        (emit (delete_event user_id job_id))
    update_job job_id (λ j. record j { deleted_at = some env.now })
    s ← get_store
    result ← found (find_first (λ j. j.id == job_id) s.jobs) "Record to update not found"
    emit (route_cache_del user_id job.appointment_time)
    pure result
