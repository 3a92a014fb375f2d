-- ===== src/Jobs/Editing.antt =====
-- src/modules/jobs/jobs.service.ts: `create`, `update`, `remove` and their helpers.
use notaryday_backend.Common.{
  ℕ, ◌+◌, ◌*◌, ◌/◌, String, Bool, true, false, ◌&&◌, ◌==◌, Option, none, some, ◌∷◌, get_or,
  find_first, any, if◌then◌else◌, ltb,
}
use notaryday_backend.Schema.{
  Job, UserSettings, Store, M, ◌>>=◌, ◌>>◌, pure, throw, when, if_some, get_store, fresh_id, emit,
  ok, server_error, sync_job, track, route_cache_del, Env, Point, JobStatus, JobSource, manual,
  SigningType, pending, confirmed, eq_status, eq_type,
}
use notaryday_backend.Tables.{get_settings}
use notaryday_backend.Profitability.{Profitability, calculate_profitability, raw_mileage, cent}
use notaryday_backend.Jobs.{is_scanback_type}

pub record Mileage : Type 0 where
  pub distance_miles : ℕ
  pub mileage_cost : ℕ
  pub drive_time_mins : ℕ

-- `Math.round(distanceMiles * 2 * irsRate * 100) / 100`, in cents; 0 at the distance 0.
unfoldable pub mileage_cents : ℕ → ℕ → ℕ
unfolding raw_mileage
mileage_cents distance_miles irs_rate =
    (2 * raw_mileage distance_miles irs_rate + cent) / (2 * cent)

abbrev pub home_of : UserSettings → Option Point
home_of settings = elim settings.home_base_lat [
  | none ↦ none
  | some a ↦ elim settings.home_base_lng [
    | none ↦ none
    | some b ↦ some (record { lat = a; lng = b })
  ]
]

unfoldable pub compute_mileage : Env → UserSettings → Option Point → ℕ → Mileage
unfolding mileage_cents
compute_mileage env settings geo_point irs_rate = elim geo_point [
  | none ↦ record { distance_miles = 0; mileage_cost = 0; drive_time_mins = 0 }
  | some there ↦ elim (home_of settings) [
    | none ↦ record { distance_miles = 0; mileage_cost = 0; drive_time_mins = 0 }
    | some home ↦ elim (env.get_route home there) [
      | some r ↦ record {
        distance_miles = r.distance_miles;
        mileage_cost = mileage_cents r.distance_miles irs_rate;
        drive_time_mins = r.drive_time_mins;
      }
      | none ↦ record {
        distance_miles = env.haversine_miles home there;
        mileage_cost = mileage_cents (env.haversine_miles home there) irs_rate;
        drive_time_mins = 0;
      }
    ]
  ]
]

unfoldable pub get_signing_duration : ℕ → SigningType → M ℕ
unfolding find_first
get_signing_duration user_id t = do
  s ← get_store
  pure
      (elim (find_first (λ d. d.user_id == user_id && eq_type d.signing_type t)
        s.signing_defaults) [ none ↦ 60 | some d ↦ d.signing_duration_mins ])

unfoldable pub get_scanback_duration : ℕ → SigningType → M ℕ
unfolding find_first
get_scanback_duration user_id t = do
  s ← get_store
  pure (
      if is_scanback_type t
      then elim (find_first (λ d. d.user_id == user_id && eq_type d.signing_type t)
          s.signing_defaults) [ none ↦ 20 | some d ↦ d.scanback_duration_mins ]
      else 0)

-- `a ?? await m`
abbrev pub or_await : Option ℕ → M ℕ → M ℕ
or_await none m s = m s
or_await (some n) m s = (ok n, s)

-- `scanback > 0 ? signing_ends_at + scanback : null`
abbrev pub scanback_end : ℕ → ℕ → Option ℕ
scanback_end signing_ends_at mins =
    if ltb 0 mins then some (signing_ends_at + mins * 60000) else none

abbrev pub positive : ℕ → Option ℕ
positive n = if ltb 0 n then some n else none

-- CreateJobDto; `source` and `signing_type` have their defaults filled in by the DTO class.
pub record CreateJobDto : Type 0 where
  pub address : String
  pub appointment_time : ℕ
  pub signing_type : SigningType
  pub source : JobSource
  pub status : Option JobStatus
  pub fee : ℕ
  pub platform_fee : ℕ
  pub signing_duration_mins : Option ℕ
  pub scanback_duration_mins : Option ℕ
  pub client_name : Option String
  pub client_email : Option String
  pub client_phone : Option String
  pub platform_name : Option String
  pub signer_count : ℕ
  pub notes : Option String

abbrev pub is_manual : JobSource → Bool
is_manual manual = true
is_manual _ = false

abbrev pub initial_status : CreateJobDto → JobStatus
initial_status dto = get_or dto.status (if is_manual dto.source then confirmed else pending)

-- What `create` computes before it builds the row.
pub record Computed : Type 0 where
  pub irs_rate : ℕ
  pub geo_point : Option Point
  pub mileage : Mileage
  pub signing_duration_mins : ℕ
  pub scanback_duration_mins : ℕ

-- `calculateProfitability` as `create` calls it: without the scanback minutes.
abbrev pub create_profitability : CreateJobDto → Computed → Profitability
create_profitability dto c = calculate_profitability (record {
  fee = dto.fee;
  platform_fee = dto.platform_fee;
  distance_miles = c.mileage.distance_miles;
  irs_rate_per_mile = c.irs_rate;
  signing_duration_mins = c.signing_duration_mins;
  drive_time_mins = c.mileage.drive_time_mins;
  scanback_duration_mins = 0;
})

abbrev pub new_job : Env → ℕ → ℕ → CreateJobDto → Option ℕ → Option ℕ → Computed → Job
new_job env id user_id dto key import_id c = record {
  id = id;
  user_id = user_id;
  address = dto.address;
  lat = elim c.geo_point [ none ↦ none | some g ↦ some g.lat ];
  lng = elim c.geo_point [ none ↦ none | some g ↦ some g.lng ];
  appointment_time = dto.appointment_time;
  signing_duration_mins = c.signing_duration_mins;
  scanback_duration_mins = c.scanback_duration_mins;
  signing_ends_at = some (dto.appointment_time + c.signing_duration_mins * 60000);
  scanback_ends_at =
      scanback_end (dto.appointment_time + c.signing_duration_mins * 60000)
        c.scanback_duration_mins;
  signing_type = dto.signing_type;
  status = initial_status dto;
  source = dto.source;
  fee = dto.fee;
  platform_fee = dto.platform_fee;
  mileage_miles = positive c.mileage.distance_miles;
  mileage_cost = positive c.mileage.mileage_cost;
  net_earnings = some (create_profitability dto c).net_earnings;
  effective_hourly = some (create_profitability dto c).effective_hourly;
  irs_rate_snapshot = c.irs_rate;
  client_name = dto.client_name;
  client_email = dto.client_email;
  client_phone = dto.client_phone;
  platform_name = dto.platform_name;
  signer_count = dto.signer_count;
  booking_id = none;
  import_id = import_id;
  idempotency_key = key;
  confirmed_at = if eq_status (initial_status dto) confirmed then some env.now else none;
  started_at = none;
  scanning_started_at = none;
  completed_at = none;
  cancelled_at = none;
  notes = dto.notes;
  route_sequence = none;
  drive_from_prev_mins = none;
  drive_from_prev_miles = none;
  deleted_at = none;
}

abbrev pub has_key : ℕ → Job → Bool
has_key key j = elim j.idempotency_key [ none ↦ false | some k ↦ k == key ]

-- `findFirst({ where: { idempotency_key, user_id } })`: deleted rows count.
abbrev pub keyed_job : ℕ → Option ℕ → Store → Option Job
keyed_job user_id none s = none
keyed_job user_id (some key) s = find_first (λ j. j.user_id == user_id && has_key key j) s.jobs

-- The unique index on `idempotency_key` is over all users.
abbrev pub key_taken : Option ℕ → Store → Bool
key_taken none s = false
key_taken (some key) s = any (has_key key) s.jobs

-- `prisma.job.create`; `none` stands for the error P2002.
unfoldable pub insert_job : Job → M (Option Job)
unfolding any
insert_job job s =
    if key_taken job.idempotency_key s
    then (ok none, s)
    else (ok (some job), record s { jobs = job ∷ s.jobs })

-- After the error P2002: the own row with this key, or the error again.
abbrev pub found_or_rethrow : Option Job → M Job
found_or_rethrow none = throw (server_error "P2002")
found_or_rethrow (some job) = pure job

abbrev pub created : ℕ → Job → M Job
created user_id job = do
  emit (route_cache_del user_id job.appointment_time)
  emit (track "job_created" user_id)
  when (eq_status job.status confirmed) (emit (sync_job user_id job.id))
  pure job

module _ (env : Env) (other_calls : Store → Store) where
  unfoldable pub compute : ℕ → CreateJobDto → M Computed
  unfolding get_settings get_signing_duration get_scanback_duration compute_mileage
  compute user_id dto = do
    settings ← get_settings user_id
    signing ← or_await dto.signing_duration_mins (get_signing_duration user_id dto.signing_type)
    scanback ← or_await dto.scanback_duration_mins (get_scanback_duration user_id dto.signing_type)
    pure (record {
      irs_rate = settings.irs_rate_per_mile;
      geo_point = env.geocode dto.address;
      mileage = compute_mileage env settings (env.geocode dto.address) settings.irs_rate_per_mile;
      signing_duration_mins = signing;
      scanback_duration_mins = scanback;
    })

  -- `other_calls` is what other requests write between the first search and the insert.
  unfoldable pub create : ℕ → CreateJobDto → Option ℕ → Option ℕ → M Job
  unfolding insert_job find_first
  create user_id dto key import_id = do
    s ← get_store
    if_some (keyed_job user_id key s) pure (do
      c ← compute user_id dto
      (λ t. (ok tt, other_calls t))
      id ← fresh_id
      inserted ← insert_job (new_job env id user_id dto key import_id c)
      if_some inserted (created user_id)
          (do t ← get_store; found_or_rethrow (keyed_job user_id key t)))
