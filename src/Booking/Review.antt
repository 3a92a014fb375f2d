-- ===== src/Booking/Review.antt =====
-- src/modules/booking/booking.service.ts: `approve`, `decline` and `cancel`.
use notaryday_backend.Common.{
  ℕ, ◌+◌, ◌*◌, String, Bool, false, ◌&&◌, ◌==◌, not, Option, none, some, List, ◌∷◌, get_or, or_else,
  is_some, is_empty, find_first, any,
}
use notaryday_backend.Common.Int.{pos}
use notaryday_backend.Schema.{
  Job, Booking, UserSettings, Store, M, ◌>>=◌, ◌>>◌, pure, throw, when, if_some, transaction,
  get_store, fresh_id, emit, ok, bad_request, server_error, email, track, Env, booking_page,
  confirmed, booking_pending_review, booking_confirmed, booking_declined, cancelled_by_client,
  BookingStatus, eq_booking_status,
}
use notaryday_backend.Tables.{
  live_booking, update_booking, update_job, get_settings, get_notification_config,
}
use notaryday_backend.Jobs.Editing.{scanback_end}
use notaryday_backend.Booking.{service_for, duration_of, scanback_of}
use notaryday_backend.Booking.Requests.{find_one, notify_notary}

-- `if (booking.status !== status) throw new BadRequestException(message)`
unfoldable pub require_status : BookingStatus → String → Booking → M (Unit {0})
require_status status message b =
    when (not (eq_booking_status b.status status)) (throw (bad_request message))

-- The job that an approved booking becomes.
abbrev pub job_of_booking : Env → ℕ → ℕ → UserSettings → Booking → Job
job_of_booking env id notary_id settings b =
    let service = service_for settings.booking_page_services b.service_type in
    record {
      id = id;
      user_id = notary_id;
      address = b.address;
      lat = b.lat;
      lng = b.lng;
      appointment_time = b.requested_time;
      signing_duration_mins = duration_of service;
      scanback_duration_mins = scanback_of service;
      signing_ends_at = some (b.requested_time + duration_of service * 60000);
      scanback_ends_at =
          scanback_end (b.requested_time + duration_of service * 60000) (scanback_of service);
      signing_type = b.service_type;
      status = confirmed;
      source = booking_page;
      fee = b.base_fee + get_or b.travel_fee_estimate 0;
      platform_fee = 0;
      mileage_miles = none;
      mileage_cost = none;
      net_earnings = some (pos (b.base_fee + get_or b.travel_fee_estimate 0));
      effective_hourly = some (pos 0);
      irs_rate_snapshot = settings.irs_rate_per_mile;
      client_name = some b.client_name;
      client_email = some b.client_email;
      client_phone = b.client_phone;
      platform_name = none;
      signer_count = 1;
      booking_id = some b.id;
      import_id = none;
      idempotency_key = none;
      confirmed_at = some env.now;
      started_at = none;
      scanning_started_at = none;
      completed_at = none;
      cancelled_at = none;
      notes = none;
      route_sequence = none;
      drive_from_prev_mins = none;
      drive_from_prev_miles = none;
      deleted_at = none;
    }

abbrev pub is_job_of : ℕ → Job → Bool
is_job_of booking_id j = elim j.booking_id [ none ↦ false | some b ↦ b == booking_id ]

-- The unique index on `booking_id` makes the insert fail.
unfoldable pub insert_booked_job : ℕ → Job → M Job
unfolding any
insert_booked_job booking_id job = do
  s ← get_store
  when (any (is_job_of booking_id) s.jobs) (throw (server_error "P2002"))
  (λ t. (ok job, record t { jobs = job ∷ t.jobs }))

-- The transaction of `approve`: the booking is read again, since it may have changed.
unfoldable pub confirm_booking : Env → ℕ → UserSettings → Booking → M Job
unfolding find_first require_status insert_booked_job update_booking
confirm_booking env notary_id settings booking = do
  s ← get_store
  if_some (find_first (live_booking notary_id booking.id) s.bookings)
      (require_status booking_pending_review "Booking is not pending review")
      (throw (bad_request "Booking is not pending review"))
  id ← fresh_id
  job ← insert_booked_job booking.id (job_of_booking env id notary_id settings booking)
  update_booking booking.id (λ b. record b {
    status = booking_confirmed;
    reviewed_at = some env.now;
    confirmed_at = some env.now;
  })
  pure job

-- The mail to the client about the decision.
unfoldable pub mail_client : ℕ → Booking → M (Unit {0})
mail_client notary_id booking = do
  config ← get_notification_config notary_id
  when (not (is_empty booking.client_email) && config.client_booking_confirmation)
      (emit (email booking.client_email))

module _ (env : Env) where
  -- `approve`, once the booking is found to be pending. `other_calls` is what other requests write
  -- before the transaction begins.
  unfoldable pub approve_pending : (Store → Store) → ℕ → Booking → UserSettings → M (Booking × Job)
  approve_pending other_calls notary_id booking settings = do
    (λ t. (ok tt, other_calls t))
    job ← transaction (confirm_booking env notary_id settings booking)
    mail_client notary_id booking
    notify_notary notary_id "BOOKING_CONFIRMED"
    emit (track "booking_approved" notary_id)
    pure (record booking { status = booking_confirmed }, job)

  unfoldable pub approve : (Store → Store) → ℕ → ℕ → M (Booking × Job)
  unfolding find_one require_status
  approve other_calls notary_id booking_id = do
    booking ← find_one notary_id booking_id
    require_status booking_pending_review "Booking is not pending review" booking
    settings ← get_settings notary_id
    approve_pending other_calls notary_id booking settings

  unfoldable pub decline : ℕ → ℕ → Option String → List ℕ → M Booking
  unfolding find_one require_status update_booking
  decline notary_id booking_id reason alternative_times = do
    booking ← find_one notary_id booking_id
    require_status booking_pending_review "Booking is not pending review" booking
    update_booking booking_id (λ b. record b {
      status = booking_declined;
      declined_reason = or_else reason b.declined_reason;
      alternative_times = alternative_times;
      reviewed_at = some env.now;
    })
    mail_client notary_id booking
    pure (record booking { status = booking_declined })

  unfoldable pub cancel : ℕ → ℕ → M Booking
  unfolding find_one require_status update_booking update_job find_first
  cancel notary_id booking_id = do
    booking ← find_one notary_id booking_id
    require_status booking_confirmed "Only confirmed bookings can be cancelled" booking
    s ← get_store
    if_some
        (find_first
          (λ j. is_job_of booking_id j && (j.user_id == notary_id && not (is_some j.deleted_at)))
          s.jobs)
        (λ job. update_job job.id (λ j. record j { deleted_at = some env.now })) (pure tt)
    update_booking booking_id
        (λ b. record b { status = cancelled_by_client; reviewed_at = some env.now })
    pure (record booking { status = cancelled_by_client })
