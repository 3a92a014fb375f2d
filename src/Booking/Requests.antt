-- ===== src/Booking/Requests.antt =====
-- src/modules/booking/booking.service.ts: `create`, `findOne`, `approve`, `decline`, `cancel`.
--
-- The reference number of a booking (`generateBookingRef`) is random and is left out.
use text.Mathlib.Text.{◌==◌ as str_eq}
use notaryday_backend.Common.{
  ℕ, ◌+◌, ◌*◌, ◌/◌, String, Bool, true, false, ◌&&◌, not, Option, none, some, [], ◌∷◌, get_or,
  find_first, if◌then◌else◌, ltb,
}
use notaryday_backend.Schema.{
  Booking, User, UserSettings, ServiceConfig, M, found, ◌>>=◌, ◌>>◌, pure, throw, when, transaction,
  get_store, fresh_id, emit, ok, bad_request, conflict_error, notify, push, track, Env, PlanTier,
  free, SigningType, booking_pending_review,
}
use notaryday_backend.Tables.{live_booking, get_settings, get_notification_config}
use notaryday_backend.Profitability.{cent}
use notaryday_backend.Jobs.Editing.{home_of}
use notaryday_backend.Booking.{is_slot_block_taken, block_mins, service_for}

pub record CreateBookingDto : Type 0 where
  pub client_name : String
  pub client_email : String
  pub client_phone : Option String
  pub address : String
  pub service_type : SigningType
  pub requested_time : ℕ
  pub document_type : Option String
  pub notes : Option String
  pub base_fee : Option ℕ

abbrev pub is_free_plan : PlanTier → Bool
is_free_plan free = true
is_free_plan _ = false

-- The checks of `create` on the requested time.
unfoldable pub check_time : UserSettings → ℕ → ℕ → M (Unit {0})
check_time settings now t = do
  when (ltb t now) (throw (bad_request "Booking time is in the past"))
  when (ltb t (now + settings.booking_min_notice_hours * 3600000))
      (throw (bad_request "Bookings require notice"))
  when
      (ltb 0 (settings.booking_advance_limit_days * 86400000)
        && ltb (now + settings.booking_advance_limit_days * 86400000) t)
      (throw (bad_request "Bookings can only be made in advance up to a limit"))

-- `typeof dto.base_fee === 'number' && dto.base_fee > 0`
abbrev pub quoted : CreateBookingDto → Bool
quoted dto = ltb 0 (get_or dto.base_fee 0)

abbrev base_fee_of : Option ServiceConfig → ℕ
base_fee_of none = 7500
base_fee_of (some c) = c.base_fee

abbrev pub booking_fee : UserSettings → CreateBookingDto → ℕ
booking_fee settings dto =
    if quoted dto
    then get_or dto.base_fee 0
    else base_fee_of (service_for settings.booking_page_services dto.service_type)

-- `Math.round(route.distanceMiles * rate * 100) / 100`, if the client gave no quote and both ends
-- and the route are known.
unfoldable pub travel_fee : Env → UserSettings → CreateBookingDto → ℕ
travel_fee env settings dto = if quoted dto then 0 else elim (env.geocode dto.address) [
  | none ↦ 0
  | some there ↦ elim (home_of settings) [
    | none ↦ 0
    | some home ↦ elim (env.get_route home there) [
      | none ↦ 0
      | some r ↦ (2 * (r.distance_miles * settings.irs_rate_per_mile) + cent) / (2 * cent)
    ]
  ]
]

abbrev pub new_booking : Env → ℕ → ℕ → UserSettings → CreateBookingDto → Booking
new_booking env id notary_id settings dto = record {
  id = id;
  notary_id = notary_id;
  client_name = dto.client_name;
  client_email = dto.client_email;
  client_phone = dto.client_phone;
  address = dto.address;
  lat = elim (env.geocode dto.address) [ none ↦ none | some g ↦ some g.lat ];
  lng = elim (env.geocode dto.address) [ none ↦ none | some g ↦ some g.lng ];
  service_type = dto.service_type;
  requested_time = dto.requested_time;
  document_type = dto.document_type;
  notes = dto.notes;
  base_fee = booking_fee settings dto;
  travel_fee_estimate = some (travel_fee env settings dto);
  status = booking_pending_review;
  declined_reason = none;
  alternative_times = [];
  reviewed_at = none;
  confirmed_at = none;
  deleted_at = none;
}

insert_booking : Booking → M Booking
insert_booking b s = (ok b, record s { bookings = b ∷ s.bookings })

-- The transaction of `create`: serializable, so nothing comes between the check and the insert.
-- `aborted` tells whether Postgres gives it up for a concurrent one (P2034).
unfoldable pub reserve : Env → Bool → ℕ → UserSettings → CreateBookingDto → M Booking
unfolding insert_booking
reserve env aborted notary_id settings dto = do
  when aborted (throw (conflict_error "SLOT_CONFLICT"))
  s ← get_store
  when
      (is_slot_block_taken notary_id settings.booking_page_services dto.requested_time
        (block_mins settings.booking_page_services dto.service_type) settings.booking_buffer_mins
        s.jobs s.bookings)
      (throw (conflict_error "SLOT_CONFLICT"))
  id ← fresh_id
  insert_booking (new_booking env id notary_id settings dto)

-- The messages about a new request, or about an approved one.
unfoldable pub notify_notary : ℕ → String → M (Unit {0})
notify_notary notary_id type = do
  config ← get_notification_config notary_id
  when config.new_booking_received (do emit (notify type notary_id); emit (push notary_id))

unfoldable pub create_for : Env → Bool → CreateBookingDto → User → M Booking
unfolding check_time
create_for env aborted dto notary = do
  when (is_free_plan notary.plan) (throw (bad_request "Free plan users cannot receive bookings"))
  settings ← get_settings notary.id
  when (not settings.booking_page_enabled) (throw (bad_request "Booking page is not active"))
  check_time settings env.now dto.requested_time
  booking ← transaction (reserve env aborted notary.id settings dto)
  notify_notary notary.id "BOOKING_RECEIVED"
  emit (track "booking_requested" notary.id)
  pure booking

unfoldable pub create : Env → Bool → String → CreateBookingDto → M Booking
unfolding find_first create_for
create env aborted username dto = do
  s ← get_store
  notary ← found (find_first (λ u. str_eq u.username username) s.users) "Notary not found"
  create_for env aborted dto notary

unfoldable pub find_one : ℕ → ℕ → M Booking
unfolding find_first
find_one notary_id booking_id = do
  s ← get_store
  found (find_first (live_booking notary_id booking_id) s.bookings) "Booking not found"
