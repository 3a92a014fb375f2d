-- ===== src/Examples.antt =====
-- A notary, her settings and the rows that the runs on concrete inputs use.
mod Jobs
mod Bookings
mod Invoices
mod Checks
mod Billing
mod Planner
mod Marketing
mod Mails
mod Accounts
mod Campaigns
use notaryday_backend.Common.{ℕ, String, true, false, Option, none, some, List, [], ◌∷◌}
use notaryday_backend.Common.Int.{pos}
use notaryday_backend.Schema.{
  User, UserSettings, ServiceConfig, SigningTypeDefault, Job, Booking, Invoice, Store, Env, Point,
  Route, pro, general, loan_refi, confirmed, in_progress, complete, manual, booking_pending_review,
}
use notaryday_backend.Tables.{default_notifications}
use notaryday_backend.Booking.Requests.{CreateBookingDto}
use notaryday_backend.Booking.Slots.{Window}
use notaryday_backend.Jobs.Editing.{CreateJobDto}

abbrev pub hour : ℕ
hour = 3600000

abbrev pub quiet : Store → Store
quiet s = s

abbrev pub quiet_calls : ℕ → Store → Store
quiet_calls _ s = s

abbrev pub env : Env
env = record {
  now = 1000000;
  year = 2026;
  geocode = λ _. some (record { lat = pos 1; lng = pos 2 });
  get_route = λ _ _. some (record { distance_miles = 1000; drive_time_mins = 20 });
  haversine_miles = λ _ _. 1000;
}

abbrev pub notary : User
notary = record {
  id = 1;
  email = "ann@example.com";
  password_hash = "h:secret";
  username = "ann";
  full_name = some "Ann";
  plan = pro;
  lemon_squeezy_customer_id = none;
  lemon_squeezy_subscription_id = none;
  plan_expires_at = none;
  last_seen_at = none;
  deleted_at = none;
}

abbrev pub settings : UserSettings
settings = record {
  user_id = 1;
  home_base_lat = some (pos 3);
  home_base_lng = some (pos 4);
  irs_rate_per_mile = 7000;
  min_acceptable_net = pos 2000;
  booking_page_enabled = true;
  booking_buffer_mins = 15;
  booking_page_services =
      record {
        signing_type = general;
        name = "General";
        duration_mins = 60;
        scanback_mins = 0;
        base_fee = 10000;
      }
      ∷ [];
  booking_min_notice_hours = 1;
  booking_advance_limit_days = 0;
  notifications = default_notifications;
}

-- A loan signing at ten o'clock, with an hour for the signing and half an hour for the scanback.
abbrev pub job : Job
job = record {
  id = 5;
  user_id = 1;
  address = "1 Main St";
  lat = some (pos 1);
  lng = some (pos 2);
  appointment_time = 36000000;
  signing_duration_mins = 60;
  scanback_duration_mins = 30;
  signing_ends_at = some 39600000;
  scanback_ends_at = some 41400000;
  signing_type = loan_refi;
  status = in_progress;
  source = manual;
  fee = 15000;
  platform_fee = 0;
  mileage_miles = none;
  mileage_cost = none;
  net_earnings = none;
  effective_hourly = none;
  irs_rate_snapshot = 7000;
  client_name = none;
  client_email = none;
  client_phone = none;
  platform_name = none;
  signer_count = 1;
  booking_id = none;
  import_id = none;
  idempotency_key = none;
  confirmed_at = none;
  started_at = none;
  scanning_started_at = none;
  completed_at = none;
  cancelled_at = none;
  notes = none;
  route_sequence = none;
  drive_from_prev_mins = none;
  drive_from_prev_miles = none;
  deleted_at = none;
}

-- A request for two o'clock.
abbrev pub booking : Booking
booking = record {
  id = 7;
  notary_id = 1;
  client_name = "Bob";
  client_email = "bob@example.com";
  client_phone = none;
  address = "2 Main St";
  lat = none;
  lng = none;
  service_type = general;
  requested_time = 50400000;
  document_type = none;
  notes = none;
  base_fee = 10000;
  travel_fee_estimate = some 0;
  status = booking_pending_review;
  declined_reason = none;
  alternative_times = [];
  reviewed_at = none;
  confirmed_at = none;
  deleted_at = none;
}

abbrev pub invoice : Invoice
invoice = record {
  id = 9;
  user_id = 1;
  job_id = 5;
  number_year = 2026;
  number_seq = 41;
  recipient_email = "bob@example.com";
  recipient_name = none;
  subtotal = 15000;
  travel_fee = 500;
  total = 15500;
  is_paid = false;
  paid_at = none;
  payment_method_used = none;
  sent_at = none;
  pdf_url = none;
  pdf_pending = false;
  email_pending = false;
  email_attempts = 0;
  email_last_attempt_at = none;
  email_last_error = none;
  email_failed_at = none;
  note_to_client = none;
  deleted_at = none;
}

abbrev pub rows : Store
rows = record {
  users = notary ∷ [];
  reset_tokens = [];
  settings = settings ∷ [];
  signing_defaults = [];
  jobs = job ∷ [];
  bookings = booking ∷ [];
  invoices = invoice ∷ [];
  pdfs = [];
  journal = [];
  day_plans = [];
  webhook_events = [];
  next_id = 100;
  outbox = [];
}

-- A request for noon.
abbrev pub booking_request : CreateBookingDto
booking_request = record {
  client_name = "Cy";
  client_email = "cy@example.com";
  client_phone = none;
  address = "3 Main St";
  service_type = general;
  requested_time = 43200000;
  document_type = none;
  notes = none;
  base_fee = none;
}

-- From nine to five.
abbrev pub window : Window
window = record { day = 0; next_day = 86400000; slot_start = 32400000; slot_end = 61200000 }

abbrev pub job_request : CreateJobDto
job_request = record {
  address = "4 Main St";
  appointment_time = 57600000;
  signing_type = general;
  source = manual;
  status = none;
  fee = 12000;
  platform_fee = 0;
  signing_duration_mins = some 45;
  scanback_duration_mins = none;
  client_name = none;
  client_email = none;
  client_phone = none;
  platform_name = none;
  signer_count = 1;
  notes = none;
}
