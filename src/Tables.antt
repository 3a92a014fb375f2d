-- ===== src/Tables.antt =====
-- The queries and writes that several services share, and the settings service
-- (src/modules/users/user-settings.service.ts).
use notaryday_backend.Common.{
  ℕ, Bool, true, ◌&&◌, ◌==◌, not, Option, none, ◌∷◌, [], is_some, find_first, update_where,
}
use notaryday_backend.Common.Int.{pos}
use notaryday_backend.Schema.{
  User, Job, Invoice, Booking, UserSettings, NotificationConfig, Store, M, ◌>>=◌, pure, if_some,
  get_store, ok,
}

-- `where: { id, user_id, deleted_at: null }`
abbrev pub live_job : ℕ → ℕ → Job → Bool
live_job user_id job_id j = j.id == job_id && (j.user_id == user_id && not (is_some j.deleted_at))

abbrev pub live_invoice : ℕ → ℕ → Invoice → Bool
live_invoice user_id id i = i.id == id && (i.user_id == user_id && not (is_some i.deleted_at))

abbrev pub live_booking : ℕ → ℕ → Booking → Bool
live_booking notary_id id b = b.id == id && (b.notary_id == notary_id && not (is_some b.deleted_at))

unfoldable pub update_job : ℕ → (Job → Job) → M (Unit {0})
update_job id f s = (ok tt, record s { jobs = update_where (λ j. j.id == id) f s.jobs })

unfoldable pub update_invoice : ℕ → (Invoice → Invoice) → M (Unit {0})
update_invoice id f s = (ok tt, record s { invoices = update_where (λ i. i.id == id) f s.invoices })

unfoldable pub update_booking : ℕ → (Booking → Booking) → M (Unit {0})
update_booking id f s = (ok tt, record s { bookings = update_where (λ b. b.id == id) f s.bookings })

abbrev pub find_user : ℕ → Store → Option User
find_user id s = find_first (λ u. u.id == id) s.users

-- DEFAULT_NOTIFICATION_PREFS, with the defaults of the UserSettings columns.
abbrev pub default_notifications : NotificationConfig
default_notifications = record {
  scanback_reminder = true;
  new_booking_received = true;
  payment_received = true;
  client_booking_confirmation = true;
  client_invoice = true;
  reminders_enabled = true;
  client_eta_enabled = true;
}

-- The defaults of the columns of UserSettings in prisma/schema.prisma.
unfoldable pub default_settings : ℕ → UserSettings
default_settings user_id = record {
  user_id = user_id;
  home_base_lat = none;
  home_base_lng = none;
  irs_rate_per_mile = 7200;
  min_acceptable_net = pos 2000;
  booking_page_enabled = true;
  booking_buffer_mins = 15;
  booking_page_services = [];
  booking_min_notice_hours = 0;
  booking_advance_limit_days = 30;
  notifications = default_notifications;
}

insert_settings : UserSettings → M UserSettings
insert_settings r s = (ok r, record s { settings = r ∷ s.settings })

-- `UserSettingsService.get`: the row is made on the first read.
unfoldable pub get_settings : ℕ → M UserSettings
unfolding insert_settings default_settings find_first
get_settings user_id = do
  s ← get_store
  if_some (find_first (λ r. r.user_id == user_id) s.settings) pure
      (insert_settings (default_settings user_id))

-- `getNotificationConfig`
unfoldable pub get_notification_config : ℕ → M NotificationConfig
unfolding get_settings
get_notification_config user_id = do settings ← get_settings user_id; pure settings.notifications
