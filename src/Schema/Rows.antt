-- ===== src/Schema/Rows.antt =====
-- The rows of prisma/schema.prisma that the services read and write.
--
-- Identifiers (cuid texts) are compared for equality only and are numbers here. A time is in
-- milliseconds since 1970. Money is in cents, a distance in hundredths of a mile, a mileage rate in
-- 1/10000 dollar a mile, a coordinate in 1e-7 degrees: the scales of the Decimal columns.
use notaryday_backend.Common.{ℕ, Bool, String, Option, List}
use notaryday_backend.Common.Int.{ℤ}
use notaryday_backend.Schema.Enums.{SigningType, JobStatus, JobSource, PlanTier, BookingStatus}

pub record User : Type 0 where
  pub id : ℕ
  pub email : String
  pub password_hash : String
  pub username : String
  pub full_name : Option String
  pub plan : PlanTier
  pub lemon_squeezy_customer_id : Option ℕ
  pub lemon_squeezy_subscription_id : Option ℕ
  pub plan_expires_at : Option ℕ
  pub last_seen_at : Option ℕ
  pub deleted_at : Option ℕ

pub record PasswordResetToken : Type 0 where
  pub id : ℕ
  pub user_id : ℕ
  pub token_hash : String
  pub expires_at : ℕ
  pub used_at : Option ℕ
  pub used : Bool

-- An element of `booking_page_services`, as `normalizeServices` returns it.
pub record ServiceConfig : Type 0 where
  pub signing_type : SigningType
  pub name : String
  pub duration_mins : ℕ
  pub scanback_mins : ℕ
  pub base_fee : ℕ

-- `NotificationConfig` of users/user-settings.service.ts, with the preferences that are read here.
pub record NotificationConfig : Type 0 where
  pub scanback_reminder : Bool
  pub new_booking_received : Bool
  pub payment_received : Bool
  pub client_booking_confirmation : Bool
  pub client_invoice : Bool
  pub reminders_enabled : Bool
  pub client_eta_enabled : Bool

pub record UserSettings : Type 0 where
  pub user_id : ℕ
  pub home_base_lat : Option ℤ
  pub home_base_lng : Option ℤ
  pub irs_rate_per_mile : ℕ
  pub min_acceptable_net : ℤ
  pub booking_page_enabled : Bool
  pub booking_buffer_mins : ℕ
  pub booking_page_services : List ServiceConfig
  pub booking_min_notice_hours : ℕ
  pub booking_advance_limit_days : ℕ
  pub notifications : NotificationConfig

pub record SigningTypeDefault : Type 0 where
  pub user_id : ℕ
  pub signing_type : SigningType
  pub signing_duration_mins : ℕ
  pub scanback_duration_mins : ℕ

pub record Job : Type 0 where
  pub id : ℕ
  pub user_id : ℕ
  pub address : String
  pub lat : Option ℤ
  pub lng : Option ℤ
  pub appointment_time : ℕ
  pub signing_duration_mins : ℕ
  pub scanback_duration_mins : ℕ
  pub signing_ends_at : Option ℕ
  pub scanback_ends_at : Option ℕ
  pub signing_type : SigningType
  pub status : JobStatus
  pub source : JobSource
  pub fee : ℕ
  pub platform_fee : ℕ
  pub mileage_miles : Option ℕ
  pub mileage_cost : Option ℕ
  pub net_earnings : Option ℤ
  pub effective_hourly : Option ℤ
  pub irs_rate_snapshot : ℕ
  pub client_name : Option String
  pub client_email : Option String
  pub client_phone : Option String
  pub platform_name : Option String
  pub signer_count : ℕ
  pub booking_id : Option ℕ
  pub import_id : Option ℕ
  pub idempotency_key : Option ℕ
  pub confirmed_at : Option ℕ
  pub started_at : Option ℕ
  pub scanning_started_at : Option ℕ
  pub completed_at : Option ℕ
  pub cancelled_at : Option ℕ
  pub notes : Option String
  pub route_sequence : Option ℕ
  pub drive_from_prev_mins : Option ℕ
  pub drive_from_prev_miles : Option ℕ
  pub deleted_at : Option ℕ

pub record Booking : Type 0 where
  pub id : ℕ
  pub notary_id : ℕ
  pub client_name : String
  pub client_email : String
  pub client_phone : Option String
  pub address : String
  pub lat : Option ℤ
  pub lng : Option ℤ
  pub service_type : SigningType
  pub requested_time : ℕ
  pub document_type : Option String
  pub notes : Option String
  pub base_fee : ℕ
  pub travel_fee_estimate : Option ℕ
  pub status : BookingStatus
  pub declined_reason : Option String
  pub alternative_times : List ℕ
  pub reviewed_at : Option ℕ
  pub confirmed_at : Option ℕ
  pub deleted_at : Option ℕ

-- `<domain>/invoices/<invoice number>.pdf?v=<version>`, by the number's two parts.
pub record PdfUrl : Type 0 where
  pub number_year : ℕ
  pub number_seq : ℕ
  pub version : ℕ

-- An invoice number `INV-<year>-<seq>`, `seq` padded to four digits, is kept as its two numbers.
pub record Invoice : Type 0 where
  pub id : ℕ
  pub user_id : ℕ
  pub job_id : ℕ
  pub number_year : ℕ
  pub number_seq : ℕ
  pub recipient_email : String
  pub recipient_name : Option String
  pub subtotal : ℕ
  pub travel_fee : ℕ
  pub total : ℕ
  pub is_paid : Bool
  pub paid_at : Option ℕ
  pub payment_method_used : Option String
  pub sent_at : Option ℕ
  pub pdf_url : Option PdfUrl
  pub pdf_pending : Bool
  pub email_pending : Bool
  pub email_attempts : ℕ
  pub email_last_attempt_at : Option ℕ
  pub email_last_error : Option String
  pub email_failed_at : Option ℕ
  pub note_to_client : Option String
  pub deleted_at : Option ℕ

-- An object of the bucket: its key is the invoice number, and the document shows an invoice.
pub record StoredPdf : Type 0 where
  pub number_year : ℕ
  pub number_seq : ℕ
  pub shows : Invoice

pub record JournalEntry : Type 0 where
  pub id : ℕ
  pub user_id : ℕ
  pub job_id : ℕ
  pub entry_date : ℕ
  -- minutes after midnight, UTC (`HH:MM`)
  pub act_time : ℕ
  pub signing_type : SigningType
  pub signer_name : String
  pub address : String
  pub fee_charged : ℕ
  pub notes : Option String
  pub deleted_at : Option ℕ

-- The plan of a day; `date` is the start of the day.
pub record DayPlan : Type 0 where
  pub user_id : ℕ
  pub date : ℕ
  pub total_drive_time : ℕ
  pub naive_total_drive_time : Option ℕ
  pub total_earnings : ℤ

-- The status of a subscription, as far as the code tells it apart.
pub data SubscriptionStatus : Type 0 where
  active trialing other_status : SubscriptionStatus

-- The fields of a Lemon Squeezy payload that the handlers read.
pub record Payload : Type 0 where
  pub id : ℕ
  pub variant_id : ℕ
  pub status : SubscriptionStatus
  pub customer_id : ℕ
  pub renews_at : Option ℕ
  pub ends_at : Option ℕ
  pub user_id : Option ℕ

-- The event names that `processWebhook` knows.
pub data EventName : Type 0 where
  subscription_created subscription_updated subscription_cancelled subscription_expired : EventName
  subscription_payment_failed unknown_event : EventName

pub record WebhookEvent : Type 0 where
  pub id : ℕ
  pub event_name : EventName
  pub payload : Payload
  pub processed : Bool
  pub processed_at : Option ℕ
  pub error : Option String
