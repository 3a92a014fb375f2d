-- ===== src/Schema/Enums.antt =====
-- The enums of prisma/schema.prisma.
use notaryday_backend.Common.{ℕ, Bool, ◌==◌, ◌≡◌, true, arith}

pub data SigningType : Type 0 where
  general loan_refi hybrid purchase_closing field_inspection apostille : SigningType

pub data JobStatus : Type 0 where
  pending pending_review confirmed in_progress scanning complete cancelled declined : JobStatus

pub data JobSource : Type 0 where
  manual email_import screenshot booking_page csv : JobSource

pub data PlanTier : Type 0 where
  free pro pro_annual team : PlanTier

-- `confirmed` and `declined` are also job statuses, so the constructors carry the word `booking`.
pub data BookingStatus : Type 0 where
  booking_pending_review booking_confirmed booking_declined cancelled_by_client : BookingStatus

-- `===` on an enum, by the place of each value in its list.
abbrev signing_type_index : SigningType → ℕ
signing_type_index general = 0
signing_type_index loan_refi = 1
signing_type_index hybrid = 2
signing_type_index purchase_closing = 3
signing_type_index field_inspection = 4
signing_type_index apostille = 5

abbrev pub eq_type : SigningType → SigningType → Bool
eq_type s t = signing_type_index s == signing_type_index t

abbrev job_status_index : JobStatus → ℕ
job_status_index pending = 0
job_status_index pending_review = 1
job_status_index confirmed = 2
job_status_index in_progress = 3
job_status_index scanning = 4
job_status_index complete = 5
job_status_index cancelled = 6
job_status_index declined = 7

abbrev pub eq_status : JobStatus → JobStatus → Bool
eq_status s t = job_status_index s == job_status_index t

abbrev booking_status_index : BookingStatus → ℕ
booking_status_index booking_pending_review = 0
booking_status_index booking_confirmed = 1
booking_status_index booking_declined = 2
booking_status_index cancelled_by_client = 3

abbrev pub eq_booking_status : BookingStatus → BookingStatus → Bool
eq_booking_status s t = booking_status_index s == booking_status_index t

pub eq_status_sound : (s t : JobStatus) → eq_status s t ≡ true → s ≡ t
eq_status_sound s t h = ground arith

pub eq_booking_status_sound : (s t : BookingStatus) → eq_booking_status s t ≡ true → s ≡ t
eq_booking_status_sound s t h = ground arith

pub eq_type_sound : (s t : SigningType) → eq_type s t ≡ true → s ≡ t
eq_type_sound s t h = ground arith

pub eq_type_refl : (t : SigningType) → eq_type t t ≡ true
eq_type_refl t = ground arith
