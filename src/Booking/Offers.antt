-- ===== src/Booking/Offers.antt =====
-- What an accepted booking request guarantees.
use text.Mathlib.Text.{◌==◌ as str_eq}
use notaryday_backend.Common.{
  ℕ, ◌+◌, ◌*◌, ◌≤◌, ◌≡◌, ◌⊎◌, ap, String, Bool, true, false, ◌==◌, some, ◌∷◌, get_or, find_first,
  arith,
}
use notaryday_backend.Schema.{
  Booking, User, UserSettings, Store, Env, ok, err, free, booking_pending_review, HttpError,
}
use notaryday_backend.Tables.{get_settings, default_settings, get_notification_config}
use notaryday_backend.Booking.{block_mins, is_slot_block_taken}
use notaryday_backend.Booking.Conflicts.{IsOpen, HasShortBlocks, is_slot_block_taken_iff}
use notaryday_backend.Booking.Requests.{
  CreateBookingDto, new_booking, reserve, notify_notary, create_for, create,
}

-- The settings that a notary has now, or gets at the first read.
abbrev pub settings_of : ℕ → Store → UserSettings
settings_of user_id s =
    get_or (find_first (λ r. r.user_id == user_id) s.settings) (default_settings user_id)

-- What an accepted request has passed.
pub record IsAccepted (env : Env) (dto : CreateBookingDto) (notary : User) (s : Store)
    : Type 0 where
  pub paid_plan : notary.plan ≡ free → ⊥
  pub page_enabled : (settings_of notary.id s).booking_page_enabled ≡ true
  pub notice_kept :
      env.now + (settings_of notary.id s).booking_min_notice_hours * 3600000 ≤ dto.requested_time
  pub not_taken :
      is_slot_block_taken notary.id
        (settings_of notary.id s).booking_page_services
        dto.requested_time
        (block_mins (settings_of notary.id s).booking_page_services dto.service_type)
        (settings_of notary.id s).booking_buffer_mins
        s.jobs
        s.bookings
      ≡ false

module _ (env : Env) (aborted : Bool) (dto : CreateBookingDto) (notary : User) (s : Store)
    {b : Booking} (done : (create_for env aborted dto notary s).0 ≡ ok b) where
  create_for_passed : IsAccepted env dto notary s
  unfolding create_for reserve get_settings notify_notary get_notification_config
  create_for_passed = ground arith

  create_for_rows : (create_for env aborted dto notary s).1.bookings ≡ b ∷ s.bookings
  unfolding create_for reserve get_settings notify_notary get_notification_config
  create_for_rows = ground arith

  create_for_row : b ≡ new_booking env s.next_id notary.id (settings_of notary.id s) dto
  unfolding create_for reserve get_settings notify_notary get_notification_config
  create_for_row = ground arith

create_for_error :
    (env : Env) (aborted : Bool) (dto : CreateBookingDto) (notary : User) (s : Store)
    {e : HttpError}
    → (create_for env aborted dto notary s).0 ≡ err e
    → (create_for env aborted dto notary s).1.bookings ≡ s.bookings
unfolding create_for reserve get_settings notify_notary get_notification_config
create_for_error env aborted dto notary s h = ground arith

-- A request that passes the checks, within the advance limit if there is one, is accepted when the
-- transaction is not aborted.
pub create_for_accepts :
    (env : Env) (dto : CreateBookingDto) (notary : User) (s : Store)
    → IsAccepted env dto notary s
    → ((settings_of notary.id s).booking_advance_limit_days ≡ 0)
      ⊎ (dto.requested_time
          ≤ env.now + (settings_of notary.id s).booking_advance_limit_days * 86400000)
    → (b : Booking) × ((create_for env false dto notary s).0 ≡ ok b)
unfolding create_for reserve get_settings notify_notary get_notification_config
create_for_accepts env dto notary s h soon =
    (new_booking env s.next_id notary.id (settings_of notary.id s) dto, ground arith)

module _ (env : Env) (aborted : Bool) (username : String) (dto : CreateBookingDto) (s : Store)
    {notary : User}
    (known : find_first (λ u. str_eq u.username username) s.users ≡ some notary) where
  -- An accepted request to a known notary has put one row in the table, a pending request for the
  -- time that was asked for, and that time was open: no job and no other request of the notary clashes
  -- with it, if every stored block lasts four hours at most.
  pub create_no_clash :
      {b : Booking}
      → (create env aborted username dto s).0 ≡ ok b
      → HasShortBlocks (settings_of notary.id s).booking_page_services s
      → IsOpen notary.id
          (settings_of notary.id s).booking_page_services
          dto.requested_time
          (block_mins (settings_of notary.id s).booking_page_services dto.service_type)
          (settings_of notary.id s).booking_buffer_mins
          s
        × ((create env aborted username dto s).1.bookings ≡ b ∷ s.bookings)
        × (b.notary_id ≡ notary.id)
        × (b.requested_time ≡ dto.requested_time)
        × (b.service_type ≡ dto.service_type)
        × (b.status ≡ booking_pending_review)
  unfolding create
  create_no_clash {b} h short =
      let done = rw known at h in
      let row = create_for_row env aborted dto notary s done in
      rw known (
        (is_slot_block_taken_iff notary.id _ dto.requested_time _ _ s short).0
            (create_for_passed env aborted dto notary s done).not_taken,
        create_for_rows env aborted dto notary s done,
        ap (λ r. r.notary_id) row,
        ap (λ r. r.requested_time) row,
        ap (λ r. r.service_type) row,
        ap (λ r. r.status) row,
      )

  -- A refused request to a known notary leaves the bookings as they are.
  pub create_refused :
      {e : HttpError}
      → (create env aborted username dto s).0 ≡ err e
      → (create env aborted username dto s).1.bookings ≡ s.bookings
  unfolding create
  create_refused h = rw known (create_for_error env aborted dto notary s (rw known at h))
