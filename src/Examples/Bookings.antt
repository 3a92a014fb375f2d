-- ===== src/Examples/Bookings.antt =====
-- Runs of the booking page (src/modules/booking/booking.service.ts).
use mathlib.Core.List.{Memᴰ}
use notaryday_backend.Common.{
  ℕ, zero, suc, List, Option, none, slice, subst, ap, get_or, Bool, ◌==◌, ◌≡◌, ◌↔◌, refl, false,
  some, ◌∷◌, find_first, any, arith, All,
}
use notaryday_backend.Schema.{Job, Booking, ok, booking_pending_review, general, booking_confirmed}
use notaryday_backend.Tables.{get_settings, get_notification_config}
use notaryday_backend.Booking.Alternatives.{skips, slots_of, suggest_alternatives}
use notaryday_backend.Booking.Suggested.{offers, suggested_bookable}
use notaryday_backend.Booking.{block_mins, is_slot_block_taken, job_block_end}
use notaryday_backend.Booking.Conflicts.{HasShortBlocks, IsOpen, is_slot_block_taken_iff}
use notaryday_backend.Booking.Requests.{create, create_for, new_booking, reserve, notify_notary}
use notaryday_backend.Booking.Offers.{settings_of, IsAccepted, create_no_clash}
use notaryday_backend.Booking.Slots.{Window, compute_slots, is_free, occupied}
use notaryday_backend.Booking.Offered.{IsOffer, IsOrdinary, compute_slots_iff, slots_bookable}
use notaryday_backend.Booking.Review.{
  approve, approve_pending, confirm_booking, mail_client, job_of_booking,
}
use notaryday_backend.Booking.Approval.{IsApproval, approve_ok, approve_accepts}
use notaryday_backend.Examples.{
  env, notary, settings, booking, rows, quiet, booking_request, window,
}

rows_short : HasShortBlocks settings.booking_page_services rows
unfolding job_block_end block_mins
rows_short = ((omega arith, tt), (omega arith, tt))

is_slot_block_taken_iff_example :
    (is_slot_block_taken 1 settings.booking_page_services 43200000 60 15 rows.jobs rows.bookings
      ≡ false)
    ↔ IsOpen 1 settings.booking_page_services 43200000 60 15 rows
is_slot_block_taken_iff_example =
    is_slot_block_taken_iff 1 settings.booking_page_services 43200000 60 15 rows rows_short

abbrev made : Booking
made = new_booking env 100 1 settings booking_request

create_no_clash_example :
    IsOpen 1 settings.booking_page_services 43200000
      (block_mins settings.booking_page_services general)
      15
      rows
    × ((create env false "ann" booking_request rows).1.bookings ≡ made ∷ rows.bookings)
    × (made.notary_id ≡ 1)
    × (made.requested_time ≡ 43200000)
    × (made.service_type ≡ general)
    × (made.status ≡ booking_pending_review)
unfolding create find_first get_settings reserve is_slot_block_taken notify_notary
    get_notification_config
create_no_clash_example =
    create_no_clash env false "ann" booking_request rows {notary = notary} refl {b = made} refl
      rows_short

noon-IsAccepted : IsAccepted env booking_request notary rows
unfolding find_first is_slot_block_taken
noon-IsAccepted = record {
  paid_plan = λ e. ground (arith, e);
  page_enabled = refl;
  notice_kept = omega arith;
  not_taken = refl;
}

compute_slots_iff_example :
    Memᴰ 43200000 (compute_slots 1 settings (some window) general 1000000 rows)
    ↔ IsOffer
        (block_mins settings.booking_page_services general)
        61200000
        (is_free settings 1000000
          (block_mins settings.booking_page_services general)
          (occupied 1 settings window rows))
        32400000
        43200000
compute_slots_iff_example = compute_slots_iff 1 settings window general 1000000 rows 43200000

slots_bookable_example :
    All
      (λ t.
        (b : Booking) × ((create_for env false
            (record booking_request { requested_time = t })
            notary
            rows).0
          ≡ ok b))
      (compute_slots 1 settings (some window) general 1000000 rows)
unfolding find_first
slots_bookable_example =
    slots_bookable env notary window booking_request rows (λ e. ground (arith, e)) refl
      (record {
        opens_in_day = omega arith;
        closes_in_day = omega arith;
        buffer_small = omega arith;
      })
      rows_short

abbrev booked : Job
booked = job_of_booking env 100 1 settings booking

approve_accepts_example :
    (j : Job) × ((approve env quiet 1 7 rows).0
      ≡ ok (record booking { status = booking_confirmed }, j))
    × IsApproval env 1 booking j (quiet (get_settings 1 rows).1) (approve env quiet 1 7 rows).1
unfolding find_first get_settings any
approve_accepts_example =
    approve_accepts env quiet 1 7 rows {row = booking} {fresh = booking} refl refl refl refl refl

approve_ok_example :
    IsApproval env 1 booking booked (quiet (get_settings 1 rows).1) (approve env quiet 1 7 rows).1
unfolding find_first get_settings any approve approve_pending confirm_booking mail_client
    get_notification_config notify_notary
approve_ok_example =
    approve_ok env quiet 1 7 rows {booking = booking}
      {b = record booking { status = booking_confirmed }} {job = booked} refl refl

-- The page is asked for noon of the day, and the days after it are closed.
abbrev day_windows : ℕ → Option Window
day_windows zero = some window
day_windows (suc _) = none

abbrev is_noon : ℕ → Bool
is_noon t = t == 43200000

abbrev offered_starts : List ℕ
offered_starts =
    offers 14 0 (skips is_noon) (slots_of 1 (settings_of 1 rows) day_windows general 1000000 rows)

ordinary_day :
    (i : ℕ) (w : Window)
    → day_windows i ≡ some w
    → IsOrdinary 1 (settings_of 1 rows) w general 1000000 rows
unfolding find_first
ordinary_day zero w e =
    subst (λ v. IsOrdinary 1 (settings_of 1 rows) v general 1000000 rows)
      (ap (λ o. get_or o window) e)
      (record {
        opens_in_day = omega arith;
        closes_in_day = omega arith;
        buffer_small = omega arith;
      })
ordinary_day (suc i) w e = cc

suggested_bookable_example :
    ((suggest_alternatives "ann" day_windows is_noon general 1000000 rows).0
      ≡ ok (slice 5 offered_starts))
    × All
        (λ t.
          (b : Booking) × ((create_for env false
              (record booking_request { requested_time = t })
              notary
              rows).0
            ≡ ok b))
        (slice 5 offered_starts)
unfolding find_first
suggested_bookable_example =
    suggested_bookable env "ann" day_windows is_noon booking_request notary rows refl refl refl
      ordinary_day rows_short
