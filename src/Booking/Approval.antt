-- ===== src/Booking/Approval.antt =====
-- An approval makes one job, and only once.
use notaryday_backend.Common.{
  ℕ, ◌≡◌, ◌≢◌, refl, ap, ◌∙◌, true, false, ◌==◌, some, ◌∷◌, find_first, update_where, any,
  find_first-update_where_of, find_first_sound, Option-cases, Bool-cases, inl, inr, arith, subst,
}
use notaryday_backend.Schema.{
  Job, Booking, UserSettings, Store, Env, ok, err, bad_request, confirmed, booking_pending_review,
  booking_confirmed, eq_booking_status, eq_booking_status_sound,
}
use notaryday_backend.Tables.{live_booking, get_settings, default_settings, get_notification_config}
use notaryday_backend.Booking.Requests.{notify_notary}
use notaryday_backend.Booking.Review.{
  confirm_booking, job_of_booking, is_job_of, mail_client, approve_pending, approve,
}

-- The booking row after an approval at the time `now`.
abbrev approved : ℕ → Booking → Booking
approved now b = record b {
  status = booking_confirmed;
  reviewed_at = some now;
  confirmed_at = some now;
}

-- What the transaction of an approval has done to the two tables.
pub record IsApproval (env : Env) (notary_id : ℕ) (booking : Booking) (job : Job)
    (before after : Store) : Type 0 where
  pub fresh : Booking
  pub was_there : find_first (live_booking notary_id booking.id) before.bookings ≡ some fresh
  pub was_pending : fresh.status ≡ booking_pending_review
  pub no_job_yet : any (is_job_of booking.id) before.jobs ≡ false
  pub jobs_after : after.jobs ≡ job ∷ before.jobs
  pub bookings_after :
      after.bookings ≡ update_where (λ b. b.id == booking.id) (approved env.now) before.bookings
  pub job_anchored : job.status ≡ confirmed
  pub job_linked : job.booking_id ≡ some booking.id
  pub job_timed : job.appointment_time ≡ booking.requested_time
  pub job_owned : job.user_id ≡ notary_id

module _ (env : Env) (notary_id : ℕ) (settings : UserSettings) (booking : Booking) where
  confirm_booking_ok :
      (s : Store) {job : Job}
      → (confirm_booking env notary_id settings booking s).0 ≡ ok job
      → IsApproval env notary_id booking job s (confirm_booking env notary_id settings booking s).1
  unfolding confirm_booking
  confirm_booking_ok s {job} h =
      elim (Option-cases (find_first (live_booking notary_id booking.id) s.bookings)) [
        | inl gone ↦ absurd (ground arith)
        | inr (fresh, there) ↦
            let made : job ≡ job_of_booking env s.next_id notary_id settings booking =
              ground arith in
            record {
              fresh = fresh;
              was_there = there;
              was_pending = ground arith;
              no_job_yet = ground arith;
              jobs_after = ground arith;
              bookings_after = ground arith;
              job_anchored = ap (λ j. j.status) made;
              job_linked = ap (λ j. j.booking_id) made;
              job_timed = ap (λ j. j.appointment_time) made;
              job_owned = ap (λ j. j.user_id) made;
            }
      ]

  approve_pending_tables :
      (other_calls : Store → Store) (s : Store) {b : Booking} {job : Job}
      → (approve_pending env other_calls notary_id booking settings s).0 ≡ ok (b, job)
      → ((confirm_booking env notary_id settings booking (other_calls s)).0 ≡ ok job)
        × ((approve_pending env other_calls notary_id booking settings s).1.bookings
            ≡ (confirm_booking env notary_id settings booking (other_calls s)).1.bookings)
        × ((approve_pending env other_calls notary_id booking settings s).1.jobs
            ≡ (confirm_booking env notary_id settings booking (other_calls s)).1.jobs)
  unfolding approve_pending mail_client notify_notary get_notification_config get_settings
  approve_pending_tables other_calls s h = ground arith

  approve_pending_ok :
      (other_calls : Store → Store) (s : Store) {b : Booking} {job : Job}
      → (approve_pending env other_calls notary_id booking settings s).0 ≡ ok (b, job)
      → IsApproval env notary_id booking job
          (other_calls s)
          (approve_pending env other_calls notary_id booking settings s).1
  approve_pending_ok other_calls s h =
      let (done, bookings, jobs) = approve_pending_tables other_calls s h in
      let a = confirm_booking_ok (other_calls s) done in
      record {
        fresh = a.fresh;
        was_there = a.was_there;
        was_pending = a.was_pending;
        no_job_yet = a.no_job_yet;
        jobs_after = jobs ∙ a.jobs_after;
        bookings_after = bookings ∙ a.bookings_after;
        job_anchored = a.job_anchored;
        job_linked = a.job_linked;
        job_timed = a.job_timed;
        job_owned = a.job_owned;
      }

  confirm_booking_accepts :
      (s : Store) {fresh : Booking}
      → find_first (live_booking notary_id booking.id) s.bookings ≡ some fresh
      → fresh.status ≡ booking_pending_review
      → any (is_job_of booking.id) s.jobs ≡ false
      → (confirm_booking env notary_id settings booking s).0
        ≡ ok (job_of_booking env s.next_id notary_id settings booking)
  unfolding confirm_booking
  confirm_booking_accepts s there still none_yet = ground arith

  approve_pending_accepts :
      (other_calls : Store → Store) (s : Store) {job : Job}
      → (confirm_booking env notary_id settings booking (other_calls s)).0 ≡ ok job
      → (approve_pending env other_calls notary_id booking settings s).0
        ≡ ok (record booking { status = booking_confirmed }, job)
  unfolding approve_pending mail_client notify_notary get_notification_config get_settings
  approve_pending_accepts other_calls s h = ground arith

get_settings-ok :
    (user_id : ℕ) (s : Store)
    → (r : UserSettings) × (get_settings user_id s ≡ (ok r, (get_settings user_id s).1))
unfolding get_settings
get_settings-ok user_id s =
    elim (Option-cases (find_first (λ r. r.user_id == user_id) s.settings)) [
      | inl e ↦ (default_settings user_id, ground arith)
      | inr (r, e) ↦ (r, ground arith)
    ]

live_id : (notary_id id : ℕ) (b : Booking) → live_booking notary_id id b ≡ true → b.id ≡ id
live_id notary_id id b h = ground arith

-- A booking that is not pending is not approved, and nothing is written.
pub approve_refused :
    (env : Env) (other_calls : Store → Store) (notary_id booking_id : ℕ) (s : Store) {row : Booking}
    → find_first (live_booking notary_id booking_id) s.bookings ≡ some row
    → row.status ≢ booking_pending_review
    → approve env other_calls notary_id booking_id s
      ≡ (err (bad_request "Booking is not pending review"), s)
unfolding approve
approve_refused env other_calls notary_id booking_id s {row} here closed =
    elim (Bool-cases (eq_booking_status row.status booking_pending_review)) [
      | inr e ↦ rw (here, e) refl
      | inl e ↦ absurd (closed (eq_booking_status_sound _ _ e))
    ]

-- The database after the settings were read: the same tables, but for a new row of settings.
abbrev read_settings : ℕ → Store → Store
read_settings user_id s = (get_settings user_id s).1

approve_answers :
    (env : Env) (other_calls : Store → Store) (notary_id booking_id : ℕ) (s : Store)
    {row fresh : Booking}
    → find_first (live_booking notary_id booking_id) s.bookings ≡ some row
    → row.status ≡ booking_pending_review
    → find_first (live_booking notary_id row.id) (other_calls (read_settings notary_id s)).bookings
      ≡ some fresh
    → fresh.status ≡ booking_pending_review
    → any (is_job_of row.id) (other_calls (read_settings notary_id s)).jobs ≡ false
    → (approve env other_calls notary_id booking_id s).0
      ≡ ok (
        record row { status = booking_confirmed },
        job_of_booking env
            (other_calls (read_settings notary_id s)).next_id
            notary_id
            (get_settings-ok notary_id s).0
            row,
      )
unfolding approve
approve_answers env other_calls notary_id booking_id s {row} here pending there still none_yet =
    let (settings, got) = get_settings-ok notary_id s in
    let confirm =
      confirm_booking_accepts env notary_id settings row (other_calls (read_settings notary_id s))
        there still none_yet in
    rw (here, ap (λ t. eq_booking_status t booking_pending_review) pending, got)
      (approve_pending_accepts env notary_id settings row other_calls _ confirm)

module _ (env : Env) (other_calls : Store → Store) (notary_id booking_id : ℕ) (s : Store) where
  -- A successful approval of a booking that is in the table has found the booking pending in the transaction itself, and no job of
  -- it; it has added one confirmed job for the requested time, linked to the booking, and set the
  -- booking to confirmed.
  pub approve_ok :
      {booking b : Booking} {job : Job}
      → find_first (live_booking notary_id booking_id) s.bookings ≡ some booking
      → (approve env other_calls notary_id booking_id s).0 ≡ ok (b, job)
      → IsApproval env notary_id booking job
          (other_calls (read_settings notary_id s))
          (approve env other_calls notary_id booking_id s).1
  unfolding approve
  approve_ok {booking} here h =
      let (settings, got) = get_settings-ok notary_id s in
      elim (Bool-cases (eq_booking_status booking.status booking_pending_review)) [
        | inr closed ↦ absurd (cc (rw (here, closed) at h))
        | inl open_still ↦
            rw (here, open_still, got)
              (approve_pending_ok env notary_id settings booking other_calls _
                (rw (here, open_still, got) at h))
      ]

  -- A booking that has been found and approved cannot be approved again: the next request, with
  -- whatever other calls, is refused and changes nothing.
  pub approve_twice :
      {booking b : Booking} {job : Job} (later_calls : Store → Store)
      → find_first (live_booking notary_id booking_id) s.bookings ≡ some booking
      → (approve env other_calls notary_id booking_id s).0 ≡ ok (b, job)
      → let after = (approve env other_calls notary_id booking_id s).1 in
        approve env later_calls notary_id booking_id after
        ≡ (err (bad_request "Booking is not pending review"), after)
  approve_twice {booking} later_calls here h =
      let a = approve_ok here h in
      let same : booking.id ≡ booking_id =
        live_id notary_id booking_id booking
          (find_first_sound (live_booking notary_id booking_id) s.bookings here) in
      approve_refused env later_calls notary_id booking_id _
        (ap (find_first (live_booking notary_id booking_id)) a.bookings_after
          ∙ find_first-update_where_of (λ b. b.id == booking.id) (live_booking notary_id booking_id)
              (approved env.now) _ (λ r here'. ground arith) (λ r. refl)
              (subst
                (λ n.
                  find_first (live_booking notary_id n)
                    (other_calls (read_settings notary_id s)).bookings
                  ≡ some a.fresh)
                same a.was_there))
        (λ e. cc)

-- A pending booking is approved, if no other request has decided it or made its job before the
-- transaction begins: the answer is the booking as confirmed and its job, one confirmed job for the
-- requested time, linked to the booking, is added, and the row is set to confirmed at this time.
pub approve_accepts :
    (env : Env) (other_calls : Store → Store) (notary_id booking_id : ℕ) (s : Store)
    {row fresh : Booking}
    → find_first (live_booking notary_id booking_id) s.bookings ≡ some row
    → row.status ≡ booking_pending_review
    → find_first (live_booking notary_id row.id) (other_calls (read_settings notary_id s)).bookings
      ≡ some fresh
    → fresh.status ≡ booking_pending_review
    → any (is_job_of row.id) (other_calls (read_settings notary_id s)).jobs ≡ false
    → (job : Job) × ((approve env other_calls notary_id booking_id s).0
        ≡ ok (record row { status = booking_confirmed }, job))
      × IsApproval env notary_id row job
          (other_calls (read_settings notary_id s))
          (approve env other_calls notary_id booking_id s).1
approve_accepts env other_calls notary_id booking_id s {row} here pending there still none_yet =
    let job =
      job_of_booking env (other_calls (read_settings notary_id s)).next_id notary_id
        (get_settings-ok notary_id s).0 row in
    let answer =
      approve_answers env other_calls notary_id booking_id s here pending there still none_yet in
    (job, answer, approve_ok env other_calls notary_id booking_id s here answer)
