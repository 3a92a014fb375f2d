-- ===== src/Booking.antt =====
-- src/modules/booking/booking.service.ts: blocks of time, and whether a block is taken.
pub mod Slots
pub mod Requests
pub mod Review
pub mod Conflicts
pub mod Offers
pub mod Offered
pub mod Alternatives
pub mod Suggested
pub mod Approval
use notaryday_backend.Common.{
  ℕ, ◌+◌, ◌*◌, ◌-◌, max, Bool, true, false, ◌&&◌, ◌||◌, ◌==◌, not, Option, none, some, List, [],
  ◌∷◌, get_or, is_some, find_first, select, any, if◌then◌else◌, ltb, leb,
}
use notaryday_backend.Schema.{
  Job, Booking, ServiceConfig, UserSettings, Store, SigningType, confirmed, in_progress, scanning,
  booking_pending_review, eq_status, eq_booking_status, eq_type,
}

-- An occupied stretch of time.
pub record Block : Type 0 where
  pub start : ℕ
  pub end : ℕ

unfoldable pub overlaps_block : ℕ → ℕ → ℕ → Block → Bool
overlaps_block candidate_start candidate_end buffer o =
    not (leb (candidate_end + buffer) o.start || leb (o.end + buffer) candidate_start)

unfoldable pub job_block_end : Job → ℕ
job_block_end job =
    max
      (max (job.appointment_time + (job.signing_duration_mins + job.scanback_duration_mins) * 60000)
        (get_or job.signing_ends_at 0))
      (get_or job.scanback_ends_at 0)

abbrev pub job_block : Job → Block
job_block job = record { start = job.appointment_time; end = job_block_end job }

-- `services.find((s) => s.signing_type === type)`
abbrev pub service_for : List ServiceConfig → SigningType → Option ServiceConfig
service_for services t = find_first (λ c. eq_type c.signing_type t) services

abbrev pub duration_of : Option ServiceConfig → ℕ
duration_of none = 60
duration_of (some c) = c.duration_mins

abbrev pub scanback_of : Option ServiceConfig → ℕ
scanback_of none = 0
scanback_of (some c) = c.scanback_mins

unfoldable pub block_mins : List ServiceConfig → SigningType → ℕ
unfolding find_first
block_mins services t = duration_of (service_for services t) + scanback_of (service_for services t)

abbrev pub booking_block : List ServiceConfig → Booking → Block
booking_block services b = record {
  start = b.requested_time;
  end = b.requested_time + block_mins services b.service_type * 60000;
}

-- The jobs and the pending requests that hold time of a notary.
abbrev pub is_anchored : ℕ → Job → Bool
is_anchored notary_id j =
    j.user_id == notary_id
    && (not (is_some j.deleted_at)
        && (eq_status j.status confirmed
            || (eq_status j.status in_progress || eq_status j.status scanning)))

abbrev pub is_awaiting : ℕ → Booking → Bool
is_awaiting notary_id b =
    b.notary_id == notary_id
    && (not (is_some b.deleted_at) && eq_booking_status b.status booking_pending_review)

-- `{ gte: from, lt: to }`
abbrev pub within : ℕ → ℕ → ℕ → Bool
within lower upper t = leb lower t && ltb t upper

-- `(bufferMins + 240) * 60_000`
abbrev pub pad : ℕ → ℕ
pad buffer_mins = (buffer_mins + 240) * 60000

-- `isSlotBlockTaken` over the two tables, with `includePending` as `create` sets it.
unfoldable pub is_slot_block_taken :
    ℕ → List ServiceConfig → ℕ → ℕ → ℕ → List Job → List Booking → Bool
unfolding overlaps_block job_block_end block_mins select any
is_slot_block_taken notary_id services start total_mins buffer_mins jobs bookings =
    let stop : ℕ = start + total_mins * 60000 in
    let lower : ℕ = start - pad buffer_mins in
    let upper : ℕ = stop + pad buffer_mins in
    any (λ j. overlaps_block start stop (buffer_mins * 60000) (job_block j))
      (select (λ j. is_anchored notary_id j && within lower upper j.appointment_time) jobs)
    || any (λ b. overlaps_block start stop (buffer_mins * 60000) (booking_block services b))
        (select (λ b. is_awaiting notary_id b && within lower upper b.requested_time) bookings)
