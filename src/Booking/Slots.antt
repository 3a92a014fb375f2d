-- ===== src/Booking/Slots.antt =====
-- src/modules/booking/booking.service.ts: `computeSlots`.
--
-- `Window` is what the JavaScript `Date` makes of the day and of the active hours of its weekday,
-- in the time zone of the server; it is missing where the notary has no valid hours on that day.
-- A slot is its start; its two texts (`HH:MM` and ISO) are renderings of it.
use notaryday_backend.Common.{
  ℕ, zero, suc, ◌+◌, ◌*◌, ◌-◌, ◌/◌, Bool, ◌&&◌, not, Option, none, some, List, [], ◌∷◌, ◌++◌, map,
  any, select, if◌then◌else◌, ltb, leb,
}
use notaryday_backend.Schema.{UserSettings, Store, SigningType}
use notaryday_backend.Booking.{
  Block, overlaps_block, job_block, job_block_end, booking_block, block_mins, is_anchored,
  is_awaiting, within,
}

pub record Window : Type 0 where
  pub day : ℕ
  pub next_day : ℕ
  pub slot_start : ℕ
  pub slot_end : ℕ

abbrev pub slot_step : ℕ
slot_step = 30 * 60000

-- The jobs and requests from six hours before the day to its end.
unfoldable pub occupied : ℕ → UserSettings → Window → Store → List Block
unfolding select job_block_end block_mins
occupied notary_id settings w s =
    let lower : ℕ = w.day - 6 * 3600000 in
    map job_block
      (select (λ j. is_anchored notary_id j && within lower w.next_day j.appointment_time) s.jobs)
    ++ map (booking_block settings.booking_page_services) (
        select (λ b. is_awaiting notary_id b && within lower w.next_day b.requested_time)
          s.bookings)

-- The minimum notice and the advance limit.
abbrev pub in_notice : UserSettings → ℕ → ℕ → Bool
in_notice settings now t =
    not (ltb t (now + settings.booking_min_notice_hours * 3600000))
    && not (
        ltb 0 (settings.booking_advance_limit_days * 86400000)
        && ltb (now + settings.booking_advance_limit_days * 86400000) t)

unfoldable pub is_free : UserSettings → ℕ → ℕ → List Block → ℕ → Bool
unfolding any overlaps_block
is_free settings now total blocks t =
    in_notice settings now t
    && not
        (any (overlaps_block t (t + total * 60000) (settings.booking_buffer_mins * 60000)) blocks)

-- The loop: `fuel` bounds the rounds left.
unfoldable pub slots_from : ℕ → ℕ → ℕ → (ℕ → Bool) → ℕ → List ℕ
slots_from zero total slot_end free t = []
slots_from (suc fuel) total slot_end free t =
    let rest = slots_from fuel total slot_end free (t + slot_step) in
    if leb (t + total * 60000) slot_end then (if free t then t ∷ rest else rest) else []

-- Enough rounds for a window.
abbrev pub rounds : Window → ℕ
rounds w = suc ((w.slot_end - w.slot_start) / slot_step)

unfoldable pub compute_slots : ℕ → UserSettings → Option Window → SigningType → ℕ → Store → List ℕ
compute_slots notary_id settings none t now s = []
compute_slots notary_id settings (some w) t now s =
    let total : ℕ = block_mins settings.booking_page_services t in
    slots_from (rounds w) total w.slot_end
      (is_free settings now total (occupied notary_id settings w s)) w.slot_start
