-- ===== src/Citt/Verdicts.antt =====
-- src/modules/citt/citt.service.ts: which verdict `runCheck` gives.
use notaryday_backend.Common.{
  ℕ, ◌+◌, ◌*◌, ◌≤◌, ◌<◌, true, false, Option, none, some, ◌≡◌, ◌≢◌, refl, arith, ◌↔◌,
}
use notaryday_backend.Common.Int.{ℤ, pos, ◌≤ℤ◌, floor_div, ◌-ℤ◌}
use notaryday_backend.Schema.{UserSettings, Job, Route}
use notaryday_backend.Profitability.{Params, calculate_profitability}
use notaryday_backend.Booking.{job_block_end}
use notaryday_backend.Citt.{
  CittCheckDto, Trip, take_it, min_acceptable, take_it_net, min_gap_mins, gap_below,
  answered_result, declined_result, judge, prior_conflict, gap_before_of,
}
use notaryday_backend.Citt.Check.{Minutes, trip}

-- A gap that there is has at least `bound` minutes.
pub data HasRoom (bound : ℤ) : Option ℤ → Type 0 where
  alone : HasRoom bound none
  gap : {g : ℤ} → bound ≤ℤ g → HasRoom bound (some g)

abbrev pub params_of : UserSettings → CittCheckDto → ℕ → ℕ → Trip → Params
params_of settings dto signing scanback t = record {
  fee = dto.fee;
  platform_fee = dto.platform_fee;
  distance_miles = t.distance_miles;
  irs_rate_per_mile = settings.irs_rate_per_mile;
  signing_duration_mins = signing;
  drive_time_mins = t.drive_time_mins;
  scanback_duration_mins = scanback;
}

room_of : (bound : ℤ) → (o : Option ℤ) → gap_below bound o ≡ false → HasRoom bound o
room_of bound none _ = alone
room_of bound (some g) e = gap (ground arith)

of_room : (bound : ℤ) → (o : Option ℤ) → HasRoom bound o → gap_below bound o ≡ false
of_room bound _ alone = refl
of_room bound _ (gap h) = ground arith

at_all : (o : Option ℤ) → HasRoom min_gap_mins o → gap_below (pos 0) o ≡ false
at_all _ alone = refl
at_all _ (gap h) = ground arith

module _ (settings : UserSettings) (dto : CittCheckDto) (signing scanback : ℕ) (t : Trip) where
  abbrev pub net_of : ℤ
  net_of = (calculate_profitability (params_of settings dto signing scanback t)).net_earnings

  -- The verdict is to take the job exactly when it earns the notary's minimum and 20 dollars, and
  -- ten minutes are left to each neighbouring appointment that there is.
  pub take_it_iff : ((judge settings dto signing scanback t).verdict ≡ take_it) ↔ (
      (min_acceptable settings ≤ℤ net_of)
      × (take_it_net ≤ℤ net_of)
      × HasRoom min_gap_mins t.gap_before
      × HasRoom min_gap_mins t.gap_after)
  unfolding judge declined_result answered_result
  take_it_iff = (
    (λ h. (ground arith, ground arith, room_of _ _ (ground arith), room_of _ _ (ground arith))),
    (λ (enough, more, before, after).
        let b = of_room _ _ before in
        let a = of_room _ _ after in
        let bb = at_all _ before in let aa = at_all _ after in ground arith),
  )

  -- A check says that the notary can make it exactly when neither neighbouring appointment overlaps.
  pub can_make_it_iff :
      ((judge settings dto signing scanback t).can_make_it ≡ true)
      ↔ (HasRoom (pos 0) t.gap_before × HasRoom (pos 0) t.gap_after)
  unfolding judge declined_result answered_result
  can_make_it_iff = (
    (λ h. (room_of _ _ (ground arith), room_of _ _ (ground arith))),
    (λ (before, after). let b = of_room _ _ before in let a = of_room _ _ after in ground arith),
  )

near_enough :
    (appointment drive_mins : ℕ) (prev : Job) {signing_end : ℕ}
    → prev.signing_ends_at ≡ some signing_end
    → signing_end + drive_mins * 60000 ≤ appointment
    → gap_below (pos 0) (some (gap_before_of appointment drive_mins prev)) ≡ false
unfolding gap_before_of ◌-ℤ◌ floor_div
near_enough appointment drive_mins prev signed near = rw signed (ground arith)

no_prior_conflict :
    (settings : UserSettings) (dto : CittCheckDto) (signing scanback : ℕ) (t : Trip)
    → gap_below (pos 0) t.gap_before ≡ false
    → (judge settings dto signing scanback t).reason ≢ prior_conflict
unfolding judge declined_result answered_result
no_prior_conflict settings dto signing scanback t free h = ground (arith, free, h)

-- If the way from the end of the previous job's signing can be driven in time, the judgement of the
-- offer is not a conflict with that job, although its scanback still runs at the appointment and its
-- block on the booking page lasts beyond it.
pub running_scanback_free :
    (settings : UserSettings) (dto : CittCheckDto) (m : Minutes) (prev : Job) (next : Option Job)
    (r : Route) {signing_end scanback_end : ℕ}
    → prev.signing_ends_at ≡ some signing_end
    → prev.scanback_ends_at ≡ some scanback_end
    → signing_end + r.drive_time_mins * 60000 ≤ dto.appointment_time
    → dto.appointment_time < scanback_end
    → ((judge settings dto m.signing m.scanback (trip dto m (some prev) next r)).reason
        ≢ prior_conflict)
      × (dto.appointment_time < job_block_end prev)
unfolding job_block_end
running_scanback_free settings dto m prev next r signed scanned near before = (
  no_prior_conflict settings dto m.signing m.scanback (trip dto m (some prev) next r)
      (near_enough dto.appointment_time r.drive_time_mins prev signed near),
  rw scanned (ground arith),
)
