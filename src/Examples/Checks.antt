-- ===== src/Examples/Checks.antt =====
-- Runs of "Can I take this?" (src/modules/citt/citt.service.ts).
use notaryday_backend.Common.{
  find_first, ◌≡◌, ◌≢◌, ◌<◌, ◌+◌, ◌*◌, ◌↔◌, refl, none, some, [], ◌∷◌, arith,
}
use notaryday_backend.Common.Int.{pos, ◌≤ℤ◌}
use notaryday_backend.Schema.{Store, UserSettings, Route, general, ok}
use notaryday_backend.Booking.{job_block_end}
use notaryday_backend.Citt.{
  CittCheckDto, Trip, CittResult, take_it, prior_conflict, judge, min_acceptable, take_it_net,
  min_gap_mins,
}
use notaryday_backend.Citt.Check.{Minutes, trip, run_check}
use notaryday_backend.Citt.Answers.{IsAnswer, minutes_of, run_check_answers}
use notaryday_backend.Citt.Verdicts.{HasRoom, net_of, take_it_iff, running_scanback_free}
use notaryday_backend.Examples.{env, settings, job, rows}

abbrev offer : CittCheckDto
offer = record {
  address = "5 Main St";
  appointment_time = 46800000;
  day_start = 0;
  day_end = 86400000;
  fee = 12000;
  platform_fee = 0;
  signing_type = general;
  signing_duration_mins = none;
}

abbrev way : Trip
way = record {
  distance_miles = 1000;
  drive_time_mins = 20;
  gap_before = some (pos 100);
  gap_after = none;
  prev_job = some job;
  next_job = none;
}

take_it_iff_example : ((judge settings offer 60 0 way).verdict ≡ take_it) ↔ (
    (min_acceptable settings ≤ℤ net_of settings offer 60 0 way)
    × (take_it_net ≤ℤ net_of settings offer 60 0 way)
    × HasRoom min_gap_mins way.gap_before
    × HasRoom min_gap_mins way.gap_after)
take_it_iff_example = take_it_iff settings offer 60 0 way

-- At 11:20, twenty minutes after the signing and ten before the end of the scanback.
abbrev at_scanback : CittCheckDto
at_scanback = record offer { appointment_time = 40800000 }

abbrev an_hour : Minutes
an_hour = record { signing = 60; scanback = 0 }

abbrev drive : Route
drive = record { distance_miles = 1000; drive_time_mins = 20 }

running_scanback_free_example :
    ((judge settings at_scanback 60 0 (trip at_scanback an_hour (some job) none drive)).reason
      ≢ prior_conflict)
    × (40800000 < job_block_end job)
running_scanback_free_example =
    running_scanback_free settings at_scanback an_hour job none drive {signing_end = 39600000}
      {scanback_end = 41400000} refl refl (omega arith) (omega arith)

abbrev at_home : UserSettings
at_home = record settings { home_base_lat = some (pos 3); home_base_lng = some (pos 4) }

abbrev home_rows : Store
home_rows = record rows { settings = at_home ∷ [] }

run_check_answers_example :
    (r : CittResult) × ((run_check env none 1 offer home_rows).0 ≡ ok r)
    × IsAnswer 1 offer
        (record { lat = pos 3; lng = pos 4 })
        (record { lat = pos 1; lng = pos 2 })
        (λ a b. drive)
        (46800000
          + ((minutes_of 1 offer home_rows).signing + (minutes_of 1 offer home_rows).scanback)
            * 60000)
        home_rows.jobs
        r
unfolding find_first
run_check_answers_example =
    run_check_answers env 1 offer home_rows (λ a b. drive) {settings = at_home}
      {home = record { lat = pos 3; lng = pos 4 }} {there = record { lat = pos 1; lng = pos 2 }}
      refl refl refl (λ a b. refl)
